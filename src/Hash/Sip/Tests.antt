-- ===== src/Hash/Sip/Tests.antt =====
-- SipHash on concrete messages.
use libclod.Prelude.{
  length, ◌%◌, ℕ, Bool, true, ◌&&◌, ltb, refl, ◌≡◌, List, [], ◌∷◌, arith, replicate,
}
use libclod.Hash.Sip.{init, finalise, sip64}
use libclod.Hash.Sip.Paper.{sip_hash_with, sip_hash}
use libclod.Hash.Sip.Whole.{add_all, joined, ArePieces, finalise-add_all, finalise-sip64}
use libclod.Hash.Sip.Word.{IsBytes}

-- The published values for the key of the bytes 0 to 15, of the empty message and of the bytes 0 to 14.
sip_hash_empty : sip_hash 0x0706050403020100 0x0f0e0d0c0b0a0908 [] ≡ 0x726fdb47dd0e0e31
unfolding sip_hash_with
sip_hash_empty = refl

sip_hash_fifteen :
    sip_hash 0x0706050403020100 0x0f0e0d0c0b0a0908
      (0 ∷ 1 ∷ 2 ∷ 3 ∷ 4 ∷ 5 ∷ 6 ∷ 7 ∷ 8 ∷ 9 ∷ 10 ∷ 11 ∷ 12 ∷ 13 ∷ 14 ∷ [])
    ≡ 0xa129ca6149be45e5
unfolding sip_hash_with
sip_hash_fifteen = refl

abbrev are_bytes : List ℕ → Bool
are_bytes [] = true
are_bytes (b ∷ bs) = ltb b 256 && are_bytes bs

are_bytes-IsBytes : (bs : List ℕ) → are_bytes bs ≡ true → IsBytes bs
are_bytes-IsBytes [] h = tt
are_bytes-IsBytes (b ∷ bs) h = (ground arith, are_bytes-IsBytes bs (ground arith))

abbrev pieces : List (List ℕ)
pieces = (1 ∷ 2 ∷ 3 ∷ []) ∷ [] ∷ (4 ∷ 5 ∷ 6 ∷ 7 ∷ 8 ∷ 9 ∷ 250 ∷ 251 ∷ []) ∷ replicate 9 0 ∷ []

pieces-ArePieces : ArePieces pieces
pieces-ArePieces =
    let nine = are_bytes-IsBytes (replicate 9 0) refl in
    let eight = are_bytes-IsBytes (4 ∷ 5 ∷ 6 ∷ 7 ∷ 8 ∷ 9 ∷ 250 ∷ 251 ∷ []) refl in
    let three = are_bytes-IsBytes (1 ∷ 2 ∷ 3 ∷ []) refl in
    (three, omega arith, (tt, omega arith, (eight, omega arith, (nine, omega arith, tt))))

finalise-add_all_example :
    finalise (add_all (init 42) pieces)
    ≡ sip_hash_with 0xee (length (joined pieces) % 32) 42 42 (joined pieces)
finalise-add_all_example = finalise-add_all 42 pieces pieces-ArePieces

finalise-sip64_example : finalise (add_all (init 42) pieces) ≡ sip64 42 (joined pieces)
finalise-sip64_example =
    finalise-sip64 42 pieces pieces-ArePieces (are_bytes-IsBytes (joined pieces) refl) (omega arith)
