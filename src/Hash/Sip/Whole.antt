-- ===== src/Hash/Sip/Whole.antt =====
-- Calls of src/hash/siphash.c over the whole life of a state: `init`, any number of `add`s,
-- `finalise`, and the one-shot `clod_sip64`.
use mathlib.Core.List.{append-nil, append_assoc}
use Prim.Native.Nat.{bit_or}
use native.Mathlib.Nat.{one-le-pow, mul-le-mul_right, mul_comm}
use libclod.Prelude.{
  ℕ, zero, suc, ◌+◌, ◌-◌, ◌*◌, ◌/◌, ◌%◌, ◌^◌, ◌≤◌, ◌<◌, ◌≡◌, refl, ap, sym, ◌∙◌, List, [], ◌∷◌,
  ◌++◌, arith, length, drop, u64, u64_small, length-drop, replicate,
}
use libclod.Prelude.Bits.{or_low, power_add}
use libclod.Hash.Sip.{
  State, init, compress, sip_round, read_uint64, add, finalise, data_size, remaining, sip64,
}
use libclod.Hash.Sip.Word.{IsBytes, IsBytes-drop, le_number, le_number-lt, read_uint64_lem}
use libclod.Hash.Sip.Fields.{remaining_lem, data_size_lem}
use libclod.Hash.Sip.Reference.{Core, core, take_word, words, last_word, mix, reference}
use libclod.Hash.Sip.Paper.{sip_hash_with, reference-sip_hash_with}
use libclod.Hash.Sip.Stream.{Absorbed}
use libclod.Hash.Sip.Add.{add-Absorbed}

IsBytes-zeros : (n : ℕ) → IsBytes (replicate n 0)
IsBytes-zeros zero = tt
IsBytes-zeros (suc n) = (omega arith, IsBytes-zeros n)

pub init-Absorbed : (seed : ℕ) → Absorbed (core (init seed)) [] (init seed)
unfolding init words
init-Absorbed seed = record {
  mixed = refl;
  sized = refl;
  buffered = refl;
  room = refl;
  bytes_buf = IsBytes-zeros 7;
  bytes = tt;
}

final_word : State → ℕ
unfolding read_uint64 remaining data_size
final_word s = bit_or (read_uint64 s.buf (remaining s)) (u64 (data_size s * 2 ^ 56))

finalise-mix : (s : State) → finalise s ≡ mix (take_word (core s) (final_word s))
unfolding finalise compress sip_round final_word
finalise-mix s = refl

final_word-last_word :
    (c : Core) (msg : List ℕ) (s : State) → Absorbed c msg s → final_word s ≡ last_word msg
unfolding final_word
final_word-last_word c msg s at =
    let r = length msg % 8 in
    let few : r < 8 = omega arith in
    let rem = remaining_lem s (length msg) r at.sized few in
    let size = data_size_lem s (length msg) r at.sized few in
    let tail = drop (8 * (length msg / 8)) msg in
    let read =
      read_uint64_lem s.buf r at.bytes_buf (omega (arith, at.room)) (omega arith)
      ∙ ap le_number at.buffered in
    let low = le_number-lt tail (IsBytes-drop (8 * (length msg / 8)) msg at.bytes) in
    let tail_length : length tail ≡ r = omega (arith, length-drop (8 * (length msg / 8)) msg) in
    let power = power_add (8 * length tail) (56 - 8 * length tail) in
    let positive : 1 ≤ 2 ^ (56 - 8 * length tail) =
      one-le-pow (56 - 8 * length tail) 2 (omega arith) in
    let grow : 2 ^ (8 * length tail) ≤ 2 ^ (8 * length tail) * 2 ^ (56 - 8 * length tail) =
      let product = mul-le-mul_right (2 ^ (8 * length tail)) positive in
      omega (arith, product, mul_comm (2 ^ (8 * length tail)) (2 ^ (56 - 8 * length tail))) in
    let sum : 8 * length tail + (56 - 8 * length tail) ≡ 56 = omega arith in
    let power' = rw sum at power in
    let below : le_number tail < 2 ^ 56 = omega arith in
    let wraps_not : u64 (length msg % 32 * 2 ^ 56) ≡ length msg % 32 * 2 ^ 56 =
      u64_small _ (omega arith) in
    rw (rem, size, read, wraps_not) (or_low 56 (le_number tail) (length msg % 32) below)

pub finalise_lem :
    (c : Core) (msg : List ℕ) (s : State) → Absorbed c msg s → finalise s ≡ reference c msg
unfolding reference
finalise_lem c msg s at =
    finalise-mix s
    ∙ ap (λ k. mix (take_word k (final_word s))) at.mixed
    ∙ ap (λ w. mix (take_word (words (length msg / 8) c msg) w)) (final_word-last_word c msg s at)

-- The state after calls of `add` for the pieces of a message.
unfoldable pub add_all : State → List (List ℕ) → State
add_all s [] = s
add_all s (piece ∷ pieces) = add_all (add s piece) pieces

abbrev pub joined : List (List ℕ) → List ℕ
joined [] = []
joined (piece ∷ pieces) = piece ++ joined pieces

-- Pieces of bytes, each shorter than 2 ^ 63.
abbrev pub ArePieces : List (List ℕ) → Type 0
ArePieces [] = Unit
ArePieces (piece ∷ pieces) = IsBytes piece × (length piece < 2 ^ 63) × ArePieces pieces

add_all-Absorbed :
    (pieces : List (List ℕ)) (c : Core) (msg : List ℕ) (s : State)
    → Absorbed c msg s
    → ArePieces pieces
    → Absorbed c (msg ++ joined pieces) (add_all s pieces)
unfolding add_all
add_all-Absorbed [] c msg s at are = let same = append-nil msg in rw same at
add_all-Absorbed (piece ∷ pieces) c msg s at (is, fits, are) =
    let next = add-Absorbed c msg piece s at is fits in
    let more = add_all-Absorbed pieces c (msg ++ piece) (add s piece) next are in
    rw (sym (append_assoc msg piece (joined pieces))) more

finalise-reference :
    (seed : ℕ) (pieces : List (List ℕ))
    → ArePieces pieces
    → finalise (add_all (init seed) pieces) ≡ reference (core (init seed)) (joined pieces)
finalise-reference seed pieces are =
    finalise_lem (core (init seed)) (joined pieces) (add_all (init seed) pieces)
      (add_all-Absorbed pieces (core (init seed)) [] (init seed) (init-Absorbed seed) are)

-- `init` with a seed, `add` once for each of any pieces, of bytes and shorter than 2 ^ 63, and
-- `finalise` give the value of SipHash 2-4 as its paper defines it, for the pieces joined together
-- and the seed as both words of the key, but for two things: the constant of the finalisation is
-- 0xee, and the byte of the length is the length modulo 32.
pub finalise-add_all :
    (seed : ℕ) (pieces : List (List ℕ))
    → ArePieces pieces
    → finalise (add_all (init seed) pieces)
      ≡ sip_hash_with 0xee (length (joined pieces) % 32) seed seed (joined pieces)
finalise-add_all seed pieces are =
    finalise-reference seed pieces are ∙ reference-sip_hash_with seed (joined pieces)

sip64_lem :
    (seed : ℕ) (bytes : List ℕ)
    → IsBytes bytes
    → length bytes < 2 ^ 63
    → sip64 seed bytes ≡ reference (core (init seed)) bytes
unfolding sip64
sip64_lem seed bytes is fits =
    finalise_lem (core (init seed)) bytes (add (init seed) bytes)
      (add-Absorbed (core (init seed)) [] bytes (init seed) (init-Absorbed seed) is fits)

-- For any pieces of bytes, each shorter than 2 ^ 63 and shorter than 2 ^ 63 together, `init`, one
-- `add` for each piece and `finalise` give what the one-shot `clod_sip64` gives for the pieces
-- joined together with the same seed.
pub finalise-sip64 :
    (seed : ℕ) (pieces : List (List ℕ))
    → ArePieces pieces
    → IsBytes (joined pieces)
    → length (joined pieces) < 2 ^ 63
    → finalise (add_all (init seed) pieces) ≡ sip64 seed (joined pieces)
finalise-sip64 seed pieces are is fits =
    finalise-reference seed pieces are ∙ sym (sip64_lem seed (joined pieces) is fits)
