-- ===== src/Hash/Sip/Reference.antt =====
-- What the streaming code of src/hash/siphash.c makes of a whole message, by the rounds of that
-- code: the words of the message one after the other, then the word of its tail and length.
use Prim.Native.Nat.{bit_xor}
use libclod.Prelude.{
  ℕ, zero, suc, ◌+◌, ◌*◌, ◌/◌, ◌%◌, ◌^◌, ◌≤◌, ◌≡◌, refl, List, [], ◌++◌, arith, length, take, drop,
  take_append_less, drop_append_less, length-drop,
}
use libclod.Hash.Sip.{State, compress, sip_round}
use libclod.Hash.Sip.Word.{le_number}

-- The four words of a state.
pub record Core : Type 0 where
  pub v0 : ℕ
  pub v1 : ℕ
  pub v2 : ℕ
  pub v3 : ℕ

abbrev pub core : State → Core
core s = record { v0 = s.v0; v1 = s.v1; v2 = s.v2; v3 = s.v3 }

abbrev pub state_of : Core → State
state_of c = record { v0 = c.v0; v1 = c.v1; v2 = c.v2; v3 = c.v3; size = 0; buf = [] }

abbrev pub take_word : Core → ℕ → Core
take_word c d = core (compress (state_of c) d)

-- The first `n` words of a message.
unfoldable pub words : ℕ → Core → List ℕ → Core
words zero c msg = c
words (suc n) c msg = take_word (words n c msg) (le_number (take 8 (drop (8 * n) msg)))

-- The last word: what is left of the message, and the length in the top byte, cut to five digits.
abbrev pub last_word : List ℕ → ℕ
last_word msg = le_number (drop (8 * (length msg / 8)) msg) + length msg % 32 * 2 ^ 56

abbrev pub mix : Core → ℕ
mix c =
    let s = state_of c in
    let r = sip_round (sip_round (sip_round (sip_round (record s { v2 = bit_xor s.v2 0xee })))) in
    bit_xor (bit_xor (bit_xor r.v0 r.v1) r.v2) r.v3

unfoldable pub reference : Core → List ℕ → ℕ
reference c msg = mix (take_word (words (length msg / 8) c msg) (last_word msg))

-- More data behind does not change the words that are there.
pub words-append :
    (n : ℕ) (c : Core) (xs ys : List ℕ) → 8 * n ≤ length xs → words n c (xs ++ ys) ≡ words n c xs
unfolding words
words-append zero c xs ys enough = refl
words-append (suc n) c xs ys enough =
    let from = drop_append_less (8 * n) xs ys (omega arith) in
    let there : 8 ≤ length (drop (8 * n) xs) = omega (arith, length-drop (8 * n) xs) in
    let same = take_append_less 8 (drop (8 * n) xs) ys there in
    rw (from, same, words-append n c xs ys (omega arith)) refl
