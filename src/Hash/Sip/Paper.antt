-- ===== src/Hash/Sip/Paper.antt =====
-- SipHash 2-4 after "SipHash: a fast short-input PRF" (Aumasson and Bernstein, 2012), written out
-- apart from the code of src/hash/siphash.c, and the values of the code in its terms. What the code
-- does otherwise are parameters: the constant of the finalisation and the byte of the length.
use Prim.Native.Nat.{bit_or, bit_xor}
use libclod.Prelude.{
  ℕ, zero, suc, ◌+◌, ◌-◌, ◌*◌, ◌/◌, ◌%◌, ◌^◌, ◌≡◌, ◌∙◌, refl, ap, List, [], ◌∷◌, length, take, drop,
}
use libclod.Hash.Sip.{init, compress, sip_round, rotate_left}
use libclod.Hash.Sip.Word.{le_number}
use libclod.Hash.Sip.Reference.{Core, core, take_word, words, last_word, mix, reference}

-- "somepseudorandomlygeneratedbytes"
abbrev text : List ℕ
text =
    115 ∷ 111 ∷ 109 ∷ 101 ∷ 112 ∷ 115 ∷ 101 ∷ 117 ∷ 100 ∷ 111 ∷ 114 ∷ 97 ∷ 110 ∷ 100 ∷ 111 ∷ 109
    ∷ 108 ∷ 121 ∷ 103 ∷ 101 ∷ 110 ∷ 101 ∷ 114 ∷ 97 ∷ 116 ∷ 101 ∷ 100 ∷ 98 ∷ 121 ∷ 116 ∷ 101 ∷ 115
    ∷ []

-- A number whose most significant byte is the first.
abbrev be_number : ℕ → List ℕ → ℕ
be_number high [] = high
be_number high (b ∷ bs) = be_number (high * 256 + b) bs

abbrev constant : ℕ → ℕ
constant i = be_number 0 (take 8 (drop (8 * i) text))

-- The start, from the two words of the key.
abbrev keyed : ℕ → ℕ → Core
keyed k0 k1 = record {
  v0 = bit_xor (constant 0) k0;
  v1 = bit_xor (constant 1) k1;
  v2 = bit_xor (constant 2) k0;
  v3 = bit_xor (constant 3) k1;
}

-- A rotation of 64 binary digits to the left.
abbrev rotated : ℕ → ℕ → ℕ
rotated k x = bit_or (x * 2 ^ k % 2 ^ 64) (x / 2 ^ (64 - k))

-- Half a round: two sums, with rotations by `s` and `t` of what was added, and of one sum by 32.
abbrev half_round : ℕ → ℕ → Core → Core
half_round s t c = record {
  v0 = rotated 32 ((c.v0 + c.v1) % 2 ^ 64);
  v1 = bit_xor (rotated s c.v1) ((c.v0 + c.v1) % 2 ^ 64);
  v2 = (c.v2 + c.v3) % 2 ^ 64;
  v3 = bit_xor (rotated t c.v3) ((c.v2 + c.v3) % 2 ^ 64);
}

abbrev swapped : Core → Core
swapped c = record { v0 = c.v2; v1 = c.v1; v2 = c.v0; v3 = c.v3 }

-- SipRound: the second half adds crosswise.
abbrev sip_round_of : Core → Core
sip_round_of c = swapped (half_round 17 21 (swapped (half_round 13 16 c)))

-- So many rounds.
abbrev rounds : ℕ → Core → Core
rounds zero c = c
rounds (suc n) c = sip_round_of (rounds n c)

-- A word of the message, with two rounds.
abbrev compressed : Core → ℕ → Core
compressed c d =
    let r = rounds 2 (record c { v3 = bit_xor c.v3 d }) in record r { v0 = bit_xor r.v0 d }

-- The first `n` words of a message, of eight bytes each.
abbrev compressed_words : ℕ → Core → List ℕ → Core
compressed_words zero c msg = c
compressed_words (suc n) c msg =
    compressed (compressed_words n c msg) (le_number (take 8 (drop (8 * n) msg)))

-- The bytes that are left, and the byte of the length in front of them.
abbrev tail_word : ℕ → List ℕ → ℕ
tail_word length_byte msg = le_number (drop (8 * (length msg / 8)) msg) + length_byte * 2 ^ 56

-- The finalisation, with four rounds.
abbrev finalised : ℕ → Core → ℕ
finalised constant c =
    let r = rounds 4 (record c { v2 = bit_xor c.v2 constant }) in
    bit_xor (bit_xor (bit_xor r.v0 r.v1) r.v2) r.v3

-- SipHash 2-4, but for the constant of the finalisation and the byte of the length.
unfoldable pub sip_hash_with : ℕ → ℕ → ℕ → ℕ → List ℕ → ℕ
sip_hash_with constant length_byte k0 k1 msg =
    let c = compressed_words (length msg / 8) (keyed k0 k1) msg in
    finalised constant (compressed c (tail_word length_byte msg))

-- SipHash 2-4.
abbrev pub sip_hash : ℕ → ℕ → List ℕ → ℕ
sip_hash k0 k1 msg = sip_hash_with 0xff (length msg % 256) k0 k1 msg

take_word-compressed : (c : Core) (d : ℕ) → take_word c d ≡ compressed c d
unfolding compress sip_round rotate_left
take_word-compressed c d = refl

words-compressed : (n : ℕ) (c : Core) (msg : List ℕ) → words n c msg ≡ compressed_words n c msg
unfolding words
words-compressed zero c msg = refl
words-compressed (suc n) c msg =
    let word = le_number (take 8 (drop (8 * n) msg)) in
    take_word-compressed (words n c msg) word
    ∙ ap (λ k. compressed k word) (words-compressed n c msg)

mix-finalised : (c : Core) → mix c ≡ finalised 0xee c
unfolding sip_round rotate_left
mix-finalised c = refl

init-keyed : (seed : ℕ) → core (init seed) ≡ keyed seed seed
unfolding init
init-keyed seed = refl

pub reference-sip_hash_with :
    (seed : ℕ) (msg : List ℕ)
    → reference (core (init seed)) msg ≡ sip_hash_with 0xee (length msg % 32) seed seed msg
unfolding reference sip_hash_with
reference-sip_hash_with seed msg =
    let n = length msg / 8 in
    let same =
      words-compressed n (core (init seed)) msg
      ∙ ap (λ c. compressed_words n c msg) (init-keyed seed) in
    mix-finalised (take_word (words n (core (init seed)) msg) (last_word msg))
    ∙ ap (λ c. finalised 0xee c)
        (take_word-compressed (words n (core (init seed)) msg) (last_word msg)
          ∙ ap (λ c. compressed c (last_word msg)) same)
