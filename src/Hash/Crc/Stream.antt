-- ===== src/Hash/Crc/Stream.antt =====
-- Checking in pieces: src/hash/crc.c.
use Prim.Native.Nat.{bit_and}
use libclod.Prelude.{ℕ, ◌≡◌, ◌∙◌, ap, sym, refl, ◌%◌, ◌^◌, List, [], ◌∷◌, ◌++◌, arith}
use libclod.Prelude.Bits.{and_mask}
use libclod.Hash.Crc.Update.{crc64_add, crc32_add, crc24_loop, crc24_add, crc16_add, crc8_add}

crc64_add_append :
    (xs : List ℕ) (crc : ℕ) (ys : List ℕ)
    → crc64_add crc (xs ++ ys) ≡ crc64_add (crc64_add crc xs) ys
unfolding crc64_add
crc64_add_append [] crc ys = refl
crc64_add_append (x ∷ xs) crc ys = crc64_add_append xs _ ys

crc32_add_append :
    (xs : List ℕ) (crc : ℕ) (ys : List ℕ)
    → crc32_add crc (xs ++ ys) ≡ crc32_add (crc32_add crc xs) ys
unfolding crc32_add
crc32_add_append [] crc ys = refl
crc32_add_append (x ∷ xs) crc ys = crc32_add_append xs _ ys

crc16_add_append :
    (xs : List ℕ) (crc : ℕ) (ys : List ℕ)
    → crc16_add crc (xs ++ ys) ≡ crc16_add (crc16_add crc xs) ys
unfolding crc16_add
crc16_add_append [] crc ys = refl
crc16_add_append (x ∷ xs) crc ys = crc16_add_append xs _ ys

crc8_add_append :
    (xs : List ℕ) (crc : ℕ) (ys : List ℕ) → crc8_add crc (xs ++ ys) ≡ crc8_add (crc8_add crc xs) ys
unfolding crc8_add
crc8_add_append [] crc ys = refl
crc8_add_append (x ∷ xs) crc ys = crc8_add_append xs _ ys

crc24_loop_append :
    (xs : List ℕ) (crc : ℕ) (ys : List ℕ)
    → crc24_loop crc (xs ++ ys) ≡ crc24_loop (crc24_loop crc xs) ys
unfolding crc24_loop
crc24_loop_append [] crc ys = refl
crc24_loop_append (x ∷ xs) crc ys = crc24_loop_append xs _ ys

-- The 24-bit mask changes a masked word no more.
mask24_once : (x : ℕ) → bit_and (bit_and x 0x00FFFFFF) 0x00FFFFFF ≡ bit_and x 0x00FFFFFF
mask24_once x =
    and_mask 24 (bit_and x 0x00FFFFFF)
    ∙ ap (λ y. y % 2 ^ 24) (and_mask 24 x)
    ∙ omega arith
    ∙ sym (and_mask 24 x)

-- A masked word stays masked through the loop.
crc24_loop-masked :
    (xs : List ℕ) (crc : ℕ)
    → bit_and crc 0x00FFFFFF ≡ crc
    → bit_and (crc24_loop crc xs) 0x00FFFFFF ≡ crc24_loop crc xs
unfolding crc24_loop
crc24_loop-masked [] crc masked = masked
crc24_loop-masked (x ∷ xs) crc masked = crc24_loop-masked xs _ (mask24_once _)

crc24_add_append :
    (crc : ℕ) (xs ys : List ℕ) → crc24_add crc (xs ++ ys) ≡ crc24_add (crc24_add crc xs) ys
unfolding crc24_add
crc24_add_append crc xs ys =
    crc24_loop_append xs (bit_and crc 0x00FFFFFF) ys
    ∙ ap (λ c. crc24_loop c ys)
        (sym (crc24_loop-masked xs (bit_and crc 0x00FFFFFF) (mask24_once crc)))

-- For each of the five checks, adding two pieces of data one after the other gives what adding
-- them as one gives, from every state.
crc_add_append :
    (crc : ℕ) (xs ys : List ℕ)
    → (crc64_add crc (xs ++ ys) ≡ crc64_add (crc64_add crc xs) ys)
      × (crc32_add crc (xs ++ ys) ≡ crc32_add (crc32_add crc xs) ys)
      × (crc24_add crc (xs ++ ys) ≡ crc24_add (crc24_add crc xs) ys)
      × (crc16_add crc (xs ++ ys) ≡ crc16_add (crc16_add crc xs) ys)
      × (crc8_add crc (xs ++ ys) ≡ crc8_add (crc8_add crc xs) ys)
crc_add_append crc xs ys = (
  crc64_add_append xs crc ys,
  crc32_add_append xs crc ys,
  crc24_add_append crc xs ys,
  crc16_add_append xs crc ys,
  crc8_add_append xs crc ys,
)
