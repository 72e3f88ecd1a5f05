-- ===== src/BigEndian/Floats.antt =====
-- The encoders and decoders of floating-point numbers in include/clod/big_endian.h. The compiler's
-- `float` and `double` are a type each, with the bits of a number and the number of some bits.
use libclod.Prelude.{ℕ, ◌^◌, ◌<◌, ◌≡◌, ◌∙◌, ap}
use native.Mathlib.Nat.{mod-eq_of_lt}
use libclod.BigEndian.Codec.{beu_enc, beu_dec}
use libclod.BigEndian.RoundTrip.{beu_dec-beu_enc}

module _ {F : Type 0} (to_bits : F → ℕ) (of_bits : ℕ → F) where
  unfoldable pub bef32_enc : (ℕ → ℕ) → ℕ → F → ℕ → ℕ
  unfolding beu_enc
  bef32_enc m ptr f = beu_enc 4 m ptr (to_bits f)

  unfoldable pub bef64_enc : (ℕ → ℕ) → ℕ → F → ℕ → ℕ
  unfolding beu_enc
  bef64_enc m ptr f = beu_enc 8 m ptr (to_bits f)

  unfoldable pub bef32_dec : (ℕ → ℕ) → ℕ → F
  unfolding beu_dec
  bef32_dec m ptr = of_bits (beu_dec 4 m ptr)

  unfoldable pub bef64_dec : (ℕ → ℕ) → ℕ → F
  unfolding beu_dec
  bef64_dec m ptr = of_bits (beu_dec 8 m ptr)

  -- For numbers whose bits fit, and give the number back.
  module _ (same : (f : F) → of_bits (to_bits f) ≡ f) where
    pub bef32_dec-bef32_enc :
        (m : ℕ → ℕ) (ptr : ℕ) (f : F) → to_bits f < 2 ^ 32 → bef32_dec (bef32_enc m ptr f) ptr ≡ f
    unfolding bef32_enc bef32_dec
    bef32_dec-bef32_enc m ptr f fits =
        ap of_bits (beu_dec-beu_enc 4 m ptr (to_bits f) ∙ mod-eq_of_lt fits) ∙ same f

    pub bef64_dec-bef64_enc :
        (m : ℕ → ℕ) (ptr : ℕ) (f : F) → to_bits f < 2 ^ 64 → bef64_dec (bef64_enc m ptr f) ptr ≡ f
    unfolding bef64_enc bef64_dec
    bef64_dec-bef64_enc m ptr f fits =
        ap of_bits (beu_dec-beu_enc 8 m ptr (to_bits f) ∙ mod-eq_of_lt fits) ∙ same f
