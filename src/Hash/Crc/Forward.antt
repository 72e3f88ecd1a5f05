-- ===== src/Hash/Crc/Forward.antt =====
-- The division of a message by a polynomial one binary digit at a time, the highest digit first, and
-- the step of eight digits with a table, as src/hash/crc.c makes it for 64, 24 and 8 bits.
use Prim.Native.Nat.{bit_xor}
use native.Mathlib.Nat.{pow-suc, mod-lt, one-le-pow, mod-eq_of_lt, div-eq_of_lt}
use libclod.Prelude.{
  ℕ, zero, suc, ◌+◌, ◌*◌, ◌/◌, ◌%◌, ◌^◌, ◌<◌, ◌≤◌, ◌≡◌, refl, sym, ◌∙◌, ap, arith, true, false,
  Bool-cases, ◌==◌, inl, inr, List, [], ◌∷◌, if◌then◌else◌, get_or,
}
use libclod.Prelude.Bits.{power_add}
use libclod.Hash.Crc.Xor.{
  xor_parity, xor_zero, zero_xor, xor_self, xor_swap, xor_apart, xor_lt, xor_double, xor_times,
  xor_over, xor_mod,
}

-- With `m` digits below the highest byte.
module _ (m polynomial : ℕ) where
  -- The polynomial, if the highest digit is 1.
  unfoldable pub subtracted : ℕ → ℕ
  subtracted crc = if crc / 2 ^ (m + 7) % 2 == 0 then 0 else polynomial

  -- One digit of the division.
  unfoldable pub divide_digit : ℕ → ℕ
  divide_digit crc = bit_xor (2 * crc % 2 ^ (m + 8)) (subtracted crc)

  unfoldable pub divide_digits : ℕ → ℕ → ℕ
  divide_digits zero crc = crc
  divide_digits (suc n) crc = divide_digits n (divide_digit crc)

  -- The remainder of a message, from one of what came before: each byte is added at the high end, and
  -- its eight digits are divided, the highest first.
  unfoldable pub remainder_of : ℕ → List ℕ → ℕ
  remainder_of crc [] = crc
  remainder_of crc (p ∷ bytes) = remainder_of (divide_digits 8 (bit_xor crc (p * 2 ^ m))) bytes

  subtracted-xor : (a b : ℕ) → subtracted (bit_xor a b) ≡ bit_xor (subtracted a) (subtracted b)
  unfolding subtracted
  subtracted-xor a b =
      let top = xor_over (m + 7) a b in
      let parity = xor_parity (a / 2 ^ (m + 7)) (b / 2 ^ (m + 7)) in
      elim (Bool-cases (a / 2 ^ (m + 7) % 2 == 0)) [
        | inl even ↦ elim (Bool-cases (b / 2 ^ (m + 7) % 2 == 0)) [
          | inl even' ↦
              let same : (bit_xor a b / 2 ^ (m + 7) % 2 == 0) ≡ true =
                ground (arith, top, parity, even, even') in
              rw (even, even', same) (sym (zero_xor 0))
          | inr odd' ↦
              let other : (bit_xor a b / 2 ^ (m + 7) % 2 == 0) ≡ false =
                ground (arith, top, parity, even, odd') in
              rw (even, odd', other) (sym (zero_xor polynomial))
        ]
        | inr odd ↦ elim (Bool-cases (b / 2 ^ (m + 7) % 2 == 0)) [
          | inl even' ↦
              let other : (bit_xor a b / 2 ^ (m + 7) % 2 == 0) ≡ false =
                ground (arith, top, parity, odd, even') in
              rw (odd, even', other) (sym (xor_zero polynomial))
          | inr odd' ↦
              let same : (bit_xor a b / 2 ^ (m + 7) % 2 == 0) ≡ true =
                ground (arith, top, parity, odd, odd') in
              rw (odd, odd', same) (sym (xor_self polynomial))
        ]
      ]

  divide_digit-xor :
      (a b : ℕ) → divide_digit (bit_xor a b) ≡ bit_xor (divide_digit a) (divide_digit b)
  unfolding divide_digit
  divide_digit-xor a b =
      rw (sym (xor_double a b), xor_mod (m + 8) (2 * a) (2 * b), subtracted-xor a b)
        (xor_swap (2 * a % 2 ^ (m + 8)) (2 * b % 2 ^ (m + 8)) (subtracted a) (subtracted b))

  -- The division is additive.
  divide_digits-xor :
      (n a b : ℕ) → divide_digits n (bit_xor a b) ≡ bit_xor (divide_digits n a) (divide_digits n b)
  unfolding divide_digits
  divide_digits-xor zero a b = refl
  divide_digits-xor (suc n) a b =
      rw (divide_digit-xor a b) (divide_digits-xor n (divide_digit a) (divide_digit b))

  double_top : 2 ^ (m + 8) ≡ 2 * 2 ^ (m + 7)
  double_top =
      let more : m + 8 ≡ suc (m + 7) = omega arith in rw more (omega (arith, pow-suc 2 (m + 7)))

  -- A highest digit of 0 leaves without a subtraction.
  divide_digit-small : (c : ℕ) → c < 2 ^ (m + 7) → divide_digit c ≡ 2 * c
  unfolding divide_digit subtracted
  divide_digit-small c small =
      let none : c / 2 ^ (m + 7) ≡ 0 = div-eq_of_lt small in
      let fits : 2 * c < 2 ^ (m + 8) = omega (arith, double_top, small) in
      rw (none, mod-eq_of_lt fits) (xor_zero (2 * c))

  divide_digits-shift : (n c : ℕ) → c * 2 ^ n < 2 ^ (m + 8) → divide_digits n c ≡ c * 2 ^ n
  unfolding divide_digits
  divide_digits-shift zero c small = omega arith
  divide_digits-shift (suc n) c small =
      let power : 2 ^ suc n ≡ 2 * 2 ^ n = omega (arith, pow-suc 2 n) in
      let product : c * 2 ^ suc n ≡ 2 * (c * 2 ^ n) = rw power (omega arith) in
      let product' : 2 * c * 2 ^ n ≡ 2 * (c * 2 ^ n) = omega arith in
      let grows : c ≤ c * 2 ^ n = le_product c n in
      let digit = divide_digit-small c (omega (arith, double_top, product, grows, small)) in
      let rest = divide_digits-shift n (2 * c) (omega (arith, product, product', small)) in
      rw digit (omega (arith, rest, product, product'))
    where
      le_product : (c n : ℕ) → c ≤ c * 2 ^ n
      le_product c zero = omega arith
      le_product c (suc n) =
          let power : 2 ^ suc n ≡ 2 * 2 ^ n = omega (arith, pow-suc 2 n) in
          let product : c * 2 ^ suc n ≡ 2 * (c * 2 ^ n) = rw power (omega arith) in
          omega (arith, product, le_product c n)

  -- A table of the remainders of all bytes makes one step of eight, for a state of a highest byte and
  -- what is below it.
  pub next_state :
      (table : List ℕ) (high low p : ℕ)
      → ((i : ℕ) → i < 256 → get_or table i 0 ≡ divide_digits 8 (i * 2 ^ m))
      → high < 256
      → low < 2 ^ m
      → p < 256
      → bit_xor (get_or table (bit_xor high p) 0) (low * 2 ^ 8)
        ≡ divide_digits 8 (bit_xor (low + high * 2 ^ m) (p * 2 ^ m))
  next_state table high low p filled high_byte below byte =
      let index = bit_xor high p in
      let fits : low * 2 ^ 8 < 2 ^ (m + 8) = omega (arith, power_add m 8, below) in
      let parts = xor_apart m low high below in
      let joined = xor_swap low (high * 2 ^ m) 0 (p * 2 ^ m) in
      let state : bit_xor (low + high * 2 ^ m) (p * 2 ^ m) ≡ bit_xor low (index * 2 ^ m) =
        ap (λ t. bit_xor t (p * 2 ^ m)) (sym parts)
        ∙ ap (λ t. bit_xor (bit_xor low (high * 2 ^ m)) t) (sym (zero_xor (p * 2 ^ m)))
        ∙ joined
        ∙ ap (λ t. bit_xor t (bit_xor (high * 2 ^ m) (p * 2 ^ m))) (xor_zero low)
        ∙ ap (λ t. bit_xor low t) (xor_times m high p) in
      rw
        (
          state,
          divide_digits-xor 8 low (index * 2 ^ m),
          divide_digits-shift 8 low fits,
          filled index (xor_lt 8 high p high_byte byte),
        )
        (commutes (divide_digits 8 (index * 2 ^ m)) (low * 2 ^ 8))
    where
      commutes : (a b : ℕ) → bit_xor a b ≡ bit_xor b a
      commutes a b =
          ap (λ t. bit_xor t b) (sym (zero_xor a))
          ∙ ap (λ t. bit_xor (bit_xor 0 a) t) (sym (xor_zero b))
          ∙ xor_swap 0 a b 0
          ∙ ap (λ t. bit_xor t (bit_xor a 0)) (zero_xor b)
          ∙ ap (λ t. bit_xor b t) (xor_zero a)

  pub divide_digits-lt :
      (n c : ℕ) → polynomial < 2 ^ (m + 8) → c < 2 ^ (m + 8) → divide_digits n c < 2 ^ (m + 8)
  unfolding divide_digits divide_digit subtracted
  divide_digits-lt zero c small below = below
  divide_digits-lt (suc n) c small below =
      let kept : 2 * c % 2 ^ (m + 8) < 2 ^ (m + 8) =
        mod-lt (2 * c) (one-le-pow (m + 8) 2 (omega arith)) in
      divide_digits-lt n _ small
        (xor_lt (m + 8) (2 * c % 2 ^ (m + 8)) (subtracted c) kept (subtracted-lt small))
    where
      subtracted-lt : polynomial < 2 ^ (m + 8) → subtracted c < 2 ^ (m + 8)
      subtracted-lt small = elim (Bool-cases (c / 2 ^ (m + 7) % 2 == 0)) [
        | inl even ↦ rw even (omega (arith, small))
        | inr odd ↦ rw odd small
      ]
