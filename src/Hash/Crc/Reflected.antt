-- ===== src/Hash/Crc/Reflected.antt =====
-- The reflected checks of src/hash/crc.c, of 32 and 16 bits, as division one binary digit at a time.
use Prim.Native.Nat.{bit_and, bit_xor}
use native.Mathlib.Nat.{pow-suc}
use libclod.Prelude.{
  ℕ, zero, suc, ◌*◌, ◌/◌, ◌%◌, ◌^◌, ◌<◌, ◌≡◌, refl, sym, ◌∙◌, ap, arith, Bool, true, false,
  Bool-cases, ◌==◌, inl, inr, List, [], ◌∷◌, if◌then◌else◌, get_or, count,
}
use libclod.Prelude.Bits.{and_mask, count_full}
use libclod.Hash.Crc.Tables.{crc32_table, crc16_table}
use libclod.Hash.Crc.Update.{crc32_add, crc16_add}
use libclod.Hash.Crc.Xor.{
  xor_half, xor_parity, xor_zero, zero_xor, xor_self, xor_swap, xor_apart, xor_lt,
}

-- The bytes of a message are below 256.
abbrev pub Bytes : List ℕ → Type 0
Bytes [] = Unit
Bytes (p ∷ bytes) = (p < 256) × Bytes bytes

module _ (polynomial : ℕ) where
  -- The polynomial, if the digit that leaves is 1.
  unfoldable pub subtracted : ℕ → ℕ
  subtracted crc = if crc % 2 == 0 then 0 else polynomial

  -- One digit of the division.
  unfoldable pub divide_digit : ℕ → ℕ
  divide_digit crc = bit_xor (crc / 2) (subtracted crc)

  unfoldable pub divide_digits : ℕ → ℕ → ℕ
  divide_digits zero crc = crc
  divide_digits (suc n) crc = divide_digits n (divide_digit crc)

  -- The remainder of a message, from one of what came before: each byte is added at the low end, and
  -- its eight digits are divided, the lowest first.
  unfoldable pub remainder_of : ℕ → List ℕ → ℕ
  remainder_of crc [] = crc
  remainder_of crc (p ∷ bytes) = remainder_of (divide_digits 8 (bit_xor crc p)) bytes

  subtracted-xor : (a b : ℕ) → subtracted (bit_xor a b) ≡ bit_xor (subtracted a) (subtracted b)
  unfolding subtracted
  subtracted-xor a b =
      let parity = xor_parity a b in
      elim (Bool-cases (a % 2 == 0)) [
        | inl even ↦ elim (Bool-cases (b % 2 == 0)) [
          | inl even' ↦
              let same : (bit_xor a b % 2 == 0) ≡ true = ground (arith, parity, even, even') in
              rw (even, even', same) (sym (zero_xor 0))
          | inr odd' ↦
              let other : (bit_xor a b % 2 == 0) ≡ false = ground (arith, parity, even, odd') in
              rw (even, odd', other) (sym (zero_xor polynomial))
        ]
        | inr odd ↦ elim (Bool-cases (b % 2 == 0)) [
          | inl even' ↦
              let other : (bit_xor a b % 2 == 0) ≡ false = ground (arith, parity, odd, even') in
              rw (odd, even', other) (sym (xor_zero polynomial))
          | inr odd' ↦
              let same : (bit_xor a b % 2 == 0) ≡ true = ground (arith, parity, odd, odd') in
              rw (odd, odd', same) (sym (xor_self polynomial))
        ]
      ]

  divide_digit-xor :
      (a b : ℕ) → divide_digit (bit_xor a b) ≡ bit_xor (divide_digit a) (divide_digit b)
  unfolding divide_digit
  divide_digit-xor a b =
      rw (xor_half a b, subtracted-xor a b) (xor_swap (a / 2) (b / 2) (subtracted a) (subtracted b))

  -- The division is additive.
  divide_digits-xor :
      (n a b : ℕ) → divide_digits n (bit_xor a b) ≡ bit_xor (divide_digits n a) (divide_digits n b)
  unfolding divide_digits
  divide_digits-xor zero a b = refl
  divide_digits-xor (suc n) a b =
      rw (divide_digit-xor a b) (divide_digits-xor n (divide_digit a) (divide_digit b))

  -- Digits that are 0 leave without a subtraction.
  divide_digits-shift : (n q : ℕ) → divide_digits n (q * 2 ^ n) ≡ q
  unfolding divide_digits divide_digit subtracted
  divide_digits-shift zero q = omega arith
  divide_digits-shift (suc n) q =
      let power : 2 ^ suc n ≡ 2 * 2 ^ n = omega (arith, pow-suc 2 n) in
      let double : q * 2 ^ suc n ≡ 2 * (q * 2 ^ n) = rw power (omega arith) in
      let half : 2 * (q * 2 ^ n) / 2 ≡ q * 2 ^ n = omega arith in
      let even : (2 * (q * 2 ^ n) % 2 == 0) ≡ true = ground arith in
      rw (double, half, even, xor_zero (q * 2 ^ n)) (divide_digits-shift n q)

  -- The low byte of the state meets the byte of the message; the rest moves down.
  xor_low :
      (crc p : ℕ) → bit_xor crc p ≡ bit_xor (bit_xor (bit_and crc 0xff) p) (crc / 2 ^ 8 * 2 ^ 8)
  xor_low crc p =
      let low = and_mask 8 crc in
      let below : crc % 2 ^ 8 < 2 ^ 8 = omega arith in
      let parts : crc ≡ bit_xor (crc % 2 ^ 8) (crc / 2 ^ 8 * 2 ^ 8) =
        omega (arith, xor_apart 8 (crc % 2 ^ 8) (crc / 2 ^ 8) below) in
      let split = ap (λ c. bit_xor c (bit_xor p 0)) parts in
      let swapped = xor_swap (crc % 2 ^ 8) (crc / 2 ^ 8 * 2 ^ 8) p 0 in
      let high = crc / 2 ^ 8 * 2 ^ 8 in
      rw low (
        sym (ap (λ t. bit_xor crc t) (xor_zero p))
        ∙ split
        ∙ swapped
        ∙ ap (λ t. bit_xor (bit_xor (crc % 2 ^ 8) p) t) (xor_zero high))

  -- A table of the remainders of all bytes makes one step of eight.
  next_state :
      (table : List ℕ) (crc p : ℕ)
      → ((i : ℕ) → i < 256 → get_or table i 0 ≡ divide_digits 8 i)
      → p < 256
      → bit_xor (get_or table (bit_xor (bit_and crc 0xff) p) 0) (crc / 2 ^ 8)
        ≡ divide_digits 8 (bit_xor crc p)
  next_state table crc p filled byte =
      let index = bit_xor (bit_and crc 0xff) p in
      let low : bit_and crc 0xff < 2 ^ 8 = omega (arith, and_mask 8 crc) in
      let below : index < 256 = xor_lt 8 (bit_and crc 0xff) p low byte in
      let added = divide_digits-xor 8 index (crc / 2 ^ 8 * 2 ^ 8) in
      rw (filled index below) (
        sym (ap (λ t. bit_xor (divide_digits 8 index) t) (divide_digits-shift 8 (crc / 2 ^ 8)))
        ∙ sym added
        ∙ ap (divide_digits 8) (sym (xor_low crc p)))

-- The reflected polynomials
abbrev pub polynomial32 : ℕ
polynomial32 = 0xEDB88320

abbrev pub polynomial16 : ℕ
polynomial16 = 0x8408

abbrev right : List ℕ → ℕ → ℕ → Bool
right table polynomial i = get_or table i 0 == divide_digits polynomial 8 i

right_at :
    (table : List ℕ) (polynomial : ℕ)
    → count (right table polynomial) 256 ≡ 256
    → (i : ℕ) → i < 256
    → get_or table i 0 ≡ divide_digits polynomial 8 i
right_at table polynomial all i below =
    ground (arith, count_full (right table polynomial) 256 i below all)

count-right32 : count (right crc32_table polynomial32) 256 ≡ 256
unfolding count divide_digits divide_digit subtracted
count-right32 = refl

count-right16 : count (right crc16_table polynomial16) 256 ≡ 256
unfolding count divide_digits divide_digit subtracted
count-right16 = refl

pub crc32_add-remainder_of :
    (bytes : List ℕ) (crc : ℕ)
    → Bytes bytes
    → crc32_add crc bytes ≡ remainder_of polynomial32 crc bytes
unfolding crc32_add remainder_of
crc32_add-remainder_of [] crc all = refl
crc32_add-remainder_of (p ∷ bytes) crc (byte, all) =
    rw
      (next_state polynomial32 crc32_table crc p (right_at crc32_table polynomial32 count-right32)
        byte)
      (crc32_add-remainder_of bytes _ all)

pub crc16_add-remainder_of :
    (bytes : List ℕ) (crc : ℕ)
    → Bytes bytes
    → crc16_add crc bytes ≡ remainder_of polynomial16 crc bytes
unfolding crc16_add remainder_of
crc16_add-remainder_of [] crc all = refl
crc16_add-remainder_of (p ∷ bytes) crc (byte, all) =
    rw
      (next_state polynomial16 crc16_table crc p (right_at crc16_table polynomial16 count-right16)
        byte)
      (crc16_add-remainder_of bytes _ all)
