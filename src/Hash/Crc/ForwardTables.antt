-- ===== src/Hash/Crc/ForwardTables.antt =====
-- The checks of src/hash/crc.c that take the highest digit first, of 64, 24 and 8 bits, with their tables.
use Prim.Native.Nat.{bit_and, bit_xor}
use native.Mathlib.Nat.{one-le-pow, mul-le-mul_right, mod-eq_of_lt}
use libclod.Prelude.{
  ℕ, ◌+◌, ◌*◌, ◌/◌, ◌%◌, ◌^◌, ◌<◌, ◌≤◌, ◌≡◌, refl, sym, ◌∙◌, ap, arith, Bool, ◌==◌, List, [], ◌∷◌,
  get_or, count, u64,
}
use libclod.Prelude.Bits.{and_mask, count_full, power_add}
use libclod.Hash.Crc.Table64.{crc64_table}
use libclod.Hash.Crc.Tables.{crc24_table, crc8_table}
use libclod.Hash.Crc.Update.{crc64_add, crc24_loop, crc24_add, crc8_add}
use libclod.Hash.Crc.Reflected.{Bytes}
use libclod.Hash.Crc.Xor.{xor_lt, xor_mod}
use libclod.Hash.Crc.Forward.{
  subtracted, divide_digit, divide_digits, remainder_of, next_state, divide_digits-lt,
}

abbrev pub polynomial64 : ℕ
polynomial64 = 0x42F0E1EBA9EA3693

abbrev pub polynomial24 : ℕ
polynomial24 = 0x864CFB

abbrev pub polynomial8 : ℕ
polynomial8 = 0x07

abbrev right : List ℕ → ℕ → ℕ → ℕ → Bool
right table m polynomial i = get_or table i 0 == divide_digits m polynomial 8 (i * 2 ^ m)

right_at :
    (table : List ℕ) (m polynomial : ℕ)
    → count (right table m polynomial) 256 ≡ 256
    → (i : ℕ) → i < 256
    → get_or table i 0 ≡ divide_digits m polynomial 8 (i * 2 ^ m)
right_at table m polynomial all i below =
    ground (arith, count_full (right table m polynomial) 256 i below all)

count-right64 : count (right crc64_table 56 polynomial64) 256 ≡ 256
unfolding count divide_digits divide_digit subtracted
count-right64 = refl

count-right24 : count (right crc24_table 16 polynomial24) 256 ≡ 256
unfolding count divide_digits divide_digit subtracted
count-right24 = refl

count-right8 : count (right crc8_table 0 polynomial8) 256 ≡ 256
unfolding count divide_digits divide_digit subtracted
count-right8 = refl

next64 :
    (crc p : ℕ)
    → crc < 2 ^ 64
    → p < 256
    → bit_xor (get_or crc64_table (bit_xor (crc / 2 ^ 56) p) 0) (u64 (crc * 2 ^ 8))
      ≡ divide_digits 56 polynomial64 8 (bit_xor crc (p * 2 ^ 56))
next64 crc p word byte =
    let step =
      next_state 56 polynomial64 crc64_table (crc / 2 ^ 56) (crc % 2 ^ 56) p
        (right_at crc64_table 56 polynomial64 count-right64) (omega (arith, word)) (omega arith)
        byte in
    let moved : u64 (crc * 2 ^ 8) ≡ crc % 2 ^ 56 * 2 ^ 8 = omega (arith, word) in
    let whole : crc ≡ crc % 2 ^ 56 + crc / 2 ^ 56 * 2 ^ 56 = omega arith in
    rw moved (step ∙ ap (λ c. divide_digits 56 polynomial64 8 (bit_xor c (p * 2 ^ 56))) (sym whole))

next24 :
    (crc p : ℕ)
    → crc < 2 ^ 24
    → p < 256
    → bit_and
        (bit_xor (get_or crc24_table (bit_xor (crc / 2 ^ 16) p) 0) (crc * 2 ^ 8 % 2 ^ 32))
        0x00FFFFFF
      ≡ divide_digits 16 polynomial24 8 (bit_xor crc (p * 2 ^ 16))
next24 crc p word byte =
    let filled = right_at crc24_table 16 polynomial24 count-right24 in
    let high : crc / 2 ^ 16 < 256 = omega (arith, word) in
    let index = bit_xor (crc / 2 ^ 16) p in
    let entry = get_or crc24_table index 0 in
    let shifted = crc * 2 ^ 8 % 2 ^ 32 in
    let step =
      next_state 16 polynomial24 crc24_table (crc / 2 ^ 16) (crc % 2 ^ 16) p filled high
        (omega arith) byte in
    let index_below : index < 2 ^ 8 = xor_lt 8 (crc / 2 ^ 16) p high byte in
    let entry_below : entry < 2 ^ 24 = rw (filled index index_below) (
      divide_digits-lt 16 polynomial24 8 (index * 2 ^ 16) (omega arith)
        (omega (arith, index_below))) in
    let moved : shifted % 2 ^ 24 ≡ crc % 2 ^ 16 * 2 ^ 8 = omega (arith, word) in
    let whole : crc ≡ crc % 2 ^ 16 + crc / 2 ^ 16 * 2 ^ 16 = omega arith in
    and_mask 24 (bit_xor entry shifted)
    ∙ xor_mod 24 entry shifted
    ∙ ap (λ t. bit_xor t (shifted % 2 ^ 24)) (mod-eq_of_lt entry_below)
    ∙ ap (λ t. bit_xor entry t) moved
    ∙ step
    ∙ ap (λ c. divide_digits 16 polynomial24 8 (bit_xor c (p * 2 ^ 16))) (sym whole)

next8 :
    (crc p : ℕ)
    → crc < 2 ^ 8
    → p < 256
    → bit_xor (get_or crc8_table (bit_xor (bit_and crc 0xff) p) 0) (crc / 2 ^ 8)
      ≡ divide_digits 0 polynomial8 8 (bit_xor crc (p * 2 ^ 0))
next8 crc p word byte =
    let step =
      next_state 0 polynomial8 crc8_table crc 0 p (right_at crc8_table 0 polynomial8 count-right8)
        word (omega arith) byte in
    let low : bit_and crc 0xff ≡ crc = and_mask 8 crc ∙ mod-eq_of_lt word in
    let none : crc / 2 ^ 8 ≡ 0 = omega (arith, word) in
    let whole : crc ≡ 0 + crc * 2 ^ 0 = omega arith in
    rw (low, none)
      (step ∙ ap (λ c. divide_digits 0 polynomial8 8 (bit_xor c (p * 2 ^ 0))) (sym whole))

-- A step of the division stays within the digits of the state.
step-lt :
    (m polynomial crc p : ℕ)
    → polynomial < 2 ^ (m + 8)
    → crc < 2 ^ (m + 8)
    → p < 256
    → divide_digits m polynomial 8 (bit_xor crc (p * 2 ^ m)) < 2 ^ (m + 8)
step-lt m polynomial crc p small word byte =
    let high : p * 2 ^ m < 2 ^ (m + 8) = shifted_byte in
    divide_digits-lt m polynomial 8 (bit_xor crc (p * 2 ^ m)) small
      (xor_lt (m + 8) crc (p * 2 ^ m) word high)
  where
    shifted_byte : p * 2 ^ m < 2 ^ (m + 8)
    shifted_byte =
        let positive : 1 ≤ 2 ^ m = one-le-pow m 2 (omega arith) in
        let p_le : p ≤ 255 = omega (arith, byte) in
        let bound = mul-le-mul_right (2 ^ m) p_le in omega (arith, bound, power_add m 8, positive)

pub crc64_add-remainder_of :
    (bytes : List ℕ) (crc : ℕ)
    → crc < 2 ^ 64
    → Bytes bytes
    → crc64_add crc bytes ≡ remainder_of 56 polynomial64 crc bytes
unfolding crc64_add remainder_of
crc64_add-remainder_of [] crc word all = refl
crc64_add-remainder_of (p ∷ bytes) crc word (byte, all) =
    rw (next64 crc p word byte)
      (crc64_add-remainder_of bytes _ (step-lt 56 polynomial64 crc p (omega arith) word byte) all)

crc24_loop-remainder_of :
    (bytes : List ℕ) (crc : ℕ)
    → crc < 2 ^ 24
    → Bytes bytes
    → crc24_loop crc bytes ≡ remainder_of 16 polynomial24 crc bytes
unfolding crc24_loop remainder_of
crc24_loop-remainder_of [] crc word all = refl
crc24_loop-remainder_of (p ∷ bytes) crc word (byte, all) =
    rw (next24 crc p word byte)
      (crc24_loop-remainder_of bytes _ (step-lt 16 polynomial24 crc p (omega arith) word byte) all)

pub crc8_add-remainder_of :
    (bytes : List ℕ) (crc : ℕ)
    → crc < 2 ^ 8
    → Bytes bytes
    → crc8_add crc bytes ≡ remainder_of 0 polynomial8 crc bytes
unfolding crc8_add remainder_of
crc8_add-remainder_of [] crc word all = refl
crc8_add-remainder_of (p ∷ bytes) crc word (byte, all) =
    rw (next8 crc p word byte)
      (crc8_add-remainder_of bytes _ (step-lt 0 polynomial8 crc p (omega arith) word byte) all)

pub crc24_add-remainder_of :
    (bytes : List ℕ) (crc : ℕ)
    → Bytes bytes
    → crc24_add crc bytes ≡ remainder_of 16 polynomial24 (crc % 2 ^ 24) bytes
unfolding crc24_add
crc24_add-remainder_of bytes crc all =
    ap (λ c. crc24_loop c bytes) (and_mask 24 crc)
    ∙ crc24_loop-remainder_of bytes (crc % 2 ^ 24) (omega arith) all
