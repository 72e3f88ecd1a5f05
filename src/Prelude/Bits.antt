-- ===== src/Prelude/Bits.antt =====
-- Facts on the bit operations of single bytes, checked at every value.
use Prim.Native.Nat.{
  ℕ, zero, suc, ◌+◌, ◌*◌, ◌/◌, ◌^◌, ◌≤◌, ◌<◌, max, min, digits, bit_and-bitwise, ◌%◌, ◌-◌, bit_and,
  bit_or, bit_or-bitwise,
}
use native.Mathlib.Nat.{
  pow-suc, div-add-mod, div-div-eq-div-mul, mul_assoc, mul_comm, mul-add, one-le-pow, mod-eq_of_lt,
  add-zero,
}
use mathlib.Core.Path.{◌≡◌, refl, sym, ap, ◌∙◌}
use mathlib.Core.Bool.{Bool, true, ◌&&◌}
use native.Mathlib.Omega.{arith}
use libclod.Prelude.Arrays.{count, count-le}
use libclod.Prelude.Tests.{ltb, leb, if◌then◌else◌}

-- A test that counts every index below a bound holds at each of them.
pub count_full : (p : ℕ → Bool) (n j : ℕ) → j < n → count p n ≡ n → p j ≡ true
unfolding count
count_full p zero j below full = absurd (omega arith)
count_full p (suc n) j below full = ground (arith, count-le p n, count_full p n j)

abbrev sets_high : ℕ → Bool
sets_high x = leb 128 (bit_or 128 x) && ltb (bit_or 128 x) 256

abbrev reads_high : ℕ → Bool
reads_high x = if ltb 0 (bit_and 128 x) then leb 128 x else ltb x 128

count-sets_high : count sets_high 256 ≡ 256
unfolding count
count-sets_high = refl

-- Setting the high bit of a byte gives a byte of at least 128.
pub bit_or_high : (x : ℕ) → x < 256 → (128 ≤ bit_or 128 x) × (bit_or 128 x < 256)
bit_or_high x byte = ground (arith, count_full sets_high 256 x byte count-sets_high)

count-reads_high : count reads_high 256 ≡ 256
unfolding count
count-reads_high = refl

-- The high bit of a byte is set exactly if the byte is at least 128.
pub bit_and_high : (x : ℕ) → x < 256 → ltb 0 (bit_and 128 x) ≡ leb 128 x
bit_and_high x byte = ground (arith, count_full reads_high 256 x byte count-reads_high)

-- Or with 0 keeps a number, at every count of digits that is enough for it.
or_nothing : (n a : ℕ) → a ≤ n → digits (λ b. b) max n a 0 ≡ a
or_nothing zero a enough = omega arith
or_nothing (suc n) zero enough = refl
or_nothing (suc n) (suc a) enough = omega (arith, or_nothing n (suc a / 2) (omega arith))

-- Two numbers with no common digit: the first has none below `k`, the second none from `k` on.
or_apart : (k n a q r : ℕ) → a ≡ q * 2 ^ k → a ≤ n → r < 2 ^ k → digits (λ b. b) max n a r ≡ a + r
or_apart zero n a q r shifted enough low =
    let none : r ≡ 0 = omega arith in rw none (omega (arith, or_nothing n a enough))
or_apart (suc k) zero a q r shifted enough low = omega arith
or_apart (suc k) (suc n) zero q r shifted enough low = omega arith
or_apart (suc k) (suc n) (suc a) q r shifted enough low =
    let power : 2 ^ suc k ≡ 2 * 2 ^ k = omega (arith, pow-suc 2 k) in
    let double : q * 2 ^ suc k ≡ 2 * (q * 2 ^ k) = rw power (omega arith) in
    omega (arith, or_apart k n (suc a / 2) q (r / 2) (omega arith) (omega arith) (omega arith))

-- `x << k | r`, where `r` has at most `k` digits, is a sum.
pub or_shifted : (k q r : ℕ) → r < 2 ^ k → bit_or (q * 2 ^ k) r ≡ q * 2 ^ k + r
or_shifted k q r low =
    simp bit_or-bitwise (or_apart k (q * 2 ^ k) (q * 2 ^ k) q r refl (omega arith) low)

-- A remainder by a product, from the quotient and the remainder by the first factor.
pub split_mod : (p q v : ℕ) → v / p % q * p + v % p ≡ v % (p * q)
split_mod p q v =
    let outer = div-add-mod v (p * q) in
    let inner = div-add-mod v p in
    let top = div-add-mod (v / p) q in
    let same = div-div-eq-div-mul v p q in
    let shift : p * q * (v / (p * q)) ≡ p * (q * (v / p / q)) =
      rw same (mul_assoc p q (v / (p * q))) in
    let spread : p * (v / p) ≡ p * (q * (v / p / q)) + p * (v / p % q) =
      ap (λ t. p * t) (sym top) ∙ mul-add p (q * (v / p / q)) (v / p % q) in
    omega (arith, mul_comm p (v / p % q))

-- And with 0 is 0, and with a mask of `k` digits the remainder by `2 ^ k`.
and_nothing : (n a : ℕ) → digits (λ b. 0) min n a 0 ≡ 0
and_nothing zero a = refl
and_nothing (suc n) zero = refl
and_nothing (suc n) (suc a) = omega (arith, and_nothing n (suc a / 2))

and_low : (k n a : ℕ) → a ≤ n → digits (λ b. 0) min n a (2 ^ k - 1) ≡ a % 2 ^ k
and_low zero n a enough = omega (arith, and_nothing n a)
and_low (suc k) zero a enough =
    let nought : a ≡ 0 = omega arith in
    rw nought (sym (mod-eq_of_lt (one-le-pow (suc k) 2 (omega arith))))
and_low (suc k) (suc n) zero enough = sym (mod-eq_of_lt (one-le-pow (suc k) 2 (omega arith)))
and_low (suc k) (suc n) (suc a) enough =
    let power : 2 ^ suc k ≡ 2 * 2 ^ k = omega (arith, pow-suc 2 k) in
    let positive : 1 ≤ 2 ^ k = one-le-pow k 2 (omega arith) in
    let half : (2 * 2 ^ k - 1) / 2 ≡ 2 ^ k - 1 = omega arith in
    let odd : (2 * 2 ^ k - 1) % 2 ≡ 1 = omega arith in
    let split = split_mod 2 (2 ^ k) (suc a) in
    rw (power, half, odd, and_low k n (suc a / 2) (omega arith)) (omega (arith, split))

-- `x & (2 ^ k - 1)` is the remainder by `2 ^ k`.
pub and_mask : (k x : ℕ) → bit_and x (2 ^ k - 1) ≡ x % 2 ^ k
and_mask k x = simp bit_and-bitwise (and_low k x x (omega arith))

-- The same with the low number first.
or_apart_low :
    (k n a q : ℕ) → a < 2 ^ k → a ≤ n → digits (λ b. b) max n a (q * 2 ^ k) ≡ a + q * 2 ^ k
or_apart_low zero zero zero q low enough = omega arith
or_apart_low zero (suc n) zero q low enough = omega arith
or_apart_low zero n (suc a) q low enough = absurd (omega arith)
or_apart_low (suc k) zero zero q low enough = omega arith
or_apart_low (suc k) zero (suc a) q low enough = absurd (omega arith)
or_apart_low (suc k) (suc n) zero q low enough = omega arith
or_apart_low (suc k) (suc n) (suc a) q low enough =
    let power : 2 ^ suc k ≡ 2 * 2 ^ k = omega (arith, pow-suc 2 k) in
    let double : q * 2 ^ suc k ≡ 2 * (q * 2 ^ k) = rw power (omega arith) in
    let half : 2 * (q * 2 ^ k) / 2 ≡ q * 2 ^ k = omega arith in
    let even : 2 * (q * 2 ^ k) % 2 ≡ 0 = omega arith in
    let rest = or_apart_low k n (suc a / 2) q (omega arith) (omega arith) in
    rw (double, half, even, rest) (omega arith)

-- `x | y << k`, where `x` has at most `k` digits, is a sum.
pub or_low : (k a q : ℕ) → a < 2 ^ k → bit_or a (q * 2 ^ k) ≡ a + q * 2 ^ k
or_low k a q low = simp bit_or-bitwise (or_apart_low k a a q low (omega arith))

pub power_add : (k c : ℕ) → 2 ^ (k + c) ≡ 2 ^ k * 2 ^ c
power_add k zero = rw add-zero (omega arith)
power_add k (suc c) =
    let more : k + suc c ≡ suc (k + c) = omega arith in
    rw (more, pow-suc 2 (k + c), power_add k c, pow-suc 2 c) (mul_assoc (2 ^ k) (2 ^ c) 2)

-- One more byte is a factor of 256.
pub byte_power : (n : ℕ) → 2 ^ (8 * suc n) ≡ 2 ^ (8 * n) * 256
byte_power n = let eight : 8 * suc n ≡ 8 * n + 8 = omega arith in rw eight (power_add (8 * n) 8)
