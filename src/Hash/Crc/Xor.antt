-- ===== src/Hash/Crc/Xor.antt =====
-- Exclusive or as addition of binary digits: its digits, its halves, and the laws from them.
use Prim.Native.Nat.{bit_xor, bit_xor-bitwise, digits, differ}
use native.Mathlib.Nat.{pow-suc, div-one, mod-one, div-div-eq-div-mul}
use libclod.Prelude.Bits.{split_mod}
use libclod.Prelude.{
  ℕ, zero, suc, ◌+◌, ◌*◌, ◌/◌, ◌%◌, ◌^◌, ◌≤◌, ◌<◌, ◌≡◌, refl, sym, ◌∙◌, arith, Bool-cases, ◌==◌,
  inl, inr, ◌⊎◌,
}

-- More digits to go than the first number has change nothing.
digits_fuel :
    (n m a b : ℕ) → a ≤ n → a ≤ m → digits (λ x. x) differ n a b ≡ digits (λ x. x) differ m a b
digits_fuel zero zero a b h k = refl
digits_fuel zero (suc m) zero b h k = refl
digits_fuel zero (suc m) (suc a) b h k = absurd (omega arith)
digits_fuel (suc n) zero zero b h k = refl
digits_fuel (suc n) zero (suc a) b h k = absurd (omega arith)
digits_fuel (suc n) (suc m) zero b h k = refl
digits_fuel (suc n) (suc m) (suc a) b h k =
    let rest = digits_fuel n m (suc a / 2) (b / 2) (omega arith) (omega arith) in
    omega (arith, rest)

bit : (a : ℕ) → (a % 2 ≡ 0) ⊎ (a % 2 ≡ 1)
bit a = elim (Bool-cases (a % 2 == 0)) [ inl e ↦ inl (ground arith) | inr o ↦ inr (ground arith) ]

differ_sum : (a b : ℕ) → differ (a % 2) (b % 2) ≡ (a + b) % 2
differ_sum a b = elim (bit a) [
  | inl e ↦ rw e (omega (arith, e))
  | inr o ↦ elim (bit b) [
    | inl e ↦ rw (o, e) (omega (arith, o, e))
    | inr o' ↦ rw (o, o') (omega (arith, o, o'))
  ]
]

xor_step : (a b : ℕ) → bit_xor a b ≡ bit_xor (a / 2) (b / 2) * 2 + (a + b) % 2
xor_step zero b = simp bit_xor-bitwise (omega arith)
xor_step (suc a) b =
    let same = digits_fuel a (suc a / 2) (suc a / 2) (b / 2) (omega arith) (omega arith) in
    let last = differ_sum (suc a) b in simp bit_xor-bitwise (omega (arith, same, last))

pub xor_half : (a b : ℕ) → bit_xor a b / 2 ≡ bit_xor (a / 2) (b / 2)
xor_half a b = omega (arith, xor_step a b)

pub xor_parity : (a b : ℕ) → bit_xor a b % 2 ≡ (a + b) % 2
xor_parity a b = omega (arith, xor_step a b)

-- Numbers with the same last digit and the same half are the same.
by_digits : (a b : ℕ) → a % 2 ≡ b % 2 → a / 2 ≡ b / 2 → a ≡ b
by_digits a b last rest = omega (arith, last, rest)

pub xor_zero : (a : ℕ) → bit_xor a 0 ≡ a
xor_zero a = go a a (omega arith)
  where
    go : (n c : ℕ) → c ≤ n → bit_xor c 0 ≡ c
    go zero c h = let none : c ≡ 0 = omega arith in rw none refl
    go (suc n) zero h = refl
    go (suc n) (suc c) h = omega (arith, xor_step (suc c) 0, go n (suc c / 2) (omega arith))

pub zero_xor : (b : ℕ) → bit_xor 0 b ≡ b
zero_xor b = simp bit_xor-bitwise refl

pub xor_self : (a : ℕ) → bit_xor a a ≡ 0
xor_self a = go a a (omega arith)
  where
    go : (n c : ℕ) → c ≤ n → bit_xor c c ≡ 0
    go zero c h = let none : c ≡ 0 = omega arith in rw none refl
    go (suc n) zero h = refl
    go (suc n) (suc c) h = omega (arith, xor_step (suc c) (suc c), go n (suc c / 2) (omega arith))

swap_zeros :
    (a b c d : ℕ)
    → a + b + c + d ≡ 0
    → bit_xor (bit_xor a b) (bit_xor c d) ≡ bit_xor (bit_xor a c) (bit_xor b d)
swap_zeros a b c d h =
    let a0 : a ≡ 0 = omega arith in
    let b0 : b ≡ 0 = omega arith in
    let c0 : c ≡ 0 = omega arith in let d0 : d ≡ 0 = omega arith in rw (a0, b0, c0, d0) refl

-- The middle two of four change places.
pub xor_swap :
    (a b c d : ℕ) → bit_xor (bit_xor a b) (bit_xor c d) ≡ bit_xor (bit_xor a c) (bit_xor b d)
xor_swap a b c d = go (a + b + c + d) a b c d (omega arith)
  where
    go :
        (n a b c d : ℕ)
        → a + b + c + d ≤ n
        → bit_xor (bit_xor a b) (bit_xor c d) ≡ bit_xor (bit_xor a c) (bit_xor b d)
    go zero a b c d h = swap_zeros a b c d (omega arith)
    go (suc n) a b c d h = elim (Bool-cases (a + b + c + d == 0)) [
      | inl none ↦ swap_zeros a b c d (ground (arith, none))
      | inr more ↦
          let positive : 1 ≤ a + b + c + d = ground (arith, more) in
          let rest = go n (a / 2) (b / 2) (c / 2) (d / 2) (omega arith) in
          let left = xor_step (bit_xor a b) (bit_xor c d) in
          let right = xor_step (bit_xor a c) (bit_xor b d) in
          let left' = rw (xor_half a b, xor_half c d) at left in
          let right' = rw (xor_half a c, xor_half b d) at right in
          omega (
            arith,
            rest,
            left',
            right',
            xor_parity a b,
            xor_parity c d,
            xor_parity a c,
            xor_parity b d,
          )
    ]

-- A number below `2 ^ k` and a multiple of it have no digit in common.
pub xor_apart : (k a q : ℕ) → a < 2 ^ k → bit_xor a (q * 2 ^ k) ≡ a + q * 2 ^ k
xor_apart zero a q h = let none : a ≡ 0 = omega arith in rw none (zero_xor (q * 1) ∙ omega arith)
xor_apart (suc k) a q h =
    let power : 2 ^ suc k ≡ 2 * 2 ^ k = omega (arith, pow-suc 2 k) in
    let double : q * 2 ^ suc k ≡ 2 * (q * 2 ^ k) = rw power (omega arith) in
    let half : 2 * (q * 2 ^ k) / 2 ≡ q * 2 ^ k = omega arith in
    let step = xor_step a (2 * (q * 2 ^ k)) in
    let step' = rw (half, xor_apart k (a / 2) q (omega arith)) at step in
    rw double (omega (arith, step'))

pub xor_lt : (k a b : ℕ) → a < 2 ^ k → b < 2 ^ k → bit_xor a b < 2 ^ k
xor_lt zero a b h h' =
    let a0 : a ≡ 0 = omega arith in let b0 : b ≡ 0 = omega arith in rw (a0, b0) (omega arith)
xor_lt (suc k) a b h h' =
    let power : 2 ^ suc k ≡ 2 * 2 ^ k = omega (arith, pow-suc 2 k) in
    omega (arith, xor_step a b, xor_lt k (a / 2) (b / 2) (omega arith) (omega arith))

-- Shifts, and remainders by a power of 2, of an exclusive or.
pub xor_double : (a b : ℕ) → bit_xor (2 * a) (2 * b) ≡ 2 * bit_xor a b
xor_double a b =
    let step = xor_step (2 * a) (2 * b) in
    let ha : 2 * a / 2 ≡ a = omega arith in
    let hb : 2 * b / 2 ≡ b = omega arith in let step' = rw (ha, hb) at step in omega (arith, step')

pub xor_times : (k a b : ℕ) → bit_xor (a * 2 ^ k) (b * 2 ^ k) ≡ bit_xor a b * 2 ^ k
xor_times zero a b =
    let ha : a * 1 ≡ a = omega arith in
    let hb : b * 1 ≡ b = omega arith in rw (ha, hb) (omega arith)
xor_times (suc k) a b =
    let power : 2 ^ suc k ≡ 2 * 2 ^ k = omega (arith, pow-suc 2 k) in
    let ha : a * 2 ^ suc k ≡ 2 * (a * 2 ^ k) = rw power (omega arith) in
    let hb : b * 2 ^ suc k ≡ 2 * (b * 2 ^ k) = rw power (omega arith) in
    let hc : bit_xor a b * 2 ^ suc k ≡ 2 * (bit_xor a b * 2 ^ k) = rw power (omega arith) in
    rw (ha, hb, hc, xor_double (a * 2 ^ k) (b * 2 ^ k), xor_times k a b) refl

pub xor_over : (k a b : ℕ) → bit_xor a b / 2 ^ k ≡ bit_xor (a / 2 ^ k) (b / 2 ^ k)
xor_over zero a b = rw (div-one a, div-one b, div-one (bit_xor a b)) refl
xor_over (suc k) a b =
    let power : 2 ^ suc k ≡ 2 * 2 ^ k = omega (arith, pow-suc 2 k) in
    rw
      (
        power,
        sym (div-div-eq-div-mul a 2 (2 ^ k)),
        sym (div-div-eq-div-mul b 2 (2 ^ k)),
        sym (div-div-eq-div-mul (bit_xor a b) 2 (2 ^ k)),
        xor_half a b,
      )
      (xor_over k (a / 2) (b / 2))

pub xor_mod : (k a b : ℕ) → bit_xor a b % 2 ^ k ≡ bit_xor (a % 2 ^ k) (b % 2 ^ k)
xor_mod zero a b = rw (mod-one a, mod-one b, mod-one (bit_xor a b)) refl
xor_mod (suc k) a b =
    let power : 2 ^ suc k ≡ 2 * 2 ^ k = omega (arith, pow-suc 2 k) in
    let whole = split_mod 2 (2 ^ k) (bit_xor a b) in
    let left = split_mod 2 (2 ^ k) a in
    let right = split_mod 2 (2 ^ k) b in
    let rest = xor_mod k (a / 2) (b / 2) in
    let whole' = rw (xor_half a b, rest) at whole in
    let step = xor_step (a % (2 * 2 ^ k)) (b % (2 * 2 ^ k)) in
    let ha : a % (2 * 2 ^ k) / 2 ≡ a / 2 % 2 ^ k = omega (arith, left) in
    let hb : b % (2 * 2 ^ k) / 2 ≡ b / 2 % 2 ^ k = omega (arith, right) in
    let step' = rw (ha, hb) at step in
    rw power (omega (arith, whole', step', left, right, xor_parity a b))
