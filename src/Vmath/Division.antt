-- ===== src/Vmath/Division.antt =====
-- `divi64` of include/clod/vmath.h, which rounds down where C rounds to zero. The one quotient that
-- has no place in 64 bits, of the least number by -1, is not excluded: the model's integers have no
-- bound.
use native.Mathlib.Nat.{div-add-mod, mod-lt, mul_comm, suc-mul}
use libclod.Prelude.{
  ap, leb, ℕ, zero, suc, ◌+◌, ◌-◌, ◌*◌, ◌/◌, ◌%◌, ◌≤◌, ◌<◌, ◌≡◌, refl, inl, inr, Bool, true, false,
  Bool-cases, not, ◌&&◌, ◌==◌, if◌then◌else◌, ℤ, pos, negsuc, ◌+ℤ◌, ◌-ℤ◌, is_negative, arith,
}

-- `-n`
abbrev pub negate : ℕ → ℤ
negate zero = pos 0
negate (suc n) = negsuc n

-- `x / divisor` and `x % divisor` of C
abbrev pub quotient : ℤ → ℤ → ℤ
quotient (pos a) (pos d) = pos (a / d)
quotient (pos a) (negsuc d) = negate (a / suc d)
quotient (negsuc a) (pos d) = negate (suc a / d)
quotient (negsuc a) (negsuc d) = pos (suc a / suc d)

abbrev pub remainder : ℤ → ℤ → ℤ
remainder (pos a) (pos d) = pos (a % d)
remainder (pos a) (negsuc d) = pos (a % suc d)
remainder (negsuc a) (pos d) = negate (suc a % d)
remainder (negsuc a) (negsuc d) = negate (suc a % suc d)

abbrev pub add_int : ℤ → ℤ → ℤ
add_int x (pos n) = x +ℤ n
add_int x (negsuc n) = x -ℤ suc n

abbrev pub is_zero : ℤ → Bool
is_zero (pos n) = n == 0
is_zero (negsuc n) = false

-- `rem != 0 && rem < 0 != divisor < 0`
abbrev pub rounds_up : ℤ → ℤ → Bool
rounds_up r d = not (is_zero r) && (if is_negative r then not (is_negative d) else is_negative d)

-- `divi64(x, divisor)`: the quotient and the remainder.
unfoldable pub divi64 : ℤ → ℤ → ℤ × ℤ
divi64 x d =
    let q = quotient x d in
    let r = remainder x d in if rounds_up r d then (q -ℤ 1, add_int r d) else (q, r)

-- The number `q * d + r`, for a divisor and a remainder that are not negative.
abbrev pub recombine : ℤ → ℕ → ℕ → ℤ
recombine (pos q) d r = pos (q * d + r)
recombine (negsuc q) d r = negate (suc q * d) +ℤ r

negsuc_back : (a r : ℕ) → negsuc (a + r) +ℤ r ≡ negsuc a
negsuc_back a r =
    let within : leb r (a + r) ≡ true = ground arith in rw within (ap negsuc (omega arith))

-- The product that a dividend below 0 is rounded down to.
recombine-negsuc : (q d a r : ℕ) → suc q * d ≡ suc (a + r) → recombine (negsuc q) d r ≡ negsuc a
recombine-negsuc q d a r product = rw product (negsuc_back a r)

-- The two results for a dividend below 0, from the quotient and the remainder of its magnitude.
abbrev rounded : ℕ → ℕ → ℕ → ℤ × ℤ
rounded q r d =
    if rounds_up (negate r) (pos d)
    then (negate q -ℤ 1, add_int (negate r) (pos d))
    else (negate q, negate r)

rounded-floor :
    (q r d a : ℕ)
    → r < d
    → q * d + r ≡ suc a
    → (k : ℕ) × ((rounded q r d).1 ≡ pos k) × (k < d) × (recombine (rounded q r d).0 d k ≡ negsuc a)
rounded-floor zero zero d a less whole = absurd (omega arith)
rounded-floor (suc q) zero d a less whole = (0, refl, less, recombine-negsuc q d a 0 (omega arith))
rounded-floor zero (suc r) d a less whole =
    let up : leb d r ≡ false = ground arith in
    (d - suc r, rw up refl, omega arith, recombine-negsuc 0 d a (d - suc r) (omega arith))
rounded-floor (suc q) (suc r) d a less whole =
    let up : leb d r ≡ false = ground arith in
    let next : q + 1 ≡ suc q = omega arith in
    let product = suc-mul (suc q) d in
    (
      d - suc r,
      rw up refl,
      omega arith,
      rw next (recombine-negsuc (suc q) d a (d - suc r) (omega arith)),
    )

-- For a positive divisor, the remainder that `divi64` gives is a number from 0 and below the
-- divisor, and the quotient times the divisor and the remainder make the dividend, be it negative
-- or not.
pub divi64-floor :
    (x : ℤ) (d : ℕ)
    → 1 ≤ d
    → (r : ℕ) × ((divi64 x (pos d)).1 ≡ pos r) × (r < d) × (recombine (divi64 x (pos d)).0 d r ≡ x)
unfolding divi64
divi64-floor (pos a) d some =
    let whole = div-add-mod a d in
    let turn = mul_comm d (a / d) in
    let same : a / d * d + a % d ≡ a = omega arith in
    elim (Bool-cases (a % d == 0)) [
      | inl even ↦ rw even (a % d, refl, mod-lt a some, ap pos same)
      | inr odd ↦ rw odd (a % d, refl, mod-lt a some, ap pos same)
    ]
divi64-floor (negsuc a) d some =
    let whole = div-add-mod (suc a) d in
    let turn = mul_comm d (suc a / d) in
    rounded-floor (suc a / d) (suc a % d) d a (mod-lt (suc a) some) (omega arith)
