-- ===== src/Vmath/Bounds.antt =====
-- The index that `vec_group` of include/clod/vmath.h gives is one of the group's.
use Prim.Native.Nat.{bit_and, bit_or}
use native.Mathlib.Nat.{
  mod-lt, pow-le-pow_right, div-lt_iff_lt-mul, mul-suc, one-le-pow, mul-le-mul_right, mul_comm,
  suc-mul,
}
use libclod.Prelude.{
  ℕ, zero, suc, ◌+◌, ◌-◌, ◌*◌, ◌/◌, ◌%◌, ◌^◌, ◌≤◌, ◌<◌, ◌≡◌, refl, inl, inr, Bool-cases, leb, ltb,
  if◌then◌else◌, u64, u64_small, ℤ, arith,
}
use libclod.Prelude.Bits.{and_mask, or_low, power_add}
use libclod.BigEndian.Signed.{to_unsigned}
use libclod.Vmath.Group.{mask64, take_bits, group_loop, vec_group}

power-le : (a b : ℕ) → a ≤ b → 2 ^ a ≤ 2 ^ b
power-le a b h = pow-le-pow_right (omega arith) h

mask64_lem : (bits : ℕ) → bits ≤ 64 → mask64 bits ≡ 2 ^ bits - 1
unfolding mask64
mask64_lem bits h = elim (Bool-cases (leb 64 bits)) [
  | inl whole ↦ let all : bits ≡ 64 = ground arith in rw all refl
  | inr less ↦
      let some_less : bits ≤ 63 = ground arith in
      let below = power-le bits 63 some_less in
      let small : u64 (2 ^ bits) ≡ 2 ^ bits = u64_small (2 ^ bits) (omega arith) in
      rw (less, small) refl
]

-- The digits taken are not more than are missing.
ceiling-le : (a left : ℕ) → (a + left) / suc left ≤ a
ceiling-le a left =
    let wide : a + left < suc a * suc left = omega (arith, suc-mul a (suc left), mul-suc a left) in
    let less = (div-lt_iff_lt-mul {k = suc left} {x = a + left} {y = suc a} (omega arith)).1 wide in
    omega arith

-- The digits of one element, above those that are there.
or-lt :
    (r p x t : ℕ) → r < 2 ^ p → x < 2 ^ t → p + t ≤ 64 → bit_or r (u64 (x * 2 ^ p)) < 2 ^ (p + t)
or-lt r p x t low few fits =
    let product = mul-le-mul_right (2 ^ p) few in
    let whole = power_add p t in
    let turn = mul_comm (2 ^ p) (2 ^ t) in
    let more = suc-mul x (2 ^ p) in
    let most = power-le (p + t) 64 fits in
    let positive = one-le-pow p 2 (omega arith) in
    let wraps_not : u64 (x * 2 ^ p) ≡ x * 2 ^ p = u64_small (x * 2 ^ p) (omega arith) in
    rw (wraps_not, or_low p r x low) (omega arith)

group_loop-lt :
    (left i g res rb : ℕ) (vec : ℕ → ℤ)
    → res < 2 ^ rb
    → rb ≤ g
    → g ≤ 64
    → (group_loop left i g res rb vec).0 < 2 ^ g
unfolding group_loop
group_loop-lt zero i g res rb vec low some_bits most = omega (arith, power-le rb g some_bits)
group_loop-lt (suc left) i g res rb vec low some_bits most =
    let ceiling = ceiling-le (g - rb) left in
    let t = take_bits left g rb in
    let few : t ≤ g - rb = omega arith in
    let mask = mask64_lem t (omega arith) in
    let x = to_unsigned 64 (vec i) in
    let cut : bit_and x (mask64 t) < 2 ^ t =
      rw (mask, and_mask t x) (mod-lt x (one-le-pow t 2 (omega arith))) in
    let next = or-lt res rb (bit_and x (mask64 t)) t low cut (omega arith) in
    let bits : (rb + t) % 256 ≡ rb + t = omega arith in
    let next' : bit_or res (u64 (bit_and x (mask64 t) * 2 ^ rb)) < 2 ^ ((rb + t) % 256) =
      rw bits next in
    group_loop-lt left (suc i) g _ ((rb + t) % 256) _ next' (omega arith) most

-- The index that `vec_group` returns is below 2 ^ `group_bits`, with any vector of any length; for
-- `group_bits` above 64 it is below 2 ^ 64.
pub vec_group-lt :
    (vec : ℕ → ℤ) (vec_len group_bits : ℕ)
    → (vec_group vec vec_len group_bits).0 < 2 ^ (if ltb 64 group_bits then 64 else group_bits)
unfolding vec_group
vec_group-lt vec vec_len group_bits =
    let bits = if ltb 64 group_bits then 64 else group_bits in
    group_loop-lt vec_len 0 bits 0 0 vec (omega arith) (omega arith) (ground arith)
