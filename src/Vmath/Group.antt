-- ===== src/Vmath/Group.antt =====
-- `mask64` and `vec_group` of include/clod/vmath.h. A vector is a function from indices.
use Prim.Native.Nat.{bit_and, bit_or}
use libclod.Prelude.{
  ℕ, zero, suc, ◌+◌, ◌-◌, ◌*◌, ◌/◌, ◌%◌, ◌^◌, leb, ltb, if◌then◌else◌, u64, set, ℤ,
}
use libclod.BigEndian.Signed.{to_unsigned, shift_right}

-- `mask64(bits)`
unfoldable pub mask64 : ℕ → ℕ
mask64 bits = if leb 64 bits then 2 ^ 64 - 1 else u64 (2 ^ bits) - 1

-- The digits that the next of `suc left` elements gives, where `group_bits - res_bits` are missing.
abbrev pub take_bits : ℕ → ℕ → ℕ → ℕ
take_bits left group_bits res_bits = (group_bits - res_bits + left) / suc left % 256

-- The loop, with `left` elements from `i` on: the group's index, and the vector of the group.
unfoldable pub group_loop : ℕ → ℕ → ℕ → ℕ → ℕ → (ℕ → ℤ) → ℕ × (ℕ → ℤ)
unfolding mask64
group_loop zero i group_bits res res_bits vec = (res, vec)
group_loop (suc left) i group_bits res res_bits vec =
    let taken = take_bits left group_bits res_bits in
    let digits = bit_and (to_unsigned 64 (vec i)) (mask64 taken) in
    group_loop left (suc i) group_bits (bit_or res (u64 (digits * 2 ^ res_bits)))
      ((res_bits + taken) % 256) (set vec i (shift_right (vec i) taken))

-- `vec_group(vec, vec_len, group_bits)`
unfoldable pub vec_group : (ℕ → ℤ) → ℕ → ℕ → ℕ × (ℕ → ℤ)
unfolding group_loop
vec_group vec vec_len group_bits =
    group_loop vec_len 0 (if ltb 64 group_bits then 64 else group_bits) 0 0 vec
