-- ===== src/BigEndian/SignedRoundTrip.antt =====
-- Decoding a signed number of include/clod/big_endian.h that was encoded.
use native.Mathlib.Nat.{one-le-pow}
use libclod.Prelude.{
  ℕ, suc, ◌-◌, ◌*◌, ◌%◌, ◌^◌, ◌<◌, ◌≤◌, false, ◌≡◌, ◌⊎◌, refl, sym, ap, ◌∙◌, inl, inr, ltb,
  Bool-cases, ℤ, pos, negsuc, arith,
}
use libclod.BigEndian.RoundTrip.{beu_dec-beu_enc}
use libclod.BigEndian.Signed.{
  Width, bei8, bei16, bei24, bei32, bei40, bei48, bei56, bei64, size, held, to_unsigned, to_signed,
  shift_right, clamp, word, signed, bei_enc, bei_dec,
}

-- The numbers of a signed C type.
abbrev pub IsIn : ℕ → ℤ → Type 0
IsIn bits (pos a) = a < 2 ^ (bits - 1)
IsIn bits (negsuc a) = a < 2 ^ (bits - 1)

to_signed-low : (bits u : ℕ) → u % 2 ^ bits < 2 ^ (bits - 1) → to_signed bits u ≡ pos (u % 2 ^ bits)
to_signed-low bits u low = ground arith

to_signed-high :
    (bits u : ℕ)
    → 2 ^ (bits - 1) ≤ u % 2 ^ bits
    → to_signed bits u ≡ negsuc (2 ^ bits - suc (u % 2 ^ bits))
to_signed-high bits u high = ground arith

-- A number of 24 binary digits that the shifts of its decoder bring back.
shifted24 :
    (v : ℤ)
    → IsIn 24 v
    → shift_right (to_signed 32 (to_unsigned 32 v % 2 ^ 24 * 2 ^ 8 % 2 ^ 32)) 8 ≡ v
shifted24 (pos a) is =
    let u = to_unsigned 32 (pos a) % 2 ^ 24 * 2 ^ 8 % 2 ^ 32 in
    let low = to_signed-low 32 u (omega arith) in rw low (ap pos (omega arith))
shifted24 (negsuc a) is =
    let u = to_unsigned 32 (negsuc a) % 2 ^ 24 * 2 ^ 8 % 2 ^ 32 in
    let high = to_signed-high 32 u (omega arith) in rw high (ap negsuc (omega arith))

-- A number of 40 binary digits that the shifts of its decoder bring back.
shifted40 :
    (v : ℤ)
    → IsIn 40 v
    → shift_right (to_signed 64 (to_unsigned 64 v % 2 ^ 40 * 2 ^ 24 % 2 ^ 64)) 24 ≡ v
shifted40 (pos a) is =
    let u = to_unsigned 64 (pos a) % 2 ^ 40 * 2 ^ 24 % 2 ^ 64 in
    let low = to_signed-low 64 u (omega arith) in rw low (ap pos (omega arith))
shifted40 (negsuc a) is =
    let u = to_unsigned 64 (negsuc a) % 2 ^ 40 * 2 ^ 24 % 2 ^ 64 in
    let high = to_signed-high 64 u (omega arith) in rw high (ap negsuc (omega arith))

-- A number of 48 binary digits that the shifts of its decoder bring back.
shifted48 :
    (v : ℤ)
    → IsIn 48 v
    → shift_right (to_signed 64 (to_unsigned 64 v % 2 ^ 48 * 2 ^ 16 % 2 ^ 64)) 16 ≡ v
shifted48 (pos a) is =
    let u = to_unsigned 64 (pos a) % 2 ^ 48 * 2 ^ 16 % 2 ^ 64 in
    let low = to_signed-low 64 u (omega arith) in rw low (ap pos (omega arith))
shifted48 (negsuc a) is =
    let u = to_unsigned 64 (negsuc a) % 2 ^ 48 * 2 ^ 16 % 2 ^ 64 in
    let high = to_signed-high 64 u (omega arith) in rw high (ap negsuc (omega arith))

-- A number of 56 binary digits that the shifts of its decoder bring back.
shifted56 :
    (v : ℤ)
    → IsIn 56 v
    → shift_right (to_signed 64 (to_unsigned 64 v % 2 ^ 56 * 2 ^ 8 % 2 ^ 64)) 8 ≡ v
shifted56 (pos a) is =
    let u = to_unsigned 64 (pos a) % 2 ^ 56 * 2 ^ 8 % 2 ^ 64 in
    let low = to_signed-low 64 u (omega arith) in rw low (ap pos (omega arith))
shifted56 (negsuc a) is =
    let u = to_unsigned 64 (negsuc a) % 2 ^ 56 * 2 ^ 8 % 2 ^ 64 in
    let high = to_signed-high 64 u (omega arith) in rw high (ap negsuc (omega arith))

whole8 : (v : ℤ) → IsIn 8 v → to_signed 8 (to_unsigned 8 v % 2 ^ 8) ≡ v
whole8 (pos a) is =
    to_signed-low 8 (to_unsigned 8 (pos a) % 2 ^ 8) (omega arith) ∙ ap pos (omega arith)
whole8 (negsuc a) is =
    to_signed-high 8 (to_unsigned 8 (negsuc a) % 2 ^ 8) (omega arith) ∙ ap negsuc (omega arith)

whole16 : (v : ℤ) → IsIn 16 v → to_signed 16 (to_unsigned 16 v % 2 ^ 16) ≡ v
whole16 (pos a) is =
    to_signed-low 16 (to_unsigned 16 (pos a) % 2 ^ 16) (omega arith) ∙ ap pos (omega arith)
whole16 (negsuc a) is =
    to_signed-high 16 (to_unsigned 16 (negsuc a) % 2 ^ 16) (omega arith) ∙ ap negsuc (omega arith)

whole32 : (v : ℤ) → IsIn 32 v → to_signed 32 (to_unsigned 32 v % 2 ^ 32) ≡ v
whole32 (pos a) is =
    to_signed-low 32 (to_unsigned 32 (pos a) % 2 ^ 32) (omega arith) ∙ ap pos (omega arith)
whole32 (negsuc a) is =
    to_signed-high 32 (to_unsigned 32 (negsuc a) % 2 ^ 32) (omega arith) ∙ ap negsuc (omega arith)

whole64 : (v : ℤ) → IsIn 64 v → to_signed 64 (to_unsigned 64 v % 2 ^ 64) ≡ v
whole64 (pos a) is =
    to_signed-low 64 (to_unsigned 64 (pos a) % 2 ^ 64) (omega arith) ∙ ap pos (omega arith)
whole64 (negsuc a) is =
    to_signed-high 64 (to_unsigned 64 (negsuc a) % 2 ^ 64) (omega arith) ∙ ap negsuc (omega arith)

clamp-IsIn : (bits : ℕ) (v : ℤ) → IsIn bits (clamp bits v)
clamp-IsIn bits (pos a) = elim (Bool-cases (ltb (2 ^ (bits - 1) - 1) a)) [
  | inl over ↦ rw over (omega (arith, one-le-pow (bits - 1) 2 (omega arith)))
  | inr fine ↦ rw fine (ground (arith, one-le-pow (bits - 1) 2 (omega arith)))
]
clamp-IsIn bits (negsuc a) = elim (Bool-cases (ltb (2 ^ (bits - 1) - 1) a)) [
  | inl over ↦ rw over (omega (arith, one-le-pow (bits - 1) 2 (omega arith)))
  | inr fine ↦ rw fine (ground (arith, one-le-pow (bits - 1) 2 (omega arith)))
]

clamp_id : (bits : ℕ) (v : ℤ) → IsIn bits v → clamp bits v ≡ v
clamp_id bits (pos a) is =
    let fine : ltb (2 ^ (bits - 1) - 1) a ≡ false = ground arith in rw fine refl
clamp_id bits (negsuc a) is =
    let fine : ltb (2 ^ (bits - 1) - 1) a ≡ false = ground arith in rw fine refl

-- The nearest number of a signed type of so many binary digits: the number itself if the type has it,
-- else the greatest for a number that is above, the least for one that is below.
abbrev pub IsNearest : ℕ → ℤ → ℤ → Type 0
IsNearest bits (pos a) r =
    ((a < 2 ^ (bits - 1)) × (r ≡ pos a)) ⊎ ((2 ^ (bits - 1) ≤ a) × (r ≡ pos (2 ^ (bits - 1) - 1)))
IsNearest bits (negsuc a) r =
    ((a < 2 ^ (bits - 1)) × (r ≡ negsuc a))
    ⊎ ((2 ^ (bits - 1) ≤ a) × (r ≡ negsuc (2 ^ (bits - 1) - 1)))

clamp-IsNearest : (bits : ℕ) (v : ℤ) → IsNearest bits v (clamp bits v)
clamp-IsNearest bits (pos a) =
    let some_number = one-le-pow (bits - 1) 2 (omega arith) in
    elim (Bool-cases (ltb (2 ^ (bits - 1) - 1) a)) [
      | inl over ↦ rw over (inr (ground (arith, over, some_number), refl))
      | inr fine ↦ rw fine (inl (ground (arith, fine, some_number), refl))
    ]
clamp-IsNearest bits (negsuc a) =
    let some_number = one-le-pow (bits - 1) 2 (omega arith) in
    elim (Bool-cases (ltb (2 ^ (bits - 1) - 1) a)) [
      | inl over ↦ rw over (inr (ground (arith, over, some_number), refl))
      | inr fine ↦ rw fine (inl (ground (arith, fine, some_number), refl))
    ]

signed-word :
    (width : Width) (val : ℤ)
    → IsIn (held width) val
    → signed width (word width val % 2 ^ (8 * size width)) ≡ clamp (8 * size width) val
signed-word bei8 val is = whole8 val is ∙ sym (clamp_id 8 val is)
signed-word bei16 val is = whole16 val is ∙ sym (clamp_id 16 val is)
signed-word bei24 val is = shifted24 (clamp 24 val) (clamp-IsIn 24 val)
signed-word bei32 val is = whole32 val is ∙ sym (clamp_id 32 val is)
signed-word bei40 val is = shifted40 (clamp 40 val) (clamp-IsIn 40 val)
signed-word bei48 val is = shifted48 (clamp 48 val) (clamp-IsIn 48 val)
signed-word bei56 val is = shifted56 (clamp 56 val) (clamp-IsIn 56 val)
signed-word bei64 val is = whole64 val is ∙ sym (clamp_id 64 val is)

-- At each of the widths, and for any value of the C type that holds its numbers, decoding what the
-- signed encoder wrote gives the value back if the width has it, else the greatest number of the
-- width for a value above it and the least, minus a power of two, for a value below it.
pub bei_dec-bei_enc :
    (width : Width) (m : ℕ → ℕ) (ptr : ℕ) (val : ℤ)
    → IsIn (held width) val
    → IsNearest (8 * size width) val (bei_dec width (bei_enc width m ptr val) ptr)
unfolding bei_dec bei_enc
bei_dec-bei_enc width m ptr val is =
    let same =
      ap (λ u. signed width u) (beu_dec-beu_enc (size width) m ptr (word width val))
      ∙ signed-word width val is in
    rw same (clamp-IsNearest (8 * size width) val)
