-- ===== src/Vmath/Tests.antt =====
-- Points as in src/test/vec_group.c, and divisions.
use libclod.Prelude.{arith, ℕ, ◌^◌, ◌≡◌, ◌<◌, refl, ℤ, pos, negsuc, [], ◌∷◌, get_or}
use libclod.Vmath.Group.{vec_group}
use libclod.Vmath.Division.{divi64, divi64-floor, recombine}
use libclod.Vmath.Bounds.{vec_group-lt}

abbrev point : ℕ → ℤ
point i = get_or (pos 31 ∷ pos 31 ∷ []) i (pos 0)

groups_two : (vec_group point 2 10).0 ≡ 1023
unfolding vec_group
groups_two = refl

abbrev far_point : ℕ → ℤ
far_point i = get_or (negsuc 31 ∷ negsuc 31 ∷ []) i (pos 0)

groups_far : (vec_group far_point 2 10).0 ≡ 0
unfolding vec_group
groups_far = refl

leaves_far : (vec_group far_point 2 10).1 0 ≡ negsuc 0
unfolding vec_group
leaves_far = refl

vec_group-lt_example : (vec_group point 3 10).0 < 2 ^ 10
vec_group-lt_example = vec_group-lt point 3 10

divi64_rounds : divi64 (negsuc 6) (pos 4) ≡ (negsuc 1, pos 1)
unfolding divi64
divi64_rounds = refl

divi64-floor_example :
    (r : ℕ) × ((divi64 (negsuc 6) (pos 4)).1 ≡ pos r)
    × (r < 4)
    × (recombine (divi64 (negsuc 6) (pos 4)).0 4 r ≡ negsuc 6)
divi64-floor_example = divi64-floor (negsuc 6) 4 (omega arith)
