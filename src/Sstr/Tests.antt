-- ===== src/Sstr/Tests.antt =====
-- The functions of include/clod/sstr.h on `abab`, which memory holds at 1, and `ab` at 5.
use libclod.Prelude.{ℕ, [], ◌∷◌, ◌≡◌, refl, some, get_or, arith, pos, negsuc}
use libclod.Sstr.Ops.{
  sstr_null, memory_equal, contains_loop, sstr_contains, forward_loop, backward_loop, sstr_find,
}
use libclod.Sstr.Laws.{FirstMatch, sstr_contains-FirstMatch, NthOccurrence, sstr_find-NthOccurrence}

abbrev memory : ℕ → ℕ
memory a = get_or (0 ∷ 97 ∷ 98 ∷ 97 ∷ 98 ∷ 97 ∷ 98 ∷ []) a 0

-- The place at the very end is not looked at: `ab` in `ab`, and `b` in `ab`.
contains_whole : sstr_contains memory 1 2 5 2 ≡ sstr_null
unfolding sstr_contains contains_loop memory_equal
contains_whole = refl

contains_last : sstr_contains memory 1 2 6 1 ≡ sstr_null
unfolding sstr_contains contains_loop memory_equal
contains_last = refl

contains_first : sstr_contains memory 1 4 5 2 ≡ record { ptr = some 1; size = 2 }
unfolding sstr_contains contains_loop memory_equal
contains_first = refl

find_second : sstr_find memory 1 4 98 (pos 2) ≡ record { ptr = some 4; size = 1 }
unfolding sstr_find forward_loop
find_second = refl

find_last_but_one : sstr_find memory 1 4 98 (negsuc 1) ≡ record { ptr = some 2; size = 3 }
unfolding sstr_find backward_loop
find_last_but_one = refl

sstr_contains-FirstMatch_example : FirstMatch memory 1 5 2 0 2 (sstr_contains memory 1 4 5 2)
sstr_contains-FirstMatch_example =
    sstr_contains-FirstMatch memory 1 5 2 4 (omega arith) (omega arith)

sstr_find-NthOccurrence_example : NthOccurrence memory 1 98 0 4 2 (sstr_find memory 1 4 98 (pos 2))
sstr_find-NthOccurrence_example = sstr_find-NthOccurrence memory 1 98 4 1
