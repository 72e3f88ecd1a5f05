-- ===== src/Table/Tests.antt =====
-- A small table with a collision, runs of the operations, and the theorems at this table.
use libclod.Prelude.{
  ℕ, ◌+◌, ◌*◌, ◌%◌, ◌≤◌, ◌<◌, ◌≡◌, ◌≢◌, ◌⊎◌, refl, Bool, false, none, some, List, [], if◌then◌else◌,
  ◌==◌, not, to_nat, arith,
}
use libclod.Table.Types.{
  Outcome, ok, Element, Opts, UserOpts, Table, Malloc, apply_default_opts, ctl_occupied,
  load_factor, capacity_to_size, ctl_is_occupied,
}
use libclod.Table.Probe.{get_position, key_equal, slot, probe, probe_loop}
use libclod.Table.Ops.{
  empty_table, chosen_size, allocate, create, insert, iter_index, iter_loop, iter, rebuild_loop,
  rebuild, is_full, make_room, put, add, set_element, get, del, len, new_table,
}
use libclod.Table.Valid.{IsKeyed, IsValid, same_key, view}
use libclod.Table.Insert.{is_none}
use libclod.Table.Writes.{fill}
use libclod.Table.Fill.{fill-IsValid}
use libclod.Table.Rebuild.{empty_table-IsValid}
use libclod.Table.Search.{get-view}
use libclod.Table.Contract.{Binds, set_element-Binds, add-Binds, del-Unbinds, new_table_lem}

-- Pointers are numbers, and stand for the keys themselves. All even keys collide.
abbrev parity : UserOpts ℕ
parity = record {
  min_capacity = 2;
  hash_func = some (λ seed k n. k % 2 * 128);
  cmp_func = some (λ a b n. a == b);
}

abbrev no_bytes : ℕ → ℕ → List ℕ
no_bytes k n = []

abbrev same_number : ℕ → ℕ → ℕ → Bool
same_number a b n = a == b

abbrev heap : Malloc
heap bytes = some 4096

abbrev options : Opts ℕ
options = record {
  min_capacity = 2;
  hash_func = λ seed k n. k % 2 * 128;
  cmp_func = λ a b n. a == b;
}

options-IsKeyed : IsKeyed options
options-IsKeyed = record {
  cmp_refl = λ a n. ground arith;
  cmp_symm = λ a b n h. ground arith;
  cmp_trans = λ a b c n h g. ground arith;
  hash-cmp = λ seed a b n h. let e : a ≡ b = ground arith in rw e;
}

abbrev fresh : Table ℕ
fresh = empty_table options 4 4160

abbrev two : Element ℕ
two = record { ptr = 2; key_size = 8 }

abbrev four : Element ℕ
four = record { ptr = 4; key_size = 8 }

fresh-IsValid : IsValid fresh
fresh-IsValid = empty_table-IsValid options 4 4160 options-IsKeyed (omega arith) (omega arith)

abbrev with_two : Table ℕ
with_two = fill fresh 0 two

with_two-IsValid : IsValid with_two
unfolding slot get_position
with_two-IsValid =
    fill-IsValid fresh fresh-IsValid two 0 (omega arith) (omega arith)
      (λ j l live. absurd (omega arith)) (0, omega arith, refl, λ k h. absurd (omega arith))

-- The second even key lies behind the first.
abbrev with_both : Table ℕ
with_both = fill with_two 1 four

only_two : (j : ℕ) → j < 4 → 128 ≤ with_two.control j → key_equal with_two j 4 8 ≡ false
unfolding key_equal
only_two j l live = let e : j ≡ 0 = ground arith in rw e

behind_two : (k : ℕ) → k < 1 → with_two.control (slot with_two (get_position with_two 4 8) k) ≢ 0
unfolding slot get_position ctl_occupied
behind_two k h = let e : k ≡ 0 = omega arith in rw e (λ z. absurd (omega arith))

with_both-IsValid : IsValid with_both
unfolding slot get_position
with_both-IsValid =
    fill-IsValid with_two with_two-IsValid four 1 (omega arith) (omega arith) only_two
      (1, omega arith, refl, behind_two)

-- The even keys are found although they collide, and a removed cell keeps the second reachable.
finds_both :
    (get with_both 4 8 ≡ some 4)
    × (get (del with_both 2 8).0 4 8 ≡ some 4)
    × (get (del with_both 2 8).0 2 8 ≡ none)
    × (get with_both 3 8 ≡ none)
unfolding get del get_position key_equal slot probe probe_loop ctl_occupied
finds_both = (refl, refl, refl, refl)

abbrev filled_up : Outcome ℕ
filled_up = elim (add with_both 6 8 heap) [
  | ok (t, _) ↦ elim (add t 8 8 heap) [
    | ok (t', _) ↦ elim (add t' 5 8 heap) [ ok (t'', _) ↦ ok t''.table_size | _ ↦ ok 0 ]
    | _ ↦ ok 1
  ]
  | _ ↦ ok 2
]

-- The fifth element does not fit four cells: the table grows to ten.
grows : filled_up ≡ ok 10
unfolding add put make_room is_full load_factor rebuild create allocate chosen_size capacity_to_size
    rebuild_loop iter iter_loop iter_index ctl_is_occupied insert get_position key_equal slot probe
    probe_loop ctl_occupied
grows = refl

get-view_example : get with_both 4 8 ≡ view with_both 4 8
get-view_example = get-view with_both with_both-IsValid 4 8

set_element-Binds_example :
    ((set_element with_both 4 8 heap ≡ ok (with_both, some 4))
      × ((bytes : ℕ) × (heap bytes ≡ none)))
    ⊎ ((t' : Table ℕ) × (set_element with_both 4 8 heap ≡ ok (t', view with_both 4 8))
        × IsValid t'
        × Binds with_both with_both-IsValid 4 8 t'
        × (len t' ≡ len with_both + to_nat (is_none (view with_both 4 8))))
set_element-Binds_example = set_element-Binds with_both with_both-IsValid 4 8 heap (omega arith)

add-Binds_example :
    ((add with_both 6 8 heap ≡ ok (with_both, some 6)) × ((bytes : ℕ) × (heap bytes ≡ none)))
    ⊎ ((t' : Table ℕ) × (add with_both 6 8 heap ≡ ok (t', view with_both 6 8))
        × IsValid t'
        × (((view with_both 6 8 ≡ none)
              × Binds with_both with_both-IsValid 6 8 t'
              × (len t' ≡ len with_both + 1))
            ⊎ ((old : ℕ) × (view with_both 6 8 ≡ some old)
                × ((k : ℕ) (m : ℕ) → view t' k m ≡ view with_both k m)
                × (len t' ≡ len with_both))))
add-Binds_example = add-Binds with_both with_both-IsValid 6 8 heap (omega arith)

del-Unbinds_example :
    ((del with_both 2 8).1 ≡ view with_both 2 8)
    × IsValid (del with_both 2 8).0
    × ((k : ℕ) (m : ℕ)
        → view (del with_both 2 8).0 k m
          ≡ (if same_key with_both.opts 2 8 k m then none else view with_both k m))
    × (len (del with_both 2 8).0 + to_nat (not (is_none (view with_both 2 8))) ≡ len with_both)
del-Unbinds_example = del-Unbinds with_both with_both-IsValid 2 8 (omega arith)

new_table_lem_example :
    ((new_table no_bytes same_number (some parity) heap heap ≡ none)
      × ((n : ℕ) × ((heap n ≡ none) ⊎ (heap n ≡ none))))
    ⊎ ((t : Table ℕ) × (new_table no_bytes same_number (some parity) heap heap ≡ some t)
        × IsValid t
        × (len t ≡ 0)
        × ((k : ℕ) (m : ℕ) → view t k m ≡ none))
unfolding apply_default_opts
new_table_lem_example =
    new_table_lem no_bytes same_number parity heap heap options-IsKeyed (omega arith)
