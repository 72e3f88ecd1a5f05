-- ===== src/Table/Ops.antt =====
-- The operations of table.c. A call that may allocate takes the `malloc` that it finds; `free` is
-- not modelled.
use libclod.Prelude.{
  ℕ, zero, suc, ◌+◌, ◌-◌, ◌*◌, ◌%◌, ◌^◌, Bool, true, false, ◌||◌, Option, none, some, ltb, leb,
  ◌==◌, if◌then◌else◌, u64, set, List,
}
use mathlib.Core.Option
use libclod.Table.Types.{
  Outcome, ok, aborted, out_of_fuel, ◌>>=◌, UserOpts, Opts, Element, Table, Malloc, lf_max, lf_min,
  load_factor, capacity_to_size, ctl_removed, ctl_is_occupied, apply_default_opts,
}
use libclod.Table.Probe.{get_position, probe}

-- `struct clod_table_iter`; the field `_internal` is `internal`.
pub record Iter (E : Type 0) : Type 0 where
  pub element : Option E
  pub key_size : ℕ
  pub internal : ℕ

-- `CLOD_TABLE_ITER_INIT`
abbrev pub iter_init : {E : Type 0} → Iter E
iter_init = record { element = none; key_size = 0; internal = 0 }

module _ {E : Type 0} where
  abbrev pub empty_table : Opts E → ℕ → ℕ → Table E
  empty_table opts size address = record {
    opts = opts;
    elem_count = 0;
    deleted_count = 0;
    table_size = size;
    cursor = 0;
    address = address;
    control = λ _. 0;
    elements = λ _. none;
  }

  -- The size that `create` chooses: at least what `min_capacity` asks for.
  unfoldable pub chosen_size : Opts E → ℕ → ℕ
  chosen_size opts new_size =
      let least = capacity_to_size lf_max opts.min_capacity in
      if ltb new_size least then least else new_size

  -- The allocation in `create`: the elements, 16 bytes each, come first in the block, and the
  -- control bytes after them. `none` is the return of false.
  unfoldable pub allocate : Opts E → ℕ → Malloc → Option (Table E)
  allocate opts size malloc =
      if ltb 0 size
      then elim (malloc (u64 (size * 17))) [
        | none ↦ none
        | some block ↦ some (empty_table opts size (u64 (block + size * 16)))
      ]
      else some (empty_table opts size 0)

  -- `create`
  unfoldable pub create : Opts E → ℕ → Malloc → Option (Table E)
  create opts new_size malloc = allocate opts (chosen_size opts new_size) malloc

  -- `insert`: the table and the element that it returns; `none` is null.
  unfoldable pub insert : Table E → Bool → E → ℕ → Outcome (Table E × Option E)
  insert t replace ptr key_size =
      let pos = get_position t ptr key_size in
      let res = probe t pos ptr key_size in
      let new : Element E = record { ptr = ptr; key_size = key_size } in
      if ltb t.elem_count t.table_size
      then elim res.existing [
        | some i ↦
            if replace
            then ok (
              record t { elements = set t.elements i (some new) },
              Option.map (λ (e : Element E). e.ptr) (t.elements i),
            )
            else ok (t, Option.map (λ (e : Element E). e.ptr) (t.elements i))
        | none ↦ elim res.available [
          | none ↦ aborted
          | some a ↦ ok (
            record t {
              elem_count = u64 (t.elem_count + 1);
              deleted_count =
                  if t.control a == ctl_removed
                  then u64 (t.deleted_count + 2 ^ 64 - 1)
                  else t.deleted_count;
              control = set t.control a pos.ctl;
              elements = set t.elements a (some new);
            },
            none,
          )
        ]
      ]
      else aborted

  -- `const size_t index = (iter->_internal + t->cursor) % t->table_size`
  unfoldable pub iter_index : Table E → ℕ → ℕ
  iter_index t internal = u64 (internal + t.cursor) % t.table_size

  -- The loop of `clod_table_iter`; the rounds left are `table_size - internal`.
  unfoldable pub iter_loop : Table E → ℕ → ℕ → Bool × Iter E
  iter_loop t zero internal = (false, iter_init)
  iter_loop t (suc left) internal =
      let index = iter_index t internal in
      let rest = iter_loop t left (internal + 1) in
      if ctl_is_occupied (t.control index)
      then (
        true,
        record {
          element = Option.map (λ (e : Element E). e.ptr) (t.elements index);
          key_size = elim (t.elements index) [ none ↦ 0 | some e ↦ e.key_size ];
          internal = internal + 1;
        },
      )
      else rest

  -- `clod_table_iter`
  unfoldable pub iter : Table E → Iter E → Bool × Iter E
  iter t it = iter_loop t (t.table_size - it.internal) it.internal

  -- The loop of `rebuild`; `none` is its return of false.
  unfoldable pub rebuild_loop : ℕ → Table E → Iter E → Table E → Outcome (Option (Table E))
  rebuild_loop zero t it new = out_of_fuel
  rebuild_loop (suc fuel) t it new =
      let (more, it') = iter t it in
      elim more [
        | false ↦ ok (some new)
        | true ↦ elim it'.element [
          | none ↦ aborted
          | some ptr ↦ elim (insert new false ptr it'.key_size) [
            | aborted ↦ aborted
            | out_of_fuel ↦ out_of_fuel
            | ok (new', some _) ↦ ok none
            | ok (new', none) ↦ rebuild_loop fuel t it' new'
          ]
        ]
      ]

  -- `rebuild`: whether it succeeded, and the table. The iterator takes at most `table_size` steps
  -- before it ends, so a fuel of one more is enough.
  unfoldable pub rebuild : Table E → ℕ → Malloc → Outcome (Bool × Table E)
  rebuild t new_size malloc =
      if ltb new_size t.elem_count then aborted else elim (create t.opts new_size malloc) [
        | none ↦ ok (false, t)
        | some new ↦ do
          moved ← rebuild_loop (suc t.table_size) t iter_init new
          elim moved [ none ↦ ok (false, t) | some t' ↦ ok (true, t') ]
      ]

  -- `t->table_size == 0 || LF(t) >= LF_MAX`
  unfoldable pub is_full : Table E → Bool
  is_full t = t.table_size == 0 || leb lf_max (load_factor t)

  -- The growth at the head of `clod_table_add` and `clod_table_set`.
  unfoldable pub make_room : Table E → Malloc → Outcome (Bool × Table E)
  make_room t malloc =
      if is_full t
      then rebuild t (capacity_to_size lf_min (u64 (t.elem_count + 1))) malloc
      else ok (true, t)

  -- `clod_table_add` and `clod_table_set`, which differ in `replace`.
  unfoldable pub put : Bool → Table E → E → ℕ → Malloc → Outcome (Table E × Option E)
  put replace t ptr key_size malloc = do
    (success, t') ← make_room t malloc
    if success then insert t' replace ptr key_size else ok (t', some ptr)

  -- `clod_table_add`
  unfoldable pub add : Table E → E → ℕ → Malloc → Outcome (Table E × Option E)
  add = put false

  -- `clod_table_set`
  unfoldable pub set_element : Table E → E → ℕ → Malloc → Outcome (Table E × Option E)
  set_element = put true

  -- `clod_table_get`
  unfoldable pub get : Table E → E → ℕ → Option E
  get t key key_size =
      if t.table_size == 0
      then none
      else elim (probe t (get_position t key key_size) key key_size).existing [
        | none ↦ none
        | some i ↦ Option.map (λ (e : Element E). e.ptr) (t.elements i)
      ]

  -- `clod_table_del`
  unfoldable pub del : Table E → E → ℕ → Table E × Option E
  del t key key_size =
      if t.table_size == 0
      then (t, none)
      else elim (probe t (get_position t key key_size) key key_size).existing [
        | none ↦ (t, none)
        | some i ↦ (
          record t {
            control = set t.control i ctl_removed;
            elem_count = u64 (t.elem_count + 2 ^ 64 - 1);
            deleted_count = u64 (t.deleted_count + 1);
            cursor = u64 (t.cursor + 1);
          },
          Option.map (λ (e : Element E). e.ptr) (t.elements i),
        )
      ]

  -- `clod_table_len`
  unfoldable pub len : Table E → ℕ
  len t = t.elem_count

-- `clod_table_create`: two allocations, of the handle and of the arrays; `none` is null. Without
-- options every field is zero.
unfoldable pub new_table :
    {E : Type 0}
    → (E → ℕ → List ℕ)
    → (E → E → ℕ → Bool)
    → Option (UserOpts E)
    → Malloc
    → Malloc
    → Option (Table E)
new_table bytes memcmp opts malloc_handle malloc_arrays =
    let user : UserOpts _ = elim opts [
      | some o ↦ o
      | none ↦ record { min_capacity = 0; hash_func = none; cmp_func = none }
    ] in
    let resolved = apply_default_opts bytes memcmp user in
    elim (malloc_handle 72) [
      | none ↦ none
      | some _ ↦ create resolved (capacity_to_size lf_max resolved.min_capacity) malloc_arrays
    ]
