-- ===== src/Table/Rebuild.antt =====
-- `rebuild` moves every element into a larger table and forgets the removed cells.
use libclod.Prelude.{
  ℕ, zero, suc, ◌+◌, ◌-◌, ◌*◌, ◌^◌, ◌≤◌, ◌<◌, ◌≡◌, ◌⊎◌, inl, inr, refl, sym, ◌∙◌, ap, true, false,
  none, some, ltb, leb, ◌==◌, u64, count, count_none, Bool-cases, Option-cases, arith,
}
use mathlib.Core.Path.{subst}
use libclod.Table.Types.{ok, Element, Opts, Table, Malloc, capacity_to_size}
use libclod.Table.Ops.{
  Iter, iter_init, iter, iter_index, insert, empty_table, chosen_size, allocate, create,
  rebuild_loop, rebuild,
}
use libclod.Table.Valid.{IsKeyed, IsValid, view}
use libclod.Table.Insert.{Inserted, insert-Inserted, view_miss}
use libclod.Table.Iterate.{live_at, count_live, last, next, iter-Stepped}
use libclod.Table.Moved.{
  passed_all, passed_new, count_mono, Moved, passed_zero, Moved-skip, Moved-step,
}

module _ {E : Type 0} where
  pub empty_table-IsValid :
      (o : Opts E) (size address : ℕ)
      → IsKeyed o
      → o.min_capacity < 2 ^ 56
      → size < 2 ^ 57
      → IsValid (empty_table o size address)
  empty_table-IsValid o size address keyed cap fits = record {
    keyed = keyed;
    size_fits = fits;
    capacity_fits = cap;
    cursor_fits = omega arith;
    bytes = λ j l. inl (omega arith);
    placed = λ j l live. absurd (omega arith);
    distinct = λ i j li lj vi vj. absurd (omega arith);
    elems = sym (count_none (λ j. leb 128 0) size (λ j l. refl));
    deleted = sym (count_none (λ j. 0 == 1) size (λ j l. refl));
  }

  pub view-empty :
      (o : Opts E) (size address : ℕ) (k : E) (m : ℕ) → view (empty_table o size address) k m ≡ none
  view-empty o size address k m =
      view_miss (empty_table o size address) k m (λ j l live. absurd (omega arith))

  chosen_size_bounds :
      (o : Opts E) (size : ℕ)
      → o.min_capacity < 2 ^ 56
      → size < 2 ^ 57
      → (size ≤ chosen_size o size) × (chosen_size o size < 2 ^ 57)
  unfolding chosen_size capacity_to_size
  chosen_size_bounds o size cap fits = ground arith

  allocate_cases :
      (o : Opts E) (n : ℕ) (malloc : Malloc)
      → ((allocate o n malloc ≡ none) × ((bytes : ℕ) × (malloc bytes ≡ none)))
        ⊎ ((address : ℕ) × (allocate o n malloc ≡ some (empty_table o n address)))
  unfolding allocate
  allocate_cases o n malloc = elim (Bool-cases (ltb 0 n)) [
    | inr zero_size ↦ inr (0, rw zero_size)
    | inl some_size ↦ elim (Option-cases (malloc (u64 (n * 17)))) [
      | inl refused ↦ inl (rw (some_size, refused), (u64 (n * 17), refused))
      | inr (block, given) ↦ inr (u64 (block + n * 16), rw (some_size, given))
    ]
  ]

  -- `create` makes an empty table of at least the asked size, or fails where `malloc` does.
  pub create_cases :
      (o : Opts E) (size : ℕ) (malloc : Malloc)
      → IsKeyed o
      → o.min_capacity < 2 ^ 56
      → size < 2 ^ 57
      → ((create o size malloc ≡ none) × ((bytes : ℕ) × (malloc bytes ≡ none)))
        ⊎ ((n : ℕ) × (address : ℕ) × (create o size malloc ≡ some (empty_table o n address))
            × (size ≤ n)
            × IsValid (empty_table o n address))
  unfolding create
  create_cases o size malloc keyed cap fits =
      let n = chosen_size o size in
      let (le, lt) = chosen_size_bounds o size cap fits in
      elim (allocate_cases o n malloc) [
        | inl (e, (bytes, refused)) ↦ inl (e, (bytes, refused))
        | inr (address, e) ↦ inr (n, address, e, le, empty_table-IsValid o n address keyed cap lt)
      ]

module _ {E : Type 0} (t : Table E) (v : IsValid t) where
  sub_whole : (i k : ℕ) → i ≤ k → i + (k - i) ≡ k
  sub_whole i k h = omega arith

  -- The insertion of the element that the iterator gives succeeds and finds no other.
  insert_next :
      (size k : ℕ) (e : Element E) (new : Table E)
      → t.elem_count < size
      → k < t.table_size
      → live_at t v k ≡ true
      → t.elements (iter_index t k) ≡ some e
      → Moved t v size k new
      → (new' : Table E) × (insert new false e.ptr e.key_size ≡ ok (new', none))
        × Inserted false new e.ptr e.key_size (new', none)
  insert_next size k e new room l live stored mv =
      let whole = sub_whole k t.table_size (omega arith) in
      let bound = rw whole at (count_mono t v k (t.table_size - k)) in
      let (r, ran, ins) =
        insert-Inserted new mv.valid
          (omega (arith, mv.counted, mv.fresh, mv.sized, bound, count_live t v)) e.ptr e.key_size
          false in
      let nothing : r.1 ≡ none =
        ins.returned ∙ mv.reads e.ptr e.key_size ∙ passed_new t v k e l live stored in
      (
        r.0,
        ran ∙ ap (λ x. ok (r.0, x)) nothing,
        subst (λ x. Inserted false new e.ptr e.key_size (r.0, x)) nothing ins,
      )

  rebuild_loop_step :
      (fuel : ℕ) (it : Iter E) (new new' : Table E) (ptr : E) (n internal : ℕ)
      → iter t it ≡ (true, record { element = some ptr; key_size = n; internal = internal })
      → insert new false ptr n ≡ ok (new', none)
      → rebuild_loop (suc fuel) t it new
        ≡ rebuild_loop fuel t
            (record { element = some ptr; key_size = n; internal = internal })
            new'
  unfolding rebuild_loop
  rebuild_loop_step fuel it new new' ptr n internal eq ran = rw (rebuild_loop, eq, eq, eq, ran, eq)

  start :
      (n address : ℕ)
      → IsValid (empty_table t.opts n address)
      → Moved t v n 0 (empty_table t.opts n address)
  unfolding count
  start n address new_valid = record {
    valid = new_valid;
    fresh = refl;
    sized = refl;
    same_opts = refl;
    start = refl;
    counted = refl;
    reads = λ k m. view-empty t.opts n address k m ∙ sym (passed_zero t v k m);
  }

  rebuild_loop-Moved :
      (size fuel : ℕ) (it : Iter E) (new : Table E)
      → t.elem_count < size
      → it.internal ≤ t.table_size
      → t.table_size < fuel + it.internal
      → Moved t v size it.internal new
      → (new' : Table E) × (rebuild_loop fuel t it new ≡ ok (some new'))
        × Moved t v size t.table_size new'
  unfolding rebuild_loop
  rebuild_loop-Moved size zero it new room le enough mv = absurd (omega arith)
  rebuild_loop-Moved size (suc fuel) it new room le enough mv = elim (iter-Stepped t v it le) [
    | last e dead ↦
        let n = t.table_size - it.internal in
        let whole : it.internal + n ≡ t.table_size = omega arith in
        (
          new,
          rw (rebuild_loop, e),
          rw whole at (Moved-skip t v size it.internal n new (λ j l l'. dead j l (omega arith)) mv),
        )
    | next k e l l' live between stored eq ↦
        let mv' = rw (sub_whole it.internal k l) at (
          Moved-skip t v size it.internal (k - it.internal) new
            (λ j lj lj'. between j lj (omega arith)) mv) in
        let (new', ran, ins) = insert_next size k e new room l' live stored mv' in
        let (done, finished, whole) =
          rebuild_loop-Moved size fuel
            (record { element = some e.ptr; key_size = e.key_size; internal = k + 1 }) new' room
            (omega arith) (omega arith) (Moved-step t v size k e new new' l' live stored mv' ins) in
        (done, rebuild_loop_step fuel it new new' e.ptr e.key_size _ eq ran ∙ finished, whole)
  ]

  -- The table after a successful rebuild: all elements, no removed cells, and room.
  pub record Rebuilt (size : ℕ) (t' : Table E) : Type 0 where
    pub valid : IsValid t'
    pub reads : (k : E) (m : ℕ) → view t' k m ≡ view t k m
    pub counted : t'.elem_count ≡ t.elem_count
    pub fresh : t'.deleted_count ≡ 0
    pub roomy : size ≤ t'.table_size
    pub same_opts : t'.opts ≡ t.opts

  -- `rebuild` to a size above the element count ends. Where `malloc` refuses, it returns false and
  -- the table is as it was; otherwise it returns true and the new table holds the same elements.
  pub rebuild-Rebuilt :
      (size : ℕ) (malloc : Malloc)
      → t.elem_count < size
      → size < 2 ^ 57
      → ((rebuild t size malloc ≡ ok (false, t)) × ((bytes : ℕ) × (malloc bytes ≡ none)))
        ⊎ ((t' : Table E) × (rebuild t size malloc ≡ ok (true, t')) × Rebuilt size t')
  unfolding rebuild
  rebuild-Rebuilt size malloc room fits =
      let enough : ltb size t.elem_count ≡ false = ground arith in
      elim (create_cases t.opts size malloc v.keyed v.capacity_fits fits) [
        | inl (e, refused) ↦ inl (rw (enough, e), refused)
        | inr (n, address, e, le, new_valid) ↦
            let (t', ran, mv) =
              rebuild_loop-Moved n (suc t.table_size) iter_init (empty_table t.opts n address)
                (omega arith) (omega arith) (omega arith) (start n address new_valid) in
            inr (
              t',
              rw (enough, e, ran),
              record {
                valid = mv.valid;
                reads = λ k m. mv.reads k m ∙ passed_all t v k m;
                counted = mv.counted ∙ count_live t v;
                fresh = mv.fresh;
                roomy = rw mv.sized le;
                same_opts = mv.same_opts;
              },
            )
      ]
