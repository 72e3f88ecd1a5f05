-- ===== src/Table/Methods.antt =====
-- The public operations on a well-formed table: the invariant is kept, and each operation reads or
-- writes the abstract map as include/clod/table.h documents.
use libclod.Prelude.{
  ℕ, ◌+◌, ◌*◌, ◌/◌, ◌^◌, ◌≤◌, ◌<◌, ◌≡◌, ◌⊎◌, inl, inr, refl, ◌∙◌, ap, Bool, true, false, ◌&&◌, ◌||◌,
  Option, none, some, leb, if◌then◌else◌, ◌==◌, u64, to_nat, count_disjoint, Bool-cases, arith,
}
use libclod.Table.Types.{ok, Table, Malloc, lf_min, load_factor, capacity_to_size}
use libclod.Table.Ops.{is_full, make_room, put, len}
use libclod.Table.Valid.{IsValid, same_key, view}
use libclod.Table.Insert.{is_none, Inserted, insert-Inserted}
use libclod.Table.Rebuild.{rebuild-Rebuilt}

quotient_bound : (x s : ℕ) → 0 < s → x * 100 / s < 85 → x < s
quotient_bound x s pos h = grind arith

module _ {E : Type 0} (t : Table E) (v : IsValid t) where
  -- Occupied and removed cells together are no more than the cells.
  counts-le : t.elem_count + t.deleted_count ≤ t.table_size
  counts-le = omega (
    arith,
    v.elems,
    v.deleted,
    count_disjoint (λ j. leb 128 (t.control j)) (λ j. t.control j == 1) t.table_size
        (λ j. ground arith),
  )

  -- Below the maximum load there is an empty cell.
  not_full : is_full t ≡ false → t.elem_count + t.deleted_count < t.table_size
  unfolding is_full load_factor
  not_full h =
      let x = t.elem_count + t.deleted_count in
      let exact : u64 (u64 x * 100) ≡ x * 100 = omega (arith, counts-le, v.size_fits) in
      let pos : 0 < t.table_size = ground arith in
      let low : u64 (u64 x * 100) / t.table_size < 85 = ground arith in
      quotient_bound x t.table_size pos (rw exact at low)

  min_load_size :
      t.elem_count + 1 < 2 ^ 56
      → capacity_to_size lf_min (u64 (t.elem_count + 1)) ≡ 2 * (t.elem_count + 1)
  unfolding capacity_to_size
  min_load_size h = omega arith

  -- The growth at the head of an insertion: a table with the same elements and an empty cell, or,
  -- where `malloc` refuses, no change.
  record Roomy (t' : Table E) : Type 0 where
    valid : IsValid t'
    reads : (k : E) (m : ℕ) → view t' k m ≡ view t k m
    counted : t'.elem_count ≡ t.elem_count
    room : t'.elem_count + t'.deleted_count < t'.table_size
    same_opts : t'.opts ≡ t.opts

  make_room_cases :
      (malloc : Malloc)
      → t.elem_count + 1 < 2 ^ 56
      → ((make_room t malloc ≡ ok (false, t)) × ((bytes : ℕ) × (malloc bytes ≡ none)))
        ⊎ ((t' : Table E) × (make_room t malloc ≡ ok (true, t')) × Roomy t')
  unfolding make_room
  make_room_cases malloc fits = elim (Bool-cases (is_full t)) [
    | inr free ↦ inr (
      t,
      rw free,
      record {
        valid = v;
        reads = λ k m. refl;
        counted = refl;
        room = not_full free;
        same_opts = refl;
      },
    )
    | inl full ↦
        elim (rebuild-Rebuilt t v (2 * (t.elem_count + 1)) malloc (omega arith) (omega arith)) [
          | inl (e, refused) ↦ inl (rw (full, min_load_size fits) e, refused)
          | inr (t', e, b) ↦ inr (
            t',
            rw (full, min_load_size fits) e,
            record {
              valid = b.valid;
              reads = b.reads;
              counted = b.counted;
              room = omega (arith, b.counted, b.fresh, b.roomy);
              same_opts = b.same_opts;
            },
          )
        ]
  ]

  -- What `clod_table_add` and `clod_table_set` do: the old element with the key, or null, is
  -- returned, and the key is bound to the new element if it was not bound or `rep` is set.
  pub record Written (rep : Bool) (ptr : E) (n : ℕ) (r : Table E × Option E) : Type 0 where
    pub valid : IsValid r.0
    pub returned : r.1 ≡ view t ptr n
    pub reads :
        (k : E) (m : ℕ)
        → view r.0 k m ≡ (
            if (rep || is_none (view t ptr n)) && same_key t.opts ptr n k m
            then some ptr
            else view t k m)
    pub counted : len r.0 ≡ len t + to_nat (is_none (view t ptr n))
    pub same_opts : r.0.opts ≡ t.opts

  Written-of_Inserted :
      (rep : Bool) (ptr : E) (n : ℕ) (t' : Table E) (r : Table E × Option E)
      → Roomy t'
      → Inserted rep t' ptr n r
      → Written rep ptr n r
  unfolding len
  Written-of_Inserted rep ptr n t' r b i = record {
    valid = i.valid;
    returned = i.returned ∙ b.reads ptr n;
    reads = λ k m.
        i.reads k m
        ∙ rw (b.reads ptr n, b.reads k m)
            (ap
              (λ o.
                if (rep || is_none (view t ptr n)) && same_key o ptr n k m
                then some ptr
                else view t k m)
              b.same_opts);
    counted = i.counted ∙ rw (b.reads ptr n, b.counted);
    same_opts = i.same_opts ∙ b.same_opts;
  }

  pub put_cases :
      (rep : Bool) (ptr : E) (n : ℕ) (malloc : Malloc)
      → t.elem_count + 1 < 2 ^ 56
      → ((put rep t ptr n malloc ≡ ok (t, some ptr)) × ((bytes : ℕ) × (malloc bytes ≡ none)))
        ⊎ ((r : Table E × Option E) × (put rep t ptr n malloc ≡ ok r) × Written rep ptr n r)
  unfolding put
  put_cases rep ptr n malloc fits = elim (make_room_cases malloc fits) [
    | inl (e, refused) ↦ inl (rw e, refused)
    | inr (t', e, b) ↦
        let (r, ran, i) = insert-Inserted t' b.valid b.room ptr n rep in
        inr (r, rw e ran, Written-of_Inserted rep ptr n t' r b i)
  ]
