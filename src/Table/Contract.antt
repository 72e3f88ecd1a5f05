-- ===== src/Table/Contract.antt =====
-- What include/clod/table.h promises of the public operations, over the abstract map of a table.
use libclod.Prelude.{
  not, ℕ, ◌+◌, ◌^◌, ◌≤◌, ◌<◌, ◌≡◌, ◌⊎◌, inl, inr, refl, sym, ◌∙◌, ap, Bool, true, false, Option,
  none, some, List, if◌then◌else◌, ◌==◌, to_nat, Bool-cases, Option-cases, arith,
}
use libclod.Table.Types.{ok, UserOpts, Table, Malloc, lf_max, capacity_to_size, apply_default_opts}
use libclod.Table.Ops.{add, set_element, del, len, new_table}
use libclod.Table.Valid.{IsKeyed, IsValid, pointer, same_key, view}
use libclod.Table.Insert.{is_none, view_hit, view_miss}
use libclod.Table.Search.{probe-Search, hit, miss}
use libclod.Table.Overwrite.{erase-IsValid, erase_counted}
use libclod.Table.Views.{view-erase}
use libclod.Table.Writes.{erase, key_equal-new}
use libclod.Table.Probe.{key_equal}
use libclod.Table.Rebuild.{create_cases, view-empty}
use libclod.Table.Methods.{put_cases}

module _ {E : Type 0} (t : Table E) (v : IsValid t) where
  -- The key is bound to the element, and every other key is as it was.
  abbrev pub Binds : E → ℕ → Table E → Type 0
  Binds ptr n t' =
      (k : E) (m : ℕ) → view t' k m ≡ (if same_key t.opts ptr n k m then some ptr else view t k m)

  -- `clod_table_set` on a well-formed table with fewer than 2 ^ 56 - 1 elements ends, whatever
  -- `malloc` does, and no assertion fails. Either `malloc` refuses, the given element is returned
  -- and the table does not change; or the element with the key is returned, or null if there is
  -- none, the table stays well formed, the key is bound to the new element, every other key keeps
  -- its element, and the length grows by one exactly if the key was not bound.
  pub set_element-Binds :
      (ptr : E) (n : ℕ) (malloc : Malloc)
      → t.elem_count + 1 < 2 ^ 56
      → ((set_element t ptr n malloc ≡ ok (t, some ptr)) × ((bytes : ℕ) × (malloc bytes ≡ none)))
        ⊎ ((t' : Table E) × (set_element t ptr n malloc ≡ ok (t', view t ptr n))
            × IsValid t'
            × Binds ptr n t'
            × (len t' ≡ len t + to_nat (is_none (view t ptr n))))
  unfolding set_element
  set_element-Binds ptr n malloc fits = elim (put_cases t v true ptr n malloc fits) [
    | inl refused ↦ inl refused
    | inr (r, ran, w) ↦
        inr (r.0, ran ∙ ap (λ x. ok (r.0, x)) w.returned, w.valid, w.reads, w.counted)
  ]

  -- `clod_table_add` on a well-formed table with fewer than 2 ^ 56 - 1 elements ends, whatever
  -- `malloc` does, and no assertion fails. Either `malloc` refuses, the given element is returned
  -- and the table does not change; or, where the key is not bound, null is returned, the table stays
  -- well formed, the key is bound to the element, every other key keeps its element and the length
  -- grows by one; or, where it is bound, the element with the key is returned, the table stays well
  -- formed, no key changes its element and the length stays.
  pub add-Binds :
      (ptr : E) (n : ℕ) (malloc : Malloc)
      → t.elem_count + 1 < 2 ^ 56
      → ((add t ptr n malloc ≡ ok (t, some ptr)) × ((bytes : ℕ) × (malloc bytes ≡ none)))
        ⊎ ((t' : Table E) × (add t ptr n malloc ≡ ok (t', view t ptr n))
            × IsValid t'
            × (((view t ptr n ≡ none) × Binds ptr n t' × (len t' ≡ len t + 1))
                ⊎ ((old : E) × (view t ptr n ≡ some old)
                    × ((k : E) (m : ℕ) → view t' k m ≡ view t k m)
                    × (len t' ≡ len t))))
  unfolding add
  add-Binds ptr n malloc fits = elim (put_cases t v false ptr n malloc fits) [
    | inl refused ↦ inl refused
    | inr (r, ran, w) ↦ inr (
      r.0,
      ran ∙ ap (λ x. ok (r.0, x)) w.returned,
      w.valid,
      elim (Option-cases (view t ptr n)) [
        | inl absent ↦ inl (absent, (λ k m. w.reads k m ∙ rw absent), w.counted ∙ rw absent)
        | inr (old, bound) ↦
            inr (old, bound, (λ k m. w.reads k m ∙ rw bound), w.counted ∙ rw bound (omega arith))
      ],
    )
  ]

  -- What `clod_table_del` does: the abstract map loses the key.
  record Unbound (key : E) (n : ℕ) (r : Table E × Option E) : Type 0 where
    returned : r.1 ≡ view t key n
    valid : IsValid r.0
    reads :
        (k : E) (m : ℕ) → view r.0 k m ≡ (if same_key t.opts key n k m then none else view t k m)
    counted : len r.0 + to_nat (not (is_none (view t key n))) ≡ len t

  -- A key that equals an absent key is absent.
  absent_same :
      (key : E) (n : ℕ)
      → ((j : ℕ) → j < t.table_size → 128 ≤ t.control j → key_equal t j key n ≡ false)
      → (k : E) (m : ℕ) → view t k m ≡ (if same_key t.opts key n k m then none else view t k m)
  absent_same key n absent k m = elim (Bool-cases (same_key t.opts key n k m)) [
    | inr other ↦ rw other
    | inl same ↦ rw same (
        view_miss t k m λ j l live. elim (Bool-cases (key_equal t j k m)) [
          | inr different ↦ different
          | inl held ↦
              let p = v.placed j l live in
              let held' =
                key_equal-new t v (record { ptr = key; key_size = n }) j p.element k m p.stored held
                  same in
              let gone = absent j l live in absurd (ground arith)
        ])
  ]

  Unbound-absent :
      (key : E) (n : ℕ)
      → ((j : ℕ) → j < t.table_size → 128 ≤ t.control j → key_equal t j key n ≡ false)
      → Unbound key n (t, none)
  Unbound-absent key n absent =
      let seen = view_miss t key n absent in
      record {
        returned = sym seen;
        valid = v;
        reads = absent_same key n absent;
        counted = rw seen (omega arith);
      }

  Unbound-erase :
      (key : E) (n i : ℕ)
      → i < t.table_size
      → 128 ≤ t.control i
      → key_equal t i key n ≡ true
      → t.cursor + t.table_size < 2 ^ 64
      → Unbound key n (erase t i, pointer (t.elements i))
  unfolding len
  Unbound-erase key n i l live held room =
      let p = v.placed i l live in
      let seen = view_hit t v i key n l live held in
      record {
        returned = sym seen;
        valid = erase-IsValid t v i l live room;
        reads = view-erase t v key n i l live held room;
        counted = rw (seen, p.stored) (erase_counted t v i l live room);
      }

  del-Unbound : (key : E) (n : ℕ) → t.cursor + t.table_size < 2 ^ 64 → Unbound key n (del t key n)
  unfolding del
  del-Unbound key n room = elim (Bool-cases (t.table_size == 0)) [
    | inl empty ↦ rw empty (Unbound-absent key n (λ j l. absurd (ground arith)))
    | inr filled ↦ elim (probe-Search t v (ground arith) key n) [
      | hit j l found live same ↦ rw (filled, found) (Unbound-erase key n j l live same room)
      | miss missed absent a ↦ rw (filled, missed) (Unbound-absent key n absent)
    ]
  ]

  -- `clod_table_del` on a well-formed table whose cursor and size sum to less than 2 ^ 64: the element with the key is returned, or null if there is none, the table
  -- stays well formed, the key is no longer bound, every other key keeps its element, and the
  -- length falls by one exactly if the key was bound.
  pub del-Unbinds :
      (key : E) (n : ℕ)
      → t.cursor + t.table_size < 2 ^ 64
      → ((del t key n).1 ≡ view t key n)
        × IsValid (del t key n).0
        × ((k : E) (m : ℕ)
            → view (del t key n).0 k m ≡ (if same_key t.opts key n k m then none else view t k m))
        × (len (del t key n).0 + to_nat (not (is_none (view t key n))) ≡ len t)
  del-Unbinds key n room =
      let u = del-Unbound key n room in (u.returned, u.valid, u.reads, u.counted)

capacity-lt : (c : ℕ) → c < 2 ^ 56 → capacity_to_size lf_max c < 2 ^ 57
unfolding capacity_to_size
capacity-lt c h = omega arith

-- `clod_table_create` with callbacks that meet the documentation and a least capacity below 2 ^ 56:
-- null, and then one of its allocations was refused, or a well-formed table of
-- length 0 that binds no key.
pub new_table_lem :
    {E : Type 0} (bytes : E → ℕ → List ℕ) (memcmp : E → E → ℕ → Bool) (opts : UserOpts E)
    (malloc_handle malloc_arrays : Malloc)
    → IsKeyed (apply_default_opts bytes memcmp opts)
    → opts.min_capacity < 2 ^ 56
    → ((new_table bytes memcmp (some opts) malloc_handle malloc_arrays ≡ none)
        × ((n : ℕ) × ((malloc_handle n ≡ none) ⊎ (malloc_arrays n ≡ none))))
      ⊎ ((t : Table E) × (new_table bytes memcmp (some opts) malloc_handle malloc_arrays ≡ some t)
          × IsValid t
          × (len t ≡ 0)
          × ((k : E) (m : ℕ) → view t k m ≡ none))
unfolding new_table apply_default_opts len
new_table_lem bytes memcmp opts malloc_handle malloc_arrays keyed cap =
    elim (Option-cases (malloc_handle 72)) [
      | inl refused ↦ inl (rw (new_table, refused), (72, inl refused))
      | inr (handle, given) ↦
          elim (create_cases (apply_default_opts bytes memcmp opts)
            (capacity_to_size lf_max opts.min_capacity) malloc_arrays keyed cap
            (capacity-lt opts.min_capacity cap)) [
              | inl (e, (n, refused)) ↦ inl (rw (new_table, given, e), (n, inr refused))
              | inr (n, address, e, le, valid) ↦
                  inr (_, rw (new_table, given, e), valid, refl, view-empty _ n address)
            ]
    ]
