-- ===== src/Table/Insert.antt =====
-- `insert` on a well-formed table with an empty cell.
use libclod.Prelude.{
  ℕ, ◌+◌, ◌-◌, ◌^◌, ◌≤◌, ◌<◌, ◌≡◌, inl, inr, refl, sym, ◌∙◌, ap, Bool, true, false, ◌||◌, ◌&&◌,
  Option, none, some, ltb, leb, if◌then◌else◌, ◌==◌, to_nat, count_lt_some, count_or_le, Bool-cases,
  arith,
}
use libclod.Table.Types.{ok, Element, Table}
use libclod.Table.Probe.{Position, get_position, slot, key_equal, probe}
use libclod.Table.Ops.{insert}
use libclod.Table.Valid.{IsValid, Leads, pointer, same_key, view}
use libclod.Table.ProbeLaws.{Available}
use libclod.Table.Search.{slot-lt, hit, miss, probe-Search, scan_hit, scan_miss}
use libclod.Table.Writes.{fill, replace}
use libclod.Table.Fill.{fill-IsValid, fill_deleted-le}
use libclod.Table.Overwrite.{replace-IsValid}
use libclod.Table.Views.{view-fill, view-replace}

or-true : (b : Bool) → b || true ≡ true
or-true true = refl
or-true false = refl

module _ {E : Type 0} where
  abbrev pub is_none : Option E → Bool
  is_none none = true
  is_none (some e) = false

  -- Every cell is on the path of every position.
  slot_onto :
      (t : Table E) (pos : Position) (j : ℕ)
      → pos.index < t.table_size
      → t.table_size < 2 ^ 57
      → j < t.table_size
      → (i : ℕ) × (i < t.table_size) × (slot t pos i ≡ j)
  unfolding slot
  slot_onto t pos j h fits l = elim (Bool-cases (leb pos.index j)) [
    | inl le ↦ (j - pos.index, ground arith, grind arith)
    | inr gt ↦ (j + t.table_size - pos.index, ground arith, grind arith)
  ]

  -- Counts below the size leave an empty cell.
  some_empty :
      (t : Table E)
      → IsValid t
      → t.elem_count + t.deleted_count < t.table_size
      → (j : ℕ) × (j < t.table_size) × (t.control j ≡ 0)
  some_empty t v h =
      let p : ℕ → Bool = λ j. leb 128 (t.control j) in
      let q : ℕ → Bool = λ j. t.control j == 1 in
      let (j, l, e) =
        count_lt_some (λ j. p j || q j) t.table_size
          (omega (arith, v.elems, v.deleted, count_or_le p q t.table_size)) in
      (j, l, ground (arith, v.bytes j l))

  pub view_hit :
      (t : Table E) (v : IsValid t) (j : ℕ) (k : E) (m : ℕ)
      → j < t.table_size
      → 128 ≤ t.control j
      → key_equal t j k m ≡ true
      → view t k m ≡ pointer (t.elements j)
  unfolding view
  view_hit t v j k m l live same = scan_hit t v t.table_size j k m (omega arith) l live same

  pub view_miss :
      (t : Table E) (k : E) (m : ℕ)
      → ((j : ℕ) → j < t.table_size → 128 ≤ t.control j → key_equal t j k m ≡ false)
      → view t k m ≡ none
  unfolding view
  view_miss t k m absent = scan_miss t t.table_size k m absent

  -- What `insert` does to a table: the element with the key is returned, or null, and the key is
  -- bound to the new element if it was not bound or `replace` is set.
  pub record Inserted (rep : Bool) (t : Table E) (ptr : E) (n : ℕ) (r : Table E × Option E)
      : Type 0 where
    pub valid : IsValid r.0
    pub returned : r.1 ≡ view t ptr n
    pub reads :
        (k : E) (m : ℕ)
        → view r.0 k m ≡ (
            if (rep || is_none (view t ptr n)) && same_key t.opts ptr n k m
            then some ptr
            else view t k m)
    pub counted : r.0.elem_count ≡ t.elem_count + to_nat (is_none (view t ptr n))
    pub same_size : r.0.table_size ≡ t.table_size
    pub same_opts : r.0.opts ≡ t.opts
    pub removed : r.0.deleted_count ≤ t.deleted_count
    pub same_cursor : r.0.cursor ≡ t.cursor

  module _ (t : Table E) (v : IsValid t) (room : t.elem_count + t.deleted_count < t.table_size)
      (ptr : E) (n : ℕ) where
    abbrev new : Element E
    new = record { ptr = ptr; key_size = n }

    index-lt : (get_position t ptr n).index < t.table_size
    unfolding get_position
    index-lt = omega arith

    enough : ltb t.elem_count t.table_size ≡ true
    enough = ground arith

    abbrev Inserts : Bool → Type 0
    Inserts rep = (r : Table E × Option E) × (insert t rep ptr n ≡ ok r) × Inserted rep t ptr n r

    insert_hit :
        (rep : Bool) (j : ℕ)
        → j < t.table_size
        → 128 ≤ t.control j
        → key_equal t j ptr n ≡ true
        → (probe t (get_position t ptr n) ptr n).existing ≡ some j
        → Inserts rep
    unfolding insert
    insert_hit true j l live same found =
        let p = v.placed j l live in
        let seen = view_hit t v j ptr n l live same in
        (
          (replace t j new, pointer (t.elements j)),
          rw (enough, found),
          record {
            valid = replace-IsValid t v new j l live same;
            returned = sym seen;
            reads = view-replace t v new j l live same;
            counted = rw (seen, p.stored) (omega arith);
            same_size = refl;
            same_opts = refl;
            removed = omega arith;
            same_cursor = refl;
          },
        )
    insert_hit false j l live same found =
        let p = v.placed j l live in
        let seen = view_hit t v j ptr n l live same in
        (
          (t, pointer (t.elements j)),
          rw (enough, found),
          record {
            valid = v;
            returned = sym seen;
            reads = λ k m. rw (seen, p.stored);
            counted = rw (seen, p.stored) (omega arith);
            same_size = refl;
            same_opts = refl;
            removed = omega arith;
            same_cursor = refl;
          },
        )

    insert_miss :
        (rep : Bool)
        → ((j : ℕ) → j < t.table_size → 128 ≤ t.control j → key_equal t j ptr n ≡ false)
        → (probe t (get_position t ptr n) ptr n).existing ≡ none
        → Available t (get_position t ptr n) ptr n (probe t (get_position t ptr n) ptr n).available
        → Inserts rep
    insert_miss rep absent missed (inl (e, full)) =
        let (j, l, empty) = some_empty t v room in
        let (i, near, here) = slot_onto t (get_position t ptr n) j index-lt v.size_fits l in
        absurd (full i near (ap t.control here ∙ empty))
    insert_miss rep absent missed (inr (i, near, e, free, path)) =
        let a = slot t (get_position t ptr n) i in
        let lt = slot-lt t (omega arith) (get_position t ptr n) i in
        let at : Leads t (get_position t ptr n) a = (i, near, refl, path) in
        let seen : view t ptr n ≡ none = view_miss t ptr n absent in
        (
          (fill t a new, none),
          unfold insert in rw (enough, missed, e),
          record {
            valid = fill-IsValid t v new a lt free absent at;
            returned = sym seen;
            reads = λ k m. rw (seen, or-true rep) (view-fill t v new a lt free absent at k m);
            counted = rw seen (omega arith);
            same_size = refl;
            same_opts = refl;
            removed = fill_deleted-le t v new a lt free absent at;
            same_cursor = refl;
          },
        )

    -- `insert` does not fail where there is an empty cell.
    pub insert-Inserted : (rep : Bool) → Inserts rep
    insert-Inserted rep = elim (probe-Search t v (omega arith) ptr n) [
      | hit j l found live same ↦ insert_hit rep j l live same found
      | miss missed absent a ↦ insert_miss rep absent missed a
    ]
