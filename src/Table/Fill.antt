-- ===== src/Table/Fill.antt =====
-- Filling a free cell on the path of a new key keeps the table well formed.
use libclod.Prelude.{
  ℕ, ◌≤◌, ◌<◌, ◌≡◌, ◌≢◌, ◌⊎◌, inl, inr, sym, ◌∙◌, true, false, leb, ◌==◌, count, count-le,
  count_change, Bool-cases, arith,
}
use libclod.Table.Types.{Element, Table}
use libclod.Table.Probe.{Position, get_position, key_equal, slot}
use libclod.Table.Valid.{IsReached, IsPlaced, IsValid, Leads}
use libclod.Table.Search.{get_position_ctl}
use libclod.Table.Writes.{fill, is_new, key_equal-fill, distinct-write}

module _ {E : Type 0} (t : Table E) (valid : IsValid t) (new : Element E) where
  abbrev pub position : Position
  position = get_position t new.ptr new.key_size

  module _ (a : ℕ) (lt : a < t.table_size) (free : t.control a ≤ 1)
      (absent : (j : ℕ)
        → j < t.table_size
        → 128 ≤ t.control j
        → key_equal t j new.ptr new.key_size ≡ false)
      (reached : Leads t (get_position t new.ptr new.key_size) a) where
    abbrev pub filled : Table E
    filled = fill t a new

    -- A path that was full stays full.
    fill_full : (j : ℕ) → t.control j ≢ 0 → filled.control j ≢ 0
    fill_full j h = ground (arith, get_position_ctl t new.ptr new.key_size)

    fill-IsReached : (pos : Position) (j : ℕ) → a ≢ j → IsReached t pos j → IsReached filled pos j
    unfolding slot
    fill-IsReached pos j ne r = record {
      ctl = ground (arith, r.ctl);
      distance = r.distance;
      near = r.near;
      here = r.here;
      path = λ k h. fill_full (slot t pos k) (r.path k h);
    }

    fill-IsPlaced : (j : ℕ) → j < t.table_size → 128 ≤ filled.control j → IsPlaced filled j
    unfolding slot position get_position
    fill-IsPlaced j l live = elim (Bool-cases (a == j)) [
      | inl e ↦
          let here : a ≡ j = ground arith in
          let (i, near, at, full) = reached in
          record {
            element = new;
            stored = rw e;
            reached = record {
              ctl = rw e;
              distance = i;
              near = near;
              here = at ∙ here;
              path = λ k h. fill_full (slot t position k) (full k h);
            };
          }
      | inr e ↦
          let p = valid.placed j l (ground arith) in
          record {
            element = p.element;
            stored = rw e p.stored;
            reached = fill-IsReached _ j (ground arith) p.reached;
          }
    ]

    -- What a cell other than the filled one holds.
    fill_other :
        (j : ℕ)
        → j < t.table_size
        → 128 ≤ filled.control j
        → (k : E) (m : ℕ) → key_equal filled j k m ≡ true
        → (a ≡ j)
          ⊎ ((a ≢ j)
              × (128 ≤ t.control j)
              × (key_equal t j k m ≡ true)
              × (is_new t valid new k m ≡ false))
    fill_other j l live k m held = elim (Bool-cases (a == j)) [
      | inl e ↦ inl (ground arith)
      | inr e ↦
          let here : a ≢ j = ground arith in
          let old : 128 ≤ t.control j = ground arith in
          let same : key_equal t j k m ≡ true =
            ground (arith, key_equal-fill t valid new a j k m) in
          inr (
            here,
            old,
            same,
            distinct-write t valid new a (λ i l' live' ne. absent i l' live') j l old
                (λ x. here (sym x)) k m same,
          )
    ]

    pub fill_new : (k : E) (m : ℕ) → key_equal filled a k m ≡ is_new t valid new k m
    fill_new k m = ground (arith, key_equal-fill t valid new a a k m)

    fill_distinct :
        (i j : ℕ)
        → i < t.table_size
        → j < t.table_size
        → 128 ≤ filled.control i
        → 128 ≤ filled.control j
        → (k : E) (m : ℕ) → key_equal filled i k m ≡ true
        → key_equal filled j k m ≡ true
        → i ≡ j
    fill_distinct i j li lj vi vj k m hi hj = elim (fill_other i li vi k m hi) [
      | inl x ↦ elim (fill_other j lj vj k m hj) [
        | inl y ↦ sym x ∙ y
        | inr (ne, live, held, other) ↦
            let hi' = rw (← x) at hi in absurd (ground (arith, fill_new k m))
      ]
      | inr (ne, live, held, other) ↦ elim (fill_other j lj vj k m hj) [
        | inl y ↦ let hj' = rw (← y) at hj in absurd (ground (arith, fill_new k m))
        | inr (ne', live', held', other') ↦ valid.distinct i j li lj live live' k m held held'
      ]
    ]

    fill_elems : filled.elem_count ≡ count (λ j. leb 128 (filled.control j)) t.table_size
    fill_elems = ground (
      arith,
      valid.elems,
      count-le (λ j. leb 128 (t.control j)) t.table_size,
      get_position_ctl t new.ptr new.key_size,
      count_change (λ j. leb 128 (t.control j)) (λ j. leb 128 (filled.control j)) t.table_size a lt
          (λ j ne. ground arith),
    )

    fill_deleted : filled.deleted_count ≡ count (λ j. filled.control j == 1) t.table_size
    fill_deleted = ground (
      arith,
      valid.deleted,
      count-le (λ j. t.control j == 1) t.table_size,
      get_position_ctl t new.ptr new.key_size,
      count_change (λ j. t.control j == 1) (λ j. filled.control j == 1) t.table_size a lt
          (λ j ne. ground arith),
    )

    pub fill-IsValid : IsValid filled
    fill-IsValid = record {
      keyed = valid.keyed;
      size_fits = valid.size_fits;
      capacity_fits = valid.capacity_fits;
      cursor_fits = valid.cursor_fits;
      bytes = λ j l. ground (arith, valid.bytes j l, get_position_ctl t new.ptr new.key_size);
      placed = fill-IsPlaced;
      distinct = fill_distinct;
      elems = fill_elems;
      deleted = fill_deleted;
    }

    pub fill_deleted-le : filled.deleted_count ≤ t.deleted_count
    fill_deleted-le = ground (
      arith,
      fill_deleted,
      valid.deleted,
      get_position_ctl t new.ptr new.key_size,
      count_change (λ j. t.control j == 1) (λ j. filled.control j == 1) t.table_size a lt
          (λ j ne. ground arith),
    )
