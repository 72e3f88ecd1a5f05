-- ===== src/Table/Overwrite.antt =====
-- Replacing an element by one with the same key, and marking a cell as removed, keep the table
-- well formed.
use libclod.Prelude.{
  ℕ, ◌+◌, ◌^◌, ◌≤◌, ◌<◌, ◌≡◌, ◌≢◌, ◌⊎◌, inl, inr, sym, ◌∙◌, true, false, leb, ◌==◌, count, count-le,
  count_change, Bool-cases, arith,
}
use libclod.Table.Types.{Element, Table}
use libclod.Table.Probe.{Position, get_position, key_equal, slot}
use libclod.Table.Valid.{IsReached, IsPlaced, IsValid}
use libclod.Table.Search.{IsReached-by_key}
use libclod.Table.Writes.{replace, erase, is_new, key_equal-replace, distinct-write}

module _ {E : Type 0} (t : Table E) (valid : IsValid t) where
  module _ (new : Element E) (i : ℕ) (lt : i < t.table_size) (live : 128 ≤ t.control i)
      (held : key_equal t i new.ptr new.key_size ≡ true) where
    abbrev replaced : Table E
    replaced = replace t i new

    replace-IsReached : (pos : Position) (j : ℕ) → IsReached t pos j → IsReached replaced pos j
    unfolding slot
    replace-IsReached pos j r = record {
      ctl = r.ctl;
      distance = r.distance;
      near = r.near;
      here = r.here;
      path = r.path;
    }

    replace-IsPlaced : (j : ℕ) → j < t.table_size → 128 ≤ t.control j → IsPlaced replaced j
    unfolding get_position
    replace-IsPlaced j l live' = elim (Bool-cases (i == j)) [
      | inl e ↦
          let here : i ≡ j = ground arith in
          record {
            element = new;
            stored = rw e;
            reached = replace-IsReached _ j (
                rw here at (
                  IsReached-by_key t valid.keyed i new.ptr new.key_size (valid.placed i lt live)
                    held));
          }
      | inr e ↦
          let p = valid.placed j l live' in
          record {
            element = p.element;
            stored = rw e p.stored;
            reached = replace-IsReached _ j p.reached;
          }
    ]

    -- No other cell holds the key.
    lone :
        (j : ℕ)
        → j < t.table_size
        → 128 ≤ t.control j
        → j ≢ i
        → key_equal t j new.ptr new.key_size ≡ false
    lone j l live' ne = elim (Bool-cases (key_equal t j new.ptr new.key_size)) [
      | inr different ↦ different
      | inl same ↦ absurd (ne (valid.distinct j i l lt live' live new.ptr new.key_size same held))
    ]

    replace_other :
        (j : ℕ)
        → j < t.table_size
        → 128 ≤ t.control j
        → (k : E) (m : ℕ) → key_equal replaced j k m ≡ true
        → (i ≡ j) ⊎ ((i ≢ j) × (key_equal t j k m ≡ true) × (is_new t valid new k m ≡ false))
    replace_other j l live' k m held' = elim (Bool-cases (i == j)) [
      | inl e ↦ inl (ground arith)
      | inr e ↦
          let ne : i ≢ j = ground arith in
          let same : key_equal t j k m ≡ true =
            ground (arith, key_equal-replace t valid new i j k m) in
          inr (ne, same, distinct-write t valid new i lone j l live' (λ x. ne (sym x)) k m same)
    ]

    pub replace_new : (k : E) (m : ℕ) → key_equal replaced i k m ≡ is_new t valid new k m
    replace_new k m = ground (arith, key_equal-replace t valid new i i k m)

    replace_distinct :
        (a b : ℕ)
        → a < t.table_size
        → b < t.table_size
        → 128 ≤ t.control a
        → 128 ≤ t.control b
        → (k : E) (m : ℕ) → key_equal replaced a k m ≡ true
        → key_equal replaced b k m ≡ true
        → a ≡ b
    replace_distinct a b la lb va vb k m ha hb = elim (replace_other a la va k m ha) [
      | inl x ↦ elim (replace_other b lb vb k m hb) [
        | inl y ↦ sym x ∙ y
        | inr (ne, held', other) ↦
            let ha' = rw (← x) at ha in absurd (ground (arith, replace_new k m))
      ]
      | inr (ne, held', other) ↦ elim (replace_other b lb vb k m hb) [
        | inl y ↦ let hb' = rw (← y) at hb in absurd (ground (arith, replace_new k m))
        | inr (ne', held'', other') ↦ valid.distinct a b la lb va vb k m held' held''
      ]
    ]

    pub replace-IsValid : IsValid replaced
    replace-IsValid = record {
      keyed = valid.keyed;
      size_fits = valid.size_fits;
      capacity_fits = valid.capacity_fits;
      cursor_fits = valid.cursor_fits;
      bytes = valid.bytes;
      placed = replace-IsPlaced;
      distinct = replace_distinct;
      elems = valid.elems;
      deleted = valid.deleted;
    }

  module _ (i : ℕ) (lt : i < t.table_size) (live : 128 ≤ t.control i)
      (room : t.cursor + t.table_size < 2 ^ 64) where
    abbrev erased : Table E
    erased = erase t i

    erase-IsReached : (pos : Position) (j : ℕ) → i ≢ j → IsReached t pos j → IsReached erased pos j
    unfolding slot
    erase-IsReached pos j ne r = record {
      ctl = ground (arith, r.ctl);
      distance = r.distance;
      near = r.near;
      here = r.here;
      path = λ k h. ground (arith, r.path k h);
    }

    erase-IsPlaced : (j : ℕ) → j < t.table_size → 128 ≤ erased.control j → IsPlaced erased j
    unfolding get_position
    erase-IsPlaced j l live' =
        let p = valid.placed j l (ground arith) in
        record {
          element = p.element;
          stored = p.stored;
          reached = erase-IsReached _ j (ground arith) p.reached;
        }

    erase_distinct :
        (a b : ℕ)
        → a < t.table_size
        → b < t.table_size
        → 128 ≤ erased.control a
        → 128 ≤ erased.control b
        → (k : E) (m : ℕ) → key_equal erased a k m ≡ true
        → key_equal erased b k m ≡ true
        → a ≡ b
    unfolding key_equal
    erase_distinct a b la lb va vb k m ha hb =
        valid.distinct a b la lb (ground arith) (ground arith) k m ha hb

    erase_elems : erased.elem_count ≡ count (λ j. leb 128 (erased.control j)) t.table_size
    erase_elems = ground (
      arith,
      valid.elems,
      count-le (λ j. leb 128 (t.control j)) t.table_size,
      count_change (λ j. leb 128 (t.control j)) (λ j. leb 128 (erased.control j)) t.table_size i lt
          (λ j ne. ground arith),
    )

    pub erase_counted : erased.elem_count + 1 ≡ t.elem_count
    erase_counted = ground (
      arith,
      valid.elems,
      count-le (λ j. leb 128 (t.control j)) t.table_size,
      count_change (λ j. leb 128 (t.control j)) (λ j. leb 128 (erased.control j)) t.table_size i lt
          (λ j ne. ground arith),
    )

    erase_deleted : erased.deleted_count ≡ count (λ j. erased.control j == 1) t.table_size
    erase_deleted = ground (
      arith,
      valid.deleted,
      count-le (λ j. t.control j == 1) t.table_size,
      count_change (λ j. t.control j == 1) (λ j. erased.control j == 1) t.table_size i lt
          (λ j ne. ground arith),
    )

    pub erase-IsValid : IsValid erased
    erase-IsValid = record {
      keyed = valid.keyed;
      size_fits = valid.size_fits;
      capacity_fits = valid.capacity_fits;
      cursor_fits = omega arith;
      bytes = λ j l. ground (arith, valid.bytes j l);
      placed = erase-IsPlaced;
      distinct = erase_distinct;
      elems = erase_elems;
      deleted = erase_deleted;
    }
