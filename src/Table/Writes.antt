-- ===== src/Table/Writes.antt =====
-- The three ways in which an operation writes a cell, and that each keeps the table well formed.
use libclod.Prelude.{
  ℕ, ◌+◌, ◌-◌, ◌^◌, ◌≤◌, ◌<◌, ◌≡◌, ◌≢◌, inl, inr, sym, ◌∙◌, Bool, true, false, some, if◌then◌else◌,
  ◌==◌, u64, set, Bool-cases, arith,
}
use libclod.Table.Types.{Element, Table, ctl_removed}
use libclod.Table.Probe.{get_position, key_equal}
use libclod.Table.Valid.{IsValid, same_key}
use libclod.Table.Keys.{same_key_symm, same_key_trans}
use libclod.Table.Search.{key_equal_intro}

module _ {E : Type 0} where
  -- An element goes into a free cell.
  abbrev pub fill : Table E → ℕ → Element E → Table E
  fill t a new = record t {
    elem_count = u64 (t.elem_count + 1);
    deleted_count =
        if t.control a == ctl_removed then u64 (t.deleted_count + 2 ^ 64 - 1) else t.deleted_count;
    control = set t.control a (get_position t new.ptr new.key_size).ctl;
    elements = set t.elements a (some new);
  }

  -- An element takes the place of one with the same key.
  abbrev pub replace : Table E → ℕ → Element E → Table E
  replace t i new = record t { elements = set t.elements i (some new) }

  -- A cell is marked as removed.
  abbrev pub erase : Table E → ℕ → Table E
  erase t i = record t {
    control = set t.control i ctl_removed;
    elem_count = u64 (t.elem_count + 2 ^ 64 - 1);
    deleted_count = u64 (t.deleted_count + 1);
    cursor = u64 (t.cursor + 1);
  }

  module _ (t : Table E) (valid : IsValid t) (new : Element E) where
    abbrev pub is_new : E → ℕ → Bool
    is_new k m = same_key t.opts new.ptr new.key_size k m

    -- How a write of `new` at `a` changes what the cells hold.
    pub key_equal-replace :
        (a j : ℕ) (k : E) (m : ℕ)
        → key_equal (replace t a new) j k m ≡ (if a == j then is_new k m else key_equal t j k m)
    unfolding key_equal
    key_equal-replace a j k m = elim (Bool-cases (a == j)) [
      | inl e ↦ rw (e, key_equal) (ground arith)
      | inr e ↦ rw (e, key_equal) (ground arith)
    ]

    pub key_equal-fill :
        (a j : ℕ) (k : E) (m : ℕ)
        → key_equal (fill t a new) j k m ≡ (if a == j then is_new k m else key_equal t j k m)
    unfolding key_equal
    key_equal-fill a j k m = key_equal-replace a j k m

    -- A cell that holds a key which equals the new one holds the new key.
    pub key_equal-new :
        (j : ℕ) (e : Element E) (k : E) (m : ℕ)
        → t.elements j ≡ some e
        → key_equal t j k m ≡ true
        → is_new k m ≡ true
        → key_equal t j new.ptr new.key_size ≡ true
    key_equal-new j e k m stored held same =
        key_equal_intro t j e new.ptr new.key_size stored
        ∙ same_key_trans t.opts valid.keyed e.ptr k new.ptr e.key_size m new.key_size
            (sym (key_equal_intro t j e k m stored) ∙ held)
            (same_key_symm t.opts valid.keyed new.ptr k new.key_size m same)

    -- Where one cell takes `new` and the rest keeps its elements, keys stay distinct, provided that
    -- no other occupied cell held the new key.
    pub distinct-write :
        (a : ℕ)
        → ((j : ℕ)
            → j < t.table_size
            → 128 ≤ t.control j
            → j ≢ a
            → key_equal t j new.ptr new.key_size ≡ false)
        → (j : ℕ) → j < t.table_size
        → 128 ≤ t.control j
        → j ≢ a
        → (k : E) (m : ℕ) → key_equal t j k m ≡ true
        → is_new k m ≡ false
    distinct-write a lone j l live ne k m held = elim (Bool-cases (is_new k m)) [
      | inr different ↦ different
      | inl same ↦
          let p = valid.placed j l live in
          let h = key_equal-new j p.element k m p.stored held same in
          let h' = lone j l live ne in absurd (ground arith)
    ]

    -- Two keys that one cell holds are the same key.
    pub same_of_held :
        (j : ℕ)
        → j < t.table_size
        → 128 ≤ t.control j
        → key_equal t j new.ptr new.key_size ≡ true
        → (k : E) (m : ℕ) → key_equal t j k m ≡ true
        → is_new k m ≡ true
    same_of_held j l live held k m held' =
        let p = valid.placed j l live in
        let e = p.element in
        let eq = key_equal_intro t j e new.ptr new.key_size p.stored in
        let eq' = key_equal_intro t j e k m p.stored in
        same_key_trans t.opts valid.keyed new.ptr e.ptr k new.key_size e.key_size m
          (same_key_symm t.opts valid.keyed e.ptr new.ptr e.key_size new.key_size (sym eq ∙ held))
          (sym eq' ∙ held')
