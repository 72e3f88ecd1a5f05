-- ===== src/Table/Views.antt =====
-- How the writes change the abstract map.
use libclod.Prelude.{
  ℕ, zero, suc, ◌+◌, ◌^◌, ◌≤◌, ◌<◌, ◌≡◌, ◌≢◌, inl, inr, refl, ◌∙◌, Bool, true, false, ◌&&◌, none,
  some, leb, if◌then◌else◌, ◌==◌, Bool-cases, arith,
}
use libclod.Table.Types.{Element, Table}
use libclod.Table.Probe.{get_position, key_equal}
use libclod.Table.Valid.{IsValid, Leads, pointer, same_key, scan, view}
use libclod.Table.Search.{get_position_ctl, scan_hit, scan_miss}
use libclod.Table.Writes.{
  fill, replace, erase, is_new, key_equal-fill, key_equal-replace, key_equal-new, same_of_held,
}
use libclod.Table.Fill.{fill_new, fill-IsValid}
use libclod.Table.Overwrite.{replace_new, replace-IsValid}

module _ {E : Type 0} where
  -- Whether the cell `j` is found by a scan for the key.
  abbrev hits : Table E → ℕ → E → ℕ → Bool
  hits t j k m = leb 128 (t.control j) && key_equal t j k m

  scan_congr :
      (t t' : Table E) (k : E) (m n : ℕ)
      → ((j : ℕ) → j < n → hits t' j k m ≡ hits t j k m)
      → ((j : ℕ) → j < n → hits t j k m ≡ true → pointer (t'.elements j) ≡ pointer (t.elements j))
      → scan t' k m n ≡ scan t k m n
  unfolding scan
  scan_congr t t' k m zero same stored = refl
  scan_congr t t' k m (suc n) same stored =
      let rest =
        scan_congr t t' k m n (λ j l. same j (omega arith)) (λ j l. stored j (omega arith)) in
      elim (Bool-cases (hits t n k m)) [
        | inl here ↦ rw (same n (omega arith) ∙ here, here) (stored n (omega arith) here)
        | inr there ↦ rw (same n (omega arith) ∙ there, there) rest
      ]

module _ {E : Type 0} (t : Table E) (valid : IsValid t) (new : Element E) where
  module _ (a : ℕ) (lt : a < t.table_size) (free : t.control a ≤ 1)
      (absent : (j : ℕ)
        → j < t.table_size
        → 128 ≤ t.control j
        → key_equal t j new.ptr new.key_size ≡ false)
      (reached : Leads t (get_position t new.ptr new.key_size) a) where
    -- Filling a cell binds the new key and leaves every other key alone.
    pub view-fill :
        (k : E) (m : ℕ)
        → view (fill t a new) k m ≡ (if is_new t valid new k m then some new.ptr else view t k m)
    unfolding view
    view-fill k m = elim (Bool-cases (is_new t valid new k m)) [
      | inl same ↦ rw same (
          scan_hit (fill t a new) (fill-IsValid t valid new a lt free absent reached) t.table_size a
            k m (omega arith) lt (ground (arith, get_position_ctl t new.ptr new.key_size))
            (fill_new t valid new a lt free absent reached k m ∙ same)
          ∙ ground arith)
      | inr other ↦ rw other (
          scan_congr t (fill t a new) k m t.table_size
            (λ j l. ground (arith, key_equal-fill t valid new a j k m)) (λ j l h. ground arith))
    ]

  module _ (i : ℕ) (lt : i < t.table_size) (live : 128 ≤ t.control i)
      (held : key_equal t i new.ptr new.key_size ≡ true) where
    other_cell :
        (k : E) (m : ℕ)
        → is_new t valid new k m ≡ false
        → (j : ℕ) → j < t.table_size
        → hits t j k m ≡ true
        → i ≢ j
    other_cell k m other j l h e =
        let held' : key_equal t i k m ≡ true = rw e (ground arith) in
        let same = same_of_held t valid new i lt live held k m held' in absurd (ground arith)

    hits-replace :
        (k : E) (m : ℕ)
        → is_new t valid new k m ≡ false
        → (j : ℕ) → j < t.table_size
        → hits (replace t i new) j k m ≡ hits t j k m
    hits-replace k m other j l =
        ground (arith, key_equal-replace t valid new i j k m, other_cell k m other j l)

    -- So does replacing the element of a cell that holds the key.
    pub view-replace :
        (k : E) (m : ℕ)
        → view (replace t i new) k m ≡ (if is_new t valid new k m then some new.ptr else view t k m)
    unfolding view
    view-replace k m = elim (Bool-cases (is_new t valid new k m)) [
      | inl same ↦ rw same (
          scan_hit (replace t i new) (replace-IsValid t valid new i lt live held) t.table_size i k m
            (omega arith) lt live (replace_new t valid new i lt live held k m ∙ same)
          ∙ ground arith)
      | inr other ↦ rw other (
          scan_congr t (replace t i new) k m t.table_size (λ j l. hits-replace k m other j l)
            (λ j l h. ground (arith, other_cell k m other j l)))
    ]

module _ {E : Type 0} (t : Table E) (valid : IsValid t) (key : E) (n i : ℕ) (lt : i < t.table_size)
    (live : 128 ≤ t.control i) (held : key_equal t i key n ≡ true)
    (room : t.cursor + t.table_size < 2 ^ 64) where
  abbrev sought : Element E
  sought = record { ptr = key; key_size = n }

  key_equal-erase : (j : ℕ) (k : E) (m : ℕ) → key_equal (erase t i) j k m ≡ key_equal t j k m
  unfolding key_equal
  key_equal-erase j k m = refl

  -- Whoever is found under the erased key stood in the erased cell.
  erase_same :
      (k : E) (m : ℕ)
      → same_key t.opts key n k m ≡ true
      → (j : ℕ) → j < t.table_size
      → 128 ≤ (erase t i).control j
      → key_equal (erase t i) j k m ≡ false
  erase_same k m same j l live' = elim (Bool-cases (key_equal t j k m)) [
    | inr different ↦ key_equal-erase j k m ∙ different
    | inl found ↦
        let p = valid.placed j l (ground arith) in
        let held' = key_equal-new t valid sought j p.element k m p.stored found same in
        let e : i ≡ j = valid.distinct i j lt l live (ground arith) key n held held' in
        absurd (ground arith)
  ]

  hits-erase :
      (k : E) (m : ℕ)
      → same_key t.opts key n k m ≡ false
      → (j : ℕ) → j < t.table_size
      → hits (erase t i) j k m ≡ hits t j k m
  hits-erase k m other j l = elim (Bool-cases (i == j)) [
    | inr e ↦ ground (arith, key_equal-erase j k m)
    | inl e ↦
        let here : i ≡ j = ground arith in
        elim (Bool-cases (key_equal t i k m)) [
          | inl found ↦
              let same = same_of_held t valid sought i lt live held k m found in
              absurd (ground arith)
          | inr different ↦
              let different' = rw here at different in ground (arith, key_equal-erase j k m)
        ]
  ]

  -- Erasing the cell of a key unbinds the key and leaves every other key alone.
  pub view-erase :
      (k : E) (m : ℕ)
      → view (erase t i) k m ≡ (if same_key t.opts key n k m then none else view t k m)
  unfolding view
  view-erase k m = elim (Bool-cases (same_key t.opts key n k m)) [
    | inl same ↦ rw same (scan_miss (erase t i) t.table_size k m (erase_same k m same))
    | inr other ↦
        rw other (scan_congr t (erase t i) k m t.table_size (hits-erase k m other) (λ j l h. refl))
  ]
