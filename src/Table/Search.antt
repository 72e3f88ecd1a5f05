-- ===== src/Table/Search.antt =====
-- Probing in a well-formed table finds what a look at every cell finds.

use libclod.Prelude.{
  ℕ, zero, suc, ◌%◌, ◌^◌, ◌≤◌, ◌<◌, ◌≡◌, inl, inr, refl, sym, ◌∙◌, ap, true, false, ◌&&◌, none,
  some, leb, ◌==◌, Bool-cases, arith,
}
use mathlib.Core.Path.{subst}
use libclod.Prelude.Bits.{bit_or_high}
use libclod.Table.Types.{Element, Table, ctl_occupied}
use libclod.Table.Probe.{Position, Probe, get_position, key_equal, slot, probe}
use libclod.Table.Ops.{get}
use libclod.Table.Valid.{IsKeyed, IsReached, IsPlaced, IsValid, pointer, same_key, scan, view}
use libclod.Table.Keys.{same_key_parts}
use libclod.Table.ProbeLaws.{Available, Probed, found, missing, probe-Probed}

pub ctl_occupied_bounds : (h : ℕ) → (128 ≤ ctl_occupied h) × (ctl_occupied h < 256)
unfolding ctl_occupied
ctl_occupied_bounds h = bit_or_high (h % 2 ^ 8) (omega arith)

module _ {E : Type 0} (t : Table E) where
  pub key_equal_intro :
      (j : ℕ) (e : Element E) (key : E) (n : ℕ)
      → t.elements j ≡ some e
      → key_equal t j key n ≡ same_key t.opts e.ptr e.key_size key n
  unfolding key_equal
  key_equal_intro j e key n stored = rw (stored, key_equal) (ground arith)

  -- What it means that the cell `j` holds the key.
  pub key_equal_parts :
      (j : ℕ) (e : Element E) (key : E) (n : ℕ)
      → t.elements j ≡ some e
      → key_equal t j key n ≡ true
      → (e.key_size ≡ n) × (t.opts.cmp_func e.ptr key n ≡ true)
  key_equal_parts j e key n stored h =
      same_key_parts t.opts e.ptr key e.key_size n (sym (key_equal_intro j e key n stored) ∙ h)

  pub get_position_congr :
      IsKeyed t.opts
      → (a b : E) (n : ℕ) → t.opts.cmp_func a b n ≡ true
      → get_position t a n ≡ get_position t b n
  unfolding get_position
  get_position_congr keyed a b n same = rw (keyed.hash-cmp t.address a b n same)

  -- A placed element is reached from the position of every key that it equals.
  pub IsReached-by_key :
      IsKeyed t.opts
      → (j : ℕ) (key : E) (n : ℕ) → (p : IsPlaced t j) → key_equal t j key n ≡ true
      → IsReached t (get_position t key n) j
  IsReached-by_key keyed j key n p h =
      let (size, cmp) = key_equal_parts j p.element key n p.stored h in
      let e : get_position t p.element.ptr p.element.key_size ≡ get_position t key n =
        rw size (get_position_congr keyed p.element.ptr key n cmp) in
      subst (λ q. IsReached t q j) e p.reached

  pub get_position_ctl :
      (key : E) (n : ℕ) → (128 ≤ (get_position t key n).ctl) × ((get_position t key n).ctl < 256)
  unfolding get_position
  get_position_ctl key n = ctl_occupied_bounds _

  pub slot-lt : 0 < t.table_size → (pos : Position) (i : ℕ) → slot t pos i < t.table_size
  unfolding slot
  slot-lt h pos i = omega arith

  -- The two outcomes of a search for a key in a well-formed table.
  pub data Search (key : E) (n : ℕ) (r : Probe) : Type 0 where
    hit :
        (j : ℕ)
        → j < t.table_size
        → r.existing ≡ some j
        → 128 ≤ t.control j
        → key_equal t j key n ≡ true
        → Search key n r
    miss :
        r.existing ≡ none
        → ((j : ℕ) → j < t.table_size → 128 ≤ t.control j → key_equal t j key n ≡ false)
        → Available t (get_position t key n) key n r.available
        → Search key n r

  Search-of-Probed :
      IsValid t
      → 0 < t.table_size
      → (key : E) (n : ℕ) (r : Probe) → Probed t (get_position t key n) key n r
      → Search key n r
  Search-of-Probed v pos key n r (found i l e c m) =
      hit (slot t (get_position t key n) i) (slot-lt pos _ i) e (rw c (get_position_ctl key n).0) m
  Search-of-Probed v pos key n r (missing e none_there a) =
      miss e
        (λ j l live. elim (Bool-cases (key_equal t j key n)) [
          | inr different ↦ different
          | inl same ↦
              let p = v.placed j l live in
              let r = IsReached-by_key v.keyed j key n p same in
              let different = none_there r.distance r.near r.path (ap t.control r.here ∙ r.ctl) in
              rw r.here at different
        ])
        a

  pub probe-Search :
      IsValid t
      → 0 < t.table_size
      → (key : E) (n : ℕ) → Search key n (probe t (get_position t key n) key n)
  probe-Search v pos key n =
      Search-of-Probed v pos key n _ (probe-Probed t _ key n (get_position_ctl key n).0)

  earlier :
      (m j : ℕ) (key : E) (n : ℕ)
      → leb 128 (t.control m) && key_equal t m key n ≡ false
      → j < suc m
      → 128 ≤ t.control j
      → key_equal t j key n ≡ true
      → j < m
  earlier m j key n there lt live same = elim (Bool-cases (j == m)) [
    | inr e ↦ ground arith
    | inl e ↦
        let here : j ≡ m = ground arith in
        let live' = rw here at live in let same' = rw here at same in absurd (ground arith)
  ]

  -- A scan finds the one cell with the key, wherever it is.
  pub scan_hit :
      IsValid t
      → (m j : ℕ) (key : E) (n : ℕ) → m ≤ t.table_size
      → j < m
      → 128 ≤ t.control j
      → key_equal t j key n ≡ true
      → scan t key n m ≡ pointer (t.elements j)
  unfolding scan
  scan_hit v zero j key n le lt live same = absurd (omega arith)
  scan_hit v (suc m) j key n le lt live same =
      elim (Bool-cases (leb 128 (t.control m) && key_equal t m key n)) [
        | inl here ↦
            let e : m ≡ j =
              v.distinct m j (omega arith) (omega arith) (ground arith) live key n (ground arith)
                same in
            rw here (ap (λ i. pointer (t.elements i)) e)
        | inr there ↦
            rw there
              (scan_hit v m j key n (omega arith) (earlier m j key n there lt live same) live same)
      ]

  pub scan_miss :
      (m : ℕ) (key : E) (n : ℕ)
      → ((j : ℕ) → j < m → 128 ≤ t.control j → key_equal t j key n ≡ false)
      → scan t key n m ≡ none
  unfolding scan
  scan_miss zero key n h = refl
  scan_miss (suc m) key n h =
      let rest = scan_miss m key n (λ j l. h j (omega arith)) in ground (arith, h m)

  -- `clod_table_get` reads the abstract map: it returns the element with the key, wherever in the
  -- table it is, and null exactly if there is none.
  pub get-view : IsValid t → (key : E) (n : ℕ) → get t key n ≡ view t key n
  unfolding get view
  get-view v key n = elim (Bool-cases (t.table_size == 0)) [
    | inl z ↦ rw z (sym (scan_miss t.table_size key n (λ j l. absurd (ground arith))))
    | inr pos ↦ elim (probe-Search v (ground arith) key n) [
      | hit j l e live same ↦
          rw (pos, e) (sym (scan_hit v t.table_size j key n (omega arith) l live same))
      | miss e absent a ↦ rw (pos, e) (sym (scan_miss t.table_size key n absent))
    ]
  ]
