-- ===== src/Table/Iterate.antt =====
-- `clod_table_iter` walks over the occupied cells in a rotated order.
use libclod.Prelude.{
  ℕ, zero, suc, ◌+◌, ◌-◌, ◌%◌, ◌≤◌, ◌<◌, ◌≡◌, inl, inr, refl, sym, ◌∙◌, ap, Bool, true, false, some,
  leb, ◌==◌, count, count_congr, count_rotate, rotate_cases, u64_small, Bool-cases, arith,
}
use native.Mathlib.Nat.{add-mod-mod}
use libclod.Table.Types.{Element, Table, ctl_is_occupied}
use libclod.Table.Ops.{Iter, iter_init, iter_index, iter_loop, iter}
use libclod.Table.Valid.{IsValid}
use libclod.Prelude.Bits.{bit_and_high}

module _ {E : Type 0} (t : Table E) (v : IsValid t) where
  pub iter_index-lt : 0 < t.table_size → (i : ℕ) → iter_index t i < t.table_size
  unfolding iter_index
  iter_index-lt h i = omega arith

  iter_index_lem :
      (i : ℕ) → i < t.table_size → iter_index t i ≡ (i + t.cursor % t.table_size) % t.table_size
  unfolding iter_index
  iter_index_lem i h =
      rw (u64_small (i + t.cursor) (omega (arith, v.cursor_fits)))
        (sym (add-mod-mod i t.cursor t.table_size))

  cursor-lt : (i : ℕ) → i < t.table_size → t.cursor % t.table_size < t.table_size
  cursor-lt i h = omega arith

  -- The rotated order meets every cell once.
  pub iter_index_onto :
      (j : ℕ) → j < t.table_size → (i : ℕ) × (i < t.table_size) × (iter_index t i ≡ j)
  iter_index_onto j l =
      let c = t.cursor % t.table_size in
      let hc = cursor-lt j l in
      elim (Bool-cases (leb c j)) [
        | inl le ↦
            let h : j - c < t.table_size = ground arith in
            let cases = rotate_cases (j - c) c t.table_size h hc in
            (j - c, h, iter_index_lem _ h ∙ ground arith)
        | inr gt ↦
            let h : j + t.table_size - c < t.table_size = ground arith in
            let cases = rotate_cases (j + t.table_size - c) c t.table_size h hc in
            (j + t.table_size - c, h, iter_index_lem _ h ∙ ground arith)
      ]

  pub iter_index_injective :
      (i k : ℕ) → i < t.table_size → k < t.table_size → iter_index t i ≡ iter_index t k → i ≡ k
  iter_index_injective i k li lk e = ground (
    arith,
    iter_index_lem i li,
    iter_index_lem k lk,
    rotate_cases i (t.cursor % t.table_size) t.table_size li (cursor-lt i li),
    rotate_cases k (t.cursor % t.table_size) t.table_size lk (cursor-lt i li),
  )

  abbrev pub live_at : ℕ → Bool
  live_at i = leb 128 (t.control (iter_index t i))

  -- The rotated order meets as many occupied cells as there are elements.
  pub count_live : count live_at t.table_size ≡ t.elem_count
  unfolding count
  count_live = elim (Bool-cases (t.table_size == 0)) [
    | inl e ↦ let empty : t.table_size ≡ 0 = ground arith in rw empty (sym (rw empty at v.elems))
    | inr e ↦
        let c = t.cursor % t.table_size in
        let p : ℕ → Bool = λ j. leb 128 (t.control j) in
        count_congr live_at (λ k. p ((k + c) % t.table_size)) t.table_size
          (λ j l. ap p (iter_index_lem j l))
        ∙ count_rotate p t.table_size c (cursor-lt 0 (ground arith))
        ∙ sym v.elems
  ]

  is_occupied_lem :
      0 < t.table_size → (i : ℕ) → ctl_is_occupied (t.control (iter_index t i)) ≡ live_at i
  unfolding ctl_is_occupied
  is_occupied_lem pos i =
      let l = iter_index-lt pos i in bit_and_high _ (ground (arith, v.bytes (iter_index t i) l))

  -- The two outcomes of a step of the iterator at `i`: the end, or the next occupied cell.
  pub data Stepped (i : ℕ) (r : Bool × Iter E) : Type 0 where
    last :
        r ≡ (false, iter_init)
        → ((k : ℕ) → i ≤ k → k < t.table_size → live_at k ≡ false)
        → Stepped i r
    next :
        (k : ℕ) (e : Element E)
        → i ≤ k
        → k < t.table_size
        → live_at k ≡ true
        → ((k' : ℕ) → i ≤ k' → k' < k → live_at k' ≡ false)
        → t.elements (iter_index t k) ≡ some e
        → r ≡ (true, record { element = some e.ptr; key_size = e.key_size; internal = k + 1 })
        → Stepped i r

  Stepped-skip : (i : ℕ) (r : Bool × Iter E) → live_at i ≡ false → Stepped (i + 1) r → Stepped i r
  Stepped-skip i r dead (last e none_left) = last e λ k le l. elim (Bool-cases (k == i)) [
    | inl here ↦ let same : k ≡ i = ground arith in rw same dead
    | inr there ↦ none_left k (ground arith) l
  ]
  Stepped-skip i r dead (next k e le l live between stored eq) =
      next k e (omega arith) l live
        (λ k' le' l'. elim (Bool-cases (k' == i)) [
          | inl here ↦ let same : k' ≡ i = ground arith in rw same dead
          | inr there ↦ between k' (ground arith) l'
        ])
        stored eq

  iter_loop-Stepped : (left i : ℕ) → left + i ≡ t.table_size → Stepped i (iter_loop t left i)
  unfolding iter_loop
  iter_loop-Stepped zero i e = last refl (λ k le l. absurd (omega arith))
  iter_loop-Stepped (suc left) i e =
      let pos : 0 < t.table_size = omega arith in
      elim (Bool-cases (live_at i)) [
        | inl live ↦
            let p = v.placed (iter_index t i) (iter_index-lt pos i) (ground arith) in
            next i p.element (omega arith) (omega arith) live (λ k' le l. absurd (omega arith))
              p.stored (rw (is_occupied_lem pos i, live, p.stored))
        | inr dead ↦
            Stepped-skip i _ dead
              (rw (is_occupied_lem pos i, dead) (iter_loop-Stepped left (i + 1) (omega arith)))
      ]

  pub iter-Stepped : (it : Iter E) → it.internal ≤ t.table_size → Stepped it.internal (iter t it)
  unfolding iter
  iter-Stepped it h = iter_loop-Stepped (t.table_size - it.internal) it.internal (omega arith)
