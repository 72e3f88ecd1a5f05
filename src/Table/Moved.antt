-- ===== src/Table/Moved.antt =====
-- What a new table holds when `rebuild` has moved a part of the elements into it.
use libclod.Prelude.{
  ℕ, zero, suc, ◌+◌, ◌≤◌, ◌<◌, ◌≡◌, inl, inr, refl, sym, ◌∙◌, ap, true, false, ◌&&◌, Option, none,
  some, if◌then◌else◌, ◌==◌, count, Bool-cases, arith,
}
use native.Mathlib.Nat.{add-zero, add-suc}
use native.Mathlib.Numerals.{add-one}
use libclod.Table.Types.{Element, Table}
use libclod.Table.Probe.{key_equal}
use libclod.Table.Ops.{iter_index}
use libclod.Table.Valid.{IsValid, pointer, same_key, view}
use libclod.Table.Keys.{same_key_refl}
use libclod.Table.Search.{key_equal_intro, probe-Search, hit, miss}
use libclod.Table.Insert.{Inserted, view_hit, view_miss}
use libclod.Table.Iterate.{iter_index-lt, iter_index_onto, iter_index_injective, live_at}

module _ {E : Type 0} (t : Table E) (v : IsValid t) where
  -- A scan over the cells that the iterator has passed before `i`.
  pub passed : E → ℕ → ℕ → Option E
  passed k m zero = none
  passed k m (suc i) =
      if live_at t v i && key_equal t (iter_index t i) k m
      then pointer (t.elements (iter_index t i))
      else passed k m i

  pub passed_zero : (k : E) (m : ℕ) → passed k m 0 ≡ none
  unfolding passed
  passed_zero k m = refl

  passed_miss :
      (i : ℕ) (k : E) (m : ℕ)
      → ((j : ℕ) → j < i → live_at t v j ≡ true → key_equal t (iter_index t j) k m ≡ false)
      → passed k m i ≡ none
  unfolding passed
  passed_miss zero k m h = refl
  passed_miss (suc i) k m h =
      let rest = passed_miss i k m (λ j l. h j (omega arith)) in ground (arith, h i)

  -- Nothing changes over cells that are not occupied.
  passed_skip :
      (i n : ℕ) (k : E) (m : ℕ)
      → ((j : ℕ) → i ≤ j → j < i + n → live_at t v j ≡ false)
      → passed k m (i + n) ≡ passed k m i
  unfolding passed
  passed_skip i zero k m h = rw add-zero
  passed_skip i (suc n) k m h =
      let rest = passed_skip i n k m (λ j le l. h j le (omega arith)) in
      rw add-suc (ground (arith, h (i + n), rest))

  -- The cell with the key is found once it is passed.
  passed_hit :
      (n i : ℕ) (k : E) (m : ℕ)
      → n ≤ t.table_size
      → i < n
      → live_at t v i ≡ true
      → key_equal t (iter_index t i) k m ≡ true
      → passed k m n ≡ pointer (t.elements (iter_index t i))
  unfolding passed
  passed_hit zero i k m le lt live same = absurd (omega arith)
  passed_hit (suc n) i k m le lt live same =
      let pos : 0 < t.table_size = omega arith in
      elim (Bool-cases (live_at t v n && key_equal t (iter_index t n) k m)) [
        | inl here ↦
            let e : iter_index t n ≡ iter_index t i =
              v.distinct (iter_index t n) (iter_index t i) (iter_index-lt t v pos n)
                (iter_index-lt t v pos i) (ground arith) (ground arith) k m (ground arith) same in
            rw here (ap (λ j. pointer (t.elements j)) e)
        | inr there ↦ elim (Bool-cases (i == n)) [
          | inl e ↦
              let at : i ≡ n = ground arith in
              let live' = rw at at live in let same' = rw at at same in absurd (ground arith)
          | inr e ↦ rw there (passed_hit n i k m (omega arith) (ground arith) live same)
        ]
      ]

  -- All cells passed, the scan is the abstract map.
  pub passed_all : (k : E) (m : ℕ) → passed k m t.table_size ≡ view t k m
  passed_all k m = elim (Bool-cases (t.table_size == 0)) [
    | inl empty ↦
        let z : t.table_size ≡ 0 = ground arith in
        passed_miss t.table_size k m (λ j l. absurd (omega arith))
        ∙ sym (view_miss t k m (λ j l. absurd (omega arith)))
    | inr filled ↦
        let pos : 0 < t.table_size = ground arith in
        elim (probe-Search t v pos k m) [
          | hit j l found live same ↦
              let (i, li, e) = iter_index_onto t v j l in
              let live' : 128 ≤ t.control (iter_index t i) = rw e live in
              passed_hit t.table_size i k m (omega arith) li (ground arith) (rw e same)
              ∙ ap (λ j. pointer (t.elements j)) e
              ∙ sym (view_hit t v j k m l live same)
          | miss missed absent a ↦
              passed_miss t.table_size k m
                (λ j l live. absent (iter_index t j) (iter_index-lt t v pos j) (ground arith))
              ∙ sym (view_miss t k m absent)
        ]
  ]

  count_skip :
      (i n : ℕ)
      → ((j : ℕ) → i ≤ j → j < i + n → live_at t v j ≡ false)
      → count (live_at t v) (i + n) ≡ count (live_at t v) i
  unfolding count
  count_skip i zero h = rw add-zero
  count_skip i (suc n) h =
      let rest = count_skip i n (λ j le l. h j le (omega arith)) in
      rw add-suc (ground (arith, h (i + n), rest))

  pub count_mono : (i n : ℕ) → count (live_at t v) i ≤ count (live_at t v) (i + n)
  unfolding count
  count_mono i zero = rw add-zero (omega arith)
  count_mono i (suc n) = rw add-suc (omega (arith, count_mono i n))

  -- The new table when the iterator stands at `i`.
  pub record Moved (size i : ℕ) (new : Table E) : Type 0 where
    pub valid : IsValid new
    pub fresh : new.deleted_count ≡ 0
    pub sized : new.table_size ≡ size
    pub same_opts : new.opts ≡ t.opts
    pub start : new.cursor ≡ 0
    pub counted : new.elem_count ≡ count (live_at t v) i
    pub reads : (k : E) (m : ℕ) → view new k m ≡ passed k m i

  pub Moved-skip :
      (size i n : ℕ) (new : Table E)
      → ((j : ℕ) → i ≤ j → j < i + n → live_at t v j ≡ false)
      → Moved size i new
      → Moved size (i + n) new
  Moved-skip size i n new dead mv = record {
    valid = mv.valid;
    fresh = mv.fresh;
    sized = mv.sized;
    same_opts = mv.same_opts;
    start = mv.start;
    counted = mv.counted ∙ sym (count_skip i n dead);
    reads = λ k m. mv.reads k m ∙ sym (passed_skip i n k m dead);
  }

  -- The element at `i` is not among those passed before.
  pub passed_new :
      (i : ℕ) (e : Element E)
      → i < t.table_size
      → live_at t v i ≡ true
      → t.elements (iter_index t i) ≡ some e
      → passed e.ptr e.key_size i ≡ none
  passed_new i e l live stored = passed_miss i e.ptr e.key_size λ j lj live'.
      elim (Bool-cases (key_equal t (iter_index t j) e.ptr e.key_size)) [
        | inr different ↦ different
        | inl same ↦
            let pos : 0 < t.table_size = omega arith in
            let self : key_equal t (iter_index t i) e.ptr e.key_size ≡ true =
              key_equal_intro t (iter_index t i) e e.ptr e.key_size stored
              ∙ same_key_refl t.opts v.keyed e.ptr e.key_size in
            let eq =
              v.distinct (iter_index t j) (iter_index t i) (iter_index-lt t v pos j)
                (iter_index-lt t v pos i) (ground arith) (ground arith) e.ptr e.key_size same
                self in
            let again = iter_index_injective t v j i (omega arith) l eq in absurd (omega arith)
      ]

  pub Moved-step :
      (size i : ℕ) (e : Element E) (new new' : Table E)
      → i < t.table_size
      → live_at t v i ≡ true
      → t.elements (iter_index t i) ≡ some e
      → Moved size i new
      → Inserted false new e.ptr e.key_size (new', none)
      → Moved size (i + 1) new'
  unfolding count passed
  Moved-step size i e new new' l live stored mv ins = record {
    valid = ins.valid;
    fresh = omega (arith, mv.fresh, ins.removed);
    sized = ins.same_size ∙ mv.sized;
    same_opts = ins.same_opts ∙ mv.same_opts;
    start = ins.same_cursor ∙ mv.start;
    counted =
        let seen = mv.reads e.ptr e.key_size ∙ passed_new i e l live stored in
        let c = rw seen at ins.counted in rw add-one (ground (arith, c, mv.counted));
    reads = λ k m.
        let seen = mv.reads e.ptr e.key_size ∙ passed_new i e l live stored in
        let keys = ap (λ o. same_key o e.ptr e.key_size k m) mv.same_opts in
        let key = key_equal_intro t (iter_index t i) e k m stored in
        ins.reads k m ∙ rw (seen, add-one) (ground (arith, keys, key, mv.reads k m));
  }
