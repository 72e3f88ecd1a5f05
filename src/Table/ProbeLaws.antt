-- ===== src/Table/ProbeLaws.antt =====
-- What `probe` finds.
use libclod.Prelude.{
  ℕ, zero, suc, ◌+◌, ◌≤◌, ◌<◌, ◌≡◌, ◌≢◌, ◌⊎◌, inl, inr, refl, true, false, ◌&&◌, Option, none, some,
  ltb, if◌then◌else◌, ◌==◌, Bool-cases, arith,
}
use libclod.Table.Types.{Table}
use libclod.Table.Probe.{Position, Probe, key_equal, slot, probe_loop, probe}

module _ {E : Type 0} (t : Table E) (pos : Position) (key : E) (n : ℕ) where
  -- The cell that an insertion may take: the first removed or empty one on the path, if any.
  abbrev pub Available : Option ℕ → Type 0
  Available available =
      ((available ≡ none) × ((i : ℕ) → i < t.table_size → t.control (slot t pos i) ≢ 0))
      ⊎ ((i : ℕ) × (i < t.table_size)
          × (available ≡ some (slot t pos i))
          × (t.control (slot t pos i) ≤ 1)
          × ((k : ℕ) → k < i → t.control (slot t pos k) ≢ 0))

  -- The two outcomes of a search.
  pub data Probed (r : Probe) : Type 0 where
    found :
        (i : ℕ)
        → i < t.table_size
        → r.existing ≡ some (slot t pos i)
        → t.control (slot t pos i) ≡ pos.ctl
        → key_equal t (slot t pos i) key n ≡ true
        → Probed r
    missing :
        r.existing ≡ none
        → ((i : ℕ)
            → i < t.table_size
            → ((k : ℕ) → k < i → t.control (slot t pos k) ≢ 0)
            → t.control (slot t pos i) ≡ pos.ctl
            → key_equal t (slot t pos i) key n ≡ false)
        → Available r.available
        → Probed r

  -- The cells before `i` are neither empty nor matches.
  record Passed (i : ℕ) : Type 0 where
    full : (k : ℕ) → k < i → t.control (slot t pos k) ≢ 0
    other :
        (k : ℕ)
        → k < i
        → t.control (slot t pos k) ≡ pos.ctl
        → key_equal t (slot t pos k) key n ≡ false

  -- What the variable `available` holds at `i`.
  abbrev Candidate : ℕ → Option ℕ → Type 0
  Candidate i available =
      (available ≡ none)
      ⊎ ((k : ℕ) × (k < i) × (available ≡ some (slot t pos k)) × (t.control (slot t pos k) ≡ 1))

  Passed-suc :
      (i : ℕ)
      → Passed i
      → t.control (slot t pos i) ≢ 0
      → (t.control (slot t pos i) ≡ pos.ctl → key_equal t (slot t pos i) key n ≡ false)
      → Passed (i + 1)
  Passed-suc i p ne other = record {
    full = λ k h. elim (Bool-cases (k == i)) [
      | inl e ↦ let same : k ≡ i = ground arith in rw same ne
      | inr e ↦ p.full k (ground arith)
    ];
    other = λ k h. elim (Bool-cases (k == i)) [
      | inl e ↦ let same : k ≡ i = ground arith in rw same other
      | inr e ↦ p.other k (ground arith)
    ];
  }

  Candidate-next :
      (i : ℕ) (available : Option ℕ)
      → Candidate i available
      → Candidate (i + 1) (elim available [
        | some a ↦ some a
        | none ↦ if t.control (slot t pos i) == 1 then some (slot t pos i) else none
      ])
  Candidate-next i none c = elim (Bool-cases (t.control (slot t pos i) == 1)) [
    | inl e ↦ rw e (inr (i, omega arith, refl, ground arith))
    | inr e ↦ rw e (inl refl)
  ]
  Candidate-next i (some a) (inl e) = cc
  Candidate-next i (some a) (inr (k, h, e, c)) = inr (k, omega arith, e, c)

  Available-stop :
      (i : ℕ) (available : Option ℕ)
      → i < t.table_size
      → Passed i
      → Candidate i available
      → t.control (slot t pos i) ≡ 0
      → Available (elim available [ some a ↦ some a | none ↦ some (slot t pos i) ])
  Available-stop i none h p c e = inr (i, h, refl, omega arith, p.full)
  Available-stop i (some a) h p (inl x) e = cc
  Available-stop i (some a) h p (inr (k, l, x, c)) e =
      inr (k, omega arith, x, omega arith, λ k' l'. p.full k' (omega arith))

  Available-end :
      (i : ℕ) (available : Option ℕ)
      → i ≡ t.table_size
      → Passed i
      → Candidate i available
      → Available available
  Available-end i available e p (inl x) = inl (x, λ k h. p.full k (omega arith))
  Available-end i available e p (inr (k, l, x, c)) =
      inr (k, omega arith, x, omega arith, λ k' l'. p.full k' (omega arith))

  -- No match is reached behind an empty cell.
  unmatched :
      (i k : ℕ)
      → Passed i
      → t.control (slot t pos i) ≡ 0
      → (i < k → t.control (slot t pos i) ≢ 0)
      → t.control (slot t pos k) ≡ pos.ctl
      → 128 ≤ pos.ctl
      → key_equal t (slot t pos k) key n ≡ false
  unmatched i k p e full q occupied = elim (Bool-cases (ltb k i)) [
    | inl before ↦ p.other k (ground arith) q
    | inr after ↦ elim (Bool-cases (k == i)) [
      | inl here ↦
          let same : k ≡ i = ground arith in
          let c : t.control (slot t pos k) ≡ 0 = rw same e in absurd (omega arith)
      | inr there ↦ absurd (full (ground arith) e)
    ]
  ]

  probe_loop-Probed :
      128 ≤ pos.ctl
      → (left i : ℕ) (available : Option ℕ) → left + i ≡ t.table_size
      → Passed i
      → Candidate i available
      → Probed (probe_loop t pos key n left i available)
  unfolding probe_loop
  probe_loop-Probed occupied zero i available e p c =
      missing refl (λ k h full. p.other k (omega arith))
        (Available-end i available (omega arith) p c)
  probe_loop-Probed occupied (suc left) i available e p c =
      elim (Bool-cases (t.control (slot t pos i) == 0)) [
        | inl empty ↦
            let zero_here : t.control (slot t pos i) ≡ 0 = ground arith in
            rw empty (
              missing refl (λ k h full q. unmatched i k p zero_here (full i) q occupied)
                (Available-stop i available (omega arith) p c zero_here))
        | inr nonempty ↦
            elim (Bool-cases
              (t.control (slot t pos i) == pos.ctl && key_equal t (slot t pos i) key n)) [
                | inl match ↦
                    rw (nonempty, match) (found i (omega arith) refl (ground arith) (ground arith))
                | inr different ↦
                    rw (nonempty, different)
                      (probe_loop-Probed occupied left (i + 1) _ (omega arith)
                        (Passed-suc i p (ground arith) (λ q. ground arith))
                        (Candidate-next i available c))
              ]
      ]

  -- `probe` finds the key on the path that its hash starts, up to the first empty cell; where it
  -- does not, `available` is the first cell on the path that is not occupied.
  pub probe-Probed : 128 ≤ pos.ctl → Probed (probe t pos key n)
  unfolding probe
  probe-Probed occupied =
      probe_loop-Probed occupied t.table_size 0 none (omega arith)
        (record { full = λ k h. absurd (omega arith); other = λ k h. absurd (omega arith) })
        (inl refl)
