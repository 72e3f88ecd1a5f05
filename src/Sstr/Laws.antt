-- ===== src/Sstr/Laws.antt =====
-- What the searches of include/clod/sstr.h return.
use native.Mathlib.Nat.{add-zero}
use libclod.Prelude.{
  ℕ, zero, suc, ◌+◌, ◌-◌, ◌≤◌, ◌<◌, ◌≡◌, refl, ap, ◌⊎◌, inl, inr, Bool, true, false, Bool-cases,
  some, ◌==◌, ltb, count, arith, pos,
}
use libclod.Sstr.Ops.{
  Sstr, sstr_null, memory_equal, contains_loop, sstr_contains, forward_loop, sstr_find,
}

module _ (m : ℕ → ℕ) (ptr elem elem_size : ℕ) where
  -- The first of the offsets from `i` to `n` at which the bytes are those of `elem`, if any is.
  unfoldable pub FirstMatch : ℕ → ℕ → Sstr → Type 0
  FirstMatch i n r =
      ((r ≡ sstr_null)
        × ((j : ℕ) → i ≤ j → j < n → memory_equal m (ptr + j) elem elem_size ≡ false))
      ⊎ ((k : ℕ) × (i ≤ k)
          × (k < n)
          × (memory_equal m (ptr + k) elem elem_size ≡ true)
          × ((j : ℕ) → i ≤ j → j < k → memory_equal m (ptr + j) elem elem_size ≡ false)
          × (r ≡ record { ptr = some (ptr + k); size = elem_size }))

  miss_first :
      (i n : ℕ)
      → memory_equal m (ptr + i) elem elem_size ≡ false
      → ((j : ℕ) → suc i ≤ j → j < n → memory_equal m (ptr + j) elem elem_size ≡ false)
      → (j : ℕ) → i ≤ j
      → j < n
      → memory_equal m (ptr + j) elem elem_size ≡ false
  miss_first i n differ misses j low high = elim (Bool-cases (i == j)) [
    | inl same ↦ let is : j ≡ i = ground arith in rw is differ
    | inr other ↦ misses j (ground arith) high
  ]

  contains_loop-FirstMatch :
      (left i : ℕ) → FirstMatch i (i + left) (contains_loop m ptr elem elem_size left i)
  unfolding contains_loop FirstMatch
  contains_loop-FirstMatch zero i = inl (refl, λ j low high. absurd (omega arith))
  contains_loop-FirstMatch (suc left) i =
      elim (Bool-cases (memory_equal m (ptr + i) elem elem_size)) [
        | inl here ↦
            inr (
              i,
              omega arith,
              omega arith,
              here,
              (λ j low high. absurd (omega arith)),
              rw here refl,
            )
        | inr differ ↦ elim (contains_loop-FirstMatch left (suc i)) [
          | inl (null, misses) ↦ inl (
            rw differ null,
            miss_first i (i + suc left) differ (λ j low high. misses j low (omega arith)),
          )
          | inr (k, low, high, here, misses, found) ↦
              inr (k, omega arith, omega arith, here, miss_first i k differ misses, rw differ found)
        ]
      ]

  -- For an `elem` that is not empty and not longer than the string, `clod_sstr_contains` returns
  -- the first place where `elem` stands, if it stands at an offset below the difference of the
  -- sizes, and null otherwise.
  pub sstr_contains-FirstMatch :
      (size : ℕ)
      → 1 ≤ elem_size
      → elem_size ≤ size
      → FirstMatch 0 (size - elem_size) (sstr_contains m ptr size elem elem_size)
  unfolding sstr_contains
  sstr_contains-FirstMatch size some_bytes fits =
      let longer : ltb size elem_size ≡ false = ground arith in
      let bytes : (elem_size == 0) ≡ false = ground arith in
      let span : 0 + (size - elem_size) ≡ size - elem_size = omega arith in
      let first = contains_loop-FirstMatch (size - elem_size) 0 in
      rw (longer, bytes) (rw span at first)

module _ (m : ℕ → ℕ) (ptr elem : ℕ) where
  abbrev occurs : ℕ → Bool
  occurs j = m (ptr + j) == elem

  abbrev rest_from : ℕ → ℕ → Sstr
  rest_from k n = record { ptr = some (ptr + k); size = n }

  -- A result is the occurrence before which, from `i` on, there are all but one of `occurrence`,
  -- with the rest of the bytes up to `n`; or null, if up to `n` there are less.
  unfoldable pub NthOccurrence : ℕ → ℕ → ℕ → Sstr → Type 0
  NthOccurrence i n occurrence r =
      ((r ≡ sstr_null) × (count occurs n < occurrence + count occurs i))
      ⊎ ((k : ℕ) × (i ≤ k)
          × (k < n)
          × (m (ptr + k) ≡ elem)
          × (suc (count occurs k) ≡ occurrence + count occurs i)
          × (r ≡ record { ptr = some (ptr + k); size = n - k }))

  -- The same occurrence, seen from one byte before.
  one_before :
      (i n now occurrence : ℕ) (r : Sstr)
      → now + count occurs (suc i) ≡ occurrence + count occurs i
      → NthOccurrence (suc i) n now r
      → NthOccurrence i n occurrence r
  unfolding NthOccurrence
  one_before i n now occurrence r same (inl (null, few)) = inl (null, omega arith)
  one_before i n now occurrence r same (inr (k, low, high, here, nth, found)) =
      inr (k, omega arith, high, here, omega arith, found)

  forward_loop-NthOccurrence :
      (left i occurrence : ℕ)
      → 1 ≤ occurrence
      → NthOccurrence i (i + left) occurrence (forward_loop m ptr elem left i occurrence)
  unfolding forward_loop NthOccurrence count
  forward_loop-NthOccurrence zero i occurrence positive = inl (refl, rw add-zero (omega arith))
  forward_loop-NthOccurrence (suc left) i occurrence positive =
      elim (Bool-cases (m (ptr + i) == elem)) [
        | inl here ↦ elim (Bool-cases (occurrence - 1 == 0)) [
          | inl last ↦
              let size_there : suc left ≡ i + suc left - i = omega arith in
              rw (here, last)
                (inr (
                  i,
                  omega arith,
                  omega arith,
                  ground arith,
                  ground arith,
                  ap (rest_from i) size_there,
                ))
          | inr more ↦
              let shift : suc i + left ≡ i + suc left = omega arith in
              let rest = forward_loop-NthOccurrence left (suc i) (occurrence - 1) (ground arith) in
              rw (here, more)
                (one_before i (i + suc left) (occurrence - 1) occurrence _ (ground arith)
                  (rw shift at rest))
        ]
        | inr other ↦
            let shift : suc i + left ≡ i + suc left = omega arith in
            let keeps : (occurrence == 0) ≡ false = ground arith in
            let rest = forward_loop-NthOccurrence left (suc i) occurrence positive in
            rw (other, keeps)
              (one_before i (i + suc left) occurrence occurrence _ (ground arith)
                (rw shift at rest))
      ]

  -- `clod_sstr_find` with a positive `occurrence` returns the rest of the string from that
  -- occurrence of the char on, and null if there are less.
  pub sstr_find-NthOccurrence :
      (size n : ℕ) → NthOccurrence 0 size (suc n) (sstr_find m ptr size elem (pos (suc n)))
  unfolding sstr_find
  sstr_find-NthOccurrence size n =
      let span : 0 + size ≡ size = omega arith in
      let found = forward_loop-NthOccurrence size 0 (suc n) (omega arith) in rw span at found
