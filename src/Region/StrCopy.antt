-- ===== src/Region/StrCopy.antt =====
-- What `str_copy` of src/region/filename.c copies.
use libclod.Prelude.{
  ℕ, zero, suc, ◌+◌, ◌-◌, ◌≤◌, ◌<◌, ◌≡◌, ◌≢◌, refl, ap, ◌∙◌, ◌⊎◌, inl, inr, true, false, Bool-cases,
  ◌==◌, ◌||◌, ◌&&◌, ltb, leb, if◌then◌else◌, set, arith,
}
use libclod.Region.Filename.{copy_loop, str_copy}

module _ (dst_max d s delim : ℕ) (src : ℕ → ℕ) where
  -- The text from `i` on ends at `n`: at a zero, at the delimiter or at the end of the source.
  unfoldable pub EndsAt : ℕ → ℕ → ℕ → Type 0
  EndsAt i last n =
      (i ≤ n)
      × (n ≤ last)
      × ((j : ℕ) → i ≤ j → j < n → (src (j + s) ≢ 0) × (src (j + s) ≢ delim))
      × ((n ≡ last) ⊎ ((src (n + s) ≡ 0) ⊎ (src (n + s) ≡ delim)))

  abbrev pub copied : (ℕ → ℕ) → ℕ → ℕ → ℕ → ℕ
  copied dst i n a =
      if leb (i + d) a && (ltb a (n + d) && ltb a dst_max) then src (a - d + s) else dst a

  stop_reason :
      (i : ℕ)
      → (src (i + s) == 0 || src (i + s) == delim) ≡ true
      → (src (i + s) ≡ 0) ⊎ (src (i + s) ≡ delim)
  stop_reason i stops = elim (Bool-cases (src (i + s) == 0)) [
    | inl ends ↦ inl (ground arith)
    | inr more ↦ inr (ground arith)
  ]

  go_on :
      (i n : ℕ)
      → (src (i + s) == 0 || src (i + s) == delim) ≡ false
      → ((j : ℕ) → suc i ≤ j → j < n → (src (j + s) ≢ 0) × (src (j + s) ≢ delim))
      → (j : ℕ) → i ≤ j
      → j < n
      → (src (j + s) ≢ 0) × (src (j + s) ≢ delim)
  go_on i n goes kept j low high = elim (Bool-cases (i == j)) [
    | inl same ↦ let is : j ≡ i = ground arith in rw is (ground arith, ground arith)
    | inr other ↦ kept j (ground arith) high
  ]

  -- One byte more at the front.
  copied_step :
      (dst : ℕ → ℕ) (i n a : ℕ)
      → suc i ≤ n
      → copied (if ltb (i + d) dst_max then set dst (i + d) (src (i + s)) else dst) (suc i) n a
        ≡ copied dst i n a
  copied_step dst i n a more = elim (Bool-cases (a == i + d)) [
    | inl here ↦
        let is : a ≡ i + d = ground arith in
        let from : i + d - d + s ≡ i + s = omega arith in
        elim (Bool-cases (ltb (i + d) dst_max)) [
          | inl fits ↦ rw (is, from, fits) (ground arith)
          | inr full ↦ rw (is, from, full) (ground arith)
        ]
    | inr other ↦ elim (Bool-cases (ltb (i + d) dst_max)) [
      | inl fits ↦ rw fits (ground arith)
      | inr full ↦ rw full (ground arith)
    ]
  ]

  copy_loop_lem :
      (left : ℕ) (dst : ℕ → ℕ) (i : ℕ)
      → (n : ℕ) × (EndsAt i (i + left) n)
        × ((copy_loop left dst dst_max d src s delim i).1 ≡ n)
        × ((a : ℕ) → (copy_loop left dst dst_max d src s delim i).0 a ≡ copied dst i n a)
  unfolding copy_loop EndsAt
  copy_loop_lem zero dst i = (
    i,
    (omega arith, omega arith, (λ j low high. absurd (omega arith)), inl (omega arith)),
    refl,
    λ a. ground arith,
  )
  copy_loop_lem (suc left) dst i = elim (Bool-cases (src (i + s) == 0 || src (i + s) == delim)) [
    | inl stops ↦ (
      i,
      (omega arith, omega arith, (λ j low high. absurd (omega arith)), inr (stop_reason i stops)),
      rw stops refl,
      λ a. rw stops (ground arith),
    )
    | inr goes ↦
        let dst' : ℕ → ℕ = if ltb (i + d) dst_max then set dst (i + d) (src (i + s)) else dst in
        let (n, (low, high, kept, reason), end, bytes) = copy_loop_lem left dst' (suc i) in
        let shift : suc i + left ≡ i + suc left = omega arith in
        let reason' = rw shift at reason in
        (
          n,
          (omega arith, omega arith, go_on i n goes kept, reason'),
          rw goes end,
          λ a. rw goes (bytes a ∙ copied_step dst i n a low),
        )
  ]

  -- `str_copy` moves both offsets by the length of the text: up to a zero, the delimiter or the end
  -- of the source. It writes that text, cut at the end of the destination, and nothing else.
  pub str_copy_lem :
      (dst : ℕ → ℕ) (src_max : ℕ)
      → (n : ℕ) × (EndsAt 0 (src_max - s) n)
        × ((str_copy dst dst_max d src src_max s delim).1 ≡ d + n)
        × ((str_copy dst dst_max d src src_max s delim).2 ≡ s + n)
        × ((a : ℕ) → (str_copy dst dst_max d src src_max s delim).0 a ≡ copied dst 0 n a)
  unfolding str_copy
  str_copy_lem dst src_max =
      let (n, ends, length, bytes) = copy_loop_lem (src_max - s) dst 0 in
      let span : 0 + (src_max - s) ≡ src_max - s = omega arith in
      (n, rw span at ends, ap (λ k. d + k) length, ap (λ k. s + k) length, bytes)
