-- ===== src/Region/Filename/Length.antt =====
-- That the names that `filename_make` of src/region/filename.c makes have room.
use libclod.Prelude.{
  ℕ, zero, suc, ◌+◌, ◌-◌, ◌*◌, ◌≤◌, ◌≡◌, refl, arith, true, Bool-cases, leb, ◌==◌, ◌&&◌, ◌||◌, some,
  List, [], ◌∷◌, ◌++◌, ℤ, length, length-append, inl, inr,
}
use libclod.Region.Filename

copy_loop_le :
    (left : ℕ) (dst : ℕ → ℕ) (dst_max d : ℕ) (src : ℕ → ℕ) (s delim i : ℕ)
    → (Filename.copy_loop left dst dst_max d src s delim i).1 ≤ i + left
unfolding Filename.copy_loop
copy_loop_le zero dst dst_max d src s delim i = omega arith
copy_loop_le (suc left) dst dst_max d src s delim i =
    elim (Bool-cases (src (i + s) == 0 || src (i + s) == delim)) [
      | inl ends ↦ rw ends (omega arith)
      | inr on ↦ rw on (omega (arith, copy_loop_le left _ dst_max d src s delim (suc i)))
    ]

-- The offset behind a text is at most as far on as the text is long.
str_copy_le :
    (dst : ℕ → ℕ) (dst_max d : ℕ) (src : ℕ → ℕ) (src_max s delim : ℕ)
    → (Filename.str_copy dst dst_max d src src_max s delim).1 ≤ d + (src_max - s)
unfolding Filename.str_copy
str_copy_le dst dst_max d src src_max s delim =
    omega (arith, copy_loop_le (src_max - s) dst dst_max d src s delim 0)

module _ (print : ℤ → List ℕ) (short : (z : ℤ) → length (print z) ≤ 20) where
  make_loop_le :
      (at : List ℤ) (filename : ℕ → ℕ) (offset : ℕ)
      → (Filename.make_loop print at filename offset).1 ≤ offset + 21 * length at
  unfolding Filename.make_loop
  make_loop_le [] filename offset = omega arith
  make_loop_le (z ∷ at) filename offset =
      let more = length-append (print z) (46 ∷ []) in
      omega (arith, more, short z, make_loop_le at _ (offset + length (print z ++ 46 ∷ [])))

  -- If the text of a coordinate takes at most 20 characters, the name of a region file with at most 10
  -- coordinates has room in `REGION_FILENAME_MAX` characters: no assertion fails.
  pub filename_make-fits :
      (prefix extension : ℕ → ℕ) (at : List ℤ)
      → length at ≤ 10
      → (name : ℕ → ℕ) × (len : ℕ) × (Filename.filename_make print prefix extension at
          ≡ some (name, len))
        × (len ≤ Filename.region_filename_max)
  unfolding Filename.filename_make
  filename_make-fits prefix extension at few =
      let first = Filename.str_copy (λ a. 0) 255 0 prefix 30 0 46 in
      let second = Filename.str_copy first.0 255 first.1 Filename.dot 1 0 0 in
      let third = Filename.make_loop print at second.0 second.1 in
      let fourth = Filename.str_copy third.0 255 third.1 extension 14 0 0 in
      let h1 = str_copy_le (λ a. 0) 255 0 prefix 30 0 46 in
      let h2 = str_copy_le first.0 255 first.1 Filename.dot 1 0 0 in
      let h3 = make_loop_le at second.0 second.1 in
      let h4 = str_copy_le third.0 255 third.1 extension 14 0 0 in
      let le : fourth.1 ≤ 255 = omega (arith, h1, h2, h3, h4) in
      let fits : leb (length at) 10 && leb fourth.1 255 ≡ true = ground arith in
      (fourth.0, fourth.1, rw fits refl, le)
