-- ===== src/Region/Cache/Unique.antt =====
-- That the cache of src/region/file_cache.c has at most one open file for a position.
use libclod.Prelude.{
  ℕ, zero, suc, ◌≡◌, ◌⊎◌, refl, ap, sym, ◌∙◌, arith, Bool, true, false, Option, none, some, List,
  [], ◌∷◌, ◌++◌, ℤ, pos, negsuc, inl, inr,
}
use libclod.Region.RegionFile.{RegionFile}
use libclod.Region.Time.{same_int}
use libclod.Region.Cache.{FileCache, same_pos, put_slot}
use libclod.Region.Cache.Lookup.{DeadAt, IsLess, lookup, when_same, when_same-miss}

-- A live slot has a position that no live slot after it has.
unfoldable pub IsUnique : List FileCache → Type 0
IsUnique [] = Unit
IsUnique (fc ∷ fcs) = ((fc.rf ≡ none) ⊎ (lookup fc.pos fcs ≡ none)) × IsUnique fcs

same_int_sym : (a b : ℤ) → same_int a b ≡ same_int b a
same_int_sym (pos a) (pos b) = ground arith
same_int_sym (pos a) (negsuc b) = refl
same_int_sym (negsuc a) (pos b) = refl
same_int_sym (negsuc a) (negsuc b) = ground arith

same_pos_sym : (xs ys : List ℤ) → same_pos xs ys ≡ same_pos ys xs
same_pos_sym [] [] = refl
same_pos_sym [] (y ∷ ys) = refl
same_pos_sym (x ∷ xs) [] = refl
same_pos_sym (x ∷ xs) (y ∷ ys) = rw (same_int_sym x y, same_pos_sym xs ys) refl

same_int_refl : (a : ℤ) → same_int a a ≡ true
same_int_refl (pos a) = ground arith
same_int_refl (negsuc a) = ground arith

pub same_pos_refl : (xs : List ℤ) → same_pos xs xs ≡ true
same_pos_refl [] = refl
same_pos_refl (x ∷ xs) = rw (same_int_refl x, same_pos_refl xs) refl

when_same-none :
    (same : Bool) (rf rest : Option RegionFile)
    → when_same same rf rest ≡ none
    → ((rf ≡ none) ⊎ (same ≡ false)) × (rest ≡ none)
when_same-none same none rest e = (inl refl, e)
when_same-none false (some rf) rest e = (inr refl, e)
when_same-none true (some rf) rest e = absurd (ground (arith, e))

-- A position without an open file is that of no live slot.
lookup-none :
    (q : List ℤ) (a : FileCache) (fcs : List FileCache)
    → lookup q (a ∷ fcs) ≡ none
    → ((a.rf ≡ none) ⊎ (same_pos q a.pos ≡ false)) × (lookup q fcs ≡ none)
unfolding lookup
lookup-none q a fcs e = when_same-none (same_pos q a.pos) a.rf (lookup q fcs) e

lookup-skip :
    (q : List ℤ) (a : FileCache) (fcs : List FileCache)
    → (a.rf ≡ none) ⊎ (same_pos q a.pos ≡ false)
    → lookup q fcs ≡ none
    → lookup q (a ∷ fcs) ≡ none
unfolding lookup
lookup-skip q a fcs miss e = when_same-miss (same_pos q a.pos) a.rf (lookup q fcs) miss ∙ e

lookup-IsLess :
    (q : List ℤ) (fcs out : List FileCache)
    → IsLess fcs out
    → lookup q fcs ≡ none
    → lookup q out ≡ none
lookup-IsLess q [] [] less e = e
lookup-IsLess q [] (b ∷ ys) less e = absurd less
lookup-IsLess q (a ∷ xs) [] less e = absurd less
lookup-IsLess q (a ∷ xs) (b ∷ ys) (same, kept, less) e =
    let (miss, rest) = lookup-none q a xs e in
    lookup-skip q b ys (miss_after kept miss) (lookup-IsLess q xs ys less rest)
  where
    miss_after :
        (b.rf ≡ a.rf) ⊎ (b.rf ≡ none)
        → (a.rf ≡ none) ⊎ (same_pos q a.pos ≡ false)
        → (b.rf ≡ none) ⊎ (same_pos q b.pos ≡ false)
    miss_after (inr dead) miss = inl dead
    miss_after (inl kept) (inl dead) = inl (kept ∙ dead)
    miss_after (inl kept) (inr other) = inr (ap (λ p. same_pos q p) (sym same) ∙ other)

-- Closing files keeps the positions apart.
pub IsLess-IsUnique : (fcs out : List FileCache) → IsLess fcs out → IsUnique fcs → IsUnique out
unfolding IsUnique
IsLess-IsUnique [] [] less unique = tt
IsLess-IsUnique [] (b ∷ ys) less unique = absurd less
IsLess-IsUnique (a ∷ xs) [] less unique = absurd less
IsLess-IsUnique (a ∷ xs) (b ∷ ys) (same, kept, less) (here, there) =
    (here_after kept here, IsLess-IsUnique xs ys less there)
  where
    here_after :
        (b.rf ≡ a.rf) ⊎ (b.rf ≡ none)
        → (a.rf ≡ none) ⊎ (lookup a.pos xs ≡ none)
        → (b.rf ≡ none) ⊎ (lookup b.pos ys ≡ none)
    here_after (inr dead) here = inl dead
    here_after (inl kept) (inl dead) = inl (kept ∙ dead)
    here_after (inl kept) (inr apart) = inr (rw⁻¹ same (lookup-IsLess a.pos xs ys less apart))

module _ (new : FileCache) where
  -- A new slot, for a position without an open file.
  lookup_other_put :
      (q : List ℤ) (fcs : List FileCache) (i : ℕ)
      → same_pos q new.pos ≡ false
      → lookup q fcs ≡ none
      → lookup q (put_slot i new fcs) ≡ none
  unfolding put_slot
  lookup_other_put q [] i other e = e
  lookup_other_put q (c ∷ fcs) zero other e =
      lookup-skip q new fcs (inr other) ((lookup-none q c fcs e).1)
  lookup_other_put q (c ∷ fcs) (suc i) other e =
      let (miss, rest) = lookup-none q c fcs e in
      lookup-skip q c _ miss (lookup_other_put q fcs i other rest)

  pub put_slot-IsUnique :
      (fcs : List FileCache) (i : ℕ)
      → lookup new.pos fcs ≡ none
      → IsUnique fcs
      → IsUnique (put_slot i new fcs)
  unfolding put_slot IsUnique
  put_slot-IsUnique [] i e unique = tt
  put_slot-IsUnique (c ∷ fcs) zero e (here, there) = (inr ((lookup-none new.pos c fcs e).1), there)
  put_slot-IsUnique (c ∷ fcs) (suc i) e (here, there) =
      let (miss, rest) = lookup-none new.pos c fcs e in
      (here_after here miss, put_slot-IsUnique fcs i rest there)
    where
      here_after :
          (c.rf ≡ none) ⊎ (lookup c.pos fcs ≡ none)
          → (c.rf ≡ none) ⊎ (same_pos new.pos c.pos ≡ false)
          → (c.rf ≡ none) ⊎ (lookup c.pos (put_slot i new fcs) ≡ none)
      here_after (inl dead) miss = inl dead
      here_after (inr apart) (inl dead) = inl dead
      here_after (inr apart) (inr other) =
          inr (lookup_other_put c.pos fcs i (same_pos_sym c.pos new.pos ∙ other) apart)

  lookup_other_append :
      (q : List ℤ) (fcs : List FileCache)
      → same_pos q new.pos ≡ false
      → lookup q fcs ≡ none
      → lookup q (fcs ++ new ∷ []) ≡ none
  unfolding lookup
  lookup_other_append q [] other e = lookup-skip q new [] (inr other) refl
  lookup_other_append q (c ∷ fcs) other e =
      let (miss, rest) = lookup-none q c fcs e in
      lookup-skip q c (fcs ++ new ∷ []) miss (lookup_other_append q fcs other rest)

  pub append-IsUnique :
      (fcs : List FileCache) → lookup new.pos fcs ≡ none → IsUnique fcs → IsUnique (fcs ++ new ∷ [])
  unfolding IsUnique lookup
  append-IsUnique [] e unique = (inr refl, tt)
  append-IsUnique (c ∷ fcs) e (here, there) =
      let (miss, rest) = lookup-none new.pos c fcs e in
      (here_after here miss, append-IsUnique fcs rest there)
    where
      here_after :
          (c.rf ≡ none) ⊎ (lookup c.pos fcs ≡ none)
          → (c.rf ≡ none) ⊎ (same_pos new.pos c.pos ≡ false)
          → (c.rf ≡ none) ⊎ (lookup c.pos (fcs ++ new ∷ []) ≡ none)
      here_after (inl dead) miss = inl dead
      here_after (inr apart) (inl dead) = inl dead
      here_after (inr apart) (inr other) =
          inr (lookup_other_append c.pos fcs (same_pos_sym c.pos new.pos ∙ other) apart)

  -- The new slot is the one for its position.
  pub lookup-put_slot :
      (fcs : List FileCache) (i : ℕ)
      → lookup new.pos fcs ≡ none
      → DeadAt fcs i
      → (rf : RegionFile) → new.rf ≡ some rf
      → lookup new.pos (put_slot i new fcs) ≡ some rf
  unfolding lookup put_slot
  lookup-put_slot [] i e (c, at, dead) rf live = absurd (ground (arith, at))
  lookup-put_slot (c ∷ fcs) zero e dead rf live = rw (live, same_pos_refl new.pos) refl
  lookup-put_slot (c ∷ fcs) (suc i) e dead rf live =
      let (miss, rest) = lookup-none new.pos c fcs e in
      when_same-miss (same_pos new.pos c.pos) c.rf _ miss ∙ lookup-put_slot fcs i rest dead rf live

  pub lookup-append :
      (fcs : List FileCache)
      → lookup new.pos fcs ≡ none
      → (rf : RegionFile) → new.rf ≡ some rf
      → lookup new.pos (fcs ++ new ∷ []) ≡ some rf
  unfolding lookup
  lookup-append [] e rf live = rw (live, same_pos_refl new.pos) refl
  lookup-append (c ∷ fcs) e rf live =
      let (miss, rest) = lookup-none new.pos c fcs e in
      when_same-miss (same_pos new.pos c.pos) c.rf _ miss ∙ lookup-append fcs rest rf live
