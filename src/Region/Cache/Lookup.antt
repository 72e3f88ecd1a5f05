-- ===== src/Region/Cache/Lookup.antt =====
-- What the loop of `region_file_get` of src/region/file_cache.c finds.
use libclod.Prelude.{
  ℕ, suc, ◌+◌, ◌≡◌, ◌≢◌, ◌⊎◌, refl, ap, sym, ◌∙◌, arith, Bool, true, false, Bool-cases, ◌==◌,
  Option, none, some, List, [], ◌∷◌, ℤ, Option-cases, get_elem?, inl, inr,
}
use libclod.Region.System.{ok, Timespec, Os, Process}
use libclod.Region.RegionFile.{RegionFile, region_file_close}
use libclod.Region.Time.{int_lt, timespec_diff_ns}
use libclod.Region.Cache.{
  FileCache, Search, found, failed, missed, first_of, Round, goes_on, returns, Searched,
  after_round, same_pos, evict, visit, search,
}

-- A slot that is there and dead.
abbrev pub DeadAt : List FileCache → ℕ → Type 0
DeadAt fcs j = (fc : FileCache) × (get_elem? fcs j ≡ some fc) × (fc.rf ≡ none)

abbrev pub when_same : Bool → Option RegionFile → Option RegionFile → Option RegionFile
when_same same none rest = rest
when_same false (some rf) rest = rest
when_same true (some rf) rest = some rf

-- The file that the cache has for a position: that of the first live slot with it.
unfoldable pub lookup : List ℤ → List FileCache → Option RegionFile
lookup pos [] = none
lookup pos (fc ∷ fcs) = when_same (same_pos pos fc.pos) fc.rf (lookup pos fcs)

pub when_same-miss :
    (same : Bool) (rf rest : Option RegionFile)
    → (rf ≡ none) ⊎ (same ≡ false)
    → when_same same rf rest ≡ rest
when_same-miss same none rest how = refl
when_same-miss false (some rf) rest how = refl
when_same-miss true (some rf) rest (inl dead) = absurd (ground (arith, dead))
when_same-miss true (some rf) rest (inr other) = absurd (ground (arith, other))

-- The slots after some were closed: a slot keeps its position, and its file or none.
abbrev pub IsLess : List FileCache → List FileCache → Type 0
IsLess [] [] = Unit
IsLess [] (b ∷ bs) = ⊥
IsLess (a ∷ xs) [] = ⊥
IsLess (a ∷ xs) (b ∷ ys) = (a.pos ≡ b.pos) × ((b.rf ≡ a.rf) ⊎ (b.rf ≡ none)) × IsLess xs ys

-- What the slots and the end of the loop are, for the position that is asked for.
abbrev pub Ends : List ℤ → ℕ → Option ℕ → List FileCache → Search → List FileCache → Type 0
Ends pos i empty fcs (found rf) out = (lookup pos fcs ≡ some rf) × (lookup pos out ≡ some rf)
Ends pos i empty fcs (failed res) out = res ≢ ok
Ends pos i empty fcs (missed none) out =
    (lookup pos fcs ≡ none) × (lookup pos out ≡ none) × (empty ≡ none)
Ends pos i empty fcs (missed (some k)) out =
    (lookup pos fcs ≡ none)
    × (lookup pos out ≡ none)
    × ((empty ≡ some k) ⊎ ((j : ℕ) × (k ≡ i + j) × DeadAt out j))

-- The slot that was noted is dead.
pub Ends-DeadAt :
    (pos : List ℤ) (fcs out : List FileCache) (s : Search) (i : ℕ)
    → Ends pos 0 none fcs s out
    → s ≡ missed (some i)
    → DeadAt out i
Ends-DeadAt pos fcs out (found rf) i ends e = absurd (ground (arith, e))
Ends-DeadAt pos fcs out (failed res) i ends e = absurd (ground (arith, e))
Ends-DeadAt pos fcs out (missed none) i ends e = absurd (ground (arith, e))
Ends-DeadAt pos fcs out (missed (some k)) i (before, after, at) e = elim at [
  | inl noted ↦ absurd (ground (arith, noted))
  | inr (j, far, dead) ↦ let same : j ≡ i = ground (arith, far, e) in rw (sym same) dead
]

module _ {W : Type 0} (os : Os W) where
  -- What a round makes of a slot, and what it says of the position.
  abbrev Rounds : List ℤ → ℕ → Option ℕ → FileCache → Round W → Type 0
  Rounds pos i empty a (goes_on e b p) =
      (a.pos ≡ b.pos)
      × ((b.rf ≡ a.rf) ⊎ (b.rf ≡ none))
      × ((a.rf ≡ none) ⊎ (same_pos pos a.pos ≡ false))
      × ((e ≡ empty) ⊎ ((empty ≡ none) × (e ≡ some i) × (b.rf ≡ none)))
  Rounds pos i empty a (returns (found rf) b p) =
      (a.pos ≡ b.pos) × (b.rf ≡ a.rf) × (a.rf ≡ some rf) × (same_pos pos a.pos ≡ true)
  Rounds pos i empty a (returns (failed res) b p) = (a.pos ≡ b.pos) × (b.rf ≡ none) × (res ≢ ok)
  Rounds pos i empty a (returns (missed e) b p) = ⊥

  first_of-cases :
      (empty : Option ℕ) (i : ℕ) (rf : Option RegionFile)
      → rf ≡ none
      → (first_of empty i ≡ empty) ⊎ ((empty ≡ none) × (first_of empty i ≡ some i) × (rf ≡ none))
  first_of-cases none i rf dead = inr (refl, refl, dead)
  first_of-cases (some e) i rf dead = inl refl

  visit-Rounds :
      (pos : List ℤ) (now : Timespec) (evictable : ℤ) (i : ℕ) (fc : FileCache) (empty : Option ℕ)
      (p : Process W)
      → Rounds pos i empty fc (visit os pos now evictable i fc empty p)
  unfolding visit evict
  visit-Rounds pos now evictable i fc empty p = elim (Option-cases fc.rf) [
    | inl dead ↦ rw dead (refl, inl refl, inl refl, first_of-cases empty i none refl)
    | inr (rf, live) ↦ elim (Bool-cases (same_pos pos fc.pos)) [
      | inl hit ↦ rw (live, hit) (refl, refl, refl, hit)
      | inr other ↦ elim (Bool-cases (int_lt evictable (timespec_diff_ns fc.last_access now))) [
        | inr recent ↦ rw (live, other, recent) (refl, inl refl, inr other, inl refl)
        | inl old ↦ elim (Bool-cases ((region_file_close os p rf).0 == ok)) [
          | inl done ↦ rw (live, other, old, done) (refl, inr refl, inr other, inl refl)
          | inr refused ↦ rw (live, other, old, refused) (refl, refl, ground (arith, refused))
        ]
      ]
    ]
  ]

  IsLess-refl : (fcs : List FileCache) → IsLess fcs fcs
  IsLess-refl [] = tt
  IsLess-refl (fc ∷ fcs) = (refl, inl refl, IsLess-refl fcs)

  round-IsLess :
      (pos : List ℤ) (i : ℕ) (empty : Option ℕ) (fc : FileCache) (fcs : List FileCache)
      (r : Round W) (next : Option ℕ → Process W → Searched W)
      → Rounds pos i empty fc r
      → ((e : Option ℕ) (p1 : Process W) → IsLess fcs (next e p1).1)
      → IsLess (fc ∷ fcs) (after_round r fcs next).1
  round-IsLess pos i empty fc fcs (goes_on e b p) next (same, less, miss, dead) on =
      (same, less, on e p)
  round-IsLess pos i empty fc fcs (returns (found rf) b p) next (same, kept, live, hit) on =
      (same, inl kept, IsLess-refl fcs)
  round-IsLess pos i empty fc fcs (returns (failed res) b p) next (same, dead, rest) on =
      (same, inr dead, IsLess-refl fcs)
  round-IsLess pos i empty fc fcs (returns (missed e) b p) next never on = absurd never

  pub search-IsLess :
      (pos : List ℤ) (now : Timespec) (evictable : ℤ) (fcs : List FileCache) (i : ℕ)
      (empty : Option ℕ) (p : Process W)
      → IsLess fcs (search os pos now evictable fcs i empty p).1
  unfolding search
  search-IsLess pos now evictable [] i empty p = tt
  search-IsLess pos now evictable (fc ∷ fcs) i empty p =
      round-IsLess pos i empty fc fcs (visit os pos now evictable i fc empty p) _
        (visit-Rounds pos now evictable i fc empty p)
        (λ e p1. search-IsLess pos now evictable fcs (suc i) e p1)

  -- How a round changes the empty slot that is noted.
  abbrev Notes : ℕ → Option ℕ → Option ℕ → FileCache → Type 0
  Notes i empty e b = (e ≡ empty) ⊎ ((empty ≡ none) × (e ≡ some i) × (b.rf ≡ none))

  noted_none :
      (i : ℕ) (empty e : Option ℕ) (b : FileCache) → Notes i empty e b → e ≡ none → empty ≡ none
  noted_none i empty e b (inl same) nothing = sym same ∙ nothing
  noted_none i empty e b (inr (nothing', here, dead)) nothing = nothing'

  noted_some :
      (i k : ℕ) (empty e : Option ℕ) (b : FileCache) (out : List FileCache)
      → Notes i empty e b
      → (e ≡ some k) ⊎ ((j : ℕ) × (k ≡ suc i + j) × DeadAt out j)
      → (empty ≡ some k) ⊎ ((j : ℕ) × (k ≡ i + j) × DeadAt (b ∷ out) j)
  noted_some i k empty e b out (inl same) (inl at) = inl (sym same ∙ at)
  noted_some i k empty e b out (inr (nothing, here, dead)) (inl at) =
      inr (0, ground (arith, here, at), (b, refl, dead))
  noted_some i k empty e b out how (inr (j, far, dead)) = inr (suc j, omega (arith, far), dead)

  extend-Ends :
      (pos : List ℤ) (i : ℕ) (empty e : Option ℕ) (a b : FileCache) (fcs out : List FileCache)
      (s : Search)
      → lookup pos (a ∷ fcs) ≡ lookup pos fcs
      → lookup pos (b ∷ out) ≡ lookup pos out
      → Notes i empty e b
      → Ends pos (suc i) e fcs s out
      → Ends pos i empty (a ∷ fcs) s (b ∷ out)
  extend-Ends pos i empty e a b fcs out (found rf) skip skip' how (before, after) =
      (skip ∙ before, skip' ∙ after)
  extend-Ends pos i empty e a b fcs out (failed res) skip skip' how bad = bad
  extend-Ends pos i empty e a b fcs out (missed none) skip skip' how (before, after, nothing) =
      (skip ∙ before, skip' ∙ after, noted_none i empty e b how nothing)
  extend-Ends pos i empty e a b fcs out (missed (some k)) skip skip' how (before, after, at) =
      (skip ∙ before, skip' ∙ after, noted_some i k empty e b out how at)

  still_misses :
      (pos : List ℤ) (a b : FileCache)
      → (a.pos ≡ b.pos)
      → ((b.rf ≡ a.rf) ⊎ (b.rf ≡ none))
      → ((a.rf ≡ none) ⊎ (same_pos pos a.pos ≡ false))
      → (b.rf ≡ none) ⊎ (same_pos pos b.pos ≡ false)
  still_misses pos a b same (inr dead) miss = inl dead
  still_misses pos a b same (inl kept) (inl dead) = inl (kept ∙ dead)
  still_misses pos a b same (inl kept) (inr other) =
      inr (ap (λ q. same_pos pos q) (sym same) ∙ other)

  round-Ends :
      (pos : List ℤ) (i : ℕ) (empty : Option ℕ) (fc : FileCache) (fcs : List FileCache)
      (r : Round W) (next : Option ℕ → Process W → Searched W)
      → Rounds pos i empty fc r
      → ((e : Option ℕ) (p1 : Process W) → Ends pos (suc i) e fcs (next e p1).0 (next e p1).1)
      → Ends pos i empty (fc ∷ fcs) (after_round r fcs next).0 (after_round r fcs next).1
  unfolding lookup
  round-Ends pos i empty fc fcs (goes_on e b p) next (same, less, miss, notes) on =
      extend-Ends pos i empty e fc b fcs (next e p).1 (next e p).0
        (when_same-miss (same_pos pos fc.pos) fc.rf (lookup pos fcs) miss)
        (when_same-miss (same_pos pos b.pos) b.rf _ (still_misses pos fc b same less miss)) notes
        (on e p)
  round-Ends pos i empty fc fcs (returns (found rf) b p) next (same, kept, live, hit) on =
      let hit' : same_pos pos b.pos ≡ true = ap (λ q. same_pos pos q) (sym same) ∙ hit in
      let live' : b.rf ≡ some rf = kept ∙ live in (rw (hit, live) refl, rw (hit', live') refl)
  round-Ends pos i empty fc fcs (returns (failed res) b p) next (same, dead, bad) on = bad
  round-Ends pos i empty fc fcs (returns (missed e) b p) next never on = absurd never

  pub search-Ends :
      (pos : List ℤ) (now : Timespec) (evictable : ℤ) (fcs : List FileCache) (i : ℕ)
      (empty : Option ℕ) (p : Process W)
      → Ends pos i empty fcs
          (search os pos now evictable fcs i empty p).0
          (search os pos now evictable fcs i empty p).1
  unfolding search lookup
  search-Ends pos now evictable [] i none p = (refl, refl, refl)
  search-Ends pos now evictable [] i (some k) p = (refl, refl, inl refl)
  search-Ends pos now evictable (fc ∷ fcs) i empty p =
      round-Ends pos i empty fc fcs (visit os pos now evictable i fc empty p) _
        (visit-Rounds pos now evictable i fc empty p)
        (λ e p1. search-Ends pos now evictable fcs (suc i) e p1)
