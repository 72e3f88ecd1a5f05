-- ===== src/Region/Cache/Crowded.antt =====
-- A cache of src/region/file_cache.c with more slots than there are processors.
use libclod.Prelude.{
  ℕ, suc, ◌+◌, ◌-◌, ◌*◌, ◌^◌, ◌<◌, ◌≤◌, ◌≡◌, refl, arith, true, Bool-cases, ◌==◌, Option, none,
  List, [], ◌∷◌, ℤ, Option-cases, inl, inr, length,
}
use libclod.Region.System.{ok, Resource, Timespec, Os, Process}
use libclod.Region.RegionFile.{region_file_close}
use libclod.Region.Time.{
  int_lt, second, time, timespec_diff_ns, timespec_diff_ns-exact, evictable_duration_ns,
  evictable_duration_ns-negative,
}
use libclod.Region.Cache.Balance.{cache_holds, search-Kept}
use libclod.Region.Cache.{
  FileCache, found, failed, missed, Round, goes_on, returns, Searched, with_slot, after_round,
  same_pos, evict, visit, search,
}

-- A time from 0 to another, which is less than 2 ^ 63 - 10 ^ 9 nanoseconds later.
pub record IsPast (now_s now_ns : ℕ) (t : Timespec) : Type 0 where
  pub s : ℕ
  pub ns : ℕ
  pub at : t ≡ time s ns
  pub below : ns < second
  pub before : s * second + ns ≤ now_s * second + now_ns
  pub near : (now_s - s) * second + second < 2 ^ 63

-- The last accesses lie in the past.
abbrev pub AllPast : ℕ → ℕ → List FileCache → Type 0
AllPast now_s now_ns [] = Unit
AllPast now_s now_ns (fc ∷ fcs) = IsPast now_s now_ns fc.last_access × AllPast now_s now_ns fcs

abbrev pub AllDead : List FileCache → Type 0
AllDead [] = Unit
AllDead (fc ∷ fcs) = (fc.rf ≡ none) × AllDead fcs

module _ {W : Type 0} (os : Os W) (pos : List ℤ) (s ns : ℕ) (ns_below : ns < second) (evictable : ℤ)
    (negative : (d : ℕ) → int_lt evictable (ℤ.pos d) ≡ true) where
  -- A round that goes on leaves a dead slot.
  abbrev DeadRound : Round W → Type 0
  DeadRound (goes_on e fc p) = fc.rf ≡ none
  DeadRound (returns (found rf) fc p) = Unit
  DeadRound (returns (failed res) fc p) = Unit
  DeadRound (returns (missed e) fc p) = ⊥

  visit-DeadRound :
      (i : ℕ) (fc : FileCache) (empty : Option ℕ) (p : Process W)
      → IsPast s ns fc.last_access
      → DeadRound (visit os pos (time s ns) evictable i fc empty p)
  unfolding visit evict
  visit-DeadRound i fc empty p past =
      let diff =
        timespec_diff_ns-exact past.s past.ns s ns past.below ns_below past.before past.near in
      let old : int_lt evictable (timespec_diff_ns fc.last_access (time s ns)) ≡ true =
        rw (past.at, diff) (negative _) in
      elim (Option-cases fc.rf) [
        | inl dead ↦ rw dead refl
        | inr (rf, live) ↦ elim (Bool-cases (same_pos pos fc.pos)) [
          | inl hit ↦ rw (live, hit) tt
          | inr other ↦ elim (Bool-cases ((region_file_close os p rf).0 == ok)) [
            | inl done ↦ rw (live, other, old, done) refl
            | inr refused ↦ rw (live, other, old, refused) tt
          ]
        ]
      ]

  abbrev DeadEnd : Searched W → Type 0
  DeadEnd (found rf, out, p) = Unit
  DeadEnd (failed res, out, p) = Unit
  DeadEnd (missed e, out, p) = AllDead out

  with_slot-DeadEnd :
      (fc : FileCache) (out : Searched W) → fc.rf ≡ none → DeadEnd out → DeadEnd (with_slot fc out)
  with_slot-DeadEnd fc (found rf, out, p) dead rest = tt
  with_slot-DeadEnd fc (failed res, out, p) dead rest = tt
  with_slot-DeadEnd fc (missed e, out, p) dead rest = (dead, rest)

  round-DeadEnd :
      (r : Round W) (fcs : List FileCache) (next : Option ℕ → Process W → Searched W)
      → DeadRound r
      → ((e : Option ℕ) (p1 : Process W) → DeadEnd (next e p1))
      → DeadEnd (after_round r fcs next)
  round-DeadEnd (goes_on e fc p) fcs next dead rest =
      with_slot-DeadEnd fc (next e p) dead (rest e p)
  round-DeadEnd (returns (found rf) fc p) fcs next dead rest = tt
  round-DeadEnd (returns (failed res) fc p) fcs next dead rest = tt
  round-DeadEnd (returns (missed e) fc p) fcs next never rest = absurd never

  search-DeadEnd :
      (fcs : List FileCache) (i : ℕ) (empty : Option ℕ) (p : Process W)
      → AllPast s ns fcs
      → DeadEnd (search os pos (time s ns) evictable fcs i empty p)
  unfolding search
  search-DeadEnd [] i empty p past = tt
  search-DeadEnd (fc ∷ fcs) i empty p (here, there) =
      round-DeadEnd (visit os pos (time s ns) evictable i fc empty p) fcs _
        (visit-DeadRound i fc empty p here) (λ e p1. search-DeadEnd fcs (suc i) e p1 there)

DeadEnd-AllDead :
    {W : Type 0} (os : Os W) (pos : List ℤ) (s ns : ℕ) (below : ns < second) (evictable : ℤ)
    (negative : (d : ℕ) → int_lt evictable (ℤ.pos d) ≡ true) (out : Searched W) (e : Option ℕ)
    → DeadEnd os pos s ns below evictable negative out
    → out.0 ≡ missed e
    → AllDead out.1
DeadEnd-AllDead os pos s ns below evictable negative (found rf, out, p) e dead miss =
    absurd (ground (arith, miss))
DeadEnd-AllDead os pos s ns below evictable negative (failed res, out, p) e dead miss =
    absurd (ground (arith, miss))
DeadEnd-AllDead os pos s ns below evictable negative (missed e', out, p) e dead miss = dead

-- A cache whose files are all closed holds nothing.
AllDead-cache_holds : (fcs : List FileCache) (x : Resource) → AllDead fcs → cache_holds fcs x ≡ 0
AllDead-cache_holds [] x dead = refl
AllDead-cache_holds (fc ∷ fcs) x (here, there) =
    rw here (omega (arith, AllDead-cache_holds fcs x there))

-- With more slots than processors, of which there are at most 10 ^ 5, and last accesses in the past,
-- a lookup that finds no file for its position leaves no file in any slot, and has given back what
-- the files of all slots held, if that was owed.
pub search-AllDead :
    {W : Type 0} (os : Os W) (x : Resource) (at : List ℤ) (s ns procs : ℕ) (fcs : List FileCache)
    (p : Process W) (e : Option ℕ)
    → ns < second
    → 0 < procs
    → procs ≤ 100000
    → procs < length fcs
    → AllPast s ns fcs
    → cache_holds fcs x ≤ p.owed x
    → (search os at (time s ns) (evictable_duration_ns procs (length fcs)) fcs 0 none p).0
      ≡ missed e
    → AllDead (search os at (time s ns) (evictable_duration_ns procs (length fcs)) fcs 0 none p).1
      × ((search os at (time s ns) (evictable_duration_ns procs (length fcs)) fcs 0 none p).2.owed x
            + cache_holds fcs x
          ≡ p.owed x)
search-AllDead os x at s ns procs fcs p e below any few more past owes miss =
    let evictable = evictable_duration_ns procs (length fcs) in
    let negative = evictable_duration_ns-negative procs (length fcs) any few more in
    let out = search os at (time s ns) evictable fcs 0 none p in
    let dead =
      DeadEnd-AllDead os at s ns below evictable negative out e
        (search-DeadEnd os at s ns below evictable negative fcs 0 none p past) miss in
    let kept = search-Kept os x at (time s ns) evictable fcs 0 none p owes in
    (dead, omega (arith, kept, AllDead-cache_holds out.1 x dead))
