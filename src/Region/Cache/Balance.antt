-- ===== src/Region/Cache/Balance.antt =====
-- What the cache of src/region/file_cache.c takes and gives back.
use libclod.Prelude.{
  ℕ, zero, suc, ◌+◌, ◌*◌, ◌≤◌, ◌≡◌, refl, ap, arith, Bool, true, false, Bool-cases, ◌==◌, Option,
  none, some, List, [], ◌∷◌, ◌++◌, ℤ, if_null_both, Every, Every-if_null, Option-cases, inl, inr,
  length, take, u64,
}
use libclod.Region.System.{
  ok, Resource, descriptor, block, one, taken, Timespec, Os, Process, moved, sys_malloc, sys_free,
  sys_malloc-owed,
}
use libclod.Region.File.{Got}
use libclod.Region.File.Balance.{given, IsSettled}
use libclod.Region.RegionFile.{RegionFile, region_file_holds, region_file_open, region_file_close}
use libclod.Region.RegionFile.Balance.{region_file_close-owed, region_file_open-IsSettled}
use libclod.Region.Time.{int_lt, timespec_diff_ns, evictable_duration_ns}
use libclod.Region.Cache.Lookup.{DeadAt, Ends-DeadAt, search-Ends}
use libclod.Region.Cache.{
  FileCache, Region, found, failed, missed, Round, goes_on, returns, Searched, after_round,
  put_slot, Answer, same_pos, evict, visit, search, grow, store_file, after_open, after_search,
  measure_cache_max, get_at, region_file_get, file_cache_size,
}

-- What the live slots hold.
abbrev pub cache_holds : List FileCache → Resource → ℕ
cache_holds [] x = 0
cache_holds (fc ∷ fcs) x = given region_file_holds fc.rf x + cache_holds fcs x

-- What a region has to give back.
abbrev pub region_holds : Region → Resource → ℕ
region_holds r x =
    cache_holds r.cache x
    + taken r.cache_block block x
    + one (descriptor r.dir) x
    + one (block r.address) x

-- Of the resource `x`, what is owed changes as what the region holds.
abbrev pub AnswerKept : {W : Type 0} → Resource → Process W → Region → Answer W → Type 0
AnswerKept x p r out = out.3.owed x + region_holds r x ≡ p.owed x + region_holds out.2 x

module _ (x : Resource) where
  cache_holds-put_slot :
      (fcs : List FileCache) (j : ℕ) (new : FileCache)
      → DeadAt fcs j
      → cache_holds (put_slot j new fcs) x ≡ cache_holds fcs x + given region_file_holds new.rf x
  unfolding put_slot
  cache_holds-put_slot [] j new (fc, e, dead) = absurd (ground arith)
  cache_holds-put_slot (c ∷ fcs) zero new (fc, e, dead) =
      let here : c.rf ≡ none = ground (arith, dead, e) in rw here (omega arith)
  cache_holds-put_slot (c ∷ fcs) (suc j) new at = omega (arith, cache_holds-put_slot fcs j new at)

  cache_holds-append :
      (fcs more : List FileCache)
      → cache_holds (fcs ++ more) x ≡ cache_holds fcs x + cache_holds more x
  cache_holds-append [] more = omega arith
  cache_holds-append (fc ∷ fcs) more = omega (arith, cache_holds-append fcs more)

module _ {W : Type 0} (os : Os W) (x : Resource) where
  -- The round at a slot, and the loop, owe what the slots hold after them besides the rest.
  abbrev Kept : Process W → List FileCache → Searched W → Type 0
  Kept p fcs out = out.2.owed x + cache_holds fcs x ≡ p.owed x + cache_holds out.1 x

  abbrev RoundKept : Process W → FileCache → Round W → Type 0
  RoundKept p fc (goes_on e fc1 p1) =
      p1.owed x + given region_file_holds fc.rf x ≡ p.owed x + given region_file_holds fc1.rf x
  RoundKept p fc (returns s fc1 p1) =
      p1.owed x + given region_file_holds fc.rf x ≡ p.owed x + given region_file_holds fc1.rf x

  -- A round, whichever way the loop goes on.
  round-Kept :
      (p : Process W) (fc : FileCache) (fcs : List FileCache) (r : Round W)
      (next : Option ℕ → Process W → Searched W)
      → cache_holds (fc ∷ fcs) x ≤ p.owed x
      → RoundKept p fc r
      → ((e : Option ℕ) (p1 : Process W) → cache_holds fcs x ≤ p1.owed x → Kept p1 fcs (next e p1))
      → Kept p (fc ∷ fcs) (after_round r fcs next)
  round-Kept p fc fcs (goes_on e fc1 p1) next owes kept rest =
      omega (arith, kept, rest e p1 (omega (arith, kept)))
  round-Kept p fc fcs (returns s fc1 p1) next owes kept rest = omega (arith, kept)

  visit-RoundKept :
      (pos : List ℤ) (now : Timespec) (evictable : ℤ) (i : ℕ) (fc : FileCache) (empty : Option ℕ)
      (p : Process W)
      → given region_file_holds fc.rf x ≤ p.owed x
      → RoundKept p fc (visit os pos now evictable i fc empty p)
  unfolding visit evict
  visit-RoundKept pos now evictable i fc empty p owes = elim (Option-cases fc.rf) [
    | inl dead ↦ rw dead refl
    | inr (rf, live) ↦ elim (Bool-cases (same_pos pos fc.pos)) [
      | inl hit ↦ rw (live, hit) refl
      | inr other ↦ elim (Bool-cases (int_lt evictable (timespec_diff_ns fc.last_access now))) [
        | inr recent ↦ rw (live, other, recent) refl
        | inl old ↦
            let closed = region_file_close-owed os x p rf in
            let owes' = rw live at owes in
            elim (Bool-cases ((region_file_close os p rf).0 == ok)) [
              | inl done ↦ rw (live, other, old, done) (omega (arith, closed, owes'))
              | inr refused ↦ rw (live, other, old, refused) (omega (arith, closed, owes'))
            ]
      ]
    ]
  ]

  pub search-Kept :
      (pos : List ℤ) (now : Timespec) (evictable : ℤ) (fcs : List FileCache) (i : ℕ)
      (empty : Option ℕ) (p : Process W)
      → cache_holds fcs x ≤ p.owed x
      → Kept p fcs (search os pos now evictable fcs i empty p)
  unfolding search
  search-Kept pos now evictable [] i empty p owes = refl
  search-Kept pos now evictable (fc ∷ fcs) i empty p owes =
      round-Kept p fc fcs (visit os pos now evictable i fc empty p)
        (λ e p1. search os pos now evictable fcs (suc i) e p1) owes
        (visit-RoundKept pos now evictable i fc empty p (omega (arith, owes)))
        (λ e p1 owes1. search-Kept pos now evictable fcs (suc i) e p1 owes1)

  grow-Kept :
      (p0 p : Process W) (r : Region) (new : FileCache) (rf : RegionFile)
      → new.rf ≡ some rf
      → p.owed x ≡ p0.owed x + region_file_holds rf x
      → region_holds r x ≤ p0.owed x
      → AnswerKept x p0 r (grow os p r new rf)
  unfolding grow sys_free
  grow-Kept p0 p r new rf file before owes =
      let size = u64 ((length r.cache + 1) * file_cache_size r.opts.dims) in
      let owed = sys_malloc-owed os p x size in
      elim (Option-cases ((sys_malloc os p size).0)) [
        | inl refused ↦
            let owed' = rw refused at owed in
            let closed = region_file_close-owed os x ((sys_malloc os p size).1) rf in
            rw refused (omega (arith, owed', closed, before))
        | inr (a, allocated) ↦
            let owed' = rw allocated at owed in
            let more = cache_holds-append x r.cache (new ∷ []) in
            let held : cache_holds (new ∷ []) x ≡ region_file_holds rf x = rw file (omega arith) in
            elim (Option-cases r.cache_block) [
              | inl first ↦ rw (allocated, first) (omega (arith, owed', more, held, before))
              | inr (old, had) ↦
                  let owes' = rw had at owes in
                  rw (allocated, had) (omega (arith, owed', more, held, before, owes'))
            ]
      ]

  store_file-Kept :
      (p0 p : Process W) (r : Region) (empty : Option ℕ) (pos : List ℤ) (now : Timespec)
      (rf : RegionFile)
      → ((i : ℕ) → empty ≡ some i → DeadAt r.cache i)
      → p.owed x ≡ p0.owed x + region_file_holds rf x
      → region_holds r x ≤ p0.owed x
      → AnswerKept x p0 r (store_file os p r empty pos now rf)
  unfolding store_file
  store_file-Kept p0 p r none pos now rf dead before owes = grow-Kept p0 p r _ rf refl before owes
  store_file-Kept p0 p r (some i) pos now rf dead before owes =
      let new : FileCache = record { rf = some rf; last_access = now; pos = pos } in
      let put = cache_holds-put_slot x r.cache i new (dead i refl) in omega (arith, put, before)

  after_open-Kept :
      (p : Process W) (r : Region) (empty : Option ℕ) (pos : List ℤ) (now : Timespec)
      (got : Got RegionFile W)
      → ((i : ℕ) → empty ≡ some i → DeadAt r.cache i)
      → IsSettled region_file_holds p x got
      → region_holds r x ≤ p.owed x
      → AnswerKept x p r (after_open os r empty pos now got)
  unfolding after_open IsSettled
  after_open-Kept p r empty pos now (res, none, p1) dead (owed, agrees) owes =
      let agrees' : (res == ok) ≡ false = agrees in rw agrees' (omega (arith, owed))
  after_open-Kept p r empty pos now (res, some rf, p1) dead (owed, agrees) owes =
      let agrees' : (res == ok) ≡ true = agrees in
      rw agrees' (store_file-Kept p p1 r empty pos now rf dead owed owes)

  -- A part of the search's end: the noted slot is dead.
  after_search-Kept :
      (print : ℤ → List ℕ) (r : Region) (pos : List ℤ) (now : Timespec) (create : Bool)
      (p : Process W) (out : Searched W)
      → ((i : ℕ) → out.0 ≡ missed (some i) → DeadAt out.1 i)
      → region_holds r x ≤ p.owed x
      → Kept p r.cache out
      → Every (AnswerKept x p r) (after_search os print r pos now create out)
  unfolding after_search
  after_search-Kept print r pos now create p (found rf, out, p1) dead owes kept =
      omega (arith, kept)
  after_search-Kept print r pos now create p (failed res, out, p1) dead owes kept =
      omega (arith, kept)
  after_search-Kept print r pos now create p (missed empty, out, p1) dead owes kept =
      let r1 : Region = record r { cache = out } in
      let owes1 : region_holds r1 x ≤ p1.owed x = omega (arith, kept, owes) in
      Every-if_null (IsSettled region_file_holds p1 x) (AnswerKept x p r)
        (region_file_open os print p1 r.dir r.opts pos create)
        (region_file_open-IsSettled os x print p1 r.dir r.opts pos create)
        (λ got settled.
          let kept1 =
            after_open-Kept p1 r1 empty pos now got (λ i e. dead i (ap missed e)) settled owes1 in
          omega (arith, kept, kept1))

  measure_cache_max-owed : (p : Process W) → (measure_cache_max os p).owed x ≡ p.owed x
  unfolding measure_cache_max
  measure_cache_max-owed p = elim (Bool-cases (p.cache_max == 0)) [
    | inl first ↦ rw first refl
    | inr known ↦ rw known refl
  ]

  get_at-Kept :
      (print : ℤ → List ℕ) (p : Process W) (r : Region) (pos : List ℤ) (create : Bool)
      (now : Timespec)
      → region_holds r x ≤ p.owed x
      → Every (AnswerKept x p r) (get_at os print p r pos create now)
  unfolding get_at
  get_at-Kept print p r pos create now owes =
      let same = measure_cache_max-owed p in
      let p1 = measure_cache_max os p in
      let evictable = evictable_duration_ns p1.cache_max (length r.cache) in
      let out = search os (take r.opts.dims pos) now evictable r.cache 0 none p1 in
      let kept =
        search-Kept (take r.opts.dims pos) now evictable r.cache 0 none p1
          (omega (arith, owes, same)) in
      let ends = search-Ends os (take r.opts.dims pos) now evictable r.cache 0 none p1 in
      after_search-Kept print r (take r.opts.dims pos) now create p out
        (λ i e. Ends-DeadAt (take r.opts.dims pos) r.cache out.1 out.0 i ends e) owes
        (omega (arith, kept, same))

  -- Whatever the system answers, `region_file_get` changes what is owed as it changes what the region
  -- holds, if that was owed.
  pub region_file_get-owed :
      (print : ℤ → List ℕ) (p : Process W) (r : Region) (pos : List ℤ) (create : Bool)
      → region_holds r x ≤ p.owed x
      → Every (AnswerKept x p r) (region_file_get os print p r pos create)
  unfolding region_file_get
  region_file_get-owed print p r pos create owes =
      if_null_both (Every (AnswerKept x p r)) ((os.monotonic_now p.world).0) refl
        (λ t e. get_at-Kept print (moved p ((os.monotonic_now p.world).1)) r pos create t owes)
