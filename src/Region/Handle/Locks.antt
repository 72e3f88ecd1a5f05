-- ===== src/Region/Handle/Locks.antt =====
-- The counter and the locks of a region after `clod_region_read` of src/region/region_read.c.
use libclod.Prelude.{
  ℕ, ◌+◌, ◌^◌, ◌≤◌, ◌≡◌, ◌≢◌, ◌⊎◌, refl, arith, Bool, true, false, Bool-cases, ◌==◌, Option, none,
  some, List, ℤ, if_null_both, Every, Every-bind, inl, inr, ltb, if_both, take, length, u64,
  Every-both, ◌*◌, ==_refl,
}
use libclod.Region.System.{ok, Timespec, Os, Process, sys_malloc}
use libclod.Region.File.{file_get, Got}
use libclod.Region.RegionFile.{RegionFile, region_file_open}
use libclod.Region.Cache.{
  Region, Answer, FileCache, Searched, found, failed, missed, grow, store_file, after_open,
  after_search, get_at, region_file_get, file_cache_size,
}
use libclod.Region.Cache.Lookup.{lookup}
use libclod.Region.Cache.Unique.{IsUnique}
use libclod.Region.Cache.Contract.{IsAnswered, region_file_get-IsAnswered}
use libclod.Region.Handle

-- `region_file_get` leaves all of the region but the cache.
abbrev pub KeepsRegion : {W : Type 0} → Region → Answer W → Type 0
KeepsRegion r out =
    (out.2.inside ≡ r.inside)
    × (out.2.locked ≡ r.locked)
    × (out.2.dir ≡ r.dir)
    × (out.2.address ≡ r.address)
    × (out.2.opts ≡ r.opts)

-- After `clod_region_read`: the counter as before, the mutex free, the positions of the cache
-- apart; with `CLOD_REGION_OK` the lock of the file for the position is held for reading.
abbrev pub Leaves : {W : Type 0} → Region → List ℤ → ℕ × Region × Process W → Type 0
Leaves r at out =
    (out.1.inside ≡ r.inside)
    × (out.1.locked ≡ false)
    × (out.1.opts ≡ r.opts)
    × IsUnique out.1.cache
    × ((out.0 ≢ ok)
        ⊎ ((rf : RegionFile) × (lookup at out.1.cache ≡ some rf) × (1 ≤ out.2.readers rf.address)))

module _ {W : Type 0} (os : Os W) where
  store_file-KeepsRegion :
      (p : Process W) (r : Region) (empty : Option ℕ) (at : List ℤ) (now : Timespec)
      (rf : RegionFile)
      → KeepsRegion r (store_file os p r empty at now rf)
  unfolding store_file grow
  store_file-KeepsRegion p r (some i) at now rf = (refl, refl, refl, refl, refl)
  store_file-KeepsRegion p r none at now rf =
      if_null_both (KeepsRegion r)
        ((sys_malloc os p (u64 ((length r.cache + 1) * file_cache_size r.opts.dims))).0)
        (refl, refl, refl, refl, refl) (λ a e. (refl, refl, refl, refl, refl))

  after_open-KeepsRegion :
      (r : Region) (empty : Option ℕ) (at : List ℤ) (now : Timespec) (got : Got RegionFile W)
      → KeepsRegion r (after_open os r empty at now got)
  unfolding after_open
  after_open-KeepsRegion r empty at now (res, rf, p) =
      let same : KeepsRegion r (res, none, r, p) = (refl, refl, refl, refl, refl) in
      if_both (KeepsRegion r) (res == ok)
        (if_null_both (KeepsRegion r) rf same
          (λ file e. store_file-KeepsRegion p r empty at now file))
        same

  after_search-KeepsRegion :
      (print : ℤ → List ℕ) (r : Region) (at : List ℤ) (now : Timespec) (create : Bool)
      (out : Searched W)
      → Every (KeepsRegion r) (after_search os print r at now create out)
  unfolding after_search
  after_search-KeepsRegion print r at now create (found rf, fcs, p) = (refl, refl, refl, refl, refl)
  after_search-KeepsRegion print r at now create (failed res, fcs, p) =
      (refl, refl, refl, refl, refl)
  after_search-KeepsRegion print r at now create (missed empty, fcs, p) =
      if_null_both (Every (KeepsRegion r)) (region_file_open os print p r.dir r.opts at create) tt
        (λ got e. after_open-KeepsRegion (record r { cache = fcs }) empty at now got)

  pub region_file_get-KeepsRegion :
      (print : ℤ → List ℕ) (p : Process W) (r : Region) (at : List ℤ) (create : Bool)
      → Every (KeepsRegion r) (region_file_get os print p r at create)
  unfolding region_file_get get_at
  region_file_get-KeepsRegion print p r at create =
      if_null_both (Every (KeepsRegion r)) ((os.monotonic_now p.world).0)
        (refl, refl, refl, refl, refl)
        (λ now e. after_search-KeepsRegion print r (take r.opts.dims at) now create _)

  read_got-Leaves :
      (r : Region) (at : List ℤ) (before : List FileCache) (got : Answer W)
      → got.2.inside ≡ r.inside + 1
      → got.2.opts ≡ r.opts
      → IsAnswered at before got
      → Every (Leaves r at) (Handle.read_got os got)
  unfolding Handle.read_got Handle.read_file Handle.leave_with Handle.public_leave file_get
      IsAnswered
  read_got-Leaves r at before (res, rf, r1, p) used opts (unique, inl (bad, nothing)) =
      let failed : (res == ok) ≡ false = ground (arith, bad) in
      let positive : ltb 0 r1.inside ≡ true = ground (arith, used) in
      rw (failed, positive) (omega (arith, used), refl, opts, unique, inl bad)
  read_got-Leaves r at before (res, rf, r1, p) used opts
        (unique, inr (good, (f, got, cached, rest))) =
      let passed : (res == ok) ≡ true = ground (arith, good) in
      let positive : ltb 0 r1.inside ≡ true = ground (arith, used) in
      let here : (f.address == f.address) ≡ true = ==_refl f.address in
      rw (passed, got, positive)
        (omega (arith, used), refl, opts, unique, inr (f, cached, rw here (omega arith)))

  -- If the positions of the cache are apart, `clod_region_read` leaves the counter as it was and the
  -- mutex free on every path that returns, and the positions apart; with `CLOD_REGION_OK` the file for
  -- the position is in the cache, and its lock is held for reading.
  pub region_read-Leaves :
      (print : ℤ → List ℕ) (p : Process W) (r : Region) (at : List ℤ)
      → IsUnique r.cache
      → Every (Leaves r (take r.opts.dims at)) (Handle.region_read os print p r at)
  unfolding Handle.region_read Handle.public_enter
  region_read-Leaves print p r at unique = elim (Bool-cases (ltb (r.inside + 1) (2 ^ 31))) [
    | inr full ↦ rw full tt
    | inl room ↦
        let r1 : Region = record r { inside = r.inside + 1; locked = true } in
        let got = region_file_get os print p r1 at false in
        let pos = take r.opts.dims at in
        rw room (
          Every-bind _ (Leaves r pos) got _
            (Every-both (KeepsRegion r1) (IsAnswered pos r.cache) got
              (region_file_get-KeepsRegion print p r1 at false)
              (region_file_get-IsAnswered os print p r1 at false unique))
            (λ out (kept, answered).
              let (inside, locked, dir, address, opts) = kept in
              read_got-Leaves r pos r.cache out inside opts answered))
  ]
