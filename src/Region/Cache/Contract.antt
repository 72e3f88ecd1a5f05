-- ===== src/Region/Cache/Contract.antt =====
-- What `region_file_get` of src/region/file_cache.c promises of the cache as a map from positions to
-- open files.
use libclod.Prelude.{
  ℕ, ◌*◌, ◌+◌, ◌≡◌, ◌≢◌, ◌⊎◌, refl, ap, arith, Bool, true, false, ◌==◌, Option, none, some, List, ℤ,
  if_null_both, Every, Every-if_null, Option-cases, inl, inr, length, take, u64,
}
use libclod.Region.System.{ok, descriptor, Timespec, Os, Process, moved, sys_malloc}
use libclod.Region.File.{Got}
use libclod.Region.File.Balance.{IsSettled}
use libclod.Region.RegionFile.{RegionFile, region_file_holds, region_file_open}
use libclod.Region.RegionFile.Balance.{region_file_open-IsSettled}
use libclod.Region.Time.{evictable_duration_ns}
use libclod.Region.Cache.{
  FileCache, Region, found, failed, missed, Searched, Answer, search, grow, store_file, after_open,
  after_search, measure_cache_max, get_at, region_file_get, file_cache_size,
}
use libclod.Region.Cache.Lookup.{DeadAt, Ends, Ends-DeadAt, lookup, search-IsLess, search-Ends}
use libclod.Region.Cache.Unique.{
  IsUnique, IsLess-IsUnique, put_slot-IsUnique, append-IsUnique, lookup-put_slot, lookup-append,
}

-- A file is given exactly with `CLOD_REGION_OK`, it is the one that the cache has then, and if the
-- cache had one before, it is that one. The positions stay apart.
unfoldable pub IsAnswered : {W : Type 0} → List ℤ → List FileCache → Answer W → Type 0
IsAnswered pos before out =
    IsUnique out.2.cache
    × (((out.0 ≢ ok) × (out.1 ≡ none))
        ⊎ ((out.0 ≡ ok)
            × ((rf : RegionFile) × (out.1 ≡ some rf)
                × (lookup pos out.2.cache ≡ some rf)
                × ((lookup pos before ≡ none) ⊎ (lookup pos before ≡ some rf)))))

module _ {W : Type 0} (os : Os W) (at : List ℤ) (before : List FileCache) where
  abbrev Good : Answer W → Type 0
  Good out = IsAnswered at before out

  grow-IsAnswered :
      (p : Process W) (r : Region) (now : Timespec) (rf : RegionFile)
      → lookup at before ≡ none
      → lookup at r.cache ≡ none
      → IsUnique r.cache
      → Good (grow os p r (record { rf = some rf; last_access = now; pos = at }) rf)
  unfolding grow IsAnswered
  grow-IsAnswered p r now rf new new' unique =
      let slot : FileCache = record { rf = some rf; last_access = now; pos = at } in
      let size = u64 ((length r.cache + 1) * file_cache_size r.opts.dims) in
      elim (Option-cases ((sys_malloc os p size).0)) [
        | inl refused ↦ rw refused (unique, inl ((λ e. ground (arith, e)), refl))
        | inr (a, allocated) ↦ rw allocated (
          append-IsUnique slot r.cache new' unique,
          inr (refl, (rf, refl, lookup-append slot r.cache new' rf refl, inl new)),
        )
      ]

  store_file-IsAnswered :
      (p : Process W) (r : Region) (empty : Option ℕ) (now : Timespec) (rf : RegionFile)
      → lookup at before ≡ none
      → lookup at r.cache ≡ none
      → IsUnique r.cache
      → ((i : ℕ) → empty ≡ some i → DeadAt r.cache i)
      → Good (store_file os p r empty at now rf)
  unfolding store_file IsAnswered
  store_file-IsAnswered p r none now rf new new' unique dead =
      grow-IsAnswered p r now rf new new' unique
  store_file-IsAnswered p r (some i) now rf new new' unique dead =
      let slot : FileCache = record { rf = some rf; last_access = now; pos = at } in
      (
        put_slot-IsUnique slot r.cache i new' unique,
        inr (refl, (rf, refl, lookup-put_slot slot r.cache i new' (dead i refl) rf refl, inl new)),
      )

  after_open-IsAnswered :
      (p : Process W) (r : Region) (empty : Option ℕ) (now : Timespec) (got : Got RegionFile W)
      → IsSettled region_file_holds p (descriptor 0) got
      → lookup at before ≡ none
      → lookup at r.cache ≡ none
      → IsUnique r.cache
      → ((i : ℕ) → empty ≡ some i → DeadAt r.cache i)
      → Good (after_open os r empty at now got)
  unfolding after_open IsSettled IsAnswered
  after_open-IsAnswered p r empty now (res, none, p1) (owed, agrees) new new' unique dead =
      let agrees' : (res == ok) ≡ false = agrees in
      rw agrees' (unique, inl (ground (arith, agrees'), refl))
  after_open-IsAnswered p r empty now (res, some rf, p1) (owed, agrees) new new' unique dead =
      let agrees' : (res == ok) ≡ true = agrees in
      rw agrees' (store_file-IsAnswered p1 r empty now rf new new' unique dead)

  after_search-IsAnswered :
      (print : ℤ → List ℕ) (r : Region) (now : Timespec) (create : Bool) (out : Searched W)
      → IsUnique out.1
      → Ends at 0 none before out.0 out.1
      → Every Good (after_search os print r at now create out)
  unfolding after_search IsAnswered
  after_search-IsAnswered print r now create (found rf, out, p) unique (had, has) =
      (unique, inr (refl, (rf, refl, has, inr had)))
  after_search-IsAnswered print r now create (failed res, out, p) unique bad =
      (unique, inl (bad, refl))
  after_search-IsAnswered print r now create (missed empty, out, p) unique ends =
      Every-if_null (IsSettled region_file_holds p (descriptor 0)) Good
        (region_file_open os print p r.dir r.opts at create)
        (region_file_open-IsSettled os (descriptor 0) print p r.dir r.opts at create)
        (λ got settled.
          let (had, has) = missed_both empty ends in
          after_open-IsAnswered p (record r { cache = out }) empty now got settled had has unique
            (λ i e. Ends-DeadAt at before out (missed empty) i ends (ap missed e)))
    where
      missed_both :
          (e : Option ℕ)
          → Ends at 0 none before (missed e) out
          → (lookup at before ≡ none) × (lookup at out ≡ none)
      missed_both none (had, has, nothing) = (had, has)
      missed_both (some k) (had, has, noted) = (had, has)

module _ {W : Type 0} (os : Os W) where
  -- If the positions of the cache are apart, they still are after `region_file_get`. It gives a file
  -- exactly with `CLOD_REGION_OK`, the one that the cache then has for the position, and that is the
  -- one that it had before, if it had one.
  pub region_file_get-IsAnswered :
      (print : ℤ → List ℕ) (p : Process W) (r : Region) (at : List ℤ) (create : Bool)
      → IsUnique r.cache
      → Every (IsAnswered (take r.opts.dims at) r.cache) (region_file_get os print p r at create)
  unfolding region_file_get get_at IsAnswered
  region_file_get-IsAnswered print p r at create unique =
      if_null_both (Every (IsAnswered (take r.opts.dims at) r.cache)) ((os.monotonic_now p.world).0)
        (unique, inl ((λ e. ground (arith, e)), refl))
        (λ now e.
          let pos = take r.opts.dims at in
          let p1 = measure_cache_max os (moved p ((os.monotonic_now p.world).1)) in
          let evictable = evictable_duration_ns p1.cache_max (length r.cache) in
          after_search-IsAnswered os pos r.cache print r now create
            (search os pos now evictable r.cache 0 none p1)
            (IsLess-IsUnique r.cache _ (search-IsLess os pos now evictable r.cache 0 none p1)
              unique)
            (search-Ends os pos now evictable r.cache 0 none p1))
