-- ===== src/Region/Cache/Destroyed.antt =====
-- What `file_cache_destroy` of src/region/file_cache.c gives back.
use libclod.Prelude.{ℕ, ◌-◌, ◌≡◌, arith, List, [], ◌∷◌, Option-cases, inl, inr}
use libclod.Region.System.{ok, Resource, block, taken, Os, Process, sys_free}
use libclod.Region.RegionFile.{region_file_close}
use libclod.Region.RegionFile.Balance.{region_file_close-owed}
use libclod.Region.Cache.{FileCache, Region, first_failure, destroy_loop, file_cache_destroy}
use libclod.Region.Cache.Balance.{cache_holds}

module _ {W : Type 0} (os : Os W) (x : Resource) where
  destroy_loop-owed :
      (fcs : List FileCache) (res : ℕ) (p : Process W)
      → (destroy_loop os fcs res p).1.owed x ≡ p.owed x - cache_holds fcs x
  unfolding destroy_loop
  destroy_loop-owed [] res p = omega arith
  destroy_loop-owed (fc ∷ fcs) res p = elim (Option-cases fc.rf) [
    | inl dead ↦ rw dead (omega (arith, destroy_loop-owed fcs res p))
    | inr (rf, live) ↦
        let (close_res, p1) = region_file_close os p rf in
        let closed = region_file_close-owed os x p rf in
        rw live (omega (arith, closed, destroy_loop-owed fcs (first_failure res close_res) p1))
  ]

  -- `file_cache_destroy` gives back what the slots hold and the array.
  pub file_cache_destroy-owed :
      (p : Process W) (r : Region)
      → (file_cache_destroy os p r).2.owed x
        ≡ p.owed x - cache_holds r.cache x - taken r.cache_block block x
  unfolding file_cache_destroy sys_free
  file_cache_destroy-owed p r =
      let closed = destroy_loop-owed r.cache ok p in
      elim (Option-cases r.cache_block) [
        | inl never ↦ rw never (omega (arith, closed))
        | inr (old, had) ↦ rw had (omega (arith, closed))
      ]
