-- ===== src/Region/RegionFile/Balance.antt =====
-- What `region_file_open` and `region_file_close` of src/region/region_file.c take and give back.
use libclod.Prelude.{
  ℕ, ◌+◌, ◌-◌, ◌≡◌, refl, arith, Bool, true, false, ◌==◌, List, ℤ, if_null_both, Every,
  Option-cases, inl, inr, take,
}
use libclod.Region.Filename.{filename_make}
use libclod.Region.Options.{RegionOpts}
use libclod.Region.System.{ok, Resource, Os, Process, sys_malloc, sys_free, sys_malloc-owed}
use libclod.Region.File.{File, holds, file_open}
use libclod.Region.File.Balance.{IsSettled, file_open-IsSettled, file_close-owed}
use libclod.Region.RegionFile

module _ {W : Type 0} (os : Os W) (x : Resource) where
  -- `region_file_close` gives back what the file and its struct hold.
  pub region_file_close-owed :
      (p : Process W) (rf : RegionFile.RegionFile)
      → (RegionFile.region_file_close os p rf).1.owed x
        ≡ p.owed x - RegionFile.region_file_holds rf x
  unfolding RegionFile.region_file_close sys_free
  region_file_close-owed p rf = omega (arith, file_close-owed os x p rf.f)

  -- From a file that was not owed in `p0`.
  store-IsSettled :
      (p0 p : Process W) (f : File)
      → p.owed x ≡ p0.owed x + holds f x
      → IsSettled RegionFile.region_file_holds p0 x (RegionFile.region_file_store os p f)
  unfolding RegionFile.region_file_store IsSettled
  store-IsSettled p0 p f before =
      let owed = sys_malloc-owed os p x os.sizeof_region_file in
      elim (Option-cases ((sys_malloc os p os.sizeof_region_file).0)) [
        | inl failed ↦
            let owed' = rw failed at owed in
            let closed = file_close-owed os x ((sys_malloc os p os.sizeof_region_file).1) f in
            rw failed (omega (arith, owed', closed, before), refl)
        | inr (a, allocated) ↦
            let owed' = rw allocated at owed in rw allocated (omega (arith, owed', before), refl)
      ]

  named-IsSettled :
      (p : Process W) (d : ℕ) (opts : RegionOpts) (filename : ℕ → ℕ) (create : Bool)
      → IsSettled RegionFile.region_file_holds p x
          (RegionFile.region_file_named os p d opts filename create)
  unfolding RegionFile.region_file_named IsSettled
  named-IsSettled p d opts filename create =
      let (owed, agrees) = file_open-IsSettled os x p d filename create opts in
      let out = file_open os p d filename create opts in
      elim (Option-cases out.1) [
        | inl nothing ↦
            let owed' = rw nothing at owed in
            let agrees' : (out.0 == ok) ≡ false = rw nothing at agrees in
            rw agrees' (omega (arith, owed'), agrees')
        | inr (f, got) ↦
            let owed' = rw got at owed in
            let agrees' : (out.0 == ok) ≡ true = rw got at agrees in
            rw (agrees', got) (store-IsSettled p out.2 f owed')
      ]

  -- Whatever the system answers, `region_file_open` leaves as much owed as before and, exactly with
  -- `CLOD_REGION_OK`, besides it what the region file that it returns holds.
  pub region_file_open-IsSettled :
      (print : ℤ → List ℕ) (p : Process W) (d : ℕ) (opts : RegionOpts) (at : List ℤ) (create : Bool)
      → Every
          (IsSettled RegionFile.region_file_holds p x)
          (RegionFile.region_file_open os print p d opts at create)
  unfolding RegionFile.region_file_open
  region_file_open-IsSettled print p d opts at create =
      if_null_both (Every (IsSettled RegionFile.region_file_holds p x))
        (filename_make print opts.prefix opts.region_ext (take opts.dims at)) tt
        (λ made e. named-IsSettled p d opts made.0 create)
