-- ===== src/Region/RegionFile.antt =====
-- The files of regions: src/region/region_file.c. The handle is the struct that it points to, with
-- the address of its block, by which its lock is known.
pub mod Balance
use libclod.Prelude.{
  ℕ, ◌+◌, Bool, Option, none, some, ◌==◌, List, ℤ, set, take, if◌then◌else◌, if_null,
}
use libclod.Region.Filename.{filename_make}
use libclod.Region.Options.{RegionOpts}
use libclod.Region.System.{
  ok, invalid_usage, Resource, block, one, Os, Process, sys_malloc, sys_free,
}
use libclod.Region.File.{File, holds, Got, refuse, file_open, file_close}

-- `struct region_file`, less the lock
pub record RegionFile : Type 0 where
  pub address : ℕ
  pub f : File

abbrev pub region_file_holds : RegionFile → Resource → ℕ
region_file_holds rf x = holds rf.f x + one (block rf.address) x

module _ {W : Type 0} (os : Os W) where
  -- `rwmutex_init(&rf->mtx)`
  abbrev pub rwmutex_init : Process W → ℕ → Process W
  rwmutex_init p address = record p { readers = set p.readers address 0 }

  -- From the allocation of the struct on.
  unfoldable pub region_file_store : Process W → File → Got RegionFile W
  region_file_store p f =
      let (allocated, p1) = sys_malloc os p os.sizeof_region_file in
      if_null allocated (refuse invalid_usage ((file_close os p1 f).1))
        (λ a. (ok, some (record { address = a; f = f }), rwmutex_init p1 a))

  unfoldable pub region_file_named : Process W → ℕ → RegionOpts → (ℕ → ℕ) → Bool → Got RegionFile W
  region_file_named p d opts filename create =
      let (res, f, p1) = file_open os p d filename create opts in
      if res == ok
      then if_null f (refuse res p1) (λ file. region_file_store p1 file)
      else refuse res p1

  -- `region_file_close(f)`
  unfoldable pub region_file_close : Process W → RegionFile → ℕ × Process W
  region_file_close p rf = let (res, p1) = file_close os p rf.f in (res, sys_free os p1 rf.address)

  module _ (print : ℤ → List ℕ) where
    -- `region_file_open(r, rf_ptr, pos, create)` for the directory and the options of `r`; `none` if
    -- an assertion of `filename_make` fails. It stores a file exactly with `CLOD_REGION_OK`.
    unfoldable pub region_file_open :
        Process W → ℕ → RegionOpts → List ℤ → Bool → Option (Got RegionFile W)
    region_file_open p d opts pos create =
        if_null (filename_make print opts.prefix opts.region_ext (take opts.dims pos)) none
          (λ made. some (region_file_named p d opts made.0 create))
