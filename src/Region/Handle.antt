-- ===== src/Region/Handle.antt =====
-- Handles of regions: `clod_region_open` and `clod_region_close` of src/region/region_open.c and
-- `clod_region_read` of src/region/region_read.c. One thread calls them; the locks that it meets
-- are free or held for reading only.
pub mod Balance
pub mod Locks
pub mod Returns
pub mod Session
use libclod.Prelude.{
  ℕ, ◌+◌, ◌-◌, ◌^◌, Bool, true, false, ◌==◌, ltb, Option, none, some, List, [], ℤ, pos, set,
  if◌then◌else◌, if_null,
}
use libclod.Compression.Support.{Libraries}
use libclod.Region.Options.{RegionOpts, read_opts}
use libclod.Region.System.{ok, Resource, descriptor, block, one, Os, Process, sys_malloc, sys_free}
use libclod.Region.File.{Got, file_get}
use libclod.Region.Dir.{dir_open, dir_close}
use libclod.Region.RegionFile.{RegionFile}
use libclod.Region.Cache.{Region, Answer, region_file_get, file_cache_destroy}

-- The options after the `memset`
abbrev pub zero_opts : RegionOpts
zero_opts = record {
  version = 0;
  dims = 0;
  mode = 0;
  compression = 0;
  unix_fd = pos 0;
  unix_file_perms = 0;
  prefix = λ i. 0;
  region_ext = λ i. 0;
  chunk_ext = λ i. 0;
}

module _ {W : Type 0} (os : Os W) where
  -- From `dir_open` on, with the block of the region.
  unfoldable pub open_at : Process W → ℕ → Option (ℕ → ℕ) → RegionOpts → Option Region × Process W
  open_at p a path opts =
      let (res, d, p1) = dir_open os p path opts in
      if res == ok
      then if_null d (none, sys_free os p1 a)
          (λ dir. (
            some (record {
              address = a;
              opts = opts;
              inside = 0;
              locked = false;
              dir = dir;
              cache_block = none;
              cache = [];
            }),
            p1,
          ))
      else (none, sys_free os p1 a)

  -- From `read_opts` on.
  unfoldable pub open_with :
      Libraries → Process W → ℕ → Option (ℕ → ℕ) → RegionOpts → Option Region × Process W
  open_with libs p a path src =
      let (accepted, opts) = read_opts libs zero_opts src in
      if accepted == 0 then (none, sys_free os p a) else open_at p a path opts

  -- `clod_region_open(path, opts)`: `none` for a null pointer.
  unfoldable pub region_open :
      Libraries → Process W → Option (ℕ → ℕ) → RegionOpts → Option Region × Process W
  region_open libs p path src =
      let (allocated, p1) = sys_malloc os p os.sizeof_region in
      if_null allocated (none, p1) (λ a. open_with libs p1 a path src)

  -- The body of `clod_region_close`, after its test.
  unfoldable pub close_all : Process W → Region → ℕ × Process W
  close_all p r =
      let (dir_res, p1) = dir_close os p r.dir in
      let (fc_res, r1, p2) = file_cache_destroy os p1 r in
      (if dir_res == ok then fc_res else dir_res, sys_free os p2 r.address)

  -- `clod_region_close(r)`: `none` if it exits, since the region is in use.
  unfoldable pub region_close : Process W → Region → Option (ℕ × Process W)
  region_close p r = if r.inside == 0 then some (close_all p r) else none

  -- `REGION_PUBLIC_ENTER(region)`: `none` if the assertion on the counter fails.
  unfoldable pub public_enter : Region → Option Region
  public_enter r =
      if ltb (r.inside + 1) (2 ^ 31) then some (record r { inside = r.inside + 1 }) else none

  -- `REGION_PUBLIC_LEAVE(region)`
  unfoldable pub public_leave : Region → Option Region
  public_leave r = if ltb 0 r.inside then some (record r { inside = r.inside - 1 }) else none

  abbrev pub mutex_lock : Region → Region
  mutex_lock r = record r { locked = true }

  abbrev pub mutex_unlock : Region → Region
  mutex_unlock r = record r { locked = false }

  abbrev pub rwmutex_rdlock : Process W → ℕ → Process W
  rwmutex_rdlock p a = record p { readers = set p.readers a (p.readers a + 1) }

  abbrev pub rwmutex_rdunlock : Process W → ℕ → Process W
  rwmutex_rdunlock p a = record p { readers = set p.readers a (p.readers a - 1) }

  -- A result of `clod_region_read`, the region and the process.
  abbrev pub Read : Type 0
  Read = ℕ × Region × Process W

  -- `REGION_PUBLIC_LEAVE(region); return res`
  unfoldable pub leave_with : ℕ → Region → Process W → Option Read
  leave_with res r p = if_null (public_leave r) none (λ left. some (res, left, p))

  -- With the file: the lock for reading is taken and, on success, stays.
  unfoldable pub read_file : RegionFile → Region → Process W → Option Read
  read_file rf r p =
      let p1 = rwmutex_rdlock p rf.address in
      let (res, map, size) = file_get os rf.f in
      if res == ok
      then leave_with res (mutex_unlock r) p1
      else leave_with res (mutex_unlock r) (rwmutex_rdunlock p1 rf.address)

  -- What follows `region_file_get`.
  unfoldable pub read_got : Answer W → Option Read
  read_got (res, rf, r, p) =
      if res == ok
      then if_null rf (leave_with res (mutex_unlock r) p) (λ file. read_file file r p)
      else leave_with res (mutex_unlock r) p

  -- `clod_region_read(region, pos, buff, buff_size, size)`, which uses neither of the last three;
  -- `none` if an assertion fails.
  unfoldable pub region_read : (ℤ → List ℕ) → Process W → Region → List ℤ → Option Read
  region_read print p r at = if_null (public_enter r) none (λ entered.
      if_null (region_file_get os print p (mutex_lock entered) at false) none (λ got. read_got got))
