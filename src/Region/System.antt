-- ===== src/Region/System.antt =====
-- The operating system and the C library under src/region, as functions from a state of the world,
-- and what the library owes them: descriptors to close, mappings to unmap, blocks to free.
use libclod.Prelude.{
  ℕ, ◌+◌, ◌-◌, ◌≡◌, refl, arith, Bool, false, ◌&&◌, ◌==◌, Option, none, some, ℤ, to_nat,
  if◌then◌else◌, if_null,
}

-- `enum clod_region_result` of include/clod/region.h, by the numbers of the enumerators
abbrev pub ok : ℕ
ok = 0

abbrev pub invalid_usage : ℕ
invalid_usage = 1

abbrev pub not_found : ℕ
not_found = 3

-- What has to be given back: a descriptor, a mapping with its size, a block of `malloc`, the stream
-- of a directory.
pub data Resource : Type 0 where
  descriptor : ℕ → Resource
  mapping : ℕ → ℕ → Resource
  block : ℕ → Resource
  stream : ℕ → Resource

abbrev pub same : Resource → Resource → Bool
same (descriptor a) (descriptor b) = a == b
same (mapping a m) (mapping b n) = a == b && m == n
same (block a) (block b) = a == b
same (stream a) (stream b) = a == b
same _ _ = false

-- One of `r`, where `x` is asked for.
abbrev pub one : Resource → Resource → ℕ
one r x = to_nat (same r x)

-- The resource of an answer, if there is one.
abbrev pub taken : Option ℕ → (ℕ → Resource) → Resource → ℕ
taken none r x = 0
taken (some a) r x = one (r a) x

-- `O_RDWR`, `O_RDONLY` and `O_CREAT`, each set or not
pub record OpenFlags : Type 0 where
  pub rdwr : Bool
  pub rdonly : Bool
  pub creat : Bool

-- `struct timespec`
pub record Timespec : Type 0 where
  pub tv_sec : ℤ
  pub tv_nsec : ℤ

-- What `readdir` answers: the end, a failure, or the name of an entry with `d_type`, where
-- `some true` is `DT_REG`, `some false` another type and `none` is `DT_UNKNOWN`.
pub data DirAnswer : Type 0 where
  dir_end : DirAnswer
  dir_failed : DirAnswer
  dir_entry : (ℕ → ℕ) → Option Bool → DirAnswer

-- A descriptor, or `errno`.
pub data OpenAnswer : Type 0 where
  opened : ℕ → OpenAnswer
  refused : ℕ → OpenAnswer

-- The calls. `true` is a failure where an int is tested; `none` is a null pointer, `MAP_FAILED` or a
-- failure; an address that a call gives is not null. `have_statx` and `have_mremap` are the tests
-- of the build, and the sizes are those of its structs. `more_procs` is how many processors there are
-- besides the first, of which `get_nprocs` counts them all.
pub record Os (W : Type 0) : Type 0 where
  pub enoent : ℕ
  pub have_statx : Bool
  pub have_mremap : Bool
  pub sizeof_file : ℕ
  pub sizeof_region_file : ℕ
  pub sizeof_region : ℕ
  pub openat : W → ℕ → (ℕ → ℕ) → OpenFlags → ℕ → OpenAnswer × W
  pub open_directory : W → Option ℤ → (ℕ → ℕ) → Option ℕ × W
  pub have_d_type : Bool
  pub dup : W → ℕ → Option ℕ × W
  pub fdopendir : W → ℕ → Option ℕ × W
  pub closedir : W → ℕ → Bool × W
  pub readdir : W → ℕ → DirAnswer × W
  pub dirfd : W → ℕ → Option ℕ × W
  pub is_regular : W → ℕ → (ℕ → ℕ) → Option Bool × W
  pub renameat : W → ℕ → (ℕ → ℕ) → (ℕ → ℕ) → Bool × W
  pub statx : W → ℕ → Option ℕ × W
  pub fstat : W → ℕ → Option ℕ × W
  pub mmap : W → ℕ → Bool → ℕ → Option ℕ × W
  pub munmap : W → ℕ → ℕ → Bool × W
  pub mremap : W → ℕ → ℕ → ℕ → Option ℕ × W
  pub ftruncate : W → ℕ → ℕ → Bool × W
  pub close : W → ℕ → Bool × W
  pub malloc : W → ℕ → Option ℕ × W
  pub free : W → ℕ → W
  pub monotonic_now : W → Option Timespec × W
  pub more_procs : W → ℕ × W

-- The world; how many of each resource were taken and not given back; how often the lock of the
-- region file at an address is held for reading; the static `cache_max` of src/region/file_cache.c.
pub record Process (W : Type 0) : Type 0 where
  pub world : W
  pub owed : Resource → ℕ
  pub readers : ℕ → ℕ
  pub cache_max : ℕ

module _ {W : Type 0} where
  abbrev pub took : Process W → W → (Resource → ℕ) → Process W
  took p w more = record p { world = w; owed = λ x. p.owed x + more x }

  abbrev pub gave : Process W → W → (Resource → ℕ) → Process W
  gave p w less = record p { world = w; owed = λ x. p.owed x - less x }

  abbrev pub moved : Process W → W → Process W
  moved p w = record p { world = w }

  -- The resource that an answer holds, if it holds one.
  abbrev pub took_some : Process W → Option ℕ × W → (ℕ → Resource) → Option ℕ × Process W
  took_some p (none, w) r = (none, moved p w)
  took_some p (some a, w) r = (some a, took p w (one (r a)))

  abbrev pub took_opened : Process W → OpenAnswer × W → OpenAnswer × Process W
  took_opened p (opened fd, w) = (opened fd, took p w (one (descriptor fd)))
  took_opened p (refused errno, w) = (refused errno, moved p w)

  module _ (os : Os W) where
    unfoldable pub sys_openat : Process W → ℕ → (ℕ → ℕ) → OpenFlags → ℕ → OpenAnswer × Process W
    sys_openat p dir name flags mode = took_opened p (os.openat p.world dir name flags mode)

    unfoldable pub sys_open_directory : Process W → Option ℤ → (ℕ → ℕ) → Option ℕ × Process W
    sys_open_directory p at path = took_some p (os.open_directory p.world at path) descriptor

    -- The size of a file, by the call that the build has.
    unfoldable pub sys_size : Process W → ℕ → Option ℕ × Process W
    sys_size p fd =
        let (size, w) = if os.have_statx then os.statx p.world fd else os.fstat p.world fd in
        (size, moved p w)

    unfoldable pub sys_mmap : Process W → ℕ → Bool → ℕ → Option ℕ × Process W
    sys_mmap p size write fd = took_some p (os.mmap p.world size write fd) (λ a. mapping a size)

    unfoldable pub sys_munmap : Process W → ℕ → ℕ → Bool × Process W
    sys_munmap p map size =
        let (failed, w) = os.munmap p.world map size in (failed, gave p w (one (mapping map size)))

    unfoldable pub sys_ftruncate : Process W → ℕ → ℕ → Bool × Process W
    sys_ftruncate p fd size = let (failed, w) = os.ftruncate p.world fd size in (failed, moved p w)

    -- The mapping moves on success, and stays otherwise.
    unfoldable pub sys_mremap : Process W → ℕ → ℕ → ℕ → Option ℕ × Process W
    sys_mremap p map old new =
        let (answer, w) = os.mremap p.world map old new in
        if_null answer (none, moved p w)
          (λ a. (some a, took (gave p w (one (mapping map old))) w (one (mapping a new))))

    -- A descriptor is not owed any more after a `close`, whatever it answers.
    unfoldable pub sys_close : Process W → ℕ → Bool × Process W
    sys_close p fd =
        let (failed, w) = os.close p.world fd in (failed, gave p w (one (descriptor fd)))

    unfoldable pub sys_malloc : Process W → ℕ → Option ℕ × Process W
    sys_malloc p size = took_some p (os.malloc p.world size) block

    unfoldable pub sys_free : Process W → ℕ → Process W
    sys_free p a = gave p (os.free p.world a) (one (block a))

    -- What the calls add to what is owed.
    module _ (p : Process W) (x : Resource) where
      pub took_some-owed :
          (answer : Option ℕ × W) (r : ℕ → Resource)
          → (took_some p answer r).1.owed x ≡ p.owed x + taken (took_some p answer r).0 r x
      took_some-owed (none, w) r = omega arith
      took_some-owed (some a, w) r = refl

      pub sys_malloc-owed :
          (size : ℕ) → (sys_malloc p size).1.owed x ≡ p.owed x + taken (sys_malloc p size).0 block x
      unfolding sys_malloc
      sys_malloc-owed size = took_some-owed (os.malloc p.world size) block

      pub sys_mmap-owed :
          (size : ℕ) (write : Bool) (fd : ℕ)
          → (sys_mmap p size write fd).1.owed x
            ≡ p.owed x + taken (sys_mmap p size write fd).0 (λ a. mapping a size) x
      unfolding sys_mmap
      sys_mmap-owed size write fd = took_some-owed (os.mmap p.world size write fd) _

      pub sys_open_directory-owed :
          (at : Option ℤ) (path : ℕ → ℕ)
          → (sys_open_directory p at path).1.owed x
            ≡ p.owed x + taken (sys_open_directory p at path).0 descriptor x
      unfolding sys_open_directory
      sys_open_directory-owed at path =
          took_some-owed (os.open_directory p.world at path) descriptor
