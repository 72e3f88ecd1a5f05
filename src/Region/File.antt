-- ===== src/Region/File.antt =====
-- Files: src/region/platform/unix/file.c. The handle is the struct that it points to, with the
-- address of its block; no two handles point to one struct. The messages are left out.
pub mod Balance
pub mod Truncate
use libclod.Prelude.{
  ℕ, ◌+◌, ◌-◌, Bool, true, false, not, ◌&&◌, ◌==◌, ltb, Option, none, some, if◌then◌else◌, if_null,
}
use libclod.Region.Options.{RegionOpts}
use libclod.Region.System.{
  ok, invalid_usage, not_found, Resource, descriptor, mapping, block, one, OpenFlags, OpenAnswer,
  opened, refused, Os, Process, sys_openat, sys_size, sys_mmap, sys_munmap, sys_ftruncate,
  sys_mremap, sys_close, sys_malloc, sys_free,
}

-- `struct file`; a `map` of `none` is the null pointer.
pub record File : Type 0 where
  pub address : ℕ
  pub map : Option ℕ
  pub size : ℕ
  pub fd : ℕ
  pub writeable : Bool

abbrev pub map_of : Option ℕ → ℕ → Resource → ℕ
map_of none size x = 0
map_of (some a) size x = one (mapping a size) x

-- `map != nullptr`
abbrev pub is_mapped : Option ℕ → Bool
is_mapped none = false
is_mapped (some a) = true

-- What an open file has to give back.
abbrev pub holds : File → Resource → ℕ
holds f x = one (descriptor f.fd) x + map_of f.map f.size x + one (block f.address) x

-- `CLOD_REGION_MODE_RDWR`
abbrev pub mode_rdwr : ℕ
mode_rdwr = 2

abbrev open_flags : RegionOpts → Bool → OpenFlags
open_flags opts create = record {
  rdwr = opts.mode == mode_rdwr;
  rdonly = opts.mode == 1;
  creat = create;
}

-- `opts->unix_file_perms`, or 0664
abbrev open_mode : RegionOpts → ℕ
open_mode opts = if opts.unix_file_perms == 0 then 436 else opts.unix_file_perms

-- A result, and what a pointer to the caller's variable received, if anything.
abbrev pub Got : Type 0 → Type 0 → Type 0
Got A W = ℕ × Option A × Process W

abbrev pub refuse : {A W : Type 0} → ℕ → Process W → Got A W
refuse result p = (result, none, p)

abbrev pub if_opened : {A : Type 0} → OpenAnswer → (ℕ → A) → (ℕ → A) → A
if_opened (opened fd) f g = f fd
if_opened (refused errno) f g = g errno

module _ {W : Type 0} (os : Os W) where
  -- `if (size > 0) munmap(map, size); close(fd)`
  unfoldable pub file_undo : Process W → Option ℕ → ℕ → ℕ → Process W
  file_undo p map size fd = (sys_close os (if_null map p (λ a. (sys_munmap os p a size).1)) fd).1

  -- From the allocation of the struct on.
  unfoldable pub file_store : Process W → Bool → ℕ → Option ℕ → ℕ → Got File W
  file_store p write fd map size =
      let (allocated, p1) = sys_malloc os p os.sizeof_file in
      if_null allocated (refuse invalid_usage (file_undo p1 map size fd)) (λ a.
        (ok, some (record { address = a; map = map; size = size; fd = fd; writeable = write }), p1))

  -- From the mapping on: an empty file is not mapped.
  unfoldable pub file_map : Process W → Bool → ℕ → ℕ → Got File W
  file_map p write fd size =
      let (mapped, p1) = sys_mmap os p size write fd in
      if ltb 0 size
      then if_null mapped (refuse invalid_usage ((sys_close os p1 fd).1))
          (λ a. file_store p1 write fd (some a) size)
      else file_store p write fd none size

  -- With the descriptor open.
  unfoldable pub file_measure : Process W → Bool → ℕ → Got File W
  file_measure p write fd =
      let (measured, p1) = sys_size os p fd in
      if_null measured (refuse invalid_usage ((sys_close os p1 fd).1))
        (λ size. file_map p1 write fd size)

  -- `file_open(f, d, name, create, opts)`
  unfoldable pub file_open : Process W → ℕ → (ℕ → ℕ) → Bool → RegionOpts → Got File W
  file_open p d name create opts =
      let (answer, p1) = sys_openat os p d name (open_flags opts create) (open_mode opts) in
      if_opened answer (λ fd. file_measure p1 (opts.mode == mode_rdwr) fd)
        (λ errno. refuse (if not create && errno == os.enoent then not_found else invalid_usage) p1)

  -- `file_get(f, data, size)`: the mapping and its size.
  unfoldable pub file_get : File → ℕ × Option ℕ × ℕ
  file_get f = (ok, f.map, f.size)

  -- The new mapping of `file_truncate`: `CLOD_REGION_INVALID_USAGE`, or `true`.
  unfoldable pub file_map_again : Process W → File → ℕ × File × Process W
  file_map_again p f =
      let (mapped, p1) = sys_mmap os p f.size f.writeable f.fd in
      if ltb 0 f.size
      then if_null mapped (invalid_usage, record f { map = none }, p1)
          (λ a. (1, record f { map = some a }, p1))
      else (1, f, p)

  -- After `ftruncate`, without `mremap`. `f` has the new size.
  unfoldable pub file_remap : Process W → File → ℕ → ℕ × File × Process W
  file_remap p f old_size =
      if_null f.map (file_map_again p f)
        (λ a. file_map_again ((sys_munmap os p a old_size).1) (record f { map = none }))

  -- After `ftruncate`, with `mremap`, for a file that is mapped and stays so.
  unfoldable pub file_move : Process W → File → ℕ → ℕ → ℕ × File × Process W
  file_move p f a old_size =
      let (moved_to, p1) = sys_mremap os p a old_size f.size in
      if_null moved_to (invalid_usage, record f { map = none }, p1)
        (λ b. (ok, record f { map = some b }, p1))

  unfoldable pub file_resize : Process W → File → ℕ → ℕ × File × Process W
  file_resize p f old_size =
      if os.have_mremap && ltb 0 f.size
      then if_null f.map (file_remap p f old_size) (λ a. file_move p f a old_size)
      else file_remap p f old_size

  -- `file_truncate(f, new_size)`: `none` where the assertion fails that a mapped file is not empty,
  -- which both ways of mapping it anew test first.
  unfoldable pub file_truncate : Process W → File → ℕ → Option (ℕ × File × Process W)
  file_truncate p f new_size =
      let (failed, p1) = sys_ftruncate os p f.fd new_size in
      if f.size == new_size
      then some (ok, f, p)
      else if failed
      then some (invalid_usage, f, p1)
      else if f.size == 0 && is_mapped f.map
      then none
      else some (file_resize p1 (record f { size = new_size }) f.size)

  -- `file->map && munmap(file->map, file->size)`
  unfoldable pub file_unmap : Process W → Option ℕ → ℕ → Bool × Process W
  file_unmap p none size = (false, p)
  file_unmap p (some a) size = sys_munmap os p a size

  -- `file_close(f)`
  unfoldable pub file_close : Process W → File → ℕ × Process W
  file_close p f =
      let (not_unmapped, p1) = file_unmap p f.map f.size in
      let (not_closed, p2) = sys_close os p1 f.fd in
      let res = if not_closed then invalid_usage else if not_unmapped then invalid_usage else ok in
      (res, sys_free os p2 f.address)
