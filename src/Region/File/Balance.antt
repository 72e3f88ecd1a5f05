-- ===== src/Region/File/Balance.antt =====
-- What the operations of src/region/platform/unix/file.c take and give back.
use libclod.Prelude.{
  ℕ, ◌+◌, ◌-◌, ◌≡◌, refl, arith, Bool, true, false, Bool-cases, not, ◌&&◌, ◌==◌, ltb, Option, none,
  some, if◌then◌else◌, if_null_both, Option-cases, inl, inr,
}
use libclod.Region.Options.{RegionOpts}
use libclod.Region.System.{
  ok, Resource, descriptor, mapping, one, OpenAnswer, opened, refused, Os, Process, sys_openat,
  sys_free, took_opened, invalid_usage, not_found, sys_size, sys_mmap, sys_munmap, sys_close,
  sys_malloc, sys_malloc-owed, sys_mmap-owed,
}
use libclod.Region.File
use libclod.Region.File.{File}

abbrev pub is_some : {A : Type 0} → Option A → Bool
is_some none = false
is_some (some a) = true

-- What the result of a call holds, by what its value holds.
abbrev pub given : {A : Type 0} → (A → Resource → ℕ) → Option A → Resource → ℕ
given own none x = 0
given own (some a) x = own a x

-- Of the resource `x`, a call leaves as much owed as what it returns holds besides what was owed
-- before, and it returns something exactly with `CLOD_REGION_OK`.
unfoldable pub IsSettled :
    {A W : Type 0} → (A → Resource → ℕ) → Process W → Resource → File.Got A W → Type 0
IsSettled own p x r = (r.2.owed x ≡ p.owed x + given own r.1 x) × ((r.0 == ok) ≡ is_some r.1)

module _ {W : Type 0} (os : Os W) (x : Resource) where
  sys_munmap-owed :
      (p : Process W) (a size : ℕ)
      → (sys_munmap os p a size).1.owed x ≡ p.owed x - one (mapping a size) x
  unfolding sys_munmap
  sys_munmap-owed p a size = refl

  sys_close-owed :
      (p : Process W) (fd : ℕ) → (sys_close os p fd).1.owed x ≡ p.owed x - one (descriptor fd) x
  unfolding sys_close
  sys_close-owed p fd = refl

  file_undo-owed :
      (p : Process W) (map : Option ℕ) (size fd : ℕ)
      → (File.file_undo os p map size fd).owed x
        ≡ p.owed x - File.map_of map size x - one (descriptor fd) x
  unfolding File.file_undo sys_close sys_munmap
  file_undo-owed p none size fd = omega arith
  file_undo-owed p (some a) size fd = refl

  -- With a descriptor and a mapping that were not owed in `p0`.
  file_store-IsSettled :
      (p0 p : Process W) (write : Bool) (fd : ℕ) (map : Option ℕ) (size : ℕ)
      → p.owed x ≡ p0.owed x + one (descriptor fd) x + File.map_of map size x
      → IsSettled File.holds p0 x (File.file_store os p write fd map size)
  unfolding File.file_store IsSettled
  file_store-IsSettled p0 p write fd map size before =
      let owed = sys_malloc-owed os p x os.sizeof_file in
      elim (Option-cases ((sys_malloc os p os.sizeof_file).0)) [
        | inl failed ↦
            let undone = file_undo-owed ((sys_malloc os p os.sizeof_file).1) map size fd in
            let owed' = rw failed at owed in rw failed (omega (arith, undone, owed', before), refl)
        | inr (a, allocated) ↦
            let owed' = rw allocated at owed in rw allocated (omega (arith, owed', before), refl)
      ]

  file_map-IsSettled :
      (p0 p : Process W) (write : Bool) (fd size : ℕ)
      → p.owed x ≡ p0.owed x + one (descriptor fd) x
      → IsSettled File.holds p0 x (File.file_map os p write fd size)
  unfolding File.file_map IsSettled
  file_map-IsSettled p0 p write fd size before =
      let owed = sys_mmap-owed os p x size write fd in
      let p1 = (sys_mmap os p size write fd).1 in
      let closed = sys_close-owed p1 fd in
      elim (Bool-cases (ltb 0 size)) [
        | inr empty ↦
            rw empty (file_store-IsSettled p0 p write fd none size (omega (arith, before)))
        | inl filled ↦ elim (Option-cases ((sys_mmap os p size write fd).0)) [
          | inl failed ↦
              let owed' = rw failed at owed in
              rw (filled, failed) (omega (arith, closed, owed', before), refl)
          | inr (a, mapped) ↦
              let owed' = rw mapped at owed in
              rw (filled, mapped)
                (file_store-IsSettled p0 p1 write fd (some a) size (omega (arith, owed', before)))
        ]
      ]

  file_measure-IsSettled :
      (p0 p : Process W) (write : Bool) (fd : ℕ)
      → p.owed x ≡ p0.owed x + one (descriptor fd) x
      → IsSettled File.holds p0 x (File.file_measure os p write fd)
  unfolding File.file_measure IsSettled sys_size
  file_measure-IsSettled p0 p write fd before =
      let P = IsSettled File.holds p0 x in
      let closed = sys_close-owed ((sys_size os p fd).1) fd in
      if_null_both P ((sys_size os p fd).0) (omega (arith, closed, before), refl)
        (λ size h. file_map-IsSettled p0 ((sys_size os p fd).1) write fd size before)

  opened-IsSettled :
      (p : Process W) (write refuses : Bool) (answer : OpenAnswer × W)
      → IsSettled File.holds p x (
          File.if_opened
            (took_opened p answer).0
            (λ fd. File.file_measure os (took_opened p answer).1 write fd)
            (λ errno.
              File.refuse
                (if not refuses && errno == os.enoent then not_found else invalid_usage)
                (took_opened p answer).1))
  unfolding IsSettled
  opened-IsSettled p write refuses (opened fd, w) = file_measure-IsSettled p _ write fd refl
  opened-IsSettled p write refuses (refused errno, w) =
      elim (Bool-cases (not refuses && errno == os.enoent)) [
        | inl missing ↦ rw missing (omega arith, refl)
        | inr other ↦ rw other (omega arith, refl)
      ]

  -- Whatever the system answers, `file_open` leaves as much owed as before and, exactly with
  -- `CLOD_REGION_OK`, besides it the descriptor, the mapping and the block of the file it returns.
  pub file_open-IsSettled :
      (p : Process W) (d : ℕ) (name : ℕ → ℕ) (create : Bool) (opts : RegionOpts)
      → IsSettled File.holds p x (File.file_open os p d name create opts)
  unfolding File.file_open sys_openat
  file_open-IsSettled p d name create opts =
      opened-IsSettled p (opts.mode == File.mode_rdwr) create (os.openat p.world d name _ _)

  -- `file_close` gives back what the file holds, also where it fails.
  pub file_close-owed :
      (p : Process W) (f : File) → (File.file_close os p f).1.owed x ≡ p.owed x - File.holds f x
  unfolding File.file_close File.file_unmap sys_close sys_munmap sys_free
  file_close-owed p f = elim (Option-cases f.map) [
    | inl unmapped ↦ rw unmapped (omega arith)
    | inr (a, mapped) ↦ rw mapped (omega arith)
  ]
