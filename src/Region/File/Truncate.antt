-- ===== src/Region/File/Truncate.antt =====
-- What `file_truncate` of src/region/platform/unix/file.c makes of a file.
use libclod.Prelude.{
  ◌<◌, some, ℕ, ◌+◌, ◌≡◌, ◌≢◌, ◌⊎◌, refl, arith, true, false, Bool-cases, ◌==◌, ◌&&◌, ltb, none,
  Option-cases, inl, inr,
}
use libclod.Region.System.{
  invalid_usage, Resource, Os, Process, sys_mmap, sys_munmap, sys_ftruncate,
}
use libclod.Region.File
use libclod.Region.File.{File, is_mapped}

module _ {W : Type 0} (os : Os W) (x : Resource) where
  -- What is owed changes as what the file holds.
  abbrev pub Kept : Process W → File → ℕ × File × Process W → Type 0
  Kept p f r = r.2.owed x + File.holds f x ≡ p.owed x + File.holds r.1 x

  -- What remains of a mapping that `mremap` refused to move, in the world `w`: the file has lost it,
  -- and nothing was given back for it.
  abbrev pub Loses : Process W → File → ℕ → W → ℕ × File × Process W → Type 0
  Loses p f new_size w r =
      (os.have_mremap ≡ true)
      × ((a : ℕ) × (f.map ≡ some a) × ((os.mremap w a f.size new_size).0 ≡ none))
      × (r.0 ≡ invalid_usage)
      × (r.1 ≡ record f { size = new_size; map = none })
      × (r.2.owed x ≡ p.owed x)

module _ {W : Type 0} (os : Os W) where
  map_again_one : (p : Process W) (f : File) → (File.file_map_again os p f).0 ≡ 1
  unfolding File.file_map_again
  map_again_one p f = elim (Bool-cases (ltb 0 f.size)) [
    | inr empty ↦ rw empty refl
    | inl filled ↦ elim (Option-cases ((sys_mmap os p f.size f.writeable f.fd).0)) [
      | inl failed ↦ rw (filled, failed) refl
      | inr (a, mapped) ↦ rw (filled, mapped) refl
    ]
  ]

  remap_one : (p : Process W) (f : File) (old : ℕ) → (File.file_remap os p f old).0 ≡ 1
  unfolding File.file_remap
  remap_one p f old = elim (Option-cases f.map) [
    | inl unmapped ↦ rw unmapped (map_again_one p (record f { map = none }))
    | inr (a, mapped) ↦
        rw mapped (map_again_one ((sys_munmap os p a old).1) (record f { map = none }))
  ]

  -- In a build without `mremap`, `file_truncate` to another size of a file that is not both mapped and
  -- empty returns 1, the number of `CLOD_REGION_INVALID_USAGE`, whatever the system answers.
  pub file_truncate_one :
      (p : Process W) (f : File) (new_size : ℕ)
      → os.have_mremap ≡ false
      → f.size ≢ new_size
      → (f.map ≡ none) ⊎ (0 < f.size)
      → (r : ℕ × File × Process W) × (File.file_truncate os p f new_size ≡ some r) × (r.0 ≡ 1)
  unfolding File.file_truncate File.file_resize sys_ftruncate
  file_truncate_one p f new_size without differs whole =
      let changed : f.size == new_size ≡ false = ground (arith, differs) in
      let tested : os.have_mremap && ltb 0 new_size ≡ false = ground (arith, without) in
      let holds : f.size == 0 && is_mapped f.map ≡ false = elim whole [
        | inl unmapped ↦ rw unmapped (ground arith)
        | inr filled ↦ ground (arith, filled)
      ] in
      elim (Bool-cases ((os.ftruncate p.world f.fd new_size).0)) [
        | inl failed ↦ rw (changed, failed) (_, refl, refl)
        | inr done ↦
            rw (changed, done, holds, tested)
              (_, refl, remap_one _ (record f { size = new_size }) f.size)
      ]
