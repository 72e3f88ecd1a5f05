-- ===== src/Region/Handle/Balance.antt =====
-- What opening, reading and closing a region takes and gives back.
use libclod.Prelude.{
  ℕ, ◌+◌, ◌-◌, ◌^◌, ◌≤◌, ◌≡◌, ◌⊎◌, refl, arith, true, false, Bool-cases, ◌==◌, Option, none, some,
  List, ℤ, if_null_both, Every, Every-bind, Option-cases, inl, inr, ltb, if_both,
}
use libclod.Compression.Support.{Libraries}
use libclod.Region.Options.{RegionOpts, read_opts}
use libclod.Region.System.{
  ok, Resource, descriptor, block, one, taken, Os, Process, sys_malloc, sys_free, sys_malloc-owed,
  sys_open_directory, sys_open_directory-owed, sys_close,
}
use libclod.Region.File.{file_get}
use libclod.Region.File.Balance.{given}
use libclod.Region.Dir.{dir_open, dir_close, dir_at, dir_path}
use libclod.Region.Cache.{Region, Answer, region_file_get}
use libclod.Region.Cache.Balance.{region_holds, region_file_get-owed}
use libclod.Region.Cache.Destroyed.{file_cache_destroy-owed}
use libclod.Region.Handle

module _ {W : Type 0} (os : Os W) (x : Resource) where
  dir_open-owed :
      (p : Process W) (path : Option (ℕ → ℕ)) (opts : RegionOpts)
      → ((dir_open os p path opts).2.owed x
          ≡ p.owed x + taken (dir_open os p path opts).1 descriptor x)
        × (((dir_open os p path opts).0 ≡ ok) ⊎ ((dir_open os p path opts).1 ≡ none))
  unfolding dir_open
  dir_open-owed p path opts =
      let answer = sys_open_directory os p (dir_at opts.unix_fd) (dir_path path) in
      let owed = sys_open_directory-owed os p x (dir_at opts.unix_fd) (dir_path path) in
      elim (Option-cases answer.0) [
        | inl refused ↦ let owed' = rw refused at owed in rw refused (owed', inr refl)
        | inr (fd, opened) ↦ let owed' = rw opened at owed in rw opened (owed', inl refl)
      ]

  open_at-owed :
      (p0 p : Process W) (a : ℕ) (path : Option (ℕ → ℕ)) (opts : RegionOpts)
      → p.owed x ≡ p0.owed x + one (block a) x
      → (Handle.open_at os p a path opts).1.owed x
        ≡ p0.owed x + given region_holds (Handle.open_at os p a path opts).0 x
  unfolding Handle.open_at sys_free
  open_at-owed p0 p a path opts before =
      let (owed, agrees) = dir_open-owed p path opts in
      let out = dir_open os p path opts in
      elim (Option-cases out.1) [
        | inl nothing ↦
            let owed' = rw nothing at owed in
            elim (Bool-cases (out.0 == ok)) [
              | inl passed ↦ rw (passed, nothing) (omega (arith, owed', before))
              | inr failed ↦ rw failed (omega (arith, owed', before))
            ]
        | inr (fd, opened) ↦
            let owed' = rw opened at owed in
            let passed : (out.0 == ok) ≡ true = elim agrees [
              | inl done ↦ ground (arith, done)
              | inr nothing ↦ absurd (ground (arith, nothing, opened))
            ] in
            rw (passed, opened) (omega (arith, owed', before))
      ]

  -- Whatever the system answers, `clod_region_open` leaves as much owed as before and what the
  -- region that it returns holds, if it returns one.
  pub region_open-owed :
      (libs : Libraries) (p : Process W) (path : Option (ℕ → ℕ)) (src : RegionOpts)
      → (Handle.region_open os libs p path src).1.owed x
        ≡ p.owed x + given region_holds (Handle.region_open os libs p path src).0 x
  unfolding Handle.region_open Handle.open_with sys_free
  region_open-owed libs p path src =
      let owed = sys_malloc-owed os p x os.sizeof_region in
      let p1 = (sys_malloc os p os.sizeof_region).1 in
      let (accepted, opts) = read_opts libs Handle.zero_opts src in
      elim (Option-cases ((sys_malloc os p os.sizeof_region).0)) [
        | inl refused ↦ let owed' = rw refused at owed in rw refused owed'
        | inr (a, allocated) ↦
            let owed' = rw allocated at owed in
            elim (Bool-cases (accepted == 0)) [
              | inl refuses ↦ rw (allocated, refuses) (omega (arith, owed'))
              | inr passes ↦ rw (allocated, passes) (open_at-owed p p1 a path opts owed')
            ]
      ]

  -- A region that is not in use is closed, and everything that it holds given back, also where a
  -- call fails.
  pub region_close-owed :
      (p : Process W) (r : Region)
      → r.inside ≡ 0
      → (out : ℕ × Process W) × (Handle.region_close os p r ≡ some out)
        × (out.1.owed x ≡ p.owed x - region_holds r x)
  unfolding Handle.region_close Handle.close_all sys_free dir_close sys_close
  region_close-owed p r idle =
      let (dir_res, p1) = dir_close os p r.dir in
      let destroyed = file_cache_destroy-owed os x p1 r in
      (Handle.close_all os p r, rw idle refl, omega (arith, destroyed))

  -- What a read leaves owed, and what it keeps of the region: the options, the counter, the mutex.
  abbrev ReadKept : Process W → Region → ℕ × Region × Process W → Type 0
  ReadKept p r out = out.2.owed x + region_holds r x ≡ p.owed x + region_holds out.1 x

  leave_with-Kept :
      (p0 p : Process W) (r0 r : Region) (res : ℕ)
      → ReadKept p0 r0 (res, r, p)
      → Every (ReadKept p0 r0) (Handle.leave_with os res r p)
  unfolding Handle.leave_with Handle.public_leave
  leave_with-Kept p0 p r0 r res kept = elim (Bool-cases (ltb 0 r.inside)) [
    | inl used ↦ rw used kept
    | inr unused ↦ rw unused tt
  ]

  read_got-Kept :
      (p0 : Process W) (r0 : Region) (got : Answer W)
      → got.3.owed x + region_holds r0 x ≡ p0.owed x + region_holds got.2 x
      → Every (ReadKept p0 r0) (Handle.read_got os got)
  unfolding Handle.read_got Handle.read_file Handle.leave_with file_get
  read_got-Kept p0 r0 (res, rf, r, p) kept =
      let P = Every (ReadKept p0 r0) in
      if_both P (res == ok)
        (if_null_both P rf (leave_with-Kept p0 p r0 _ res kept)
          (λ file e. leave_with-Kept p0 _ r0 _ ok kept))
        (leave_with-Kept p0 p r0 _ res kept)

  -- `clod_region_read` changes what is owed as it changes what the region holds, if that was owed.
  pub region_read-owed :
      (print : ℤ → List ℕ) (p : Process W) (r : Region) (at : List ℤ)
      → region_holds r x ≤ p.owed x
      → Every (ReadKept p r) (Handle.region_read os print p r at)
  unfolding Handle.region_read Handle.public_enter
  region_read-owed print p r at owes = elim (Bool-cases (ltb (r.inside + 1) (2 ^ 31))) [
    | inr full ↦ rw full tt
    | inl room ↦
        let r1 : Region = record r { inside = r.inside + 1; locked = true } in
        rw room (
          Every-bind _ (ReadKept p r) (region_file_get os print p r1 at false) _
            (region_file_get-owed os x print p r1 at false owes)
            (λ got kept. read_got-Kept p r got kept))
  ]
