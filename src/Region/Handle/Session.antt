-- ===== src/Region/Handle/Session.antt =====
-- A whole use of a region: `clod_region_open`, any number of `clod_region_read`, `clod_region_close`.
use libclod.Prelude.{
  ℕ, ◌+◌, ◌≤◌, ◌≡◌, refl, ◌∙◌, arith, ◌==◌, Option, none, some, List, [], ◌∷◌, ℤ, if_null,
  if_null_both, Every, if_both, take, length,
}
use libclod.Compression.Support.{Libraries}
use libclod.Region.Options.{RegionOpts, read_opts}
use libclod.Region.System.{ok, Resource, Os, Process, sys_malloc}
use libclod.Region.Dir.{dir_open}
use libclod.Region.File.Balance.{given}
use libclod.Region.Cache.{Region}
use libclod.Region.Cache.Unique.{IsUnique}
use libclod.Region.Cache.Balance.{region_holds}
use libclod.Region.Handle
use libclod.Region.Handle.Balance.{region_open-owed, region_read-owed, region_close-owed}
use libclod.Region.Handle.Locks.{Leaves, region_read-Leaves}
use libclod.Region.FewDimensions.{read_opts_few}
use libclod.Region.Handle.Returns.{Every-at, region_read-Returns}

-- A region that no call is inside of, with few coordinates and its positions apart.
record Idle (r : Region) : Type 0 where
  unused : r.inside ≡ 0
  few : r.opts.dims ≤ 10
  unique : IsUnique r.cache

module _ {W : Type 0} (os : Os W) (print : ℤ → List ℕ) where
  -- `clod_region_read` at each of the positions.
  unfoldable pub run_reads : Process W → Region → List (List ℤ) → Option (Region × Process W)
  run_reads p r [] = some (r, p)
  run_reads p r (at ∷ more) =
      if_null (Handle.region_read os print p r at) none (λ out. run_reads out.2 out.1 more)

  -- From the opened region to `clod_region_close`.
  unfoldable pub use_region : Option Region → Process W → List (List ℤ) → Option (Process W)
  use_region none p ats = some p
  use_region (some r) p ats =
      if_null (run_reads p r ats) none
        (λ left. if_null (Handle.region_close os left.1 left.0) none (λ closed. some closed.1))

  -- From `clod_region_open` to `clod_region_close`, with reads at the positions between them.
  unfoldable pub session :
      Libraries → Process W → Option (ℕ → ℕ) → RegionOpts → List (List ℤ) → Option (Process W)
  session libs p path src ats =
      let (r, p1) = Handle.region_open os libs p path src in use_region r p1 ats

module _ {W : Type 0} (os : Os W) (print : ℤ → List ℕ)
    (short : (z : ℤ) → length (print z) ≤ 20) where
  run_reads-Idle :
      (x : Resource) (ats : List (List ℤ)) (p : Process W) (r : Region)
      → Idle r
      → region_holds r x ≤ p.owed x
      → (out : Region × Process W) × (run_reads os print p r ats ≡ some out)
        × (out.1.owed x + region_holds r x ≡ p.owed x + region_holds out.0 x)
        × Idle out.0
  unfolding run_reads
  run_reads-Idle x [] p r idle owes = ((r, p), refl, refl, idle)
  run_reads-Idle x (at ∷ more) p r idle owes =
      let (read, e) = region_read-Returns os print short p r at idle.unused idle.few in
      let call = Handle.region_read os print p r at in
      let kept = Every-at _ call read (region_read-owed os x print p r at owes) e in
      let (inside, locked, opts, unique, rest) =
        Every-at (Leaves r (take r.opts.dims at)) call read
          (region_read-Leaves os print p r at idle.unique) e in
      let idle1 : Idle read.1 = record {
        unused = inside ∙ idle.unused;
        few = rw opts idle.few;
        unique = unique;
      } in
      let (out, all, owed, last) =
        run_reads-Idle x more read.2 read.1 idle1 (omega (arith, kept, owes)) in
      (out, rw e all, omega (arith, kept, owed), last)

  abbrev Good : Option Region × Process W → Type 0
  Good out = Every Idle out.0

  open_at-Idle :
      (p : Process W) (a : ℕ) (path : Option (ℕ → ℕ)) (opts : RegionOpts)
      → opts.dims ≤ 10
      → Every Idle (Handle.open_at os p a path opts).0
  unfolding Handle.open_at IsUnique
  open_at-Idle p a path opts few =
      let out = dir_open os p path opts in
      if_both Good (out.0 == ok)
        (if_null_both Good out.1 tt (λ d e. record { unused = refl; few = few; unique = tt })) tt

  region_open-Idle :
      (libs : Libraries) (p : Process W) (path : Option (ℕ → ℕ)) (src : RegionOpts)
      → Every Idle (Handle.region_open os libs p path src).0
  unfolding Handle.region_open Handle.open_with
  region_open-Idle libs p path src =
      let (accepted, opts) = read_opts libs Handle.zero_opts src in
      if_null_both Good ((sys_malloc os p os.sizeof_region).0) tt (λ a e.
        if_both Good (accepted == 0) tt
          (open_at-Idle _ a path opts (read_opts_few libs Handle.zero_opts src (omega arith))))

  -- From what was owed before the region was opened.
  use_region-owed :
      (x : Resource) (before : ℕ) (r : Option Region) (p : Process W) (ats : List (List ℤ))
      → Every Idle r
      → p.owed x ≡ before + given region_holds r x
      → (p1 : Process W) × (use_region os print r p ats ≡ some p1) × (p1.owed x ≡ before)
  unfolding use_region
  use_region-owed x before none p ats idle owed = (p, refl, omega (arith, owed))
  use_region-owed x before (some r) p ats idle owed =
      let (left, run, kept, last) = run_reads-Idle x ats p r idle (omega (arith, owed)) in
      let (closed, ends, back) = region_close-owed os x left.1 left.0 last.unused in
      (closed.1, rw (run, ends) refl, omega (arith, owed, kept, back))

  -- If the text of a coordinate takes at most 20 characters, then whatever the system answers, a region
  -- that is opened, read at any positions and closed comes to an end without a failed assertion or an
  -- exit, and as much of every resource is owed then as before.
  pub session-owed :
      (x : Resource) (libs : Libraries) (p : Process W) (path : Option (ℕ → ℕ)) (src : RegionOpts)
      (ats : List (List ℤ))
      → (p1 : Process W) × (session os print libs p path src ats ≡ some p1) × (p1.owed x ≡ p.owed x)
  unfolding session
  session-owed x libs p path src ats =
      let (r, p1) = Handle.region_open os libs p path src in
      use_region-owed x (p.owed x) r p1 ats (region_open-Idle libs p path src)
        (region_open-owed os x libs p path src)
