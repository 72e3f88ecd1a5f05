-- ===== src/Region/Handle/Returns.antt =====
-- That `clod_region_read` of src/region/region_read.c returns: no assertion fails.
use libclod.Prelude.{
  ℕ, suc, ◌+◌, ◌^◌, ◌≤◌, ◌≡◌, refl, sym, arith, Bool, true, false, ◌==◌, Option, none, some, List,
  ℤ, if_null, if_null_both, Every, ltb, take, length, length-take, if◌then◌else◌,
}
use libclod.Region.Options.{RegionOpts}
use libclod.Region.Filename.Length.{filename_make-fits}
use libclod.Region.System.{ok, Os, Process, Timespec}
use libclod.Region.RegionFile.{region_file_open, region_file_named}
use libclod.Region.Cache.{
  Region, Answer, Searched, found, failed, missed, after_search, get_at, region_file_get,
}
use libclod.Region.Handle
use libclod.Region.Handle.Locks.{KeepsRegion, region_file_get-KeepsRegion}

-- The call returns, so that no assertion failed.
abbrev pub Returns : {A : Type 0} → Option A → Type 0
Returns {A} o = (a : A) × (o ≡ some a)

then-Returns :
    {A B : Type 0} (o : Option A) (f : A → Option B)
    → Returns o
    → ((a : A) → o ≡ some a → Returns (f a))
    → Returns (if_null o none f)
then-Returns none f (a, e) next = absurd (ground (arith, e))
then-Returns (some a) f has next = next a refl

if-Returns :
    {A : Type 0} (b : Bool) (x y : Option A) → Returns x → Returns y → Returns (if b then x else y)
if-Returns true x y hx hy = hx
if-Returns false x y hx hy = hy

pub Every-at : {A : Type 0} (P : A → Type 0) (o : Option A) (a : A) → Every P o → o ≡ some a → P a
Every-at P none a h e = absurd (ground (arith, e))
Every-at P (some b) a h e = let same : b ≡ a = cc e in rw (sym same) h

module _ {W : Type 0} (os : Os W) (print : ℤ → List ℕ)
    (short : (z : ℤ) → length (print z) ≤ 20) where
  region_file_open-Returns :
      (p : Process W) (d : ℕ) (opts : RegionOpts) (at : List ℤ) (create : Bool)
      → opts.dims ≤ 10
      → Returns (region_file_open os print p d opts at create)
  unfolding region_file_open
  region_file_open-Returns p d opts at create few =
      let short_list : length (take opts.dims at) ≤ 10 =
        omega (arith, length-take opts.dims at, few) in
      let (name, len, made, fits) =
        filename_make-fits print short opts.prefix opts.region_ext (take opts.dims at) short_list in
      (region_file_named os p d opts name create, rw made refl)

  after_search-Returns :
      (r : Region) (at : List ℤ) (now : Timespec) (create : Bool) (out : Searched W)
      → r.opts.dims ≤ 10
      → Returns (after_search os print r at now create out)
  unfolding after_search
  after_search-Returns r at now create (found rf, fcs, p) few = (_, refl)
  after_search-Returns r at now create (failed res, fcs, p) few = (_, refl)
  after_search-Returns r at now create (missed empty, fcs, p) few =
      then-Returns (region_file_open os print p r.dir r.opts at create) _
        (region_file_open-Returns p r.dir r.opts at create few) (λ got e. (_, refl))

  region_file_get-Returns :
      (p : Process W) (r : Region) (at : List ℤ) (create : Bool)
      → r.opts.dims ≤ 10
      → Returns (region_file_get os print p r at create)
  unfolding region_file_get get_at
  region_file_get-Returns p r at create few =
      if_null_both Returns ((os.monotonic_now p.world).0) (_, refl)
        (λ now e. after_search-Returns r (take r.opts.dims at) now create _ few)

  leave_with-Returns :
      (res : ℕ) (r : Region) (p : Process W) (n : ℕ)
      → r.inside ≡ suc n
      → Returns (Handle.leave_with os res r p)
  unfolding Handle.leave_with Handle.public_leave
  leave_with-Returns res r p n used =
      let positive : ltb 0 r.inside ≡ true = ground (arith, used) in rw positive (_, refl)

  read_got-Returns :
      (got : Answer W) (n : ℕ) → got.2.inside ≡ suc n → Returns (Handle.read_got os got)
  unfolding Handle.read_got Handle.read_file
  read_got-Returns (res, rf, r, p) n used =
      if-Returns (res == ok) _ _
        (if_null_both Returns rf (leave_with-Returns res _ p n used) (λ file e.
          if-Returns _ _ _ (leave_with-Returns _ _ _ n used) (leave_with-Returns _ _ _ n used)))
        (leave_with-Returns res _ p n used)

  pub region_read-Returns :
      (p : Process W) (r : Region) (at : List ℤ)
      → r.inside ≡ 0
      → r.opts.dims ≤ 10
      → Returns (Handle.region_read os print p r at)
  unfolding Handle.region_read Handle.public_enter
  region_read-Returns p r at idle few =
      let room : ltb (r.inside + 1) (2 ^ 31) ≡ true = ground (arith, idle) in
      let r1 : Region = record r { inside = r.inside + 1; locked = true } in
      rw room (
        then-Returns (region_file_get os print p r1 at false) _
          (region_file_get-Returns p r1 at false few)
          (λ got e.
            let kept =
              Every-at (KeepsRegion r1) _ got (region_file_get-KeepsRegion os print p r1 at false)
                e in
            read_got-Returns got 0 (omega (arith, kept.0, idle))))
