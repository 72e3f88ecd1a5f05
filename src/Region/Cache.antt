-- ===== src/Region/Cache.antt =====
-- The cache of open files: src/region/file_cache.c. The array `r->cache` is a list, whose length is
-- `r->cache_len`, and the address of its block. The arithmetic on sizes is that of C.
pub mod Balance
pub mod Destroyed
pub mod Lookup
pub mod Unique
pub mod Contract
pub mod Crowded
use libclod.Prelude.{
  ℕ, zero, suc, ◌+◌, ◌-◌, ◌*◌, ◌/◌, ◌^◌, Bool, true, false, ◌&&◌, ◌==◌, Option, none, some, List,
  [], ◌∷◌, ◌++◌, ℤ, take, length, u64, if◌then◌else◌, if_null,
}
use libclod.Region.Options.{RegionOpts}
use libclod.Region.System.{
  ok, invalid_usage, Resource, descriptor, block, one, taken, Timespec, Os, Process, moved,
  sys_malloc, sys_free,
}
use libclod.Region.File.{Got, refuse}
use libclod.Region.RegionFile.{RegionFile, region_file_holds, region_file_open, region_file_close}
use libclod.Region.Time.{int_lt, same_int, timespec_diff_ns, evictable_duration_ns}

-- `struct file_cache`: a slot, dead where `rf` is null
pub record FileCache : Type 0 where
  pub rf : Option RegionFile
  pub last_access : Timespec
  pub pos : List ℤ

-- `struct clod_region`, with the address of its block
pub record Region : Type 0 where
  pub address : ℕ
  pub opts : RegionOpts
  pub inside : ℕ
  pub locked : Bool
  pub dir : ℕ
  pub cache_block : Option ℕ
  pub cache : List FileCache

-- `file_cache_size(dims)`: 24 bytes and 8 for each coordinate, a multiple of the alignment of 8
unfoldable pub file_cache_size : ℕ → ℕ
file_cache_size dims = (24 + 8 * dims + 7) / 8 * 8

-- `memcmp(pos, fc->pos, sizeof(fc->pos[0]) * dims) == 0`, for two lists of the coordinates
abbrev pub same_pos : List ℤ → List ℤ → Bool
same_pos [] [] = true
same_pos (a ∷ xs) (b ∷ ys) = same_int a b && same_pos xs ys
same_pos _ _ = false

-- How the loop of `region_file_get` ends: with a file found, with a failure, or at the end with the
-- first empty slot that it met, if any.
pub data Search : Type 0 where
  found : RegionFile → Search
  failed : ℕ → Search
  missed : Option ℕ → Search

abbrev pub first_of : Option ℕ → ℕ → Option ℕ
first_of none i = some i
first_of (some e) i = some e

-- A round of the loop: whether it goes on, the slot after it and the process.
pub data Round (W : Type 0) : Type 0 where
  goes_on : Option ℕ → FileCache → Process W → Round W
  returns : Search → FileCache → Process W → Round W

abbrev pub Searched : Type 0 → Type 0
Searched W = Search × List FileCache × Process W

module _ {W : Type 0} where
  abbrev pub with_slot : FileCache → Searched W → Searched W
  with_slot fc (s, fcs, p) = (s, fc ∷ fcs, p)

  -- The slots after this one stay when the loop returns.
  abbrev pub after_round :
      Round W → List FileCache → (Option ℕ → Process W → Searched W) → Searched W
  after_round (goes_on empty fc p) fcs next = with_slot fc (next empty p)
  after_round (returns s fc p) fcs next = (s, fc ∷ fcs, p)

-- A write to the slot `i`.
unfoldable pub put_slot : ℕ → FileCache → List FileCache → List FileCache
put_slot i new [] = []
put_slot zero new (fc ∷ fcs) = new ∷ fcs
put_slot (suc i) new (fc ∷ fcs) = fc ∷ put_slot i new fcs

-- The result, what `*rf_ptr` received, the region and the process.
abbrev pub Answer : Type 0 → Type 0
Answer W = ℕ × Option RegionFile × Region × Process W

abbrev pub first_failure : ℕ → ℕ → ℕ
first_failure res close_res = if res == ok then close_res else res

module _ {W : Type 0} (os : Os W) where
  -- `region_file_close(fc->rf)` of a slot that was not used for long, which is dead then.
  unfoldable pub evict : Process W → Option ℕ → FileCache → RegionFile → Round W
  evict p empty fc rf =
      let (res, p1) = region_file_close os p rf in
      let dead = record fc { rf = none } in
      if res == ok then goes_on empty dead p1 else returns (failed res) dead p1

  -- The body of the loop of `region_file_get`, at the slot `i`.
  unfoldable pub visit : List ℤ → Timespec → ℤ → ℕ → FileCache → Option ℕ → Process W → Round W
  visit pos now evictable i fc empty p = if_null fc.rf (goes_on (first_of empty i) fc p) (λ rf.
      if same_pos pos fc.pos
      then returns (found rf) (record fc { last_access = now }) p
      else if int_lt evictable (timespec_diff_ns fc.last_access now)
      then evict p empty fc rf
      else goes_on empty fc p)

  -- The loop of `region_file_get`, from the slot `i` on.
  unfoldable pub search :
      List ℤ → Timespec → ℤ → List FileCache → ℕ → Option ℕ → Process W → Searched W
  search pos now evictable [] i empty p = (missed empty, [], p)
  search pos now evictable (fc ∷ fcs) i empty p =
      after_round (visit pos now evictable i fc empty p) fcs
        (λ empty1 p1. search pos now evictable fcs (suc i) empty1 p1)

  -- The array grows by the slot `new`.
  unfoldable pub grow : Process W → Region → FileCache → RegionFile → Answer W
  grow p r new rf =
      let size = u64 ((length r.cache + 1) * file_cache_size r.opts.dims) in
      let (allocated, p1) = sys_malloc os p size in
      if_null allocated (invalid_usage, none, r, (region_file_close os p1 rf).1)
        (λ a. (
          ok,
          some rf,
          record r { cache_block = some a; cache = r.cache ++ new ∷ [] },
          if_null r.cache_block p1 (λ old. sys_free os p1 old),
        ))

  -- From the opened file on.
  unfoldable pub store_file :
      Process W → Region → Option ℕ → List ℤ → Timespec → RegionFile → Answer W
  store_file p r empty pos now rf =
      let new : FileCache = record { rf = some rf; last_access = now; pos = pos } in
      if_null empty (grow p r new rf)
        (λ i. (ok, some rf, record r { cache = put_slot i new r.cache }, p))

  -- What follows `region_file_open`.
  unfoldable pub after_open : Region → Option ℕ → List ℤ → Timespec → Got RegionFile W → Answer W
  after_open r empty pos now (res, rf, p) =
      if res == ok
      then if_null rf (res, none, r, p) (λ file. store_file p r empty pos now file)
      else (res, none, r, p)

  -- `if (cache_max == 0) cache_max = num_procs()`: one processor, and more of them.
  unfoldable pub measure_cache_max : Process W → Process W
  measure_cache_max p =
      let (more, w) = os.more_procs p.world in
      if p.cache_max == 0 then record p { world = w; cache_max = suc more } else p

  -- The loop of `file_cache_destroy`.
  unfoldable pub destroy_loop : List FileCache → ℕ → Process W → ℕ × Process W
  destroy_loop [] res p = (res, p)
  destroy_loop (fc ∷ fcs) res p = if_null fc.rf (destroy_loop fcs res p) (λ rf.
      let (close_res, p1) = region_file_close os p rf in
      destroy_loop fcs (first_failure res close_res) p1)

  -- `file_cache_destroy(r)`
  unfoldable pub file_cache_destroy : Process W → Region → ℕ × Region × Process W
  file_cache_destroy p r =
      let (res, p1) = destroy_loop r.cache ok p in
      (
        res,
        record r { cache_block = none; cache = [] },
        if_null r.cache_block p1 (λ old. sys_free os p1 old),
      )

  module _ (print : ℤ → List ℕ) where
    -- What follows the loop; `none` if an assertion fails.
    unfoldable pub after_search : Region → List ℤ → Timespec → Bool → Searched W → Option (Answer W)
    after_search r pos now create (found rf, fcs, p) =
        some (ok, some rf, record r { cache = fcs }, p)
    after_search r pos now create (failed res, fcs, p) =
        some (res, none, record r { cache = fcs }, p)
    after_search r pos now create (missed empty, fcs, p) =
        if_null (region_file_open os print p r.dir r.opts pos create) none
          (λ got. some (after_open (record r { cache = fcs }) empty pos now got))

    -- From the time on. The caller gives `dims` coordinates.
    unfoldable pub get_at : Process W → Region → List ℤ → Bool → Timespec → Option (Answer W)
    get_at p r pos create now =
        let p1 = measure_cache_max p in
        let evictable = evictable_duration_ns p1.cache_max (length r.cache) in
        after_search r (take r.opts.dims pos) now create
          (search (take r.opts.dims pos) now evictable r.cache 0 none p1)

    -- `region_file_get(r, rf_ptr, pos, create)`
    unfoldable pub region_file_get : Process W → Region → List ℤ → Bool → Option (Answer W)
    region_file_get p r pos create =
        let (now, w) = os.monotonic_now p.world in
        if_null now (some (invalid_usage, none, r, moved p w))
          (λ t. get_at (moved p w) r pos create t)
