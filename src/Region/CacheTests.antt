-- ===== src/Region/CacheTests.antt =====
-- The cache of files and the handles of regions over the system of Region/Sample.
use libclod.Prelude.{
  ℕ, ◌+◌, ◌≡◌, ◌≤◌, refl, arith, inr, true, none, some, List, [], ◌∷◌, pos, Every,
}
use libclod.Region.System.{descriptor, Process, sys_munmap, sys_close, sys_free}
use libclod.Region.File.{file_close, file_unmap}
use libclod.Region.Time.{time, checked, timespec_diff_ns, evictable_duration_ns}
use libclod.Region.RegionFile.{region_file_close}
use libclod.Region.Cache.{FileCache, region_file_get, Searched, search, visit, evict, missed}
use libclod.Region.Cache.Balance.{cache_holds, region_holds, AnswerKept, region_file_get-owed}
use libclod.Region.Cache.Lookup.{lookup}
use libclod.Region.Cache.Unique.{IsUnique}
use libclod.Region.Cache.Contract.{IsAnswered, region_file_get-IsAnswered}
use libclod.Region.Cache.Crowded.{IsPast, AllDead, search-AllDead}
use libclod.Region.Handle
use libclod.Region.Handle.Locks.{Leaves, region_read-Leaves}
use libclod.Region.Handle.Session.{session, session-owed}
use libclod.Region.Sample.{
  granting, start, digit, digit_short, plain, no_libraries, origin, beside, slot, two_slots, owing,
}

session-owed_example :
    (p1 : Process ℕ) × (session granting digit no_libraries start none plain
        (origin ∷ beside ∷ origin ∷ [])
      ≡ some p1)
    × (p1.owed (descriptor 4) ≡ 0)
session-owed_example =
    session-owed granting digit digit_short (descriptor 4) no_libraries start none plain
      (origin ∷ beside ∷ origin ∷ [])

two_slots-IsUnique : IsUnique two_slots.cache
unfolding IsUnique lookup
two_slots-IsUnique = (inr refl, (inr refl, tt))

region_file_get-IsAnswered_example :
    Every
      (IsAnswered beside two_slots.cache)
      (region_file_get granting digit start two_slots beside true)
region_file_get-IsAnswered_example =
    region_file_get-IsAnswered granting digit start two_slots beside true two_slots-IsUnique

region_read-Leaves_example :
    Every (Leaves two_slots beside) (Handle.region_read granting digit start two_slots beside)
region_read-Leaves_example =
    region_read-Leaves granting digit start two_slots beside two_slots-IsUnique

two_slots-owed : region_holds two_slots (descriptor 11) ≤ owing.owed (descriptor 11)
two_slots-owed = omega arith

region_file_get-owed_example :
    Every
      (AnswerKept (descriptor 11) owing two_slots)
      (region_file_get granting digit owing two_slots beside true)
region_file_get-owed_example =
    region_file_get-owed granting (descriptor 11) digit owing two_slots beside true two_slots-owed

-- Three slots, two processors, a lookup elsewhere.
abbrev crowd : List FileCache
crowd = slot 10 4 origin ∷ slot 11 4 beside ∷ slot 12 5 (pos 2 ∷ pos 0 ∷ []) ∷ []

past : (s : ℕ) → s ≤ 5 → IsPast 5 0 (time s 0)
past s before = record {
  s = s;
  ns = 0;
  at = refl;
  below = omega arith;
  before = omega (arith, before);
  near = omega (arith, before);
}

abbrev crowd_after : Searched ℕ
crowd_after =
    search granting (pos 9 ∷ pos 9 ∷ []) (time 5 0) (evictable_duration_ns 2 3) crowd 0 none owing

crowd-missed : crowd_after.0 ≡ missed none
unfolding search visit evict timespec_diff_ns checked evictable_duration_ns region_file_close
    file_close file_unmap sys_munmap sys_close sys_free
crowd-missed = refl

search-AllDead_example :
    AllDead crowd_after.1
    × (crowd_after.2.owed (descriptor 11) + cache_holds crowd (descriptor 11) ≡ 10)
search-AllDead_example =
    search-AllDead granting (descriptor 11) (pos 9 ∷ pos 9 ∷ []) 5 0 2 crowd owing none
      (omega arith) (omega arith) (omega arith) (omega arith)
      (past 4 (omega arith), (past 4 (omega arith), (past 5 (omega arith), tt))) (omega arith)
      crowd-missed
