-- ===== src/Region/Time.antt =====
-- Times of src/region/file_cache.c: the difference of two, and how long a file may stay unused.
use native.Mathlib.Nat.{div-add-mod, mod-lt, mul_comm, suc-mul, mul-le-mul_right, le-div_iff_mul-le}
use libclod.Prelude.{
  ℕ, suc, ◌+◌, ◌-◌, ◌*◌, ◌/◌, ◌^◌, ◌≤◌, ◌<◌, ◌≡◌, refl, ap, arith, Bool, true, false, ltb, leb,
  ◌==◌, Option, none, some, if◌then◌else◌, if_null, ℤ, pos, negsuc, ◌+ℤ◌, ◌-ℤ◌, inl, inr,
  Bool-cases,
}
use libclod.Region.System.{Timespec}

abbrev pub int_lt : ℤ → ℤ → Bool
int_lt (pos a) (pos b) = ltb a b
int_lt (pos a) (negsuc b) = false
int_lt (negsuc a) (pos b) = true
int_lt (negsuc a) (negsuc b) = ltb b a

abbrev pub same_int : ℤ → ℤ → Bool
same_int (pos a) (pos b) = a == b
same_int (negsuc a) (negsuc b) = a == b
same_int _ _ = false

abbrev fits_int64 : ℤ → Bool
fits_int64 (pos n) = ltb n (2 ^ 63)
fits_int64 (negsuc n) = ltb n (2 ^ 63)

-- A result of `ckd_sub`, `ckd_mul` or `ckd_add`, `none` if it does not fit.
unfoldable pub checked : ℤ → Option ℤ
checked x = if fits_int64 x then some x else none

abbrev pub sub_int : ℤ → ℤ → ℤ
sub_int x (pos n) = x -ℤ n
sub_int x (negsuc n) = x +ℤ suc n

abbrev pub sum_int : ℤ → ℤ → ℤ
sum_int x (pos n) = x +ℤ n
sum_int x (negsuc n) = x -ℤ suc n

abbrev pub second : ℕ
second = 1000000000

abbrev pub in_ns : ℤ → ℤ
in_ns (pos n) = pos (n * second)
in_ns (negsuc n) = negsuc (n * second + 999999999)

-- `a > b ? INT64_MAX : INT64_MIN`
abbrev pub end_by : ℤ → ℤ → ℤ
end_by a b = if int_lt b a then pos (2 ^ 63 - 1) else negsuc (2 ^ 63 - 1)

-- `timespec_diff_ns(from, to)`
unfoldable pub timespec_diff_ns : Timespec → Timespec → ℤ
timespec_diff_ns from to =
    let by_sec = end_by to.tv_sec from.tv_sec in
    if_null (checked (sub_int to.tv_sec from.tv_sec)) by_sec (λ sec.
      if_null (checked (in_ns sec)) by_sec (λ sec_diff.
        if_null (checked (sub_int to.tv_nsec from.tv_nsec)) (end_by to.tv_nsec from.tv_nsec)
          (λ nsec. if_null (checked (sum_int nsec sec_diff)) by_sec (λ diff. diff))))

-- `evictable_duration_ns(cache_size)`, with `cache_max` computed and not 0. The product is below
-- 2 ^ 63 for any cache of less than 9 * 10 ^ 8 slots.
unfoldable pub evictable_duration_ns : ℕ → ℕ → ℤ
evictable_duration_ns cache_max cache_size = pos 10000000000 -ℤ 10000000000 / cache_max * cache_size

-- A time of a clock that counts from 0, in nanoseconds.
abbrev pub time : ℕ → ℕ → Timespec
time s ns = record { tv_sec = pos s; tv_nsec = pos ns }

checked_pos : (n : ℕ) → n < 2 ^ 63 → checked (pos n) ≡ some (pos n)
unfolding checked
checked_pos n h = let fits : ltb n (2 ^ 63) ≡ true = ground arith in rw fits refl

checked_negsuc : (n : ℕ) → n < 2 ^ 63 → checked (negsuc n) ≡ some (negsuc n)
unfolding checked
checked_negsuc n h = let fits : ltb n (2 ^ 63) ≡ true = ground arith in rw fits refl

-- For two times of less than 2 ^ 63 seconds, the second not before the first, whose seconds lie less
-- than 2 ^ 63 - 10 ^ 9 nanoseconds apart, `timespec_diff_ns` is the exact difference.
pub timespec_diff_ns-exact :
    (s1 n1 s2 n2 : ℕ)
    → n1 < second
    → n2 < second
    → s1 * second + n1 ≤ s2 * second + n2
    → (s2 - s1) * second + second < 2 ^ 63
    → timespec_diff_ns (time s1 n1) (time s2 n2) ≡ pos (s2 * second + n2 - (s1 * second + n1))
unfolding timespec_diff_ns
timespec_diff_ns-exact s1 n1 s2 n2 h1 h2 ordered near =
    let later : leb s1 s2 ≡ true = ground arith in
    let small = checked_pos (s2 - s1) (omega arith) in
    let product = checked_pos ((s2 - s1) * second) (omega arith) in
    elim (Bool-cases (leb n1 n2)) [
      | inl up ↦
          let le : n1 ≤ n2 = ground arith in
          let low = checked_pos (n2 - n1) (omega arith) in
          let whole = checked_pos (n2 - n1 + (s2 - s1) * second) (omega arith) in
          rw (later, small, product, up, low, whole) (ap pos (omega arith))
      | inr down ↦
          let lt : n2 < n1 = ground arith in
          let low = checked_negsuc (n1 - suc n2) (omega arith) in
          let whole = checked_pos ((s2 - s1) * second - suc (n1 - suc n2)) (omega arith) in
          let back : leb ((s2 - s1) * second) (n1 - suc n2) ≡ false = ground arith in
          rw (later, small, product, down, low, back, whole) (ap pos (omega arith))
    ]

-- With more slots than processors, of which there are at most 10 ^ 5, a file stays for less than no
-- time.
pub evictable_duration_ns-negative :
    (procs slots : ℕ)
    → 0 < procs
    → procs ≤ 100000
    → procs < slots
    → (d : ℕ) → int_lt (evictable_duration_ns procs slots) (pos d) ≡ true
unfolding evictable_duration_ns
evictable_duration_ns-negative procs slots any few more d =
    let share = 10000000000 / procs in
    let large : 100000 ≤ share = (le-div_iff_mul-le any).1 (omega arith) in
    let parts = div-add-mod 10000000000 procs in
    let rest = mod-lt 10000000000 any in
    let grown : suc procs * share ≤ slots * share = mul-le-mul_right share more in
    let steps = suc-mul procs share in
    let turned = mul_comm share slots in
    let over : leb (share * slots) 10000000000 ≡ false =
      ground (arith, large, parts, rest, grown, steps, turned) in
    rw over refl
