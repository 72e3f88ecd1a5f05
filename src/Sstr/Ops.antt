-- ===== src/Sstr/Ops.antt =====
-- The functions of include/clod/sstr.h. Memory is a function from addresses to chars.
use libclod.Prelude.{
  ℕ, zero, suc, ◌+◌, ◌-◌, Bool, true, false, Option, none, some, ltb, leb, ◌==◌, ◌&&◌, not,
  if◌then◌else◌, u64, ℤ, pos, negsuc,
}

-- `clod_sstr`
pub record Sstr : Type 0 where
  pub ptr : Option ℕ
  pub size : ℕ

-- `CLOD_SSTR_NULL`
abbrev pub sstr_null : Sstr
sstr_null = record { ptr = none; size = 0 }

-- `memcmp(a, b, n) == 0`
unfoldable pub memory_equal : (ℕ → ℕ) → ℕ → ℕ → ℕ → Bool
memory_equal m a b zero = true
memory_equal m a b (suc n) = m a == m b && memory_equal m (suc a) (suc b) n

unfoldable pub pointers_equal : (ℕ → ℕ) → Option ℕ → Option ℕ → ℕ → Bool
pointers_equal m none none n = true
pointers_equal m none (some b) n = false
pointers_equal m (some a) none n = false
pointers_equal m (some a) (some b) n = if a == b then true else memory_equal m a b n

-- `clod_sstr_eq(str1, str2)`
unfoldable pub sstr_eq : (ℕ → ℕ) → Sstr → Sstr → Bool
sstr_eq m str1 str2 =
    if not (str1.size == str2.size) then false else pointers_equal m str1.ptr str2.ptr str1.size

-- The `memcpy` of `clod_sstr_cat`.
unfoldable pub append_bytes : (ℕ → ℕ) → ℕ → Option ℕ → ℕ → ℕ → ℕ
append_bytes m dst none n = m
append_bytes m dst (some src) n =
    λ a. if leb dst a && ltb a (dst + n) then m (src + (a - dst)) else m a

-- `clod_sstr_cat(str1, str2)`: the memory and the new size of `str1`, which starts at `ptr1`.
unfoldable pub sstr_cat : (ℕ → ℕ) → ℕ → ℕ → Sstr → (ℕ → ℕ) × ℕ
sstr_cat m ptr1 size1 str2 =
    if str2.size == 0
    then (m, size1)
    else (append_bytes m (ptr1 + size1) str2.ptr str2.size, u64 (size1 + str2.size))

-- The loop of `clod_sstr_contains`, with `left` rounds to go.
unfoldable pub contains_loop : (ℕ → ℕ) → ℕ → ℕ → ℕ → ℕ → ℕ → Sstr
contains_loop m ptr elem elem_size zero i = sstr_null
contains_loop m ptr elem elem_size (suc left) i =
    let rest = contains_loop m ptr elem elem_size left (suc i) in
    if memory_equal m (ptr + i) elem elem_size
    then record { ptr = some (ptr + i); size = elem_size }
    else rest

-- `clod_sstr_contains(str, elem)`, for strings whose pointers are not null.
unfoldable pub sstr_contains : (ℕ → ℕ) → ℕ → ℕ → ℕ → ℕ → Sstr
sstr_contains m ptr size elem elem_size =
    if ltb size elem_size
    then sstr_null
    else if elem_size == 0
    then record { ptr = some ptr; size = 0 }
    else contains_loop m ptr elem elem_size (size - elem_size) 0

-- The loop of `clod_sstr_find` from the start, with `left` bytes to go.
unfoldable pub forward_loop : (ℕ → ℕ) → ℕ → ℕ → ℕ → ℕ → ℕ → Sstr
forward_loop m ptr elem zero i occurrence = sstr_null
forward_loop m ptr elem (suc left) i occurrence =
    let now = if m (ptr + i) == elem then occurrence - 1 else occurrence in
    let rest = forward_loop m ptr elem left (suc i) now in
    if now == 0 then record { ptr = some (ptr + i); size = suc left } else rest

-- The loop from the end; `occurrence` is what is missing to 0.
unfoldable pub backward_loop : (ℕ → ℕ) → ℕ → ℕ → ℕ → ℕ → ℕ → Sstr
backward_loop m ptr size elem zero occurrence = sstr_null
backward_loop m ptr size elem (suc i) occurrence =
    let now = if m (ptr + i) == elem then occurrence - 1 else occurrence in
    let rest = backward_loop m ptr size elem i now in
    if now == 0 then record { ptr = some (ptr + i); size = size - suc i + 1 } else rest

-- `clod_sstr_find(str, elem, occurrence)`
unfoldable pub sstr_find : (ℕ → ℕ) → ℕ → ℕ → ℕ → ℤ → Sstr
sstr_find m ptr size elem (pos zero) = record { ptr = some ptr; size = size }
sstr_find m ptr size elem (pos (suc n)) = forward_loop m ptr elem size 0 (suc n)
sstr_find m ptr size elem (negsuc n) = backward_loop m ptr size elem size (suc n)
