-- ===== src/Prelude/Arrays.antt =====
-- C arrays as functions from indices, a write to one, and counting over a range of indices.
use Prim.Native.Nat.{ℕ, zero, suc, ◌+◌, ◌-◌, ◌%◌, ◌≤◌, ◌<◌}
use mathlib.Core.Path.{◌≡◌, refl, ap}
use mathlib.Core.Logic.{◌≢◌, ◌⊎◌, inl, inr}
use mathlib.Core.Bool.{Bool, true, false, ◌||◌, ◌&&◌}
use native.Mathlib.Nat.{add-zero, add-suc, mod-eq_of_lt, mod-eq-sub-mod}
use native.Mathlib.Omega.{arith}
use libclod.Prelude.Tests.{◌==◌, leb, if◌then◌else◌, Bool-cases}

-- `a[i] = v`
abbrev pub set {ℓ} : {A : Type ℓ} → (ℕ → A) → ℕ → A → ℕ → A
set a i v j = if i == j then v else a j

abbrev pub to_nat : Bool → ℕ
to_nat true = 1
to_nat false = 0

-- How many indices below `n` pass the test.
unfoldable pub count : (ℕ → Bool) → ℕ → ℕ
count p zero = 0
count p (suc n) = to_nat (p n) + count p n

pub count-le : (p : ℕ → Bool) (n : ℕ) → count p n ≤ n
unfolding count
count-le p zero = omega arith
count-le p (suc n) = ground (arith, count-le p n)

pub count_congr : (p q : ℕ → Bool) (n : ℕ) → ((j : ℕ) → j < n → p j ≡ q j) → count p n ≡ count q n
unfolding count
count_congr p q zero h = refl
count_congr p q (suc n) h = ground (arith, h n, count_congr p q n (λ j l. h j (omega arith)))

-- Changing the test at one index changes the count by that index.
pub count_change :
    (p q : ℕ → Bool) (n i : ℕ)
    → i < n
    → ((j : ℕ) → j ≢ i → p j ≡ q j)
    → count p n + to_nat (q i) ≡ count q n + to_nat (p i)
unfolding count
count_change p q zero i l h = absurd (omega arith)
count_change p q (suc n) i l h = elim (Bool-cases (n == i)) [
  | inl e ↦
      let same : n ≡ i = ground arith in
      rw same (ground (arith, count_congr p q i (λ j (l' : j < i). h j (omega arith))))
  | inr e ↦
      let ne : n ≢ i = ground arith in ground (arith, h n ne, count_change p q n i (omega arith) h)
]

-- Some index passes the test, unless the count is 0.
pub count_lt_some : (p : ℕ → Bool) (n : ℕ) → count p n < n → (j : ℕ) × (j < n) × (p j ≡ false)
unfolding count
count_lt_some p zero h = absurd (omega arith)
count_lt_some p (suc n) h = elim (Bool-cases (p n)) [
  | inr no_pass ↦ (n, omega arith, no_pass)
  | inl pass ↦ let (j, l, e) = count_lt_some p n (ground arith) in (j, omega arith, e)
]

pub count_or_le : (p q : ℕ → Bool) (n : ℕ) → count (λ j. p j || q j) n ≤ count p n + count q n
unfolding count
count_or_le p q zero = omega arith
count_or_le p q (suc n) = ground (arith, count_or_le p q n)

pub count_add : (p : ℕ → Bool) (m n : ℕ) → count p (m + n) ≡ count p m + count (λ j. p (m + j)) n
unfolding count
count_add p m zero = rw add-zero (omega arith)
count_add p m (suc n) = rw add-suc (omega (arith, count_add p m n))

pub count_none : (p : ℕ → Bool) (n : ℕ) → ((j : ℕ) → j < n → p j ≡ false) → count p n ≡ 0
unfolding count
count_none p zero h = refl
count_none p (suc n) h = ground (arith, h n, count_none p n (λ j l. h j (omega arith)))

-- Counting from another start, around the end, counts the same.
pub count_rotate : (p : ℕ → Bool) (n c : ℕ) → c < n → count (λ k. p ((k + c) % n)) n ≡ count p n
count_rotate p n c h =
    let f : ℕ → Bool = λ k. p ((k + c) % n) in
    let front : count f (n - c) ≡ count (λ k. p (c + k)) (n - c) =
      count_congr f (λ k. p (c + k)) (n - c) (λ k l. ap p (grind arith)) in
    let back : count (λ k. f (n - c + k)) c ≡ count p c =
      count_congr (λ k. f (n - c + k)) p c (λ k l. ap p (grind arith)) in
    let whole : n - c + c ≡ n = omega arith in
    let whole' : c + (n - c) ≡ n = omega arith in
    let left = count_add f (n - c) c in
    let right = count_add p c (n - c) in
    let left' = rw whole at left in
    let right' = rw whole' at right in omega (arith, front, back, left', right')

-- A rotated index, with and without a wrap around the end.
pub rotate_cases :
    (i c n : ℕ)
    → i < n
    → c < n
    → ((i + c < n) × ((i + c) % n ≡ i + c)) ⊎ ((n ≤ i + c) × ((i + c) % n + n ≡ i + c))
rotate_cases i c n hi hc = elim (Bool-cases (leb n (i + c))) [
  | inl wrap ↦
      let le : n ≤ i + c = ground arith in
      let lt : i + c - n < n = omega arith in
      inr (le, omega (arith, mod-eq-sub-mod le, mod-eq_of_lt lt))
  | inr stay ↦ let lt : i + c < n = ground arith in inl (lt, mod-eq_of_lt lt)
]

-- Two tests that exclude one another count at most every index once.
pub count_disjoint :
    (p q : ℕ → Bool) (n : ℕ) → ((j : ℕ) → p j && q j ≡ false) → count p n + count q n ≤ n
unfolding count
count_disjoint p q zero h = omega arith
count_disjoint p q (suc n) h = ground (arith, h n, count_disjoint p q n h)
