-- ===== src/Hash/Sip/Word.antt =====
-- The words that `read_uint64` of src/hash/siphash.c reads, as little-endian numbers.
use Prim.Native.Nat.{bit_or}
use native.Mathlib.Nat.{mul-le-mul_right, mul_assoc, mul_comm, one-le-pow}
use libclod.Prelude.{
  ℕ, zero, suc, ◌+◌, ◌*◌, ◌^◌, ◌≤◌, ◌<◌, ◌≡◌, sym, ◌∙◌, List, [], ◌∷◌, ◌++◌, arith, length, get_or,
  take, drop, ltb, if◌then◌else◌,
}
use libclod.Prelude.Bits.{or_shifted, byte_power}
use libclod.Hash.Sip.{read_down, read_uint64}

abbrev pub IsBytes : List ℕ → Type 0
IsBytes [] = Unit
IsBytes (b ∷ bs) = (b < 256) × IsBytes bs

-- The little-endian number of some bytes.
abbrev pub le_number : List ℕ → ℕ
le_number [] = 0
le_number (b ∷ bs) = b + 256 * le_number bs

pub IsBytes-append : (xs ys : List ℕ) → IsBytes xs → IsBytes ys → IsBytes (xs ++ ys)
IsBytes-append [] ys hx hy = hy
IsBytes-append (x ∷ xs) ys hx hy = (hx.0, IsBytes-append xs ys hx.1 hy)

pub IsBytes-take : (n : ℕ) (xs : List ℕ) → IsBytes xs → IsBytes (take n xs)
IsBytes-take zero xs h = tt
IsBytes-take (suc n) [] h = tt
IsBytes-take (suc n) (x ∷ xs) h = (h.0, IsBytes-take n xs h.1)

pub IsBytes-drop : (n : ℕ) (xs : List ℕ) → IsBytes xs → IsBytes (drop n xs)
IsBytes-drop zero xs h = h
IsBytes-drop (suc n) [] h = tt
IsBytes-drop (suc n) (x ∷ xs) h = IsBytes-drop n xs h.1

IsBytes-get_or : (xs : List ℕ) (i : ℕ) → IsBytes xs → get_or xs i 0 < 256
IsBytes-get_or [] i h = omega arith
IsBytes-get_or (x ∷ xs) zero h = h.0
IsBytes-get_or (x ∷ xs) (suc i) h = IsBytes-get_or xs i h.1

pub le_number-lt : (xs : List ℕ) → IsBytes xs → le_number xs < 2 ^ (8 * length xs)
le_number-lt [] h = omega arith
le_number-lt (x ∷ xs) h = rw (byte_power (length xs)) (omega (arith, le_number-lt xs h.1))

pub le_number-append :
    (xs ys : List ℕ) → le_number (xs ++ ys) ≡ le_number xs + le_number ys * 2 ^ (8 * length xs)
le_number-append [] ys = omega arith
le_number-append (x ∷ xs) ys =
    let power = byte_power (length xs) in
    let spread : le_number ys * (2 ^ (8 * length xs) * 256)
        ≡ le_number ys * 2 ^ (8 * length xs) * 256 =
      sym (mul_assoc (le_number ys) (2 ^ (8 * length xs)) 256) in
    rw (power, spread) (omega (arith, le_number-append xs ys))

le_number-take-suc :
    (k : ℕ) (xs : List ℕ)
    → suc k ≤ length xs
    → le_number (take (suc k) xs) ≡ le_number (take k xs) + get_or xs k 0 * 2 ^ (8 * k)
le_number-take-suc zero [] h = absurd (omega arith)
le_number-take-suc zero (x ∷ xs) h = omega arith
le_number-take-suc (suc k) [] h = absurd (omega arith)
le_number-take-suc (suc k) (x ∷ xs) h =
    let power = byte_power k in
    let spread : get_or xs k 0 * (2 ^ (8 * k) * 256) ≡ get_or xs k 0 * 2 ^ (8 * k) * 256 =
      sym (mul_assoc (get_or xs k 0) (2 ^ (8 * k)) 256) in
    rw (power, spread) (omega (arith, le_number-take-suc k xs (omega arith)))

-- The switch reads the first `k` bytes below what it has.
read_down_lem :
    (bytes : List ℕ) (k q : ℕ)
    → IsBytes bytes
    → k ≤ length bytes
    → read_down bytes k (q * 2 ^ (8 * k)) ≡ q * 2 ^ (8 * k) + le_number (take k bytes)
unfolding read_down
read_down_lem bytes zero q h enough = omega arith
read_down_lem bytes (suc k) q h enough =
    let b = get_or bytes k 0 in
    let byte = IsBytes-get_or bytes k h in
    let power = byte_power k in
    let turn : k * 8 ≡ 8 * k = omega arith in
    let fits : b * 2 ^ (8 * k) < 2 ^ (8 * suc k) =
      let most : b ≤ 255 = omega arith in
      let high = mul-le-mul_right (2 ^ (8 * k)) most in
      rw power (omega (arith, high, one-le-pow (8 * k) 2 (omega arith))) in
    let regroup : q * 2 ^ (8 * suc k) ≡ q * 256 * 2 ^ (8 * k) = rw power (
      omega (
        arith,
        mul_assoc q (2 ^ (8 * k)) 256,
        mul_assoc q 256 (2 ^ (8 * k)),
        mul_comm 256 (2 ^ (8 * k)),
      )) in
    let sum : bit_or (q * 2 ^ (8 * suc k)) (b * 2 ^ (8 * k)) ≡ (q * 256 + b) * 2 ^ (8 * k) =
      or_shifted (8 * suc k) q (b * 2 ^ (8 * k)) fits ∙ rw regroup (omega arith) in
    rw (turn, sum)
      (read_down_lem bytes k (q * 256 + b) h (omega arith)
        ∙ omega (arith, regroup, le_number-take-suc k bytes enough))

-- `read_uint64` reads the first `n` of at least `n` bytes, at most eight.
pub read_uint64_lem :
    (bytes : List ℕ) (n : ℕ)
    → IsBytes bytes
    → n ≤ length bytes
    → n ≤ 8
    → read_uint64 bytes n ≡ le_number (take n bytes)
unfolding read_uint64
read_uint64_lem bytes n h enough eight =
    let same : (if ltb 7 n then 8 else n) ≡ n = ground arith in
    let start : 0 * 2 ^ (8 * n) ≡ 0 = omega arith in
    let read = read_down_lem bytes n 0 h enough in
    let read' = rw start at read in rw same (read' ∙ omega arith)
