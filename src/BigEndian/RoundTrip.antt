-- ===== src/BigEndian/RoundTrip.antt =====
-- Decoding what was encoded, and what an encoder leaves alone.
use native.Mathlib.Nat.{mul-le-mul_right}
use libclod.Prelude.{
  ℕ, zero, suc, ◌+◌, ◌*◌, ◌/◌, ◌%◌, ◌^◌, ◌≤◌, ◌<◌, ◌≡◌, refl, ◌∙◌, ◌⊎◌, inl, set, arith,
}
use libclod.Prelude.Bits.{or_shifted, split_mod, byte_power}
use libclod.BigEndian.Codec.{beu_enc, beu_dec}

-- What is decoded from `n` bytes has at most `8 * n` binary digits.
pub beu_dec-lt : (n : ℕ) (m : ℕ → ℕ) (ptr : ℕ) → beu_dec n m ptr < 2 ^ (8 * n)
unfolding beu_dec
beu_dec-lt zero m ptr = omega arith
beu_dec-lt (suc n) m ptr =
    let low = beu_dec-lt n m (suc ptr) in
    let sum = or_shifted (8 * n) (m ptr % 256) (beu_dec n m (suc ptr)) low in
    let byte : m ptr % 256 ≤ 255 = omega arith in
    let high = mul-le-mul_right (2 ^ (8 * n)) byte in omega (arith, sum, high, byte_power n)

-- The first byte is the most significant one.
pub beu_dec-suc :
    (n : ℕ) (m : ℕ → ℕ) (ptr : ℕ)
    → beu_dec (suc n) m ptr ≡ m ptr % 256 * 2 ^ (8 * n) + beu_dec n m (suc ptr)
unfolding beu_dec
beu_dec-suc n m ptr =
    or_shifted (8 * n) (m ptr % 256) (beu_dec n m (suc ptr)) (beu_dec-lt n m (suc ptr))

pub beu_enc-outside :
    (n : ℕ) (m : ℕ → ℕ) (ptr val a : ℕ) → (a < ptr) ⊎ (ptr + n ≤ a) → beu_enc n m ptr val a ≡ m a
unfolding beu_enc
beu_enc-outside zero m ptr val a out = refl
beu_enc-outside (suc n) m ptr val a out =
    ground (arith, beu_enc-outside n (set m ptr (val / 2 ^ (8 * n) % 256)) (suc ptr) val a)

beu_enc-at :
    (n : ℕ) (m : ℕ → ℕ) (ptr val : ℕ) → beu_enc (suc n) m ptr val ptr ≡ val / 2 ^ (8 * n) % 256
unfolding beu_enc
beu_enc-at n m ptr val = ground (
  arith,
  beu_enc-outside n (set m ptr (val / 2 ^ (8 * n) % 256)) (suc ptr) val ptr (inl (omega arith)),
)

byte_once : (v : ℕ) → v % 256 % 256 ≡ v % 256
byte_once v = omega arith

-- Decoding what an encoder of `n` bytes wrote gives back the number, cut to `8 * n` binary digits.
pub beu_dec-beu_enc :
    (n : ℕ) (m : ℕ → ℕ) (ptr val : ℕ) → beu_dec n (beu_enc n m ptr val) ptr ≡ val % 2 ^ (8 * n)
unfolding beu_enc beu_dec
beu_dec-beu_enc zero m ptr val = omega arith
beu_dec-beu_enc (suc n) m ptr val =
    let rest : beu_dec n (beu_enc (suc n) m ptr val) (suc ptr) ≡ val % 2 ^ (8 * n) =
      beu_dec-beu_enc n (set m ptr (val / 2 ^ (8 * n) % 256)) (suc ptr) val in
    let whole = split_mod (2 ^ (8 * n)) 256 val in
    let first = beu_enc-at n m ptr val in
    beu_dec-suc n (beu_enc (suc n) m ptr val) ptr
    ∙ rw (first, byte_once (val / 2 ^ (8 * n)), rest, byte_power n) whole
