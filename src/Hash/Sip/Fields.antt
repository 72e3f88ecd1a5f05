-- ===== src/Hash/Sip/Fields.antt =====
-- The byte `_size` of src/hash/siphash.c: the count of the buffered bytes in its low three digits,
-- and the length of the data, as far as five digits hold it, above them.
use Prim.Native.Nat.{bit_and, bit_or}
use libclod.Prelude.{ℕ, ◌+◌, ◌*◌, ◌/◌, ◌%◌, ◌^◌, ◌<◌, ◌≡◌, refl, Bool, ◌==◌, count, arith, u64}
use libclod.Prelude.Bits.{count_full, and_mask, or_low, or_shifted}
use libclod.Hash.Sip.{State, data_size, remaining, set_data_size, set_remaining}

abbrev pub size_byte : ℕ → ℕ → ℕ
size_byte total r = total % 32 * 8 + r

abbrev clears_low : ℕ → Bool
clears_low x = bit_and x 0b11111000 == x / 8 * 8

count-clears_low : count clears_low 256 ≡ 256
unfolding count
count-clears_low = refl

clear_low : (x : ℕ) → x < 256 → bit_and x 0b11111000 ≡ x / 8 * 8
clear_low x byte = ground (arith, count_full clears_low 256 x byte count-clears_low)

module _ (s : State) (total r : ℕ) (is : s.size ≡ size_byte total r) (few : r < 8) where
  pub remaining_lem : remaining s ≡ r
  unfolding remaining
  remaining_lem = omega (arith, and_mask 3 s.size)

  pub data_size_lem : data_size s ≡ total % 32
  unfolding data_size
  data_size_lem = omega arith

  pub size-set_data_size :
      (k : ℕ)
      → k < 2 ^ 63
      → (set_data_size s (u64 (data_size s + k))).size ≡ size_byte (total + k) r
  unfolding set_data_size data_size
  size-set_data_size k short =
      let n = u64 (s.size / 2 ^ 3 + k) in
      let low = and_mask 3 s.size in
      let sum : bit_or (s.size % 2 ^ 3) (n % 256 * 2 ^ 3) ≡ s.size % 2 ^ 3 + n % 256 * 2 ^ 3 =
        or_low 3 (s.size % 2 ^ 3) (n % 256) (omega arith) in
      rw (low, sum) (omega arith)

  pub size-set_remaining : (k : ℕ) → k < 8 → (set_remaining s k).size ≡ size_byte total k
  unfolding set_remaining
  size-set_remaining k fits =
      let low = and_mask 3 (k % 256) in
      let high = clear_low s.size (omega arith) in
      let sum : bit_or (s.size / 8 * 2 ^ 3) (k % 256 % 2 ^ 3)
          ≡ s.size / 8 * 2 ^ 3 + k % 256 % 2 ^ 3 =
        or_shifted 3 (s.size / 8) (k % 256 % 2 ^ 3) (omega arith) in
      rw (low, high, sum) (omega arith)
