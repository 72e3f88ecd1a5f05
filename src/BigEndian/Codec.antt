-- ===== src/BigEndian/Codec.antt =====
-- The unsigned encoders and decoders of include/clod/big_endian.h, one definition for all widths,
-- which the header writes out for 1 to 8 bytes. Memory is a function from addresses to chars.
use Prim.Native.Nat.{bit_or}
use libclod.Prelude.{ℕ, zero, suc, ◌*◌, ◌/◌, ◌%◌, ◌^◌, set}

-- `ptr[0] = (char)(val >> 8 * (n - 1)); …; ptr[n - 1] = (char)(val)`: `beu8_enc` … `beu64_enc`
unfoldable pub beu_enc : ℕ → (ℕ → ℕ) → ℕ → ℕ → ℕ → ℕ
beu_enc zero m ptr val = m
beu_enc (suc n) m ptr val = beu_enc n (set m ptr (val / 2 ^ (8 * n) % 256)) (suc ptr) val

-- `(uint8_t)ptr[0] << 8 * (n - 1) | … | (uint8_t)ptr[n - 1]`: `beu8_dec` … `beu64_dec`
unfoldable pub beu_dec : ℕ → (ℕ → ℕ) → ℕ → ℕ
beu_dec zero m ptr = 0
beu_dec (suc n) m ptr = bit_or (m ptr % 256 * 2 ^ (8 * n)) (beu_dec n m (suc ptr))
