-- ===== src/Hash/Crc/Generate.antt =====
-- The computation of the tables: src/hash/crc_tables_generate.c.
use Prim.Native.Nat.{bit_and, bit_or, bit_xor}
use libclod.Prelude.{ℕ, zero, suc, ◌-◌, ◌*◌, ◌/◌, ◌^◌, Bool, true, false, ◌==◌, if◌then◌else◌, u64}

-- `struct crc_details`, less the name.
pub record CrcDetails : Type 0 where
  pub bits : ℕ
  pub polynomial : ℕ
  pub reflect : Bool

-- The array `details`.
abbrev pub crc64 : CrcDetails
crc64 = record { bits = 64; polynomial = 0x42F0E1EBA9EA3693; reflect = false }

abbrev pub crc32 : CrcDetails
crc32 = record { bits = 32; polynomial = 0x04C11DB7; reflect = true }

abbrev pub crc24 : CrcDetails
crc24 = record { bits = 24; polynomial = 0x864CFB; reflect = false }

abbrev pub crc16 : CrcDetails
crc16 = record { bits = 16; polynomial = 0x1021; reflect = true }

abbrev pub crc8 : CrcDetails
crc8 = record { bits = 8; polynomial = 0x07; reflect = false }

-- `MASK(details)`
unfoldable pub mask : CrcDetails → ℕ
mask d = 2 ^ d.bits - 1

-- The loop of `reflect`, from the bit `bits - left` on.
unfoldable pub reflect_loop : ℕ → ℕ → ℕ → ℕ → ℕ
reflect_loop zero n bits r = r
reflect_loop (suc left) n bits r =
    reflect_loop left n bits
      (bit_or r (bit_and (n / 2 ^ (bits - suc left)) 1 * 2 ^ (bits - (bits - suc left) - 1)))

-- `reflect(n, bits)`
unfoldable pub reflect_bits : ℕ → ℕ → ℕ
unfolding reflect_loop
reflect_bits n bits =
    let r = reflect_loop bits n bits 0 in if bits == 64 then r else bit_and r (2 ^ bits - 1)

-- One round of the inner loop of `table_gen`.
unfoldable pub divide_step : CrcDetails → ℕ → ℕ
unfolding mask
divide_step d crc =
    if bit_and crc (2 ^ (d.bits - 1)) == 0
    then u64 (crc * 2)
    else bit_xor (u64 (crc * 2)) (bit_and d.polynomial (mask d))

-- The inner loop.
unfoldable pub divide : ℕ → CrcDetails → ℕ → ℕ
unfolding divide_step
divide zero d crc = crc
divide (suc n) d crc = divide n d (divide_step d crc)

-- `table_gen`, at one index of the table.
unfoldable pub table_gen : CrcDetails → ℕ → ℕ
unfolding divide reflect_bits mask
table_gen d i =
    if d.reflect
    then reflect_bits (divide 8 d (reflect_bits i d.bits)) d.bits
    else bit_and (divide 8 d (u64 (i * 2 ^ (d.bits - 8)))) (mask d)
