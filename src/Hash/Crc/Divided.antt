-- ===== src/Hash/Crc/Divided.antt =====
-- The checks of src/hash/crc.c as division of polynomials, without their tables.
use libclod.Prelude.{ℕ, ◌%◌, ◌^◌, ◌<◌, ◌≡◌, List}
use libclod.Hash.Crc.Update.{crc64_add, crc32_add, crc24_add, crc16_add, crc8_add}
use libclod.Hash.Crc.Forward
use libclod.Hash.Crc.ForwardTables.{
  polynomial64, polynomial24, polynomial8, crc64_add-remainder_of, crc24_add-remainder_of,
  crc8_add-remainder_of,
}
use libclod.Hash.Crc.Reflected
use libclod.Hash.Crc.Reflected.{
  Bytes, polynomial32, polynomial16, crc32_add-remainder_of, crc16_add-remainder_of,
}

-- For any bytes, the five checks with their tables are the division by their polynomials, one binary
-- digit at a time: the checks of 32 and 16 digits with the lowest digit first and the polynomials
-- reflected, from any state, the others with the highest digit first, from a state of 64 digits, from
-- the low 24 digits of any state, and from a state of 8 digits.
pub crc_add-remainder_of :
    (bytes : List ℕ) (crc64 crc32 crc24 crc16 crc8 : ℕ)
    → crc64 < 2 ^ 64
    → crc8 < 2 ^ 8
    → Bytes bytes
    → (crc64_add crc64 bytes ≡ Forward.remainder_of 56 polynomial64 crc64 bytes)
      × (crc32_add crc32 bytes ≡ Reflected.remainder_of polynomial32 crc32 bytes)
      × (crc24_add crc24 bytes ≡ Forward.remainder_of 16 polynomial24 (crc24 % 2 ^ 24) bytes)
      × (crc16_add crc16 bytes ≡ Reflected.remainder_of polynomial16 crc16 bytes)
      × (crc8_add crc8 bytes ≡ Forward.remainder_of 0 polynomial8 crc8 bytes)
crc_add-remainder_of bytes crc64 crc32 crc24 crc16 crc8 word64 word8 all = (
  crc64_add-remainder_of bytes crc64 word64 all,
  crc32_add-remainder_of bytes crc32 all,
  crc24_add-remainder_of bytes crc24 all,
  crc16_add-remainder_of bytes crc16 all,
  crc8_add-remainder_of bytes crc8 word8 all,
)
