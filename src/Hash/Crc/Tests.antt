-- ===== src/Hash/Crc/Tests.antt =====
-- The checks of src/hash/crc.c on the usual test message, `123456789`.
use libclod.Prelude.{ℕ, ◌%◌, ◌^◌, List, [], ◌∷◌, ◌≡◌, refl, get_or, arith}
use libclod.Hash.Crc.Table64.{crc64_table}
use libclod.Hash.Crc.Tables.{crc32_table, crc24_table, crc16_table, crc8_table}
use libclod.Hash.Crc.Generate.{crc64, crc32, crc24, crc16, crc8, table_gen}
use libclod.Hash.Crc.Generated.{tables-table_gen}
use libclod.Hash.Crc.Forward
use libclod.Hash.Crc.ForwardTables.{polynomial64, polynomial24, polynomial8}
use libclod.Hash.Crc.Reflected
use libclod.Hash.Crc.Reflected.{Bytes, polynomial32, polynomial16}
use libclod.Hash.Crc.Divided.{crc_add-remainder_of}
use libclod.Hash.Crc.Update.{
  crc24_add, crc8_add, crc64_of, crc32_of, crc16_of, crc64_add, crc32_add, crc16_add,
}

abbrev digits : List ℕ
digits = 49 ∷ 50 ∷ 51 ∷ 52 ∷ 53 ∷ 54 ∷ 55 ∷ 56 ∷ 57 ∷ []

crc32-digits : crc32_of digits ≡ 0xCBF43926
unfolding crc32_of crc32_add
crc32-digits = refl

crc64-digits : crc64_of digits ≡ 0x62EC59E3F1A4F00A
unfolding crc64_of crc64_add
crc64-digits = refl

crc16-digits : crc16_of digits ≡ 0x906E
unfolding crc16_of crc16_add
crc16-digits = refl

tables-table_gen_example :
    (get_or crc64_table 3 0 ≡ table_gen crc64 3)
    × (get_or crc32_table 3 0 ≡ table_gen crc32 3)
    × (get_or crc24_table 3 0 ≡ table_gen crc24 3)
    × (get_or crc16_table 3 0 ≡ table_gen crc16 3)
    × (get_or crc8_table 3 0 ≡ table_gen crc8 3)
tables-table_gen_example = tables-table_gen 3 (omega arith)

digits-Bytes : Bytes digits
digits-Bytes = (
  omega arith,
  (
    omega arith,
    (
      omega arith,
      (omega arith, (omega arith, (omega arith, (omega arith, (omega arith, (omega arith, tt)))))),
    ),
  ),
)

crc_add-remainder_of_example :
    (crc64_add 5 digits ≡ Forward.remainder_of 56 polynomial64 5 digits)
    × (crc32_add 5 digits ≡ Reflected.remainder_of polynomial32 5 digits)
    × (crc24_add 5 digits ≡ Forward.remainder_of 16 polynomial24 (5 % 2 ^ 24) digits)
    × (crc16_add 5 digits ≡ Reflected.remainder_of polynomial16 5 digits)
    × (crc8_add 5 digits ≡ Forward.remainder_of 0 polynomial8 5 digits)
crc_add-remainder_of_example =
    crc_add-remainder_of digits 5 5 5 5 5 (omega arith) (omega arith) digits-Bytes
