-- ===== src/Hash/Crc/Generated.antt =====
-- The tables of src/hash/crc_tables.h against src/hash/crc_tables_generate.c.
use libclod.Prelude.{ℕ, ◌<◌, ◌≡◌, refl, List, Bool, ◌==◌, count, get_or, arith}
use libclod.Prelude.Bits.{count_full}
use libclod.Hash.Crc.Table64.{crc64_table}
use libclod.Hash.Crc.Tables.{crc32_table, crc24_table, crc16_table, crc8_table}
use libclod.Hash.Crc.Generate.{CrcDetails, crc64, crc32, crc24, crc16, crc8, table_gen}

abbrev agrees : List ℕ → CrcDetails → ℕ → Bool
agrees table d i = get_or table i 0 == table_gen d i

agrees_at :
    (table : List ℕ) (d : CrcDetails) (i : ℕ)
    → i < 256
    → count (agrees table d) 256 ≡ 256
    → get_or table i 0 ≡ table_gen d i
agrees_at table d i below all = ground (arith, count_full (agrees table d) 256 i below all)

count-crc64 : count (agrees crc64_table crc64) 256 ≡ 256
unfolding count table_gen
count-crc64 = refl

count-crc32 : count (agrees crc32_table crc32) 256 ≡ 256
unfolding count table_gen
count-crc32 = refl

count-crc24 : count (agrees crc24_table crc24) 256 ≡ 256
unfolding count table_gen
count-crc24 = refl

count-crc16 : count (agrees crc16_table crc16) 256 ≡ 256
unfolding count table_gen
count-crc16 = refl

count-crc8 : count (agrees crc8_table crc8) 256 ≡ 256
unfolding count table_gen
count-crc8 = refl

-- Each of the five tables has, at every index below 256, what the generator computes for it.
pub tables-table_gen :
    (i : ℕ)
    → i < 256
    → (get_or crc64_table i 0 ≡ table_gen crc64 i)
      × (get_or crc32_table i 0 ≡ table_gen crc32 i)
      × (get_or crc24_table i 0 ≡ table_gen crc24 i)
      × (get_or crc16_table i 0 ≡ table_gen crc16 i)
      × (get_or crc8_table i 0 ≡ table_gen crc8 i)
tables-table_gen i below = (
  agrees_at crc64_table crc64 i below count-crc64,
  agrees_at crc32_table crc32 i below count-crc32,
  agrees_at crc24_table crc24 i below count-crc24,
  agrees_at crc16_table crc16 i below count-crc16,
  agrees_at crc8_table crc8 i below count-crc8,
)
