-- ===== src/Hash/Crc/Update.antt =====
-- The updates of src/hash/crc.c, and the starts and ends of include/clod/hash.h. The bytes behind
-- `data` are a list; a byte is below 256, so that no index passes the end of a table.
use Prim.Native.Nat.{bit_and, bit_xor}
use libclod.Prelude.{ℕ, ◌*◌, ◌/◌, ◌%◌, ◌^◌, List, [], ◌∷◌, u64, get_or}
use libclod.Hash.Crc.Table64.{crc64_table}
use libclod.Hash.Crc.Tables.{crc32_table, crc24_table, crc16_table, crc8_table}

-- `clod_crc64_add(crc, data, data_len)`
unfoldable pub crc64_add : ℕ → List ℕ → ℕ
crc64_add crc [] = crc
crc64_add crc (p ∷ bytes) =
    crc64_add (bit_xor (get_or crc64_table (bit_xor (crc / 2 ^ 56) p) 0) (u64 (crc * 2 ^ 8))) bytes

-- `clod_crc32_add(crc, data, data_len)`
unfoldable pub crc32_add : ℕ → List ℕ → ℕ
crc32_add crc [] = crc
crc32_add crc (p ∷ bytes) =
    crc32_add (bit_xor (get_or crc32_table (bit_xor (bit_and crc 0xff) p) 0) (crc / 2 ^ 8)) bytes

-- The loop of `clod_crc24_add`.
unfoldable pub crc24_loop : ℕ → List ℕ → ℕ
crc24_loop crc [] = crc
crc24_loop crc (p ∷ bytes) =
    let shifted = crc * 2 ^ 8 % 2 ^ 32 in
    let next = bit_xor (get_or crc24_table (bit_xor (crc / 2 ^ 16) p) 0) shifted in
    crc24_loop (bit_and next 0x00FFFFFF) bytes

-- `clod_crc24_add(crc, data, data_len)`
unfoldable pub crc24_add : ℕ → List ℕ → ℕ
crc24_add crc bytes = crc24_loop (bit_and crc 0x00FFFFFF) bytes

-- `clod_crc16_add(crc, data, data_len)`
unfoldable pub crc16_add : ℕ → List ℕ → ℕ
crc16_add crc [] = crc
crc16_add crc (p ∷ bytes) =
    crc16_add (bit_xor (get_or crc16_table (bit_xor (bit_and crc 0xff) p) 0) (crc / 2 ^ 8)) bytes

-- `clod_crc8_add(crc, data, data_len)`
unfoldable pub crc8_add : ℕ → List ℕ → ℕ
crc8_add crc [] = crc
crc8_add crc (p ∷ bytes) =
    crc8_add (bit_xor (get_or crc8_table (bit_xor (bit_and crc 0xff) p) 0) (crc / 2 ^ 8)) bytes

-- `clod_crc64(data, size)` … `clod_crc8(data, size)`: all ones, the update, all digits flipped.
unfoldable pub crc64_of : List ℕ → ℕ
crc64_of bytes = bit_xor (crc64_add 0xFFFFFFFFFFFFFFFF bytes) 0xFFFFFFFFFFFFFFFF

unfoldable pub crc32_of : List ℕ → ℕ
crc32_of bytes = bit_xor (crc32_add 0xFFFFFFFF bytes) 0xFFFFFFFF

unfoldable pub crc24_of : List ℕ → ℕ
crc24_of bytes = bit_xor (crc24_add 0xFFFFFF bytes) 0xFFFFFF

unfoldable pub crc16_of : List ℕ → ℕ
crc16_of bytes = bit_xor (crc16_add 0xFFFF bytes) 0xFFFF

unfoldable pub crc8_of : List ℕ → ℕ
crc8_of bytes = bit_xor (crc8_add 0xFF bytes) 0xFF
