-- ===== src/Nbt/Types.antt =====
-- The types of NBT payloads and their zero sizes: include/clod/nbt.h, src/nbt/nbt.c. Memory is a
-- function from addresses to chars, which stand for themselves as numbers below 256; a char
-- that C takes as negative is one from 128, which no comparison of the source treats otherwise.
use libclod.Prelude.{
  ℕ, ◌+◌, ◌-◌, ◌^◌, List, [], ◌∷◌, Bool, ltb, leb, ◌==◌, not, if◌then◌else◌, get_or,
}

abbrev pub Memory : Type 0
Memory = ℕ → ℕ

-- `payload_zero_sizes`, in the order of the indices `CLOD_NBT_ZERO` to `CLOD_NBT_INT64_ARRAY`
abbrev pub payload_zero_sizes : List ℕ
payload_zero_sizes = 0 ∷ 1 ∷ 2 ∷ 4 ∷ 8 ∷ 4 ∷ 8 ∷ 4 ∷ 2 ∷ 5 ∷ 1 ∷ 4 ∷ 4 ∷ []

-- `type_zero_size(type)`
abbrev pub type_zero_size : ℕ → ℕ
type_zero_size type = if ltb type 13 then get_or payload_zero_sizes type 0 else 0

-- `type_valid(type)`
abbrev pub type_valid : ℕ → Bool
type_valid type = not (type_zero_size type == 0)

-- `available(ptr, end)`
abbrev pub available : ℕ → ℕ → ℕ
available ptr end = if leb ptr end then end - ptr else 0

abbrev pub int8_array : ℕ
int8_array = 7

abbrev pub string : ℕ
string = 8

abbrev pub list : ℕ
list = 9

abbrev pub compound : ℕ
compound = 10

abbrev pub int32_array : ℕ
int32_array = 11

abbrev pub int64_array : ℕ
int64_array = 12

-- `(size_t)` of an `int32_t` that is given by its 32 bits.
abbrev pub size_of_i32 : ℕ → ℕ
size_of_i32 v = if ltb v (2 ^ 31) then v else v + (2 ^ 64 - 2 ^ 32)
