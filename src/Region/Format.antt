-- ===== src/Region/Format.antt =====
-- The header of a region file, as src/region/region_format/format.c and src/region/header.h read it.
-- A file is a function from offsets to bytes, and its size.
use libclod.Prelude.{
  ℕ, zero, suc, ◌+◌, ◌*◌, ◌%◌, ◌^◌, ◌≤◌, ◌<◌, ◌≡◌, refl, ap, arith, Bool, true, false, Bool-cases,
  ltb, leb, ◌==◌, ◌&&◌, Option, none, some, List, [], ◌∷◌, ℤ, get_or, if◌then◌else◌, inl, inr,
}
use libclod.BigEndian.{beu_dec, beu_dec-suc}
use libclod.Region.Options.{starts_with}
use libclod.Vmath.Group.{vec_group}
use libclod.Vmath.Bounds.{vec_group-lt}

-- `HEADER_MAGIC`, of 101 characters
abbrev pub magic : List ℕ
magic =
    10 ∷ 10 ∷ 108 ∷ 105 ∷ 98 ∷ 99 ∷ 108 ∷ 111 ∷ 100 ∷ 32 ∷ 101 ∷ 120 ∷ 116 ∷ 101 ∷ 110 ∷ 100 ∷ 101
    ∷ 100 ∷ 32 ∷ 114 ∷ 101 ∷ 103 ∷ 105 ∷ 111 ∷ 110 ∷ 32 ∷ 102 ∷ 105 ∷ 108 ∷ 101 ∷ 32 ∷ 102 ∷ 111
    ∷ 114 ∷ 109 ∷ 97 ∷ 116 ∷ 32 ∷ 118 ∷ 101 ∷ 114 ∷ 115 ∷ 105 ∷ 111 ∷ 110 ∷ 32 ∷ 49 ∷ 46 ∷ 10 ∷ 83
    ∷ 101 ∷ 101 ∷ 32 ∷ 103 ∷ 105 ∷ 116 ∷ 104 ∷ 117 ∷ 98 ∷ 46 ∷ 99 ∷ 111 ∷ 109 ∷ 47 ∷ 115 ∷ 116 ∷ 101
    ∷ 119 ∷ 105 ∷ 49 ∷ 48 ∷ 49 ∷ 52 ∷ 47 ∷ 99 ∷ 108 ∷ 111 ∷ 100 ∷ 32 ∷ 102 ∷ 111 ∷ 114 ∷ 32 ∷ 102
    ∷ 111 ∷ 114 ∷ 109 ∷ 97 ∷ 116 ∷ 32 ∷ 100 ∷ 101 ∷ 116 ∷ 97 ∷ 105 ∷ 108 ∷ 115 ∷ 46 ∷ 10 ∷ 10 ∷ 10
    ∷ []

abbrev pub header_vanilla_size : ℕ
header_vanilla_size = 8192

-- `HEADER_LIBCLOD_SIZE_MIN`
abbrev pub header_libclod_size_min : ℕ
header_libclod_size_min = 128 + 128

abbrev pub header_vanilla_sector_size : ℕ
header_vanilla_sector_size = 4096

-- `HEADER_VERSION_VANILLA`, `HEADER_VERSION_LIBCLOD`, `HEADER_VERSION_COMPOUND`, and -1
pub data HeaderVersion : Type 0 where
  vanilla : HeaderVersion
  libclod_format : HeaderVersion
  compound : HeaderVersion
  unknown : HeaderVersion

-- `header_version(file, file_end)`: `none` if the file is empty, which fails an assertion.
unfoldable pub header_version : (ℕ → ℕ) → ℕ → Option HeaderVersion
header_version file size =
    if size == 0
    then none
    else if leb header_libclod_size_min size && starts_with file magic
    then some libclod_format
    else if leb (header_vanilla_size + header_libclod_size_min) size
        && starts_with (λ i. file (i + header_vanilla_size)) magic
    then some compound
    else if leb header_vanilla_size size
    then some vanilla
    else some unknown

-- `struct format_chunk_get`: the offset of a chunk and its size
abbrev pub Location : Type 0
Location = ℕ × ℕ

-- The two cases of `format_chunk_get` that return, for the chunk at an index.
unfoldable pub vanilla_location : (ℕ → ℕ) → ℕ → Location
vanilla_location file chunk_index = (
  beu_dec 3 file (chunk_index * 4) * header_vanilla_sector_size,
  beu_dec 1 file (chunk_index * 4 + 3) * header_vanilla_sector_size,
)

abbrev location_for : Option HeaderVersion → Location → Option Location
location_for (some vanilla) at = some at
location_for (some compound) at = some at
location_for (some libclod_format) at = none
location_for (some unknown) at = none
location_for none at = none

-- `format_chunk_get(file, file_end, pos, dims)`: `none` where an assertion fails, or the source has
-- no value to return.
unfoldable pub format_chunk_get : (ℕ → ℕ) → ℕ → (ℕ → ℤ) → ℕ → Option Location
format_chunk_get file size pos dims =
    location_for (header_version file size) (vanilla_location file ((vec_group pos dims 10).0))

-- Where the entry of an index in the header says that its chunk is: the entry are the four bytes
-- from four times the index on, within the file; the first three, the most significant one first,
-- are the number of the sector where the chunk begins, the last is the number of its sectors, of
-- 4096 bytes.
abbrev pub IsLocated : (ℕ → ℕ) → ℕ → ℕ → Location → Type 0
IsLocated file size chunk_index at =
    (chunk_index * 4 + 4 ≤ size)
    × (at.0
        ≡ (file (chunk_index * 4) % 256 * 65536
            + file (chunk_index * 4 + 1) % 256 * 256
            + file (chunk_index * 4 + 2) % 256)
          * 4096)
    × (at.1 ≡ file (chunk_index * 4 + 3) % 256 * 4096)

-- The numbers of one and of three bytes.
beu8_dec_lem : (file : ℕ → ℕ) (ptr : ℕ) → beu_dec 1 file ptr ≡ file ptr % 256
unfolding beu_dec
beu8_dec_lem file ptr = omega (arith, beu_dec-suc 0 file ptr)

beu24_dec_lem :
    (file : ℕ → ℕ) (ptr : ℕ)
    → beu_dec 3 file ptr
      ≡ file ptr % 256 * 65536 + file (ptr + 1) % 256 * 256 + file (ptr + 2) % 256
beu24_dec_lem file ptr =
    let first = beu_dec-suc 2 file ptr in
    let second = beu_dec-suc 1 file (suc ptr) in
    let third = beu8_dec_lem file (suc (suc ptr)) in
    let at1 : file (ptr + 1) ≡ file (suc ptr) = ap file (omega arith) in
    let at2 : file (ptr + 2) ≡ file (suc (suc ptr)) = ap file (omega arith) in
    omega (arith, first, second, third, at1, at2)

vanilla_location-IsLocated :
    (file : ℕ → ℕ) (size chunk_index : ℕ)
    → chunk_index < 1024
    → 8192 ≤ size
    → IsLocated file size chunk_index (vanilla_location file chunk_index)
unfolding vanilla_location
vanilla_location-IsLocated file size chunk_index few large = (
  omega (arith, few, large),
  ap (λ sector. sector * header_vanilla_sector_size) (beu24_dec_lem file (chunk_index * 4)),
  ap (λ sectors. sectors * header_vanilla_sector_size) (beu8_dec_lem file (chunk_index * 4 + 3)),
)

-- A file of less than 8192 bytes has no locations.
no_location :
    (file : ℕ → ℕ) (size : ℕ) (at : Location)
    → size < 8192
    → location_for (header_version file size) at ≡ none
unfolding header_version
no_location file size at small =
    let short : leb header_vanilla_size size ≡ false = ground (arith, small) in
    let shorter : leb (header_vanilla_size + header_libclod_size_min) size ≡ false =
      ground (arith, small) in
    elim (Bool-cases (size == 0)) [
      | inl empty ↦ rw empty refl
      | inr some_bytes ↦
          elim (Bool-cases (leb header_libclod_size_min size && starts_with file magic)) [
            | inl own ↦ rw (some_bytes, own) refl
            | inr other ↦ rw (some_bytes, other, shorter, short) refl
          ]
    ]

location_for-same :
    (v : Option HeaderVersion) (l at : Location) → location_for v l ≡ some at → at ≡ l
location_for-same (some vanilla) l at e = cc e
location_for-same (some compound) l at e = cc e
location_for-same (some libclod_format) l at e = absurd (ground (arith, e))
location_for-same (some unknown) l at e = absurd (ground (arith, e))
location_for-same none l at e = absurd (ground (arith, e))

-- For a position of any length, `format_chunk_get` returns, if it returns, the location that the
-- four bytes of the header name which stand at four times the number of the position in its group of
-- 1024: they lie within the file, three of them are the offset in sectors, the last one is the size.
pub format_chunk_get-IsLocated :
    (file : ℕ → ℕ) (size : ℕ) (pos : ℕ → ℤ) (dims : ℕ) (at : Location)
    → format_chunk_get file size pos dims ≡ some at
    → IsLocated file size ((vec_group pos dims 10).0) at
unfolding format_chunk_get
format_chunk_get-IsLocated file size pos dims at e =
    let chunk_index = (vec_group pos dims 10).0 in
    let l = vanilla_location file chunk_index in
    elim (Bool-cases (ltb size 8192)) [
      | inl small ↦ absurd (ground (arith, e, no_location file size l (ground (arith, small))))
      | inr large ↦ rw (location_for-same (header_version file size) l at e) (
          vanilla_location-IsLocated file size chunk_index (vec_group-lt pos dims 10)
            (ground (arith, large)))
    ]

-- `extent` and `cardinality` of header.h, by the number of dimensions
abbrev extents : List ℕ
extents = 0 ∷ 1024 ∷ 32 ∷ 10 ∷ 5 ∷ 4 ∷ 3 ∷ 2 ∷ 2 ∷ 2 ∷ 2 ∷ []

abbrev cardinalities : List ℕ
cardinalities = 0 ∷ 1024 ∷ 1024 ∷ 1000 ∷ 625 ∷ 1024 ∷ 729 ∷ 128 ∷ 256 ∷ 512 ∷ 1024 ∷ []

unfoldable pub extent : ℕ → ℕ
extent dims = get_or extents dims 0

unfoldable pub cardinality : ℕ → ℕ
cardinality dims = get_or cardinalities dims 0

-- The test of the number of dimensions, up to `n`.
abbrev chosen : ℕ → Bool
chosen zero = true
chosen (suc n) =
    chosen n
    && (cardinality (suc n) == extent (suc n) ^ suc n
        && (leb (cardinality (suc n)) 1024 && ltb 1024 ((extent (suc n) + 1) ^ suc n)))

chosen-below :
    (n dims : ℕ)
    → chosen n ≡ true
    → 1 ≤ dims
    → dims ≤ n
    → (cardinality dims ≡ extent dims ^ dims)
      × (cardinality dims ≤ 1024)
      × (1024 < (extent dims + 1) ^ dims)
chosen-below zero dims all low high = absurd (omega (arith, low, high))
chosen-below (suc n) dims all low high = elim (Bool-cases (dims == suc n)) [
  | inl last ↦
      let same : dims ≡ suc n = ground (arith, last) in
      rw same (ground (arith, all), ground (arith, all), ground (arith, all))
  | inr other ↦ chosen-below n dims (ground (arith, all)) low (ground (arith, other, high))
]

ten_chosen : chosen 10 ≡ true
unfolding cardinality extent
ten_chosen = refl

-- For 1 to 10 dimensions, the cardinality is the extent to the power of the dimensions; the extent is
-- the largest with which it is at most 1024.
pub cardinality-extent :
    (dims : ℕ)
    → 1 ≤ dims
    → dims ≤ 10
    → (cardinality dims ≡ extent dims ^ dims)
      × (cardinality dims ≤ 1024)
      × (1024 < (extent dims + 1) ^ dims)
cardinality-extent dims low high = chosen-below 10 dims ten_chosen low high
