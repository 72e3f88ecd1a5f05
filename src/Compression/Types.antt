-- ===== src/Compression/Types.antt =====
-- The methods, levels and results of include/clod/compression.h. A method and a level are the
-- numbers of their enumerators, since a caller may pass any number.
use libclod.Prelude.{ℕ, List, [], Option, none}
pub use libclod.Prelude.{if_null}

abbrev pub uncompressed : ℕ
uncompressed = 1

abbrev pub gzip : ℕ
gzip = 2

abbrev pub zlib : ℕ
zlib = 3

abbrev pub deflate : ℕ
deflate = 4

abbrev pub lz4f : ℕ
lz4f = 5

abbrev pub xz : ℕ
xz = 6

abbrev pub zstd : ℕ
zstd = 7

abbrev pub bzip2 : ℕ
bzip2 = 8

abbrev pub minecraft_lz4 : ℕ
minecraft_lz4 = 10

abbrev pub lowest : ℕ
lowest = 0

abbrev pub low : ℕ
low = 1

abbrev pub normal : ℕ
normal = 2

abbrev pub high : ℕ
high = 3

abbrev pub highest : ℕ
highest = 4

abbrev pub levels : ℕ
levels = 5

-- `enum clod_compression_result`
pub data Result : Type 0 where
  success : Result
  unsupported : Result
  malformed : Result
  short_buffer : Result
  short_output : Result
  alloc_failed : Result

-- What a call leaves: its result, what it stored at `actual_size` (`none` if nothing), the bytes
-- from the start of `dst` that were put out, and the context. Bytes that a library may have written
-- there before it refused the whole call are not kept.
pub record Outcome (C : Type 0) : Type 0 where
  pub result : Result
  pub size : Option ℕ
  pub written : List ℕ
  pub ctx : C

-- A return that neither stores a size nor writes a byte.
abbrev pub fail : {C : Type 0} → C → Result → Outcome C
fail c r = record { result = r; size = none; written = []; ctx = c }
