-- ===== src/Compression/Tests.antt =====
-- The compression wrappers with libraries that copy their input.
use libclod.Prelude.{
  sym, set, ◌⊎◌, ◌≢◌, ℕ, zero, suc, ◌+◌, ◌≤◌, ◌<◌, ◌≡◌, refl, inl, inr, Bool-cases, true, List, [],
  ◌∷◌, none, some, leb, if◌then◌else◌, length, arith,
}
use libclod.Compression.Support.{Libraries}
use libclod.Compression.Types.{
  Outcome, success, unsupported, fail, gzip, xz, bzip2, minecraft_lz4, high,
}
use libclod.Compression.Coder.{Coder}
use libclod.Compression.Library.{Compressors, Fits, Moves, LzmaReturn, BzReturn, ZstdSize}
use libclod.Compression.Single.{Compressor}
use libclod.Compression.Compress.{compress}
use libclod.Compression.Sound.{WritesWithin}
use libclod.Compression.Ends.{Progresses}
use libclod.Compression.Contract.{compress_lem, compress-success, compress-unsupported}
use libclod.Compression.Cache.{IsCached, compress-IsCached}

-- A coder that copies one byte in each call.
abbrev pub copy_code : {R : Type 0} → R → R → R → Coder R Unit
copy_code again done full s [] room = record { ret = done; consumed = 0; produced = []; next = s }
copy_code again done full s (x ∷ input) zero = record {
  ret = full;
  consumed = 0;
  produced = [];
  next = s;
}
copy_code again done full s (x ∷ input) (suc room) = record {
  ret = again;
  consumed = 1;
  produced = x ∷ [];
  next = s;
}

pub copy_code-Fits : {R : Type 0} (again done full : R) → Fits (copy_code again done full)
copy_code-Fits again done full s [] room = omega arith
copy_code-Fits again done full s (x ∷ input) zero = omega arith
copy_code-Fits again done full s (x ∷ input) (suc room) = omega arith

-- Its input, if the room is enough for it.
abbrev copy_all : List ℕ → ℕ → List ℕ
copy_all input room = if leb (length input) room then input else []

copy_all_fits : (input : List ℕ) (room : ℕ) → length (copy_all input room) ≤ room
copy_all_fits input room = elim (Bool-cases (leb (length input) room)) [
  | inl fits ↦ rw fits (ground arith)
  | inr short ↦ rw short (omega arith)
]

-- A handle is the level it was allocated for.
abbrev copying : Compressors Unit ℕ ℕ Unit Unit
copying = record {
  alloc_compressor_ex = λ w level. some level;
  gzip_compress = λ h. copy_all;
  zlib_compress = λ h. copy_all;
  deflate_compress = λ h. copy_all;
  lz4hc_level_max = 12;
  lz4hc_level_opt_min = 10;
  lz4hc_level_default = 9;
  lz4hc_level_min = 2;
  compress_frame = λ level input room. if leb (length input) room then some input else none;
  preset_extreme = 2147483648;
  easy_encoder = λ w preset. (LzmaReturn.ok, w);
  lzma_code = copy_code LzmaReturn.ok LzmaReturn.stream_end LzmaReturn.buf_error;
  create_cctx = λ w. some 1;
  max_level = 22;
  compress_cctx = λ z input room level.
      if leb (length input) room then ZstdSize.no_error input else ZstdSize.dst_size_too_small;
  bz_compress_init = λ w size. (BzReturn.ok, w);
  bz_compress = copy_code BzReturn.finish_ok BzReturn.stream_end BzReturn.other;
}

copies :
    (input : List ℕ) (room : ℕ) (bytes : List ℕ)
    → (if leb (length input) room then some input else none) ≡ some bytes
    → length bytes ≤ room
copies input room bytes e = elim (Bool-cases (leb (length input) room)) [
  | inl fits ↦
      let same = rw fits at e in
      let same' : input ≡ bytes = ground arith in
      let short : length input ≤ room = ground arith in rw (sym same') short
  | inr short ↦ let refused = rw short at e in ground arith
]

copies_cctx :
    (input : List ℕ) (room : ℕ) (bytes : List ℕ)
    → (if leb (length input) room then ZstdSize.no_error input else ZstdSize.dst_size_too_small)
      ≡ ZstdSize.no_error bytes
    → length bytes ≤ room
copies_cctx input room bytes e = elim (Bool-cases (leb (length input) room)) [
  | inl fits ↦
      let same = rw fits at e in
      let same' : input ≡ bytes = ground arith in
      let short : length input ≤ room = ground arith in rw (sym same') short
  | inr short ↦ let refused = rw short at e in ground arith
]

copying-WritesWithin : WritesWithin copying
copying-WritesWithin = record {
  gzip_fits = λ h. copy_all_fits;
  zlib_fits = λ h. copy_all_fits;
  deflate_fits = λ h. copy_all_fits;
  frame_fits = λ level input room bytes e. copies input room bytes e;
  lzma_fits = copy_code-Fits LzmaReturn.ok LzmaReturn.stream_end LzmaReturn.buf_error;
  cctx_fits = λ z input room level bytes e. copies_cctx input room bytes e;
  bz_fits = copy_code-Fits BzReturn.finish_ok BzReturn.stream_end BzReturn.other;
}

pub copy_code-Moves :
    {R : Type 0} (again done full : R)
    → done ≢ again
    → full ≢ again
    → Moves (copy_code again done full) again 0
copy_code-Moves {R} again done full d f = record {
  consumes = consumes;
  patience = λ s. 0;
  patient = λ s. omega arith;
  moves = moves;
}
  where
    consumes :
        (s : Unit) (input : List ℕ) (room : ℕ)
        → (copy_code again done full s input room).consumed ≤ length input
    consumes s [] room = omega arith
    consumes s (x ∷ input) zero = omega arith
    consumes s (x ∷ input) (suc room) = omega arith

    moves :
        (s : Unit) (input : List ℕ) (room : ℕ)
        → (copy_code again done full s input room).ret ≡ again
        → (1
            ≤ (copy_code again done full s input room).consumed
              + length (copy_code again done full s input room).produced)
          ⊎ (0 < 0)
    moves s [] room e = absurd (d e)
    moves s (x ∷ input) zero e = absurd (f e)
    moves s (x ∷ input) (suc room) e = inl (omega arith)

copying-Progresses : Progresses copying 0
copying-Progresses = record {
  lzma_moves =
      copy_code-Moves LzmaReturn.ok LzmaReturn.stream_end LzmaReturn.buf_error (λ e. ground arith)
        (λ e. ground arith);
  bz_moves =
      copy_code-Moves BzReturn.finish_ok BzReturn.stream_end BzReturn.other (λ e. ground arith)
        (λ e. ground arith);
}

abbrev fresh : Compressor ℕ ℕ
fresh = record { libdeflate_compressor = λ level. none; zstd_cctx = none }

abbrev pub all_libraries : Libraries
all_libraries = record { deflate = true; lz4 = true; lzma = true; zstd = true; bz2 = true }

abbrev pub data_bytes : List ℕ
data_bytes = 7 ∷ 8 ∷ 9 ∷ []

compress_lem_example :
    (o : Outcome (Compressor ℕ ℕ)) × (compress copying tt fresh 5 data_bytes all_libraries 20 xz
        high
      ≡ some o)
    × (length o.written ≤ 5)
compress_lem_example =
    compress_lem copying tt fresh 5 data_bytes 0 all_libraries 20 xz high (omega arith)
      copying-WritesWithin copying-Progresses (omega arith)

-- The outcome of a success with a context.
abbrev copied : Compressor ℕ ℕ → Outcome (Compressor ℕ ℕ)
copied c = record { result = success; size = some 3; written = data_bytes; ctx = c }

compresses :
    compress copying tt fresh 5 data_bytes all_libraries 20 bzip2 high ≡ some (copied fresh)
unfolding compress
compresses = refl

compress-success_example :
    ((copied fresh).size ≡ some (length (copied fresh).written))
    × (length (copied fresh).written ≤ 5)
compress-success_example =
    compress-success copying tt fresh 5 data_bytes all_libraries 20 bzip2 high (copied fresh)
      (omega arith) copying-WritesWithin compresses refl

compress-unsupported_example :
    compress copying tt fresh 5 data_bytes all_libraries 20 minecraft_lz4 high
    ≡ some (fail fresh unsupported)
compress-unsupported_example =
    compress-unsupported copying tt fresh 5 data_bytes all_libraries 20 minecraft_lz4 high
      (inr refl)

fresh-IsCached : IsCached copying fresh
fresh-IsCached = record { for_level = λ level h e. ground arith; created = λ z e. ground arith }

abbrev with_compressor : Compressor ℕ ℕ
with_compressor = record {
  libdeflate_compressor = set (λ level. none) high (some 9);
  zstd_cctx = none;
}

compresses_gzip :
    compress copying tt fresh 5 data_bytes all_libraries 0 gzip high ≡ some (copied with_compressor)
unfolding compress
compresses_gzip = refl

compress-IsCached_example : IsCached copying with_compressor
compress-IsCached_example =
    compress-IsCached copying tt fresh 5 data_bytes fresh-IsCached all_libraries 0 gzip high
      (copied with_compressor) (omega arith) compresses_gzip
