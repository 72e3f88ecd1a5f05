-- ===== src/Compression/Library.antt =====
-- What src/compression/compress.c calls in the libraries: their functions as parameters, and what
-- the code relies on of what they document. The memory that an allocation meets is a value of a
-- type `W`, one for each call of the wrappers.
use libclod.Prelude.{ℕ, ◌+◌, ◌≤◌, ◌<◌, ◌≡◌, ◌⊎◌, List, Option, length}
use libclod.Compression.Coder.{Coder}

-- `lzma_ret`
pub data LzmaReturn : Type 0 where
  ok : LzmaReturn
  stream_end : LzmaReturn
  buf_error : LzmaReturn
  mem_error : LzmaReturn
  memlimit_error : LzmaReturn
  format_error : LzmaReturn
  options_error : LzmaReturn
  data_error : LzmaReturn
  other : LzmaReturn

-- What the functions of libbz2 return.
pub data BzReturn : Type 0 where
  ok : BzReturn
  finish_ok : BzReturn
  stream_end : BzReturn
  mem_error : BzReturn
  data_error_magic : BzReturn
  data_error : BzReturn
  other : BzReturn

-- The value of `ZSTD_compressCCtx`: the bytes that it wrote, or an error.
pub data ZstdSize : Type 0 where
  no_error : List ℕ → ZstdSize
  dst_size_too_small : ZstdSize
  memory_allocation : ZstdSize
  other : ZstdSize

-- The functions that `clod_compress` calls. Those of libdeflate give the bytes they wrote, none if
-- they return 0, and `compress_frame` gives `none` if it returns an error.
pub record Compressors (W H Z S B : Type 0) : Type 0 where
  pub alloc_compressor_ex : W → ℕ → Option H
  pub gzip_compress : H → List ℕ → ℕ → List ℕ
  pub zlib_compress : H → List ℕ → ℕ → List ℕ
  pub deflate_compress : H → List ℕ → ℕ → List ℕ
  pub lz4hc_level_max : ℕ
  pub lz4hc_level_opt_min : ℕ
  pub lz4hc_level_default : ℕ
  pub lz4hc_level_min : ℕ
  -- Its arguments are the level, the input and the room; the content size is that of the input.
  pub compress_frame : ℕ → List ℕ → ℕ → Option (List ℕ)
  pub preset_extreme : ℕ
  pub easy_encoder : W → ℕ → LzmaReturn × S
  pub lzma_code : Coder LzmaReturn S
  pub create_cctx : W → Option Z
  pub max_level : ℕ
  pub compress_cctx : Z → List ℕ → ℕ → ℕ → ZstdSize
  pub bz_compress_init : W → ℕ → BzReturn × B
  pub bz_compress : Coder BzReturn B

-- A library writes no byte past the room that it is given.
abbrev pub Fits : {R S : Type 0} → Coder R S → Type 0
Fits {S = S} code = (s : S) (input : List ℕ) (room : ℕ) → length (code s input room).produced ≤ room

-- A library that asks to be called again has consumed or produced something, but for at most `limit`
-- times in a row: `patience` is how many of these are left. What `limit` is, is a matter of the
-- library.
pub record Moves {R S : Type 0} (code : Coder R S) (again : R) (limit : ℕ) : Type 0 where
  pub consumes : (s : S) (input : List ℕ) (room : ℕ) → (code s input room).consumed ≤ length input
  pub patience : S → ℕ
  pub patient : (s : S) → patience s ≤ limit
  pub moves :
      (s : S) (input : List ℕ) (room : ℕ)
      → (code s input room).ret ≡ again
      → (1 ≤ (code s input room).consumed + length (code s input room).produced)
        ⊎ (patience (code s input room).next < patience s)
