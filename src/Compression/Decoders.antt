-- ===== src/Compression/Decoders.antt =====
-- What src/compression/decompress.c calls in the libraries: their functions as parameters.
use libclod.Prelude.{ℕ, Bool, List, Option}
use libclod.Compression.Coder.{Coder}
use libclod.Compression.Library.{LzmaReturn, BzReturn}

-- `enum libdeflate_result`
pub data DeflateReturn : Type 0 where
  success : DeflateReturn
  bad_data : DeflateReturn
  short_output : DeflateReturn
  insufficient_space : DeflateReturn
  other : DeflateReturn

-- What a function of libdeflate answers, writes into the room and stores at `actual_size`.
pub record Inflated : Type 0 where
  pub answer : DeflateReturn
  pub bytes : List ℕ
  pub stored : Option ℕ

-- The value of `ZSTD_decompressStream`: 0, another hint, or an error.
pub data ZstdReturn : Type 0 where
  finished : ZstdReturn
  more : ZstdReturn
  dest_full : ZstdReturn
  failed : ZstdReturn

-- The functions that `clod_decompress` calls. The last argument of those of libdeflate is whether
-- `actual_size` is given; `lz4f_decompress` answers `none` for an error and else the hint.
pub record Decompressors (W H L S D B : Type 0) : Type 0 where
  pub alloc_decompressor_ex : W → Option H
  pub gzip_decompress : H → List ℕ → ℕ → Bool → Inflated
  pub zlib_decompress : H → List ℕ → ℕ → Bool → Inflated
  pub deflate_decompress : H → List ℕ → ℕ → Bool → Inflated
  pub min_header_size : ℕ
  pub header_size : List ℕ → Option ℕ
  pub create_context : W → Option L
  -- The content size and how much of the input the header takes, or an error.
  pub get_frame_info : L → List ℕ → Option (ℕ × ℕ) × L
  pub lz4f_decompress : Coder (Option ℕ) L
  pub reset_context : L → L
  pub stream_decoder : W → LzmaReturn × S
  pub lzma_code : Coder LzmaReturn S
  pub create_dctx : W → Option D
  pub decompress_stream : Coder ZstdReturn D
  pub reset_session : D → D
  -- `none` if the size is unknown or the frame is not valid.
  pub frame_content_size : List ℕ → Option ℕ
  pub bz_decompress_init : W → BzReturn × B
  pub bz_decompress : Coder BzReturn B
