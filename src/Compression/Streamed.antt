-- ===== src/Compression/Streamed.antt =====
-- The methods of `clod_compress` of src/compression/compress.c that call a library in a loop.
use Prim.Native.Nat.{bit_or}
use libclod.Prelude.{
  ℕ, ◌+◌, ◌*◌, ◌/◌, ◌%◌, ◌^◌, List, [], Option, none, some, ltb, ◌==◌, if◌then◌else◌, length, take,
}
use libclod.Compression.Types.{
  if_null, success, unsupported, short_buffer, alloc_failed, Outcome, fail,
}
use libclod.Compression.Coder.{Stream, code_loop}
use libclod.Compression.Library.{Compressors, LzmaReturn, BzReturn}
use libclod.Compression.Single.{Compressor, choose_level}

-- `if (stream.avail_out == 0)` at the start of a round for libbz2.
abbrev pub is_full : {S : Type 0} → Stream S → Option (Option BzReturn)
is_full s = if s.avail_out == 0 then some none else none

abbrev pub never : {S X : Type 0} → Stream S → Option X
never s = none

-- `while (ret == LZMA_OK)`
abbrev pub until_not_ok : {S : Type 0} → LzmaReturn → Stream S → Option LzmaReturn
until_not_ok LzmaReturn.ok s = none
until_not_ok r s = some r

-- `while (res == BZ_FINISH_OK)`
abbrev pub until_finished : {S : Type 0} → BzReturn → Stream S → Option (Option BzReturn)
until_finished BzReturn.finish_ok s = none
until_finished r s = some (some r)

-- `(size_t)stream.total_out_lo32 + ((size_t)stream.total_out_hi32 << 32)`
abbrev pub bz_total : ℕ → ℕ
bz_total n = n % 2 ^ 32 + n / 2 ^ 32 % 2 ^ 32 * 2 ^ 32

module _ {W H Z S B : Type 0} (lib : Compressors W H Z S B) (w : W) (ctx : Compressor H Z)
    (dst_max : ℕ) (src : List ℕ) where
  -- The end of the loop for liblzma.
  unfoldable pub xz_result : LzmaReturn → Stream S → Outcome (Compressor H Z)
  xz_result LzmaReturn.stream_end s = record {
    result = success;
    size = some (length s.out);
    written = s.out;
    ctx = ctx;
  }
  xz_result LzmaReturn.buf_error s =
      if s.avail_out == 0
      then record { result = short_buffer; size = some 0; written = s.out; ctx = ctx }
      else record { result = unsupported; size = none; written = s.out; ctx = ctx }
  xz_result LzmaReturn.mem_error s = record {
    result = alloc_failed;
    size = none;
    written = s.out;
    ctx = ctx;
  }
  xz_result r s = record { result = unsupported; size = none; written = s.out; ctx = ctx }

  unfoldable pub lzma_stream : S → Stream S
  lzma_stream state = record { state = state; input = src; avail_out = dst_max; out = [] }

  unfoldable pub xz_run : ℕ → S → Option (Outcome (Compressor H Z))
  unfolding code_loop xz_result lzma_stream
  xz_run fuel state =
      if_null (code_loop fuel never lib.lzma_code until_not_ok (lzma_stream state)) none
        (λ (r, s). some (xz_result r s))

  -- What follows the answer of `lzma_easy_encoder`.
  unfoldable pub xz_started :
      LzmaReturn → Option (Outcome (Compressor H Z)) → Option (Outcome (Compressor H Z))
  xz_started LzmaReturn.ok run = run
  xz_started LzmaReturn.mem_error run = some (fail ctx alloc_failed)
  xz_started r run = some (fail ctx unsupported)

  unfoldable pub compress_xz : ℕ → ℕ → Option (Outcome (Compressor H Z))
  unfolding xz_run xz_started
  compress_xz fuel level =
      let preset = choose_level level (bit_or lib.preset_extreme 9) 8 6 3 1 6 in
      let (ret, state) = lib.easy_encoder w preset in xz_started ret (xz_run fuel state)

  -- The end of the loop for libbz2, `none` being a full buffer.
  unfoldable pub bz_result : Option BzReturn → Stream B → Outcome (Compressor H Z)
  bz_result none s = record { result = short_buffer; size = some 0; written = s.out; ctx = ctx }
  bz_result (some BzReturn.stream_end) s = record {
    result = success;
    size = some (bz_total (length s.out));
    written = s.out;
    ctx = ctx;
  }
  bz_result (some BzReturn.mem_error) s = record {
    result = alloc_failed;
    size = none;
    written = s.out;
    ctx = ctx;
  }
  bz_result (some r) s = record { result = unsupported; size = none; written = s.out; ctx = ctx }

  -- The sizes are converted to `unsigned`.
  unfoldable pub bz_stream : B → Stream B
  bz_stream state = record {
    state = state;
    input = take (length src % 2 ^ 32) src;
    avail_out = dst_max % 2 ^ 32;
    out = [];
  }

  unfoldable pub bz_run : ℕ → B → Option (Outcome (Compressor H Z))
  unfolding code_loop bz_result bz_stream
  bz_run fuel state =
      if_null (code_loop fuel is_full lib.bz_compress until_finished (bz_stream state)) none
        (λ (r, s). some (bz_result r s))

  -- What follows the answer of `BZ2_bzCompressInit`.
  unfoldable pub bz_started :
      BzReturn → Option (Outcome (Compressor H Z)) → Option (Outcome (Compressor H Z))
  bz_started BzReturn.ok run = run
  bz_started BzReturn.mem_error run = some (fail ctx alloc_failed)
  bz_started r run = some (fail ctx unsupported)

  unfoldable pub compress_bzip2 : ℕ → ℕ → Option (Outcome (Compressor H Z))
  unfolding bz_run bz_started
  compress_bzip2 fuel level =
      let block_size = choose_level level 9 7 5 3 1 6 in
      let (res, state) = lib.bz_compress_init w block_size in
      if ltb 4294967295 (length src)
      then some (fail ctx unsupported)
      else bz_started res (bz_run fuel state)
