-- ===== src/Compression/StreamedSound.antt =====
-- The same for the methods of src/compression/compress.c that call a library in a loop.
use Prim.Native.Nat.{bit_or}
use libclod.Prelude.{ℕ, ◌%◌, ◌^◌, ◌≤◌, ◌<◌, ◌≡◌, List, Option, none, some, arith, length, ltb, ◌==◌}
use libclod.Compression.Types.{unsupported, short_buffer, alloc_failed, Outcome}
use libclod.Compression.Coder.{Stream}
use libclod.Compression.Library.{Compressors, LzmaReturn, BzReturn}
use libclod.Compression.Loops.{Every, if_both, Left, code_loop-Left, Every-if_null}
use libclod.Compression.Single.{Compressor, choose_level}
use libclod.Compression.Streamed.{
  never, is_full, until_not_ok, until_finished, bz_total, xz_result, lzma_stream, xz_run,
  xz_started, compress_xz, bz_result, bz_stream, bz_run, bz_started, compress_bzip2,
}
use libclod.Compression.Sound.{
  WritesWithin, Sound, done-Sound, stopped-Sound, fail-Sound, unsupported≢success,
  short_buffer≢success, alloc_failed≢success,
}

module _ {W H Z S B : Type 0} (lib : Compressors W H Z S B) (w : W) (ctx : Compressor H Z)
    (dst_max : ℕ) (src : List ℕ) where
  abbrev Good : Outcome (Compressor H Z) → Type 0
  Good o = Sound dst_max o

  xz_result-Sound :
      (r : LzmaReturn) (s : Stream S)
      → length s.out ≤ dst_max
      → Sound dst_max (xz_result lib w ctx dst_max src r s)
  unfolding xz_result
  xz_result-Sound LzmaReturn.stream_end s fits = done-Sound dst_max ctx s.out fits
  xz_result-Sound LzmaReturn.buf_error s fits =
      if_both Good (s.avail_out == 0)
        (stopped-Sound dst_max ctx short_buffer (some 0) s.out short_buffer≢success fits)
        (stopped-Sound dst_max ctx unsupported none s.out unsupported≢success fits)
  xz_result-Sound LzmaReturn.mem_error s fits =
      stopped-Sound dst_max ctx alloc_failed none s.out alloc_failed≢success fits
  xz_result-Sound LzmaReturn.ok s fits =
      stopped-Sound dst_max ctx unsupported none s.out unsupported≢success fits
  xz_result-Sound LzmaReturn.memlimit_error s fits =
      stopped-Sound dst_max ctx unsupported none s.out unsupported≢success fits
  xz_result-Sound LzmaReturn.format_error s fits =
      stopped-Sound dst_max ctx unsupported none s.out unsupported≢success fits
  xz_result-Sound LzmaReturn.options_error s fits =
      stopped-Sound dst_max ctx unsupported none s.out unsupported≢success fits
  xz_result-Sound LzmaReturn.data_error s fits =
      stopped-Sound dst_max ctx unsupported none s.out unsupported≢success fits
  xz_result-Sound LzmaReturn.other s fits =
      stopped-Sound dst_max ctx unsupported none s.out unsupported≢success fits

  xz_run-Sound :
      WritesWithin lib
      → (fuel : ℕ) (state : S) → Every Good (xz_run lib w ctx dst_max src fuel state)
  unfolding xz_run lzma_stream
  xz_run-Sound fits fuel state =
      let start = lzma_stream lib w ctx dst_max src state in
      let left =
        code_loop-Left never lib.lzma_code until_not_ok fuel start dst_max fits.lzma_fits
          (omega arith) in
      Every-if_null (λ l. Left never lib.lzma_code until_not_ok dst_max l.0 l.1) Good _ left
        (λ l at. xz_result-Sound l.0 l.1 (omega (arith, at.filled)))

  pub compress_xz-Sound :
      WritesWithin lib
      → (fuel level : ℕ) → Every Good (compress_xz lib w ctx dst_max src fuel level)
  unfolding compress_xz xz_started
  compress_xz-Sound fits fuel level =
      let preset = choose_level level (bit_or lib.preset_extreme 9) 8 6 3 1 6 in
      started (lib.easy_encoder w preset).0
        (xz_run lib w ctx dst_max src fuel (lib.easy_encoder w preset).1)
        (xz_run-Sound fits fuel (lib.easy_encoder w preset).1)
    where
      started :
          (r : LzmaReturn) (run : Option (Outcome (Compressor H Z)))
          → Every Good run
          → Every Good (xz_started lib w ctx dst_max src r run)
      started LzmaReturn.ok run good = good
      started LzmaReturn.mem_error run good =
          fail-Sound dst_max ctx alloc_failed alloc_failed≢success
      started LzmaReturn.stream_end run good =
          fail-Sound dst_max ctx unsupported unsupported≢success
      started LzmaReturn.buf_error run good = fail-Sound dst_max ctx unsupported unsupported≢success
      started LzmaReturn.memlimit_error run good =
          fail-Sound dst_max ctx unsupported unsupported≢success
      started LzmaReturn.format_error run good =
          fail-Sound dst_max ctx unsupported unsupported≢success
      started LzmaReturn.options_error run good =
          fail-Sound dst_max ctx unsupported unsupported≢success
      started LzmaReturn.data_error run good =
          fail-Sound dst_max ctx unsupported unsupported≢success
      started LzmaReturn.other run good = fail-Sound dst_max ctx unsupported unsupported≢success

  bz_result-Sound :
      (r : Option BzReturn) (s : Stream B)
      → length s.out ≤ dst_max
      → length s.out < 2 ^ 32
      → Sound dst_max (bz_result lib w ctx dst_max src r s)
  unfolding bz_result
  bz_result-Sound none s fits small =
      stopped-Sound dst_max ctx short_buffer (some 0) s.out short_buffer≢success fits
  bz_result-Sound (some BzReturn.stream_end) s fits small =
      let total : bz_total (length s.out) ≡ length s.out = omega arith in
      rw total (done-Sound dst_max ctx s.out fits)
  bz_result-Sound (some BzReturn.mem_error) s fits small =
      stopped-Sound dst_max ctx alloc_failed none s.out alloc_failed≢success fits
  bz_result-Sound (some BzReturn.ok) s fits small =
      stopped-Sound dst_max ctx unsupported none s.out unsupported≢success fits
  bz_result-Sound (some BzReturn.finish_ok) s fits small =
      stopped-Sound dst_max ctx unsupported none s.out unsupported≢success fits
  bz_result-Sound (some BzReturn.data_error_magic) s fits small =
      stopped-Sound dst_max ctx unsupported none s.out unsupported≢success fits
  bz_result-Sound (some BzReturn.data_error) s fits small =
      stopped-Sound dst_max ctx unsupported none s.out unsupported≢success fits
  bz_result-Sound (some BzReturn.other) s fits small =
      stopped-Sound dst_max ctx unsupported none s.out unsupported≢success fits

  bz_run-Sound :
      WritesWithin lib
      → (fuel : ℕ) (state : B) → Every Good (bz_run lib w ctx dst_max src fuel state)
  unfolding bz_run bz_stream
  bz_run-Sound fits fuel state =
      let start = bz_stream lib w ctx dst_max src state in
      let left =
        code_loop-Left is_full lib.bz_compress until_finished fuel start (dst_max % 2 ^ 32)
          fits.bz_fits (omega arith) in
      Every-if_null (λ l. Left is_full lib.bz_compress until_finished (dst_max % 2 ^ 32) l.0 l.1)
        Good _ left
        (λ l at. bz_result-Sound l.0 l.1 (omega (arith, at.filled)) (omega (arith, at.filled)))

  pub compress_bzip2-Sound :
      WritesWithin lib
      → (fuel level : ℕ) → Every Good (compress_bzip2 lib w ctx dst_max src fuel level)
  unfolding compress_bzip2 bz_started
  compress_bzip2-Sound fits fuel level =
      let block_size = choose_level level 9 7 5 3 1 6 in
      if_both (Every Good) (ltb 4294967295 (length src))
        (fail-Sound dst_max ctx unsupported unsupported≢success)
        (started (lib.bz_compress_init w block_size).0
          (bz_run lib w ctx dst_max src fuel (lib.bz_compress_init w block_size).1)
          (bz_run-Sound fits fuel (lib.bz_compress_init w block_size).1))
    where
      started :
          (r : BzReturn) (run : Option (Outcome (Compressor H Z)))
          → Every Good run
          → Every Good (bz_started lib w ctx dst_max src r run)
      started BzReturn.ok run good = good
      started BzReturn.mem_error run good = fail-Sound dst_max ctx alloc_failed alloc_failed≢success
      started BzReturn.stream_end run good = fail-Sound dst_max ctx unsupported unsupported≢success
      started BzReturn.finish_ok run good = fail-Sound dst_max ctx unsupported unsupported≢success
      started BzReturn.data_error_magic run good =
          fail-Sound dst_max ctx unsupported unsupported≢success
      started BzReturn.data_error run good = fail-Sound dst_max ctx unsupported unsupported≢success
      started BzReturn.other run good = fail-Sound dst_max ctx unsupported unsupported≢success
