-- ===== src/Compression/Decode.antt =====
-- The other methods of `clod_decompress` of src/compression/decompress.c that call a library in a
-- loop.
use libclod.Prelude.{
  ℕ, ◌%◌, ◌^◌, Bool, not, ◌&&◌, List, [], Option, none, some, ◌==◌, if◌then◌else◌, length, take,
}
use libclod.Compression.Types.{
  Result, success, unsupported, malformed, short_buffer, short_output, alloc_failed, Outcome, fail,
  if_null,
}
use libclod.Compression.Coder.{Stream, code_loop}
use libclod.Compression.Library.{LzmaReturn, BzReturn}
use libclod.Compression.Decoders.{Decompressors, ZstdReturn}
use libclod.Compression.Streamed.{never, is_full, until_not_ok, bz_total}
use libclod.Compression.Inflate.{Decompressor, store}

-- Where the loop for libzstd is left: the end of the frame, the end of the input, an error.
pub data ZstdEnd : Type 0 where
  finished : ZstdEnd
  starved : ZstdEnd
  full : ZstdEnd
  broken : ZstdEnd

-- `in.pos < in.size`
abbrev pub has_input : {S : Type 0} → Stream S → Option ZstdEnd
has_input s = if length s.input == 0 then some starved else none

abbrev pub zstd_after : {S : Type 0} → ZstdReturn → Stream S → Option ZstdEnd
zstd_after ZstdReturn.finished s = some finished
zstd_after ZstdReturn.more s = none
zstd_after ZstdReturn.dest_full s = some full
zstd_after ZstdReturn.failed s = some broken

-- `while (res == BZ_OK)`
abbrev pub until_bz_not_ok : {S : Type 0} → BzReturn → Stream S → Option (Option BzReturn)
until_bz_not_ok BzReturn.ok s = none
until_bz_not_ok r s = some (some r)

module _ {W H L S D B : Type 0} (lib : Decompressors W H L S D B) (w : W) (ctx : Decompressor H L D)
    (dst_size : ℕ) (src : List ℕ) (wants : Bool) where
  -- A result with the bytes written so far and no size.
  abbrev stop : {S : Type 0} → Stream S → Result → Outcome (Decompressor H L D)
  stop s r = record { result = r; size = none; written = s.out; ctx = ctx }

  unfoldable pub unxz_result : LzmaReturn → Stream S → Outcome (Decompressor H L D)
  unxz_result LzmaReturn.stream_end s =
      if not wants && not (s.avail_out == 0) then stop s short_output else record {
        result = success;
        size = store wants (length s.out);
        written = s.out;
        ctx = ctx;
      }
  unxz_result LzmaReturn.buf_error s =
      if s.avail_out == 0
      then record { result = short_buffer; size = store wants 0; written = s.out; ctx = ctx }
      else stop s malformed
  unxz_result LzmaReturn.mem_error s = stop s alloc_failed
  unxz_result LzmaReturn.memlimit_error s = stop s alloc_failed
  unxz_result LzmaReturn.format_error s = stop s malformed
  unxz_result LzmaReturn.options_error s = stop s malformed
  unxz_result LzmaReturn.data_error s = stop s malformed
  unxz_result r s = stop s unsupported

  unfoldable pub unxz_stream : S → Stream S
  unxz_stream state = record { state = state; input = src; avail_out = dst_size; out = [] }

  unfoldable pub unxz_run : ℕ → S → Option (Outcome (Decompressor H L D))
  unfolding code_loop unxz_result unxz_stream
  unxz_run fuel state =
      if_null (code_loop fuel never lib.lzma_code until_not_ok (unxz_stream state)) none
        (λ (r, s). some (unxz_result r s))

  -- What follows the answer of `lzma_stream_decoder`.
  unfoldable pub unxz_started :
      LzmaReturn → Option (Outcome (Decompressor H L D)) → Option (Outcome (Decompressor H L D))
  unxz_started LzmaReturn.ok run = run
  unxz_started LzmaReturn.mem_error run = some (fail ctx alloc_failed)
  unxz_started r run = some (fail ctx unsupported)

  unfoldable pub decompress_xz : ℕ → Option (Outcome (Decompressor H L D))
  unfolding unxz_run unxz_started
  decompress_xz fuel =
      let (ret, state) = lib.stream_decoder w in unxz_started ret (unxz_run fuel state)

  abbrev with_dctx : D → Decompressor H L D
  with_dctx d = record ctx { zstd_dctx = some d }

  -- The size of the frame, if it is known, after a room that is too small.
  unfoldable pub frame_size : ℕ
  frame_size = if_null (lib.frame_content_size src) 0 (λ n. n)

  -- The end of the loop: an error resets the session.
  unfoldable pub unzstd_result : ZstdEnd → Stream D → Outcome (Decompressor H L D)
  unfolding frame_size
  unzstd_result full s = record {
    result = short_buffer;
    size = store wants frame_size;
    written = s.out;
    ctx = with_dctx (lib.reset_session s.state);
  }
  unzstd_result broken s = record {
    result = malformed;
    size = none;
    written = s.out;
    ctx = with_dctx (lib.reset_session s.state);
  }
  unzstd_result finished s =
      if not wants && not (length s.out == dst_size)
      then record { result = short_output; size = none; written = s.out; ctx = with_dctx s.state }
      else record {
        result = success;
        size = store wants (length s.out);
        written = s.out;
        ctx = with_dctx s.state;
      }
  unzstd_result starved s = record {
    result = malformed;
    size = none;
    written = s.out;
    ctx = with_dctx s.state;
  }

  unfoldable pub unzstd_stream : D → Stream D
  unzstd_stream d = record { state = d; input = src; avail_out = dst_size; out = [] }

  unfoldable pub unzstd_run : ℕ → D → Option (Outcome (Decompressor H L D))
  unfolding code_loop unzstd_result unzstd_stream
  unzstd_run fuel d =
      if_null (code_loop fuel has_input lib.decompress_stream zstd_after (unzstd_stream d)) none
        (λ (e, s). some (unzstd_result e s))

  unfoldable pub decompress_zstd : ℕ → Option (Outcome (Decompressor H L D))
  unfolding unzstd_run
  decompress_zstd fuel =
      let handle = if_null ctx.zstd_dctx (lib.create_dctx w) (λ d. some d) in
      if_null handle (some (fail ctx alloc_failed)) (λ d. unzstd_run fuel d)

  -- What is in the room: with none, the one byte of output goes to `dummy`.
  unfoldable pub unbz_written : Stream B → List ℕ
  unbz_written s = if dst_size == 0 then [] else s.out

  abbrev stop_bz : Stream B → Result → Outcome (Decompressor H L D)
  stop_bz s r = record { result = r; size = none; written = unbz_written s; ctx = ctx }

  unfoldable pub unbz_result : Option BzReturn → Stream B → Outcome (Decompressor H L D)
  unfolding unbz_written
  unbz_result none s = record {
    result = short_buffer;
    size = store wants 0;
    written = unbz_written s;
    ctx = ctx;
  }
  unbz_result (some BzReturn.stream_end) s =
      if dst_size == 0 && not (s.avail_out == 1)
      then stop_bz s short_buffer
      else if not (dst_size == 0) && (not wants && not (s.avail_out == 0))
      then stop_bz s short_output
      else record {
        result = success;
        size = store wants (bz_total (length s.out));
        written = unbz_written s;
        ctx = ctx;
      }
  unbz_result (some BzReturn.mem_error) s = stop_bz s alloc_failed
  unbz_result (some BzReturn.data_error_magic) s = stop_bz s malformed
  unbz_result (some BzReturn.data_error) s = stop_bz s malformed
  unbz_result (some r) s = stop_bz s unsupported

  -- The sizes are converted to `unsigned`.
  unfoldable pub unbz_stream : B → Stream B
  unbz_stream state = record {
    state = state;
    input = take (length src % 2 ^ 32) src;
    avail_out = if dst_size == 0 then 1 else dst_size % 2 ^ 32;
    out = [];
  }

  unfoldable pub unbz_run : ℕ → B → Option (Outcome (Decompressor H L D))
  unfolding code_loop unbz_result unbz_stream
  unbz_run fuel state =
      if_null (code_loop fuel is_full lib.bz_decompress until_bz_not_ok (unbz_stream state)) none
        (λ (r, s). some (unbz_result r s))

  -- What follows the answer of `BZ2_bzDecompressInit`.
  unfoldable pub unbz_started :
      BzReturn → Option (Outcome (Decompressor H L D)) → Option (Outcome (Decompressor H L D))
  unbz_started BzReturn.ok run = run
  unbz_started BzReturn.mem_error run = some (fail ctx alloc_failed)
  unbz_started r run = some (fail ctx unsupported)

  unfoldable pub decompress_bzip2 : ℕ → Option (Outcome (Decompressor H L D))
  unfolding unbz_run unbz_started
  decompress_bzip2 fuel =
      let (res, state) = lib.bz_decompress_init w in unbz_started res (unbz_run fuel state)
