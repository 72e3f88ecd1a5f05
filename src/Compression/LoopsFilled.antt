-- ===== src/Compression/LoopsFilled.antt =====
-- The same for the methods of src/compression/decompress.c that call a library in a loop.
use libclod.Prelude.{
  ℕ, ◌+◌, ◌≤◌, ◌≡◌, Bool, not, ◌&&◌, List, [], Option, none, some, ltb, ◌==◌, arith, length,
}
use libclod.Compression.Types.{
  unsupported, malformed, short_buffer, short_output, alloc_failed, Outcome, if_null,
}
use libclod.Compression.Coder.{Stream}
use libclod.Compression.Library.{Fits, LzmaReturn}
use libclod.Compression.Loops.{Every, if_both, if_null_both, Left, code_loop-Left, Every-if_null}
use libclod.Compression.Decoders.{Decompressors}
use libclod.Compression.Streamed.{never, until_not_ok}
use libclod.Compression.Inflate.{Decompressor, store}
use libclod.Compression.Lz4.{
  broken, finished, starved, full, Lz4End, lz4_after, lz4_reset, lz4_result, lz4_stream, lz4_run,
  lz4_sized, lz4_opened, lz4_context, decompress_lz4f,
}
use libclod.Compression.Decode.{
  ZstdEnd, has_input, zstd_after, unxz_result, unxz_stream, unxz_run, unxz_started, decompress_xz,
  unzstd_result, unzstd_stream, unzstd_run, decompress_zstd,
}
use libclod.Compression.Sound.{unsupported≢success, short_buffer≢success, alloc_failed≢success}
use libclod.Compression.Filled.{
  Filled, if_case, stopped-Filled, fail-Filled, done-Filled, malformed≢success,
  short_output≢success,
}

module _ {W H L S D B : Type 0} (lib : Decompressors W H L S D B) (w : W) (ctx : Decompressor H L D)
    (dst_size : ℕ) (src : List ℕ) (wants holds : Bool) where
  abbrev Good : Outcome (Decompressor H L D) → Type 0
  Good o = Filled dst_size wants holds o

  abbrev reset : L → Decompressor H L D
  reset l = lz4_reset lib w ctx dst_size src wants l

  lz4_result-Filled :
      (content : ℕ) (e : Lz4End) (s : Stream L)
      → length s.out ≤ dst_size
      → Filled dst_size wants holds (lz4_result lib w ctx dst_size src wants content e s)
  unfolding lz4_result
  lz4_result-Filled content broken s fits =
      stopped-Filled dst_size wants holds (reset s.state) malformed none s.out malformed≢success
        fits
  lz4_result-Filled content finished s fits =
      if_case Good (not wants && ltb (length s.out) dst_size)
        (λ short.
          stopped-Filled dst_size wants holds (reset s.state) short_output none s.out
            short_output≢success fits)
        (λ whole.
          done-Filled dst_size wants holds (reset s.state) s.out fits (λ k unwanted. ground arith))
  lz4_result-Filled content starved s fits =
      stopped-Filled dst_size wants holds (reset s.state) malformed none s.out malformed≢success
        fits
  lz4_result-Filled content full s fits =
      stopped-Filled dst_size wants holds (reset s.state) short_buffer (store wants content) s.out
        short_buffer≢success fits

  lz4_run-Filled :
      Fits lib.lz4f_decompress
      → (fuel : ℕ) (l : L) (content taken : ℕ)
      → Every Good (lz4_run lib w ctx dst_size src wants fuel l content taken)
  unfolding lz4_run lz4_stream
  lz4_run-Filled fits fuel l content taken =
      let start = lz4_stream lib w ctx dst_size src wants l taken in
      let left =
        code_loop-Left never lib.lz4f_decompress lz4_after fuel start dst_size fits (omega arith) in
      Every-if_null (λ p. Left never lib.lz4f_decompress lz4_after dst_size p.0 p.1) Good _ left
        (λ p at. lz4_result-Filled content p.0 p.1 (omega (arith, at.filled)))

  lz4_sized-Filled :
      Fits lib.lz4f_decompress
      → (fuel : ℕ) (l : L) (sizes : ℕ × ℕ)
      → Every Good (lz4_sized lib w ctx dst_size src wants fuel l sizes)
  unfolding lz4_sized
  lz4_sized-Filled fits fuel l (content, taken) =
      if_both (Every Good) (ltb dst_size content)
        (stopped-Filled dst_size wants holds (reset l) short_buffer (store wants content) []
          short_buffer≢success (omega arith))
        (if_both (Every Good) (not wants && (ltb 0 content && ltb content dst_size))
          (fail-Filled dst_size wants holds (reset l) short_output short_output≢success)
          (lz4_run-Filled fits fuel l content taken))

  lz4_opened-Filled :
      Fits lib.lz4f_decompress
      → (fuel : ℕ) (l : L) → Every Good (lz4_opened lib w ctx dst_size src wants fuel l)
  unfolding lz4_opened
  lz4_opened-Filled fits fuel l =
      if_null_both (Every Good) (lib.get_frame_info l src).0
        (fail-Filled dst_size wants holds (reset (lib.get_frame_info l src).1) malformed
          malformed≢success)
        (λ sizes e. lz4_sized-Filled fits fuel (lib.get_frame_info l src).1 sizes)

  pub decompress_lz4f-Filled :
      Fits lib.lz4f_decompress
      → (fuel : ℕ) → Every Good (decompress_lz4f lib w ctx dst_size src wants fuel)
  unfolding decompress_lz4f
  decompress_lz4f-Filled fits fuel =
      let bad = fail-Filled dst_size wants holds ctx malformed malformed≢success in
      if_both (Every Good) (ltb (length src) lib.min_header_size) bad (
        if_null_both (Every Good) (lib.header_size src) bad (λ header e.
          if_both (Every Good) (ltb (length src) header) bad (
            if_null_both (Every Good) (lz4_context lib w ctx dst_size src wants)
              (fail-Filled dst_size wants holds ctx alloc_failed alloc_failed≢success)
              (λ l e'. lz4_opened-Filled fits fuel l))))

  unxz_result-Filled :
      (r : LzmaReturn) (s : Stream S)
      → length s.out + s.avail_out ≡ dst_size
      → Filled dst_size wants holds (unxz_result lib w ctx dst_size src wants r s)
  unfolding unxz_result
  unxz_result-Filled LzmaReturn.stream_end s fits =
      if_case Good (not wants && not (s.avail_out == 0))
        (λ short.
          stopped-Filled dst_size wants holds ctx short_output none s.out short_output≢success
            (omega arith))
        (λ whole.
          done-Filled dst_size wants holds ctx s.out (omega arith) (λ k unwanted. ground arith))
  unxz_result-Filled LzmaReturn.buf_error s fits =
      if_both Good (s.avail_out == 0)
        (stopped-Filled dst_size wants holds ctx short_buffer (store wants 0) s.out
          short_buffer≢success (omega arith))
        (stopped-Filled dst_size wants holds ctx malformed none s.out malformed≢success
          (omega arith))
  unxz_result-Filled LzmaReturn.ok s fits =
      stopped-Filled dst_size wants holds ctx unsupported none s.out unsupported≢success
        (omega arith)
  unxz_result-Filled LzmaReturn.mem_error s fits =
      stopped-Filled dst_size wants holds ctx alloc_failed none s.out alloc_failed≢success
        (omega arith)
  unxz_result-Filled LzmaReturn.memlimit_error s fits =
      stopped-Filled dst_size wants holds ctx alloc_failed none s.out alloc_failed≢success
        (omega arith)
  unxz_result-Filled LzmaReturn.format_error s fits =
      stopped-Filled dst_size wants holds ctx malformed none s.out malformed≢success (omega arith)
  unxz_result-Filled LzmaReturn.options_error s fits =
      stopped-Filled dst_size wants holds ctx malformed none s.out malformed≢success (omega arith)
  unxz_result-Filled LzmaReturn.data_error s fits =
      stopped-Filled dst_size wants holds ctx malformed none s.out malformed≢success (omega arith)
  unxz_result-Filled LzmaReturn.other s fits =
      stopped-Filled dst_size wants holds ctx unsupported none s.out unsupported≢success
        (omega arith)

  unxz_run-Filled :
      Fits lib.lzma_code
      → (fuel : ℕ) (state : S) → Every Good (unxz_run lib w ctx dst_size src wants fuel state)
  unfolding unxz_run unxz_stream
  unxz_run-Filled fits fuel state =
      let start = unxz_stream lib w ctx dst_size src wants state in
      let left =
        code_loop-Left never lib.lzma_code until_not_ok fuel start dst_size fits (omega arith) in
      Every-if_null (λ p. Left never lib.lzma_code until_not_ok dst_size p.0 p.1) Good _ left
        (λ p at. unxz_result-Filled p.0 p.1 at.filled)

  pub decompress_xz-Filled :
      Fits lib.lzma_code → (fuel : ℕ) → Every Good (decompress_xz lib w ctx dst_size src wants fuel)
  unfolding decompress_xz unxz_started
  decompress_xz-Filled fits fuel =
      started (lib.stream_decoder w).0
        (unxz_run lib w ctx dst_size src wants fuel (lib.stream_decoder w).1)
        (unxz_run-Filled fits fuel (lib.stream_decoder w).1)
    where
      started :
          (r : LzmaReturn) (run : Option (Outcome (Decompressor H L D)))
          → Every Good run
          → Every Good (unxz_started lib w ctx dst_size src wants r run)
      started LzmaReturn.ok run good = good
      started LzmaReturn.mem_error run good =
          fail-Filled dst_size wants holds ctx alloc_failed alloc_failed≢success
      started LzmaReturn.stream_end run good =
          fail-Filled dst_size wants holds ctx unsupported unsupported≢success
      started LzmaReturn.buf_error run good =
          fail-Filled dst_size wants holds ctx unsupported unsupported≢success
      started LzmaReturn.memlimit_error run good =
          fail-Filled dst_size wants holds ctx unsupported unsupported≢success
      started LzmaReturn.format_error run good =
          fail-Filled dst_size wants holds ctx unsupported unsupported≢success
      started LzmaReturn.options_error run good =
          fail-Filled dst_size wants holds ctx unsupported unsupported≢success
      started LzmaReturn.data_error run good =
          fail-Filled dst_size wants holds ctx unsupported unsupported≢success
      started LzmaReturn.other run good =
          fail-Filled dst_size wants holds ctx unsupported unsupported≢success

  unzstd_result-Filled :
      (e : ZstdEnd) (s : Stream D)
      → length s.out ≤ dst_size
      → Filled dst_size wants holds (unzstd_result lib w ctx dst_size src wants e s)
  unfolding unzstd_result
  unzstd_result-Filled ZstdEnd.full s fits =
      stopped-Filled dst_size wants holds _ short_buffer _ s.out short_buffer≢success fits
  unzstd_result-Filled ZstdEnd.broken s fits =
      stopped-Filled dst_size wants holds _ malformed none s.out malformed≢success fits
  unzstd_result-Filled ZstdEnd.finished s fits =
      if_case Good (not wants && not (length s.out == dst_size))
        (λ short.
          stopped-Filled dst_size wants holds _ short_output none s.out short_output≢success fits)
        (λ whole. done-Filled dst_size wants holds _ s.out fits (λ k unwanted. ground arith))
  unzstd_result-Filled ZstdEnd.starved s fits =
      stopped-Filled dst_size wants holds _ malformed none s.out malformed≢success fits

  unzstd_run-Filled :
      Fits lib.decompress_stream
      → (fuel : ℕ) (d : D) → Every Good (unzstd_run lib w ctx dst_size src wants fuel d)
  unfolding unzstd_run unzstd_stream
  unzstd_run-Filled fits fuel d =
      let start = unzstd_stream lib w ctx dst_size src wants d in
      let left =
        code_loop-Left has_input lib.decompress_stream zstd_after fuel start dst_size fits
          (omega arith) in
      Every-if_null (λ p. Left has_input lib.decompress_stream zstd_after dst_size p.0 p.1) Good _
        left (λ p at. unzstd_result-Filled p.0 p.1 (omega (arith, at.filled)))

  pub decompress_zstd-Filled :
      Fits lib.decompress_stream
      → (fuel : ℕ) → Every Good (decompress_zstd lib w ctx dst_size src wants fuel)
  unfolding decompress_zstd
  decompress_zstd-Filled fits fuel =
      if_null_both (Every Good) (if_null ctx.zstd_dctx (lib.create_dctx w) (λ d. some d))
        (fail-Filled dst_size wants holds ctx alloc_failed alloc_failed≢success)
        (λ d e. unzstd_run-Filled fits fuel d)
