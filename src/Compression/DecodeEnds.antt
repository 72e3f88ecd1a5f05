-- ===== src/Compression/DecodeEnds.antt =====
-- The loops of src/compression/decompress.c end, given what the libraries document; the one for libbz2
-- does so only with data that is whole.
use native.Mathlib.Nat.{mul-suc}
use libclod.Prelude.{
  ℕ, zero, suc, ◌+◌, ◌≤◌, ◌<◌, ◌≡◌, ◌≢◌, refl, Bool, false, not, ◌&&◌, ltb, List, Option, none,
  some, ◌==◌, arith, length, length-drop,
}
use libclod.Compression.Support.{Libraries}
use libclod.Compression.Types.{
  if_null, Outcome, uncompressed, gzip, zlib, deflate, lz4f, xz, zstd, bzip2,
}
use libclod.Compression.Coder.{Coder, Stream, advance, call}
use libclod.Compression.Library.{Fits, Moves, LzmaReturn}
use libclod.Compression.Loops.{code_loop_ends, if_both, if_null_both}
use libclod.Compression.Decoders.{Decompressors, ZstdReturn}
use libclod.Compression.Streamed.{never, until_not_ok}
use libclod.Compression.Ends.{
  measure, advance-measure, if_null≢none, some≢none, until_not_ok_again, enough_rounds,
}
use libclod.Compression.Inflate.{Decompressor}
use libclod.Compression.Lz4.{
  lz4_after, lz4_stream, lz4_run, lz4_sized, lz4_opened, lz4_context, decompress_lz4f,
}
use libclod.Compression.Decode.{
  has_input, zstd_after, unxz_stream, unxz_run, unxz_started, decompress_xz, unzstd_stream,
  unzstd_run, decompress_zstd,
}
use libclod.Compression.Decompress.{decompress}
use libclod.Compression.Filled.{DecodesWithin}

-- liblz4, asking for more, has made progress if there was input and room.
pub record Lz4Moves {L : Type 0} (code : Coder (Option ℕ) L) : Type 0 where
  pub consumes : (s : L) (input : List ℕ) (room : ℕ) → (code s input room).consumed ≤ length input
  pub moves :
      (s : L) (input : List ℕ) (room hint : ℕ)
      → (code s input room).ret ≡ some (suc hint)
      → 1 ≤ length input
      → 1 ≤ room
      → 1 ≤ (code s input room).consumed + length (code s input room).produced

-- What the libraries document on their loops.
pub record DecodesOn {W H L S D B : Type 0} (lib : Decompressors W H L S D B) (limit : ℕ)
    : Type 0 where
  pub lz4_moves : Lz4Moves lib.lz4f_decompress
  pub lzma_moves : Moves lib.lzma_code LzmaReturn.ok limit
  pub zstd_moves : Moves lib.decompress_stream ZstdReturn.more limit

zstd_after_again :
    {S : Type 0} (r : ZstdReturn) (s : Stream S) → zstd_after r s ≡ none → r ≡ ZstdReturn.more
zstd_after_again ZstdReturn.more s e = refl
zstd_after_again ZstdReturn.finished s e = ground arith
zstd_after_again ZstdReturn.dest_full s e = ground arith
zstd_after_again ZstdReturn.failed s e = ground arith

-- The loop goes on with a hint, input and room.
lz4_after_again :
    {L : Type 0} (r : Option ℕ) (s : Stream L)
    → lz4_after r s ≡ none
    → ((hint : ℕ) × (r ≡ some (suc hint))) × (1 ≤ length s.input) × (1 ≤ s.avail_out)
unfolding lz4_after
lz4_after_again none s e = ground arith
lz4_after_again (some zero) s e = ground arith
lz4_after_again (some (suc hint)) s e = ((hint, refl), ground arith, ground arith)

module _ {W H L S D B : Type 0} (lib : Decompressors W H L S D B) (w : W) (ctx : Decompressor H L D)
    (dst_size : ℕ) (src : List ℕ) (wants : Bool) where
  abbrev Ends : Option (Outcome (Decompressor H L D)) → Type 0
  Ends o = o ≢ none

  lz4_run_ends :
      (fuel : ℕ) (l : L) (content taken : ℕ)
      → Fits lib.lz4f_decompress
      → Lz4Moves lib.lz4f_decompress
      → length src + dst_size < fuel
      → lz4_run lib w ctx dst_size src wants fuel l content taken ≢ none
  unfolding lz4_run lz4_stream
  lz4_run_ends fuel l content taken fits moves enough =
      let start = lz4_stream lib w ctx dst_size src wants l taken in
      let ends =
        code_loop_ends never lib.lz4f_decompress lz4_after (λ s. length s.input + s.avail_out)
          (λ s. Unit)
          (λ s p going on.
            let step = call lib.lz4f_decompress s in
            let ((hint, asks), left, room) = lz4_after_again step.ret (advance s step) on in
            let took = length-drop step.consumed s.input in
            let some_left = moves.consumes s.state s.input s.avail_out in
            let fit = fits s.state s.input s.avail_out in
            let progress =
              moves.moves s.state s.input s.avail_out hint asks (omega arith) (omega arith) in
            (tt, omega arith))
          fuel start tt (omega (arith, length-drop taken src)) in
      if_null≢none _ _ ends

  lz4_sized_ends :
      (fuel : ℕ) (l : L) (sizes : ℕ × ℕ)
      → Fits lib.lz4f_decompress
      → Lz4Moves lib.lz4f_decompress
      → length src + dst_size < fuel
      → lz4_sized lib w ctx dst_size src wants fuel l sizes ≢ none
  unfolding lz4_sized
  lz4_sized_ends fuel l (content, taken) fits moves enough =
      if_both Ends (ltb dst_size content) (some≢none _) (
        if_both Ends (not wants && (ltb 0 content && ltb content dst_size)) (some≢none _)
          (lz4_run_ends fuel l content taken fits moves enough))

  decompress_lz4f_ends :
      (fuel : ℕ)
      → Fits lib.lz4f_decompress
      → Lz4Moves lib.lz4f_decompress
      → length src + dst_size < fuel
      → decompress_lz4f lib w ctx dst_size src wants fuel ≢ none
  unfolding decompress_lz4f lz4_opened
  decompress_lz4f_ends fuel fits moves enough =
      if_both Ends (ltb (length src) lib.min_header_size) (some≢none _) (
        if_null_both Ends (lib.header_size src) (some≢none _) (λ header e.
          if_both Ends (ltb (length src) header) (some≢none _) (
            if_null_both Ends (lz4_context lib w ctx dst_size src wants) (some≢none _) (λ l e'.
              if_null_both Ends (lib.get_frame_info l src).0 (some≢none _) (λ sizes e''.
                lz4_sized_ends fuel (lib.get_frame_info l src).1 sizes fits moves enough)))))

  unxz_run_ends :
      (limit fuel : ℕ) (state : S)
      → Fits lib.lzma_code
      → Moves lib.lzma_code LzmaReturn.ok limit
      → enough_rounds limit (length src) dst_size ≤ fuel
      → unxz_run lib w ctx dst_size src wants fuel state ≢ none
  unfolding unxz_run unxz_stream
  unxz_run_ends limit fuel state fits moves enough =
      let start = unxz_stream lib w ctx dst_size src wants state in
      let ends =
        code_loop_ends never lib.lzma_code until_not_ok
          (measure lib.lzma_code LzmaReturn.ok limit fits moves) (λ s. Unit)
          (λ s p going on. (
            tt,
            advance-measure lib.lzma_code LzmaReturn.ok limit fits moves s
                (until_not_ok_again _ _ on),
          ))
          fuel start tt (omega (arith, moves.patient state)) in
      if_null≢none _ _ ends

  decompress_xz_ends :
      (limit fuel : ℕ)
      → Fits lib.lzma_code
      → Moves lib.lzma_code LzmaReturn.ok limit
      → enough_rounds limit (length src) dst_size ≤ fuel
      → decompress_xz lib w ctx dst_size src wants fuel ≢ none
  unfolding decompress_xz unxz_started
  decompress_xz_ends limit fuel fits moves enough =
      let state = (lib.stream_decoder w).1 in
      started (lib.stream_decoder w).0 (unxz_run lib w ctx dst_size src wants fuel state)
        (unxz_run_ends limit fuel state fits moves enough)
    where
      started :
          (r : LzmaReturn) (run : Option (Outcome (Decompressor H L D)))
          → run ≢ none
          → unxz_started lib w ctx dst_size src wants r run ≢ none
      started LzmaReturn.ok run ends = ends
      started LzmaReturn.mem_error run ends = some≢none _
      started LzmaReturn.stream_end run ends = some≢none _
      started LzmaReturn.buf_error run ends = some≢none _
      started LzmaReturn.memlimit_error run ends = some≢none _
      started LzmaReturn.format_error run ends = some≢none _
      started LzmaReturn.options_error run ends = some≢none _
      started LzmaReturn.data_error run ends = some≢none _
      started LzmaReturn.other run ends = some≢none _

  unzstd_run_ends :
      (limit fuel : ℕ) (d : D)
      → Fits lib.decompress_stream
      → Moves lib.decompress_stream ZstdReturn.more limit
      → enough_rounds limit (length src) dst_size ≤ fuel
      → unzstd_run lib w ctx dst_size src wants fuel d ≢ none
  unfolding unzstd_run unzstd_stream
  unzstd_run_ends limit fuel d fits moves enough =
      let start = unzstd_stream lib w ctx dst_size src wants d in
      let ends =
        code_loop_ends has_input lib.decompress_stream zstd_after
          (measure lib.decompress_stream ZstdReturn.more limit fits moves) (λ s. Unit)
          (λ s p going on. (
            tt,
            advance-measure lib.decompress_stream ZstdReturn.more limit fits moves s
                (zstd_after_again _ _ on),
          ))
          fuel start tt (omega (arith, moves.patient d)) in
      if_null≢none _ _ ends

  decompress_zstd_ends :
      (limit fuel : ℕ)
      → Fits lib.decompress_stream
      → Moves lib.decompress_stream ZstdReturn.more limit
      → enough_rounds limit (length src) dst_size ≤ fuel
      → decompress_zstd lib w ctx dst_size src wants fuel ≢ none
  unfolding decompress_zstd
  decompress_zstd_ends limit fuel fits moves enough =
      if_null_both Ends (if_null ctx.zstd_dctx (lib.create_dctx w) (λ d. some d)) (some≢none _)
        (λ d e. unzstd_run_ends limit fuel d fits moves enough)

  -- With every method but `CLOD_BZIP2`.
  pub decompress_ends :
      (limit : ℕ) (have : Libraries) (fuel method : ℕ)
      → method ≢ bzip2
      → DecodesWithin lib
      → DecodesOn lib limit
      → enough_rounds limit (length src) dst_size ≤ fuel
      → decompress lib w ctx dst_size src wants have fuel method ≢ none
  unfolding decompress
  decompress_ends limit have fuel method other fits on enough =
      let not_bzip2 : (method == bzip2) ≡ false = ground arith in
      let rounds : length src + dst_size < fuel =
        omega (arith, mul-suc (length src + dst_size) limit) in
      if_both Ends (method == uncompressed) (some≢none _) (
        if_both Ends (method == gzip) (if_both Ends have.deflate (some≢none _) (some≢none _)) (
          if_both Ends (method == zlib) (if_both Ends have.deflate (some≢none _) (some≢none _)) (
            if_both Ends (method == deflate) (if_both Ends have.deflate (some≢none _) (some≢none _))
              (if_both Ends (method == lz4f)
                (if_both Ends have.lz4 (decompress_lz4f_ends fuel fits.lz4_fits on.lz4_moves rounds)
                  (some≢none _))
                (if_both Ends (method == xz)
                  (if_both Ends have.lzma
                    (decompress_xz_ends limit fuel fits.lzma_fits on.lzma_moves enough)
                    (some≢none _))
                  (if_both Ends (method == zstd)
                    (if_both Ends have.zstd
                      (decompress_zstd_ends limit fuel fits.zstd_fits on.zstd_moves enough)
                      (some≢none _))
                    (rw not_bzip2 (some≢none _))))))))
