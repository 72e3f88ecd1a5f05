-- ===== src/Compression/Ends.antt =====
-- The loops of src/compression/compress.c end, given what the libraries document: a call that asks
-- for another one makes progress, or has made none only so many times in a row.
use Prim.Native.Nat.{bit_or}
use native.Mathlib.Nat.{mul-le-mul_right, suc-mul}
use libclod.Compression.Types.{
  levels, if_null, Outcome, uncompressed, gzip, zlib, deflate, lz4f, xz, zstd, bzip2,
}
use libclod.Compression.Library.{Compressors, LzmaReturn, BzReturn}
use libclod.Compression.Loops.{code_loop_ends, if_both}
use libclod.Compression.Single.{
  Compressor, choose_level, deflate_compressor, deflate_with, compress_gzip, compress_zlib,
  compress_deflate,
}
use libclod.Compression.Streamed.{
  never, is_full, until_not_ok, until_finished, xz_run, bz_run, lzma_stream, bz_stream, compress_xz,
  compress_bzip2, xz_started, bz_started,
}
use libclod.Compression.Compress.{compress}
use libclod.Compression.Sound.{WritesWithin}
use libclod.Compression.Support.{Libraries}
use libclod.Prelude.{
  ltb, true, ◌==◌, ◌≢◌, Option, none, some, refl, ◌%◌, ◌^◌, take, length-take, ℕ, suc, ◌+◌, ◌*◌,
  ◌≤◌, ◌<◌, ◌≡◌, arith, length, length-drop, inl, inr, List,
}
use libclod.Compression.Coder.{Coder, Stream, advance, call}
use libclod.Compression.Library.{Fits, Moves}

module _ {R S : Type 0} (code : Coder R S) (again : R) (limit : ℕ) (fits : Fits code)
    (lib : Moves code again limit) where
  abbrev pub measure : Stream S → ℕ
  measure s = (length s.input + s.avail_out) * suc limit + lib.patience s.state

  pub advance-measure :
      (s : Stream S) → (call code s).ret ≡ again → measure (advance s (call code s)) < measure s
  advance-measure s asks =
      let t = advance s (call code s) in
      let took = length-drop (call code s).consumed s.input in
      let some_left = lib.consumes s.state s.input s.avail_out in
      let room = fits s.state s.input s.avail_out in
      let patient = lib.patient t.state in
      elim (lib.moves s.state s.input s.avail_out asks) [
        | inl progress ↦
            let less : suc (length t.input + t.avail_out) ≤ length s.input + s.avail_out =
              omega arith in
            let product = mul-le-mul_right (suc limit) less in
            omega (arith, product, suc-mul (length t.input + t.avail_out) (suc limit))
        | inr waits ↦
            let most : length t.input + t.avail_out ≤ length s.input + s.avail_out = omega arith in
            let product = mul-le-mul_right (suc limit) most in omega (arith, product)
      ]

pub if_null≢none :
    {A B : Type 0} (o : Option A) (f : A → B) → o ≢ none → if_null o none (λ a. some (f a)) ≢ none
if_null≢none none f h = absurd (h refl)
if_null≢none (some a) f h = λ e. ground arith

pub until_not_ok_again :
    {S : Type 0} (r : LzmaReturn) (s : Stream S) → until_not_ok r s ≡ none → r ≡ LzmaReturn.ok
until_not_ok_again LzmaReturn.ok s e = refl
until_not_ok_again LzmaReturn.stream_end s e = ground arith
until_not_ok_again LzmaReturn.buf_error s e = ground arith
until_not_ok_again LzmaReturn.mem_error s e = ground arith
until_not_ok_again LzmaReturn.memlimit_error s e = ground arith
until_not_ok_again LzmaReturn.format_error s e = ground arith
until_not_ok_again LzmaReturn.options_error s e = ground arith
until_not_ok_again LzmaReturn.data_error s e = ground arith
until_not_ok_again LzmaReturn.other s e = ground arith

until_finished_again :
    {S : Type 0} (r : BzReturn) (s : Stream S) → until_finished r s ≡ none → r ≡ BzReturn.finish_ok
until_finished_again BzReturn.finish_ok s e = refl
until_finished_again BzReturn.ok s e = ground arith
until_finished_again BzReturn.stream_end s e = ground arith
until_finished_again BzReturn.mem_error s e = ground arith
until_finished_again BzReturn.data_error_magic s e = ground arith
until_finished_again BzReturn.data_error s e = ground arith
until_finished_again BzReturn.other s e = ground arith

-- Rounds that are enough for an input and a room of these sizes.
abbrev pub enough_rounds : ℕ → ℕ → ℕ → ℕ
enough_rounds limit input room = suc ((input + room) * suc limit + limit)

module _ {W H Z S B : Type 0} (lib : Compressors W H Z S B) (w : W) (ctx : Compressor H Z)
    (dst_max : ℕ) (src : List ℕ) where
  pub xz_run_ends :
      (limit fuel : ℕ) (state : S)
      → Fits lib.lzma_code
      → Moves lib.lzma_code LzmaReturn.ok limit
      → enough_rounds limit (length src) dst_max ≤ fuel
      → xz_run lib w ctx dst_max src fuel state ≢ none
  unfolding xz_run lzma_stream
  xz_run_ends limit fuel state fits moves enough =
      let start = lzma_stream lib w ctx dst_max src state in
      let ends =
        code_loop_ends never lib.lzma_code until_not_ok
          (measure lib.lzma_code LzmaReturn.ok limit fits moves) (λ s. Unit)
          (λ s p going on. (
            tt,
            advance-measure lib.lzma_code LzmaReturn.ok limit fits moves s
                (until_not_ok_again _ _ on),
          ))
          fuel start tt (omega (arith, moves.patient state)) in
      if_null≢none _ _ ends

  pub bz_run_ends :
      (limit fuel : ℕ) (state : B)
      → Fits lib.bz_compress
      → Moves lib.bz_compress BzReturn.finish_ok limit
      → enough_rounds limit (length src) dst_max ≤ fuel
      → bz_run lib w ctx dst_max src fuel state ≢ none
  unfolding bz_run bz_stream
  bz_run_ends limit fuel state fits moves enough =
      let start = bz_stream lib w ctx dst_max src state in
      let shorter : length (take (length src % 2 ^ 32) src) + dst_max % 2 ^ 32
          ≤ length src + dst_max =
        omega (arith, length-take (length src % 2 ^ 32) src) in
      let product = mul-le-mul_right (suc limit) shorter in
      let ends =
        code_loop_ends is_full lib.bz_compress until_finished
          (measure lib.bz_compress BzReturn.finish_ok limit fits moves) (λ s. Unit)
          (λ s p going on. (
            tt,
            advance-measure lib.bz_compress BzReturn.finish_ok limit fits moves s
                (until_finished_again _ _ on),
          ))
          fuel start tt (omega (arith, moves.patient state)) in
      if_null≢none _ _ ends

pub some≢none : {A : Type 0} (a : A) → some a ≢ none
some≢none a = λ e. ground arith

-- What the libraries document on their loops.
pub record Progresses {W H Z S B : Type 0} (lib : Compressors W H Z S B) (limit : ℕ) : Type 0 where
  pub lzma_moves : Moves lib.lzma_code LzmaReturn.ok limit
  pub bz_moves : Moves lib.bz_compress BzReturn.finish_ok limit

module _ {W H Z S B : Type 0} (lib : Compressors W H Z S B) (w : W) (ctx : Compressor H Z)
    (dst_max : ℕ) (src : List ℕ) where
  abbrev Ends : Option (Outcome (Compressor H Z)) → Type 0
  Ends o = o ≢ none

  compress_xz_ends :
      (limit fuel level : ℕ)
      → Fits lib.lzma_code
      → Moves lib.lzma_code LzmaReturn.ok limit
      → enough_rounds limit (length src) dst_max ≤ fuel
      → compress_xz lib w ctx dst_max src fuel level ≢ none
  unfolding compress_xz xz_started
  compress_xz_ends limit fuel level fits moves enough =
      let preset = choose_level level (bit_or lib.preset_extreme 9) 8 6 3 1 6 in
      let state = (lib.easy_encoder w preset).1 in
      started (lib.easy_encoder w preset).0 (xz_run lib w ctx dst_max src fuel state)
        (xz_run_ends lib w ctx dst_max src limit fuel state fits moves enough)
    where
      started :
          (r : LzmaReturn) (run : Option (Outcome (Compressor H Z)))
          → run ≢ none
          → xz_started lib w ctx dst_max src r run ≢ none
      started LzmaReturn.ok run ends = ends
      started LzmaReturn.mem_error run ends = some≢none _
      started LzmaReturn.stream_end run ends = some≢none _
      started LzmaReturn.buf_error run ends = some≢none _
      started LzmaReturn.memlimit_error run ends = some≢none _
      started LzmaReturn.format_error run ends = some≢none _
      started LzmaReturn.options_error run ends = some≢none _
      started LzmaReturn.data_error run ends = some≢none _
      started LzmaReturn.other run ends = some≢none _

  compress_bzip2_ends :
      (limit fuel level : ℕ)
      → Fits lib.bz_compress
      → Moves lib.bz_compress BzReturn.finish_ok limit
      → enough_rounds limit (length src) dst_max ≤ fuel
      → compress_bzip2 lib w ctx dst_max src fuel level ≢ none
  unfolding compress_bzip2 bz_started
  compress_bzip2_ends limit fuel level fits moves enough =
      let block_size = choose_level level 9 7 5 3 1 6 in
      let state = (lib.bz_compress_init w block_size).1 in
      if_both Ends (ltb 4294967295 (length src)) (some≢none _) (
        started (lib.bz_compress_init w block_size).0 (bz_run lib w ctx dst_max src fuel state)
          (bz_run_ends lib w ctx dst_max src limit fuel state fits moves enough))
    where
      started :
          (r : BzReturn) (run : Option (Outcome (Compressor H Z)))
          → run ≢ none
          → bz_started lib w ctx dst_max src r run ≢ none
      started BzReturn.ok run ends = ends
      started BzReturn.mem_error run ends = some≢none _
      started BzReturn.stream_end run ends = some≢none _
      started BzReturn.finish_ok run ends = some≢none _
      started BzReturn.data_error_magic run ends = some≢none _
      started BzReturn.data_error run ends = some≢none _
      started BzReturn.other run ends = some≢none _

  deflate_with_ends :
      (code : H → List ℕ → ℕ → List ℕ) (level : ℕ)
      → level < levels
      → deflate_with lib w ctx dst_max src code level ≢ none
  unfolding deflate_with deflate_compressor
  deflate_with_ends code level below =
      let inside : ltb level levels ≡ true = ground (arith, below) in rw inside (some≢none _)

  pub compress_ends :
      (limit : ℕ) (have : Libraries) (fuel method level : ℕ)
      → level < levels
      → WritesWithin lib
      → Progresses lib limit
      → enough_rounds limit (length src) dst_max ≤ fuel
      → compress lib w ctx dst_max src have fuel method level ≢ none
  unfolding compress compress_gzip compress_zlib compress_deflate
  compress_ends limit have fuel method level below fits moves enough =
      if_both Ends (method == uncompressed) (some≢none _) (
        if_both Ends (method == gzip)
          (if_both Ends have.deflate (deflate_with_ends lib.gzip_compress level below)
            (some≢none _))
          (if_both Ends (method == zlib)
            (if_both Ends have.deflate (deflate_with_ends lib.zlib_compress level below)
              (some≢none _))
            (if_both Ends (method == deflate)
              (if_both Ends have.deflate (deflate_with_ends lib.deflate_compress level below)
                (some≢none _))
              (if_both Ends (method == lz4f) (if_both Ends have.lz4 (some≢none _) (some≢none _)) (
                if_both Ends (method == xz)
                  (if_both Ends have.lzma
                    (compress_xz_ends limit fuel level fits.lzma_fits moves.lzma_moves enough)
                    (some≢none _))
                  (if_both Ends (method == zstd)
                    (if_both Ends have.zstd (some≢none _) (some≢none _))
                    (if_both Ends (method == bzip2)
                      (if_both Ends have.bz2
                        (compress_bzip2_ends limit fuel level fits.bz_fits moves.bz_moves enough)
                        (some≢none _))
                      (some≢none _))))))))
