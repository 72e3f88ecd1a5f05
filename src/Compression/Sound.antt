-- ===== src/Compression/Sound.antt =====
-- What `clod_compress` of src/compression/compress.c writes and reports, given what the libraries
-- document: none writes past the room that it is given.

use libclod.Prelude.{
  ℕ, ◌≤◌, ◌≡◌, ◌≢◌, refl, inl, inr, List, [], Option, none, some, arith, length, Bool-cases, ltb,
  ◌==◌,
}
use libclod.Compression.Types.{
  Result, success, unsupported, short_buffer, alloc_failed, Outcome, fail,
}
use libclod.Compression.Library.{Compressors, Fits, ZstdSize}
use libclod.Compression.Loops.{Every, if_both, if_null_both}
use libclod.Compression.Single.{
  Compressor, choose_level, deflate_compressor, deflated, deflate_with, compress_uncompressed,
  compress_lz4f, zstd_compressor, zstd_result, compress_zstd,
}

-- The libraries write within the room that they are given, as they document.
pub record WritesWithin {W H Z S B : Type 0} (lib : Compressors W H Z S B) : Type 0 where
  pub gzip_fits :
      (h : H) (input : List ℕ) (room : ℕ) → length (lib.gzip_compress h input room) ≤ room
  pub zlib_fits :
      (h : H) (input : List ℕ) (room : ℕ) → length (lib.zlib_compress h input room) ≤ room
  pub deflate_fits :
      (h : H) (input : List ℕ) (room : ℕ) → length (lib.deflate_compress h input room) ≤ room
  pub frame_fits :
      (level : ℕ) (input : List ℕ) (room : ℕ) (bytes : List ℕ)
      → lib.compress_frame level input room ≡ some bytes
      → length bytes ≤ room
  pub lzma_fits : Fits lib.lzma_code
  pub cctx_fits :
      (z : Z) (input : List ℕ) (room level : ℕ) (bytes : List ℕ)
      → lib.compress_cctx z input room level ≡ ZstdSize.no_error bytes
      → length bytes ≤ room
  pub bz_fits : Fits lib.bz_compress

-- At most `room` bytes are written, and a success reports their number.
pub record Sound {C : Type 0} (room : ℕ) (o : Outcome C) : Type 0 where
  pub within : length o.written ≤ room
  pub reported : o.result ≡ success → o.size ≡ some (length o.written)

module _ {C : Type 0} (room : ℕ) (c : C) where
  pub done-Sound :
      (bytes : List ℕ)
      → length bytes ≤ room
      → Sound room
          (record { result = success; size = some (length bytes); written = bytes; ctx = c })
  done-Sound bytes fits = record { within = fits; reported = λ e. refl }

  pub stopped-Sound :
      (r : Result) (size : Option ℕ) (bytes : List ℕ)
      → r ≢ success
      → length bytes ≤ room
      → Sound room (record { result = r; size = size; written = bytes; ctx = c })
  stopped-Sound r size bytes not_success fits = record {
    within = fits;
    reported = λ e. absurd (not_success e);
  }

  pub fail-Sound : (r : Result) → r ≢ success → Sound room (fail c r)
  fail-Sound r not_success = stopped-Sound r none [] not_success (omega arith)

pub unsupported≢success : unsupported ≢ success
unsupported≢success e = ground arith

pub short_buffer≢success : short_buffer ≢ success
short_buffer≢success e = ground arith

pub alloc_failed≢success : alloc_failed ≢ success
alloc_failed≢success e = ground arith

module _ {W H Z S B : Type 0} (lib : Compressors W H Z S B) (w : W) (ctx : Compressor H Z)
    (dst_max : ℕ) (src : List ℕ) where
  abbrev pub Good : Outcome (Compressor H Z) → Type 0
  Good o = Sound dst_max o

  pub compress_uncompressed-Sound : Sound dst_max (compress_uncompressed lib w ctx dst_max src)
  unfolding compress_uncompressed
  compress_uncompressed-Sound = elim (Bool-cases (ltb dst_max (length src))) [
    | inl short ↦ rw short (fail-Sound dst_max ctx short_buffer short_buffer≢success)
    | inr room ↦ rw room (done-Sound dst_max ctx src (ground arith))
  ]

  pub deflate_with-Sound :
      (code : H → List ℕ → ℕ → List ℕ) (level : ℕ)
      → ((h : H) (input : List ℕ) (room : ℕ) → length (code h input room) ≤ room)
      → Every Good (deflate_with lib w ctx dst_max src code level)
  unfolding deflate_with deflated
  deflate_with-Sound code level fits =
      if_null_both (Every Good) (deflate_compressor lib w ctx dst_max src level) tt (λ found at.
        if_null_both Good found.0 (fail-Sound dst_max found.1 alloc_failed alloc_failed≢success)
          (λ h e.
            if_both Good (length (code h src dst_max) == 0)
              (fail-Sound dst_max found.1 short_buffer short_buffer≢success)
              (done-Sound dst_max found.1 (code h src dst_max) (fits h src dst_max))))

  pub compress_lz4f-Sound :
      WritesWithin lib → (level : ℕ) → Sound dst_max (compress_lz4f lib w ctx dst_max src level)
  unfolding compress_lz4f
  compress_lz4f-Sound fits level =
      if_null_both Good _ (fail-Sound dst_max ctx short_buffer short_buffer≢success)
        (λ bytes e. done-Sound dst_max ctx bytes (fits.frame_fits _ src dst_max bytes e))

  zstd_result-Sound :
      (kept : Compressor H Z) (size : ZstdSize)
      → ((bytes : List ℕ) → size ≡ ZstdSize.no_error bytes → length bytes ≤ dst_max)
      → Sound dst_max (zstd_result lib w ctx dst_max src kept size)
  unfolding zstd_result
  zstd_result-Sound kept (ZstdSize.no_error bytes) fits =
      done-Sound dst_max kept bytes (fits bytes refl)
  zstd_result-Sound kept ZstdSize.dst_size_too_small fits =
      fail-Sound dst_max kept short_buffer short_buffer≢success
  zstd_result-Sound kept ZstdSize.memory_allocation fits =
      fail-Sound dst_max kept alloc_failed alloc_failed≢success
  zstd_result-Sound kept ZstdSize.other fits =
      fail-Sound dst_max kept unsupported unsupported≢success

  pub compress_zstd-Sound :
      WritesWithin lib → (level : ℕ) → Sound dst_max (compress_zstd lib w ctx dst_max src level)
  unfolding compress_zstd
  compress_zstd-Sound fits level =
      let kept = (zstd_compressor lib w ctx dst_max src).1 in
      if_null_both Good (zstd_compressor lib w ctx dst_max src).0
        (fail-Sound dst_max kept alloc_failed alloc_failed≢success)
        (λ z e.
          let chosen = choose_level level lib.max_level 14 5 3 1 3 in
          zstd_result-Sound kept (lib.compress_cctx z src dst_max chosen)
            (fits.cctx_fits z src dst_max chosen))
