-- ===== src/Compression/Contract.antt =====
-- What `clod_compress` of src/compression/compress.c promises.

use libclod.Prelude.{
  Bool, true, false, ◌&&◌, ℕ, ◌≤◌, ◌<◌, ◌≡◌, refl, ◌⊎◌, inl, inr, List, Option, Option-cases, some,
  arith, length, if◌then◌else◌, ◌==◌,
}
use libclod.Compression.Support.{Libraries, compression_support}
use libclod.Compression.Ends.{Progresses, enough_rounds, compress_ends}
use libclod.Compression.Types.{
  levels, minecraft_lz4, success, unsupported, Outcome, fail, uncompressed, gzip, zlib, deflate,
  lz4f, xz, zstd, bzip2,
}
use libclod.Compression.Library.{Compressors}
use libclod.Compression.Loops.{Every, if_both}
use libclod.Compression.Single.{Compressor, compress_gzip, compress_zlib, compress_deflate}
use libclod.Compression.Compress.{compress}
use libclod.Compression.Sound.{
  WritesWithin, Sound, fail-Sound, unsupported≢success, compress_uncompressed-Sound,
  deflate_with-Sound, compress_lz4f-Sound, compress_zstd-Sound,
}
use libclod.Compression.StreamedSound.{compress_xz-Sound, compress_bzip2-Sound}

-- A case of the switch that is not taken, or whose library is missing.
pub no_case :
    {A : Type 0} (test has : Bool) (x missing rest : A)
    → test && has ≡ false
    → rest ≡ missing
    → (if test then if has then x else missing else rest) ≡ missing
no_case true true x missing rest off other = ground arith
no_case true false x missing rest off other = refl
no_case false has x missing rest off other = other

module _ {W H Z S B : Type 0} (lib : Compressors W H Z S B) (w : W) (ctx : Compressor H Z)
    (dst_max : ℕ) (src : List ℕ) where
  abbrev Good : Outcome (Compressor H Z) → Type 0
  Good o = Sound dst_max o

  pub compress-Sound :
      WritesWithin lib
      → (have : Libraries) (fuel method level : ℕ)
      → Every Good (compress lib w ctx dst_max src have fuel method level)
  unfolding compress compress_gzip compress_zlib compress_deflate
  compress-Sound fits have fuel method level =
      let missing = fail-Sound dst_max ctx unsupported unsupported≢success in
      let P : Option (Outcome (Compressor H Z)) → Type 0 = Every Good in
      if_both P (method == uncompressed) (compress_uncompressed-Sound lib w ctx dst_max src) (
        if_both P (method == gzip)
          (if_both P have.deflate
            (deflate_with-Sound lib w ctx dst_max src lib.gzip_compress level fits.gzip_fits)
            missing)
          (if_both P (method == zlib)
            (if_both P have.deflate
              (deflate_with-Sound lib w ctx dst_max src lib.zlib_compress level fits.zlib_fits)
              missing)
            (if_both P (method == deflate)
              (if_both P have.deflate
                (deflate_with-Sound lib w ctx dst_max src lib.deflate_compress level
                  fits.deflate_fits)
                missing)
              (if_both P (method == lz4f)
                (if_both P have.lz4 (compress_lz4f-Sound lib w ctx dst_max src fits level) missing)
                (if_both P (method == xz)
                  (if_both P have.lzma (compress_xz-Sound lib w ctx dst_max src fits fuel level)
                    missing)
                  (if_both P (method == zstd)
                    (if_both P have.zstd (compress_zstd-Sound lib w ctx dst_max src fits level)
                      missing)
                    (if_both P (method == bzip2)
                      (if_both P have.bz2
                        (compress_bzip2-Sound lib w ctx dst_max src fits fuel level) missing)
                      missing)))))))

  -- If the libraries write within the room that they are given, and when they ask to be called again
  -- have made progress but for at most `limit` times in a row, then `clod_compress` ends with any
  -- method, with a level below `CLOD_COMPRESSION_LEVELS` and with any allocation failing, within `enough_rounds` rounds of its loops,
  -- and has put out at most `dst_max_size` bytes.
  pub compress_lem :
      (limit : ℕ) (have : Libraries) (fuel method level : ℕ)
      → level < levels
      → WritesWithin lib
      → Progresses lib limit
      → enough_rounds limit (length src) dst_max ≤ fuel
      → (o : Outcome (Compressor H Z)) × (compress lib w ctx dst_max src have fuel method level
          ≡ some o)
        × (length o.written ≤ dst_max)
  compress_lem limit have fuel method level below fits moves enough =
      elim (Option-cases (compress lib w ctx dst_max src have fuel method level)) [
        | inl never_ends ↦ absurd (
            compress_ends lib w ctx dst_max src limit have fuel method level below fits moves enough
              never_ends)
        | inr (o, ended) ↦
            let sound = compress-Sound fits have fuel method level in
            let sound' = rw ended at sound in (o, ended, sound'.within)
      ]

  -- If the libraries write within the room that they are given, every call of `clod_compress` with a
  -- level below `CLOD_COMPRESSION_LEVELS` that returns `CLOD_COMPRESSION_SUCCESS` has stored at `actual_size` the number of bytes put out, at
  -- most `dst_max_size`.
  pub compress-success :
      (have : Libraries) (fuel method level : ℕ) (o : Outcome (Compressor H Z))
      → level < levels
      → WritesWithin lib
      → compress lib w ctx dst_max src have fuel method level ≡ some o
      → o.result ≡ success
      → (o.size ≡ some (length o.written)) × (length o.written ≤ dst_max)
  compress-success have fuel method level o below fits ended succeeds =
      let sound = compress-Sound fits have fuel method level in
      let sound' = rw ended at sound in (sound'.reported succeeds, sound'.within)

  -- For a method that `clod_compression_support` denies, `clod_compress` returns
  -- `CLOD_COMPRESSION_UNSUPPORTED`, stores no size, puts out nothing and keeps the context; so does
  -- it for `CLOD_MINECRAFT_LZ4`, whether or not `clod_compression_support` denies that.
  pub compress-unsupported :
      (have : Libraries) (fuel method level : ℕ)
      → (compression_support have method ≡ false) ⊎ (method ≡ minecraft_lz4)
      → compress lib w ctx dst_max src have fuel method level ≡ some (fail ctx unsupported)
  unfolding compress compression_support
  compress-unsupported have fuel method level lacks =
      let absent : (method == uncompressed) ≡ false = ground arith in
      rw absent (
        no_case (method == gzip) have.deflate _ _ _ (ground arith) (
          no_case (method == zlib) have.deflate _ _ _ (ground arith) (
            no_case (method == deflate) have.deflate _ _ _ (ground arith) (
              no_case (method == lz4f) have.lz4 _ _ _ (ground arith) (
                no_case (method == xz) have.lzma _ _ _ (ground arith) (
                  no_case (method == zstd) have.zstd _ _ _ (ground arith)
                    (no_case (method == bzip2) have.bz2 _ _ _ (ground arith) refl)))))))
