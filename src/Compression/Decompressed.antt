-- ===== src/Compression/Decompressed.antt =====
-- What `clod_decompress` of src/compression/decompress.c promises.
use libclod.Prelude.{
  Option-cases, ℕ, ◌^◌, ◌≤◌, ◌<◌, ◌≡◌, ◌≢◌, refl, ◌⊎◌, inl, inr, Bool, true, false, List, Option,
  some, ◌==◌, arith, length,
}
use libclod.Compression.Types.{success, unsupported, Outcome, fail}
use libclod.Compression.Loops.{Every, if_both}
use libclod.Compression.Decoders.{Decompressors}
use libclod.Compression.Inflate.{Decompressor}
use libclod.Compression.Sound.{unsupported≢success}
use libclod.Compression.Filled.{DecodesWithin, Filled, if_case, fail-Filled}
use libclod.Compression.Support.{Libraries, compression_support}
use libclod.Compression.Types.{
  uncompressed, gzip, zlib, deflate, lz4f, xz, zstd, bzip2, minecraft_lz4,
}
use libclod.Compression.Inflate.{decompress_gzip, decompress_zlib, decompress_deflate}
use libclod.Compression.Decompress.{decompress}
use libclod.Compression.Contract.{no_case}
use libclod.Compression.Filled.{decompress_uncompressed-Filled, inflate_with-Filled}
use libclod.Compression.LoopsFilled.{
  decompress_lz4f-Filled, decompress_xz-Filled, decompress_zstd-Filled,
}
use libclod.Compression.Ends.{enough_rounds}
use libclod.Compression.DecodeEnds.{DecodesOn, decompress_ends}
use libclod.Compression.BzFilled.{decompress_bzip2-Filled}

module _ {W H L S D B : Type 0} (lib : Decompressors W H L S D B) (w : W) (ctx : Decompressor H L D)
    (dst_size : ℕ) (src : List ℕ) (wants : Bool) where
  abbrev GoodIf : Bool → Outcome (Decompressor H L D) → Type 0
  GoodIf holds o = Filled dst_size wants holds o

  decompress-Filled :
      DecodesWithin lib
      → (have : Libraries) (fuel method : ℕ) (holds : Bool)
      → (holds ≡ true → method ≡ bzip2 → dst_size < 2 ^ 32)
      → Every (GoodIf holds) (decompress lib w ctx dst_size src wants have fuel method)
  unfolding decompress decompress_gzip decompress_zlib decompress_deflate
  decompress-Filled within have fuel method holds small =
      let missing = fail-Filled dst_size wants holds ctx unsupported unsupported≢success in
      let P : Option (Outcome (Decompressor H L D)) → Type 0 = Every (GoodIf holds) in
      if_both P (method == uncompressed)
        (decompress_uncompressed-Filled lib w ctx dst_size src wants holds)
        (if_both P (method == gzip)
          (if_both P have.deflate
            (inflate_with-Filled lib w ctx dst_size src wants holds lib.gzip_decompress
              within.gzip_inflates)
            missing)
          (if_both P (method == zlib)
            (if_both P have.deflate
              (inflate_with-Filled lib w ctx dst_size src wants holds lib.zlib_decompress
                within.zlib_inflates)
              missing)
            (if_both P (method == deflate)
              (if_both P have.deflate
                (inflate_with-Filled lib w ctx dst_size src wants holds lib.deflate_decompress
                  within.deflate_inflates)
                missing)
              (if_both P (method == lz4f)
                (if_both P have.lz4
                  (decompress_lz4f-Filled lib w ctx dst_size src wants holds within.lz4_fits fuel)
                  missing)
                (if_both P (method == xz)
                  (if_both P have.lzma
                    (decompress_xz-Filled lib w ctx dst_size src wants holds within.lzma_fits fuel)
                    missing)
                  (if_both P (method == zstd)
                    (if_both P have.zstd
                      (decompress_zstd-Filled lib w ctx dst_size src wants holds within.zstd_fits
                        fuel)
                      missing)
                    (if_case P (method == bzip2)
                      (λ is.
                        if_both P have.bz2
                          (decompress_bzip2-Filled lib w ctx dst_size src wants holds within.bz_fits
                            (λ k. small k (ground arith)) fuel)
                          missing)
                      (λ other. missing))))))))

  -- If the libraries write within the room that they are given, then any outcome of `clod_decompress`
  -- has at most `dst_size` bytes put out, whatever its result.
  pub decompress-within :
      (have : Libraries) (fuel method : ℕ) (o : Outcome (Decompressor H L D))
      → DecodesWithin lib
      → decompress lib w ctx dst_size src wants have fuel method ≡ some o
      → length o.written ≤ dst_size
  decompress-within have fuel method o within ended =
      let filled = decompress-Filled within have fuel method false (λ k. ground arith) in
      let filled' = rw ended at filled in filled'.within

  -- If the libraries write within the room that they are given, and when they ask to be called again
  -- have made progress, but for liblzma and libzstd at most `limit` times in a row, and for liblz4
  -- without input or room, then `clod_decompress` returns with any method but `CLOD_BZIP2` and
  -- with any allocation failing, within `enough_rounds` rounds of its loops, and has put out at
  -- most `dst_size` bytes.
  pub decompress_lem :
      (limit : ℕ) (have : Libraries) (fuel method : ℕ)
      → method ≢ bzip2
      → DecodesWithin lib
      → DecodesOn lib limit
      → enough_rounds limit (length src) dst_size ≤ fuel
      → (o : Outcome (Decompressor H L D)) × (decompress lib w ctx dst_size src wants have fuel
            method
          ≡ some o)
        × (length o.written ≤ dst_size)
  decompress_lem limit have fuel method other within on enough =
      elim (Option-cases (decompress lib w ctx dst_size src wants have fuel method)) [
        | inl never_ends ↦ absurd (
            decompress_ends lib w ctx dst_size src wants limit have fuel method other within on
              enough never_ends)
        | inr (o, ended) ↦ (o, ended, decompress-within have fuel method o within ended)
      ]

  -- If the libraries write within the room that they are given, and a function of libdeflate fills
  -- the room on success without a size, then a call of `clod_decompress` with a null `actual_size`
  -- that returns `CLOD_COMPRESSION_SUCCESS` has put out exactly `dst_size` bytes; for
  -- `CLOD_BZIP2`, if `dst_size` is below 2 ^ 32.
  pub decompress-exact :
      (have : Libraries) (fuel method : ℕ) (o : Outcome (Decompressor H L D))
      → DecodesWithin lib
      → (method ≢ bzip2) ⊎ (dst_size < 2 ^ 32)
      → wants ≡ false
      → decompress lib w ctx dst_size src wants have fuel method ≡ some o
      → o.result ≡ success
      → length o.written ≡ dst_size
  decompress-exact have fuel method o within narrow unwanted ended succeeds =
      let small : true ≡ true → method ≡ bzip2 → dst_size < 2 ^ 32 =
        λ k is. elim narrow [ inl differs ↦ absurd (differs is) | inr small ↦ small ] in
      let filled = decompress-Filled within have fuel method true small in
      let filled' = rw ended at filled in filled'.exact succeeds refl unwanted

  -- If the libraries write within the room that they are given, and a function of libdeflate stores
  -- the number of bytes on success, then a call of `clod_decompress` with an `actual_size` that
  -- returns `CLOD_COMPRESSION_SUCCESS` has stored there the number of bytes put out.
  pub decompress-reported :
      (have : Libraries) (fuel method : ℕ) (o : Outcome (Decompressor H L D))
      → DecodesWithin lib
      → wants ≡ true
      → decompress lib w ctx dst_size src wants have fuel method ≡ some o
      → o.result ≡ success
      → o.size ≡ some (length o.written)
  decompress-reported have fuel method o within wanted ended succeeds =
      let filled = decompress-Filled within have fuel method false (λ k. ground arith) in
      let filled' = rw ended at filled in filled'.reported succeeds wanted

  -- For a method that `clod_compression_support` denies, and for `CLOD_MINECRAFT_LZ4` in any case,
  -- `clod_decompress` returns `CLOD_COMPRESSION_UNSUPPORTED`, stores no size, puts out nothing and
  -- keeps the context.
  pub decompress-unsupported :
      (have : Libraries) (fuel method : ℕ)
      → (compression_support have method ≡ false) ⊎ (method ≡ minecraft_lz4)
      → decompress lib w ctx dst_size src wants have fuel method ≡ some (fail ctx unsupported)
  unfolding decompress compression_support
  decompress-unsupported have fuel method lacks =
      let absent : (method == uncompressed) ≡ false = ground arith in
      rw absent (
        no_case (method == gzip) have.deflate _ _ _ (ground arith) (
          no_case (method == zlib) have.deflate _ _ _ (ground arith) (
            no_case (method == deflate) have.deflate _ _ _ (ground arith) (
              no_case (method == lz4f) have.lz4 _ _ _ (ground arith) (
                no_case (method == xz) have.lzma _ _ _ (ground arith) (
                  no_case (method == zstd) have.zstd _ _ _ (ground arith)
                    (no_case (method == bzip2) have.bz2 _ _ _ (ground arith) refl)))))))
