-- ===== src/Compression/Decompress.antt =====
-- `clod_decompress` of src/compression/decompress.c. A build without a library is one where its
-- `HAVE_…` is false.
use libclod.Prelude.{ℕ, Bool, List, Option, some, ◌==◌, if◌then◌else◌}
use libclod.Compression.Support.{Libraries}
use libclod.Compression.Types.{
  unsupported, Outcome, fail, uncompressed, gzip, zlib, deflate, lz4f, xz, zstd, bzip2,
}
use libclod.Compression.Decoders.{Decompressors}
use libclod.Compression.Inflate.{
  Decompressor, decompress_uncompressed, decompress_gzip, decompress_zlib, decompress_deflate,
}
use libclod.Compression.Lz4.{decompress_lz4f}
use libclod.Compression.Decode.{decompress_xz, decompress_zstd, decompress_bzip2}

module _ {W H L S D B : Type 0} (lib : Decompressors W H L S D B) (w : W) (ctx : Decompressor H L D)
    (dst_size : ℕ) (src : List ℕ) (wants : Bool) where
  -- `clod_decompress(ctx, dst, dst_size, src, src_size, actual_size, method)`; `wants` is whether
  -- `actual_size` is given, and `none` a loop that has not ended after `fuel` rounds.
  unfoldable pub decompress : Libraries → ℕ → ℕ → Option (Outcome (Decompressor H L D))
  unfolding decompress_uncompressed decompress_gzip decompress_zlib decompress_deflate
      decompress_lz4f decompress_xz decompress_zstd decompress_bzip2
  decompress have fuel method =
      let missing = some (fail ctx unsupported) in
      if method == uncompressed
      then some (decompress_uncompressed lib w ctx dst_size src wants)
      else if method == gzip
      then if have.deflate then some (decompress_gzip lib w ctx dst_size src wants) else missing
      else if method == zlib
      then if have.deflate then some (decompress_zlib lib w ctx dst_size src wants) else missing
      else if method == deflate
      then if have.deflate then some (decompress_deflate lib w ctx dst_size src wants) else missing
      else if method == lz4f
      then if have.lz4 then decompress_lz4f lib w ctx dst_size src wants fuel else missing
      else if method == xz
      then if have.lzma then decompress_xz lib w ctx dst_size src wants fuel else missing
      else if method == zstd
      then if have.zstd then decompress_zstd lib w ctx dst_size src wants fuel else missing
      else if method == bzip2
      then if have.bz2 then decompress_bzip2 lib w ctx dst_size src wants fuel else missing
      else missing
