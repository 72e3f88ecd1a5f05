-- ===== src/Compression/Compress.antt =====
-- `clod_compress` of src/compression/compress.c. A build without a library is one where its
-- `HAVE_…` is false.

use libclod.Prelude.{ℕ, List, Option, some, ◌==◌, if◌then◌else◌}
use libclod.Compression.Support.{Libraries}
use libclod.Compression.Types.{
  unsupported, Outcome, fail, uncompressed, gzip, zlib, deflate, lz4f, xz, zstd, bzip2,
}
use libclod.Compression.Library.{Compressors}
use libclod.Compression.Single.{
  Compressor, compress_uncompressed, compress_gzip, compress_zlib, compress_deflate, compress_lz4f,
  compress_zstd,
}
use libclod.Compression.Streamed.{compress_xz, compress_bzip2}

module _ {W H Z S B : Type 0} (lib : Compressors W H Z S B) (w : W) (ctx : Compressor H Z)
    (dst_max : ℕ) (src : List ℕ) where
  -- `clod_compress(ctx, dst, dst_max_size, src, src_size, actual_size, method, level)`; `none` is a
  -- loop that has not ended after `fuel` rounds, or an access behind the array of compressors.
  unfoldable pub compress : Libraries → ℕ → ℕ → ℕ → Option (Outcome (Compressor H Z))
  unfolding compress_uncompressed compress_gzip compress_zlib compress_deflate compress_lz4f
      compress_xz compress_zstd compress_bzip2
  compress have fuel method level =
      let missing = some (fail ctx unsupported) in
      if method == uncompressed
      then some (compress_uncompressed lib w ctx dst_max src)
      else if method == gzip
      then if have.deflate then compress_gzip lib w ctx dst_max src level else missing
      else if method == zlib
      then if have.deflate then compress_zlib lib w ctx dst_max src level else missing
      else if method == deflate
      then if have.deflate then compress_deflate lib w ctx dst_max src level else missing
      else if method == lz4f
      then if have.lz4 then some (compress_lz4f lib w ctx dst_max src level) else missing
      else if method == xz
      then if have.lzma then compress_xz lib w ctx dst_max src fuel level else missing
      else if method == zstd
      then if have.zstd then some (compress_zstd lib w ctx dst_max src level) else missing
      else if method == bzip2
      then if have.bz2 then compress_bzip2 lib w ctx dst_max src fuel level else missing
      else missing
