-- ===== src/Compression/Support.antt =====
-- Which methods the build supports: src/compression/compression.c.
use libclod.Prelude.{ℕ, Bool, ◌==◌, ◌&&◌, ◌||◌}

-- The libraries that the build found: `HAVE_LIBDEFLATE` and so on.
pub record Libraries : Type 0 where
  pub deflate : Bool
  pub lz4 : Bool
  pub lzma : Bool
  pub zstd : Bool
  pub bz2 : Bool

-- `clod_compression_support(method)`, a method being the number of its enumerator.
unfoldable pub compression_support : Libraries → ℕ → Bool
compression_support libs method =
    method == 1
    || (libs.deflate && (method == 4 || method == 2 || method == 3))
    || (libs.lz4 && (method == 5 || method == 10))
    || (libs.lzma && method == 6)
    || (libs.zstd && method == 7)
    || (libs.bz2 && method == 8)
