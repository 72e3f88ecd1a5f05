-- ===== src/Compression/Single.antt =====
-- The methods of `clod_compress` of src/compression/compress.c that call a library once. The context's
-- two function pointers, always `malloc` and `free`, are left out.

use libclod.Prelude.{
  [], zero, suc, ◌∷◌, ◌++◌, ℕ, Bool, true, false, List, Option, none, some, ltb, ◌==◌,
  if◌then◌else◌, length, set,
}
use libclod.Compression.Types.{
  levels, if_null, success, unsupported, short_buffer, alloc_failed, Outcome, fail, lowest, low,
  normal, high, highest,
}
use libclod.Compression.Library.{Compressors, ZstdSize}

-- `struct clod_compressor`. The array has an entry for each of the `levels`; a function from indices
-- stands for it, and `deflate_compressor` gives nothing for an index behind its end.
pub record Compressor (H Z : Type 0) : Type 0 where
  pub libdeflate_compressor : ℕ → Option H
  pub zstd_cctx : Option Z

-- `level == CLOD_COMPRESSION_HIGHEST ? a : … : f`
abbrev pub choose_level : ℕ → ℕ → ℕ → ℕ → ℕ → ℕ → ℕ → ℕ
choose_level level a b c d e f =
    if level == highest
    then a
    else if level == high
    then b
    else if level == normal
    then c
    else if level == low
    then d
    else if level == lowest
    then e
    else f

-- The level that libdeflate is asked for.
abbrev pub libdeflate_level : ℕ → ℕ
libdeflate_level level = choose_level level 12 9 6 3 1 6

module _ {W H Z S B : Type 0} (lib : Compressors W H Z S B) where
  -- `clod_compressor_init()`, and whether `malloc` finds memory; `none` is the write through a null
  -- pointer.
  unfoldable pub compressor_init : Bool → Option (Compressor H Z)
  compressor_init true = some (record { libdeflate_compressor = λ level. none; zstd_cctx = none })
  compressor_init false = none

-- What `clod_compressor_free` gives back.
pub data Freed (H Z : Type 0) : Type 0 where
  freed_compressor : H → Freed H Z
  freed_cctx : Z → Freed H Z
  freed_context : Freed H Z

-- `for (int i = 0; i < n; i++)` over the compressors that are kept.
unfoldable pub free_loop : {H Z : Type 0} → ℕ → Compressor H Z → List (Freed H Z)
free_loop zero ctx = []
free_loop (suc i) ctx =
    free_loop i ctx ++ if_null (ctx.libdeflate_compressor i) [] (λ h. freed_compressor h ∷ [])

-- `clod_compressor_free(ctx)`: what it frees, in order.
unfoldable pub compressor_free : {H Z : Type 0} → Compressor H Z → List (Freed H Z)
unfolding free_loop
compressor_free ctx =
    free_loop levels ctx
    ++ (if_null ctx.zstd_cctx [] (λ z. freed_cctx z ∷ []) ++ (freed_context ∷ []))

module _ {W H Z S B : Type 0} (lib : Compressors W H Z S B) (w : W) (ctx : Compressor H Z)
    (dst_max : ℕ) (src : List ℕ) where
  unfoldable pub compress_uncompressed : Outcome (Compressor H Z)
  compress_uncompressed =
      if ltb dst_max (length src)
      then fail ctx short_buffer
      else record { result = success; size = some (length src); written = src; ctx = ctx }

  -- The compressor for a level: the one at hand, or a new one that is kept; `none` where the level is no
  -- index of the array, which the source does not test.
  unfoldable pub deflate_compressor : ℕ → Option (Option H × Compressor H Z)
  deflate_compressor level =
      let allocated = lib.alloc_compressor_ex w (libdeflate_level level) in
      let keep : H → Compressor H Z =
        λ h. record ctx { libdeflate_compressor = set ctx.libdeflate_compressor level (some h) } in
      if ltb level levels
      then some (
          if_null (ctx.libdeflate_compressor level)
            (if_null allocated (none, ctx) (λ h. (some h, keep h))) (λ h. (some h, ctx)))
      else none

  -- The bytes that a function of libdeflate wrote, none being too many for the room.
  unfoldable pub deflated : Compressor H Z → List ℕ → Outcome (Compressor H Z)
  deflated kept bytes =
      if length bytes == 0
      then fail kept short_buffer
      else record { result = success; size = some (length bytes); written = bytes; ctx = kept }

  unfoldable pub deflate_with : (H → List ℕ → ℕ → List ℕ) → ℕ → Option (Outcome (Compressor H Z))
  unfolding deflate_compressor deflated
  deflate_with code level = if_null (deflate_compressor level) none (λ found.
      some
        (if_null found.0 (fail found.1 alloc_failed) (λ h. deflated found.1 (code h src dst_max))))

  unfoldable pub compress_gzip : ℕ → Option (Outcome (Compressor H Z))
  unfolding deflate_with
  compress_gzip level = deflate_with lib.gzip_compress level

  unfoldable pub compress_zlib : ℕ → Option (Outcome (Compressor H Z))
  unfolding deflate_with
  compress_zlib level = deflate_with lib.zlib_compress level

  unfoldable pub compress_deflate : ℕ → Option (Outcome (Compressor H Z))
  unfolding deflate_with
  compress_deflate level = deflate_with lib.deflate_compress level

  unfoldable pub compress_lz4f : ℕ → Outcome (Compressor H Z)
  compress_lz4f level =
      let preference =
        choose_level level lib.lz4hc_level_max lib.lz4hc_level_opt_min lib.lz4hc_level_default
          lib.lz4hc_level_min 0 lib.lz4hc_level_default in
      if_null (lib.compress_frame preference src dst_max) (fail ctx short_buffer) (λ bytes. record {
        result = success;
        size = some (length bytes);
        written = bytes;
        ctx = ctx;
      })

  -- The context for libzstd: the one at hand, or a new one that is kept.
  unfoldable pub zstd_compressor : Option Z × Compressor H Z
  zstd_compressor =
      let created = lib.create_cctx w in
      if_null ctx.zstd_cctx (created, record ctx { zstd_cctx = created }) (λ z. (some z, ctx))

  unfoldable pub zstd_result : Compressor H Z → ZstdSize → Outcome (Compressor H Z)
  zstd_result kept (ZstdSize.no_error bytes) = record {
    result = success;
    size = some (length bytes);
    written = bytes;
    ctx = kept;
  }
  zstd_result kept ZstdSize.dst_size_too_small = fail kept short_buffer
  zstd_result kept ZstdSize.memory_allocation = fail kept alloc_failed
  zstd_result kept ZstdSize.other = fail kept unsupported

  unfoldable pub compress_zstd : ℕ → Outcome (Compressor H Z)
  unfolding zstd_compressor zstd_result
  compress_zstd level =
      let compression_level = choose_level level lib.max_level 14 5 3 1 3 in
      let (handle, kept) = zstd_compressor in
      if_null handle (fail kept alloc_failed)
        (λ z. zstd_result kept (lib.compress_cctx z src dst_max compression_level))
