-- ===== src/Compression/Cache.antt =====
-- The context of src/compression/compress.c: the compressors that it keeps from call to call.
use Prim.Native.Nat.{bit_or}
use libclod.Prelude.{
  ℕ, ◌≡◌, ◌∙◌, refl, sym, ap, true, Bool-cases, Option, none, some, inl, inr, List, length, ltb,
  ◌==◌, ◌<◌, set, arith,
}
use libclod.Compression.Support.{Libraries}
use libclod.Compression.Types.{
  levels, Outcome, uncompressed, gzip, zlib, deflate, lz4f, xz, zstd, bzip2,
}
use libclod.Compression.Coder.{Stream, code_loop}
use libclod.Compression.Library.{Compressors, LzmaReturn, BzReturn, ZstdSize}
use libclod.Compression.Loops.{Every, if_both, if_null_both, Every-if_null, Every-if_null_all}
use libclod.Compression.Single.{
  Compressor, choose_level, libdeflate_level, compressor_init, deflate_compressor, deflated,
  deflate_with, compress_uncompressed, compress_gzip, compress_zlib, compress_deflate,
  compress_lz4f, zstd_compressor, zstd_result, compress_zstd,
}
use libclod.Compression.Streamed.{
  never, is_full, until_not_ok, until_finished, lzma_stream, bz_stream, xz_result, xz_run,
  xz_started, compress_xz, bz_result, bz_run, bz_started, compress_bzip2,
}
use libclod.Compression.Compress.{compress}

-- Each compressor that is kept for a level was allocated for that level, and the context of libzstd
-- was created.
pub record IsCached {W H Z S B : Type 0} (lib : Compressors W H Z S B) (ctx : Compressor H Z)
    : Type 0 where
  pub for_level :
      (level : ℕ) (h : H)
      → ctx.libdeflate_compressor level ≡ some h
      → (w : W) × (lib.alloc_compressor_ex w (libdeflate_level level) ≡ some h)
  pub created : (z : Z) → ctx.zstd_cctx ≡ some z → (w : W) × (lib.create_cctx w ≡ some z)

-- A new context keeps nothing.
pub compressor_init-IsCached :
    {W H Z S B : Type 0} (lib : Compressors W H Z S B)
    → Every (IsCached lib) (compressor_init lib true)
unfolding compressor_init
compressor_init-IsCached lib = record {
  for_level = λ level h e. ground arith;
  created = λ z e. ground arith;
}

module _ {W H Z S B : Type 0} (lib : Compressors W H Z S B) (w : W) (ctx : Compressor H Z)
    (dst_max : ℕ) (src : List ℕ) (at : IsCached lib ctx) where
  abbrev Kept : Outcome (Compressor H Z) → Type 0
  Kept o = IsCached lib o.ctx

  abbrev KeptWith : {A : Type 0} → A × Compressor H Z → Type 0
  KeptWith p = IsCached lib p.1

  -- A new compressor is kept for the level that it was allocated for.
  stored-IsCached :
      (level : ℕ) (h : H)
      → lib.alloc_compressor_ex w (libdeflate_level level) ≡ some h
      → IsCached lib
          (record ctx { libdeflate_compressor = set ctx.libdeflate_compressor level (some h) })
  stored-IsCached level h allocated = record {
    for_level = λ other k e. elim (Bool-cases (level == other)) [
      | inl same ↦
          let found = rw same at e in
          let level_same : level ≡ other = ground arith in
          let lookup : lib.alloc_compressor_ex w (libdeflate_level level)
              ≡ lib.alloc_compressor_ex w (libdeflate_level other) =
            ap (λ l. lib.alloc_compressor_ex w (libdeflate_level l)) level_same in
          (w, sym lookup ∙ allocated ∙ found)
      | inr differs ↦ let kept = rw differs at e in at.for_level other k kept
    ];
    created = at.created;
  }

  deflate_compressor-IsCached :
      (level : ℕ) → Every KeptWith (deflate_compressor lib w ctx dst_max src level)
  unfolding deflate_compressor
  deflate_compressor-IsCached level =
      if_both (Every KeptWith) (ltb level levels)
        (if_null_both KeptWith (ctx.libdeflate_compressor level)
          (if_null_both KeptWith (lib.alloc_compressor_ex w (libdeflate_level level)) at
            (λ h e. stored-IsCached level h e))
          (λ h e. at))
        tt

  deflate_with-IsCached :
      (code : H → List ℕ → ℕ → List ℕ) (level : ℕ)
      → Every Kept (deflate_with lib w ctx dst_max src code level)
  unfolding deflate_with deflated
  deflate_with-IsCached code level =
      Every-if_null KeptWith Kept (deflate_compressor lib w ctx dst_max src level)
        (deflate_compressor-IsCached level)
        (λ found kept.
          if_null_both Kept found.0 kept
            (λ h e. if_both Kept (length (code h src dst_max) == 0) kept kept))

  compress_lz4f-IsCached : (level : ℕ) → Kept (compress_lz4f lib w ctx dst_max src level)
  unfolding compress_lz4f
  compress_lz4f-IsCached level = if_null_both Kept _ at (λ bytes e. at)

  compress_uncompressed-IsCached : Kept (compress_uncompressed lib w ctx dst_max src)
  unfolding compress_uncompressed
  compress_uncompressed-IsCached = if_both Kept (ltb dst_max (length src)) at at

  created-IsCached :
      (z : Option Z) → lib.create_cctx w ≡ z → IsCached lib (record ctx { zstd_cctx = z })
  created-IsCached z create = record { for_level = at.for_level; created = λ x e. (w, create ∙ e) }

  zstd_compressor-IsCached : KeptWith (zstd_compressor lib w ctx dst_max src)
  unfolding zstd_compressor
  zstd_compressor-IsCached =
      if_null_both KeptWith ctx.zstd_cctx (created-IsCached (lib.create_cctx w) refl) (λ z e. at)

  zstd_result-IsCached :
      (kept : Compressor H Z) (size : ZstdSize)
      → IsCached lib kept
      → Kept (zstd_result lib w ctx dst_max src kept size)
  unfolding zstd_result
  zstd_result-IsCached kept (ZstdSize.no_error bytes) k = k
  zstd_result-IsCached kept ZstdSize.dst_size_too_small k = k
  zstd_result-IsCached kept ZstdSize.memory_allocation k = k
  zstd_result-IsCached kept ZstdSize.other k = k

  compress_zstd-IsCached : (level : ℕ) → Kept (compress_zstd lib w ctx dst_max src level)
  unfolding compress_zstd
  compress_zstd-IsCached level =
      let kept = zstd_compressor-IsCached in
      if_null_both Kept (zstd_compressor lib w ctx dst_max src).0 kept
        (λ z e. zstd_result-IsCached (zstd_compressor lib w ctx dst_max src).1 _ kept)

  xz_result-IsCached : (r : LzmaReturn) (s : Stream S) → Kept (xz_result lib w ctx dst_max src r s)
  unfolding xz_result
  xz_result-IsCached LzmaReturn.buf_error s = if_both Kept (s.avail_out == 0) at at
  xz_result-IsCached LzmaReturn.ok s = at
  xz_result-IsCached LzmaReturn.stream_end s = at
  xz_result-IsCached LzmaReturn.mem_error s = at
  xz_result-IsCached LzmaReturn.memlimit_error s = at
  xz_result-IsCached LzmaReturn.format_error s = at
  xz_result-IsCached LzmaReturn.options_error s = at
  xz_result-IsCached LzmaReturn.data_error s = at
  xz_result-IsCached LzmaReturn.other s = at

  bz_result-IsCached :
      (r : Option BzReturn) (s : Stream B) → Kept (bz_result lib w ctx dst_max src r s)
  unfolding bz_result
  bz_result-IsCached none s = at
  bz_result-IsCached (some BzReturn.ok) s = at
  bz_result-IsCached (some BzReturn.finish_ok) s = at
  bz_result-IsCached (some BzReturn.mem_error) s = at
  bz_result-IsCached (some BzReturn.data_error_magic) s = at
  bz_result-IsCached (some BzReturn.data_error) s = at
  bz_result-IsCached (some BzReturn.other) s = at
  bz_result-IsCached (some BzReturn.stream_end) s = at

  xz_run-IsCached : (fuel : ℕ) (state : S) → Every Kept (xz_run lib w ctx dst_max src fuel state)
  unfolding xz_run
  xz_run-IsCached fuel state =
      Every-if_null_all Kept
        (code_loop fuel never lib.lzma_code until_not_ok (lzma_stream lib w ctx dst_max src state))
        (λ l. xz_result lib w ctx dst_max src l.0 l.1) (λ l. xz_result-IsCached l.0 l.1)

  bz_run-IsCached : (fuel : ℕ) (state : B) → Every Kept (bz_run lib w ctx dst_max src fuel state)
  unfolding bz_run
  bz_run-IsCached fuel state =
      Every-if_null_all Kept
        (code_loop fuel is_full lib.bz_compress until_finished
          (bz_stream lib w ctx dst_max src state))
        (λ l. bz_result lib w ctx dst_max src l.0 l.1) (λ l. bz_result-IsCached l.0 l.1)

  compress_xz-IsCached :
      (fuel level : ℕ) → Every Kept (compress_xz lib w ctx dst_max src fuel level)
  unfolding compress_xz xz_started
  compress_xz-IsCached fuel level =
      let preset = choose_level level (bit_or lib.preset_extreme 9) 8 6 3 1 6 in
      started (lib.easy_encoder w preset).0
        (xz_run lib w ctx dst_max src fuel (lib.easy_encoder w preset).1)
        (xz_run-IsCached fuel (lib.easy_encoder w preset).1)
    where
      started :
          (r : LzmaReturn) (run : Option (Outcome (Compressor H Z)))
          → Every Kept run
          → Every Kept (xz_started lib w ctx dst_max src r run)
      started LzmaReturn.ok run good = good
      started LzmaReturn.stream_end run good = at
      started LzmaReturn.mem_error run good = at
      started LzmaReturn.memlimit_error run good = at
      started LzmaReturn.format_error run good = at
      started LzmaReturn.options_error run good = at
      started LzmaReturn.data_error run good = at
      started LzmaReturn.other run good = at
      started LzmaReturn.buf_error run good = at

  compress_bzip2-IsCached :
      (fuel level : ℕ) → Every Kept (compress_bzip2 lib w ctx dst_max src fuel level)
  unfolding compress_bzip2 bz_started
  compress_bzip2-IsCached fuel level =
      let block_size = choose_level level 9 7 5 3 1 6 in
      if_both (Every Kept) (ltb 4294967295 (length src)) at (
        started (lib.bz_compress_init w block_size).0
          (bz_run lib w ctx dst_max src fuel (lib.bz_compress_init w block_size).1)
          (bz_run-IsCached fuel (lib.bz_compress_init w block_size).1))
    where
      started :
          (r : BzReturn) (run : Option (Outcome (Compressor H Z)))
          → Every Kept run
          → Every Kept (bz_started lib w ctx dst_max src r run)
      started BzReturn.ok run good = good
      started BzReturn.finish_ok run good = at
      started BzReturn.mem_error run good = at
      started BzReturn.data_error_magic run good = at
      started BzReturn.data_error run good = at
      started BzReturn.other run good = at
      started BzReturn.stream_end run good = at

  compress-Every-IsCached :
      (have : Libraries) (fuel method level : ℕ)
      → Every Kept (compress lib w ctx dst_max src have fuel method level)
  unfolding compress compress_gzip compress_zlib compress_deflate
  compress-Every-IsCached have fuel method level =
      let P : Option (Outcome (Compressor H Z)) → Type 0 = Every Kept in
      if_both P (method == uncompressed) compress_uncompressed-IsCached (
        if_both P (method == gzip)
          (if_both P have.deflate (deflate_with-IsCached lib.gzip_compress level) at)
          (if_both P (method == zlib)
            (if_both P have.deflate (deflate_with-IsCached lib.zlib_compress level) at)
            (if_both P (method == deflate)
              (if_both P have.deflate (deflate_with-IsCached lib.deflate_compress level) at)
              (if_both P (method == lz4f) (if_both P have.lz4 (compress_lz4f-IsCached level) at) (
                if_both P (method == xz) (if_both P have.lzma (compress_xz-IsCached fuel level) at)
                  (if_both P (method == zstd)
                    (if_both P have.zstd (compress_zstd-IsCached level) at)
                    (if_both P (method == bzip2)
                      (if_both P have.bz2 (compress_bzip2-IsCached fuel level) at) at)))))))

  -- If in a context each compressor kept for a level was allocated for that level, and a context of
  -- libzstd that is kept was created, so it is in the context that a call of `clod_compress` with a
  -- level below `CLOD_COMPRESSION_LEVELS` leaves, whatever its result.
  pub compress-IsCached :
      (have : Libraries) (fuel method level : ℕ) (o : Outcome (Compressor H Z))
      → level < levels
      → compress lib w ctx dst_max src have fuel method level ≡ some o
      → IsCached lib o.ctx
  compress-IsCached have fuel method level o below ended =
      let kept = compress-Every-IsCached have fuel method level in rw ended at kept
