-- ===== src/Compression/Inflate.antt =====
-- The methods of `clod_decompress` of src/compression/decompress.c that call a library once.
use libclod.Prelude.{
  ◌∷◌, ◌++◌, ℕ, Bool, true, false, not, ◌&&◌, List, [], Option, none, some, ltb, ◌==◌,
  if◌then◌else◌, length,
}
use libclod.Compression.Types.{
  Result, success, unsupported, malformed, short_buffer, short_output, alloc_failed, Outcome, fail,
  if_null,
}
use libclod.Compression.Decoders.{Decompressors, DeflateReturn, Inflated}

-- `struct clod_decompressor`
pub record Decompressor (H L D : Type 0) : Type 0 where
  pub libdeflate_decompressor : Option H
  pub lz4_ctx : Option L
  pub zstd_dctx : Option D

-- `if (actual_size) *actual_size = n`
abbrev pub store : Bool → ℕ → Option ℕ
store wants n = if wants then some n else none

-- `clod_decompressor_init()`, and whether `malloc` finds memory; `none` is the write through a null
-- pointer.
unfoldable pub decompressor_init : {H L D : Type 0} → Bool → Option (Decompressor H L D)
decompressor_init true =
    some (record { libdeflate_decompressor = none; lz4_ctx = none; zstd_dctx = none })
decompressor_init false = none

-- What `clod_decompressor_free` gives back.
pub data Released (H L D : Type 0) : Type 0 where
  released_decompressor : H → Released H L D
  released_lz4_ctx : L → Released H L D
  released_dctx : D → Released H L D
  released_context : Released H L D

-- `clod_decompressor_free(ctx)`: what it frees, in order.
unfoldable pub decompressor_free : {H L D : Type 0} → Decompressor H L D → List (Released H L D)
decompressor_free ctx =
    if_null ctx.libdeflate_decompressor [] (λ h. released_decompressor h ∷ [])
    ++ (if_null ctx.lz4_ctx [] (λ l. released_lz4_ctx l ∷ [])
        ++ (if_null ctx.zstd_dctx [] (λ d. released_dctx d ∷ []) ++ (released_context ∷ [])))

module _ {W H L S D B : Type 0} (lib : Decompressors W H L S D B) (w : W) (ctx : Decompressor H L D)
    (dst_size : ℕ) (src : List ℕ) (wants : Bool) where
  unfoldable pub decompress_uncompressed : Outcome (Decompressor H L D)
  decompress_uncompressed =
      if ltb dst_size (length src)
      then record {
        result = short_buffer;
        size = store wants (length src);
        written = [];
        ctx = ctx;
      }
      else if not wants && not (dst_size == length src)
      then fail ctx short_output
      else record { result = success; size = store wants (length src); written = src; ctx = ctx }

  -- The decompressor: the one at hand, or a new one that is kept.
  unfoldable pub deflate_decompressor : Option H × Decompressor H L D
  deflate_decompressor =
      let allocated = lib.alloc_decompressor_ex w in
      if_null ctx.libdeflate_decompressor
        (allocated, record ctx { libdeflate_decompressor = allocated }) (λ h. (some h, ctx))

  unfoldable pub inflated_result : DeflateReturn → Result
  inflated_result DeflateReturn.success = success
  inflated_result DeflateReturn.bad_data = malformed
  inflated_result DeflateReturn.short_output = short_output
  inflated_result DeflateReturn.insufficient_space = short_buffer
  inflated_result DeflateReturn.other = unsupported

  -- `*actual_size` after the call: a room that is too small sets it to 0.
  unfoldable pub inflated_size : DeflateReturn → Option ℕ → Option ℕ
  inflated_size DeflateReturn.insufficient_space stored = store wants 0
  inflated_size answer stored = if wants then stored else none

  unfoldable pub inflated : Decompressor H L D → Inflated → Outcome (Decompressor H L D)
  unfolding inflated_result inflated_size
  inflated kept i = record {
    result = inflated_result i.answer;
    size = inflated_size i.answer i.stored;
    written = i.bytes;
    ctx = kept;
  }

  unfoldable pub inflate_with : (H → List ℕ → ℕ → Bool → Inflated) → Outcome (Decompressor H L D)
  unfolding deflate_decompressor inflated
  inflate_with code =
      let (handle, kept) = deflate_decompressor in
      if_null handle (fail kept alloc_failed) (λ h. inflated kept (code h src dst_size wants))

  unfoldable pub decompress_gzip : Outcome (Decompressor H L D)
  unfolding inflate_with
  decompress_gzip = inflate_with lib.gzip_decompress

  unfoldable pub decompress_zlib : Outcome (Decompressor H L D)
  unfolding inflate_with
  decompress_zlib = inflate_with lib.zlib_decompress

  unfoldable pub decompress_deflate : Outcome (Decompressor H L D)
  unfolding inflate_with
  decompress_deflate = inflate_with lib.deflate_decompress
