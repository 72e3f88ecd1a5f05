-- ===== src/Compression/Lz4.antt =====
-- `CLOD_LZ4F` in `clod_decompress` of src/compression/decompress.c.
use libclod.Prelude.{
  ℕ, zero, suc, Bool, not, ◌&&◌, List, [], Option, none, some, ltb, ◌==◌, if◌then◌else◌, length,
  drop,
}
use libclod.Compression.Types.{
  success, malformed, short_buffer, short_output, alloc_failed, Outcome, fail, if_null,
}
use libclod.Compression.Coder.{Stream, code_loop}
use libclod.Compression.Decoders.{Decompressors}
use libclod.Compression.Streamed.{never}
use libclod.Compression.Inflate.{Decompressor, store}

-- Where the loop is left: an error, the end of the frame, the end of the input, a full buffer.
pub data Lz4End : Type 0 where
  broken : Lz4End
  finished : Lz4End
  starved : Lz4End
  full : Lz4End

-- The tests of a round, after the call, in their order.
unfoldable pub lz4_after : {L : Type 0} → Option ℕ → Stream L → Option Lz4End
lz4_after none s = some broken
lz4_after (some zero) s = some finished
lz4_after (some (suc hint)) s =
    if length s.input == 0 then some starved else if s.avail_out == 0 then some full else none

module _ {W H L S D B : Type 0} (lib : Decompressors W H L S D B) (w : W) (ctx : Decompressor H L D)
    (dst_size : ℕ) (src : List ℕ) (wants : Bool) where
  -- The context after `LZ4F_resetDecompressionContext`.
  unfoldable pub lz4_reset : L → Decompressor H L D
  lz4_reset l = record ctx { lz4_ctx = some (lib.reset_context l) }

  unfoldable pub lz4_result : ℕ → Lz4End → Stream L → Outcome (Decompressor H L D)
  unfolding lz4_reset
  lz4_result content broken s = record {
    result = malformed;
    size = none;
    written = s.out;
    ctx = lz4_reset s.state;
  }
  lz4_result content finished s =
      if not wants && ltb (length s.out) dst_size
      then record { result = short_output; size = none; written = s.out; ctx = lz4_reset s.state }
      else record {
        result = success;
        size = store wants (length s.out);
        written = s.out;
        ctx = lz4_reset s.state;
      }
  lz4_result content starved s = record {
    result = malformed;
    size = none;
    written = s.out;
    ctx = lz4_reset s.state;
  }
  lz4_result content full s = record {
    result = short_buffer;
    size = store wants content;
    written = s.out;
    ctx = lz4_reset s.state;
  }

  -- The loop behind a header of `taken` bytes.
  unfoldable pub lz4_stream : L → ℕ → Stream L
  lz4_stream l taken = record { state = l; input = drop taken src; avail_out = dst_size; out = [] }

  unfoldable pub lz4_run : ℕ → L → ℕ → ℕ → Option (Outcome (Decompressor H L D))
  unfolding code_loop lz4_after lz4_result lz4_stream
  lz4_run fuel l content taken =
      if_null (code_loop fuel never lib.lz4f_decompress lz4_after (lz4_stream l taken)) none
        (λ (e, s). some (lz4_result content e s))

  -- With the header's content size and length.
  unfoldable pub lz4_sized : ℕ → L → ℕ × ℕ → Option (Outcome (Decompressor H L D))
  unfolding lz4_run lz4_reset
  lz4_sized fuel l (content, taken) =
      if ltb dst_size content
      then some (record {
        result = short_buffer;
        size = store wants content;
        written = [];
        ctx = lz4_reset l;
      })
      else if not wants && (ltb 0 content && ltb content dst_size)
      then some (fail (lz4_reset l) short_output)
      else lz4_run fuel l content taken

  unfoldable pub lz4_opened : ℕ → L → Option (Outcome (Decompressor H L D))
  unfolding lz4_sized lz4_reset
  lz4_opened fuel l =
      let (info, l') = lib.get_frame_info l src in
      if_null info (some (fail (lz4_reset l') malformed)) (λ sizes. lz4_sized fuel l' sizes)

  -- The context for liblz4: the one at hand, or a new one.
  unfoldable pub lz4_context : Option L
  lz4_context = if_null ctx.lz4_ctx (lib.create_context w) (λ l. some l)

  unfoldable pub decompress_lz4f : ℕ → Option (Outcome (Decompressor H L D))
  unfolding lz4_opened lz4_context
  decompress_lz4f fuel =
      if ltb (length src) lib.min_header_size
      then some (fail ctx malformed)
      else if_null (lib.header_size src) (some (fail ctx malformed)) (λ header.
        if ltb (length src) header
        then some (fail ctx malformed)
        else if_null lz4_context (some (fail ctx alloc_failed)) (λ l. lz4_opened fuel l))
