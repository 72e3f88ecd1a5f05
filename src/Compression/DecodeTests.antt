-- ===== src/Compression/DecodeTests.antt =====
-- Decompression with libraries whose compressed data are the bytes themselves.
use libclod.Prelude.{
  ℕ, ◌≤◌, ◌≡◌, refl, inr, true, false, [], ◌∷◌, Option, none, some, length, arith,
}
use libclod.Compression.Types.{
  Outcome, success, unsupported, fail, lz4f, zstd, bzip2, minecraft_lz4,
}
use libclod.Compression.Inflate.{Decompressor}
use libclod.Compression.Decompress.{decompress}
use libclod.Compression.Decompressed.{
  decompress-within, decompress_lem, decompress-exact, decompress-reported, decompress-unsupported,
}
use libclod.Compression.Truncated.{decompress-goes_on}
use libclod.Compression.Tests.{all_libraries, data_bytes}
use libclod.Compression.Pasting.{
  pasting, pasting-DecodesWithin, pasting-DecodesOn, copy_to_zero-Waits,
}

abbrev fresh : Decompressor ℕ Unit Unit
fresh = record { libdeflate_decompressor = none; lz4_ctx = none; zstd_dctx = none }

abbrev pasted : Option ℕ → Decompressor ℕ Unit Unit → Outcome (Decompressor ℕ Unit Unit)
pasted size c = record { result = success; size = size; written = data_bytes; ctx = c }

abbrev with_dctx : Decompressor ℕ Unit Unit
with_dctx = record { libdeflate_decompressor = none; lz4_ctx = none; zstd_dctx = some tt }

abbrev with_lz4 : Decompressor ℕ Unit Unit
with_lz4 = record { libdeflate_decompressor = none; lz4_ctx = some tt; zstd_dctx = none }

unpacks_zstd :
    decompress pasting tt fresh 3 data_bytes false all_libraries 10 zstd
    ≡ some (pasted none with_dctx)
unfolding decompress
unpacks_zstd = refl

unpacks_lz4 :
    decompress pasting tt fresh 5 data_bytes true all_libraries 10 lz4f
    ≡ some (pasted (some 3) with_lz4)
unfolding decompress
unpacks_lz4 = refl

unpacks_bzip2 :
    decompress pasting tt fresh 4 (7 ∷ 8 ∷ 9 ∷ 0 ∷ []) true all_libraries 10 bzip2
    ≡ some (pasted (some 3) fresh)
unfolding decompress
unpacks_bzip2 = refl

decompress_lem_example :
    (o : Outcome (Decompressor ℕ Unit Unit)) × (decompress pasting tt fresh 5 data_bytes true
        all_libraries 20 lz4f
      ≡ some o)
    × (length o.written ≤ 5)
decompress_lem_example =
    decompress_lem pasting tt fresh 5 data_bytes true 0 all_libraries 20 lz4f (λ e. omega arith)
      pasting-DecodesWithin pasting-DecodesOn (omega arith)

decompress-within_example : length (pasted (some 3) fresh).written ≤ 4
decompress-within_example =
    decompress-within pasting tt fresh 4 (7 ∷ 8 ∷ 9 ∷ 0 ∷ []) true all_libraries 10 bzip2
      (pasted (some 3) fresh) pasting-DecodesWithin unpacks_bzip2

decompress-exact_example : length (pasted none with_dctx).written ≡ 3
decompress-exact_example =
    decompress-exact pasting tt fresh 3 data_bytes false all_libraries 10 zstd
      (pasted none with_dctx) pasting-DecodesWithin (inr (omega arith)) refl unpacks_zstd refl

decompress-reported_example :
    (pasted (some 3) with_lz4).size ≡ some (length (pasted (some 3) with_lz4).written)
decompress-reported_example =
    decompress-reported pasting tt fresh 5 data_bytes true all_libraries 10 lz4f
      (pasted (some 3) with_lz4) pasting-DecodesWithin refl unpacks_lz4 refl

decompress-unsupported_example :
    decompress pasting tt fresh 5 data_bytes true all_libraries 20 minecraft_lz4
    ≡ some (fail fresh unsupported)
decompress-unsupported_example =
    decompress-unsupported pasting tt fresh 5 data_bytes true all_libraries 20 minecraft_lz4
      (inr refl)

decompress-goes_on_example : decompress pasting tt fresh 5 [] true all_libraries 1000 bzip2 ≡ none
decompress-goes_on_example =
    decompress-goes_on pasting tt fresh 5 true (λ s. Unit) all_libraries refl copy_to_zero-Waits
      refl tt (inr (omega arith)) 1000
