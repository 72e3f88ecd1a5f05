-- ===== src/Compression/BzFilled.antt =====
-- The same for libbz2 in src/compression/decompress.c, whose sizes have 32 bits.
use libclod.Prelude.{
  ℕ, ◌+◌, ◌%◌, ◌^◌, ◌≤◌, ◌<◌, ◌≡◌, refl, inl, inr, Bool, true, false, Bool-cases, not, ◌&&◌, List,
  Option, none, some, ◌==◌, if◌then◌else◌, arith, length,
}
use libclod.Compression.Types.{
  unsupported, malformed, short_buffer, short_output, alloc_failed, Outcome,
}
use libclod.Compression.Coder.{Stream}
use libclod.Compression.Library.{Fits, BzReturn}
use libclod.Compression.Loops.{Every, Left, code_loop-Left, Every-if_null}
use libclod.Compression.Decoders.{Decompressors}
use libclod.Compression.Streamed.{is_full, bz_total}
use libclod.Compression.Inflate.{Decompressor, store}
use libclod.Compression.Decode.{
  until_bz_not_ok, unbz_written, unbz_result, unbz_stream, unbz_run, unbz_started, decompress_bzip2,
}
use libclod.Compression.Sound.{unsupported≢success, short_buffer≢success, alloc_failed≢success}
use libclod.Compression.Filled.{
  Filled, if_case, stopped-Filled, fail-Filled, done-Filled, malformed≢success,
  short_output≢success,
}

module _ {W H L S D B : Type 0} (lib : Decompressors W H L S D B) (w : W) (ctx : Decompressor H L D)
    (dst_size : ℕ) (src : List ℕ) (wants holds : Bool) where
  abbrev Good : Outcome (Decompressor H L D) → Type 0
  Good o = Filled dst_size wants holds o

  -- The room that libbz2 is told.
  abbrev bz_room : ℕ
  bz_room = if dst_size == 0 then 1 else dst_size % 2 ^ 32

  unbz_written-le :
      (s : Stream B)
      → length s.out + s.avail_out ≡ bz_room
      → length (unbz_written lib w ctx dst_size src wants s) ≤ dst_size
  unfolding unbz_written
  unbz_written-le s at = elim (Bool-cases (dst_size == 0)) [
    | inl empty ↦ rw empty (omega arith)
    | inr room ↦ let at' = rw room at at in rw room (omega arith)
  ]

  -- The count in two words is the number of bytes in the room.
  total-written :
      (s : Stream B)
      → length s.out + s.avail_out ≡ bz_room
      → dst_size == 0 && not (s.avail_out == 1) ≡ false
      → bz_total (length s.out) ≡ length (unbz_written lib w ctx dst_size src wants s)
  unfolding unbz_written
  total-written s at whole = elim (Bool-cases (dst_size == 0)) [
    | inl empty ↦
        let at' = rw empty at at in
        let one : s.avail_out ≡ 1 = ground arith in
        let none_out : length s.out ≡ 0 = omega arith in rw (empty, none_out) refl
    | inr room ↦ let at' = rw room at at in rw room (omega arith)
  ]

  full-written :
      (s : Stream B)
      → length s.out + s.avail_out ≡ bz_room
      → dst_size < 2 ^ 32
      → not (dst_size == 0) && not (s.avail_out == 0) ≡ false
      → length (unbz_written lib w ctx dst_size src wants s) ≡ dst_size
  unfolding unbz_written
  full-written s at small whole = elim (Bool-cases (dst_size == 0)) [
    | inl empty ↦ rw empty (ground arith)
    | inr room ↦
        let at' = rw room at at in
        let used : s.avail_out ≡ 0 = ground arith in rw room (omega arith)
  ]

  unbz_result-Filled :
      (r : Option BzReturn) (s : Stream B)
      → (holds ≡ true → dst_size < 2 ^ 32)
      → length s.out + s.avail_out ≡ bz_room
      → Filled dst_size wants holds (unbz_result lib w ctx dst_size src wants r s)
  unfolding unbz_result
  unbz_result-Filled none s small at =
      stopped-Filled dst_size wants holds ctx short_buffer (store wants 0)
        (unbz_written lib w ctx dst_size src wants s) short_buffer≢success (unbz_written-le s at)
  unbz_result-Filled (some BzReturn.stream_end) s small at =
      let written = unbz_written lib w ctx dst_size src wants s in
      if_case Good (dst_size == 0 && not (s.avail_out == 1))
        (λ over.
          stopped-Filled dst_size wants holds ctx short_buffer none written short_buffer≢success
            (unbz_written-le s at))
        (λ whole.
          if_case Good (not (dst_size == 0) && (not wants && not (s.avail_out == 0)))
            (λ short.
              stopped-Filled dst_size wants holds ctx short_output none written short_output≢success
                (unbz_written-le s at))
            (λ full. rw (total-written s at whole) (
              done-Filled dst_size wants holds ctx written (unbz_written-le s at)
                (λ k unwanted. full-written s at (small k) (ground arith)))))
  unbz_result-Filled (some BzReturn.ok) s small at =
      stopped-Filled dst_size wants holds ctx unsupported none
        (unbz_written lib w ctx dst_size src wants s) unsupported≢success (unbz_written-le s at)
  unbz_result-Filled (some BzReturn.finish_ok) s small at =
      stopped-Filled dst_size wants holds ctx unsupported none
        (unbz_written lib w ctx dst_size src wants s) unsupported≢success (unbz_written-le s at)
  unbz_result-Filled (some BzReturn.mem_error) s small at =
      stopped-Filled dst_size wants holds ctx alloc_failed none
        (unbz_written lib w ctx dst_size src wants s) alloc_failed≢success (unbz_written-le s at)
  unbz_result-Filled (some BzReturn.data_error_magic) s small at =
      stopped-Filled dst_size wants holds ctx malformed none
        (unbz_written lib w ctx dst_size src wants s) malformed≢success (unbz_written-le s at)
  unbz_result-Filled (some BzReturn.data_error) s small at =
      stopped-Filled dst_size wants holds ctx malformed none
        (unbz_written lib w ctx dst_size src wants s) malformed≢success (unbz_written-le s at)
  unbz_result-Filled (some BzReturn.other) s small at =
      stopped-Filled dst_size wants holds ctx unsupported none
        (unbz_written lib w ctx dst_size src wants s) unsupported≢success (unbz_written-le s at)

  unbz_run-Filled :
      Fits lib.bz_decompress
      → (holds ≡ true → dst_size < 2 ^ 32)
      → (fuel : ℕ) (state : B) → Every Good (unbz_run lib w ctx dst_size src wants fuel state)
  unfolding unbz_run unbz_stream
  unbz_run-Filled fits small fuel state =
      let start = unbz_stream lib w ctx dst_size src wants state in
      let left =
        code_loop-Left is_full lib.bz_decompress until_bz_not_ok fuel start bz_room fits
          (omega arith) in
      Every-if_null (λ p. Left is_full lib.bz_decompress until_bz_not_ok bz_room p.0 p.1) Good _
        left (λ p at. unbz_result-Filled p.0 p.1 small at.filled)

  pub decompress_bzip2-Filled :
      Fits lib.bz_decompress
      → (holds ≡ true → dst_size < 2 ^ 32)
      → (fuel : ℕ) → Every Good (decompress_bzip2 lib w ctx dst_size src wants fuel)
  unfolding decompress_bzip2 unbz_started
  decompress_bzip2-Filled fits small fuel =
      started (lib.bz_decompress_init w).0
        (unbz_run lib w ctx dst_size src wants fuel (lib.bz_decompress_init w).1)
        (unbz_run-Filled fits small fuel (lib.bz_decompress_init w).1)
    where
      started :
          (r : BzReturn) (run : Option (Outcome (Decompressor H L D)))
          → Every Good run
          → Every Good (unbz_started lib w ctx dst_size src wants r run)
      started BzReturn.ok run good = good
      started BzReturn.mem_error run good =
          fail-Filled dst_size wants holds ctx alloc_failed alloc_failed≢success
      started BzReturn.finish_ok run good =
          fail-Filled dst_size wants holds ctx unsupported unsupported≢success
      started BzReturn.data_error_magic run good =
          fail-Filled dst_size wants holds ctx unsupported unsupported≢success
      started BzReturn.data_error run good =
          fail-Filled dst_size wants holds ctx unsupported unsupported≢success
      started BzReturn.other run good =
          fail-Filled dst_size wants holds ctx unsupported unsupported≢success
      started BzReturn.stream_end run good =
          fail-Filled dst_size wants holds ctx unsupported unsupported≢success
