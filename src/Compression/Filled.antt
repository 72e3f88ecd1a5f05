-- ===== src/Compression/Filled.antt =====
-- What `clod_decompress` of src/compression/decompress.c writes and reports, given what the libraries
-- document.
use libclod.Prelude.{
  ℕ, ◌≤◌, ◌≡◌, ◌≢◌, refl, ◌∙◌, Bool, true, false, not, ◌&&◌, List, [], Option, none, some, ltb,
  ◌==◌, if◌then◌else◌, arith, length,
}
use libclod.Compression.Types.{
  Result, success, malformed, short_buffer, short_output, alloc_failed, Outcome, fail,
}
use libclod.Compression.Library.{Fits}
use libclod.Compression.Loops.{if_null_both}
use libclod.Compression.Decoders.{Decompressors, DeflateReturn, Inflated}
use libclod.Compression.Inflate.{
  Decompressor, store, decompress_uncompressed, deflate_decompressor, inflated_result,
  inflated_size, inflated, inflate_with,
}
use libclod.Compression.Sound.{short_buffer≢success, alloc_failed≢success}

-- A function of libdeflate stays within the room. On success it fills it if no size is wanted, and
-- else stores the number of bytes.
pub record Inflates {H : Type 0} (code : H → List ℕ → ℕ → Bool → Inflated) : Type 0 where
  pub fits :
      (h : H) (input : List ℕ) (room : ℕ) (wants : Bool)
      → length (code h input room wants).bytes ≤ room
  pub exact :
      (h : H) (input : List ℕ) (room : ℕ)
      → (code h input room false).answer ≡ DeflateReturn.success
      → length (code h input room false).bytes ≡ room
  pub stores :
      (h : H) (input : List ℕ) (room : ℕ)
      → (code h input room true).answer ≡ DeflateReturn.success
      → (code h input room true).stored ≡ some (length (code h input room true).bytes)

-- The libraries write within the room, as they document.
pub record DecodesWithin {W H L S D B : Type 0} (lib : Decompressors W H L S D B) : Type 0 where
  pub gzip_inflates : Inflates lib.gzip_decompress
  pub zlib_inflates : Inflates lib.zlib_decompress
  pub deflate_inflates : Inflates lib.deflate_decompress
  pub lz4_fits : Fits lib.lz4f_decompress
  pub lzma_fits : Fits lib.lzma_code
  pub zstd_fits : Fits lib.decompress_stream
  pub bz_fits : Fits lib.bz_decompress

-- At most `room` bytes are written. A success fills the room if no size is wanted, where `holds`
-- says that this is promised, and else reports the number of bytes.
pub record Filled {C : Type 0} (room : ℕ) (wants holds : Bool) (o : Outcome C) : Type 0 where
  pub within : length o.written ≤ room
  pub exact : o.result ≡ success → holds ≡ true → wants ≡ false → length o.written ≡ room
  pub reported : o.result ≡ success → wants ≡ true → o.size ≡ some (length o.written)

pub malformed≢success : malformed ≢ success
malformed≢success e = ground arith

pub short_output≢success : short_output ≢ success
short_output≢success e = ground arith

pub if_case :
    {A : Type 0} (P : A → Type 0) (b : Bool) {x y : A}
    → (b ≡ true → P x)
    → (b ≡ false → P y)
    → P (if b then x else y)
if_case P true hx hy = hx refl
if_case P false hx hy = hy refl

module _ {C : Type 0} (room : ℕ) (wants holds : Bool) (c : C) where
  pub stopped-Filled :
      (r : Result) (size : Option ℕ) (bytes : List ℕ)
      → r ≢ success
      → length bytes ≤ room
      → Filled room wants holds (record { result = r; size = size; written = bytes; ctx = c })
  stopped-Filled r size bytes not_success fits = record {
    within = fits;
    exact = λ e k unwanted. absurd (not_success e);
    reported = λ e wanted. absurd (not_success e);
  }

  pub fail-Filled : (r : Result) → r ≢ success → Filled room wants holds (fail c r)
  fail-Filled r not_success = stopped-Filled r none [] not_success (omega arith)

  -- A success that stores the number of bytes if it is wanted.
  pub done-Filled :
      (bytes : List ℕ)
      → length bytes ≤ room
      → (holds ≡ true → wants ≡ false → length bytes ≡ room)
      → Filled room wants holds
          (record { result = success; size = store wants (length bytes); written = bytes; ctx = c })
  done-Filled bytes fits full = record {
    within = fits;
    exact = λ e k unwanted. full k unwanted;
    reported = λ e wanted. rw wanted refl;
  }

module _ {W H L S D B : Type 0} (lib : Decompressors W H L S D B) (w : W) (ctx : Decompressor H L D)
    (dst_size : ℕ) (src : List ℕ) (wants holds : Bool) where
  abbrev Good : Outcome (Decompressor H L D) → Type 0
  Good o = Filled dst_size wants holds o

  pub decompress_uncompressed-Filled :
      Filled dst_size wants holds (decompress_uncompressed lib w ctx dst_size src wants)
  unfolding decompress_uncompressed
  decompress_uncompressed-Filled =
      if_case Good (ltb dst_size (length src))
        (λ short.
          stopped-Filled dst_size wants holds ctx short_buffer (store wants (length src)) []
            short_buffer≢success (omega arith))
        (λ room.
          if_case Good (not wants && not (dst_size == length src))
            (λ less. fail-Filled dst_size wants holds ctx short_output short_output≢success)
            (λ fine.
              done-Filled dst_size wants holds ctx src (ground arith) (λ k unwanted. ground arith)))

  succeeds :
      (a : DeflateReturn)
      → inflated_result lib w ctx dst_size src wants a ≡ success
      → a ≡ DeflateReturn.success
  unfolding inflated_result
  succeeds DeflateReturn.success e = refl
  succeeds DeflateReturn.bad_data e = ground arith
  succeeds DeflateReturn.short_output e = ground arith
  succeeds DeflateReturn.insufficient_space e = ground arith
  succeeds DeflateReturn.other e = ground arith

  kept_size :
      (a : DeflateReturn) (stored : Option ℕ)
      → a ≡ DeflateReturn.success
      → wants ≡ true
      → inflated_size lib w ctx dst_size src wants a stored ≡ stored
  unfolding inflated_size
  kept_size a stored e wanted = rw (e, wanted) refl

  inflated-Filled :
      (code : H → List ℕ → ℕ → Bool → Inflated) (kept : Decompressor H L D) (h : H)
      → Inflates code
      → Filled dst_size wants holds
          (inflated lib w ctx dst_size src wants kept (code h src dst_size wants))
  unfolding inflated
  inflated-Filled code kept h inflates = record {
    within = inflates.fits h src dst_size wants;
    exact = λ e k unwanted.
        let answer = succeeds (code h src dst_size wants).answer e in
        let answer' = rw unwanted at answer in rw unwanted (inflates.exact h src dst_size answer');
    reported = λ e wanted.
        let answer = succeeds (code h src dst_size wants).answer e in
        let answer' = rw wanted at answer in
        let stored : (code h src dst_size wants).stored
            ≡ some (length (code h src dst_size wants).bytes) =
          rw wanted (inflates.stores h src dst_size answer') in
        kept_size (code h src dst_size wants).answer (code h src dst_size wants).stored answer
          wanted
        ∙ stored;
  }

  pub inflate_with-Filled :
      (code : H → List ℕ → ℕ → Bool → Inflated)
      → Inflates code
      → Filled dst_size wants holds (inflate_with lib w ctx dst_size src wants code)
  unfolding inflate_with
  inflate_with-Filled code inflates =
      let kept = (deflate_decompressor lib w ctx dst_size src wants).1 in
      if_null_both Good (deflate_decompressor lib w ctx dst_size src wants).0
        (fail-Filled dst_size wants holds kept alloc_failed alloc_failed≢success)
        (λ h e. inflated-Filled code kept h inflates)
