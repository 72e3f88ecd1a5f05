-- ===== src/Compression/Pasting.antt =====
-- Libraries whose compressed data are the bytes themselves, for the tests of decompression.
use libclod.Prelude.{
  ℕ, zero, suc, ◌+◌, ◌≤◌, ◌<◌, ◌≡◌, ◌⊎◌, refl, inl, inr, Bool, Bool-cases, true, false, List, [],
  ◌∷◌, Option, none, some, leb, ◌==◌, if◌then◌else◌, length, arith,
}
use libclod.Compression.Coder.{Coder}
use libclod.Compression.Library.{Fits, Moves, LzmaReturn, BzReturn}
use libclod.Compression.Decoders.{Decompressors, DeflateReturn, Inflated, ZstdReturn}
use libclod.Compression.Filled.{Inflates, DecodesWithin}
use libclod.Compression.DecodeEnds.{Lz4Moves, DecodesOn}
use libclod.Compression.Truncated.{Waits}
use libclod.Compression.Tests.{copy_code, copy_code-Fits, copy_code-Moves}

-- One byte in each call, with the end known from the last.
abbrev copy_last : {R : Type 0} → R → R → R → R → Coder R Unit
copy_last again done full broken s [] room = record {
  ret = broken;
  consumed = 0;
  produced = [];
  next = s;
}
copy_last again done full broken s (x ∷ input) zero = record {
  ret = full;
  consumed = 0;
  produced = [];
  next = s;
}
copy_last again done full broken s (x ∷ []) (suc room) = record {
  ret = done;
  consumed = 1;
  produced = x ∷ [];
  next = s;
}
copy_last again done full broken s (x ∷ y ∷ input) (suc room) = record {
  ret = again;
  consumed = 1;
  produced = x ∷ [];
  next = s;
}

copy_last-Fits : {R : Type 0} (again done full broken : R) → Fits (copy_last again done full broken)
copy_last-Fits again done full broken s [] room = omega arith
copy_last-Fits again done full broken s (x ∷ input) zero = omega arith
copy_last-Fits again done full broken s (x ∷ []) (suc room) = omega arith
copy_last-Fits again done full broken s (x ∷ y ∷ input) (suc room) = omega arith

copy_last_consumes :
    {R : Type 0} (again done full broken : R) (s : Unit) (input : List ℕ) (room : ℕ)
    → (copy_last again done full broken s input room).consumed ≤ length input
copy_last_consumes again done full broken s [] room = omega arith
copy_last_consumes again done full broken s (x ∷ input) zero = omega arith
copy_last_consumes again done full broken s (x ∷ []) (suc room) = omega arith
copy_last_consumes again done full broken s (x ∷ y ∷ input) (suc room) = omega arith

abbrev lz4_code : Coder (Option ℕ) Unit
lz4_code = copy_last (some 1) (some 0) (some 1) none

abbrev zstd_code : Coder ZstdReturn Unit
zstd_code = copy_last ZstdReturn.more ZstdReturn.finished ZstdReturn.dest_full ZstdReturn.failed

zstd_code-Moves : Moves zstd_code ZstdReturn.more 0
zstd_code-Moves = record {
  consumes =
      copy_last_consumes ZstdReturn.more ZstdReturn.finished ZstdReturn.dest_full ZstdReturn.failed;
  patience = λ s. 0;
  patient = λ s. omega arith;
  moves = moves;
}
  where
    moves :
        (s : Unit) (input : List ℕ) (room : ℕ)
        → (zstd_code s input room).ret ≡ ZstdReturn.more
        → (1 ≤ (zstd_code s input room).consumed + length (zstd_code s input room).produced)
          ⊎ (0 < 0)
    moves s [] room e = ground arith
    moves s (x ∷ input) zero e = ground arith
    moves s (x ∷ []) (suc room) e = ground arith
    moves s (x ∷ y ∷ input) (suc room) e = inl (omega arith)

-- One byte in each call, up to a byte 0.
abbrev pub copy_to_zero : Coder BzReturn Unit
copy_to_zero s [] room = record { ret = BzReturn.ok; consumed = 0; produced = []; next = s }
copy_to_zero s (zero ∷ input) room = record {
  ret = BzReturn.stream_end;
  consumed = 1;
  produced = [];
  next = s;
}
copy_to_zero s (suc x ∷ input) zero = record {
  ret = BzReturn.ok;
  consumed = 0;
  produced = [];
  next = s;
}
copy_to_zero s (suc x ∷ input) (suc room) = record {
  ret = BzReturn.ok;
  consumed = 1;
  produced = suc x ∷ [];
  next = s;
}

copy_to_zero-Fits : Fits copy_to_zero
copy_to_zero-Fits s [] room = omega arith
copy_to_zero-Fits s (zero ∷ input) room = omega arith
copy_to_zero-Fits s (suc x ∷ input) zero = omega arith
copy_to_zero-Fits s (suc x ∷ input) (suc room) = omega arith

pub copy_to_zero-Waits : Waits copy_to_zero (λ s. Unit)
copy_to_zero-Waits = record {
  asks = λ s room waits some_room. refl;
  puts_nothing = λ s room waits some_room. refl;
  waits_on = λ s room waits some_room. tt;
}

abbrev refuse : DeflateReturn → Inflated
refuse r = record { answer = r; bytes = []; stored = none }

abbrev inflate : ℕ → List ℕ → ℕ → Bool → Inflated
inflate h input room true =
    if leb (length input) room
    then record { answer = DeflateReturn.success; bytes = input; stored = some (length input) }
    else refuse DeflateReturn.insufficient_space
inflate h input room false =
    if length input == room
    then record { answer = DeflateReturn.success; bytes = input; stored = none }
    else refuse (
        if leb room (length input)
        then DeflateReturn.insufficient_space
        else DeflateReturn.short_output)

inflate-Inflates : Inflates inflate
inflate-Inflates = record { fits = fits; exact = exact; stores = stores }
  where
    fits :
        (h : ℕ) (input : List ℕ) (room : ℕ) (wants : Bool)
        → length (inflate h input room wants).bytes ≤ room
    fits h input room true = elim (Bool-cases (leb (length input) room)) [
      | inl short ↦ rw short (ground arith)
      | inr long ↦ rw long (omega arith)
    ]
    fits h input room false = elim (Bool-cases (length input == room)) [
      | inl same ↦ rw same (ground arith)
      | inr differs ↦ rw differs (omega arith)
    ]

    exact :
        (h : ℕ) (input : List ℕ) (room : ℕ)
        → (inflate h input room false).answer ≡ DeflateReturn.success
        → length (inflate h input room false).bytes ≡ room
    exact h input room e = elim (Bool-cases (length input == room)) [
      | inl same ↦ rw same (ground arith)
      | inr differs ↦ let e' = rw differs at e in ground arith
    ]

    stores :
        (h : ℕ) (input : List ℕ) (room : ℕ)
        → (inflate h input room true).answer ≡ DeflateReturn.success
        → (inflate h input room true).stored ≡ some (length (inflate h input room true).bytes)
    stores h input room e = elim (Bool-cases (leb (length input) room)) [
      | inl short ↦ rw short refl
      | inr long ↦ let e' = rw long at e in ground arith
    ]

abbrev pub pasting : Decompressors Unit ℕ Unit Unit Unit Unit
pasting = record {
  alloc_decompressor_ex = λ w. some 1;
  gzip_decompress = inflate;
  zlib_decompress = inflate;
  deflate_decompress = inflate;
  min_header_size = 1;
  header_size = λ src. some 1;
  create_context = λ w. some w;
  get_frame_info = λ l src. (some (0, 0), l);
  lz4f_decompress = lz4_code;
  reset_context = λ l. l;
  stream_decoder = λ w. (LzmaReturn.ok, w);
  lzma_code = copy_code LzmaReturn.ok LzmaReturn.stream_end LzmaReturn.buf_error;
  create_dctx = λ w. some w;
  decompress_stream = zstd_code;
  reset_session = λ d. d;
  frame_content_size = λ src. none;
  bz_decompress_init = λ w. (BzReturn.ok, w);
  bz_decompress = copy_to_zero;
}

pub pasting-DecodesWithin : DecodesWithin pasting
pasting-DecodesWithin = record {
  gzip_inflates = inflate-Inflates;
  zlib_inflates = inflate-Inflates;
  deflate_inflates = inflate-Inflates;
  lz4_fits = copy_last-Fits (some 1) (some 0) (some 1) none;
  lzma_fits = copy_code-Fits LzmaReturn.ok LzmaReturn.stream_end LzmaReturn.buf_error;
  zstd_fits =
      copy_last-Fits ZstdReturn.more ZstdReturn.finished ZstdReturn.dest_full ZstdReturn.failed;
  bz_fits = copy_to_zero-Fits;
}

lz4_code-Lz4Moves : Lz4Moves lz4_code
lz4_code-Lz4Moves = record {
  consumes = copy_last_consumes (some 1) (some 0) (some 1) none;
  moves = moves;
}
  where
    moves :
        (s : Unit) (input : List ℕ) (room hint : ℕ)
        → (lz4_code s input room).ret ≡ some (suc hint)
        → 1 ≤ length input
        → 1 ≤ room
        → 1 ≤ (lz4_code s input room).consumed + length (lz4_code s input room).produced
    moves s [] room hint e has_input has_room = absurd (omega arith)
    moves s (x ∷ input) zero hint e has_input has_room = absurd (omega arith)
    moves s (x ∷ []) (suc room) hint e has_input has_room = omega arith
    moves s (x ∷ y ∷ input) (suc room) hint e has_input has_room = omega arith

pub pasting-DecodesOn : DecodesOn pasting 0
pasting-DecodesOn = record {
  lz4_moves = lz4_code-Lz4Moves;
  lzma_moves =
      copy_code-Moves LzmaReturn.ok LzmaReturn.stream_end LzmaReturn.buf_error (λ e. ground arith)
        (λ e. ground arith);
  zstd_moves = zstd_code-Moves;
}
