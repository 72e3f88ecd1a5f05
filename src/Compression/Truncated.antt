-- ===== src/Compression/Truncated.antt =====
-- The loop for libbz2 of src/compression/decompress.c on data that is cut short.
use libclod.Prelude.{
  ℕ, ◌%◌, ◌^◌, ◌≤◌, ◌≡◌, refl, ◌⊎◌, Bool, true, false, List, [], none, ◌==◌, arith, drop_nil,
}
use libclod.Compression.Support.{Libraries}
use libclod.Compression.Types.{bzip2}
use libclod.Compression.Coder.{Coder, Stream, advance, call, code_loop}
use libclod.Compression.Library.{BzReturn}
use libclod.Compression.Loops.{code_loop_goes_on}
use libclod.Compression.Decoders.{Decompressors}
use libclod.Compression.Streamed.{is_full}
use libclod.Compression.Inflate.{Decompressor}
use libclod.Compression.Decode.{
  until_bz_not_ok, unbz_stream, unbz_run, unbz_started, decompress_bzip2,
}
use libclod.Compression.Decompress.{decompress}

-- libbz2 waits for more input: it answers `BZ_OK` to a call without input, puts out nothing, and
-- waits on. `BZ_OK` is what it documents for a call that has neither ended the data nor failed.
pub record Waits {B : Type 0} (code : Coder BzReturn B) (waiting : B → Type 0) : Type 0 where
  pub asks : (s : B) (room : ℕ) → waiting s → 1 ≤ room → (code s [] room).ret ≡ BzReturn.ok
  pub puts_nothing : (s : B) (room : ℕ) → waiting s → 1 ≤ room → (code s [] room).produced ≡ []
  pub waits_on : (s : B) (room : ℕ) → waiting s → 1 ≤ room → waiting (code s [] room).next

-- A stream without input, with room, that waits for more.
record Starved {B : Type 0} (waiting : B → Type 0) (s : Stream B) : Type 0 where
  no_input : s.input ≡ []
  room : 1 ≤ s.avail_out
  waits : waiting s.state

module _ {B : Type 0} (code : Coder BzReturn B) (waiting : B → Type 0)
    (lib : Waits code waiting) where
  waiting_round :
      (state : B) (room : ℕ) (out : List ℕ)
      → waiting state
      → 1 ≤ room
      → (let s : Stream B = record { state = state; input = []; avail_out = room; out = out } in
          (is_full s ≡ none)
          × (until_bz_not_ok (call code s).ret (advance s (call code s)) ≡ none)
          × Starved waiting (advance s (call code s)))
  waiting_round state room out waits some_room =
      let step = code state [] room in
      let not_full : (room == 0) ≡ false = ground arith in
      let asks = lib.asks state room waits some_room in
      let nothing = lib.puts_nothing state room waits some_room in
      (
        rw not_full refl,
        rw asks refl,
        record {
          no_input = drop_nil step.consumed;
          room = rw nothing (omega arith);
          waits = lib.waits_on state room waits some_room;
        },
      )

  waiting_loop :
      (fuel : ℕ) (s : Stream B)
      → Starved waiting s
      → code_loop fuel is_full code until_bz_not_ok s ≡ none
  waiting_loop fuel s at =
      code_loop_goes_on is_full code until_bz_not_ok (Starved waiting)
        (λ t at'. go t.state t.avail_out t.out t.input at'.no_input at'.waits at'.room) fuel s at
    where
      go :
          (state : B) (room : ℕ) (out input : List ℕ)
          → input ≡ []
          → waiting state
          → 1 ≤ room
          → (let s : Stream B = record {
            state = state;
            input = input;
            avail_out = room;
            out = out;
          } in
              (is_full s ≡ none)
              × (until_bz_not_ok (call code s).ret (advance s (call code s)) ≡ none)
              × Starved waiting (advance s (call code s)))
      go state room out input empty waits some_room =
          rw empty (waiting_round state room out waits some_room)

-- If libbz2 is there, starts, and then waits for input, `clod_decompress` never returns from empty
-- data of the method `CLOD_BZIP2`: no number of rounds of its loop is enough, with any room that
-- is not a positive multiple of 2 ^ 32.
pub decompress-goes_on :
    {W H L S D B : Type 0} (lib : Decompressors W H L S D B) (w : W) (ctx : Decompressor H L D)
    (dst_size : ℕ) (wants : Bool) (waiting : B → Type 0) (have : Libraries)
    → have.bz2 ≡ true
    → Waits lib.bz_decompress waiting
    → (lib.bz_decompress_init w).0 ≡ BzReturn.ok
    → waiting (lib.bz_decompress_init w).1
    → (dst_size ≡ 0) ⊎ (1 ≤ dst_size % 2 ^ 32)
    → (fuel : ℕ) → decompress lib w ctx dst_size [] wants have fuel bzip2 ≡ none
unfolding decompress decompress_bzip2 unbz_started unbz_run unbz_stream
decompress-goes_on lib w ctx dst_size wants waiting have there waits ready first room fuel =
    let state = (lib.bz_decompress_init w).1 in
    let start : Starved waiting (unbz_stream lib w ctx dst_size [] wants state) = record {
      no_input = refl;
      room = ground arith;
      waits = first;
    } in
    let loop = waiting_loop lib.bz_decompress waiting waits fuel _ start in
    rw (there, ready, loop) refl
