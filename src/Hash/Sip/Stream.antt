-- ===== src/Hash/Sip/Stream.antt =====
-- The streaming of src/hash/siphash.c against the reference.
use Prim.Native.Nat.{bit_or}
use libclod.Prelude.{
  ℕ, zero, suc, ◌+◌, ◌-◌, ◌*◌, ◌/◌, ◌%◌, ◌^◌, ◌≤◌, ◌<◌, ◌≡◌, refl, ap, sym, ◌∙◌, inl, inr,
  Bool-cases, List, [], ◌∷◌, ◌++◌, arith, length, take, drop, ltb, leb, u64, u64_small,
  drop_append_less, take_append_more, drop-drop, length-drop, length-take, length-append,
  take-append,
}
use libclod.Prelude.Bits.{or_low}
use libclod.Hash.Sip.{State, compress, sip_round, copy_into, absorb, first_word, set_remaining}
use libclod.Hash.Sip.Word.{
  IsBytes, IsBytes-append, IsBytes-take, IsBytes-drop, le_number, le_number-lt, le_number-append,
  read_uint64_lem,
}
use libclod.Hash.Sip.Fields.{size_byte, remaining_lem, size-set_remaining}
use libclod.Hash.Sip.Reference.{Core, core, take_word, words}

-- The state after a message: its whole words are mixed in, and the buffer starts with the rest.
pub record Absorbed (c : Core) (msg : List ℕ) (s : State) : Type 0 where
  pub mixed : core s ≡ words (length msg / 8) c msg
  pub sized : s.size ≡ size_byte (length msg) (length msg % 8)
  pub buffered : take (length msg % 8) s.buf ≡ drop (8 * (length msg / 8)) msg
  pub room : length s.buf ≡ 7
  pub bytes_buf : IsBytes s.buf
  pub bytes : IsBytes msg

pub core-compress : (s : State) (d : ℕ) → core (compress s d) ≡ take_word (core s) d
unfolding compress sip_round
core-compress s d = refl

-- The same, within the data of one call: a state between two words of a message.
pub record Between (c : Core) (msg : List ℕ) (m : ℕ) (s : State) : Type 0 where
  pub so_far : core s ≡ words m c msg
  pub sized : s.size ≡ size_byte (length msg) 0
  pub room : length s.buf ≡ 7
  pub bytes_buf : IsBytes s.buf
  pub within : 8 * m ≤ length msg

pub copy_into-room :
    (dst : List ℕ) (off : ℕ) (src : List ℕ)
    → off + length src ≤ length dst
    → length (copy_into dst off src) ≡ length dst
unfolding copy_into
copy_into-room dst off src fits =
    rw
      (
        length-append (take off dst) (src ++ drop (off + length src) dst),
        length-append src (drop (off + length src) dst),
        length-take off dst,
        length-drop (off + length src) dst,
      )
      (omega arith)

pub copy_into-IsBytes :
    (dst : List ℕ) (off : ℕ) (src : List ℕ)
    → IsBytes dst
    → IsBytes src
    → IsBytes (copy_into dst off src)
unfolding copy_into
copy_into-IsBytes dst off src hd hs =
    IsBytes-append (take off dst) _ (IsBytes-take off dst hd)
      (IsBytes-append src _ hs (IsBytes-drop (off + length src) dst hd))

-- A word that lies in the message.
pub compress-Between :
    (c : Core) (msg : List ℕ) (m : ℕ) (s : State)
    → Between c msg m s
    → 8 * suc m ≤ length msg
    → Between c msg (suc m) (compress s (le_number (take 8 (drop (8 * m) msg))))
unfolding words compress sip_round
compress-Between c msg m s b more = record {
  so_far =
      core-compress s _ ∙ ap (λ k. take_word k (le_number (take 8 (drop (8 * m) msg)))) b.so_far;
  sized = b.sized;
  room = b.room;
  bytes_buf = b.bytes_buf;
  within = more;
}

-- Less than a word is left, and the buffer starts with it.
pub settled :
    (c : Core) (msg : List ℕ) (m : ℕ) (s : State)
    → core s ≡ words m c msg
    → s.size ≡ size_byte (length msg) (length (drop (8 * m) msg))
    → take (length (drop (8 * m) msg)) s.buf ≡ drop (8 * m) msg
    → length s.buf ≡ 7
    → IsBytes s.buf
    → IsBytes msg
    → 8 * m ≤ length msg
    → length (drop (8 * m) msg) < 8
    → Absorbed c msg s
settled c msg m s mixed sized buffered room bytes_buf bytes within short =
    let size = length-drop (8 * m) msg in
    let quot : length msg / 8 ≡ m = omega (arith, size) in
    let rem : length msg % 8 ≡ length (drop (8 * m) msg) = omega (arith, size) in
    record {
      mixed = rw quot mixed;
      sized = rw rem sized;
      buffered = rw (quot, rem) buffered;
      room = room;
      bytes_buf = bytes_buf;
      bytes = bytes;
    }

copy_into-start : (dst src : List ℕ) → take (length src) (copy_into dst 0 src) ≡ src
unfolding copy_into
copy_into-start dst src = take-append src _

pub empty_list : (xs : List ℕ) → length xs ≡ 0 → xs ≡ []
empty_list [] h = refl
empty_list (x ∷ xs) h = absurd (omega arith)

-- The copy of what is left into the buffer.
buffer_rest :
    (c : Core) (msg : List ℕ) (m : ℕ) (s : State)
    → Between c msg m s
    → IsBytes msg
    → length (drop (8 * m) msg) < 8
    → Absorbed c msg (
        set_remaining
          (record s { buf = copy_into s.buf 0 (drop (8 * m) msg) })
          (length (drop (8 * m) msg)))
unfolding set_remaining
buffer_rest c msg m s b bytes short =
    let rest = drop (8 * m) msg in
    let t : State = record s { buf = copy_into s.buf 0 rest } in
    let whole : length (copy_into s.buf 0 rest) ≡ 7 =
      copy_into-room s.buf 0 rest (omega (arith, b.room)) ∙ b.room in
    settled c msg m _ b.so_far
      (size-set_remaining t (length msg) 0 b.sized (omega arith) (length rest) short)
      (copy_into-start s.buf rest) whole
      (copy_into-IsBytes s.buf 0 rest b.bytes_buf (IsBytes-drop (8 * m) msg bytes)) bytes b.within
      short

pub absorb-Absorbed :
    (fuel : ℕ) (c : Core) (msg : List ℕ) (m : ℕ) (s : State)
    → Between c msg m s
    → IsBytes msg
    → length (drop (8 * m) msg) < fuel
    → Absorbed c msg (absorb fuel s (drop (8 * m) msg))
unfolding absorb
absorb-Absorbed zero c msg m s b bytes enough = absurd (omega arith)
absorb-Absorbed (suc fuel) c msg m s b bytes enough =
    let rest = drop (8 * m) msg in
    let size = length-drop (8 * m) msg in
    elim (Bool-cases (leb 8 (length rest))) [
      | inl word ↦
          let eight : 8 ≤ length rest = ground arith in
          let read = read_uint64_lem rest 8 (IsBytes-drop (8 * m) msg bytes) eight (omega arith) in
          let next : drop 8 rest ≡ drop (8 * suc m) msg =
            drop-drop 8 (8 * m) msg ∙ ap (λ n. drop n msg) (omega arith) in
          let more = compress-Between c msg m s b (omega (arith, size)) in
          rw (word, read, next)
            (absorb-Absorbed fuel c msg (suc m) _ more bytes
              (omega (arith, size, length-drop (8 * suc m) msg)))
      | inr short ↦
          let less : length rest < 8 = ground arith in
          elim (Bool-cases (ltb 0 (length rest))) [
            | inl some ↦ rw (short, some) (buffer_rest c msg m s b bytes less)
            | inr empty ↦
                let none : length rest ≡ 0 = ground arith in
                let no_rest = empty_list rest none in
                let sized : s.size ≡ size_byte (length msg) (length rest) = rw none b.sized in
                let nothing : take (length rest) s.buf ≡ rest = rw none (sym no_rest) in
                rw (short, empty)
                  (settled c msg m s b.so_far sized nothing b.room b.bytes_buf bytes b.within less)
          ]
    ]

-- Low bytes and, shifted above them, as many as make eight.
fill_word :
    (low high : List ℕ)
    → IsBytes low
    → IsBytes high
    → length low + length high ≡ 8
    → bit_or (le_number low) (u64 (le_number high * 2 ^ (length low * 8))) ≡ le_number (low ++ high)
fill_word low high is_low is_high eight =
    let turn : length low * 8 ≡ 8 * length low = omega arith in
    let sum = le_number-append low high in
    let full = le_number-lt (low ++ high) (IsBytes-append low high is_low is_high) in
    let count : 8 * length (low ++ high) ≡ 64 = omega (arith, length-append low high) in
    let below : le_number (low ++ high) < 2 ^ 64 = rw count at full in
    let wraps_not : u64 (le_number high * 2 ^ (8 * length low))
        ≡ le_number high * 2 ^ (8 * length low) =
      u64_small _ (omega arith) in
    rw (turn, wraps_not)
      (or_low (8 * length low) (le_number low) (le_number high) (le_number-lt low is_low) ∙ sym sum)

-- The first word of a call: the buffered bytes and as many of the data as make eight.
pub first_word_lem :
    (s : State) (total r : ℕ) (bytes : List ℕ)
    → s.size ≡ size_byte total r
    → r < 8
    → length s.buf ≡ 7
    → IsBytes s.buf
    → IsBytes bytes
    → 8 ≤ r + length bytes
    → first_word s bytes ≡ le_number (take 8 (take r s.buf ++ bytes))
unfolding first_word
first_word_lem s total r bytes sized few room buf_bytes is enough =
    let rem = remaining_lem s total r sized few in
    let held : length (take r s.buf) ≡ r = omega (arith, length-take r s.buf) in
    elim (Bool-cases (ltb 0 r)) [
      | inl some ↦
          let have = read_uint64_lem s.buf r buf_bytes (omega arith) (omega arith) in
          let fresh = read_uint64_lem bytes (8 - r) is (omega arith) (omega arith) in
          let low = take r s.buf in
          let high = take (8 - r) bytes in
          let eight : length low + length high ≡ 8 = omega (arith, length-take (8 - r) bytes) in
          let whole : take 8 (low ++ bytes) ≡ low ++ high =
            let sum : 8 ≡ length low + (8 - r) = omega arith in
            ap (λ n. take n (low ++ bytes)) sum ∙ take_append_more low bytes (8 - r) in
          let word =
            fill_word low high (IsBytes-take r s.buf buf_bytes) (IsBytes-take (8 - r) bytes is)
              eight in
          let word' = rw held at word in rw (rem, some, have, fresh, whole) word'
      | inr none ↦
          let zero_r : r ≡ 0 = ground arith in
          let read = read_uint64_lem bytes 8 is (omega arith) (omega arith) in
          rw (rem, none, read) (rw zero_r refl)
    ]

-- The bytes from the last word boundary on.
pub from_boundary :
    (c : Core) (msg bytes : List ℕ) (s : State)
    → Absorbed c msg s
    → drop (8 * (length msg / 8)) (msg ++ bytes) ≡ take (length msg % 8) s.buf ++ bytes
from_boundary c msg bytes s at =
    drop_append_less (8 * (length msg / 8)) msg bytes (omega arith)
    ∙ ap (λ t. t ++ bytes) (sym at.buffered)
