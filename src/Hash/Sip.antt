-- ===== src/Hash/Sip.antt =====
-- SipHash 2-4 with streaming: src/hash/siphash.c and the `clod_sip64` part of include/clod/hash.h.
-- A word is a number below 2 ^ 64, a byte one below 2 ^ 8, and the `size` bytes behind a `data`
-- pointer are a list of that length.
mod Word
mod Fields
mod Reference
mod Paper
mod Stream
mod Add
mod Whole
mod Tests
use Prim.Native.Nat.{bit_and, bit_or, bit_xor}
use libclod.Prelude.{
  ℕ, zero, suc, ◌+◌, ◌-◌, ◌*◌, ◌/◌, ◌%◌, ◌^◌, List, ◌++◌, ltb, leb, ◌==◌, if◌then◌else◌, u64,
  length, get_or, take, drop, replicate,
}

-- `clod_sip64_state`; the fields `_v0` … `_v3`, `_size` and `_buf`.
pub record State : Type 0 where
  pub v0 : ℕ
  pub v1 : ℕ
  pub v2 : ℕ
  pub v3 : ℕ
  pub size : ℕ
  pub buf : List ℕ

unfoldable pub data_size : State → ℕ
data_size s = s.size / 2 ^ 3

unfoldable pub remaining : State → ℕ
remaining s = bit_and s.size 0b00000111

unfoldable pub set_data_size : State → ℕ → State
set_data_size s n = record s { size = bit_or (bit_and s.size 0b00000111) (n % 256 * 2 ^ 3) % 256 }

unfoldable pub set_remaining : State → ℕ → State
set_remaining s n = record s {
  size = bit_or (bit_and s.size 0b11111000) (bit_and (n % 256) 0b00000111) % 256;
}

-- `clod_sip64_init(seed)`
unfoldable pub init : ℕ → State
init seed = record {
  v0 = bit_xor 0x736f6d6570736575 seed;
  v1 = bit_xor 0x646f72616e646f6d seed;
  v2 = bit_xor 0x6c7967656e657261 seed;
  v3 = bit_xor 0x7465646279746573 seed;
  size = 0;
  buf = replicate 7 0;
}

-- `x << k | x >> (64 - k)`
unfoldable pub rotate_left : ℕ → ℕ → ℕ
rotate_left x k = bit_or (u64 (x * 2 ^ k)) (x / 2 ^ (64 - k))

unfoldable pub sip_round : State → State
unfolding rotate_left
sip_round s =
    let a0 = u64 (s.v0 + s.v1) in
    let a1 = bit_xor (rotate_left s.v1 13) a0 in
    let b0 = rotate_left a0 32 in
    let a2 = u64 (s.v2 + s.v3) in
    let a3 = bit_xor (rotate_left s.v3 16) a2 in
    let c0 = u64 (b0 + a3) in
    let b3 = bit_xor (rotate_left a3 21) c0 in
    let b2 = u64 (a2 + a1) in
    let b1 = bit_xor (rotate_left a1 17) b2 in
    let c2 = rotate_left b2 32 in record s { v0 = c0; v1 = b1; v2 = c2; v3 = b3 }

-- The `switch` of `read_uint64` from case `k` down, every case falling through to the next.
unfoldable pub read_down : List ℕ → ℕ → ℕ → ℕ
read_down bytes zero r = r
read_down bytes (suc k) r = read_down bytes k (bit_or r (get_or bytes k 0 * 2 ^ (k * 8)))

unfoldable pub read_uint64 : List ℕ → ℕ → ℕ
unfolding read_down
read_uint64 bytes n = read_down bytes (if ltb 7 n then 8 else n) 0

-- `state._v3 ^= d`, two rounds, `state._v0 ^= d`
unfoldable pub compress : State → ℕ → State
unfolding sip_round
compress s d =
    let r = sip_round (sip_round (record s { v3 = bit_xor s.v3 d })) in
    record r { v0 = bit_xor r.v0 d }

-- `memcpy(dst + off, src, n)` into an array of bytes
unfoldable pub copy_into : List ℕ → ℕ → List ℕ → List ℕ
copy_into dst off src = take off dst ++ (src ++ drop (off + length src) dst)

-- The loop `while (off + 8 <= size)` over the input that is left at `off`, and the copy of what
-- is left behind it into the buffer.
unfoldable pub absorb : ℕ → State → List ℕ → State
unfolding compress read_uint64 copy_into set_remaining
absorb zero s rest = s
absorb (suc fuel) s rest =
    let more = absorb fuel (compress s (read_uint64 rest 8)) (drop 8 rest) in
    if leb 8 (length rest)
    then more
    else if ltb 0 (length rest)
    then set_remaining (record s { buf = copy_into s.buf 0 rest }) (length rest)
    else s

-- The first word: the buffered bytes, filled up from the input, or eight bytes of the input.
unfoldable pub first_word : State → List ℕ → ℕ
unfolding remaining read_uint64
first_word s bytes =
    let r = remaining s in
    if ltb 0 r
    then bit_or (read_uint64 s.buf r) (u64 (read_uint64 bytes (8 - r) * 2 ^ (r * 8)))
    else read_uint64 bytes 8

-- `off` after the first word
unfoldable pub first_offset : State → ℕ
unfolding remaining
first_offset s = if ltb 0 (remaining s) then 8 - remaining s else 8

-- `clod_sip64_add`. Each round of the loop takes eight bytes, so a fuel of one more than the
-- length of the input is enough.
unfoldable pub add : State → List ℕ → State
unfolding data_size remaining set_data_size set_remaining copy_into compress first_word first_offset
    absorb
add state bytes =
    let size = length bytes in
    let s = set_data_size state (u64 (data_size state + size)) in
    if size == 0
    then state
    else if ltb (u64 (remaining s + size)) 8
    then set_remaining (record s { buf = copy_into s.buf (remaining s) bytes }) (remaining s + size)
    else absorb (suc size) (compress (set_remaining s 0) (first_word s bytes))
        (drop (first_offset s) bytes)

-- `clod_sip64_finalise`
unfoldable pub finalise : State → ℕ
unfolding read_uint64 remaining data_size compress sip_round
finalise s =
    let d = bit_or (read_uint64 s.buf (remaining s)) (u64 (data_size s * 2 ^ 56)) in
    let t = compress s d in
    let r = sip_round (sip_round (sip_round (sip_round (record t { v2 = bit_xor t.v2 0xee })))) in
    bit_xor (bit_xor (bit_xor r.v0 r.v1) r.v2) r.v3

-- The one-shot `clod_sip64(seed, data, size)`.
unfoldable pub sip64 : ℕ → List ℕ → ℕ
unfolding init add finalise
sip64 seed bytes = finalise (add (init seed) bytes)
