-- ===== src/Hash/Sip/Add.antt =====
-- One call of `clod_sip64_add` of src/hash/siphash.c: the branch that only stores the data, and the
-- one that takes words.
use mathlib.Core.List.{append-nil}
use libclod.Prelude.{
  ℕ, suc, ◌+◌, ◌-◌, ◌*◌, ◌/◌, ◌%◌, ◌^◌, ◌≤◌, ◌<◌, ◌≡◌, refl, ap, sym, ◌∙◌, inl, inr, Bool-cases,
  List, ◌++◌, arith, length, take, drop, ltb, ◌==◌, if◌then◌else◌, u64, u64_small, take_append_more,
  drop_append_more, drop-drop, length-drop, length-take, length-append, take-append, true, false,
}
use libclod.Hash.Sip.{
  State, compress, copy_into, absorb, first_word, first_offset, add, data_size, remaining,
  set_data_size, set_remaining,
}
use libclod.Hash.Sip.Word.{IsBytes, IsBytes-append, le_number}
use libclod.Hash.Sip.Fields.{size_byte, remaining_lem, size-set_data_size, size-set_remaining}
use libclod.Hash.Sip.Reference.{Core, core, words-append}
use libclod.Hash.Sip.Stream.{
  Absorbed, Between, copy_into-room, copy_into-IsBytes, compress-Between, settled, empty_list,
  absorb-Absorbed, first_word_lem, from_boundary,
}

-- The counted length, before any byte is stored.
counted : State → ℕ → State
unfolding set_data_size data_size
counted s k = set_data_size s (u64 (data_size s + k))

-- What fits into the buffer is only stored.
add_short :
    (c : Core) (msg bytes : List ℕ) (s t : State)
    → Absorbed c msg s
    → IsBytes bytes
    → t.size ≡ size_byte (length msg + length bytes) (length msg % 8)
    → core t ≡ core s
    → t.buf ≡ s.buf
    → length msg % 8 + length bytes < 8
    → Absorbed c (msg ++ bytes) (
        set_remaining
          (record t { buf = copy_into t.buf (length msg % 8) bytes })
          (length msg % 8 + length bytes))
unfolding set_remaining copy_into
add_short c msg bytes s t at is sized same_core same_buf short =
    let m = length msg / 8 in
    let r = length msg % 8 in
    let k = length bytes in
    let stored : State = record t { buf = copy_into t.buf r bytes } in
    let rest = from_boundary c msg bytes s at in
    let held : length (take r s.buf) ≡ r = omega (arith, at.room, length-take r s.buf) in
    let long = length-append msg bytes in
    let size : length (drop (8 * m) (msg ++ bytes)) ≡ r + k =
      omega (arith, length-drop (8 * m) (msg ++ bytes)) in
    let marked = size-set_remaining stored (length msg + k) r sized (omega arith) (r + k) short in
    let start : take (r + k) (copy_into s.buf r bytes) ≡ take r s.buf ++ bytes =
      ap (λ n. take (n + k) (copy_into s.buf r bytes)) (sym held)
      ∙ take_append_more (take r s.buf) _ k
      ∙ ap (λ b. take r s.buf ++ b) (take-append bytes _) in
    let whole = copy_into-room s.buf r bytes (omega (arith, at.room)) ∙ at.room in
    settled c (msg ++ bytes) m _
      (same_core ∙ at.mixed ∙ sym (words-append m c msg bytes (omega arith)))
      (rw (size, long) marked) (rw (size, same_buf) (start ∙ sym rest)) (rw same_buf whole)
      (rw same_buf (copy_into-IsBytes s.buf r bytes at.bytes_buf is))
      (IsBytes-append msg bytes at.bytes is) (omega arith) (omega arith)

-- What does not fit is taken in words.
add_long :
    (c : Core) (msg bytes : List ℕ) (s t : State)
    → Absorbed c msg s
    → IsBytes bytes
    → t.size ≡ size_byte (length msg + length bytes) (length msg % 8)
    → core t ≡ core s
    → t.buf ≡ s.buf
    → 8 ≤ length msg % 8 + length bytes
    → Absorbed c (msg ++ bytes) (
        absorb
          (suc (length bytes))
          (compress (set_remaining t 0) (first_word t bytes))
          (drop (first_offset t) bytes))
unfolding set_remaining first_offset
add_long c msg bytes s t at is sized same_core same_buf enough =
    let m = length msg / 8 in
    let r = length msg % 8 in
    let total = length msg + length bytes in
    let whole = msg ++ bytes in
    let long = length-append msg bytes in
    let few : r < 8 = omega arith in
    let rest : drop (8 * m) whole ≡ take r t.buf ++ bytes =
      rw same_buf (from_boundary c msg bytes s at) in
    let room : length t.buf ≡ 7 = rw same_buf at.room in
    let buf_bytes : IsBytes t.buf = rw same_buf at.bytes_buf in
    let held : length (take r t.buf) ≡ r = omega (arith, length-take r t.buf) in
    let start : Between c whole m (set_remaining t 0) = record {
      so_far = same_core ∙ at.mixed ∙ sym (words-append m c msg bytes (omega arith));
      sized = rw long (size-set_remaining t total r sized few 0 (omega arith));
      room = room;
      bytes_buf = buf_bytes;
      within = omega arith;
    } in
    let next = compress-Between c whole m (set_remaining t 0) start (omega arith) in
    let word : first_word t bytes ≡ le_number (take 8 (drop (8 * m) whole)) =
      rw rest (first_word_lem t total r bytes sized few room buf_bytes is enough) in
    let rem = remaining_lem t total r sized few in
    let first : (if ltb 0 r then 8 - r else 8) ≡ 8 - r = ground arith in
    let eight : 8 ≡ length (take r t.buf) + (8 - r) = omega arith in
    let on : drop (8 * suc m) whole ≡ drop (8 - r) bytes =
      let back : drop 8 (drop (8 * m) whole) ≡ drop (8 * suc m) whole =
        drop-drop 8 (8 * m) whole ∙ ap (λ n. drop n whole) (omega arith) in
      sym back
      ∙ ap (λ b. drop 8 b) rest
      ∙ ap (λ n. drop n (take r t.buf ++ bytes)) eight
      ∙ drop_append_more (take r t.buf) bytes (8 - r) in
    let done =
      absorb-Absorbed (suc (length bytes)) c whole (suc m) _ next
        (IsBytes-append msg bytes at.bytes is) (omega (arith, length-drop (8 * suc m) whole)) in
    rw (word, rem, first, sym on) done

module _ (s : State) (bytes : List ℕ) where
  add_nothing : (length bytes == 0) ≡ true → add s bytes ≡ s
  unfolding add
  add_nothing none = rw none refl

  add_stored :
      (length bytes == 0) ≡ false
      → (let t = counted s (length bytes) in ltb (u64 (remaining t + length bytes)) 8) ≡ true
      → add s bytes ≡ (
          let t = counted s (length bytes) in
          set_remaining
            (record t { buf = copy_into t.buf (remaining t) bytes })
            (remaining t + length bytes))
  unfolding add counted
  add_stored some short = rw (some, short) refl

  add_words :
      (length bytes == 0) ≡ false
      → (let t = counted s (length bytes) in ltb (u64 (remaining t + length bytes)) 8) ≡ false
      → add s bytes ≡ (
          let t = counted s (length bytes) in
          absorb
            (suc (length bytes))
            (compress (set_remaining t 0) (first_word t bytes))
            (drop (first_offset t) bytes))
  unfolding add counted
  add_words some long = rw (some, long) refl

-- `add` extends the message by its data.
pub add-Absorbed :
    (c : Core) (msg bytes : List ℕ) (s : State)
    → Absorbed c msg s
    → IsBytes bytes
    → length bytes < 2 ^ 63
    → Absorbed c (msg ++ bytes) (add s bytes)
unfolding counted set_data_size
add-Absorbed c msg bytes s at is fits =
    let t = counted s (length bytes) in
    let r = length msg % 8 in
    let few : r < 8 = omega arith in
    let sized = size-set_data_size s (length msg) r at.sized few (length bytes) fits in
    let rem : remaining t ≡ r = remaining_lem t (length msg + length bytes) r sized few in
    let small : u64 (r + length bytes) ≡ r + length bytes = u64_small _ (omega arith) in
    elim (Bool-cases (length bytes == 0)) [
      | inl none ↦
          let nothing = empty_list bytes (ground arith) in
          let same : msg ++ bytes ≡ msg = ap (λ b. msg ++ b) nothing ∙ append-nil msg in
          rw (add_nothing s bytes none, same) at
      | inr some ↦ elim (Bool-cases (ltb (r + length bytes) 8)) [
        | inl short ↦
            let test : ltb (u64 (remaining t + length bytes)) 8 ≡ true = rw (rem, small) short in
            rw (add_stored s bytes some test, rem)
              (add_short c msg bytes s t at is sized refl refl (ground arith))
        | inr long ↦
            let test : ltb (u64 (remaining t + length bytes)) 8 ≡ false = rw (rem, small) long in
            rw (add_words s bytes some test)
              (add_long c msg bytes s t at is sized refl refl (ground arith))
      ]
    ]
