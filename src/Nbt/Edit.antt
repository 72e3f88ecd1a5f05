-- ===== src/Nbt/Edit.antt =====
-- The operations of src/nbt/nbt.c that edit memory. `end` and `free`, which C passes by address,
-- are state; `ptrdiff_t` does not overflow. A result is `none` if the model's fuel runs out.
use libclod.Prelude.{
  ℕ, zero, suc, ◌+◌, ◌-◌, ◌*◌, ◌^◌, Bool, true, false, Option, none, some, ltb, leb, ◌==◌, ◌&&◌,
  not, if◌then◌else◌, u64, set, ℤ, ◌+ℤ◌, ◌-ℤ◌, is_negative,
}
use libclod.BigEndian.{beu_enc, beu_dec}
use libclod.Nbt.Types.{Memory, type_zero_size, type_valid, available, list, compound}
use libclod.Nbt.Size.{payload_size}
use libclod.Sstr.{Sstr, sstr_eq}
use libclod.Nbt.Iter.{tag_name, Iter, iter_zero, iter_next}

-- `memmove(dst, src, n)`; also `memcpy`
unfoldable pub memmove : Memory → ℕ → ℕ → ℕ → Memory
memmove m dst src n a = if leb dst a && ltb a (dst + n) then m (src + (a - dst)) else m a

-- `memset(dst, 0, n)`
unfoldable pub clear : Memory → ℕ → ℕ → Memory
clear m dst n a = if leb dst a && ltb a (dst + n) then 0 else m a

-- `size_t` subtraction.
abbrev pub size_sub : ℕ → ℕ → ℕ
size_sub a b = u64 (a + (2 ^ 64 - u64 b))

-- What an editing operation reads and writes behind pointers.
pub record Buffer : Type 0 where
  pub mem : Memory
  pub end : ℕ
  pub free : ℤ

-- The loop of both compound operations: the iterator at the first tag of the name, or where the
-- iteration ended.
unfoldable pub search_loop : ℕ → Memory → ℕ → ℕ → Sstr → Iter → Option (Bool × Iter)
search_loop zero m payload end name it = none
search_loop (suc fuel) m payload end name it = elim (iter_next m payload end compound it) [
  | none ↦ none
  | some (false, it') ↦ some (false, it')
  | some (true, it') ↦
      let rest = search_loop fuel m payload end name it' in
      elim it'.tag [
        | none ↦ rest
        | some tag ↦ if sstr_eq m (tag_name m tag end) name then some (true, it') else rest
      ]
]

unfoldable pub search : Memory → ℕ → ℕ → Sstr → Option (Bool × Iter)
search m payload end name = search_loop (suc (available payload end)) m payload end name iter_zero

-- `memcpy` of a name.
unfoldable pub copy_name : Memory → ℕ → Sstr → Memory
copy_name m dst name = elim name.ptr [ none ↦ m | some p ↦ memmove m dst p name.size ]

-- The writes of `clod_nbt_compound_add` at the place where the iteration ended.
unfoldable pub write_tag : Buffer → ℕ → Sstr → ℕ → ℕ → Buffer
write_tag b tag name type elem_size =
    let m1 = memmove b.mem (tag + elem_size) tag (size_sub (available tag b.end) elem_size) in
    let m2 = beu_enc 2 (set m1 tag type) (tag + 1) name.size in
    let m3 = copy_name m2 (tag + 3) name in
    record b { mem = clear m3 (tag + 3 + name.size) (type_zero_size type); end = b.end + elem_size }

-- `clod_nbt_compound_add(compound, end, free, name, type)`
unfoldable pub compound_add : Option ℕ → Buffer → Sstr → ℕ → Option (Option ℕ × Buffer)
compound_add payload b name type =
    let elem_size = u64 (3 + name.size + type_zero_size type) in
    let charged = record b { free = b.free -ℤ elem_size } in
    if not (type_valid type) then some (none, b) else elim payload [
      | none ↦ some (none, charged)
      | some p ↦ elim (search b.mem p b.end name) [
        | none ↦ none
        | some (true, it) ↦ some (it.tag, b)
        | some (false, it) ↦ elim it.tag [
          | none ↦ some (none, b)
          | some tag ↦
              if is_negative charged.free
              then some (none, charged)
              else some (some tag, write_tag charged tag name type elem_size)
        ]
      ]
    ]

-- The removal of the tag that was found.
unfoldable pub remove_tag : Buffer → ℕ → ℕ → Buffer
remove_tag b tag size = record {
  mem = memmove b.mem tag (tag + size) (size_sub (available tag b.end) size);
  end = b.end - size;
  free = b.free +ℤ size;
}

-- `clod_nbt_compound_del(compound, end, free, name)`
unfoldable pub compound_del : ℕ → Buffer → Sstr → Option (Bool × Buffer)
compound_del payload b name = elim (search b.mem payload b.end name) [
  | none ↦ none
  | some (false, it) ↦ some (false, b)
  | some (true, it) ↦ elim it.tag [
    | none ↦ some (false, b)
    | some tag ↦ some (true, remove_tag b tag it.size)
  ]
]

-- The branch of `clod_nbt_list_resize` that changes the type.
unfoldable pub list_retype : ℕ → Buffer → ℕ → ℕ → Option (Bool × Buffer)
list_retype p b type length = elim (payload_size b.mem p b.end list) [
  | none ↦ none
  | some old_size ↦
      let new_size = u64 (5 + length * type_zero_size type) in
      let free = b.free -ℤ new_size +ℤ old_size in
      let moved =
        memmove b.mem (p + new_size) (p + old_size) (size_sub (available p b.end) old_size) in
      if old_size == 0
      then some (false, b)
      else if is_negative free
      then some (false, record b { free = free })
      else some (
        true,
        record {
          mem = beu_enc 4 (set (clear moved p new_size) p type) (p + 1) length;
          end = b.end + new_size - old_size;
          free = free;
        },
      )
]

-- The branch that makes a list longer.
unfoldable pub list_extend : ℕ → Buffer → ℕ → ℕ → Option (Bool × Buffer)
list_extend p b length old_length = elim (payload_size b.mem p b.end list) [
  | none ↦ none
  | some old_size ↦
      let append_size = u64 (type_zero_size (b.mem p) * (length - old_length)) in
      let free = b.free -ℤ append_size in
      let rest = size_sub (size_sub (available p b.end) old_size) append_size in
      let moved = memmove b.mem (p + old_size + append_size) (p + old_size) rest in
      if is_negative free
      then some (false, record b { free = free })
      else some (
        true,
        record {
          mem = beu_enc 4 (clear moved (p + old_size) append_size) (p + 1) length;
          end = b.end + append_size;
          free = free;
        },
      )
]

-- The loop of the branch that makes a list shorter: the iterator where the iteration ended, and
-- `truncate`.
unfoldable pub truncate_loop : ℕ → Memory → ℕ → ℕ → ℕ → Iter → Option ℕ → Option (Iter × Option ℕ)
truncate_loop zero m p end length it truncate = none
truncate_loop (suc fuel) m p end length it truncate = elim (iter_next m p end list it) [
  | none ↦ none
  | some (false, it') ↦ some (it', truncate)
  | some (true, it') ↦
      truncate_loop fuel m p end length it' (if it'.index == length then it'.payload else truncate)
]

unfoldable pub cut : ℕ → Buffer → ℕ → Option ℕ → Option ℕ → Bool × Buffer
cut p b length none truncate = (false, b)
cut p b length (some tag) none = (false, b)
cut p b length (some tag) (some truncate) = (
  true,
  record {
    mem = beu_enc 4 (memmove b.mem truncate tag (available tag b.end)) (p + 1) length;
    end = b.end + truncate - tag;
    free = b.free +ℤ tag -ℤ truncate;
  },
)

-- The branch that makes a list shorter. The iteration takes `old_length` steps and one to end.
unfoldable pub list_truncate : ℕ → Buffer → ℕ → ℕ → Option (Bool × Buffer)
list_truncate p b length old_length =
    elim (truncate_loop (suc old_length) b.mem p b.end length iter_zero none) [
      | none ↦ none
      | some (it, truncate) ↦ some (cut p b length it.tag truncate)
    ]

-- `clod_nbt_list_resize(list, end, free, type, length)`
unfoldable pub list_resize : Option ℕ → Buffer → ℕ → ℕ → Option (Bool × Buffer)
list_resize none b type length =
    some (false, record b { free = b.free -ℤ u64 (length * type_zero_size type) })
list_resize (some p) b type length =
    let old_length = beu_dec 4 b.mem (p + 1) in
    if ltb (available p b.end) 5
    then some (false, b)
    else if not (b.mem p == type)
    then list_retype p b type length
    else if ltb old_length length
    then list_extend p b length old_length
    else if ltb length old_length
    then list_truncate p b length old_length
    else some (true, b)
