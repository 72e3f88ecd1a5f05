-- ===== src/Nbt/Iter.antt =====
-- `clod_nbt_tag_name`, `clod_nbt_iter_next` and `clod_nbt_compound_get` of src/nbt/nbt.c. A result is `none` if the model's fuel runs out.
use libclod.Prelude.{
  ℕ, zero, suc, ◌+◌, ◌-◌, ◌%◌, ◌^◌, Bool, true, false, Option, none, some, ltb, leb, ◌==◌, not,
  if◌then◌else◌, u64,
}
use libclod.BigEndian.{beu_dec}
use libclod.Sstr.{Sstr, sstr_null, sstr_eq}
use libclod.Nbt.Types.{
  Memory, type_valid, available, int8_array, string, list, compound, int32_array, int64_array,
}
use libclod.Nbt.Size.{payload_size, tag_payload}

-- `clod_nbt_tag_name(tag, end)`
unfoldable pub tag_name : Memory → ℕ → ℕ → Sstr
tag_name m tag end =
    let name_size = beu_dec 2 m (tag + 1) in
    if ltb (available tag end) 3
    then sstr_null
    else if not (type_valid (m tag))
    then sstr_null
    else if ltb (available tag end) (3 + name_size)
    then sstr_null
    else record { ptr = some (tag + 3); size = name_size }

-- `struct clod_nbt_iter`
pub record Iter : Type 0 where
  pub tag : Option ℕ
  pub payload : Option ℕ
  pub size : ℕ
  pub type : ℕ
  pub index : ℕ

-- `CLOD_NBT_ITER_ZERO`, and what `iter_fail` leaves.
abbrev pub iter_zero : Iter
iter_zero = record { tag = none; payload = none; size = 0; type = 0; index = 0 }

-- The step at the tag where the iterator stands, after it has been started or advanced.
unfoldable pub compound_at : Memory → ℕ → ℕ → ℕ → Option (Bool × Iter)
compound_at m end tag index =
    if ltb (available tag end) 1
    then some (false, iter_zero)
    else if m tag == 0
    then some
        (false, record { tag = some (suc tag); payload = none; size = 0; type = 0; index = index })
    else elim (tag_payload m tag end) [
      | none ↦ some (false, iter_zero)
      | some found ↦ elim (payload_size m found end (m tag)) [
        | none ↦ none
        | some s ↦
            if s == 0
            then some (false, iter_zero)
            else some (
              true,
              record {
                tag = some tag;
                payload = some found;
                size = u64 (found - tag + s);
                type = m tag;
                index = index;
              },
            )
      ]
    ]

-- `clod_nbt_iter_next(payload, end, CLOD_NBT_COMPOUND, iter)`. A started iterator has a tag.
unfoldable pub compound_next : Memory → ℕ → ℕ → Iter → Option (Bool × Iter)
compound_next m payload end it = elim it.payload [
  | none ↦ compound_at m end payload 0
  | some at ↦ elim it.tag [
    | none ↦ compound_at m end it.size ((it.index + 1) % 2 ^ 32)
    | some tag ↦ compound_at m end (tag + it.size) ((it.index + 1) % 2 ^ 32)
  ]
]

-- The end of the other cases: past the last element the iterator keeps only where it got to.
unfoldable pub ended : Iter → Bool × Iter
ended it =
    (false, record { tag = it.payload; payload = none; size = 0; type = 0; index = it.index })

-- The cases of strings and arrays: `count` elements of `width` bytes, after `prefix` bytes.
unfoldable pub elements_next : ℕ → ℕ → ℕ → ℕ → ℕ → ℕ → Iter → Bool × Iter
unfolding ended
elements_next payload end prefix count width type it = elim it.payload [
  | none ↦
      let started : Iter = record {
        tag = none;
        payload = some payload;
        size = width;
        type = type;
        index = 0;
      } in
      if ltb (available payload end) prefix
      then (false, iter_zero)
      else if leb count 0
      then ended started
      else (true, started)
  | some at ↦
      let moved : Iter = record it {
        payload = some (at + width);
        index = (it.index + 1) % 2 ^ 32;
      } in
      if leb count moved.index then ended moved else (true, moved)
]

-- The list case from its test of the index on, with the payload where the iterator stands.
unfoldable pub list_at : Memory → ℕ → ℕ → ℕ → Iter → Option (Bool × Iter)
unfolding ended
list_at m payload end at it =
    if leb (beu_dec 4 m (payload + 1)) it.index
    then some (ended it)
    else elim (payload_size m at end (m payload)) [
      | none ↦ none
      | some s ↦ if s == 0 then some (false, iter_zero) else some (true, record it { size = s })
    ]

-- The list case.
unfoldable pub list_next : Memory → ℕ → ℕ → Iter → Option (Bool × Iter)
list_next m payload end it = elim it.payload [
  | none ↦
      let started : Iter = record {
        tag = none;
        payload = some payload;
        size = 0;
        type = m payload;
        index = 0;
      } in
      if ltb (available payload end) 5
      then some (false, iter_zero)
      else list_at m payload end payload started
  | some at ↦
      list_at m payload end (at + it.size)
        (record it { payload = some (at + it.size); index = (it.index + 1) % 2 ^ 32 })
]

-- `clod_nbt_iter_next(payload, end, payload_type, iter)`
unfoldable pub iter_next : Memory → ℕ → ℕ → ℕ → Iter → Option (Bool × Iter)
iter_next m payload end type it =
    if type == compound
    then compound_next m payload end it
    else if type == list
    then list_next m payload end it
    else if type == string
    then some (elements_next payload end 2 (beu_dec 2 m payload) 1 1 it)
    else if type == int8_array
    then some (elements_next payload end 4 (beu_dec 4 m payload) 1 1 it)
    else if type == int32_array
    then some (elements_next payload end 4 (beu_dec 4 m payload) 4 3 it)
    else if type == int64_array
    then some (elements_next payload end 4 (beu_dec 4 m payload) 8 4 it)
    else some (false, it)

-- The loop of `clod_nbt_compound_get`.
unfoldable pub get_loop : ℕ → Memory → ℕ → ℕ → Sstr → Iter → Option (Option ℕ)
get_loop zero m payload end name it = none
get_loop (suc fuel) m payload end name it = elim (iter_next m payload end compound it) [
  | none ↦ none
  | some (false, it') ↦ some none
  | some (true, it') ↦
      let rest = get_loop fuel m payload end name it' in
      elim it'.tag [
        | none ↦ rest
        | some tag ↦ if sstr_eq m (tag_name m tag end) name then some (some tag) else rest
      ]
]

-- `clod_nbt_compound_get(compound, end, name)`
unfoldable pub compound_get : Memory → ℕ → ℕ → Sstr → Option (Option ℕ)
compound_get m payload end name =
    get_loop (suc (available payload end)) m payload end name iter_zero
