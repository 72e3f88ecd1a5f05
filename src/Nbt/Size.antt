-- ===== src/Nbt/Size.antt =====
-- `clod_nbt_payload_size`, `clod_nbt_tag_size`, `clod_nbt_tag_payload` and `clod_nbt_tag_name` of
-- src/nbt/nbt.c. A size is `none` if the model's fuel runs out.
use libclod.Prelude.{
  ℕ, zero, suc, ◌+◌, ◌*◌, Option, none, some, ltb, leb, ◌==◌, ◌&&◌, not, if◌then◌else◌, u64,
}
use libclod.BigEndian.{beu_dec}
use libclod.Nbt.Types.{
  Memory, type_zero_size, type_valid, available, int8_array, string, list, compound, int32_array,
  int64_array, size_of_i32,
}

-- The array cases: a count of 4 bytes, then elements of `width` bytes.
unfoldable pub array_size : Memory → ℕ → ℕ → ℕ → ℕ
array_size m payload end width =
    let size = u64 (size_of_i32 (beu_dec 4 m payload) * width) in
    if ltb (available payload end) 4
    then 0
    else if ltb (available payload end) (u64 (4 + size))
    then 0
    else u64 (4 + size)

-- The string case.
unfoldable pub string_size : Memory → ℕ → ℕ → ℕ
string_size m payload end =
    let size = beu_dec 2 m payload in
    if ltb (available payload end) 2
    then 0
    else if ltb (available payload end) (2 + size)
    then 0
    else 2 + size

-- The loop of the list case, for `count` more elements; `inner` is the recursive call.
unfoldable pub list_loop : (ℕ → Option ℕ) → ℕ → ℕ → ℕ → Option ℕ
list_loop inner payload zero size = some size
list_loop inner payload (suc count) size = elim (inner (payload + size)) [
  | none ↦ none
  | some elem_size ↦
      let rest = list_loop inner payload count (u64 (size + elem_size)) in
      if elem_size == 0 then some 0 else rest
]

-- The list case.
unfoldable pub list_size : (ℕ → ℕ → Option ℕ) → Memory → ℕ → ℕ → Option ℕ
list_size inner m payload end =
    if ltb (available payload end) 5
    then some 0
    else if m payload == 0
    then some 5
    else if not (type_valid (m payload))
    then some 0
    else list_loop (λ p. inner p (m payload)) payload (size_of_i32 (beu_dec 4 m (payload + 1))) 5

-- The end of the compound case, after the inner loop.
unfoldable pub compound_end : Memory → ℕ → ℕ → ℕ → ℕ
compound_end m payload end size =
    if ltb (available payload end) (u64 (size + 1))
    then 0
    else if m (payload + size) == 0
    then u64 (size + 1)
    else 0

-- The loops of the compound case.
unfoldable pub compound_loop : (ℕ → ℕ → Option ℕ) → Memory → ℕ → ℕ → ℕ → ℕ → Option ℕ
compound_loop inner m payload end zero size = none
compound_loop inner m payload end (suc fuel) size =
    let name_size = beu_dec 2 m (payload + size + 1) in
    let named = u64 (size + 3 + name_size) in
    if leb (u64 (size + 3)) (available payload end) && type_valid (m (payload + size))
    then if ltb (available payload end) named
      then some 0
      else elim (inner (payload + size + 3 + name_size) (m (payload + size))) [
        | none ↦ none
        | some s ↦ compound_loop inner m payload end fuel (u64 (size + (3 + name_size + s)))
      ]
    else some (compound_end m payload end size)

-- The switch; `inner` is the recursive call.
unfoldable pub payload_switch : (ℕ → ℕ → Option ℕ) → Memory → ℕ → ℕ → ℕ → Option ℕ
payload_switch inner m payload end type =
    if type == int8_array
    then some (array_size m payload end 1)
    else if type == int32_array
    then some (array_size m payload end 4)
    else if type == int64_array
    then some (array_size m payload end 8)
    else if type == string
    then some (string_size m payload end)
    else if type == list
    then list_size inner m payload end
    else if type == compound
    then compound_loop inner m payload end (suc (available payload end)) 0
    else some (type_zero_size type)

-- The recursion, to a depth of `fuel`.
unfoldable pub payload_depth : ℕ → Memory → ℕ → ℕ → ℕ → Option ℕ
payload_depth zero m payload end type = none
payload_depth (suc fuel) m payload end type =
    payload_switch (λ p t. payload_depth fuel m p end t) m payload end type

-- `clod_nbt_payload_size(payload, end, payload_type)`: unless a size wraps, nested payloads start
-- further on each, so that no nesting is deeper than the bytes that are left.
unfoldable pub payload_size : Memory → ℕ → ℕ → ℕ → Option ℕ
payload_size m payload end type = payload_depth (suc (available payload end)) m payload end type

-- `clod_nbt_tag_payload(tag, end)`
unfoldable pub tag_payload : Memory → ℕ → ℕ → Option ℕ
tag_payload m tag end =
    let name_size = beu_dec 2 m (tag + 1) in
    if ltb (available tag end) 3
    then none
    else if not (type_valid (m tag))
    then none
    else if ltb (available tag end) (3 + name_size)
    then none
    else some (tag + 3 + name_size)

-- `clod_nbt_tag_size(tag, end)`
unfoldable pub tag_size : Memory → ℕ → ℕ → Option ℕ
tag_size m tag end =
    let name_size = beu_dec 2 m (tag + 1) in
    if ltb (available tag end) 3
    then some 0
    else if not (type_valid (m tag))
    then some 0
    else if ltb (available tag end) (3 + name_size)
    then some 0
    else elim (payload_size m (tag + 3 + name_size) end (m tag)) [
      | none ↦ none
      | some s ↦ some (u64 (3 + name_size + s))
    ]
