-- ===== src/Nbt/Tests.antt =====
-- The theorems on src/nbt/nbt.c at a compound of two tags, `a` and `b`, and a name behind it.
use libclod.Prelude.{
  ℕ, Bool, true, Option, none, List, pos, [], ◌∷◌, ◌≡◌, ◌≤◌, refl, some, get_or, arith,
}
use libclod.BigEndian.{beu_dec}
use libclod.Nbt.Types.{Memory, compound}
use libclod.Nbt.Size.{
  payload_depth, payload_switch, list_size, list_loop, payload_size, tag_size, tag_payload,
}
use libclod.Nbt.Format.{
  Tags, Items, number, items, none_left, item, tags, stop, tag, Encodes, EncodesTags,
}
use libclod.Nbt.Sizes.{payload_size_lem}
use libclod.Sstr.{sstr_eq, pointers_equal, memory_equal}
use libclod.Nbt.Iter.{
  compound_get, iter_zero, iter_next, compound_next, compound_at, list_next, list_at, tag_name,
}
use libclod.Nbt.Edit.{Buffer, compound_del, search, search_loop, remove_tag, memmove}
use libclod.Nbt.Find.{compound_get-find, tag_size_lem}

abbrev memory : Memory
memory a =
    get_or (1 ∷ 0 ∷ 1 ∷ 97 ∷ 5 ∷ 9 ∷ 0 ∷ 1 ∷ 98 ∷ 2 ∷ 0 ∷ 0 ∷ 0 ∷ 2 ∷ 0 ∷ 1 ∷ 0 ∷ 2 ∷ 0 ∷ 98 ∷ []) a
      0

abbrev two_shorts : Items
two_shorts = item (number 2) (item (number 2) none_left)

abbrev tag_b : Tags
tag_b = tag (98 ∷ []) (items 2 two_shorts) stop

abbrev two_tags : Tags
two_tags = tag (97 ∷ []) (number 1) tag_b

memory-EncodesTags : EncodesTags memory 0 two_tags
unfolding Encodes beu_dec
memory-EncodesTags =
    let number_ok : (1 ≤ 2) × (2 ≤ 6) = (omega arith, omega arith) in
    let list_ok : Encodes memory 9 (items 2 two_shorts) =
      (omega arith, refl, refl, (refl, number_ok, (refl, number_ok, omega arith))) in
    (
      refl,
      omega arith,
      refl,
      (refl, refl),
      (omega arith, omega arith),
      (refl, omega arith, refl, (refl, refl), list_ok, refl),
    )

memory-Encodes : Encodes memory 0 (tags two_tags)
unfolding Encodes
memory-Encodes = memory-EncodesTags

payload_size_lem_example : payload_size memory 0 19 compound ≡ some 19
payload_size_lem_example =
    payload_size_lem memory 0 19 (tags two_tags) memory-Encodes (omega arith) (omega arith)

compound_get-find_example :
    compound_get memory 0 19 (record { ptr = some 19; size = 1 }) ≡ some (some 5)
compound_get-find_example =
    compound_get-find memory 19 0 19 (98 ∷ []) two_tags memory-EncodesTags (omega arith)
      (omega arith) (refl, refl)

tag_size_lem_example : (tag_size memory 0 19 ≡ some 5) × (tag_payload memory 0 19 ≡ some 4)
tag_size_lem_example =
    tag_size_lem memory 19 0 (97 ∷ []) (number 1) tag_b memory-EncodesTags (omega arith)
      (omega arith)

abbrev buffer : Buffer
buffer = record { mem = memory; end = 19; free = pos 0 }

abbrev starts : Option (Bool × Buffer) → List ℕ
starts none = []
starts (some (done, b)) = b.end ∷ b.mem 0 ∷ b.mem 3 ∷ b.mem 4 ∷ b.mem 5 ∷ []

-- Without its second tag the compound ends behind the first one.
compound_del-b :
    starts (compound_del 0 buffer (record { ptr = some 19; size = 1 })) ≡ 6 ∷ 1 ∷ 97 ∷ 5 ∷ 0 ∷ []
unfolding compound_del search search_loop iter_next compound_next compound_at tag_payload tag_name
    payload_size payload_depth payload_switch list_size list_loop sstr_eq pointers_equal
    memory_equal beu_dec remove_tag memmove
compound_del-b = refl

-- The first step over the list of tag `b` stands at its header and not at its first element.
list_first :
    iter_next memory 9 19 9 iter_zero
    ≡ some (true, record { tag = none; payload = some 9; size = 2; type = 2; index = 0 })
unfolding iter_next list_next list_at payload_size payload_depth payload_switch beu_dec
list_first = refl
