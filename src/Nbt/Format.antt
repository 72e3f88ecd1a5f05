-- ===== src/Nbt/Format.antt =====
-- The NBT format as a relation between memory and trees, which says nothing of how src/nbt/nbt.c
-- walks the bytes. A tree keeps what the size of its encoding and the names of its tags need.
use libclod.Prelude.{ℕ, suc, ◌+◌, ◌*◌, ◌^◌, ◌≤◌, ◌<◌, ◌≡◌, List, [], ◌∷◌, length, get_or}
use libclod.BigEndian.{beu_dec}
use libclod.Nbt.Types.{Memory, int8_array, string, list, compound, int32_array, int64_array}

mutual
  pub data Payload : Type 0 where
    -- One of the six types of fixed size, by its code.
    number : ℕ → Payload
    int8s : ℕ → Payload
    int32s : ℕ → Payload
    int64s : ℕ → Payload
    text : ℕ → Payload
    -- The type of the elements, and the elements.
    items : ℕ → Items → Payload
    tags : Tags → Payload

  pub data Items : Type 0 where
    none_left : Items
    item : Payload → Items → Items

  pub data Tags : Type 0 where
    stop : Tags
    tag : List ℕ → Payload → Tags → Tags

abbrev pub type_of : Payload → ℕ
type_of (number t) = t
type_of (int8s n) = int8_array
type_of (int32s n) = int32_array
type_of (int64s n) = int64_array
type_of (text n) = string
type_of (items t xs) = list
type_of (tags ts) = compound

-- The bytes of a number, by its code: 1, 2, 4 and 8 of the whole numbers, 4 and 8 of the others.
abbrev pub number_size : ℕ → ℕ
number_size t = get_or (0 ∷ 1 ∷ 2 ∷ 4 ∷ 8 ∷ 4 ∷ 8 ∷ []) t 0

abbrev mutual
  pub size : Payload → ℕ
  size (number t) = number_size t
  size (int8s n) = 4 + n
  size (int32s n) = 4 + 4 * n
  size (int64s n) = 4 + 8 * n
  size (text n) = 2 + n
  size (items t xs) = 5 + size_items xs
  size (tags ts) = size_tags ts

  pub size_items : Items → ℕ
  size_items none_left = 0
  size_items (item x xs) = size x + size_items xs

  pub size_tags : Tags → ℕ
  size_tags stop = 1
  size_tags (tag name x ts) = 3 + length name + size x + size_tags ts

abbrev pub count_items : Items → ℕ
count_items none_left = 0
count_items (item x xs) = suc (count_items xs)

-- Memory holds the bytes of a name.
abbrev pub Holds : Memory → ℕ → List ℕ → Type 0
Holds m p [] = p ≡ p
Holds m p (b ∷ bs) = (m p ≡ b) × Holds m (suc p) bs

unfoldable mutual
  -- Memory holds an encoding of the tree at `p`.
  pub Encodes : Memory → ℕ → Payload → Type 0
  Encodes m p (number t) = (1 ≤ t) × (t ≤ 6)
  Encodes m p (int8s n) = (n < 2 ^ 31) × (beu_dec 4 m p ≡ n)
  Encodes m p (int32s n) = (n < 2 ^ 31) × (beu_dec 4 m p ≡ n)
  Encodes m p (int64s n) = (n < 2 ^ 31) × (beu_dec 4 m p ≡ n)
  Encodes m p (text n) = (n < 2 ^ 16) × (beu_dec 2 m p ≡ n)
  Encodes m p (items t xs) =
      (count_items xs < 2 ^ 31)
      × (m p ≡ t)
      × (beu_dec 4 m (p + 1) ≡ count_items xs)
      × EncodesItems m (p + 5) t xs
  Encodes m p (tags ts) = EncodesTags m p ts

  pub EncodesItems : Memory → ℕ → ℕ → Items → Type 0
  EncodesItems m p t none_left = t ≤ 12
  EncodesItems m p t (item x xs) =
      (type_of x ≡ t) × Encodes m p x × EncodesItems m (p + size x) t xs

  pub EncodesTags : Memory → ℕ → Tags → Type 0
  EncodesTags m p stop = m p ≡ 0
  EncodesTags m p (tag name x ts) =
      (m p ≡ type_of x)
      × (length name < 2 ^ 16)
      × (beu_dec 2 m (p + 1) ≡ length name)
      × Holds m (p + 3) name
      × Encodes m (p + 3 + length name) x
      × EncodesTags m (p + 3 + length name + size x) ts
