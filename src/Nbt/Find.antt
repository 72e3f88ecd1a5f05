-- ===== src/Nbt/Find.antt =====
-- `clod_nbt_compound_get` finds the first tag of a name: src/nbt/nbt.c.
use libclod.Prelude.{
  ℕ, zero, suc, ◌+◌, ◌≤◌, ◌<◌, ◌^◌, ◌≡◌, ◌≢◌, refl, ◌∙◌, ap, List, [], ◌∷◌, Bool, true, false,
  Bool-cases, inl, inr, Option, none, some, ◌==◌, ◌&&◌, if◌then◌else◌, length, u64, ◌-◌, ◌%◌, arith,
}
use libclod.BigEndian.{beu_dec}
use libclod.Nbt.Types.{Memory, type_valid, available, compound}
use libclod.Nbt.Size.{tag_payload, tag_size, payload_size}
use libclod.Nbt.Format.{
  Payload, Tags, stop, tag, type_of, size, size_tags, Holds, Encodes, EncodesTags,
}
use libclod.Nbt.Sizes.{payload_size_lem, type_valid_lem, type_of_bounds, size_pos}
use libclod.Sstr.{sstr_eq, pointers_equal, memory_equal}
use libclod.Nbt.Iter.{
  tag_name, Iter, iter_zero, compound_at, compound_next, iter_next, get_loop, compound_get,
}

abbrev pub names_equal : List ℕ → List ℕ → Bool
names_equal [] [] = true
names_equal [] (y ∷ ys) = false
names_equal (x ∷ xs) [] = false
names_equal (x ∷ xs) (y ∷ ys) = x == y && names_equal xs ys

-- Where the first tag of a name starts, in tags that start at `p`.
abbrev pub find : ℕ → List ℕ → Tags → Option ℕ
find p key stop = none
find p key (tag name x ts) =
    if names_equal name key then some p else find (p + 3 + length name + size x) key ts

names_unequal : (xs ys : List ℕ) → length xs ≢ length ys → names_equal xs ys ≡ false
names_unequal [] [] ne = absurd (ne refl)
names_unequal [] (y ∷ ys) ne = refl
names_unequal (x ∷ xs) [] ne = refl
names_unequal (x ∷ xs) (y ∷ ys) ne = ground (arith, names_unequal xs ys)

module _ (m : Memory) where
  memory_equal_same : (a n : ℕ) → memory_equal m a a n ≡ true
  unfolding memory_equal
  memory_equal_same a zero = refl
  memory_equal_same a (suc n) = ground (arith, memory_equal_same (suc a) n)

  memory_equal-names_equal :
      (xs ys : List ℕ) (a b : ℕ)
      → length xs ≡ length ys
      → Holds m a xs
      → Holds m b ys
      → memory_equal m a b (length xs) ≡ names_equal xs ys
  unfolding memory_equal
  memory_equal-names_equal [] [] a b same left right = refl
  memory_equal-names_equal [] (y ∷ ys) a b same left right = absurd (omega arith)
  memory_equal-names_equal (x ∷ xs) [] a b same left right = absurd (omega arith)
  memory_equal-names_equal (x ∷ xs) (y ∷ ys) a b same (at_a, left) (at_b, right) =
      rw (at_a, at_b, memory_equal-names_equal xs ys (suc a) (suc b) (omega arith) left right) refl

  -- Sized strings that hold two names are equal if the names are.
  sstr_eq-names_equal :
      (xs ys : List ℕ) (a b : ℕ)
      → Holds m a xs
      → Holds m b ys
      → sstr_eq m
          (record { ptr = some a; size = length xs })
          (record { ptr = some b; size = length ys })
        ≡ names_equal xs ys
  unfolding sstr_eq pointers_equal
  sstr_eq-names_equal xs ys a b left right = elim (Bool-cases (length xs == length ys)) [
    | inr differ ↦ ground (arith, names_unequal xs ys)
    | inl agree ↦
        let equal = memory_equal-names_equal xs ys a b (ground arith) left right in
        elim (Bool-cases (a == b)) [
          | inl one_place ↦
              let same : b ≡ a = ground arith in
              let all : memory_equal m a b (length xs) ≡ true =
                rw same (memory_equal_same a (length xs)) in
              ground arith
          | inr two_places ↦ ground arith
        ]
  ]

module _ (m : Memory) (end : ℕ) (short : end < 2 ^ 64) where
  -- What the iterator becomes at a tag that memory holds.
  abbrev at_tag : ℕ → ℕ → ℕ → ℕ → ℕ → Iter
  at_tag a n t s index = record {
    tag = some a;
    payload = some (a + 3 + n);
    size = 3 + n + s;
    type = t;
    index = index;
  }

  tag_payload_at :
      (a n : ℕ)
      → type_valid (m a) ≡ true
      → beu_dec 2 m (a + 1) ≡ n
      → a + (3 + n) ≤ end
      → tag_payload m a end ≡ some (a + 3 + n)
  unfolding tag_payload
  tag_payload_at a n valid holds fits = rw (holds, valid) (ground arith)

  tag_name_at :
      (a n : ℕ)
      → type_valid (m a) ≡ true
      → beu_dec 2 m (a + 1) ≡ n
      → a + (3 + n) ≤ end
      → tag_name m a end ≡ record { ptr = some (a + 3); size = n }
  unfolding tag_name
  tag_name_at a n valid holds fits = rw (holds, valid) (ground arith)

  compound_at-tag :
      (a index n t s : ℕ)
      → m a ≡ t
      → type_valid t ≡ true
      → beu_dec 2 m (a + 1) ≡ n
      → payload_size m (a + 3 + n) end t ≡ some s
      → 1 ≤ t
      → 1 ≤ s
      → a + (3 + n + s) ≤ end
      → compound_at m end a index ≡ some (true, at_tag a n t s index)
  unfolding compound_at
  compound_at-tag a index n t s at_type valid holds measured low pos fits =
      let offset : u64 (a + 3 + n - a + s) ≡ 3 + n + s = omega arith in
      let found = tag_payload_at a n (rw at_type valid) holds (omega arith) in
      rw (found, at_type, measured, offset) (ground arith)

  compound_at-stop :
      (a index : ℕ)
      → m a ≡ 0
      → a + 1 ≤ end
      → compound_at m end a index
        ≡ some (
          false,
          record { tag = some (suc a); payload = none; size = 0; type = 0; index = index },
        )
  unfolding compound_at
  compound_at-stop a index zero_type fits = rw zero_type (ground arith)

  -- From a tag the iterator moves to the address behind it.
  next-at_tag :
      (payload a n t s index : ℕ)
      → iter_next m payload end compound (at_tag a n t s index)
        ≡ compound_at m end (a + 3 + n + s) ((index + 1) % 2 ^ 32)
  unfolding iter_next compound_next
  next-at_tag payload a n t s index =
      ap (λ b. compound_at m end b ((index + 1) % 2 ^ 32)) (omega arith)

  -- The loop finds what there is from the tag on to which the iterator moves next.
  get_loop-find :
      (fuel payload a q index : ℕ) (key : List ℕ) (ts : Tags) (it : Iter)
      → Holds m q key
      → EncodesTags m a ts
      → a + size_tags ts ≤ end
      → size_tags ts ≤ fuel
      → iter_next m payload end compound it ≡ compound_at m end a index
      → get_loop fuel m payload end (record { ptr = some q; size = length key }) it
        ≡ some (find a key ts)
  unfolding get_loop Encodes
  get_loop-find zero payload a q index key stop it held e fits enough next = absurd (omega arith)
  get_loop-find zero payload a q index key (tag name x ts) it held e fits enough next =
      absurd (omega arith)
  get_loop-find (suc fuel) payload a q index key stop it held e fits enough next =
      rw (get_loop, next, compound_at-stop a index e fits) refl
  get_loop-find (suc fuel) payload a q index key (tag name x ts) it held
        (at_type, small, holds, named, here, rest) fits enough next =
      let n = length name in
      let (low, high) = type_of_bounds m (a + 3 + n) x here in
      let valid : type_valid (m a) ≡ true = rw at_type (type_valid_lem (type_of x) low high) in
      let measured = payload_size_lem m (a + 3 + n) end x here (omega arith) short in
      let step =
        next
        ∙ compound_at-tag a index n (type_of x) (size x) at_type (rw at_type at valid) holds
            measured low (size_pos m (a + 3 + n) x here) (omega arith) in
      let tag_name_is = tag_name_at a n valid holds (omega arith) in
      let same = sstr_eq-names_equal m name key (a + 3) q named held in
      let after = next-at_tag payload a n (type_of x) (size x) index in
      let later =
        get_loop-find fuel payload (a + 3 + n + size x) q ((index + 1) % 2 ^ 32) key ts
          (at_tag a n (type_of x) (size x) index) held rest (omega arith) (omega arith) after in
      rw (get_loop, step, tag_name_is, same, later) (ground arith)

-- `clod_nbt_compound_get` on a compound that memory holds before `end`, an address below 2 ^ 64, and
-- a name that memory holds: it ends, and returns the first tag with the name, or null if there is
-- none.
pub compound_get-find :
    (m : Memory) (end p q : ℕ) (key : List ℕ) (ts : Tags)
    → EncodesTags m p ts
    → p + size_tags ts ≤ end
    → end < 2 ^ 64
    → Holds m q key
    → compound_get m p end (record { ptr = some q; size = length key }) ≡ some (find p key ts)
unfolding compound_get iter_next compound_next
compound_get-find m end p q key ts e fits short held =
    get_loop-find m end short (suc (available p end)) p p q 0 key ts iter_zero held e fits
      (ground arith) refl

-- `clod_nbt_tag_size` and `clod_nbt_tag_payload` at a tag that memory holds before `end`, an address
-- below 2 ^ 64, in a compound: the size of the header, the name and the payload, and the address behind the name.
pub tag_size_lem :
    (m : Memory) (end p : ℕ) (name : List ℕ) (x : Payload) (ts : Tags)
    → EncodesTags m p (tag name x ts)
    → p + (3 + length name + size x) ≤ end
    → end < 2 ^ 64
    → (tag_size m p end ≡ some (3 + length name + size x))
      × (tag_payload m p end ≡ some (p + 3 + length name))
unfolding tag_size Encodes
tag_size_lem m end p name x ts (at_type, small, holds, named, here, rest) fits short =
    let n = length name in
    let (low, high) = type_of_bounds m (p + 3 + n) x here in
    let valid : type_valid (m p) ≡ true = rw at_type (type_valid_lem (type_of x) low high) in
    let measured = payload_size_lem m (p + 3 + n) end x here (omega arith) short in
    let measured' : payload_size m (p + 3 + n) end (m p) ≡ some (size x) = rw at_type measured in
    let whole : u64 (3 + n + size x) ≡ 3 + n + size x = omega arith in
    let found = tag_payload_at m end short p n valid holds (omega arith) in
    (rw (valid, holds, measured', holds, whole) (ground arith), found)
