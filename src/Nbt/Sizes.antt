-- ===== src/Nbt/Sizes.antt =====
-- `clod_nbt_payload_size` measures every encoded tree: src/nbt/nbt.c.
use native.Mathlib.Nat.{add-zero}
use libclod.Prelude.{
  ℕ, zero, suc, ◌+◌, ◌*◌, ◌^◌, ◌≤◌, ◌<◌, ◌≡◌, refl, ap, ◌∙◌, Bool, true, Bool-cases, Option, some,
  leb, ◌==◌, ◌&&◌, ◌||◌, count, u64_small, ◌⊎◌, inl, inr, length, arith,
}
use libclod.Prelude.Bits.{count_full}
use libclod.BigEndian.{beu_dec}
use libclod.Nbt.Types.{Memory, type_zero_size, type_valid, available}
use libclod.Nbt.Size.{
  array_size, string_size, list_loop, list_size, compound_end, compound_loop, payload_switch,
  payload_depth, payload_size,
}
use libclod.Nbt.Format.{
  Items, Tags, Payload, number, int8s, int32s, int64s, text, items, tags, none_left, item, stop,
  tag, type_of, number_size, size, size_items, size_tags, count_items, Encodes, EncodesItems,
  EncodesTags,
}

abbrev small_fixed : ℕ → Bool
small_fixed t = leb t 0 || (leb 1 (number_size t) && leb (number_size t) 8)

count-small_fixed : count small_fixed 7 ≡ 7
unfolding count
count-small_fixed = refl

number_bounds : (t : ℕ) → 1 ≤ t → t ≤ 6 → (1 ≤ number_size t) × (number_size t ≤ 8)
number_bounds t low high =
    ground (arith, count_full small_fixed 7 t (omega arith) count-small_fixed)

-- The table of the code has the sizes of the format.
abbrev same_size : ℕ → Bool
same_size t = type_zero_size t == number_size t

count-same_size : count same_size 7 ≡ 7
unfolding count
count-same_size = refl

type_zero_size-number_size : (t : ℕ) → t ≤ 6 → type_zero_size t ≡ number_size t
type_zero_size-number_size t high =
    let same = count_full same_size 7 t (omega arith) count-same_size in ground (arith, same)

abbrev valid_code : ℕ → Bool
valid_code t = leb t 0 || type_valid t

count-valid_code : count valid_code 13 ≡ 13
unfolding count
count-valid_code = refl

pub type_valid_lem : (t : ℕ) → 1 ≤ t → t ≤ 12 → type_valid t ≡ true
type_valid_lem t low high =
    ground (arith, count_full valid_code 13 t (omega arith) count-valid_code)

pub type_of_bounds :
    (m : Memory) (p : ℕ) (x : Payload) → Encodes m p x → (1 ≤ type_of x) × (type_of x ≤ 12)
unfolding Encodes
type_of_bounds m p (number t) (low, high) = (low, omega arith)
type_of_bounds m p (int8s n) e = (omega arith, omega arith)
type_of_bounds m p (int32s n) e = (omega arith, omega arith)
type_of_bounds m p (int64s n) e = (omega arith, omega arith)
type_of_bounds m p (text n) e = (omega arith, omega arith)
type_of_bounds m p (items t xs) e = (omega arith, omega arith)
type_of_bounds m p (tags ts) e = (omega arith, omega arith)

pub size_pos : (m : Memory) (p : ℕ) (x : Payload) → Encodes m p x → 1 ≤ size x
unfolding Encodes
size_pos m p (number t) (low, high) = let (pos, eight) = number_bounds t low high in pos
size_pos m p (int8s n) e = omega arith
size_pos m p (int32s n) e = omega arith
size_pos m p (int64s n) e = omega arith
size_pos m p (text n) e = omega arith
size_pos m p (items t xs) e = omega arith
size_pos m p (tags stop) e = omega arith
size_pos m p (tags (tag name x ts)) e = omega arith

module _ (m : Memory) (end : ℕ) (short : end < 2 ^ 64) where
  array_encoded :
      (p n width : ℕ)
      → n < 2 ^ 31
      → beu_dec 4 m p ≡ n
      → 1 ≤ width
      → p + (4 + n * width) ≤ end
      → array_size m p end width ≡ 4 + n * width
  unfolding array_size
  array_encoded p n width small holds wide fits = rw holds (ground arith)

  string_encoded : (p n : ℕ) → beu_dec 2 m p ≡ n → p + (2 + n) ≤ end → string_size m p end ≡ 2 + n
  unfolding string_size
  string_encoded p n holds fits = rw holds (ground arith)

  number_encoded :
      (inner : ℕ → ℕ → Option ℕ) (p t : ℕ)
      → t ≤ 6
      → payload_switch inner m p end t ≡ some (number_size t)
  unfolding payload_switch
  number_encoded inner p t high =
      let direct : payload_switch inner m p end t ≡ some (type_zero_size t) = ground arith in
      direct ∙ ap some (type_zero_size-number_size t high)

  list_done : (inner : ℕ → Option ℕ) (p sz : ℕ) → list_loop inner p 0 sz ≡ some (sz + 0)
  unfolding list_loop
  list_done inner p sz = ap some (omega arith)

  -- One round of the list loop.
  list_round :
      (inner : ℕ → Option ℕ) (p rounds sz s : ℕ)
      → inner (p + sz) ≡ some s
      → 1 ≤ s
      → sz + s < 2 ^ 64
      → list_loop inner p (suc rounds) sz ≡ list_loop inner p rounds (sz + s)
  unfolding list_loop
  list_round inner p rounds sz s e pos fits =
      rw (list_loop, e, u64_small (sz + s) fits) (ground arith)

  -- One round of the compound loop, at a tag that fits.
  compound_round :
      (inner : ℕ → ℕ → Option ℕ) (p fuel sz n s : ℕ)
      → type_valid (m (p + sz)) ≡ true
      → beu_dec 2 m (p + sz + 1) ≡ n
      → n < 2 ^ 16
      → inner (p + sz + 3 + n) (m (p + sz)) ≡ some s
      → p + (sz + (3 + n + s)) ≤ end
      → compound_loop inner m p end (suc fuel) sz
        ≡ compound_loop inner m p end fuel (sz + (3 + n + s))
  unfolding compound_loop
  compound_round inner p fuel sz n s valid holds small e fits =
      rw (compound_loop, holds, e, valid, holds, u64_small (sz + (3 + n + s)) (omega arith))
        (ground arith)

  compound_stop :
      (inner : ℕ → ℕ → Option ℕ) (p fuel sz : ℕ)
      → m (p + sz) ≡ 0
      → p + (sz + 1) ≤ end
      → compound_loop inner m p end (suc fuel) sz ≡ some (sz + 1)
  unfolding compound_loop compound_end
  compound_stop inner p fuel sz zero_type fits = rw zero_type (ground arith)

  list_empty :
      (inner : ℕ → ℕ → Option ℕ) (p : ℕ)
      → 5 ≤ available p end
      → m p ≡ 0
      → list_size inner m p end ≡ some 5
  unfolding list_size
  list_empty inner p room zero_type = rw zero_type (ground arith)

  list_start :
      (inner : ℕ → ℕ → Option ℕ) (p t length : ℕ)
      → 5 ≤ available p end
      → m p ≡ t
      → 1 ≤ t
      → t ≤ 12
      → length < 2 ^ 31
      → beu_dec 4 m (p + 1) ≡ length
      → list_size inner m p end ≡ list_loop (λ q. inner q t) p length 5
  unfolding list_size
  list_start inner p t length room at_type low high small holds =
      rw (at_type, holds, type_valid_lem t low high) (ground arith)

  -- Only an empty list can have elements of type 0.
  items_type :
      (q t : ℕ) (xs : Items) → EncodesItems m q t xs → (t ≤ 12) × ((1 ≤ t) ⊎ (size_items xs ≡ 0))
  unfolding Encodes
  items_type q t none_left high = (high, inr refl)
  items_type q t (item x xs) (same, here, rest) =
      let (low, high) = type_of_bounds m q x here in (omega arith, inl (omega arith))

  mutual
    unfolding Encodes payload_depth payload_switch

    -- Enough fuel measures an encoded tree.
    depth_encoded :
        (fuel p : ℕ) (x : Payload)
        → Encodes m p x
        → size x ≤ fuel
        → p + size x ≤ end
        → payload_depth fuel m p end (type_of x) ≡ some (size x)
    depth_encoded zero p x e enough fits = absurd (omega (arith, size_pos m p x e))
    depth_encoded (suc f) p (number t) (low, high) enough fits =
        number_encoded (λ q u. payload_depth f m q end u) p t high
    depth_encoded (suc f) p (int8s n) (small, holds) enough fits =
        ap some (array_encoded p n 1 small holds (omega arith) (omega arith) ∙ omega arith)
    depth_encoded (suc f) p (int32s n) (small, holds) enough fits =
        ap some (array_encoded p n 4 small holds (omega arith) (omega arith) ∙ omega arith)
    depth_encoded (suc f) p (int64s n) (small, holds) enough fits =
        ap some (array_encoded p n 8 small holds (omega arith) (omega arith) ∙ omega arith)
    depth_encoded (suc f) p (text n) (small, holds) enough fits =
        ap some (string_encoded p n holds fits)
    depth_encoded (suc f) p (items t xs) (small, at_type, holds, rest) enough fits =
        let (high, low_or_empty) = items_type (p + 5) t xs rest in
        elim (Bool-cases (leb 1 t)) [
          | inl valid ↦
              list_start (λ q u. payload_depth f m q end u) p t (count_items xs) (ground arith)
                at_type (ground arith) high small holds
              ∙ items_encoded f p 5 t xs rest (omega arith) (omega arith)
          | inr no_type ↦
              let none_there : size_items xs ≡ 0 = ground arith in
              list_empty (λ q u. payload_depth f m q end u) p (ground arith) (ground arith)
              ∙ ap some (omega arith)
        ]
    depth_encoded (suc f) p (tags ts) e enough fits =
        tags_encoded f (suc (available p end)) p 0 ts (rw add-zero e) enough (ground arith)
          (omega arith)
        ∙ ap some (omega arith)

    items_encoded :
        (fuel p sz t : ℕ) (xs : Items)
        → EncodesItems m (p + sz) t xs
        → size_items xs ≤ fuel
        → p + (sz + size_items xs) ≤ end
        → list_loop (λ q. payload_depth fuel m q end t) p (count_items xs) sz
          ≡ some (sz + size_items xs)
    items_encoded fuel p sz t none_left e enough fits =
        list_done (λ q. payload_depth fuel m q end t) p sz
    items_encoded fuel p sz t (item x xs) (same, here, rest) enough fits =
        let inner = depth_encoded fuel (p + sz) x here (omega arith) (omega arith) in
        let next : p + (sz + size x) ≡ p + sz + size x = omega arith in
        list_round (λ q. payload_depth fuel m q end t) p (count_items xs) sz (size x)
          (rw same at inner) (size_pos m (p + sz) x here) (omega arith)
        ∙ items_encoded fuel p (sz + size x) t xs (rw next rest) (omega arith) (omega arith)
        ∙ ap some (omega arith)

    tags_encoded :
        (fuel rounds p sz : ℕ) (ts : Tags)
        → EncodesTags m (p + sz) ts
        → size_tags ts ≤ suc fuel
        → size_tags ts ≤ rounds
        → p + (sz + size_tags ts) ≤ end
        → compound_loop (λ q t. payload_depth fuel m q end t) m p end rounds sz
          ≡ some (sz + size_tags ts)
    tags_encoded fuel zero p sz stop e enough round_enough fits = absurd (omega arith)
    tags_encoded fuel zero p sz (tag name x ts) e enough round_enough fits = absurd (omega arith)
    tags_encoded fuel (suc rounds) p sz stop e enough round_enough fits =
        compound_stop (λ q t. payload_depth fuel m q end t) p rounds sz e fits
    tags_encoded fuel (suc rounds) p sz (tag name x ts) (at_type, small, holds, named, here, rest)
          enough round_enough fits =
        let n = length name in
        let inner = depth_encoded fuel (p + sz + 3 + n) x here (omega arith) (omega arith) in
        let (low, high) = type_of_bounds m (p + sz + 3 + n) x here in
        let valid : type_valid (m (p + sz)) ≡ true =
          rw at_type (type_valid_lem (type_of x) low high) in
        let next : p + (sz + (3 + n + size x)) ≡ p + sz + 3 + n + size x = omega arith in
        compound_round (λ q u. payload_depth fuel m q end u) p rounds sz n (size x) valid holds
          small (rw at_type inner) (omega arith)
        ∙ tags_encoded fuel rounds p (sz + (3 + n + size x)) ts (rw next rest) (omega arith)
            (omega arith) (omega arith)
        ∙ ap some (omega arith)

-- `clod_nbt_payload_size` measures every payload that memory holds before `end`, an address below
-- 2 ^ 64: it returns the size of the encoding, so that its recursion and its loops end on such data.
pub payload_size_lem :
    (m : Memory) (p end : ℕ) (x : Payload)
    → Encodes m p x
    → p + size x ≤ end
    → end < 2 ^ 64
    → payload_size m p end (type_of x) ≡ some (size x)
unfolding payload_size
payload_size_lem m p end x e fits short =
    depth_encoded m end short (suc (available p end)) p x e (ground arith) fits
