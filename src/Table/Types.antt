-- ===== src/Table/Types.antt =====
-- The structs of table.c, its size arithmetic, and the outcome of code that asserts.
use Prim.Native.Nat.{bit_and, bit_or}
use libclod.Prelude.{ℕ, ◌+◌, ◌-◌, ◌*◌, ◌/◌, ◌%◌, ◌^◌, Bool, Option, none, some, List, ltb, u64}
use libclod.Hash.Sip.{init, add, finalise}

-- What a call ends in: a value, the failure of an `assert`, or the end of the model's fuel.
pub data Outcome {ℓ} (A : Type ℓ) : Type ℓ where
  ok : A → Outcome A
  aborted : Outcome A
  out_of_fuel : Outcome A

infixl 5 ◌>>=◌
abbrev pub ◌>>=◌ {ℓ κ} : {A : Type ℓ} {B : Type κ} → Outcome A → (A → Outcome B) → Outcome B
ok a >>= f = f a
aborted >>= f = aborted
out_of_fuel >>= f = out_of_fuel

-- `struct clod_table_opts` as a caller fills it: a callback may be null. `E` is the type of the
-- pointers to elements and keys, and `cmp_func` tells whether the callback returns 0.
pub record UserOpts (E : Type 0) : Type 0 where
  pub min_capacity : ℕ
  pub hash_func : Option (ℕ → E → ℕ → ℕ)
  pub cmp_func : Option (E → E → ℕ → Bool)

-- The options in a table, where both callbacks are set.
pub record Opts (E : Type 0) : Type 0 where
  pub min_capacity : ℕ
  pub hash_func : ℕ → E → ℕ → ℕ
  pub cmp_func : E → E → ℕ → Bool

-- `struct element`; the field `element` is `ptr`.
pub record Element (E : Type 0) : Type 0 where
  pub ptr : E
  pub key_size : ℕ

-- `struct clod_table`. An element that was never written is `none`; `address` is the address of
-- the control bytes, which seeds the hash.
pub record Table (E : Type 0) : Type 0 where
  pub opts : Opts E
  pub elem_count : ℕ
  pub deleted_count : ℕ
  pub table_size : ℕ
  pub cursor : ℕ
  pub address : ℕ
  pub control : ℕ → ℕ
  pub elements : ℕ → Option (Element E)

-- `malloc` as this call finds it: from a size in bytes, null or an address.
abbrev pub Malloc : Type 0
Malloc = ℕ → Option ℕ

abbrev pub lf_max : ℕ
lf_max = 85

abbrev pub lf_min : ℕ
lf_min = 50

-- `LF(table)`, in percent
unfoldable pub load_factor : {E : Type 0} → Table E → ℕ
load_factor t = u64 (u64 (t.elem_count + t.deleted_count) * 100) / t.table_size

-- `LF_CAPACITY_TO_SIZE(lf, capacity)`
unfoldable pub capacity_to_size : ℕ → ℕ → ℕ
capacity_to_size lf capacity = u64 (u64 (capacity * 100) + lf - 1) / lf

abbrev pub ctl_empty : ℕ
ctl_empty = 0

abbrev pub ctl_removed : ℕ
ctl_removed = 1

-- `CTL_OCCUPIED(hash)`
unfoldable pub ctl_occupied : ℕ → ℕ
ctl_occupied hash = bit_or 0b10000000 (hash % 2 ^ 8)

-- `CTL_IS_OCCUPIED(ctl)`
unfoldable pub ctl_is_occupied : ℕ → Bool
ctl_is_occupied ctl = ltb 0 (bit_and 0b10000000 ctl)

-- `default_hash` over the bytes behind a pointer.
unfoldable pub default_hash : {E : Type 0} → (E → ℕ → List ℕ) → ℕ → E → ℕ → ℕ
unfolding init add finalise
default_hash bytes seed ptr size = finalise (add (init seed) (bytes ptr size))

-- `apply_default_opts`; `memcmp` tells whether the library function returns 0.
unfoldable pub apply_default_opts :
    {E : Type 0} → (E → ℕ → List ℕ) → (E → E → ℕ → Bool) → UserOpts E → Opts E
unfolding default_hash
apply_default_opts bytes memcmp o = record {
  min_capacity = o.min_capacity;
  hash_func = elim o.hash_func [ none ↦ default_hash bytes | some f ↦ f ];
  cmp_func = elim o.cmp_func [ none ↦ memcmp | some f ↦ f ];
}
