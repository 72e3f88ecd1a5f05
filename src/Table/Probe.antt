-- ===== src/Table/Probe.antt =====
-- `get_position`, `key_equal` and `probe` of table.c.
use libclod.Prelude.{
  ℕ, zero, suc, ◌+◌, ◌/◌, ◌%◌, ◌^◌, Bool, false, ◌&&◌, Option, none, some, ◌==◌, if◌then◌else◌, u64,
}
use libclod.Table.Types.{Table, ctl_occupied, ctl_empty, ctl_removed}

-- `struct table_position`
pub record Position : Type 0 where
  pub index : ℕ
  pub ctl : ℕ

-- `struct probe`; `none` is `INDEX_NIL`.
pub record Probe : Type 0 where
  pub existing : Option ℕ
  pub available : Option ℕ

module _ {E : Type 0} (t : Table E) where
  unfoldable pub get_position : E → ℕ → Position
  unfolding ctl_occupied
  get_position key key_size =
      let hash = t.opts.hash_func t.address key key_size in
      record { index = hash / 2 ^ 7 % t.table_size; ctl = ctl_occupied hash }

  -- An element that was never written has no defined size or bytes: it equals no key.
  unfoldable pub key_equal : ℕ → E → ℕ → Bool
  key_equal index key key_size = elim (t.elements index) [
    | none ↦ false
    | some res ↦
        if res.key_size == key_size then t.opts.cmp_func res.ptr key res.key_size else false
  ]

  -- `const size_t index = (pos.index + i) % t->table_size`
  unfoldable pub slot : Position → ℕ → ℕ
  slot pos i = u64 (pos.index + i) % t.table_size

  module _ (pos : Position) (key : E) (key_size : ℕ) where
    -- The loop of `probe` at `i`, with the rounds that are left.
    unfoldable pub probe_loop : ℕ → ℕ → Option ℕ → Probe
    unfolding slot key_equal
    probe_loop zero i available = record { existing = none; available = available }
    probe_loop (suc left) i available =
        let index = slot pos i in
        let next : Option ℕ = elim available [
          | some a ↦ some a
          | none ↦ if t.control index == ctl_removed then some index else none
        ] in
        let rest = probe_loop left (i + 1) next in
        if t.control index == ctl_empty
        then record {
          existing = none;
          available = elim available [ some a ↦ some a | none ↦ some index ];
        }
        else if t.control index == pos.ctl && key_equal index key key_size
        then record { existing = some index; available = none }
        else rest

    unfoldable pub probe : Probe
    unfolding probe_loop
    probe = probe_loop t.table_size 0 none
