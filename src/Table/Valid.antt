-- ===== src/Table/Valid.antt =====
-- What a table means, and when it is well formed.
use libclod.Prelude.{
  ℕ, zero, suc, ◌+◌, ◌^◌, ◌≤◌, ◌<◌, ◌≡◌, ◌≢◌, ◌⊎◌, Bool, true, false, ◌&&◌, Option, none, some, leb,
  ◌==◌, if◌then◌else◌, count,
}
use mathlib.Core.Option
use libclod.Table.Types.{Opts, Element, Table}
use libclod.Table.Probe.{get_position, key_equal, slot, Position}

module _ {E : Type 0} where
  -- What the documentation of `clod_table_opts` asks of the callbacks: `cmp_func` decides an
  -- equivalence of keys of one size, and keys that it takes for equal have equal hashes.
  pub record IsKeyed (o : Opts E) : Type 0 where
    pub cmp_refl : (a : E) (n : ℕ) → o.cmp_func a a n ≡ true
    pub cmp_symm : (a b : E) (n : ℕ) → o.cmp_func a b n ≡ true → o.cmp_func b a n ≡ true
    pub cmp_trans :
        (a b c : E) (n : ℕ)
        → o.cmp_func a b n ≡ true
        → o.cmp_func b c n ≡ true
        → o.cmp_func a c n ≡ true
    pub hash-cmp :
        (seed : ℕ) (a b : E) (n : ℕ)
        → o.cmp_func a b n ≡ true
        → o.hash_func seed a n ≡ o.hash_func seed b n

  -- Whether two keys are the same key of the table.
  abbrev pub same_key : Opts E → E → ℕ → E → ℕ → Bool
  same_key o a n b m = if n == m then o.cmp_func a b n else false

  abbrev pub pointer : Option (Element E) → Option E
  pointer o = Option.map (λ (e : Element E). e.ptr) o

  -- The abstract map: the element with the key, found by looking at every cell below `n`.
  unfoldable pub scan : Table E → E → ℕ → ℕ → Option E
  scan t key key_size zero = none
  scan t key key_size (suc n) =
      if leb 128 (t.control n) && key_equal t n key key_size
      then pointer (t.elements n)
      else scan t key key_size n

  unfoldable pub view : Table E → E → ℕ → Option E
  unfolding scan
  view t key key_size = scan t key key_size t.table_size

  -- The cell `j` has the control byte of the position, and no cell before it on the position's path
  -- is empty.
  pub record IsReached (t : Table E) (pos : Position) (j : ℕ) : Type 0 where
    pub ctl : t.control j ≡ pos.ctl
    pub distance : ℕ
    pub near : distance < t.table_size
    pub here : slot t pos distance ≡ j
    pub path : (k : ℕ) → k < distance → t.control (slot t pos k) ≢ 0

  -- The cell `a` is on the path of the position, behind occupied or removed cells only.
  abbrev pub Leads : Table E → Position → ℕ → Type 0
  Leads t pos a =
      (i : ℕ) × (i < t.table_size)
      × (slot t pos i ≡ a)
      × ((k : ℕ) → k < i → t.control (slot t pos k) ≢ 0)

  -- The element of a cell can be found by probing.
  pub record IsPlaced (t : Table E) (j : ℕ) : Type 0 where
    pub element : Element E
    pub stored : t.elements j ≡ some element
    pub reached : IsReached t (get_position t element.ptr element.key_size) j

  -- The well-formedness of a table. The bounds keep the size arithmetic from wrapping.
  pub record IsValid (t : Table E) : Type 0 where
    pub keyed : IsKeyed t.opts
    pub size_fits : t.table_size < 2 ^ 57
    pub capacity_fits : t.opts.min_capacity < 2 ^ 56
    pub cursor_fits : t.cursor + t.table_size ≤ 2 ^ 64
    pub bytes :
        (j : ℕ) → j < t.table_size → (t.control j ≤ 1) ⊎ ((128 ≤ t.control j) × (t.control j < 256))
    pub placed : (j : ℕ) → j < t.table_size → 128 ≤ t.control j → IsPlaced t j
    pub distinct :
        (i j : ℕ)
        → i < t.table_size
        → j < t.table_size
        → 128 ≤ t.control i
        → 128 ≤ t.control j
        → (key : E) (n : ℕ) → key_equal t i key n ≡ true
        → key_equal t j key n ≡ true
        → i ≡ j
    pub elems : t.elem_count ≡ count (λ j. leb 128 (t.control j)) t.table_size
    pub deleted : t.deleted_count ≡ count (λ j. t.control j == 1) t.table_size
