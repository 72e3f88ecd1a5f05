-- ===== src/Table/Keys.antt =====
-- `same_key` decides an equivalence.
use libclod.Prelude.{ℕ, ◌≡◌, inl, inr, refl, sym, ◌∙◌, true, ◌==◌, Bool-cases, arith}
use libclod.Table.Types.{Opts}
use libclod.Table.Valid.{IsKeyed, same_key}

module _ {E : Type 0} where
  pub same_key_parts :
      (o : Opts E) (a b : E) (n m : ℕ)
      → same_key o a n b m ≡ true
      → (n ≡ m) × (o.cmp_func a b m ≡ true)
  same_key_parts o a b n m h = elim (Bool-cases (n == m)) [
    | inl e ↦
        let size : n ≡ m = ground arith in
        let cmp : o.cmp_func a b n ≡ true = ground arith in (size, rw size at cmp)
    | inr e ↦ absurd (ground arith)
  ]

  module _ (o : Opts E) (keyed : IsKeyed o) where
    same_key_intro :
        (a b : E) (n m : ℕ) → n ≡ m → o.cmp_func a b m ≡ true → same_key o a n b m ≡ true
    same_key_intro a b n m e c = rw e (ground arith)

    pub same_key_symm : (a b : E) (n m : ℕ) → same_key o a n b m ≡ true → same_key o b m a n ≡ true
    same_key_symm a b n m h =
        let (e, c) = same_key_parts o a b n m h in
        same_key_intro b a m n (sym e) (rw e (keyed.cmp_symm a b m c))

    pub same_key_trans :
        (a b c : E) (n m k : ℕ)
        → same_key o a n b m ≡ true
        → same_key o b m c k ≡ true
        → same_key o a n c k ≡ true
    same_key_trans a b c n m k g h =
        let (e, p) = same_key_parts o a b n m g in
        let (f, q) = same_key_parts o b c m k h in
        same_key_intro a c n k (e ∙ f) (keyed.cmp_trans a b c k (rw f at p) q)

    pub same_key_refl : (a : E) (n : ℕ) → same_key o a n a n ≡ true
    same_key_refl a n = same_key_intro a a n n refl (keyed.cmp_refl a n)
