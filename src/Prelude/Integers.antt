-- ===== src/Prelude/Integers.antt =====
-- The integers over the native numbers, as far as signed counters need them.
use Prim.Native.Nat.{ℕ, suc, ◌+◌, ◌-◌}
use mathlib.Core.Bool.{Bool, true, false}
use libclod.Prelude.Tests.{leb, if◌then◌else◌}

pub data ℤ : Type 0 where
  pos : ℕ → ℤ
  -- `negsuc n` is `-(n + 1)`.
  negsuc : ℕ → ℤ

infixl 60 ◌+ℤ◌
-- An integer and a number.
abbrev pub ◌+ℤ◌ : ℤ → ℕ → ℤ
pos a +ℤ n = pos (a + n)
negsuc a +ℤ n = if leb n a then negsuc (a - n) else pos (n - suc a)

infixl 60 ◌-ℤ◌
abbrev pub ◌-ℤ◌ : ℤ → ℕ → ℤ
pos a -ℤ n = if leb n a then pos (a - n) else negsuc (n - suc a)
negsuc a -ℤ n = negsuc (a + n)

abbrev pub is_negative : ℤ → Bool
is_negative (pos n) = false
is_negative (negsuc n) = true
