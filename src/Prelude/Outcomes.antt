-- ===== src/Prelude/Outcomes.antt =====
-- What follows a pointer that may be null, and predicates on what comes out of a test.
use mathlib.Core.Path.{◌≡◌, refl}
use mathlib.Core.Bool.{Bool, true, false}
use mathlib.Core.Option.{Option, none, some}
use libclod.Prelude.Tests.{if◌then◌else◌}

-- What follows a pointer that may be null.
abbrev pub if_null : {A B : Type 0} → Option A → B → (A → B) → B
if_null none b f = b
if_null (some a) b f = f a

-- A predicate on a result that may be missing.
abbrev pub Every : {A : Type 0} → (A → Type 0) → Option A → Type 0
Every P none = Unit
Every P (some a) = P a

pub if_both :
    {A : Type 0} (P : A → Type 0) (b : Bool) {x y : A} → P x → P y → P (if b then x else y)
if_both P true hx hy = hx
if_both P false hx hy = hy

-- For any pointer, null or not.
pub if_null_both :
    {A B : Type 0} (P : B → Type 0) (o : Option A) {b : B} {f : A → B}
    → P b
    → ((a : A) → o ≡ some a → P (f a))
    → P (if_null o b f)
if_null_both P none hb hf = hb
if_null_both P (some a) hb hf = hf a refl

-- For a result that may be missing, and what follows it.
pub Every-if_null :
    {A B : Type 0} (P : A → Type 0) (Q : B → Type 0) (o : Option A) {f : A → B}
    → Every P o
    → ((a : A) → P a → Q (f a))
    → Every Q (if_null o none (λ a. some (f a)))
Every-if_null P Q none h next = tt
Every-if_null P Q (some a) h next = next a h

-- The same, where what follows may give nothing either.
pub Every-bind :
    {A B : Type 0} (P : A → Type 0) (Q : B → Type 0) (o : Option A) (f : A → Option B)
    → Every P o
    → ((a : A) → P a → Every Q (f a))
    → Every Q (if_null o none f)
Every-bind P Q none f h next = tt
Every-bind P Q (some a) f h next = next a h

pub Every-both :
    {A : Type 0} (P Q : A → Type 0) (o : Option A)
    → Every P o
    → Every Q o
    → Every (λ a. P a × Q a) o
Every-both P Q none hp hq = tt
Every-both P Q (some a) hp hq = (hp, hq)
