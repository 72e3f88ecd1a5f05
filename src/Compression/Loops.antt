-- ===== src/Compression/Loops.antt =====
-- The loops around calls of a library: what they keep, where they stop and that they end.
use libclod.Prelude.{
  ℕ, zero, suc, ◌+◌, ◌<◌, ◌≡◌, refl, ◌⊎◌, inl, inr, Option, Option-cases, ◌≢◌, none, some, arith,
  length, length-append,
}
pub use libclod.Prelude.{Every, Every-if_null, if_both, if_null_both}
use libclod.Compression.Coder.{Coder, Stream, advance, call, code_loop}
use libclod.Prelude.{if_null}
use libclod.Compression.Library.{Fits}

pub Every-if_null_all :
    {A B : Type 0} (Q : B → Type 0) (o : Option A) (f : A → B)
    → ((a : A) → Q (f a))
    → Every Q (if_null o none (λ a. some (f a)))
Every-if_null_all Q none f next = tt
Every-if_null_all Q (some a) f next = next a

module _ {R S X : Type 0} (before : Stream S → Option X) (code : Coder R S)
    (after : R → Stream S → Option X) where
  -- What the loop leaves with: a test that gave the value, in the state it gave it for.
  pub record Left (room : ℕ) (x : X) (t : Stream S) : Type 0 where
    pub filled : length t.out + t.avail_out ≡ room
    pub by : (before t ≡ some x) ⊎ ((r : R) × (after r t ≡ some x))

  advance-filled :
      (s : Stream S) (room : ℕ)
      → Fits code
      → length s.out + s.avail_out ≡ room
      → length (advance s (call code s)).out + (advance s (call code s)).avail_out ≡ room
  advance-filled s room fits at =
      omega (arith, length-append s.out (call code s).produced, fits s.state s.input s.avail_out)

  pub code_loop-Left :
      (fuel : ℕ) (s : Stream S) (room : ℕ)
      → Fits code
      → length s.out + s.avail_out ≡ room
      → Every (λ l. Left room l.0 l.1) (code_loop fuel before code after s)
  unfolding code_loop
  code_loop-Left zero s room fits at = tt
  code_loop-Left (suc fuel) s room fits at = elim (Option-cases (before s)) [
    | inr (x, full) ↦ rw full (record { filled = at; by = inl full })
    | inl going ↦
        let step = call code s in
        let t = advance s step in
        elim (Option-cases (after step.ret t)) [
          | inr (x, ended) ↦
              rw (going, ended)
                (record { filled = advance-filled s room fits at; by = inr (step.ret, ended) })
          | inl goes_on ↦
              rw (going, goes_on) (code_loop-Left fuel t room fits (advance-filled s room fits at))
        ]
  ]

  -- A measure that every round lowers bounds the rounds.
  pub code_loop_ends :
      (measure : Stream S → ℕ)
      → (P : Stream S → Type 0)
      → ((s : Stream S)
          → P s
          → before s ≡ none
          → after (call code s).ret (advance s (call code s)) ≡ none
          → P (advance s (call code s)) × (measure (advance s (call code s)) < measure s))
      → (fuel : ℕ) (s : Stream S) → P s
      → measure s < fuel
      → code_loop fuel before code after s ≢ none
  unfolding code_loop
  code_loop_ends measure P lowers zero s p enough = absurd (omega arith)
  code_loop_ends measure P lowers (suc fuel) s p enough = elim (Option-cases (before s)) [
    | inr (x, full) ↦ rw full (λ e. ground arith)
    | inl going ↦
        let step = call code s in
        let t = advance s step in
        elim (Option-cases (after step.ret t)) [
          | inr (x, ended) ↦ rw (going, ended) (λ e. ground arith)
          | inl goes_on ↦
              let (p', less) = lowers s p going goes_on in
              rw (going, goes_on) (code_loop_ends measure P lowers fuel t p' (omega arith))
        ]
  ]

  -- A loop that can always go on does not end, whatever the fuel.
  pub code_loop_goes_on :
      (P : Stream S → Type 0)
      → ((s : Stream S)
          → P s
          → (before s ≡ none)
            × (after (call code s).ret (advance s (call code s)) ≡ none)
            × P (advance s (call code s)))
      → (fuel : ℕ) (s : Stream S) → P s
      → code_loop fuel before code after s ≡ none
  unfolding code_loop
  code_loop_goes_on P on zero s p = refl
  code_loop_goes_on P on (suc fuel) s p =
      let (going, next, p') = on s p in
      rw (going, next) (code_loop_goes_on P on fuel (advance s (call code s)) p')
