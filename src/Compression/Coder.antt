-- ===== src/Compression/Coder.antt =====
-- The streaming interface that the libraries share: a call consumes a part of the input and
-- produces bytes into the room that is left. The loops of src/compression call it until it ends.
use libclod.Prelude.{ℕ, zero, suc, ◌-◌, List, ◌++◌, Option, none, some, length, drop}

-- What one call of a library answers, consumes and produces, and the state it leaves.
pub record Step (R S : Type 0) : Type 0 where
  pub ret : R
  pub consumed : ℕ
  pub produced : List ℕ
  pub next : S

-- A state, the input that is left, the room that is left and the bytes produced.
abbrev pub Coder : Type 0 → Type 0 → Type 0
Coder R S = S → List ℕ → ℕ → Step R S

-- The counters of a stream: `next_in`, `avail_in`, `avail_out` and `total_out`.
pub record Stream (S : Type 0) : Type 0 where
  pub state : S
  pub input : List ℕ
  pub avail_out : ℕ
  pub out : List ℕ

-- The value of a test that leaves a loop, or the rest of the loop.
abbrev pub or_rest :
    {S X : Type 0} → Option X → Stream S → Option (X × Stream S) → Option (X × Stream S)
or_rest (some x) s rest = some (x, s)
or_rest none s rest = rest

module _ {R S : Type 0} where
  abbrev pub advance : Stream S → Step R S → Stream S
  advance s step = record {
    state = step.next;
    input = drop step.consumed s.input;
    avail_out = s.avail_out - length step.produced;
    out = s.out ++ step.produced;
  }

  abbrev pub call : Coder R S → Stream S → Step R S
  call code s = code s.state s.input s.avail_out

  -- A loop around calls of a library: the test before a call and the test of its answer leave it
  -- with a value.
  unfoldable pub code_loop :
      {X : Type 0}
      → ℕ
      → (Stream S → Option X)
      → Coder R S
      → (R → Stream S → Option X)
      → Stream S
      → Option (X × Stream S)
  code_loop zero before code after s = none
  code_loop (suc fuel) before code after s =
      let step = call code s in
      let t = advance s step in
      let rest = code_loop fuel before code after t in
      or_rest (before s) s (or_rest (after step.ret t) t rest)
