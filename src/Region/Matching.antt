-- ===== src/Region/Matching.antt =====
-- src/region/RegionVerifier.cpp: what the verifier accepts.
use gura.Prelude.{ℕ, zero, suc, ◌≡◌, true, false, List, [], ◌∷◌, ◌++◌, String}
use gura.Region.{Instruction, Progress, is_opening, is_closing, walk, finish, is_empty}

-- Every opening instruction has the closing one that stands behind what is matched in between.
pub data Matched : List Instruction → Type 0 where
  empty : Matched []
  other :
      {i : Instruction} {is : List Instruction}
      → is_opening i.opcode ≡ false
      → is_closing i.opcode ≡ false
      → Matched is
      → Matched (i ∷ is)
  pair :
      (a b : Instruction) (is js : List Instruction)
      → is_opening a.opcode ≡ true
      → is_closing b.opcode ≡ true
      → Matched is
      → Matched js
      → Matched (a ∷ (is ++ (b ∷ js)))

abbrev progress : ℕ → List String → Progress
progress depth errors = record { depth = depth; errors = errors }

-- At depth `d`: matched instructions, `d` times with a closing one behind them.
abbrev Closes : ℕ → List Instruction → Type 0
Closes zero is = Matched is
Closes (suc d) is =
    (xs : List Instruction) × (b : Instruction) × (ys : List Instruction) × (is ≡ xs ++ (b ∷ ys))
    × Matched xs
    × (is_closing b.opcode ≡ true)
    × Closes d ys

abbrev Accepts : List Instruction → Progress → Type 0
Accepts is s = is_empty (finish (walk is s)) ≡ true
