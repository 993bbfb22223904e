-- ===== src/Region/Tests.antt =====
-- The region verifier (src/region/RegionVerifier.cpp) on concrete instructions.
use gura.Prelude.{◌≡◌, refl, false, [], ◌∷◌}
use gura.Region.{
  Opcode, Instruction, RegionModule, RegionVerifier, verify, load, enter, exit, explore_enter,
  explore_exit,
}

abbrev instruction : Opcode → Instruction
instruction o = record { opcode = o; operands = [] }

abbrev nested : RegionModule
nested = record {
  instructions =
      instruction enter
      ∷ instruction explore_enter
      ∷ instruction load
      ∷ instruction explore_exit
      ∷ instruction exit
      ∷ [];
}

abbrev verifier : RegionVerifier
verifier = record { errors = "unclosed region enter" ∷ [] }

rejects_unclosed : (verify (record { instructions = instruction enter ∷ [] }) verifier).0 ≡ false
unfolding verify
rejects_unclosed = refl
