-- ===== src/Region.antt =====
-- include/gura/region/RegionIR.h, src/region/RegionIR.cpp and src/region/RegionVerifier.cpp: the
-- instructions on regions, and the check that they open and close regions in pairs.
pub mod Matching
mod Tests
use gura.Prelude.{
  ℕ, ◌+◌, ◌-◌, Bool, true, false, ◌&&◌, List, [], ◌∷◌, ◌++◌, ◌==◌, if◌then◌else◌, String,
}

pub data Opcode : Type 0 where
  load swap move : Opcode
  alloc_mut alloc_tmp alloc_iso : Opcode
  enter exit explore_enter explore_exit : Opcode
  freeze merge : Opcode
  cown_new cown_acquire cown_release : Opcode
  spawn topology_assert : Opcode

abbrev pub opcode_name : Opcode → String
opcode_name load = "load"
opcode_name swap = "swap"
opcode_name move = "move"
opcode_name alloc_mut = "alloc_mut"
opcode_name alloc_tmp = "alloc_tmp"
opcode_name alloc_iso = "alloc_iso"
opcode_name enter = "enter"
opcode_name exit = "exit"
opcode_name explore_enter = "explore_enter"
opcode_name explore_exit = "explore_exit"
opcode_name freeze = "freeze"
opcode_name merge = "merge"
opcode_name cown_new = "cown_new"
opcode_name cown_acquire = "cown_acquire"
opcode_name cown_release = "cown_release"
opcode_name spawn = "spawn"
opcode_name topology_assert = "topology_assert"

pub record Instruction : Type 0 where
  pub opcode : Opcode
  pub operands : List String

-- `struct Module`, whose one field is its instructions.
pub record RegionModule : Type 0 where
  pub instructions : List Instruction

pub record RegionVerifier : Type 0 where
  pub errors : List String

abbrev pub is_opening : Opcode → Bool
is_opening enter = true
is_opening explore_enter = true
is_opening _ = false

abbrev pub is_closing : Opcode → Bool
is_closing exit = true
is_closing explore_exit = true
is_closing _ = false

-- The depth and the errors; the depth is below zero in no round of the loop, and a decrement that
-- would make it negative sets it to zero.
pub record Progress : Type 0 where
  pub depth : ℕ
  pub errors : List String

unfoldable pub round : Opcode → Progress → Progress
round o s =
    if is_opening o
    then record s { depth = s.depth + 1 }
    else if is_closing o
    then (if s.depth == 0
        then record { depth = 0; errors = s.errors ++ ("region exit without matching enter" ∷ []) }
        else record s { depth = s.depth - 1 })
    else s

unfoldable pub walk : List Instruction → Progress → Progress
unfolding round
walk [] s = s
walk (i ∷ is) s = walk is (round i.opcode s)

-- `if (depth != 0) errors_.push_back(…)`
unfoldable pub finish : Progress → List String
finish s = if s.depth == 0 then s.errors else s.errors ++ ("unclosed region enter" ∷ [])

abbrev pub is_empty : List String → Bool
is_empty [] = true
is_empty (e ∷ es) = false

-- The errors of the module before are cleared.
unfoldable pub verify : RegionModule → RegionVerifier → Bool × RegionVerifier
unfolding walk finish
verify m v =
    let errors = finish (walk m.instructions (record { depth = 0; errors = [] })) in
    (is_empty errors, record v { errors = errors })
