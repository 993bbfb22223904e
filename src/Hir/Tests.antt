-- ===== src/Hir/Tests.antt =====
-- The types of the semantic analysis at concrete inputs.
use gura.Prelude.{◌≡◌, refl, inl, false}
use gura.Basic.{codes}
use gura.Hir.{
  HirType, plain, mut, paused, no_capability, adapt_field_access, is_plain_value_type,
  is_writable_receiver, capability_of, imm,
}
use gura.Hir.Laws.{adapt_field_access-writable, adapt_field_access-plain}

abbrev cell : HirType
cell = plain mut (codes "Cell")

abbrev seen : HirType
seen = plain paused (codes "Node")

abbrev frozen : HirType
frozen = plain imm (codes "Node")

abbrev pair : HirType
pair = plain no_capability (codes "Pair")

adapt_field_access-writable_example :
    is_writable_receiver (capability_of (adapt_field_access seen cell)) ≡ false
unfolding capability_of
adapt_field_access-writable_example = adapt_field_access-writable seen cell (inl refl)

adapt_field_access-plain_example : adapt_field_access (adapt_field_access frozen pair) cell ≡ cell
unfolding is_plain_value_type
adapt_field_access-plain_example = adapt_field_access-plain frozen pair cell refl
