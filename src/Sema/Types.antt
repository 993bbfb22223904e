-- ===== src/Sema/Types.antt =====
-- src/hir/Sema.cpp: types of the syntax tree, values that escape, and signatures.
use gura.Prelude.{
  ℕ, Bool, true, false, not, ◌&&◌, ◌||◌, Option, none, some, List, [], ◌∷◌, if◌then◌else◌, ltb,
  String,
}
use gura.Basic.{Span}
use gura.Ast.{Text, TypeRef, TypeInfo, plain, array, type_info}
use gura.Ast
use gura.Hir.{
  HirType, Capability, capability_of, array_type, is_array, is_plain_i64, is_invalid,
  is_region_local, same_type, same_capability,
}
use gura.Hir
use gura.Hir.Paths.{join_path}
use gura.Sema.{MethodInfo, EscapeTarget, M, ◌>>=◌, ◌>>◌, pure, gets, report_if, fail_with}
use gura.Sema.{
  return_value, local_binding, outer_binding, field, region_block_result, spawn_arg,
  closure_capture,
}

unfoldable pub capability_from_ast : Ast.Capability → Capability
capability_from_ast Ast.Capability.mut = Capability.mut
capability_from_ast Ast.Capability.tmp = Capability.tmp
capability_from_ast Ast.Capability.iso = Capability.iso
capability_from_ast Ast.Capability.imm = Capability.imm
capability_from_ast Ast.Capability.paused = Capability.paused
capability_from_ast Ast.Capability.cown = Capability.cown
capability_from_ast Ast.Capability.no_capability = Capability.no_capability

abbrev is_long : List Text → Bool
is_long [] = false
is_long (x ∷ []) = false
is_long (x ∷ y ∷ ys) = true

unfoldable pub type_from_ast : TypeRef → M HirType
unfolding capability_from_ast array_type is_array is_plain_i64 report_if
type_from_ast (array i e) = do
  element ← type_from_ast e
  report_if (is_array element) (type_info e).node.span "nested arrays are not supported yet" []
  report_if (not (is_plain_i64 element)) (type_info e).node.span
      "arrays currently support only i64 elements" []
  pure (array_type (capability_from_ast i.capability) element none)
type_from_ast (plain i) = pure (
    Hir.HirType.plain (capability_from_ast i.capability)
      (if is_long i.path then join_path i.path else i.name))

-- `type ? typeFromAst(*type) : d`
unfoldable pub type_or : HirType → Option TypeRef → M HirType
unfolding type_from_ast
type_or d none = pure d
type_or d (some t) = type_from_ast t

-- Whether a value may go to the target from the depth `depth`.
unfoldable pub may_escape : (depth target_depth : ℕ) → HirType → EscapeTarget → Bool
unfolding is_region_local capability_of
may_escape depth target_depth value return_value =
    not (ltb 0 depth && is_region_local (capability_of value))
may_escape depth target_depth value outer_binding =
    not (is_region_local (capability_of value) && ltb target_depth depth)
may_escape depth target_depth value field = not (
    same_capability (capability_of value) Capability.paused
    || same_capability (capability_of value) Capability.tmp)
may_escape depth target_depth value region_block_result =
    not (is_region_local (capability_of value))
may_escape depth target_depth value local_binding = true
may_escape depth target_depth value spawn_arg = true
may_escape depth target_depth value closure_capture = true

abbrev escape_message : EscapeTarget → String
escape_message field = "temporary or paused value cannot be stored in a regular field"
escape_message region_block_result = "region block cannot return mut/tmp/paused values"
escape_message _ = "region-local value cannot escape its region"

unfoldable pub check_escape : HirType → EscapeTarget → ℕ → Span → M Bool
unfolding may_escape is_invalid gets fail_with
check_escape value target target_depth span = do
  depth ← gets (λ s. s.region_depth)
  if is_invalid value || may_escape depth target_depth value target
      then pure true
      else fail_with false span (escape_message target) []

unfoldable pub same_types : List HirType → List HirType → Bool
unfolding same_type
same_types [] [] = true
same_types (x ∷ xs) (y ∷ ys) = same_type x y && same_types xs ys
same_types _ _ = false

abbrev same_bool : Bool → Bool → Bool
same_bool true b = b
same_bool false b = not b

unfoldable pub same_method_signature : (expected actual : MethodInfo) → Bool
unfolding same_types same_type same_capability capability_of
same_method_signature expected actual =
    same_bool expected.has_receiver actual.has_receiver
    && ((not expected.has_receiver
          || same_capability (capability_of expected.receiver_type)
              (capability_of actual.receiver_type))
        && (same_types expected.params actual.params
            && same_type expected.return_type actual.return_type))
