-- ===== src/Sema/Init.antt =====
-- src/hir/Sema.cpp: `checkNew` and the initializers of fields.
use gura.Hir.Paths.{is_empty}
use gura.Prelude.{
  Bool, true, false, not, ◌&&◌, ◌||◌, Option, none, some, List, [], ◌∷◌, if◌then◌else◌,
}
use gura.Basic.{Span}
use gura.Ast.{Text, Node, Expr, TypeRef, type_info, expr_node, is_null}
use gura.Ast.{new}
use gura.Hir.{
  HirType, Capability, capability_of, name_of, is_invalid, same_type, same_capability, invalid_type,
  unit_type,
}
use gura.Hir.Paths.{contains_string, is_region_strategy, is_move}
use gura.Sema.{
  StructInfo, FieldInfo, M, ◌>>=◌, ◌>>◌, pure, lookup_table, report, report_if, fail_with, each,
  find, unless_null, span_or, text,
}
use gura.Sema.Types.{capability_from_ast, type_from_ast}

-- `isFreshMutConstructorExpr`
unfoldable pub is_fresh_mut_constructor : Expr → Bool
unfolding same_capability capability_from_ast
is_fresh_mut_constructor (new n t r fs) =
    same_capability (capability_from_ast (type_info t).capability) Capability.mut
is_fresh_mut_constructor _ = false

unfoldable pub check_iso_capability : Capability → Expr → Span → M Bool
unfolding is_fresh_mut_constructor is_move fail_with
check_iso_capability Capability.no_capability e span = pure true
check_iso_capability Capability.imm e span = pure true
check_iso_capability Capability.iso e span =
    if is_move e
    then pure true
    else fail_with false span "iso initializer field requires move of iso value" []
check_iso_capability Capability.mut e span =
    if is_fresh_mut_constructor e
    then pure true
    else fail_with false span "new iso initializer requires fresh mut constructor expression" []
check_iso_capability Capability.tmp e span =
    fail_with false span "tmp or paused value cannot initialize a new iso region" []
check_iso_capability Capability.paused e span =
    fail_with false span "tmp or paused value cannot initialize a new iso region" []
check_iso_capability Capability.cown e span =
    fail_with false span "unsupported new iso initializer capability" []

unfoldable pub check_iso_initializer_arg : Expr → (value field : HirType) → Span → M Bool
unfolding check_iso_capability is_invalid capability_of
check_iso_initializer_arg e value field span =
    if is_invalid value || is_invalid field
    then pure true
    else check_iso_capability (capability_of value) e span

unfoldable pub check_strategy : Span → Text → HirType → M (Unit {0})
unfolding report is_region_strategy same_capability capability_of
check_strategy span strategy result =
    if is_empty strategy
    then pure tt
    else if not (same_capability (capability_of result) Capability.iso)
    then report span "region allocation strategy requires an iso allocation" []
    else if not (is_region_strategy strategy)
    then report span "unknown region allocation strategy '{}'" (text strategy ∷ [])
    else pure tt

-- An initializer of the field that is there; `check` is the check of its value.
unfoldable pub check_field_value : HirType → FieldInfo → Node → Expr → M HirType → M (Unit {0})
unfolding check_iso_initializer_arg report_if same_type same_capability capability_of unit_type
    name_of
check_field_value result info node e check = do
  value ← unless_null e unit_type check
  (if same_capability (capability_of result) Capability.iso && not (is_null e)
      then (do ok ← check_iso_initializer_arg e value info.type (expr_node e).span; pure tt)
      else pure tt)
  report_if (not (same_type info.type value)) (span_or e node.span)
      "initializer type '{}' does not match field type '{}'"
      (text (name_of value) ∷ text (name_of info.type) ∷ [])

abbrev pub init_found : HirType → Node → Text → Expr → M HirType → Option FieldInfo → M (Unit {0})
init_found result node n e check none = do
  report node.span "type '{}' has no field '{}'" (text (name_of result) ∷ text n ∷ [])
  unless_null e tt (do t ← check; pure tt)
init_found result node n e check (some field) = check_field_value result field node e check

-- One initializer of the loop, where `initialized` are the fields before it.
unfoldable pub check_init :
    HirType → StructInfo → List Text → Node → Text → Expr → M HirType → M (Unit {0})
unfolding check_field_value report find contains_string name_of
check_init result info initialized node n e check =
    if contains_string initialized n
    then report node.span "field '{}' is initialized more than once" (text n ∷ [])
    else init_found result node n e check (find n info.fields)

unfoldable pub check_missing : Span → List Text → Text × FieldInfo → M (Unit {0})
unfolding report_if contains_string
check_missing span initialized (n, field) =
    report_if (not (contains_string initialized n)) span "missing initializer for field '{}'"
      (text n ∷ [])

abbrev pub new_found :
    Node
    → TypeRef
    → HirType
    → (HirType → StructInfo → M (List Text))
    → Option StructInfo
    → M HirType
new_found node type result inits none =
    fail_with invalid_type (type_info type).node.span "type '{}' has no fields"
      (text (name_of result) ∷ [])
new_found node type result inits (some info) = do
  initialized ← inits result info
  each (check_missing node.span initialized) info.fields
  pure result

-- `inits` checks the initializers of a struct in order, and returns the fields that they name.
unfoldable pub check_new :
    Node → TypeRef → Text → Bool → (HirType → StructInfo → M (List Text)) → M HirType
unfolding type_from_ast check_strategy check_missing lookup_table find fail_with each is_invalid
    name_of invalid_type
check_new node type strategy no_fields inits = do
  result ← type_from_ast type
  check_strategy node.span strategy result
  structs ← lookup_table (λ t. t.structs)
  if is_invalid result || no_fields
      then pure result
      else new_found node type result inits (find (name_of result) structs)
