-- ===== src/Sema/Access.antt =====
-- src/hir/Sema.cpp: bindings, assignments, fields, arrays and elements.
use gura.Prelude.{
  ℕ, Bool, true, false, not, ◌&&◌, Option, none, some, [], ◌∷◌, if◌then◌else◌, ltb, String,
}
use gura.Basic.{Span, same_text}
use gura.Ast.{Text, Node, Expr, TypeRef}
use gura.Hir.{
  HirType, Capability, capability_of, name_of, is_array, is_invalid, is_bool, is_plain_i64,
  is_integer_type, is_numeric_type, is_region_local, is_writable_receiver, same_type,
  same_nominal_type, same_capability, adapt_field_access, invalid_type, unit_type, bool_type,
  none_type, cstring_type, numeric_type, array_type,
}
use gura.Hir
use gura.Hir.Paths.{is_move}
use gura.Sema.{
  Binding, BindingOrigin, available, normal, StructInfo, FieldInfo, EscapeTarget, M, ◌>>=◌, ◌>>◌,
  pure, gets, lookup_table, report_if, fail_with, find, has_key, unless_null, span_or, text,
  type_named,
}
use gura.Sema.Scopes.{Slot, declare, lookup, set_slot}
use gura.Sema.Types.{type_or, check_escape}

abbrev with_length : HirType → HirType → HirType
with_length (Hir.HirType.array c n e k) (Hir.HirType.array d m f (some j)) =
    Hir.HirType.array c n e (some j)
with_length t u = t

abbrev origin_of : HirType → ℕ → BindingOrigin
origin_of init depth =
    if is_region_local (capability_of init) && ltb 0 depth
    then BindingOrigin.region_local
    else BindingOrigin.ordinary

unfoldable pub check_binding : Node → Bool → Text → Option TypeRef → Expr → M HirType → M HirType
unfolding type_or same_nominal_type check_escape declare gets report_if unit_type is_region_local
    capability_of
check_binding node is_var n type initializer check = do
  init ← unless_null initializer unit_type check
  declared ← type_or init type
  report_if (elim type [ none ↦ false | some t ↦ not (same_nominal_type declared init) ]) node.span
      "initializer type '{}' does not match declared type '{}'"
      (type_named init ∷ type_named declared ∷ [])
  depth ← gets (λ s. s.region_depth)
  ok ← check_escape init EscapeTarget.local_binding depth (span_or initializer node.span)
  declare n (record {
    type = with_length declared init;
    is_var = is_var;
    availability = available;
    view = normal;
    span = node.span;
    origin = origin_of init depth;
    region_depth = depth;
    bridge_slot = false;
    bridge_reassigned = false;
  })
  pure unit_type

abbrev pub make_available : Binding → Binding
make_available b = record b { availability = available }

abbrev pub reassign_bridge : Binding → Binding
reassign_bridge b = record b { availability = available; bridge_reassigned = true }

-- An assignment to the bridge of a region block.
unfoldable pub assign_bridge : Node → Text → Span → HirType → Slot → Binding → M HirType
unfolding set_slot fail_with invalid_type unit_type same_capability capability_of name_of
assign_bridge node n value_span value p b =
    if not (same_capability (capability_of b.type) Capability.mut)
    then fail_with invalid_type node.span "cannot reassign explore bridge '{}'" (text n ∷ [])
    else if not (same_capability (capability_of value) Capability.mut)
    then fail_with invalid_type value_span "enter bridge reassignment requires a mut value" []
    else if not (same_text (name_of b.type) (name_of value))
    then fail_with invalid_type value_span
        "enter bridge reassignment must preserve bridge type in this milestone" []
    else (do set_slot p reassign_bridge; pure unit_type)

unfoldable pub assign_binding : Node → Text → Span → HirType → Slot → Binding → M HirType
unfolding check_escape set_slot fail_with invalid_type unit_type same_type name_of
assign_binding node n value_span value p b = do
  ok ← check_escape value EscapeTarget.outer_binding b.region_depth value_span
  if not ok
      then pure invalid_type
      else if not (same_type b.type value)
      then fail_with invalid_type value_span "assignment type '{}' does not match binding type '{}'"
          (text (name_of value) ∷ text (name_of b.type) ∷ [])
      else (do set_slot p make_available; pure unit_type)

abbrev pub assign_found : Node → Text → Span → Span → HirType → Option (Slot × Binding) → M HirType
assign_found node n name_span value_span value none =
    fail_with invalid_type name_span "undefined binding '{}'" (text n ∷ [])
assign_found node n name_span value_span value (some (p, b)) =
    if not b.is_var
    then fail_with invalid_type node.span "cannot assign to let binding '{}'" (text n ∷ [])
    else if b.bridge_slot
    then assign_bridge node n value_span value p b
    else assign_binding node n value_span value p b

unfoldable pub check_name_assign : Node → Text → Span → Span → HirType → M HirType
unfolding lookup assign_bridge assign_binding fail_with invalid_type
check_name_assign node n name_span value_span value = do
  found ← lookup n
  assign_found node n name_span value_span value found

abbrev pub field_found :
    HirType → Text → Span → (HirType → FieldInfo → M HirType) → Option FieldInfo → M HirType
field_found object n span k none =
    fail_with invalid_type span "type '{}' has no field '{}'" (text (name_of object) ∷ text n ∷ [])
field_found object n span k (some field) = k object field

abbrev pub struct_found :
    HirType → Text → Span → (HirType → FieldInfo → M HirType) → Option StructInfo → M HirType
struct_found object n span k none =
    fail_with invalid_type span "type '{}' has no fields" (text (name_of object) ∷ [])
struct_found object n span k (some info) = field_found object n span k (find n info.fields)

-- A field of the struct that a type names.
unfoldable pub find_field : HirType → Text → Span → (HirType → FieldInfo → M HirType) → M HirType
unfolding lookup_table find fail_with invalid_type name_of
find_field object n span k = do
  structs ← lookup_table (λ t. t.structs)
  struct_found object n span k (find (name_of object) structs)

unfoldable pub read_field : Span → Text → HirType → FieldInfo → M HirType
unfolding fail_with invalid_type adapt_field_access same_capability capability_of
read_field span n object field =
    if same_capability (capability_of field.type) Capability.iso
    then fail_with invalid_type span "cannot read iso field '{}'; use move or enter" (text n ∷ [])
    else pure (adapt_field_access object field.type)

unfoldable pub check_field_access : Node → Expr → Text → M HirType → M HirType
unfolding find_field read_field lookup_table has_key fail_with invalid_type is_invalid
    same_capability capability_of name_of
check_field_access node object n check = do
  t ← unless_null object invalid_type check
  generics ← lookup_table (λ t. t.generic_params)
  if is_invalid t
      then pure invalid_type
      else if same_capability (capability_of t) Capability.iso
      then fail_with invalid_type (span_or object node.span)
          "cannot access fields through iso without enter" []
      else if has_key (name_of t) generics
      then fail_with invalid_type node.span "cannot access field '{}' on generic type '{}'"
          (text n ∷ text (name_of t) ∷ [])
      else find_field t n node.span (read_field node.span n)

unfoldable pub write_field : Span → Text → Expr → HirType → Span → HirType → FieldInfo → M HirType
unfolding check_escape gets fail_with invalid_type unit_type same_type same_capability capability_of
    is_move
write_field span n e value value_span object field =
    if not field.is_var
    then fail_with invalid_type span "cannot assign to let field '{}'" (text n ∷ [])
    else do
      depth ← gets (λ s. s.region_depth)
      ok ← check_escape value EscapeTarget.field depth value_span
      if not ok
          then pure invalid_type
          else if same_capability (capability_of field.type) Capability.iso && not (is_move e)
          then fail_with invalid_type value_span "assignment to iso field '{}' requires move"
              (text n ∷ [])
          else if not (same_type field.type value)
          then fail_with invalid_type value_span
              "assignment type '{}' does not match field type '{}'"
              (type_named value ∷ type_named field.type ∷ [])
          else pure unit_type

-- `node` is that of the target, `check` the check of its object.
unfoldable pub check_field_assign :
    Node → Expr → Text → Expr → HirType → Span → M HirType → M HirType
unfolding find_field write_field fail_with invalid_type is_invalid is_writable_receiver
    capability_of
check_field_assign node object n e value value_span check = do
  t ← unless_null object invalid_type check
  if is_invalid t
      then pure invalid_type
      else if not (is_writable_receiver (capability_of t))
      then fail_with invalid_type (span_or object node.span)
          "field assignment requires a mut receiver" []
      else find_field t n node.span (write_field node.span n e value value_span)

abbrev pub element_of : Span → String → (HirType → HirType → M HirType) → HirType → M HirType
element_of span message k (Hir.HirType.plain c m) = fail_with invalid_type span message []
element_of span message k (Hir.HirType.array c m e l) = k (Hir.HirType.array c m e l) e

-- The element type of an array that is indexed, after the checks of both.
unfoldable pub check_element :
    Node
    → (object index : Expr) → String
    → M HirType
    → M HirType
    → (HirType → HirType → M HirType)
    → M HirType
unfolding report_if fail_with is_invalid is_integer_type invalid_type
check_element node object idx message check_object check_idx k = do
  t ← unless_null object invalid_type check_object
  i ← unless_null idx invalid_type check_idx
  report_if (not (is_invalid i) && not (is_integer_type i)) (span_or idx node.span)
      "array index must be an integer" []
  if is_invalid t then pure invalid_type else element_of (span_or object node.span) message k t

unfoldable pub check_index : Node → (object index : Expr) → M HirType → M HirType → M HirType
unfolding check_element
check_index node object idx check_object check_idx =
    check_element node object idx "indexing requires an array" check_object check_idx λ t e. pure e

unfoldable pub write_element : Node → Expr → HirType → Span → (array element : HirType) → M HirType
unfolding fail_with same_type same_capability capability_of invalid_type unit_type
write_element node object value value_span t element =
    if not (same_capability (capability_of t) Capability.mut)
    then fail_with invalid_type (span_or object node.span)
        "array index assignment requires a mut array" []
    else if not (same_type element value)
    then fail_with invalid_type value_span
        "assignment type '{}' does not match array element type '{}'"
        (type_named value ∷ type_named element ∷ [])
    else pure unit_type

unfoldable pub check_index_assign :
    Node → (object index : Expr) → HirType → Span → M HirType → M HirType → M HirType
unfolding check_element write_element
check_index_assign node object idx value value_span check_object check_idx =
    check_element node object idx "index assignment requires an array" check_object check_idx
      (write_element node object value value_span)

-- An element behind the first of an array literal.
unfoldable pub check_next_element : Node → HirType → Expr → M HirType → M (Unit {0})
unfolding report_if same_type invalid_type
check_next_element node element e check = do
  current ← unless_null e invalid_type check
  report_if (not (same_type element current)) (span_or e node.span)
      "array elements must have matching type" []

-- `rest` checks the elements behind the first, of which there are `count - 1`.
unfoldable pub check_array_literal :
    Node → Expr → ℕ → M HirType → (HirType → M (Unit {0})) → M HirType
unfolding report_if is_plain_i64 array_type invalid_type
check_array_literal node first count check rest = do
  element ← unless_null first invalid_type check
  report_if (not (is_plain_i64 element)) (span_or first node.span)
      "array literals currently require i64 elements" []
  rest element
  pure (array_type Capability.no_capability element (some count))
