-- ===== src/Sema/Control.antt =====
-- src/hir/Sema.cpp: operators, branches, loops and region blocks.
use gura.Hir.Paths.{is_empty}
use gura.Prelude.{
  Bool, true, false, not, ◌&&◌, ◌||◌, Option, none, some, List, [], ◌∷◌, ◌==◌, if◌then◌else◌,
  String,
}
use gura.Basic.{Span}
use gura.Ast.{Text, Node, Expr, RegionKind, expr_node, is_null}
use gura.Hir.{
  HirType, Capability, capability_of, name_of, is_array, is_invalid, is_bool, is_plain_i64,
  is_integer_type, is_numeric_type, is_region_local, is_writable_receiver, same_type,
  same_nominal_type, same_capability, adapt_field_access, invalid_type, unit_type, bool_type,
  none_type, cstring_type, numeric_type, array_type,
}
use gura.Hir
use gura.Hir.Paths.{is_text, as_name_expr, is_move}
use gura.Sema.{
  Binding, BindingOrigin, available, normal, ValueContext, EscapeTarget, M, ◌>>=◌, ◌>>◌, pure, gets,
  lookup_table, report_if, fail_with, unless_null, span_or, text,
}
use gura.Sema.Scopes.{Slot, declare, lookup, borrowed, in_scope, suspending, deeper, is_enter}
use gura.Sema.Rules.{check_name}
use gura.Sema.Types.{check_escape}

abbrev is_any : Text → List String → Bool
is_any op [] = false
is_any op (s ∷ ss) = is_text op s || is_any op ss

-- The type of an operation on operands that are not invalid.
unfoldable pub binary_type : Span → Text → (lhs rhs : HirType) → M HirType
unfolding fail_with same_type is_numeric_type is_integer_type bool_type invalid_type
binary_type span op lhs rhs =
    if is_any op ("+" ∷ "-" ∷ "*" ∷ "/" ∷ [])
    then (if not (same_type lhs rhs) || not (is_numeric_type lhs)
        then fail_with invalid_type span "operator '{}' requires matching numeric operands"
            (text op ∷ [])
        else pure lhs)
    else if is_text op "%"
    then (if not (same_type lhs rhs) || not (is_integer_type lhs)
        then fail_with invalid_type span "operator '%' requires matching integer operands" []
        else pure lhs)
    else if is_any op ("==" ∷ "!=" ∷ [])
    then (if not (same_type lhs rhs)
        then fail_with invalid_type span "operator '{}' requires matching operand types"
            (text op ∷ [])
        else pure bool_type)
    else if is_any op ("<" ∷ "<=" ∷ ">" ∷ ">=" ∷ [])
    then (if not (same_type lhs rhs) || not (is_numeric_type lhs)
        then fail_with invalid_type span "operator '{}' requires matching numeric operands"
            (text op ∷ [])
        else pure bool_type)
    else fail_with invalid_type span "unsupported binary operator '{}'" (text op ∷ [])

unfoldable pub check_binary :
    Node → Text → (lhs rhs : Expr) → (check_lhs check_rhs : M HirType) → M HirType
unfolding binary_type is_invalid invalid_type
check_binary node op lhs rhs check_lhs check_rhs = do
  l ← unless_null lhs invalid_type check_lhs
  r ← unless_null rhs invalid_type check_rhs
  if is_invalid l || is_invalid r then pure invalid_type else binary_type node.span op l r

unfoldable pub check_return : Node → Expr → M HirType → M HirType
unfolding check_escape lookup_table report_if same_type unit_type name_of
check_return node value check = do
  actual ← unless_null value unit_type check
  ok ← check_escape actual EscapeTarget.return_value 0 node.span
  expected ← lookup_table (λ t. t.return_type)
  report_if (not (same_type expected actual)) node.span
      "return type '{}' does not match function return type '{}'"
      (text (name_of actual) ∷ text (name_of expected) ∷ [])
  pure actual

-- The condition of `if` and `while`.
unfoldable pub check_condition : Node → Expr → String → M HirType → M (Unit {0})
unfolding report_if is_invalid is_bool invalid_type
check_condition node condition message check = do
  t ← unless_null condition invalid_type check
  report_if (not (is_invalid t) && not (is_bool t)) (span_or condition node.span) message []

unfoldable pub check_if :
    Node
    → (condition else_branch : Expr) → (check_condition check_then check_else : M HirType)
    → M HirType
unfolding check_condition fail_with same_type unit_type invalid_type name_of
check_if node condition else_branch condition_type then_type else_type = do
  check_condition node condition "if condition must be bool" condition_type
  t ← then_type
  if is_null else_branch then pure unit_type else do
    e ← else_type
    if not (same_type t e)
        then fail_with invalid_type node.span
            "if branch type '{}' does not match else branch type '{}'"
            (text (name_of t) ∷ text (name_of e) ∷ [])
        else pure t

unfoldable pub check_while : Node → Expr → (check_condition check_body : M HirType) → M HirType
unfolding check_condition unit_type
check_while node condition condition_type body = do
  check_condition node condition "while condition must be bool" condition_type
  t ← body
  pure unit_type

abbrev bridge_capability : RegionKind → Capability
bridge_capability RegionKind.enter = Capability.mut
bridge_capability RegionKind.explore = Capability.paused

-- The binding of the bridge in a region block.
unfoldable pub declare_bridge : Node → RegionKind → HirType → Text → M (Unit {0})
unfolding declare gets is_invalid name_of
declare_bridge node kind source n = do
  depth ← gets (λ s. s.region_depth)
  if is_empty n || is_invalid source
      then pure tt
      else declare n (record {
        type = Hir.HirType.plain (bridge_capability kind) (name_of source);
        is_var = is_enter kind;
        availability = available;
        view = normal;
        span = node.span;
        origin = BindingOrigin.region_bridge;
        region_depth = depth;
        bridge_slot = true;
        bridge_reassigned = false;
      })

-- The binding of the source, where it is a name.
unfoldable pub find_source : Option Text → M (Option (Slot × Binding))
unfolding lookup
find_source none = pure none
find_source (some n) = lookup n

abbrev pub source_type : Expr → Option Text → M HirType
source_type e none = pure invalid_type
source_type e (some n) = check_name (expr_node e) n ValueContext.operand

abbrev pub is_found : Option (Slot × Binding) → Bool
is_found none = false
is_found (some b) = true

unfoldable pub check_region : Node → RegionKind → Expr → Text → M HirType → M HirType
unfolding find_source check_name declare_bridge borrowed deeper in_scope suspending check_escape
    report_if gets as_name_expr invalid_type same_capability capability_of
check_region node kind source n body = do
  found ← find_source (as_name_expr source)
  t ← source_type source (as_name_expr source)
  report_if (not (is_found found) || not (same_capability (capability_of t) Capability.iso))
      (span_or source node.span) "enter/explore source must be an iso binding" []
  result ←
      borrowed found (deeper kind (in_scope (suspending (do declare_bridge node kind t n; body))))
  depth ← gets (λ s. s.region_depth)
  ok ← check_escape result EscapeTarget.region_block_result depth node.span
  pure result

unfoldable pub check_freeze : Node → Expr → M HirType → M HirType
unfolding fail_with is_move invalid_type same_capability capability_of name_of
check_freeze node value check =
    if not (is_move value)
    then fail_with invalid_type (span_or value node.span) "freeze requires move of an iso value" []
    else do
      input ← check
      if not (same_capability (capability_of input) Capability.iso)
          then fail_with invalid_type (span_or value node.span) "freeze requires an iso value" []
          else pure (Hir.HirType.plain Capability.imm (name_of input))

unfoldable pub check_merge : Node → Expr → M HirType → M HirType
unfolding fail_with report_if gets is_move invalid_type same_capability capability_of name_of
check_merge node value check =
    if not (is_move value)
    then fail_with invalid_type (span_or value node.span) "merge requires move of an iso value" []
    else do
      depth ← gets (λ s. s.mutable_region_depth)
      report_if (depth == 0) node.span "merge requires an active region" []
      input ← check
      if not (same_capability (capability_of input) Capability.iso)
          then fail_with invalid_type (span_or value node.span) "merge requires an iso value" []
          else pure (Hir.HirType.plain Capability.mut (name_of input))
