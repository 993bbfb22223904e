-- ===== src/Sema/Rules.antt =====
-- src/hir/Sema.cpp: the checks of single constructs. What a construct asks of its parts is given as
-- actions: the check of a part that is there, and the default for one that is not.
use gura.Prelude.{Bool, true, false, ◌&&◌, Option, none, some, [], ◌∷◌, if◌then◌else◌}
use gura.Basic.{Span, codes}
use gura.Ast.{Text, Node, Expr, LiteralKind, expr_node}
use gura.Hir.{
  HirType, Capability, capability_of, same_capability, invalid_type, bool_type, none_type,
  cstring_type, numeric_type,
}
use gura.Hir.Paths.{as_name_expr}
use gura.Sema.{
  Binding, BindingAvailability, available, moved, open_borrowed, ValueContext, M, ◌>>=◌, ◌>>◌, pure,
  fail_with, text,
}
use gura.Sema.Scopes.{Slot, lookup, set_slot, set_availability}

unfoldable pub check_literal : LiteralKind → Text → HirType
unfolding bool_type none_type cstring_type numeric_type invalid_type
check_literal LiteralKind.bool suffix = bool_type
check_literal LiteralKind.none_literal suffix = none_type
check_literal LiteralKind.integer [] = numeric_type (codes "i64")
check_literal LiteralKind.integer (c ∷ cs) = numeric_type (c ∷ cs)
check_literal LiteralKind.float [] = numeric_type (codes "f64")
check_literal LiteralKind.float (c ∷ cs) = numeric_type (c ∷ cs)
check_literal LiteralKind.string suffix = cstring_type
check_literal LiteralKind.char suffix = invalid_type

abbrev is_ordinary : ValueContext → Bool
is_ordinary ValueContext.ordinary = true
is_ordinary ValueContext.operand = false

-- What a name may be used for, by the availability of its binding.
abbrev pub use_binding : Text → Span → ValueContext → Binding → BindingAvailability → M HirType
use_binding n span context b moved =
    fail_with invalid_type span "binding '{}' was already moved" (text n ∷ [])
use_binding n span context b open_borrowed =
    fail_with invalid_type span "binding '{}' is currently open-borrowed" (text n ∷ [])
use_binding n span context b available =
    if is_ordinary context && same_capability (capability_of b.type) Capability.iso
    then fail_with invalid_type span "cannot copy iso binding '{}'; use move" (text n ∷ [])
    else pure b.type

abbrev pub use_found : Text → Span → ValueContext → Option (Slot × Binding) → M HirType
use_found n span context none = fail_with invalid_type span "undefined binding '{}'" (text n ∷ [])
use_found n span context (some (p, b)) = use_binding n span context b b.availability

unfoldable pub check_name : Node → Text → ValueContext → M HirType
unfolding lookup fail_with invalid_type same_capability capability_of
check_name node n context = do found ← lookup n; use_found n node.span context found

abbrev pub move_binding : Text → Span → Slot → Binding → BindingAvailability → M HirType
move_binding n span p b moved =
    fail_with invalid_type span "binding '{}' was already moved" (text n ∷ [])
move_binding n span p b open_borrowed =
    fail_with invalid_type span "binding '{}' is currently open-borrowed" (text n ∷ [])
move_binding n span p b available = do set_slot p (set_availability moved); pure b.type

abbrev pub move_found : Text → Span → Option (Slot × Binding) → M HirType
move_found n span none = fail_with invalid_type span "undefined binding '{}'" (text n ∷ [])
move_found n span (some (p, b)) = move_binding n span p b b.availability

abbrev pub move_name : Option Text → Span → Span → M HirType
move_name none span name_span =
    fail_with invalid_type span "move currently requires a binding name" []
move_name (some n) span name_span = do found ← lookup n; move_found n name_span found

unfoldable pub check_move : Node → Expr → M HirType
unfolding lookup set_slot fail_with invalid_type as_name_expr
check_move node value = move_name (as_name_expr value) node.span (expr_node value).span
