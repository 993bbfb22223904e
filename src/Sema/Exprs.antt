-- ===== src/Sema/Exprs.antt =====
-- src/hir/Sema.cpp: `checkExpr` and `checkBlock`, by the kind of expression.
use gura.Prelude.{ℕ, Bool, true, false, ◌&&◌, ◌+◌, List, [], ◌∷◌, if◌then◌else◌}
use gura.Ast.{
  Text, Node, Expr, Block, Exprs, FieldInits, block_expr, no_exprs, exprs, no_inits, inits,
}
use gura.Ast.{
  null, literal, name, binary, assign, field_access, array_literal, index, binding, move, new, call,
  freeze, merge, if_expr, while_expr, block, region, return,
}
use gura.Hir.{HirType, invalid_type, unit_type}
use gura.Hir.Paths.{contains_string}
use gura.Sema.{
  StructInfo, ValueContext, ordinary, operand, M, ◌>>=◌, ◌>>◌, pure, report, fail_with, unless_null,
  span_or,
}
use gura.Sema.Scopes.{in_scope}
use gura.Sema.Rules.{check_literal, check_name, check_move}
use gura.Sema.Init.{check_init, check_new}
use gura.Sema.Access.{
  check_binding, check_name_assign, check_field_access, check_field_assign, check_index,
  check_index_assign, check_next_element, check_array_literal,
}
use gura.Sema.Control.{
  check_binary, check_return, check_if, check_while, check_region, check_freeze, check_merge,
}
use gura.Sema.Calls.{check_argument, check_call}

abbrev is_empty_inits : FieldInits → Bool
is_empty_inits no_inits = true
is_empty_inits (inits n t e r) = false

abbrev count : Exprs → ℕ
count no_exprs = 0
count (exprs e es) = count es + 1

-- The fields that are initialized, with one more.
abbrev with_field : Text → List Text → List Text
with_field t initialized = if contains_string initialized t then initialized else t ∷ initialized

unfoldable mutual
  unfolding check_literal check_name check_move check_init check_new check_binding check_name_assign
      check_field_access check_field_assign check_index check_index_assign check_next_element
      check_array_literal check_binary check_return check_if check_while check_region check_freeze
      check_merge check_argument check_call in_scope report fail_with invalid_type unit_type
      contains_string

  -- `checkExpr`; there is no call of it for an empty pointer.
  pub check_expr : Expr → ValueContext → M HirType
  check_expr null context = pure invalid_type
  check_expr (literal n kind value suffix) context = pure (check_literal kind suffix)
  check_expr (name n t) context = check_name n t context
  check_expr (binary n op l r) context =
      check_binary n op l r (check_expr l ordinary) (check_expr r ordinary)
  check_expr (assign n target value) context = do
    v ← unless_null value unit_type (check_expr value ordinary)
    check_target target n value v
  check_expr (field_access n o f) context = check_field_access n o f (check_expr o operand)
  check_expr (array_literal n es) context = check_elements es n
  check_expr (index n o i) context =
      check_index n o i (check_expr o operand) (check_expr i ordinary)
  check_expr (binding n v t type e) context = check_binding n v t type e (check_expr e ordinary)
  check_expr (move n e) context = check_move n e
  check_expr (new n type strategy fields) context =
      check_new n type strategy (is_empty_inits fields)
        (λ result info. check_inits fields result info [])
  check_expr (call n callee es) context =
      check_call n callee (count es) (check_object callee) (λ params. check_arguments es 1 params)
  check_expr (freeze n e) context = check_freeze n e (check_expr e ordinary)
  check_expr (merge n e) context = check_merge n e (check_expr e ordinary)
  check_expr (if_expr n c t e) context =
      check_if n c e (check_expr c ordinary) (check_block t) (check_expr e ordinary)
  check_expr (while_expr n c b) context = check_while n c (check_expr c ordinary) (check_block b)
  check_expr (block b) context = check_block b
  check_expr (region n kind source t b) context = check_region n kind source t (check_block b)
  check_expr (return n e) context = check_return n e (check_expr e ordinary)

  -- `checkAssign` behind the check of the value, by what stands left of `=`.
  pub check_target : Expr → Node → Expr → HirType → M HirType
  check_target (name p t) n value v = check_name_assign n t p.span (span_or value n.span) v
  check_target (field_access p o f) n value v =
      check_field_assign p o f value v (span_or value n.span) (check_expr o operand)
  check_target (index p o i) n value v =
      check_index_assign p o i v (span_or value n.span) (check_expr o operand)
        (check_expr i ordinary)
  check_target _ n value v =
      fail_with invalid_type n.span "assignment target must be a binding, field, or index" []

  -- The object of a callee that is a field access.
  pub check_object : Expr → M HirType
  check_object (field_access p o f) = check_expr o operand
  check_object _ = pure invalid_type

  pub check_block : Block → M HirType
  check_block (block_expr n es) = in_scope (check_sequence es unit_type)

  -- The expressions of a block; the type of the last.
  pub check_sequence : Exprs → HirType → M HirType
  check_sequence no_exprs result = pure result
  check_sequence (exprs e es) result = do
    t ← unless_null e result (check_expr e ordinary)
    check_sequence es t

  pub check_elements : Exprs → Node → M HirType
  check_elements no_exprs n =
      fail_with invalid_type n.span "cannot infer empty array literal type" []
  check_elements (exprs e es) n =
      check_array_literal n e (count es + 1) (check_expr e ordinary)
        (λ element. check_next_elements es n element)

  pub check_next_elements : Exprs → Node → HirType → M (Unit {0})
  check_next_elements no_exprs n element = pure tt
  check_next_elements (exprs e es) n element = do
    check_next_element n element e (check_expr e ordinary)
    check_next_elements es n element

  -- The arguments from the `i`-th on, against the types of the parameters from there on.
  pub check_arguments : Exprs → ℕ → List HirType → M Bool
  check_arguments no_exprs i params = pure true
  check_arguments (exprs e es) i [] = do
    unless_null e tt (do t ← check_expr e ordinary; pure tt)
    check_arguments es (i + 1) []
  check_arguments (exprs e es) i (p ∷ ps) = do
    ok ← check_argument i p e (check_expr e ordinary)
    rest ← check_arguments es (i + 1) ps
    pure (ok && rest)

  pub check_inits : FieldInits → HirType → StructInfo → List Text → M (List Text)
  check_inits no_inits result info initialized = pure initialized
  check_inits (inits n t e rest) result info initialized = do
    check_init result info initialized n t e (check_expr e ordinary)
    check_inits rest result info (with_field t initialized)
