-- ===== src/Sema/Preservation.antt =====
-- What `checkExpr` and `checkBlock` of src/hir/Sema.cpp leave as it is.
use gura.Prelude.{ℕ, true, List, [], ◌∷◌, ◌+◌, ◌&&◌}
use gura.Ast.{
  Text, Node, Expr, Exprs, Block, FieldInits, block_expr, no_exprs, exprs, no_inits, inits, null,
  literal, name, binary, assign, field_access, array_literal, index, binding, move, new, call,
  freeze, merge, if_expr, while_expr, block, region, return,
}
use gura.Hir.{HirType, unit_type}
use gura.Sema.{Sema, StructInfo, ValueContext, ordinary, operand}
use gura.Sema.Exprs.{
  check_expr, check_target, check_object, check_block, check_sequence, check_elements,
  check_next_elements, check_arguments, check_inits,
}
use gura.Sema.Effects.Fields.{
  check_field_access-Good, check_field_assign-Good, check_index-Good, check_index_assign-Good,
  check_next_element-Good, check_array_literal-Good,
}
use gura.Sema.Effects.{
  check_name-Good, check_move-Good, check_init-Good, check_new-Good, check_binding-Good,
  check_name_assign-Good,
}
use gura.Sema.CallEffects.{
  check_binary-Good, check_return-Good, check_if-Good, check_while-Good, check_region-Good,
  check_freeze-Good, check_merge-Good, check_argument-Good, check_call-Good,
}
use gura.Sema.Keeps.{
  Good, Keeps, WellScoped, Good-pure, Good-then, Good-bind, Good-fail_with, Good-if,
}
use gura.Sema.Keeps.Regions.{Good-in_scope}

mutual
  unfolding check_expr check_target check_object check_block check_sequence check_elements
      check_next_elements check_arguments check_inits

  pub check_expr-Good : (e : Expr) (c : ValueContext) → Good (check_expr e c)
  check_expr-Good null c = Good-pure _
  check_expr-Good (literal n kind v s) c = Good-pure _
  check_expr-Good (name n t) c = check_name-Good n t c
  check_expr-Good (binary n op l r) c =
      check_binary-Good n op l r _ _ (check_expr-Good l ordinary) (check_expr-Good r ordinary)
  check_expr-Good (assign n target value) c =
      Good-bind _ _ (Good-if _ _ _ (Good-pure _) (check_expr-Good value ordinary))
        (check_target-Good target n value)
  check_expr-Good (field_access n o f) c =
      check_field_access-Good n o f _ (check_expr-Good o operand)
  check_expr-Good (array_literal n es) c = check_elements-Good es n
  check_expr-Good (index n o i) c =
      check_index-Good n o i _ _ (check_expr-Good o operand) (check_expr-Good i ordinary)
  check_expr-Good (binding n v t type e) c =
      check_binding-Good n v t type e _ (check_expr-Good e ordinary)
  check_expr-Good (move n e) c = check_move-Good n e
  check_expr-Good (new n type s fields) c =
      check_new-Good n type s _ _ (λ t info. check_inits-Good fields t info [])
  check_expr-Good (call n callee es) c =
      check_call-Good _ (λ ts. check_arguments-Good es 1 ts) n callee _ _ (check_object-Good callee)
  check_expr-Good (freeze n e) c = check_freeze-Good n e _ (check_expr-Good e ordinary)
  check_expr-Good (merge n e) c = check_merge-Good n e _ (check_expr-Good e ordinary)
  check_expr-Good (if_expr n i t e) c =
      check_if-Good n i e _ _ _ (check_expr-Good i ordinary) (check_block-Good t)
        (check_expr-Good e ordinary)
  check_expr-Good (while_expr n i b) c =
      check_while-Good n i _ _ (check_expr-Good i ordinary) (check_block-Good b)
  check_expr-Good (block b) c = check_block-Good b
  check_expr-Good (region n kind source t b) c =
      check_region-Good n kind source t _ (check_block-Good b)
  check_expr-Good (return n e) c = check_return-Good n e _ (check_expr-Good e ordinary)

  check_target-Good :
      (e : Expr) (n : Node) (value : Expr) (v : HirType) → Good (check_target e n value v)
  check_target-Good (name p t) n value v = check_name_assign-Good n t p.span _ v
  check_target-Good (field_access p o f) n value v =
      check_field_assign-Good p o f value v _ _ (check_expr-Good o operand)
  check_target-Good (index p o i) n value v =
      check_index_assign-Good p o i v _ _ _ (check_expr-Good o operand) (check_expr-Good i ordinary)
  check_target-Good _ n value v = Good-fail_with _ _ _ _

  check_object-Good : (e : Expr) → Good (check_object e)
  check_object-Good (field_access p o f) = check_expr-Good o operand
  check_object-Good _ = Good-pure _

  pub check_block-Good : (b : Block) → Good (check_block b)
  check_block-Good (block_expr n es) = Good-in_scope _ (check_sequence-Good es unit_type)

  check_sequence-Good : (es : Exprs) (t : HirType) → Good (check_sequence es t)
  check_sequence-Good no_exprs t = Good-pure t
  check_sequence-Good (exprs e es) t =
      Good-bind _ _ (Good-if _ _ _ (Good-pure t) (check_expr-Good e ordinary))
        (check_sequence-Good es)

  check_elements-Good : (es : Exprs) (n : Node) → Good (check_elements es n)
  check_elements-Good no_exprs n = Good-fail_with _ _ _ _
  check_elements-Good (exprs e es) n =
      check_array_literal-Good n e _ _ _ (check_expr-Good e ordinary)
        (check_next_elements-Good es n)

  check_next_elements-Good :
      (es : Exprs) (n : Node) (t : HirType) → Good (check_next_elements es n t)
  check_next_elements-Good no_exprs n t = Good-pure tt
  check_next_elements-Good (exprs e es) n t =
      Good-then _ _ (check_next_element-Good n t e _ (check_expr-Good e ordinary))
        (check_next_elements-Good es n t)

  check_arguments-Good : (es : Exprs) (i : ℕ) (ts : List HirType) → Good (check_arguments es i ts)
  check_arguments-Good no_exprs i ts = Good-pure true
  check_arguments-Good (exprs e es) i [] =
      Good-then _ _
        (Good-if _ _ _ (Good-pure tt)
          (Good-bind _ _ (check_expr-Good e ordinary) (λ t. Good-pure tt)))
        (check_arguments-Good es (i + 1) [])
  check_arguments-Good (exprs e es) i (t ∷ ts) =
      Good-bind _ _ (check_argument-Good i t e _ (check_expr-Good e ordinary))
        λ ok. Good-bind _ _ (check_arguments-Good es (i + 1) ts) λ rest. Good-pure (ok && rest)

  check_inits-Good :
      (fs : FieldInits) (t : HirType) (info : StructInfo) (done : List Text)
      → Good (check_inits fs t info done)
  check_inits-Good no_inits t info done = Good-pure done
  check_inits-Good (inits n f e fs) t info done =
      Good-then _ _ (check_init-Good t info done n f e _ (check_expr-Good e ordinary))
        (check_inits-Good fs t info _)

-- The check of any expression, from scopes in which no name stands twice, only adds reports,
-- leaves the region depths and the tables, and leaves every scope with the bindings it had, up
-- to their availability and whether a bridge was reassigned; the innermost scope may have new
-- bindings behind those, and still no name stands twice.
pub check_expr-Keeps :
    (e : Expr) (c : ValueContext) (s : Sema) → WellScoped s → Keeps s (check_expr e c s).1
check_expr-Keeps e c s w = (check_expr-Good e c).at s w
