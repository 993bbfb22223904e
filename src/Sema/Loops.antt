-- ===== src/Sema/Loops.antt =====
-- src/hir/Sema.cpp: a loop whose body moves a binding.
use gura.Prelude.{◌<◌, ◌≡◌, refl, ap, false, some, List, [], ◌∷◌, length, ◌==◌, arith}
use gura.Ast.{
  Text, Node, LiteralKind, Block, block_expr, exprs, no_exprs, name, move, literal, while_expr,
}
use gura.Hir.{HirType, unit_type}
use gura.Sema.{
  Sema, Scope, Binding, available, moved, ordinary, ◌>>=◌, ◌>>◌, pure, modify, report_if,
}
use gura.Sema.Scopes.{
  Slot, lookup_in, modify_slot, set_availability, in_scope, push_scope, pop_scope,
}
use gura.Sema.Control.{check_while, check_condition}
use gura.Sema.Exprs.{check_expr, check_block, check_sequence}
use gura.Sema.Moves.{lookup_in-lt, changed, check_move-available}

-- `{ move n }`
abbrev pub moving : Node → Node → Node → Text → Block
moving m k j n = block_expr m (exprs (move k (name j n)) no_exprs)

modify_slot-inner :
    (p : Slot) (f : Binding → Binding) (xs : List Scope)
    → p.scope < length xs
    → modify_slot p f ([] ∷ xs) ≡ [] ∷ modify_slot p f xs
unfolding modify_slot
modify_slot-inner p f xs h = let i : (p.scope == length xs) ≡ false = ground arith in rw i refl

module _ (s : Sema) (n : Text) (p : Slot) (b : Binding) (found : lookup_in n s.scopes ≡ some (p, b))
    (a : b.availability ≡ available) where
  moving-moves :
      (m k j : Node)
      → check_block (moving m k j n) s ≡ (b.type, changed s n p b found (set_availability moved))
  unfolding check_block check_sequence check_expr in_scope push_scope pop_scope modify ◌>>=◌ ◌>>◌
      pure lookup_in
  moving-moves m k j =
      rw (check_move-available (record s { scopes = [] ∷ s.scopes }) n p b found k j a) (
        rw
          (modify_slot-inner p (set_availability moved) s.scopes
            (lookup_in-lt n s.scopes p b found))
          refl)

-- A loop on a Boolean literal whose body moves an available binding from outside of the loop is
-- accepted: nothing is reported, and the only change is that the binding is moved.
pub check_expr-while_moves :
    (s : Sema) (n : Text) (p : Slot) (b : Binding) (node m k j c : Node) (value suffix : Text)
    → lookup_in n s.scopes ≡ some (p, b)
    → b.availability ≡ available
    → check_expr
        (while_expr node (literal c LiteralKind.bool value suffix) (moving m k j n))
        ordinary
        s
      ≡ (unit_type, record s { scopes = modify_slot p (set_availability moved) s.scopes })
unfolding check_expr check_while check_condition report_if ◌>>=◌ ◌>>◌ pure
check_expr-while_moves s n p b node m k j c value suffix found a =
    ap (λ (r : HirType × Sema). (unit_type, r.1)) (moving-moves s n p b found a m k j)
