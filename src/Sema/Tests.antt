-- ===== src/Sema/Tests.antt =====
-- The semantic analysis (src/hir/Sema.cpp) at concrete inputs.
use gura.Prelude.{◌⊎◌, ◌≡◌, refl, true, false, none, some, List, [], ◌∷◌, arith}
use gura.Basic.{codes, empty_span}
use gura.Sema.Loops.{moving, check_expr-while_moves}
use gura.Sema.{moved}
use gura.Sema.Scopes.{modify_slot, set_availability}
use gura.Ast.{while_expr, literal, LiteralKind}
use gura.Hir.{unit_type}
use gura.Ast.{
  empty_node, Expr, name, region, move, Block, block_expr, exprs, no_exprs, RegionKind, FnDecl,
  fn_decl,
}
use gura.Hir.{HirType, plain, iso, mut, imm, capability_of, is_invalid, is_region_local, same_type}
use gura.Ast.{return}
use gura.Sema.{
  has_key, Sema, Tables, Binding, BindingOrigin, Scope, PlacedDecl, ◌>>=◌, ◌>>◌, pure, available,
  open_borrowed, normal, ordinary,
}
use gura.Sema.Scopes.{lookup_in, suspend_scopes, restore_scopes, open_borrow, Slot}
use gura.Sema.Exprs.{check_expr}
use gura.Sema.Functions.{collect_function_signatures, make_generic_env}
use gura.Sema.Names.{resolve_function_name}
use gura.Sema.Decls.{check_decl, check}
use gura.Sema.Rules.{check_move}
use gura.Sema.Access.{check_name_assign}
use gura.Sema.Outline.{Distinct}
use gura.Sema.Keeps.{Keeps}
use gura.Sema.Preservation.{check_expr-Keeps}
use gura.Sema.Suspension.{restore_scopes-suspend_scopes, suspend_scopes-IsReadOnly, IsReadOnly}
use gura.Sema.Verdict.{Settled, check_decl-Settled}
use gura.Sema.Verdict.Clean.{check-clean, clean}
use gura.Sema.Moves.{Refused, check_move-Refused, open_borrow-Refused, check_name_assign-reopens}
use gura.Sema.Escapes.{IsFree, check_expr-region}
use gura.Sema.Generics.{SoundEnv, make_generic_env-Sound}
use gura.Sema.Resolve.{Known}
use gura.Sema.Resolve.Collected.{resolve_function_name-collected}
use gura.Prelude.{All}

abbrev no_tables : Tables
no_tables = record {
  earlier_error = false;
  structs = [];
  traits = [];
  functions = [];
  modules = [];
  qualified_keys = [];
  simple_keys = [];
  current_decl = none;
  generic_params = [];
  return_type = plain imm (codes "Node");
}

abbrev bound : HirType → Binding
bound t = record {
  type = t;
  is_var = true;
  availability = available;
  view = normal;
  span = empty_span;
  origin = BindingOrigin.ordinary;
  region_depth = 0;
  bridge_slot = false;
  bridge_reassigned = false;
}

abbrev isolated : HirType
isolated = plain iso (codes "Node")

abbrev mutable : HirType
mutable = plain mut (codes "Node")

abbrev scopes : List Scope
scopes = ((codes "x", bound isolated) ∷ []) ∷ ((codes "y", bound mutable) ∷ []) ∷ []

abbrev state : Sema
state = record {
  reports = [];
  scopes = scopes;
  region_depth = 0;
  mutable_region_depth = 0;
  tables = no_tables;
}

abbrev outside : Sema
outside = record state { scopes = [] }

abbrev deep : Sema
deep = record state { region_depth = 1 }

abbrev x : Expr
x = name empty_node (codes "x")

abbrev x_slot : Slot
x_slot = record { scope = 1; name = codes "x" }

-- `enter x as z { move x; y }`
abbrev body : Block
body =
    block_expr empty_node (exprs (move empty_node x) (exprs (name empty_node (codes "y")) no_exprs))

abbrev enter_x : Expr
enter_x = region empty_node RegionKind.enter x (codes "z") body

scopes-Distinct : All Distinct scopes
unfolding has_key
scopes-Distinct = ((refl, tt), ((refl, tt), tt))

check_expr-Keeps_example : Keeps state (check_expr enter_x ordinary state).1
check_expr-Keeps_example =
    check_expr-Keeps enter_x ordinary state
      (record { open_scope = omega arith; distinct = scopes-Distinct })

restore_scopes-suspend_scopes_example :
    restore_scopes (suspend_scopes scopes).0 (suspend_scopes scopes).1 ≡ scopes
restore_scopes-suspend_scopes_example = restore_scopes-suspend_scopes scopes scopes-Distinct

suspend_scopes-IsReadOnly_example : All (All IsReadOnly) (suspend_scopes scopes).1
suspend_scopes-IsReadOnly_example = suspend_scopes-IsReadOnly scopes

-- `fn f<T: A + A>() { move x }`
abbrev a_fn : FnDecl
a_fn = record {
  node = empty_node;
  name = codes "f";
  generic_params =
      record {
        name = codes "T";
        bounds =
            record { name = codes "A"; span = empty_span }
            ∷ record { name = codes "A"; span = empty_span }
            ∷ [];
        span = empty_span;
      }
      ∷ [];
  params = [];
  return_type = none;
  body = some body;
}

check_decl-Settled_example : Settled (λ t. t) outside (check_decl (fn_decl a_fn) outside).1
check_decl-Settled_example = check_decl-Settled (fn_decl a_fn) outside refl

abbrev a_file : List PlacedDecl
a_file = record { module_path = codes "a" ∷ []; imports = []; decl = fn_decl a_fn } ∷ []

check-clean_example : (check a_file outside).0 ≡ clean (check a_file outside).1
check-clean_example = check-clean a_file outside refl

check_move-Refused_example :
    Refused (check_move empty_node x state).1 (codes "x") "binding '{}' was already moved"
unfolding lookup_in
check_move-Refused_example =
    check_move-Refused state (codes "x") x_slot (bound isolated) empty_node empty_node refl refl

open_borrow-Refused_example :
    Refused
      (open_borrow (some (x_slot, bound isolated)) state).1
      (codes "x")
      "binding '{}' is currently open-borrowed"
unfolding lookup_in
open_borrow-Refused_example =
    open_borrow-Refused state (codes "x") x_slot (bound isolated) refl refl

abbrev borrowed_state : Sema
borrowed_state = (open_borrow (some (x_slot, bound isolated)) state).1

check_name_assign-reopens_example :
    (check_move empty_node x
      (check_name_assign empty_node (codes "x") empty_span empty_span isolated borrowed_state).1).0
    ≡ isolated
unfolding lookup_in open_borrow is_region_local same_type ◌>>◌ pure capability_of
check_name_assign-reopens_example =
    check_name_assign-reopens borrowed_state (codes "x") x_slot
      (record (bound isolated) { availability = open_borrowed }) empty_node empty_node empty_span
      empty_span isolated refl refl refl refl refl

-- `enter x as z { move w }`, where `w` is another `iso` binding.
abbrev enter_moving : Expr
enter_moving =
    region empty_node RegionKind.enter x (codes "z")
      (block_expr empty_node (exprs (move empty_node (name empty_node (codes "w"))) no_exprs))

abbrev two_isolated : Sema
two_isolated = record state {
  scopes = ((codes "x", bound isolated) ∷ (codes "w", bound isolated) ∷ []) ∷ [];
}

check_expr-region_example :
    (is_invalid (check_expr enter_moving ordinary two_isolated).0 ≡ true)
    ⊎ IsFree (capability_of (check_expr enter_moving ordinary two_isolated).0)
unfolding check_expr has_key ◌>>=◌ ◌>>◌ pure lookup_in
check_expr-region_example =
    check_expr-region empty_node RegionKind.enter x (codes "z")
      (block_expr empty_node (exprs (move empty_node (name empty_node (codes "w"))) no_exprs))
      ordinary two_isolated
      (record { open_scope = omega arith; distinct = ((refl, (refl, tt)), tt) }) refl

-- `return y`, where `y` is a `mut` binding.
abbrev returned : Expr
returned = return empty_node (name empty_node (codes "y"))

abbrev with_trait : Sema
with_trait = record outside {
  tables = record no_tables { traits = (codes "A", record { methods = [] }) ∷ [] };
}

make_generic_env-Sound_example : SoundEnv with_trait.tables (make_generic_env a_fn with_trait).0
make_generic_env-Sound_example = make_generic_env-Sound a_fn with_trait

resolve_function_name-collected_example :
    Known
      (collect_function_signatures a_file outside).1.tables
      (resolve_function_name
        (codes "std" ∷ codes "core" ∷ codes "puts" ∷ [])
        none
        empty_span
        (collect_function_signatures a_file outside).1).0
resolve_function_name-collected_example =
    resolve_function_name-collected a_file (codes "std" ∷ codes "core" ∷ codes "puts" ∷ []) none
      empty_span outside

-- `while true { move x }`
check_expr-while_moves_example :
    check_expr
      (while_expr empty_node
        (literal empty_node LiteralKind.bool (codes "true") [])
        (moving empty_node empty_node empty_node (codes "x")))
      ordinary
      state
    ≡ (unit_type, record state { scopes = modify_slot x_slot (set_availability moved) scopes })
unfolding lookup_in
check_expr-while_moves_example =
    check_expr-while_moves state (codes "x") x_slot (bound isolated) empty_node empty_node
      empty_node empty_node empty_node (codes "true") [] refl refl
