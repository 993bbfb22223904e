-- ===== src/Sema/Decls.antt =====
-- src/hir/Sema.cpp: `check`, and the checks of declarations.
use gura.Prelude.{Bool, true, false, not, ◌&&◌, Option, none, some, List, [], ◌∷◌, if◌then◌else◌}
use gura.Ast.{
  Text, type_info, Param, FnDecl, Decl, fn_decl, struct_decl, trait_decl, impl_decl, Block,
}
use gura.Hir.{HirType, with_name, unit_type}
use gura.Hir.Paths.{is_text}
use gura.Sema.{
  Tables, PlacedDecl, BindingOrigin, available, normal, GenericParamInfo, M, ◌>>=◌, ◌>>◌, pure,
  gets, lookup_table, set_tables, has_error, each,
}
use gura.Sema.Types.{type_from_ast, type_or}
use gura.Sema.Scopes.{declare, in_scope}
use gura.Sema.Exprs.{check_block}
use gura.Sema.Collect.{collect_modules, collect_structs, collect_traits, collect_impl_methods}
use gura.Sema.Functions.{collect_function_signatures, validate_trait_impls, make_generic_env}

abbrev pub set_return_type : HirType → Tables → Tables
set_return_type r t = record t { return_type = r }

abbrev pub set_generics : List (Text × GenericParamInfo) → Tables → Tables
set_generics g t = record t { generic_params = g }

abbrev pub set_current : Option PlacedDecl → Tables → Tables
set_current d t = record t { current_decl = d }

unfoldable pub declare_param : Param → HirType → M (Unit {0})
unfolding gets declare
declare_param p t = do
  depth ← gets (λ s. s.region_depth)
  declare p.name (record {
    type = t;
    is_var = false;
    availability = available;
    view = normal;
    span = (type_info p.type).node.span;
    origin = BindingOrigin.ordinary;
    region_depth = depth;
    bridge_slot = false;
    bridge_reassigned = false;
  })

unfoldable pub declare_params : List Param → M (Unit {0})
unfolding type_from_ast declare_param each
declare_params ps = each (λ p. do t ← type_from_ast p.type; declare_param p t) ps

-- A first parameter `self` has the type that the method is for.
unfoldable pub declare_method_params : Text → List Param → M (Unit {0})
unfolding type_from_ast declare_param declare_params with_name
declare_method_params self [] = pure tt
declare_method_params self (p ∷ ps) = do
  t ← type_from_ast p.type
  declare_param p (if is_text p.name "self" then with_name self t else t)
  declare_params ps

abbrev pub check_body : Option Block → M (Unit {0})
check_body none = pure tt
check_body (some b) = do t ← check_block b; pure tt

-- `!diagnostics_.hasError()`
unfoldable pub is_clean : M Bool
unfolding has_error
is_clean = do e ← has_error; pure (not e)

unfoldable pub check_fn : FnDecl → M Bool
unfolding lookup_table make_generic_env set_tables type_or declare_params in_scope check_block
    is_clean unit_type
check_fn fn = do
  previous_return ← lookup_table (λ t. t.return_type)
  previous_generics ← lookup_table (λ t. t.generic_params)
  generics ← make_generic_env fn
  set_tables (set_generics generics)
  result ← type_or unit_type fn.return_type
  set_tables (set_return_type result)
  in_scope (do declare_params fn.params; check_body fn.body)
  set_tables (set_generics previous_generics)
  set_tables (set_return_type previous_return)
  is_clean

unfoldable pub check_method : Text → FnDecl → M Bool
unfolding lookup_table set_tables type_or declare_method_params in_scope check_block is_clean
    unit_type
check_method self fn = do
  previous_return ← lookup_table (λ t. t.return_type)
  result ← type_or unit_type fn.return_type
  set_tables (set_return_type result)
  in_scope (do declare_method_params self fn.params; check_body fn.body)
  set_tables (set_return_type previous_return)
  is_clean

unfoldable pub check_methods : Text → List FnDecl → M Bool
unfolding check_method
check_methods self [] = pure true
check_methods self (m ∷ ms) = do
  ok ← check_method self m
  rest ← check_methods self ms
  pure (rest && ok)

unfoldable pub check_decl : Decl → M Bool
unfolding check_methods check_fn is_clean
check_decl (struct_decl d) = do
  ok ← check_methods d.name d.methods
  clean ← is_clean
  pure (ok && clean)
check_decl (trait_decl d) = is_clean
check_decl (impl_decl d) = do
  ok ← check_methods d.type_name d.methods
  clean ← is_clean
  pure (ok && clean)
check_decl (fn_decl d) = check_fn d

unfoldable pub check_decls : List PlacedDecl → M Bool
unfolding check_decl set_tables
check_decls [] = pure true
check_decls (d ∷ ds) = do
  set_tables (set_current (some d))
  ok ← check_decl d.decl
  set_tables (set_current none)
  rest ← check_decls ds
  pure (rest && ok)

-- `Sema::check`
unfoldable pub check : List PlacedDecl → M Bool
unfolding check_decls collect_modules collect_structs collect_traits collect_impl_methods
    collect_function_signatures validate_trait_impls is_clean
check file = do
  collect_modules file
  collect_structs file
  collect_traits file
  collect_impl_methods file
  collect_function_signatures file
  validate_trait_impls file
  ok ← check_decls file
  clean ← is_clean
  pure (ok && clean)
