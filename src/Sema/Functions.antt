-- ===== src/Sema/Functions.antt =====
-- src/hir/Sema.cpp: the implementations of traits, function signatures and generic parameters.
use gura.Sema.Collect.{type_span, is_placed}
use gura.Prelude.{Bool, true, not, ◌&&◌, Option, none, some, List, [], ◌∷◌, ◌++◌, if◌then◌else◌}
use gura.Basic.{codes}
use gura.Ast.{Text, type_info, Param, TraitBound, GenericParam, FnDecl, ImplDecl, Decl, fn_decl}
use gura.Hir.{
  HirType, Capability, is_array, capability_of, same_capability, unit_type, cstring_type,
  numeric_type,
}
use gura.Hir.Paths.{contains_string, is_builtin_type_name, qualified_name}
use gura.Sema.{
  Tables, PlacedDecl, FunctionSignature, MethodInfo, TraitInfo, GenericParamInfo, M, ◌>>=◌, ◌>>◌,
  pure, lookup_table, set_tables, report, report_if, fail_with, each, find, has_key, emplace,
  assign, text,
}
use gura.Sema.Types.{type_from_ast, type_or, same_method_signature}
use gura.Sema.Names.{keys_of}
use gura.Sema.Collect.{make_method_info, on_impl}

-- The first method of each name.
unfoldable pub impl_methods : List (Text × FnDecl) → List FnDecl → List (Text × FnDecl)
unfolding emplace
impl_methods methods [] = methods
impl_methods methods (m ∷ ms) = impl_methods (emplace m.name m methods) ms

abbrev pub actual_found : FnDecl → Text → Text → MethodInfo → Option MethodInfo → M (Unit {0})
actual_found m trait n expected none = pure tt
actual_found m trait n expected (some a) =
    report_if (not (same_method_signature expected a)) m.node.span
      "method '{}' signature does not match trait '{}'" (text n ∷ text trait ∷ [])

-- A method of the trait, which `find` gave of the implementation.
unfoldable pub validate_method : ImplDecl → Text → Text → MethodInfo → Option FnDecl → M (Unit {0})
unfolding report report_if make_method_info same_method_signature
validate_method d trait n expected none =
    report d.node.span "impl of trait '{}' for type '{}' is missing method '{}'"
      (text trait ∷ text d.type_name ∷ text n ∷ [])
validate_method d trait n expected (some m) = do
  actual ← make_method_info m d.type_name true
  actual_found m trait n expected actual

unfoldable pub validate_impl : ImplDecl → Text → TraitInfo → M (Unit {0})
unfolding each validate_method report_if has_key find impl_methods
validate_impl d trait info = do
  let methods = impl_methods [] d.methods
  each (λ e. validate_method d trait e.0 e.1 (find e.0 methods)) info.methods
  each
      (λ m.
        report_if (not (has_key m.0 info.methods)) m.1.node.span
          "method '{}' is not a member of trait '{}'" (text m.0 ∷ text trait ∷ []))
      methods

abbrev pub validate_known : ImplDecl → Text → Option TraitInfo → Bool → M (Unit {0})
validate_known d trait none known = pure tt
validate_known d trait (some info) known = if known then validate_impl d trait info else pure tt

abbrev pub validate_named : ImplDecl → Option Text → M (Unit {0})
validate_named d none = pure tt
validate_named d (some trait) = do
  traits ← lookup_table (λ t. t.traits)
  structs ← lookup_table (λ t. t.structs)
  validate_known d trait (find trait traits) (has_key d.type_name structs)

unfoldable pub validate_trait_impl : ImplDecl → M (Unit {0})
unfolding validate_impl lookup_table find has_key
validate_trait_impl d = validate_named d d.trait_name

unfoldable pub validate_trait_impls : List PlacedDecl → M (Unit {0})
unfolding validate_trait_impl each
validate_trait_impls file = each (λ d. on_impl validate_trait_impl d.decl) file

abbrev pub add_function : Text → Text → FunctionSignature → Tables → Tables
add_function key n signature t = record t {
  functions = emplace key signature t.functions;
  simple_keys = assign n (keys_of (find n t.simple_keys) ++ (key ∷ [])) t.simple_keys;
}

abbrev pub add_qualified : Text → Text → Tables → Tables
add_qualified path key t = record t { qualified_keys = assign path key t.qualified_keys }

-- `addBuiltin`
unfoldable pub add_builtin : Text × HirType × List HirType → M (Unit {0})
unfolding set_tables emplace assign find
add_builtin (n, result, params) = set_tables (λ t.
    add_qualified (codes "std.core." ++ n) n
      (add_function n n (record { params = params; return_type = result; generic_params = [] }) t))

unfoldable pub builtins : List (Text × HirType × List HirType)
unfolding unit_type cstring_type numeric_type
builtins =
    (codes "puts", numeric_type (codes "i32"), cstring_type ∷ [])
    ∷ (codes "print", unit_type, cstring_type ∷ [])
    ∷ (codes "println", unit_type, cstring_type ∷ [])
    ∷ (codes "print_i64", unit_type, numeric_type (codes "i64") ∷ [])
    ∷ (codes "println_i64", unit_type, numeric_type (codes "i64") ∷ [])
    ∷ (codes "readln_i64", numeric_type (codes "i64"), [])
    ∷ []

unfoldable pub signature_params : List Param → M (List HirType)
unfolding type_from_ast report_if is_array same_capability capability_of
signature_params [] = pure []
signature_params (p ∷ ps) = do
  t ← type_from_ast p.type
  report_if (is_array t && not (same_capability (capability_of t) Capability.mut))
      (type_info p.type).node.span "array parameters currently require mut [i64]" []
  ts ← signature_params ps
  pure (t ∷ ts)

unfoldable pub function_key : List Text → Text → Text
unfolding qualified_name
function_key path n = if is_placed path then qualified_name path n else n

unfoldable pub collect_function : List Text → FnDecl → M (Unit {0})
unfolding function_key type_or signature_params report_if is_array lookup_table has_key report
    set_tables emplace assign find unit_type
collect_function path fn = do
  result ← type_or unit_type fn.return_type
  report_if (is_array result) (type_span fn.return_type fn.node.span)
      "array return types are not supported yet" []
  params ← signature_params fn.params
  functions ← lookup_table (λ t. t.functions)
  if has_key (function_key path fn.name) functions
      then report fn.node.span "function '{}' is already defined"
          (text (function_key path fn.name) ∷ [])
      else do
        set_tables (
            add_function (function_key path fn.name) fn.name (record {
              params = params;
              return_type = result;
              generic_params = fn.generic_params;
            }))
        if is_placed path
            then set_tables (add_qualified (function_key path fn.name) (function_key path fn.name))
            else pure tt

abbrev pub on_function : PlacedDecl → Decl → M (Unit {0})
on_function d (fn_decl fn) = collect_function d.module_path fn
on_function d _ = pure tt

unfoldable pub collect_function_signatures : List PlacedDecl → M (Unit {0})
unfolding collect_function add_builtin builtins set_tables each
collect_function_signatures file = do
  set_tables (λ t. record t { functions = []; qualified_keys = []; simple_keys = [] })
  each add_builtin builtins
  each (λ d. on_function d d.decl) file

-- A bound of the generic parameter `n`.
unfoldable pub add_bound : Text → List Text → TraitBound → M (List Text)
unfolding lookup_table has_key contains_string fail_with
add_bound n bounds b = do
  traits ← lookup_table (λ t. t.traits)
  if not (has_key b.name traits)
      then fail_with bounds b.span "trait '{}' is not defined" (text b.name ∷ [])
      else if contains_string bounds b.name
      then fail_with bounds b.span "trait bound '{}' is repeated for generic parameter '{}'"
          (text b.name ∷ text n ∷ [])
      else pure (bounds ++ (b.name ∷ []))

unfoldable pub add_bounds : Text → List Text → List TraitBound → M (List Text)
unfolding add_bound
add_bounds n bounds [] = pure bounds
add_bounds n bounds (b ∷ bs) = do more ← add_bound n bounds b; add_bounds n more bs

abbrev GenericEnv : Type 0
GenericEnv = List (Text × GenericParamInfo)

unfoldable pub add_generic : GenericEnv → GenericParam → M GenericEnv
unfolding add_bounds lookup_table has_key emplace fail_with is_builtin_type_name
add_generic env p = do
  structs ← lookup_table (λ t. t.structs)
  if has_key p.name env
      then fail_with env p.span "generic parameter '{}' is already defined" (text p.name ∷ [])
      else if has_key p.name structs
      then fail_with env p.span "generic parameter '{}' conflicts with a struct of the same name"
          (text p.name ∷ [])
      else if is_builtin_type_name p.name
      then fail_with env p.span "generic parameter '{}' conflicts with a builtin type name"
          (text p.name ∷ [])
      else do
        bounds ← add_bounds p.name [] p.bounds
        pure (emplace p.name (record { bounds = bounds }) env)

unfoldable pub add_generics : GenericEnv → List GenericParam → M GenericEnv
unfolding add_generic
add_generics env [] = pure env
add_generics env (p ∷ ps) = do more ← add_generic env p; add_generics more ps

unfoldable pub make_generic_env : FnDecl → M GenericEnv
unfolding add_generics
make_generic_env fn = add_generics [] fn.generic_params
