-- ===== src/Sema/Setup/Functions.antt =====
-- What collecting the signatures of functions and validating the implementations leave as it is:
-- src/hir/Sema.cpp.
use gura.Prelude.{refl, Bool, true, Option, none, some, List, [], ◌∷◌}
use gura.Ast.{Text, Param, FnDecl, ImplDecl, Decl, fn_decl}
use gura.Hir.{HirType}
use gura.Sema.{PlacedDecl, MethodInfo, TraitInfo}
use gura.Sema.Functions.{
  validate_method, actual_found, validate_impl, validate_known, validate_named, validate_trait_impl,
  validate_trait_impls, add_builtin, builtins, signature_params, collect_function, on_function,
  collect_function_signatures,
}
use gura.Sema.Setup.Collects.{make_method_info-Tabular, on_impl-Tabular}
use gura.Sema.Setup.{
  Tabular-set_tables, Tabular-pure, Tabular-lookup_table, Tabular-if, Tabular-bind, Tabular-then,
  Tabular-report, Tabular-report_if, Tabular-each, type_from_ast-Tabular, type_or-Tabular,
  tabular_rules, Tabular,
}

signature_params-Tabular : (ps : List Param) → Tabular (signature_params ps)
unfolding signature_params
signature_params-Tabular [] = Tabular-pure []
signature_params-Tabular (p ∷ ps) = Tabular-bind _ _ (type_from_ast-Tabular p.type) λ t.
    Tabular-then _ _ (Tabular-report_if _ _ _ _)
      (Tabular-bind _ _ (signature_params-Tabular ps) λ ts. Tabular-pure _)

collect_function-Tabular : (path : List Text) (fn : FnDecl) → Tabular (collect_function path fn)
unfolding collect_function
collect_function-Tabular path fn = Tabular-bind _ _ (type_or-Tabular _ fn.return_type) λ result.
    Tabular-then _ _ (Tabular-report_if _ _ _ _) (
      Tabular-bind _ _ (signature_params-Tabular fn.params) λ params.
        Tabular-bind _ _ (Tabular-lookup_table _) λ functions.
          Tabular-if _ _ _ (Tabular-report _ _ _) (
            Tabular-then _ _ (Tabular-set_tables _ (λ t. refl))
              (Tabular-if _ _ _ (Tabular-set_tables _ (λ t. refl)) (Tabular-pure tt))))

on_function-Tabular : (d : PlacedDecl) (e : Decl) → Tabular (on_function d e)
on_function-Tabular d (fn_decl fn) = collect_function-Tabular d.module_path fn
on_function-Tabular d _ = Tabular-pure tt

add_builtin-Tabular : (b : Text × HirType × List HirType) → Tabular (add_builtin b)
unfolding add_builtin
add_builtin-Tabular (n, result, params) = Tabular-set_tables _ (λ t. refl)

pub collect_function_signatures-Tabular :
    (file : List PlacedDecl) → Tabular (collect_function_signatures file)
unfolding collect_function_signatures
collect_function_signatures-Tabular file = Tabular-then _ _ (Tabular-set_tables _ (λ t. refl)) (
    Tabular-then _ _ (Tabular-each _ builtins add_builtin-Tabular)
      (Tabular-each _ file λ d. on_function-Tabular d d.decl))

actual_found-Tabular :
    (m : FnDecl) (trait n : Text) (expected : MethodInfo) (actual : Option MethodInfo)
    → Tabular (actual_found m trait n expected actual)
actual_found-Tabular m trait n expected none = Tabular-pure tt
actual_found-Tabular m trait n expected (some a) = Tabular-report_if _ _ _ _

validate_method-Tabular :
    (d : ImplDecl) (trait n : Text) (expected : MethodInfo) (m : Option FnDecl)
    → Tabular (validate_method d trait n expected m)
unfolding validate_method
validate_method-Tabular d trait n expected none = Tabular-report _ _ _
validate_method-Tabular d trait n expected (some m) =
    Tabular-bind _ _ (make_method_info-Tabular m d.type_name true)
      λ actual. actual_found-Tabular m trait n expected actual

validate_impl-Tabular :
    (d : ImplDecl) (trait : Text) (info : TraitInfo) → Tabular (validate_impl d trait info)
unfolding validate_impl
validate_impl-Tabular d trait info =
    Tabular-then _ _ (Tabular-each _ info.methods λ e. validate_method-Tabular d trait e.0 e.1 _)
      (Tabular-each _ _ λ m. Tabular-report_if _ _ _ _)

validate_known-Tabular :
    (d : ImplDecl) (trait : Text) (info : Option TraitInfo) (known : Bool)
    → Tabular (validate_known d trait info known)
validate_known-Tabular d trait none known = Tabular-pure tt
validate_known-Tabular d trait (some info) known =
    Tabular-if _ _ _ (validate_impl-Tabular d trait info) (Tabular-pure tt)

validate_named-Tabular : (d : ImplDecl) (trait : Option Text) → Tabular (validate_named d trait)
validate_named-Tabular d none = Tabular-pure tt
validate_named-Tabular d (some trait) = search (tabular_rules, validate_known-Tabular)

validate_trait_impl-Tabular : (d : ImplDecl) → Tabular (validate_trait_impl d)
unfolding validate_trait_impl
validate_trait_impl-Tabular d = validate_named-Tabular d d.trait_name

pub validate_trait_impls-Tabular : (file : List PlacedDecl) → Tabular (validate_trait_impls file)
unfolding validate_trait_impls
validate_trait_impls-Tabular file =
    Tabular-each _ file λ d. on_impl-Tabular validate_trait_impl validate_trait_impl-Tabular d.decl
