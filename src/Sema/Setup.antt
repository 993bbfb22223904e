-- ===== src/Sema/Setup.antt =====
-- What the functions of src/hir/Sema.cpp that fill and validate the tables leave as it is.
pub mod Collects
pub mod Functions
use gura.Prelude.{
  ◌≡◌, refl, ap, ◌∙◌, Bool, true, false, Option, none, some, List, [], ◌∷◌, if◌then◌else◌, String,
}
use gura.Basic.{Span}
use gura.Ast.{
  Text, TypeRef, Param, FnDecl, FieldDecl, StructDecl, TraitDecl, ImplDecl, Decl, fn_decl,
  struct_decl, trait_decl, impl_decl,
}
use gura.Hir.{HirType}
use gura.Sema.{
  Sema, Argument, Tables, PlacedDecl, FieldInfo, MethodInfo, StructInfo, TraitInfo, M, ◌>>=◌, ◌>>◌,
  pure, lookup_table, set_tables, report, report_if, fail_with, each,
}
use gura.Sema.Types.{type_from_ast, type_or}
use gura.Sema.Collect.{
  collect_module, collect_modules, receiver_type, param_types, method_info, make_method_info,
  collect_method, collect_methods, collect_field, collect_fields, collect_struct, set_traits,
  collect_structs, on_struct, on_trait, on_impl, collect_trait_method, collect_trait_methods,
  collect_trait, collect_traits, collect_impl, impl_found, collect_impl_methods,
}
use gura.Sema.Functions.{
  validate_method, actual_found, validate_impl, validate_known, validate_named, validate_trait_impl,
  validate_trait_impls, add_builtin, builtins, signature_params, collect_function, on_function,
  collect_function_signatures,
}
use gura.Sema.Outline.{Extends, Extends-refl, Extends-trans}
use gura.Sema.Quiet.{
  Quiet, Quiet-report, Quiet-report_if, Quiet-fail_with, type_from_ast-Quiet, type_or-Quiet,
}

-- Reports are only added; the scopes, the depths and an earlier error stay.
pub record Later (s t : Sema) : Type 0 where
  pub reports : Extends s.reports t.reports
  pub region_depth : t.region_depth ≡ s.region_depth
  pub mutable_region_depth : t.mutable_region_depth ≡ s.mutable_region_depth
  pub earlier : t.tables.earlier_error ≡ s.tables.earlier_error
  pub scopes : s.scopes ≡ [] → t.scopes ≡ []

pub Later-refl : (s : Sema) → Later s s
Later-refl s = record {
  reports = Extends-refl s.reports;
  region_depth = refl;
  mutable_region_depth = refl;
  earlier = refl;
  scopes = λ e. e;
}

pub Later-trans : {s t u : Sema} → Later s t → Later t u → Later s u
Later-trans p q = record {
  reports = Extends-trans p.reports q.reports;
  region_depth = q.region_depth ∙ p.region_depth;
  mutable_region_depth = q.mutable_region_depth ∙ p.mutable_region_depth;
  earlier = q.earlier ∙ p.earlier;
  scopes = λ e. q.scopes (p.scopes e);
}

pub record Tabular {ℓ} {A : Type ℓ} (m : M A) : Type ℓ where
  pub at : (s : Sema) → Later s (m s).1

Tabular-Quiet {ℓ} : {A : Type ℓ} (m : M A) → Quiet m → Tabular m
Tabular-Quiet m k = record {
  at = λ s.
      let q = k.at s in
      record {
        reports = q.reports;
        region_depth = ap (λ (z : Sema). z.region_depth) q.same;
        mutable_region_depth = ap (λ (z : Sema). z.mutable_region_depth) q.same;
        earlier = ap (λ (z : Sema). z.tables.earlier_error) q.same;
        scopes = λ e. ap (λ (z : Sema). z.scopes) q.same ∙ e;
      };
}

pub Tabular-set_tables :
    (f : Tables → Tables)
    → ((t : Tables) → (f t).earlier_error ≡ t.earlier_error)
    → Tabular (set_tables f)
unfolding set_tables
Tabular-set_tables f h = record {
  at = λ s. record {
    reports = Extends-refl s.reports;
    region_depth = refl;
    mutable_region_depth = refl;
    earlier = h s.tables;
    scopes = λ e. e;
  };
}

module _ {ℓ} {A : Type ℓ} where
  Tabular-pure : (a : A) → Tabular (pure a)
  unfolding pure
  Tabular-pure a = record { at = Later-refl }

  Tabular-lookup_table : (f : Tables → A) → Tabular (lookup_table f)
  unfolding lookup_table
  Tabular-lookup_table f = record { at = Later-refl }

  Tabular-if : (b : Bool) (m n : M A) → Tabular m → Tabular n → Tabular (if b then m else n)
  Tabular-if true m n km kn = km
  Tabular-if false m n km kn = kn

Tabular-bind {ℓ κ} :
    {A : Type ℓ} {B : Type κ} (m : M A) (f : A → M B)
    → Tabular m
    → ((a : A) → Tabular (f a))
    → Tabular (m >>= f)
unfolding ◌>>=◌
Tabular-bind m f km kf = record { at = λ s. Later-trans (km.at s) ((kf (m s).0).at (m s).1) }

Tabular-then {κ} :
    {B : Type κ} (m : M (Unit {0})) (n : M B) → Tabular m → Tabular n → Tabular (m >> n)
unfolding ◌>>◌
Tabular-then m n km kn = Tabular-bind m (λ _. n) km (λ _. kn)

Tabular-report :
    (span : Span) (template : String) (arguments : List Argument)
    → Tabular (report span template arguments)
Tabular-report span template arguments = Tabular-Quiet _ (Quiet-report span template arguments)

Tabular-report_if :
    (b : Bool) (span : Span) (template : String) (arguments : List Argument)
    → Tabular (report_if b span template arguments)
Tabular-report_if b span template arguments =
    Tabular-Quiet _ (Quiet-report_if b span template arguments)

Tabular-fail_with {ℓ} :
    {A : Type ℓ} (a : A) (span : Span) (template : String) (arguments : List Argument)
    → Tabular (fail_with a span template arguments)
Tabular-fail_with a span template arguments =
    Tabular-Quiet _ (Quiet-fail_with a span template arguments)

Tabular-each {ℓ} :
    {A : Type ℓ} (f : A → M (Unit {0})) (xs : List A)
    → ((a : A) → Tabular (f a))
    → Tabular (each f xs)
unfolding each
Tabular-each f [] k = Tabular-pure tt
Tabular-each f (x ∷ xs) k = Tabular-then (f x) (each f xs) (k x) (Tabular-each f xs k)

type_from_ast-Tabular : (t : TypeRef) → Tabular (type_from_ast t)
type_from_ast-Tabular t = Tabular-Quiet _ (type_from_ast-Quiet t)

type_or-Tabular : (d : HirType) (t : Option TypeRef) → Tabular (type_or d t)
type_or-Tabular d t = Tabular-Quiet _ (type_or-Quiet d t)

ruleset tabular_rules = (
  Tabular-pure, Tabular-lookup_table, Tabular-if, Tabular-bind, Tabular-then, Tabular-report,
  Tabular-report_if, Tabular-fail_with, type_from_ast-Tabular, type_or-Tabular,
)
