-- ===== src/Sema/Quiet.antt =====
-- Actions of src/hir/Sema.cpp that only report: types, signatures, and the bounds of generic parameters.
use gura.Prelude.{
  ◌≡◌, refl, ap, ◌∙◌, Bool, true, false, Option, none, some, List, [], ◌∷◌, if◌then◌else◌, String,
}
use gura.Basic.{Span}
use gura.Ast.{Text, TypeRef, TraitBound, GenericParam, FnDecl, array, plain}
use gura.Hir.{HirType}
use gura.Sema.{
  Sema, Argument, Tables, GenericParamInfo, M, ◌>>=◌, ◌>>◌, pure, lookup_table, report, report_if,
  fail_with, has_error,
}
use gura.Sema.Types.{type_from_ast, type_or}
use gura.Sema.Functions.{add_bound, add_bounds, add_generic, add_generics, make_generic_env}
use gura.Sema.Decls.{is_clean}
use gura.Sema.Outline.{Extends, Extends-refl, Extends-trans}

pub record OnlyReports (s t : Sema) : Type 0 where
  pub reports : Extends s.reports t.reports
  pub same : t ≡ record s { reports = t.reports }

pub record Quiet {ℓ} {A : Type ℓ} (m : M A) : Type ℓ where
  pub at : (s : Sema) → OnlyReports s (m s).1

OnlyReports-refl : (s : Sema) → OnlyReports s s
OnlyReports-refl s = record { reports = Extends-refl s.reports; same = refl }

OnlyReports-trans : {s t u : Sema} → OnlyReports s t → OnlyReports t u → OnlyReports s u
OnlyReports-trans {s} {t} {u} p q = record {
  reports = Extends-trans p.reports q.reports;
  same = q.same ∙ ap (λ (z : Sema). record z { reports = u.reports }) p.same;
}

module _ {ℓ} {A : Type ℓ} where
  pub Quiet-pure : (a : A) → Quiet (pure a)
  unfolding pure
  Quiet-pure a = record { at = OnlyReports-refl }

  pub Quiet-lookup_table : (f : Tables → A) → Quiet (lookup_table f)
  unfolding lookup_table
  Quiet-lookup_table f = record { at = OnlyReports-refl }

  pub Quiet-if : (b : Bool) (m n : M A) → Quiet m → Quiet n → Quiet (if b then m else n)
  Quiet-if true m n km kn = km
  Quiet-if false m n km kn = kn

pub Quiet-bind {ℓ κ} :
    {A : Type ℓ} {B : Type κ} (m : M A) (f : A → M B)
    → Quiet m
    → ((a : A) → Quiet (f a))
    → Quiet (m >>= f)
unfolding ◌>>=◌
Quiet-bind m f km kf = record { at = λ s. OnlyReports-trans (km.at s) ((kf (m s).0).at (m s).1) }

pub Quiet-then {κ} : {B : Type κ} (m : M (Unit {0})) (n : M B) → Quiet m → Quiet n → Quiet (m >> n)
unfolding ◌>>◌
Quiet-then m n km kn = Quiet-bind m (λ _. n) km (λ _. kn)

pub Quiet-report :
    (span : Span) (template : String) (arguments : List Argument)
    → Quiet (report span template arguments)
unfolding report
Quiet-report span template arguments = record {
  at = λ s. record {
    reports = record {
      more = record { span = span; template = template; arguments = arguments } ∷ [];
      is_more = refl;
    };
    same = refl;
  };
}

pub Quiet-report_if :
    (b : Bool) (span : Span) (template : String) (arguments : List Argument)
    → Quiet (report_if b span template arguments)
unfolding report_if
Quiet-report_if b span template arguments =
    Quiet-if b (report span template arguments) (pure tt) (Quiet-report span template arguments)
      (Quiet-pure tt)

pub Quiet-fail_with {ℓ} :
    {A : Type ℓ} (a : A) (span : Span) (template : String) (arguments : List Argument)
    → Quiet (fail_with a span template arguments)
unfolding fail_with
Quiet-fail_with a span template arguments =
    Quiet-then (report span template arguments) (pure a) (Quiet-report span template arguments)
      (Quiet-pure a)

pub ruleset quiet_rules = (
  Quiet-pure, Quiet-lookup_table, Quiet-if, Quiet-bind, Quiet-then, Quiet-report, Quiet-report_if,
  Quiet-fail_with,
)

pub type_from_ast-Quiet : (t : TypeRef) → Quiet (type_from_ast t)
unfolding type_from_ast
type_from_ast-Quiet (array i e) =
    Quiet-bind (type_from_ast e) _ (type_from_ast-Quiet e) λ t. search (quiet_rules)
type_from_ast-Quiet (plain i) = search (quiet_rules)

pub type_or-Quiet : (d : HirType) (t : Option TypeRef) → Quiet (type_or d t)
unfolding type_or
type_or-Quiet d none = search (quiet_rules)
type_or-Quiet d (some t) = type_from_ast-Quiet t

pub add_bound-Quiet :
    (n : Text) (bounds : List Text) (b : TraitBound) → Quiet (add_bound n bounds b)
unfolding add_bound
add_bound-Quiet n bounds b = search (quiet_rules) depth 9

pub add_bounds-Quiet :
    (n : Text) (bounds : List Text) (bs : List TraitBound) → Quiet (add_bounds n bounds bs)
unfolding add_bounds
add_bounds-Quiet n bounds [] = search (quiet_rules)
add_bounds-Quiet n bounds (b ∷ bs) =
    Quiet-bind _ _ (add_bound-Quiet n bounds b) λ more. add_bounds-Quiet n more bs

pub add_generic-Quiet :
    (env : List (Text × GenericParamInfo)) (p : GenericParam) → Quiet (add_generic env p)
unfolding add_generic
add_generic-Quiet env p = search (quiet_rules, add_bounds-Quiet) depth 9

add_generics-Quiet :
    (env : List (Text × GenericParamInfo)) (ps : List GenericParam) → Quiet (add_generics env ps)
unfolding add_generics
add_generics-Quiet env [] = search (quiet_rules)
add_generics-Quiet env (p ∷ ps) =
    Quiet-bind _ _ (add_generic-Quiet env p) λ more. add_generics-Quiet more ps

pub make_generic_env-Quiet : (fn : FnDecl) → Quiet (make_generic_env fn)
unfolding make_generic_env
make_generic_env-Quiet fn = add_generics-Quiet [] fn.generic_params

pub is_clean-Quiet : Quiet is_clean
unfolding is_clean has_error ◌>>=◌ pure
is_clean-Quiet = record { at = OnlyReports-refl }
