-- ===== src/Sema/Verdict.antt =====
-- `checkDecl` and `check` of src/hir/Sema.cpp: what they leave as it is, and what they return.
pub mod Clean
use gura.Prelude.{
  ◌≡◌, refl, sym, ap, subst, ◌∙◌, Bool, true, false, not, ◌&&◌, ◌||◌, Option, none, some, List, [],
  ◌∷◌, ◌++◌, All, arith,
}
use gura.Ast.{Text, Param, Block, FnDecl, Decl, fn_decl, struct_decl, trait_decl, impl_decl}
use gura.Hir.{HirType, unit_type}
use gura.Sema.{
  Sema, Tables, PlacedDecl, Report, Scope, M, ◌>>=◌, ◌>>◌, pure, lookup_table, set_tables,
  has_error,
}
use gura.Sema.Scopes.{in_scope, push_scope, pop_scope, tail_of}
use gura.Sema.Types.{type_or}
use gura.Sema.Functions.{make_generic_env, collect_function_signatures, validate_trait_impls}
use gura.Sema.Decls.{
  declare_param, declare_params, declare_method_params, check_body, is_clean, check_fn,
  check_method, check_methods, check_decl, check_decls, check, set_return_type, set_generics,
  set_current,
}
use gura.Sema.Outline.{Extends, Extends-refl, Extends-trans, outline, Distinct}
use gura.Sema.Keeps.{Good, Good-pure, Good-bind, Good-then, Good-each}
use gura.Sema.Keeps.Regions.{keeps_rules}
use gura.Sema.Effects.{type_from_ast-Good}
use gura.Sema.Preservation.{check_block-Good}
use gura.Sema.Collect.{collect_modules, collect_structs, collect_traits, collect_impl_methods}
use gura.Sema.Setup.Collects.{
  collect_modules-Tabular, collect_structs-Tabular, collect_traits-Tabular,
  collect_impl_methods-Tabular,
}
use gura.Sema.Setup.Functions.{collect_function_signatures-Tabular, validate_trait_impls-Tabular}
use gura.Sema.Setup.{Later, Later-refl, Later-trans, Tabular-set_tables}
use gura.Sema.Quiet.{Quiet, type_or-Quiet, make_generic_env-Quiet, is_clean-Quiet}

declare_param-Good : (p : Param) (t : HirType) → Good (declare_param p t)
unfolding declare_param
declare_param-Good p t = search (keeps_rules)

declare_params-Good : (ps : List Param) → Good (declare_params ps)
unfolding declare_params
declare_params-Good ps =
    Good-each _ ps λ p. Good-bind _ _ (type_from_ast-Good p.type) (declare_param-Good p)

declare_method_params-Good : (self : Text) (ps : List Param) → Good (declare_method_params self ps)
unfolding declare_method_params
declare_method_params-Good self [] = Good-pure tt
declare_method_params-Good self (p ∷ ps) =
    Good-bind _ _ (type_from_ast-Good p.type)
      λ t. Good-then _ _ (declare_param-Good p _) (declare_params-Good ps)

check_body-Good : (body : Option Block) → Good (check_body body)
check_body-Good none = Good-pure tt
check_body-Good (some b) = Good-bind _ _ (check_block-Good b) (λ t. Good-pure tt)

-- Between declarations there is no scope: reports are added, the tables are changed by `f`, and all else
-- is as before.
pub record Settled (f : Tables → Tables) (s t : Sema) : Type 0 where
  pub reports : Extends s.reports t.reports
  pub region_depth : t.region_depth ≡ s.region_depth
  pub mutable_region_depth : t.mutable_region_depth ≡ s.mutable_region_depth
  pub tables : t.tables ≡ f s.tables
  pub scopes : s.scopes ≡ [] → t.scopes ≡ []

abbrev same : Tables → Tables
same t = t

module _ {f g : Tables → Tables} {s t u : Sema} where
  Settled-trans : Settled f s t → Settled g t u → Settled (λ x. g (f x)) s u
  Settled-trans p q = record {
    reports = Extends-trans p.reports q.reports;
    region_depth = q.region_depth ∙ p.region_depth;
    mutable_region_depth = q.mutable_region_depth ∙ p.mutable_region_depth;
    tables = q.tables ∙ ap g p.tables;
    scopes = λ e. q.scopes (p.scopes e);
  }

Settled-set_tables : (f : Tables → Tables) (s : Sema) → Settled f s (set_tables f s).1
unfolding set_tables
Settled-set_tables f s = record {
  reports = Extends-refl s.reports;
  region_depth = refl;
  mutable_region_depth = refl;
  tables = refl;
  scopes = λ e. e;
}

Settled-Quiet {ℓ} : {A : Type ℓ} (m : M A) → Quiet m → (s : Sema) → Settled same s (m s).1
Settled-Quiet m k s =
    let q = k.at s in
    record {
      reports = q.reports;
      region_depth = ap (λ (z : Sema). z.region_depth) q.same;
      mutable_region_depth = ap (λ (z : Sema). z.mutable_region_depth) q.same;
      tables = ap (λ (z : Sema). z.tables) q.same;
      scopes = λ e. ap (λ (z : Sema). z.scopes) q.same ∙ e;
    }

empty_outline : (xs ys : List Scope) → outline xs ≡ outline ys → ys ≡ [] → xs ≡ []
empty_outline [] ys e f = refl
empty_outline (x ∷ xs) ys e f = cc (e, ap outline f)

-- From no scope, or from scopes without a name that stands twice.
Settled-in_scope {ℓ} :
    {A : Type ℓ} (m : M A) → Good m → (s : Sema) → s.scopes ≡ [] → Settled same s (in_scope m s).1
unfolding in_scope push_scope pop_scope ◌>>=◌ ◌>>◌ pure
Settled-in_scope m k s h =
    let s' = record s { scopes = [] ∷ s.scopes } in
    let g =
      k.at s'
        (record { open_scope = omega arith; distinct = (tt, subst (All Distinct) (sym h) tt) }) in
    record {
      reports = g.reports;
      region_depth = g.region_depth;
      mutable_region_depth = g.mutable_region_depth;
      tables = g.tables;
      scopes = λ e. empty_outline (tail_of (m s').1.scopes) s.scopes g.outer e;
    }

-- The tables are back where they were.
Settled-back :
    {s t : Sema} (f : Tables → Tables) → Settled f s t → f s.tables ≡ s.tables → Settled same s t
Settled-back f p h = record {
  reports = p.reports;
  region_depth = p.region_depth;
  mutable_region_depth = p.mutable_region_depth;
  tables = p.tables ∙ h;
  scopes = p.scopes;
}

check_fn-Settled : (fn : FnDecl) (s : Sema) → s.scopes ≡ [] → Settled same s (check_fn fn s).1
unfolding check_fn lookup_table ◌>>=◌ ◌>>◌
check_fn-Settled fn s h =
    let env = make_generic_env fn s in
    let s2 = (set_tables (set_generics env.0) env.1).1 in
    let result = type_or unit_type fn.return_type s2 in
    let a =
      Settled-trans (Settled-Quiet (make_generic_env fn) (make_generic_env-Quiet fn) s)
        (Settled-set_tables (set_generics env.0) env.1) in
    let b = Settled-trans a (
      Settled-Quiet (type_or unit_type fn.return_type) (type_or-Quiet unit_type fn.return_type)
        s2) in
    let c = Settled-trans b (Settled-set_tables (set_return_type result.0) result.1) in
    let d = Settled-trans c (
      Settled-in_scope _ (Good-then _ _ (declare_params-Good fn.params) (check_body-Good fn.body)) _
        (c.scopes h)) in
    let e = Settled-trans d (Settled-set_tables (set_generics s.tables.generic_params) _) in
    let i = Settled-trans e (Settled-set_tables (set_return_type s.tables.return_type) _) in
    Settled-back _ (Settled-trans i (Settled-Quiet is_clean is_clean-Quiet _)) refl

check_method-Settled :
    (self : Text) (fn : FnDecl) (s : Sema)
    → s.scopes ≡ []
    → Settled same s (check_method self fn s).1
unfolding check_method lookup_table ◌>>=◌ ◌>>◌
check_method-Settled self fn s h =
    let result = type_or unit_type fn.return_type s in
    let a =
      Settled-Quiet (type_or unit_type fn.return_type) (type_or-Quiet unit_type fn.return_type) s in
    let b = Settled-trans a (Settled-set_tables (set_return_type result.0) result.1) in
    let c = Settled-trans b (
      Settled-in_scope _
        (Good-then _ _ (declare_method_params-Good self fn.params) (check_body-Good fn.body)) _
        (b.scopes h)) in
    let d = Settled-trans c (Settled-set_tables (set_return_type s.tables.return_type) _) in
    Settled-back _ (Settled-trans d (Settled-Quiet is_clean is_clean-Quiet _)) refl

check_methods-Settled :
    (self : Text) (ms : List FnDecl) (s : Sema)
    → s.scopes ≡ []
    → Settled same s (check_methods self ms s).1
unfolding check_methods ◌>>=◌ pure
check_methods-Settled self [] s h = Settled-Quiet is_clean is_clean-Quiet s
check_methods-Settled self (m ∷ ms) s h =
    let a = check_method-Settled self m s h in
    Settled-back _ (Settled-trans a (check_methods-Settled self ms _ (a.scopes h))) refl

-- The check of any declaration, from no scope, ends with no scope, the region depths and the
-- tables it began with, the return type and the generic parameters included, and reports only
-- added.
pub check_decl-Settled : (d : Decl) (s : Sema) → s.scopes ≡ [] → Settled same s (check_decl d s).1
unfolding check_decl ◌>>=◌ pure
check_decl-Settled (struct_decl d) s h =
    Settled-back _
      (Settled-trans (check_methods-Settled d.name d.methods s h)
        (Settled-Quiet is_clean is_clean-Quiet _))
      refl
check_decl-Settled (trait_decl d) s h = Settled-Quiet is_clean is_clean-Quiet s
check_decl-Settled (impl_decl d) s h =
    Settled-back _
      (Settled-trans (check_methods-Settled d.type_name d.methods s h)
        (Settled-Quiet is_clean is_clean-Quiet _))
      refl
check_decl-Settled (fn_decl d) s h = check_fn-Settled d s h
