-- ===== src/Sema/Verdict/Clean.antt =====
-- What `check` of src/hir/Sema.cpp returns.
use gura.Prelude.{
  ◌≡◌, refl, ap, subst, ◌∙◌, Bool, true, false, not, ◌&&◌, ◌||◌, Option, none, some, List, [], ◌∷◌,
  ◌++◌,
}
use gura.Ast.{Text, FnDecl, Decl, fn_decl, struct_decl, trait_decl, impl_decl}
use gura.Sema.{Sema, Tables, PlacedDecl, Report, ◌>>=◌, ◌>>◌, pure, set_tables, has_error}
use gura.Sema.Functions.{collect_function_signatures, validate_trait_impls}
use gura.Sema.Decls.{
  is_clean, check_fn, check_method, check_methods, check_decl, check_decls, check, set_current,
}
use gura.Sema.Collect.{collect_modules, collect_structs, collect_traits, collect_impl_methods}
use gura.Sema.Setup.Collects.{
  collect_modules-Tabular, collect_structs-Tabular, collect_traits-Tabular,
  collect_impl_methods-Tabular,
}
use gura.Sema.Setup.Functions.{collect_function_signatures-Tabular, validate_trait_impls-Tabular}
use gura.Sema.Setup.{Later, Later-refl, Later-trans, Tabular-set_tables}
use gura.Sema.Verdict.{
  Settled, same, check_method-Settled, check_methods-Settled, check_decl-Settled,
}

-- Whether there is no error.
abbrev pub clean : Sema → Bool
clean s = (is_clean s).0

abbrev no_error : Bool → List Report → Bool
no_error earlier rs = not (earlier || elim rs [ [] ↦ false | r ∷ rs' ↦ true ])

no_error-append :
    (b : Bool) (rs more : List Report) → no_error b (rs ++ more) ≡ true → no_error b rs ≡ true
no_error-append true rs more h = h
no_error-append false [] more h = refl
no_error-append false (r ∷ rs) more h = h

-- Where there is no error later, there is none before.
Settled-clean :
    {f : Tables → Tables} {s t : Sema}
    → Settled f s t
    → (f s.tables).earlier_error ≡ s.tables.earlier_error
    → clean t ≡ true
    → clean s ≡ true
unfolding is_clean has_error ◌>>=◌ pure
Settled-clean {f} {s} {t} p e h =
    let earlier : t.tables.earlier_error ≡ s.tables.earlier_error =
      ap (λ (x : Tables). x.earlier_error) p.tables ∙ e in
    no_error-append s.tables.earlier_error s.reports p.reports.more (
      subst (λ rs. no_error s.tables.earlier_error rs ≡ true) p.reports.is_more
        (subst (λ b. no_error b t.reports ≡ true) earlier h))

check_method-clean :
    (self : Text) (fn : FnDecl) (s : Sema)
    → (check_method self fn s).0 ≡ clean (check_method self fn s).1
unfolding check_method is_clean has_error ◌>>=◌ ◌>>◌ pure
check_method-clean self fn s = refl

check_fn-clean : (fn : FnDecl) (s : Sema) → (check_fn fn s).0 ≡ clean (check_fn fn s).1
unfolding check_fn is_clean has_error ◌>>=◌ ◌>>◌ pure
check_fn-clean fn s = refl

check_methods-clean :
    (self : Text) (ms : List FnDecl) (s : Sema)
    → s.scopes ≡ []
    → clean (check_methods self ms s).1 ≡ true
    → (check_methods self ms s).0 ≡ true
unfolding check_methods ◌>>=◌ pure
check_methods-clean self [] s h c = refl
check_methods-clean self (m ∷ ms) s h c =
    let a = check_method-Settled self m s h in
    let later = check_methods-Settled self ms (check_method self m s).1 (a.scopes h) in
    let rest = check_methods-clean self ms (check_method self m s).1 (a.scopes h) c in
    let ok = check_method-clean self m s ∙ Settled-clean later refl c in rw rest (rw ok refl)

check_decl-clean :
    (d : Decl) (s : Sema)
    → s.scopes ≡ []
    → clean (check_decl d s).1 ≡ true
    → (check_decl d s).0 ≡ true
unfolding check_decl ◌>>=◌ pure is_clean has_error
check_decl-clean (struct_decl d) s h c = rw (check_methods-clean d.name d.methods s h c) c
check_decl-clean (trait_decl d) s h c = c
check_decl-clean (impl_decl d) s h c = rw (check_methods-clean d.type_name d.methods s h c) c
check_decl-clean (fn_decl d) s h c = check_fn-clean d s ∙ c

Later-clean : {s t : Sema} → Later s t → clean t ≡ true → clean s ≡ true
unfolding is_clean has_error ◌>>=◌ pure
Later-clean {s} {t} p h = no_error-append s.tables.earlier_error s.reports p.reports.more (
    subst (λ rs. no_error s.tables.earlier_error rs ≡ true) p.reports.is_more
      (subst (λ b. no_error b t.reports ≡ true) p.earlier h))

Settled-Later : {s t : Sema} → Settled same s t → Later s t
Settled-Later p = record {
  reports = p.reports;
  region_depth = p.region_depth;
  mutable_region_depth = p.mutable_region_depth;
  earlier = ap (λ (x : Tables). x.earlier_error) p.tables;
  scopes = p.scopes;
}

abbrev at_decl : Option PlacedDecl → Sema → Sema
at_decl d s = (set_tables (set_current d) s).1

Later-at_decl : (d : Option PlacedDecl) (s : Sema) → Later s (at_decl d s)
Later-at_decl d s = (Tabular-set_tables (set_current d) (λ t. refl)).at s

check_current-Later :
    (d : PlacedDecl) (s : Sema) → s.scopes ≡ [] → Later s (check_decl d.decl (at_decl (some d) s)).1
check_current-Later d s h =
    let a = Later-at_decl (some d) s in
    Later-trans a (Settled-Later (check_decl-Settled d.decl (at_decl (some d) s) (a.scopes h)))

check_decls-Later : (ds : List PlacedDecl) (s : Sema) → s.scopes ≡ [] → Later s (check_decls ds s).1
unfolding check_decls ◌>>=◌ ◌>>◌ pure
check_decls-Later [] s h = Later-refl s
check_decls-Later (d ∷ ds) s h =
    let a = check_current-Later d s h in
    let b = Later-trans a (Later-at_decl none (check_decl d.decl (at_decl (some d) s)).1) in
    Later-trans b (check_decls-Later ds _ (b.scopes h))

check_decls-clean :
    (ds : List PlacedDecl) (s : Sema)
    → s.scopes ≡ []
    → clean (check_decls ds s).1 ≡ true
    → (check_decls ds s).0 ≡ true
unfolding check_decls ◌>>=◌ ◌>>◌ pure
check_decls-clean [] s h c = refl
check_decls-clean (d ∷ ds) s h c =
    let a = Later-at_decl (some d) s in
    let t = (check_decl d.decl (at_decl (some d) s)).1 in
    let b = Later-at_decl none t in
    let e = b.scopes ((check_current-Later d s h).scopes h) in
    let rest = check_decls-clean ds (at_decl none t) e c in
    let so_far = Later-clean b (Later-clean (check_decls-Later ds (at_decl none t) e) c) in
    let ok = check_decl-clean d.decl (at_decl (some d) s) (a.scopes h) so_far in
    rw rest (rw ok refl)

abbrev set_up : List PlacedDecl → Sema → Sema
set_up file s =
    let s1 = (collect_modules file s).1 in
    let s2 = (collect_structs file s1).1 in
    let s3 = (collect_traits file s2).1 in
    let s4 = (collect_impl_methods file s3).1 in
    let s5 = (collect_function_signatures file s4).1 in (validate_trait_impls file s5).1

set_up-Later : (file : List PlacedDecl) (s : Sema) → Later s (set_up file s)
set_up-Later file s = Later-trans ((collect_modules-Tabular file).at s) (
    Later-trans ((collect_structs-Tabular file).at _) (
      Later-trans ((collect_traits-Tabular file).at _) (
        Later-trans ((collect_impl_methods-Tabular file).at _) (
          Later-trans ((collect_function_signatures-Tabular file).at _)
            ((validate_trait_impls-Tabular file).at _)))))

check-Later : (file : List PlacedDecl) (s : Sema) → s.scopes ≡ [] → Later s (check file s).1
unfolding check is_clean has_error ◌>>=◌ ◌>>◌ pure
check-Later file s h =
    let a = set_up-Later file s in
    Later-trans a (check_decls-Later file (set_up file s) (a.scopes h))

absorb : (b c : Bool) → (c ≡ true → b ≡ true) → (b && c) ≡ c
absorb true c h = refl
absorb false true h = cc (h refl)
absorb false false h = refl

-- From no scope, `check` returns true exactly when there is no error after it, neither one from
-- before nor one of its own.
pub check-clean :
    (file : List PlacedDecl) (s : Sema) → s.scopes ≡ [] → (check file s).0 ≡ clean (check file s).1
unfolding check is_clean has_error ◌>>=◌ ◌>>◌ pure
check-clean file s h =
    absorb _ _ (check_decls-clean file (set_up file s) ((set_up-Later file s).scopes h))
