-- ===== src/Sema/Escapes.antt =====
-- src/hir/Sema.cpp: values that may not leave a region block, by what `checkEscape` reports.
use gura.Prelude.{
  ℕ, ◌≢◌, ◌⊎◌, inl, inr, Bool-cases, sym, length, length-append, ◌≡◌, refl, ap, ◌∙◌, true, false,
  not, ◌||◌, List, [], ◌∷◌, ◌++◌, arith, String,
}
use gura.Basic.{Span}
use gura.Ast.{Text, Node, Expr, RegionKind}
use gura.Hir.{HirType, is_invalid, is_region_local, capability_of, same_capability, Capability}
use gura.Sema.{
  Sema, Report, region_block_result, M, ◌>>=◌, ◌>>◌, pure, gets, report, report_if, fail_with,
  span_or,
}
use gura.Ast.{region, Block}
use gura.Sema.{ValueContext}
use gura.Sema.Exprs.{check_expr, check_block}
use gura.Sema.Preservation.{check_block-Good}
use gura.Sema.Types.{check_escape}
use gura.Sema.Control.{check_region, find_source, source_type, is_found, declare_bridge}
use gura.Sema.Scopes.{borrowed, deeper, in_scope, suspending}
use gura.Hir.Paths.{as_name_expr}
use gura.Hir.{mut, tmp, iso, imm, paused, cown, no_capability}
use gura.Sema.CallEffects.{find_source-Good, source_type-Good, declare_bridge-Good}
use gura.Sema.Keeps.Regions.{keeps_rules}
use gura.Sema.Outline.{Extends}
use gura.Sema.Keeps.{Good, WellScoped}

-- The report is among those of the state.
pub record Reported (t : Sema) (span : Span) (template : String) : Type 0 where
  pub before : List Report
  pub after : List Report
  pub is_reported :
      t.reports ≡ before ++ (record { span = span; template = template; arguments = [] } ∷ after)

-- The report of a region block's result.
abbrev result_report : Span → Report
result_report span = record {
  span = span;
  template = "region block cannot return mut/tmp/paused values";
  arguments = [];
}

result-reports :
    (v : HirType) (depth : ℕ) (span : Span) (s : Sema)
    → is_region_local (capability_of v) ≡ true
    → is_invalid v ≡ false
    → (check_escape v region_block_result depth span s).1.reports
      ≡ s.reports ++ (result_report span ∷ [])
unfolding check_escape gets fail_with report ◌>>=◌ ◌>>◌ pure
result-reports v depth span s loc valid = rw valid (rw loc refl)

-- `checkRegion` up to the test of its result, with a body that is checked by `body`.
abbrev region_value : Node → RegionKind → Expr → Text → M HirType → M HirType
region_value node kind source n body = do
  found ← find_source (as_name_expr source)
  t ← source_type source (as_name_expr source)
  report_if (not (is_found found) || not (same_capability (capability_of t) iso))
      (span_or source node.span) "enter/explore source must be an iso binding" []
  borrowed found (deeper kind (in_scope (suspending (do declare_bridge node kind t n; body))))

region_value-Good :
    (node : Node) (kind : RegionKind) (source : Expr) (n : Text) (body : M HirType)
    → Good body
    → Good (region_value node kind source n body)
region_value-Good node kind source n body g =
    search (keeps_rules, find_source-Good, source_type-Good, declare_bridge-Good) depth 14

-- No list is itself with more behind it.
no-longer {ℓ} : {A : Type ℓ} (xs ys : List A) (y : A) → Extends xs ys → (ys ++ (y ∷ [])) ≢ xs
no-longer xs ys y e h =
    let p = ap length h in
    let q = ap length e.is_more in
    omega (arith, length-append ys (y ∷ []), length-append xs e.more, p, q)

check_region-quiet :
    (node : Node) (kind : RegionKind) (source : Expr) (n : Text) (body : M HirType) (s : Sema)
    → Good body
    → WellScoped s
    → (check_region node kind source n body s).1.reports ≡ s.reports
    → (is_invalid (check_region node kind source n body s).0 ≡ true)
      ⊎ (is_region_local (capability_of (check_region node kind source n body s).0) ≡ false)
unfolding check_region ◌>>=◌ ◌>>◌ pure gets
check_region-quiet node kind source n body s g w quiet =
    let r = region_value node kind source n body s in
    let k = (region_value-Good node kind source n body g).at s w in
    elim (Bool-cases (is_invalid r.0)) [
      | inl y ↦ inl y
      | inr valid ↦ elim (Bool-cases (is_region_local (capability_of r.0))) [
        | inr z ↦ inr z
        | inl loc ↦
            let e = result-reports r.0 r.1.region_depth node.span r.1 loc valid in
            absurd
              (no-longer s.reports r.1.reports (result_report node.span) k.reports (sym e ∙ quiet))
      ]
    ]

-- The capabilities that do not tie a value to its region.
pub data IsFree : Capability → Type 0 where
  iso_free : IsFree iso
  imm_free : IsFree imm
  cown_free : IsFree cown
  none_free : IsFree no_capability

IsFree-cases : (c : Capability) → is_region_local c ≡ false → IsFree c
unfolding is_region_local
IsFree-cases mut h = cc
IsFree-cases tmp h = cc
IsFree-cases iso h = iso_free
IsFree-cases imm h = imm_free
IsFree-cases paused h = cc
IsFree-cases cown h = cown_free
IsFree-cases no_capability h = none_free

-- From scopes in which no name stands twice, a region block, with whatever is in its body, that
-- is checked without a new error has an invalid type, or one that is iso, imm, cown or without a
-- capability: never one that is mut, tmp or paused.
pub check_expr-region :
    (node : Node) (kind : RegionKind) (source : Expr) (n : Text) (body : Block) (c : ValueContext)
    (s : Sema)
    → WellScoped s
    → (check_expr (region node kind source n body) c s).1.reports ≡ s.reports
    → (is_invalid (check_expr (region node kind source n body) c s).0 ≡ true)
      ⊎ IsFree (capability_of (check_expr (region node kind source n body) c s).0)
unfolding check_expr
check_expr-region node kind source n body c s w quiet =
    elim (check_region-quiet node kind source n (check_block body) s (check_block-Good body) w
      quiet) [ inl y ↦ inl y | inr z ↦ inr (IsFree-cases _ z) ]
