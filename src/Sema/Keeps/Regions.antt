-- ===== src/Sema/Keeps/Regions.antt =====
-- What region blocks of src/hir/Sema.cpp leave as it is: depths, scopes, suspended bindings.
use gura.Prelude.{
  ℕ, ◌+◌, ◌-◌, ◌<◌, ◌≡◌, refl, sym, ap, ◌∙◌, List, [], ◌∷◌, if◌then◌else◌, length, All, arith,
}
use gura.Ast.{RegionKind}
use gura.Sema.{Sema, Scope, M, ◌>>=◌, ◌>>◌, pure, modify}
use gura.Sema.Scopes.{
  SuspendedBinding, push_scope, pop_scope, suspend_outer, suspend_scopes, restore_scopes,
  restore_suspended, in_scope, suspending, deepen, deeper, is_enter, tail_of, top_scope,
}
use gura.Sema.Outline.{
  outline, outline_scope, Distinct, Extends-trans, Extends-eq, length-outline,
  outline-restore_scopes, All-same, tail_of-outline, top_scope-outline,
}
use gura.Sema.Suspension.{
  length-restore_scopes, restore_scopes-tail, suspend_scopes-IsBelow, length-suspend_scopes,
  suspend_scopes-Distinct, restore_scopes-suspend_scopes, IsBelow,
}
use gura.Sema.Keeps.Slots.{Good-set_availability, Good-borrowed, scoped, Good-declare}
use gura.Sema.Keeps.{
  WellScoped, Keeps, Good-pure, Good-gets, Good-lookup_table, Good-if, Good-option, Good-bind,
  Good-then, Good-report, Good-report_if, Good-fail_with, Good-each, Good-lookup, Good,
}

add_enter :
    (kind : RegionKind) (d e : ℕ)
    → e ≡ (if is_enter kind then d + 1 else d)
    → (if is_enter kind then e - 1 else e) ≡ d
add_enter RegionKind.enter d e h = omega arith
add_enter RegionKind.explore d e h = h

pub Good-deeper {ℓ} : {A : Type ℓ} (kind : RegionKind) (m : M A) → Good m → Good (deeper kind m)
unfolding deeper modify ◌>>=◌ ◌>>◌ pure
Good-deeper kind m k = record {
  at = λ s w.
      let g = k.at (deepen kind s) (record { open_scope = w.open_scope; distinct = w.distinct }) in
      record {
        reports = g.reports;
        region_depth = omega (arith, g.region_depth);
        mutable_region_depth =
            add_enter kind s.mutable_region_depth (m (deepen kind s)).1.mutable_region_depth
              g.mutable_region_depth;
        tables = g.tables;
        outer = g.outer;
        inner = g.inner;
        well_scoped = record {
          open_scope = g.well_scoped.open_scope;
          distinct = g.well_scoped.distinct;
        };
      };
}

length-tail_of :
    (xs ys : List Scope) → outline (tail_of xs) ≡ outline ys → length (tail_of xs) ≡ length ys
length-tail_of xs ys e = sym (length-outline (tail_of xs)) ∙ ap length e ∙ length-outline ys

All-tail_of : (xs : List Scope) → All Distinct xs → All Distinct (tail_of xs)
All-tail_of [] d = tt
All-tail_of (x ∷ xs) d = d.1

pub Good-in_scope {ℓ} : {A : Type ℓ} (m : M A) → Good m → Good (in_scope m)
unfolding in_scope push_scope pop_scope modify ◌>>=◌ ◌>>◌ pure
Good-in_scope m k = record {
  at = λ s w.
      let g =
        k.at (scoped s ([] ∷ s.scopes))
          (record { open_scope = omega arith; distinct = (tt, w.distinct) }) in
      let t = (m (scoped s ([] ∷ s.scopes))).1 in
      let xs = tail_of t.scopes in
      record {
        reports = g.reports;
        region_depth = g.region_depth;
        mutable_region_depth = g.mutable_region_depth;
        tables = g.tables;
        outer = tail_of-outline xs ∙ ap tail_of g.outer ∙ sym (tail_of-outline s.scopes);
        inner =
            Extends-eq
              (top_scope-outline xs ∙ ap top_scope g.outer ∙ sym (top_scope-outline s.scopes));
        well_scoped = record {
          open_scope = omega (arith, w.open_scope, length-tail_of t.scopes s.scopes g.outer);
          distinct = All-tail_of t.scopes g.well_scoped.distinct;
        };
      };
}

-- Restoring what was suspended below a scope, whatever was done in between.
restored :
    (es : List SuspendedBinding) (ys zs : List Scope)
    → All (IsBelow (length (tail_of ys))) es
    → 0 < length ys
    → outline (tail_of ys) ≡ outline zs
    → (outline (tail_of (restore_scopes es ys)) ≡ outline (restore_scopes es zs))
      × (outline_scope (top_scope (restore_scopes es ys)) ≡ outline_scope (top_scope ys))
restored es [] zs h o e = absurd (omega (arith, o))
restored es (y ∷ ys) zs h o e = rw (restore_scopes-tail es y ys h) (
  outline-restore_scopes es ys ∙ ap (restore_scopes es) e ∙ sym (outline-restore_scopes es zs),
  refl,
)

top-Distinct : (xs : List Scope) → All Distinct xs → Distinct (top_scope xs)
top-Distinct [] d = tt
top-Distinct (x ∷ xs) d = d.0

join-Distinct :
    (xs : List Scope) → Distinct (top_scope xs) → All Distinct (tail_of xs) → All Distinct xs
join-Distinct [] d e = tt
join-Distinct (x ∷ xs) d e = (d, e)

-- Scopes whose innermost looks like that of `ys`, and whose others look like `zs`.
All-parts :
    (xs ys zs : List Scope)
    → outline_scope (top_scope xs) ≡ outline_scope (top_scope ys)
    → outline (tail_of xs) ≡ outline zs
    → All Distinct ys
    → All Distinct zs
    → All Distinct xs
All-parts xs ys zs e f d g =
    join-Distinct xs
      (All-same (top_scope ys ∷ []) (top_scope xs ∷ []) (ap (λ z. z ∷ []) e)
        (top-Distinct ys d, tt)).0
      (All-same zs (tail_of xs) f g)

suspended_Good {ℓ} :
    {A : Type ℓ} (m : M A)
    → Good m
    → (x : Scope) (xs : List Scope) (s : Sema) → WellScoped (scoped s (x ∷ xs))
    → Keeps (scoped s (x ∷ xs)) (suspending m (scoped s (x ∷ xs))).1
unfolding suspending suspend_outer restore_suspended modify ◌>>=◌ ◌>>◌ pure
suspended_Good m k x xs s w =
    let es = (suspend_scopes xs).0 in
    let zs = (suspend_scopes xs).1 in
    let g = k.at (scoped s (x ∷ zs)) (record {
      open_scope = omega arith;
      distinct = (w.distinct.0, suspend_scopes-Distinct xs w.distinct.1);
    }) in
    let ys = (m (scoped s (x ∷ zs))).1.scopes in
    let l = length-tail_of ys zs g.outer in
    let r =
      restored es ys zs (rw l (rw (length-suspend_scopes xs) (suspend_scopes-IsBelow xs)))
        g.well_scoped.open_scope g.outer in
    let back = restore_scopes-suspend_scopes xs w.distinct.1 in
    record {
      reports = g.reports;
      region_depth = g.region_depth;
      mutable_region_depth = g.mutable_region_depth;
      tables = g.tables;
      outer = r.0 ∙ ap outline back;
      inner = Extends-trans g.inner (Extends-eq r.1);
      well_scoped = record {
        open_scope = omega (arith, length-restore_scopes es ys, g.well_scoped.open_scope);
        distinct =
            All-parts (restore_scopes es ys) ys xs r.1 (r.0 ∙ ap outline back)
              g.well_scoped.distinct w.distinct.1;
      };
    }

suspending_on {ℓ} :
    {A : Type ℓ} (m : M A)
    → Good m
    → (xs : List Scope) (s : Sema) → WellScoped (scoped s xs)
    → Keeps (scoped s xs) (suspending m (scoped s xs)).1
suspending_on m k [] s w = absurd (omega (arith, w.open_scope))
suspending_on m k (x ∷ xs) s w = suspended_Good m k x xs s w

pub Good-suspending {ℓ} : {A : Type ℓ} (m : M A) → Good m → Good (suspending m)
Good-suspending m k = record { at = λ s w. suspending_on m k s.scopes s w }

pub ruleset keeps_rules = (
  Good-pure, Good-gets, Good-lookup_table, Good-if, Good-option, Good-bind, Good-then, Good-report,
  Good-report_if, Good-fail_with, Good-each, Good-lookup, Good-set_availability, Good-borrowed,
  Good-declare, Good-deeper, Good-in_scope, Good-suspending,
)
