-- ===== src/Sema/Keeps.antt =====
-- What the checks of src/hir/Sema.cpp leave as it is, one rule for each way to build an action.
pub mod Slots
pub mod Regions
use gura.Prelude.{
  ℕ, ◌+◌, ◌-◌, ◌<◌, ◌≡◌, refl, sym, ap, ◌∙◌, inl, inr, Bool, true, false, Option, none, some, List,
  [], ◌∷◌, ◌++◌, if◌then◌else◌, length, All, arith, Bool-cases, String,
}
use gura.Basic.{Span, same_text}
use gura.Ast.{Text, RegionKind}
use gura.Hir.Laws.{same_text_comm}
use gura.Sema.{
  Sema, Scope, Binding, BindingAvailability, available, Argument, Tables, M, ◌>>=◌, ◌>>◌, pure,
  gets, lookup_table, modify, report, report_if, fail_with, each, has_key, emplace, text,
}
use gura.Sema.Scopes.{
  Slot, SuspendedBinding, push_scope, pop_scope, declare, lookup, lookup_in, set_slot,
  set_availability, modify_slot, borrow, suspend_outer, suspend_scopes, restore_scopes,
  restore_suspended, open_borrow, restore_source, borrowed, in_scope, suspending, deepen, deeper,
  is_enter, tail_of, top_scope,
}
use gura.Sema.Outline.{
  fixed, outline, outline_scope, Distinct, Extends, Extends-refl, Extends-trans, Extends-eq,
  modify_slot-outline, length-outline, outline-restore_scopes, All-same, tail_of-outline,
  top_scope-outline, outline_scope-append,
}
use gura.Sema.Suspension.{
  length-restore_scopes, restore_scopes-tail, suspend_scopes-IsBelow, length-suspend_scopes,
  suspend_scopes-Distinct, restore_scopes-suspend_scopes, IsBelow,
}

-- There is a scope, and no name stands twice in one.
pub record WellScoped (s : Sema) : Type 0 where
  pub open_scope : 0 < length s.scopes
  pub distinct : All Distinct s.scopes

-- Reports are only added, the depths and the tables are as before, the outer scopes have the same
-- bindings up to availability, and the innermost has those and more.
pub record Keeps (s t : Sema) : Type 0 where
  pub reports : Extends s.reports t.reports
  pub region_depth : t.region_depth ≡ s.region_depth
  pub mutable_region_depth : t.mutable_region_depth ≡ s.mutable_region_depth
  pub tables : t.tables ≡ s.tables
  pub outer : outline (tail_of t.scopes) ≡ outline (tail_of s.scopes)
  pub inner : Extends (outline_scope (top_scope s.scopes)) (outline_scope (top_scope t.scopes))
  pub well_scoped : WellScoped t

pub record Good {ℓ} {A : Type ℓ} (m : M A) : Type ℓ where
  pub at : (s : Sema) → WellScoped s → Keeps s (m s).1

Keeps-refl : (s : Sema) → WellScoped s → Keeps s s
Keeps-refl s w = record {
  reports = Extends-refl s.reports;
  region_depth = refl;
  mutable_region_depth = refl;
  tables = refl;
  outer = refl;
  inner = Extends-refl (outline_scope (top_scope s.scopes));
  well_scoped = w;
}

Keeps-trans : {s t u : Sema} → Keeps s t → Keeps t u → Keeps s u
Keeps-trans p q = record {
  reports = Extends-trans p.reports q.reports;
  region_depth = q.region_depth ∙ p.region_depth;
  mutable_region_depth = q.mutable_region_depth ∙ p.mutable_region_depth;
  tables = q.tables ∙ p.tables;
  outer = q.outer ∙ p.outer;
  inner = Extends-trans p.inner q.inner;
  well_scoped = q.well_scoped;
}

module _ {ℓ} {A : Type ℓ} where
  pub Good-pure : (a : A) → Good (pure a)
  unfolding pure
  Good-pure a = record { at = λ s w. Keeps-refl s w }

  pub Good-gets : (f : Sema → A) → Good (gets f)
  unfolding gets
  Good-gets f = record { at = λ s w. Keeps-refl s w }

  pub Good-lookup_table : (f : Tables → A) → Good (lookup_table f)
  unfolding lookup_table
  Good-lookup_table f = record { at = λ s w. Keeps-refl s w }

  pub Good-if : (b : Bool) (m n : M A) → Good m → Good n → Good (if b then m else n)
  Good-if true m n km kn = km
  Good-if false m n km kn = kn

pub Good-option {ℓ κ} :
    {A : Type ℓ} {B : Type κ} (o : Option B) (m : M A) (f : B → M A)
    → Good m
    → ((b : B) → Good (f b))
    → Good (elim o [ none ↦ m | some b ↦ f b ])
Good-option none m f km kf = km
Good-option (some b) m f km kf = kf b

pub Good-bind {ℓ κ} :
    {A : Type ℓ} {B : Type κ} (m : M A) (f : A → M B)
    → Good m
    → ((a : A) → Good (f a))
    → Good (m >>= f)
unfolding ◌>>=◌
Good-bind m f km kf = record {
  at = λ s w. let k = km.at s w in Keeps-trans k ((kf (m s).0).at (m s).1 k.well_scoped);
}

pub Good-then {κ} : {B : Type κ} (m : M (Unit {0})) (n : M B) → Good m → Good n → Good (m >> n)
unfolding ◌>>◌
Good-then m n km kn = Good-bind m (λ _. n) km (λ _. kn)

pub Good-report :
    (span : Span) (template : String) (arguments : List Argument)
    → Good (report span template arguments)
unfolding report
Good-report span template arguments = record {
  at = λ s w. record {
    reports = record {
      more = record { span = span; template = template; arguments = arguments } ∷ [];
      is_more = refl;
    };
    region_depth = refl;
    mutable_region_depth = refl;
    tables = refl;
    outer = refl;
    inner = Extends-refl (outline_scope (top_scope s.scopes));
    well_scoped = record { open_scope = w.open_scope; distinct = w.distinct };
  };
}

pub Good-report_if :
    (b : Bool) (span : Span) (template : String) (arguments : List Argument)
    → Good (report_if b span template arguments)
unfolding report_if
Good-report_if b span template arguments =
    Good-if b (report span template arguments) (pure tt) (Good-report span template arguments)
      (Good-pure tt)

pub Good-fail_with {ℓ} :
    {A : Type ℓ} (a : A) (span : Span) (template : String) (arguments : List Argument)
    → Good (fail_with a span template arguments)
unfolding fail_with
Good-fail_with a span template arguments =
    Good-then (report span template arguments) (pure a) (Good-report span template arguments)
      (Good-pure a)

pub Good-each {ℓ} :
    {A : Type ℓ} (f : A → M (Unit {0})) (xs : List A) → ((a : A) → Good (f a)) → Good (each f xs)
unfolding each
Good-each f [] k = Good-pure tt
Good-each f (x ∷ xs) k = Good-then (f x) (each f xs) (k x) (Good-each f xs k)

pub Good-lookup : (n : Text) → Good (lookup n)
unfolding lookup
Good-lookup n = Good-gets (λ s. lookup_in n s.scopes)
