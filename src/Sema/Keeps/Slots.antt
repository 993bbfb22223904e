-- ===== src/Sema/Keeps/Slots.antt =====
-- What assignments through slots and declarations of src/hir/Sema.cpp leave as it is.
use gura.Prelude.{
  ◌≡◌, refl, sym, ap, ◌∙◌, inl, inr, false, Option, none, some, List, [], ◌∷◌, ◌++◌, length, arith,
  Bool-cases,
}
use gura.Basic.{same_text}
use gura.Ast.{Text}
use gura.Hir.Laws.{same_text_comm}
use gura.Sema.{
  Sema, Scope, Binding, BindingAvailability, available, M, ◌>>=◌, ◌>>◌, pure, gets, modify, has_key,
  emplace, text,
}
use gura.Sema.Scopes.{
  Slot, declare, set_slot, set_availability, modify_slot, borrow, open_borrow, restore_source,
  borrowed, tail_of, top_scope,
}
use gura.Sema.Outline.{
  fixed, outline, Distinct, Extends-refl, Extends-eq, modify_slot-outline, length-outline, All-same,
  tail_of-outline, top_scope-outline, outline_scope-append,
}
use gura.Sema.Keeps.{WellScoped, Keeps, Good-pure, Good-bind, Good-then, Good-report, Good}

-- Scopes with the same outline.
pub same-Keeps :
    (s : Sema) (xs : List Scope)
    → WellScoped s
    → outline xs ≡ outline s.scopes
    → Keeps s (record s { scopes = xs })
same-Keeps s xs w e = record {
  reports = Extends-refl s.reports;
  region_depth = refl;
  mutable_region_depth = refl;
  tables = refl;
  outer = tail_of-outline xs ∙ ap tail_of e ∙ sym (tail_of-outline s.scopes);
  inner = Extends-eq (top_scope-outline xs ∙ ap top_scope e ∙ sym (top_scope-outline s.scopes));
  well_scoped = record {
    open_scope =
        omega
          (arith, w.open_scope, sym (length-outline xs) ∙ ap length e ∙ length-outline s.scopes);
    distinct = All-same s.scopes xs e w.distinct;
  };
}

pub Good-set_slot :
    (p : Slot) (f : Binding → Binding)
    → ((b : Binding) → fixed (f b) ≡ fixed b)
    → Good (set_slot p f)
unfolding set_slot modify
Good-set_slot p f h = record {
  at = λ s w. same-Keeps s (modify_slot p f s.scopes) w (modify_slot-outline f h p s.scopes);
}

pub Good-set_availability :
    (p : Slot) (a : BindingAvailability) → Good (set_slot p (set_availability a))
Good-set_availability p a = Good-set_slot p (set_availability a) (λ b. refl)

pub Good-open_borrow : (source : Option (Slot × Binding)) → Good (open_borrow source)
unfolding open_borrow
Good-open_borrow none = Good-pure available
Good-open_borrow (some (p, b)) =
    Good-then (set_slot p (set_availability (borrow b.availability))) (pure b.availability)
      (Good-set_availability p (borrow b.availability)) (Good-pure b.availability)

pub Good-restore_source :
    (source : Option (Slot × Binding)) (a : BindingAvailability) → Good (restore_source source a)
unfolding restore_source
Good-restore_source none a = Good-pure tt
Good-restore_source (some (p, b)) a = Good-set_availability p a

pub Good-borrowed {ℓ} :
    {A : Type ℓ} (source : Option (Slot × Binding)) (m : M A) → Good m → Good (borrowed source m)
unfolding borrowed
Good-borrowed source m k = Good-bind (open_borrow source) _ (Good-open_borrow source) λ previous.
    Good-bind m _ k λ result.
      Good-then (restore_source source previous) (pure result) (Good-restore_source source previous)
        (Good-pure result)

has_key-append :
    (k n : Text) (b : Binding) (x : Scope)
    → same_text n k ≡ false
    → has_key k x ≡ false
    → has_key k (x ++ ((n, b) ∷ [])) ≡ false
unfolding has_key
has_key-append k n b [] h e = ground arith
has_key-append k n b ((m, c) ∷ x) h e =
    let rest = has_key-append k n b x h (ground arith) in ground arith

Distinct-append :
    (n : Text) (b : Binding) (x : Scope)
    → has_key n x ≡ false
    → Distinct x
    → Distinct (x ++ ((n, b) ∷ []))
unfolding has_key
Distinct-append n b [] h d = (refl, tt)
Distinct-append n b ((m, c) ∷ x) h d = (
  has_key-append m n b x (same_text_comm n m ∙ ground arith) d.0,
  Distinct-append n b x (ground arith) d.1,
)

abbrev pub scoped : Sema → List Scope → Sema
scoped s xs = record s { scopes = xs }

declare_new :
    (s : Sema) (n : Text) (b : Binding) (x : Scope) (xs : List Scope)
    → has_key n x ≡ false
    → WellScoped (scoped s (x ∷ xs))
    → Keeps (scoped s (x ∷ xs)) (scoped s ((x ++ ((n, b) ∷ [])) ∷ xs))
declare_new s n b x xs h w = record {
  reports = Extends-refl s.reports;
  region_depth = refl;
  mutable_region_depth = refl;
  tables = refl;
  outer = refl;
  inner = record { more = (n, fixed b) ∷ []; is_more = outline_scope-append x ((n, b) ∷ []) };
  well_scoped = record {
    open_scope = omega arith;
    distinct = (Distinct-append n b x h w.distinct.0, w.distinct.1);
  };
}

declare_on :
    (n : Text) (b : Binding) (xs : List Scope) (s : Sema)
    → WellScoped (scoped s xs)
    → Keeps (scoped s xs) (declare n b (scoped s xs)).1
unfolding declare modify gets ◌>>=◌ ◌>>◌ emplace
declare_on n b [] s w = absurd (omega (arith, w.open_scope))
declare_on n b (x ∷ xs) s w = elim (Bool-cases (has_key n x)) [
  | inl y ↦ rw y (
      (Good-report b.span "binding '{}' is already defined in this scope" (text n ∷ [])).at
        (scoped s (x ∷ xs)) w)
  | inr k ↦ rw k (declare_new s n b x xs k w)
]

pub Good-declare : (n : Text) (b : Binding) → Good (declare n b)
Good-declare n b = record { at = λ s w. declare_on n b s.scopes s w }
