-- ===== src/Sema/Outline.antt =====
-- Scopes up to what a check of an expression changes in them: availability, and whether a bridge was
-- reassigned.
use gura.Prelude.{
  suc, ◌≡◌, refl, sym, ap, ◌∙◌, inl, inr, false, ◌||◌, List, [], ◌∷◌, ◌++◌, append-nil,
  append_assoc, ◌==◌, length, All, Bool-cases,
}
use gura.Basic.{same_text}
use gura.Ast.{Text}
use gura.Sema.{Binding, available, Scope, has_key}
use gura.Sema.Scopes.{
  Slot, SuspendedBinding, modify_entry, modify_slot, restore_scopes, tail_of, top_scope,
  restore_binding,
}

abbrev pub fixed : Binding → Binding
fixed b = record b { availability = available; bridge_reassigned = false }

abbrev pub outline_scope : Scope → Scope
outline_scope [] = []
outline_scope ((n, b) ∷ x) = (n, fixed b) ∷ outline_scope x

abbrev pub outline : List Scope → List Scope
outline [] = []
outline (x ∷ xs) = outline_scope x ∷ outline xs

-- No name stands twice in a scope.
abbrev pub Distinct : Scope → Type 0
Distinct [] = Unit
Distinct ((n, b) ∷ x) = (has_key n x ≡ false) × Distinct x

-- The entries of a scope with more behind them.
pub record Extends {ℓ} {A : Type ℓ} (xs ys : List A) : Type ℓ where
  pub more : List A
  pub is_more : ys ≡ xs ++ more

module _ {ℓ} {A : Type ℓ} where
  pub Extends-refl : (xs : List A) → Extends xs xs
  Extends-refl xs = record { more = []; is_more = sym (append-nil xs) }

  pub Extends-trans : {xs ys zs : List A} → Extends xs ys → Extends ys zs → Extends xs zs
  Extends-trans {xs} p q = record {
    more = p.more ++ q.more;
    is_more = q.is_more ∙ ap (λ l. l ++ q.more) p.is_more ∙ append_assoc xs p.more q.more;
  }

  pub Extends-eq : {xs ys : List A} → ys ≡ xs → Extends xs ys
  Extends-eq {xs} e = record { more = []; is_more = e ∙ sym (append-nil xs) }

-- Changes that the outline does not show.
module _ (f : Binding → Binding) (h : (b : Binding) → fixed (f b) ≡ fixed b) where
  modify_entry-outline :
      (n : Text) (x : Scope) → outline_scope (modify_entry n f x) ≡ outline_scope x
  unfolding modify_entry
  modify_entry-outline n [] = refl
  modify_entry-outline n ((m, b) ∷ x) = elim (Bool-cases (same_text m n)) [
    | inl y ↦ rw y (ap (λ c. (m, c) ∷ outline_scope x) (h b))
    | inr k ↦ rw k (ap (λ z. (m, fixed b) ∷ z) (modify_entry-outline n x))
  ]

  pub modify_slot-outline : (p : Slot) (xs : List Scope) → outline (modify_slot p f xs) ≡ outline xs
  unfolding modify_slot
  modify_slot-outline p [] = refl
  modify_slot-outline p (x ∷ xs) = elim (Bool-cases (p.scope == length xs)) [
    | inl y ↦ rw y (ap (λ z. z ∷ outline xs) (modify_entry-outline p.name x))
    | inr k ↦ rw k (ap (λ z. outline_scope x ∷ z) (modify_slot-outline p xs))
  ]

-- Changes that the outline shows in the same way.
module _ (f : Binding → Binding) (h : (b : Binding) → fixed (f b) ≡ f (fixed b)) where
  outline-modify_entry :
      (n : Text) (x : Scope)
      → outline_scope (modify_entry n f x) ≡ modify_entry n f (outline_scope x)
  unfolding modify_entry
  outline-modify_entry n [] = refl
  outline-modify_entry n ((m, b) ∷ x) = elim (Bool-cases (same_text m n)) [
    | inl y ↦ rw y (ap (λ c. (m, c) ∷ outline_scope x) (h b))
    | inr k ↦ rw k (ap (λ z. (m, fixed b) ∷ z) (outline-modify_entry n x))
  ]

pub length-outline : (xs : List Scope) → length (outline xs) ≡ length xs
length-outline [] = refl
length-outline (x ∷ xs) = ap suc (length-outline xs)

outline-modify_slot :
    (f : Binding → Binding)
    → ((b : Binding) → fixed (f b) ≡ f (fixed b))
    → (p : Slot) (xs : List Scope) → outline (modify_slot p f xs) ≡ modify_slot p f (outline xs)
unfolding modify_slot
outline-modify_slot f h p [] = refl
outline-modify_slot f h p (x ∷ xs) =
    rw (length-outline xs) (elim (Bool-cases (p.scope == length xs)) [
      | inl y ↦ rw y (ap (λ z. z ∷ outline xs) (outline-modify_entry f h p.name x))
      | inr k ↦ rw k (ap (λ z. outline_scope x ∷ z) (outline-modify_slot f h p xs))
    ])

pub outline-restore_scopes :
    (es : List SuspendedBinding) (xs : List Scope)
    → outline (restore_scopes es xs) ≡ restore_scopes es (outline xs)
unfolding restore_scopes
outline-restore_scopes [] xs = refl
outline-restore_scopes (e ∷ es) xs =
    outline-modify_slot (restore_binding e) (λ b. refl) e.slot (restore_scopes es xs)
    ∙ ap (modify_slot e.slot (restore_binding e)) (outline-restore_scopes es xs)

-- The names of a scope are those of its outline.
has_key-outline : (n : Text) (x : Scope) → has_key n (outline_scope x) ≡ has_key n x
unfolding has_key
has_key-outline n [] = refl
has_key-outline n ((m, b) ∷ x) = ap (λ z. same_text m n || z) (has_key-outline n x)

Distinct-outline : (x : Scope) → Distinct x → Distinct (outline_scope x)
Distinct-outline [] d = tt
Distinct-outline ((n, b) ∷ x) d = (has_key-outline n x ∙ d.0, Distinct-outline x d.1)

outline-Distinct : (x : Scope) → Distinct (outline_scope x) → Distinct x
outline-Distinct [] d = tt
outline-Distinct ((n, b) ∷ x) d = (sym (has_key-outline n x) ∙ d.0, outline-Distinct x d.1)

All-outline : (xs : List Scope) → All Distinct xs → All Distinct (outline xs)
All-outline [] d = tt
All-outline (x ∷ xs) d = (Distinct-outline x d.0, All-outline xs d.1)

outline-All : (xs : List Scope) → All Distinct (outline xs) → All Distinct xs
outline-All [] d = tt
outline-All (x ∷ xs) d = (outline-Distinct x d.0, outline-All xs d.1)

-- Scopes with the same outline are distinct together.
pub All-same : (xs ys : List Scope) → outline ys ≡ outline xs → All Distinct xs → All Distinct ys
All-same xs ys e d = outline-All ys (rw e (All-outline xs d))

pub tail_of-outline : (xs : List Scope) → outline (tail_of xs) ≡ tail_of (outline xs)
tail_of-outline [] = refl
tail_of-outline (x ∷ xs) = refl

pub top_scope-outline : (xs : List Scope) → outline_scope (top_scope xs) ≡ top_scope (outline xs)
top_scope-outline [] = refl
top_scope-outline (x ∷ xs) = refl

pub outline_scope-append :
    (x y : Scope) → outline_scope (x ++ y) ≡ outline_scope x ++ outline_scope y
outline_scope-append [] y = refl
outline_scope-append ((n, b) ∷ x) y = ap (λ z. (n, fixed b) ∷ z) (outline_scope-append x y)
