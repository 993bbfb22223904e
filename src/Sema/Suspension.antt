-- ===== src/Sema/Suspension.antt =====
-- src/hir/Sema.cpp: suspending the bindings outside of a region block, and restoring them.
use gura.Prelude.{
  ℕ, suc, ◌<◌, ◌≡◌, refl, sym, ap, ◌∙◌, inl, inr, true, false, ◌||◌, List, [], ◌∷◌, ◌++◌, ◌==◌,
  length, All, arith, Bool-cases,
}
use gura.Basic.{same_text}
use gura.Ast.{Text}
use gura.Hir.{is_writable_receiver, capability_of, adapt_for_suspended_scope}
use gura.Sema.{Binding, Scope, has_key}
use gura.Sema.Scopes.{
  Slot, SuspendedBinding, modify_entry, modify_slot, suspend_scope, suspend_scopes, restore_scopes,
  stays, suspend_binding, restore_binding,
}
use gura.Hir.Laws.{
  same_text_refl, same_text_comm, same_capability-equal, adapt_for_suspended_scope-writable,
}
use gura.Sema.Outline.{Distinct}

-- The suspended bindings of one scope, restored in it.
abbrev restore_scope : List SuspendedBinding → Scope → Scope
restore_scope [] x = x
restore_scope (e ∷ es) x = modify_entry e.slot.name (restore_binding e) (restore_scope es x)

abbrev IsAt : ℕ → SuspendedBinding → Type 0
IsAt i e = e.slot.scope ≡ i

abbrev pub IsBelow : ℕ → SuspendedBinding → Type 0
IsBelow i e = e.slot.scope < i

abbrev Avoids : Text → SuspendedBinding → Type 0
Avoids n e = same_text n e.slot.name ≡ false

length-modify_slot :
    (p : Slot) (f : Binding → Binding) (xs : List Scope) → length (modify_slot p f xs) ≡ length xs
unfolding modify_slot
length-modify_slot p f [] = refl
length-modify_slot p f (x ∷ xs) = elim (Bool-cases (p.scope == length xs)) [
  | inl y ↦ rw y refl
  | inr n ↦ rw n (ap suc (length-modify_slot p f xs))
]

pub length-restore_scopes :
    (es : List SuspendedBinding) (xs : List Scope) → length (restore_scopes es xs) ≡ length xs
unfolding restore_scopes
length-restore_scopes [] xs = refl
length-restore_scopes (e ∷ es) xs =
    length-modify_slot e.slot (restore_binding e) (restore_scopes es xs)
    ∙ length-restore_scopes es xs

pub length-suspend_scopes : (xs : List Scope) → length (suspend_scopes xs).1 ≡ length xs
unfolding suspend_scopes
length-suspend_scopes [] = refl
length-suspend_scopes (x ∷ xs) = ap suc (length-suspend_scopes xs)

restore_scopes-head :
    (es : List SuspendedBinding) (x : Scope) (xs : List Scope)
    → All (IsAt (length xs)) es
    → restore_scopes es (x ∷ xs) ≡ restore_scope es x ∷ xs
unfolding restore_scopes modify_slot
restore_scopes-head [] x xs h = refl
restore_scopes-head (e ∷ es) x xs h =
    let i : (e.slot.scope == length xs) ≡ true = ground (arith, h.0) in
    rw (restore_scopes-head es x xs h.1) (rw i refl)

pub restore_scopes-tail :
    (es : List SuspendedBinding) (x : Scope) (xs : List Scope)
    → All (IsBelow (length xs)) es
    → restore_scopes es (x ∷ xs) ≡ x ∷ restore_scopes es xs
unfolding restore_scopes modify_slot
restore_scopes-tail [] x xs h = refl
restore_scopes-tail (e ∷ es) x xs h =
    let l = length-restore_scopes es xs in
    let i : (e.slot.scope == length (restore_scopes es xs)) ≡ false = ground (arith, h.0) in
    rw (restore_scopes-tail es x xs h.1) (rw i refl)

restore_scopes-append :
    (es fs : List SuspendedBinding) (xs : List Scope)
    → restore_scopes (es ++ fs) xs ≡ restore_scopes es (restore_scopes fs xs)
unfolding restore_scopes
restore_scopes-append [] fs xs = refl
restore_scopes-append (e ∷ es) fs xs =
    ap (modify_slot e.slot (restore_binding e)) (restore_scopes-append es fs xs)

suspend_scope-IsAt : (i : ℕ) (x : Scope) → All (IsAt i) (suspend_scope i x).0
unfolding suspend_scope
suspend_scope-IsAt i [] = tt
suspend_scope-IsAt i ((n, b) ∷ x) = elim (Bool-cases (stays b)) [
  | inl y ↦ rw y (suspend_scope-IsAt i x)
  | inr k ↦ rw k (refl, suspend_scope-IsAt i x)
]

suspend_scope-Avoids :
    (i : ℕ) (n : Text) (x : Scope) → has_key n x ≡ false → All (Avoids n) (suspend_scope i x).0
unfolding suspend_scope has_key
suspend_scope-Avoids i n [] h = tt
suspend_scope-Avoids i n ((m, b) ∷ x) h =
    let rest = suspend_scope-Avoids i n x (ground arith) in
    let other : same_text n m ≡ false = same_text_comm n m ∙ ground arith in
    elim (Bool-cases (stays b)) [ inl y ↦ rw y rest | inr k ↦ rw k (other, rest) ]

restore_scope-Avoids :
    (es : List SuspendedBinding) (n : Text) (b : Binding) (x : Scope)
    → All (Avoids n) es
    → restore_scope es ((n, b) ∷ x) ≡ (n, b) ∷ restore_scope es x
unfolding modify_entry
restore_scope-Avoids [] n b x h = refl
restore_scope-Avoids (e ∷ es) n b x h = rw (restore_scope-Avoids es n b x h.1) (rw h.0 refl)

restore_scope-suspend_scope :
    (i : ℕ) (x : Scope) → Distinct x → restore_scope (suspend_scope i x).0 (suspend_scope i x).1 ≡ x
unfolding suspend_scope modify_entry
restore_scope-suspend_scope i [] d = refl
restore_scope-suspend_scope i ((n, b) ∷ x) d =
    let avoids = suspend_scope-Avoids i n x d.0 in
    let rest = restore_scope-suspend_scope i x d.1 in
    let es = (suspend_scope i x).0 in
    let y = (suspend_scope i x).1 in
    elim (Bool-cases (stays b)) [
      | inl k ↦ rw k (restore_scope-Avoids es n b y avoids ∙ ap (λ z. (n, b) ∷ z) rest)
      | inr k ↦ rw k (
          rw (restore_scope-Avoids es n (suspend_binding b) y avoids)
            (rw (same_text_refl n) (ap (λ z. (n, b) ∷ z) rest)))
    ]

All-append :
    (P : SuspendedBinding → Type 0) (es fs : List SuspendedBinding)
    → All P es
    → All P fs
    → All P (es ++ fs)
All-append P [] fs h k = k
All-append P (e ∷ es) fs h k = (h.0, All-append P es fs h.1 k)

All-IsBelow : (i : ℕ) (es : List SuspendedBinding) → All (IsBelow i) es → All (IsBelow (suc i)) es
All-IsBelow i [] h = tt
All-IsBelow i (e ∷ es) h = (omega (arith, h.0), All-IsBelow i es h.1)

IsAt-IsBelow : (i : ℕ) (es : List SuspendedBinding) → All (IsAt i) es → All (IsBelow (suc i)) es
IsAt-IsBelow i [] h = tt
IsAt-IsBelow i (e ∷ es) h = (omega (arith, h.0), IsAt-IsBelow i es h.1)

pub suspend_scopes-IsBelow : (xs : List Scope) → All (IsBelow (length xs)) (suspend_scopes xs).0
unfolding suspend_scopes
suspend_scopes-IsBelow [] = tt
suspend_scopes-IsBelow (x ∷ xs) =
    All-append (IsBelow (suc (length xs))) (suspend_scopes xs).0 (suspend_scope (length xs) x).0
      (All-IsBelow (length xs) (suspend_scopes xs).0 (suspend_scopes-IsBelow xs))
      (IsAt-IsBelow (length xs) (suspend_scope (length xs) x).0 (suspend_scope-IsAt (length xs) x))

-- Suspending all bindings of scopes in which no name stands twice, and then restoring them,
-- gives the scopes back.
pub restore_scopes-suspend_scopes :
    (xs : List Scope)
    → All Distinct xs
    → restore_scopes (suspend_scopes xs).0 (suspend_scopes xs).1 ≡ xs
unfolding suspend_scopes restore_scopes
restore_scopes-suspend_scopes [] d = refl
restore_scopes-suspend_scopes (x ∷ xs) d =
    let es = (suspend_scopes xs).0 in
    let ys = (suspend_scopes xs).1 in
    let fs = (suspend_scope (length xs) x).0 in
    let y = (suspend_scope (length xs) x).1 in
    let l = length-suspend_scopes xs in
    restore_scopes-append es fs (y ∷ ys)
    ∙ ap (restore_scopes es) (restore_scopes-head fs y ys (rw l (suspend_scope-IsAt (length xs) x)))
    ∙ restore_scopes-tail es (restore_scope fs y) ys (rw l (suspend_scopes-IsBelow xs))
    ∙ ap (λ z. z ∷ restore_scopes es ys) (restore_scope-suspend_scope (length xs) x d.0)
    ∙ ap (λ z. x ∷ z) (restore_scopes-suspend_scopes xs d.1)

suspend_scope-has_key :
    (i : ℕ) (n : Text) (x : Scope) → has_key n (suspend_scope i x).1 ≡ has_key n x
unfolding suspend_scope has_key
suspend_scope-has_key i n [] = refl
suspend_scope-has_key i n ((m, b) ∷ x) =
    let rest = ap (λ z. same_text m n || z) (suspend_scope-has_key i n x) in
    elim (Bool-cases (stays b)) [ inl y ↦ rw y rest | inr k ↦ rw k rest ]

suspend_scope-Distinct : (i : ℕ) (x : Scope) → Distinct x → Distinct (suspend_scope i x).1
unfolding suspend_scope
suspend_scope-Distinct i [] d = tt
suspend_scope-Distinct i ((n, b) ∷ x) d =
    let here = suspend_scope-has_key i n x ∙ d.0 in
    let rest = suspend_scope-Distinct i x d.1 in
    elim (Bool-cases (stays b)) [ inl y ↦ rw y (here, rest) | inr k ↦ rw k (here, rest) ]

pub suspend_scopes-Distinct :
    (xs : List Scope) → All Distinct xs → All Distinct (suspend_scopes xs).1
unfolding suspend_scopes
suspend_scopes-Distinct [] d = tt
suspend_scopes-Distinct (x ∷ xs) d =
    (suspend_scope-Distinct (length xs) x d.0, suspend_scopes-Distinct xs d.1)

-- A binding that can be read at most: neither mutable nor temporary.
abbrev pub IsReadOnly : Text × Binding → Type 0
IsReadOnly e = is_writable_receiver (capability_of e.1.type) ≡ false

suspend_scope-IsReadOnly : (i : ℕ) (x : Scope) → All IsReadOnly (suspend_scope i x).1
unfolding suspend_scope stays
suspend_scope-IsReadOnly i [] = tt
suspend_scope-IsReadOnly i ((n, b) ∷ x) = elim (Bool-cases (stays b)) [
  | inl y ↦ rw y (
    ap is_writable_receiver (
          sym (
            same_capability-equal (capability_of (adapt_for_suspended_scope b.type))
              (capability_of b.type) y))
        ∙ adapt_for_suspended_scope-writable b.type,
    suspend_scope-IsReadOnly i x,
  )
  | inr k ↦ rw k (adapt_for_suspended_scope-writable b.type, suspend_scope-IsReadOnly i x)
]

-- No binding that was suspended for a region block is mut or tmp.
pub suspend_scopes-IsReadOnly : (xs : List Scope) → All (All IsReadOnly) (suspend_scopes xs).1
unfolding suspend_scopes
suspend_scopes-IsReadOnly [] = tt
suspend_scopes-IsReadOnly (x ∷ xs) =
    (suspend_scope-IsReadOnly (length xs) x, suspend_scopes-IsReadOnly xs)
