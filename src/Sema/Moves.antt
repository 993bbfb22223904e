-- ===== src/Sema/Moves.antt =====
-- src/hir/Sema.cpp: moved and open-borrowed bindings, by what `checkName`, `checkMove` and `checkAssign` do.
use gura.Prelude.{
  ℕ, ◌<◌, ◌≡◌, refl, ap, ◌∙◌, ◌⊎◌, inl, inr, Bool, true, false, ◌||◌, Option, none, some, List, [],
  ◌∷◌, length, ◌==◌, arith, Bool-cases, String,
}
use gura.Basic.{Span, same_text}
use gura.Ast.{Text, Node, name, expr_node}
use gura.Hir.{
  HirType, is_invalid, invalid_type, unit_type, same_type, is_region_local, capability_of,
}
use gura.Sema.{
  Sema, Binding, outer_binding, available, moved, open_borrowed, Scope, text, ValueContext, ◌>>=◌,
  ◌>>◌, pure, gets, modify, report, fail_with, find,
}
use gura.Sema.Scopes.{
  Slot, lookup, lookup_in, modify_entry, modify_slot, set_slot, set_availability, open_borrow,
}
use gura.Sema.Types.{check_escape, may_escape}
use gura.Sema.Rules.{check_name, check_move}
use gura.Sema.Access.{check_name_assign, assign_binding, make_available}

record IsSome {ℓ} {A : Type ℓ} (o : Option A) : Type ℓ where
  value : A
  is_value : o ≡ some value

Option-cases {ℓ} : {A : Type ℓ} (o : Option A) → (o ≡ none) ⊎ IsSome o
Option-cases none = inl refl
Option-cases (some a) = inr (record { value = a; is_value = refl })

-- A name that was looked up is in a scope that is there.
pub lookup_in-lt :
    (n : Text) (xs : List Scope) (p : Slot) (b : Binding)
    → lookup_in n xs ≡ some (p, b)
    → p.scope < length xs
unfolding lookup_in
lookup_in-lt n [] p b h = cc
lookup_in-lt n (x ∷ xs) p b h = elim (Option-cases (find n x)) [
  | inl e ↦ let k = lookup_in-lt n xs p b (rw e at h) in omega (arith, k)
  | inr c ↦
      let k : some (record { scope = length xs; name = n }, c.value) ≡ some (p, b) =
        rw c.is_value at h in
      let i : length xs ≡ p.scope = cc in omega (arith, i)
]

find-modify_entry :
    (n : Text) (f : Binding → Binding) (x : Scope) (b : Binding)
    → find n x ≡ some b
    → find n (modify_entry n f x) ≡ some (f b)
unfolding find modify_entry
find-modify_entry n f [] b h = cc
find-modify_entry n f ((m, c) ∷ x) b h = elim (Bool-cases (same_text m n)) [
  | inl y ↦ let e : c ≡ b = cc (h, y) in rw y (rw y (ap (λ z. some (f z)) e))
  | inr k ↦ let e : find n x ≡ some b = cc (h, k) in rw k (rw k (find-modify_entry n f x b e))
]

-- What a name is after an assignment through its slot.
lookup_in-modify_slot :
    (n : Text) (f : Binding → Binding) (xs : List Scope) (p : Slot) (b : Binding)
    → lookup_in n xs ≡ some (p, b)
    → lookup_in n (modify_slot p f xs) ≡ some (p, f b)
unfolding lookup_in modify_slot
lookup_in-modify_slot n f [] p b h = cc
lookup_in-modify_slot n f (x ∷ xs) p b h = elim (Option-cases (find n x)) [
  | inl e ↦
      let k : lookup_in n xs ≡ some (p, b) = rw e at h in
      let l = lookup_in-lt n xs p b k in
      let i : (p.scope == length xs) ≡ false = ground (arith, l) in
      rw i (rw e (lookup_in-modify_slot n f xs p b k))
  | inr c ↦
      let k : some (record { scope = length xs; name = n }, c.value) ≡ some (p, b) =
        rw c.is_value at h in
      let l : length xs ≡ p.scope = cc k in
      let m : p.name ≡ n = cc k in
      let i : (p.scope == length xs) ≡ true = ground (arith, l) in
      let v : find n x ≡ some b = c.is_value ∙ ap some (cc k) in
      rw i (
        rw m (
          rw (find-modify_entry n f x b v)
            (ap (λ z. some (record { scope = z; name = n }, f b)) l)))
]

module _ (s : Sema) (n : Text) (p : Slot) (b : Binding)
    (found : lookup_in n s.scopes ≡ some (p, b)) where
  -- The state with the binding changed by `f`.
  abbrev pub changed : (Binding → Binding) → Sema
  changed f = record s { scopes = modify_slot p f s.scopes }

  changed-found : (f : Binding → Binding) → lookup_in n (changed f).scopes ≡ some (p, f b)
  changed-found f = lookup_in-modify_slot n f s.scopes p b found

  pub check_move-available :
      (node k : Node)
      → b.availability ≡ available
      → check_move node (name k n) s ≡ (b.type, changed (set_availability moved))
  unfolding check_move lookup gets ◌>>=◌ ◌>>◌ pure set_slot modify
  check_move-available node k a = rw found (rw a refl)

  open_borrow-available :
      b.availability ≡ available
      → (open_borrow (some (p, b)) s).1 ≡ changed (set_availability open_borrowed)
  unfolding open_borrow lookup gets ◌>>=◌ ◌>>◌ pure set_slot modify
  open_borrow-available a = rw a refl

-- A use of a name that is refused with the message.
pub record Refused (s : Sema) (n : Text) (template : String) : Type 0 where
  pub name_refused :
      (k : Node) (c : ValueContext)
      → check_name k n c s ≡ (invalid_type, (report k.span template (text n ∷ []) s).1)
  pub move_refused :
      (node k : Node)
      → check_move node (name k n) s ≡ (invalid_type, (report k.span template (text n ∷ []) s).1)

moved-Refused :
    (s : Sema) (n : Text) (p : Slot) (b : Binding)
    → lookup_in n s.scopes ≡ some (p, b)
    → b.availability ≡ moved
    → Refused s n "binding '{}' was already moved"
unfolding check_name check_move lookup gets ◌>>=◌ ◌>>◌ pure fail_with expr_node
moved-Refused s n p b found a = record {
  name_refused = λ k c. rw found (rw a refl);
  move_refused = λ node k. rw found (rw a refl);
}

open_borrowed-Refused :
    (s : Sema) (n : Text) (p : Slot) (b : Binding)
    → lookup_in n s.scopes ≡ some (p, b)
    → b.availability ≡ open_borrowed
    → Refused s n "binding '{}' is currently open-borrowed"
unfolding check_name check_move lookup gets ◌>>=◌ ◌>>◌ pure fail_with expr_node
open_borrowed-Refused s n p b found a = record {
  name_refused = λ k c. rw found (rw a refl);
  move_refused = λ node k. rw found (rw a refl);
}

-- After the move of a name whose binding is available, every use and every further move of the
-- name is refused: its type is the invalid one, and the only change is the report that the
-- binding was moved.
pub check_move-Refused :
    (s : Sema) (n : Text) (p : Slot) (b : Binding) (node k : Node)
    → lookup_in n s.scopes ≡ some (p, b)
    → b.availability ≡ available
    → Refused (check_move node (name k n) s).1 n "binding '{}' was already moved"
check_move-Refused s n p b node k found a = rw (check_move-available s n p b found node k a) (
    moved-Refused (changed s n p b found (set_availability moved)) n p (set_availability moved b)
      (changed-found s n p b found (set_availability moved)) refl)

-- Once the available binding of a region source is open-borrowed, every use and every move of
-- the name is refused: its type is the invalid one, and the only change is the report that it is
-- open-borrowed.
pub open_borrow-Refused :
    (s : Sema) (n : Text) (p : Slot) (b : Binding)
    → lookup_in n s.scopes ≡ some (p, b)
    → b.availability ≡ available
    → Refused (open_borrow (some (p, b)) s).1 n "binding '{}' is currently open-borrowed"
open_borrow-Refused s n p b found a = rw (open_borrow-available s n p b found a) (
    open_borrowed-Refused (changed s n p b found (set_availability open_borrowed)) n p
      (set_availability open_borrowed b)
      (changed-found s n p b found (set_availability open_borrowed)) refl)

may_escape-outer :
    (depth target : ℕ) (v : HirType)
    → is_region_local (capability_of v) ≡ false
    → may_escape depth target v outer_binding ≡ true
unfolding may_escape
may_escape-outer depth target v h = rw h refl

passes : (a c : Bool) → c ≡ true → (a || c) ≡ true
passes true c h = refl
passes false c h = h

assign_binding-passes :
    (s : Sema) (node : Node) (n : Text) (span : Span) (v : HirType) (p : Slot) (b : Binding)
    → is_region_local (capability_of v) ≡ false
    → same_type b.type v ≡ true
    → assign_binding node n span v p b s
      ≡ (unit_type, record s { scopes = modify_slot p make_available s.scopes })
unfolding assign_binding check_escape gets ◌>>=◌ ◌>>◌ pure set_slot modify
assign_binding-passes s node n span v p b loc same =
    rw (passes (is_invalid v) _ (may_escape-outer s.region_depth b.region_depth v loc))
      (rw same refl)

assign-available :
    (s : Sema) (n : Text) (p : Slot) (b : Binding) (found : lookup_in n s.scopes ≡ some (p, b))
    (node : Node) (name_span span : Span) (v : HirType)
    → b.is_var ≡ true
    → b.bridge_slot ≡ false
    → is_region_local (capability_of v) ≡ false
    → same_type b.type v ≡ true
    → (check_name_assign node n name_span span v s).1 ≡ changed s n p b found make_available
unfolding check_name_assign lookup gets ◌>>=◌
assign-available s n p b found node name_span span v var slot loc same = rw found (
    rw var (
      rw slot
        (ap (λ (r : HirType × Sema). r.1) (assign_binding-passes s node n span v p b loc same))))

-- Whatever its availability was, open-borrowed or moved, a `var` binding that is no bridge is
-- available after the assignment of a value of the same type that is not mut, tmp or paused: a
-- move that follows gives its type.
pub check_name_assign-reopens :
    (s : Sema) (n : Text) (p : Slot) (b : Binding) (node k : Node) (name_span span : Span)
    (v : HirType)
    → lookup_in n s.scopes ≡ some (p, b)
    → b.is_var ≡ true
    → b.bridge_slot ≡ false
    → is_region_local (capability_of v) ≡ false
    → same_type b.type v ≡ true
    → (check_move node (name k n) (check_name_assign node n name_span span v s).1).0 ≡ b.type
check_name_assign-reopens s n p b node k name_span span v found var slot loc same =
    rw (assign-available s n p b found node name_span span v var slot loc same) (
      ap (λ (r : HirType × Sema). r.0)
        (check_move-available (changed s n p b found make_available) n p (make_available b)
          (changed-found s n p b found make_available) node k refl))
