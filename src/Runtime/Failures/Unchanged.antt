-- ===== src/Runtime/Failures/Unchanged.antt =====
-- runtime/src/Region.cpp, Freeze.cpp, Merge.cpp: the calls that check before they change anything.
use gura.Prelude.{
  ℕ, ◌≡◌, refl, sym, subst, Bool, true, false, List, [], ◌∷◌, ◌==◌, if◌then◌else◌, arith,
}
use gura.Runtime.{
  Ptr, Region, ObjectHeader, Runtime, RegionState, Error, ◌>>◌, Outcome, returned, thrown,
  undefined, M, and_then, pure, throw, require,
}
use gura.Runtime.Ops.{
  modify_region, modify_payload, region_at, header_at, require_state, require_stack_top,
  replace_bridge, pause_top, resume_top, pop_region, free_all, delete_region, bridge,
  set_bridge_type, exit, explore_exit, destroy, freeze, merge,
}

-- The two states differ in the id counter at most.
pub record Same (s t : Runtime) : Type 0 where
  pub region_stack : t.region_stack ≡ s.region_stack
  pub regions : t.regions ≡ s.regions
  pub headers : t.headers ≡ s.headers

-- The call changes nothing, whether it returns or throws.
abbrev pub Checks {ℓ} : {A : Type ℓ} → Runtime → Outcome A → Type 0
Checks s (returned a t) = t ≡ s
Checks s (thrown e t) = t ≡ s
Checks s undefined = Unit

-- The call does not throw.
abbrev pub Unthrown {ℓ} : {A : Type ℓ} → Outcome A → Type 0
Unthrown (returned a t) = Unit
Unthrown (thrown e t) = ⊥
Unthrown undefined = Unit

-- Where the call throws, the state is as before.
abbrev pub Kept {ℓ} : {A : Type ℓ} → Runtime → Outcome A → Type 0
Kept s (returned a t) = Unit
Kept s (thrown e t) = Same s t
Kept s undefined = Unit

module _ {ℓ κ} {A : Type ℓ} {B : Type κ} (s : Runtime) where
  Kept-check :
      (m : Outcome A) (k : A → M B)
      → Checks s m
      → ((a : A) → Kept s (k a s))
      → Kept s (and_then m k)
  Kept-check (returned a t) k h f = subst (λ u. Kept s (k a u)) (sym h) (f a)
  Kept-check (thrown e t) k h f =
      subst (Same s) (sym h) (record { region_stack = refl; regions = refl; headers = refl })
  Kept-check undefined k h f = tt

pub Kept-Unthrown {ℓ} : {A : Type ℓ} (s : Runtime) (o : Outcome A) → Unthrown o → Kept s o
Kept-Unthrown s (returned a t) h = tt
Kept-Unthrown s (thrown e t) h = absurd h
Kept-Unthrown s undefined h = tt

module _ {ℓ κ} {A : Type ℓ} {B : Type κ} where
  Unthrown-bind :
      (m : Outcome A) (k : A → M B)
      → Unthrown m
      → ((a : A) (t : Runtime) → Unthrown (k a t))
      → Unthrown (and_then m k)
  Unthrown-bind (returned a t) k h f = f a t
  Unthrown-bind (thrown e t) k h f = absurd h
  Unthrown-bind undefined k h f = tt

Checks-region_at : (p : Ptr) (s : Runtime) → Checks s (region_at p s)
unfolding region_at
Checks-region_at p s = ground arith

Checks-header_at : (p : Ptr) (s : Runtime) → Checks s (header_at p s)
unfolding header_at
Checks-header_at p s = ground arith

Unthrown-region_at : (p : Ptr) (s : Runtime) → Unthrown (region_at p s)
unfolding region_at
Unthrown-region_at p s = ground arith

Unthrown-header_at : (p : Ptr) (s : Runtime) → Unthrown (header_at p s)
unfolding header_at
Unthrown-header_at p s = ground arith

pub Checks-require_state :
    (p : Ptr) (test : RegionState → Bool) (e : Error) (s : Runtime)
    → Checks s (require_state p test (throw e) s)
unfolding require_state
Checks-require_state p test e s = ground arith

Checks-require_stack_top :
    (p : Ptr) (e : Error) (s : Runtime) → Checks s (require_stack_top p (throw e) s)
unfolding require_stack_top
Checks-require_stack_top p e s = ground arith

Checks-require : (b : Bool) (e : Error) (s : Runtime) → Checks s (require b e s)
Checks-require true e s = refl
Checks-require false e s = refl

pub Unthrown-modify_region :
    (p : Ptr) (f : Region → Region) (s : Runtime) → Unthrown (modify_region p f s)
unfolding modify_region
Unthrown-modify_region p f s = ground arith

Unthrown-modify_payload :
    (p : Ptr) (f : ObjectHeader → ObjectHeader) (s : Runtime) → Unthrown (modify_payload p f s)
unfolding modify_payload
Unthrown-modify_payload p f s = ground arith

pub Unthrown-pause_top : (s : Runtime) → Unthrown (pause_top s)
unfolding pause_top
Unthrown-pause_top s = ground arith

Unthrown-resume_top : (s : Runtime) → Unthrown (resume_top s)
unfolding resume_top
Unthrown-resume_top s = ground arith

Unthrown-pop_region : (s : Runtime) → Unthrown (pop_region s)
unfolding pop_region
Unthrown-pop_region s = ground arith

Kept-replace_bridge : (p b : Ptr) (s : Runtime) → Kept s (replace_bridge p b s)
unfolding replace_bridge
Kept-replace_bridge p b s = ground arith

Unthrown-free_all : (l : List Ptr) (s : Runtime) → Unthrown (free_all l s)
unfolding free_all
Unthrown-free_all [] s = tt
Unthrown-free_all (a ∷ l) s =
    Unthrown-bind (header_at a s) _ (Unthrown-header_at a s) λ h t. Unthrown-free_all l _

module _ {ℓ κ} {A : Type ℓ} {B : Type κ} (s : Runtime) where
  Kept-then :
      (m : Outcome A) (k : A → M B)
      → Kept s m
      → ((a : A) (t : Runtime) → Unthrown (k a t))
      → Kept s (and_then m k)
  Kept-then (returned a t) k h f = Kept-Unthrown s (k a t) (f a t)
  Kept-then (thrown e t) k h f = h
  Kept-then undefined k h f = tt

Kept-if {ℓ} :
    {A : Type ℓ} (s : Runtime) (b : Bool) (x y : M A)
    → Kept s (x s)
    → Kept s (y s)
    → Kept s ((if b then x else y) s)
Kept-if s true x y hx hy = hx
Kept-if s false x y hx hy = hy

pub Same-refl : (s : Runtime) → Same s s
Same-refl s = record { region_stack = refl; regions = refl; headers = refl }

pub Same-id : (s : Runtime) (n : ℕ) → Same s (record s { next_region_id = n })
Same-id s n = record { region_stack = refl; regions = refl; headers = refl }

Unthrown-close :
    (p : Ptr) (f : Region → Region) (s : Runtime)
    → Unthrown ((do modify_region p f; pop_region; resume_top) s)
Unthrown-close p f s =
    Unthrown-bind (modify_region p f s) _ (Unthrown-modify_region p f s)
      λ _ t. Unthrown-bind (pop_region t) _ (Unthrown-pop_region t) λ _ u. Unthrown-resume_top u

pub Kept-exit : (p b : Ptr) (s : Runtime) → Kept s (exit p b s)
unfolding exit
Kept-exit p b s = Kept-check s _ _ (Checks-require_state p _ _ s) λ _.
    Kept-check s _ _ (Checks-require_stack_top p _ s)
      λ _. Kept-then s _ _ (Kept-replace_bridge p b s) λ _ t. Unthrown-close p _ t

pub Kept-explore_exit : (p : Ptr) (s : Runtime) → Kept s (explore_exit p s)
unfolding explore_exit
Kept-explore_exit p s = Kept-check s _ _ (Checks-require_state p _ _ s) λ _.
    Kept-check s _ _ (Checks-require_stack_top p _ s) λ _. Kept-Unthrown s _ (Unthrown-close p _ s)

pub Kept-set_bridge_type : (p t : ℕ) (s : Runtime) → Kept s (set_bridge_type p t s)
unfolding set_bridge_type
Kept-set_bridge_type p t s = Kept-if s (p == 0) _ _ (Same-refl s) (
    Kept-Unthrown s _ (
      Unthrown-bind (modify_region p _ s) _ (Unthrown-modify_region p _ s) λ _ u.
        Unthrown-bind (region_at p u) _ (Unthrown-region_at p u)
          λ r v. Unthrown-modify_payload r.bridge _ v))

pub Kept-destroy : (p : Ptr) (s : Runtime) → Kept s (destroy p s)
unfolding destroy delete_region
Kept-destroy p s = Kept-if s (p == 0) _ _ tt (
    Kept-Unthrown s _ (
      Unthrown-bind (region_at p s) _ (Unthrown-region_at p s) λ r u.
        Unthrown-bind (free_all r.allocations u) _ (Unthrown-free_all r.allocations u) λ _ _. tt))

pub Kept-freeze : (p : Ptr) (s : Runtime) → Kept s (freeze p s)
unfolding freeze
Kept-freeze p s = Kept-check s _ _ (Checks-require_state p _ _ s) λ _. Kept-Unthrown s _ (
    Unthrown-bind (region_at p s) _ (Unthrown-region_at p s) λ r u.
      Unthrown-bind (modify_payload r.bridge _ u) _ (Unthrown-modify_payload r.bridge _ u)
        λ _ v. Unthrown-bind (modify_region p _ v) _ (Unthrown-modify_region p _ v) λ _ _. tt)

pub Kept-merge : (grown : Bool) (p q : Ptr) (s : Runtime) → Kept s (merge grown p q s)
unfolding merge delete_region
Kept-merge grown p q s = Kept-check s _ _ (Checks-require_state p _ _ s) λ _.
    Kept-check s _ _ (Checks-require_state q _ _ s) λ _.
      Kept-check s _ _ (Checks-region_at q s) λ r. Kept-check s _ _ (Checks-require grown _ s) λ _.
        Kept-Unthrown s _ (
          Unthrown-bind (modify_region p _ s) _ (Unthrown-modify_region p _ s) λ _ s₂.
            Unthrown-bind (modify_region q _ s₂) _ (Unthrown-modify_region q _ s₂) λ _ s₃.
              Unthrown-bind (region_at p s₃) _ (Unthrown-region_at p s₃) λ to s₄.
                Unthrown-bind (modify_payload r.bridge _ s₄) _
                  (Unthrown-modify_payload r.bridge _ s₄)
                  λ _ s₅.
                    Unthrown-bind (modify_region p _ s₅) _ (Unthrown-modify_region p _ s₅)
                      λ _ _. tt)

pub Kept-bridge : (p : Ptr) (s : Runtime) → Kept s (bridge p s)
unfolding bridge region_at
Kept-bridge p s = ground arith

pub Kept-discard {ℓ} :
    {A : Type ℓ} (s : Runtime) (m : Outcome A)
    → Kept s m
    → Kept {0} {A = Unit {0}} s (and_then m λ _. pure tt)
Kept-discard s m h = Kept-then s m _ h λ _ _. tt
