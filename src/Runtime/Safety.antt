-- ===== src/Runtime/Safety.antt =====
-- What a call shows of the region stack: runtime/src/Region.cpp, Freeze.cpp, Merge.cpp.
pub mod History
use gura.Prelude.{
  ℕ, ◌≡◌, ◌≢◌, refl, sym, ap, subst, ◌∙◌, ◌⊎◌, inl, inr, Bool, true, false, not, Option, none, some,
  List, [], ◌∷◌, ◌==◌, if◌then◌else◌, arith, Bool-cases, Option-cases, fun_ext, ==_iff,
}
use gura.Runtime.{
  Ptr, nullptr, Region, ObjectHeader, Runtime, RegionState, RegionStrategy, active, paused, closed,
  Error, require, bridge_of_other_region, bridge_frozen, Outcome, returned, thrown, undefined, M,
  and_then, pure, throw, update, ◌>>=◌, ◌>>◌, is_closed, is_active, is_paused,
}
use gura.Runtime.Window.{
  Window, IsSound, open_region, close_region, set_phase, open-IsSound, close_top-IsSound,
  set-IsSound, off-stack, active-top, contains,
}
use gura.Runtime.Refine.{
  view, set_phase_self, state?, Shows, view-update, enter-Shows, close_Shows, explore_exit-Shows,
}
use gura.Runtime.Ops.{
  modify_region, modify_header, modify_payload, region_at, header_at, header_for_payload, is_top,
  require_state, require_stack_top, replace_bridge, free_all, delete_region, new_iso, bridge,
  set_bridge_type, enter, exit, explore, explore_exit, destroy, freeze, merge, fresh_region,
  with_bridge,
}
use gura.Runtime.Failures.{throw_keeps}
use gura.Runtime.Calls.{
  Call, news, bridges, enters, explores, explore_exits, destroys, freezes, sets_type, exits, merges,
  perform, Allowed, Step, returns, throws, Reach, begin, next, start,
}

-- If the call returns, it does so in a state with `Q`.
abbrev pub Ensures {ℓ} : {A : Type ℓ} → (Runtime → Type 0) → Outcome A → Type 0
Ensures Q (returned a s) = Q s
Ensures Q (thrown e s) = Unit
Ensures Q undefined = Unit

module _ {ℓ κ} {A : Type ℓ} {B : Type κ} (P Q : Runtime → Type 0) where
  pub Ensures-bind :
      (m : Outcome A) (k : A → M B)
      → Ensures P m
      → ((a : A) (s : Runtime) → P s → Ensures Q (k a s))
      → Ensures Q (and_then m k)
  Ensures-bind (returned a s) k h f = f a s h
  Ensures-bind (thrown e s) k h f = tt
  Ensures-bind undefined k h f = tt

pub Shows-Ensures {ℓ} :
    {A : Type ℓ} (w : Window) (m : Outcome A) → Shows w m → Ensures (λ s. view s ≡ w) m
Shows-Ensures w (returned a s) h = h
Shows-Ensures w (thrown e s) h = absurd h
Shows-Ensures w undefined h = tt

-- A test of the state of `p`: it throws, or is undefined, or the region is there and passes.
require_state-cases :
    (p : Ptr) (test : RegionState → Bool) (e : Error) (s : Runtime)
    → (require_state p test (throw e) s ≡ thrown e s)
      ⊎ (require_state p test (throw e) s ≡ undefined)
      ⊎ ((r : Region) × (p ≢ nullptr)
          × (s.regions p ≡ some r)
          × (test r.state ≡ true)
          × (require_state p test (throw e) s ≡ returned tt s))
unfolding require_state
require_state-cases p test e s = elim (Bool-cases (p == nullptr)) [
  | inl z ↦ inl (ground arith)
  | inr n ↦ elim (Option-cases (s.regions p)) [
    | inl h ↦ inr (inl (ground arith))
    | inr (r, h) ↦ elim (Bool-cases (test r.state)) [
      | inl t ↦ inr (inr (r, ground arith, h, t, ground arith))
      | inr t ↦ inl (ground arith)
    ]
  ]
]

pub Ensures-require {ℓ} :
    {B : Type ℓ} (Q : Runtime → Type 0) (p : Ptr) (test : RegionState → Bool) (e : Error)
    (s : Runtime) (k : Unit {0} → M B)
    → ((r : Region) → p ≢ nullptr → s.regions p ≡ some r → test r.state ≡ true → Ensures Q (k tt s))
    → Ensures Q (and_then (require_state p test (throw e) s) k)
Ensures-require Q p test e s k f = elim (require_state-cases p test e s) [
  | inl h ↦ subst (λ o. Ensures Q (and_then o k)) (sym h) tt
  | inr (inl h) ↦ subst (λ o. Ensures Q (and_then o k)) (sym h) tt
  | inr (inr (r, n, h, t, eq)) ↦ subst (λ o. Ensures Q (and_then o k)) (sym eq) (f r n h t)
]

top-cases :
    (p : Ptr) (e : Error) (s : Runtime)
    → (require_stack_top p (throw e) s ≡ thrown e s)
      ⊎ ((ts : List Ptr) × (s.region_stack ≡ p ∷ ts)
          × (require_stack_top p (throw e) s ≡ returned tt s))
unfolding require_stack_top
top-cases p e s = go s.region_stack refl
  where
    go :
        (l : List Ptr)
        → s.region_stack ≡ l
        → (require_stack_top p (throw e) s ≡ thrown e s)
          ⊎ ((ts : List Ptr) × (s.region_stack ≡ p ∷ ts)
              × (require_stack_top p (throw e) s ≡ returned tt s))
    go [] eq = inl (ground arith)
    go (t ∷ ts) eq = elim (Bool-cases (t == p)) [
      | inl y ↦ inr (ts, ground arith, ground arith)
      | inr n ↦ inl (ground arith)
    ]

pub Ensures-stack_top {ℓ} :
    {B : Type ℓ} (Q : Runtime → Type 0) (p : Ptr) (e : Error) (s : Runtime) (k : Unit {0} → M B)
    → ((ts : List Ptr) → s.region_stack ≡ p ∷ ts → Ensures Q (k tt s))
    → Ensures Q (and_then (require_stack_top p (throw e) s) k)
Ensures-stack_top Q p e s k f = elim (top-cases p e s) [
  | inl h ↦ subst (λ o. Ensures Q (and_then o k)) (sym h) tt
  | inr (ts, h, eq) ↦ subst (λ o. Ensures Q (and_then o k)) (sym eq) (f ts h)
]

-- A write to a region that keeps its state does not show.
view-hidden :
    (s : Runtime) (p : Ptr) (r r' : Region)
    → s.regions p ≡ some r
    → r'.state ≡ r.state
    → view (record s { regions = update s.regions p (some r') }) ≡ view s
view-hidden s p r r' h e = view-update s p r' ∙ set_phase_self (view s) p r'.state (ground arith)

abbrev pub Hidden {ℓ} : {A : Type ℓ} → Runtime → Outcome A → Type 0
Hidden s = Ensures (λ t. view t ≡ view s)

modify-Hidden :
    (p : Ptr) (f : Region → Region) (s : Runtime)
    → ((r : Region) → (f r).state ≡ r.state)
    → Hidden s (modify_region p f s)
unfolding modify_region
modify-Hidden p f s h = elim (Option-cases (s.regions p)) [
  | inl n ↦ ground arith
  | inr (r, e) ↦ rw (e, Ensures) (view-hidden s p r (f r) e (h r))
]

payload-Hidden :
    (p : Ptr) (f : ObjectHeader → ObjectHeader) (s : Runtime) → Hidden s (modify_payload p f s)
unfolding modify_payload
payload-Hidden p f s = ground arith

region_at-Hidden : (p : Ptr) (s : Runtime) → Hidden s (region_at p s)
unfolding region_at
region_at-Hidden p s = ground arith

header_at-Hidden : (p : Ptr) (s : Runtime) → Hidden s (header_at p s)
unfolding header_at
header_at-Hidden p s = ground arith

require-Hidden : (b : Bool) (e : Error) (s : Runtime) → Hidden s (require b e s)
require-Hidden true e s = refl
require-Hidden false e s = tt

Hidden-bind {ℓ κ} :
    {A : Type ℓ} {B : Type κ} (s : Runtime) (m : Outcome A) (k : A → M B)
    → Hidden s m
    → ((a : A) (t : Runtime) → Hidden t (k a t))
    → Hidden s (and_then m k)
Hidden-bind s m k h f =
    Ensures-bind (λ t. view t ≡ view s) (λ t. view t ≡ view s) m k h
      λ a t e. subst (λ w. Ensures (λ u. view u ≡ w) (k a t)) e (f a t)

Hidden-if {ℓ} :
    {A : Type ℓ} (s : Runtime) (b : Bool) (x y : M A)
    → Hidden s (x s)
    → Hidden s (y s)
    → Hidden s ((if b then x else y) s)
Hidden-if s true x y hx hy = hx
Hidden-if s false x y hx hy = hy

pub bridge-Hidden : (p b : Ptr) (s : Runtime) → Hidden s (replace_bridge p b s)
unfolding replace_bridge with_bridge
bridge-Hidden p b s = Hidden-if s (b == nullptr) _ _ refl (
    Hidden-if s (header_for_payload b == nullptr) _ _ tt (
      Hidden-bind s (header_at (header_for_payload b) s) _ (header_at-Hidden _ s) λ h s₁.
        Hidden-bind s₁ (region_at p s₁) _ (region_at-Hidden p s₁) λ r s₂.
          Hidden-bind s₂ (require (h.region_id == r.id) bridge_of_other_region s₂) _
            (require-Hidden _ _ s₂)
            λ _ s₃.
              Hidden-bind s₃ (require (not h.frozen) bridge_frozen s₃) _ (require-Hidden _ _ s₃)
                λ _ s₄. modify-Hidden p _ s₄ (λ r. refl)))

free-Hidden : (l : List Ptr) (s : Runtime) → Hidden s (free_all l s)
unfolding free_all
free-Hidden [] s = refl
free-Hidden (a ∷ l) s =
    Hidden-bind s (header_at a s) _ (header_at-Hidden a s) λ h t. free-Hidden l _
