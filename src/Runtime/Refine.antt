-- ===== src/Runtime/Refine.antt =====
-- The calls of runtime/src/Region.cpp, Freeze.cpp and Merge.cpp against the window of the stack.
use gura.Prelude.{
  ℕ, ◌≡◌, refl, sym, ap, subst, ◌∙◌, ◌⊎◌, inl, inr, ◌≢◌, Bool, true, false, Option, none, some,
  List, [], ◌∷◌, arith, Option-cases, fun_ext,
}
use mathlib.Core.Path.{ap₂, subst₂}
use gura.Runtime.{
  Ptr, nullptr, ObjectHeader, Region, Runtime, RegionState, active, paused, closed, update, Outcome,
  returned, thrown, undefined, M, and_then, throw, cannot_exit_non_active, exit_not_on_top,
  cannot_exit_non_paused, explore_exit_not_on_top, ◌>>◌, is_closed, is_active, is_paused,
}
use gura.Runtime.Window.{
  Window, set_phase, push, pop, pause, resume, open_region, close_region, IsSound, pause-closed,
  pop_top-IsSound, active-top,
}
use gura.Runtime.Ops.{
  modify_region, require_state, pause_top, resume_top, push_region, pop_region, require_stack_top,
  enter, exit, explore_exit, shut, with_bridge, replace_bridge, header_for_payload,
}

abbrev pub state? : Option Region → Option RegionState
state? none = none
state? (some r) = some r.state

abbrev pub view : Runtime → Window
view s = record { stack = s.region_stack; phase = λ p. state? (s.regions p) }

-- The call returns, in a state with this window.
abbrev pub Shows {ℓ} : {A : Type ℓ} → Window → Outcome A → Type 0
Shows w (returned a s) = view s ≡ w
Shows w (thrown e s) = ⊥
Shows w undefined = ⊥

pub Shows-bind {ℓ κ} :
    {A : Type ℓ} {B : Type κ} (w w' : Window) (m : Outcome A) (k : A → M B)
    → Shows w m
    → ((a : A) (s : Runtime) → view s ≡ w → Shows w' (k a s))
    → Shows w' (and_then m k)
Shows-bind w w' (returned a s) k h f = f a s h
Shows-bind w w' (thrown e s) k h f = absurd h
Shows-bind w w' undefined k h f = absurd h

-- A store to a region shows as a store to its phase.
pub view-update :
    (s : Runtime) (p : Ptr) (r : Region)
    → view (record s { regions = update s.regions p (some r) }) ≡ set_phase p r.state (view s)
unfolding set_phase
view-update s p r = λ i. record {
  stack = s.region_stack;
  phase =
      fun_ext {f = λ q. state? (update s.regions p (some r) q)}
        {g = update (view s).phase p (some r.state)} (λ q. ground arith) i;
}

-- What the region's phase tells of the region.
pub state-cases :
    (s : Runtime) (p : Ptr) (st : RegionState)
    → (view s).phase p ≡ some st
    → (r : Region) × (s.regions p ≡ some r) × (r.state ≡ st)
state-cases s p st e = elim (Option-cases (s.regions p)) [
  | inl n ↦ ground arith
  | inr (r, h) ↦ (r, h, ground arith)
]

pub modify_at-Shows :
    (w : Window) (p : Ptr) (f : Region → Region) (st : RegionState) (s : Runtime) (r : Region)
    → view s ≡ w
    → s.regions p ≡ some r
    → (f r).state ≡ st
    → Shows (set_phase p st w) (modify_region p f s)
unfolding modify_region
modify_at-Shows w p f st s r v h g = rw (h, Shows) (view-update s p (f r) ∙ ap₂ (set_phase p) g v)

pub modify-Shows :
    (w : Window) (p : Ptr) (f : Region → Region) (st st' : RegionState) (s : Runtime)
    → view s ≡ w
    → w.phase p ≡ some st
    → ((r : Region) → (f r).state ≡ st')
    → Shows (set_phase p st' w) (modify_region p f s)
modify-Shows w p f st st' s v e g =
    let (r, h, _) = state-cases s p st (subst (λ u. u.phase p ≡ some st) (sym v) e) in
    modify_at-Shows w p f st' s r v h (g r)

abbrev runtime : ℕ → List Ptr → (Ptr → Option Region) → (Ptr → Option ObjectHeader) → Runtime
runtime n ts regions headers = record {
  next_region_id = n;
  region_stack = ts;
  regions = regions;
  headers = headers;
}

-- A sound stack's top is a live region, active or paused.
top-cases :
    (s : Runtime) (t : Ptr)
    → ((view s).phase t ≡ some active) ⊎ ((view s).phase t ≡ some paused)
    → (r : Region) × (s.regions t ≡ some r) × ((r.state ≡ active) ⊎ (r.state ≡ paused))
top-cases s t (inl a) = let (r, h, q) = state-cases s t active a in (r, h, inl q)
top-cases s t (inr a) = let (r, h, q) = state-cases s t paused a in (r, h, inr q)

pause_top-aux :
    (n : ℕ) (l : List Ptr) (g : Ptr → Option Region) (o : Ptr → Option ObjectHeader)
    → IsSound (view (runtime n l g o))
    → Shows (pause (view (runtime n l g o))) (pause_top (runtime n l g o))
unfolding pause_top pause
pause_top-aux n [] g o v = refl
pause_top-aux n (t ∷ ts) g o v =
    let s = runtime n (t ∷ ts) g o in
    let (r, h, q) = top-cases s t (v.covered.0) in
    elim q [
      | inl a ↦
          let e : pause_top s
              ≡ returned tt
                  (record s { regions = update g t (some (record r { state = paused })) }) =
            ground arith in
          let e' : pause (view s) ≡ set_phase t paused (view s) = ground arith in
          subst₂ Shows (sym e') (sym e) (view-update s t (record r { state = paused }))
      | inr a ↦
          let e : pause_top s ≡ returned tt s = ground arith in
          let e' : pause (view s) ≡ view s = ground arith in subst₂ Shows (sym e') (sym e) refl
    ]

pub resume_top-aux :
    (n : ℕ) (l : List Ptr) (g : Ptr → Option Region) (o : Ptr → Option ObjectHeader)
    → IsSound (view (runtime n l g o))
    → Shows (resume (view (runtime n l g o))) (resume_top (runtime n l g o))
unfolding resume_top resume
resume_top-aux n [] g o v = refl
resume_top-aux n (t ∷ ts) g o v =
    let s = runtime n (t ∷ ts) g o in
    let (r, h, q) = top-cases s t (v.covered.0) in
    elim q [
      | inl a ↦
          let e : resume_top s ≡ returned tt s = ground arith in
          let e' : resume (view s) ≡ view s = ground arith in subst₂ Shows (sym e') (sym e) refl
      | inr a ↦
          let e : resume_top s
              ≡ returned tt
                  (record s { regions = update g t (some (record r { state = active })) }) =
            ground arith in
          let e' : resume (view s) ≡ set_phase t active (view s) = ground arith in
          subst₂ Shows (sym e') (sym e) (view-update s t (record r { state = active }))
    ]

pub resume_top-Shows : (s : Runtime) → IsSound (view s) → Shows (resume (view s)) (resume_top s)
resume_top-Shows s v = resume_top-aux s.next_region_id s.region_stack s.regions s.headers v

pub pause_top-Shows : (s : Runtime) → IsSound (view s) → Shows (pause (view s)) (pause_top s)
pause_top-Shows s v = pause_top-aux s.next_region_id s.region_stack s.regions s.headers v

pub require_state-passes :
    (p : Ptr) (test : RegionState → Bool) (raise : M (Unit {0})) (s : Runtime) (st : RegionState)
    → p ≢ 0
    → (view s).phase p ≡ some st
    → test st ≡ true
    → require_state p test raise s ≡ returned tt s
unfolding require_state
require_state-passes p test raise s st n e t =
    let (r, h, q) = state-cases s p st e in ground (arith)

-- Opening: the checks passed, both calls pause the top, push the region and set its state.
pub open_Shows :
    (p : Ptr) (st : RegionState) (s : Runtime) (f : Region → Region)
    → IsSound (view s)
    → (view s).phase p ≡ some closed
    → ((r : Region) → (f r).state ≡ st)
    → Shows (open_region st p (view s)) ((do pause_top; push_region true p; modify_region p f) s)
unfolding open_region push_region
open_Shows p st s f v e g =
    Shows-bind (pause (view s)) _ (pause_top s) _ (pause_top-Shows s v) λ _ s₁ e₁.
      modify-Shows (push p (pause (view s))) p f closed st _ (ap (push p) e₁)
        (pause-closed (view s) p e) g

pub enter-Shows :
    (p : Ptr) (s : Runtime)
    → IsSound (view s)
    → p ≢ 0
    → (view s).phase p ≡ some closed
    → Shows (open_region active p (view s)) (enter true p s)
unfolding enter
enter-Shows p s v n e =
    rw (require_state-passes p is_closed _ s closed n e refl)
      (open_Shows p active s _ v e (λ r. refl))

pub set_phase_self :
    (w : Window) (p : Ptr) (st : RegionState) → w.phase p ≡ some st → set_phase p st w ≡ w
unfolding set_phase
set_phase_self w p st e = λ i. record {
  stack = w.stack;
  phase = fun_ext {f = update w.phase p (some st)} {g = w.phase} (λ q. ground arith) i;
}

-- The bridge passed to `exit` is null, or a live object of the region that is not frozen.
pub data BridgeFits (s : Runtime) (p : Ptr) (new_bridge : Ptr) : Type 0 where
  keeps : new_bridge ≡ nullptr → BridgeFits s p new_bridge
  moves :
      (r : Region) (h : ObjectHeader)
      → new_bridge ≢ nullptr
      → header_for_payload new_bridge ≢ nullptr
      → s.regions p ≡ some r
      → s.headers (header_for_payload new_bridge) ≡ some h
      → h.region_id ≡ r.id
      → h.frozen ≡ false
      → BridgeFits s p new_bridge

replace_bridge-Shows :
    (s : Runtime) (p new_bridge : Ptr) (st : RegionState)
    → (view s).phase p ≡ some st
    → BridgeFits s p new_bridge
    → Shows (view s) (replace_bridge p new_bridge s)
unfolding replace_bridge
replace_bridge-Shows s p b st e (keeps z) =
    let q : replace_bridge p b s ≡ returned tt s = ground arith in
    subst (Shows (view s)) (sym q) refl
replace_bridge-Shows s p b st e (moves r h n n' er eh i z) =
    let q : replace_bridge p b s ≡ modify_region p (with_bridge b h.type_id) s = ground arith in
    let k = modify_at-Shows (view s) p (with_bridge b h.type_id) st s r refl er (ground arith) in
    subst (Shows (view s)) (sym q) (
      subst (λ w. Shows w (modify_region p (with_bridge b h.type_id) s))
        (set_phase_self (view s) p st e) k)

require_stack_top-passes :
    (p : Ptr) (raise : M (Unit {0})) (s : Runtime) (ts : List Ptr)
    → s.region_stack ≡ p ∷ ts
    → require_stack_top p raise s ≡ returned tt s
unfolding require_stack_top
require_stack_top-passes p raise s ts e = ground arith

pop_region-Shows :
    (s : Runtime) (t : Ptr) (ts : List Ptr)
    → s.region_stack ≡ t ∷ ts
    → Shows (pop (view s)) (pop_region s)
unfolding pop pop_region
pop_region-Shows s t ts e =
    subst
      (λ l.
        Shows (pop (view (record s { region_stack = l })))
          (pop_region (record s { region_stack = l })))
      (sym e) refl

-- Closing: the region is shut and popped, and what it covered is resumed.
pub close_Shows :
    (p : Ptr) (ts : List Ptr) (st : RegionState) (s s₀ : Runtime)
    → IsSound (view s₀)
    → s₀.region_stack ≡ p ∷ ts
    → (view s₀).phase p ≡ some st
    → view s ≡ view s₀
    → Shows (close_region p (view s₀)) ((do modify_region p shut; pop_region; resume_top) s)
unfolding close_region shut
close_Shows p ts st s s₀ v top e same =
    let shut_w = set_phase p closed (view s₀) in
    Shows-bind shut_w _ (modify_region p shut s) _
      (modify-Shows (view s₀) p shut st closed s same e (λ r. refl))
      λ _ s₁ e₁.
        Shows-bind (pop shut_w) _ (pop_region s₁) _
          (subst (λ w. Shows (pop w) (pop_region s₁)) e₁
            (pop_region-Shows s₁ p ts (ap (λ (w : Window). w.stack) e₁ ∙ top)))
          λ _ s₂ e₂.
            subst (λ w. Shows (resume w) (resume_top s₂)) e₂
              (resume_top-Shows s₂ (subst IsSound (sym e₂) (pop_top-IsSound (view s₀) p ts top v)))

-- With a sound stack, `exit` of the active region returns when the new bridge fits, and does to the
-- window what `close_region` does.
pub exit-Shows :
    (p new_bridge : Ptr) (s : Runtime)
    → IsSound (view s)
    → p ≢ 0
    → (view s).phase p ≡ some active
    → BridgeFits s p new_bridge
    → Shows (close_region p (view s)) (exit p new_bridge s)
unfolding exit
exit-Shows p b s v n e fits =
    let (ts, top) = active-top (view s) p v e in
    rw (require_state-passes p is_active (throw cannot_exit_non_active) s active n e refl) (
      rw (require_stack_top-passes p (throw exit_not_on_top) s ts top) (
        Shows-bind (view s) _ (replace_bridge p b s) _ (replace_bridge-Shows s p b active e fits)
          λ _ s₁ e₁. close_Shows p ts active s₁ s v top e e₁))

-- With a sound stack, `explore_exit` of a paused region on top returns, and does the same.
pub explore_exit-Shows :
    (p : Ptr) (ts : List Ptr) (s : Runtime)
    → IsSound (view s)
    → p ≢ 0
    → (view s).phase p ≡ some paused
    → s.region_stack ≡ p ∷ ts
    → Shows (close_region p (view s)) (explore_exit p s)
unfolding explore_exit
explore_exit-Shows p ts s v n e top =
    rw (require_state-passes p is_paused (throw cannot_exit_non_paused) s paused n e refl) (
      rw (require_stack_top-passes p (throw explore_exit_not_on_top) s ts top)
        (close_Shows p ts paused s s v top e refl))
