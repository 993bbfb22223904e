-- ===== src/Runtime/Nesting.antt =====
-- runtime/src/Region.cpp: `exit` on every input, and visits to regions within visits.
use gura.Prelude.{◌≡◌, ◌≢◌, refl, sym, ap, subst, ◌∙◌, inl, inr, true, some, arith}
use gura.Runtime.{
  Ptr, Runtime, RegionState, active, paused, closed, returned, thrown, Error, bad_alloc, is_closed,
  is_active, is_paused,
}
use gura.Runtime.Window.{Window, IsSound, open_region, close_region, open-IsSound, off-stack}
use gura.Runtime.Refine.{view, state?, open_Shows, close_Shows}
use gura.Runtime.Failures.{throw_keeps}
use gura.Runtime.Safety.{
  Ensures, Ensures-bind, Ensures-require, Ensures-stack_top, Shows-Ensures, bridge-Hidden,
}
use gura.Runtime.Safety.History.{
  Sound, Ensures-map, phase-region, is_closed→eq, is_active→eq, is_paused→eq,
}
use gura.Runtime.Bridge.{is_top_active, revisit}
use gura.Runtime.Calls.{Call, perform}
use gura.Runtime.Ops.{enter, explore, exit, explore_exit, replace_bridge}

-- What a call of `open` leaves where it returns.
abbrev Opens : RegionState → Ptr → Runtime → Runtime → Type 0
Opens st q s t = ((view s).phase q ≡ some closed) × (view t ≡ open_region st q (view s))

enter-Opens : (q : Ptr) (s : Runtime) → Sound s → Ensures (Opens active q s) (enter true q s)
unfolding enter
enter-Opens q s v = Ensures-require (Opens active q s) q is_closed _ s _ λ r n h t.
    let e = phase-region s q r closed h (is_closed→eq _ t) in
    Ensures-map _ (Opens active q s) _ (Shows-Ensures _ _ (open_Shows q active s _ v e (λ r. refl)))
      λ u k. (e, k)

explore-Opens : (q : Ptr) (s : Runtime) → Sound s → Ensures (Opens paused q s) (explore true q s)
unfolding explore
explore-Opens q s v = Ensures-require (Opens paused q s) q is_closed _ s _ λ r n h t.
    let e = phase-region s q r closed h (is_closed→eq _ t) in
    Ensures-map _ (Opens paused q s) _ (Shows-Ensures _ _ (open_Shows q paused s _ v e (λ r. refl)))
      λ u k. (e, k)

abbrev Closed : Ptr → Runtime → Runtime → Type 0
Closed q s t = view t ≡ close_region q (view s)

exit-Closed : (q b : Ptr) (s : Runtime) → Sound s → Ensures (Closed q s) (exit q b s)
unfolding exit
exit-Closed q b s v = Ensures-require (Closed q s) q is_active _ s _ λ r n h t.
    Ensures-stack_top (Closed q s) q _ s _ λ ts top.
      Ensures-bind (λ u. view u ≡ view s) (Closed q s) (replace_bridge q b s) _
        (bridge-Hidden q b s)
        λ _ u same.
          Shows-Ensures _ _ (
            close_Shows q ts active u s v top (phase-region s q r active h (is_active→eq _ t)) same)

explore_exit-Closed : (q : Ptr) (s : Runtime) → Sound s → Ensures (Closed q s) (explore_exit q s)
unfolding explore_exit
explore_exit-Closed q s v = Ensures-require (Closed q s) q is_paused _ s _ λ r n h t.
    Ensures-stack_top (Closed q s) q _ s _ λ ts top.
      Shows-Ensures _ _
        (close_Shows q ts paused s s v top (phase-region s q r paused h (is_paused→eq _ t)) refl)

-- Well-nested histories: a region that is entered is left again when all that was opened in it is
-- closed, an explored one before another is opened, and a call may throw and be caught, unless it
-- runs out of memory.
pub data Nested : Runtime → Runtime → Type 0 where
  ended : {s : Runtime} → Nested s s
  visited :
      (q new_bridge : Ptr) {s s₁ s₂ s₃ t : Runtime}
      → enter true q s ≡ returned tt s₁
      → Nested s₁ s₂
      → exit q new_bridge s₂ ≡ returned tt s₃
      → Nested s₃ t
      → Nested s t
  looked :
      (q : Ptr) {s s₁ s₂ t : Runtime}
      → explore true q s ≡ returned tt s₁
      → explore_exit q s₁ ≡ returned tt s₂
      → Nested s₂ t
      → Nested s t
  caught :
      (c : Call) (e : Error) {s s₁ t : Runtime}
      → e ≢ bad_alloc
      → perform c s ≡ thrown e s₁
      → Nested s₁ t
      → Nested s t

-- Whether the stack is empty, or an active region is on top.
abbrev TopActive : Window → Type 0
TopActive w = is_top_active w.stack w.phase ≡ true

open-TopActive : (w : Window) (q : Ptr) → TopActive (open_region active q w)
unfolding open_region
open-TopActive w q = ground arith

Closed-again :
    (st : RegionState) (q : Ptr) (s s₁ s₂ t : Runtime)
    → Sound s
    → TopActive (view s)
    → Opens st q s s₁
    → view s₂ ≡ view s₁
    → Closed q s₂ t
    → view t ≡ view s
Closed-again st q s s₁ s₂ t v a (c, o) same e =
    e ∙ ap (close_region q) (same ∙ o) ∙ revisit st (view s) q (off-stack (view s) q v (inl c)) c a

-- From a sound stack that is empty or has an active top, any well-nested history of visits, of
-- any depth and with any new bridges that `exit` accepts, leaves the stack and the state of
-- every region as they were. In it an entered region is left when all that was opened in it is
-- closed, an explored one before another is opened, and calls may throw and be caught, unless
-- they run out of memory.
pub Nested-view :
    {s t : Runtime}
    → IsSound (view s)
    → is_top_active s.region_stack (view s).phase ≡ true
    → Nested s t
    → view t ≡ view s
Nested-view v a ended = refl
Nested-view {s} {t} v a (visited q b {s₁ = s₁} {s₂} {s₃} e₁ n₁ e₂ n₂) =
    let (c, o) = subst (Ensures (Opens active q s)) e₁ (enter-Opens q s v) in
    let v₁ : Sound s₁ = subst IsSound (sym o) (open-IsSound (view s) active q v c (λ z. cc)) in
    let a₁ : TopActive (view s₁) = subst TopActive (sym o) (open-TopActive (view s) q) in
    let w₂ = Nested-view v₁ a₁ n₁ in
    let k = subst (Ensures (Closed q s₂)) e₂ (exit-Closed q b s₂ (subst IsSound (sym w₂) v₁)) in
    let w₃ = Closed-again active q s s₁ s₂ s₃ v a (c, o) w₂ k in
    Nested-view (subst IsSound (sym w₃) v) (subst TopActive (sym w₃) a) n₂ ∙ w₃
Nested-view {s} {t} v a (looked q {s₁ = s₁} {s₂} e₁ e₂ n) =
    let (c, o) = subst (Ensures (Opens paused q s)) e₁ (explore-Opens q s v) in
    let v₁ : Sound s₁ = subst IsSound (sym o) (open-IsSound (view s) paused q v c (λ z. cc)) in
    let k = subst (Ensures (Closed q s₁)) e₂ (explore_exit-Closed q s₁ v₁) in
    let w₂ = Closed-again paused q s s₁ s₁ s₂ v a (c, o) refl k in
    Nested-view (subst IsSound (sym w₂) v) (subst TopActive (sym w₂) a) n ∙ w₂
Nested-view {s} {t} v a (caught c e {s₁ = s₁} m h n) = elim (throw_keeps c s s₁ e h) [
  | inl (k, r, _) ↦
      let w : view s₁ ≡ view s = λ i. record { stack = k i; phase = λ p. state? (r i p) } in
      Nested-view (subst IsSound (sym w) v) (subst TopActive (sym w) a) n ∙ w
  | inr (b, _) ↦ absurd (m b)
]
