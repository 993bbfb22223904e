-- ===== src/Runtime/Safety/History.antt =====
-- runtime/src/Region.cpp, Freeze.cpp, Merge.cpp: the stack along histories of calls.
use gura.Prelude.{
  Bool, [], ℕ, ◌+◌, ◌≡◌, ◌≢◌, refl, sym, ap, subst, ◌∙◌, ◌⊎◌, inl, inr, true, false, Option, none,
  some, List, ◌∷◌, ◌==◌, arith, Bool-cases, fun_ext,
}
use mathlib.Core.Path.{subst₂}
use gura.Runtime.{
  Ptr, nullptr, Region, Runtime, RegionState, RegionStrategy, active, paused, closed, Outcome,
  returned, thrown, undefined, M, and_then, pure, require, bad_alloc, update, ◌>>◌, is_closed,
  is_active, is_paused,
}
use gura.Runtime.Window.{
  Window, IsSound, pause, pause-IsSound, open_region, close_region, AllPaused, Covered,
  open-IsSound, close_top-IsSound, set-IsSound, off-stack, active-top, contains,
}
use gura.Runtime.Refine.{view, state?, Shows, pause_top-Shows, open_Shows, close_Shows}
use gura.Runtime.Ops.{
  modify_region, modify_payload, region_at, replace_bridge, free_all, delete_region, new_iso,
  bridge, set_bridge_type, enter, exit, explore, explore_exit, header_size, destroy, pause_top,
  push_region, place, resume_top, pop_region, shut, freeze, merge, fresh_region,
}
use gura.Runtime.Failures.{throw_keeps, Leaves, PausedTop}
use gura.Runtime.Safety.{
  Ensures, Ensures-bind, Shows-Ensures, Ensures-require, Ensures-stack_top, Hidden, require-Hidden,
  Hidden-bind, Hidden-if, modify-Hidden, payload-Hidden, region_at-Hidden, bridge-Hidden,
  free-Hidden,
}
use gura.Runtime.Calls.{
  Call, news, bridges, enters, explores, explore_exits, destroys, freezes, sets_type, exits, merges,
  perform, Allowed, Step, returns, throws, Reach, begin, next, start,
}

abbrev pub Sound : Runtime → Type 0
Sound s = IsSound (view s)

pub Ensures-map {ℓ} :
    {A : Type ℓ} (P Q : Runtime → Type 0) (m : Outcome A)
    → Ensures P m
    → ((s : Runtime) → P s → Q s)
    → Ensures Q m
Ensures-map P Q (returned a s) h f = f s h
Ensures-map P Q (thrown e s) h f = tt
Ensures-map P Q undefined h f = tt

Hidden-Sound {ℓ} :
    {A : Type ℓ} (s : Runtime) (m : Outcome A) → Sound s → Hidden s m → Ensures Sound m
Hidden-Sound s m v h = Ensures-map _ Sound m h λ t e. subst IsSound (sym e) v

pub phase-region :
    (s : Runtime) (p : Ptr) (r : Region) (st : RegionState)
    → s.regions p ≡ some r
    → r.state ≡ st
    → (view s).phase p ≡ some st
phase-region s p r st h e = ground arith

pub is_closed→eq : (st : RegionState) → is_closed st ≡ true → st ≡ closed
is_closed→eq st h = ground arith

pub is_active→eq : (st : RegionState) → is_active st ≡ true → st ≡ active
is_active→eq st h = ground arith

pub is_paused→eq : (st : RegionState) → is_paused st ≡ true → st ≡ paused
is_paused→eq st h = ground arith

-- What `m` shows is sound.
shown-Sound {ℓ} :
    {A : Type ℓ} (w : Window) (m : Outcome A) → IsSound w → Shows w m → Ensures Sound m
shown-Sound w m v h = Ensures-map _ Sound m (Shows-Ensures w m h) λ t e. subst IsSound (sym e) v

refused-Sound :
    (m : Outcome (Unit {0})) (p : Ptr) (f : Region → Region)
    → Ensures Sound (and_then m λ _. do push_region false p; modify_region p f)
unfolding push_region
refused-Sound (returned a t) p f = tt
refused-Sound (thrown e t) p f = tt
refused-Sound undefined p f = tt

opened-Sound :
    (grown : Bool) (st : RegionState) (p : Ptr) (f : Region → Region) (s : Runtime) (r : Region)
    → Sound s
    → s.regions p ≡ some r
    → is_closed r.state ≡ true
    → st ≢ closed
    → ((r : Region) → (f r).state ≡ st)
    → Ensures Sound ((do pause_top; push_region grown p; modify_region p f) s)
opened-Sound false st p f s r v h t n g = refused-Sound (pause_top s) p f
opened-Sound true st p f s r v h t n g =
    let e = phase-region s p r closed h (is_closed→eq _ t) in
    shown-Sound (open_region st p (view s)) _ (open-IsSound (view s) st p v e n)
      (open_Shows p st s f v e g)

enter-Sound : (grown : Bool) (p : Ptr) (s : Runtime) → Sound s → Ensures Sound (enter grown p s)
unfolding enter
enter-Sound grown p s v =
    Ensures-require Sound p is_closed _ s _
      λ r n h t. opened-Sound grown active p _ s r v h t (λ q. cc) (λ r. refl)

explore-Sound : (grown : Bool) (p : Ptr) (s : Runtime) → Sound s → Ensures Sound (explore grown p s)
unfolding explore
explore-Sound grown p s v =
    Ensures-require Sound p is_closed _ s _
      λ r n h t. opened-Sound grown paused p _ s r v h t (λ q. cc) (λ r. refl)

shut-Sound :
    (st : RegionState) (p : Ptr) (ts : List Ptr) (s s₀ : Runtime)
    → Sound s₀
    → s₀.region_stack ≡ p ∷ ts
    → (view s₀).phase p ≡ some st
    → view s ≡ view s₀
    → Ensures Sound ((do modify_region p shut; pop_region; resume_top) s)
shut-Sound st p ts s s₀ v top e same =
    shown-Sound (close_region p (view s₀)) _ (close_top-IsSound (view s₀) p ts top v)
      (close_Shows p ts st s s₀ v top e same)

exit-Sound : (p b : Ptr) (s : Runtime) → Sound s → Ensures Sound (exit p b s)
unfolding exit
exit-Sound p b s v = Ensures-require Sound p is_active _ s _ λ r n h t.
    Ensures-stack_top Sound p _ s _ λ ts top.
      Ensures-bind (λ u. view u ≡ view s) Sound (replace_bridge p b s) _ (bridge-Hidden p b s)
        λ _ u same.
          shut-Sound active p ts u s v top (phase-region s p r active h (is_active→eq _ t)) same

explore_exit-Sound : (p : Ptr) (s : Runtime) → Sound s → Ensures Sound (explore_exit p s)
unfolding explore_exit
explore_exit-Sound p s v = Ensures-require Sound p is_paused _ s _ λ r n h t.
    Ensures-stack_top Sound p _ s _ λ ts top.
      shut-Sound paused p ts s s v top (phase-region s p r paused h (is_paused→eq _ t)) refl

-- A region off the stack that appears closed, or disappears.
set-Sound :
    (p : Ptr) (v : Option Region) (s : Runtime)
    → Sound s
    → contains p s.region_stack ≡ false
    → (state? v ≡ none) ⊎ (state? v ≡ some closed)
    → Sound (record s { regions = update s.regions p v })
set-Sound p v s h n c = subst IsSound shown (set-IsSound (view s) p (state? v) h n c)
  where
    shown :
        record (view s) { phase = update (view s).phase p (state? v) }
        ≡ view (record s { regions = update s.regions p v })
    shown = λ i. record {
      stack = s.region_stack;
      phase =
          fun_ext {f = update (view s).phase p (state? v)}
            {g = λ q. state? (update s.regions p v q)} (λ q. ground arith) i;
    }

delete-Sound :
    (p : Ptr) (s t : Runtime)
    → Sound s
    → (view s).phase p ≡ some closed
    → view t ≡ view s
    → Ensures Sound (delete_region p t)
unfolding delete_region
delete-Sound p s t v c e =
    set-Sound p none t (subst IsSound (sym e) v)
      (subst (λ (w : Window). contains p w.stack ≡ false) (sym e) (off-stack (view s) p v (inl c)))
      (inl refl)

-- A step that shows nothing, from a state that looks like `s₀`.
unseen {ℓ κ} :
    {A : Type ℓ} {B : Type κ} (s₀ s : Runtime) (m : Outcome A) (k : A → M B)
    → view s ≡ view s₀
    → Hidden s m
    → ((a : A) (t : Runtime) → view t ≡ view s₀ → Ensures Sound (k a t))
    → Ensures Sound (and_then m k)
unseen s₀ s m k e h f = Ensures-bind (λ t. view t ≡ view s) Sound m k h λ a t e'. f a t (e' ∙ e)

destroy-Sound :
    (p : Ptr) (s : Runtime)
    → Sound s
    → (p ≡ nullptr) ⊎ ((view s).phase p ≡ some closed)
    → Ensures Sound (destroy p s)
unfolding destroy
destroy-Sound p s v (inl z) =
    let q : destroy p s ≡ returned tt s = ground arith in subst (Ensures Sound) (sym q) v
destroy-Sound p s v (inr c) = elim (Bool-cases (p == nullptr)) [
  | inl z ↦ let q : destroy p s ≡ returned tt s = ground arith in subst (Ensures Sound) (sym q) v
  | inr n ↦
      rw (n, destroy)
        (unseen s s (region_at p s) _ refl (region_at-Hidden p s) λ r t e.
          unseen s t (free_all r.allocations t) _ e (free-Hidden r.allocations t)
            λ _ u e'. delete-Sound p s u v c e')
]

pub merge-Sound :
    (grown : Bool) (p q : Ptr) (s : Runtime) → Sound s → Ensures Sound (merge grown p q s)
unfolding merge
merge-Sound grown p q s v = Ensures-require Sound p is_active _ s _ λ _ _ _ _.
    Ensures-require Sound q is_closed _ s _ λ r n h t.
      let c = phase-region s q r closed h (is_closed→eq _ t) in
      unseen s s (region_at q s) _ refl (region_at-Hidden q s) λ from s₀ e₀.
        unseen s s₀ (require grown bad_alloc s₀) _ e₀ (require-Hidden grown _ s₀) λ _ s₁ e₁.
          unseen s s₁ (modify_region p _ s₁) _ e₁ (modify-Hidden p _ s₁ (λ r. refl)) λ _ s₂ e₂.
            unseen s s₂ (modify_region q _ s₂) _ e₂ (modify-Hidden q _ s₂ (λ r. refl)) λ _ s₃ e₃.
              unseen s s₃ (region_at p s₃) _ e₃ (region_at-Hidden p s₃) λ to s₄ e₄.
                unseen s s₄ (modify_payload from.bridge _ s₄) _ e₄ (payload-Hidden from.bridge _ s₄)
                  λ _ s₅ e₅.
                    unseen s s₅ (modify_region p _ s₅) _ e₅ (modify-Hidden p _ s₅ (λ r. refl))
                      λ _ s₆ e₆. delete-Sound q s s₆ v c e₆

freeze-Sound : (p : Ptr) (s : Runtime) → Sound s → Ensures Sound (freeze p s)
unfolding freeze
freeze-Sound p s v = Ensures-require Sound p is_closed _ s _ λ _ _ _ _.
    unseen s s (region_at p s) _ refl (region_at-Hidden p s) λ r s₁ e₁.
      unseen s s₁ (modify_payload r.bridge _ s₁) _ e₁ (payload-Hidden r.bridge _ s₁) λ _ s₂ e₂.
        unseen s s₂ (modify_region p _ s₂) _ e₂ (modify-Hidden p _ s₂ (λ r. refl))
          λ _ s₃ e₃. subst IsSound (sym e₃) v

set_bridge_type-Sound : (p t : ℕ) (s : Runtime) → Sound s → Ensures Sound (set_bridge_type p t s)
unfolding set_bridge_type
set_bridge_type-Sound p t s v = Hidden-Sound s _ v (
    Hidden-if s (p == nullptr) _ _ tt (
      Hidden-bind s (modify_region p _ s) _ (modify-Hidden p _ s (λ r. refl)) λ _ s₁.
        Hidden-bind s₁ (region_at p s₁) _ (region_at-Hidden p s₁)
          λ r s₂. payload-Hidden r.bridge _ s₂))

bridge-Sound : (p : Ptr) (s : Runtime) → Sound s → Ensures Sound (bridge p s)
unfolding bridge region_at
bridge-Sound p s v = Hidden-Sound s _ v (
    Hidden-if s (p == nullptr) _ _ tt
      (Hidden-bind s (region_at p s) _ (region_at-Hidden p s) λ r t. refl))

new_iso-Sound :
    (p a : ℕ) (grown : Bool) (n : ℕ) (g : RegionStrategy) (s : Runtime)
    → Sound s
    → s.regions p ≡ none
    → Ensures Sound (new_iso p a grown n g s)
unfolding new_iso place
new_iso-Sound p a false n g s v f = ground arith
new_iso-Sound p a true n g s v f = elim (Bool-cases (p == nullptr)) [
  | inl z ↦ rw (z, new_iso, Ensures) tt
  | inr y ↦ elim (Bool-cases (a == nullptr)) [
    | inl z ↦ rw (y, z, new_iso, Ensures) tt
    | inr z ↦
        rw (y, z, new_iso, Ensures)
          (set-Sound p (some (fresh_region s.next_region_id n g (a + header_size) (a ∷ []))) s v
            (off-stack (view s) p v (inr (ap state? f))) (inr refl))
  ]
]

discard-Sound {ℓ} :
    {A : Type ℓ} (m : Outcome A)
    → Ensures Sound m
    → Ensures {0} {A = Unit {0}} Sound (and_then m λ _. pure tt)
discard-Sound m h = Ensures-bind Sound Sound m _ h λ _ _ v. v

perform-Sound : (c : Call) (s : Runtime) → Sound s → Allowed c s → Ensures Sound (perform c s)
unfolding perform
perform-Sound (news p a grown n g) s v h = discard-Sound _ (new_iso-Sound p a grown n g s v h)
perform-Sound (bridges p) s v h = discard-Sound _ (bridge-Sound p s v)
perform-Sound (enters grown p) s v h = enter-Sound grown p s v
perform-Sound (explores grown p) s v h = explore-Sound grown p s v
perform-Sound (explore_exits p) s v h = explore_exit-Sound p s v
perform-Sound (destroys p) s v h = destroy-Sound p s v h
perform-Sound (freezes p) s v h = discard-Sound _ (freeze-Sound p s v)
perform-Sound (sets_type p t) s v h = set_bridge_type-Sound p t s v
perform-Sound (exits p b) s v h = exit-Sound p b s v
perform-Sound (merges grown p q) s v h = discard-Sound _ (merge-Sound grown p q s v)

-- What a call leaves behind that ran out of memory is sound.
paused-Sound : (s t : Runtime) → Sound s → PausedTop s t → Sound t
unfolding pause_top region_at modify_region
paused-Sound s t v h =
    let e : pause_top s ≡ returned tt t =
      ground (arith, h.is_top, h.is_live, h.was_active, h.is_paused) in
    let shown = subst (Shows (pause (view s))) e (pause_top-Shows s v) in
    subst IsSound (sym shown) (pause-IsSound (view s) v)

Leaves-Sound : (c : Call) (s t : Runtime) → Sound s → Allowed c s → Leaves c s t → Sound t
Leaves-Sound (enters grown p) s t v a l = paused-Sound s t v l
Leaves-Sound (explores grown p) s t v a l = paused-Sound s t v l
Leaves-Sound (news p b grown n g) s t v a (k, (r, c, _, m), h) =
    subst₂ (λ ts g. IsSound (record { stack = ts; phase = λ p. state? (g p) })) (sym k) (sym m)
      (set-Sound p (some r) s v (off-stack (view s) p v (inr (ap state? a))) (inr (ap some c)))
Leaves-Sound (bridges p) s t v a l = absurd l
Leaves-Sound (explore_exits p) s t v a l = absurd l
Leaves-Sound (destroys p) s t v a l = absurd l
Leaves-Sound (freezes p) s t v a l = absurd l
Leaves-Sound (sets_type p x) s t v a l = absurd l
Leaves-Sound (exits p b) s t v a l = absurd l
Leaves-Sound (merges grown p q) s t v a l = absurd l

Step-Sound : {s t : Runtime} → Step s t → Sound s → Sound t
Step-Sound (returns c {s} {t} a e) v = subst (Ensures Sound) e (perform-Sound c s v a)
Step-Sound (throws c err {s} {t} a e) v = elim (throw_keeps c s t err e) [
  | inl (k, r, h) ↦
      subst₂ (λ ts g. IsSound (record { stack = ts; phase = λ p. state? (g p) })) (sym k) (sym r) v
  | inr (_, l) ↦ Leaves-Sound c s t v a l
]

start-Sound : Sound start
start-Sound = record { distinct = tt; covered = tt; off = λ p _. inl refl }

pub Reach-Sound : {s : Runtime} → Reach s → Sound s
Reach-Sound begin = start-Sound
Reach-Sound (next r st) = Step-Sound st (Reach-Sound r)

-- After any history of calls of the runtime, caught exceptions included, in which `new` gives
-- addresses of no live region and only closed regions are destroyed, an active region is the top
-- of the region stack, and every other region on the stack is paused.
pub Reach-active :
    {s : Runtime} (p : Ptr) (r : Region)
    → Reach s
    → s.regions p ≡ some r
    → r.state ≡ active
    → (ts : List Ptr) × (s.region_stack ≡ p ∷ ts) × AllPaused (view s).phase ts
Reach-active {s} p r h e a =
    let v = Reach-Sound h in
    let (ts, q) = active-top (view s) p v (phase-region s p r active e a) in
    let c = subst (Covered (view s).phase) q v.covered in (ts, q, c.1)
