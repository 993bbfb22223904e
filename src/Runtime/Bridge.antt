-- ===== src/Runtime/Bridge.antt =====
-- Calls in sequence, and what happens to the bridge object: runtime/src/Region.cpp, Freeze.cpp and
-- Merge.cpp.
use gura.Prelude.{
  ◌≡◌, ◌≢◌, refl, sym, ap, subst, ◌∙◌, inl, Bool, true, false, Option, none, some, List, [], ◌∷◌,
  ◌++◌, arith, fun_ext,
}
use gura.Runtime.{
  Ptr, nullptr, Region, ObjectHeader, Runtime, RegionState, active, paused, closed, merged, Outcome,
  returned, thrown, undefined, and_then, update, ◌>>◌, cannot_exit_non_paused, bad_alloc,
  cannot_exit_non_active, bridge_of_other_region,
}
use gura.Runtime.Window.{
  Window, IsSound, open_region, close_region, open-IsSound, off-stack, active-top, contains,
  is_active?, window,
}
use gura.Runtime.Refine.{view, Shows, keeps, enter-Shows, exit-Shows, state-cases}
use gura.Runtime.Safety.{Ensures}
use gura.Runtime.Safety.History.{Sound, merge-Sound}
use gura.Runtime.Ops.{header_for_payload, enter, explore, exit, explore_exit, merge}

-- A call that shows `w` returns.
pub Shows-returns {ℓ} :
    {A : Type ℓ} (w : Window) (m : Outcome A)
    → Shows w m
    → (a : A) × (t : Runtime) × (m ≡ returned a t) × (view t ≡ w)
Shows-returns w (returned a t) h = (a, t, refl, h)
Shows-returns w (thrown e t) h = absurd h
Shows-returns w undefined h = absurd h

-- A region that was entered and left again, with the window that is left.
visit :
    (q : Ptr) (s : Runtime)
    → IsSound (view s)
    → q ≢ nullptr
    → (view s).phase q ≡ some closed
    → (t : Runtime) × ((do enter true q; exit q nullptr) s ≡ returned tt t)
      × (view t ≡ close_region q (open_region active q (view s)))
visit q s v n e =
    let w = open_region active q (view s) in
    let (_, s₁, e₁, w₁) = Shows-returns w _ (enter-Shows q s v n e) in
    let v₁ = subst IsSound (sym w₁) (open-IsSound (view s) active q v e (λ z. cc)) in
    let a₁ : (view s₁).phase q ≡ some active =
      subst (λ (u : Window). u.phase q ≡ some active) (sym w₁)
        (unfold open_region in ground arith) in
    let (_, s₂, e₂, w₂) =
      Shows-returns (close_region q (view s₁)) _ (exit-Shows q nullptr s₁ v₁ n a₁ (keeps refl)) in
    (s₂, ap (λ o. and_then o (λ _. exit q nullptr)) e₁ ∙ e₂, w₂ ∙ ap (close_region q) w₁)

-- Whether the stack is empty, or an active region is on top.
abbrev pub is_top_active : List Ptr → (Ptr → Option RegionState) → Bool
is_top_active [] phase = true
is_top_active (t ∷ ts) phase = is_active? (phase t)

revisit_aux :
    (st : RegionState) (ts : List Ptr) (phase : Ptr → Option RegionState) (q : Ptr)
    → contains q ts ≡ false
    → phase q ≡ some closed
    → is_top_active ts phase ≡ true
    → let w = close_region q (open_region st q (window ts phase)) in
      (w.stack ≡ ts) × ((x : Ptr) → w.phase x ≡ phase x)
unfolding close_region open_region
revisit_aux st [] phase q n e a = (refl, λ x. ground arith)
revisit_aux st (t ∷ ts) phase q n e a = (ground arith, λ x. ground arith)

-- A region that is opened over an active top, and closed again.
pub revisit :
    (st : RegionState) (w : Window) (q : Ptr)
    → contains q w.stack ≡ false
    → w.phase q ≡ some closed
    → is_top_active w.stack w.phase ≡ true
    → close_region q (open_region st q w) ≡ w
revisit st w q n e a =
    let (h, g) = revisit_aux st w.stack w.phase q n e a in
    λ i. record { stack = h i; phase = fun_ext g i }

revisit_explored :
    (p : Ptr) (ts : List Ptr) (phase : Ptr → Option RegionState) (q : Ptr)
    → contains q (p ∷ ts) ≡ false
    → phase p ≡ some paused
    → (close_region q (open_region active q (window (p ∷ ts) phase))).phase p ≡ some active
unfolding close_region open_region
revisit_explored p ts phase q n e = ground arith

explore_exit-active :
    (p : Ptr) (t : Runtime)
    → p ≢ nullptr
    → (view t).phase p ≡ some active
    → explore_exit p t ≡ thrown cannot_exit_non_paused t
unfolding explore_exit
explore_exit-active p t n a = let (g, h, st) = state-cases t p active a in ground arith

-- With a sound stack, entering and leaving another closed region while a region on top is
-- explored makes the explored region active, and `explore_exit` of it then throws.
pub explore_broken :
    (p q : Ptr) (ts : List Ptr) (s : Runtime)
    → IsSound (view s)
    → p ≢ nullptr
    → q ≢ nullptr
    → s.region_stack ≡ p ∷ ts
    → (view s).phase p ≡ some paused
    → (view s).phase q ≡ some closed
    → (t : Runtime) × ((do enter true q; exit q nullptr) s ≡ returned tt t)
      × ((view t).phase p ≡ some active)
      × (explore_exit p t ≡ thrown cannot_exit_non_paused t)
explore_broken p q ts s v np nq top ep eq =
    let (t, r, w) = visit q s v nq eq in
    let off = subst (λ l. contains q l ≡ false) top (off-stack (view s) q v (inl eq)) in
    let opened : (close_region q (open_region active q (view s))).phase p ≡ some active =
      subst
        (λ l.
          (close_region q (open_region active q (window l (view s).phase))).phase p ≡ some active)
        (sym top) (revisit_explored p ts (view s).phase q off ep) in
    let a = subst (λ (u : Window). u.phase p ≡ some active) (sym w) opened in
    (t, r, a, explore_exit-active p t np a)

-- The target with the allocations of the source.
abbrev pub joined : Region → Region → Region
joined to from = record to {
  allocations = to.allocations ++ from.allocations;
  bridge_token = record to.bridge_token { state = merged };
}

pub merge_lem :
    (p q : Ptr) (s : Runtime) (to from : Region) (h : ObjectHeader)
    → p ≢ nullptr
    → q ≢ nullptr
    → s.regions p ≡ some to
    → s.regions q ≡ some from
    → to.state ≡ active
    → from.state ≡ closed
    → header_for_payload from.bridge ≢ nullptr
    → s.headers (header_for_payload from.bridge) ≡ some h
    → (t : Runtime) × (merge true p q s ≡ returned from.bridge t)
      × (t.region_stack ≡ s.region_stack)
      × ((x : Ptr) → t.regions x ≡ update (update s.regions p (some (joined to from))) q none x)
      × ((x : Ptr)
          → t.headers x
            ≡ update s.headers
                (header_for_payload from.bridge)
                (some (record h { region_id = to.id }))
                x)
unfolding merge
merge_lem p q s to from h np nq ep eq a c nh eh =
    let b = header_for_payload from.bridge in
    let g₁ =
      update s.regions p (some (record to { allocations = to.allocations ++ from.allocations })) in
    let g₂ = update g₁ q (some (record from { allocations = [] })) in
    let ne : p ≢ q = λ e. cc (subst (λ x. s.regions x ≡ some from) (sym e) eq) in
    (
      record s {
        regions = update (update g₂ p (some (joined to from))) q none;
        headers = update s.headers b (some (record h { region_id = to.id }));
      },
      ground arith,
      refl,
      λ x. ground arith,
      λ x. ground arith,
    )

-- With a sound stack, `exit` of the active region throws, and changes nothing, when the new
-- bridge is an object whose header names another region.
pub exit-foreign_bridge :
    (p b : Ptr) (s : Runtime) (r : Region) (h : ObjectHeader)
    → IsSound (view s)
    → p ≢ nullptr
    → b ≢ nullptr
    → header_for_payload b ≢ nullptr
    → s.regions p ≡ some r
    → r.state ≡ active
    → s.headers (header_for_payload b) ≡ some h
    → h.region_id ≢ r.id
    → exit p b s ≡ thrown bridge_of_other_region s
unfolding exit
exit-foreign_bridge p b s r h v np nb nh er a eh n =
    let (ts, top) = active-top (view s) p v (ground arith) in ground arith

-- With a sound stack, a live object of the source that is not its bridge keeps the id of its
-- region through `merge`: the `exit` of the target that follows refuses it as the new bridge.
pub merged_object_refused :
    (p q x : Ptr) (s : Runtime) (to from : Region) (h o : ObjectHeader)
    → IsSound (view s)
    → p ≢ nullptr
    → q ≢ nullptr
    → s.regions p ≡ some to
    → s.regions q ≡ some from
    → to.state ≡ active
    → from.state ≡ closed
    → header_for_payload from.bridge ≢ nullptr
    → s.headers (header_for_payload from.bridge) ≡ some h
    → x ≢ nullptr
    → header_for_payload x ≢ nullptr
    → header_for_payload x ≢ header_for_payload from.bridge
    → s.headers (header_for_payload x) ≡ some o
    → o.region_id ≡ from.id
    → from.id ≢ to.id
    → (t : Runtime) × (merge true p q s ≡ returned from.bridge t)
      × (exit p x t ≡ thrown bridge_of_other_region t)
merged_object_refused p q x s to from h o v np nq ep eq a c nh eh nx nhx ne eo io ni =
    let (t, m, k, g, hs) = merge_lem p q s to from h np nq ep eq a c nh eh in
    let v' : Sound t = subst (Ensures Sound) m (merge-Sound true p q s v) in
    let apart : p ≢ q = λ e. cc (subst (λ y. s.regions y ≡ some from) (sym e) eq) in
    let gp : t.regions p ≡ some (joined to from) = g p ∙ ground arith in
    let ho : t.headers (header_for_payload x) ≡ some o = hs (header_for_payload x) ∙ ground arith in
    (t, m, exit-foreign_bridge p x t (joined to from) o v' np nx nhx gp a ho (ground arith))

-- With a sound stack, an `enter` or an `explore` that runs out of memory leaves the region on
-- top paused, although nothing was opened: `exit` of it throws, whatever the new bridge.
pub refused_open :
    (t p b : Ptr) (ts : List Ptr) (s : Runtime)
    → IsSound (view s)
    → p ≢ nullptr
    → t ≢ nullptr
    → s.region_stack ≡ t ∷ ts
    → (view s).phase t ≡ some active
    → (view s).phase p ≡ some closed
    → (u : Runtime) × (enter false p s ≡ thrown bad_alloc u)
      × (explore false p s ≡ thrown bad_alloc u)
      × (u.region_stack ≡ s.region_stack)
      × (exit t b u ≡ thrown cannot_exit_non_active u)
unfolding enter explore exit
refused_open t p b ts s v np nt top at cp =
    let (r, e, a) = state-cases s t active at in
    let (q, e', c) = state-cases s p closed cp in
    (
      record s { regions = update s.regions t (some (record r { state = paused })) },
      ground arith,
      ground arith,
      refl,
      ground arith,
    )
