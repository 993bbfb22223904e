-- ===== src/Runtime/Failures.antt =====
-- What a call that throws leaves behind: runtime/src/Region.cpp, Freeze.cpp, Merge.cpp.
pub mod Unchanged
use gura.Prelude.{
  ℕ, Bool-cases, Option-cases, ◌⊎◌, inl, inr, ◌≢◌, some, ◌≡◌, refl, sym, subst, Bool, true, false,
  List, [], ◌∷◌, ◌==◌, if◌then◌else◌, arith,
}
use gura.Runtime.{
  Ptr, Region, ObjectHeader, Runtime, RegionState, RegionStrategy, Error, ◌>>◌, Outcome, returned,
  thrown, undefined, M, and_then, pure, throw, require, active, paused, is_active, closed, update,
  bad_alloc,
}
use gura.Runtime.Ops.{
  modify_region, modify_payload, region_at, header_at, require_state, require_stack_top,
  replace_bridge, pause_top, resume_top, push_region, pop_region, place, fresh_region, free_all,
  delete_region, new_iso, bridge, set_bridge_type, enter, exit, explore, explore_exit, destroy,
  freeze, merge,
}
use gura.Runtime.Calls.{
  Call, news, bridges, enters, explores, explore_exits, destroys, freezes, sets_type, exits, merges,
  perform,
}
use gura.Runtime.Failures.Unchanged.{
  Same, Checks, Unthrown, Kept, Kept-Unthrown, Checks-require_state, Unthrown-modify_region,
  Unthrown-pause_top, Same-refl, Same-id, Kept-exit, Kept-explore_exit, Kept-set_bridge_type,
  Kept-destroy, Kept-freeze, Kept-merge, Kept-bridge, Kept-discard,
}

-- Nothing has changed but the region on top, which was active and is paused.
pub record PausedTop (s t : Runtime) : Type 0 where
  pub top : Ptr
  pub below : List Ptr
  pub region : Region
  pub is_top : s.region_stack ≡ top ∷ below
  pub is_live : s.regions top ≡ some region
  pub was_active : region.state ≡ active
  pub is_paused :
      t ≡ record s { regions = update s.regions top (some (record region { state = paused })) }

-- What a call may leave behind that throws `bad_alloc` half-way: `enter` and `explore` have paused
-- the top; `new_iso` leaves a closed region with no allocations at `p`, and a header at `a`.
abbrev pub Leaves : Call → Runtime → Runtime → Type 0
Leaves (enters grown p) s t = PausedTop s t
Leaves (explores grown p) s t = PausedTop s t
Leaves (news p a grown n g) s t =
    (t.region_stack ≡ s.region_stack)
    × ((r : Region) × (r.state ≡ closed)
        × (r.allocations ≡ [])
        × (t.regions ≡ update s.regions p (some r)))
    × ((h : ObjectHeader) × (t.headers ≡ update s.headers a (some h)))
Leaves _ s t = ⊥

-- Where the call `c` throws, the state is as before, or the memory ran out half-way.
abbrev Left {ℓ} : {A : Type ℓ} → Call → Runtime → Outcome A → Type 0
Left c s (returned a t) = Unit
Left c s (thrown e t) = Same s t ⊎ ((e ≡ bad_alloc) × Leaves c s t)
Left c s undefined = Unit

Left-Kept {ℓ} : {A : Type ℓ} (c : Call) (s : Runtime) (o : Outcome A) → Kept s o → Left c s o
Left-Kept c s (returned a t) h = tt
Left-Kept c s (thrown e t) h = inl h
Left-Kept c s undefined h = tt

Left-Unthrown {ℓ} : {A : Type ℓ} (c : Call) (s : Runtime) (o : Outcome A) → Unthrown o → Left c s o
Left-Unthrown c s o h = Left-Kept c s o (Kept-Unthrown s o h)

module _ {ℓ κ} {A : Type ℓ} {B : Type κ} (c : Call) (s : Runtime) where
  Left-check :
      (m : Outcome A) (k : A → M B)
      → Checks s m
      → ((a : A) → Left c s (k a s))
      → Left c s (and_then m k)
  Left-check (returned a t) k h f = subst (λ u. Left c s (k a u)) (sym h) (f a)
  Left-check (thrown e t) k h f = inl (subst (Same s) (sym h) (Same-refl s))
  Left-check undefined k h f = tt

Left-discard {ℓ} :
    {A : Type ℓ} (c : Call) (s : Runtime) (m : Outcome A)
    → Left c s m
    → Left {0} {A = Unit {0}} c s (and_then m λ _. pure tt)
Left-discard c s (returned a t) h = tt
Left-discard c s (thrown e t) h = h
Left-discard c s undefined h = tt

-- `pause_top` changes nothing, or pauses an active top.
pause_top-cases : (s t : Runtime) → pause_top s ≡ returned tt t → (t ≡ s) ⊎ PausedTop s t
unfolding pause_top region_at modify_region
pause_top-cases s t e = go s.region_stack refl
  where
    go : (l : List Ptr) → s.region_stack ≡ l → (t ≡ s) ⊎ PausedTop s t
    go [] eq = inl (ground arith)
    go (x ∷ ts) eq = elim (Option-cases (s.regions x)) [
      | inl n ↦ ground arith
      | inr (r, h) ↦ elim (Bool-cases (is_active r.state)) [
        | inr n ↦ inl (ground arith)
        | inl y ↦ inr (record {
          top = x;
          below = ts;
          region = r;
          is_top = eq;
          is_live = h;
          was_active = ground arith;
          is_paused = ground arith;
        })
      ]
    ]

module _ (c : Call) (s : Runtime) (h : (t : Runtime) → PausedTop s t → Leaves c s t) where
  pushes-Left :
      (grown : Bool) (p : Ptr) (f : Region → Region) (t : Runtime)
      → pause_top s ≡ returned tt t
      → Left c s ((do push_region grown p; modify_region p f) t)
  unfolding push_region
  pushes-Left true p f t e = Left-Unthrown c s _ (Unthrown-modify_region p f _)
  pushes-Left false p f t e = elim (pause_top-cases s t e) [
    | inl q ↦ inl (subst (Same s) (sym q) (Same-refl s))
    | inr q ↦ inr (refl, h t q)
  ]

  opens-Left :
      (grown : Bool) (p : Ptr) (f : Region → Region)
      → Left c s ((do pause_top; push_region grown p; modify_region p f) s)
  opens-Left grown p f = go (pause_top s) refl (Unthrown-pause_top s)
    where
      go :
          (m : Outcome (Unit {0}))
          → pause_top s ≡ m
          → Unthrown m
          → Left c s (and_then m λ _. do push_region grown p; modify_region p f)
      go (returned tt t) e u = pushes-Left grown p f t e
      go (thrown x t) e u = absurd u
      go undefined e u = tt

Left-enter : (grown : Bool) (p : Ptr) (s : Runtime) → Left (enters grown p) s (enter grown p s)
unfolding enter
Left-enter grown p s =
    Left-check (enters grown p) s _ _ (Checks-require_state p _ _ s)
      λ _. opens-Left (enters grown p) s (λ t e. e) grown p _

Left-explore :
    (grown : Bool) (p : Ptr) (s : Runtime) → Left (explores grown p) s (explore grown p s)
unfolding explore
Left-explore grown p s =
    Left-check (explores grown p) s _ _ (Checks-require_state p _ _ s)
      λ _. opens-Left (explores grown p) s (λ t e. e) grown p _

Left-new_iso :
    (p a : Ptr) (grown : Bool) (n : ℕ) (g : RegionStrategy) (s : Runtime)
    → Left (news p a grown n g) s (new_iso p a grown n g s)
unfolding new_iso place fresh_region
Left-new_iso p a true n g s = elim (Bool-cases (p == 0)) [
  | inl z ↦ rw (z, new_iso, Left) (inl (Same-refl s))
  | inr m ↦ elim (Bool-cases (a == 0)) [
    | inl z ↦ rw (m, z, new_iso, Left) (inl (Same-id s _))
    | inr m' ↦ rw (m, m', new_iso, Left) tt
  ]
]
Left-new_iso p a false n g s = elim (Bool-cases (p == 0)) [
  | inl z ↦ rw (z, new_iso, Left) (inl (Same-refl s))
  | inr m ↦ elim (Bool-cases (a == 0)) [
    | inl z ↦ rw (m, z, new_iso, Left) (inl (Same-id s _))
    | inr m' ↦ rw (m, m', new_iso, Left) (inr (refl, (refl, (_, refl, refl, refl), (_, refl))))
  ]
]

Left-perform : (c : Call) (s : Runtime) → Left c s (perform c s)
unfolding perform
Left-perform (news p a grown n g) s =
    Left-discard (news p a grown n g) s _ (Left-new_iso p a grown n g s)
Left-perform (bridges p) s = Left-Kept (bridges p) s _ (Kept-discard s _ (Kept-bridge p s))
Left-perform (enters grown p) s = Left-enter grown p s
Left-perform (explores grown p) s = Left-explore grown p s
Left-perform (explore_exits p) s = Left-Kept (explore_exits p) s _ (Kept-explore_exit p s)
Left-perform (destroys p) s = Left-Kept (destroys p) s _ (Kept-destroy p s)
Left-perform (freezes p) s = Left-Kept (freezes p) s _ (Kept-discard s _ (Kept-freeze p s))
Left-perform (sets_type p t) s = Left-Kept (sets_type p t) s _ (Kept-set_bridge_type p t s)
Left-perform (exits p b) s = Left-Kept (exits p b) s _ (Kept-exit p b s)
Left-perform (merges grown p q) s =
    Left-Kept (merges grown p q) s _ (Kept-discard s _ (Kept-merge grown p q s))

-- A call of the runtime that throws leaves the region stack, every region and every header as
-- they were, with one exception: a call that runs out of memory half-way, and throws
-- `bad_alloc`. Then `enter` and `explore` have paused the region on top, which was active, and
-- changed nothing else; `new_iso` has added a closed region with no allocations and the header
-- of its object, and changed nothing else but the id counter.
pub throw_keeps :
    (c : Call) (s t : Runtime) (e : Error)
    → perform c s ≡ thrown e t
    → ((t.region_stack ≡ s.region_stack) × (t.regions ≡ s.regions) × (t.headers ≡ s.headers))
      ⊎ ((e ≡ bad_alloc) × Leaves c s t)
throw_keeps c s t e h = elim (subst (Left c s) h (Left-perform c s)) [
  | inl k ↦ inl (k.region_stack, k.regions, k.headers)
  | inr l ↦ inr l
]
