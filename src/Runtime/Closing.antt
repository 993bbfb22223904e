-- ===== src/Runtime/Closing.antt =====
-- runtime/src/Region.cpp: `exit` on every region and every new bridge.
use gura.Prelude.{
  ◌≡◌, ◌≢◌, ap, subst, ◌∙◌, ◌⊎◌, inl, inr, true, false, some, List, [], ◌∷◌, ◌==◌, arith,
  Bool-cases,
}
use gura.Runtime.{
  Ptr, nullptr, Region, ObjectHeader, Runtime, active, closed, returned, thrown, Error, is_active,
  cannot_exit_non_active, bridge_of_other_region, bridge_frozen,
}
use gura.Runtime.Window.{Window, IsSound, Distinct, close_region, active-top}
use gura.Runtime.Refine.{view, BridgeFits, keeps, moves, exit-Shows}
use gura.Runtime.Bridge.{Shows-returns}
use gura.Runtime.Ops.{header_for_payload, exit, is_top}

-- The region `p` is closed and taken off the stack, and every region keeps its phase but `p` and
-- the one directly below.
pub record Closes (p : Ptr) (s t : Runtime) : Type 0 where
  pub below : List Ptr
  pub was_top : s.region_stack ≡ p ∷ below
  pub stack : t.region_stack ≡ below
  pub closes : (view t).phase p ≡ some closed
  pub others : (q : Ptr) → q ≢ p → is_top q below ≡ false → (view t).phase q ≡ (view s).phase q

close_region-others :
    (p q : Ptr) (ts : List Ptr) (w : Window)
    → w.stack ≡ p ∷ ts
    → q ≢ p
    → is_top q ts ≡ false
    → (close_region p w).phase q ≡ w.phase q
unfolding close_region is_top
close_region-others p q [] w top n o = ground arith
close_region-others p q (t ∷ ts) w top n o = ground arith

close_region-closes :
    (p : Ptr) (ts : List Ptr) (w : Window)
    → w.stack ≡ p ∷ ts
    → IsSound w
    → ((close_region p w).phase p ≡ some closed) × ((close_region p w).stack ≡ ts)
unfolding close_region
close_region-closes p [] w top v = (ground arith, ground arith)
close_region-closes p (t ∷ ts) w top v =
    let d = subst Distinct top v.distinct in (ground (arith, d.0), ground arith)

-- Every object that is passed as a new bridge has a live header.
abbrev pub IsLive : Runtime → Ptr → Type 0
IsLive s b =
    b ≢ nullptr
    → header_for_payload b ≢ nullptr
    → (h : ObjectHeader) × (s.headers (header_for_payload b) ≡ some h)

-- What `exit` asks for.
abbrev pub MayExit : Runtime → Ptr → Ptr → Type 0
MayExit s p b = (p ≢ nullptr) × ((view s).phase p ≡ some active) × BridgeFits s p b

module _ (p b : Ptr) (s : Runtime) (v : IsSound (view s)) where
  exit-Closes : MayExit s p b → (t : Runtime) × (exit p b s ≡ returned tt t) × Closes p s t
  exit-Closes (n, a, fits) =
      let (ts, top) = active-top (view s) p v a in
      let (_, t, e, w) = Shows-returns (close_region p (view s)) _ (exit-Shows p b s v n a fits) in
      let (c, k) = close_region-closes p ts (view s) top v in
      (
        t,
        e,
        record {
          below = ts;
          was_top = top;
          stack = ap (λ (u : Window). u.stack) w ∙ k;
          closes = ap (λ (u : Window). u.phase p) w ∙ c;
          others = λ q m o.
              ap (λ (u : Window). u.phase q) w ∙ close_region-others p q ts (view s) top m o;
        },
      )

  inactive-throws :
      (r : Region)
      → p ≢ nullptr
      → s.regions p ≡ some r
      → is_active r.state ≡ false
      → (¬ MayExit s p b) × (exit p b s ≡ thrown cannot_exit_non_active s)
  unfolding exit
  inactive-throws r n e a = (λ (_, x, _). ground arith, ground arith)

  foreign-throws :
      (r : Region) (ts : List Ptr)
      → p ≢ nullptr
      → s.regions p ≡ some r
      → r.state ≡ active
      → s.region_stack ≡ p ∷ ts
      → b ≢ nullptr
      → header_for_payload b ≡ nullptr
      → (¬ MayExit s p b) × (exit p b s ≡ thrown bridge_of_other_region s)
  unfolding exit
  foreign-throws r ts n e a top nb z = (λ (_, _, f). not_fits f, ground arith)
    where
      not_fits : ¬ BridgeFits s p b
      not_fits (keeps k) = nb k
      not_fits (moves _ _ _ m _ _ _ _) = m z

  header-decides :
      (r : Region) (h : ObjectHeader) (ts : List Ptr)
      → p ≢ nullptr
      → s.regions p ≡ some r
      → r.state ≡ active
      → s.region_stack ≡ p ∷ ts
      → b ≢ nullptr
      → header_for_payload b ≢ nullptr
      → s.headers (header_for_payload b) ≡ some h
      → MayExit s p b ⊎ ((¬ MayExit s p b) × (e : Error) × (exit p b s ≡ thrown e s))
  unfolding exit
  header-decides r h ts n e a top nb nh eh = elim (Bool-cases (h.region_id == r.id)) [
    | inl i ↦ elim (Bool-cases h.frozen) [
      | inl f ↦ inr (λ (_, _, k). frozen_fits f k, bridge_frozen, ground arith)
      | inr f ↦ inl (n, ground arith, moves r h nb nh e eh (ground arith) f)
    ]
    | inr i ↦ inr (λ (_, _, k). other_fits i k, bridge_of_other_region, ground arith)
  ]
    where
      frozen_fits : h.frozen ≡ true → ¬ BridgeFits s p b
      frozen_fits f (keeps k) = nb k
      frozen_fits f (moves r' h' _ _ er eh' i z) = ground arith

      other_fits : (h.region_id == r.id) ≡ false → ¬ BridgeFits s p b
      other_fits f (keeps k) = nb k
      other_fits f (moves r' h' _ _ er eh' i z) = ground arith

  active-decides :
      (r : Region)
      → p ≢ nullptr
      → s.regions p ≡ some r
      → r.state ≡ active
      → IsLive s b
      → MayExit s p b ⊎ ((¬ MayExit s p b) × (e : Error) × (exit p b s ≡ thrown e s))
  active-decides r n e a live =
      let (ts, top) = active-top (view s) p v (ground arith) in
      elim (Bool-cases (b == nullptr)) [
        | inl z ↦ inl (n, ground arith, keeps (ground arith))
        | inr m ↦ elim (Bool-cases (header_for_payload b == nullptr)) [
          | inl z ↦
              let (k, t) = foreign-throws r ts n e a top (ground arith) (ground arith) in
              inr (k, bridge_of_other_region, t)
          | inr k ↦
              let (h, eh) = live (ground arith) (ground arith) in
              header-decides r h ts n e a top (ground arith) (ground arith) eh
        ]
      ]

  live-decides :
      (p ≡ nullptr) ⊎ ((r : Region) × (s.regions p ≡ some r))
      → IsLive s b
      → MayExit s p b ⊎ ((¬ MayExit s p b) × (e : Error) × (exit p b s ≡ thrown e s))
  unfolding exit
  live-decides (inl z) live = inr (λ (n, _, _). n z, cannot_exit_non_active, ground arith)
  live-decides (inr (r, e)) live = elim (Bool-cases (p == nullptr)) [
    | inl z ↦ inr (λ (n, _, _). ground arith, cannot_exit_non_active, ground arith)
    | inr n ↦ elim (Bool-cases (is_active r.state)) [
      | inl a ↦ active-decides r (ground arith) e (ground arith) live
      | inr a ↦
          let (k, t) = inactive-throws r (ground arith) e a in inr (k, cannot_exit_non_active, t)
    ]
  ]

-- With a sound stack, `exit` at null or a live region, with a new bridge whose header is alive
-- when it has one, does one of two things. If the region is active and the new bridge is null or
-- an object of the region that is not frozen, it returns: the region, which was the top, is
-- closed and off the stack, and no phase has changed but its own and that of the region directly
-- below. Otherwise it throws and changes nothing.
pub exit-decides :
    (p b : Ptr) (s : Runtime)
    → IsSound (view s)
    → (p ≡ nullptr) ⊎ ((r : Region) × (s.regions p ≡ some r))
    → IsLive s b
    → (MayExit s p b × (t : Runtime) × (exit p b s ≡ returned tt t) × Closes p s t)
      ⊎ ((¬ MayExit s p b) × (e : Error) × (exit p b s ≡ thrown e s))
exit-decides p b s v h live = elim (live-decides p b s v h live) [
  | inl m ↦ let (t, e, c) = exit-Closes p b s v m in inl (m, t, e, c)
  | inr n ↦ inr n
]
