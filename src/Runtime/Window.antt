-- ===== src/Runtime/Window.antt =====
-- What the region stack promises, apart from the objects that implement it: the stack of open
-- regions and the phase of every region.
use gura.Prelude.{
  ◌≡◌, refl, sym, subst, ◌⊎◌, inl, inr, ◌≢◌, Bool, true, false, Option, none, some, List, [], ◌∷◌,
  ◌==◌, if◌then◌else◌, arith, All,
}
use gura.Runtime.{Ptr, RegionState, active, paused, closed, update}

pub record Window : Type 0 where
  pub stack : List Ptr
  pub phase : Ptr → Option RegionState

abbrev pub is_active? : Option RegionState → Bool
is_active? (some active) = true
is_active? (some _) = false
is_active? none = false

abbrev pub is_paused? : Option RegionState → Bool
is_paused? (some paused) = true
is_paused? (some _) = false
is_paused? none = false

unfoldable pub set_phase : Ptr → RegionState → Window → Window
set_phase p st w = record w { phase = update w.phase p (some st) }

unfoldable pub push : Ptr → Window → Window
push p w = record w { stack = p ∷ w.stack }

unfoldable pub pop : Window → Window
pop w = record w { stack = elim w.stack [ [] ↦ [] | t ∷ ts ↦ ts ] }

unfoldable pub pause : Window → Window
unfolding set_phase
pause w = elim w.stack [
  | [] ↦ w
  | t ∷ ts ↦ if is_active? (w.phase t) then set_phase t paused w else w
]

unfoldable pub resume : Window → Window
unfolding set_phase
resume w = elim w.stack [
  | [] ↦ w
  | t ∷ ts ↦ if is_paused? (w.phase t) then set_phase t active w else w
]

-- A region is opened in the state `st`, as `enter` (active) and `explore` (paused) do.
unfoldable pub open_region : RegionState → Ptr → Window → Window
unfolding set_phase push pause
open_region st p w = set_phase p st (push p (pause w))

-- The region on top is closed, as `exit` and `explore_exit` do: a paused region below it becomes
-- active, whether it was entered or explored.
unfoldable pub close_region : Ptr → Window → Window
unfolding set_phase pop resume
close_region p w = resume (pop (set_phase p closed w))

abbrev pub contains : Ptr → List Ptr → Bool
contains p [] = false
contains p (t ∷ ts) = if t == p then true else contains p ts

abbrev pub Distinct : List Ptr → Type 0
Distinct [] = Unit
Distinct (t ∷ ts) = (contains t ts ≡ false) × Distinct ts

abbrev pub AllPaused : (Ptr → Option RegionState) → List Ptr → Type 0
AllPaused phase = All (λ p. phase p ≡ some paused)

-- The top is open, and all that it covers is paused.
abbrev pub Covered : (Ptr → Option RegionState) → List Ptr → Type 0
Covered phase [] = Unit
Covered phase (t ∷ ts) = ((phase t ≡ some active) ⊎ (phase t ≡ some paused)) × AllPaused phase ts

-- A region off the stack is closed, or does not exist.
abbrev pub Off : Window → Ptr → Type 0
Off w p = contains p w.stack ≡ false → (w.phase p ≡ none) ⊎ (w.phase p ≡ some closed)

pub record IsSound (w : Window) : Type 0 where
  pub distinct : Distinct w.stack
  pub covered : Covered w.phase w.stack
  pub off : (p : Ptr) → Off w p

-- A write off the list.
AllPaused-update :
    (phase : Ptr → Option RegionState) (p : Ptr) (v : Option RegionState) (ts : List Ptr)
    → contains p ts ≡ false
    → AllPaused phase ts
    → AllPaused (update phase p v) ts
AllPaused-update phase p v [] n h = tt
AllPaused-update phase p v (t ∷ ts) n h = ground (arith, AllPaused-update phase p v ts)

contains-paused :
    (phase : Ptr → Option RegionState) (p : Ptr) (ts : List Ptr)
    → AllPaused phase ts
    → contains p ts ≡ true
    → phase p ≡ some paused
contains-paused phase p [] h c = cc
contains-paused phase p (t ∷ ts) h c = ground (arith, contains-paused phase p ts)

-- What is closed or dead is not on the stack.
pub off-stack :
    (w : Window) (p : Ptr)
    → IsSound w
    → (w.phase p ≡ some closed) ⊎ (w.phase p ≡ none)
    → contains p w.stack ≡ false
off-stack w p v h = go w.stack v.covered
  where
    go : (ts : List Ptr) → Covered w.phase ts → contains p ts ≡ false
    go [] c = refl
    go (t ∷ ts) c = ground (arith, contains-paused w.phase p ts)

abbrev pub window : List Ptr → (Ptr → Option RegionState) → Window
window ts phase = record { stack = ts; phase = phase }

open-IsSound_aux :
    (ts : List Ptr) (phase : Ptr → Option RegionState) (st : RegionState) (p : Ptr)
    → IsSound (window ts phase)
    → contains p ts ≡ false
    → st ≢ closed
    → IsSound (open_region st p (window ts phase))
unfolding open_region
open-IsSound_aux [] phase st p v n h = record {
  distinct = ground arith;
  covered = ground arith;
  off = λ q. ground (arith, v.off q);
}
open-IsSound_aux (t ∷ ts) phase st p v n h = record {
  distinct = ground (arith, v.distinct);
  covered = ground (
    arith,
    AllPaused-update phase p (some st) ts,
    AllPaused-update phase t (some paused) ts,
    AllPaused-update (update phase t (some paused)) p (some st) ts,
  );
  off = λ q. ground (arith, v.off q);
}

-- Opening a closed region keeps the stack sound.
pub open-IsSound :
    (w : Window) (st : RegionState) (p : Ptr)
    → IsSound w
    → w.phase p ≡ some closed
    → st ≢ closed
    → IsSound (open_region st p w)
open-IsSound w st p v e h = open-IsSound_aux w.stack w.phase st p v (off-stack w p v (inl e)) h

close-IsSound_aux :
    (t u : Ptr) (ts : List Ptr) (phase : Ptr → Option RegionState)
    → IsSound (window (t ∷ u ∷ ts) phase)
    → IsSound (close_region t (window (t ∷ u ∷ ts) phase))
unfolding close_region
close-IsSound_aux t u ts phase v = record {
  distinct = ground (arith, v.distinct);
  covered = ground (
    arith,
    v.distinct,
    v.covered,
    AllPaused-update phase t (some closed) ts,
    AllPaused-update (update phase t (some closed)) u (some active) ts,
  );
  off = λ q. ground (arith, v.off q);
}

pause-IsSound_aux :
    (ts : List Ptr) (phase : Ptr → Option RegionState)
    → IsSound (window ts phase)
    → IsSound (pause (window ts phase))
unfolding pause
pause-IsSound_aux [] phase v = v
pause-IsSound_aux (t ∷ ts) phase v = elim v.covered.0 [
  | inl a ↦
      let e : pause (window (t ∷ ts) phase) ≡ set_phase t paused (window (t ∷ ts) phase) =
        ground arith in
      subst IsSound (sym e) (record {
        distinct = v.distinct;
        covered = ground (arith, v.distinct, v.covered, AllPaused-update phase t (some paused) ts);
        off = λ q. ground (arith, v.off q);
      })
  | inr b ↦
      let e : pause (window (t ∷ ts) phase) ≡ window (t ∷ ts) phase = ground arith in
      subst IsSound (sym e) v
]

-- Pausing the top keeps the stack sound.
pub pause-IsSound : (w : Window) → IsSound w → IsSound (pause w)
pause-IsSound w v = pause-IsSound_aux w.stack w.phase v

-- Closing the region on top keeps it sound.
pub close-IsSound :
    (t : Ptr) (ts : List Ptr) (phase : Ptr → Option RegionState)
    → IsSound (window (t ∷ ts) phase)
    → IsSound (close_region t (window (t ∷ ts) phase))
unfolding close_region
close-IsSound t [] phase v = record {
  distinct = tt;
  covered = tt;
  off = λ q. ground (arith, v.off q);
}
close-IsSound t (u ∷ ts) phase v = close-IsSound_aux t u ts phase v

-- A region off the stack may come and go.
pub set-IsSound :
    (w : Window) (p : Ptr) (v : Option RegionState)
    → IsSound w
    → contains p w.stack ≡ false
    → (v ≡ none) ⊎ (v ≡ some closed)
    → IsSound (record w { phase = update w.phase p v })
set-IsSound w p v s n h = record {
  distinct = s.distinct;
  covered = go w.stack n s.covered;
  off = λ q. ground (arith, s.off q);
}
  where
    go :
        (ts : List Ptr)
        → contains p ts ≡ false
        → Covered w.phase ts
        → Covered (update w.phase p v) ts
    go [] n c = tt
    go (t ∷ ts) n c = ground (arith, AllPaused-update w.phase p v ts)

-- At most one region is active, and it is the top of the stack.
pub active-top :
    (w : Window) (p : Ptr)
    → IsSound w
    → w.phase p ≡ some active
    → (ts : List Ptr) × (w.stack ≡ p ∷ ts)
active-top w p v e = go w.stack refl
  where
    go : (l : List Ptr) → w.stack ≡ l → (ts : List Ptr) × (w.stack ≡ p ∷ ts)
    go [] eq = ground (arith, v.off p)
    go (t ∷ ts) eq = (ts, ground (arith, v.covered, v.off p, contains-paused w.phase p ts))

-- Pausing leaves a closed region closed.
pub pause-closed :
    (w : Window) (p : Ptr) → w.phase p ≡ some closed → (pause w).phase p ≡ some closed
unfolding pause
pause-closed w p e = ground arith

-- Between closing the top and resuming what it covered, the stack is sound as well.
pub pop-IsSound :
    (t : Ptr) (ts : List Ptr) (phase : Ptr → Option RegionState)
    → IsSound (window (t ∷ ts) phase)
    → IsSound (pop (set_phase t closed (window (t ∷ ts) phase)))
unfolding pop set_phase
pop-IsSound t [] phase v = record {
  distinct = tt;
  covered = tt;
  off = λ q. ground (arith, v.off q);
}
pop-IsSound t (u ∷ ts) phase v = record {
  distinct = ground (arith, v.distinct);
  covered = ground (arith, v.distinct, v.covered, AllPaused-update phase t (some closed) ts);
  off = λ q. ground (arith, v.off q);
}

-- The same for any window whose top is `t`.
pub pop_top-IsSound :
    (w : Window) (t : Ptr) (ts : List Ptr)
    → w.stack ≡ t ∷ ts
    → IsSound w
    → IsSound (pop (set_phase t closed w))
pop_top-IsSound w t ts e =
    subst (λ l. IsSound (window l w.phase) → IsSound (pop (set_phase t closed (window l w.phase))))
      (sym e) (pop-IsSound t ts w.phase)

pub close_top-IsSound :
    (w : Window) (t : Ptr) (ts : List Ptr)
    → w.stack ≡ t ∷ ts
    → IsSound w
    → IsSound (close_region t w)
close_top-IsSound w t ts e =
    subst (λ l. IsSound (window l w.phase) → IsSound (close_region t (window l w.phase))) (sym e)
      (close-IsSound t ts w.phase)
