-- ===== src/Runtime/Calls.antt =====
-- The runtime's entry points as one type of calls, and what a program can reach with them.
-- `runtime/include/gura/runtime/Region.h`, `Freeze.h`, `Merge.h`.
use gura.Prelude.{ℕ, Bool, ◌≡◌, ◌⊎◌, none, some, []}
use gura.Runtime.{
  Ptr, nullptr, TypeId, RegionStrategy, closed, Runtime, Error, returned, thrown, M, ◌>>=◌, pure,
}
use gura.Runtime.Ops.{
  new_iso, bridge, set_bridge_type, enter, exit, explore, explore_exit, destroy, freeze, merge,
}
use gura.Runtime.Refine.{view}

pub data Call : Type 0 where
  news : (new_region allocation : Ptr) (grown : Bool) → ℕ → RegionStrategy → Call
  enters explores : (grown : Bool) → Ptr → Call
  bridges explore_exits destroys freezes : Ptr → Call
  sets_type : Ptr → TypeId → Call
  exits : (region new_bridge : Ptr) → Call
  merges : (grown : Bool) (target source : Ptr) → Call

abbrev discard {ℓ} : {A : Type ℓ} → M A → M (Unit {0})
discard m = m >>= λ _. pure tt

unfoldable pub perform : Call → M (Unit {0})
perform (news p a grown size strategy) = discard (new_iso p a grown size strategy)
perform (bridges p) = discard (bridge p)
perform (enters grown p) = enter grown p
perform (explores grown p) = explore grown p
perform (explore_exits p) = explore_exit p
perform (destroys p) = destroy p
perform (freezes p) = discard (freeze p)
perform (sets_type p t) = set_bridge_type p t
perform (exits p b) = exit p b
perform (merges grown t s) = discard (merge grown t s)

-- What a caller keeps to: `new` gives the address of no live region, and a region is destroyed
-- only while it is closed.
abbrev pub Allowed : Call → Runtime → Type 0
Allowed (news p a grown size strategy) s = s.regions p ≡ none
Allowed (destroys p) s = (p ≡ nullptr) ⊎ ((view s).phase p ≡ some closed)
Allowed _ s = Unit

abbrev pub start : Runtime
start = record { next_region_id = 1; region_stack = []; regions = λ _. none; headers = λ _. none }

-- A call that returned, or one that threw and was caught.
pub data Step : Runtime → Runtime → Type 0 where
  returns : (c : Call) {s t : Runtime} → Allowed c s → perform c s ≡ returned tt t → Step s t
  throws :
      (c : Call) (e : Error) {s t : Runtime} → Allowed c s → perform c s ≡ thrown e t → Step s t

pub data Reach : Runtime → Type 0 where
  begin : Reach start
  next : {s t : Runtime} → Reach s → Step s t → Reach t
