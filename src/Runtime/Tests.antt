-- ===== src/Runtime/Tests.antt =====
-- Concrete histories and states of the region runtime (runtime/src), and the theorems at them.
use gura.Prelude.{
  ℕ, ◌+◌, ◌≡◌, refl, ◌⊎◌, inl, inr, Bool, true, false, none, some, List, [], ◌∷◌, arith,
}
use gura.Runtime.{
  Ptr, Region, RegionState, RegionStrategy, ObjectHeader, Error, Runtime, Outcome, active, paused,
  closed, returned, thrown, undefined, cannot_exit_non_paused, cannot_exit_non_active,
  bridge_of_other_region, bad_alloc, update, ◌>>◌,
}
use gura.Runtime.{external_iso}
use gura.Runtime.Ops.{
  enter, exit, explore, explore_exit, merge, header_for_payload, payload_for_header, fresh_region,
  new_iso, place, require_stack_top, pop_region, resume_top, header_at, replace_bridge, is_top,
  require_state, region_at, modify_region, pause_top, push_region, opened,
}
use gura.Runtime.Window.{IsSound, AllPaused}
use gura.Runtime.Refine.{view}
use gura.Runtime.Calls.{news, enters, perform, Reach, start, begin, next, returns}
use gura.Runtime.Failures.{throw_keeps, Leaves}
use gura.Runtime.Safety.History.{Reach-active}
use gura.Runtime.Closing.{MayExit, Closes, exit-decides}
use gura.Runtime.Nesting.{Nested, ended, visited, looked, Nested-view}
use gura.Runtime.Bridge.{refused_open, explore_broken, merged_object_refused}

-- The state that a call that returns leaves.
abbrev after {ℓ} : {A : Type ℓ} → Outcome A → Runtime
after (returned a s) = s
after (thrown e s) = s
after undefined = start

-- The state that a call that throws leaves.
abbrev after_throw {ℓ} : {A : Type ℓ} → Outcome A → Runtime
after_throw (returned a s) = start
after_throw (thrown e s) = s
after_throw undefined = start

-- A region with the id `id` in the state `st`, whose bridge has its header at `h`.
abbrev region : ℕ → RegionState → ℕ → Region
region id st h = record {
  id = id;
  state = st;
  strategy = RegionStrategy.arena;
  bridge = h + 24;
  bridge_type_id = 0;
  bridge_size = 8;
  bridge_token = record { region_id = id; object = h + 24; type_id = 0; state = external_iso };
  boundary = record { region_id = id; bridge_type_id = 0; bridge_size = 8 };
  allocations = h ∷ [];
}

abbrev header : ℕ → Bool → ObjectHeader
header id frozen = record { region_id = id; type_id = 5; frozen = frozen }

-- Regions 1 and 2 at the addresses 1 and 2, with their bridges' headers at 100 and 200, an object of
-- region 2 with its header at 300, and a frozen object of region 1 with its header at 400.
abbrev state : List Ptr → RegionState → RegionState → Runtime
state ts a b = record {
  next_region_id = 3;
  region_stack = ts;
  regions = update (update (λ _. none) 1 (some (region 1 a 100))) 2 (some (region 2 b 200));
  headers =
      update
        (update
          (update (update (λ _. none) 100 (some (header 1 false))) 200 (some (header 2 false))) 300
          (some (header 2 false)))
        400 (some (header 1 true));
}

abbrev idle : Runtime
idle = state [] closed closed

abbrev entered : Runtime
entered = state (1 ∷ []) active closed

abbrev exploring : Runtime
exploring = state (1 ∷ []) paused closed

idle-IsSound : IsSound (view idle)
idle-IsSound = record { distinct = tt; covered = tt; off = λ q h. ground arith }

entered-IsSound : IsSound (view entered)
entered-IsSound = record {
  distinct = (refl, tt);
  covered = (inl refl, tt);
  off = λ q h. ground arith;
}

exploring-IsSound : IsSound (view exploring)
exploring-IsSound = record {
  distinct = (refl, tt);
  covered = (inr refl, tt);
  off = λ q h. ground arith;
}

abbrev born : Runtime
born = after (perform (news 1 100 true 8 RegionStrategy.arena) start)

entering : Reach (after (perform (enters true 1) born))
unfolding perform new_iso enter require_state pause_top push_region modify_region opened region_at
    place fresh_region payload_for_header
entering =
    next (next begin (returns (news 1 100 true 8 RegionStrategy.arena) refl refl))
      (returns (enters true 1) tt refl)

Reach-active_example :
    (ts : List Ptr) × ((after (perform (enters true 1) born)).region_stack ≡ 1 ∷ ts)
    × AllPaused (view (after (perform (enters true 1) born))).phase ts
unfolding perform new_iso enter require_state pause_top push_region modify_region opened region_at
    place fresh_region payload_for_header
Reach-active_example = Reach-active 1 _ entering refl refl

-- `enter` runs out of memory, with region 1 on top.
throw_keeps_example :
    (((after_throw (perform (enters false 2) entered)).region_stack ≡ entered.region_stack)
      × ((after_throw (perform (enters false 2) entered)).regions ≡ entered.regions)
      × ((after_throw (perform (enters false 2) entered)).headers ≡ entered.headers))
    ⊎ ((bad_alloc ≡ bad_alloc)
        × Leaves (enters false 2) entered (after_throw (perform (enters false 2) entered)))
unfolding perform enter require_state region_at pause_top modify_region push_region
throw_keeps_example =
    throw_keeps (enters false 2) entered (after_throw (perform (enters false 2) entered)) bad_alloc
      refl

explore_broken_example :
    (t : Runtime) × ((do enter true 2; exit 2 0) exploring ≡ returned tt t)
    × ((view t).phase 1 ≡ some active)
    × (explore_exit 1 t ≡ thrown cannot_exit_non_paused t)
explore_broken_example =
    explore_broken 1 2 [] exploring exploring-IsSound (ground arith) (ground arith) refl refl refl

-- `enter 1 { enter 2 { } }`, and then `explore 2 { }`.
abbrev in_one : Runtime
in_one = after (enter true 1 idle)

abbrev in_two : Runtime
in_two = after (enter true 2 in_one)

abbrev out_of_two : Runtime
out_of_two = after (exit 2 224 in_two)

abbrev out_of_one : Runtime
out_of_one = after (exit 1 124 out_of_two)

abbrev seeing_two : Runtime
seeing_two = after (explore true 2 out_of_one)

visits : Nested idle (after (explore_exit 2 seeing_two))
unfolding enter exit explore explore_exit require_state require_stack_top pause_top push_region
    pop_region resume_top modify_region opened region_at header_at replace_bridge is_top
    header_for_payload
visits = visited 1 124 refl (visited 2 224 refl ended refl ended) refl (looked 2 refl refl ended)

Nested-view_example : view (after (explore_exit 2 seeing_two)) ≡ view idle
Nested-view_example = Nested-view idle-IsSound refl visits

exit-decides_example :
    (MayExit entered 1 424
      × (t : Runtime) × (exit 1 424 entered ≡ returned tt t)
      × Closes 1 entered t)
    ⊎ ((¬ MayExit entered 1 424) × (e : Error) × (exit 1 424 entered ≡ thrown e entered))
unfolding header_for_payload
exit-decides_example =
    exit-decides 1 424 entered entered-IsSound (inr (region 1 active 100, refl))
      λ _ _. (header 1 true, refl)

refused_open_example :
    (u : Runtime) × (enter false 2 entered ≡ thrown bad_alloc u)
    × (explore false 2 entered ≡ thrown bad_alloc u)
    × (u.region_stack ≡ 1 ∷ [])
    × (exit 1 0 u ≡ thrown cannot_exit_non_active u)
refused_open_example =
    refused_open 1 2 0 [] entered entered-IsSound (ground arith) (ground arith) refl refl refl

merged_object_refused_example :
    (t : Runtime) × (merge true 1 2 entered ≡ returned 224 t)
    × (exit 1 324 t ≡ thrown bridge_of_other_region t)
unfolding header_for_payload
merged_object_refused_example =
    merged_object_refused 1 2 324 entered (region 1 active 100) (region 2 closed 200)
      (header 2 false) (header 2 false) entered-IsSound (ground arith) (ground arith) refl refl refl
      refl (ground arith) refl (ground arith) (ground arith) (ground arith) refl refl (ground arith)
