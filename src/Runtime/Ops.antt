-- ===== src/Runtime/Ops.antt =====
-- runtime/src/Region.cpp, Freeze.cpp and Merge.cpp: the functions that compiled code calls.
use gura.Prelude.{
  ℕ, ◌+◌, ◌-◌, ◌%◌, ◌^◌, Bool, true, false, not, none, some, List, [], ◌∷◌, ◌++◌, ◌==◌,
  if◌then◌else◌,
}
use gura.Runtime.{
  Ptr, nullptr, TypeId, ObjectHeader, RegionStrategy, Region, Runtime, returned, thrown, undefined,
  M, ◌>>=◌, ◌>>◌, pure, throw, require, update, is_active, is_paused, is_closed,
}
use gura.Runtime.{RegionState, active, paused, closed}
use gura.Runtime.{BridgeState, external_iso, active_mut, paused_read, frozen, merged}
use gura.Runtime.{
  bad_alloc, bridge_requires_region, bridge_type_requires_region, cannot_enter_non_closed,
  cannot_exit_non_active, exit_not_on_top, bridge_of_other_region, bridge_frozen,
  cannot_explore_non_closed, cannot_exit_non_paused, explore_exit_not_on_top,
  freeze_requires_closed, merge_target_not_active, merge_source_not_closed,
}

-- `sizeof(ObjectHeader)`
abbrev pub header_size : ℕ
header_size = 24

unfoldable pub header_for_payload : Ptr → Ptr
header_for_payload payload = if payload == nullptr then nullptr else payload - header_size

unfoldable pub payload_for_header : Ptr → Ptr
payload_for_header header = if header == nullptr then nullptr else header + header_size

-- `*region`, undefined behaviour at the address of no live region.
unfoldable pub region_at : Ptr → M Region
region_at p s = elim (s.regions p) [ none ↦ undefined | some r ↦ returned r s ]

-- An assignment through `region`.
unfoldable pub modify_region : Ptr → (Region → Region) → M (Unit {0})
modify_region p f s = elim (s.regions p) [
  | none ↦ undefined
  | some r ↦ returned tt (record s { regions = update s.regions p (some (f r)) })
]

-- `*header`, likewise.
unfoldable pub header_at : Ptr → M ObjectHeader
header_at h s = elim (s.headers h) [ none ↦ undefined | some o ↦ returned o s ]

unfoldable pub modify_header : Ptr → (ObjectHeader → ObjectHeader) → M (Unit {0})
modify_header h f s = elim (s.headers h) [
  | none ↦ undefined
  | some o ↦ returned tt (record s { headers = update s.headers h (some (f o)) })
]

-- `if (auto* header = __gura_header_for_payload(payload)) { ... }`
unfoldable pub modify_payload : Ptr → (ObjectHeader → ObjectHeader) → M (Unit {0})
unfolding header_for_payload modify_header
modify_payload payload f =
    if header_for_payload payload == nullptr
    then pure tt
    else modify_header (header_for_payload payload) f

-- `region == nullptr || region->state != …` throws.
unfoldable pub require_state : Ptr → (RegionState → Bool) → M (Unit {0}) → M (Unit {0})
unfolding region_at
require_state p test raise =
    if p == nullptr then raise else do r ← region_at p; if test r.state then pure tt else raise

-- Whether the region stack is not empty and its back is `p`.
unfoldable pub is_top : Ptr → List Ptr → Bool
is_top p [] = false
is_top p (t ∷ ts) = t == p

-- Pauses the top region if it is active.
unfoldable pub pause_top : M (Unit {0})
unfolding region_at modify_region
pause_top s = elim s.region_stack [
  | [] ↦ returned tt s
  | t ∷ ts ↦
      (do
        r ← region_at t
        if is_active r.state then modify_region t (λ r. record r { state = paused }) else pure tt)
        s
]

-- Makes the top region active if it is paused.
unfoldable pub resume_top : M (Unit {0})
unfolding region_at modify_region
resume_top s = elim s.region_stack [
  | [] ↦ returned tt s
  | t ∷ ts ↦
      (do
        r ← region_at t
        if is_paused r.state then modify_region t (λ r. record r { state = active }) else pure tt)
        s
]

-- `regionStack.push_back(region)`. The flag tells whether the vector gets the memory it needs.
unfoldable pub push_region : (grown : Bool) → Ptr → M (Unit {0})
push_region true p s = returned tt (record s { region_stack = p ∷ s.region_stack })
push_region false p s = thrown bad_alloc s

unfoldable pub pop_region : M (Unit {0})
pop_region s = elim s.region_stack [
  | [] ↦ undefined
  | t ∷ ts ↦ returned tt (record s { region_stack = ts })
]

unfoldable pub require_stack_top : Ptr → M (Unit {0}) → M (Unit {0})
unfolding is_top
require_stack_top p raise s = (if is_top p s.region_stack then pure tt else raise) s

-- The region as `__gura_region_new_iso` leaves it, with its id, its bridge and its allocations.
unfoldable pub fresh_region : ℕ → ℕ → RegionStrategy → Ptr → List Ptr → Region
fresh_region id bridge_size strategy bridge allocations = record {
  id = id;
  state = closed;
  strategy = strategy;
  bridge = bridge;
  bridge_type_id = 0;
  bridge_size = bridge_size;
  bridge_token = record { region_id = id; object = bridge; type_id = 0; state = external_iso };
  boundary = record { region_id = id; bridge_type_id = 0; bridge_size = bridge_size };
  allocations = allocations;
}

-- The region and its object in the store.
unfoldable pub place : Ptr → Region → Ptr → ObjectHeader → Runtime → Runtime
place new_region r allocation h s = record s {
  regions = update s.regions new_region (some r);
  headers = update s.headers allocation (some h);
}

-- `new_region` and `allocation` are what `new Region()`, null where it throws, and `std::calloc`
-- return. The flag tells whether the list of allocations gets the memory for its entry: where it
-- does not, the region and its object stay behind.
unfoldable pub new_iso : (new_region allocation : Ptr) (grown : Bool) → ℕ → RegionStrategy → M Ptr
unfolding fresh_region payload_for_header place
new_iso new_region allocation grown bridge_size strategy s =
    let id = s.next_region_id in
    let s₁ = record s { next_region_id = (id + 1) % 2 ^ 64 } in
    let fresh = fresh_region id bridge_size strategy (payload_for_header allocation) in
    let header : ObjectHeader = record { region_id = id; type_id = 0; frozen = false } in
    if new_region == nullptr
    then thrown bad_alloc s
    else if allocation == nullptr
    then thrown bad_alloc s₁
    else if grown
    then returned new_region (place new_region (fresh (allocation ∷ [])) allocation header s₁)
    else thrown bad_alloc (place new_region (fresh []) allocation header s₁)

unfoldable pub bridge : Ptr → M Ptr
unfolding region_at
bridge p = if p == nullptr then throw bridge_requires_region else do r ← region_at p; pure r.bridge

unfoldable pub with_bridge_type : TypeId → Region → Region
with_bridge_type t r = record r {
  bridge_type_id = t;
  bridge_token = record r.bridge_token { type_id = t };
  boundary = record r.boundary { bridge_type_id = t };
}

unfoldable pub set_bridge_type : Ptr → TypeId → M (Unit {0})
unfolding modify_region with_bridge_type region_at modify_payload
set_bridge_type p t = if p == nullptr then throw bridge_type_requires_region else do
  modify_region p (with_bridge_type t)
  r ← region_at p
  modify_payload r.bridge (λ h. record h { type_id = t })

-- `region->state = …; region->bridgeToken.state = …`
unfoldable pub opened : RegionState → BridgeState → Region → Region
opened st b r = record r { state = st; bridge_token = record r.bridge_token { state = b } }

unfoldable pub enter : (grown : Bool) → Ptr → M (Unit {0})
unfolding require_state pause_top push_region modify_region opened
enter grown p = do
  require_state p is_closed (throw cannot_enter_non_closed)
  pause_top
  push_region grown p
  modify_region p (opened active active_mut)

unfoldable pub explore : (grown : Bool) → Ptr → M (Unit {0})
unfolding require_state pause_top push_region modify_region opened
explore grown p = do
  require_state p is_closed (throw cannot_explore_non_closed)
  pause_top
  push_region grown p
  modify_region p (opened paused paused_read)

-- The bridge becomes `new_bridge`, whose header has the type `t`.
unfoldable pub with_bridge : Ptr → TypeId → Region → Region
with_bridge new_bridge t r = record r {
  bridge = new_bridge;
  bridge_type_id = t;
  boundary = record r.boundary { bridge_type_id = t };
}

-- The checks on the new bridge, and the assignments to the region.
unfoldable pub replace_bridge : Ptr → Ptr → M (Unit {0})
unfolding region_at header_for_payload header_at modify_region with_bridge
replace_bridge p new_bridge =
    if new_bridge == nullptr
    then pure tt
    else if header_for_payload new_bridge == nullptr
    then throw bridge_of_other_region
    else do
      h ← header_at (header_for_payload new_bridge)
      r ← region_at p
      require (h.region_id == r.id) bridge_of_other_region
      require (not h.frozen) bridge_frozen
      modify_region p (with_bridge new_bridge h.type_id)

-- `region->bridgeToken = BridgeToken{…, ExternalIso}; region->state = Closed`
unfoldable pub shut : Region → Region
shut r = record r {
  state = closed;
  bridge_token = record {
    region_id = r.id;
    object = r.bridge;
    type_id = r.bridge_type_id;
    state = external_iso;
  };
}

unfoldable pub exit : Ptr → Ptr → M (Unit {0})
unfolding require_state require_stack_top replace_bridge modify_region shut pop_region resume_top
exit p new_bridge = do
  require_state p is_active (throw cannot_exit_non_active)
  require_stack_top p (throw exit_not_on_top)
  replace_bridge p new_bridge
  modify_region p shut
  pop_region
  resume_top

unfoldable pub explore_exit : Ptr → M (Unit {0})
unfolding require_state require_stack_top modify_region shut pop_region resume_top
explore_exit p = do
  require_state p is_paused (throw cannot_exit_non_paused)
  require_stack_top p (throw explore_exit_not_on_top)
  modify_region p shut
  pop_region
  resume_top

-- `std::free` of each address.
unfoldable pub free_all : List Ptr → M (Unit {0})
unfolding header_at
free_all [] = pure tt
free_all (a ∷ rest) = do
  h ← header_at a
  λ s. returned tt (record s { headers = update s.headers a none })
  free_all rest

-- `delete region`
unfoldable pub delete_region : Ptr → M (Unit {0})
delete_region p s = returned tt (record s { regions = update s.regions p none })

unfoldable pub destroy : Ptr → M (Unit {0})
unfolding region_at free_all delete_region
destroy p =
    if p == nullptr then pure tt else do r ← region_at p; free_all r.allocations; delete_region p

unfoldable pub freeze : Ptr → M Ptr
unfolding require_state region_at modify_payload modify_region
freeze p = do
  require_state p is_closed (throw freeze_requires_closed)
  r ← region_at p
  modify_payload r.bridge (λ h. record h { frozen = true })
  modify_region p (λ r. record r { bridge_token = record r.bridge_token { state = frozen } })
  pure r.bridge

-- The flag tells whether the allocations of the target get the memory for those of the source.
unfoldable pub merge : (grown : Bool) (target source : Ptr) → M Ptr
unfolding require_state region_at modify_region modify_payload delete_region
merge grown target source = do
  require_state target is_active (throw merge_target_not_active)
  require_state source is_closed (throw merge_source_not_closed)
  from ← region_at source
  require grown bad_alloc
  modify_region target (λ t. record t { allocations = t.allocations ++ from.allocations })
  modify_region source (λ r. record r { allocations = [] })
  to ← region_at target
  modify_payload from.bridge (λ h. record h { region_id = to.id })
  modify_region target (λ t. record t { bridge_token = record t.bridge_token { state = merged } })
  delete_region source
  pure from.bridge
