-- ===== src/Runtime.antt =====
-- runtime/include/gura/runtime/ObjectHeader.h, Region.h: the objects of the region runtime, and
-- the store that its functions read and write.
pub mod Ops
pub mod Window
pub mod Refine
pub mod Calls
pub mod Failures
pub mod Safety
pub mod Bridge
pub mod Closing
pub mod Nesting
mod Tests
use gura.Prelude.{
  ℕ, ◌+◌, ◌-◌, Bool, true, false, Option, none, some, List, [], ◌∷◌, ◌==◌, if◌then◌else◌,
}

abbrev pub Ptr : Type 0
Ptr = ℕ

abbrev pub nullptr : Ptr
nullptr = 0

abbrev pub RegionId : Type 0
RegionId = ℕ

abbrev pub TypeId : Type 0
TypeId = ℕ

-- The one flag bit: `frozen` is `ObjectFlagFrozen`. `reserved` is never read or written.
pub record ObjectHeader : Type 0 where
  pub region_id : RegionId
  pub type_id : TypeId
  pub frozen : Bool

pub data RegionState : Type 0 where
  active paused closed : RegionState

pub data RegionStrategy : Type 0 where
  arena rc gc manual : RegionStrategy

pub data BridgeState : Type 0 where
  external_iso active_mut paused_read frozen merged : BridgeState

pub record BridgeToken : Type 0 where
  pub region_id : RegionId
  pub object : Ptr
  pub type_id : TypeId
  pub state : BridgeState

pub record BoundaryMetadata : Type 0 where
  pub region_id : RegionId
  pub bridge_type_id : TypeId
  pub bridge_size : ℕ

pub record Region : Type 0 where
  pub id : RegionId
  pub state : RegionState
  pub strategy : RegionStrategy
  pub bridge : Ptr
  pub bridge_type_id : TypeId
  pub bridge_size : ℕ
  pub bridge_token : BridgeToken
  pub boundary : BoundaryMetadata
  pub allocations : List Ptr

-- One thread's view of the runtime: the id counter, the `regionStack` of the thread with its back
-- at the head of the list, the live `Region` objects and the live object headers, by address.
pub record Runtime : Type 0 where
  pub next_region_id : ℕ
  pub region_stack : List Ptr
  pub regions : Ptr → Option Region
  pub headers : Ptr → Option ObjectHeader

-- The `std::runtime_error`s by their messages, and `std::bad_alloc`.
pub data Error : Type 0 where
  bad_alloc : Error
  bridge_requires_region bridge_type_requires_region : Error
  cannot_enter_non_closed cannot_exit_non_active exit_not_on_top : Error
  bridge_of_other_region bridge_frozen : Error
  cannot_explore_non_closed cannot_exit_non_paused explore_exit_not_on_top : Error
  freeze_requires_closed merge_target_not_active merge_source_not_closed : Error

-- A call returns, throws, or (`undefined`) reads or writes an object that does not exist.
pub data Outcome {ℓ} (A : Type ℓ) : Type ℓ where
  returned : A → Runtime → Outcome A
  thrown : Error → Runtime → Outcome A
  undefined : Outcome A

abbrev pub M {ℓ} : Type ℓ → Type ℓ
M A = Runtime → Outcome A

abbrev pub and_then {ℓ κ} : {A : Type ℓ} {B : Type κ} → Outcome A → (A → M B) → Outcome B
and_then (returned a s) k = k a s
and_then (thrown e s) k = thrown e s
and_then undefined k = undefined

infixl 5 ◌>>=◌ ◌>>◌
abbrev pub ◌>>=◌ {ℓ κ} : {A : Type ℓ} {B : Type κ} → M A → (A → M B) → M B
m >>= k = λ s. and_then (m s) k

abbrev pub ◌>>◌ {κ} : {B : Type κ} → M (Unit {0}) → M B → M B
m >> n = m >>= λ _. n

abbrev pub pure {ℓ} : {A : Type ℓ} → A → M A
pure a s = returned a s

abbrev pub throw {ℓ} : {A : Type ℓ} → Error → M A
throw e s = thrown e s

-- Throws unless the test holds.
abbrev pub require : Bool → Error → M (Unit {0})
require true e = pure tt
require false e = throw e

abbrev pub update {ℓ} : {A : Type ℓ} → (Ptr → A) → Ptr → A → Ptr → A
update f p v q = if p == q then v else f q

abbrev pub is_active : RegionState → Bool
is_active active = true
is_active _ = false

abbrev pub is_paused : RegionState → Bool
is_paused paused = true
is_paused _ = false

abbrev pub is_closed : RegionState → Bool
is_closed closed = true
is_closed _ = false
