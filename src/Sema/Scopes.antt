-- ===== src/Sema/Scopes.antt =====
-- src/hir/Sema.cpp: the scopes of bindings, and the suspension of those outside of a region block.
use gura.Prelude.{
  ℕ, ◌+◌, ◌-◌, Bool, true, false, Option, none, some, List, [], ◌∷◌, ◌++◌, ◌==◌, if◌then◌else◌,
  length,
}
use gura.Basic.{same_text}
use gura.Ast.{Text, RegionKind}
use gura.Hir.{HirType, adapt_for_suspended_scope, capability_of, same_capability}
use gura.Sema.{
  Sema, Scope, Binding, BindingView, BindingAvailability, suspended, available, open_borrowed, M,
  ◌>>=◌, ◌>>◌, pure, modify, gets, find, has_key, emplace, report, text,
}

-- What a `BindingState*` points at: the entry of this name in the scope that has this many below.
pub record Slot : Type 0 where
  pub scope : ℕ
  pub name : Text

unfoldable pub push_scope : M (Unit {0})
unfolding modify
push_scope = modify (λ s. record s { scopes = [] ∷ s.scopes })

abbrev pub tail_of : List Scope → List Scope
tail_of [] = []
tail_of (x ∷ xs) = xs

unfoldable pub pop_scope : M (Unit {0})
unfolding modify
pop_scope = modify (λ s. record s { scopes = tail_of s.scopes })

-- `if (scopes_.empty()) pushScope();`
abbrev pub some_scope : List Scope → List Scope
some_scope [] = [] ∷ []
some_scope (x ∷ xs) = x ∷ xs

abbrev pub top_scope : List Scope → Scope
top_scope [] = []
top_scope (x ∷ xs) = x

-- Sets the innermost scope.
abbrev pub set_top : Scope → List Scope → List Scope
set_top x [] = x ∷ []
set_top x (y ∷ ys) = x ∷ ys

unfoldable pub declare : Text → Binding → M (Unit {0})
unfolding modify gets report emplace has_key
declare name state = do
  modify (λ s. record s { scopes = some_scope s.scopes })
  scope ← gets (λ s. top_scope s.scopes)
  if has_key name scope
      then report state.span "binding '{}' is already defined in this scope" (text name ∷ [])
      else modify (λ s. record s { scopes = set_top (emplace name state scope) s.scopes })

abbrev or_outer : Slot → Option Binding → Option (Slot × Binding) → Option (Slot × Binding)
or_outer p none outer = outer
or_outer p (some b) outer = some (p, b)

unfoldable pub lookup_in : Text → List Scope → Option (Slot × Binding)
unfolding find
lookup_in name [] = none
lookup_in name (x ∷ xs) =
    or_outer (record { scope = length xs; name = name }) (find name x) (lookup_in name xs)

unfoldable pub lookup : Text → M (Option (Slot × Binding))
unfolding lookup_in gets
lookup name = gets (λ s. lookup_in name s.scopes)

unfoldable pub modify_entry : Text → (Binding → Binding) → Scope → Scope
modify_entry name f [] = []
modify_entry name f ((n, b) ∷ x) =
    if same_text n name then (n, f b) ∷ x else (n, b) ∷ modify_entry name f x

-- An assignment through a pointer; there is nothing to assign where the entry is gone.
unfoldable pub modify_slot : Slot → (Binding → Binding) → List Scope → List Scope
unfolding modify_entry
modify_slot p f [] = []
modify_slot p f (x ∷ xs) =
    if p.scope == length xs then modify_entry p.name f x ∷ xs else x ∷ modify_slot p f xs

unfoldable pub set_slot : Slot → (Binding → Binding) → M (Unit {0})
unfolding modify modify_slot
set_slot p f = modify (λ s. record s { scopes = modify_slot p f s.scopes })

abbrev pub set_availability : BindingAvailability → Binding → Binding
set_availability a b = record b { availability = a }

pub record SuspendedBinding : Type 0 where
  pub slot : Slot
  pub type : HirType
  pub view : BindingView

-- Whether `adaptForSuspendedScope` leaves the capability.
unfoldable pub stays : Binding → Bool
unfolding adapt_for_suspended_scope same_capability capability_of
stays b = same_capability (capability_of (adapt_for_suspended_scope b.type)) (capability_of b.type)

abbrev pub suspend_binding : Binding → Binding
suspend_binding b = record b { type = adapt_for_suspended_scope b.type; view = suspended }

abbrev pub suspended_at : ℕ → Text → Binding → SuspendedBinding
suspended_at i n b = record { slot = record { scope = i; name = n }; type = b.type; view = b.view }

-- The entries of the scope with `i` scopes below it: what is suspended, and the scope with that done.
unfoldable pub suspend_scope : ℕ → Scope → List SuspendedBinding × Scope
unfolding stays adapt_for_suspended_scope
suspend_scope i [] = ([], [])
suspend_scope i ((n, b) ∷ x) =
    let rest = suspend_scope i x in
    if stays b
    then (rest.0, (n, b) ∷ rest.1)
    else (suspended_at i n b ∷ rest.0, (n, suspend_binding b) ∷ rest.1)

-- From the outermost scope on.
unfoldable pub suspend_scopes : List Scope → List SuspendedBinding × List Scope
unfolding suspend_scope
suspend_scopes [] = ([], [])
suspend_scopes (x ∷ xs) =
    let outer = suspend_scopes xs in
    let here = suspend_scope (length xs) x in (outer.0 ++ here.0, here.1 ∷ outer.1)

abbrev pub suspend_below : List Scope → List SuspendedBinding × List Scope
suspend_below [] = ([], [])
suspend_below (x ∷ xs) = ((suspend_scopes xs).0, x ∷ (suspend_scopes xs).1)

-- `suspendOuterRegionBindings`: all scopes but the innermost.
unfoldable pub suspend_outer : M (List SuspendedBinding)
unfolding suspend_scopes
suspend_outer s = ((suspend_below s.scopes).0, record s { scopes = (suspend_below s.scopes).1 })

abbrev pub restore_binding : SuspendedBinding → Binding → Binding
restore_binding e b = record b { type = e.type; view = e.view }

-- From the last suspended binding to the first.
unfoldable pub restore_scopes : List SuspendedBinding → List Scope → List Scope
unfolding modify_slot
restore_scopes [] xs = xs
restore_scopes (e ∷ es) xs = modify_slot e.slot (restore_binding e) (restore_scopes es xs)

-- `restoreSuspendedBindings`
unfoldable pub restore_suspended : List SuspendedBinding → M (Unit {0})
unfolding restore_scopes modify
restore_suspended es = modify (λ s. record s { scopes = restore_scopes es s.scopes })

-- `openBorrowRegionSource`: the availability before is returned.
abbrev pub borrow : BindingAvailability → BindingAvailability
borrow available = open_borrowed
borrow a = a

unfoldable pub open_borrow : Option (Slot × Binding) → M BindingAvailability
unfolding set_slot
open_borrow none = pure available
open_borrow (some (p, b)) = do
  set_slot p (set_availability (borrow b.availability))
  pure b.availability

-- `restoreRegionSource`
unfoldable pub restore_source : Option (Slot × Binding) → BindingAvailability → M (Unit {0})
unfolding set_slot
restore_source none a = pure tt
restore_source (some (p, b)) a = set_slot p (set_availability a)

-- What is checked between the two calls.
unfoldable pub borrowed {ℓ} : {A : Type ℓ} → Option (Slot × Binding) → M A → M A
unfolding open_borrow restore_source
borrowed source m = do
  previous ← open_borrow source
  result ← m
  restore_source source previous
  pure result

unfoldable pub in_scope {ℓ} : {A : Type ℓ} → M A → M A
unfolding push_scope pop_scope
in_scope m = do push_scope; result ← m; pop_scope; pure result

unfoldable pub suspending {ℓ} : {A : Type ℓ} → M A → M A
unfolding suspend_outer restore_suspended
suspending m = do es ← suspend_outer; result ← m; restore_suspended es; pure result

abbrev pub is_enter : RegionKind → Bool
is_enter RegionKind.enter = true
is_enter RegionKind.explore = false

abbrev pub deepen : RegionKind → Sema → Sema
deepen kind s = record s {
  region_depth = s.region_depth + 1;
  mutable_region_depth =
      if is_enter kind then s.mutable_region_depth + 1 else s.mutable_region_depth;
}

abbrev pub surface : RegionKind → Sema → Sema
surface kind s = record s {
  region_depth = s.region_depth - 1;
  mutable_region_depth =
      if is_enter kind then s.mutable_region_depth - 1 else s.mutable_region_depth;
}

-- `++regionDepth_; …; --regionDepth_;`, and `mutableRegionDepth_` for `enter`.
unfoldable pub deeper {ℓ} : {A : Type ℓ} → RegionKind → M A → M A
unfolding modify
deeper kind m = do modify (deepen kind); result ← m; modify (surface kind); pure result
