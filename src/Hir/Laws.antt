-- ===== src/Hir/Laws.antt =====
-- Laws of the types of the semantic analysis: include/gura/hir and the tests of src/hir/Sema.cpp on types.
use gura.Prelude.{
  ℕ, ◌≡◌, refl, sym, ap, ◌∙◌, ◌⊎◌, inl, inr, Bool, true, false, Option, none, some, [], ◌∷◌,
  if◌then◌else◌, ◌==◌, arith, Bool-cases,
}
use gura.Basic.{same_text}
use gura.Ast.{Text}
use gura.Hir.{
  Capability, rank, same_capability, HirType, capability_of, is_region_local, is_writable_receiver,
  is_plain_value_type, with_capability, same_type, lengths_fit, adapt_for_suspended_scope,
  adapt_field_access,
}
use gura.Hir.Capability.{mut, tmp, iso, imm, paused, cown, no_capability}
use gura.Hir.HirType.{plain, array}

pub same_text_refl : (a : Text) → same_text a a ≡ true
same_text_refl [] = refl
same_text_refl (c ∷ a) = let h = same_text_refl a in ground arith

pub same_text_comm : (a b : Text) → same_text a b ≡ same_text b a
same_text_comm [] [] = refl
same_text_comm [] (c ∷ b) = refl
same_text_comm (c ∷ a) [] = refl
same_text_comm (c ∷ a) (d ∷ b) = let h = same_text_comm a b in ground arith

pub same_text-equal : (a b : Text) → same_text a b ≡ true → a ≡ b
same_text-equal [] [] h = refl
same_text-equal [] (y ∷ b) h = cc
same_text-equal (x ∷ a) [] h = cc
same_text-equal (x ∷ a) (y ∷ b) h =
    let e : x ≡ y = ground arith in
    let t : a ≡ b = same_text-equal a b (ground arith) in λ i. e i ∷ t i

abbrev from_rank : ℕ → Capability
from_rank n =
    if n == 0
    then mut
    else if n == 1
    then tmp
    else if n == 2
    then iso
    else if n == 3
    then imm
    else if n == 4
    then paused
    else if n == 5
    then cown
    else no_capability

from_rank-rank : (c : Capability) → from_rank (rank c) ≡ c
unfolding rank
from_rank-rank mut = refl
from_rank-rank tmp = refl
from_rank-rank iso = refl
from_rank-rank imm = refl
from_rank-rank paused = refl
from_rank-rank cown = refl
from_rank-rank no_capability = refl

pub same_capability-equal : (a b : Capability) → same_capability a b ≡ true → a ≡ b
unfolding same_capability
same_capability-equal a b h =
    let e : rank a ≡ rank b = ground arith in
    sym (from_rank-rank a) ∙ ap from_rank e ∙ from_rank-rank b

pub same_capability_refl : (a : Capability) → same_capability a a ≡ true
unfolding same_capability
same_capability_refl a = ground arith

pub same_capability_comm : (a b : Capability) → same_capability a b ≡ same_capability b a
unfolding same_capability
same_capability_comm a b = ground arith

lengths_fit_refl : (k : Option ℕ) → lengths_fit k k ≡ true
unfolding lengths_fit
lengths_fit_refl none = refl
lengths_fit_refl (some k) = ground arith

lengths_fit_comm : (k j : Option ℕ) → lengths_fit k j ≡ lengths_fit j k
unfolding lengths_fit
lengths_fit_comm none none = refl
lengths_fit_comm none (some j) = refl
lengths_fit_comm (some k) none = refl
lengths_fit_comm (some k) (some j) = ground arith

pub same_type_refl : (t : HirType) → same_type t t ≡ true
unfolding same_type
same_type_refl (plain c n) =
    let h = same_capability_refl c in let k = same_text_refl n in ground arith
same_type_refl (array c n e k) =
    let h = same_capability_refl c in
    let r = same_type_refl e in let l = lengths_fit_refl k in ground arith

pub same_type_comm : (t u : HirType) → same_type t u ≡ same_type u t
unfolding same_type
same_type_comm (plain c n) (plain d m) =
    let h = same_capability_comm c d in let k = same_text_comm n m in ground arith
same_type_comm (plain c n) (array d m f j) = ground arith
same_type_comm (array c n e k) (plain d m) = ground arith
same_type_comm (array c n e k) (array d m f j) =
    let h = same_capability_comm c d in
    let r = same_type_comm e f in let l = lengths_fit_comm k j in ground arith

pub adapt_for_suspended_scope-writable :
    (t : HirType) → is_writable_receiver (capability_of (adapt_for_suspended_scope t)) ≡ false
unfolding is_writable_receiver adapt_for_suspended_scope capability_of is_region_local
    with_capability
adapt_for_suspended_scope-writable (plain mut n) = refl
adapt_for_suspended_scope-writable (plain tmp n) = refl
adapt_for_suspended_scope-writable (plain iso n) = refl
adapt_for_suspended_scope-writable (plain imm n) = refl
adapt_for_suspended_scope-writable (plain paused n) = refl
adapt_for_suspended_scope-writable (plain cown n) = refl
adapt_for_suspended_scope-writable (plain no_capability n) = refl
adapt_for_suspended_scope-writable (array mut n e k) = refl
adapt_for_suspended_scope-writable (array tmp n e k) = refl
adapt_for_suspended_scope-writable (array iso n e k) = refl
adapt_for_suspended_scope-writable (array imm n e k) = refl
adapt_for_suspended_scope-writable (array paused n e k) = refl
adapt_for_suspended_scope-writable (array cown n e k) = refl
adapt_for_suspended_scope-writable (array no_capability n e k) = refl

read_only : (c : Capability) → is_region_local c ≡ false → is_writable_receiver c ≡ false
unfolding is_region_local is_writable_receiver
read_only mut h = cc
read_only tmp h = cc
read_only iso h = refl
read_only imm h = refl
read_only paused h = refl
read_only cown h = refl
read_only no_capability h = refl

capability_of-with_capability :
    (c : Capability) (t : HirType) → capability_of (with_capability c t) ≡ c
unfolding capability_of with_capability
capability_of-with_capability c (plain d n) = refl
capability_of-with_capability c (array d n e k) = refl

plain_value-capability :
    (t : HirType) → is_plain_value_type t ≡ true → capability_of t ≡ no_capability
unfolding is_plain_value_type
plain_value-capability t h = same_capability-equal (capability_of t) no_capability (ground arith)

-- A receiver that nothing is written through.
abbrev pub IsView : HirType → Type 0
IsView t = (capability_of t ≡ paused) ⊎ (capability_of t ≡ imm)

through-paused :
    (f : HirType)
    → is_writable_receiver
        (capability_of (if is_region_local (capability_of f) then with_capability paused f else f))
      ≡ false
unfolding is_writable_receiver
through-paused f = elim (Bool-cases (is_region_local (capability_of f))) [
  | inl y ↦ rw y (ap is_writable_receiver (capability_of-with_capability paused f))
  | inr k ↦ rw k (read_only (capability_of f) k)
]

-- The type of a field, read through a paused or immutable receiver, is neither mut nor tmp.
pub adapt_field_access-writable :
    (receiver field : HirType)
    → IsView receiver
    → is_writable_receiver (capability_of (adapt_field_access receiver field)) ≡ false
unfolding adapt_field_access is_writable_receiver
adapt_field_access-writable r f v = elim (Bool-cases (is_plain_value_type f)) [
  | inl y ↦ rw y (ap is_writable_receiver (plain_value-capability f y))
  | inr k ↦ elim v [
    | inl p ↦ rw k (rw p (through-paused f))
    | inr p ↦ rw k (rw p (ap is_writable_receiver (capability_of-with_capability imm f)))
  ]
]

-- Through a field whose type has no capability and is no array, any field has the type it was
-- declared with, whatever the receiver of the first is.
pub adapt_field_access-plain :
    (receiver middle field : HirType)
    → is_plain_value_type middle ≡ true
    → adapt_field_access (adapt_field_access receiver middle) field ≡ field
unfolding adapt_field_access
adapt_field_access-plain r m f h =
    rw h (rw (plain_value-capability m h) (either (is_plain_value_type f) f))
  where
    either : (b : Bool) (t : HirType) → (if b then t else t) ≡ t
    either true t = refl
    either false t = refl
