-- ===== src/Hir.antt =====
-- include/gura/hir/Capability.h and Type.h, and the functions on types at the head of
-- src/hir/Sema.cpp.
pub mod Paths
pub mod Laws
mod Tests
use gura.Prelude.{
  ℕ, Bool, true, false, not, ◌&&◌, ◌||◌, Option, none, some, ◌==◌, if◌then◌else◌, String,
}
use gura.Basic.{codes, same_text}
use gura.Ast.{Text}

pub data Capability : Type 0 where
  mut tmp iso imm paused cown no_capability : Capability

-- The place in the enumeration, for `==`.
unfoldable pub rank : Capability → ℕ
rank mut = 0
rank tmp = 1
rank iso = 2
rank imm = 3
rank paused = 4
rank cown = 5
rank no_capability = 6

unfoldable pub same_capability : Capability → Capability → Bool
unfolding rank
same_capability a b = rank a == rank b

-- `isCopyable`
unfoldable pub is_copyable : Capability → Bool
is_copyable imm = true
is_copyable cown = true
is_copyable no_capability = true
is_copyable _ = false

-- `isSendSafe`
unfoldable pub is_send_safe : Capability → Bool
is_send_safe iso = true
is_send_safe imm = true
is_send_safe cown = true
is_send_safe no_capability = true
is_send_safe _ = false

-- `Type`: `isArray` is set exactly where there is an element type, which the code always sets with it.
pub data HirType : Type 0 where
  plain : Capability → Text → HirType
  array : Capability → Text → (element : HirType) → (length : Option ℕ) → HirType

unfoldable pub capability_of : HirType → Capability
capability_of (plain c n) = c
capability_of (array c n e k) = c

unfoldable pub name_of : HirType → Text
name_of (plain c n) = n
name_of (array c n e k) = n

unfoldable pub is_array : HirType → Bool
is_array (plain c n) = false
is_array (array c n e k) = true

-- `type.capability = …`
unfoldable pub with_capability : Capability → HirType → HirType
with_capability d (plain c n) = plain d n
with_capability d (array c n e k) = array d n e k

-- `type.name = …`
unfoldable pub with_name : Text → HirType → HirType
with_name m (plain c n) = plain c m
with_name m (array c n e k) = array c m e k

abbrev pub named : String → HirType
named n = plain no_capability (codes n)

unfoldable pub invalid_type : HirType
invalid_type = named "<invalid>"

unfoldable pub unit_type : HirType
unit_type = named "unit"

unfoldable pub bool_type : HirType
bool_type = named "bool"

unfoldable pub none_type : HirType
none_type = named "none"

unfoldable pub cstring_type : HirType
cstring_type = named "cstring"

unfoldable pub numeric_type : Text → HirType
numeric_type n = plain no_capability n

unfoldable pub array_type : Capability → HirType → Option ℕ → HirType
array_type c e k = array c (codes "array") e k

abbrev is_named : String → HirType → Bool
is_named n t = same_text (name_of t) (codes n)

abbrev has_none : HirType → Bool
has_none t = same_capability (capability_of t) no_capability

unfoldable pub is_invalid : HirType → Bool
unfolding name_of
is_invalid t = same_text (name_of t) (codes "<invalid>")

unfoldable pub is_plain_i64 : HirType → Bool
unfolding is_array capability_of name_of same_capability
is_plain_i64 t = not (is_array t) && (has_none t && is_named "i64" t)

unfoldable pub is_integer_type : HirType → Bool
unfolding capability_of name_of same_capability
is_integer_type t = has_none t && (is_named "i32" t || is_named "i64" t)

unfoldable pub is_float_type : HirType → Bool
unfolding capability_of name_of same_capability
is_float_type t = has_none t && (is_named "f32" t || is_named "f64" t)

unfoldable pub is_numeric_type : HirType → Bool
unfolding is_integer_type is_float_type
is_numeric_type t = is_integer_type t || is_float_type t

-- The condition that `checkIf` and `checkWhile` ask for.
unfoldable pub is_bool : HirType → Bool
unfolding capability_of name_of same_capability
is_bool t = has_none t && is_named "bool" t

unfoldable pub is_plain_value_type : HirType → Bool
unfolding is_array capability_of same_capability
is_plain_value_type t = has_none t && not (is_array t)

unfoldable pub is_writable_receiver : Capability → Bool
is_writable_receiver mut = true
is_writable_receiver tmp = true
is_writable_receiver _ = false

unfoldable pub is_region_local : Capability → Bool
is_region_local mut = true
is_region_local tmp = true
is_region_local paused = true
is_region_local _ = false

unfoldable pub same_nominal_type : HirType → HirType → Bool
unfolding is_invalid
same_nominal_type (plain c n) (plain d m) =
    (is_invalid (plain c n) || is_invalid (plain d m)) || same_text n m
same_nominal_type (plain c n) (array d m f j) = is_invalid (plain c n) || is_invalid (array d m f j)
same_nominal_type (array c n e k) (plain d m) = is_invalid (array c n e k) || is_invalid (plain d m)
same_nominal_type (array c n e k) (array d m f j) =
    (is_invalid (array c n e k) || is_invalid (array d m f j)) || same_nominal_type e f

-- `!lhs.has_value() || !rhs.has_value() || lhs == rhs`
unfoldable pub lengths_fit : Option ℕ → Option ℕ → Bool
lengths_fit none j = true
lengths_fit (some k) none = true
lengths_fit (some k) (some j) = k == j

unfoldable pub same_type : HirType → HirType → Bool
unfolding is_invalid same_capability lengths_fit
same_type (plain c n) (plain d m) =
    (is_invalid (plain c n) || is_invalid (plain d m)) || (same_capability c d && same_text n m)
same_type (plain c n) (array d m f j) = is_invalid (plain c n) || is_invalid (array d m f j)
same_type (array c n e k) (plain d m) = is_invalid (array c n e k) || is_invalid (plain d m)
same_type (array c n e k) (array d m f j) =
    (is_invalid (array c n e k) || is_invalid (array d m f j))
    || (same_capability c d && (same_type e f && lengths_fit k j))

-- What a binding outside of a region block is while the block is checked.
unfoldable pub adapt_for_suspended_scope : HirType → HirType
unfolding is_region_local with_capability capability_of
adapt_for_suspended_scope t =
    if is_region_local (capability_of t) then with_capability paused t else t

-- The type of a field, seen through a receiver.
abbrev adapt_through : Capability → HirType → HirType
adapt_through mut f = f
adapt_through tmp f = f
adapt_through paused f = if is_region_local (capability_of f) then with_capability paused f else f
adapt_through imm f = with_capability imm f
adapt_through iso f = invalid_type
adapt_through cown f = f
adapt_through no_capability f = f

unfoldable pub adapt_field_access : (receiver field : HirType) → HirType
unfolding is_plain_value_type is_region_local with_capability capability_of invalid_type
adapt_field_access receiver field =
    if is_plain_value_type field then field else adapt_through (capability_of receiver) field
