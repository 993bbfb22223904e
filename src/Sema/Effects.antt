-- ===== src/Sema/Effects.antt =====
-- What the checks of single constructs leave as it is: types, names, bindings, assignments, fields and
-- elements.
pub mod Fields
use gura.Prelude.{ℕ, Bool, Option, none, some, List, refl, String}
use gura.Basic.{Span}
use gura.Ast.{Text, Node, Expr, TypeRef, array, plain}
use gura.Hir.{HirType, Capability}
use gura.Hir
use gura.Sema.{
  M, ValueContext, Binding, BindingAvailability, available, moved, open_borrowed, EscapeTarget,
  FieldInfo, StructInfo,
}
use gura.Sema.Scopes.{Slot, set_slot}
use gura.Sema.Types.{type_from_ast, type_or, check_escape}
use gura.Sema.Rules.{
  check_name, check_move, use_found, use_binding, move_binding, move_found, move_name,
}
use gura.Sema.Init.{
  check_iso_capability, check_iso_initializer_arg, check_strategy, check_field_value, init_found,
  new_found, check_init, check_missing, check_new,
}
use gura.Sema.Access.{
  check_binding, assign_bridge, assign_binding, assign_found, check_name_assign, struct_found,
  field_found, element_of, find_field, read_field, check_field_access, write_field,
  check_field_assign, check_element, check_index, write_element, check_index_assign,
  check_next_element, check_array_literal, make_available, reassign_bridge,
}
use gura.Sema.Keeps.{Good, Good-pure, Good-bind}
use gura.Sema.Keeps.Slots.{Good-set_slot}
use gura.Sema.Keeps.Regions.{keeps_rules}

pub type_from_ast-Good : (t : TypeRef) → Good (type_from_ast t)
unfolding type_from_ast
type_from_ast-Good (array i e) =
    Good-bind (type_from_ast e) _ (type_from_ast-Good e) λ t. search (keeps_rules)
type_from_ast-Good (plain i) = search (keeps_rules)

pub type_or-Good : (d : HirType) (t : Option TypeRef) → Good (type_or d t)
unfolding type_or
type_or-Good d none = search (keeps_rules)
type_or-Good d (some t) = type_from_ast-Good t

pub check_escape-Good :
    (t : HirType) (target : EscapeTarget) (depth : ℕ) (span : Span)
    → Good (check_escape t target depth span)
unfolding check_escape
check_escape-Good t target depth span = search (keeps_rules)

use_binding-Good :
    (n : Text) (span : Span) (c : ValueContext) (b : Binding) (a : BindingAvailability)
    → Good (use_binding n span c b a)
use_binding-Good n span c b moved = search (keeps_rules)
use_binding-Good n span c b open_borrowed = search (keeps_rules)
use_binding-Good n span c b available = search (keeps_rules)

use_found-Good :
    (n : Text) (span : Span) (c : ValueContext) (found : Option (Slot × Binding))
    → Good (use_found n span c found)
use_found-Good n span c none = search (keeps_rules)
use_found-Good n span c (some (p, b)) = use_binding-Good n span c b b.availability

pub check_name-Good : (node : Node) (n : Text) (c : ValueContext) → Good (check_name node n c)
unfolding check_name
check_name-Good node n c = search (keeps_rules, use_found-Good)

move_binding-Good :
    (n : Text) (span : Span) (p : Slot) (b : Binding) (a : BindingAvailability)
    → Good (move_binding n span p b a)
move_binding-Good n span p b moved = search (keeps_rules)
move_binding-Good n span p b open_borrowed = search (keeps_rules)
move_binding-Good n span p b available = search (keeps_rules)

move_found-Good :
    (n : Text) (span : Span) (found : Option (Slot × Binding)) → Good (move_found n span found)
move_found-Good n span none = search (keeps_rules)
move_found-Good n span (some (p, b)) = move_binding-Good n span p b b.availability

move_name-Good : (n : Option Text) (span name_span : Span) → Good (move_name n span name_span)
move_name-Good none span name_span = search (keeps_rules)
move_name-Good (some n) span name_span = search (keeps_rules, move_found-Good)

pub check_move-Good : (node : Node) (value : Expr) → Good (check_move node value)
unfolding check_move
check_move-Good node value = search (move_name-Good)

check_iso_capability-Good :
    (c : Capability) (e : Expr) (span : Span) → Good (check_iso_capability c e span)
unfolding check_iso_capability
check_iso_capability-Good Capability.no_capability e span = search (keeps_rules)
check_iso_capability-Good Capability.imm e span = search (keeps_rules)
check_iso_capability-Good Capability.iso e span = search (keeps_rules)
check_iso_capability-Good Capability.mut e span = search (keeps_rules)
check_iso_capability-Good Capability.tmp e span = search (keeps_rules)
check_iso_capability-Good Capability.paused e span = search (keeps_rules)
check_iso_capability-Good Capability.cown e span = search (keeps_rules)

check_iso_initializer_arg-Good :
    (e : Expr) (value field : HirType) (span : Span)
    → Good (check_iso_initializer_arg e value field span)
unfolding check_iso_initializer_arg
check_iso_initializer_arg-Good e value field span = search (keeps_rules, check_iso_capability-Good)

check_strategy-Good :
    (span : Span) (strategy : Text) (t : HirType) → Good (check_strategy span strategy t)
unfolding check_strategy
check_strategy-Good span strategy t = search (keeps_rules)

check_field_value-Good :
    (t : HirType) (field : FieldInfo) (node : Node) (e : Expr) (m : M HirType)
    → Good m
    → Good (check_field_value t field node e m)
unfolding check_field_value
check_field_value-Good t field node e m g = search (keeps_rules, check_iso_initializer_arg-Good)

init_found-Good :
    (t : HirType) (node : Node) (n : Text) (e : Expr) (m : M HirType) (field : Option FieldInfo)
    → Good m
    → Good (init_found t node n e m field)
init_found-Good t node n e m none g = search (keeps_rules)
init_found-Good t node n e m (some field) g = check_field_value-Good t field node e m g

pub check_init-Good :
    (t : HirType) (info : StructInfo) (done : List Text) (node : Node) (n : Text) (e : Expr)
    (m : M HirType)
    → Good m
    → Good (check_init t info done node n e m)
unfolding check_init
check_init-Good t info done node n e m g = search (keeps_rules, init_found-Good)

check_missing-Good :
    (span : Span) (done : List Text) (f : Text × FieldInfo) → Good (check_missing span done f)
unfolding check_missing
check_missing-Good span done (n, field) = search (keeps_rules)

abbrev GoodInits : (HirType → StructInfo → M (List Text)) → Type 0
GoodInits inits = (t : HirType) (info : StructInfo) → Good (inits t info)

new_found-Good :
    (node : Node) (type : TypeRef) (t : HirType) (inits : HirType → StructInfo → M (List Text))
    (info : Option StructInfo)
    → GoodInits inits
    → Good (new_found node type t inits info)
new_found-Good node type t inits none g = search (keeps_rules)
new_found-Good node type t inits (some info) g = search (keeps_rules, check_missing-Good, g)

pub check_new-Good :
    (node : Node) (type : TypeRef) (strategy : Text) (no_fields : Bool)
    (inits : HirType → StructInfo → M (List Text))
    → ((t : HirType) (info : StructInfo) → Good (inits t info))
    → Good (check_new node type strategy no_fields inits)
unfolding check_new
check_new-Good node type strategy no_fields inits g =
    search (keeps_rules, type_from_ast-Good, check_strategy-Good, new_found-Good, g) depth 9

pub check_binding-Good :
    (node : Node) (v : Bool) (n : Text) (type : Option TypeRef) (e : Expr) (m : M HirType)
    → Good m
    → Good (check_binding node v n type e m)
unfolding check_binding
check_binding-Good node v n type e m g =
    search (keeps_rules, type_or-Good, check_escape-Good) depth 9

make_available-Good : (p : Slot) → Good (set_slot p make_available)
make_available-Good p = Good-set_slot p make_available (λ b. refl)

reassign_bridge-Good : (p : Slot) → Good (set_slot p reassign_bridge)
reassign_bridge-Good p = Good-set_slot p reassign_bridge (λ b. refl)

assign_bridge-Good :
    (node : Node) (n : Text) (span : Span) (v : HirType) (p : Slot) (b : Binding)
    → Good (assign_bridge node n span v p b)
unfolding assign_bridge
assign_bridge-Good node n span v p b = search (keeps_rules, reassign_bridge-Good) depth 9

assign_binding-Good :
    (node : Node) (n : Text) (span : Span) (v : HirType) (p : Slot) (b : Binding)
    → Good (assign_binding node n span v p b)
unfolding assign_binding
assign_binding-Good node n span v p b =
    search (keeps_rules, make_available-Good, check_escape-Good) depth 9

assign_found-Good :
    (node : Node) (n : Text) (name_span span : Span) (v : HirType) (found : Option (Slot × Binding))
    → Good (assign_found node n name_span span v found)
assign_found-Good node n name_span span v none = search (keeps_rules)
assign_found-Good node n name_span span v (some (p, b)) =
    search (keeps_rules, assign_bridge-Good, assign_binding-Good)

pub check_name_assign-Good :
    (node : Node) (n : Text) (name_span span : Span) (v : HirType)
    → Good (check_name_assign node n name_span span v)
unfolding check_name_assign
check_name_assign-Good node n name_span span v = search (keeps_rules, assign_found-Good)
