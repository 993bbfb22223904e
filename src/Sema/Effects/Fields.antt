-- ===== src/Sema/Effects/Fields.antt =====
-- What the checks of fields, arrays and elements leave as it is: src/hir/Sema.cpp.
use gura.Prelude.{ℕ, Option, none, some, String}
use gura.Basic.{Span}
use gura.Ast.{Text, Node, Expr}
use gura.Hir.{HirType, Capability}
use gura.Hir
use gura.Sema.{M, FieldInfo, StructInfo}
use gura.Sema.Access.{
  struct_found, field_found, element_of, find_field, read_field, check_field_access, write_field,
  check_field_assign, check_element, check_index, write_element, check_index_assign,
  check_next_element, check_array_literal,
}
use gura.Sema.Keeps.{Good, Good-pure}
use gura.Sema.Keeps.Regions.{keeps_rules}
use gura.Sema.Effects.{check_escape-Good}

abbrev GoodField : (HirType → FieldInfo → M HirType) → Type 0
GoodField k = (t : HirType) (field : FieldInfo) → Good (k t field)

field_found-Good :
    (t : HirType) (n : Text) (span : Span) (k : HirType → FieldInfo → M HirType)
    (field : Option FieldInfo)
    → GoodField k
    → Good (field_found t n span k field)
field_found-Good t n span k none g = search (keeps_rules)
field_found-Good t n span k (some field) g = g t field

struct_found-Good :
    (t : HirType) (n : Text) (span : Span) (k : HirType → FieldInfo → M HirType)
    (info : Option StructInfo)
    → GoodField k
    → Good (struct_found t n span k info)
struct_found-Good t n span k none g = search (keeps_rules)
struct_found-Good t n span k (some info) g = field_found-Good t n span k _ g

find_field-Good :
    (t : HirType) (n : Text) (span : Span) (k : HirType → FieldInfo → M HirType)
    → GoodField k
    → Good (find_field t n span k)
unfolding find_field
find_field-Good t n span k g = search (keeps_rules, struct_found-Good)

read_field-Good :
    (span : Span) (n : Text) (t : HirType) (field : FieldInfo) → Good (read_field span n t field)
unfolding read_field
read_field-Good span n t field = search (keeps_rules)

pub check_field_access-Good :
    (node : Node) (object : Expr) (n : Text) (m : M HirType)
    → Good m
    → Good (check_field_access node object n m)
unfolding check_field_access
check_field_access-Good node object n m g =
    search (keeps_rules, find_field-Good, read_field-Good) depth 9

write_field-Good :
    (span : Span) (n : Text) (e : Expr) (v : HirType) (value_span : Span) (t : HirType)
    (field : FieldInfo)
    → Good (write_field span n e v value_span t field)
unfolding write_field
write_field-Good span n e v value_span t field = search (keeps_rules, check_escape-Good) depth 9

pub check_field_assign-Good :
    (node : Node) (object : Expr) (n : Text) (e : Expr) (v : HirType) (span : Span) (m : M HirType)
    → Good m
    → Good (check_field_assign node object n e v span m)
unfolding check_field_assign
check_field_assign-Good node object n e v span m g =
    search (keeps_rules, find_field-Good, write_field-Good) depth 9

abbrev GoodElement : (HirType → HirType → M HirType) → Type 0
GoodElement k = (t e : HirType) → Good (k t e)

element_of-Good :
    (span : Span) (message : String) (k : HirType → HirType → M HirType) (t : HirType)
    → GoodElement k
    → Good (element_of span message k t)
element_of-Good span message k (Hir.HirType.plain c n) g = search (keeps_rules)
element_of-Good span message k (Hir.HirType.array c n e l) g = g (Hir.HirType.array c n e l) e

check_element-Good :
    (node : Node) (object idx : Expr) (message : String) (a b : M HirType)
    (k : HirType → HirType → M HirType)
    → Good a
    → Good b
    → GoodElement k
    → Good (check_element node object idx message a b k)
unfolding check_element
check_element-Good node object idx message a b k ga gb gk =
    search (keeps_rules, element_of-Good) depth 9

pub check_index-Good :
    (node : Node) (object idx : Expr) (a b : M HirType)
    → Good a
    → Good b
    → Good (check_index node object idx a b)
unfolding check_index
check_index-Good node object idx a b ga gb =
    check_element-Good node object idx _ a b _ ga gb (λ t e. Good-pure e)

write_element-Good :
    (node : Node) (object : Expr) (v : HirType) (span : Span) (t e : HirType)
    → Good (write_element node object v span t e)
unfolding write_element
write_element-Good node object v span t e = search (keeps_rules)

pub check_index_assign-Good :
    (node : Node) (object idx : Expr) (v : HirType) (span : Span) (a b : M HirType)
    → Good a
    → Good b
    → Good (check_index_assign node object idx v span a b)
unfolding check_index_assign
check_index_assign-Good node object idx v span a b ga gb =
    check_element-Good node object idx _ a b _ ga gb (write_element-Good node object v span)

pub check_next_element-Good :
    (node : Node) (t : HirType) (e : Expr) (m : M HirType)
    → Good m
    → Good (check_next_element node t e m)
unfolding check_next_element
check_next_element-Good node t e m g = search (keeps_rules)

pub check_array_literal-Good :
    (node : Node) (e : Expr) (n : ℕ) (m : M HirType) (rest : HirType → M (Unit {0}))
    → Good m
    → ((t : HirType) → Good (rest t))
    → Good (check_array_literal node e n m rest)
unfolding check_array_literal
check_array_literal-Good node e n m rest g h = search (keeps_rules, h) depth 9
