-- ===== src/Hir/Paths.antt =====
-- src/hir/Sema.cpp: names, paths and strategies.
use gura.Prelude.{
  Bool, true, false, ◌||◌, ◌&&◌, Option, none, some, List, [], ◌∷◌, ◌++◌, if◌then◌else◌, String,
}
use gura.Basic.{codes, same_text}
use gura.Ast.{Text, Expr}
use gura.Ast.{name, field_access, move}

abbrev pub is_text : Text → String → Bool
is_text t s = same_text t (codes s)

abbrev pub is_empty : Text → Bool
is_empty [] = true
is_empty (c ∷ cs) = false

unfoldable pub is_region_strategy : Text → Bool
is_region_strategy t =
    is_text t "Arena" || (is_text t "RC" || (is_text t "GC" || is_text t "Manual"))

unfoldable pub is_core_builtin_name : Text → Bool
is_core_builtin_name t =
    is_text t "print"
    || (is_text t "println"
        || (is_text t "print_i64" || (is_text t "println_i64" || is_text t "readln_i64")))

unfoldable pub is_builtin_type_name : Text → Bool
is_builtin_type_name t =
    is_text t "unit"
    || (is_text t "bool"
        || (is_text t "none"
            || (is_text t "i32" || (is_text t "i64" || (is_text t "f32" || is_text t "f64")))))

-- `std.core.` and the name of a builtin function.
unfoldable pub qualified_core_builtin_name : Expr → Option Text
unfolding is_core_builtin_name
qualified_core_builtin_name (field_access n (field_access o (name p std) core) leaf) =
    if is_core_builtin_name leaf && (is_text core "core" && is_text std "std")
    then some leaf
    else none
qualified_core_builtin_name _ = none

unfoldable pub contains_string : List Text → Text → Bool
contains_string [] v = false
contains_string (x ∷ xs) v = same_text x v || contains_string xs v

-- The segments with dots between them.
unfoldable pub join_path : List Text → Text
join_path [] = []
join_path (x ∷ []) = x
join_path (x ∷ y ∷ ys) = x ++ (b'.' ∷ join_path (y ∷ ys))

unfoldable pub qualified_name : List Text → Text → Text
unfolding join_path
qualified_name module_path n = join_path (module_path ++ (n ∷ []))

abbrev append_segment : List Text → Text → List Text
append_segment [] f = []
append_segment (x ∷ xs) f = (x ∷ xs) ++ (f ∷ [])

-- A name and the fields behind it; no segments for any other expression.
unfoldable pub path_from_field_access : Expr → List Text
path_from_field_access (name n t) = t ∷ []
path_from_field_access (field_access n o f) = append_segment (path_from_field_access o) f
path_from_field_access _ = []

-- `dynamic_cast<const ast::NameExpr*>`
unfoldable pub as_name_expr : Expr → Option Text
as_name_expr (name n t) = some t
as_name_expr _ = none

-- `dynamic_cast<const ast::MoveExpr*>(…) != nullptr`
unfoldable pub is_move : Expr → Bool
is_move (move n e) = true
is_move _ = false
