-- ===== src/Sema/Calls.antt =====
-- src/hir/Sema.cpp: calls of functions and methods. `arguments` checks the arguments against the
-- types of the parameters, and says whether they match; against no parameters it only checks them.
use gura.Prelude.{
  ℕ, Bool, true, false, not, ◌&&◌, Option, none, some, List, [], ◌∷◌, ◌==◌, if◌then◌else◌, length,
  leb,
}
use gura.Basic.{Span}
use gura.Ast.{Text, Node, Expr, expr_node}
use gura.Ast.{name, field_access}
use gura.Hir.{
  HirType, Capability, capability_of, name_of, is_array, is_invalid, is_bool, is_plain_i64,
  is_integer_type, is_numeric_type, is_region_local, is_writable_receiver, same_type,
  same_nominal_type, same_capability, adapt_field_access, invalid_type, unit_type, bool_type,
  none_type, cstring_type, numeric_type, array_type,
}
use gura.Hir
use gura.Hir.Paths.{qualified_core_builtin_name, path_from_field_access, join_path, as_name_expr}
use gura.Sema.{
  Binding, StructInfo, FunctionSignature, MethodInfo, TraitInfo, GenericParamInfo, M, ◌>>=◌, ◌>>◌,
  pure, lookup_table, report, report_if, fail_with, find, has_key, unless_null, span_or, text,
  number, type_named,
}
use gura.Sema.Scopes.{Slot, lookup}
use gura.Sema.Names.{resolve_function_name}
use gura.Sema.Types.{same_method_signature}

abbrev pub Arguments : Type 0
Arguments = List HirType → M Bool

-- An argument with its place, against the type of its parameter.
unfoldable pub check_argument : ℕ → HirType → Expr → M HirType → M Bool
unfolding fail_with same_type
check_argument i expected e check = unless_null e true (do
  actual ← check
  if not (same_type expected actual)
      then fail_with false (expr_node e).span
          "argument {} type '{}' does not match expected type '{}'"
          (number i ∷ type_named actual ∷ type_named expected ∷ [])
      else pure true)

unfoldable pub check_resolved_function_call :
    Node → ℕ → FunctionSignature → Text → Span → Arguments → M HirType
unfolding fail_with report_if report invalid_type
check_resolved_function_call node count signature n callee_span arguments =
    if not (leb (length signature.generic_params) 0)
    then (do
      report callee_span "calling generic function '{}' is not supported yet" (text n ∷ [])
      ok ← arguments []
      pure invalid_type)
    else (do
      report_if (not (count == length signature.params)) node.span
          "function '{}' expects {} argument(s) but got {}"
          (text n ∷ number (length signature.params) ∷ number count ∷ [])
      ok ← arguments signature.params
      pure signature.return_type)

abbrev pub call_found : Node → ℕ → Text → Span → Arguments → Option FunctionSignature → M HirType
call_found node count n span arguments none = pure invalid_type
call_found node count n span arguments (some signature) =
    check_resolved_function_call node count signature n span arguments

abbrev pub call_resolved : Node → ℕ → Text → Span → Arguments → Option Text → M HirType
call_resolved node count n span arguments none = do
  report span "undefined function '{}'" (text n ∷ [])
  ok ← arguments []
  pure invalid_type
call_resolved node count n span arguments (some key) = do
  functions ← lookup_table (λ t. t.functions)
  call_found node count n span arguments (find key functions)

unfoldable pub check_function_call : Node → ℕ → Text → Span → Arguments → M HirType
unfolding resolve_function_name check_resolved_function_call lookup_table find report invalid_type
check_function_call node count n span arguments = do
  decl ← lookup_table (λ t. t.current_decl)
  resolved ← resolve_function_name (n ∷ []) decl span
  call_resolved node count n span arguments resolved

-- The methods of the traits that bound a generic parameter.
unfoldable pub candidates : List (Text × TraitInfo) → Text → List Text → List MethodInfo
unfolding find
candidates traits n [] = []
candidates traits n (b ∷ bs) =
    let rest = candidates traits n bs in
    elim (find b traits) [
      | none ↦ rest
      | some trait ↦ elim (find n trait.methods) [ none ↦ rest | some m ↦ m ∷ rest ]
    ]

unfoldable pub all_same : MethodInfo → List MethodInfo → Bool
unfolding same_method_signature
all_same m [] = true
all_same m (k ∷ ks) = same_method_signature m k && all_same m ks

-- `methodArgumentsMatch`
unfoldable pub method_arguments_match : Node → ℕ → Text → MethodInfo → Arguments → M Bool
unfolding report_if
method_arguments_match node count n method arguments = do
  report_if (not (count == length method.params)) node.span
      "method '{}' expects {} argument(s) but got {}"
      (text n ∷ number (length method.params) ∷ number count ∷ [])
  ok ← arguments method.params
  pure (count == length method.params && ok)

abbrev pub call_candidate :
    Node → Node → Expr → ℕ → Text → HirType → Arguments → List MethodInfo → M HirType
call_candidate node callee object count n receiver arguments [] = do
  report callee.span "generic type '{}' has no method '{}' in its trait bounds"
      (text (name_of receiver) ∷ text n ∷ [])
  ok ← arguments []
  pure invalid_type
call_candidate node callee object count n receiver arguments (m ∷ ms) =
    if not (all_same m ms)
    then fail_with invalid_type callee.span "method '{}' is ambiguous for generic type '{}'"
        (text n ∷ text (name_of receiver) ∷ [])
    else do
      report_if (not (same_capability (capability_of m.receiver_type) (capability_of receiver)))
          (span_or object callee.span) "method '{}' requires a compatible receiver" (text n ∷ [])
      ok ← method_arguments_match node count n m arguments
      pure m.return_type

abbrev pub call_generic :
    Node
    → Node
    → Expr
    → ℕ
    → Text
    → HirType
    → Arguments
    → List (Text × TraitInfo)
    → Option GenericParamInfo
    → M HirType
call_generic node callee object count n receiver arguments traits none = pure invalid_type
call_generic node callee object count n receiver arguments traits (some g) =
    call_candidate node callee object count n receiver arguments (candidates traits n g.bounds)

unfoldable pub check_generic_method_call :
    Node → Node → Expr → ℕ → Text → HirType → Arguments → M HirType
unfolding candidates all_same method_arguments_match lookup_table find report report_if fail_with
    same_capability capability_of invalid_type name_of
check_generic_method_call node callee object count n receiver arguments = do
  generics ← lookup_table (λ t. t.generic_params)
  traits ← lookup_table (λ t. t.traits)
  call_generic node callee object count n receiver arguments traits
      (find (name_of receiver) generics)

-- A method of a struct: what is wrong with the call, and its arguments.
unfoldable pub check_found_method :
    Node → Node → Expr → ℕ → Text → Bool → HirType → MethodInfo → Arguments → M HirType
unfolding method_arguments_match report_if same_type name_of
check_found_method node callee object count n type_level receiver method arguments = do
  report_if (type_level && method.has_receiver) callee.span "method '{}' requires a receiver"
      (text n ∷ [])
  report_if (not type_level && not method.has_receiver) callee.span
      "associated function '{}' must be called on type '{}'" (text n ∷ text (name_of receiver) ∷ [])
  report_if (method.has_receiver && not (same_type method.receiver_type receiver))
      (span_or object callee.span) "method '{}' requires receiver type '{}'"
      (text n ∷ text (name_of method.receiver_type) ∷ [])
  ok ← method_arguments_match node count n method arguments
  pure method.return_type

abbrev pub method_found :
    Node → Node → Expr → ℕ → Text → Bool → HirType → Arguments → Option MethodInfo → M HirType
method_found node callee object count n type_level receiver arguments none = do
  report callee.span "type '{}' has no method '{}'" (text (name_of receiver) ∷ text n ∷ [])
  ok ← arguments []
  pure invalid_type
method_found node callee object count n type_level receiver arguments (some method) =
    check_found_method node callee object count n type_level receiver method arguments

abbrev pub call_method :
    Node → Node → Expr → ℕ → Text → Bool → HirType → Arguments → Option StructInfo → M HirType
call_method node callee object count n type_level receiver arguments none =
    fail_with invalid_type callee.span "type '{}' has no methods" (text (name_of receiver) ∷ [])
call_method node callee object count n type_level receiver arguments (some info) =
    method_found node callee object count n type_level receiver arguments (find n info.methods)

-- A call on a receiver.
unfoldable pub call_on : Node → Node → Expr → ℕ → Text → Bool → HirType → Arguments → M HirType
unfolding check_generic_method_call check_found_method lookup_table find has_key report fail_with
    is_invalid invalid_type name_of
call_on node callee object count n type_level receiver arguments = do
  generics ← lookup_table (λ t. t.generic_params)
  structs ← lookup_table (λ t. t.structs)
  if is_invalid receiver
      then (do ok ← arguments []; pure invalid_type)
      else if not type_level && has_key (name_of receiver) generics
      then check_generic_method_call node callee object count n receiver arguments
      else call_method node callee object count n type_level receiver arguments
          (find (name_of receiver) structs)

-- Whether an object is the name of a struct and of no binding, and that name.
abbrev type_level_name :
    Option Text → List (Text × StructInfo) → Option (Slot × Binding) → Option Text
type_level_name none structs found = none
type_level_name (some n) structs (some b) = none
type_level_name (some n) structs none = if has_key n structs then some n else none

abbrev pub receiver_of : Expr → M HirType → Option Text → M HirType
receiver_of object check none = unless_null object invalid_type check
receiver_of object check (some n) = pure (Hir.HirType.plain Capability.no_capability n)

abbrev is_some : Option Text → Bool
is_some none = false
is_some (some t) = true

abbrev pub look_up : Option Text → M (Option (Slot × Binding))
look_up none = pure none
look_up (some n) = lookup n

unfoldable pub check_method_call : Node → Node → Expr → ℕ → Text → M HirType → Arguments → M HirType
unfolding call_on lookup lookup_table has_key as_name_expr invalid_type
check_method_call node callee object count n check arguments = do
  structs ← lookup_table (λ t. t.structs)
  found ← look_up (as_name_expr object)
  let level = type_level_name (as_name_expr object) structs found
  receiver ← receiver_of object check level
  call_on node callee object count n (is_some level) receiver arguments

-- A call of what is neither a builtin nor a function in a module; `check` checks the object of a
-- field access.
unfoldable pub check_plain_call : Node → Expr → ℕ → M HirType → Arguments → M HirType
unfolding check_function_call check_method_call report invalid_type
check_plain_call node (name p n) count check arguments =
    check_function_call node count n p.span arguments
check_plain_call node (field_access p o f) count check arguments =
    check_method_call node p o count f check arguments
check_plain_call node callee count check arguments = do
  report node.span "function call currently requires a function name" []
  ok ← arguments []
  pure invalid_type

abbrev is_path : List Text → Bool
is_path [] = false
is_path (x ∷ []) = false
is_path (x ∷ y ∷ ys) = true

-- The signature that a path of several segments resolves to.
unfoldable pub resolve_callee : List Text → Span → M (Option FunctionSignature)
unfolding resolve_function_name lookup_table find
resolve_callee path span = if not (is_path path) then pure none else do
  decl ← lookup_table (λ t. t.current_decl)
  resolved ← resolve_function_name path decl span
  functions ← lookup_table (λ t. t.functions)
  pure (elim resolved [ none ↦ none | some key ↦ find key functions ])

abbrev pub call_path :
    Node → Expr → ℕ → M HirType → Arguments → Option FunctionSignature → M HirType
call_path node callee count check arguments (some signature) =
    check_resolved_function_call node count signature (join_path (path_from_field_access callee))
      (expr_node callee).span arguments
call_path node callee count check arguments none =
    check_plain_call node callee count check arguments

abbrev pub call_builtin : Node → Expr → ℕ → M HirType → Arguments → Option Text → M HirType
call_builtin node callee count check arguments (some n) =
    check_function_call node count n (expr_node callee).span arguments
call_builtin node callee count check arguments none = do
  signature ← resolve_callee (path_from_field_access callee) (expr_node callee).span
  call_path node callee count check arguments signature

unfoldable pub check_call : Node → Expr → ℕ → M HirType → Arguments → M HirType
unfolding check_function_call check_resolved_function_call check_plain_call resolve_callee
    qualified_core_builtin_name path_from_field_access join_path
check_call node callee count check arguments =
    call_builtin node callee count check arguments (qualified_core_builtin_name callee)
