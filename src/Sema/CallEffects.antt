-- ===== src/Sema/CallEffects.antt =====
-- What the checks of operators, branches, region blocks and calls leave as it is.
use gura.Prelude.{ℕ, Bool, Option, none, some, List, [], ◌∷◌, String}
use gura.Basic.{Span}
use gura.Ast.{Text, Node, Expr, RegionKind, expr_node, name, field_access}
use gura.Hir.{HirType}
use gura.Sema.{
  M, FunctionSignature, MethodInfo, StructInfo, TraitInfo, GenericParamInfo, PlacedDecl,
}
use gura.Sema.Names.{resolve_anywhere, resolve_simple, resolve_function_name}
use gura.Sema.Control.{
  binary_type, check_binary, check_return, check_condition, check_if, check_while, declare_bridge,
  find_source, source_type, check_region, check_freeze, check_merge,
}
use gura.Sema.Calls.{
  Arguments, check_argument, check_resolved_function_call, call_found, call_resolved,
  check_function_call, method_arguments_match, call_candidate, call_generic,
  check_generic_method_call, check_found_method, method_found, call_method, call_on, receiver_of,
  look_up, check_method_call, check_plain_call, resolve_callee, call_path, call_builtin, check_call,
}
use gura.Sema.Effects.{check_escape-Good, check_name-Good}
use gura.Sema.Keeps.{Good}
use gura.Sema.Keeps.Regions.{keeps_rules}

binary_type-Good : (span : Span) (op : Text) (l r : HirType) → Good (binary_type span op l r)
unfolding binary_type
binary_type-Good span op l r = search (keeps_rules) depth 9

pub check_binary-Good :
    (node : Node) (op : Text) (l r : Expr) (a b : M HirType)
    → Good a
    → Good b
    → Good (check_binary node op l r a b)
unfolding check_binary
check_binary-Good node op l r a b ga gb = search (keeps_rules, binary_type-Good)

pub check_return-Good :
    (node : Node) (e : Expr) (m : M HirType) → Good m → Good (check_return node e m)
unfolding check_return
check_return-Good node e m g = search (keeps_rules, check_escape-Good) depth 9

check_condition-Good :
    (node : Node) (e : Expr) (message : String) (m : M HirType)
    → Good m
    → Good (check_condition node e message m)
unfolding check_condition
check_condition-Good node e message m g = search (keeps_rules)

pub check_if-Good :
    (node : Node) (c e : Expr) (l m n : M HirType)
    → Good l
    → Good m
    → Good n
    → Good (check_if node c e l m n)
unfolding check_if
check_if-Good node c e l m n gl gm gn = search (keeps_rules, check_condition-Good) depth 9

pub check_while-Good :
    (node : Node) (c : Expr) (l m : M HirType) → Good l → Good m → Good (check_while node c l m)
unfolding check_while
check_while-Good node c l m gl gm = search (keeps_rules, check_condition-Good) depth 9

pub declare_bridge-Good :
    (node : Node) (kind : RegionKind) (t : HirType) (n : Text) → Good (declare_bridge node kind t n)
unfolding declare_bridge
declare_bridge-Good node kind t n = search (keeps_rules) depth 9

pub find_source-Good : (n : Option Text) → Good (find_source n)
unfolding find_source
find_source-Good none = search (keeps_rules)
find_source-Good (some n) = search (keeps_rules)

pub source_type-Good : (e : Expr) (n : Option Text) → Good (source_type e n)
source_type-Good e none = search (keeps_rules)
source_type-Good e (some n) = check_name-Good (expr_node e) n _

pub check_region-Good :
    (node : Node) (kind : RegionKind) (source : Expr) (n : Text) (body : M HirType)
    → Good body
    → Good (check_region node kind source n body)
unfolding check_region
check_region-Good node kind source n body g =
    search (keeps_rules, find_source-Good, source_type-Good, declare_bridge-Good, check_escape-Good)
      depth 14

pub check_freeze-Good :
    (node : Node) (e : Expr) (m : M HirType) → Good m → Good (check_freeze node e m)
unfolding check_freeze
check_freeze-Good node e m g = search (keeps_rules) depth 9

pub check_merge-Good :
    (node : Node) (e : Expr) (m : M HirType) → Good m → Good (check_merge node e m)
unfolding check_merge
check_merge-Good node e m g = search (keeps_rules) depth 9

resolve_anywhere-Good : (n : Text) (span : Span) → Good (resolve_anywhere n span)
unfolding resolve_anywhere
resolve_anywhere-Good n span = search (keeps_rules) depth 9

resolve_simple-Good :
    (n : Text) (decl : Option PlacedDecl) (span : Span) → Good (resolve_simple n decl span)
unfolding resolve_simple
resolve_simple-Good n none span = resolve_anywhere-Good n span
resolve_simple-Good n (some d) span = search (keeps_rules, resolve_anywhere-Good) depth 9

resolve_function_name-Good :
    (path : List Text) (decl : Option PlacedDecl) (span : Span)
    → Good (resolve_function_name path decl span)
unfolding resolve_function_name
resolve_function_name-Good [] decl span = search (keeps_rules)
resolve_function_name-Good (n ∷ []) decl span = resolve_simple-Good n decl span
resolve_function_name-Good (m ∷ n ∷ path) decl span = search (keeps_rules)

pub check_argument-Good :
    (i : ℕ) (t : HirType) (e : Expr) (m : M HirType) → Good m → Good (check_argument i t e m)
unfolding check_argument
check_argument-Good i t e m g = search (keeps_rules) depth 9

-- The rest is for calls whose arguments are checked by `arguments`.
module _ (arguments : Arguments) (g : (ts : List HirType) → Good (arguments ts)) where
  check_resolved_function_call-Good :
      (node : Node) (k : ℕ) (signature : FunctionSignature) (n : Text) (span : Span)
      → Good (check_resolved_function_call node k signature n span arguments)
  unfolding check_resolved_function_call
  check_resolved_function_call-Good node k signature n span = search (keeps_rules, g) depth 9

  call_found-Good :
      (node : Node) (k : ℕ) (n : Text) (span : Span) (signature : Option FunctionSignature)
      → Good (call_found node k n span arguments signature)
  call_found-Good node k n span none = search (keeps_rules)
  call_found-Good node k n span (some signature) =
      check_resolved_function_call-Good node k signature n span

  call_resolved-Good :
      (node : Node) (k : ℕ) (n : Text) (span : Span) (key : Option Text)
      → Good (call_resolved node k n span arguments key)
  call_resolved-Good node k n span none = search (keeps_rules, g) depth 9
  call_resolved-Good node k n span (some key) = search (keeps_rules, call_found-Good)

  check_function_call-Good :
      (node : Node) (k : ℕ) (n : Text) (span : Span)
      → Good (check_function_call node k n span arguments)
  unfolding check_function_call
  check_function_call-Good node k n span =
      search (keeps_rules, resolve_function_name-Good, call_resolved-Good) depth 9

  method_arguments_match-Good :
      (node : Node) (k : ℕ) (n : Text) (m : MethodInfo)
      → Good (method_arguments_match node k n m arguments)
  unfolding method_arguments_match
  method_arguments_match-Good node k n m = search (keeps_rules, g) depth 9

  call_candidate-Good :
      (node callee : Node) (object : Expr) (k : ℕ) (n : Text) (t : HirType) (ms : List MethodInfo)
      → Good (call_candidate node callee object k n t arguments ms)
  call_candidate-Good node callee object k n t [] = search (keeps_rules, g) depth 9
  call_candidate-Good node callee object k n t (m ∷ ms) =
      search (keeps_rules, method_arguments_match-Good) depth 9

  call_generic-Good :
      (node callee : Node) (object : Expr) (k : ℕ) (n : Text) (t : HirType)
      (traits : List (Text × TraitInfo)) (info : Option GenericParamInfo)
      → Good (call_generic node callee object k n t arguments traits info)
  call_generic-Good node callee object k n t traits none = search (keeps_rules)
  call_generic-Good node callee object k n t traits (some info) =
      call_candidate-Good node callee object k n t _

  check_generic_method_call-Good :
      (node callee : Node) (object : Expr) (k : ℕ) (n : Text) (t : HirType)
      → Good (check_generic_method_call node callee object k n t arguments)
  unfolding check_generic_method_call
  check_generic_method_call-Good node callee object k n t =
      search (keeps_rules, call_generic-Good) depth 9

  check_found_method-Good :
      (node callee : Node) (object : Expr) (k : ℕ) (n : Text) (level : Bool) (t : HirType)
      (m : MethodInfo)
      → Good (check_found_method node callee object k n level t m arguments)
  unfolding check_found_method
  check_found_method-Good node callee object k n level t m =
      search (keeps_rules, method_arguments_match-Good) depth 9

  method_found-Good :
      (node callee : Node) (object : Expr) (k : ℕ) (n : Text) (level : Bool) (t : HirType)
      (m : Option MethodInfo)
      → Good (method_found node callee object k n level t arguments m)
  method_found-Good node callee object k n level t none = search (keeps_rules, g) depth 9
  method_found-Good node callee object k n level t (some m) =
      check_found_method-Good node callee object k n level t m

  call_method-Good :
      (node callee : Node) (object : Expr) (k : ℕ) (n : Text) (level : Bool) (t : HirType)
      (info : Option StructInfo)
      → Good (call_method node callee object k n level t arguments info)
  call_method-Good node callee object k n level t none = search (keeps_rules)
  call_method-Good node callee object k n level t (some info) =
      method_found-Good node callee object k n level t _

  call_on-Good :
      (node callee : Node) (object : Expr) (k : ℕ) (n : Text) (level : Bool) (t : HirType)
      → Good (call_on node callee object k n level t arguments)
  unfolding call_on
  call_on-Good node callee object k n level t =
      search (keeps_rules, g, check_generic_method_call-Good, call_method-Good) depth 9

  receiver_of-Good :
      (object : Expr) (m : M HirType) (n : Option Text) → Good m → Good (receiver_of object m n)
  receiver_of-Good object m none h = search (keeps_rules)
  receiver_of-Good object m (some n) h = search (keeps_rules)

  look_up-Good : (n : Option Text) → Good (look_up n)
  look_up-Good none = search (keeps_rules)
  look_up-Good (some n) = search (keeps_rules)

  check_method_call-Good :
      (node callee : Node) (object : Expr) (k : ℕ) (n : Text) (m : M HirType)
      → Good m
      → Good (check_method_call node callee object k n m arguments)
  unfolding check_method_call
  check_method_call-Good node callee object k n m h =
      search (keeps_rules, look_up-Good, receiver_of-Good, call_on-Good) depth 9

  check_plain_call-Good :
      (node : Node) (callee : Expr) (k : ℕ) (m : M HirType)
      → Good m
      → Good (check_plain_call node callee k m arguments)
  unfolding check_plain_call
  check_plain_call-Good node (name p n) k m h = check_function_call-Good node k n p.span
  check_plain_call-Good node (field_access p o f) k m h = check_method_call-Good node p o k f m h
  check_plain_call-Good node _ k m h = search (keeps_rules, g) depth 9

  resolve_callee-Good : (path : List Text) (span : Span) → Good (resolve_callee path span)
  unfolding resolve_callee
  resolve_callee-Good path span = search (keeps_rules, resolve_function_name-Good) depth 9

  call_path-Good :
      (node : Node) (callee : Expr) (k : ℕ) (m : M HirType) (signature : Option FunctionSignature)
      → Good m
      → Good (call_path node callee k m arguments signature)
  call_path-Good node callee k m none h = check_plain_call-Good node callee k m h
  call_path-Good node callee k m (some signature) h =
      check_resolved_function_call-Good node k signature _ _

  call_builtin-Good :
      (node : Node) (callee : Expr) (k : ℕ) (m : M HirType) (n : Option Text)
      → Good m
      → Good (call_builtin node callee k m arguments n)
  call_builtin-Good node callee k m none h =
      search (keeps_rules, resolve_callee-Good, call_path-Good) depth 9
  call_builtin-Good node callee k m (some n) h = check_function_call-Good node k n _

  pub check_call-Good :
      (node : Node) (callee : Expr) (k : ℕ) (m : M HirType)
      → Good m
      → Good (check_call node callee k m arguments)
  unfolding check_call
  check_call-Good node callee k m h = call_builtin-Good node callee k m _ h
