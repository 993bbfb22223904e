-- ===== src/Sema/Collect.antt =====
-- src/hir/Sema.cpp: the tables of modules, structs, traits and methods.
use gura.Prelude.{Bool, true, false, not, ◌&&◌, Option, none, some, List, [], ◌∷◌, if◌then◌else◌}
use gura.Basic.{Span, codes}
use gura.Ast.{
  Text, TypeRef, type_info, Param, GenericParam, FnDecl, FieldDecl, StructDecl, TraitDecl, ImplDecl,
  Decl, struct_decl, trait_decl, impl_decl, Block,
}
use gura.Hir.{
  HirType, Capability, is_array, capability_of, same_capability, with_name, invalid_type, unit_type,
  cstring_type, numeric_type,
}
use gura.Hir
use gura.Hir.Paths.{join_path, is_text}
use gura.Sema.{
  Tables, PlacedDecl, FieldInfo, MethodInfo, StructInfo, TraitInfo, ModuleInfo, M, ◌>>=◌, ◌>>◌,
  pure, lookup_table, set_tables, report, report_if, fail_with, each, find, has_key, emplace,
  assign, text,
}
use gura.Sema.Types.{type_from_ast, type_or}

abbrev set_structs : List (Text × StructInfo) → Tables → Tables
set_structs m t = record t { structs = m }

abbrev pub set_traits : List (Text × TraitInfo) → Tables → Tables
set_traits m t = record t { traits = m }

abbrev set_modules : List (Text × ModuleInfo) → Tables → Tables
set_modules m t = record t { modules = m }

abbrev pub is_placed : List Text → Bool
is_placed [] = false
is_placed (x ∷ xs) = true

unfoldable pub collect_module : PlacedDecl → M (Unit {0})
unfolding set_tables assign join_path
collect_module d =
    if is_placed d.module_path
    then set_tables (λ t.
      set_modules
        (assign (join_path d.module_path) (record { path = d.module_path; imports = d.imports })
          t.modules)
        t)
    else pure tt

unfoldable pub collect_modules : List PlacedDecl → M (Unit {0})
unfolding collect_module set_tables each
collect_modules file = do set_tables (set_modules []); each collect_module file

abbrev first_is_self : List Param → Bool
first_is_self [] = false
first_is_self (p ∷ ps) = is_text p.name "self"

-- The type of the receiver, with the name of the type that the method is for.
unfoldable pub receiver_type : List Param → Text → M HirType
unfolding type_from_ast with_name
receiver_type [] self = pure (Hir.HirType.plain Capability.no_capability [])
receiver_type (p ∷ ps) self = do t ← type_from_ast p.type; pure (with_name self t)

unfoldable pub param_types : List Param → M (List HirType)
unfolding type_from_ast
param_types [] = pure []
param_types (p ∷ ps) = do t ← type_from_ast p.type; ts ← param_types ps; pure (t ∷ ts)

abbrev rest_of : List Param → List Param
rest_of [] = []
rest_of (p ∷ ps) = ps

abbrev is_generic : List GenericParam → Bool
is_generic [] = false
is_generic (p ∷ ps) = true

-- A method with or without a receiver.
unfoldable pub method_info : FnDecl → Text → Bool → M MethodInfo
unfolding receiver_type param_types type_or unit_type
method_info method self has_receiver = do
  receiver ← receiver_type (if has_receiver then method.params else []) self
  result ← type_or unit_type method.return_type
  params ← param_types (if has_receiver then rest_of method.params else method.params)
  pure (record {
    params = params;
    receiver_type = receiver;
    return_type = result;
    has_receiver = has_receiver;
  })

unfoldable pub make_method_info : FnDecl → Text → Bool → M (Option MethodInfo)
unfolding method_info fail_with
make_method_info method self require_receiver =
    if is_generic method.generic_params
    then fail_with none method.node.span "generic methods are not supported yet" []
    else if require_receiver && not (first_is_self method.params)
    then fail_with none method.node.span "method '{}' must declare self as its first parameter"
        (text method.name ∷ [])
    else do info ← method_info method self (first_is_self method.params); pure (some info)

abbrev pub add_method :
    Text → List (Text × MethodInfo) → Option MethodInfo → List (Text × MethodInfo)
add_method n methods none = methods
add_method n methods (some m) = emplace n m methods

-- `collectMethod`, on the methods of the struct.
unfoldable pub collect_method :
    Bool → Text → List (Text × MethodInfo) → FnDecl → M (List (Text × MethodInfo))
unfolding make_method_info has_key emplace fail_with
collect_method require_receiver self methods method =
    if has_key method.name methods
    then fail_with methods method.node.span "method '{}' is already defined" (text method.name ∷ [])
    else do
      info ← make_method_info method self require_receiver
      pure (add_method method.name methods info)

unfoldable pub collect_methods :
    Bool → Text → List (Text × MethodInfo) → List FnDecl → M (List (Text × MethodInfo))
unfolding collect_method
collect_methods require_receiver self methods [] = pure methods
collect_methods require_receiver self methods (m ∷ ms) = do
  more ← collect_method require_receiver self methods m
  collect_methods require_receiver self more ms

abbrev pub type_span : Option TypeRef → Span → Span
type_span none span = span
type_span (some t) span = (type_info t).node.span

unfoldable pub collect_field : List (Text × FieldInfo) → FieldDecl → M (List (Text × FieldInfo))
unfolding has_key emplace type_or report_if is_array invalid_type fail_with
collect_field fields f =
    if has_key f.name fields
    then fail_with fields f.node.span "field '{}' is already defined" (text f.name ∷ [])
    else do
      t ← type_or invalid_type f.type
      report_if (is_array t) (type_span f.type f.node.span) "array fields are not supported yet" []
      pure (emplace f.name (record { type = t; is_var = f.is_var }) fields)

unfoldable pub collect_fields :
    List (Text × FieldInfo) → List FieldDecl → M (List (Text × FieldInfo))
unfolding collect_field
collect_fields fields [] = pure fields
collect_fields fields (f ∷ fs) = do more ← collect_field fields f; collect_fields more fs

unfoldable pub collect_struct : StructDecl → M (Unit {0})
unfolding collect_fields collect_methods lookup_table has_key emplace report set_tables
collect_struct d = do
  fields ← collect_fields [] d.fields
  methods ← collect_methods true d.name [] d.methods
  structs ← lookup_table (λ t. t.structs)
  if has_key d.name structs
      then report d.node.span "struct '{}' is already defined" (text d.name ∷ [])
      else set_tables
          (set_structs (emplace d.name (record { fields = fields; methods = methods }) structs))

-- The structs among the declarations, and so on.
abbrev pub on_struct : (StructDecl → M (Unit {0})) → Decl → M (Unit {0})
on_struct f (struct_decl d) = f d
on_struct f _ = pure tt

abbrev pub on_trait : (TraitDecl → M (Unit {0})) → Decl → M (Unit {0})
on_trait f (trait_decl d) = f d
on_trait f _ = pure tt

abbrev pub on_impl : (ImplDecl → M (Unit {0})) → Decl → M (Unit {0})
on_impl f (impl_decl d) = f d
on_impl f _ = pure tt

unfoldable pub collect_structs : List PlacedDecl → M (Unit {0})
unfolding collect_struct set_tables each
collect_structs file = do
  set_tables (set_structs [])
  each (λ d. on_struct collect_struct d.decl) file

abbrev has_body : Option Block → Bool
has_body none = false
has_body (some b) = true

unfoldable pub collect_trait_method :
    Text → List (Text × MethodInfo) → FnDecl → M (List (Text × MethodInfo))
unfolding make_method_info has_key emplace fail_with
collect_trait_method trait methods method =
    if has_key method.name methods
    then fail_with methods method.node.span "method '{}' is already defined in trait '{}'"
        (text method.name ∷ text trait ∷ [])
    else if has_body method.body
    then fail_with methods method.node.span "trait method '{}' must not have a body"
        (text method.name ∷ [])
    else do
      info ← make_method_info method (codes "<Self>") true
      pure (add_method method.name methods info)

unfoldable pub collect_trait_methods :
    Text → List (Text × MethodInfo) → List FnDecl → M (List (Text × MethodInfo))
unfolding collect_trait_method
collect_trait_methods trait methods [] = pure methods
collect_trait_methods trait methods (m ∷ ms) = do
  more ← collect_trait_method trait methods m
  collect_trait_methods trait more ms

unfoldable pub collect_trait : TraitDecl → M (Unit {0})
unfolding collect_trait_methods lookup_table has_key emplace report set_tables
collect_trait d = do
  structs ← lookup_table (λ t. t.structs)
  traits ← lookup_table (λ t. t.traits)
  if has_key d.name structs
      then report d.node.span "trait '{}' conflicts with a struct of the same name"
          (text d.name ∷ [])
      else if has_key d.name traits
      then report d.node.span "trait '{}' is already defined" (text d.name ∷ [])
      else do
        methods ← collect_trait_methods d.name [] d.methods
        set_tables (set_traits (emplace d.name (record { methods = methods }) traits))

unfoldable pub collect_traits : List PlacedDecl → M (Unit {0})
unfolding collect_trait set_tables each
collect_traits file = do set_tables (set_traits []); each (λ d. on_trait collect_trait d.decl) file

abbrev is_missing : Option Text → List (Text × TraitInfo) → Bool
is_missing none traits = false
is_missing (some n) traits = not (has_key n traits)

abbrev or_empty : Option Text → Text
or_empty none = []
or_empty (some n) = n

abbrev pub impl_found : ImplDecl → List (Text × StructInfo) → Option StructInfo → M (Unit {0})
impl_found d structs none =
    report d.node.span "impl target type '{}' is not defined" (text d.type_name ∷ [])
impl_found d structs (some info) = do
  methods ← collect_methods false d.type_name info.methods d.methods
  set_tables (set_structs (assign d.type_name (record info { methods = methods }) structs))

unfoldable pub collect_impl : ImplDecl → M (Unit {0})
unfolding collect_methods lookup_table has_key find assign report report_if set_tables
collect_impl d = do
  traits ← lookup_table (λ t. t.traits)
  structs ← lookup_table (λ t. t.structs)
  report_if (is_missing d.trait_name traits) d.node.span "trait '{}' is not defined"
      (text (or_empty d.trait_name) ∷ [])
  impl_found d structs (find d.type_name structs)

unfoldable pub collect_impl_methods : List PlacedDecl → M (Unit {0})
unfolding collect_impl each
collect_impl_methods file = each (λ d. on_impl collect_impl d.decl) file
