-- ===== src/Sema/Setup/Collects.antt =====
-- What collecting modules, structs, traits and methods leaves as it is: src/hir/Sema.cpp.
use gura.Prelude.{refl, Bool, true, false, Option, none, some, List, [], ◌∷◌}
use gura.Ast.{
  Text, Param, FnDecl, FieldDecl, StructDecl, TraitDecl, ImplDecl, Decl, struct_decl, trait_decl,
  impl_decl,
}
use gura.Sema.{PlacedDecl, FieldInfo, MethodInfo, StructInfo, TraitInfo, M, set_tables}
use gura.Sema.Collect.{
  collect_module, collect_modules, receiver_type, param_types, method_info, make_method_info,
  collect_method, collect_methods, collect_field, collect_fields, collect_struct, set_traits,
  collect_structs, on_struct, on_trait, on_impl, collect_trait_method, collect_trait_methods,
  collect_trait, collect_traits, collect_impl, impl_found, collect_impl_methods,
}
use gura.Sema.Setup.{
  Tabular-set_tables, Tabular-pure, Tabular-lookup_table, Tabular-if, Tabular-bind, Tabular-then,
  Tabular-report, Tabular-each, type_from_ast-Tabular, tabular_rules, Tabular,
}

collect_module-Tabular : (d : PlacedDecl) → Tabular (collect_module d)
unfolding collect_module
collect_module-Tabular d = Tabular-if _ _ _ (Tabular-set_tables _ (λ t. refl)) (Tabular-pure tt)

pub collect_modules-Tabular : (file : List PlacedDecl) → Tabular (collect_modules file)
unfolding collect_modules
collect_modules-Tabular file =
    Tabular-then _ _ (Tabular-set_tables _ (λ t. refl)) (Tabular-each _ file collect_module-Tabular)

receiver_type-Tabular : (ps : List Param) (self : Text) → Tabular (receiver_type ps self)
unfolding receiver_type
receiver_type-Tabular [] self = search (tabular_rules)
receiver_type-Tabular (p ∷ ps) self =
    Tabular-bind _ _ (type_from_ast-Tabular p.type) λ t. Tabular-pure _

param_types-Tabular : (ps : List Param) → Tabular (param_types ps)
unfolding param_types
param_types-Tabular [] = search (tabular_rules)
param_types-Tabular (p ∷ ps) =
    Tabular-bind _ _ (type_from_ast-Tabular p.type)
      λ t. Tabular-bind _ _ (param_types-Tabular ps) λ ts. Tabular-pure _

method_info-Tabular : (m : FnDecl) (self : Text) (b : Bool) → Tabular (method_info m self b)
unfolding method_info
method_info-Tabular m self b =
    search (tabular_rules, receiver_type-Tabular, param_types-Tabular) depth 9

pub make_method_info-Tabular :
    (m : FnDecl) (self : Text) (b : Bool) → Tabular (make_method_info m self b)
unfolding make_method_info
make_method_info-Tabular m self b = search (tabular_rules, method_info-Tabular) depth 9

collect_method-Tabular :
    (b : Bool) (self : Text) (ms : List (Text × MethodInfo)) (m : FnDecl)
    → Tabular (collect_method b self ms m)
unfolding collect_method
collect_method-Tabular b self ms m = search (tabular_rules, make_method_info-Tabular) depth 9

collect_methods-Tabular :
    (b : Bool) (self : Text) (ms : List (Text × MethodInfo)) (fs : List FnDecl)
    → Tabular (collect_methods b self ms fs)
unfolding collect_methods
collect_methods-Tabular b self ms [] = Tabular-pure ms
collect_methods-Tabular b self ms (f ∷ fs) =
    Tabular-bind _ _ (collect_method-Tabular b self ms f)
      λ more. collect_methods-Tabular b self more fs

collect_field-Tabular :
    (fields : List (Text × FieldInfo)) (f : FieldDecl) → Tabular (collect_field fields f)
unfolding collect_field
collect_field-Tabular fields f = search (tabular_rules) depth 9

collect_fields-Tabular :
    (fields : List (Text × FieldInfo)) (fs : List FieldDecl) → Tabular (collect_fields fields fs)
unfolding collect_fields
collect_fields-Tabular fields [] = Tabular-pure fields
collect_fields-Tabular fields (f ∷ fs) =
    Tabular-bind _ _ (collect_field-Tabular fields f) λ more. collect_fields-Tabular more fs

collect_struct-Tabular : (d : StructDecl) → Tabular (collect_struct d)
unfolding collect_struct
collect_struct-Tabular d = Tabular-bind _ _ (collect_fields-Tabular [] d.fields) λ fields.
    Tabular-bind _ _ (collect_methods-Tabular true d.name [] d.methods) λ methods.
      Tabular-bind _ _ (Tabular-lookup_table _)
        λ structs. Tabular-if _ _ _ (Tabular-report _ _ _) (Tabular-set_tables _ (λ t. refl))

on_struct-Tabular : (d : Decl) → Tabular (on_struct collect_struct d)
on_struct-Tabular (struct_decl d) = collect_struct-Tabular d
on_struct-Tabular _ = Tabular-pure tt

pub collect_structs-Tabular : (file : List PlacedDecl) → Tabular (collect_structs file)
unfolding collect_structs
collect_structs-Tabular file =
    Tabular-then _ _ (Tabular-set_tables _ (λ t. refl))
      (Tabular-each _ file λ d. on_struct-Tabular d.decl)

collect_trait_method-Tabular :
    (trait : Text) (ms : List (Text × MethodInfo)) (m : FnDecl)
    → Tabular (collect_trait_method trait ms m)
unfolding collect_trait_method
collect_trait_method-Tabular trait ms m = search (tabular_rules, make_method_info-Tabular) depth 9

collect_trait_methods-Tabular :
    (trait : Text) (ms : List (Text × MethodInfo)) (fs : List FnDecl)
    → Tabular (collect_trait_methods trait ms fs)
unfolding collect_trait_methods
collect_trait_methods-Tabular trait ms [] = Tabular-pure ms
collect_trait_methods-Tabular trait ms (f ∷ fs) =
    Tabular-bind _ _ (collect_trait_method-Tabular trait ms f)
      λ more. collect_trait_methods-Tabular trait more fs

set_traits-Tabular : (traits : List (Text × TraitInfo)) → Tabular (set_tables (set_traits traits))
set_traits-Tabular traits = Tabular-set_tables (set_traits traits) (λ t. refl)

collect_trait-Tabular : (d : TraitDecl) → Tabular (collect_trait d)
unfolding collect_trait
collect_trait-Tabular d =
    search (tabular_rules, collect_trait_methods-Tabular, set_traits-Tabular) depth 9

on_trait-Tabular : (d : Decl) → Tabular (on_trait collect_trait d)
on_trait-Tabular (trait_decl d) = collect_trait-Tabular d
on_trait-Tabular _ = Tabular-pure tt

pub collect_traits-Tabular : (file : List PlacedDecl) → Tabular (collect_traits file)
unfolding collect_traits
collect_traits-Tabular file =
    Tabular-then _ _ (Tabular-set_tables _ (λ t. refl))
      (Tabular-each _ file λ d. on_trait-Tabular d.decl)

impl_found-Tabular :
    (d : ImplDecl) (structs : List (Text × StructInfo)) (info : Option StructInfo)
    → Tabular (impl_found d structs info)
impl_found-Tabular d structs none = Tabular-report _ _ _
impl_found-Tabular d structs (some info) =
    Tabular-bind _ _ (collect_methods-Tabular false d.type_name info.methods d.methods)
      λ methods. Tabular-set_tables _ (λ t. refl)

collect_impl-Tabular : (d : ImplDecl) → Tabular (collect_impl d)
unfolding collect_impl
collect_impl-Tabular d = search (tabular_rules, impl_found-Tabular) depth 9

pub on_impl-Tabular :
    (f : ImplDecl → M (Unit {0}))
    → ((d : ImplDecl) → Tabular (f d))
    → (d : Decl) → Tabular (on_impl f d)
on_impl-Tabular f k (impl_decl d) = k d
on_impl-Tabular f k _ = Tabular-pure tt

pub collect_impl_methods-Tabular : (file : List PlacedDecl) → Tabular (collect_impl_methods file)
unfolding collect_impl_methods
collect_impl_methods-Tabular file =
    Tabular-each _ file λ d. on_impl-Tabular collect_impl collect_impl-Tabular d.decl
