-- ===== src/Sema/Names.antt =====
-- src/hir/Sema.cpp: `resolveFunctionName`.
use gura.Prelude.{Bool, true, false, not, Option, none, some, List, [], ◌∷◌, ◌++◌, if◌then◌else◌}
use gura.Basic.{Span, same_text}
use gura.Ast.{Text, ImportDecl}
use gura.Hir.Paths.{join_path, qualified_name}
use gura.Sema.{
  Tables, FunctionSignature, PlacedDecl, M, ◌>>=◌, pure, lookup_table, fail_with, find, has_key,
  text,
}

abbrev pub is_module : List Text → Bool
is_module [] = false
is_module (x ∷ xs) = true

abbrev pub add_match : Option Text → Bool → Text → List Text → List Text
add_match (some a) found key rest = rest
add_match none found key rest = if found then key ∷ rest else rest

-- The keys of the function `name` in the modules that are imported without an alias.
unfoldable pub imported_matches :
    List (Text × FunctionSignature) → Text → List ImportDecl → List Text
unfolding qualified_name has_key
imported_matches functions name [] = []
imported_matches functions name (i ∷ is) =
    let rest = imported_matches functions name is in
    add_match i.alias (has_key (qualified_name i.path name) functions) (qualified_name i.path name)
      rest

abbrev pub or_none : List Text → Option Text
or_none [] = none
or_none (x ∷ xs) = some x

abbrev pub several : List Text → Bool
several [] = false
several (x ∷ []) = false
several (x ∷ y ∷ ys) = true

abbrev pub keys_of : Option (List Text) → List Text
keys_of none = []
keys_of (some ks) = ks

-- A name among all functions of that name.
unfoldable pub resolve_anywhere : Text → Span → M (Option Text)
unfolding lookup_table find fail_with
resolve_anywhere name span = do
  simple ← lookup_table (λ t. t.simple_keys)
  let keys = keys_of (find name simple)
  if several keys
      then fail_with none span "function '{}' is ambiguous; use a qualified name" (text name ∷ [])
      else pure (or_none keys)

-- A name in the module of the declaration, in the modules that it imports, or anywhere.
unfoldable pub resolve_simple : Text → Option PlacedDecl → Span → M (Option Text)
unfolding resolve_anywhere imported_matches qualified_name has_key lookup_table fail_with
resolve_simple name none span = resolve_anywhere name span
resolve_simple name (some d) span = do
  functions ← lookup_table (λ t. t.functions)
  let local = qualified_name d.module_path name
  let imported = imported_matches functions name d.imports
  if not (is_module d.module_path)
      then resolve_anywhere name span
      else if has_key local functions
      then pure (some local)
      else if several imported
      then fail_with none span "function '{}' is ambiguous between imports" (text name ∷ [])
      else if is_module imported
      then pure (or_none imported)
      else resolve_anywhere name span

abbrev is_alias : Text → Option Text → Bool
is_alias name none = false
is_alias name (some a) = same_text a name

-- The path of the first import with this alias.
unfoldable pub aliased : Text → List ImportDecl → Option (List Text)
aliased name [] = none
aliased name (i ∷ is) = if is_alias name i.alias then some i.path else aliased name is

abbrev pub alias_path : Text → Option PlacedDecl → Option (List Text)
alias_path first none = none
alias_path first (some d) = aliased first d.imports

abbrev pub key_if : Bool → Text → Option Text
key_if true key = some key
key_if false key = none

-- The path of an alias takes the place of the first segment.
abbrev pub by_alias :
    Option (List Text) → List (Text × FunctionSignature) → List Text → Option Text → Option Text
by_alias none functions rest outright = outright
by_alias (some path) functions rest outright =
    key_if (has_key (join_path (path ++ rest)) functions) (join_path (path ++ rest))

-- A path of several segments, whose first is an alias or a module's.
unfoldable pub resolve_path : Tables → Text → List Text → Option PlacedDecl → Option Text
unfolding aliased join_path has_key find
resolve_path t first rest decl =
    let key = join_path (first ∷ rest) in
    let outright = if has_key key t.functions then some key else find key t.qualified_keys in
    by_alias (alias_path first decl) t.functions rest outright

unfoldable pub resolve_function_name : List Text → Option PlacedDecl → Span → M (Option Text)
unfolding resolve_simple resolve_path lookup_table
resolve_function_name [] decl span = pure none
resolve_function_name (name ∷ []) decl span = resolve_simple name decl span
resolve_function_name (first ∷ second ∷ rest) decl span =
    lookup_table (λ t. resolve_path t first (second ∷ rest) decl)
