-- ===== src/Sema/Resolve.antt =====
-- `resolveFunctionName` and `collectFunctionSignatures` of src/hir/Sema.cpp: names resolve to functions
-- that are there.
pub mod Collected
use gura.Prelude.{
  ◌≡◌, refl, sym, ap, subst, ◌∙◌, inl, inr, Bool, true, false, ◌||◌, Option, none, some, List, [],
  ◌∷◌, ◌++◌, All, if◌then◌else◌, arith, Bool-cases,
}
use gura.Basic.{Span, same_text}
use gura.Ast.{Text, ImportDecl, Param, FnDecl, Decl, fn_decl}
use gura.Hir.{HirType}
use gura.Hir.Paths.{qualified_name, join_path}
use gura.Hir.Laws.{same_text_refl}
use gura.Sema.{
  Sema, Tables, PlacedDecl, FunctionSignature, M, ◌>>=◌, ◌>>◌, pure, lookup_table, set_tables,
  fail_with, each, find, has_key, emplace, assign,
}
use gura.Sema.Names.{
  add_match, by_alias, imported_matches, resolve_anywhere, resolve_simple, resolve_path,
  resolve_function_name, keys_of, or_none, several, alias_path, key_if, is_module,
}
use gura.Sema.Functions.{
  add_function, add_qualified, add_builtin, builtins, signature_params, function_key,
  collect_function, on_function, collect_function_signatures,
}
use gura.Sema.Quiet.{
  Quiet, Quiet-pure, Quiet-bind, Quiet-then, Quiet-report, Quiet-report_if, Quiet-lookup_table,
  type_from_ast-Quiet, type_or-Quiet,
}

abbrev Functions : Type 0
Functions = List (Text × FunctionSignature)

abbrev IsFunction : Functions → Text → Type 0
IsFunction fs k = has_key k fs ≡ true

-- The keys that the two maps of keys give are functions.
pub record KeysKnown (t : Tables) : Type 0 where
  pub simple : All (λ (e : Text × List Text). All (IsFunction t.functions) e.1) t.simple_keys
  pub qualified : All (λ (e : Text × Text). IsFunction t.functions e.1) t.qualified_keys

-- The function that was resolved, if any.
abbrev pub Known : Tables → Option Text → Type 0
Known t none = Unit
Known t (some k) = has_key k t.functions ≡ true

module _ {V : Type 0} (P : V → Type 0) where
  abbrev Values : List (Text × V) → Type 0
  Values m = All (λ (e : Text × V). P e.1) m

  abbrev Value : Option V → Type 0
  Value none = Unit
  Value (some v) = P v

  find-Value : (k : Text) (m : List (Text × V)) → Values m → Value (find k m)
  unfolding find
  find-Value k [] h = tt
  find-Value k ((j, v) ∷ m) h = elim (Bool-cases (same_text j k)) [
    | inl y ↦ rw y h.0
    | inr n ↦ rw n (find-Value k m h.1)
  ]

  assign-Values : (k : Text) (v : V) (m : List (Text × V)) → Values m → P v → Values (assign k v m)
  unfolding assign
  assign-Values k v [] h p = (p, tt)
  assign-Values k v ((j, w) ∷ m) h p = elim (Bool-cases (same_text j k)) [
    | inl y ↦ rw y (p, h.1)
    | inr n ↦ rw n (h.0, assign-Values k v m h.1 p)
  ]

module _ {ℓ} {A : Type ℓ} (P Q : A → Type 0) (f : (a : A) → P a → Q a) where
  All-map : (xs : List A) → All P xs → All Q xs
  All-map [] h = tt
  All-map (x ∷ xs) h = (f x h.0, All-map xs h.1)

has_key-append :
    (k j : Text) (v : FunctionSignature) (fs : Functions)
    → has_key k (fs ++ ((j, v) ∷ [])) ≡ (has_key k fs || same_text j k)
unfolding has_key
has_key-append k j v [] = ground arith
has_key-append k j v ((i, w) ∷ fs) = let r = has_key-append k j v fs in ground arith

emplace-IsFunction :
    (k j : Text) (v : FunctionSignature) (fs : Functions)
    → IsFunction fs k
    → IsFunction (emplace j v fs) k
unfolding emplace
emplace-IsFunction k j v fs h = elim (Bool-cases (has_key j fs)) [
  | inl y ↦ rw y h
  | inr n ↦ rw n (has_key-append k j v fs ∙ rw h refl)
]

emplace-new : (j : Text) (v : FunctionSignature) (fs : Functions) → IsFunction (emplace j v fs) j
unfolding emplace
emplace-new j v fs = elim (Bool-cases (has_key j fs)) [
  | inl y ↦ rw y y
  | inr n ↦ rw n (has_key-append j j v fs ∙ rw (same_text_refl j) (rw n refl))
]

-- Resolving a name.
module _ (fs : Functions) where
  add_match-known :
      (alias : Option Text) (k : Text) (rest : List Text)
      → All (IsFunction fs) rest
      → All (IsFunction fs) (add_match alias (has_key k fs) k rest)
  add_match-known (some a) k rest h = h
  add_match-known none k rest h = elim (Bool-cases (has_key k fs)) [
    | inl y ↦ rw y (y, h)
    | inr n ↦ rw n h
  ]

imported-known :
    (fs : Functions) (n : Text) (is : List ImportDecl)
    → All (IsFunction fs) (imported_matches fs n is)
unfolding imported_matches
imported-known fs n [] = tt
imported-known fs n (i ∷ is) =
    add_match-known fs i.alias (qualified_name i.path n) (imported_matches fs n is)
      (imported-known fs n is)

or_none-Known :
    (t : Tables) (keys : List Text) → All (IsFunction t.functions) keys → Known t (or_none keys)
or_none-Known t [] h = tt
or_none-Known t (k ∷ ks) h = h.0

keys_of-known :
    (t : Tables) (found : Option (List Text))
    → Value (All (IsFunction t.functions)) found
    → All (IsFunction t.functions) (keys_of found)
keys_of-known t none h = tt
keys_of-known t (some ks) h = h

resolve_anywhere-Known :
    (n : Text) (span : Span) (s : Sema)
    → KeysKnown s.tables
    → Known s.tables (resolve_anywhere n span s).0
unfolding resolve_anywhere lookup_table fail_with ◌>>=◌ ◌>>◌ pure
resolve_anywhere-Known n span s h =
    let keys = keys_of (find n s.tables.simple_keys) in
    elim (Bool-cases (several keys)) [
      | inl y ↦ rw y tt
      | inr k ↦ rw k (
          or_none-Known s.tables keys (
            keys_of-known s.tables (find n s.tables.simple_keys)
              (find-Value (All (IsFunction s.tables.functions)) n s.tables.simple_keys h.simple)))
    ]

resolve_simple-Known :
    (n : Text) (decl : Option PlacedDecl) (span : Span) (s : Sema)
    → KeysKnown s.tables
    → Known s.tables (resolve_simple n decl span s).0
unfolding resolve_simple lookup_table fail_with ◌>>=◌ ◌>>◌ pure
resolve_simple-Known n none span s h = resolve_anywhere-Known n span s h
resolve_simple-Known n (some d) span s h =
    let anywhere = resolve_anywhere-Known n span s h in
    let imported = imported_matches s.tables.functions n d.imports in
    elim (Bool-cases (is_module d.module_path)) [
      | inr a ↦ rw a anywhere
      | inl a ↦ elim (Bool-cases (has_key (qualified_name d.module_path n) s.tables.functions)) [
        | inl b ↦ rw a (rw b b)
        | inr b ↦ elim (Bool-cases (several imported)) [
          | inl c ↦ rw a (rw b (rw c tt))
          | inr c ↦ elim (Bool-cases (is_module imported)) [
            | inl e ↦ rw a (
                rw b (
                  rw c (
                    rw e (
                      or_none-Known s.tables imported
                        (imported-known s.tables.functions n d.imports)))))
            | inr e ↦ rw a (rw b (rw c (rw e anywhere)))
          ]
        ]
      ]
    ]

key_if-Known : (t : Tables) (k : Text) → Known t (key_if (has_key k t.functions) k)
key_if-Known t k = elim (Bool-cases (has_key k t.functions)) [ inl y ↦ rw y y | inr n ↦ rw n tt ]

by_alias-Known :
    (t : Tables) (path : Option (List Text)) (rest : List Text) (outright : Option Text)
    → Known t outright
    → Known t (by_alias path t.functions rest outright)
by_alias-Known t none rest outright h = h
by_alias-Known t (some path) rest outright h = key_if-Known t (join_path (path ++ rest))

Value-Known :
    (t : Tables) (found : Option Text) → Value (IsFunction t.functions) found → Known t found
Value-Known t none h = tt
Value-Known t (some k) h = h

outright-Known :
    (t : Tables) (k : Text)
    → KeysKnown t
    → Known t (if has_key k t.functions then some k else find k t.qualified_keys)
outright-Known t k h = elim (Bool-cases (has_key k t.functions)) [
  | inl y ↦ rw y y
  | inr n ↦ rw n (
      Value-Known t (find k t.qualified_keys)
        (find-Value (IsFunction t.functions) k t.qualified_keys h.qualified))
]

resolve_path-Known :
    (t : Tables) (first : Text) (rest : List Text) (decl : Option PlacedDecl)
    → KeysKnown t
    → Known t (resolve_path t first rest decl)
unfolding resolve_path
resolve_path-Known t first rest decl h =
    by_alias-Known t (alias_path first decl) rest _ (outright-Known t (join_path (first ∷ rest)) h)

resolve_function_name-Known :
    (path : List Text) (decl : Option PlacedDecl) (span : Span) (s : Sema)
    → KeysKnown s.tables
    → Known s.tables (resolve_function_name path decl span s).0
unfolding resolve_function_name lookup_table pure
resolve_function_name-Known [] decl span s h = tt
resolve_function_name-Known (n ∷ []) decl span s h = resolve_simple-Known n decl span s h
resolve_function_name-Known (m ∷ n ∷ path) decl span s h =
    resolve_path-Known s.tables m (n ∷ path) decl h
