-- ===== src/Sema/Resolve/Collected.antt =====
-- `collectFunctionSignatures` of src/hir/Sema.cpp: the tables of keys that it makes.
use gura.Prelude.{
  sym, ap, subst, Bool, true, false, Option, List, [], ◌∷◌, ◌++◌, All, if◌then◌else◌,
}
use gura.Basic.{Span}
use gura.Ast.{Text, Param, FnDecl, Decl, fn_decl}
use gura.Hir.{HirType}
use gura.Sema.{
  Sema, Tables, PlacedDecl, FunctionSignature, M, ◌>>=◌, ◌>>◌, pure, set_tables, each, find,
  emplace,
}
use gura.Sema.Names.{resolve_function_name, keys_of}
use gura.Sema.Functions.{
  add_function, add_qualified, add_builtin, builtins, signature_params, function_key,
  collect_function, on_function, collect_function_signatures,
}
use gura.Sema.Quiet.{
  Quiet, Quiet-pure, Quiet-bind, Quiet-then, Quiet-report, Quiet-report_if, Quiet-lookup_table,
  type_from_ast-Quiet, type_or-Quiet,
}
use gura.Sema.Resolve.{
  IsFunction, KeysKnown, Known, find-Value, assign-Values, All-map, emplace-IsFunction, emplace-new,
  keys_of-known, resolve_function_name-Known,
}

-- Collecting the signatures.
record Collects {ℓ} {A : Type ℓ} (m : M A) : Type ℓ where
  at : (s : Sema) → KeysKnown s.tables → KeysKnown (m s).1.tables

Collects-Quiet {ℓ} : {A : Type ℓ} (m : M A) → Quiet m → Collects m
Collects-Quiet m q = record {
  at = λ s h. subst KeysKnown (sym (ap (λ (z : Sema). z.tables) (q.at s).same)) h;
}

Collects-set_tables :
    (f : Tables → Tables) → ((t : Tables) → KeysKnown t → KeysKnown (f t)) → Collects (set_tables f)
unfolding set_tables
Collects-set_tables f k = record { at = λ s h. k s.tables h }

Collects-bind {ℓ κ} :
    {A : Type ℓ} {B : Type κ} (m : M A) (f : A → M B)
    → Collects m
    → ((a : A) → Collects (f a))
    → Collects (m >>= f)
unfolding ◌>>=◌
Collects-bind m f km kf = record { at = λ s h. (kf (m s).0).at (m s).1 (km.at s h) }

Collects-then {κ} :
    {B : Type κ} (m : M (Unit {0})) (n : M B) → Collects m → Collects n → Collects (m >> n)
unfolding ◌>>◌
Collects-then m n km kn = Collects-bind m (λ _. n) km (λ _. kn)

Collects-if {ℓ} :
    {A : Type ℓ} (b : Bool) (m n : M A) → Collects m → Collects n → Collects (if b then m else n)
Collects-if true m n km kn = km
Collects-if false m n km kn = kn

Collects-each {ℓ} :
    {A : Type ℓ} (f : A → M (Unit {0})) (xs : List A)
    → ((a : A) → Collects (f a))
    → Collects (each f xs)
unfolding each
Collects-each f [] k = Collects-Quiet _ (Quiet-pure tt)
Collects-each f (x ∷ xs) k = Collects-then (f x) (each f xs) (k x) (Collects-each f xs k)

All-append : {A : Type 0} (P : A → Type 0) (xs ys : List A) → All P xs → All P ys → All P (xs ++ ys)
All-append P [] ys h k = k
All-append P (x ∷ xs) ys h k = (h.0, All-append P xs ys h.1 k)

add_function-KeysKnown :
    (key n : Text) (v : FunctionSignature) (t : Tables)
    → KeysKnown t
    → KeysKnown (add_function key n v t)
add_function-KeysKnown key n v t h =
    let fs = emplace key v t.functions in
    let stays : (k : Text) → IsFunction t.functions k → IsFunction fs k =
      λ k. emplace-IsFunction k key v t.functions in
    let grown : (ks : List Text) → All (IsFunction t.functions) ks → All (IsFunction fs) ks =
      All-map (IsFunction t.functions) (IsFunction fs) stays in
    let old =
      All-map (λ (e : Text × List Text). All (IsFunction t.functions) e.1)
        (λ (e : Text × List Text). All (IsFunction fs) e.1) (λ e. grown e.1) t.simple_keys
        h.simple in
    let here = grown (keys_of (find n t.simple_keys)) (
      keys_of-known t (find n t.simple_keys)
        (find-Value (All (IsFunction t.functions)) n t.simple_keys h.simple)) in
    record {
      simple = assign-Values (All (IsFunction fs)) n _ t.simple_keys old (
          All-append (IsFunction fs) (keys_of (find n t.simple_keys)) (key ∷ []) here
            (emplace-new key v t.functions, tt));
      qualified =
          All-map (λ (e : Text × Text). IsFunction t.functions e.1)
            (λ (e : Text × Text). IsFunction fs e.1) (λ e. stays e.1) t.qualified_keys h.qualified;
    }

add_qualified-KeysKnown :
    (path key : Text) (t : Tables)
    → IsFunction t.functions key
    → KeysKnown t
    → KeysKnown (add_qualified path key t)
add_qualified-KeysKnown path key t k h = record {
  simple = h.simple;
  qualified = assign-Values (IsFunction t.functions) path key t.qualified_keys h.qualified k;
}

registered :
    (b : Bool) (key n : Text) (v : FunctionSignature)
    → Collects (
        set_tables (add_function key n v)
        >> (if b then set_tables (add_qualified key key) else pure tt))
unfolding set_tables ◌>>=◌ ◌>>◌ pure
registered true key n v = record {
  at = λ s h.
      add_qualified-KeysKnown key key (add_function key n v s.tables)
        (emplace-new key v s.tables.functions) (add_function-KeysKnown key n v s.tables h);
}
registered false key n v = record { at = λ s h. add_function-KeysKnown key n v s.tables h }

signature_params-Quiet : (ps : List Param) → Quiet (signature_params ps)
unfolding signature_params
signature_params-Quiet [] = Quiet-pure []
signature_params-Quiet (p ∷ ps) = Quiet-bind _ _ (type_from_ast-Quiet p.type) λ t.
    Quiet-then _ _ (Quiet-report_if _ _ _ _)
      (Quiet-bind _ _ (signature_params-Quiet ps) λ ts. Quiet-pure _)

collect_function-Collects : (path : List Text) (fn : FnDecl) → Collects (collect_function path fn)
unfolding collect_function
collect_function-Collects path fn =
    Collects-bind _ _ (Collects-Quiet _ (type_or-Quiet _ fn.return_type)) λ result.
      Collects-then _ _ (Collects-Quiet _ (Quiet-report_if _ _ _ _)) (
        Collects-bind _ _ (Collects-Quiet _ (signature_params-Quiet fn.params)) λ params.
          Collects-bind _ _ (Collects-Quiet _ (Quiet-lookup_table _)) λ functions.
            Collects-if _ _ _ (Collects-Quiet _ (Quiet-report _ _ _))
              (registered _ (function_key path fn.name) fn.name _))

on_function-Collects : (d : PlacedDecl) (e : Decl) → Collects (on_function d e)
on_function-Collects d (fn_decl fn) = collect_function-Collects d.module_path fn
on_function-Collects d _ = Collects-Quiet _ (Quiet-pure tt)

add_builtin-Collects : (b : Text × HirType × List HirType) → Collects (add_builtin b)
unfolding add_builtin
add_builtin-Collects (n, result, params) = Collects-set_tables _ λ t h.
    add_qualified-KeysKnown _ n (add_function n n _ t) (emplace-new n _ t.functions)
      (add_function-KeysKnown n n _ t h)

abbrev no_functions : Tables → Tables
no_functions t = record t { functions = []; qualified_keys = []; simple_keys = [] }

collect_function_signatures-KeysKnown :
    (file : List PlacedDecl) (s : Sema) → KeysKnown (collect_function_signatures file s).1.tables
unfolding collect_function_signatures set_tables ◌>>=◌ ◌>>◌
collect_function_signatures-KeysKnown file s =
    (Collects-then _ _ (Collects-each add_builtin builtins add_builtin-Collects)
        (Collects-each _ file λ d. on_function-Collects d d.decl)).at
      (record s { tables = no_functions s.tables }) (record { simple = tt; qualified = tt })

-- After the signatures of any declarations were collected, a name that resolves resolves to the
-- key of a function that is in the table, from whatever declaration, imports and aliases.
pub resolve_function_name-collected :
    (file : List PlacedDecl) (path : List Text) (decl : Option PlacedDecl) (span : Span) (s : Sema)
    → let t = (collect_function_signatures file s).1 in
      Known t.tables (resolve_function_name path decl span t).0
resolve_function_name-collected file path decl span s =
    resolve_function_name-Known path decl span (collect_function_signatures file s).1
      (collect_function_signatures-KeysKnown file s)
