-- ===== src/Sema.antt =====
-- include/gura/hir/Sema.h: the state of the semantic analysis, and the actions on it.
-- The unordered maps are lists of entries in the order of insertion; where the source iterates over
-- one, that is the order taken, one of those that the source leaves open.
pub mod Scopes
pub mod Types
pub mod Names
pub mod Rules
pub mod Init
pub mod Access
pub mod Control
pub mod Calls
pub mod Exprs
pub mod Collect
pub mod Functions
pub mod Decls
pub mod Outline
pub mod Suspension
pub mod Keeps
pub mod Effects
pub mod CallEffects
pub mod Preservation
pub mod Quiet
pub mod Setup
pub mod Verdict
pub mod Moves
pub mod Loops
pub mod Escapes
pub mod Generics
pub mod Resolve
mod Tests
use gura.Prelude.{
  ℕ, Bool, true, false, ◌||◌, not, Option, none, some, List, [], ◌∷◌, ◌++◌, if◌then◌else◌, String,
}
use gura.Basic.{Span, same_text}
use gura.Ast.{Text, ImportDecl, GenericParam, Decl, Expr, expr_node, is_null}
use gura.Hir.{HirType}

-- A declaration with the `modulePath` and the `imports` that the driver sets.
pub record PlacedDecl : Type 0 where
  pub module_path : List Text
  pub imports : List ImportDecl
  pub decl : Decl

pub data ValueContext : Type 0 where
  ordinary operand : ValueContext

pub data BindingOrigin : Type 0 where
  ordinary region_bridge region_local : BindingOrigin

pub data BindingAvailability : Type 0 where
  available moved open_borrowed : BindingAvailability

pub data BindingView : Type 0 where
  normal suspended : BindingView

pub data EscapeTarget : Type 0 where
  return_value local_binding outer_binding field region_block_result spawn_arg closure_capture :
      EscapeTarget

pub record Binding : Type 0 where
  pub type : HirType
  pub is_var : Bool
  pub availability : BindingAvailability
  pub view : BindingView
  pub span : Span
  pub origin : BindingOrigin
  pub region_depth : ℕ
  pub bridge_slot : Bool
  pub bridge_reassigned : Bool

-- A scope, and the scopes with the innermost at the head.
abbrev pub Scope : Type 0
Scope = List (Text × Binding)

pub record FunctionSignature : Type 0 where
  pub params : List HirType
  pub return_type : HirType
  pub generic_params : List GenericParam

pub record FieldInfo : Type 0 where
  pub type : HirType
  pub is_var : Bool

pub record MethodInfo : Type 0 where
  pub params : List HirType
  pub receiver_type : HirType
  pub return_type : HirType
  pub has_receiver : Bool

pub record StructInfo : Type 0 where
  pub fields : List (Text × FieldInfo)
  pub methods : List (Text × MethodInfo)

pub record TraitInfo : Type 0 where
  pub methods : List (Text × MethodInfo)

-- The bounds of a generic parameter.
pub record GenericParamInfo : Type 0 where
  pub bounds : List Text

pub record ModuleInfo : Type 0 where
  pub path : List Text
  pub imports : List ImportDecl

-- What stands for a `{}` of a message; a type is printed by `typeName`.
pub data Argument : Type 0 where
  text : Text → Argument
  number : ℕ → Argument
  type_named : HirType → Argument

-- `diagnostics_.error(span, fmt::format(template, …))`
pub record Report : Type 0 where
  pub span : Span
  pub template : String
  pub arguments : List Argument

-- What is fixed while a function is checked. `earlier_error` says whether the diagnostic engine
-- held an error before the analysis.
pub record Tables : Type 0 where
  pub earlier_error : Bool
  pub structs : List (Text × StructInfo)
  pub traits : List (Text × TraitInfo)
  pub functions : List (Text × FunctionSignature)
  pub modules : List (Text × ModuleInfo)
  pub qualified_keys : List (Text × Text)
  pub simple_keys : List (Text × List Text)
  pub current_decl : Option PlacedDecl
  pub generic_params : List (Text × GenericParamInfo)
  pub return_type : HirType

pub record Sema : Type 0 where
  pub reports : List Report
  pub scopes : List Scope
  pub region_depth : ℕ
  pub mutable_region_depth : ℕ
  pub tables : Tables

abbrev pub M {ℓ} : Type ℓ → Type ℓ
M A = Sema → A × Sema

infixl 5 ◌>>=◌ ◌>>◌
unfoldable pub ◌>>=◌ {ℓ κ} : {A : Type ℓ} {B : Type κ} → M A → (A → M B) → M B
◌>>=◌ m f s = f (m s).0 (m s).1

unfoldable pub ◌>>◌ {κ} : {B : Type κ} → M (Unit {0}) → M B → M B
unfolding ◌>>=◌
m >> n = m >>= λ _. n

unfoldable pub pure {ℓ} : {A : Type ℓ} → A → M A
pure a s = (a, s)

unfoldable pub gets {ℓ} : {A : Type ℓ} → (Sema → A) → M A
gets f s = (f s, s)

unfoldable pub lookup_table {ℓ} : {A : Type ℓ} → (Tables → A) → M A
lookup_table f s = (f s.tables, s)

unfoldable pub modify : (Sema → Sema) → M (Unit {0})
modify f s = (tt, f s)

unfoldable pub set_tables : (Tables → Tables) → M (Unit {0})
set_tables f s = (tt, record s { tables = f s.tables })

unfoldable pub report : Span → String → List Argument → M (Unit {0})
report span template arguments s = (
  tt,
  record s {
    reports =
        s.reports ++ (record { span = span; template = template; arguments = arguments } ∷ []);
  },
)

-- `if (test) report(…)`
unfoldable pub report_if : Bool → Span → String → List Argument → M (Unit {0})
unfolding report
report_if test span template arguments = if test then report span template arguments else pure tt

-- `report(…); return …;`
unfoldable pub fail_with {ℓ} : {A : Type ℓ} → A → Span → String → List Argument → M A
unfolding report
fail_with a span template arguments = report span template arguments >> pure a

-- `diagnostics_.hasError()`
unfoldable pub has_error : M Bool
has_error s = (s.tables.earlier_error || elim s.reports [ [] ↦ false | r ∷ rs ↦ true ], s)

-- A loop over a list.
unfoldable pub each {ℓ} : {A : Type ℓ} → (A → M (Unit {0})) → List A → M (Unit {0})
each f [] = pure tt
each f (x ∷ xs) = f x >> each f xs

module _ {ℓ} {V : Type ℓ} where
  unfoldable pub find : Text → List (Text × V) → Option V
  find k [] = none
  find k ((j, v) ∷ m) = if same_text j k then some v else find k m

  unfoldable pub has_key : Text → List (Text × V) → Bool
  has_key k [] = false
  has_key k ((j, v) ∷ m) = same_text j k || has_key k m

  -- `emplace`: nothing where the key is there.
  unfoldable pub emplace : Text → V → List (Text × V) → List (Text × V)
  unfolding has_key
  emplace k v m = if has_key k m then m else m ++ ((k, v) ∷ [])

  -- `m[k] = v`
  unfoldable pub assign : Text → V → List (Text × V) → List (Text × V)
  assign k v [] = (k, v) ∷ []
  assign k v ((j, w) ∷ m) = if same_text j k then (j, v) ∷ m else (j, w) ∷ assign k v m

-- `e ? … : d`, where `m` is what is done for an expression that is there.
abbrev pub unless_null {ℓ} : {A : Type ℓ} → Expr → A → M A → M A
unless_null e d m = if is_null e then pure d else m

-- `e ? e->span : span`
abbrev pub span_or : Expr → Span → Span
span_or e span = if is_null e then span else (expr_node e).span
