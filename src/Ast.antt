-- ===== src/Ast.antt =====
-- include/gura/ast: Node.h, TypeRef.h, Expr.h and Decl.h. A pointer that may be empty is a value
-- with a constructor or an option for it. Names and literals are the bytes of their tokens.
use gura.Prelude.{ℕ, Bool, true, false, Option, List}
use gura.Basic.{Span, empty_span}

abbrev pub Text : Type 0
Text = List ℕ

abbrev pub NodeId : Type 0
NodeId = ℕ

pub record Node : Type 0 where
  pub id : NodeId
  pub span : Span

pub data Capability : Type 0 where
  no_capability mut tmp iso imm paused cown : Capability

-- The fields of `TypeRef` but `isArray` and `elementType`.
pub record TypeInfo : Type 0 where
  pub node : Node
  pub capability : Capability
  pub name : Text
  pub path : List Text
  pub optional : Bool

-- `isArray` is set exactly where there is an element type.
pub data TypeRef : Type 0 where
  plain : TypeInfo → TypeRef
  array : TypeInfo → (element : TypeRef) → TypeRef

abbrev pub type_info : TypeRef → TypeInfo
type_info (plain i) = i
type_info (array i e) = i

pub data LiteralKind : Type 0 where
  integer float bool none_literal string char : LiteralKind

pub data RegionKind : Type 0 where
  enter explore : RegionKind

-- `Ptr<Expr>`: `null` is the empty pointer. `Block` is `Ptr<BlockExpr>`, which is never empty.
mutual
  pub data Expr : Type 0 where
    null : Expr
    literal : Node → LiteralKind → (value suffix : Text) → Expr
    name : Node → Text → Expr
    binary : Node → (op : Text) → (lhs rhs : Expr) → Expr
    assign : Node → (target value : Expr) → Expr
    field_access : Node → (object : Expr) → (field_name : Text) → Expr
    array_literal : Node → Exprs → Expr
    index : Node → (object index : Expr) → Expr
    binding : Node → (is_var : Bool) → Text → Option TypeRef → (initializer : Expr) → Expr
    move : Node → Expr → Expr
    new : Node → TypeRef → (region_strategy : Text) → FieldInits → Expr
    call : Node → (callee : Expr) → (arguments : Exprs) → Expr
    freeze : Node → Expr → Expr
    merge : Node → Expr → Expr
    if_expr : Node → (condition : Expr) → (then_block : Block) → (else_branch : Expr) → Expr
    while_expr : Node → (condition : Expr) → (body : Block) → Expr
    block : Block → Expr
    region : Node → RegionKind → (source : Expr) → (binding_name : Text) → (body : Block) → Expr
    return : Node → Expr → Expr

  pub data Block : Type 0 where
    block_expr : Node → Exprs → Block

  pub data Exprs : Type 0 where
    no_exprs : Exprs
    exprs : Expr → Exprs → Exprs

  pub data FieldInits : Type 0 where
    no_inits : FieldInits
    inits : Node → Text → Expr → FieldInits → FieldInits

abbrev pub block_node : Block → Node
block_node (block_expr n es) = n

abbrev pub empty_node : Node
empty_node = record { id = 0; span = empty_span }

-- The node of an expression; an empty pointer has none.
unfoldable pub expr_node : Expr → Node
expr_node null = empty_node
expr_node (literal n k v s) = n
expr_node (name n t) = n
expr_node (binary n op l r) = n
expr_node (assign n t v) = n
expr_node (field_access n o f) = n
expr_node (array_literal n es) = n
expr_node (index n o i) = n
expr_node (binding n v t ty e) = n
expr_node (move n e) = n
expr_node (new n t r fs) = n
expr_node (call n c es) = n
expr_node (freeze n e) = n
expr_node (merge n e) = n
expr_node (if_expr n c t e) = n
expr_node (while_expr n c b) = n
expr_node (block b) = block_node b
expr_node (region n k s t b) = n
expr_node (return n e) = n

abbrev pub is_null : Expr → Bool
is_null null = true
is_null _ = false

-- What may stand left of `=`.
unfoldable pub is_target : Expr → Bool
is_target (name n t) = true
is_target (field_access n o f) = true
is_target (index n o i) = true
is_target _ = false

pub record ImportDecl : Type 0 where
  pub path : List Text
  pub alias : Option Text
  pub span : Span

pub record Param : Type 0 where
  pub name : Text
  pub type : TypeRef

pub record TraitBound : Type 0 where
  pub name : Text
  pub span : Span

pub record GenericParam : Type 0 where
  pub name : Text
  pub bounds : List TraitBound
  pub span : Span

-- `modulePath` and `imports` of a declaration are set by the driver, and are not fields here.
pub record FnDecl : Type 0 where
  pub node : Node
  pub name : Text
  pub generic_params : List GenericParam
  pub params : List Param
  pub return_type : Option TypeRef
  pub body : Option Block

pub record FieldDecl : Type 0 where
  pub node : Node
  pub is_var : Bool
  pub name : Text
  pub type : Option TypeRef

pub record StructDecl : Type 0 where
  pub node : Node
  pub name : Text
  pub fields : List FieldDecl
  pub methods : List FnDecl

pub record TraitDecl : Type 0 where
  pub node : Node
  pub name : Text
  pub methods : List FnDecl

pub record ImplDecl : Type 0 where
  pub node : Node
  pub type_name : Text
  pub trait_name : Option Text
  pub methods : List FnDecl

pub data Decl : Type 0 where
  fn_decl : FnDecl → Decl
  struct_decl : StructDecl → Decl
  trait_decl : TraitDecl → Decl
  impl_decl : ImplDecl → Decl

pub record SourceFile : Type 0 where
  pub node : Node
  pub explicit_module : Option (List Text)
  pub resolved_module : List Text
  pub imports : List ImportDecl
  pub declarations : List Decl
