-- ===== src/Parser/Types.antt =====
-- src/parser/Parser.cpp: paths and types.
use gura.Prelude.{ℕ, zero, suc, Bool, true, false, none, List, [], ◌∷◌, if◌then◌else◌, String}
use gura.Basic.{origin, SourceLocation}
use gura.Ast.{Text, Capability, TypeInfo, TypeRef, plain, array}
use gura.Ast.{no_capability, mut, tmp, iso, imm, paused, cown}
use gura.Lexer.Tokens.{
  TokenKind, identifier, dot, question, l_bracket, r_bracket, kw_mut, kw_tmp, kw_iso, kw_imm,
  kw_pau, kw_cown,
}
use gura.Parser.{
  M, ◌>>=◌, ◌>>◌, pure, asks, when, at, peek, advance, skip, consume, error_here, expect,
  next_node_id, here, span,
}

-- The paths that are parsed; the messages are those of `fmt::format` with the word put in.
pub data PathContext : Type 0 where
  module_path import_path type_path : PathContext

unfoldable pub expected_path : PathContext → String
expected_path module_path = "expected module path"
expected_path import_path = "expected import path"
expected_path type_path = "expected type path"

unfoldable pub expected_identifier : PathContext → String
expected_identifier module_path = "expected identifier in module path"
expected_identifier import_path = "expected identifier in import path"
expected_identifier type_path = "expected identifier in type path"

-- `while (consume(TokenKind::Dot))` of `parsePath`
unfoldable pub path_rest : ℕ → PathContext → M (List Text)
path_rest zero context s = none
path_rest (suc f) context s =
    (do
      more ← consume dot
      if more
          then when (at identifier)
              (do t ← advance; rest ← path_rest f context; pure (t.text ∷ rest))
              (do error_here (expected_identifier context); pure [])
          else pure [])
      s

unfoldable pub parse_path : ℕ → PathContext → M (List Text)
unfolding path_rest
parse_path f context =
    when (at identifier) (do t ← advance; rest ← path_rest f context; pure (t.text ∷ rest))
      (do error_here (expected_path context); pure [])

-- The capability that a keyword stands for.
unfoldable pub capability_of : TokenKind → Capability
capability_of kw_mut = mut
capability_of kw_tmp = tmp
capability_of kw_iso = iso
capability_of kw_imm = imm
capability_of kw_pau = paused
capability_of kw_cown = cown
capability_of _ = no_capability

abbrev pub is_none : Capability → Bool
is_none no_capability = true
is_none _ = false

-- `switch (peek().kind)`: a capability is taken where there is one.
unfoldable pub parse_capability : M Capability
unfolding capability_of skip
parse_capability = do
  c ← asks λ s. capability_of (peek s).kind
  if is_none c then pure c else (do skip; pure c)

-- `path.back()`, of a path that is not empty.
abbrev pub back : List Text → Text
back [] = []
back (t ∷ []) = t
back (t ∷ u ∷ ts) = back (u ∷ ts)

abbrev pub type_info :
    ℕ → SourceLocation → SourceLocation → Capability → List Text → Bool → TypeInfo
type_info id begin end c path optional = record {
  node = record { id = id; span = span begin end };
  capability = c;
  name = back path;
  path = path;
  optional = optional;
}

-- A type that is a path, or a capability alone, behind the capability.
unfoldable pub parse_named_type : ℕ → ℕ → SourceLocation → Capability → M TypeRef
unfolding parse_path
parse_named_type f id begin c =
    when (at identifier)
      (do
        path ← parse_path f type_path
        optional ← consume question
        end ← here
        pure (plain (type_info id begin end c path optional)))
      (if is_none c
        then (do
          error_here "expected type name"
          pure (plain (type_info id begin origin c [] false)))
        else (do end ← here; pure (plain (type_info id begin end c [] false))))

unfoldable pub parse_type_ref : ℕ → M TypeRef
parse_type_ref zero s = none
parse_type_ref (suc f) s =
    (do
      id ← next_node_id
      begin ← here
      c ← parse_capability
      bracket ← consume l_bracket
      if bracket
          then (do
            element ← parse_type_ref f
            expect r_bracket "expected ']' after array element type"
            end ← here
            pure (array (type_info id begin end c [] false) element))
          else parse_named_type (suc f) id begin c)
      s
