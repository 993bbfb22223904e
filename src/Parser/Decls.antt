-- ===== src/Parser/Decls.antt =====
-- src/parser/Parser.cpp: declarations and the source file. The fuel of a loop over declarations is
-- handed on whole to the blocks in them.
use gura.Prelude.{
  ℕ, zero, suc, ◌+◌, ◌*◌, Bool, true, false, not, ◌||◌, ◌&&◌, Option, none, some, List, [], ◌∷◌,
  if◌then◌else◌, String, length,
}
use gura.Basic.{origin, SourceLocation, Span, empty_span, codes, same_text}
use gura.Ast.{
  Text, Node, block_node, type_info, ImportDecl, Param, TraitBound, GenericParam, FnDecl, FieldDecl,
  StructDecl, TraitDecl, ImplDecl, Decl, fn_decl, struct_decl, trait_decl, impl_decl, SourceFile,
}
use gura.Lexer.Tokens.{Token}
use gura.Lexer.Tokens.{
  end_of_file, identifier, kw_module, kw_import, kw_as, kw_fn, kw_new, kw_struct, kw_trait, kw_impl,
  kw_let, kw_var, l_paren, r_paren, l_brace, r_brace, less, greater, comma, colon, semicolon, plus,
}
use gura.Parser.{
  Parser, parser, M, ◌>>=◌, ◌>>◌, pure, when, at, peek, advance, skip, consume, error_here, expect,
  next_node_id, here, here_end, span, is_kind,
}
use gura.Parser.Types.{parse_path, parse_type_ref, module_path, import_path}
use gura.Parser.Exprs.{parse_block}

abbrev node : ℕ → SourceLocation → SourceLocation → Node
node id begin end = record { id = id; span = span begin end }

-- `do … while (consume(TokenKind::Comma))` over parameters
unfoldable pub parse_params : (block_fuel : ℕ) → ℕ → M (List Param)
parse_params b zero s = none
parse_params b (suc f) s =
    when (at identifier)
      (do
        t ← advance
        expect colon "expected ':' after parameter name"
        type ← parse_type_ref b
        more ← consume comma
        rest ← if more then parse_params b f else pure []
        pure (record { name = t.text; type = type } ∷ rest))
      (do error_here "expected parameter name"; pure []) s

-- `do … while (consume(TokenKind::Plus))` over trait bounds
unfoldable pub parse_bounds : ℕ → M (List TraitBound)
parse_bounds zero s = none
parse_bounds (suc f) s =
    (do
      begin ← here
      when (at identifier)
          (do
            t ← advance
            end ← here
            more ← consume plus
            rest ← if more then parse_bounds f else pure []
            pure (record { name = t.text; span = span begin end } ∷ rest))
          (do error_here "expected trait bound name"; pure []))
      s

-- `bounds.back().span.end`, where there is one.
abbrev bounds_end : List TraitBound → SourceLocation → SourceLocation
bounds_end [] d = d
bounds_end (b ∷ []) d = b.span.end
bounds_end (b ∷ c ∷ bs) d = bounds_end (c ∷ bs) d

unfoldable pub parse_generic_param : ℕ → M GenericParam
unfolding parse_bounds
parse_generic_param f = do
  begin ← here
  when (at identifier)
      (do
        t ← advance
        expect colon "expected ':' after generic parameter name"
        bounds ← parse_bounds f
        after ← here
        pure (record {
          name = t.text;
          bounds = bounds;
          span = span begin (bounds_end bounds after);
        }))
      (do
        error_here "expected generic parameter name"
        pure (record { name = []; bounds = []; span = span begin origin }))

-- `do … while (consume(TokenKind::Comma))` over generic parameters
unfoldable pub generic_param_list : ℕ → M (List GenericParam)
generic_param_list zero s = none
generic_param_list (suc f) s =
    (do
      p ← parse_generic_param (suc f)
      more ← consume comma
      rest ← if more then generic_param_list f else pure []
      pure (p ∷ rest))
      s

unfoldable pub parse_generic_params : ℕ → M (List GenericParam)
unfolding generic_param_list
parse_generic_params f = do
  expect less "expected '<' before generic parameter list"
  ps ← when (at greater) (pure []) (generic_param_list f)
  expect greater "expected '>' after generic parameter list"
  pure ps

-- `parseFnDecl` from the name on.
unfoldable pub fn_rest : ℕ → Bool → SourceLocation → ℕ → M FnDecl
unfolding parse_generic_params parse_params
fn_rest f require_body begin id = do
  t ← advance
  generics ← when (at less) (parse_generic_params f) (pure [])
  expect l_paren "expected '(' after function name"
  params ← when (at r_paren) (pure []) (parse_params f f)
  expect r_paren "expected ')' after parameter list"
  typed ← consume colon
  return_type ← if typed then (do ty ← parse_type_ref f; pure (some ty)) else pure none
  body ← when (λ s. require_body || at l_brace s) (do b ← parse_block f; pure (some b)) (pure none)
  after ← here
  pure (record {
    node = node id begin (elim body [ none ↦ after | some b ↦ (block_node b).span.end ]);
    name = t.text;
    generic_params = generics;
    params = params;
    return_type = return_type;
    body = body;
  })

unfoldable pub parse_fn_decl : ℕ → Bool → M FnDecl
unfolding fn_rest
parse_fn_decl f require_body = do
  keyword ← advance
  id ← next_node_id
  when (λ s. at identifier s || at kw_new s) (fn_rest f require_body keyword.span.begin id)
      (do
        error_here "expected function name"
        pure (record {
          node = record { id = id; span = empty_span };
          name = [];
          generic_params = [];
          params = [];
          return_type = none;
          body = none;
        }))

-- A field whose type is missing, with the span that it has then.
abbrev bare_field : ℕ → SourceLocation → Bool → FieldDecl
bare_field id begin is_var = record {
  node = node id begin origin;
  is_var = is_var;
  name = [];
  type = none;
}

-- `parseFieldDecl` behind `let` or `var`.
unfoldable pub field_rest : ℕ → ℕ → SourceLocation → Bool → M FieldDecl
field_rest f id begin is_var =
    when (at identifier)
      (do
        t ← advance
        expect colon "expected ':' after field name"
        type ← parse_type_ref f
        pure (record {
          node = node id begin (type_info type).node.span.end;
          is_var = is_var;
          name = t.text;
          type = some type;
        }))
      (do error_here "expected field name"; pure (bare_field id begin is_var))

unfoldable pub parse_field_decl : ℕ → M FieldDecl
unfolding field_rest
parse_field_decl f = do
  id ← next_node_id
  begin ← here
  when (λ s. not (at kw_let s) && not (at kw_var s))
      (do error_here "expected field declaration"; skip; pure (bare_field id begin false))
      (do keyword ← advance; field_rest f id begin (is_kind keyword.kind kw_var))

-- `while (!at(RBrace) && !at(EndOfFile))` of `parseStructDecl`: the fields and the methods.
unfoldable pub struct_members : ℕ → ℕ → M (List FieldDecl × List FnDecl)
struct_members b zero s = none
struct_members b (suc f) s =
    when (λ t. at r_brace t || at end_of_file t) (pure ([], []))
      (when (at kw_fn)
        (do
          m ← parse_fn_decl b true
          (fields, methods) ← struct_members b f
          pure (fields, m ∷ methods))
        (do
          d ← parse_field_decl b
          separated ← consume semicolon
          (fields, methods) ← struct_members b f
          pure (d ∷ fields, methods)))
      s

unfoldable pub parse_struct_decl : ℕ → M StructDecl
unfolding struct_members parse_fn_decl parse_field_decl
parse_struct_decl f = do
  keyword ← advance
  id ← next_node_id
  when (at identifier)
      (do
        t ← advance
        expect l_brace "expected '{' after struct name"
        (fields, methods) ← struct_members f f
        end ← here_end
        expect r_brace "expected '}' after struct body"
        pure (record {
          node = node id keyword.span.begin end;
          name = t.text;
          fields = fields;
          methods = methods;
        }))
      (do
        error_here "expected struct name"
        pure (record {
          node = record { id = id; span = empty_span };
          name = [];
          fields = [];
          methods = [];
        }))

-- `while (!at(RBrace) && !at(EndOfFile))` of `parseTraitDecl` and `parseImplDecl`: what is no
-- method is skipped with the message; behind a signature a semicolon may stand.
unfoldable pub method_list : (is_trait : Bool) → String → ℕ → ℕ → M (List FnDecl)
method_list is_trait message b zero s = none
method_list is_trait message b (suc f) s =
    when (λ t. at r_brace t || at end_of_file t) (pure [])
      (when (at kw_fn)
        (do
          m ← parse_fn_decl b (not is_trait)
          if is_trait then (do separated ← consume semicolon; pure tt) else pure tt
          rest ← method_list is_trait message b f
          pure (m ∷ rest))
        (do error_here message; skip; method_list is_trait message b f))
      s

unfoldable pub parse_trait_decl : ℕ → M TraitDecl
unfolding method_list parse_fn_decl
parse_trait_decl f = do
  keyword ← advance
  id ← next_node_id
  when (at identifier)
      (do
        t ← advance
        expect l_brace "expected '{' after trait name"
        methods ← method_list true "expected method signature" f f
        end ← here_end
        expect r_brace "expected '}' after trait body"
        pure (record { node = node id keyword.span.begin end; name = t.text; methods = methods }))
      (do
        error_here "expected trait name"
        pure (record { node = record { id = id; span = empty_span }; name = []; methods = [] }))

abbrev impl_decl_of : Node → Text → Option Text → List FnDecl → ImplDecl
impl_decl_of n type_name trait_name methods = record {
  node = n;
  type_name = type_name;
  trait_name = trait_name;
  methods = methods;
}

-- The body of an `impl`, behind its brace.
unfoldable pub impl_body : ℕ → SourceLocation → ℕ → Text → Option Text → M ImplDecl
unfolding method_list parse_fn_decl
impl_body f begin id type_name trait_name = do
  methods ← method_list false "expected method declaration" f f
  end ← here_end
  expect r_brace "expected '}' after impl body"
  pure (impl_decl_of (node id begin end) type_name trait_name methods)

-- The word `for` is an identifier of the lexer.
unfoldable pub at_for : Parser → Bool
at_for s = at identifier s && same_text (peek s).text (codes "for")

-- `parseImplDecl` behind the first name.
unfoldable pub impl_rest : ℕ → SourceLocation → ℕ → Text → M ImplDecl
unfolding impl_body at_for
impl_rest f begin id first_name =
    when at_for
      (do
        skip
        when (at identifier)
            (do
              t ← advance
              expect l_brace "expected '{' after impl target type name"
              impl_body f begin id t.text (some first_name))
            (do
              error_here "expected impl target type name"
              pure (impl_decl_of (record { id = id; span = empty_span }) [] (some first_name) [])))
      (do expect l_brace "expected '{' after impl type name"; impl_body f begin id first_name none)

unfoldable pub parse_impl_decl : ℕ → M ImplDecl
unfolding impl_rest
parse_impl_decl f = do
  keyword ← advance
  id ← next_node_id
  when (at identifier) (do t ← advance; impl_rest f keyword.span.begin id t.text)
      (do
        error_here "expected impl type name"
        pure (impl_decl_of (record { id = id; span = empty_span }) [] none []))

unfoldable pub parse_decl : ℕ → M (Option Decl)
unfolding parse_fn_decl parse_struct_decl parse_trait_decl parse_impl_decl
parse_decl f =
    when (at kw_fn) (do d ← parse_fn_decl f true; pure (some (fn_decl d)))
      (when (at kw_struct) (do d ← parse_struct_decl f; pure (some (struct_decl d)))
        (when (at kw_trait) (do d ← parse_trait_decl f; pure (some (trait_decl d)))
          (when (at kw_impl) (do d ← parse_impl_decl f; pure (some (impl_decl d)))
            (do error_here "expected declaration"; pure none))))

-- The path of the header, with the span that the file gets from it.
unfoldable pub parse_module_header : ℕ → M (List Text × Span)
unfolding parse_path
parse_module_header f = do
  keyword ← advance
  path ← parse_path f module_path
  end ← here
  pure (path, span keyword.span.begin end)

unfoldable pub parse_import : ℕ → M ImportDecl
unfolding parse_path
parse_import f = do
  keyword ← advance
  path ← parse_path f import_path
  aliased ← consume kw_as
  alias ←
      if aliased
      then when (at identifier) (do t ← advance; pure (some t.text))
          (do error_here "expected import alias after 'as'"; pure none)
      else pure none
  end ← here
  pure (record { path = path; alias = alias; span = span keyword.span.begin end })

-- `while (at(TokenKind::KwImport))` of `parseSourceFile`
unfoldable pub import_list : ℕ → ℕ → M (List ImportDecl)
import_list b zero s = none
import_list b (suc f) s =
    when (at kw_import) (do i ← parse_import b; rest ← import_list b f; pure (i ∷ rest)) (pure []) s

-- A token is skipped where there is no declaration.
abbrev pub decl_next : Option Decl → M (List Decl) → M (List Decl)
decl_next none rest = do skip; rest
decl_next (some d) rest = do ds ← rest; pure (d ∷ ds)

-- A round of `while (!at(TokenKind::EndOfFile))` of `parseSourceFile`; `rest` is the rounds after it.
unfoldable pub decl_round : ℕ → M (List Decl) → M (List Decl)
decl_round b rest = when (at end_of_file) (pure []) (
    when (at kw_module)
      (do error_here "module declaration must appear before imports and declarations"; skip; rest)
      (when (at kw_import)
        (do error_here "import declaration must appear before declarations"; skip; rest)
        (do d ← parse_decl b; decl_next d rest)))

unfoldable pub decl_list : ℕ → ℕ → M (List Decl)
unfolding decl_round
decl_list b zero s = none
decl_list b (suc f) s = decl_round b (decl_list b f) s

unfoldable pub parse_source_file : ℕ → M SourceFile
unfolding parse_module_header import_list parse_import decl_list decl_round parse_decl
parse_source_file f = do
  id ← next_node_id
  header ← when (at kw_module) (do h ← parse_module_header f; pure (some h)) (pure none)
  imports ← import_list f f
  declarations ← decl_list f f
  pure (record {
    node = record { id = id; span = elim header [ none ↦ empty_span | some h ↦ h.1 ] };
    explicit_module = elim header [ none ↦ none | some h ↦ some h.0 ];
    resolved_module = elim header [ none ↦ [] | some h ↦ h.0 ];
    imports = imports;
    declarations = declarations;
  })

-- The fuel that is enough for this many tokens.
abbrev pub fuel_for : List Token → ℕ
fuel_for tokens = 16 * length tokens + 16

-- `Parser(tokens, diagnostics).parseSourceFile()`
unfoldable pub parse_file : List Token → Option (SourceFile × Parser)
unfolding parse_source_file
parse_file tokens = parse_source_file (fuel_for tokens) (parser tokens)
