-- ===== src/Parser/Exprs.antt =====
-- src/parser/Parser.cpp: blocks and expressions. Each call on the way down costs a unit of fuel.
use gura.Prelude.{
  ℕ, zero, suc, ◌+◌, ◌-◌, Bool, true, false, not, ◌&&◌, ◌||◌, none, some, [], leb, if◌then◌else◌,
  String, length, drop,
}
use gura.Basic.{origin, SourceLocation, empty_span, codes, same_text}
use gura.Ast.{
  Text, Node, plain, Capability, Expr, Block, Exprs, FieldInits, LiteralKind, RegionKind, expr_node,
  is_null, is_target, block_node, block_expr, no_exprs, exprs, no_inits, inits, iso,
}
use gura.Ast.Expr.{
  null, literal, name, binary, assign, field_access, array_literal, index, binding, move, new, call,
  freeze, merge, if_expr, while_expr, block, region, return,
}
use gura.Lexer.Tokens.{Token, TokenKind}
use gura.Lexer.Tokens.{
  end_of_file, identifier, integer_literal, float_literal, string_literal, char_literal, kw_true,
  kw_false, kw_none, kw_let, kw_var, kw_move, kw_new, kw_enter, kw_explore, kw_freeze, kw_merge,
  kw_return, kw_if, kw_else, kw_while, kw_as, l_paren, r_paren, l_brace, r_brace, l_bracket,
  r_bracket, comma, dot, colon, semicolon, question, plus, minus, star, slash, percent, equal,
  equal_equal, bang_equal, less, less_equal, greater, greater_equal,
}
use gura.Parser.{
  Parser, M, ◌>>=◌, ◌>>◌, pure, asks, when, at, peek, advance, skip, consume, error_here, error_at,
  expect, next_node_id, here, here_end, span, is_kind,
}
use gura.Parser.Types.{parse_capability, parse_type_ref}

-- `text.ends_with(suffix)`, for a suffix of three characters.
unfoldable pub ends_with : Text → Text → Bool
ends_with text suffix = leb 3 (length text) && same_text (drop (length text - 3) text) suffix

unfoldable pub numeric_suffix : Text → LiteralKind → Text
unfolding ends_with
numeric_suffix text LiteralKind.integer =
    if ends_with text (codes "i32") || ends_with text (codes "i64")
    then drop (length text - 3) text
    else []
numeric_suffix text LiteralKind.float =
    if ends_with text (codes "f32") || ends_with text (codes "f64")
    then drop (length text - 3) text
    else []
numeric_suffix text _ = []

unfoldable pub binary_precedence : TokenKind → ℕ
binary_precedence equal_equal = 1
binary_precedence bang_equal = 1
binary_precedence less = 1
binary_precedence less_equal = 1
binary_precedence greater = 1
binary_precedence greater_equal = 1
binary_precedence plus = 2
binary_precedence minus = 2
binary_precedence star = 3
binary_precedence slash = 3
binary_precedence percent = 3
binary_precedence _ = 0

-- The kind of literal that a token is.
unfoldable pub literal_kind : TokenKind → LiteralKind
literal_kind integer_literal = LiteralKind.integer
literal_kind float_literal = LiteralKind.float
literal_kind string_literal = LiteralKind.string
literal_kind char_literal = LiteralKind.char
literal_kind kw_none = LiteralKind.none_literal
literal_kind _ = LiteralKind.bool

unfoldable pub at_literal : Parser → Bool
at_literal s =
    at integer_literal s
    || (at float_literal s
        || (at string_literal s
            || (at char_literal s || (at kw_true s || (at kw_false s || at kw_none s)))))

abbrev pub is_iso : Capability → Bool
is_iso iso = true
is_iso _ = false

-- `{ span begin end }` and the node of an expression.
abbrev pub node : ℕ → SourceLocation → SourceLocation → Node
node id begin end = record { id = id; span = span begin end }

-- `e ? e->span.end : peek().span.end`
unfoldable pub end_of : Expr → M SourceLocation
unfolding expr_node
end_of e = if is_null e then here_end else pure (expr_node e).span.end

-- `e ? e->span.begin : peek().span.begin`
unfoldable pub begin_of : Expr → M SourceLocation
unfolding expr_node
begin_of e = if is_null e then here else pure (expr_node e).span.begin

-- A name that must follow, taken where it does; the message if not.
unfoldable pub take_name : String → M Text
take_name message =
    when (at identifier) (do t ← advance; pure t.text) (do error_here message; pure [])

unfoldable pub parse_name : M Expr
parse_name = do
  id ← next_node_id
  t ← advance
  pure (name (record { id = id; span = t.span }) t.text)

unfoldable pub parse_literal : M Expr
unfolding literal_kind numeric_suffix
parse_literal = do
  id ← next_node_id
  t ← advance
  pure (
      literal (record { id = id; span = t.span }) (literal_kind t.kind) t.text
        (numeric_suffix t.text (literal_kind t.kind)))

-- `<` and `>` round the name of a region allocation strategy, where they stand.
unfoldable pub parse_strategy : Capability → M Text
unfolding take_name
parse_strategy c = do
  angled ← consume less
  if angled
      then (do
        if is_iso c then pure tt else error_here "region allocation strategy requires 'iso'"
        strategy ← take_name "expected region allocation strategy name"
        expect greater "expected '>' after region allocation strategy"
        pure strategy)
      else pure []

-- `.` and the name of a field behind the object `e`.
unfoldable pub field_postfix : Expr → M Expr
field_postfix e = do
  skip
  id ← next_node_id
  field ←
      when (λ t. at identifier t || at kw_new t) (do t ← advance; pure t.text)
        (do error_here "expected field name after '.'"; pure [])
  end ← here
  pure (field_access (node id (expr_node e).span.begin end) e field)

-- The separators and brackets of a list in brackets: nothing between them, or entries and commas.
abbrev unless_at {ℓ} : {A : Type ℓ} → TokenKind → A → M A → M A
unless_at kind empty entries = when (at kind) (pure empty) entries

unfoldable mutual
  pub parse_block : ℕ → M Block
  parse_block zero s = none
  parse_block (suc f) s =
      (do
        begin ← here
        expect l_brace "expected block"
        id ← next_node_id
        es ← block_loop f
        end ← here_end
        expect r_brace "expected '}' after block"
        pure (block_expr (node id begin end) es))
        s

  -- `while (!at(RBrace) && !at(EndOfFile))` of `parseBlock`
  pub block_loop : ℕ → M Exprs
  block_loop zero s = none
  block_loop (suc f) s =
      when (λ t. at r_brace t || at end_of_file t) (pure no_exprs)
        (do
          e ← parse_expr f
          when (λ t. is_null e && not (at r_brace t || at end_of_file t)) skip (pure tt)
          separated ← consume semicolon
          es ← block_loop f
          pure (if is_null e then es else exprs e es))
        s

  pub parse_expr : ℕ → M Expr
  parse_expr zero s = none
  parse_expr (suc f) s =
      when (λ t. at kw_let t || at kw_var t) (parse_binding_expr f)
        (when (at kw_return) (parse_return_expr f) (parse_assign_expr f)) s

  pub parse_assign_expr : ℕ → M Expr
  parse_assign_expr zero s = none
  parse_assign_expr (suc f) s =
      (do
        lhs ← parse_binary_expr f 1
        assigned ← consume equal
        if assigned then assign_rest f lhs else pure lhs)
        s

  -- `parseAssignExpr` behind its `=`
  pub assign_rest : ℕ → Expr → M Expr
  assign_rest zero lhs s = none
  assign_rest (suc f) lhs s =
      (do
        at_span ← asks λ t. if is_null lhs then (peek t).span else (expr_node lhs).span
        if is_target lhs
            then pure tt
            else error_at at_span "assignment target must be a binding, field, or index"
        id ← next_node_id
        begin ← begin_of lhs
        value ← parse_assign_expr f
        end ← end_of value
        pure (assign (node id begin end) lhs value))
        s

  pub parse_binary_expr : ℕ → ℕ → M Expr
  parse_binary_expr zero min_precedence s = none
  parse_binary_expr (suc f) min_precedence s =
      (do lhs ← parse_postfix_expr f; binary_loop f min_precedence lhs) s

  -- `while (lhs)` of `parseBinaryExpr`
  pub binary_loop : ℕ → ℕ → Expr → M Expr
  binary_loop zero min_precedence lhs s = none
  binary_loop (suc f) min_precedence lhs s =
      when (λ t. is_null lhs || not (leb min_precedence (binary_precedence (peek t).kind)))
        (pure lhs)
        (do
          op ← advance
          rhs ← parse_binary_expr f (binary_precedence op.kind + 1)
          id ← next_node_id
          binary_loop f min_precedence (
              binary
                (node id (expr_node lhs).span.begin
                  (if is_null rhs then op.span.end else (expr_node rhs).span.end))
                op.text lhs rhs))
        s

  pub parse_return_expr : ℕ → M Expr
  parse_return_expr zero s = none
  parse_return_expr (suc f) s =
      (do
        keyword ← advance
        id ← next_node_id
        value ← parse_expr f
        end ← end_of value
        pure (return (node id keyword.span.begin end) value))
        s

  pub parse_binding_expr : ℕ → M Expr
  parse_binding_expr zero s = none
  parse_binding_expr (suc f) s =
      (do
        keyword ← advance
        id ← next_node_id
        when (at identifier) (binding_rest f keyword id) (do
          error_here "expected binding name"
          pure (
              binding (record { id = id; span = empty_span }) (is_kind keyword.kind kw_var) [] none
                null)))
        s

  -- `parseBindingExpr` from its name on
  pub binding_rest : ℕ → Token → ℕ → M Expr
  binding_rest zero keyword id s = none
  binding_rest (suc f) keyword id s =
      (do
        t ← advance
        typed ← consume colon
        type ← if typed then (do ty ← parse_type_ref f; pure (some ty)) else pure none
        expect equal "expected '=' in binding"
        initializer ← parse_expr f
        end ← end_of initializer
        pure (
            binding (node id keyword.span.begin end) (is_kind keyword.kind kw_var) t.text type
              initializer))
        s

  pub parse_postfix_expr : ℕ → M Expr
  parse_postfix_expr zero s = none
  parse_postfix_expr (suc f) s = (do e ← parse_primary_expr f; postfix_loop f e) s

  -- `while (expr && …)` of `parsePostfixExpr`
  pub postfix_loop : ℕ → Expr → M Expr
  postfix_loop zero e s = none
  postfix_loop (suc f) e s =
      (if is_null e
          then pure e
          else (when (at l_paren) (do e' ← call_postfix f e; postfix_loop f e')
              (when (at l_bracket) (do e' ← index_postfix f e; postfix_loop f e')
                (when (at dot) (do e' ← field_postfix e; postfix_loop f e') (pure e)))))
        s

  pub call_postfix : ℕ → Expr → M Expr
  call_postfix zero e s = none
  call_postfix (suc f) e s =
      (do
        id ← next_node_id
        arguments ← parse_call_arguments f
        end ← here
        pure (call (node id (expr_node e).span.begin end) e arguments))
        s

  pub index_postfix : ℕ → Expr → M Expr
  index_postfix zero e s = none
  index_postfix (suc f) e s =
      (do
        skip
        id ← next_node_id
        i ← parse_expr f
        end ← here_end
        expect r_bracket "expected ']' after index expression"
        pure (index (node id (expr_node e).span.begin end) e i))
        s

  pub parse_call_arguments : ℕ → M Exprs
  parse_call_arguments zero s = none
  parse_call_arguments (suc f) s =
      (do
        expect l_paren "expected '('"
        es ← unless_at r_paren no_exprs (expr_list f)
        expect r_paren "expected ')' after arguments"
        pure es)
        s

  -- `do … while (consume(TokenKind::Comma))` over expressions
  pub expr_list : ℕ → M Exprs
  expr_list zero s = none
  expr_list (suc f) s =
      (do
        e ← parse_expr f
        more ← consume comma
        if more then (do es ← expr_list f; pure (exprs e es)) else pure (exprs e no_exprs))
        s

  pub parse_primary_expr : ℕ → M Expr
  parse_primary_expr zero s = none
  parse_primary_expr (suc f) s =
      (when (at identifier) parse_name (
          when at_literal parse_literal (
            when (at l_brace) (do b ← parse_block f; pure (block b))
              (when (at l_bracket) (parse_array f) (
                when (at l_paren) (parse_parenthesised f) (
                  when (at kw_move) (parse_move_expr f) (
                    when (at kw_new) (parse_new_expr f) (
                      when (at kw_freeze) (parse_freeze_expr f) (
                        when (at kw_merge) (parse_merge_expr f) (
                          when (at kw_if) (parse_if_expr f) (
                            when (at kw_while) (parse_while_expr f) (
                              when (at kw_enter) (parse_region_expr f RegionKind.enter) (
                                when (at kw_explore) (parse_region_expr f RegionKind.explore)
                                  (do error_here "expected expression"; pure null))))))))))))))
        s

  pub parse_array : ℕ → M Expr
  parse_array zero s = none
  parse_array (suc f) s =
      (do
        bracket ← advance
        id ← next_node_id
        es ← unless_at r_bracket no_exprs (expr_list f)
        end ← here_end
        expect r_bracket "expected ']' after array literal"
        pure (array_literal (node id bracket.span.begin end) es))
        s

  pub parse_parenthesised : ℕ → M Expr
  parse_parenthesised zero s = none
  parse_parenthesised (suc f) s =
      (do skip; e ← parse_expr f; expect r_paren "expected ')' after expression"; pure e) s

  pub parse_move_expr : ℕ → M Expr
  parse_move_expr zero s = none
  parse_move_expr (suc f) s =
      (do
        keyword ← advance
        id ← next_node_id
        value ← parse_primary_expr f
        end ← end_of value
        pure (move (node id keyword.span.begin end) value))
        s

  pub parse_new_expr : ℕ → M Expr
  parse_new_expr zero s = none
  parse_new_expr (suc f) s =
      (do
        keyword ← advance
        id ← next_node_id
        type_id ← next_node_id
        begin ← here
        c ← parse_capability
        strategy ← parse_strategy c
        type_name ← take_name "expected type name"
        optional ← consume question
        end ← here
        when (at l_paren) (do dropped ← parse_call_arguments f; pure tt) (pure tt)
        braced ← consume l_brace
        fields ← if braced then parse_field_inits f else pure no_inits
        after ← here
        pure (
            new (node id keyword.span.begin after)
              (plain (record {
                node = node type_id begin end;
                capability = c;
                name = type_name;
                path = [];
                optional = optional;
              }))
              strategy fields))
        s

  -- The field initialisers behind `{`.
  pub parse_field_inits : ℕ → M FieldInits
  parse_field_inits zero s = none
  parse_field_inits (suc f) s =
      (do
        fields ← unless_at r_brace no_inits (field_init_list f)
        expect r_brace "expected '}' after field initializers"
        pure fields)
        s

  pub field_init_list : ℕ → M FieldInits
  field_init_list zero s = none
  field_init_list (suc f) s =
      (do
        (n, t, e) ← parse_field_init f
        more ← consume comma
        if more
            then (do fs ← field_init_list f; pure (inits n t e fs))
            else pure (inits n t e no_inits))
        s

  pub parse_field_init : ℕ → M (Node × Text × Expr)
  parse_field_init zero s = none
  parse_field_init (suc f) s =
      (do
        id ← next_node_id
        begin ← here
        when (at identifier)
            (do
              t ← advance
              expect colon "expected ':' after field name"
              value ← parse_expr f
              end ← end_of value
              pure (node id begin end, t.text, value))
            (do
              error_here "expected field name in initializer"
              pure (node id begin origin, [], null)))
        s

  -- `(` and an expression and `)`, or a primary expression.
  pub parse_operand : ℕ → String → M Expr
  parse_operand zero message s = none
  parse_operand (suc f) message s =
      (do
        parenthesised ← consume l_paren
        if parenthesised
            then (do e ← parse_expr f; expect r_paren message; pure e)
            else parse_primary_expr f)
        s

  pub parse_freeze_expr : ℕ → M Expr
  parse_freeze_expr zero s = none
  parse_freeze_expr (suc f) s =
      (do
        keyword ← advance
        id ← next_node_id
        value ← parse_operand f "expected ')' after freeze operand"
        end ← end_of value
        pure (freeze (node id keyword.span.begin end) value))
        s

  pub parse_merge_expr : ℕ → M Expr
  parse_merge_expr zero s = none
  parse_merge_expr (suc f) s =
      (do
        keyword ← advance
        id ← next_node_id
        value ← parse_operand f "expected ')' after merge operand"
        end ← end_of value
        pure (merge (node id keyword.span.begin end) value))
        s

  pub parse_if_expr : ℕ → M Expr
  parse_if_expr zero s = none
  parse_if_expr (suc f) s =
      (do
        keyword ← advance
        id ← next_node_id
        condition ← parse_expr f
        then_block ← parse_block f
        otherwise ← consume kw_else
        else_branch ←
            if otherwise
            then when (at kw_if) (parse_if_expr f) (do b ← parse_block f; pure (block b))
            else pure null
        pure (
            if_expr
              (node id keyword.span.begin (
                if is_null else_branch
                then (block_node then_block).span.end
                else (expr_node else_branch).span.end))
              condition then_block else_branch))
        s

  pub parse_while_expr : ℕ → M Expr
  parse_while_expr zero s = none
  parse_while_expr (suc f) s =
      (do
        keyword ← advance
        id ← next_node_id
        condition ← parse_expr f
        body ← parse_block f
        pure (while_expr (node id keyword.span.begin (block_node body).span.end) condition body))
        s

  pub parse_region_expr : ℕ → RegionKind → M Expr
  parse_region_expr zero kind s = none
  parse_region_expr (suc f) kind s =
      (do
        keyword ← advance
        id ← next_node_id
        source ← parse_expr f
        named ← consume kw_as
        binding_name ←
            if named
            then take_name "expected region binding name"
            else (do error_here "expected 'as' before region binding name"; pure [])
        body ← parse_block f
        pure (
            region (node id keyword.span.begin (block_node body).span.end) kind source binding_name
              body))
        s
