-- ===== src/Parser/ExprTotality.antt =====
-- src/parser/Parser.cpp: blocks and expressions, and the fuel that their parse takes.
use gura.Prelude.{
  ℕ, zero, suc, ◌+◌, ◌*◌, ◌≤◌, ◌<◌, ◌≡◌, refl, sym, ◌∙◌, Bool, true, false, not, ◌||◌, ◌&&◌, some,
  leb, inl, inr, ◌⊎◌, arith, Bool-cases, String,
}
use gura.Ast.{Capability, Expr, RegionKind, is_null, is_target}
use gura.Lexer.Tokens.{Token, TokenKind, ordinal}
use gura.Lexer.Tokens.{
  end_of_file, identifier, kw_let, kw_var, kw_move, kw_new, kw_enter, kw_explore, kw_freeze,
  kw_merge, kw_return, kw_if, kw_else, kw_while, kw_as, l_paren, r_paren, l_brace, r_brace,
  l_bracket, r_bracket, comma, dot, colon, semicolon, question, equal, less, greater,
}
use gura.Parser.{
  ◌>>=◌, Parser, M, pure, at, peek, is_kind, advance, skip, consume, next_node_id, here, here_end,
  when,
}
use gura.Parser.Runs.{
  Closed, left, Reads, Eats, ReadsExpr, Runs, runs, Runs-bind, Runs-map, Runs-if, advance-Runs,
  advance-Eats, skip-Eats, consume-Runs, error_at-Runs, error_here-Runs, id-Runs, id-at,
  expect-Runs, expect-Eats, at-other,
}
use gura.Parser.Totality.{Reads-make, parse_type_ref-Runs, capability-Runs}
use gura.Parser.Exprs.{
  parse_block, block_loop, parse_expr, parse_assign_expr, assign_rest, parse_binary_expr,
  binary_loop, parse_return_expr, parse_binding_expr, binding_rest, parse_postfix_expr,
  postfix_loop, call_postfix, index_postfix, field_postfix, parse_call_arguments, expr_list,
  parse_primary_expr, parse_array, parse_parenthesised, parse_move_expr, parse_new_expr,
  parse_field_inits, field_init_list, parse_field_init, parse_operand, parse_freeze_expr,
  parse_merge_expr, parse_if_expr, parse_while_expr, parse_region_expr, parse_name, parse_literal,
  at_literal, take_name, parse_strategy, end_of, begin_of, binary_precedence, is_iso,
}

-- Some expression, behind a token at least.
some_expr : {s t : Parser} {e : Expr} → Closed t → left t < left s → ReadsExpr s e t
some_expr c h = record { closed = c; le = omega arith; lt = λ _. h }

end_of-Runs : (e : Expr) (s : Parser) → Closed s → Runs (λ _ t. Reads s t) (end_of e s)
unfolding end_of here_end
end_of-Runs e s c =
    Runs-if (is_null e) _ _ (λ _. runs (Reads-make c (omega arith)))
      (λ _. runs (Reads-make c (omega arith)))

begin_of-Runs : (e : Expr) (s : Parser) → Closed s → Runs (λ _ t. Reads s t) (begin_of e s)
unfolding begin_of here
begin_of-Runs e s c =
    Runs-if (is_null e) _ _ (λ _. runs (Reads-make c (omega arith)))
      (λ _. runs (Reads-make c (omega arith)))

take_name-Runs : (m : String) (s : Parser) → Closed s → Runs (λ _ t. Reads s t) (take_name m s)
unfolding take_name
take_name-Runs m s c =
    Runs-if (at identifier s) _ _ (λ _. Runs-bind _ (advance-Runs s c) λ _ t q. runs q)
      (λ _. Runs-bind _ (error_here-Runs m s c) λ _ t q. runs q)

strategy-Runs :
    (p : Capability) (s : Parser) → Closed s → Runs (λ _ t. Reads s t) (parse_strategy p s)
unfolding parse_strategy ordinal is_kind
strategy-Runs p s c = Runs-bind _ (consume-Runs less s c refl) λ b t q.
    Runs-if b _ _
      (λ _.
        Runs-bind _
          (Runs-if {Q = λ _ u. Reads t u} (is_iso p) (pure tt) _
            (λ _. runs (Reads-make q.closed (omega arith))) (λ _. error_here-Runs _ t q.closed))
          λ _ u r. Runs-bind _ (take_name-Runs _ u r.closed) λ _ v w.
            Runs-bind _ (expect-Runs greater _ v w.closed refl)
              λ _ x y. runs (Reads-make y.closed (omega arith)))
      (λ _. runs (Reads-make q.closed q.le))

-- At a kind that is not the end of the file a keyword is taken, and then an id.
pub keyword-Runs :
    {B : Type 0} {Q : B → Parser → Type 0} (s : Parser) (k : Token → ℕ → M B)
    → Closed s
    → at end_of_file s ≡ false
    → ((t : Token) (id : ℕ) (u : Parser) → Eats s u → Runs Q (k t id u))
    → Runs Q ((do t ← advance; id ← next_node_id; k t id) s)
keyword-Runs s k c n f = Runs-bind _ (advance-Eats s c n) λ t u q.
    Runs-bind _ (id-Runs u q.closed)
      λ id v r. f t id v (record { closed = r.closed; lt = omega arith })

-- A node id, and a token that is not the end of the file.
token-Runs :
    {B : Type 0} {Q : B → Parser → Type 0} (s : Parser) (k : ℕ → Token → M B)
    → Closed s
    → at end_of_file s ≡ false
    → ((id : ℕ) (t : Token) (u : Parser) → Eats s u → Runs Q (k id t u))
    → Runs Q ((do id ← next_node_id; t ← advance; k id t) s)
token-Runs s k c n f = Runs-bind _ (id-at s c) λ id t (q, a).
    Runs-bind _ (advance-Eats t q.closed (a end_of_file ∙ n))
      λ tok u r. f id tok u (record { closed = r.closed; lt = omega arith })

name-Runs : (s : Parser) → Closed s → at end_of_file s ≡ false → Runs (ReadsExpr s) (parse_name s)
unfolding parse_name
name-Runs s c n = token-Runs s _ c n λ id t u q. runs (some_expr q.closed q.lt)

literal-Runs :
    (s : Parser) → Closed s → at end_of_file s ≡ false → Runs (ReadsExpr s) (parse_literal s)
unfolding parse_literal
literal-Runs s c n = token-Runs s _ c n λ id t u q. runs (some_expr q.closed q.lt)

at_literal-other : (s : Parser) → at_literal s ≡ true → at end_of_file s ≡ false
unfolding at_literal at is_kind ordinal
at_literal-other s h = ground arith

field-Runs :
    (e : Expr) (s : Parser)
    → Closed s
    → at end_of_file s ≡ false
    → Runs (λ e' t. Eats s t × (is_null e' ≡ false)) (field_postfix e s)
unfolding field_postfix here
field-Runs e s c n = Runs-bind _ (skip-Eats s c n) λ _ t q.
    Runs-bind _ (id-Runs t q.closed) λ id u r.
      Runs-bind _
        (Runs-if {Q = λ _ v. Reads u v} (at identifier u || at kw_new u) _ _
          (λ _. Runs-bind _ (advance-Runs u r.closed) λ tok v w. runs w)
          (λ _. Runs-bind _ (error_here-Runs _ u r.closed) λ _ v w. runs w))
        λ _ v w. runs (record { closed = w.closed; lt = omega arith }, refl)

-- The loops that end at `}` and at the end of the file.
abbrev stops : Parser → Bool
stops t = at r_brace t || at end_of_file t

stops-semicolon : (t : Parser) → stops t ≡ true → consume semicolon t ≡ some (false, t)
unfolding consume at is_kind ordinal
stops-semicolon t h = ground arith

precedence-end : (k : TokenKind) → is_kind k end_of_file ≡ true → binary_precedence k ≡ 0
unfolding is_kind ordinal binary_precedence
precedence-end end_of_file h = refl
precedence-end _ h = ground arith

-- The fuel that a loop needs which stops at once where `b` holds.
abbrev Fuel : Bool → ℕ → ℕ → Type 0
Fuel b n f = (0 < f) × (b ≡ false → n ≤ f)

precedence-more :
    (s : Parser) (m : ℕ)
    → 0 < m
    → leb m (binary_precedence (peek s).kind) ≡ true
    → at end_of_file s ≡ false
unfolding at
precedence-more s m h l = elim (Bool-cases (is_kind (peek s).kind end_of_file)) [
  | inl y ↦ let e = precedence-end (peek s).kind y in ground arith
  | inr n ↦ n
]

other :
    (k : TokenKind) (s : Parser)
    → at k s ≡ true
    → is_kind k end_of_file ≡ false
    → at end_of_file s ≡ false
other = at-other

-- Between two rounds of a block's loop: the loop stops, or a token has been taken since `s`.
record Recovers (s u : Parser) : Type 0 where
  closed : Closed u
  le : left u ≤ left s
  goes : (stops u ≡ true) ⊎ (left u < left s)

recover-Runs :
    (s t : Parser) (e : Expr)
    → ReadsExpr s e t
    → Runs
        (λ _ u. Recovers s u)
        (when (λ v. is_null e && not (at r_brace v || at end_of_file v)) skip (pure tt) t)
recover-Runs s t e q =
    Runs-if (is_null e && not (stops t)) _ _
      (λ y.
        Runs-map (skip-Eats t q.closed (ground arith))
          λ _ u r. record { closed = r.closed; le = omega arith; goes = inr (omega arith) })
      (λ n. runs (record {
        closed = q.closed;
        le = q.le;
        goes = elim (Bool-cases (is_null e)) [ inl y ↦ inl (ground arith) | inr z ↦ inr (q.lt z) ];
      }))

semicolon-Runs : (s u : Parser) → Recovers s u → Runs (λ _ v. Recovers s v) (consume semicolon u)
unfolding ordinal is_kind
semicolon-Runs s u q = elim q.goes [
  | inl y ↦ rw (stops-semicolon u y) (runs q)
  | inr l ↦
      Runs-map (consume-Runs semicolon u q.closed refl)
        λ _ v r. record { closed = r.closed; le = omega arith; goes = inr (omega arith) }
]

Recovers-Fuel :
    (s u : Parser) (f : ℕ) → Recovers s u → 16 * left s + 7 ≤ f → Fuel (stops u) (16 * left u + 8) f
Recovers-Fuel s u f q h = elim q.goes [
  | inl y ↦ (omega arith, λ n. cc)
  | inr l ↦ (omega arith, λ n. omega arith)
]

-- What a loop over operators or postfixes returns: an expression exactly if it was given one.
record Extends (e : Expr) (s : Parser) (e' : Expr) (t : Parser) : Type 0 where
  closed : Closed t
  le : left t ≤ left s
  same : is_null e' ≡ is_null e

Extends-more :
    (e : Expr) (s t u : Parser) (e' e'' : Expr)
    → is_null e ≡ false
    → Eats s t × (is_null e' ≡ false)
    → Extends e' t e'' u
    → Extends e s e'' u
Extends-more e s t u e' e'' n q r =
    let g = q.0 in record { closed = r.closed; le = omega arith; same = r.same ∙ q.1 ∙ sym n }

or-false : (a b : Bool) → (a || b) ≡ false → false ≡ a
or-false a b h = ground arith

let_or_var : (s : Parser) → (at kw_let s || at kw_var s) ≡ true → at end_of_file s ≡ false
unfolding at is_kind ordinal
let_or_var s h = ground arith

-- One induction on the fuel for all of expressions and blocks: sixteen units for each token that is
-- left, and a few more for the calls on the way down to the next token.
mutual
  unfolding parse_block here here_end ordinal is_kind

  block-Eats :
      (f : ℕ) (s : Parser)
      → Closed s
      → at l_brace s ≡ true
      → 16 * left s < f
      → Runs (λ _ t. Eats s t) (parse_block f s)
  block-Eats zero s c a h = absurd (omega arith)
  block-Eats (suc f) s c a h = Runs-bind _ (expect-Eats l_brace _ s c refl a) λ _ t q.
      Runs-bind _ (id-Runs t q.closed) λ id u r.
        Runs-bind _ (block_loop-Runs f u r.closed (omega arith, λ _. omega arith)) λ es v w.
          Runs-bind _ (expect-Runs r_brace _ v w.closed refl)
            λ _ x y. runs (record { closed = y.closed; lt = omega arith })

  pub block-Runs :
      (f : ℕ) (s : Parser)
      → Closed s
      → 16 * left s + 9 ≤ f
      → Runs (λ _ t. Reads s t) (parse_block f s)
  block-Runs zero s c h = absurd (omega arith)
  block-Runs (suc f) s c h = Runs-bind _ (expect-Runs l_brace _ s c refl) λ _ t q.
      Runs-bind _ (id-Runs t q.closed) λ id u r.
        Runs-bind _ (block_loop-Runs f u r.closed (omega arith, λ _. omega arith)) λ es v w.
          Runs-bind _ (expect-Runs r_brace _ v w.closed refl)
            λ _ x y. runs (Reads-make y.closed (omega arith))

  block_loop-Runs :
      (f : ℕ) (s : Parser)
      → Closed s
      → Fuel (stops s) (16 * left s + 8) f
      → Runs (λ _ t. Reads s t) (block_loop f s)
  block_loop-Runs zero s c h = absurd (omega arith)
  block_loop-Runs (suc f) s c h =
      Runs-if (stops s) _ _ (λ _. runs (Reads-make c (omega arith)))
        (λ n.
          let g = h.1 n in
          Runs-bind _ (expr-Runs f s c (omega arith)) λ e t q.
            Runs-bind _ (recover-Runs s t e q) λ _ u r. Runs-bind _ (semicolon-Runs s u r) λ _ v w.
              Runs-bind _ (block_loop-Runs f v w.closed (Recovers-Fuel s v f w (omega arith)))
                λ es x y. runs (Reads-make y.closed (omega arith)))

  expr-Runs :
      (f : ℕ) (s : Parser) → Closed s → 16 * left s + 6 ≤ f → Runs (ReadsExpr s) (parse_expr f s)
  expr-Runs zero s c h = absurd (omega arith)
  expr-Runs (suc f) s c h =
      Runs-if (at kw_let s || at kw_var s) _ _
        (λ y. binding-Runs f s c (let_or_var s y) (omega arith))
        (λ _.
          Runs-if (at kw_return s) _ _
            (λ y. return-Runs f s c (other kw_return s y refl) (omega arith))
            (λ _. assign-Runs f s c (omega arith)))

  assign-Runs :
      (f : ℕ) (s : Parser)
      → Closed s
      → 16 * left s + 5 ≤ f
      → Runs (ReadsExpr s) (parse_assign_expr f s)
  assign-Runs zero s c h = absurd (omega arith)
  assign-Runs (suc f) s c h =
      Runs-bind _ (binary-Runs f 1 s c (omega arith) (omega arith)) λ lhs t q.
        Runs-bind _ (consume-Runs equal t q.closed refl) λ b u r.
          Runs-if b _ _
            (λ y.
              let l = r.lt y in
              Runs-map (assign_rest-Runs f lhs u r.closed (omega arith))
                λ e v w. some_expr w.closed (omega arith))
            (λ n.
              runs
                (record { closed = r.closed; le = omega arith; lt = λ z. omega (arith, q.lt z) }))

  assign_rest-Runs :
      (f : ℕ) (lhs : Expr) (s : Parser)
      → Closed s
      → 16 * left s + 8 ≤ f
      → Runs (λ _ t. Reads s t) (assign_rest f lhs s)
  assign_rest-Runs zero lhs s c h = absurd (omega arith)
  assign_rest-Runs (suc f) lhs s c h =
      Runs-bind _
        (Runs-if {Q = λ _ t. Reads s t} (is_target lhs) (pure tt) _
          (λ _. runs (Reads-make c (omega arith))) (λ _. error_at-Runs _ _ s c))
        λ _ t q. Runs-bind _ (id-Runs t q.closed) λ id u r.
          Runs-bind _ (begin_of-Runs lhs u r.closed) λ b v w.
            Runs-bind _ (assign-Runs f v w.closed (omega arith)) λ value x y.
              Runs-bind _ (end_of-Runs value x y.closed)
                λ _ z k. runs (Reads-make k.closed (omega arith))

  binary-Runs :
      (f m : ℕ) (s : Parser)
      → Closed s
      → 0 < m
      → 16 * left s + 4 ≤ f
      → Runs (ReadsExpr s) (parse_binary_expr f m s)
  binary-Runs zero m s c p h = absurd (omega arith)
  binary-Runs (suc f) m s c p h = Runs-bind _ (postfix-Runs f s c (omega arith)) λ lhs t q.
      Runs-map (binary_loop-Runs f m lhs t q.closed p (omega arith, λ n. omega (arith, q.lt n)))
        λ e u r. record {
          closed = r.closed;
          le = omega arith;
          lt = λ n. omega (arith, q.lt (sym r.same ∙ n));
        }

  binary_loop-Runs :
      (f m : ℕ) (lhs : Expr) (s : Parser)
      → Closed s
      → 0 < m
      → Fuel (is_null lhs) (16 * left s + 15) f
      → Runs (λ e t. Extends lhs s e t) (binary_loop f m lhs s)
  binary_loop-Runs zero m lhs s c p h = absurd (omega arith)
  binary_loop-Runs (suc f) m lhs s c p h =
      Runs-if (is_null lhs || not (leb m (binary_precedence (peek s).kind))) _ _
        (λ _. runs (record { closed = c; le = omega arith; same = refl }))
        (λ n.
          let g = h.1 (ground arith) in
          let k : leb m (binary_precedence (peek s).kind) ≡ true = ground arith in
          Runs-bind _ (advance-Eats s c (precedence-more s m p k)) λ op t q.
            Runs-bind _
              (binary-Runs f (binary_precedence op.kind + 1) t q.closed (omega arith) (omega arith))
              λ rhs u r. Runs-bind _ (id-Runs u r.closed) λ id v w.
                Runs-map (binary_loop-Runs f m _ v w.closed p (omega arith, λ _. omega arith))
                  λ e x y. record {
                    closed = y.closed;
                    le = omega arith;
                    same = y.same ∙ or-false (is_null lhs) _ n;
                  })

  postfix-Runs :
      (f : ℕ) (s : Parser)
      → Closed s
      → 16 * left s + 3 ≤ f
      → Runs (ReadsExpr s) (parse_postfix_expr f s)
  postfix-Runs zero s c h = absurd (omega arith)
  postfix-Runs (suc f) s c h = Runs-bind _ (primary-Runs f s c (omega arith)) λ e t q.
      Runs-map (postfix_loop-Runs f e t q.closed (omega arith, λ n. omega (arith, q.lt n)))
        λ e' u r. record {
          closed = r.closed;
          le = omega arith;
          lt = λ n. omega (arith, q.lt (sym r.same ∙ n));
        }

  postfix_loop-Runs :
      (f : ℕ) (e : Expr) (s : Parser)
      → Closed s
      → Fuel (is_null e) (16 * left s + 15) f
      → Runs (λ e' t. Extends e s e' t) (postfix_loop f e s)
  postfix_loop-Runs zero e s c h = absurd (omega arith)
  postfix_loop-Runs (suc f) e s c h =
      Runs-if (is_null e) _ _ (λ _. runs (record { closed = c; le = omega arith; same = refl }))
        (λ n.
          let g = h.1 n in
          Runs-if (at l_paren s) _ _
            (λ y. Runs-bind _ (call-Runs f e s c y (omega arith)) λ e' t q.
              Runs-map (postfix_loop-Runs f e' t q.0.closed (omega arith, λ _. omega arith))
                λ e'' u r. Extends-more e s t u e' e'' n q r)
            (λ _.
              Runs-if (at l_bracket s) _ _
                (λ y.
                  Runs-bind _ (index-Runs f e s c (other l_bracket s y refl) (omega arith))
                    λ e' t q.
                      Runs-map (postfix_loop-Runs f e' t q.0.closed (omega arith, λ _. omega arith))
                        λ e'' u r. Extends-more e s t u e' e'' n q r)
                (λ _.
                  Runs-if (at dot s) _ _
                    (λ y. Runs-bind _ (field-Runs e s c (other dot s y refl)) λ e' t q.
                      Runs-map (postfix_loop-Runs f e' t q.0.closed (omega arith, λ _. omega arith))
                        λ e'' u r. Extends-more e s t u e' e'' n q r)
                    (λ _. runs (record { closed = c; le = omega arith; same = refl })))))

  call-Runs :
      (f : ℕ) (e : Expr) (s : Parser)
      → Closed s
      → at l_paren s ≡ true
      → 16 * left s + 1 < f
      → Runs (λ e' t. Eats s t × (is_null e' ≡ false)) (call_postfix f e s)
  call-Runs zero e s c a h = absurd (omega arith)
  call-Runs (suc f) e s c a h = Runs-bind _ (id-at s c) λ id t (q, k).
      Runs-bind _ (arguments-Runs f t q.closed (k l_paren ∙ a) (omega arith))
        λ es u r. runs (record { closed = r.closed; lt = omega arith }, refl)

  index-Runs :
      (f : ℕ) (e : Expr) (s : Parser)
      → Closed s
      → at end_of_file s ≡ false
      → 16 * left s < f
      → Runs (λ e' t. Eats s t × (is_null e' ≡ false)) (index_postfix f e s)
  index-Runs zero e s c a h = absurd (omega arith)
  index-Runs (suc f) e s c a h = Runs-bind _ (skip-Eats s c a) λ _ t q.
      Runs-bind _ (id-Runs t q.closed) λ id u r.
        Runs-bind _ (expr-Runs f u r.closed (omega arith)) λ i v w.
          Runs-bind _ (expect-Runs r_bracket _ v w.closed refl)
            λ _ x y. runs (record { closed = y.closed; lt = omega arith }, refl)

  arguments-Runs :
      (f : ℕ) (s : Parser)
      → Closed s
      → at l_paren s ≡ true
      → 16 * left s < f
      → Runs (λ _ t. Eats s t) (parse_call_arguments f s)
  arguments-Runs zero s c a h = absurd (omega arith)
  arguments-Runs (suc f) s c a h = Runs-bind _ (expect-Eats l_paren _ s c refl a) λ _ t q.
      Runs-bind _
        (Runs-if {Q = λ _ u. Reads t u} (at r_paren t) _ _
          (λ _. runs (Reads-make q.closed (omega arith)))
          (λ _. expr_list-Runs f t q.closed (omega arith)))
        λ es u r.
          Runs-bind _ (expect-Runs r_paren _ u r.closed refl)
            λ _ v w. runs (record { closed = w.closed; lt = omega arith })

  expr_list-Runs :
      (f : ℕ) (s : Parser)
      → Closed s
      → 16 * left s + 7 ≤ f
      → Runs (λ _ t. Reads s t) (expr_list f s)
  expr_list-Runs zero s c h = absurd (omega arith)
  expr_list-Runs (suc f) s c h = Runs-bind _ (expr-Runs f s c (omega arith)) λ e t q.
      Runs-bind _ (consume-Runs comma t q.closed refl) λ b u r.
        Runs-if b _ _
          (λ y.
            let l = r.lt y in
            Runs-bind _ (expr_list-Runs f u r.closed (omega arith))
              λ es v w. runs (Reads-make w.closed (omega arith)))
          (λ _. runs (Reads-make r.closed (omega arith)))

  primary-Runs :
      (f : ℕ) (s : Parser)
      → Closed s
      → 16 * left s + 2 ≤ f
      → Runs (ReadsExpr s) (parse_primary_expr f s)
  primary-Runs zero s c h = absurd (omega arith)
  primary-Runs (suc f) s c h =
      let o =
        λ (k : TokenKind) (y : at k s ≡ true) (n : is_kind k end_of_file ≡ false). other k s y n in
      Runs-if (at identifier s) _ _ (λ y. name-Runs s c (o identifier y refl))
        λ _.
          Runs-if (at_literal s) _ _ (λ y. literal-Runs s c (at_literal-other s y))
            λ _.
              Runs-if (at l_brace s) _ _
                (λ y.
                  Runs-bind _ (block-Eats f s c y (omega arith))
                    λ b t q. runs (some_expr q.closed q.lt))
                λ _.
                  Runs-if (at l_bracket s) _ _
                    (λ y. array-Runs f s c (o l_bracket y refl) (omega arith))
                    λ _.
                      Runs-if (at l_paren s) _ _
                        (λ y. parenthesised-Runs f s c (o l_paren y refl) (omega arith))
                        λ _.
                          Runs-if (at kw_move s) _ _
                            (λ y. move-Runs f s c (o kw_move y refl) (omega arith))
                            λ _.
                              Runs-if (at kw_new s) _ _
                                (λ y. new-Runs f s c (o kw_new y refl) (omega arith))
                                λ _.
                                  Runs-if (at kw_freeze s) _ _
                                    (λ y. freeze-Runs f s c (o kw_freeze y refl) (omega arith))
                                    λ _.
                                      Runs-if (at kw_merge s) _ _
                                        (λ y. merge-Runs f s c (o kw_merge y refl) (omega arith))
                                        λ _.
                                          Runs-if (at kw_if s) _ _
                                            (λ y. if-Runs f s c (o kw_if y refl) (omega arith))
                                            λ _.
                                              Runs-if (at kw_while s) _ _
                                                (λ y.
                                                  while-Runs f s c (o kw_while y refl)
                                                    (omega arith))
                                                λ _.
                                                  Runs-if (at kw_enter s) _ _
                                                    (λ y.
                                                      region-Runs f RegionKind.enter s c
                                                        (o kw_enter y refl) (omega arith))
                                                    λ _.
                                                      Runs-if (at kw_explore s) _ _
                                                        (λ y.
                                                          region-Runs f RegionKind.explore s c
                                                            (o kw_explore y refl) (omega arith))
                                                        λ _.
                                                          Runs-bind _ (error_here-Runs _ s c)
                                                            λ _ t q. runs (record {
                                                            closed = q.closed;
                                                            le = q.le;
                                                            lt = λ z. cc;
                                                            })

  array-Runs :
      (f : ℕ) (s : Parser)
      → Closed s
      → at end_of_file s ≡ false
      → 16 * left s < f
      → Runs (ReadsExpr s) (parse_array f s)
  array-Runs zero s c n h = absurd (omega arith)
  array-Runs (suc f) s c n h = keyword-Runs s _ c n λ k id t q.
      Runs-bind _
        (Runs-if {Q = λ _ u. Reads t u} (at r_bracket t) _ _
          (λ _. runs (Reads-make q.closed (omega arith)))
          (λ _. expr_list-Runs f t q.closed (omega arith)))
        λ es u r.
          Runs-bind _ (expect-Runs r_bracket _ u r.closed refl)
            λ _ v w. runs (some_expr w.closed (omega arith))

  parenthesised-Runs :
      (f : ℕ) (s : Parser)
      → Closed s
      → at end_of_file s ≡ false
      → 16 * left s < f
      → Runs (ReadsExpr s) (parse_parenthesised f s)
  parenthesised-Runs zero s c n h = absurd (omega arith)
  parenthesised-Runs (suc f) s c n h = Runs-bind _ (skip-Eats s c n) λ _ t q.
      Runs-bind _ (expr-Runs f t q.closed (omega arith)) λ e u r.
        Runs-bind _ (expect-Runs r_paren _ u r.closed refl)
          λ _ v w. runs (some_expr w.closed (omega arith))

  move-Runs :
      (f : ℕ) (s : Parser)
      → Closed s
      → at end_of_file s ≡ false
      → 16 * left s < f
      → Runs (ReadsExpr s) (parse_move_expr f s)
  move-Runs zero s c n h = absurd (omega arith)
  move-Runs (suc f) s c n h = keyword-Runs s _ c n λ k id t q.
      Runs-bind _ (primary-Runs f t q.closed (omega arith)) λ e u r.
        Runs-bind _ (end_of-Runs e u r.closed) λ _ v w. runs (some_expr w.closed (omega arith))

  return-Runs :
      (f : ℕ) (s : Parser)
      → Closed s
      → at end_of_file s ≡ false
      → 16 * left s < f
      → Runs (ReadsExpr s) (parse_return_expr f s)
  return-Runs zero s c n h = absurd (omega arith)
  return-Runs (suc f) s c n h = keyword-Runs s _ c n λ k id t q.
      Runs-bind _ (expr-Runs f t q.closed (omega arith)) λ e u r.
        Runs-bind _ (end_of-Runs e u r.closed) λ _ v w. runs (some_expr w.closed (omega arith))

  binding-Runs :
      (f : ℕ) (s : Parser)
      → Closed s
      → at end_of_file s ≡ false
      → 16 * left s < f
      → Runs (ReadsExpr s) (parse_binding_expr f s)
  binding-Runs zero s c n h = absurd (omega arith)
  binding-Runs (suc f) s c n h = keyword-Runs s _ c n λ k id t q.
      Runs-if (at identifier t) _ _
        (λ y.
          Runs-map (binding_rest-Runs f k id t q.closed (omega arith))
            λ e u r. some_expr r.closed (omega arith))
        (λ _.
          Runs-bind _ (error_here-Runs _ t q.closed)
            λ _ u r. runs (some_expr r.closed (omega arith)))

  binding_rest-Runs :
      (f : ℕ) (k : Token) (id : ℕ) (s : Parser)
      → Closed s
      → 16 * left s + 8 ≤ f
      → Runs (λ _ t. Reads s t) (binding_rest f k id s)
  binding_rest-Runs zero k id s c h = absurd (omega arith)
  binding_rest-Runs (suc f) k id s c h = Runs-bind _ (advance-Runs s c) λ tok t q.
      Runs-bind _ (consume-Runs colon t q.closed refl) λ b u r.
        Runs-bind _
          (Runs-if {Q = λ _ v. Reads u v} b _ _
            (λ _. Runs-bind _ (parse_type_ref-Runs f u r.closed (omega arith)) λ _ v w. runs w)
            (λ _. runs (Reads-make r.closed (omega arith))))
          λ ty v w. Runs-bind _ (expect-Runs equal _ v w.closed refl) λ _ x y.
            Runs-bind _ (expr-Runs f x y.closed (omega arith)) λ e x₁ y₁.
              Runs-bind _ (end_of-Runs e x₁ y₁.closed)
                λ _ x₂ y₂. runs (Reads-make y₂.closed (omega arith))

  new-Runs :
      (f : ℕ) (s : Parser)
      → Closed s
      → at end_of_file s ≡ false
      → 16 * left s < f
      → Runs (ReadsExpr s) (parse_new_expr f s)
  new-Runs zero s c n h = absurd (omega arith)
  new-Runs (suc f) s c n h = keyword-Runs s _ c n λ k id t q.
      Runs-bind _ (id-Runs t q.closed) λ id' t₁ q₁.
        Runs-bind _ (capability-Runs t₁ q₁.closed) λ p t₂ q₂.
          Runs-bind _ (strategy-Runs p t₂ q₂.closed) λ g t₃ q₃.
            Runs-bind _ (take_name-Runs _ t₃ q₃.closed) λ nm t₄ q₄.
              Runs-bind _ (consume-Runs question t₄ q₄.closed refl) λ b t₅ q₅.
                Runs-bind _
                  (Runs-if {Q = λ _ u. Reads t₅ u} (at l_paren t₅) _ _
                    (λ y.
                      Runs-bind _ (arguments-Runs f t₅ q₅.closed y (omega arith))
                        λ _ u r. runs (Reads-make r.closed (omega arith)))
                    (λ _. runs (Reads-make q₅.closed (omega arith))))
                  λ _ t₆ q₆. Runs-bind _ (consume-Runs l_brace t₆ q₆.closed refl) λ b' t₇ q₇.
                    Runs-bind _
                      (Runs-if {Q = λ _ u. Reads t₇ u} b' _ _
                        (λ _. inits-Runs f t₇ q₇.closed (omega arith))
                        (λ _. runs (Reads-make q₇.closed (omega arith))))
                      λ fs t₈ q₈. runs (some_expr q₈.closed (omega arith))

  inits-Runs :
      (f : ℕ) (s : Parser)
      → Closed s
      → 16 * left s + 9 ≤ f
      → Runs (λ _ t. Reads s t) (parse_field_inits f s)
  inits-Runs zero s c h = absurd (omega arith)
  inits-Runs (suc f) s c h =
      Runs-bind _
        (Runs-if {Q = λ _ u. Reads s u} (at r_brace s) _ _ (λ _. runs (Reads-make c (omega arith)))
          (λ _. init_list-Runs f s c (omega arith)))
        λ fs t q.
          Runs-bind _ (expect-Runs r_brace _ t q.closed refl)
            λ _ u r. runs (Reads-make r.closed (omega arith))

  init_list-Runs :
      (f : ℕ) (s : Parser)
      → Closed s
      → 16 * left s + 8 ≤ f
      → Runs (λ _ t. Reads s t) (field_init_list f s)
  init_list-Runs zero s c h = absurd (omega arith)
  init_list-Runs (suc f) s c h = Runs-bind _ (init-Runs f s c (omega arith)) λ x t q.
      Runs-bind _ (consume-Runs comma t q.closed refl) λ b u r.
        Runs-if b _ _
          (λ y.
            let l = r.lt y in
            Runs-bind _ (init_list-Runs f u r.closed (omega arith))
              λ es v w. runs (Reads-make w.closed (omega arith)))
          (λ _. runs (Reads-make r.closed (omega arith)))

  init-Runs :
      (f : ℕ) (s : Parser)
      → Closed s
      → 16 * left s + 7 ≤ f
      → Runs (λ _ t. Reads s t) (parse_field_init f s)
  init-Runs zero s c h = absurd (omega arith)
  init-Runs (suc f) s c h = Runs-bind _ (id-Runs s c) λ id t q.
      Runs-if (at identifier t) _ _
        (λ _. Runs-bind _ (advance-Runs t q.closed) λ tok u r.
          Runs-bind _ (expect-Runs colon _ u r.closed refl) λ _ v w.
            Runs-bind _ (expr-Runs f v w.closed (omega arith)) λ e x y.
              Runs-bind _ (end_of-Runs e x y.closed)
                λ _ z k. runs (Reads-make k.closed (omega arith)))
        (λ _.
          Runs-bind _ (error_here-Runs _ t q.closed)
            λ _ u r. runs (Reads-make r.closed (omega arith)))

  operand-Runs :
      (f : ℕ) (m : String) (s : Parser)
      → Closed s
      → 16 * left s + 7 ≤ f
      → Runs (λ _ t. Reads s t) (parse_operand f m s)
  operand-Runs zero m s c h = absurd (omega arith)
  operand-Runs (suc f) m s c h = Runs-bind _ (consume-Runs l_paren s c refl) λ b t q.
      Runs-if b _ _
        (λ _. Runs-bind _ (expr-Runs f t q.closed (omega arith)) λ e u r.
          Runs-bind _ (expect-Runs r_paren m u r.closed refl)
            λ _ v w. runs (Reads-make w.closed (omega arith)))
        (λ _.
          Runs-map (primary-Runs f t q.closed (omega arith))
            λ e u r. Reads-make r.closed (omega arith))

  freeze-Runs :
      (f : ℕ) (s : Parser)
      → Closed s
      → at end_of_file s ≡ false
      → 16 * left s < f
      → Runs (ReadsExpr s) (parse_freeze_expr f s)
  freeze-Runs zero s c n h = absurd (omega arith)
  freeze-Runs (suc f) s c n h = keyword-Runs s _ c n λ k id t q.
      Runs-bind _ (operand-Runs f _ t q.closed (omega arith)) λ e u r.
        Runs-bind _ (end_of-Runs e u r.closed) λ _ v w. runs (some_expr w.closed (omega arith))

  merge-Runs :
      (f : ℕ) (s : Parser)
      → Closed s
      → at end_of_file s ≡ false
      → 16 * left s < f
      → Runs (ReadsExpr s) (parse_merge_expr f s)
  merge-Runs zero s c n h = absurd (omega arith)
  merge-Runs (suc f) s c n h = keyword-Runs s _ c n λ k id t q.
      Runs-bind _ (operand-Runs f _ t q.closed (omega arith)) λ e u r.
        Runs-bind _ (end_of-Runs e u r.closed) λ _ v w. runs (some_expr w.closed (omega arith))

  if-Runs :
      (f : ℕ) (s : Parser)
      → Closed s
      → at end_of_file s ≡ false
      → 16 * left s < f
      → Runs (ReadsExpr s) (parse_if_expr f s)
  if-Runs zero s c n h = absurd (omega arith)
  if-Runs (suc f) s c n h = keyword-Runs s _ c n λ k id t q.
      Runs-bind _ (expr-Runs f t q.closed (omega arith)) λ e u r.
        Runs-bind _ (block-Runs f u r.closed (omega arith)) λ b v w.
          Runs-bind _ (consume-Runs kw_else v w.closed refl) λ b' x y.
            Runs-bind _
              (Runs-if {Q = λ _ z. Reads x z} b' _ _
                (λ _.
                  Runs-if (at kw_if x) _ _
                    (λ a.
                      Runs-map (if-Runs f x y.closed (other kw_if x a refl) (omega arith))
                        λ _ z i. Reads-make i.closed (omega arith))
                    (λ _. Runs-bind _ (block-Runs f x y.closed (omega arith)) λ _ z i. runs i))
                (λ _. runs (Reads-make y.closed (omega arith))))
              λ e' z i. runs (some_expr i.closed (omega arith))

  while-Runs :
      (f : ℕ) (s : Parser)
      → Closed s
      → at end_of_file s ≡ false
      → 16 * left s < f
      → Runs (ReadsExpr s) (parse_while_expr f s)
  while-Runs zero s c n h = absurd (omega arith)
  while-Runs (suc f) s c n h = keyword-Runs s _ c n λ k id t q.
      Runs-bind _ (expr-Runs f t q.closed (omega arith)) λ e u r.
        Runs-bind _ (block-Runs f u r.closed (omega arith))
          λ b v w. runs (some_expr w.closed (omega arith))

  region-Runs :
      (f : ℕ) (g : RegionKind) (s : Parser)
      → Closed s
      → at end_of_file s ≡ false
      → 16 * left s < f
      → Runs (ReadsExpr s) (parse_region_expr f g s)
  region-Runs zero g s c n h = absurd (omega arith)
  region-Runs (suc f) g s c n h = keyword-Runs s _ c n λ k id t q.
      Runs-bind _ (expr-Runs f t q.closed (omega arith)) λ e u r.
        Runs-bind _ (consume-Runs kw_as u r.closed refl) λ b v w.
          Runs-bind _
            (Runs-if {Q = λ _ z. Reads v z} b _ _ (λ _. take_name-Runs _ v w.closed)
              (λ _. Runs-bind _ (error_here-Runs _ v w.closed) λ _ z i. runs i))
            λ nm x y.
              Runs-bind _ (block-Runs f x y.closed (omega arith))
                λ b' z i. runs (some_expr i.closed (omega arith))
