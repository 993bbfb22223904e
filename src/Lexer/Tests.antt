-- ===== src/Lexer/Tests.antt =====
-- The lexer (src/lexer/Lexer.cpp) on concrete sources, and its theorems at them.
use gura.Prelude.{◌≡◌, refl, false, List, [], ◌∷◌}
use gura.Basic.{codes}
use gura.Lexer.{Lexer, lexer, is_at_end, advance_while}
use gura.Lexer.Tokens.{
  Token, TokenKind, kw_fn, identifier, l_paren, r_paren, arrow, l_brace, r_brace, integer_literal,
  invalid, string_literal, end_of_file,
}
use gura.Lexer.Scan.{lex_all}
use gura.Prelude.{◌⊎◌, true}
use gura.Lexer.{advance, peek}
use gura.Lexer.Scan.{next, skip_trivia}
use gura.Lexer.TokenBounds.{IsCutEscape, next-overrun, next-cut_escape}
use gura.Lexer.Tokens.{keyword_kind, token_kind_name}
use gura.Lexer.Trivia.{IsAtToken, skip_trivia-IsAtToken}
use gura.Lexer.Positions.{position, start, more, next-position}
use gura.Prelude.{ℕ}
use gura.Lexer.Totality.{EndsOnce, lex_all-EndsOnce}

abbrev kinds : List Token → List TokenKind
kinds [] = []
kinds (t ∷ ts) = t.kind ∷ kinds ts

function_kinds :
    kinds (lex_all (codes "fn f() { 12i32 /* a */ \"a\\\"b\" 1i3 } // c"))
    ≡ kw_fn ∷ identifier ∷ l_paren ∷ r_paren ∷ l_brace ∷ integer_literal ∷ string_literal ∷ invalid
      ∷ r_brace ∷ end_of_file ∷ []
unfolding lex_all is_at_end gura.Lexer.peek advance_while gura.Lexer.is_space
    gura.Lexer.is_identifier_start gura.Lexer.Tokens.keyword_kind gura.Lexer.is_identifier_continue
    gura.Lexer.make_token gura.Lexer.matches gura.Lexer.match_char
function_kinds = refl

lex_all-EndsOnce_example : EndsOnce (lex_all (codes "fn f() { 12i32 \"a"))
lex_all-EndsOnce_example = lex_all-EndsOnce (codes "fn f() { 12i32 \"a")

next-overrun_example :
    ((next (lexer (codes " 'a' "))).0.overrun ≡ false)
    ⊎ ((peek 0 (skip_trivia (lexer (codes " 'a' "))) ≡ b'\'')
        × IsCutEscape (advance (skip_trivia (lexer (codes " 'a' ")))))
next-overrun_example = next-overrun (lexer (codes " 'a' "))

next-cut_escape_example : (next (lexer (codes " '\\"))).0.overrun ≡ true
unfolding skip_trivia advance is_at_end peek advance_while gura.Lexer.is_space
next-cut_escape_example = next-cut_escape (lexer (codes " '\\")) refl (refl, refl)

skip_trivia-IsAtToken_example : IsAtToken (skip_trivia (lexer (codes " /* a */ // b")))
skip_trivia-IsAtToken_example = skip_trivia-IsAtToken (lexer (codes " /* a */ // b"))

abbrev two_lines : List ℕ
two_lines = codes "a\n bc"

next-position_example :
    (next (next (lexer two_lines)).0).1.span.end
    ≡ position two_lines (next (next (lexer two_lines)).0).0.offset
unfolding next skip_trivia advance is_at_end peek advance_while gura.Lexer.is_space
    gura.Lexer.is_identifier_start gura.Lexer.is_identifier_continue
next-position_example = next-position two_lines (next (lexer two_lines)).0 (more start) refl
