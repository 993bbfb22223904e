-- ===== src/Lexer/Advances.antt =====
-- src/lexer/Lexer.cpp: the functions of the lexer as sequences of `advance`.
use gura.Prelude.{
  ℕ, zero, suc, ◌≡◌, refl, inl, inr, Bool, true, false, ◌&&◌, ◌||◌, ◌==◌, if◌then◌else◌, Bool-cases,
}
use gura.Basic.{SourceLocation}
use gura.Lexer.{
  Lexer, is_at_end, peek, advance, matches, match_char, remaining, advance_rounds, advance_while,
  is_digit, is_identifier_start, location,
}
use gura.Lexer.Tokens.{Token, TokenKind}
use gura.Lexer.Scan.{
  at_space, in_line, in_block, close_block, skip_rounds, skip_trivia, at_continue, at_digit,
  in_escaped, in_triple, in_string, lex_identifier_or_keyword, lex_escaped_identifier, has_fraction,
  lex_digits, number_kind, has_width, lex_suffix, lex_number, close_triple, string_char,
  string_rounds, lex_string, char_body, lex_char, lex_punctuation, lex_operator, lex_from, next,
}

pub data Advances (l : Lexer) : Lexer → Type 0 where
  stay : Advances l l
  step : {m : Lexer} → Advances l m → Advances l (advance m)

Advances-trans : {l m n : Lexer} → Advances l m → Advances m n → Advances l n
Advances-trans g stay = g
Advances-trans g (step h) = step (Advances-trans g h)

Advances-if :
    {l : Lexer} (b : Bool) (m n : Lexer)
    → Advances l m
    → Advances l n
    → Advances l (if b then m else n)
Advances-if true m n g h = g
Advances-if false m n g h = h

pair-Advances :
    {A : Type 0} {l : Lexer} (b : Bool) (x y : Lexer × A)
    → Advances l x.0
    → Advances l y.0
    → Advances l (if b then x else y).0
pair-Advances true x y g h = g
pair-Advances false x y g h = h

rounds-Advances : (test : Lexer → Bool) (f : ℕ) (l : Lexer) → Advances l (advance_rounds test f l)
unfolding advance_rounds
rounds-Advances test zero l = stay
rounds-Advances test (suc f) l =
    Advances-if (test l) _ _ (Advances-trans (step stay) (rounds-Advances test f (advance l))) stay

while-Advances : (test : Lexer → Bool) (l : Lexer) → Advances l (advance_while test l)
unfolding advance_while
while-Advances test l = rounds-Advances test (remaining l) l

match-Advances : (c : ℕ) (l : Lexer) → Advances l (match_char c l)
unfolding match_char
match-Advances c l = Advances-if (matches c l) _ _ (step stay) stay

block-Advances : (l : Lexer) → Advances l (close_block l)
unfolding close_block
block-Advances l = Advances-if (is_at_end l) _ _ stay (step (step stay))

skip_rounds-Advances : (f : ℕ) (l : Lexer) → Advances l (skip_rounds f l)
unfolding skip_rounds
skip_rounds-Advances zero l = stay
skip_rounds-Advances (suc f) l =
    let l₁ = advance_while at_space l in
    let inner = advance_while in_block (advance (advance l₁)) in
    Advances-trans (while-Advances at_space l) (
      Advances-if (peek 0 l₁ == b'/' && peek 1 l₁ == b'/') _ _
        (Advances-trans (while-Advances in_line l₁)
          (skip_rounds-Advances f (advance_while in_line l₁)))
        (Advances-if (peek 0 l₁ == b'/' && peek 1 l₁ == b'*') _ _
          (Advances-trans (step (step stay)) (
            Advances-trans (while-Advances in_block (advance (advance l₁)))
              (Advances-trans (block-Advances inner) (skip_rounds-Advances f (close_block inner)))))
          stay))

trivia-Advances : (l : Lexer) → Advances l (skip_trivia l)
unfolding skip_trivia
trivia-Advances l = skip_rounds-Advances (suc (remaining l)) l

-- A token ends where the lexer stands.
record Ends (l : Lexer) (r : Lexer × Token) : Type 0 where
  advances : Advances l r.0
  end : r.1.span.end ≡ location r.0

Ends-if :
    {l : Lexer} (b : Bool) (x y : Lexer × Token) → Ends l x → Ends l y → Ends l (if b then x else y)
Ends-if true x y g h = g
Ends-if false x y g h = h

identifier-Ends : (l : Lexer) → Ends l (lex_identifier_or_keyword l)
unfolding lex_identifier_or_keyword
identifier-Ends l = record { advances = while-Advances at_continue l; end = refl }

escaped-Ends : (l : Lexer) → Ends l (lex_escaped_identifier l)
unfolding lex_escaped_identifier gura.Lexer.make_token
escaped-Ends l =
    let l₁ = advance_while in_escaped l in
    let g = Advances-trans (while-Advances in_escaped l) (match-Advances b'`' l₁) in
    Ends-if (matches b'`' l₁) _ _ (record { advances = g; end = refl })
      (record { advances = g; end = refl })

digits-Advances : (l : Lexer) → Advances l (lex_digits l)
unfolding lex_digits
digits-Advances l =
    let l₁ = advance_while at_digit l in
    Advances-trans (while-Advances at_digit l) (
      Advances-if (has_fraction l₁) _ _
        (Advances-trans (step stay) (while-Advances at_digit (advance l₁))) stay)

suffix-Advances : (k : TokenKind) (l : Lexer) → Advances l (lex_suffix k l).0
unfolding lex_suffix
suffix-Advances k l =
    let l₂ = advance (advance (advance l)) in
    pair-Advances (peek 0 l == b'i' || peek 0 l == b'f') _ _
      (Advances-trans (step stay) (
        pair-Advances (has_width (advance l)) _ _
          (Advances-trans (step (step stay))
            (pair-Advances _ _ _ (while-Advances at_continue l₂) stay))
          (while-Advances at_continue (advance l))))
      (pair-Advances (is_identifier_start (peek 0 l)) _ _ (while-Advances at_continue l) stay)

number-Ends : (l : Lexer) → Ends l (lex_number l)
unfolding lex_number gura.Lexer.make_token
number-Ends l = record {
  advances = Advances-trans (digits-Advances l) (suffix-Advances (number_kind l) (lex_digits l));
  end = refl;
}

string_rounds-Advances : (f : ℕ) (l : Lexer) → Advances l (string_rounds f l)
unfolding string_rounds string_char
string_rounds-Advances zero l = stay
string_rounds-Advances (suc f) l =
    Advances-if (in_string l) _ _
      (Advances-trans (step (Advances-if _ _ _ (step stay) stay))
        (string_rounds-Advances f (string_char l)))
      stay

string-Ends : (l : Lexer) → Ends l (lex_string l)
unfolding lex_string close_triple gura.Lexer.make_token
string-Ends l =
    let l₂ = advance (advance l) in
    let short = string_rounds (remaining l) l in
    let g = Advances-trans (string_rounds-Advances (remaining l) l) (match-Advances b'"' short) in
    Ends-if (peek 0 l == b'"' && peek 1 l == b'"') _ _
      (record {
        advances = Advances-trans (step (step stay)) (
            Advances-trans (while-Advances in_triple l₂) (
              Advances-if (is_at_end (advance_while in_triple l₂)) _ _ stay
                (step (step (step stay)))));
        end = refl;
      })
      (Ends-if (matches b'"' short) _ _ (record { advances = g; end = refl })
        (record { advances = g; end = refl }))

char-Ends : (l : Lexer) → Ends l (lex_char l)
unfolding lex_char char_body gura.Lexer.make_token
char-Ends l = record {
  advances =
      Advances-trans
        (Advances-if (is_at_end l) _ _ stay (step (Advances-if _ _ _ (step stay) stay)))
        (match-Advances b'\'' (char_body l));
  end = refl;
}

punctuation-Advances : (c : ℕ) (l : Lexer) → Advances l (lex_punctuation c l).0
unfolding lex_punctuation
punctuation-Advances c l = pair-Advances (c == b'-') _ _ (match-Advances b'>' l) (
    pair-Advances (c == b'=') _ _
      (pair-Advances (matches b'=' l) _ _ (match-Advances b'=' l) (match-Advances b'>' l))
      (pair-Advances (c == b'!') _ _ (match-Advances b'=' l) (
        pair-Advances (c == b'<') _ _ (match-Advances b'=' l)
          (pair-Advances (c == b'>') _ _ (match-Advances b'=' l) stay))))

operator-Ends : (b : SourceLocation) (o c : ℕ) (l : Lexer) → Ends l (lex_operator b o c l)
unfolding lex_operator gura.Lexer.make_token
operator-Ends b o c l = record { advances = punctuation-Advances c l; end = refl }

from-Ends : (b : SourceLocation) (o c : ℕ) (l : Lexer) → Ends l (lex_from b o c l)
unfolding lex_from
from-Ends b o c l = Ends-if (is_identifier_start c) _ _ (identifier-Ends l) (
    Ends-if (is_digit c) _ _ (number-Ends l) (
      Ends-if (c == b'`') _ _ (escaped-Ends l) (
        Ends-if (c == b'"') _ _ (string-Ends l)
          (Ends-if (c == b'\'') _ _ (char-Ends l) (operator-Ends b o c l)))))

-- `next` moves by `advance` alone, and its token ends where the lexer then stands.
pub next-Advances :
    (l : Lexer) → Advances l (next l).0 × ((next l).1.span.end ≡ location (next l).0)
unfolding next
next-Advances l =
    let m = skip_trivia l in
    let g = trivia-Advances l in
    let f = from-Ends (location m) m.offset (peek 0 m) (advance m) in
    elim (Bool-cases (is_at_end m)) [
      | inl y ↦ rw y (g, refl)
      | inr n ↦ rw n (Advances-trans (step g) f.advances, f.end)
    ]
