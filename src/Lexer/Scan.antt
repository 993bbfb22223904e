-- ===== src/Lexer/Scan.antt =====
-- src/lexer/Lexer.cpp: the tokens. Each function returns the token with the state after it.
use gura.Prelude.{
  ℕ, zero, suc, ◌+◌, ◌-◌, Bool, true, false, not, ◌&&◌, ◌||◌, List, [], ◌∷◌, ◌==◌, if◌then◌else◌,
}
use gura.Basic.{SourceLocation}
use gura.Lexer.{
  Lexer, is_at_end, peek, advance, matches, match_char, remaining, advance_while, is_digit,
  is_space, is_identifier_start, is_identifier_continue, location, location_before, substr,
  make_token,
}
use gura.Lexer.Tokens.{Token, TokenKind, keyword_kind}
use gura.Lexer.Tokens.{
  end_of_file, invalid, identifier, integer_literal, float_literal, string_literal, char_literal,
  l_paren, r_paren, l_brace, r_brace, l_bracket, r_bracket, comma, dot, colon, semicolon, arrow,
  fat_arrow, question, pipe, plus, minus, star, slash, percent, equal, equal_equal, bang,
  bang_equal, less, less_equal, greater, greater_equal,
}

abbrev pub at_space : Lexer → Bool
at_space l = not (is_at_end l) && is_space (peek 0 l)

abbrev pub in_line : Lexer → Bool
in_line l = not (is_at_end l) && not (peek 0 l == 10)

abbrev pub in_block : Lexer → Bool
in_block l = not (is_at_end l) && not (peek 0 l == b'*' && peek 1 l == b'/')

-- The end of a block comment, where it has one.
unfoldable pub close_block : Lexer → Lexer
close_block l = if is_at_end l then l else advance (advance l)

-- `for (;;)` of `skipTrivia`, for a number of rounds.
unfoldable pub skip_rounds : ℕ → Lexer → Lexer
unfolding close_block
skip_rounds zero l = l
skip_rounds (suc f) l =
    let l₁ = advance_while at_space l in
    let after_line = skip_rounds f (advance_while in_line l₁) in
    let after_block = skip_rounds f (close_block (advance_while in_block (advance (advance l₁)))) in
    if peek 0 l₁ == b'/' && peek 1 l₁ == b'/'
    then after_line
    else if peek 0 l₁ == b'/' && peek 1 l₁ == b'*'
    then after_block
    else l₁

unfoldable pub skip_trivia : Lexer → Lexer
unfolding skip_rounds
skip_trivia l = skip_rounds (suc (remaining l)) l

abbrev pub at_continue : Lexer → Bool
at_continue l = is_identifier_continue (peek 0 l)

unfoldable pub lex_identifier_or_keyword : Lexer → Lexer × Token
lex_identifier_or_keyword l =
    let begin_offset = l.offset - 1 in
    let l₁ = advance_while at_continue l in
    let text = substr l₁.source begin_offset (l₁.offset - begin_offset) in
    (
      l₁,
      record {
        kind = keyword_kind text;
        span = record { begin = location_before l; end = location l₁ };
        text = text;
      },
    )

abbrev pub in_escaped : Lexer → Bool
in_escaped l = not (is_at_end l) && (not (peek 0 l == b'`') && not (peek 0 l == 10))

unfoldable pub lex_escaped_identifier : Lexer → Lexer × Token
lex_escaped_identifier l =
    let begin_offset = l.offset - 1 in
    let l₁ = advance_while in_escaped l in
    let l₂ = match_char b'`' l₁ in
    if matches b'`' l₁
    then (
      l₂,
      record {
        kind = identifier;
        span = record { begin = location_before l; end = location l₂ };
        text = substr l₂.source (begin_offset + 1) (l₂.offset - begin_offset - 2);
      },
    )
    else (l₂, make_token invalid (location_before l) begin_offset l₂)

abbrev pub at_digit : Lexer → Bool
at_digit l = is_digit (peek 0 l)

-- `.` and a digit: the fraction of a number.
unfoldable pub has_fraction : Lexer → Bool
has_fraction l = peek 0 l == b'.' && is_digit (peek 1 l)

-- The digits, and the fraction where there is one.
unfoldable pub lex_digits : Lexer → Lexer
unfolding has_fraction
lex_digits l =
    let l₁ = advance_while at_digit l in
    if has_fraction l₁ then advance_while at_digit (advance l₁) else l₁

unfoldable pub number_kind : Lexer → TokenKind
unfolding has_fraction
number_kind l = if has_fraction (advance_while at_digit l) then float_literal else integer_literal

abbrev pub is_integer : TokenKind → Bool
is_integer integer_literal = true
is_integer _ = false

-- `32` or `64` follows.
unfoldable pub has_width : Lexer → Bool
has_width l = (peek 0 l == b'3' && peek 1 l == b'2') || (peek 0 l == b'6' && peek 1 l == b'4')

-- What stands behind the digits: the state after it, and the kind that the number has with it.
unfoldable pub lex_suffix : TokenKind → Lexer → Lexer × TokenKind
unfolding has_width
lex_suffix kind l =
    if peek 0 l == b'i' || peek 0 l == b'f'
    then (let suffix_kind = peek 0 l in
        let l₁ = advance l in
        let l₂ = advance (advance l₁) in
        if has_width l₁
        then (if (at_continue l₂ || (is_integer kind && suffix_kind == b'f'))
              || (not (is_integer kind) && suffix_kind == b'i')
            then (advance_while at_continue l₂, invalid)
            else (l₂, kind))
        else (advance_while at_continue l₁, invalid))
    else if is_identifier_start (peek 0 l)
    then (advance_while at_continue l, invalid)
    else (l, kind)

unfoldable pub lex_number : Lexer → Lexer × Token
unfolding lex_digits number_kind lex_suffix
lex_number l =
    let result = lex_suffix (number_kind l) (lex_digits l) in
    (result.0, make_token result.1 (location_before l) (l.offset - 1) result.0)

abbrev pub at_triple : Lexer → Bool
at_triple l = (peek 0 l == b'"' && peek 1 l == b'"') && peek 2 l == b'"'

abbrev pub in_triple : Lexer → Bool
in_triple l = not (is_at_end l) && not (at_triple l)

unfoldable pub close_triple : Lexer → Lexer
close_triple l = if is_at_end l then l else advance (advance (advance l))

abbrev pub in_string : Lexer → Bool
in_string l = not (is_at_end l) && (not (peek 0 l == b'"') && not (peek 0 l == 10))

-- One round in a string: an escaped character is taken whole.
unfoldable pub string_char : Lexer → Lexer
string_char l = advance (if peek 0 l == b'\\' && not (peek 1 l == 0) then advance l else l)

unfoldable pub string_rounds : ℕ → Lexer → Lexer
unfolding string_char
string_rounds zero l = l
string_rounds (suc f) l =
    let rest = string_rounds f (string_char l) in if in_string l then rest else l

unfoldable pub lex_string : Lexer → Lexer × Token
unfolding close_triple string_rounds
lex_string l =
    let begin = location_before l in
    let begin_offset = l.offset - 1 in
    let long = close_triple (advance_while in_triple (advance (advance l))) in
    let short = string_rounds (remaining l) l in
    let closed = match_char b'"' short in
    if peek 0 l == b'"' && peek 1 l == b'"'
    then (long, make_token string_literal begin begin_offset long)
    else if matches b'"' short
    then (closed, make_token string_literal begin begin_offset closed)
    else (closed, make_token invalid begin begin_offset closed)

-- The character between the quotes. Behind a backslash the end is not tested for.
unfoldable pub char_body : Lexer → Lexer
char_body l = if is_at_end l then l else advance (if peek 0 l == b'\\' then advance l else l)

unfoldable pub lex_char : Lexer → Lexer × Token
unfolding char_body
lex_char l =
    let l₁ = char_body l in
    let l₂ = match_char b'\'' l₁ in
    let kind = if matches b'\'' l₁ then char_literal else invalid in
    (l₂, make_token kind (location_before l) (l.offset - 1) l₂)

-- The kinds that are one character long.
unfoldable pub single_kind : ℕ → TokenKind
single_kind c =
    if c == b'('
    then l_paren
    else if c == b')'
    then r_paren
    else if c == b'{'
    then l_brace
    else if c == b'}'
    then r_brace
    else if c == b'['
    then l_bracket
    else if c == b']'
    then r_bracket
    else if c == b','
    then comma
    else if c == b'.'
    then dot
    else if c == b':'
    then colon
    else if c == b';'
    then semicolon
    else if c == b'?'
    then question
    else if c == b'|'
    then pipe
    else if c == b'+'
    then plus
    else if c == b'*'
    then star
    else if c == b'/'
    then slash
    else if c == b'%'
    then percent
    else invalid

-- `switch (c)` of `next`: the state after the token, and its kind.
unfoldable pub lex_punctuation : ℕ → Lexer → Lexer × TokenKind
unfolding single_kind
lex_punctuation c l =
    if c == b'-'
    then (match_char b'>' l, if matches b'>' l then arrow else minus)
    else if c == b'='
    then (if matches b'=' l
        then (match_char b'=' l, equal_equal)
        else (match_char b'>' l, if matches b'>' l then fat_arrow else equal))
    else if c == b'!'
    then (match_char b'=' l, if matches b'=' l then bang_equal else bang)
    else if c == b'<'
    then (match_char b'=' l, if matches b'=' l then less_equal else less)
    else if c == b'>'
    then (match_char b'=' l, if matches b'=' l then greater_equal else greater)
    else (l, single_kind c)

unfoldable pub lex_operator : SourceLocation → ℕ → ℕ → Lexer → Lexer × Token
unfolding lex_punctuation
lex_operator begin begin_offset c l =
    let result = lex_punctuation c l in (result.0, make_token result.1 begin begin_offset result.0)

-- The token that begins with the character `c`; `l` is the state behind `c`.
unfoldable pub lex_from : SourceLocation → ℕ → ℕ → Lexer → Lexer × Token
unfolding lex_identifier_or_keyword lex_number lex_escaped_identifier lex_string lex_char
    lex_operator
lex_from begin begin_offset c l =
    if is_identifier_start c
    then lex_identifier_or_keyword l
    else if is_digit c
    then lex_number l
    else if c == b'`'
    then lex_escaped_identifier l
    else if c == b'"'
    then lex_string l
    else if c == b'\''
    then lex_char l
    else lex_operator begin begin_offset c l

-- `Lexer::next`
unfoldable pub next : Lexer → Lexer × Token
unfolding skip_trivia lex_from
next l =
    let l₁ = skip_trivia l in
    let begin = location l₁ in
    if is_at_end l₁
    then (
      l₁,
      record { kind = end_of_file; span = record { begin = begin; end = begin }; text = [] },
    )
    else lex_from begin l₁.offset (peek 0 l₁) (advance l₁)

abbrev pub is_end : TokenKind → Bool
is_end end_of_file = true
is_end _ = false

-- `do … while` of `lexAll`, for a number of rounds.
unfoldable pub lex_rounds : ℕ → Lexer → List Token
lex_rounds zero l = []
lex_rounds (suc f) l =
    let result = next l in
    let rest = lex_rounds f result.0 in result.1 ∷ (if is_end result.1.kind then [] else rest)

-- `Lexer::lexAll` on a new lexer.
unfoldable pub lex_all : List ℕ → List Token
unfolding lex_rounds next
lex_all source = lex_rounds (suc (remaining (gura.Lexer.lexer source))) (gura.Lexer.lexer source)
