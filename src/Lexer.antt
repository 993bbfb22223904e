-- ===== src/Lexer.antt =====
-- include/gura/lexer/Lexer.h and src/lexer/Lexer.cpp: the state of the lexer and the operations on
-- single characters. Characters are bytes; `std::isalpha` and its like are those of the C locale.
pub mod Tokens
pub mod Scan
pub mod Progress
pub mod Bounds
pub mod Positions
pub mod Advances
pub mod Trivia
pub mod Keywords
pub mod Words
pub mod TokenBounds
pub mod Totality
mod Tests
use gura.Prelude.{
  ℕ, zero, suc, ◌+◌, ◌-◌, ◌%◌, ◌^◌, Bool, true, false, ◌&&◌, ◌||◌, List, ◌==◌, leb, if◌then◌else◌,
  length, get_or, take, drop,
}
use gura.Basic.{SourceLocation, Span}
use Tokens.{TokenKind, Token}

-- `overrun` records that a character behind the end of the source was read, which the program must
-- not do (`operator[]` of `std::string_view` past its end).
pub record Lexer : Type 0 where
  pub source : List ℕ
  pub offset : ℕ
  pub line : ℕ
  pub column : ℕ
  pub overrun : Bool

abbrev pub lexer : List ℕ → Lexer
lexer source = record { source = source; offset = 0; line = 1; column = 1; overrun = false }

unfoldable pub is_at_end : Lexer → Bool
is_at_end l = leb (length l.source) l.offset

-- `get_or` gives `'\0'` from the end of the source on.
unfoldable pub peek : ℕ → Lexer → ℕ
peek lookahead l = get_or l.source (l.offset + lookahead) 0

abbrev pub wrap32 : ℕ → ℕ
wrap32 n = n % 2 ^ 32

-- The character that `advance` returns is that of the state before, `peek 0`.
unfoldable pub advance : Lexer → Lexer
unfolding is_at_end peek
advance l = record l {
  offset = l.offset + 1;
  line = if peek 0 l == 10 then wrap32 (l.line + 1) else l.line;
  column = if peek 0 l == 10 then 1 else wrap32 (l.column + 1);
  overrun = l.overrun || is_at_end l;
}

-- `match`: the test, and the state after it.
unfoldable pub matches : ℕ → Lexer → Bool
unfolding is_at_end peek
matches expected l = elim (is_at_end l) [ true ↦ false | false ↦ peek 0 l == expected ]

unfoldable pub match_char : ℕ → Lexer → Lexer
unfolding matches advance
match_char expected l = if matches expected l then advance l else l

-- How many characters are left.
abbrev pub remaining : Lexer → ℕ
remaining l = length l.source - l.offset

-- `while (test) { advance(); }` for a number of rounds.
pub advance_rounds : (Lexer → Bool) → ℕ → Lexer → Lexer
advance_rounds test zero l = l
advance_rounds test (suc f) l =
    let rest = advance_rounds test f (advance l) in if test l then rest else l

-- The rounds suffice for a test that fails at the end of the source.
unfoldable pub advance_while : (Lexer → Bool) → Lexer → Lexer
unfolding advance_rounds advance
advance_while test l = advance_rounds test (remaining l) l

abbrev between : ℕ → ℕ → ℕ → Bool
between lo hi c = leb lo c && leb c hi

unfoldable pub is_alpha : ℕ → Bool
is_alpha c = between b'a' b'z' c || between b'A' b'Z' c

unfoldable pub is_digit : ℕ → Bool
is_digit c = between b'0' b'9' c

-- Space, and the controls from tab to carriage return.
unfoldable pub is_space : ℕ → Bool
is_space c = c == 32 || between 9 13 c

unfoldable pub is_identifier_start : ℕ → Bool
unfolding is_alpha
is_identifier_start c = is_alpha c || c == b'_'

unfoldable pub is_identifier_continue : ℕ → Bool
unfolding is_alpha is_digit
is_identifier_continue c = (is_alpha c || is_digit c) || c == b'_'

-- The current position.
abbrev pub location : Lexer → SourceLocation
location l = record { offset = wrap32 l.offset; line = l.line; column = l.column }

-- The position of the character before, on the same line: `column_ - 1` as a `uint32_t`.
abbrev pub location_before : Lexer → SourceLocation
location_before l = record {
  offset = wrap32 (l.offset - 1);
  line = l.line;
  column = wrap32 (l.column + 2 ^ 32 - 1);
}

-- `source_.substr(begin, count)`
abbrev pub substr : List ℕ → ℕ → ℕ → List ℕ
substr source begin count = take count (drop begin source)

unfoldable pub make_token : TokenKind → SourceLocation → ℕ → Lexer → Token
make_token kind begin begin_offset l = record {
  kind = kind;
  span = record { begin = begin; end = location l };
  text = substr l.source begin_offset (l.offset - begin_offset);
}
