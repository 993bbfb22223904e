-- ===== src/Lexer/Tokens.antt =====
-- include/gura/lexer/Token.h, and the tables of src/lexer/Lexer.cpp: the kinds of token, their
-- names and the keywords.
use gura.Prelude.{ℕ, String, List, [], ◌∷◌, if◌then◌else◌}
use gura.Basic.{Span, codes, same_text}

pub data TokenKind : Type 0 where
  end_of_file invalid identifier integer_literal float_literal string_literal : TokenKind
  char_literal kw_fn kw_module kw_import kw_struct kw_enum kw_trait kw_impl kw_let : TokenKind
  kw_var kw_move kw_new kw_enter kw_explore kw_freeze kw_merge kw_cown kw_acquire : TokenKind
  kw_spawn kw_unsafe kw_return kw_if kw_else kw_while kw_match kw_case kw_as kw_true : TokenKind
  kw_false kw_none kw_mut kw_tmp kw_iso kw_imm kw_pau l_paren r_paren l_brace r_brace : TokenKind
  l_bracket r_bracket comma dot colon semicolon arrow fat_arrow question pipe plus : TokenKind
  minus star slash percent equal equal_equal bang bang_equal less less_equal greater : TokenKind
  greater_equal : TokenKind

pub record Token : Type 0 where
  pub kind : TokenKind
  pub span : Span
  pub text : List ℕ

unfoldable pub token_kind_name : TokenKind → String
token_kind_name end_of_file = "eof"
token_kind_name invalid = "invalid"
token_kind_name identifier = "identifier"
token_kind_name integer_literal = "integer_literal"
token_kind_name float_literal = "float_literal"
token_kind_name string_literal = "string_literal"
token_kind_name char_literal = "char_literal"
token_kind_name kw_fn = "fn"
token_kind_name kw_module = "module"
token_kind_name kw_import = "import"
token_kind_name kw_struct = "struct"
token_kind_name kw_enum = "enum"
token_kind_name kw_trait = "trait"
token_kind_name kw_impl = "impl"
token_kind_name kw_let = "let"
token_kind_name kw_var = "var"
token_kind_name kw_move = "move"
token_kind_name kw_new = "new"
token_kind_name kw_enter = "enter"
token_kind_name kw_explore = "explore"
token_kind_name kw_freeze = "freeze"
token_kind_name kw_merge = "merge"
token_kind_name kw_cown = "cown"
token_kind_name kw_acquire = "acquire"
token_kind_name kw_spawn = "spawn"
token_kind_name kw_unsafe = "unsafe"
token_kind_name kw_return = "return"
token_kind_name kw_if = "if"
token_kind_name kw_else = "else"
token_kind_name kw_while = "while"
token_kind_name kw_match = "match"
token_kind_name kw_case = "case"
token_kind_name kw_as = "as"
token_kind_name kw_true = "true"
token_kind_name kw_false = "false"
token_kind_name kw_none = "none"
token_kind_name kw_mut = "mut"
token_kind_name kw_tmp = "tmp"
token_kind_name kw_iso = "iso"
token_kind_name kw_imm = "imm"
token_kind_name kw_pau = "pau"
token_kind_name l_paren = "("
token_kind_name r_paren = ")"
token_kind_name l_brace = "{"
token_kind_name r_brace = "}"
token_kind_name l_bracket = "["
token_kind_name r_bracket = "]"
token_kind_name comma = ","
token_kind_name dot = "."
token_kind_name colon = ":"
token_kind_name semicolon = ";"
token_kind_name arrow = "->"
token_kind_name fat_arrow = "=>"
token_kind_name question = "?"
token_kind_name pipe = "|"
token_kind_name plus = "+"
token_kind_name minus = "-"
token_kind_name star = "*"
token_kind_name slash = "/"
token_kind_name percent = "%"
token_kind_name equal = "="
token_kind_name equal_equal = "=="
token_kind_name bang = "!"
token_kind_name bang_equal = "!="
token_kind_name less = "<"
token_kind_name less_equal = "<="
token_kind_name greater = ">"
token_kind_name greater_equal = ">="

-- The table of keywords, in the source's order, with the code points of each.
abbrev pub keywords : List (String × TokenKind)
keywords =
    ("fn", kw_fn)
    ∷ ("module", kw_module)
    ∷ ("import", kw_import)
    ∷ ("struct", kw_struct)
    ∷ ("enum", kw_enum)
    ∷ ("trait", kw_trait)
    ∷ ("impl", kw_impl)
    ∷ ("let", kw_let)
    ∷ ("var", kw_var)
    ∷ ("move", kw_move)
    ∷ ("new", kw_new)
    ∷ ("enter", kw_enter)
    ∷ ("explore", kw_explore)
    ∷ ("freeze", kw_freeze)
    ∷ ("merge", kw_merge)
    ∷ ("cown", kw_cown)
    ∷ ("acquire", kw_acquire)
    ∷ ("spawn", kw_spawn)
    ∷ ("unsafe", kw_unsafe)
    ∷ ("return", kw_return)
    ∷ ("if", kw_if)
    ∷ ("else", kw_else)
    ∷ ("while", kw_while)
    ∷ ("match", kw_match)
    ∷ ("case", kw_case)
    ∷ ("as", kw_as)
    ∷ ("true", kw_true)
    ∷ ("false", kw_false)
    ∷ ("none", kw_none)
    ∷ ("mut", kw_mut)
    ∷ ("tmp", kw_tmp)
    ∷ ("iso", kw_iso)
    ∷ ("imm", kw_imm)
    ∷ ("pau", kw_pau)
    ∷ []

-- The kind of the first entry with this text.
unfoldable pub find_keyword : List ℕ → List (String × TokenKind) → TokenKind
find_keyword text [] = identifier
find_keyword text ((word, kind) ∷ rest) =
    if same_text text (codes word) then kind else find_keyword text rest

unfoldable pub keyword_kind : List ℕ → TokenKind
unfolding find_keyword
keyword_kind text = find_keyword text keywords

-- `==` on kinds, by their numbers in the enumeration.
unfoldable pub ordinal : TokenKind → ℕ
ordinal end_of_file = 0
ordinal invalid = 1
ordinal identifier = 2
ordinal integer_literal = 3
ordinal float_literal = 4
ordinal string_literal = 5
ordinal char_literal = 6
ordinal kw_fn = 7
ordinal kw_module = 8
ordinal kw_import = 9
ordinal kw_struct = 10
ordinal kw_enum = 11
ordinal kw_trait = 12
ordinal kw_impl = 13
ordinal kw_let = 14
ordinal kw_var = 15
ordinal kw_move = 16
ordinal kw_new = 17
ordinal kw_enter = 18
ordinal kw_explore = 19
ordinal kw_freeze = 20
ordinal kw_merge = 21
ordinal kw_cown = 22
ordinal kw_acquire = 23
ordinal kw_spawn = 24
ordinal kw_unsafe = 25
ordinal kw_return = 26
ordinal kw_if = 27
ordinal kw_else = 28
ordinal kw_while = 29
ordinal kw_match = 30
ordinal kw_case = 31
ordinal kw_as = 32
ordinal kw_true = 33
ordinal kw_false = 34
ordinal kw_none = 35
ordinal kw_mut = 36
ordinal kw_tmp = 37
ordinal kw_iso = 38
ordinal kw_imm = 39
ordinal kw_pau = 40
ordinal l_paren = 41
ordinal r_paren = 42
ordinal l_brace = 43
ordinal r_brace = 44
ordinal l_bracket = 45
ordinal r_bracket = 46
ordinal comma = 47
ordinal dot = 48
ordinal colon = 49
ordinal semicolon = 50
ordinal arrow = 51
ordinal fat_arrow = 52
ordinal question = 53
ordinal pipe = 54
ordinal plus = 55
ordinal minus = 56
ordinal star = 57
ordinal slash = 58
ordinal percent = 59
ordinal equal = 60
ordinal equal_equal = 61
ordinal bang = 62
ordinal bang_equal = 63
ordinal less = 64
ordinal less_equal = 65
ordinal greater = 66
ordinal greater_equal = 67
