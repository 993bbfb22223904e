-- ===== src/Parser.antt =====
-- include/gura/parser/Parser.h and src/parser/Parser.cpp: the state of the parser and its basic
-- operations. A parse takes fuel where it recurs; `none` is a parse that ran out of it. The
-- depth of the program's stack is not modelled.
pub mod Types
pub mod Exprs
pub mod Decls
pub mod Runs
pub mod Totality
pub mod ExprTotality
pub mod MemberTotality
pub mod DeclTotality
pub mod Source
mod Tests
use gura.Prelude.{
  ℕ, zero, suc, ◌+◌, ◌-◌, ◌%◌, ◌^◌, Bool, true, false, not, ◌&&◌, Option, none, some, List, [], ◌∷◌,
  ◌++◌, ◌==◌, if◌then◌else◌, leb, length, get_or, String,
}
use gura.Basic.{Span, SourceLocation, Diagnostic, Diagnostics, report_error, empty_span}
use gura.Ast.{NodeId, Text}
use gura.Lexer.Tokens.{Token, TokenKind, end_of_file, ordinal}

pub record Parser : Type 0 where
  pub tokens : List Token
  pub diagnostics : Diagnostics
  pub index : ℕ
  pub next_node_id : NodeId

abbrev pub parser : List Token → Parser
parser tokens = record { tokens = tokens; diagnostics = []; index = 0; next_node_id = 1 }

-- What stands for `tokens_.back()` of no tokens, which the program must not ask for.
abbrev pub no_token : Token
no_token = record { kind = end_of_file; span = empty_span; text = [] }

unfoldable pub last : List Token → Token
last [] = no_token
last (t ∷ []) = t
last (t ∷ u ∷ ts) = last (u ∷ ts)

-- Behind the last token there is the last token.
unfoldable pub peek : Parser → Token
unfolding last
peek s = get_or s.tokens s.index (last s.tokens)

unfoldable pub is_kind : TokenKind → TokenKind → Bool
unfolding ordinal
is_kind j k = ordinal j == ordinal k

unfoldable pub at : TokenKind → Parser → Bool
unfolding peek is_kind
at kind s = is_kind (peek s).kind kind

abbrev pub M {ℓ} : Type ℓ → Type ℓ
M A = Parser → Option (A × Parser)

abbrev pub and_then {ℓ κ} :
    {A : Type ℓ} {B : Type κ} → Option (A × Parser) → (A → M B) → Option (B × Parser)
and_then none f = none
and_then (some (a, t)) f = f a t

infixl 5 ◌>>=◌ ◌>>◌
abbrev pub ◌>>=◌ {ℓ κ} : {A : Type ℓ} {B : Type κ} → M A → (A → M B) → M B
◌>>=◌ m f s = and_then (m s) f

abbrev pub ◌>>◌ {κ} : {B : Type κ} → M (Unit {0}) → M B → M B
m >> k = m >>= λ _. k

abbrev pub pure {ℓ} : {A : Type ℓ} → A → M A
pure a s = some (a, s)

-- A value that is read off the state.
abbrev pub asks {ℓ} : {A : Type ℓ} → (Parser → A) → M A
asks f s = some (f s, s)

-- A parse that depends on a test of the state.
abbrev pub when {ℓ} : {A : Type ℓ} → (Parser → Bool) → M A → M A → M A
when test yes' no' s = (if test s then yes' else no') s

-- The state behind `advance`: nothing moves at the end of the file.
unfoldable pub advanced : Parser → Parser
unfolding at
advanced s = if at end_of_file s then s else record s { index = s.index + 1 }

-- `advance`: the token, and past it.
unfoldable pub advance : M Token
unfolding advanced peek
advance s = some (peek s, advanced s)

unfoldable pub skip : M (Unit {0})
unfolding advanced
skip s = some (tt, advanced s)

unfoldable pub consume : TokenKind → M Bool
unfolding at advanced
consume kind s = if at kind s then some (true, advanced s) else some (false, s)

-- `diagnostics_.error(span, message)`
unfoldable pub error_at : Span → String → M (Unit {0})
unfolding report_error
error_at span message s =
    some (tt, record s { diagnostics = report_error span message s.diagnostics })

-- An error at the next token.
unfoldable pub error_here : String → M (Unit {0})
unfolding error_at peek
error_here message s = error_at (peek s).span message s

unfoldable pub expect : TokenKind → String → M (Unit {0})
unfolding consume error_here
expect kind message = do found ← consume kind; if found then pure tt else error_here message

unfoldable pub next_node_id : M NodeId
next_node_id s = some (s.next_node_id, record s { next_node_id = (s.next_node_id + 1) % 2 ^ 64 })

-- `peek().span.begin` and `peek().span.end`
unfoldable pub here : M SourceLocation
unfolding peek
here = asks λ s. (peek s).span.begin

unfoldable pub here_end : M SourceLocation
unfolding peek
here_end = asks λ s. (peek s).span.end

abbrev pub span : SourceLocation → SourceLocation → Span
span b e = record { begin = b; end = e }
