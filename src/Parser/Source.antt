-- ===== src/Parser/Source.antt =====
-- src/driver/Driver.cpp: the lexer and the parser, as the driver calls them for one file.
use gura.Prelude.{ℕ, ◌≡◌, refl, true, Option, some, List, [], ◌∷◌}
use gura.Ast.{SourceFile}
use gura.Lexer.Tokens.{Token, TokenKind, end_of_file, ordinal}
use gura.Lexer.Scan.{lex_all, is_end}
use gura.Lexer.Totality.{EndsOnce, lex_all-EndsOnce}
use gura.Parser.{Parser, at, last, is_kind}
use gura.Parser.Decls.{parse_file}
use gura.Parser.DeclTotality.{parse_file-reads_all}

-- `Lexer lexer(contents); Parser parser(lexer.lexAll(), diagnostics); parser.parseSourceFile()`
unfoldable pub parse_source : List ℕ → Option (SourceFile × Parser)
parse_source contents = parse_file (lex_all contents)

is_end-kind : (k : TokenKind) → is_end k ≡ true → is_kind k end_of_file ≡ true
unfolding is_kind ordinal
is_end-kind end_of_file h = refl
is_end-kind _ h = cc

EndsOnce-Closed : (ts : List Token) → EndsOnce ts → is_kind (last ts).kind end_of_file ≡ true
unfolding last
EndsOnce-Closed [] h = absurd h
EndsOnce-Closed (t ∷ []) h = is_end-kind t.kind h
EndsOnce-Closed (t ∷ u ∷ ts) (n, h) = EndsOnce-Closed (u ∷ ts) h

-- Every source, well formed or not, is lexed and parsed: a source file is returned, and the
-- parser has read all tokens up to the end of the file.
pub parse_source-reads_all :
    (contents : List ℕ)
    → (r : SourceFile × Parser) × ((parse_source contents ≡ some r) × (at end_of_file r.1 ≡ true))
unfolding parse_source
parse_source-reads_all contents =
    parse_file-reads_all (lex_all contents)
      (EndsOnce-Closed (lex_all contents) (lex_all-EndsOnce contents))
