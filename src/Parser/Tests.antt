-- ===== src/Parser/Tests.antt =====
-- The parser (src/parser/Parser.cpp) on concrete sources, and its theorems at them.
use gura.Prelude.{arith, ℕ, ◌≡◌, refl, true, some, List, [], ◌∷◌}
use gura.Basic.{codes, empty_span}
use gura.Ast.{SourceFile}
use gura.Lexer.Tokens.{
  Token, TokenKind, ordinal, kw_fn, identifier, l_bracket, r_bracket, r_brace, end_of_file,
}
use gura.Parser.{Parser, parser, at, last, is_kind}
use gura.Parser.Decls.{parse_file}
use gura.Parser.Source.{parse_source, parse_source-reads_all}
use gura.Parser.Runs.{Runs, Reads}
use gura.Parser.Types.{parse_type_ref}
use gura.Parser.Totality.{parse_type_ref-Runs}
use gura.Parser.DeclTotality.{parse_file-reads_all}

abbrev broken : List ℕ
broken = codes "module a ) fn f( { let x = ; module b import"

parse_source-reads_all_example :
    (r : SourceFile × Parser) × ((parse_source broken ≡ some r) × (at end_of_file r.1 ≡ true))
parse_source-reads_all_example = parse_source-reads_all broken

abbrev token : TokenKind → Token
token kind = record { kind = kind; span = empty_span; text = [] }

abbrev stray : List Token
stray = token kw_fn ∷ token r_brace ∷ token identifier ∷ token end_of_file ∷ []

parse_file-reads_all_example :
    (r : SourceFile × Parser) × ((parse_file stray ≡ some r) × (at end_of_file r.1 ≡ true))
unfolding last is_kind ordinal
parse_file-reads_all_example = parse_file-reads_all stray refl

abbrev array_type : List Token
array_type = token l_bracket ∷ token identifier ∷ token r_bracket ∷ token end_of_file ∷ []

parse_type_ref-Runs_example :
    Runs (λ _ t. Reads (parser array_type) t) (parse_type_ref 5 (parser array_type))
unfolding last is_kind ordinal
parse_type_ref-Runs_example = parse_type_ref-Runs 5 (parser array_type) refl (omega arith)
