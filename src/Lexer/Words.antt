-- ===== src/Lexer/Words.antt =====
-- `Lexer::identifierOrKeyword` of src/lexer/Lexer.cpp, through `Lexer::next`: the words.
use gura.Prelude.{ℕ, ◌-◌, ◌<◌, ◌≤◌, ◌≡◌, true, false, get_or}
use gura.Lexer.{Lexer, substr, is_identifier_continue}
use gura.Lexer.Tokens.{Token}
use gura.Lexer.Keywords.{HasKind}

-- From `l` to `m`, and no further, stand the characters of a word, which are the token's text and
-- decide its kind.
pub record IsWord (l m : Lexer) (token : Token) : Type 0 where
  pub moves : l.offset < m.offset
  pub text : token.text ≡ substr l.source l.offset (m.offset - l.offset)
  pub letters :
      (i : ℕ) → l.offset ≤ i → i < m.offset → is_identifier_continue (get_or l.source i 0) ≡ true
  pub longest : is_identifier_continue (get_or l.source m.offset 0) ≡ false
  pub kind : HasKind token.text token.kind
