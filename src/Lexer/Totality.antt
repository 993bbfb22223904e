-- ===== src/Lexer/Totality.antt =====
-- `Lexer::next` and `Lexer::lexAll` of src/lexer/Lexer.cpp: progress and the last token.
use gura.Prelude.{
  ℕ, zero, suc, ◌<◌, ◌≡◌, refl, ◌∙◌, ap, inl, inr, Bool, true, false, not, ◌&&◌, ◌||◌, List, [],
  ◌∷◌, ◌==◌, if◌then◌else◌, length, arith, Bool-cases, All, String,
}
use gura.Basic.{SourceLocation, codes, same_text}
use gura.Lexer.{
  Lexer, is_at_end, peek, advance, matches, match_char, remaining, advance_while, lexer,
}
use gura.Lexer.Progress.{
  Grows, Grows-refl, Grows-trans, Grows-if, advance-Grows, advance_while-Grows, match_char-Grows,
  skip_trivia-Grows,
}
use gura.Lexer.Scan.{
  at_continue, in_escaped, at_digit, in_triple, in_string, skip_trivia, lex_identifier_or_keyword,
  lex_escaped_identifier, lex_digits, lex_suffix, lex_number, close_triple, string_char,
  string_rounds, lex_string, char_body, lex_char, lex_punctuation, lex_operator, lex_from, next,
  is_end, lex_rounds, lex_all, has_fraction, number_kind, has_width, single_kind,
}
use gura.Lexer.Tokens.{Token, TokenKind, find_keyword, keyword_kind, keywords}

-- What a function of the lexer does at least: it gives no character back, and its token is not the
-- end of the file.
pub record Lexes (l : Lexer) (r : Lexer × Token) : Type 0 where
  pub grows : Grows l r.0
  pub kind : is_end r.1.kind ≡ false

pub record Kinds (l : Lexer) (r : Lexer × TokenKind) : Type 0 where
  pub grows : Grows l r.0
  pub kind : is_end r.1 ≡ false

lexes : {l : Lexer} {r : Lexer × Token} → Grows l r.0 → is_end r.1.kind ≡ false → Lexes l r
lexes g e = record { grows = g; kind = e }

kinds : {l : Lexer} {r : Lexer × TokenKind} → Grows l r.0 → is_end r.1 ≡ false → Kinds l r
kinds g e = record { grows = g; kind = e }

Lexes-if :
    {l : Lexer} (b : Bool) {x y : Lexer × Token}
    → Lexes l x
    → Lexes l y
    → Lexes l (if b then x else y)
Lexes-if true h g = h
Lexes-if false h g = g

Kinds-if :
    {l : Lexer} (b : Bool) {x y : Lexer × TokenKind}
    → Kinds l x
    → Kinds l y
    → Kinds l (if b then x else y)
Kinds-if true h g = h
Kinds-if false h g = g

is_end-if :
    (b : Bool) (x y : TokenKind)
    → is_end x ≡ false
    → is_end y ≡ false
    → is_end (if b then x else y) ≡ false
is_end-if true x y h g = h
is_end-if false x y h g = g

find_keyword-is_end :
    (text : List ℕ) (table : List (String × TokenKind))
    → All (λ e. is_end e.1 ≡ false) table
    → is_end (find_keyword text table) ≡ false
unfolding find_keyword
find_keyword-is_end text [] h = refl
find_keyword-is_end text ((w, k) ∷ table) h =
    is_end-if (same_text text (codes w)) k _ h.0 (find_keyword-is_end text table h.1)

keyword_kind-is_end : (text : List ℕ) → is_end (keyword_kind text) ≡ false
unfolding keyword_kind
keyword_kind-is_end text = find_keyword-is_end text keywords (ground arith)

identifier-Lexes : (l : Lexer) → Lexes l (lex_identifier_or_keyword l)
unfolding lex_identifier_or_keyword
identifier-Lexes l = lexes (advance_while-Grows at_continue l) (keyword_kind-is_end _)

escaped-Lexes : (l : Lexer) → Lexes l (lex_escaped_identifier l)
unfolding lex_escaped_identifier gura.Lexer.make_token
escaped-Lexes l =
    let g = Grows-trans (advance_while-Grows in_escaped l) (match_char-Grows b'`' _) in
    Lexes-if (matches b'`' (advance_while in_escaped l)) (lexes g refl) (lexes g refl)

digits-Grows : (l : Lexer) → Grows l (lex_digits l)
unfolding lex_digits
digits-Grows l =
    let l₁ = advance_while at_digit l in
    let g = advance_while-Grows at_digit l in
    Grows-if (has_fraction l₁)
      (Grows-trans g (Grows-trans (advance-Grows l₁) (advance_while-Grows at_digit (advance l₁)))) g

suffix-Kinds : (kind : TokenKind) (l : Lexer) → is_end kind ≡ false → Kinds l (lex_suffix kind l)
unfolding lex_suffix
suffix-Kinds kind l h =
    let l₁ = advance l in
    let g₁ = advance-Grows l in
    let g₂ = Grows-trans g₁ (Grows-trans (advance-Grows l₁) (advance-Grows (advance l₁))) in
    Kinds-if (peek 0 l == b'i' || peek 0 l == b'f')
      (Kinds-if (has_width l₁)
        (Kinds-if _ (kinds (Grows-trans g₂ (advance_while-Grows at_continue _)) refl) (kinds g₂ h))
        (kinds (Grows-trans g₁ (advance_while-Grows at_continue l₁)) refl))
      (Kinds-if _ (kinds (advance_while-Grows at_continue l) refl) (kinds (Grows-refl l) h))

number_kind-is_end : (l : Lexer) → is_end (number_kind l) ≡ false
unfolding number_kind
number_kind-is_end l = ground arith

number-Lexes : (l : Lexer) → Lexes l (lex_number l)
unfolding lex_number gura.Lexer.make_token
number-Lexes l =
    let s = suffix-Kinds (number_kind l) (lex_digits l) (number_kind-is_end l) in
    lexes (Grows-trans (digits-Grows l) s.grows) s.kind

string_char-Grows : (l : Lexer) → Grows l (string_char l)
unfolding string_char
string_char-Grows l =
    Grows-trans
      (Grows-if (peek 0 l == b'\\' && not (peek 1 l == 0)) (advance-Grows l) (Grows-refl l))
      (advance-Grows _)

string_rounds-Grows : (f : ℕ) (l : Lexer) → Grows l (string_rounds f l)
unfolding string_rounds
string_rounds-Grows zero l = Grows-refl l
string_rounds-Grows (suc f) l =
    Grows-if (in_string l)
      (Grows-trans (string_char-Grows l) (string_rounds-Grows f (string_char l))) (Grows-refl l)

close_triple-Grows : (l : Lexer) → Grows l (close_triple l)
unfolding close_triple
close_triple-Grows l = Grows-if (is_at_end l) (Grows-refl l) (
    Grows-trans (advance-Grows l)
      (Grows-trans (advance-Grows (advance l)) (advance-Grows (advance (advance l)))))

string-Lexes : (l : Lexer) → Lexes l (lex_string l)
unfolding lex_string gura.Lexer.make_token
string-Lexes l =
    let long = Grows-trans (advance-Grows l) (
      Grows-trans (advance-Grows (advance l))
        (Grows-trans (advance_while-Grows in_triple _) (close_triple-Grows _))) in
    let g = Grows-trans (string_rounds-Grows (remaining l) l) (match_char-Grows b'"' _) in
    Lexes-if (peek 0 l == b'"' && peek 1 l == b'"') (lexes long refl)
      (Lexes-if (matches b'"' (string_rounds (remaining l) l)) (lexes g refl) (lexes g refl))

char_body-Grows : (l : Lexer) → Grows l (char_body l)
unfolding char_body
char_body-Grows l =
    Grows-if (is_at_end l) (Grows-refl l) (
      Grows-trans (Grows-if (peek 0 l == b'\\') (advance-Grows l) (Grows-refl l)) (advance-Grows _))

char-Lexes : (l : Lexer) → Lexes l (lex_char l)
unfolding lex_char gura.Lexer.make_token
char-Lexes l = lexes (Grows-trans (char_body-Grows l) (match_char-Grows b'\'' _)) (ground arith)

single_kind-is_end : (c : ℕ) → is_end (single_kind c) ≡ false
unfolding single_kind
single_kind-is_end c = ground arith

punctuation-Kinds : (c : ℕ) (l : Lexer) → Kinds l (lex_punctuation c l)
unfolding lex_punctuation
punctuation-Kinds c l =
    let m = λ (x : ℕ). match_char-Grows x l in
    Kinds-if (c == b'-') (kinds (m b'>') (ground arith)) (
      Kinds-if (c == b'=')
        (Kinds-if (matches b'=' l) (kinds (m b'=') refl) (kinds (m b'>') (ground arith)))
        (Kinds-if (c == b'!') (kinds (m b'=') (ground arith)) (
          Kinds-if (c == b'<') (kinds (m b'=') (ground arith)) (
            Kinds-if (c == b'>') (kinds (m b'=') (ground arith))
              (kinds (Grows-refl l) (single_kind-is_end c))))))

operator-Lexes : (b : SourceLocation) (o c : ℕ) (l : Lexer) → Lexes l (lex_operator b o c l)
unfolding lex_operator gura.Lexer.make_token
operator-Lexes b o c l = let k = punctuation-Kinds c l in lexes k.grows k.kind

from-Lexes : (b : SourceLocation) (o c : ℕ) (l : Lexer) → Lexes l (lex_from b o c l)
unfolding lex_from
from-Lexes b o c l = Lexes-if _ (identifier-Lexes l) (
    Lexes-if _ (number-Lexes l) (
      Lexes-if _ (escaped-Lexes l)
        (Lexes-if _ (string-Lexes l) (Lexes-if _ (char-Lexes l) (operator-Lexes b o c l)))))

before-end : (l m : Lexer) → Grows l m → is_at_end m ≡ false → l.offset < length l.source
unfolding is_at_end
before-end l m g n = let e = ap length g.source in ground arith

-- `next` gives the end of the file when only white space and comments are left; any other token
-- takes a character at least.
pub next-progress :
    (l : Lexer)
    → ((next l).0.source ≡ l.source)
      × (is_end (next l).1.kind ≡ is_at_end (skip_trivia l))
      × (is_end (next l).1.kind ≡ false → l.offset < (next l).0.offset)
      × (is_end (next l).1.kind ≡ false → l.offset < length l.source)
      × (is_end (next l).1.kind ≡ true → (next l).0 ≡ skip_trivia l)
unfolding next
next-progress l =
    let l₁ = skip_trivia l in
    let g = skip_trivia-Grows l in
    let f = from-Lexes (gura.Lexer.location l₁) l₁.offset (peek 0 l₁) (advance l₁) in
    let h = f.grows in
    let a = advance-Grows l₁ in
    elim (Bool-cases (is_at_end l₁)) [
      | inl y ↦ rw y (g.source, refl, λ z. cc, λ z. cc, λ z. refl)
      | inr n ↦ rw n (
        h.source ∙ a.source ∙ g.source,
        f.kind,
        λ z. unfold advance in omega arith,
        λ z. before-end l l₁ g n,
        λ z. cc,
      )
    ]

-- One end-of-file token, at the end.
abbrev pub EndsOnce : List Token → Type 0
EndsOnce [] = ⊥
EndsOnce (t ∷ []) = is_end t.kind ≡ true
EndsOnce (t ∷ u ∷ ts) = (is_end t.kind ≡ false) × EndsOnce (u ∷ ts)

EndsOnce-cons :
    (t : Token) (ts : List Token) → is_end t.kind ≡ false → EndsOnce ts → EndsOnce (t ∷ ts)
EndsOnce-cons t [] e h = absurd h
EndsOnce-cons t (u ∷ ts) e h = (e, h)

lex_rounds-EndsOnce : (f : ℕ) (l : Lexer) → remaining l < f → EndsOnce (lex_rounds f l)
unfolding lex_rounds
lex_rounds-EndsOnce zero l h = elim h [ ]
lex_rounds-EndsOnce (suc f) l h =
    let (s, e, p, r, q) = next-progress l in
    elim (Bool-cases (is_end (next l).1.kind)) [
      | inl y ↦ rw y y
      | inr n ↦ rw n (
          EndsOnce-cons (next l).1 _ n
            (lex_rounds-EndsOnce f (next l).0 (omega (arith, ap length s, p n, r n))))
    ]

-- `lexAll` returns for every source: the tokens end with the end of the file, and none before it
-- is.
pub lex_all-EndsOnce : (source : List ℕ) → EndsOnce (lex_all source)
unfolding lex_all
lex_all-EndsOnce source =
    lex_rounds-EndsOnce (suc (remaining (lexer source))) (lexer source) (omega arith)
