-- ===== src/Lexer/TokenBounds.antt =====
-- `Lexer::next` of src/lexer/Lexer.cpp: where the functions for tokens read.
use gura.Prelude.{
  ℕ, zero, suc, ◌+◌, ◌≡◌, refl, ◌⊎◌, inl, inr, Bool, true, false, not, ◌&&◌, ◌||◌, ◌==◌, ltb,
  if◌then◌else◌, length, arith, Bool-cases,
}
use gura.Basic.{SourceLocation}
use gura.Lexer.{
  Lexer, is_at_end, peek, advance, matches, match_char, remaining, advance_while, is_digit,
  is_identifier_start, is_alpha, location,
}
use gura.Lexer.Progress.{advance_while-stops}
use gura.Lexer.Bounds.{
  Safe, Safe-if, Safe-refl, Safe-trans, peek-inside, advance-Safe, advance_two-Safe,
  advance_three-Safe, advance_while-Safe, not_end-Inside, at_continue-Inside, at_digit-Inside,
  match_char-Safe, skip_trivia-Safe,
}
use gura.Lexer.Tokens.{Token, TokenKind}
use gura.Lexer.Scan.{
  skip_trivia, at_continue, at_digit, in_escaped, in_triple, in_string, lex_identifier_or_keyword,
  lex_escaped_identifier, has_fraction, lex_digits, number_kind, has_width, lex_suffix, lex_number,
  close_triple, string_char, string_rounds, lex_string, char_body, lex_char, lex_punctuation,
  lex_operator, lex_from, next,
}

identifier-Safe : (l : Lexer) → Safe l (lex_identifier_or_keyword l).0
unfolding lex_identifier_or_keyword
identifier-Safe l = advance_while-Safe at_continue l at_continue-Inside

-- The first component of a conditional on pairs.
pair-Safe :
    {A : Type 0} {l : Lexer} (b : Bool) (x y : Lexer × A)
    → (b ≡ true → Safe l x.0)
    → (b ≡ false → Safe l y.0)
    → Safe l (if b then x else y).0
pair-Safe true x y f g = f refl
pair-Safe false x y f g = g refl

escaped-Safe : (l : Lexer) → Safe l (lex_escaped_identifier l).0
unfolding lex_escaped_identifier
escaped-Safe l =
    let l₁ = advance_while in_escaped l in
    let g =
      Safe-trans (advance_while-Safe in_escaped l (not_end-Inside _)) (match_char-Safe b'`' l₁) in
    pair-Safe (matches b'`' l₁) _ _ (λ y. g) (λ n. g)

digits-Safe : (l : Lexer) → Safe l (lex_digits l)
unfolding lex_digits has_fraction
digits-Safe l =
    let l₁ = advance_while at_digit l in
    Safe-trans (advance_while-Safe at_digit l at_digit-Inside) (
      Safe-if (has_fraction l₁)
        (λ y.
          Safe-trans (advance-Safe l₁ (omega (arith, peek-inside 0 l₁ (λ e. ground arith))))
            (advance_while-Safe at_digit (advance l₁) at_digit-Inside))
        (λ n. Safe-refl l₁))

suffix-Safe : (k : TokenKind) (l : Lexer) → Safe l (lex_suffix k l).0
unfolding lex_suffix has_width is_identifier_start is_alpha
suffix-Safe k l =
    let l₁ = advance l in
    let l₂ = advance (advance l₁) in
    pair-Safe (peek 0 l == b'i' || peek 0 l == b'f') _ _
      (λ y. Safe-trans (advance-Safe l (omega (arith, peek-inside 0 l (λ e. ground arith)))) (
        pair-Safe (has_width l₁) _ _
          (λ z.
            let g = advance_two-Safe l₁ (omega (arith, peek-inside 1 l₁ (λ e. ground arith))) in
            pair-Safe _ _ _
              (λ _. Safe-trans g (advance_while-Safe at_continue l₂ at_continue-Inside)) (λ _. g))
          (λ _. advance_while-Safe at_continue l₁ at_continue-Inside)))
      (λ n.
        pair-Safe (is_identifier_start (peek 0 l)) _ _
          (λ _. advance_while-Safe at_continue l at_continue-Inside) (λ _. Safe-refl l))

number-Safe : (l : Lexer) → Safe l (lex_number l).0
unfolding lex_number
number-Safe l = Safe-trans (digits-Safe l) (suffix-Safe (number_kind l) (lex_digits l))

close_triple-Safe : (l : Lexer) → in_triple l ≡ false → Safe l (close_triple l)
unfolding close_triple is_at_end
close_triple-Safe l h =
    Safe-if (is_at_end l) (λ y. Safe-refl l)
      (λ n. advance_three-Safe l (omega (arith, peek-inside 2 l (λ e. ground arith))))

string_char-Safe : (l : Lexer) → in_string l ≡ true → Safe l (string_char l)
unfolding string_char is_at_end
string_char-Safe l h = elim (Bool-cases (peek 0 l == b'\\' && not (peek 1 l == 0))) [
  | inl y ↦ rw y (advance_two-Safe l (omega (arith, peek-inside 1 l (λ e. ground arith))))
  | inr n ↦ rw n (advance-Safe l (ground arith))
]

string_rounds-Safe : (f : ℕ) (l : Lexer) → Safe l (string_rounds f l)
unfolding string_rounds
string_rounds-Safe zero l = Safe-refl l
string_rounds-Safe (suc f) l =
    Safe-if (in_string l)
      (λ y. Safe-trans (string_char-Safe l y) (string_rounds-Safe f (string_char l)))
      (λ n. Safe-refl l)

string-Safe : (l : Lexer) → Safe l (lex_string l).0
unfolding lex_string
string-Safe l =
    let l₂ = advance (advance l) in
    let short = string_rounds (remaining l) l in
    let g = Safe-trans (string_rounds-Safe (remaining l) l) (match_char-Safe b'"' short) in
    pair-Safe (peek 0 l == b'"' && peek 1 l == b'"') _ _
      (λ y. Safe-trans (advance_two-Safe l (omega (arith, peek-inside 1 l (λ e. ground arith)))) (
        Safe-trans (advance_while-Safe in_triple l₂ (not_end-Inside _)) (
          close_triple-Safe (advance_while in_triple l₂)
            (advance_while-stops in_triple l₂ (λ m e. ground arith)))))
      (λ n. pair-Safe (matches b'"' short) _ _ (λ _. g) (λ _. g))

punctuation-Safe : (c : ℕ) (l : Lexer) → Safe l (lex_punctuation c l).0
unfolding lex_punctuation
punctuation-Safe c l =
    pair-Safe (c == b'-') _ _ (λ _. match_char-Safe b'>' l)
      λ _.
        pair-Safe (c == b'=') _ _
          (λ _.
            pair-Safe (matches b'=' l) _ _ (λ _. match_char-Safe b'=' l)
              (λ _. match_char-Safe b'>' l))
          λ _.
            pair-Safe (c == b'!') _ _ (λ _. match_char-Safe b'=' l)
              λ _.
                pair-Safe (c == b'<') _ _ (λ _. match_char-Safe b'=' l)
                  λ _. pair-Safe (c == b'>') _ _ (λ _. match_char-Safe b'=' l) λ _. Safe-refl l

-- The character behind a quote is a backslash that ends the source.
abbrev pub IsCutEscape : Lexer → Type 0
IsCutEscape l = (peek 0 l ≡ b'\\') × (l.offset + 1 ≡ length l.source)

char_body-Safe : (l : Lexer) → Safe l (char_body l) ⊎ IsCutEscape l
unfolding char_body is_at_end
char_body-Safe l = elim (Bool-cases (is_at_end l)) [
  | inl y ↦ inl (rw y (Safe-refl l))
  | inr n ↦ elim (Bool-cases (peek 0 l == b'\\')) [
    | inl y ↦ elim (Bool-cases (ltb (l.offset + 1) (length l.source))) [
      | inl z ↦ inl (rw (n, y) (advance_two-Safe l (ground arith)))
      | inr z ↦ inr (ground arith, ground arith)
    ]
    | inr m ↦ inl (rw (n, m) (advance-Safe l (ground arith)))
  ]
]

char-Safe : (l : Lexer) → Safe l (lex_char l).0 ⊎ IsCutEscape l
unfolding lex_char
char-Safe l = elim (char_body-Safe l) [
  | inl s ↦ inl (Safe-trans s (match_char-Safe b'\'' (char_body l)))
  | inr c ↦ inr c
]

-- Safe, or a cut escape behind a quote.
data Checked (c : ℕ) (l : Lexer) (r : Lexer × Token) : Type 0 where
  safe : Safe l r.0 → Checked c l r
  cut : c ≡ b'\'' → IsCutEscape l → Checked c l r

char-Checked : (c : ℕ) (l : Lexer) → (c == b'\'') ≡ true → Checked c l (lex_char l)
char-Checked c l y = elim (char-Safe l) [ inl s ↦ safe s | inr e ↦ cut (ground arith) e ]

Checked-if :
    (c : ℕ) (l : Lexer) (b : Bool) (x y : Lexer × Token)
    → (b ≡ true → Checked c l x)
    → (b ≡ false → Checked c l y)
    → Checked c l (if b then x else y)
Checked-if c l true x y f g = f refl
Checked-if c l false x y f g = g refl

from-Checked : (b : SourceLocation) (o c : ℕ) (l : Lexer) → Checked c l (lex_from b o c l)
unfolding lex_from lex_operator
from-Checked b o c l =
    Checked-if c l (is_identifier_start c) (lex_identifier_or_keyword l) _
      (λ _. safe (identifier-Safe l))
      λ _.
        Checked-if c l (is_digit c) (lex_number l) _ (λ _. safe (number-Safe l))
          λ _.
            Checked-if c l (c == b'`') (lex_escaped_identifier l) _ (λ _. safe (escaped-Safe l))
              λ _.
                Checked-if c l (c == b'"') (lex_string l) _ (λ _. safe (string-Safe l))
                  λ _.
                    Checked-if c l (c == b'\'') (lex_char l) (lex_operator b o c l)
                      (char-Checked c l) λ _. safe (punctuation-Safe c l)

-- `next` reads no character behind the end of the source, unless what is left after white space
-- and comments is a quote and a backslash.
pub next-overrun :
    (l : Lexer)
    → ((next l).0.overrun ≡ l.overrun)
      ⊎ ((peek 0 (skip_trivia l) ≡ b'\'') × IsCutEscape (advance (skip_trivia l)))
unfolding next
next-overrun l =
    let m = skip_trivia l in
    let g = skip_trivia-Safe l in
    elim (Bool-cases (is_at_end m)) [
      | inl y ↦ rw y (inl g.overrun)
      | inr n ↦ rw n (elim (from-Checked (location m) m.offset (peek 0 m) (advance m)) [
        | safe s ↦
            inl
              (Safe-trans (Safe-trans g (advance-Safe m (unfold is_at_end in ground arith)))
                s).overrun
        | cut q e ↦ inr (q, e)
      ])
    ]

char-overrun : (l : Lexer) → IsCutEscape l → (lex_char l).0.overrun ≡ true
unfolding lex_char char_body advance is_at_end match_char matches
char-overrun l (e, h) = ground arith

-- Where a quote and a backslash that ends the source are left after white space and comments,
-- `next` reads behind the end of the source.
pub next-cut_escape :
    (l : Lexer)
    → peek 0 (skip_trivia l) ≡ b'\''
    → IsCutEscape (advance (skip_trivia l))
    → (next l).0.overrun ≡ true
unfolding next lex_from is_identifier_start is_alpha is_digit
next-cut_escape l q c =
    let m = skip_trivia l in
    let n : is_at_end m ≡ false =
      unfold is_at_end in ground (arith, peek-inside 0 m (λ e. ground arith)) in
    rw (n, q) (char-overrun (advance m) c)
