-- ===== src/Lexer/Progress.antt =====
-- The loops of src/lexer/Lexer.cpp, and the characters that they take.
use gura.Prelude.{
  ℕ, zero, suc, ◌≤◌, ◌≡◌, refl, ◌∙◌, inl, inr, Bool, true, false, ◌&&◌, ◌==◌, if◌then◌else◌, arith,
  Bool-cases,
}
use gura.Lexer.{
  Lexer, is_at_end, peek, advance, matches, match_char, remaining, advance_rounds, advance_while,
}
use gura.Lexer.Scan.{at_space, in_line, in_block, close_block, skip_rounds, skip_trivia}

-- The same source, no character given back.
pub record Grows (l m : Lexer) : Type 0 where
  pub source : m.source ≡ l.source
  pub offset : l.offset ≤ m.offset

pub Grows-refl : (l : Lexer) → Grows l l
Grows-refl l = record { source = refl; offset = omega arith }

pub Grows-trans : {l m n : Lexer} → Grows l m → Grows m n → Grows l n
Grows-trans g h = record { source = h.source ∙ g.source; offset = omega arith }

pub advance-Grows : (l : Lexer) → Grows l (advance l)
unfolding advance
advance-Grows l = record { source = refl; offset = omega arith }

pub advance_rounds-Grows :
    (test : Lexer → Bool) (f : ℕ) (l : Lexer) → Grows l (advance_rounds test f l)
unfolding advance_rounds
advance_rounds-Grows test zero l = Grows-refl l
advance_rounds-Grows test (suc f) l = elim (Bool-cases (test l)) [
  | inl y ↦ rw y (Grows-trans (advance-Grows l) (advance_rounds-Grows test f (advance l)))
  | inr n ↦ rw n (Grows-refl l)
]

pub advance_while-Grows : (test : Lexer → Bool) (l : Lexer) → Grows l (advance_while test l)
unfolding advance_while
advance_while-Grows test l = advance_rounds-Grows test (remaining l) l

pub Grows-if : {l m n : Lexer} (b : Bool) → Grows l m → Grows l n → Grows l (if b then m else n)
Grows-if true g h = g
Grows-if false g h = h

pub match_char-Grows : (c : ℕ) (l : Lexer) → Grows l (match_char c l)
unfolding match_char
match_char-Grows c l = Grows-if (matches c l) (advance-Grows l) (Grows-refl l)

-- The rounds suffice: behind the loop its test fails.
advance_rounds-stops :
    (test : Lexer → Bool)
    → ((m : Lexer) → is_at_end m ≡ true → test m ≡ false)
    → (f : ℕ) (l : Lexer) → remaining l ≤ f
    → test (advance_rounds test f l) ≡ false
unfolding advance_rounds
advance_rounds-stops test h zero l r = h l (unfold is_at_end in ground arith)
advance_rounds-stops test h (suc f) l r = elim (Bool-cases (test l)) [
  | inl y ↦ rw y (advance_rounds-stops test h f (advance l) (unfold advance in omega arith))
  | inr n ↦ rw n n
]

-- A loop of the lexer, whose test fails at the end of the source, runs until its test fails.
pub advance_while-stops :
    (test : Lexer → Bool) (l : Lexer)
    → ((m : Lexer) → is_at_end m ≡ true → test m ≡ false)
    → test (advance_while test l) ≡ false
unfolding advance_while
advance_while-stops test l h = advance_rounds-stops test h (remaining l) l (omega arith)

pub close_block-Grows : (l : Lexer) → Grows l (close_block l)
unfolding close_block
close_block-Grows l =
    Grows-if (is_at_end l) (Grows-refl l)
      (Grows-trans (advance-Grows l) (advance-Grows (advance l)))

skip_rounds-Grows : (f : ℕ) (l : Lexer) → Grows l (skip_rounds f l)
unfolding skip_rounds
skip_rounds-Grows zero l = Grows-refl l
skip_rounds-Grows (suc f) l =
    let l₁ = advance_while at_space l in
    let g = advance_while-Grows at_space l in
    let line = advance_while in_line l₁ in
    let block = close_block (advance_while in_block (advance (advance l₁))) in
    Grows-if (peek 0 l₁ == b'/' && peek 1 l₁ == b'/')
      (Grows-trans g (Grows-trans (advance_while-Grows in_line l₁) (skip_rounds-Grows f line)))
      (Grows-if (peek 0 l₁ == b'/' && peek 1 l₁ == b'*')
        (Grows-trans g (
          Grows-trans (advance-Grows l₁) (
            Grows-trans (advance-Grows (advance l₁)) (
              Grows-trans (advance_while-Grows in_block (advance (advance l₁)))
                (Grows-trans (close_block-Grows _) (skip_rounds-Grows f block))))))
        g)

pub skip_trivia-Grows : (l : Lexer) → Grows l (skip_trivia l)
unfolding skip_trivia
skip_trivia-Grows l = skip_rounds-Grows (suc (remaining l)) l
