-- ===== src/Lexer/Trivia.antt =====
-- `Lexer::skipTrivia` of src/lexer/Lexer.cpp: what it leaves.
use gura.Prelude.{
  ℕ, zero, suc, ◌<◌, ◌≡◌, ap, inl, inr, Bool, true, false, ◌&&◌, ◌||◌, ◌==◌, length, arith,
  Bool-cases,
}
use gura.Lexer.{Lexer, is_at_end, peek, advance, remaining, advance_rounds, advance_while}
use gura.Lexer.Progress.{
  Grows, Grows-trans, advance-Grows, advance_rounds-Grows, advance_while-Grows, advance_while-stops,
  close_block-Grows,
}
use gura.Lexer.Bounds.{peek-inside}
use gura.Lexer.Scan.{at_space, in_line, in_block, close_block, skip_rounds, skip_trivia}

-- Whether a comment begins here.
abbrev pub at_comment : Lexer → Bool
at_comment l = (peek 0 l == b'/' && peek 1 l == b'/') || (peek 0 l == b'/' && peek 1 l == b'*')

-- Neither white space nor a comment begins here.
pub record IsAtToken (l : Lexer) : Type 0 where
  pub space : at_space l ≡ false
  pub comment : at_comment l ≡ false

-- A loop whose test holds takes a character.
advance_while-moves :
    (test : Lexer → Bool) (l : Lexer)
    → l.offset < length l.source
    → test l ≡ true
    → l.offset < (advance_while test l).offset
unfolding advance_while advance_rounds
advance_while-moves test l h y = moves (remaining l) (omega arith)
  where
    moves : (f : ℕ) → 0 < f → l.offset < (advance_rounds test f l).offset
    moves zero z = absurd (omega arith)
    moves (suc f) z = rw y (
        let g = advance_rounds-Grows test f (advance l) in
        unfold advance in omega (arith, g.offset))

-- What is left behind a comment is shorter.
shorter :
    {l m : Lexer}
    → Grows l m
    → l.offset < length l.source
    → l.offset < m.offset
    → remaining m < remaining l
shorter {l} {m} g h k = let e = ap length g.source in omega (arith, e)

skip_rounds-IsAtToken : (f : ℕ) (l : Lexer) → remaining l < f → IsAtToken (skip_rounds f l)
unfolding skip_rounds
skip_rounds-IsAtToken zero l h = absurd (omega arith)
skip_rounds-IsAtToken (suc f) l h =
    let l₁ = advance_while at_space l in
    let g₁ = advance_while-Grows at_space l in
    let line = advance_while in_line l₁ in
    let two = advance (advance l₁) in
    let inner = advance_while in_block two in
    let e₁ = ap length g₁.source in
    elim (Bool-cases (peek 0 l₁ == b'/' && peek 1 l₁ == b'/')) [
      | inl y ↦
          let i = peek-inside 0 l₁ (λ e. ground arith) in
          let m = advance_while-moves in_line l₁ (omega arith) (unfold is_at_end in ground arith) in
          let s = shorter (advance_while-Grows in_line l₁) (omega arith) m in
          rw y (skip_rounds-IsAtToken f line (omega (arith, g₁.offset)))
      | inr n ↦ elim (Bool-cases (peek 0 l₁ == b'/' && peek 1 l₁ == b'*')) [
        | inl y ↦
            let i = peek-inside 0 l₁ (λ e. ground arith) in
            let g = Grows-trans (advance_while-Grows in_block two) (close_block-Grows inner) in
            let g₂ = Grows-trans (Grows-trans (advance-Grows l₁) (advance-Grows (advance l₁))) g in
            let s = shorter g₂ (omega arith) (unfold advance in omega (arith, g.offset)) in
            rw (n, y) (skip_rounds-IsAtToken f (close_block inner) (omega (arith, g₁.offset)))
        | inr m ↦
            rw (n, m)
              (record {
                space = advance_while-stops at_space l (λ k e. ground arith);
                comment = ground arith;
              })
      ]
    ]

-- Behind `skipTrivia` there is neither white space nor the beginning of a comment.
pub skip_trivia-IsAtToken : (l : Lexer) → IsAtToken (skip_trivia l)
unfolding skip_trivia
skip_trivia-IsAtToken l = skip_rounds-IsAtToken (suc (remaining l)) l (omega arith)
