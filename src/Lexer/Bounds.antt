-- ===== src/Lexer/Bounds.antt =====
-- src/lexer/Lexer.cpp: where the loops of the lexer read, white space and comments included.
use gura.Prelude.{
  ℕ, zero, suc, ◌+◌, ◌<◌, ◌≡◌, ◌≢◌, refl, ◌∙◌, inl, inr, Bool, true, false, not, ◌&&◌, List, [],
  ◌∷◌, ◌==◌, if◌then◌else◌, length, get_or, arith, Bool-cases,
}
use gura.Lexer.{
  Lexer, is_at_end, peek, advance, matches, match_char, remaining, advance_rounds, advance_while,
  is_digit, is_identifier_continue, is_alpha,
}
use gura.Lexer.Progress.{advance_while-stops}
use gura.Lexer.Scan.{
  at_space, in_line, in_block, close_block, skip_rounds, skip_trivia, at_continue, at_digit,
}

get_or-inside : (cs : List ℕ) (i : ℕ) → get_or cs i 0 ≢ 0 → i < length cs
get_or-inside [] i n = absurd (n refl)
get_or-inside (c ∷ cs) zero n = omega arith
get_or-inside (c ∷ cs) (suc i) n = omega (arith, get_or-inside cs i n)

-- Only inside the source there is a character.
pub peek-inside : (k : ℕ) (l : Lexer) → peek k l ≢ 0 → l.offset + k < length l.source
unfolding peek
peek-inside k l n = get_or-inside l.source (l.offset + k) n

-- No read behind the end is added.
pub record Safe (l m : Lexer) : Type 0 where
  pub overrun : m.overrun ≡ l.overrun

pub Safe-refl : (l : Lexer) → Safe l l
Safe-refl l = record { overrun = refl }

pub Safe-if :
    {l m n : Lexer} (b : Bool)
    → (b ≡ true → Safe l m)
    → (b ≡ false → Safe l n)
    → Safe l (if b then m else n)
Safe-if true f g = f refl
Safe-if false f g = g refl

pub Safe-trans : {l m n : Lexer} → Safe l m → Safe m n → Safe l n
Safe-trans g h = record { overrun = h.overrun ∙ g.overrun }

pub advance-Safe : (l : Lexer) → l.offset < length l.source → Safe l (advance l)
unfolding advance is_at_end
advance-Safe l h = record { overrun = ground arith }

pub advance_two-Safe : (l : Lexer) → l.offset + 1 < length l.source → Safe l (advance (advance l))
unfolding advance is_at_end
advance_two-Safe l h = record { overrun = ground arith }

pub advance_three-Safe :
    (l : Lexer) → l.offset + 2 < length l.source → Safe l (advance (advance (advance l)))
unfolding advance is_at_end
advance_three-Safe l h = record { overrun = ground arith }

-- A test that holds only inside the source.
abbrev pub Inside : (Lexer → Bool) → Type 0
Inside test = (m : Lexer) → test m ≡ true → m.offset < length m.source

advance_rounds-Safe :
    (test : Lexer → Bool) → Inside test → (f : ℕ) (l : Lexer) → Safe l (advance_rounds test f l)
unfolding advance_rounds
advance_rounds-Safe test h zero l = Safe-refl l
advance_rounds-Safe test h (suc f) l = elim (Bool-cases (test l)) [
  | inl y ↦ rw y (Safe-trans (advance-Safe l (h l y)) (advance_rounds-Safe test h f (advance l)))
  | inr n ↦ rw n (Safe-refl l)
]

pub advance_while-Safe :
    (test : Lexer → Bool) (l : Lexer) → Inside test → Safe l (advance_while test l)
unfolding advance_while
advance_while-Safe test l h = advance_rounds-Safe test h (remaining l) l

-- What holds at the next characters holds inside the source.
pub not_end-Inside : (test : Lexer → Bool) → Inside (λ m. not (is_at_end m) && test m)
unfolding is_at_end
not_end-Inside test m h = ground arith

pub at_continue-Inside : Inside at_continue
unfolding is_identifier_continue is_alpha is_digit
at_continue-Inside m h = omega (arith, peek-inside 0 m (λ e. ground arith))

pub at_digit-Inside : Inside at_digit
unfolding is_digit
at_digit-Inside m h = omega (arith, peek-inside 0 m (λ e. ground arith))

pub match_char-Safe : (c : ℕ) (l : Lexer) → Safe l (match_char c l)
unfolding match_char matches is_at_end
match_char-Safe c l = Safe-if (matches c l) (λ y. advance-Safe l (ground arith)) (λ n. Safe-refl l)

close_block-Safe : (l : Lexer) → in_block l ≡ false → Safe l (close_block l)
unfolding close_block is_at_end
close_block-Safe l h =
    Safe-if (is_at_end l) (λ y. Safe-refl l)
      (λ n. advance_two-Safe l (omega (arith, peek-inside 1 l (λ e. ground arith))))

skip_rounds-Safe : (f : ℕ) (l : Lexer) → Safe l (skip_rounds f l)
unfolding skip_rounds
skip_rounds-Safe zero l = Safe-refl l
skip_rounds-Safe (suc f) l =
    let l₁ = advance_while at_space l in
    let l₂ = advance_while in_block (advance (advance l₁)) in
    Safe-trans (advance_while-Safe at_space l (not_end-Inside _)) (
      Safe-if (peek 0 l₁ == b'/' && peek 1 l₁ == b'/')
        (λ y. Safe-trans (advance_while-Safe in_line l₁ (not_end-Inside _)) (skip_rounds-Safe f _))
        (λ n.
          Safe-if (peek 0 l₁ == b'/' && peek 1 l₁ == b'*')
            (λ y.
              Safe-trans (advance_two-Safe l₁ (omega (arith, peek-inside 1 l₁ (λ e. ground arith))))
                (Safe-trans (advance_while-Safe in_block (advance (advance l₁)) (not_end-Inside _))
                  (Safe-trans
                    (close_block-Safe l₂ (advance_while-stops in_block _ (λ m e. ground arith)))
                    (skip_rounds-Safe f (close_block l₂)))))
            (λ m. Safe-refl l₁)))

pub skip_trivia-Safe : (l : Lexer) → Safe l (skip_trivia l)
unfolding skip_trivia
skip_trivia-Safe l = skip_rounds-Safe (suc (remaining l)) l
