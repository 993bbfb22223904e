-- ===== src/Lexer/Positions.antt =====
-- src/lexer/Lexer.cpp: the lines and columns that the lexer counts.
use gura.Prelude.{
  ℕ, zero, suc, ◌+◌, ◌<◌, ◌≡◌, refl, ap, ◌∙◌, false, List, [], ◌∷◌, ◌++◌, ◌==◌, if◌then◌else◌,
  length, get_or, take, arith,
}
use gura.Basic.{SourceLocation}
use gura.Lexer.{Lexer, lexer, is_at_end, peek, advance, wrap32}
use gura.Lexer.Advances.{Advances, stay, step, next-Advances}
use gura.Lexer.Scan.{next}

abbrev is_newline : ℕ → ℕ
is_newline c = if c == 10 then 1 else 0

abbrev pub newlines : List ℕ → ℕ
newlines [] = 0
newlines (c ∷ cs) = is_newline c + newlines cs

-- How many characters stand behind the last newline.
abbrev pub behind : List ℕ → ℕ
behind [] = 0
behind (c ∷ cs) = if newlines (c ∷ cs) == 0 then suc (length cs) else behind cs

newlines-snoc : (cs : List ℕ) (c : ℕ) → newlines (cs ++ (c ∷ [])) ≡ newlines cs + is_newline c
newlines-snoc [] c = omega arith
newlines-snoc (d ∷ cs) c = omega (arith, newlines-snoc cs c)

length-snoc : (cs : List ℕ) (c : ℕ) → length (cs ++ (c ∷ [])) ≡ suc (length cs)
length-snoc [] c = refl
length-snoc (d ∷ cs) c = ap suc (length-snoc cs c)

behind-none : (cs : List ℕ) → newlines cs ≡ 0 → behind cs ≡ length cs
behind-none [] h = refl
behind-none (c ∷ cs) h = ground arith

behind-snoc :
    (cs : List ℕ) (c : ℕ) → behind (cs ++ (c ∷ [])) ≡ (if c == 10 then 0 else suc (behind cs))
behind-snoc [] c = ground arith
behind-snoc (d ∷ cs) c =
    let i = behind-snoc cs c in
    let n = newlines-snoc cs c in let m = length-snoc cs c in ground (arith, behind-none cs)

take-next :
    (cs : List ℕ) (n : ℕ) → n < length cs → take (suc n) cs ≡ take n cs ++ (get_or cs n 0 ∷ [])
take-next [] n h = absurd (omega arith)
take-next (c ∷ cs) zero h = refl
take-next (c ∷ cs) (suc n) h = ap (λ l. c ∷ l) (take-next cs n (omega arith))

-- The line and the column are those of the characters before the offset, as 32-bit integers.
pub record IsPlaced (l : Lexer) : Type 0 where
  pub line : l.line ≡ wrap32 (1 + newlines (take l.offset l.source))
  pub column : l.column ≡ wrap32 (1 + behind (take l.offset l.source))

peek_here : (l : Lexer) → peek 0 l ≡ get_or l.source l.offset 0
unfolding peek
peek_here l = ap (λ i. get_or l.source i 0) (omega arith)

advance-IsPlaced : (l : Lexer) → l.offset < length l.source → IsPlaced l → IsPlaced (advance l)
unfolding advance
advance-IsPlaced l h p =
    let cs = take l.offset l.source in
    let c = get_or l.source l.offset 0 in
    let e : take (l.offset + 1) l.source ≡ cs ++ (c ∷ []) =
      ap (λ n. take n l.source) {y = suc l.offset} (omega arith) ∙ take-next l.source l.offset h in
    let n = ap newlines e ∙ newlines-snoc cs c in
    let b = ap behind e ∙ behind-snoc cs c in
    let k = peek_here l in
    let pl = p.line in let pc = p.column in record { line = ground arith; column = ground arith }

Advances-IsPlaced : {l m : Lexer} → Advances l m → m.overrun ≡ false → IsPlaced l → IsPlaced m
unfolding advance is_at_end
Advances-IsPlaced stay o p = p
Advances-IsPlaced (step {m} g) o p =
    advance-IsPlaced m (ground arith) (Advances-IsPlaced g (ground arith) p)

-- What the lexer is when it has made a number of tokens.
pub data Lexed (source : List ℕ) : Lexer → Type 0 where
  start : Lexed source (lexer source)
  more : {l : Lexer} → Lexed source l → Lexed source (next l).0

Advances-source : {l m : Lexer} → Advances l m → m.source ≡ l.source
unfolding advance
Advances-source stay = refl
Advances-source (step g) = Advances-source g

Advances-overrun : {l m : Lexer} → Advances l m → m.overrun ≡ false → l.overrun ≡ false
unfolding advance
Advances-overrun stay o = o
Advances-overrun (step g) o = Advances-overrun g (ground arith)

Lexed-source : {source : List ℕ} {l : Lexer} → Lexed source l → l.source ≡ source
Lexed-source start = refl
Lexed-source (more {l} k) = Advances-source (next-Advances l).0 ∙ Lexed-source k

Lexed-IsPlaced : {source : List ℕ} {l : Lexer} → Lexed source l → l.overrun ≡ false → IsPlaced l
Lexed-IsPlaced start o = record { line = refl; column = refl }
Lexed-IsPlaced (more {l} k) o =
    let g = (next-Advances l).0 in Advances-IsPlaced g o (Lexed-IsPlaced k (Advances-overrun g o))

-- The position behind the first `n` characters of a source.
abbrev pub position : List ℕ → ℕ → SourceLocation
position source n = record {
  offset = wrap32 n;
  line = wrap32 (1 + newlines (take n source));
  column = wrap32 (1 + behind (take n source));
}

-- Every token that `next` makes, on a new lexer or after other tokens, ends at the position that
-- its end has in the source, unless characters behind the end of the source were read: the line
-- is one more than the newlines before it, the column one more than the characters behind the
-- last of them, both as 32-bit integers.
pub next-position :
    (source : List ℕ) (l : Lexer)
    → Lexed source l
    → (next l).0.overrun ≡ false
    → (next l).1.span.end ≡ position source (next l).0.offset
next-position source l k o =
    let m = (next l).0 in
    let p = Lexed-IsPlaced (more k) o in
    let e = Lexed-source (more k) in
    (next-Advances l).1
    ∙ (λ i. record { offset = wrap32 m.offset; line = p.line i; column = p.column i })
    ∙ ap (λ cs. position cs m.offset) e
