-- ===== src/Parser/Runs.antt =====
-- How far the operations of src/parser/Parser.cpp read, and rules for parses that do not run out of
-- fuel.
use gura.Prelude.{
  ℕ, zero, suc, ◌-◌, ◌≤◌, ◌<◌, ◌≡◌, refl, Bool, true, false, Option, some, List, [], ◌∷◌,
  if◌then◌else◌, leb, inl, inr, ap, length, get_or, arith, Bool-cases, String,
}
use gura.Basic.{Span}
use gura.Ast.{Expr, is_null}
use gura.Lexer.Tokens.{Token, TokenKind, end_of_file}
use gura.Parser.{
  Parser, M, and_then, at, peek, last, is_kind, advanced, advance, skip, consume, error_at,
  error_here, expect, next_node_id,
}

-- The tokens end with the end of the file.
abbrev pub Closed : Parser → Type 0
Closed s = is_kind (last s.tokens).kind end_of_file ≡ true

-- The tokens from the next on.
abbrev pub left : Parser → ℕ
left s = length s.tokens - s.index

pub record Reads (s t : Parser) : Type 0 where
  pub closed : Closed t
  pub le : left t ≤ left s

-- At least one token is taken.
pub record Eats (s t : Parser) : Type 0 where
  pub closed : Closed t
  pub lt : left t < left s

-- A token is taken if `b` holds.
pub record EatsIf (b : Bool) (s t : Parser) : Type 0 where
  pub closed : Closed t
  pub le : left t ≤ left s
  pub lt : b ≡ true → left t < left s

-- An expression is made of one token at least; where there is none, tokens may be skipped.
pub record ReadsExpr (s : Parser) (e : Expr) (t : Parser) : Type 0 where
  pub closed : Closed t
  pub le : left t ≤ left s
  pub lt : is_null e ≡ false → left t < left s

-- The parse did not run out of fuel, and `Q` holds of what it returned.
pub data Runs {A : Type 0} (Q : A → Parser → Type 0) : Option (A × Parser) → Type 0 where
  runs : {a : A} {t : Parser} → Q a t → Runs Q (some (a, t))

module _ {A : Type 0} where
  pub Runs-bind :
      {B : Type 0} {Q : A → Parser → Type 0} {Q' : B → Parser → Type 0} {o : Option (A × Parser)}
      (k : A → M B)
      → Runs Q o
      → ((a : A) (t : Parser) → Q a t → Runs Q' (k a t))
      → Runs Q' (and_then o k)
  Runs-bind k (runs {a} {t} q) f = f a t q

  pub Runs-map :
      {Q Q' : A → Parser → Type 0} {o : Option (A × Parser)}
      → Runs Q o
      → ((a : A) (t : Parser) → Q a t → Q' a t)
      → Runs Q' o
  Runs-map (runs {a} {t} q) f = runs (f a t q)

  pub Runs-if :
      {Q : A → Parser → Type 0} {s : Parser} (b : Bool) (x y : M A)
      → (b ≡ true → Runs Q (x s))
      → (b ≡ false → Runs Q (y s))
      → Runs Q ((if b then x else y) s)
  Runs-if true x y f g = f refl
  Runs-if false x y f g = g refl

get_or-past : (ts : List Token) (i : ℕ) (d : Token) → length ts ≤ i → get_or ts i d ≡ d
get_or-past [] i d h = refl
get_or-past (t ∷ ts) zero d h = absurd (omega arith)
get_or-past (t ∷ ts) (suc i) d h = get_or-past ts i d (omega arith)

-- Before the end of the file there is a token to take.
pub before-end : (s : Parser) → Closed s → at end_of_file s ≡ false → s.index < length s.tokens
unfolding at peek
before-end s c h = elim (Bool-cases (leb (length s.tokens) s.index)) [
  | inl y ↦
      let e = get_or-past s.tokens s.index (last s.tokens) (ground arith) in
      cc (ap (λ (t : Token). is_kind t.kind end_of_file) e)
  | inr n ↦ ground arith
]

-- A kind that is not the end of the file.
pub at-other :
    (k : TokenKind) (s : Parser)
    → at k s ≡ true
    → is_kind k end_of_file ≡ false
    → at end_of_file s ≡ false
unfolding at is_kind
at-other k s h n = ground arith

pub advanced-Reads : (s : Parser) → Closed s → Reads s (advanced s)
unfolding advanced
advanced-Reads s c = elim (Bool-cases (at end_of_file s)) [
  | inl y ↦ rw y (record { closed = c; le = omega arith })
  | inr n ↦ rw n (record { closed = c; le = omega arith })
]

pub advanced-Eats : (s : Parser) → Closed s → at end_of_file s ≡ false → Eats s (advanced s)
unfolding advanced
advanced-Eats s c n = rw n (record { closed = c; lt = omega (arith, before-end s c n) })

pub advance-Runs : (s : Parser) → Closed s → Runs (λ _ t. Reads s t) (advance s)
unfolding advance
advance-Runs s c = runs (advanced-Reads s c)

pub advance-Eats :
    (s : Parser) → Closed s → at end_of_file s ≡ false → Runs (λ _ t. Eats s t) (advance s)
unfolding advance
advance-Eats s c n = runs (advanced-Eats s c n)

pub skip-Runs : (s : Parser) → Closed s → Runs (λ _ t. Reads s t) (skip s)
unfolding skip
skip-Runs s c = runs (advanced-Reads s c)

pub skip-Eats : (s : Parser) → Closed s → at end_of_file s ≡ false → Runs (λ _ t. Eats s t) (skip s)
unfolding skip
skip-Eats s c n = runs (advanced-Eats s c n)

pub consume-Runs :
    (k : TokenKind) (s : Parser)
    → Closed s
    → is_kind k end_of_file ≡ false
    → Runs (λ b t. EatsIf b s t) (consume k s)
unfolding consume
consume-Runs k s c n = elim (Bool-cases (at k s)) [
  | inl y ↦
      let e = advanced-Eats s c (at-other k s y n) in
      rw y (runs (record { closed = e.closed; le = omega arith; lt = λ _. e.lt }))
  | inr z ↦ rw z (runs (record { closed = c; le = omega arith; lt = λ w. cc }))
]

pub error_at-Runs :
    (sp : Span) (m : String) (s : Parser) → Closed s → Runs (λ _ t. Reads s t) (error_at sp m s)
unfolding error_at
error_at-Runs sp m s c = runs (record { closed = c; le = omega arith })

pub error_here-Runs :
    (m : String) (s : Parser) → Closed s → Runs (λ _ t. Reads s t) (error_here m s)
unfolding error_here
error_here-Runs m s c = runs (record { closed = c; le = omega arith })

pub id-Runs : (s : Parser) → Closed s → Runs (λ _ t. Reads s t) (next_node_id s)
unfolding next_node_id
id-Runs s c = runs (record { closed = c; le = omega arith })

-- A node id leaves the tokens as they are.
pub id-at :
    (s : Parser)
    → Closed s
    → Runs (λ _ t. Reads s t × ((k : TokenKind) → at k t ≡ at k s)) (next_node_id s)
unfolding next_node_id at peek
id-at s c = runs (record { closed = c; le = omega arith }, λ k. refl)

pub Reads-trans : {s t u : Parser} → Reads s t → Reads t u → Reads s u
Reads-trans g h = record { closed = h.closed; le = omega arith }

pub expect-Runs :
    (k : TokenKind) (m : String) (s : Parser)
    → Closed s
    → is_kind k end_of_file ≡ false
    → Runs (λ _ t. Reads s t) (expect k m s)
unfolding expect
expect-Runs k m s c n = Runs-bind _ (consume-Runs k s c n) λ b t q.
    Runs-if b _ _ (λ _. runs (record { closed = q.closed; le = q.le }))
      (λ _.
        Runs-map (error_here-Runs m t q.closed)
          λ _ u r. record { closed = r.closed; le = omega arith })

-- What is expected and stands there is taken.
pub expect-Eats :
    (k : TokenKind) (m : String) (s : Parser)
    → Closed s
    → is_kind k end_of_file ≡ false
    → at k s ≡ true
    → Runs (λ _ t. Eats s t) (expect k m s)
unfolding expect consume
expect-Eats k m s c n h = rw h (runs (advanced-Eats s c (at-other k s h n)))
