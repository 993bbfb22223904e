-- ===== src/Parser/Totality.antt =====
-- src/parser/Parser.cpp: paths and types, and the fuel that their parse takes.
use gura.Prelude.{ℕ, zero, suc, ◌≤◌, ◌<◌, refl, arith}
use gura.Basic.{SourceLocation}
use gura.Ast.{Capability}
use gura.Lexer.Tokens.{identifier, dot, question, l_bracket, r_bracket, ordinal}
use gura.Parser.{Parser, at, peek, is_kind, here}
use gura.Parser.Runs.{
  Closed, left, Reads, Runs, runs, Runs-bind, Runs-map, Runs-if, advance-Eats, advanced-Reads,
  consume-Runs, error_here-Runs, id-Runs, expect-Runs, at-other,
}
use gura.Parser.Types.{
  PathContext, path_rest, parse_path, parse_capability, capability_of, parse_named_type,
  parse_type_ref, expected_path, expected_identifier, is_none, type_path,
}

pub Reads-make : {s t : Parser} → Closed t → left t ≤ left s → Reads s t
Reads-make c h = record { closed = c; le = h }

path_rest-Runs :
    (f : ℕ) (x : PathContext) (s : Parser)
    → Closed s
    → left s < f
    → Runs (λ _ t. Reads s t) (path_rest f x s)
unfolding path_rest ordinal is_kind
path_rest-Runs zero x s c h = elim h [ ]
path_rest-Runs (suc f) x s c h = Runs-bind _ (consume-Runs dot s c refl) λ b t q.
    Runs-if b _ _
      (λ y.
        Runs-if (at identifier t) _ _
          (λ z. Runs-bind _ (advance-Eats t q.closed (at-other identifier t z refl)) λ tok u r.
            Runs-bind _ (path_rest-Runs f x u r.closed (omega (arith, q.lt y)))
              λ _ v w. runs (Reads-make w.closed (omega arith)))
          (λ z.
            Runs-bind _ (error_here-Runs (expected_identifier x) t q.closed)
              λ _ u r. runs (Reads-make r.closed (omega arith))))
      (λ y. runs (Reads-make q.closed q.le))

pub parse_path-Runs :
    (f : ℕ) (x : PathContext) (s : Parser)
    → Closed s
    → left s < f
    → Runs (λ _ t. Reads s t) (parse_path f x s)
unfolding parse_path ordinal is_kind
parse_path-Runs f x s c h =
    Runs-if (at identifier s) _ _
      (λ z. Runs-bind _ (advance-Eats s c (at-other identifier s z refl)) λ tok u r.
        Runs-bind _ (path_rest-Runs f x u r.closed (omega arith))
          λ _ v w. runs (Reads-make w.closed (omega arith)))
      (λ z.
        Runs-bind _ (error_here-Runs (expected_path x) s c)
          λ _ u r. runs (Reads-make r.closed (omega arith)))

pub capability-Runs : (s : Parser) → Closed s → Runs (λ _ t. Reads s t) (parse_capability s)
unfolding parse_capability
capability-Runs s c =
    Runs-if (is_none (capability_of (peek s).kind)) _ _ (λ _. runs (Reads-make c (omega arith)))
      (λ _. runs (advanced-Reads s c))

named_type-Runs :
    (f id : ℕ) (b : SourceLocation) (p : Capability) (s : Parser)
    → Closed s
    → left s < f
    → Runs (λ _ t. Reads s t) (parse_named_type f id b p s)
unfolding parse_named_type here ordinal is_kind
named_type-Runs f id b p s c h =
    Runs-if (at identifier s) _ _
      (λ _. Runs-bind _ (parse_path-Runs f type_path s c h) λ _ t q.
        Runs-bind _ (consume-Runs question t q.closed refl)
          λ _ u r. runs (Reads-make r.closed (omega arith)))
      (λ _.
        Runs-if (is_none p) _ _ (λ _. Runs-bind _ (error_here-Runs _ s c) λ _ t q. runs q)
          (λ _. runs (Reads-make c (omega arith))))

-- `parseTypeRef` returns whatever tokens stand there, with fuel for the tokens that are left
-- when they end with the end of the file; it gives no token back, and the tokens still end so.
pub parse_type_ref-Runs :
    (f : ℕ) (s : Parser) → Closed s → left s < f → Runs (λ _ t. Reads s t) (parse_type_ref f s)
unfolding parse_type_ref here ordinal is_kind
parse_type_ref-Runs zero s c h = elim h [ ]
parse_type_ref-Runs (suc f) s c h = Runs-bind _ (id-Runs s c) λ id s₁ q₁.
    Runs-bind _ (capability-Runs s₁ q₁.closed) λ p s₂ q₂.
      Runs-bind _ (consume-Runs l_bracket s₂ q₂.closed refl) λ b s₃ q₃.
        Runs-if b _ _
          (λ y. Runs-bind _ (parse_type_ref-Runs f s₃ q₃.closed (omega (arith, q₃.lt y))) λ _ s₄ q₄.
            Runs-bind _ (expect-Runs r_bracket _ s₄ q₄.closed refl)
              λ _ s₅ q₅. runs (Reads-make q₅.closed (omega arith)))
          (λ y.
            Runs-map (named_type-Runs (suc f) id _ p s₃ q₃.closed (omega arith))
              λ _ t q. Reads-make q.closed (omega arith))
