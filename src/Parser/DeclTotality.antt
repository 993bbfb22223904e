-- ===== src/Parser/DeclTotality.antt =====
-- src/parser/Parser.cpp: declarations and the source file, and the fuel that their parse takes.
use gura.Prelude.{
  ℕ, zero, suc, ◌+◌, ◌*◌, ◌≤◌, ◌<◌, ◌≡◌, refl, ◌∙◌, ◌⊎◌, ◌≢◌, true, false, Option, none, some, List,
  inl, inr, arith, String,
}
use gura.Ast.{SourceFile, Decl}
use gura.Lexer.Tokens.{Token, ordinal}
use gura.Lexer.Tokens.{
  end_of_file, identifier, kw_module, kw_import, kw_as, kw_fn, kw_struct, kw_trait, kw_impl,
}
use gura.Parser.{◌>>◌, Parser, parser, M, at, is_kind, skip, error_here, here}
use gura.Parser.Runs.{
  Closed, left, Reads, Eats, Runs, runs, Runs-bind, Runs-if, advance-Runs, advance-Eats, skip-Runs,
  skip-Eats, id-Runs, consume-Runs, error_here-Runs, at-other,
}
use gura.Parser.Totality.{Reads-make, parse_path-Runs}
use gura.Parser.Types.{module_path, import_path}
use gura.Parser.Decls.{
  parse_decl, parse_module_header, parse_import, import_list, decl_next, decl_round, decl_list,
  parse_source_file, fuel_for, parse_file,
}
use gura.Parser.MemberTotality.{
  Enough, error-at, Eats-make, fn-Runs, struct-Runs, trait-Runs, impl-Runs,
}

-- Without a declaration no token is taken, and the next token is the same.
record ReadsDecl (s : Parser) (d : Option Decl) (t : Parser) : Type 0 where
  closed : Closed t
  le : left t ≤ left s
  goes : (at end_of_file t ≡ at end_of_file s) ⊎ (left t < left s)
  lt : d ≢ none → left t < left s

decl-Runs : (f : ℕ) (s : Parser) → Closed s → Enough f s → Runs (ReadsDecl s) (parse_decl f s)
unfolding parse_decl ordinal is_kind
decl-Runs f s c h =
    Runs-if (at kw_fn s) _ _
      (λ y. Runs-bind _ (fn-Runs f true s c h (at-other kw_fn s y refl)) λ d t q. runs (made t q))
      λ _.
        Runs-if (at kw_struct s) _ _
          (λ y.
            Runs-bind _ (struct-Runs f s c h (at-other kw_struct s y refl))
              λ d t q. runs (made t q))
          λ _.
            Runs-if (at kw_trait s) _ _
              (λ y.
                Runs-bind _ (trait-Runs f s c h (at-other kw_trait s y refl))
                  λ d t q. runs (made t q))
              λ _.
                Runs-if (at kw_impl s) _ _
                  (λ y.
                    Runs-bind _ (impl-Runs f s c h (at-other kw_impl s y refl))
                      λ d t q. runs (made t q))
                  λ _. Runs-bind _ (error-at _ s c) λ _ t (q, j). runs (record {
                    closed = q.closed;
                    le = q.le;
                    goes = inl (j end_of_file);
                    lt = λ z. absurd (z refl);
                  })
  where
    made : {d : Option Decl} (t : Parser) → Eats s t → ReadsDecl s d t
    made t q = record { closed = q.closed; le = omega arith; goes = inr q.lt; lt = λ _. q.lt }

module_header-Runs :
    (f : ℕ) (s : Parser) → Closed s → Enough f s → Runs (λ _ t. Reads s t) (parse_module_header f s)
unfolding parse_module_header here
module_header-Runs f s c h = Runs-bind _ (advance-Runs s c) λ tok t q.
    Runs-bind _ (parse_path-Runs f module_path t q.closed (omega arith))
      λ p u r. runs (Reads-make r.closed (omega arith))

import-Runs :
    (f : ℕ) (s : Parser)
    → Closed s
    → Enough f s
    → at end_of_file s ≡ false
    → Runs (λ _ t. Eats s t) (parse_import f s)
unfolding parse_import here ordinal is_kind
import-Runs f s c h n = Runs-bind _ (advance-Eats s c n) λ tok t q.
    Runs-bind _ (parse_path-Runs f import_path t q.closed (omega arith)) λ p u r.
      Runs-bind _ (consume-Runs kw_as u r.closed refl) λ b v w.
        Runs-bind _
          (Runs-if {Q = λ _ z. Reads v z} b _ _
            (λ _.
              Runs-if (at identifier v) _ _
                (λ _. Runs-bind _ (advance-Runs v w.closed) λ _ z i. runs i)
                (λ _. Runs-bind _ (error_here-Runs _ v w.closed) λ _ z i. runs i))
            (λ _. runs (Reads-make w.closed (omega arith))))
          λ a x y. runs (Eats-make y.closed (omega arith))

imports-Runs :
    (b f : ℕ) (s : Parser)
    → Closed s
    → Enough b s
    → left s < f
    → Runs (λ _ t. Reads s t) (import_list b f s)
unfolding import_list ordinal is_kind
imports-Runs b zero s c e h = elim h [ ]
imports-Runs b (suc f) s c e h =
    Runs-if (at kw_import s) _ _
      (λ y. Runs-bind _ (import-Runs b s c e (at-other kw_import s y refl)) λ i t q.
        Runs-bind _ (imports-Runs b f t q.closed (omega arith) (omega arith))
          λ r u w. runs (Reads-make w.closed (omega arith)))
      (λ _. runs (Reads-make c (omega arith)))

-- Nothing is left but the end of the file.
record Done (t : Parser) : Type 0 where
  closed : Closed t
  done : at end_of_file t ≡ true

-- The rest of the declarations, after a step that takes a token or leaves the next one.
rest-Runs :
    (s t : Parser) (k : M (List Decl))
    → Closed t
    → left t ≤ left s
    → at end_of_file s ≡ false
    → ((at end_of_file t ≡ at end_of_file s) ⊎ (left t < left s))
    → ((u : Parser) → Closed u → left u < left s → Runs (λ _ x. Done x) (k u))
    → Runs (λ _ x. Done x) ((do skip; k) t)
rest-Runs s t k c h n (inl j) f =
    Runs-bind _ (skip-Eats t c (j ∙ n)) λ _ u r. f u r.closed (omega arith)
rest-Runs s t k c h n (inr l) f = Runs-bind _ (skip-Runs t c) λ _ u r. f u r.closed (omega arith)

decl_next-Runs :
    (s t : Parser) (d : Option Decl) (k : M (List Decl))
    → ReadsDecl s d t
    → at end_of_file s ≡ false
    → ((u : Parser) → Closed u → left u < left s → Runs (λ _ x. Done x) (k u))
    → Runs (λ _ x. Done x) (decl_next d k t)
decl_next-Runs s t none k q n f = rest-Runs s t k q.closed q.le n q.goes f
decl_next-Runs s t (some d) k q n f = Runs-bind _ (f t q.closed (q.lt λ z. cc)) λ ds u r. runs r

rejected-Runs :
    (s : Parser) (m : String) (k : M (List Decl))
    → Closed s
    → at end_of_file s ≡ false
    → ((u : Parser) → Closed u → left u < left s → Runs (λ _ x. Done x) (k u))
    → Runs (λ _ x. Done x) ((do error_here m; skip; k) s)
rejected-Runs s m k c n f =
    Runs-bind _ (error-at m s c)
      λ _ t (q, j). rest-Runs s t k q.closed q.le n (inl (j end_of_file)) f

round-Runs :
    (b : ℕ) (s : Parser) (k : M (List Decl))
    → Closed s
    → Enough b s
    → ((u : Parser) → Closed u → left u < left s → Runs (λ _ x. Done x) (k u))
    → Runs (λ _ t. Done t) (decl_round b k s)
unfolding decl_round ordinal is_kind
round-Runs b s k c e again =
    Runs-if (at end_of_file s) _ _ (λ y. runs (record { closed = c; done = y }))
      λ n.
        Runs-if (at kw_module s) _ _ (λ _. rejected-Runs s _ _ c n again)
          λ _.
            Runs-if (at kw_import s) _ _ (λ _. rejected-Runs s _ _ c n again)
              λ _. Runs-bind _ (decl-Runs b s c e) λ d t q. decl_next-Runs s t d _ q n again

decls-Runs :
    (b f : ℕ) (s : Parser)
    → Closed s
    → Enough b s
    → left s < f
    → Runs (λ _ t. Done t) (decl_list b f s)
unfolding decl_list
decls-Runs b zero s c e h = elim h [ ]
decls-Runs b (suc f) s c e h =
    round-Runs b s (decl_list b f) c e (λ u d l. decls-Runs b f u d (omega arith) (omega arith))

source_file-Runs :
    (f : ℕ) (s : Parser)
    → Closed s
    → 16 * left s + 16 ≤ f
    → Runs (λ _ t. Done t) (parse_source_file f s)
unfolding parse_source_file
source_file-Runs f s c h = Runs-bind _ (id-Runs s c) λ id t q.
    Runs-bind _
      (Runs-if {Q = λ _ z. Reads t z} (at kw_module t) _ _
        (λ _. Runs-bind _ (module_header-Runs f t q.closed (omega arith)) λ h' u r. runs r)
        (λ _. runs (Reads-make q.closed (omega arith))))
      λ header u r. Runs-bind _ (imports-Runs f f u r.closed (omega arith) (omega arith)) λ is v w.
        Runs-bind _ (decls-Runs f f v w.closed (omega arith) (omega arith)) λ ds x y. runs y

-- What a parse that ran returned.
returned :
    {A : Type 0} {Q : A → Parser → Type 0} {o : Option (A × Parser)}
    → Runs Q o
    → (r : A × Parser) × ((o ≡ some r) × Q r.0 r.1)
returned (runs {a} {t} q) = ((a, t), (refl, q))

-- Every list of tokens that ends with the end of the file is parsed within the fuel, and the
-- parser stops only at the end of the file, whatever the tokens before it are.
pub parse_file-reads_all :
    (tokens : List Token)
    → Closed (parser tokens)
    → (r : SourceFile × Parser) × ((parse_file tokens ≡ some r) × (at end_of_file r.1 ≡ true))
unfolding parse_file
parse_file-reads_all tokens c =
    let (r, (e, d)) =
      returned (source_file-Runs (fuel_for tokens) (parser tokens) c (omega arith)) in
    (r, (e, d.done))
