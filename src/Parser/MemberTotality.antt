-- ===== src/Parser/MemberTotality.antt =====
-- src/parser/Parser.cpp: functions, structs, traits and implementations, and the fuel that their
-- parse takes.
use gura.Prelude.{
  ℕ, zero, suc, ◌+◌, ◌*◌, ◌≤◌, ◌<◌, ◌≡◌, refl, ◌∙◌, Bool, true, false, not, ◌||◌, ◌&&◌, Option,
  arith, String,
}
use gura.Basic.{SourceLocation}
use gura.Ast.{Text}
use gura.Lexer.Tokens.{TokenKind, ordinal}
use gura.Lexer.Tokens.{
  end_of_file, identifier, kw_fn, kw_new, kw_let, kw_var, l_paren, r_paren, l_brace, r_brace, less,
  greater, comma, colon, semicolon, plus,
}
use gura.Parser.{Parser, at, peek, is_kind, error_here, here, here_end}
use gura.Parser.Runs.{
  Closed, left, Reads, Eats, Runs, runs, Runs-bind, Runs-map, Runs-if, advance-Runs, advance-Eats,
  skip-Runs, skip-Eats, consume-Runs, error_here-Runs, id-at, expect-Runs, at-other,
}
use gura.Parser.Totality.{Reads-make, parse_type_ref-Runs}
use gura.Parser.ExprTotality.{block-Runs, keyword-Runs}
use gura.Parser.Decls.{
  parse_params, parse_bounds, parse_generic_param, generic_param_list, parse_generic_params,
  fn_rest, parse_fn_decl, field_rest, parse_field_decl, struct_members, parse_struct_decl,
  method_list, parse_trait_decl, impl_body, at_for, impl_rest, parse_impl_decl,
}

-- The fuel that is handed to the parts of a declaration.
abbrev pub Enough : ℕ → Parser → Type 0
Enough b s = 16 * left s + 16 ≤ b

params-Runs :
    (b f : ℕ) (s : Parser)
    → Closed s
    → Enough b s
    → left s < f
    → Runs (λ _ t. Reads s t) (parse_params b f s)
unfolding parse_params ordinal is_kind
params-Runs b zero s c e h = elim h [ ]
params-Runs b (suc f) s c e h =
    Runs-if (at identifier s) _ _
      (λ a. Runs-bind _ (advance-Eats s c (at-other identifier s a refl)) λ tok t q.
        Runs-bind _ (expect-Runs colon _ t q.closed refl) λ _ u r.
          Runs-bind _ (parse_type_ref-Runs b u r.closed (omega arith)) λ ty v w.
            Runs-bind _ (consume-Runs comma v w.closed refl) λ more x y.
              Runs-bind _
                (Runs-if {Q = λ _ z. Reads x z} more _ _
                  (λ _. params-Runs b f x y.closed (omega arith) (omega arith))
                  (λ _. runs (Reads-make y.closed (omega arith))))
                λ rest z i. runs (Reads-make i.closed (omega arith)))
      (λ _. Runs-bind _ (error_here-Runs _ s c) λ _ t q. runs q)

bounds-Runs :
    (f : ℕ) (s : Parser) → Closed s → left s < f → Runs (λ _ t. Reads s t) (parse_bounds f s)
unfolding parse_bounds here ordinal is_kind
bounds-Runs zero s c h = elim h [ ]
bounds-Runs (suc f) s c h =
    Runs-if (at identifier s) _ _
      (λ a. Runs-bind _ (advance-Eats s c (at-other identifier s a refl)) λ tok t q.
        Runs-bind _ (consume-Runs plus t q.closed refl) λ more u r.
          Runs-bind _
            (Runs-if {Q = λ _ z. Reads u z} more _ _ (λ _. bounds-Runs f u r.closed (omega arith))
              (λ _. runs (Reads-make r.closed (omega arith))))
            λ rest v w. runs (Reads-make w.closed (omega arith)))
      (λ _. Runs-bind _ (error_here-Runs _ s c) λ _ t q. runs q)

generic_param-Runs :
    (f : ℕ) (s : Parser) → Closed s → left s < f → Runs (λ _ t. Reads s t) (parse_generic_param f s)
unfolding parse_generic_param here ordinal is_kind
generic_param-Runs f s c h =
    Runs-if (at identifier s) _ _
      (λ a. Runs-bind _ (advance-Runs s c) λ tok t q.
        Runs-bind _ (expect-Runs colon _ t q.closed refl) λ _ u r.
          Runs-bind _ (bounds-Runs f u r.closed (omega arith))
            λ bs v w. runs (Reads-make w.closed (omega arith)))
      (λ _. Runs-bind _ (error_here-Runs _ s c) λ _ t q. runs q)

generic_list-Runs :
    (f : ℕ) (s : Parser) → Closed s → left s < f → Runs (λ _ t. Reads s t) (generic_param_list f s)
unfolding generic_param_list ordinal is_kind
generic_list-Runs zero s c h = elim h [ ]
generic_list-Runs (suc f) s c h = Runs-bind _ (generic_param-Runs (suc f) s c h) λ p t q.
    Runs-bind _ (consume-Runs comma t q.closed refl) λ more u r.
      Runs-bind _
        (Runs-if {Q = λ _ z. Reads u z} more _ _
          (λ y. generic_list-Runs f u r.closed (omega (arith, r.lt y)))
          (λ _. runs (Reads-make r.closed (omega arith))))
        λ rest v w. runs (Reads-make w.closed (omega arith))

generics-Runs :
    (f : ℕ) (s : Parser)
    → Closed s
    → left s < f
    → Runs (λ _ t. Reads s t) (parse_generic_params f s)
unfolding parse_generic_params ordinal is_kind
generics-Runs f s c h = Runs-bind _ (expect-Runs less _ s c refl) λ _ t q.
    Runs-bind _
      (Runs-if {Q = λ _ z. Reads t z} (at greater t) _ _
        (λ _. runs (Reads-make q.closed (omega arith)))
        (λ _. generic_list-Runs f t q.closed (omega arith)))
      λ ps u r.
        Runs-bind _ (expect-Runs greater _ u r.closed refl)
          λ _ v w. runs (Reads-make w.closed (omega arith))

fn_rest-Runs :
    (f : ℕ) (m : Bool) (p : SourceLocation) (id : ℕ) (s : Parser)
    → Closed s
    → Enough f s
    → Runs (λ _ t. Reads s t) (fn_rest f m p id s)
unfolding fn_rest here ordinal is_kind
fn_rest-Runs f m p id s c h = Runs-bind _ (advance-Runs s c) λ tok s₁ q₁.
    Runs-bind _
      (Runs-if {Q = λ _ z. Reads s₁ z} (at less s₁) _ _
        (λ _. generics-Runs f s₁ q₁.closed (omega arith))
        (λ _. runs (Reads-make q₁.closed (omega arith))))
      λ gs s₂ q₂. Runs-bind _ (expect-Runs l_paren _ s₂ q₂.closed refl) λ _ s₃ q₃.
        Runs-bind _
          (Runs-if {Q = λ _ z. Reads s₃ z} (at r_paren s₃) _ _
            (λ _. runs (Reads-make q₃.closed (omega arith)))
            (λ _. params-Runs f f s₃ q₃.closed (omega arith) (omega arith)))
          λ ps s₄ q₄. Runs-bind _ (expect-Runs r_paren _ s₄ q₄.closed refl) λ _ s₅ q₅.
            Runs-bind _ (consume-Runs colon s₅ q₅.closed refl) λ b s₆ q₆.
              Runs-bind _
                (Runs-if {Q = λ _ z. Reads s₆ z} b _ _
                  (λ _.
                    Runs-bind _ (parse_type_ref-Runs f s₆ q₆.closed (omega arith)) λ _ z i. runs i)
                  (λ _. runs (Reads-make q₆.closed (omega arith))))
                λ ty s₇ q₇.
                  Runs-bind _
                    (Runs-if {Q = λ _ z. Reads s₇ z} (m || at l_brace s₇) _ _
                      (λ _. Runs-bind _ (block-Runs f s₇ q₇.closed (omega arith)) λ _ z i. runs i)
                      (λ _. runs (Reads-make q₇.closed (omega arith))))
                    λ body s₈ q₈. runs (Reads-make q₈.closed (omega arith))

field_rest-Runs :
    (f id : ℕ) (p : SourceLocation) (v : Bool) (s : Parser)
    → Closed s
    → Enough f s
    → Runs (λ _ t. Reads s t) (field_rest f id p v s)
unfolding field_rest ordinal is_kind
field_rest-Runs f id p v s c h =
    Runs-if (at identifier s) _ _
      (λ _. Runs-bind _ (advance-Runs s c) λ tok t q.
        Runs-bind _ (expect-Runs colon _ t q.closed refl) λ _ u r.
          Runs-bind _ (parse_type_ref-Runs f u r.closed (omega arith))
            λ ty x y. runs (Reads-make y.closed (omega arith)))
      (λ _. Runs-bind _ (error_here-Runs _ s c) λ _ t q. runs q)

-- A message leaves the tokens as they are.
pub error-at :
    (m : String) (s : Parser)
    → Closed s
    → Runs (λ _ t. Reads s t × ((k : TokenKind) → at k t ≡ at k s)) (error_here m s)
unfolding error_here at peek
error-at m s c = runs (Reads-make c (omega arith), λ k. refl)

pub Eats-make : {s t : Parser} → Closed t → left t < left s → Eats s t
Eats-make c h = record { closed = c; lt = h }

pub fn-Runs :
    (f : ℕ) (m : Bool) (s : Parser)
    → Closed s
    → Enough f s
    → at end_of_file s ≡ false
    → Runs (λ _ t. Eats s t) (parse_fn_decl f m s)
unfolding parse_fn_decl
fn-Runs f m s c h n = keyword-Runs s _ c n λ k id t q.
    Runs-if (at identifier t || at kw_new t) _ _
      (λ _.
        Runs-map (fn_rest-Runs f m _ id t q.closed (omega arith))
          λ _ u r. Eats-make r.closed (omega arith))
      (λ _.
        Runs-bind _ (error_here-Runs _ t q.closed) λ _ u r. runs (Eats-make r.closed (omega arith)))

field-Runs :
    (f : ℕ) (s : Parser)
    → Closed s
    → Enough f s
    → at end_of_file s ≡ false
    → Runs (λ _ t. Eats s t) (parse_field_decl f s)
unfolding parse_field_decl here
field-Runs f s c h n = Runs-bind _ (id-at s c) λ id t (q, k).
    let n' = k end_of_file ∙ n in
    Runs-if (not (at kw_let t) && not (at kw_var t)) _ _
      (λ _. Runs-bind _ (error-at _ t q.closed) λ _ u (r, j).
        Runs-bind _ (skip-Eats u r.closed (j end_of_file ∙ n'))
          λ _ v w. runs (Eats-make w.closed (omega arith)))
      (λ _. Runs-bind _ (advance-Eats t q.closed n') λ tok u r.
        Runs-map (field_rest-Runs f id _ _ u r.closed (omega arith))
          λ _ v w. Eats-make w.closed (omega arith))

members-Runs :
    (b f : ℕ) (s : Parser)
    → Closed s
    → Enough b s
    → left s < f
    → Runs (λ _ t. Reads s t) (struct_members b f s)
unfolding struct_members ordinal is_kind
members-Runs b zero s c e h = elim h [ ]
members-Runs b (suc f) s c e h =
    Runs-if (at r_brace s || at end_of_file s) _ _ (λ _. runs (Reads-make c (omega arith)))
      (λ n.
        let n' : at end_of_file s ≡ false = ground arith in
        Runs-if (at kw_fn s) _ _
          (λ _. Runs-bind _ (fn-Runs b true s c e n') λ m t q.
            Runs-bind _ (members-Runs b f t q.closed (omega arith) (omega arith))
              λ r u w. runs (Reads-make w.closed (omega arith)))
          (λ _. Runs-bind _ (field-Runs b s c e n') λ d t q.
            Runs-bind _ (consume-Runs semicolon t q.closed refl) λ _ u w.
              Runs-bind _ (members-Runs b f u w.closed (omega arith) (omega arith))
                λ r v x. runs (Reads-make x.closed (omega arith))))

methods-Runs :
    (g : Bool) (m : String) (b f : ℕ) (s : Parser)
    → Closed s
    → Enough b s
    → left s < f
    → Runs (λ _ t. Reads s t) (method_list g m b f s)
unfolding method_list ordinal is_kind
methods-Runs g m b zero s c e h = elim h [ ]
methods-Runs g m b (suc f) s c e h =
    Runs-if (at r_brace s || at end_of_file s) _ _ (λ _. runs (Reads-make c (omega arith)))
      (λ n.
        let n' : at end_of_file s ≡ false = ground arith in
        Runs-if (at kw_fn s) _ _
          (λ _. Runs-bind _ (fn-Runs b (not g) s c e n') λ d t q.
            Runs-bind _
              (Runs-if {Q = λ _ z. Reads t z} g _ _
                (λ _.
                  Runs-bind _ (consume-Runs semicolon t q.closed refl)
                    λ _ z i. runs (Reads-make i.closed (omega arith)))
                (λ _. runs (Reads-make q.closed (omega arith))))
              λ _ u w.
                Runs-bind _ (methods-Runs g m b f u w.closed (omega arith) (omega arith))
                  λ r v x. runs (Reads-make x.closed (omega arith)))
          (λ _. Runs-bind _ (error-at m s c) λ _ t (q, j).
            Runs-bind _ (skip-Eats t q.closed (j end_of_file ∙ n')) λ _ u r.
              Runs-map (methods-Runs g m b f u r.closed (omega arith) (omega arith))
                λ _ v w. Reads-make w.closed (omega arith)))

pub struct-Runs :
    (f : ℕ) (s : Parser)
    → Closed s
    → Enough f s
    → at end_of_file s ≡ false
    → Runs (λ _ t. Eats s t) (parse_struct_decl f s)
unfolding parse_struct_decl here_end ordinal is_kind
struct-Runs f s c h n = keyword-Runs s _ c n λ k id t q.
    Runs-if (at identifier t) _ _
      (λ _. Runs-bind _ (advance-Runs t q.closed) λ tok u r.
        Runs-bind _ (expect-Runs l_brace _ u r.closed refl) λ _ v w.
          Runs-bind _ (members-Runs f f v w.closed (omega arith) (omega arith)) λ ms x y.
            Runs-bind _ (expect-Runs r_brace _ x y.closed refl)
              λ _ z i. runs (Eats-make i.closed (omega arith)))
      (λ _.
        Runs-bind _ (error_here-Runs _ t q.closed) λ _ u r. runs (Eats-make r.closed (omega arith)))

pub trait-Runs :
    (f : ℕ) (s : Parser)
    → Closed s
    → Enough f s
    → at end_of_file s ≡ false
    → Runs (λ _ t. Eats s t) (parse_trait_decl f s)
unfolding parse_trait_decl here_end ordinal is_kind
trait-Runs f s c h n = keyword-Runs s _ c n λ k id t q.
    Runs-if (at identifier t) _ _
      (λ _. Runs-bind _ (advance-Runs t q.closed) λ tok u r.
        Runs-bind _ (expect-Runs l_brace _ u r.closed refl) λ _ v w.
          Runs-bind _ (methods-Runs true _ f f v w.closed (omega arith) (omega arith)) λ ms x y.
            Runs-bind _ (expect-Runs r_brace _ x y.closed refl)
              λ _ z i. runs (Eats-make i.closed (omega arith)))
      (λ _.
        Runs-bind _ (error_here-Runs _ t q.closed) λ _ u r. runs (Eats-make r.closed (omega arith)))

impl_body-Runs :
    (f : ℕ) (p : SourceLocation) (id : ℕ) (x : Text) (y : Option Text) (s : Parser)
    → Closed s
    → Enough f s
    → Runs (λ _ t. Reads s t) (impl_body f p id x y s)
unfolding impl_body here_end ordinal is_kind
impl_body-Runs f p id x y s c h =
    Runs-bind _ (methods-Runs false _ f f s c h (omega arith)) λ ms t q.
      Runs-bind _ (expect-Runs r_brace _ t q.closed refl)
        λ _ u r. runs (Reads-make r.closed (omega arith))

impl_rest-Runs :
    (f : ℕ) (p : SourceLocation) (id : ℕ) (x : Text) (s : Parser)
    → Closed s
    → Enough f s
    → Runs (λ _ t. Reads s t) (impl_rest f p id x s)
unfolding impl_rest ordinal is_kind
impl_rest-Runs f p id x s c h =
    Runs-if (at_for s) _ _
      (λ _. Runs-bind _ (skip-Runs s c) λ _ t q.
        Runs-if (at identifier t) _ _
          (λ _. Runs-bind _ (advance-Runs t q.closed) λ tok u r.
            Runs-bind _ (expect-Runs l_brace _ u r.closed refl) λ _ v w.
              Runs-map (impl_body-Runs f p id _ _ v w.closed (omega arith))
                λ _ y z. Reads-make z.closed (omega arith))
          (λ _.
            Runs-bind _ (error_here-Runs _ t q.closed)
              λ _ u r. runs (Reads-make r.closed (omega arith))))
      (λ _. Runs-bind _ (expect-Runs l_brace _ s c refl) λ _ v w.
        Runs-map (impl_body-Runs f p id _ _ v w.closed (omega arith))
          λ _ y z. Reads-make z.closed (omega arith))

pub impl-Runs :
    (f : ℕ) (s : Parser)
    → Closed s
    → Enough f s
    → at end_of_file s ≡ false
    → Runs (λ _ t. Eats s t) (parse_impl_decl f s)
unfolding parse_impl_decl
impl-Runs f s c h n = keyword-Runs s _ c n λ k id t q.
    Runs-if (at identifier t) _ _
      (λ _. Runs-bind _ (advance-Runs t q.closed) λ tok u r.
        Runs-map (impl_rest-Runs f _ id _ u r.closed (omega arith))
          λ _ v w. Eats-make w.closed (omega arith))
      (λ _.
        Runs-bind _ (error_here-Runs _ t q.closed) λ _ u r. runs (Eats-make r.closed (omega arith)))
