-- ===== src/Lexer/Keywords.antt =====
-- `keywordKind` and `tokenKindName` of src/lexer/Lexer.cpp.
use gura.Prelude.{
  ℕ, ◌≢◌, leb, ap, subst, ◌≡◌, refl, sym, ◌∙◌, ◌⊎◌, inl, inr, Bool, true, ◌&&◌, List, [], ◌∷◌,
  arith, Bool-cases, String,
}
use gura.Basic.{codes, same_text}
use gura.Lexer.Tokens.{
  TokenKind, identifier, token_kind_name, keywords, find_keyword, keyword_kind, ordinal, kw_fn,
  kw_pau, end_of_file, invalid, integer_literal, float_literal, string_literal, char_literal,
  kw_module, kw_import, kw_struct, kw_enum, kw_trait, kw_impl, kw_let, kw_var, kw_move, kw_new,
  kw_enter, kw_explore, kw_freeze, kw_merge, kw_cown, kw_acquire, kw_spawn, kw_unsafe, kw_return,
  kw_if, kw_else, kw_while, kw_match, kw_case, kw_as, kw_true, kw_false, kw_none, kw_mut, kw_tmp,
  kw_iso, kw_imm, l_paren, r_paren, l_brace, r_brace, l_bracket, r_bracket, comma, dot, colon,
  semicolon, arrow, fat_arrow, question, pipe, plus, minus, star, slash, percent, equal,
  equal_equal, bang, bang_equal, less, less_equal, greater, greater_equal,
}

same_text-equal : (a b : List ℕ) → same_text a b ≡ true → a ≡ b
same_text-equal [] [] h = refl
same_text-equal [] (y ∷ b) h = cc
same_text-equal (x ∷ a) [] h = cc
same_text-equal (x ∷ a) (y ∷ b) h =
    let e : x ≡ y = ground arith in
    let t : a ≡ b = same_text-equal a b (ground arith) in λ i. e i ∷ t i

-- The kinds from `KwFn` to `KwPau`.
abbrev pub is_keyword : TokenKind → Bool
is_keyword k = leb (ordinal kw_fn) (ordinal k) && leb (ordinal k) (ordinal kw_pau)

-- Whether each entry is a keyword, and the name that is printed for it is its word.
abbrev are_named : List (String × TokenKind) → Bool
are_named [] = true
are_named ((word, kind) ∷ rest) =
    is_keyword kind && same_text (codes (token_kind_name kind)) (codes word) && are_named rest

keywords-named : are_named keywords ≡ true
unfolding token_kind_name ordinal
keywords-named = refl

-- The text is that of a keyword, whose kind it has, or is that of none, and an identifier.
pub data HasKind (text : List ℕ) (kind : TokenKind) : Type 0 where
  of_keyword : is_keyword kind ≡ true → text ≡ codes (token_kind_name kind) → HasKind text kind
  of_identifier :
      kind ≡ identifier
      → ((k : TokenKind) → is_keyword k ≡ true → text ≢ codes (token_kind_name k))
      → HasKind text kind

find_keyword-name :
    (text : List ℕ) (entries : List (String × TokenKind))
    → are_named entries ≡ true
    → (find_keyword text entries ≡ identifier)
      ⊎ ((is_keyword (find_keyword text entries) ≡ true)
          × (text ≡ codes (token_kind_name (find_keyword text entries))))
unfolding find_keyword
find_keyword-name text [] h = inl refl
find_keyword-name text ((word, kind) ∷ rest) h = elim (Bool-cases (same_text text (codes word))) [
  | inl y ↦ rw y (
      inr (
        ground arith,
        same_text-equal text (codes word) y
            ∙ sym (same_text-equal (codes (token_kind_name kind)) (codes word) (ground arith)),
      ))
  | inr n ↦ rw n (find_keyword-name text rest (ground arith))
]

-- Every keyword is found under its name.
keyword_kind-keyword :
    (k : TokenKind) → is_keyword k ≡ true → keyword_kind (codes (token_kind_name k)) ≡ k
unfolding keyword_kind token_kind_name ordinal
keyword_kind-keyword end_of_file h = cc
keyword_kind-keyword invalid h = cc
keyword_kind-keyword identifier h = cc
keyword_kind-keyword integer_literal h = cc
keyword_kind-keyword float_literal h = cc
keyword_kind-keyword string_literal h = cc
keyword_kind-keyword char_literal h = cc
keyword_kind-keyword kw_fn h = refl
keyword_kind-keyword kw_module h = refl
keyword_kind-keyword kw_import h = refl
keyword_kind-keyword kw_struct h = refl
keyword_kind-keyword kw_enum h = refl
keyword_kind-keyword kw_trait h = refl
keyword_kind-keyword kw_impl h = refl
keyword_kind-keyword kw_let h = refl
keyword_kind-keyword kw_var h = refl
keyword_kind-keyword kw_move h = refl
keyword_kind-keyword kw_new h = refl
keyword_kind-keyword kw_enter h = refl
keyword_kind-keyword kw_explore h = refl
keyword_kind-keyword kw_freeze h = refl
keyword_kind-keyword kw_merge h = refl
keyword_kind-keyword kw_cown h = refl
keyword_kind-keyword kw_acquire h = refl
keyword_kind-keyword kw_spawn h = refl
keyword_kind-keyword kw_unsafe h = refl
keyword_kind-keyword kw_return h = refl
keyword_kind-keyword kw_if h = refl
keyword_kind-keyword kw_else h = refl
keyword_kind-keyword kw_while h = refl
keyword_kind-keyword kw_match h = refl
keyword_kind-keyword kw_case h = refl
keyword_kind-keyword kw_as h = refl
keyword_kind-keyword kw_true h = refl
keyword_kind-keyword kw_false h = refl
keyword_kind-keyword kw_none h = refl
keyword_kind-keyword kw_mut h = refl
keyword_kind-keyword kw_tmp h = refl
keyword_kind-keyword kw_iso h = refl
keyword_kind-keyword kw_imm h = refl
keyword_kind-keyword kw_pau h = refl
keyword_kind-keyword l_paren h = cc
keyword_kind-keyword r_paren h = cc
keyword_kind-keyword l_brace h = cc
keyword_kind-keyword r_brace h = cc
keyword_kind-keyword l_bracket h = cc
keyword_kind-keyword r_bracket h = cc
keyword_kind-keyword comma h = cc
keyword_kind-keyword dot h = cc
keyword_kind-keyword colon h = cc
keyword_kind-keyword semicolon h = cc
keyword_kind-keyword arrow h = cc
keyword_kind-keyword fat_arrow h = cc
keyword_kind-keyword question h = cc
keyword_kind-keyword pipe h = cc
keyword_kind-keyword plus h = cc
keyword_kind-keyword minus h = cc
keyword_kind-keyword star h = cc
keyword_kind-keyword slash h = cc
keyword_kind-keyword percent h = cc
keyword_kind-keyword equal h = cc
keyword_kind-keyword equal_equal h = cc
keyword_kind-keyword bang h = cc
keyword_kind-keyword bang_equal h = cc
keyword_kind-keyword less h = cc
keyword_kind-keyword less_equal h = cc
keyword_kind-keyword greater h = cc
keyword_kind-keyword greater_equal h = cc

-- A text has the kind of the keyword with this name; if there is none, it is an identifier.
pub keyword_kind-HasKind : (text : List ℕ) → HasKind text (keyword_kind text)
unfolding keyword_kind ordinal
keyword_kind-HasKind text = elim (find_keyword-name text keywords keywords-named) [
  | inr (k, e) ↦ of_keyword k e
  | inl i ↦ of_identifier i λ k h e.
      let f = ap keyword_kind e ∙ keyword_kind-keyword k h in
      let g : is_keyword identifier ≡ true = subst (λ x. is_keyword x ≡ true) (sym f ∙ i) h in cc
]
