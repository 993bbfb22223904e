-- ===== src/Sema/Generics.antt =====
-- `makeGenericEnv` of src/hir/Sema.cpp: what the environment of generic parameters holds.
use gura.Prelude.{
  ◌≡◌, refl, sym, ap, subst, ◌∙◌, inl, inr, true, false, List, [], ◌∷◌, ◌++◌, All, arith,
  Bool-cases,
}
use gura.Basic.{same_text}
use gura.Ast.{Text, TraitBound, GenericParam, FnDecl}
use gura.Hir.Paths.{contains_string, is_builtin_type_name}
use gura.Hir.Laws.{same_text_comm}
use gura.Sema.{
  Sema, Tables, GenericParamInfo, M, ◌>>=◌, ◌>>◌, pure, lookup_table, fail_with, has_key, emplace,
}
use gura.Sema.Functions.{add_bound, add_bounds, add_generic, add_generics, make_generic_env}
use gura.Sema.Quiet.{Quiet, add_bound-Quiet, add_generic-Quiet}

-- Bounds that are traits, none of them twice.
abbrev pub SoundBounds : Tables → List Text → Type 0
SoundBounds t [] = Unit
SoundBounds t (b ∷ bs) =
    (has_key b t.traits ≡ true) × (contains_string bs b ≡ false) × SoundBounds t bs

-- A parameter that is no struct and no builtin type, with sound bounds.
pub record SoundParam (t : Tables) (p : Text × GenericParamInfo) : Type 0 where
  pub no_struct : has_key p.0 t.structs ≡ false
  pub no_builtin : is_builtin_type_name p.0 ≡ false
  pub bounds : SoundBounds t p.1.bounds

abbrev pub SoundEnv : Tables → List (Text × GenericParamInfo) → Type 0
SoundEnv t env = All (SoundParam t) env

contains_string-append :
    (xs : List Text) (x y : Text)
    → contains_string xs y ≡ false
    → same_text x y ≡ false
    → contains_string (xs ++ (x ∷ [])) y ≡ false
unfolding contains_string
contains_string-append [] x y h k = ground arith
contains_string-append (z ∷ xs) x y h k =
    let r = contains_string-append xs x y (ground arith) k in ground arith

SoundBounds-append :
    (t : Tables) (bs : List Text) (b : Text)
    → SoundBounds t bs
    → has_key b t.traits ≡ true
    → contains_string bs b ≡ false
    → SoundBounds t (bs ++ (b ∷ []))
unfolding contains_string
SoundBounds-append t [] b h k c = (k, refl, tt)
SoundBounds-append t (a ∷ bs) b h k c = (
  h.0,
  contains_string-append bs b a h.1 (same_text_comm b a ∙ ground arith),
  SoundBounds-append t bs b h.2 k (ground arith),
)

add_bound-Sound :
    (n : Text) (bs : List Text) (b : TraitBound) (s : Sema)
    → SoundBounds s.tables bs
    → SoundBounds s.tables (add_bound n bs b s).0
unfolding add_bound lookup_table fail_with ◌>>=◌ ◌>>◌ pure
add_bound-Sound n bs b s h = elim (Bool-cases (has_key b.name s.tables.traits)) [
  | inr k ↦ rw k h
  | inl k ↦ elim (Bool-cases (contains_string bs b.name)) [
    | inl c ↦ rw k (rw c h)
    | inr c ↦ rw k (rw c (SoundBounds-append s.tables bs b.name h k c))
  ]
]

tables_same {ℓ} : {A : Type ℓ} (m : M A) → Quiet m → (s : Sema) → (m s).1.tables ≡ s.tables
tables_same m q s = ap (λ (z : Sema). z.tables) (q.at s).same

add_bounds-Sound :
    (n : Text) (bs : List Text) (new : List TraitBound) (s : Sema)
    → SoundBounds s.tables bs
    → SoundBounds s.tables (add_bounds n bs new s).0
unfolding add_bounds ◌>>=◌ pure
add_bounds-Sound n bs [] s h = h
add_bounds-Sound n bs (b ∷ new) s h =
    let e = tables_same (add_bound n bs b) (add_bound-Quiet n bs b) s in
    let k = add_bound-Sound n bs b s h in
    subst (λ t. SoundBounds t (add_bounds n (add_bound n bs b s).0 new (add_bound n bs b s).1).0) e
      (add_bounds-Sound n (add_bound n bs b s).0 new (add_bound n bs b s).1
        (subst (λ t. SoundBounds t (add_bound n bs b s).0) (sym e) k))

All-emplace :
    (t : Tables) (n : Text) (info : GenericParamInfo) (env : List (Text × GenericParamInfo))
    → SoundEnv t env
    → SoundParam t (n, info)
    → SoundEnv t (env ++ ((n, info) ∷ []))
All-emplace t n info [] h p = (p, tt)
All-emplace t n info (e ∷ env) h p = (h.0, All-emplace t n info env h.1 p)

add_generic-Sound :
    (env : List (Text × GenericParamInfo)) (p : GenericParam) (s : Sema)
    → SoundEnv s.tables env
    → SoundEnv s.tables (add_generic env p s).0
unfolding add_generic lookup_table fail_with emplace ◌>>=◌ ◌>>◌ pure
add_generic-Sound env p s h = elim (Bool-cases (has_key p.name env)) [
  | inl a ↦ rw a h
  | inr a ↦ elim (Bool-cases (has_key p.name s.tables.structs)) [
    | inl b ↦ rw a (rw b h)
    | inr b ↦ elim (Bool-cases (is_builtin_type_name p.name)) [
      | inl c ↦ rw a (rw b (rw c h))
      | inr c ↦
          let bounds = add_bounds-Sound p.name [] p.bounds s tt in
          rw a (
            rw b (
              rw c (
                All-emplace s.tables p.name
                  (record { bounds = (add_bounds p.name [] p.bounds s).0 }) env h
                  (record { no_struct = b; no_builtin = c; bounds = bounds }))))
    ]
  ]
]

add_generics-Sound :
    (env : List (Text × GenericParamInfo)) (ps : List GenericParam) (s : Sema)
    → SoundEnv s.tables env
    → SoundEnv s.tables (add_generics env ps s).0
unfolding add_generics ◌>>=◌ pure
add_generics-Sound env [] s h = h
add_generics-Sound env (p ∷ ps) s h =
    let e = tables_same (add_generic env p) (add_generic-Quiet env p) s in
    let k = add_generic-Sound env p s h in
    let t = (add_generic env p s).1 in
    let more = (add_generic env p s).0 in
    subst (λ x. SoundEnv x (add_generics more ps t).0) e
      (add_generics-Sound more ps t (subst (λ x. SoundEnv x more) (sym e) k))

-- Every generic parameter of the environment of a function is no struct and no builtin type, and
-- its bounds are traits that are defined, none of them twice.
pub make_generic_env-Sound : (fn : FnDecl) (s : Sema) → SoundEnv s.tables (make_generic_env fn s).0
unfolding make_generic_env
make_generic_env-Sound fn s = add_generics-Sound [] fn.generic_params s tt
