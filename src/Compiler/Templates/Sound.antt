-- ===== src/Compiler/Templates/Sound.antt =====
-- What backend/saz/compiler/template_validator.py accepts.
use saz.Prelude.{
  String, Bool, true, false, ◌||◌, ◌≡◌, refl, ◌⊎◌, inl, inr, ◌↔◌, Bool-cases, List, [], ◌∷◌, ◌++◌,
  contains, any, All, ◌==◌, string_eq, if◌then◌else◌, arith, eq_iff,
}
use saz.Prelude.Json.{
  Value, null, bool, str, num, time, obj, arr, Fields, end, field, Items, no_item, item,
}
use saz.Compiler.Templates.{
  Patterns, Names, Note, output_unneeded, unknown_step, is_error, names_output, path_notes,
  step_notes, form_notes, secret_note, secret_notes, unrecognized_note, validate_expression,
  validate_expressions, validate_object, validate_fields, validate_items,
}

-- A reference to a step names one, and no path through `output`, which is implied.
abbrev pub IsStepSound : List String → String × String → Type 0
IsStepSound ids r = (contains r.0 ids ≡ true) × ((r.1 ≡ "") ⊎ (names_output r.1 ≡ false))

-- A secret is declared, or the workflow declares none at all.
abbrev pub IsSecretSound : List String → String → Type 0
IsSecretSound names n = (names ≡ []) ⊎ (contains n names ≡ true)

any-append : (xs ys : List Note) → any is_error (xs ++ ys) ≡ (any is_error xs || any is_error ys)
any-append [] ys = refl
any-append (x ∷ xs) ys = ground (arith, any-append xs ys)

no_form_error : (fields paths : List String) → any is_error (form_notes fields paths) ≡ false
no_form_error fields [] = refl
no_form_error fields (p ∷ paths) = ground (arith, no_form_error fields paths)

secret_iff :
    (names : List String) (n : String)
    → (any is_error (secret_note names n) ≡ false) ↔ IsSecretSound names n
secret_iff [] n = (λ h. inl refl, λ h. refl)
secret_iff (c ∷ cs) n = elim (Bool-cases (contains n (c ∷ cs))) [
  | inl e ↦ (λ h. inr e, λ h. rw e refl)
  | inr e ↦ (λ h. absurd (ground (arith, h, e)), λ h. absurd (not_there h e))
]
  where
    not_there : IsSecretSound (c ∷ cs) n → contains n (c ∷ cs) ≡ false → ⊥
    not_there (inl empty) e = cc
    not_there (inr there) e = cc

path_iff :
    (id path : String)
    → (any is_error (path_notes id path) ≡ false) ↔ ((path ≡ "") ⊎ (names_output path ≡ false))
path_iff id path = elim (Bool-cases (path == "")) [
  | inl e ↦ (λ h. inl ((eq_iff path "").0 e), λ h. rw e refl)
  | inr e ↦ elim (Bool-cases (names_output path)) [
    | inl o ↦ (λ h. absurd (ground (arith, e, o, h)), λ h. absurd (neither h e o))
    | inr o ↦ (λ h. inr o, λ h. rw (e, o) (warns_only id (path == "output")))
  ]
]
  where
    neither :
        (path ≡ "") ⊎ (names_output path ≡ false)
        → (path == "") ≡ false
        → names_output path ≡ true
        → ⊥
    neither (inl h) e o = cc ((eq_iff path "").1 h)
    neither (inr h) e o = cc

    warns_only :
        (id : String) (b : Bool) → any is_error (if b then output_unneeded id ∷ [] else []) ≡ false
    warns_only id true = refl
    warns_only id false = refl

-- Two parts without an error.
and_iff :
    {P Q : Type 0} (xs ys : List Note)
    → ((any is_error xs ≡ false) ↔ P)
    → ((any is_error ys ≡ false) ↔ Q)
    → (any is_error (xs ++ ys) ≡ false) ↔ (P × Q)
and_iff xs ys p q = (
  λ h. (p.0 (ground (arith, any-append xs ys, h)), q.0 (ground (arith, any-append xs ys, h))),
  λ (a, b). rw (any-append xs ys, p.1 a, q.1 b) refl,
)

known_iff :
    (ids : List String) (id : String)
    → (any is_error (if contains id ids then [] else unknown_step id ∷ []) ≡ false)
      ↔ (contains id ids ≡ true)
known_iff ids id = elim (Bool-cases (contains id ids)) [
  | inl e ↦ (λ h. e, λ h. rw e refl)
  | inr e ↦ (λ h. absurd (ground (arith, h, e)), λ h. absurd (ground (arith, h, e)))
]

step_iff :
    (ids : List String) (rs : List (String × String))
    → (any is_error (step_notes ids rs) ≡ false) ↔ All (IsStepSound ids) rs
step_iff ids [] = (λ h. tt, λ h. refl)
step_iff ids ((id, path) ∷ rs) =
    let parts =
      and_iff (if contains id ids then [] else unknown_step id ∷ [])
        (path_notes id path ++ step_notes ids rs) (known_iff ids id)
        (and_iff (path_notes id path) (step_notes ids rs) (path_iff id path) (step_iff ids rs)) in
    (λ h. let (a, b) = parts.0 h in ((a, b.0), b.1), λ ((a, b), c). parts.1 (a, (b, c)))

secrets_iff :
    (names ns : List String)
    → (any is_error (secret_notes names ns) ≡ false) ↔ All (IsSecretSound names) ns
secrets_iff names [] = (λ h. tt, λ h. refl)
secrets_iff names (n ∷ ns) =
    and_iff (secret_note names n) (secret_notes names ns) (secret_iff names n)
      (secrets_iff names ns)

module _ (P : Patterns) (N : Names) where
  -- All references of an expression are good.
  abbrev pub IsExpressionSound : String → Type 0
  IsExpressionSound e =
      All (IsStepSound N.step_ids) (P.steps_in e)
      × All (IsSecretSound N.credential_names) (P.secrets_in e)

  -- So are those of all expressions in all texts of a value.
  abbrev mutual
    pub IsSound : Value → Type 0
    IsSound (str s) = All IsExpressionSound (P.expressions s)
    IsSound (obj d) = AreSound d
    IsSound (arr xs) = AllSound xs
    IsSound null = Unit
    IsSound (bool b) = Unit
    IsSound (num n k) = Unit
    IsSound (time t) = Unit

    pub AreSound : Fields → Type 0
    AreSound end = Unit
    AreSound (field k v d) = IsSound v × AreSound d

    pub AllSound : Items → Type 0
    AllSound no_item = Unit
    AllSound (item v xs) = IsSound v × AllSound xs

  expression_iff :
      (e : String) → (any is_error (validate_expression P N e) ≡ false) ↔ IsExpressionSound e
  unfolding validate_expression
  expression_iff e =
      let steps = step_notes N.step_ids (P.steps_in e) in
      let forms = form_notes N.form_fields (P.forms_in e) in
      let secrets = secret_notes N.credential_names (P.secrets_in e) in
      let last = unrecognized_note P N e in
      let parts = and_iff steps (forms ++ (secrets ++ last)) (step_iff N.step_ids (P.steps_in e)) (
        and_iff {P = Unit {0}} forms (secrets ++ last)
          (λ h. tt, λ h. no_form_error N.form_fields (P.forms_in e))
          (and_iff {Q = Unit {0}} secrets last (secrets_iff N.credential_names (P.secrets_in e))
            (λ h. tt, λ h. warns_only e))) in
      (λ h. let (a, b) = parts.0 h in (a, b.1.0), λ (a, b). parts.1 (a, (tt, (b, tt))))
    where
      warns_only : (e : String) → any is_error (unrecognized_note P N e) ≡ false
      warns_only e = ground arith

  expressions_iff :
      (es : List String)
      → (any is_error (validate_expressions P N es) ≡ false) ↔ All IsExpressionSound es
  expressions_iff [] = (λ h. tt, λ h. refl)
  expressions_iff (e ∷ es) =
      and_iff (validate_expression P N e) (validate_expressions P N es) (expression_iff e)
        (expressions_iff es)

  mutual
    unfolding validate_object

    value_iff : (v : Value) → (any is_error (validate_object P N v) ≡ false) ↔ IsSound v
    value_iff null = (λ h. tt, λ h. refl)
    value_iff (bool b) = (λ h. tt, λ h. refl)
    value_iff (num n k) = (λ h. tt, λ h. refl)
    value_iff (time t) = (λ h. tt, λ h. refl)
    value_iff (str s) = expressions_iff (P.expressions s)
    value_iff (obj d) = fields_iff d
    value_iff (arr xs) = items_iff xs

    fields_iff : (d : Fields) → (any is_error (validate_fields P N d) ≡ false) ↔ AreSound d
    fields_iff end = (λ h. tt, λ h. refl)
    fields_iff (field k v d) =
        and_iff (validate_object P N v) (validate_fields P N d) (value_iff v) (fields_iff d)

    items_iff : (xs : Items) → (any is_error (validate_items P N xs) ≡ false) ↔ AllSound xs
    items_iff no_item = (λ h. tt, λ h. refl)
    items_iff (item v xs) =
        and_iff (validate_object P N v) (validate_items P N xs) (value_iff v) (items_iff xs)

-- The templates of a workflow are accepted, with warnings at most, exactly if in every expression of
-- every text in it each step that is referred to exists, with no path through `output`, and each
-- secret is declared, where the workflow declares any.
pub templates_accepted_iff :
    (P : Patterns) (N : Names) (workflow : Value)
    → (any is_error (validate_object P N workflow) ≡ false) ↔ IsSound P N workflow
templates_accepted_iff P N workflow = value_iff P N workflow
