-- ===== src/Planner/Raw.antt =====
-- The executor of backend/saz/engine/executor.py plans a workflow as it was written, not as
-- backend/saz/compiler/dsl.py leaves it: the plan is the same.
use saz.Prelude.{
  String, false, ◌≡◌, refl, sym, ap, ◌∙◌, Option, none, some, Option-cases, Bool-cases, inl, inr,
  List, [], ◌∷◌, contains, Result, ok, ok-inj, guard-ok, >>=-eq-ok, ◌>>=◌, ◌==◌, string_eq, eq_iff,
}
use saz.Prelude.Json.{
  Value, null, bool, num, time, str, obj, arr, Fields, end, field, Items, no_item, item, lookup,
  assign, assign-same,
}
use saz.Compiler.{Library, Refused, unknown_type, set_default}
use saz.Compiler.Checks.{or_empty, lookup-with_containers}
use saz.Compiler.Steps.{
  allowed_step_types, step_id, step_type, check_step, with_containers, normalize_step,
  normalize_from, validate_and_normalize_steps,
}
use saz.Compiler.Compiled.{then_rest-ok}
use saz.Planner.{
  Pydantic, Planned, PlanError, or_value, params_of, only, ai_extras, required, build_ai_input,
  build_input_template, convert_typed, convert_by, convert_step, is_completed, remaining,
  convert_all, plan,
}

or_value-or_empty : (v : Option Value) → or_value (obj end) (or_empty v) ≡ or_value (obj end) v
or_value-or_empty none = refl
or_value-or_empty (some v) = refl

only-assign :
    (names : List String) (k : String) (v : Value) (d : Fields)
    → contains k names ≡ false
    → only names (assign k v d) ≡ only names d
only-assign names k v end h = rw h refl
only-assign names k v (field j w d) h = elim (Bool-cases (j == k)) [
  | inl e ↦
      let other = ap (λ (x : String). contains x names) ((eq_iff j k).0 e) ∙ h in rw (e, other) refl
  | inr e ↦ rw (e, only-assign names k v d h) refl
]

only-set_default :
    (names : List String) (k : String) (v : Value) (d : Fields)
    → contains k names ≡ false
    → only names (set_default k v d) ≡ only names d
only-set_default names k v d h = elim (Option-cases (lookup k d)) [
  | inl e ↦ rw (e, set_default) (only-assign names k v d h)
  | inr e ↦ rw (e.1, set_default) refl
]

module _ (s : Fields) where
  abbrev full : Fields
  full = with_containers s

  params_same : params_of full ≡ params_of s
  params_same =
      ap (or_value (obj end)) (lookup-with_containers "params" s)
      ∙ or_value-or_empty (lookup "params" s)

  extras_same : only ai_extras full ≡ only ai_extras s
  extras_same =
      only-set_default ai_extras "retry" (obj end) (set_default "params" (obj end) s) refl
      ∙ only-set_default ai_extras "params" (obj end) s refl

  ai_input_same : build_ai_input full ≡ build_ai_input s
  ai_input_same =
      let at = λ (j : String). lookup-with_containers j s in
      rw
        (
          build_ai_input,
          params_same,
          extras_same,
          at "instruction",
          at "expect",
          at "temperature",
          at "max_tokens",
        )
        refl

  template_same : (t : String) → build_input_template full t ≡ build_input_template s t
  template_same t = rw (ai_input_same, params_same, lookup-with_containers "if" s) refl

  convert_same :
      (lib : Pydantic) (id : Value) (t : String)
      → convert_typed lib full id t ≡ convert_typed lib s id t
  unfolding convert_typed
  convert_same lib id t =
      let at = λ (j : String). lookup-with_containers j s in
      let config = ap (or_value (obj end)) (at "retry") ∙ or_value-or_empty (lookup "retry" s) in
      rw
        (
          at "tool",
          template_same t,
          config,
          at "when",
          at "expect",
          at "description",
          at "instruction",
        )
        refl

  convert_by_same :
      (lib : Pydantic) (id kind : Value) → convert_by lib full id kind ≡ convert_by lib s id kind
  unfolding convert_by
  convert_by_same lib id (str t) = convert_same lib id t
  convert_by_same lib id null = refl
  convert_by_same lib id (bool b) = refl
  convert_by_same lib id (num n k) = refl
  convert_by_same lib id (time n) = refl
  convert_by_same lib id (obj d) = refl
  convert_by_same lib id (arr xs) = refl

  convert_step_same : (lib : Pydantic) → convert_step lib full ≡ convert_step lib s
  unfolding convert_step
  convert_step_same lib =
      let at = λ (j : String). lookup-with_containers j s in
      rw (at "id", at "type")
        (ap
          (λ (f : Value → Value → Result PlanError Planned). required "id" (lookup "id" s) >>= λ id.
            required "type" (lookup "type" s) >>= λ kind. f id kind)
          (λ i id kind. convert_by_same lib id kind i))

-- The steps of a workflow as they were written. The schema of the compiler has each an object with
-- a type.
pub data AreWritten : Items → List Fields → Type 0 where
  none_written : AreWritten no_item []
  written :
      {s : Fields} {t : Value} {rest : Items} {ss : List Fields}
      → lookup "type" s ≡ some t
      → AreWritten rest ss
      → AreWritten (item (obj s) rest) (s ∷ ss)

-- `contained s` of every step.
abbrev all_full : List Fields → List Fields
all_full [] = []
all_full (s ∷ ss) = full s ∷ all_full ss

step_type-written : (v : Value) (t : String) → step_type (some v) ≡ ok t → v ≡ str t
step_type-written (str s) t h =
    ap str (ok-inj s t (guard-ok (contains s allowed_step_types) (unknown_type s) (ok s) t h).1)
step_type-written null t h = cc
step_type-written (bool b) t h = cc
step_type-written (num n k) t h = cc
step_type-written (time n) t h = cc
step_type-written (obj d) t h = cc
step_type-written (arr xs) t h = cc

normalize_step-full :
    (library : Library) (known seen : List String) (s : Fields) (v : Value) (id : String)
    (kept : Fields)
    → lookup "type" s ≡ some v
    → normalize_step library known seen s ≡ ok (id, kept)
    → kept ≡ full s
unfolding normalize_step
normalize_step-full library known seen s v id kept there h =
    let (id', e, h1) = >>=-eq-ok (step_id seen (lookup "id" s)) _ (id, kept) h in
    let (t, e', h2) = >>=-eq-ok (step_type (lookup "type" s)) _ (id, kept) h1 in
    let (u, passed, h3) =
      >>=-eq-ok (check_step library known t (assign "type" (str t) s)) _ (id, kept) h2 in
    let typed =
      assign-same "type" (str t) s
        (there ∙ ap some (step_type-written v t (ap step_type (sym there) ∙ e'))) in
    sym (ap (λ (p : String × Fields). p.1) (ok-inj {E = Refused} _ _ h3)) ∙ ap with_containers typed

normalize_from-full :
    (library : Library) (known seen : List String) {items : Items} {ss : List Fields}
    (steps : List Fields)
    → AreWritten items ss
    → normalize_from library known seen items ≡ ok steps
    → steps ≡ all_full ss
unfolding normalize_from
normalize_from-full library known seen steps none_written h = sym (ok-inj {E = Refused} [] steps h)
normalize_from-full library known seen steps (written {s} {t} {rest} {ss} there more) h =
    let (id, kept, others, e, e', e'') =
      then_rest-ok (normalize_step library known seen s) _ steps h in
    e''
    ∙ ap (λ (x : Fields). x ∷ others) (normalize_step-full library known seen s t id kept there e)
    ∙ ap (λ (x : List Fields). full s ∷ x)
        (normalize_from-full library known (id ∷ seen) others more e')

convert_all-full :
    (lib : Pydantic) (completed : List String) (ss : List Fields)
    → convert_all lib (remaining completed (all_full ss)) ≡ convert_all lib (remaining completed ss)
unfolding convert_all
convert_all-full lib completed [] = refl
convert_all-full lib completed (s ∷ ss) =
    elim (Bool-cases (is_completed completed (lookup "id" s))) [
      | inl e ↦ rw (lookup-with_containers "id" s, e) (convert_all-full lib completed ss)
      | inr e ↦
          rw
            (
              lookup-with_containers "id" s,
              e,
              convert_step_same s lib,
              convert_all-full lib completed ss,
            )
            refl
    ]

-- Of a workflow that the compiler accepts, the plan of the steps as they were written is the plan of
-- the steps as the compiler leaves them, also where it fails, provided that each step has its type
-- written out.
pub plan-written :
    (library : Library) (lib : Pydantic) (known : List String) (items : Items)
    (steps ss : List Fields) (completed : List String)
    → validate_and_normalize_steps library known items ≡ ok steps
    → AreWritten items ss
    → plan lib completed ss ≡ plan lib completed steps
unfolding plan validate_and_normalize_steps
plan-written library lib known items steps ss completed h w =
    let e =
      ap (λ (x : List Fields). convert_all lib (remaining completed x))
        (normalize_from-full library known [] steps w h)
      ∙ convert_all-full lib completed ss in
    rw e refl
