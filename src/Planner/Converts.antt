-- ===== src/Planner/Converts.antt =====
-- The planner of backend/saz/agents/deterministic_planner.py plans what the compiler accepts.
use mathlib.Core.Path.{subst}
use saz.Prelude.{
  ℕ, zero, suc, String, Bool, true, false, not, ◌||◌, ◌≡◌, refl, ap, ◌∙◌, ◌⊎◌, inl, inr, Option,
  none, some, List, [], ◌∷◌, contains, all, Result, ok, ◌>>=◌, if-holds, Bool-cases, ◌==◌,
  string_eq, arith, eq_iff,
}
use saz.Prelude.Int.{ℤ, pos, negsuc}
use saz.Prelude.Json.{Value, str, num, obj, Fields, end, lookup, is_text}
use saz.Engine.{ErrorHandling, retry, fail, escalate, continue_on_fail}
use saz.Engine.Settled.Rounds.{IsAttempted}
use saz.Compiler.{Library}
use saz.Compiler.Steps.{is_ai, is_artifact, allowed_step_types, validate_retry, check_retry}
use saz.Planner.{
  PlanError, Pydantic, Planned, or_value, params_of, guard_of, reasoning_of, expected_schema_of,
  is_known_step_type, validated_step, convert_typed, required, has_tool, ai_input, get_tool_name,
  build_input_template, get_error_handling, get_in, default_retries, error_handling_for,
}

-- A type that the compiler allows is one that a plan may have.
all-contains :
    (p : String → Bool) (x : String) (xs : List String)
    → all p xs ≡ true
    → contains x xs ≡ true
    → p x ≡ true
all-contains p x [] h c = cc
all-contains p x (y ∷ xs) h c = elim (Bool-cases (y == x)) [
  | inl e ↦ subst (λ (z : String). p z ≡ true) ((eq_iff y x).0 e) (ground (arith, h))
  | inr e ↦ all-contains p x xs (ground (arith, h)) (ground (arith, c, e))
]

pub allowed-is_known_step_type :
    (t : String) → contains t allowed_step_types ≡ true → is_known_step_type t ≡ true
allowed-is_known_step_type t h = all-contains is_known_step_type t allowed_step_types refl h

-- The values of a step that the compiler does not look at, or only in part, have the types of the
-- model: parameters and a retry policy that are objects, attempts that are an integer, an
-- expectation that is an object, a reason that is a text, and for a tool call the tool's name.
pub record IsTyped (step : Fields) : Type 0 where
  pub params : Fields
  pub policy : Fields
  pub expect : Fields
  pub reasoning : String
  pub params_there : lookup "params" step ≡ some (obj params)
  pub policy_there : lookup "retry" step ≡ some (obj policy)
  pub expect_there : or_value (obj end) (lookup "expect" step) ≡ obj expect
  pub reasoning_there : reasoning_of step ≡ str reasoning
  pub attempts :
      (lookup "attempts" policy ≡ none) ⊎ ((n : ℤ) × (lookup "attempts" policy ≡ some (num n 0)))
  pub tool :
      (is_text "tool.call" (lookup "type" step) ≡ false)
      ⊎ ((name : String) × (lookup "tool" step ≡ some (str name)) × ((name == "") ≡ false))

-- What the planned step says of the step of the workflow.
pub record IsPlanned (step : Fields) (p : Planned) : Type 0 where
  pub id_there : lookup "id" step ≡ some (str p.step.step_id)
  pub kind_there : lookup "type" step ≡ some (str p.step.step_type)
  pub attempted : IsAttempted p.step

tool_lem :
    (step : Fields) (t : String)
    → ((t == "tool.call") ≡ false)
      ⊎ ((name : String) × (lookup "tool" step ≡ some (str name)) × ((name == "") ≡ false))
    → (name : String) × (get_tool_name step t ≡ ok (str name))
      × ((not (t == "tool.call") || has_tool (some name)) ≡ true)
tool_lem step t h =
    let P = λ (r : Result PlanError Value).
      (name : String) × (r ≡ ok (str name))
      × ((not (t == "tool.call") || has_tool (some name)) ≡ true) in
    if-holds P (t == "tool.call") _ _ (named h) (λ e.
      let other = λ (name : String). let r : P (ok (str name)) = (name, refl, rw e refl) in r in
      if-holds P (is_ai t) _ _ (λ _. other t)
        (λ _.
          if-holds P (is_artifact t) _ _ (λ _. other t)
            (λ _. if-holds P (t == "webhook.wait") _ _ (λ _. other "webhook_wait") (λ _. other t))))
  where
    named :
        ((t == "tool.call") ≡ false)
          ⊎ ((name : String) × (lookup "tool" step ≡ some (str name)) × ((name == "") ≡ false))
        → (t == "tool.call") ≡ true
        → (name : String) × (required "tool" (lookup "tool" step) ≡ ok (str name))
          × ((not (t == "tool.call") || has_tool (some name)) ≡ true)
    named (inl other) e = absurd (ground (arith, other, e))
    named (inr (name, there, full)) e = (name, rw there refl, rw (e, full) refl)

input_lem :
    (step : Fields) (t : String) (params : Fields)
    → lookup "params" step ≡ some (obj params)
    → (input : Fields) × (build_input_template step t ≡ ok (obj input))
input_lem step t params h =
    let P = λ (r : Result PlanError Value). (input : Fields) × (r ≡ ok (obj input)) in
    let plain : P (ok (params_of step)) = (params, rw h refl) in
    if-holds P (t == "tool.call") _ _ (λ _. plain)
      (λ _.
        if-holds P (is_ai t) _ _
          (λ _. (ai_input step (or_value (obj end) (lookup "data" params)), rw h refl))
          (λ _.
            if-holds P (is_artifact t) _ _ (λ _. plain)
              (λ _. if-holds P (t == "condition") _ _ (λ _. (_, refl)) (λ _. plain))))

-- The attempts of a policy that the compiler accepts are not negative.
attempts_lem :
    (lib : Library) (policy : Fields) (n : ℤ)
    → lookup "attempts" policy ≡ some (num n 0)
    → validate_retry lib (obj policy) ≡ ok tt
    → (m : ℕ) × (n ≡ pos m)
unfolding validate_retry
attempts_lem lib policy (pos m) h r = (m, refl)
attempts_lem lib policy (negsuc m) h r = ground (arith, h, r)

-- The attempts that a step without its own has.
retries_of : ErrorHandling → ℕ
retries_of retry = 3
retries_of _ = 0

default_retries_lem : (h : ErrorHandling) → default_retries h ≡ num (pos (retries_of h)) 0
unfolding retries_of
default_retries_lem retry = refl
default_retries_lem fail = refl
default_retries_lem escalate = refl
default_retries_lem continue_on_fail = refl

retries_lem :
    (lib : Library) (t : String) (policy : Fields)
    → (lookup "attempts" policy ≡ none) ⊎ ((n : ℤ) × (lookup "attempts" policy ≡ some (num n 0)))
    → validate_retry lib (obj policy) ≡ ok tt
    → (handling : ErrorHandling) × (m : ℕ) × (get_error_handling t (obj policy) ≡ ok handling)
      × (get_in (obj policy) "attempts" (default_retries handling) ≡ ok (num (pos m) 0))
retries_lem lib t policy (inl e) r = (
  error_handling_for t false,
  retries_of (error_handling_for t false),
  rw e refl,
  rw e (ap ok (default_retries_lem (error_handling_for t false))),
)
retries_lem lib t policy (inr (n, e)) r =
    let (m, e') = attempts_lem lib policy n e r in counted m (rw (← e') e)
  where
    counted :
        (m : ℕ)
        → lookup "attempts" policy ≡ some (num (pos m) 0)
        → (handling : ErrorHandling) × (m : ℕ) × (get_error_handling t (obj policy) ≡ ok handling)
          × (get_in (obj policy) "attempts" (default_retries handling) ≡ ok (num (pos m) 0))
    counted zero e = (error_handling_for t false, 0, rw e refl, rw e refl)
    counted (suc m) e = (retry, suc m, rw e refl, rw e refl)

expected_lem :
    (step : Fields) (t : String) (e : Fields)
    → or_value (obj end) (lookup "expect" step) ≡ obj e
    → (schema : Fields) × (expected_schema_of step t ≡ obj schema)
expected_lem step t e h =
    if-holds (λ (v : Value). (schema : Fields) × (v ≡ obj schema)) (is_ai t) _ _ (λ _. (e, h))
      (λ _. (end, refl))

convert_typed-validated_step :
    (lib : Pydantic) (step : Fields) (id : Value) (t : String) (tool input config : Value)
    (handling : ErrorHandling) (retries : Value)
    → get_tool_name step t ≡ ok tool
    → build_input_template step t ≡ ok input
    → or_value (obj end) (lookup "retry" step) ≡ config
    → get_error_handling t config ≡ ok handling
    → get_in config "attempts" (default_retries handling) ≡ ok retries
    → convert_typed lib step id t
      ≡ validated_step lib id
          (str t)
          (guard_of (lookup "when" step))
          tool
          input
          (expected_schema_of step t)
          handling
          retries
          (reasoning_of step)
unfolding convert_typed
convert_typed-validated_step lib step id t tool input config handling retries a b c d e =
    rw (a, b, c, d)
      (ap
        (λ (r : Result PlanError Value). r >>= λ retries.
          validated_step lib id (str t) (guard_of (lookup "when" step)) tool input
            (expected_schema_of step t) handling retries (reasoning_of step))
        e)

pub convert_typed_lem :
    (lib : Pydantic) (library : Library) (step : Fields) (id t : String)
    → IsTyped step
    → lookup "type" step ≡ some (str t)
    → is_known_step_type t ≡ true
    → check_retry library (lookup "retry" step) ≡ ok tt
    → (p : Planned) × (convert_typed lib step (str id) t ≡ ok p)
      × (p.step.step_id ≡ id)
      × (p.step.step_type ≡ t)
      × IsAttempted p.step
unfolding validated_step validate_retry
convert_typed_lem lib library step id t typed kind known checked =
    let tool_call =
      subst
        (λ (v : Option Value).
          (is_text "tool.call" v ≡ false)
          ⊎ ((name : String) × (lookup "tool" step ≡ some (str name)) × ((name == "") ≡ false)))
        kind typed.tool in
    let (tool, t1, t2) = tool_lem step t tool_call in
    let (input, i1) = input_lem step t typed.params typed.params_there in
    let policy_passed =
      subst (λ (v : Option Value). check_retry library v ≡ ok tt) typed.policy_there checked in
    let (handling, m, r1, r2) = retries_lem library t typed.policy typed.attempts policy_passed in
    let (schema, e1) = expected_lem step t typed.expect typed.expect_there in
    let p : Planned = record {
      step = record {
        step_id = id;
        step_type = t;
        guard = guard_of (lookup "when" step);
        input_template = input;
        error_handling = handling;
        max_retries = pos m;
        reasoning = typed.reasoning;
      };
      tool_name = some tool;
      expected_output_schema = schema;
    } in
    (
      p,
      convert_typed-validated_step lib step (str id) t (str tool) (obj input) (obj typed.policy)
            handling (num (pos m) 0) t1 i1 (ap (or_value (obj end)) typed.policy_there) r1 r2
          ∙ rw (e1, typed.reasoning_there, validated_step, lib.int_field-int (pos m), known, t2)
              refl,
      refl,
      refl,
      omega arith,
    )
