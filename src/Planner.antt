-- ===== src/Planner.antt =====
-- backend/saz/agents/deterministic_planner.py: `DeterministicPlanner` turns the steps of a compiled
-- workflow into a plan, and the model `PlanStep` of backend/saz/agents/schemas.py checks each of its
-- steps. Ids of plans and logging are left out.
pub mod Converts
pub mod Plans
pub mod Raw
mod Tests
use saz.Prelude.{
  ℕ, zero, suc, ◌*◌, ◌+◌, String, Bool, true, false, not, ◌&&◌, ◌||◌, ◌≡◌, Option, none, some, List,
  [], ◌∷◌, contains, keep, length, Result, ok, err, ◌>>=◌, ◌>>◌, guard, ◌==◌, string_eq,
  if◌then◌else◌,
}
use saz.Prelude.Int.{ℤ, pos}
use saz.Prelude.Json.{
  Value, null, bool, str, num, time, obj, arr, Fields, end, field, lookup, assign, merge, truthy,
}
use saz.Prelude.Texts.{is_blank}
use saz.Redaction.{begins}
use saz.Engine.{PlanStep, ErrorHandling, retry, fail, escalate}
use saz.Compiler.Steps.{is_ai, is_artifact}

-- A missing key, another exception of the conversion, or a refusal of the model.
pub data PlanError : Type 0 where
  key_error : String → PlanError
  raised invalid : PlanError

-- How pydantic reads an `int` field; an integer is read as itself.
pub record Pydantic : Type 0 where
  pub int_field : Value → Option ℤ
  pub int_field-int : (n : ℤ) → int_field (num n 0) ≡ some n

-- `PlanStep` with the fields that the executor's own model leaves out.
pub record Planned : Type 0 where
  pub step : PlanStep
  pub tool_name : Option String
  pub expected_output_schema : Fields

pub record ExecutionPlan : Type 0 where
  pub steps : List Planned
  pub estimated_time_seconds : ℕ

-- `d.get(k, v)`
abbrev pub or_value : Value → Option Value → Value
or_value v none = v
or_value v (some w) = w

-- `d[k]`
abbrev pub required : String → Option Value → Result PlanError Value
required k none = err (key_error k)
required k (some v) = ok v

-- `v > 0` of what a retry policy has as its attempts
abbrev pub positive : Value → Result PlanError Bool
positive (num (pos (suc n)) k) = ok true
positive (num _ k) = ok false
positive (bool b) = ok b
positive _ = err raised

-- `v.get(k, w)`, where only a dict has the method
abbrev pub get_in : Value → String → Value → Result PlanError Value
get_in (obj d) k w = ok (or_value w (lookup k d))
get_in _ k w = err raised

abbrev pub get_tool_name : Fields → String → Result PlanError Value
get_tool_name step t =
    if t == "tool.call"
    then required "tool" (lookup "tool" step)
    else if is_ai t
    then ok (str t)
    else if is_artifact t
    then ok (str t)
    else if t == "webhook.wait"
    then ok (str "webhook_wait")
    else ok (str t)

abbrev pub ai_extras : List String
ai_extras =
    "tools_allowlist" ∷ "branches_enum" ∷ "word_cap" ∷ "candidates" ∷ "rubric" ∷ "glossary"
    ∷ "top_k" ∷ []

-- `{k: v for k, v in d.items() if k in names}`
abbrev pub only : List String → Fields → Fields
only names end = end
only names (field k v d) =
    let rest = only names d in if contains k names then field k v rest else rest

abbrev pub ai_input : Fields → Value → Fields
ai_input step input =
    merge
      (field "instruction" (or_value (str "") (lookup "instruction" step)) (
        field "data" input (
          field "expected_schema" (or_value null (lookup "expect" step)) (
            field "temperature_override" (or_value null (lookup "temperature" step))
              (field "max_tokens_override" (or_value null (lookup "max_tokens" step)) end)))))
      (only ai_extras step)

abbrev pub params_of : Fields → Value
params_of step = or_value (obj end) (lookup "params" step)

abbrev pub build_ai_input : Fields → Result PlanError Value
build_ai_input step =
    get_in (params_of step) "data" (obj end) >>= λ input. ok (obj (ai_input step input))

abbrev pub build_input_template : Fields → String → Result PlanError Value
build_input_template step t =
    if t == "tool.call"
    then ok (params_of step)
    else if is_ai t
    then build_ai_input step
    else if is_artifact t
    then ok (params_of step)
    else if t == "condition"
    then ok (obj (field "condition" (or_value (str "true") (lookup "if" step)) end))
    else ok (params_of step)

abbrev pub error_handling_for : String → Bool → ErrorHandling
error_handling_for t true = retry
error_handling_for t false =
    if t == "human.approval"
    then escalate
    else if is_ai t
    then retry
    else if t == "condition"
    then fail
    else retry

abbrev pub get_error_handling : String → Value → Result PlanError ErrorHandling
get_error_handling t config = do
  attempts ← get_in config "attempts" (num (pos 0) 0)
  more ← positive attempts
  ok (error_handling_for t more)

abbrev pub default_retries : ErrorHandling → Value
default_retries retry = num (pos 3) 0
default_retries _ = num (pos 0) 0

abbrev pub expected_schema_of : Fields → String → Value
expected_schema_of step t = if is_ai t then or_value (obj end) (lookup "expect" step) else obj end

abbrev pub truthy_or : Option Value → Value → Value
truthy_or none w = w
truthy_or (some v) w = if truthy v then v else w

-- `description` or, without one, `instruction`
abbrev pub reasoning_of : Fields → Value
reasoning_of step =
    truthy_or (lookup "description" step) (or_value (str "") (lookup "instruction" step))

abbrev pub guard_of : Option Value → Option String
guard_of (some (str s)) = if is_blank s then none else some s
guard_of _ = none

abbrev pub text_field : Value → Result PlanError String
text_field (str s) = ok s
text_field _ = err invalid

-- `str | None`
abbrev pub name_field : Value → Result PlanError (Option String)
name_field (str s) = ok (some s)
name_field null = ok none
name_field _ = err invalid

abbrev pub dict_field : Value → Result PlanError Fields
dict_field (obj d) = ok d
dict_field _ = err invalid

abbrev pub number_field : Option ℤ → Result PlanError ℤ
number_field none = err invalid
number_field (some n) = ok n

-- `_EXACT_STEP_TYPES` and `_is_known_step_type`
abbrev pub is_known_step_type : String → Bool
is_known_step_type t =
    contains t ("tool.call" ∷ "condition" ∷ "human.approval" ∷ "webhook.wait" ∷ [])
    || begins "ai." t
    || begins "artifact." t

abbrev pub has_tool : Option String → Bool
has_tool none = false
has_tool (some s) = not (s == "")

-- `PlanStep(...)` with its types and its validator
unfoldable pub validated_step :
    Pydantic
    → Value
    → Value
    → Option String
    → Value
    → Value
    → Value
    → ErrorHandling
    → Value
    → Value
    → Result PlanError Planned
validated_step lib id kind when tool input expected handling retries reason = do
  step_id ← text_field id
  t ← text_field kind
  tool_name ← name_field tool
  input_template ← dict_field input
  schema ← dict_field expected
  max_retries ← number_field (lib.int_field retries)
  reasoning ← text_field reason
  guard (is_known_step_type t) invalid
  guard (not (t == "tool.call") || has_tool tool_name) invalid
  ok (record {
    step = record {
      step_id = step_id;
      step_type = t;
      guard = when;
      input_template = input_template;
      error_handling = handling;
      max_retries = max_retries;
      reasoning = reasoning;
    };
    tool_name = tool_name;
    expected_output_schema = schema;
  })

-- `step_dict["type"]`, which is compared with texts and asked for its beginning.
unfoldable pub convert_typed : Pydantic → Fields → Value → String → Result PlanError Planned
unfolding validated_step
convert_typed lib step id t = do
  tool ← get_tool_name step t
  input ← build_input_template step t
  let config = or_value (obj end) (lookup "retry" step)
  handling ← get_error_handling t config
  retries ← get_in config "attempts" (default_retries handling)
  validated_step lib id (str t) (guard_of (lookup "when" step)) tool input
      (expected_schema_of step t) handling retries (reasoning_of step)

abbrev pub convert_by : Pydantic → Fields → Value → Value → Result PlanError Planned
unfolding convert_typed
convert_by lib step id (str t) = convert_typed lib step id t
convert_by lib step id _ = err raised

unfoldable pub convert_step : Pydantic → Fields → Result PlanError Planned
unfolding convert_typed
convert_step lib step = do
  id ← required "id" (lookup "id" step)
  kind ← required "type" (lookup "type" step)
  convert_by lib step id kind

-- `s.get("id") not in completed_steps`
abbrev pub is_completed : List String → Option Value → Bool
is_completed completed (some (str id)) = contains id completed
is_completed completed _ = false

abbrev pub remaining : List String → List Fields → List Fields
remaining completed steps = keep (λ s. not (is_completed completed (lookup "id" s))) steps

unfoldable pub convert_all : Pydantic → List Fields → Result PlanError (List Planned)
unfolding convert_step
convert_all lib [] = ok []
convert_all lib (s ∷ ss) = do p ← convert_step lib s; ps ← convert_all lib ss; ok (p ∷ ps)

unfoldable pub plan : Pydantic → List String → List Fields → Result PlanError ExecutionPlan
unfolding convert_all
plan lib completed steps = do
  ps ← convert_all lib (remaining completed steps)
  ok (record { steps = ps; estimated_time_seconds = length ps * 5 })
