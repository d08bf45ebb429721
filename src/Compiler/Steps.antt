-- ===== src/Compiler/Steps.antt =====
-- `_validate_and_normalize_steps` of backend/saz/compiler/dsl.py, with its checks of a step by the
-- step's type.
use saz.Prelude.{
  suc, String, Bool, true, not, ◌&&◌, ◌||◌, Option, none, some, List, [], ◌∷◌, get_or, contains,
  keep, Result, ok, err, ◌>>=◌, ◌>>◌, guard, ◌==◌, string_eq, if◌then◌else◌,
}
use saz.Prelude.Int.{ℤ, pos, leb_ℤ}
use saz.Prelude.Json.{
  Value, null, bool, str, num, obj, arr, Fields, end, field, Items, no_item, item, lookup, assign,
  truthy, truthy_at, is_text,
}
use saz.Prelude.Texts.{is_blank}
use saz.Redaction.{begins}
use saz.Compiler.{
  Refused, step_not_object, step_without_id, params_not_object, bad_event, bad_credentials,
  duplicate_id, unknown_type, missing_key, missing_text, bad_guard, structured_text_output,
  retry_not_object, backoff_not_object, bad_mode, bad_jitter, negative, bad_timeout, missing_params,
  unknown_credentials, not_a_number, type_error, Library, as_int, present, is_object, set_default,
  texts,
}

abbrev pub Check : Type 0
Check = Result Refused (Unit {0})

-- `_ALLOWED_STEP_TYPES`
abbrev pub allowed_step_types : List String
allowed_step_types =
    "tool.call" ∷ "condition" ∷ "human.approval" ∷ "webhook.wait" ∷ "artifact.store"
    ∷ "artifact.retrieve" ∷ "ai.extract" ∷ "ai.generate" ∷ "ai.route" ∷ "ai.score" ∷ "ai.assess"
    ∷ "ai.normalize" ∷ "ai.match" ∷ "ai.evaluate" ∷ "ai.compare" ∷ "ai.translate" ∷ "ai.summarize"
    ∷ "ai.fix_json" ∷ "ai.plan" ∷ []

-- `_TEXT_OUTPUT_OPS`
abbrev pub text_output_ops : List String
text_output_ops = "ai.generate" ∷ "ai.summarize" ∷ "ai.translate" ∷ []

-- `stype.startswith("ai.")`
abbrev pub is_ai : String → Bool
is_ai t = begins "ai." t

abbrev pub is_artifact : String → Bool
is_artifact t = t == "artifact.store" || t == "artifact.retrieve"

-- `int(d[k]) < 0` is refused, if the key is there
abbrev pub not_negative_int : String → Option ℤ → Check
not_negative_int k none = err not_a_number
not_negative_int k (some n) = guard (leb_ℤ (pos 0) n) (negative k)

abbrev pub check_not_negative : Library → String → Option Value → Check
check_not_negative lib k none = ok tt
check_not_negative lib k (some v) = not_negative_int k (as_int lib v)

abbrev pub check_mode : Option Value → Check
check_mode (some (obj d)) = err type_error
check_mode (some (arr xs)) = err type_error
check_mode v =
    guard (is_text "constant" v || is_text "linear" v || is_text "exponential" v) bad_mode

abbrev pub check_jitter : Option Value → Check
check_jitter none = ok tt
check_jitter (some (bool b)) = ok tt
check_jitter (some _) = err bad_jitter

abbrev pub check_backoff : Library → Option Value → Check
check_backoff lib none = ok tt
check_backoff lib (some null) = ok tt
check_backoff lib (some (obj b)) = do
  check_mode (lookup "mode" b)
  check_not_negative lib "base_ms" (lookup "base_ms" b)
  check_not_negative lib "max_ms" (lookup "max_ms" b)
  check_jitter (lookup "jitter" b)
check_backoff lib (some _) = err backoff_not_object

unfoldable pub validate_retry : Library → Value → Check
validate_retry lib (obj r) = do
  check_not_negative lib "attempts" (lookup "attempts" r)
  check_backoff lib (lookup "backoff" r)
validate_retry lib _ = err retry_not_object

abbrev pub require_keys : Fields → List String → Check
require_keys step [] = ok tt
require_keys step (k ∷ ks) = guard (present k step) (missing_key k) >> require_keys step ks

-- `[p for p in required if p not in params]`
abbrev pub missing_from : List String → Fields → List String
missing_from required params = keep (λ p. not (present p params)) required

abbrev pub none_absent : List String → Check
none_absent [] = ok tt
none_absent (p ∷ ps) = err (missing_params (p ∷ ps))

abbrev pub validate_tool_call_params : Library → Option Value → Option Value → Check
validate_tool_call_params lib (some (str tool)) (some (obj params)) =
    none_absent (missing_from (get_or lib.required_params tool []) params)
validate_tool_call_params lib _ _ = ok tt

-- A text of the given key that the step has to have.
abbrev pub require_text : String → Fields → Check
require_text k step = guard (truthy_at k step) (missing_text k)

abbrev pub check_tool_step : Library → Fields → Check
check_tool_step lib step = do
  require_keys step ("tool" ∷ "params" ∷ [])
  guard (is_object (lookup "params" step)) params_not_object
  require_text "description" step
  validate_tool_call_params lib (lookup "tool" step) (lookup "params" step)

-- `not [r for r in required if r != "output"]`
abbrev pub only_output : Items → Bool
only_output no_item = true
only_output (item v rest) = is_text "output" (some v) && only_output rest

abbrev pub only_output_key : Fields → Bool
only_output_key end = true
only_output_key (field k v rest) = k == "output" && only_output_key rest

-- Iterated over, a text gives its characters and a dict its keys.
abbrev pub check_required : Value → Check
check_required (arr xs) = guard (only_output xs) structured_text_output
check_required (obj d) = guard (only_output_key d) structured_text_output
check_required (str s) = guard (s == "") structured_text_output
check_required v = guard (not (truthy v)) type_error

abbrev pub check_required_at : Option Value → Check
check_required_at none = ok tt
check_required_at (some v) = check_required v

abbrev pub check_text_expect : Option Value → Check
check_text_expect (some (obj e)) = check_required_at (lookup "required" e)
check_text_expect _ = ok tt

abbrev pub check_ai : String → Fields → Check
check_ai t step = do
  require_text "instruction" step
  require_text "expect" step
  if contains t text_output_ops then check_text_expect (lookup "expect" step) else ok tt

abbrev pub check_condition : Fields → Check
check_condition step = require_keys step ("if" ∷ []) >> require_text "description" step

-- A timeout has to be a positive number, if it is there.
abbrev pub check_timeout : String → Option Value → Check
check_timeout k none = ok tt
check_timeout k (some (num (pos (suc n)) d)) = ok tt
check_timeout k (some _) = err (bad_timeout k)

abbrev pub check_event : Fields → Fields → Check
check_event step params = do
  guard (present "event_name" params) bad_event
  require_text "description" step
  check_timeout "timeout_minutes" (lookup "timeout_minutes" params)
  check_timeout "timeout_seconds" (lookup "timeout_seconds" params)

abbrev pub check_webhook : Fields → Option Value → Check
check_webhook step (some (obj params)) = check_event step params
check_webhook step _ = err bad_event

abbrev pub check_artifact : Fields → Check
check_artifact step = do
  require_keys step ("params" ∷ [])
  guard (is_object (lookup "params" step)) params_not_object
  require_text "description" step

-- The requirements of a step's type.
unfoldable pub check_by_type : Library → String → Fields → Check
check_by_type lib t step =
    if t == "tool.call"
    then check_tool_step lib step
    else if is_ai t
    then check_ai t step
    else if t == "condition"
    then check_condition step
    else if t == "human.approval"
    then require_text "description" step
    else if t == "webhook.wait"
    then check_webhook step (lookup "params" step)
    else if is_artifact t
    then check_artifact step
    else ok tt

abbrev pub step_id : List String → Option Value → Result Refused String
step_id seen (some (str s)) = do
  guard (not (s == "")) step_without_id
  guard (not (contains s seen)) (duplicate_id s)
  ok s
step_id seen _ = err step_without_id

abbrev pub step_type : Option Value → Result Refused String
step_type none = ok "tool.call"
step_type (some (str t)) = guard (contains t allowed_step_types) (unknown_type t) >> ok t
step_type (some (obj d)) = err type_error
step_type (some (arr xs)) = err type_error
step_type (some _) = err (unknown_type "")

abbrev pub check_when : Option Value → Check
check_when none = ok tt
check_when (some null) = ok tt
check_when (some (str s)) = guard (not (is_blank s)) bad_guard
check_when (some _) = err bad_guard

abbrev pub none_unknown : List String → Check
none_unknown [] = ok tt
none_unknown (c ∷ cs) = err (unknown_credentials (c ∷ cs))

abbrev pub check_names : List String → Option (List String) → Check
check_names known none = err bad_credentials
check_names known (some names) = none_unknown (keep (λ c. not (contains c known)) names)

abbrev pub check_credentials : List String → Option Value → Check
check_credentials known none = ok tt
check_credentials known (some null) = ok tt
check_credentials known (some (arr xs)) = check_names known (texts xs)
check_credentials known (some _) = err bad_credentials

abbrev pub check_retry : Library → Option Value → Check
check_retry lib none = ok tt
check_retry lib (some v) = validate_retry lib v

-- What a step has to pass once its type is written into it.
unfoldable pub check_step : Library → List String → String → Fields → Check
unfolding check_by_type validate_retry
check_step lib known t step = do
  check_when (lookup "when" step)
  check_by_type lib t step
  check_credentials known (lookup "uses_credentials" step)
  check_retry lib (lookup "retry" step)

abbrev pub with_containers : Fields → Fields
with_containers step = set_default "retry" (obj end) (set_default "params" (obj end) step)

-- The body of the loop: the step's id, and the step as it is kept.
unfoldable pub normalize_step :
    Library → List String → List String → Fields → Result Refused (String × Fields)
unfolding check_step
normalize_step lib known seen step = do
  id ← step_id seen (lookup "id" step)
  t ← step_type (lookup "type" step)
  check_step lib known t (assign "type" (str t) step)
  ok (id, with_containers (assign "type" (str t) step))

abbrev pub then_rest :
    Result Refused (String × Fields)
    → (String → Result Refused (List Fields))
    → Result Refused (List Fields)
then_rest (ok (id, step)) rest = rest id >>= λ steps. ok (step ∷ steps)
then_rest (err e) rest = err e

-- The loop, with `seen_ids` so far.
unfoldable pub normalize_from :
    Library → List String → List String → Items → Result Refused (List Fields)
unfolding normalize_step
normalize_from lib known seen no_item = ok []
normalize_from lib known seen (item (obj step) rest) =
    then_rest (normalize_step lib known seen step) (λ id. normalize_from lib known (id ∷ seen) rest)
normalize_from lib known seen (item _ rest) = err step_not_object

unfoldable pub validate_and_normalize_steps :
    Library → List String → Items → Result Refused (List Fields)
unfolding normalize_from
validate_and_normalize_steps lib known steps = normalize_from lib known [] steps
