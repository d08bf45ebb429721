-- ===== src/Engine/ToolCall/Execution.antt =====
-- `_execute_tool_call` of backend/saz/engine/executor.py: the verified call is made and criticised.
use saz.Prelude.{
  suc, String, Bool, true, false, not, ◌&&◌, ◌==◌, Option, none, some, [], ◌∷◌, string_eq, nat_eq,
  if◌then◌else◌, Result, ok, err,
}
use saz.Prelude.Int.{pos, ltb_ℤ}
use saz.Prelude.Json.{Value, Fields, obj, str, field, end, lookup, assign, truthy, concat}
use saz.Prelude.Floats.{Floats}
use text.Mathlib.Text.{starts_with}
use saz.Policy.Engine.{PolicyEngine, is_model_tool, is_outbound_tool}
use saz.Engine.{PlanStep, Failure, other, critique_failure, escalation_required}
use saz.Engine.Attempts.{max_attempts}
use saz.Engine.ToolCall.{
  Verdict, pass, fail, escalate, replan, Critique, ToolCall, Usage, Agents, ToolState, Workflow,
  log, charge, block_if_budget_exhausted,
}
use saz.Engine.ToolCall.Grounding.{ground_and_verify}

-- `_unwrap_ai_output`
abbrev pub has_key : String → Fields → Bool
has_key k d = elim (lookup k d) [ none ↦ false | some v ↦ true ]

abbrev pub inner_output : Fields → Value
inner_output d = elim (lookup "output" d) [ some (obj o) ↦ obj o | _ ↦ obj d ]

abbrev pub unwrap_ai_output : String → Value → Value
unwrap_ai_output tool (obj d) =
    if starts_with tool "ai." && has_key "usage" d then inner_output d else obj d
unwrap_ai_output tool v = v

-- `result if isinstance(result, dict) else {"value": result}`
abbrev pub as_dict : Value → Value
as_dict (obj d) = obj d
as_dict v = obj (field "value" v end)

module _ (F : Floats) (agents : Agents F) (w : Workflow) where
  -- What the tool is given: tokens for a model, and the personal data behind tokens for an
  -- outbound tool.
  abbrev pub prepared : PolicyEngine F → ToolCall → Result Failure Fields
  prepared e c =
      if is_model_tool c.tool
      then (if e.tokenize_model_inputs then agents.tokenize c else ok c.arguments)
      else if is_outbound_tool c.tool
      then agents.detokenize c
      else ok c.arguments

  abbrev pub charge_tokens : Option (Usage F) → ToolState F → ToolState F
  charge_tokens none s = s
  charge_tokens (some u) s = if ltb_ℤ (pos 0) u.tokens then charge F agents w u s else s

  -- By the verdict of the critique of the output.
  abbrev pub conclude : ToolCall → Value → Critique → Verdict → Result Failure Value
  conclude c v q pass = ok (unwrap_ai_output c.tool v)
  conclude c v q fail = err (critique_failure q.reasoning)
  conclude c v q escalate = err (escalation_required false)
  conclude c v q replan = err (critique_failure q.reasoning)

  abbrev pub criticised :
      ToolCall → Value → ToolState F → Result Failure Critique → ToolState F × Result Failure Value
  criticised c v s (err e) = (s, err e)
  criticised c v s (ok q) = (log F agents w "critique.completed" s, conclude c v q q.verdict)

  abbrev pub criticise :
      PlanStep
      → ToolCall
      → Value
      → ToolState F
      → Result Failure (Unit {0})
      → ToolState F × Result Failure Value
  criticise p c v s (err e) = (s, err e)
  criticise p c v s (ok t) =
      let (u, r) = agents.critique s.supply p c v in criticised c v (charge F agents w u s) r

  unfoldable pub executed_call :
      PlanStep
      → ToolCall
      → Option (Usage F)
      → ToolState F
      → Result Failure Value
      → ToolState F × Result Failure Value
  unfolding block_if_budget_exhausted
  executed_call p c usage s (err e) = (log F agents w "tool.failed" s, err e)
  executed_call p c usage s (ok v) =
      let (s', r) =
        block_if_budget_exhausted F agents w
          (charge_tokens usage (log F agents w "tool.succeeded" s)) in
      criticise p c (agents.redact_output (as_dict v)) s' r

  -- What a model's tool is told besides: the fields that the step expects, and why the attempt before
  -- failed.
  abbrev pub with_schema : PlanStep → Fields → Fields
  with_schema p d =
      if truthy (agents.expected_output_schema p) && not (has_key "expected_schema" d)
      then assign "expected_schema" (agents.expected_output_schema p) d
      else d

  abbrev pub instructed : String → Option Value → Fields → Result Failure Fields
  instructed feedback none d = ok d
  instructed feedback (some (str s)) d = ok (
      assign "instruction"
        (str (concat (s ∷ "\n\nPREVIOUS ATTEMPT FAILED. Fix this issue:\n" ∷ feedback ∷ []))) d)
  instructed feedback (some v) d = err (other "TypeError")

  abbrev pub with_feedback : Option String → Fields → Result Failure Fields
  with_feedback none d = ok d
  with_feedback (some feedback) d =
      if feedback == "" then ok d else instructed feedback (lookup "instruction" d) d

  unfoldable pub exec_arguments : PlanStep → ToolCall → Fields → Result Failure Fields
  exec_arguments p c d =
      if starts_with c.tool "ai."
      then with_feedback w.context.last_critique_feedback (with_schema p d)
      else ok d

  -- The call of the tool, with what it is given in the end.
  unfoldable pub call_tool :
      PlanStep → ToolCall → ToolState F → Result Failure Fields → ToolState F × Result Failure Value
  unfolding executed_call
  call_tool p c s (err e) = (s, err e)
  call_tool p c s (ok sent) =
      let (world, r, usage) = agents.execute_tool s.supply s.world c.tool sent in
      executed_call p c usage (record s { world = world; supply = suc s.supply }) r

  unfoldable pub run_tool :
      PlanStep → ToolCall → ToolState F → Result Failure Fields → ToolState F × Result Failure Value
  unfolding call_tool exec_arguments
  run_tool p c s (err e) = (s, err e)
  run_tool p c s (ok arguments) =
      let given = record c { arguments = arguments } in
      call_tool p given (log F agents w "tool.started" s) (exec_arguments p given arguments)

  abbrev pub verified :
      PlanStep → ToolState F → Result Failure ToolCall → ToolState F × Result Failure Value
  verified p s (err e) = (s, err e)
  verified p s (ok c) = run_tool p c s (prepared s.engine c)

  unfoldable pub execute_tool_call : PlanStep → ToolState F → ToolState F × Result Failure Value
  unfolding ground_and_verify run_tool
  execute_tool_call p s =
      let (s', r) = ground_and_verify F agents w (max_attempts s.engine.max_replan_attempts) p s in
      verified p s' r
