-- ===== src/Engine/Gates.antt =====
-- The gates of backend/saz/engine/executor.py that suspend a run: an approval by a human and a wait
-- for a webhook, with the bound on the suspension. Approval briefs are left out.
use saz.Prelude.{ℕ, suc, String, Option, none, some, string_eq, nat_eq, if◌then◌else◌, Result, err}
use saz.Prelude.Int.{pos}
use saz.Prelude.Json.{Value, null, str, time, obj, Fields, end, field, lookup, assign, truthy}
use saz.Prelude.Floats.{Floats}
use saz.Runs.{Step, StepStatus, run_entity, step_entity}
use saz.Runs.RunRepository.{mark_suspended}
use saz.Engine.{PlanStep, Failure, run_suspended, State, Env}
use saz.Engine.Effects.{set_runs, emit, set_current}

abbrev pub event_name_field : Option Value → Fields → Fields
event_name_field none e = e
event_name_field (some v) e = if truthy v then assign "event_name" v e else e

abbrev pub copy_field : String → Fields → Fields → Fields
copy_field k params meta = elim (lookup k params) [
  | none ↦ meta
  | some null ↦ meta
  | some v ↦ assign k v meta
]

-- `if approval_meta: error_payload["approval"] = approval_meta`
abbrev pub with_approval : Fields → Fields → Fields
with_approval end e = e
with_approval (field k v fs) e = assign "approval" (obj (field k v fs)) e

abbrev pub extract_approval_metadata : Fields → Fields
extract_approval_metadata params = copy_field "approver_role" params (
    copy_field "approvers" params
      (copy_field "payload" params (copy_field "message" params (copy_field "title" params end))))

abbrev pub suspended_step : Step → Step
suspended_step t = record t { status = StepStatus.suspended }

module _ (F : Floats) (env : Env F) where
  -- `float(params[k])`, where an error is as good as a missing key
  abbrev pub float_at : String → Fields → Option F.Float
  float_at k params = elim (lookup k params) [ none ↦ none | some v ↦ env.to_float v ]

  abbrev pub given_minutes : Fields → Option F.Float
  given_minutes params = elim (float_at "timeout_minutes" params) [
    | some m ↦ some m
    | none ↦ elim (float_at "timeout_seconds" params) [
      | some t ↦ some (F.div t (F.of_int (pos 60)))
      | none ↦ none
    ]
  ]

  -- One day by default, and a minute at least.
  unfoldable pub timeout_minutes : Fields → F.Float
  timeout_minutes params = elim (given_minutes params) [
    | none ↦ F.of_int (pos 1440)
    | some m ↦
        if F.le m F.zero
        then F.of_int (pos 1440)
        else if F.lt m (F.of_int (pos 1))
        then F.of_int (pos 1)
        else m
  ]

  unfoldable pub attach_timeout_metadata : ℕ → Fields → Fields → Fields
  unfolding timeout_minutes
  attach_timeout_metadata now params e =
      let minutes = timeout_minutes params in
      assign "timeout_minutes" (env.of_float minutes) (
        assign "timeout_at" (time (env.plus_minutes now minutes))
          (assign "suspended_at" (time now) e))

  unfoldable pub suspend_run : String → Fields → State F → State F
  unfolding mark_suspended
  suspend_run run_id error s =
      emit F env run_id "run.suspended" s.context.current_step
        (set_runs F env (mark_suspended run_id (some error)) (record s { supply = suc s.supply }))

  unfoldable pub execute_human_approval :
      String → PlanStep → State F → State F × Result Failure Value
  unfolding suspend_run attach_timeout_metadata
  execute_human_approval run_id p s =
      let error = attach_timeout_metadata (env.now s.supply) p.input_template (
        with_approval (extract_approval_metadata p.input_template) (
          field "type" (str "HumanApprovalRequired") (
            field "step_id" (str p.step_id) (
              field "reasoning" (str p.reasoning)
                (field "callback_id" (str (env.uuid s.supply)) end))))) in
      (
        suspend_run run_id error (
            emit F env run_id "step.suspended" s.context.current_step (
              set_current F env suspended_step
                (emit F env run_id "approval.requested" s.context.current_step s))),
        err run_suspended,
      )

  unfoldable pub execute_webhook_wait : String → PlanStep → State F → State F × Result Failure Value
  unfolding suspend_run attach_timeout_metadata
  execute_webhook_wait run_id p s =
      let error = attach_timeout_metadata (env.now s.supply) p.input_template (
        event_name_field (lookup "event_name" p.input_template) (
          field "type" (str "WebhookWait") (
            field "step_id" (str p.step_id)
              (field "callback_id" (str (env.uuid s.supply)) end)))) in
      (
        suspend_run run_id error (
            emit F env run_id "step.suspended" s.context.current_step
              (set_current F env suspended_step s)),
        err run_suspended,
      )
