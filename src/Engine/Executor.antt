-- ===== src/Engine/Executor.antt =====
-- `WorkflowExecutor.execute_run` of backend/saz/engine/executor.py: the restored context, the loop
-- over the plan and the ends of a run. Logging, progress and usage events are left
-- out, and of the errors the messages, the tracebacks and the dumps of critiques.
use saz.Prelude.{
  ℕ, suc, ◌+◌, String, Bool, true, false, ◌&&◌, Option, none, some, List, [], ◌∷◌, keep, ◌==◌,
  string_eq, nat_eq, if◌then◌else◌, Result, ok, err, contains,
}
use saz.Prelude.Int.{pos}
use saz.Prelude.Json.{Value, bool, str, num, obj, Fields, end, field, lookup, assign, is_text}
use saz.Prelude.Table.{get}
use saz.Prelude.Floats.{Floats}
use saz.Policy.Budget.{check_budget, record_step}
use saz.Runs.{Run, Step, StepStatus, run_entity, step_entity}
use saz.Runs.RunRepository.{mark_running}
use saz.Runs.StepRepository.{append, get_max_attempt}
use saz.Engine.{
  escalate, continue_on_fail, PlanStep, Failure, policy_violation, replan_required, run_suspended,
  structural, other, critique_failure, escalation_required, Context, State, Env,
}
use saz.Engine.Effects.{
  failure_type, set_steps, set_runs, emit, set_current, complete_run, fail_run, new_row,
}
use saz.Engine.Gates.{attach_timeout_metadata, suspend_run}
use saz.Engine.Attempts.{execute_plan_step}
use saz.Engine.Restore.{latest_by_name, set_result, restore, fresh_context}

abbrev pub step_error : PlanStep → ℕ → String → Fields
step_error p number type_name =
    field "type" (str type_name)
      (field "step" (str p.step_id) (field "step_number" (num (pos number) 0) end))

abbrev pub structural_error : PlanStep → ℕ → String → Fields
structural_error p number type_name =
    field "category" (str "structural")
      (field "retryable" (bool false) (step_error p number type_name))

abbrev pub failed_now : ℕ → Fields → Step → Step
failed_now now e t = record t { status = StepStatus.failed; end_ts = some now; error = some e }

abbrev pub is_over {ℓ} : {A : Type ℓ} → Option A → Bool
is_over none = false
is_over (some e) = true

abbrev pub type_field : String → Fields
type_field t = field "type" (str t) end

module _ (F : Floats) (env : Env F) where
  abbrev pub set_context : (Context → Context) → State F → State F
  set_context f s = record s { context = f s.context }

  abbrev pub stop : State F → State F × Bool
  stop s = (s, false)

  -- The step's row is failed before the run is.
  abbrev pub fail_current : String → String → Fields → State F → State F × Bool
  fail_current run_id type_name error s = stop (
      fail_run F env run_id error (
        set_current F env (failed_now (env.now s.supply) (env.redact_error (type_field type_name)))
          (record s { supply = suc s.supply })))

  abbrev pub suspend_with : String → PlanStep → Fields → State F → State F × Bool
  suspend_with run_id p error s = stop (
      suspend_run F env run_id
        (attach_timeout_metadata F env (env.now s.supply) p.input_template error) s)

  abbrev pub escalation_error : PlanStep → ℕ → String → Bool → Fields
  escalation_error p number callback_id pre = env.redact_error (
      assign "pre_execution" (bool pre)
        (assign "callback_id" (str callback_id) (step_error p number "EscalationRequired")))

  -- A step whose retries are spent, by its policy.
  unfoldable pub handle_failure : String → ℕ → PlanStep → String → State F → State F × Bool
  unfolding suspend_run fail_run attach_timeout_metadata
  handle_failure run_id number p type_name s = elim p.error_handling [
    | escalate ↦
        suspend_with run_id p
          (assign "type" (str "EscalationRequired") (
            assign "callback_id" (str (env.uuid s.supply))
              (env.redact_error (step_error p number type_name))))
          s
    | continue_on_fail ↦ (
      record s {
        context =
            set_result p.step_id
              (obj (field "error" (obj (env.redact_error (step_error p number type_name))) end))
              s.context;
        tracker = record_step F (env.now s.supply) run_id s.tracker;
      },
      true,
    )
    | _ ↦ stop (fail_run F env run_id (env.redact_error (step_error p number type_name)) s)
  ]

  -- The `except` clauses of the loop; the flag says whether the loop goes on.
  unfoldable pub handle_exception : String → ℕ → PlanStep → Failure → State F → State F × Bool
  unfolding suspend_run fail_run attach_timeout_metadata handle_failure
  handle_exception run_id number p policy_violation s =
      fail_current run_id "PolicyViolation"
        (env.redact_error (step_error p number "PolicyViolation")) s
  handle_exception run_id number p (structural t) s =
      fail_current run_id t (env.redact_error (structural_error p number t)) s
  handle_exception run_id number p (critique_failure r) s =
      stop (fail_run F env run_id (env.redact_error (step_error p number "CritiqueFailure")) s)
  handle_exception run_id number p replan_required s =
      stop (fail_run F env run_id (env.redact_error (step_error p number "ReplanRequired")) s)
  handle_exception run_id number p (escalation_required pre) s =
      suspend_with run_id p (escalation_error p number (env.uuid s.supply) pre)
        (set_current F env (λ t. record t { status = StepStatus.suspended }) s)
  handle_exception run_id number p run_suspended s = stop s
  handle_exception run_id number p (other t) s = handle_failure run_id number p t s

  unfoldable pub skip_step : String → ℕ → PlanStep → State F → State F
  unfolding append
  skip_step run_id number p s =
      let id = env.uuid s.supply in
      let row =
        new_row id run_id number p StepStatus.skipped
          (get_max_attempt run_id p.step_id s.db.steps + 1) none in
      set_context (set_result p.step_id (obj (field "skipped" (bool true) end))) (
        emit F env run_id "step.skipped" (some id)
          (set_steps F env (append row) (record s { supply = suc s.supply })))

  abbrev pub guard_error : PlanStep → ℕ → Failure → Fields
  guard_error p number (structural t) = structural_error p number t
  guard_error p number e = type_field (failure_type e)

  -- What follows `_execute_plan_step`.
  unfoldable pub after_step :
      String → ℕ → PlanStep → State F → Result Failure Value → State F × Bool
  unfolding handle_exception
  after_step run_id number p s (ok v) = (
    record s {
      context = set_result p.step_id v s.context;
      tracker = record_step F (env.now s.supply) run_id s.tracker;
    },
    true,
  )
  after_step run_id number p s (err e) = handle_exception run_id number p e s

  -- By the value of the guard.
  unfoldable pub guarded_step :
      String → ℕ → PlanStep → Result Failure Bool → State F → State F × Bool
  unfolding fail_run execute_plan_step after_step skip_step
  guarded_step run_id number p (err e) s = stop (fail_run F env run_id (guard_error p number e) s)
  guarded_step run_id number p (ok false) s = (skip_step run_id number p s, true)
  guarded_step run_id number p (ok true) s =
      let (s', r) = execute_plan_step F env run_id number p s in after_step run_id number p s' r

  abbrev pub checked : String → State F → State F
  checked run_id s = record s {
    tracker = (check_budget F (env.now s.supply) run_id s.tracker).0;
    supply = suc s.supply;
  }

  -- One round of the loop; the flag says whether the loop goes on.
  unfoldable pub run_step : String → ℕ → PlanStep → State F → State F × Bool
  unfolding fail_run guarded_step
  run_step run_id number p s =
      if contains p.step_id s.context.completed_steps
      then (s, true)
      else elim (check_budget F (env.now s.supply) run_id s.tracker).1 [
        | some why ↦ stop (
            fail_run F env run_id (step_error p number "BudgetExceededError")
              (emit F env run_id "policy.budget_exhausted" none (checked run_id s)))
        | none ↦ guarded_step run_id number p (env.evaluate_guard p s.context) (checked run_id s)
      ]

  unfoldable pub run_steps : String → ℕ → List PlanStep → State F → State F
  unfolding complete_run run_step
  run_steps run_id number [] s = complete_run F env run_id s
  run_steps run_id number (p ∷ plan) s =
      let (s', goes_on) = run_step run_id number p s in
      elim goes_on [ true ↦ run_steps run_id (suc number) plan s' | false ↦ s' ]

  abbrev pub is_agentic : Fields → Bool
  is_agentic workflow = is_text "agentic" (lookup "planner_mode" workflow)

  abbrev pub planning_exceeded : String → Fields → State F → Bool
  planning_exceeded run_id workflow s =
      is_agentic workflow && is_over (check_budget F (env.now s.supply) run_id s.tracker).1

  abbrev pub start_run : String → Run → State F → State F
  start_run run_id run s =
      set_context
        (λ c.
          restore (latest_by_name [] (keep (λ t. t.run_id == run_id) s.db.steps))
            (fresh_context run.payload))
        (emit F env run_id "run.started" none (
          set_runs F env (mark_running (env.now s.supply) run_id)
            (record s { supply = suc s.supply })))

  unfoldable pub planned_run : String → Result Failure (List PlanStep) → State F → State F
  unfolding fail_run run_steps
  planned_run run_id (err e) s = fail_run F env run_id (type_field (failure_type e)) s
  planned_run run_id (ok plan) s =
      run_steps run_id 0 plan (emit F env run_id "plan.generated" none s)

  -- By the `workflow` of the run's flow.
  unfoldable pub flow_run : String → Option Fields → Run → State F → State F
  unfolding fail_run complete_run planned_run restore latest_by_name mark_running
  flow_run run_id none run s = fail_run F env run_id (type_field "FlowNotFoundError") s
  flow_run run_id (some end) run s = complete_run F env run_id (start_run run_id run s)
  flow_run run_id (some (field k v fs)) run s =
      let s1 = start_run run_id run s in
      if planning_exceeded run_id (field k v fs) s1
      then fail_run F env run_id (type_field "BudgetExceededError")
          (emit F env run_id "policy.budget_exhausted" none s1)
      else planned_run run_id (env.plan (field k v fs) s1.context) s1

  -- By the row of the run.
  unfoldable pub found_run : String → Option Run → State F → State F
  unfolding flow_run
  found_run run_id none s = s
  found_run run_id (some run) s = flow_run run_id (env.flow run.flow_id) run s

  unfoldable pub execute_run : String → State F → State F
  unfolding found_run
  execute_run run_id s = found_run run_id (get run_id s.db.runs) s
