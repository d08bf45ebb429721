-- ===== src/Engine/Attempts.antt =====
-- `WorkflowExecutor._execute_plan_step` of backend/saz/engine/executor.py: the row of a step and the
-- attempts at its action. The delays between attempts are left out.
use saz.Prelude.{
  ℕ, suc, zero, ◌+◌, String, Bool, true, false, Option, none, some, [], ◌∷◌, ◌++◌, ◌==◌, string_eq,
  nat_eq, if◌then◌else◌, Result, ok, err,
}
use saz.Prelude.Int.{ℤ, pos, negsuc}
use saz.Prelude.Json.{Value, str, num, end, field}
use saz.Prelude.Table.{modify}
use saz.Prelude.Floats.{Floats}
use saz.Runs.{StepStatus, run_entity, step_entity}
use saz.Runs.StepRepository.{append, get_max_attempt}
use saz.Engine.{
  PlanStep, Failure, policy_violation, run_suspended, structural, other, critique_failure,
  escalation_required, State, Env,
}
use saz.Engine.Effects.{failure_type, set_steps, emit, new_row}
use saz.Engine.Gates.{execute_human_approval, execute_webhook_wait}

-- What the retry loop lets through at once.
abbrev pub is_deterministic : Failure → Bool
is_deterministic policy_violation = true
is_deterministic run_suspended = true
is_deterministic (structural t) = true
is_deterministic (escalation_required p) = true
is_deterministic _ = false

abbrev pub feedback : Failure → Option String
feedback (critique_failure r) = some r
feedback _ = none

-- `range(max_retries + 1)`
abbrev pub max_attempts : ℤ → ℕ
max_attempts (pos n) = suc n
max_attempts (negsuc n) = zero

module _ (F : Floats) (env : Env F) where
  -- `perform` stands for the actions that are not gates.
  unfoldable pub execute_step_action :
      String → PlanStep → ℕ → State F → State F × Result Failure Value
  unfolding execute_human_approval execute_webhook_wait
  execute_step_action run_id p attempt s =
      if p.step_type == "human.approval"
      then execute_human_approval F env run_id p s
      else if p.step_type == "webhook.wait"
      then execute_webhook_wait F env run_id p s
      else let (tracker, r) = env.perform s.calls p attempt s.context s.tracker in
        (
          record s {
            tracker = tracker;
            calls = s.calls ++ record { step = p.step_id; attempt = attempt } ∷ [];
          },
          r,
        )

  abbrev pub complete_step : String → String → Value → State F → State F
  complete_step run_id id v s = emit F env run_id "step.completed" (some id) (
      set_steps F env
        (modify id λ t. record t {
          status = StepStatus.completed;
          end_ts = some (env.now s.supply);
          output = some (env.redact v);
        })
        (record s { supply = suc s.supply }))

  abbrev pub fail_step : String → String → ℕ → Failure → State F → State F
  fail_step run_id id attempts e s = emit F env run_id "step.failed" (some id) (
      set_steps F env
        (modify id λ t. record t {
          status = StepStatus.failed;
          end_ts = some (env.now s.supply);
          error = some (
              env.redact_error (
                field "type" (str (failure_type e)) (field "attempts" (num (pos attempts) 0) end)));
        })
        (record s { supply = suc s.supply }))

  abbrev pub set_feedback : Option String → State F → State F
  set_feedback f s = record s { context = record (s.context) { last_critique_feedback = f } }

  -- The row counts the retry, and is failed after the last attempt.
  abbrev pub record_failure : String → String → ℕ → ℕ → Failure → State F → State F
  record_failure run_id id left made e s =
      let s' = set_steps F env (modify id λ t. record t { retry_count = made }) s in
      if left == 0 then fail_step run_id id (suc made) e s' else s'

  -- The attempts that are left, the number of those made, the last error and the feedback of its
  -- critique, and the row of the step.
  unfoldable pub retry_loop :
      String → PlanStep → String → ℕ → ℕ → Failure → State F → State F × Result Failure Value
  unfolding execute_step_action
  retry_loop run_id p id zero made last s = (s, err last)
  retry_loop run_id p id (suc left) made last s =
      let (s', r) = execute_step_action run_id p (suc made) (set_feedback (feedback last) s) in
      elim r [
        | ok v ↦ (complete_step run_id id v s', ok v)
        | err e ↦ elim (is_deterministic e) [
          | true ↦ (s', err e)
          | false ↦
              retry_loop run_id p id left (suc made) e (record_failure run_id id left made e s')
        ]
      ]

  -- What the loop makes of the answer of an attempt.
  abbrev pub next :
      String
      → PlanStep
      → String
      → ℕ
      → ℕ
      → State F
      → Result Failure Value
      → State F × Result Failure Value
  next run_id p id left made s r = elim r [
    | ok v ↦ (complete_step run_id id v s, ok v)
    | err e ↦ elim (is_deterministic e) [
      | true ↦ (s, err e)
      | false ↦ retry_loop run_id p id left (suc made) e (record_failure run_id id left made e s)
    ]
  ]

  unfoldable pub execute_plan_step :
      String → ℕ → PlanStep → State F → State F × Result Failure Value
  unfolding append retry_loop
  execute_plan_step run_id number p s =
      let id = env.uuid s.supply in
      let row =
        new_row id run_id number p StepStatus.running
          (get_max_attempt run_id p.step_id s.db.steps + 1) (some (env.now s.supply)) in
      let s1 = set_steps F env (append row) (record s {
        context = record (s.context) { current_step = some id };
        supply = suc s.supply;
      }) in
      retry_loop run_id p id (max_attempts p.max_retries) 0 (other "Exception")
        (emit F env run_id "step.started" (some id) s1)
