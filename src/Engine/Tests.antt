-- ===== src/Engine/Tests.antt =====
-- An execution of a plan with a step that is completed already and one that fails once, and each
-- theorem at an input.
use saz.Prelude.{
  ℕ, ◌≤◌, ◌+◌, String, ◌≡◌, refl, ◌≢◌, true, false, none, some, List, [], ◌∷◌, empty, Result, ok,
  err, All, arith, inl, inr, Bool-cases, if◌then◌else◌, ltb,
}
use mathlib.Core.Path.{subst}
use saz.Prelude.Int.{pos}
use saz.Prelude.Json.{Value, bool, num, str, end, field}
use saz.Prelude.Table.{get}
use saz.Prelude.Floats.{millionths}
use saz.Runs.{Run, RunStatus, Step, StepStatus, run_entity}
use saz.Engine.{fail, PlanStep, Failure, run_suspended, other, State, Env}
use saz.Engine.Restore.{fresh_context, restore, latest_by_name}
use saz.Engine.Restore.Latest.{latest_row, is_restorable_found, restore_reads_latest}
use saz.Prelude.{contains, ◌||◌, string_eq}
use saz.Engine.Executor.{execute_run, start_run}
use saz.Engine.Settled.{any_running, is_settled_found}
use saz.Engine.Settled.Steps.{NeverSuspends}
use saz.Engine.Settled.Rounds.{IsAttempted}
use saz.Engine.Settled.Execution.{PlansAttempts, execute_run_settles}
use saz.Engine.Log.{count}
use saz.Engine.Log.Bounds.{open_attempts, calls_bounded}

abbrev plan_step : String → PlanStep
plan_step name = record {
  step_id = name;
  step_type = "tool.call";
  guard = none;
  input_template = end;
  error_handling = fail;
  max_retries = pos 2;
  reasoning = "";
}

abbrev plan : List PlanStep
plan = plan_step "fetch" ∷ plan_step "send" ∷ []

-- The first attempt fails.
abbrev answer : ℕ → Result Failure Value
answer k = if ltb k 2 then err (other "TimeoutError") else ok (bool true)

abbrev env : Env millionths
env = record {
  now = λ n. n;
  uuid = λ n. "id";
  redact = λ v. v;
  redact_error = λ e. e;
  to_float = λ v. none;
  of_float = λ x. num (pos x) 6;
  plus_minutes = λ now x. now + x;
  flow = λ id. some (field "planner_mode" (str "deterministic") end);
  plan = λ w c. ok plan;
  evaluate_guard = λ p c. ok true;
  perform = λ calls p k c t. (t, answer k);
}

abbrev run : Run
run = record {
  id = "r1";
  flow_id = "f1";
  status = RunStatus.queued;
  payload = end;
  error = none;
  started_at = none;
  completed_at = none;
  created_by_user_id = "u1";
}

abbrev fetched : Step
fetched = record {
  id = "s1";
  run_id = "r1";
  number = 0;
  name = "fetch";
  step_type = "tool.call";
  status = StepStatus.completed;
  attempt = 1;
  retry_count = 0;
  output = some (bool true);
  error = none;
  start_ts = some 1;
  end_ts = some 2;
}

abbrev start : State millionths
start = record {
  db = record { runs = run ∷ []; steps = fetched ∷ []; events = [] };
  context = fresh_context end;
  tracker = record {
    max_tokens = pos 100;
    max_cost_usd = 5000000;
    max_steps = pos 10;
    max_time_seconds = pos 3600;
    budgets = empty;
  };
  calls = [];
  supply = 3;
}

answer_resumes : (k : ℕ) → answer k ≢ err run_suspended
answer_resumes k e = elim (Bool-cases (ltb k 2)) [ inl h ↦ cc | inr h ↦ cc ]

env-NeverSuspends : NeverSuspends millionths env
env-NeverSuspends calls p k c t = answer_resumes k

env-PlansAttempts : PlansAttempts millionths env
env-PlansAttempts w c q e =
    let same : plan ≡ q = cc in subst (All IsAttempted) same ((omega arith), ((omega arith), tt))

execute_run_settles_example :
    (any_running (execute_run millionths env "r1" start).db.steps ≡ false)
    × (is_settled_found (get "r1" (execute_run millionths env "r1" start).db.runs) ≡ true)
execute_run_settles_example =
    execute_run_settles millionths env "r1" start env-NeverSuspends env-PlansAttempts refl

-- `fetch` is restored, so it has no attempt left, whatever the plan has for it.
calls_bounded_example :
    count "fetch" (execute_run millionths env "r1" start).calls
    ≤ 0
      + open_attempts "fetch" plan (start_run millionths env "r1" run start).context.completed_steps
calls_bounded_example =
    calls_bounded millionths env "fetch" "r1" run "planner_mode" (str "deterministic") end plan
      start refl refl refl

-- The row of a later attempt at `fetch`, which failed.
abbrev failed_again : Step
failed_again = record (fetched) {
  id = "s2";
  attempt = 2;
  status = StepStatus.failed;
  output = none;
}

restore_reads_latest_example :
    contains "fetch"
      (restore
        (latest_by_name [] (failed_again ∷ fetched ∷ []))
        (fresh_context end)).completed_steps
    ≡ (false || is_restorable_found (latest_row "fetch" (failed_again ∷ fetched ∷ [])))
restore_reads_latest_example =
    restore_reads_latest "fetch" (failed_again ∷ fetched ∷ []) (fresh_context end)
