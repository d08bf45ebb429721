-- ===== src/Runs/Sweeper.antt =====
-- The sweep of backend/saz/engine/suspension_sweeper.py.
use saz.Prelude.{ℕ, String, Option, none, some, List, [], ◌∷◌, ◌++◌, if◌then◌else◌}
use saz.Prelude.Json.{Value, str, time, Fields, end, field, lookup, assign, is_text, or_end}
use saz.Prelude.Table.{modify}
use saz.Runs.{Run, Step, StepStatus, Event, Db, step_entity}
use saz.Runs.RunRepository.{mark_failed_if_suspended, find_expired_suspensions}
use saz.Runs.StepRepository.{get_first_suspended_for_run}

-- `d.get(k, default)` as a text
abbrev pub text_at : String → String → Fields → Value
text_at k d fs = elim (lookup k fs) [ none ↦ str d | some v ↦ v ]

abbrev pub carry : String → Option Value → Fields → Fields
carry k none fs = fs
carry k (some Value.null) fs = fs
carry k (some v) fs = assign k v fs

-- The error of the failed run.
unfoldable pub timeout_error : ℕ → Fields → Fields
timeout_error now prior = carry "callback_id" (lookup "callback_id" prior) (
    carry "timeout_at" (lookup "timeout_at" prior) (
      field "type" (str "SuspensionTimeout") (
        field "step_id" (text_at "step_id" "" prior) (
          field "original_type" (text_at "type" "Suspension" prior)
            (field "timed_out_at" (time now) end)))))

abbrev pub step_id_of : Option Step → Option String
step_id_of none = none
step_id_of (some s) = some s.id

abbrev pub step_timeout_error : Fields
step_timeout_error = field "type" (str "SuspensionTimeout") end

-- `suspended_step.status = "failed"`; the end of the step is not stamped here.
abbrev pub fail_step : Option Step → List Step → List Step
fail_step none steps = steps
fail_step (some s) steps =
    modify s.id (λ t. record t { status = StepStatus.failed; error = some step_timeout_error })
      steps

abbrev pub timeout_events : Run → Option Step → List Event
timeout_events run step =
    (if is_text "HumanApprovalRequired" (lookup "type" (or_end run.error))
      then record { run_id = run.id; event_type = "approval.denied"; step_id = step_id_of step }
        ∷ []
      else [])
    ++ record { run_id = run.id; event_type = "run.failed"; step_id = none } ∷ []

-- `seen` is the row that the sweep's query found.
unfoldable pub fail_one : ℕ → Run → Db → Db
unfolding mark_failed_if_suspended get_first_suspended_for_run timeout_error
fail_one now seen db =
    let (runs, applied) =
      mark_failed_if_suspended now seen.id (timeout_error now (or_end seen.error)) db.runs in
    let step = get_first_suspended_for_run seen.id db.steps in
    if applied
    then record {
      runs = runs;
      steps = fail_step step db.steps;
      events = db.events ++ timeout_events seen step;
    }
    else db

unfoldable pub fail_all : ℕ → List Run → Db → Db
fail_all now [] db = db
fail_all now (r ∷ rs) db = fail_all now rs (fail_one now r db)

unfoldable pub sweep_once : ℕ → ℕ → Db → Db
unfolding find_expired_suspensions fail_all
sweep_once now batch_limit db = fail_all now (find_expired_suspensions now batch_limit db.runs) db
