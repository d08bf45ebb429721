-- ===== src/Runs/Service.antt =====
-- backend/saz/services/run_service.py. A method that reads before it claims is given two states of
-- the database: `seen`, which its reads found, and `db`, on which its guarded update and the rest
-- of its transaction run; other transactions may have committed between the two. `buffer` holds
-- the audit events that the commit writes. An exception leaves the database as it was.
use saz.Prelude.{
  ℕ, String, Bool, true, ◌&&◌, ◌||◌, Option, none, some, List, ◌++◌, keep, ltb, ◌==◌, string_eq,
  nat_eq, if◌then◌else◌, Result, ok, err, ◌>>=◌, ◌>>◌, guard,
}
use saz.Prelude.Json.{Value, str, bool, obj, Fields, end, field, assign, merge, truthy_at, or_end}
use saz.Prelude.Table.{get, modify}
use saz.Runs.{
  Run, RunStatus, Step, Event, Db, run_entity, step_entity, is_failed, is_suspended_step,
}
use saz.Runs.RunRepository.{mark_queued_if_suspended, has_text}
use saz.Runs.StepRepository.{mark_completed, mark_failed, least, get_first_failed_for_run}

-- The `ValueError`s, and the errors of the routes.
pub data Error : Type 0 where
  run_not_found not_suspended only_failed no_failing_step : Error
  not_approver write_access_required not_owner invalid_action event_mismatch no_callback : Error

abbrev pub found {ℓ} : {A : Type ℓ} → Option A → Error → Result Error A
found none e = err e
found (some a) e = ok a

abbrev pub set_output : Value → Step → Step
set_output v s = record s { output = some v }

abbrev pub is_pre_execution : Option Fields → Bool
is_pre_execution e = has_text "type" "EscalationRequired" e && truthy_at "pre_execution" (or_end e)

abbrev pub escalation_approved_error : Fields
escalation_approved_error =
    field "message" (str "Pre-execution escalation approved; step will re-execute") (
      field "type" (str "EscalationApproved")
        (field "category" (str "escalation") (field "retryable" (bool true) end)))

-- An unknown step id changes nothing.
unfoldable pub resolve_suspended_step_on_approval :
    ℕ → String → Option Fields → Fields → List Step → List Step
unfolding mark_completed mark_failed
resolve_suspended_step_on_approval now step_id run_error resume_data steps =
    if is_pre_execution run_error
    then mark_failed now step_id escalation_approved_error (
        modify step_id (set_output (obj (assign "escalation_approved" (bool true) resume_data)))
          steps)
    else mark_completed now step_id (modify step_id (set_output (obj resume_data)) steps)

-- `sorted(run.steps, key=lambda s: (s.number, s.attempt))`, and the first suspended one.
abbrev pub in_order : Step → Step → Bool
in_order s t = ltb s.number t.number || (s.number == t.number && ltb s.attempt t.attempt)

unfoldable pub suspended_step : String → List Step → Option Step
suspended_step run_id steps =
    least in_order (keep (λ s. s.run_id == run_id && is_suspended_step s.status) steps)

-- `d or default`, where an empty dict is as good as none
abbrev pub or_default : Option Fields → Fields → Fields
or_default none d = d
or_default (some end) d = d
or_default (some (field k v fs)) d = field k v fs

abbrev pub resolve_step : ℕ → Option Step → Option Fields → Fields → List Step → List Step
resolve_step now none e d steps = steps
resolve_step now (some s) e d steps = resolve_suspended_step_on_approval now s.id e d steps

abbrev pub override : Option Fields → Run → Run
override none r = r
override (some fs) r = record r { payload = merge r.payload fs }

unfoldable pub resume_run :
    ℕ → String → Option Fields → Option Fields → List Event → Db → Db → Result Error Db
unfolding mark_queued_if_suspended suspended_step
resume_run now id resume_data override_payload buffer seen db = do
  detail ← found (get id seen.runs) run_not_found
  let (runs, claimed) = mark_queued_if_suspended id none db.runs
  guard claimed not_suspended
  ok (record {
    runs = modify id (override override_payload) runs;
    steps =
        resolve_step now (suspended_step id seen.steps) detail.error
          (or_default resume_data (field "resumed" (bool true) end)) db.steps;
    events = db.events ++ buffer;
  })

unfoldable pub retry : String → List Event → Db → Result Error Db
unfolding get_first_failed_for_run
retry id buffer db = do
  run ← found (get id db.runs) run_not_found
  guard (is_failed run.status) only_failed
  step ← found (get_first_failed_for_run id db.steps) no_failing_step
  ok (record db {
    runs =
        modify id (λ r. record r { status = RunStatus.queued; error = none; completed_at = none })
          db.runs;
    events = db.events ++ buffer;
  })
