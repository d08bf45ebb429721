-- ===== src/Runs/Tests.antt =====
-- A suspended run, a late sweep and a late resume, and each theorem at an input.
use saz.Prelude.{◌≡◌, refl, ◌⊎◌, false, none, some, List, [], ◌∷◌}
use mathlib.Core.List.{Memᴰ}
use saz.Prelude.Json.{str, time, field, end}
use saz.Runs.{Run, RunStatus, Step, StepStatus, User, operator, Db}
use saz.Runs.RunRepository.{find_by_callback_id}
use saz.Runs.Sweeper.{fail_one}
use saz.Prelude.{ok, true}
use saz.Prelude.Table.{get}
use saz.Runs.{run_entity, is_suspended}
use saz.Prelude.{any}
use saz.Runs.Timeouts.{waits, timeout_ends_wait}
use saz.Runs.Permission.{may_resume, resume_needs_permission, authorize_resume-may_resume}
use saz.Runs.Webhooks.{
  queued, authorize_resume, resume_endpoint, handle_webhook_callback, ResumeRequest,
  CallbackRequest, approve,
}
use saz.Runs.Claims.{Attempt, sweep, resume, callback, attempt, attempt_all, is_suspended_in}
use saz.Runs.Claims.Race.{race_has_one_winner}

abbrev run : Run
run = record {
  id = "r1";
  flow_id = "f1";
  status = RunStatus.suspended;
  payload = end;
  error = some (
      field "type" (str "WebhookWait")
        (field "callback_id" (str "c1") (field "timeout_at" (time 50) end)));
  started_at = some 1;
  completed_at = none;
  created_by_user_id = "u1";
}

abbrev step : Step
step = record {
  id = "s1";
  run_id = "r1";
  number = 1;
  name = "wait";
  step_type = "wait_for_webhook";
  status = StepStatus.suspended;
  attempt = 1;
  retry_count = 0;
  output = none;
  error = none;
  start_ts = some 2;
  end_ts = none;
}

abbrev db : Db
db = record { runs = run ∷ []; steps = step ∷ []; events = [] }

abbrev owner : User
owner = record { id = "u1"; username = "ana"; email = "ana@saz"; role = operator }

abbrev request : ResumeRequest
request = record { resume_data = none; override_payload = none }

abbrev approval : CallbackRequest
approval = record { action = approve; data_ = none; reason = none; event_name = none }

abbrev resumed_db : Db
resumed_db = attempt (resume 60 owner "r1" request db) db

-- The owner resumes, a sweep and a callback come late.
abbrev attempts : List Attempt
attempts = resume 60 owner "r1" request db ∷ sweep 61 run ∷ callback 62 "c1" approval db ∷ []

resumed : is_suspended_in "r1" (attempt_all attempts db) ≡ false
unfolding attempt_all attempt handle_webhook_callback fail_one resume_endpoint
resumed = refl

sees_r1 : (r : Run) → find_by_callback_id "c1" db.runs ≡ some r → r.id ≡ "r1"
unfolding find_by_callback_id
sees_r1 r h = cc

race_has_one_winner_example :
    (attempt_all attempts db ≡ db)
    ⊎ ((a : Attempt) × Memᴰ a attempts
        × (attempt_all attempts db ≡ attempt a db)
        × (is_suspended_in "r1" (attempt a db) ≡ false))
race_has_one_winner_example = race_has_one_winner "r1" attempts db (refl, (refl, (sees_r1, tt)))

after_resume : resume_endpoint 60 owner "r1" request db db ≡ ok (resumed_db, queued)
unfolding resume_endpoint attempt
after_resume = refl

resume_needs_permission_example :
    (r : Run) × (get "r1" db.runs ≡ some r)
    × (is_suspended r.status ≡ true)
    × (may_resume owner r ≡ true)
resume_needs_permission_example =
    resume_needs_permission 60 owner "r1" request db db resumed_db queued after_resume

authorize_resume-may_resume_example :
    (authorize_resume owner run ≡ ok tt → may_resume owner run ≡ true)
    × (may_resume owner run ≡ true → authorize_resume owner run ≡ ok tt)
authorize_resume-may_resume_example = authorize_resume-may_resume owner run

timeout_ends_wait_example : any (waits "r1") (fail_one 60 run db).steps ≡ false
timeout_ends_wait_example = timeout_ends_wait 60 run db "s1" refl refl
