-- ===== src/Runs/Claims/Late.antt =====
-- Attempts at a run that is not suspended, in backend/saz/engine/suspension_sweeper.py and
-- backend/saz/api/routes/webhooks.py.
use saz.Prelude.{
  ℕ, String, ◌≡◌, inl, inr, false, Option, some, List, arith, Option-cases, err, string_eq,
}
use saz.Prelude.Json.{Fields, or_end}
use saz.Prelude.Table.{get, get-key}
use saz.Runs.{Run, User, Event, Db, run_entity}
use saz.Runs.RunRepository.{find_by_callback_id, update_if_suspended}
use saz.Runs.Service.{Error, resume_run, suspended_step}
use saz.Runs.Sweeper.{fail_one}
use saz.Runs.Webhooks.{
  ResumeRequest, CallbackRequest, resumed_events, resume_endpoint, handle_webhook_callback,
  reject_run,
}
use saz.Runs.Claims.{
  Attempt, sweep, resume, callback, committed, attempt, IsAbout, is_suspended_row, is_suspended_in,
}

-- A guarded update misses a run that is not suspended.
update_if_suspended-miss :
    (j : String) (f : Run → Run) (rows : List Run)
    → is_suspended_row j rows ≡ false
    → update_if_suspended j f rows ≡ (rows, false)
update_if_suspended-miss j f rows h = ground arith

pub fail_one-late :
    (now : ℕ) (seen : Run) (db : Db)
    → is_suspended_in seen.id db ≡ false
    → fail_one now seen db ≡ db
unfolding fail_one
fail_one-late now seen db h = ground arith

pub reject_run-late :
    (now : ℕ) (run : Run) (d : Fields) (seen db : Db)
    → is_suspended_in run.id db ≡ false
    → reject_run now run d seen db ≡ err Error.not_suspended
unfolding reject_run
reject_run-late now run d seen db h = ground arith

pub resume_run-late :
    (now : ℕ) (id : String) (d o : Option Fields) (buffer : List Event) (seen db : Db)
    → is_suspended_in id db ≡ false
    → (e : Error) × (resume_run now id d o buffer seen db ≡ err e)
unfolding resume_run
resume_run-late now id d o buffer seen db h = elim (Option-cases (get id seen.runs)) [
  | inl none_seen ↦ (Error.run_not_found, ground (arith, none_seen))
  | inr (r, found_run) ↦ (Error.not_suspended, ground (arith, found_run))
]

pub resume_endpoint-late :
    (now : ℕ) (u : User) (id : String) (req : ResumeRequest) (seen db : Db)
    → is_suspended_in id db ≡ false
    → committed db (resume_endpoint now u id req seen db) ≡ db
unfolding resume_endpoint
resume_endpoint-late now u id req seen db h = elim (Option-cases (get id seen.runs)) [
  | inl none_seen ↦ ground (arith, none_seen)
  | inr (r, found_run) ↦
      let buffer = resumed_events r (suspended_step id seen.steps) in
      let (e, raised) =
        resume_run-late now id req.resume_data req.override_payload buffer seen db h in
      let same : r.id ≡ id = get-key id seen.runs r found_run in
      let late : is_suspended_in r.id db ≡ false = rw same h in
      ground (arith, found_run, raised, reject_run-late now r (or_end req.resume_data) seen db late)
]

pub handle_webhook_callback-late :
    (now : ℕ) (id : String) (req : CallbackRequest) (seen db : Db)
    → ((r : Run) → find_by_callback_id id seen.runs ≡ some r → is_suspended_in r.id db ≡ false)
    → committed db (handle_webhook_callback now id req seen db) ≡ db
unfolding handle_webhook_callback
handle_webhook_callback-late now id req seen db h =
    elim (Option-cases (find_by_callback_id id seen.runs)) [
      | inl none_seen ↦ ground (arith, none_seen)
      | inr (r, found_run) ↦ ground (arith, found_run, h r found_run)
    ]

-- An attempt at a run that is not suspended leaves the whole database as it is.
pub attempt-late :
    (j : String) (a : Attempt) (db : Db)
    → IsAbout j a
    → is_suspended_in j db ≡ false
    → attempt a db ≡ db
unfolding attempt
attempt-late j (sweep now seen) db about h = fail_one-late now seen db (rw about h)
attempt-late j (resume now u id req seen) db about h =
    resume_endpoint-late now u id req seen db (rw about h)
attempt-late j (callback now id req seen) db about h =
    handle_webhook_callback-late now id req seen db (λ r e. rw (about r e) h)
