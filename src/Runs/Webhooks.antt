-- ===== src/Runs/Webhooks.antt =====
-- The two handlers of backend/saz/api/routes/webhooks.py. `seen` is the database that a handler's
-- first reads find, and `db` the one on which its guarded update runs.
use saz.Prelude.{
  ℕ, String, Bool, true, false, not, ◌||◌, Option, none, some, List, [], ◌∷◌, ◌++◌, ◌==◌, string_eq,
  if◌then◌else◌, Result, ok, err, ◌>>=◌, ◌>>◌, guard,
}
use saz.Prelude.Json.{
  Value, bool, str, arr, obj, Items, no_item, item, Fields, end, field, lookup, assign, merge,
  is_text, truthy, or_end,
}
use saz.Prelude.Table.{get, modify}
use saz.Compiler.{present}
use saz.Runs.{
  Run, Role, admin, viewer, User, Step, Event, Db, run_entity, step_entity, is_suspended,
}
use saz.Runs.RunRepository.{mark_failed_if_suspended, mark_queued_if_suspended, find_by_callback_id}
use saz.Runs.StepRepository.{mark_failed, get_first_suspended_for_run}
use saz.Runs.Service.{
  Error, run_not_found, not_suspended, not_approver, write_access_required, not_owner,
  invalid_action, event_mismatch, no_callback, found, set_output, resume_run, resolve_step,
  suspended_step,
}
use saz.Runs.Sweeper.{step_id_of}

abbrev pub is_admin : Role → Bool
is_admin admin = true
is_admin _ = false

abbrev pub is_viewer : Role → Bool
is_viewer viewer = true
is_viewer _ = false

-- `(run.error or {}).get("approval") or {}`, and its `approvers`
abbrev pub dict_at : String → Fields → Fields
dict_at k fs = elim (lookup k fs) [ some (obj d) ↦ d | _ ↦ end ]

abbrev pub approvers : Option Fields → Option Value
approvers e = lookup "approvers" (dict_at "approval" (or_end e))

abbrev pub lists : String → Items → Bool
lists s no_item = false
lists s (item v vs) = is_text s (some v) || lists s vs

-- `{user.username, user.email} & set(approvers)` is not empty: the members of a list, or the keys of
-- a dict. The characters of a text name nobody, since no username is shorter than three; where `set`
-- raises, the user is refused as well.
abbrev pub is_named : User → Option Value → Bool
is_named u (some (arr xs)) = lists u.username xs || lists u.email xs
is_named u (some (obj fs)) = present u.username fs || present u.email fs
is_named u _ = false

abbrev pub is_given : Option Value → Bool
is_given none = false
is_given (some v) = truthy v

-- Who may resume or reject through the authenticated route.
unfoldable pub authorize_resume : User → Run → Result Error (Unit {0})
authorize_resume u run =
    if is_given (approvers run.error)
    then guard (is_admin u.role || is_named u (approvers run.error)) not_approver
    else if is_admin u.role
    then ok tt
    else if is_viewer u.role
    then err write_access_required
    else guard (run.created_by_user_id == u.id) not_owner

pub record ResumeRequest : Type 0 where
  pub resume_data : Option Fields
  pub override_payload : Option Fields

pub data Status : Type 0 where
  queued rejected resumed already_processed : Status

-- `resume_data.get("approved") is False`
abbrev pub is_rejection : Fields → Bool
is_rejection d = elim (lookup "approved" d) [ some (bool false) ↦ true | _ ↦ false ]

abbrev pub event : Run → String → Option String → Event
event run t s = record { run_id = run.id; event_type = t; step_id = s }

abbrev pub set_step : Option Step → (Step → Step) → List Step → List Step
set_step none f steps = steps
set_step (some s) f steps = modify s.id f steps

abbrev pub fail_step : ℕ → Option Step → Fields → List Step → List Step
fail_step now none e steps = steps
fail_step now (some s) e steps = mark_failed now s.id e steps

abbrev pub resumed_events : Run → Option Step → List Event
resumed_events run step =
    event run "run.resumed" none
    ∷ elim step [ none ↦ [] | some s ↦ event run "step.resumed" (some s.id) ∷ [] ]

abbrev pub rejected_error : Value → Fields
rejected_error reason = field "type" (str "HumanApprovalRejected") (field "reason" reason end)

-- `d.get(k) or default`
abbrev pub text_or : String → String → Fields → Value
text_or k d fs = elim (lookup k fs) [ none ↦ str d | some v ↦ if truthy v then v else str d ]

unfoldable pub reject_run : ℕ → Run → Fields → Db → Db → Result Error (Db × Status)
unfolding mark_failed_if_suspended suspended_step mark_failed
reject_run now run d seen db = do
  let error = rejected_error (text_or "reason" "Rejected by approver" d)
  let step = suspended_step run.id seen.steps
  let (runs, claimed) = mark_failed_if_suspended now run.id error db.runs
  guard claimed not_suspended
  ok (
    record {
      runs = runs;
      steps = fail_step now step error (set_step step (set_output (obj d)) db.steps);
      events =
          db.events
          ++ event run "approval.denied" (step_id_of step) ∷ event run "run.failed" none ∷ [];
    },
    rejected,
  )

-- `POST /runs/{run_id}/resume`. The scheduler is called after `queued`.
unfoldable pub resume_endpoint :
    ℕ → User → String → ResumeRequest → Db → Db → Result Error (Db × Status)
unfolding authorize_resume reject_run resume_run
resume_endpoint now u id req seen db = do
  run ← found (get id seen.runs) run_not_found
  guard (is_suspended run.status) not_suspended
  authorize_resume u run
  if is_rejection (or_end req.resume_data)
      then reject_run now run (or_end req.resume_data) seen db
      else do
        db' ←
            resume_run now id req.resume_data req.override_payload
              (resumed_events run (suspended_step id seen.steps)) seen db
        ok (db', queued)

pub data Action : Type 0 where
  approve reject unknown_action : Action

pub record CallbackRequest : Type 0 where
  pub action : Action
  pub data_ : Option Fields
  pub reason : Option String
  pub event_name : Option String

abbrev pub is_known : Action → Bool
is_known unknown_action = false
is_known _ = true

abbrev pub is_reject : Action → Bool
is_reject reject = true
is_reject _ = false

abbrev pub action_text : Action → String
action_text approve = "approve"
action_text reject = "reject"
action_text unknown_action = ""

-- `expected and given and given != expected`, negated
abbrev pub event_fits : Option Value → Option String → Bool
event_fits expected none = true
event_fits expected (some given) = not (is_given expected) || given == "" || is_text given expected

abbrev pub rejection_error : String → Fields
rejection_error callback_id =
    field "type" (str "WebhookRejection") (field "callback_id" (str callback_id) end)

abbrev pub step_rejection_error : String → String → Fields
step_rejection_error callback_id reason =
    field "type" (str "WebhookRejection")
      (field "reason" (str reason) (field "callback_id" (str callback_id) end))

-- `reason or default`
abbrev pub reason_or : Option String → String
reason_or none = "Rejected via webhook callback"
reason_or (some s) = if s == "" then "Rejected via webhook callback" else s

unfoldable pub reject_callback : ℕ → String → CallbackRequest → Run → Db → Db → Db × Status
unfolding mark_failed_if_suspended get_first_suspended_for_run mark_failed
reject_callback now callback_id req run seen db =
    let step = get_first_suspended_for_run run.id seen.steps in
    let (runs, claimed) =
      mark_failed_if_suspended now run.id (rejection_error callback_id) db.runs in
    if claimed
    then (
      record {
        runs = runs;
        steps =
            fail_step now step
              (assign "reason" (str (reason_or req.reason)) (rejection_error callback_id)) db.steps;
        events =
            db.events
            ++ event run "webhook.callback_received" none
              ∷ event run "approval.denied" (step_id_of step)
              ∷ event run "run.failed" none
              ∷ [];
      },
      rejected,
    )
    else (db, already_processed)

abbrev pub callback_data : String → CallbackRequest → Fields
callback_data callback_id req =
    merge
      (field "approved" (bool true)
        (field "callback_id" (str callback_id) (field "action" (str (action_text req.action)) end)))
      (or_end req.data_)

abbrev pub granted_events : Run → Option Step → List Event
granted_events run step =
    event run "webhook.callback_received" none
    ∷ event run "approval.granted" (step_id_of step)
    ∷ (elim step [ none ↦ [] | some s ↦ event run "step.resumed" (some s.id) ∷ [] ]
        ++ event run "run.resumed" none ∷ [])

-- `resolved` keeps the callback id, so that a duplicate finds the run again.
abbrev pub resolved_error : String → Option Fields → Fields
resolved_error callback_id e =
    assign "resolved" (bool true) (assign "callback_id" (str callback_id) (or_end e))

unfoldable pub approve_callback : ℕ → String → CallbackRequest → Run → Db → Db → Db × Status
unfolding mark_queued_if_suspended get_first_suspended_for_run
approve_callback now callback_id req run seen db =
    let step = get_first_suspended_for_run run.id seen.steps in
    let error = resolved_error callback_id run.error in
    let (runs, claimed) = mark_queued_if_suspended run.id (some error) db.runs in
    if claimed
    then (
      record {
        runs = runs;
        steps = resolve_step now step (some error) (callback_data callback_id req) db.steps;
        events = db.events ++ granted_events run step;
      },
      resumed,
    )
    else (db, already_processed)

abbrev pub awaited_event : Run → Option Value
awaited_event run = lookup "event_name" (or_end run.error)

-- `POST /webhooks/callback/{callback_id}`. The scheduler is called after `resumed`.
unfoldable pub handle_webhook_callback :
    ℕ → String → CallbackRequest → Db → Db → Result Error (Db × Status)
unfolding find_by_callback_id reject_callback approve_callback
handle_webhook_callback now callback_id req seen db = do
  run ← found (find_by_callback_id callback_id seen.runs) no_callback
  if not (is_suspended run.status) then ok (db, already_processed) else do
    guard (is_known req.action) invalid_action
    guard (event_fits (awaited_event run) req.event_name) event_mismatch
    ok (
        if is_reject req.action
        then reject_callback now callback_id req run seen db
        else approve_callback now callback_id req run seen db)
