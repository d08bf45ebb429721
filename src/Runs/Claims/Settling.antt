-- ===== src/Runs/Claims/Settling.antt =====
-- What one attempt does to a suspended run, in backend/saz/engine/suspension_sweeper.py and
-- backend/saz/api/routes/webhooks.py.
use saz.Prelude.{
  ℕ, String, ◌≡◌, refl, ap, ◌∙◌, ◌⊎◌, inl, inr, false, Option, none, some, List, arith,
  Option-cases, Bool-cases, Result-cases, ok, string_eq, text_refl,
}
use mathlib.Core.Option
use mathlib.Core.Path.{subst}
use saz.Prelude.Json.{Fields, end, or_end}
use saz.Prelude.Table.{get, modify, get-modify, get-key}
use saz.Runs.{Run, RunStatus, User, Event, Db, run_entity, is_suspended}
use saz.Runs.RunRepository.{find_by_callback_id, mark_failed_if_suspended, mark_queued_if_suspended}
use saz.Runs.Service.{override, resume_run, suspended_step}
use saz.Runs.Sweeper.{fail_one, timeout_error}
use saz.Runs.Webhooks.{
  ResumeRequest, CallbackRequest, resumed_events, rejected_error, rejection_error, resolved_error,
  text_or, resume_endpoint, handle_webhook_callback, reject_run,
}
use saz.Runs.Claims.{
  Attempt, sweep, resume, callback, committed, attempt, IsAbout, is_suspended_found,
  is_suspended_row, is_suspended_in,
}
use saz.Runs.Claims.Late.{fail_one-late, reject_run-late, resume_endpoint-late}

-- Writing another status than `suspended` to a row, or a status-keeping write to such a row,
-- leaves it not suspended.
modify-Settles :
    (j : String) (f : Run → Run) (rows : List Run)
    → ((r : Run) → (f r).id ≡ r.id)
    → ((r : Run) → is_suspended (f r).status ≡ false)
    → is_suspended_row j (modify j f rows) ≡ false
modify-Settles j f rows keeps settles =
    ap is_suspended_found (get-modify j j f keeps rows ∙ rw (text_refl j)) ∙ after (get j rows)
  where
    after : (o : Option Run) → is_suspended_found (Option.map f o) ≡ false
    after none = refl
    after (some r) = settles r

override-keeps : (o : Option Fields) (r : Run) → (override o r).id ≡ r.id
override-keeps none r = refl
override-keeps (some d) r = refl

override-settled :
    (j : String) (o : Option Fields) (rows : List Run)
    → is_suspended_row j rows ≡ false
    → is_suspended_row j (modify j (override o) rows) ≡ false
override-settled j o rows h =
    ap is_suspended_found (get-modify j j (override o) (override-keeps o) rows ∙ rw (text_refl j))
    ∙ after o (get j rows) h
  where
    after :
        (o : Option Fields) (row : Option Run)
        → is_suspended_found row ≡ false
        → is_suspended_found (Option.map (override o) row) ≡ false
    after o none h = refl
    after none (some r) h = h
    after (some d) (some r) h = h

-- Either nothing was written, or the run is no longer suspended.
abbrev pub Settles : String → Db → Db → Type 0
Settles j db db' = (db' ≡ db) ⊎ (is_suspended_in j db' ≡ false)

module _ (now : ℕ) (j : String) (e : Fields) (o : Option Fields) (rows : List Run) where
  failed-Settles : is_suspended_row j (mark_failed_if_suspended now j e rows).0 ≡ false
  unfolding mark_failed_if_suspended
  failed-Settles = ground (
    arith,
    modify-Settles j
        (λ r. record r { status = RunStatus.failed; error = some e; completed_at = some now }) rows
        (λ r. refl) (λ r. refl),
  )

  queued-Settles : is_suspended_row j (mark_queued_if_suspended j o rows).0 ≡ false
  unfolding mark_queued_if_suspended
  queued-Settles = ground (
    arith,
    modify-Settles j (λ r. record r { status = RunStatus.queued; error = o }) rows (λ r. refl)
        (λ r. refl),
  )

fail_one-Settles : (now : ℕ) (seen : Run) (db : Db) → Settles seen.id db (fail_one now seen db)
unfolding fail_one
fail_one-Settles now seen db = elim (Bool-cases (is_suspended_in seen.id db)) [
  | inr late ↦ inl (fail_one-late now seen db late)
  | inl e ↦ inr (
      ground
        (arith, e, failed-Settles now seen.id (timeout_error now (or_end seen.error)) none db.runs))
]

reject_run-Settles :
    (now : ℕ) (run : Run) (d : Fields) (seen db : Db)
    → Settles run.id db (committed db (reject_run now run d seen db))
unfolding reject_run
reject_run-Settles now run d seen db = elim (Bool-cases (is_suspended_in run.id db)) [
  | inr late ↦ inl (rw (reject_run-late now run d seen db late))
  | inl e ↦
      let error = rejected_error (text_or "reason" "Rejected by approver" d) in
      inr (ground (arith, e, failed-Settles now run.id error none db.runs))
]

resume_run-Settles :
    (now : ℕ) (id : String) (d o : Option Fields) (buffer : List Event) (seen db db' : Db)
    → resume_run now id d o buffer seen db ≡ ok db'
    → is_suspended_in id db' ≡ false
unfolding resume_run
resume_run-Settles now id d o buffer seen db db' h = elim (Option-cases (get id seen.runs)) [
  | inl none_seen ↦ ground (arith, none_seen)
  | inr (r, found_run) ↦
      let runs = (mark_queued_if_suspended id none db.runs).0 in
      let settled = override-settled id o runs (queued-Settles now id end none db.runs) in
      ground (arith, found_run, settled)
]

resume_endpoint-Settles :
    (now : ℕ) (u : User) (id : String) (req : ResumeRequest) (seen db : Db)
    → Settles id db (committed db (resume_endpoint now u id req seen db))
unfolding resume_endpoint
resume_endpoint-Settles now u id req seen db = elim (Bool-cases (is_suspended_in id db)) [
  | inr late ↦ inl (resume_endpoint-late now u id req seen db late)
  | inl e ↦ elim (Option-cases (get id seen.runs)) [
    | inl none_seen ↦ inl (ground (arith, none_seen))
    | inr (r, found_run) ↦
        let same : r.id ≡ id = get-key id seen.runs r found_run in
        let buffer = resumed_events r (suspended_step id seen.steps) in
        let resumed = resume_run now id req.resume_data req.override_payload buffer seen db in
        let rejected : Settles id db
            (committed db (reject_run now r (or_end req.resume_data) seen db)) =
          subst
            (λ k. Settles k db (committed db (reject_run now r (or_end req.resume_data) seen db)))
            same (reject_run-Settles now r (or_end req.resume_data) seen db) in
        elim (Result-cases resumed) [
          | inr (x, raised) ↦ ground (arith, found_run, raised, rejected)
          | inl (db', done) ↦ ground (
            arith,
            found_run,
            done,
            rejected,
            resume_run-Settles now id req.resume_data req.override_payload buffer seen db db' done,
          )
        ]
  ]
]

handle_webhook_callback-Settles :
    (now : ℕ) (id : String) (req : CallbackRequest) (seen db : Db) (r : Run)
    → find_by_callback_id id seen.runs ≡ some r
    → Settles r.id db (committed db (handle_webhook_callback now id req seen db))
unfolding handle_webhook_callback
handle_webhook_callback-Settles now id req seen db r found_run =
    elim (Bool-cases (is_suspended_in r.id db)) [
      | inr late ↦ inl (ground (arith, found_run, late))
      | inl e ↦ ground (
        arith,
        found_run,
        e,
        failed-Settles now r.id (rejection_error id) none db.runs,
        queued-Settles now r.id end (some (resolved_error id r.error)) db.runs,
      )
    ]

pub attempt-Settles :
    (j : String) (a : Attempt) (db : Db) → IsAbout j a → Settles j db (attempt a db)
unfolding attempt
attempt-Settles j (sweep now seen) db about =
    subst (λ k. Settles k db (fail_one now seen db)) about (fail_one-Settles now seen db)
attempt-Settles j (resume now u id req seen) db about =
    subst (λ k. Settles k db (committed db (resume_endpoint now u id req seen db))) about
      (resume_endpoint-Settles now u id req seen db)
attempt-Settles j (callback now id req seen) db about =
    elim (Option-cases (find_by_callback_id id seen.runs)) [
      | inl none_seen ↦ inl (unfold handle_webhook_callback in ground (arith, none_seen))
      | inr (r, found_run) ↦
          subst (λ k. Settles k db (committed db (handle_webhook_callback now id req seen db)))
            (about r found_run) (handle_webhook_callback-Settles now id req seen db r found_run)
    ]
