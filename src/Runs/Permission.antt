-- ===== src/Runs/Permission.antt =====
-- Who may resume or reject a run through the authenticated route of
-- backend/saz/api/routes/webhooks.py.
use saz.Prelude.{
  ℕ, String, ◌≡◌, Bool, true, not, ◌&&◌, ◌||◌, some, ◌==◌, string_eq, arith, Option-cases, inl, inr,
  ok,
}
use saz.Prelude.Table.{get}
use saz.Runs.{Run, User, Db, run_entity, is_suspended}
use saz.Runs.Webhooks.{
  ResumeRequest, Status, is_admin, is_viewer, approvers, is_given, is_named, authorize_resume,
  resume_endpoint,
}

-- An admin may. Where the run names approvers, they may, and nobody else; otherwise its owner may,
-- unless demoted to a viewer.
abbrev pub may_resume : User → Run → Bool
may_resume u run =
    is_admin u.role
    || (is_given (approvers run.error) && is_named u (approvers run.error))
    || (not (is_given (approvers run.error))
        && not (is_viewer u.role)
        && run.created_by_user_id == u.id)

-- The route's authorization lets through exactly the users who may resume the run.
pub authorize_resume-may_resume :
    (u : User) (run : Run)
    → (authorize_resume u run ≡ ok tt → may_resume u run ≡ true)
      × (may_resume u run ≡ true → authorize_resume u run ≡ ok tt)
unfolding authorize_resume
authorize_resume-may_resume u run = (ground arith, ground arith)

-- If the endpoint answers without an error, by a resume or a rejection, then the run that it saw was
-- suspended and the user may resume it.
pub resume_needs_permission :
    (now : ℕ) (u : User) (id : String) (req : ResumeRequest) (seen db db' : Db) (answer : Status)
    → resume_endpoint now u id req seen db ≡ ok (db', answer)
    → (run : Run) × (get id seen.runs ≡ some run)
      × (is_suspended run.status ≡ true)
      × (may_resume u run ≡ true)
unfolding resume_endpoint authorize_resume
resume_needs_permission now u id req seen db db' answer h = elim (Option-cases (get id seen.runs)) [
  | inl none_seen ↦ absurd (ground (arith, none_seen))
  | inr (run, seen_run) ↦ (run, seen_run, ground (arith, seen_run), ground (arith, seen_run))
]
