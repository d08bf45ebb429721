-- ===== src/Runs/Claims.antt =====
-- The race for a suspended run: the sweeper of backend/saz/engine/suspension_sweeper.py, the resume
-- endpoint and the callback handler of backend/saz/api/routes/webhooks.py, each with reads that may
-- be out of date by the time of its guarded update.
pub mod Late
pub mod Settling
pub mod Race
use saz.Prelude.{
  ℕ, String, ◌≡◌, refl, sym, ap, ◌∙◌, ◌⊎◌, inl, inr, Bool, true, false, Option, none, some, List,
  [], ◌∷◌, arith, Option-cases, Bool-cases, Result-cases, Result, ok, err, ◌==◌, string_eq,
  text_refl, eq_iff, if◌then◌else◌, ◌>>=◌, ◌>>◌, guard,
}
use mathlib.Core.Option
use mathlib.Core.Path.{subst}
use mathlib.Core.List.{Memᴰ}
use saz.Prelude.Json.{Fields, end, or_end}
use saz.Prelude.Table.{get, modify, get-modify, get-key}
use saz.Runs.{Run, RunStatus, User, Event, Db, run_entity, is_suspended}
use saz.Runs.RunRepository.{
  find_by_callback_id, mark_failed_if_suspended, mark_queued_if_suspended, update_if_suspended,
}
use saz.Runs.Service.{Error, override, resume_run, suspended_step}
use saz.Runs.Sweeper.{fail_one, timeout_error}
use saz.Runs.Webhooks.{
  ResumeRequest, CallbackRequest, Status, resumed_events, rejected_error, rejection_error,
  resolved_error, text_or, resume_endpoint, handle_webhook_callback, reject_run, reject_callback,
  approve_callback,
}

-- Each attempt carries what it read before.
pub data Attempt : Type 0 where
  sweep : ℕ → Run → Attempt
  resume : ℕ → User → String → ResumeRequest → Db → Attempt
  callback : ℕ → String → CallbackRequest → Db → Attempt

-- A handler that raises is rolled back.
abbrev pub committed : Db → Result Error (Db × Status) → Db
committed db (ok (db', s)) = db'
committed db (err e) = db

unfoldable pub attempt : Attempt → Db → Db
attempt (sweep now seen) db = fail_one now seen db
attempt (resume now u id req seen) db = committed db (resume_endpoint now u id req seen db)
attempt (callback now id req seen) db = committed db (handle_webhook_callback now id req seen db)

unfoldable pub attempt_all : List Attempt → Db → Db
attempt_all [] db = db
attempt_all (a ∷ rest) db = attempt_all rest (attempt a db)

-- The run that an attempt is about. A callback id that no run was seen with is about none.
abbrev pub IsAbout : String → Attempt → Type 0
IsAbout j (sweep now seen) = seen.id ≡ j
IsAbout j (resume now u id req seen) = id ≡ j
IsAbout j (callback now id req seen) =
    (r : Run) → find_by_callback_id id seen.runs ≡ some r → r.id ≡ j

abbrev pub AllAbout : String → List Attempt → Type 0
AllAbout j [] = Unit
AllAbout j (a ∷ rest) = IsAbout j a × AllAbout j rest

abbrev pub is_suspended_found : Option Run → Bool
is_suspended_found none = false
is_suspended_found (some r) = is_suspended r.status

abbrev pub is_suspended_row : String → List Run → Bool
is_suspended_row j rows = is_suspended_found (get j rows)

abbrev pub is_suspended_in : String → Db → Bool
is_suspended_in j db = is_suspended_row j db.runs
