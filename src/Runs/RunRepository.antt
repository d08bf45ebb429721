-- ===== src/Runs/RunRepository.antt =====
-- backend/saz/repositories/write/run_repository.py over the rows of the table.
use saz.Prelude.{
  ℕ, String, Bool, true, false, ◌&&◌, Option, none, some, List, keep, take, leb, string_eq,
  if◌then◌else◌,
}
use saz.Prelude.Json.{Value, time, Fields, end, field, lookup, is_text}
use saz.Prelude.Table.{get, modify, first}
use saz.Runs.{Run, RunStatus, run_entity, is_suspended}

-- The status, and what each writer sets with it.
unfoldable pub mark_running : ℕ → String → List Run → List Run
mark_running now id = modify id λ r. record r {
  status = RunStatus.running;
  started_at = elim r.started_at [ none ↦ some now | some t ↦ some t ];
}

unfoldable pub mark_completed : ℕ → String → List Run → List Run
mark_completed now id =
    modify id λ r. record r { status = RunStatus.completed; completed_at = some now }

unfoldable pub mark_failed : ℕ → String → Fields → List Run → List Run
mark_failed now id error =
    modify id
      λ r. record r { status = RunStatus.failed; error = some error; completed_at = some now }

-- `if error: run.error = error`
abbrev pub new_error : Option Fields → Option Fields → Option Fields
new_error none old = old
new_error (some end) old = old
new_error (some (field k v fs)) old = some (field k v fs)

unfoldable pub mark_suspended : String → Option Fields → List Run → List Run
mark_suspended id error =
    modify id λ r. record r { status = RunStatus.suspended; error = new_error error r.error }

-- `UPDATE ... WHERE id = :id AND status = 'suspended'`: `id` is the primary key, so one row at
-- most is hit. The new rows, and whether there was a hit.
abbrev pub update_if_suspended : String → (Run → Run) → List Run → List Run × Bool
update_if_suspended id f runs = elim (get id runs) [
  | none ↦ (runs, false)
  | some r ↦ if is_suspended r.status then (modify id f runs, true) else (runs, false)
]

unfoldable pub mark_failed_if_suspended : ℕ → String → Fields → List Run → List Run × Bool
mark_failed_if_suspended now id error =
    update_if_suspended id
      λ r. record r { status = RunStatus.failed; error = some error; completed_at = some now }

unfoldable pub mark_queued_if_suspended : String → Option Fields → List Run → List Run × Bool
mark_queued_if_suspended id error =
    update_if_suspended id λ r. record r { status = RunStatus.queued; error = error }

abbrev pub has_text : String → String → Option Fields → Bool
has_text k s none = false
has_text k s (some fs) = is_text s (lookup k fs)

unfoldable pub find_by_callback_id : String → List Run → Option Run
find_by_callback_id callback_id = first λ r. has_text "callback_id" callback_id r.error

-- `error["timeout_at"] <= now`
abbrev pub due : ℕ → Option Value → Bool
due now (some (time t)) = leb t now
due now _ = false

abbrev pub due_error : ℕ → Option Fields → Bool
due_error now none = false
due_error now (some fs) = due now (lookup "timeout_at" fs)

unfoldable pub find_expired_suspensions : ℕ → ℕ → List Run → List Run
find_expired_suspensions now limit runs =
    take limit (keep (λ r. is_suspended r.status && due_error now r.error) runs)
