-- ===== src/Runs/StepRepository.antt =====
-- backend/saz/repositories/write/step_repository.py over the rows of the table. Where an ordering
-- leaves two rows equal, the earlier row is taken.
use saz.Prelude.{
  ℕ, String, Bool, ◌&&◌, ◌||◌, Option, none, some, List, [], ◌∷◌, ◌++◌, keep, ltb, ◌==◌, string_eq,
  nat_eq, if◌then◌else◌,
}
use Prim.Native.Nat.{max}
use saz.Prelude.Json.{Fields}
use saz.Prelude.Table.{modify}
use saz.Runs.{Step, StepStatus, step_entity, is_suspended_step, is_failed_step}

unfoldable pub append : Step → List Step → List Step
append s rows = rows ++ s ∷ []

unfoldable pub mark_completed : ℕ → String → List Step → List Step
mark_completed now id = modify id λ s. record s { status = StepStatus.completed; end_ts = some now }

unfoldable pub mark_failed : ℕ → String → Fields → List Step → List Step
mark_failed now id error =
    modify id λ s. record s { status = StepStatus.failed; error = some error; end_ts = some now }

unfoldable pub mark_suspended : String → List Step → List Step
mark_suspended id = modify id λ s. record s { status = StepStatus.suspended }

-- `ORDER BY ... LIMIT 1`: the first row that no other comes before.
abbrev pub least : (Step → Step → Bool) → List Step → Option Step
least before [] = none
least before (s ∷ rows) = elim (least before rows) [
  | none ↦ some s
  | some t ↦ if before t s then some t else some s
]

-- `number ASC, attempt DESC`
abbrev pub earlier : Step → Step → Bool
earlier s t = ltb s.number t.number || (s.number == t.number && ltb t.attempt s.attempt)

unfoldable pub get_first_suspended_for_run : String → List Step → Option Step
get_first_suspended_for_run run_id rows =
    least earlier (keep (λ s. s.run_id == run_id && is_suspended_step s.status) rows)

-- The highest attempt of a step's name in a run; 0 if there is none.
unfoldable pub get_max_attempt : String → String → List Step → ℕ
get_max_attempt run_id name [] = 0
get_max_attempt run_id name (s ∷ rows) =
    let rest = get_max_attempt run_id name rows in
    if s.run_id == run_id && s.name == name then max s.attempt rest else rest

-- The join with the greatest attempt of each name.
abbrev pub is_latest : String → List Step → Step → Bool
is_latest run_id rows s = s.run_id == run_id && s.attempt == get_max_attempt run_id s.name rows

unfoldable pub get_first_failed_for_run : String → List Step → Option Step
get_first_failed_for_run run_id rows =
    least (λ s t. ltb s.number t.number)
      (keep (λ s. is_latest run_id rows s && is_failed_step s.status) rows)

-- `max(s.attempt)` rows by number.
unfoldable pub get_by_name : String → String → List Step → Option Step
get_by_name run_id name rows =
    least (λ s t. ltb t.attempt s.attempt) (keep (λ s. s.run_id == run_id && s.name == name) rows)
