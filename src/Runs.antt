-- ===== src/Runs.antt =====
-- The rows of backend/saz/db/models.py that a run's life goes through, with the status values of
-- backend/saz/domain/literals.py. Left out: derived durations, costs, names of files and the
-- columns that no modelled code reads. A clock reading is a number of microseconds. The `message`
-- that an f-string makes for an error is left out of the error; nothing reads it back.
pub mod RunRepository
pub mod StepRepository
pub mod Service
pub mod Sweeper
pub mod Webhooks
pub mod Claims
pub mod Permission
pub mod Timeouts
mod Tests
use saz.Prelude.{ℕ, String, Bool, true, false, Option, none, some, List}
use saz.Prelude.Json.{Value, Fields}
use saz.Prelude.Table.{Entity}

pub data RunStatus : Type 0 where
  queued running suspended failed completed : RunStatus

pub data StepStatus : Type 0 where
  queued running suspended failed completed skipped : StepStatus

pub data Role : Type 0 where
  admin operator viewer : Role

pub record Run : Type 0 where
  pub id : String
  pub flow_id : String
  pub status : RunStatus
  pub payload : Fields
  pub error : Option Fields
  pub started_at : Option ℕ
  pub completed_at : Option ℕ
  pub created_by_user_id : String

pub record Step : Type 0 where
  pub id : String
  pub run_id : String
  pub number : ℕ
  pub name : String
  pub step_type : String
  pub status : StepStatus
  pub attempt : ℕ
  pub retry_count : ℕ
  pub output : Option Value
  pub error : Option Fields
  pub start_ts : Option ℕ
  pub end_ts : Option ℕ

-- An audit event, without its text: the run, the event's type, the row of the step if any.
pub record Event : Type 0 where
  pub run_id : String
  pub event_type : String
  pub step_id : Option String

pub record User : Type 0 where
  pub id : String
  pub username : String
  pub email : String
  pub role : Role

-- What a committed transaction leaves.
pub record Db : Type 0 where
  pub runs : List Run
  pub steps : List Step
  pub events : List Event

instance abbrev pub run_entity : Entity Run
run_entity = record { key = λ r. r.id }

instance abbrev pub step_entity : Entity Step
step_entity = record { key = λ s. s.id }

abbrev pub is_suspended : RunStatus → Bool
is_suspended RunStatus.suspended = true
is_suspended _ = false

abbrev pub is_failed : RunStatus → Bool
is_failed RunStatus.failed = true
is_failed _ = false

abbrev pub is_suspended_step : StepStatus → Bool
is_suspended_step StepStatus.suspended = true
is_suspended_step _ = false

abbrev pub is_failed_step : StepStatus → Bool
is_failed_step StepStatus.failed = true
is_failed_step _ = false

abbrev pub is_completed_step : StepStatus → Bool
is_completed_step StepStatus.completed = true
is_completed_step _ = false
