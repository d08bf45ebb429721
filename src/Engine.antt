-- ===== src/Engine.antt =====
-- The data of backend/saz/engine/executor.py: the plan's steps of backend/saz/agents/schemas.py, the
-- exceptions that end a step, the context of a run's execution, and what the executor reaches
-- outside itself.
pub mod Effects
pub mod Gates
pub mod Attempts
pub mod Restore
pub mod Executor
pub mod ToolCall
pub mod Templates
pub mod Scheduler
pub mod Expressions
pub mod Guards
pub mod Settled
pub mod Log
mod Tests
use saz.Prelude.{ℕ, String, Bool, Option, List, Map, Result}
use saz.Prelude.Int.{ℤ}
use saz.Prelude.Json.{Value, Fields}
use saz.Prelude.Floats.{Floats}
use saz.Policy.Budget.{BudgetTracker}
use saz.Runs.{Db}

pub data ErrorHandling : Type 0 where
  retry fail escalate continue_on_fail : ErrorHandling

pub record PlanStep : Type 0 where
  pub step_id : String
  pub step_type : String
  pub guard : Option String
  pub input_template : Fields
  pub error_handling : ErrorHandling
  pub max_retries : ℤ
  pub reasoning : String

-- The exceptions that `execute_run` tells apart. `structural` and `other` carry the name of the
-- exception's type, `critique_failure` the critique's reasoning, and `escalation_required` whether
-- the step was stopped before its execution.
pub data Failure : Type 0 where
  policy_violation replan_required run_suspended : Failure
  structural other critique_failure : String → Failure
  escalation_required : Bool → Failure

pub record Context : Type 0 where
  pub payload : Fields
  pub step_results : Map Value
  pub completed_steps : List String
  pub escalation_approvals : List String
  pub current_step : Option String
  pub last_critique_feedback : Option String

-- A performed action: the step's name and the attempt, from 1.
pub record Call : Type 0 where
  pub step : String
  pub attempt : ℕ

-- `supply` counts the readings of the clock and the fresh ids.
pub record State (F : Floats) : Type 0 where
  pub db : Db
  pub context : Context
  pub tracker : BudgetTracker F
  pub calls : List Call
  pub supply : ℕ

-- The clock, the ids, the redaction of secrets, Python's conversions to and from a float, the sum of
-- an instant and a `timedelta`, the `workflow` of a stored flow, the planner, the guards, and the actions of the steps that are not gates. An action may answer anything, and
-- differently each time: it sees the log of all earlier calls.
pub record Env (F : Floats) : Type 0 where
  pub now : ℕ → ℕ
  pub uuid : ℕ → String
  pub redact : Value → Value
  pub redact_error : Fields → Fields
  pub to_float : Value → Option F.Float
  pub of_float : F.Float → Value
  pub plus_minutes : ℕ → F.Float → ℕ
  pub flow : String → Option Fields
  pub plan : Fields → Context → Result Failure (List PlanStep)
  pub evaluate_guard : PlanStep → Context → Result Failure Bool
  pub perform :
      List Call → PlanStep → ℕ → Context → BudgetTracker F → BudgetTracker F × Result Failure Value
