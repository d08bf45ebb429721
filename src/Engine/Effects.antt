-- ===== src/Engine/Effects.antt =====
-- The writes that the methods of backend/saz/engine/executor.py share, and the ends of a run.
use saz.Prelude.{ℕ, String, Option, none, some, List, [], ◌∷◌, ◌++◌, string_eq, nat_eq}
use saz.Prelude.Json.{Fields}
use saz.Prelude.Table.{modify}
use saz.Prelude.Floats.{Floats}
use saz.Runs.{Run, Step, StepStatus, run_entity, step_entity}
use saz.Runs.RunRepository.{mark_completed, mark_failed}
use saz.Engine.{
  PlanStep, Failure, policy_violation, replan_required, run_suspended, structural, other,
  critique_failure, escalation_required, State, Env,
}

abbrev pub failure_type : Failure → String
failure_type policy_violation = "PolicyViolation"
failure_type replan_required = "ReplanRequired"
failure_type run_suspended = "RunSuspended"
failure_type (structural t) = t
failure_type (other t) = t
failure_type (critique_failure r) = "CritiqueFailure"
failure_type (escalation_required p) = "EscalationRequired"

abbrev pub new_row : String → String → ℕ → PlanStep → StepStatus → ℕ → Option ℕ → Step
new_row id run_id number p status attempt start_ts = record {
  id = id;
  run_id = run_id;
  number = number;
  name = p.step_id;
  step_type = p.step_type;
  status = status;
  attempt = attempt;
  retry_count = 0;
  output = none;
  error = none;
  start_ts = start_ts;
  end_ts = none;
}

module _ (F : Floats) (env : Env F) where
  abbrev pub set_steps : (List Step → List Step) → State F → State F
  set_steps f s = record s { db = record (s.db) { steps = f s.db.steps } }

  abbrev pub set_runs : (List Run → List Run) → State F → State F
  set_runs f s = record s { db = record (s.db) { runs = f s.db.runs } }

  abbrev pub emit : String → String → Option String → State F → State F
  emit run_id event_type step s = record s {
    db = record (s.db) {
      events =
          s.db.events ++ record { run_id = run_id; event_type = event_type; step_id = step } ∷ [];
    };
  }

  abbrev pub set_current : (Step → Step) → State F → State F
  set_current f s = elim s.context.current_step [ none ↦ s | some id ↦ set_steps (modify id f) s ]

  unfoldable pub complete_run : String → State F → State F
  unfolding mark_completed
  complete_run run_id s =
      emit run_id "run.completed" none (set_runs (mark_completed (env.now s.supply) run_id) s)

  unfoldable pub fail_run : String → Fields → State F → State F
  unfolding mark_failed
  fail_run run_id error s =
      emit run_id "run.failed" none
        (set_runs (mark_failed (env.now s.supply) run_id (env.redact_error error)) s)
