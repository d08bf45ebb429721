-- ===== src/Engine/Restore.antt =====
-- The context that `WorkflowExecutor.execute_run` of backend/saz/engine/executor.py restores from the
-- rows of the steps that a run has already been through. The seeding of the budget with the usage
-- of those rows is left out: their usage columns are not modelled.
pub mod Latest
use saz.Prelude.{
  String, Bool, false, ◌&&◌, Option, none, some, List, [], ◌∷◌, ◌++◌, insert, empty, ltb, ◌==◌,
  string_eq, nat_eq, if◌then◌else◌,
}
use saz.Prelude.Json.{Value, obj, Fields, truthy, truthy_at}
use saz.Runs.{Step, run_entity, step_entity, is_completed_step, is_failed_step}
use saz.Engine.{Context}

-- `latest_by_name[step.name] = step`, in the order of the names' first rows
abbrev pub put_latest : Step → List Step → List Step
put_latest s [] = s ∷ []
put_latest s (t ∷ ts) =
    let rest = put_latest s ts in
    if t.name == s.name then (if ltb t.attempt s.attempt then s else t) ∷ ts else t ∷ rest

unfoldable pub latest_by_name : List Step → List Step → List Step
latest_by_name acc [] = acc
latest_by_name acc (s ∷ rows) = latest_by_name (put_latest s acc) rows

abbrev pub output_truthy : Option Value → Bool
output_truthy none = false
output_truthy (some v) = truthy v

abbrev pub is_approved_escalation : Option Value → Bool
is_approved_escalation (some (obj d)) = truthy_at "escalation_approved" d
is_approved_escalation _ = false

abbrev pub set_result : String → Value → Context → Context
set_result name v c = record c {
  step_results = insert name v c.step_results;
  completed_steps = c.completed_steps ++ name ∷ [];
}

abbrev pub is_restorable : Step → Bool
is_restorable s = is_completed_step s.status && output_truthy s.output

abbrev pub restore_step : Step → Context → Context
restore_step s c =
    if is_restorable s
    then elim s.output [ none ↦ c | some v ↦ set_result s.name v c ]
    else if is_failed_step s.status && is_approved_escalation s.output
    then record c { escalation_approvals = c.escalation_approvals ++ s.name ∷ [] }
    else c

unfoldable pub restore : List Step → Context → Context
restore [] c = c
restore (s ∷ rows) c = restore rows (restore_step s c)

abbrev pub fresh_context : Fields → Context
fresh_context payload = record {
  payload = payload;
  step_results = empty;
  completed_steps = [];
  escalation_approvals = [];
  current_step = none;
  last_critique_feedback = none;
}
