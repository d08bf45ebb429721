-- ===== src/Engine/Settled/Execution.antt =====
-- How the execution of a run ends in `execute_run` of backend/saz/engine/executor.py.
use saz.Prelude.{
  ℕ, suc, String, ◌≡◌, refl, ap, Bool, true, false, Option, none, some, List, [], ◌∷◌, string_eq,
  nat_eq, Result, ok, err, All, inl, inr, Bool-cases,
}
use saz.Prelude.Json.{Fields, end, field}
use saz.Prelude.Table.{get}
use saz.Prelude.Floats.{Floats}
use saz.Runs.{Run, run_entity, step_entity}
use saz.Engine.{PlanStep, Failure, Context, State, Env}
use saz.Engine.Effects.{emit}
use saz.Engine.Executor.{
  run_step, run_steps, execute_run, start_run, planning_exceeded, planned_run, flow_run, found_run,
}
use saz.Engine.Settled.{any_running}
use saz.Engine.Settled.Steps.{Idle, Ended, NeverSuspends, fail_run-Ended, complete_run-Ended}
use saz.Engine.Settled.{is_settled_found}
use saz.Engine.Settled.Rounds.{Round, IsAttempted, run_step-Round}

-- The planner gives every step an attempt.
abbrev pub PlansAttempts : (F : Floats) → Env F → Type 0
PlansAttempts F env =
    (w : Fields) (c : Context) (plan : List PlanStep)
    → env.plan w c ≡ ok plan
    → All IsAttempted plan

module _ (F : Floats) (env : Env F) where
  loop-Ended :
      (run_id : String) (b : Bool) (s rest : State F)
      → (Idle s → Ended run_id rest)
      → Round run_id s b
      → Ended run_id (elim b [ true ↦ rest | false ↦ s ])
  loop-Ended run_id true s rest ih h = ih h
  loop-Ended run_id false s rest ih h = h

  run_steps-Ended :
      (run_id : String) (number : ℕ) (plan : List PlanStep) (s : State F)
      → NeverSuspends F env
      → All IsAttempted plan
      → Idle s
      → Ended run_id (run_steps F env run_id number plan s)
  unfolding run_steps
  run_steps-Ended run_id number [] s never more h = complete_run-Ended F env run_id s h
  run_steps-Ended run_id number (p ∷ plan) s never more h =
      let x = run_step F env run_id number p s in
      loop-Ended run_id x.1 x.0 (run_steps F env run_id (suc number) plan x.0)
        (λ h'. run_steps-Ended run_id (suc number) plan x.0 never more.1 h')
        (run_step-Round F env run_id number p s never more.0 h)

  planned_run-Ended :
      (run_id : String) (w : Fields) (r : Result Failure (List PlanStep)) (s : State F)
      → NeverSuspends F env
      → ((plan : List PlanStep) → r ≡ ok plan → All IsAttempted plan)
      → Idle s
      → Ended run_id (planned_run F env run_id r s)
  unfolding planned_run
  planned_run-Ended run_id w (err e) s never more h = fail_run-Ended F env run_id _ s h
  planned_run-Ended run_id w (ok plan) s never more h =
      run_steps-Ended run_id 0 plan (emit F env run_id "plan.generated" none s) never
        (more plan refl) h

  flow_run-Ended :
      (run_id : String) (f : Option Fields) (run : Run) (s : State F)
      → NeverSuspends F env
      → PlansAttempts F env
      → Idle s
      → Ended run_id (flow_run F env run_id f run s)
  unfolding flow_run
  flow_run-Ended run_id none run s never more h = fail_run-Ended F env run_id _ s h
  flow_run-Ended run_id (some end) run s never more h =
      complete_run-Ended F env run_id (start_run F env run_id run s) h
  flow_run-Ended run_id (some (field k v fs)) run s never more h =
      let s1 = start_run F env run_id run s in
      elim (Bool-cases (planning_exceeded F env run_id (field k v fs) s1)) [
        | inl e ↦
            rw e (
              fail_run-Ended F env run_id _ (emit F env run_id "policy.budget_exhausted" none s1) h)
        | inr e ↦ rw e (
            planned_run-Ended run_id (field k v fs) (env.plan (field k v fs) s1.context) s1 never
              (more (field k v fs) s1.context) h)
      ]

  found_run-Ended :
      (run_id : String) (o : Option Run) (s : State F)
      → get run_id s.db.runs ≡ o
      → NeverSuspends F env
      → PlansAttempts F env
      → Idle s
      → Ended run_id (found_run F env run_id o s)
  unfolding found_run
  found_run-Ended run_id none s e never more h = (h, ap is_settled_found e)
  found_run-Ended run_id (some run) s e never more h =
      flow_run-Ended run_id (env.flow run.flow_id) run s never more h

-- When the execution of a run returns, whatever its steps answered or raised: no row of a step is
-- left running, and the run, if there is one, is completed, failed or suspended. It needs that no
-- row was running before, that the planner gives every step an attempt, and that only the gates
-- suspend.
pub execute_run_settles :
    (F : Floats) (env : Env F) (run_id : String) (s : State F)
    → NeverSuspends F env
    → PlansAttempts F env
    → any_running s.db.steps ≡ false
    → (any_running (execute_run F env run_id s).db.steps ≡ false)
      × (is_settled_found (get run_id (execute_run F env run_id s).db.runs) ≡ true)
unfolding execute_run
execute_run_settles F env run_id s never more h =
    found_run-Ended F env run_id (get run_id s.db.runs) s refl never more h
