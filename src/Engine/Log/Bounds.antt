-- ===== src/Engine/Log/Bounds.antt =====
-- How often `execute_run` of backend/saz/engine/executor.py performs the action of a step.
use saz.Prelude.{
  ℕ, suc, ◌+◌, ◌≤◌, String, ◌≡◌, refl, sym, Bool, true, false, none, some, List, [], ◌∷◌, ◌==◌,
  string_eq, Result, ok, err, contains, if◌then◌else◌, arith, eq_iff, inl, inr, Bool-cases,
}
use saz.Prelude.Json.{Value, Fields, field}
use saz.Prelude.Table.{get}
use saz.Prelude.Floats.{Floats}
use saz.Runs.{Run, run_entity}
use saz.Engine.{PlanStep, Failure, State, Env}
use saz.Engine.Effects.{emit, fail_run, complete_run}
use saz.Engine.Attempts.{max_attempts}
use saz.Engine.Executor.{
  run_step, run_steps, planned_run, flow_run, found_run, execute_run, start_run, planning_exceeded,
}
use saz.Engine.Log.{count, share}
use saz.Engine.Log.Completed.{Adds-run_step, allowance}

-- The attempts that a plan has for the steps of a name.
abbrev pub planned_attempts : String → List PlanStep → ℕ
planned_attempts name [] = 0
planned_attempts name (p ∷ plan) =
    share name p (max_attempts p.max_retries) + planned_attempts name plan

-- A name that is completed already has none.
abbrev pub open_attempts : String → List PlanStep → List String → ℕ
open_attempts name plan done = if contains name done then 0 else planned_attempts name plan

module _ (F : Floats) (env : Env F) (name : String) where
  allowance-le :
      (p : PlanStep) (s : State F)
      → allowance F env name p s ≤ share name p (max_attempts p.max_retries)
  allowance-le p s = ground arith

  allowance_completed :
      (p : PlanStep) (s : State F)
      → contains name s.context.completed_steps ≡ true
      → allowance F env name p s ≡ 0
  allowance_completed p s h = elim (Bool-cases (p.step_id == name)) [
    | inl e ↦ rw ((eq_iff p.step_id name).0 e, h) refl
    | inr e ↦ ground (arith, e)
  ]

  loop-count :
      (n : ℕ) (b : Bool) (s rest : State F)
      → count name s.calls ≤ n
      → count name rest.calls ≤ n
      → count name (elim b as (λ x. State F) [ true ↦ rest | false ↦ s ]).calls ≤ n
  loop-count n true s rest h k = k
  loop-count n false s rest h k = h

  run_steps_bound :
      (run_id : String) (number : ℕ) (plan : List PlanStep) (s : State F)
      → count name (run_steps F env run_id number plan s).calls
        ≤ count name s.calls + planned_attempts name plan
  unfolding run_steps complete_run
  run_steps_bound run_id number [] s = omega arith
  run_steps_bound run_id number (p ∷ plan) s =
      let x = run_step F env run_id number p s in
      let first = (Adds-run_step F env name run_id number p s).0 in
      let within = allowance-le p s in
      loop-count _ x.1 x.0 (run_steps F env run_id (suc number) plan x.0)
        (omega (arith, first, within))
        (omega (arith, first, within, run_steps_bound run_id (suc number) plan x.0))

  run_steps_completed :
      (run_id : String) (number : ℕ) (plan : List PlanStep) (s : State F)
      → contains name s.context.completed_steps ≡ true
      → count name (run_steps F env run_id number plan s).calls ≤ count name s.calls
  unfolding run_steps complete_run
  run_steps_completed run_id number [] s h = omega arith
  run_steps_completed run_id number (p ∷ plan) s h =
      let x = run_step F env run_id number p s in
      let adds = Adds-run_step F env name run_id number p s in
      let none_more = allowance_completed p s h in
      loop-count _ x.1 x.0 (run_steps F env run_id (suc number) plan x.0)
        (omega (arith, adds.0, none_more))
        (omega
          (arith, adds.0, none_more, run_steps_completed run_id (suc number) plan x.0 (adds.1 h)))

  run_steps_open :
      (run_id : String) (number : ℕ) (plan : List PlanStep) (s : State F)
      → count name (run_steps F env run_id number plan s).calls
        ≤ count name s.calls + open_attempts name plan s.context.completed_steps
  run_steps_open run_id number plan s =
      elim (Bool-cases (contains name s.context.completed_steps)) [
        | inl h ↦ rw h (omega (arith, run_steps_completed run_id number plan s h))
        | inr h ↦ rw h (run_steps_bound run_id number plan s)
      ]

  planned_run_open :
      (run_id : String) (r : Result Failure (List PlanStep)) (plan : List PlanStep) (s : State F)
      → r ≡ ok plan
      → count name (planned_run F env run_id r s).calls
        ≤ count name s.calls + open_attempts name plan s.context.completed_steps
  unfolding planned_run fail_run
  planned_run_open run_id (err e) plan s h = omega arith
  planned_run_open run_id (ok q) plan s h =
      let same : q ≡ plan = cc in
      rw (sym same) (run_steps_open run_id 0 q (emit F env run_id "plan.generated" none s))

-- When a run with a workflow is executed on the plan that the planner answers, the actions of the
-- steps of a name, gates aside, are performed no more often than the plan has attempts for the
-- name, `max_retries + 1` for each of its steps; and not at all if the rows of earlier executions
-- restore the name as completed.
pub calls_bounded :
    (F : Floats) (env : Env F) (name run_id : String) (run : Run) (k : String) (v : Value)
    (fs : Fields) (plan : List PlanStep) (s : State F)
    → get run_id s.db.runs ≡ some run
    → env.flow run.flow_id ≡ some (field k v fs)
    → env.plan (field k v fs) (start_run F env run_id run s).context ≡ ok plan
    → count name (execute_run F env run_id s).calls
      ≤ count name s.calls
        + open_attempts name plan (start_run F env run_id run s).context.completed_steps
unfolding execute_run found_run flow_run fail_run
calls_bounded F env name run_id run k v fs plan s h w q =
    elim (Bool-cases
      (planning_exceeded F env run_id (field k v fs) (start_run F env run_id run s))) [
        | inl e ↦ rw (h, w, e) (omega arith)
        | inr e ↦
            rw (h, w, e)
              (planned_run_open F env name run_id _ plan (start_run F env run_id run s) q)
      ]
