-- ===== src/Engine/Settled/Retries.antt =====
-- What `_execute_plan_step` of backend/saz/engine/executor.py leaves of the rows.
use saz.Prelude.{
  ℕ, suc, zero, String, ◌≡◌, refl, sym, ◌≢◌, false, ◌==◌, string_eq, nat_eq, Result, ok, err, inl,
  inr, Bool-cases,
}
use mathlib.Core.Path.{subst}
use saz.Prelude.Json.{Value}
use saz.Prelude.Floats.{Floats}
use saz.Runs.{run_entity, step_entity}
use saz.Runs.StepRepository.{append}
use saz.Engine.{
  PlanStep, Failure, policy_violation, replan_required, run_suspended, structural, other,
  critique_failure, escalation_required, State, Env,
}
use saz.Engine.Attempts.{
  record_failure, next, is_deterministic, execute_step_action, retry_loop, execute_plan_step,
  set_feedback, feedback, max_attempts,
}
use saz.Engine.Settled.{any_running-modify, other_running-modify, other_running-append}
use saz.Engine.Settled.Steps.{
  Idle, IsCurrent, After, Acted, NeverSuspends, execute_step_action-Acted,
}

module _ {F : Floats} where
  After-of-last :
      (run_id id : String) (s : State F) (e : Failure)
      → is_deterministic e ≡ false
      → Idle s
      → After run_id id s (err e)
  After-of-last run_id id s replan_required d h = h
  After-of-last run_id id s (critique_failure r) d h = h
  After-of-last run_id id s (other t) d h = h
  After-of-last run_id id s run_suspended d h = cc
  After-of-last run_id id s policy_violation d h = cc
  After-of-last run_id id s (structural t) d h = cc
  After-of-last run_id id s (escalation_required p) d h = cc

module _ (F : Floats) (env : Env F) (never : NeverSuspends F env) where
  record_failure-IsCurrent :
      (run_id id : String) (left made : ℕ) (e : Failure) (s : State F)
      → IsCurrent id s
      → IsCurrent id (record_failure F env run_id id left made e s)
  record_failure-IsCurrent run_id id left made e s h =
      let kept =
        other_running-modify id (λ t. record t { retry_count = made }) s.db.steps (λ t. refl) h.0 in
      elim (Bool-cases (left == 0)) [
        | inl z ↦ rw z (other_running-modify id _ _ (λ t. refl) kept, h.1)
        | inr z ↦ rw z (kept, h.1)
      ]

  record_failure-Idle :
      (run_id id : String) (made : ℕ) (e : Failure) (s : State F)
      → IsCurrent id s
      → Idle (record_failure F env run_id id 0 made e s)
  record_failure-Idle run_id id made e s h =
      any_running-modify id _ _ (λ t. refl)
        (other_running-modify id (λ t. record t { retry_count = made }) s.db.steps (λ t. refl) h.0)

  next-After :
      (run_id : String) (p : PlanStep) (id : String) (left made : ℕ) (s : State F)
      (r : Result Failure Value)
      → Acted run_id id s r
      → ((e : Failure)
          → is_deterministic e ≡ false
          → IsCurrent id s
          → After run_id id
              (retry_loop F env run_id p id left
                (suc made)
                e
                (record_failure F env run_id id left made e s)).0
              (retry_loop F env run_id p id left
                (suc made)
                e
                (record_failure F env run_id id left made e s)).1)
      → After run_id id
          (next F env run_id p id left made s r).0
          (next F env run_id p id left made s r).1
  next-After run_id p id left made s (ok v) acted ih =
      any_running-modify id _ s.db.steps (λ t. refl) acted.0
  next-After run_id p id left made s (err run_suspended) acted ih = acted
  next-After run_id p id left made s (err policy_violation) acted ih = acted
  next-After run_id p id left made s (err (structural t)) acted ih = acted
  next-After run_id p id left made s (err (escalation_required b)) acted ih = acted
  next-After run_id p id left made s (err replan_required) acted ih = ih replan_required refl acted
  next-After run_id p id left made s (err (critique_failure c)) acted ih =
      ih (critique_failure c) refl acted
  next-After run_id p id left made s (err (other t)) acted ih = ih (other t) refl acted

  retry_loop-After :
      (run_id : String) (p : PlanStep) (id : String) (left made : ℕ) (last : Failure) (s : State F)
      → is_deterministic last ≡ false
      → (left ≡ 0 → Idle s)
      → IsCurrent id s
      → After run_id id
          (retry_loop F env run_id p id left made last s).0
          (retry_loop F env run_id p id left made last s).1
  unfolding retry_loop
  retry_loop-After run_id p id zero made last s d idle h =
      After-of-last run_id id s last d (idle refl)
  retry_loop-After run_id p id (suc left) made last s d idle h =
      let s0 = set_feedback F env (feedback last) s in
      let x = execute_step_action F env run_id p (suc made) s0 in
      next-After run_id p id left made x.0 x.1
        (execute_step_action-Acted F env run_id id p (suc made) s0 never h)
        (λ e d' h'.
          retry_loop-After run_id p id left (suc made) e
            (record_failure F env run_id id left made e x.0) d'
            (λ z.
              subst (λ n. Idle (record_failure F env run_id id n made e x.0)) (sym z)
                (record_failure-Idle run_id id made e x.0 h'))
            (record_failure-IsCurrent run_id id left made e x.0 h'))

  -- A step that may be attempted leaves nothing running, or its own row to be marked.
  pub execute_plan_step-After :
      (run_id : String) (number : ℕ) (p : PlanStep) (s : State F)
      → max_attempts p.max_retries ≢ 0
      → Idle s
      → After run_id
          (env.uuid s.supply)
          (execute_plan_step F env run_id number p s).0
          (execute_plan_step F env run_id number p s).1
  unfolding execute_plan_step append
  execute_plan_step-After run_id number p s more h =
      retry_loop-After run_id p (env.uuid s.supply) _ 0 _ _ refl (λ z. absurd (more z))
        (other_running-append (env.uuid s.supply) s.db.steps _ h refl, refl)
