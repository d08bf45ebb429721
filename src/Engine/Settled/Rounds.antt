-- ===== src/Engine/Settled/Rounds.antt =====
-- What a round of the loop of `execute_run` in backend/saz/engine/executor.py leaves.
use saz.Prelude.{
  ℕ, suc, String, ◌≡◌, refl, ◌∙◌, ◌≢◌, Bool, true, false, none, string_eq, nat_eq, Result, ok, err,
  contains, inl, inr, Bool-cases, Option-cases,
}
use saz.Prelude.Json.{Value, Fields}
use saz.Prelude.Floats.{Floats}
use saz.Policy.Budget.{check_budget}
use saz.Runs.{StepStatus, run_entity, step_entity}
use saz.Runs.StepRepository.{append}
use saz.Engine.{
  PlanStep, ErrorHandling, retry, fail, escalate, continue_on_fail, Failure, policy_violation,
  replan_required, run_suspended, structural, other, critique_failure, escalation_required, State,
  Env,
}
use saz.Engine.Effects.{set_current, emit}
use saz.Engine.Attempts.{execute_plan_step, max_attempts}
use saz.Engine.Executor.{
  handle_failure, handle_exception, skip_step, run_step, failed_now, fail_current, type_field,
  after_step, guarded_step, checked,
}
use saz.Engine.Settled.{any_running-append}
use saz.Engine.Settled.Steps.{
  Idle, Ended, IsCurrent, After, NeverSuspends, suspend_run-Ended, fail_run-Ended, set_current-Idle,
}
use saz.Engine.Settled.Retries.{execute_plan_step-After}

module _ {F : Floats} where
  -- After a round that goes on nothing runs; after one that stops, the run is at rest too.
  abbrev pub Round : String → State F → Bool → Type 0
  Round run_id s true = Idle s
  Round run_id s false = Ended run_id s

-- `max_retries` is not negative, so that there is an attempt.
abbrev pub IsAttempted : PlanStep → Type 0
IsAttempted p = max_attempts p.max_retries ≢ 0

module _ (F : Floats) (env : Env F) where
  handle_failure-Round :
      (run_id : String) (number : ℕ) (p : PlanStep) (t : String) (s : State F)
      → Idle s
      → Round run_id
          (handle_failure F env run_id number p t s).0
          (handle_failure F env run_id number p t s).1
  unfolding handle_failure
  handle_failure-Round run_id number p t s h = go p.error_handling refl
    where
      go :
          (w : ErrorHandling)
          → p.error_handling ≡ w
          → Round run_id
              (handle_failure F env run_id number p t s).0
              (handle_failure F env run_id number p t s).1
      go escalate e = rw e (suspend_run-Ended F env run_id _ s h)
      go continue_on_fail e = rw e h
      go fail e = rw e (fail_run-Ended F env run_id _ s h)
      go retry e = rw e (fail_run-Ended F env run_id _ s h)

  fail_current-Ended :
      (run_id id type_name : String) (e : Fields) (s : State F)
      → IsCurrent id s
      → Ended run_id (fail_current F env run_id type_name e s).0
  fail_current-Ended run_id id type_name e s h =
      let f = failed_now (env.now s.supply) (env.redact_error (type_field type_name)) in
      let s1 = record s { supply = suc s.supply } in
      fail_run-Ended F env run_id e (set_current F env f s1)
        (set_current-Idle F env id f s1 (λ t. refl) h)

  handle_exception-Round :
      (run_id id : String) (number : ℕ) (p : PlanStep) (e : Failure) (s : State F)
      → After run_id id s (err e)
      → Round run_id
          (handle_exception F env run_id number p e s).0
          (handle_exception F env run_id number p e s).1
  unfolding handle_exception
  handle_exception-Round run_id id number p policy_violation s h =
      fail_current-Ended run_id id "PolicyViolation" _ s h
  handle_exception-Round run_id id number p (structural t) s h =
      fail_current-Ended run_id id t _ s h
  handle_exception-Round run_id id number p (critique_failure r) s h =
      fail_run-Ended F env run_id _ s h
  handle_exception-Round run_id id number p replan_required s h = fail_run-Ended F env run_id _ s h
  handle_exception-Round run_id id number p (escalation_required pre) s h =
      let s1 = set_current F env (λ t. record t { status = StepStatus.suspended }) s in
      suspend_run-Ended F env run_id _ s1 (
        set_current-Idle F env id (λ t. record t { status = StepStatus.suspended }) s (λ t. refl) h)
  handle_exception-Round run_id id number p run_suspended s h = h
  handle_exception-Round run_id id number p (other t) s h =
      handle_failure-Round run_id number p t s h

  skip_step-Idle :
      (run_id : String) (number : ℕ) (p : PlanStep) (s : State F)
      → Idle s
      → Idle (skip_step F env run_id number p s)
  unfolding skip_step append
  skip_step-Idle run_id number p s h = any_running-append s.db.steps _ ∙ rw h refl

  after_step-Round :
      (run_id : String) (number : ℕ) (p : PlanStep) (id : String) (s : State F)
      (r : Result Failure Value)
      → After run_id id s r
      → Round run_id
          (after_step F env run_id number p s r).0
          (after_step F env run_id number p s r).1
  unfolding after_step
  after_step-Round run_id number p id s (ok v) h = h
  after_step-Round run_id number p id s (err e) h = handle_exception-Round run_id id number p e s h

  guarded_step-Round :
      (run_id : String) (number : ℕ) (p : PlanStep) (g : Result Failure Bool) (s : State F)
      → NeverSuspends F env
      → IsAttempted p
      → Idle s
      → Round run_id
          (guarded_step F env run_id number p g s).0
          (guarded_step F env run_id number p g s).1
  unfolding guarded_step
  guarded_step-Round run_id number p (err e) s never more h = fail_run-Ended F env run_id _ s h
  guarded_step-Round run_id number p (ok false) s never more h = skip_step-Idle run_id number p s h
  guarded_step-Round run_id number p (ok true) s never more h =
      let x = execute_plan_step F env run_id number p s in
      after_step-Round run_id number p (env.uuid s.supply) x.0 x.1
        (execute_plan_step-After F env never run_id number p s more h)

  pub run_step-Round :
      (run_id : String) (number : ℕ) (p : PlanStep) (s : State F)
      → NeverSuspends F env
      → IsAttempted p
      → Idle s
      → Round run_id (run_step F env run_id number p s).0 (run_step F env run_id number p s).1
  unfolding run_step
  run_step-Round run_id number p s never more h =
      elim (Bool-cases (contains p.step_id s.context.completed_steps)) [
        | inl e ↦ rw e h
        | inr e ↦ elim (Option-cases (check_budget F (env.now s.supply) run_id s.tracker).1) [
          | inl w ↦
              rw (e, w) (guarded_step-Round run_id number p _ (checked F env run_id s) never more h)
          | inr (why, w) ↦
              rw (e, w)
                (fail_run-Ended F env run_id _
                  (emit F env run_id "policy.budget_exhausted" none (checked F env run_id s)) h)
        ]
      ]
