-- ===== src/Engine/Log/Completed.antt =====
-- The completed steps of a context of backend/saz/engine/executor.py: an attempt at a step leaves
-- them as they are, and a round keeps them.
use saz.Prelude.{
  ℕ, suc, zero, ◌+◌, ◌≤◌, String, ◌≡◌, refl, ap, ◌∙◌, Bool, true, false, List, ◌==◌, string_eq,
  nat_eq, if◌then◌else◌, Result, ok, err, contains, contains-append, arith, inl, inr, Bool-cases,
  Option-cases,
}
use saz.Prelude.Json.{Value}
use saz.Prelude.Floats.{Floats}
use saz.Policy.Budget.{check_budget}
use saz.Runs.{Step, StepStatus}
use saz.Engine.{
  PlanStep, ErrorHandling, retry, fail, escalate, continue_on_fail, Failure, State, Env,
  policy_violation, replan_required, run_suspended, structural, other, critique_failure,
  escalation_required,
}
use saz.Engine.Effects.{set_current, emit, fail_run}
use saz.Engine.Gates.{suspend_run, suspended_step, execute_human_approval, execute_webhook_wait}
use saz.Engine.Attempts.{
  execute_step_action, retry_loop, execute_plan_step, set_feedback, feedback, max_attempts,
  record_failure, next,
}
use saz.Engine.Executor.{
  handle_failure, handle_exception, skip_step, run_step, after_step, guarded_step, checked,
  failed_now, type_field,
}
use saz.Engine.Log.{count, share, calls-set_current, context-set_current, count-retry_loop}

module _ (F : Floats) (env : Env F) where
  completed-execute_step_action :
      (run_id : String) (p : PlanStep) (k : ℕ) (s : State F)
      → (execute_step_action F env run_id p k s).0.context ≡ s.context
  unfolding execute_step_action execute_human_approval execute_webhook_wait suspend_run
  completed-execute_step_action run_id p k s = elim (Bool-cases (p.step_type == "human.approval")) [
    | inl e ↦ rw e (
        context-set_current F env suspended_step
          (emit F env run_id "approval.requested" s.context.current_step s))
    | inr e ↦ elim (Bool-cases (p.step_type == "webhook.wait")) [
      | inl w ↦ rw (e, w) (context-set_current F env suspended_step s)
      | inr w ↦ rw (e, w) refl
    ]
  ]

  context-record_failure :
      (run_id id : String) (left made : ℕ) (e : Failure) (s : State F)
      → (record_failure F env run_id id left made e s).context ≡ s.context
  context-record_failure run_id id left made e s = elim (Bool-cases (left == 0)) [
    | inl z ↦ rw z refl
    | inr z ↦ rw z refl
  ]

  completed-next :
      (run_id : String) (p : PlanStep) (id : String) (left made : ℕ) (done : List String)
      (s : State F) (r : Result Failure Value)
      → s.context.completed_steps ≡ done
      → ((e : Failure)
          → (retry_loop F env run_id p id left
              (suc made)
              e
              (record_failure F env run_id id left made e s)).0.context.completed_steps
            ≡ done)
      → (next F env run_id p id left made s r).0.context.completed_steps ≡ done
  completed-next run_id p id left made done s (ok v) h ih = h
  completed-next run_id p id left made done s (err run_suspended) h ih = h
  completed-next run_id p id left made done s (err policy_violation) h ih = h
  completed-next run_id p id left made done s (err (structural t)) h ih = h
  completed-next run_id p id left made done s (err (escalation_required b)) h ih = h
  completed-next run_id p id left made done s (err replan_required) h ih = ih replan_required
  completed-next run_id p id left made done s (err (critique_failure c)) h ih =
      ih (critique_failure c)
  completed-next run_id p id left made done s (err (other t)) h ih = ih (other t)

  completed-retry_loop :
      (run_id : String) (p : PlanStep) (id : String) (left made : ℕ) (last : Failure) (s : State F)
      → (retry_loop F env run_id p id left made last s).0.context.completed_steps
        ≡ s.context.completed_steps
  unfolding retry_loop
  completed-retry_loop run_id p id zero made last s = refl
  completed-retry_loop run_id p id (suc left) made last s =
      let s0 = set_feedback F env (feedback last) s in
      let x = execute_step_action F env run_id p (suc made) s0 in
      let same =
        ap (λ c. c.completed_steps) (completed-execute_step_action run_id p (suc made) s0) in
      completed-next run_id p id left made s.context.completed_steps x.0 x.1 same (λ e.
        completed-retry_loop run_id p id left (suc made) e
          (record_failure F env run_id id left made e x.0)
        ∙ ap (λ c. c.completed_steps) (context-record_failure run_id id left made e x.0)
        ∙ same)

module _ {F : Floats} where
  -- What happens between two states adds at most `n` calls of a name and forgets no completed step.
  abbrev pub Adds : String → ℕ → State F → State F → Type 0
  Adds name n s s' =
      (count name s'.calls ≤ count name s.calls + n)
      × (contains name s.context.completed_steps ≡ true
          → contains name s'.context.completed_steps ≡ true)

module _ (F : Floats) (env : Env F) (name : String) where
  Adds-set_current : (f : Step → Step) (s : State F) → Adds name 0 s (set_current F env f s)
  Adds-set_current f s =
      rw (calls-set_current F env f s, context-set_current F env f s) (omega arith, λ h. h)

  Adds-handle_failure :
      (run_id : String) (number : ℕ) (p : PlanStep) (t : String) (s : State F)
      → Adds name 0 s (handle_failure F env run_id number p t s).0
  unfolding handle_failure suspend_run fail_run
  Adds-handle_failure run_id number p t s = go p.error_handling refl
    where
      go :
          (w : ErrorHandling)
          → p.error_handling ≡ w
          → Adds name 0 s (handle_failure F env run_id number p t s).0
      go escalate e = rw e (omega arith, λ h. h)
      go continue_on_fail e = rw e (
        omega arith,
        λ h. ground (arith, contains-append name s.context.completed_steps p.step_id, h),
      )
      go fail e = rw e (omega arith, λ h. h)
      go retry e = rw e (omega arith, λ h. h)

  Adds-handle_exception :
      (run_id : String) (number : ℕ) (p : PlanStep) (e : Failure) (s : State F)
      → Adds name 0 s (handle_exception F env run_id number p e s).0
  unfolding handle_exception suspend_run fail_run
  Adds-handle_exception run_id number p policy_violation s =
      Adds-set_current
        (failed_now (env.now s.supply) (env.redact_error (type_field "PolicyViolation")))
        (record s { supply = suc s.supply })
  Adds-handle_exception run_id number p (structural t) s =
      Adds-set_current (failed_now (env.now s.supply) (env.redact_error (type_field t)))
        (record s { supply = suc s.supply })
  Adds-handle_exception run_id number p (critique_failure r) s = (omega arith, λ h. h)
  Adds-handle_exception run_id number p replan_required s = (omega arith, λ h. h)
  Adds-handle_exception run_id number p (escalation_required pre) s =
      Adds-set_current (λ t. record t { status = StepStatus.suspended }) s
  Adds-handle_exception run_id number p run_suspended s = (omega arith, λ h. h)
  Adds-handle_exception run_id number p (other t) s = Adds-handle_failure run_id number p t s

  Adds-after_step :
      (run_id : String) (number : ℕ) (p : PlanStep) (s : State F) (r : Result Failure Value)
      → Adds name 0 s (after_step F env run_id number p s r).0
  unfolding after_step
  Adds-after_step run_id number p s (ok v) = (
    omega arith,
    λ h. ground (arith, contains-append name s.context.completed_steps p.step_id, h),
  )
  Adds-after_step run_id number p s (err e) = Adds-handle_exception run_id number p e s

  Adds-execute_plan_step :
      (run_id : String) (number : ℕ) (p : PlanStep) (s : State F)
      → Adds name
          (share name p (max_attempts p.max_retries))
          s
          (execute_plan_step F env run_id number p s).0
  unfolding execute_plan_step
  Adds-execute_plan_step run_id number p s = (
    count-retry_loop F env name run_id p _ (max_attempts p.max_retries) 0 _ _,
    λ h.
        ap (contains name)
          (completed-retry_loop F env run_id p _ (max_attempts p.max_retries) 0 _ _)
        ∙ h,
  )

  Adds-guarded_step :
      (run_id : String) (number : ℕ) (p : PlanStep) (g : Result Failure Bool) (s : State F)
      → Adds name
          (share name p (max_attempts p.max_retries))
          s
          (guarded_step F env run_id number p g s).0
  unfolding guarded_step fail_run skip_step
  Adds-guarded_step run_id number p (err e) s = (omega arith, λ h. h)
  Adds-guarded_step run_id number p (ok false) s = (
    omega arith,
    λ h. ground (arith, contains-append name s.context.completed_steps p.step_id, h),
  )
  Adds-guarded_step run_id number p (ok true) s =
      let x = execute_plan_step F env run_id number p s in
      let first = Adds-execute_plan_step run_id number p s in
      let second = Adds-after_step run_id number p x.0 x.1 in
      (omega (arith, first.0, second.0), λ h. second.1 (first.1 h))

  -- What a round may add: nothing for a step that is completed already.
  abbrev pub allowance : PlanStep → State F → ℕ
  allowance p s =
      if contains p.step_id s.context.completed_steps
      then 0
      else share name p (max_attempts p.max_retries)

  pub Adds-run_step :
      (run_id : String) (number : ℕ) (p : PlanStep) (s : State F)
      → Adds name (allowance p s) s (run_step F env run_id number p s).0
  unfolding run_step fail_run
  Adds-run_step run_id number p s =
      elim (Bool-cases (contains p.step_id s.context.completed_steps)) [
        | inl e ↦ rw e (omega arith, λ h. h)
        | inr e ↦ elim (Option-cases (check_budget F (env.now s.supply) run_id s.tracker).1) [
          | inl w ↦ rw (e, w) (Adds-guarded_step run_id number p _ (checked F env run_id s))
          | inr (why, w) ↦ rw (e, w) (omega arith, λ h. h)
        ]
      ]
