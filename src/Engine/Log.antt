-- ===== src/Engine/Log.antt =====
-- The calls that backend/saz/engine/executor.py makes of the actions of steps: what an attempt and a
-- step add to the log.
pub mod Completed
pub mod Bounds
use saz.Prelude.{
  ℕ, suc, zero, ◌+◌, ◌≤◌, String, ◌≡◌, refl, sym, ap, ◌∙◌, ◌≢◌, Bool, true, false, not, ◌&&◌, ◌||◌,
  Option, none, some, List, [], ◌∷◌, ◌++◌, ◌==◌, string_eq, nat_eq, if◌then◌else◌, Result, ok, err,
  keep, length, keep-append, length-append, contains, arith, text_refl, eq_iff, ◌⊎◌, inl, inr,
  Bool-cases, Result-cases, Option-cases,
}
use saz.Prelude.Json.{Value, Fields}
use saz.Prelude.Floats.{Floats}
use saz.Runs.{Step}
use saz.Engine.{
  Call, PlanStep, Failure, Context, State, Env, policy_violation, replan_required, run_suspended,
  structural, other, critique_failure, escalation_required,
}
use saz.Engine.Effects.{set_current, set_steps, emit}
use saz.Engine.Gates.{suspend_run, suspended_step, execute_human_approval, execute_webhook_wait}
use saz.Engine.Attempts.{
  is_deterministic, execute_step_action, retry_loop, execute_plan_step, set_feedback, feedback,
  max_attempts, complete_step, fail_step, record_failure, next,
}

-- The calls of the step of a name.
abbrev pub count : String → List Call → ℕ
count name calls = length (keep (λ c. c.step == name) calls)

-- What attempts of a step may add to the calls of a name.
abbrev pub share : String → PlanStep → ℕ → ℕ
share name p n = if p.step_id == name then n else 0

pub count-append :
    (name : String) (calls : List Call) (c : Call)
    → count name (calls ++ c ∷ []) ≡ count name calls + (if c.step == name then 1 else 0)
count-append name [] c = ground arith
count-append name (d ∷ calls) c = ground (arith, count-append name calls c)

module _ (F : Floats) (env : Env F) where
  pub calls-set_current : (f : Step → Step) (s : State F) → (set_current F env f s).calls ≡ s.calls
  calls-set_current f s = elim (Option-cases s.context.current_step) [
    | inl e ↦ rw e refl
    | inr (id, e) ↦ rw e refl
  ]

  pub context-set_current :
      (f : Step → Step) (s : State F) → (set_current F env f s).context ≡ s.context
  context-set_current f s = elim (Option-cases s.context.current_step) [
    | inl e ↦ rw e refl
    | inr (id, e) ↦ rw e refl
  ]

  count-execute_step_action :
      (name run_id : String) (p : PlanStep) (k : ℕ) (s : State F)
      → count name (execute_step_action F env run_id p k s).0.calls
        ≤ count name s.calls + share name p 1
  unfolding execute_step_action execute_human_approval execute_webhook_wait suspend_run
  count-execute_step_action name run_id p k s =
      elim (Bool-cases (p.step_type == "human.approval")) [
        | inl e ↦
            rw
              (
                e,
                calls-set_current suspended_step
                    (emit F env run_id "approval.requested" s.context.current_step s),
              )
              (omega arith)
        | inr e ↦ elim (Bool-cases (p.step_type == "webhook.wait")) [
          | inl w ↦ rw (e, w, calls-set_current suspended_step s) (omega arith)
          | inr w ↦
              rw (e, w)
                (omega
                  (arith, count-append name s.calls (record { step = p.step_id; attempt = k })))
        ]
      ]

  calls-record_failure :
      (run_id id : String) (left made : ℕ) (e : Failure) (s : State F)
      → (record_failure F env run_id id left made e s).calls ≡ s.calls
  calls-record_failure run_id id left made e s = elim (Bool-cases (left == 0)) [
    | inl z ↦ rw z refl
    | inr z ↦ rw z refl
  ]

  count-next :
      (name run_id : String) (p : PlanStep) (id : String) (left made n : ℕ) (s : State F)
      (r : Result Failure Value)
      → count name s.calls ≤ n
      → ((e : Failure)
          → count name
              (retry_loop F env run_id p id left
                (suc made)
                e
                (record_failure F env run_id id left made e s)).0.calls
            ≤ n + share name p left)
      → count name (next F env run_id p id left made s r).0.calls ≤ n + share name p left
  count-next name run_id p id left made n s (ok v) h ih = omega arith
  count-next name run_id p id left made n s (err run_suspended) h ih = omega arith
  count-next name run_id p id left made n s (err policy_violation) h ih = omega arith
  count-next name run_id p id left made n s (err (structural t)) h ih = omega arith
  count-next name run_id p id left made n s (err (escalation_required b)) h ih = omega arith
  count-next name run_id p id left made n s (err replan_required) h ih = ih replan_required
  count-next name run_id p id left made n s (err (critique_failure c)) h ih =
      ih (critique_failure c)
  count-next name run_id p id left made n s (err (other t)) h ih = ih (other t)

  share-suc :
      (name : String) (p : PlanStep) (n : ℕ)
      → share name p (suc n) ≡ share name p 1 + share name p n
  share-suc name p n = ground arith

  pub count-retry_loop :
      (name run_id : String) (p : PlanStep) (id : String) (left made : ℕ) (last : Failure)
      (s : State F)
      → count name (retry_loop F env run_id p id left made last s).0.calls
        ≤ count name s.calls + share name p left
  unfolding retry_loop
  count-retry_loop name run_id p id zero made last s = omega arith
  count-retry_loop name run_id p id (suc left) made last s =
      let s0 = set_feedback F env (feedback last) s in
      let x = execute_step_action F env run_id p (suc made) s0 in
      let first = count-execute_step_action name run_id p (suc made) s0 in
      let both =
        count-next name run_id p id left made (count name s.calls + share name p 1) x.0 x.1 first
          (λ e. omega (
            arith,
            first,
            count-retry_loop name run_id p id left (suc made) e
                (record_failure F env run_id id left made e x.0),
            ap (count name) (calls-record_failure run_id id left made e x.0),
          )) in
      omega (arith, both, share-suc name p left)
