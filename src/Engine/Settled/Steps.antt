-- ===== src/Engine/Settled/Steps.antt =====
-- What the gates and the attempts of backend/saz/engine/executor.py leave of the rows.
use saz.Prelude.{
  ℕ, String, ◌≡◌, refl, ◌≢◌, true, false, some, List, [], ◌∷◌, ◌++◌, ◌==◌, string_eq, nat_eq,
  Result, ok, err, inl, inr, Bool-cases,
}
use saz.Prelude.Json.{Value, Fields}
use saz.Prelude.Table.{get}
use saz.Prelude.Floats.{Floats}
use saz.Runs.{Step, run_entity, step_entity}
use saz.Runs.RunRepository.{mark_suspended, mark_failed, mark_completed}
use saz.Policy.Budget.{BudgetTracker}
use saz.Engine.{
  Call, PlanStep, Failure, policy_violation, replan_required, run_suspended, structural, other,
  critique_failure, escalation_required, Context, State, Env,
}
use saz.Engine.Effects.{set_current, emit, complete_run, fail_run}
use saz.Engine.Gates.{suspend_run, execute_human_approval, execute_webhook_wait, suspended_step}
use saz.Engine.Attempts.{execute_step_action}
use saz.Engine.Settled.{
  is_running, any_running, other_running, is_settled_found, any_running-modify,
  is_settled_found-modify,
}

module _ {F : Floats} where
  abbrev pub Idle : State F → Type 0
  Idle s = any_running s.db.steps ≡ false

  -- Nothing runs, and the run is at rest.
  abbrev pub Ended : String → State F → Type 0
  Ended run_id s = Idle s × (is_settled_found (get run_id s.db.runs) ≡ true)

  -- At most the current step runs.
  abbrev pub IsCurrent : String → State F → Type 0
  IsCurrent id s = (other_running id s.db.steps ≡ false) × (s.context.current_step ≡ some id)

  -- By the way in which a step comes to its end.
  abbrev pub After : String → String → State F → Result Failure Value → Type 0
  After run_id id s (ok v) = Idle s
  After run_id id s (err run_suspended) = Ended run_id s
  After run_id id s (err policy_violation) = IsCurrent id s
  After run_id id s (err (structural t)) = IsCurrent id s
  After run_id id s (err (escalation_required p)) = IsCurrent id s
  After run_id id s (err replan_required) = Idle s
  After run_id id s (err (critique_failure r)) = Idle s
  After run_id id s (err (other t)) = Idle s

-- The actions that are not gates never suspend the run.
abbrev pub NeverSuspends : (F : Floats) → Env F → Type 0
NeverSuspends F env =
    (calls : List Call) (p : PlanStep) (k : ℕ) (c : Context) (t : BudgetTracker F)
    → (env.perform calls p k c t).1 ≢ err run_suspended

module _ (F : Floats) (env : Env F) where
  pub suspend_run-Ended :
      (run_id : String) (e : Fields) (s : State F)
      → Idle s
      → Ended run_id (suspend_run F env run_id e s)
  unfolding suspend_run mark_suspended
  suspend_run-Ended run_id e s h =
      (h, is_settled_found-modify run_id _ s.db.runs (λ r. refl) (λ r. refl))

  pub fail_run-Ended :
      (run_id : String) (e : Fields) (s : State F)
      → Idle s
      → Ended run_id (fail_run F env run_id e s)
  unfolding fail_run mark_failed
  fail_run-Ended run_id e s h =
      (h, is_settled_found-modify run_id _ s.db.runs (λ r. refl) (λ r. refl))

  pub complete_run-Ended :
      (run_id : String) (s : State F) → Idle s → Ended run_id (complete_run F env run_id s)
  unfolding complete_run mark_completed
  complete_run-Ended run_id s h =
      (h, is_settled_found-modify run_id _ s.db.runs (λ r. refl) (λ r. refl))

  pub set_current-Idle :
      (id : String) (f : Step → Step) (s : State F)
      → ((t : Step) → is_running (f t) ≡ false)
      → IsCurrent id s
      → Idle (set_current F env f s)
  set_current-Idle id f s hf h = rw h.1 (any_running-modify id f s.db.steps hf h.0)

module _ {F : Floats} where
  -- By the answer of an action.
  abbrev pub Acted : String → String → State F → Result Failure Value → Type 0
  Acted run_id id s (err run_suspended) = Ended run_id s
  Acted run_id id s _ = IsCurrent id s

  Acted-of-answer :
      (run_id id : String) (s : State F) (r : Result Failure Value)
      → r ≢ err run_suspended
      → IsCurrent id s
      → Acted run_id id s r
  Acted-of-answer run_id id s (ok v) n h = h
  Acted-of-answer run_id id s (err run_suspended) n h = absurd (n refl)
  Acted-of-answer run_id id s (err policy_violation) n h = h
  Acted-of-answer run_id id s (err (structural t)) n h = h
  Acted-of-answer run_id id s (err (escalation_required p)) n h = h
  Acted-of-answer run_id id s (err replan_required) n h = h
  Acted-of-answer run_id id s (err (critique_failure r)) n h = h
  Acted-of-answer run_id id s (err (other t)) n h = h

module _ (F : Floats) (env : Env F) where
  execute_human_approval-Ended :
      (run_id id : String) (p : PlanStep) (s : State F)
      → IsCurrent id s
      → Ended run_id (execute_human_approval F env run_id p s).0
  unfolding execute_human_approval
  execute_human_approval-Ended run_id id p s h =
      let s1 = emit F env run_id "approval.requested" s.context.current_step s in
      let s2 = set_current F env suspended_step s1 in
      suspend_run-Ended F env run_id _
        (emit F env run_id "step.suspended" s.context.current_step s2)
        (set_current-Idle F env id suspended_step s1 (λ t. refl) h)

  execute_webhook_wait-Ended :
      (run_id id : String) (p : PlanStep) (s : State F)
      → IsCurrent id s
      → Ended run_id (execute_webhook_wait F env run_id p s).0
  unfolding execute_webhook_wait
  execute_webhook_wait-Ended run_id id p s h =
      let s1 = set_current F env suspended_step s in
      suspend_run-Ended F env run_id _
        (emit F env run_id "step.suspended" s.context.current_step s1)
        (set_current-Idle F env id suspended_step s (λ t. refl) h)

  pub execute_step_action-Acted :
      (run_id id : String) (p : PlanStep) (k : ℕ) (s : State F)
      → NeverSuspends F env
      → IsCurrent id s
      → Acted run_id id
          (execute_step_action F env run_id p k s).0
          (execute_step_action F env run_id p k s).1
  unfolding execute_step_action execute_human_approval execute_webhook_wait
  execute_step_action-Acted run_id id p k s never h =
      elim (Bool-cases (p.step_type == "human.approval")) [
        | inl e ↦ rw e (execute_human_approval-Ended run_id id p s h)
        | inr e ↦ elim (Bool-cases (p.step_type == "webhook.wait")) [
          | inl w ↦ rw (e, w) (execute_webhook_wait-Ended run_id id p s h)
          | inr w ↦
              rw (e, w)
                (Acted-of-answer run_id id
                  (record s {
                    tracker = (env.perform s.calls p k s.context s.tracker).0;
                    calls = s.calls ++ record { step = p.step_id; attempt = k } ∷ [];
                  })
                  (env.perform s.calls p k s.context s.tracker).1
                  (never s.calls p k s.context s.tracker) h)
        ]
      ]
