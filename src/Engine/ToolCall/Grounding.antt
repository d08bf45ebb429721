-- ===== src/Engine/ToolCall/Grounding.antt =====
-- `_ground_and_verify` of backend/saz/engine/executor.py: the proposals of calls, and their revision by
-- the planner.
use saz.Prelude.{
  ℕ, suc, zero, true, Option, none, some, List, [], ◌∷◌, ◌++◌, contains, ◌==◌, string_eq, nat_eq,
  if◌then◌else◌, Result, ok, err,
}
use saz.Prelude.Floats.{Floats}
use saz.Policy.Budget.{Exceeded}
use saz.Policy.Engine.{Blocked, check_tool_call}
use saz.Engine.{
  PlanStep, Failure, policy_violation, replan_required, critique_failure, escalation_required,
}
use saz.Engine.ToolCall.{
  Verdict, pass, fail, escalate, replan, Critique, ToolCall, Agents, ToolState, Workflow,
  allowed_tool_names, is_denied, blocked_event, replan_feedback, replan_tools, log, charge,
  set_tracker, exceeded, block_if_budget_exhausted,
}

module _ (F : Floats) (agents : Agents F) (w : Workflow) where
  unfoldable pub verify : PlanStep → ToolCall → ToolState F → ToolState F × Result Failure Critique
  verify p c s =
      let (u, r) = agents.verify_proposal s.supply p c (allowed_tool_names agents w) in
      (charge F agents w u (record s { proposals = s.proposals ++ c ∷ [] }), r)

  abbrev pub asked :
      PlanStep
      → ToolCall
      → ToolState F
      → Result Failure (Unit {0})
      → ToolState F × Result Failure Critique
  asked p c s (err e) = (s, err e)
  asked p c s (ok t) = verify p c s

  -- The budget is looked at again before the verifier is asked.
  unfoldable pub verify_within_budget :
      PlanStep → ToolCall → ToolState F → ToolState F × Result Failure Critique
  unfolding block_if_budget_exhausted verify
  verify_within_budget p c s =
      let (s', r) = block_if_budget_exhausted F agents w s in asked p c s' r

  abbrev pub checked :
      PlanStep → ToolCall → ToolState F → Option (Blocked F) → ToolState F × Result Failure Critique
  checked p c s none = verify_within_budget p c s
  checked p c s (some b) = (log F agents w (blocked_event b) s, err policy_violation)

  unfoldable pub check_policies :
      PlanStep → ToolCall → ToolState F → ToolState F × Result Failure Critique
  unfolding verify_within_budget
  check_policies p c s =
      let (engine, blocked) =
        check_tool_call F agents.detects (agents.now s.supply) s.engine c.tool c.arguments
          w.run_id in
      checked p c (record s { engine = engine; supply = suc s.supply }) blocked

  -- A grounded call, up to the verifier's answer.
  unfoldable pub propose : PlanStep → ToolCall → ToolState F → ToolState F × Result Failure Critique
  unfolding check_policies
  propose p c s =
      if is_denied agents w c
      then (log F agents w "policy.blocked" s, err policy_violation)
      else check_policies p c s

  abbrev pub afforded :
      PlanStep → ToolState F → Option (Exceeded F) → ToolState F × Result Failure PlanStep
  afforded p s none = (log F agents w "replan.succeeded" (set_tracker F agents w s), ok p)
  afforded p s (some why) =
      (log F agents w "replan.succeeded" (set_tracker F agents w s), err policy_violation)

  abbrev pub first_step :
      ToolState F → Result Failure (List PlanStep) → ToolState F × Result Failure PlanStep
  first_step s (err e) = (s, err e)
  first_step s (ok []) = (s, err replan_required)
  first_step s (ok (p ∷ rest)) = afforded p s (exceeded F agents w s)

  -- The planner's revision of a step, if there are attempts left.
  unfoldable pub revise :
      ℕ → PlanStep → Critique → ToolState F → ToolState F × Result Failure PlanStep
  revise left p v s =
      let (u, r) = agents.plan s.supply p (replan_feedback v) (replan_tools agents w) in
      if left == 0
      then (log F agents w "replan.exhausted" s, err replan_required)
      else if w.is_deterministic
      then (
        log F agents w "replan.attempted" (log F agents w "verifier.replan_requested" s),
        err replan_required,
      )
      else first_step
          (charge F agents w u
            (log F agents w "replan.attempted" (log F agents w "verifier.replan_requested" s)))
          r

  -- A round of the loop hands a revised step to the next ones.
  abbrev pub Next : Type 0
  Next = PlanStep → ToolState F → ToolState F × Result Failure ToolCall

  abbrev pub revised :
      Next → ToolState F → Result Failure PlanStep → ToolState F × Result Failure ToolCall
  revised next s (err e) = (s, err e)
  revised next s (ok p) = next p s

  -- By the verifier's verdict. An approval of the step's escalation by a human is honoured.
  unfoldable pub judge :
      Next
      → ℕ
      → PlanStep
      → ToolCall
      → Critique
      → ToolState F
      → Verdict
      → ToolState F × Result Failure ToolCall
  unfolding revise
  judge next left p c v s pass = (log F agents w "verifier.approved" s, ok c)
  judge next left p c v s fail =
      (log F agents w "verifier.rejected" s, err (critique_failure v.reasoning))
  judge next left p c v s escalate =
      if contains p.step_id w.context.escalation_approvals
      then (log F agents w "verifier.approved" s, ok c)
      else (log F agents w "verifier.escalated" s, err (escalation_required true))
  judge next left p c v s replan = let (s', q) = revise left p v s in revised next s' q

  abbrev pub answered :
      Next
      → ℕ
      → PlanStep
      → ToolCall
      → ToolState F
      → Result Failure Critique
      → ToolState F × Result Failure ToolCall
  answered next left p c s (err e) = (s, err e)
  answered next left p c s (ok v) = judge next left p c v s v.verdict

  abbrev pub grounded :
      Next
      → ℕ
      → PlanStep
      → ToolState F
      → Result Failure ToolCall
      → ToolState F × Result Failure ToolCall
  grounded next left p s (err e) = (s, err e)
  grounded next left p s (ok c) =
      let (s', r) = propose p c (record s { supply = suc s.supply }) in answered next left p c s' r

  -- The rounds that are left.
  unfoldable pub ground_and_verify :
      ℕ → PlanStep → ToolState F → ToolState F × Result Failure ToolCall
  unfolding propose judge
  ground_and_verify zero p s = (s, err replan_required)
  ground_and_verify (suc left) p s =
      grounded (ground_and_verify left) left p s (agents.ground s.supply p w.context)
