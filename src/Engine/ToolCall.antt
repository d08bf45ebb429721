-- ===== src/Engine/ToolCall.antt =====
-- `_execute_tool_call` and `_ground_and_verify` of backend/saz/engine/executor.py: a step is grounded
-- to a call of a tool, checked against the declared tools and the policies, verified, executed and
-- criticised. The agents that ground, verify, replan and criticise, the tools, the patterns of
-- personal data and the vault of tokens are parameters, which may answer anything. Left out: the
-- artifact's row and the columns of the step's row.
pub mod Grounding
pub mod Execution
pub mod Approval
pub mod Made
mod Tests
use saz.Prelude.{
  ℕ, suc, zero, String, Bool, true, false, not, ◌&&◌, ◌||◌, Option, none, some, List, [], ◌∷◌, ◌++◌,
  contains, keep, ◌==◌, string_eq, nat_eq, if◌then◌else◌, Result, ok, err,
}
use saz.Prelude.Int.{ℤ, pos, ltb_ℤ}
use saz.Prelude.Json.{Value, Fields, obj, field, end, lookup, concat}
use saz.Prelude.Floats.{Floats}
use text.Mathlib.Text.{starts_with}
use saz.Policy.Budget.{check_budget, Exceeded}
use saz.Policy.Engine.{
  PolicyEngine, Blocked, rate_limited, over_budget, pii_on_paths, check_tool_call, record_llm_usage,
  is_model_tool, is_outbound_tool,
}
use saz.Engine.{
  PlanStep, Failure, policy_violation, replan_required, critique_failure, escalation_required,
  Context,
}
use saz.Engine.Attempts.{max_attempts}

pub data Verdict : Type 0 where
  pass fail escalate replan : Verdict

pub record Critique : Type 0 where
  pub verdict : Verdict
  pub reasoning : String
  -- `suggestions.get("modifications", "")`
  pub modifications : String

pub record ToolCall : Type 0 where
  pub tool : String
  pub arguments : Fields

-- What a model call cost.
pub record Usage (F : Floats) : Type 0 where
  pub tokens : ℤ
  pub cost_usd : F.Float

-- The first argument of an agent counts the calls of agents before. A tool finds the world outside
-- in some state, a value of any form, and leaves it in another. `expected_output_schema` is that of
-- the step, null if there is none.
pub record Agents (F : Floats) : Type 0 where
  pub now : ℕ → ℕ
  pub detects : Value → Bool
  pub registry : List String
  pub ground : ℕ → PlanStep → Context → Result Failure ToolCall
  pub verify_proposal : ℕ → PlanStep → ToolCall → List String → Usage F × Result Failure Critique
  pub plan : ℕ → PlanStep → String → List String → Usage F × Result Failure (List PlanStep)
  pub tokenize : ToolCall → Result Failure Fields
  pub detokenize : ToolCall → Result Failure Fields
  pub expected_output_schema : PlanStep → Value
  pub execute_tool : ℕ → Value → String → Fields → Value × Result Failure Value × Option (Usage F)
  pub redact_output : Value → Value
  pub critique : ℕ → PlanStep → ToolCall → Value → Usage F × Result Failure Critique

-- `proposals` are the calls shown to the verifier, `world` is what the tools find outside.
pub record ToolState (F : Floats) : Type 0 where
  pub engine : PolicyEngine F
  pub supply : ℕ
  pub events : List String
  pub proposals : List ToolCall
  pub world : Value

-- What the context holds of the workflow.
pub record Workflow : Type 0 where
  pub run_id : String
  pub is_deterministic : Bool
  pub declared : List String
  pub context : Context

-- The declared tools bound the calls if there are any; without, an agentic workflow may call none.
abbrev pub enforce_allowlist : Workflow → Bool
enforce_allowlist w = elim w.declared [ [] ↦ not w.is_deterministic | t ∷ ts ↦ true ]

abbrev pub allowed_tool_names : {F : Floats} → Agents F → Workflow → List String
allowed_tool_names agents w = elim w.declared [
  | [] ↦ if w.is_deterministic then agents.registry else []
  | t ∷ ts ↦ t ∷ ts
]

abbrev pub is_denied : {F : Floats} → Agents F → Workflow → ToolCall → Bool
is_denied agents w c = enforce_allowlist w && not (contains c.tool (allowed_tool_names agents w))

abbrev pub blocked_event : {F : Floats} → Blocked F → String
blocked_event (rate_limited d) = "policy.rate_limited"
blocked_event (over_budget e) = "policy.budget_exhausted"
blocked_event (pii_on_paths ps) = "policy.blocked"

abbrev pub replan_feedback : Critique → String
replan_feedback v =
    if v.modifications == ""
    then v.reasoning
    else concat (v.reasoning ∷ " Suggested modifications: " ∷ v.modifications ∷ [])

-- The declared tools as the replanner sees them.
abbrev pub replan_tools : {F : Floats} → Agents F → Workflow → List String
replan_tools agents w = keep (λ t. contains t w.declared) agents.registry

module _ (F : Floats) (agents : Agents F) (w : Workflow) where
  abbrev pub log : String → ToolState F → ToolState F
  log event s = record s { events = s.events ++ event ∷ [] }

  abbrev pub charge : Usage F → ToolState F → ToolState F
  charge u s = record s {
    engine =
        record_llm_usage F agents.detects (agents.now s.supply) w.run_id u.tokens u.cost_usd
          s.engine;
    supply = suc s.supply;
  }

  abbrev pub set_tracker : ToolState F → ToolState F
  set_tracker s = record s {
    engine = record (s.engine) {
      budget_tracker = (check_budget F (agents.now s.supply) w.run_id s.engine.budget_tracker).0;
    };
    supply = suc s.supply;
  }

  abbrev pub exceeded : ToolState F → Option (Exceeded F)
  exceeded s = (check_budget F (agents.now s.supply) w.run_id s.engine.budget_tracker).1

  abbrev pub stopped_if :
      ToolState F → Option (Exceeded F) → ToolState F × Result Failure (Unit {0})
  stopped_if s none = (set_tracker s, ok tt)
  stopped_if s (some why) = (log "policy.budget_exhausted" (set_tracker s), err policy_violation)

  unfoldable pub block_if_budget_exhausted : ToolState F → ToolState F × Result Failure (Unit {0})
  block_if_budget_exhausted s = stopped_if s (exceeded s)
