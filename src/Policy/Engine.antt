-- ===== src/Policy/Engine.antt =====
-- backend/saz/policies/policy_engine.py: the check that each tool call must pass.
-- Compliance reports are left out.
pub mod Check
mod Tests
use saz.Prelude.{
  ℕ, String, Bool, true, false, not, ◌&&◌, ◌||◌, Option, none, some, List, [], ◌∷◌, Map, get_or,
  contains, ◌==◌, string_eq, if◌then◌else◌,
}
use saz.Prelude.Int.{ℤ}
use saz.Prelude.Json.{Value, Fields}
use saz.Prelude.Floats.{Floats}
use saz.Policy.RateLimiter.{
  RateLimiter, Decision, allowed, minute_exceeded, hour_exceeded, check_and_record,
}
use saz.Policy.Budget.{BudgetTracker, Exceeded, check_budget, record_tokens, record_cost}
use saz.Policy.Pii.{scan_dict, disallowed_pii_paths}

pub record PolicyEngine (F : Floats) : Type 0 where
  pub rate_limiter : RateLimiter
  pub budget_tracker : BudgetTracker F
  pub enforce_pii_redaction : Bool
  pub tokenize_model_inputs : Bool
  pub pii_allow_lists : Map (List String)
  pub max_replan_attempts : ℤ

-- `MODEL_TOOLS` and `OUTBOUND_TOOLS`
abbrev pub model_tools : List String
model_tools =
    "ai.assess" ∷ "ai.generate" ∷ "ai.plan" ∷ "ai.extract" ∷ "ai.route" ∷ "ai.score"
    ∷ "ai.normalize" ∷ "ai.match" ∷ "ai.evaluate" ∷ "ai.compare" ∷ "ai.translate" ∷ "ai.summarize"
    ∷ "ai.fix_json" ∷ []

abbrev pub outbound_tools : List String
outbound_tools = "http_request" ∷ "webhook_emit" ∷ "ansible_run" ∷ []

abbrev pub is_model_tool : String → Bool
is_model_tool tool = contains tool model_tools

abbrev pub is_outbound_tool : String → Bool
is_outbound_tool tool = contains tool outbound_tools

-- Why a call is blocked, with what the text shows.
pub data Blocked (F : Floats) : Type 0 where
  rate_limited : Decision → Blocked F
  over_budget : Exceeded F → Blocked F
  pii_on_paths : List String → Blocked F

abbrev pub refusal : (F : Floats) → List String → Option (Blocked F)
refusal F [] = none
refusal F (p ∷ ps) = some (pii_on_paths (p ∷ ps))

module _ (F : Floats) (detects : Value → Bool) where
  abbrev pub allowed_paths : PolicyEngine F → String → List String
  allowed_paths e tool = get_or e.pii_allow_lists tool []

  -- The part of `check_tool_call` that looks at the arguments.
  unfoldable pub check_pii : PolicyEngine F → String → Fields → Option (Blocked F)
  unfolding disallowed_pii_paths scan_dict
  check_pii e tool arguments =
      let paths = scan_dict detects arguments in
      if is_model_tool tool
      then none
      else if is_outbound_tool tool || e.enforce_pii_redaction
      then refusal F (disallowed_pii_paths paths (allowed_paths e tool))
      else none

  -- By the answer of the budget.
  abbrev pub after_budget :
      PolicyEngine F → String → Fields → Option (Exceeded F) → Option (Blocked F)
  after_budget e tool arguments (some why) = some (over_budget why)
  after_budget e tool arguments none = check_pii e tool arguments

  abbrev pub after_rate :
      ℕ → PolicyEngine F → String → Fields → String → Decision → PolicyEngine F × Option (Blocked F)
  after_rate now e tool arguments run_id allowed =
      let (tracker, exceeded) = check_budget F now run_id e.budget_tracker in
      (record e { budget_tracker = tracker }, after_budget e tool arguments exceeded)
  after_rate now e tool arguments run_id (minute_exceeded t n) =
      (e, some (rate_limited (minute_exceeded t n)))
  after_rate now e tool arguments run_id (hour_exceeded n) =
      (e, some (rate_limited (hour_exceeded n)))

  -- `none` is the answer `(True, None)`. The rate limiter has the call recorded before the budget
  -- and the arguments are looked at.
  unfoldable pub check_tool_call :
      ℕ → PolicyEngine F → String → Fields → String → PolicyEngine F × Option (Blocked F)
  unfolding check_pii
  check_tool_call now e tool arguments run_id =
      let (limiter, decision) = check_and_record now tool run_id e.rate_limiter in
      after_rate now (record e { rate_limiter = limiter }) tool arguments run_id decision

  unfoldable pub record_llm_usage : ℕ → String → ℤ → F.Float → PolicyEngine F → PolicyEngine F
  record_llm_usage now run_id tokens cost_usd e = record e {
    budget_tracker =
        record_cost F now run_id cost_usd (record_tokens F now run_id tokens e.budget_tracker);
  }
