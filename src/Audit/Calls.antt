-- ===== src/Audit/Calls.antt =====
-- The methods of `EventEmitter` of backend/saz/audit/event_emitter.py that announce what happens in a
-- run: a call of one is a constructor with its arguments, and what it hands to `emit` is a Draft.
-- How Python prints numbers and values is the parameter Formats.
use saz.Prelude.{ℕ, String, Option, none, some, List, [], ◌∷◌, string_eq}
use saz.Prelude.Int.{pos}
use saz.Prelude.Json.{
  Value, null, str, num, obj, arr, Fields, end, field, Items, merge, concat, lookup,
}
use saz.Prelude.Texts.{decimal}
use saz.Audit.Events.{EventType, Severity, Actor, PlannerMode}

-- `f"{n:,}"`, `f"{x:.4f}"` with the number of digits, and `f"{v}"`
pub record Formats : Type 0 where
  pub grouped : ℕ → String
  pub fixed : ℕ → Value → String
  pub plain : Value → String

-- The arguments of `emit`.
pub record Draft : Type 0 where
  pub event_type : EventType
  pub summary : String
  pub payload : Fields
  pub step_id : Option String
  pub correlation_id : Option String
  pub severity : Severity
  pub actor : Actor
  pub tags : List (String × String)
  pub actor_user_id : Option String

-- With the defaults of `emit`; the pieces of the summary are joined.
abbrev pub draft : EventType → List String → Fields → Draft
draft event_type summary payload = record {
  event_type = event_type;
  summary = concat summary;
  payload = payload;
  step_id = none;
  correlation_id = none;
  severity = Severity.info;
  actor = Actor.system;
  tags = [];
  actor_user_id = none;
}

abbrev pub int : ℕ → Value
int n = num (pos n) 0

abbrev pub text_or_null : Option String → Value
text_or_null none = null
text_or_null (some s) = str s

-- Runs, steps, tools and plans
pub data ExecutionCall : Type 0 where
  run_started : (flow_id flow_name : String) (kwargs : Fields) → ExecutionCall
  run_completed : (kwargs : Fields) → ExecutionCall
  run_failed : (error error_type : String) (kwargs : Fields) → ExecutionCall
  step_started : (step_id step_name : String) (step_number : ℕ) (kwargs : Fields) → ExecutionCall
  step_completed : (step_id step_name : String) (duration_ms : ℕ) (kwargs : Fields) → ExecutionCall
  step_failed : (step_id step_name error error_type : String) (kwargs : Fields) → ExecutionCall
  tool_started : (step_id tool_name : String) (attempt : ℕ) (kwargs : Fields) → ExecutionCall
  tool_succeeded : (step_id tool_name : String) (duration_ms : ℕ) (kwargs : Fields) → ExecutionCall
  tool_failed : (step_id tool_name error error_type : String) (kwargs : Fields) → ExecutionCall
  plan_generated :
      (total_steps : ℕ) (steps : Items) (estimated_cost : Value) (kwargs : Fields) → ExecutionCall

abbrev pub planner_actor : PlannerMode → Actor
planner_actor PlannerMode.agentic = Actor.llm
planner_actor PlannerMode.deterministic = Actor.system

unfoldable pub execution_draft : PlannerMode → ExecutionCall → Draft
execution_draft mode (run_started flow_id flow_name kwargs) =
    record (draft EventType.run_started ("Run started: " ∷ flow_name ∷ [])
      (merge (field "flow_id" (str flow_id) (field "flow_name" (str flow_name) end)) kwargs)) {
        tags = (("flow", flow_id) ∷ []);
      }
execution_draft mode (run_completed kwargs) =
    draft EventType.run_completed ("Run completed successfully" ∷ [])
      (merge (field "status" (str "completed") end) kwargs)
execution_draft mode (run_failed error error_type kwargs) =
    record (draft EventType.run_failed ("Run failed: " ∷ error ∷ [])
      (merge (field "error" (str error) (field "error_type" (str error_type) end)) kwargs)) {
        severity = Severity.error;
      }
execution_draft mode (step_started step_id step_name step_number kwargs) =
    record (draft EventType.step_started ("Step started: " ∷ step_name ∷ []) (
      merge (field "step_name" (str step_name) (field "step_number" (int step_number) end))
        kwargs)) { step_id = some step_id }
execution_draft mode (step_completed step_id step_name duration_ms kwargs) =
    record (draft EventType.step_completed ("Step completed: " ∷ step_name ∷ []) (
      merge (field "step_name" (str step_name) (field "duration_ms" (int duration_ms) end))
        kwargs)) { step_id = some step_id }
execution_draft mode (step_failed step_id step_name error error_type kwargs) =
    record (draft EventType.step_failed ("Step failed: " ∷ step_name ∷ " - " ∷ error ∷ []) (
      merge
        (field "step_name" (str step_name)
          (field "error" (str error) (field "error_type" (str error_type) end)))
        kwargs)) { step_id = some step_id; severity = Severity.error }
execution_draft mode (tool_started step_id tool_name attempt kwargs) =
    record (draft EventType.tool_started
      ("Tool started: " ∷ tool_name ∷ " (attempt " ∷ decimal attempt ∷ ")" ∷ [])
      (merge (field "tool" (str tool_name) (field "attempt" (int attempt) end)) kwargs)) {
        step_id = some step_id;
      }
execution_draft mode (tool_succeeded step_id tool_name duration_ms kwargs) =
    record (draft EventType.tool_succeeded ("Tool succeeded: " ∷ tool_name ∷ [])
      (merge (field "tool" (str tool_name) (field "duration_ms" (int duration_ms) end)) kwargs)) {
        step_id = some step_id;
      }
execution_draft mode (tool_failed step_id tool_name error error_type kwargs) =
    record (draft EventType.tool_failed ("Tool failed: " ∷ tool_name ∷ " - " ∷ error ∷ []) (
      merge
        (field "tool" (str tool_name)
          (field "error" (str error) (field "error_type" (str error_type) end)))
        kwargs)) { step_id = some step_id; severity = Severity.error }
execution_draft mode (plan_generated total_steps steps estimated_cost kwargs) =
    record (draft EventType.plan_generated
      ("Execution plan generated with " ∷ decimal total_steps ∷ " steps" ∷ [])
      (merge
        (field "total_steps" (int total_steps)
          (field "steps" (arr steps) (field "estimated_cost_usd" estimated_cost end)))
        kwargs)) { actor = planner_actor mode }

-- Policies, usage and progress
pub data PolicyCall : Type 0 where
  policy_pii_redacted : (step_id : String) (pii_stats kwargs : Fields) → PolicyCall
  policy_blocked :
      (step_id : Option String) (tool_name reason : String) (kwargs : Fields) → PolicyCall
  policy_budget_exhausted :
      (reason : String) (step_id : Option String) (kwargs : Fields) → PolicyCall
  policy_rate_limited :
      (tool_name reason : String) (step_id : Option String) (kwargs : Fields) → PolicyCall
  usage_recorded :
      (step_id : Option String) (tokens : ℕ) (cost_usd : Value) (duration_ms : ℕ) (model : String)
      (kwargs : Fields)
      → PolicyCall
  progress_updated : (completed total : ℕ) (percent : Value) (kwargs : Fields) → PolicyCall

-- `pii_stats.get('total', 0)`
abbrev pub total_of : Fields → Value
total_of stats = elim (lookup "total" stats) [ none ↦ int 0 | some v ↦ v ]

unfoldable pub policy_draft : Formats → PolicyCall → Draft
policy_draft formats (policy_pii_redacted step_id pii_stats kwargs) =
    record (draft EventType.policy_pii_redacted
      ("PII redacted: " ∷ formats.plain (total_of pii_stats) ∷ " items" ∷ [])
      (merge (field "pii_stats" (obj pii_stats) end) kwargs)) {
        step_id = some step_id;
        severity = Severity.warn;
      }
policy_draft formats (policy_blocked step_id tool_name reason kwargs) =
    record (draft EventType.policy_blocked
      ("Policy blocked tool call: " ∷ tool_name ∷ " - " ∷ reason ∷ [])
      (merge (field "tool" (str tool_name) (field "reason" (str reason) end)) kwargs)) {
        step_id = step_id;
        severity = Severity.error;
      }
policy_draft formats (policy_budget_exhausted reason step_id kwargs) =
    record (draft EventType.policy_budget_exhausted ("Budget exhausted: " ∷ reason ∷ [])
      (merge (field "reason" (str reason) end) kwargs)) {
        step_id = step_id;
        severity = Severity.error;
      }
policy_draft formats (policy_rate_limited tool_name reason step_id kwargs) =
    record (draft EventType.policy_rate_limited
      ("Rate limit hit for " ∷ tool_name ∷ ": " ∷ reason ∷ [])
      (merge (field "tool" (str tool_name) (field "reason" (str reason) end)) kwargs)) {
        step_id = step_id;
        severity = Severity.warn;
      }
policy_draft formats (usage_recorded step_id tokens cost_usd duration_ms model kwargs) =
    record (draft EventType.usage_recorded
      ("Consumed " ∷ formats.grouped tokens ∷ " tokens ($" ∷ formats.fixed 4 cost_usd ∷ ")" ∷ [])
      (merge
        (field "tokens" (int tokens) (
          field "cost_usd" cost_usd
            (field "duration_ms" (int duration_ms) (field "model" (str model) end))))
        kwargs)) { step_id = step_id }
policy_draft formats (progress_updated completed total percent kwargs) =
    draft EventType.progress_updated
      ("Progress: "
        ∷ decimal completed
        ∷ "/"
        ∷ decimal total
        ∷ " steps ("
        ∷ formats.fixed 0 percent
        ∷ "%)"
        ∷ [])
      (merge
        (field "completed" (int completed)
          (field "total" (int total) (field "percent" percent end)))
        kwargs)
