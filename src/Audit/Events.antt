-- ===== src/Audit/Events.antt =====
-- The events of the audit log: `Event` and `EventType` of backend/saz/domain/event_schema.py, with the
-- enumerations of backend/saz/domain/literals.py. The version of the schema is left out.
use saz.Prelude.{ℕ, String, Option, List}
use saz.Prelude.Json.{Fields}

pub data Severity : Type 0 where
  info : Severity
  warn : Severity
  error : Severity

pub data Actor : Type 0 where
  system : Actor
  user : Actor
  llm : Actor

pub data PlannerMode : Type 0 where
  deterministic : PlannerMode
  agentic : PlannerMode

pub data EventType : Type 0 where
  run_started : EventType
  run_completed : EventType
  run_failed : EventType
  run_suspended : EventType
  run_resumed : EventType
  step_started : EventType
  step_completed : EventType
  step_failed : EventType
  step_skipped : EventType
  step_suspended : EventType
  step_resumed : EventType
  tool_started : EventType
  tool_succeeded : EventType
  tool_failed : EventType
  plan_generated : EventType
  verifier_approved : EventType
  verifier_rejected : EventType
  verifier_replan_requested : EventType
  verifier_escalated : EventType
  replan_attempted : EventType
  replan_succeeded : EventType
  replan_exhausted : EventType
  critique_completed : EventType
  webhook_callback_received : EventType
  policy_pii_redacted : EventType
  policy_budget_updated : EventType
  policy_budget_exhausted : EventType
  policy_rate_limited : EventType
  policy_blocked : EventType
  usage_recorded : EventType
  progress_updated : EventType
  approval_requested : EventType
  approval_granted : EventType
  approval_denied : EventType
  artifact_created : EventType
  system_error : EventType
  system_warning : EventType

pub record AuditEvent : Type 0 where
  pub id : String
  pub event_type : EventType
  pub timestamp : ℕ
  pub seq : Option ℕ
  pub run_id : String
  pub step_id : Option String
  pub correlation_id : Option String
  pub planner_mode : PlannerMode
  pub severity : Severity
  pub actor : Actor
  pub actor_user_id : Option String
  pub summary : String
  pub payload : Fields
  pub tags : List (String × String)
