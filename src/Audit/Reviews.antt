-- ===== src/Audit/Reviews.antt =====
-- The methods of `EventEmitter` of backend/saz/audit/event_emitter.py that announce what agents judge
-- and people decide, as Audit.Calls has the others.
use saz.Prelude.{ℕ, String, Option, some, [], ◌∷◌, ◌==◌, string_eq, if◌then◌else◌}
use saz.Prelude.Json.{Value, str, Fields, end, field, merge}
use saz.Prelude.Texts.{decimal}
use saz.Audit.Events.{EventType, Severity, Actor}
use saz.Audit.Calls.{Formats, Draft, draft, int, text_or_null}

-- The verifier and the planner that is asked again
pub data AgentCall : Type 0 where
  verifier_approved :
      (step_id tool_name : String) (confidence : Value) (kwargs : Fields) → AgentCall
  verifier_rejected : (step_id tool_name reasoning : String) (kwargs : Fields) → AgentCall
  verifier_replan_requested :
      (step_id tool_name reasoning : String) (attempt : ℕ) (kwargs : Fields) → AgentCall
  verifier_escalated : (step_id tool_name reasoning : String) (kwargs : Fields) → AgentCall
  replan_attempted :
      (step_id : String) (attempt max_attempts : ℕ) (feedback : String) (kwargs : Fields)
      → AgentCall
  replan_succeeded : (step_id : String) (attempt : ℕ) (kwargs : Fields) → AgentCall
  replan_exhausted :
      (step_id : String) (max_attempts : ℕ) (final_verdict : String) (kwargs : Fields) → AgentCall

unfoldable pub agent_draft : AgentCall → Draft
agent_draft (verifier_approved step_id tool_name confidence kwargs) =
    record (draft EventType.verifier_approved ("Verifier approved: " ∷ tool_name ∷ [])
      (merge (field "tool" (str tool_name) (field "confidence" confidence end)) kwargs)) {
        step_id = some step_id;
        actor = Actor.llm;
      }
agent_draft (verifier_rejected step_id tool_name reasoning kwargs) =
    record (draft EventType.verifier_rejected
      ("Verifier rejected: " ∷ tool_name ∷ " - " ∷ reasoning ∷ [])
      (merge (field "tool" (str tool_name) (field "reasoning" (str reasoning) end)) kwargs)) {
        step_id = some step_id;
        severity = Severity.error;
        actor = Actor.llm;
      }
agent_draft (verifier_replan_requested step_id tool_name reasoning attempt kwargs) =
    record (draft EventType.verifier_replan_requested
      ("Verifier requested replan for " ∷ tool_name ∷ " (attempt " ∷ decimal attempt ∷ ")" ∷ [])
      (merge
        (field "tool" (str tool_name)
          (field "reasoning" (str reasoning) (field "attempt" (int attempt) end)))
        kwargs)) { step_id = some step_id; severity = Severity.warn; actor = Actor.llm }
agent_draft (verifier_escalated step_id tool_name reasoning kwargs) =
    record (draft EventType.verifier_escalated
      ("Verifier escalated: " ∷ tool_name ∷ " - " ∷ reasoning ∷ [])
      (merge (field "tool" (str tool_name) (field "reasoning" (str reasoning) end)) kwargs)) {
        step_id = some step_id;
        severity = Severity.warn;
        actor = Actor.llm;
      }
agent_draft (replan_attempted step_id attempt max_attempts feedback kwargs) =
    record (draft EventType.replan_attempted
      ("Replan attempt " ∷ decimal attempt ∷ "/" ∷ decimal max_attempts ∷ [])
      (merge
        (field "attempt" (int attempt)
          (field "max_attempts" (int max_attempts) (field "feedback" (str feedback) end)))
        kwargs)) { step_id = some step_id; actor = Actor.llm }
agent_draft (replan_succeeded step_id attempt kwargs) =
    record (draft EventType.replan_succeeded ("Replan succeeded on attempt " ∷ decimal attempt ∷ [])
      (merge (field "attempt" (int attempt) end) kwargs)) {
        step_id = some step_id;
        actor = Actor.llm;
      }
agent_draft (replan_exhausted step_id max_attempts final_verdict kwargs) =
    record (draft EventType.replan_exhausted
      ("Replan exhausted after "
        ∷ decimal max_attempts
        ∷ " attempts (final: "
        ∷ final_verdict
        ∷ ")"
        ∷ [])
      (merge
        (field "max_attempts" (int max_attempts) (field "final_verdict" (str final_verdict) end))
        kwargs)) { step_id = some step_id; severity = Severity.error; actor = Actor.llm }

-- Approvals, callbacks, and runs and steps that wait or are skipped
pub data GateCall : Type 0 where
  approval_requested :
      (step_id : Option String) (step_name reasoning : String) (callback_id : Option String)
      (kwargs : Fields)
      → GateCall
  approval_granted : (step_id : Option String) (step_name : String) (kwargs : Fields) → GateCall
  approval_denied :
      (step_id : Option String) (step_name reason : String) (kwargs : Fields) → GateCall
  webhook_callback_received : (callback_id action : String) (kwargs : Fields) → GateCall
  run_suspended : (reason : String) (step_id : Option String) (kwargs : Fields) → GateCall
  run_resumed : (resume_source : String) (kwargs : Fields) → GateCall
  step_skipped :
      (step_id : Option String) (step_name condition : String) (kwargs : Fields) → GateCall
  step_suspended :
      (step_id : Option String) (step_name reason : String) (kwargs : Fields) → GateCall
  step_resumed :
      (step_id : Option String) (step_name resume_source : String) (kwargs : Fields) → GateCall

unfoldable pub gate_draft : GateCall → Draft
gate_draft (approval_requested step_id step_name reasoning callback_id kwargs) =
    record (draft EventType.approval_requested ("Approval requested for step: " ∷ step_name ∷ []) (
      merge
        (field "step_name" (str step_name)
          (field "reasoning" (str reasoning) (field "callback_id" (text_or_null callback_id) end)))
        kwargs)) { step_id = step_id }
gate_draft (approval_granted step_id step_name kwargs) =
    record (draft EventType.approval_granted ("Approval granted for step: " ∷ step_name ∷ [])
      (merge (field "step_name" (str step_name) end) kwargs)) {
        step_id = step_id;
        actor = Actor.user;
      }
gate_draft (approval_denied step_id step_name reason kwargs) =
    record (draft EventType.approval_denied ("Approval denied for step: " ∷ step_name ∷ [])
      (merge (field "step_name" (str step_name) (field "reason" (str reason) end)) kwargs)) {
        step_id = step_id;
        severity = Severity.warn;
        actor = Actor.user;
      }
gate_draft (webhook_callback_received callback_id action kwargs) =
    record (draft EventType.webhook_callback_received ("Webhook callback received: " ∷ action ∷ [])
      (merge (field "callback_id" (str callback_id) (field "action" (str action) end)) kwargs)) {
        actor = Actor.user;
      }
gate_draft (run_suspended reason step_id kwargs) =
    record (draft EventType.run_suspended ("Run suspended: " ∷ reason ∷ [])
      (merge (field "reason" (str reason) end) kwargs)) {
        step_id = step_id;
        severity = Severity.warn;
      }
gate_draft (run_resumed resume_source kwargs) =
    record (draft EventType.run_resumed ("Run resumed via " ∷ resume_source ∷ [])
      (merge (field "resume_source" (str resume_source) end) kwargs)) { actor = Actor.user }
gate_draft (step_skipped step_id step_name condition kwargs) =
    record (draft EventType.step_skipped ("Step skipped: " ∷ step_name ∷ " (guard false)" ∷ [])
      (merge (field "step_name" (str step_name) (field "condition" (str condition) end)) kwargs)) {
        step_id = step_id;
      }
gate_draft (step_suspended step_id step_name reason kwargs) =
    record (draft EventType.step_suspended
      ("Step suspended: " ∷ step_name ∷ " (" ∷ reason ∷ ")" ∷ [])
      (merge (field "step_name" (str step_name) (field "reason" (str reason) end)) kwargs)) {
        step_id = step_id;
        severity = Severity.warn;
      }
gate_draft (step_resumed step_id step_name resume_source kwargs) =
    record (draft EventType.step_resumed
      ("Step resumed: " ∷ step_name ∷ " via " ∷ resume_source ∷ [])
      (merge (field "step_name" (str step_name) (field "resume_source" (str resume_source) end))
        kwargs)) { step_id = step_id; actor = Actor.user }

-- Artifacts and critiques
pub data OutcomeCall : Type 0 where
  artifact_created :
      (step_id : Option String) (artifact_id name content_type : String) (kwargs : Fields)
      → OutcomeCall
  critique_completed :
      (step_id verdict : String) (confidence : Value) (reasoning : String) (kwargs : Fields)
      → OutcomeCall

unfoldable pub outcome_draft : Formats → OutcomeCall → Draft
outcome_draft formats (artifact_created step_id artifact_id name content_type kwargs) =
    record (draft EventType.artifact_created ("Artifact created: " ∷ name ∷ []) (
      merge
        (field "artifact_id" (str artifact_id)
          (field "name" (str name) (field "content_type" (str content_type) end)))
        kwargs)) { step_id = step_id }
outcome_draft formats (critique_completed step_id verdict confidence reasoning kwargs) =
    record (draft EventType.critique_completed
      ("Post-execution critique: "
        ∷ verdict
        ∷ " (confidence: "
        ∷ formats.fixed 2 confidence
        ∷ ")"
        ∷ [])
      (merge
        (field "verdict" (str verdict)
          (field "confidence" confidence (field "reasoning" (str reasoning) end)))
        kwargs)) {
          step_id = some step_id;
          actor = Actor.llm;
          severity = (if verdict == "pass" then Severity.info else Severity.warn);
          tags = (("critique_verdict", verdict) ∷ []);
        }
