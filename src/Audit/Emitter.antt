-- ===== src/Audit/Emitter.antt =====
-- `emit` and `commit_and_broadcast` of `EventEmitter` of backend/saz/audit/event_emitter.py, with the
-- buffer of events of backend/saz/db/unit_of_work.py. An id and an instant come with each event.
pub mod Recorded
pub mod Stored
mod Tests
use saz.Prelude.{ℕ, String, Option, none, some, List, [], ◌∷◌, ◌++◌, map}
use saz.Prelude.Json.{Fields}
use saz.Audit.{BusEvent, Subscription, publish}
use saz.Audit.Events.{Actor, PlannerMode, AuditEvent}
use saz.Audit.EventRepository.{add_batch}
use saz.Audit.Sanitizer.{Sanitizer, redact_payload, redact_text}
use saz.Audit.Calls.{Formats, Draft, ExecutionCall, execution_draft, PolicyCall, policy_draft}
use saz.Audit.Reviews.{AgentCall, agent_draft, GateCall, gate_draft, OutcomeCall, outcome_draft}

pub record EventEmitter : Type 0 where
  pub run_id : String
  pub planner_mode : PlannerMode
  pub sanitizer : Sanitizer
  pub pii_policy : String
  pub actor_user_id : Option String

pub record Stamp : Type 0 where
  pub id : String
  pub now : ℕ

abbrev pub own_or : Option String → Option String → Option String
own_or (some own) default = some own
own_or none default = default

-- Only an action of a user is attributed to one.
abbrev pub resolved_user_id : Actor → Option String → Option String → Option String
resolved_user_id Actor.user own default = own_or own default
resolved_user_id Actor.system own default = none
resolved_user_id Actor.llm own default = none

abbrev pub event_of : EventEmitter → Stamp → Draft → AuditEvent
event_of e stamp d = record {
  id = stamp.id;
  event_type = d.event_type;
  timestamp = stamp.now;
  seq = none;
  run_id = e.run_id;
  step_id = d.step_id;
  correlation_id = d.correlation_id;
  planner_mode = e.planner_mode;
  severity = d.severity;
  actor = d.actor;
  actor_user_id = resolved_user_id d.actor d.actor_user_id e.actor_user_id;
  summary = redact_text e.sanitizer d.summary e.pii_policy;
  payload = redact_payload e.sanitizer d.payload e.pii_policy;
  tags = d.tags;
}

unfoldable pub emit : EventEmitter → Stamp → Draft → List AuditEvent → List AuditEvent
emit e stamp d buffer = buffer ++ event_of e stamp d ∷ []

-- A call of any of the methods.
pub data Call : Type 0 where
  execution : ExecutionCall → Call
  policy : PolicyCall → Call
  agent : AgentCall → Call
  gate : GateCall → Call
  outcome : OutcomeCall → Call

unfoldable pub draft_of : Formats → EventEmitter → Call → Draft
unfolding execution_draft policy_draft agent_draft gate_draft outcome_draft
draft_of formats e (execution c) = execution_draft e.planner_mode c
draft_of formats e (policy c) = policy_draft formats c
draft_of formats e (agent c) = agent_draft c
draft_of formats e (gate c) = gate_draft c
draft_of formats e (outcome c) = outcome_draft formats c

-- The calls between two commits.
unfoldable pub announce :
    Formats → EventEmitter → List (Stamp × Call) → List AuditEvent → List AuditEvent
unfolding emit draft_of
announce formats e [] buffer = buffer
announce formats e ((stamp, c) ∷ calls) buffer =
    announce formats e calls (emit e stamp (draft_of formats e c) buffer)

abbrev pub on_bus : AuditEvent → BusEvent
on_bus event = record { id = event.id; run_id = event.run_id }

-- The stored events, the buffer and the subscriptions after `commit_and_broadcast`.
unfoldable pub commit_and_broadcast :
    List AuditEvent
    → List AuditEvent
    → List Subscription
    → List AuditEvent × List AuditEvent × List Subscription
unfolding publish add_batch
commit_and_broadcast stored buffer subscriptions =
    (add_batch buffer stored, [], publish (map on_bus buffer) subscriptions)
