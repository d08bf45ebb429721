-- ===== src/Audit/Emitter/Recorded.antt =====
-- What the sanitizer of backend/saz/audit/sanitizer.py leaves of an event, and whom the methods of
-- `EventEmitter` of backend/saz/audit/event_emitter.py name as its author.
use text.Mathlib.TextEquality.{eq_iff}
use saz.Prelude.{
  String, ◌≡◌, refl, ap, Bool, true, false, not, ◌&&◌, Option, none, [], ◌∷◌, contains, ◌==◌,
  string_eq, if◌then◌else◌, if-holds, Bool-cases, inl, inr, arith,
}
use saz.Prelude.Json.{
  Value, null, bool, str, num, time, obj, arr, Fields, end, field, Items, no_item, item,
}
use saz.Redaction.{is_sensitive_key}
use saz.Audit.Events.{EventType, PlannerMode}
use saz.Audit.Sanitizer.{
  Sanitizer, has_token, without_token, without_pii, sanitize, sanitize_fields, sanitize_items,
  redact_payload, redact_text,
}
use saz.Audit.Calls.{
  Draft, Formats, ExecutionCall, run_completed, execution_draft, PolicyCall, policy_draft,
  policy_blocked,
}
use saz.Audit.Reviews.{
  AgentCall, agent_draft, GateCall, gate_draft, OutcomeCall, outcome_draft, replan_succeeded,
  run_resumed, artifact_created,
}
use saz.Audit.Emitter.{
  EventEmitter, Call, execution, policy, agent, gate, outcome, resolved_user_id, draft_of,
}

both : (a b : Bool) → a ≡ true → b ≡ true → (a && b) ≡ true
both a b e f = ground arith

module _ (s : Sanitizer) where
  abbrev pub is_redacted : Value → Bool
  is_redacted (str t) = t == "[REDACTED]"
  is_redacted null = false
  is_redacted (bool b) = false
  is_redacted (num n k) = false
  is_redacted (time t) = false
  is_redacted (obj fs) = false
  is_redacted (arr xs) = false

  -- No text of the value holds a token, and nothing but the mark stands under the name of a secret.
  abbrev mutual
    pub is_clean : Value → Bool
    is_clean null = true
    is_clean (bool b) = true
    is_clean (num n k) = true
    is_clean (time t) = true
    is_clean (str t) = not (has_token s t)
    is_clean (obj fs) = is_clean_fields fs
    is_clean (arr xs) = is_clean_items xs

    pub is_clean_fields : Fields → Bool
    is_clean_fields end = true
    is_clean_fields (field k v fs) =
        (if is_sensitive_key s.lower k then is_redacted v else is_clean v) && is_clean_fields fs

    pub is_clean_items : Items → Bool
    is_clean_items no_item = true
    is_clean_items (item v xs) = is_clean v && is_clean_items xs

  module _ (marked : has_token s "[REDACTED_TOKEN]" ≡ false) where
    without_token-clean : (t : String) → has_token s (without_token s t) ≡ false
    without_token-clean t =
        if-holds (λ u. has_token s u ≡ false) (has_token s t) "[REDACTED_TOKEN]" t (λ e. marked)
          (λ e. e)

    module _ (clean : String → String) (h : (t : String) → has_token s (clean t) ≡ false) where
      mutual
        sanitize-clean : (v : Value) → is_clean (sanitize s clean v) ≡ true
        sanitize-clean null = refl
        sanitize-clean (bool b) = refl
        sanitize-clean (num n k) = refl
        sanitize-clean (time t) = refl
        sanitize-clean (str t) = ap not (h t)
        sanitize-clean (obj fs) = sanitize_fields-clean fs
        sanitize-clean (arr xs) = sanitize_items-clean xs

        sanitize_fields-clean : (fs : Fields) → is_clean_fields (sanitize_fields s clean fs) ≡ true
        sanitize_fields-clean end = refl
        sanitize_fields-clean (field k v fs) = elim (Bool-cases (is_sensitive_key s.lower k)) [
          | inl e ↦ rw e (sanitize_fields-clean fs)
          | inr e ↦ rw e (both _ _ (sanitize-clean v) (sanitize_fields-clean fs))
        ]

        sanitize_items-clean : (xs : Items) → is_clean_items (sanitize_items s clean xs) ≡ true
        sanitize_items-clean no_item = refl
        sanitize_items-clean (item v xs) = both _ _ (sanitize-clean v) (sanitize_items-clean xs)

    pub redact_payload-clean :
        (payload : Fields) (pii_policy : String)
        → contains pii_policy ("allow" ∷ "redact" ∷ "block" ∷ []) ≡ true
        → is_clean_fields (redact_payload s payload pii_policy) ≡ true
    unfolding redact_payload
    redact_payload-clean payload pii_policy known = ground (
      arith,
      eq_iff pii_policy "allow",
      eq_iff "allow" pii_policy,
      eq_iff pii_policy "redact",
      eq_iff "redact" pii_policy,
      eq_iff pii_policy "block",
      eq_iff "block" pii_policy,
      sanitize_fields-clean (without_token s) without_token-clean payload,
      sanitize_fields-clean (λ (t : String). without_token s (without_pii s t))
          (λ t. without_token-clean (without_pii s t)) payload,
    )

    pub redact_text-clean :
        (text pii_policy : String) → has_token s (redact_text s text pii_policy) ≡ false
    unfolding redact_text
    redact_text-clean text pii_policy =
        if-holds (λ (t : String). has_token s t ≡ false) (pii_policy == "allow") _ _
          (λ e. without_token-clean text) (λ e. without_token-clean (without_pii s text))

-- What people do: they approve or deny, call back, and resume.
abbrev pub is_user_action : EventType → Bool
is_user_action EventType.approval_granted = true
is_user_action EventType.approval_denied = true
is_user_action EventType.webhook_callback_received = true
is_user_action EventType.run_resumed = true
is_user_action EventType.step_resumed = true
is_user_action _ = false

-- The draft names the user of the emitter exactly for such an event.
abbrev pub Attributes : Option String → Draft → Type 0
Attributes user d =
    resolved_user_id d.actor d.actor_user_id user
    ≡ (if is_user_action d.event_type then user else none)

execution_draft-Attributes :
    (user : Option String) (mode : PlannerMode) (c : ExecutionCall)
    → Attributes user (execution_draft mode c)
unfolding execution_draft
execution_draft-Attributes user mode (run_completed kwargs) = refl
execution_draft-Attributes user PlannerMode.agentic _ = refl
execution_draft-Attributes user PlannerMode.deterministic _ = refl

policy_draft-Attributes :
    (user : Option String) (formats : Formats) (c : PolicyCall)
    → Attributes user (policy_draft formats c)
unfolding policy_draft
policy_draft-Attributes user formats (policy_blocked step_id tool_name reason kwargs) = refl
policy_draft-Attributes user formats _ = refl

agent_draft-Attributes : (user : Option String) (c : AgentCall) → Attributes user (agent_draft c)
unfolding agent_draft
agent_draft-Attributes user (replan_succeeded step_id attempt kwargs) = refl
agent_draft-Attributes user _ = refl

gate_draft-Attributes : (user : Option String) (c : GateCall) → Attributes user (gate_draft c)
unfolding gate_draft
gate_draft-Attributes user (run_resumed resume_source kwargs) = refl
gate_draft-Attributes user _ = refl

outcome_draft-Attributes :
    (user : Option String) (formats : Formats) (c : OutcomeCall)
    → Attributes user (outcome_draft formats c)
unfolding outcome_draft
outcome_draft-Attributes user formats (artifact_created step_id id name content_type kwargs) = refl
outcome_draft-Attributes user formats _ = refl

pub draft_of-Attributes :
    (user : Option String) (formats : Formats) (e : EventEmitter) (c : Call)
    → Attributes user (draft_of formats e c)
unfolding draft_of
draft_of-Attributes user formats e (execution c) = execution_draft-Attributes user e.planner_mode c
draft_of-Attributes user formats e (policy c) = policy_draft-Attributes user formats c
draft_of-Attributes user formats e (agent c) = agent_draft-Attributes user c
draft_of-Attributes user formats e (gate c) = gate_draft-Attributes user c
draft_of-Attributes user formats e (outcome c) = outcome_draft-Attributes user formats c
