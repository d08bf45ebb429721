-- ===== src/Audit/Emitter/Tests.antt =====
-- Events of a resumed run, and the theorem there.
use saz.Prelude.{◌+◌, String, ◌≡◌, refl, false, Option, none, some, List, [], ◌∷◌, ◌++◌, map, All}
use saz.Prelude.Int.{pos}
use saz.Prelude.Json.{str, num, obj, Fields, field, end}
use saz.Prelude.Texts.{decimal}
use saz.Redaction.{is_sensitive_key}
use saz.Audit.{Subscription, deliver}
use saz.Audit.Events.{PlannerMode, AuditEvent}
use saz.Audit.EventRepository.{max_seq}
use saz.Audit.Sanitizer.{Sanitizer, redact_payload, redact_text}
use saz.Audit.Calls.{Formats, usage_recorded, run_failed}
use saz.Audit.Reviews.{approval_denied}
use saz.Audit.Emitter.{
  EventEmitter, Stamp, Call, execution, policy, gate, announce, commit_and_broadcast,
}
use saz.Audit.Emitter.Stored.{IsRecorded, told, id_of, count_from, emitted_lem}

abbrev same : String → String
same s = s

abbrev sanitizer : Sanitizer
sanitizer = record {
  lower = same;
  email_sub = same;
  ssn_sub = same;
  card_sub = same;
  ip_sub = same;
  phone_sub = same;
}

abbrev emitter : EventEmitter
emitter = record {
  run_id = "r";
  planner_mode = PlannerMode.deterministic;
  sanitizer = sanitizer;
  pii_policy = "redact";
  actor_user_id = some "ann";
}

abbrev formats : Formats
formats = record { grouped = decimal; fixed = λ n v. "0.0000"; plain = λ v. "0" }

abbrev calls : List (Stamp × Call)
calls =
    (
      record { id = "e1"; now = 5 },
      gate (
          approval_denied none "deploy" "token=abc"
            (field "headers" (obj (field "auth_token" (str "x") end)) end)),
    )
    ∷ (record { id = "e2"; now = 6 }, execution (run_failed "denied" "Denied" end))
    ∷ []

abbrev subscription : Subscription
subscription = record { run_id = "r"; maxsize = 1; queue = []; dropped = false }

-- The reason and the token do not come through; only the first event has a user.
payloads :
    map {B = Option String × Fields}
      (λ (event : AuditEvent). (event.actor_user_id, event.payload))
      (announce formats emitter calls [])
    ≡ (
      some "ann",
      field "step_name" (str "deploy") (
          field "reason"
            (str "[REDACTED_TOKEN]")
            (field "headers" (obj (field "auth_token" (str "[REDACTED]") end)) end)),
    )
      ∷ (none, field "error" (str "denied") (field "error_type" (str "Denied") end))
      ∷ []
unfolding announce redact_payload redact_text is_sensitive_key
payloads = refl

-- What the budget is counted by comes through.
usage :
    map
      (λ (event : AuditEvent). event.payload)
      (announce formats emitter
        ((record { id = "e3"; now = 7 }, policy (usage_recorded none 12 (num (pos 3) 2) 0 "m" end))
          ∷ [])
        [])
    ≡ field "tokens" (num (pos 12) 0) (
        field "cost_usd"
          (num (pos 3) 2)
          (field "duration_ms" (num (pos 0) 0) (field "model" (str "m") end)))
      ∷ []
unfolding announce redact_payload redact_text is_sensitive_key decimal
usage = refl

emitted_lem_example :
    (recorded : List AuditEvent) × (commit_and_broadcast []
        (announce formats emitter calls [])
        (subscription ∷ [])
      ≡ ([] ++ recorded, [], map (deliver (map (told emitter) calls)) (subscription ∷ [])))
    × (map (λ event. event.id) recorded ≡ map id_of calls)
    × (map (λ event. event.seq) recorded ≡ count_from (max_seq [] "r" + 1) calls)
    × All (IsRecorded emitter) recorded
emitted_lem_example = emitted_lem formats emitter calls [] (subscription ∷ []) refl refl
