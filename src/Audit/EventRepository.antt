-- ===== src/Audit/EventRepository.antt =====
-- backend/saz/repositories/write/event_repository.py: events get a number within their run when they
-- are stored.
use saz.Prelude.{
  ℕ, ◌+◌, String, ◌&&◌, Option, none, some, List, [], ◌∷◌, ◌++◌, ltb, ◌==◌, string_eq,
  if◌then◌else◌, Map, empty, insert, get_or,
}
use saz.Audit.Events.{AuditEvent}

abbrev pub seq_or_zero : Option ℕ → ℕ
seq_or_zero none = 0
seq_or_zero (some n) = n

-- `_max_seq`, 0 if there is none
unfoldable pub max_seq : List AuditEvent → String → ℕ
max_seq [] run_id = 0
max_seq (event ∷ stored) run_id =
    let rest = max_seq stored run_id in
    if event.run_id == run_id && ltb rest (seq_or_zero event.seq)
    then seq_or_zero event.seq
    else rest

-- An event that has a number keeps it.
abbrev pub numbered : Option ℕ → ℕ → AuditEvent → AuditEvent
numbered (some n) next_seq event = event
numbered none next_seq event = record event { seq = some next_seq }

abbrev pub advanced : Option ℕ → String → ℕ → Map ℕ → Map ℕ
advanced (some n) run_id number next_seq = next_seq
advanced none run_id number next_seq = insert run_id (number + 1) next_seq

-- The loop of `add_batch`, with `next_seq`
unfoldable pub number_each : List AuditEvent → Map ℕ → List AuditEvent → List AuditEvent
number_each stored next_seq [] = []
number_each stored next_seq (event ∷ events) =
    let number = get_or next_seq event.run_id (max_seq stored event.run_id + 1) in
    numbered event.seq number event
    ∷ number_each stored (advanced event.seq event.run_id number next_seq) events

unfoldable pub add_batch : List AuditEvent → List AuditEvent → List AuditEvent
unfolding number_each
add_batch events stored = stored ++ number_each stored empty events
