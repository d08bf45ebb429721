-- ===== src/Audit/Emitter/Stored.antt =====
-- What calls of `EventEmitter` of backend/saz/audit/event_emitter.py leave in the audit log, and what
-- its clients are sent.
use saz.Prelude.{
  Map, empty, insert, get_or, text_refl, ℕ, ◌+◌, String, ◌≡◌, refl, sym, ap, ◌∙◌, Bool, true, false,
  Option, none, some, List, [], ◌∷◌, ◌++◌, map, All, contains, string_eq, if◌then◌else◌,
}
use saz.Audit.{BusEvent, Subscription, deliver}
use saz.Audit.Lossless.{publish-each}
use saz.Audit.Events.{AuditEvent}
use saz.Audit.EventRepository.{max_seq, number_each, add_batch}
use saz.Audit.Sanitizer.{has_token}
use saz.Audit.Calls.{Formats}
use saz.Audit.Emitter.{
  EventEmitter, Stamp, Call, event_of, emit, draft_of, announce, on_bus, commit_and_broadcast,
}
use saz.Audit.Emitter.Recorded.{
  is_clean_fields, is_user_action, redact_payload-clean, redact_text-clean, draft_of-Attributes,
}

-- An event of the emitter's run that holds no token, with the emitter's user if a user acted.
pub record IsRecorded (e : EventEmitter) (event : AuditEvent) : Type 0 where
  pub of_run : event.run_id ≡ e.run_id
  pub of_mode : event.planner_mode ≡ e.planner_mode
  pub attributed :
      event.actor_user_id ≡ (if is_user_action event.event_type then e.actor_user_id else none)
  pub summary_clean : has_token e.sanitizer event.summary ≡ false
  pub payload_clean : is_clean_fields e.sanitizer event.payload ≡ true

module _ {ℓ} {A : Type ℓ} where
  append-one : (xs : List A) (y : A) (zs : List A) → (xs ++ y ∷ []) ++ zs ≡ xs ++ y ∷ zs
  append-one [] y zs = refl
  append-one (x ∷ xs) y zs = ap (◌∷◌ x) (append-one xs y zs)

  append-nil : (xs : List A) → xs ++ [] ≡ xs
  append-nil [] = refl
  append-nil (x ∷ xs) = ap (◌∷◌ x) (append-nil xs)

  All-append : (P : A → Type 0) (xs ys : List A) → All P xs → All P ys → All P (xs ++ ys)
  All-append P [] ys h k = k
  All-append P (x ∷ xs) ys h k = (h.0, All-append P xs ys h.1 k)

module _ (formats : Formats) (e : EventEmitter) where
  new_events : List (Stamp × Call) → List AuditEvent
  new_events [] = []
  new_events ((stamp, c) ∷ calls) = event_of e stamp (draft_of formats e c) ∷ new_events calls

  announce_lem :
      (calls : List (Stamp × Call)) (buffer : List AuditEvent)
      → announce formats e calls buffer ≡ buffer ++ new_events calls
  unfolding announce new_events emit
  announce_lem [] buffer = sym (append-nil buffer)
  announce_lem ((stamp, c) ∷ calls) buffer =
      announce_lem calls (buffer ++ event_of e stamp (draft_of formats e c) ∷ [])
      ∙ append-one buffer (event_of e stamp (draft_of formats e c)) (new_events calls)

-- What a client is told of the event of a call.
abbrev pub told : EventEmitter → Stamp × Call → BusEvent
told e call = record { id = call.0.id; run_id = e.run_id }

abbrev pub id_of : Stamp × Call → String
id_of call = call.0.id

module _ (formats : Formats) (e : EventEmitter) where
  new_events-told :
      (calls : List (Stamp × Call)) → map on_bus (new_events formats e calls) ≡ map (told e) calls
  unfolding new_events
  new_events-told [] = refl
  new_events-told ((stamp, c) ∷ calls) = ap (◌∷◌ (told e (stamp, c))) (new_events-told calls)

-- The numbers behind the given one, one for each call.
abbrev pub count_from {ℓ} : {A : Type ℓ} → ℕ → List A → List (Option ℕ)
count_from n [] = []
count_from n (x ∷ xs) = some n ∷ count_from (n + 1) xs

get_or-insert : (k : String) (v : ℕ) (m : Map ℕ) (d : ℕ) → get_or (insert k v m) k d ≡ v
get_or-insert k v m d =
    ap (λ (b : Bool). get_or (λ (j : String). if b then some v else m k) k d) (text_refl k)

-- The events of the calls, as they are stored.
module _ (formats : Formats) (e : EventEmitter) (stored : List AuditEvent) where
  news : Map ℕ → List (Stamp × Call) → List AuditEvent
  news next_seq calls = number_each stored next_seq (new_events formats e calls)

  -- The number that the next event of the run gets.
  upcoming : Map ℕ → ℕ
  upcoming next_seq = get_or next_seq e.run_id (max_seq stored e.run_id + 1)

  later : Map ℕ → Map ℕ
  unfolding upcoming
  later next_seq = insert e.run_id (upcoming next_seq + 1) next_seq

  upcoming-later : (next_seq : Map ℕ) → upcoming (later next_seq) ≡ upcoming next_seq + 1
  unfolding upcoming later
  upcoming-later next_seq =
      get_or-insert e.run_id (upcoming next_seq + 1) next_seq (max_seq stored e.run_id + 1)

  news-ids :
      (next_seq : Map ℕ) (calls : List (Stamp × Call))
      → map (λ (event : AuditEvent). event.id) (news next_seq calls) ≡ map id_of calls
  unfolding news number_each new_events later
  news-ids next_seq [] = refl
  news-ids next_seq ((stamp, c) ∷ calls) = ap (◌∷◌ stamp.id) (news-ids (later next_seq) calls)

  news-numbers :
      (next_seq : Map ℕ) (calls : List (Stamp × Call))
      → map (λ (event : AuditEvent). event.seq) (news next_seq calls)
        ≡ count_from (upcoming next_seq) calls
  unfolding news number_each new_events later
  news-numbers next_seq [] = refl
  news-numbers next_seq ((stamp, c) ∷ calls) =
      ap (◌∷◌ (some (upcoming next_seq))) (
        news-numbers (later next_seq) calls
        ∙ ap (λ n. count_from n calls) (upcoming-later next_seq))

  module _ (known : contains e.pii_policy ("allow" ∷ "redact" ∷ "block" ∷ []) ≡ true)
      (marked : has_token e.sanitizer "[REDACTED_TOKEN]" ≡ false) where
    news-IsRecorded :
        (next_seq : Map ℕ) (calls : List (Stamp × Call)) → All (IsRecorded e) (news next_seq calls)
    unfolding news number_each new_events later
    news-IsRecorded next_seq [] = tt
    news-IsRecorded next_seq ((stamp, c) ∷ calls) =
        let d = draft_of formats e c in
        (
          record {
            of_run = refl;
            of_mode = refl;
            attributed = draft_of-Attributes e.actor_user_id formats e c;
            summary_clean = redact_text-clean e.sanitizer marked d.summary e.pii_policy;
            payload_clean = redact_payload-clean e.sanitizer marked d.payload e.pii_policy known;
          },
          news-IsRecorded (later next_seq) calls,
        )

-- Calls of the methods, in whatever order, and then a commit leave in the log, behind what was
-- stored, one event for each call, in their order and numbered on from the highest number of the
-- run: of the emitter's run and planner, with the emitter's user exactly if a person approved,
-- denied, called back or resumed, with no mark of a token in its summary or in a text of its payload,
-- and with nothing but `[REDACTED]` under the name of a secret in the payload. The buffer is empty
-- then, and each client gets these events, as far as its queue takes them. Let the policy be one of
-- the three known ones, and let `[REDACTED_TOKEN]` hold no mark of a token.
pub emitted_lem :
    (formats : Formats) (e : EventEmitter) (calls : List (Stamp × Call)) (stored : List AuditEvent)
    (subscriptions : List Subscription)
    → contains e.pii_policy ("allow" ∷ "redact" ∷ "block" ∷ []) ≡ true
    → has_token e.sanitizer "[REDACTED_TOKEN]" ≡ false
    → let after = commit_and_broadcast stored (announce formats e calls []) subscriptions in
      (recorded : List AuditEvent) × (after
        ≡ (stored ++ recorded, [], map (deliver (map (told e) calls)) subscriptions))
      × (map (λ event. event.id) recorded ≡ map id_of calls)
      × (map (λ event. event.seq) recorded ≡ count_from (max_seq stored e.run_id + 1) calls)
      × All (IsRecorded e) recorded
unfolding commit_and_broadcast add_batch news upcoming
emitted_lem formats e calls stored subscriptions known marked =
    let fresh = new_events formats e calls in
    (
      news formats e stored empty calls,
      rw
          (
            announce_lem formats e calls [],
            publish-each (map on_bus fresh) subscriptions,
            new_events-told formats e calls,
          )
          refl,
      news-ids formats e stored empty calls,
      news-numbers formats e stored empty calls,
      news-IsRecorded formats e stored known marked empty calls,
    )
