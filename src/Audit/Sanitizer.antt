-- ===== src/Audit/Sanitizer.antt =====
-- backend/saz/audit/sanitizer.py: what stands under the names of secrets, the texts that hold a
-- token, and the patterns of personal data are taken out of an event. `str.lower` and `sub` of the
-- patterns are parameters. The texts of instants are taken to match no pattern.
use saz.Prelude.{String, Bool, List, [], ◌∷◌, any, ◌==◌, string_eq, ◌||◌, if◌then◌else◌}
use saz.Prelude.Json.{
  Value, null, bool, str, num, time, obj, arr, Fields, end, field, Items, no_item, item,
}
use saz.Redaction.{occurs, is_sensitive_key}

pub record Sanitizer : Type 0 where
  pub lower : String → String
  pub email_sub : String → String
  pub ssn_sub : String → String
  pub card_sub : String → String
  pub ip_sub : String → String
  pub phone_sub : String → String

abbrev pub token_marks : List String
token_marks = "bearer " ∷ "token=" ∷ "api_key=" ∷ "secret=" ∷ []

module _ (s : Sanitizer) where
  abbrev pub has_token : String → Bool
  has_token text = any (λ mark. occurs mark (s.lower text)) token_marks

  abbrev pub without_token : String → String
  without_token text = if has_token text then "[REDACTED_TOKEN]" else text

  abbrev pub without_pii : String → String
  without_pii text = s.phone_sub (s.ip_sub (s.card_sub (s.ssn_sub (s.email_sub text))))

  -- The walk that `_redact_secrets` and `_redact_all` share, with what they do to a text.
  abbrev mutual
    pub sanitize : (String → String) → Value → Value
    sanitize clean null = null
    sanitize clean (bool b) = bool b
    sanitize clean (num n k) = num n k
    sanitize clean (time t) = time t
    sanitize clean (str text) = str (clean text)
    sanitize clean (obj fs) = obj (sanitize_fields clean fs)
    sanitize clean (arr xs) = arr (sanitize_items clean xs)

    pub sanitize_fields : (String → String) → Fields → Fields
    sanitize_fields clean end = end
    sanitize_fields clean (field k v fs) =
        field k (if is_sensitive_key s.lower k then str "[REDACTED]" else sanitize clean v)
          (sanitize_fields clean fs)

    pub sanitize_items : (String → String) → Items → Items
    sanitize_items clean no_item = no_item
    sanitize_items clean (item v xs) = item (sanitize clean v) (sanitize_items clean xs)

  unfoldable pub redact_secrets : Fields → Fields
  redact_secrets event_data = sanitize_fields without_token event_data

  unfoldable pub redact_all : Fields → Fields
  redact_all event_data = sanitize_fields (λ text. without_token (without_pii text)) event_data

  -- An event under an unknown policy is left as it is.
  unfoldable pub redact_payload : Fields → String → Fields
  unfolding redact_secrets redact_all
  redact_payload event_data pii_policy =
      if pii_policy == "allow"
      then redact_secrets event_data
      else if pii_policy == "redact" || pii_policy == "block"
      then redact_all event_data
      else event_data

  unfoldable pub redact_text : String → String → String
  redact_text text pii_policy =
      if pii_policy == "allow" then without_token text else without_token (without_pii text)
