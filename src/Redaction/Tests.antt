-- ===== src/Redaction/Tests.antt =====
-- Values with secrets in them, and the theorem there.
use saz.Prelude.{String, ◌≡◌, refl, true, List, [], ◌∷◌}
use saz.Prelude.Json.{Value, null, str, obj, arr, end, field, no_item, item}
use saz.Redaction.{prepared, is_sensitive_key, redact_sensitive, redact_secret_values}
use saz.Redaction.Clean.{is_clean, redact_sensitive-clean, redact_secret_values-clean}

abbrev same : String → String
same s = s

abbrev secrets : List String
secrets = "hunter" ∷ "abc" ∷ "hunter22" ∷ []

abbrev value : Value
value = obj (
    field "db-password" (str "x")
      (field "tokens" (arr (item (str "my hunter22, hunter") no_item)) (field "hunter" null end)))

sorted : prepared secrets ≡ "hunter22" ∷ "hunter" ∷ []
sorted = refl

-- The name of the last entry is kept.
redacted_value :
    redact_sensitive same secrets value
    ≡ obj (
        field "db-password" (str "***REDACTED***") (
          field "tokens"
            (arr (item (str "my ***REDACTED***, ***REDACTED***") no_item))
            (field "hunter" null end)))
unfolding redact_sensitive is_sensitive_key
redacted_value = refl

redact_sensitive-clean_example :
    is_clean (prepared secrets) (redact_sensitive same secrets value) ≡ true
redact_sensitive-clean_example = redact_sensitive-clean same secrets value refl

redact_secret_values-clean_example :
    is_clean (prepared secrets) (redact_secret_values secrets value) ≡ true
redact_secret_values-clean_example = redact_secret_values-clean secrets value refl
