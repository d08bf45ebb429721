-- ===== src/Policy/Engine/Tests.antt =====
-- A call to a tool that sends a mail address, which the allow-list does not hold, and the theorem
-- there.
use saz.Prelude.{
  ◌≡◌, refl, Bool, true, false, none, [], ◌∷◌, empty, ◌==◌, string_eq, nat_eq, ◌↔◌, insert,
}
use saz.Prelude.Int.{pos}
use saz.Prelude.Json.{Value, str, Fields, end, field}
use saz.Prelude.Floats.{millionths}
use saz.Policy.RateLimiter.{allowed, check_and_record}
use saz.Policy.Budget.{check_budget}
use saz.Policy.Pii.{scan_dict, path_matches_allowed}
use saz.Policy.Engine.{PolicyEngine, check_tool_call}
use saz.Policy.Engine.Check.{pii_permitted, passes_iff}

abbrev is_mail : Value → Bool
is_mail (str s) = s == "a@b.c"
is_mail _ = false

abbrev engine : PolicyEngine millionths
engine = record {
  rate_limiter = record {
    calls_per_minute = pos 10;
    calls_per_hour = pos 100;
    per_tool_rpm = empty;
    minute_buckets = λ t. [];
    hour_buckets = λ t. [];
  };
  budget_tracker = record {
    max_tokens = pos 100;
    max_cost_usd = 5000000;
    max_steps = pos 10;
    max_time_seconds = pos 3600;
    budgets = empty;
  };
  enforce_pii_redaction = true;
  tokenize_model_inputs = true;
  pii_allow_lists = insert "http_request" ("json.to" ∷ []) empty;
  max_replan_attempts = pos 1;
}

abbrev arguments : Fields
arguments = field "url" (str "u") (field "body" (str "a@b.c") end)

mail_not_permitted : pii_permitted millionths is_mail engine "http_request" arguments ≡ false
unfolding scan_dict path_matches_allowed
mail_not_permitted = refl

passes_iff_example :
    ((check_tool_call millionths is_mail 7 engine "http_request" arguments "r1").1 ≡ none) ↔ (
      ((check_and_record 7 "http_request" "r1" engine.rate_limiter).1 ≡ allowed)
      × ((check_budget millionths 7 "r1" engine.budget_tracker).1 ≡ none)
      × (pii_permitted millionths is_mail engine "http_request" arguments ≡ true))
passes_iff_example = passes_iff millionths is_mail 7 engine "http_request" arguments "r1"
