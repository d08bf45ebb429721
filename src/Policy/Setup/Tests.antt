-- ===== src/Policy/Setup/Tests.antt =====
-- Limits of runs from policies.
use saz.Prelude.{ℕ, ◌*◌, ◌/◌, ◌^◌, true, ◌≡◌, refl, some, [], ◌∷◌, empty, Result, ok, err}
use saz.Prelude.Int.{ℤ, pos, pos_part}
use saz.Prelude.Json.{str, num, obj, arr, Fields, end, field, no_item, item}
use saz.Prelude.Floats.{millionths}
use saz.Compiler.Tests.{library}
use saz.Compiler.Policies.{duplicate_credentials, compile_policies, compile_credentials}
use saz.Policy.Engine.{PolicyEngine}
use saz.Policy.Setup.{initialize_from_dsl}
use saz.Policy.Setup.Compiled.{initialize-compiled}

abbrev of_decimal : ℤ → ℕ → ℕ
of_decimal n k = pos_part n * 1000000 / 10 ^ k

abbrev fresh_engine : PolicyEngine millionths
fresh_engine = record {
  rate_limiter = record {
    calls_per_minute = pos 10;
    calls_per_hour = pos 100;
    per_tool_rpm = empty;
    minute_buckets = λ k. [];
    hour_buckets = λ k. [];
  };
  budget_tracker = record {
    max_tokens = pos 100000;
    max_cost_usd = 10000000;
    max_steps = pos 50;
    max_time_seconds = pos 3600;
    budgets = empty;
  };
  enforce_pii_redaction = true;
  tokenize_model_inputs = true;
  pii_allow_lists = empty;
  max_replan_attempts = pos 3;
}

abbrev policies : Fields
policies = field "max_tokens" (num (pos 500) 0) (
    field "rate_limits" (obj (field "http_request" (obj (field "rpm" (num (pos 2) 0) end)) end)) (
      field "pii"
        (obj (
          field "exceptions"
            (obj (
              field "tools"
                (obj (
                  field "email_send" (obj (field "allow" (arr (item (str "to") no_item)) end)) end))
                end))
            end))
        end))

abbrev value_of {ℓ κ} : {E : Type ℓ} {A : Type κ} → A → Result E A → A
value_of a (ok b) = b
value_of a (err e) = a

abbrev compiled : Fields
unfolding compile_policies
compiled = value_of end (compile_policies library policies)

abbrev initialized : PolicyEngine millionths
unfolding initialize_from_dsl
initialized =
    value_of fresh_engine
      (initialize_from_dsl millionths of_decimal library 7 "run" policies fresh_engine)

policies_compile : compile_policies library policies ≡ ok compiled
unfolding compile_policies compiled
policies_compile = refl

policies_initialize :
    initialize_from_dsl millionths of_decimal library 7 "run" policies fresh_engine ≡ ok initialized
unfolding initialize_from_dsl initialized
policies_initialize = refl

limits_read : initialized.budget_tracker.max_tokens ≡ pos 500
unfolding initialized
limits_read = refl

tool_limit : initialized.rate_limiter.per_tool_rpm "http_request" ≡ some (pos 2)
unfolding initialized
tool_limit = refl

paths_read : initialized.pii_allow_lists "email_send" ≡ some ("to" ∷ [])
unfolding initialized
paths_read = refl

twice :
    compile_credentials
      (some (obj (field "uses" (arr (item (str "a") (item (str "a") no_item))) end)))
    ≡ err duplicate_credentials
unfolding compile_credentials
twice = refl

initialize-compiled_example :
    initialize_from_dsl millionths of_decimal library 7 "run" compiled fresh_engine ≡ ok initialized
initialize-compiled_example =
    initialize-compiled millionths of_decimal library 7 "run" policies compiled fresh_engine
      initialized refl policies_compile policies_initialize
