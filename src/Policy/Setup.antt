-- ===== src/Policy/Setup.antt =====
-- `PolicyEngine.initialize_from_dsl` of backend/saz/policies/policy_engine.py: the limits of a run
-- from the policies of its flow. Logging is left out.
pub mod Limits
pub mod Compiled
mod Tests
use saz.Prelude.{
  ℕ, zero, suc, ◌^◌, String, Bool, true, false, not, Option, none, some, List, [], ◌∷◌, Map, empty,
  insert, ◌==◌, string_eq, if◌then◌else◌, Result, ok, err, ◌>>=◌, ◌>>◌,
}
use saz.Prelude.Int.{ℤ, pos}
use saz.Prelude.Json.{
  Value, null, bool, str, num, obj, arr, Fields, end, field, Items, no_item, item, lookup, assign,
  merge, truthy,
}
use saz.Prelude.Floats.{Floats}
use saz.Compiler.{Library, as_int, texts}
use saz.Policy.RateLimiter.{RateLimiter}
use saz.Policy.Budget.{BudgetTracker, initialize_run}
use saz.Policy.Engine.{PolicyEngine}

-- An exception of Python's. The values that are stored as they are have to be of the type that their
-- readers expect here already: a number as the budget, lists of texts as paths.
pub data Unreadable : Type 0 where
  not_object not_int not_number not_paths : Unreadable

-- The limits of calls as the loop collects them. No limit per tool is told from an empty dict.
pub record Rates : Type 0 where
  pub per_minute : Option ℤ
  pub per_hour : Option ℤ
  pub per_tool : Option (Map ℤ)

-- `d.get(k, {})` where the result is asked for its keys
abbrev pub object_of : Option Value → Result Unreadable Fields
object_of none = ok end
object_of (some (obj d)) = ok d
object_of (some _) = err not_object

-- `isinstance(v, int)`, which a truth value is too
abbrev pub as_instance : Value → Option ℤ
as_instance (num n zero) = some n
as_instance (bool true) = some (pos 1)
as_instance (bool false) = some (pos 0)
as_instance _ = none

abbrev pub int_or_raise : Option ℤ → Result Unreadable ℤ
int_or_raise none = err not_int
int_or_raise (some n) = ok n

abbrev pub map_or_empty : Option (Map ℤ) → Map ℤ
map_or_empty none = empty
map_or_empty (some m) = m

abbrev pub add_tool : Library → String → Option Value → Rates → Result Unreadable Rates
add_tool lib key none r = ok r
add_tool lib key (some rpm) r = do
  n ← int_or_raise (as_int lib rpm)
  ok (record r { per_tool = some (insert key n (map_or_empty r.per_tool)) })

abbrev pub add_object : Library → String → Value → Rates → Result Unreadable Rates
add_object lib key (obj d) r = add_tool lib key (lookup "rpm" d) r
add_object lib key _ r = ok r

-- The legacy keys hold where they have an integer.
abbrev pub add_rate_by : Library → String → Value → Option ℤ → Rates → Result Unreadable Rates
add_rate_by lib key v none r = add_object lib key v r
add_rate_by lib key v (some n) r =
    if key == "calls_per_minute"
    then ok (record r { per_minute = some n })
    else if key == "calls_per_hour"
    then ok (record r { per_hour = some n })
    else add_object lib key v r

abbrev pub add_rate : Library → String → Value → Rates → Result Unreadable Rates
add_rate lib key v r = add_rate_by lib key v (as_instance v) r

unfoldable pub rates_from : Library → Fields → Rates → Result Unreadable Rates
rates_from lib end r = ok r
rates_from lib (field key v d) r = add_rate lib key v r >>= λ r'. rates_from lib d r'

abbrev pub no_rates : Rates
no_rates = record { per_minute = none; per_hour = none; per_tool = none }

-- `isinstance(rate_limits, dict)`
abbrev pub read_rates : Library → Option Value → Result Unreadable Rates
read_rates lib (some (obj d)) = rates_from lib d no_rates
read_rates lib _ = ok no_rates

abbrev pub or_keep {ℓ} : {A : Type ℓ} → A → Option A → A
or_keep old none = old
or_keep old (some new) = new

-- `int(v)` where `v is not None`, and what was there otherwise
abbrev pub new_limit : Library → ℤ → Option Value → Result Unreadable ℤ
new_limit lib old none = ok old
new_limit lib old (some null) = ok old
new_limit lib old (some v) = int_or_raise (as_int lib v)

-- `bool(v)` of an entry with a default
abbrev pub flag : Bool → Option Value → Bool
flag default none = default
flag default (some v) = truthy v

abbrev pub read_replans : Library → Option Value → Result Unreadable ℤ
read_replans lib none = ok (pos 3)
read_replans lib (some v) = int_or_raise (as_int lib v)

abbrev pub default_allow_lists : Fields
default_allow_lists =
    field "email_send"
      (arr (item (str "to") (item (str "from") (item (str "subject") (item (str "body") no_item)))))
      (field "http_request" (arr (item (str "headers.Authorization") no_item)) end)

abbrev pub paths_or_raise : Option (List String) → Result Unreadable (List String)
paths_or_raise none = err not_paths
paths_or_raise (some paths) = ok paths

abbrev pub list_of : Option Value → Result Unreadable (List String)
list_of none = ok []
list_of (some (arr xs)) = paths_or_raise (texts xs)
list_of (some _) = err not_paths

-- A list of paths, or an object with one under `allow`
abbrev pub paths_of : Value → Result Unreadable (List String)
paths_of (obj d) = list_of (lookup "allow" d)
paths_of v = list_of (some v)

unfoldable pub allow_lists : Fields → Result Unreadable (Map (List String))
allow_lists end = ok empty
allow_lists (field tool v d) = do
  paths ← paths_of v
  rest ← allow_lists d
  ok (insert tool paths rest)

module _ (F : Floats) (of_decimal : ℤ → ℕ → F.Float) (lib : Library) where
  -- A number as the budget; `None` keeps what was there
  abbrev pub new_cost : F.Float → Option Value → Result Unreadable F.Float
  new_cost old none = ok old
  new_cost old (some null) = ok old
  new_cost old (some (num n k)) = ok (of_decimal n k)
  new_cost old (some _) = err not_number

  abbrev pub with_rates : Rates → RateLimiter → RateLimiter
  with_rates r limiter = record limiter {
    calls_per_minute = or_keep limiter.calls_per_minute r.per_minute;
    calls_per_hour = or_keep limiter.calls_per_hour r.per_hour;
    per_tool_rpm = or_keep limiter.per_tool_rpm r.per_tool;
  }

  -- The part behind the reading of the limits: what the exceptions and the settings of personal data
  -- make of the engine.
  abbrev pub set_up :
      ℕ
      → String
      → PolicyEngine F
      → BudgetTracker F
      → Rates
      → Fields
      → ℤ
      → Result Unreadable (PolicyEngine F)
  set_up now run_id e tracker rates pii replans = do
    exceptions ← object_of (lookup "exceptions" pii)
    tools ← object_of (lookup "tools" exceptions)
    lists ← allow_lists (merge default_allow_lists tools)
    ok (record e {
      rate_limiter = with_rates rates e.rate_limiter;
      budget_tracker = initialize_run F now run_id tracker;
      enforce_pii_redaction = not (flag false (lookup "allow" pii));
      tokenize_model_inputs = flag true (lookup "tokenize_model_inputs" pii);
      pii_allow_lists = lists;
      max_replan_attempts = replans;
    })

  -- The entries are read in the order of the source. An exception leaves an engine that no run uses.
  unfoldable pub initialize_from_dsl :
      ℕ → String → Fields → PolicyEngine F → Result Unreadable (PolicyEngine F)
  unfolding initialize_run rates_from allow_lists
  initialize_from_dsl now run_id d e = do
    max_cost_usd ← new_cost e.budget_tracker.max_cost_usd (lookup "budget_usd" d)
    max_tokens ← new_limit lib e.budget_tracker.max_tokens (lookup "max_tokens" d)
    max_steps ← new_limit lib e.budget_tracker.max_steps (lookup "max_steps" d)
    max_time_seconds ← new_limit lib e.budget_tracker.max_time_seconds (lookup "max_time_seconds" d)
    rates ← read_rates lib (lookup "rate_limits" d)
    pii ← object_of (lookup "pii" d)
    replans ← read_replans lib (lookup "max_replan_attempts" d)
    let tracker = record e.budget_tracker {
      max_cost_usd = max_cost_usd;
      max_tokens = max_tokens;
      max_steps = max_steps;
      max_time_seconds = max_time_seconds;
    }
    set_up now run_id e tracker rates pii replans
