-- ===== src/Policy/Engine/Check.antt =====
-- When `check_tool_call` of backend/saz/policies/policy_engine.py lets a call pass.
use saz.Prelude.{
  ℕ, String, ◌≡◌, refl, Bool, true, false, not, ◌&&◌, ◌||◌, Option, none, some, List, [], ◌∷◌, all,
  ◌↔◌, arith, Bool-cases, inl, inr, if◌then◌else◌,
}
use saz.Prelude.Json.{Value, Fields}
use saz.Prelude.Floats.{Floats}
use saz.Policy.RateLimiter.{Decision, allowed, minute_exceeded, hour_exceeded, check_and_record}
use saz.Policy.Budget.{check_budget, Exceeded}
use saz.Policy.Pii.{scan_dict, path_matches_allowed, disallowed_pii_paths}
use saz.Policy.Engine.{
  PolicyEngine, Blocked, refusal, allowed_paths, check_pii, after_budget, after_rate,
  check_tool_call, is_model_tool, is_outbound_tool,
}

-- Personal data may go to a model, which is given tokens for it, and to a tool that is not outbound
-- if the run does not redact; else each path that holds it is on the tool's allow-list.
abbrev pub pii_permitted : (F : Floats) → (Value → Bool) → PolicyEngine F → String → Fields → Bool
pii_permitted F detects e tool arguments =
    is_model_tool tool
    || (not (is_outbound_tool tool) && not e.enforce_pii_redaction)
    || all (λ p. path_matches_allowed p (allowed_paths F detects e tool))
        (scan_dict detects arguments)

module _ (F : Floats) where
  refusal-none :
      (paths listed : List String)
      → (refusal F (disallowed_pii_paths paths listed) ≡ none)
        ↔ (all (λ p. path_matches_allowed p listed) paths ≡ true)
  unfolding disallowed_pii_paths
  refusal-none [] listed = ground arith
  refusal-none (p ∷ paths) listed = elim (Bool-cases (path_matches_allowed p listed)) [
    | inl e ↦ rw (e) (refusal-none paths listed)
    | inr e ↦ ground (arith, e)
  ]

  -- The three tests of a call's arguments, by their values.
  by_tests :
      (model outbound enforced every : Bool) (r : Option (Blocked F))
      → (r ≡ none) ↔ (every ≡ true)
      → ((if model then none else if outbound || enforced then r else none) ≡ none)
        ↔ ((model || (not outbound && not enforced) || every) ≡ true)
  by_tests true outbound enforced every r h = ground arith
  by_tests false true enforced every r h = h
  by_tests false false true every r h = h
  by_tests false false false every r h = ground arith

  check_pii-none :
      (detects : Value → Bool) (e : PolicyEngine F) (tool : String) (arguments : Fields)
      → (check_pii F detects e tool arguments ≡ none)
        ↔ (pii_permitted F detects e tool arguments ≡ true)
  unfolding check_pii
  check_pii-none detects e tool arguments =
      by_tests (is_model_tool tool) (is_outbound_tool tool) e.enforce_pii_redaction _ _
        (refusal-none (scan_dict detects arguments) (allowed_paths F detects e tool))

  after_budget-none :
      (detects : Value → Bool) (e : PolicyEngine F) (tool : String) (arguments : Fields)
      (o : Option (Exceeded F))
      → (after_budget F detects e tool arguments o ≡ none)
        ↔ ((o ≡ none) × (pii_permitted F detects e tool arguments ≡ true))
  after_budget-none detects e tool arguments none =
      let same = check_pii-none detects e tool arguments in (λ h. (refl, same.0 h), λ h. same.1 h.1)
  after_budget-none detects e tool arguments (some why) = (λ h. cc, λ h. cc)

  after_rate-none :
      (detects : Value → Bool) (now : ℕ) (e : PolicyEngine F) (tool : String) (arguments : Fields)
      (run_id : String) (d : Decision)
      → ((after_rate F detects now e tool arguments run_id d).1 ≡ none) ↔ (
          (d ≡ allowed)
          × ((check_budget F now run_id e.budget_tracker).1 ≡ none)
          × (pii_permitted F detects e tool arguments ≡ true))
  after_rate-none detects now e tool arguments run_id allowed =
      let same =
        after_budget-none detects e tool arguments (check_budget F now run_id e.budget_tracker).1 in
      (λ h. (refl, (same.0 h).0, (same.0 h).1), λ h. same.1 (h.1, h.2))
  after_rate-none detects now e tool arguments run_id (minute_exceeded t n) = (λ h. cc, λ h. cc)
  after_rate-none detects now e tool arguments run_id (hour_exceeded n) = (λ h. cc, λ h. cc)

  -- A call passes the check exactly when the rate limiter allows it, the run is within its budget,
  -- and every path of its arguments that holds personal data is permitted.
  pub passes_iff :
      (detects : Value → Bool) (now : ℕ) (e : PolicyEngine F) (tool : String) (arguments : Fields)
      (run_id : String)
      → ((check_tool_call F detects now e tool arguments run_id).1 ≡ none) ↔ (
          ((check_and_record now tool run_id e.rate_limiter).1 ≡ allowed)
          × ((check_budget F now run_id e.budget_tracker).1 ≡ none)
          × (pii_permitted F detects e tool arguments ≡ true))
  unfolding check_tool_call
  passes_iff detects now e tool arguments run_id =
      after_rate-none detects now
        (record e { rate_limiter = (check_and_record now tool run_id e.rate_limiter).0 }) tool
        arguments run_id (check_and_record now tool run_id e.rate_limiter).1
