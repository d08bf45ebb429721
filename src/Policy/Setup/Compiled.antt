-- ===== src/Policy/Setup/Compiled.antt =====
-- The policies as backend/saz/compiler/dsl.py compiles them, and as they were written: a run has
-- the same limits from both.
use saz.Prelude.{
  ℕ, String, true, false, ◌≡◌, refl, sym, ap, ◌∙◌, Option, none, some, Result, ok, ◌>>=◌, ok-inj,
  >>=-eq-ok, string_eq, arith,
}
use saz.Prelude.Int.{ℤ, pos}
use saz.Prelude.Json.{
  Value, null, bool, str, num, time, obj, arr, Fields, end, field, lookup, truthy,
}
use saz.Prelude.Floats.{Floats}
use saz.Compiler.{Library}
use saz.Compiler.Policies.{
  Unusable, not_negative, check_concurrency, check_default_retry, compile_policies, pii_output,
  int_of, or_else, budget, pii_input, object_or_empty,
}
use saz.Policy.Budget.{BudgetTracker}
use saz.Policy.Engine.{PolicyEngine}
use saz.Policy.Setup.Limits.{truncate-whole, int_of-ok, limits_lem}
use saz.Policy.Setup.{
  Unreadable, Rates, set_up, initialize_from_dsl, new_cost, new_limit, rates_from, read_rates,
  object_of, read_replans, flag,
}

pii_input_lem :
    (v : Option Value) (pii : Fields)
    → object_of v ≡ ok pii
    → pii_input v (truthy (or_else (obj end) v)) ≡ ok pii
pii_input_lem none pii h = ap ok (ok-inj {E = Unreadable} end pii h)
pii_input_lem (some (obj end)) pii h = ap ok (ok-inj {E = Unreadable} end pii h)
pii_input_lem (some (obj (field k v d))) pii h = ap ok (ok-inj {E = Unreadable} (field k v d) pii h)
pii_input_lem (some null) pii h = cc
pii_input_lem (some (bool b)) pii h = cc
pii_input_lem (some (num n k)) pii h = cc
pii_input_lem (some (str s)) pii h = cc
pii_input_lem (some (time t)) pii h = cc
pii_input_lem (some (arr xs)) pii h = cc

-- The settings of personal data after compiling.
pii_output_lem :
    (pii : Fields)
    → (flag false (lookup "allow" (pii_output pii)) ≡ flag false (lookup "allow" pii))
      × (flag true (lookup "tokenize_model_inputs" (pii_output pii))
          ≡ flag true (lookup "tokenize_model_inputs" pii))
      × (lookup "exceptions" (pii_output pii) ≡ lookup "exceptions" pii)
pii_output_lem pii = (ground arith, ground arith, ground arith)

module _ (F : Floats) (of_decimal : ℤ → ℕ → F.Float) where
  -- The budget that is written, and the default one.
  cost_lem :
      (lib : Library) (old : F.Float) (v : Option Value) (b : Value) (limit : F.Float)
      → old ≡ of_decimal (pos 100) 1
      → budget lib v ≡ ok b
      → new_cost F of_decimal lib old v ≡ ok limit
      → new_cost F of_decimal lib old (some b) ≡ ok limit
  cost_lem lib old none b limit d h r =
      ap (λ (x : Value). new_cost F of_decimal lib old (some x))
        (sym (ok-inj {E = Unusable} (num (pos 100) 1) b h))
      ∙ ap ok (sym d)
      ∙ r
  cost_lem lib old (some (num n k)) b limit d h r =
      let (u, e, e') = >>=-eq-ok (not_negative (num n k)) _ b h in
      ap (λ (x : Value). new_cost F of_decimal lib old (some x))
        (sym (ok-inj {E = Unusable} (num n k) b e'))
      ∙ r
  cost_lem lib old (some null) b limit d h r = cc
  cost_lem lib old (some (bool t)) b limit d h r = cc
  cost_lem lib old (some (str s)) b limit d h r = cc
  cost_lem lib old (some (time t)) b limit d h r = cc
  cost_lem lib old (some (obj t)) b limit d h r = cc
  cost_lem lib old (some (arr t)) b limit d h r = cc

module _ (lib : Library) where
  replans_lem :
      (v : Option Value) (n : ℤ)
      → int_of lib (or_else (num (pos 3) 0) v) ≡ ok n
      → read_replans lib (some (num n 0)) ≡ read_replans lib v
  replans_lem none n h = ap ok (truncate-whole n ∙ sym (ok-inj {E = Unusable} (pos 3) n h))
  replans_lem (some v) n h = rw (int_of-ok lib v n h, truncate-whole n) refl

  rates_lem : (v : Option Value) → read_rates lib (some (or_else (obj end) v)) ≡ read_rates lib v
  unfolding rates_from
  rates_lem none = refl
  rates_lem (some v) = refl

  -- The components of the compiled policies, each read as what it was compiled from.
  compiled_parts :
      (p c : Fields)
      → compile_policies lib p ≡ ok c
      → (b : Value) × (n : ℤ) × (pii : Fields) × (budget lib (lookup "budget_usd" p) ≡ ok b)
        × (lookup "budget_usd" c ≡ some b)
        × (int_of lib (or_else (num (pos 3) 0) (lookup "max_replan_attempts" p)) ≡ ok n)
        × (lookup "max_replan_attempts" c ≡ some (num n 0))
        × (pii_input (lookup "pii" p) (truthy (or_else (obj end) (lookup "pii" p))) ≡ ok pii)
        × (lookup "pii" c ≡ some (obj (pii_output pii)))
        × (lookup "rate_limits" c ≡ some (or_else (obj end) (lookup "rate_limits" p)))
        × ((old : ℤ)
            → (new_limit lib old (lookup "max_tokens" c)
                ≡ new_limit lib old (lookup "max_tokens" p))
              × (new_limit lib old (lookup "max_steps" c)
                  ≡ new_limit lib old (lookup "max_steps" p))
              × (new_limit lib old (lookup "max_time_seconds" c)
                  ≡ new_limit lib old (lookup "max_time_seconds" p)))
  unfolding compile_policies
  compiled_parts p c h =
      let (defaults, e1, h1) = >>=-eq-ok (object_or_empty (lookup "defaults" p)) _ c h in
      let (b, e2, h2) = >>=-eq-ok (budget lib (lookup "budget_usd" p)) _ c h1 in
      let (u, e3, h3) = >>=-eq-ok (check_concurrency lib (lookup "concurrency" p)) _ c h2 in
      let retry = or_else (obj end) (lookup "retry" defaults) in
      let (v, e4, h4) = >>=-eq-ok (check_default_retry lib retry (truthy retry)) _ c h3 in
      let (pii, e5, h5) =
        >>=-eq-ok (pii_input (lookup "pii" p) (truthy (or_else (obj end) (lookup "pii" p)))) _ c
          h4 in
      let (timeout, e6, h6) =
        >>=-eq-ok (int_of lib (or_else (num (pos 15000) 0) (lookup "timeout_ms" defaults))) _ c
          h5 in
      let (n, e7, h7) =
        >>=-eq-ok (int_of lib (or_else (num (pos 3) 0) (lookup "max_replan_attempts" p))) _ c h6 in
      let others = λ (j : String). limits_lem lib p _ c j (pos 0) h7 (refl, refl, refl) in
      (
        b,
        n,
        pii,
        e2,
        (others "budget_usd" (refl, refl, refl)).3,
        e7,
        (others "max_replan_attempts" (refl, refl, refl)).3,
        e5,
        (others "pii" (refl, refl, refl)).3,
        (others "rate_limits" (refl, refl, refl)).3,
        λ old.
            let r = limits_lem lib p _ c "pii" old h7 (refl, refl, refl) (refl, refl, refl) in
            (r.0, r.1, r.2),
      )

set_up-pii_output :
    (F : Floats) (of_decimal : ℤ → ℕ → F.Float) (lib : Library) (now : ℕ) (run_id : String)
    (e : PolicyEngine F) (tracker : BudgetTracker F) (rates : Rates) (pii : Fields) (replans : ℤ)
    → set_up F of_decimal lib now run_id e tracker rates (pii_output pii) replans
      ≡ set_up F of_decimal lib now run_id e tracker rates pii replans
set_up-pii_output F of_decimal lib now run_id e tracker rates pii replans =
    let (allow, tokenize, exceptions) = pii_output_lem pii in rw (exceptions, allow, tokenize) refl

-- An engine whose budget is the default one, of ten dollars, gets the same limits and settings from
-- the policies as the compiler leaves them as from the policies as they were written, provided that
-- the compiler accepts these and that reading them raises nothing.
pub initialize-compiled :
    (F : Floats) (of_decimal : ℤ → ℕ → F.Float) (lib : Library) (now : ℕ) (run_id : String)
    (p c : Fields) (e e' : PolicyEngine F)
    → e.budget_tracker.max_cost_usd ≡ of_decimal (pos 100) 1
    → compile_policies lib p ≡ ok c
    → initialize_from_dsl F of_decimal lib now run_id p e ≡ ok e'
    → initialize_from_dsl F of_decimal lib now run_id c e ≡ ok e'
unfolding initialize_from_dsl
initialize-compiled F of_decimal lib now run_id p c e e' default compiled h =
    let (b, n, pii_in, e2, e3, e4, e5, e6, e7, e8, limits) = compiled_parts lib p c compiled in
    let t = e.budget_tracker in
    let (cost, c1, h1) =
      >>=-eq-ok (new_cost F of_decimal lib t.max_cost_usd (lookup "budget_usd" p)) _ e' h in
    let (tokens, c2, h2) = >>=-eq-ok (new_limit lib t.max_tokens (lookup "max_tokens" p)) _ e' h1 in
    let (steps, c3, h3) = >>=-eq-ok (new_limit lib t.max_steps (lookup "max_steps" p)) _ e' h2 in
    let (seconds, c4, h4) =
      >>=-eq-ok (new_limit lib t.max_time_seconds (lookup "max_time_seconds" p)) _ e' h3 in
    let (rates, c5, h5) = >>=-eq-ok (read_rates lib (lookup "rate_limits" p)) _ e' h4 in
    let (pii, c6, h6) = >>=-eq-ok (object_of (lookup "pii" p)) _ e' h5 in
    let same = ok-inj {E = Unusable} pii_in pii (sym e6 ∙ pii_input_lem (lookup "pii" p) pii c6) in
    let tracker = record t {
      max_cost_usd = cost;
      max_tokens = tokens;
      max_steps = steps;
      max_time_seconds = seconds;
    } in
    rw
      (
        e3,
        cost_lem F of_decimal lib t.max_cost_usd (lookup "budget_usd" p) b cost default e2 c1,
        (limits t.max_tokens).0 ∙ c2,
        (limits t.max_steps).1 ∙ c3,
        (limits t.max_time_seconds).2 ∙ c4,
        e8,
        rates_lem lib (lookup "rate_limits" p) ∙ c5,
        e7,
        e5,
      )
      (ap
          (λ (r : Result Unreadable ℤ).
            r >>= set_up F of_decimal lib now run_id e tracker rates (pii_output pii_in))
          (replans_lem lib (lookup "max_replan_attempts" p) n e4)
        ∙ ap
            (λ (f : ℤ → Result Unreadable (PolicyEngine F)).
              read_replans lib (lookup "max_replan_attempts" p) >>= f)
            (λ i replans.
              (set_up-pii_output F of_decimal lib now run_id e tracker rates pii_in replans
                  ∙ ap
                      (λ (x : Fields). set_up F of_decimal lib now run_id e tracker rates x replans)
                      same)
                i)
        ∙ h6)
