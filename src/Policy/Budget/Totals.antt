-- ===== src/Policy/Budget/Totals.antt =====
-- The counts of backend/saz/policies/budget_tracker.py against a sum over what was reported.
use saz.Prelude.{ℕ, ◌+◌, String, ◌≡◌, List, [], ◌∷◌, arith, ◌==◌, string_eq, eq_iff, if◌then◌else◌}
use saz.Prelude.Int.{pos_part}
use saz.Prelude.Floats.{Floats}
use saz.Policy.Budget.{BudgetTracker, budget_of}
use saz.Policy.Budget.Usage.{
  Op, tokens, cost, step, seed, check, Event, apply_op, apply, replay, budgets-apply_op,
}

module _ (F : Floats) where
  -- What one report adds to the two counts; a negative report adds nothing.
  abbrev pub op_tokens : Op F → ℕ
  op_tokens (tokens n) = pos_part n
  op_tokens (seed n c k) = pos_part n
  op_tokens _ = 0

  abbrev pub op_steps : Op F → ℕ
  op_steps step = 1
  op_steps (seed n c k) = pos_part k
  op_steps _ = 0

  -- The sum over the reports of one run.
  abbrev pub total : (Op F → ℕ) → String → List (Event F) → ℕ
  total f r [] = 0
  total f r (e ∷ es) = (if e.run == r then f e.op else 0) + total f r es

  budget_of-apply :
      (now : ℕ) (r : String) (e : Event F) (t : BudgetTracker F)
      → ((budget_of F now r (apply F e t)).tokens_used
          ≡ (budget_of F now r t).tokens_used + (if e.run == r then op_tokens e.op else 0))
        × ((budget_of F now r (apply F e t)).steps_executed
            ≡ (budget_of F now r t).steps_executed + (if e.run == r then op_steps e.op else 0))
  budget_of-apply now r e t = by_op e.time e.run e.op
    where
      by_op :
          (v : ℕ) (q : String) (o : Op F)
          → ((budget_of F now r (apply_op F v q o t)).tokens_used
              ≡ (budget_of F now r t).tokens_used + (if q == r then op_tokens o else 0))
            × ((budget_of F now r (apply_op F v q o t)).steps_executed
                ≡ (budget_of F now r t).steps_executed + (if q == r then op_steps o else 0))
      by_op v q check = ground (arith, eq_iff q r, budgets-apply_op F v q r check t)
      by_op v q (tokens n) = ground (arith, eq_iff q r, budgets-apply_op F v q r (tokens n) t)
      by_op v q (cost n) = ground (arith, eq_iff q r, budgets-apply_op F v q r (cost n) t)
      by_op v q step = ground (arith, eq_iff q r, budgets-apply_op F v q r step t)
      by_op v q (seed n c k) = ground (arith, eq_iff q r, budgets-apply_op F v q r (seed n c k) t)

  -- After any reports, on any runs and in any order, a run's token count is what it was and the
  -- sum of the tokens reported for that run, and so is its step count: negative reports and the
  -- reports of other runs change neither.
  pub replay_totals :
      (now : ℕ) (r : String) (es : List (Event F)) (t : BudgetTracker F)
      → ((budget_of F now r (replay F es t)).tokens_used
          ≡ (budget_of F now r t).tokens_used + total op_tokens r es)
        × ((budget_of F now r (replay F es t)).steps_executed
            ≡ (budget_of F now r t).steps_executed + total op_steps r es)
  replay_totals now r [] t = omega arith
  replay_totals now r (e ∷ es) t =
      omega (arith, replay_totals now r es (apply F e t), budget_of-apply now r e t)
