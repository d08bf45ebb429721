-- ===== src/Policy/Budget/Usage.antt =====
-- What the recorders of backend/saz/policies/budget_tracker.py do to a run's usage.
use saz.Prelude.{
  ℕ, ◌+◌, String, ◌≡◌, some, List, [], ◌∷◌, arith, ◌==◌, string_eq, text_refl, eq_iff,
  if◌then◌else◌,
}
use saz.Prelude.Int.{ℤ, pos_part}
use saz.Prelude.Floats.{Floats}
use saz.Policy.Budget.{
  Budget, BudgetTracker, ensure, budget_of, clamp, seed_usage, record_tokens, record_cost,
  record_step, check_budget,
}

module _ (F : Floats) where
  -- One use of the tracker by a run that goes on.
  pub data Op : Type 0 where
    tokens : ℤ → Op
    cost : F.Float → Op
    step : Op
    seed : ℤ → F.Float → ℤ → Op
    check : Op

  pub record Event : Type 0 where
    pub time : ℕ
    pub run : String
    pub op : Op

  abbrev pub apply_op : ℕ → String → Op → BudgetTracker F → BudgetTracker F
  apply_op now r (tokens n) = record_tokens F now r n
  apply_op now r (cost c) = record_cost F now r c
  apply_op now r step = record_step F now r
  apply_op now r (seed n c k) = seed_usage F now r n c k
  apply_op now r check = λ t. (check_budget F now r t).0

  abbrev pub apply : Event → BudgetTracker F → BudgetTracker F
  apply e = apply_op e.time e.run e.op

  abbrev pub replay : List Event → BudgetTracker F → BudgetTracker F
  replay [] t = t
  replay (e ∷ es) t = replay es (apply e t)

  -- What an operation makes of the entry of its run.
  abbrev pub effect : ℕ → Op → Budget F → Budget F
  effect now (tokens n) b = record b {
    tokens_used = b.tokens_used + pos_part n;
    last_updated = now;
  }
  effect now (cost c) b = record b { cost_usd = F.add b.cost_usd (clamp F c); last_updated = now }
  effect now step b = record b { steps_executed = b.steps_executed + 1; last_updated = now }
  effect now (seed n c k) b = record b {
    tokens_used = b.tokens_used + pos_part n;
    cost_usd = F.add b.cost_usd (clamp F c);
    steps_executed = b.steps_executed + pos_part k;
    last_updated = now;
  }
  effect now check b = b

  pub record SameLimits (t t' : BudgetTracker F) : Type 0 where
    pub max_tokens : t'.max_tokens ≡ t.max_tokens
    pub max_cost_usd : t'.max_cost_usd ≡ t.max_cost_usd
    pub max_steps : t'.max_steps ≡ t.max_steps
    pub max_time_seconds : t'.max_time_seconds ≡ t.max_time_seconds

  -- Every operation puts the effect on its own run's entry and leaves the other runs alone.
  pub budgets-apply_op :
      (now : ℕ) (r j : String) (o : Op) (t : BudgetTracker F)
      → (apply_op now r o t).budgets j
        ≡ (if r == j then some (effect now o (budget_of F now r t)) else t.budgets j)
  unfolding record_tokens record_cost record_step seed_usage check_budget ensure
  budgets-apply_op now r j check t = ground (arith, eq_iff r j, text_refl r)
  budgets-apply_op now r j _ t = ground (arith, eq_iff r j, text_refl r)

  pub apply_op-SameLimits :
      (now : ℕ) (r : String) (o : Op) (t : BudgetTracker F) → SameLimits t (apply_op now r o t)
  unfolding record_tokens record_cost record_step seed_usage check_budget ensure
  apply_op-SameLimits now r check t = ground arith
  apply_op-SameLimits now r _ t = ground arith
