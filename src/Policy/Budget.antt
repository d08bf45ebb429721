-- ===== src/Policy/Budget.antt =====
-- backend/saz/policies/budget_tracker.py. A method takes the reading of the clock, in microseconds,
-- that it makes. Token and step counts start at 0 and only grow, so they are natural numbers;
-- the limits and the reported usage are Python's `int`. A cost is a `float`.
pub mod Usage
pub mod Spent
pub mod Totals
mod Tests
use saz.Prelude.{
  ℕ, ◌+◌, ◌-◌, String, Bool, true, false, Option, none, some, Map, insert, erase, get_or, has,
  if◌then◌else◌,
}
use saz.Prelude.Int.{ℤ, pos, pos_part, leb_ℤ, sub_ℕ}
use saz.Prelude.Floats.{Floats}

pub record Budget (F : Floats) : Type 0 where
  pub tokens_used : ℕ
  pub cost_usd : F.Float
  pub steps_executed : ℕ
  pub start_time : ℕ
  pub last_updated : ℕ

pub record BudgetTracker (F : Floats) : Type 0 where
  pub max_tokens : ℤ
  pub max_cost_usd : F.Float
  pub max_steps : ℤ
  pub max_time_seconds : ℤ
  pub budgets : Map (Budget F)

-- Why a run is over its budget, with the values that the text shows.
pub data Exceeded (F : Floats) : Type 0 where
  tokens_exceeded : ℕ → ℤ → Exceeded F
  cost_exceeded : F.Float → F.Float → Exceeded F
  steps_exceeded : ℕ → ℤ → Exceeded F
  time_exceeded : F.Float → ℤ → Exceeded F

module _ (F : Floats) where
  abbrev pub fresh : ℕ → Budget F
  fresh now = record {
    tokens_used = 0;
    cost_usd = F.zero;
    steps_executed = 0;
    start_time = now;
    last_updated = now;
  }

  unfoldable pub initialize_run : ℕ → String → BudgetTracker F → BudgetTracker F
  initialize_run now run_id t = record t { budgets = insert run_id (fresh now) t.budgets }

  -- `if run_id not in self._budgets: self.initialize_run(run_id)`
  unfoldable pub ensure : ℕ → String → BudgetTracker F → BudgetTracker F
  unfolding initialize_run
  ensure now run_id t = if has t.budgets run_id then t else initialize_run now run_id t

  -- `self._budgets[run_id]` behind `ensure`, which makes the key present.
  abbrev pub budget_of : ℕ → String → BudgetTracker F → Budget F
  budget_of now run_id t = get_or t.budgets run_id (fresh now)

  -- The body that each recorder shares: the entry is updated in place.
  abbrev pub update : ℕ → String → (Budget F → Budget F) → BudgetTracker F → BudgetTracker F
  update now run_id f t =
      let t' = ensure now run_id t in
      record t' { budgets = insert run_id (f (budget_of now run_id t')) t'.budgets }

  -- `max(0.0, cost_usd)`
  abbrev pub clamp : F.Float → F.Float
  clamp c = if F.lt F.zero c then c else F.zero

  unfoldable pub seed_usage : ℕ → String → ℤ → F.Float → ℤ → BudgetTracker F → BudgetTracker F
  unfolding ensure
  seed_usage now run_id tokens cost_usd steps = update now run_id λ b. record b {
    tokens_used = b.tokens_used + pos_part tokens;
    cost_usd = F.add b.cost_usd (clamp cost_usd);
    steps_executed = b.steps_executed + pos_part steps;
    last_updated = now;
  }

  unfoldable pub record_tokens : ℕ → String → ℤ → BudgetTracker F → BudgetTracker F
  unfolding ensure
  record_tokens now run_id tokens =
      update now run_id
        λ b. record b { tokens_used = b.tokens_used + pos_part tokens; last_updated = now }

  unfoldable pub record_cost : ℕ → String → F.Float → BudgetTracker F → BudgetTracker F
  unfolding ensure
  record_cost now run_id cost_usd =
      update now run_id
        λ b. record b { cost_usd = F.add b.cost_usd (clamp cost_usd); last_updated = now }

  unfoldable pub record_step : ℕ → String → BudgetTracker F → BudgetTracker F
  unfolding ensure
  record_step now run_id =
      update now run_id λ b. record b { steps_executed = b.steps_executed + 1; last_updated = now }

  -- The four tests in their order; `none` is the answer `(True, None)`.
  unfoldable pub over_budget : ℕ → BudgetTracker F → Budget F → Option (Exceeded F)
  over_budget now t b =
      let elapsed = F.seconds (sub_ℕ now b.start_time) in
      if leb_ℤ t.max_tokens (pos b.tokens_used)
      then some (tokens_exceeded b.tokens_used t.max_tokens)
      else if F.le t.max_cost_usd b.cost_usd
      then some (cost_exceeded b.cost_usd t.max_cost_usd)
      else if leb_ℤ t.max_steps (pos b.steps_executed)
      then some (steps_exceeded b.steps_executed t.max_steps)
      else if F.le (F.of_int t.max_time_seconds) elapsed
      then some (time_exceeded elapsed t.max_time_seconds)
      else none

  unfoldable pub check_budget : ℕ → String → BudgetTracker F → BudgetTracker F × Option (Exceeded F)
  unfolding ensure over_budget
  check_budget now run_id t =
      let t' = ensure now run_id t in (t', over_budget now t' (budget_of now run_id t'))

  unfoldable pub get_stats : String → BudgetTracker F → Option (Budget F)
  get_stats run_id t = t.budgets run_id

  unfoldable pub reset : String → BudgetTracker F → BudgetTracker F
  reset run_id t = if has t.budgets run_id then record t { budgets = erase run_id t.budgets } else t
