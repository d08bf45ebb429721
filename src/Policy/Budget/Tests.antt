-- ===== src/Policy/Budget/Tests.antt =====
-- Runs of the budget tracker over whole millionths, and each theorem at an input.
use saz.Prelude.{le→leb, ◌+◌, ◌≡◌, refl, ◌≢◌, none, some, List, [], ◌∷◌, arith, insert, empty}
use saz.Prelude.Int.{pos, negsuc}
use saz.Prelude.Floats.{millionths}
use saz.Policy.Budget.{BudgetTracker, budget_of, steps_exceeded, check_budget}
use saz.Policy.Budget.Usage.{Event, tokens, step, replay}
use saz.Policy.Budget.Spent.{spent_stays}
use saz.Policy.Budget.Totals.{replay_totals}

-- Two of two steps are used, and ten of a hundred tokens.
abbrev tracker : BudgetTracker millionths
tracker = record {
  max_tokens = pos 100;
  max_cost_usd = 5000000;
  max_steps = pos 2;
  max_time_seconds = pos 3600;
  budgets =
      insert "r1"
        (record {
          tokens_used = 10;
          cost_usd = 0;
          steps_executed = 2;
          start_time = 0;
          last_updated = 0;
        })
        empty;
}

abbrev events : List (Event millionths)
events =
    record { time = 7; run = "r1"; op = tokens (negsuc 49) }
    ∷ record { time = 8; run = "r2"; op = step }
    ∷ record { time = 9; run = "r1"; op = tokens (pos 5) }
    ∷ []

refused : (check_budget millionths 5 "r1" tracker).1 ≡ some (steps_exceeded 2 (pos 2))
unfolding check_budget
refused = refl

spent_stays_example :
    (check_budget millionths 20 "r1"
      (replay millionths events (check_budget millionths 5 "r1" tracker).0)).1
    ≢ none
unfolding check_budget
spent_stays_example =
    spent_stays millionths 5 20 "r1" tracker events (λ b e. le→leb 0 b.cost_usd (omega arith))
      (omega arith) (λ e. cc)

replay_totals_example :
    ((budget_of millionths 20 "r1" (replay millionths events tracker)).tokens_used ≡ 10 + 5)
    × ((budget_of millionths 20 "r1" (replay millionths events tracker)).steps_executed ≡ 2 + 0)
replay_totals_example = replay_totals millionths 20 "r1" events tracker
