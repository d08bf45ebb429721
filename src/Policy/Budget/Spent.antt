-- ===== src/Policy/Budget/Spent.antt =====
-- A spent budget of backend/saz/policies/budget_tracker.py stays spent.
use saz.Prelude.{
  ℕ, ◌≤◌, String, ◌≡◌, refl, ◌∙◌, true, none, some, List, [], ◌∷◌, arith, ◌==◌, string_eq,
  text_refl, Bool-cases, Option-cases, inl, inr, ◌≢◌, eq_iff,
}
use saz.Prelude.Int.{sub_ℕ, ◌≤ℤ◌}
use saz.Prelude.Floats.{Floats}
use saz.Policy.Budget.{Budget, BudgetTracker, budget_of, clamp, over_budget, check_budget}
use saz.Policy.Budget.Usage.{
  Op, tokens, cost, step, seed, check, Event, apply, replay, effect, SameLimits, budgets-apply_op,
  apply_op-SameLimits,
}

module _ (F : Floats) where
  -- `c` covers each bound that `b` covers, and neither spent a negative sum.
  record Grown (b c : Budget F) : Type 0 where
    tokens : b.tokens_used ≤ c.tokens_used
    steps : b.steps_executed ≤ c.steps_executed
    start : c.start_time ≡ b.start_time
    cost : (m : F.Float) → F.le m b.cost_usd ≡ true → F.le m c.cost_usd ≡ true
    nonneg : F.le F.zero c.cost_usd ≡ true

  clamp_nonneg : (c : F.Float) → F.le F.zero (clamp F c) ≡ true
  clamp_nonneg c = ground (arith, F.zero_nonneg, F.le_of_lt F.zero c)

  effect-Grown : (now : ℕ) (o : Op F) (b c : Budget F) → Grown b c → Grown b (effect F now o c)
  effect-Grown now (tokens n) b c g = record {
    tokens = ground (arith, g.tokens);
    steps = g.steps;
    start = g.start;
    cost = g.cost;
    nonneg = g.nonneg;
  }
  effect-Grown now (cost x) b c g = record {
    tokens = g.tokens;
    steps = g.steps;
    start = g.start;
    cost = λ m h. F.add_grows m c.cost_usd (clamp F x) g.nonneg (clamp_nonneg x) (g.cost m h);
    nonneg = F.add_grows F.zero c.cost_usd (clamp F x) g.nonneg (clamp_nonneg x) g.nonneg;
  }
  effect-Grown now step b c g = record {
    tokens = g.tokens;
    steps = ground (arith, g.steps);
    start = g.start;
    cost = g.cost;
    nonneg = g.nonneg;
  }
  effect-Grown now (seed n x k) b c g = record {
    tokens = ground (arith, g.tokens);
    steps = ground (arith, g.steps);
    start = g.start;
    cost = λ m h. F.add_grows m c.cost_usd (clamp F x) g.nonneg (clamp_nonneg x) (g.cost m h);
    nonneg = F.add_grows F.zero c.cost_usd (clamp F x) g.nonneg (clamp_nonneg x) g.nonneg;
  }
  effect-Grown now check b c g = g

  -- The run's entry has grown from `b`.
  Kept : String → Budget F → BudgetTracker F → Type 0
  Kept r b t = (c : Budget F) × (t.budgets r ≡ some c) × Grown b c

  apply-Kept :
      (e : Event F) (r : String) (b : Budget F) (t : BudgetTracker F)
      → Kept r b t
      → Kept r b (apply F e t)
  unfolding Kept
  apply-Kept e r b t (c, at, g) = elim (Bool-cases (e.run == r)) [
    | inr other ↦ (c, budgets-apply_op F e.time e.run r e.op t ∙ ground (arith, other), g)
    | inl same ↦
        let is : e.run ≡ r = (eq_iff e.run r).0 same in
        (
          effect F e.time e.op c,
          budgets-apply_op F e.time e.run r e.op t ∙ rw (same, is) (ground (arith, at)),
          effect-Grown e.time e.op b c g,
        )
  ]

  replay-Kept :
      (es : List (Event F)) (r : String) (b : Budget F) (t : BudgetTracker F)
      → Kept r b t
      → Kept r b (replay F es t)
  replay-Kept [] r b t k = k
  replay-Kept (e ∷ es) r b t k = replay-Kept es r b (apply F e t) (apply-Kept e r b t k)

  SameLimits-trans :
      {t u v : BudgetTracker F} → SameLimits F t u → SameLimits F u v → SameLimits F t v
  SameLimits-trans h k = record {
    max_tokens = k.max_tokens ∙ h.max_tokens;
    max_cost_usd = k.max_cost_usd ∙ h.max_cost_usd;
    max_steps = k.max_steps ∙ h.max_steps;
    max_time_seconds = k.max_time_seconds ∙ h.max_time_seconds;
  }

  replay-SameLimits : (es : List (Event F)) (t : BudgetTracker F) → SameLimits F t (replay F es t)
  replay-SameLimits [] t = record {
    max_tokens = refl;
    max_cost_usd = refl;
    max_steps = refl;
    max_time_seconds = refl;
  }
  replay-SameLimits (e ∷ es) t =
      SameLimits-trans (apply_op-SameLimits F e.time e.run e.op t)
        (replay-SameLimits es (apply F e t))

  later_elapsed : (now later start : ℕ) → now ≤ later → sub_ℕ now start ≤ℤ sub_ℕ later start
  later_elapsed now later start h = ground arith

  over_budget_stays :
      (now later : ℕ) (t t' : BudgetTracker F) (b c : Budget F)
      → now ≤ later
      → SameLimits F t t'
      → Grown b c
      → over_budget F now t b ≢ none
      → over_budget F later t' c ≢ none
  unfolding over_budget
  over_budget_stays now later t t' b c le s g h =
      rw (s.max_tokens, s.max_cost_usd, s.max_steps, s.max_time_seconds, g.start)
        (ground (
          arith,
          g.cost t.max_cost_usd,
          F.seconds_mono (F.of_int t.max_time_seconds) (sub_ℕ now b.start_time)
              (sub_ℕ later b.start_time) (later_elapsed now later b.start_time le),
        ))

  -- No run has been charged a negative sum.
  abbrev pub IsSane : BudgetTracker F → String → Type 0
  IsSane t r = (b : Budget F) → t.budgets r ≡ some b → F.le F.zero b.cost_usd ≡ true

  budget_of_nonneg :
      (now : ℕ) (r : String) (t : BudgetTracker F)
      → IsSane t r
      → F.le F.zero (budget_of F now r t).cost_usd ≡ true
  budget_of_nonneg now r t sane = elim (Option-cases (t.budgets r)) [
    | inl e ↦ ground (arith, e, F.zero_nonneg)
    | inr (b, e) ↦ ground (arith, e, sane b e)
  ]

  -- A check answers from the entry that it leaves.
  check_budget_entry :
      (now : ℕ) (r : String) (t : BudgetTracker F)
      → (check_budget F now r t).0.budgets r ≡ some (budget_of F now r t)
  check_budget_entry now r t = budgets-apply_op F now r r check t ∙ rw (text_refl r)

  check_budget_present :
      (now : ℕ) (r : String) (t : BudgetTracker F) (b : Budget F)
      → t.budgets r ≡ some b
      → (check_budget F now r t).1 ≡ over_budget F now t b
  unfolding check_budget
  check_budget_present now r t b e = ground (arith, e)

  check_budget_answer :
      (now : ℕ) (r : String) (t : BudgetTracker F)
      → (check_budget F now r t).1
        ≡ over_budget F now (check_budget F now r t).0 (budget_of F now r t)
  unfolding check_budget
  check_budget_answer now r t = ground (arith, text_refl r)

  -- Once `check_budget` has refused a run, it refuses it at every later time, whatever usage of
  -- whatever runs is recorded, seeded or checked in between: a negative report reopens nothing.
  pub spent_stays :
      (now later : ℕ) (r : String) (t : BudgetTracker F) (es : List (Event F))
      → IsSane t r
      → now ≤ later
      → (check_budget F now r t).1 ≢ none
      → (check_budget F later r (replay F es (check_budget F now r t).0)).1 ≢ none
  unfolding Kept
  spent_stays now later r t es sane le spent =
      let b : Budget F = budget_of F now r t in
      let t' : BudgetTracker F = (check_budget F now r t).0 in
      let same : Grown b b = record {
        tokens = omega arith;
        steps = omega arith;
        start = refl;
        cost = λ m h. h;
        nonneg = budget_of_nonneg now r t sane;
      } in
      let (c, at, g) = replay-Kept es r b t' (b, check_budget_entry now r t, same) in
      rw (check_budget_present later r (replay F es t') c at) (
        over_budget_stays now later t' (replay F es t') b c le (replay-SameLimits es t') g
          (rw (check_budget_answer now r t) at spent))
