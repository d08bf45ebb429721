-- ===== src/Engine/ToolCall/Approval.antt =====
-- Which calls of tools `_execute_tool_call` of backend/saz/engine/executor.py makes.
use saz.Prelude.{
  ℕ, suc, zero, String, ◌≡◌, refl, sym, ◌⊎◌, inl, inr, true, false, Option, none, some, List, [],
  ◌∷◌, contains, ◌==◌, nat_eq, string_eq, Result, ok, err, Bool-cases,
}
use saz.Prelude.Json.{Fields}
use saz.Prelude.Floats.{Floats}
use saz.Policy.RateLimiter.{Decision, allowed, minute_exceeded, hour_exceeded, check_and_record}
use saz.Policy.Budget.{Exceeded}
use saz.Policy.Engine.{PolicyEngine, Blocked, check_tool_call, after_rate, record_llm_usage}
use saz.Policy.Engine.Check.{pii_permitted, passes_iff}
use saz.Engine.{PlanStep, Failure}
use saz.Engine.ToolCall.{
  Verdict, pass, fail, escalate, replan, Critique, ToolCall, Agents, ToolState, Workflow,
  allowed_tool_names, is_denied, exceeded, block_if_budget_exhausted, stopped_if, replan_feedback,
  replan_tools,
}
use saz.Engine.ToolCall.Grounding.{
  asked, checked, afforded, verify, verify_within_budget, check_policies, propose, first_step,
  revise, Next, revised, judge, answered, grounded, ground_and_verify,
}

module _ (F : Floats) (agents : Agents F) (w : Workflow) where
  -- The policies' settings and the world outside stay as they are.
  abbrev pub Keeps : ToolState F → ToolState F → Type 0
  Keeps s s' =
      (s'.engine.pii_allow_lists ≡ s.engine.pii_allow_lists)
      × (s'.engine.enforce_pii_redaction ≡ s.engine.enforce_pii_redaction)
      × (s'.world ≡ s.world)
      × (s'.engine.tokenize_model_inputs ≡ s.engine.tokenize_model_inputs)

  -- The verifier passed the call for some step, or it escalated one that a human has approved.
  abbrev pub IsVerified : ToolCall → Type 0
  IsVerified c =
      (n : ℕ) × (p : PlanStep) × (v : Critique) × ((agents.verify_proposal n p c
          (allowed_tool_names agents w)).1
        ≡ ok v)
      × ((v.verdict ≡ pass)
          ⊎ ((v.verdict ≡ escalate) × (contains p.step_id w.context.escalation_approvals ≡ true)))

  -- The call is to a tool within the workflow's bounds, with personal data on permitted paths only,
  -- and the policies let it pass at some time: the limits of rate and budget were not reached.
  abbrev pub IsWithinBounds : ToolState F → ToolCall → Type 0
  IsWithinBounds s c =
      (is_denied agents w c ≡ false)
      × (pii_permitted F agents.detects s.engine c.tool c.arguments ≡ true)
      × ((now : ℕ) × (e : PolicyEngine F) × ((check_tool_call F agents.detects now e c.tool
              c.arguments w.run_id).1
            ≡ none))

  -- What a proposal of `c` for the step `p` comes to.
  abbrev Proposed :
      ToolState F → PlanStep → ToolCall → ToolState F → Result Failure Critique → Type 0
  Proposed s0 p c s (err e) = Keeps s0 s
  Proposed s0 p c s (ok v) =
      Keeps s0 s
      × IsWithinBounds s0 c
      × ((n : ℕ) × ((agents.verify_proposal n p c (allowed_tool_names agents w)).1 ≡ ok v))

  -- What the rounds come to.
  abbrev pub Settled : ToolState F → ToolState F → Result Failure ToolCall → Type 0
  Settled s0 s (err e) = Keeps s0 s
  Settled s0 s (ok c) = Keeps s0 s × IsWithinBounds s0 c × IsVerified c

  verified-Proposed :
      (s0 s : ToolState F) (p : PlanStep) (c : ToolCall) (n : ℕ) (r : Result Failure Critique)
      → (agents.verify_proposal n p c (allowed_tool_names agents w)).1 ≡ r
      → Keeps s0 s
      → IsWithinBounds s0 c
      → Proposed s0 p c s r
  verified-Proposed s0 s p c n (err e) eq k b = k
  verified-Proposed s0 s p c n (ok v) eq k b = (k, b, (n, eq))

  asked-Proposed :
      (s0 s : ToolState F) (p : PlanStep) (c : ToolCall) (r : Result Failure (Unit {0}))
      → Keeps s0 s
      → IsWithinBounds s0 c
      → Proposed s0 p c (asked F agents w p c s r).0 (asked F agents w p c s r).1
  unfolding verify record_llm_usage
  asked-Proposed s0 s p c (err e) k b = k
  asked-Proposed s0 s p c (ok t) k b =
      let x = verify F agents w p c s in verified-Proposed s0 x.0 p c s.supply x.1 refl k b

  stopped_if-Keeps :
      (s0 s : ToolState F) (o : Option (Exceeded F))
      → Keeps s0 s
      → Keeps s0 (stopped_if F agents w s o).0
  stopped_if-Keeps s0 s none k = k
  stopped_if-Keeps s0 s (some why) k = k

  after_rate-Keeps :
      (s0 : ToolState F) (now : ℕ) (e : PolicyEngine F) (tool : String) (arguments : Fields)
      (d : Decision)
      → e.pii_allow_lists ≡ s0.engine.pii_allow_lists
      → e.enforce_pii_redaction ≡ s0.engine.enforce_pii_redaction
      → e.tokenize_model_inputs ≡ s0.engine.tokenize_model_inputs
      → ((after_rate F agents.detects now e tool arguments w.run_id d).0.pii_allow_lists
          ≡ s0.engine.pii_allow_lists)
        × ((after_rate F agents.detects now e tool arguments w.run_id d).0.enforce_pii_redaction
            ≡ s0.engine.enforce_pii_redaction)
        × ((after_rate F agents.detects now e tool arguments w.run_id d).0.tokenize_model_inputs
            ≡ s0.engine.tokenize_model_inputs)
  after_rate-Keeps s0 now e tool arguments allowed h k l = (h, k, l)
  after_rate-Keeps s0 now e tool arguments (minute_exceeded t n) h k l = (h, k, l)
  after_rate-Keeps s0 now e tool arguments (hour_exceeded n) h k l = (h, k, l)

  verify_within_budget-Proposed :
      (s0 s : ToolState F) (p : PlanStep) (c : ToolCall)
      → Keeps s0 s
      → IsWithinBounds s0 c
      → Proposed s0 p c
          (verify_within_budget F agents w p c s).0
          (verify_within_budget F agents w p c s).1
  unfolding verify_within_budget block_if_budget_exhausted
  verify_within_budget-Proposed s0 s p c k b =
      let x = stopped_if F agents w s (exceeded F agents w s) in
      asked-Proposed s0 x.0 p c x.1 (stopped_if-Keeps s0 s (exceeded F agents w s) k) b

  checked-Proposed :
      (s0 s : ToolState F) (p : PlanStep) (c : ToolCall) (o : Option (Blocked F))
      → Keeps s0 s
      → (o ≡ none → IsWithinBounds s0 c)
      → Proposed s0 p c (checked F agents w p c s o).0 (checked F agents w p c s o).1
  checked-Proposed s0 s p c none k b = verify_within_budget-Proposed s0 s p c k (b refl)
  checked-Proposed s0 s p c (some why) k b = k

  check_policies-Proposed :
      (s0 s : ToolState F) (p : PlanStep) (c : ToolCall)
      → Keeps s0 s
      → is_denied agents w c ≡ false
      → Proposed s0 p c (check_policies F agents w p c s).0 (check_policies F agents w p c s).1
  unfolding check_policies check_tool_call
  check_policies-Proposed s0 s p c k d =
      let now = agents.now s.supply in
      let limited = check_and_record now c.tool w.run_id s.engine.rate_limiter in
      let engine = record (s.engine) { rate_limiter = limited.0 } in
      let x = after_rate F agents.detects now engine c.tool c.arguments w.run_id limited.1 in
      let same = after_rate-Keeps s0 now engine c.tool c.arguments limited.1 k.0 k.1 k.3 in
      checked-Proposed s0 (record s { engine = x.0; supply = suc s.supply }) p c x.1
        (same.0, same.1, k.2, same.2)
        (λ passed. (
          d,
          rw (sym k.0, sym k.1)
              (((passes_iff F agents.detects now s.engine c.tool c.arguments w.run_id).0 passed).2),
          (now, s.engine, passed),
        ))

  propose-Proposed :
      (s0 s : ToolState F) (p : PlanStep) (c : ToolCall)
      → Keeps s0 s
      → Proposed s0 p c (propose F agents w p c s).0 (propose F agents w p c s).1
  unfolding propose
  propose-Proposed s0 s p c k = elim (Bool-cases (is_denied agents w c)) [
    | inl e ↦ rw e k
    | inr e ↦ rw e (check_policies-Proposed s0 s p c k e)
  ]

  -- What a revision leaves, and the rounds behind it.
  abbrev NextSettles : ToolState F → Next F agents w → Type 0
  NextSettles s0 next =
      (p : PlanStep) (s : ToolState F) → Keeps s0 s → Settled s0 (next p s).0 (next p s).1

  revised-Settled :
      (s0 : ToolState F) (next : Next F agents w) (s : ToolState F) (q : Result Failure PlanStep)
      → NextSettles s0 next
      → Keeps s0 s
      → Settled s0 (revised F agents w next s q).0 (revised F agents w next s q).1
  revised-Settled s0 next s (err e) settles k = k
  revised-Settled s0 next s (ok p) settles k = settles p s k

  afforded-Keeps :
      (s0 : ToolState F) (p : PlanStep) (s : ToolState F) (o : Option (Exceeded F))
      → Keeps s0 s
      → Keeps s0 (afforded F agents w p s o).0
  afforded-Keeps s0 p s none k = k
  afforded-Keeps s0 p s (some why) k = k

  first_step-Keeps :
      (s0 s : ToolState F) (r : Result Failure (List PlanStep))
      → Keeps s0 s
      → Keeps s0 (first_step F agents w s r).0
  first_step-Keeps s0 s (err e) k = k
  first_step-Keeps s0 s (ok []) k = k
  first_step-Keeps s0 s (ok (p ∷ rest)) k = afforded-Keeps s0 p s (exceeded F agents w s) k

  revise-Keeps :
      (s0 : ToolState F) (left : ℕ) (p : PlanStep) (v : Critique) (s : ToolState F)
      → Keeps s0 s
      → Keeps s0 (revise F agents w left p v s).0
  unfolding revise record_llm_usage
  revise-Keeps s0 left p v s k = elim (Bool-cases (left == 0)) [
    | inl e ↦ rw e k
    | inr e ↦ elim (Bool-cases w.is_deterministic) [
      | inl d ↦ rw (e, d) k
      | inr d ↦
          rw (e, d)
            (first_step-Keeps s0 _
              (agents.plan s.supply p (replan_feedback v) (replan_tools agents w)).1 k)
    ]
  ]

  judge-Settled :
      (s0 : ToolState F) (next : Next F agents w) (left : ℕ) (p : PlanStep) (c : ToolCall)
      (v : Critique) (s : ToolState F) (verdict : Verdict)
      → NextSettles s0 next
      → v.verdict ≡ verdict
      → Proposed s0 p c s (ok v)
      → Settled s0
          (judge F agents w next left p c v s verdict).0
          (judge F agents w next left p c v s verdict).1
  unfolding judge
  judge-Settled s0 next left p c v s pass settles e h = (h.0, h.1, (h.2.0, p, v, h.2.1, inl e))
  judge-Settled s0 next left p c v s fail settles e h = h.0
  judge-Settled s0 next left p c v s escalate settles e h =
      elim (Bool-cases (contains p.step_id w.context.escalation_approvals)) [
        | inl a ↦ rw a (h.0, h.1, (h.2.0, p, v, h.2.1, inr (e, a)))
        | inr a ↦ rw a (h.0)
      ]
  judge-Settled s0 next left p c v s replan settles e h =
      let x = revise F agents w left p v s in
      revised-Settled s0 next x.0 x.1 settles (revise-Keeps s0 left p v s h.0)

  answered-Settled :
      (s0 : ToolState F) (next : Next F agents w) (left : ℕ) (p : PlanStep) (c : ToolCall)
      (s : ToolState F) (r : Result Failure Critique)
      → NextSettles s0 next
      → Proposed s0 p c s r
      → Settled s0
          (answered F agents w next left p c s r).0
          (answered F agents w next left p c s r).1
  answered-Settled s0 next left p c s (err e) settles h = h
  answered-Settled s0 next left p c s (ok v) settles h =
      judge-Settled s0 next left p c v s v.verdict settles refl h

  grounded-Settled :
      (s0 : ToolState F) (next : Next F agents w) (left : ℕ) (p : PlanStep) (s : ToolState F)
      (r : Result Failure ToolCall)
      → NextSettles s0 next
      → Keeps s0 s
      → Settled s0 (grounded F agents w next left p s r).0 (grounded F agents w next left p s r).1
  grounded-Settled s0 next left p s (err e) settles k = k
  grounded-Settled s0 next left p s (ok c) settles k =
      let s1 = record s { supply = suc s.supply } in
      let x = propose F agents w p c s1 in
      answered-Settled s0 next left p c x.0 x.1 settles (propose-Proposed s0 s1 p c k)

  pub ground_and_verify-Settled :
      (s0 : ToolState F) (left : ℕ) (p : PlanStep) (s : ToolState F)
      → Keeps s0 s
      → Settled s0
          (ground_and_verify F agents w left p s).0
          (ground_and_verify F agents w left p s).1
  unfolding ground_and_verify
  ground_and_verify-Settled s0 zero p s k = k
  ground_and_verify-Settled s0 (suc left) p s k =
      grounded-Settled s0 (ground_and_verify F agents w left) left p s
        (agents.ground s.supply p w.context)
        (λ p' s' k'. ground_and_verify-Settled s0 left p' s' k') k
