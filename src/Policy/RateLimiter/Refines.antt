-- ===== src/Policy/RateLimiter/Refines.antt =====
-- backend/saz/policies/rate_limiter.py keeps the contract of `Spec`.
use saz.Prelude.{
  ℕ, ◌≤◌, String, ◌≡◌, refl, ap, Bool, List, [], ◌∷◌, ◌++◌, keep, arith, ◌==◌, string_eq, eq_iff,
  Bool-cases, inl, inr, if◌then◌else◌,
}
use mathlib.Core.List.{append-nil}
use saz.Policy.RateLimiter.{RateLimiter, is_live, check_bucket, check_and_record, put, minute, hour}
use saz.Policy.RateLimiter.Spec.{
  Call, tool_limit, times, of_tool, of_run, extend, decide, decisions, serve, Ascending,
}
use saz.Policy.RateLimiter.Tracking.{
  Agrees, Agrees-prune, Agrees-append, Agrees-later, times-append,
}

-- The limits are those of `r`, and the buckets show what the history shows.
pub record Tracks (r : RateLimiter) (log : List Call) (now : ℕ) (s : RateLimiter) : Type 0 where
  pub per_minute : s.calls_per_minute ≡ r.calls_per_minute
  pub per_hour : s.calls_per_hour ≡ r.calls_per_hour
  pub per_tool : s.per_tool_rpm ≡ r.per_tool_rpm
  pub tools : (t : String) → Agrees minute now (s.minute_buckets t) (times (of_tool t) log)
  pub runs : (t : String) → Agrees hour now (s.hour_buckets t) (times (of_run t) log)

-- A table that is pruned at one key, and one that also records a call there.
put-prune :
    (w now v : ℕ) (k : String) (b : String → List ℕ) (ts : String → List ℕ)
    → ((t : String) → Agrees w now (b t) (ts t))
    → now ≤ v
    → (t : String) → Agrees w v (put k (keep (is_live w v) (b k)) b t) (ts t)
put-prune w now v k b ts h le t = elim (Bool-cases (k == t)) [
  | inl e ↦ rw (e, ← (eq_iff k t).0 e) (Agrees-prune w now v (b k) (ts k) (h k) le)
  | inr e ↦ rw e (Agrees-later w now v (b t) (ts t) (h t) le)
]

put-append :
    (w now v : ℕ) (k : String) (b : String → List ℕ) (ts : String → List ℕ)
    → ((t : String) → Agrees w now (b t) (ts t))
    → now ≤ v
    → (t : String)
    → Agrees w v
        (put k (keep (is_live w v) (b k) ++ v ∷ []) b t)
        (ts t ++ (if k == t then v ∷ [] else []))
put-append w now v k b ts h le t = elim (Bool-cases (k == t)) [
  | inl e ↦
      rw (e, ← (eq_iff k t).0 e)
        (Agrees-append w v v (keep (is_live w v) (b k)) (ts k)
          (Agrees-prune w now v (b k) (ts k) (h k) le))
  | inr e ↦ rw (e, append-nil) (Agrees-later w now v (b t) (ts t) (h t) le)
]

module _ (r : RateLimiter) (log : List Call) (now : ℕ) (s : RateLimiter) (c : Call) where
  -- The two counts that the source takes are those of the contract.
  pub same_decision :
      Tracks r log now s
      → now ≤ c.time
      → (check_and_record c.time c.tool c.run s).1 ≡ decide r log c
  unfolding check_and_record check_bucket decide
  same_decision h le =
      rw (h.per_minute, h.per_hour, h.per_tool, h.tools c.tool c.time le, h.runs c.run c.time le)
        (ground arith)

  open s use {minute_buckets, hour_buckets}

  calls_below : Bool
  unfolding check_bucket
  calls_below = (check_bucket (minute_buckets c.tool) c.time minute (tool_limit s c.tool)).1

  runs_below : Bool
  unfolding check_bucket
  runs_below = (check_bucket (hour_buckets c.run) c.time hour s.calls_per_hour).1

  pub step-Tracks :
      Tracks r log now s
      → now ≤ c.time
      → let (s', d) = check_and_record c.time c.tool c.run s in Tracks r (extend d log c) c.time s'
  unfolding check_and_record check_bucket calls_below runs_below
  step-Tracks h le = elim (Bool-cases calls_below) [
    | inr e ↦ rw e (record {
      per_minute = h.per_minute;
      per_hour = h.per_hour;
      per_tool = h.per_tool;
      tools =
          put-prune minute now c.time c.tool minute_buckets (λ t. times (of_tool t) log) h.tools le;
      runs =
          λ t. Agrees-later hour now c.time (hour_buckets t) (times (of_run t) log) (h.runs t) le;
    })
    | inl e ↦ elim (Bool-cases runs_below) [
      | inr f ↦
          rw (e, f)
            (record {
              per_minute = h.per_minute;
              per_hour = h.per_hour;
              per_tool = h.per_tool;
              tools =
                  put-prune minute now c.time c.tool minute_buckets (λ t. times (of_tool t) log)
                    h.tools le;
              runs =
                  put-prune hour now c.time c.run hour_buckets (λ t. times (of_run t) log) h.runs
                    le;
            })
      | inl f ↦
          rw (e, f)
            (record {
              per_minute = h.per_minute;
              per_hour = h.per_hour;
              per_tool = h.per_tool;
              tools = λ t. rw times-append (
                  put-append minute now c.time c.tool minute_buckets (λ t. times (of_tool t) log)
                    h.tools le t);
              runs = λ t. rw times-append (
                  put-append hour now c.time c.run hour_buckets (λ t. times (of_run t) log) h.runs
                    le t);
            })
    ]
  ]

serve-Tracks :
    (r : RateLimiter) (log : List Call) (now : ℕ) (s : RateLimiter) (cs : List Call)
    → Tracks r log now s
    → Ascending now cs
    → serve s cs ≡ decisions r log cs
unfolding serve decisions
serve-Tracks r log now s [] h a = refl
serve-Tracks r log now s (c ∷ cs) h a =
    let (s', d) = check_and_record c.time c.tool c.run s in
    let e = same_decision r log now s c h a.0 in
    rw (← e) (
      ap (λ ds. d ∷ ds)
        (serve-Tracks r (extend d log c) c.time s' cs (step-Tracks r log now s c h a.0) a.1))

-- No call is recorded.
abbrev pub IsFresh : RateLimiter → Type 0
IsFresh r = ((t : String) → r.minute_buckets t ≡ []) × ((t : String) → r.hour_buckets t ≡ [])

pub Tracks-fresh : (r : RateLimiter) → IsFresh r → Tracks r [] 0 r
Tracks-fresh r h = record {
  per_minute = refl;
  per_hour = refl;
  per_tool = refl;
  tools = λ t u hu. rw (h.0 t);
  runs = λ t u hu. rw (h.1 t);
}

-- From empty buckets and on a clock that does not go back, the pruning limiter answers every call
-- as the contract does, which decides by counting in the history of all the allowed calls.
pub serve-eq-decisions :
    (r : RateLimiter) (cs : List Call) → IsFresh r → Ascending 0 cs → serve r cs ≡ decisions r [] cs
serve-eq-decisions r cs h a = serve-Tracks r [] 0 r cs (Tracks-fresh r h) a
