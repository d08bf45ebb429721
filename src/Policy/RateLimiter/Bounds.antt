-- ===== src/Policy/RateLimiter/Bounds.antt =====
-- How many calls backend/saz/policies/rate_limiter.py lets through in a window of time.
use saz.Prelude.{
  ℕ, ◌≤◌, String, ◌≡◌, Bool, true, List, [], ◌∷◌, ◌++◌, keep, keep-append, length, length-append,
  length-keep-le, sym, eq_iff, arith, Bool-cases, inl, inr, string_eq,
}
use saz.Prelude.Int.{ℤ, pos_part}
use mathlib.Core.List.{append-nil}
use saz.Policy.RateLimiter.{
  RateLimiter, Decision, allowed, minute_exceeded, hour_exceeded, minute, hour, is_live,
  check_and_record,
}
use saz.Policy.RateLimiter.Spec.{
  Call, tool_limit, times, of_tool, of_run, below, decide, extend, admitted, in_window, Ascending,
}
use saz.Policy.RateLimiter.Tracking.{times-append}
use saz.Policy.RateLimiter.Refines.{Tracks, same_decision, step-Tracks, Tracks-fresh, IsFresh}

-- Every window of the length `w` holds at most `limit` of the times.
abbrev AtMost : ℕ → ℤ → List ℕ → Type 0
AtMost w limit ts = (u : ℕ) → length (keep (in_window w u) ts) ≤ pos_part limit

window_live : (w now u : ℕ) → now ≤ u → (ts : ℕ) → in_window w u ts ≡ true → is_live w now ts ≡ true
window_live w now u h ts e = ground arith

AtMost-append :
    (w now : ℕ) (limit : ℤ) (ts : List ℕ)
    → below w now limit ts ≡ true
    → AtMost w limit ts
    → AtMost w limit (ts ++ now ∷ [])
AtMost-append w now limit ts b h u =
    rw (keep-append, length-append)
      (ground (
        arith,
        h u,
        λ (le : now ≤ u).
            length-keep-le (in_window w u) (is_live w now) (window_live w now u le) ts,
      ))

record IsBounded (r : RateLimiter) (log : List Call) : Type 0 where
  tools : (t : String) → AtMost minute (tool_limit r t) (times (of_tool t) log)
  runs : (t : String) → AtMost hour r.calls_per_hour (times (of_run t) log)

-- A call that a test does not select leaves its times as they were.
AtMost-times :
    (w : ℕ) (limit : ℤ) (p : Call → Bool) (log : List Call) (c : Call)
    → (p c ≡ true → below w c.time limit (times p log) ≡ true)
    → AtMost w limit (times p log)
    → AtMost w limit (times p (log ++ c ∷ []))
AtMost-times w limit p log c b h = elim (Bool-cases (p c)) [
  | inl e ↦ rw (times-append, e) (AtMost-append w c.time limit (times p log) (b e) h)
  | inr e ↦ rw (times-append, e, append-nil) h
]

-- The contract allows a call only below both limits.
decide-allowed :
    (r : RateLimiter) (log : List Call) (c : Call)
    → decide r log c ≡ allowed
    → (below minute c.time (tool_limit r c.tool) (times (of_tool c.tool) log) ≡ true)
      × (below hour c.time r.calls_per_hour (times (of_run c.run) log) ≡ true)
unfolding decide
decide-allowed r log c h = ground arith

extend-IsBounded :
    (r : RateLimiter) (log : List Call) (c : Call) (d : Decision)
    → decide r log c ≡ d
    → IsBounded r log
    → IsBounded r (extend d log c)
extend-IsBounded r log c (minute_exceeded t l) e h = h
extend-IsBounded r log c (hour_exceeded l) e h = h
extend-IsBounded r log c allowed e h =
    let both = decide-allowed r log c e in
    record {
      tools = λ t.
          AtMost-times minute (tool_limit r t) (of_tool t) log c
            (λ k. rw (← (eq_iff c.tool t).0 k) both.0) (h.tools t);
      runs = λ t.
          AtMost-times hour r.calls_per_hour (of_run t) log c
            (λ k. rw (← (eq_iff c.run t).0 k) both.1) (h.runs t);
    }

admitted-IsBounded :
    (r : RateLimiter) (log : List Call) (now : ℕ) (s : RateLimiter) (cs : List Call)
    → Tracks r log now s
    → Ascending now cs
    → IsBounded r log
    → IsBounded r (admitted s log cs)
unfolding admitted
admitted-IsBounded r log now s [] t a h = h
admitted-IsBounded r log now s (c ∷ cs) t a h =
    let (s', d) = check_and_record c.time c.tool c.run s in
    admitted-IsBounded r (extend d log c) c.time s' cs (step-Tracks r log now s c t a.0) a.1
      (extend-IsBounded r log c d (sym (same_decision r log now s c t a.0)) h)

-- From empty buckets and on a clock that does not go back, whatever calls are made: in every
-- window of sixty seconds the allowed calls of a tool are at most its limit, and in every window
-- of an hour the allowed calls of a run are at most the hourly limit.
pub admitted_bounds :
    (r : RateLimiter) (cs : List Call) (t run : String) (u : ℕ)
    → IsFresh r
    → Ascending 0 cs
    → (length (keep (in_window minute u) (times (of_tool t) (admitted r [] cs)))
        ≤ pos_part (tool_limit r t))
      × (length (keep (in_window hour u) (times (of_run run) (admitted r [] cs)))
          ≤ pos_part r.calls_per_hour)
admitted_bounds r cs t run u h a =
    let b =
      admitted-IsBounded r [] 0 r cs (Tracks-fresh r h) a
        (record { tools = λ t u. omega arith; runs = λ t u. omega arith }) in
    (b.tools t u, b.runs run u)
