-- ===== src/Policy/RateLimiter/Spec.antt =====
-- The contract of backend/saz/policies/rate_limiter.py: a sliding-window limiter that forgets
-- nothing and decides each call by counting in the history of the allowed calls.
use saz.Prelude.{
  ℕ, ◌+◌, ◌≤◌, String, Bool, List, [], ◌∷◌, ◌++◌, ◌&&◌, keep, length, leb, ltb, ◌==◌, string_eq,
  get_or, if◌then◌else◌,
}
use saz.Prelude.Int.{ℤ, pos, ltb_ℤ}
use saz.Policy.RateLimiter.{
  RateLimiter, Decision, allowed, minute_exceeded, hour_exceeded, minute, hour, is_live,
  check_and_record,
}

pub record Call : Type 0 where
  pub time : ℕ
  pub tool : String
  pub run : String

abbrev pub tool_limit : RateLimiter → String → ℤ
tool_limit r t = get_or r.per_tool_rpm t r.calls_per_minute

-- The times of the calls that a test selects.
abbrev pub times : (Call → Bool) → List Call → List ℕ
times p [] = []
times p (c ∷ cs) = let rest = times p cs in if p c then c.time ∷ rest else rest

abbrev pub of_tool : String → Call → Bool
of_tool t c = c.tool == t

abbrev pub of_run : String → Call → Bool
of_run t c = c.run == t

abbrev pub below : ℕ → ℕ → ℤ → List ℕ → Bool
below window now limit ts = ltb_ℤ (pos (length (keep (is_live window now) ts))) limit

-- What the contract answers to a call after the history `log` of allowed calls.
unfoldable pub decide : RateLimiter → List Call → Call → Decision
decide r log c =
    if below minute c.time (tool_limit r c.tool) (times (of_tool c.tool) log)
    then (if below hour c.time r.calls_per_hour (times (of_run c.run) log)
        then allowed
        else hour_exceeded r.calls_per_hour)
    else minute_exceeded c.tool (tool_limit r c.tool)

abbrev pub extend : Decision → List Call → Call → List Call
extend allowed log c = log ++ c ∷ []
extend _ log c = log

unfoldable pub decisions : RateLimiter → List Call → List Call → List Decision
decisions r log [] = []
decisions r log (c ∷ cs) = let d = decide r log c in d ∷ decisions r (extend d log c) cs

-- The limiter of the source, asked call by call.
unfoldable pub serve : RateLimiter → List Call → List Decision
serve r [] = []
serve r (c ∷ cs) = let (r', d) = check_and_record c.time c.tool c.run r in d ∷ serve r' cs

-- The calls that the limiter of the source allowed, behind those of `log`.
unfoldable pub admitted : RateLimiter → List Call → List Call → List Call
admitted r log [] = log
admitted r log (c ∷ cs) =
    let (r', d) = check_and_record c.time c.tool c.run r in admitted r' (extend d log c) cs

-- The clock does not go back.
abbrev pub Ascending : ℕ → List Call → Type 0
Ascending now [] = Unit
Ascending now (c ∷ cs) = (now ≤ c.time) × Ascending c.time cs

-- The window that ends at `now`.
abbrev pub in_window : ℕ → ℕ → ℕ → Bool
in_window window now ts = ltb now (ts + window) && leb ts now
