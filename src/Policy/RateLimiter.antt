-- ===== src/Policy/RateLimiter.antt =====
-- backend/saz/policies/rate_limiter.py. A timestamp is a number of microseconds; each method takes
-- the reading of the clock that it makes. The two bucket tables have one key prefix each, so a
-- bucket goes by the tool's name or the run's id; a missing key is the empty bucket, as in a
-- `defaultdict(list)`.
mod Tracking
pub mod Spec
pub mod Refines
pub mod Bounds
mod Tests
use saz.Prelude.{
  ℕ, ◌+◌, ◌-◌, ◌*◌, String, Bool, List, [], ◌∷◌, ◌++◌, keep, length, ltb, ◌==◌, string_eq, Map,
  get_or, if◌then◌else◌,
}
use saz.Prelude.Int.{ℤ, pos, ltb_ℤ, pos_part, neg_part}

pub record RateLimiter : Type 0 where
  pub calls_per_minute : ℤ
  pub calls_per_hour : ℤ
  pub per_tool_rpm : Map ℤ
  pub minute_buckets : String → List ℕ
  pub hour_buckets : String → List ℕ

-- The second part of the returned pair, with the values that its text shows.
pub data Decision : Type 0 where
  allowed : Decision
  minute_exceeded : String → ℤ → Decision
  hour_exceeded : ℤ → Decision

abbrev pub minute : ℕ
minute = 60 * 1000000

abbrev pub hour : ℕ
hour = 3600 * 1000000

-- `ts > now - window`
abbrev pub is_live : ℕ → ℕ → ℕ → Bool
is_live window now ts = ltb now (ts + window)

-- `self.buckets[key] = bucket`
abbrev pub put : String → List ℕ → (String → List ℕ) → String → List ℕ
put k b buckets j = if k == j then b else buckets j

-- The pruned bucket, which the source writes back in place, and the answer.
unfoldable pub check_bucket : List ℕ → ℕ → ℕ → ℤ → List ℕ × Bool
check_bucket bucket now window limit =
    let live = keep (is_live window now) bucket in (live, ltb_ℤ (pos (length live)) limit)

unfoldable pub check_and_record : ℕ → String → String → RateLimiter → RateLimiter × Decision
check_and_record now tool_name run_id r =
    let tool_limit = get_or r.per_tool_rpm tool_name r.calls_per_minute in
    let (calls, below) = check_bucket (r.minute_buckets tool_name) now minute tool_limit in
    let pruned = record r { minute_buckets = put tool_name calls r.minute_buckets } in
    let (run_calls, run_below) = check_bucket (r.hour_buckets run_id) now hour r.calls_per_hour in
    let both = record pruned { hour_buckets = put run_id run_calls r.hour_buckets } in
    if below
    then (if run_below
        then (
          record both {
            minute_buckets = put tool_name (calls ++ now ∷ []) r.minute_buckets;
            hour_buckets = put run_id (run_calls ++ now ∷ []) r.hour_buckets;
          },
          allowed,
        )
        else (both, hour_exceeded r.calls_per_hour))
    else (pruned, minute_exceeded tool_name tool_limit)

pub record Stats : Type 0 where
  pub calls_last_hour : ℕ
  pub limit_per_hour : ℤ
  pub remaining_calls : ℕ

unfoldable pub get_stats : ℕ → String → RateLimiter → RateLimiter × Stats
get_stats now run_id r =
    let live = keep (is_live hour now) (r.hour_buckets run_id) in
    (
      record r { hour_buckets = put run_id live r.hour_buckets },
      record {
        calls_last_hour = length live;
        limit_per_hour = r.calls_per_hour;
        remaining_calls = pos_part r.calls_per_hour - length live;
      },
    )

unfoldable pub reset : String → RateLimiter → RateLimiter
reset run_id r = record r { hour_buckets = put run_id [] r.hour_buckets }
