-- ===== src/Policy/RateLimiter/Tests.antt =====
-- Runs of the rate limiter, and each theorem at an input.
use saz.Prelude.{
  ℕ, ◌*◌, ◌≤◌, String, ◌≡◌, refl, string_eq, List, [], ◌∷◌, keep, length, arith, insert, empty,
}
use saz.Prelude.Int.{pos}
use saz.Policy.RateLimiter.{
  RateLimiter, allowed, minute_exceeded, hour_exceeded, minute, hour, check_bucket,
  check_and_record,
}
use saz.Policy.RateLimiter.Spec.{
  Call, times, of_tool, of_run, decisions, serve, admitted, in_window,
}
use saz.Policy.RateLimiter.Refines.{serve-eq-decisions}
use saz.Policy.RateLimiter.Bounds.{admitted_bounds}

abbrev limiter : RateLimiter
limiter = record {
  calls_per_minute = pos 10;
  calls_per_hour = pos 3;
  per_tool_rpm = insert "http_request" (pos 2) empty;
  minute_buckets = λ t. [];
  hour_buckets = λ t. [];
}

abbrev call : ℕ → String → Call
call s t = record { time = s * 1000000; tool = t; run = "r1" }

-- The third request comes within the minute, and the fifth call is the run's fourth in the hour.
abbrev calls : List Call
calls =
    call 0 "http_request"
    ∷ call 10 "http_request"
    ∷ call 20 "http_request"
    ∷ call 60 "http_request"
    ∷ call 70 "docx_render"
    ∷ []

answers :
    serve limiter calls
    ≡ allowed
      ∷ allowed
      ∷ minute_exceeded "http_request" (pos 2)
      ∷ allowed
      ∷ hour_exceeded (pos 3)
      ∷ []
unfolding serve check_and_record check_bucket
answers = refl

serve-eq-decisions_example : serve limiter calls ≡ decisions limiter [] calls
serve-eq-decisions_example = serve-eq-decisions limiter calls (λ t. refl, λ t. refl) (omega arith)

admitted_bounds_example :
    (length (
        keep
          (in_window minute 60000000)
          (times (of_tool "http_request") (admitted limiter [] calls)))
      ≤ 2)
    × (length (keep (in_window hour 60000000) (times (of_run "r1") (admitted limiter [] calls)))
        ≤ 3)
admitted_bounds_example =
    admitted_bounds limiter calls "http_request" "r1" 60000000 (λ t. refl, λ t. refl) (omega arith)
