-- ===== src/Policy/RateLimiter/Tracking.antt =====
-- The pruned buckets of backend/saz/policies/rate_limiter.py against the history of allowed calls.
use saz.Prelude.{
  ℕ, ◌≤◌, ◌≡◌, ◌∙◌, Bool, true, List, [], ◌∷◌, ◌++◌, keep, keep-append, keep-keep, arith, string_eq,
  if◌then◌else◌,
}
use saz.Policy.RateLimiter.{is_live}
use saz.Policy.RateLimiter.Spec.{Call, times}

pub times-append :
    (p : Call → Bool) (log : List Call) (c : Call)
    → times p (log ++ c ∷ []) ≡ times p log ++ (if p c then c.time ∷ [] else [])
times-append p [] c = ground arith
times-append p (d ∷ log) c = ground (arith, times-append p log c)

live_later : (w now u : ℕ) → now ≤ u → (ts : ℕ) → is_live w u ts ≡ true → is_live w now ts ≡ true
live_later w now u h ts e = ground arith

-- From `now` on, the bucket shows the same live entries as the history.
abbrev pub Agrees : ℕ → ℕ → List ℕ → List ℕ → Type 0
Agrees w now bucket ts = (u : ℕ) → now ≤ u → keep (is_live w u) bucket ≡ keep (is_live w u) ts

pub Agrees-prune :
    (w now v : ℕ) (bucket ts : List ℕ)
    → Agrees w now bucket ts
    → now ≤ v
    → Agrees w v (keep (is_live w v) bucket) ts
Agrees-prune w now v bucket ts h le u hu =
    keep-keep (is_live w u) (is_live w v) (live_later w v u hu) bucket ∙ h u (omega arith)

pub Agrees-append :
    (w now x : ℕ) (bucket ts : List ℕ)
    → Agrees w now bucket ts
    → Agrees w now (bucket ++ x ∷ []) (ts ++ x ∷ [])
Agrees-append w now x bucket ts h u hu = simp (keep-append, h u hu)

pub Agrees-later :
    (w now v : ℕ) (bucket ts : List ℕ) → Agrees w now bucket ts → now ≤ v → Agrees w v bucket ts
Agrees-later w now v bucket ts h le u hu = h u (omega arith)
