-- ===== src/Policy/Pii/Findings/Tests.antt =====
-- A detector with patterns that match at fixed places, and the theorem at two of its texts.
use saz.Prelude.{ℕ, zero, suc, String, ◌≡◌, refl, false, none, some, [], ◌∷◌, any}
use saz.Policy.Pii.Slices.{take, drop, char_at}
use saz.Policy.Pii.Findings.{Match, PatternSpec, Detector, findings, detect, pri, redact}
use saz.Policy.Pii.Findings.Covers.{has}
use saz.Policy.Pii.Findings.Hidden.{redact-hides}

abbrev slice : ℕ → ℕ → ℕ → String → Match
slice start long stop text = record {
  whole = take long (drop start text);
  val = none;
  start = start;
  stop = stop;
}

abbrev pattern_at : ℕ → ℕ → ℕ → PatternSpec
pattern_at start long stop = record {
  finditer = λ text. slice start long stop text ∷ [];
  validator = none;
  masker = λ value. some "<SECRET>";
}

-- A short code within a longer one.
abbrev codes : Detector
codes = record {
  specs = ("pin", pattern_at 3 4 7) ∷ ("ssn", pattern_at 3 3 6) ∷ [];
  enabled = "pin" ∷ "ssn" ∷ "unknown" ∷ [];
}

masked : redact codes "my 123X!" "***" ≡ "my ***!"
unfolding redact pri
masked = refl

-- The longer mask of the inner code pushes the last character of the outer one out.
masked_auto : redact codes "my 123X!" "auto" ≡ "my <SECRET>RET>X!"
unfolding redact pri
masked_auto = refl

redact-hides_example : redact codes "my 123X!" "***" ≡ redact codes "my 987Y!" "***"
unfolding findings detect pri
redact-hides_example = redact-hides codes "***" "my 123X!" "my 987Y!" refl refl refl refl agree
  where
    agree :
        (p : ℕ)
        → any (has p) (findings codes "my 123X!" ("pin" ∷ "ssn" ∷ "unknown" ∷ [])) ≡ false
        → char_at "my 123X!" p ≡ char_at "my 987Y!" p
    agree zero h = refl
    agree (suc zero) h = refl
    agree (suc (suc zero)) h = refl
    agree (suc (suc (suc zero))) h = cc
    agree (suc (suc (suc (suc zero)))) h = cc
    agree (suc (suc (suc (suc (suc zero))))) h = cc
    agree (suc (suc (suc (suc (suc (suc zero)))))) h = cc
    agree (suc (suc (suc (suc (suc (suc (suc p))))))) h = refl

-- An address within a password: the mask of the address is longer than the address, and the end of
-- the password comes out.
abbrev credentials : Detector
credentials = record {
  specs = ("email", pattern_at 9 8 17) ∷ ("kv_secret", pattern_at 0 25 25) ∷ [];
  enabled = "email" ∷ "kv_secret" ∷ [];
}

leaked : redact credentials "password=ab@cd.ef:hunter2" "***REDACTED***" ≡ "***REDACTED***unter2"
unfolding redact pri
leaked = refl

-- A token that two patterns match: the text behind it is lost.
abbrev tokens : Detector
tokens = record {
  specs = ("api_key", pattern_at 0 32 32) ∷ ("entropy_token", pattern_at 0 32 32) ∷ [];
  enabled = "api_key" ∷ "entropy_token" ∷ [];
}

lost :
    redact tokens "A1b2C3d4E5f6G7h8I9j0K1l2M3n4O5p6 for host db7" "***REDACTED***"
    ≡ "***REDACTED***"
unfolding redact pri
lost = refl
