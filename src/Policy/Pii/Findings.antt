-- ===== src/Policy/Pii/Findings.antt =====
-- What the detector of backend/saz/policies/pii_detector.py finds in a text, and the text with it
-- taken out: `detect`, `_dedupe` and `redact`. The regular expressions, with their validators and
-- maskers, are parameters. The lines of the log are left out.
pub mod Covers
pub mod Hidden
mod Tests
use saz.Prelude.{
  ℕ, ◌-◌, String, Bool, true, false, not, ◌&&◌, ◌||◌, Option, none, some, List, [], ◌∷◌, ◌++◌, any,
  ltb, leb, ◌==◌, string_eq, nat_eq, if◌then◌else◌,
}
use saz.Policy.Pii.Slices.{splice}

pub record Finding : Type 0 where
  pub kind : String
  pub value : String
  pub start : ℕ
  pub stop : ℕ
  pub note : Option String

-- A match of a pattern: `m.group(0)`, its group `val` where it has one, and where it stands.
pub record Match : Type 0 where
  pub whole : String
  pub val : Option String
  pub start : ℕ
  pub stop : ℕ

-- `finditer`, the validator and the masker, which may raise
pub record PatternSpec : Type 0 where
  pub finditer : String → List Match
  pub validator : Option (String → Bool × Option String)
  pub masker : String → Option String

pub record Detector : Type 0 where
  pub specs : List (String × PatternSpec)
  pub enabled : List String

abbrev pub or_else : Option String → String → String
or_else none s = s
or_else (some t) s = t

abbrev pub raw : String → Match → String
raw name m = if name == "kv_secret" then or_else m.val m.whole else m.whole

abbrev pub validated : Option (String → Bool × Option String) → String → Bool × Option String
validated none s = (true, none)
validated (some f) s = f s

abbrev pub found_by : String → PatternSpec → List Match → List Finding
found_by name spec [] = []
found_by name spec (m ∷ ms) =
    let value = raw name m in
    let verdict = validated spec.validator value in
    let rest = found_by name spec ms in
    if verdict.0
    then record { kind = name; value = value; start = m.start; stop = m.stop; note = verdict.1 }
      ∷ rest
    else rest

abbrev pub find_spec : List (String × PatternSpec) → String → Option PatternSpec
find_spec [] name = none
find_spec ((n, spec) ∷ specs) name = if n == name then some spec else find_spec specs name

abbrev pub found_in : String → String → Option PatternSpec → List Finding
found_in text name none = []
found_in text name (some spec) = found_by name spec (spec.finditer text)

-- The findings of all enabled patterns, in their order.
unfoldable pub findings : Detector → String → List String → List Finding
findings d text [] = []
findings d text (name ∷ names) =
    found_in text name (find_spec d.specs name) ++ findings d text names

-- `_PRIORITY.get(t, 50)`
abbrev pub priorities : List (String × ℕ)
priorities =
    ("credit_card", 90)
    ∷ ("iban", 90)
    ∷ ("jwt", 85)
    ∷ ("email", 80)
    ∷ ("ssn", 80)
    ∷ ("google_api_key", 75)
    ∷ ("github_token", 75)
    ∷ ("sendgrid", 75)
    ∷ ("stripe_sk", 75)
    ∷ ("slack_token", 75)
    ∷ ("twilio", 75)
    ∷ ("aws_access_key_id", 75)
    ∷ ("api_key", 72)
    ∷ ("kv_secret", 70)
    ∷ ("entropy_token", 55)
    ∷ ("ipv6", 50)
    ∷ ("ipv4", 50)
    ∷ ("mac", 50)
    ∷ ("phone", 40)
    ∷ []

abbrev pub find_priority : List (String × ℕ) → String → ℕ
find_priority [] kind = 50
find_priority ((k, n) ∷ table) kind = if k == kind then n else find_priority table kind

unfoldable pub pri : String → ℕ
pri kind = find_priority priorities kind

-- `f.end - f.start`, which is negative for no match
abbrev pub span : Finding → ℕ
span f = f.stop - f.start

-- Whether the key of the first is at most that of the second, where a higher priority and a longer
-- span come first.
abbrev pub key_le : Finding → Finding → Bool
key_le f g =
    ltb (pri g.kind) (pri f.kind)
    || (pri f.kind == pri g.kind
        && (ltb (span g) (span f) || (span f == span g && leb f.start g.start)))

-- Python's sort, which keeps the order of equals.
module _ (before : Finding → Finding → Bool) where
  abbrev pub insert : Finding → List Finding → List Finding
  insert f [] = f ∷ []
  insert f (g ∷ gs) = if before f g then f ∷ g ∷ gs else g ∷ insert f gs

  abbrev pub sort : List Finding → List Finding
  sort [] = []
  sort (f ∷ fs) = insert f (sort fs)

-- The finding lies within the kept one, unless it is the same span of another type.
abbrev pub dropped_for : Finding → Finding → Bool
dropped_for f k =
    not (f.start == k.start && f.stop == k.stop && not (f.kind == k.kind))
    && leb k.start f.start
    && leb f.stop k.stop

-- The first loop of `_dedupe`, over the sorted findings
unfoldable pub keep_each : List Finding → List Finding → List Finding
keep_each kept [] = kept
keep_each kept (f ∷ fs) = keep_each (if any (dropped_for f) kept then kept else kept ++ f ∷ []) fs

abbrev pub same_key : Finding → Finding → Bool
same_key f g = f.kind == g.kind && f.start == g.start && f.stop == g.stop && f.value == g.value

-- `uniq[(f.type, f.start, f.end, f.value)] = f`
unfoldable pub put : Finding → List Finding → List Finding
put f [] = f ∷ []
put f (g ∷ gs) = if same_key f g then f ∷ gs else g ∷ put f gs

unfoldable pub put_all : List Finding → List Finding → List Finding
unfolding put
put_all uniq [] = uniq
put_all uniq (f ∷ fs) = put_all (put f uniq) fs

abbrev pub start_le : Finding → Finding → Bool
start_le f g = leb f.start g.start

unfoldable pub dedupe : List Finding → List Finding
unfolding keep_each put_all
dedupe items = sort start_le (put_all [] (keep_each [] (sort key_le items)))

unfoldable pub detect : Detector → String → List Finding
unfolding findings dedupe
detect d text = dedupe (findings d text d.enabled)

-- `_mask`, with the masker of an unknown type
abbrev pub mask_of : Detector → String → String → String
mask_of d kind value = elim (find_spec d.specs kind) [
  | none ↦ "***REDACTED***"
  | some spec ↦ or_else (spec.masker value) "***REDACTED***"
]

abbrev pub mask_for : Detector → String → Finding → String
mask_for d replacement f = if replacement == "auto" then mask_of d f.kind f.value else replacement

-- `sort(key=start, reverse=True)`, which keeps the order of equals too
abbrev pub start_ge : Finding → Finding → Bool
start_ge f g = leb g.start f.start

unfoldable pub splice_all : (Finding → String) → List Finding → String → String
unfolding splice
splice_all mask [] out = out
splice_all mask (f ∷ fs) out = splice_all mask fs (splice (mask f) f.start f.stop out)

unfoldable pub redact : Detector → String → String → String
unfolding detect splice_all
redact d text replacement = splice_all (mask_for d replacement) (sort start_ge (detect d text)) text
