-- ===== src/Policy/Pii.antt =====
-- Where a tool's arguments hold personal data: `PIIDetector.scan_dict` of
-- backend/saz/policies/pii_detector.py, and the allow-lists of paths of
-- backend/saz/policies/pii_token_vault.py. Whether a text holds personal data is a parameter: the
-- patterns of the detector are regular expressions.
pub mod Slices
pub mod Findings
mod Tests
use saz.Prelude.{
  ℕ, suc, String, Bool, true, false, not, ◌&&◌, ◌||◌, List, [], ◌∷◌, ◌++◌, keep, any, contains,
  ◌==◌, string_eq, nat_eq, if◌then◌else◌,
}
use Prim.Native.Char.{Char, code}
use text.Mathlib.Text.{starts_with}
use saz.Prelude.Json.{
  Value, null, bool, str, num, time, obj, arr, Fields, end, field, Items, no_item, item, concat,
}
use saz.Prelude.Texts.{single, is_digit, decimal}

-- What is held back of the text: an open bracket and the digits behind it.
abbrev pub held : String → Char → String
held buffer c =
    if code c == b'['
    then "["
    else if not (buffer == "") && is_digit c
    then concat (buffer ∷ single c ∷ [])
    else ""

-- What a character releases of it.
abbrev pub released : String → Char → String
released buffer c =
    if code c == b'['
    then buffer
    else if buffer == ""
    then single c
    else if is_digit c || (code c == b']' && not (buffer == "["))
    then ""
    else concat (buffer ∷ single c ∷ [])

-- `_ARRAY_INDEX_RE.sub("", path)` in one pass
unfoldable pub strip_indices : String → String → String
strip_indices buffer String.[] = buffer
strip_indices buffer (String.◌∷◌ c s) =
    concat (released buffer c ∷ strip_indices (held buffer c) s ∷ [])

unfoldable pub path_matches_allowed : String → List String → Bool
unfolding strip_indices
path_matches_allowed path allowed_paths =
    let clean_path = strip_indices "" path in
    contains clean_path allowed_paths
    || any
        (λ allowed. starts_with clean_path (concat (allowed ∷ "." ∷ [])) || clean_path == allowed)
        allowed_paths

-- `f"{path}.{k}" if path else k`, and `f"{path}[{i}]"`
abbrev pub key_path : String → String → String
key_path path k = if path == "" then k else concat (path ∷ "." ∷ k ∷ [])

abbrev pub index_path : String → ℕ → String
index_path path i = concat (path ∷ "[" ∷ decimal i ∷ "]" ∷ [])

-- The paths of the texts that a test selects.
unfoldable mutual
  pub scan : (Value → Bool) → String → Value → List String
  scan detects path (str s) = if detects (str s) then path ∷ [] else []
  scan detects path (time t) = if detects (time t) then path ∷ [] else []
  scan detects path (obj fs) = scan_fields detects path fs
  scan detects path (arr xs) = scan_items detects path 0 xs
  scan detects path null = []
  scan detects path (bool b) = []
  scan detects path (num n k) = []

  pub scan_fields : (Value → Bool) → String → Fields → List String
  scan_fields detects path end = []
  scan_fields detects path (field k v fs) =
      scan detects (key_path path k) v ++ scan_fields detects path fs

  pub scan_items : (Value → Bool) → String → ℕ → Items → List String
  scan_items detects path i no_item = []
  scan_items detects path i (item v xs) =
      scan detects (index_path path i) v ++ scan_items detects path (suc i) xs

unfoldable pub scan_dict : (Value → Bool) → Fields → List String
unfolding scan
scan_dict detects d = scan_fields detects "" d

unfoldable pub disallowed_pii_paths : List String → List String → List String
unfolding path_matches_allowed
disallowed_pii_paths pii_paths allowed_paths =
    keep (λ p. not (path_matches_allowed p allowed_paths)) pii_paths
