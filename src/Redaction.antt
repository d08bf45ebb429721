-- ===== src/Redaction.antt =====
-- backend/saz/security/redaction.py: values of secrets, and what stands under the names of secrets,
-- are taken out of JSON values before these are stored, logged or sent. `str.lower` is a
-- parameter. The texts of instants are taken to hold no secret.
pub mod Scrub
pub mod Clean
mod Tests
use saz.Prelude.{
  ℕ, zero, suc, String, Bool, true, false, not, ◌&&◌, ◌||◌, List, [], ◌∷◌, contains, any, keep,
  ◌==◌, string_eq, nat_eq, leb, ltb, if◌then◌else◌,
}
use Prim.Native.Char.{Char, code}
use saz.Prelude.Json.{
  Value, null, bool, str, num, time, obj, arr, Fields, end, field, Items, no_item, item,
}

abbrev pub size : String → ℕ
size String.[] = 0
size (String.◌∷◌ c s) = suc (size s)

abbrev pub onto : String → String → String
onto String.[] t = t
onto (String.◌∷◌ c s) t = String.◌∷◌ c (onto s t)

-- `t.startswith(s)`
abbrev pub begins : String → String → Bool
begins String.[] t = true
begins (String.◌∷◌ c s) String.[] = false
begins (String.◌∷◌ c s) (String.◌∷◌ d t) = code c == code d && begins s t

-- `s in t`
abbrev pub occurs : String → String → Bool
occurs s String.[] = begins s String.[]
occurs s (String.◌∷◌ c t) = begins s (String.◌∷◌ c t) || occurs s t

abbrev pub redacted : String
redacted = "***REDACTED***"

abbrev pub rest_size : String → ℕ
rest_size String.[] = 0
rest_size (String.◌∷◌ c s) = size s

-- `t.replace(s, REDACTED)`, behind so many characters of an occurrence
abbrev pub replace : String → ℕ → String → String
replace s k String.[] = ""
replace s (suc k) (String.◌∷◌ c t) = replace s k t
replace s zero (String.◌∷◌ c t) =
    if begins s (String.◌∷◌ c t)
    then onto redacted (replace s (rest_size s) t)
    else String.◌∷◌ c (replace s zero t)

-- `_scrub` of a text
abbrev pub scrub : List String → String → String
scrub [] t = t
scrub (s ∷ values) t = scrub values (if occurs s t then replace s zero t else t)

-- `values.sort(key=len, reverse=True)`
abbrev pub insert_by_size : String → List String → List String
insert_by_size s [] = s ∷ []
insert_by_size s (t ∷ ts) = if leb (size t) (size s) then s ∷ t ∷ ts else t ∷ insert_by_size s ts

abbrev pub sort_by_size : List String → List String
sort_by_size [] = []
sort_by_size (s ∷ ss) = insert_by_size s (sort_by_size ss)

abbrev pub is_long : String → Bool
is_long s = leb 4 (size s)

abbrev pub prepared : List String → List String
prepared secret_values = sort_by_size (keep is_long secret_values)

-- `_SENSITIVE_SEGMENTS` and `_KEY_QUALIFIERS`
abbrev pub sensitive_segments : List String
sensitive_segments =
    "password" ∷ "passwd" ∷ "passphrase" ∷ "secret" ∷ "secrets" ∷ "token" ∷ "apikey" ∷ "credential"
    ∷ "credentials" ∷ "authorization" ∷ "cookie" ∷ []

abbrev pub key_qualifiers : List String
key_qualifiers =
    "api" ∷ "private" ∷ "secret" ∷ "access" ∷ "encryption" ∷ "signing" ∷ "ssh" ∷ "gpg" ∷ "pgp"
    ∷ "auth" ∷ []

-- `key.replace("-", "_")`
abbrev pub underscored : String → String
underscored String.[] = ""
underscored (String.◌∷◌ c s) =
    if code c == b'-' then onto "_" (underscored s) else String.◌∷◌ c (underscored s)

-- The segments between underscores, the empty ones included.
abbrev pub prefixed : Char → List String → List String
prefixed c [] = String.◌∷◌ c "" ∷ []
prefixed c (s ∷ ss) = String.◌∷◌ c s ∷ ss

abbrev pub segments : String → List String
segments String.[] = "" ∷ []
segments (String.◌∷◌ c s) = if code c == b'_' then "" ∷ segments s else prefixed c (segments s)

module _ (lower : String → String) where
  unfoldable pub is_sensitive_key : String → Bool
  is_sensitive_key key =
      let normalised = underscored (lower key) in
      let seg_set = segments normalised in
      any (λ s. contains s sensitive_segments) seg_set
      || occurs "apikey" normalised
      || (contains "key" seg_set && any (λ s. contains s key_qualifiers) seg_set)

  -- `_redact`
  abbrev mutual
    pub redact : List String → Value → Value
    redact values null = null
    redact values (bool b) = bool b
    redact values (num n k) = num n k
    redact values (time t) = time t
    redact values (str s) = str (scrub values s)
    redact values (obj fs) = obj (redact_fields values fs)
    redact values (arr xs) = arr (redact_items values xs)

    pub redact_fields : List String → Fields → Fields
    redact_fields values end = end
    redact_fields values (field k v fs) =
        field k (if is_sensitive_key k then str redacted else redact values v)
          (redact_fields values fs)

    pub redact_items : List String → Items → Items
    redact_items values no_item = no_item
    redact_items values (item v xs) = item (redact values v) (redact_items values xs)

  unfoldable pub redact_sensitive : List String → Value → Value
  redact_sensitive secret_values v = redact (prepared secret_values) v

-- `_scrub` of a value, which looks at texts only
abbrev mutual
  pub scrub_value : List String → Value → Value
  scrub_value values null = null
  scrub_value values (bool b) = bool b
  scrub_value values (num n k) = num n k
  scrub_value values (time t) = time t
  scrub_value values (str s) = str (scrub values s)
  scrub_value values (obj fs) = obj (scrub_fields values fs)
  scrub_value values (arr xs) = arr (scrub_items values xs)

  pub scrub_fields : List String → Fields → Fields
  scrub_fields values end = end
  scrub_fields values (field k v fs) = field k (scrub_value values v) (scrub_fields values fs)

  pub scrub_items : List String → Items → Items
  scrub_items values no_item = no_item
  scrub_items values (item v xs) = item (scrub_value values v) (scrub_items values xs)

-- Without a secret that is long enough the value is returned as it is.
abbrev pub scrub_if_any : List String → Value → Value
scrub_if_any [] v = v
scrub_if_any (s ∷ values) v = scrub_value (sort_by_size (s ∷ values)) v

unfoldable pub redact_secret_values : List String → Value → Value
redact_secret_values secret_values v = scrub_if_any (keep is_long secret_values) v
