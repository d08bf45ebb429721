-- ===== src/Redaction/Clean.antt =====
-- No secret is left in what `redact_sensitive` of backend/saz/security/redaction.py returns.
use saz.Prelude.{
  String, ◌≡◌, refl, ◌∙◌, ap, Bool, true, false, ◌&&◌, List, [], ◌∷◌, all, keep, if◌then◌else◌, leb,
  arith, if-holds,
}
use saz.Prelude.Json.{
  Value, null, bool, str, num, time, obj, arr, Fields, end, field, Items, no_item, item,
}
use saz.Redaction.{
  size, occurs, redacted, insert_by_size, sort_by_size, is_long, prepared, is_sensitive_key, redact,
  redact_fields, redact_items, redact_sensitive, scrub_value, scrub_fields, scrub_items,
  scrub_if_any, redact_secret_values,
}
use saz.Redaction.Scrub.{is_plain, is_free, scrub-free, redacted-plain}

-- No text of the value holds one of the secrets.
abbrev mutual
  pub is_clean : List String → Value → Bool
  is_clean values null = true
  is_clean values (bool b) = true
  is_clean values (num n k) = true
  is_clean values (time t) = true
  is_clean values (str s) = is_free values s
  is_clean values (obj fs) = is_clean_fields values fs
  is_clean values (arr xs) = is_clean_items values xs

  pub is_clean_fields : List String → Fields → Bool
  is_clean_fields values end = true
  is_clean_fields values (field k v fs) = is_clean values v && is_clean_fields values fs

  pub is_clean_items : List String → Items → Bool
  is_clean_items values no_item = true
  is_clean_items values (item v xs) = is_clean values v && is_clean_items values xs

redacted-free : (values : List String) → all is_plain values ≡ true → is_free values redacted ≡ true
redacted-free [] h = refl
redacted-free (s ∷ values) h =
    both redacted (redacted-plain s (ground (arith, h))) (redacted-free values (ground (arith, h)))
  where
    both :
        (u : String) → occurs s u ≡ false → is_free values u ≡ true → is_free (s ∷ values) u ≡ true
    both u o f = ground (arith, o, f)

module _ (lower : String → String) (values : List String) (h : all is_plain values ≡ true) where
  cons-clean :
      (v : Value) (fs : Fields) (k : String)
      → is_clean values v ≡ true
      → is_clean_fields values fs ≡ true
      → is_clean_fields values (field k v fs) ≡ true
  cons-clean v fs k e f = ground (arith, e, f)

  mutual
    redact-clean : (v : Value) → is_clean values (redact lower values v) ≡ true
    redact-clean null = refl
    redact-clean (bool b) = refl
    redact-clean (num n k) = refl
    redact-clean (time t) = refl
    redact-clean (str s) = scrub-free values s h
    redact-clean (obj fs) = redact_fields-clean fs
    redact-clean (arr xs) = redact_items-clean xs

    redact_fields-clean :
        (fs : Fields) → is_clean_fields values (redact_fields lower values fs) ≡ true
    redact_fields-clean end = refl
    redact_fields-clean (field k v fs) =
        cons-clean (if is_sensitive_key lower k then str redacted else redact lower values v)
          (redact_fields lower values fs) k
          (if-holds (λ (x : Value). is_clean values x ≡ true) (is_sensitive_key lower k) _ _
            (λ e. redacted-free values h) (λ e. redact-clean v))
          (redact_fields-clean fs)

    redact_items-clean : (xs : Items) → is_clean_items values (redact_items lower values xs) ≡ true
    redact_items-clean no_item = refl
    redact_items-clean (item v xs) = ground (arith, redact-clean v, redact_items-clean xs)

  mutual
    scrub_value-clean : (v : Value) → is_clean values (scrub_value values v) ≡ true
    scrub_value-clean null = refl
    scrub_value-clean (bool b) = refl
    scrub_value-clean (num n k) = refl
    scrub_value-clean (time t) = refl
    scrub_value-clean (str s) = scrub-free values s h
    scrub_value-clean (obj fs) = scrub_fields-clean fs
    scrub_value-clean (arr xs) = scrub_items-clean xs

    scrub_fields-clean : (fs : Fields) → is_clean_fields values (scrub_fields values fs) ≡ true
    scrub_fields-clean end = refl
    scrub_fields-clean (field k v fs) =
        cons-clean (scrub_value values v) (scrub_fields values fs) k (scrub_value-clean v)
          (scrub_fields-clean fs)

    scrub_items-clean : (xs : Items) → is_clean_items values (scrub_items values xs) ≡ true
    scrub_items-clean no_item = refl
    scrub_items-clean (item v xs) = ground (arith, scrub_value-clean v, scrub_items-clean xs)

all-insert :
    (p : String → Bool) (s : String) (ss : List String)
    → all p (insert_by_size s ss) ≡ (p s && all p ss)
all-insert p s [] = refl
all-insert p s (t ∷ ss) =
    if-holds (λ (x : List String). all p x ≡ (p s && (p t && all p ss))) (leb (size t) (size s)) _ _
      (λ e. refl) (λ e. ground (arith, all-insert p s ss))

all-sort : (p : String → Bool) (ss : List String) → all p (sort_by_size ss) ≡ all p ss
all-sort p [] = refl
all-sort p (s ∷ ss) = all-insert p s (sort_by_size ss) ∙ ap (λ b. p s && b) (all-sort p ss)

-- No secret of four characters or more is left in a text of the value, however it is nested, and
-- whatever other secrets are taken out with it: let each of these secrets be without an asterisk
-- and no part of the word REDACTED. The names of entries are not looked at.
pub redact_sensitive-clean :
    (lower : String → String) (secret_values : List String) (v : Value)
    → all is_plain (keep is_long secret_values) ≡ true
    → is_clean (prepared secret_values) (redact_sensitive lower secret_values v) ≡ true
unfolding redact_sensitive
redact_sensitive-clean lower secret_values v h =
    redact-clean lower (prepared secret_values) (all-sort is_plain (keep is_long secret_values) ∙ h)
      v

-- Without secrets every value is clean.
mutual
  none-clean : (v : Value) → is_clean [] v ≡ true
  none-clean null = refl
  none-clean (bool b) = refl
  none-clean (num n k) = refl
  none-clean (time t) = refl
  none-clean (str s) = refl
  none-clean (obj fs) = none-clean_fields fs
  none-clean (arr xs) = none-clean_items xs

  none-clean_fields : (fs : Fields) → is_clean_fields [] fs ≡ true
  none-clean_fields end = refl
  none-clean_fields (field k v fs) = ground (arith, none-clean v, none-clean_fields fs)

  none-clean_items : (xs : Items) → is_clean_items [] xs ≡ true
  none-clean_items no_item = refl
  none-clean_items (item v xs) = ground (arith, none-clean v, none-clean_items xs)

scrub_if_any-clean :
    (values : List String) (v : Value)
    → all is_plain values ≡ true
    → is_clean (sort_by_size values) (scrub_if_any values v) ≡ true
scrub_if_any-clean [] v h = none-clean v
scrub_if_any-clean (s ∷ values) v h =
    scrub_value-clean (λ k. k) (sort_by_size (s ∷ values)) (all-sort is_plain (s ∷ values) ∙ h) v

-- The same of the redaction that does not look at the names of entries: no secret of four
-- characters or more is left in a text of the value, under the same condition on the secrets.
pub redact_secret_values-clean :
    (secret_values : List String) (v : Value)
    → all is_plain (keep is_long secret_values) ≡ true
    → is_clean (prepared secret_values) (redact_secret_values secret_values v) ≡ true
unfolding redact_secret_values
redact_secret_values-clean secret_values v h = scrub_if_any-clean (keep is_long secret_values) v h
