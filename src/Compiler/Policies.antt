-- ===== src/Compiler/Policies.antt =====
-- `_compile_policies`, `_compile_credentials` and `compile_policies` of backend/saz/compiler/dsl.py.
use saz.Prelude.{
  String, Bool, true, false, not, ◌&&◌, Option, none, some, List, [], ◌∷◌, contains, map, Result,
  ok, err, ◌>>=◌, ◌>>◌, guard, string_eq,
}
use saz.Prelude.Int.{ℤ, pos, negsuc, leb_ℤ}
use saz.Prelude.Json.{
  Value, null, bool, str, num, obj, arr, Fields, end, field, no_item, lookup, assign, truthy,
  truthy_at,
}
use saz.Compiler.{
  Library, Refused, not_a_number, type_error, negative, bad_credentials, as_int, texts,
}
use saz.Compiler.Steps.{Check, validate_retry}

-- The refusals of these functions, with those of a retry policy.
pub data Unusable : Type 0 where
  unusable : Refused → Unusable
  concurrency_not_object duplicate_credentials : Unusable
  not_positive : String → Unusable

-- `float(v)`: a number is the same number as a `float`
abbrev pub as_float : Library → Value → Option Value
as_float lib (num n k) = some (num n k)
as_float lib (bool true) = some (num (pos 1) 0)
as_float lib (bool false) = some (num (pos 0) 0)
as_float lib (str s) = lib.float_of_text s
as_float lib _ = none

abbrev pub required_float : Option Value → Result Unusable Value
required_float none = err (unusable not_a_number)
required_float (some v) = ok v

abbrev pub required_int : Option ℤ → Result Unusable ℤ
required_int none = err (unusable not_a_number)
required_int (some n) = ok n

abbrev pub int_of : Library → Value → Result Unusable ℤ
int_of lib v = required_int (as_int lib v)

abbrev pub or_else : Value → Option Value → Value
or_else v none = v
or_else v (some w) = w

-- `v < 0` is refused, for a number `v`
abbrev pub not_negative : Value → Result Unusable (Unit {0})
not_negative (num (negsuc n) k) = err (unusable (negative "budget_usd"))
not_negative v = ok tt

-- The budget, checked where it is given.
abbrev pub budget : Library → Option Value → Result Unusable Value
budget lib none = ok (num (pos 100) 1)
budget lib (some v) = do limit ← required_float (as_float lib v); not_negative limit; ok limit

abbrev pub at_least_one : Library → String → Option Value → Result Unusable (Unit {0})
at_least_one lib k none = ok tt
at_least_one lib k (some v) = int_of lib v >>= λ n. guard (leb_ℤ (pos 1) n) (not_positive k)

abbrev pub check_concurrency : Library → Option Value → Result Unusable (Unit {0})
check_concurrency lib none = ok tt
check_concurrency lib (some (obj c)) = do
  at_least_one lib "per_flow" (lookup "per_flow" c)
  at_least_one lib "per_user" (lookup "per_user" c)
check_concurrency lib (some _) = err concurrency_not_object

-- `d.get(k, {})`, which is asked for its keys
abbrev pub object_or_empty : Option Value → Result Unusable Fields
object_or_empty none = ok end
object_or_empty (some (obj d)) = ok d
object_or_empty (some _) = err (unusable type_error)

abbrev pub usable : Check → Result Unusable (Unit {0})
usable (ok u) = ok u
usable (err e) = err (unusable e)

abbrev pub check_default_retry : Library → Value → Bool → Result Unusable (Unit {0})
check_default_retry lib v true = usable (validate_retry lib v)
check_default_retry lib v false = ok tt

-- `p.get("pii", {}) or {}`
abbrev pub pii_input : Option Value → Bool → Result Unusable Fields
pii_input v true = object_or_empty v
pii_input v false = ok end

abbrev pub with_exceptions : Option Value → Fields → Fields
with_exceptions none d = d
with_exceptions (some v) d = assign "exceptions" v d

-- The two settings, and the exceptions where there are any.
abbrev pub pii_output : Fields → Fields
pii_output pii_in = with_exceptions (lookup "exceptions" pii_in) (
    field "allow" (bool (truthy (or_else (bool false) (lookup "allow" pii_in)))) (
      field "tokenize_model_inputs"
        (bool (truthy (or_else (bool true) (lookup "tokenize_model_inputs" pii_in)))) end))

-- A limit that is left out, or null, is not written.
abbrev pub add_limit : Library → String → Option Value → Fields → Result Unusable Fields
add_limit lib k none out = ok out
add_limit lib k (some null) out = ok out
add_limit lib k (some v) out = int_of lib v >>= λ n. ok (assign k (num n 0) out)

-- `_compile_policies` behind `p or {}`
unfoldable pub compile_policies : Library → Fields → Result Unusable Fields
unfolding validate_retry
compile_policies lib p = do
  defaults ← object_or_empty (lookup "defaults" p)
  let retry = or_else (obj end) (lookup "retry" defaults)
  budget_usd ← budget lib (lookup "budget_usd" p)
  check_concurrency lib (lookup "concurrency" p)
  check_default_retry lib retry (truthy retry)
  pii_in ← pii_input (lookup "pii" p) (truthy (or_else (obj end) (lookup "pii" p)))
  timeout ← int_of lib (or_else (num (pos 15000) 0) (lookup "timeout_ms" defaults))
  replans ← int_of lib (or_else (num (pos 3) 0) (lookup "max_replan_attempts" p))
  let out = field "budget_usd" budget_usd (
      field "concurrency" (or_else (obj end) (lookup "concurrency" p)) (
        field "defaults"
          (obj (
            field "retry" retry (
              field "timeout_ms" (num timeout 0)
                (field "continue_on_fail" (bool (truthy_at "continue_on_fail" defaults)) end))))
          (field "pii" (obj (pii_output pii_in)) (
            field "rate_limits" (or_else (obj end) (lookup "rate_limits" p))
              (field "max_replan_attempts" (num replans 0) end)))))
  with_tokens ← add_limit lib "max_tokens" (lookup "max_tokens" p) out
  with_steps ← add_limit lib "max_steps" (lookup "max_steps" p) with_tokens
  add_limit lib "max_time_seconds" (lookup "max_time_seconds" p) with_steps

-- `creds.get("uses", []) or []`, a list of texts
abbrev pub names_in : Value → Bool → Option (List String)
names_in v false = some []
names_in (arr xs) true = texts xs
names_in _ true = none

-- `len(set(names)) == len(names)`
abbrev pub are_distinct : List String → Bool
are_distinct [] = true
are_distinct (n ∷ ns) = not (contains n ns) && are_distinct ns

abbrev pub distinct_names : Option (List String) → Result Unusable (List String)
distinct_names none = err (unusable bad_credentials)
distinct_names (some names) = guard (are_distinct names) duplicate_credentials >> ok names

abbrev pub used_names : Option Value → Result Unusable (List String)
used_names none = err (unusable bad_credentials)
used_names (some v) = distinct_names (names_in v (truthy v))

-- The names; the second list of the result has an object for each.
unfoldable pub compile_credentials : Option Value → Result Unusable (List String)
compile_credentials none = ok []
compile_credentials (some null) = ok []
compile_credentials (some (obj creds)) = used_names (lookup "uses" creds)
compile_credentials (some _) = err (unusable bad_credentials)

abbrev pub credential_objects : List String → List Fields
credential_objects names =
    map (λ (n : String). field "name" (str n) (field "required_scopes" (arr no_item) end)) names
