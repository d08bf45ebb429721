-- ===== src/Compiler.antt =====
-- backend/saz/compiler/dsl.py: the values that the checks of a workflow share, and why a workflow
-- is refused. A workflow is the JSON value that the YAML text stands for.
pub mod Steps
pub mod Policies
pub mod Templates
pub mod Checks
pub mod Credentials
pub mod Parse
pub mod Dsl
pub mod Compiled
pub mod Tests
use saz.Prelude.{
  ℕ, ◌/◌, ◌^◌, zero, suc, String, Bool, true, false, Option, none, some, List, [], ◌∷◌, Map,
}
use saz.Prelude.Int.{ℤ, pos, negsuc, sub_ℕ}
use saz.Prelude.Json.{
  Value, null, bool, str, num, time, obj, arr, Fields, end, field, Items, no_item, item, lookup,
  assign,
}

-- The refusals of `_validate_and_normalize_steps` and of what it calls, by the names and keys that
-- the texts show. `type_error` is a TypeError of Python's.
pub data Refused : Type 0 where
  step_not_object step_without_id params_not_object bad_event bad_credentials : Refused
  duplicate_id unknown_type : String → Refused
  missing_key missing_text : String → Refused
  bad_guard structured_text_output retry_not_object backoff_not_object bad_mode bad_jitter : Refused
  negative bad_timeout : String → Refused
  missing_params unknown_credentials : List String → Refused
  not_a_number type_error : Refused

-- What the compiler takes from elsewhere: Python's `int` and `float` of a text, and the required parameters of
-- the tools of the default registry whose input schema is not empty.
pub record Library : Type 0 where
  pub int_of_text : String → Option ℤ
  pub float_of_text : String → Option Value
  pub required_params : Map (List String)

-- `int` of n / 10 ^ k, towards zero
abbrev pub truncate : ℤ → ℕ → ℤ
truncate (pos n) k = pos (n / 10 ^ k)
truncate (negsuc n) k = sub_ℕ 0 (suc n / 10 ^ k)

-- `int(v)`, where `none` is an exception
abbrev pub as_int : Library → Value → Option ℤ
as_int lib (bool true) = some (pos 1)
as_int lib (bool false) = some (pos 0)
as_int lib (str s) = lib.int_of_text s
as_int lib (num n k) = some (truncate n k)
as_int lib _ = none

-- `k in d`
abbrev pub present : String → Fields → Bool
present k d = elim (lookup k d) [ none ↦ false | some v ↦ true ]

-- `isinstance(v, dict)`
abbrev pub is_object : Option Value → Bool
is_object (some (obj d)) = true
is_object _ = false

-- `d.setdefault(k, v)`
abbrev pub set_default : String → Value → Fields → Fields
set_default k v d = elim (lookup k d) [ none ↦ assign k v d | some w ↦ d ]

-- The list of texts that an array is, if it is one.
abbrev pub cons_text : String → Option (List String) → Option (List String)
cons_text s none = none
cons_text s (some ss) = some (s ∷ ss)

abbrev pub texts : Items → Option (List String)
texts no_item = some []
texts (item (str s) rest) = cons_text s (texts rest)
texts (item _ rest) = none
