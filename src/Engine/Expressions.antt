-- ===== src/Engine/Expressions.antt =====
-- backend/saz/engine/expressions.py: how the condition of a step is parsed and evaluated, from its
-- tokens on. The tokens are those of `_tokenize`, whose regular expressions are not modelled, and
-- the parser's position in them is the list that is left. Python's limit on nested calls is left
-- out.
pub mod Grammar
pub mod Fuel
pub mod Accepts
mod Tests
use saz.Prelude.{
  ℕ, zero, suc, String, Bool, true, false, not, ◌&&◌, ◌||◌, Option, none, some, List, [], ◌∷◌,
  if◌then◌else◌, ◌==◌, string_eq, contains, Result, ok, err, length,
}
use saz.Prelude.Int.{ℤ}
use saz.Prelude.Json.{Value, null, bool, str, num, time, obj, arr, truthy}
use saz.Prelude.Floats.{Floats}

-- `EQ`, `NE`, `GT`, `GE`, `LT` and `LE`
pub data Comparator : Type 0 where
  equal unequal greater at_least less at_most : Comparator

-- A number has its decimal value, a quoted text has lost its quotes, and a keyword is one of `true`,
-- `false` and `null`.
pub data Token : Type 0 where
  and_op or_op not_op lp rp : Token
  comparator : Comparator → Token
  number : ℤ → ℕ → Token
  quoted : String → Token
  keyword : Option Bool → Token
  ref : String → Token

-- What may be raised: a `ConditionError`, the error of the callback for a reference, and the
-- `OverflowError` of `float` on an integer out of its range.
pub data Error : Type 0 where
  unexpected_end missing_parenthesis trailing_tokens empty_condition : Error
  unexpected_token : Token → Error
  unresolved : String → Error
  overflow : Error
  out_of_fuel : Error

-- What the code uses of Python: `str.strip`, `str.lower`, `str`, `float` of a text, which is none
-- where it raises `ValueError`, and of a number, which is none where it raises `OverflowError`, and
-- the order of texts by code points.
pub record Library (F : Floats) : Type 0 where
  pub strip : String → String
  pub lower : String → String
  pub text_of : Value → String
  pub float_of_text : String → Option F.Float
  pub float_of_number : ℤ → ℕ → Option F.Float
  pub same_float : F.Float → F.Float → Bool
  pub before : String → String → Bool

abbrev pub falsy_texts : List String
falsy_texts = "" ∷ "false" ∷ "no" ∷ "0" ∷ "null" ∷ "none" ∷ []

module _ {F : Floats} (lib : Library F) where
  abbrev pub coerce_bool : Value → Bool
  coerce_bool (str s) = not (contains (lib.lower (lib.strip s)) falsy_texts)
  coerce_bool v = truthy v

  abbrev number_or_raise : Option F.Float → Result Error (Option F.Float)
  number_or_raise none = err overflow
  number_or_raise (some x) = ok (some x)

  abbrev pub to_number : Value → Result Error (Option F.Float)
  to_number (num n k) = number_or_raise (lib.float_of_number n k)
  to_number (str s) = ok (lib.float_of_text s)
  to_number (time t) = ok (lib.float_of_text (lib.text_of (time t)))
  to_number _ = ok none

  abbrev pub stringify : Value → String
  stringify null = ""
  stringify (bool true) = "true"
  stringify (bool false) = "false"
  stringify (str s) = s
  stringify v = lib.text_of v

  abbrev pub compare_numbers : Comparator → F.Float → F.Float → Bool
  compare_numbers equal a b = lib.same_float a b
  compare_numbers unequal a b = not (lib.same_float a b)
  compare_numbers greater a b = F.lt b a
  compare_numbers at_least a b = F.le b a
  compare_numbers less a b = F.lt a b
  compare_numbers at_most a b = F.le a b

  abbrev pub compare_texts : Comparator → String → String → Bool
  compare_texts equal a b = a == b
  compare_texts unequal a b = not (a == b)
  compare_texts greater a b = lib.before b a
  compare_texts at_least a b = not (lib.before a b)
  compare_texts less a b = lib.before a b
  compare_texts at_most a b = not (lib.before b a)

  abbrev compare_parts : Comparator → Value → Value → Option F.Float → Option F.Float → Bool
  compare_parts op left right (some a) (some b) = compare_numbers op a b
  compare_parts op left right _ _ = compare_texts op (stringify left) (stringify right)

  abbrev compare_next :
      Comparator
      → Value
      → Value
      → Option F.Float
      → Result Error (Option F.Float)
      → Result Error Value
  compare_next op left right a (ok b) = ok (bool (compare_parts op left right a b))
  compare_next op left right a (err e) = err e

  abbrev compare_first :
      Comparator → Value → Value → Result Error (Option F.Float) → Result Error Value
  compare_first op left right (ok a) = compare_next op left right a (to_number right)
  compare_first op left right (err e) = err e

  unfoldable pub compare_values : Value → Comparator → Value → Result Error Value
  compare_values left op right = compare_first op left right (to_number left)

-- A value and the tokens behind it.
abbrev pub Parsed : Type 0
Parsed = Result Error (Value × List Token)

abbrev pub follow : Parsed → (Value → List Token → Parsed) → Parsed
follow (ok (v, rest)) f = f v rest
follow (err e) f = err e

abbrev pub returned : List Token → Result Error Value → Parsed
returned rest (ok v) = ok (v, rest)
returned rest (err e) = err e

abbrev pub raised : Result String Value → Result Error Value
raised (ok v) = ok v
raised (err e) = err (unresolved e)

abbrev pub close : Value → List Token → Parsed
close v (rp ∷ rest) = ok (v, rest)
close v rest = err missing_parenthesis

abbrev pub keyword_value : Option Bool → Value
keyword_value none = null
keyword_value (some b) = bool b

module _ {F : Floats} (lib : Library F) (resolve_ref : String → Result String Value) where
  -- `nested` is `_parse_or`.
  abbrev pub parse_primary : (List Token → Parsed) → List Token → Parsed
  parse_primary nested [] = err unexpected_end
  parse_primary nested (lp ∷ ts) = follow (nested ts) close
  parse_primary nested (number n k ∷ ts) = ok (num n k, ts)
  parse_primary nested (quoted s ∷ ts) = ok (str s, ts)
  parse_primary nested (keyword w ∷ ts) = ok (keyword_value w, ts)
  parse_primary nested (ref r ∷ ts) = returned ts (raised (resolve_ref r))
  parse_primary nested (t ∷ ts) = err (unexpected_token t)

  abbrev pub compared : (List Token → Parsed) → Value → List Token → Parsed
  compared nested left (comparator op ∷ ts) =
      follow (parse_primary nested ts)
        λ right rest. returned rest (compare_values lib left op right)
  compared nested left ts = ok (left, ts)

  abbrev pub parse_comparison : (List Token → Parsed) → List Token → Parsed
  parse_comparison nested ts = follow (parse_primary nested ts) (compared nested)

  abbrev pub negated : Value → List Token → Parsed
  negated v rest = ok (bool (not (coerce_bool lib v)), rest)

  abbrev pub parse_not : (List Token → Parsed) → List Token → Parsed
  parse_not nested (not_op ∷ ts) = follow (parse_not nested ts) negated
  parse_not nested ts = parse_comparison nested ts

  -- The loop of `_parse_and`
  abbrev pub and_loop : (List Token → Parsed) → ℕ → Value → List Token → Parsed
  and_loop nested zero left (and_op ∷ ts) = err out_of_fuel
  and_loop nested (suc n) left (and_op ∷ ts) =
      follow (parse_not nested ts)
        λ right. and_loop nested n (bool (coerce_bool lib left && coerce_bool lib right))
  and_loop nested n left ts = ok (left, ts)

  abbrev pub parse_and : (List Token → Parsed) → ℕ → List Token → Parsed
  parse_and nested n ts = follow (parse_not nested ts) (and_loop nested n)

  -- The loop of `_parse_or`
  abbrev pub or_loop : (List Token → Parsed) → ℕ → ℕ → Value → List Token → Parsed
  or_loop nested m zero left (or_op ∷ ts) = err out_of_fuel
  or_loop nested m (suc n) left (or_op ∷ ts) =
      follow (parse_and nested m ts)
        λ right. or_loop nested m n (bool (coerce_bool lib left || coerce_bool lib right))
  or_loop nested m n left ts = ok (left, ts)

  -- One unit of fuel for each parenthesis, and for each round of a loop.
  unfoldable pub parse_or : ℕ → List Token → Parsed
  parse_or zero ts = err out_of_fuel
  parse_or (suc n) ts = follow (parse_and (parse_or n) n ts) (or_loop (parse_or n) n n)

  abbrev pub finished : Parsed → Result Error Value
  finished (ok (v, [])) = ok v
  finished (ok (v, t ∷ ts)) = err trailing_tokens
  finished (err e) = err e

  -- More fuel than tokens is enough.
  unfoldable pub parse : List Token → Result Error Value
  unfolding parse_or
  parse ts = finished (parse_or (suc (length ts)) ts)

  abbrev pub as_bool : Result Error Value → Result Error Bool
  as_bool (ok v) = ok (coerce_bool lib v)
  as_bool (err e) = err e

  -- For a text
  unfoldable pub evaluate_condition : List Token → Result Error Bool
  unfolding parse
  evaluate_condition [] = err empty_condition
  evaluate_condition (t ∷ ts) = as_bool (parse (t ∷ ts))
