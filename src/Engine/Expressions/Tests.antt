-- ===== src/Engine/Expressions/Tests.antt =====
-- `!($form.dry_run) || 1 > 2 && "a" == "b"`, and the theorems there.
use saz.Prelude.{
  ℕ, suc, String, ◌≡◌, ◌≢◌, ◌↔◌, refl, Bool, true, false, none, some, List, [], ◌∷◌, Result, ok,
  err, ◌==◌, string_eq, ltb,
}
use saz.Prelude.Int.{pos, pos_part}
use saz.Prelude.Json.{Value, bool}
use saz.Prelude.Floats.{millionths}
use saz.Engine.Expressions.{
  Token, and_op, or_op, not_op, lp, rp, comparator, number, quoted, ref, greater, equal,
  out_of_fuel, Library, missing_parenthesis, compare_values, parse, evaluate_condition,
}
use saz.Engine.Expressions.Grammar.{
  Disjunction, any_of, no_disjunct, disjunct, all_of, no_conjunct, conjunct, negate, plain, alone,
  pair, group, reference, constant, text, print_disjunction, value_disjunction,
}
use saz.Engine.Expressions.Fuel.{parse_ends}
use saz.Engine.Expressions.Accepts.Exactly.{parse-print, parse_exactly}

abbrev library : Library millionths
library = record {
  strip = λ s. s;
  lower = λ s. s;
  text_of = λ v. "";
  float_of_text = λ s. none;
  float_of_number = λ n k. some (pos_part n);
  same_float = λ a b. if_same a b;
  before = λ a b. false;
}
  where
    if_same : ℕ → ℕ → Bool
    if_same a b = ltb a (suc b)

abbrev resolve : String → Result String Value
resolve r = if_form (r == "$form.dry_run")
  where
    if_form : Bool → Result String Value
    if_form true = ok (bool true)
    if_form false = err "undefined"

abbrev condition : Disjunction
condition =
    any_of
      (all_of
        (negate (
          plain (
            alone (
              group (
                any_of (all_of (plain (alone (reference "$form.dry_run"))) no_conjunct)
                  no_disjunct)))))
        no_conjunct)
      (disjunct
        (all_of (plain (pair (constant (pos 1) 0) greater (constant (pos 2) 0)))
          (conjunct (plain (pair (text "a") equal (text "b"))) no_conjunct))
        no_disjunct)

abbrev tokens : List Token
tokens =
    not_op
    ∷ lp
    ∷ ref "$form.dry_run"
    ∷ rp
    ∷ or_op
    ∷ number (pos 1) 0
    ∷ comparator greater
    ∷ number (pos 2) 0
    ∷ and_op
    ∷ quoted "a"
    ∷ comparator equal
    ∷ quoted "b"
    ∷ []

printed : print_disjunction condition [] ≡ tokens
printed = refl

evaluated : evaluate_condition library resolve tokens ≡ ok false
unfolding evaluate_condition compare_values
evaluated = refl

unclosed : evaluate_condition library resolve (lp ∷ quoted "a" ∷ []) ≡ err missing_parenthesis
unfolding evaluate_condition compare_values
unclosed = refl

parse_ends_example : parse library resolve (lp ∷ lp ∷ quoted "a" ∷ []) ≢ err out_of_fuel
parse_ends_example = parse_ends library resolve (lp ∷ lp ∷ quoted "a" ∷ [])

parse-print_example : parse library resolve tokens ≡ value_disjunction library resolve condition
parse-print_example = parse-print library resolve condition

parse_exactly_example : (parse library resolve tokens ≡ ok (bool false)) ↔ (
    (d : Disjunction) × (print_disjunction d [] ≡ tokens)
    × (value_disjunction library resolve d ≡ ok (bool false)))
parse_exactly_example = parse_exactly library resolve tokens (bool false)
