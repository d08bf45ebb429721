-- ===== src/Engine/Expressions/Accepts.antt =====
-- The parser of backend/saz/engine/expressions.py accepts the tokens of every condition, and gives
-- its value.
pub mod Trees
pub mod Exactly
use saz.Prelude.{
  ℕ, zero, suc, ◌+◌, ◌≤◌, ◌<◌, String, ◌≡◌, refl, ◌∙◌, Bool, true, false, not, ◌&&◌, ◌||◌, Option,
  List, [], ◌∷◌, Result, ok, err, length, arith,
}
use saz.Prelude.Json.{Value, bool}
use saz.Prelude.Floats.{Floats}
use saz.Engine.Expressions.{
  Token, and_op, or_op, not_op, lp, rp, comparator, number, quoted, keyword, ref, Error, Library,
  coerce_bool, compare_values, raised, Parsed, follow, returned, close, parse_primary, compared,
  parse_comparison, negated, parse_not, and_loop, parse_and, or_loop, parse_or,
}
use saz.Engine.Expressions.Grammar.{
  Primary, constant, text, word, reference, group, Comparison, alone, pair, Negation, plain, negate,
  Conjunction, all_of, Conjuncts, no_conjunct, conjunct, Disjunction, any_of, Disjuncts,
  no_disjunct, disjunct, print_primary, print_comparison, print_negation, print_conjunction,
  print_conjuncts, print_disjunction, print_disjuncts, with_value, value_primary, value_comparison,
  value_negation, value_conjunction, value_conjuncts, value_disjunction, value_disjuncts,
}

mutual
  pub print_primary-grows :
      (p : Primary) (ts : List Token) → length ts < length (print_primary p ts)
  print_primary-grows (constant n k) ts = omega arith
  print_primary-grows (text s) ts = omega arith
  print_primary-grows (word w) ts = omega arith
  print_primary-grows (reference r) ts = omega arith
  print_primary-grows (group d) ts = omega (arith, print_disjunction-grows d (rp ∷ ts))

  pub print_comparison-grows :
      (c : Comparison) (ts : List Token) → length ts < length (print_comparison c ts)
  print_comparison-grows (alone p) ts = print_primary-grows p ts
  print_comparison-grows (pair p op q) ts =
      omega (
        arith,
        print_primary-grows p (comparator op ∷ print_primary q ts),
        print_primary-grows q ts,
      )

  pub print_negation-grows :
      (n : Negation) (ts : List Token) → length ts < length (print_negation n ts)
  print_negation-grows (plain c) ts = print_comparison-grows c ts
  print_negation-grows (negate n) ts = omega (arith, print_negation-grows n ts)

  pub print_conjunction-grows :
      (c : Conjunction) (ts : List Token) → length ts < length (print_conjunction c ts)
  print_conjunction-grows (all_of n ns) ts =
      omega (arith, print_negation-grows n (print_conjuncts ns ts), print_conjuncts-grows ns ts)

  pub print_conjuncts-grows :
      (ns : Conjuncts) (ts : List Token) → length ts ≤ length (print_conjuncts ns ts)
  print_conjuncts-grows no_conjunct ts = omega arith
  print_conjuncts-grows (conjunct n ns) ts =
      omega (arith, print_negation-grows n (print_conjuncts ns ts), print_conjuncts-grows ns ts)

  pub print_disjunction-grows :
      (d : Disjunction) (ts : List Token) → length ts < length (print_disjunction d ts)
  print_disjunction-grows (any_of c cs) ts =
      omega (arith, print_conjunction-grows c (print_disjuncts cs ts), print_disjuncts-grows cs ts)

  pub print_disjuncts-grows :
      (cs : Disjuncts) (ts : List Token) → length ts ≤ length (print_disjuncts cs ts)
  print_disjuncts-grows no_disjunct ts = omega arith
  print_disjuncts-grows (disjunct c cs) ts =
      omega (arith, print_conjunction-grows c (print_disjuncts cs ts), print_disjuncts-grows cs ts)

-- What may stand behind a negation, a conjunction and a disjunction.
abbrev pub ends_negation : List Token → Bool
ends_negation (comparator op ∷ ts) = false
ends_negation ts = true

abbrev pub ends_conjunction : List Token → Bool
ends_conjunction (and_op ∷ ts) = false
ends_conjunction ts = ends_negation ts

abbrev pub ends_disjunction : List Token → Bool
ends_disjunction (or_op ∷ ts) = false
ends_disjunction ts = ends_conjunction ts

pub follow-returned :
    (r : Result Error Value) (f : Value → List Token → Parsed) (g : Value → Result Error Value)
    (ts us : List Token)
    → ((v : Value) → f v ts ≡ returned us (g v))
    → follow (returned ts r) f ≡ returned us (with_value r g)
follow-returned (ok v) f g ts us h = h v
follow-returned (err e) f g ts us h = refl

module _ {F : Floats} (lib : Library F) (resolve_ref : String → Result String Value) where
  pub compared-end :
      (nested : List Token → Parsed) (v : Value) (ts : List Token)
      → ends_negation ts ≡ true
      → compared lib resolve_ref nested v ts ≡ ok (v, ts)
  compared-end nested v ts h = ground arith

  pub and_loop-end :
      (nested : List Token → Parsed) (n : ℕ) (v : Value) (ts : List Token)
      → ends_conjunction ts ≡ true
      → and_loop lib resolve_ref nested n v ts ≡ ok (v, ts)
  and_loop-end nested zero v ts h = ground arith
  and_loop-end nested (suc n) v ts h = ground arith

  pub or_loop-end :
      (nested : List Token → Parsed) (m n : ℕ) (v : Value) (ts : List Token)
      → ends_disjunction ts ≡ true
      → or_loop lib resolve_ref nested m n v ts ≡ ok (v, ts)
  or_loop-end nested m zero v ts h = ground arith
  or_loop-end nested m (suc n) v ts h = ground arith
