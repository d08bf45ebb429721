-- ===== src/Engine/Expressions/Grammar.antt =====
-- The conditions of backend/saz/engine/expressions.py as trees: their tokens and their values.
use saz.Prelude.{ℕ, String, Bool, not, ◌&&◌, ◌||◌, Option, List, ◌∷◌, Result, ok, err}
use saz.Prelude.Int.{ℤ}
use saz.Prelude.Json.{Value, bool, str, num}
use saz.Prelude.Floats.{Floats}
use saz.Engine.Expressions.{
  Token, and_op, or_op, not_op, lp, rp, comparator, number, quoted, keyword, ref, Comparator, Error,
  Library, coerce_bool, compare_values, keyword_value, raised,
}

-- `||` binds less than `&&`, this less than `!`, and this less than a comparison, of which there is
-- one at most between parentheses.
mutual
  pub data Primary : Type 0 where
    constant : ℤ → ℕ → Primary
    text : String → Primary
    word : Option Bool → Primary
    reference : String → Primary
    group : Disjunction → Primary

  pub data Comparison : Type 0 where
    alone : Primary → Comparison
    pair : Primary → Comparator → Primary → Comparison

  pub data Negation : Type 0 where
    plain : Comparison → Negation
    negate : Negation → Negation

  pub data Conjunction : Type 0 where
    all_of : Negation → Conjuncts → Conjunction

  pub data Conjuncts : Type 0 where
    no_conjunct : Conjuncts
    conjunct : Negation → Conjuncts → Conjuncts

  pub data Disjunction : Type 0 where
    any_of : Conjunction → Disjuncts → Disjunction

  pub data Disjuncts : Type 0 where
    no_disjunct : Disjuncts
    disjunct : Conjunction → Disjuncts → Disjuncts

-- The tokens of a tree in front of others.
abbrev mutual
  pub print_primary : Primary → List Token → List Token
  print_primary (constant n k) ts = number n k ∷ ts
  print_primary (text s) ts = quoted s ∷ ts
  print_primary (word w) ts = keyword w ∷ ts
  print_primary (reference r) ts = ref r ∷ ts
  print_primary (group d) ts = lp ∷ print_disjunction d (rp ∷ ts)

  pub print_comparison : Comparison → List Token → List Token
  print_comparison (alone p) ts = print_primary p ts
  print_comparison (pair p op q) ts = print_primary p (comparator op ∷ print_primary q ts)

  pub print_negation : Negation → List Token → List Token
  print_negation (plain c) ts = print_comparison c ts
  print_negation (negate n) ts = not_op ∷ print_negation n ts

  pub print_conjunction : Conjunction → List Token → List Token
  print_conjunction (all_of n ns) ts = print_negation n (print_conjuncts ns ts)

  pub print_conjuncts : Conjuncts → List Token → List Token
  print_conjuncts no_conjunct ts = ts
  print_conjuncts (conjunct n ns) ts = and_op ∷ print_negation n (print_conjuncts ns ts)

  pub print_disjunction : Disjunction → List Token → List Token
  print_disjunction (any_of c cs) ts = print_conjunction c (print_disjuncts cs ts)

  pub print_disjuncts : Disjuncts → List Token → List Token
  print_disjuncts no_disjunct ts = ts
  print_disjuncts (disjunct c cs) ts = or_op ∷ print_conjunction c (print_disjuncts cs ts)

abbrev pub with_value : Result Error Value → (Value → Result Error Value) → Result Error Value
with_value (ok v) f = f v
with_value (err e) f = err e

-- Operands are evaluated from left to right, and all of them.
module _ {F : Floats} (lib : Library F) (resolve_ref : String → Result String Value) where
  abbrev mutual
    pub value_primary : Primary → Result Error Value
    value_primary (constant n k) = ok (num n k)
    value_primary (text s) = ok (str s)
    value_primary (word w) = ok (keyword_value w)
    value_primary (reference r) = raised (resolve_ref r)
    value_primary (group d) = value_disjunction d

    pub value_comparison : Comparison → Result Error Value
    value_comparison (alone p) = value_primary p
    value_comparison (pair p op q) =
        with_value (value_primary p)
          λ v. with_value (value_primary q) λ w. compare_values lib v op w

    pub value_negation : Negation → Result Error Value
    value_negation (plain c) = value_comparison c
    value_negation (negate n) =
        with_value (value_negation n) λ v. ok (bool (not (coerce_bool lib v)))

    pub value_conjunction : Conjunction → Result Error Value
    value_conjunction (all_of n ns) = with_value (value_negation n) (value_conjuncts ns)

    pub value_conjuncts : Conjuncts → Value → Result Error Value
    value_conjuncts no_conjunct v = ok v
    value_conjuncts (conjunct n ns) v =
        with_value (value_negation n)
          λ w. value_conjuncts ns (bool (coerce_bool lib v && coerce_bool lib w))

    pub value_disjunction : Disjunction → Result Error Value
    value_disjunction (any_of c cs) = with_value (value_conjunction c) (value_disjuncts cs)

    pub value_disjuncts : Disjuncts → Value → Result Error Value
    value_disjuncts no_disjunct v = ok v
    value_disjuncts (disjunct c cs) v =
        with_value (value_conjunction c)
          λ w. value_disjuncts cs (bool (coerce_bool lib v || coerce_bool lib w))
