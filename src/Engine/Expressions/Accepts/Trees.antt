-- ===== src/Engine/Expressions/Accepts/Trees.antt =====
-- The parser of backend/saz/engine/expressions.py on the tokens of a tree.
use saz.Prelude.{
  ℕ, zero, suc, ◌≤◌, ◌<◌, String, ◌≡◌, refl, ◌∙◌, true, ◌&&◌, ◌||◌, List, ◌∷◌, Result, ok, err,
  length, arith,
}
use saz.Prelude.Json.{Value, bool}
use saz.Prelude.Floats.{Floats}
use saz.Engine.Expressions.{
  Token, rp, comparator, Error, Library, coerce_bool, Parsed, follow, returned, close,
  parse_primary, compared, parse_comparison, parse_not, and_loop, parse_and, or_loop, parse_or,
}
use saz.Engine.Expressions.Grammar.{
  Primary, constant, text, word, reference, group, Comparison, alone, pair, Negation, plain, negate,
  Conjunction, all_of, Conjuncts, no_conjunct, conjunct, Disjunction, any_of, Disjuncts,
  no_disjunct, disjunct, print_primary, print_comparison, print_negation, print_conjunction,
  print_conjuncts, print_disjunction, print_disjuncts, value_primary, value_comparison,
  value_negation, value_conjunction, value_conjuncts, value_disjunction, value_disjuncts,
}
use saz.Engine.Expressions.Accepts.{
  print_primary-grows, print_negation-grows, print_conjunction-grows, ends_negation,
  ends_conjunction, ends_disjunction, follow-returned, compared-end, and_loop-end, or_loop-end,
}

conjuncts-ends_negation :
    (ns : Conjuncts) (ts : List Token)
    → ends_conjunction ts ≡ true
    → ends_negation (print_conjuncts ns ts) ≡ true
conjuncts-ends_negation no_conjunct ts h = ground arith
conjuncts-ends_negation (conjunct n ns) ts h = refl

disjuncts-ends_conjunction :
    (cs : Disjuncts) (ts : List Token)
    → ends_disjunction ts ≡ true
    → ends_conjunction (print_disjuncts cs ts) ≡ true
disjuncts-ends_conjunction no_disjunct ts h = ground arith
disjuncts-ends_conjunction (disjunct c cs) ts h = refl

follow-close :
    (r : Result Error Value) (ts : List Token) → follow (returned (rp ∷ ts) r) close ≡ returned ts r
follow-close (ok v) ts = refl
follow-close (err e) ts = refl

follow-end :
    (r : Result Error Value) (f : Value → List Token → Parsed) (ts : List Token)
    → ((v : Value) → f v ts ≡ ok (v, ts))
    → follow (returned ts r) f ≡ returned ts r
follow-end (ok v) f ts h = h v
follow-end (err e) f ts h = refl

module _ {F : Floats} (lib : Library F) (resolve_ref : String → Result String Value) where
  abbrev nested : ℕ → List Token → Parsed
  nested n = parse_or lib resolve_ref n

  -- A comparison does not begin with a negation.
  not_negated :
      (c : Comparison) (f : List Token → Parsed) (ts : List Token)
      → parse_not lib resolve_ref f (print_comparison c ts)
        ≡ parse_comparison lib resolve_ref f (print_comparison c ts)
  not_negated (alone (constant k j)) f ts = refl
  not_negated (alone (text s)) f ts = refl
  not_negated (alone (word w)) f ts = refl
  not_negated (alone (reference r)) f ts = refl
  not_negated (alone (group d)) f ts = refl
  not_negated (pair (constant k j) op q) f ts = refl
  not_negated (pair (text s) op q) f ts = refl
  not_negated (pair (word w) op q) f ts = refl
  not_negated (pair (reference r) op q) f ts = refl
  not_negated (pair (group d) op q) f ts = refl

  -- A parser that reads a sort of tree gives its value.
  mutual
    unfolding parse_or

    pub parse_primary-print :
        (p : Primary) (n : ℕ) (ts : List Token)
        → length (print_primary p ts) ≤ n
        → parse_primary lib resolve_ref (nested n) (print_primary p ts)
          ≡ returned ts (value_primary lib resolve_ref p)
    parse_primary-print (constant k j) n ts l = refl
    parse_primary-print (text s) n ts l = refl
    parse_primary-print (word w) n ts l = refl
    parse_primary-print (reference r) n ts l = refl
    parse_primary-print (group d) n ts l =
        rw (parse_or-print d n (rp ∷ ts) (omega arith) refl)
          (follow-close (value_disjunction lib resolve_ref d) ts)

    pub parse_comparison-print :
        (c : Comparison) (n : ℕ) (ts : List Token)
        → length (print_comparison c ts) ≤ n
        → ends_negation ts ≡ true
        → parse_comparison lib resolve_ref (nested n) (print_comparison c ts)
          ≡ returned ts (value_comparison lib resolve_ref c)
    parse_comparison-print (alone p) n ts l e = rw (parse_primary-print p n ts l) (
        follow-end (value_primary lib resolve_ref p) (compared lib resolve_ref (nested n)) ts
          λ v. compared-end lib resolve_ref (nested n) v ts e)
    parse_comparison-print (pair p op q) n ts l e =
        rw (parse_primary-print p n (comparator op ∷ print_primary q ts) l) (
          follow-returned (value_primary lib resolve_ref p) (compared lib resolve_ref (nested n)) _
            (comparator op ∷ print_primary q ts) ts
            λ v.
              rw
                (parse_primary-print q n ts
                  (omega (arith, print_primary-grows p (comparator op ∷ print_primary q ts))))
                (follow-returned (value_primary lib resolve_ref q) _ _ ts ts λ w. refl))

    pub parse_not-print :
        (m : Negation) (n : ℕ) (ts : List Token)
        → length (print_negation m ts) ≤ n
        → ends_negation ts ≡ true
        → parse_not lib resolve_ref (nested n) (print_negation m ts)
          ≡ returned ts (value_negation lib resolve_ref m)
    parse_not-print (negate m) n ts l e =
        rw (parse_not-print m n ts (omega arith) e)
          (follow-returned (value_negation lib resolve_ref m) _ _ ts ts λ v. refl)
    parse_not-print (plain c) n ts l e =
        not_negated c (nested n) ts ∙ parse_comparison-print c n ts l e

    pub and_loop-print :
        (ms : Conjuncts) (n k : ℕ) (v : Value) (ts : List Token)
        → length (print_conjuncts ms ts) ≤ k
        → k ≤ n
        → ends_conjunction ts ≡ true
        → and_loop lib resolve_ref (nested n) k v (print_conjuncts ms ts)
          ≡ returned ts (value_conjuncts lib resolve_ref ms v)
    and_loop-print no_conjunct n k v ts l j e = and_loop-end lib resolve_ref (nested n) k v ts e
    and_loop-print (conjunct m ms) n zero v ts l j e = ground arith
    and_loop-print (conjunct m ms) n (suc k) v ts l j e =
        rw
          (parse_not-print m n (print_conjuncts ms ts) (omega arith)
            (conjuncts-ends_negation ms ts e))
          (follow-returned (value_negation lib resolve_ref m) _ _ (print_conjuncts ms ts) ts λ w.
            and_loop-print ms n k (bool (coerce_bool lib v && coerce_bool lib w)) ts
              (omega (arith, print_negation-grows m (print_conjuncts ms ts))) (omega arith) e)

    pub parse_and-print :
        (c : Conjunction) (n : ℕ) (ts : List Token)
        → length (print_conjunction c ts) ≤ n
        → ends_conjunction ts ≡ true
        → parse_and lib resolve_ref (nested n) n (print_conjunction c ts)
          ≡ returned ts (value_conjunction lib resolve_ref c)
    parse_and-print (all_of m ms) n ts l e =
        rw (parse_not-print m n (print_conjuncts ms ts) l (conjuncts-ends_negation ms ts e)) (
          follow-returned (value_negation lib resolve_ref m) _ _ (print_conjuncts ms ts) ts λ w.
            and_loop-print ms n n w ts
              (omega (arith, print_negation-grows m (print_conjuncts ms ts))) (omega arith) e)

    pub or_loop-print :
        (cs : Disjuncts) (n k : ℕ) (v : Value) (ts : List Token)
        → length (print_disjuncts cs ts) ≤ k
        → k ≤ n
        → ends_disjunction ts ≡ true
        → or_loop lib resolve_ref (nested n) n k v (print_disjuncts cs ts)
          ≡ returned ts (value_disjuncts lib resolve_ref cs v)
    or_loop-print no_disjunct n k v ts l j e = or_loop-end lib resolve_ref (nested n) n k v ts e
    or_loop-print (disjunct c cs) n zero v ts l j e = ground arith
    or_loop-print (disjunct c cs) n (suc k) v ts l j e =
        rw
          (parse_and-print c n (print_disjuncts cs ts) (omega arith)
            (disjuncts-ends_conjunction cs ts e))
          (follow-returned (value_conjunction lib resolve_ref c) _ _ (print_disjuncts cs ts) ts λ w.
            or_loop-print cs n k (bool (coerce_bool lib v || coerce_bool lib w)) ts
              (omega (arith, print_conjunction-grows c (print_disjuncts cs ts))) (omega arith) e)

    pub parse_or-print :
        (d : Disjunction) (n : ℕ) (ts : List Token)
        → length (print_disjunction d ts) < n
        → ends_disjunction ts ≡ true
        → parse_or lib resolve_ref n (print_disjunction d ts)
          ≡ returned ts (value_disjunction lib resolve_ref d)
    parse_or-print (any_of c cs) zero ts l e = ground arith
    parse_or-print (any_of c cs) (suc n) ts l e =
        rw
          (parse_and-print c n (print_disjuncts cs ts) (omega arith)
            (disjuncts-ends_conjunction cs ts e))
          (follow-returned (value_conjunction lib resolve_ref c) _ _ (print_disjuncts cs ts) ts λ w.
            or_loop-print cs n n w ts
              (omega (arith, print_conjunction-grows c (print_disjuncts cs ts))) (omega arith) e)
