-- ===== src/Engine/Expressions/Accepts/Exactly.antt =====
-- The parser of backend/saz/engine/expressions.py accepts the tokens of conditions only.
use saz.Prelude.{
  ℕ, zero, suc, String, ◌≡◌, refl, ◌∙◌, ◌&&◌, ◌||◌, List, [], ◌∷◌, Result, ok, err, length, arith,
  ap, sym, inl, inr, ◌⊎◌, ◌↔◌,
}
use saz.Prelude.Json.{Value, bool}
use saz.Prelude.Floats.{Floats}
use saz.Engine.Expressions.{
  Token, and_op, or_op, not_op, lp, rp, comparator, number, quoted, keyword, ref, Comparator, Error,
  Library, coerce_bool, compare_values, raised, Parsed, follow, returned, close, parse_primary,
  compared, parse_comparison, parse_not, and_loop, parse_and, or_loop, parse_or,
}
use saz.Engine.Expressions.Grammar.{
  Primary, constant, text, word, reference, group, Comparison, alone, pair, Negation, plain, negate,
  Conjunction, all_of, Conjuncts, no_conjunct, conjunct, Disjunction, any_of, Disjuncts,
  no_disjunct, disjunct, print_primary, print_comparison, print_negation, print_conjunction,
  print_conjuncts, print_disjunction, print_disjuncts, with_value, value_primary, value_comparison,
  value_negation, value_conjunction, value_conjuncts, value_disjunction, value_disjuncts,
}
use saz.Engine.Expressions.Accepts.Trees.{parse_or-print}
use saz.Engine.Expressions.{parse, finished}

follow-ok :
    (r : Parsed) (f : Value → List Token → Parsed) (v : Value) (rest : List Token)
    → follow r f ≡ ok (v, rest)
    → (w : Value) × (us : List Token) × (r ≡ ok (w, us)) × (f w us ≡ ok (v, rest))
follow-ok (ok (w, us)) f v rest h = (w, us, refl, h)
follow-ok (err e) f v rest h = ground arith

returned-ok :
    (r : Result Error Value) (ts : List Token) (v : Value) (rest : List Token)
    → returned ts r ≡ ok (v, rest)
    → (r ≡ ok v) × (ts ≡ rest)
returned-ok (ok w) ts v rest h = (ground (arith, h), ground (arith, h))
returned-ok (err e) ts v rest h = ground arith

close-ok :
    (w v : Value) (ts rest : List Token) → close w ts ≡ ok (v, rest) → (rp ∷ rest ≡ ts) × (w ≡ v)
close-ok w v ts rest h = (ground (arith, h), ground (arith, h))

module _ {F : Floats} (lib : Library F) (resolve_ref : String → Result String Value)
    (nested : List Token → Parsed) where
  abbrev Reads : Type 0
  Reads =
      (us : List Token) (v : Value) (rest : List Token)
      → nested us ≡ ok (v, rest)
      → (d : Disjunction) × (print_disjunction d rest ≡ us)
        × (value_disjunction lib resolve_ref d ≡ ok v)

  parse_primary-reads :
      Reads
      → (ts : List Token) (v : Value) (rest : List Token)
      → parse_primary lib resolve_ref nested ts ≡ ok (v, rest)
      → (p : Primary) × (print_primary p rest ≡ ts) × (value_primary lib resolve_ref p ≡ ok v)
  parse_primary-reads r [] v rest h = ground arith
  parse_primary-reads r (lp ∷ ts) v rest h =
      let (w, us, e, c) = follow-ok (nested ts) close v rest h in
      let (d, printed, valued) = r ts w us e in
      let (e', w') = close-ok w v us rest c in
      (group d, ap (λ u. lp ∷ u) (ap (print_disjunction d) e' ∙ printed), valued ∙ ap ok w')
  parse_primary-reads r (number n k ∷ ts) v rest h =
      (constant n k, ground (arith, h), ground (arith, h))
  parse_primary-reads r (quoted s ∷ ts) v rest h = (text s, ground (arith, h), ground (arith, h))
  parse_primary-reads r (keyword w ∷ ts) v rest h = (word w, ground (arith, h), ground (arith, h))
  parse_primary-reads r (ref s ∷ ts) v rest h =
      let (e, l) = returned-ok (raised (resolve_ref s)) ts v rest h in
      (reference s, ground (arith, l), e)
  parse_primary-reads r (and_op ∷ ts) v rest h = ground arith
  parse_primary-reads r (or_op ∷ ts) v rest h = ground arith
  parse_primary-reads r (not_op ∷ ts) v rest h = ground arith
  parse_primary-reads r (rp ∷ ts) v rest h = ground arith
  parse_primary-reads r (comparator op ∷ ts) v rest h = ground arith

  compared-reads :
      Reads
      → (left : Value) (ts : List Token) (v : Value) (rest : List Token)
      → compared lib resolve_ref nested left ts ≡ ok (v, rest)
      → ((op : Comparator) × (q : Primary) × (comparator op ∷ print_primary q rest ≡ ts)
          × (with_value (value_primary lib resolve_ref q) (λ w. compare_values lib left op w)
              ≡ ok v))
        ⊎ ((rest ≡ ts) × (left ≡ v))
  compared-reads r left [] v rest h = inr (ground (arith, h), ground (arith, h))
  compared-reads r left (comparator op ∷ ts) v rest h =
      let (w, us, e, c) = follow-ok (parse_primary lib resolve_ref nested ts) _ v rest h in
      let (q, printed, valued) = parse_primary-reads r ts w us e in
      let (e', w') = returned-ok (compare_values lib left op w) us v rest c in
      inl (
        op,
        q,
        ap (λ u. comparator op ∷ u) (ap (print_primary q) (sym w') ∙ printed),
        ap (λ x. with_value x (λ y. compare_values lib left op y)) valued ∙ e',
      )
  compared-reads r left (lp ∷ ts) v rest h = inr (ground (arith, h), ground (arith, h))
  compared-reads r left (rp ∷ ts) v rest h = inr (ground (arith, h), ground (arith, h))
  compared-reads r left (and_op ∷ ts) v rest h = inr (ground (arith, h), ground (arith, h))
  compared-reads r left (or_op ∷ ts) v rest h = inr (ground (arith, h), ground (arith, h))
  compared-reads r left (not_op ∷ ts) v rest h = inr (ground (arith, h), ground (arith, h))
  compared-reads r left (number n j ∷ ts) v rest h = inr (ground (arith, h), ground (arith, h))
  compared-reads r left (quoted s ∷ ts) v rest h = inr (ground (arith, h), ground (arith, h))
  compared-reads r left (keyword w ∷ ts) v rest h = inr (ground (arith, h), ground (arith, h))
  compared-reads r left (ref s ∷ ts) v rest h = inr (ground (arith, h), ground (arith, h))

  parse_comparison-reads :
      Reads
      → (ts : List Token) (v : Value) (rest : List Token)
      → parse_comparison lib resolve_ref nested ts ≡ ok (v, rest)
      → (c : Comparison) × (print_comparison c rest ≡ ts)
        × (value_comparison lib resolve_ref c ≡ ok v)
  parse_comparison-reads r ts v rest h =
      let (w, us, e, c) = follow-ok (parse_primary lib resolve_ref nested ts) _ v rest h in
      let (p, printed, valued) = parse_primary-reads r ts w us e in
      elim (compared-reads r w us v rest c) [
        | inl (op, q, e', x) ↦ (
          pair p op q,
          ap (print_primary p) e' ∙ printed,
          ap
                (λ y.
                  with_value y
                    λ w. with_value (value_primary lib resolve_ref q) (compare_values lib w op))
                valued
              ∙ x,
        )
        | inr (e', x) ↦ (alone p, ap (print_primary p) e' ∙ printed, valued ∙ ap ok x)
      ]

  parse_not-reads :
      Reads
      → (ts : List Token) (v : Value) (rest : List Token)
      → parse_not lib resolve_ref nested ts ≡ ok (v, rest)
      → (m : Negation) × (print_negation m rest ≡ ts) × (value_negation lib resolve_ref m ≡ ok v)
  parse_not-reads r [] v rest h = ground arith
  parse_not-reads r (not_op ∷ ts) v rest h =
      let (w, us, e, c) = follow-ok (parse_not lib resolve_ref nested ts) _ v rest h in
      let (m, printed, valued) = parse_not-reads r ts w us e in
      (
        negate m,
        ap (λ u. not_op ∷ u) (ap (print_negation m) (ground (arith, c)) ∙ printed),
        rw (valued) (ground (arith, c)),
      )
  parse_not-reads r (t ∷ ts) v rest h =
      let (c, printed, valued) = parse_comparison-reads r (t ∷ ts) v rest h in
      (plain c, printed, valued)

  and_loop-reads :
      Reads
      → (n : ℕ) (left : Value) (ts : List Token) (v : Value) (rest : List Token)
      → and_loop lib resolve_ref nested n left ts ≡ ok (v, rest)
      → (ms : Conjuncts) × (print_conjuncts ms rest ≡ ts)
        × (value_conjuncts lib resolve_ref ms left ≡ ok v)
  and_loop-reads r (suc n) left (and_op ∷ ts) v rest h =
      let (w, us, e, c) = follow-ok (parse_not lib resolve_ref nested ts) _ v rest h in
      let (m, printed, valued) = parse_not-reads r ts w us e in
      let (ms, p', v') =
        and_loop-reads r n (bool (coerce_bool lib left && coerce_bool lib w)) us v rest c in
      (conjunct m ms, ap (λ u. and_op ∷ u) (ap (print_negation m) p' ∙ printed), rw (valued) v')
  and_loop-reads r zero left (and_op ∷ ts) v rest h = ground arith
  and_loop-reads r n left ts v rest h = (no_conjunct, ground (arith, h), ground (arith, h))

  parse_and-reads :
      Reads
      → (n : ℕ) (ts : List Token) (v : Value) (rest : List Token)
      → parse_and lib resolve_ref nested n ts ≡ ok (v, rest)
      → (c : Conjunction) × (print_conjunction c rest ≡ ts)
        × (value_conjunction lib resolve_ref c ≡ ok v)
  parse_and-reads r n ts v rest h =
      let (w, us, e, c) = follow-ok (parse_not lib resolve_ref nested ts) _ v rest h in
      let (m, printed, valued) = parse_not-reads r ts w us e in
      let (ms, p', v') = and_loop-reads r n w us v rest c in
      (all_of m ms, ap (print_negation m) p' ∙ printed, rw (valued) v')

  or_loop-reads :
      Reads
      → (m n : ℕ) (left : Value) (ts : List Token) (v : Value) (rest : List Token)
      → or_loop lib resolve_ref nested m n left ts ≡ ok (v, rest)
      → (cs : Disjuncts) × (print_disjuncts cs rest ≡ ts)
        × (value_disjuncts lib resolve_ref cs left ≡ ok v)
  or_loop-reads r m (suc n) left (or_op ∷ ts) v rest h =
      let (w, us, e, c) = follow-ok (parse_and lib resolve_ref nested m ts) _ v rest h in
      let (k, printed, valued) = parse_and-reads r m ts w us e in
      let (cs, p', v') =
        or_loop-reads r m n (bool (coerce_bool lib left || coerce_bool lib w)) us v rest c in
      (disjunct k cs, ap (λ u. or_op ∷ u) (ap (print_conjunction k) p' ∙ printed), rw (valued) v')
  or_loop-reads r m zero left (or_op ∷ ts) v rest h = ground arith
  or_loop-reads r m n left ts v rest h = (no_disjunct, ground (arith, h), ground (arith, h))

module _ {F : Floats} (lib : Library F) (resolve_ref : String → Result String Value) where
  parse_or-reads : (n : ℕ) → Reads lib resolve_ref (parse_or lib resolve_ref n)
  unfolding parse_or
  parse_or-reads zero us v rest h = ground arith
  parse_or-reads (suc n) us v rest h =
      let nested = parse_or lib resolve_ref n in
      let r = parse_or-reads n in
      let (w, ts, e, c) = follow-ok (parse_and lib resolve_ref nested n us) _ v rest h in
      let (k, printed, valued) = parse_and-reads lib resolve_ref nested r n us w ts e in
      let (cs, p', v') = or_loop-reads lib resolve_ref nested r n n w ts v rest c in
      (any_of k cs, ap (print_conjunction k) p' ∙ printed, rw (valued) v')

  finished-ok : (r : Parsed) (v : Value) → finished lib resolve_ref r ≡ ok v → r ≡ ok (v, [])
  finished-ok (ok (w, [])) v h = ground (arith, h)
  finished-ok (ok (w, t ∷ ts)) v h = ground arith
  finished-ok (err e) v h = ground arith

  finished-returned : (r : Result Error Value) → finished lib resolve_ref (returned [] r) ≡ r
  finished-returned (ok v) = refl
  finished-returned (err e) = refl

  -- On the tokens of a condition the parser gives the condition's value, or the error that its
  -- evaluation from left to right raises.
  pub parse-print :
      (d : Disjunction)
      → parse lib resolve_ref (print_disjunction d []) ≡ value_disjunction lib resolve_ref d
  unfolding parse
  parse-print d =
      rw
        (parse_or-print lib resolve_ref d (suc (length (print_disjunction d []))) [] (omega arith)
          refl)
        (finished-returned (value_disjunction lib resolve_ref d))

  -- The parser accepts exactly the conditions: it gives the value `v` on tokens exactly when they
  -- are the tokens of a condition whose evaluation gives `v`.
  pub parse_exactly :
      (ts : List Token) (v : Value)
      → (parse lib resolve_ref ts ≡ ok v) ↔ (
          (d : Disjunction) × (print_disjunction d [] ≡ ts)
          × (value_disjunction lib resolve_ref d ≡ ok v))
  unfolding parse
  parse_exactly ts v = (
    λ h. parse_or-reads (suc (length ts)) ts v [] (finished-ok _ v h),
    λ t. ap (parse lib resolve_ref) (sym t.1) ∙ parse-print t.0 ∙ t.2,
  )
