-- ===== src/Engine/Expressions/Fuel.antt =====
-- The fuel of the parser of conditions, backend/saz/engine/expressions.py, is enough.
use saz.Prelude.{
  ℕ, zero, suc, ◌≤◌, ◌<◌, String, ◌≡◌, ◌≢◌, refl, Bool, true, false, not, ◌&&◌, ◌||◌, Option, none,
  some, List, [], ◌∷◌, Result, ok, err, length, ltb, arith,
}
use saz.Prelude.Json.{Value, null, bool, str, num, time, obj, arr}
use saz.Prelude.Floats.{Floats}
use saz.Engine.Expressions.{
  Token, and_op, or_op, not_op, lp, rp, comparator, number, quoted, keyword, ref, Comparator, Error,
  out_of_fuel, Library, coerce_bool, compare_values, compare_first, compare_next, number_or_raise,
  to_number, raised, Parsed, follow, returned, close, parse_primary, compared, parse_comparison,
  parse_not, and_loop, parse_and, or_loop, parse_or, finished, parse,
}

abbrev pub is_fuel : Error → Bool
is_fuel out_of_fuel = true
is_fuel _ = false

-- The fuel lasted, and fewer than so many tokens are left.
abbrev pub fine : ℕ → Parsed → Bool
fine k (ok (v, rest)) = ltb (length rest) k
fine k (err e) = not (is_fuel e)

widen : (k j : ℕ) (r : Parsed) → j ≤ k → fine j r ≡ true → fine k r ≡ true
widen k j (err e) l h = h
widen k j (ok (v, rest)) l h = ground arith

follow-fine :
    (k : ℕ) (r : Parsed) (f : Value → List Token → Parsed)
    → fine k r ≡ true
    → ((v : Value) (rest : List Token)
        → length rest < k
        → fine (suc (length rest)) (f v rest) ≡ true)
    → fine k (follow r f) ≡ true
follow-fine k (err e) f h g = h
follow-fine k (ok (v, rest)) f h g =
    widen k (suc (length rest)) (f v rest) (ground (arith, h)) (g v rest (ground (arith, h)))

abbrev pub never_fuel : Result Error Value → Bool
never_fuel (ok v) = true
never_fuel (err e) = not (is_fuel e)

returned-fine :
    (r : Result Error Value) (ts : List Token)
    → never_fuel r ≡ true
    → fine (suc (length ts)) (returned ts r) ≡ true
returned-fine (ok v) ts h = ground arith
returned-fine (err e) ts h = h

raised-never_fuel : (r : Result String Value) → never_fuel (raised r) ≡ true
raised-never_fuel (ok v) = refl
raised-never_fuel (err e) = refl

close-fine : (v : Value) (ts : List Token) → fine (suc (length ts)) (close v ts) ≡ true
close-fine v ts = ground arith

module _ {F : Floats} (lib : Library F) where
  compare_next-never_fuel :
      (op : Comparator) (v w : Value) (a : Option F.Float) (r : Result Error (Option F.Float))
      → r ≢ err out_of_fuel
      → never_fuel (compare_next lib op v w a r) ≡ true
  compare_next-never_fuel op v w a (ok b) h = refl
  compare_next-never_fuel op v w a (err e) h = ground (arith, h)

  compare_first-never_fuel :
      (op : Comparator) (v w : Value) (r : Result Error (Option F.Float))
      → r ≢ err out_of_fuel
      → to_number lib w ≢ err out_of_fuel
      → never_fuel (compare_first lib op v w r) ≡ true
  compare_first-never_fuel op v w (ok a) h g = compare_next-never_fuel op v w a (to_number lib w) g
  compare_first-never_fuel op v w (err e) h g = ground (arith, h)

  number_or_raise-never : (o : Option F.Float) → number_or_raise lib o ≢ err out_of_fuel
  number_or_raise-never none = λ h. ground arith
  number_or_raise-never (some x) = λ h. ground arith

  to_number-never : (v : Value) → to_number lib v ≢ err out_of_fuel
  to_number-never null = λ h. ground arith
  to_number-never (bool b) = λ h. ground arith
  to_number-never (str s) = λ h. ground arith
  to_number-never (num n k) = number_or_raise-never (lib.float_of_number n k)
  to_number-never (time t) = λ h. ground arith
  to_number-never (obj fs) = λ h. ground arith
  to_number-never (arr xs) = λ h. ground arith

  compare_values-never_fuel :
      (v w : Value) (op : Comparator) → never_fuel (compare_values lib v op w) ≡ true
  unfolding compare_values
  compare_values-never_fuel v w op =
      compare_first-never_fuel op v w (to_number lib v) (to_number-never v) (to_number-never w)

  module _ (resolve_ref : String → Result String Value) (nested : List Token → Parsed) where
    -- The parser of what stands between parentheses has fuel for lists shorter than `k`.
    abbrev Lasts : ℕ → Type 0
    Lasts k = (us : List Token) → length us < k → fine (length us) (nested us) ≡ true

    parse_primary-fine :
        (ts : List Token)
        → Lasts (length ts)
        → fine (length ts) (parse_primary lib resolve_ref nested ts) ≡ true
    parse_primary-fine [] h = refl
    parse_primary-fine (lp ∷ ts) h =
        follow-fine (suc (length ts)) (nested ts) close (ground (arith, h ts))
          λ v rest l. close-fine v rest
    parse_primary-fine (number n k ∷ ts) h = ground arith
    parse_primary-fine (quoted s ∷ ts) h = ground arith
    parse_primary-fine (keyword w ∷ ts) h = ground arith
    parse_primary-fine (ref r ∷ ts) h =
        returned-fine (raised (resolve_ref r)) ts (raised-never_fuel (resolve_ref r))
    parse_primary-fine (and_op ∷ ts) h = refl
    parse_primary-fine (or_op ∷ ts) h = refl
    parse_primary-fine (not_op ∷ ts) h = refl
    parse_primary-fine (rp ∷ ts) h = refl
    parse_primary-fine (comparator op ∷ ts) h = refl

    Lasts-below : (k j : ℕ) → j ≤ k → Lasts k → Lasts j
    Lasts-below k j l h us m = h us (omega arith)

    compared-fine :
        (k : ℕ) (v : Value) (ts : List Token)
        → Lasts k
        → length ts ≤ k
        → fine (suc (length ts)) (compared lib resolve_ref nested v ts) ≡ true
    compared-fine k v [] h l = refl
    compared-fine k v (comparator op ∷ ts) h l =
        follow-fine (suc (suc (length ts))) (parse_primary lib resolve_ref nested ts) _
          (ground (arith, parse_primary-fine ts (Lasts-below k (length ts) (omega arith) h)))
          λ w rest m.
            returned-fine (compare_values lib v op w) rest (compare_values-never_fuel v w op)
    compared-fine k v (lp ∷ ts) h l = ground arith
    compared-fine k v (rp ∷ ts) h l = ground arith
    compared-fine k v (and_op ∷ ts) h l = ground arith
    compared-fine k v (or_op ∷ ts) h l = ground arith
    compared-fine k v (not_op ∷ ts) h l = ground arith
    compared-fine k v (number n j ∷ ts) h l = ground arith
    compared-fine k v (quoted s ∷ ts) h l = ground arith
    compared-fine k v (keyword w ∷ ts) h l = ground arith
    compared-fine k v (ref r ∷ ts) h l = ground arith

    parse_comparison-fine :
        (ts : List Token)
        → Lasts (length ts)
        → fine (length ts) (parse_comparison lib resolve_ref nested ts) ≡ true
    parse_comparison-fine ts h =
        follow-fine (length ts) (parse_primary lib resolve_ref nested ts) _
          (parse_primary-fine ts h) λ v rest l. compared-fine (length ts) v rest h (omega arith)

    parse_not-fine :
        (ts : List Token)
        → Lasts (length ts)
        → fine (length ts) (parse_not lib resolve_ref nested ts) ≡ true
    parse_not-fine [] h = refl
    parse_not-fine (not_op ∷ ts) h =
        follow-fine (suc (length ts)) (parse_not lib resolve_ref nested ts) _
          (ground
            (arith, parse_not-fine ts (Lasts-below (suc (length ts)) (length ts) (omega arith) h)))
          λ v rest l. ground arith
    parse_not-fine (t ∷ ts) h = parse_comparison-fine (t ∷ ts) h

    and_loop-fine :
        (n : ℕ) (v : Value) (ts : List Token)
        → Lasts n
        → length ts ≤ n
        → fine (suc (length ts)) (and_loop lib resolve_ref nested n v ts) ≡ true
    and_loop-fine zero v [] h l = refl
    and_loop-fine (suc n) v [] h l = refl
    and_loop-fine zero v (t ∷ ts) h l = ground arith
    and_loop-fine (suc n) v (and_op ∷ ts) h l =
        widen (suc (suc (length ts))) (length ts) _ (omega arith) (
          follow-fine (length ts) (parse_not lib resolve_ref nested ts) _
            (parse_not-fine ts (Lasts-below (suc n) (length ts) (omega arith) h))
            λ w rest m.
              and_loop-fine n (bool (coerce_bool lib v && coerce_bool lib w)) rest
                (Lasts-below (suc n) n (omega arith) h) (omega arith))
    and_loop-fine (suc n) v (lp ∷ ts) h l = ground arith
    and_loop-fine (suc n) v (rp ∷ ts) h l = ground arith
    and_loop-fine (suc n) v (comparator op ∷ ts) h l = ground arith
    and_loop-fine (suc n) v (or_op ∷ ts) h l = ground arith
    and_loop-fine (suc n) v (not_op ∷ ts) h l = ground arith
    and_loop-fine (suc n) v (number i j ∷ ts) h l = ground arith
    and_loop-fine (suc n) v (quoted s ∷ ts) h l = ground arith
    and_loop-fine (suc n) v (keyword w ∷ ts) h l = ground arith
    and_loop-fine (suc n) v (ref r ∷ ts) h l = ground arith

    parse_and-fine :
        (n : ℕ) (ts : List Token)
        → Lasts n
        → length ts ≤ n
        → fine (length ts) (parse_and lib resolve_ref nested n ts) ≡ true
    parse_and-fine n ts h l =
        follow-fine (length ts) (parse_not lib resolve_ref nested ts) _
          (parse_not-fine ts (Lasts-below n (length ts) l h))
          λ v rest m. and_loop-fine n v rest h (omega arith)

    or_loop-fine :
        (m n : ℕ) (v : Value) (ts : List Token)
        → Lasts m
        → n ≤ m
        → length ts ≤ n
        → fine (suc (length ts)) (or_loop lib resolve_ref nested m n v ts) ≡ true
    or_loop-fine m zero v [] h k l = refl
    or_loop-fine m (suc n) v [] h k l = refl
    or_loop-fine m zero v (t ∷ ts) h k l = ground arith
    or_loop-fine m (suc n) v (or_op ∷ ts) h k l =
        widen (suc (suc (length ts))) (length ts) _ (omega arith) (
          follow-fine (length ts) (parse_and lib resolve_ref nested m ts) _
            (parse_and-fine m ts h (omega arith))
            λ w rest i.
              or_loop-fine m n (bool (coerce_bool lib v || coerce_bool lib w)) rest h (omega arith)
                (omega arith))
    or_loop-fine m (suc n) v (lp ∷ ts) h k l = ground arith
    or_loop-fine m (suc n) v (rp ∷ ts) h k l = ground arith
    or_loop-fine m (suc n) v (comparator op ∷ ts) h k l = ground arith
    or_loop-fine m (suc n) v (and_op ∷ ts) h k l = ground arith
    or_loop-fine m (suc n) v (not_op ∷ ts) h k l = ground arith
    or_loop-fine m (suc n) v (number i j ∷ ts) h k l = ground arith
    or_loop-fine m (suc n) v (quoted s ∷ ts) h k l = ground arith
    or_loop-fine m (suc n) v (keyword w ∷ ts) h k l = ground arith
    or_loop-fine m (suc n) v (ref r ∷ ts) h k l = ground arith

  module _ (resolve_ref : String → Result String Value) where
    pub parse_or-fine :
        (n : ℕ) (ts : List Token)
        → length ts < n
        → fine (length ts) (parse_or lib resolve_ref n ts) ≡ true
    unfolding parse_or
    parse_or-fine zero ts l = ground arith
    parse_or-fine (suc n) ts l =
        follow-fine (length ts) (parse_and lib resolve_ref (parse_or lib resolve_ref n) n ts) _
          (parse_and-fine resolve_ref (parse_or lib resolve_ref n) n ts (parse_or-fine n)
            (omega arith))
          λ v rest m.
            or_loop-fine resolve_ref (parse_or lib resolve_ref n) n n v rest (parse_or-fine n)
              (omega arith) (omega arith)

    finished-never :
        (k : ℕ) (r : Parsed) → fine k r ≡ true → finished lib resolve_ref r ≢ err out_of_fuel
    finished-never k (ok (v, [])) h = λ e. ground arith
    finished-never k (ok (v, t ∷ ts)) h = λ e. ground arith
    finished-never k (err e) h = λ i. ground arith

    -- The parser ends on every list of tokens: the fuel that `parse` gives, one more than there are
    -- tokens, does not run out, whatever the references resolve to.
    pub parse_ends : (ts : List Token) → parse lib resolve_ref ts ≢ err out_of_fuel
    unfolding parse
    parse_ends ts =
        finished-never (length ts) (parse_or lib resolve_ref (suc (length ts)) ts)
          (parse_or-fine (suc (length ts)) ts (omega arith))
