-- ===== src/Policy/Setup/Limits.antt =====
-- The limits that backend/saz/compiler/dsl.py writes are read as those that they come from.
use saz.Prelude.{
  String, Bool, false, ◌≡◌, refl, sym, ap, ◌∙◌, Option, none, some, Result, ok, ◌>>=◌, ok-inj,
  >>=-eq-ok, if◌then◌else◌, ◌==◌, string_eq, arith, eq_iff, text_refl,
}
use saz.Prelude.Int.{ℤ, pos, negsuc}
use saz.Prelude.Json.{
  Value, null, bool, str, num, time, obj, arr, Fields, lookup, assign, lookup-assign,
}
use saz.Compiler.{Library, as_int, truncate}
use saz.Compiler.Policies.{Unusable, add_limit, int_of}
use saz.Policy.Setup.{int_or_raise, new_limit}

-- An integer is read again as itself.
pub truncate-whole : (n : ℤ) → truncate n 0 ≡ n
truncate-whole (pos n) = ground arith
truncate-whole (negsuc n) = ground arith

pub int_of-ok : (lib : Library) (v : Value) (n : ℤ) → int_of lib v ≡ ok n → as_int lib v ≡ some n
int_of-ok lib v n h = ground (arith, h)

-- What is written is read as the limit that it came from, and nothing else is changed.
written_limit :
    (lib : Library) (k j : String) (v : Value) (out out' : Fields) (old : ℤ)
    → (int_of lib v >>= λ n. ok (assign k (num n 0) out)) ≡ ok out'
    → (new_limit lib old (lookup k out') ≡ int_or_raise (as_int lib v))
      × (lookup j out' ≡ (if k == j then lookup k out' else lookup j out))
written_limit lib k j v out out' old h =
    let (n, e, e') = >>=-eq-ok (int_of lib v) _ out' h in
    let at = λ (i : String).
      sym (ap (lookup i) (ok-inj {E = Unusable} (assign k (num n 0) out) out' e'))
      ∙ lookup-assign k i (num n 0) out in
    (
      rw (at k, text_refl k, int_of-ok lib v n e, truncate-whole n) refl,
      rw (at j, at k, text_refl k) refl,
    )

same_if :
    (k j : String) (out : Fields) → lookup j out ≡ (if k == j then lookup k out else lookup j out)
same_if k j out = ground (arith, eq_iff k j)

-- A limit that is not written is read as none.
left_out :
    (lib : Library) (k j : String) (out out' : Fields) (old : ℤ)
    → ◌≡◌ {A = Result Unusable Fields} (ok out) (ok out')
    → lookup k out ≡ none
    → (new_limit lib old (lookup k out') ≡ ok old)
      × (lookup j out' ≡ (if k == j then lookup k out' else lookup j out))
left_out lib k j out out' old h e =
    let same = λ (i : String). sym (ap (lookup i) (ok-inj {E = Unusable} out out' h)) in
    (rw (same k, e) refl, rw (same j, same k) (same_if k j out))

add_limit_lem :
    (lib : Library) (k j : String) (v : Option Value) (out out' : Fields) (old : ℤ)
    → add_limit lib k v out ≡ ok out'
    → lookup k out ≡ none
    → (new_limit lib old (lookup k out') ≡ new_limit lib old v)
      × (lookup j out' ≡ (if k == j then lookup k out' else lookup j out))
add_limit_lem lib k j none out out' old h e = left_out lib k j out out' old h e
add_limit_lem lib k j (some null) out out' old h e = left_out lib k j out out' old h e
add_limit_lem lib k j (some (bool b)) out out' old h e =
    written_limit lib k j (bool b) out out' old h
add_limit_lem lib k j (some (str s)) out out' old h e = written_limit lib k j (str s) out out' old h
add_limit_lem lib k j (some (num n d)) out out' old h e =
    written_limit lib k j (num n d) out out' old h
add_limit_lem lib k j (some (time t)) out out' old h e =
    written_limit lib k j (time t) out out' old h
add_limit_lem lib k j (some (obj d)) out out' old h e = written_limit lib k j (obj d) out out' old h
add_limit_lem lib k j (some (arr xs)) out out' old h e =
    written_limit lib k j (arr xs) out out' old h

if_not : (b : Bool) (x y : Option Value) → b ≡ false → (if b then x else y) ≡ y
if_not b x y h = rw h refl

module _ (lib : Library) where
  -- What the three limits leave of the other keys.
  pub limits_lem :
      (p out c : Fields) (j : String) (old : ℤ)
      → (add_limit lib "max_tokens" (lookup "max_tokens" p) out >>= λ with_tokens.
          add_limit lib "max_steps" (lookup "max_steps" p) with_tokens >>= λ with_steps.
          add_limit lib "max_time_seconds" (lookup "max_time_seconds" p) with_steps)
        ≡ ok c
      → (lookup "max_tokens" out ≡ none)
        × (lookup "max_steps" out ≡ none)
        × (lookup "max_time_seconds" out ≡ none)
      → (("max_tokens" == j) ≡ false)
        × (("max_steps" == j) ≡ false)
        × (("max_time_seconds" == j) ≡ false)
      → (new_limit lib old (lookup "max_tokens" c) ≡ new_limit lib old (lookup "max_tokens" p))
        × (new_limit lib old (lookup "max_steps" c) ≡ new_limit lib old (lookup "max_steps" p))
        × (new_limit lib old (lookup "max_time_seconds" c)
            ≡ new_limit lib old (lookup "max_time_seconds" p))
        × (lookup j c ≡ lookup j out)
  limits_lem p out c j old h (no1, no2, no3) (o1, o2, o3) =
      let (a, e1, h1) = >>=-eq-ok (add_limit lib "max_tokens" (lookup "max_tokens" p) out) _ c h in
      let (b, e2, e3) = >>=-eq-ok (add_limit lib "max_steps" (lookup "max_steps" p) a) _ c h1 in
      let tokens =
        λ (i : String). add_limit_lem lib "max_tokens" i (lookup "max_tokens" p) out a old e1 no1 in
      let steps = λ (i : String).
        add_limit_lem lib "max_steps" i (lookup "max_steps" p) a b old e2
          ((tokens "max_steps").1 ∙ no2) in
      let times = λ (i : String).
        add_limit_lem lib "max_time_seconds" i (lookup "max_time_seconds" p) b c old e3
          ((steps "max_time_seconds").1 ∙ (tokens "max_time_seconds").1 ∙ no3) in
      (
        ap (new_limit lib old) ((times "max_tokens").1 ∙ (steps "max_tokens").1)
            ∙ (tokens "max_tokens").0,
        ap (new_limit lib old) ((times "max_steps").1) ∙ (steps "max_steps").0,
        (times "max_time_seconds").0,
        (times j).1
            ∙ if_not ("max_time_seconds" == j) _ _ o3
            ∙ (steps j).1
            ∙ if_not ("max_steps" == j) _ _ o2
            ∙ (tokens j).1
            ∙ if_not ("max_tokens" == j) _ _ o1,
      )
