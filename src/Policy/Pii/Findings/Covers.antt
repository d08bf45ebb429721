-- ===== src/Policy/Pii/Findings/Covers.antt =====
-- Every position that a finding covers is still covered when `_dedupe` of
-- backend/saz/policies/pii_detector.py has thrown out the findings within others.
use saz.Prelude.{
  ℕ, ◌≡◌, refl, ap, ◌∙◌, Bool, true, ◌&&◌, ◌||◌, List, [], ◌∷◌, ◌++◌, any, all, ltb, leb, string_eq,
  nat_eq, if◌then◌else◌, if-holds, arith,
}
use saz.Policy.Pii.Findings.{
  Finding, dropped_for, keep_each, put, put_all, key_le, start_le, insert, sort, dedupe,
}

-- Whether the position lies in the finding.
abbrev pub has : ℕ → Finding → Bool
has p f = leb f.start p && ltb p f.stop

module _ (before : Finding → Finding → Bool) (test : Finding → Bool) where
  any-insert :
      (f : Finding) (fs : List Finding) → any test (insert before f fs) ≡ (test f || any test fs)
  any-insert f [] = refl
  any-insert f (g ∷ gs) = ground (arith, any-insert f gs)

  pub any-sort : (fs : List Finding) → any test (sort before fs) ≡ any test fs
  any-sort [] = refl
  any-sort (f ∷ fs) = any-insert f (sort before fs) ∙ ap (λ b. test f || b) (any-sort fs)

  pub all-insert :
      (f : Finding) (fs : List Finding) → all test (insert before f fs) ≡ (test f && all test fs)
  all-insert f [] = refl
  all-insert f (g ∷ gs) = ground (arith, all-insert f gs)

  pub all-sort : (fs : List Finding) → all test (sort before fs) ≡ all test fs
  all-sort [] = refl
  all-sort (f ∷ fs) = all-insert f (sort before fs) ∙ ap (λ b. test f && b) (all-sort fs)

module _ (p : ℕ) where
  any-append :
      (fs : List Finding) (f : Finding) → any (has p) (fs ++ f ∷ []) ≡ (any (has p) fs || has p f)
  any-append [] f = ground arith
  any-append (g ∷ gs) f = ground (arith, any-append gs f)

  dropped_covered :
      (f : Finding) (kept : List Finding)
      → any (dropped_for f) kept ≡ true
      → has p f ≡ true
      → any (has p) kept ≡ true
  dropped_covered f [] d h = cc
  dropped_covered f (k ∷ kept) d h = ground (arith, dropped_covered f kept)

  keep_each-covers :
      (kept fs : List Finding)
      → (any (has p) kept || any (has p) fs) ≡ true
      → any (has p) (keep_each kept fs) ≡ true
  unfolding keep_each
  keep_each-covers kept [] h = ground arith
  keep_each-covers kept (f ∷ fs) h =
      keep_each-covers (if any (dropped_for f) kept then kept else kept ++ f ∷ []) fs (
        if-holds (λ (ks : List Finding). (any (has p) ks || any (has p) fs) ≡ true)
          (any (dropped_for f) kept) _ _ (λ d. ground (arith, dropped_covered f kept d))
          (λ d. ground (arith, any-append kept f)))

  any-put : (f : Finding) (fs : List Finding) → any (has p) (put f fs) ≡ (has p f || any (has p) fs)
  unfolding put
  any-put f [] = refl
  any-put f (g ∷ gs) = ground (arith, any-put f gs)

  any-put_all :
      (uniq fs : List Finding)
      → any (has p) (put_all uniq fs) ≡ (any (has p) uniq || any (has p) fs)
  unfolding put_all
  any-put_all uniq [] = ground arith
  any-put_all uniq (f ∷ fs) = ground (arith, any-put_all (put f uniq) fs, any-put f uniq)

  pub dedupe-covers :
      (items : List Finding) → any (has p) items ≡ true → any (has p) (dedupe items) ≡ true
  unfolding dedupe
  dedupe-covers items h =
      let ordered = sort key_le items in
      any-sort start_le (has p) (put_all [] (keep_each [] ordered))
      ∙ any-put_all [] (keep_each [] ordered)
      ∙ keep_each-covers [] ordered (any-sort key_le (has p) items ∙ h)
