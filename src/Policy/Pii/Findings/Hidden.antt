-- ===== src/Policy/Pii/Findings/Hidden.antt =====
-- What `redact` of backend/saz/policies/pii_detector.py returns does not depend on what it takes out.
use mathlib.Core.Path.{fun_ext}
use saz.Prelude.{
  ℕ, ◌+◌, ◌-◌, ◌≤◌, String, ◌≡◌, refl, sym, ap, ◌∙◌, Bool, true, false, not, ◌&&◌, ◌||◌, none, List,
  [], ◌∷◌, map, any, all, ltb, leb, ◌==◌, string_eq, nat_eq, if-holds, Bool-cases, inl, inr, arith,
}
use saz.Redaction.{size}
use saz.Policy.Pii.Slices.{
  char_at, splice, left_of, size-splice, char_at-splice, char_at-beyond, String-ext,
}
use saz.Policy.Pii.Findings.{
  Finding, Detector, insert, sort, start_ge, mask_for, splice_all, findings, detect, redact,
}
use saz.Policy.Pii.Findings.Covers.{has, any-sort, all-insert, all-sort, dedupe-covers}

-- Where a finding stands and of which type it is, without its value.
abbrev pub place : Finding → Finding
place f = record f { value = ""; note = none }

-- If the second finding begins no later than the first and ends behind it, then the first is at
-- least as long as the mask.
abbrev pub fits : ℕ → Finding → Finding → Bool
fits n f g = not (leb g.start f.start && ltb f.stop g.stop) || leb n (f.stop - f.start)

abbrev pub all_fit : ℕ → List Finding → Bool
all_fit n fs = all (λ f. leb f.start f.stop && all (fits n f) fs) fs

-- Each finding begins no later than those before it.
abbrev IsDescending : List Finding → Type 0
IsDescending [] = Unit {0}
IsDescending (f ∷ fs) = (all (start_ge f) fs ≡ true) × IsDescending fs

all_later :
    (f g : Finding) (gs : List Finding)
    → start_ge f g ≡ true
    → all (start_ge g) gs ≡ true
    → all (start_ge f) gs ≡ true
all_later f g [] h e = refl
all_later f g (k ∷ gs) h e = ground (arith, all_later f g gs)

insert-IsDescending :
    (f : Finding) (fs : List Finding) → IsDescending fs → IsDescending (insert start_ge f fs)
insert-IsDescending f [] h = (refl, tt)
insert-IsDescending f (g ∷ gs) h =
    if-holds IsDescending (start_ge f g) _ _ (λ e. (ground (arith, all_later f g gs e h.0, e), h))
      (λ e. (inserted_later e, insert-IsDescending f gs h.1))
  where
    inserted_later : start_ge f g ≡ false → all (start_ge g) (insert start_ge f gs) ≡ true
    inserted_later e = ground (arith, all-insert start_ge (start_ge g) f gs, h.0, e)

sort-IsDescending : (fs : List Finding) → IsDescending (sort start_ge fs)
sort-IsDescending [] = tt
sort-IsDescending (f ∷ fs) = insert-IsDescending f (sort start_ge fs) (sort-IsDescending fs)

-- Each finding is proper and fits those behind it.
abbrev IsFitting : ℕ → List Finding → Type 0
IsFitting n [] = Unit {0}
IsFitting n (f ∷ fs) = (f.start ≤ f.stop) × (all (fits n f) fs ≡ true) × IsFitting n fs

suffix-IsFitting :
    (n : ℕ) (found fs : List Finding)
    → ((test : Finding → Bool) → all test found ≡ true → all test fs ≡ true)
    → all (λ f. leb f.start f.stop && all (fits n f) found) fs ≡ true
    → IsFitting n fs
suffix-IsFitting n found [] within h = tt
suffix-IsFitting n found (f ∷ fs) within h =
    let fitting : all (fits n f) found ≡ true = ground arith in
    let proper : f.start ≤ f.stop = ground arith in
    let here = within (fits n f) fitting in
    (
      proper,
      ground arith,
      suffix-IsFitting n found fs (λ test e. let k = within test e in ground arith) (ground arith),
    )

-- A text right of a finding is moved to where no other finding reached.
moved_out :
    (n : ℕ) (f : Finding) (fs : List Finding) (p : ℕ)
    → f.start ≤ f.stop
    → f.start + n ≤ p
    → all (start_ge f) fs ≡ true
    → all (fits n f) fs ≡ true
    → any (has p) fs ≡ false
    → any (has (f.stop + (p - f.start - n))) fs ≡ false
moved_out n f [] p h l d e c = refl
moved_out n f (g ∷ fs) p h l d e c = ground (arith, moved_out n f fs p)

module _ (mask : String) where
  Agree : List Finding → String → String → Type 0
  Agree fs a b = (size a ≡ size b) × ((p : ℕ) → any (has p) fs ≡ false → char_at a p ≡ char_at b p)

  splice-same :
      (f : Finding) (fs : List Finding) (a b : String) (p : ℕ)
      → f.start ≤ f.stop
      → all (start_ge f) fs ≡ true
      → all (fits (size mask) f) fs ≡ true
      → Agree (f ∷ fs) a b
      → any (has p) fs ≡ false
      → char_at (splice mask f.start f.stop a) p ≡ char_at (splice mask f.start f.stop b) p
  unfolding Agree
  splice-same f fs a b p l d e agree c =
      let q = f.stop + (p - left_of f.start (size a) - size mask) in
      ground (
        arith,
        char_at-splice mask f.start f.stop a p,
        char_at-splice mask f.start f.stop b p,
        agree.0,
        agree.1 p,
        agree.1 q,
        moved_out (size mask) f fs p,
        char_at-beyond a q,
        char_at-beyond b q,
      )

  splice_all-hides :
      (fs : List Finding) (a b : String)
      → IsDescending fs
      → IsFitting (size mask) fs
      → Agree fs a b
      → splice_all (λ f. mask) fs a ≡ splice_all (λ f. mask) fs b
  unfolding splice_all Agree
  splice_all-hides [] a b d e agree = String-ext a b (λ p. agree.1 p refl)
  splice_all-hides (f ∷ fs) a b d e agree =
      splice_all-hides fs (splice mask f.start f.stop a) (splice mask f.start f.stop b) d.1 e.2 (
        ground
            (arith, size-splice mask f.start f.stop a, size-splice mask f.start f.stop b, agree.0),
        λ p c. splice-same f fs a b p e.0 d.0 e.1 agree c,
      )

insert-place :
    (f : Finding) (fs : List Finding)
    → insert start_ge (place f) (map place fs) ≡ map place (insert start_ge f fs)
insert-place f [] = refl
insert-place f (g ∷ gs) = ground (arith, insert-place f gs)

sort-place : (fs : List Finding) → sort start_ge (map place fs) ≡ map place (sort start_ge fs)
sort-place [] = refl
sort-place (f ∷ fs) =
    ap (insert start_ge (place f)) (sort-place fs) ∙ insert-place f (sort start_ge fs)

splice_all-place :
    (mask : String) (fs : List Finding) (out : String)
    → splice_all (λ f. mask) (map place fs) out ≡ splice_all (λ f. mask) fs out
unfolding splice_all
splice_all-place mask [] out = refl
splice_all-place mask (f ∷ fs) out = splice_all-place mask fs (splice mask f.start f.stop out)

sort-IsFitting :
    (n : ℕ) (found : List Finding) → all_fit n found ≡ true → IsFitting n (sort start_ge found)
sort-IsFitting n found h =
    suffix-IsFitting n found (sort start_ge found) (λ test e. all-sort start_ge test found ∙ e)
      (all-sort start_ge (λ f. leb f.start f.stop && all (fits n f) found) found ∙ h)

redact-fixed :
    (d : Detector) (text replacement : String)
    → (replacement == "auto") ≡ false
    → redact d text replacement ≡ splice_all (λ f. replacement) (sort start_ge (detect d text)) text
unfolding redact
redact-fixed d text replacement h =
    ap (λ (mask : Finding → String). splice_all mask (sort start_ge (detect d text)) text) fixed
  where
    fixed : mask_for d replacement ≡ (λ f. replacement)
    fixed = fun_ext λ f. rw h refl

-- Only the places of the findings count.
splice_all-places :
    (mask : String) (fs : List Finding) (out : String)
    → splice_all (λ f. mask) (sort start_ge fs) out
      ≡ splice_all (λ f. mask) (sort start_ge (map place fs)) out
splice_all-places mask fs out = rw (sort-place fs, splice_all-place mask (sort start_ge fs) out)

-- With a fixed replacement that is no longer than any reported finding lying in another which ends
-- behind it, two texts are redacted to the same text if they are of one length, differ only where the
-- patterns found something in the first, and have the same types reported at the same places: what
-- was found leaves no trace then. Nothing is said of the replacement `auto`, which shows parts.
pub redact-hides :
    (d : Detector) (replacement t u : String)
    → (replacement == "auto") ≡ false
    → all_fit (size replacement) (detect d t) ≡ true
    → map place (detect d t) ≡ map place (detect d u)
    → size t ≡ size u
    → ((p : ℕ) → any (has p) (findings d t d.enabled) ≡ false → char_at t p ≡ char_at u p)
    → redact d t replacement ≡ redact d u replacement
unfolding detect Agree
redact-hides d replacement t u fixed fit same long agree =
    let found = detect d t in
    redact-fixed d t replacement fixed
    ∙ splice_all-hides replacement (sort start_ge found) t u (sort-IsDescending found)
        (sort-IsFitting (size replacement) found fit) (long, λ p c. agree p (raw_free p c))
    ∙ splice_all-places replacement found u
    ∙ ap (λ (fs : List Finding). splice_all (λ f. replacement) (sort start_ge fs) u) same
    ∙ sym (splice_all-places replacement (detect d u) u)
    ∙ sym (redact-fixed d u replacement fixed)
  where
    raw_free :
        (p : ℕ)
        → any (has p) (sort start_ge (detect d t)) ≡ false
        → any (has p) (findings d t d.enabled) ≡ false
    raw_free p c = elim (Bool-cases (any (has p) (findings d t d.enabled))) [
      | inl e ↦
          let k = any-sort start_ge (has p) (detect d t) in
          let m = dedupe-covers p (findings d t d.enabled) e in absurd (cc)
      | inr e ↦ e
    ]
