-- ===== src/Policy/Pii/Slices.antt =====
-- Slices of a text, and what stands at a position of a text of which a slice was replaced.
use Prim.Native.Char.{Char}
use saz.Prelude.{
  ℕ, zero, suc, ◌+◌, ◌-◌, ◌≤◌, String, ◌≡◌, refl, ap, ◌∙◌, Option, none, some, ltb, if◌then◌else◌,
  arith,
}
use saz.Redaction.{size, onto}

-- `t[n]`, with none past the end
abbrev pub char_at : String → ℕ → Option Char
char_at String.[] p = none
char_at (String.◌∷◌ c t) zero = some c
char_at (String.◌∷◌ c t) (suc p) = char_at t p

-- `t[:n]`
abbrev pub take : ℕ → String → String
take zero t = ""
take (suc n) String.[] = ""
take (suc n) (String.◌∷◌ c t) = String.◌∷◌ c (take n t)

-- `t[n:]`
abbrev pub drop : ℕ → String → String
drop zero t = t
drop (suc n) String.[] = ""
drop (suc n) (String.◌∷◌ c t) = drop n t

-- `t[:i] + mask + t[j:]`
unfoldable pub splice : String → ℕ → ℕ → String → String
splice mask i j t = onto (take i t) (onto mask (drop j t))

pub char_at-beyond : (t : String) (p : ℕ) → size t ≤ p → char_at t p ≡ none
char_at-beyond String.[] p h = refl
char_at-beyond (String.◌∷◌ c t) zero h = absurd (omega arith)
char_at-beyond (String.◌∷◌ c t) (suc p) h = char_at-beyond t p (omega arith)

char_at-onto :
    (s t : String) (p : ℕ)
    → char_at (onto s t) p ≡ (if ltb p (size s) then char_at s p else char_at t (p - size s))
char_at-onto String.[] t p = ground arith
char_at-onto (String.◌∷◌ c s) t zero = ground arith
char_at-onto (String.◌∷◌ c s) t (suc p) = ground (arith, char_at-onto s t p)

size-onto : (s t : String) → size (onto s t) ≡ size s + size t
size-onto String.[] t = omega arith
size-onto (String.◌∷◌ c s) t = omega (arith, size-onto s t)

-- How much of a text of the size is left of the position.
abbrev pub left_of : ℕ → ℕ → ℕ
left_of n k = if ltb n k then n else k

size-take : (n : ℕ) (t : String) → size (take n t) ≡ left_of n (size t)
size-take zero t = ground arith
size-take (suc n) String.[] = ground arith
size-take (suc n) (String.◌∷◌ c t) = ground (arith, size-take n t)

char_at-take :
    (n : ℕ) (t : String) (p : ℕ) → char_at (take n t) p ≡ (if ltb p n then char_at t p else none)
char_at-take zero t p = ground arith
char_at-take (suc n) String.[] p = ground arith
char_at-take (suc n) (String.◌∷◌ c t) zero = ground arith
char_at-take (suc n) (String.◌∷◌ c t) (suc p) = ground (arith, char_at-take n t p)

size-drop : (n : ℕ) (t : String) → size (drop n t) ≡ size t - n
size-drop zero t = omega arith
size-drop (suc n) String.[] = omega arith
size-drop (suc n) (String.◌∷◌ c t) = omega (arith, size-drop n t)

char_at-drop : (n : ℕ) (t : String) (p : ℕ) → char_at (drop n t) p ≡ char_at t (n + p)
char_at-drop zero t p = ap (char_at t) (omega arith)
char_at-drop (suc n) String.[] p = refl
char_at-drop (suc n) (String.◌∷◌ c t) p =
    char_at-drop n t p ∙ ap (char_at (String.◌∷◌ c t)) (the_same n p)
  where
    the_same : (n p : ℕ) → suc (n + p) ≡ suc n + p
    the_same n p = omega arith

pub size-splice :
    (mask : String) (i j : ℕ) (t : String)
    → size (splice mask i j t) ≡ left_of i (size t) + (size mask + (size t - j))
unfolding splice
size-splice mask i j t = omega (
  arith,
  size-onto (take i t) (onto mask (drop j t)),
  size-onto mask (drop j t),
  size-take i t,
  size-drop j t,
)

-- Left of the slice stands what stood there, then the mask, then what stood right of it.
pub char_at-splice :
    (mask : String) (i j : ℕ) (t : String) (p : ℕ)
    → char_at (splice mask i j t) p ≡ (
        let k = left_of i (size t) in
        if ltb p k
        then char_at t p
        else if ltb (p - k) (size mask)
        then char_at mask (p - k)
        else char_at t (j + (p - k - size mask)))
unfolding splice
char_at-splice mask i j t p = ground (
  arith,
  char_at-onto (take i t) (onto mask (drop j t)) p,
  size-take i t,
  char_at-onto mask (drop j t) (p - left_of i (size t)),
  char_at-take i t p,
  char_at-drop j t (p - left_of i (size t) - size mask),
)

-- A text is what stands at its positions.
pub String-ext : (s t : String) → ((p : ℕ) → char_at s p ≡ char_at t p) → s ≡ t
String-ext String.[] String.[] h = refl
String-ext String.[] (String.◌∷◌ d t) h = let e = h 0 in cc
String-ext (String.◌∷◌ c s) String.[] h = let e = h 0 in cc
String-ext (String.◌∷◌ c s) (String.◌∷◌ d t) h =
    let e = h 0 in let rest = String-ext s t (λ p. h (suc p)) in cc
