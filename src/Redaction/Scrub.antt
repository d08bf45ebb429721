-- ===== src/Redaction/Scrub.antt =====
-- What `str.replace` leaves of a text, as backend/saz/security/redaction.py uses it.
use saz.Prelude.{
  ℕ, zero, suc, String, ◌≡◌, refl, ap, Bool, true, false, not, ◌&&◌, ◌||◌, List, [], ◌∷◌, all, ◌==◌,
  string_eq, nat_eq, if◌then◌else◌, arith, if-holds,
}
use Prim.Native.Char.{Char, code}
use saz.Redaction.{onto, begins, occurs, redacted, rest_size, replace, scrub}

abbrev pub is_star : Char → Bool
is_star c = code c == b'*'

abbrev pub star_free : String → Bool
star_free String.[] = true
star_free (String.◌∷◌ c s) = not (is_star c) && star_free s

abbrev pub is_empty : String → Bool
is_empty String.[] = true
is_empty (String.◌∷◌ c s) = false

-- A secret without an asterisk that is no part of the word in the mark.
abbrev pub is_plain : String → Bool
is_plain s = not (is_empty s) && star_free s && not (occurs s "REDACTED")

abbrev star : String → String
star x = onto "*" x

marked :
    (u : String) → onto redacted u ≡ star (star (star (onto "REDACTED" (star (star (star u))))))
marked u = refl

begins-star : (s x : String) → star_free s ≡ true → is_empty s ≡ false → begins s (star x) ≡ false
begins-star String.[] x f e = ground (arith, e)
begins-star (String.◌∷◌ c s) x f e = ground (arith, f)

occurs-star :
    (s x : String)
    → star_free s ≡ true
    → is_empty s ≡ false
    → occurs s x ≡ false
    → occurs s (star x) ≡ false
occurs-star s x f e o = ground (arith, begins-star s x f e, o)

-- What has no asterisk does not reach over one.
begins-onto : (s w x : String) → star_free s ≡ true → begins s (onto w (star x)) ≡ begins s w
begins-onto String.[] w x f = refl
begins-onto (String.◌∷◌ c s) String.[] x f = ground (arith, f)
begins-onto (String.◌∷◌ c s) (String.◌∷◌ d w) x f = ground (arith, f, begins-onto s w x)

occurs-onto :
    (s w x : String)
    → star_free s ≡ true
    → occurs s w ≡ false
    → occurs s (star x) ≡ false
    → occurs s (onto w (star x)) ≡ false
occurs-onto s String.[] x f o p = p
occurs-onto s (String.◌∷◌ d w) x f o p =
    ground (arith, begins-onto s (String.◌∷◌ d w) x f, occurs-onto s w x f, o, p)

occurs-marked :
    (s u : String) → is_plain s ≡ true → occurs s u ≡ false → occurs s (onto redacted u) ≡ false
occurs-marked s u h o =
    let f : star_free s ≡ true = ground (arith, h) in
    let e : is_empty s ≡ false = ground (arith, h) in
    let p : occurs s "REDACTED" ≡ false = ground (arith, h) in
    let behind =
      occurs-star s (star (star u)) f e (occurs-star s (star u) f e (occurs-star s u f e o)) in
    let word = onto "REDACTED" (star (star (star u))) in
    occurs-star s (star (star word)) f e (
      occurs-star s (star word) f e
        (occurs-star s word f e (occurs-onto s "REDACTED" (star (star u)) f p behind)))

-- A text that begins so after a replacement began so before it.
begins-replace :
    (s r t : String) → star_free s ≡ true → begins s (replace r zero t) ≡ true → begins s t ≡ true
begins-replace String.[] r t f b = refl
begins-replace (String.◌∷◌ c s) r String.[] f b = b
begins-replace (String.◌∷◌ c s) r (String.◌∷◌ d t) f b =
    by_match (begins r (String.◌∷◌ d t)) (begins-replace s r t (ground (arith, f))) b
  where
    by_match :
        (m : Bool)
        → (begins s (replace r zero t) ≡ true → begins s t ≡ true)
        → begins (String.◌∷◌ c s) (
            if m
            then onto redacted (replace r (rest_size r) t)
            else String.◌∷◌ d (replace r zero t))
          ≡ true
        → begins (String.◌∷◌ c s) (String.◌∷◌ d t) ≡ true
    by_match true i b = ground (
      arith,
      begins-star (String.◌∷◌ c s)
          (star (star (onto "REDACTED" (star (star (star (replace r (rest_size r) t))))))) f refl,
      b,
    )
    by_match false i b = ground (arith, b, i)

-- A character that is kept.
occurs-kept :
    (s r : String) (c : Char) (t : String)
    → star_free s ≡ true
    → begins r (String.◌∷◌ c t) ≡ false
    → begins s (String.◌∷◌ c t) ≡ false
    → occurs s (replace r zero t) ≡ false
    → occurs s (String.◌∷◌ c (replace r zero t)) ≡ false
occurs-kept s r c t f m b o =
    let e : replace r zero (String.◌∷◌ c t) ≡ String.◌∷◌ c (replace r zero t) =
      ap
        (λ b.
          if b then onto redacted (replace r (rest_size r) t) else String.◌∷◌ c (replace r zero t))
        m in
    by_test (begins s (String.◌∷◌ c (replace r zero t))) (ap (begins s) e)
  where
    by_test :
        (x : Bool)
        → begins s (replace r zero (String.◌∷◌ c t)) ≡ x
        → (x || occurs s (replace r zero t)) ≡ false
    by_test x e = ground (arith, e, o, b, begins-replace s r (String.◌∷◌ c t) f)

-- A replacement brings in no plain secret.
pub occurs-replace :
    (s r : String) (k : ℕ) (t : String)
    → is_plain s ≡ true
    → occurs s t ≡ false
    → occurs s (replace r k t) ≡ false
occurs-replace s r k String.[] h o = o
occurs-replace s r (suc k) (String.◌∷◌ c t) h o = occurs-replace s r k t h (ground (arith, o))
occurs-replace s r zero (String.◌∷◌ c t) h o =
    if-holds (λ (x : String). occurs s x ≡ false) (begins r (String.◌∷◌ c t)) _ _
      (λ m.
        occurs-marked s (replace r (rest_size r) t) h
          (occurs-replace s r (rest_size r) t h (ground (arith, o))))
      (λ m.
        occurs-kept s r c t (ground (arith, h)) m (ground (arith, o))
          (occurs-replace s r zero t h (ground (arith, o))))

-- A plain secret that is replaced is gone.
pub replace-gone :
    (s : String) (k : ℕ) (t : String) → is_plain s ≡ true → occurs s (replace s k t) ≡ false
replace-gone s k String.[] h = ground (arith, h)
replace-gone s (suc k) (String.◌∷◌ c t) h = replace-gone s k t h
replace-gone s zero (String.◌∷◌ c t) h =
    if-holds (λ (x : String). occurs s x ≡ false) (begins s (String.◌∷◌ c t)) _ _
      (λ m. occurs-marked s (replace s (rest_size s) t) h (replace-gone s (rest_size s) t h))
      (λ m. occurs-kept s s c t (ground (arith, h)) m m (replace-gone s zero t h))

-- The mark itself holds no plain secret.
pub redacted-plain : (s : String) → is_plain s ≡ true → occurs s redacted ≡ false
redacted-plain s h = occurs-marked s "" h (ground (arith, h))

-- One secret's turn in `scrub`.
abbrev pub turn : String → String → String
turn r t = if occurs r t then replace r zero t else t

turn-occurs :
    (s r t : String) → is_plain s ≡ true → occurs s t ≡ false → occurs s (turn r t) ≡ false
turn-occurs s r t h o =
    if-holds (λ (x : String). occurs s x ≡ false) (occurs r t) _ _
      (λ m. occurs-replace s r zero t h o) (λ m. o)

turn-gone : (s t : String) → is_plain s ≡ true → occurs s (turn s t) ≡ false
turn-gone s t h =
    if-holds (λ (x : String). occurs s x ≡ false) (occurs s t) _ _ (λ m. replace-gone s zero t h)
      (λ m. m)

scrub-occurs :
    (values : List String) (s t : String)
    → is_plain s ≡ true
    → occurs s t ≡ false
    → occurs s (scrub values t) ≡ false
scrub-occurs [] s t h o = o
scrub-occurs (r ∷ values) s t h o = scrub-occurs values s (turn r t) h (turn-occurs s r t h o)

-- The text holds none of the values.
abbrev pub is_free : List String → String → Bool
is_free [] t = true
is_free (s ∷ values) t = not (occurs s t) && is_free values t

pub scrub-free :
    (values : List String) (t : String)
    → all is_plain values ≡ true
    → is_free values (scrub values t) ≡ true
scrub-free [] t h = refl
scrub-free (s ∷ values) t h =
    both (scrub values (turn s t))
      (scrub-occurs values s (turn s t) (ground (arith, h)) (turn-gone s t (ground (arith, h))))
      (scrub-free values (turn s t) (ground (arith, h)))
  where
    both :
        (u : String) → occurs s u ≡ false → is_free values u ≡ true → is_free (s ∷ values) u ≡ true
    both u o f = ground (arith, o, f)
