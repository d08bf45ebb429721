-- ===== src/Engine/Templates/Resolves.antt =====
-- When a template of backend/saz/engine/templating.py can be resolved.
use saz.Prelude.{
  String, Bool, true, false, ◌&&◌, ◌≡◌, refl, ◌∙◌, ◌⊎◌, inl, inr, Bool-cases, Option, none, some,
  List, [], ◌∷◌, ◌++◌, Result, ok, err, ◌>>=◌, all, string_eq, if◌then◌else◌, arith, ℕ, map, ◌==◌,
  if-holds,
}
use saz.Prelude.Json.{
  Value, null, bool, str, num, time, obj, arr, Fields, end, field, Items, no_item, item, lookup,
}
use saz.Redaction.{begins}
use saz.Engine.Templates.{
  Piece, literal, expression, Patterns, Fault, missing, secret_error, bad_index, TemplateContext,
  split_dots, drop_text, item_at, or_none, item_by, child, walk_on, walk_path, output_at, output_of,
  resolve_step_output, resolve_secret, evaluate_expression, resolve_pieces, by_secret, by_env,
  by_step, resolve_string, resolve_inner, resolve, resolve_fields, resolve_items,
}

-- What a template needs: a secret, and a segment of a path, which may have to be an index.
pub data Need : Type 0 where
  secret segment : String → Need

abbrev pub path_needs : Option String → List Need
path_needs none = []
path_needs (some path) = if path == "" then [] else map segment (split_dots path)

abbrev secret_need : Option String → List Need
secret_need none = []
secret_need (some n) = secret n ∷ []

module _ (P : Patterns) where
  abbrev not_env : String → Option (String × Option String) → List Need
  not_env e (some m) = []
  not_env e none = secret_need (P.secret_at e)

  abbrev not_step : String → Option (String × Option String) → List Need
  not_step e (some (id, path)) = path_needs path
  not_step e none = not_env e (P.env_at e)

  abbrev pub needs_of_expression : String → List Need
  needs_of_expression expr =
      let e = P.strip expr in
      if begins "$form." e
      then map segment (split_dots (drop_text 6 e))
      else not_step e (P.step_at e)

  abbrev pub needs_of_pieces : List Piece → List Need
  needs_of_pieces [] = []
  needs_of_pieces (literal s ∷ ps) = needs_of_pieces ps
  needs_of_pieces (expression e ∷ ps) = needs_of_expression e ++ needs_of_pieces ps

  abbrev pub needs_of_text : String → Option String → List Need
  needs_of_text s (some e) = needs_of_expression e
  needs_of_text s none = needs_of_pieces (P.pieces s)

  -- The needs of a template, in their order.
  abbrev mutual
    pub needs_of : Value → List Need
    needs_of (str s) = needs_of_text s (P.single s)
    needs_of (obj d) = needs_of_fields d
    needs_of (arr xs) = needs_of_items xs
    needs_of null = []
    needs_of (bool b) = []
    needs_of (num n k) = []
    needs_of (time t) = []

    pub needs_of_fields : Fields → List Need
    needs_of_fields end = []
    needs_of_fields (field k v d) = needs_of v ++ needs_of_fields d

    pub needs_of_items : Items → List Need
    needs_of_items no_item = []
    needs_of_items (item v xs) = needs_of v ++ needs_of_items xs

  module _ (C : TemplateContext) where
    abbrev pub has_value : Result String (Option String) → Bool
    has_value (ok (some v)) = true
    has_value (ok none) = false
    has_value (err e) = false

    -- A secret that is needed is there.
    abbrev pub is_met : Need → Bool
    is_met (secret n) = has_value (C.secret_resolver n)
    is_met (segment seg) = true

    -- The error is one that the need gives.
    abbrev pub Gives : Need → Fault → Type 0
    Gives (secret n) f =
        ((f ≡ missing n) × (C.secret_resolver n ≡ ok none))
        ⊎ ((e : String) × (f ≡ secret_error n e) × (C.secret_resolver n ≡ err e))
    Gives (segment seg) f = (f ≡ bad_index seg) × (P.index_of seg ≡ some none)

    abbrev pub Blames : Fault → List Need → Type 0
    Blames f [] = ⊥
    Blames f (n ∷ ns) = Gives n f ⊎ Blames f ns

    -- There is a result, and all secrets are there, or one of the needs gives the error.
    abbrev pub Decides : {A : Type 0} → Result Fault A → List Need → Type 0
    Decides {A} r needs =
        ((a : A) × (r ≡ ok a) × (all is_met needs ≡ true))
        ⊎ ((f : Fault) × (r ≡ err f) × Blames f needs)

    all-append : (xs ys : List Need) → all is_met (xs ++ ys) ≡ (all is_met xs && all is_met ys)
    all-append [] ys = refl
    all-append (x ∷ xs) ys = ground (arith, all-append xs ys)

    Blames-append_left : (f : Fault) (xs ys : List Need) → Blames f xs → Blames f (xs ++ ys)
    Blames-append_left f [] ys h = elim h [ ]
    Blames-append_left f (x ∷ xs) ys (inl h) = inl h
    Blames-append_left f (x ∷ xs) ys (inr h) = inr (Blames-append_left f xs ys h)

    Blames-append_right : (f : Fault) (xs ys : List Need) → Blames f ys → Blames f (xs ++ ys)
    Blames-append_right f [] ys h = h
    Blames-append_right f (x ∷ xs) ys h = inr (Blames-append_right f xs ys h)

    -- One part behind another.
    both :
        {A B : Type 0} (r : Result Fault A) (f : A → Result Fault B) (xs ys : List Need)
        → Decides r xs
        → ((a : A) → Decides (f a) ys)
        → Decides (r >>= f) (xs ++ ys)
    both r f xs ys (inl (a, e, known)) next = then_by (next a)
      where
        then_by : Decides (f a) ys → Decides (r >>= f) (xs ++ ys)
        then_by (inl (b, e', known')) = inl (b, rw e e', all-append xs ys ∙ rw (known, known') refl)
        then_by (inr (n, e', blamed)) = inr (n, rw e e', Blames-append_right n xs ys blamed)
    both r f xs ys (inr (n, e, blamed)) next = inr (n, rw e refl, Blames-append_left n xs ys blamed)

    -- A result that is only put into another.
    mapped :
        {A B : Type 0} (r : Result Fault A) (f : A → B) (xs : List Need)
        → Decides r xs
        → Decides (r >>= λ a. ok (f a)) xs
    mapped r f xs (inl (a, e, known)) = inl (f a, rw e refl, known)
    mapped r f xs (inr (n, e, blamed)) = inr (n, rw e refl, blamed)

    all-segments : (segs : List String) → all is_met (map segment segs) ≡ true
    all-segments [] = refl
    all-segments (seg ∷ segs) = all-segments segs

    all-path_needs : (path : Option String) → all is_met (path_needs path) ≡ true
    all-path_needs none = refl
    all-path_needs (some path) =
        if-holds (λ (ns : List Need). all is_met ns ≡ true) (path == "") _ _ (λ e. refl)
          (λ e. all-segments (split_dots path))

    decides-item_by :
        (seg : String) (xs : Items) (o : Option (Option ℕ))
        → P.index_of seg ≡ o
        → Decides (item_by P seg xs o) (segment seg ∷ [])
    decides-item_by seg xs none e = inl (none, refl, refl)
    decides-item_by seg xs (some none) e = inr (bad_index seg, refl, inl (refl, e))
    decides-item_by seg xs (some (some n)) e = inl (item_at xs n, refl, refl)

    decides-child : (seg : String) (v : Value) → Decides (child P seg v) (segment seg ∷ [])
    decides-child seg (obj d) = inl (_, refl, refl)
    decides-child seg (arr xs) = decides-item_by seg xs (P.index_of seg) refl
    decides-child seg null = inl (none, refl, refl)
    decides-child seg (bool b) = inl (none, refl, refl)
    decides-child seg (str s) = inl (none, refl, refl)
    decides-child seg (num n k) = inl (none, refl, refl)
    decides-child seg (time t) = inl (none, refl, refl)

    decides-walk_path :
        (segs : List String) (v : Value) → Decides (walk_path P segs v) (map segment segs)
    unfolding walk_path
    decides-walk_path [] v = inl (some v, refl, refl)
    decides-walk_path (seg ∷ segs) v =
        both (child P seg v) (walk_on P (walk_path P segs)) (segment seg ∷ []) (map segment segs)
          (decides-child seg v) (on (λ w. decides-walk_path segs w))
      where
        on :
            ((w : Value) → Decides (walk_path P segs w) (map segment segs))
            → (o : Option Value) → Decides (walk_on P (walk_path P segs) o) (map segment segs)
        on walks none = inl (none, refl, all-segments segs)
        on walks (some w) = walks w

    decides-output_at :
        (path : Option String) (v : Value) → Decides (output_at P path v) (path_needs path)
    decides-output_at none v = inl (v, refl, refl)
    decides-output_at (some path) v = elim (Bool-cases (path == "")) [
      | inl e ↦ rw e (inl (v, refl, refl))
      | inr e ↦ rw e (
          mapped (walk_path P (split_dots path) v) or_none (map segment (split_dots path))
            (decides-walk_path (split_dots path) v))
    ]

    decides-output_of :
        (o : Option Value) (path : Option String) → Decides (output_of P o path) (path_needs path)
    decides-output_of none path = inl (null, refl, all-path_needs path)
    decides-output_of (some v) path = decides-output_at path v

    decides-step_output :
        (o : Option Value) (path : Option String)
        → Decides (resolve_step_output P o path) (path_needs path)
    decides-step_output (some (obj d)) path = decides-output_of (lookup "output" d) path
    decides-step_output none path = inl (null, refl, all-path_needs path)
    decides-step_output (some null) path = inl (null, refl, all-path_needs path)
    decides-step_output (some (bool b)) path = inl (null, refl, all-path_needs path)
    decides-step_output (some (str s)) path = inl (null, refl, all-path_needs path)
    decides-step_output (some (num n k)) path = inl (null, refl, all-path_needs path)
    decides-step_output (some (time t)) path = inl (null, refl, all-path_needs path)
    decides-step_output (some (arr xs)) path = inl (null, refl, all-path_needs path)

    decides-resolved :
        (n : String) (r : Result String (Option String))
        → C.secret_resolver n ≡ r
        → Decides (resolve_secret P n r) (secret n ∷ [])
    decides-resolved n (ok none) e = inr (missing n, refl, inl (inl (refl, e)))
    decides-resolved n (ok (some v)) e = inl (str v, refl, rw e refl)
    decides-resolved n (err t) e = inr (secret_error n t, refl, inl (inr (t, refl, e)))

    decides-secret : (m : Option String) → Decides (by_secret P C m) (secret_need m)
    decides-secret none = inl (none, refl, refl)
    decides-secret (some n) =
        mapped (resolve_secret P n (C.secret_resolver n)) some (secret n ∷ [])
          (decides-resolved n (C.secret_resolver n) refl)

    decides-env :
        (e : String) (m : Option (String × Option String)) → Decides (by_env P C e m) (not_env e m)
    decides-env e (some (n, d)) = inl (_, refl, refl)
    decides-env e none = decides-secret (P.secret_at e)

    decides-step :
        (e : String) (m : Option (String × Option String))
        → Decides (by_step P C e m) (not_step e m)
    decides-step e (some (id, path)) =
        mapped (resolve_step_output P (C.step_results id) path) some (path_needs path)
          (decides-step_output (C.step_results id) path)
    decides-step e none = decides-env e (P.env_at e)

    decides-expression : (e : String) → Decides (evaluate_expression P C e) (needs_of_expression e)
    unfolding evaluate_expression
    decides-expression e = elim (Bool-cases (begins "$form." (P.strip e))) [
      | inl form ↦ rw form (
          mapped (walk_path P (split_dots (drop_text 6 (P.strip e))) (obj C.form_data)) _
            (map segment (split_dots (drop_text 6 (P.strip e))))
            (decides-walk_path (split_dots (drop_text 6 (P.strip e))) (obj C.form_data)))
      | inr other ↦ rw other (decides-step (P.strip e) (P.step_at (P.strip e)))
    ]

    decides-pieces : (ps : List Piece) → Decides (resolve_pieces P C ps) (needs_of_pieces ps)
    unfolding resolve_pieces
    decides-pieces [] = inl ("", refl, refl)
    decides-pieces (literal s ∷ ps) =
        mapped (resolve_pieces P C ps) _ (needs_of_pieces ps) (decides-pieces ps)
    decides-pieces (expression e ∷ ps) =
        both (evaluate_expression P C e) _ (needs_of_expression e) (needs_of_pieces ps)
          (decides-expression e)
          (λ v. mapped (resolve_pieces P C ps) _ (needs_of_pieces ps) (decides-pieces ps))

    decides-text :
        (s : String) (m : Option String) → Decides (resolve_string P C s m) (needs_of_text s m)
    decides-text s (some e) =
        mapped (evaluate_expression P C e) _ (needs_of_expression e) (decides-expression e)
    decides-text s none =
        mapped (resolve_pieces P C (P.pieces s)) _ (needs_of_pieces (P.pieces s))
          (decides-pieces (P.pieces s))

    decides-inner :
        (s : String) (m : Option String) → Decides (resolve_inner P C s m) (needs_of_text s m)
    decides-inner s (some e) =
        mapped (resolve_string P C s (some e)) _ (needs_of_text s (some e))
          (decides-text s (some e))
    decides-inner s none = decides-text s none

    mutual
      unfolding resolve

      decides-value : (v : Value) → Decides (resolve P C v) (needs_of v)
      decides-value null = inl (null, refl, refl)
      decides-value (bool b) = inl (bool b, refl, refl)
      decides-value (num n k) = inl (num n k, refl, refl)
      decides-value (time t) = inl (time t, refl, refl)
      decides-value (str s) = decides-text s (P.single s)
      decides-value (obj d) = mapped (resolve_fields P C d) _ (needs_of_fields d) (decides-fields d)
      decides-value (arr xs) =
          mapped (resolve_items P C xs) _ (needs_of_items xs) (decides-items xs)

      decides-fields : (d : Fields) → Decides (resolve_fields P C d) (needs_of_fields d)
      decides-fields end = inl (end, refl, refl)
      decides-fields (field k (str s) d) =
          both (resolve_inner P C s (P.single s)) _ (needs_of (str s)) (needs_of_fields d)
            (decides-inner s (P.single s))
            (λ w. mapped (resolve_fields P C d) (field k w) (needs_of_fields d) (decides-fields d))
      decides-fields (field k v d) =
          both (resolve P C v) _ (needs_of v) (needs_of_fields d) (decides-value v)
            (λ w. mapped (resolve_fields P C d) (field k w) (needs_of_fields d) (decides-fields d))

      decides-items : (xs : Items) → Decides (resolve_items P C xs) (needs_of_items xs)
      decides-items no_item = inl (no_item, refl, refl)
      decides-items (item (str s) xs) =
          both (resolve_inner P C s (P.single s)) _ (needs_of (str s)) (needs_of_items xs)
            (decides-inner s (P.single s))
            (λ w. mapped (resolve_items P C xs) (item w) (needs_of_items xs) (decides-items xs))
      decides-items (item v xs) =
          both (resolve P C v) _ (needs_of v) (needs_of_items xs) (decides-value v)
            (λ w. mapped (resolve_items P C xs) (item w) (needs_of_items xs) (decides-items xs))

-- A template of any shape is resolved, and then all secrets that it names are there, or resolving it
-- fails, and then with an error that something in it gives: a secret that is not there, a secret at
-- which the resolver raises, or a segment of a path that counts as a number and cannot be read as one.
pub resolve_decides :
    (P : Patterns) (C : TemplateContext) (v : Value)
    → ((w : Value) × (resolve P C v ≡ ok w) × (all (is_met P C) (needs_of P v) ≡ true))
      ⊎ ((f : Fault) × (resolve P C v ≡ err f) × Blames P C f (needs_of P v))
resolve_decides P C v = decides-value P C v
