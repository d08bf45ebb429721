-- ===== src/Engine/Guards.antt =====
-- `_evaluate_guard` of backend/saz/engine/executor.py: the optional `when` of a step, from its tokens
-- on, with the rendering of the condition for the log.
mod Tests
use saz.Prelude.{
  ℕ, String, ◌≡◌, refl, ◌∙◌, sym, ap, ◌↔◌, ◌≤◌, ◌<◌, Bool, true, false, Option, none, some, List,
  [], ◌∷◌, Result, ok, err, length, arith, ◌>>=◌, >>=-eq-ok, ok-inj,
}
use saz.Prelude.Json.{Value, concat}
use saz.Engine.Templates.{Piece, literal, expression}
use saz.Prelude.Floats.{Floats}
use saz.Engine.{Failure, structural, other}
use saz.Engine.Expressions.{
  Token, Error, overflow, unresolved, Library, coerce_bool, parse, as_bool, evaluate_condition,
  stringify,
}
use saz.Engine.Expressions.Grammar.{Disjunction, print_disjunction, value_disjunction}
use saz.Engine.Expressions.Accepts.{print_disjunction-grows}
use saz.Engine.Expressions.Accepts.Exactly.{parse_exactly}

-- A `ConditionError` becomes a structural error; other errors are passed on.
abbrev pub guard_failure : Error → Failure
guard_failure overflow = other "OverflowError"
guard_failure (unresolved e) = other e
guard_failure _ = structural "WorkflowStructuralError"

abbrev pub guard_result {ℓ} : {A : Type ℓ} → Result Error A → Result Failure A
guard_result (ok b) = ok b
guard_result (err e) = err (guard_failure e)

-- The `when` of a step: its tokens, and its text between the references that _REF_RE finds in it, those
-- within quoted texts included.
pub record Condition : Type 0 where
  pub tokens : List Token
  pub pieces : List Piece

module _ {F : Floats} (lib : Library F) (resolve_ref : String → Result String Value) where
  -- `resolve_ref` may raise any error.
  abbrev pub reference : Result String Value → Result Error Value
  reference (ok v) = ok v
  reference (err e) = err (unresolved e)

  unfoldable pub render_condition : List Piece → Result Error String
  render_condition [] = ok ""
  render_condition (literal s ∷ ps) = render_condition ps >>= λ t. ok (concat (s ∷ t ∷ []))
  render_condition (expression r ∷ ps) = reference (resolve_ref r) >>= λ v.
      render_condition ps >>= λ t. ok (concat (stringify lib v ∷ t ∷ []))

  -- The condition is rendered behind its evaluation, whatever its value.
  unfoldable pub evaluate_guard : Option Condition → Result Failure (Bool × String)
  unfolding evaluate_condition render_condition
  evaluate_guard none = ok (true, "")
  evaluate_guard (some c) = guard_result (
      evaluate_condition lib resolve_ref c.tokens >>= λ b.
      render_condition c.pieces >>= λ text. ok (b, text))

  -- The condition is a tree of the grammar, and its value counts as true.
  abbrev pub Holds : List Token → Type 0
  Holds ts =
      (d : Disjunction) × (v : Value) × (print_disjunction d [] ≡ ts)
      × (value_disjunction lib resolve_ref d ≡ ok v)
      × (coerce_bool lib v ≡ true)

  -- Every reference in the text has a value.
  abbrev pub AllResolve : List Piece → Type 0
  AllResolve [] = Unit {0}
  AllResolve (literal s ∷ ps) = AllResolve ps
  AllResolve (expression r ∷ ps) = ((v : Value) × (resolve_ref r ≡ ok v)) × AllResolve ps

  as_bool-true :
      (r : Result Error Value)
      → as_bool lib resolve_ref r ≡ ok true
      → (v : Value) × (r ≡ ok v) × (coerce_bool lib v ≡ true)
  as_bool-true (ok v) h = (v, refl, ground (arith, h))
  as_bool-true (err e) h = ground (arith, h)

  no_empty : (d : Disjunction) → print_disjunction d [] ≡ [] → ⊥
  no_empty d e = omega (arith, print_disjunction-grows d [], ap length e)

  evaluate_condition-Holds :
      (ts : List Token) → (evaluate_condition lib resolve_ref ts ≡ ok true) ↔ Holds ts
  unfolding evaluate_condition
  evaluate_condition-Holds [] = (λ h. ground (arith, h), λ t. elim (no_empty t.0 t.2) [ ])
  evaluate_condition-Holds (t ∷ ts) = (
    λ h.
        let (v, e, b) = as_bool-true (parse lib resolve_ref (t ∷ ts)) h in
        let (d, p, x) = (parse_exactly lib resolve_ref (t ∷ ts) v).0 e in (d, v, p, x, b),
    λ (d, v, p, x, b).
        ap (as_bool lib resolve_ref) ((parse_exactly lib resolve_ref (t ∷ ts) v).1 (d, p, x))
        ∙ ap ok b,
  )

  reference-ok : (r : Result String Value) (v : Value) → reference r ≡ ok v → r ≡ ok v
  reference-ok (ok w) v h = ap ok (ok-inj w v h)
  reference-ok (err e) v h = cc

  render_condition-AllResolve :
      (ps : List Piece) (t : String) → render_condition ps ≡ ok t → AllResolve ps
  unfolding render_condition
  render_condition-AllResolve [] t h = tt
  render_condition-AllResolve (literal s ∷ ps) t h =
      let (u, e, _) = >>=-eq-ok (render_condition ps) _ t h in render_condition-AllResolve ps u e
  render_condition-AllResolve (expression r ∷ ps) t h =
      let (v, e, h1) = >>=-eq-ok (reference (resolve_ref r)) _ t h in
      let (u, e1, _) = >>=-eq-ok (render_condition ps) _ t h1 in
      ((v, reference-ok (resolve_ref r) v e), render_condition-AllResolve ps u e1)

  AllResolve-render_condition :
      (ps : List Piece) → AllResolve ps → (t : String) × (render_condition ps ≡ ok t)
  unfolding render_condition
  AllResolve-render_condition [] a = ("", refl)
  AllResolve-render_condition (literal s ∷ ps) a =
      let (u, e) = AllResolve-render_condition ps a in (concat (s ∷ u ∷ []), rw e refl)
  AllResolve-render_condition (expression r ∷ ps) a =
      let (u, e) = AllResolve-render_condition ps a.1 in
      (concat (stringify lib a.0.0 ∷ u ∷ []), rw (a.0.1, e) refl)

  guard_result-ok : {A : Type 0} (r : Result Error A) (a : A) → guard_result r ≡ ok a → r ≡ ok a
  guard_result-ok (ok b) a h = ap ok (ok-inj b a h)
  guard_result-ok (err e) a h = cc

  -- A step with a guard is run exactly if its guard is a condition of the grammar that has a value,
  -- this counts as true, and every reference in the guard's text, for the log, has a value too: with
  -- a guard that is malformed, or whose evaluation or rendering raises, it is not.
  pub guard_runs_iff :
      (c : Condition)
      → ((text : String) × (evaluate_guard (some c) ≡ ok (true, text)))
        ↔ (Holds c.tokens × AllResolve c.pieces)
  unfolding evaluate_guard
  guard_runs_iff c = (
    λ (text, h).
        let (b, e, h1) =
          >>=-eq-ok (evaluate_condition lib resolve_ref c.tokens) _ (true, text)
            (guard_result-ok _ (true, text) h) in
        let (t, e1, h2) = >>=-eq-ok (render_condition c.pieces) _ (true, text) h1 in
        let same = ap (λ (x : Bool × String). x.0) (ok-inj {E = Error} (b, t) (true, text) h2) in
        (
          (evaluate_condition-Holds c.tokens).0 (e ∙ ap ok same),
          render_condition-AllResolve c.pieces t e1,
        ),
    λ (holds, known).
        let (text, e) = AllResolve-render_condition c.pieces known in
        (text, rw ((evaluate_condition-Holds c.tokens).1 holds, e) refl),
  )
