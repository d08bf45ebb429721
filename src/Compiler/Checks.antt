-- ===== src/Compiler/Checks.antt =====
-- A step of backend/saz/compiler/dsl.py passes its checks again once its containers are there.
use saz.Prelude.{
  String, ◌≡◌, ◌≢◌, refl, sym, ap, ◌∙◌, inl, inr, Bool, true, false, Option, none, some, List, ok,
  err, ◌>>◌, Option-cases, ◌==◌, string_eq, if◌then◌else◌, arith, eq_iff,
}
use saz.Prelude.Json.{Value, obj, Fields, end, lookup, lookup-assign, truthy_at}
use saz.Compiler.{Library, present, is_object, set_default}
use saz.Compiler.Steps.{
  Check, check_by_type, check_when, check_credentials, check_retry, check_step, with_containers,
  validate_retry, is_ai, is_artifact, check_artifact, check_webhook, check_tool_step, check_ai,
  require_keys, require_text,
}

pub >>-ok : (a b : Check) → (a >> b) ≡ ok tt → (a ≡ ok tt) × (b ≡ ok tt)
>>-ok (ok tt) b h = (refl, h)
>>-ok (err e) b h = cc

if-passes :
    (b : Bool) {x x' y y' : Check}
    → (x ≡ ok tt → x' ≡ ok tt)
    → (y ≡ ok tt → y' ≡ ok tt)
    → (if b then x else y) ≡ ok tt
    → (if b then x' else y') ≡ ok tt
if-passes true f g h = f h
if-passes false f g h = g h

-- A container that is there stays, another is empty.
pub lookup-set_default :
    (k j : String) (v : Value) (d : Fields)
    → lookup j (set_default k v d)
      ≡ (if k == j then (elim (lookup k d) [ none ↦ some v | some w ↦ some w ]) else lookup j d)
lookup-set_default k j v d = elim (Option-cases (lookup k d)) [
  | inl e ↦ ground (arith, e, lookup-assign k j v d)
  | inr e ↦ ground (arith, e.1, eq_iff k j)
]

-- The types look at a few keys only.
abbrev ReadText : Fields → Fields → Type 0
ReadText r s =
    (lookup "description" r ≡ lookup "description" s)
    × (lookup "instruction" r ≡ lookup "instruction" s)
    × (lookup "expect" r ≡ lookup "expect" s)
    × (lookup "if" r ≡ lookup "if" s)

abbrev ReadAlike : Fields → Fields → Type 0
ReadAlike r s =
    (lookup "tool" r ≡ lookup "tool" s) × (lookup "params" r ≡ lookup "params" s) × ReadText r s

check_tool_step-same :
    (lib : Library) (s r : Fields) → ReadAlike r s → check_tool_step lib r ≡ check_tool_step lib s
check_tool_step-same lib s r (a, f, (b, c, d, e)) =
    rw (a, f, b, check_tool_step, require_text, require_keys, truthy_at, present, is_object) refl

check_ai-same : (t : String) (s r : Fields) → ReadText r s → check_ai t r ≡ check_ai t s
check_ai-same t s r (b, c, d, e) = ground arith

check_webhook-same :
    (s r : Fields)
    → ReadAlike r s
    → check_webhook r (lookup "params" r) ≡ check_webhook s (lookup "params" s)
check_webhook-same s r (a, f, (b, c, d, e)) = ground arith

check_by_type-same :
    (lib : Library) (t : String) (s r : Fields)
    → ReadAlike r s
    → check_by_type lib t r ≡ check_by_type lib t s
unfolding check_by_type
check_by_type-same lib t s r h =
    ground
      (arith, check_tool_step-same lib s r h, check_ai-same t s r h.2, check_webhook-same s r h)

abbrev pub or_empty : Option Value → Option Value
or_empty none = some (obj end)
or_empty (some v) = some v

-- The keys of a step with its containers.
pub lookup-with_containers :
    (j : String) (s : Fields)
    → lookup j (with_containers s) ≡ (
        if "retry" == j
        then or_empty (lookup "retry" s)
        else if "params" == j
        then or_empty (lookup "params" s)
        else lookup j s)
lookup-with_containers j s = ground (
  arith,
  lookup-set_default "retry" j (obj end) (set_default "params" (obj end) s),
  lookup-set_default "params" j (obj end) s,
  lookup-set_default "params" "retry" (obj end) s,
)

check_tool_step-bare :
    (lib : Library) (s : Fields) → lookup "params" s ≡ none → check_tool_step lib s ≢ ok tt
check_tool_step-bare lib s e h = ground (arith, e, h)

check_artifact-bare : (s : Fields) → lookup "params" s ≡ none → check_artifact s ≢ ok tt
check_artifact-bare s e h = ground (arith, e, h)

-- Without parameters only the types pass that do not look at them.
check_by_type-bare :
    (lib : Library) (t : String) (s r : Fields)
    → lookup "params" s ≡ none
    → ReadText r s
    → check_by_type lib t s ≡ ok tt
    → check_by_type lib t r ≡ ok tt
unfolding check_by_type
check_by_type-bare lib t s r e h passed =
    if-passes (t == "tool.call") (λ h'. absurd (check_tool_step-bare lib s e h'))
      (if-passes (is_ai t) (λ h'. check_ai-same t s r h ∙ h')
        (if-passes (t == "condition") (ground arith) (
          if-passes (t == "human.approval") (ground arith) (
            if-passes (t == "webhook.wait") (ground arith)
              (if-passes (is_artifact t) (λ h'. absurd (check_artifact-bare s e h')) (λ h'. h'))))))
      passed

check_by_type-containers :
    (lib : Library) (t : String) (s : Fields)
    → check_by_type lib t s ≡ ok tt
    → check_by_type lib t (with_containers s) ≡ ok tt
check_by_type-containers lib t s h =
    let at = λ (j : String). lookup-with_containers j s in
    elim (Option-cases (lookup "params" s)) [
      | inl e ↦
          check_by_type-bare lib t s (with_containers s) e
            (at "description", at "instruction", at "expect", at "if") h
      | inr e ↦
          check_by_type-same lib t s (with_containers s) (
            at "tool",
            at "params" ∙ ap or_empty e.1 ∙ sym e.1,
            (at "description", at "instruction", at "expect", at "if"),
          )
          ∙ h
    ]

check_retry-containers :
    (lib : Library) (v : Option Value)
    → check_retry lib v ≡ ok tt
    → check_retry lib (or_empty v) ≡ ok tt
unfolding validate_retry
check_retry-containers lib none h = refl
check_retry-containers lib (some v) h = h

pub check_step-containers :
    (lib : Library) (known : List String) (t : String) (s : Fields)
    → check_step lib known t s ≡ ok tt
    → check_step lib known t (with_containers s) ≡ ok tt
unfolding check_step
check_step-containers lib known t s h =
    let at = λ (j : String). lookup-with_containers j s in
    let (w, h1) = >>-ok (check_when (lookup "when" s)) _ h in
    let (b, h2) = >>-ok (check_by_type lib t s) _ h1 in
    let (c, r) =
      >>-ok (check_credentials known (lookup "uses_credentials" s))
        (check_retry lib (lookup "retry" s)) h2 in
    rw (at "when", w, check_by_type-containers lib t s b, at "uses_credentials", c, at "retry")
      (check_retry-containers lib (lookup "retry" s) r)
