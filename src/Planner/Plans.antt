-- ===== src/Planner/Plans.antt =====
-- `DeterministicPlanner.plan` of backend/saz/agents/deterministic_planner.py on the steps of a
-- workflow that the compiler accepted.
use saz.Prelude.{
  String, Bool, false, not, ◌≡◌, refl, sym, ap, ◌∙◌, some, List, [], ◌∷◌, contains, keep, All,
  length, ok, string_eq, arith, ◌*◌, if-holds,
}
use saz.Prelude.Json.{str, Fields, Items, lookup}
use saz.Compiler.{Library}
use saz.Compiler.Checks.{>>-ok}
use saz.Compiler.Steps.{
  check_step, check_by_type, check_retry, check_when, check_credentials,
  validate_and_normalize_steps,
}
use saz.Compiler.Compiled.{IsStep, IsCompiled, done, one_more, compiled_lem}
use saz.Planner.{
  Pydantic, Planned, ExecutionPlan, convert_step, is_completed, remaining, convert_all, plan,
}
use saz.Planner.Converts.{IsTyped, IsPlanned, convert_typed_lem, allowed-is_known_step_type}

-- The steps of a plan, each with the step of the workflow that it comes from; none has an id in
-- `seen`, or of another.
pub data ArePlanned : List String → List Fields → List Planned → Type 0 where
  none_left : {seen : List String} → ArePlanned seen [] []
  planned :
      {seen : List String} {s : Fields} {p : Planned} {ss : List Fields} {ps : List Planned}
      → IsPlanned s p
      → contains p.step.step_id seen ≡ false
      → ArePlanned (p.step.step_id ∷ seen) ss ps
      → ArePlanned seen (s ∷ ss) (p ∷ ps)

module _ (library : Library) (known : List String) where
  check_step-check_retry :
      (t : String) (s : Fields)
      → check_step library known t s ≡ ok tt
      → check_retry library (lookup "retry" s) ≡ ok tt
  unfolding check_step
  check_step-check_retry t s h =
      let (w, h1) = >>-ok (check_when (lookup "when" s)) _ h in
      let (b, h2) = >>-ok (check_by_type library t s) _ h1 in
      (>>-ok (check_credentials known (lookup "uses_credentials" s))
        (check_retry library (lookup "retry" s)) h2).1

  convert_step_lem :
      (lib : Pydantic) {id : String} {s : Fields}
      → IsStep library known id s
      → IsTyped s
      → (p : Planned) × (convert_step lib s ≡ ok p) × IsPlanned s p × (p.step.step_id ≡ id)
  unfolding convert_step
  convert_step_lem lib {id} {s} step typed =
      let (p, e, same_id, same_kind, attempted) =
        convert_typed_lem lib library s id step.kind typed step.kind_there
          (allowed-is_known_step_type step.kind step.kind_allowed)
          (check_step-check_retry step.kind s step.passed) in
      (
        p,
        rw (step.id_there, step.kind_there) e,
        record {
          id_there = step.id_there ∙ ap (λ (x : String). some (str x)) (sym same_id);
          kind_there = step.kind_there ∙ ap (λ (x : String). some (str x)) (sym same_kind);
          attempted = attempted;
        },
        same_id,
      )

  -- Fewer ids may be seen before.
  keep-IsCompiled :
      (p : Fields → Bool) (a : List String) {b : List String} {steps : List Fields}
      → ((x : String) → contains x b ≡ false → contains x a ≡ false)
      → IsCompiled library known b steps
      → IsCompiled library known a (keep p steps)
  keep-IsCompiled p a fewer done = done
  keep-IsCompiled p a {b} fewer (one_more {id} {step} {rest} s new more) =
      if-holds (λ (ss : List Fields). IsCompiled library known a ss) (p step) _ _
        (λ _.
          one_more s (fewer id new)
            (keep-IsCompiled p (id ∷ a) (λ x h. ground (arith, h, fewer x)) more))
        (λ _. keep-IsCompiled p a (λ x h. fewer x (ground (arith, h))) more)

  keep-All :
      (p : Fields → Bool) (steps : List Fields) → All IsTyped steps → All IsTyped (keep p steps)
  keep-All p [] h = tt
  keep-All p (s ∷ steps) (t, h) =
      if-holds (λ (ss : List Fields). All IsTyped ss) (p s) _ _ (λ _. (t, keep-All p steps h))
        (λ _. keep-All p steps h)

  convert_all_lem :
      (lib : Pydantic) {seen : List String} {steps : List Fields}
      → IsCompiled library known seen steps
      → All IsTyped steps
      → (ps : List Planned) × (convert_all lib steps ≡ ok ps) × ArePlanned seen steps ps
  unfolding convert_all
  convert_all_lem lib done h = ([], refl, none_left)
  convert_all_lem lib {seen} (one_more {id} {step} {rest} s new more) (t, h) =
      let (p, e, isp, same) = convert_step_lem lib s t in
      let (ps, e', more') = convert_all_lem lib more h in
      (p ∷ ps, rw (e, e') refl, planned isp (rw same new) (rw same more'))

-- Planning a workflow that the compiler accepted raises nothing, provided that the values which the
-- compiler does not look at have the types of the model. The plan has the steps that are not
-- completed, in order and each with its own id and type, no two with the same id, and each has at
-- least one attempt.
pub plan_total :
    (library : Library) (lib : Pydantic) (known : List String) (items : Items) (steps : List Fields)
    (completed : List String)
    → validate_and_normalize_steps library known items ≡ ok steps
    → All IsTyped steps
    → (e : ExecutionPlan) × (plan lib completed steps ≡ ok e)
      × ArePlanned [] (remaining completed steps) e.steps
unfolding plan
plan_total library lib known items steps completed h typed =
    let test = λ (s : Fields). not (is_completed completed (lookup "id" s)) in
    let compiled =
      keep-IsCompiled library known test [] (λ x e. e) (compiled_lem library known items steps h) in
    let (ps, e, all_planned) =
      convert_all_lem library known lib compiled (keep-All library known test steps typed) in
    (record { steps = ps; estimated_time_seconds = length ps * 5 }, rw e refl, all_planned)
