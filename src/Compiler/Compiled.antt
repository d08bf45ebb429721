-- ===== src/Compiler/Compiled.antt =====
-- What `_validate_and_normalize_steps` of backend/saz/compiler/dsl.py makes of the steps of a workflow.
use mathlib.Core.Path.{subst}
use saz.Prelude.{
  String, ◌≡◌, refl, sym, ap, ◌∙◌, true, false, Option, none, some, List, [], ◌∷◌, contains, Result,
  ok, err, >>=-eq-ok, ok-inj, guard-ok, ◌==◌, string_eq, arith,
}
use saz.Prelude.Json.{
  Value, null, bool, num, time, str, obj, arr, Fields, end, Items, no_item, item, lookup, assign,
  lookup-assign, assign-same,
}
use saz.Compiler.{Refused, unknown_type, Library, set_default}
use saz.Compiler.Steps.{
  allowed_step_types, step_id, step_type, check_step, with_containers, normalize_step, then_rest,
  normalize_from, validate_and_normalize_steps,
}
use saz.Compiler.Credentials.{UsesDeclared, check_step-UsesDeclared}
use saz.Compiler.Checks.{or_empty, lookup-with_containers, check_step-containers}

-- A step as the compiler leaves it: a text that is not empty as its id, a type that the executor
-- knows, both containers, credentials that are declared, if any, and all checks of the type passed.
pub record IsStep (lib : Library) (known : List String) (id : String) (step : Fields) : Type 0 where
  pub kind : String
  pub params : Value
  pub retry_policy : Value
  pub id_there : lookup "id" step ≡ some (str id)
  pub id_full : (id == "") ≡ false
  pub kind_there : lookup "type" step ≡ some (str kind)
  pub kind_allowed : contains kind allowed_step_types ≡ true
  pub params_there : lookup "params" step ≡ some params
  pub retry_there : lookup "retry" step ≡ some retry_policy
  pub declared : UsesDeclared known (lookup "uses_credentials" step)
  pub passed : check_step lib known kind step ≡ ok tt

-- The steps after those with the ids `seen`: none has an id that was there before.
pub data IsCompiled (lib : Library) (known : List String) : List String → List Fields → Type 0 where
  done : {seen : List String} → IsCompiled lib known seen []
  one_more :
      {seen : List String} {id : String} {step : Fields} {rest : List Fields}
      → IsStep lib known id step
      → contains id seen ≡ false
      → IsCompiled lib known (id ∷ seen) rest
      → IsCompiled lib known seen (step ∷ rest)

abbrev pub to_items : List Fields → Items
to_items [] = no_item
to_items (s ∷ ss) = item (obj s) (to_items ss)

step_id-ok :
    (seen : List String) (v : Option Value) (id : String)
    → step_id seen v ≡ ok id
    → (v ≡ some (str id)) × ((id == "") ≡ false) × (contains id seen ≡ false)
step_id-ok seen none id h = ground (arith, h)
step_id-ok seen (some (str s)) id h = ground (arith, h)
step_id-ok seen (some null) id h = ground (arith, h)
step_id-ok seen (some (bool b)) id h = ground (arith, h)
step_id-ok seen (some (num n k)) id h = ground (arith, h)
step_id-ok seen (some (time n)) id h = ground (arith, h)
step_id-ok seen (some (obj n)) id h = ground (arith, h)
step_id-ok seen (some (arr n)) id h = ground (arith, h)

step_type-ok :
    (v : Option Value) (t : String) → step_type v ≡ ok t → contains t allowed_step_types ≡ true
step_type-ok none t h =
    subst (λ (x : String). contains x allowed_step_types ≡ true)
      (ok-inj {E = Refused} "tool.call" t h) refl
step_type-ok (some (str s)) t h =
    let (allowed, e) = guard-ok (contains s allowed_step_types) (unknown_type s) (ok s) t h in
    subst (λ (x : String). contains x allowed_step_types ≡ true) (ok-inj s t e) allowed
step_type-ok (some null) t h = cc
step_type-ok (some (bool b)) t h = cc
step_type-ok (some (num n k)) t h = cc
step_type-ok (some (time n)) t h = cc
step_type-ok (some (obj d)) t h = cc
step_type-ok (some (arr xs)) t h = cc

or_object : Option Value → Value
or_object none = obj end
or_object (some v) = v

or_empty-some : (v : Option Value) → or_empty v ≡ some (or_object v)
unfolding or_object
or_empty-some none = refl
or_empty-some (some v) = refl

-- Of a step that is kept, what is kept.
normalize_step-IsStep :
    (lib : Library) (known seen : List String) (step : Fields) (id : String) (kept : Fields)
    → normalize_step lib known seen step ≡ ok (id, kept)
    → IsStep lib known id kept × (contains id seen ≡ false)
unfolding normalize_step
normalize_step-IsStep lib known seen step id kept h =
    let (id', e, h1) = >>=-eq-ok (step_id seen (lookup "id" step)) _ (id, kept) h in
    let (t, e', h2) = >>=-eq-ok (step_type (lookup "type" step)) _ (id, kept) h1 in
    let (u, passed, h3) =
      >>=-eq-ok (check_step lib known t (assign "type" (str t) step)) _ (id, kept) h2 in
    let (there, full, new) = step_id-ok seen (lookup "id" step) id' e in
    let typed = assign "type" (str t) step in
    let at = λ (j : String). lookup-with_containers j typed in
    let s : IsStep lib known id' (with_containers typed) = record {
      kind = t;
      params = or_object (lookup "params" typed);
      retry_policy = or_object (lookup "retry" typed);
      id_there = at "id" ∙ lookup-assign "type" "id" (str t) step ∙ there;
      id_full = full;
      kind_there = at "type" ∙ lookup-assign "type" "type" (str t) step;
      kind_allowed = step_type-ok (lookup "type" step) t e';
      params_there = at "params" ∙ or_empty-some (lookup "params" typed);
      retry_there = at "retry" ∙ or_empty-some (lookup "retry" typed);
      declared =
          check_step-UsesDeclared lib known t (with_containers typed)
            (check_step-containers lib known t typed passed);
      passed = check_step-containers lib known t typed passed;
    } in
    subst (λ (p : String × Fields). IsStep lib known p.0 p.1 × (contains p.0 seen ≡ false))
      (ok-inj {E = Refused} _ _ h3) (s, new)

set_default-there :
    (k : String) (w v : Value) (d : Fields) → lookup k d ≡ some v → set_default k w d ≡ d
set_default-there k w v d h = rw (h, set_default) refl

with_containers-there :
    (s : Fields) (p r : Value)
    → lookup "params" s ≡ some p
    → lookup "retry" s ≡ some r
    → with_containers s ≡ s
with_containers-there s p r hp hr =
    ap (set_default "retry" (obj end)) (set_default-there "params" (obj end) p s hp)
    ∙ set_default-there "retry" (obj end) r s hr

-- A step that is compiled is kept as it is.
normalize_step-again :
    (lib : Library) (known seen : List String) {id : String} {step : Fields}
    → IsStep lib known id step
    → contains id seen ≡ false
    → normalize_step lib known seen step ≡ ok (id, step)
unfolding normalize_step
normalize_step-again lib known seen {id} {step} s new =
    let typed = assign-same "type" (str s.kind) step s.kind_there in
    let kept = with_containers-there step s.params s.retry_policy s.params_there s.retry_there in
    rw (s.id_there, s.id_full, new, s.kind_there, s.kind_allowed, typed, s.passed)
      (ap (λ (x : Fields). let r : Result Refused (String × Fields) = ok (id, x) in r) kept)

pub then_rest-ok :
    (r : Result Refused (String × Fields)) (f : String → Result Refused (List Fields))
    (steps : List Fields)
    → then_rest r f ≡ ok steps
    → (id : String) × (kept : Fields) × (rest : List Fields) × (r ≡ ok (id, kept))
      × (f id ≡ ok rest)
      × (steps ≡ kept ∷ rest)
then_rest-ok (ok (id, kept)) f steps h =
    let (rest, e, e') = >>=-eq-ok (f id) _ steps h in
    (id, kept, rest, refl, e, sym (ok-inj {E = Refused} (kept ∷ rest) steps e'))
then_rest-ok (err e) f steps h = cc

pub normalize_from-IsCompiled :
    (lib : Library) (known seen : List String) (items : Items) (steps : List Fields)
    → normalize_from lib known seen items ≡ ok steps
    → IsCompiled lib known seen steps
unfolding normalize_from
normalize_from-IsCompiled lib known seen no_item steps h =
    subst (IsCompiled lib known seen) (ok-inj {E = Refused} [] steps h) done
normalize_from-IsCompiled lib known seen (item (obj step) items) steps h =
    let (id, kept, rest, e, e', e'') =
      then_rest-ok (normalize_step lib known seen step) _ steps h in
    let (s, new) = normalize_step-IsStep lib known seen step id kept e in
    subst (IsCompiled lib known seen) (sym e'')
      (one_more s new (normalize_from-IsCompiled lib known (id ∷ seen) items rest e'))
normalize_from-IsCompiled lib known seen (item null items) steps h = cc
normalize_from-IsCompiled lib known seen (item (bool b) items) steps h = cc
normalize_from-IsCompiled lib known seen (item (str s) items) steps h = cc
normalize_from-IsCompiled lib known seen (item (num n k) items) steps h = cc
normalize_from-IsCompiled lib known seen (item (time n) items) steps h = cc
normalize_from-IsCompiled lib known seen (item (arr xs) items) steps h = cc

pub normalize_from-again :
    (lib : Library) (known : List String) {seen : List String} {steps : List Fields}
    → IsCompiled lib known seen steps
    → normalize_from lib known seen (to_items steps) ≡ ok steps
unfolding normalize_from
normalize_from-again lib known done = refl
normalize_from-again lib known (one_more s new rest) =
    rw (normalize_step-again lib known _ s new, normalize_from-again lib known rest) refl

-- Whatever steps the compiler accepts, as it leaves them they all have a type that the executor
-- knows, a text as their id, parameters and a retry policy, no two have the same id, and each passes
-- the checks of its type; `uses_credentials` of each is missing, null, or a list of texts that are
-- all names of declared credentials.
pub compiled_lem :
    (lib : Library) (known : List String) (items : Items) (steps : List Fields)
    → validate_and_normalize_steps lib known items ≡ ok steps
    → IsCompiled lib known [] steps
unfolding validate_and_normalize_steps
compiled_lem lib known items steps h = normalize_from-IsCompiled lib known [] items steps h

-- Steps that the compiler has accepted are accepted again as it left them, and are not changed.
pub compile_again :
    (lib : Library) (known : List String) (items : Items) (steps : List Fields)
    → validate_and_normalize_steps lib known items ≡ ok steps
    → validate_and_normalize_steps lib known (to_items steps) ≡ ok steps
unfolding validate_and_normalize_steps
compile_again lib known items steps h =
    normalize_from-again lib known (normalize_from-IsCompiled lib known [] items steps h)
