-- ===== src/Compiler/Dsl.antt =====
-- `compile_dsl` of backend/saz/compiler/dsl.py: the parts of the compiler in their order. The model of
-- the form, which pydantic makes, is a parameter; the warnings are left out.
pub mod Accepted
mod Tests
use saz.Prelude.{
  String, Bool, true, false, not, Option, none, some, List, [], ◌∷◌, any, Result, ok, err, ◌>>=◌,
  ◌>>◌, guard,
}
use saz.Prelude.Json.{
  Value, null, str, obj, arr, Fields, end, field, Items, no_item, item, lookup, truthy,
}
use saz.Compiler.{Refused, Library}
use saz.Compiler.Parse.{Files, ParseError, parse_yaml}
use saz.Compiler.Steps.{validate_and_normalize_steps}
use saz.Compiler.Policies.{Unusable, or_else, compile_policies, compile_credentials}
use saz.Compiler.Templates.{Patterns, Names, is_error, validate_object}
use saz.Compiler.Compiled.{to_items}

-- What the compiler takes from other libraries. `form_fields` makes the model of a form and gives the
-- names of its fields, or nothing where it raises.
pub record Host : Type 0 where
  pub library : Library
  pub files : Files
  pub patterns : Patterns
  pub form_fields : Fields → Option (List String)

pub data Rejected : Type 0 where
  unparsed : ParseError → Rejected
  bad_steps : Refused → Rejected
  bad_policies bad_names : Unusable → Rejected
  bad_form bad_templates not_object : Rejected

pub record DslCompiled : Type 0 where
  pub flow_name : Value
  pub steps : List Fields
  pub workflow_spec : Fields
  pub policies : Fields
  pub credentials : List String

-- The error of a part as one of the whole.
abbrev pub relay {ℓ κ} : {E : Type ℓ} {A : Type κ} → (E → Rejected) → Result E A → Result Rejected A
relay f (ok a) = ok a
relay f (err e) = err (f e)

abbrev pub object_in : Value → Result Rejected Fields
object_in (obj d) = ok d
object_in _ = err not_object

abbrev pub items_in : Value → Result Rejected Items
items_in (arr xs) = ok xs
items_in _ = err not_object

-- `p or {}`
abbrev pub policies_in : Value → Bool → Result Rejected Fields
policies_in v true = object_in v
policies_in v false = ok end

abbrev pub fields_in : Option (List String) → Result Rejected (List String)
fields_in none = err bad_form
fields_in (some names) = ok names

abbrev pub id_before : Option Value → List String → List String
id_before (some (str s)) ids = s ∷ ids
id_before _ ids = ids

-- `[s["id"] for s in steps]`
abbrev pub ids_of : List Fields → List String
ids_of [] = []
ids_of (s ∷ ss) = id_before (lookup "id" s) (ids_of ss)

abbrev pub compile_workflow_spec : Value → Value → List Fields → Fields
compile_workflow_spec flow_name planner_mode steps =
    field "name" flow_name
      (field "planner_mode" planner_mode (field "steps" (arr (to_items steps)) end))

unfoldable pub compile_parsed : Host → Fields → Result Rejected DslCompiled
compile_parsed host dsl = do
  flow ← object_in (or_else null (lookup "flow" dsl))
  workflow ← object_in (or_else null (lookup "workflow" dsl))
  names ← relay bad_names (compile_credentials (lookup "credentials" dsl))
  form ← object_in (or_else (obj (field "fields" (arr no_item) end)) (lookup "form" dsl))
  fields ← fields_in (host.form_fields form)
  written ← items_in (or_else (arr no_item) (lookup "steps" workflow))
  steps ← relay bad_steps (validate_and_normalize_steps host.library names written)
  let given = or_else null (lookup "policies" dsl)
  p ← policies_in given (truthy given)
  policies ← relay bad_policies (compile_policies host.library p)
  let flow_name = or_else null (lookup "name" flow)
  let spec = compile_workflow_spec flow_name (or_else null (lookup "planner_mode" workflow)) steps
  let known : Names = record {
    form_fields = fields;
    step_ids = ids_of steps;
    credential_names = names;
  }
  guard (not (any is_error (validate_object host.patterns known (obj spec)))) bad_templates
  ok (record {
    flow_name = flow_name;
    steps = steps;
    workflow_spec = spec;
    policies = policies;
    credentials = names;
  })

unfoldable pub compile_dsl : Host → String → Result Rejected DslCompiled
unfolding compile_parsed
compile_dsl host text =
    relay unparsed (parse_yaml host.files text) >>= λ dsl. compile_parsed host dsl
