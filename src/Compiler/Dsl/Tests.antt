-- ===== src/Compiler/Dsl/Tests.antt =====
-- A whole file through the compiler.
use saz.Prelude.{true, ◌≡◌, refl, some, [], Result, ok, err, ◌==◌, string_eq, if◌then◌else◌}
use saz.Prelude.Int.{pos}
use saz.Prelude.Json.{Value, null, str, num, obj, arr, Fields, end, field, no_item, item}
use saz.Compiler.Tests.{library, workflow}
use saz.Compiler.Parse.{Files, no_description, parse_yaml, normalize_pre_schema}
use saz.Compiler.Templates.{validate_object}
use saz.Compiler.Steps.{validate_and_normalize_steps}
use saz.Compiler.Policies.{compile_policies, compile_credentials}
use saz.Compiler.Dsl.{Host, Rejected, DslCompiled, compile_dsl}
use saz.Compiler.Dsl.Accepted.{IsAccepted, accepted_lem}

abbrev flow : Value
flow = obj (field "name" (str "tickets") (field "description" (str "Closes tickets") end))

abbrev file : Fields
file = field "schemaVersion" (str " 1 ") (
    field "flow" flow (
      field "credentials" (obj (field "uses" (arr (item (str "jira") no_item)) end)) (
        field "workflow"
          (obj (field "planner_mode" (str "deterministic") (field "steps" (arr workflow) end)))
          end)))

abbrev files : Files
files = record {
  safe_load = λ text.
      if text == "tickets.yaml"
      then some (obj file)
      else some (
          obj (
            field "schema_version" (num (pos 1) 0)
              (field "flow" (obj (field "name" (str "x") end)) end)));
  conforms = λ d. true;
}

abbrev host : Host
host = record {
  library = library;
  files = files;
  patterns = record {
    expressions = λ s. [];
    steps_in = λ e. [];
    forms_in = λ e. [];
    secrets_in = λ e. [];
    has_env = λ e. true;
  };
  form_fields = λ form. some [];
}

abbrev nothing : DslCompiled
nothing = record {
  flow_name = null;
  steps = [];
  workflow_spec = end;
  policies = end;
  credentials = [];
}

abbrev value_or : DslCompiled → Result Rejected DslCompiled → DslCompiled
value_or c (ok d) = d
value_or c (err e) = c

abbrev compiled_file : DslCompiled
unfolding compile_dsl
compiled_file = value_or nothing (compile_dsl host "tickets.yaml")

file_compiles : compile_dsl host "tickets.yaml" ≡ ok compiled_file
unfolding compile_dsl compiled_file parse_yaml compile_credentials validate_and_normalize_steps
    compile_policies validate_object
file_compiles = refl

no_text : parse_yaml files "other.yaml" ≡ err no_description
unfolding parse_yaml
no_text = refl

regex_renamed :
    normalize_pre_schema (
      field "form"
        (obj (
          field "fields"
            (arr (item (obj (field "type" (str "text") (field "regex" (str "a+") end))) no_item))
            end))
        end)
    ≡ field "form"
        (obj (
          field "fields"
            (arr
              (item (obj (field "type" (str "string") (field "pattern" (str "a+") end))) no_item))
            end))
        end
unfolding normalize_pre_schema
regex_renamed = refl

accepted_lem_example : IsAccepted host compiled_file
accepted_lem_example = accepted_lem host "tickets.yaml" compiled_file file_compiles
