-- ===== src/Compiler/Tests.antt =====
-- Workflows through the checks of backend/saz/compiler/dsl.py.
use saz.Prelude.{◌≡◌, refl, none, some, List, [], ◌∷◌, ok, err, ◌==◌, string_eq, if◌then◌else◌}
use saz.Prelude.Int.{pos, negsuc}
use saz.Prelude.Json.{str, num, obj, arr, Fields, end, field, Items, no_item, item}
use saz.Compiler.{duplicate_id, missing_params, unknown_credentials, negative, bad_guard, Library}
use saz.Compiler.Steps.{validate_and_normalize_steps}
use saz.Compiler.Compiled.{to_items, IsCompiled, compiled_lem, compile_again}

abbrev pub library : Library
library = record {
  int_of_text = λ s. none;
  float_of_text = λ s. none;
  required_params = λ tool. if tool == "http_request" then some ("url" ∷ "method" ∷ []) else none;
}

abbrev request_params : Fields
request_params = field "url" (str "https://api.example.com") (field "method" (str "GET") end)

abbrev pub fetch : Fields
fetch = field "id" (str "fetch") (
    field "type" (str "tool.call") (
      field "tool" (str "http_request") (
        field "params" (obj request_params) (
          field "description" (str "Read the ticket")
            (field "uses_credentials" (arr (item (str "jira") no_item)) end)))))

abbrev pub check_size : Fields
check_size = field "id" (str "check") (
    field "type" (str "condition")
      (field "if" (str "$form.size > 3") (field "description" (str "Large tickets only") end)))

abbrev pub ask : Fields
ask = field "id" (str "ask") (
    field "type" (str "human.approval") (
      field "description" (str "May it be closed?")
        (field "retry" (obj (field "attempts" (num (pos 2) 0) end)) end)))

abbrev pub workflow : Items
workflow = item (obj fetch) (item (obj check_size) (item (obj ask) no_item))

abbrev with_params : Fields → Fields
with_params end = field "params" (obj end) end
with_params (field k v d) = field k v (with_params d)

abbrev pub containers : Fields → Fields
containers end = field "params" (obj end) (field "retry" (obj end) end)
containers (field k v d) = field k v (containers d)

abbrev fetch_compiled : Fields
fetch_compiled = field "id" (str "fetch") (
    field "type" (str "tool.call") (
      field "tool" (str "http_request") (
        field "params" (obj request_params) (
          field "description" (str "Read the ticket") (
            field "uses_credentials" (arr (item (str "jira") no_item))
              (field "retry" (obj end) end))))))

abbrev pub compiled : List Fields
compiled = fetch_compiled ∷ containers check_size ∷ with_params ask ∷ []

pub workflow_compiles : validate_and_normalize_steps library ("jira" ∷ []) workflow ≡ ok compiled
unfolding validate_and_normalize_steps
workflow_compiles = refl

undeclared_credential :
    validate_and_normalize_steps library [] workflow ≡ err (unknown_credentials ("jira" ∷ []))
unfolding validate_and_normalize_steps
undeclared_credential = refl

twice :
    validate_and_normalize_steps library [] (item (obj ask) (item (obj ask) no_item))
    ≡ err (duplicate_id "ask")
unfolding validate_and_normalize_steps
twice = refl

missing_method :
    validate_and_normalize_steps library [] (
      item
        (obj (
          field "id" (str "a") (
            field "tool" (str "http_request") (
              field "params"
                (obj (field "url" (str "u") end))
                (field "description" (str "d") end)))))
        no_item)
    ≡ err (missing_params ("method" ∷ []))
unfolding validate_and_normalize_steps
missing_method = refl

negative_attempts :
    validate_and_normalize_steps library [] (
      item
        (obj (
          field "id" (str "a") (
            field "type" (str "human.approval") (
              field "description"
                (str "d")
                (field "retry" (obj (field "attempts" (num (negsuc 0) 0) end)) end)))))
        no_item)
    ≡ err (negative "attempts")
unfolding validate_and_normalize_steps
negative_attempts = refl

blank_guard :
    validate_and_normalize_steps library [] (
      item
        (obj (
          field "id" (str "a") (field "type" (str "human.approval") (field "when" (str "  ") end))))
        no_item)
    ≡ err bad_guard
unfolding validate_and_normalize_steps
blank_guard = refl

compiled_lem_example : IsCompiled library ("jira" ∷ []) [] compiled
compiled_lem_example = compiled_lem library ("jira" ∷ []) workflow compiled workflow_compiles

compile_again_example :
    validate_and_normalize_steps library ("jira" ∷ []) (to_items compiled) ≡ ok compiled
compile_again_example = compile_again library ("jira" ∷ []) workflow compiled workflow_compiles
