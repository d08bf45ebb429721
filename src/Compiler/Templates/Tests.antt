-- ===== src/Compiler/Templates/Tests.antt =====
-- References in a workflow of two texts.
use saz.Prelude.{false, ◌≡◌, refl, ◌↔◌, [], ◌∷◌, any, ◌==◌, string_eq, if◌then◌else◌}
use saz.Prelude.Json.{Value, str, obj, arr, end, field, no_item, item}
use saz.Compiler.Templates.{
  Patterns, Names, unknown_step, output_named, undeclared_secret, unknown_secret, is_error,
  validate_object,
}
use saz.Compiler.Templates.Sound.{IsSound, templates_accepted_iff}

abbrev found : Patterns
found = record {
  expressions = λ s. if s == "no template" then [] else s ∷ [];
  steps_in = λ e.
      if e == "$step('fetch').output.body"
      then ("fetch", "output.body") ∷ []
      else if e == "$step('gone').body"
      then ("gone", "body") ∷ []
      else [];
  forms_in = λ e. [];
  secrets_in = λ e. if e == "$secret('key')" then "key" ∷ [] else [];
  has_env = λ e. false;
}

abbrev names : Names
names = record { form_fields = []; step_ids = "fetch" ∷ []; credential_names = [] }

abbrev with_credentials : Names
with_credentials = record names { credential_names = "other" ∷ [] }

abbrev workflow : Value
workflow = obj (
    field "a" (str "$step('fetch').output.body") (
      field "b" (arr (item (str "$step('gone').body") (item (str "no template") no_item)))
        (field "c" (str "$secret('key')") end)))

all_notes :
    validate_object found names workflow
    ≡ output_named "fetch" "output.body" ∷ unknown_step "gone" ∷ undeclared_secret "key" ∷ []
unfolding validate_object
all_notes = refl

secret_refused :
    validate_object found with_credentials (str "$secret('key')") ≡ unknown_secret "key" ∷ []
unfolding validate_object
secret_refused = refl

templates_accepted_iff_example :
    (any is_error (validate_object found names workflow) ≡ false) ↔ IsSound found names workflow
templates_accepted_iff_example = templates_accepted_iff found names workflow
