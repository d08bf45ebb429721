-- ===== src/Compiler/Templates.antt =====
-- backend/saz/compiler/template_validator.py: the references in the templates of a workflow are
-- looked up when the workflow is compiled. The regular expressions are a parameter.
pub mod Sound
mod Tests
use saz.Prelude.{
  String, Bool, true, false, not, ◌&&◌, ◌||◌, List, [], ◌∷◌, ◌++◌, contains, ◌==◌, string_eq,
  if◌then◌else◌,
}
use saz.Prelude.Json.{
  Value, null, bool, str, num, time, obj, arr, Fields, end, field, Items, no_item, item,
}
use saz.Redaction.{begins, occurs}
use saz.Engine.Templates.{split_dots}

-- What the patterns find: the stripped expressions of a text, and in an expression the steps with
-- their paths ("" without one), the paths of form fields, the secrets, and whether there is a
-- variable of the environment.
pub record Patterns : Type 0 where
  pub expressions : String → List String
  pub steps_in : String → List (String × String)
  pub forms_in : String → List String
  pub secrets_in : String → List String
  pub has_env : String → Bool

-- The names that a workflow has. `credential_names` is empty where none are declared.
pub record Names : Type 0 where
  pub form_fields : List String
  pub step_ids : List String
  pub credential_names : List String

-- The errors and the warnings in one list; each list of the source is those of its kind, in order.
pub data Note : Type 0 where
  unknown_step unknown_secret : String → Note
  output_named : String → String → Note
  output_unneeded unknown_field undeclared_secret unrecognized : String → Note

abbrev pub is_error : Note → Bool
is_error (unknown_step id) = true
is_error (unknown_secret n) = true
is_error (output_named id path) = true
is_error (output_unneeded id) = false
is_error (unknown_field f) = false
is_error (undeclared_secret n) = false
is_error (unrecognized e) = false

-- `".output." in path or path.startswith("output.")`
abbrev pub names_output : String → Bool
names_output path = occurs ".output." path || begins "output." path

abbrev pub path_notes : String → String → List Note
path_notes id path =
    if path == ""
    then []
    else if names_output path
    then output_named id path ∷ []
    else if path == "output"
    then output_unneeded id ∷ []
    else []

abbrev pub step_notes : List String → List (String × String) → List Note
step_notes ids [] = []
step_notes ids ((id, path) ∷ rest) =
    (if contains id ids then [] else unknown_step id ∷ [])
    ++ (path_notes id path ++ step_notes ids rest)

abbrev pub first_of : List String → String
first_of [] = ""
first_of (s ∷ ss) = s

abbrev pub form_notes : List String → List String → List Note
form_notes fields [] = []
form_notes fields (path ∷ rest) =
    let name = first_of (split_dots path) in
    (if contains name fields then [] else unknown_field name ∷ []) ++ form_notes fields rest

abbrev pub secret_note : List String → String → List Note
secret_note [] name = undeclared_secret name ∷ []
secret_note (c ∷ cs) name = if contains name (c ∷ cs) then [] else unknown_secret name ∷ []

abbrev pub secret_notes : List String → List String → List Note
secret_notes names [] = []
secret_notes names (n ∷ rest) = secret_note names n ++ secret_notes names rest

abbrev pub is_any {ℓ} : {A : Type ℓ} → List A → Bool
is_any [] = false
is_any (x ∷ xs) = true

module _ (P : Patterns) (N : Names) where
  abbrev pub matched_any : String → Bool
  matched_any e =
      is_any (P.steps_in e) || is_any (P.forms_in e) || is_any (P.secrets_in e) || P.has_env e

  abbrev pub unrecognized_note : String → List Note
  unrecognized_note e = if not (matched_any e) && begins "$" e then unrecognized e ∷ [] else []

  unfoldable pub validate_expression : String → List Note
  validate_expression e =
      step_notes N.step_ids (P.steps_in e)
      ++ (form_notes N.form_fields (P.forms_in e)
          ++ (secret_notes N.credential_names (P.secrets_in e) ++ unrecognized_note e))

  abbrev pub validate_expressions : List String → List Note
  validate_expressions [] = []
  validate_expressions (e ∷ es) = validate_expression e ++ validate_expressions es

  unfoldable mutual
    unfolding validate_expression

    pub validate_object : Value → List Note
    validate_object (str s) = validate_expressions (P.expressions s)
    validate_object (obj d) = validate_fields d
    validate_object (arr xs) = validate_items xs
    validate_object null = []
    validate_object (bool b) = []
    validate_object (num n k) = []
    validate_object (time t) = []

    pub validate_fields : Fields → List Note
    validate_fields end = []
    validate_fields (field k v d) = validate_object v ++ validate_fields d

    pub validate_items : Items → List Note
    validate_items no_item = []
    validate_items (item v xs) = validate_object v ++ validate_items xs
