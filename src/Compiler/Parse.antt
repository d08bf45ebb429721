-- ===== src/Compiler/Parse.antt =====
-- `_normalize_pre_schema` and `parse_yaml` of backend/saz/compiler/dsl.py. The YAML library and the
-- JSON schema's validator are a parameter.
use saz.Prelude.{
  ◌^◌, String, Bool, true, false, not, ◌&&◌, ◌||◌, Option, none, some, Result, ok, err, ◌>>=◌, ◌>>◌,
  guard, ◌==◌, string_eq, nat_eq, if◌then◌else◌,
}
use Prim.Native.Char.{code}
use saz.Prelude.Int.{pos}
use saz.Prelude.Json.{
  Value, bool, str, num, obj, arr, Fields, end, field, Items, no_item, item, lookup, assign,
  truthy_at, is_text,
}
use saz.Prelude.Texts.{is_space, is_blank}
use saz.Compiler.{present}

-- `safe_load` gives nothing where it raises a YAMLError; `conforms` is the validator of _DSL_SCHEMA.
pub record Files : Type 0 where
  pub safe_load : String → Option Value
  pub conforms : Fields → Bool

pub data ParseError : Type 0 where
  invalid_yaml not_dictionary no_schema_version no_flow_name no_description no_workflow : ParseError
  no_planner_mode no_steps unknown_mode empty_steps no_fields nonconforming : ParseError
  type_error : ParseError

-- `del d[k]`
abbrev pub remove : String → Fields → Fields
remove k end = end
remove k (field j v d) = if j == k then d else field j v (remove k d)

abbrev pub set_from : String → Option Value → Fields → Fields
set_from k none d = d
set_from k (some v) d = assign k v d

-- `d[new] = d.pop(old)` where only the old key is there
abbrev pub rename_key : String → String → Fields → Fields
rename_key old new d =
    if present old d && not (present new d) then set_from new (lookup old d) (remove old d) else d

-- `d[new] = d[old]` where only the old key is there, and the old one is dropped
abbrev pub move_key : String → String → Fields → Fields
move_key old new d =
    remove old (if present old d && not (present new d) then set_from new (lookup old d) d else d)

-- `s.strip() == "1"`
abbrev pub is_one : String → Bool
is_one String.[] = false
is_one (String.◌∷◌ c s) =
    let rest = is_one s in if is_space c then rest else code c == b'1' && is_blank s

-- `sv == 1` of a number, `True` among them, or the text of one
abbrev pub is_version_one : Option Value → Bool
is_version_one (some (num (pos n) k)) = n == 10 ^ k
is_version_one (some (bool b)) = b
is_version_one (some (str s)) = is_one s
is_version_one _ = false

abbrev pub set_version : Fields → Fields
set_version d =
    if is_version_one (lookup "schema_version" d)
    then assign "schema_version" (num (pos 1) 0) d
    else d

abbrev pub rename_type : Fields → Fields
rename_type fd =
    let t = lookup "type" fd in
    if is_text "text" t
    then assign "type" (str "string") fd
    else if is_text "int" t
    then assign "type" (str "integer") fd
    else if is_text "float" t
    then assign "type" (str "number") fd
    else fd

abbrev pub normalize_field : Fields → Fields
normalize_field fd =
    move_key "max" "maximum"
      (move_key "min" "minimum" (move_key "regex" "pattern" (rename_type fd)))

abbrev pub normalize_form_fields : Items → Items
normalize_form_fields no_item = no_item
normalize_form_fields (item (obj fd) rest) =
    item (obj (normalize_field fd)) (normalize_form_fields rest)
normalize_form_fields (item v rest) = item v (normalize_form_fields rest)

abbrev pub normalize_form : Option Value → Fields → Fields
normalize_form (some (arr xs)) form = assign "fields" (arr (normalize_form_fields xs)) form
normalize_form _ form = form

abbrev pub normalize_form_in : Option Value → Fields → Fields
normalize_form_in (some (obj form)) d =
    assign "form" (obj (normalize_form (lookup "fields" form) form)) d
normalize_form_in _ d = d

unfoldable pub normalize_pre_schema : Fields → Fields
normalize_pre_schema dsl =
    let d = set_version (
      rename_key "schemaVersion" "schema_version"
        (rename_key "_schema_version" "schema_version" dsl)) in
    normalize_form_in (lookup "form" d) d

abbrev pub object_at : Option Value → ParseError → Result ParseError Fields
object_at (some (obj d)) e = ok d
object_at _ e = err e

abbrev pub is_empty_list : Option Value → Bool
is_empty_list (some (arr no_item)) = true
is_empty_list _ = false

abbrev pub check_form : Option Value → Result ParseError (Unit {0})
check_form none = ok tt
check_form (some (obj form)) = guard (present "fields" form) no_fields
check_form (some _) = err no_fields

-- A list or a dict is unhashable, and is no operand of `in` on a set.
abbrev pub is_unhashable : Option Value → Bool
is_unhashable (some (arr _)) = true
is_unhashable (some (obj _)) = true
is_unhashable _ = false

unfoldable pub check_shape : Fields → Result ParseError (Unit {0})
check_shape d = do
  guard (present "schema_version" d) no_schema_version
  flow ← object_at (lookup "flow" d) no_flow_name
  guard (present "name" flow) no_flow_name
  guard (truthy_at "description" flow) no_description
  workflow ← object_at (lookup "workflow" d) no_workflow
  guard (present "planner_mode" workflow) no_planner_mode
  guard (present "steps" workflow) no_steps
  let mode = lookup "planner_mode" workflow
  guard (not (is_unhashable mode)) type_error
  guard (is_text "deterministic" mode || is_text "agentic" mode) unknown_mode
  guard (not (is_text "deterministic" mode && is_empty_list (lookup "steps" workflow))) empty_steps
  check_form (lookup "form" d)

abbrev pub conforming : Files → Fields → Result ParseError Fields
unfolding check_shape
conforming files d = do check_shape d; guard (files.conforms d) nonconforming; ok d

abbrev pub parsed : Files → Option Value → Result ParseError Fields
unfolding normalize_pre_schema check_shape
parsed files none = err invalid_yaml
parsed files (some (obj d)) = conforming files (normalize_pre_schema d)
parsed files (some _) = err not_dictionary

unfoldable pub parse_yaml : Files → String → Result ParseError Fields
unfolding parsed
parse_yaml files text = parsed files (files.safe_load text)
