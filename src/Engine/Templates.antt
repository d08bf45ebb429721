-- ===== src/Engine/Templates.antt =====
-- backend/saz/engine/templating.py: what the expressions of a template stand for. The regular
-- expressions and the texts of values are a parameter.
pub mod Resolves
mod Tests
use saz.Prelude.{
  ℕ, zero, suc, String, Bool, true, false, not, ◌&&◌, ◌||◌, Option, none, some, List, [], ◌∷◌, ◌++◌,
  Map, Result, ok, err, ◌>>=◌, contains, all, ◌==◌, string_eq, nat_eq, if◌then◌else◌,
}
use Prim.Native.Char.{Char, code}
use saz.Prelude.Json.{
  Value, null, bool, str, num, time, obj, arr, Fields, end, field, Items, no_item, item, lookup,
  concat,
}
use saz.Redaction.{begins, prefixed}

-- A text between its expressions, and the expressions in braces, in their order.
pub data Piece : Type 0 where
  literal expression : String → Piece

-- `single` is _SINGLE_EXPR_RE, `pieces` is _EXPR_RE; the next three are the patterns of an expression
-- from its beginning. `index_of` is `int` of a text
-- for which `isdigit` holds, which raises at digits that are not decimal; `dumps` is json.dumps.
pub record Patterns : Type 0 where
  pub single : String → Option String
  pub pieces : String → List Piece
  pub strip : String → String
  pub step_at : String → Option (String × Option String)
  pub env_at : String → Option (String × Option String)
  pub secret_at : String → Option String
  pub index_of : String → Option (Option ℕ)
  pub dumps : Value → String
  pub text_of : Value → String

-- The errors: a secret that is not there, the error that the resolver of secrets raised, by its type,
-- and the ValueError of an index.
pub data Fault : Type 0 where
  missing : String → Fault
  secret_error : String → String → Fault
  bad_index : String → Fault

-- `TemplateContext`, with the environment. The resolver may raise.
pub record TemplateContext : Type 0 where
  pub form_data : Fields
  pub step_results : Map Value
  pub secret_resolver : String → Result String (Option String)
  pub getenv : String → Option String

-- `dotted.split(".")`
abbrev pub split_dots : String → List String
split_dots String.[] = "" ∷ []
split_dots (String.◌∷◌ c s) =
    if code c == b'.' then "" ∷ split_dots s else prefixed c (split_dots s)

-- `expr[n:]`
abbrev pub drop_text : ℕ → String → String
drop_text zero s = s
drop_text (suc n) String.[] = ""
drop_text (suc n) (String.◌∷◌ c s) = drop_text n s

abbrev pub item_at : Items → ℕ → Option Value
item_at no_item n = none
item_at (item v xs) zero = some v
item_at (item v xs) (suc n) = item_at xs n

-- `None` where a value is missing.
abbrev pub or_none : Option Value → Value
or_none none = null
or_none (some v) = v

module _ (P : Patterns) where
  abbrev pub item_by : String → Items → Option (Option ℕ) → Result Fault (Option Value)
  item_by seg xs none = ok none
  item_by seg xs (some none) = err (bad_index seg)
  item_by seg xs (some (some n)) = ok (item_at xs n)

  -- One segment of a path.
  abbrev pub child : String → Value → Result Fault (Option Value)
  child seg (obj d) = ok (lookup seg d)
  child seg (arr xs) = item_by seg xs (P.index_of seg)
  child seg _ = ok none

  abbrev pub walk_on :
      (Value → Result Fault (Option Value)) → Option Value → Result Fault (Option Value)
  walk_on walk none = ok none
  walk_on walk (some w) = walk w

  unfoldable pub walk_path : List String → Value → Result Fault (Option Value)
  walk_path [] v = ok (some v)
  walk_path (seg ∷ segs) v = child seg v >>= walk_on (walk_path segs)

  abbrev pub output_at : Option String → Value → Result Fault Value
  output_at none v = ok v
  output_at (some path) v =
      if path == "" then ok v else (walk_path (split_dots path) v >>= λ o. ok (or_none o))

  abbrev pub output_of : Option Value → Option String → Result Fault Value
  output_of none path = ok null
  output_of (some v) path = output_at path v

  -- Only what stands under `output` is read.
  abbrev pub resolve_step_output : Option Value → Option String → Result Fault Value
  resolve_step_output (some (obj d)) path = output_of (lookup "output" d) path
  resolve_step_output _ path = ok null

  abbrev pub env_default : Option String → Value
  env_default none = null
  env_default (some d) = str d

  abbrev pub resolve_env : Option String → Option String → Value
  resolve_env none default = env_default default
  resolve_env (some v) default = if v == "" then env_default default else str v

  abbrev pub resolve_secret : String → Result String (Option String) → Result Fault Value
  resolve_secret name (err e) = err (secret_error name e)
  resolve_secret name (ok none) = err (missing name)
  resolve_secret name (ok (some v)) = ok (str v)

  module _ (C : TemplateContext) where
    -- By the first pattern that fits; `none` is an expression that none fits.
    abbrev pub by_secret : Option String → Result Fault (Option Value)
    by_secret none = ok none
    by_secret (some name) = resolve_secret name (C.secret_resolver name) >>= λ v. ok (some v)

    abbrev pub by_env : String → Option (String × Option String) → Result Fault (Option Value)
    by_env e (some (name, default)) = ok (some (resolve_env (C.getenv name) default))
    by_env e none = by_secret (P.secret_at e)

    abbrev pub by_step : String → Option (String × Option String) → Result Fault (Option Value)
    by_step e (some (id, path)) = resolve_step_output (C.step_results id) path >>= λ v. ok (some v)
    by_step e none = by_env e (P.env_at e)

    abbrev pub evaluate_stripped : String → Result Fault (Option Value)
    evaluate_stripped e =
        if begins "$form." e
        then (walk_path (split_dots (drop_text 6 e)) (obj C.form_data) >>= λ o.
            ok (some (or_none o)))
        else by_step e (P.step_at e)

    unfoldable pub evaluate_expression : String → Result Fault (Option Value)
    unfolding walk_path
    evaluate_expression expr = evaluate_stripped (P.strip expr)

    -- What stands for an expression inside a text.
    abbrev pub interpolated : Option Value → String
    interpolated none = ""
    interpolated (some null) = ""
    interpolated (some (obj d)) = P.dumps (obj d)
    interpolated (some (arr xs)) = P.dumps (arr xs)
    interpolated (some v) = P.text_of v

    unfoldable pub resolve_pieces : List Piece → Result Fault String
    unfolding evaluate_expression
    resolve_pieces [] = ok ""
    resolve_pieces (literal s ∷ ps) = resolve_pieces ps >>= λ t. ok (concat (s ∷ t ∷ []))
    resolve_pieces (expression e ∷ ps) = evaluate_expression e >>= λ v.
        resolve_pieces ps >>= λ t. ok (concat (interpolated v ∷ t ∷ []))

    -- An expression that none fits stays as it is.
    abbrev pub whole : String → Option Value → Value
    whole e none = str (concat ("{{ " ∷ e ∷ " }}" ∷ []))
    whole e (some v) = v

    abbrev pub resolve_string : String → Option String → Result Fault Value
    resolve_string s (some e) = evaluate_expression e >>= λ v. ok (whole e v)
    resolve_string s none = resolve_pieces (P.pieces s) >>= λ t. ok (str t)

    -- Inside a dict or a list `None` becomes the empty text, if it is the whole value.
    abbrev pub not_none : Value → Value
    not_none null = str ""
    not_none v = v

    abbrev pub resolve_inner : String → Option String → Result Fault Value
    resolve_inner s (some e) = resolve_string s (some e) >>= λ v. ok (not_none v)
    resolve_inner s none = resolve_string s none

    unfoldable mutual
      unfolding resolve_pieces evaluate_expression

      pub resolve : Value → Result Fault Value
      resolve (str s) = resolve_string s (P.single s)
      resolve (obj d) = resolve_fields d >>= λ d'. ok (obj d')
      resolve (arr xs) = resolve_items xs >>= λ xs'. ok (arr xs')
      resolve null = ok null
      resolve (bool b) = ok (bool b)
      resolve (num n k) = ok (num n k)
      resolve (time t) = ok (time t)

      pub resolve_fields : Fields → Result Fault Fields
      resolve_fields end = ok end
      resolve_fields (field k (str s) d) =
          resolve_inner s (P.single s) >>= λ v. resolve_fields d >>= λ d'. ok (field k v d')
      resolve_fields (field k v d) =
          resolve v >>= λ v'. resolve_fields d >>= λ d'. ok (field k v' d')

      pub resolve_items : Items → Result Fault Items
      resolve_items no_item = ok no_item
      resolve_items (item (str s) xs) =
          resolve_inner s (P.single s) >>= λ v. resolve_items xs >>= λ xs'. ok (item v xs')
      resolve_items (item v xs) = resolve v >>= λ v'. resolve_items xs >>= λ xs'. ok (item v' xs')
