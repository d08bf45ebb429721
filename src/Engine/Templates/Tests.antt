-- ===== src/Engine/Templates/Tests.antt =====
-- Templates over a small set of expressions.
use saz.Prelude.{
  String, true, ◌≡◌, refl, ◌⊎◌, Option, none, some, [], ◌∷◌, ok, err, all, ◌==◌, string_eq,
  if◌then◌else◌,
}
use saz.Prelude.Int.{pos}
use saz.Prelude.Json.{Value, null, str, num, obj, arr, end, field, no_item, item}
use saz.Engine.Templates.{literal, expression, Patterns, TemplateContext, Fault, missing, resolve}
use saz.Engine.Templates.Resolves.{is_met, needs_of, Blames, resolve_decides}

-- The matches of the patterns in the texts of these tests.
abbrev patterns : Patterns
patterns = record {
  single = λ s.
      if s == "{{ $step('a').items.1 }}"
      then some "$step('a').items.1"
      else if s == "{{ $secret('key') }}"
      then some "$secret('key')"
      else none;
  pieces = λ s.
      if s == "Hi {{ $form.user }}!"
      then literal "Hi " ∷ expression "$form.user" ∷ literal "!" ∷ []
      else literal s ∷ [];
  strip = λ s. s;
  step_at = λ e. if e == "$step('a').items.1" then some ("a", some "items.1") else none;
  env_at = λ e. none;
  secret_at = λ e. if e == "$secret('key')" then some "key" else none;
  index_of = λ s. if s == "1" then some (some 1) else if s == "²" then some none else none;
  dumps = λ v. "{}";
  text_of = λ v. elim v [ str s ↦ s | _ ↦ "" ];
}

abbrev results : String → Option Value
results id =
    if id == "a"
    then some (
        obj (
          field "output"
            (obj (field "items" (arr (item (str "x") (item (num (pos 7) 0) no_item))) end)) end))
    else none

abbrev context : TemplateContext
context = record {
  form_data = field "user" (str "ann") end;
  step_results = results;
  secret_resolver = λ n. ok none;
  getenv = λ n. none;
}

native_value : resolve patterns context (str "{{ $step('a').items.1 }}") ≡ ok (num (pos 7) 0)
unfolding resolve
native_value = refl

mixed_text : resolve patterns context (str "Hi {{ $form.user }}!") ≡ ok (str "Hi ann!")
unfolding resolve
mixed_text = refl

abbrev with_secret : Value
with_secret = obj (field "auth" (str "{{ $secret('key') }}") (field "n" null end))

secret_missing : resolve patterns context with_secret ≡ err (missing "key")
unfolding resolve
secret_missing = refl

resolve_decides_example :
    ((w : Value) × (resolve patterns context with_secret ≡ ok w)
      × (all (is_met patterns context) (needs_of patterns with_secret) ≡ true))
    ⊎ ((f : Fault) × (resolve patterns context with_secret ≡ err f)
        × Blames patterns context f (needs_of patterns with_secret))
resolve_decides_example = resolve_decides patterns context with_secret
