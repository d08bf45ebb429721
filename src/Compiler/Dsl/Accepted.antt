-- ===== src/Compiler/Dsl/Accepted.antt =====
-- What `compile_dsl` of backend/saz/compiler/dsl.py gives for a file that it accepts.
use mathlib.Core.Path.{subst}
use saz.Prelude.{
  String, not, ◌≡◌, ap, List, [], any, Result, ok, err, guard-ok, >>=-eq-ok, ok-inj, arith,
}
use saz.Prelude.Json.{null, obj, arr, no_item, end, field, Fields, lookup, truthy}
use saz.Compiler.Parse.{parse_yaml}
use saz.Compiler.Steps.{validate_and_normalize_steps}
use saz.Compiler.Policies.{or_else, compile_policies, compile_credentials}
use saz.Compiler.Templates.{Names, is_error, validate_object}
use saz.Compiler.Templates.Sound.{IsSound, templates_accepted_iff}
use saz.Compiler.Compiled.{IsCompiled, compiled_lem}
use saz.Compiler.Dsl.{
  Host, Rejected, DslCompiled, relay, object_in, items_in, policies_in, fields_in, ids_of,
  compile_parsed, compile_dsl, compile_workflow_spec, bad_names, bad_steps, bad_policies,
  bad_templates, unparsed,
}

-- The steps are compiled with the credentials, and all references of the templates are good.
pub record IsAccepted (host : Host) (c : DslCompiled) : Type 0 where
  pub form_fields : List String
  pub compiled : IsCompiled host.library c.credentials [] c.steps
  pub sound :
      IsSound host.patterns
        (record {
          form_fields = form_fields;
          step_ids = ids_of c.steps;
          credential_names = c.credentials;
        })
        (obj c.workflow_spec)

relay-ok : {E A : Type 0} (f : E → Rejected) (r : Result E A) (a : A) → relay f r ≡ ok a → r ≡ ok a
relay-ok f (ok b) a h = ap ok (ok-inj {E = Rejected} b a h)
relay-ok f (err e) a h = cc

compile_parsed-IsAccepted :
    (host : Host) (dsl : Fields) (c : DslCompiled)
    → compile_parsed host dsl ≡ ok c
    → IsAccepted host c
unfolding compile_parsed
compile_parsed-IsAccepted host dsl c h =
    let (flow, e1, h1) = >>=-eq-ok (object_in (or_else null (lookup "flow" dsl))) _ c h in
    let (workflow, e2, h2) = >>=-eq-ok (object_in (or_else null (lookup "workflow" dsl))) _ c h1 in
    let (names, e3, h3) =
      >>=-eq-ok (relay bad_names (compile_credentials (lookup "credentials" dsl))) _ c h2 in
    let (form, e4, h4) =
      >>=-eq-ok (object_in (or_else (obj (field "fields" (arr no_item) end)) (lookup "form" dsl))) _
        c h3 in
    let (fields, e5, h5) = >>=-eq-ok (fields_in (host.form_fields form)) _ c h4 in
    let (written, e6, h6) =
      >>=-eq-ok (items_in (or_else (arr no_item) (lookup "steps" workflow))) _ c h5 in
    let (steps, e7, h7) =
      >>=-eq-ok (relay bad_steps (validate_and_normalize_steps host.library names written)) _ c
        h6 in
    let given = or_else null (lookup "policies" dsl) in
    let (p, e8, h8) = >>=-eq-ok (policies_in given (truthy given)) _ c h7 in
    let (policies, e9, h9) =
      >>=-eq-ok (relay bad_policies (compile_policies host.library p)) _ c h8 in
    let flow_name = or_else null (lookup "name" flow) in
    let spec =
      compile_workflow_spec flow_name (or_else null (lookup "planner_mode" workflow)) steps in
    let known : Names = record {
      form_fields = fields;
      step_ids = ids_of steps;
      credential_names = names;
    } in
    let result : DslCompiled = record {
      flow_name = flow_name;
      steps = steps;
      workflow_spec = spec;
      policies = policies;
      credentials = names;
    } in
    let (passed, last) =
      guard-ok (not (any is_error (validate_object host.patterns known (obj spec)))) bad_templates
        (ok result) c h9 in
    let accepted : IsAccepted host result = record {
      form_fields = fields;
      compiled = compiled_lem host.library names written steps (relay-ok bad_steps _ steps e7);
      sound = (templates_accepted_iff host.patterns known (obj spec)).0 (ground (arith, passed));
    } in
    subst (IsAccepted host) (ok-inj {E = Rejected} result c last) accepted

-- A file that the compiler accepts gives a workflow whose steps have distinct ids, known types and
-- declared credentials, and pass the checks of their types, and in whose templates every step that
-- is referred to is one of these steps and every secret is declared, where any is.
pub accepted_lem :
    (host : Host) (text : String) (c : DslCompiled)
    → compile_dsl host text ≡ ok c
    → IsAccepted host c
unfolding compile_dsl
accepted_lem host text c h =
    let (dsl, e, h1) = >>=-eq-ok (relay unparsed (parse_yaml host.files text)) _ c h in
    compile_parsed-IsAccepted host dsl c h1
