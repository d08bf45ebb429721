-- ===== src/Engine/Guards/Tests.antt =====
-- A guard that is malformed, and the theorem at it.
use saz.Prelude.{String, ◌≡◌, ◌↔◌, refl, true, false, some, none, [], ◌∷◌, Result, ok, err}
use saz.Prelude.Int.{pos_part}
use saz.Prelude.Json.{Value, str}
use saz.Prelude.Floats.{millionths}
use saz.Engine.{structural}
use saz.Engine.Templates.{literal, expression}
use saz.Engine.Expressions.{and_op, ref, Library}
use saz.Engine.Guards.{Condition, evaluate_guard, Holds, AllResolve, guard_runs_iff}

abbrev library : Library millionths
library = record {
  strip = λ s. s;
  lower = λ s. s;
  text_of = λ v. "";
  float_of_text = λ s. none;
  float_of_number = λ n k. some (pos_part n);
  same_float = λ a b. true;
  before = λ a b. false;
}

abbrev resolve : String → Result String Value
resolve r = ok (str "yes")

abbrev malformed : Condition
malformed = record {
  tokens = ref "$form.go" ∷ and_op ∷ [];
  pieces = expression "$form.go" ∷ literal " &&" ∷ [];
}

malformed_fails :
    evaluate_guard library resolve (some malformed) ≡ err (structural "WorkflowStructuralError")
unfolding evaluate_guard
malformed_fails = refl

abbrev simple : Condition
simple = record { tokens = ref "$form.go" ∷ []; pieces = expression "$form.go" ∷ [] }

guard_runs_iff_example :
    ((text : String) × (evaluate_guard library resolve (some simple) ≡ ok (true, text)))
    ↔ (Holds library resolve simple.tokens × AllResolve library resolve simple.pieces)
guard_runs_iff_example = guard_runs_iff library resolve simple
