-- ===== src/Planner/Tests.antt =====
-- Compiled workflows through the planner of backend/saz/agents/deterministic_planner.py.
use saz.Prelude.{◌≡◌, refl, Option, none, some, List, [], ◌∷◌, ok, err, inl, inr}
use saz.Prelude.Int.{ℤ, pos}
use Prim.Native.Nat.{zero}
use saz.Prelude.Json.{Value, str, num, Fields, end, field}
use saz.Compiler.Tests.{fetch, check_size, ask, library, workflow, compiled, workflow_compiles}
use saz.Planner.{Pydantic, ExecutionPlan, invalid, convert_step, remaining, plan}
use saz.Planner.Raw.{none_written, written, plan-written}
use saz.Planner.Plans.{ArePlanned, plan_total}

abbrev model_int : Value → Option ℤ
model_int (num n zero) = some n
model_int _ = none

model_int_same : (n : ℤ) → model_int (num n 0) ≡ some n
model_int_same n = refl

abbrev model : Pydantic
model = record { int_field = model_int; int_field-int = model_int_same }

no_tool_name :
    convert_step model (
      field "id" (str "a") (
        field "type" (str "tool.call") (field "tool" (str "") (field "description" (str "d") end))))
    ≡ err invalid
unfolding convert_step
no_tool_name = refl

plan_total_example :
    (e : ExecutionPlan) × (plan model ("check" ∷ []) compiled ≡ ok e)
    × ArePlanned [] (remaining ("check" ∷ []) compiled) e.steps
plan_total_example =
    plan_total library model ("jira" ∷ []) workflow compiled ("check" ∷ []) workflow_compiles (
      record {
        params = field "url" (str "https://api.example.com") (field "method" (str "GET") end);
        policy = end;
        expect = end;
        reasoning = "Read the ticket";
        params_there = refl;
        policy_there = refl;
        expect_there = refl;
        reasoning_there = refl;
        attempts = inl refl;
        tool = inr ("http_request", refl, refl);
      },
      (
        record {
          params = end;
          policy = end;
          expect = end;
          reasoning = "Large tickets only";
          params_there = refl;
          policy_there = refl;
          expect_there = refl;
          reasoning_there = refl;
          attempts = inl refl;
          tool = inl refl;
        },
        (
          record {
            params = end;
            policy = field "attempts" (num (pos 2) 0) end;
            expect = end;
            reasoning = "May it be closed?";
            params_there = refl;
            policy_there = refl;
            expect_there = refl;
            reasoning_there = refl;
            attempts = inr (pos 2, refl);
            tool = inl refl;
          },
          tt,
        ),
      ),
    )

abbrev as_written : List Fields
as_written = fetch ∷ check_size ∷ ask ∷ []

plan-written_example : plan model [] as_written ≡ plan model [] compiled
plan-written_example =
    plan-written library model ("jira" ∷ []) workflow compiled as_written [] workflow_compiles
      (written refl (written refl (written refl none_written)))
