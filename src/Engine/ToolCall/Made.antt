-- ===== src/Engine/ToolCall/Made.antt =====
-- The calls that `_execute_tool_call` of backend/saz/engine/executor.py makes.
use saz.Prelude.{ℕ, ◌≡◌, ◌⊎◌, ok}
use saz.Prelude.Json.{Fields}
use saz.Prelude.Floats.{Floats}
use saz.Policy.Engine.{PolicyEngine}
use saz.Engine.{PlanStep}
use saz.Engine.ToolCall.{ToolCall, Agents, ToolState, Workflow}
use saz.Engine.ToolCall.Execution.{prepared, exec_arguments}
use saz.Engine.ToolCall.Approval.{IsWithinBounds, IsVerified}

module _ (F : Floats) (agents : Agents F) (w : Workflow) where
  -- What the tool of a call is given in the end.
  abbrev pub IsGiven : ToolState F → PlanStep → ToolCall → Fields → Type 0
  IsGiven s p c sent =
      (e : PolicyEngine F) × (arguments : Fields) × (e.tokenize_model_inputs
        ≡ s.engine.tokenize_model_inputs)
      × (prepared F agents w e c ≡ ok arguments)
      × (exec_arguments F agents w p (record c { arguments = arguments }) arguments ≡ ok sent)

  -- The tools have changed nothing, or one call was made, which passed.
  abbrev pub MakesOnly : PlanStep → ToolState F → ToolState F → Type 0
  MakesOnly p s s' =
      (s'.world ≡ s.world)
      ⊎ ((n : ℕ) × (c : ToolCall) × (sent : Fields) × (s'.world
            ≡ (agents.execute_tool n s.world c.tool sent).0)
          × IsGiven s p c sent
          × IsWithinBounds F agents w s c
          × IsVerified F agents w c)
