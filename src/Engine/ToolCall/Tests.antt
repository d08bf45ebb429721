-- ===== src/Engine/ToolCall/Tests.antt =====
-- An agentic workflow whose verifier asks for one revision, and each theorem at an input.
use saz.Prelude.{◌≡◌, refl, true, false, none, [], ◌∷◌, empty, ok, if◌then◌else◌, ◌==◌, nat_eq}
use saz.Prelude.Int.{pos}
use saz.Prelude.Json.{null, bool, str, obj, end, field}
use saz.Prelude.Floats.{millionths}
use saz.Policy.Engine.{check_tool_call, record_llm_usage}
use saz.Policy.RateLimiter.{check_and_record, check_bucket}
use saz.Policy.Budget.{check_budget, record_cost, record_tokens}
use saz.Engine.{PlanStep, ErrorHandling}
use saz.Engine.Restore.{fresh_context}
use saz.Engine.ToolCall.{
  Verdict, pass, replan, Critique, ToolCall, Usage, Agents, ToolState, Workflow,
}
use saz.Engine.ToolCall.Execution.{execute_tool_call}

abbrev free : Usage millionths
free = record { tokens = pos 3; cost_usd = 0 }

abbrev call : ToolCall
call = record { tool = "http_request"; arguments = field "url" (str "u") end }

abbrev verdict : Verdict → Critique
verdict v = record { verdict = v; reasoning = "r"; modifications = "" }

abbrev step : PlanStep
step = record {
  step_id = "send";
  step_type = "tool.call";
  guard = none;
  input_template = end;
  error_handling = ErrorHandling.fail;
  max_retries = pos 0;
  reasoning = "";
}

abbrev agents : Agents millionths
agents = record {
  now = λ n. n;
  detects = λ v. false;
  registry = "http_request" ∷ "ai.plan" ∷ [];
  ground = λ n p c. ok call;
  verify_proposal = λ n p c ts. (free, ok (verdict (if n == 3 then replan else pass)));
  plan = λ n p f ts. (free, ok (step ∷ []));
  tokenize = λ c. ok c.arguments;
  detokenize = λ c. ok c.arguments;
  expected_output_schema = λ p. null;
  execute_tool =
      λ n v t a. (obj (field t (obj a) end), ok (obj (field "status" (bool true) end)), none);
  redact_output = λ v. v;
  critique = λ n p c v. (free, ok (verdict pass));
}

abbrev workflow : Workflow
workflow = record {
  run_id = "r1";
  is_deterministic = false;
  declared = "http_request" ∷ [];
  context = fresh_context end;
}

abbrev start : ToolState millionths
start = record {
  engine = record {
    rate_limiter = record {
      calls_per_minute = pos 10;
      calls_per_hour = pos 100;
      per_tool_rpm = empty;
      minute_buckets = λ t. [];
      hour_buckets = λ t. [];
    };
    budget_tracker = record {
      max_tokens = pos 100;
      max_cost_usd = 5000000;
      max_steps = pos 10;
      max_time_seconds = pos 3600;
      budgets = empty;
    };
    enforce_pii_redaction = true;
    tokenize_model_inputs = true;
    pii_allow_lists = empty;
    max_replan_attempts = pos 1;
  };
  supply = 0;
  events = [];
  proposals = [];
  world = str "";
}

two_rounds :
    (execute_tool_call millionths agents workflow step start).0.proposals ≡ call ∷ call ∷ []
unfolding execute_tool_call check_tool_call check_and_record check_bucket check_budget
    record_llm_usage record_cost record_tokens
two_rounds = refl
