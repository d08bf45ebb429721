-- ===== src/Lib.antt =====
-- Saz runs workflows: a flow is a list of steps that a run executes one by one, calling tools and
-- language models under a policy, and that may be suspended for an approval or a webhook, resumed,
-- retried and swept away on a timeout. The code is Python, under backend/saz.
--
-- The parts, and the files that model them:
--   Policy.RateLimiter: backend/saz/policies/rate_limiter.py. RateLimiter.check_and_record,
--     _check_bucket, get_stats and reset keep their names; the limiter's fields are the record
--     RateLimiter. The contract it is compared with is in Policy.RateLimiter.Spec.
--   Policy.Budget: backend/saz/policies/budget_tracker.py. BudgetTracker and its methods keep their
--     names; the reporting method get_remaining is left out.
--   Policy.Pii: PIIDetector.scan_dict of backend/saz/policies/pii_detector.py and the allow-lists of
--     paths of backend/saz/policies/pii_token_vault.py; Policy.Pii.Findings is detect, _dedupe and
--     redact of the detector, and its child Hidden is about what the redaction hides. Policy.Engine: PolicyEngine.check_tool_call
--     of backend/saz/policies/policy_engine.py, which asks the limiter, the budget and the detector.
--   Runs: the rows of backend/saz/db/models.py. Runs.RunRepository and Runs.StepRepository are the
--     repositories under backend/saz/repositories/write, Runs.Service is
--     backend/saz/services/run_service.py, Runs.Sweeper is backend/saz/engine/suspension_sweeper.py
--     and Runs.Webhooks is backend/saz/api/routes/webhooks.py. A run waits as `suspended` until the
--     sweeper, the resume endpoint or a callback claims it by a guarded UPDATE; Runs.Claims has the
--     race between them, Runs.Permission who may resume, Runs.Timeouts what a timeout leaves.
--   Engine: WorkflowExecutor of backend/saz/engine/executor.py, with the plan's steps of
--     backend/saz/agents/schemas.py. Engine.Restore has the context that execute_run restores from
--     the rows of earlier executions, Engine.Gates the approvals and webhook waits that suspend a
--     run, Engine.Attempts the retries of _execute_plan_step, Engine.Executor the loop and the
--     `except` clauses of execute_run. Engine.ToolCall has _execute_tool_call and, in its child
--     Grounding, _ground_and_verify: a step becomes a proposed call, which the policies check and
--     the verifier judges before it is made. Engine.Scheduler is RunScheduler of
--     backend/saz/engine/scheduler.py for one run, as steps of its threads. Engine.Expressions is
--     backend/saz/engine/expressions.py from the tokens on; its child Grammar has the conditions as
--     trees, and Engine.Guards is _evaluate_guard. Engine.Templates is
--     backend/saz/engine/templating.py. Engine.Settled is about the rows that an
--     execution leaves, Engine.Log about the calls that it makes.
--   Accounts: users and refresh sessions of backend/saz/db/models.py. Accounts.Sessions is
--     backend/saz/services/auth_service.py, Accounts.Admin backend/saz/services/admin_service.py,
--     with the names of the methods; Accounts.Requests has sequences of their requests.
--     Accounts.Admins is about the last admin, Accounts.Revoked and Accounts.Ended about revoked
--     sessions, Accounts.Replay and Accounts.Theft about refresh secrets that are used again.
--   Compiler: backend/saz/compiler/dsl.py. Compiler.Steps is _validate_and_normalize_steps with what it
--     calls, Compiler.Policies is _compile_policies and _compile_credentials, Compiler.Templates is
--     backend/saz/compiler/template_validator.py, Compiler.Parse parse_yaml with _normalize_pre_schema
--     and Compiler.Dsl compile_dsl, over records for the YAML library and the JSON schema.
--     Compiler.Compiled is about the steps that the compiler leaves.
--   Planner: DeterministicPlanner of backend/saz/agents/deterministic_planner.py with the model
--     PlanStep of backend/saz/agents/schemas.py. Planner.Plans is about what the compiler accepts,
--     Planner.Raw about the workflow as it was written, which is what the executor plans.
--     Policy.Setup is PolicyEngine.initialize_from_dsl, which reads the policies of a flow.
--     Policy.Vault is the token vault of backend/saz/policies/pii_token_vault.py.
--   Tools: the guard of URLs of backend/saz/security/url_guard.py, and the two tools behind it,
--     HttpTool.execute of backend/saz/tools/http_tool.py and WebhookTool.emit of
--     backend/saz/tools/webhook_tool.py. Tools.Sent is about the requests that they make.
--   Redaction: backend/saz/security/redaction.py, with the replacing of parts of texts written out.
--   Audit: backend/saz/audit/event_bus.py and the loop of backend/saz/api/routes/stream.py, with a
--     bounded queue for each client. Audit.Events is backend/saz/domain/event_schema.py,
--     Audit.Sanitizer backend/saz/audit/sanitizer.py and Audit.EventRepository
--     backend/saz/repositories/write/event_repository.py. Audit.Emitter is EventEmitter of
--     backend/saz/audit/event_emitter.py, with the calls of its methods as the constructors of
--     Audit.Calls and Audit.Reviews; Audit.Emitter.Stored is about the events that it leaves.
--   Prelude: lists, maps, results, integers, JSON values, tables with a primary key.
--
-- How the code is modelled. A method that changes an object returns the new state. A handler that
-- reads before it claims takes the database that its reads saw and the database at the time of its
-- guarded update, so every interleaving of transactions is covered. Exceptions are values of a
-- Result, and an exception leaves the database as it was, but for what the code commits before it
-- raises. A clock reading is an argument, a number of microseconds; outside the executor a method
-- reads the clock once. Python's int is ℤ, or ℕ
-- where it counts. Python's float is the parameter record Floats, with the laws of IEEE arithmetic
-- that the code relies on; Prelude.Floats.millionths is an instance. JSON numbers are decimals, and
-- an ISO-8601 text of an instant is the constructor `time`. Primary keys are unique. Loops are
-- structural recursion over their lists; only the parser of conditions has fuel, one unit more
-- than there are tokens, which never runs out, and the decimal text of a number, with the number
-- itself as fuel.
--
-- The executor's environment, the record Env, holds what an execution reaches outside its loop: the
-- clock, fresh ids, the redaction of secrets, the planner, the guards of steps, and the actions of
-- the steps that are not gates. An action may answer or raise anything, and differently each time,
-- since it sees the log of all earlier calls. The retry loop recurses on the attempts that are
-- left, `range(max_retries + 1)` at its start.
--
-- Of a tool step the agents, the tools and the patterns of personal data are the record Agents of
-- Engine.ToolCall; they too may answer or raise anything, and differently each time. A tool finds the
-- world outside as a value and leaves another, so a call is seen by what it does to the world.
--
-- Of the accounts the hashes of passwords and secrets are the record Security, and an access token is
-- its claims, once its signature and its expiry have been checked.
--
-- Of the compiler, Python's `int` and `float` of a text and the required parameters of the tools are
-- the record Library; of the planner, how pydantic reads an integer is the record Pydantic.
--
-- Of the detector of personal data, the matches of its patterns, their validators and their masks are
-- the record Detector; of the audit log, how Python prints numbers is the record Formats, and str.lower
-- and the patterns' sub are fields of the record Sanitizer.
--
-- Of the templates, the matches of the regular expressions are records, both named Patterns. Of the
-- tools the network is the record Network, and httpx a function from a request to a response.
--
-- Not modelled: the JSON schema of a workflow's file and the model of its form, the seeding of a
-- resumed run's budget, HTTP and database plumbing, logging, telemetry, the React frontend, the
-- scripts, the shutdown of the scheduler, the prompts of language models and the other tools, the
-- regular expressions of the tokenizer, of templates and of the detector of personal data, secrets in
-- the texts of instants, the UnicodeError of getaddrinfo, the texts of error messages, durations and
-- cost columns.
pub mod Accounts
pub mod Audit
pub mod Compiler
pub mod Planner
pub mod Tools
pub mod Redaction
pub mod Prelude
pub mod Policy
pub mod Runs
pub mod Engine
