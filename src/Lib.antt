-- ===== src/Lib.antt =====
-- Aceryx: a case orchestration engine. This library models its core logic and proves it correct.
--
-- internal/engine (module Engine) is the workflow engine. A workflow is a graph of steps
-- (Engine/Types.antt, types.go), checked by ValidateAST before it runs (Engine/Ast.antt, ast.go).
-- When a step of a case ends, computeTransitions (Engine/Compute.antt, compute.go) works out which
-- steps become ready, active or skipped. evaluateDAG (Engine/Evaluate.antt, engine.go) loads the
-- rows of a case, writes these transitions to them one by one, and dispatches the steps that became
-- active. The rows (Engine/Store.antt) are kept by the operations of Engine/Cases.antt:
-- completeStep with the document of its result (Engine/Results.antt), failStep, skipStepTerminal
-- and UpdateCaseData (step_terminal.go), cancelCase (cancel.go), and incrementRetryCount and
-- activateFallbackStep (execution_retry.go). Each is one transaction with the row of the case
-- locked, so a history of a case (Engine/Cases/History.antt) is a sequence of operations, in any
-- order. executeWithRetry (Engine/Retry.antt) executes a dispatched step until its policy
-- (Engine/Policy.antt) is exhausted, and recoverCase (Engine/Recovery.antt, recovery.go) takes up
-- the steps that a stopped process left active, and keeps the executions and the evaluations that
-- it asks for in their order. The steps are executed by goroutines of the worker pool
-- (Engine/Pool.antt, worker_pool.go), whose scheduling is any sequence of actions. The monitor of
-- overdue tasks (Engine/Sla.antt, sla.go) records the breaches of deadlines.
--
-- internal/mcp/circuit.go (Circuit.antt) is the circuit breaker before each server of tools.
-- internal/agentic (Agentic.antt: runner.go, types.go, constraints.go, tools.go, validate_tool.go)
-- is the reasoning loop of an agent's step. internal/cases/merge.go (CaseData.antt) merges patches
-- into the data of a case, and finds what changed (CaseData/Diff.antt).
--
-- internal/workflows (module Workflows) checks workflows: validateWorkflowAST a draft's
-- (Workflows/Draft.antt over Workflows/Config.antt, validation.go), and validatePublishWorkflow one
-- that is to be published (Workflows/Publish.antt, publish_validation.go), whose errors of the
-- graph come from two searches over its arrows (Workflows/Graph.antt). Both end in the engine's
-- ValidateAST.
--
-- internal/tasks (module Tasks) keeps the tasks of people, which are active rows of a case: claims,
-- drafts, reassignments and escalations (Tasks/Lifecycle.antt: task_lifecycle.go and
-- task_escalation.go), completions (Tasks/Completion.antt, task_lifecycle.go), the forms of a task
-- (Tasks/Forms.antt, task_forms.go) with the paths into its data (Tasks/Paths.antt), and the status
-- of deadlines, the order of the inbox and the choice of an assignee (Tasks/Sla.antt).
--
-- internal/channels (module Channels: pipeline.go, dedup.go) turns the events of channels into
-- cases, and drops those that are duplicates of recent ones (Channels/Dedup.antt).
--
-- internal/triggers (module Triggers: manager.go, instance.go, health.go) runs the triggers of
-- channels. Start checks a trigger's plugin, contract (Triggers/Contract.antt, contract.go),
-- configuration and driver (Triggers/Startup.antt: manager.go, delivery.go). The messages that a
-- trigger takes from a queue are handled one by one, as the contract's delivery says
-- (Triggers/Delivery.antt: delivery.go, concurrency.go), by the pipeline of channels, to which
-- internal/channels/trigger_adapter.go adapts them.
--
-- internal/mcpserver (module McpServer) offers tools to other agents. ServeHTTP guards a request by
-- its method, depth and key (McpServer/Serve.antt: handler.go, protection.go), where the keys are
-- the rows of a table (McpServer/Keys.antt, auth.go), and then lists or calls the tools
-- (McpServer.antt: visibility.go, ratelimit.go, handler.go).
--
-- internal/reports/validator.go (Reports.antt) inspects the SQL that a language model writes for a
-- report.
--
-- The depth-first search of ValidateAST takes fuel: one more than there are steps, since each call
-- of a path enters another step. The sweeps of computeTransitions take fuel: two for each step and
-- one more, since a step moves twice at most. The retry loop takes as much fuel as the policy
-- allows attempts, since each failed attempt raises the count that is compared with it. The fuel of
-- the reasoning loop is an argument: its limit of tokens is enough where each answer costs one. The
-- two searches of a publish take as fuel the entries of the first queue and all arrows, since each
-- arrow is followed once. The loop in which CompleteTask waits for its task takes 41 rounds: it
-- pauses for 50 milliseconds and ends after 2 seconds.
--
-- JSON documents are values (Json.antt); the text that encoding/json decodes is not modelled.
-- A Go map is an association list (Prelude/Map.antt), as no result depends on its order. A time is
-- a number, and a duration an int64 that wraps (Prelude/Int.antt).
--
-- Arguments of the model are: the evaluator of guards and of rule conditions, the executors of
-- steps, the operator `||` of jsonb, the language model, the clock, the JSON schemas, fmt.Sprint of
-- composite values, SHA-256, the order of float64, the parser of SQL, the roles of a principal, and
-- what the limiters of golang.org/x/time, the runtime of plugins, the drivers of queues, bcrypt and
-- uuid.Parse answer; and, of a request over HTTP, its deadline and whether it comes from this host.
-- Not modelled are the failures of the database itself, logs and metrics, the prompts and messages
-- for the language model, the creation and the queries of tasks, notifications, and the packages
-- that are clients of other systems or SQL.
pub mod Channels
pub mod Prelude
pub mod Json
pub mod Agentic
pub mod CaseData
pub mod Circuit
pub mod Engine
pub mod McpServer
pub mod Reports
pub mod Tasks
pub mod Triggers
pub mod Workflows
