-- ===== src/Lib.antt =====
-- AI risk engine: a model of the program's core and the theorems about it.
--
-- The program takes risk and compliance events over HTTP, stores them, and runs each through a fixed
-- workflow of five nodes that ends in a decision: approved, or an approval is required. Around it
-- stand a life cycle and validators of events, roles and tenants, registries of models and prompts,
-- approvals with an audit trail, and in-memory observability.
--
-- The parts, and the files that model them:
--
-- - app/domain: Domain. Status and Event are the life cycle and the entities of models/event.py,
--   Schema the request schemas, Validators the functions of validators/event_validator.py. Theorems
--   stand in Lifecycle and Requests.
-- - app/*/exceptions.py: Error, the classes of exceptions as a data type with the relation isinstance.
-- - app/security: Security. Rbac is rbac.py and TenantContext is tenant_context.py, with theorems in
--   Access; Encryption is encryption.py over a cipher.
-- - app/governance: Governance. Audit, Approval, Models and Prompts are the services of
--   audit_logger.py, approval_workflow.py, model_registry.py and prompt_registry.py. The repositories
--   are protocols in the source, so each is a record of operations and laws over an abstract state,
--   which the service takes as a parameter. InMemory has instances of all of them.
-- - app/observability: Observability, one module for each service.
-- - app/api and main.py: Api. Http has requests and responses, Convert the conversion of bodies into
--   events, Routers the handlers, App the exception handlers and middlewares and the way of a request
--   through them, and Wiring the event service as dependencies.py builds it. Theorems stand below
--   Routers, App and Wiring.
-- - app/infrastructure: Infrastructure. Redis is redis_client.py over the commands of a server,
--   RedisEvents and DbEvents the two event repositories, Repository the generic repository of tables,
--   Publisher rabbitmq_publisher.py, and WorkflowStates the state store of app/workflows/langgraph. The
--   stores fill the interfaces of the services that use them. InMemory and Samples are concrete servers.
-- - app/application: Application. Service is event_service.py over a repository, a publisher, a trigger
--   and a cache, which are parameters with an abstract state each.
-- - app/workflows/langgraph: Workflow. State has the states, Nodes and Compliance the nodes, and Engine
--   the function run of risk_workflow.py, with the run of its nodes in Engine/NodeRuns.
--   compliance_workflow.py repeats that function with other nodes and names, so Engine is over a Kind,
--   of which Kinds has the two. Theorems stand in Decides, Cache, Hooks and Spans.
-- - app/scalability: Scalability. CircuitBreaker is circuit_breaker.py: a breaker is shared between calls
--   that wait, so its critical sections are steps of a relation. Autoscaling is autoscaling_policy.py
--   and Partition is workload_partitioning.py. DistributedLock has the steps of nodes that lock through
--   one backend, Bulkhead those of callers and a worker, RateLimiter the sliding window, and
--   HealthMonitor the checks.
--
-- A call that changes state and may raise is a function from a state to a result and the new state
-- (Exec); a raise keeps what was written before. Clock readings, drawn identifiers and the text of
-- floats are arguments. Python models what the source uses of its language: integers, doubles as a
-- number over a power of two with the infinities and NaN, texts, dicts in insertion order, and the
-- values of JSON. Rounding is not modelled: the arithmetic of doubles is a parameter (Arithmetic), and
-- only comparisons and literals are concrete. Loops are structural recursion; only the digits of a
-- number n run on fuel, n + 1 of it, which is more than its digits.
--
-- Servers and libraries are parameters: the commands of Redis, the session of the database library, the
-- client of the broker, the cipher, the parsing and writing of JSON, and what the web framework does
-- before a handler. Each is a record of functions with laws that state what its documentation says.
-- Time to live is not counted: an entry that runs out of time is a step of its own where several nodes
-- share a server, and elsewhere a theorem says of what is stored.
--
-- States of a workflow are stored as JSON: the store is an interface over states that JSON can hold,
-- which no NaN is, and a column of JSON may give metadata back in another form.
--
-- Not modelled: routing and the parsing of requests, which are the framework's; the log; settings; the
-- set-up of the database session. The event repository and the response cache share one Redis in the
-- program, under keys with different beginnings; here each has a state of its own.
pub mod Base
pub mod Api
pub mod Python
pub mod Error
pub mod Exec
pub mod Domain
pub mod Security
pub mod Governance
pub mod Observability
pub mod Application
pub mod Infrastructure
pub mod Workflow
pub mod Scalability
