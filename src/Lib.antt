-- ===== src/Lib.antt =====
-- The control plane of an ETL agent (Python, src/etl_agent). Users prepare a generated pipeline,
-- checkers approve it, an operator commits it, and workers run it on an external engine.
--
-- Parts and files:
-- - Prelude: Boolean tests on numbers, lists, tables of rows with an id, Python's `str` methods and
--   `dict`, results with an error.
-- - Float, Domain: the models of src/etl_agent/domain/generation.py; floats are an interface.
-- - Policy: src/etl_agent/harness/pdp.py (`decide_policy`) and harness/models.py.
-- - Capability: harness/capability.py and harness/actions.py: tokens, and the replay guard (Replay).
-- - Ledger: harness/ledger.py: the hash chain of evidence.
-- - Store, Rows, Api, Services: infrastructure/models.py, the ends of a request handler, and what
--   handlers take from outside. Access: api/auth_dependencies.py and api/projects.py.
-- - Prepare, Approval, Commit: `prepare_version`, `decide_approval` and `commit_preparation` of
--   api/preparations.py.
-- - Actions: workers/actions.py, and the cancel and rollback requests of api/preparations.py.
-- - Dispatch: workers/dispatcher.py, the tool broker; its steps are in Dispatch/Broker.
-- - Quality: workers/quality.py: the assessments of quality and of the budget.
-- - Values, Validation: workflows/validation.py: JSON values; the markers of a request, the parsing and
--   the deterministic gate (Validation/Plan).
-- - Workflow: workflows/graph.py: the nodes; the edges and `run_generation_workflow` in Workflow/Run.
-- - Supervision: workers/supervision.py (Supervision/Task), and `_supervise_execution_run` of
--   workers/tasks.py (Supervision/Follow).
-- - Generation: `generate_version` of api/generation.py, which runs the workflow for a draft, and (Worker)
--   `_run_generation_agent` of workers/tasks.py, which does so for a queued run. Queue has the requests
--   that queue one: `start_async_generation` and `answer_agent_run`.
-- - Tests: runs on sample rows.
--
-- A handler is a function from the tables (`Db`) to an `Outcome`: its reply and the tables it
-- leaves, so that interleavings are sequences of handlers. The handlers of api/preparations.py that
-- change shared rows lock them, and the broker and the supervision do; `add_project_member` and the
-- generation take no lock, and are one step of the model all the same, so that what is shown of
-- them holds of requests that do not overlap. A handler that raises before its commit leaves the
-- tables unchanged (`run_handler`). JSON, Base64, Ed25519, SHA-256 and Redis are parameters with
-- their documented laws (`CodecLaws`, `RedisLaws`); ids that `uuid4` returns are part of the
-- request. The generation graph is run on a state that every node changes, on the 25 steps that
-- LangGraph allows by default; the search for a marker has one step for each place of the text.
-- Both are enough, as Workflow/Bounds and Validation/Markers prove. All else is structurally
-- recursive.
--
-- Pydantic's `str_strip_whitespace` is `trim`; where a model demands a character and none is left, the
-- handler raises (`validation_error`). A run's stored request is what it validates to, or nothing.
--
-- Not modelled: HTTP, Celery, the ORM, the language model, JSON Schema, pydantic's other checks,
-- HOCON parsing, SQL against live databases, the engine's HTTP client, the web client; their
-- results are parameters where a part relies on them. Profiling and the benchmark are left for
-- later.
pub mod Prelude
pub mod Float
pub mod Domain
pub mod Policy
pub mod Capability
pub mod Ledger
pub mod Store
pub mod Api
pub mod Rows
pub mod Services
pub mod Access
pub mod Approval
pub mod Commit
pub mod Actions
pub mod Dispatch
pub mod Quality
pub mod Prepare
pub mod Values
pub mod Validation
pub mod Workflow
pub mod Supervision
pub mod Generation
pub mod Tests
