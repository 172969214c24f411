-- ===== src/Generation/Queue.antt =====
-- src/etl_agent/api/generation.py: `start_async_generation` and `answer_agent_run`, which queue a run for
-- the worker. `enqueued` is whether the task queue takes it.
use etl_agent.Domain.{GenerationRequest}
use etl_agent.Prelude.{ℕ, Bool, true, false, not, Option, some, [], ◌∷◌, any, by, insert, or_else}
use etl_agent.Prelude.Result.{ok, err, ◌>>=◌, ◌>>◌, guard, require}
use etl_agent.Prelude.Text.{Text, text_eq}
use etl_agent.Float.{FloatOps}
use etl_agent.Workflow.{Status}
use etl_agent.Api.{
  agent_request_invalid, version_not_found, api_error, Outcome, Body, run_handler, integrity_error,
}
use etl_agent.Access.{require_project_role}
use etl_agent.Services.{Request}
use etl_agent.Store.{maker}
use etl_agent.Generation.{
  GenerationStartRequest, AgentRun, GenerationTables, Generator, thread_of,
  prepare_generation_context, new_run,
}
use etl_agent.Generation.Worker.{save_run}
use etl_agent.Api.{agent_run_not_found, agent_run_not_waiting, generation_queue_unavailable}
use etl_agent.Workflow.{needs_clarification}
use etl_agent.Workflow.Run.{is_status}

abbrev pub unqueued : {F : Type 0} → AgentRun F → AgentRun F
unqueued run = record run {
  status = Status.failed;
  error_code = some "GENERATION_QUEUE_UNAVAILABLE";
}

module _ {F : Type 0} where
  -- a row that is committed, and the end of the request
  unfoldable pub queue_run :
      Bool → AgentRun F → GenerationTables F → Body (GenerationTables F) (AgentRun F)
  queue_run true run t = ok (ok run, t)
  queue_run false run t =
      ok (err (api_error generation_queue_unavailable 503), save_run (unqueued run) t)

module _ {F : Type 0} ⦃fl : FloatOps F⦄ (g : Generator F) where
  unfoldable pub start_body :
      Bool
      → ℕ
      → GenerationStartRequest F
      → Request
      → GenerationTables F
      → Body (GenerationTables F) (AgentRun F)
  unfolding prepare_generation_context new_run queue_run
  start_body enqueued version_id payload request t = do
    (version, pipeline, contexts) ← prepare_generation_context g version_id payload request t.db
    guard (not (any (λ (r : AgentRun F). text_eq r.thread_id (thread_of g payload)) t.agent_runs))
        (api_error integrity_error 500)
    let run = new_run g payload version pipeline contexts
    queue_run enqueued run (record t { agent_runs = insert run t.agent_runs })

  unfoldable pub start_async_generation :
      Bool
      → ℕ
      → GenerationStartRequest F
      → Request
      → GenerationTables F
      → Outcome (GenerationTables F) (AgentRun F)
  unfolding start_body
  start_async_generation enqueued version_id payload request t =
      run_handler t (start_body enqueued version_id payload request t)

module _ {F : Type 0} where
  -- the run with its request answered; of the answers only that on the incremental field is read
  unfoldable pub answered_run : Option Text → GenerationRequest F → AgentRun F → AgentRun F
  answered_run answer previous run = record run {
    request =
        some (record previous { incremental_field = or_else answer previous.incremental_field });
    status = Status.running;
    clarification_questions = [];
  }

  unfoldable pub answer_body :
      Bool → ℕ → Option Text → Request → GenerationTables F → Body (GenerationTables F) (AgentRun F)
  unfolding require_project_role answered_run queue_run
  answer_body enqueued run_id answer request t = do
    run ←
        require (by (λ (r : AgentRun F). r.id) run_id t.agent_runs)
          (api_error agent_run_not_found 404)
    roles ← require_project_role t.db run.project_id request.user (maker ∷ [])
    version_id ← require run.pipeline_version_id (api_error version_not_found 409)
    guard (is_status run.status needs_clarification) (api_error agent_run_not_waiting 409)
    previous ← require run.request (api_error agent_request_invalid 409)
    let waiting = answered_run answer previous run
    queue_run enqueued waiting (save_run waiting t)

  unfoldable pub answer_agent_run :
      Bool
      → ℕ
      → Option Text
      → Request
      → GenerationTables F
      → Outcome (GenerationTables F) (AgentRun F)
  unfolding answer_body
  answer_agent_run enqueued run_id answer request t =
      run_handler t (answer_body enqueued run_id answer request t)
