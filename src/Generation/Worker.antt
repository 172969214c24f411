-- ===== src/Generation/Worker.antt =====
-- `_run_generation_agent` of src/etl_agent/workers/tasks.py: the worker that runs the workflow of a queued
-- AgentRun, stores its progress after every node, and freezes the version.
use etl_agent.Domain.{GenerationRequest}
use etl_agent.Prelude.{
  ℕ, suc, String, Bool, true, ◌&&◌, not, Option, none, some, List, [], ◌∷◌, ◌++◌, ◌==◌, any, by,
  save, if◌then◌else◌, or_else, zero,
}
use etl_agent.Prelude.Result.{Result, ok, err}
use etl_agent.Store.{Db, PipelineVersion}
use etl_agent.Float.{FloatOps}
use etl_agent.Validation.Plan.{Checkers}
use etl_agent.Workflow.{Status, Node, Attempt, GenerationState, LlmProvider}
use etl_agent.Workflow.Run.{GenerationResult, WorkflowError, run_generation_workflow, resume}
use etl_agent.Rows.{version_by}
use etl_agent.Generation.{
  AgentRun, GenerationAttempt, GenerationTables, Generator, freeze_version, finish_run,
  last_attempt, new_attempts,
}
use etl_agent.Workflow.{candidate_generated, schema_valid, repairing, intent_parse}
use etl_agent.Workflow.Run.{run_node, after, default_limit, start}
use etl_agent.Commit.{truthy}

-- what leaves the task in place of a status
pub data WorkerError : Type 0 where
  run_missing version_missing provider_unavailable request_invalid not_stored : WorkerError
  workflow_error : WorkflowError → WorkerError

module _ {F : Type 0} ⦃fl : FloatOps F⦄ (provider : LlmProvider F) (checkers : Checkers F)
    (max_repairs : ℕ) where
  -- the collected states that `stream` hands to the callback, in order
  unfoldable pub progress :
      ℕ → Option Node → GenerationState F → GenerationState F → List (GenerationState F)
  unfolding run_node after
  progress limit none state collected = []
  progress zero (some node) state collected = []
  progress (suc limit) (some node) state collected = elim (run_node provider checkers node state) [
    | err e ↦ []
    | ok delta ↦
        delta collected
        ∷ progress limit (after max_repairs node (delta state)) (delta state) (delta collected)
  ]

-- `AgentRunStatus(status_value)`, or RUNNING where it is no such status
abbrev pub run_status : Status → Status
run_status candidate_generated = Status.running
run_status schema_valid = Status.running
run_status repairing = Status.running
run_status status = status

abbrev pub status_after : Option Status → Status → Status
status_after none before = before
status_after (some status) before = run_status status

abbrev pub is_attempt : ℕ → ℕ → GenerationAttempt → Bool
is_attempt run_id number row =
    (row.agent_run_id == run_id) && (row.evidence.attempt_number == number)

-- the row of an attempt changed, or a new one; of several rows the last is the attempt's
unfoldable pub put_attempt : ℕ → Attempt → List GenerationAttempt → List GenerationAttempt
put_attempt run_id a [] = record { agent_run_id = run_id; evidence = a } ∷ []
put_attempt run_id a (row ∷ rows) =
    let rest = put_attempt run_id a rows in
    if is_attempt run_id a.attempt_number row && not (any (is_attempt run_id a.attempt_number) rows)
    then record row { evidence = a } ∷ rows
    else row ∷ rest

unfoldable pub put_attempts : ℕ → List Attempt → List GenerationAttempt → List GenerationAttempt
unfolding put_attempt
put_attempts run_id [] rows = rows
put_attempts run_id (a ∷ rest) rows = put_attempts run_id rest (put_attempt run_id a rows)

module _ {F : Type 0} where
  abbrev pub save_run : AgentRun F → GenerationTables F → GenerationTables F
  save_run run t = record t { agent_runs = save (λ (r : AgentRun F). r.id) run t.agent_runs }

  -- A state that has no count of repairs keeps that of the row; a count that is there is above 0.
  unfoldable pub persist_progress : ℕ → GenerationState F → GenerationTables F → GenerationTables F
  unfolding put_attempts
  persist_progress run_id state t = elim (by (λ (r : AgentRun F). r.id) run_id t.agent_runs) [
    | none ↦ t
    | some run ↦
        record (save_run
          (record run {
            node_trace = state.node_trace;
            status = status_after state.status run.status;
            repair_count = if state.repair_count == 0 then run.repair_count else state.repair_count;
            provider = or_else (truthy state.provider) run.provider;
            model = or_else (truthy state.model) run.model;
            clarification_questions = state.clarification_questions;
            validation_issues = state.validation_issues;
          })
          t) { attempts = put_attempts run_id state.attempts t.attempts }
  ]

  unfoldable pub persist_all :
      ℕ → List (GenerationState F) → GenerationTables F → GenerationTables F
  unfolding persist_progress
  persist_all run_id [] t = t
  persist_all run_id (s ∷ rest) t = persist_all run_id rest (persist_progress run_id s t)

  unfoldable pub fail_run : ℕ → String → GenerationTables F → GenerationTables F
  fail_run run_id code t = elim (by (λ (r : AgentRun F). r.id) run_id t.agent_runs) [
    | none ↦ t
    | some run ↦ save_run (record run { status = Status.failed; error_code = some code }) t
  ]

module _ {F : Type 0} ⦃fl : FloatOps F⦄ (g : Generator F) where
  unfoldable pub store_finished : GenerationResult F → ℕ → GenerationTables F → GenerationTables F
  unfolding finish_run last_attempt new_attempts
  store_finished result run_id t = elim (by (λ (r : AgentRun F). r.id) run_id t.agent_runs) [
    | none ↦ t
    | some run ↦ record (save_run (finish_run g result run) t) {
      attempts = t.attempts ++ new_attempts run_id (last_attempt run_id t.attempts) result.attempts;
    }
  ]

  -- the result stored, unless a unique constraint refuses it, which ends the session
  unfoldable pub store_result :
      GenerationResult F
      → GenerationRequest F
      → AgentRun F
      → PipelineVersion F
      → GenerationTables F
      → Result WorkerError Status × GenerationTables F
  unfolding freeze_version store_finished
  store_result result contexts run version t =
      elim (freeze_version g result.plan contexts version t.db) [
        | err e ↦ (err not_stored, t)
        | ok db ↦ (ok result.status, store_finished result run.id (record t { db = db }))
      ]

  unfoldable pub end_run :
      Result WorkflowError (GenerationResult F)
      → GenerationRequest F
      → AgentRun F
      → PipelineVersion F
      → GenerationTables F
      → Result WorkerError Status × GenerationTables F
  unfolding store_result fail_run
  end_run (ok result) contexts run version t = store_result result contexts run version t
  end_run (err e) contexts run version t =
      (err (workflow_error e), fail_run run.id "WORKFLOW_FAILED" t)

  -- the steps behind the checks, with the states of the progress
  unfoldable pub run_with :
      LlmProvider F
      → GenerationRequest F
      → AgentRun F
      → PipelineVersion F
      → GenerationTables F
      → Result WorkerError Status × GenerationTables F
  unfolding persist_all progress end_run run_generation_workflow
  run_with provider contexts run version t =
      let kept = g.checkpoint run.thread_id in
      let states =
        progress provider g.checkers 1 default_limit (some intent_parse) (resume kept contexts)
          (start contexts) in
      end_run (run_generation_workflow provider g.checkers 1 contexts kept true) contexts run
        version (persist_all run.id states t)

  -- the run of a request, if it validates
  abbrev pub run_request :
      Option (GenerationRequest F)
      → LlmProvider F
      → AgentRun F
      → PipelineVersion F
      → GenerationTables F
      → Result WorkerError Status × GenerationTables F
  run_request none provider run version t =
      (err request_invalid, fail_run run.id "AGENT_REQUEST_INVALID" t)
  run_request (some contexts) provider run version t = run_with provider contexts run version t

  -- the version that the run is bound to, if it is bound to one that is there
  abbrev pub version_of : AgentRun F → Db F → Option (PipelineVersion F)
  version_of run db = elim run.pipeline_version_id [ none ↦ none | some id ↦ version_by id db ]

  -- `client` is the result of `create_llm_provider`, `none` where it raises.
  unfoldable pub run_generation_agent :
      Option (LlmProvider F)
      → ℕ
      → GenerationTables F
      → Result WorkerError Status × GenerationTables F
  unfolding run_with fail_run
  run_generation_agent client run_id t = elim (by (λ (r : AgentRun F). r.id) run_id t.agent_runs) [
    | none ↦ (err run_missing, t)
    | some run ↦ elim (version_of run t.db) [
      | none ↦ (err version_missing, fail_run run_id "VERSION_NOT_FOUND" t)
      | some version ↦ elim client [
        | none ↦ (err provider_unavailable, fail_run run_id "LLM_PROVIDER_UNAVAILABLE" t)
        | some provider ↦ run_request run.request provider run version t
      ]
    ]
  ]
