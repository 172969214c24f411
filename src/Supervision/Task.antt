-- ===== src/Supervision/Task.antt =====
-- `supervise_execution_run` of src/etl_agent/workers/supervision.py, and the task of
-- src/etl_agent/workers/tasks.py that runs it and queues the action that follows.
use etl_agent.Prelude.{
  ℕ, Bool, true, false, ◌&&◌, not, none, some, List, [], ◌==◌, any, insert, if◌then◌else◌,
}
use etl_agent.Prelude.Result.{Result, ok, err, ◌>>=◌, ◌>>◌, guard, require}
use etl_agent.Prelude.Text.{Text}
use etl_agent.Prelude.Dict.{Dict}
use etl_agent.Store.{ExecutionRunStatus, Db, ExecutionRun}
use etl_agent.Float.{FloatOps}
use etl_agent.Domain.{QualityContract, RuntimeBudget, default_budget, default_contract}
use etl_agent.Quality.{
  Metric, QualityAssessment, BudgetAssessment, BudgetDecision, hard_stop, continue, assess_budget,
  assess_quality,
}
use etl_agent.Rows.{save_execution, execution_by, preparation_by, version_by}
use etl_agent.Dispatch.{is_cancelled}
use etl_agent.Supervision.{
  text_or, EngineJobStatus, EngineStatus, Decision, budget_decision, RuntimeSupervisionSnapshot,
  ExecutionQualityResult, Observer, Supervised, SupervisionError, execution_missing, job_id_missing,
  plan_invalid, engine_error, capture_rows, fail_capture, succeed, fail_job, complete_at,
}
use etl_agent.Actions.{has_text}

-- What a look at the engine leaves: the row, the metrics, the decision, and whether the rejected rows
-- could not be captured.
pub record Observed : Type 0 where
  pub execution : ExecutionRun
  pub metrics : Dict Metric
  pub decision : Decision
  pub capture_failed : Bool

abbrev pub seen : Decision → Dict Metric → ExecutionRun → Observed
seen decision metrics execution = record {
  execution = execution;
  metrics = metrics;
  decision = decision;
  capture_failed = false;
}

abbrev pub is_hard_stop : BudgetDecision → Bool
is_hard_stop hard_stop = true
is_hard_stop continue = false

abbrev pub is_succeeded : EngineJobStatus → Bool
is_succeeded EngineJobStatus.succeeded = true
is_succeeded _ = false

module _ {F : Type 0} ⦃fl : FloatOps F⦄ where
  -- `_runtime_budget_for_execution`
  unfoldable pub runtime_budget_for_execution : Db F → ExecutionRun → RuntimeBudget F
  unfolding default_budget
  runtime_budget_for_execution db execution = elim (preparation_by execution.preparation_id db) [
    | some preparation ↦ preparation.runtime_budget
    | none ↦ default_budget
  ]

  -- `_quality_contract_for_execution`; the plan of a version without one is invalid
  unfoldable pub quality_contract_for_execution :
      Db F → ExecutionRun → Result SupervisionError (QualityContract F)
  unfolding default_contract
  quality_contract_for_execution db execution = elim (version_by execution.pipeline_version_id db) [
    | some version ↦ require version.quality_contract plan_invalid
    | none ↦ ok default_contract
  ]

  module _ (observer : Observer F) where
    unfoldable pub observe_success :
        Db F → Decision → Dict Metric → ℕ → ExecutionRun → Result SupervisionError Observed
    unfolding capture_rows fail_capture succeed assess_quality quality_contract_for_execution
    observe_success db decision metrics now execution =
        elim (capture_rows observer execution metrics) [
          | err e ↦ ok (record {
            execution = fail_capture observer metrics now execution;
            metrics = metrics;
            decision = decision;
            capture_failed = true;
          })
          | ok captured ↦ do
            contract ← quality_contract_for_execution db execution
            ok (
                seen decision captured
                  (succeed observer (assess_quality contract captured) captured now execution))
        ]

    -- the branches on the status of the job
    unfoldable pub observe_job :
        Db F → BudgetDecision → EngineStatus → ℕ → ExecutionRun → Result SupervisionError Observed
    unfolding observe_success fail_job
    observe_job db budget status now execution =
        let decision = budget_decision budget in
        elim status.status [
          | EngineJobStatus.running ↦ ok (
              seen decision status.metrics (
                if is_hard_stop budget
                then record execution { status = ExecutionRunStatus.cancel_requested }
                else execution))
          | EngineJobStatus.succeeded ↦ observe_success db decision status.metrics now execution
          | EngineJobStatus.failed ↦
              ok (seen decision status.metrics (fail_job status.detail now execution))
          | EngineJobStatus.cancelled ↦ ok (
              seen decision status.metrics
                (complete_at now (record execution { status = ExecutionRunStatus.cancelled })))
          | EngineJobStatus.unknown ↦ ok (seen Decision.unknown status.metrics execution)
          | EngineJobStatus.queued ↦ ok (seen decision status.metrics execution)
        ]

    unfoldable pub observe :
        Db F → BudgetDecision → EngineStatus → ℕ → ExecutionRun → Result SupervisionError Observed
    unfolding observe_job
    observe db budget status now execution =
        if is_cancelled execution.status
        then ok (seen Decision.cancel_requested status.metrics execution)
        else observe_job db budget status now execution

    abbrev pub snapshot_of : EngineStatus → BudgetAssessment → Observed → RuntimeSupervisionSnapshot
    snapshot_of status budget o = record {
      project_id = o.execution.project_id;
      execution_run_id = o.execution.id;
      engine_status = status.status;
      decision = o.decision;
      observed_metrics = o.metrics;
      exceeded_budget_fields = budget.exceeded;
      detail = status.detail;
    }

    abbrev pub is_result_of : ℕ → ExecutionQualityResult F → Bool
    is_result_of id r = r.execution_run_id == id

    -- the result, unless the execution has one
    unfoldable pub add_result :
        QualityAssessment F
        → ExecutionRun
        → List (ExecutionQualityResult F)
        → List (ExecutionQualityResult F)
    add_result quality execution results =
        if any (is_result_of execution.id) results
        then results
        else insert
            (record {
              project_id = execution.project_id;
              execution_run_id = execution.id;
              assessment = quality;
              shadow_table = execution.shadow_table;
              error_table = execution.error_table;
            })
            results

    unfoldable pub record_result :
        Db F
        → EngineStatus
        → Observed
        → List (ExecutionQualityResult F)
        → Result SupervisionError (List (ExecutionQualityResult F))
    unfolding add_result assess_quality quality_contract_for_execution
    record_result db status o results =
        if is_succeeded status.status
          && not o.capture_failed
          && not (is_cancelled o.execution.status)
        then (quality_contract_for_execution db o.execution >>= λ contract.
            ok (add_result (assess_quality contract o.metrics) o.execution results))
        else ok results

    abbrev pub as_engine_error : {A : Type 0} → Result Text A → Result SupervisionError A
    as_engine_error (ok a) = ok a
    as_engine_error (err e) = err (engine_error e)

    -- the row with a job, observed
    unfoldable pub supervise_row :
        ExecutionRun
        → EngineStatus
        → ℕ
        → Supervised F
        → Result SupervisionError (ExecutionRun × Supervised F)
    unfolding observe record_result assess_budget runtime_budget_for_execution
    supervise_row execution status now s = do
      let budget = assess_budget (runtime_budget_for_execution s.db execution) status.metrics
      o ← observe s.db budget.decision status now execution
      results ← record_result s.db status o s.results
      ok (
        o.execution,
        record {
          db = save_execution o.execution s.db;
          snapshots = insert (snapshot_of status budget o) s.snapshots;
          results = results;
        },
      )

    unfoldable pub supervise_execution_run :
        ℕ → ℕ → Supervised F → Result SupervisionError (ExecutionRun × Supervised F)
    unfolding supervise_row
    supervise_execution_run execution_id now s = do
      execution ← require (execution_by execution_id s.db) execution_missing
      guard (has_text execution.engine_job_id) job_id_missing
      status ← as_engine_error (observer.get_status (text_or [] execution.engine_job_id))
      supervise_row execution status now s
