-- ===== src/Tests/Supervision.antt =====
-- Runs of src/etl_agent/workers/supervision.py and of its task.
use etl_agent.Prelude.{
  ◌≢◌, ℕ, ◌≤◌, ◌≡◌, refl, ◌⊎◌, true, false, Option, none, some, [], ◌∷◌, find, by, save, insert,
  arith,
}
use etl_agent.Prelude.Result.{Result, ok, err}
use etl_agent.Prelude.Text.{codes}
use etl_agent.Prelude.Dict.{get}
use etl_agent.Store.{
  cleanup, swap, cancel, ExecutionRunStatus, PublishStatus, QualityStatus, ExecutionRun,
  OutboxEvent,
}
use etl_agent.Domain.{default_budget, default_contract}
use etl_agent.Quality.{number, assess_budget, assess_quality}
use etl_agent.Rows.{execution_by}
use etl_agent.Prelude.Dict.{null, put, merge}
use etl_agent.Supervision.{
  EngineJobStatus, Observer, Supervised, SupervisionError, capture_rows, succeed,
}
use etl_agent.Actions.{has_text, queue_execution_action}
use etl_agent.Supervision.Task.{
  supervise_execution_run, supervise_row, observe, observe_job, observe_success, record_result,
  add_result, quality_contract_for_execution, runtime_budget_for_execution,
}
use etl_agent.Float.{Ratio, ratio_ops}
use etl_agent.Tests.Dispatch.{sample_execution, queued_tables}
use etl_agent.Tests.Data.{services, request_at, sample_version}
use etl_agent.Supervision.Kept.{supervise_execution_run_publish, supervise_execution_run_cancelled}
use etl_agent.Supervision.Results.{supervise_execution_run_results, result_count}
use etl_agent.Supervision.Queued.{HasLive, supervise_task_queued}
use etl_agent.Supervision.Follow.{
  supervise_task, next_action, runtime_target_metadata, TaskError, queue_next,
}
use etl_agent.Supervision.{name_tables, optional_name, published_or_cleaned}
use etl_agent.Quality.{
  non_negative_int, missing_fields, reported_missing, distinct_texts, exceeded_fields,
}
use etl_agent.Actions.{find_last, issue_action_token}
use etl_agent.Capability.{
  action_claims, are_valid_claims, encode_part, issue_capability, issue_valid,
  issue_execution_action_capability,
}
use etl_agent.Prelude.Sort.{sort_texts}

-- an engine that reports a job as succeeded, with all ten records written
abbrev sample_observer : Observer Ratio
sample_observer = record {
  get_status = λ job. ok (record {
    status = EngineJobStatus.succeeded;
    detail = none;
    metrics = ("input_records", number 10) ∷ ("output_records", number 10) ∷ [];
  });
  capture_rejected_rows = none;
  metric_json = λ m. null;
  quality_json = λ q. null;
}

abbrev running_execution : ExecutionRun
running_execution = record sample_execution {
  status = ExecutionRunStatus.running;
  engine_job_id = some (codes "job");
}

abbrev tables_with : ExecutionRun → Supervised Ratio
tables_with e = record {
  db = record queued_tables {
    versions = record sample_version { quality_contract = some default_contract } ∷ [];
    executions = e ∷ [];
  };
  snapshots = [];
  results = [];
}

abbrev pair_or :
    ExecutionRun × Supervised Ratio
    → Result SupervisionError (ExecutionRun × Supervised Ratio)
    → ExecutionRun × Supervised Ratio
pair_or p (ok q) = q
pair_or p (err e) = p

abbrev supervised : ExecutionRun → ExecutionRun × Supervised Ratio
supervised e =
    pair_or (e, tables_with e) (supervise_execution_run sample_observer 50 2000 (tables_with e))

supervises :
    supervise_execution_run sample_observer 50 2000 (tables_with running_execution)
    ≡ ok ((supervised running_execution).0, (supervised running_execution).1)
unfolding supervise_execution_run supervise_row observe observe_job observe_success capture_rows
    succeed name_tables optional_name assess_quality non_negative_int missing_fields
    reported_missing distinct_texts sort_texts get quality_contract_for_execution default_contract
    by find assess_budget exceeded_fields runtime_budget_for_execution default_budget record_result
    add_result put merge insert
supervises = refl

abbrev stopped_execution : ExecutionRun
stopped_execution = record running_execution { status = ExecutionRunStatus.cancel_requested }

supervises_stopped :
    supervise_execution_run sample_observer 50 2000 (tables_with stopped_execution)
    ≡ ok ((supervised stopped_execution).0, (supervised stopped_execution).1)
unfolding supervise_execution_run supervise_row observe observe_job observe_success capture_rows
    succeed name_tables optional_name assess_quality non_negative_int missing_fields
    reported_missing distinct_texts sort_texts get quality_contract_for_execution default_contract
    by find assess_budget exceeded_fields runtime_budget_for_execution default_budget record_result
    add_result put merge insert
supervises_stopped = refl

finds : execution_by 50 (tables_with running_execution).db ≡ some running_execution
unfolding by find
finds = refl

finds_stopped : execution_by 50 (tables_with stopped_execution).db ≡ some stopped_execution
unfolding by find
finds_stopped = refl

supervise_execution_run_publish_example :
    let row = (supervised running_execution).0 in
    (row.publish_status ≡ running_execution.publish_status)
    ⊎ ((row.publish_status ≡ PublishStatus.swap_requested)
        × (published_or_cleaned running_execution.publish_status ≡ false)
        × (row.status ≡ ExecutionRunStatus.succeeded)
        × (row.quality_status ≡ QualityStatus.passed))
supervise_execution_run_publish_example =
    supervise_execution_run_publish sample_observer 50 2000 (tables_with running_execution)
      running_execution (supervised running_execution).0 (supervised running_execution).1 finds
      supervises

-- the swap is requested
requests_swap : (supervised running_execution).0.publish_status ≡ PublishStatus.swap_requested
unfolding supervise_execution_run supervise_row observe observe_job observe_success capture_rows
    succeed name_tables optional_name assess_quality non_negative_int missing_fields
    reported_missing distinct_texts sort_texts get quality_contract_for_execution default_contract
    by find assess_budget exceeded_fields runtime_budget_for_execution default_budget record_result
    add_result put merge insert
requests_swap = refl

supervise_execution_run_cancelled_example :
    let after = supervised stopped_execution in
    (after.0 ≡ stopped_execution)
    × (execution_by 50 after.1.db ≡ some stopped_execution)
    × (after.1.results ≡ [])
supervise_execution_run_cancelled_example =
    supervise_execution_run_cancelled sample_observer 50 2000 (tables_with stopped_execution)
      stopped_execution (supervised stopped_execution).0 (supervised stopped_execution).1
      finds_stopped refl supervises_stopped

no_results : (id : ℕ) → result_count sample_observer id [] ≤ 1
no_results id = omega arith

supervise_execution_run_results_example :
    result_count sample_observer 50 (supervised running_execution).1.results ≤ 1
supervise_execution_run_results_example =
    supervise_execution_run_results sample_observer 50 2000 (tables_with running_execution)
      (supervised running_execution).0 (supervised running_execution).1 no_results supervises 50

abbrev task : Result TaskError (ExecutionRunStatus × Option OutboxEvent) × Supervised Ratio
task =
    supervise_task services sample_observer (request_at 1000) 50 2000
      (tables_with running_execution)

abbrev event_of : Result TaskError (ExecutionRunStatus × Option OutboxEvent) → Option OutboxEvent
event_of (ok (status, event)) = event
event_of (err e) = none

task_runs : task ≡ (ok (ExecutionRunStatus.succeeded, event_of task.0), task.1)
unfolding supervise_execution_run supervise_row observe observe_job observe_success capture_rows
    succeed name_tables optional_name assess_quality non_negative_int missing_fields
    reported_missing distinct_texts sort_texts get quality_contract_for_execution default_contract
    by find assess_budget exceeded_fields runtime_budget_for_execution default_budget record_result
    add_result put merge insert supervise_task queue_next next_action runtime_target_metadata
    queue_execution_action issue_action_token issue_execution_action_capability issue_valid
    issue_capability encode_part are_valid_claims action_claims find_last save
task_runs = refl

supervise_task_queued_example :
    (e : ExecutionRun) × (execution_by 50 task.1.db ≡ some e)
    × (ExecutionRunStatus.succeeded ≡ e.status)
    × (e.status ≡ ExecutionRunStatus.cancel_requested
        → HasLive services sample_observer 50 cancel task.1.db)
    × (e.status ≢ ExecutionRunStatus.cancel_requested
        → e.publish_status ≡ PublishStatus.swap_requested
        → HasLive services sample_observer 50 swap task.1.db)
    × (e.status ≡ ExecutionRunStatus.failed
        → e.publish_status ≢ PublishStatus.swap_requested
        → has_text e.engine_job_id ≡ true
        → HasLive services sample_observer 50 cleanup task.1.db)
supervise_task_queued_example =
    supervise_task_queued services sample_observer (request_at 1000) 50 2000
      (tables_with running_execution) task.1 ExecutionRunStatus.succeeded (event_of task.0)
      task_runs
