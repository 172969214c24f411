-- ===== src/Tests/Dispatch.antt =====
-- Runs of the execution actions and of the tool broker.
use etl_agent.Access.{roles_of, require_project_membership, require_project_role}
use etl_agent.Dispatch.Once.{capability_calls_once}
use etl_agent.Dispatch.Late.{cancel_before_submit}
use etl_agent.Dispatch.Settled.{dispatch_again, failure_detail_bounds}
use etl_agent.Dispatch.Calls.{dispatch-IsAuthorizedCall, IsAuthorizedCall}
use etl_agent.Rows.{execution_by, event_by}
use etl_agent.Actions.{
  find_last, queue_user_action, rollback_execution_run, request_cancel, cancel_body, add_action,
  issue_action_token, cancel_execution_run, queue_execution_action,
}
use etl_agent.Actions.Single.{user_actions-IsSingle, queue_execution_action-IsSingle, IsSingle}
use etl_agent.Dispatch.Broker.{
  publish, settle, submit_to_engine, submit_payload, perform, after_consumption, authorize, attempt,
  dispatch_pending, dispatch_found, dispatch_outbox_event, Broker,
}
use etl_agent.Tests.Capability.{sample_redis_laws, between, guard_config, sample_redis, Keys, token}
use etl_agent.Tests.Data.{request_at, services, approved_tables, sha}
use etl_agent.Prelude.{
  ◌≤◌, ◌≡◌, refl, sym, ap, ◌∙◌, ◌⊎◌, true, false, none, some, [], ◌∷◌, ◌==◌, any, find, by, insert,
  length, arith,
}
use etl_agent.Prelude.Result.{is_ok, ok}
use etl_agent.Prelude.Text.{codes}
use etl_agent.Store.{
  first_time, RollbackStatus, ExecutionRunStatus, OutboxEventStatus, PublishStatus, QualityStatus,
  submit, swap, execution_event, Db, ExecutionRun, OutboxEvent,
}
use mathlib.Core.Bool.{true≢false}
use etl_agent.Float.{Ratio}
use etl_agent.Dispatch.{
  complete, expected_tool, check_bindings, failure_detail, Outside, Engine, replayed,
}
use etl_agent.Capability.Replay.{consume_once, consume_all}
use etl_agent.Capability.{
  verify_capability, action_claims, are_valid_claims, encode_part, issue_capability, issue_valid,
  issue_execution_action_capability, verify_parts, decode_part, split_dot,
}

abbrev pub sample_execution : ExecutionRun
sample_execution = record {
  id = 50;
  project_id = 5;
  preparation_id = 10;
  pipeline_version_id = 7;
  created_by = 1;
  status = ExecutionRunStatus.queued;
  engine_job_id = none;
  idempotency_key = codes "key";
  artifact_digest = sha;
  input_fingerprint = codes "f";
  capability_token_digest = codes "d";
  correlation_id = "r";
  committed_at = 1000;
  started_at = none;
  completed_at = none;
  metrics = [];
  error_code = none;
  error_detail = none;
  quality_status = QualityStatus.pending;
  publish_status = PublishStatus.not_started;
  rollback_status = RollbackStatus.not_requested;
  shadow_table = none;
  error_table = none;
}

abbrev submission : OutboxEvent
submission = record {
  id = 60;
  project_id = 5;
  aggregate_id = 50;
  event_type = execution_event submit;
  deduplication_key = first_time (execution_event submit) 50;
  status = OutboxEventStatus.pending;
  attempts = 0;
  payload = [];
  capability_token = token;
  last_error = none;
  published_at = none;
}

abbrev pub queued_tables : Db Ratio
queued_tables = record approved_tables {
  executions = sample_execution ∷ [];
  outbox = submission ∷ [];
}

abbrev sample_engine : Engine
sample_engine = record {
  submit = λ calls payload. ok (codes "job");
  cancel = λ calls job. ok true;
  act = λ calls action job payload. ok true;
}

abbrev broker : Broker Ratio Keys (Unit {0}) (Unit {0})
broker = record {
  services = services;
  public_key = tt;
  redis = sample_redis;
  guard_config = guard_config;
  replay_ttl_seconds = 300;
  engine = sample_engine;
  runtime_compiler = none;
}

abbrev outside : Outside Keys
outside = record { replay = []; calls = [] }

-- one submission for the execution
queued-IsSingle : IsSingle queued_tables.outbox
queued-IsSingle execution_id event_type = ground arith

user_actions-IsSingle_example :
    IsSingle
      (cancel_execution_run services 50 (codes "stop") (request_at 1000) queued_tables).1.outbox
    × IsSingle
        (rollback_execution_run services 50 (codes "stop") (request_at 1000) queued_tables).1.outbox
user_actions-IsSingle_example =
    user_actions-IsSingle services 50 (codes "stop") (request_at 1000) queued_tables queued-IsSingle

queues :
    queue_execution_action services
      (request_at 1000)
      sample_execution
      (execution_event swap)
      "seatunnel.submit"
      []
      queued_tables
    ≡ some (
        let added =
          add_action services
            (request_at 1000)
            sample_execution
            (execution_event swap)
            1
            (codes "system")
            []
            token
            queued_tables in
        (some added.0, added.1))
unfolding queue_execution_action issue_action_token issue_execution_action_capability issue_valid
    issue_capability encode_part are_valid_claims action_claims find_last by find
queues = refl

queue_execution_action-IsSingle_example :
    IsSingle
      (add_action services
        (request_at 1000)
        sample_execution
        (execution_event swap)
        1
        (codes "system")
        []
        token
        queued_tables).1.outbox
queue_execution_action-IsSingle_example =
    queue_execution_action-IsSingle services (request_at 1000) sample_execution
      (execution_event swap) "seatunnel.submit" [] queued_tables queues queued-IsSingle

dispatch-IsAuthorizedCall_example :
    let after = (dispatch_outbox_event broker 60 1000 queued_tables outside).2 in
    (after.calls ≡ []) ⊎ IsAuthorizedCall broker 60 1000 queued_tables outside after
dispatch-IsAuthorizedCall_example = dispatch-IsAuthorizedCall broker 60 1000 queued_tables outside

calls_engine : length (dispatch_outbox_event broker 60 1000 queued_tables outside).2.calls ≡ 1
unfolding dispatch_outbox_event dispatch_found dispatch_pending attempt authorize check_bindings
    expected_tool verify_capability verify_parts decode_part split_dot are_valid_claims consume_once
    after_consumption perform submit_payload submit_to_engine by find
calls_engine = refl

succeeds : is_ok (dispatch_outbox_event broker 60 1000 queued_tables outside).0 ≡ true
unfolding dispatch_outbox_event dispatch_found dispatch_pending attempt authorize check_bindings
    expected_tool verify_capability verify_parts decode_part split_dot are_valid_claims consume_once
    after_consumption perform submit_payload submit_to_engine settle publish complete by find
succeeds = refl

is_found : event_by 60 queued_tables ≡ some submission
unfolding by
is_found = refl

is_execution : execution_by 50 queued_tables ≡ some sample_execution
unfolding by
is_execution = refl

capability_calls_once_example :
    let after = (dispatch_outbox_event broker 60 1000 queued_tables outside).2 in
    (dispatch_outbox_event broker 60 1200 queued_tables (record {
      replay = consume_all sample_redis guard_config between after.replay;
      calls = [];
    })).2.calls
    ≡ []
capability_calls_once_example =
    capability_calls_once broker sample_redis_laws 60 60 1000 1200 queued_tables queued_tables
      outside [] between submission submission is_found is_found refl (omega arith)
      (λ e. absurd (omega (arith, calls_engine, e)))

failure_detail_bounds_example :
    (1 ≤ length (failure_detail replayed))
    × (length (failure_detail replayed) ≤ 512)
    × (any (λ c. c == b'\n') (failure_detail replayed) ≡ false)
failure_detail_bounds_example = failure_detail_bounds replayed

dispatch_again_example :
    let after = dispatch_outbox_event broker 60 1000 queued_tables outside in
    ((dispatch_outbox_event broker 60 1500 after.1 after.2).1 ≡ after.1)
    × ((dispatch_outbox_event broker 60 1500 after.1 after.2).2 ≡ after.2)
dispatch_again_example =
    dispatch_again broker 60 1000 1500 queued_tables outside submission sample_execution is_found
      is_execution (λ e. true≢false (sym succeeds ∙ ap is_ok e))

abbrev cancelling : ExecutionRun
cancelling = record sample_execution { status = ExecutionRunStatus.cancel_requested }

cancels :
    (cancel_execution_run services 50 (codes "stop") (request_at 1000) queued_tables).0
    ≡ ok cancelling
unfolding cancel_execution_run cancel_body request_cancel queue_user_action issue_action_token
    issue_execution_action_capability issue_valid issue_capability encode_part are_valid_claims
    action_claims find_last by find require_project_role require_project_membership roles_of
cancels = refl

still_there :
    event_by 60 (cancel_execution_run services 50 (codes "stop") (request_at 1000) queued_tables).1
    ≡ some submission
unfolding cancel_execution_run cancel_body request_cancel queue_user_action issue_action_token
    issue_execution_action_capability issue_valid issue_capability encode_part are_valid_claims
    action_claims find_last by find require_project_role require_project_membership roles_of
    add_action insert
still_there = refl

cancel_before_submit_example :
    let after =
      (cancel_execution_run services 50 (codes "stop") (request_at 1000) queued_tables).1 in
    ((dispatch_outbox_event broker 60 1100 after outside).2 ≡ outside)
    × (execution_by 50 (dispatch_outbox_event broker 60 1100 after outside).1 ≡ some cancelling)
cancel_before_submit_example =
    cancel_before_submit broker 50 60 1100 (codes "stop") (request_at 1000) queued_tables outside
      submission cancels refl still_there refl refl
