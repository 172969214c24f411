-- ===== src/Actions.antt =====
-- src/etl_agent/workers/actions.py, and `_queue_execution_action`, `cancel_execution_run` and
-- `rollback_execution_run` of src/etl_agent/api/preparations.py.
pub mod Single
use etl_agent.Prelude.{
  ℕ, suc, ◌+◌, ◌*◌, ◌≤◌, ◌<◌, ◌≡◌, ◌≢◌, refl, sym, ap, subst, ◌∙◌, ◌↔◌, ◌⊎◌, inl, inr, String, Bool,
  true, false, ◌&&◌, ◌||◌, not, Option, none, some, List, [], ◌∷◌, ◌++◌, ◌==◌, leb, ltb, any, all,
  find, by, save, insert, keep, map, length, if◌then◌else◌, str_eq, is_empty, is_none, is_some,
  or_else, arith, Bool-cases, Option-cases, eq_iff, by-save_at, by-save_self, by-key, take,
}
use etl_agent.Prelude.Result.{Result, ok, err, ◌>>=◌, ◌>>◌, guard, require, >>=-eq-ok, ok-injective}
use etl_agent.Prelude.Text.{Text, codes, text_eq}
use etl_agent.Prelude.Dict.{Dict, Json, null, string, opaque, get, put, merge, select}
use etl_agent.Store.{
  Action, RollbackStatus, ExecutionRunStatus, OutboxEventStatus, EventType, PublishStatus,
  QualityStatus, PreparationStatus, submit, cancel, cleanup, swap, rollback, execution_event,
  other_event, Db, ExecutionRun, OutboxEvent, Preparation, PipelineVersion, operator,
}
use etl_agent.Access.{require_project_role}
use etl_agent.Capability.{issue_execution_action_capability, bad_encoding, CapabilityError}
use etl_agent.Api.{
  engine_job_id_missing, execution_not_rollbackable, execution_not_found, preparation_not_found,
  api_error, run_handler, ApiError, Outcome, Body,
}
use etl_agent.Rows.{save_execution, execution_by, preparation_by}
use etl_agent.Prelude.Result.{guard, require, ◌>>=◌, ◌>>◌, ok, err, Result}
use etl_agent.Ledger.{append_evidence_event, Evidence}
use etl_agent.Prelude.Dict.{optional_text, string, merge, get, Json, Dict}
use etl_agent.Services.{Request, Services}
use etl_agent.Prelude.Text.{codes, Text}
use etl_agent.Prelude.{
  ◌++◌, keep, is_empty, [], or_else, insert, ◌∷◌, not, str_eq, some, any, if◌then◌else◌, none, ◌&&◌,
  Option, List, ◌==◌, false, true, ℕ, String, Bool,
}
use etl_agent.Store.{
  operator, first_time, after_failure, Db, Preparation, other_event, ExecutionRun, execution_event,
  OutboxEvent, Action, RollbackStatus, ExecutionRunStatus, OutboxEventStatus, EventType, submit,
  cancel, cleanup, swap, rollback,
}
use etl_agent.Commit.Handler.{issue_or_fail}

abbrev pub action_eq : Action → Action → Bool
action_eq submit submit = true
action_eq cancel cancel = true
action_eq cleanup cleanup = true
action_eq swap swap = true
action_eq rollback rollback = true
action_eq _ _ = false

abbrev pub event_eq : EventType → EventType → Bool
event_eq (execution_event a) (execution_event b) = action_eq a b
event_eq (other_event s) (other_event t) = str_eq s t
event_eq _ _ = false

abbrev pub event_name : EventType → String
event_name (execution_event submit) = "execution.submit"
event_name (execution_event cancel) = "execution.cancel"
event_name (execution_event cleanup) = "execution.cleanup"
event_name (execution_event swap) = "execution.swap"
event_name (execution_event rollback) = "execution.rollback"
event_name (other_event s) = s

-- pending or published
abbrev pub is_live : OutboxEventStatus → Bool
is_live OutboxEventStatus.failed = false
is_live _ = true

abbrev pub is_live_event : ℕ → EventType → OutboxEvent → Bool
is_live_event execution_id event_type e =
    (e.aggregate_id == execution_id) && event_eq e.event_type event_type && is_live e.status

abbrev pub is_failed_event : ℕ → EventType → OutboxEvent → Bool
is_failed_event execution_id event_type e =
    (e.aggregate_id == execution_id) && event_eq e.event_type event_type && not (is_live e.status)

-- the row with the latest `created_at`
unfoldable pub find_last : (OutboxEvent → Bool) → List OutboxEvent → Option OutboxEvent
find_last p [] = none
find_last p (e ∷ es) = or_else (find_last p es) (if p e then some e else none)

abbrev pub reason_of : Text → Dict Json → Json
reason_of default payload = elim (get "reason" payload) [ some r ↦ r | none ↦ string default ]

-- CANCELLED, SUCCEEDED and FAILED
abbrev pub is_terminal : ExecutionRunStatus → Bool
is_terminal ExecutionRunStatus.cancelled = true
is_terminal ExecutionRunStatus.succeeded = true
is_terminal ExecutionRunStatus.failed = true
is_terminal _ = false

abbrev pub is_rolled_back : RollbackStatus → Bool
is_rolled_back RollbackStatus.completed = true
is_rolled_back _ = false

abbrev pub is_target_key : String × Json → Bool
is_target_key field = any (str_eq field.0) (
    "target_connection_id" ∷ "target_host" ∷ "target_port" ∷ "target_secret_ref" ∷ "target_database"
    ∷ "target_table" ∷ [])

unfoldable pub rollback_payload : Text → ExecutionRun → Dict Json
rollback_payload reason execution =
    merge
      (("reason", string reason)
        ∷ ("shadow_table", optional_text execution.shadow_table)
        ∷ ("error_table", optional_text execution.error_table)
        ∷ [])
      (keep is_target_key execution.metrics)

-- `if not value`
abbrev pub has_text : Option Text → Bool
has_text none = false
has_text (some t) = not (is_empty t)

module _ {F PrivateKey PublicKey : Type 0} (s : Services F PrivateKey PublicKey) where
  unfoldable pub action_event :
      Request → ExecutionRun → EventType → Bool → Dict Json → Text → OutboxEvent
  action_event request execution event_type failed_before payload token = record {
    id = request.fresh_event;
    project_id = execution.project_id;
    aggregate_id = execution.id;
    event_type = event_type;
    deduplication_key =
        if failed_before
        then after_failure event_type execution.id request.fresh_suffix
        else first_time event_type execution.id;
    status = OutboxEventStatus.pending;
    attempts = 0;
    payload =
        merge
          (("schema_version", string (codes (event_name event_type) ++ codes ".v1"))
            ∷ ("execution_run_id", string (s.uuid_text execution.id))
            ∷ ("preparation_id", string (s.uuid_text execution.preparation_id))
            ∷ ("engine_job_id", optional_text execution.engine_job_id)
            ∷ [])
          payload;
    capability_token = token;
    last_error = none;
    published_at = none;
  }

  unfoldable pub issue_action_token :
      Request → ExecutionRun → Preparation F → ℕ → String → Result CapabilityError Text
  issue_action_token request execution preparation subject tool = do
    key ← require s.private_key bad_encoding
    issue_execution_action_capability s.codec key subject tool preparation.facts.environment
        execution.preparation_id execution.artifact_digest s.capability_ttl_seconds
        request.fresh_jti request.now

  abbrev pub action_evidence : Request → ExecutionRun → EventType → ℕ → Json → Evidence
  action_evidence request execution event_type actor reason = record {
    event_type = event_name event_type;
    resource_type = "execution_run";
    resource_id = execution.id;
    actor_id = some actor;
    correlation_id = execution.correlation_id;
    payload = ("event_id", string (s.uuid_text request.fresh_event)) ∷ ("reason", reason) ∷ [];
  }

  -- the new event and its evidence
  unfoldable pub add_action :
      Request → ExecutionRun → EventType → ℕ → Text → Dict Json → Text → Db F → OutboxEvent × Db F
  unfolding action_event
  add_action request execution event_type actor default payload token db =
      let failed_before = any (is_failed_event execution.id event_type) db.outbox in
      let event = action_event request execution event_type failed_before payload token in
      (
        event,
        record db {
          outbox = insert event db.outbox;
          ledger =
              append_evidence_event s.hasher execution.project_id
                (action_evidence request execution event_type actor (reason_of default payload))
                db.ledger;
        },
      )

  -- preparations.py
  unfoldable pub queue_user_action :
      Request
      → ExecutionRun
      → EventType
      → String
      → Dict Json
      → Db F
      → Result ApiError (OutboxEvent × Db F)
  queue_user_action request execution event_type tool payload db =
      elim (find_last (is_live_event execution.id event_type) db.outbox) [
        | some existing ↦ ok (existing, db)
        | none ↦ do
          preparation ←
              require (preparation_by execution.preparation_id db)
                (api_error preparation_not_found 409)
          token ← issue_or_fail (issue_action_token request execution preparation request.user tool)
          ok (add_action request execution event_type request.user [] payload token db)
      ]

  -- workers/actions.py: `none` where the preparation is missing or the token cannot be issued
  unfoldable pub queue_execution_action :
      Request
      → ExecutionRun
      → EventType
      → String
      → Dict Json
      → Db F
      → Option (Option OutboxEvent × Db F)
  queue_execution_action request execution event_type tool payload db =
      elim (find_last (is_live_event execution.id event_type) db.outbox) [
        | some existing ↦ some (none, db)
        | none ↦ elim (preparation_by execution.preparation_id db) [
          | none ↦ none
          | some preparation ↦
              elim (issue_action_token request execution preparation execution.created_by tool) [
                | err e ↦ none
                | ok token ↦
                    let added =
                      add_action request execution event_type execution.created_by (codes "system")
                        payload token db in
                    some (some added.0, added.1)
              ]
        ]
      ]

  unfoldable pub request_cancel : ExecutionRun → Text → Request → Db F → Body (Db F) ExecutionRun
  request_cancel execution reason request db = do
    let cancelling = record execution { status = ExecutionRunStatus.cancel_requested }
    queued ←
        queue_user_action request cancelling (execution_event cancel) "seatunnel.cancel"
          (("reason", string reason) ∷ []) (save_execution cancelling db)
    ok (ok cancelling, queued.1)

  unfoldable pub cancel_body : ℕ → Text → Request → Db F → Body (Db F) ExecutionRun
  cancel_body execution_id reason request db = do
    execution ← require (execution_by execution_id db) (api_error execution_not_found 404)
    roles ← require_project_role db execution.project_id request.user (operator ∷ [])
    if is_terminal execution.status
        then ok (ok execution, db)
        else request_cancel execution reason request db

  unfoldable pub cancel_execution_run : ℕ → Text → Request → Db F → Outcome (Db F) ExecutionRun
  cancel_execution_run execution_id reason request db =
      run_handler db (cancel_body execution_id reason request db)

  unfoldable pub request_rollback : ExecutionRun → Text → Request → Db F → Body (Db F) ExecutionRun
  unfolding rollback_payload
  request_rollback execution reason request db = do
    guard (is_terminal execution.status) (api_error execution_not_rollbackable 409)
    guard (has_text execution.engine_job_id) (api_error engine_job_id_missing 409)
    let requested = record execution { rollback_status = RollbackStatus.requested }
    queued ←
        queue_user_action request requested (execution_event rollback) "seatunnel.rollback"
          (rollback_payload reason requested) (save_execution requested db)
    ok (ok requested, queued.1)

  unfoldable pub rollback_body : ℕ → Text → Request → Db F → Body (Db F) ExecutionRun
  rollback_body execution_id reason request db = do
    execution ← require (execution_by execution_id db) (api_error execution_not_found 404)
    roles ← require_project_role db execution.project_id request.user (operator ∷ [])
    if is_rolled_back execution.rollback_status
        then ok (ok execution, db)
        else request_rollback execution reason request db

  unfoldable pub rollback_execution_run : ℕ → Text → Request → Db F → Outcome (Db F) ExecutionRun
  rollback_execution_run execution_id reason request db =
      run_handler db (rollback_body execution_id reason request db)
