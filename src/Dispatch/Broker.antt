-- ===== src/Dispatch/Broker.antt =====
-- src/etl_agent/workers/dispatcher.py: `dispatch_outbox_event`. The locks on the event and on its
-- execution make it atomic. An exception that it does not catch rolls the tables back; the replay
-- guard and the engine keep what was done.
use etl_agent.Actions.{event_name}
use etl_agent.Capability.{verify_capability, CapabilityClaims}
use etl_agent.Commit.{is_submit}
use etl_agent.Ledger.{append_evidence_event, Evidence}
use etl_agent.Capability.Replay.{ReplayGuardConfig, consume_once, Redis, GuardError}
use etl_agent.Rows.{event_by, execution_by, save_execution, save_event, version_by}
use etl_agent.Services.{Services}
use etl_agent.Prelude.{
  ℕ, ◌+◌, Bool, true, false, ◌&&◌, not, Option, none, some, List, [], ◌∷◌, ◌++◌, if◌then◌else◌,
  is_empty, or_else,
}
use etl_agent.Prelude.Result.{Result, ok, err, ◌>>=◌, ◌>>◌, guard, require}
use etl_agent.Prelude.Text.{Text, codes}
use etl_agent.Prelude.Dict.{optional_text, Dict, Json, string, put, merge}
use etl_agent.Store.{
  Action, OutboxEventStatus, submit, cancel, cleanup, swap, rollback, execution_event, other_event,
  Db, ExecutionRun, OutboxEvent, PipelineVersion,
}
use etl_agent.Dispatch.{
  is_pending, dispatch_failed, event_missing, execution_missing, uncaught, job_action, Engine,
  failure_detail, cancel_job, as_failure, DispatchError, is_cancelled, failed_execution, job_id_of,
  confirmed, submit_job, as_external, failed_event, DispatchResult, complete, Outside, EngineCall,
  check_bindings, Done, Failure, tool_mismatch, external, hocon_missing, job_id_missing, replayed,
}
use Prim.Native.String.{◌++◌ as ◌++ˢ◌}

-- what the broker is set up with
pub record Broker (F R PrivateKey PublicKey : Type 0) : Type 0 where
  pub services : Services F PrivateKey PublicKey
  pub public_key : PublicKey
  pub redis : Redis R
  pub guard_config : ReplayGuardConfig
  pub replay_ttl_seconds : ℕ
  pub engine : Engine
  pub runtime_compiler : Option (Db F → ExecutionRun → PipelineVersion F → Result Text (Dict Json))

-- how the part under `try` ends
pub data Ended : Type 0 where
  raised : Failure → Ended
  finished : Done → Ended
  crashed : Ended

module _ {F R PrivateKey PublicKey : Type 0} (b : Broker F R PrivateKey PublicKey) where
  unfoldable pub authorize : OutboxEvent → ExecutionRun → ℕ → Result Failure CapabilityClaims
  unfolding check_bindings
  authorize event execution now = do
    c ← as_failure (verify_capability b.services.codec event.capability_token b.public_key now 30)
    check_bindings c execution event.event_type
    ok c

  -- the payload of a submission
  unfoldable pub submit_payload : Db F → OutboxEvent → ExecutionRun → Result Failure (Dict Json)
  submit_payload db event execution = do
    version ← require (version_by execution.pipeline_version_id db) hocon_missing
    guard (not (is_empty version.hocon)) hocon_missing
    compiled ← elim b.runtime_compiler [
      | some compile ↦ as_external (compile db execution version)
      | none ↦ ok (("hocon", string version.hocon) ∷ [])
    ]
    ok (
        put "idempotency_key" (string execution.idempotency_key) (
          put "job_name" (string (codes "etl-agent-" ++ b.services.uuid_text execution.id))
            (merge event.payload compiled)))

  abbrev pub submitted : Dict Json → Result Text Text → Result Failure Done
  submitted payload (ok job) = ok (some job, payload)
  submitted payload (err e) = err (external e)

  -- one call of the engine
  abbrev pub call_submit : Dict Json → List EngineCall → Result Failure Done × List EngineCall
  call_submit payload calls =
      (submitted payload (b.engine.submit calls payload), submit_job payload ∷ calls)

  abbrev pub call_action :
      Action → Text → Dict Json → List EngineCall → Result Failure Done × List EngineCall
  call_action submit job payload calls = (ok (none, payload), calls)
  call_action cancel job payload calls =
      (confirmed cancel payload (b.engine.cancel calls job), cancel_job job ∷ calls)
  call_action cleanup job payload calls = (
    confirmed cleanup payload (b.engine.act calls cleanup job payload),
    job_action cleanup job payload ∷ calls,
  )
  call_action swap job payload calls = (
    confirmed swap payload (b.engine.act calls swap job payload),
    job_action swap job payload ∷ calls,
  )
  call_action rollback job payload calls = (
    confirmed rollback payload (b.engine.act calls rollback job payload),
    job_action rollback job payload ∷ calls,
  )

  abbrev pub is_cancel : Action → Bool
  is_cancel cancel = true
  is_cancel _ = false

  unfoldable pub act_on_job :
      Action → Text → Dict Json → List EngineCall → Result Failure Done × List EngineCall
  act_on_job action job payload calls =
      if is_empty job
      then ((if is_cancel action then ok (none, payload) else err job_id_missing), calls)
      else call_action action job payload calls

  unfoldable pub submit_to_engine :
      Result Failure (Dict Json) → List EngineCall → Result Failure Done × List EngineCall
  submit_to_engine (ok payload) calls = call_submit payload calls
  submit_to_engine (err e) calls = (err e, calls)

  -- the engine's part of an event that is authorized
  unfoldable pub perform :
      Db F → OutboxEvent → ExecutionRun → List EngineCall → Result Failure Done × List EngineCall
  perform db event execution calls = elim event.event_type [
    | execution_event submit ↦ submit_to_engine (submit_payload db event execution) calls
    | execution_event action ↦
        act_on_job action (job_id_of execution event.payload) event.payload calls
    | other_event name ↦ (err tool_mismatch, calls)
  ]

  abbrev pub ended_as : Result Failure Done → Ended
  ended_as (ok done) = finished done
  ended_as (err failure) = raised failure

  -- the part after the consumption
  unfoldable pub after_consumption :
      Result GuardError Bool × R → Db F → OutboxEvent → ExecutionRun → Outside R → Ended × Outside R
  after_consumption (err e, r) db event execution o = (crashed, record o { replay = r })
  after_consumption (ok false, r) db event execution o = (raised replayed, record o { replay = r })
  after_consumption (ok true, r) db event execution o =
      let performed = perform db event execution o.calls in
      (ended_as performed.0, record { replay = r; calls = performed.1 })

  -- the part under `try`
  unfoldable pub attempt : ℕ → Db F → OutboxEvent → ExecutionRun → Outside R → Ended × Outside R
  attempt now db event execution o = elim (authorize event execution now) [
    | err failure ↦ (raised failure, o)
    | ok c ↦
        after_consumption
          (consume_once b.redis b.guard_config event.capability_token b.replay_ttl_seconds now
            o.replay)
          db event execution o
  ]

  unfoldable pub published_evidence : OutboxEvent → ExecutionRun → Evidence
  published_evidence event execution = record {
    event_type = event_name event.event_type ++ˢ ".published";
    resource_type = "execution_run";
    resource_id = execution.id;
    actor_id = none;
    correlation_id = execution.correlation_id;
    payload =
        ("event_id", string (b.services.uuid_text event.id))
        ∷ ("engine_job_id", optional_text execution.engine_job_id)
        ∷ [];
  }

  unfoldable pub publish : ℕ → OutboxEvent → ExecutionRun → Done → Db F → ExecutionRun × Db F
  unfolding complete published_evidence
  publish now event execution done db =
      let completed = complete event.event_type done now execution in
      let published = record event {
        status = OutboxEventStatus.published;
        published_at = some now;
      } in
      let saved = save_event published (save_execution completed db) in
      (
        completed,
        record saved {
          ledger =
              append_evidence_event b.services.hasher execution.project_id
                (published_evidence event completed) db.ledger;
        },
      )

  abbrev pub result_of :
      OutboxEvent → ExecutionRun → OutboxEventStatus → Option Text → DispatchResult
  result_of event execution status job = record {
    event_id = event.id;
    execution_run_id = execution.id;
    status = status;
    engine_job_id = job;
  }

  -- what the tables become after the part under `try`
  unfoldable pub settle :
      ℕ → Db F → OutboxEvent → ExecutionRun → Ended → Result DispatchError DispatchResult × Db F
  unfolding failed_event failed_execution failure_detail
  settle now db event execution crashed = (err uncaught, db)
  settle now db event execution (raised failure) =
      let detail = failure_detail failure in
      (
        err (dispatch_failed failure),
        save_event (failed_event detail event)
            (save_execution (failed_execution detail execution) db),
      )
  settle now db event execution (finished done) =
      let published = publish now event execution done db in
      (
        ok (
            result_of event execution OutboxEventStatus.published
              (or_else done.0 published.0.engine_job_id)),
        published.1,
      )

  -- an event whose execution was cancelled before its submission
  abbrev pub is_late : OutboxEvent → ExecutionRun → Bool
  is_late event execution = is_submit event.event_type && is_cancelled execution.status

  unfoldable pub dispatch_pending :
      ℕ
      → OutboxEvent
      → ExecutionRun
      → Db F
      → Outside R
      → Result DispatchError DispatchResult × Db F × Outside R
  unfolding failed_event
  dispatch_pending now event execution db o =
      if is_late event execution
      then (
        ok (result_of event execution OutboxEventStatus.failed none),
        save_event (failed_event (codes "执行已在提交前取消") event) db,
        o,
      )
      else (let tried = record event { attempts = event.attempts + 1 } in
          let ended = attempt now db tried execution o in
          let settled = settle now db tried execution ended.0 in (settled.0, settled.1, ended.1))

  unfoldable pub dispatch_found :
      ℕ → OutboxEvent → Db F → Outside R → Result DispatchError DispatchResult × Db F × Outside R
  unfolding failed_event
  dispatch_found now event db o = elim (execution_by event.aggregate_id db) [
    | none ↦
        (err execution_missing, save_event (failed_event (codes "ExecutionRun 不存在") event) db, o)
    | some execution ↦
        if is_pending event.status
        then dispatch_pending now event execution db o
        else (ok (result_of event execution event.status execution.engine_job_id), db, o)
  ]

  unfoldable pub dispatch_outbox_event :
      ℕ → ℕ → Db F → Outside R → Result DispatchError DispatchResult × Db F × Outside R
  dispatch_outbox_event event_id now db o = elim (event_by event_id db) [
    | none ↦ (err event_missing, db, o)
    | some event ↦ dispatch_found now event db o
  ]
