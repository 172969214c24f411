-- ===== src/Commit/Handler.antt =====
-- src/etl_agent/api/preparations.py: the creation of an execution, and `commit_preparation` itself.
use etl_agent.Prelude.{
  ℕ, String, Bool, false, ◌||◌, not, none, some, List, [], ◌∷◌, ◌==◌, leb, any, find, insert,
  if◌then◌else◌,
}
use etl_agent.Prelude.Text.{Text, codes, text_eq}
use etl_agent.Prelude.Dict.{string}
use etl_agent.Prelude.Result.{Result, ok, err, ◌>>=◌, ◌>>◌, guard, require}
use etl_agent.Capability.{CapabilityError, CapabilityClaims, action_claims, issue_valid}
use etl_agent.Ledger.{Evidence, append_evidence_event}
use etl_agent.Api.{
  ApiError, api_error, Outcome, Body, run_handler, preparation_not_found,
  preparation_not_committable, preparation_expired, preparation_fingerprint_mismatch,
  approvals_incomplete, capability_issue_failed, integrity_error,
}
use etl_agent.Access.{require_project_role}
use etl_agent.Rows.{preparation_by, set_status}
use etl_agent.Services.{Services, Request}
use etl_agent.Store.{
  Db, Preparation, PreparationStatus, PipelineVersion, ExecutionRun, ExecutionRunStatus,
  QualityStatus, PublishStatus, RollbackStatus, OutboxEvent, OutboxEventStatus, execution_event,
  submit, first_time, operator,
}
use etl_agent.Commit.{
  CommitResponse, is_committed, is_committable, approvals_cover, answer_committed, answer_duplicate,
  check_version, current_fingerprint, idempotency_key_of,
}

abbrev pub issue_or_fail : Result CapabilityError Text → Result ApiError Text
issue_or_fail (ok token) = ok token
issue_or_fail (err e) = err (api_error capability_issue_failed 503)

-- the unique constraints on the executions, as the flush checks them
abbrev pub clashes : ℕ → Text → List ExecutionRun → Bool
clashes preparation_id key =
    any (λ e. (e.preparation_id == preparation_id) || text_eq e.idempotency_key key)

module _ {F PrivateKey PublicKey : Type 0} (s : Services F PrivateKey PublicKey) where
  unfoldable pub submit_claims : Request → Preparation F → String → CapabilityClaims
  unfolding action_claims
  submit_claims request preparation digest =
      action_claims request.user "seatunnel.submit" preparation.facts.environment preparation.id
        digest s.capability_ttl_seconds request.fresh_jti request.now

  unfoldable pub issue_submit_token : Request → Preparation F → String → Result ApiError Text
  issue_submit_token request preparation digest = do
    key ← require s.private_key (api_error capability_issue_failed 503)
    issue_or_fail (issue_valid s.codec (submit_claims request preparation digest) key)

  unfoldable pub new_execution :
      Request → Preparation F → PipelineVersion F → String → Text → Text → ExecutionRun
  new_execution request preparation version digest key token = record {
    id = request.fresh_execution;
    project_id = preparation.project_id;
    preparation_id = preparation.id;
    pipeline_version_id = version.id;
    created_by = request.user;
    status = ExecutionRunStatus.queued;
    engine_job_id = none;
    idempotency_key = key;
    artifact_digest = digest;
    input_fingerprint = preparation.input_fingerprint;
    capability_token_digest = s.sha256_hex token;
    correlation_id = request.correlation_id;
    committed_at = request.now;
    started_at = none;
    completed_at = none;
    metrics = [];
    error_code = none;
    error_detail = none;
    quality_status = QualityStatus.pending;
    publish_status = PublishStatus.not_started;
    rollback_status = RollbackStatus.not_requested;
    shadow_table = none;
    error_table = none;
  }

  -- The payload's scope and budget are JSON that no consumer reads; they are left out.
  unfoldable pub new_submission :
      Request → Preparation F → PipelineVersion F → String → Text → OutboxEvent
  new_submission request preparation version digest token = record {
    id = request.fresh_event;
    project_id = preparation.project_id;
    aggregate_id = request.fresh_execution;
    event_type = execution_event submit;
    deduplication_key = first_time (execution_event submit) request.fresh_execution;
    status = OutboxEventStatus.pending;
    attempts = 0;
    payload =
        ("schema_version", string (codes "execution.submit.v1"))
        ∷ ("execution_run_id", string (s.uuid_text request.fresh_execution))
        ∷ ("preparation_id", string (s.uuid_text preparation.id))
        ∷ ("pipeline_version_id", string (s.uuid_text version.id))
        ∷ ("artifact_digest", string (codes digest))
        ∷ ("input_fingerprint", string preparation.input_fingerprint)
        ∷ ("engine", string (codes "seatunnel"))
        ∷ [];
    capability_token = token;
    last_error = none;
    published_at = none;
  }

  unfoldable pub commit_evidence : Request → Preparation F → String → Text → Evidence
  commit_evidence request preparation digest token = record {
    event_type = "execution.committed";
    resource_type = "execution_run";
    resource_id = request.fresh_execution;
    actor_id = some request.user;
    correlation_id = request.correlation_id;
    payload =
        ("execution_run_id", string (s.uuid_text request.fresh_execution))
        ∷ ("preparation_id", string (s.uuid_text preparation.id))
        ∷ ("artifact_digest", string (codes digest))
        ∷ ("input_fingerprint", string preparation.input_fingerprint)
        ∷ ("capability_token_digest", string (s.sha256_hex token))
        ∷ [];
  }

  -- the rows of a commit, in one transaction
  unfoldable pub committed_db :
      Request → Preparation F → PipelineVersion F → String → Text → Text → Db F → Db F
  committed_db request preparation version digest key token db =
      let db' = set_status PreparationStatus.committed preparation db in
      record db' {
        executions =
            insert (new_execution request preparation version digest key token) db.executions;
        outbox = insert (new_submission request preparation version digest token) db.outbox;
        ledger =
            append_evidence_event s.hasher preparation.project_id
              (commit_evidence request preparation digest token) db.ledger;
      }

  unfoldable pub fresh_response : Request → Preparation F → Text → Text → CommitResponse
  fresh_response request preparation key token = record {
    execution_run_id = request.fresh_execution;
    preparation_id = preparation.id;
    status = ExecutionRunStatus.queued;
    idempotency_key = key;
    outbox_event_id = request.fresh_event;
    capability_token_digest = s.sha256_hex token;
    committed_at = request.now;
    idempotent = false;
  }

  unfoldable pub create_execution :
      Request
      → Preparation F
      → PipelineVersion F
      → String
      → Text
      → Db F
      → Body (Db F) CommitResponse
  create_execution request preparation version digest key db = do
    token ← issue_submit_token request preparation digest
    guard (not (clashes preparation.id key db.executions)) (api_error integrity_error 500)
    ok (
      ok (fresh_response request preparation key token),
      committed_db request preparation version digest key token db,
    )

  -- from the approvals on
  unfoldable pub commit_approved :
      Request → Preparation F → PipelineVersion F → String → Db F → Body (Db F) CommitResponse
  commit_approved request preparation version digest db = do
    guard (approvals_cover preparation.id preparation.required_roles db.approvals)
        (api_error approvals_incomplete 409)
    key ← idempotency_key_of s request preparation
    elim (find (λ (e : ExecutionRun). text_eq e.idempotency_key key) db.executions) [
      | some duplicate ↦ answer_duplicate s db preparation duplicate
      | none ↦ create_execution request preparation version digest key db
    ]

  -- from the version on
  unfoldable pub commit_current : Request → Preparation F → Db F → Body (Db F) CommitResponse
  commit_current request preparation db = do
    checked ← check_version s db preparation
    if text_eq (current_fingerprint s db preparation checked.0 checked.1)
          preparation.input_fingerprint
        then commit_approved request preparation checked.0 checked.1 db
        else ok (
          err (api_error preparation_fingerprint_mismatch 409),
          set_status PreparationStatus.rejected preparation db,
        )

  -- of a preparation that is not committed yet
  unfoldable pub commit_open : Request → Preparation F → Db F → Body (Db F) CommitResponse
  commit_open request preparation db = do
    guard (is_committable preparation.status) (api_error preparation_not_committable 409)
    if leb preparation.expires_at request.now
        then ok (
          err (api_error preparation_expired 409),
          set_status PreparationStatus.expired preparation db,
        )
        else commit_current request preparation db

  unfoldable pub commit_body : ℕ → Request → Db F → Body (Db F) CommitResponse
  commit_body preparation_id request db = do
    preparation ← require (preparation_by preparation_id db) (api_error preparation_not_found 404)
    roles ← require_project_role db preparation.project_id request.user (operator ∷ [])
    if is_committed preparation.status
        then answer_committed db preparation
        else commit_open request preparation db

  unfoldable pub commit_preparation : ℕ → Request → Db F → Outcome (Db F) CommitResponse
  commit_preparation preparation_id request db =
      run_handler db (commit_body preparation_id request db)
