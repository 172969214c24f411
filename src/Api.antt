-- ===== src/Api.antt =====
-- src/etl_agent/api/errors.py: `ApiError`, and how a request handler ends. A handler that raises
-- leaves the session uncommitted, so the tables stay as they were, unless it committed before.
use etl_agent.Prelude.{refl, ◌≡◌, ℕ}
use etl_agent.Prelude.Result.{Result, ok, err}

pub data ErrorCode : Type 0 where
  project_forbidden role_forbidden role_exists role_conflict : ErrorCode
  user_not_found role_slot_exists : ErrorCode
  version_not_found pipeline_not_found version_not_ready version_digest_missing : ErrorCode
  profile_reference_missing profile_not_found preparation_not_found preparation_expired : ErrorCode
  approval_not_found approval_already_decided approval_role_invalid : ErrorCode
  self_approval_forbidden execution_fact_missing outbox_event_missing : ErrorCode
  preparation_not_committable preparation_fingerprint_mismatch approvals_incomplete : ErrorCode
  idempotency_key_invalid idempotency_key_reused capability_issue_failed : ErrorCode
  execution_not_found execution_not_rollbackable engine_job_id_missing : ErrorCode
  version_immutable workflow_failed : ErrorCode
  agent_run_not_found agent_run_not_waiting generation_queue_unavailable : ErrorCode
  agent_request_invalid : ErrorCode
  -- an exception that no handler catches: a violated unique constraint, or a Pydantic model that
  -- does not validate
  integrity_error validation_error : ErrorCode

-- the code and the HTTP status; the message is left out
pub record ApiError : Type 0 where
  pub code : ErrorCode
  pub status_code : ℕ

abbrev pub api_error : ErrorCode → ℕ → ApiError
api_error code status_code = record { code = code; status_code = status_code }

-- the reply of a handler and the tables that it leaves
abbrev pub Outcome : Type 0 → Type 0 → Type 0
Outcome Tables A = Result ApiError A × Tables

-- the body of a handler: it raises before any commit, or it commits and replies or raises
abbrev pub Body : Type 0 → Type 0 → Type 0
Body Tables A = Result ApiError (Outcome Tables A)

-- the end of the session: a rollback, or what was committed
abbrev pub run_handler : {Tables A : Type 0} → Tables → Body Tables A → Outcome Tables A
run_handler db (ok outcome) = outcome
run_handler db (err e) = (err e, db)

-- To prove a statement about the outcome of a handler: for a body that raised, and for one that ended.
pub run_handler-cases {ℓ} :
    {Tables A : Type 0} (P : Outcome Tables A → Type ℓ) (db : Tables) (body : Body Tables A)
    → ((e : ApiError) → P (err e, db))
    → ((o : Outcome Tables A) → body ≡ ok o → P o)
    → P (run_handler db body)
run_handler-cases P db (ok o) raised ended = ended o refl
run_handler-cases P db (err e) raised ended = raised e
