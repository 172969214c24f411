-- ===== src/Commit.antt =====
-- src/etl_agent/api/preparations.py: `commit_preparation`. The lock on the preparation makes the
-- handler atomic. The flush of the new rows checks their unique constraints; since it stands before
-- the `try`, a violation ends the request as an uncaught error.
pub mod Handler
pub mod Safety
pub mod Idempotence
use etl_agent.Prelude.{
  ℕ, ◌+◌, String, Bool, true, false, ◌&&◌, ◌||◌, not, Option, none, some, List, [], ◌∷◌, ◌++◌, ◌==◌,
  leb, ltb, any, all, find, by, save, insert, keep, map, length, if◌then◌else◌, str_eq, is_empty,
  is_none,
}
use etl_agent.Prelude.Text.{trim, Text, codes, text_eq, strip}
use etl_agent.Prelude.Sort.{sort_texts, distinct}
use etl_agent.Prelude.Result.{Result, ok, err, ◌>>=◌, ◌>>◌, guard, require}
use etl_agent.Api.{
  ApiError, api_error, Outcome, Body, run_handler, preparation_not_found, execution_fact_missing,
  outbox_event_missing, preparation_not_committable, preparation_expired, version_not_ready,
  version_digest_missing, profile_not_found, preparation_fingerprint_mismatch, approvals_incomplete,
  idempotency_key_invalid, idempotency_key_reused,
}
use etl_agent.Policy.{PolicyInput}
use etl_agent.Access.{require_project_role}
use etl_agent.Rows.{preparation_by, version_by, set_status}
use etl_agent.Services.{Services, Request}
use etl_agent.Store.{
  Db, Preparation, PreparationStatus, PipelineVersion, PipelineVersionStatus, MetadataProfile,
  ApprovalRequest, ApprovalStatus, ExecutionRun, ExecutionRunStatus, OutboxEvent, EventType,
  execution_event, Action, submit, operator,
}

pub record CommitResponse : Type 0 where
  pub execution_run_id : ℕ
  pub preparation_id : ℕ
  pub status : ExecutionRunStatus
  pub idempotency_key : Text
  pub outbox_event_id : ℕ
  pub capability_token_digest : Text
  pub committed_at : ℕ
  pub idempotent : Bool

abbrev pub is_committed : PreparationStatus → Bool
is_committed PreparationStatus.committed = true
is_committed _ = false

abbrev pub is_committable : PreparationStatus → Bool
is_committable PreparationStatus.approved = true
is_committable PreparationStatus.prepared = true
is_committable _ = false

abbrev pub is_ready : PipelineVersionStatus → Bool
is_ready PipelineVersionStatus.ready = true
is_ready _ = false

abbrev pub is_submit : EventType → Bool
is_submit (execution_event submit) = true
is_submit _ = false

abbrev pub is_approved : ApprovalStatus → Bool
is_approved ApprovalStatus.approved = true
is_approved _ = false

-- a digest that is neither missing nor empty
abbrev pub truthy : Option String → Option String
truthy none = none
truthy (some s) = if str_eq s "" then none else some s

-- `select(OutboxEvent)` of the submission of an execution
abbrev pub submission_of : ℕ → List OutboxEvent → Option OutboxEvent
submission_of execution_id = find (λ e. (e.aggregate_id == execution_id) && is_submit e.event_type)

abbrev pub execution_of : ℕ → List ExecutionRun → Option ExecutionRun
execution_of preparation_id = find (λ e. e.preparation_id == preparation_id)

-- the response that repeats an earlier commit
unfoldable pub response_of : ℕ → ExecutionRun → OutboxEvent → CommitResponse
response_of preparation_id execution outbox = record {
  execution_run_id = execution.id;
  preparation_id = preparation_id;
  status = execution.status;
  idempotency_key = execution.idempotency_key;
  outbox_event_id = outbox.id;
  capability_token_digest = execution.capability_token_digest;
  committed_at = execution.committed_at;
  idempotent = true;
}

-- the roles of the approved slots cover the required ones
unfoldable pub approvals_cover : ℕ → List String → List ApprovalRequest → Bool
approvals_cover preparation_id required approvals =
    all
      (λ role.
        any
          (λ a.
            (a.preparation_id == preparation_id)
            && is_approved a.status
            && str_eq a.required_role role)
          approvals)
      required

module _ {F : Type 0} where
  -- the profiles of a version that its project may use
  unfoldable pub granted_profiles :
      PipelineVersion F → ℕ → List MetadataProfile → List MetadataProfile
  granted_profiles version project_id = keep (λ p.
      any (λ id. id == p.id) (version.source_profile_ids ++ version.target_profile_ids)
      && (p.project_id == project_id))

  unfoldable pub has_all_profiles : PipelineVersion F → ℕ → List MetadataProfile → Bool
  unfolding granted_profiles distinct
  has_all_profiles version project_id profiles =
      length (granted_profiles version project_id profiles)
      == length (distinct (version.source_profile_ids ++ version.target_profile_ids))

  -- `PolicyInput` removes the white space around the environment. (It raises where nothing is left, which
  -- no environment that a preparation stores does.)
  unfoldable pub policy_input_from_preparation : Preparation F → PolicyInput F
  unfolding trim
  policy_input_from_preparation preparation = record {
    tool_intent = preparation.facts.tool_intent;
    environment = trim preparation.facts.environment;
    data_classification = preparation.facts.data_classification;
    writes_target = preparation.facts.writes_target;
    runtime_budget = preparation.runtime_budget;
  }

  -- the answer to a commit of a preparation that is committed
  unfoldable pub answer_committed : Db F → Preparation F → Body (Db F) CommitResponse
  unfolding response_of
  answer_committed db preparation = do
    execution ←
        require (execution_of preparation.id db.executions) (api_error execution_fact_missing 409)
    outbox ← require (submission_of execution.id db.outbox) (api_error outbox_event_missing 409)
    ok (ok (response_of preparation.id execution outbox), db)

module _ {F PrivateKey PublicKey : Type 0} (s : Services F PrivateKey PublicKey) where
  unfoldable pub preparation_fingerprint : String → List MetadataProfile → PolicyInput F → Text
  unfolding sort_texts
  preparation_fingerprint artifact_digest profiles input =
      s.fingerprint_digest artifact_digest (sort_texts (map (λ p. p.fingerprint) profiles)) input

  abbrev pub current_fingerprint : Db F → Preparation F → PipelineVersion F → String → Text
  current_fingerprint db preparation version digest =
      preparation_fingerprint digest (granted_profiles version preparation.project_id db.profiles)
        (policy_input_from_preparation preparation)

  -- the version is ready and has its digest and its profiles
  unfoldable pub check_version : Db F → Preparation F → Result ApiError (PipelineVersion F × String)
  check_version db preparation = do
    version ←
        require (version_by preparation.pipeline_version_id db) (api_error version_not_ready 409)
    guard (version.immutable && is_ready version.status) (api_error version_not_ready 409)
    digest ← require (truthy version.artifact_digest) (api_error version_digest_missing 409)
    guard (has_all_profiles version preparation.project_id db.profiles)
        (api_error profile_not_found 409)
    ok (version, digest)

  unfoldable pub idempotency_key_of : Request → Preparation F → Result ApiError Text
  idempotency_key_of request preparation =
      let given = strip request.idempotency_key in
      let key = if is_empty given then codes "commit:" ++ s.uuid_text preparation.id else given in
      guard (leb (length key) 128) (api_error idempotency_key_invalid 400) >> ok key

  -- the answer where the key names an earlier execution
  unfoldable pub answer_duplicate : Db F → Preparation F → ExecutionRun → Body (Db F) CommitResponse
  unfolding response_of
  answer_duplicate db preparation duplicate = do
    guard (duplicate.preparation_id == preparation.id) (api_error idempotency_key_reused 409)
    outbox ← require (submission_of duplicate.id db.outbox) (api_error outbox_event_missing 409)
    ok (
      ok (response_of preparation.id duplicate outbox),
      set_status PreparationStatus.committed preparation db,
    )
