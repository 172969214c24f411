-- ===== src/Prepare.antt =====
-- src/etl_agent/api/preparations.py: `prepare_version`.
pub mod Slots
pub mod Facts
pub mod Level
pub mod Current
use etl_agent.Access.{require_project_role}
use etl_agent.Commit.{granted_profiles, has_all_profiles, truthy, preparation_fingerprint, is_ready}
use etl_agent.Rows.{pipeline_by, version_by}
use etl_agent.Domain.{default_budget, cap_runtime_budget, RuntimeBudget}
use etl_agent.Api.{
  validation_error, profile_not_found, profile_reference_missing, pipeline_not_found,
  version_digest_missing, version_not_found, version_not_ready, api_error, run_handler, ApiError,
  Outcome, Body,
}
use etl_agent.Prelude.Sort.{distinct, sort_texts}
use etl_agent.Services.{Services, Request}
use etl_agent.Policy.{decide_policy, PolicyInput, DataClassification, ToolIntent}
use etl_agent.Prelude.{
  ℕ, suc, ◌+◌, ◌*◌, ◌≤◌, ◌<◌, ◌≡◌, ◌≢◌, refl, sym, ap, subst, ◌∙◌, ◌↔◌, ◌⊎◌, inl, inr, String, Bool,
  true, false, ◌&&◌, ◌||◌, not, Option, none, some, List, [], ◌∷◌, ◌++◌, ◌==◌, leb, ltb, max, min,
  any, all, find, by, save, insert, keep, map, length, if◌then◌else◌, str_eq, is_empty, is_none,
  is_some, or_else, arith, Bool-cases, Option-cases, eq_iff, by-save_at, by-save_self, by-key, take,
}
use etl_agent.Prelude.Result.{Result, ok, err, ◌>>=◌, ◌>>◌, guard, require, >>=-eq-ok, ok-injective}
use etl_agent.Prelude.Text.{trim, Text, codes, text_eq}
use etl_agent.Prelude.Dict.{Dict, Json, null, string, opaque, get, put, merge, select}
use etl_agent.Store.{
  ready, MetadataProfile, Pipeline, ApprovalRequest, requested, ApprovalStatus, maker, Action,
  RollbackStatus, ExecutionRunStatus, OutboxEventStatus, EventType, PublishStatus, QualityStatus,
  PreparationStatus, submit, cancel, cleanup, swap, rollback, execution_event, other_event, Db,
  ExecutionRun, OutboxEvent, Preparation, PipelineVersion, operator,
}
use etl_agent.Float.{FloatOps}

-- the body of the request (api/preparation_models.py)
pub record PreparationCreate (F : Type 0) : Type 0 where
  pub tool_intent : ToolIntent
  pub environment : Text
  pub data_classification : DataClassification
  pub writes_target : Bool
  pub runtime_budget : RuntimeBudget F
  pub resource_scope : Dict Json

-- one open slot for each required role
unfoldable pub new_slots : Request → ℕ → ℕ → List String → List ApprovalRequest
new_slots request project_id n [] = []
new_slots request project_id n (role ∷ roles) =
    record {
      id = request.fresh_slot n;
      project_id = project_id;
      preparation_id = request.fresh_preparation;
      required_role = role;
      status = ApprovalStatus.pending;
      decision = none;
      approver_id = none;
      comment = none;
      decided_at = none;
    }
    ∷ new_slots request project_id (suc n) roles

abbrev pub start_status : List String → PreparationStatus
start_status [] = PreparationStatus.prepared
start_status (role ∷ roles) = PreparationStatus.approval_pending

module _ {F PrivateKey PublicKey : Type 0} ⦃fl : FloatOps F⦄
    (s : Services F PrivateKey PublicKey) where
  -- `PolicyInput` removes the white space around the environment
  unfoldable pub capped_input : PreparationCreate F → PolicyInput F
  unfolding trim
  capped_input payload = record {
    tool_intent = payload.tool_intent;
    environment = trim payload.environment;
    data_classification = payload.data_classification;
    writes_target = payload.writes_target;
    runtime_budget = cap_runtime_budget payload.runtime_budget default_budget;
  }

  unfoldable pub resource_scope_of :
      PreparationCreate F → PipelineVersion F → List MetadataProfile → Dict Json
  unfolding sort_texts distinct
  resource_scope_of payload version profiles = merge payload.resource_scope (
      ("pipeline_version_id", string (s.uuid_text version.id))
      ∷ ("source_profile_ids", opaque (s.json_texts (map s.uuid_text version.source_profile_ids)))
      ∷ ("target_profile_ids", opaque (s.json_texts (map s.uuid_text version.target_profile_ids)))
      ∷ (
        "connection_ids",
        opaque (
            s.json_texts
              (sort_texts (map s.uuid_text (distinct (map (λ p. p.connection_id) profiles))))),
      )
      ∷ [])

  unfoldable pub new_preparation :
      Request
      → PreparationCreate F
      → Pipeline
      → PipelineVersion F
      → String
      → List MetadataProfile
      → Preparation F
  unfolding resource_scope_of capped_input trim
  new_preparation request payload pipeline version digest profiles =
      let input = capped_input payload in
      let decision = decide_policy input in
      let input_fingerprint = preparation_fingerprint s digest profiles input in
      record {
        id = request.fresh_preparation;
        project_id = pipeline.project_id;
        pipeline_version_id = version.id;
        created_by = request.user;
        status = start_status decision.required_roles;
        risk_level = decision.risk_level;
        policy_version = decision.policy_version;
        input_fingerprint = input_fingerprint;
        required_roles = decision.required_roles;
        resource_scope = resource_scope_of payload version profiles;
        runtime_budget = input.runtime_budget;
        facts = record {
          tool_intent = payload.tool_intent;
          environment = trim payload.environment;
          data_classification = payload.data_classification;
          writes_target = payload.writes_target;
          risk_level = decision.risk_level;
          policy_version = decision.policy_version;
          required_roles = decision.required_roles;
          runtime_budget = input.runtime_budget;
          input_fingerprint = input_fingerprint;
          pdp_reasons = decision.reasons;
        };
        expires_at = request.now + max 60 (min s.preparation_ttl_seconds 3600);
      }

  -- the checks on a version of a pipeline, and its digest
  unfoldable pub check_preparable : PipelineVersion F → Pipeline → Db F → Result ApiError String
  check_preparable version pipeline db = do
    guard (version.immutable && is_ready version.status) (api_error version_not_ready 409)
    digest ← require (truthy version.artifact_digest) (api_error version_digest_missing 409)
    guard (not (is_empty (version.source_profile_ids ++ version.target_profile_ids)))
        (api_error profile_reference_missing 409)
    guard (has_all_profiles version pipeline.project_id db.profiles)
        (api_error profile_not_found 409)
    ok digest

  unfoldable pub prepare_body :
      ℕ → PreparationCreate F → Request → Db F → Body (Db F) (Preparation F)
  unfolding new_slots trim
  prepare_body version_id payload request db = do
    version ← require (version_by version_id db) (api_error version_not_found 404)
    pipeline ← require (pipeline_by version.pipeline_id db) (api_error pipeline_not_found 404)
    roles ← require_project_role db pipeline.project_id request.user (maker ∷ [])
    digest ← check_preparable version pipeline db
    guard (not (is_empty (trim payload.environment))) (api_error validation_error 500)
    let preparation =
        new_preparation request payload pipeline version digest
          (granted_profiles version pipeline.project_id db.profiles)
    ok (
      ok preparation,
      record db {
        preparations = insert preparation db.preparations;
        approvals =
            db.approvals ++ new_slots request pipeline.project_id 0 preparation.required_roles;
      },
    )

  unfoldable pub prepare_version :
      ℕ → PreparationCreate F → Request → Db F → Outcome (Db F) (Preparation F)
  prepare_version version_id payload request db =
      run_handler db (prepare_body version_id payload request db)
