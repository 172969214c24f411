-- ===== src/Generation.antt =====
-- src/etl_agent/api/generation.py: `generate_version`, which runs the workflow for a draft and freezes it.
pub mod Kept
pub mod Frozen
pub mod Streamed
pub mod Worker
pub mod Safe
pub mod Queue
use etl_agent.Prelude.Sort.{distinct}
use etl_agent.Prelude.{
  ℕ, suc, ◌+◌, ◌*◌, ◌≤◌, ◌<◌, ◌≡◌, ◌≢◌, refl, sym, ap, subst, ◌∙◌, ◌↔◌, ◌⊎◌, inl, inr, String, Bool,
  true, false, ◌&&◌, ◌||◌, not, Option, none, some, List, [], ◌∷◌, ◌++◌, ◌==◌, leb, ltb, any, all,
  find, by, save, insert, keep, map, length, if◌then◌else◌, str_eq, is_empty, is_none, is_some,
  or_else, arith, Bool-cases, Option-cases, eq_iff, by-save_at, by-save_self, by-key, take, drop,
  map_option, ◌-◌, zero, max,
}
use etl_agent.Prelude.Result.{Result, ok, err, ◌>>=◌, ◌>>◌, guard, require, >>=-eq-ok, ok-injective}
use etl_agent.Prelude.Text.{trim, lower, Text, codes, text_eq}
use etl_agent.Prelude.Dict.{Dict, Json, get}
use etl_agent.Store.{
  running, Action, RollbackStatus, ExecutionRunStatus, OutboxEventStatus, EventType, PublishStatus,
  QualityStatus, PreparationStatus, submit, cancel, cleanup, swap, rollback, execution_event,
  other_event, Db, ExecutionRun, OutboxEvent, Preparation, PipelineVersion, operator,
}
use etl_agent.Float.{FloatOps}
use etl_agent.Domain.{
  EtlPlan, GenerationRequest, ProfileContext, RuntimeBudget, ClarificationQuestion, ValidationIssue,
  cap_runtime_budget, default_budget,
}
use etl_agent.Validation.Plan.{Checkers, compile_hocon}
use etl_agent.Workflow.{
  Status, Node, Attempt, AttemptKind, AttemptStatus, GenerationState, LlmProvider,
}
use etl_agent.Workflow.Run.{GenerationResult, WorkflowError, run_generation_workflow, resume}
use etl_agent.Rows.{version_by, pipeline_by, save_version}
use etl_agent.Api.{
  validation_error, api_error, ApiError, Outcome, Body, run_handler, version_not_found,
  pipeline_not_found, version_immutable, profile_not_found, workflow_failed, integrity_error,
}
use etl_agent.Access.{require_project_role}
use etl_agent.Services.{Request}
use etl_agent.Store.{MetadataProfile, Pipeline, PipelineVersionStatus, maker}

pub record GenerationStartRequest (F : Type 0) : Type 0 where
  pub business_request : Text
  pub source_profile_ids : List ℕ
  pub target_profile_ids : List ℕ
  pub max_runtime_budget : RuntimeBudget F
  pub prompt_version : Text
  pub thread_id : Option Text

-- `request` is what `GenerationRequest.model_validate` reads from `request_json`, `none` where it raises.
-- The chat, the digest of the prompt and the details of errors are left out.
pub record AgentRun (F : Type 0) : Type 0 where
  pub id : ℕ
  pub project_id : ℕ
  pub pipeline_version_id : Option ℕ
  pub thread_id : Text
  pub request : Option (GenerationRequest F)
  pub status : Status
  pub provider : Option String
  pub model : Option String
  pub repair_count : ℕ
  pub node_trace : List Node
  pub error_code : Option String
  pub result_digest : Option String
  pub clarification_questions : List ClarificationQuestion
  pub validation_issues : List ValidationIssue

pub record GenerationAttempt : Type 0 where
  pub agent_run_id : ℕ
  pub evidence : Attempt

pub record GenerationTables (F : Type 0) : Type 0 where
  pub db : Db F
  pub agent_runs : List (AgentRun F)
  pub attempts : List GenerationAttempt

-- What the handler takes from outside: what the checkpointer keeps of a thread, the digest of an
-- artifact (SHA-256 of its canonical JSON), the context that a profile's snapshot gives, and fresh ids.
pub record Generator (F : Type 0) : Type 0 where
  pub provider : LlmProvider F
  pub checkers : Checkers F
  pub checkpoint : Text → Option (GenerationState F)
  pub artifact_digest : EtlPlan F → String
  pub profile_context : MetadataProfile → ProfileContext
  pub fresh_run : ℕ
  pub fresh_thread : Text

abbrev pub has_profile_id : List ℕ → ℕ → MetadataProfile → Bool
has_profile_id ids project_id p = any (λ id. id == p.id) ids && (p.project_id == project_id)

unfoldable pub last_attempt : ℕ → List GenerationAttempt → ℕ
last_attempt run_id [] = 0
last_attempt run_id (a ∷ rest) =
    let later = last_attempt run_id rest in
    if a.agent_run_id == run_id then max a.evidence.attempt_number later else later

-- the attempts of a result behind those that are stored
unfoldable pub new_attempts : ℕ → ℕ → List Attempt → List GenerationAttempt
new_attempts run_id stored [] = []
new_attempts run_id stored (a ∷ rest) =
    let later = new_attempts run_id stored rest in
    if leb a.attempt_number stored
    then later
    else record { agent_run_id = run_id; evidence = a } ∷ later

module _ {F : Type 0} ⦃fl : FloatOps F⦄ (g : Generator F) where
  abbrev pub thread_of : GenerationStartRequest F → Text
  thread_of payload = elim payload.thread_id [ some t ↦ t | none ↦ g.fresh_thread ]

  -- `GenerationRequest` removes the white space around its texts, and demands that some is left
  abbrev pub has_texts : GenerationStartRequest F → Bool
  has_texts payload =
      not (is_empty (trim payload.business_request)) && not (is_empty (trim payload.prompt_version))

  unfoldable pub generation_request :
      GenerationStartRequest F → List MetadataProfile → List MetadataProfile → GenerationRequest F
  unfolding cap_runtime_budget default_budget trim
  generation_request payload sources targets = record {
    business_request = trim payload.business_request;
    source_profiles = map g.profile_context sources;
    target_profiles = map g.profile_context targets;
    max_runtime_budget = cap_runtime_budget payload.max_runtime_budget default_budget;
    prompt_version = trim payload.prompt_version;
    incremental_field = none;
  }

  -- the draft, its pipeline and the request to the workflow
  unfoldable pub prepare_generation_context :
      ℕ
      → GenerationStartRequest F
      → Request
      → Db F
      → Result ApiError (PipelineVersion F × Pipeline × GenerationRequest F)
  unfolding generation_request require_project_role trim
  prepare_generation_context version_id payload request db = do
    version ← require (version_by version_id db) (api_error version_not_found 404)
    pipeline ← require (pipeline_by version.pipeline_id db) (api_error pipeline_not_found 404)
    roles ← require_project_role db pipeline.project_id request.user (maker ∷ [])
    guard (not version.immutable) (api_error version_immutable 409)
    let sources = keep (has_profile_id payload.source_profile_ids pipeline.project_id) db.profiles
    let targets = keep (has_profile_id payload.target_profile_ids pipeline.project_id) db.profiles
    guard
        ((length sources == length (distinct payload.source_profile_ids)) && not (is_empty targets))
        (api_error profile_not_found 404)
    guard (length targets == length (distinct payload.target_profile_ids))
        (api_error profile_not_found 404)
    guard (has_texts payload) (api_error validation_error 500)
    ok (version, pipeline, generation_request payload sources targets)

  -- the row that `session.flush` inserts
  unfoldable pub new_run :
      GenerationStartRequest F → PipelineVersion F → Pipeline → GenerationRequest F → AgentRun F
  new_run payload version pipeline contexts = record {
    id = g.fresh_run;
    project_id = pipeline.project_id;
    pipeline_version_id = some version.id;
    thread_id = thread_of payload;
    request = some contexts;
    status = Status.running;
    provider = none;
    model = none;
    repair_count = 0;
    node_trace = [];
    error_code = none;
    result_digest = none;
    clarification_questions = [];
    validation_issues = [];
  }

  -- the version with a plan
  unfoldable pub freeze : EtlPlan F → GenerationRequest F → PipelineVersion F → PipelineVersion F
  freeze plan contexts version = record version {
    status = PipelineVersionStatus.ready;
    immutable = true;
    artifact_digest = some (g.artifact_digest plan);
    quality_contract = some plan.quality_contract;
    hocon = plan.hocon;
    source_profile_ids = map (λ (p : ProfileContext). p.profile_id) contexts.source_profiles;
    target_profile_ids = map (λ (p : ProfileContext). p.profile_id) contexts.target_profiles;
  }

  abbrev pub digest_of : Option (EtlPlan F) → Option String → Option String
  digest_of none before = before
  digest_of (some plan) before = some (g.artifact_digest plan)

  unfoldable pub finish_run : GenerationResult F → AgentRun F → AgentRun F
  finish_run result run = record run {
    status = result.status;
    provider = result.provider;
    model = result.model;
    repair_count = result.repair_count;
    node_trace = result.node_trace;
    error_code = result.error_code;
    result_digest = digest_of result.plan run.result_digest;
    clarification_questions = result.clarification_questions;
    validation_issues = result.validation_issues;
  }

  -- a row that is not this one and has the digest, which the column's unique constraint refuses
  abbrev pub has_digest : ℕ → String → PipelineVersion F → Bool
  has_digest id digest v =
      not (v.id == id) && elim v.artifact_digest [ some d ↦ str_eq d digest | none ↦ false ]

  unfoldable pub freeze_version :
      Option (EtlPlan F) → GenerationRequest F → PipelineVersion F → Db F → Result ApiError (Db F)
  unfolding freeze
  freeze_version none contexts version db = ok db
  freeze_version (some plan) contexts version db =
      if any (has_digest version.id (g.artifact_digest plan)) db.versions
      then err (api_error integrity_error 500)
      else ok (save_version (freeze plan contexts version) db)

  unfoldable pub persist_generation_result :
      GenerationResult F
      → GenerationRequest F
      → PipelineVersion F
      → AgentRun F
      → GenerationTables F
      → Body (GenerationTables F) (AgentRun F)
  unfolding freeze_version finish_run last_attempt new_attempts
  persist_generation_result result contexts version run t = do
    db ← freeze_version result.plan contexts version t.db
    let finished_run = finish_run result run
    ok (
      ok finished_run,
      record {
        db = db;
        agent_runs = insert finished_run t.agent_runs;
        attempts =
            t.attempts ++ new_attempts run.id (last_attempt run.id t.attempts) result.attempts;
      },
    )

  -- the end of a run: its result, or the exception, which is kept on the row
  unfoldable pub end_generation :
      Result WorkflowError (GenerationResult F)
      → GenerationRequest F
      → PipelineVersion F
      → AgentRun F
      → GenerationTables F
      → Body (GenerationTables F) (AgentRun F)
  unfolding persist_generation_result
  end_generation (ok result) contexts version run t =
      persist_generation_result result contexts version run t
  end_generation (err e) contexts version run t =
      let failed_run = record run { status = Status.failed; error_code = some "WORKFLOW_FAILED" } in
      ok (
        err (api_error workflow_failed 503),
        record t { agent_runs = insert failed_run t.agent_runs },
      )

  unfoldable pub generate_body :
      ℕ
      → GenerationStartRequest F
      → Request
      → GenerationTables F
      → Body (GenerationTables F) (AgentRun F)
  unfolding prepare_generation_context new_run end_generation run_generation_workflow
  generate_body version_id payload request t = do
    (version, pipeline, contexts) ← prepare_generation_context version_id payload request t.db
    guard (not (any (λ (r : AgentRun F). text_eq r.thread_id (thread_of payload)) t.agent_runs))
        (api_error integrity_error 500)
    end_generation
        (run_generation_workflow g.provider g.checkers 1 contexts (g.checkpoint (thread_of payload))
          false)
        contexts version (new_run payload version pipeline contexts) t

  unfoldable pub generate_version :
      ℕ
      → GenerationStartRequest F
      → Request
      → GenerationTables F
      → Outcome (GenerationTables F) (AgentRun F)
  unfolding generate_body
  generate_version version_id payload request t =
      run_handler t (generate_body version_id payload request t)
