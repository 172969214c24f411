-- ===== src/Tests/Generation.antt =====
-- Runs of src/etl_agent/api/generation.py.
use etl_agent.Api.{validation_error, api_error}
use etl_agent.Prelude.Result.{err}
use etl_agent.Services.{Request}
use etl_agent.Validation.{
  find_in, marker_loop, requested_marker, is_forbidden, walk_fields, walk,
  normalize_legacy_mapping_transform, starts_with, occurs_in,
}
use etl_agent.Prelude.Sort.{distinct}
use etl_agent.Prelude.{
  map_option, ◌≡◌, refl, ◌⊎◌, true, false, Option, none, some, [], ◌∷◌, ◌==◌, find, by, save,
  insert, if◌then◌else◌,
}
use etl_agent.Prelude.Text.{is_white_space, ltrim, trim, is_space, lstrip, strip, lower, codes}
use etl_agent.Store.{PipelineVersion}
use etl_agent.Values.{field_at}
use etl_agent.Domain.{GenerationRequest, default_contract, cap_runtime_budget, default_budget}
use etl_agent.Validation.Plan.{
  transform_issues, feature_issues, quality_issues, mapping_issues, target_field_issues,
  source_field_issues, budget_issues, profile_at, target_issues, source_issues, deterministic_gate,
  gated, parse_object, parse_value, parse_plan_payload, validate_plan_payload, compile_hocon,
}
use etl_agent.Workflow.{
  Status, pass_gate, store_config, compile_optional, compile_plan, change_last, store_checked,
  validate_schema, answer_candidate, generate_candidate, interrupt, enrich_profile, store_questions,
  missing_questions, parse_intent,
}
use etl_agent.Workflow.Run.{after, run_node, invoke, run_generation_workflow}
use etl_agent.Rows.{version_by}
use etl_agent.Access.{require_project_role}
use etl_agent.Store.{PipelineVersionStatus}
use etl_agent.Generation.{
  AgentRun, GenerationStartRequest, GenerationTables, Generator, generation_request,
  prepare_generation_context, new_run, freeze, freeze_version, persist_generation_result,
  end_generation, generate_body, generate_version, finish_run, last_attempt, new_attempts,
}
use etl_agent.Generation.Worker.{
  fail_run, run_generation_agent, run_with, persist_all, persist_progress, put_attempts,
  put_attempt, progress, end_run, store_result, store_finished,
}
use etl_agent.Workflow.Run.{stream}
use etl_agent.Generation.Kept.{HasSafePlan}
use etl_agent.Generation.Safe.{run_generation_agent-HasSafePlan}
use etl_agent.Tests.Validation.{sample_request}
use etl_agent.Generation.Frozen.{generate_version-IsFrozen, IsFrozen}
use etl_agent.Values.{field_at}
use etl_agent.Float.{Ratio, ratio_ops}
use etl_agent.Tests.Data.{request_at, sample_version, approved_tables, sha}
use etl_agent.Tests.Validation.{sample_checkers, source_profile, target_profile}
use etl_agent.Tests.Workflow.{sample_provider}
use etl_agent.Access.{require_project_membership, roles_of}

abbrev draft : PipelineVersion Ratio
draft = record sample_version {
  status = PipelineVersionStatus.draft;
  immutable = false;
  artifact_digest = none;
  hocon = [];
}

abbrev payload : GenerationStartRequest Ratio
payload = record {
  business_request = codes " copy ";
  source_profile_ids = 20 ∷ [];
  target_profile_ids = 21 ∷ [];
  max_runtime_budget = default_budget;
  prompt_version = codes "v1";
  thread_id = none;
}

abbrev generator : Generator Ratio
generator = record {
  provider = sample_provider;
  checkers = sample_checkers;
  checkpoint = λ thread. none;
  artifact_digest = λ plan. sha;
  profile_context = λ p. if p.id == 20 then source_profile else target_profile;
  fresh_run = 80;
  fresh_thread = codes "thread";
}

-- user 1 is a maker
abbrev maker_request : Request
maker_request = record (request_at 1000) { user = 1 }

abbrev before : GenerationTables Ratio
before = record {
  db = record approved_tables { versions = draft ∷ [] };
  agent_runs = [];
  attempts = [];
}

abbrev row_or : PipelineVersion Ratio → Option (PipelineVersion Ratio) → PipelineVersion Ratio
row_or v (some w) = w
row_or v none = v

abbrev frozen : PipelineVersion Ratio
frozen =
    row_or draft (version_by 7 (generate_version generator 7 payload maker_request before).1.db)

finds_draft : version_by 7 before.db ≡ some draft
unfolding by find
finds_draft = refl

freezes :
    version_by 7 (generate_version generator 7 payload maker_request before).1.db ≡ some frozen
unfolding generate_version generate_body prepare_generation_context generation_request
    require_project_role require_project_membership roles_of cap_runtime_budget distinct new_run
    end_generation persist_generation_result freeze_version freeze finish_run last_attempt
    new_attempts by find save insert run_generation_workflow invoke run_node after parse_intent
    missing_questions strip lstrip is_space trim ltrim is_white_space lower occurs_in starts_with
    store_questions enrich_profile interrupt generate_candidate answer_candidate validate_schema
    validate_plan_payload parse_plan_payload parse_value parse_object
    normalize_legacy_mapping_transform field_at gated compile_hocon walk walk_fields is_forbidden
    deterministic_gate source_issues target_issues profile_at budget_issues source_field_issues
    target_field_issues mapping_issues quality_issues feature_issues requested_marker marker_loop
    find_in transform_issues store_checked change_last compile_plan compile_optional store_config
    pass_gate default_budget default_contract
freezes = refl

generate_version-IsFrozen_example : (frozen ≡ draft) ⊎ IsFrozen generator payload draft frozen
generate_version-IsFrozen_example =
    generate_version-IsFrozen generator 7 payload maker_request before draft frozen
      (λ contexts. refl) finds_draft freezes

-- the version is frozen
is_frozen : frozen.immutable ≡ true
unfolding generate_version generate_body prepare_generation_context generation_request
    require_project_role require_project_membership roles_of cap_runtime_budget distinct new_run
    end_generation persist_generation_result freeze_version freeze finish_run last_attempt
    new_attempts by find save insert run_generation_workflow invoke run_node after parse_intent
    missing_questions strip lstrip is_space trim ltrim is_white_space lower occurs_in starts_with
    store_questions enrich_profile interrupt generate_candidate answer_candidate validate_schema
    validate_plan_payload parse_plan_payload parse_value parse_object
    normalize_legacy_mapping_transform field_at gated compile_hocon walk walk_fields is_forbidden
    deterministic_gate source_issues target_issues profile_at budget_issues source_field_issues
    target_field_issues mapping_issues quality_issues feature_issues requested_marker marker_loop
    find_in transform_issues store_checked change_last compile_plan compile_optional store_config
    pass_gate default_budget default_contract
is_frozen = refl

abbrev queued_run : AgentRun Ratio
queued_run = record {
  id = 80;
  project_id = 5;
  pipeline_version_id = some 7;
  thread_id = codes "thread";
  request = some sample_request;
  status = Status.running;
  provider = none;
  model = none;
  repair_count = 0;
  node_trace = [];
  error_code = none;
  result_digest = none;
  clarification_questions = [];
  validation_issues = [];
}

abbrev with_run : GenerationTables Ratio
with_run = record before { agent_runs = queued_run ∷ [] }

abbrev worker_row : PipelineVersion Ratio
worker_row =
    row_or draft
      (version_by 7 (run_generation_agent generator (some sample_provider) 80 with_run).1.db)

finds_run : by (λ (r : AgentRun Ratio). r.id) 80 with_run.agent_runs ≡ some queued_run
unfolding by find
finds_run = refl

works :
    version_by 7 (run_generation_agent generator (some sample_provider) 80 with_run).1.db
    ≡ some worker_row
unfolding generate_version generate_body prepare_generation_context generation_request
    require_project_role require_project_membership roles_of cap_runtime_budget distinct new_run
    end_generation persist_generation_result freeze_version freeze finish_run last_attempt
    new_attempts by find save insert run_generation_workflow invoke run_node after parse_intent
    missing_questions strip lstrip is_space trim ltrim is_white_space lower occurs_in starts_with
    store_questions enrich_profile interrupt generate_candidate answer_candidate validate_schema
    validate_plan_payload parse_plan_payload parse_value parse_object
    normalize_legacy_mapping_transform field_at gated compile_hocon walk walk_fields is_forbidden
    deterministic_gate source_issues target_issues profile_at budget_issues source_field_issues
    target_field_issues mapping_issues quality_issues feature_issues requested_marker marker_loop
    find_in transform_issues store_checked change_last compile_plan compile_optional store_config
    pass_gate default_budget default_contract run_generation_agent run_with persist_all
    persist_progress put_attempts put_attempt progress end_run store_result store_finished stream
works = refl

run_generation_agent-HasSafePlan_example :
    (worker_row ≡ draft)
    ⊎ ((contexts : GenerationRequest Ratio) × (queued_run.request ≡ some contexts)
        × HasSafePlan generator contexts worker_row)
run_generation_agent-HasSafePlan_example =
    run_generation_agent-HasSafePlan generator (some sample_provider) 80 7 with_run queued_run draft
      worker_row finds_run (λ contexts valid. refl) refl finds_draft works

-- the worker freezes the version
worker_freezes : worker_row.immutable ≡ true
unfolding generate_version generate_body prepare_generation_context generation_request
    require_project_role require_project_membership roles_of cap_runtime_budget distinct new_run
    end_generation persist_generation_result freeze_version freeze finish_run last_attempt
    new_attempts by find save insert run_generation_workflow invoke run_node after parse_intent
    missing_questions strip lstrip is_space trim ltrim is_white_space lower occurs_in starts_with
    store_questions enrich_profile interrupt generate_candidate answer_candidate validate_schema
    validate_plan_payload parse_plan_payload parse_value parse_object
    normalize_legacy_mapping_transform field_at gated compile_hocon walk walk_fields is_forbidden
    deterministic_gate source_issues target_issues profile_at budget_issues source_field_issues
    target_field_issues mapping_issues quality_issues feature_issues requested_marker marker_loop
    find_in transform_issues store_checked change_last compile_plan compile_optional store_config
    pass_gate default_budget default_contract run_generation_agent run_with persist_all
    persist_progress put_attempts put_attempt progress end_run store_result store_finished stream
worker_freezes = refl

-- a version that another run has frozen meanwhile
abbrev frozen_before : GenerationTables Ratio
frozen_before = record with_run {
  db = record approved_tables {
    versions = record sample_version { artifact_digest = some "earlier" } ∷ [];
  };
}

-- the worker overwrites the digest of a version that is frozen already
overwrites_frozen :
    map_option
      (λ (v : PipelineVersion Ratio). v.artifact_digest)
      (version_by 7 (run_generation_agent generator (some sample_provider) 80 frozen_before).1.db)
    ≡ some (some sha)
unfolding generate_version generate_body prepare_generation_context generation_request
    require_project_role require_project_membership roles_of cap_runtime_budget distinct new_run
    end_generation persist_generation_result freeze_version freeze finish_run last_attempt
    new_attempts by find save insert run_generation_workflow invoke run_node after parse_intent
    missing_questions strip lstrip is_space trim ltrim is_white_space lower occurs_in starts_with
    store_questions enrich_profile interrupt generate_candidate answer_candidate validate_schema
    validate_plan_payload parse_plan_payload parse_value parse_object
    normalize_legacy_mapping_transform field_at gated compile_hocon walk walk_fields is_forbidden
    deterministic_gate source_issues target_issues profile_at budget_issues source_field_issues
    target_field_issues mapping_issues quality_issues feature_issues requested_marker marker_loop
    find_in transform_issues store_checked change_last compile_plan compile_optional store_config
    pass_gate default_budget default_contract run_generation_agent run_with persist_all
    persist_progress put_attempts put_attempt progress end_run store_result store_finished stream
overwrites_frozen = refl

-- a blank request raises before a run is stored
refuses_blank :
    (generate_version generator 7
      (record payload { business_request = codes "  " })
      maker_request
      before).0
    ≡ err (api_error validation_error 500)
unfolding generate_version generate_body prepare_generation_context generation_request
    require_project_role require_project_membership roles_of cap_runtime_budget distinct new_run
    end_generation persist_generation_result freeze_version freeze finish_run last_attempt
    new_attempts by find save insert run_generation_workflow invoke run_node after parse_intent
    missing_questions strip lstrip is_space trim ltrim is_white_space lower occurs_in starts_with
    store_questions enrich_profile interrupt generate_candidate answer_candidate validate_schema
    validate_plan_payload parse_plan_payload parse_value parse_object
    normalize_legacy_mapping_transform field_at gated compile_hocon walk walk_fields is_forbidden
    deterministic_gate source_issues target_issues profile_at budget_issues source_field_issues
    target_field_issues mapping_issues quality_issues feature_issues requested_marker marker_loop
    find_in transform_issues store_checked change_last compile_plan compile_optional store_config
    pass_gate default_budget default_contract
refuses_blank = refl

-- a run whose stored request does not validate fails
abbrev with_invalid_run : GenerationTables Ratio
with_invalid_run = record before { agent_runs = record queued_run { request = none } ∷ [] }

refuses_invalid :
    map_option
      (λ (r : AgentRun Ratio). r.error_code)
      (by
        (λ (r : AgentRun Ratio). r.id)
        80
        (run_generation_agent generator (some sample_provider) 80 with_invalid_run).1.agent_runs)
    ≡ some (some "AGENT_REQUEST_INVALID")
unfolding run_generation_agent fail_run by find save
refuses_invalid = refl
