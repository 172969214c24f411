-- ===== src/Tests/Workflow.antt =====
-- Runs of src/etl_agent/workflows/graph.py.
use etl_agent.Workflow.Recorded.{calls}
use etl_agent.Prelude.{
  suc, ◌+◌, ◌≤◌, ◌≡◌, ◌≢◌, refl, ◌⊎◌, false, none, some, [], length, arith, ◌-◌, zero, max,
}
use etl_agent.Prelude.Result.{Result, ok, err}
use etl_agent.Prelude.Text.{is_space, lstrip, strip, lower}
use etl_agent.Validation.{
  find_in, marker_loop, requested_marker, is_forbidden, walk_fields, walk,
  normalize_legacy_mapping_transform, starts_with, occurs_in, unhashable,
}
use etl_agent.Validation.Plan.{
  transform_issues, feature_issues, quality_issues, mapping_issues, target_field_issues,
  source_field_issues, budget_issues, profile_at, target_issues, source_issues, deterministic_gate,
  gated, parse_object, parse_value, compile_hocon, validate_plan_payload,
}
use etl_agent.Domain.{EtlPlan}
use etl_agent.Values.{field_at, Value}
use etl_agent.Workflow.{
  intent_parse, store_config, compile_optional, store_checked, answer_candidate, store_questions,
  missing_questions, LlmProvider, parse_intent, enrich_profile, interrupt, generate_candidate,
  validate_schema, compile_plan, pass_gate, completed, change_last,
}
use etl_agent.Workflow.Run.{
  resume, default_limit, run_node, after, invoke, run_generation_workflow, start, GenerationResult,
  WorkflowError, crash, generation_result_of,
}
use etl_agent.Float.{Ratio, ratio_ops}
use etl_agent.Domain.{default_budget, default_contract}
use etl_agent.Validation.Plan.{parse_plan_payload}
use etl_agent.Validation.Gate.{IsSafe}
use etl_agent.Tests.Validation.{sample_checkers, sample_request}
use etl_agent.Workflow.Ends.{run_generation_workflow_ends}
use etl_agent.Workflow.Calls.{run_generation_workflow_calls}
use etl_agent.Workflow.Complete.{run_generation_workflow_plan}
use etl_agent.Values.{no_fields}

-- The first answer is an empty object, later ones are errors.
abbrev pub sample_provider : LlmProvider Ratio
sample_provider zero request errors previous =
    ok (record { payload = no_fields; provider = "p"; model = "m"; response_digest = "d" })
sample_provider (suc n) request errors previous = err (record { code = "LLM_DOWN"; message = [] })

abbrev run : Result WorkflowError (GenerationResult Ratio)
run = run_generation_workflow sample_provider sample_checkers 1 sample_request none false

abbrev result_or :
    GenerationResult Ratio → Result WorkflowError (GenerationResult Ratio) → GenerationResult Ratio
result_or r (ok s) = s
result_or r (err e) = r

abbrev result : GenerationResult Ratio
result = result_or (generation_result_of (start sample_request)) run

returns : run ≡ ok result
unfolding run_generation_workflow invoke run_node after parse_intent missing_questions strip lstrip
    is_space lower occurs_in starts_with store_questions enrich_profile interrupt generate_candidate
    answer_candidate validate_schema validate_plan_payload parse_plan_payload parse_value
    parse_object normalize_legacy_mapping_transform field_at gated compile_hocon walk walk_fields
    is_forbidden deterministic_gate source_issues target_issues profile_at budget_issues
    source_field_issues target_field_issues mapping_issues quality_issues feature_issues
    requested_marker marker_loop find_in transform_issues store_checked change_last compile_plan
    compile_optional store_config pass_gate default_budget default_contract
returns = refl

run_generation_workflow_ends_example :
    ((r : GenerationResult Ratio) × (run ≡ ok r)) ⊎ (run ≡ err (crash unhashable))
run_generation_workflow_ends_example =
    run_generation_workflow_ends sample_provider sample_checkers 1 sample_request none false
      (omega arith)

run_generation_workflow_calls_example :
    let called =
      calls sample_provider sample_checkers 1 default_limit
        (some intent_parse)
        (resume none sample_request) in
    (called ≤ (1 - 0) + 1) × (length result.attempts ≡ 0 + called) × (result.repair_count ≤ max 0 1)
run_generation_workflow_calls_example =
    run_generation_workflow_calls sample_provider sample_checkers 1 sample_request none result
      returns

run_generation_workflow_plan_example :
    ((result.status ≡ completed)
      × (result.validation_issues ≡ [])
      × ((plan : EtlPlan Ratio) × (payload : Value) × (result.plan ≡ some plan)
          × (parse_plan_payload sample_checkers payload ≡ ok (some plan, []))
          × ((config : Value) × (compile_hocon sample_checkers plan.hocon ≡ ok config))
          × IsSafe plan sample_request))
    ⊎ ((result.status ≢ completed) × (result.plan ≡ none))
run_generation_workflow_plan_example =
    run_generation_workflow_plan sample_provider sample_checkers 1 sample_request none result refl
      returns

-- the run completes after one attempt
completes : result.status ≡ completed
unfolding run_generation_workflow invoke run_node after parse_intent missing_questions strip lstrip
    is_space lower occurs_in starts_with store_questions enrich_profile interrupt generate_candidate
    answer_candidate validate_schema validate_plan_payload parse_plan_payload parse_value
    parse_object normalize_legacy_mapping_transform field_at gated compile_hocon walk walk_fields
    is_forbidden deterministic_gate source_issues target_issues profile_at budget_issues
    source_field_issues target_field_issues mapping_issues quality_issues feature_issues
    requested_marker marker_loop find_in transform_issues store_checked change_last compile_plan
    compile_optional store_config pass_gate default_budget default_contract
completes = refl
