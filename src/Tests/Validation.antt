-- ===== src/Tests/Validation.antt =====
-- Runs of src/etl_agent/workflows/validation.py.
use etl_agent.Prelude.{refl, true, List, ◌≡◌, ◌↔◌, false, none, some, [], ◌∷◌}
use etl_agent.Prelude.Result.{ok}
use etl_agent.Prelude.Text.{lower, Text, codes}
use etl_agent.Validation.Plan.{Checkers, compile_hocon, validate_plan_payload}
use etl_agent.Domain.{ValidationIssue, EtlPlan, GenerationRequest}
use etl_agent.Values.{Value, null_value, object}
use etl_agent.Float.{Ratio, ratio_ops}
use etl_agent.Domain.{ProfileContext, default_budget, default_contract}
use etl_agent.Validation.Plan.{parse_plan_payload}
use etl_agent.Validation.Gate.{IsSafe}
use etl_agent.Validation.Accept.{validate_plan_payload_accepts}
use etl_agent.Validation.Keys.{compile_hocon_accepts, HasKey}
use etl_agent.Validation.{
  occurs_in, prefix_at, is_negated, starts_with, find_in, requested_marker, marker_loop,
  is_forbidden,
}
use etl_agent.Values.{no_fields, entry}

abbrev pub sample_plan : EtlPlan Ratio
sample_plan = record {
  schema_version = "1.0";
  source = record { connection_id = 1; profile_id = 11 };
  target = record { connection_id = 2; profile_id = 12 };
  field_mappings = record { source_field = "a"; target_field = "b"; transform = none } ∷ [];
  transforms = [];
  quality_contract = default_contract;
  runtime_budget = default_budget;
  hocon = codes "env";
}

abbrev pub sample_config : Value
sample_config = object (entry (codes "env") null_value no_fields)

-- JSON and HOCON texts all read alike, and every object is the sample plan.
abbrev pub sample_checkers : Checkers Ratio
sample_checkers = record {
  loads = λ t. some (object no_fields);
  schema_errors = λ fields. [];
  model_validate = λ fields. ok sample_plan;
  parse_hocon = λ t. some sample_config;
}

abbrev pub source_profile : ProfileContext
source_profile = record { profile_id = 11; connection_id = 1; fingerprint = "s"; fields = "a" ∷ [] }

abbrev pub target_profile : ProfileContext
target_profile = record { profile_id = 12; connection_id = 2; fingerprint = "t"; fields = "b" ∷ [] }

abbrev pub sample_request : GenerationRequest Ratio
sample_request = record {
  business_request = codes "copy";
  source_profiles = source_profile ∷ [];
  target_profiles = target_profile ∷ [];
  max_runtime_budget = default_budget;
  prompt_version = codes "v1";
  incremental_field = none;
}

compile_hocon_accepts_example : (compile_hocon sample_checkers (codes "env") ≡ ok sample_config) ↔ (
    (sample_checkers.parse_hocon (codes "env") ≡ some sample_config)
    × ((key : Text) → HasKey key sample_config → is_forbidden key ≡ false))
compile_hocon_accepts_example = compile_hocon_accepts sample_checkers (codes "env") sample_config

validate_plan_payload_accepts_example :
    (validate_plan_payload sample_checkers (object no_fields) sample_request
      ≡ ok (some sample_plan, []))
    ↔ ((◌≡◌ {A = List ValidationIssue} [] [])
        × (parse_plan_payload sample_checkers (object no_fields) ≡ ok (some sample_plan, []))
        × ((config : Value) × (compile_hocon sample_checkers sample_plan.hocon ≡ ok config))
        × IsSafe sample_plan sample_request)
validate_plan_payload_accepts_example =
    validate_plan_payload_accepts sample_checkers (object no_fields) sample_request sample_plan []

-- the marker is found, and is not found behind a negation
asks_for_cdc : requested_marker (codes "用 CDC 同步") (codes "cdc") ≡ true
unfolding requested_marker marker_loop lower find_in starts_with is_negated prefix_at occurs_in
asks_for_cdc = refl

refuses_cdc : requested_marker (codes "不用 CDC") (codes "cdc") ≡ false
unfolding requested_marker marker_loop lower find_in starts_with is_negated prefix_at occurs_in
refuses_cdc = refl
