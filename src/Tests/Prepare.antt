-- ===== src/Tests/Prepare.antt =====
-- A run of `prepare_version`.
use etl_agent.Commit.Handler.{commit_approved, commit_open}
use etl_agent.Api.{preparation_not_committable, validation_error, api_error}
use etl_agent.Access.{roles_of, require_project_membership, require_project_role}
use etl_agent.Commit.{granted_profiles, current_fingerprint, has_all_profiles, check_version}
use etl_agent.Prepare.Slots.{AreOpenSlots}
use etl_agent.Prepare.Level.{prepare_version_level}
use etl_agent.Prepare.Current.{prepare_version_current}
use etl_agent.Domain.{cap_runtime_budget, default_budget}
use etl_agent.Services.{Request}
use etl_agent.Tests.Data.{profile_of, sha, sample_version, services, request_at, approved_tables}
use etl_agent.Prepare.{
  capped_input, check_preparable, prepare_body, prepare_version, new_preparation, PreparationCreate,
}
use etl_agent.Prelude.{
  arith, ◌≢◌, false, ◌⊎◌, ◌≤◌, ◌≡◌, refl, ◌↔◌, String, true, List, [], ◌∷◌, find, by,
}
use etl_agent.Prelude.Result.{err, ok}
use etl_agent.Prelude.Text.{lower, is_space, is_white_space, ltrim, trim, codes, text_eq}
use etl_agent.Store.{ApprovalRequest, PreparationStatus, Db, Preparation, PipelineVersion}
use etl_agent.Float.{ratio_laws, ratio_ops, Ratio}
use etl_agent.Policy.{
  is_sensitive, p2, is_restricted, is_production, decide_policy, p3, etl_execute, confidential, p0,
}
use etl_agent.Prelude.Sort.{distinct}

abbrev payload : PreparationCreate Ratio
payload = record {
  tool_intent = etl_execute;
  environment = codes " staging ";
  data_classification = confidential;
  writes_target = true;
  runtime_budget = default_budget;
  resource_scope = [];
}

abbrev empty_tables : Db Ratio
empty_tables = record approved_tables { preparations = []; approvals = [] }

abbrev maker_request : Request
maker_request = record (request_at 1000) { user = 1 }

abbrev made : Preparation Ratio
made =
    new_preparation services maker_request payload (record { id = 6; project_id = 5 })
      sample_version sha (profile_of 20 ∷ profile_of 21 ∷ [])

prepares : (prepare_version services 7 payload maker_request empty_tables).0 ≡ ok made
unfolding prepare_version prepare_body check_preparable new_preparation has_all_profiles
    granted_profiles distinct require_project_role require_project_membership roles_of find by trim
    ltrim is_white_space is_space capped_input
prepares = refl

-- white space around the environment does not hide production
abbrev production_payload : PreparationCreate Ratio
production_payload = record payload { environment = codes " prod " }

trims_environment :
    (new_preparation services maker_request production_payload
      (record { id = 6; project_id = 5 })
      sample_version
      sha
      []).risk_level
    ≡ p3
unfolding new_preparation trim ltrim is_white_space is_space capped_input decide_policy
    cap_runtime_budget default_budget is_production lower
trims_environment = refl

-- a blank environment raises
refuses_blank :
    (prepare_version services 7
      (record payload { environment = codes "  " })
      maker_request
      empty_tables).0
    ≡ err (api_error validation_error 500)
unfolding prepare_version prepare_body check_preparable new_preparation has_all_profiles
    granted_profiles distinct require_project_role require_project_membership roles_of find by trim
    ltrim is_white_space is_space
refuses_blank = refl

abbrev Slots : Preparation Ratio → Db Ratio → Type 0
Slots p after =
    ((p.status ≡ PreparationStatus.prepared) ↔ (p.risk_level ≡ p0))
    × (p.created_by ≡ 1)
    × (1060 ≤ p.expires_at)
    × (p.expires_at ≤ 4600)
    × ((slots : List ApprovalRequest) × (after.approvals ≡ slots)
        × AreOpenSlots p.project_id p.id p.required_roles slots)

prepare_version_current_example :
    let after = (prepare_version services 7 payload maker_request empty_tables).1 in
    (v : PipelineVersion Ratio × String) × (check_version services after made ≡ ok v)
    × (text_eq (current_fingerprint services after made v.0 v.1) made.input_fingerprint ≡ true)
    × (made.risk_level ≡ p0
        → commit_open services (request_at 2000) made after
          ≡ commit_approved services (request_at 2000) made v.0 v.1 after)
    × (made.risk_level ≢ p0
        → commit_open services (request_at 2000) made after
          ≡ err (api_error preparation_not_committable 409))
unfolding new_preparation
prepare_version_current_example =
    prepare_version_current services 7 payload maker_request empty_tables (request_at 2000) prepares
      (omega arith)

prepare_version_level_example :
    let production = is_production (trim payload.environment) in
    ((made.risk_level ≡ p3)
      ↔ ((is_restricted payload.data_classification ≡ true) ⊎ (production ≡ true)))
    × ((made.risk_level ≡ p2)
        ↔ ((payload.data_classification ≡ confidential) × (production ≡ false)))
    × ((made.risk_level ≡ p0) ↔ (
        (payload.writes_target ≡ false)
        × (is_sensitive payload.data_classification ≡ false)
        × (production ≡ false)))
prepare_version_level_example =
    prepare_version_level ratio_laws services 7 payload maker_request empty_tables prepares
