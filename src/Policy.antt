-- ===== src/Policy.antt =====
-- src/etl_agent/harness/pdp.py, and the policy types of src/etl_agent/harness/models.py.
-- The environment is text, since the code lowers it; the reasons are an enumeration of the
-- source's messages.
pub mod Laws
use etl_agent.Prelude.{
  String, Bool, true, false, ◌||◌, List, [], ◌∷◌, ◌++◌, is_empty, if◌then◌else◌,
}
use etl_agent.Prelude.Text.{Text, codes, lower, text_eq}
use etl_agent.Float.{FloatOps, float_lt, int_div}
use etl_agent.Domain.{RuntimeBudget}

pub data ToolIntent : Type 0 where
  etl_execute : ToolIntent

pub data DataClassification : Type 0 where
  public internal confidential restricted : DataClassification

pub data RiskLevel : Type 0 where
  p0 p1 p2 p3 : RiskLevel

pub data Reason : Type 0 where
  writes_need_checker sensitive_needs_both restricted_highest production_highest : Reason
  amplification_over_default lowest_risk : Reason

pub record PolicyInput (F : Type 0) : Type 0 where
  pub tool_intent : ToolIntent
  pub environment : Text
  pub data_classification : DataClassification
  pub writes_target : Bool
  pub runtime_budget : RuntimeBudget F

pub record RiskDecision : Type 0 where
  pub policy_version : String
  pub risk_level : RiskLevel
  pub required_roles : List String
  pub reasons : List Reason

abbrev pub policy_version_v1 : String
policy_version_v1 = "pdp-v1"

abbrev pub is_sensitive : DataClassification → Bool
is_sensitive confidential = true
is_sensitive restricted = true
is_sensitive _ = false

abbrev pub is_restricted : DataClassification → Bool
is_restricted restricted = true
is_restricted _ = false

unfoldable pub is_production : Text → Bool
is_production environment =
    text_eq (lower environment) (codes "production") || text_eq (lower environment) (codes "prod")

-- one `if` of the ladder: it overwrites the risk and appends its reason
abbrev pub Verdict : Type 0
Verdict = record { risk : RiskLevel; reasons : List Reason }

abbrev pub escalate : Bool → RiskLevel → Reason → Verdict → Verdict
escalate true r why v = record { risk = r; reasons = v.reasons ++ why ∷ [] }
escalate false r why v = v

unfoldable pub roles_for : RiskLevel → List String
roles_for p0 = []
roles_for p1 = "checker_1" ∷ []
roles_for p2 = "checker_1" ∷ "checker_2" ∷ []
roles_for p3 = "checker_1" ∷ "checker_2" ∷ []

module _ {F : Type 0} ⦃fl : FloatOps F⦄ where
  unfoldable pub decide_policy : PolicyInput F → RiskDecision
  unfolding roles_for
  decide_policy input =
      let start : Verdict = record { risk = p0; reasons = [] } in
      let written = escalate input.writes_target p1 writes_need_checker start in
      let graded =
        escalate (is_sensitive input.data_classification) p2 sensitive_needs_both written in
      let restricted_data =
        escalate (is_restricted input.data_classification) p3 restricted_highest graded in
      let production =
        escalate (is_production input.environment) p3 production_highest restricted_data in
      let final =
        escalate (float_lt (int_div 10 1) input.runtime_budget.max_output_amplification) p3
          amplification_over_default production in
      record {
        policy_version = policy_version_v1;
        risk_level = final.risk;
        required_roles = roles_for final.risk;
        reasons = if is_empty final.reasons then lowest_risk ∷ [] else final.reasons;
      }
