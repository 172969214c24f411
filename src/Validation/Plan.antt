-- ===== src/Validation/Plan.antt =====
-- src/etl_agent/workflows/validation.py: the parsing of a candidate, `deterministic_gate` and
-- `validate_plan_payload`.
use etl_agent.Validation.{
  unsupported_request_markers, at, issue, Crash, requested_marker, walk,
  normalize_legacy_mapping_transform,
}
use etl_agent.Values.{text_value, object, Fields, Value}
use etl_agent.Domain.{
  index, ConnectionProfileRef, GenerationRequest, TransformRule, TransformOperation, FieldMapping,
  RuntimeBudget, ProfileContext, ValidationIssue, EtlPlan, PathItem,
}
use etl_agent.Prelude.{
  ℕ, suc, String, Bool, true, false, Option, none, some, List, [], ◌∷◌, ◌++◌, ◌==◌, ltb, any, map,
  if◌then◌else◌, str_eq, is_empty, or_else, take,
}
use etl_agent.Prelude.Result.{Result, ok, err, ◌>>=◌}
use etl_agent.Prelude.Text.{Text, codes}
use etl_agent.Float.{FloatOps, float_lt}

-- An error of the JSON schema or of pydantic: its message and its path.
pub record SchemaError : Type 0 where
  pub message : Text
  pub path : List PathItem

pub record Checkers (F : Type 0) : Type 0 where
  -- `json.loads`
  pub loads : Text → Option Value
  -- the errors of the JSON schema of EtlPlan, sorted by their paths
  pub schema_errors : Fields → List SchemaError
  -- `EtlPlan.model_validate`
  pub model_validate : Fields → Result (List SchemaError) (EtlPlan F)
  -- `ConfigFactory.parse_string` with resolution
  pub parse_hocon : Text → Option Value

-- the plan, if any, and the issues
abbrev pub Checked : Type 0 → Type 0
Checked F = Option (EtlPlan F) × List ValidationIssue

abbrev pub schema_issue : SchemaError → ValidationIssue
schema_issue e = record { code = "SCHEMA_INVALID"; message = take 500 e.message; path = e.path }

module _ {F : Type 0} (checkers : Checkers F) where
  abbrev pub validated : Result (List SchemaError) (EtlPlan F) → Checked F
  validated (ok plan) = (some plan, [])
  validated (err errors) = (none, map schema_issue errors)

  unfoldable pub parse_object : Fields → Result Crash (Checked F)
  unfolding normalize_legacy_mapping_transform
  parse_object payload = do
    normalized ← normalize_legacy_mapping_transform payload
    let errors = checkers.schema_errors normalized
    ok (
        if is_empty errors
        then validated (checkers.model_validate normalized)
        else (none, map schema_issue (take 20 errors)))

  unfoldable pub parse_value : Value → Result Crash (Checked F)
  unfolding parse_object
  parse_value (object payload) = parse_object payload
  parse_value _ = ok (none, issue "INVALID_OBJECT" "候选内容必须是 JSON 对象" [] ∷ [])

  -- A candidate is a JSON value, or a text to be parsed; a missing one is the value null.
  unfoldable pub parse_plan_payload : Value → Result Crash (Checked F)
  unfolding parse_value
  parse_plan_payload (text_value t) = elim (checkers.loads t) [
    | some v ↦ parse_value v
    | none ↦ ok (none, issue "INVALID_JSON" "候选内容不是合法 JSON" [] ∷ [])
  ]
  parse_plan_payload v = parse_value v

  -- the configuration, or the issue
  unfoldable pub compile_hocon : Text → Result ValidationIssue Value
  unfolding walk
  compile_hocon hocon = elim (checkers.parse_hocon hocon) [
    | none ↦ err (issue "HOCON_INVALID" "HOCON 配置无法编译" [])
    | some config ↦
        if walk config then err (issue "HOCON_FORBIDDEN_KEY" "HOCON 包含禁止的脚本或工具配置" []) else ok config
  ]

-- a dictionary keyed by the profiles' ids: the last one with an id counts
unfoldable pub profile_at : ℕ → List ProfileContext → Option ProfileContext
profile_at id [] = none
profile_at id (p ∷ ps) =
    let rest = profile_at id ps in or_else rest (if p.profile_id == id then some p else none)

abbrev pub has_field : List String → String → Bool
has_field fields name = any (str_eq name) fields

abbrev pub reference_issues :
    Option ProfileContext
    → ConnectionProfileRef
    → ValidationIssue
    → ValidationIssue
    → List ValidationIssue
reference_issues none reference forbidden mismatch = forbidden ∷ []
reference_issues (some profile) reference forbidden mismatch =
    if profile.connection_id == reference.connection_id then [] else mismatch ∷ []

unfoldable pub source_issues : Option ProfileContext → ConnectionProfileRef → List ValidationIssue
source_issues profile reference =
    reference_issues profile reference
      (issue "SOURCE_PROFILE_FORBIDDEN" "源 Profile 不在本次请求授权范围内" (at "source" ∷ []))
      (issue "SOURCE_CONNECTION_MISMATCH" "源 Profile 与连接引用不匹配" (at "source" ∷ []))

unfoldable pub target_issues : Option ProfileContext → ConnectionProfileRef → List ValidationIssue
target_issues profile reference =
    reference_issues profile reference
      (issue "TARGET_PROFILE_FORBIDDEN" "目标 Profile 不在本次请求授权范围内" (at "target" ∷ []))
      (issue "TARGET_CONNECTION_MISMATCH" "目标 Profile 与连接引用不匹配" (at "target" ∷ []))

abbrev pub budget_issue : Bool → String → List ValidationIssue
budget_issue false name = []
budget_issue true name =
    record {
      code = "BUDGET_EXCEEDED";
      message = codes "模型请求扩大了 " ++ codes name ++ codes " 上限";
      path = at "runtime_budget" ∷ at name ∷ [];
    }
    ∷ []

module _ {F : Type 0} ⦃fl : FloatOps F⦄ where
  unfoldable pub budget_issues : RuntimeBudget F → RuntimeBudget F → List ValidationIssue
  budget_issues candidate budget =
      budget_issue (ltb budget.max_input_records candidate.max_input_records) "max_input_records"
      ++ budget_issue (ltb budget.max_output_bytes candidate.max_output_bytes) "max_output_bytes"
      ++ budget_issue (ltb budget.max_runtime_seconds candidate.max_runtime_seconds)
          "max_runtime_seconds"
      ++ budget_issue (float_lt budget.max_output_amplification candidate.max_output_amplification)
          "max_output_amplification"
      ++ budget_issue (float_lt budget.max_rejection_rate candidate.max_rejection_rate)
          "max_rejection_rate"

-- the issues of the mappings from an index on, whose field under a projection is not allowed
unfoldable pub mapping_issues :
    (FieldMapping → String)
    → List String
    → String
    → String
    → ℕ
    → List FieldMapping
    → List ValidationIssue
mapping_issues name allowed code message n [] = []
mapping_issues name allowed code message n (m ∷ ms) =
    let rest = mapping_issues name allowed code message (suc n) ms in
    if has_field allowed (name m)
    then rest
    else issue code message (at "field_mappings" ∷ index n ∷ []) ∷ rest

unfoldable pub quality_issues : List String → List String → List ValidationIssue
quality_issues allowed [] = []
quality_issues allowed (f ∷ fs) =
    let rest = quality_issues allowed fs in
    if has_field allowed f
    then rest
    else issue "QUALITY_FIELD_NOT_FOUND" "质量规则引用了不存在的目标字段" (at "quality_contract" ∷ []) ∷ rest

-- the fields that a profile lists, `none` if it is missing or lists none
abbrev pub listed_fields : Option ProfileContext → Option (List String)
listed_fields none = none
listed_fields (some profile) = if is_empty profile.fields then none else some profile.fields

unfoldable pub source_field_issues : Option (List String) → List FieldMapping → List ValidationIssue
unfolding mapping_issues
source_field_issues none mappings = []
source_field_issues (some allowed) mappings =
    mapping_issues (λ m. m.source_field) allowed "SOURCE_FIELD_NOT_FOUND" "映射引用了不存在的源字段" 0 mappings

unfoldable pub target_field_issues :
    Option (List String) → List FieldMapping → List String → List ValidationIssue
unfolding mapping_issues quality_issues
target_field_issues none mappings required = []
target_field_issues (some allowed) mappings required =
    mapping_issues (λ m. m.target_field) allowed "TARGET_FIELD_NOT_FOUND" "映射引用了不存在的目标字段" 0 mappings
    ++ quality_issues allowed required

abbrev pub config_issues : Option Value → List ValidationIssue
config_issues none = issue "HOCON_CONFIG_MISSING" "未找到已经编译的 HOCON 配置" [] ∷ []
config_issues (some config) = []

-- the issue of the first marker that the request asks for
unfoldable pub feature_issues : Text → List (String × String) → List ValidationIssue
unfolding requested_marker
feature_issues request [] = []
feature_issues request ((marker, feature) ∷ rest) =
    if requested_marker request (codes marker)
    then record {
      code = "UNSUPPORTED_DATA_PLANE_FEATURE";
      message = codes "当前真实数据面暂不支持" ++ codes feature ++ codes "，不会生成可执行版本";
      path = at "business_request" ∷ [];
    }
      ∷ []
    else feature_issues request rest

abbrev pub operation_name : TransformOperation → String
operation_name TransformOperation.cast = "cast"
operation_name TransformOperation.rename = "rename"
operation_name TransformOperation.mask = "mask"
operation_name TransformOperation.filter = "filter"
operation_name TransformOperation.fill_null = "fill_null"

abbrev pub is_supported : TransformOperation → Bool
is_supported TransformOperation.filter = true
is_supported TransformOperation.cast = true
is_supported _ = false

unfoldable pub transform_issues : ℕ → List TransformRule → List ValidationIssue
transform_issues n [] = []
transform_issues n (rule ∷ rules) =
    let rest = transform_issues (suc n) rules in
    if is_supported rule.operation
    then rest
    else record {
      code = "UNSUPPORTED_DATA_PLANE_TRANSFORM";
      message = codes "当前真实数据面暂不支持 " ++ codes (operation_name rule.operation) ++ codes " 转换";
      path = at "transforms" ∷ index n ∷ at "operation" ∷ [];
    }
      ∷ rest

module _ {F : Type 0} ⦃fl : FloatOps F⦄ where
  unfoldable pub deterministic_gate :
      EtlPlan F → GenerationRequest F → Option Value → List ValidationIssue
  unfolding source_issues target_issues budget_issues source_field_issues target_field_issues
      feature_issues transform_issues profile_at
  deterministic_gate plan request config =
      let source = profile_at plan.source.profile_id request.source_profiles in
      let target = profile_at plan.target.profile_id request.target_profiles in
      source_issues source plan.source
      ++ target_issues target plan.target
      ++ budget_issues plan.runtime_budget request.max_runtime_budget
      ++ source_field_issues (listed_fields source) plan.field_mappings
      ++ target_field_issues (listed_fields target) plan.field_mappings
          plan.quality_contract.required_fields
      ++ config_issues config
      ++ feature_issues request.business_request unsupported_request_markers
      ++ transform_issues 0 plan.transforms

  abbrev pub gate_of :
      EtlPlan F
      → GenerationRequest F
      → List ValidationIssue
      → Result ValidationIssue Value
      → List ValidationIssue
  gate_of plan request issues (ok config) = issues ++ deterministic_gate plan request (some config)
  gate_of plan request issues (err e) = issues ++ e ∷ deterministic_gate plan request none

  unfoldable pub gated : Checkers F → GenerationRequest F → Checked F → Checked F
  unfolding compile_hocon
  gated checkers request (none, issues) = (none, issues)
  gated checkers request (some plan, issues) =
      let all_issues = gate_of plan request issues (compile_hocon checkers plan.hocon) in
      ((if is_empty all_issues then some plan else none), all_issues)

  unfoldable pub validate_plan_payload :
      Checkers F → Value → GenerationRequest F → Result Crash (Checked F)
  unfolding gated parse_plan_payload
  validate_plan_payload checkers payload request = do
    parsed ← parse_plan_payload checkers payload
    ok (gated checkers request parsed)
