-- ===== src/Domain.antt =====
-- src/etl_agent/domain/generation.py: the models at the boundary between the LLM's output and the
-- control plane. UUIDs are numbers. The bounds that pydantic puts on a field are not carried by the
-- types; where a proof needs one it is a hypothesis.
use etl_agent.Prelude.{ℕ, String, Option, List, [], min}
use etl_agent.Prelude.Text.{Text}
use etl_agent.Float.{FloatOps, float_min, int_div}

pub data TransformOperation : Type 0 where
  cast rename mask filter fill_null : TransformOperation

pub record ProfileContext : Type 0 where
  pub profile_id : ℕ
  pub connection_id : ℕ
  pub fingerprint : String
  pub fields : List String

pub record ConnectionProfileRef : Type 0 where
  pub connection_id : ℕ
  pub profile_id : ℕ

pub record FieldMapping : Type 0 where
  pub source_field : String
  pub target_field : String
  pub transform : Option TransformOperation

-- `parameters` is read only by the runtime compiler and is left out.
pub record TransformRule : Type 0 where
  pub operation : TransformOperation
  pub source_fields : List String
  pub target_field : Option String

module _ (F : Type 0) where
  pub record QualityContract : Type 0 where
    pub required_fields : List String
    pub max_rejection_rate : F
    pub error_table_suffix : String

  pub record RuntimeBudget : Type 0 where
    pub max_input_records : ℕ
    pub max_output_bytes : ℕ
    pub max_runtime_seconds : ℕ
    pub max_output_amplification : F
    pub max_rejection_rate : F

pub record EtlPlan (F : Type 0) : Type 0 where
  pub schema_version : String
  pub source : ConnectionProfileRef
  pub target : ConnectionProfileRef
  pub field_mappings : List FieldMapping
  pub transforms : List TransformRule
  pub quality_contract : QualityContract F
  pub runtime_budget : RuntimeBudget F
  pub hocon : Text

-- `answers` is the answer to the question `incremental_field`, the only key that the program reads.
pub record GenerationRequest (F : Type 0) : Type 0 where
  pub business_request : Text
  pub source_profiles : List ProfileContext
  pub target_profiles : List ProfileContext
  pub max_runtime_budget : RuntimeBudget F
  pub prompt_version : Text
  pub incremental_field : Option Text

-- `required` is always true and is left out.
pub record ClarificationQuestion : Type 0 where
  pub key : String
  pub question : String

pub data PathItem : Type 0 where
  field : Text → PathItem
  index : ℕ → PathItem

pub record ValidationIssue : Type 0 where
  pub code : String
  pub message : Text
  pub path : List PathItem

module _ {F : Type 0} ⦃fl : FloatOps F⦄ where
  -- `RuntimeBudget()`
  unfoldable pub default_budget : RuntimeBudget F
  default_budget = record {
    max_input_records = 10000000;
    max_output_bytes = 10737418240;
    max_runtime_seconds = 3600;
    max_output_amplification = int_div 10 1;
    max_rejection_rate = int_div 5 100;
  }

  unfoldable pub cap_runtime_budget : RuntimeBudget F → RuntimeBudget F → RuntimeBudget F
  cap_runtime_budget requested maximum = record {
    max_input_records = min requested.max_input_records maximum.max_input_records;
    max_output_bytes = min requested.max_output_bytes maximum.max_output_bytes;
    max_runtime_seconds = min requested.max_runtime_seconds maximum.max_runtime_seconds;
    max_output_amplification =
        float_min requested.max_output_amplification maximum.max_output_amplification;
    max_rejection_rate = float_min requested.max_rejection_rate maximum.max_rejection_rate;
  }

  -- `QualityContract()`
  unfoldable pub default_contract : QualityContract F
  default_contract = record {
    required_fields = [];
    max_rejection_rate = int_div 5 100;
    error_table_suffix = "__errors";
  }
