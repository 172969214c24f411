-- ===== src/Store.antt =====
-- src/etl_agent/infrastructure/models.py: the tables of the control plane that the harness and the
-- workers read and write. A row is a record, a table the list of its rows in the order of insertion;
-- ids and times (in seconds) are numbers. A status column holds a value of its enumeration.
use etl_agent.Prelude.{ℕ, String, Bool, Option, List}
use etl_agent.Prelude.Text.{Text}
use etl_agent.Prelude.Dict.{Dict, Json}
use etl_agent.Domain.{RuntimeBudget, QualityContract}
use etl_agent.Policy.{RiskLevel, Reason, ToolIntent, DataClassification}
use etl_agent.Ledger.{EvidenceLedgerEvent}

pub data ProjectRole : Type 0 where
  maker checker_1 checker_2 operator auditor : ProjectRole

pub data PipelineVersionStatus : Type 0 where
  draft ready rejected : PipelineVersionStatus

pub data PreparationStatus : Type 0 where
  prepared approval_pending approved committed rejected expired : PreparationStatus

pub data ApprovalDecision : Type 0 where
  approve reject : ApprovalDecision

pub data ApprovalStatus : Type 0 where
  pending approved rejected : ApprovalStatus

pub data ExecutionRunStatus : Type 0 where
  queued running succeeded failed cancel_requested cancelled : ExecutionRunStatus

pub data QualityStatus : Type 0 where
  pending passed rejected failed : QualityStatus

pub data PublishStatus : Type 0 where
  not_started swap_requested published cleaned : PublishStatus

pub data RollbackStatus : Type 0 where
  not_requested requested completed failed : RollbackStatus

pub data OutboxEventStatus : Type 0 where
  pending published failed : OutboxEventStatus

-- the event types "execution.submit" and so on, and any other string
pub data Action : Type 0 where
  submit cancel cleanup swap rollback : Action

pub data EventType : Type 0 where
  execution_event : Action → EventType
  other_event : String → EventType

-- `f"{event_type}:{id}"`, and the same with a fresh suffix after a failure
pub data DeduplicationKey : Type 0 where
  first_time : EventType → ℕ → DeduplicationKey
  after_failure : EventType → ℕ → ℕ → DeduplicationKey

pub record ProjectMembership : Type 0 where
  pub project_id : ℕ
  pub user_id : ℕ
  pub is_active : Bool

pub record ProjectRoleGrant : Type 0 where
  pub project_id : ℕ
  pub user_id : ℕ
  pub role : ProjectRole

pub record User : Type 0 where
  pub id : ℕ
  pub is_active : Bool

pub record Pipeline : Type 0 where
  pub id : ℕ
  pub project_id : ℕ

-- a profile joined with its connection
pub record MetadataProfile : Type 0 where
  pub id : ℕ
  pub connection_id : ℕ
  pub project_id : ℕ
  pub fingerprint : Text

-- Of the plan, the quality contract (`none` where the plan is missing)
pub record PipelineVersion (F : Type 0) : Type 0 where
  pub id : ℕ
  pub pipeline_id : ℕ
  pub status : PipelineVersionStatus
  pub immutable : Bool
  pub artifact_digest : Option String
  pub hocon : Text
  pub source_profile_ids : List ℕ
  pub target_profile_ids : List ℕ
  pub quality_contract : Option (QualityContract F)

-- `facts_json`
pub record PreparationFacts (F : Type 0) : Type 0 where
  pub tool_intent : ToolIntent
  pub environment : Text
  pub data_classification : DataClassification
  pub writes_target : Bool
  pub risk_level : RiskLevel
  pub policy_version : String
  pub required_roles : List String
  pub runtime_budget : RuntimeBudget F
  pub input_fingerprint : Text
  pub pdp_reasons : List Reason

pub record Preparation (F : Type 0) : Type 0 where
  pub id : ℕ
  pub project_id : ℕ
  pub pipeline_version_id : ℕ
  pub created_by : ℕ
  pub status : PreparationStatus
  pub risk_level : RiskLevel
  pub policy_version : String
  pub input_fingerprint : Text
  pub required_roles : List String
  pub resource_scope : Dict Json
  pub runtime_budget : RuntimeBudget F
  pub facts : PreparationFacts F
  pub expires_at : ℕ

pub record ApprovalRequest : Type 0 where
  pub id : ℕ
  pub project_id : ℕ
  pub preparation_id : ℕ
  pub required_role : String
  pub status : ApprovalStatus
  pub decision : Option ApprovalDecision
  pub approver_id : Option ℕ
  pub comment : Option Text
  pub decided_at : Option ℕ

pub record ExecutionRun : Type 0 where
  pub id : ℕ
  pub project_id : ℕ
  pub preparation_id : ℕ
  pub pipeline_version_id : ℕ
  pub created_by : ℕ
  pub status : ExecutionRunStatus
  pub engine_job_id : Option Text
  pub idempotency_key : Text
  pub artifact_digest : String
  pub input_fingerprint : Text
  pub capability_token_digest : Text
  pub correlation_id : String
  pub committed_at : ℕ
  pub started_at : Option ℕ
  pub completed_at : Option ℕ
  pub metrics : Dict Json
  pub error_code : Option String
  pub error_detail : Option Text
  pub quality_status : QualityStatus
  pub publish_status : PublishStatus
  pub rollback_status : RollbackStatus
  pub shadow_table : Option Text
  pub error_table : Option Text

pub record OutboxEvent : Type 0 where
  pub id : ℕ
  pub project_id : ℕ
  pub aggregate_id : ℕ
  pub event_type : EventType
  pub deduplication_key : DeduplicationKey
  pub status : OutboxEventStatus
  pub attempts : ℕ
  pub payload : Dict Json
  pub capability_token : Text
  pub last_error : Option Text
  pub published_at : Option ℕ

pub record Db (F : Type 0) : Type 0 where
  pub users : List User
  pub memberships : List ProjectMembership
  pub grants : List ProjectRoleGrant
  pub pipelines : List Pipeline
  pub versions : List (PipelineVersion F)
  pub profiles : List MetadataProfile
  pub preparations : List (Preparation F)
  pub approvals : List ApprovalRequest
  pub executions : List ExecutionRun
  pub outbox : List OutboxEvent
  pub ledger : List EvidenceLedgerEvent
