-- ===== src/Workflow.antt =====
-- src/etl_agent/workflows/graph.py: the nodes and edges of the generation graph. The language model is
-- the parameter `provider`.
pub mod Run
pub mod Loop
pub mod Bounds
pub mod Ends
pub mod Recorded
pub mod Calls
pub mod Complete
use etl_agent.Prelude.{
  ℕ, suc, ◌+◌, ◌*◌, ◌≤◌, ◌<◌, ◌≡◌, ◌≢◌, refl, sym, ap, subst, ◌∙◌, ◌↔◌, ◌⊎◌, inl, inr, String, Bool,
  true, false, ◌&&◌, ◌||◌, not, Option, none, some, List, [], ◌∷◌, ◌++◌, ◌==◌, leb, ltb, any, all,
  find, by, save, insert, keep, map, length, if◌then◌else◌, str_eq, is_empty, is_none, is_some,
  or_else, arith, Bool-cases, Option-cases, eq_iff, by-save_at, by-save_self, by-key, take, drop,
  map_option, ◌-◌, zero,
}
use etl_agent.Prelude.Result.{Result, ok, err, ◌>>=◌, ◌>>◌, guard, require, >>=-eq-ok, ok-injective}
use etl_agent.Prelude.Text.{strip, lower, Text, codes, text_eq}
use etl_agent.Prelude.Dict.{Dict, Json, get}
use etl_agent.Store.{
  Action, RollbackStatus, ExecutionRunStatus, OutboxEventStatus, EventType, PublishStatus,
  QualityStatus, PreparationStatus, submit, cancel, cleanup, swap, rollback, execution_event,
  other_event, Db, ExecutionRun, OutboxEvent, Preparation, PipelineVersion, operator,
}
use etl_agent.Float.{FloatOps}
use etl_agent.Validation.{Crash, occurs_in}
use etl_agent.Validation.Plan.{Checkers, Checked, compile_hocon, validate_plan_payload}
use etl_agent.Domain.{ClarificationQuestion, EtlPlan, GenerationRequest, ValidationIssue}
use etl_agent.Values.{Fields, Value, null_value, object}

pub data Status : Type 0 where
  needs_clarification running candidate_generated schema_valid validation_failed failed repairing
        completed :
      Status

-- The nodes. The trace has the constructors in place of their names in CamelCase.
pub data Node : Type 0 where
  intent_parse human_interrupt profile_enrichment candidate_generation schema_validation
        hocon_compile deterministic_gate repair :
      Node

pub data AttemptKind : Type 0 where
  candidate repair : AttemptKind

pub data AttemptStatus : Type 0 where
  failed candidate_generated validated validation_failed : AttemptStatus

pub record Attempt : Type 0 where
  pub attempt_number : ℕ
  pub kind : AttemptKind
  pub output_digest : Option String
  pub status : AttemptStatus
  pub validation_errors : List ValidationIssue

-- A key that is missing is the default that the code reads for it: none, 0 or the empty list.
pub record GenerationState (F : Type 0) : Type 0 where
  pub request : GenerationRequest F
  pub raw_candidate : Option Fields
  pub plan : Option (EtlPlan F)
  pub clarification_questions : List ClarificationQuestion
  pub validation_issues : List ValidationIssue
  pub repair_count : ℕ
  pub node_trace : List Node
  pub attempts : List Attempt
  pub status : Option Status
  pub provider : Option String
  pub model : Option String
  pub error_code : Option String
  pub error_message : Option Text
  pub hocon_config : Option Value

pub record LlmProviderError : Type 0 where
  pub code : String
  pub message : Text

-- `latency_ms` and `attempts` are not read by the graph and are left out.
pub record StructuredGenerationResponse : Type 0 where
  pub payload : Fields
  pub provider : String
  pub model : String
  pub response_digest : String

-- `provider.generate_structured`: its answer may differ from call to call, so it is given the number
-- of attempts that the state records; then the request, the errors to repair, the previous candidate.
abbrev pub LlmProvider : Type 0 → Type 0
LlmProvider F =
    ℕ
    → GenerationRequest F
    → List Text
    → Option Fields
    → Result LlmProviderError StructuredGenerationResponse

abbrev pub terminal_validation_codes : List String
terminal_validation_codes =
    "UNSUPPORTED_DATA_PLANE_FEATURE" ∷ "UNSUPPORTED_DATA_PLANE_TRANSFORM" ∷ []

abbrev pub is_terminal_issue : ValidationIssue → Bool
is_terminal_issue issue = any (str_eq issue.code) terminal_validation_codes

abbrev pub answered : Option Text → Bool
answered none = false
answered (some answer) = not (is_empty answer)

abbrev pub ask : Bool → String → String → List ClarificationQuestion
ask false key question = []
ask true key question = record { key = key; question = question } ∷ []

-- the last of the attempts, where there is one, changed
unfoldable pub change_last : (Attempt → Attempt) → List Attempt → List Attempt
change_last change [] = []
change_last change (a ∷ []) = change a ∷ []
change_last change (a ∷ b ∷ rest) = a ∷ change_last change (b ∷ rest)

-- what a node returns: the change that it makes to a state
abbrev pub Delta : Type 0 → Type 0
Delta F = GenerationState F → GenerationState F

-- `None`, where there is no candidate, is the value null
abbrev pub candidate_value : Option Fields → Value
candidate_value none = null_value
candidate_value (some fields) = object fields

abbrev pub question_status : List ClarificationQuestion → Status
question_status [] = running
question_status (question ∷ questions) = needs_clarification

abbrev pub gate_status : List ValidationIssue → Status
gate_status [] = completed
gate_status (issue ∷ issues) = Status.validation_failed

module _ {F : Type 0} where
  abbrev pub trace : GenerationState F → Node → List Node
  trace state node = state.node_trace ++ node ∷ []

  unfoldable pub has_terminal_validation_issue : GenerationState F → Bool
  has_terminal_validation_issue state = any is_terminal_issue state.validation_issues

  unfoldable pub missing_questions : GenerationRequest F → List ClarificationQuestion
  unfolding strip lower occurs_in
  missing_questions request =
      let t = lower request.business_request in
      ask (is_empty (strip request.business_request)) "business_request" "请描述需要实现的 ETL 业务需求"
      ++ ask (is_empty request.source_profiles) "source_profile" "请提供一个已授权的源 Profile"
      ++ ask (is_empty request.target_profiles) "target_profile" "请提供一个已授权的目标 Profile"
      ++ ask
          ((occurs_in (codes "增量") t || occurs_in (codes "incremental") t)
            && not (answered request.incremental_field))
          "incremental_field" "请指定增量同步使用的字段"

  unfoldable pub store_questions : List ClarificationQuestion → GenerationState F → Delta F
  store_questions questions state to = record to {
    clarification_questions = questions;
    node_trace = trace state intent_parse;
    status = some (question_status questions);
  }

  unfoldable pub parse_intent : GenerationState F → Delta F
  unfolding missing_questions store_questions
  parse_intent state = store_questions (missing_questions state.request) state

  unfoldable pub enrich_profile : GenerationState F → Delta F
  enrich_profile state to = record to { node_trace = trace state profile_enrichment }

  unfoldable pub interrupt : GenerationState F → Delta F
  interrupt state to = record to { node_trace = trace state human_interrupt }

  abbrev pub new_attempt : GenerationState F → Option String → AttemptStatus → Attempt
  new_attempt state digest status = record {
    attempt_number = length state.attempts + 1;
    kind = if state.repair_count == 0 then AttemptKind.candidate else AttemptKind.repair;
    output_digest = digest;
    status = status;
    validation_errors = [];
  }

  unfoldable pub answer_candidate :
      GenerationState F → Result LlmProviderError StructuredGenerationResponse → Delta F
  answer_candidate state (err e) to = record to {
    status = some Status.failed;
    error_code = some e.code;
    error_message = some e.message;
    attempts = state.attempts ++ new_attempt state none AttemptStatus.failed ∷ [];
    node_trace = trace state candidate_generation;
  }
  answer_candidate state (ok response) to = record to {
    status = some Status.candidate_generated;
    raw_candidate = some response.payload;
    provider = some response.provider;
    model = some response.model;
    attempts =
        state.attempts
        ++ new_attempt state (some response.response_digest) AttemptStatus.candidate_generated ∷ [];
    node_trace = trace state candidate_generation;
  }

  unfoldable pub generate_candidate : LlmProvider F → GenerationState F → Delta F
  unfolding answer_candidate
  generate_candidate provider state = answer_candidate state (
      provider (length state.attempts) state.request
        (map (λ (i : ValidationIssue). i.message) state.validation_issues) state.raw_candidate)

  unfoldable pub store_checked : GenerationState F → Checked F → Delta F
  unfolding change_last
  store_checked state (plan, issues) to =
      let valid = is_some plan in
      record to {
        validation_issues = issues;
        plan = plan;
        attempts =
            change_last
              (λ a. record a {
                status = if valid then AttemptStatus.validated else AttemptStatus.validation_failed;
                validation_errors = issues;
              })
              state.attempts;
        node_trace = trace state schema_validation;
        status = some (if valid then schema_valid else Status.validation_failed);
      }

  unfoldable pub store_config : GenerationState F → Result ValidationIssue Value → Delta F
  store_config state (err issue) to = record to {
    status = some Status.validation_failed;
    validation_issues = state.validation_issues ++ issue ∷ [];
    node_trace = trace state hocon_compile;
  }
  store_config state (ok config) to = record to {
    hocon_config = some config;
    node_trace = trace state hocon_compile;
  }

  unfoldable pub compile_optional : Checkers F → GenerationState F → Option (EtlPlan F) → Delta F
  unfolding store_config compile_hocon
  compile_optional checkers state none to = record to { node_trace = trace state hocon_compile }
  compile_optional checkers state (some plan) to =
      store_config state (compile_hocon checkers plan.hocon) to

  unfoldable pub compile_plan : Checkers F → GenerationState F → Delta F
  unfolding compile_optional
  compile_plan checkers state = compile_optional checkers state state.plan

  unfoldable pub pass_gate : GenerationState F → Delta F
  pass_gate state to = record to {
    node_trace = trace state deterministic_gate;
    status = some (gate_status state.validation_issues);
  }

  unfoldable pub count_repair : GenerationState F → Delta F
  count_repair state to = record to {
    repair_count = state.repair_count + 1;
    node_trace = trace state Node.repair;
    status = some repairing;
  }

  unfoldable pub validate_schema :
      ⦃fl : FloatOps F⦄ → Checkers F → GenerationState F → Result Crash (Delta F)
  unfolding validate_plan_payload store_checked
  validate_schema checkers state = do
    checked ← validate_plan_payload checkers (candidate_value state.raw_candidate) state.request
    ok (store_checked state checked)
