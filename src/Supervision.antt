-- ===== src/Supervision.antt =====
-- src/etl_agent/workers/supervision.py: what one look at the engine does to an execution. The engine and
-- the conversions to JSON are the parameters `Observer`.
pub mod Task
pub mod Follow
pub mod Kept
pub mod Publish
pub mod Results
pub mod Queued
use etl_agent.Prelude.{
  ℕ, suc, ◌+◌, ◌*◌, ◌≤◌, ◌<◌, ◌≡◌, ◌≢◌, refl, sym, ap, subst, ◌∙◌, ◌↔◌, ◌⊎◌, inl, inr, String, Bool,
  true, false, ◌&&◌, ◌||◌, not, Option, none, some, List, [], ◌∷◌, ◌++◌, ◌==◌, leb, ltb, any, all,
  find, by, save, insert, keep, map, length, if◌then◌else◌, str_eq, is_empty, is_none, is_some,
  or_else, arith, Bool-cases, Option-cases, eq_iff, by-save_at, by-save_self, by-key, take, drop,
  map_option, ◌-◌, zero, max,
}
use etl_agent.Prelude.Result.{Result, ok, err, ◌>>=◌, ◌>>◌, guard, require, >>=-eq-ok, ok-injective}
use etl_agent.Prelude.Text.{lower, Text, codes, text_eq}
use etl_agent.Prelude.Dict.{Dict, Json, get}
use etl_agent.Store.{
  Action, RollbackStatus, ExecutionRunStatus, OutboxEventStatus, EventType, PublishStatus,
  QualityStatus, PreparationStatus, submit, cancel, cleanup, swap, rollback, execution_event,
  other_event, Db, ExecutionRun, OutboxEvent, Preparation, PipelineVersion, operator,
}
use etl_agent.Float.{FloatOps}
use etl_agent.Domain.{QualityContract, RuntimeBudget, default_budget, default_contract}
use etl_agent.Quality.{
  Metric, number, negative, numeral, word, names, other_value, object_value, count_of,
  QualityAssessment, QualityError, BudgetAssessment, BudgetDecision, hard_stop, continue,
  required_field_missing, rejection_rate_exceeded, assess_budget, assess_quality,
}
use etl_agent.Rows.{save_execution, execution_by, preparation_by, version_by}
use etl_agent.Dispatch.{is_cancelled}
use etl_agent.Prelude.Text.{strip}
use etl_agent.Prelude.Dict.{null, string, opaque, put, merge}

pub data EngineJobStatus : Type 0 where
  queued running succeeded failed cancelled unknown : EngineJobStatus

pub record EngineStatus : Type 0 where
  pub status : EngineJobStatus
  pub detail : Option Text
  pub metrics : Dict Metric

pub data Decision : Type 0 where
  budget_decision : BudgetDecision → Decision
  cancel_requested unknown : Decision

-- The ids of the new rows are not read by anything and are left out.
pub record RuntimeSupervisionSnapshot : Type 0 where
  pub project_id : ℕ
  pub execution_run_id : ℕ
  pub engine_status : EngineJobStatus
  pub decision : Decision
  pub observed_metrics : Dict Metric
  pub exceeded_budget_fields : List String
  pub detail : Option Text

pub record ExecutionQualityResult (F : Type 0) : Type 0 where
  pub project_id : ℕ
  pub execution_run_id : ℕ
  pub assessment : QualityAssessment F
  pub shadow_table : Option Text
  pub error_table : Option Text

-- `err` is an exception of the engine, with its text. `capture_rejected_rows` may be missing.
pub record Observer (F : Type 0) : Type 0 where
  pub get_status : Text → Result Text EngineStatus
  pub capture_rejected_rows : Option (Dict Json → Result Text Metric)
  pub metric_json : Metric → Json
  -- `as_dict`
  pub quality_json : QualityAssessment F → Json

-- the tables of the control plane, and those that only the supervision writes
pub record Supervised (F : Type 0) : Type 0 where
  pub db : Db F
  pub snapshots : List RuntimeSupervisionSnapshot
  pub results : List (ExecutionQualityResult F)

-- what leaves the supervision in place of a row
pub data SupervisionError : Type 0 where
  execution_missing job_id_missing plan_invalid : SupervisionError
  engine_error : Text → SupervisionError

abbrev pub false_texts : List Text
false_texts =
    codes "" ∷ codes "0" ∷ codes "0.0" ∷ codes "-0.0" ∷ codes "False" ∷ codes "[]" ∷ codes "{}" ∷ []

-- the truth of a value, which `opaque` has as its `str`
abbrev pub is_true : Option Json → Bool
is_true none = false
is_true (some null) = false
is_true (some (string t)) = not (is_empty t)
is_true (some (opaque t)) = not (any (text_eq t) false_texts)

-- `max(0, int(value or 0))`, `none` where `int` raises
abbrev pub checked_count : Metric → Option ℕ
checked_count (word []) = some 0
checked_count (word (c ∷ t)) = none
checked_count (names []) = some 0
checked_count (names (t ∷ ts)) = none
checked_count object_value = none
checked_count v = some (count_of v)

unfoldable pub count_at : String → Dict Metric → Result Text ℕ
count_at key metrics = elim (get key metrics) [
  | some v ↦ require (checked_count v) []
  | none ↦ ok 0
]

-- the rejected records, with the captured rows and the rows that are missing from the output
unfoldable pub with_captured : Metric → Dict Metric → Result Text (Dict Metric)
unfolding count_at
with_captured captured metrics = do
  reported ← count_at "rejected_records" metrics
  input ← count_at "input_records" metrics
  output ← count_at "output_records" metrics
  ok (
      put "rejected_records" (number (max reported (max (count_of captured) (input - output))))
        metrics)

abbrev pub stripped_name : Text → Option Text
stripped_name [] = none
stripped_name (c ∷ t) = some (take 256 (c ∷ t))

unfoldable pub optional_name : Option Metric → Option Text
unfolding strip
optional_name (some (word t)) = stripped_name (strip t)
optional_name (some (numeral t n)) = stripped_name (strip t)
optional_name _ = none

abbrev pub published_or_cleaned : PublishStatus → Bool
published_or_cleaned PublishStatus.published = true
published_or_cleaned PublishStatus.cleaned = true
published_or_cleaned _ = false

abbrev pub error_name : Option QualityError → Option String
error_name none = none
error_name (some required_field_missing) = some "REQUIRED_FIELD_MISSING"
error_name (some rejection_rate_exceeded) = some "REJECTION_RATE_EXCEEDED"

abbrev pub error_text : Option QualityError → Option Text
error_text none = none
error_text (some required_field_missing) = some (codes "目标表缺少质量契约要求的字段")
error_text (some rejection_rate_exceeded) = some (codes "错误数据比例超过质量契约阈值")

abbrev pub text_or : Text → Option Text → Text
text_or default none = default
text_or default (some []) = default
text_or default (some (c ∷ t)) = c ∷ t

abbrev pub complete_at : ℕ → ExecutionRun → ExecutionRun
complete_at now execution = record execution {
  completed_at = or_else execution.completed_at (some now);
}

-- the tables that the engine names, where it names any
unfoldable pub name_tables : Dict Metric → ExecutionRun → ExecutionRun
unfolding optional_name
name_tables metrics execution = record execution {
  shadow_table = or_else (optional_name (get "shadow_table" metrics)) execution.shadow_table;
  error_table = or_else (optional_name (get "error_table" metrics)) execution.error_table;
}

abbrev pub settle_quality : QualityStatus → Option QualityError → ExecutionRun → ExecutionRun
settle_quality QualityStatus.passed error execution = record execution {
  status = ExecutionRunStatus.succeeded;
  publish_status =
      if published_or_cleaned execution.publish_status
      then execution.publish_status
      else PublishStatus.swap_requested;
}
settle_quality _ error execution = record execution {
  status = ExecutionRunStatus.failed;
  error_code = error_name error;
  error_detail = error_text error;
}

module _ {F : Type 0} (observer : Observer F) where
  abbrev pub json_metrics : Dict Metric → Dict Json
  json_metrics = map (λ entry. (entry.0, observer.metric_json entry.1))

  abbrev pub capture_with :
      (Dict Json → Result Text Metric) → ExecutionRun → Dict Metric → Result Text (Dict Metric)
  capture_with capture execution metrics = do
    captured ← capture (merge execution.metrics (json_metrics metrics))
    with_captured captured metrics

  -- the metrics after the rejected rows were captured, `err` where that raises
  unfoldable pub capture_rows : ExecutionRun → Dict Metric → Result Text (Dict Metric)
  unfolding with_captured
  capture_rows execution metrics = elim observer.capture_rejected_rows [
    | none ↦ ok metrics
    | some capture ↦
        if is_true (get "error_query" execution.metrics)
        then capture_with capture execution metrics
        else ok metrics
  ]

  -- the row of a job that succeeded, where its rejected rows could not be captured
  unfoldable pub fail_capture : Dict Metric → ℕ → ExecutionRun → ExecutionRun
  unfolding name_tables
  fail_capture metrics now execution =
      let merged = merge execution.metrics (json_metrics metrics) in
      complete_at now (
        name_tables metrics (record execution {
          metrics = merge merged (json_metrics metrics);
          status = ExecutionRunStatus.failed;
          quality_status = QualityStatus.failed;
          error_code = some "ERROR_TABLE_WRITE_FAILED";
          error_detail = some (codes "错误数据写入错误表失败");
        }))

  -- the row of a job that succeeded
  unfoldable pub succeed : QualityAssessment F → Dict Metric → ℕ → ExecutionRun → ExecutionRun
  unfolding name_tables
  succeed quality metrics now execution =
      let merged = merge execution.metrics (json_metrics metrics) in
      let reported = put "quality" (observer.quality_json quality) merged in
      settle_quality quality.status quality.error_code (
        complete_at now (
          name_tables metrics (record execution {
            quality_status = quality.status;
            metrics =
                put "quality" (observer.quality_json quality)
                  (merge reported (json_metrics metrics));
          })))

unfoldable pub fail_job : Option Text → ℕ → ExecutionRun → ExecutionRun
fail_job detail now execution = complete_at now (record execution {
  status = ExecutionRunStatus.failed;
  error_code = some "ENGINE_JOB_FAILED";
  error_detail = some (take 512 (text_or (codes "SeaTunnel 作业失败") detail));
})
