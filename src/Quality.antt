-- ===== src/Quality.antt =====
-- src/etl_agent/workers/quality.py: the quality contract and the runtime budget against the metrics
-- of the engine.
pub mod Laws
use etl_agent.Prelude.{
  ℕ, suc, ◌+◌, ◌*◌, ◌≤◌, ◌<◌, ◌≡◌, ◌≢◌, refl, sym, ap, subst, ◌∙◌, ◌↔◌, ◌⊎◌, inl, inr, String, Bool,
  true, false, ◌&&◌, ◌||◌, not, Option, none, some, List, [], ◌∷◌, ◌++◌, ◌==◌, leb, ltb, max, any,
  all, find, by, save, insert, keep, map, length, if◌then◌else◌, str_eq, is_empty, is_none, is_some,
  or_else, arith, Bool-cases, Option-cases, eq_iff, by-save_at, by-save_self, by-key, take,
}
use etl_agent.Prelude.Result.{Result, ok, err, ◌>>=◌, ◌>>◌, guard, require, >>=-eq-ok, ok-injective}
use etl_agent.Prelude.Text.{Text, codes, text_eq}
use etl_agent.Prelude.Dict.{Dict, Json, null, string, opaque, get, put, merge, select}
use etl_agent.Store.{
  Action, RollbackStatus, ExecutionRunStatus, OutboxEventStatus, EventType, PublishStatus,
  QualityStatus, PreparationStatus, submit, cancel, cleanup, swap, rollback, execution_event,
  other_event, Db, ExecutionRun, OutboxEvent, Preparation, PipelineVersion, operator,
}
use etl_agent.Prelude.Sort.{sort_texts}
use etl_agent.Float.{FloatOps, float_lt, int_div}
use etl_agent.Domain.{QualityContract, RuntimeBudget}

-- A value in the metrics: a number with its integer part, a negative number, a text that `int` reads
-- as a number (at least 0), any other text, a list with the texts of its items, null or an empty object,
-- or an object with entries. NaN and the infinities are left out.
pub data Metric : Type 0 where
  number : ℕ → Metric
  negative : Metric
  numeral : Text → ℕ → Metric
  word : Text → Metric
  names : List Text → Metric
  other_value : Metric
  object_value : Metric

pub data QualityError : Type 0 where
  required_field_missing rejection_rate_exceeded : QualityError

-- the detail belongs to the error code and is left out
pub record QualityAssessment (F : Type 0) : Type 0 where
  pub status : QualityStatus
  pub input_records : ℕ
  pub output_records : ℕ
  pub rejected_records : ℕ
  pub rejection_rate : F
  pub missing_required_fields : List Text
  pub error_code : Option QualityError

pub data BudgetDecision : Type 0 where
  hard_stop continue : BudgetDecision

pub record BudgetAssessment : Type 0 where
  pub decision : BudgetDecision
  pub exceeded : List String

-- `max(0, int(value))`, or 0 where `int` raises
abbrev pub count_of : Metric → ℕ
count_of (number n) = n
count_of (numeral t n) = n
count_of _ = 0

unfoldable pub non_negative_int : Dict Metric → String → ℕ
non_negative_int metrics key = elim (get key metrics) [ some v ↦ count_of v | none ↦ 0 ]

-- `raw_missing` if it is a list
unfoldable pub reported_missing : Dict Metric → List Text
reported_missing metrics = elim (get "missing_required_fields" metrics) [
  | some (names items) ↦ items
  | some _ ↦ []
  | none ↦ []
]

-- the distinct texts of a list, as a set has them
unfoldable pub distinct_texts : List Text → List Text
distinct_texts [] = []
distinct_texts (t ∷ ts) =
    let rest = distinct_texts ts in if any (text_eq t) rest then rest else t ∷ rest

abbrev pub when : Bool → String → List String
when true name = name ∷ []
when false name = []

module _ {F : Type 0} ⦃fl : FloatOps F⦄ where
  abbrev pub is_required : QualityContract F → Text → Bool
  is_required contract field =
      any (λ required. text_eq field (codes required)) contract.required_fields

  unfoldable pub missing_fields : QualityContract F → Dict Metric → List Text
  unfolding reported_missing distinct_texts sort_texts
  missing_fields contract metrics =
      keep (is_required contract) (sort_texts (distinct_texts (reported_missing metrics)))

  -- `a / b if b else 0.0`
  abbrev pub ratio_or_zero : ℕ → ℕ → F
  ratio_or_zero a b = if b == 0 then int_div 0 1 else int_div a b

  unfoldable pub assess_quality : QualityContract F → Dict Metric → QualityAssessment F
  unfolding non_negative_int missing_fields
  assess_quality contract metrics =
      let input_records = non_negative_int metrics "input_records" in
      let output_records = non_negative_int metrics "output_records" in
      let rejected_records = non_negative_int metrics "rejected_records" in
      let total = max input_records (output_records + rejected_records) in
      let rejection_rate = ratio_or_zero rejected_records total in
      let missing = missing_fields contract metrics in
      let assessed : QualityStatus → List Text → Option QualityError → QualityAssessment F =
        λ status fields error. record {
          status = status;
          input_records = input_records;
          output_records = output_records;
          rejected_records = rejected_records;
          rejection_rate = rejection_rate;
          missing_required_fields = fields;
          error_code = error;
        } in
      if not (is_empty missing)
      then assessed QualityStatus.failed missing (some required_field_missing)
      else if float_lt contract.max_rejection_rate rejection_rate
      then assessed QualityStatus.rejected [] (some rejection_rate_exceeded)
      else assessed QualityStatus.passed [] none

  unfoldable pub exceeded_fields : RuntimeBudget F → Dict Metric → List String
  unfolding non_negative_int
  exceeded_fields budget metrics =
      let input_records = non_negative_int metrics "input_records" in
      let amplification = ratio_or_zero (non_negative_int metrics "output_records") input_records in
      let rejection_rate =
        ratio_or_zero (non_negative_int metrics "rejected_records") input_records in
      when (ltb budget.max_input_records input_records) "max_input_records"
      ++ when (ltb budget.max_output_bytes (non_negative_int metrics "output_bytes"))
          "max_output_bytes"
      ++ when (ltb budget.max_runtime_seconds (non_negative_int metrics "elapsed_seconds"))
          "max_runtime_seconds"
      ++ when (float_lt budget.max_output_amplification amplification) "max_output_amplification"
      ++ when (float_lt budget.max_rejection_rate rejection_rate) "max_rejection_rate"

  unfoldable pub assess_budget : RuntimeBudget F → Dict Metric → BudgetAssessment
  unfolding exceeded_fields
  assess_budget budget metrics =
      let exceeded = exceeded_fields budget metrics in
      if is_empty exceeded
      then record { decision = continue; exceeded = [] }
      else record { decision = hard_stop; exceeded = exceeded }
