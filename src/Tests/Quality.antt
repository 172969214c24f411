-- ===== src/Tests/Quality.antt =====
-- Runs of src/etl_agent/workers/quality.py.
use etl_agent.Quality.Laws.{assess_quality_status}
use etl_agent.Domain.{RuntimeBudget, QualityContract}
use etl_agent.Quality.{
  ratio_or_zero, names, continue, reported_missing, negative, non_negative_int, is_required,
  numeral, assess_budget, assess_quality, number, Metric,
}
use etl_agent.Prelude.{
  ◌==◌, if◌then◌else◌, ◌+◌, max, ◌≡◌, ◌↔◌, true, false, none, [], ◌∷◌, ltb, any, str_eq, is_empty,
}
use etl_agent.Prelude.Text.{codes}
use etl_agent.Prelude.Dict.{Dict}
use etl_agent.Store.{QualityStatus}
use etl_agent.Float.{Ratio, ratio_ops, float_lt, int_div}

abbrev metrics : Dict Metric
metrics =
    ("input_records", number 100)
    ∷ ("output_records", numeral (codes "90") 90)
    ∷ ("rejected_records", number 10)
    ∷ ("output_bytes", negative)
    ∷ ("missing_required_fields", names (codes "b" ∷ codes "a" ∷ codes "b" ∷ []))
    ∷ []

abbrev contract : QualityContract Ratio
contract = record {
  required_fields = "a" ∷ "c" ∷ [];
  max_rejection_rate = int_div 5 100;
  error_table_suffix = "_errors";
}

abbrev StatusTable : QualityContract Ratio → Dict Metric → Type 0
StatusTable contract metrics =
    let a = assess_quality contract metrics in
    let missing = any (is_required contract) (reported_missing metrics) in
    let total = max a.input_records (a.output_records + a.rejected_records) in
    let share : Ratio = if total == 0 then int_div 0 1 else int_div a.rejected_records total in
    ((a.status ≡ QualityStatus.failed) ↔ (missing ≡ true))
    × ((a.status ≡ QualityStatus.rejected)
        ↔ ((missing ≡ false) × (float_lt contract.max_rejection_rate share ≡ true)))
    × ((a.status ≡ QualityStatus.passed) ↔ (a.error_code ≡ none))
    × (a.rejection_rate ≡ share)
    × (a.input_records ≡ non_negative_int metrics "input_records")
    × (a.output_records ≡ non_negative_int metrics "output_records")
    × (a.rejected_records ≡ non_negative_int metrics "rejected_records")

assess_quality_status_example : StatusTable contract metrics
assess_quality_status_example = assess_quality_status contract metrics

abbrev BudgetTable : RuntimeBudget Ratio → Dict Metric → Type 0
BudgetTable budget metrics =
    let a = assess_budget budget metrics in
    let input = non_negative_int metrics "input_records" in
    ((a.decision ≡ continue) ↔ (is_empty a.exceeded ≡ true))
    × (any (str_eq "max_input_records") a.exceeded ≡ ltb budget.max_input_records input)
    × (any (str_eq "max_output_bytes") a.exceeded
        ≡ ltb budget.max_output_bytes (non_negative_int metrics "output_bytes"))
    × (any (str_eq "max_runtime_seconds") a.exceeded
        ≡ ltb budget.max_runtime_seconds (non_negative_int metrics "elapsed_seconds"))
    × (any (str_eq "max_output_amplification") a.exceeded
        ≡ float_lt budget.max_output_amplification
            (ratio_or_zero (non_negative_int metrics "output_records") input))
    × (any (str_eq "max_rejection_rate") a.exceeded
        ≡ float_lt budget.max_rejection_rate
            (ratio_or_zero (non_negative_int metrics "rejected_records") input))
