-- ===== src/Quality/Laws.antt =====
-- The assessments against their descriptions.
use etl_agent.Quality.{
  hard_stop, BudgetAssessment, continue, reported_missing, non_negative_int, is_required, Metric,
  assess_quality, missing_fields, distinct_texts,
}
use etl_agent.Prelude.{
  ◌==◌, ◌+◌, max, ◌≡◌, refl, ap, subst, ◌∙◌, ◌↔◌, inl, inr, String, Bool, true, false, ◌||◌, not,
  none, List, [], ◌∷◌, any, keep, if◌then◌else◌, is_empty, arith, Bool-cases,
}
use etl_agent.Prelude.Text.{text_eq-eq, Text, text_eq}
use etl_agent.Prelude.Dict.{Dict}
use etl_agent.Store.{QualityStatus}
use etl_agent.Prelude.Sort.{sort_texts, insert_sorted}
use etl_agent.Float.{int_div, FloatOps, float_lt}
use etl_agent.Domain.{QualityContract}

any-insert_sorted :
    (p : Text → Bool) (t : Text) (ts : List Text) → any p (insert_sorted t ts) ≡ (p t || any p ts)
unfolding insert_sorted
any-insert_sorted p t [] = ground arith
any-insert_sorted p t (u ∷ ts) = ground (arith, any-insert_sorted p t ts)

any-sort_texts : (p : Text → Bool) (ts : List Text) → any p (sort_texts ts) ≡ any p ts
unfolding sort_texts
any-sort_texts p [] = refl
any-sort_texts p (t ∷ ts) =
    any-insert_sorted p t (sort_texts ts) ∙ ground (arith, any-sort_texts p ts)

any_same :
    (p : Text → Bool) (t : Text) (ts : List Text)
    → any (text_eq t) ts ≡ true
    → p t ≡ true
    → any p ts ≡ true
any_same p t [] h holds = absurd (ground arith)
any_same p t (u ∷ ts) h holds = elim (Bool-cases (text_eq t u)) [
  | inl same ↦
      let at_u : p u ≡ true = subst (λ x. p x ≡ true) (text_eq-eq t u same) holds in
      ground (arith, at_u)
  | inr differs ↦ ground (arith, any_same p t ts)
]

any-distinct_texts : (p : Text → Bool) (ts : List Text) → any p (distinct_texts ts) ≡ any p ts
unfolding distinct_texts
any-distinct_texts p [] = refl
any-distinct_texts p (t ∷ ts) =
    ground (arith, any-distinct_texts p ts, any_same p t (distinct_texts ts))

is_empty-keep : (p : Text → Bool) (ts : List Text) → is_empty (keep p ts) ≡ not (any p ts)
is_empty-keep p [] = refl
is_empty-keep p (t ∷ ts) = ground (arith, is_empty-keep p ts)

-- the budget's list of names, for any five tests
abbrev decided : List String → BudgetAssessment
decided exceeded =
    if is_empty exceeded
    then record { decision = continue; exceeded = [] }
    else record { decision = hard_stop; exceeded = exceeded }

module _ {F : Type 0} ⦃fl : FloatOps F⦄ where
  missing_iff :
      (contract : QualityContract F) (metrics : Dict Metric)
      → is_empty (missing_fields contract metrics)
        ≡ not (any (is_required contract) (reported_missing metrics))
  unfolding missing_fields
  missing_iff contract metrics =
      let p = is_required contract in
      let raw = reported_missing metrics in
      is_empty-keep p (sort_texts (distinct_texts raw))
      ∙ ap not (any-sort_texts p (distinct_texts raw) ∙ any-distinct_texts p raw)

  -- The assessment fails exactly when the engine reports a required field as missing; it is rejected
  -- exactly when no such field is missing and the rejected share is over the contract's bound, where
  -- the rejected share is the rejected records divided by the larger of the input records and the sum
  -- of the output and the rejected records, and zero where there are none; and it has an error code
  -- exactly when it does not pass. The counts are those of the metrics.
  pub assess_quality_status :
      (contract : QualityContract F) (metrics : Dict Metric)
      → let a = assess_quality contract metrics in
        let missing = any (is_required contract) (reported_missing metrics) in
        let total = max a.input_records (a.output_records + a.rejected_records) in
        let share : F = if total == 0 then int_div 0 1 else int_div a.rejected_records total in
        ((a.status ≡ QualityStatus.failed) ↔ (missing ≡ true))
        × ((a.status ≡ QualityStatus.rejected)
            ↔ ((missing ≡ false) × (float_lt contract.max_rejection_rate share ≡ true)))
        × ((a.status ≡ QualityStatus.passed) ↔ (a.error_code ≡ none))
        × (a.rejection_rate ≡ share)
        × (a.input_records ≡ non_negative_int metrics "input_records")
        × (a.output_records ≡ non_negative_int metrics "output_records")
        × (a.rejected_records ≡ non_negative_int metrics "rejected_records")
  unfolding assess_quality
  assess_quality_status contract metrics = ground (arith, missing_iff contract metrics)
