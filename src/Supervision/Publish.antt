-- ===== src/Supervision/Publish.antt =====
-- What one look at the engine does to the publication of an execution.
use etl_agent.Prelude.{ℕ, ◌≡◌, refl, subst, ◌⊎◌, inl, inr, false, Option, arith, Bool-cases}
use etl_agent.Prelude.Result.{Result-cases, ok, >>=-eq-ok, ok-injective}
use etl_agent.Prelude.Dict.{Dict}
use etl_agent.Store.{ExecutionRunStatus, PublishStatus, QualityStatus, Db, ExecutionRun}
use etl_agent.Float.{FloatOps}
use etl_agent.Quality.{Metric, QualityAssessment, QualityError, BudgetDecision, assess_quality}
use etl_agent.Dispatch.{is_cancelled}
use etl_agent.Supervision.{
  EngineJobStatus, EngineStatus, Decision, budget_decision, Observer, capture_rows, fail_capture,
  succeed, fail_job, settle_quality,
}
use etl_agent.Supervision.Task.{
  observe, observe_job, observe_success, Observed, seen, quality_contract_for_execution,
}
use etl_agent.Supervision.{name_tables, published_or_cleaned}

-- The publication is as before; or it is requested, of a row that has passed and was not published.
abbrev pub Published : ExecutionRun → ExecutionRun → Type 0
Published before after =
    (after.publish_status ≡ before.publish_status)
    ⊎ ((after.publish_status ≡ PublishStatus.swap_requested)
        × (published_or_cleaned before.publish_status ≡ false)
        × (after.status ≡ ExecutionRunStatus.succeeded)
        × (after.quality_status ≡ QualityStatus.passed))

settle_quality-Published :
    (status : QualityStatus) (error : Option QualityError) (e : ExecutionRun)
    → e.quality_status ≡ status
    → Published e (settle_quality status error e)
settle_quality-Published QualityStatus.passed error e h =
    elim (Bool-cases (published_or_cleaned e.publish_status)) [
      | inl over ↦ inl (rw over refl)
      | inr waits ↦ inr (rw waits refl, waits, refl, h)
    ]
settle_quality-Published QualityStatus.pending error e h = inl refl
settle_quality-Published QualityStatus.rejected error e h = inl refl
settle_quality-Published QualityStatus.failed error e h = inl refl

module _ {F : Type 0} ⦃fl : FloatOps F⦄ (observer : Observer F) where
  succeed-Published :
      (quality : QualityAssessment F) (metrics : Dict Metric) (now : ℕ) (e : ExecutionRun)
      → Published e (succeed observer quality metrics now e)
  unfolding succeed name_tables
  succeed-Published quality metrics now e =
      settle_quality-Published quality.status quality.error_code _ refl

  success-Published :
      (db : Db F) (d : Decision) (metrics : Dict Metric) (now : ℕ) (e : ExecutionRun) {o : Observed}
      → observe_success observer db d metrics now e ≡ ok o
      → Published e o.execution
  unfolding observe_success fail_capture name_tables
  success-Published db d metrics now e {o} h =
      elim (Result-cases (capture_rows observer e metrics)) [
        | inr (x, raised) ↦ inl (ground arith)
        | inl (captured, fine) ↦
            let (contract, found, last) =
              >>=-eq-ok (quality_contract_for_execution db e)
                (λ contract. ok (
                  seen d captured
                    (succeed observer (assess_quality contract captured) captured now e)))
                {b = o} (ground arith) in
            subst (λ (o : Observed). Published e o.execution) (ok-injective last)
              (succeed-Published (assess_quality contract captured) captured now e)
      ]

  job-Published :
      (db : Db F) (budget : BudgetDecision) (status : EngineStatus) (now : ℕ) (e : ExecutionRun)
      {o : Observed} (job : EngineJobStatus)
      → status.status ≡ job
      → observe_job observer db budget status now e ≡ ok o
      → Published e o.execution
  unfolding observe_job fail_job
  job-Published db budget status now e EngineJobStatus.queued is h = inl (ground arith)
  job-Published db budget status now e EngineJobStatus.running is h = inl (ground arith)
  job-Published db budget status now e {o} EngineJobStatus.succeeded is h =
      success-Published db (budget_decision budget) status.metrics now e {o = o} (ground arith)
  job-Published db budget status now e EngineJobStatus.failed is h = inl (ground arith)
  job-Published db budget status now e EngineJobStatus.cancelled is h = inl (ground arith)
  job-Published db budget status now e EngineJobStatus.unknown is h = inl (ground arith)

  pub observe-Published :
      (db : Db F) (budget : BudgetDecision) (status : EngineStatus) (now : ℕ) (e : ExecutionRun)
      {o : Observed}
      → observe observer db budget status now e ≡ ok o
      → Published e o.execution
  unfolding observe
  observe-Published db budget status now e {o} h = elim (Bool-cases (is_cancelled e.status)) [
    | inl stopped ↦ inl (ground arith)
    | inr alive ↦ job-Published db budget status now e {o = o} status.status refl (ground arith)
  ]
