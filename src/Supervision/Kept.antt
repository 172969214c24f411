-- ===== src/Supervision/Kept.antt =====
-- The parts of a supervision that returned, and what it does not touch.
use etl_agent.Prelude.{ℕ, ◌≡◌, refl, sym, subst, ◌⊎◌, true, false, some, [], arith, by-save_at}
use etl_agent.Prelude.Result.{ok, guard, require, >>=-eq-ok}
use etl_agent.Store.{ExecutionRunStatus, PublishStatus, QualityStatus, ExecutionRun}
use etl_agent.Float.{FloatOps}
use etl_agent.Quality.{assess_budget}
use etl_agent.Rows.{save_execution, execution_by}
use etl_agent.Dispatch.{is_cancelled}
use etl_agent.Supervision.{
  text_or, EngineStatus, Observer, Supervised, execution_missing, job_id_missing,
}
use etl_agent.Actions.{has_text}
use etl_agent.Supervision.Task.{
  as_engine_error, supervise_execution_run, supervise_row, observe, record_result, Observed,
  runtime_budget_for_execution,
}
use etl_agent.Supervision.Publish.{observe-Published, Published}
use etl_agent.Supervision.{published_or_cleaned}
use etl_agent.Prelude.Result.{require-eq-ok}

module _ {F : Type 0} ⦃fl : FloatOps F⦄ (observer : Observer F) where
  -- the parts of a supervision of an execution that returned
  pub record Parts (s : Supervised F) (now : ℕ) (e : ExecutionRun) (row : ExecutionRun)
      (t : Supervised F) : Type 0 where
    pub status : EngineStatus
    pub observed : Observed
    pub looked :
        observe observer s.db
          (assess_budget (runtime_budget_for_execution s.db e) status.metrics).decision
          status
          now
          e
        ≡ ok observed
    pub recorded : record_result observer s.db status observed s.results ≡ ok t.results
    pub is_row : observed.execution ≡ row
    pub is_db : t.db ≡ save_execution row s.db

  row-Parts :
      (status : EngineStatus) (now : ℕ) (s : Supervised F) (e row : ExecutionRun) (t : Supervised F)
      → supervise_row observer e status now s ≡ ok (row, t)
      → Parts s now e row t
  unfolding supervise_row
  row-Parts status now s e row t h =
      let budget = assess_budget (runtime_budget_for_execution s.db e) status.metrics in
      let (o, looked, rest) = >>=-eq-ok (observe observer s.db budget.decision status now e) _ h in
      let (results, recorded, last) =
        >>=-eq-ok (record_result observer s.db status o s.results) _ rest in
      record {
        status = status;
        observed = o;
        looked = looked;
        recorded = ground arith;
        is_row = ground arith;
        is_db = ground arith;
      }

  pub supervise-Parts :
      (execution_id now : ℕ) (s : Supervised F) (e row : ExecutionRun) (t : Supervised F)
      → execution_by execution_id s.db ≡ some e
      → supervise_execution_run observer execution_id now s ≡ ok (row, t)
      → Parts s now e row t
  unfolding supervise_execution_run
  supervise-Parts execution_id now s e row t is_e h =
      let (x, found, rest) =
        >>=-eq-ok (require (execution_by execution_id s.db) execution_missing) _ h in
      let same : x ≡ e = ground (arith, require-eq-ok _ _ found) in
      let (u, has_job, looks) =
        >>=-eq-ok (guard (has_text x.engine_job_id) job_id_missing) _ rest in
      let (status, answered, last) =
        >>=-eq-ok (as_engine_error observer (observer.get_status (text_or [] x.engine_job_id))) _
          looks in
      subst (λ e. Parts s now e row t) same (row-Parts status now s x row t last)

  -- A supervision of an execution that leaves its row leaves its publication as it was; or the swap is
  -- requested now, and then the execution was neither published nor cleaned before, and it has succeeded
  -- and passed its quality contract.
  pub supervise_execution_run_publish :
      (execution_id now : ℕ) (s : Supervised F) (e row : ExecutionRun) (t : Supervised F)
      → execution_by execution_id s.db ≡ some e
      → supervise_execution_run observer execution_id now s ≡ ok (row, t)
      → (row.publish_status ≡ e.publish_status)
        ⊎ ((row.publish_status ≡ PublishStatus.swap_requested)
            × (published_or_cleaned e.publish_status ≡ false)
            × (row.status ≡ ExecutionRunStatus.succeeded)
            × (row.quality_status ≡ QualityStatus.passed))
  supervise_execution_run_publish execution_id now s e row t is_e h =
      let parts = supervise-Parts execution_id now s e row t is_e h in
      subst (Published e) parts.is_row (
        observe-Published observer s.db
          (assess_budget (runtime_budget_for_execution s.db e) parts.status.metrics).decision
          parts.status now e {o = parts.observed} parts.looked)

  -- A supervision of an execution whose cancellation was requested or is done changes neither its row
  -- nor the quality results, whatever the engine says.
  pub supervise_execution_run_cancelled :
      (execution_id now : ℕ) (s : Supervised F) (e row : ExecutionRun) (t : Supervised F)
      → execution_by execution_id s.db ≡ some e
      → is_cancelled e.status ≡ true
      → supervise_execution_run observer execution_id now s ≡ ok (row, t)
      → (row ≡ e) × (execution_by execution_id t.db ≡ some e) × (t.results ≡ s.results)
  unfolding observe record_result
  supervise_execution_run_cancelled execution_id now s e row t is_e stopped h =
      let parts = supervise-Parts execution_id now s e row t is_e h in
      let same : row ≡ e = ground (arith, parts.looked, parts.is_row) in
      (
        same,
        subst (λ db. execution_by execution_id db ≡ some e) (sym parts.is_db)
            (subst (λ r. execution_by execution_id (save_execution r s.db) ≡ some e) (sym same)
              (by-save_at (λ (r : ExecutionRun). r.id) e execution_id s.db.executions is_e refl)),
        ground (arith, parts.looked, parts.recorded),
      )
