-- ===== src/Supervision/Results.antt =====
-- At most one quality result for an execution.
use etl_agent.Prelude.{
  ℕ, ◌+◌, ◌≤◌, ◌≡◌, refl, subst, inl, inr, Bool, false, ◌&&◌, not, List, [], ◌∷◌, ◌==◌, any, insert,
  keep, length, if◌then◌else◌, arith, Bool-cases,
}
use etl_agent.Prelude.Result.{ok, require, >>=-eq-ok, ok-injective}
use etl_agent.Store.{Db, ExecutionRun}
use etl_agent.Float.{FloatOps}
use etl_agent.Quality.{QualityAssessment, assess_quality}
use etl_agent.Rows.{execution_by}
use etl_agent.Dispatch.{is_cancelled}
use etl_agent.Supervision.{
  EngineStatus, ExecutionQualityResult, Observer, Supervised, execution_missing,
}
use etl_agent.Supervision.Task.{
  supervise_execution_run, record_result, add_result, Observed, quality_contract_for_execution,
  is_succeeded,
}
use etl_agent.Prelude.Result.{require-eq-ok}
use etl_agent.Supervision.Kept.{supervise-Parts}
use etl_agent.Supervision.Task.{is_result_of}

length-keep-insert :
    {A : Type 0} (p : A → Bool) (x : A) (xs : List A)
    → length (keep p (insert x xs)) ≡ length (keep p xs) + (if p x then 1 else 0)
unfolding insert
length-keep-insert p x [] = ground arith
length-keep-insert p x (y ∷ ys) = ground (arith, length-keep-insert p x ys)

length-keep-none :
    {A : Type 0} (p : A → Bool) (xs : List A) → any p xs ≡ false → length (keep p xs) ≡ 0
length-keep-none p [] h = refl
length-keep-none p (x ∷ xs) h = ground (arith, length-keep-none p xs)

module _ {F : Type 0} ⦃fl : FloatOps F⦄ (observer : Observer F) where
  -- the number of the results of an execution
  abbrev pub result_count : ℕ → List (ExecutionQualityResult F) → ℕ
  result_count id results = length (keep (is_result_of observer id) results)

  added_count :
      (id : ℕ) (quality : QualityAssessment F) (e : ExecutionRun)
      (results : List (ExecutionQualityResult F))
      → result_count id results ≤ 1
      → result_count id (add_result observer quality e results) ≤ 1
  unfolding add_result
  added_count id quality e results few =
      elim (Bool-cases (any (is_result_of observer e.id) results)) [
        | inl has ↦ rw (add_result, has) few
        | inr new ↦ elim (Bool-cases (e.id == id)) [
          | inl same ↦
              let same_id : e.id ≡ id = ground arith in
              let none_yet =
                length-keep-none (is_result_of observer id) results
                  (subst (λ i. any (is_result_of observer i) results ≡ false) same_id new) in
              rw (add_result, new, length-keep-insert (is_result_of observer id) _ results, same)
                (omega (arith, none_yet))
          | inr other ↦
              rw (add_result, new, length-keep-insert (is_result_of observer id) _ results, other)
                (omega (arith, few))
        ]
      ]

  recorded_count :
      (id : ℕ) (db : Db F) (status : EngineStatus) (o : Observed)
      (results after : List (ExecutionQualityResult F))
      → result_count id results ≤ 1
      → record_result observer db status o results ≡ ok after
      → result_count id after ≤ 1
  unfolding record_result
  recorded_count id db status o results after few h =
      elim (Bool-cases (
        is_succeeded status.status
        && not o.capture_failed
        && not (is_cancelled o.execution.status))) [
          | inr skips ↦ subst (λ rs. result_count id rs ≤ 1) (ground arith) few
          | inl records ↦
              let (contract, found, last) =
                >>=-eq-ok (quality_contract_for_execution db o.execution)
                  (λ contract.
                    ok
                      (add_result observer (assess_quality contract o.metrics) o.execution results))
                  {b = after} (ground arith) in
              subst (λ rs. result_count id rs ≤ 1) (ok-injective last)
                (added_count id (assess_quality contract o.metrics) o.execution results few)
        ]

  -- If no execution has more than one quality result, none has after a supervision that returned.
  pub supervise_execution_run_results :
      (execution_id now : ℕ) (s : Supervised F) (row : ExecutionRun) (t : Supervised F)
      → ((id : ℕ) → result_count id s.results ≤ 1)
      → supervise_execution_run observer execution_id now s ≡ ok (row, t)
      → (id : ℕ) → result_count id t.results ≤ 1
  unfolding supervise_execution_run
  supervise_execution_run_results execution_id now s row t few h id =
      let (e, found, rest) =
        >>=-eq-ok (require (execution_by execution_id s.db) execution_missing) _ h in
      let parts = supervise-Parts observer execution_id now s e row t (require-eq-ok _ _ found) h in
      recorded_count id s.db parts.status parts.observed s.results t.results (few id) parts.recorded
