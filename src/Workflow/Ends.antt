-- ===== src/Workflow/Ends.antt =====
-- Every run of the generation workflow ends.
use etl_agent.Prelude.{
  ℕ, ◌≤◌, ◌≡◌, ◌≢◌, refl, ◌⊎◌, inl, inr, Bool, true, false, Option, some, arith,
}
use etl_agent.Prelude.Result.{Result, ok, err}
use etl_agent.Float.{FloatOps}
use etl_agent.Validation.{unhashable}
use etl_agent.Validation.Plan.{Checkers}
use etl_agent.Domain.{GenerationRequest}
use etl_agent.Workflow.{GenerationState, LlmProvider, intent_parse}
use etl_agent.Workflow.Run.{
  Run, finished, crashed, recursion_limit, run_generation_workflow, start, resume, GenerationResult,
  WorkflowError, crash, generation_result_of, returned, default_limit,
}
use etl_agent.Workflow.Loop.{stream-limit}
use etl_agent.Workflow.Bounds.{invoke-ends}

-- A run that is not stopped by the limit returns a result, or the crash of a node.
abbrev Ends : {F : Type 0} → Result WorkflowError (GenerationResult F) → Type 0
Ends {F} r = ((result : GenerationResult F) × (r ≡ ok result)) ⊎ (r ≡ err (crash unhashable))

returned-Ends : {F : Type 0} (r : Run F) → r ≢ recursion_limit → Ends (returned r)
returned-Ends (finished s) h = inl (generation_result_of s, refl)
returned-Ends (crashed unhashable) h = inr refl
returned-Ends recursion_limit h = absurd (h refl)

module _ {F : Type 0} ⦃fl : FloatOps F⦄ (provider : LlmProvider F) (checkers : Checkers F)
    (max_repairs : ℕ) where
  -- With at most three repairs allowed (by default one is), a run of the workflow returns a result, or
  -- fails because a candidate's operation is a list or a dictionary: it never meets LangGraph's limit of
  -- 25 steps. This holds with and without a callback, and whatever state the thread keeps.
  pub run_generation_workflow_ends :
      (request : GenerationRequest F) (kept : Option (GenerationState F)) (streamed : Bool)
      → max_repairs ≤ 3
      → ((result : GenerationResult F) × (run_generation_workflow provider checkers max_repairs
              request kept streamed
            ≡ ok result))
        ⊎ (run_generation_workflow provider checkers max_repairs request kept streamed
            ≡ err (crash unhashable))
  unfolding run_generation_workflow
  run_generation_workflow_ends request kept false few = returned-Ends _ (
      invoke-ends provider checkers max_repairs default_limit (some intent_parse)
        (resume kept request) (tt, omega (arith, few)))
  run_generation_workflow_ends request kept true few = returned-Ends _ (λ stuck.
      invoke-ends provider checkers max_repairs default_limit (some intent_parse)
        (resume kept request) (tt, omega (arith, few))
        (stream-limit provider checkers max_repairs default_limit (some intent_parse)
          (resume kept request) (start request) stuck))
