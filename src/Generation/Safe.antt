-- ===== src/Generation/Safe.antt =====
-- What the worker of a queued run freezes.
use etl_agent.Workflow.Complete.{run_generation_workflow_plan}
use mathlib.Core.List.{[]}
use etl_agent.Validation.Gate.{IsSafe}
use etl_agent.Rows.{version_by}
use etl_agent.Store.{Db, PipelineVersion}
use etl_agent.Generation.Worker.{
  run_request, version_of, WorkerError, progress, end_run, run_generation_agent, run_with,
  store_result, store_finished, fail_run, persist_all, persist_progress,
}
use etl_agent.Generation.{AgentRun, GenerationTables, freeze_version, Generator}
use etl_agent.Prelude.{
  ap, sym, ◌∙◌, by, ◌⊎◌, ◌∷◌, Option-cases, true, String, List, ℕ, ◌≡◌, refl, subst, inl, inr,
  Option, none, some, arith,
}
use etl_agent.Prelude.Result.{Result-cases, Result, ok}
use etl_agent.Float.{FloatOps}
use etl_agent.Domain.{GenerationRequest, EtlPlan}
use etl_agent.Validation.Plan.{compile_hocon}
use etl_agent.Workflow.{Status, GenerationState, LlmProvider}
use etl_agent.Workflow.{intent_parse}
use etl_agent.Workflow.Run.{
  returned, generation_result_of, start, default_limit, resume, GenerationResult,
  run_generation_workflow, stream,
}
use etl_agent.Workflow.Loop.{returned-ok}
use etl_agent.Values.{Value}
use etl_agent.Generation.Streamed.{stream_plan}
use etl_agent.Generation.Kept.{HasSafePlan, Kept, same_row, freeze-Kept}

module _ {F : Type 0} ⦃fl : FloatOps F⦄ (g : Generator F) where
  persist_progress_db :
      (run_id : ℕ) (s : GenerationState F) (t : GenerationTables F)
      → (persist_progress run_id s t).db ≡ t.db
  unfolding persist_progress
  persist_progress_db run_id s t =
      elim (Option-cases (by (λ (r : AgentRun F). r.id) run_id t.agent_runs)) [
        | inl missing ↦ rw (persist_progress, missing) refl
        | inr (run, found) ↦ rw (persist_progress, found) refl
      ]

  persist_all_db :
      (run_id : ℕ) (states : List (GenerationState F)) (t : GenerationTables F)
      → (persist_all run_id states t).db ≡ t.db
  unfolding persist_all
  persist_all_db run_id [] t = refl
  persist_all_db run_id (s ∷ rest) t =
      persist_all_db run_id rest (persist_progress run_id s t) ∙ persist_progress_db run_id s t

  fail_run_db :
      (run_id : ℕ) (code : String) (t : GenerationTables F) → (fail_run run_id code t).db ≡ t.db
  unfolding fail_run
  fail_run_db run_id code t =
      elim (Option-cases (by (λ (r : AgentRun F). r.id) run_id t.agent_runs)) [
        | inl missing ↦ rw (fail_run, missing) refl
        | inr (run, found) ↦ rw (fail_run, found) refl
      ]

  store_finished_db :
      (result : GenerationResult F) (run_id : ℕ) (t : GenerationTables F)
      → (store_finished g result run_id t).db ≡ t.db
  unfolding store_finished
  store_finished_db result run_id t =
      elim (Option-cases (by (λ (r : AgentRun F). r.id) run_id t.agent_runs)) [
        | inl missing ↦ rw (store_finished, missing) refl
        | inr (run, found) ↦ rw (store_finished, found) refl
      ]

  -- the plan of a result of a run with a callback
  streamed_plan :
      (provider : LlmProvider F) (request : GenerationRequest F) (kept : Option (GenerationState F))
      (result : GenerationResult F)
      → (resume kept request).plan ≡ none
      → run_generation_workflow provider g.checkers 1 request kept true ≡ ok result
      → (plan : EtlPlan F) → result.plan ≡ some plan
      → ((config : Value) × (compile_hocon g.checkers plan.hocon ≡ ok config)) × IsSafe plan request
  unfolding run_generation_workflow
  streamed_plan provider request kept result empty ran plan has =
      let (d, streamed, is_result) =
        returned-ok
          (stream provider g.checkers 1 default_limit (some intent_parse) (resume kept request)
            (start request))
          ran in
      let (t, invoked, same) =
        stream_plan provider g.checkers 1 default_limit (some intent_parse) (resume kept request)
          (start request) d (sym empty) streamed in
      let has_t : t.plan ≡ some plan =
        sym same ∙ ap (λ (r : GenerationResult F). r.plan) is_result ∙ has in
      elim (run_generation_workflow_plan provider g.checkers 1 request kept (generation_result_of t)
        empty (ap returned invoked)) [
          | inr (undone, missing) ↦ absurd (ground (arith, missing, has_t))
          | inl (done, clean, (p, candidate, is_p, parsed, compiled, safe)) ↦
              let is_plan : p ≡ plan = ground (arith, is_p, has_t) in
              subst
                (λ (q : EtlPlan F).
                  ((config : Value) × (compile_hocon g.checkers q.hocon ≡ ok config))
                  × IsSafe q request)
                is_plan (compiled, safe)
        ]

  store_result_db :
      (result : GenerationResult F) (contexts : GenerationRequest F) (run : AgentRun F)
      (v : PipelineVersion F) (t : GenerationTables F) (db : Db F)
      → freeze_version g result.plan contexts v t.db ≡ ok db
      → (store_result g result contexts run v t).1.db ≡ db
  unfolding store_result
  store_result_db result contexts run v t db frozen =
      rw (store_result, frozen) (store_finished_db result run.id (record t { db = db }))

  store-Kept :
      (result : GenerationResult F) (contexts : GenerationRequest F) (run : AgentRun F) (id : ℕ)
      (v w : PipelineVersion F) (t : GenerationTables F)
      → version_by id t.db ≡ some v
      → ((plan : EtlPlan F)
          → result.plan ≡ some plan
          → ((config : Value) × (compile_hocon g.checkers plan.hocon ≡ ok config))
            × IsSafe plan contexts)
      → version_by id (store_result g result contexts run v t).1.db ≡ some w
      → Kept g contexts v w
  unfolding store_result
  store-Kept result contexts run id v w t is_v safe is_w =
      elim (Result-cases (freeze_version g result.plan contexts v t.db)) [
        | inr (e, refused) ↦
            same_row g id contexts v w t.db (store_result g result contexts run v t).1.db
              (rw (store_result, refused) refl) is_v is_w
        | inl (db, frozen) ↦ freeze-Kept g result.plan contexts id v w t.db db is_v safe frozen (
            subst (λ (after : Db F). version_by id after ≡ some w)
              (store_result_db result contexts run v t db frozen) is_w)
      ]

  run_with-Kept :
      (provider : LlmProvider F) (contexts : GenerationRequest F) (run : AgentRun F) (id : ℕ)
      (v w : PipelineVersion F) (t : GenerationTables F)
      → (resume (g.checkpoint run.thread_id) contexts).plan ≡ none
      → version_by id t.db ≡ some v
      → version_by id (run_with g provider contexts run v t).1.db ≡ some w
      → Kept g contexts v w
  unfolding run_with end_run
  run_with-Kept provider contexts run id v w t empty is_v is_w =
      let kept = g.checkpoint run.thread_id in
      let states =
        progress provider g.checkers 1 default_limit (some intent_parse) (resume kept contexts)
          (start contexts) in
      let stored = persist_all run.id states t in
      let same : stored.db ≡ t.db = persist_all_db run.id states t in
      let is_stored = subst (λ (db : Db F). version_by id db ≡ some v) (sym same) is_v in
      elim (Result-cases (run_generation_workflow provider g.checkers 1 contexts kept true)) [
        | inr (e, raised) ↦
            same_row g id contexts v w t.db (run_with g provider contexts run v t).1.db
              (rw (run_with, raised) (fail_run_db run.id "WORKFLOW_FAILED" stored ∙ same)) is_v is_w
        | inl (result, ran) ↦
            store-Kept result contexts run id v w stored is_stored
              (streamed_plan provider contexts kept result empty ran)
              (subst (λ r. version_by id (end_run g r contexts run v stored).1.db ≡ some w) ran
                is_w)
      ]

  agent_runs :
      (provider : LlmProvider F) (run_id : ℕ) (t : GenerationTables F) (run : AgentRun F)
      (contexts : GenerationRequest F) (v : PipelineVersion F)
      → by (λ (r : AgentRun F). r.id) run_id t.agent_runs ≡ some run
      → version_of g run t.db ≡ some v
      → run.request ≡ some contexts
      → run_generation_agent g (some provider) run_id t ≡ run_with g provider contexts run v t
  unfolding run_generation_agent
  agent_runs provider run_id t run contexts v is_run is_v valid =
      rw (run_generation_agent, is_run, is_v) (ap (λ r. run_request g r provider run v t) valid)

  -- A run that is bound to a version of the tables.
  agent-Kept :
      (client : Option (LlmProvider F)) (run_id id : ℕ) (t : GenerationTables F) (run : AgentRun F)
      (v w : PipelineVersion F)
      → by (λ (r : AgentRun F). r.id) run_id t.agent_runs ≡ some run
      → ((contexts : GenerationRequest F)
          → run.request ≡ some contexts
          → (resume (g.checkpoint run.thread_id) contexts).plan ≡ none)
      → version_by id t.db ≡ some v
      → version_of g run t.db ≡ some v
      → version_by id (run_generation_agent g client run_id t).1.db ≡ some w
      → (w ≡ v)
        ⊎ ((contexts : GenerationRequest F) × (run.request ≡ some contexts)
            × HasSafePlan g contexts w)
  unfolding run_generation_agent
  agent-Kept none run_id id t run v w is_run empty is_v bound is_w =
      let same : (run_generation_agent g none run_id t).1.db ≡ t.db =
        rw (run_generation_agent, is_run, bound)
          (fail_run_db run_id "LLM_PROVIDER_UNAVAILABLE" t) in
      inl (ground (arith, same, is_v, is_w))
  agent-Kept (some provider) run_id id t run v w is_run empty is_v bound is_w =
      elim (Option-cases run.request) [
        | inl invalid ↦
            let same : (run_generation_agent g (some provider) run_id t).1.db ≡ t.db =
              rw (run_generation_agent, is_run, bound)
                (ap (λ r. (run_request g r provider run v t).1.db) invalid
                  ∙ fail_run_db run.id "AGENT_REQUEST_INVALID" t) in
            inl (ground (arith, same, is_v, is_w))
        | inr (contexts, valid) ↦
            elim (run_with-Kept provider contexts run id v w t (empty contexts valid) is_v (
              subst
                (λ (r : Result WorkerError Status × GenerationTables F).
                  version_by id r.1.db ≡ some w)
                (agent_runs provider run_id t run contexts v is_run bound valid) is_w)) [
                  | inl same ↦ inl same
                  | inr safe ↦ inr (contexts, valid, safe)
                ]
      ]

  -- Where the checkpointer keeps no plan of the thread of a queued run, whatever the outcome of its
  -- task, the row of its version is as it was; or the run's request validates, and the row is ready and
  -- immutable, with the digest and the HOCON of a plan that compiles and is safe for that request. It
  -- need not have been a draft.
  pub run_generation_agent-HasSafePlan :
      (client : Option (LlmProvider F)) (run_id id : ℕ) (t : GenerationTables F) (run : AgentRun F)
      (v w : PipelineVersion F)
      → by (λ (r : AgentRun F). r.id) run_id t.agent_runs ≡ some run
      → ((contexts : GenerationRequest F)
          → run.request ≡ some contexts
          → (resume (g.checkpoint run.thread_id) contexts).plan ≡ none)
      → run.pipeline_version_id ≡ some id
      → version_by id t.db ≡ some v
      → version_by id (run_generation_agent g client run_id t).1.db ≡ some w
      → (w ≡ v)
        ⊎ ((contexts : GenerationRequest F) × (run.request ≡ some contexts)
            × HasSafePlan g contexts w)
  run_generation_agent-HasSafePlan client run_id id t run v w is_run empty is_id is_v is_w =
      agent-Kept client run_id id t run v w is_run empty is_v (rw is_id is_v) is_w
