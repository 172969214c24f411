-- ===== src/Generation/Frozen.antt =====
-- What `generate_version` freezes.
use etl_agent.Prelude.Sort.{distinct}
use etl_agent.Prelude.{
  ℕ, ◌≡◌, refl, sym, ap, subst, ◌∙◌, ◌⊎◌, inl, inr, Bool, true, false, ◌&&◌, not, Option, none,
  some, [], ◌∷◌, ◌==◌, any, keep, length, is_empty, arith,
}
use etl_agent.Prelude.Result.{Result-cases, ok, guard, require, >>=-eq-ok, ok-injective}
use etl_agent.Prelude.Text.{text_eq}
use etl_agent.Store.{Db, PipelineVersion}
use etl_agent.Float.{FloatOps}
use etl_agent.Domain.{EtlPlan, GenerationRequest, cap_runtime_budget, default_budget}
use etl_agent.Validation.Plan.{compile_hocon}
use etl_agent.Workflow.{GenerationState}
use etl_agent.Workflow.Run.{GenerationResult, run_generation_workflow, resume}
use etl_agent.Rows.{version_by, pipeline_by}
use etl_agent.Api.{
  validation_error, api_error, Outcome, version_not_found, pipeline_not_found, version_immutable,
  profile_not_found, integrity_error,
}
use etl_agent.Access.{require_project_role}
use etl_agent.Services.{Request}
use etl_agent.Store.{Pipeline, maker}
use etl_agent.Generation.Kept.{HasSafePlan, Kept, same_row, freeze-Kept}
use etl_agent.Generation.{
  has_texts, has_profile_id, GenerationStartRequest, AgentRun, GenerationTables, Generator,
  thread_of, generation_request, prepare_generation_context, new_run, freeze_version,
  persist_generation_result, end_generation, generate_body, generate_version,
}
use etl_agent.Prelude.Result.{require-eq-ok, guard-eq-ok}
use etl_agent.Validation.Gate.{IsSafe}
use etl_agent.Workflow.Complete.{run_generation_workflow_plan}
use etl_agent.Values.{Value}
use etl_agent.Api.{run_handler-cases}

not-true : (b : Bool) → not b ≡ true → b ≡ false
not-true false h = refl
not-true true h = absurd (ground arith)

module _ {F : Type 0} ⦃fl : FloatOps F⦄ (g : Generator F) where
  -- A draft's row is frozen, to a plan that is safe for a request with a capped budget.
  pub record IsFrozen (payload : GenerationStartRequest F) (before after : PipelineVersion F)
      : Type 0 where
    pub was_draft : before.immutable ≡ false
    pub contexts : GenerationRequest F
    pub is_capped :
        contexts.max_runtime_budget ≡ cap_runtime_budget payload.max_runtime_budget default_budget
    pub safe_plan : HasSafePlan g contexts after

  record IsDraft (version_id : ℕ) (payload : GenerationStartRequest F) (db : Db F)
      (version : PipelineVersion F) (contexts : GenerationRequest F) : Type 0 where
    is_row : version_by version_id db ≡ some version
    draft : version.immutable ≡ false
    capped :
        contexts.max_runtime_budget ≡ cap_runtime_budget payload.max_runtime_budget default_budget

  prepared-IsDraft :
      (version_id : ℕ) (payload : GenerationStartRequest F) (request : Request) (db : Db F)
      (version : PipelineVersion F) (pipeline : Pipeline) (contexts : GenerationRequest F)
      → prepare_generation_context g version_id payload request db
        ≡ ok (version, pipeline, contexts)
      → IsDraft version_id payload db version contexts
  unfolding prepare_generation_context generation_request
  prepared-IsDraft version_id payload request db version pipeline contexts h =
      let (v, is_v, h1) =
        >>=-eq-ok (require (version_by version_id db) (api_error version_not_found 404)) _ h in
      let (p, is_p, h2) =
        >>=-eq-ok (require (pipeline_by v.pipeline_id db) (api_error pipeline_not_found 404)) _
          h1 in
      let (roles, allowed, h3) =
        >>=-eq-ok (require_project_role db p.project_id request.user (maker ∷ [])) _ h2 in
      let (u, is_draft, h4) =
        >>=-eq-ok (guard (not v.immutable) (api_error version_immutable 409)) _ h3 in
      let sources = keep (has_profile_id payload.source_profile_ids p.project_id) db.profiles in
      let targets = keep (has_profile_id payload.target_profile_ids p.project_id) db.profiles in
      let (u1, has_sources, h5) =
        >>=-eq-ok
          (guard
            ((length sources == length (distinct payload.source_profile_ids))
              && not (is_empty targets))
            (api_error profile_not_found 404))
          _ h4 in
      let (u2, has_targets, h6) =
        >>=-eq-ok
          (guard (length targets == length (distinct payload.target_profile_ids))
            (api_error profile_not_found 404))
          _ h5 in
      let (u3, has, h7) =
        >>=-eq-ok (guard (has_texts g payload) (api_error validation_error 500)) _ h6 in
      let triple = ok-injective h7 in
      let same : v ≡ version = ap (λ x. x.0) triple in
      let mutable : not v.immutable ≡ true = guard-eq-ok _ _ is_draft in
      record {
        is_row = require-eq-ok _ _ is_v ∙ ap some same;
        draft =
            subst (λ (v : PipelineVersion F). v.immutable ≡ false) same
              (not-true v.immutable mutable);
        capped =
            ap (λ (c : GenerationRequest F). c.max_runtime_budget) (sym (ap (λ x. x.2) triple));
      }

  abbrev Unless : GenerationStartRequest F → PipelineVersion F → PipelineVersion F → Type 0
  Unless payload v w = (w ≡ v) ⊎ IsFrozen payload v w

  draft-Kept :
      (version_id : ℕ) (payload : GenerationStartRequest F) (contexts : GenerationRequest F)
      (v w : PipelineVersion F) (db : Db F)
      → IsDraft version_id payload db v contexts
      → Kept g contexts v w
      → Unless payload v w
  draft-Kept version_id payload contexts v w db draft (inl same) = inl same
  draft-Kept version_id payload contexts v w db draft (inr safe) = inr (record {
    was_draft = draft.draft;
    contexts = contexts;
    is_capped = draft.capped;
    safe_plan = safe;
  })

  -- the plan of a result that the workflow returned
  result_plan :
      (contexts : GenerationRequest F) (kept : Option (GenerationState F))
      (result : GenerationResult F)
      → (resume kept contexts).plan ≡ none
      → run_generation_workflow g.provider g.checkers 1 contexts kept false ≡ ok result
      → (plan : EtlPlan F) → result.plan ≡ some plan
      → ((config : Value) × (compile_hocon g.checkers plan.hocon ≡ ok config))
        × IsSafe plan contexts
  result_plan contexts kept result empty ran plan has =
      elim (run_generation_workflow_plan g.provider g.checkers 1 contexts kept result empty ran) [
        | inr (undone, missing) ↦ absurd (ground (arith, missing, has))
        | inl (done, clean, (p, candidate, is_p, parsed, compiled, safe)) ↦
            let same : p ≡ plan = ground (arith, is_p, has) in
            subst
              (λ (q : EtlPlan F).
                ((config : Value) × (compile_hocon g.checkers q.hocon ≡ ok config))
                × IsSafe q contexts)
              same (compiled, safe)
      ]

  persisted_db :
      (result : GenerationResult F) (contexts : GenerationRequest F) (v : PipelineVersion F)
      (run : AgentRun F) (t : GenerationTables F) {o : Outcome (GenerationTables F) (AgentRun F)}
      → persist_generation_result g result contexts v run t ≡ ok o
      → freeze_version g result.plan contexts v t.db ≡ ok o.1.db
  unfolding persist_generation_result
  persisted_db result contexts v run t {o} done =
      let (db, frozen, rest) = >>=-eq-ok (freeze_version g result.plan contexts v t.db) _ done in
      let same : db ≡ o.1.db =
        ap (λ (o : Outcome (GenerationTables F) (AgentRun F)). o.1.db) (ok-injective rest) in
      subst (λ db. freeze_version g result.plan contexts v t.db ≡ ok db) same frozen

  end-Kept :
      (version_id : ℕ) (payload : GenerationStartRequest F) (contexts : GenerationRequest F)
      (kept : Option (GenerationState F)) (v w : PipelineVersion F) (run : AgentRun F)
      (t : GenerationTables F) {o : Outcome (GenerationTables F) (AgentRun F)}
      → IsDraft version_id payload t.db v contexts
      → (resume kept contexts).plan ≡ none
      → end_generation g
          (run_generation_workflow g.provider g.checkers 1 contexts kept false)
          contexts
          v
          run
          t
        ≡ ok o
      → version_by version_id o.1.db ≡ some w
      → Unless payload v w
  unfolding end_generation persist_generation_result
  end-Kept version_id payload contexts kept v w run t {o} draft empty done is_w =
      draft-Kept version_id payload contexts v w t.db draft
        (elim (Result-cases (run_generation_workflow g.provider g.checkers 1 contexts kept false)) [
          | inr (e, raised) ↦
              let same : o.1.db ≡ t.db = ground arith in
              same_row g version_id contexts v w t.db o.1.db same draft.is_row is_w
          | inl (result, ran) ↦
              let persisted : persist_generation_result g result contexts v run t ≡ ok o =
                subst (λ r. end_generation g r contexts v run t ≡ ok o) ran done in
              freeze-Kept g result.plan contexts version_id v w t.db o.1.db draft.is_row
                (result_plan contexts kept result empty ran)
                (persisted_db result contexts v run t {o = o} persisted) is_w
        ])

  body-Kept :
      (version_id : ℕ) (payload : GenerationStartRequest F) (request : Request)
      (t : GenerationTables F) (v w : PipelineVersion F)
      (o : Outcome (GenerationTables F) (AgentRun F))
      → ((contexts : GenerationRequest F)
          → (resume (g.checkpoint (thread_of g payload)) contexts).plan ≡ none)
      → version_by version_id t.db ≡ some v
      → generate_body g version_id payload request t ≡ ok o
      → version_by version_id o.1.db ≡ some w
      → Unless payload v w
  unfolding generate_body
  body-Kept version_id payload request t v w o empty is_v done is_w =
      let ((x, pipeline, contexts), prepared, h1) =
        >>=-eq-ok (prepare_generation_context g version_id payload request t.db) _ done in
      let (u, new, ended) =
        >>=-eq-ok
          (guard
            (not (any (λ (r : AgentRun F). text_eq r.thread_id (thread_of g payload)) t.agent_runs))
            (api_error integrity_error 500))
          _ h1 in
      let draft = prepared-IsDraft version_id payload request t.db x pipeline contexts prepared in
      let same : x ≡ v = ground (arith, draft.is_row, is_v) in
      subst (λ v. Unless payload v w) same
        (end-Kept version_id payload contexts (g.checkpoint (thread_of g payload)) x w
          (new_run g payload x pipeline contexts) t {o = o} draft (empty contexts) ended is_w)

  -- Where the checkpointer keeps no plan of the thread, whatever the outcome of a request to generate a
  -- version, its row is as it was; or it was a draft and is now ready and immutable, with the digest and
  -- the HOCON of a plan that compiles and is safe for a request whose budget is the one that was asked
  -- for, capped by the defaults.
  pub generate_version-IsFrozen :
      (version_id : ℕ) (payload : GenerationStartRequest F) (request : Request)
      (t : GenerationTables F) (v w : PipelineVersion F)
      → ((contexts : GenerationRequest F)
          → (resume (g.checkpoint (thread_of g payload)) contexts).plan ≡ none)
      → version_by version_id t.db ≡ some v
      → version_by version_id (generate_version g version_id payload request t).1.db ≡ some w
      → (w ≡ v) ⊎ IsFrozen payload v w
  unfolding generate_version
  generate_version-IsFrozen version_id payload request t v w empty is_v =
      run_handler-cases
        (λ (o : Outcome (GenerationTables F) (AgentRun F)).
          version_by version_id o.1.db ≡ some w → Unless payload v w)
        t (generate_body g version_id payload request t)
        (λ e is_w. inl (ground (arith, is_v, is_w)))
        (λ o done is_w. body-Kept version_id payload request t v w o empty is_v done is_w)
