-- ===== src/Generation/Kept.antt =====
-- What freezing a version does to its row.
use etl_agent.Validation.Gate.{IsSafe}
use etl_agent.Rows.{save_version, version_by}
use etl_agent.Store.{PipelineVersionStatus, Db, PipelineVersion}
use etl_agent.Generation.{has_digest, freeze, freeze_version, Generator}
use etl_agent.Prelude.{
  by-save_at, any, Bool-cases, sym, ◌⊎◌, true, ℕ, ◌≡◌, refl, subst, inl, inr, Option, none, some,
  arith,
}
use etl_agent.Prelude.Result.{ok, ok-injective}
use etl_agent.Float.{FloatOps}
use etl_agent.Domain.{GenerationRequest, EtlPlan}
use etl_agent.Validation.Plan.{compile_hocon}
use etl_agent.Workflow.Run.{after}
use etl_agent.Values.{Value}

-- a row that is ready and immutable, with a plan that is safe for a request
pub record HasSafePlan {F : Type 0} ⦃fl : FloatOps F⦄ (g : Generator F)
    (request : GenerationRequest F) (row : PipelineVersion F) : Type 0 where
  pub is_immutable : row.immutable ≡ true
  pub is_ready : row.status ≡ PipelineVersionStatus.ready
  pub plan : EtlPlan F
  pub has_artifact : row.artifact_digest ≡ some (g.artifact_digest plan)
  pub has_hocon : row.hocon ≡ plan.hocon
  pub compiles : (config : Value) × (compile_hocon g.checkers plan.hocon ≡ ok config)
  pub is_safe : IsSafe plan request

module _ {F : Type 0} ⦃fl : FloatOps F⦄ (g : Generator F) where
  -- The row is as it was, or it has a plan that is safe for the request.
  abbrev pub Kept : GenerationRequest F → PipelineVersion F → PipelineVersion F → Type 0
  Kept request v w = (w ≡ v) ⊎ HasSafePlan g request w

  -- a version whose tables did not change
  pub same_row :
      (id : ℕ) (request : GenerationRequest F) (v w : PipelineVersion F) (before after : Db F)
      → after ≡ before
      → version_by id before ≡ some v
      → version_by id after ≡ some w
      → Kept request v w
  same_row id request v w before after same is_v is_w = inl (ground (arith, same, is_v, is_w))

  pub freeze-Kept :
      (o : Option (EtlPlan F)) (request : GenerationRequest F) (id : ℕ) (v w : PipelineVersion F)
      (db after : Db F)
      → version_by id db ≡ some v
      → ((plan : EtlPlan F)
          → o ≡ some plan
          → ((config : Value) × (compile_hocon g.checkers plan.hocon ≡ ok config))
            × IsSafe plan request)
      → freeze_version g o request v db ≡ ok after
      → version_by id after ≡ some w
      → Kept request v w
  unfolding freeze_version freeze
  freeze-Kept none request id v w db after is_v safe done is_w =
      same_row id request v w db after (sym (ok-injective done)) is_v is_w
  freeze-Kept (some plan) request id v w db after is_v safe done is_w =
      let frozen = freeze g plan request v in
      elim (Bool-cases (any (has_digest g v.id (g.artifact_digest plan)) db.versions)) [
        | inl clash ↦ absurd (ground arith)
        | inr new ↦
            let same : save_version frozen db ≡ after = ground arith in
            let is_frozen =
              by-save_at (λ (r : PipelineVersion F). r.id) frozen id db.versions is_v refl in
            let is_after = subst (λ (db : Db F). version_by id db ≡ some frozen) same is_frozen in
            let result : frozen ≡ w = ground (arith, is_after, is_w) in
            inr (
              subst (HasSafePlan g request) result (record {
                is_immutable = refl;
                is_ready = refl;
                plan = plan;
                has_artifact = refl;
                has_hocon = refl;
                compiles = (safe plan refl).0;
                is_safe = (safe plan refl).1;
              }))
      ]
