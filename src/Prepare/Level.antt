-- ===== src/Prepare/Level.antt =====
-- The risk level of a new preparation.
use etl_agent.Prepare.Facts.{prepare_version-IsPrepared, new_of-eq}
use etl_agent.Policy.Laws.{decide_policy_level, over_default_capped}
use etl_agent.Prelude.{false, ◌⊎◌, ℕ, ◌≡◌, refl, subst, ◌↔◌, String, true, List, arith}
use etl_agent.Prelude.Result.{ok}
use etl_agent.Prelude.Text.{trim}
use etl_agent.Store.{MetadataProfile, Db, Preparation, PipelineVersion}
use etl_agent.Commit.{granted_profiles}
use etl_agent.Policy.{is_sensitive, confidential, p2, is_restricted, p3, is_production, p0}
use etl_agent.Services.{Request, Services}
use etl_agent.Prepare.{capped_input, new_preparation, prepare_version, PreparationCreate}
use etl_agent.Prelude.{ℕ, ◌≡◌, refl, subst, ◌↔◌, String, true, List, arith}
use etl_agent.Prelude.Result.{ok}
use etl_agent.Store.{Pipeline, Db, Preparation, PipelineVersion}
use etl_agent.Float.{FloatLaws, FloatOps}

module _ {F PrivateKey PublicKey : Type 0} ⦃fl : FloatOps F⦄ (laws : FloatLaws F fl)
    (s : Services F PrivateKey PublicKey) where
  -- the level of a new preparation, whose environment is trimmed
  abbrev Level : PreparationCreate F → Preparation F → Type 0
  Level payload p =
      let production = is_production (trim payload.environment) in
      ((p.risk_level ≡ p3)
        ↔ ((is_restricted payload.data_classification ≡ true) ⊎ (production ≡ true)))
      × ((p.risk_level ≡ p2)
          ↔ ((payload.data_classification ≡ confidential) × (production ≡ false)))
      × ((p.risk_level ≡ p0) ↔ (
          (payload.writes_target ≡ false)
          × (is_sensitive payload.data_classification ≡ false)
          × (production ≡ false)))

  new-Level :
      (request : Request) (payload : PreparationCreate F) (pipeline : Pipeline)
      (version : PipelineVersion F) (digest : String) (profiles : List MetadataProfile)
      → Level payload (new_preparation s request payload pipeline version digest profiles)
  unfolding new_preparation capped_input
  new-Level request payload pipeline version digest profiles =
      let input = capped_input s payload in
      let capped = over_default_capped laws payload.runtime_budget input refl in
      let level = decide_policy_level input in ground (arith, capped, level)

  -- The level of a new preparation is decided without the output amplification, since its budget is
  -- capped by the defaults: it is P3 exactly for restricted data or a production environment, white
  -- space around it removed; P2 exactly for confidential data in another environment; and P0 exactly
  -- for an operation that writes nothing, on data that is not sensitive, in another environment.
  pub prepare_version_level :
      (version_id : ℕ) (payload : PreparationCreate F) (request : Request) (db : Db F)
      {p : Preparation F}
      → (prepare_version s version_id payload request db).0 ≡ ok p
      → let production = is_production (trim payload.environment) in
        ((p.risk_level ≡ p3)
          ↔ ((is_restricted payload.data_classification ≡ true) ⊎ (production ≡ true)))
        × ((p.risk_level ≡ p2)
            ↔ ((payload.data_classification ≡ confidential) × (production ≡ false)))
        × ((p.risk_level ≡ p0) ↔ (
            (payload.writes_target ≡ false)
            × (is_sensitive payload.data_classification ≡ false)
            × (production ≡ false)))
  prepare_version_level version_id payload request db fine =
      let x = prepare_version-IsPrepared s version_id payload request db fine in
      subst (Level payload) (new_of-eq s x fine) (
        new-Level request payload x.pipeline x.version x.digest
          (granted_profiles x.version x.pipeline.project_id db.profiles))
