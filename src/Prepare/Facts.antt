-- ===== src/Prepare/Facts.antt =====
-- What a preparation stores.
use etl_agent.Prepare.Slots.{new_slots-AreOpenSlots, AreOpenSlots}
use etl_agent.Policy.Laws.{required_roles_level}
use etl_agent.Prelude.{
  not, ℕ, ◌+◌, ◌≤◌, ◌≡◌, refl, sym, ap, subst, ◌∙◌, ◌↔◌, String, true, some, List, [], ◌∷◌, ◌++◌,
  insert, is_empty, arith,
}
use etl_agent.Prelude.Result.{guard, ok, require, >>=-eq-ok, require-eq-ok, ok-injective}
use etl_agent.Prelude.Text.{trim}
use etl_agent.Store.{MetadataProfile, PreparationStatus, Db, Preparation, PipelineVersion}
use etl_agent.Access.{require_project_role}
use etl_agent.Rows.{pipeline_by, version_by}
use etl_agent.Commit.{granted_profiles}
use etl_agent.Policy.{decide_policy, p0}
use etl_agent.Api.{validation_error, api_error, run_handler-cases, Outcome}
use etl_agent.Services.{Request, Services}
use etl_agent.Prepare.{
  capped_input, new_preparation, check_preparable, prepare_version, prepare_body, PreparationCreate,
  new_slots, start_status,
}
use etl_agent.Prelude.{
  ℕ, ◌+◌, ◌≤◌, ◌≡◌, refl, sym, ap, subst, ◌∙◌, ◌↔◌, String, true, some, List, [], ◌∷◌, ◌++◌, insert,
  is_empty, arith,
}
use etl_agent.Prelude.Result.{ok, require, >>=-eq-ok, require-eq-ok, ok-injective}
use etl_agent.Store.{
  Pipeline, ApprovalRequest, maker, PreparationStatus, Db, Preparation, PipelineVersion,
}
use etl_agent.Float.{FloatOps}

start_status_iff :
    (roles : List String)
    → (start_status roles ≡ PreparationStatus.prepared) ↔ (is_empty roles ≡ true)
start_status_iff [] = ground arith
start_status_iff (r ∷ roles) = ground arith

module _ {F PrivateKey PublicKey : Type 0} ⦃fl : FloatOps F⦄
    (s : Services F PrivateKey PublicKey) where
  -- the preparation of a request, and the tables after it
  pub record IsPrepared (version_id : ℕ) (payload : PreparationCreate F) (request : Request)
      (db : Db F) (o : Outcome (Db F) (Preparation F)) : Type 0 where
    pub version : PipelineVersion F
    pub pipeline : Pipeline
    pub digest : String
    pub is_version : version_by version_id db ≡ some version
    pub is_checked : check_preparable s version pipeline db ≡ ok digest
    pub is_outcome :
        let p =
          new_preparation s request payload pipeline version digest
            (granted_profiles version pipeline.project_id db.profiles) in
        o ≡ (
          ok p,
          record db {
            preparations = insert p db.preparations;
            approvals = db.approvals ++ new_slots request pipeline.project_id 0 p.required_roles;
          },
        )

  prepare_body-IsPrepared :
      (version_id : ℕ) (payload : PreparationCreate F) (request : Request) (db : Db F)
      (o : Outcome (Db F) (Preparation F))
      → prepare_body s version_id payload request db ≡ ok o
      → IsPrepared version_id payload request db o
  unfolding prepare_body
  prepare_body-IsPrepared version_id payload request db o done =
      let (v, found, r1) = >>=-eq-ok (require (version_by version_id db) _) _ done in
      let (l, line, r2) = >>=-eq-ok (require (pipeline_by v.pipeline_id db) _) _ r1 in
      let (roles, allowed, r3) =
        >>=-eq-ok (require_project_role db l.project_id request.user (maker ∷ [])) _ r2 in
      let (digest, checked, r4) = >>=-eq-ok (check_preparable s v l db) _ r3 in
      let (u, not_blank, r5) =
        >>=-eq-ok
          (guard (not (is_empty (trim payload.environment))) (api_error validation_error 500)) _
          r4 in
      record {
        version = v;
        pipeline = l;
        digest = digest;
        is_version = require-eq-ok _ _ found;
        is_checked = checked;
        is_outcome = sym (ok-injective r5);
      }

  pub prepare_version-IsPrepared :
      (version_id : ℕ) (payload : PreparationCreate F) (request : Request) (db : Db F)
      {p : Preparation F}
      → (prepare_version s version_id payload request db).0 ≡ ok p
      → IsPrepared version_id payload request db (prepare_version s version_id payload request db)
  unfolding prepare_version
  prepare_version-IsPrepared version_id payload request db {p} =
      run_handler-cases
        (λ (o : Outcome (Db F) (Preparation F)).
          o.0 ≡ ok p → IsPrepared version_id payload request db o)
        db (prepare_body s version_id payload request db) (λ e h. absurd (ground arith))
        (λ o done fine. prepare_body-IsPrepared version_id payload request db o done)

  abbrev pub new_of :
      {version_id : ℕ} {payload : PreparationCreate F} {request : Request} {db : Db F}
      {o : Outcome (Db F) (Preparation F)}
      → IsPrepared version_id payload request db o
      → Preparation F
  new_of {version_id} {payload} {request} {db} x =
      new_preparation s request payload x.pipeline x.version x.digest
        (granted_profiles x.version x.pipeline.project_id db.profiles)

  pub new_of-eq :
      {version_id : ℕ} {payload : PreparationCreate F} {request : Request} {db : Db F}
      {o : Outcome (Db F) (Preparation F)} (x : IsPrepared version_id payload request db o)
      {p : Preparation F}
      → o.0 ≡ ok p
      → new_of x ≡ p
  new_of-eq x fine =
      ok-injective (ap (λ (o : Outcome (Db F) (Preparation F)). o.0) (sym x.is_outcome) ∙ fine)

  abbrev Frame : Request → Preparation F → Type 0
  Frame request p =
      ((p.status ≡ PreparationStatus.prepared) ↔ (p.risk_level ≡ p0))
      × (p.created_by ≡ request.user)
      × (request.now + 60 ≤ p.expires_at)
      × (p.expires_at ≤ request.now + 3600)

  new-Frame :
      (request : Request) (payload : PreparationCreate F) (pipeline : Pipeline)
      (version : PipelineVersion F) (digest : String) (profiles : List MetadataProfile)
      → Frame request (new_preparation s request payload pipeline version digest profiles)
  unfolding new_preparation
  new-Frame request payload pipeline version digest profiles =
      let roles = (decide_policy (capped_input s payload)).required_roles in
      let level = (required_roles_level (capped_input s payload)).0 in
      let status = start_status_iff roles in
      ((λ h. level.1 (status.0 h), λ h. status.1 (level.0 h)), refl, omega arith, omega arith)

  pub prepare_version_slots :
      (version_id : ℕ) (payload : PreparationCreate F) (request : Request) (db : Db F)
      {p : Preparation F}
      → (prepare_version s version_id payload request db).0 ≡ ok p
      → let after = (prepare_version s version_id payload request db).1 in
        ((p.status ≡ PreparationStatus.prepared) ↔ (p.risk_level ≡ p0))
        × (p.created_by ≡ request.user)
        × (request.now + 60 ≤ p.expires_at)
        × (p.expires_at ≤ request.now + 3600)
        × ((slots : List ApprovalRequest) × (after.approvals ≡ db.approvals ++ slots)
            × AreOpenSlots p.project_id p.id p.required_roles slots)
  unfolding new_preparation
  prepare_version_slots version_id payload request db {p} fine =
      let x = prepare_version-IsPrepared version_id payload request db fine in
      let q = new_of x in
      let frame = subst (Frame request) (new_of-eq x fine) (
        new-Frame request payload x.pipeline x.version x.digest
          (granted_profiles x.version x.pipeline.project_id db.profiles)) in
      (
        frame.0,
        frame.1,
        frame.2,
        frame.3,
        (
          new_slots request x.pipeline.project_id 0 q.required_roles,
          ap (λ (o : Outcome (Db F) (Preparation F)). o.1.approvals) x.is_outcome,
          subst
              (λ (r : Preparation F).
                AreOpenSlots r.project_id r.id r.required_roles
                  (new_slots request x.pipeline.project_id 0 q.required_roles))
              (new_of-eq x fine)
              (new_slots-AreOpenSlots request x.pipeline.project_id 0 q.required_roles),
        ),
      )
