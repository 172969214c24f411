-- ===== src/Prepare/Current.antt =====
-- What a commit finds of a preparation on the tables that it left.
use etl_agent.Prepare.Facts.{prepare_version-IsPrepared, prepare_version_slots, new_of-eq}
use etl_agent.Commit.Handler.{commit_approved, commit_current, commit_open}
use etl_agent.Prelude.{
  leb, ◌≢◌, ◌<◌, false, ℕ, ◌≡◌, refl, ap, subst, String, true, some, List, [], ◌∷◌, arith,
}
use etl_agent.Prelude.Result.{err, ok}
use etl_agent.Prelude.Text.{trim-trim, text_eq_refl, text_eq}
use etl_agent.Store.{MetadataProfile, PreparationStatus, Db, Preparation, PipelineVersion}
use etl_agent.Rows.{version_by}
use etl_agent.Commit.{
  is_committable, preparation_fingerprint, policy_input_from_preparation, granted_profiles,
  current_fingerprint, check_version,
}
use etl_agent.Policy.{decide_policy, p0}
use etl_agent.Api.{preparation_not_committable, api_error, Outcome}
use etl_agent.Services.{Request, Services}
use etl_agent.Prepare.{
  capped_input, new_preparation, check_preparable, prepare_version, PreparationCreate, start_status,
}
use etl_agent.Prelude.{by_self, ℕ, ◌≡◌, refl, ap, subst, String, true, some, List, [], ◌∷◌, arith}
use etl_agent.Prelude.Result.{ok}
use etl_agent.Prelude.Text.{text_eq}
use etl_agent.Store.{Pipeline, PreparationStatus, Db, Preparation, PipelineVersion}
use etl_agent.Float.{FloatOps}

leb-false : (a b : ℕ) → b < a → leb a b ≡ false
leb-false a b h = ground (arith, h)

start_status_pending :
    (roles : List String)
    → start_status roles ≢ PreparationStatus.prepared
    → start_status roles ≡ PreparationStatus.approval_pending
start_status_pending [] other = absurd (other refl)
start_status_pending (role ∷ roles) other = refl

module _ {F PrivateKey PublicKey : Type 0} ⦃fl : FloatOps F⦄
    (s : Services F PrivateKey PublicKey) where
  new_version :
      (version_id : ℕ) (request : Request) (payload : PreparationCreate F) (pipeline : Pipeline)
      (version : PipelineVersion F) (digest : String) (profiles : List MetadataProfile)
      (db after : Db F)
      → version_by version_id db ≡ some version
      → check_preparable s version pipeline db ≡ ok digest
      → after.versions ≡ db.versions
      → after.profiles ≡ db.profiles
      → check_version s after (new_preparation s request payload pipeline version digest profiles)
        ≡ ok (version, digest)
  unfolding new_preparation check_version check_preparable
  new_version version_id request payload pipeline version digest profiles db after found checked
        same_v same_p =
      let there = by_self (λ (v : PipelineVersion F). v.id) version_id db.versions found in
      rw (same_v, same_p, there) (ground arith)

  new_fingerprint :
      (request : Request) (payload : PreparationCreate F) (pipeline : Pipeline)
      (version : PipelineVersion F) (digest : String) (db after : Db F)
      → after.profiles ≡ db.profiles
      → let p =
          new_preparation s request payload pipeline version digest
            (granted_profiles version pipeline.project_id db.profiles) in
        text_eq (current_fingerprint s after p version digest) p.input_fingerprint ≡ true
  unfolding new_preparation policy_input_from_preparation capped_input
  new_fingerprint request payload pipeline version digest db after same =
      rw (same, trim-trim payload.environment)
        (text_eq_refl (
          preparation_fingerprint s digest
            (granted_profiles version pipeline.project_id db.profiles) (capped_input s payload)))

  -- the rest of a commit of a preparation that needs no approval
  open_prepared :
      (again : Request) (p : Preparation F) (version : PipelineVersion F) (digest : String)
      (after : Db F)
      → p.status ≡ PreparationStatus.prepared
      → again.now < p.expires_at
      → check_version s after p ≡ ok (version, digest)
      → text_eq (current_fingerprint s after p version digest) p.input_fingerprint ≡ true
      → commit_open s again p after ≡ commit_approved s again p version digest after
  unfolding commit_open commit_current
  open_prepared again p version digest after free alive ready fits =
      let may : is_committable p.status ≡ true = ap is_committable free in
      rw (may, leb-false p.expires_at again.now alive, ready, fits) refl

  -- and of one that does
  open_pending :
      (again : Request) (p : Preparation F) (after : Db F)
      → p.status ≡ PreparationStatus.approval_pending
      → commit_open s again p after ≡ err (api_error preparation_not_committable 409)
  unfolding commit_open
  open_pending again p after waits = rw waits refl

  pending :
      (version_id : ℕ) (payload : PreparationCreate F) (request : Request) (db : Db F)
      {p : Preparation F}
      → (prepare_version s version_id payload request db).0 ≡ ok p
      → p.status ≢ PreparationStatus.prepared
      → p.status ≡ PreparationStatus.approval_pending
  unfolding new_preparation
  pending version_id payload request db fine =
      let x = prepare_version-IsPrepared s version_id payload request db fine in
      subst
        (λ (q : Preparation F).
          q.status ≢ PreparationStatus.prepared → q.status ≡ PreparationStatus.approval_pending)
        (new_of-eq s x fine)
        (start_status_pending (decide_policy (capped_input s payload)).required_roles)

  -- On the tables that a preparation left, a commit finds its version ready, and computes from the facts
  -- that the preparation stores the fingerprint that it stores. Behind the check of the committer's role,
  -- and before the preparation expires, a preparation at P0 goes on to the commit proper, and any other is
  -- refused as not committable.
  pub prepare_version_current :
      (version_id : ℕ) (payload : PreparationCreate F) (request : Request) (db : Db F)
      {p : Preparation F} (again : Request)
      → (prepare_version s version_id payload request db).0 ≡ ok p
      → again.now < p.expires_at
      → let after = (prepare_version s version_id payload request db).1 in
        (v : PipelineVersion F × String) × (check_version s after p ≡ ok v)
        × (text_eq (current_fingerprint s after p v.0 v.1) p.input_fingerprint ≡ true)
        × (p.risk_level ≡ p0
            → commit_open s again p after ≡ commit_approved s again p v.0 v.1 after)
        × (p.risk_level ≢ p0
            → commit_open s again p after ≡ err (api_error preparation_not_committable 409))
  prepare_version_current version_id payload request db {p} again fine alive =
      let x = prepare_version-IsPrepared s version_id payload request db fine in
      let after = (prepare_version s version_id payload request db).1 in
      let profiles = granted_profiles x.version x.pipeline.project_id db.profiles in
      let same_v = ap (λ (o : Outcome (Db F) (Preparation F)). o.1.versions) x.is_outcome in
      let same_p = ap (λ (o : Outcome (Db F) (Preparation F)). o.1.profiles) x.is_outcome in
      let ready : check_version s after p ≡ ok (x.version, x.digest) =
        subst (λ q. check_version s after q ≡ ok (x.version, x.digest)) (new_of-eq s x fine)
          (new_version version_id request payload x.pipeline x.version x.digest profiles db after
            x.is_version x.is_checked same_v same_p) in
      let fits : text_eq (current_fingerprint s after p x.version x.digest) p.input_fingerprint
          ≡ true =
        subst
          (λ q.
            text_eq (current_fingerprint s after q x.version x.digest) q.input_fingerprint ≡ true)
          (new_of-eq s x fine)
          (new_fingerprint request payload x.pipeline x.version x.digest db after same_p) in
      let status = (prepare_version_slots s version_id payload request db fine).0 in
      (
        (x.version, x.digest),
        ready,
        fits,
        λ free. open_prepared again p x.version x.digest after (status.1 free) alive ready fits,
        λ risky.
            open_pending again p after
              (pending version_id payload request db fine (λ h. risky (status.0 h))),
      )
