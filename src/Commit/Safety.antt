-- ===== src/Commit/Safety.antt =====
-- A commit that creates an execution has passed every check on facts that are current.
use etl_agent.Prelude.{ℕ, ◌≡◌, true, false, some, [], ◌∷◌, ◌<◌, arith, String}
use etl_agent.Prelude.Text.{Text, text_eq}
use etl_agent.Prelude.Result.{ok, guard, require, >>=-eq-ok, guard-eq-ok, require-eq-ok}
use etl_agent.Api.{Outcome, run_handler-cases}
use etl_agent.Access.{require_project_role, intersects, roles_of}
use etl_agent.Rows.{preparation_by, version_by}
use etl_agent.Services.{Services, Request}
use etl_agent.Store.{Db, Preparation, PipelineVersion, operator}
use etl_agent.Commit.{
  CommitResponse, is_committable, is_ready, truthy, approvals_cover, answer_committed,
  answer_duplicate, check_version, current_fingerprint, has_all_profiles, idempotency_key_of,
}
use etl_agent.Commit.Handler.{
  clashes, issue_submit_token, committed_db, fresh_response, create_execution, commit_approved,
  commit_current, commit_open, commit_body, commit_preparation,
}

module _ {F PrivateKey PublicKey : Type 0} (s : Services F PrivateKey PublicKey) where
  -- what holds of the tables before a commit that creates an execution, and of its outcome
  pub record IsFreshCommit (preparation_id : ℕ) (request : Request) (db : Db F)
      (o : Outcome (Db F) CommitResponse) : Type 0 where
    pub preparation : Preparation F
    pub version : PipelineVersion F
    pub digest : String
    pub key : Text
    pub token : Text
    pub is_preparation : preparation_by preparation_id db ≡ some preparation
    pub is_operator :
        intersects (roles_of preparation.project_id request.user db.grants) (operator ∷ []) ≡ true
    pub was_committable : is_committable preparation.status ≡ true
    pub not_expired : request.now < preparation.expires_at
    pub is_version : version_by preparation.pipeline_version_id db ≡ some version
    pub is_frozen : version.immutable ≡ true
    pub was_ready : is_ready version.status ≡ true
    pub has_digest : truthy version.artifact_digest ≡ some digest
    pub has_profiles : has_all_profiles version preparation.project_id db.profiles ≡ true
    pub is_unchanged :
        text_eq (current_fingerprint s db preparation version digest) preparation.input_fingerprint
        ≡ true
    pub is_approved : approvals_cover preparation.id preparation.required_roles db.approvals ≡ true
    pub is_first : clashes preparation.id key db.executions ≡ false
    pub is_issued : issue_submit_token s request preparation digest ≡ ok token
    pub replies : o.0 ≡ ok (fresh_response s request preparation key token)
    pub writes : o.1 ≡ committed_db s request preparation version digest key token db

  pub created :
      (request : Request) (preparation : Preparation F) (version : PipelineVersion F)
      (digest : String) (key : Text) (db : Db F) {o : Outcome (Db F) CommitResponse}
      → create_execution s request preparation version digest key db ≡ ok o
      → (token : Text) × (issue_submit_token s request preparation digest ≡ ok token)
        × (clashes preparation.id key db.executions ≡ false)
        × (o.0 ≡ ok (fresh_response s request preparation key token))
        × (o.1 ≡ committed_db s request preparation version digest key token db)
  unfolding create_execution
  created request preparation version digest key db done =
      let (token, issued, rest) =
        >>=-eq-ok (issue_submit_token s request preparation digest) _ done in
      (token, issued, ground arith, ground arith, ground arith)

  approved_body :
      (request : Request) (preparation : Preparation F) (version : PipelineVersion F)
      (digest : String) (db : Db F) {o : Outcome (Db F) CommitResponse} {r : CommitResponse}
      → commit_approved s request preparation version digest db ≡ ok o
      → o.0 ≡ ok r
      → r.idempotent ≡ false
      → (approvals_cover preparation.id preparation.required_roles db.approvals ≡ true)
        × ((key : Text) × (create_execution s request preparation version digest key db ≡ ok o))
  unfolding commit_approved answer_duplicate
  approved_body request preparation version digest db done fine fresh =
      let (u, covered, rest) =
        >>=-eq-ok (guard (approvals_cover preparation.id preparation.required_roles db.approvals) _)
          _ done in
      let (key, keyed, last) = >>=-eq-ok (idempotency_key_of s request preparation) _ rest in
      (guard-eq-ok _ _ covered, (key, ground arith))

  checked_version :
      (db : Db F) (preparation : Preparation F) {v : PipelineVersion F × String}
      → check_version s db preparation ≡ ok v
      → (version_by preparation.pipeline_version_id db ≡ some v.0)
        × (v.0.immutable ≡ true)
        × (is_ready v.0.status ≡ true)
        × (truthy v.0.artifact_digest ≡ some v.1)
        × (has_all_profiles v.0 preparation.project_id db.profiles ≡ true)
  unfolding check_version
  checked_version db preparation done = ground arith

  current_body :
      (request : Request) (preparation : Preparation F) (db : Db F)
      {o : Outcome (Db F) CommitResponse} {r : CommitResponse}
      → commit_current s request preparation db ≡ ok o
      → o.0 ≡ ok r
      → (v : PipelineVersion F × String) × (check_version s db preparation ≡ ok v)
        × (text_eq (current_fingerprint s db preparation v.0 v.1) preparation.input_fingerprint
            ≡ true)
        × (commit_approved s request preparation v.0 v.1 db ≡ ok o)
  unfolding commit_current
  current_body request preparation db done fine =
      let (v, checked, rest) = >>=-eq-ok (check_version s db preparation) _ done in
      (v, checked, ground arith, ground arith)

  open_body :
      (preparation_id : ℕ) (request : Request) (db : Db F) {o : Outcome (Db F) CommitResponse}
      {r : CommitResponse}
      → commit_body s preparation_id request db ≡ ok o
      → o.0 ≡ ok r
      → r.idempotent ≡ false
      → (preparation : Preparation F) × (preparation_by preparation_id db ≡ some preparation)
        × (intersects (roles_of preparation.project_id request.user db.grants) (operator ∷ [])
            ≡ true)
        × (is_committable preparation.status ≡ true)
        × (request.now < preparation.expires_at)
        × (commit_current s request preparation db ≡ ok o)
  unfolding commit_body commit_open answer_committed require_project_role
  open_body preparation_id request db done fine fresh =
      let (preparation, found, rest) =
        >>=-eq-ok (require (preparation_by preparation_id db) _) _ done in
      (preparation, require-eq-ok _ _ found, ground arith, ground arith, ground arith, ground arith)

  fresh_commit :
      (preparation_id : ℕ) (request : Request) (db : Db F) {r : CommitResponse}
      (o : Outcome (Db F) CommitResponse)
      → commit_body s preparation_id request db ≡ ok o
      → o.0 ≡ ok r
      → r.idempotent ≡ false
      → IsFreshCommit preparation_id request db o
  fresh_commit preparation_id request db o done fine fresh =
      let (p, found, allowed, committable, alive, current) =
        open_body preparation_id request db done fine fresh in
      let (v, checked, same, approved) = current_body request p db current fine in
      let (is_v, frozen, ready, digest, profiles) = checked_version db p checked in
      let (covered, keyed) = approved_body request p v.0 v.1 db approved fine fresh in
      let (token, issued, first, reply, write) = created request p v.0 v.1 keyed.0 db keyed.1 in
      record {
        preparation = p;
        version = v.0;
        digest = v.1;
        key = keyed.0;
        token = token;
        is_preparation = found;
        is_operator = allowed;
        was_committable = committable;
        not_expired = alive;
        is_version = is_v;
        is_frozen = frozen;
        was_ready = ready;
        has_digest = digest;
        has_profiles = profiles;
        is_unchanged = same;
        is_approved = covered;
        is_first = first;
        is_issued = issued;
        replies = reply;
        writes = write;
      }

  -- A commit that creates an execution was asked for by an operator of the project, of a preparation
  -- that is approved (or needs no approval) and has not expired; its version is frozen and ready,
  -- its facts have the frozen fingerprint, each required role has an approved slot, and no earlier
  -- execution has its preparation or key; and it writes exactly the rows of one transaction.
  pub commit_preparation-IsFreshCommit :
      (preparation_id : ℕ) (request : Request) (db : Db F) {r : CommitResponse}
      → (commit_preparation s preparation_id request db).0 ≡ ok r
      → r.idempotent ≡ false
      → IsFreshCommit preparation_id request db (commit_preparation s preparation_id request db)
  unfolding commit_preparation
  commit_preparation-IsFreshCommit preparation_id request db {r} =
      run_handler-cases
        (λ (o : Outcome (Db F) CommitResponse).
          o.0 ≡ ok r → r.idempotent ≡ false → IsFreshCommit preparation_id request db o)
        db (commit_body s preparation_id request db) (λ e h. absurd (ground arith))
        (fresh_commit preparation_id request db)
