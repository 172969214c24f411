-- ===== src/Commit/Idempotence.antt =====
-- Repeated commits, and the uniqueness of executions.
use etl_agent.Prelude.{
  Bool-cases, Option-cases, inl, inr, ◌⊎◌, ap, subst, sym, ◌∙◌, by-save_at, ℕ, ◌≡◌, refl, true,
  false, ◌&&◌, ◌||◌, none, some, List, [], ◌∷◌, ◌==◌, leb, find, arith, String, insert, find-insert,
}
use etl_agent.Prelude.Text.{Text, text_eq, text_eq_sym}
use etl_agent.Prelude.Result.{>>=-eq-ok, guard, ok-injective, ok, guard, require}
use etl_agent.Api.{Outcome, run_handler-cases}
use etl_agent.Access.{require_project_membership, require_project_role}
use etl_agent.Rows.{preparation_by}
use etl_agent.Services.{Services, Request}
use etl_agent.Store.{
  Db, Preparation, PreparationStatus, PipelineVersion, ExecutionRun, OutboxEvent, operator,
  ProjectRole,
}
use etl_agent.Commit.{
  is_committable, approvals_cover, idempotency_key_of, answer_duplicate, check_version,
  current_fingerprint, CommitResponse, is_committed, is_submit, answer_committed, response_of,
  submission_of, execution_of,
}
use etl_agent.Commit.Handler.{
  create_execution, commit_approved, commit_current, clashes, committed_db, fresh_response,
  new_execution, new_submission, commit_open, commit_body, commit_preparation,
}
use etl_agent.Commit.Safety.{created, commit_preparation-IsFreshCommit}

clashes-insert :
    (preparation_id : ℕ) (key : Text) (e : ExecutionRun) (rows : List ExecutionRun)
    → clashes preparation_id key (insert e rows)
      ≡ (clashes preparation_id key rows || clashes preparation_id key (e ∷ []))
unfolding insert
clashes-insert preparation_id key e [] = ground arith
clashes-insert preparation_id key e (x ∷ rows) =
    ground (arith, clashes-insert preparation_id key e rows)

not_yet :
    (preparation_id : ℕ) (key : Text) (rows : List ExecutionRun)
    → clashes preparation_id key rows ≡ false
    → execution_of preparation_id rows ≡ none
unfolding find
not_yet preparation_id key [] h = refl
not_yet preparation_id key (e ∷ rows) h = ground (arith, not_yet preparation_id key rows)

module _ {F PrivateKey PublicKey : Type 0} (s : Services F PrivateKey PublicKey) where
  abbrev repeated : CommitResponse → Db F → Outcome (Db F) CommitResponse
  repeated r db = (ok (record r { idempotent = true }), db)

  -- the answer on the tables that a fresh commit left
  answered :
      (request : Request) (preparation : Preparation F) (version : PipelineVersion F)
      (digest : String) (key token : Text) (db : Db F)
      → clashes preparation.id key db.executions ≡ false
      → submission_of request.fresh_execution db.outbox ≡ none
      → let after = committed_db s request preparation version digest key token db in
        answer_committed after (record preparation { status = PreparationStatus.committed })
        ≡ ok (
          ok (record (fresh_response s request preparation key token) { idempotent = true }),
          after,
        )
  unfolding answer_committed committed_db fresh_response new_execution new_submission response_of
  answered request preparation version digest key token db first unused =
      let e = new_execution s request preparation version digest key token in
      let m = new_submission s request preparation version digest token in
      ground (
        arith,
        not_yet preparation.id key db.executions first,
        find-insert (λ (x : ExecutionRun). x.preparation_id == preparation.id) e db.executions,
        find-insert
            (λ (x : OutboxEvent).
              (x.aggregate_id == request.fresh_execution) && is_submit x.event_type)
            m db.outbox,
      )

  roles_after :
      (request : Request) (preparation : Preparation F) (version : PipelineVersion F)
      (digest : String) (key token : Text) (db : Db F) (user : ℕ)
      → require_project_role
          (committed_db s request preparation version digest key token db)
          preparation.project_id
          user
          (operator ∷ [])
        ≡ require_project_role db preparation.project_id user (operator ∷ [])
  unfolding committed_db require_project_role require_project_membership
  roles_after request preparation version digest key token db user = refl

  found_after :
      (preparation_id : ℕ) (request : Request) (preparation : Preparation F)
      (version : PipelineVersion F) (digest : String) (key token : Text) (db : Db F)
      → preparation_by preparation_id db ≡ some preparation
      → preparation_by preparation_id
          (committed_db s request preparation version digest key token db)
        ≡ some (record preparation { status = PreparationStatus.committed })
  unfolding committed_db
  found_after preparation_id request preparation version digest key token db found =
      by-save_at (λ (p : Preparation F). p.id)
        (record preparation { status = PreparationStatus.committed }) preparation_id db.preparations
        found refl

  second :
      (preparation_id : ℕ) (request again : Request) (preparation : Preparation F)
      (version : PipelineVersion F) (digest : String) (key token : Text) (db : Db F)
      {roles : List ProjectRole}
      → preparation_by preparation_id db ≡ some preparation
      → require_project_role db preparation.project_id again.user (operator ∷ []) ≡ ok roles
      → clashes preparation.id key db.executions ≡ false
      → submission_of request.fresh_execution db.outbox ≡ none
      → let after = committed_db s request preparation version digest key token db in
        commit_preparation s preparation_id again after ≡ (
          ok (record (fresh_response s request preparation key token) { idempotent = true }),
          after,
        )
  unfolding commit_preparation commit_body
  second preparation_id request again preparation version digest key token db found allowed first
        unused =
      rw (found_after preparation_id request preparation version digest key token db found) (
        rw (roles_after request preparation version digest key token db again.user, allowed)
          (rw (answered request preparation version digest key token db first unused)))

  -- After a commit that created an execution under an id that no submission in the outbox had, a
  -- further commit of the preparation by an operator, on the very tables that the first one left, gives
  -- the first response again, marked as a repetition, and changes nothing, whatever its time and key.
  pub commit_twice :
      (preparation_id : ℕ) (request again : Request) (db : Db F) {r : CommitResponse}
      {preparation : Preparation F} {roles : List ProjectRole}
      → (commit_preparation s preparation_id request db).0 ≡ ok r
      → r.idempotent ≡ false
      → submission_of request.fresh_execution db.outbox ≡ none
      → preparation_by preparation_id db ≡ some preparation
      → require_project_role db preparation.project_id again.user (operator ∷ []) ≡ ok roles
      → let after = (commit_preparation s preparation_id request db).1 in
        commit_preparation s preparation_id again after
        ≡ (ok (record r { idempotent = true }), after)
  commit_twice preparation_id request again db {r} {preparation = p} {roles} fine fresh unused found
        allowed =
      let f = commit_preparation-IsFreshCommit s preparation_id request db fine fresh in
      let fits : f.preparation ≡ p = ground (arith, f.is_preparation) in
      let reply : fresh_response s request f.preparation f.key f.token ≡ r =
        ok-injective (sym f.replies ∙ fine) in
      let after = committed_db s request f.preparation f.version f.digest f.key f.token db in
      let permitted =
        subst
          (λ (q : Preparation F).
            require_project_role db q.project_id again.user (operator ∷ []) ≡ ok roles)
          (sym fits) allowed in
      rw f.writes (
        second preparation_id request again f.preparation f.version f.digest f.key f.token db
          f.is_preparation permitted f.is_first unused
        ∙ ap (λ (x : CommitResponse). repeated x after) reply)

-- no two executions share a preparation or a key
abbrev pub IsUnique : List ExecutionRun → Type 0
IsUnique [] = Unit
IsUnique (e ∷ es) = (clashes e.preparation_id e.idempotency_key es ≡ false) × IsUnique es

IsUnique-insert :
    (e : ExecutionRun) (rows : List ExecutionRun)
    → clashes e.preparation_id e.idempotency_key rows ≡ false
    → IsUnique rows
    → IsUnique (insert e rows)
unfolding insert
IsUnique-insert e [] h u = (refl, tt)
IsUnique-insert e (x ∷ rows) h u = (
  ground (
    arith,
    clashes-insert x.preparation_id x.idempotency_key e rows,
    text_eq_sym x.idempotency_key e.idempotency_key,
  ),
  IsUnique-insert e rows (ground arith) u.1,
)

-- the executions after a request: those before it, or with one that clashes with none of them
abbrev Grown : List ExecutionRun → List ExecutionRun → Type 0
Grown before after =
    (after ≡ before)
    ⊎ ((e : ExecutionRun) × (clashes e.preparation_id e.idempotency_key before ≡ false)
        × (after ≡ insert e before))

Grown-IsUnique :
    (before after : List ExecutionRun) → Grown before after → IsUnique before → IsUnique after
Grown-IsUnique before after (inl same) u = subst IsUnique (sym same) u
Grown-IsUnique before after (inr (e, free, more)) u =
    subst IsUnique (sym more) (IsUnique-insert e before free u)

module _ {F PrivateKey PublicKey : Type 0} (s : Services F PrivateKey PublicKey) where
  create-Grown :
      (request : Request) (preparation : Preparation F) (version : PipelineVersion F)
      (digest : String) (key : Text) (db : Db F) {o : Outcome (Db F) CommitResponse}
      → create_execution s request preparation version digest key db ≡ ok o
      → Grown db.executions o.1.executions
  unfolding committed_db new_execution
  create-Grown request preparation version digest key db done =
      let (token, issued, first, reply, write) =
        created s request preparation version digest key db done in
      inr (
        new_execution s request preparation version digest key token,
        first,
        ap (λ (d : Db F). d.executions) write,
      )

  approved-Grown :
      (request : Request) (preparation : Preparation F) (version : PipelineVersion F)
      (digest : String) (db : Db F) {o : Outcome (Db F) CommitResponse}
      → commit_approved s request preparation version digest db ≡ ok o
      → Grown db.executions o.1.executions
  unfolding commit_approved answer_duplicate
  approved-Grown request preparation version digest db {o} done =
      let (u, covered, rest) =
        >>=-eq-ok (guard (approvals_cover preparation.id preparation.required_roles db.approvals) _)
          _ done in
      let (key, keyed, last) = >>=-eq-ok (idempotency_key_of s request preparation) _ rest in
      elim (Option-cases
        (find (λ (e : ExecutionRun). text_eq e.idempotency_key key) db.executions)) [
          | inl new ↦ create-Grown request preparation version digest key db {o = o} (ground arith)
          | inr (duplicate, old) ↦ inl (ground arith)
        ]

  current-Grown :
      (request : Request) (preparation : Preparation F) (db : Db F)
      {o : Outcome (Db F) CommitResponse}
      → commit_current s request preparation db ≡ ok o
      → Grown db.executions o.1.executions
  unfolding commit_current
  current-Grown request p db {o} done =
      let (v, checked, rest) = >>=-eq-ok (check_version s db p) _ done in
      elim (Bool-cases (text_eq (current_fingerprint s db p v.0 v.1) p.input_fingerprint)) [
        | inl same ↦ approved-Grown request p v.0 v.1 db {o = o} (ground arith)
        | inr other ↦ inl (ground arith)
      ]

  open-Grown :
      (request : Request) (preparation : Preparation F) (db : Db F)
      {o : Outcome (Db F) CommitResponse}
      → commit_open s request preparation db ≡ ok o
      → Grown db.executions o.1.executions
  unfolding commit_open
  open-Grown request p db {o} done =
      let (u, allowed, rest) = >>=-eq-ok (guard (is_committable p.status) _) _ done in
      elim (Bool-cases (leb p.expires_at request.now)) [
        | inl late ↦ inl (ground arith)
        | inr alive ↦ current-Grown request p db {o = o} (ground arith)
      ]

  body-Grown :
      (preparation_id : ℕ) (request : Request) (db : Db F) (o : Outcome (Db F) CommitResponse)
      → commit_body s preparation_id request db ≡ ok o
      → Grown db.executions o.1.executions
  unfolding commit_body answer_committed
  body-Grown preparation_id request db o done =
      let (p, found, rest) = >>=-eq-ok (require (preparation_by preparation_id db) _) _ done in
      let (roles, allowed, last) =
        >>=-eq-ok (require_project_role db p.project_id request.user (operator ∷ [])) _ rest in
      elim (Bool-cases (is_committed p.status)) [
        | inl done_before ↦ inl (ground arith)
        | inr fresh ↦ open-Grown request p db {o = o} (ground arith)
      ]

  -- Where the tables have at most one execution for each preparation and for each idempotency key, they
  -- still do after a commit, whatever its outcome.
  pub commit_preparation-IsUnique :
      (preparation_id : ℕ) (request : Request) (db : Db F)
      → IsUnique db.executions
      → IsUnique (commit_preparation s preparation_id request db).1.executions
  unfolding commit_preparation
  commit_preparation-IsUnique preparation_id request db u =
      run_handler-cases (λ (o : Outcome (Db F) CommitResponse). IsUnique o.1.executions) db
        (commit_body s preparation_id request db) (λ e. u)
        λ o done.
          Grown-IsUnique db.executions o.1.executions (body-Grown preparation_id request db o done)
            u
