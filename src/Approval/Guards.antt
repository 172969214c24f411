-- ===== src/Approval/Guards.antt =====
-- What a decision on an approval slot demands, and what it leaves alone.
use etl_agent.Prelude.{
  by-key, ℕ, ◌≡◌, ◌≢◌, refl, true, false, Option, some, List, [], ◌∷◌, by, save, arith, by-save,
  ◌<◌, inl, inr, ◌⊎◌,
}
use etl_agent.Prelude.Text.{Text}
use etl_agent.Prelude.Result.{>>=-eq-ok, require-eq-ok, ok, require}
use etl_agent.Api.{Outcome, run_handler-cases}
use etl_agent.Access.{parse_role, require_project_role, intersects, roles_of}
use etl_agent.Rows.{preparation_by, approval_by}
use etl_agent.Store.{
  Db, Preparation, ApprovalRequest, ApprovalStatus, ApprovalDecision, ProjectRole,
}
use etl_agent.Approval.{
  is_pending, decided_slot, record_decision, check_decision, decide_body, decide_approval,
}

-- the demands on a decision that is accepted
pub record IsAllowed {F : Type 0} (approval_id user now : ℕ) (db : Db F) : Type 0 where
  pub approval : ApprovalRequest
  pub preparation : Preparation F
  pub required_role : ProjectRole
  pub is_slot : approval_by approval_id db ≡ some approval
  pub is_preparation : preparation_by approval.preparation_id db ≡ some preparation
  pub is_undecided : approval.status ≡ ApprovalStatus.pending
  pub not_expired : now < preparation.expires_at
  pub is_role : parse_role approval.required_role ≡ some required_role
  pub not_creator : user ≢ preparation.created_by
  pub holds_role :
      intersects (roles_of preparation.project_id user db.grants) (required_role ∷ []) ≡ true

kept :
    (approval_id other_id : ℕ) (new : ApprovalRequest) (rows : List ApprovalRequest)
    {a slot : ApprovalRequest}
    → by (λ b. b.id) approval_id rows ≡ some a
    → new.id ≡ a.id
    → is_pending a.status ≡ true
    → by (λ b. b.id) other_id rows ≡ some slot
    → is_pending slot.status ≡ false
    → by (λ b. b.id) other_id (save (λ b. b.id) new rows) ≡ some slot
kept approval_id other_id new rows {a} {slot} found same pending there decided = ground (
  arith,
  by-save (λ (b : ApprovalRequest). b.id) new other_id rows,
  by-key (λ (b : ApprovalRequest). b.id) approval_id rows {x = a} found,
  by-key (λ (b : ApprovalRequest). b.id) other_id rows {x = slot} there,
)

module _ {F : Type 0} where
  checked :
      (db : Db F) (approval : ApprovalRequest) (preparation : Preparation F) (user : ℕ)
      {roles : List ProjectRole}
      → check_decision db approval preparation user ≡ ok roles
      → (approval.status ≡ ApprovalStatus.pending)
        × (user ≢ preparation.created_by)
        × ((r : ProjectRole) × (parse_role approval.required_role ≡ some r)
            × (intersects (roles_of preparation.project_id user db.grants) (r ∷ []) ≡ true))
  unfolding check_decision require_project_role
  checked db approval preparation user h = ground arith

  -- the branch of a preparation that has not expired
  accepted :
      (approval_id : ℕ) (decision : ApprovalDecision) (comment : Option Text) (user now : ℕ)
      (db : Db F) (approval : ApprovalRequest) (preparation : Preparation F)
      {o : Outcome (Db F) ApprovalRequest} {a : ApprovalRequest}
      → approval_by approval_id db ≡ some approval
      → preparation_by approval.preparation_id db ≡ some preparation
      → decide_body approval_id decision comment user now db ≡ ok o
      → o.0 ≡ ok a
      → (now < preparation.expires_at)
        × ((roles : List ProjectRole) × (check_decision db approval preparation user ≡ ok roles))
  unfolding decide_body
  accepted approval_id decision comment user now db approval preparation slot prep done fine =
      ground arith

  -- a body that ended has found its rows
  fetched :
      (approval_id : ℕ) (decision : ApprovalDecision) (comment : Option Text) (user now : ℕ)
      (db : Db F) {o : Outcome (Db F) ApprovalRequest}
      → decide_body approval_id decision comment user now db ≡ ok o
      → (approval : ApprovalRequest) × (preparation : Preparation F) × (approval_by approval_id db
          ≡ some approval)
        × (preparation_by approval.preparation_id db ≡ some preparation)
  unfolding decide_body
  fetched approval_id decision comment user now db done =
      let (approval, slot, rest) = >>=-eq-ok (require (approval_by approval_id db) _) _ done in
      let (preparation, prep, last) =
        >>=-eq-ok (require (preparation_by approval.preparation_id db) _) _ rest in
      (approval, preparation, require-eq-ok _ _ slot, require-eq-ok _ _ prep)

  allowed :
      (approval_id : ℕ) (decision : ApprovalDecision) (comment : Option Text) (user now : ℕ)
      (db : Db F) {a : ApprovalRequest} (o : Outcome (Db F) ApprovalRequest)
      → decide_body approval_id decision comment user now db ≡ ok o
      → o.0 ≡ ok a
      → IsAllowed approval_id user now db
  allowed approval_id decision comment user now db o done fine =
      let (approval, preparation, slot, prep) =
        fetched approval_id decision comment user now db done in
      let (alive, passed) =
        accepted approval_id decision comment user now db approval preparation slot prep done
          fine in
      let (undecided, other, held) = checked db approval preparation user passed.1 in
      record {
        approval = approval;
        preparation = preparation;
        required_role = held.0;
        is_slot = slot;
        is_preparation = prep;
        is_undecided = undecided;
        not_expired = alive;
        is_role = held.1;
        not_creator = other;
        holds_role = held.2;
      }

  -- A decision is accepted only on a pending slot of a preparation that has not expired, from a
  -- user who did not create the preparation and holds the role of the slot in its project.
  pub decide_approval-IsAllowed :
      (approval_id : ℕ) (decision : ApprovalDecision) (comment : Option Text) (user now : ℕ)
      (db : Db F) {a : ApprovalRequest}
      → (decide_approval approval_id decision comment user now db).0 ≡ ok a
      → IsAllowed approval_id user now db
  unfolding decide_approval
  decide_approval-IsAllowed approval_id decision comment user now db {a} =
      run_handler-cases
        (λ (o : Outcome (Db F) ApprovalRequest). o.0 ≡ ok a → IsAllowed approval_id user now db) db
        (decide_body approval_id decision comment user now db) (λ e h. absurd (ground arith))
        (allowed approval_id decision comment user now db)

  -- The approvals after a body that ended: those before it, or with the decision on a slot that was
  -- pending.
  approvals_after :
      (approval_id : ℕ) (decision : ApprovalDecision) (comment : Option Text) (user now : ℕ)
      (db : Db F) {o : Outcome (Db F) ApprovalRequest}
      → decide_body approval_id decision comment user now db ≡ ok o
      → (o.1.approvals ≡ db.approvals)
        ⊎ ((a : ApprovalRequest) × (approval_by approval_id db ≡ some a)
            × (is_pending a.status ≡ true)
            × (o.1.approvals
                ≡ save (λ b. b.id) (decided_slot a user decision comment now) db.approvals))
  unfolding decide_body check_decision record_decision
  approvals_after approval_id decision comment user now db done = ground arith

  -- A slot that is decided keeps its row, whoever decides on it, or on any other slot, and however
  -- the request ends.
  pub decided_slot_is_final :
      (approval_id other_id : ℕ) (decision : ApprovalDecision) (comment : Option Text)
      (user now : ℕ) (db : Db F) (slot : ApprovalRequest)
      → approval_by other_id db ≡ some slot
      → is_pending slot.status ≡ false
      → approval_by other_id (decide_approval approval_id decision comment user now db).1
        ≡ some slot
  unfolding decide_approval decided_slot
  decided_slot_is_final approval_id other_id decision comment user now db slot there decided =
      run_handler-cases
        (λ (o : Outcome (Db F) ApprovalRequest). approval_by other_id o.1 ≡ some slot) db
        (decide_body approval_id decision comment user now db) (λ e. there)
        λ o done. elim (approvals_after approval_id decision comment user now db done) [
          | inl same ↦ rw same there
          | inr (a, found, pending, after) ↦ rw after (
              kept approval_id other_id (decided_slot a user decision comment now) db.approvals
                found refl pending there decided)
        ]
