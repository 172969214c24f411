-- ===== src/Approval.antt =====
-- src/etl_agent/api/preparations.py: `decide_approval`. A response is the changed row.
pub mod Guards
pub mod Verdicts
use etl_agent.Prelude.{
  ℕ, String, Bool, true, false, ◌&&◌, not, Option, none, some, List, [], ◌∷◌, ◌==◌, leb, any, by,
  save, if◌then◌else◌,
}
use etl_agent.Prelude.Text.{Text}
use etl_agent.Prelude.Result.{Result, ok, err, ◌>>=◌, ◌>>◌, guard, require}
use etl_agent.Api.{
  ApiError, api_error, Outcome, Body, run_handler, approval_not_found, preparation_not_found,
  preparation_expired, approval_already_decided, approval_role_invalid, self_approval_forbidden,
}
use etl_agent.Access.{parse_role, require_project_membership, require_project_role}
use etl_agent.Rows.{preparation_by, set_status, approval_by, save_approval}
use etl_agent.Store.{
  Db, Preparation, PreparationStatus, ApprovalRequest, ApprovalStatus, ApprovalDecision, approve,
  reject, ProjectRole,
}

abbrev pub is_pending : ApprovalStatus → Bool
is_pending ApprovalStatus.pending = true
is_pending _ = false

abbrev pub status_of : ApprovalDecision → ApprovalStatus
status_of approve = ApprovalStatus.approved
status_of reject = ApprovalStatus.rejected

-- the slot with the decision of the current user
unfoldable pub decided_slot :
    ApprovalRequest → ℕ → ApprovalDecision → Option Text → ℕ → ApprovalRequest
decided_slot approval user decision comment now = record approval {
  approver_id = some user;
  decision = some decision;
  comment = comment;
  decided_at = some now;
  status = status_of decision;
}

-- another slot of the preparation that is pending
abbrev pub is_other_pending : ApprovalRequest → ApprovalRequest → Bool
is_other_pending approval a =
    (a.preparation_id == approval.preparation_id)
    && is_pending a.status
    && not (a.id == approval.id)

-- the status that the preparation gets
abbrev pub verdict : ApprovalDecision → Bool → PreparationStatus → PreparationStatus
verdict reject others_pending status = PreparationStatus.rejected
verdict approve true status = status
verdict approve false status = PreparationStatus.approved

module _ {F : Type 0} where
  -- the writes of a decision
  unfoldable pub record_decision :
      ApprovalRequest → Preparation F → ℕ → ApprovalDecision → Option Text → ℕ → Db F → Db F
  unfolding decided_slot
  record_decision approval preparation user decision comment now db =
      let others_pending = any (is_other_pending approval) db.approvals in
      set_status (verdict decision others_pending preparation.status) preparation
        (save_approval (decided_slot approval user decision comment now) db)

  -- the checks on a slot of a preparation that has not expired
  unfoldable pub check_decision :
      Db F → ApprovalRequest → Preparation F → ℕ → Result ApiError (List ProjectRole)
  check_decision db approval preparation user = do
    guard (is_pending approval.status) (api_error approval_already_decided 409)
    required_role ←
        require (parse_role approval.required_role) (api_error approval_role_invalid 409)
    m ← require_project_membership db preparation.project_id user
    guard (not (user == preparation.created_by)) (api_error self_approval_forbidden 403)
    require_project_role db preparation.project_id user (required_role ∷ [])

  unfoldable pub decide_body :
      ℕ → ApprovalDecision → Option Text → ℕ → ℕ → Db F → Body (Db F) ApprovalRequest
  decide_body approval_id decision comment user now db = do
    approval ← require (approval_by approval_id db) (api_error approval_not_found 404)
    preparation ←
        require (preparation_by approval.preparation_id db) (api_error preparation_not_found 404)
    if leb preparation.expires_at now
        then ok (
          err (api_error preparation_expired 409),
          set_status PreparationStatus.expired preparation db,
        )
        else (do
          roles ← check_decision db approval preparation user
          ok (
            ok (decided_slot approval user decision comment now),
            record_decision approval preparation user decision comment now db,
          ))

  unfoldable pub decide_approval :
      ℕ → ApprovalDecision → Option Text → ℕ → ℕ → Db F → Outcome (Db F) ApprovalRequest
  decide_approval approval_id decision comment user now db =
      run_handler db (decide_body approval_id decision comment user now db)
