-- ===== src/Tests/Approval.antt =====
-- Runs of `decide_approval`, and of the membership and role checks.
use etl_agent.Prelude.Result.{ok}
use etl_agent.Approval.Verdicts.{is_open, decide_approval_verdict}
use etl_agent.Rows.{preparation_by, approval_by}
use etl_agent.Float.{Ratio}
use etl_agent.Tests.Data.{preparation_in, rejected_slot, approved_slot, grant_of, tables, open_slot}
use etl_agent.Access.Duties.{add_project_member-IsSeparated, IsSeparated}
use etl_agent.Access.{
  require_project_membership, require_project_role, parse_role, add_project_member, roles_of,
}
use etl_agent.Approval.Guards.{decided_slot_is_final, decide_approval-IsAllowed, IsAllowed}
use etl_agent.Approval.{check_decision, decide_body, decided_slot, decide_approval}
use etl_agent.Prelude.{any, true, false, refl, some, ◌≡◌, [], none, ◌∷◌, arith, by, find, List}
use etl_agent.Store.{
  reject, operator, checker_1, Preparation, approve, ApprovalRequest, Db, PreparationStatus,
}

abbrev first_slots : List ApprovalRequest
first_slots = open_slot 11 "checker_1" ∷ approved_slot 12 "checker_2" 3 ∷ []

abbrev pending_tables : Db Ratio
pending_tables = tables PreparationStatus.approval_pending first_slots

abbrev last_slot : ApprovalRequest
last_slot = decided_slot (open_slot 11 "checker_1") 2 approve none 1000

approves : (decide_approval 11 approve none 2 1000 pending_tables).0 ≡ ok last_slot
unfolding decide_approval decide_body check_decision decided_slot parse_role require_project_role
    require_project_membership roles_of find by
approves = refl

decide_approval-IsAllowed_example : IsAllowed 11 2 1000 pending_tables
decide_approval-IsAllowed_example =
    decide_approval-IsAllowed 11 approve none 2 1000 pending_tables approves

decided_slot_is_final_example :
    approval_by 12 (decide_approval 11 approve none 2 1000 pending_tables).1
    ≡ some (approved_slot 12 "checker_2" 3)
unfolding find by
decided_slot_is_final_example =
    decided_slot_is_final 11 12 approve none 2 1000 pending_tables (approved_slot 12 "checker_2" 3)
      refl refl

abbrev StatusAfter : Db Ratio → Type 0
StatusAfter db =
    (p : Preparation Ratio) × (preparation_by 10 db ≡ some p)
    × (approve ≡ reject → p.status ≡ PreparationStatus.rejected)
    × (approve ≡ approve → false ≡ true → p.status ≡ PreparationStatus.approval_pending)
    × (approve ≡ approve
        → false ≡ false
        → (p.status ≡ PreparationStatus.approved) × (any (is_open 10) db.approvals ≡ false))

decide_approval_verdict_example :
    StatusAfter (decide_approval 11 approve none 2 1000 pending_tables).1
unfolding find by
decide_approval_verdict_example =
    decide_approval_verdict 11 approve none 2 1000 pending_tables (open_slot 11 "checker_1")
      (preparation_in PreparationStatus.approval_pending) refl refl approves

abbrev second_slots : List ApprovalRequest
second_slots = open_slot 11 "checker_1" ∷ rejected_slot 12 "checker_2" 3 ∷ []

abbrev rejected_tables : Db Ratio
rejected_tables = tables PreparationStatus.rejected second_slots

revives : (decide_approval 11 approve none 2 1000 rejected_tables).0 ≡ ok last_slot
unfolding decide_approval decide_body check_decision decided_slot parse_role require_project_role
    require_project_membership roles_of find by
revives = refl

-- a new member as the auditor, on a table where only the operator has a role
abbrev operator_only : Db Ratio
operator_only = record rejected_tables { grants = grant_of 4 operator ∷ [] }

operator_only-IsSeparated : IsSeparated operator_only.grants
unfolding roles_of
operator_only-IsSeparated p u = ground arith

add_project_member-IsSeparated_example :
    IsSeparated (add_project_member operator_only 5 4 8 checker_1).1.grants
add_project_member-IsSeparated_example =
    add_project_member-IsSeparated operator_only 5 4 8 checker_1 operator_only-IsSeparated
