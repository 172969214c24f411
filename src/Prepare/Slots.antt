-- ===== src/Prepare/Slots.antt =====
-- The approval slots of a new preparation.
use etl_agent.Prelude.{none, ℕ, suc, ◌≡◌, refl, String, List, [], ◌∷◌}
use etl_agent.Store.{ApprovalStatus}
use etl_agent.Services.{Request}
use etl_agent.Prepare.{new_slots}
use etl_agent.Prelude.{ℕ, suc, ◌≡◌, refl, String, List, [], ◌∷◌}
use etl_agent.Store.{ApprovalRequest}

-- the slots are open, belong to a preparation of a project, and are for the roles in their order
pub data AreOpenSlots (project_id preparation_id : ℕ)
    : List String → List ApprovalRequest → Type 0 where
  no_slots : AreOpenSlots project_id preparation_id [] []
  slot :
      {role : String} {roles : List String} {a : ApprovalRequest} {slots : List ApprovalRequest}
      → a.project_id ≡ project_id
      → a.preparation_id ≡ preparation_id
      → a.required_role ≡ role
      → a.status ≡ ApprovalStatus.pending
      → a.decision ≡ none
      → a.approver_id ≡ none
      → a.decided_at ≡ none
      → AreOpenSlots project_id preparation_id roles slots
      → AreOpenSlots project_id preparation_id (role ∷ roles) (a ∷ slots)

pub new_slots-AreOpenSlots :
    (request : Request) (project_id n : ℕ) (roles : List String)
    → AreOpenSlots project_id request.fresh_preparation roles (new_slots request project_id n roles)
unfolding new_slots
new_slots-AreOpenSlots request project_id n [] = no_slots
new_slots-AreOpenSlots request project_id n (r ∷ roles) =
    slot refl refl refl refl refl refl refl
      (new_slots-AreOpenSlots request project_id (suc n) roles)
