-- ===== src/Approval/Verdicts.antt =====
-- What a decision makes of its preparation.
use etl_agent.Prelude.{
  by-save_self, ℕ, ◌≡◌, refl, Bool, true, false, ◌&&◌, Option, some, List, [], ◌∷◌, ◌==◌, any, save,
  arith, by-key,
}
use etl_agent.Prelude.Text.{Text}
use etl_agent.Prelude.Result.{ok}
use etl_agent.Api.{Outcome, run_handler-cases}
use etl_agent.Rows.{preparation_by, approval_by}
use etl_agent.Store.{
  Db, Preparation, PreparationStatus, ApprovalRequest, ApprovalDecision, approve, reject,
}
use etl_agent.Approval.{
  is_pending, decided_slot, record_decision, decide_body, decide_approval, verdict,
  is_other_pending,
}

-- a slot of the preparation that nobody has decided
abbrev pub is_open : ℕ → ApprovalRequest → Bool
is_open preparation_id a = (a.preparation_id == preparation_id) && is_pending a.status

none_open :
    (old new : ApprovalRequest) (rows : List ApprovalRequest)
    → any (is_other_pending old) rows ≡ false
    → new.id ≡ old.id
    → is_pending new.status ≡ false
    → any (is_open old.preparation_id) (save (λ b. b.id) new rows) ≡ false
unfolding save
none_open old new [] h same decided = refl
none_open old new (x ∷ rows) h same decided = ground (arith, none_open old new rows)

module _ {F : Type 0} where
  -- the tables after an accepted decision
  written :
      (approval_id : ℕ) (decision : ApprovalDecision) (comment : Option Text) (user now : ℕ)
      (db : Db F) (approval : ApprovalRequest) (preparation : Preparation F)
      {o : Outcome (Db F) ApprovalRequest} {a : ApprovalRequest}
      → approval_by approval_id db ≡ some approval
      → preparation_by approval.preparation_id db ≡ some preparation
      → decide_body approval_id decision comment user now db ≡ ok o
      → o.0 ≡ ok a
      → o.1 ≡ record_decision approval preparation user decision comment now db
  unfolding decide_body
  written approval_id decision comment user now db approval preparation slot prep done fine =
      ground arith

  after :
      (approval_id : ℕ) (decision : ApprovalDecision) (comment : Option Text) (user now : ℕ)
      (db : Db F) (approval : ApprovalRequest) (preparation : Preparation F) {a : ApprovalRequest}
      → approval_by approval_id db ≡ some approval
      → preparation_by approval.preparation_id db ≡ some preparation
      → (decide_approval approval_id decision comment user now db).0 ≡ ok a
      → (decide_approval approval_id decision comment user now db).1
        ≡ record_decision approval preparation user decision comment now db
  unfolding decide_approval
  after approval_id decision comment user now db approval preparation {a} slot prep =
      run_handler-cases
        (λ (o : Outcome (Db F) ApprovalRequest).
          o.0 ≡ ok a → o.1 ≡ record_decision approval preparation user decision comment now db)
        db (decide_body approval_id decision comment user now db) (λ e h. absurd (ground arith))
        λ o done fine.
          written approval_id decision comment user now db approval preparation slot prep done fine

  abbrev judged : ApprovalRequest → ApprovalDecision → Db F → Preparation F → Preparation F
  judged approval decision db preparation = record preparation {
    status = verdict decision (any (is_other_pending approval) db.approvals) preparation.status;
  }

  preparation_after :
      (approval : ApprovalRequest) (preparation : Preparation F) (decision : ApprovalDecision)
      (comment : Option Text) (user now : ℕ) (db : Db F)
      → preparation_by approval.preparation_id db ≡ some preparation
      → preparation_by preparation.id
          (record_decision approval preparation user decision comment now db)
        ≡ some (judged approval decision db preparation)
  unfolding record_decision
  preparation_after approval preparation decision comment user now db prep =
      by-save_self (λ (p : Preparation F). p.id) (judged approval decision db preparation)
        approval.preparation_id db.preparations prep refl

  all_decided :
      (approval : ApprovalRequest) (preparation : Preparation F) (comment : Option Text)
      (user now : ℕ) (db : Db F)
      → preparation_by approval.preparation_id db ≡ some preparation
      → any (is_other_pending approval) db.approvals ≡ false
      → any
          (is_open preparation.id)
          (record_decision approval preparation user approve comment now db).approvals
        ≡ false
  unfolding record_decision decided_slot
  all_decided approval preparation comment user now db prep none_left =
      rw (by-key (λ (p : Preparation F). p.id) approval.preparation_id db.preparations prep) (
        none_open approval (decided_slot approval user approve comment now) db.approvals none_left
          refl refl)

  -- The verdict on a preparation: a rejection rejects it; an approval that leaves no other slot
  -- pending approves it, and then none of its slots is open; any other approval leaves its status.
  pub decide_approval_verdict :
      (approval_id : ℕ) (decision : ApprovalDecision) (comment : Option Text) (user now : ℕ)
      (db : Db F) (approval : ApprovalRequest) (preparation : Preparation F) {a : ApprovalRequest}
      → approval_by approval_id db ≡ some approval
      → preparation_by approval.preparation_id db ≡ some preparation
      → (decide_approval approval_id decision comment user now db).0 ≡ ok a
      → let after = (decide_approval approval_id decision comment user now db).1 in
        let others = any (is_other_pending approval) db.approvals in
        (p : Preparation F) × (preparation_by preparation.id after ≡ some p)
        × (decision ≡ reject → p.status ≡ PreparationStatus.rejected)
        × (decision ≡ approve → others ≡ true → p.status ≡ preparation.status)
        × (decision ≡ approve
            → others ≡ false
            → (p.status ≡ PreparationStatus.approved)
              × (any (is_open preparation.id) after.approvals ≡ false))
  unfolding decide_approval
  decide_approval_verdict approval_id decision comment user now db approval preparation slot prep
        fine =
      rw (after approval_id decision comment user now db approval preparation slot prep fine) (
        judged approval decision db preparation,
        preparation_after approval preparation decision comment user now db prep,
        λ rejected. rw rejected,
        λ approved pending. rw (approved, pending),
        λ approved none_left. (
          rw (approved, none_left),
          rw approved (all_decided approval preparation comment user now db prep none_left),
        ),
      )
