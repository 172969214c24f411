-- ===== src/Dispatch/Late.antt =====
-- A cancellation that comes before the submission keeps the engine untouched.
use etl_agent.Access.{require_project_role}
use etl_agent.Prelude.{
  ℕ, ◌≡◌, refl, sym, subst, inl, inr, String, true, some, [], ◌∷◌, arith, Bool-cases, by-save_at,
}
use etl_agent.Prelude.Result.{ok, require, >>=-eq-ok}
use etl_agent.Prelude.Text.{Text}
use etl_agent.Prelude.Dict.{Dict, Json, string}
use etl_agent.Store.{
  ExecutionRunStatus, EventType, cancel, execution_event, Db, ExecutionRun, OutboxEvent, operator,
}
use etl_agent.Prelude.Result.{require-eq-ok}
use etl_agent.Commit.{is_submit}
use etl_agent.Rows.{save_execution, event_by, execution_by}
use etl_agent.Dispatch.{is_pending, is_cancelled, Outside}
use etl_agent.Api.{run_handler-cases, Outcome}
use etl_agent.Services.{Request}
use etl_agent.Dispatch.Broker.{dispatch_pending, dispatch_found, dispatch_outbox_event, Broker}
use etl_agent.Prelude.{
  ℕ, ◌≡◌, refl, sym, subst, inl, inr, String, true, some, [], ◌∷◌, arith, Bool-cases, by-save_at,
}
use etl_agent.Prelude.Result.{ok, require, >>=-eq-ok}
use etl_agent.Prelude.Text.{Text}
use etl_agent.Prelude.Dict.{Dict, Json, string}
use etl_agent.Store.{
  ExecutionRunStatus, EventType, cancel, execution_event, Db, ExecutionRun, OutboxEvent, operator,
}
use etl_agent.Actions.{
  is_terminal, add_action, cancel_execution_run, cancel_body, request_cancel, queue_user_action,
}

module _ {F R PrivateKey PublicKey : Type 0} (b : Broker F R PrivateKey PublicKey) where
  queued_executions :
      (request : Request) (execution : ExecutionRun) (t : EventType) (tool : String)
      (payload : Dict Json) (db : Db F) {o : OutboxEvent × Db F}
      → queue_user_action b.services request execution t tool payload db ≡ ok o
      → o.1.executions ≡ db.executions
  unfolding queue_user_action add_action
  queued_executions request execution t tool payload db h = ground arith

  requested_execution :
      (execution_id : ℕ) (x : ExecutionRun) (reason : Text) (request : Request) (db : Db F)
      {o : Outcome (Db F) ExecutionRun} {e : ExecutionRun}
      → execution_by execution_id db ≡ some x
      → request_cancel b.services x reason request db ≡ ok o
      → o.0 ≡ ok e
      → execution_by execution_id o.1 ≡ some e
  unfolding request_cancel
  requested_execution execution_id x reason request db {o} {e} is_x done fine =
      let cancelling = record x { status = ExecutionRunStatus.cancel_requested } in
      let payload = ("reason", string reason) ∷ [] in
      let saved = save_execution cancelling db in
      let (queued, added, last) =
        >>=-eq-ok
          (queue_user_action b.services request cancelling (execution_event cancel)
            "seatunnel.cancel" payload saved)
          _ done in
      let kept =
        queued_executions request cancelling (execution_event cancel) "seatunnel.cancel" payload
          saved added in
      let rows : o.1.executions ≡ saved.executions = ground (arith, kept) in
      let same : cancelling ≡ e = ground arith in
      rw (rows, sym same)
        (by-save_at (λ (r : ExecutionRun). r.id) cancelling execution_id db.executions is_x refl)

  cancelled_execution :
      (execution_id : ℕ) (reason : Text) (request : Request) (db : Db F)
      (o : Outcome (Db F) ExecutionRun) {e : ExecutionRun}
      → cancel_body b.services execution_id reason request db ≡ ok o
      → o.0 ≡ ok e
      → execution_by execution_id o.1 ≡ some e
  unfolding cancel_body
  cancelled_execution execution_id reason request db o {e} done fine =
      let (x, found, rest) = >>=-eq-ok (require (execution_by execution_id db) _) _ done in
      let (roles, allowed, last) =
        >>=-eq-ok (require_project_role db x.project_id request.user (operator ∷ [])) _ rest in
      let is_x = require-eq-ok _ _ found in
      elim (Bool-cases (is_terminal x.status)) [
        | inl ended ↦ ground arith
        | inr alive ↦
            requested_execution execution_id x reason request db {o = o} is_x (ground arith) fine
      ]

  cancelled_run :
      (execution_id : ℕ) (reason : Text) (request : Request) (db : Db F) {e : ExecutionRun}
      → (cancel_execution_run b.services execution_id reason request db).0 ≡ ok e
      → execution_by execution_id (cancel_execution_run b.services execution_id reason request db).1
        ≡ some e
  unfolding cancel_execution_run
  cancelled_run execution_id reason request db {e} =
      run_handler-cases
        (λ (o : Outcome (Db F) ExecutionRun). o.0 ≡ ok e → execution_by execution_id o.1 ≡ some e)
        db (cancel_body b.services execution_id reason request db) (λ e h. absurd (ground arith))
        (λ o done fine. cancelled_execution execution_id reason request db o done fine)

  late_dispatch :
      (event_id now : ℕ) (db : Db F) (o : Outside R) (event : OutboxEvent) (e : ExecutionRun)
      → event_by event_id db ≡ some event
      → execution_by event.aggregate_id db ≡ some e
      → is_cancelled e.status ≡ true
      → is_submit event.event_type ≡ true
      → ((dispatch_outbox_event b event_id now db o).2 ≡ o)
        × (execution_by event.aggregate_id (dispatch_outbox_event b event_id now db o).1 ≡ some e)
  unfolding dispatch_outbox_event dispatch_found dispatch_pending
  late_dispatch event_id now db o event e is_event is_e stopped submits =
      elim (Bool-cases (is_pending event.status)) [
        | inl waits ↦ (
          rw (
            dispatch_outbox_event, is_event, dispatch_found, is_e, waits, dispatch_pending, submits,
            stopped,
          ),
          rw
              (
                dispatch_outbox_event, is_event, dispatch_found, is_e, waits, dispatch_pending,
                submits, stopped,
              )
              is_e,
        )
        | inr over ↦ (
          rw (dispatch_outbox_event, is_event, dispatch_found, is_e, over),
          rw (dispatch_outbox_event, is_event, dispatch_found, is_e, over) is_e,
        )
      ]

  -- After a cancellation that left the execution waiting for it, the dispatch of an event of that
  -- execution that asks for its submission calls neither the replay guard nor the engine, starts
  -- nothing, and the execution stays as the cancellation left it.
  pub cancel_before_submit :
      (execution_id event_id now : ℕ) (reason : Text) (request : Request) (db : Db F)
      (o : Outside R) {e : ExecutionRun} (event : OutboxEvent)
      → (cancel_execution_run b.services execution_id reason request db).0 ≡ ok e
      → is_cancelled e.status ≡ true
      → let after = (cancel_execution_run b.services execution_id reason request db).1 in
        event_by event_id after ≡ some event
        → event.aggregate_id ≡ execution_id
        → is_submit event.event_type ≡ true
        → ((dispatch_outbox_event b event_id now after o).2 ≡ o)
          × (execution_by execution_id (dispatch_outbox_event b event_id now after o).1 ≡ some e)
  cancel_before_submit execution_id event_id now reason request db o {e} event fine stopped found
        owns submits =
      let after = (cancel_execution_run b.services execution_id reason request db).1 in
      let is_e = cancelled_run execution_id reason request db fine in
      let at_event = subst (λ k. execution_by k after ≡ some e) (sym owns) is_e in
      let late = late_dispatch event_id now after o event e found at_event stopped submits in
      (
        late.0,
        subst (λ k. execution_by k (dispatch_outbox_event b event_id now after o).1 ≡ some e) owns
            late.1,
      )
