-- ===== src/Dispatch/Settled.antt =====
-- The end of a dispatch: an event that was dispatched is settled, and how a failure is recorded.
use etl_agent.Prelude.{
  ℕ, suc, ◌+◌, ◌≤◌, ◌≡◌, ◌≢◌, refl, sym, subst, ◌∙◌, inl, inr, true, false, none, some, [], ◌∷◌,
  ◌==◌, any, by, length, is_empty, arith, Bool-cases, by-save_at, take,
}
use etl_agent.Prelude.Result.{err}
use etl_agent.Prelude.Text.{Text, codes}
use etl_agent.Prelude.Dict.{Dict, Json, select}
use etl_agent.Store.{
  OutboxEventStatus, EventType, submit, cancel, cleanup, swap, rollback, execution_event,
  other_event, Db, ExecutionRun, OutboxEvent,
}
use etl_agent.Prelude.{
  ℕ, suc, ◌+◌, ◌≤◌, ◌≡◌, ◌≢◌, refl, sym, subst, ◌∙◌, inl, inr, true, false, none, some, [], ◌∷◌,
  ◌==◌, any, by, length, is_empty, arith, Bool-cases, by-save_at, take,
}
use etl_agent.Prelude.Result.{err}
use etl_agent.Prelude.Text.{Text, codes}
use etl_agent.Prelude.Dict.{Dict, Json, select}
use etl_agent.Store.{
  OutboxEventStatus, EventType, submit, cancel, cleanup, swap, rollback, execution_event,
  other_event, Db, ExecutionRun, OutboxEvent,
}
use etl_agent.Rows.{execution_by, event_by}
use etl_agent.Dispatch.Broker.{
  crashed, raised, finished, Ended, finished, raised, Ended, attempt, is_late, publish,
  dispatch_pending, settle, dispatch_found, dispatch_outbox_event, Broker,
}
use etl_agent.Dispatch.{
  failed_execution, Done, runtime_keys, uncaught, failed_event, complete, keep_runtime, Outside,
  is_pending, failure_text, Failure, failure_detail,
}
use etl_agent.Prelude.{
  zero, length-take-le, ℕ, suc, ◌≤◌, ◌≡◌, refl, inl, inr, false, some, [], ◌∷◌, ◌==◌, any, length,
  is_empty, arith, Bool-cases, take,
}
use etl_agent.Prelude.Text.{replace_char, strip, Text}
use etl_agent.Store.{Db, ExecutionRun, OutboxEvent}

not_empty : (t : Text) → is_empty t ≡ false → 1 ≤ length t
not_empty [] h = absurd (ground arith)
not_empty (c ∷ t) h = omega arith

no_newline : (n : ℕ) (t : Text) → any (λ c. c == b'\n') (take n (replace_char b'\n' b' ' t)) ≡ false
unfolding replace_char
no_newline zero t = refl
no_newline (suc n) [] = refl
no_newline (suc n) (c ∷ t) = ground (arith, no_newline n t)

-- The recorded detail of a failure is not empty, has at most 512 characters and no line feed.
pub failure_detail_bounds :
    (failure : Failure)
    → (1 ≤ length (failure_detail failure))
      × (length (failure_detail failure) ≤ 512)
      × (any (λ c. c == b'\n') (failure_detail failure) ≡ false)
unfolding failure_detail
failure_detail_bounds failure =
    let short = take 512 (replace_char b'\n' b' ' (strip (failure_text failure))) in
    elim (Bool-cases (is_empty short)) [
      | inl nothing ↦ rw nothing (omega arith, omega arith, refl)
      | inr something ↦ rw something (
        not_empty short something,
        length-take-le 512 _,
        no_newline 512 (strip (failure_text failure)),
      )
    ]

module _ {F R PrivateKey PublicKey : Type 0} (b : Broker F R PrivateKey PublicKey) where
  -- the event is settled, and its execution is there
  abbrev IsSettled : ℕ → Db F → Type 0
  IsSettled event_id db =
      (event : OutboxEvent) × (execution : ExecutionRun) × (event_by event_id db ≡ some event)
      × (execution_by event.aggregate_id db ≡ some execution)
      × (is_pending event.status ≡ false)

  settled-again :
      (event_id later : ℕ) (db : Db F) (o : Outside R)
      → IsSettled event_id db
      → ((dispatch_outbox_event b event_id later db o).1 ≡ db)
        × ((dispatch_outbox_event b event_id later db o).2 ≡ o)
  unfolding dispatch_outbox_event dispatch_found
  settled-again event_id later db o (event, execution, is_event, is_execution, over) = (
    rw (dispatch_outbox_event, is_event, dispatch_found, is_execution, over),
    rw (dispatch_outbox_event, is_event, dispatch_found, is_execution, over),
  )

  keep_runtime-id : (payload : Dict Json) (x : ExecutionRun) → (keep_runtime payload x).id ≡ x.id
  unfolding keep_runtime
  keep_runtime-id payload x = elim (Bool-cases (is_empty (select runtime_keys payload))) [
    | inl nothing ↦ rw nothing
    | inr something ↦ rw something
  ]

  complete-id :
      (t : EventType) (done : Done) (now : ℕ) (x : ExecutionRun) → (complete t done now x).id ≡ x.id
  unfolding complete
  complete-id (execution_event submit) (some job, payload) now x = keep_runtime-id payload _
  complete-id (execution_event submit) (none, payload) now x = refl
  complete-id (execution_event cancel) done now x = refl
  complete-id (execution_event cleanup) done now x = refl
  complete-id (execution_event swap) done now x = refl
  complete-id (execution_event rollback) done now x = refl
  complete-id (other_event s) done now x = refl

  settle-IsSettled :
      (event_id now : ℕ) (db : Db F) (event : OutboxEvent) (execution : ExecutionRun)
      (stored : OutboxEvent) (ended : Ended)
      → event_by event_id db ≡ some stored
      → stored.id ≡ event.id
      → execution_by event.aggregate_id db ≡ some execution
      → (settle b now db event execution ended).0 ≢ err uncaught
      → IsSettled event_id (settle b now db event execution ended).1
  unfolding settle publish failed_event failed_execution
  settle-IsSettled event_id now db event execution stored crashed is_event same is_execution
        caught =
      absurd (caught refl)
  settle-IsSettled event_id now db event execution stored (raised f) is_event same is_execution
        caught =
      (
        failed_event (failure_detail f) event,
        failed_execution (failure_detail f) execution,
        by-save_at (λ (e : OutboxEvent). e.id) (failed_event (failure_detail f) event) event_id
            db.outbox is_event (sym same),
        by-save_at (λ (e : ExecutionRun). e.id) (failed_execution (failure_detail f) execution)
            event.aggregate_id db.executions is_execution refl,
        refl,
      )
  settle-IsSettled event_id now db event execution stored (finished d) is_event same is_execution
        caught =
      (
        record event { status = OutboxEventStatus.published; published_at = some now },
        complete event.event_type d now execution,
        by-save_at (λ (e : OutboxEvent). e.id)
            (record event { status = OutboxEventStatus.published; published_at = some now })
            event_id db.outbox is_event (sym same),
        by-save_at (λ (e : ExecutionRun). e.id) (complete event.event_type d now execution)
            event.aggregate_id db.executions is_execution
            (complete-id event.event_type d now execution),
        refl,
      )

  stopped_id : (event : OutboxEvent) → (failed_event (codes "执行已在提交前取消") event).id ≡ event.id
  unfolding failed_event
  stopped_id event = refl

  stopped_over :
      (event : OutboxEvent) → is_pending (failed_event (codes "执行已在提交前取消") event).status ≡ false
  unfolding failed_event
  stopped_over event = refl

  pending-IsSettled :
      (event_id now : ℕ) (db : Db F) (o : Outside R) (event : OutboxEvent)
      (execution : ExecutionRun)
      → event_by event_id db ≡ some event
      → execution_by event.aggregate_id db ≡ some execution
      → (dispatch_pending b now event execution db o).0 ≢ err uncaught
      → IsSettled event_id (dispatch_pending b now event execution db o).1
  unfolding dispatch_pending by
  pending-IsSettled event_id now db o event execution is_event is_execution caught =
      elim (Bool-cases (is_late b event execution)) [
        | inl late ↦
            let stopped = failed_event (codes "执行已在提交前取消") event in
            rw (dispatch_pending, late)
              (
                stopped,
                execution,
                by-save_at (λ (e : OutboxEvent). e.id) stopped event_id db.outbox is_event
                    (stopped_id event),
                is_execution,
                stopped_over event,
              )
        | inr in_time ↦
            let tried = record event { attempts = event.attempts + 1 } in
            let ended = (attempt b now db tried execution o).0 in
            let shown : (dispatch_pending b now event execution db o).1
                ≡ (settle b now db tried execution ended).1 =
              rw (dispatch_pending, in_time) in
            let replied : (dispatch_pending b now event execution db o).0
                ≡ (settle b now db tried execution ended).0 =
              rw (dispatch_pending, in_time) in
            subst (IsSettled event_id) (sym shown) (
              settle-IsSettled event_id now db tried execution event ended is_event refl
                is_execution (λ crash. caught (replied ∙ crash)))
      ]

  over_db :
      (event_id now : ℕ) (db : Db F) (o : Outside R) (event : OutboxEvent)
      (execution : ExecutionRun)
      → event_by event_id db ≡ some event
      → execution_by event.aggregate_id db ≡ some execution
      → is_pending event.status ≡ false
      → (dispatch_outbox_event b event_id now db o).1 ≡ db
  unfolding dispatch_outbox_event dispatch_found
  over_db event_id now db o event execution is_event is_execution over =
      rw (dispatch_outbox_event, is_event, dispatch_found, is_execution, over)

  waiting :
      (event_id now : ℕ) (db : Db F) (o : Outside R) (event : OutboxEvent)
      (execution : ExecutionRun)
      → event_by event_id db ≡ some event
      → execution_by event.aggregate_id db ≡ some execution
      → is_pending event.status ≡ true
      → ((dispatch_outbox_event b event_id now db o).0
          ≡ (dispatch_pending b now event execution db o).0)
        × ((dispatch_outbox_event b event_id now db o).1
            ≡ (dispatch_pending b now event execution db o).1)
  unfolding dispatch_outbox_event dispatch_found
  waiting event_id now db o event execution is_event is_execution waits = (
    rw (dispatch_outbox_event, is_event, dispatch_found, is_execution, waits),
    rw (dispatch_outbox_event, is_event, dispatch_found, is_execution, waits),
  )

  dispatch-IsSettled :
      (event_id now : ℕ) (db : Db F) (o : Outside R) (event : OutboxEvent)
      (execution : ExecutionRun)
      → event_by event_id db ≡ some event
      → execution_by event.aggregate_id db ≡ some execution
      → (dispatch_outbox_event b event_id now db o).0 ≢ err uncaught
      → IsSettled event_id (dispatch_outbox_event b event_id now db o).1
  dispatch-IsSettled event_id now db o event execution is_event is_execution caught =
      elim (Bool-cases (is_pending event.status)) [
        | inr over ↦
            let kept = over_db event_id now db o event execution is_event is_execution over in
            subst (IsSettled event_id) (sym kept) (event, execution, is_event, is_execution, over)
        | inl waits ↦
            let shown = waiting event_id now db o event execution is_event is_execution waits in
            subst (IsSettled event_id) (sym shown.1) (
              pending-IsSettled event_id now db o event execution is_event is_execution
                (λ crash. caught (shown.0 ∙ crash)))
      ]

  -- After a dispatch of an event that has its execution, unless an exception went uncaught, a further
  -- dispatch at any time changes no table and calls neither the replay guard nor the engine.
  pub dispatch_again :
      (event_id now later : ℕ) (db : Db F) (o : Outside R) (event : OutboxEvent)
      (execution : ExecutionRun)
      → event_by event_id db ≡ some event
      → execution_by event.aggregate_id db ≡ some execution
      → (dispatch_outbox_event b event_id now db o).0 ≢ err uncaught
      → let after = dispatch_outbox_event b event_id now db o in
        ((dispatch_outbox_event b event_id later after.1 after.2).1 ≡ after.1)
        × ((dispatch_outbox_event b event_id later after.1 after.2).2 ≡ after.2)
  dispatch_again event_id now later db o event execution is_event is_execution caught =
      let after = dispatch_outbox_event b event_id now db o in
      settled-again event_id later after.1 after.2
        (dispatch-IsSettled event_id now db o event execution is_event is_execution caught)
