-- ===== src/Supervision/Queued.antt =====
-- The action that follows from the row that a supervision leaves is queued.
use etl_agent.Prelude.{
  false, ◌≢◌, ℕ, ◌≡◌, refl, subst, inl, inr, String, Bool, true, ◌||◌, Option, none, some, List, [],
  ◌∷◌, any, insert, arith, Option-cases, by-key,
}
use etl_agent.Prelude.Result.{Result-cases, ok}
use etl_agent.Prelude.Text.{Text, codes}
use etl_agent.Prelude.Dict.{Dict, Json}
use etl_agent.Store.{
  PublishStatus, Action, ExecutionRunStatus, submit, cancel, cleanup, swap, rollback,
  execution_event, Db, ExecutionRun, OutboxEvent,
}
use etl_agent.Float.{FloatOps}
use etl_agent.Rows.{execution_by, preparation_by}
use etl_agent.Supervision.{Observer, Supervised}
use etl_agent.Actions.{has_text, issue_action_token, queue_execution_action}
use etl_agent.Services.{Request, Services}
use etl_agent.Supervision.Task.{supervise_execution_run}
use etl_agent.Actions.{is_live_event, find_last, action_eq, add_action, action_event}
use etl_agent.Supervision.Follow.{
  wants_swap, wants_cancel, stored, queue_next, next_action, supervise_task,
}

any-insert :
    {A : Type 0} (p : A → Bool) (x : A) (xs : List A) → any p (insert x xs) ≡ (any p xs || p x)
unfolding insert
any-insert p x [] = ground arith
any-insert p x (y ∷ ys) = ground (arith, any-insert p x ys)

any-find_last :
    (p : OutboxEvent → Bool) (es : List OutboxEvent) {e : OutboxEvent}
    → find_last p es ≡ some e
    → any p es ≡ true
unfolding find_last
any-find_last p [] h = absurd (ground arith)
any-find_last p (x ∷ es) {e} h = elim (Option-cases (find_last p es)) [
  | inr (y, later) ↦ ground (arith, any-find_last p es later)
  | inl never ↦ ground arith
]

action_eq_refl : (a : Action) → action_eq a a ≡ true
action_eq_refl submit = refl
action_eq_refl cancel = refl
action_eq_refl cleanup = refl
action_eq_refl swap = refl
action_eq_refl rollback = refl

wants_cancel_other :
    (status : ExecutionRunStatus)
    → status ≢ ExecutionRunStatus.cancel_requested
    → wants_cancel status ≡ false
wants_cancel_other ExecutionRunStatus.cancel_requested other = absurd (other refl)
wants_cancel_other _ other = refl

wants_swap_other :
    (status : PublishStatus) → status ≢ PublishStatus.swap_requested → wants_swap status ≡ false
wants_swap_other PublishStatus.swap_requested other = absurd (other refl)
wants_swap_other _ other = refl

module _ {F PrivateKey PublicKey : Type 0} ⦃fl : FloatOps F⦄
    (services : Services F PrivateKey PublicKey) (observer : Observer F) where
  abbrev IsQueued : ℕ → Action → Db F → Db F → Type 0
  IsQueued id action before after =
      (any (is_live_event id (execution_event action)) after.outbox ≡ true)
      × (after.executions ≡ before.executions)

  added-IsQueued :
      (request : Request) (e : ExecutionRun) (action : Action) (actor : ℕ) (default : Text)
      (payload : Dict Json) (token : Text) (db : Db F)
      → IsQueued e.id action db
          (add_action services request e (execution_event action) actor default payload token db).1
  unfolding add_action action_event
  added-IsQueued request e action actor default payload token db = (
    ground (
      arith,
      action_eq_refl action,
      any-insert (is_live_event e.id (execution_event action))
          (add_action services request e (execution_event action) actor default payload token db).0
          db.outbox,
    ),
    refl,
  )

  queued :
      (request : Request) (e : ExecutionRun) (action : Action) (tool : String) (payload : Dict Json)
      (db after : Db F) (event : Option OutboxEvent)
      → queue_execution_action services request e (execution_event action) tool payload db
        ≡ some (event, after)
      → IsQueued e.id action db after
  unfolding queue_execution_action add_action action_event
  queued request e action tool payload db after event h =
      elim (Option-cases (find_last (is_live_event e.id (execution_event action)) db.outbox)) [
        | inr (x, live) ↦
            let kept = any-find_last (is_live_event e.id (execution_event action)) db.outbox live in
            (ground (arith, kept), ground arith)
        | inl new ↦ elim (Option-cases (preparation_by e.preparation_id db)) [
          | inl missing ↦ absurd (ground arith)
          | inr (preparation, found) ↦
              elim (Result-cases
                (issue_action_token services request e preparation e.created_by tool)) [
                  | inr (x, refused) ↦ absurd (ground arith)
                  | inl (token, issued) ↦
                      let made =
                        add_action services request e (execution_event action) e.created_by
                          (codes "system") payload token db in
                      let same : made.1 ≡ after = ground arith in
                      subst (IsQueued e.id action db) same (
                        added-IsQueued request e action e.created_by (codes "system") payload token
                          db)
                ]
        ]
      ]

  stored-IsQueued :
      (s t : Supervised F) (e : ExecutionRun) (action : Action)
      (o : Option (Option OutboxEvent × Db F)) {status : ExecutionRunStatus}
      {event : Option OutboxEvent}
      → ((event : Option OutboxEvent) (after : Db F)
          → o ≡ some (event, after)
          → IsQueued e.id action s.db after)
      → stored services observer s e o ≡ (ok (status, event), t)
      → (status ≡ e.status) × IsQueued e.id action s.db t.db
  stored-IsQueued s t e action none queue h = absurd (ground arith)
  stored-IsQueued s t e action (some (made, after)) queue h =
      let same : after ≡ t.db = ground arith in
      (ground arith, subst (IsQueued e.id action s.db) same (queue made after refl))

  -- what follows from the row of an execution
  abbrev Follows : ℕ → ExecutionRunStatus → Db F → Type 0
  Follows execution_id status db =
      (e : ExecutionRun) × (execution_by execution_id db ≡ some e)
      × (status ≡ e.status)
      × ((action : Action) (tool : String) (payload : Dict Json)
          → next_action e ≡ some (action, tool, payload)
          → any (is_live_event execution_id (execution_event action)) db.outbox ≡ true)

  queue_next-Follows :
      (request : Request) (execution_id : ℕ) (s t : Supervised F) {status : ExecutionRunStatus}
      {event : Option OutboxEvent}
      → queue_next services observer request execution_id s ≡ (ok (status, event), t)
      → Follows execution_id status t.db
  unfolding queue_next
  queue_next-Follows request execution_id s t {status} {event} h =
      elim (Option-cases (execution_by execution_id s.db)) [
        | inl missing ↦ absurd (ground arith)
        | inr (e, is_e) ↦ elim (Option-cases (next_action e)) [
          | inl nothing ↦
              let same : s ≡ t = ground arith in
              (
                e,
                subst (λ (s : Supervised F). execution_by execution_id s.db ≡ some e) same is_e,
                ground arith,
                λ action tool payload wanted. absurd (ground arith),
              )
          | inr ((action, tool, payload), wanted) ↦
              let result =
                queue_execution_action services request e (execution_event action) tool payload
                  s.db in
              let (is_status, (live, kept)) =
                stored-IsQueued s t e action result {status = status} {event = event}
                  (λ event after made. queued request e action tool payload s.db after event made)
                  (ground arith) in
              let is_id : e.id ≡ execution_id =
                by-key (λ (r : ExecutionRun). r.id) execution_id s.db.executions {x = e} is_e in
              (
                e,
                rw kept is_e,
                is_status,
                λ other tool payload next.
                    let same : action ≡ other = ground arith in
                    subst
                      (λ a. any (is_live_event execution_id (execution_event a)) t.db.outbox ≡ true)
                      same
                      (subst
                        (λ i. any (is_live_event i (execution_event action)) t.db.outbox ≡ true)
                        is_id live),
              )
        ]
      ]

  -- an event for an action on the execution is pending or published
  abbrev pub HasLive : ℕ → Action → Db F → Type 0
  HasLive execution_id action db =
      any (is_live_event execution_id (execution_event action)) db.outbox ≡ true

  -- the actions that a row calls for
  next_action_cancel :
      (e : ExecutionRun)
      → e.status ≡ ExecutionRunStatus.cancel_requested
      → (tool : String) × (payload : Dict Json) × (next_action e ≡ some (cancel, tool, payload))
  unfolding next_action
  next_action_cancel e stops = rw stops (_, _, refl)

  next_action_swap :
      (e : ExecutionRun)
      → e.status ≢ ExecutionRunStatus.cancel_requested
      → e.publish_status ≡ PublishStatus.swap_requested
      → (tool : String) × (payload : Dict Json) × (next_action e ≡ some (swap, tool, payload))
  unfolding next_action
  next_action_swap e runs swaps = rw (wants_cancel_other e.status runs, swaps) (_, _, refl)

  next_action_cleanup :
      (e : ExecutionRun)
      → e.status ≡ ExecutionRunStatus.failed
      → e.publish_status ≢ PublishStatus.swap_requested
      → has_text e.engine_job_id ≡ true
      → (tool : String) × (payload : Dict Json) × (next_action e ≡ some (cleanup, tool, payload))
  unfolding next_action
  next_action_cleanup e failed stays job =
      rw (failed, wants_swap_other e.publish_status stays, job) (_, _, refl)

  -- A supervision task that returns a status returns that of the execution's row. If that status is
  -- cancel_requested, then an event for a cancellation of the execution that is pending or published is
  -- in the outbox; if it is not, and the row's swap is requested, then one for the swap; and if the row
  -- failed, with the id of an engine job and no swap requested, then one for the cleanup.
  pub supervise_task_queued :
      (request : Request) (execution_id now : ℕ) (s t : Supervised F) (status : ExecutionRunStatus)
      (event : Option OutboxEvent)
      → supervise_task services observer request execution_id now s ≡ (ok (status, event), t)
      → (e : ExecutionRun) × (execution_by execution_id t.db ≡ some e)
        × (status ≡ e.status)
        × (e.status ≡ ExecutionRunStatus.cancel_requested → HasLive execution_id cancel t.db)
        × (e.status ≢ ExecutionRunStatus.cancel_requested
            → e.publish_status ≡ PublishStatus.swap_requested
            → HasLive execution_id swap t.db)
        × (e.status ≡ ExecutionRunStatus.failed
            → e.publish_status ≢ PublishStatus.swap_requested
            → has_text e.engine_job_id ≡ true
            → HasLive execution_id cleanup t.db)
  unfolding supervise_task
  supervise_task_queued request execution_id now s t status event h =
      elim (Result-cases (supervise_execution_run observer execution_id now s)) [
        | inr (x, failed) ↦ absurd (ground arith)
        | inl ((row, supervised), done) ↦
            let (e, is_e, same, queues) =
              queue_next-Follows request execution_id supervised t {status = status} {event = event}
                (ground arith) in
            (
              e,
              is_e,
              same,
              λ stops.
                  let (tool, payload, next) = next_action_cancel e stops in
                  queues cancel tool payload next,
              λ runs swaps.
                  let (tool, payload, next) = next_action_swap e runs swaps in
                  queues swap tool payload next,
              λ fails stays job.
                  let (tool, payload, next) = next_action_cleanup e fails stays job in
                  queues cleanup tool payload next,
            )
      ]
