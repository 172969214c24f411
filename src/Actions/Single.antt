-- ===== src/Actions/Single.antt =====
-- At most one live event for each execution and event type.
use etl_agent.Prelude.{
  ℕ, suc, ◌+◌, ◌≤◌, ◌≡◌, refl, sym, ap, subst, inl, inr, String, true, ◌&&◌, Option, none, some,
  List, [], ◌∷◌, ◌==◌, any, insert, if◌then◌else◌, arith, Bool-cases, Option-cases, eq_iff,
}
use etl_agent.Prelude.Result.{ok, err, guard, require, >>=-eq-ok}
use etl_agent.Prelude.Text.{Text, codes}
use etl_agent.Prelude.Dict.{Dict, Json, string}
use etl_agent.Store.{
  Action, RollbackStatus, ExecutionRunStatus, EventType, cancel, rollback, execution_event,
  other_event, Db, ExecutionRun, OutboxEvent, Preparation, operator,
}
use etl_agent.Access.{require_project_role}
use etl_agent.Api.{run_handler-cases, Outcome}
use etl_agent.Prelude.{
  ℕ, suc, ◌+◌, ◌≤◌, ◌≡◌, refl, sym, ap, subst, inl, inr, String, true, ◌&&◌, Option, none, some,
  List, [], ◌∷◌, ◌==◌, any, insert, if◌then◌else◌, arith, Bool-cases, Option-cases, eq_iff,
}
use etl_agent.Prelude.Result.{Result-cases, ok, err, guard, require, >>=-eq-ok}
use etl_agent.Prelude.Text.{Text, codes}
use etl_agent.Prelude.Dict.{Dict, Json, string}
use etl_agent.Store.{
  Action, RollbackStatus, ExecutionRunStatus, EventType, cancel, rollback, execution_event,
  other_event, Db, ExecutionRun, OutboxEvent, Preparation, operator,
}
use etl_agent.Rows.{save_execution, execution_by, preparation_by}
use etl_agent.Services.{Request, Services}
use etl_agent.Actions.{
  has_text, rollback_execution_run, is_rolled_back, rollback_payload, cancel_execution_run,
  rollback_body, request_rollback, request_cancel, is_terminal, cancel_body, is_failed_event,
  issue_action_token, action_event, queue_execution_action, queue_user_action, add_action,
  find_last, event_eq, action_eq, is_live_event,
}
use etl_agent.Prelude.{
  ℕ, suc, ◌+◌, ◌≤◌, ◌≡◌, refl, sym, ap, subst, inl, inr, String, true, ◌&&◌, Option, none, some,
  List, [], ◌∷◌, ◌==◌, any, insert, if◌then◌else◌, arith, Bool-cases, Option-cases, eq_iff,
}
use etl_agent.Prelude.Result.{ok, err, guard, require, >>=-eq-ok}
use etl_agent.Prelude.Text.{Text, codes}
use etl_agent.Prelude.Dict.{Dict, Json, string}
use etl_agent.Store.{
  Action, RollbackStatus, ExecutionRunStatus, EventType, cancel, rollback, execution_event,
  other_event, Db, ExecutionRun, OutboxEvent, Preparation, operator,
}

abbrev pub live_count : ℕ → EventType → List OutboxEvent → ℕ
live_count execution_id event_type [] = 0
live_count execution_id event_type (e ∷ es) =
    let rest = live_count execution_id event_type es in
    if is_live_event execution_id event_type e then suc rest else rest

-- no two live events have one execution and one type
abbrev pub IsSingle : List OutboxEvent → Type 0
IsSingle outbox =
    (execution_id : ℕ) (event_type : EventType) → live_count execution_id event_type outbox ≤ 1

action_eq-eq : (a b : Action) → action_eq a b ≡ true → a ≡ b
action_eq-eq a b h = ground arith

event_eq-eq : (t u : EventType) → event_eq t u ≡ true → t ≡ u
event_eq-eq (execution_event a) (execution_event b) h = ap execution_event (action_eq-eq a b h)
event_eq-eq (other_event s) (other_event t) h = ap other_event ((eq_iff s t).0 h)
event_eq-eq (execution_event a) (other_event t) h = absurd (ground arith)
event_eq-eq (other_event s) (execution_event b) h = absurd (ground arith)

live_count-insert :
    (execution_id : ℕ) (event_type : EventType) (e : OutboxEvent) (es : List OutboxEvent)
    → live_count execution_id event_type (insert e es)
      ≡ live_count execution_id event_type es
        + (if is_live_event execution_id event_type e then 1 else 0)
unfolding insert
live_count-insert execution_id event_type e [] = ground arith
live_count-insert execution_id event_type e (x ∷ es) =
    ground (arith, live_count-insert execution_id event_type e es)

live_count-none :
    (execution_id : ℕ) (event_type : EventType) (es : List OutboxEvent)
    → find_last (is_live_event execution_id event_type) es ≡ none
    → live_count execution_id event_type es ≡ 0
unfolding find_last
live_count-none execution_id event_type [] h = refl
live_count-none execution_id event_type (e ∷ es) h =
    elim (Option-cases (find_last (is_live_event execution_id event_type) es)) [
      | inl nothing ↦ ground (arith, live_count-none execution_id event_type es nothing)
      | inr (x, found) ↦ absurd (ground arith)
    ]

IsSingle-insert :
    (e : OutboxEvent) (es : List OutboxEvent)
    → find_last (is_live_event e.aggregate_id e.event_type) es ≡ none
    → IsSingle es
    → IsSingle (insert e es)
IsSingle-insert e es new single execution_id event_type =
    rw (live_count-insert execution_id event_type e es)
      (elim (Bool-cases ((e.aggregate_id == execution_id) && event_eq e.event_type event_type)) [
        | inl same ↦
            let same_id : e.aggregate_id ≡ execution_id = ground arith in
            let same_type = event_eq-eq e.event_type event_type (ground arith) in
            let empty =
              subst (λ t. live_count execution_id t es ≡ 0) same_type
                (subst (λ k. live_count k e.event_type es ≡ 0) same_id
                  (live_count-none e.aggregate_id e.event_type es new)) in
            ground (arith, empty)
        | inr differs ↦ ground (arith, single execution_id event_type)
      ])

module _ {F PrivateKey PublicKey : Type 0} (s : Services F PrivateKey PublicKey) where
  add_action-IsSingle :
      (request : Request) (execution : ExecutionRun) (event_type : EventType) (actor : ℕ)
      (default : Text) (payload : Dict Json) (token : Text) (db : Db F)
      → find_last (is_live_event execution.id event_type) db.outbox ≡ none
      → IsSingle db.outbox
      → IsSingle (add_action s request execution event_type actor default payload token db).1.outbox
  unfolding add_action action_event
  add_action-IsSingle request execution event_type actor default payload token db new single =
      IsSingle-insert
        (action_event s request execution event_type
          (any (is_failed_event execution.id event_type) db.outbox) payload token)
        db.outbox new single

  queue_user_action-IsSingle :
      (request : Request) (execution : ExecutionRun) (event_type : EventType) (tool : String)
      (payload : Dict Json) (db : Db F) {o : OutboxEvent × Db F}
      → queue_user_action s request execution event_type tool payload db ≡ ok o
      → IsSingle db.outbox
      → IsSingle o.1.outbox
  unfolding queue_user_action
  queue_user_action-IsSingle request execution event_type tool payload db {o} done single =
      elim (Option-cases (find_last (is_live_event execution.id event_type) db.outbox)) [
        | inl nothing ↦ elim (Option-cases (preparation_by execution.preparation_id db)) [
          | inl missing ↦ absurd (ground arith)
          | inr (p, found) ↦
              elim (Result-cases (issue_action_token s request execution p request.user tool)) [
                | inr (e, failed) ↦ absurd (ground arith)
                | inl (token, issued) ↦
                    let after =
                      add_action s request execution event_type request.user [] payload token db in
                    let same : after.1.outbox ≡ o.1.outbox = ground arith in
                    subst IsSingle same (
                      add_action-IsSingle request execution event_type request.user [] payload token
                        db nothing single)
              ]
        ]
        | inr (e, found) ↦
            let same : o.1.outbox ≡ db.outbox = ground arith in subst IsSingle (sym same) single
      ]

  abbrev system_step :
      Request
      → ExecutionRun
      → EventType
      → String
      → Dict Json
      → Db F
      → Preparation F
      → Option (Option OutboxEvent × Db F)
  system_step request execution event_type tool payload db p =
      elim (issue_action_token s request execution p execution.created_by tool) [
        | err e ↦ none
        | ok token ↦
            let added =
              add_action s request execution event_type execution.created_by (codes "system")
                payload token db in
            some (some added.0, added.1)
      ]

  system_added :
      (request : Request) (execution : ExecutionRun) (event_type : EventType) (tool : String)
      (payload : Dict Json) (db : Db F) (p : Preparation F) {o : Option OutboxEvent × Db F}
      → find_last (is_live_event execution.id event_type) db.outbox ≡ none
      → system_step request execution event_type tool payload db p ≡ some o
      → IsSingle db.outbox
      → IsSingle o.1.outbox
  system_added request execution event_type tool payload db p {o} nothing done single =
      elim (Result-cases (issue_action_token s request execution p execution.created_by tool)) [
        | inr (e, failed) ↦ absurd (ground arith)
        | inl (token, issued) ↦
            let actor = execution.created_by in
            let after =
              add_action s request execution event_type actor (codes "system") payload token db in
            let same : after.1.outbox ≡ o.1.outbox = ground arith in
            subst IsSingle same (
              add_action-IsSingle request execution event_type actor (codes "system") payload token
                db nothing single)
      ]

  -- After queueing a system action there is still at most one live event for each execution and
  -- event type, if there was before.
  pub queue_execution_action-IsSingle :
      (request : Request) (execution : ExecutionRun) (event_type : EventType) (tool : String)
      (payload : Dict Json) (db : Db F) {o : Option OutboxEvent × Db F}
      → queue_execution_action s request execution event_type tool payload db ≡ some o
      → IsSingle db.outbox
      → IsSingle o.1.outbox
  unfolding queue_execution_action
  queue_execution_action-IsSingle request execution event_type tool payload db {o} done single =
      elim (Option-cases (find_last (is_live_event execution.id event_type) db.outbox)) [
        | inl nothing ↦ elim (Option-cases (preparation_by execution.preparation_id db)) [
          | inl missing ↦ absurd (ground arith)
          | inr (p, found) ↦
              system_added request execution event_type tool payload db p {o = o} nothing
                (ground arith) single
        ]
        | inr (e, found) ↦
            let same : o.1.outbox ≡ db.outbox = ground arith in subst IsSingle (sym same) single
      ]

  request_cancel-IsSingle :
      (execution : ExecutionRun) (reason : Text) (request : Request) (db : Db F)
      {o : Outcome (Db F) ExecutionRun}
      → request_cancel s execution reason request db ≡ ok o
      → IsSingle db.outbox
      → IsSingle o.1.outbox
  unfolding request_cancel
  request_cancel-IsSingle execution reason request db {o} done single =
      let cancelling = record execution { status = ExecutionRunStatus.cancel_requested } in
      let payload = ("reason", string reason) ∷ [] in
      let saved = save_execution cancelling db in
      let (queued, added, last) =
        >>=-eq-ok
          (queue_user_action s request cancelling (execution_event cancel) "seatunnel.cancel"
            payload saved)
          _ done in
      let same : queued.1.outbox ≡ o.1.outbox = ground arith in
      subst IsSingle same (
        queue_user_action-IsSingle request cancelling (execution_event cancel) "seatunnel.cancel"
          payload saved added single)

  request_rollback-IsSingle :
      (execution : ExecutionRun) (reason : Text) (request : Request) (db : Db F)
      {o : Outcome (Db F) ExecutionRun}
      → request_rollback s execution reason request db ≡ ok o
      → IsSingle db.outbox
      → IsSingle o.1.outbox
  unfolding request_rollback
  request_rollback-IsSingle execution reason request db {o} done single =
      let requested = record execution { rollback_status = RollbackStatus.requested } in
      let payload = rollback_payload reason requested in
      let saved = save_execution requested db in
      let (u, terminal, more) = >>=-eq-ok (guard (is_terminal execution.status) _) _ done in
      let (v, has_job, rest) = >>=-eq-ok (guard (has_text execution.engine_job_id) _) _ more in
      let (queued, added, last) =
        >>=-eq-ok
          (queue_user_action s request requested (execution_event rollback) "seatunnel.rollback"
            payload saved)
          _ rest in
      let same : queued.1.outbox ≡ o.1.outbox = ground arith in
      subst IsSingle same (
        queue_user_action-IsSingle request requested (execution_event rollback) "seatunnel.rollback"
          payload saved added single)

  cancel_body-IsSingle :
      (execution_id : ℕ) (reason : Text) (request : Request) (db : Db F)
      (o : Outcome (Db F) ExecutionRun)
      → cancel_body s execution_id reason request db ≡ ok o
      → IsSingle db.outbox
      → IsSingle o.1.outbox
  unfolding cancel_body
  cancel_body-IsSingle execution_id reason request db o done single =
      let (e, found, rest) = >>=-eq-ok (require (execution_by execution_id db) _) _ done in
      let (roles, allowed, last) =
        >>=-eq-ok (require_project_role db e.project_id request.user (operator ∷ [])) _ rest in
      elim (Bool-cases (is_terminal e.status)) [
        | inl ended ↦ let same : db.outbox ≡ o.1.outbox = ground arith in subst IsSingle same single
        | inr alive ↦ request_cancel-IsSingle e reason request db {o = o} (ground arith) single
      ]

  rollback_body-IsSingle :
      (execution_id : ℕ) (reason : Text) (request : Request) (db : Db F)
      (o : Outcome (Db F) ExecutionRun)
      → rollback_body s execution_id reason request db ≡ ok o
      → IsSingle db.outbox
      → IsSingle o.1.outbox
  unfolding rollback_body
  rollback_body-IsSingle execution_id reason request db o done single =
      let (e, found, rest) = >>=-eq-ok (require (execution_by execution_id db) _) _ done in
      let (roles, allowed, last) =
        >>=-eq-ok (require_project_role db e.project_id request.user (operator ∷ [])) _ rest in
      elim (Bool-cases (is_rolled_back e.rollback_status)) [
        | inl ended ↦ let same : db.outbox ≡ o.1.outbox = ground arith in subst IsSingle same single
        | inr alive ↦ request_rollback-IsSingle e reason request db {o = o} (ground arith) single
      ]

  -- However a request to cancel or to roll back an execution ends, there is at most one live event
  -- for each execution and event type, if there was before.
  pub user_actions-IsSingle :
      (execution_id : ℕ) (reason : Text) (request : Request) (db : Db F)
      → IsSingle db.outbox
      → IsSingle (cancel_execution_run s execution_id reason request db).1.outbox
        × IsSingle (rollback_execution_run s execution_id reason request db).1.outbox
  unfolding cancel_execution_run rollback_execution_run
  user_actions-IsSingle execution_id reason request db single = (
    run_handler-cases (λ (o : Outcome (Db F) ExecutionRun). IsSingle o.1.outbox) db
        (cancel_body s execution_id reason request db) (λ e. single)
        (λ o done. cancel_body-IsSingle execution_id reason request db o done single),
    run_handler-cases (λ (o : Outcome (Db F) ExecutionRun). IsSingle o.1.outbox) db
        (rollback_body s execution_id reason request db) (λ e. single)
        (λ o done. rollback_body-IsSingle execution_id reason request db o done single),
  )
