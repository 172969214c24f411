-- ===== src/Dispatch/Calls.antt =====
-- What a call of the engine requires.
use etl_agent.Prelude.{
  ℕ, ◌+◌, ◌≡◌, refl, sym, ap, ◌⊎◌, inl, inr, String, Bool, true, false, Option, none, some, List,
  ◌∷◌, is_empty, arith, Bool-cases, Option-cases, eq_iff,
}
use etl_agent.Prelude.Result.{Result, ok, err, >>=-eq-ok, ok-injective}
use etl_agent.Prelude.Text.{Text}
use etl_agent.Prelude.Dict.{Dict, Json}
use etl_agent.Store.{
  Action, EventType, submit, cancel, cleanup, swap, rollback, execution_event, other_event, Db,
  ExecutionRun, OutboxEvent,
}
use etl_agent.Prelude.{
  ℕ, ◌+◌, ◌≡◌, refl, sym, ap, ◌⊎◌, inl, inr, String, Bool, true, false, Option, none, some, List,
  ◌∷◌, is_empty, arith, Bool-cases, Option-cases, eq_iff,
}
use etl_agent.Prelude.Result.{Result, ok, err, >>=-eq-ok, ok-injective}
use etl_agent.Prelude.Text.{Text}
use etl_agent.Prelude.Dict.{Dict, Json}
use etl_agent.Store.{
  Action, EventType, submit, cancel, cleanup, swap, rollback, execution_event, other_event, Db,
  ExecutionRun, OutboxEvent,
}
use etl_agent.Prelude.{
  ℕ, ◌+◌, ◌≡◌, refl, sym, ap, ◌⊎◌, inl, inr, String, Bool, true, false, Option, none, some, List,
  ◌∷◌, is_empty, arith, Bool-cases, Option-cases, eq_iff,
}
use etl_agent.Prelude.Result.{Result, ok, err, >>=-eq-ok, ok-injective}
use etl_agent.Prelude.Text.{Text}
use etl_agent.Prelude.Dict.{Dict, Json}
use etl_agent.Store.{
  Action, EventType, submit, cancel, cleanup, swap, rollback, execution_event, other_event, Db,
  ExecutionRun, OutboxEvent,
}
use etl_agent.Prelude.{
  ℕ, ◌≡◌, refl, ap, ◌⊎◌, inl, inr, String, Bool, true, false, Option, none, some, List, ◌∷◌,
  is_empty, arith, Bool-cases, eq_iff,
}
use etl_agent.Prelude.Result.{Result-cases, Result, ok, err, >>=-eq-ok, ok-injective}
use etl_agent.Prelude.Text.{Text}
use etl_agent.Prelude.Dict.{Dict, Json}
use etl_agent.Store.{
  Action, EventType, submit, cancel, cleanup, swap, rollback, execution_event, other_event, Db,
  ExecutionRun, OutboxEvent,
}
use etl_agent.Rows.{execution_by, event_by}
use etl_agent.Capability.{verify_capability, CapabilityClaims}
use etl_agent.Capability.Replay.{consume_once, GuardError}
use etl_agent.Dispatch.{
  job_action, job_id_of, submit_job, cancel_job, as_failure, is_tool, Failure, is_pending,
  expected_tool, EngineCall, check_bindings, Outside,
}
use etl_agent.Dispatch.Broker.{
  dispatch_outbox_event, dispatch_found, dispatch_pending, raised, submit_payload, call_action,
  is_late, submit_to_engine, after_consumption, act_on_job, attempt, authorize, perform, Broker,
}
use etl_agent.Prelude.{
  ℕ, ◌≡◌, refl, ap, ◌⊎◌, inl, inr, String, Bool, true, false, Option, none, some, List, ◌∷◌,
  is_empty, arith, Bool-cases, eq_iff,
}
use etl_agent.Prelude.Result.{Result, ok, err, >>=-eq-ok, ok-injective}
use etl_agent.Prelude.Text.{Text}
use etl_agent.Prelude.Dict.{Dict, Json}
use etl_agent.Store.{
  Action, EventType, submit, cancel, cleanup, swap, rollback, execution_event, other_event, Db,
  ExecutionRun, OutboxEvent,
}

module _ {F R PrivateKey PublicKey : Type 0} (b : Broker F R PrivateKey PublicKey) where
  abbrev pub consumed : Text → ℕ → Outside R → Result GuardError Bool × R
  consumed token now o = consume_once b.redis b.guard_config token b.replay_ttl_seconds now o.replay

  -- what holds before a dispatch that calls the engine, and of the outside after it
  pub record IsAuthorizedCall (event_id now : ℕ) (db : Db F) (before after : Outside R)
      : Type 0 where
    pub call : EngineCall
    pub event : OutboxEvent
    pub execution : ExecutionRun
    pub capability : CapabilityClaims
    pub is_event : event_by event_id db ≡ some event
    pub is_execution : execution_by event.aggregate_id db ≡ some execution
    pub was_pending : is_pending event.status ≡ true
    pub not_late : is_late b event execution ≡ false
    pub is_verified :
        verify_capability b.services.codec event.capability_token b.public_key now 30
        ≡ ok capability
    pub same_preparation : capability.preparation_id ≡ execution.preparation_id
    pub same_subject : capability.subject ≡ execution.created_by
    pub same_digest : capability.artifact_digest ≡ execution.artifact_digest
    pub same_tool : expected_tool event.event_type ≡ some capability.tool
    pub is_first : (consumed event.capability_token now before).0 ≡ ok true
    pub guarded : after.replay ≡ (consumed event.capability_token now before).1
    pub called : after.calls ≡ call ∷ before.calls

  -- no call, or one more
  abbrev CallsOnce : List EngineCall → List EngineCall → Type 0
  CallsOnce before after = (after ≡ before) ⊎ ((call : EngineCall) × (after ≡ call ∷ before))

  call_action-CallsOnce :
      (action : Action) (job : Text) (payload : Dict Json) (calls : List EngineCall)
      → CallsOnce calls (call_action b action job payload calls).1
  call_action-CallsOnce submit job payload calls = inl refl
  call_action-CallsOnce cancel job payload calls = inr (cancel_job job, refl)
  call_action-CallsOnce cleanup job payload calls = inr (job_action cleanup job payload, refl)
  call_action-CallsOnce swap job payload calls = inr (job_action swap job payload, refl)
  call_action-CallsOnce rollback job payload calls = inr (job_action rollback job payload, refl)

  act_on_job-CallsOnce :
      (action : Action) (job : Text) (payload : Dict Json) (calls : List EngineCall)
      → CallsOnce calls (act_on_job b action job payload calls).1
  unfolding act_on_job
  act_on_job-CallsOnce action job payload calls = elim (Bool-cases (is_empty job)) [
    | inl missing ↦ inl (rw missing)
    | inr present ↦ rw present (call_action-CallsOnce action job payload calls)
  ]

  submit-CallsOnce :
      (payload : Result Failure (Dict Json)) (calls : List EngineCall)
      → CallsOnce calls (submit_to_engine b payload calls).1
  unfolding submit_to_engine
  submit-CallsOnce (ok payload) calls = inr (submit_job payload, refl)
  submit-CallsOnce (err e) calls = inl refl

  typed-CallsOnce :
      (t : EventType) (db : Db F) (event : OutboxEvent) (execution : ExecutionRun)
      (calls : List EngineCall)
      → event.event_type ≡ t
      → CallsOnce calls (perform b db event execution calls).1
  unfolding perform submit_payload
  typed-CallsOnce (execution_event submit) db event execution calls e =
      rw e (submit-CallsOnce (submit_payload b db event execution) calls)
  typed-CallsOnce (execution_event cancel) db event execution calls e =
      rw e (act_on_job-CallsOnce cancel (job_id_of execution event.payload) event.payload calls)
  typed-CallsOnce (execution_event cleanup) db event execution calls e =
      rw e (act_on_job-CallsOnce cleanup (job_id_of execution event.payload) event.payload calls)
  typed-CallsOnce (execution_event swap) db event execution calls e =
      rw e (act_on_job-CallsOnce swap (job_id_of execution event.payload) event.payload calls)
  typed-CallsOnce (execution_event rollback) db event execution calls e =
      rw e (act_on_job-CallsOnce rollback (job_id_of execution event.payload) event.payload calls)
  typed-CallsOnce (other_event name) db event execution calls e = rw e (inl refl)

  tool_eq :
      (expected : Option String) (tool : String)
      → is_tool expected tool ≡ true
      → expected ≡ some tool
  tool_eq none tool h = absurd (ground arith)
  tool_eq (some t) tool h = ap some (sym ((eq_iff tool t).0 h))

  bound :
      (c : CapabilityClaims) (execution : ExecutionRun) (event_type : EventType) {u : Unit {0}}
      → check_bindings c execution event_type ≡ ok u
      → (c.preparation_id ≡ execution.preparation_id)
        × (c.subject ≡ execution.created_by)
        × (c.artifact_digest ≡ execution.artifact_digest)
        × (expected_tool event_type ≡ some c.tool)
  unfolding check_bindings
  bound c execution event_type h = ground (
    arith,
    eq_iff c.artifact_digest execution.artifact_digest,
    tool_eq (expected_tool event_type) c.tool,
  )

  authorized :
      (event : OutboxEvent) (execution : ExecutionRun) (now : ℕ) {c : CapabilityClaims}
      → authorize b event execution now ≡ ok c
      → (verify_capability b.services.codec event.capability_token b.public_key now 30 ≡ ok c)
        × (check_bindings c execution event.event_type ≡ ok tt)
  unfolding authorize
  authorized event execution now h =
      let (d, verified, rest) =
        >>=-eq-ok
          (as_failure
            (verify_capability b.services.codec event.capability_token b.public_key now 30))
          _ h in
      let (u, checked, last) = >>=-eq-ok (check_bindings d execution event.event_type) _ rest in
      let same = ok-injective last in (ground (arith, same), ground (arith, same))

  consumed_calls :
      (db : Db F) (event : OutboxEvent) (execution : ExecutionRun) (o : Outside R)
      (got : Result GuardError Bool × R)
      → let after = (after_consumption b got db event execution o).1 in
        (after.calls ≡ o.calls)
        ⊎ ((call : EngineCall) × (got.0 ≡ ok true)
            × (after.replay ≡ got.1)
            × (after.calls ≡ call ∷ o.calls))
  unfolding after_consumption
  consumed_calls db event execution o (err e, r) = inl refl
  consumed_calls db event execution o (ok false, r) = inl refl
  consumed_calls db event execution o (ok true, r) =
      elim (typed-CallsOnce event.event_type db event execution o.calls refl) [
        | inl same ↦ inl same
        | inr (call, more) ↦ inr (call, refl, refl, more)
      ]

  granted-attempt :
      (now : ℕ) (db : Db F) (event : OutboxEvent) (execution : ExecutionRun) (o : Outside R)
      {c : CapabilityClaims}
      → authorize b event execution now ≡ ok c
      → attempt b now db event execution o
        ≡ after_consumption b (consumed event.capability_token now o) db event execution o
  unfolding attempt
  granted-attempt now db event execution o h = rw (attempt, h)

  refused-attempt :
      (now : ℕ) (db : Db F) (event : OutboxEvent) (execution : ExecutionRun) (o : Outside R)
      {e : Failure}
      → authorize b event execution now ≡ err e
      → attempt b now db event execution o ≡ (raised e, o)
  unfolding attempt
  refused-attempt now db event execution o h = rw (attempt, h)

  attempt_calls :
      (now : ℕ) (db : Db F) (event : OutboxEvent) (execution : ExecutionRun) (o : Outside R)
      → let after = (attempt b now db event execution o).1 in
        (after.calls ≡ o.calls)
        ⊎ ((c : CapabilityClaims) × (call : EngineCall) × (authorize b event execution now ≡ ok c)
            × ((consumed event.capability_token now o).0 ≡ ok true)
            × (after.replay ≡ (consumed event.capability_token now o).1)
            × (after.calls ≡ call ∷ o.calls))
  attempt_calls now db event execution o = elim (Result-cases (authorize b event execution now)) [
    | inr (e, refused) ↦ inl (rw (refused-attempt now db event execution o refused))
    | inl (c, granted) ↦
        rw (granted-attempt now db event execution o granted)
          (elim (consumed_calls db event execution o (consumed event.capability_token now o)) [
            | inl same ↦ inl same
            | inr (call, first, kept, more) ↦ inr (c, call, granted, first, kept, more)
          ])
  ]

  pending_calls :
      (now : ℕ) (db : Db F) (event : OutboxEvent) (execution : ExecutionRun) (o : Outside R)
      → let after = (dispatch_pending b now event execution db o).2 in
        let tried = record event { attempts = event.attempts + 1 } in
        (after.calls ≡ o.calls)
        ⊎ ((is_late b event execution ≡ false) × (after ≡ (attempt b now db tried execution o).1))
  unfolding dispatch_pending
  pending_calls now db event execution o = elim (Bool-cases (is_late b event execution)) [
    | inl late ↦ inl (rw late)
    | inr in_time ↦ inr (in_time, rw in_time)
  ]

  found_calls :
      (now : ℕ) (db : Db F) (event : OutboxEvent) (o : Outside R)
      → ((dispatch_found b now event db o).2.calls ≡ o.calls)
        ⊎ ((execution : ExecutionRun) × (execution_by event.aggregate_id db ≡ some execution)
            × (is_pending event.status ≡ true)
            × (dispatch_found b now event db o ≡ dispatch_pending b now event execution db o))
  unfolding dispatch_found
  found_calls now db event o = elim (Option-cases (execution_by event.aggregate_id db)) [
    | inl missing ↦ inl (rw (dispatch_found, missing))
    | inr (execution, found) ↦ elim (Bool-cases (is_pending event.status)) [
      | inl waits ↦ inr (execution, found, waits, rw (dispatch_found, found, waits))
      | inr over ↦ inl (rw (dispatch_found, found, over))
    ]
  ]

  dispatched :
      (event_id now : ℕ) (db : Db F) (o : Outside R)
      → ((dispatch_outbox_event b event_id now db o).2.calls ≡ o.calls)
        ⊎ ((event : OutboxEvent) × (event_by event_id db ≡ some event)
            × (dispatch_outbox_event b event_id now db o ≡ dispatch_found b now event db o))
  unfolding dispatch_outbox_event
  dispatched event_id now db o = elim (Option-cases (event_by event_id db)) [
    | inl missing ↦ inl (rw (dispatch_outbox_event, missing))
    | inr (event, found) ↦ inr (event, found, rw (dispatch_outbox_event, found))
  ]

  -- A dispatch makes no call to the engine, or exactly one. It makes one only for a pending event
  -- of an execution that was not cancelled before its submission, whose capability verifies, names
  -- the execution's preparation, creator, artifact and the tool of the event, and is consumed for
  -- the first time.
  pub dispatch-IsAuthorizedCall :
      (event_id now : ℕ) (db : Db F) (o : Outside R)
      → let after = (dispatch_outbox_event b event_id now db o).2 in
        (after.calls ≡ o.calls) ⊎ IsAuthorizedCall event_id now db o after
  dispatch-IsAuthorizedCall event_id now db o = elim (dispatched event_id now db o) [
    | inl same ↦ inl same
    | inr (event, is_event, at_event) ↦ elim (found_calls now db event o) [
      | inl same ↦ inl (rw at_event same)
      | inr (execution, is_execution, waits, at_pending) ↦
          elim (pending_calls now db event execution o) [
            | inl same ↦ inl (rw (at_event, at_pending) same)
            | inr (in_time, at_attempt) ↦
                let tried = record event { attempts = event.attempts + 1 } in
                elim (attempt_calls now db tried execution o) [
                  | inl same ↦ inl (rw (at_event, at_pending, at_attempt) same)
                  | inr (c, call, granted, first, kept, more) ↦
                      let (verified, checked) = authorized tried execution now granted in
                      let (same_p, same_s, same_d, same_t) =
                        bound c execution event.event_type checked in
                      inr (
                        rw (at_event, at_pending, at_attempt)
                          (record {
                            call = call;
                            event = event;
                            execution = execution;
                            capability = c;
                            is_event = is_event;
                            is_execution = is_execution;
                            was_pending = waits;
                            not_late = in_time;
                            is_verified = verified;
                            same_preparation = same_p;
                            same_subject = same_s;
                            same_digest = same_d;
                            same_tool = same_t;
                            is_first = first;
                            guarded = kept;
                            called = more;
                          }))
                ]
          ]
    ]
  ]
