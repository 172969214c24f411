-- ===== src/Dispatch/Once.antt =====
-- A capability makes one call of the engine at most.
use etl_agent.Dispatch.Calls.{dispatch-IsAuthorizedCall, consumed}
use etl_agent.Prelude.{
  ℕ, ◌+◌, ◌<◌, ◌≡◌, ◌≢◌, sym, ap, ◌∙◌, inl, inr, true, false, some, List, length, arith,
}
use etl_agent.Prelude.Result.{ok, ok-injective}
use etl_agent.Prelude.Text.{Text}
use etl_agent.Store.{Db, OutboxEvent}
use etl_agent.Prelude.{
  ℕ, ◌+◌, ◌<◌, ◌≡◌, ◌≢◌, sym, ap, ◌∙◌, inl, inr, true, false, some, List, length, arith,
}
use etl_agent.Prelude.Result.{ok, ok-injective}
use etl_agent.Prelude.Text.{Text}
use etl_agent.Store.{Db, OutboxEvent}
use mathlib.Core.Bool.{true≢false}
use etl_agent.Prelude.{
  ℕ, ◌+◌, ◌<◌, ◌≡◌, ◌≢◌, sym, ap, ◌∙◌, inl, inr, true, false, some, List, length, arith,
}
use etl_agent.Prelude.Result.{ok, ok-injective}
use etl_agent.Prelude.Text.{Text}
use etl_agent.Store.{Db, OutboxEvent}
use mathlib.Core.Bool.{true≢false}
use etl_agent.Prelude.{
  ℕ, ◌+◌, ◌<◌, ◌≡◌, ◌≢◌, sym, ap, ◌∙◌, inl, inr, true, false, some, List, length, arith,
}
use etl_agent.Prelude.Result.{ok, ok-injective}
use etl_agent.Prelude.Text.{Text}
use etl_agent.Store.{Db, OutboxEvent}
use mathlib.Core.Bool.{true≢false}
use etl_agent.Prelude.{ℕ, ◌≡◌, ap, inl, inr, true, false, some, List, arith}
use etl_agent.Prelude.Result.{ok, ok-injective}
use etl_agent.Prelude.Text.{Text}
use etl_agent.Store.{Db, OutboxEvent}
use etl_agent.Rows.{event_by}
use etl_agent.Capability.Replay.{consume_once_refuses, consume_all, RedisLaws, consume_once}
use etl_agent.Dispatch.{EngineCall, Outside}
use etl_agent.Dispatch.Broker.{dispatch_outbox_event, Broker}
use mathlib.Core.Bool.{true≢false}
use etl_agent.Prelude.{ℕ, ◌≡◌, ap, inl, inr, true, false, some, List, arith}
use etl_agent.Prelude.Result.{ok, ok-injective}
use etl_agent.Prelude.Text.{Text}
use etl_agent.Store.{Db, OutboxEvent}

module _ {F R PrivateKey PublicKey : Type 0} (b : Broker F R PrivateKey PublicKey) where
  lives :
      (token : Text) (now : ℕ) (o : Outside R)
      → (consumed b token now o).0 ≡ ok true
      → 0 < b.replay_ttl_seconds
  unfolding consume_once
  lives token now o first = ground arith

  both_ways :
      (later : ℕ) (between : List (record { token : Text; ttl : ℕ; at : ℕ })) {mine yours : Text}
      {replay guarded : R}
      → mine ≡ yours
      → replay ≡ guarded
      → (consume_once b.redis b.guard_config mine b.replay_ttl_seconds later
          (consume_all b.redis b.guard_config between replay)).0
        ≡ ok true
      → (consume_once b.redis b.guard_config yours b.replay_ttl_seconds later
          (consume_all b.redis b.guard_config between guarded)).0
        ≡ ok false
      → ⊥
  both_ways later between {mine} {yours} {replay} {guarded} same kept first second =
      let again : (consume_once b.redis b.guard_config yours b.replay_ttl_seconds later
            (consume_all b.redis b.guard_config between guarded)).0
          ≡ ok true =
        rw⁻¹ (same, kept) first in
      true≢false (ok-injective (sym again ∙ second))

  -- Under the laws of Redis: once a dispatch has called the engine, no dispatch within the lifetime of the replay record calls
  -- the engine for an event with the same capability, on any tables (a rollback included) and
  -- whatever other capabilities were consumed in between.
  pub capability_calls_once :
      (laws : RedisLaws R b.redis) (event_id other_id now later : ℕ) (db later_db : Db F)
      (o : Outside R) (calls : List EngineCall)
      (between : List (record { token : Text; ttl : ℕ; at : ℕ })) (event other : OutboxEvent)
      → event_by event_id db ≡ some event
      → event_by other_id later_db ≡ some other
      → other.capability_token ≡ event.capability_token
      → later < now + b.replay_ttl_seconds
      → let after = (dispatch_outbox_event b event_id now db o).2 in
        length after.calls ≢ length o.calls
        → let before : Outside R = record {
          replay = consume_all b.redis b.guard_config between after.replay;
          calls = calls;
        } in
          (dispatch_outbox_event b other_id later later_db before).2.calls ≡ calls
  capability_calls_once laws event_id other_id now later db later_db o calls between event other
        is_event is_other same in_time called =
      elim (dispatch-IsAuthorizedCall b event_id now db o) [
        | inl none_made ↦ absurd (called (ap length none_made))
        | inr first ↦
            let after = (dispatch_outbox_event b event_id now db o).2 in
            elim (dispatch-IsAuthorizedCall b other_id later later_db (record {
              replay = consume_all b.redis b.guard_config between after.replay;
              calls = calls;
            })) [
              | inl none_made ↦ none_made
              | inr second ↦
                  let first_event : event ≡ first.event = ground (arith, first.is_event) in
                  let other_event : other ≡ second.event = ground (arith, second.is_event) in
                  let token : second.event.capability_token ≡ first.event.capability_token =
                    ap (λ (e : OutboxEvent). e.capability_token) (sym other_event)
                    ∙ same
                    ∙ ap (λ (e : OutboxEvent). e.capability_token) first_event in
                  let refused =
                    consume_once_refuses b.redis laws b.guard_config first.event.capability_token
                      b.replay_ttl_seconds now later b.replay_ttl_seconds o.replay between
                      first.is_first in_time
                      (lives first.event.capability_token now o first.is_first) in
                  absurd (both_ways later between token first.guarded second.is_first refused)
            ]
      ]
