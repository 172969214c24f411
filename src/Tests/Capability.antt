-- ===== src/Tests/Capability.antt =====
-- Runs of src/etl_agent/harness/capability.py: a token, and its consumption.
use etl_agent.Prelude.Result.{ok}
use etl_agent.Tests.Data.{sha, sample_claims, sample_codec}
use etl_agent.Capability.Replay.{
  consume_once_refuses, consume_all, consume_once, ReplayGuardConfig, RedisLaws, Redis,
}
use etl_agent.Prelude.{
  ltb, ◌≤◌, ◌&&◌, ◌+◌, ◌<◌, arith, false, true, refl, ◌||◌, not, if◌then◌else◌, any, ◌∷◌, Bool, ◌≡◌,
  [], ℕ, List,
}
use etl_agent.Capability.Laws.{action_capability_lifetime, verify_capability_sound, IsGenuine}
use etl_agent.Capability.{
  encode_part, are_valid_claims, split_dot, issue_valid, decode_part, action_claims, verify_parts,
  issue_capability, CapabilityClaims, issue_execution_action_capability, verify_capability,
}
use etl_agent.Prelude.Text.{text_eq, codes, Text}

abbrev pub token : Text
token = codes "h.c.s"

verifies : verify_capability sample_codec token tt 1000 30 ≡ ok sample_claims
unfolding verify_capability verify_parts decode_part split_dot are_valid_claims
verifies = refl

verify_capability_sound_example :
    IsGenuine sample_codec tt token sample_claims
    × (are_valid_claims sample_claims ≡ true)
    × (1000 < 1300)
    × (1000 ≤ 1030)
verify_capability_sound_example = verify_capability_sound sample_codec token tt 1000 30 verifies

issues :
    issue_execution_action_capability sample_codec tt 1 "seatunnel.submit"
      (codes "staging")
      10
      sha
      300
      90
      1000
    ≡ ok token
unfolding issue_execution_action_capability action_claims issue_valid issue_capability encode_part
    are_valid_claims
issues = refl

abbrev issued : CapabilityClaims
issued = action_claims 1 "seatunnel.submit" (codes "staging") 10 sha 300 90 1000

action_capability_lifetime_example :
    (issue_capability sample_codec issued tt ≡ ok token)
    × (are_valid_claims issued ≡ true)
    × (issued.issued_at + 60 ≤ issued.expires_at)
    × (issued.expires_at ≤ issued.issued_at + 3600)
    × (issued.tool ≡ "seatunnel.submit")
    × (issued.preparation_id ≡ 10)
    × (issued.artifact_digest ≡ sha)
action_capability_lifetime_example =
    action_capability_lifetime sample_codec tt 1 "seatunnel.submit" (codes "staging") 10 sha 300 90
      1000 issues

-- Redis as the list of its keys, each with the end of its life
abbrev pub Keys : Type 0
Keys = List (Text × ℕ)

abbrev pub live_key : Text → ℕ → Keys → Bool
live_key key now keys = any (λ k. text_eq k.0 key && ltb now k.1) keys

abbrev pub set_key : Text → ℕ → ℕ → Keys → Bool × Keys
set_key key ttl now keys =
    if live_key key now keys then (false, keys) else (true, (key, now + ttl) ∷ keys)

abbrev pub sample_redis : Redis Keys
sample_redis = record { set_nx_ex = set_key; live = live_key }

first_set :
    (key : Text) (ttl now : ℕ) (r : Keys) → (set_key key ttl now r).0 ≡ not (live_key key now r)
first_set key ttl now r = ground arith

live_set :
    (key other : Text) (ttl now later : ℕ) (r : Keys)
    → live_key other later (set_key key ttl now r).1 ≡ (
        live_key other later r
        || (text_eq key other && not (live_key key now r) && ltb later (now + ttl)))
live_set key other ttl now later r = ground arith

pub sample_redis_laws : RedisLaws Keys sample_redis
sample_redis_laws = record { set_nx_ex-first = first_set; live-set_nx_ex = live_set }

abbrev pub guard_config : ReplayGuardConfig
guard_config = record { key_prefix = codes "p"; sha256_hex = λ t. t }

consumes : (consume_once sample_redis guard_config token 300 1000 []).0 ≡ ok true
unfolding consume_once
consumes = refl

abbrev pub between : List (record { token : Text; ttl : ℕ; at : ℕ })
between = record { token = codes "x"; ttl = 60; at = 1100 } ∷ []

consume_once_refuses_example :
    (consume_once sample_redis guard_config token 60 1200 (
      consume_all sample_redis guard_config between
        (consume_once sample_redis guard_config token 300 1000 []).1)).0
    ≡ ok false
consume_once_refuses_example =
    consume_once_refuses sample_redis sample_redis_laws guard_config token 300 1000 1200 60 []
      between consumes (omega arith) (omega arith)
