-- ===== src/Capability/Replay.antt =====
-- src/etl_agent/harness/capability.py: `RedisReplayGuard`. Redis and SHA-256 are parameters; a key
-- set with NX and EX lives for its number of seconds.
use etl_agent.Prelude.{
  ℕ, ◌+◌, ◌<◌, ◌≡◌, Bool, true, false, ◌&&◌, ◌||◌, not, List, [], ◌∷◌, ◌++◌, ltb, ◌==◌,
  if◌then◌else◌, arith, Bool-cases, inl, inr,
}
use etl_agent.Prelude.Text.{text_eq_refl, Text, text_eq}
use etl_agent.Prelude.Result.{Result, ok, err}

-- the command `SET key 1 NX EX ttl` at a time, and the keys that live at a time
pub record Redis (R : Type 0) : Type 0 where
  pub set_nx_ex : Text → ℕ → ℕ → R → Bool × R
  pub live : Text → ℕ → R → Bool

-- what Redis documents: the command succeeds on a key that is not live, and changes that key alone
pub record RedisLaws (R : Type 0) (redis : Redis R) : Type 0 where
  pub set_nx_ex-first :
      (key : Text) (ttl now : ℕ) (r : R)
      → (redis.set_nx_ex key ttl now r).0 ≡ not (redis.live key now r)
  pub live-set_nx_ex :
      (key other : Text) (ttl now later : ℕ) (r : R)
      → redis.live other later (redis.set_nx_ex key ttl now r).1 ≡ (
          redis.live other later r
          || (text_eq key other && not (redis.live key now r) && ltb later (now + ttl)))

pub data GuardError : Type 0 where
  ttl_not_positive : GuardError

pub record ReplayGuardConfig : Type 0 where
  pub key_prefix : Text
  pub sha256_hex : Text → Text

module _ {R : Type 0} (redis : Redis R) (config : ReplayGuardConfig) where
  abbrev pub replay_key : Text → Text
  replay_key token = config.key_prefix ++ (b':' ∷ config.sha256_hex token)

  unfoldable pub consume_once : Text → ℕ → ℕ → R → Result GuardError Bool × R
  consume_once token ttl_seconds now r = if ttl_seconds == 0 then (err ttl_not_positive, r) else (
    ok (redis.set_nx_ex (replay_key token) ttl_seconds now r).0,
    (redis.set_nx_ex (replay_key token) ttl_seconds now r).1,
  )

  -- consumptions of any tokens at any times, one after the other
  unfoldable pub consume_all : List (record { token : Text; ttl : ℕ; at : ℕ }) → R → R
  unfolding consume_once
  consume_all [] r = r
  consume_all (c ∷ cs) r = consume_all cs (consume_once c.token c.ttl c.at r).1

module _ {R : Type 0} (redis : Redis R) (laws : RedisLaws R redis)
    (config : ReplayGuardConfig) where
  consume_once-live :
      (token : Text) (ttl now : ℕ) (r : R) (key : Text) (later : ℕ)
      → redis.live key later r ≡ true
      → redis.live key later (consume_once redis config token ttl now r).1 ≡ true
  unfolding consume_once
  consume_once-live token ttl now r key later h = elim (Bool-cases (ttl == 0)) [
    | inl none_left ↦ rw none_left h
    | inr positive ↦
        rw positive
          (rw (laws.live-set_nx_ex (replay_key redis config token) key ttl now later r, h))
  ]

  consume_all-live :
      (cs : List (record { token : Text; ttl : ℕ; at : ℕ })) (r : R) (key : Text) (later : ℕ)
      → redis.live key later r ≡ true
      → redis.live key later (consume_all redis config cs r) ≡ true
  unfolding consume_all
  consume_all-live [] r key later h = h
  consume_all-live (c ∷ cs) r key later h =
      consume_all-live cs (consume_once redis config c.token c.ttl c.at r).1 key later
        (consume_once-live c.token c.ttl c.at r key later h)

  consumed-live :
      (token : Text) (ttl now later : ℕ) (r : R)
      → (consume_once redis config token ttl now r).0 ≡ ok true
      → later < now + ttl
      → redis.live
          (replay_key redis config token)
          later
          (consume_once redis config token ttl now r).1
        ≡ true
  unfolding consume_once
  consumed-live token ttl now later r first in_time =
      let key = replay_key redis config token in
      ground (
        arith,
        laws.set_nx_ex-first key ttl now r,
        laws.live-set_nx_ex key key ttl now later r,
        text_eq_refl key,
      )

  refused_while_live :
      (token : Text) (ttl now : ℕ) (r : R)
      → redis.live (replay_key redis config token) now r ≡ true
      → 0 < ttl
      → (consume_once redis config token ttl now r).0 ≡ ok false
  unfolding consume_once
  refused_while_live token ttl now r alive positive =
      ground (arith, laws.set_nx_ex-first (replay_key redis config token) ttl now r)

  -- After the first consumption of a token, every later one within the lifetime of its key is
  -- refused, whatever tokens are consumed in between.
  pub consume_once_refuses :
      (token : Text) (ttl now later any_ttl : ℕ) (r : R)
      (between : List (record { token : Text; ttl : ℕ; at : ℕ }))
      → (consume_once redis config token ttl now r).0 ≡ ok true
      → later < now + ttl
      → 0 < any_ttl
      → (consume_once redis config token any_ttl later
          (consume_all redis config between (consume_once redis config token ttl now r).1)).0
        ≡ ok false
  consume_once_refuses token ttl now later any_ttl r between first in_time positive =
      refused_while_live token any_ttl later _
        (consume_all-live between _ (replay_key redis config token) later
          (consumed-live token ttl now later r first in_time))
        positive
