-- ===== src/Services.antt =====
-- What the handlers take from outside: keys and settings (src/etl_agent/config.py), the digest
-- functions, the request, and the fresh ids that `uuid4` returns.
use etl_agent.Prelude.{ℕ, String, Option, List}
use etl_agent.Prelude.Text.{Text}
use etl_agent.Capability.{Codec}
use etl_agent.Ledger.{Hasher}
use etl_agent.Policy.{PolicyInput}

pub record Services (F PrivateKey PublicKey : Type 0) : Type 0 where
  pub codec : Codec PrivateKey PublicKey
  pub hasher : Hasher
  pub sha256_hex : Text → Text
  -- SHA-256 of the canonical JSON of an artifact digest, profile fingerprints and a policy input
  pub fingerprint_digest : String → List Text → PolicyInput F → Text
  pub uuid_text : ℕ → Text
  -- a list of texts as JSON
  pub json_texts : List Text → Text
  -- `none` if the key file cannot be loaded
  pub private_key : Option PrivateKey
  pub capability_ttl_seconds : ℕ
  pub preparation_ttl_seconds : ℕ

pub record Request : Type 0 where
  pub user : ℕ
  pub now : ℕ
  pub correlation_id : String
  -- the header Idempotency-Key, empty if it is missing
  pub idempotency_key : Text
  pub fresh_execution : ℕ
  pub fresh_event : ℕ
  pub fresh_jti : ℕ
  pub fresh_suffix : ℕ
  pub fresh_preparation : ℕ
  -- the ids of new approval slots, in order
  pub fresh_slot : ℕ → ℕ
