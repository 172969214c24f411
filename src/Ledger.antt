-- ===== src/Ledger.antt =====
-- src/etl_agent/harness/ledger.py: the evidence ledger, a hash chain for each project. The digests
-- (canonical JSON, then SHA-256) are the parameter `Hasher`. The ledger is the table in the order of
-- insertion; the lock on the last row makes an append atomic.
pub mod Chain
pub mod History
use etl_agent.Prelude.Dict.{Dict, Json}
use etl_agent.Prelude.{
  ℕ, suc, ◌+◌, String, Bool, Option, none, some, List, [], ◌∷◌, ◌++◌, ◌==◌, leb, if◌then◌else◌,
  keep,
}
use etl_agent.Prelude.Text.{Text}

-- the fields that `compute_event_hash` puts into its payload
pub record EventFacts : Type 0 where
  pub previous_hash : Text
  pub sequence_number : ℕ
  pub event_type : String
  pub resource_type : String
  pub resource_id : ℕ
  pub actor_id : Option ℕ
  pub correlation_id : String
  pub payload_digest : Text

-- what a caller records; its payload is a JSON object
pub record Evidence : Type 0 where
  pub event_type : String
  pub resource_type : String
  pub resource_id : ℕ
  pub actor_id : Option ℕ
  pub correlation_id : String
  pub payload : Dict Json

pub record EvidenceLedgerEvent : Type 0 where
  pub project_id : ℕ
  pub sequence_number : ℕ
  pub event_type : String
  pub resource_type : String
  pub resource_id : ℕ
  pub actor_id : Option ℕ
  pub correlation_id : String
  pub payload : Dict Json
  pub payload_digest : Text
  pub prev_event_hash : Text
  pub event_hash : Text

pub record Hasher : Type 0 where
  pub digest_payload : Dict Json → Text
  pub digest_event : EventFacts → Text
  pub genesis_hash : Text

unfoldable pub in_project : ℕ → List EvidenceLedgerEvent → List EvidenceLedgerEvent
in_project project_id = keep (λ e. e.project_id == project_id)

abbrev pub newer : EvidenceLedgerEvent → Option EvidenceLedgerEvent → Option EvidenceLedgerEvent
newer e none = some e
newer e (some f) = if leb e.sequence_number f.sequence_number then some f else some e

-- `order_by(desc(sequence_number)).limit(1)`
unfoldable pub newest : List EvidenceLedgerEvent → Option EvidenceLedgerEvent
newest [] = none
newest (e ∷ es) = newer e (newest es)

abbrev pub next_number : Option EvidenceLedgerEvent → ℕ
next_number none = 1
next_number (some e) = e.sequence_number + 1

module _ (h : Hasher) where
  abbrev pub hash_before : Option EvidenceLedgerEvent → Text
  hash_before none = h.genesis_hash
  hash_before (some e) = e.event_hash

  unfoldable pub compute_event_hash :
      Text → ℕ → String → String → ℕ → Option ℕ → String → Text → Text
  compute_event_hash previous_hash sequence_number event_type resource_type resource_id actor_id
        correlation_id payload_digest =
      h.digest_event (record {
        previous_hash = previous_hash;
        sequence_number = sequence_number;
        event_type = event_type;
        resource_type = resource_type;
        resource_id = resource_id;
        actor_id = actor_id;
        correlation_id = correlation_id;
        payload_digest = payload_digest;
      })

  unfoldable pub new_event : ℕ → Evidence → Option EvidenceLedgerEvent → EvidenceLedgerEvent
  unfolding compute_event_hash
  new_event project_id e previous =
      let number = next_number previous in
      let before = hash_before previous in
      let digest = h.digest_payload e.payload in
      record {
        project_id = project_id;
        sequence_number = number;
        event_type = e.event_type;
        resource_type = e.resource_type;
        resource_id = e.resource_id;
        actor_id = e.actor_id;
        correlation_id = e.correlation_id;
        payload = e.payload;
        payload_digest = digest;
        prev_event_hash = before;
        event_hash =
            compute_event_hash before number e.event_type e.resource_type e.resource_id e.actor_id
              e.correlation_id digest;
      }

  unfoldable pub append_evidence_event :
      ℕ → Evidence → List EvidenceLedgerEvent → List EvidenceLedgerEvent
  unfolding new_event
  append_evidence_event project_id e ledger =
      ledger ++ new_event project_id e (newest (in_project project_id ledger)) ∷ []
