-- ===== src/Ledger/Chain.antt =====
-- The ledger of a project is a hash chain, and appending keeps it one.
use etl_agent.Prelude.{
  inl, inr, sym, Bool-cases, refl, subst, ==_iff, length, ℕ, suc, ◌+◌, ◌≡◌, refl, some, List, [],
  ◌∷◌, ◌++◌, ◌==◌, if◌then◌else◌, length, arith, sym, inl, inr, Bool-cases, ==_iff,
}
use etl_agent.Prelude.Text.{Text}
use etl_agent.Ledger.{
  EventFacts, Evidence, EvidenceLedgerEvent, Hasher, in_project, newest, next_number, hash_before,
  new_event, append_evidence_event,
}

-- the facts of an event, as its hash covers them
abbrev pub facts_of : EvidenceLedgerEvent → EventFacts
facts_of e = record {
  previous_hash = e.prev_event_hash;
  sequence_number = e.sequence_number;
  event_type = e.event_type;
  resource_type = e.resource_type;
  resource_id = e.resource_id;
  actor_id = e.actor_id;
  correlation_id = e.correlation_id;
  payload_digest = e.payload_digest;
}

module _ (h : Hasher) where
  -- The events are numbered from `number` on, the first points back at `before`, each of the others
  -- at the hash of the one above it, and every stored hash is that of the stored facts.
  abbrev pub IsChain : ℕ → Text → List EvidenceLedgerEvent → Type 0
  IsChain number before [] = Unit
  IsChain number before (e ∷ es) =
      (e.sequence_number ≡ number)
      × (e.prev_event_hash ≡ before)
      × (e.payload_digest ≡ h.digest_payload e.payload)
      × (e.event_hash ≡ h.digest_event (facts_of e))
      × IsChain (suc number) e.event_hash es

  -- the hash at the end of a chain
  abbrev pub end_hash : Text → List EvidenceLedgerEvent → Text
  end_hash before [] = before
  end_hash before (e ∷ es) = end_hash e.event_hash es

  -- a ledger is good for a project if the project's events are a chain from the genesis hash
  abbrev pub IsLedger : ℕ → List EvidenceLedgerEvent → Type 0
  IsLedger project_id ledger = IsChain 1 h.genesis_hash (in_project project_id ledger)

  -- the newest event stands at the end of the chain
  newest-chain :
      (number : ℕ) (before : Text) (e : EvidenceLedgerEvent) (es : List EvidenceLedgerEvent)
      → IsChain number before (e ∷ es)
      → (f : EvidenceLedgerEvent) × (newest (e ∷ es) ≡ some f)
        × (f.sequence_number ≡ number + length es)
        × (f.event_hash ≡ end_hash before (e ∷ es))
  unfolding newest
  newest-chain number before e [] c = (e, refl, omega (arith, c.0), refl)
  newest-chain number before e (g ∷ es) c =
      let (f, is_newest, numbered, hashed) = newest-chain (suc number) e.event_hash g es c.4 in
      (f, rw is_newest (ground (arith, c.0)), omega arith, hashed)

  pub next-chain :
      (before : Text) (es : List EvidenceLedgerEvent)
      → IsChain 1 before es
      → before ≡ h.genesis_hash
      → (next_number (newest es) ≡ 1 + length es) × (hash_before h (newest es) ≡ end_hash before es)
  next-chain before [] c b = unfold newest in (omega arith, sym b)
  next-chain before (e ∷ es) c b =
      let (f, is_newest, numbered, hashed) = newest-chain 1 before e es c in
      (rw is_newest (omega arith), rw is_newest hashed)

  IsChain-append :
      (number : ℕ) (before : Text) (es : List EvidenceLedgerEvent) (e : EvidenceLedgerEvent)
      → IsChain number before es
      → e.sequence_number ≡ number + length es
      → e.prev_event_hash ≡ end_hash before es
      → e.payload_digest ≡ h.digest_payload e.payload
      → e.event_hash ≡ h.digest_event (facts_of e)
      → IsChain number before (es ++ e ∷ [])
  IsChain-append number before [] e c n p d x = (omega arith, p, d, x, tt)
  IsChain-append number before (g ∷ es) e c n p d x =
      (c.0, c.1, c.2, c.3, IsChain-append (suc number) g.event_hash es e c.4 (omega arith) p d x)

  pub in_project-append :
      (project_id : ℕ) (es : List EvidenceLedgerEvent) (e : EvidenceLedgerEvent)
      → in_project project_id (es ++ e ∷ []) ≡ (
          if e.project_id == project_id
          then in_project project_id es ++ e ∷ []
          else in_project project_id es)
  unfolding in_project
  in_project-append project_id [] e = ground arith
  in_project-append project_id (g ∷ es) e = ground (arith, in_project-append project_id es e)

  abbrev pub added : ℕ → Evidence → List EvidenceLedgerEvent → EvidenceLedgerEvent
  added project_id e ledger = new_event h project_id e (newest (in_project project_id ledger))

  IsChain-added :
      (project_id : ℕ) (e : Evidence) (ledger : List EvidenceLedgerEvent)
      → IsLedger project_id ledger
      → IsChain 1 h.genesis_hash (in_project project_id ledger ++ added project_id e ledger ∷ [])
  unfolding new_event
  IsChain-added project_id e ledger c =
      let (number, hash) = next-chain h.genesis_hash (in_project project_id ledger) c refl in
      IsChain-append 1 h.genesis_hash (in_project project_id ledger) (added project_id e ledger) c
        number hash refl refl

  -- Appending evidence keeps the ledger of every project a chain from the genesis hash: the new
  -- event is numbered after the last one of its project and points back at its hash.
  pub append_evidence_event-IsLedger :
      (project_id other : ℕ) (e : Evidence) (ledger : List EvidenceLedgerEvent)
      → IsLedger project_id ledger
      → IsLedger other ledger
      → IsLedger other (append_evidence_event h project_id e ledger)
  unfolding append_evidence_event
  append_evidence_event-IsLedger project_id other e ledger mine theirs =
      let new = added project_id e ledger in
      rw (in_project-append other ledger new) (elim (Bool-cases (project_id == other)) [
        | inl same ↦ rw same (
            subst (λ o. IsChain 1 h.genesis_hash (in_project o ledger ++ new ∷ []))
              ((==_iff project_id other).0 same) (IsChain-added project_id e ledger mine))
        | inr differs ↦ rw differs theirs
      ])
