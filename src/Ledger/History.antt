-- ===== src/Ledger/History.antt =====
-- What the hash of a new event says about the events before it.
use etl_agent.Ledger.Chain.{
  next-chain, in_project-append, end_hash, IsLedger, added, IsChain, facts_of,
}
use native.Mathlib.Decide.{ℕ_discrete}
use mathlib.Core.Bool.{false≢true}
use etl_agent.Prelude.{
  eq_iff, str_eq, String, inl, inr, sym, ◌∙◌, ap, Bool-cases, refl, ◌≢◌, ◌⊎◌, length, map, ℕ, suc,
  ◌≡◌, refl, List, [], ◌∷◌, ◌++◌, ◌≢◌, length, arith, ap, sym, ◌∙◌, inl, inr, Bool-cases,
}
use etl_agent.Prelude.Text.{Text}
use etl_agent.Ledger.{
  EventFacts, Evidence, EvidenceLedgerEvent, Hasher, in_project, new_event, append_evidence_event,
}

String-discrete : Discrete String
String-discrete s t = elim (Bool-cases (str_eq s t)) [
  | inl e ↦ yes ((eq_iff s t).0 e)
  | inr e ↦ no (λ p. false≢true (sym e ∙ (eq_iff s t).1 p))
]

EventFacts-discrete : Discrete EventFacts
EventFacts-discrete = hlevel (ℕ_discrete, String-discrete)

module _ (h : Hasher) where
  -- two events show a collision of the hash function
  abbrev pub Collide : EvidenceLedgerEvent → EvidenceLedgerEvent → Type 0
  Collide e f =
      (facts_of e ≢ facts_of f) × (h.digest_event (facts_of e) ≡ h.digest_event (facts_of f))

  -- the events at some place of two lists do
  abbrev pub CollideAt : List EvidenceLedgerEvent → List EvidenceLedgerEvent → Type 0
  CollideAt (e ∷ es) (f ∷ fs) = Collide e f ⊎ CollideAt es fs
  CollideAt _ _ = ⊥

  same_facts :
      (e f : EvidenceLedgerEvent)
      → e.event_hash ≡ h.digest_event (facts_of e)
      → f.event_hash ≡ h.digest_event (facts_of f)
      → e.event_hash ≡ f.event_hash
      → (facts_of e ≡ facts_of f) ⊎ Collide e f
  same_facts e f he hf hh = elim (EventFacts-discrete (facts_of e) (facts_of f)) [
    | yes p ↦ inl p
    | no p ↦ inr (p, cc)
  ]

  -- Chains of one length with one end hold the same facts, unless two of their events collide.
  chain_end_determines :
      (number : ℕ) (before before' : Text) (es fs : List EvidenceLedgerEvent)
      → IsChain h number before es
      → IsChain h number before' fs
      → length es ≡ length fs
      → end_hash h before es ≡ end_hash h before' fs
      → ((before ≡ before') × (map facts_of es ≡ map facts_of fs)) ⊎ CollideAt es fs
  chain_end_determines number before before' [] [] ce cf l e = inl (e, refl)
  chain_end_determines number before before' [] (f ∷ fs) ce cf l e = absurd (omega arith)
  chain_end_determines number before before' (g ∷ es) [] ce cf l e = absurd (omega arith)
  chain_end_determines number before before' (g ∷ es) (f ∷ fs) ce cf l e =
      elim (chain_end_determines (suc number) g.event_hash f.event_hash es fs ce.4 cf.4
        (omega arith) e) [
          | inr collision ↦ inr (inr collision)
          | inl (hashes, rest) ↦ elim (same_facts g f ce.3 cf.3 hashes) [
            | inr collision ↦ inr (inl collision)
            | inl same ↦
                inl
                  (cc (ce.1, cf.1, ap (λ (x : EventFacts). x.previous_hash) same), cc (same, rest))
          ]
        ]

  facts-append :
      (es : List EvidenceLedgerEvent) (e : EvidenceLedgerEvent)
      → map facts_of (es ++ e ∷ []) ≡ map facts_of es ++ facts_of e ∷ []
  facts-append [] e = refl
  facts-append (g ∷ es) e = ap (λ rest. facts_of g ∷ rest) (facts-append es e)

  appended :
      (project_id : ℕ) (e : Evidence) (ledger : List EvidenceLedgerEvent)
      → in_project project_id (append_evidence_event h project_id e ledger)
        ≡ in_project project_id ledger ++ added h project_id e ledger ∷ []
  unfolding append_evidence_event
  appended project_id e ledger =
      rw (in_project-append h project_id ledger (added h project_id e ledger)) (ground arith)

  -- ledgers whose next events would have the same facts
  same_history :
      (project_id : ℕ) (e f : Evidence) (l m : List EvidenceLedgerEvent)
      → IsLedger h project_id l
      → IsLedger h project_id m
      → facts_of (added h project_id e l) ≡ facts_of (added h project_id f m)
      → (map facts_of (in_project project_id l) ≡ map facts_of (in_project project_id m))
        ⊎ CollideAt (in_project project_id l) (in_project project_id m)
  unfolding new_event
  same_history project_id e f l m cl cm same =
      let (number, hash) = next-chain h h.genesis_hash (in_project project_id l) cl refl in
      let (number', hash') = next-chain h h.genesis_hash (in_project project_id m) cm refl in
      let numbers = ap (λ (x : EventFacts). x.sequence_number) same in
      let hashes = ap (λ (x : EventFacts). x.previous_hash) same in
      elim (chain_end_determines 1 h.genesis_hash h.genesis_hash (in_project project_id l)
        (in_project project_id m) cl cm (omega (arith, number, number', numbers))
        (sym hash ∙ hashes ∙ hash')) [
          | inl (starts, facts) ↦ inl facts
          | inr collision ↦ inr collision
        ]

  -- If evidence is appended for a project to two ledgers that are good for it, and the two new events
  -- have the same hash, then after that the two ledgers hold the same facts on the project, in the same
  -- order; or the two new events, or the old events at one place of the project's two chains, have
  -- different facts with one digest.
  pub append_evidence_event_determines :
      (project_id : ℕ) (e f : Evidence) (l m : List EvidenceLedgerEvent)
      → IsLedger h project_id l
      → IsLedger h project_id m
      → (added h project_id e l).event_hash ≡ (added h project_id f m).event_hash
      → (map facts_of (in_project project_id (append_evidence_event h project_id e l))
          ≡ map facts_of (in_project project_id (append_evidence_event h project_id f m)))
        ⊎ (Collide (added h project_id e l) (added h project_id f m)
            ⊎ CollideAt (in_project project_id l) (in_project project_id m))
  unfolding new_event
  append_evidence_event_determines project_id e f l m cl cm hashes =
      elim (same_facts (added h project_id e l) (added h project_id f m) refl refl hashes) [
        | inr collision ↦ inr (inl collision)
        | inl same ↦ elim (same_history project_id e f l m cl cm same) [
          | inr collision ↦ inr (inr collision)
          | inl facts ↦
              let left = facts-append (in_project project_id l) (added h project_id e l) in
              let right = facts-append (in_project project_id m) (added h project_id f m) in
              inl (
                ap (map facts_of) (appended project_id e l)
                ∙ left
                ∙ cc (facts, same)
                ∙ sym right
                ∙ sym (ap (map facts_of) (appended project_id f m)))
        ]
      ]
