-- ===== src/Tests/Harness.antt =====
-- Runs of the policy decision and of the evidence ledger.
use etl_agent.Prelude.Dict.{null}
use etl_agent.Float.{ratio_ops, ratio_laws, float_lt, Ratio}
use etl_agent.Tests.Data.{sample_hasher}
use etl_agent.Prelude.{List, refl, ◌∷◌, is_empty, ◌⊎◌, ◌↔◌, true, false, map, ◌≤◌, ◌≡◌, [], some}
use etl_agent.Domain.{default_budget, cap_runtime_budget, RuntimeBudget}
use etl_agent.Policy.Laws.{
  required_roles_level, cap_runtime_budget_bounds, over_default, decide_policy_level,
}
use etl_agent.Policy.{
  is_sensitive, p2, is_restricted, p0, p3, confidential, is_production, etl_execute, decide_policy,
  PolicyInput,
}
use etl_agent.Prelude.Text.{codes}
use etl_agent.Ledger.Chain.{facts_of, IsLedger, added, append_evidence_event-IsLedger}
use etl_agent.Ledger.History.{append_evidence_event_determines, Collide, CollideAt}
use etl_agent.Ledger.{
  newest, new_event, compute_event_hash, in_project, EvidenceLedgerEvent, append_evidence_event,
  Evidence,
}

abbrev evidence : Evidence
evidence = record {
  event_type = "execution.committed";
  resource_type = "execution_run";
  resource_id = 50;
  actor_id = some 4;
  correlation_id = "r";
  payload = [];
}

append_evidence_event-IsLedger_example :
    IsLedger sample_hasher 5 (append_evidence_event sample_hasher 5 evidence [])
unfolding in_project
append_evidence_event-IsLedger_example =
    append_evidence_event-IsLedger sample_hasher 5 5 evidence [] tt tt

-- the same event with another payload, of the same digest
abbrev other_evidence : Evidence
other_evidence = record evidence { payload = ("status", null) ∷ [] }

abbrev ledger_with : Evidence → List EvidenceLedgerEvent
ledger_with e = append_evidence_event sample_hasher 5 e []

append_evidence_event_determines_example :
    (map facts_of
        (in_project 5 (append_evidence_event sample_hasher 5 evidence (ledger_with evidence)))
      ≡ map facts_of (
          in_project 5
            (append_evidence_event sample_hasher 5 other_evidence (ledger_with other_evidence))))
    ⊎ (Collide sample_hasher
          (added sample_hasher 5 evidence (ledger_with evidence))
          (added sample_hasher 5 other_evidence (ledger_with other_evidence))
        ⊎ CollideAt sample_hasher
            (in_project 5 (ledger_with evidence))
            (in_project 5 (ledger_with other_evidence)))
unfolding new_event compute_event_hash append_evidence_event in_project newest
append_evidence_event_determines_example =
    append_evidence_event_determines sample_hasher 5 evidence other_evidence (ledger_with evidence)
      (ledger_with other_evidence) (refl, refl, refl, refl, tt) (refl, refl, refl, refl, tt) refl

abbrev restricted_input : PolicyInput Ratio
restricted_input = record {
  tool_intent = etl_execute;
  environment = codes "Prod";
  data_classification = confidential;
  writes_target = true;
  runtime_budget = cap_runtime_budget default_budget default_budget;
}

abbrev LevelTable : PolicyInput Ratio → Type 0
LevelTable input =
    let r = (decide_policy input).risk_level in
    let production = is_production input.environment in
    ((r ≡ p3) ↔ (
      (is_restricted input.data_classification ≡ true)
      ⊎ ((production ≡ true) ⊎ (over_default input ≡ true))))
    × ((r ≡ p2) ↔ (
        (input.data_classification ≡ confidential)
        × (production ≡ false)
        × (over_default input ≡ false)))
    × ((r ≡ p0) ↔ (
        (input.writes_target ≡ false)
        × (is_sensitive input.data_classification ≡ false)
        × (production ≡ false)
        × (over_default input ≡ false)))

decide_policy_level_example : LevelTable restricted_input
decide_policy_level_example = decide_policy_level restricted_input

required_roles_level_example :
    let d = decide_policy restricted_input in
    ((d.risk_level ≡ p0) ↔ (is_empty d.required_roles ≡ true))
    × (((d.risk_level ≡ p2) ⊎ (d.risk_level ≡ p3))
        ↔ (d.required_roles ≡ "checker_1" ∷ "checker_2" ∷ []))
required_roles_level_example = required_roles_level restricted_input

abbrev big_budget : RuntimeBudget Ratio
big_budget = record {
  max_input_records = 20000000;
  max_output_bytes = 1;
  max_runtime_seconds = 90000;
  max_output_amplification = record { num = 50; den = 1 };
  max_rejection_rate = record { num = 1; den = 100 };
}

abbrev Within : RuntimeBudget Ratio → RuntimeBudget Ratio → RuntimeBudget Ratio → Type 0
Within b requested maximum =
    (b.max_input_records ≤ maximum.max_input_records)
    × (b.max_output_bytes ≤ maximum.max_output_bytes)
    × (b.max_runtime_seconds ≤ maximum.max_runtime_seconds)
    × (float_lt maximum.max_output_amplification b.max_output_amplification ≡ false)
    × (float_lt maximum.max_rejection_rate b.max_rejection_rate ≡ false)
    × (b.max_input_records ≤ requested.max_input_records)
    × (b.max_output_bytes ≤ requested.max_output_bytes)
    × (b.max_runtime_seconds ≤ requested.max_runtime_seconds)

cap_runtime_budget_bounds_example :
    Within (cap_runtime_budget big_budget default_budget) big_budget default_budget
cap_runtime_budget_bounds_example = cap_runtime_budget_bounds ratio_laws big_budget default_budget
