-- ===== src/Policy/Laws.antt =====
-- The policy decision against its description, and what a capped budget means for it.
use etl_agent.Prelude.{
  Bool-cases, inl, inr, ap, ◌≤◌, ◌≡◌, ◌↔◌, ◌⊎◌, Bool, true, false, [], ◌∷◌, is_empty, arith,
}
use etl_agent.Float.{float_min, FloatOps, FloatLaws, float_lt, int_div}
use etl_agent.Domain.{RuntimeBudget, default_budget, cap_runtime_budget}
use etl_agent.Policy.{
  PolicyInput, p0, p2, p3, confidential, is_sensitive, is_restricted, is_production, decide_policy,
  roles_for,
}

module _ {F : Type 0} ⦃fl : FloatOps F⦄ where
  -- the rule on the output amplification
  abbrev pub over_default : PolicyInput F → Bool
  over_default input = float_lt (int_div 10 1) input.runtime_budget.max_output_amplification

  -- The decision is P3 exactly for restricted data, a production environment or an output
  -- amplification over 10; P2 exactly for confidential data with neither of the last two; and P0
  -- exactly for an operation that writes nothing, on data that is not sensitive, with neither.
  pub decide_policy_level :
      (input : PolicyInput F)
      → let r = (decide_policy input).risk_level in
        let production = is_production input.environment in
        ((r ≡ p3) ↔ (
          (is_restricted input.data_classification ≡ true)
          ⊎ ((production ≡ true) ⊎ (over_default input ≡ true))))
        × ((r ≡ p2) ↔ (
            (input.data_classification ≡ confidential)
            × (production ≡ false)
            × (over_default input ≡ false)))
        × ((r ≡ p0) ↔ (
            (input.writes_target ≡ false)
            × (is_sensitive input.data_classification ≡ false)
            × (production ≡ false)
            × (over_default input ≡ false)))
  unfolding decide_policy
  decide_policy_level input = ground arith

  -- A decision asks for no approval slot exactly when its level is P0, and for the slot of each
  -- checker from P2 on.
  pub required_roles_level :
      (input : PolicyInput F)
      → let d = decide_policy input in
        ((d.risk_level ≡ p0) ↔ (is_empty d.required_roles ≡ true))
        × (((d.risk_level ≡ p2) ⊎ (d.risk_level ≡ p3))
            ↔ (d.required_roles ≡ "checker_1" ∷ "checker_2" ∷ []))
  unfolding decide_policy roles_for
  required_roles_level input = ground arith

module _ {F : Type 0} ⦃fl : FloatOps F⦄ (laws : FloatLaws F fl) where
  float_min-le : (a b : F) → float_lt b (float_min a b) ≡ false
  float_min-le a b = elim (Bool-cases (float_lt b a)) [
    | inl less ↦ rw less (laws.lt_irrefl b)
    | inr not_less ↦ rw not_less not_less
  ]

  -- A capped budget exceeds no bound of the server's budget, and no number that was requested.
  pub cap_runtime_budget_bounds :
      (requested maximum : RuntimeBudget F)
      → let b = cap_runtime_budget requested maximum in
        (b.max_input_records ≤ maximum.max_input_records)
        × (b.max_output_bytes ≤ maximum.max_output_bytes)
        × (b.max_runtime_seconds ≤ maximum.max_runtime_seconds)
        × (float_lt maximum.max_output_amplification b.max_output_amplification ≡ false)
        × (float_lt maximum.max_rejection_rate b.max_rejection_rate ≡ false)
        × (b.max_input_records ≤ requested.max_input_records)
        × (b.max_output_bytes ≤ requested.max_output_bytes)
        × (b.max_runtime_seconds ≤ requested.max_runtime_seconds)
  unfolding cap_runtime_budget
  cap_runtime_budget_bounds r m = (
    omega arith,
    omega arith,
    omega arith,
    float_min-le r.max_output_amplification m.max_output_amplification,
    float_min-le r.max_rejection_rate m.max_rejection_rate,
    omega arith,
    omega arith,
    omega arith,
  )

  -- a budget capped by the defaults
  pub over_default_capped :
      (requested : RuntimeBudget F) (input : PolicyInput F)
      → input.runtime_budget ≡ cap_runtime_budget requested default_budget
      → over_default input ≡ false
  unfolding cap_runtime_budget default_budget
  over_default_capped r input e =
      rw (ap (λ (b : RuntimeBudget F). b.max_output_amplification) e)
        (float_min-le r.max_output_amplification (int_div 10 1))
