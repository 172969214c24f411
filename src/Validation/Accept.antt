-- ===== src/Validation/Accept.antt =====
-- `validate_plan_payload` returns a plan exactly for what it checks.
use etl_agent.Validation.{normalize_legacy_mapping_transform}
use etl_agent.Domain.{ValidationIssue, EtlPlan, GenerationRequest}
use etl_agent.Validation.Plan.{
  Checked, deterministic_gate, compile_hocon, validate_plan_payload, gated, parse_plan_payload,
  parse_value, parse_object, Checkers,
}
use etl_agent.Prelude.{
  ◌≡◌, refl, sym, ap, subst, ◌↔◌, inl, inr, true, false, none, some, List, [], ◌∷◌, ◌++◌, is_empty,
  arith, Bool-cases, Option-cases,
}
use etl_agent.Prelude.Result.{Result-cases, ok, >>=-eq-ok, ok-injective}
use etl_agent.Float.{FloatOps}
use etl_agent.Validation.Gate.{gate-IsSafe, safe_gate, IsSafe}
use etl_agent.Values.{Fields, Value, null_value, boolean, number_value, text_value, array, object}

empty_list : {A : Type 0} (xs : List A) → is_empty xs ≡ true → xs ≡ []
empty_list [] h = refl
empty_list (x ∷ xs) h = absurd (ground arith)

never_empty : {A : Type 0} (xs : List A) (y : A) (ys : List A) → is_empty (xs ++ y ∷ ys) ≡ false
never_empty [] y ys = refl
never_empty (x ∷ xs) y ys = refl

module _ {F : Type 0} ⦃fl : FloatOps F⦄ (checkers : Checkers F) where
  object_clean :
      (payload : Fields) {plan : EtlPlan F} {issues : List ValidationIssue}
      → parse_object checkers payload ≡ ok (some plan, issues)
      → issues ≡ []
  unfolding parse_object
  object_clean payload h =
      let (n, normal, rest) = >>=-eq-ok (normalize_legacy_mapping_transform payload) _ h in
      elim (Bool-cases (is_empty (checkers.schema_errors n))) [
        | inr some_errors ↦ absurd (ground arith)
        | inl no_errors ↦ elim (Result-cases (checkers.model_validate n)) [
          | inl (p, valid) ↦ ground arith
          | inr (errors, invalid) ↦ absurd (ground arith)
        ]
      ]

  value_clean :
      (payload : Value) {plan : EtlPlan F} {issues : List ValidationIssue}
      → parse_value checkers payload ≡ ok (some plan, issues)
      → issues ≡ []
  unfolding parse_value
  value_clean (object payload) h = object_clean payload h
  value_clean null_value h = absurd (ground arith)
  value_clean (boolean b) h = absurd (ground arith)
  value_clean (number_value n) h = absurd (ground arith)
  value_clean (text_value t) h = absurd (ground arith)
  value_clean (array vs) h = absurd (ground arith)

  parsed_clean :
      (payload : Value) {plan : EtlPlan F} {issues : List ValidationIssue}
      → parse_plan_payload checkers payload ≡ ok (some plan, issues)
      → issues ≡ []
  unfolding parse_plan_payload
  parsed_clean (text_value t) {plan} {issues} h = elim (Option-cases (checkers.loads t)) [
    | inl missing ↦ absurd (ground arith)
    | inr (v, loaded) ↦ value_clean v {plan = plan} {issues = issues} (ground arith)
  ]
  parsed_clean (object payload) h = value_clean (object payload) h
  parsed_clean null_value h = value_clean null_value h
  parsed_clean (boolean b) h = value_clean (boolean b) h
  parsed_clean (number_value n) h = value_clean (number_value n) h
  parsed_clean (array vs) h = value_clean (array vs) h

  abbrev Accepted : GenerationRequest F → EtlPlan F → Type 0
  Accepted request plan =
      ((config : Value) × (compile_hocon checkers plan.hocon ≡ ok config)) × IsSafe plan request

  gated-some :
      (request : GenerationRequest F) (p : EtlPlan F) {plan : EtlPlan F}
      {issues : List ValidationIssue}
      → gated checkers request (some p, []) ≡ (some plan, issues)
      → (p ≡ plan) × (issues ≡ []) × Accepted request p
  unfolding gated
  gated-some request p {plan} {issues} h = elim (Result-cases (compile_hocon checkers p.hocon)) [
    | inl (config, compiled) ↦
        elim (Bool-cases (is_empty (deterministic_gate p request (some config)))) [
          | inl passed ↦
              let all_none = empty_list (deterministic_gate p request (some config)) passed in
              (
                ground (arith, all_none),
                ground (arith, all_none),
                ((config, compiled), gate-IsSafe p request (some config) passed),
              )
          | inr stopped ↦ absurd (ground arith)
        ]
    | inr (e, refused) ↦ absurd (ground arith)
  ]

  passes :
      (request : GenerationRequest F) (plan : EtlPlan F)
      → Accepted request plan
      → gated checkers request (some plan, []) ≡ (some plan, [])
  unfolding gated
  passes request plan ((config, compiled), safe) =
      let passed = safe_gate plan request config safe in
      let all_none = empty_list (deterministic_gate plan request (some config)) passed in
      rw (gated, compiled, all_none)

  checked :
      (payload : Value) (request : GenerationRequest F) (plan : EtlPlan F)
      (issues : List ValidationIssue) (c : Checked F)
      → parse_plan_payload checkers payload ≡ ok c
      → gated checkers request c ≡ (some plan, issues)
      → (issues ≡ [])
        × (parse_plan_payload checkers payload ≡ ok (some plan, []))
        × ((config : Value) × (compile_hocon checkers plan.hocon ≡ ok config))
        × IsSafe plan request
  unfolding gated
  checked payload request plan issues (none, is) parsed h = absurd (ground arith)
  checked payload request plan issues (some p, is) parsed h =
      let clean = parsed_clean payload parsed in
      let (same, no_issues, both) =
        gated-some request p {plan = plan} {issues = issues}
          (subst (λ is. gated checkers request (some p, is) ≡ (some plan, issues)) clean h) in
      (
        no_issues,
        subst (λ q. parse_plan_payload checkers payload ≡ ok (some q, [])) same
            (subst (λ is. parse_plan_payload checkers payload ≡ ok (some p, is)) clean parsed),
        subst (λ (q : EtlPlan F). (config : Value) × (compile_hocon checkers q.hocon ≡ ok config))
            same both.0,
        subst (λ q. IsSafe q request) same both.1,
      )

  accepts :
      (payload : Value) (request : GenerationRequest F) (plan : EtlPlan F)
      (issues : List ValidationIssue)
      → validate_plan_payload checkers payload request ≡ ok (some plan, issues)
      → (issues ≡ [])
        × (parse_plan_payload checkers payload ≡ ok (some plan, []))
        × ((config : Value) × (compile_hocon checkers plan.hocon ≡ ok config))
        × IsSafe plan request
  unfolding validate_plan_payload
  accepts payload request plan issues h =
      let (c, parsed, rest) = >>=-eq-ok (parse_plan_payload checkers payload) _ h in
      checked payload request plan issues c parsed (ok-injective rest)

  accepted :
      (payload : Value) (request : GenerationRequest F) (plan : EtlPlan F)
      → parse_plan_payload checkers payload ≡ ok (some plan, [])
      → Accepted request plan
      → validate_plan_payload checkers payload request ≡ ok (some plan, [])
  unfolding validate_plan_payload
  accepted payload request plan parsed a =
      rw (validate_plan_payload, parsed) (ap ok (passes request plan a))

  -- A candidate is accepted as a plan, with no issue, exactly when it parses to the plan, its HOCON
  -- compiles, and the plan is safe for the request: its profiles and connections are the request's, its
  -- fields are known, its budget is within the server's, and neither the request nor the plan asks for
  -- what the data plane lacks.
  pub validate_plan_payload_accepts :
      (payload : Value) (request : GenerationRequest F) (plan : EtlPlan F)
      (issues : List ValidationIssue)
      → (validate_plan_payload checkers payload request ≡ ok (some plan, issues)) ↔ (
          (issues ≡ [])
          × (parse_plan_payload checkers payload ≡ ok (some plan, []))
          × ((config : Value) × (compile_hocon checkers plan.hocon ≡ ok config))
          × IsSafe plan request)
  validate_plan_payload_accepts payload request plan issues = (
    accepts payload request plan issues,
    λ h.
        subst (λ is. validate_plan_payload checkers payload request ≡ ok (some plan, is)) (sym h.0)
          (accepted payload request plan h.1 (h.2, h.3)),
  )
