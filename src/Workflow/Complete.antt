-- ===== src/Workflow/Complete.antt =====
-- What a result of the generation workflow says of its plan.
use etl_agent.Prelude.{
  ℕ, ◌≡◌, ◌≢◌, refl, sym, ap, subst, ◌⊎◌, inl, inr, false, Option, none, some, List, [], ◌∷◌, ltb,
  arith, Bool-cases,
}
use etl_agent.Prelude.Result.{Result, ok, err, ok-injective}
use etl_agent.Float.{FloatOps}
use etl_agent.Validation.Plan.{Checkers, Checked, compile_hocon, validate_plan_payload}
use etl_agent.Domain.{ClarificationQuestion, EtlPlan, GenerationRequest}
use etl_agent.Values.{Value}
use etl_agent.Workflow.{
  StructuredGenerationResponse, candidate_value, LlmProviderError, Status, Node, GenerationState,
  LlmProvider, Delta, has_terminal_validation_issue, parse_intent, enrich_profile, interrupt,
  generate_candidate, compile_plan, pass_gate, count_repair, intent_parse, human_interrupt,
  profile_enrichment, candidate_generation, schema_validation, hocon_compile, deterministic_gate,
  completed,
}
use etl_agent.Workflow.Run.{
  status_or_failed, run_node, after, invoke, run_generation_workflow, resume, GenerationResult,
  generation_result_of, default_limit, repair_or_stop,
}
use etl_agent.Workflow.Loop.{Holds, invoke-Post, run_node-checked, returned-ok}
use etl_agent.Workflow.{
  store_checked, store_config, answer_candidate, compile_optional, store_questions,
}
use etl_agent.Validation.Accept.{validate_plan_payload_accepts}
use etl_agent.Validation.Plan.{parse_plan_payload}
use etl_agent.Validation.Gate.{IsSafe}

status_or_failed-completed :
    (o : Option Status) → status_or_failed o ≡ completed → o ≡ some completed
status_or_failed-completed (some s) h = ap some h
status_or_failed-completed none h = absurd (ground arith)

request-resume :
    {F : Type 0} (kept : Option (GenerationState F)) (request : GenerationRequest F)
    → (resume kept request).request ≡ request
request-resume none request = refl
request-resume (some state) request = refl

module _ {F : Type 0} ⦃fl : FloatOps F⦄ (provider : LlmProvider F) (checkers : Checkers F)
    (max_repairs : ℕ) (request : GenerationRequest F) where
  -- The plan is one that the checks let pass.
  abbrev HasPlan : GenerationState F → Type 0
  HasPlan s =
      (plan : EtlPlan F) × (payload : Value) × (s.plan ≡ some plan)
      × (s.validation_issues ≡ [])
      × (validate_plan_payload checkers payload request ≡ ok (some plan, []))

  abbrev NoPlan : GenerationState F → Type 0
  NoPlan s = s.plan ≡ none

  abbrev IsCompleted : GenerationState F → Type 0
  IsCompleted s = s.status ≡ some completed

  abbrev Decides : Node → GenerationState F → Type 0
  Decides hocon_compile s = HasPlan s
  Decides deterministic_gate s = HasPlan s
  Decides human_interrupt s = NoPlan s × ¬ IsCompleted s
  Decides schema_validation s = Unit
  Decides _ s = NoPlan s

  abbrev Decided : GenerationState F → Type 0
  Decided s = (IsCompleted s × HasPlan s) ⊎ ((¬ IsCompleted s) × NoPlan s)

  abbrev Asked : (GenerationState F → Type 0) → GenerationState F → Type 0
  Asked P s = (s.request ≡ request) × P s

  abbrev Next : Node → GenerationState F → Delta F → Type 0
  Next node s delta =
      Holds (λ node. Asked (Decides node)) (Asked Decided) (after max_repairs node (delta s))
        (delta s)

  repair_or_stop-Decides :
      (s : GenerationState F)
      → Asked NoPlan s
      → ¬ IsCompleted s
      → Asked (Decides (repair_or_stop max_repairs s)) s
  repair_or_stop-Decides s (same, empty) undone =
      elim (Bool-cases (has_terminal_validation_issue s)) [
        | inl ends ↦ rw ends (same, (empty, undone))
        | inr retries ↦ elim (Bool-cases (ltb s.repair_count max_repairs)) [
          | inl more ↦ rw (retries, more) (same, empty)
          | inr over ↦ rw (retries, over) (same, (empty, undone))
        ]
      ]

  questions-Decides :
      (s : GenerationState F) (questions : List ClarificationQuestion)
      → Asked NoPlan s
      → Next intent_parse s (store_questions questions s)
  unfolding after store_questions
  questions-Decides s [] (same, empty) = (same, empty)
  questions-Decides s (q ∷ questions) (same, empty) =
      (same, (empty, λ wrong. absurd (ground arith)))

  candidate-Decides :
      (s : GenerationState F) (r : Result LlmProviderError StructuredGenerationResponse)
      → Asked NoPlan s
      → Next candidate_generation s (answer_candidate s r)
  unfolding after answer_candidate
  candidate-Decides s (ok response) (same, empty) = (same, tt)
  candidate-Decides s (err e) (same, empty) = (same, inr ((λ wrong. absurd (ground arith)), empty))

  checked-Decides :
      (s : GenerationState F) (payload : Value) (c : Checked F)
      → validate_plan_payload checkers payload request ≡ ok c
      → s.request ≡ request
      → Next schema_validation s (store_checked s c)
  unfolding after store_checked
  checked-Decides s payload (some plan, issues) checked same =
      let clean =
        ((validate_plan_payload_accepts checkers payload request plan issues).0 checked).0 in
      (
        same,
        (
          plan,
          payload,
          refl,
          clean,
          subst (λ is. validate_plan_payload checkers payload request ≡ ok (some plan, is)) clean
              checked,
        ),
      )
  checked-Decides s payload (none, issues) checked same =
      repair_or_stop-Decides (store_checked s (none, issues) s) (same, refl)
        (λ wrong. absurd (ground arith))

  config-Decides :
      (s : GenerationState F) (config : Value)
      → Asked HasPlan s
      → Next hocon_compile s (store_config s (ok config))
  unfolding after store_config
  config-Decides s config h = h

  compile-Decides :
      (s : GenerationState F) → Asked HasPlan s → Next hocon_compile s (compile_plan checkers s)
  unfolding compile_plan compile_optional
  compile-Decides s (same, (plan, payload, has, clean, checked)) =
      let (none_left, parsed, (config, compiled), safe) =
        (validate_plan_payload_accepts checkers payload request plan []).0 checked in
      subst (λ o. Next hocon_compile s (compile_optional checkers s o)) (sym has)
        (subst (λ r. Next hocon_compile s (store_config s r)) (sym compiled)
          (config-Decides s config (same, (plan, payload, has, clean, checked))))

  gate-Decides : (s : GenerationState F) → Asked HasPlan s → Next deterministic_gate s (pass_gate s)
  unfolding after pass_gate
  gate-Decides s (same, (plan, payload, has, clean, checked)) =
      rw clean (same, inl (refl, (plan, payload, has, refl, checked)))

  run_node-Decides :
      (node : Node) (s : GenerationState F) (delta : Delta F)
      → Asked (Decides node) s
      → run_node provider checkers node s ≡ ok delta
      → Next node s delta
  unfolding run_node generate_candidate after enrich_profile interrupt parse_intent count_repair
  run_node-Decides intent_parse s delta h done =
      subst (Next intent_parse s) (ok-injective done) (questions-Decides s _ h)
  run_node-Decides human_interrupt s delta (same, (empty, undone)) done =
      subst (Next human_interrupt s) (ok-injective done) (same, inr (undone, empty))
  run_node-Decides profile_enrichment s delta h done =
      subst (Next profile_enrichment s) (ok-injective done) h
  run_node-Decides candidate_generation s delta h done =
      subst (Next candidate_generation s) (ok-injective done) (candidate-Decides s _ h)
  run_node-Decides schema_validation s delta (same, u) done =
      let (c, checked, stored) = run_node-checked provider checkers max_repairs s delta done in
      subst (Next schema_validation s) stored (
        checked-Decides s (candidate_value s.raw_candidate) c
          (subst (λ r. validate_plan_payload checkers (candidate_value s.raw_candidate) r ≡ ok c)
            same checked)
          same)
  run_node-Decides hocon_compile s delta h done =
      subst (Next hocon_compile s) (ok-injective done) (compile-Decides s h)
  run_node-Decides deterministic_gate s delta h done =
      subst (Next deterministic_gate s) (ok-injective done) (gate-Decides s h)
  run_node-Decides Node.repair s delta h done = subst (Next Node.repair s) (ok-injective done) h

  -- the plan of a result, if it has one
  abbrev Describes : GenerationResult F → Type 0
  Describes result =
      ((result.status ≡ completed)
        × (result.validation_issues ≡ [])
        × ((plan : EtlPlan F) × (payload : Value) × (result.plan ≡ some plan)
            × (parse_plan_payload checkers payload ≡ ok (some plan, []))
            × ((config : Value) × (compile_hocon checkers plan.hocon ≡ ok config))
            × IsSafe plan request))
      ⊎ ((result.status ≢ completed) × (result.plan ≡ none))

  Decided-Describes : (s : GenerationState F) → Decided s → Describes (generation_result_of s)
  Decided-Describes s (inl (done, (plan, payload, has, clean, checked))) =
      let (none_left, parsed, compiled, safe) =
        (validate_plan_payload_accepts checkers payload request plan []).0 checked in
      inl (rw done refl, clean, (plan, payload, has, parsed, compiled, safe))
  Decided-Describes s (inr (undone, empty)) =
      inr (λ ends. undone (status_or_failed-completed s.status ends), empty)

  -- Where the thread keeps no plan, a result without a callback either is completed, without issues, and
  -- then its plan is one that some candidate parses to, whose HOCON compiles, and that is safe for the
  -- request; or it is not completed and has no plan.
  pub run_generation_workflow_plan :
      (kept : Option (GenerationState F)) (result : GenerationResult F)
      → (resume kept request).plan ≡ none
      → run_generation_workflow provider checkers max_repairs request kept false ≡ ok result
      → ((result.status ≡ completed)
          × (result.validation_issues ≡ [])
          × ((plan : EtlPlan F) × (payload : Value) × (result.plan ≡ some plan)
              × (parse_plan_payload checkers payload ≡ ok (some plan, []))
              × ((config : Value) × (compile_hocon checkers plan.hocon ≡ ok config))
              × IsSafe plan request))
        ⊎ ((result.status ≢ completed) × (result.plan ≡ none))
  unfolding run_generation_workflow
  run_generation_workflow_plan kept result empty h =
      let s = resume kept request in
      let (t, done, same) =
        returned-ok (invoke provider checkers max_repairs default_limit (some intent_parse) s) h in
      subst Describes same (
        Decided-Describes t
          (invoke-Post provider checkers max_repairs (λ node. Asked (Decides node)) (Asked Decided)
            run_node-Decides default_limit (some intent_parse) s t
            (request-resume kept request, empty) done).1)
