-- ===== src/Workflow/Bounds.antt =====
-- How many steps a run of the generation graph takes.
use etl_agent.Workflow.Loop.{run_node-checked}
use etl_agent.Prelude.{
  ℕ, suc, ◌+◌, ◌*◌, ◌≤◌, ◌<◌, ◌≡◌, ◌≢◌, subst, inl, inr, Option, none, some, List, [], ◌∷◌, ltb,
  if◌then◌else◌, arith, Bool-cases, ◌-◌, zero,
}
use etl_agent.Prelude.Result.{Result-cases, Result, ok, err, ok-injective}
use etl_agent.Float.{FloatOps}
use etl_agent.Validation.Plan.{Checkers, Checked, compile_hocon}
use etl_agent.Domain.{ClarificationQuestion, EtlPlan, ValidationIssue}
use etl_agent.Values.{Value}
use etl_agent.Workflow.{
  gate_status, missing_questions, store_questions, compile_optional, StructuredGenerationResponse,
  LlmProviderError, Node, GenerationState, LlmProvider, Delta, has_terminal_validation_issue,
  enrich_profile, generate_candidate, validate_schema, pass_gate, count_repair, intent_parse,
  human_interrupt, profile_enrichment, candidate_generation, schema_validation, hocon_compile,
  deterministic_gate, completed,
}
use etl_agent.Workflow.Run.{is_status, recursion_limit, run_node, after, invoke, repair_or_stop}
use etl_agent.Workflow.{store_checked, store_config, answer_candidate}

-- the steps from a node to the end, with some repairs left
abbrev pub steps : ℕ → Node → ℕ
steps left intent_parse = 5 * left + 7
steps left profile_enrichment = 5 * left + 6
steps left candidate_generation = 5 * left + 5
steps left schema_validation = 5 * left + 4
steps left hocon_compile = 5 * left + 3
steps left deterministic_gate = 5 * left + 2
steps left Node.repair = 5 * left + 1
steps left human_interrupt = 1

module _ {F : Type 0} ⦃fl : FloatOps F⦄ (provider : LlmProvider F) (checkers : Checkers F)
    (max_repairs : ℕ) where
  -- A repair starts only where one is left.
  abbrev pub Ready : Node → GenerationState F → Type 0
  Ready Node.repair s = s.repair_count < max_repairs
  Ready _ s = Unit

  abbrev pub left : GenerationState F → ℕ
  left s = max_repairs - s.repair_count

  abbrev pub Enough : ℕ → Option Node → GenerationState F → Type 0
  Enough limit none s = Unit
  Enough limit (some node) s = Ready node s × (steps (left s) node ≤ limit)

  repair_or_stop-Enough :
      (limit : ℕ) (s : GenerationState F)
      → 5 * left s + 1 ≤ limit
      → Enough limit (some (repair_or_stop max_repairs s)) s
  repair_or_stop-Enough limit s h = elim (Bool-cases (has_terminal_validation_issue s)) [
    | inl ends ↦ rw ends (tt, omega (arith, h))
    | inr retries ↦ elim (Bool-cases (ltb s.repair_count max_repairs)) [
      | inl more ↦ rw (retries, more) (ground arith, h)
      | inr over ↦ rw (retries, over) (tt, omega (arith, h))
    ]
  ]

  abbrev Next : ℕ → Node → GenerationState F → Delta F → Type 0
  Next limit node s delta = Enough limit (after max_repairs node (delta s)) (delta s)

  candidate-Enough :
      (limit : ℕ) (s : GenerationState F) (r : Result LlmProviderError StructuredGenerationResponse)
      → steps (left s) candidate_generation ≤ suc limit
      → Next limit candidate_generation s (answer_candidate s r)
  unfolding after answer_candidate
  candidate-Enough limit s (ok response) fits = (tt, omega (arith, fits))
  candidate-Enough limit s (err e) fits = tt

  checked-Enough :
      (limit : ℕ) (s : GenerationState F) (c : Checked F)
      → steps (left s) schema_validation ≤ suc limit
      → Next limit schema_validation s (store_checked s c)
  unfolding after store_checked
  checked-Enough limit s (some plan, issues) fits = (tt, omega (arith, fits))
  checked-Enough limit s (none, issues) fits =
      repair_or_stop-Enough limit (store_checked s (none, issues) s) (omega (arith, fits))

  config-Enough :
      (limit : ℕ) (s : GenerationState F) (c : Result ValidationIssue Value)
      → steps (left s) hocon_compile ≤ suc limit
      → Next limit hocon_compile s (store_config s c)
  unfolding after store_config
  config-Enough limit s (ok config) fits = (tt, omega (arith, fits))
  config-Enough limit s (err e) fits = (tt, omega (arith, fits))

  compile-Enough :
      (limit : ℕ) (s : GenerationState F) (o : Option (EtlPlan F))
      → steps (left s) hocon_compile ≤ suc limit
      → Next limit hocon_compile s (compile_optional checkers s o)
  unfolding after compile_optional
  compile-Enough limit s none fits = (tt, omega (arith, fits))
  compile-Enough limit s (some plan) fits =
      config-Enough limit s (compile_hocon checkers plan.hocon) fits

  gate_end :
      (limit : ℕ) (s : GenerationState F) (issues : List ValidationIssue)
      → 5 * left s + 1 ≤ limit
      → Enough limit
          (if is_status (gate_status issues) completed
            then none
            else some (repair_or_stop max_repairs s))
          s
  gate_end limit s [] fits = tt
  gate_end limit s (i ∷ issues) fits = repair_or_stop-Enough limit s fits

  gate-Enough :
      (limit : ℕ) (s : GenerationState F)
      → steps (left s) deterministic_gate ≤ suc limit
      → Next limit deterministic_gate s (pass_gate s)
  unfolding after pass_gate
  gate-Enough limit s fits =
      gate_end limit (pass_gate s s) s.validation_issues (omega (arith, fits))

  intent-Enough :
      (limit : ℕ) (s : GenerationState F) (questions : List ClarificationQuestion)
      → steps (left s) intent_parse ≤ suc limit
      → Next limit intent_parse s (store_questions questions s)
  unfolding after store_questions
  intent-Enough limit s [] fits = (tt, omega (arith, fits))
  intent-Enough limit s (q ∷ questions) fits = (tt, omega (arith, fits))

  repair-Enough :
      (limit : ℕ) (s : GenerationState F)
      → s.repair_count < max_repairs
      → steps (left s) Node.repair ≤ suc limit
      → Next limit Node.repair s (count_repair s)
  unfolding after count_repair
  repair-Enough limit s more fits = (tt, omega (arith, more, fits))

  enrich-Enough :
      (limit : ℕ) (s : GenerationState F)
      → steps (left s) profile_enrichment ≤ suc limit
      → Next limit profile_enrichment s (enrich_profile s)
  unfolding after enrich_profile
  enrich-Enough limit s fits = (tt, omega (arith, fits))

  steps-positive : (l : ℕ) (node : Node) → steps l node ≤ 0 → ⊥
  steps-positive l intent_parse h = omega (arith, h)
  steps-positive l human_interrupt h = omega (arith, h)
  steps-positive l profile_enrichment h = omega (arith, h)
  steps-positive l candidate_generation h = omega (arith, h)
  steps-positive l schema_validation h = omega (arith, h)
  steps-positive l hocon_compile h = omega (arith, h)
  steps-positive l deterministic_gate h = omega (arith, h)
  steps-positive l Node.repair h = omega (arith, h)

  run_node-Enough :
      (node : Node) (limit : ℕ) (s : GenerationState F) (delta : Delta F)
      → Ready node s
      → steps (left s) node ≤ suc limit
      → run_node provider checkers node s ≡ ok delta
      → Next limit node s delta
  unfolding run_node validate_schema generate_candidate after
  run_node-Enough intent_parse limit s delta ready fits done =
      subst (Next limit intent_parse s) (ok-injective done)
        (intent-Enough limit s (missing_questions s.request) fits)
  run_node-Enough human_interrupt limit s delta ready fits done = tt
  run_node-Enough profile_enrichment limit s delta ready fits done =
      subst (Next limit profile_enrichment s) (ok-injective done) (enrich-Enough limit s fits)
  run_node-Enough candidate_generation limit s delta ready fits done =
      subst (Next limit candidate_generation s) (ok-injective done)
        (candidate-Enough limit s _ fits)
  run_node-Enough schema_validation limit s delta ready fits done =
      let (c, checked, stored) = run_node-checked provider checkers max_repairs s delta done in
      subst (Next limit schema_validation s) stored (checked-Enough limit s c fits)
  run_node-Enough hocon_compile limit s delta ready fits done =
      subst (Next limit hocon_compile s) (ok-injective done) (compile-Enough limit s s.plan fits)
  run_node-Enough deterministic_gate limit s delta ready fits done =
      subst (Next limit deterministic_gate s) (ok-injective done) (gate-Enough limit s fits)
  run_node-Enough Node.repair limit s delta ready fits done =
      subst (Next limit Node.repair s) (ok-injective done) (repair-Enough limit s ready fits)

  -- A run that has a step for every node that it may still visit does not meet the limit.
  pub invoke-ends :
      (limit : ℕ) (o : Option Node) (s : GenerationState F)
      → Enough limit o s
      → invoke provider checkers max_repairs limit o s ≢ recursion_limit
  unfolding invoke
  invoke-ends limit none s enough stuck = absurd (ground arith)
  invoke-ends zero (some node) s (ready, fits) stuck = steps-positive (left s) node fits
  invoke-ends (suc limit) (some node) s (ready, fits) stuck =
      elim (Result-cases (run_node provider checkers node s)) [
        | inr (e, raised) ↦ absurd (ground arith)
        | inl (delta, done) ↦
            invoke-ends limit (after max_repairs node (delta s)) (delta s)
              (run_node-Enough node limit s delta ready fits done) (ground arith)
      ]
