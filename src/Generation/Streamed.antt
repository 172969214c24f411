-- ===== src/Generation/Streamed.antt =====
-- The plan of a run with a callback is that of a run without one.
use etl_agent.Prelude.{ℕ, suc, ◌≡◌, refl, subst, inl, inr, Option, none, some, arith, zero}
use etl_agent.Prelude.Result.{Result-cases, Result, ok, err, ok-injective}
use etl_agent.Float.{FloatOps}
use etl_agent.Domain.{EtlPlan, ValidationIssue}
use etl_agent.Validation.Plan.{Checkers, compile_hocon}
use etl_agent.Workflow.{Node, GenerationState, LlmProvider}
use etl_agent.Workflow.{
  Delta, intent_parse, human_interrupt, profile_enrichment, candidate_generation, schema_validation,
  hocon_compile, deterministic_gate, store_questions, parse_intent, enrich_profile, interrupt,
  generate_candidate, answer_candidate, StructuredGenerationResponse, LlmProviderError,
  store_checked, store_config, compile_optional, compile_plan, pass_gate, count_repair,
}
use etl_agent.Workflow.Run.{finished, run_node, after, invoke, stream}
use etl_agent.Workflow.Loop.{run_node-checked}
use etl_agent.Validation.Plan.{Checked}
use etl_agent.Values.{Value}

module _ {F : Type 0} ⦃fl : FloatOps F⦄ (provider : LlmProvider F) (checkers : Checkers F)
    (max_repairs : ℕ) where
  -- a change that gives states of one plan one plan
  abbrev SamePlan : Delta F → GenerationState F → GenerationState F → Type 0
  SamePlan delta c s = (delta c).plan ≡ (delta s).plan

  candidate-SamePlan :
      (s c : GenerationState F) (r : Result LlmProviderError StructuredGenerationResponse)
      → c.plan ≡ s.plan
      → SamePlan (answer_candidate s r) c s
  unfolding answer_candidate
  candidate-SamePlan s c (ok response) same = same
  candidate-SamePlan s c (err e) same = same

  config-SamePlan :
      (s c : GenerationState F) (r : Result ValidationIssue Value)
      → c.plan ≡ s.plan
      → SamePlan (store_config s r) c s
  unfolding store_config
  config-SamePlan s c (ok config) same = same
  config-SamePlan s c (err e) same = same

  compile-SamePlan :
      (s c : GenerationState F) (o : Option (EtlPlan F))
      → c.plan ≡ s.plan
      → SamePlan (compile_optional checkers s o) c s
  unfolding compile_optional
  compile-SamePlan s c none same = same
  compile-SamePlan s c (some plan) same =
      config-SamePlan s c (compile_hocon checkers plan.hocon) same

  checked-SamePlan : (s c : GenerationState F) (r : Checked F) → SamePlan (store_checked s r) c s
  unfolding store_checked
  checked-SamePlan s c (o, issues) = refl

  run_node-SamePlan :
      (node : Node) (s c : GenerationState F) (delta : Delta F)
      → c.plan ≡ s.plan
      → run_node provider checkers node s ≡ ok delta
      → SamePlan delta c s
  unfolding run_node generate_candidate enrich_profile interrupt pass_gate parse_intent
      store_questions compile_plan count_repair
  run_node-SamePlan intent_parse s c delta same done =
      subst (λ d. SamePlan d c s) (ok-injective done) same
  run_node-SamePlan human_interrupt s c delta same done =
      subst (λ d. SamePlan d c s) (ok-injective done) same
  run_node-SamePlan profile_enrichment s c delta same done =
      subst (λ d. SamePlan d c s) (ok-injective done) same
  run_node-SamePlan candidate_generation s c delta same done =
      subst (λ d. SamePlan d c s) (ok-injective done) (candidate-SamePlan s c _ same)
  run_node-SamePlan schema_validation s c delta same done =
      let (r, checked, stored) = run_node-checked provider checkers max_repairs s delta done in
      subst (λ d. SamePlan d c s) stored (checked-SamePlan s c r)
  run_node-SamePlan hocon_compile s c delta same done =
      subst (λ d. SamePlan d c s) (ok-injective done) (compile-SamePlan s c s.plan same)
  run_node-SamePlan deterministic_gate s c delta same done =
      subst (λ d. SamePlan d c s) (ok-injective done) same
  run_node-SamePlan Node.repair s c delta same done =
      subst (λ d. SamePlan d c s) (ok-injective done) same

  pub stream_plan :
      (limit : ℕ) (o : Option Node) (s c d : GenerationState F)
      → c.plan ≡ s.plan
      → stream provider checkers max_repairs limit o s c ≡ finished d
      → (t : GenerationState F) × (invoke provider checkers max_repairs limit o s ≡ finished t)
        × (d.plan ≡ t.plan)
  unfolding stream invoke
  stream_plan limit none s c d same h = (s, refl, ground (arith, same, h))
  stream_plan zero (some node) s c d same h = absurd (ground arith)
  stream_plan (suc limit) (some node) s c d same h =
      elim (Result-cases (run_node provider checkers node s)) [
        | inr (e, raised) ↦ absurd (ground arith)
        | inl (delta, done) ↦
            let (t, ran, has) =
              stream_plan limit (after max_repairs node (delta s)) (delta s) (delta c) d
                (run_node-SamePlan node s c delta same done) (ground arith) in
            (t, rw (invoke, done) ran, has)
      ]
