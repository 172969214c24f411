-- ===== src/Workflow/Calls.antt =====
-- How many calls of the language model a run of the generation graph makes.
use etl_agent.Workflow.Recorded.{invoke-calls, calls, length-change_last, length-append-one}
use etl_agent.Prelude.{
  ℕ, suc, ◌+◌, ◌≤◌, ◌<◌, ◌≡◌, subst, inl, inr, false, Option, none, some, List, [], ◌∷◌, ltb,
  length, if◌then◌else◌, arith, Bool-cases, ◌-◌, max,
}
use etl_agent.Prelude.Result.{Result, ok, err, ok-injective}
use etl_agent.Float.{FloatOps}
use etl_agent.Validation.Plan.{Checkers, Checked, compile_hocon}
use etl_agent.Domain.{ClarificationQuestion, EtlPlan, GenerationRequest, ValidationIssue}
use etl_agent.Values.{Value}
use etl_agent.Workflow.{
  gate_status, StructuredGenerationResponse, LlmProviderError, Node, GenerationState, LlmProvider,
  Delta, has_terminal_validation_issue, parse_intent, enrich_profile, interrupt, generate_candidate,
  compile_plan, pass_gate, count_repair, intent_parse, human_interrupt, profile_enrichment,
  candidate_generation, schema_validation, hocon_compile, deterministic_gate, completed,
}
use etl_agent.Workflow.Run.{
  is_status, finished, run_node, after, invoke, run_generation_workflow, resume, GenerationResult,
  default_limit, repair_or_stop,
}
use etl_agent.Workflow.Loop.{returned-ok, Holds, invoke-Post, run_node-checked}
use etl_agent.Workflow.{
  store_checked, store_config, answer_candidate, compile_optional, store_questions,
}

module _ {F : Type 0} ⦃fl : FloatOps F⦄ (provider : LlmProvider F) (checkers : Checkers F)
    (max_repairs bound most : ℕ) (covers : max_repairs ≤ most) where
  -- the attempts and the repairs that are left
  abbrev spent : GenerationState F → ℕ
  spent s = length s.attempts + (max_repairs - s.repair_count)

  abbrev Within : ℕ → GenerationState F → Type 0
  Within limit s = (spent s ≤ limit) × (s.repair_count ≤ most)

  -- Before a call one attempt more is left than after it.
  abbrev Spends : Node → GenerationState F → Type 0
  Spends intent_parse s = Within bound s
  Spends profile_enrichment s = Within bound s
  Spends candidate_generation s = Within bound s
  Spends Node.repair s = Within (suc bound) s × (s.repair_count < max_repairs)
  Spends _ s = Within (suc bound) s

  abbrev Next : Node → GenerationState F → Delta F → Type 0
  Next node s delta = Holds Spends (Within (suc bound)) (after max_repairs node (delta s)) (delta s)

  repair_or_stop-Spends :
      (s : GenerationState F) → Within (suc bound) s → Spends (repair_or_stop max_repairs s) s
  repair_or_stop-Spends s h = elim (Bool-cases (has_terminal_validation_issue s)) [
    | inl ends ↦ rw ends h
    | inr retries ↦ elim (Bool-cases (ltb s.repair_count max_repairs)) [
      | inl more ↦ rw (retries, more) (h, ground arith)
      | inr over ↦ rw (retries, over) h
    ]
  ]

  questions-Spends :
      (s : GenerationState F) (questions : List ClarificationQuestion)
      → Within bound s
      → Next intent_parse s (store_questions questions s)
  unfolding after store_questions
  questions-Spends s [] (few, low) = (few, low)
  questions-Spends s (q ∷ questions) (few, low) = (omega (arith, few), low)

  candidate-Spends :
      (s : GenerationState F) (r : Result LlmProviderError StructuredGenerationResponse)
      → Within bound s
      → Next candidate_generation s (answer_candidate s r)
  unfolding after answer_candidate
  candidate-Spends s (ok response) (few, low) =
      (omega (arith, few, length-append-one s.attempts _), low)
  candidate-Spends s (err e) (few, low) = (omega (arith, few, length-append-one s.attempts _), low)

  checked-Spends :
      (s : GenerationState F) (c : Checked F)
      → Within (suc bound) s
      → Next schema_validation s (store_checked s c)
  unfolding after store_checked
  checked-Spends s (some plan, issues) (few, low) =
      (omega (arith, few, length-change_last _ s.attempts), low)
  checked-Spends s (none, issues) (few, low) =
      repair_or_stop-Spends (store_checked s (none, issues) s)
        (omega (arith, few, length-change_last _ s.attempts), low)

  config-Spends :
      (s : GenerationState F) (c : Result ValidationIssue Value)
      → Within (suc bound) s
      → Next hocon_compile s (store_config s c)
  unfolding after store_config
  config-Spends s (ok config) h = h
  config-Spends s (err e) h = h

  compile-Spends :
      (s : GenerationState F) (o : Option (EtlPlan F))
      → Within (suc bound) s
      → Next hocon_compile s (compile_optional checkers s o)
  unfolding after compile_optional
  compile-Spends s none h = h
  compile-Spends s (some plan) h = config-Spends s (compile_hocon checkers plan.hocon) h

  gate_end :
      (s : GenerationState F) (issues : List ValidationIssue)
      → Within (suc bound) s
      → Holds Spends
          (Within (suc bound))
          (if is_status (gate_status issues) completed
            then none
            else some (repair_or_stop max_repairs s))
          s
  gate_end s [] h = h
  gate_end s (i ∷ issues) h = repair_or_stop-Spends s h

  repair-Spends :
      (s : GenerationState F) → Spends Node.repair s → Next Node.repair s (count_repair s)
  unfolding after count_repair
  repair-Spends s ((few, low), more) = (omega (arith, few, more), omega (arith, more, covers))

  run_node-Spends :
      (node : Node) (s : GenerationState F) (delta : Delta F)
      → Spends node s
      → run_node provider checkers node s ≡ ok delta
      → Next node s delta
  unfolding run_node generate_candidate after enrich_profile interrupt pass_gate parse_intent
      compile_plan
  run_node-Spends intent_parse s delta h done =
      subst (Next intent_parse s) (ok-injective done) (questions-Spends s _ h)
  run_node-Spends human_interrupt s delta h done =
      subst (Next human_interrupt s) (ok-injective done) h
  run_node-Spends profile_enrichment s delta h done =
      subst (Next profile_enrichment s) (ok-injective done) h
  run_node-Spends candidate_generation s delta h done =
      subst (Next candidate_generation s) (ok-injective done) (candidate-Spends s _ h)
  run_node-Spends schema_validation s delta h done =
      let (c, checked, stored) = run_node-checked provider checkers max_repairs s delta done in
      subst (Next schema_validation s) stored (checked-Spends s c h)
  run_node-Spends hocon_compile s delta h done =
      subst (Next hocon_compile s) (ok-injective done) (compile-Spends s s.plan h)
  run_node-Spends deterministic_gate s delta h done =
      subst (Next deterministic_gate s) (ok-injective done)
        (gate_end (pass_gate s s) s.validation_issues h)
  run_node-Spends Node.repair s delta h done =
      subst (Next Node.repair s) (ok-injective done) (repair-Spends s h)

  -- the invariant along a run from its start
  invoke-Within :
      (limit : ℕ) (s t : GenerationState F)
      → Within bound s
      → invoke provider checkers max_repairs limit (some intent_parse) s ≡ finished t
      → Within (suc bound) t
  invoke-Within limit s t h =
      invoke-Post provider checkers max_repairs Spends (Within (suc bound)) run_node-Spends limit
        (some intent_parse) s t h

module _ {F : Type 0} ⦃fl : FloatOps F⦄ (provider : LlmProvider F) (checkers : Checkers F)
    (max_repairs : ℕ) where
  -- A run of the workflow without a callback that returns a result has called the language model at
  -- most once for each repair that the thread has left, and once more; its result has the attempts
  -- that the thread keeps, and as many more as there were calls. Its count of repairs is at most the
  -- number allowed, or that of the thread if it is larger.
  pub run_generation_workflow_calls :
      (request : GenerationRequest F) (kept : Option (GenerationState F))
      (result : GenerationResult F)
      → run_generation_workflow provider checkers max_repairs request kept false ≡ ok result
      → let s = resume kept request in
        let called = calls provider checkers max_repairs default_limit (some intent_parse) s in
        (called ≤ (max_repairs - s.repair_count) + 1)
        × (length result.attempts ≡ length s.attempts + called)
        × (result.repair_count ≤ max s.repair_count max_repairs)
  unfolding run_generation_workflow
  run_generation_workflow_calls request kept result h =
      let s = resume kept request in
      let called = calls provider checkers max_repairs default_limit (some intent_parse) s in
      let (t, done, same) =
        returned-ok (invoke provider checkers max_repairs default_limit (some intent_parse) s) h in
      let (few, low) =
        invoke-Within provider checkers max_repairs
          (length s.attempts + (max_repairs - s.repair_count)) (max s.repair_count max_repairs)
          (omega arith) default_limit s t (omega arith, omega arith) done in
      let recorded =
        invoke-calls provider checkers max_repairs default_limit (some intent_parse) s t done in
      let now : called ≤ (max_repairs - s.repair_count) + 1 = omega (arith, few, recorded) in
      (
        now,
        subst (λ (r : GenerationResult F). length r.attempts ≡ length s.attempts + called) same
            recorded,
        subst (λ (r : GenerationResult F). r.repair_count ≤ max s.repair_count max_repairs) same
            low,
      )
