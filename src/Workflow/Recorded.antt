-- ===== src/Workflow/Recorded.antt =====
-- The calls of the language model along a run of the generation graph, and the attempts recorded.
use Prim.Native.Nat.{zero}
use etl_agent.Prelude.{
  ◌∙◌, sym, ap, ℕ, suc, ◌+◌, ◌≡◌, refl, subst, inl, inr, Option, none, some, List, [], ◌∷◌, ◌++◌,
  length, arith,
}
use etl_agent.Prelude.Result.{Result-cases, Result, ok, err, ok-injective}
use etl_agent.Float.{FloatOps}
use etl_agent.Validation.Plan.{Checkers, Checked, compile_hocon}
use etl_agent.Domain.{ClarificationQuestion, EtlPlan}
use etl_agent.Workflow.{
  missing_questions, StructuredGenerationResponse, LlmProviderError, Node, Attempt, GenerationState,
  LlmProvider, Delta, parse_intent, enrich_profile, interrupt, generate_candidate, compile_plan,
  pass_gate, count_repair, intent_parse, human_interrupt, profile_enrichment, candidate_generation,
  schema_validation, hocon_compile, deterministic_gate, change_last,
}
use etl_agent.Workflow.Run.{finished, run_node, after, invoke}
use etl_agent.Workflow.Loop.{finished-injective, run_node-checked}
use etl_agent.Workflow.{
  store_checked, store_config, answer_candidate, compile_optional, store_questions,
}

pub length-append-one : {A : Type 0} (xs : List A) (x : A) → length (xs ++ x ∷ []) ≡ suc (length xs)
length-append-one [] x = refl
length-append-one (y ∷ xs) x = ground (arith, length-append-one xs x)

pub length-change_last :
    (change : Attempt → Attempt) (xs : List Attempt) → length (change_last change xs) ≡ length xs
unfolding change_last
length-change_last change [] = refl
length-change_last change (a ∷ []) = refl
length-change_last change (a ∷ b ∷ rest) = ground (arith, length-change_last change (b ∷ rest))

-- the calls of the language model that a node makes
abbrev pub calls_of : Node → ℕ
calls_of candidate_generation = 1
calls_of _ = 0

module _ {F : Type 0} ⦃fl : FloatOps F⦄ (provider : LlmProvider F) (checkers : Checkers F)
    (max_repairs : ℕ) where
  -- the calls of the language model on the run from a node, with the steps of `invoke`
  unfoldable pub calls : ℕ → Option Node → GenerationState F → ℕ
  unfolding run_node after
  calls limit none state = 0
  calls zero (some node) state = 0
  calls (suc limit) (some node) state =
      calls_of node + elim (run_node provider checkers node state) [
        | err e ↦ 0
        | ok delta ↦ calls limit (after max_repairs node (delta state)) (delta state)
      ]

  -- a node records an attempt for each call
  abbrev Records : Node → GenerationState F → Delta F → Type 0
  Records node s delta = length (delta s).attempts ≡ length s.attempts + calls_of node

  questions-Records :
      (s : GenerationState F) (questions : List ClarificationQuestion)
      → Records intent_parse s (store_questions questions s)
  unfolding store_questions
  questions-Records s [] = omega arith
  questions-Records s (q ∷ questions) = omega arith

  candidate-Records :
      (s : GenerationState F) (r : Result LlmProviderError StructuredGenerationResponse)
      → Records candidate_generation s (answer_candidate s r)
  unfolding answer_candidate
  candidate-Records s (ok response) = omega (arith, length-append-one s.attempts _)
  candidate-Records s (err e) = omega (arith, length-append-one s.attempts _)

  checked-Records :
      (s : GenerationState F) (c : Checked F) → Records schema_validation s (store_checked s c)
  unfolding store_checked
  checked-Records s (some plan, issues) = omega (arith, length-change_last _ s.attempts)
  checked-Records s (none, issues) = omega (arith, length-change_last _ s.attempts)

  compile-Records :
      (s : GenerationState F) (o : Option (EtlPlan F))
      → Records hocon_compile s (compile_optional checkers s o)
  unfolding compile_optional store_config
  compile-Records s none = omega arith
  compile-Records s (some plan) = elim (Result-cases (compile_hocon checkers plan.hocon)) [
    | inl (config, compiled) ↦ rw compiled (omega arith)
    | inr (e, refused) ↦ rw refused (omega arith)
  ]

  run_node-Records :
      (node : Node) (s : GenerationState F) (delta : Delta F)
      → run_node provider checkers node s ≡ ok delta
      → Records node s delta
  unfolding run_node generate_candidate enrich_profile interrupt pass_gate parse_intent compile_plan
      count_repair
  run_node-Records intent_parse s delta done =
      subst (Records intent_parse s) (ok-injective done)
        (questions-Records s (missing_questions s.request))
  run_node-Records human_interrupt s delta done =
      subst (Records human_interrupt s) (ok-injective done) (omega arith)
  run_node-Records profile_enrichment s delta done =
      subst (Records profile_enrichment s) (ok-injective done) (omega arith)
  run_node-Records candidate_generation s delta done =
      subst (Records candidate_generation s) (ok-injective done) (candidate-Records s _)
  run_node-Records schema_validation s delta done =
      let (c, checked, stored) = run_node-checked provider checkers max_repairs s delta done in
      subst (Records schema_validation s) stored (checked-Records s c)
  run_node-Records hocon_compile s delta done =
      subst (Records hocon_compile s) (ok-injective done) (compile-Records s s.plan)
  run_node-Records deterministic_gate s delta done =
      subst (Records deterministic_gate s) (ok-injective done) (omega arith)
  run_node-Records Node.repair s delta done =
      subst (Records Node.repair s) (ok-injective done) (omega arith)

  pub invoke-calls :
      (limit : ℕ) (o : Option Node) (s t : GenerationState F)
      → invoke provider checkers max_repairs limit o s ≡ finished t
      → length t.attempts ≡ length s.attempts + calls limit o s
  unfolding invoke calls
  invoke-calls limit none s t h =
      ap (λ (u : GenerationState F). length u.attempts) (sym (finished-injective h)) ∙ omega arith
  invoke-calls zero (some node) s t h = absurd (ground arith)
  invoke-calls (suc limit) (some node) s t h =
      elim (Result-cases (run_node provider checkers node s)) [
        | inr (e, raised) ↦ absurd (ground arith)
        | inl (delta, done) ↦
            let next = after max_repairs node (delta s) in
            let rest = invoke-calls limit next (delta s) t (ground arith) in
            let here = run_node-Records node s delta done in
            rw (calls, done) (omega (arith, rest, here))
      ]
