-- ===== src/Workflow/Loop.antt =====
-- Invariants along the runs of the generation graph, and how long the runs are.
use etl_agent.Prelude.{ℕ, suc, ◌≡◌, refl, subst, inl, inr, Option, none, some, arith, zero}
use etl_agent.Prelude.Result.{ok-injective, >>=-eq-ok, Result-cases, ok}
use etl_agent.Float.{FloatOps}
use etl_agent.Validation.Plan.{validate_plan_payload, Checked, Checkers}
use etl_agent.Workflow.{
  store_checked, candidate_value, schema_validation, validate_schema, Node, GenerationState,
  LlmProvider, Delta,
}
use etl_agent.Workflow.Run.{
  crashed, generation_result_of, returned, GenerationResult, Run, recursion_limit, finished,
  run_node, after, invoke, stream,
}

-- What holds of the state where the run is at a node, or at its end.
abbrev pub Holds :
    {F : Type 0}
    → (Node → GenerationState F → Type 0)
    → (GenerationState F → Type 0)
    → Option Node
    → GenerationState F
    → Type 0
Holds Inv Post none state = Post state
Holds Inv Post (some node) state = Inv node state

pub finished-injective : {F : Type 0} {s t : GenerationState F} → finished s ≡ finished t → s ≡ t
finished-injective h = ground arith

pub returned-ok :
    {F : Type 0} (r : Run F) {result : GenerationResult F}
    → returned r ≡ ok result
    → (s : GenerationState F) × (r ≡ finished s) × (generation_result_of s ≡ result)
returned-ok (finished s) h = (s, refl, ok-injective h)
returned-ok (crashed e) h = absurd (ground arith)
returned-ok recursion_limit h = absurd (ground arith)

module _ {F : Type 0} ⦃fl : FloatOps F⦄ (provider : LlmProvider F) (checkers : Checkers F)
    (max_repairs : ℕ) where
  module _ (Inv : Node → GenerationState F → Type 0) (Post : GenerationState F → Type 0)
      (kept : (node : Node) (s : GenerationState F) (delta : Delta F)
        → Inv node s
        → run_node provider checkers node s ≡ ok delta
        → Holds Inv Post (after max_repairs node (delta s)) (delta s)) where
    pub invoke-Post :
        (limit : ℕ) (o : Option Node) (s t : GenerationState F)
        → Holds Inv Post o s
        → invoke provider checkers max_repairs limit o s ≡ finished t
        → Post t
    unfolding invoke
    invoke-Post limit none s t now h = subst Post (finished-injective h) now
    invoke-Post zero (some node) s t now h = absurd (ground arith)
    invoke-Post (suc limit) (some node) s t now h =
        elim (Result-cases (run_node provider checkers node s)) [
          | inr (e, raised) ↦ absurd (ground arith)
          | inl (delta, done) ↦
              invoke-Post limit (after max_repairs node (delta s)) (delta s) t
                (kept node s delta now done) (ground arith)
        ]

  pub run_node-checked :
      (s : GenerationState F) (delta : Delta F)
      → run_node provider checkers schema_validation s ≡ ok delta
      → (c : Checked F) × (validate_plan_payload checkers
            (candidate_value s.raw_candidate)
            s.request
          ≡ ok c)
        × (store_checked s c ≡ delta)
  unfolding run_node validate_schema
  run_node-checked s delta done =
      let (c, checked, stored) =
        >>=-eq-ok (validate_plan_payload checkers (candidate_value s.raw_candidate) s.request)
          (λ c. ok (store_checked s c)) done in
      (c, checked, ok-injective stored)

  pub stream-limit :
      (limit : ℕ) (o : Option Node) (s collected : GenerationState F)
      → stream provider checkers max_repairs limit o s collected ≡ recursion_limit
      → invoke provider checkers max_repairs limit o s ≡ recursion_limit
  unfolding stream invoke
  stream-limit limit none s collected h = absurd (ground arith)
  stream-limit zero (some node) s collected h = refl
  stream-limit (suc limit) (some node) s collected h =
      elim (Result-cases (run_node provider checkers node s)) [
        | inr (e, raised) ↦ absurd (ground arith)
        | inl (delta, done) ↦
            rw (invoke, done)
              (stream-limit limit (after max_repairs node (delta s)) (delta s) (delta collected)
                (ground arith))
      ]
