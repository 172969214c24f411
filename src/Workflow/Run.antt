-- ===== src/Workflow/Run.antt =====
-- src/etl_agent/workflows/graph.py: the graph, and `run_generation_workflow` in its two modes. The graph
-- is run by LangGraph, which applies the change of a node to the state that it keeps, goes on along the
-- edges, and stops with an error after its limit of steps.
use etl_agent.Prelude.{
  ℕ, suc, String, Bool, true, false, Option, none, some, List, [], ltb, if◌then◌else◌, is_some,
  zero,
}
use etl_agent.Prelude.Result.{Result, ok, err}
use etl_agent.Float.{FloatOps}
use etl_agent.Validation.{Crash}
use etl_agent.Validation.Plan.{Checkers}
use etl_agent.Domain.{ClarificationQuestion, EtlPlan, GenerationRequest, ValidationIssue}
use etl_agent.Workflow.{
  Status, Node, Attempt, GenerationState, LlmProvider, Delta, has_terminal_validation_issue,
  parse_intent, enrich_profile, interrupt, generate_candidate, validate_schema, compile_plan,
  pass_gate, count_repair, intent_parse, human_interrupt, profile_enrichment, candidate_generation,
  schema_validation, hocon_compile, deterministic_gate, needs_clarification, running,
  candidate_generated, schema_valid, validation_failed, repairing, completed,
}

-- how a run ends
pub data Run (F : Type 0) : Type 0 where
  finished : GenerationState F → Run F
  crashed : Crash → Run F
  recursion_limit : Run F

pub record GenerationResult (F : Type 0) : Type 0 where
  pub status : Status
  pub plan : Option (EtlPlan F)
  pub clarification_questions : List ClarificationQuestion
  pub validation_issues : List ValidationIssue
  pub repair_count : ℕ
  pub node_trace : List Node
  pub attempts : List Attempt
  pub provider : Option String
  pub model : Option String
  pub error_code : Option String

abbrev pub is_status : Status → Status → Bool
is_status needs_clarification needs_clarification = true
is_status running running = true
is_status candidate_generated candidate_generated = true
is_status schema_valid schema_valid = true
is_status validation_failed validation_failed = true
is_status Status.failed Status.failed = true
is_status repairing repairing = true
is_status completed completed = true
is_status _ _ = false

abbrev pub has_status : Option Status → Status → Bool
has_status none s = false
has_status (some t) s = is_status t s

-- LangGraph's default limit of steps
abbrev pub default_limit : ℕ
default_limit = 25

abbrev pub start : {F : Type 0} → GenerationRequest F → GenerationState F
start request = record {
  request = request;
  raw_candidate = none;
  plan = none;
  clarification_questions = [];
  validation_issues = [];
  repair_count = 0;
  node_trace = [];
  attempts = [];
  status = none;
  provider = none;
  model = none;
  error_code = none;
  error_message = none;
  hocon_config = none;
}

-- The input on top of what the thread keeps, `none` for a new thread or without a checkpointer.
abbrev pub resume :
    {F : Type 0} → Option (GenerationState F) → GenerationRequest F → GenerationState F
resume none request = start request
resume (some kept) request = record kept { request = request }

module _ {F : Type 0} ⦃fl : FloatOps F⦄ (provider : LlmProvider F) (checkers : Checkers F) where
  unfoldable pub run_node : Node → GenerationState F → Result Crash (Delta F)
  unfolding parse_intent enrich_profile interrupt generate_candidate validate_schema compile_plan
      pass_gate count_repair
  run_node intent_parse state = ok (parse_intent state)
  run_node human_interrupt state = ok (interrupt state)
  run_node profile_enrichment state = ok (enrich_profile state)
  run_node candidate_generation state = ok (generate_candidate provider state)
  run_node schema_validation state = validate_schema checkers state
  run_node hocon_compile state = ok (compile_plan checkers state)
  run_node deterministic_gate state = ok (pass_gate state)
  run_node Node.repair state = ok (count_repair state)

module _ {F : Type 0} (max_repairs : ℕ) where
  abbrev pub repair_or_stop : GenerationState F → Node
  repair_or_stop state =
      if has_terminal_validation_issue state
      then human_interrupt
      else if ltb state.repair_count max_repairs
      then Node.repair
      else human_interrupt

  -- the node after a node, `none` for the end
  unfoldable pub after : Node → GenerationState F → Option Node
  unfolding has_terminal_validation_issue
  after intent_parse state =
      some (
        if has_status state.status needs_clarification then human_interrupt else profile_enrichment)
  after human_interrupt state = none
  after profile_enrichment state = some candidate_generation
  after candidate_generation state =
      if has_status state.status Status.failed then none else some schema_validation
  after schema_validation state =
      some (if is_some state.plan then hocon_compile else repair_or_stop state)
  after hocon_compile state = some deterministic_gate
  after deterministic_gate state =
      if has_status state.status completed then none else some (repair_or_stop state)
  after Node.repair state = some candidate_generation

module _ {F : Type 0} ⦃fl : FloatOps F⦄ (provider : LlmProvider F) (checkers : Checkers F)
    (max_repairs : ℕ) where
  -- the run from a node
  unfoldable pub invoke : ℕ → Option Node → GenerationState F → Run F
  unfolding run_node after
  invoke limit none state = finished state
  invoke zero (some node) state = recursion_limit
  invoke (suc limit) (some node) state = elim (run_node provider checkers node state) [
    | err e ↦ crashed e
    | ok delta ↦ invoke limit (after max_repairs node (delta state)) (delta state)
  ]

  -- the same, where the changes are collected on a state of the caller's, and handed to the callback
  unfoldable pub stream : ℕ → Option Node → GenerationState F → GenerationState F → Run F
  unfolding run_node after
  stream limit none state collected = finished collected
  stream zero (some node) state collected = recursion_limit
  stream (suc limit) (some node) state collected = elim (run_node provider checkers node state) [
    | err e ↦ crashed e
    | ok delta ↦ stream limit (after max_repairs node (delta state)) (delta state) (delta collected)
  ]

abbrev pub status_or_failed : Option Status → Status
status_or_failed (some s) = s
status_or_failed none = Status.failed

abbrev pub generation_result_of : {F : Type 0} → GenerationState F → GenerationResult F
generation_result_of state = record {
  status = status_or_failed state.status;
  plan = state.plan;
  clarification_questions = state.clarification_questions;
  validation_issues = state.validation_issues;
  repair_count = state.repair_count;
  node_trace = state.node_trace;
  attempts = state.attempts;
  provider = state.provider;
  model = state.model;
  error_code = state.error_code;
}

-- what leaves the workflow in place of a result
pub data WorkflowError : Type 0 where
  crash : Crash → WorkflowError
  graph_recursion_error : WorkflowError

abbrev pub returned : {F : Type 0} → Run F → Result WorkflowError (GenerationResult F)
returned (finished state) = ok (generation_result_of state)
returned (crashed e) = err (crash e)
returned recursion_limit = err graph_recursion_error

module _ {F : Type 0} ⦃fl : FloatOps F⦄ (provider : LlmProvider F) (checkers : Checkers F)
    (max_repairs : ℕ) where
  -- `streamed` is whether there is a callback
  unfoldable pub run_generation_workflow :
      GenerationRequest F
      → Option (GenerationState F)
      → Bool
      → Result WorkflowError (GenerationResult F)
  unfolding invoke stream
  run_generation_workflow request kept false =
      returned (
        invoke provider checkers max_repairs default_limit (some intent_parse)
          (resume kept request))
  run_generation_workflow request kept true = returned (
      stream provider checkers max_repairs default_limit (some intent_parse) (resume kept request)
        (start request))
