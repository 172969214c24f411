-- ===== src/Validation/Gate.antt =====
-- The deterministic gate against a description of the plans that it lets pass.
use etl_agent.Values.{Value}
use etl_agent.Domain.{
  ValidationIssue, GenerationRequest, ConnectionProfileRef, TransformRule, FieldMapping, EtlPlan,
  RuntimeBudget, ProfileContext,
}
use etl_agent.Validation.{at, issue, unsupported_request_markers, requested_marker}
use etl_agent.Validation.Plan.{
  config_issues, target_issues, listed_fields, source_issues, reference_issues, profile_at,
  is_supported, deterministic_gate, budget_issues, transform_issues, feature_issues,
  target_field_issues, source_field_issues, quality_issues, mapping_issues, has_field,
}
use etl_agent.Prelude.{
  ℕ, suc, ◌≤◌, ◌≡◌, refl, sym, ◌∙◌, ◌↔◌, inl, inr, String, Bool, true, false, ◌&&◌, not, Option,
  none, some, List, [], ◌∷◌, ◌++◌, all, map, is_empty, arith, Bool-cases,
}
use etl_agent.Prelude.Text.{Text, codes}
use etl_agent.Float.{FloatOps, float_lt}

is_empty-append {ℓ} :
    {A : Type ℓ} (xs ys : List A) → is_empty (xs ++ ys) ≡ (is_empty xs && is_empty ys)
is_empty-append [] ys = refl
is_empty-append (x ∷ xs) ys = refl

all-append {ℓ} :
    {A : Type ℓ} (p : A → Bool) (xs ys : List A) → all p (xs ++ ys) ≡ (all p xs && all p ys)
all-append p [] ys = refl
all-append p (x ∷ xs) ys = ground (arith, all-append p xs ys)

all_empty :
    {A : Type 0} (a b c d e f g h : List A)
    → is_empty (a ++ b ++ c ++ d ++ e ++ f ++ g ++ h) ≡ (
        is_empty a
        && (is_empty b
            && (is_empty c
                && (is_empty d && (is_empty e && (is_empty f && (is_empty g && is_empty h)))))))
all_empty [] [] [] [] [] [] [] h = refl
all_empty [] [] [] [] [] [] (x ∷ g) h = refl
all_empty [] [] [] [] [] (x ∷ f) g h = refl
all_empty [] [] [] [] (x ∷ e) f g h = refl
all_empty [] [] [] (x ∷ d) e f g h = refl
all_empty [] [] (x ∷ c) d e f g h = refl
all_empty [] (x ∷ b) c d e f g h = refl
all_empty (x ∷ a) b c d e f g h = refl

-- each name is among the listed fields, if any are listed
abbrev all_listed : Option (List String) → List String → Bool
all_listed none names = true
all_listed (some fields) names = all (has_field fields) names

is_empty-mapping_issues :
    (name : FieldMapping → String) (allowed : List String) (code message : String) (n : ℕ)
    (ms : List FieldMapping)
    → is_empty (mapping_issues name allowed code message n ms)
      ≡ all (has_field allowed) (map name ms)
unfolding mapping_issues
is_empty-mapping_issues name allowed code message n [] = refl
is_empty-mapping_issues name allowed code message n (m ∷ ms) =
    ground (arith, is_empty-mapping_issues name allowed code message (suc n) ms)

is_empty-quality_issues :
    (allowed required : List String)
    → is_empty (quality_issues allowed required) ≡ all (has_field allowed) required
unfolding quality_issues
is_empty-quality_issues allowed [] = refl
is_empty-quality_issues allowed (f ∷ fs) = ground (arith, is_empty-quality_issues allowed fs)

is_empty-source_field_issues :
    (o : Option (List String)) (ms : List FieldMapping)
    → is_empty (source_field_issues o ms)
      ≡ all_listed o (map (λ (m : FieldMapping). m.source_field) ms)
unfolding source_field_issues
is_empty-source_field_issues none ms = refl
is_empty-source_field_issues (some allowed) ms =
    is_empty-mapping_issues (λ m. m.source_field) allowed "SOURCE_FIELD_NOT_FOUND" "映射引用了不存在的源字段" 0
      ms

is_empty-target_field_issues :
    (o : Option (List String)) (ms : List FieldMapping) (required : List String)
    → is_empty (target_field_issues o ms required)
      ≡ all_listed o (map (λ (m : FieldMapping). m.target_field) ms ++ required)
unfolding target_field_issues
is_empty-target_field_issues none ms required = refl
is_empty-target_field_issues (some allowed) ms required =
    rw
      (
        is_empty-append
            (mapping_issues (λ (m : FieldMapping). m.target_field) allowed "TARGET_FIELD_NOT_FOUND"
              "映射引用了不存在的目标字段" 0 ms)
            (quality_issues allowed required),
        is_empty-mapping_issues (λ (m : FieldMapping). m.target_field) allowed
            "TARGET_FIELD_NOT_FOUND" "映射引用了不存在的目标字段" 0 ms,
        is_empty-quality_issues allowed required,
        all-append (has_field allowed) (map (λ (m : FieldMapping). m.target_field) ms) required,
      )
      refl

abbrev pub is_unrequested : Text → String × String → Bool
is_unrequested request marker = not (requested_marker request (codes marker.0))

is_empty-feature_issues :
    (request : Text) (markers : List (String × String))
    → is_empty (feature_issues request markers) ≡ all (is_unrequested request) markers
unfolding feature_issues
is_empty-feature_issues request [] = refl
is_empty-feature_issues request ((marker, feature) ∷ rest) =
    elim (Bool-cases (requested_marker request (codes marker))) [
      | inl wanted ↦ rw wanted
      | inr unwanted ↦ rw unwanted (is_empty-feature_issues request rest)
    ]

is_empty-transform_issues :
    (n : ℕ) (rules : List TransformRule)
    → is_empty (transform_issues n rules)
      ≡ all (λ (r : TransformRule). is_supported r.operation) rules
unfolding transform_issues
is_empty-transform_issues n [] = refl
is_empty-transform_issues n (r ∷ rules) = ground (arith, is_empty-transform_issues (suc n) rules)

-- the profile of a reference, with its connection, and the names among its fields if it lists any
abbrev pub Referenced : Option ProfileContext → ConnectionProfileRef → List String → Type 0
Referenced o reference names =
    (p : ProfileContext) × (o ≡ some p)
    × (p.connection_id ≡ reference.connection_id)
    × (is_empty p.fields ≡ false → all (has_field p.fields) names ≡ true)

referenced :
    (o : Option ProfileContext) (reference : ConnectionProfileRef) (f m : ValidationIssue)
    (names : List String)
    → is_empty (reference_issues o reference f m) ≡ true
    → all_listed (listed_fields o) names ≡ true
    → Referenced o reference names
referenced none reference f m names h l = absurd (ground arith)
referenced (some p) reference f m names h l = (p, refl, ground arith, λ some_listed. ground arith)

unreferenced :
    (o : Option ProfileContext) (reference : ConnectionProfileRef) (f m : ValidationIssue)
    (names : List String)
    → Referenced o reference names
    → (is_empty (reference_issues o reference f m) ≡ true)
      × (all_listed (listed_fields o) names ≡ true)
unreferenced none reference f m names h = absurd (ground arith)
unreferenced (some p) reference f m names (q, same, connected, listed) =
    let p_q : p ≡ q = ground arith in (ground (arith, p_q), ground (arith, p_q))

split_all :
    {a b c d e f g h : Bool}
    → (a && (b && (c && (d && (e && (f && (g && h))))))) ≡ true
    → (a ≡ true)
      × (b ≡ true)
      × (c ≡ true)
      × (d ≡ true)
      × (e ≡ true)
      × (f ≡ true)
      × (g ≡ true)
      × (h ≡ true)
split_all h = ground arith

module _ {F : Type 0} ⦃fl : FloatOps F⦄ where
  -- no bound of the budget is above the server's
  abbrev pub IsWithin : RuntimeBudget F → RuntimeBudget F → Type 0
  IsWithin candidate budget =
      (candidate.max_input_records ≤ budget.max_input_records)
      × (candidate.max_output_bytes ≤ budget.max_output_bytes)
      × (candidate.max_runtime_seconds ≤ budget.max_runtime_seconds)
      × (float_lt budget.max_output_amplification candidate.max_output_amplification ≡ false)
      × (float_lt budget.max_rejection_rate candidate.max_rejection_rate ≡ false)

  IsWithin-iff :
      (candidate budget : RuntimeBudget F)
      → (is_empty (budget_issues candidate budget) ≡ true) ↔ IsWithin candidate budget
  unfolding budget_issues
  IsWithin-iff candidate budget = ground arith

  -- what a plan must be to pass for a request
  pub record IsSafe (plan : EtlPlan F) (request : GenerationRequest F) : Type 0 where
    pub source_allowed :
        Referenced
          (profile_at plan.source.profile_id request.source_profiles)
          plan.source
          (map (λ (m : FieldMapping). m.source_field) plan.field_mappings)
    pub target_allowed :
        Referenced (profile_at plan.target.profile_id request.target_profiles) plan.target (
          map (λ (m : FieldMapping). m.target_field) plan.field_mappings
          ++ plan.quality_contract.required_fields)
    pub within_budget : IsWithin plan.runtime_budget request.max_runtime_budget
    pub features_supported :
        all (is_unrequested request.business_request) unsupported_request_markers ≡ true
    pub transforms_supported :
        all (λ (r : TransformRule). is_supported r.operation) plan.transforms ≡ true

  abbrev conditions : EtlPlan F → GenerationRequest F → Option Value → Bool
  conditions plan request config =
      let source = profile_at plan.source.profile_id request.source_profiles in
      let target = profile_at plan.target.profile_id request.target_profiles in
      is_empty (source_issues source plan.source)
      && (is_empty (target_issues target plan.target)
          && (is_empty (budget_issues plan.runtime_budget request.max_runtime_budget)
              && (all_listed (listed_fields source)
                    (map (λ (m : FieldMapping). m.source_field) plan.field_mappings)
                  && (all_listed (listed_fields target) (
                        map (λ (m : FieldMapping). m.target_field) plan.field_mappings
                        ++ plan.quality_contract.required_fields)
                      && (is_empty (config_issues config)
                          && (all (is_unrequested request.business_request)
                                unsupported_request_markers
                              && all (λ (r : TransformRule). is_supported r.operation)
                                  plan.transforms))))))

  gate_conditions :
      (plan : EtlPlan F) (request : GenerationRequest F) (config : Option Value)
      → is_empty (deterministic_gate plan request config) ≡ conditions plan request config
  unfolding deterministic_gate
  gate_conditions plan request config =
      let source = profile_at plan.source.profile_id request.source_profiles in
      let target = profile_at plan.target.profile_id request.target_profiles in
      let ms = plan.field_mappings in
      let required = plan.quality_contract.required_fields in
      all_empty (source_issues source plan.source) (target_issues target plan.target)
        (budget_issues plan.runtime_budget request.max_runtime_budget)
        (source_field_issues (listed_fields source) ms)
        (target_field_issues (listed_fields target) ms required) (config_issues config)
        (feature_issues request.business_request unsupported_request_markers)
        (transform_issues 0 plan.transforms)
      ∙ rw
          (
            is_empty-source_field_issues (listed_fields source) ms,
            is_empty-target_field_issues (listed_fields target) ms required,
            is_empty-feature_issues request.business_request unsupported_request_markers,
            is_empty-transform_issues 0 plan.transforms,
          )
          refl

  pub gate-IsSafe :
      (plan : EtlPlan F) (request : GenerationRequest F) (config : Option Value)
      → is_empty (deterministic_gate plan request config) ≡ true
      → IsSafe plan request
  unfolding source_issues target_issues
  gate-IsSafe plan request config passed =
      let (s, t, budget, sf, tf, c, features, transforms) =
        split_all (sym (gate_conditions plan request config) ∙ passed) in
      record {
        source_allowed = referenced _ _ _ _ _ s sf;
        target_allowed = referenced _ _ _ _ _ t tf;
        within_budget = (IsWithin-iff plan.runtime_budget request.max_runtime_budget).0 budget;
        features_supported = features;
        transforms_supported = transforms;
      }

  pub safe_gate :
      (plan : EtlPlan F) (request : GenerationRequest F) (config : Value)
      → IsSafe plan request
      → is_empty (deterministic_gate plan request (some config)) ≡ true
  unfolding source_issues target_issues
  safe_gate plan request config safe =
      let (s, sf) =
        unreferenced _ plan.source
          (issue "SOURCE_PROFILE_FORBIDDEN" "源 Profile 不在本次请求授权范围内" (at "source" ∷ []))
          (issue "SOURCE_CONNECTION_MISMATCH" "源 Profile 与连接引用不匹配" (at "source" ∷ [])) _
          safe.source_allowed in
      let (t, tf) =
        unreferenced _ plan.target
          (issue "TARGET_PROFILE_FORBIDDEN" "目标 Profile 不在本次请求授权范围内" (at "target" ∷ []))
          (issue "TARGET_CONNECTION_MISMATCH" "目标 Profile 与连接引用不匹配" (at "target" ∷ [])) _
          safe.target_allowed in
      gate_conditions plan request (some config)
      ∙ rw
          (
            s,
            t,
            (IsWithin-iff plan.runtime_budget request.max_runtime_budget).1 safe.within_budget,
            sf,
            tf,
            safe.features_supported,
            safe.transforms_supported,
          )
          refl
