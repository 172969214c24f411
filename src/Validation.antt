-- ===== src/Validation.antt =====
-- src/etl_agent/workflows/validation.py: the checks of a candidate plan. JSON parsing, the JSON schema,
-- pydantic's validation and the HOCON parser are the parameters `Checkers`.
pub mod Markers
pub mod Keys
pub mod Plan
pub mod Gate
pub mod Accept
use etl_agent.Values.{
  no_fields, entry, no_items, set_field, Fields, array, item, object, field_at, null_value,
  text_value, Items, value_eq, Value,
}
use etl_agent.Domain.{field, ValidationIssue, PathItem}
use etl_agent.Prelude.{
  ℕ, suc, ◌+◌, ◌*◌, ◌≤◌, ◌<◌, ◌≡◌, ◌≢◌, refl, sym, ap, subst, ◌∙◌, ◌↔◌, ◌⊎◌, inl, inr, String, Bool,
  true, false, ◌&&◌, ◌||◌, not, Option, none, some, List, [], ◌∷◌, ◌++◌, ◌==◌, leb, ltb, any, all,
  find, by, save, insert, keep, map, length, if◌then◌else◌, str_eq, is_empty, is_none, is_some,
  or_else, arith, Bool-cases, Option-cases, eq_iff, by-save_at, by-save_self, by-key, take, drop,
  map_option, ◌-◌, zero,
}
use etl_agent.Prelude.Result.{Result, ok, err, ◌>>=◌, ◌>>◌, guard, require, >>=-eq-ok, ok-injective}
use etl_agent.Prelude.Text.{lower, Text, codes, text_eq}
use etl_agent.Prelude.Dict.{Dict, Json, get}
use etl_agent.Store.{
  Action, RollbackStatus, ExecutionRunStatus, OutboxEventStatus, EventType, PublishStatus,
  QualityStatus, PreparationStatus, submit, cancel, cleanup, swap, rollback, execution_event,
  other_event, Db, ExecutionRun, OutboxEvent, Preparation, PipelineVersion, operator,
}

abbrev pub issue : String → String → List PathItem → ValidationIssue
issue code message path = record { code = code; message = codes message; path = path }

abbrev pub at : String → PathItem
at name = field (codes name)

-- ## _requested_marker

-- `text.startswith(marker)`
unfoldable pub starts_with : Text → Text → Bool
starts_with [] t = true
starts_with (m ∷ ms) [] = false
starts_with (m ∷ ms) (c ∷ t) = (m == c) && starts_with ms t

-- `marker in text`
unfoldable pub occurs_in : Text → Text → Bool
unfolding starts_with
occurs_in marker [] = is_empty marker
occurs_in marker (c ∷ t) = starts_with marker (c ∷ t) || occurs_in marker t

-- `text.find(marker)`
unfoldable pub find_in : Text → Text → Option ℕ
unfolding starts_with
find_in marker [] = if is_empty marker then some 0 else none
find_in marker (c ∷ t) =
    let rest = find_in marker t in
    if starts_with marker (c ∷ t) then some 0 else map_option suc rest

abbrev pub negations : List Text
negations = codes "不" ∷ codes "不要" ∷ codes "无需" ∷ codes "无须" ∷ codes "禁止" ∷ codes "not " ∷ []

-- the four characters before a position
unfoldable pub prefix_at : Text → ℕ → Text
prefix_at t index = take (index - (index - 4)) (drop (index - 4) t)

unfoldable pub is_negated : Text → ℕ → Bool
unfolding prefix_at occurs_in
is_negated t index = any (λ negation. occurs_in negation (prefix_at t index)) negations

-- The loop from a start, on fuel; each round moves the start on by the length of the marker at least.
unfoldable pub marker_loop : ℕ → Text → Text → ℕ → Bool
unfolding find_in is_negated
marker_loop zero t marker start = false
marker_loop (suc fuel) t marker start = elim (find_in marker (drop start t)) [
  | none ↦ false
  | some offset ↦ elim (is_negated t (start + offset)) [
    | false ↦ true
    | true ↦ marker_loop fuel t marker (start + offset + length marker)
  ]
]

unfoldable pub requested_marker : Text → Text → Bool
unfolding marker_loop lower
requested_marker t marker = marker_loop (suc (length (lower t))) (lower t) marker 0

abbrev pub unsupported_request_markers : List (String × String)
unsupported_request_markers =
    ("增量", "增量水位执行")
    ∷ ("incremental", "增量水位执行")
    ∷ ("cdc", "CDC 实时同步")
    ∷ ("脱敏", "字段脱敏")
    ∷ ("mask", "字段脱敏")
    ∷ ("填充空值", "空值填充")
    ∷ ("fill_null", "空值填充")
    ∷ ("join", "Join 多表关联")
    ∷ ("关联", "Join 多表关联")
    ∷ ("聚合", "聚合计算")
    ∷ ("aggregate", "聚合计算")
    ∷ []

-- ## _normalize_legacy_mapping_transform

-- Python raises TypeError where it looks for a list or a dictionary in a set.
pub data Crash : Type 0 where
  unhashable : Crash

-- `operation in {"rename", "cast"}`
unfoldable pub is_legacy_operation : Option Value → Result Crash Bool
is_legacy_operation (some (text_value t)) =
    ok (text_eq t (codes "rename") || text_eq t (codes "cast"))
is_legacy_operation (some (array vs)) = err unhashable
is_legacy_operation (some (object fs)) = err unhashable
is_legacy_operation _ = ok false

abbrev pub or_value : Value → Option Value → Value
or_value default none = default
or_value default (some v) = v

abbrev pub or_null : Option Value → Value
or_null = or_value null_value

-- `source_fields in ([], [mapping.get("source_field")])` and the two tests after it
unfoldable pub matches_mapping : Fields → Fields → Bool
unfolding value_eq field_at
matches_mapping transform mapping =
    let sources = or_value (array no_items) (field_at (codes "source_fields") transform) in
    let target = or_null (field_at (codes "target_field") transform) in
    let parameters = or_value (object no_fields) (field_at (codes "parameters") transform) in
    (value_eq sources (array no_items)
      || value_eq sources
          (array (item (or_null (field_at (codes "source_field") mapping)) no_items)))
    && (value_eq target null_value
        || value_eq target (or_null (field_at (codes "target_field") mapping)))
    && (value_eq parameters (object no_fields) || value_eq parameters null_value)

unfoldable pub normalize_mapping : Value → Result Crash Value
unfolding matches_mapping is_legacy_operation
normalize_mapping (object mapping) = elim (field_at (codes "transform") mapping) [
  | some (object transform) ↦ do
    let operation = field_at (codes "operation") transform
    legacy ← is_legacy_operation operation
    ok (
        if legacy && matches_mapping transform mapping
        then object (set_field (codes "transform") (or_null operation) mapping)
        else object mapping)
  | some _ ↦ ok (object mapping)
  | none ↦ ok (object mapping)
]
normalize_mapping v = ok v

unfoldable pub normalize_mappings : Items → Result Crash Items
unfolding normalize_mapping
normalize_mappings no_items = ok no_items
normalize_mappings (item v vs) = do
  w ← normalize_mapping v
  ws ← normalize_mappings vs
  ok (item w ws)

unfoldable pub normalize_legacy_mapping_transform : Fields → Result Crash Fields
unfolding normalize_mappings field_at set_field
normalize_legacy_mapping_transform payload = elim (field_at (codes "field_mappings") payload) [
  | some (array mappings) ↦ do
    normalized ← normalize_mappings mappings
    ok (set_field (codes "field_mappings") (array normalized) payload)
  | some _ ↦ ok payload
  | none ↦ ok payload
]

-- ## compile_hocon

abbrev pub forbidden_keys : List Text
forbidden_keys =
    codes "command"
    ∷ codes "shell"
    ∷ codes "script"
    ∷ codes "exec"
    ∷ codes "python"
    ∷ codes "tool"
    ∷ []

unfoldable pub is_forbidden : Text → Bool
unfolding lower
is_forbidden key = any (text_eq (lower key)) forbidden_keys

unfoldable mutual
  unfolding is_forbidden

  pub walk : Value → Bool
  walk (object fields) = walk_fields fields
  walk (array items) = walk_items items
  walk _ = false

  pub walk_fields : Fields → Bool
  walk_fields no_fields = false
  walk_fields (entry k v fields) =
      let rest = walk_fields fields in let inside = walk v in is_forbidden k || inside || rest

  pub walk_items : Items → Bool
  walk_items no_items = false
  walk_items (item v items) = let rest = walk_items items in let inside = walk v in inside || rest
