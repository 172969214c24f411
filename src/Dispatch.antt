-- ===== src/Dispatch.antt =====
-- src/etl_agent/workers/dispatcher.py: the tool broker, which consumes an event of the outbox. The
-- engine and the runtime compiler are parameters; the engine's calls are logged, the latest first.
pub mod Broker
pub mod Calls
pub mod Once
pub mod Settled
pub mod Late
use etl_agent.Capability.{
  bad_format, bad_encoding, not_an_object, bad_header, bad_signature, bad_claims, expired,
  issued_in_future, bad_lifetime, CapabilityClaims, CapabilityError,
}
use etl_agent.Prelude.{
  ℕ, suc, ◌+◌, ◌*◌, ◌≤◌, ◌<◌, ◌≡◌, ◌≢◌, refl, sym, ap, subst, ◌∙◌, ◌↔◌, ◌⊎◌, inl, inr, String, Bool,
  true, false, ◌&&◌, ◌||◌, not, Option, none, some, List, [], ◌∷◌, ◌++◌, ◌==◌, leb, ltb, any, all,
  find, by, save, insert, keep, map, length, if◌then◌else◌, str_eq, is_empty, is_none, is_some,
  or_else, arith, Bool-cases, Option-cases, eq_iff, by-save_at, by-save_self, by-key, take,
}
use etl_agent.Prelude.Result.{Result, ok, err, ◌>>=◌, ◌>>◌, guard, require, >>=-eq-ok, ok-injective}
use etl_agent.Prelude.Text.{strip, replace_char, Text, codes, text_eq}
use etl_agent.Prelude.Dict.{Dict, Json, null, string, opaque, get, put, merge, select}
use etl_agent.Store.{
  Action, RollbackStatus, ExecutionRunStatus, OutboxEventStatus, EventType, PublishStatus,
  QualityStatus, PreparationStatus, submit, cancel, cleanup, swap, rollback, execution_event,
  other_event, Db, ExecutionRun, OutboxEvent, Preparation, PipelineVersion, operator,
}

pub data EngineCall : Type 0 where
  submit_job : Dict Json → EngineCall
  cancel_job : Text → EngineCall
  job_action : Action → Text → Dict Json → EngineCall

-- Each answer depends on the calls so far. `err` is an `EngineError` with its text; `submit` answers
-- the job id, the others whether the call is confirmed.
pub record Engine : Type 0 where
  pub submit : List EngineCall → Dict Json → Result Text Text
  pub cancel : List EngineCall → Text → Result Text Bool
  pub act : List EngineCall → Action → Text → Dict Json → Result Text Bool

-- why a dispatch fails; the texts are those of the external exceptions
pub data Failure : Type 0 where
  capability_error : CapabilityError → Failure
  preparation_mismatch subject_mismatch digest_mismatch tool_mismatch replayed : Failure
  hocon_missing job_id_missing : Failure
  unconfirmed : Action → Failure
  external : Text → Failure

-- `raise` out of the dispatcher; `uncaught` is an exception that it does not catch
pub data DispatchError : Type 0 where
  event_missing execution_missing uncaught : DispatchError
  dispatch_failed : Failure → DispatchError

pub record DispatchResult : Type 0 where
  pub event_id : ℕ
  pub execution_run_id : ℕ
  pub status : OutboxEventStatus
  pub engine_job_id : Option Text

-- the outside of the database: the replay guard, and the engine's log
pub record Outside (R : Type 0) : Type 0 where
  pub replay : R
  pub calls : List EngineCall

abbrev pub capability_text : CapabilityError → String
capability_text bad_format = "Capability 格式无效"
capability_text bad_encoding = "Capability 编码无效"
capability_text not_an_object = "Capability 载荷必须是 JSON 对象"
capability_text bad_header = "Capability 算法或版本不受支持"
capability_text bad_signature = "Capability 签名无效"
capability_text bad_claims = "Capability 声明无效"
capability_text expired = "Capability 已过期"
capability_text issued_in_future = "Capability 签发时间超出允许时钟偏差"
capability_text bad_lifetime = "Capability 过期时间必须晚于签发时间"

abbrev pub unconfirmed_text : Action → String
unconfirmed_text submit = ""
unconfirmed_text cancel = "SeaTunnel 作业取消未确认"
unconfirmed_text cleanup = "SeaTunnel 中间产物清理未确认"
unconfirmed_text swap = "目标表原子切换未确认"
unconfirmed_text rollback = "目标表回滚未确认"

-- `str(exc)`
unfoldable pub failure_text : Failure → Text
failure_text (capability_error e) = codes (capability_text e)
failure_text preparation_mismatch = codes "Capability Preparation 绑定不一致"
failure_text subject_mismatch = codes "Capability 主体绑定不一致"
failure_text digest_mismatch = codes "Capability 制品摘要绑定不一致"
failure_text tool_mismatch = codes "Capability 工具绑定不一致"
failure_text replayed = codes "Capability 已被消费或已重放"
failure_text hocon_missing = codes "PipelineVersion 缺少 SeaTunnel HOCON 制品"
failure_text job_id_missing = codes "执行事实缺少引擎作业 ID"
failure_text (unconfirmed a) = codes (unconfirmed_text a)
failure_text (external t) = t

unfoldable pub failure_detail : Failure → Text
unfolding replace_char strip failure_text
failure_detail failure =
    let detail = take 512 (replace_char b'\n' b' ' (strip (failure_text failure))) in
    if is_empty detail then codes "受管执行失败" else detail

unfoldable pub expected_tool : EventType → Option String
expected_tool (execution_event submit) = some "seatunnel.submit"
expected_tool (execution_event cancel) = some "seatunnel.cancel"
expected_tool (execution_event cleanup) = some "seatunnel.cleanup"
expected_tool (execution_event swap) = some "seatunnel.swap"
expected_tool (execution_event rollback) = some "seatunnel.rollback"
expected_tool (other_event s) = none

abbrev pub is_tool : Option String → String → Bool
is_tool none tool = false
is_tool (some expected) tool = str_eq tool expected

-- `str(value)`
abbrev pub text_of : Json → Text
text_of null = codes "None"
text_of (string t) = t
text_of (opaque t) = t

abbrev pub text_at : String → Dict Json → Text
text_at key payload = elim (get key payload) [ some v ↦ text_of v | none ↦ [] ]

-- `execution.engine_job_id or str(payload.get("engine_job_id", ""))`
unfoldable pub job_id_of : ExecutionRun → Dict Json → Text
job_id_of execution payload =
    let recorded : Text = elim execution.engine_job_id [ some t ↦ t | none ↦ [] ] in
    if is_empty recorded then text_at "engine_job_id" payload else recorded

abbrev pub is_pending : OutboxEventStatus → Bool
is_pending OutboxEventStatus.pending = true
is_pending _ = false

abbrev pub is_cancelled : ExecutionRunStatus → Bool
is_cancelled ExecutionRunStatus.cancel_requested = true
is_cancelled ExecutionRunStatus.cancelled = true
is_cancelled _ = false

-- the checks of the capability of an event
unfoldable pub check_bindings :
    CapabilityClaims → ExecutionRun → EventType → Result Failure (Unit {0})
unfolding expected_tool
check_bindings c execution event_type = do
  guard (c.preparation_id == execution.preparation_id) preparation_mismatch
  guard (c.subject == execution.created_by) subject_mismatch
  guard (str_eq c.artifact_digest execution.artifact_digest) digest_mismatch
  guard (is_tool (expected_tool event_type) c.tool) tool_mismatch

abbrev pub as_failure : {A : Type 0} → Result CapabilityError A → Result Failure A
as_failure (ok a) = ok a
as_failure (err e) = err (capability_error e)

abbrev pub as_external : {A : Type 0} → Result Text A → Result Failure A
as_external (ok a) = ok a
as_external (err e) = err (external e)

-- what the engine did: the job that it created, and the payload
abbrev pub Done : Type 0
Done = Option Text × Dict Json

abbrev pub confirmed : Action → Dict Json → Result Text Bool → Result Failure Done
confirmed action payload (err e) = err (external e)
confirmed action payload (ok false) = err (unconfirmed action)
confirmed action payload (ok true) = ok (none, payload)

abbrev pub runtime_keys : List String
runtime_keys =
    "source_host" ∷ "source_port" ∷ "source_secret_ref" ∷ "source_database" ∷ "source_table"
    ∷ "target_connection_id" ∷ "target_host" ∷ "target_port" ∷ "target_secret_ref"
    ∷ "target_database" ∷ "target_table" ∷ "shadow_table" ∷ "error_table" ∷ "error_query"
    ∷ "error_columns" ∷ []

abbrev pub optional_of : Text → Option Text
optional_of [] = none
optional_of (c ∷ t) = some (c ∷ t)

-- the runtime fields that an execution keeps of a payload
unfoldable pub keep_runtime : Dict Json → ExecutionRun → ExecutionRun
keep_runtime payload execution =
    let safe = select runtime_keys payload in
    if is_empty safe then execution else record execution {
      metrics = merge execution.metrics safe;
      shadow_table = optional_of (text_at "shadow_table" safe);
      error_table = optional_of (text_at "error_table" safe);
    }

-- the execution after an event was consumed
unfoldable pub complete : EventType → Done → ℕ → ExecutionRun → ExecutionRun
unfolding keep_runtime
complete (execution_event submit) (some job, payload) now execution =
    keep_runtime payload (record execution {
      engine_job_id = some job;
      status = ExecutionRunStatus.running;
      started_at = some now;
    })
complete (execution_event submit) (none, payload) now execution = execution
complete (execution_event cancel) done now execution = record execution {
  status = ExecutionRunStatus.cancelled;
  completed_at = some now;
}
complete (execution_event cleanup) done now execution = record execution {
  publish_status = PublishStatus.cleaned;
}
complete (execution_event swap) done now execution = record execution {
  publish_status = PublishStatus.published;
  status = ExecutionRunStatus.succeeded;
  completed_at = some now;
}
complete (execution_event rollback) done now execution = record execution {
  rollback_status = RollbackStatus.completed;
  publish_status = PublishStatus.cleaned;
  completed_at = or_else execution.completed_at (some now);
}
complete (other_event s) done now execution = execution

-- the tables after a failure
unfoldable pub failed_event : Text → OutboxEvent → OutboxEvent
failed_event detail event = record event {
  status = OutboxEventStatus.failed;
  last_error = some detail;
}

unfoldable pub failed_execution : Text → ExecutionRun → ExecutionRun
failed_execution detail execution = record execution {
  status = ExecutionRunStatus.failed;
  error_code = some "OUTBOX_DISPATCH_FAILED";
  error_detail = some detail;
}
