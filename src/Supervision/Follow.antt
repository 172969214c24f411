-- ===== src/Supervision/Follow.antt =====
-- `_supervise_execution_run` of src/etl_agent/workers/tasks.py: a supervision, and the action that follows
-- from the row that it leaves.
use etl_agent.Prelude.{
  ℕ, String, Bool, true, false, ◌&&◌, Option, none, some, [], ◌∷◌, any, keep, if◌then◌else◌, str_eq,
}
use etl_agent.Prelude.Result.{Result, ok, err}
use etl_agent.Prelude.Text.{codes}
use etl_agent.Prelude.Dict.{optional_text, Dict, Json}
use etl_agent.Store.{
  Action, ExecutionRunStatus, PublishStatus, cancel, cleanup, swap, execution_event, Db,
  ExecutionRun, OutboxEvent,
}
use etl_agent.Float.{FloatOps}
use etl_agent.Rows.{execution_by}
use etl_agent.Prelude.Dict.{string, merge}
use etl_agent.Supervision.{Observer, Supervised, SupervisionError}
use etl_agent.Actions.{queue_execution_action, has_text}
use etl_agent.Services.{Request, Services}
use etl_agent.Supervision.Task.{supervise_execution_run}

abbrev pub is_target_metadata : String × Json → Bool
is_target_metadata field = any (str_eq field.0) (
    "target_connection_id" ∷ "target_host" ∷ "target_port" ∷ "target_secret_ref" ∷ "target_database"
    ∷ "target_table" ∷ "shadow_table" ∷ "error_table" ∷ [])

unfoldable pub runtime_target_metadata : ExecutionRun → Dict Json
runtime_target_metadata execution = keep is_target_metadata execution.metrics

-- an action: its kind, its tool and its payload
abbrev pub Queued : Type 0
Queued = Action × String × Dict Json

abbrev pub wants_cancel : ExecutionRunStatus → Bool
wants_cancel ExecutionRunStatus.cancel_requested = true
wants_cancel _ = false

abbrev pub wants_swap : PublishStatus → Bool
wants_swap PublishStatus.swap_requested = true
wants_swap _ = false

abbrev pub has_failed : ExecutionRunStatus → Bool
has_failed ExecutionRunStatus.failed = true
has_failed _ = false

unfoldable pub next_action : ExecutionRun → Option Queued
unfolding runtime_target_metadata
next_action e =
    if wants_cancel e.status
    then some (cancel, "seatunnel.cancel", ("reason", string (codes "运行预算超限")) ∷ [])
    else if wants_swap e.publish_status
    then some (
      swap,
      "seatunnel.swap",
      merge
          (("shadow_table", optional_text e.shadow_table)
            ∷ ("error_table", optional_text e.error_table)
            ∷ [])
          (runtime_target_metadata e),
    )
    else if has_failed e.status && has_text e.engine_job_id
    then some (
      cleanup,
      "seatunnel.cleanup",
      merge (("reason", string (codes "失败后清理")) ∷ []) (runtime_target_metadata e),
    )
    else none

-- what leaves the task in place of a status
pub data TaskError : Type 0 where
  supervision_error : SupervisionError → TaskError
  row_missing not_queued : TaskError

module _ {F PrivateKey PublicKey : Type 0} ⦃fl : FloatOps F⦄
    (services : Services F PrivateKey PublicKey) (observer : Observer F) where
  abbrev pub stored :
      Supervised F
      → ExecutionRun
      → Option (Option OutboxEvent × Db F)
      → Result TaskError (ExecutionRunStatus × Option OutboxEvent) × Supervised F
  stored s e none = (err not_queued, s)
  stored s e (some (event, db)) = (ok (e.status, event), record s { db = db })

  -- the second session
  unfoldable pub queue_next :
      Request
      → ℕ
      → Supervised F
      → Result TaskError (ExecutionRunStatus × Option OutboxEvent) × Supervised F
  unfolding next_action
  queue_next request execution_id s = elim (execution_by execution_id s.db) [
    | none ↦ (err row_missing, s)
    | some e ↦ elim (next_action e) [
      | none ↦ (ok (e.status, none), s)
      | some (action, tool, payload) ↦
          stored s e
            (queue_execution_action services request e (execution_event action) tool payload s.db)
    ]
  ]

  -- The status of the row, and the event to dispatch if one was queued.
  unfoldable pub supervise_task :
      Request
      → ℕ
      → ℕ
      → Supervised F
      → Result TaskError (ExecutionRunStatus × Option OutboxEvent) × Supervised F
  unfolding supervise_execution_run queue_next
  supervise_task request execution_id now s =
      elim (supervise_execution_run observer execution_id now s) [
        | err e ↦ (err (supervision_error e), s)
        | ok (row, supervised) ↦ queue_next request execution_id supervised
      ]
