-- ===== src/Rows.antt =====
-- Rows of the tables by their ids, and the writes of a session (src/etl_agent/infrastructure/models.py).
use etl_agent.Prelude.{ℕ, Option, by, save}
use etl_agent.Store.{
  Db, Preparation, PreparationStatus, ApprovalRequest, ExecutionRun, OutboxEvent, PipelineVersion,
  Pipeline,
}

module _ {F : Type 0} where
  abbrev pub preparation_by : ℕ → Db F → Option (Preparation F)
  preparation_by id db = by (λ p. p.id) id db.preparations

  abbrev pub save_preparation : Preparation F → Db F → Db F
  save_preparation p db = record db {
    preparations = save (λ (q : Preparation F). q.id) p db.preparations;
  }

  abbrev pub set_status : PreparationStatus → Preparation F → Db F → Db F
  set_status status p db = save_preparation (record p { status = status }) db

  abbrev pub approval_by : ℕ → Db F → Option ApprovalRequest
  approval_by id db = by (λ a. a.id) id db.approvals

  abbrev pub save_approval : ApprovalRequest → Db F → Db F
  save_approval a db = record db { approvals = save (λ (b : ApprovalRequest). b.id) a db.approvals }

  abbrev pub version_by : ℕ → Db F → Option (PipelineVersion F)
  version_by id db = by (λ v. v.id) id db.versions

  abbrev pub save_version : PipelineVersion F → Db F → Db F
  save_version v db = record db { versions = save (λ (w : PipelineVersion F). w.id) v db.versions }

  abbrev pub pipeline_by : ℕ → Db F → Option Pipeline
  pipeline_by id db = by (λ p. p.id) id db.pipelines

  abbrev pub execution_by : ℕ → Db F → Option ExecutionRun
  execution_by id db = by (λ e. e.id) id db.executions

  abbrev pub save_execution : ExecutionRun → Db F → Db F
  save_execution e db = record db { executions = save (λ (f : ExecutionRun). f.id) e db.executions }

  abbrev pub event_by : ℕ → Db F → Option OutboxEvent
  event_by id db = by (λ e. e.id) id db.outbox

  abbrev pub save_event : OutboxEvent → Db F → Db F
  save_event e db = record db { outbox = save (λ (f : OutboxEvent). f.id) e db.outbox }
