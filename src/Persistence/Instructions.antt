-- ===== src/Persistence/Instructions.antt =====
-- The instructions to the integrations service: `IntegrationJob` of
-- ragcore/src/ragcore/persistence/models.py, IntegrationJobStatus of ragcore/src/ragcore/domain/governance.py
-- and `IntegrationDispatcher` of ragcore/src/ragcore/persistence/integration_jobs.py. The parameters are the
-- members of a JSON object, and the texts of a result are as its columns are cast.
pub mod Announced
use itsm_poc.Common.{
  ℕ, ◌+◌, Bool, true, false, List, [], ◌∷◌, ◌++◌, map, String, str_eq, Option, none, some, ok, ◌==◌,
  if◌then◌else◌, ◌≡◌, refl, arith, Bool-cases, inl, inr,
}
use itsm_poc.Domain.Records.{Uuid, Instant, TenantContext, CorrelationId, JsonObject}
use itsm_poc.Domain.Envelopes.{Envelope, command, IntegrationCommandEnvelope, integration_execute}
use itsm_poc.Persistence.Rows.{rewrite, row_at, matching}
use itsm_poc.Messaging.Bodies.{
  UuidText, row_kind, row_payload, envelope_from_row, envelope_from_row-row_payload,
}
use itsm_poc.Messaging.Outbox.{OutboxRow, Defaults, enqueue}
use itsm_poc.Workers.Conclusions.{IntegrationResult, concluded_from, concluded_pending}

pub data IntegrationJobStatus : Type 0 where
  job_created job_dispatched job_completed job_failed job_expired : IntegrationJobStatus

pub record IntegrationJobRow : Type 0 where
  pub job_id : Uuid
  pub work_item_id : Uuid
  pub operation_id : Uuid
  pub tenant_id : Uuid
  pub catalogue_id : String
  pub catalogue_version : ℕ
  pub parameters : JsonObject
  pub status : IntegrationJobStatus
  pub result_status : Option String
  pub result_verification : Option String
  pub result_execution_id : Option Uuid
  pub result_recorded_at : Option Instant
  pub dispatched_at : Option Instant
  pub expires_at : Instant
  pub updated_at : Instant

-- The arguments of a dispatch.
pub record Instruction : Type 0 where
  pub work_item_id : Uuid
  pub operation_id : Uuid
  pub tenant_id : Uuid
  pub catalogue_id : String
  pub catalogue_version : ℕ
  pub parameters : JsonObject
  pub expires_at : Instant
  pub correlation_id : CorrelationId

-- The row that `_INSERT_JOB` writes, with the defaults of the columns that it does not name.
unfoldable pub job_row : (clock : Instant) → (job_id : Uuid) → Instruction → IntegrationJobRow
job_row clock job_id i = record {
  job_id = job_id;
  work_item_id = i.work_item_id;
  operation_id = i.operation_id;
  tenant_id = i.tenant_id;
  catalogue_id = i.catalogue_id;
  catalogue_version = i.catalogue_version;
  parameters = i.parameters;
  status = job_created;
  result_status = none;
  result_verification = none;
  result_execution_id = none;
  result_recorded_at = none;
  dispatched_at = none;
  expires_at = i.expires_at;
  updated_at = clock;
}

pub record DispatchedJob : Type 0 where
  pub job_id : Uuid
  pub work_item_id : Uuid

-- The two tables that the dispatch writes, and what it returns.
pub record Dispatching : Type 0 where
  pub jobs : List IntegrationJobRow
  pub outbox : List OutboxRow
  pub dispatched : DispatchedJob

unfoldable pub execute_command : (job_id : Uuid) → CorrelationId → Envelope
execute_command job_id correlation = command (record {
  job_id = record { value = job_id };
  correlation_id = correlation;
  kind = integration_execute;
})

-- `IntegrationDispatcher.dispatch`, with the identifiers that `uuid4` makes for the job and for the row of the
-- outbox.
unfoldable pub dispatch :
    UuidText
    → Defaults
    → (job_id outbox_id : Uuid) → TenantContext
    → Instruction
    → List IntegrationJobRow
    → List OutboxRow
    → Dispatching
unfolding job_row execute_command enqueue
dispatch m defaults job_id outbox_id tenant i jobs outbox = record {
  jobs = jobs ++ (job_row defaults.clock job_id i ∷ []);
  outbox = enqueue m defaults outbox_id tenant (execute_command job_id i.correlation_id) outbox;
  dispatched = record { job_id = job_id; work_item_id = i.work_item_id };
}

abbrev pub job_key : Uuid → IntegrationJobRow → Bool
job_key id r = r.job_id == id

unfoldable pub mark_job_dispatched :
    (clock : Instant) → Uuid → List IntegrationJobRow → List IntegrationJobRow
mark_job_dispatched clock id = rewrite (job_key id) (λ (r : IntegrationJobRow). record r {
  status = job_dispatched;
  dispatched_at = some clock;
  updated_at = clock;
})

unfoldable pub is_status : String → Option String → Bool
is_status expected none = false
is_status expected (some text) = str_eq text expected

unfoldable pub result_of : IntegrationJobRow → IntegrationResult
unfolding is_status
result_of r = record {
  has_executed = is_status "executed" r.result_status;
  verification_text = r.result_verification;
  execution_id = r.result_execution_id;
  recorded_at = r.result_recorded_at;
}

unfoldable pub result_from : Option IntegrationJobRow → Option IntegrationResult
unfolding result_of
result_from none = none
result_from (some r) = some (result_of r)

-- `IntegrationDispatcher.read_result`.
unfoldable pub read_result : Uuid → List IntegrationJobRow → Option IntegrationResult
unfolding result_from
read_result id rows = result_from (row_at (job_key id) rows)
