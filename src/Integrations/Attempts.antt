-- ===== src/Integrations/Attempts.antt =====
-- What was attempted, and the tables that one delivery writes in one transaction:
-- integrations/src/integrations/domain/execution.py, execution/idempotency.py, and the statements of
-- persistence/{executions,jobs,audit}.py. A table is the list of its rows, the latest last.
use itsm_poc.Common.{
  ℕ, Bool, true, false, ◌==◌, ltb, ◌&&◌, ◌||◌, List, [], ◌∷◌, ◌++◌, any, String, str_eq, Option,
  none, some, Result, ok, err, if◌then◌else◌,
}
use itsm_poc.Integrations.Envelope.{MessageKind, completed, failed_kind}
use itsm_poc.Domain.Treatment.{VerificationOutcome, server_confirmed, client_attested, contradicted}
use itsm_poc.Domain.Records.{Uuid, Instant, JsonObject}
use itsm_poc.Persistence.Rows.{rewrite}

pub data ExecutionOutcome : Type 0 where
  succeeded failed refused_unentitled refused_unregistered refused_version refused_window
        unreachable :
      ExecutionOutcome

unfoldable pub is_refusal : ExecutionOutcome → Bool
is_refusal refused_unentitled = true
is_refusal refused_unregistered = true
is_refusal refused_version = true
is_refusal refused_window = true
is_refusal unreachable = true
is_refusal _ = false

pub record ExecutionAttempt : Type 0 where
  pub execution_id : Uuid
  pub job_id : Uuid
  pub tenant_id : Uuid
  pub connector_id : String
  pub catalogue_id : String
  pub catalogue_version : ℕ
  pub idempotency_key : String
  pub outcome : ExecutionOutcome
  pub verification : VerificationOutcome
  pub correlation_id : String
  pub attempted_at : Instant
  pub completed_at : Instant
  pub external_reference : Option String
  pub normalized_result : Option JsonObject

abbrev claims_confirmation : VerificationOutcome → Bool
claims_confirmation server_confirmed = true
claims_confirmation client_attested = false
claims_confirmation contradicted = false

-- What escapes a delivery: the check of a new record, or an exception of the invoker that the leg
-- does not catch.
pub data LegError : Type 0 where
  refused_as_confirmed escaped : LegError

-- `__post_init__`.
unfoldable pub new_attempt : ExecutionAttempt → Result LegError ExecutionAttempt
new_attempt a =
    if is_refusal a.outcome && claims_confirmation a.verification
    then err refused_as_confirmed
    else ok a

-- The parts of the standard library that the key rests on.
pub record KeyMethods : Type 0 where
  pub uuid_text : Uuid → String
  pub join : (separator : String) → List String → String
  pub sha256_hex : String → String

unfoldable pub derive_key : KeyMethods → Uuid → Uuid → Uuid → String
derive_key k tenant_id work_item_id operation_id = k.sha256_hex (
    k.join "\u{1f}" (
      "synthia.integration.execution.v1"
      ∷ k.uuid_text tenant_id
      ∷ k.uuid_text work_item_id
      ∷ k.uuid_text operation_id
      ∷ []))

pub record Announcement : Type 0 where
  pub job_id : Uuid
  pub kind : MessageKind
  pub correlation_id : String

pub record AuditRow : Type 0 where
  pub attempt : ExecutionAttempt
  pub work_item_id : Uuid
  pub occurred_at : Instant

-- The result columns of a job.
pub record JobResult : Type 0 where
  pub is_executed : Bool
  pub verification : VerificationOutcome
  pub execution_id : Uuid
  pub recorded_at : Instant

-- A row of `integration_job`, whose result columns are null until a result is recorded.
pub record ResultRow : Type 0 where
  pub job_id : Uuid
  pub result : Option JobResult

pub record Store : Type 0 where
  pub attempts : List ExecutionAttempt
  pub outbox : List Announcement
  pub audited : List AuditRow
  pub jobs : List ResultRow

-- `execution_for_key` found one.
unfoldable pub has_key : String → List ExecutionAttempt → Bool
has_key key attempts = any (λ (a : ExecutionAttempt). str_eq a.idempotency_key key) attempts

unfoldable pub has_id : Uuid → List ExecutionAttempt → Bool
has_id id attempts = any (λ (a : ExecutionAttempt). a.execution_id == id) attempts

-- A constraint of `execution_record` refuses the row: its unique key, its primary key, or one of its checks.
unfoldable pub is_constrained : List ExecutionAttempt → ExecutionAttempt → Bool
unfolding has_key has_id is_refusal
is_constrained attempts a =
    has_key a.idempotency_key attempts
    || (has_id a.execution_id attempts
        || (ltb a.catalogue_version 1
            || (is_refusal a.outcome && claims_confirmation a.verification)))

-- `ExecutionRepository.record`: the insert that a constraint may refuse, and the announcement.
unfoldable pub record_attempt : Store → ExecutionAttempt → MessageKind → Option Store
unfolding is_constrained
record_attempt s a kind =
    if is_constrained s.attempts a
    then none
    else some (record s {
      attempts = s.attempts ++ (a ∷ []);
      outbox =
          s.outbox
          ++ (record { job_id = a.job_id; kind = kind; correlation_id = a.correlation_id } ∷ []);
    })

unfoldable pub audit : Store → ExecutionAttempt → Uuid → Instant → Store
audit s a work_item_id occurred_at = record s {
  audited =
      s.audited
      ++ (record { attempt = a; work_item_id = work_item_id; occurred_at = occurred_at } ∷ []);
}

unfoldable pub is_success : ExecutionOutcome → Bool
is_success succeeded = true
is_success _ = false

unfoldable pub kind_of : ExecutionOutcome → MessageKind
unfolding is_success
kind_of outcome = if is_success outcome then completed else failed_kind

abbrev pub is_job : Uuid → ResultRow → Bool
is_job id r = r.job_id == id

-- `JobRepository.record_result`: the columns of the job's row, if it has one, whatever they held.
unfoldable pub record_result : Store → ExecutionAttempt → Store
unfolding is_success
record_result s a = record s {
  jobs =
      rewrite (is_job a.job_id)
        (λ (r : ResultRow). record r {
          result = some (record {
            is_executed = is_success a.outcome;
            verification = a.verification;
            execution_id = a.execution_id;
            recorded_at = a.completed_at;
          });
        })
        s.jobs;
}
