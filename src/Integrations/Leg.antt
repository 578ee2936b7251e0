-- ===== src/Integrations/Leg.antt =====
-- The execution leg: integrations/src/integrations/execution/executor.py. One delivery reads the
-- durable state, invokes at most once and writes its rows; what other replicas wrote between the
-- check of the key and the transaction is the store that the transaction finds.
pub mod Invocations
pub mod Redelivery
pub mod Results
pub mod Tables
use itsm_poc.Common.{
  ℕ, Bool, true, false, List, [], ◌∷◌, String, str_eq, Option, none, some, Result, ok, err,
  if◌then◌else◌,
}
use itsm_poc.Domain.Treatment.{VerificationOutcome, client_attested}
use itsm_poc.Domain.Records.{Uuid, Instant, JsonObject}
use itsm_poc.Integrations.Catalogue.{
  AccessDecision, AccessRefusal, not_entitled, not_registered, version_mismatch, no_binding,
  ConnectorBinding, IdempotencyPolicy, derived_key, no_key, permitted,
}
use itsm_poc.Integrations.Access.{Facts, evaluate_access}
use itsm_poc.Integrations.Jobs.{JobInstruction, is_executable_at}
use itsm_poc.Integrations.Attempts.{
  ExecutionOutcome, succeeded, failed, refused_unentitled, refused_unregistered, refused_version,
  refused_window, unreachable, ExecutionAttempt, LegError, escaped, new_attempt, KeyMethods,
  derive_key, Store, has_key, record_attempt, audit, record_result, kind_of,
}

-- `_REFUSAL_OUTCOME`.
unfoldable pub refusal_outcome : AccessRefusal → ExecutionOutcome
refusal_outcome not_entitled = refused_unentitled
refusal_outcome not_registered = refused_unregistered
refusal_outcome version_mismatch = refused_version
refusal_outcome no_binding = refused_unregistered

pub record InvocationResult : Type 0 where
  pub has_succeeded : Bool
  pub external_reference : Option String
  pub payload : Option JsonObject

-- How a call of the invoker ends: it returns, it raises EgressError or BoundaryValidationError, or
-- it raises anything else.
pub data Answered : Type 0 where
  returned : InvocationResult → Answered
  transport_failed raised : Answered

pub record Call : Type 0 where
  pub binding : ConnectorBinding
  pub tenant_id : Uuid
  pub parameters : JsonObject
  pub key : Option String
  pub correlation_id : String

-- What one delivery is answered from outside.
pub record World : Type 0 where
  pub load : Uuid → Option JobInstruction
  pub facts : Facts
  pub invoke : Call → Answered
  pub keys : KeyMethods
  pub now : Instant
  pub started : Instant
  pub completed : Instant
  pub fresh_id : Uuid

pub record ExecutionReport : Type 0 where
  pub executed : Bool
  pub outcome : Option ExecutionOutcome
  pub dead_letter : Bool

-- What one delivery leaves: its report or what escaped it, the tables, and its calls.
pub record Delivery : Type 0 where
  pub report : Result LegError ExecutionReport
  pub store : Store
  pub calls : List Call

abbrev suppressed : ExecutionReport
suppressed = record { executed = false; outcome = none; dead_letter = false }

key_or : Option String → String → String
key_or none derived = derived
key_or (some key) derived = if str_eq key "" then derived else key

abbrev connector_or_none : String → String
connector_or_none connector_id = if str_eq connector_id "" then "none" else connector_id

-- What the branches of `run` hand to `_record`.
pub record Attempted : Type 0 where
  pub connector_id : String
  pub outcome : ExecutionOutcome
  pub verification : VerificationOutcome
  pub attempted_at : Instant
  pub external_reference : Option String
  pub normalized_result : Option JsonObject
  pub key : Option String

module _ (w : World) (found : Store) (correlation_id : String) where
  attempt_of : JobInstruction → Attempted → ExecutionAttempt
  unfolding key_or
  attempt_of job a = record {
    execution_id = w.fresh_id;
    job_id = job.job_id;
    tenant_id = job.tenant_id;
    connector_id = connector_or_none a.connector_id;
    catalogue_id = job.identity.catalogue_id;
    catalogue_version = job.identity.version;
    idempotency_key =
        key_or a.key (derive_key w.keys job.tenant_id job.work_item_id job.operation_id);
    outcome = a.outcome;
    verification = a.verification;
    correlation_id = correlation_id;
    attempted_at = a.attempted_at;
    completed_at = w.completed;
    external_reference = a.external_reference;
    normalized_result = a.normalized_result;
  }

  -- The transaction: rolled back when the insert was refused.
  written_delivery : JobInstruction → ExecutionAttempt → List Call → Option Store → Delivery
  written_delivery job a calls none = record {
    report = ok suppressed;
    store = found;
    calls = calls;
  }
  written_delivery job a calls (some s) = record {
    report = ok (record { executed = true; outcome = some a.outcome; dead_letter = false });
    store = record_result (audit s a job.work_item_id a.attempted_at) a;
    calls = calls;
  }

  recorded_delivery : JobInstruction → List Call → Result LegError ExecutionAttempt → Delivery
  unfolding written_delivery
  recorded_delivery job calls (err e) = record { report = err e; store = found; calls = calls }
  recorded_delivery job calls (ok a) =
      written_delivery job a calls (record_attempt found a (kind_of a.outcome))

  -- `_record`.
  unfoldable pub record_outcome : JobInstruction → List Call → Attempted → Delivery
  unfolding attempt_of recorded_delivery
  record_outcome job calls a = recorded_delivery job calls (new_attempt (attempt_of job a))

  refused_attempt : ExecutionOutcome → Attempted
  refused_attempt outcome = record {
    connector_id = "";
    outcome = outcome;
    verification = client_attested;
    attempted_at = w.now;
    external_reference = none;
    normalized_result = none;
    key = none;
  }

  invoked : JobInstruction → Call → Answered → Delivery
  invoked job call raised = record { report = err escaped; store = found; calls = call ∷ [] }
  invoked job call transport_failed = record_outcome job (call ∷ []) (record {
    connector_id = call.binding.connector_id;
    outcome = unreachable;
    verification = client_attested;
    attempted_at = w.started;
    external_reference = none;
    normalized_result = none;
    key = none;
  })
  invoked job call (returned r) = record_outcome job (call ∷ []) (record {
    connector_id = call.binding.connector_id;
    outcome = if r.has_succeeded then succeeded else failed;
    verification = client_attested;
    attempted_at = w.started;
    external_reference = r.external_reference;
    normalized_result = r.payload;
    key = call.key;
  })

  pub key_for : JobInstruction → IdempotencyPolicy → Option String
  key_for job derived_key = some (derive_key w.keys job.tenant_id job.work_item_id job.operation_id)
  key_for job no_key = none

  pub is_duplicate : Store → Option String → Bool
  is_duplicate seen none = false
  is_duplicate seen (some key) = has_key key seen.attempts

  call_for : JobInstruction → ConnectorBinding → Call
  unfolding key_for
  call_for job binding = record {
    binding = binding;
    tenant_id = job.tenant_id;
    parameters = job.parameters;
    key = key_for job binding.idempotency_policy;
    correlation_id = correlation_id;
  }

  -- Past the access check.
  invoke_once : Store → JobInstruction → Call → Delivery
  unfolding invoked is_duplicate
  invoke_once seen job call =
      if is_duplicate seen call.key
      then record { report = ok suppressed; store = found; calls = [] }
      else invoked job call (w.invoke call)

  outcome_of_refusal : Option AccessRefusal → ExecutionOutcome
  outcome_of_refusal none = failed
  outcome_of_refusal (some why) = refusal_outcome why

  -- A decision is permitted only with its binding, so the first clause is what `assert` rules out.
  with_binding : Store → JobInstruction → Option ConnectorBinding → Delivery
  unfolding invoke_once call_for
  with_binding seen job none = record { report = err escaped; store = found; calls = [] }
  with_binding seen job (some binding) = invoke_once seen job (call_for job binding)

  decided : Store → JobInstruction → AccessDecision → Delivery
  unfolding refused_attempt outcome_of_refusal with_binding
  decided seen job d =
      if permitted d
      then with_binding seen job d.binding
      else record_outcome job [] (refused_attempt (outcome_of_refusal d.refusal))

  run_job : Store → Option JobInstruction → Delivery
  unfolding refused_attempt decided
  run_job seen none = record {
    report = ok (record { executed = false; outcome = none; dead_letter = true });
    store = found;
    calls = [];
  }
  run_job seen (some job) =
      if is_executable_at job w.now
      then decided seen job (evaluate_access w.facts job.tenant_id job.identity)
      else record_outcome job [] (refused_attempt refused_window)

-- `ExecutionLeg.run`: `seen` is what the check of the key reads, `found` what the transaction finds.
unfoldable pub run_leg : World → (seen found : Store) → Uuid → String → Delivery
unfolding run_job
run_leg w seen found job_id correlation_id = run_job w found correlation_id seen (w.load job_id)
