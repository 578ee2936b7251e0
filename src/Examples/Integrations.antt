-- ===== src/Examples/Integrations.antt =====
-- Deliveries of the integrations service on concrete inputs, and its theorems applied.
use itsm_poc.Common.{
  true, false, ◌∷◌, [], List, String, none, some, some_injective, Result, ok, err, ◌≡◌, ◌≢◌, refl,
  sym, ap, ◌⊎◌, ◌<◌,
}
use itsm_poc.Domain.Treatment.{client_attested}
use itsm_poc.Domain.Work.{approved_state}
use itsm_poc.Domain.Records.{Json, json_str, json_object, no_members}
use itsm_poc.Integrations.Catalogue.{CapabilityIdentity, ConnectorBinding, derived_key, permitted}
use itsm_poc.Integrations.Access.{Facts, AccessHolds, evaluate_access}
use itsm_poc.Integrations.Jobs.{
  JobInstruction, is_executable_at, approval_value, is_executable_approved,
}
use itsm_poc.Domain.Envelopes.{TriggerEnvelope, trigger}
use itsm_poc.Messaging.Bodies.{UuidText, message_body}
use itsm_poc.Persistence.Instructions.{execute_command}
use itsm_poc.Workers.Conclusions.{parse_result}
use itsm_poc.Integrations.Seam.{decoded, fields_of_body, kind_in_ragcore, services_agree}
use itsm_poc.Integrations.Envelope.{
  MessageKind, forbidden_fields, MessageEnvelope, execute, EnvelopeMethods, from_json, to_json,
  kind_value, parse_kind, has_forbidden,
}
use itsm_poc.Integrations.Attempts.{
  Store, has_key, has_id, is_constrained, record_attempt, new_attempt, is_refusal, succeeded,
  record_result, audit, is_success,
}
use itsm_poc.Integrations.Leg.{World, returned, run_leg, record_outcome, Call, ExecutionReport}
use itsm_poc.Integrations.Leg.Results.{latest}
use itsm_poc.Integrations.Leg.Tables.{Consistent, Leaves, run_leg-Leaves}
use itsm_poc.Integrations.Leg.Invocations.{Warranted, run_leg-Warranted}
use itsm_poc.Integrations.Leg.Redelivery.{redelivery_invokes_nothing}
use itsm_poc.Integrations.Consumer.{handle, handle_invokes}

abbrev capability : CapabilityIdentity
capability = record { catalogue_id = "password.reset"; version = 2 }

abbrev binding : ConnectorBinding
binding = record {
  identity = capability;
  connector_id = "directory";
  base_endpoint = "https://directory.example";
  operation_path = "reset";
  signing_profile = none;
  idempotency_policy = derived_key;
  is_reference_fixture = false;
}

abbrev facts : Facts
facts = record {
  is_entitled = λ tenant id. true;
  registered_version = λ id. some 2;
  binding_for = λ identity. some binding;
}

access : AccessHolds facts 11 capability binding
access = record { entitled = refl; registered_at = refl; bound_by = refl }

abbrev job : JobInstruction
job = record {
  job_id = 7;
  work_item_id = 9;
  operation_id = 8;
  tenant_id = 11;
  identity = capability;
  parameters = no_members;
  expires_at = 1900;
  work_state = "claimed";
  approval_state = "approved";
  tenant_status = "active";
}

approval_text : job.approval_state ≡ approval_value approved_state
unfolding approval_value
approval_text = refl

job_executable : is_executable_at job 1500 ≡ true
unfolding is_executable_at
job_executable = refl

is_executable_approved_example :
    (approved_state ≡ approved_state) × (job.tenant_status ≡ "active") × (1500 < job.expires_at)
is_executable_approved_example =
    is_executable_approved job 1500 approved_state approval_text job_executable

abbrev first_of : List String → String
first_of [] = ""
first_of (text ∷ texts) = text

abbrev world : World
world = record {
  load = λ id. some job;
  facts = facts;
  invoke =
      λ call. returned (record { has_succeeded = true; external_reference = none; payload = none });
  keys = record {
    uuid_text = λ id. "id";
    join = λ separator parts. first_of parts;
    sha256_hex = λ text. text;
  };
  now = 1500;
  started = 1501;
  completed = 1502;
  fresh_id = 70;
}

abbrev empty_store : Store
empty_store = record { attempts = []; outbox = []; audited = []; jobs = [] }

-- The row of the job, and that of another, without results.
abbrev job_store : Store
job_store = record empty_store {
  jobs = record { job_id = 7; result = none } ∷ record { job_id = 8; result = none } ∷ [];
}

job-Consistent : Consistent job_store
unfolding latest
job-Consistent = record {
  unique = tt;
  audited = refl;
  announced = refl;
  resulted = (refl, (refl, tt));
  attested = tt;
}

run_leg-Leaves_example : Leaves world job_store "c1" (run_leg world job_store job_store 7 "c1")
run_leg-Leaves_example = run_leg-Leaves world job_store job_store 7 "c1" job-Consistent

-- The delivery writes the result into the row of its job alone.
recorded_result :
    (run_leg world job_store job_store 7 "c1").store.jobs
    ≡ record {
      job_id = 7;
      result = some (record {
        is_executed = true;
        verification = client_attested;
        execution_id = 70;
        recorded_at = 1502;
      });
    }
      ∷ record { job_id = 8; result = none }
      ∷ []
unfolding run_leg is_executable_at evaluate_access permitted record_outcome new_attempt is_refusal
    record_attempt has_key has_id is_constrained record_result audit is_success
recorded_result = refl

run_leg-Warranted_example :
    ((run_leg world empty_store empty_store 7 "c1").calls ≡ [])
    ⊎ ((call : Call) × ((run_leg world empty_store empty_store 7 "c1").calls ≡ call ∷ [])
        × Warranted world empty_store "c1" empty_store (some job) call)
run_leg-Warranted_example = run_leg-Warranted world empty_store empty_store 7 "c1"

abbrev report_or : ExecutionReport → {E : Type 0} → Result E ExecutionReport → ExecutionReport
report_or r (ok s) = s
report_or r (err e) = r

abbrev report : ExecutionReport
report = record { executed = true; outcome = some succeeded; dead_letter = false }

reported : (run_leg world empty_store empty_store 7 "c1").report ≡ ok report
unfolding run_leg is_executable_at evaluate_access permitted record_outcome new_attempt is_refusal
    record_attempt has_key has_id is_constrained
reported = refl

redelivery_invokes_nothing_example :
    let left = (run_leg world empty_store empty_store 7 "c1").store in
    (run_leg world left left 7 "c1").calls ≡ []
redelivery_invokes_nothing_example =
    let left = (run_leg world empty_store empty_store 7 "c1").store in
    redelivery_invokes_nothing world world empty_store empty_store left left 7 "c1" job report refl
      reported refl refl refl
      (λ identity b e. ap (λ (x : ConnectorBinding). x.idempotency_policy) (sym (some_injective e)))
      (λ key h. h)

abbrev text_of : Json → String
text_of (json_str text) = text
text_of _ = ""

abbrev methods : EnvelopeMethods
methods = record {
  text_of = text_of;
  parse_uuid = λ text. some 7;
  uuid_text = λ id. "0007";
  is_well_formed = λ text. true;
}

abbrev envelope : MessageEnvelope
envelope = record { job_id = 7; correlation_id = "c1"; kind = execute }

handled_calls :
    (handle methods world empty_store empty_store (some (to_json methods envelope))).calls ≢ []
unfolding handle to_json from_json kind_value parse_kind has_forbidden run_leg is_executable_at
    evaluate_access permitted record_outcome new_attempt is_refusal record_attempt has_key has_id
    is_constrained
handled_calls = λ e. cc

handle_invokes_example :
    (e : MessageEnvelope) × (from_json methods (some (to_json methods envelope)) ≡ ok e)
    × (e.kind ≡ execute)
    × ((handle methods world empty_store empty_store (some (to_json methods envelope))).calls
        ≡ (run_leg world empty_store empty_store e.job_id e.correlation_id).calls)
handle_invokes_example =
    handle_invokes methods world empty_store empty_store (some (to_json methods envelope))
      handled_calls

abbrev ragcore_texts : UuidText
ragcore_texts = record { uuid_text = λ id. "0007"; parse_uuid = λ text. some 7 }

services_agree_example :
    (from_json methods (
        some (
          json_object
            (decoded (message_body ragcore_texts (execute_command 7 (record { value = "c1" }))))))
      ≡ ok (record { job_id = 7; correlation_id = "c1"; kind = execute }))
    × ((k : MessageKind)
        → k ≢ execute
        → parse_result ragcore_texts (
            fields_of_body
              (to_json methods (record { job_id = 7; correlation_id = "c1"; kind = k })))
          ≡ ok (record {
            job_id = record { value = 7 };
            correlation_id = record { value = "c1" };
            kind = kind_in_ragcore k;
          }))
    × ((e : TriggerEnvelope)
        → from_json methods (some (json_object (decoded (message_body ragcore_texts (trigger e)))))
          ≡ err forbidden_fields)
services_agree_example =
    services_agree ragcore_texts methods (λ s. refl) 7 (record { value = "c1" }) refl refl refl
