-- ===== src/Examples/Messaging.antt =====
-- The outbox, the sample flow and the idempotency records on concrete rows, and the theorems about them
-- applied to those.
use itsm_poc.Common.{
  true, List, [], ◌∷◌, ◌++◌, none, some, ok, err, length, ◌≡◌, ◌≤◌, refl, arith, All,
}
use itsm_poc.Domain.Records.{TenantContext, no_members}
use itsm_poc.Domain.Envelopes.{
  Envelope, trigger, command, approval_granted, integration_execute, integration_of,
  integration_value, trigger_value, trigger_of,
}
use itsm_poc.Messaging.Bodies.{UuidText, missing_key, envelope_from_row}
use itsm_poc.Persistence.Instructions.{
  Instruction, IntegrationJobRow, job_row, job_key, dispatch, read_result, result_from, result_of,
  mark_job_dispatched,
}
use itsm_poc.Persistence.Instructions.Announced.{Holds, announced, dispatch_announces}
use itsm_poc.Workers.Conclusions.{concluded_from, concluded_pending}
use itsm_poc.Messaging.Outbox.{OutboxRow, undispatched, enqueue}
use itsm_poc.Messaging.Retry.{default_policy}
use itsm_poc.Workers.Dispatch.{Passing, dispatch_once, tries, malformed_row}
use itsm_poc.Workers.Dispatch.Passes.{IsReadable, tried_in_full, malformed_row_stops}
use itsm_poc.Execution.Idempotency.{KeyText, IdempotencyRow, replay_key}
use itsm_poc.Execution.SampleFlow.{FlowDelivery, FlowStore, SampleFlowResult, deliver_all}
use itsm_poc.Execution.SampleFlow.Redeliveries.{effects_on, delivered_once}
use itsm_poc.Persistence.Rows.{row_at}
use itsm_poc.Persistence.WorkItems.Claims.{Keyed}
use itsm_poc.Domain.Work.{authorized, no_approval}
use itsm_poc.Domain.Records.{active, end_user_identity}

abbrev texts : UuidText
texts = record { uuid_text = λ id. "0007"; parse_uuid = λ text. some 7 }

abbrev granted : Envelope
granted = trigger (record {
  work_item_id = record { value = 7 };
  correlation_id = record { value = "c1" };
  kind = approval_granted;
})

abbrev ordered : Envelope
ordered = command (record {
  job_id = record { value = 7 };
  correlation_id = record { value = "c2" };
  kind = integration_execute;
})

abbrev owner : TenantContext
owner = record {
  tenant_id = record { value = 10 };
  entra_tenant_id = record { value = 500 };
  status = active;
  source = end_user_identity;
}

-- The second envelope was enqueued first.
abbrev outbox : List OutboxRow
outbox =
    enqueue texts (record { next_sequence = 4; clock = 1000 }) 41 owner granted
      (enqueue texts (record { next_sequence = 3; clock = 900 }) 31 owner ordered [])

abbrev passing : Passing
passing = record {
  texts = texts;
  policy = default_policy;
  accepts = λ try e. true;
  wording = λ attempts. "undispatchable";
  clock = 1100;
}

outbox-IsReadable : All (IsReadable passing) (undispatched 10 outbox)
unfolding IsReadable undispatched enqueue envelope_from_row integration_of integration_value
    trigger_value trigger_of
outbox-IsReadable = ((ordered, refl), ((granted, refl), tt))

sent_test : (dispatch_once passing 10 outbox).sent ≡ ordered ∷ granted ∷ []
unfolding dispatch_once undispatched enqueue envelope_from_row integration_of integration_value
    trigger_value trigger_of
sent_test = refl

tried_in_full_example :
    ((dispatch_once passing 10 outbox).raised ≡ none)
    × (tries (dispatch_once passing 10 outbox).counted ≡ length (undispatched 10 outbox))
    × (tries (dispatch_once passing 10 outbox).counted ≤ 10)
tried_in_full_example = tried_in_full passing 10 outbox outbox-IsReadable

-- A row without a correlation identifier.
abbrev poisoned : OutboxRow
poisoned = record {
  outbox_id = 21;
  tenant_id = 10;
  sequence = 2;
  occurred_at = 800;
  kind = "approval.granted";
  payload = ("workItemId", "0007") ∷ [];
  dispatched_at = none;
  attempts = 0;
  created_at = 800;
  updated_at = 800;
  version = 1;
}

poisoned_first : undispatched 1 (poisoned ∷ outbox) ≡ poisoned ∷ []
unfolding undispatched enqueue
poisoned_first = refl

poisoned_unread :
    envelope_from_row texts poisoned.kind poisoned.payload ≡ err (missing_key "correlationId")
unfolding envelope_from_row integration_of trigger_of
poisoned_unread = refl

malformed_row_stops_example :
    ((dispatch_once passing 10 (poisoned ∷ outbox)).raised
      ≡ some (malformed_row (missing_key "correlationId")))
    × ((dispatch_once passing 10 (poisoned ∷ outbox)).outbox ≡ poisoned ∷ outbox)
    × ((dispatch_once passing 10 (poisoned ∷ outbox)).sent ≡ [])
malformed_row_stops_example =
    malformed_row_stops passing poisoned (missing_key "correlationId") (poisoned ∷ outbox) 9
      poisoned_first poisoned_unread

abbrev instruction : Instruction
instruction = record {
  work_item_id = 70;
  operation_id = 71;
  tenant_id = 10;
  catalogue_id = "unlock";
  catalogue_version = 2;
  parameters = no_members;
  expires_at = 5000;
  correlation_id = record { value = "c3" };
}

-- The job of another dispatch.
abbrev other_jobs : List IntegrationJobRow
other_jobs = job_row 900 5 instruction ∷ []

dispatch_announces_example :
    ((r : IntegrationJobRow) × (row_at
          (job_key 7)
          (dispatch texts
            (record { next_sequence = 5; clock = 1100 })
            7
            51
            owner
            instruction
            other_jobs
            outbox).jobs
        ≡ some r)
      × Holds 7 instruction r)
    × (concluded_from (
          read_result 7
            (dispatch texts
              (record { next_sequence = 5; clock = 1100 })
              7
              51
              owner
              instruction
              other_jobs
              outbox).jobs)
        ≡ concluded_pending)
    × (announced texts
          (dispatch texts
            (record { next_sequence = 5; clock = 1100 })
            7
            51
            owner
            instruction
            other_jobs
            outbox).outbox
        ≡ announced texts outbox
          ++ (ok (
                command (record {
                  job_id = record { value = 7 };
                  correlation_id = record { value = "c3" };
                  kind = integration_execute;
                }))
              ∷ []))
unfolding job_row
dispatch_announces_example =
    dispatch_announces texts (record { next_sequence = 5; clock = 1100 }) 7 51 owner instruction
      other_jobs outbox refl refl

-- Once its command is sent, a job that waits for its result still does.
marked_still_pending :
    concluded_from (read_result 5 (mark_job_dispatched 950 5 other_jobs)) ≡ concluded_pending
unfolding job_row read_result result_from result_of mark_job_dispatched concluded_from
marked_still_pending = refl

abbrev keys : KeyText
keys = record {
  uuid_text = λ id. "0007";
  format = λ parts. "synthia-v1:k";
  sha256_hex = λ text. text;
}

abbrev reserved : IdempotencyRow
reserved = record {
  idempotency_key = "synthia-v1:k";
  tenant_id = 10;
  operation_id = 60;
  outcome = none;
  created_at = 800;
  updated_at = 800;
}

reserved_found : row_at (replay_key owner "synthia-v1:k") (reserved ∷ []) ≡ some reserved
unfolding replay_key
reserved_found = refl

abbrev delivery : FlowDelivery
delivery = record {
  tenant = owner;
  work_item_id = record { value = 7 };
  operation_id = record { value = 60 };
  correlation_id = "c1";
  now = 1000;
  clock = 1001;
  has_notifications = true;
}

abbrev flow_store : FlowStore
flow_store = record {
  items =
      record {
        work_item_id = 7;
        tenant_id = 10;
        session_id = 900;
        requested_by_oid = 800;
        case_reference = none;
        governed_action = none;
        target = none;
        state = authorized;
        approval_state = no_approval;
        expires_at = some 2000;
        claimed_at = none;
        claimed_by = none;
        outcome = none;
        created_at = 100;
        updated_at = 100;
        created_by = none;
        updated_by = none;
        version = 3;
      }
      ∷ [];
  records = [];
  notified = [];
}

flow_items-Keyed : Keyed flow_store.items
unfolding Keyed
flow_items-Keyed id = ground arith

delivered_once_example :
    (out : List (FlowDelivery × SampleFlowResult) × FlowStore) × (deliver_all keys
        (delivery ∷ delivery ∷ [])
        flow_store
      ≡ ok out)
    × (effects_on 7 out.0 ≤ 1)
delivered_once_example =
    delivered_once keys 7 (delivery ∷ delivery ∷ []) flow_store flow_items-Keyed
