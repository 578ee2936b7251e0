-- ===== src/Integrations/Seam.antt =====
-- The two sides of the queues between the services: the bodies of ragcore/src/ragcore/messaging/publisher.py,
-- as integrations/src/integrations/messaging/envelope.py reads them, and the envelopes of the latter, as
-- ragcore/workers/integration_result_worker.py reads them. A body that `json.dumps` wrote is decoded as the
-- object that it was.
use itsm_poc.Common.{true, [], ◌∷◌, String, some, ok, err, ◌≡◌, ◌≢◌, refl}
use itsm_poc.Domain.Records.{
  Uuid, CorrelationId, Json, json_str, json_object, JsonObject, no_members, member,
}
use itsm_poc.Domain.Envelopes.{
  TriggerEnvelope, trigger, IntegrationMessageKind, integration_execute, integration_completed,
  integration_failed, integration_value, integration_of,
}
use itsm_poc.Messaging.Bodies.{Fields, UuidText, field_at, demand, message_body}
use itsm_poc.Persistence.Instructions.{execute_command}
use itsm_poc.Workers.Conclusions.{parse_result}
use itsm_poc.Integrations.Envelope.{
  MessageKind, execute, completed, failed_kind, forbidden_fields, EnvelopeMethods, has_field,
  from_json, to_json, kind_value, has_forbidden, field_of, from_json_read, from_json_forbidden,
}

-- The object that a body of texts is decoded as.
unfoldable pub decoded : Fields → JsonObject
decoded [] = no_members
decoded ((name, text) ∷ rest) = member name (json_str text) (decoded rest)

-- The fields of a decoded body that are texts.
unfoldable pub text_fields : JsonObject → Fields
text_fields no_members = []
text_fields (member name (json_str text) rest) = (name, text) ∷ text_fields rest
text_fields (member name _ rest) = text_fields rest

unfoldable pub fields_of_body : Json → Fields
unfolding text_fields
fields_of_body (json_object fields) = text_fields fields
fields_of_body _ = []

-- The orchestrator's name of a kind.
unfoldable pub kind_in_ragcore : MessageKind → IntegrationMessageKind
kind_in_ragcore execute = integration_execute
kind_in_ragcore completed = integration_completed
kind_in_ragcore failed_kind = integration_failed

module _ (t : UuidText) (m : EnvelopeMethods) where
  command_read :
      ((s : String) → m.text_of (json_str s) ≡ s)
      → (job_id : Uuid) (correlation : CorrelationId)
      → m.parse_uuid (t.uuid_text job_id) ≡ some job_id
      → m.is_well_formed correlation.value ≡ true
      → from_json m
          (some (json_object (decoded (message_body t (execute_command job_id correlation)))))
        ≡ ok (record { job_id = job_id; correlation_id = correlation.value; kind = execute })
  unfolding decoded message_body execute_command has_forbidden field_of kind_value integration_value
  command_read texts job_id correlation uuid well =
      from_json_read m texts _ _ (t.uuid_text job_id) refl refl refl refl uuid well

  result_read :
      (job_id : Uuid) (correlation : CorrelationId) (k : MessageKind)
      → t.parse_uuid (m.uuid_text job_id) ≡ some job_id
      → k ≢ execute
      → parse_result t (
          fields_of_body
            (to_json m (record { job_id = job_id; correlation_id = correlation.value; kind = k })))
        ≡ ok (record {
          job_id = record { value = job_id };
          correlation_id = correlation;
          kind = kind_in_ragcore k;
        })
  unfolding parse_result fields_of_body to_json kind_in_ragcore field_at demand kind_value
      integration_of
  result_read job_id correlation execute uuid other = absurd (other refl)
  result_read job_id correlation completed uuid other = rw uuid refl
  result_read job_id correlation failed_kind uuid other = rw uuid refl

  trigger_refused :
      (e : TriggerEnvelope)
      → from_json m (some (json_object (decoded (message_body t (trigger e)))))
        ≡ err forbidden_fields
  unfolding decoded message_body has_field
  trigger_refused e = from_json_forbidden m "workItemId" _ refl refl

  -- Where `str` of a text is the text, each service's `UUID` reads what the other's `str` wrote of the job, and
  -- the correlation identifier is well formed, the services understand each other's messages about it: the
  -- command that is published for a dispatched job is read as the command to execute that job, what is
  -- sent of a completed or a failed execution is read as the result of that job, and the trigger of a work item
  -- is no message of the seam.
  pub services_agree :
      ((s : String) → m.text_of (json_str s) ≡ s)
      → (job_id : Uuid) (correlation : CorrelationId)
      → m.parse_uuid (t.uuid_text job_id) ≡ some job_id
      → t.parse_uuid (m.uuid_text job_id) ≡ some job_id
      → m.is_well_formed correlation.value ≡ true
      → (from_json m
            (some (json_object (decoded (message_body t (execute_command job_id correlation)))))
          ≡ ok (record { job_id = job_id; correlation_id = correlation.value; kind = execute }))
        × ((k : MessageKind)
            → k ≢ execute
            → parse_result t (
                fields_of_body (
                  to_json m
                    (record { job_id = job_id; correlation_id = correlation.value; kind = k })))
              ≡ ok (record {
                job_id = record { value = job_id };
                correlation_id = correlation;
                kind = kind_in_ragcore k;
              }))
        × ((e : TriggerEnvelope)
            → from_json m (some (json_object (decoded (message_body t (trigger e)))))
              ≡ err forbidden_fields)
  services_agree texts job_id correlation there back well = (
    command_read texts job_id correlation there well,
    (λ k other. result_read job_id correlation k back other),
    trigger_refused,
  )
