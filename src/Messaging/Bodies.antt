-- ===== src/Messaging/Bodies.antt =====
-- Envelopes as texts and back: the bodies of ragcore/src/ragcore/messaging/publisher.py, the payloads of
-- `Outbox` in persistence/repositories.py, `envelope_from_row` of ragcore/workers/outbox_dispatch.py and
-- `parse_message` of ragcore/workers/resume_worker.py. A decoded body is its fields, all of them texts.
use itsm_poc.Common.{
  List, [], ◌∷◌, String, str_eq, Option, none, some, Result, ok, err, ◌>>=◌, if◌then◌else◌, ◌≡◌,
  refl,
}
use itsm_poc.Domain.Records.{Uuid}
use itsm_poc.Domain.Envelopes.{
  TriggerEnvelope, IntegrationMessageKind, IntegrationCommandEnvelope, Envelope, trigger, command,
  trigger_value, trigger_of, integration_value, integration_of, trigger_of-trigger_value,
  integration_of-integration_value, integration_of-trigger_value,
}

abbrev pub Fields : Type 0
Fields = List (String × String)

-- `str` of a UUID, and `UUID` of a text.
pub record UuidText : Type 0 where
  pub uuid_text : Uuid → String
  pub parse_uuid : String → Option Uuid

-- What reading an envelope raises.
pub data BodyError : Type 0 where
  missing_key : String → BodyError
  bad_uuid unknown_kind : BodyError

-- `payload[key]`.
unfoldable pub field_at : String → Fields → Result BodyError String
field_at key [] = err (missing_key key)
field_at key ((name, text) ∷ rest) =
    let later = field_at key rest in if str_eq name key then ok text else later

unfoldable pub demand : {A : Type 0} → BodyError → Option A → Result BodyError A
demand e none = err e
demand e (some a) = ok a

module _ (m : UuidText) where
  open m use {uuid_text, parse_uuid}

  unfoldable pub trigger_body : TriggerEnvelope → Fields
  trigger_body e =
      ("workItemId", uuid_text e.work_item_id.value)
      ∷ ("correlationId", e.correlation_id.value)
      ∷ ("kind", trigger_value e.kind)
      ∷ []

  unfoldable pub integration_command_body : IntegrationCommandEnvelope → Fields
  integration_command_body e =
      ("jobId", uuid_text e.job_id.value)
      ∷ ("correlationId", e.correlation_id.value)
      ∷ ("kind", integration_value e.kind)
      ∷ []

  unfoldable pub message_body : Envelope → Fields
  unfolding trigger_body integration_command_body
  message_body (trigger e) = trigger_body e
  message_body (command e) = integration_command_body e

  unfoldable pub command_payload : IntegrationCommandEnvelope → Fields
  command_payload e =
      ("jobId", uuid_text e.job_id.value) ∷ ("correlationId", e.correlation_id.value) ∷ []

  unfoldable pub trigger_payload : TriggerEnvelope → Fields
  trigger_payload e =
      ("workItemId", uuid_text e.work_item_id.value)
      ∷ ("correlationId", e.correlation_id.value)
      ∷ []

  trigger_from : (kind : String) → Fields → Result BodyError Envelope
  unfolding field_at demand
  trigger_from kind payload = do
    work_text ← field_at "workItemId" payload
    work_item ← demand bad_uuid (parse_uuid work_text)
    correlation ← field_at "correlationId" payload
    known ← demand unknown_kind (trigger_of kind)
    ok (
        trigger (record {
          work_item_id = record { value = work_item };
          correlation_id = record { value = correlation };
          kind = known;
        }))

  command_from : IntegrationMessageKind → Fields → Result BodyError Envelope
  unfolding field_at demand
  command_from known payload = do
    job_text ← field_at "jobId" payload
    job ← demand bad_uuid (parse_uuid job_text)
    correlation ← field_at "correlationId" payload
    ok (
        command (record {
          job_id = record { value = job };
          correlation_id = record { value = correlation };
          kind = known;
        }))

  read_as : (kind : String) → Fields → Option IntegrationMessageKind → Result BodyError Envelope
  unfolding trigger_from command_from
  read_as kind payload none = trigger_from kind payload
  read_as kind payload (some known) = command_from known payload

  -- From the two columns of a row that it reads.
  unfoldable pub envelope_from_row :
      (kind : String) → (payload : Fields) → Result BodyError Envelope
  unfolding read_as
  envelope_from_row kind payload = read_as kind payload (integration_of kind)

  -- The envelope of a decoded body.
  unfoldable pub parse_message : Fields → Result BodyError TriggerEnvelope
  unfolding field_at demand
  parse_message body = do
    work_text ← field_at "workItemId" body
    work_item ← demand bad_uuid (parse_uuid work_text)
    correlation ← field_at "correlationId" body
    kind_text ← field_at "kind" body
    known ← demand unknown_kind (trigger_of kind_text)
    ok (record {
      work_item_id = record { value = work_item };
      correlation_id = record { value = correlation };
      kind = known;
    })

  -- The columns that an envelope is enqueued with.
  unfoldable pub row_kind : Envelope → String
  row_kind (trigger e) = trigger_value e.kind
  row_kind (command e) = integration_value e.kind

  unfoldable pub row_payload : Envelope → Fields
  unfolding trigger_payload command_payload
  row_payload (trigger e) = trigger_payload e
  row_payload (command e) = command_payload e

  unfoldable pub subject_id : Envelope → Uuid
  subject_id (trigger e) = e.work_item_id.value
  subject_id (command e) = e.job_id.value

  -- Where `UUID` reads what `str` wrote of the envelope's subject, the columns that an envelope of either
  -- type is enqueued with are read back as that envelope.
  pub envelope_from_row-row_payload :
      (e : Envelope)
      → parse_uuid (uuid_text (subject_id e)) ≡ some (subject_id e)
      → envelope_from_row (row_kind e) (row_payload e) ≡ ok e
  unfolding envelope_from_row row_kind row_payload trigger_payload command_payload read_as
      trigger_from command_from field_at demand subject_id
  envelope_from_row-row_payload (trigger e) reads =
      rw (integration_of-trigger_value e.kind, reads, trigger_of-trigger_value e.kind) refl
  envelope_from_row-row_payload (command e) reads =
      rw (integration_of-integration_value e.kind, reads) refl

  -- Where `UUID` reads what `str` wrote of the work item, the consumer reads the body of a published
  -- trigger as that trigger.
  pub parse_message-trigger_body :
      (e : TriggerEnvelope)
      → parse_uuid (uuid_text e.work_item_id.value) ≡ some e.work_item_id.value
      → parse_message (trigger_body e) ≡ ok e
  unfolding parse_message trigger_body field_at demand
  parse_message-trigger_body e reads = rw (reads, trigger_of-trigger_value e.kind) refl
