-- ===== src/Domain/Envelopes.antt =====
-- What crosses the queues: ragcore/src/ragcore/domain/envelopes.py.
use itsm_poc.Common.{
  Bool, true, false, String, str_eq, Option, none, some, if◌then◌else◌, ◌≡◌, refl,
}
use itsm_poc.Domain.Records.{Uuid, WorkItemId, CorrelationId}

pub data TriggerKind : Type 0 where
  approval_granted approval_rejected consent_granted consent_refused sample_flow : TriggerKind

unfoldable pub trigger_value : TriggerKind → String
trigger_value approval_granted = "approval.granted"
trigger_value approval_rejected = "approval.rejected"
trigger_value consent_granted = "consent.granted"
trigger_value consent_refused = "consent.refused"
trigger_value sample_flow = "sample.flow"

-- `TriggerKind(text)`.
unfoldable pub trigger_of : String → Option TriggerKind
trigger_of text =
    if str_eq text "approval.granted"
    then some approval_granted
    else if str_eq text "approval.rejected"
    then some approval_rejected
    else if str_eq text "consent.granted"
    then some consent_granted
    else if str_eq text "consent.refused"
    then some consent_refused
    else if str_eq text "sample.flow"
    then some sample_flow
    else none

unfoldable pub resumes_to_execution : TriggerKind → Bool
resumes_to_execution approval_granted = true
resumes_to_execution consent_granted = true
resumes_to_execution sample_flow = true
resumes_to_execution _ = false

pub record TriggerEnvelope : Type 0 where
  pub work_item_id : WorkItemId
  pub correlation_id : CorrelationId
  pub kind : TriggerKind

pub data IntegrationMessageKind : Type 0 where
  integration_execute integration_completed integration_failed : IntegrationMessageKind

unfoldable pub integration_value : IntegrationMessageKind → String
integration_value integration_execute = "integration.execute"
integration_value integration_completed = "integration.completed"
integration_value integration_failed = "integration.failed"

-- `IntegrationMessageKind(text)`.
unfoldable pub integration_of : String → Option IntegrationMessageKind
integration_of text =
    if str_eq text "integration.execute"
    then some integration_execute
    else if str_eq text "integration.completed"
    then some integration_completed
    else if str_eq text "integration.failed"
    then some integration_failed
    else none

unfoldable pub is_outbound : IntegrationMessageKind → Bool
is_outbound integration_execute = true
is_outbound _ = false

pub record IntegrationJobId : Type 0 where
  pub value : Uuid

pub record IntegrationCommandEnvelope : Type 0 where
  pub job_id : IntegrationJobId
  pub correlation_id : CorrelationId
  pub kind : IntegrationMessageKind

-- `TriggerEnvelope | IntegrationCommandEnvelope`.
pub data Envelope : Type 0 where
  trigger : TriggerEnvelope → Envelope
  command : IntegrationCommandEnvelope → Envelope

pub trigger_of-trigger_value : (k : TriggerKind) → trigger_of (trigger_value k) ≡ some k
unfolding trigger_of trigger_value
trigger_of-trigger_value approval_granted = refl
trigger_of-trigger_value approval_rejected = refl
trigger_of-trigger_value consent_granted = refl
trigger_of-trigger_value consent_refused = refl
trigger_of-trigger_value sample_flow = refl

pub integration_of-integration_value :
    (k : IntegrationMessageKind) → integration_of (integration_value k) ≡ some k
unfolding integration_of integration_value
integration_of-integration_value integration_execute = refl
integration_of-integration_value integration_completed = refl
integration_of-integration_value integration_failed = refl

-- No trigger is named like an integration message.
pub integration_of-trigger_value : (k : TriggerKind) → integration_of (trigger_value k) ≡ none
unfolding integration_of trigger_value
integration_of-trigger_value approval_granted = refl
integration_of-trigger_value approval_rejected = refl
integration_of-trigger_value consent_granted = refl
integration_of-trigger_value consent_refused = refl
integration_of-trigger_value sample_flow = refl
