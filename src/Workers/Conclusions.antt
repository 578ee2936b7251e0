-- ===== src/Workers/Conclusions.antt =====
-- What the orchestrator concludes from a result: `IntegrationResult` of
-- ragcore/src/ragcore/persistence/integration_jobs.py, and ragcore/workers/integration_result_worker.py.
-- The decoded body of a message is its fields, all of them texts.
use itsm_poc.Common.{
  Bool, true, false, ◌&&◌, not, ◌||◌, any, String, str_eq, Option, none, some, Result, ok, err,
  ◌>>=◌, if◌then◌else◌, ◌≡◌, ◌↔◌, refl, arith,
}
use itsm_poc.Domain.Records.{Uuid, Instant, CorrelationId}
use itsm_poc.Domain.Envelopes.{
  IntegrationMessageKind, integration_execute, integration_completed, integration_failed,
  integration_of, IntegrationJobId,
}
use itsm_poc.Messaging.Bodies.{
  Fields, UuidText, BodyError, unknown_kind, bad_uuid, field_at, demand,
}

pub record IntegrationResult : Type 0 where
  pub has_executed : Bool
  pub verification_text : Option String
  pub execution_id : Option Uuid
  pub recorded_at : Option Instant

unfoldable pub is_pending : IntegrationResult → Bool
is_pending r = elim r.recorded_at [ none ↦ true | some _ ↦ false ]

is_text : Option String → String → Bool
is_text none expected = false
is_text (some text) expected = str_eq text expected

unfoldable pub may_report_result : IntegrationResult → Bool
unfolding is_text
may_report_result r = r.has_executed && is_text r.verification_text "server_confirmed"

pub data Conclusion : Type 0 where
  concluded_resolved acted_unverified concluded_failed concluded_pending : Conclusion

conclude : IntegrationResult → Conclusion
unfolding is_pending may_report_result
conclude r =
    if is_pending r
    then concluded_pending
    else if not r.has_executed
    then concluded_failed
    else if may_report_result r
    then concluded_resolved
    else acted_unverified

unfoldable pub concluded_from : Option IntegrationResult → Conclusion
unfolding conclude
concluded_from none = concluded_pending
concluded_from (some r) = conclude r

pub record ConsumedResult : Type 0 where
  pub job_id : IntegrationJobId
  pub correlation_id : CorrelationId
  pub kind : IntegrationMessageKind

-- The reasons that a message on the results queue is no result.
pub data ResultError : Type 0 where
  forbidden_result_fields not_consumed_here : ResultError
  bad_body : BodyError → ResultError

is_permitted_field : String → Bool
is_permitted_field name = str_eq name "jobId" || (str_eq name "correlationId" || str_eq name "kind")

handled_kind : IntegrationMessageKind → Result ResultError IntegrationMessageKind
handled_kind integration_execute = err not_consumed_here
handled_kind integration_completed = ok integration_completed
handled_kind integration_failed = ok integration_failed

as_result : {A : Type 0} → Result BodyError A → Result ResultError A
as_result (err e) = err (bad_body e)
as_result (ok a) = ok a

-- The fields of `parse_result_message`; the trace context is not modelled.
unfoldable pub parse_result : UuidText → Fields → Result ResultError ConsumedResult
unfolding is_permitted_field handled_kind as_result field_at demand
parse_result m body =
    if any (λ (f : String × String). not (is_permitted_field f.0)) body
    then err forbidden_result_fields
    else do
      kind_text ← as_result (field_at "kind" body)
      known ← as_result (demand unknown_kind (integration_of kind_text))
      kind ← handled_kind known
      job_text ← as_result (field_at "jobId" body)
      job ← as_result (demand bad_uuid (m.parse_uuid job_text))
      correlation ← as_result (field_at "correlationId" body)
      ok (record {
        job_id = record { value = job };
        correlation_id = record { value = correlation };
        kind = kind;
      })

-- A result is concluded as resolved exactly when it is recorded, the operation ran, and the server
-- confirmed it.
pub concluded_resolved_iff :
    (r : IntegrationResult)
    → (concluded_from (some r) ≡ concluded_resolved)
      ↔ ((is_pending r ≡ false) × (may_report_result r ≡ true))
unfolding concluded_from is_pending may_report_result
concluded_resolved_iff r = ((λ h. ground arith), (λ (recorded, told). ground arith))

-- A recorded result of an operation that ran, which a read contradicted, is concluded as acted upon and
-- unverified.
pub contradicted_acts :
    (r : IntegrationResult)
    → is_pending r ≡ false
    → r.has_executed ≡ true
    → r.verification_text ≡ some "contradicted"
    → concluded_from (some r) ≡ acted_unverified
unfolding concluded_from may_report_result
contradicted_acts r recorded ran text = rw (recorded, ran, text) refl
