-- ===== src/Integrations/Consumer.antt =====
-- The consumer of commands: integrations/src/integrations/messaging/consumer.py.
use itsm_poc.Common.{List, [], String, Option, Result, ok, err, if◌then◌else◌, ◌≡◌, ◌≢◌, refl}
use itsm_poc.Domain.Records.{Json}
use itsm_poc.Integrations.Envelope.{
  MessageKind, execute, completed, failed_kind, MessageEnvelope, EnvelopeError, EnvelopeMethods,
  from_json,
}
use itsm_poc.Integrations.Attempts.{LegError, Store}
use itsm_poc.Integrations.Leg.{World, Delivery, ExecutionReport, Call, run_leg}

pub data Disposition : Type 0 where
  complete dead_letter abandon : Disposition

pub record HandledMessage : Type 0 where
  pub disposition : Disposition
  pub reason : String

-- A handled message, with the tables and the calls that its handling left.
pub record Handled : Type 0 where
  pub message : HandledMessage
  pub store : Store
  pub calls : List Call

verdict_of : Result LegError ExecutionReport → HandledMessage
verdict_of (err e) = record { disposition = abandon; reason = "transient" }
verdict_of (ok r) =
    if r.dead_letter
    then record { disposition = dead_letter; reason = "unknown-job" }
    else record { disposition = complete; reason = "" }

handle_report : Delivery → Handled
unfolding verdict_of
handle_report d = record { message = verdict_of d.report; store = d.store; calls = d.calls }

turned_away : Store → String → Handled
turned_away found reason = record {
  message = record { disposition = dead_letter; reason = reason };
  store = found;
  calls = [];
}

handle_kind : World → (seen found : Store) → MessageEnvelope → MessageKind → Handled
unfolding turned_away handle_report
handle_kind w seen found e execute = handle_report (run_leg w seen found e.job_id e.correlation_id)
handle_kind w seen found e _ = turned_away found "unexpected-kind"

handle_envelope : World → (seen found : Store) → Result EnvelopeError MessageEnvelope → Handled
unfolding turned_away handle_kind
handle_envelope w seen found (err e) = turned_away found "envelope-contract"
handle_envelope w seen found (ok e) = handle_kind w seen found e e.kind

-- `CommandConsumer.handle`, from what the body decodes to.
unfoldable pub handle : EnvelopeMethods → World → (seen found : Store) → Option Json → Handled
unfolding handle_envelope
handle m w seen found body = handle_envelope w seen found (from_json m body)

kind-handled :
    (w : World) (seen found : Store) (e : MessageEnvelope) (k : MessageKind)
    → (handle_kind w seen found e k).calls ≢ []
    → (k ≡ execute)
      × ((handle_kind w seen found e k).calls
          ≡ (run_leg w seen found e.job_id e.correlation_id).calls)
unfolding handle_kind handle_report turned_away
kind-handled w seen found e execute n = (refl, refl)
kind-handled w seen found e completed n = absurd (n refl)
kind-handled w seen found e failed_kind n = absurd (n refl)

envelope-handled :
    (w : World) (seen found : Store) (r : Result EnvelopeError MessageEnvelope)
    → (handle_envelope w seen found r).calls ≢ []
    → (e : MessageEnvelope) × (r ≡ ok e)
      × (e.kind ≡ execute)
      × ((handle_envelope w seen found r).calls
          ≡ (run_leg w seen found e.job_id e.correlation_id).calls)
unfolding handle_envelope turned_away
envelope-handled w seen found (err x) n = absurd (n refl)
envelope-handled w seen found (ok e) n =
    let (kind, calls) = kind-handled w seen found e e.kind n in (e, refl, kind, calls)

-- A message that led to an invocation was a well formed envelope of the kind `integration.execute`,
-- and what was invoked is what the leg invokes for the job that the envelope names.
pub handle_invokes :
    (m : EnvelopeMethods) (w : World) (seen found : Store) (body : Option Json)
    → (handle m w seen found body).calls ≢ []
    → (e : MessageEnvelope) × (from_json m body ≡ ok e)
      × (e.kind ≡ execute)
      × ((handle m w seen found body).calls
          ≡ (run_leg w seen found e.job_id e.correlation_id).calls)
unfolding handle
handle_invokes m w seen found body n = envelope-handled w seen found (from_json m body) n
