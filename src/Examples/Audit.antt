-- ===== src/Examples/Audit.antt =====
-- The audit trail, feedback and the owners of stored objects on concrete rows, and the theorem about the trail
-- applied to them.
use itsm_poc.Common.{false, [], ◌∷◌, none, some, err, ◌≡◌, refl}
use itsm_poc.Domain.Treatment.{no_execution, staff_approval}
use itsm_poc.Domain.Records.{CorrelationId, JsonObject, json_int, member, no_members}
use itsm_poc.Application.Audit.{ActorChain, AuditFacts, gate_refused}
use itsm_poc.Persistence.Audit.{AuditEventRow, two_horizons, audit_row, record_event}
use itsm_poc.Persistence.Audit.Trail.{added}
use itsm_poc.Persistence.Feedback.{
  Conversations, FeedbackRow, by_agent, by_end_user, positive, negative, record_feedback,
  withdraw_feedback,
}
use itsm_poc.Examples.Inputs.{tenant, alice}

abbrev journey : CorrelationId
journey = record { value = "c-1" }

abbrev chain : ActorChain
chain = record {
  executed_by = "none";
  execution_method = no_execution;
  requested_by = some alice;
  approved_by = none;
}

abbrev facts : AuditFacts
facts = record {
  kind = gate_refused;
  outcome = "consent_refused";
  treatment = some staff_approval;
  verification = none;
}

-- Audit events are kept for ten days.
abbrev ten_days : JsonObject
ten_days = member "audit" (json_int 10) no_members

abbrev event : AuditEventRow
event = added 1000 tenant 7 journey chain facts none (some ten_days)

two_horizons_are_refused :
    record_event 1000 tenant 7 journey chain facts none (some 5000) (some ten_days) []
    ≡ err two_horizons
unfolding record_event
two_horizons_are_refused = refl

-- The treatment is in no column: an event of another treatment is the same row.
treatment_is_not_kept :
    added 1000 tenant 7 journey chain (record facts { treatment = none }) none (some ten_days)
    ≡ event
unfolding audit_row
treatment_is_not_kept = refl

abbrev conversations : Conversations
conversations = record {
  sessions = record { session_id = 3; tenant_id = 11; requester_oid = alice.value } ∷ [];
  messages =
      record { message_id = 5; session_id = 3; tenant_id = 11; sender_kind = by_agent }
      ∷ record { message_id = 6; session_id = 3; tenant_id = 11; sender_kind = by_end_user }
      ∷ [];
}

abbrev thumb : FeedbackRow
thumb = record {
  feedback_id = 90;
  tenant_id = 11;
  message_id = 5;
  session_id = 3;
  given_by_oid = alice.value;
  signal = positive;
}

second_signal_replaces :
    (record_feedback 91 tenant 5 alice negative conversations (thumb ∷ [])).rows
    ≡ record thumb { signal = negative } ∷ []
unfolding record_feedback
second_signal_replaces = refl

own_message_is_refused :
    record_feedback 91 tenant 6 alice negative conversations (thumb ∷ [])
    ≡ record { rows = thumb ∷ []; answer = false }
unfolding record_feedback
own_message_is_refused = refl

withdrawn_is_gone : (withdraw_feedback tenant 5 alice conversations (thumb ∷ [])).rows ≡ []
unfolding withdraw_feedback
withdrawn_is_gone = refl
