-- ===== src/Application/Escalation.antt =====
-- The hand-over of a session to a person: ragcore/src/ragcore/application/escalation.py.
pub mod Written
use itsm_poc.Common.{ℕ, Bool, not, List, [], ◌∷◌, map, take, sort_by, String, Result, ok, err}
use itsm_poc.Domain.Work.{SessionState, escalated}
use itsm_poc.Domain.Session.{SessionError, transition}
use itsm_poc.Domain.Records.{SessionId, PrincipalId, CorrelationId, TenantContext}
use itsm_poc.Retrieval.Scores.{Scores}
use itsm_poc.Retrieval.Hybrid.{RetrievedChunk}
use itsm_poc.Graph.State.{ConversationTurn}
use itsm_poc.Graph.Scope.{
  EscalationReason, insufficient_knowledge, not_permitted, human_decision_required, out_of_scope,
  unanswered_it_question, external_system_unavailable,
}
use itsm_poc.Application.Audit.{AuditEntry, escalation_entry}
use itsm_poc.Application.Cases.{CaseText, CaseFact, CaseWrite, CaseWriteReceipt, anchor_key}

unfoldable pub reason_value : EscalationReason → String
reason_value insufficient_knowledge = "insufficient_knowledge"
reason_value not_permitted = "not_permitted"
reason_value human_decision_required = "human_decision_required"
reason_value out_of_scope = "out_of_scope"
reason_value unanswered_it_question = "unanswered_it_question"
reason_value external_system_unavailable = "external_system_unavailable"

-- `_EXPLANATIONS`.
unfoldable pub explanation : EscalationReason → String
explanation insufficient_knowledge =
    "I could not find guidance specific enough to your organisation to act on, so I have passed this to the support team with everything you have told me."
explanation not_permitted =
    "This is not something I am permitted to do, so I have passed it to the support team, who can take it forward."
explanation human_decision_required =
    "This needs a person to decide before anything happens, so I have passed it to the support team rather than acting on it myself."
explanation out_of_scope =
    "This is outside what I can help with, so I have passed it to the support team."
explanation unanswered_it_question =
    "I could not answer this one, so I have passed it to the support team with what you have told me."
explanation external_system_unavailable =
    "A system I need is temporarily unavailable, so I have passed this to the support team. Nothing is wrong with your request."

-- The rendering of the two lists.
pub record EscalationText (f : Scores) : Type 0 where
  pub transcript : List ConversationTurn → String
  pub rendered : List (RetrievedChunk f) → String

abbrev pub max_queued_candidates : ℕ
max_queued_candidates = 5

pub record EscalationOutcome : Type 0 where
  pub reason : EscalationReason
  pub explanation : String
  pub session_state : SessionState
  pub queued : Bool

-- What an escalation awaited, and what it returned or raised.
pub record Escalated : Type 0 where
  pub writes : List CaseWrite
  pub entries : List AuditEntry
  pub result : Result SessionError EscalationOutcome

module _ {f : Scores} (t : CaseText) (e : EscalationText f) where
  -- The candidates that `_render_candidates` renders.
  unfoldable pub rendered_candidates : List (RetrievedChunk f) → List (RetrievedChunk f)
  rendered_candidates candidates =
      take max_queued_candidates
        (sort_by (λ (a b : RetrievedChunk f). not (f.le a.score b.score)) candidates)

  unfoldable pub escalation_facts :
      SessionId
      → PrincipalId
      → CorrelationId
      → EscalationReason
      → List ConversationTurn
      → List (RetrievedChunk f)
      → List CaseFact
  unfolding reason_value explanation rendered_candidates
  escalation_facts session requester correlation reason conversation candidates =
      record { name = "sessionId"; fact = t.session_text session }
      ∷ record { name = "requestedByOid"; fact = t.principal_text requester }
      ∷ record { name = "correlationId"; fact = correlation.value }
      ∷ record { name = "escalatedAt"; fact = t.now_text }
      ∷ record { name = "reason"; fact = reason_value reason }
      ∷ record { name = "explanation"; fact = explanation reason }
      ∷ record { name = "transcript"; fact = e.transcript conversation }
      ∷ record { name = "candidates"; fact = e.rendered (rendered_candidates candidates) }
      ∷ []

  unfoldable pub outcome_from :
      EscalationReason
      → CaseWriteReceipt
      → Result SessionError SessionState
      → Result SessionError EscalationOutcome
  unfolding explanation
  outcome_from reason receipt (err raised) = err raised
  outcome_from reason receipt (ok state) = ok (record {
    reason = reason;
    explanation = explanation reason;
    session_state = state;
    queued = not receipt.committed;
  })

  -- `escalate`; the receipt is what the case system answers.
  unfoldable pub escalate :
      CaseWriteReceipt
      → TenantContext
      → SessionId
      → PrincipalId
      → CorrelationId
      → EscalationReason
      → List ConversationTurn
      → List (RetrievedChunk f)
      → SessionState
      → Escalated
  unfolding escalation_facts outcome_from transition anchor_key escalation_entry reason_value
  escalate receipt tenant session requester correlation reason conversation candidates current =
      record {
        writes =
            record {
              tenant = tenant;
              case_reference = t.session_text session;
              facts = escalation_facts session requester correlation reason conversation candidates;
              idempotency_key = anchor_key t session;
              correlation_id = correlation;
            }
            ∷ [];
        entries = escalation_entry tenant correlation requester (reason_value reason) ∷ [];
        result = outcome_from reason receipt (transition current escalated);
      }
