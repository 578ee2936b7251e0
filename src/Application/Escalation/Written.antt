-- ===== src/Application/Escalation/Written.antt =====
-- What an escalation has written when it returns and when it raises, and the key that it shares with the
-- anchoring: ragcore/src/ragcore/application/escalation.py and cases.py.
use itsm_poc.Common.{
  Bool, true, false, not, List, [], ◌∷◌, ok, err, ◌≡◌, ◌≤◌, refl, length, String, str_eq, ap,
  Bool-cases, inl, inr, if◌then◌else◌, Option, none, some, matching, matching-take,
  matching-sort_by, length-take, sort_by, arith,
}
use itsm_poc.Domain.Work.{
  SessionState, conversational, resolving, awaiting_user, awaiting_consent, awaiting_approval,
  staff_controlled, resolved, escalated, closed_declined, is_terminal,
}
use itsm_poc.Domain.Session.{transition, illegal_session_transition}
use itsm_poc.Domain.Records.{SessionId, PrincipalId, CorrelationId, TenantContext}
use itsm_poc.Retrieval.Scores.{Scores}
use itsm_poc.Retrieval.Hybrid.{RetrievedChunk}
use itsm_poc.Graph.State.{ConversationTurn}
use itsm_poc.Graph.Scope.{EscalationReason}
use itsm_poc.Application.Cases.{CaseText, CaseFact, CaseWrite, CaseWriteReceipt, anchor_write}
use itsm_poc.Application.Escalation.{
  EscalationText, escalate, explanation, outcome_from, reason_value, rendered_candidates,
  escalation_facts,
}
use itsm_poc.Application.Audit.{AuditEntry, work_escalated, escalation_entry}
use itsm_poc.Domain.Treatment.{no_execution}

escalates : (s : SessionState) → is_terminal s ≡ false → transition s escalated ≡ ok escalated
unfolding is_terminal transition
escalates resolved h = cc
escalates escalated h = cc
escalates closed_declined h = cc
escalates conversational h = refl
escalates resolving h = refl
escalates awaiting_user h = refl
escalates awaiting_consent h = refl
escalates awaiting_approval h = refl
escalates staff_controlled h = refl

stays :
    (s : SessionState)
    → is_terminal s ≡ true
    → transition s escalated ≡ err (illegal_session_transition s escalated)
unfolding is_terminal transition
stays resolved h = refl
stays escalated h = refl
stays closed_declined h = refl
stays conversational h = cc
stays resolving h = cc
stays awaiting_user h = cc
stays awaiting_consent h = cc
stays awaiting_approval h = cc
stays staff_controlled h = cc

-- What a case holds under a name: the fact that a later one of the same name does not replace.
pub fact_named : (name : String) → List CaseFact → Option String
fact_named name [] = none
fact_named name (fact ∷ facts) =
    let later = fact_named name facts in
    elim later [
      | none ↦ if str_eq fact.name name then some fact.fact else none
      | some text ↦ some text
    ]

-- An entry of the trail that says who asked and why, and that nobody executed or approved anything.
pub record Recorded (tenant : TenantContext) (correlation : CorrelationId) (requester : PrincipalId)
    (reason : EscalationReason) (entry : AuditEntry) : Type 0 where
  pub of_tenant : entry.tenant ≡ tenant
  pub correlated : entry.correlation_id ≡ correlation
  pub kind : entry.facts.kind ≡ work_escalated
  pub why : entry.facts.outcome ≡ reason_value reason
  pub asked : entry.chain.requested_by ≡ some requester
  pub unapproved : entry.chain.approved_by ≡ none
  pub unexecuted : entry.chain.execution_method ≡ no_execution

module _ {f : Scores} (t : CaseText) (e : EscalationText f) where
  -- What a person finds on the case that an escalation writes: the session's own case, under the key of its
  -- anchoring, with the reason, what the user is told, the transcript, and some of the candidates, five at most.
  pub record HandsOver (tenant : TenantContext) (session : SessionId) (requester : PrincipalId)
      (correlation : CorrelationId) (summary : String) (reason : EscalationReason)
      (conversation : List ConversationTurn) (candidates : List (RetrievedChunk f)) (w : CaseWrite)
      : Type 0 where
    pub of_tenant : w.tenant ≡ tenant
    pub same_case :
        w.case_reference
        ≡ (anchor_write t tenant session requester correlation summary).case_reference
    pub own_case : w.case_reference ≡ t.session_text session
    pub same_key :
        w.idempotency_key
        ≡ (anchor_write t tenant session requester correlation summary).idempotency_key
    pub correlated : w.correlation_id ≡ correlation
    pub of_session : fact_named "sessionId" w.facts ≡ some (t.session_text session)
    pub requested : fact_named "requestedByOid" w.facts ≡ some (t.principal_text requester)
    pub journey : fact_named "correlationId" w.facts ≡ some correlation.value
    pub why : fact_named "reason" w.facts ≡ some (reason_value reason)
    pub told : fact_named "explanation" w.facts ≡ some (explanation reason)
    pub transcribed : fact_named "transcript" w.facts ≡ some (e.transcript conversation)
    pub shown : List (RetrievedChunk f)
    pub evidence : fact_named "candidates" w.facts ≡ some (e.rendered shown)
    pub few : length shown ≤ 5
    pub among : (p : RetrievedChunk f → Bool) → matching p shown ≤ matching p candidates

  shown_among :
      (candidates : List (RetrievedChunk f)) (p : RetrievedChunk f → Bool)
      → matching p (rendered_candidates t e candidates) ≤ matching p candidates
  unfolding rendered_candidates
  shown_among candidates p =
      let by_score = λ (a b : RetrievedChunk f). not (f.le a.score b.score) in
      let kept = matching-take p 5 (sort_by by_score candidates) in
      let same = matching-sort_by by_score p candidates in omega (arith, kept, same)

  -- An escalation writes once, to the case and under the key of the session's anchoring, with the organisation,
  -- the correlation, the requester, the reason, the explanation and the transcript that it was given and at most
  -- five of the candidates; and it records one entry, that the requester's work was escalated for that reason.
  -- Both hold whether it returns or raises; it raises in the terminal states and in no other, and what it
  -- returns is the escalated state with the explanation that the case holds, queued unless the case system
  -- committed the write.
  pub escalate_writes :
      (receipt : CaseWriteReceipt) (tenant : TenantContext) (session : SessionId)
      (requester : PrincipalId) (correlation : CorrelationId) (summary : String)
      (reason : EscalationReason) (conversation : List ConversationTurn)
      (candidates : List (RetrievedChunk f)) (current : SessionState)
      → let done =
          escalate t e receipt tenant session requester correlation reason conversation candidates
            current in
        ((w : CaseWrite) × (done.writes ≡ w ∷ [])
          × HandsOver tenant session requester correlation summary reason conversation candidates w)
        × ((entry : AuditEntry) × (done.entries ≡ entry ∷ [])
            × Recorded tenant correlation requester reason entry)
        × (done.result ≡ (
            if is_terminal current
            then err (illegal_session_transition current escalated)
            else ok (record {
              reason = reason;
              explanation = explanation reason;
              session_state = escalated;
              queued = not receipt.committed;
            })))
  unfolding escalate anchor_write outcome_from escalation_facts fact_named escalation_entry
      rendered_candidates
  escalate_writes receipt tenant session requester correlation summary reason conversation
        candidates current =
      (
        (
          _,
          refl,
          record {
            of_tenant = refl;
            same_case = refl;
            own_case = refl;
            same_key = refl;
            correlated = refl;
            of_session = refl;
            requested = refl;
            journey = refl;
            why = refl;
            told = refl;
            transcribed = refl;
            shown = rendered_candidates t e candidates;
            evidence = refl;
            few = length-take 5 _;
            among = shown_among candidates;
          },
        ),
        (
          _,
          refl,
          record {
            of_tenant = refl;
            correlated = refl;
            kind = refl;
            why = refl;
            asked = refl;
            unapproved = refl;
            unexecuted = refl;
          },
        ),
        elim (Bool-cases (is_terminal current)) [
          | inl closed ↦
              rw (closed, if◌then◌else◌)
                (ap (outcome_from t e reason receipt) (stays current closed))
          | inr open_state ↦
              rw (open_state, if◌then◌else◌)
                (ap (outcome_from t e reason receipt) (escalates current open_state))
        ],
      )
