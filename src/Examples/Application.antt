-- ===== src/Examples/Application.antt =====
-- Sessions, cases and screened calls on concrete inputs, and the theorems about them applied to those.
use itsm_poc.Common.{
  ℕ, true, false, not, List, [], ◌∷◌, none, some, String, ok, err, ◌≡◌, ◌↔◌, refl, if◌then◌else◌,
  matching,
}
use itsm_poc.Domain.Work.{
  SessionState, resolving, conversational, staff_controlled, resolved, escalated, is_terminal,
}
use itsm_poc.Domain.Session.{illegal_session_transition}
use itsm_poc.Domain.Records.{SessionId, CorrelationId}
use itsm_poc.Graph.Scope.{TextMethods, SessionTurn, acknowledgements, insufficient_knowledge}
use itsm_poc.Application.Sessions.{advance}
use itsm_poc.Application.Sessions.Opening.{
  Visit, serve, served_from, first_articulated, finds_request, articulated_opens,
}
use itsm_poc.Application.Cases.{CaseText, CaseWrite, CaseWriteReceipt}
use itsm_poc.Application.Escalation.{EscalationText, escalate, explanation}
use itsm_poc.Application.Escalation.Written.{HandsOver, Recorded, escalate_writes}
use itsm_poc.Application.Audit.{AuditEntry}
use itsm_poc.Model.Safety.{
  Ports, inbound, outbound, permit_verdict, complete, content_blocked, unavailable,
}
use itsm_poc.Model.Safety.Screened.{Passes, complete_iff}
use itsm_poc.Examples.Inputs.{tenant, alice, cents}

-- Methods under which one text is a request of four words.
abbrev methods : TextMethods
methods = record {
  split = λ text. "my" ∷ "laptop" ∷ "will" ∷ "not" ∷ "start" ∷ [];
  strip = λ text. text;
  strip_marks = λ marks text. text;
  rstrip_marks = λ marks text. text;
  lower = λ text. text;
  len = λ text. 24;
}

abbrev said_turns : List SessionTurn
said_turns = record { content = "my laptop will not start"; sender_is_end_user = true } ∷ []

abbrev visit : SessionState → ℕ → Visit
visit s n = record { turns = said_turns; current = s; item = record { value = n } }

-- A turn while staff control the session opens an item that the session does not come to know, and the turn
-- after it, in a state that takes work, raises too.
staff_turn_strands :
    serve methods none none (visit staff_controlled 1 ∷ visit conversational 2 ∷ [])
    ≡ record { bound = some (record { value = 1 }); known = none; raised = 2 }
unfolding serve advance acknowledgements
staff_turn_strands = refl

articulated_opens_example :
    serve methods none none (visit conversational 1 ∷ visit resolving 2 ∷ [])
    ≡ served_from
        (first_articulated methods (visit conversational 1 ∷ visit resolving 2 ∷ []))
        (matching (finds_request methods) (visit conversational 1 ∷ visit resolving 2 ∷ []))
articulated_opens_example =
    articulated_opens methods (visit conversational 1 ∷ visit resolving 2 ∷ [])

abbrev case_text : CaseText
case_text = record {
  session_text = λ session. "session";
  principal_text = λ principal. "principal";
  now_text = "2026-01-01T00:00:00+00:00";
  anchored = λ text. "case.anchor:session";
}

abbrev escalation_text : EscalationText cents
escalation_text = record { transcript = λ conversation. ""; rendered = λ candidates. "" }

abbrev session : SessionId
session = record { value = 3 }

abbrev journey : CorrelationId
journey = record { value = "c-1" }

abbrev queued_receipt : CaseWriteReceipt
queued_receipt = record { committed = false; queued = true }

escalate_writes_example :
    let done =
      escalate case_text escalation_text queued_receipt tenant session alice journey
        insufficient_knowledge [] [] resolved in
    ((w : CaseWrite) × (done.writes ≡ w ∷ [])
      × HandsOver case_text escalation_text tenant session alice journey "laptop"
          insufficient_knowledge [] [] w)
    × ((entry : AuditEntry) × (done.entries ≡ entry ∷ [])
        × Recorded tenant journey alice insufficient_knowledge entry)
    × (done.result ≡ (
        if is_terminal resolved
        then err (illegal_session_transition resolved escalated)
        else ok (record {
          reason = insufficient_knowledge;
          explanation = explanation insufficient_knowledge;
          session_state = escalated;
          queued = not queued_receipt.committed;
        })))
escalate_writes_example =
    escalate_writes case_text escalation_text queued_receipt tenant session alice journey "laptop"
      insufficient_knowledge [] [] resolved

-- A screen that does not answer for one text, and a model that repeats its prompt.
abbrev ports : Ports String String
ports = record {
  screen = λ text d. some (permit_verdict d);
  inner = λ prompt. ok prompt;
  text_of = λ text. text;
}

unanswered_screen_blocks :
    (complete (record ports { screen = λ text d. none }) "reset my password").result
    ≡ err (content_blocked (unavailable inbound))
unfolding complete
unanswered_screen_blocks = refl

complete_iff_example : ((complete ports "reset my password").result ≡ ok "reset my password") ↔ (
    Passes ports "reset my password" inbound
    × (ports.inner "reset my password" ≡ ok "reset my password")
    × Passes ports (ports.text_of "reset my password") outbound)
complete_iff_example = complete_iff ports "reset my password" "reset my password"
