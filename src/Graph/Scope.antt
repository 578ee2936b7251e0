-- ===== src/Graph/Scope.antt =====
-- The scope guardrail's decision and the triage gate: classify_scope of
-- ragcore/src/ragcore/graph/nodes/guardrail.py and assess_triage of
-- ragcore/src/ragcore/application/sessions.py.
use itsm_poc.Common.{
  ℕ, Bool, true, false, not, ◌&&◌, Option, none, some, List, [], ◌∷◌, String, str_eq, any, map,
  length, leb, if◌then◌else◌,
}

-- The methods of `str` that the two functions call; both are parametric in them.
pub record TextMethods : Type 0 where
  pub split : String → List String
  pub strip : String → String
  pub strip_marks : (marks : String) → String → String
  pub rstrip_marks : (marks : String) → String → String
  pub lower : String → String
  pub len : String → ℕ

abbrev pub is_one_of : List String → String → Bool
is_one_of words word = any (str_eq word) words

unfoldable pub it_vocabulary : List String
it_vocabulary =
    "access" ∷ "account" ∷ "application" ∷ "browser" ∷ "certificate" ∷ "computer" ∷ "connect"
    ∷ "crash" ∷ "device" ∷ "disk" ∷ "email" ∷ "error" ∷ "install" ∷ "laptop" ∷ "licence" ∷ "license"
    ∷ "login" ∷ "mailbox" ∷ "network" ∷ "outlook" ∷ "password" ∷ "permission" ∷ "printer" ∷ "reset"
    ∷ "server" ∷ "software" ∷ "teams" ∷ "update" ∷ "vpn" ∷ "wifi" ∷ "windows" ∷ []

unfoldable pub out_of_scope_vocabulary : List String
out_of_scope_vocabulary =
    "appraisal" ∷ "bonus" ∷ "expenses" ∷ "grievance" ∷ "holiday" ∷ "invoice" ∷ "maternity"
    ∷ "payroll" ∷ "payslip" ∷ "pension" ∷ "recruitment" ∷ "resignation" ∷ "salary" ∷ "sickness"
    ∷ "timesheet" ∷ []

unfoldable pub acknowledgements : List String
acknowledgements =
    "hi" ∷ "hello" ∷ "hey" ∷ "thanks" ∷ "thank you" ∷ "ok" ∷ "okay" ∷ "yes" ∷ "no" ∷ "sure"
    ∷ "please" ∷ "help" ∷ "good morning" ∷ "good afternoon" ∷ "are you there" ∷ []

pub data ScopeOutcome : Type 0 where
  continue decline escalate : ScopeOutcome

pub data EscalationReason : Type 0 where
  insufficient_knowledge not_permitted human_decision_required out_of_scope unanswered_it_question
        external_system_unavailable :
      EscalationReason

pub record ScopeDecision : Type 0 where
  pub outcome : ScopeOutcome
  pub escalation_reason : Option EscalationReason

unfoldable pub in_scope : Bool → ScopeDecision
in_scope grounded =
    if grounded
    then record { outcome = continue; escalation_reason = none }
    else record { outcome = escalate; escalation_reason = some unanswered_it_question }

pub data TriageOutcome : Type 0 where
  articulated still_conversational : TriageOutcome

pub record SessionTurn : Type 0 where
  pub content : String
  pub sender_is_end_user : Bool

module _ (m : TextMethods) where
  open m use {split, strip, strip_marks, rstrip_marks, lower, len}

  unfoldable pub words_of : String → List String
  words_of text = map (λ word. lower (strip_marks ".,!?;:'\"" word)) (split text)

  -- `words & VOCABULARY` is not empty.
  unfoldable pub mentions : List String → List String → Bool
  mentions vocabulary words = any (is_one_of vocabulary) words

  unfoldable pub classify_scope : String → Bool → ScopeDecision
  unfolding words_of mentions in_scope
  classify_scope text grounded =
      if mentions it_vocabulary (words_of text)
      then in_scope grounded
      else if mentions out_of_scope_vocabulary (words_of text)
      then record { outcome = decline; escalation_reason = none }
      else in_scope grounded

  -- The turn is a request: long enough, and no mere acknowledgement.
  articulates : String → Bool
  articulates text =
      not (is_one_of acknowledgements (rstrip_marks "!.?" (lower text)))
      && (leb 15 (len text) && leb 4 (length (split text)))

  unfoldable pub assess_triage : List SessionTurn → TriageOutcome
  unfolding articulates
  assess_triage [] = still_conversational
  assess_triage (turn ∷ turns) =
      let rest = assess_triage turns in
      if turn.sender_is_end_user && articulates (strip turn.content) then articulated else rest

unfoldable pub commits_work : TriageOutcome → Bool
commits_work articulated = true
commits_work still_conversational = false
