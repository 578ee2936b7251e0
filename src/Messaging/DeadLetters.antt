-- ===== src/Messaging/DeadLetters.antt =====
-- What a dead-lettered message is worth: ragcore/src/ragcore/messaging/deadletter.py.
use itsm_poc.Common.{
  Bool, true, false, ◌&&◌, not, String, Option, none, some, if◌then◌else◌, ◌≡◌, ◌↔◌, ◌⊎◌, inl, inr,
  refl,
}
use itsm_poc.Domain.Envelopes.{
  TriggerKind, approval_granted, approval_rejected, consent_granted, consent_refused, sample_flow,
  trigger_of, resumes_to_execution,
}

pub data DeadLetterSeverity : Type 0 where
  governance operational : DeadLetterSeverity

pub record DeadLetterReport : Type 0 where
  pub work_item_id : String
  pub correlation_id : String
  pub kind : String
  pub reason : String
  pub severity : DeadLetterSeverity

unfoldable pub requires_fresh_authorization : DeadLetterReport → Bool
requires_fresh_authorization r = elim r.severity [ governance ↦ true | operational ↦ false ]

abbrev is_sample : TriggerKind → Bool
is_sample sample_flow = true
is_sample _ = false

unfoldable pub severity_for : TriggerKind → DeadLetterSeverity
unfolding resumes_to_execution
severity_for k = if resumes_to_execution k && not (is_sample k) then governance else operational

severity_of_kind : Option TriggerKind → DeadLetterSeverity
unfolding severity_for
severity_of_kind none = operational
severity_of_kind (some k) = severity_for k

unfoldable pub report_dead_letter :
    (work_item_id correlation_id kind reason : String) → DeadLetterReport
unfolding severity_of_kind
report_dead_letter work_item_id correlation_id kind reason = record {
  work_item_id = work_item_id;
  correlation_id = correlation_id;
  kind = kind;
  reason = reason;
  severity = severity_of_kind (trigger_of kind);
}

graded :
    (o : Option TriggerKind)
    → (severity_of_kind o ≡ governance) ↔ ((o ≡ some approval_granted) ⊎ (o ≡ some consent_granted))
unfolding severity_of_kind severity_for resumes_to_execution
graded none = ((λ h. cc), (λ h. elim h [ inl e ↦ cc | inr e ↦ cc ]))
graded (some approval_granted) = ((λ h. inl refl), (λ h. refl))
graded (some consent_granted) = ((λ h. inr refl), (λ h. refl))
graded (some approval_rejected) = ((λ h. cc), (λ h. elim h [ inl e ↦ cc | inr e ↦ cc ]))
graded (some consent_refused) = ((λ h. cc), (λ h. elim h [ inl e ↦ cc | inr e ↦ cc ]))
graded (some sample_flow) = ((λ h. cc), (λ h. elim h [ inl e ↦ cc | inr e ↦ cc ]))

-- A dead letter is reported as one that needs a fresh authorization exactly when its kind is read as
-- a granted approval or a granted consent; a kind that is not known is reported as operational.
pub report_dead_letter_lem :
    (work_item_id correlation_id kind reason : String)
    → ((report_dead_letter work_item_id correlation_id kind reason).severity ≡ governance)
      ↔ ((trigger_of kind ≡ some approval_granted) ⊎ (trigger_of kind ≡ some consent_granted))
unfolding report_dead_letter
report_dead_letter_lem work_item_id correlation_id kind reason = graded (trigger_of kind)
