-- ===== src/Graph/Nodes/Interrupts.antt =====
-- The two nodes that wait for a human: ragcore/src/ragcore/graph/nodes/interrupts.py.
use itsm_poc.Common.{Bool, true, false, Option, none, some}
use itsm_poc.Domain.Work.{
  SessionState, awaiting_consent, awaiting_approval, ApprovalVerdict, approved, rejected,
  ConsentVerdict, granted, refused,
}
use itsm_poc.Domain.Records.{WorkItemId, StaffVerdict, EndUserConsent}
use itsm_poc.Retrieval.Scores.{Scores}
use itsm_poc.Graph.State.{consent_decision, approval_decision}
use itsm_poc.Graph.Ports.{RunContext, Answers, Update, nothing}

module _ (f : Scores) where
  open f use {Score}

  is_granted : ConsentVerdict → Bool
  is_granted granted = true
  is_granted refused = false

  is_approved : ApprovalVerdict → Bool
  is_approved approved = true
  is_approved rejected = false

  mirror_consent : EndUserConsent → Update Score
  unfolding is_granted
  mirror_consent c = record nothing {
    decision = some (record {
      kind = consent_decision;
      decision_id = c.consent_id.value;
      decided_by = c.consented_by;
      favourable = is_granted c.verdict;
      decided_at = c.decided_at;
      expires_at = none;
    });
    pending_interrupt = some none;
  }

  mirror_verdict : StaffVerdict → Update Score
  unfolding is_approved
  mirror_verdict v = record nothing {
    decision = some (record {
      kind = approval_decision;
      decision_id = v.approval_id.value;
      decided_by = v.decided_by;
      favourable = is_approved v.verdict;
      decided_at = v.decided_at;
      expires_at = none;
    });
    pending_interrupt = some none;
  }

  still_awaiting : SessionState → Update Score
  still_awaiting s = record nothing { session_state = some s }

  consent_read : Answers Score → Option WorkItemId → Update Score
  unfolding mirror_consent still_awaiting
  consent_read a none = still_awaiting awaiting_consent
  consent_read a (some id) = elim (a.consent_for id) [
    | some c ↦ mirror_consent c
    | none ↦ still_awaiting awaiting_consent
  ]

  unfoldable pub await_consent : RunContext → Answers Score → Update Score
  unfolding consent_read
  await_consent ctx a = consent_read a ctx.work_item_id

  verdict_read : Answers Score → Option WorkItemId → Update Score
  unfolding mirror_verdict still_awaiting
  verdict_read a none = still_awaiting awaiting_approval
  verdict_read a (some id) = elim (a.verdict_for id) [
    | some v ↦ mirror_verdict v
    | none ↦ still_awaiting awaiting_approval
  ]

  unfoldable pub await_approval : RunContext → Answers Score → Update Score
  unfolding verdict_read
  await_approval ctx a = verdict_read a ctx.work_item_id
