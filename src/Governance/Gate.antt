-- ===== src/Governance/Gate.antt =====
-- The control gate: ragcore/src/ragcore/governance/gate.py.
pub mod Agreement
pub mod Authorization
pub mod Outcomes
pub mod Window
pub mod Withholding
use itsm_poc.Common.{
  Bool, true, false, not, Option, none, some, Result, ok, ◌>>=◌, leb, if◌then◌else◌,
}
use itsm_poc.Domain.Treatment.{
  ExecutionTreatment, auto, end_user_approval, staff_approval, not_allowed,
}
use itsm_poc.Domain.Roles.{AuthorizationDecision, evaluate_roles}
use itsm_poc.Domain.Work.{
  ApprovalVerdict, approved, rejected, ConsentVerdict, granted, refused, InterruptKind, consent,
  approval,
}
use itsm_poc.Domain.Records.{
  Instant, PrincipalId, TenantContext, is_admitted, RecordedDecision, staff, end_user, StaffVerdict,
  EndUserConsent, ProposedOperation, CatalogueEntry, same_identity, same_principal,
}
use itsm_poc.Governance.Conditions.{KnowledgeCondition, withholds}
use itsm_poc.Governance.Policy.{TreatmentReason, TreatmentDecision, PolicyError, assign_treatment}

pub data GateDisposition : Type 0 where
  proceed suspend_for_consent suspend_for_approval refuse : GateDisposition

pub data GateReason : Type 0 where
  tenant_not_admitted treatment_refuses auto_treatment awaiting_consent awaiting_approval
        consent_granted approval_granted consent_refused approval_rejected wrong_decision_kind
        not_the_requester approver_holds_no_accepted_role decision_bound_to_another_version
        authorization_expired authorization_window_missing knowledge_withheld :
      GateReason

pub record GateRequest (Score : Type 0) : Type 0 where
  pub tenant : TenantContext
  pub proposal : ProposedOperation
  pub entry : Option CatalogueEntry
  pub is_entitled : Bool
  pub requester : PrincipalId
  pub now : Instant
  pub decision : Option RecordedDecision
  pub authorization_expires_at : Option Instant
  pub knowledge : KnowledgeCondition Score

pub record GateOutcome : Type 0 where
  pub disposition : GateDisposition
  pub treatment : ExecutionTreatment
  pub treatment_reason : TreatmentReason
  pub reason : GateReason
  pub authorization : Option AuthorizationDecision

abbrev pub is_proceed : GateDisposition → Bool
is_proceed proceed = true
is_proceed _ = false

unfoldable pub is_authorized : GateOutcome → Bool
is_authorized o = is_proceed o.disposition

interrupt_of : GateDisposition → Option InterruptKind
interrupt_of suspend_for_consent = some consent
interrupt_of suspend_for_approval = some approval
interrupt_of _ = none

unfoldable pub suspends_on : GateOutcome → Option InterruptKind
unfolding interrupt_of
suspends_on o = interrupt_of o.disposition

-- The constructor call that every branch makes.
abbrev outcome :
    GateDisposition → TreatmentDecision → GateReason → Option AuthorizationDecision → GateOutcome
outcome d t why authorization = record {
  disposition = d;
  treatment = t.treatment;
  treatment_reason = t.reason;
  reason = why;
  authorization = authorization;
}

abbrev refusal : TreatmentDecision → GateReason → GateOutcome
refusal t why = outcome refuse t why none

window_of : Instant → Option Instant → Option GateReason
window_of now none = some authorization_window_missing
window_of now (some expires) = if leb expires now then some authorization_expired else none

unfoldable pub window_refusal : {Score : Type 0} → GateRequest Score → Option GateReason
unfolding window_of
window_refusal r = window_of r.now r.authorization_expires_at

abbrev is_refused : ConsentVerdict → Bool
is_refused granted = false
is_refused refused = true

abbrev is_rejected : ApprovalVerdict → Bool
is_rejected approved = false
is_rejected rejected = true

-- The end of both branches: a refusal by the window, or the authorization.
after_window :
    Option GateReason → TreatmentDecision → GateReason → Option AuthorizationDecision → GateOutcome
after_window (some why) t reason authorization = outcome refuse t why authorization
after_window none t reason authorization = outcome proceed t reason authorization

consent_given :
    {Score : Type 0} → GateRequest Score → TreatmentDecision → EndUserConsent → GateOutcome
unfolding window_refusal after_window
consent_given r t d =
    if not (same_principal d.consented_by r.requester)
    then refusal t not_the_requester
    else if not (same_identity d.bound_to r.proposal.identity)
    then refusal t decision_bound_to_another_version
    else if is_refused d.verdict
    then refusal t consent_refused
    else after_window (window_refusal r) t consent_granted none

consent_branch :
    {Score : Type 0} → GateRequest Score → TreatmentDecision → Option RecordedDecision → GateOutcome
unfolding consent_given
consent_branch r t none = outcome suspend_for_consent t awaiting_consent none
consent_branch r t (some (staff d)) = refusal t wrong_decision_kind
consent_branch r t (some (end_user d)) = consent_given r t d

unfoldable pub evaluate_consent :
    {Score : Type 0} → GateRequest Score → TreatmentDecision → GateOutcome
unfolding consent_branch
evaluate_consent r t = consent_branch r t r.decision

verdict_given :
    {Score : Type 0}
    → GateRequest Score
    → TreatmentDecision
    → CatalogueEntry
    → StaffVerdict
    → GateOutcome
unfolding window_refusal after_window
verdict_given r t entry d =
    let authorization = evaluate_roles d.roles_held entry.accepted_roles in
    if not (same_identity d.bound_to r.proposal.identity)
    then refusal t decision_bound_to_another_version
    else if not authorization.is_permitted
    then outcome refuse t approver_holds_no_accepted_role (some authorization)
    else if is_rejected d.verdict
    then outcome refuse t approval_rejected (some authorization)
    else after_window (window_refusal r) t approval_granted (some authorization)

approval_branch :
    {Score : Type 0}
    → GateRequest Score
    → TreatmentDecision
    → CatalogueEntry
    → Option RecordedDecision
    → GateOutcome
unfolding verdict_given
approval_branch r t entry none = outcome suspend_for_approval t awaiting_approval none
approval_branch r t entry (some (end_user d)) = refusal t wrong_decision_kind
approval_branch r t entry (some (staff d)) = verdict_given r t entry d

unfoldable pub evaluate_approval :
    {Score : Type 0} → GateRequest Score → TreatmentDecision → CatalogueEntry → GateOutcome
unfolding approval_branch
evaluate_approval r t entry = approval_branch r t entry r.decision

unfoldable pub withhold : TreatmentDecision → GateOutcome
withhold t = refusal t knowledge_withheld

-- What is left once `AUTO` and `NOT_ALLOWED` have returned.
unfoldable pub human_decision :
    {Score : Type 0}
    → GateRequest Score
    → TreatmentDecision
    → ExecutionTreatment
    → Option CatalogueEntry
    → GateOutcome
unfolding evaluate_consent evaluate_approval
human_decision r t _ none = refusal t treatment_refuses
human_decision r t end_user_approval (some entry) = evaluate_consent r t
human_decision r t _ (some entry) = evaluate_approval r t entry

abbrev is_not_allowed : ExecutionTreatment → Bool
is_not_allowed not_allowed = true
is_not_allowed _ = false

abbrev is_auto : ExecutionTreatment → Bool
is_auto auto = true
is_auto _ = false

pub decide_under : {Score : Type 0} → GateRequest Score → TreatmentDecision → GateOutcome
unfolding withhold human_decision
decide_under r t =
    if not (is_admitted r.tenant)
    then refusal t tenant_not_admitted
    else if is_not_allowed t.treatment
    then refusal t treatment_refuses
    else if withholds r.knowledge
    then withhold t
    else if is_auto t.treatment
    then outcome proceed t auto_treatment none
    else human_decision r t t.treatment r.entry

unfoldable pub evaluate : {Score : Type 0} → GateRequest Score → Result PolicyError GateOutcome
unfolding decide_under
evaluate r = do treatment ← assign_treatment r.entry r.is_entitled; ok (decide_under r treatment)
