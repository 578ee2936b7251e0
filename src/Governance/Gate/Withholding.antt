-- ===== src/Governance/Gate/Withholding.antt =====
-- When the gate gives the knowledge condition as its reason.
use itsm_poc.Common.{true, ◌≡◌, ◌≢◌, ◌↔◌, sym, ap, ◌∙◌, Option, none, some, ok, ok-injective, arith}
use itsm_poc.Domain.Treatment.{
  ExecutionTreatment, auto, end_user_approval, staff_approval, not_allowed,
}
use itsm_poc.Domain.Records.{
  RecordedDecision, staff, end_user, StaffVerdict, EndUserConsent, CatalogueEntry, active,
}
use itsm_poc.Domain.Records.Equality.{is_admitted_iff}
use itsm_poc.Governance.Conditions.{withholds}
use itsm_poc.Governance.Policy.{TreatmentDecision}
use itsm_poc.Governance.Policy.Rules.{treatment_of}
use itsm_poc.Governance.Gate.{
  GateRequest, GateOutcome, knowledge_withheld, evaluate, decide_under, window_of, window_refusal,
  after_window, consent_given, verdict_given, consent_branch, approval_branch, evaluate_consent,
  evaluate_approval, human_decision, withhold,
}
use itsm_poc.Governance.Gate.Authorization.{evaluate_lem}

module _ {Score : Type 0} (r : GateRequest Score) (t : TreatmentDecision) where
  consent_given_reason : (d : EndUserConsent) → (consent_given r t d).reason ≢ knowledge_withheld
  unfolding consent_given window_refusal window_of after_window
  consent_given_reason d h = ground arith

  verdict_given_reason :
      (entry : CatalogueEntry) (d : StaffVerdict)
      → (verdict_given r t entry d).reason ≢ knowledge_withheld
  unfolding verdict_given window_refusal window_of after_window
  verdict_given_reason entry d h = ground arith

  consent_reason :
      (o : Option RecordedDecision) → (consent_branch r t o).reason ≢ knowledge_withheld
  unfolding consent_branch
  consent_reason none h = cc
  consent_reason (some (staff d)) h = cc
  consent_reason (some (end_user d)) h = consent_given_reason d h

  approval_reason :
      (entry : CatalogueEntry) (o : Option RecordedDecision)
      → (approval_branch r t entry o).reason ≢ knowledge_withheld
  unfolding approval_branch
  approval_reason entry none h = cc
  approval_reason entry (some (end_user d)) h = cc
  approval_reason entry (some (staff d)) h = verdict_given_reason entry d h

  human_reason :
      (treatment : ExecutionTreatment) (entry : Option CatalogueEntry)
      → (human_decision r t treatment entry).reason ≢ knowledge_withheld
  unfolding human_decision evaluate_consent evaluate_approval
  human_reason treatment none h = cc
  human_reason auto (some e) h = approval_reason e r.decision h
  human_reason end_user_approval (some e) h = consent_reason r.decision h
  human_reason staff_approval (some e) h = approval_reason e r.decision h
  human_reason not_allowed (some e) h = approval_reason e r.decision h

  withheld_inv :
      (decide_under r t).reason ≡ knowledge_withheld
      → (r.tenant.status ≡ active) × (t.treatment ≢ not_allowed) × (withholds r.knowledge ≡ true)
  unfolding decide_under withhold
  withheld_inv h =
      let other = human_reason t.treatment r.entry in
      (ground (arith, is_admitted_iff r.tenant, other), λ e. ground arith, ground (arith, other))

  withheld_when :
      r.tenant.status ≡ active
      → t.treatment ≢ not_allowed
      → withholds r.knowledge ≡ true
      → (decide_under r t).reason ≡ knowledge_withheld
  unfolding decide_under withhold
  withheld_when a n w = ground (arith, is_admitted_iff r.tenant)

-- The gate gives the knowledge condition as its reason exactly when the tenant is active, the
-- treatment in force is not NOT_ALLOWED and the condition withholds.
pub withheld_iff :
    {Score : Type 0} (r : GateRequest Score) (o : GateOutcome)
    → evaluate r ≡ ok o
    → (o.reason ≡ knowledge_withheld) ↔ (
        (r.tenant.status ≡ active)
        × ((treatment_of r.entry r.is_entitled).treatment ≢ not_allowed)
        × (withholds r.knowledge ≡ true))
withheld_iff r o e =
    let t = treatment_of r.entry r.is_entitled in
    let same = ap (λ (x : GateOutcome). x.reason) (ok-injective (sym e ∙ evaluate_lem r)) in
    (λ h. withheld_inv r t (sym same ∙ h), λ (a, n, w). same ∙ withheld_when r t a n w)
