-- ===== src/Governance/Gate/Agreement.antt =====
-- The human that a treatment asks for, and what the gate makes of the recorded decision.
use itsm_poc.Common.{
  true, false, ◌≡◌, ◌<◌, ◌≢◌, refl, inl, inr, Option, none, some, arith, Option-cases,
}
use itsm_poc.Domain.Treatment.{
  ExecutionTreatment, auto, end_user_approval, staff_approval, not_allowed,
}
use itsm_poc.Domain.Roles.{StaffRole}
use itsm_poc.Domain.Roles.Laws.{Shares, evaluate_roles_iff}
use itsm_poc.Domain.Work.{approved, granted}
use itsm_poc.Domain.Records.{
  Instant, RecordedDecision, staff, end_user, StaffVerdict, EndUserConsent, CatalogueEntry, active,
}
use itsm_poc.Domain.Records.Equality.{same_identity_iff, same_principal_iff}
use itsm_poc.Governance.Conditions.{withholds}
use itsm_poc.Governance.Policy.{TreatmentDecision}
use itsm_poc.Governance.Policy.Rules.{Stands}
use itsm_poc.Governance.Gate.{
  GateRequest, is_authorized, window_refusal, consent_given, verdict_given, consent_branch,
  approval_branch, evaluate_consent, evaluate_approval, human_decision,
}

module _ {Score : Type 0} (r : GateRequest Score) where
  -- The execution window is open.
  pub record InWindow : Type 0 where
    pub expires : Instant
    pub opened : r.authorization_expires_at ≡ some expires
    pub inside : r.now < expires

  -- The requester's own consent, to this very operation and version.
  pub record ConsentHolds (d : EndUserConsent) : Type 0 where
    pub recorded : r.decision ≡ some (end_user d)
    pub by_requester : d.consented_by ≡ r.requester
    pub bound : d.bound_to ≡ r.proposal.identity
    pub given : d.verdict ≡ granted
    pub window : InWindow

  -- A staff approval of this very operation and version, by a holder of an accepted role.
  pub record VerdictHolds (entry : CatalogueEntry) (d : StaffVerdict) : Type 0 where
    pub recorded : r.decision ≡ some (staff d)
    pub bound : d.bound_to ≡ r.proposal.identity
    pub role : StaffRole
    pub accepted : Shares d.roles_held entry.accepted_roles role
    pub given : d.verdict ≡ approved
    pub window : InWindow

  -- The human decision that a treatment asks for.
  abbrev pub HumanAgrees : CatalogueEntry → ExecutionTreatment → Type 0
  HumanAgrees entry auto = Unit
  HumanAgrees entry end_user_approval = (d : EndUserConsent) × ConsentHolds d
  HumanAgrees entry staff_approval = (d : StaffVerdict) × VerdictHolds entry d
  HumanAgrees entry not_allowed = ⊥

  pub record MayProceed (entry : CatalogueEntry) : Type 0 where
    pub admitted : r.tenant.status ≡ active
    pub registered : r.entry ≡ some entry
    pub stands : Stands entry r.is_entitled
    pub grounded : withholds r.knowledge ≡ false
    pub human : HumanAgrees entry entry.treatment

  window_open : window_refusal r ≡ none → InWindow
  unfolding window_refusal
  window_open h = elim (Option-cases r.authorization_expires_at) [
    | inl e ↦ absurd (ground arith)
    | inr (x, e) ↦ record { expires = x; opened = e; inside = ground arith }
  ]

  window_closed : InWindow → window_refusal r ≡ none
  unfolding window_refusal
  window_closed w = ground arith

  consent_inv :
      (t : TreatmentDecision) (d : EndUserConsent)
      → r.decision ≡ some (end_user d)
      → is_authorized (consent_given r t d) ≡ true
      → ConsentHolds d
  unfolding consent_given is_authorized
  consent_inv t d e h = record {
    recorded = e;
    by_requester = ground (arith, same_principal_iff d.consented_by r.requester);
    bound = ground (arith, same_identity_iff d.bound_to r.proposal.identity);
    given = ground arith;
    window = window_open (ground arith);
  }

  consent_proceeds :
      (t : TreatmentDecision) (d : EndUserConsent)
      → ConsentHolds d
      → is_authorized (consent_given r t d) ≡ true
  unfolding consent_given is_authorized
  consent_proceeds t d h = ground (
    arith,
    same_principal_iff d.consented_by r.requester,
    same_identity_iff d.bound_to r.proposal.identity,
    window_closed h.window,
  )

  verdict_inv :
      (t : TreatmentDecision) (entry : CatalogueEntry) (d : StaffVerdict)
      → r.decision ≡ some (staff d)
      → is_authorized (verdict_given r t entry d) ≡ true
      → VerdictHolds entry d
  unfolding verdict_given is_authorized
  verdict_inv t entry d e h =
      let (role, both) = (evaluate_roles_iff d.roles_held entry.accepted_roles).0 (ground arith) in
      record {
        recorded = e;
        bound = ground (arith, same_identity_iff d.bound_to r.proposal.identity);
        role = role;
        accepted = both;
        given = ground arith;
        window = window_open (ground arith);
      }

  verdict_proceeds :
      (t : TreatmentDecision) (entry : CatalogueEntry) (d : StaffVerdict)
      → VerdictHolds entry d
      → is_authorized (verdict_given r t entry d) ≡ true
  unfolding verdict_given is_authorized
  verdict_proceeds t entry d h = ground (
    arith,
    (evaluate_roles_iff d.roles_held entry.accepted_roles).1 h.role h.accepted,
    same_identity_iff d.bound_to r.proposal.identity,
    window_closed h.window,
  )

  consent_branch_inv :
      (t : TreatmentDecision) (o : Option RecordedDecision)
      → r.decision ≡ o
      → is_authorized (consent_branch r t o) ≡ true
      → (d : EndUserConsent) × ConsentHolds d
  unfolding consent_branch is_authorized
  consent_branch_inv t none e h = cc
  consent_branch_inv t (some (staff d)) e h = cc
  consent_branch_inv t (some (end_user d)) e h = (d, consent_inv t d e h)

  approval_branch_inv :
      (t : TreatmentDecision) (entry : CatalogueEntry) (o : Option RecordedDecision)
      → r.decision ≡ o
      → is_authorized (approval_branch r t entry o) ≡ true
      → (d : StaffVerdict) × VerdictHolds entry d
  unfolding approval_branch is_authorized
  approval_branch_inv t entry none e h = cc
  approval_branch_inv t entry (some (end_user d)) e h = cc
  approval_branch_inv t entry (some (staff d)) e h = (d, verdict_inv t entry d e h)

  -- What is authorized once the tenant, the policy and the knowledge condition have let it pass.
  pub treatment_inv :
      (t : TreatmentDecision) (entry : CatalogueEntry) (treatment : ExecutionTreatment)
      → treatment ≢ not_allowed
      → is_authorized (human_decision r t treatment (some entry)) ≡ true
      → HumanAgrees entry treatment
  unfolding human_decision evaluate_consent evaluate_approval
  treatment_inv t entry auto n h = tt
  treatment_inv t entry end_user_approval n h = consent_branch_inv t r.decision refl h
  treatment_inv t entry staff_approval n h = approval_branch_inv t entry r.decision refl h
  treatment_inv t entry not_allowed n h = n refl

  pub treatment_proceeds :
      (t : TreatmentDecision) (entry : CatalogueEntry) (treatment : ExecutionTreatment)
      → treatment ≢ auto
      → HumanAgrees entry treatment
      → is_authorized (human_decision r t treatment (some entry)) ≡ true
  unfolding human_decision evaluate_consent evaluate_approval consent_branch approval_branch
  treatment_proceeds t entry auto n h = absurd (n refl)
  treatment_proceeds t entry end_user_approval n (d, h) =
      rw (h.recorded, consent_branch) (consent_proceeds t d h)
  treatment_proceeds t entry staff_approval n (d, h) =
      rw (h.recorded, approval_branch) (verdict_proceeds t entry d h)
  treatment_proceeds t entry not_allowed n h = absurd h
