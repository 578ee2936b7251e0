-- ===== src/Governance/Gate/Authorization.antt =====
-- When the gate authorizes: the conditions of `evaluate`, and that they are exactly what it takes.
use itsm_poc.Common.{
  ok-injective, true, false, ◌≡◌, ◌≢◌, refl, sym, subst, ◌∙◌, ◌⊎◌, inl, inr, Option, none, some, ok,
  arith,
}
use itsm_poc.Domain.Treatment.{
  ExecutionTreatment, auto, end_user_approval, staff_approval, not_allowed,
}
use itsm_poc.Domain.Records.{CatalogueEntry, active}
use itsm_poc.Domain.Records.Equality.{is_admitted_iff}
use itsm_poc.Governance.Conditions.{withholds}
use itsm_poc.Governance.Policy.{TreatmentDecision, catalogue_default}
use itsm_poc.Governance.Policy.Rules.{
  Stands, treatment_of, treatment_of-none, assign_treatment_total, treatment_of-Stands,
  Stands-of_treatment,
}
use itsm_poc.Governance.Gate.{
  GateRequest, GateOutcome, evaluate, decide_under, is_authorized, human_decision, withhold,
}
use itsm_poc.Governance.Gate.Agreement.{MayProceed, treatment_inv, treatment_proceeds}

auto-cases : (t : ExecutionTreatment) → (t ≡ auto) ⊎ (t ≢ auto)
auto-cases auto = inl refl
auto-cases end_user_approval = inr (λ e. cc)
auto-cases staff_approval = inr (λ e. cc)
auto-cases not_allowed = inr (λ e. cc)

-- The decision for an entry whose declared treatment stands.
abbrev declared : CatalogueEntry → TreatmentDecision
declared entry = record { treatment = entry.treatment; reason = catalogue_default }

module _ {Score : Type 0} (r : GateRequest Score) where
  pub evaluate_lem : evaluate r ≡ ok (decide_under r (treatment_of r.entry r.is_entitled))
  unfolding evaluate
  evaluate_lem = rw (assign_treatment_total r.entry r.is_entitled)

  decide_inv :
      (t : TreatmentDecision)
      → is_authorized (decide_under r t) ≡ true
      → (r.tenant.status ≡ active)
        × (t.treatment ≢ not_allowed)
        × (withholds r.knowledge ≡ false)
        × ((t.treatment ≡ auto)
            ⊎ ((t.treatment ≢ auto)
                × (is_authorized (human_decision r t t.treatment r.entry) ≡ true)))
  unfolding decide_under withhold is_authorized
  decide_inv t h = (
    ground (arith, is_admitted_iff r.tenant),
    λ e. ground arith,
    ground arith,
    elim (auto-cases t.treatment) [ inl e ↦ inl e | inr other ↦ inr (other, ground arith) ],
  )

  human_allowed : (entry : CatalogueEntry) → MayProceed r entry → entry.treatment ≢ not_allowed
  human_allowed entry m e = rw e at m.human

  -- A statement about the gate's last step at an entry, and at the request's own.
  abbrev LastStep : CatalogueEntry → Option CatalogueEntry → Type 0
  LastStep entry o = is_authorized (human_decision r (declared entry) entry.treatment o) ≡ true

  through :
      (entry : CatalogueEntry)
      → r.entry ≡ some entry
      → LastStep entry r.entry
      → LastStep entry (some entry)
  through entry e p = subst (LastStep entry) e p

  through_back :
      (entry : CatalogueEntry)
      → r.entry ≡ some entry
      → LastStep entry (some entry)
      → LastStep entry r.entry
  through_back entry e p = subst (LastStep entry) (sym e) p

  Stands-inv :
      (entry : CatalogueEntry)
      → r.entry ≡ some entry
      → Stands entry r.is_entitled
      → is_authorized (decide_under r (declared entry)) ≡ true
      → MayProceed r entry
  Stands-inv entry e stands h =
      let (admitted, allowed, grounded, human) = decide_inv (declared entry) h in
      record {
        admitted = admitted;
        registered = e;
        stands = stands;
        grounded = grounded;
        human = elim human [
          | inl none_needed ↦ rw none_needed tt
          | inr (n, p) ↦
              treatment_inv r (declared entry) entry entry.treatment allowed (through entry e p)
        ];
      }

  entry_inv :
      (o : Option CatalogueEntry)
      → r.entry ≡ o
      → is_authorized (decide_under r (treatment_of o r.is_entitled)) ≡ true
      → (entry : CatalogueEntry) × MayProceed r entry
  entry_inv none e h = absurd ((decide_inv _ h).1 (treatment_of-none r.is_entitled))
  entry_inv (some entry) e h = elim (Stands-of_treatment entry r.is_entitled) [
    | inl no_way ↦ absurd ((decide_inv _ h).1 no_way)
    | inr stands ↦ (
      entry,
      Stands-inv entry e stands (rw (treatment_of-Stands entry r.is_entitled stands) at h),
    )
  ]

  decide_proceeds :
      (entry : CatalogueEntry)
      → MayProceed r entry
      → is_authorized (decide_under r (declared entry)) ≡ true
  unfolding decide_under withhold is_authorized
  decide_proceeds entry m = elim (auto-cases entry.treatment) [
    | inl e ↦ ground (arith, is_admitted_iff r.tenant)
    | inr n ↦ ground (
      arith,
      is_admitted_iff r.tenant,
      human_allowed entry m,
      through_back entry m.registered
          (treatment_proceeds r (declared entry) entry entry.treatment n m.human),
    )
  ]

-- The gate authorizes a request exactly when its tenant is active, its operation is registered,
-- entitled, without elevation and approvable, the knowledge condition does not withhold, and the
-- treatment asks for nobody or the human it asks for has agreed: the requester to this operation and
-- version, or a holder of an accepted role to this operation and version, in an open window.
pub evaluate-MayProceed :
    {Score : Type 0} (r : GateRequest Score)
    → ((o : GateOutcome)
        → evaluate r ≡ ok o
        → is_authorized o ≡ true
        → (entry : CatalogueEntry) × MayProceed r entry)
      × ((entry : CatalogueEntry)
          → MayProceed r entry
          → (o : GateOutcome) × (evaluate r ≡ ok o) × (is_authorized o ≡ true))
evaluate-MayProceed r = (
  λ o e h. entry_inv r r.entry refl (rw (ok-injective (sym e ∙ evaluate_lem r)) at h),
  λ entry m. (
    decide_under r (treatment_of r.entry r.is_entitled),
    evaluate_lem r,
    subst (λ o. is_authorized (decide_under r (treatment_of o r.is_entitled)) ≡ true)
        (sym m.registered)
        (rw (treatment_of-Stands entry r.is_entitled m.stands) (decide_proceeds r entry m)),
  ),
)
