-- ===== src/Governance/Policy/Rules.antt =====
-- Which treatment `assign_treatment` gives, and that its rules only refuse.
use itsm_poc.Common.{Bool, true, false, ◌≡◌, refl, ◌⊎◌, Option, none, some, ok, err, arith}
use itsm_poc.Domain.Treatment.{ExecutionTreatment, staff_approval, not_allowed, is_narrowing}
use itsm_poc.Domain.Treatment.Order.{is_narrowing-not_allowed}
use itsm_poc.Domain.Roles.{is_empty}
use itsm_poc.Domain.Records.{CatalogueEntry}
use itsm_poc.Governance.Policy.{
  TreatmentDecision, TreatmentReason, assign_treatment, refused_for, catalogue_default,
  not_in_catalogue, not_entitled, elevation_refused, no_role_can_approve,
}

refused_for_lem :
    (t : ExecutionTreatment) (why : TreatmentReason)
    → refused_for t why ≡ ok (record { treatment = not_allowed; reason = why })
unfolding refused_for
refused_for_lem t why = rw (is_narrowing-not_allowed t)

-- The declared treatment stands: the organisation is entitled, no elevation is claimed, and some
-- role can approve where staff approval is required.
pub record Stands (entry : CatalogueEntry) (is_entitled : Bool) : Type 0 where
  pub entitled : is_entitled ≡ true
  pub no_elevation : entry.requires_elevation ≡ false
  pub approvable : entry.treatment ≡ staff_approval → is_empty entry.accepted_roles ≡ false

-- The policy's answer, with the exception that it never raises taken away.
unfoldable pub treatment_of : Option CatalogueEntry → Bool → TreatmentDecision
treatment_of entry is_entitled = elim (assign_treatment entry is_entitled) [
  | ok d ↦ d
  | err e ↦ record { treatment = not_allowed; reason = not_in_catalogue }
]

pub treatment_of-none :
    (is_entitled : Bool) → (treatment_of none is_entitled).treatment ≡ not_allowed
unfolding treatment_of assign_treatment
treatment_of-none is_entitled = refl

-- The policy never raises: no rule of it widens a catalogue default.
pub assign_treatment_total :
    (entry : Option CatalogueEntry) (is_entitled : Bool)
    → assign_treatment entry is_entitled ≡ ok (treatment_of entry is_entitled)
unfolding treatment_of assign_treatment
assign_treatment_total none is_entitled = refl
assign_treatment_total (some entry) is_entitled = ground (
  arith,
  refused_for_lem entry.treatment not_entitled,
  refused_for_lem entry.treatment elevation_refused,
  refused_for_lem entry.treatment no_role_can_approve,
)

-- For a registered operation the policy returns the declared treatment or `NOT_ALLOWED`, so it never
-- asks for less human decision than the catalogue declares.
pub assign_treatment_narrows :
    (entry : CatalogueEntry) (is_entitled : Bool)
    → is_narrowing entry.treatment (treatment_of (some entry) is_entitled).treatment ≡ true
unfolding treatment_of assign_treatment is_narrowing
assign_treatment_narrows entry is_entitled = ground (
  arith,
  refused_for_lem entry.treatment not_entitled,
  refused_for_lem entry.treatment elevation_refused,
  refused_for_lem entry.treatment no_role_can_approve,
)

pub treatment_of-Stands :
    (entry : CatalogueEntry) (is_entitled : Bool)
    → Stands entry is_entitled
    → treatment_of (some entry) is_entitled
      ≡ record { treatment = entry.treatment; reason = catalogue_default }
unfolding treatment_of assign_treatment
treatment_of-Stands entry is_entitled h = ground arith

pub Stands-of_treatment :
    (entry : CatalogueEntry) (is_entitled : Bool)
    → ((treatment_of (some entry) is_entitled).treatment ≡ not_allowed) ⊎ Stands entry is_entitled
unfolding treatment_of assign_treatment
Stands-of_treatment entry is_entitled = ground (
  arith,
  refused_for_lem entry.treatment not_entitled,
  refused_for_lem entry.treatment elevation_refused,
  refused_for_lem entry.treatment no_role_can_approve,
)
