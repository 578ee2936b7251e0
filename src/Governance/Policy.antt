-- ===== src/Governance/Policy.antt =====
-- Deterministic treatment policy: ragcore/src/ragcore/governance/policy.py.
pub mod Rules
use itsm_poc.Common.{
  Bool, true, false, not, ◌&&◌, Option, none, some, Result, ok, err, ◌>>=◌, if◌then◌else◌,
}
use itsm_poc.Domain.Treatment.{ExecutionTreatment, staff_approval, not_allowed, is_narrowing}
use itsm_poc.Domain.Roles.{is_empty}
use itsm_poc.Domain.Records.{CatalogueEntry}

pub data TreatmentReason : Type 0 where
  catalogue_default not_in_catalogue not_entitled elevation_refused no_role_can_approve :
      TreatmentReason

pub record TreatmentDecision : Type 0 where
  pub treatment : ExecutionTreatment
  pub reason : TreatmentReason

pub data PolicyError : Type 0 where
  policy_widened_treatment : ExecutionTreatment → ExecutionTreatment → PolicyError

unfoldable pub narrowed :
    ExecutionTreatment → ExecutionTreatment → Result PolicyError ExecutionTreatment
unfolding is_narrowing
narrowed default override =
    if is_narrowing default override
    then ok override
    else err (policy_widened_treatment default override)

abbrev pub is_staff_approval : ExecutionTreatment → Bool
is_staff_approval staff_approval = true
is_staff_approval _ = false

-- The narrowing to `NOT_ALLOWED` that rules 2 to 4 return.
refused_for : ExecutionTreatment → TreatmentReason → Result PolicyError TreatmentDecision
unfolding narrowed
refused_for default why = do
  t ← narrowed default not_allowed
  ok (record { treatment = t; reason = why })

assign_for : CatalogueEntry → Bool → Result PolicyError TreatmentDecision
unfolding refused_for is_empty
assign_for entry is_entitled =
    if not is_entitled
    then refused_for entry.treatment not_entitled
    else if entry.requires_elevation
    then refused_for entry.treatment elevation_refused
    else if is_staff_approval entry.treatment && is_empty entry.accepted_roles
    then refused_for entry.treatment no_role_can_approve
    else ok (record { treatment = entry.treatment; reason = catalogue_default })

unfoldable pub assign_treatment :
    Option CatalogueEntry → Bool → Result PolicyError TreatmentDecision
unfolding assign_for
assign_treatment none is_entitled =
    ok (record { treatment = not_allowed; reason = not_in_catalogue })
assign_treatment (some entry) is_entitled = assign_for entry is_entitled
