-- ===== src/Integrations/Access.antt =====
-- The re-check of access at the point of effect: integrations/src/integrations/policy/checks.py.
use itsm_poc.Common.{
  ℕ, Bool, true, not, Option, none, some, String, ◌==◌, if◌then◌else◌, ◌≡◌, ◌≢◌, inl, inr,
  Bool-cases, Option-cases, arith,
}
use itsm_poc.Domain.Records.{Uuid}
use itsm_poc.Integrations.Catalogue.{
  CapabilityIdentity, ConnectorBinding, AccessDecision, AccessRefusal, not_entitled, not_registered,
  version_mismatch, no_binding, permitted, allow, refuse_access,
}

-- What the two ports answer now.
pub record Facts : Type 0 where
  pub is_entitled : Uuid → String → Bool
  pub registered_version : String → Option ℕ
  pub binding_for : CapabilityIdentity → Option ConnectorBinding

access_bound : Option ConnectorBinding → AccessDecision
access_bound none = refuse_access no_binding
access_bound (some binding) = allow binding

access_registered : Facts → CapabilityIdentity → Option ℕ → AccessDecision
unfolding access_bound
access_registered f identity none = refuse_access not_registered
access_registered f identity (some version) =
    if not (version == identity.version)
    then refuse_access version_mismatch
    else access_bound (f.binding_for identity)

-- `AccessPolicy.evaluate`.
unfoldable pub evaluate_access : Facts → Uuid → CapabilityIdentity → AccessDecision
unfolding access_registered
evaluate_access f tenant_id identity =
    if not (f.is_entitled tenant_id identity.catalogue_id)
    then refuse_access not_entitled
    else access_registered f identity (f.registered_version identity.catalogue_id)

-- Every fact holds: the entitlement, the registration at this very version, and the binding.
pub record AccessHolds (f : Facts) (tenant_id : Uuid) (identity : CapabilityIdentity)
    (binding : ConnectorBinding) : Type 0 where
  pub entitled : f.is_entitled tenant_id identity.catalogue_id ≡ true
  pub registered_at : f.registered_version identity.catalogue_id ≡ some identity.version
  pub bound_by : f.binding_for identity ≡ some binding

module _ (f : Facts) (tenant_id : Uuid) (identity : CapabilityIdentity) where
  access_inv :
      (binding : ConnectorBinding)
      → evaluate_access f tenant_id identity ≡ allow binding
      → AccessHolds f tenant_id identity binding
  unfolding evaluate_access access_registered access_bound
  access_inv binding h = record {
    entitled = ground arith;
    registered_at = ground arith;
    bound_by = ground arith;
  }

  access_allows :
      (binding : ConnectorBinding)
      → AccessHolds f tenant_id identity binding
      → evaluate_access f tenant_id identity ≡ allow binding
  unfolding evaluate_access access_registered access_bound
  access_allows binding h = ground (arith, h.entitled, h.registered_at, h.bound_by)

  access_registered-permitted :
      (v : Option ℕ)
      → permitted (access_registered f identity v) ≡ true
      → (binding : ConnectorBinding) × (access_registered f identity v ≡ allow binding)
  unfolding access_registered access_bound permitted
  access_registered-permitted none h = cc
  access_registered-permitted (some v) h = elim (Bool-cases (v == identity.version)) [
    | inl same ↦ elim (Option-cases (f.binding_for identity)) [
      | inl gap ↦ absurd (ground arith)
      | inr (binding, e) ↦ (binding, ground arith)
    ]
    | inr other ↦ absurd (ground arith)
  ]

  refused_inv : (why : AccessRefusal) → permitted (refuse_access why) ≢ true
  unfolding permitted
  refused_inv why h = cc

  permitted_allows :
      permitted (evaluate_access f tenant_id identity) ≡ true
      → (binding : ConnectorBinding) × (evaluate_access f tenant_id identity ≡ allow binding)
  unfolding evaluate_access
  permitted_allows h = elim (Bool-cases (f.is_entitled tenant_id identity.catalogue_id)) [
    | inl entitled ↦
        let here = (rw (entitled, not, if◌then◌else◌) at h) in
        let (binding, e) =
          access_registered-permitted (f.registered_version identity.catalogue_id) here in
        (binding, rw (entitled, not, if◌then◌else◌) e)
    | inr refused ↦ absurd (refused_inv not_entitled (rw (refused, not, if◌then◌else◌) at h))
  ]

-- The re-check permits an invocation exactly when the organisation is entitled to the capability,
-- the catalogue holds it at the very version that is invoked, and a binding says how to run it; it
-- then hands out that binding.
pub evaluate_access_iff :
    (f : Facts) (tenant_id : Uuid) (identity : CapabilityIdentity)
    → (permitted (evaluate_access f tenant_id identity) ≡ true
        → (binding : ConnectorBinding) × (evaluate_access f tenant_id identity ≡ allow binding)
          × AccessHolds f tenant_id identity binding)
      × ((binding : ConnectorBinding)
          → AccessHolds f tenant_id identity binding
          → evaluate_access f tenant_id identity ≡ allow binding)
evaluate_access_iff f tenant_id identity = (
  λ h.
      (let (binding, e) = permitted_allows f tenant_id identity h in
        (binding, e, access_inv f tenant_id identity binding e)),
  access_allows f tenant_id identity,
)
