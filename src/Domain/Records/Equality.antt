-- ===== src/Domain/Records/Equality.antt =====
-- The equality tests of the identifiers decide equality.
use itsm_poc.Common.{true, ◌≡◌, ◌↔◌, arith, str_eq_iff}
use itsm_poc.Domain.Records.{
  OperationIdentity, PrincipalId, same_identity, same_principal, TenantContext, is_admitted, active,
}

pub same_identity_iff : (a b : OperationIdentity) → (same_identity a b ≡ true) ↔ (a ≡ b)
unfolding same_identity
same_identity_iff a b = (
  λ h. ground (arith, str_eq_iff a.catalogue_id b.catalogue_id),
  λ e. ground (arith, str_eq_iff a.catalogue_id b.catalogue_id),
)

pub same_principal_iff : (a b : PrincipalId) → (same_principal a b ≡ true) ↔ (a ≡ b)
unfolding same_principal
same_principal_iff a b = (λ h. ground arith, λ e. ground arith)

pub is_admitted_iff : (t : TenantContext) → (is_admitted t ≡ true) ↔ (t.status ≡ active)
unfolding is_admitted
is_admitted_iff t = (λ h. ground arith, λ e. ground arith)
