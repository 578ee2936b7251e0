-- ===== src/Persistence/Catalogue.antt =====
-- The lookup of a catalogue entry that an organisation is entitled to: `OperationCatalogue` of
-- ragcore/src/ragcore/persistence/repositories.py, with the tables of persistence/models.py.
pub mod Entitled
use itsm_poc.Common.{
  Bool, true, false, ◌&&◌, List, [], ◌∷◌, ◌++◌, Option, none, some, String, str_eq, ◌==◌, Result,
  ok, err, ◌>>=◌, if◌then◌else◌,
}
use itsm_poc.Domain.Records.{Uuid, Instant, TenantContext, OperationIdentity}
use itsm_poc.Governance.Catalogue.{CatalogueRecord, CatalogueError, GovernanceRow, record_from_row}
use itsm_poc.Persistence.Rows.{select}
use itsm_poc.Persistence.WorkItems.{tenant_scope}

-- The columns of `tenant_entitlement` that the clauses read.
pub record EntitlementRow : Type 0 where
  pub tenant_id : Uuid
  pub catalogue_id : String
  pub enabled : Bool
  pub credential_reference : Option String

pub data LookupError : Type 0 where
  several_rows : LookupError
  unusable : CatalogueError → LookupError

unfoldable pub is_entitlement : TenantContext → String → EntitlementRow → Bool
unfolding tenant_scope
is_entitlement tenant catalogue_id e =
    tenant_scope tenant e.tenant_id && str_eq e.catalogue_id catalogue_id

-- The clause of the join, and those that follow it.
unfoldable pub is_joined : TenantContext → OperationIdentity → GovernanceRow → EntitlementRow → Bool
unfolding tenant_scope
is_joined tenant identity g e =
    str_eq e.catalogue_id g.catalogue_id
    && (tenant_scope tenant e.tenant_id
        && (e.enabled
            && (str_eq g.catalogue_id identity.catalogue_id && g.version == identity.version)))

unfoldable pub partners :
    TenantContext → OperationIdentity → GovernanceRow → List EntitlementRow → List GovernanceRow
unfolding is_joined
partners tenant identity g [] = []
partners tenant identity g (e ∷ es) =
    let rest = partners tenant identity g es in
    if is_joined tenant identity g e then g ∷ rest else rest

unfoldable pub joined :
    TenantContext
    → OperationIdentity
    → List EntitlementRow
    → List GovernanceRow
    → List GovernanceRow
unfolding partners
joined tenant identity es [] = []
joined tenant identity es (g ∷ gs) = partners tenant identity g es ++ joined tenant identity es gs

unfoldable pub one_or_none {ℓ} : {Row : Type ℓ} → List Row → Result LookupError (Option Row)
one_or_none [] = ok none
one_or_none (r ∷ []) = ok (some r)
one_or_none (r ∷ _ ∷ _) = err several_rows

validated : Result CatalogueError CatalogueRecord → Result LookupError (Option CatalogueRecord)
validated (err e) = err (unusable e)
validated (ok r) = ok (some r)

unfoldable pub record_of : Option GovernanceRow → Result LookupError (Option CatalogueRecord)
unfolding validated record_from_row
record_of none = ok none
record_of (some g) = validated (record_from_row g)

unfoldable pub lookup :
    TenantContext
    → OperationIdentity
    → List EntitlementRow
    → List GovernanceRow
    → Result LookupError (Option CatalogueRecord)
unfolding joined one_or_none record_of
lookup tenant identity es gs = do row ← one_or_none (joined tenant identity es gs); record_of row

unfoldable pub is_enabled : TenantContext → String → EntitlementRow → Bool
unfolding is_entitlement
is_enabled tenant catalogue_id e = is_entitlement tenant catalogue_id e && e.enabled

unfoldable pub is_there {ℓ} : {Row : Type ℓ} → Option Row → Bool
is_there none = false
is_there (some _) = true

unfoldable pub is_entitled : TenantContext → String → List EntitlementRow → Result LookupError Bool
unfolding is_enabled one_or_none is_there
is_entitled tenant catalogue_id es = do
  row ← one_or_none (select (is_enabled tenant catalogue_id) es)
  ok (is_there row)
