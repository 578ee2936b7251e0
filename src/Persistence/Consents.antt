-- ===== src/Persistence/Consents.antt =====
-- The consents' table and its repository: `Consent` of ragcore/src/ragcore/persistence/models.py and
-- `ConsentRepository` of repositories.py.
use itsm_poc.Common.{
  ℕ, Bool, false, ◌&&◌, List, [], ◌∷◌, ◌++◌, Option, none, some, ltb, ◌==◌, ◌≡◌, refl, sort_by, map,
  ap, some_injective, append_nil, sym,
}
use itsm_poc.Domain.Authority.{authenticated_end_user_consent}
use itsm_poc.Domain.Work.{ConsentVerdict}
use itsm_poc.Domain.Records.{
  Uuid, Instant, TenantContext, WorkItemId, ConsentId, PrincipalId, EndUserConsent,
}
use itsm_poc.Persistence.Rows.{select, matching, select_none}
use itsm_poc.Persistence.Guard.{Written}
use itsm_poc.Persistence.WorkItems.{WorkItemRow, tenant_scope}
use itsm_poc.Persistence.Approvals.{OperationRow, bound_operation, identity_of}

pub record ConsentRow : Type 0 where
  pub consent_id : Uuid
  pub tenant_id : Uuid
  pub work_item_id : Uuid
  pub consented_by_oid : Uuid
  pub decided_at : Instant
  pub verdict : ConsentVerdict
  pub created_at : Instant
  pub updated_at : Instant
  pub version : ℕ

-- The work item that the statement inserts from: the tenant's own, and the requester's.
unfoldable pub may_consent : TenantContext → WorkItemId → PrincipalId → WorkItemRow → Bool
unfolding tenant_scope
may_consent tenant id by r =
    tenant_scope tenant r.tenant_id
    && (r.work_item_id == id.value && r.requested_by_oid == by.value)

consent_row :
    ConsentId → PrincipalId → ConsentVerdict → (clock : Instant) → WorkItemRow → ConsentRow
consent_row id by verdict clock item = record {
  consent_id = id.value;
  tenant_id = item.tenant_id;
  work_item_id = item.work_item_id;
  consented_by_oid = by.value;
  decided_at = clock;
  verdict = verdict;
  created_at = clock;
  updated_at = clock;
  version = 1;
}

-- `INSERT … SELECT`, with the rows it inserted counted.
unfoldable pub record_consent :
    TenantContext
    → ConsentId
    → WorkItemId
    → PrincipalId
    → ConsentVerdict
    → (clock : Instant) → (items : List WorkItemRow) → List ConsentRow
    → Written ConsentRow
unfolding may_consent consent_row
record_consent tenant id item by verdict clock items rows = record {
  rows = rows ++ map (consent_row id by verdict clock) (select (may_consent tenant item by) items);
  answer = matching (may_consent tenant item by) items == 1;
}

unfoldable pub is_consent_for : TenantContext → WorkItemId → ConsentRow → Bool
unfolding tenant_scope
is_consent_for tenant id r = tenant_scope tenant r.tenant_id && r.work_item_id == id.value

consent_later : ConsentRow → ConsentRow → Bool
consent_later a b = ltb b.decided_at a.decided_at

-- The latest consent, joined with the newest operation; the expiry has no column and is not selected.
consent_from : List ConsentRow → Option OperationRow → Option EndUserConsent
unfolding identity_of
consent_from (r ∷ rows) (some operation) = some (record {
  consent_id = record { value = r.consent_id };
  consented_by = record { value = r.consented_by_oid };
  verdict = r.verdict;
  bound_to = identity_of operation;
  decided_at = r.decided_at;
  expires_at = none;
  source = authenticated_end_user_consent;
})
consent_from _ _ = none

unfoldable pub standing_consent :
    TenantContext → WorkItemId → List ConsentRow → List OperationRow → Option EndUserConsent
unfolding is_consent_for consent_later consent_from bound_operation
standing_consent tenant id consents operations =
    consent_from (sort_by consent_later (select (is_consent_for tenant id) consents))
      (bound_operation tenant id operations)

no_expiry_from :
    (rows : List ConsentRow) (o : Option OperationRow) (c : EndUserConsent)
    → consent_from rows o ≡ some c
    → c.expires_at ≡ none
unfolding consent_from
no_expiry_from [] o c h = cc
no_expiry_from (r ∷ rows) none c h = cc
no_expiry_from (r ∷ rows) (some o) c h =
    ap (λ (x : EndUserConsent). x.expires_at) (sym (some_injective h))

-- A consent that is read back never has an expiry.
pub standing_consent_unlimited :
    (t : TenantContext) (id : WorkItemId) (consents : List ConsentRow)
    (operations : List OperationRow) (c : EndUserConsent)
    → standing_consent t id consents operations ≡ some c
    → c.expires_at ≡ none
unfolding standing_consent
standing_consent_unlimited t id consents operations c h = no_expiry_from _ _ c h

-- Nobody but the requester of a work item consents to it: where no row of the tenant names both, nothing
-- is inserted and the answer is `False`.
pub record_consent_refused :
    (t : TenantContext) (id : ConsentId) (item : WorkItemId) (by : PrincipalId) (v : ConsentVerdict)
    (clock : Instant) (items : List WorkItemRow) (rows : List ConsentRow)
    → matching (may_consent t item by) items ≡ 0
    → record_consent t id item by v clock items rows ≡ record { rows = rows; answer = false }
unfolding record_consent
record_consent_refused t id item by v clock items rows absent =
    rw (absent, select_none (may_consent t item by) items absent, append_nil rows) refl
