-- ===== src/Persistence/Tenants/Owners.antt =====
-- The context that is derived from a stored object is its owner's: `TenantRegistry` of
-- ragcore/src/ragcore/persistence/repositories.py.
use itsm_poc.Common.{
  true, ◌&&◌, ◌||◌, List, [], ◌∷◌, any, Option, none, some, ◌==◌, select, ok, ◌≡◌, refl, sym, ap,
  ◌∙◌, subst, All, Bool-cases, inl, inr, if◌then◌else◌, >>=-eq-ok, ok-injective, some_injective,
  All-append, All-weaken, All_selected, or_true,
}
use itsm_poc.Domain.Records.{Uuid, TenantContext, WorkItemId, from_work_item}
use itsm_poc.Persistence.WorkItems.{WorkItemRow}
use itsm_poc.Persistence.Catalogue.{one_or_none}
use itsm_poc.Persistence.Tenants.{
  TenantMappingRow, Binding, bound_context, context_of, owners, item_owners, tenant_for_work_item,
}

-- A row of the registry with the organisation of one of the items.
abbrev Owner : List Uuid → TenantMappingRow → Type 0
Owner ids r = any (λ id. id == r.tenant_id) ids ≡ true

one_or_none_lem :
    (P : TenantMappingRow → Type 0) (rows : List TenantMappingRow) {r : TenantMappingRow}
    → All P rows
    → one_or_none rows ≡ ok (some r)
    → P r
unfolding one_or_none
one_or_none_lem P [] h found = cc
one_or_none_lem P (x ∷ []) (here, h) found = subst P (some_injective (ok-injective found)) here
one_or_none_lem P (x ∷ y ∷ rows) h found = cc

owners-Owner : (ids : List Uuid) (rows : List TenantMappingRow) → All (Owner ids) (owners ids rows)
unfolding owners
owners-Owner [] rows = tt
owners-Owner (id ∷ ids) rows =
    All-append (Owner (id ∷ ids)) (select (λ (r : TenantMappingRow). id == r.tenant_id) rows)
      (owners ids rows)
      (All-weaken (λ (r : TenantMappingRow). (id == r.tenant_id) ≡ true) (Owner (id ∷ ids))
        (λ r own. rw (own) refl) (select (λ (r : TenantMappingRow). id == r.tenant_id) rows)
        (All_selected (λ (r : TenantMappingRow). id == r.tenant_id) rows))
      (All-weaken (Owner ids) (Owner (id ∷ ids)) (λ r own. rw (own) (or_true (id == r.tenant_id)))
        (owners ids rows) (owners-Owner ids rows))

item_owners_lem :
    (id : WorkItemId) (items : List WorkItemRow) (tenant_id : Uuid)
    → any (λ owner. owner == tenant_id) (item_owners id items)
      ≡ any (λ (w : WorkItemRow). w.work_item_id == id.value && w.tenant_id == tenant_id) items
unfolding item_owners
item_owners_lem id [] tenant_id = refl
item_owners_lem id (w ∷ items) tenant_id =
    let rest = item_owners_lem id items tenant_id in
    elim (Bool-cases (w.work_item_id == id.value)) [
      | inl e ↦ rw (e, if◌then◌else◌) (ap (λ b. (w.tenant_id == tenant_id) || b) rest)
      | inr e ↦ rw (e, if◌then◌else◌) rest
    ]

bound_lem :
    (bind : Binding) (o : Option TenantMappingRow) {context : TenantContext}
    → bound_context bind o ≡ some context
    → (r : TenantMappingRow) × (o ≡ some r)
      × (context ≡ bind (record { value = r.tenant_id }) (record { value = r.entra_tid }) r.status)
unfolding bound_context
bound_lem bind none h = cc
bound_lem bind (some r) h = (r, refl, sym (some_injective h))

-- A context that is found for a work item is the one of a registered organisation that owns an item of this
-- identifier, with the status that the registry has now, and it says that it was derived from a work item.
pub work_item_owner :
    (id : WorkItemId) (items : List WorkItemRow) (rows : List TenantMappingRow)
    {context : TenantContext}
    → tenant_for_work_item id items rows ≡ ok (some context)
    → (r : TenantMappingRow) × (context
        ≡ from_work_item (record { value = r.tenant_id }) (record { value = r.entra_tid }) r.status)
      × (any (λ (w : WorkItemRow). w.work_item_id == id.value && w.tenant_id == r.tenant_id) items
          ≡ true)
unfolding tenant_for_work_item context_of
work_item_owner id items rows {context} found =
    let ids = item_owners id items in
    let (row, one, bound) = >>=-eq-ok (one_or_none (owners ids rows)) _ found in
    let (r, row_is, context_is) =
      bound_lem from_work_item row {context = context} (ok-injective bound) in
    let owner =
      one_or_none_lem (Owner ids) (owners ids rows) {r = r} (owners-Owner ids rows)
        (one ∙ ap ok row_is) in
    (r, context_is, sym (item_owners_lem id items r.tenant_id) ∙ owner)
