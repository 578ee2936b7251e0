-- ===== src/Persistence/Tenants.antt =====
-- The registry of organisations: TenantMapping of ragcore/src/ragcore/persistence/models.py and `TenantRegistry`
-- of persistence/repositories.py, with the sessions of `SessionRepository`.
pub mod Owners
use itsm_poc.Common.{
  ℕ, Bool, true, ◌&&◌, List, [], ◌∷◌, ◌++◌, Option, none, some, String, ◌==◌, ltb, select, sort_by,
  take, Result, ok, err, ◌>>=◌, if◌then◌else◌,
}
use itsm_poc.Domain.Work.{SessionState}
use itsm_poc.Domain.Records.{
  Uuid, Instant, JsonObject, TenantId, EntraTenantId, TenantStatus, TenantContext, WorkItemId,
  SessionId, PrincipalId, from_admitted_identity, from_work_item, from_platform_object,
}
use itsm_poc.Persistence.Guard.{
  Table, VersionColumn, Changes, VersionedRow, Written, WriteError, guarded_update,
}
use itsm_poc.Persistence.WorkItems.{WorkItemRow, tenant_scope, is_item}
use itsm_poc.Persistence.Catalogue.{LookupError, one_or_none}

pub record TenantMappingRow : Type 0 where
  pub tenant_id : Uuid
  pub entra_tid : Uuid
  pub display_name : String
  pub status : TenantStatus
  pub retention_overrides : Option JsonObject

pub record SessionRow : Type 0 where
  pub session_id : Uuid
  pub tenant_id : Uuid
  pub requester_oid : Uuid
  pub state : SessionState
  pub case_reference : Option String
  pub closed_at : Option Instant
  pub content_expires_at : Option Instant
  pub created_at : Instant
  pub updated_at : Instant
  pub version : ℕ

-- The constructor that a method ends with, of the row's identifiers and status.
abbrev pub Binding : Type 0
Binding = TenantId → EntraTenantId → TenantStatus → TenantContext

unfoldable pub bound_context : Binding → Option TenantMappingRow → Option TenantContext
bound_context bind none = none
bound_context bind (some r) =
    some (bind (record { value = r.tenant_id }) (record { value = r.entra_tid }) r.status)

unfoldable pub context_of :
    Binding → List TenantMappingRow → Result LookupError (Option TenantContext)
unfolding one_or_none bound_context
context_of bind rows = one_or_none rows >>= λ row. ok (bound_context bind row)

unfoldable pub admit_end_user :
    EntraTenantId → List TenantMappingRow → Result LookupError (Option TenantContext)
unfolding context_of
admit_end_user entra rows =
    context_of from_admitted_identity
      (select (λ (r : TenantMappingRow). r.entra_tid == entra.value) rows)

unfoldable pub status_for :
    TenantId → List TenantMappingRow → Result LookupError (Option TenantContext)
unfolding context_of
status_for id rows =
    context_of from_admitted_identity
      (select (λ (r : TenantMappingRow). r.tenant_id == id.value) rows)

-- The rows of the registry that the owners of the selected rows join to.
unfoldable pub owners : List Uuid → List TenantMappingRow → List TenantMappingRow
owners [] rows = []
owners (tenant_id ∷ more) rows =
    select (λ (r : TenantMappingRow). tenant_id == r.tenant_id) rows ++ owners more rows

unfoldable pub item_owners : WorkItemId → List WorkItemRow → List Uuid
item_owners id [] = []
item_owners id (w ∷ items) =
    let rest = item_owners id items in
    if w.work_item_id == id.value then w.tenant_id ∷ rest else rest

unfoldable pub tenant_for_work_item :
    WorkItemId
    → List WorkItemRow
    → List TenantMappingRow
    → Result LookupError (Option TenantContext)
unfolding context_of owners item_owners
tenant_for_work_item id items rows = context_of from_work_item (owners (item_owners id items) rows)

unfoldable pub session_owners : SessionId → List SessionRow → List Uuid
session_owners id [] = []
session_owners id (s ∷ sessions) =
    let rest = session_owners id sessions in
    if s.session_id == id.value then s.tenant_id ∷ rest else rest

unfoldable pub tenant_for_session :
    SessionId → List SessionRow → List TenantMappingRow → Result LookupError (Option TenantContext)
unfolding context_of owners session_owners
tenant_for_session id sessions rows =
    context_of from_platform_object (owners (session_owners id sessions) rows)

overrides_of : Option TenantMappingRow → Option JsonObject
overrides_of none = none
overrides_of (some r) = r.retention_overrides

unfoldable pub retention_overrides :
    TenantContext → List TenantMappingRow → Result LookupError (Option JsonObject)
unfolding one_or_none overrides_of
retention_overrides tenant rows =
    one_or_none (select (λ (r : TenantMappingRow). r.tenant_id == tenant.tenant_id.value) rows)
    >>= λ row. ok (overrides_of row)

-- `WorkItemRepository.get`.
unfoldable pub get_work_item :
    TenantContext → WorkItemId → List WorkItemRow → Result LookupError (Option WorkItemRow)
unfolding one_or_none is_item
get_work_item tenant id items = one_or_none (select (is_item tenant id) items)

unfoldable pub is_own_session : TenantContext → SessionId → SessionRow → Bool
unfolding tenant_scope
is_own_session tenant id s = tenant_scope tenant s.tenant_id && s.session_id == id.value

unfoldable pub get_session :
    TenantContext → SessionId → List SessionRow → Result LookupError (Option SessionRow)
unfolding one_or_none is_own_session
get_session tenant id sessions = one_or_none (select (is_own_session tenant id) sessions)

created_later : SessionRow → SessionRow → Bool
created_later a b = ltb b.created_at a.created_at

unfoldable pub list_for_requester :
    TenantContext → PrincipalId → (limit : ℕ) → List SessionRow → List SessionRow
unfolding tenant_scope created_later
list_for_requester tenant requester limit sessions = take limit (
    sort_by created_later (
      select
        (λ (s : SessionRow). tenant_scope tenant s.tenant_id && s.requester_oid == requester.value)
        sessions))

abbrev pub session_table : Table SessionRow
session_table = record {
  table_name = "chat_session";
  version_column = some (record {
    version_of = λ (s : SessionRow). s.version;
    with_version = λ (v : ℕ) (s : SessionRow). record s { version = v };
  });
  with_updated_at = λ (at : Instant) (s : SessionRow). record s { updated_at = at };
}

session_changes : SessionState → Option Instant → Changes SessionRow
session_changes state none = record {
  columns = "state" ∷ [];
  assign = λ (s : SessionRow). record s { state = state };
}
session_changes state (some at) = record {
  columns = "state" ∷ "content_expires_at" ∷ [];
  assign = λ (s : SessionRow). record s { state = state; content_expires_at = some at };
}

unfoldable pub transition_session :
    TenantContext
    → SessionId
    → SessionState
    → (expected_version : ℕ) → (content_expires_at : Option Instant) → (clock : Instant)
    → List SessionRow
    → Result WriteError (Written SessionRow)
unfolding guarded_update is_own_session session_changes
transition_session tenant id state expected expires clock =
    guarded_update session_table clock
      (record { identity = is_own_session tenant id; expected_version = expected })
      (session_changes state expires)
