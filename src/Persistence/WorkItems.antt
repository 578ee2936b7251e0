-- ===== src/Persistence/WorkItems.antt =====
-- The work items' table and its repository: `WorkItem` of ragcore/src/ragcore/persistence/models.py and
-- `WorkItemRepository` of repositories.py.
pub mod Calls
pub mod Claims
pub mod Isolation
pub mod Versions
use itsm_poc.Common.{
  ℕ, Bool, true, false, ◌&&◌, List, [], ◌∷◌, String, Option, none, some, Result, err, ok, ltb, leb,
  take, not, sort_by, if◌then◌else◌, ◌==◌, ◌+◌,
}
use itsm_poc.Domain.Records.{Uuid, Instant, JsonObject, TenantContext, TenantId, WorkItemId}
use itsm_poc.Domain.Work.{WorkItemState, ApprovalState, authorized, claimed}
use itsm_poc.Persistence.Rows.{select}
use itsm_poc.Persistence.Guard.{
  Table, Changes, VersionedRow, VersionColumn, Written, WriteError, guarded_update, claim_once,
}

pub record WorkItemRow : Type 0 where
  pub work_item_id : Uuid
  pub tenant_id : Uuid
  pub session_id : Uuid
  pub requested_by_oid : Uuid
  pub case_reference : Option String
  pub governed_action : Option String
  pub target : Option JsonObject
  pub state : WorkItemState
  pub approval_state : ApprovalState
  pub expires_at : Option Instant
  pub claimed_at : Option Instant
  pub claimed_by : Option String
  pub outcome : Option JsonObject
  pub created_at : Instant
  pub updated_at : Instant
  pub created_by : Option String
  pub updated_by : Option String
  pub version : ℕ

abbrev pub work_item_table : Table WorkItemRow
work_item_table = record {
  table_name = "work_item";
  version_column = some (record {
    version_of = λ (r : WorkItemRow). r.version;
    with_version = λ n (r : WorkItemRow). record r { version = n };
  });
  with_updated_at = λ at (r : WorkItemRow). record r { updated_at = at };
}

abbrev pub is_null {ℓ} : {A : Type ℓ} → Option A → Bool
is_null none = true
is_null (some _) = false

-- The CHECK constraint `a_claim_names_its_claimant`.
unfoldable pub names_its_claimant : WorkItemRow → Bool
names_its_claimant r =
    if is_null r.claimed_at then is_null r.claimed_by else not (is_null r.claimed_by)

-- `_scope`, and the item itself.
unfoldable pub tenant_scope : TenantContext → Uuid → Bool
tenant_scope tenant tenant_id = tenant_id == tenant.tenant_id.value

unfoldable pub is_item : TenantContext → WorkItemId → WorkItemRow → Bool
unfolding tenant_scope
is_item tenant id r = tenant_scope tenant r.tenant_id && r.work_item_id == id.value

unfoldable pub is_authorized_row : WorkItemState → Bool
is_authorized_row authorized = true
is_authorized_row _ = false

-- A comparison with a null column does not hold.
abbrev pub expires_after : Option Instant → Instant → Bool
expires_after none now = false
expires_after (some at) now = ltb now at

abbrev not_after : Option Instant → Instant → Bool
not_after none now = false
not_after (some at) now = leb at now

unfoldable pub may_be_claimed : Instant → WorkItemRow → Bool
unfolding is_authorized_row
may_be_claimed now r =
    is_null r.claimed_at
    && (is_authorized_row r.state && (not (is_null r.expires_at) && expires_after r.expires_at now))

abbrev pub claiming : (now : Instant) → (by : String) → Changes WorkItemRow
claiming now by = record {
  columns = "claimed_at" ∷ "claimed_by" ∷ "state" ∷ [];
  assign = λ (r : WorkItemRow). record r {
    claimed_at = some now;
    claimed_by = some by;
    state = claimed;
  };
}

unfoldable pub claim :
    TenantContext
    → WorkItemId
    → (claimed_by : String) → (now clock : Instant) → List WorkItemRow
    → Result WriteError (Written WorkItemRow)
unfolding is_item may_be_claimed claim_once
claim tenant id by now clock =
    claim_once work_item_table clock (λ r. is_item tenant id r && may_be_claimed now r)
      (claiming now by)

abbrev pub moving_to : WorkItemState → Changes WorkItemRow
moving_to to = record {
  columns = "state" ∷ [];
  assign = λ (r : WorkItemRow). record r { state = to };
}

unfoldable pub transition_row :
    TenantContext
    → WorkItemId
    → WorkItemState
    → (expected_version : ℕ) → (clock : Instant) → List WorkItemRow
    → Result WriteError (Written WorkItemRow)
unfolding is_item guarded_update
transition_row tenant id to expected clock =
    guarded_update work_item_table clock
      (record { identity = is_item tenant id; expected_version = expected }) (moving_to to)

unfoldable pub has_expired : TenantContext → Instant → WorkItemRow → Bool
unfolding tenant_scope is_authorized_row
has_expired tenant now r =
    tenant_scope tenant r.tenant_id
    && (is_null r.claimed_at
        && (not (is_null r.expires_at)
            && (not_after r.expires_at now && is_authorized_row r.state)))

-- `ORDER BY expires_at`.
abbrev earlier : Option Instant → Option Instant → Bool
earlier none b = false
earlier (some a) none = true
earlier (some a) (some b) = ltb a b

unfoldable pub list_expired :
    TenantContext → Instant → (limit : ℕ) → List WorkItemRow → List WorkItemRow
unfolding has_expired
list_expired tenant now limit rows = take limit (
    sort_by (λ (a b : WorkItemRow). earlier a.expires_at b.expires_at)
      (select (has_expired tenant now) rows))
