-- ===== src/Persistence/Approvals.antt =====
-- The approvals' table and its repository: `Approval` and `Operation` of
-- ragcore/src/ragcore/persistence/models.py and `ApprovalRepository` of repositories.py.
pub mod Verdicts
use itsm_poc.Common.{
  ℕ, Bool, true, false, ◌&&◌, List, [], ◌∷◌, String, Option, none, some, Result, err, ok, ◌>>=◌,
  ltb, ◌==◌, if◌then◌else◌, sort_by,
}
use itsm_poc.Domain.Authority.{authenticated_staff_verdict}
use itsm_poc.Domain.Treatment.{ExecutionTreatment, VerificationOutcome}
use itsm_poc.Domain.Roles.{StaffRole, RoleSet, role_set_of, parse, canonical}
use itsm_poc.Domain.Work.{ApprovalVerdict}
use itsm_poc.Domain.Records.{
  Uuid, Instant, JsonObject, TenantContext, WorkItemId, ApprovalId, PrincipalId, StaffVerdict,
  OperationIdentity,
}
use itsm_poc.Persistence.Rows.{select}
use itsm_poc.Persistence.Guard.{Table, Changes, Written, WriteError, claim_once}
use itsm_poc.Persistence.WorkItems.{tenant_scope, is_null}

pub record ApprovalRow : Type 0 where
  pub approval_id : Uuid
  pub tenant_id : Uuid
  pub work_item_id : Uuid
  pub requested_at : Instant
  pub decided_at : Option Instant
  pub decided_by_oid : Option Uuid
  pub decided_by_roles : Option (List String)
  pub verdict : Option ApprovalVerdict
  pub expires_at : Option Instant
  pub created_at : Instant
  pub updated_at : Instant
  pub created_by : Option String
  pub updated_by : Option String
  pub version : ℕ

-- The columns of an operation that are read here.
pub record OperationRow : Type 0 where
  pub operation_id : Uuid
  pub tenant_id : Uuid
  pub work_item_id : Uuid
  pub catalogue_id : String
  pub catalogue_version : ℕ
  pub created_at : Instant

abbrev pub approval_table : Table ApprovalRow
approval_table = record {
  table_name = "approval";
  version_column = some (record {
    version_of = λ (r : ApprovalRow). r.version;
    with_version = λ n (r : ApprovalRow). record r { version = n };
  });
  with_updated_at = λ at (r : ApprovalRow). record r { updated_at = at };
}

-- The row that a verdict is recorded in.
unfoldable pub is_undecided : TenantContext → ApprovalId → ApprovalRow → Bool
unfolding tenant_scope
is_undecided tenant id r =
    tenant_scope tenant r.tenant_id && (r.approval_id == id.value && is_null r.decided_at)

abbrev pub deciding :
    (clock : Instant)
    → PrincipalId
    → RoleSet
    → ApprovalVerdict
    → (expires_at : Instant) → Changes ApprovalRow
deciding clock by roles decided expires = record {
  columns = "decided_at" ∷ "decided_by_oid" ∷ "decided_by_roles" ∷ "verdict" ∷ "expires_at" ∷ [];
  assign = λ (r : ApprovalRow). record r {
    decided_at = some clock;
    decided_by_oid = some by.value;
    decided_by_roles = some (canonical roles);
    verdict = some decided;
    expires_at = some expires;
  };
}

unfoldable pub record_verdict :
    TenantContext
    → ApprovalId
    → PrincipalId
    → RoleSet
    → ApprovalVerdict
    → (expires_at clock : Instant) → List ApprovalRow
    → Result WriteError (Written ApprovalRow)
unfolding is_undecided claim_once
record_verdict tenant id by roles decided expires clock =
    claim_once approval_table clock (is_undecided tenant id)
      (deciding clock by roles decided expires)

-- What reading a decision raises: a role that is none of the roles, and a second row.
pub data ReadError : Type 0 where
  unknown_role multiple_results : ReadError

unfoldable pub newer : OperationRow → OperationRow → Bool
newer a b = ltb b.created_at a.created_at

unfoldable pub is_operation_of : TenantContext → WorkItemId → OperationRow → Bool
unfolding tenant_scope
is_operation_of tenant id r = tenant_scope tenant r.tenant_id && r.work_item_id == id.value

newest_of : List OperationRow → Option OperationRow
newest_of [] = none
newest_of (r ∷ rs) = some r

-- The subquery: the newest operation of the work item.
unfoldable pub bound_operation :
    TenantContext → WorkItemId → List OperationRow → Option OperationRow
unfolding newer is_operation_of newest_of
bound_operation tenant id rows = newest_of (sort_by newer (select (is_operation_of tenant id) rows))

unfoldable pub is_decided_for : TenantContext → WorkItemId → ApprovalRow → Bool
unfolding tenant_scope
is_decided_for tenant id r =
    tenant_scope tenant r.tenant_id
    && (r.work_item_id == id.value && (if is_null r.decided_at then false else true))

unfoldable pub named_roles : List String → Result ReadError (List StaffRole)
named_roles [] = ok []
named_roles (name ∷ names) = elim (parse name) [
  | none ↦ err unknown_role
  | some role ↦ named_roles names >>= λ roles. ok (role ∷ roles)
]

or_empty : Option (List String) → List String
or_empty none = []
or_empty (some names) = names

unfoldable pub identity_of : OperationRow → OperationIdentity
identity_of operation = record {
  catalogue_id = operation.catalogue_id;
  version = operation.catalogue_version;
}

-- The object of a row whose verdict and decider are not null.
unfoldable pub verdict_from :
    ApprovalRow
    → (decider : Option Uuid) → (verdict : Option ApprovalVerdict) → (at : Option Instant)
    → OperationRow
    → Result ReadError (Option StaffVerdict)
unfolding named_roles or_empty identity_of
verdict_from r (some decider) (some decided) (some at) operation =
    named_roles (or_empty r.decided_by_roles) >>= λ roles. ok (
      some (record {
        approval_id = record { value = r.approval_id };
        decided_by = record { value = decider };
        roles_held = role_set_of roles;
        verdict = decided;
        bound_to = identity_of operation;
        decided_at = at;
        expires_at = r.expires_at;
        source = authenticated_staff_verdict;
      }))
verdict_from r _ _ _ operation = ok none

one_verdict : List ApprovalRow → OperationRow → Result ReadError (Option StaffVerdict)
unfolding verdict_from
one_verdict [] operation = ok none
one_verdict (r ∷ []) operation = verdict_from r r.decided_by_oid r.verdict r.decided_at operation
one_verdict (r ∷ _ ∷ _) operation = err multiple_results

-- Without an operation the join has no row.
joined_verdict : List ApprovalRow → Option OperationRow → Result ReadError (Option StaffVerdict)
unfolding one_verdict
joined_verdict rows none = ok none
joined_verdict rows (some operation) = one_verdict rows operation

unfoldable pub decision_for :
    TenantContext
    → WorkItemId
    → List ApprovalRow
    → List OperationRow
    → Result ReadError (Option StaffVerdict)
unfolding bound_operation is_decided_for joined_verdict
decision_for tenant id approvals operations =
    joined_verdict (select (is_decided_for tenant id) approvals)
      (bound_operation tenant id operations)
