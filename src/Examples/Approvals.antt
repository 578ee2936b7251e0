-- ===== src/Examples/Approvals.antt =====
-- Approvals on concrete rows, and the theorems about them applied to those.
use itsm_poc.Common.{ℕ, [], ◌∷◌, true, false, none, some, ok, ◌≡◌, ◌<◌, refl, arith, All}
use itsm_poc.Domain.Authority.{authenticated_staff_verdict}
use itsm_poc.Domain.Roles.{RoleSet, technician, role_set_of, canonical, parse}
use itsm_poc.Domain.Work.{approved, rejected}
use itsm_poc.Domain.Records.{
  TenantContext, ApprovalId, PrincipalId, StaffVerdict, active, work_item,
}
use itsm_poc.Persistence.Guard.{Written}
use itsm_poc.Persistence.Approvals.{
  ApprovalRow, OperationRow, record_verdict, decision_for, is_operation_of, identity_of,
}
use itsm_poc.Persistence.Approvals.Verdicts.{OneEach, verdict_stands, decision_rebinds}

abbrev owner : TenantContext
owner = record {
  tenant_id = record { value = 10 };
  entra_tenant_id = record { value = 500 };
  status = active;
  source = work_item;
}

abbrev approval : ApprovalId
approval = record { value = 5 }

abbrev approver : PrincipalId
approver = record { value = 801 }

abbrev held : RoleSet
held = role_set_of (technician ∷ [])

abbrev requested : ApprovalRow
requested = record {
  approval_id = 5;
  tenant_id = 10;
  work_item_id = 7;
  requested_at = 100;
  decided_at = none;
  decided_by_oid = none;
  decided_by_roles = none;
  verdict = none;
  expires_at = none;
  created_at = 100;
  updated_at = 100;
  created_by = none;
  updated_by = none;
  version = 1;
}

abbrev decided_row : ApprovalRow
decided_row = record requested {
  decided_at = some 200;
  decided_by_oid = some 801;
  decided_by_roles = some ("technician" ∷ []);
  verdict = some approved;
  expires_at = some 1100;
  updated_at = 200;
  version = 2;
}

abbrev decided_rows : Written ApprovalRow
decided_rows = record { rows = decided_row ∷ []; answer = true }

requested-OneEach : OneEach (requested ∷ [])
unfolding OneEach
requested-OneEach id = ground arith

record_verdict_test :
    record_verdict owner approval approver held approved 1100 200 (requested ∷ []) ≡ ok decided_rows
unfolding record_verdict canonical role_set_of
record_verdict_test = refl

verdict_stands_example :
    record_verdict owner approval (record { value = 802 }) held rejected 1200 300 (decided_row ∷ [])
    ≡ ok (record { rows = decided_row ∷ []; answer = false })
verdict_stands_example =
    verdict_stands owner owner approval approver (record { value = 802 }) held held approved
      rejected 1100 200 1200 300 (requested ∷ []) decided_rows requested-OneEach record_verdict_test
      refl

abbrev operation_of : (version created : ℕ) → OperationRow
operation_of version created = record {
  operation_id = 60;
  tenant_id = 10;
  work_item_id = 7;
  catalogue_id = "reset";
  catalogue_version = version;
  created_at = created;
}

abbrev standing : StaffVerdict
standing = record {
  approval_id = approval;
  decided_by = approver;
  roles_held = held;
  verdict = approved;
  bound_to = record { catalogue_id = "reset"; version = 3 };
  decided_at = 200;
  expires_at = some 1100;
  source = authenticated_staff_verdict;
}

decision_for_test :
    decision_for owner (record { value = 7 }) (decided_row ∷ []) (operation_of 3 150 ∷ [])
    ≡ ok (some standing)
unfolding decision_for parse
decision_for_test = refl

latest_own : is_operation_of owner (record { value = 7 }) (operation_of 4 250) ≡ true
unfolding is_operation_of
latest_own = refl

earlier_operations : All (λ (r : OperationRow). r.created_at < 250) (operation_of 3 150 ∷ [])
earlier_operations = (omega arith, tt)

-- Approved at version 3, and read as an approval of version 4.
decision_rebinds_example :
    decision_for owner
      (record { value = 7 })
      (decided_row ∷ [])
      (operation_of 4 250 ∷ operation_of 3 150 ∷ [])
    ≡ ok (some (record standing { bound_to = identity_of (operation_of 4 250) }))
decision_rebinds_example =
    decision_rebinds owner (record { value = 7 }) (decided_row ∷ []) (operation_of 3 150 ∷ [])
      (operation_of 4 250) standing decision_for_test latest_own earlier_operations
