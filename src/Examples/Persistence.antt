-- ===== src/Examples/Persistence.antt =====
-- The work items' table on concrete rows, and the theorems about it applied to them.
use itsm_poc.Common.{
  ◌+◌, true, false, List, [], ◌∷◌, none, some, ok, length, ◌≡◌, ◌≢◌, ◌≤◌, refl, arith, All,
}
use itsm_poc.Domain.Records.{Uuid, TenantContext, WorkItemId, active, end_user_identity}
use itsm_poc.Domain.Work.{authorized, claimed, expired, no_approval}
use itsm_poc.Persistence.Rows.{row_at, select}
use itsm_poc.Persistence.Guard.{Written}
use itsm_poc.Persistence.WorkItems.{WorkItemRow, claim, transition_row, list_expired}
use itsm_poc.Persistence.WorkItems.Calls.{WorkItemCall, claim_call, Trace, trace, perform}
use itsm_poc.Persistence.WorkItems.Claims.{Keyed, holder, Serves, trace-Serves, item_key}
use itsm_poc.Persistence.WorkItems.Isolation.{owned_by, trace_isolated, caller_tenant}
use itsm_poc.Persistence.WorkItems.Versions.{no_lost_update}
use itsm_poc.Workers.Expiry.{Swept, sweep_expired, sweep_yields}

abbrev pub tenant_of : Uuid → TenantContext
tenant_of id = record {
  tenant_id = record { value = id };
  entra_tenant_id = record { value = 500 };
  status = active;
  source = end_user_identity;
}

abbrev item_of : Uuid → WorkItemId
item_of id = record { value = id }

abbrev pub row_of : (id owner : Uuid) → WorkItemRow
row_of id owner = record {
  work_item_id = id;
  tenant_id = owner;
  session_id = 900 + id;
  requested_by_oid = 800;
  case_reference = none;
  governed_action = none;
  target = none;
  state = authorized;
  approval_state = no_approval;
  expires_at = some 2000;
  claimed_at = none;
  claimed_by = none;
  outcome = none;
  created_at = 100;
  updated_at = 100;
  created_by = none;
  updated_by = none;
  version = 3;
}

abbrev claimed_row : WorkItemRow
claimed_row = record (row_of 1 10) {
  state = claimed;
  claimed_at = some 1500;
  claimed_by = some "worker-a";
  version = 4;
  updated_at = 1501;
}

-- An item of each of two tenants.
abbrev items : List WorkItemRow
items = row_of 1 10 ∷ row_of 2 20 ∷ []

abbrev calls : List WorkItemCall
calls =
    claim_call (tenant_of 20) (item_of 1) "worker-x" 1500 1501
    ∷ claim_call (tenant_of 10) (item_of 1) "worker-a" 1500 1501
    ∷ claim_call (tenant_of 10) (item_of 1) "worker-b" 1500 1502
    ∷ []

abbrev claimed_items : Written WorkItemRow
claimed_items = record { rows = claimed_row ∷ row_of 2 20 ∷ []; answer = true }

items-Keyed : Keyed items
unfolding Keyed
items-Keyed id = ground arith

trace_test :
    trace calls items
    ≡ ok (record {
      final = claimed_row ∷ row_of 2 20 ∷ [];
      answered =
          (claim_call (tenant_of 20) (item_of 1) "worker-x" 1500 1501, false)
          ∷ (claim_call (tenant_of 10) (item_of 1) "worker-a" 1500 1501, true)
          ∷ (claim_call (tenant_of 10) (item_of 1) "worker-b" 1500 1502, false)
          ∷ [];
    })
unfolding trace perform claim
trace_test = refl

claim_test : claim (tenant_of 10) (item_of 1) "worker-a" 1500 1501 items ≡ ok claimed_items
unfolding claim
claim_test = refl

list_expired_test : list_expired (tenant_of 10) 2500 5 items ≡ row_of 1 10 ∷ []
unfolding list_expired
list_expired_test = refl

trace-Serves_example :
    (t : Trace) × (trace calls items ≡ ok t)
    × Serves 1 (holder 1 items) t.answered (holder 1 t.final)
trace-Serves_example = trace-Serves 1 calls items items-Keyed

foreign : All (λ call. caller_tenant call ≢ 30) calls
unfolding caller_tenant
foreign = ((λ e. omega (arith, e)), ((λ e. omega (arith, e)), ((λ e. omega (arith, e)), tt)))

trace_isolated_example :
    (t : Trace) × (trace calls items ≡ ok t)
    × (select (owned_by 30) t.final ≡ select (owned_by 30) items)
trace_isolated_example = trace_isolated 30 calls items foreign

abbrev expired_items : Written WorkItemRow
expired_items = record {
  rows =
      record (row_of 1 10) { state = expired; version = 4; updated_at = 2501 } ∷ row_of 2 20 ∷ [];
  answer = true;
}

transition_test : transition_row (tenant_of 10) (item_of 1) expired 3 2501 items ≡ ok expired_items
unfolding transition_row
transition_test = refl

no_lost_update_example :
    transition_row (tenant_of 10) (item_of 1) claimed 3 2502 expired_items.rows
    ≡ ok (record { rows = expired_items.rows; answer = false })
no_lost_update_example =
    no_lost_update (tenant_of 10) (tenant_of 10) (item_of 1) expired claimed 3 2501 2502 items
      expired_items items-Keyed transition_test refl

sweep_yields_example :
    (s : Swept) × (sweep_expired (tenant_of 10) 2500 2501 5 items claimed_items.rows ≡ ok s)
    × (row_at (item_key 1) s.left ≡ row_at (item_key 1) claimed_items.rows)
    × (s.counts.expired_count + s.counts.contended
        ≡ length (list_expired (tenant_of 10) 2500 5 items))
    × (s.counts.expired_count + s.counts.contended ≤ 5)
sweep_yields_example =
    sweep_yields (tenant_of 10) (tenant_of 10) (item_of 1) "worker-a" 1500 1501 2500 2501 5 items
      claimed_items items-Keyed claim_test refl
