-- ===== src/Persistence/WorkItems/Isolation.antt =====
-- What the writes of one tenant leave of another's work items: `_scope` in every statement of
-- `WorkItemRepository`, ragcore/src/ragcore/persistence/repositories.py.
use itsm_poc.Common.{
  Bool, true, false, List, [], ◌∷◌, ok, ◌==◌, ◌≡◌, refl, All, arith, ◌>>=◌, ◌∙◌, ◌≢◌,
}
use itsm_poc.Domain.Records.{Uuid}
use itsm_poc.Persistence.Rows.{matching, rewrite, select, select-rewrite}
use itsm_poc.Persistence.Guard.{execute_update}
use itsm_poc.Persistence.WorkItems.{WorkItemRow, is_item, tenant_scope}
use itsm_poc.Persistence.WorkItems.Calls.{
  WorkItemCall, claim_call, transition_call, noted, perform_lem, Trace, trace, asks, writes,
}

unfoldable pub caller_tenant : WorkItemCall → Uuid
caller_tenant (claim_call t i by now clock) = t.tenant_id.value
caller_tenant (transition_call t i to v clock) = t.tenant_id.value

abbrev pub owned_by : Uuid → WorkItemRow → Bool
owned_by owner r = r.tenant_id == owner

asks_own :
    (owner : Uuid) (call : WorkItemCall)
    → caller_tenant call ≢ owner
    → (r : WorkItemRow) → asks call r ≡ true
    → owned_by owner r ≡ false
unfolding caller_tenant asks is_item tenant_scope
asks_own owner (claim_call t i by now clock) foreign r asked = ground arith
asks_own owner (transition_call t i to v clock) foreign r asked = ground arith

writes_owner :
    (owner : Uuid) (call : WorkItemCall) (r : WorkItemRow)
    → owned_by owner (writes call r) ≡ owned_by owner r
unfolding writes
writes_owner owner (claim_call t i by now clock) r = refl
writes_owner owner (transition_call t i to v clock) r = refl

-- Any sequence of claims and transitions that callers of other tenants make, whatever identifiers
-- they name, runs without an exception and leaves a tenant's work items as they are, every column
-- of each.
pub trace_isolated :
    (owner : Uuid) (calls : List WorkItemCall) (rows : List WorkItemRow)
    → All (λ call. caller_tenant call ≢ owner) calls
    → (t : Trace) × (trace calls rows ≡ ok t)
      × (select (owned_by owner) t.final ≡ select (owned_by owner) rows)
unfolding trace noted execute_update
trace_isolated owner [] rows foreign = (record { final = rows; answered = [] }, refl, refl)
trace_isolated owner (call ∷ calls) rows (here, rest) =
    let after = rewrite (asks call) (writes call) rows in
    let (t, ran, kept) = trace_isolated owner calls after rest in
    let once =
      select-rewrite (asks call) (writes call) (owned_by owner) (asks_own owner call here)
        (writes_owner owner call) rows in
    (
      noted call (matching (asks call) rows == 1) t,
      (rw (perform_lem call rows, ◌>>=◌, ran) refl),
      kept ∙ once,
    )
