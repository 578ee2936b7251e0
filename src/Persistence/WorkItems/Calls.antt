-- ===== src/Persistence/WorkItems/Calls.antt =====
-- The writes of `WorkItemRepository` as calls made one after the other, by any callers of any tenant:
-- ragcore/src/ragcore/persistence/repositories.py.
use itsm_poc.Common.{
  ℕ, ◌+◌, Bool, ◌&&◌, List, [], ◌∷◌, String, some, Result, ok, ◌>>=◌, ◌==◌, ◌≡◌, refl,
}
use itsm_poc.Domain.Records.{Instant, TenantContext, WorkItemId}
use itsm_poc.Domain.Work.{WorkItemState, claimed}
use itsm_poc.Persistence.Guard.{
  Written, WriteError, execute_update, guarded_update_lem, claim_once_lem, is_managed, bump,
}
use itsm_poc.Persistence.WorkItems.{
  WorkItemRow, work_item_table, claiming, moving_to, claim, transition_row, is_item, may_be_claimed,
}

pub data WorkItemCall : Type 0 where
  claim_call :
      TenantContext → WorkItemId → (claimed_by : String) → (now clock : Instant) → WorkItemCall
  transition_call :
      TenantContext
      → WorkItemId
      → WorkItemState
      → (expected_version : ℕ) → (clock : Instant) → WorkItemCall

unfoldable pub named_item : WorkItemCall → WorkItemId
named_item (claim_call t i by now clock) = i
named_item (transition_call t i to v clock) = i

unfoldable pub perform : WorkItemCall → List WorkItemRow → Result WriteError (Written WorkItemRow)
perform (claim_call t i by now clock) rows = claim t i by now clock rows
perform (transition_call t i to v clock) rows = transition_row t i to v clock rows

-- What a sequence of calls left, and each call with its answer.
pub record Trace : Type 0 where
  pub final : List WorkItemRow
  pub answered : List (WorkItemCall × Bool)

unfoldable pub noted : WorkItemCall → Bool → Trace → Trace
noted call b t = record { final = t.final; answered = (call, b) ∷ t.answered }

unfoldable pub trace : List WorkItemCall → List WorkItemRow → Result WriteError Trace
unfolding noted
trace [] rows = ok (record { final = rows; answered = [] })
trace (call ∷ calls) rows =
    perform call rows >>= λ w. trace calls w.rows >>= λ rest. ok (noted call w.answer rest)

-- What a call writes in a row, and the rows it writes.
unfoldable pub asks : WorkItemCall → WorkItemRow → Bool
asks (claim_call t i by now clock) r = is_item t i r && may_be_claimed now r
asks (transition_call t i to v clock) r = is_item t i r && r.version == v

unfoldable pub writes : WorkItemCall → WorkItemRow → WorkItemRow
writes (claim_call t i by now clock) r = record r {
  claimed_at = some now;
  claimed_by = some by;
  state = claimed;
  version = r.version + 1;
  updated_at = clock;
}
writes (transition_call t i to v clock) r = record r {
  state = to;
  version = r.version + 1;
  updated_at = clock;
}

-- No call raises: each is one UPDATE.
pub perform_lem :
    (call : WorkItemCall) (rows : List WorkItemRow)
    → perform call rows ≡ ok (execute_update (asks call) (writes call) rows)
unfolding perform claim transition_row asks writes bump is_managed
perform_lem (claim_call t i by now clock) rows =
    claim_once_lem work_item_table clock (claiming now by) rows _ refl refl
      (asks (claim_call t i by now clock))
perform_lem (transition_call t i to v clock) rows =
    guarded_update_lem work_item_table clock (moving_to to) rows _ refl refl
      (record { identity = is_item t i; expected_version = v })
