-- ===== src/Workers/Retention/Removed.antt =====
-- What a retention sweep removes, and what it leaves: ragcore/workers/retention_sweep.py.
use itsm_poc.Common.{ℕ, ◌+◌, ◌≤◌, Bool, false, not, String, Result, ok, err, ◌≡◌, arith, some}
use itsm_poc.Domain.Work.{WorkItemState, executed, failed, expired, cancelled, escalated_work}
use itsm_poc.Domain.Records.{Instant, TenantContext}
use itsm_poc.Persistence.Tenants.{SessionRow}
use itsm_poc.Persistence.WorkItems.{WorkItemRow, tenant_scope}
use itsm_poc.Workers.Retention.{SweepResult, PruneError, not_deleted, swept_result}

-- The states in which work will not be resumed.
pub data Concluded : WorkItemState → Type 0 where
  was_executed : Concluded executed
  did_fail : Concluded failed
  did_expire : Concluded expired
  was_cancelled : Concluded cancelled
  was_escalated : Concluded escalated_work

-- An item of the organisation that is concluded, and was not written for the window's duration.
pub record IsSettled (tenant : TenantContext) (duration : ℕ) (now : Instant) (r : WorkItemRow)
    : Type 0 where
  pub own : r.tenant_id ≡ tenant.tenant_id.value
  pub concluded : Concluded r.state
  pub untouched : r.updated_at + duration ≤ now

-- A session of the organisation whose content had a horizon, which has come.
pub record ContentExpired (tenant : TenantContext) (now : Instant) (r : SessionRow) : Type 0 where
  pub own : r.tenant_id ≡ tenant.tenant_id.value
  pub horizon : Instant
  pub set : r.content_expires_at ≡ some horizon
  pub come : horizon ≤ now

-- How a run of deletions ended: each was made, or the last one that was asked for raised.
PruneEnded : (deletes : String → Bool) → (n : ℕ) → (total asked : ℕ) → Result PruneError ℕ → Type 0
PruneEnded deletes n total asked (ok pruned) = (asked ≡ total) × (pruned ≡ n + total)
PruneEnded deletes n total asked (err (not_deleted id)) =
    (1 ≤ asked) × (asked ≤ total) × (deletes id ≡ false)

unfoldable pub is_foreign : TenantContext → SessionRow → Bool
unfolding tenant_scope
is_foreign tenant r = not (tenant_scope tenant r.tenant_id)

-- What a sweep returns of what it did.
abbrev pub Reports :
    (deletes : String → Bool) → (before left asked : ℕ) → Result PruneError SweepResult → Type 0
Reports deletes before left asked (ok r) =
    (r.sessions_removed + left ≡ before)
    × (r.checkpoints_pruned ≡ asked)
    × (r.checkpoints_eligible ≡ asked)
Reports deletes before left asked (err (not_deleted id)) = (1 ≤ asked) × (deletes id ≡ false)

reported :
    (deletes : String → Bool) (id : String) (removed before left total asked : ℕ)
    (result : Result PruneError ℕ)
    → removed + left ≡ before
    → PruneEnded deletes 0 total asked result
    → Reports deletes before left asked (swept_result id removed total result)
unfolding PruneEnded swept_result
reported deletes id removed before left total asked (ok pruned) counted (all, count) =
    (counted, omega arith, omega arith)
reported deletes id removed before left total asked (err (not_deleted thread)) counted
      (some_asked, within, refused) =
    (some_asked, refused)
