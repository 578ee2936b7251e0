-- ===== src/Workers/Retention.antt =====
-- The retention sweep of one organisation: ragcore/workers/retention_sweep.py. The database's cascades from a
-- session are left out, and the checkpointer's deletion of a thread answers or fails for each thread.
pub mod Removed
use itsm_poc.Common.{
  ℕ, suc, ◌+◌, Bool, true, false, not, ◌&&◌, ◌||◌, List, [], ◌∷◌, map, length, String, Option, none,
  some, Result, ok, err, ltb, leb, matching, select, if◌then◌else◌,
}
use itsm_poc.Domain.Records.{Uuid, Instant, TenantContext, JsonObject}
use itsm_poc.Domain.Work.{WorkItemState, executed, failed, expired, cancelled, escalated_work}
use itsm_poc.Graph.Threads.{checkpoint_thread_id}
use itsm_poc.Messaging.Bodies.{UuidText}
use itsm_poc.Persistence.Retention.{graph_checkpoint, window_for}
use itsm_poc.Persistence.Tenants.{SessionRow}
use itsm_poc.Persistence.WorkItems.{WorkItemRow, tenant_scope}

pub record SweepResult : Type 0 where
  pub tenant_id : String
  pub sessions_removed : ℕ
  pub checkpoints_eligible : ℕ
  pub checkpoints_pruned : ℕ

unfoldable pub removed_anything : SweepResult → Bool
removed_anything r = ltb 0 r.sessions_removed || ltb 0 r.checkpoints_pruned

unfoldable pub is_content_expired : TenantContext → (now : Instant) → SessionRow → Bool
unfolding tenant_scope
is_content_expired tenant now r =
    tenant_scope tenant r.tenant_id
    && elim r.content_expires_at [ none ↦ false | some at ↦ leb at now ]

-- `sweep_chat_content`: the sessions that stay; the others are counted.
unfoldable pub sweep_chat_content :
    TenantContext → (now : Instant) → List SessionRow → List SessionRow × ℕ
unfolding is_content_expired
sweep_chat_content tenant now sessions = (
  select (λ r. not (is_content_expired tenant now r)) sessions,
  matching (is_content_expired tenant now) sessions,
)

-- The membership in `COMPLETED_WORK_STATES`.
unfoldable pub is_completed : WorkItemState → Bool
is_completed executed = true
is_completed failed = true
is_completed expired = true
is_completed cancelled = true
is_completed escalated_work = true
is_completed _ = false

-- The instant `now - duration` is not before `updated_at` where their sum is not after `now`.
unfoldable pub is_prunable : TenantContext → (duration : ℕ) → (now : Instant) → WorkItemRow → Bool
unfolding tenant_scope is_completed
is_prunable tenant duration now r =
    tenant_scope tenant r.tenant_id && (is_completed r.state && leb (r.updated_at + duration) now)

unfoldable pub thread_of : UuidText → WorkItemRow → String
thread_of m r = checkpoint_thread_id m r.tenant_id r.requested_by_oid r.session_id

unfoldable pub eligible_checkpoint_threads :
    UuidText → TenantContext → (now : Instant) → Option JsonObject → List WorkItemRow → List String
unfolding is_prunable thread_of
eligible_checkpoint_threads m tenant now overrides items =
    let window = window_for graph_checkpoint overrides in
    map (thread_of m) (select (is_prunable tenant window.duration now) items)

pub data PruneError : Type 0 where
  not_deleted : (thread : String) → PruneError

-- The threads whose deletion was asked for, and how many were deleted, or the deletion that raised.
pub record Pruning : Type 0 where
  pub asked : List String
  pub result : Result PruneError ℕ

unfoldable pub prune_checkpoints : (deletes : String → Bool) → (pruned : ℕ) → List String → Pruning
prune_checkpoints deletes pruned [] = record { asked = []; result = ok pruned }
prune_checkpoints deletes pruned (thread ∷ threads) =
    let rest = prune_checkpoints deletes (suc pruned) threads in
    if deletes thread
    then record { asked = thread ∷ rest.asked; result = rest.result }
    else record { asked = thread ∷ []; result = err (not_deleted thread) }

-- The sessions that a sweep leaves, the threads that it asked to delete, and what it returns.
pub record RetentionSweep : Type 0 where
  pub sessions : List SessionRow
  pub asked : List String
  pub result : Result PruneError SweepResult

unfoldable pub swept_result :
    (tenant_id : String)
    → (removed eligible : ℕ) → Result PruneError ℕ
    → Result PruneError SweepResult
swept_result tenant_id removed eligible (err e) = err e
swept_result tenant_id removed eligible (ok pruned) = ok (record {
  tenant_id = tenant_id;
  sessions_removed = removed;
  checkpoints_eligible = eligible;
  checkpoints_pruned = pruned;
})

unfoldable pub sweep_tenant :
    UuidText
    → (deletes : String → Bool) → TenantContext
    → (now : Instant) → Option JsonObject
    → List SessionRow
    → List WorkItemRow
    → RetentionSweep
unfolding sweep_chat_content eligible_checkpoint_threads prune_checkpoints swept_result
sweep_tenant m deletes tenant now overrides sessions items =
    let content = sweep_chat_content tenant now sessions in
    let eligible = eligible_checkpoint_threads m tenant now overrides items in
    let pruning = prune_checkpoints deletes 0 eligible in
    record {
      sessions = content.0;
      asked = pruning.asked;
      result =
          swept_result (m.uuid_text tenant.tenant_id.value) content.1 (length eligible)
            pruning.result;
    }
