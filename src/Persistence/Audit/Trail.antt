-- ===== src/Persistence/Audit/Trail.antt =====
-- What is recorded is found, and by its own organisation only: `AuditSink` of
-- ragcore/src/ragcore/persistence/repositories.py.
use itsm_poc.Common.{
  ℕ, ◌+◌, ◌≤◌, ◌<◌, Bool, true, List, Option, ◌==◌, select, length, ◌≡◌, arith, All, All-weaken,
  All-sort_by, All-take, length-take, All_selected,
}
use itsm_poc.Domain.Records.{Uuid, Instant, JsonObject, TenantContext, CorrelationId, WorkItemId}
use itsm_poc.Application.Audit.{ActorChain, AuditFacts}
use itsm_poc.Persistence.Retention.{RetentionClass, window_for}
use itsm_poc.Persistence.WorkItems.{tenant_scope}
use itsm_poc.Persistence.Audit.{AuditEventRow, audit_row, is_found, search_events}

found_lem :
    (clock : Instant) (tenant : TenantContext) (since : Instant) (item : Option WorkItemId)
    (r : AuditEventRow)
    → is_found tenant since clock item r ≡ true
    → (tenant_scope tenant r.tenant_id ≡ true) × (since ≤ r.occurred_at) × (clock < r.retain_until)
unfolding is_found
found_lem clock tenant since item r h = ground arith

-- A search returns at most so many events as it is asked for, and each of them is the organisation's, occurred
-- in time and is still retained.
pub search_events-within :
    (clock : Instant) (tenant : TenantContext) (since : Instant) (limit : ℕ)
    (item : Option WorkItemId) (rows : List AuditEventRow)
    → (length (search_events clock tenant since limit item rows) ≤ limit)
      × All
          (λ (r : AuditEventRow).
            (tenant_scope tenant r.tenant_id ≡ true)
            × (since ≤ r.occurred_at)
            × (clock < r.retain_until))
          (search_events clock tenant since limit item rows)
unfolding search_events
search_events-within clock tenant since limit item rows =
    let found = select (is_found tenant since clock item) rows in
    (
      length-take limit _,
      All-take _ limit _ (
          All-sort_by _ _ found (
            All-weaken (λ (r : AuditEventRow). is_found tenant since clock item r ≡ true) _
              (λ r h. found_lem clock tenant since item r h) found
              (All_selected (is_found tenant since clock item) rows))),
    )

-- The event that a recording adds, with the horizon of the organisation's overrides.
abbrev pub added :
    (clock : Instant)
    → TenantContext
    → Uuid
    → CorrelationId
    → ActorChain
    → AuditFacts
    → Option WorkItemId
    → Option JsonObject
    → AuditEventRow
added clock tenant id correlation chain facts item overrides =
    audit_row clock tenant id correlation chain facts item
      (clock + (window_for RetentionClass.audit overrides).duration)

is_event : Uuid → AuditEventRow → Bool
is_event id r = r.audit_id == id
