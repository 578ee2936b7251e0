-- ===== src/Persistence/Audit.antt =====
-- The audit trail: AuditEvent of ragcore/src/ragcore/persistence/models.py and `AuditSink` of
-- persistence/repositories.py. The database's clock is an argument.
pub mod Trail
use itsm_poc.Common.{
  ℕ, ◌+◌, Bool, true, false, ◌&&◌, List, [], ◌∷◌, ◌++◌, Option, none, some, String, ltb, leb, ◌==◌,
  select, sort_by, take, Result, ok, err,
}
use itsm_poc.Domain.Treatment.{ExecutionMethod, VerificationOutcome}
use itsm_poc.Domain.Records.{
  Uuid, Instant, JsonObject, TenantContext, CorrelationId, PrincipalId, WorkItemId,
}
use itsm_poc.Application.Audit.{AuditEventKind, ActorChain, AuditFacts}
use itsm_poc.Persistence.Retention.{RetentionClass, window_for}
use itsm_poc.Persistence.WorkItems.{tenant_scope}

pub record AuditEventRow : Type 0 where
  pub audit_id : Uuid
  pub tenant_id : Uuid
  pub work_item_id : Option Uuid
  pub occurred_at : Instant
  pub action : AuditEventKind
  pub requested_by_oid : Option Uuid
  pub approved_by_oid : Option Uuid
  pub executed_by : String
  pub execution_method : ExecutionMethod
  pub outcome : String
  pub verification : Option VerificationOutcome
  pub correlation_id : String
  pub retain_until : Instant

pub data AuditError : Type 0 where
  two_horizons : AuditError

principal_or_null : Option PrincipalId → Option Uuid
principal_or_null none = none
principal_or_null (some p) = some p.value

item_or_null : Option WorkItemId → Option Uuid
item_or_null none = none
item_or_null (some w) = some w.value

-- The horizon, which has one source.
unfoldable pub horizon_of :
    (clock : Instant) → Option Instant → Option JsonObject → Result AuditError Instant
unfolding window_for
horizon_of clock (some until) (some overrides) = err two_horizons
horizon_of clock (some until) none = ok until
horizon_of clock none overrides = ok (clock + (window_for RetentionClass.audit overrides).duration)

unfoldable pub audit_row :
    (clock : Instant)
    → TenantContext
    → (event_id : Uuid) → CorrelationId
    → ActorChain
    → AuditFacts
    → Option WorkItemId
    → (horizon : Instant) → AuditEventRow
unfolding principal_or_null item_or_null
audit_row clock tenant event_id correlation chain facts item horizon = record {
  audit_id = event_id;
  tenant_id = tenant.tenant_id.value;
  work_item_id = item_or_null item;
  occurred_at = clock;
  action = facts.kind;
  requested_by_oid = principal_or_null chain.requested_by;
  approved_by_oid = principal_or_null chain.approved_by;
  executed_by = chain.executed_by;
  execution_method = chain.execution_method;
  outcome = facts.outcome;
  verification = facts.verification;
  correlation_id = correlation.value;
  retain_until = horizon;
}

inserted : AuditEventRow → List AuditEventRow → List AuditEventRow
inserted r rows = rows ++ (r ∷ [])

unfoldable pub record_event :
    (clock : Instant)
    → TenantContext
    → (event_id : Uuid) → CorrelationId
    → ActorChain
    → AuditFacts
    → Option WorkItemId
    → (retain_until : Option Instant) → (overrides : Option JsonObject) → List AuditEventRow
    → Result AuditError (List AuditEventRow)
unfolding horizon_of audit_row inserted
record_event clock tenant event_id correlation chain facts item retain_until overrides rows =
    elim (horizon_of clock retain_until overrides) [
      | err e ↦ err e
      | ok horizon ↦
          ok (inserted (audit_row clock tenant event_id correlation chain facts item horizon) rows)
    ]

unfoldable pub is_of_item : Option WorkItemId → Option Uuid → Bool
is_of_item none column = true
is_of_item (some w) none = false
is_of_item (some w) (some id) = id == w.value

-- The predicates of a search.
unfoldable pub is_found :
    TenantContext → (since clock : Instant) → Option WorkItemId → AuditEventRow → Bool
unfolding tenant_scope is_of_item
is_found tenant since clock item r =
    tenant_scope tenant r.tenant_id
    && (leb since r.occurred_at && (ltb clock r.retain_until && is_of_item item r.work_item_id))

unfoldable pub newest_first : AuditEventRow → AuditEventRow → Bool
newest_first a b = ltb b.occurred_at a.occurred_at

unfoldable pub search_events :
    (clock : Instant)
    → TenantContext
    → (since : Instant) → (limit : ℕ) → Option WorkItemId
    → List AuditEventRow
    → List AuditEventRow
unfolding is_found newest_first
search_events clock tenant since limit item rows =
    take limit (sort_by newest_first (select (is_found tenant since clock item) rows))
