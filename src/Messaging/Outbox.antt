-- ===== src/Messaging/Outbox.antt =====
-- The outbox's table and repository: `OutboxMessage` of ragcore/src/ragcore/persistence/models.py and
-- `Outbox` of repositories.py.
use itsm_poc.Common.{
  ℕ, ◌+◌, Bool, true, false, List, [], ◌∷◌, ◌++◌, String, Option, none, some, ltb, ◌==◌, take,
  sort_by,
}
use itsm_poc.Domain.Records.{Uuid, Instant, TenantContext}
use itsm_poc.Domain.Envelopes.{Envelope}
use itsm_poc.Persistence.Rows.{rewrite, select, row_at}
use itsm_poc.Messaging.Bodies.{Fields, UuidText, row_kind, row_payload}

pub record OutboxRow : Type 0 where
  pub outbox_id : Uuid
  pub tenant_id : Uuid
  pub sequence : ℕ
  pub occurred_at : Instant
  pub kind : String
  pub payload : Fields
  pub dispatched_at : Option Instant
  pub attempts : ℕ
  pub created_at : Instant
  pub updated_at : Instant
  pub version : ℕ

-- What the database gives a new row: its identity column, and the clock of its transaction.
pub record Defaults : Type 0 where
  pub next_sequence : ℕ
  pub clock : Instant

-- `enqueue` and `enqueue_integration_command`.
unfoldable pub enqueue :
    UuidText
    → Defaults
    → (fresh : Uuid) → TenantContext
    → Envelope
    → List OutboxRow
    → List OutboxRow
unfolding row_kind row_payload
enqueue m defaults fresh tenant e rows =
    rows
    ++ (record {
      outbox_id = fresh;
      tenant_id = tenant.tenant_id.value;
      sequence = defaults.next_sequence;
      occurred_at = defaults.clock;
      kind = row_kind m e;
      payload = row_payload m e;
      dispatched_at = none;
      attempts = 0;
      created_at = defaults.clock;
      updated_at = defaults.clock;
      version = 1;
    }
        ∷ [])

unfoldable pub is_undispatched : OutboxRow → Bool
is_undispatched r = elim r.dispatched_at [ none ↦ true | some _ ↦ false ]

abbrev pub precedes : OutboxRow → OutboxRow → Bool
precedes a b = ltb a.sequence b.sequence

unfoldable pub undispatched : (limit : ℕ) → List OutboxRow → List OutboxRow
unfolding is_undispatched
undispatched limit rows = take limit (sort_by precedes (select is_undispatched rows))

abbrev pub outbox_key : Uuid → OutboxRow → Bool
outbox_key id r = r.outbox_id == id

unfoldable pub mark_dispatched : (clock : Instant) → Uuid → List OutboxRow → List OutboxRow
mark_dispatched clock id = rewrite (outbox_key id) (λ (r : OutboxRow). record r {
  dispatched_at = some clock;
  attempts = r.attempts + 1;
  updated_at = clock;
  version = r.version + 1;
})

unfoldable pub failed_again : (clock : Instant) → OutboxRow → OutboxRow
failed_again clock r = record r {
  attempts = r.attempts + 1;
  updated_at = clock;
  version = r.version + 1;
}

-- The rows that follow, and the count that `RETURNING` gives of the row, if there is one.
unfoldable pub record_failure :
    (clock : Instant) → Uuid → List OutboxRow → List OutboxRow × Option ℕ
unfolding failed_again
record_failure clock id rows =
    let after = rewrite (outbox_key id) (failed_again clock) rows in
    (after, elim (row_at (outbox_key id) after) [ none ↦ none | some r ↦ some r.attempts ])
