-- ===== src/Examples/Retention.antt =====
-- A retention sweep on concrete rows, and the theorem about it applied to them.
use itsm_poc.Common.{ℕ, ◌+◌, ◌*◌, true, false, List, [], ◌∷◌, none, some, ok, err, ◌≡◌, refl}
use itsm_poc.Domain.Work.{executed, awaiting_decision, resolved, resolving}
use itsm_poc.Graph.Threads.{checkpoint_thread_id}
use itsm_poc.Messaging.Bodies.{UuidText}
use itsm_poc.Persistence.Retention.{window_for}
use itsm_poc.Persistence.Tenants.{SessionRow}
use itsm_poc.Persistence.WorkItems.{WorkItemRow}
use itsm_poc.Workers.Retention.{RetentionSweep, sweep_tenant, not_deleted}
use itsm_poc.Examples.Persistence.{tenant_of, row_of}

abbrev texts : UuidText
texts = record { uuid_text = λ id. "u"; parse_uuid = λ text. none }

-- A month of microseconds after the items were written, and later.
abbrev sweep_time : ℕ
sweep_time = 100 + 30 * 86400000000

abbrev session_of : (id owner : ℕ) → SessionRow
session_of id owner = record {
  session_id = id;
  tenant_id = owner;
  requester_oid = 800;
  state = resolved;
  case_reference = none;
  closed_at = some 200;
  content_expires_at = some 300;
  created_at = 100;
  updated_at = 200;
  version = 2;
}

-- A session of the organisation that is not over, so that its content has no horizon.
abbrev open_session : SessionRow
open_session = record (session_of 902 10) {
  state = resolving;
  closed_at = none;
  content_expires_at = none;
}

abbrev sessions : List SessionRow
sessions = session_of 900 10 ∷ session_of 901 20 ∷ open_session ∷ []

-- Two work items: the first was executed, and the second waits for a decision.
abbrev finished : WorkItemRow
finished = record (row_of 1 10) { state = executed }

abbrev waiting : WorkItemRow
waiting = record (row_of 2 10) { state = awaiting_decision }

abbrev items : List WorkItemRow
items = finished ∷ waiting ∷ []

abbrev swept : RetentionSweep
swept = sweep_tenant texts (λ id. true) (tenant_of 10) sweep_time none sessions items

sweep_test : swept ≡ record {
  sessions = session_of 901 20 ∷ open_session ∷ [];
  asked = "u:u:u" ∷ [];
  result = ok (record {
    tenant_id = "u";
    sessions_removed = 1;
    checkpoints_eligible = 1;
    checkpoints_pruned = 1;
  });
}
unfolding sweep_tenant checkpoint_thread_id window_for
sweep_test = refl

-- A deletion that fails stops the sweep.
failed_deletion_raises :
    (sweep_tenant texts (λ id. false) (tenant_of 10) sweep_time none sessions items).result
    ≡ err (not_deleted "u:u:u")
unfolding sweep_tenant checkpoint_thread_id window_for
failed_deletion_raises = refl
