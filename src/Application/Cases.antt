-- ===== src/Application/Cases.antt =====
-- The anchoring of a session to a case: ragcore/src/ragcore/application/cases.py, over the case system's
-- port of ragcore/src/ragcore/application/ports.py.
use itsm_poc.Common.{Bool, true, false, List, [], ◌∷◌, Option, none, some, String, if◌then◌else◌}
use itsm_poc.Domain.Records.{SessionId, PrincipalId, CorrelationId, TenantContext}

-- `str` of the identifiers, of the clock's instant, and the prefix of the key.
pub record CaseText : Type 0 where
  pub session_text : SessionId → String
  pub principal_text : PrincipalId → String
  pub now_text : String
  pub anchored : String → String

pub record CaseFact : Type 0 where
  pub name : String
  pub fact : String

-- The arguments of `record_progress`.
pub record CaseWrite : Type 0 where
  pub tenant : TenantContext
  pub case_reference : String
  pub facts : List CaseFact
  pub idempotency_key : String
  pub correlation_id : CorrelationId

pub record CaseWriteReceipt : Type 0 where
  pub committed : Bool
  pub queued : Bool

pub data CaseAnchorState : Type 0 where
  anchor_committed anchor_queued not_required : CaseAnchorState

pub record CaseAnchor : Type 0 where
  pub state : CaseAnchorState
  pub case_reference : Option String

is_committed : CaseAnchorState → Bool
is_committed anchor_committed = true
is_committed _ = false

-- `CaseAnchor.may_report_resolution`.
unfoldable pub anchor_may_report : CaseAnchor → Bool
unfolding is_committed
anchor_may_report a = is_committed a.state

unfoldable pub anchor_key : CaseText → SessionId → String
anchor_key t session = t.anchored (t.session_text session)

unfoldable pub anchor_facts :
    CaseText → SessionId → PrincipalId → CorrelationId → (summary : String) → List CaseFact
anchor_facts t session requester correlation summary =
    record { name = "sessionId"; fact = t.session_text session }
    ∷ record { name = "requestedByOid"; fact = t.principal_text requester }
    ∷ record { name = "correlationId"; fact = correlation.value }
    ∷ record { name = "openedAt"; fact = t.now_text }
    ∷ record { name = "summary"; fact = summary }
    ∷ record { name = "origin"; fact = "synthia" }
    ∷ []

-- The call of `anchor`.
unfoldable pub anchor_write :
    CaseText
    → TenantContext
    → SessionId
    → PrincipalId
    → CorrelationId
    → (summary : String) → CaseWrite
unfolding anchor_key anchor_facts
anchor_write t tenant session requester correlation summary = record {
  tenant = tenant;
  case_reference = t.session_text session;
  facts = anchor_facts t session requester correlation summary;
  idempotency_key = anchor_key t session;
  correlation_id = correlation;
}

-- What `anchor` returns of the receipt.
unfoldable pub anchored_by : CaseText → SessionId → CaseWriteReceipt → CaseAnchor
anchored_by t session receipt =
    if receipt.committed
    then record { state = anchor_committed; case_reference = some (t.session_text session) }
    else if receipt.queued
    then record { state = anchor_queued; case_reference = none }
    else record { state = anchor_queued; case_reference = none }
