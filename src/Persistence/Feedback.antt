-- ===== src/Persistence/Feedback.antt =====
-- Feedback on the agent's messages: ChatSession, Message and Feedback of
-- ragcore/src/ragcore/persistence/models.py and `FeedbackRepository` of persistence/repositories.py.
pub mod OnePerGiver
use itsm_poc.Common.{
  ℕ, Bool, true, false, not, ◌&&◌, List, [], ◌∷◌, ◌++◌, Option, none, some, ◌==◌, select, any,
  if◌then◌else◌,
}
use itsm_poc.Domain.Records.{Uuid, TenantContext, PrincipalId}
use itsm_poc.Persistence.WorkItems.{tenant_scope}

pub data SenderKind : Type 0 where
  by_end_user by_agent by_staff : SenderKind

pub data FeedbackSignal : Type 0 where
  positive negative : FeedbackSignal

-- The columns that the statements read of a session and of a message.
pub record ChatSessionRow : Type 0 where
  pub session_id : Uuid
  pub tenant_id : Uuid
  pub requester_oid : Uuid

pub record MessageRow : Type 0 where
  pub message_id : Uuid
  pub session_id : Uuid
  pub tenant_id : Uuid
  pub sender_kind : SenderKind

pub record FeedbackRow : Type 0 where
  pub feedback_id : Uuid
  pub tenant_id : Uuid
  pub message_id : Uuid
  pub session_id : Uuid
  pub given_by_oid : Uuid
  pub signal : FeedbackSignal

-- The tables that a call reads besides its own.
pub record Conversations : Type 0 where
  pub sessions : List ChatSessionRow
  pub messages : List MessageRow

pub record FeedbackWritten : Type 0 where
  pub rows : List FeedbackRow
  pub answer : Bool

is_agent : SenderKind → Bool
is_agent by_agent = true
is_agent _ = false

unfoldable pub is_session_of :
    TenantContext → PrincipalId → (session_id : Uuid) → ChatSessionRow → Bool
unfolding tenant_scope
is_session_of tenant giver session_id s =
    tenant_scope tenant s.tenant_id
    && (s.session_id == session_id && s.requester_oid == giver.value)

-- The join of `_owned_message`, and its clauses.
unfoldable pub is_owned_message :
    TenantContext → (message_id : Uuid) → PrincipalId → List ChatSessionRow → MessageRow → Bool
unfolding tenant_scope is_agent is_session_of
is_owned_message tenant message_id giver sessions m =
    tenant_scope tenant m.tenant_id
    && (m.message_id == message_id
        && (is_agent m.sender_kind && any (is_session_of tenant giver m.session_id) sessions))

first_of : List MessageRow → Option MessageRow
first_of [] = none
first_of (m ∷ rest) = some m

unfoldable pub owned_message :
    TenantContext → (message_id : Uuid) → PrincipalId → Conversations → Option MessageRow
unfolding is_owned_message first_of
owned_message tenant message_id giver c =
    first_of (select (is_owned_message tenant message_id giver c.sessions) c.messages)

-- The columns of the unique constraint.
unfoldable pub is_feedback_on : (message_id given_by : Uuid) → FeedbackRow → Bool
is_feedback_on message_id given_by r = r.message_id == message_id && r.given_by_oid == given_by

-- `INSERT … ON CONFLICT … DO UPDATE SET signal`.
unfoldable pub upsert_feedback : FeedbackRow → List FeedbackRow → List FeedbackRow
unfolding is_feedback_on
upsert_feedback new [] = new ∷ []
upsert_feedback new (r ∷ rows) =
    let rest = upsert_feedback new rows in
    if is_feedback_on new.message_id new.given_by_oid r
    then record r { signal = new.signal } ∷ rows
    else r ∷ rest

unfoldable pub new_feedback :
    (fresh : Uuid)
    → TenantContext
    → (message_id : Uuid) → PrincipalId
    → FeedbackSignal
    → MessageRow
    → FeedbackRow
new_feedback fresh tenant message_id giver signal owned = record {
  feedback_id = fresh;
  tenant_id = tenant.tenant_id.value;
  message_id = message_id;
  session_id = owned.session_id;
  given_by_oid = giver.value;
  signal = signal;
}

unfoldable pub recorded_on :
    (fresh : Uuid)
    → TenantContext
    → (message_id : Uuid) → PrincipalId
    → FeedbackSignal
    → List FeedbackRow
    → Option MessageRow
    → FeedbackWritten
unfolding upsert_feedback new_feedback
recorded_on fresh tenant message_id giver signal rows none = record { rows = rows; answer = false }
recorded_on fresh tenant message_id giver signal rows (some owned) = record {
  rows = upsert_feedback (new_feedback fresh tenant message_id giver signal owned) rows;
  answer = true;
}

unfoldable pub record_feedback :
    (fresh : Uuid)
    → TenantContext
    → (message_id : Uuid) → PrincipalId
    → FeedbackSignal
    → Conversations
    → List FeedbackRow
    → FeedbackWritten
unfolding owned_message recorded_on
record_feedback fresh tenant message_id giver signal c rows =
    recorded_on fresh tenant message_id giver signal rows (owned_message tenant message_id giver c)

unfoldable pub withdrawn_on :
    TenantContext
    → (message_id : Uuid) → PrincipalId
    → List FeedbackRow
    → Option MessageRow
    → FeedbackWritten
unfolding is_feedback_on tenant_scope
withdrawn_on tenant message_id giver rows none = record { rows = rows; answer = false }
withdrawn_on tenant message_id giver rows (some owned) = record {
  rows =
      select
        (λ (r : FeedbackRow).
          not (tenant_scope tenant r.tenant_id && is_feedback_on message_id giver.value r))
        rows;
  answer = true;
}

unfoldable pub withdraw_feedback :
    TenantContext
    → (message_id : Uuid) → PrincipalId
    → Conversations
    → List FeedbackRow
    → FeedbackWritten
unfolding owned_message withdrawn_on
withdraw_feedback tenant message_id giver c rows =
    withdrawn_on tenant message_id giver rows (owned_message tenant message_id giver c)
