-- ===== src/Persistence/Feedback/OnePerGiver.antt =====
-- One signal for each message and giver, and only from the requester of its session: `FeedbackRepository` of
-- ragcore/src/ragcore/persistence/repositories.py.
use itsm_poc.Common.{
  ◌≤◌, false, not, ◌&&◌, List, [], ◌∷◌, Option, none, some, ◌==◌, select, matching, if◌then◌else◌,
  ◌≡◌, refl, arith, Bool-cases, inl, inr, ==_iff,
}
use itsm_poc.Domain.Records.{Uuid, TenantContext, PrincipalId}
use itsm_poc.Persistence.WorkItems.{tenant_scope}
use itsm_poc.Persistence.Feedback.{
  FeedbackRow, FeedbackSignal, MessageRow, Conversations, is_feedback_on, upsert_feedback,
  new_feedback, recorded_on, record_feedback, owned_message,
}

-- The unique constraint of the table.
abbrev pub OnePer : List FeedbackRow → Type 0
OnePer rows = (message_id given_by : Uuid) → matching (is_feedback_on message_id given_by) rows ≤ 1

-- The signals of one message and giver, in the order of the rows.
unfoldable pub signals : (message_id given_by : Uuid) → List FeedbackRow → List FeedbackSignal
signals message_id given_by [] = []
signals message_id given_by (r ∷ rows) =
    let rest = signals message_id given_by rows in
    if is_feedback_on message_id given_by r then r.signal ∷ rest else rest

signals_none :
    (m g : Uuid) (rows : List FeedbackRow)
    → matching (is_feedback_on m g) rows ≡ 0
    → signals m g rows ≡ []
unfolding signals
signals_none m g [] h = refl
signals_none m g (r ∷ rows) h = let rest = signals_none m g rows in ground arith

upsert_own :
    (new : FeedbackRow) (rows : List FeedbackRow)
    → matching (is_feedback_on new.message_id new.given_by_oid) rows ≤ 1
    → signals new.message_id new.given_by_oid (upsert_feedback new rows) ≡ new.signal ∷ []
unfolding signals upsert_feedback is_feedback_on
upsert_own new [] few =
    rw
      (
        (==_iff new.message_id new.message_id).1 refl,
        (==_iff new.given_by_oid new.given_by_oid).1 refl,
        if◌then◌else◌,
      )
      refl
upsert_own new (r ∷ rows) few =
    elim (Bool-cases (is_feedback_on new.message_id new.given_by_oid r)) [
      | inl e ↦
          let alone = signals_none new.message_id new.given_by_oid rows (ground arith) in
          ground arith
      | inr e ↦ let rest = upsert_own new rows (ground arith) in ground arith
    ]

-- Other messages and other givers keep their signals.
upsert_other :
    (new : FeedbackRow) (rows : List FeedbackRow) (m g : Uuid)
    → (m == new.message_id && g == new.given_by_oid) ≡ false
    → signals m g (upsert_feedback new rows) ≡ signals m g rows
unfolding signals upsert_feedback is_feedback_on
upsert_other new [] m g away = ground arith
upsert_other new (r ∷ rows) m g away =
    let rest = upsert_other new rows m g away in
    elim (Bool-cases (is_feedback_on new.message_id new.given_by_oid r)) [
      | inl e ↦ ground arith
      | inr e ↦ ground arith
    ]

withdrawn_own :
    (tenant : TenantContext) (m g : Uuid) (rows : List FeedbackRow)
    → matching
        (λ (r : FeedbackRow). tenant_scope tenant r.tenant_id && is_feedback_on m g r)
        (select
          (λ (r : FeedbackRow). not (tenant_scope tenant r.tenant_id && is_feedback_on m g r))
          rows)
      ≡ 0
withdrawn_own tenant m g [] = refl
withdrawn_own tenant m g (r ∷ rows) =
    let rest = withdrawn_own tenant m g rows in
    elim (Bool-cases (tenant_scope tenant r.tenant_id && is_feedback_on m g r)) [
      | inl e ↦ rw (e, if◌then◌else◌) rest
      | inr e ↦ rw (e, if◌then◌else◌, e, if◌then◌else◌) rest
    ]

recorded_lem :
    (fresh : Uuid) (tenant : TenantContext) (m : Uuid) (giver : PrincipalId)
    (signal : FeedbackSignal) (rows : List FeedbackRow) (owned : Option MessageRow)
    → matching (is_feedback_on m giver.value) rows ≤ 1
    → signals m giver.value (recorded_on fresh tenant m giver signal rows owned).rows ≡ (
        if (recorded_on fresh tenant m giver signal rows owned).answer
        then signal ∷ []
        else signals m giver.value rows)
unfolding recorded_on new_feedback
recorded_lem fresh tenant m giver signal rows none few = refl
recorded_lem fresh tenant m giver signal rows (some owned) few =
    upsert_own (new_feedback fresh tenant m giver signal owned) rows few

others_lem :
    (fresh : Uuid) (tenant : TenantContext) (m : Uuid) (giver : PrincipalId)
    (signal : FeedbackSignal) (rows : List FeedbackRow) (owned : Option MessageRow) (m' g' : Uuid)
    → (m' == m && g' == giver.value) ≡ false
    → signals m' g' (recorded_on fresh tenant m giver signal rows owned).rows ≡ signals m' g' rows
unfolding recorded_on new_feedback
others_lem fresh tenant m giver signal rows none m' g' away = refl
others_lem fresh tenant m giver signal rows (some owned) m' g' away =
    upsert_other (new_feedback fresh tenant m giver signal owned) rows m' g' away

-- Under the unique constraint, a recording that is answered leaves one signal of its message and giver, the
-- recorded one, whatever stood there; one that is refused leaves what stood there. The signals of every
-- other message and giver stay as they were.
pub feedback_replaces :
    (fresh : Uuid) (tenant : TenantContext) (m : Uuid) (giver : PrincipalId)
    (signal : FeedbackSignal) (c : Conversations) (rows : List FeedbackRow) (m' g' : Uuid)
    → OnePer rows
    → (m' == m && g' == giver.value) ≡ false
    → (signals m giver.value (record_feedback fresh tenant m giver signal c rows).rows ≡ (
        if (record_feedback fresh tenant m giver signal c rows).answer
        then signal ∷ []
        else signals m giver.value rows))
      × (signals m' g' (record_feedback fresh tenant m giver signal c rows).rows
          ≡ signals m' g' rows)
unfolding record_feedback
feedback_replaces fresh tenant m giver signal c rows m' g' once away =
    let owned = owned_message tenant m giver c in
    (
      recorded_lem fresh tenant m giver signal rows owned (once m giver.value),
      others_lem fresh tenant m giver signal rows owned m' g' away,
    )
