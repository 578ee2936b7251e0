-- ===== src/Domain/Session.antt =====
-- The session state machine: ragcore/src/ragcore/domain/session_state.py.
pub mod Moves
use itsm_poc.Common.{Bool, true, false, List, [], ◌∷◌, any, Result, ok, err, if◌then◌else◌}
use itsm_poc.Domain.Work.{
  SessionState, conversational, resolving, awaiting_user, awaiting_consent, awaiting_approval,
  staff_controlled, resolved, escalated, closed_declined, is_terminal, InterruptKind, clarification,
  consent, approval,
}

unfoldable pub same_state : SessionState → SessionState → Bool
same_state conversational conversational = true
same_state resolving resolving = true
same_state awaiting_user awaiting_user = true
same_state awaiting_consent awaiting_consent = true
same_state awaiting_approval awaiting_approval = true
same_state staff_controlled staff_controlled = true
same_state resolved resolved = true
same_state escalated escalated = true
same_state closed_declined closed_declined = true
same_state _ _ = false

abbrev from_awaiting : List SessionState
from_awaiting = resolving ∷ staff_controlled ∷ escalated ∷ closed_declined ∷ []

-- `_LEGAL`, the table of legal moves.
unfoldable pub legal : SessionState → List SessionState
legal conversational =
    resolving ∷ awaiting_user ∷ staff_controlled ∷ resolved ∷ escalated ∷ closed_declined ∷ []
legal resolving =
    conversational ∷ awaiting_user ∷ awaiting_consent ∷ awaiting_approval ∷ staff_controlled
    ∷ resolved ∷ escalated ∷ closed_declined ∷ []
legal awaiting_user = from_awaiting
legal awaiting_consent = from_awaiting
legal awaiting_approval = from_awaiting
legal staff_controlled = resolved ∷ escalated ∷ closed_declined ∷ []
legal resolved = []
legal escalated = []
legal closed_declined = []

-- `_SUSPENSION_FOR`, and `suspension_for`.
unfoldable pub suspension_for : InterruptKind → SessionState
suspension_for clarification = awaiting_user
suspension_for consent = awaiting_consent
suspension_for approval = awaiting_approval

unfoldable pub can_transition : SessionState → SessionState → Bool
unfolding same_state legal
can_transition current requested = any (same_state requested) (legal current)

pub data SessionError : Type 0 where
  illegal_session_transition : SessionState → SessionState → SessionError

unfoldable pub transition : SessionState → SessionState → Result SessionError SessionState
unfolding can_transition
transition current requested =
    if can_transition current requested
    then ok requested
    else err (illegal_session_transition current requested)

filter_terminal : List SessionState → List SessionState
filter_terminal [] = []
filter_terminal (s ∷ rest) =
    let kept = filter_terminal rest in if is_terminal s then s ∷ kept else kept

-- `{state for state in SessionState if state.is_terminal}`, in the order of declaration.
unfoldable pub terminal_states : List SessionState
unfolding filter_terminal is_terminal
terminal_states = filter_terminal (
    conversational ∷ resolving ∷ awaiting_user ∷ awaiting_consent ∷ awaiting_approval
    ∷ staff_controlled ∷ resolved ∷ escalated ∷ closed_declined ∷ [])
