-- ===== src/Domain/Work.antt =====
-- Work item, operation and session states: ragcore/src/ragcore/domain/work.py.
use itsm_poc.Common.{Bool, true, false}

pub data WorkItemState : Type 0 where
  open_work awaiting_decision authorized claimed executed failed expired cancelled escalated_work :
      WorkItemState

pub data ApprovalState : Type 0 where
  no_approval pending approved_state rejected_state expired_state : ApprovalState

pub data ApprovalVerdict : Type 0 where
  approved rejected : ApprovalVerdict

pub data ConsentVerdict : Type 0 where
  granted refused : ConsentVerdict

pub data SessionState : Type 0 where
  conversational resolving awaiting_user awaiting_consent awaiting_approval staff_controlled
        resolved escalated closed_declined :
      SessionState

-- Membership of `_TERMINAL_SESSION_STATES`.
unfoldable pub is_terminal : SessionState → Bool
is_terminal resolved = true
is_terminal escalated = true
is_terminal closed_declined = true
is_terminal _ = false

-- Membership of `_AWAITING_SESSION_STATES`.
unfoldable pub is_awaiting : SessionState → Bool
is_awaiting awaiting_user = true
is_awaiting awaiting_consent = true
is_awaiting awaiting_approval = true
is_awaiting _ = false

pub data InterruptKind : Type 0 where
  clarification consent approval : InterruptKind
