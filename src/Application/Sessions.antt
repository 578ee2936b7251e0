-- ===== src/Application/Sessions.antt =====
-- One turn of a session: `SessionLifecycle` of ragcore/src/ragcore/application/sessions.py. The factory of
-- work items is a parameter: it answers the identifier of the item that it opened, or raises.
pub mod Opening
use itsm_poc.Common.{Bool, List, Option, none, some, Result, ok, err, if◌then◌else◌}
use itsm_poc.Domain.Work.{SessionState, resolving}
use itsm_poc.Domain.Session.{SessionError, transition, same_state}
use itsm_poc.Domain.Records.{WorkItemId}
use itsm_poc.Graph.Scope.{TextMethods, SessionTurn, TriageOutcome, assess_triage, commits_work}

pub record TurnResult : Type 0 where
  pub state : SessionState
  pub work_item_id : Option WorkItemId
  pub triage : TriageOutcome

-- What escapes a turn: an illegal move, or an exception of the factory.
pub data TurnError : Type 0 where
  illegal_move : SessionError → TurnError
  not_opened : TurnError

-- What a turn did: the work item that it opened, and what it returned or raised.
pub record Advanced : Type 0 where
  pub opened : Option WorkItemId
  pub result : Result TurnError TurnResult

unfoldable pub resolving_from : SessionState → Result SessionError SessionState
unfolding transition same_state
resolving_from current =
    if same_state current resolving then ok current else transition current resolving

unfoldable pub with_item :
    WorkItemId → TriageOutcome → Result SessionError SessionState → Result TurnError TurnResult
with_item item triage (err e) = err (illegal_move e)
with_item item triage (ok state) =
    ok (record { state = state; work_item_id = some item; triage = triage })

-- Past the call of the factory.
unfoldable pub commit_item : (answer : Option WorkItemId) → TriageOutcome → SessionState → Advanced
unfolding resolving_from with_item
commit_item none triage current = record { opened = none; result = err not_opened }
commit_item (some item) triage current = record {
  opened = some item;
  result = with_item item triage (resolving_from current);
}

-- `advance`, from the assessed triage on; `answer` is what the factory answers, nothing where it raises.
unfoldable pub advance_from :
    (answer : Option WorkItemId) → TriageOutcome → SessionState → Option WorkItemId → Advanced
unfolding commits_work commit_item
advance_from answer triage current (some committed) = record {
  opened = none;
  result = ok (record { state = current; work_item_id = some committed; triage = triage });
}
advance_from answer triage current none =
    if commits_work triage then commit_item answer triage current else record {
      opened = none;
      result = ok (record { state = current; work_item_id = none; triage = triage });
    }

unfoldable pub advance :
    TextMethods
    → (answer : Option WorkItemId) → List SessionTurn
    → SessionState
    → Option WorkItemId
    → Advanced
unfolding advance_from assess_triage
advance m answer turns current work_item_id =
    advance_from answer (assess_triage m turns) current work_item_id
