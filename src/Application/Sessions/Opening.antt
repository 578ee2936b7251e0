-- ===== src/Application/Sessions/Opening.antt =====
-- The work item that a session's turns open: `SessionLifecycle` of ragcore/src/ragcore/application/sessions.py,
-- over a factory that opens one item for a session and raises when it is asked for another: the item's column
-- `session_id` is unique in ragcore/src/ragcore/persistence/models.py.
use itsm_poc.Common.{
  ℕ, ◌+◌, Bool, true, false, List, [], ◌∷◌, Option, none, some, Result, ok, err, if◌then◌else◌, ◌≡◌,
  refl, ap, arith, Bool-cases, inl, inr, matching,
}
use itsm_poc.Domain.Work.{
  SessionState, conversational, resolving, awaiting_user, awaiting_consent, awaiting_approval,
  staff_controlled, resolved, escalated, closed_declined,
}
use itsm_poc.Domain.Session.{illegal_session_transition, transition}
use itsm_poc.Domain.Records.{WorkItemId}
use itsm_poc.Graph.Scope.{TextMethods, SessionTurn, assess_triage, commits_work}
use itsm_poc.Application.Sessions.{
  TurnError, TurnResult, advance, advance_from, commit_item, resolving_from, with_item,
}

-- The states in which a turn may commit work: `resolving`, and those that lead there.
unfoldable pub takes_work : SessionState → Bool
takes_work conversational = true
takes_work resolving = true
takes_work awaiting_user = true
takes_work awaiting_consent = true
takes_work awaiting_approval = true
takes_work staff_controlled = false
takes_work resolved = false
takes_work escalated = false
takes_work closed_declined = false

-- One turn that reaches the session: what was said so far, the state that it finds, and the identifier that the
-- factory would give to an item.
pub record Visit : Type 0 where
  pub turns : List SessionTurn
  pub current : SessionState
  pub item : WorkItemId

-- The item that the factory has opened for the session.
abbrev Bound : Type 0
Bound = Option WorkItemId

-- One session has one item.
unfoldable pub open_work_item : Bound → (item : WorkItemId) → Option WorkItemId
open_work_item none item = some item
open_work_item (some taken) item = none

-- After turns: the item that the factory has for the session, the one that the session knows of, and how many
-- of the turns raised.
pub record Served : Type 0 where
  pub bound : Bound
  pub known : Option WorkItemId
  pub raised : ℕ

unfoldable after_open : Bound → (opened : Option WorkItemId) → Bound
after_open bound none = bound
after_open bound (some item) = some item

-- A turn that raised leaves the session with the item that it knew of.
unfoldable after_turn : Option WorkItemId → Result TurnError TurnResult → Option WorkItemId
after_turn known (err e) = known
after_turn known (ok r) = r.work_item_id

unfoldable pub raises : Result TurnError TurnResult → ℕ
raises (err e) = 1
raises (ok r) = 0

unfoldable pub serve : TextMethods → Bound → (known : Option WorkItemId) → List Visit → Served
unfolding open_work_item after_open after_turn raises
serve m bound known [] = record { bound = bound; known = known; raised = 0 }
serve m bound known (v ∷ visits) =
    let turn = advance m (open_work_item bound v.item) v.turns v.current known in
    let rest = serve m (after_open bound turn.opened) (after_turn known turn.result) visits in
    record rest { raised = raises turn.result + rest.raised }

-- The turn finds a request in what was said.
unfoldable pub finds_request : TextMethods → Visit → Bool
finds_request m v = commits_work (assess_triage m v.turns)

-- The first turn that finds a request.
unfoldable pub first_articulated : TextMethods → List Visit → Option Visit
unfolding finds_request
first_articulated m [] = none
first_articulated m (v ∷ visits) =
    let later = first_articulated m visits in if finds_request m v then some v else later

-- What the first request leads to, and how many turns found one.
unfoldable pub served_from : Option Visit → (requests : ℕ) → Served
served_from none requests = record { bound = none; known = none; raised = 0 }
served_from (some v) requests =
    if takes_work v.current
    then record { bound = some v.item; known = some v.item; raised = 0 }
    else record { bound = some v.item; known = none; raised = requests }

taken_work : (s : SessionState) → takes_work s ≡ true → resolving_from s ≡ ok resolving
unfolding takes_work resolving_from transition
taken_work conversational h = refl
taken_work resolving h = refl
taken_work awaiting_user h = refl
taken_work awaiting_consent h = refl
taken_work awaiting_approval h = refl
taken_work staff_controlled h = cc
taken_work resolved h = cc
taken_work escalated h = cc
taken_work closed_declined h = cc

refused_work :
    (s : SessionState)
    → takes_work s ≡ false
    → resolving_from s ≡ err (illegal_session_transition s resolving)
unfolding takes_work resolving_from transition
refused_work conversational h = cc
refused_work resolving h = cc
refused_work awaiting_user h = cc
refused_work awaiting_consent h = cc
refused_work awaiting_approval h = cc
refused_work staff_controlled h = refl
refused_work resolved h = refl
refused_work escalated h = refl
refused_work closed_declined h = refl

none_raised : (rest : Served) → record rest { raised = 0 + rest.raised } ≡ rest
none_raised rest = ap (λ n. record rest { raised = n }) (omega arith)

module _ (m : TextMethods) where
  -- A session that knows its item opens no other.
  settled :
      (item : WorkItemId) (visits : List Visit)
      → serve m (some item) (some item) visits
        ≡ record { bound = some item; known = some item; raised = 0 }
  unfolding serve advance advance_from
  settled item [] = refl
  settled item (v ∷ visits) = rw (settled item visits) refl

  -- A session whose item is lost raises at every request.
  stranded :
      (item : WorkItemId) (visits : List Visit)
      → serve m (some item) none visits
        ≡ record { bound = some item; known = none; raised = matching (finds_request m) visits }
  unfolding serve advance advance_from commit_item finds_request raises
  stranded item [] = refl
  stranded item (v ∷ visits) = elim (Bool-cases (commits_work (assess_triage m v.turns))) [
    | inl e ↦ rw (e, if◌then◌else◌, stranded item visits) refl
    | inr e ↦ rw (e, if◌then◌else◌, stranded item visits) (none_raised _)
  ]

  -- Over any turns of a session that starts without a work item, served by a factory that opens one item for it:
  -- where no turn finds a request, nothing is opened and nothing raises. Otherwise the item that is opened is
  -- that of the first turn that finds one. Where that turn finds the session in a state that takes work, the
  -- session knows the item and no turn raises; where not, the session never knows it, and every turn that finds
  -- a request raises.
  pub articulated_opens :
      (visits : List Visit)
      → serve m none none visits
        ≡ served_from (first_articulated m visits) (matching (finds_request m) visits)
  unfolding serve advance advance_from commit_item finds_request first_articulated served_from
      with_item raises
  articulated_opens [] = refl
  articulated_opens (v ∷ visits) = elim (Bool-cases (commits_work (assess_triage m v.turns))) [
    | inl e ↦ elim (Bool-cases (takes_work v.current)) [
      | inl open_state ↦
          rw (e, if◌then◌else◌, open_state, taken_work v.current open_state, settled v.item visits)
            refl
      | inr closed ↦
          rw (e, if◌then◌else◌, closed, refused_work v.current closed, stranded v.item visits) refl
    ]
    | inr e ↦ rw (e, if◌then◌else◌, articulated_opens visits) (none_raised _)
  ]
