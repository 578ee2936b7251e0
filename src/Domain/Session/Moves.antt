-- ===== src/Domain/Session/Moves.antt =====
-- Runs of the session state machine: sequences of requests, each applied by `transition`.
use itsm_poc.Common.{
  err-ne-ok, Bool, true, false, Bool-cases, if◌then◌else◌, ◌≢◌, sym, ◌∙◌, ◌≡◌, refl, ◌⊎◌, inl, inr,
  List, [], ◌∷◌, Result, ok, err, ◌>>=◌, arith,
}
use itsm_poc.Domain.Work.{
  SessionState, resolving, staff_controlled, resolved, escalated, closed_declined, is_terminal,
  is_awaiting, InterruptKind,
}
use itsm_poc.Domain.Session.{
  can_transition, transition, SessionError, illegal_session_transition, suspension_for,
}

-- A session is asked for one state after another; the first illegal request stops the run.
unfoldable pub run_moves : SessionState → List SessionState → Result SessionError SessionState
run_moves s [] = ok s
run_moves s (r ∷ rest) = transition s r >>= λ next. run_moves next rest

run_moves_nil : (s : SessionState) {t : SessionState} → run_moves s [] ≡ ok t → s ≡ t
unfolding run_moves
run_moves_nil s h = cc

terminal_stuck :
    (s r : SessionState)
    → is_terminal s ≡ true
    → transition s r ≡ err (illegal_session_transition s r)
unfolding transition is_terminal
terminal_stuck s r h = ground arith

-- A session in a terminal state refuses every further request, and the refusal names the terminal
-- state and what was asked: no run leaves it.
pub terminal_absorbs :
    (s r : SessionState) (rest : List SessionState)
    → is_terminal s ≡ true
    → run_moves s (r ∷ rest) ≡ err (illegal_session_transition s r)
unfolding run_moves
terminal_absorbs s r rest h = rw (terminal_stuck s r h)

-- A state refuses every request exactly when it is terminal.
pub stuck_iff_terminal :
    (s : SessionState)
    → (is_terminal s ≡ true → (r : SessionState) → can_transition s r ≡ false)
      × (((r : SessionState) → can_transition s r ≡ false) → is_terminal s ≡ true)
unfolding can_transition is_terminal
stuck_iff_terminal s = (λ h r. ground arith, λ all. ground (arith, all escalated))

run_moves_inv :
    (s r : SessionState) (rest : List SessionState) {t : SessionState}
    → run_moves s (r ∷ rest) ≡ ok t
    → (can_transition s r ≡ true) × (run_moves r rest ≡ ok t)
unfolding run_moves transition
run_moves_inv s r rest h = elim (Bool-cases (can_transition s r)) [
  | inl legal ↦ (legal, rw (legal, if◌then◌else◌) at h)
  | inr illegal ↦ absurd (err-ne-ok (rw (illegal, if◌then◌else◌) at h))
]

staff_next : (r : SessionState) → can_transition staff_controlled r ≡ true → is_terminal r ≡ true
unfolding can_transition is_terminal
staff_next r h = ground arith

-- Once staff control a session the agent never has it back: a run of requests from there that is
-- accepted holds at most one request, and that one ends the session.
pub take_over_final :
    (r : SessionState) (rest : List SessionState) {t : SessionState}
    → run_moves staff_controlled (r ∷ rest) ≡ ok t
    → (rest ≡ []) × (t ≡ r) × (is_terminal t ≡ true)
take_over_final r [] h =
    let (legal, e) = run_moves_inv staff_controlled r [] h in
    let same = run_moves_nil r e in (refl, sym same, rw (← same) (staff_next r legal))
take_over_final r (q ∷ rest) {t} h =
    let (legal, e) = run_moves_inv staff_controlled r (q ∷ rest) h in
    absurd (err-ne-ok (sym (terminal_absorbs r q rest (staff_next r legal)) ∙ e))

not_from_terminal :
    (r : SessionState) (rest : List SessionState) {t : SessionState}
    → is_terminal r ≡ true
    → r ≢ t
    → ¬ (run_moves r rest ≡ ok t)
not_from_terminal r [] ends other h = other (run_moves_nil r h)
not_from_terminal r (q ∷ rest) ends other h = err-ne-ok (sym (terminal_absorbs r q rest ends) ∙ h)

-- The states through which a suspended session can come to be resolved.
abbrev pub is_handled : SessionState → Bool
is_handled resolving = true
is_handled staff_controlled = true
is_handled _ = false

awaiting_next :
    (s r : SessionState)
    → is_awaiting s ≡ true
    → can_transition s r ≡ true
    → (is_handled r ≡ true) ⊎ ((is_terminal r ≡ true) × (r ≢ resolved))
unfolding can_transition is_terminal is_awaiting
awaiting_next s r h k = ground arith

-- A session that waits on a human is never resolved from there: in an accepted run from a waiting
-- state to `resolved`, the first request takes it to the resolution loop or to staff.
pub awaiting_resolves_by_handling :
    (s r : SessionState) (rest : List SessionState)
    → is_awaiting s ≡ true
    → run_moves s (r ∷ rest) ≡ ok resolved
    → is_handled r ≡ true
awaiting_resolves_by_handling s r rest waits h =
    let (legal, e) = run_moves_inv s r rest h in
    elim (awaiting_next s r waits legal) [
      | inl handled ↦ handled
      | inr (ends, other) ↦ absurd (not_from_terminal r rest ends other e)
    ]

-- Each of the three interrupts suspends in a waiting state of its own, which the resolution loop may
-- enter and which goes back to the loop; the loop may not go on from one suspension to another.
pub suspension_for_waits :
    (k : InterruptKind)
    → (is_awaiting (suspension_for k) ≡ true)
      × (can_transition resolving (suspension_for k) ≡ true)
      × (can_transition (suspension_for k) resolving ≡ true)
      × ((j : InterruptKind) → can_transition (suspension_for k) (suspension_for j) ≡ false)
      × ((j : InterruptKind) → suspension_for k ≡ suspension_for j → k ≡ j)
unfolding can_transition is_awaiting suspension_for
suspension_for_waits k =
    (ground arith, ground arith, ground arith, λ j. ground arith, λ j e. ground arith)

-- Every session that has not ended can be escalated or declined in one move, and every such session
-- but one that staff already control can be taken over.
pub open_session_can_end :
    (s : SessionState)
    → is_terminal s ≡ false
    → (run_moves s (escalated ∷ []) ≡ ok escalated)
      × (run_moves s (closed_declined ∷ []) ≡ ok closed_declined)
      × ((s ≡ staff_controlled) ⊎ (run_moves s (staff_controlled ∷ []) ≡ ok staff_controlled))
unfolding run_moves transition is_terminal
open_session_can_end s h = (ground arith, ground arith, ground arith)
