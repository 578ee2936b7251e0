-- ===== src/Graph/Builder.antt =====
-- The shape of the graph and how a run moves along it: ragcore/src/ragcore/graph/builder.py, with
-- the reducers that LangGraph folds each node's writes through.
pub mod Moves
pub mod Runs
use itsm_poc.Common.{
  Bool, true, false, ◌||◌, Option, none, some, List, [], ◌∷◌, ◌++◌, Result, ok, err, ◌>>=◌,
  if◌then◌else◌, ◌≡◌,
}
use itsm_poc.Domain.Work.{SessionState, escalated, closed_declined}
use itsm_poc.Governance.Gate.{
  GateDisposition, proceed, suspend_for_consent, suspend_for_approval, refuse,
}
use itsm_poc.Retrieval.Scores.{Scores}
use itsm_poc.Graph.State.{
  AgentState, GovernanceResult, ProposedOperationView, ExecutionRecord, VerificationRecord,
  GraphError, value_error, append_channel, seal, seal_governance, seal_human_decision,
}
use itsm_poc.Graph.Scope.{TextMethods}
use itsm_poc.Graph.Nodes.Interrupts.{await_consent, await_approval}
use itsm_poc.Graph.Ports.{RunContext, Answers, Update, Invocation, nothing}
use itsm_poc.Graph.Nodes.{
  intake, converse, clarify, retrieve, ground, guardrail, propose, classify, govern, execute,
  verify, close,
}

pub data Place : Type 0 where
  at_intake at_converse at_clarify at_retrieve at_ground at_guardrail at_propose at_classify : Place
  at_govern at_await_consent at_await_approval at_execute at_verify at_close at_end : Place

-- `_route_after_guardrail`.
ends_session : Option SessionState → Bool
ends_session (some escalated) = true
ends_session (some closed_declined) = true
ends_session _ = false

unfoldable pub route_after_guardrail : {Score : Type 0} → AgentState Score → Place
unfolding ends_session
route_after_guardrail s = if ends_session s.session_state then at_close else at_propose

-- `_route_after_propose`.
abbrev place_for : Option ProposedOperationView → Place
place_for none = at_end
place_for (some p) = at_govern

unfoldable pub route_after_propose : {Score : Type 0} → AgentState Score → Place
route_after_propose s = place_for s.proposal

abbrev pub place_of : GateDisposition → Place
place_of proceed = at_execute
place_of suspend_for_consent = at_await_consent
place_of suspend_for_approval = at_await_approval
place_of refuse = at_close

route_for : Option GovernanceResult → Result GraphError Place
route_for none = err value_error
route_for (some g) = ok (place_of g.disposition)

unfoldable pub route_after_govern : {Score : Type 0} → AgentState Score → Result GraphError Place
unfolding route_for
route_after_govern s = route_for s.governance

-- The edges of `build_graph`; a finished run stays where it is.
unfoldable pub edge : {Score : Type 0} → Place → AgentState Score → Result GraphError Place
edge at_intake s = ok at_converse
edge at_converse s = ok at_retrieve
edge at_clarify s = ok at_retrieve
edge at_retrieve s = ok at_ground
edge at_ground s = ok at_guardrail
edge at_guardrail s = ok (route_after_guardrail s)
edge at_propose s = ok at_classify
edge at_classify s = ok (route_after_propose s)
edge at_govern s = route_after_govern s
edge at_await_consent s = ok at_govern
edge at_await_approval s = ok at_govern
edge at_execute s = ok at_verify
edge at_verify s = ok at_end
edge at_close s = ok at_end
edge at_end s = ok at_end

-- The value that a write leaves in a channel that has no reducer.
abbrev replaced {ℓ} : {A : Type ℓ} → A → Option A → A
replaced existing none = existing
replaced existing (some update) = update

abbrev kept {ℓ} : {A : Type ℓ} → Option A → Option A → Option A
kept existing none = existing
kept existing (some update) = some update

-- Where a run stands: its channels, the node that runs next, and the invocations it has made.
pub record Config (Score : Type 0) : Type 0 where
  pub state : AgentState Score
  pub place : Place
  pub calls : List Invocation

module _ (f : Scores) (m : TextMethods) (same_execution : ExecutionRecord → ExecutionRecord → Bool)
    (same_verification : VerificationRecord → VerificationRecord → Bool) where
  open f use {Score}

  -- The writes of one node, each through the reducer of its channel.
  unfoldable pub merge : AgentState Score → Update Score → Result GraphError (AgentState Score)
  merge s u = do
    governance ← seal_governance s.governance u.governance
    execution ← seal same_execution s.execution u.execution
    verification ← seal same_verification s.verification u.verification
    ok (record {
      session_state = kept s.session_state u.session_state;
      pending_interrupt = replaced s.pending_interrupt u.pending_interrupt;
      conversation = append_channel s.conversation u.conversation;
      retrieved = append_channel s.retrieved u.retrieved;
      grounding = kept s.grounding u.grounding;
      classification = kept s.classification u.classification;
      proposal = s.proposal;
      governance = governance;
      decision = seal_human_decision s.decision u.decision;
      execution = execution;
      verification = verification;
    })

  -- What each node writes and invokes.
  unfoldable pub run_node :
      RunContext
      → Answers Score
      → Place
      → AgentState Score
      → Result GraphError (Update Score × List Invocation)
  run_node ctx a at_intake s = ok (intake f m s, [])
  run_node ctx a at_converse s = ok (converse f, [])
  run_node ctx a at_clarify s = ok (clarify f a, [])
  run_node ctx a at_retrieve s = ok (retrieve f a s, [])
  run_node ctx a at_ground s = ok (ground f s, [])
  run_node ctx a at_guardrail s = ok (guardrail f m s, [])
  run_node ctx a at_propose s = ok (propose f, [])
  run_node ctx a at_classify s = do u ← classify f a s; ok (u, [])
  run_node ctx a at_govern s = do u ← govern f ctx a s; ok (u, [])
  run_node ctx a at_await_consent s = ok (await_consent f ctx a, [])
  run_node ctx a at_await_approval s = ok (await_approval f ctx a, [])
  run_node ctx a at_execute s = execute f ctx a s
  run_node ctx a at_verify s = ok (verify f, [])
  run_node ctx a at_close s = ok (close f, [])
  run_node ctx a at_end s = ok (nothing, [])

  -- One node: it runs, its writes are folded in, and the edge is taken from the state after them.
  unfoldable pub step : RunContext → Answers Score → Config Score → Result GraphError (Config Score)
  step ctx a c = do
    (update, made) ← run_node ctx a c.place c.state
    state ← merge c.state update
    place ← edge c.place state
    ok (record { state = state; place = place; calls = c.calls ++ made })

  unfoldable pub start : AgentState Score → Config Score
  start s = record { state = s; place = at_intake; calls = [] }

  -- A run from the start with any checkpointed state; the answers of its nodes, the latest first.
  pub data Reachable (ctx : RunContext) : List (Answers Score) → Config Score → Type 0 where
    started : (s : AgentState Score) → Reachable ctx [] (start s)
    stepped :
        {past : List (Answers Score)} {c d : Config Score} (a : Answers Score)
        → Reachable ctx past c
        → step ctx a c ≡ ok d
        → Reachable ctx (a ∷ past) d

  -- A run over the answers that its nodes are given, one node after the other.
  unfoldable pub run :
      RunContext → List (Answers Score) → Config Score → Result GraphError (Config Score)
  run ctx [] c = ok c
  run ctx (a ∷ answers) c = step ctx a c >>= λ d. run ctx answers d
