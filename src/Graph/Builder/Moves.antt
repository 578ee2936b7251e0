-- ===== src/Graph/Builder/Moves.antt =====
-- What one move along the graph does to the state and to the invocations.
use itsm_poc.Common.{
  Bool, true, false, Option, none, some, List, [], Result, ok, err, ◌>>=◌, ok-injective, err-ne-ok,
  >>=-eq-ok, ◌≡◌, ◌≢◌, refl, sym, ap, subst, ◌∙◌, ◌⊎◌, inl, inr, Bool-cases, if◌then◌else◌,
}
use itsm_poc.Domain.Treatment.{is_narrowing}
use itsm_poc.Governance.Gate.{
  GateDisposition, proceed, suspend_for_consent, suspend_for_approval, refuse,
}
use itsm_poc.Retrieval.Scores.{Scores}
use itsm_poc.Graph.State.{
  AgentState, GovernanceResult, ProposedOperationView, ExecutionRecord, VerificationRecord,
  GraphError, seal, seal_governance,
}
use itsm_poc.Graph.Scope.{TextMethods}
use itsm_poc.Graph.Ports.{RunContext, Answers, Update, Invocation}
use itsm_poc.Graph.Nodes.{govern, classify}
use itsm_poc.Graph.Builder.{
  Place, at_intake, at_converse, at_clarify, at_retrieve, at_ground, at_guardrail, at_propose,
  at_classify, at_govern, at_await_consent, at_await_approval, at_execute, at_verify, at_close,
  at_end, ends_session, place_for, place_of, route_after_guardrail, route_after_propose,
  route_after_govern, route_for, edge, merge, run_node,
}

seal_governance_latest :
    (existing : Option GovernanceResult) (g : GovernanceResult) {next : Option GovernanceResult}
    → seal_governance existing (some g) ≡ ok next
    → next ≡ some g
unfolding seal_governance
seal_governance_latest none g h = sym (ok-injective h)
seal_governance_latest (some before) g h =
    elim (Bool-cases (is_narrowing before.treatment g.treatment)) [
      | inl narrows ↦ sym (ok-injective (rw (narrows, if◌then◌else◌) at h))
      | inr widens ↦ absurd (err-ne-ok (rw (widens, if◌then◌else◌) at h))
    ]

place_of_proceed : (d : GateDisposition) → place_of d ≡ at_execute → d ≡ proceed
place_of_proceed proceed h = refl
place_of_proceed suspend_for_consent h = cc
place_of_proceed suspend_for_approval h = cc
place_of_proceed refuse h = cc

-- What led from a place to the `execute` node: the gate's disposition.
pub record EntersExecution {Score : Type 0} (p : Place) (s : AgentState Score) : Type 0 where
  pub gate : p ≡ at_govern
  pub result : GovernanceResult
  pub held : s.governance ≡ some result
  pub passes : result.disposition ≡ proceed

route_for_inv :
    {Score : Type 0} (s : AgentState Score) (g : Option GovernanceResult)
    → s.governance ≡ g
    → route_for g ≡ ok at_execute
    → EntersExecution at_govern s
unfolding route_for
route_for_inv s none e h = absurd (err-ne-ok h)
route_for_inv s (some g) e h = record {
  gate = refl;
  result = g;
  held = e;
  passes = place_of_proceed g.disposition (ok-injective h);
}

guardrail_route : (b : Bool) → (if b then at_close else at_propose) ≢ at_execute
guardrail_route true h = cc
guardrail_route false h = cc

propose_route : (o : Option ProposedOperationView) → place_for o ≢ at_execute
propose_route none h = cc
propose_route (some p) h = cc

other_place :
    {p : Place} → p ≢ at_execute → ◌≡◌ {A = Result GraphError Place} (ok p) (ok at_execute) → ⊥
other_place n h = n (ok-injective h)

-- There is one edge into `execute`, and it is taken on the gate's word to proceed.
pub edge-EntersExecution :
    {Score : Type 0} (p : Place) (s : AgentState Score)
    → edge p s ≡ ok at_execute
    → EntersExecution p s
unfolding edge route_after_guardrail route_after_propose route_after_govern
edge-EntersExecution at_guardrail s h =
    absurd (guardrail_route (ends_session s.session_state) (ok-injective h))
edge-EntersExecution at_classify s h = absurd (propose_route s.proposal (ok-injective h))
edge-EntersExecution at_govern s h = route_for_inv s s.governance refl h
edge-EntersExecution at_intake s h = absurd (other_place (λ e. cc) h)
edge-EntersExecution at_converse s h = absurd (other_place (λ e. cc) h)
edge-EntersExecution at_clarify s h = absurd (other_place (λ e. cc) h)
edge-EntersExecution at_retrieve s h = absurd (other_place (λ e. cc) h)
edge-EntersExecution at_ground s h = absurd (other_place (λ e. cc) h)
edge-EntersExecution at_propose s h = absurd (other_place (λ e. cc) h)
edge-EntersExecution at_await_consent s h = absurd (other_place (λ e. cc) h)
edge-EntersExecution at_await_approval s h = absurd (other_place (λ e. cc) h)
edge-EntersExecution at_execute s h = absurd (other_place (λ e. cc) h)
edge-EntersExecution at_verify s h = absurd (other_place (λ e. cc) h)
edge-EntersExecution at_close s h = absurd (other_place (λ e. cc) h)
edge-EntersExecution at_end s h = absurd (other_place (λ e. cc) h)

pub at_execute-cases : (p : Place) → (p ≡ at_execute) ⊎ (p ≢ at_execute)
at_execute-cases p = elim p as (λ q. (q ≡ at_execute) ⊎ (q ≢ at_execute)) [
  | at_execute ↦ inl refl
  | _ ↦ inr (λ e. cc)
]

module _ (f : Scores) (m : TextMethods) (same_execution : ExecutionRecord → ExecutionRecord → Bool)
    (same_verification : VerificationRecord → VerificationRecord → Bool) where
  open f use {Score}

  -- What the reducers leave in the channels that authority is read from.
  pub record Merged (s : AgentState Score) (u : Update Score) (t : AgentState Score) : Type 0 where
    pub proposal : t.proposal ≡ s.proposal
    pub governance : seal_governance s.governance u.governance ≡ ok t.governance
    pub execution : seal same_execution s.execution u.execution ≡ ok t.execution

  pub merge-Merged :
      (s : AgentState Score) (u : Update Score) {t : AgentState Score}
      → merge f m same_execution same_verification s u ≡ ok t
      → Merged s u t
  unfolding merge
  merge-Merged s u {t} h =
      let (g, hg, h1) = >>=-eq-ok (seal_governance s.governance u.governance) _ h in
      let (e, he, h2) = >>=-eq-ok (seal same_execution s.execution u.execution) _ h1 in
      let (v, hv, h3) = >>=-eq-ok (seal same_verification s.verification u.verification) _ h2 in
      let same = sym (ok-injective h3) in
      record {
        proposal = ap (λ (x : AgentState Score). x.proposal) same;
        governance = hg ∙ ap (λ (x : AgentState Score). ok x.governance) (sym same);
        execution = he ∙ ap (λ (x : AgentState Score). ok x.execution) (sym same);
      }

  pub governance_kept :
      {s : AgentState Score} {u : Update Score} {t : AgentState Score} {g : GovernanceResult}
      → Merged s u t
      → u.governance ≡ some g
      → t.governance ≡ some g
  governance_kept {s} {u} {t} {g} h e =
      seal_governance_latest s.governance g
        (subst (λ x. seal_governance s.governance x ≡ ok t.governance) e h.governance)

  made_nothing :
      {u : Update Score} (m : Result GraphError (Update Score)) {made : List Invocation}
      → ◌>>=◌ {B = Update Score × List Invocation} m (λ v. ok (v, [])) ≡ ok (u, made)
      → (m ≡ ok u) × (made ≡ [])
  made_nothing (ok v) h = (
    ap (λ (x : Update Score × List Invocation). ok x.0) (ok-injective h),
    ap (λ (x : Update Score × List Invocation). x.1) (sym (ok-injective h)),
  )
  made_nothing (err e) h = absurd (err-ne-ok h)

  silent :
      {u v : Update Score} {made : List Invocation}
      → ◌≡◌ {A = Result GraphError (Update Score × List Invocation)} (ok (v, [])) (ok (u, made))
      → made ≡ []
  silent h = ap (λ (x : Update Score × List Invocation). x.1) (sym (ok-injective h))

  -- No node but `execute` invokes anything.
  pub run_node_silent :
      (ctx : RunContext) (a : Answers Score) (p : Place) (s : AgentState Score) {u : Update Score}
      {made : List Invocation}
      → p ≢ at_execute
      → run_node f m same_execution same_verification ctx a p s ≡ ok (u, made)
      → made ≡ []
  unfolding run_node
  run_node_silent ctx a at_classify s n h = (made_nothing (classify f a s) h).1
  run_node_silent ctx a at_govern s n h = (made_nothing (govern f ctx a s) h).1
  run_node_silent ctx a at_execute s n h = absurd (n refl)
  run_node_silent ctx a at_intake s n h = silent h
  run_node_silent ctx a at_converse s n h = silent h
  run_node_silent ctx a at_clarify s n h = silent h
  run_node_silent ctx a at_retrieve s n h = silent h
  run_node_silent ctx a at_ground s n h = silent h
  run_node_silent ctx a at_guardrail s n h = silent h
  run_node_silent ctx a at_propose s n h = silent h
  run_node_silent ctx a at_await_consent s n h = silent h
  run_node_silent ctx a at_await_approval s n h = silent h
  run_node_silent ctx a at_verify s n h = silent h
  run_node_silent ctx a at_close s n h = silent h
  run_node_silent ctx a at_end s n h = silent h

  pub run_node-govern :
      (ctx : RunContext) (a : Answers Score) (s : AgentState Score) {u : Update Score}
      {made : List Invocation}
      → run_node f m same_execution same_verification ctx a at_govern s ≡ ok (u, made)
      → govern f ctx a s ≡ ok u
  unfolding run_node
  run_node-govern ctx a s h = (made_nothing (govern f ctx a s) h).0
