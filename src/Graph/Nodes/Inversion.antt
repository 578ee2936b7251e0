-- ===== src/Graph/Nodes/Inversion.antt =====
-- What the nodes that govern and execute did, when they returned.
use itsm_poc.Common.{
  Option, none, some, List, [], ◌∷◌, Result, ok, err, ok-injective, err-ne-ok, ◌≡◌, refl, sym, ap,
  inl, inr, Bool-cases, if◌then◌else◌,
}
use itsm_poc.Domain.Records.{WorkItemId}
use itsm_poc.Governance.Gate.{GateOutcome, evaluate, is_proceed}
use itsm_poc.Governance.Policy.{PolicyError}
use itsm_poc.Retrieval.Scores.{Scores}
use itsm_poc.Graph.State.{AgentState, GovernanceResult, ProposedOperationView, ExecutionRecord}
use itsm_poc.Graph.Ports.{RunContext, Answers, Update, Invocation}
use itsm_poc.Graph.Nodes.{
  gate_request, govern, govern_for, gate_result, governed, execute, execute_under, execute_with,
  executed_update, invocation,
}

module _ (f : Scores) (ctx : RunContext) (a : Answers (f.Score)) where
  open f use {Score}

  -- The gate was asked about the proposal in the state, and its answer written.
  pub record Governed (s : AgentState Score) (u : Update Score) : Type 0 where
    pub operation : ProposedOperationView
    pub proposed : s.proposal ≡ some operation
    pub gated : GateOutcome
    pub answered : evaluate (gate_request f ctx a operation) ≡ ok gated
    pub written : GovernanceResult
    pub recorded : u.governance ≡ some written
    pub disposed : written.disposition ≡ gated.disposition
    pub explained : written.reason ≡ gated.reason

  gate_result-Governed :
      (s : AgentState Score) (p : ProposedOperationView) {u : Update Score}
      (r : Result PolicyError GateOutcome)
      → s.proposal ≡ some p
      → evaluate (gate_request f ctx a p) ≡ r
      → gate_result f a r ≡ ok u
      → Governed s u
  unfolding gate_result governed
  gate_result-Governed s p (ok o) hp hr h = record {
    operation = p;
    proposed = hp;
    gated = o;
    answered = hr;
    written = _;
    recorded = ap (λ (x : Update Score). x.governance) (sym (ok-injective h));
    disposed = refl;
    explained = refl;
  }
  gate_result-Governed s p (err e) hp hr h = absurd (err-ne-ok h)

  govern_for-Governed :
      (s : AgentState Score) {u : Update Score} (o : Option ProposedOperationView)
      → s.proposal ≡ o
      → govern_for f ctx a o ≡ ok u
      → Governed s u
  unfolding govern_for
  govern_for-Governed s none e h = absurd (err-ne-ok h)
  govern_for-Governed s (some p) e h = gate_result-Governed s p _ e refl h

  pub govern-Governed :
      (s : AgentState Score) {u : Update Score} → govern f ctx a s ≡ ok u → Governed s u
  unfolding govern
  govern-Governed s h = govern_for-Governed s s.proposal refl h

  -- The one invocation that `execute` made, and the record that it wrote of it.
  pub record Executed (s : AgentState Score) (u : Update Score) (made : List Invocation)
      : Type 0 where
    pub operation : ProposedOperationView
    pub proposed : s.proposal ≡ some operation
    pub work_item : WorkItemId
    pub bound : ctx.work_item_id ≡ some work_item
    pub call : Invocation
    pub once : made ≡ call ∷ []
    pub of_tenant : call.tenant ≡ ctx.tenant
    pub of_operation : call.identity ≡ operation.identity
    pub of_parameters : call.parameters ≡ operation.parameters
    pub of_work : call.key.work_item ≡ work_item
    pub record_kept : ExecutionRecord
    pub recorded : u.execution ≡ some record_kept
    pub record_key : record_kept.idempotency_key ≡ call.key

  execute_with-Executed :
      (s : AgentState Score) {u : Update Score} {made : List Invocation}
      (o : Option ProposedOperationView) (w : Option WorkItemId)
      → s.proposal ≡ o
      → ctx.work_item_id ≡ w
      → execute_with f ctx a o w ≡ ok (u, made)
      → Executed s u made
  unfolding execute_with executed_update invocation
  execute_with-Executed s none w e1 e2 h = absurd (err-ne-ok h)
  execute_with-Executed s (some p) none e1 e2 h = absurd (err-ne-ok h)
  execute_with-Executed s (some p) (some id) e1 e2 h = record {
    operation = p;
    proposed = e1;
    work_item = id;
    bound = e2;
    call = invocation f ctx p id;
    once = ap (λ (x : Update Score × List Invocation). x.1) (sym (ok-injective h));
    of_tenant = refl;
    of_operation = refl;
    of_parameters = refl;
    of_work = refl;
    record_kept = _;
    recorded = ap (λ (x : Update Score × List Invocation). x.0.execution) (sym (ok-injective h));
    record_key = refl;
  }

  execute_under-Executed :
      (s : AgentState Score) {u : Update Score} {made : List Invocation}
      (g : Option GovernanceResult)
      → execute_under f ctx a s g ≡ ok (u, made)
      → Executed s u made
  unfolding execute_under
  execute_under-Executed s none h = absurd (err-ne-ok h)
  execute_under-Executed s (some g) h = elim (Bool-cases (is_proceed g.disposition)) [
    | inl passed ↦
        execute_with-Executed s s.proposal ctx.work_item_id refl refl
          (rw (passed, if◌then◌else◌) at h)
    | inr barred ↦ absurd (err-ne-ok (rw (barred, if◌then◌else◌) at h))
  ]

  pub execute-Executed :
      (s : AgentState Score) {u : Update Score} {made : List Invocation}
      → execute f ctx a s ≡ ok (u, made)
      → Executed s u made
  unfolding execute
  execute-Executed s h = execute_under-Executed s s.governance h
