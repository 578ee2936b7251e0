-- ===== src/Graph/Nodes/Knowledge.antt =====
-- What the `govern` node makes of the knowledge condition.
use itsm_poc.Common.{true, some, some_injective, ok, ◌≡◌, ◌≢◌, sym, ap, ◌∙◌}
use itsm_poc.Governance.Conditions.{withholds, not_required}
use itsm_poc.Governance.Gate.{knowledge_withheld}
use itsm_poc.Governance.Gate.Withholding.{withheld_iff}
use itsm_poc.Retrieval.Scores.{Scores}
use itsm_poc.Graph.State.{AgentState, GovernanceResult, ProposedOperationView}
use itsm_poc.Graph.Ports.{RunContext, Answers, Update}
use itsm_poc.Graph.Nodes.{gate_request, govern}
use itsm_poc.Graph.Nodes.Inversion.{govern-Governed}

module _ (f : Scores) (ctx : RunContext) (a : Answers (f.Score)) where
  open f use {Score}

  asks_no_knowledge :
      (p : ProposedOperationView) → withholds (gate_request f ctx a p).knowledge ≢ true
  unfolding gate_request withholds not_required
  asks_no_knowledge p h = cc

  -- However poor the evidence in the state, no result that the `govern` node writes has the
  -- knowledge condition as its reason.
  pub govern_never_withholds :
      (s : AgentState Score) {u : Update Score} {g : GovernanceResult}
      → govern f ctx a s ≡ ok u
      → u.governance ≡ some g
      → g.reason ≢ knowledge_withheld
  govern_never_withholds s {u} {g} h e reason =
      let governed = govern-Governed f ctx a s h in
      let same = some_injective (sym governed.recorded ∙ e) in
      let (_, _, withheld) =
        (withheld_iff (gate_request f ctx a governed.operation) governed.gated governed.answered).0
          (sym governed.explained ∙ ap (λ (x : GovernanceResult). x.reason) same ∙ reason) in
      asks_no_knowledge governed.operation withheld
