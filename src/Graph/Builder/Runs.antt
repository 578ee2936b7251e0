-- ===== src/Graph/Builder/Runs.antt =====
-- What holds of every run of the graph: what it invokes, and on whose authority.
use itsm_poc.Common.{
  Bool, true, some, some_injective, List, [], ◌∷◌, ◌++◌, length, ok, All, ok-injective, >>=-eq-ok,
  ◌≡◌, ◌≢◌, refl, sym, ap, subst, ◌∙◌, ◌⊎◌, inl, inr,
}
use mathlib.Core.List.{Memᴰ, append-nil}
use mathlib.Core.List.Memᴰ.{head, tail}
use itsm_poc.Domain.Records.{CatalogueEntry}
use itsm_poc.Governance.Gate.{GateOutcome, is_authorized, proceed, is_proceed}
use itsm_poc.Governance.Gate.Agreement.{MayProceed}
use itsm_poc.Governance.Gate.Authorization.{evaluate-MayProceed}
use itsm_poc.Retrieval.Scores.{Scores}
use itsm_poc.Graph.State.{
  AgentState, GovernanceResult, ProposedOperationView, ExecutionRecord, VerificationRecord,
}
use itsm_poc.Graph.Scope.{TextMethods}
use itsm_poc.Graph.Ports.{RunContext, Answers, Update, Invocation}
use itsm_poc.Graph.Nodes.{gate_request}
use itsm_poc.Graph.Nodes.Inversion.{govern-Governed, Executed, execute-Executed}
use itsm_poc.Graph.Builder.{
  Place, at_execute, at_verify, at_end, edge, Config, run_node, merge, step, run, start, Reachable,
  started, stepped,
}
use itsm_poc.Graph.Builder.Moves.{
  edge-EntersExecution, at_execute-cases, Merged, merge-Merged, governance_kept, run_node_silent,
  run_node-govern,
}

proceed-is_authorized : (o : GateOutcome) → o.disposition ≡ proceed → is_authorized o ≡ true
unfolding is_authorized
proceed-is_authorized o h = ap is_proceed h

module _ (f : Scores) (m : TextMethods) (same_execution : ExecutionRecord → ExecutionRecord → Bool)
    (same_verification : VerificationRecord → VerificationRecord → Bool) (ctx : RunContext) where
  open f use {Score}

  -- What one step did.
  record Stepped (a : Answers Score) (c d : Config Score) : Type 0 where
    pub update : Update Score
    pub made : List Invocation
    pub ran :
        run_node f m same_execution same_verification ctx a c.place c.state ≡ ok (update, made)
    pub merged : Merged f m same_execution same_verification c.state update d.state
    pub moved : edge c.place d.state ≡ ok d.place
    pub calls : d.calls ≡ c.calls ++ made

  step-Stepped :
      (a : Answers Score) (c d : Config Score)
      → step f m same_execution same_verification ctx a c ≡ ok d
      → Stepped a c d
  unfolding step
  step-Stepped a c d h =
      let ((u, made), ran, h1) =
        >>=-eq-ok (run_node f m same_execution same_verification ctx a c.place c.state) _ h in
      let (s, joined, h2) = >>=-eq-ok (merge f m same_execution same_verification c.state u) _ h1 in
      let (p, moved, h3) = >>=-eq-ok (edge c.place s) _ h2 in
      let same = ok-injective h3 in
      record {
        update = u;
        made = made;
        ran = ran;
        merged =
            merge-Merged f m same_execution same_verification c.state u
              (joined ∙ ap (λ (x : Config Score). ok x.state) same);
        moved = subst (λ (x : Config Score). edge c.place x.state ≡ ok x.place) same moved;
        calls = ap (λ (x : Config Score). x.calls) (sym same);
      }

  -- The gate's conditions, met by the operation that the state proposes under these answers.
  record Grounds (a : Answers Score) (s : AgentState Score) : Type 0 where
    pub operation : ProposedOperationView
    pub proposed : s.proposal ≡ some operation
    pub entry : CatalogueEntry
    pub may : MayProceed (gate_request f ctx a operation) entry

  abbrev Ready : List (Answers Score) → AgentState Score → Type 0
  Ready [] s = ⊥
  Ready (a ∷ past) s = Grounds a s

  -- An invocation for the run's own tenant and work item, of an operation and parameters that met
  -- every condition of the gate under answers that the run had been given.
  pub record Justified (past : List (Answers Score)) (call : Invocation) : Type 0 where
    pub answers : Answers Score
    pub given : Memᴰ answers past
    pub operation : ProposedOperationView
    pub entry : CatalogueEntry
    pub may : MayProceed (gate_request f ctx answers operation) entry
    pub of_operation : call.identity ≡ operation.identity
    pub of_parameters : call.parameters ≡ operation.parameters
    pub of_tenant : call.tenant ≡ ctx.tenant
    pub of_work : ctx.work_item_id ≡ some call.key.work_item

  older :
      (past : List (Answers Score)) (a : Answers Score) {call : Invocation}
      → Justified past call
      → Justified (a ∷ past) call
  older past a j = record {
    answers = j.answers;
    given = tail j.given;
    operation = j.operation;
    entry = j.entry;
    may = j.may;
    of_operation = j.of_operation;
    of_parameters = j.of_parameters;
    of_tenant = j.of_tenant;
    of_work = j.of_work;
  }

  calls_older :
      (past : List (Answers Score)) (a : Answers Score) (calls : List Invocation)
      → All (Justified past) calls
      → All (Justified (a ∷ past)) calls
  calls_older past a [] h = tt
  calls_older past a (call ∷ calls) (j, js) = (older past a j, calls_older past a calls js)

  justify :
      (past : List (Answers Score)) (a : Answers Score) (s : AgentState Score) {u : Update Score}
      {made : List Invocation}
      → Ready past s
      → (e : Executed f ctx a s u made) → Justified past e.call
  justify [] a s g e = absurd g
  justify (b ∷ past) a s g e =
      let same = some_injective (sym e.proposed ∙ g.proposed) in
      record {
        answers = b;
        given = head refl;
        operation = g.operation;
        entry = g.entry;
        may = g.may;
        of_operation = e.of_operation ∙ ap (λ (p : ProposedOperationView). p.identity) same;
        of_parameters = e.of_parameters ∙ ap (λ (p : ProposedOperationView). p.parameters) same;
        of_tenant = e.of_tenant;
        of_work = e.bound ∙ ap some (sym e.of_work);
      }

  -- The state that `govern` leaves, when the edge to `execute` is taken from it.
  grounded :
      (a : Answers Score) (c d : Config Score)
      → Stepped a c d
      → d.place ≡ at_execute
      → Grounds a d.state
  grounded a c d s e =
      let enters = edge-EntersExecution c.place d.state (s.moved ∙ ap ok e) in
      let governed = govern-Governed f ctx a c.state (
        run_node-govern f m same_execution same_verification ctx a c.state (
          subst
            (λ p.
              run_node f m same_execution same_verification ctx a p c.state ≡ ok (s.update, s.made))
            enters.gate s.ran)) in
      let written = some_injective (
        sym enters.held
        ∙ governance_kept f m same_execution same_verification s.merged governed.recorded) in
      let (entry, may) =
        (evaluate-MayProceed (gate_request f ctx a governed.operation)).0 governed.gated
          governed.answered
          (proceed-is_authorized governed.gated (
            sym governed.disposed
            ∙ ap (λ (g : GovernanceResult). g.disposition) (sym written)
            ∙ enters.passes)) in
      record {
        operation = governed.operation;
        proposed = s.merged.proposal ∙ governed.proposed;
        entry = entry;
        may = may;
      }

  -- Where the one invocation of a run stands.
  abbrev Fresh : Place → List Invocation → Type 0
  Fresh p calls = (calls ≡ []) ⊎ (((p ≡ at_verify) ⊎ (p ≡ at_end)) × (length calls ≡ 1))

  record Sound (past : List (Answers Score)) (c : Config Score) : Type 0 where
    pub justified : All (Justified past) c.calls
    pub ready : c.place ≡ at_execute → Ready past c.state
    pub fresh : Fresh c.place c.calls

  finishes :
      (p q : Place) (s : AgentState Score)
      → (p ≡ at_verify) ⊎ (p ≡ at_end)
      → edge p s ≡ ok q
      → (p ≢ at_execute) × (q ≡ at_end)
  unfolding edge
  finishes p q s (inl e) h = ((λ b. cc), sym (ok-injective (subst (λ x. edge x s ≡ ok q) e h)))
  finishes p q s (inr e) h = ((λ b. cc), sym (ok-injective (subst (λ x. edge x s ≡ ok q) e h)))

  after_execute : (q : Place) (s : AgentState Score) → edge at_execute s ≡ ok q → q ≡ at_verify
  unfolding edge
  after_execute q s h = sym (ok-injective h)

  execution_made :
      (a : Answers Score) (c d : Config Score) (s : Stepped a c d)
      → c.place ≡ at_execute
      → Executed f ctx a c.state s.update s.made
  unfolding run_node
  execution_made a c d s e = execute-Executed f ctx a c.state (
      subst
        (λ p. run_node f m same_execution same_verification ctx a p c.state ≡ ok (s.update, s.made))
        e s.ran)

  not_yet : (c : Config Score) → Fresh c.place c.calls → c.place ≡ at_execute → c.calls ≡ []
  not_yet c (inl none_yet) e = none_yet
  not_yet c (inr (inl at, one)) e = cc
  not_yet c (inr (inr at, one)) e = cc

  keeps_through_execute :
      (past : List (Answers Score)) (a : Answers Score) (c d : Config Score)
      → Stepped a c d
      → Sound past c
      → c.place ≡ at_execute
      → Sound (a ∷ past) d
  keeps_through_execute past a c d s h e =
      let ran = execution_made a c d s e in
      let calls =
        s.calls ∙ ap (λ (x : List Invocation). x ++ s.made) (not_yet c h.fresh e) ∙ ran.once in
      let here =
        after_execute d.place d.state (subst (λ p. edge p d.state ≡ ok d.place) e s.moved) in
      record {
        justified =
            subst (All (Justified (a ∷ past))) (sym calls)
              (older past a (justify past a c.state (h.ready e) ran), tt);
        ready = λ other. cc;
        fresh = inr (inl here, ap length calls);
      }

  keeps_once :
      (c d : Config Score)
      → edge c.place d.state ≡ ok d.place
      → d.calls ≡ c.calls
      → Fresh c.place c.calls
      → Fresh d.place d.calls
  keeps_once c d moved calls (inl none_yet) = inl (calls ∙ none_yet)
  keeps_once c d moved calls (inr (at, one)) =
      inr (inr (finishes c.place d.place d.state at moved).1, ap length calls ∙ one)

  keeps_elsewhere :
      (past : List (Answers Score)) (a : Answers Score) (c d : Config Score)
      → Stepped a c d
      → Sound past c
      → c.place ≢ at_execute
      → Sound (a ∷ past) d
  keeps_elsewhere past a c d s h n =
      let silent =
        run_node_silent f m same_execution same_verification ctx a c.place c.state n s.ran in
      let calls =
        s.calls ∙ ap (λ (x : List Invocation). c.calls ++ x) silent ∙ append-nil c.calls in
      record {
        justified =
            subst (All (Justified (a ∷ past))) (sym calls) (calls_older past a c.calls h.justified);
        ready = grounded a c d s;
        fresh = keeps_once c d s.moved calls h.fresh;
      }

  keeps_from_start :
      (s : AgentState Score) → Sound [] (start f m same_execution same_verification s)
  unfolding start
  keeps_from_start s = record { justified = tt; ready = λ e. cc; fresh = inl refl }

  Sound-Reachable :
      {past : List (Answers Score)} {c : Config Score}
      → Reachable f m same_execution same_verification ctx past c
      → Sound past c
  Sound-Reachable (started s) = keeps_from_start s
  Sound-Reachable (stepped {past} {c} {d} a r h) =
      let s = step-Stepped a c d h in
      elim (at_execute-cases c.place) [
        | inl there ↦ keeps_through_execute past a c d s (Sound-Reachable r) there
        | inr elsewhere ↦ keeps_elsewhere past a c d s (Sound-Reachable r) elsewhere
      ]

  -- Whatever the ports answer and however often a run is suspended and resumed, every invocation
  -- that it makes is for the run's own tenant and work item, and of an operation and parameters
  -- that met every condition of the gate under answers given during the run.
  pub invocations-Justified :
      {past : List (Answers Score)} {c : Config Score}
      → Reachable f m same_execution same_verification ctx past c
      → All (Justified past) c.calls
  invocations-Justified r = (Sound-Reachable r).justified

  -- A run makes at most one invocation, and one that has made it only verifies and ends.
  pub invokes_once :
      {past : List (Answers Score)} {c : Config Score}
      → Reachable f m same_execution same_verification ctx past c
      → (c.calls ≡ []) ⊎ (((c.place ≡ at_verify) ⊎ (c.place ≡ at_end)) × (length c.calls ≡ 1))
  invokes_once r = (Sound-Reachable r).fresh

  abbrev pub after {ℓ} : {A : Type ℓ} → List A → List A → List A
  after past [] = past
  after past (a ∷ answers) = after (a ∷ past) answers

  pub run-Reachable :
      (past answers : List (Answers Score)) {c d : Config Score}
      → Reachable f m same_execution same_verification ctx past c
      → run f m same_execution same_verification ctx answers c ≡ ok d
      → Reachable f m same_execution same_verification ctx (after past answers) d
  unfolding run
  run-Reachable past [] r h =
      subst (Reachable f m same_execution same_verification ctx past) (ok-injective h) r
  run-Reachable past (a ∷ answers) {c} r h =
      let (next, now, rest) = >>=-eq-ok (step f m same_execution same_verification ctx a c) _ h in
      run-Reachable (a ∷ past) answers (stepped a r now) rest
