-- ===== src/Graph/Nodes.antt =====
-- The nodes of the graph: ragcore/src/ragcore/graph/nodes/. A node reads the state, the run's trusted
-- context and what the outside answers while it runs, and returns the channels that it writes.
pub mod Interrupts
pub mod Inversion
pub mod Knowledge
use itsm_poc.Common.{
  ℕ, Bool, true, false, ◌&&◌, ◌||◌, Option, none, some, List, [], ◌∷◌, map, reverse, String, Result,
  ok, err, ◌>>=◌, if◌then◌else◌, str_eq,
}
use itsm_poc.Domain.Treatment.{ExecutionTreatment, VerificationOutcome, workload}
use itsm_poc.Domain.Work.{
  SessionState, conversational, resolving, awaiting_consent, awaiting_approval, escalated,
  closed_declined, InterruptKind, ApprovalVerdict, approved, rejected, ConsentVerdict, granted,
  refused,
}
use itsm_poc.Domain.Records.{
  Instant, TenantContext, PrincipalId, CorrelationId, SessionId, WorkItemId, OperationIdentity,
  JsonObject, StaffVerdict, EndUserConsent, RecordedDecision, staff, end_user, CatalogueEntry,
  ProposedOperation, model,
}
use itsm_poc.Retrieval.Scores.{Scores}
use itsm_poc.Retrieval.Confidence
use itsm_poc.Governance.Conditions.{not_required}
use itsm_poc.Governance.Policy.{PolicyError, assign_treatment}
use itsm_poc.Governance.Gate.{
  GateRequest, GateOutcome, GateDisposition, proceed, evaluate, suspends_on, is_proceed,
}
use itsm_poc.Graph.State.{
  AgentState, ConversationTurn, Sender, from_end_user, from_agent, from_staff, RetrievedContext,
  GroundingAssessment, ClassificationView, ProposedOperationView, GovernanceResult,
  HumanDecisionRecord, consent_decision, approval_decision, ExecutionRecord, VerificationRecord,
  NodeKey, GraphError, value_error, unauthorized_execution, policy_error,
}
use itsm_poc.Graph.Scope.{
  TextMethods, classify_scope, ScopeOutcome, continue, decline, escalate, assess_triage,
  SessionTurn, commits_work,
}
use itsm_poc.Graph.Ports.{RunContext, ExecutionResult, Invocation, Update, nothing, Answers}

abbrev pub is_end_user : Sender → Bool
is_end_user from_end_user = true
is_end_user _ = false

first_end_user : List ConversationTurn → String
first_end_user [] = ""
first_end_user (turn ∷ turns) =
    let rest = first_end_user turns in if is_end_user turn.sender then turn.content else rest

unfoldable pub latest_user_content : List ConversationTurn → String
unfolding first_end_user
latest_user_content conversation = first_end_user (reverse conversation)

recorded_for : {Score : Type 0} → Answers Score → Option WorkItemId → Option RecordedDecision
recorded_for a none = none
recorded_for a (some id) = elim (a.verdict_for id) [
  | some verdict ↦ some (staff verdict)
  | none ↦ elim (a.consent_for id) [ some consent ↦ some (end_user consent) | none ↦ none ]
]

-- `_recorded_decision`.
unfoldable pub recorded_decision :
    {Score : Type 0} → RunContext → Answers Score → Option RecordedDecision
unfolding recorded_for
recorded_decision ctx a = recorded_for a ctx.work_item_id

-- `_expiry`.
unfoldable pub expiry : Option RecordedDecision → Option Instant
expiry none = none
expiry (some (staff d)) = d.expires_at
expiry (some (end_user d)) = d.expires_at

module _ (f : Scores) where
  open f use {Score}

  -- The request that the `govern` node hands to the gate.
  unfoldable pub gate_request :
      RunContext → Answers Score → ProposedOperationView → GateRequest Score
  gate_request ctx a p =
      let decision = recorded_decision ctx a in
      record {
        tenant = ctx.tenant;
        proposal = record {
          identity = p.identity;
          parameters = p.parameters;
          source = model;
          rationale = p.rationale;
        };
        entry = a.lookup p.identity;
        is_entitled = a.is_entitled p.identity.catalogue_id;
        requester = ctx.requester;
        now = a.now;
        decision = decision;
        authorization_expires_at = expiry decision;
        knowledge = not_required f;
      }

  unfoldable pub governed : Answers Score → GateOutcome → Update Score
  governed a o = record nothing {
    governance = some (record {
      treatment = o.treatment;
      treatment_reason = o.treatment_reason;
      disposition = o.disposition;
      reason = o.reason;
      decided_at = a.now;
    });
    pending_interrupt = some (suspends_on o);
  }

  gate_result : Answers Score → Result PolicyError GateOutcome → Result GraphError (Update Score)
  unfolding governed
  gate_result a (ok o) = ok (governed a o)
  gate_result a (err e) = err policy_error

  govern_for :
      RunContext → Answers Score → Option ProposedOperationView → Result GraphError (Update Score)
  unfolding gate_request gate_result
  govern_for ctx a none = err value_error
  govern_for ctx a (some p) = gate_result a (evaluate (gate_request ctx a p))

  unfoldable pub govern :
      RunContext → Answers Score → AgentState Score → Result GraphError (Update Score)
  unfolding govern_for
  govern ctx a s = govern_for ctx a s.proposal

  unfoldable pub intake : TextMethods → AgentState Score → Update Score
  intake m s =
      let turns =
        map
          (λ (turn : ConversationTurn). record {
            content = turn.content;
            sender_is_end_user = is_end_user turn.sender;
          })
          s.conversation in
      record nothing {
        session_state =
            some (if commits_work (assess_triage m turns) then resolving else conversational);
      }

  unfoldable pub converse : Update Score
  converse = record nothing { session_state = some resolving }

  unfoldable pub retrieve : Answers Score → AgentState Score → Update Score
  retrieve a s =
      let query = latest_user_content s.conversation in
      if str_eq query "" then nothing else record nothing { retrieved = a.search query }

  unfoldable pub ground : AgentState Score → Update Score
  ground s =
      let confidence = Confidence.assess f (λ (c : RetrievedContext Score). c.score) s.retrieved in
      record nothing {
        grounding = some (record {
          top_score = confidence.top_score;
          margin = confidence.margin;
          is_confident = confidence.is_confident;
          required = true;
        });
      }

  confident : Option (GroundingAssessment Score) → Bool
  confident none = false
  confident (some g) = g.is_confident

  proposes : Option ProposedOperationView → Bool
  proposes none = false
  proposes (some p) = true

  scope_update : ScopeOutcome → Update Score
  scope_update decline = record nothing { session_state = some closed_declined }
  scope_update escalate = record nothing { session_state = some escalated }
  scope_update continue = nothing

  unfoldable pub guardrail : TextMethods → AgentState Score → Update Score
  unfolding confident proposes scope_update
  guardrail m s =
      scope_update
        (classify_scope m (latest_user_content s.conversation)
          (confident s.grounding || proposes s.proposal)).outcome

  unfoldable pub propose : Update Score
  propose = nothing

  is_there : Option CatalogueEntry → Bool
  is_there none = false
  is_there (some entry) = true

  classify_for : Answers Score → Option ProposedOperationView → Result GraphError (Update Score)
  unfolding is_there
  classify_for a none = ok nothing
  classify_for a (some p) =
      let entry = a.lookup p.identity in
      let is_entitled = a.is_entitled p.identity.catalogue_id in
      elim (assign_treatment entry is_entitled) [
        | ok d ↦ ok (record nothing {
          classification = some (record {
            identity = p.identity;
            treatment = d.treatment;
            is_registered = is_there entry;
            is_entitled = is_entitled;
          });
        })
        | err e ↦ err policy_error
      ]

  unfoldable pub classify : Answers Score → AgentState Score → Result GraphError (Update Score)
  unfolding classify_for
  classify a s = classify_for a s.proposal

  unfoldable pub clarify : Answers Score → Update Score
  clarify a = record nothing {
    conversation = record (a.reply) { sender = from_end_user; occurred_at = a.now } ∷ [];
    pending_interrupt = some none;
    session_state = some resolving;
  }

  invocation : RunContext → ProposedOperationView → WorkItemId → Invocation
  invocation ctx p id = record {
    tenant = ctx.tenant;
    identity = p.identity;
    parameters = p.parameters;
    key = record { work_item = id; operation = p.identity };
  }

  executed_update : Answers Score → Invocation → Update Score
  executed_update a call =
      let result = a.invoke call in
      record nothing {
        execution = some (record {
          executed = result.succeeded;
          idempotency_key = call.key;
          execution_method = workload;
          attempted_at = a.now;
        });
        verification =
            some
              (record { outcome = result.verification; verified_by = none; verified_at = a.now });
      }

  -- Once the disposition is checked: the proposal and the work item, then the one invocation.
  execute_with :
      RunContext
      → Answers Score
      → Option ProposedOperationView
      → Option WorkItemId
      → Result GraphError (Update Score × List Invocation)
  unfolding invocation executed_update
  execute_with ctx a none id = err value_error
  execute_with ctx a (some p) none = err value_error
  execute_with ctx a (some p) (some id) =
      let call = invocation ctx p id in ok (executed_update a call, call ∷ [])

  execute_under :
      RunContext
      → Answers Score
      → AgentState Score
      → Option GovernanceResult
      → Result GraphError (Update Score × List Invocation)
  unfolding execute_with
  execute_under ctx a s none = err unauthorized_execution
  execute_under ctx a s (some g) =
      if is_proceed g.disposition
      then execute_with ctx a s.proposal ctx.work_item_id
      else err unauthorized_execution

  unfoldable pub execute :
      RunContext
      → Answers Score
      → AgentState Score
      → Result GraphError (Update Score × List Invocation)
  unfolding execute_under
  execute ctx a s = execute_under ctx a s s.governance

  unfoldable pub verify : Update Score
  verify = nothing

  unfoldable pub close : Update Score
  close = record nothing { session_state = some closed_declined; pending_interrupt = some none }
