-- ===== src/Graph/Ports.antt =====
-- What a node is run with: the run's trusted context, and what the outside answers, as the ports of
-- ragcore/src/ragcore/graph/nodes/ return it.
use itsm_poc.Common.{Bool, Option, none, List, [], String}
use itsm_poc.Domain.Treatment.{VerificationOutcome}
use itsm_poc.Domain.Work.{SessionState, InterruptKind}
use itsm_poc.Domain.Records.{
  Instant, TenantContext, PrincipalId, CorrelationId, SessionId, WorkItemId, OperationIdentity,
  JsonObject, StaffVerdict, EndUserConsent, CatalogueEntry,
}
use itsm_poc.Graph.State.{
  ConversationTurn, RetrievedContext, GroundingAssessment, ClassificationView, GovernanceResult,
  HumanDecisionRecord, ExecutionRecord, VerificationRecord, NodeKey,
}

pub record RunContext : Type 0 where
  pub tenant : TenantContext
  pub requester : PrincipalId
  pub correlation_id : CorrelationId
  pub session_id : SessionId
  pub work_item_id : Option WorkItemId

pub record ExecutionResult : Type 0 where
  pub succeeded : Bool
  pub verification : VerificationOutcome

-- One call of the execution port.
pub record Invocation : Type 0 where
  pub tenant : TenantContext
  pub identity : OperationIdentity
  pub parameters : JsonObject
  pub key : NodeKey

-- What a node writes: `none` for a channel that it leaves out.
pub record Update (Score : Type 0) : Type 0 where
  pub session_state : Option SessionState
  pub pending_interrupt : Option (Option InterruptKind)
  pub conversation : List ConversationTurn
  pub retrieved : List (RetrievedContext Score)
  pub grounding : Option (GroundingAssessment Score)
  pub classification : Option ClassificationView
  pub governance : Option GovernanceResult
  pub decision : Option HumanDecisionRecord
  pub execution : Option ExecutionRecord
  pub verification : Option VerificationRecord

abbrev pub nothing : {Score : Type 0} → Update Score
nothing = record {
  session_state = none;
  pending_interrupt = none;
  conversation = [];
  retrieved = [];
  grounding = none;
  classification = none;
  governance = none;
  decision = none;
  execution = none;
  verification = none;
}

-- What the ports answer while one node runs.
pub record Answers (Score : Type 0) : Type 0 where
  pub now : Instant
  pub lookup : OperationIdentity → Option CatalogueEntry
  pub is_entitled : String → Bool
  pub verdict_for : WorkItemId → Option StaffVerdict
  pub consent_for : WorkItemId → Option EndUserConsent
  pub search : String → List (RetrievedContext Score)
  pub reply : ConversationTurn
  pub invoke : Invocation → ExecutionResult
