-- ===== src/Graph/State.antt =====
-- The graph's state and the reducers of its channels: ragcore/src/ragcore/graph/state.py. A channel
-- holds the enumeration that its literal mirrors (graph/projections.py is one-to-one).
pub mod Sealing
use itsm_poc.Common.{
  ℕ, Bool, true, false, Option, none, some, List, [], ◌++◌, String, Result, ok, err, ◌>>=◌,
  if◌then◌else◌,
}
use itsm_poc.Domain.Treatment.{
  ExecutionTreatment, ExecutionMethod, VerificationOutcome, is_narrowing,
}
use itsm_poc.Domain.Work.{SessionState, InterruptKind}
use itsm_poc.Domain.Records.{Uuid, Instant, PrincipalId, WorkItemId, OperationIdentity, JsonObject}
use itsm_poc.Governance.Policy.{TreatmentReason}
use itsm_poc.Governance.Gate.{GateDisposition, GateReason}

pub data Sender : Type 0 where
  from_end_user from_agent from_staff : Sender

pub record ConversationTurn : Type 0 where
  pub message_id : String
  pub sender : Sender
  pub content : String
  pub occurred_at : Instant

pub record RetrievedContext (Score : Type 0) : Type 0 where
  pub chunk_id : String
  pub content : String
  pub score : Score
  pub source_reference : String

pub record GroundingAssessment (Score : Type 0) : Type 0 where
  pub top_score : Score
  pub margin : Score
  pub is_confident : Bool
  pub required : Bool

pub record ClassificationView : Type 0 where
  pub identity : OperationIdentity
  pub treatment : ExecutionTreatment
  pub is_registered : Bool
  pub is_entitled : Bool

pub record ProposedOperationView : Type 0 where
  pub identity : OperationIdentity
  pub parameters : JsonObject
  pub rationale : String

pub record GovernanceResult : Type 0 where
  pub treatment : ExecutionTreatment
  pub treatment_reason : TreatmentReason
  pub disposition : GateDisposition
  pub reason : GateReason
  pub decided_at : Instant

pub data DecisionKind : Type 0 where
  consent_decision approval_decision : DecisionKind

pub record HumanDecisionRecord : Type 0 where
  pub kind : DecisionKind
  pub decision_id : Uuid
  pub decided_by : PrincipalId
  pub favourable : Bool
  pub decided_at : Instant
  pub expires_at : Option Instant

-- The text `f"{work_item_id}:{identity}"`, by its two parts.
pub record NodeKey : Type 0 where
  pub work_item : WorkItemId
  pub operation : OperationIdentity

pub record ExecutionRecord : Type 0 where
  pub executed : Bool
  pub idempotency_key : NodeKey
  pub execution_method : ExecutionMethod
  pub attempted_at : Instant

pub record VerificationRecord : Type 0 where
  pub outcome : VerificationOutcome
  pub verified_by : Option String
  pub verified_at : Instant

pub data GraphError : Type 0 where
  channel_sealed : GraphError
  treatment_widened : ExecutionTreatment → ExecutionTreatment → GraphError
  -- The defects that the nodes raise: an empty channel or no work item, and an execution that no
  -- gate authorized.
  value_error : GraphError
  unauthorized_execution : GraphError
  policy_error : GraphError

-- `_append`.
unfoldable pub append_channel {ℓ} : {A : Type ℓ} → List A → List A → List A
append_channel existing update = existing ++ update

-- `_seal`, over a test for equality of the values.
unfoldable pub seal {ℓ} :
    {A : Type ℓ} → (A → A → Bool) → Option A → Option A → Result GraphError (Option A)
seal same existing none = ok existing
seal same none (some update) = ok (some update)
seal same (some existing) (some update) =
    if same existing update then ok (some update) else err channel_sealed

seal_treatment : GovernanceResult → GovernanceResult → Result GraphError (Option GovernanceResult)
unfolding is_narrowing
seal_treatment existing update =
    if is_narrowing existing.treatment update.treatment
    then ok (some update)
    else err (treatment_widened existing.treatment update.treatment)

unfoldable pub seal_governance :
    Option GovernanceResult → Option GovernanceResult → Result GraphError (Option GovernanceResult)
unfolding seal_treatment
seal_governance existing none = ok existing
seal_governance none (some update) = ok (some update)
seal_governance (some existing) (some update) = seal_treatment existing update

unfoldable pub seal_human_decision :
    Option HumanDecisionRecord → Option HumanDecisionRecord → Option HumanDecisionRecord
seal_human_decision (some existing) update = some existing
seal_human_decision none update = update

pub record AgentState (Score : Type 0) : Type 0 where
  pub session_state : Option SessionState
  pub pending_interrupt : Option InterruptKind
  pub conversation : List ConversationTurn
  pub retrieved : List (RetrievedContext Score)
  pub grounding : Option (GroundingAssessment Score)
  pub classification : Option ClassificationView
  pub proposal : Option ProposedOperationView
  pub governance : Option GovernanceResult
  pub decision : Option HumanDecisionRecord
  pub execution : Option ExecutionRecord
  pub verification : Option VerificationRecord
