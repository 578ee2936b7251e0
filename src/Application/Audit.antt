-- ===== src/Application/Audit.antt =====
-- What is appended to the audit trail: ragcore/src/ragcore/application/audit.py, with the kinds and facts of
-- ragcore/src/ragcore/domain/audit.py. The identity of an event is new at each call and is left out.
use itsm_poc.Common.{Option, none, some, String, if◌then◌else◌}
use itsm_poc.Domain.Treatment.{
  ExecutionTreatment, ExecutionMethod, no_execution, VerificationOutcome,
}
use itsm_poc.Domain.Records.{TenantContext, CorrelationId, PrincipalId}
use itsm_poc.Governance.Gate.{
  GateOutcome, GateReason, tenant_not_admitted, treatment_refuses, auto_treatment, awaiting_consent,
  awaiting_approval, consent_granted, approval_granted, consent_refused, approval_rejected,
  wrong_decision_kind, not_the_requester, approver_holds_no_accepted_role,
  decision_bound_to_another_version, authorization_window_missing, knowledge_withheld,
  is_authorized,
}

pub data AuditEventKind : Type 0 where
  tenant_admitted tenant_refused operation_proposed treatment_assigned gate_refused consent_recorded
        approval_requested approval_decided authorization_expired work_claimed execution_attempted
        execution_recorded session_taken_over work_cancelled work_escalated :
      AuditEventKind

pub record ActorChain : Type 0 where
  pub executed_by : String
  pub execution_method : ExecutionMethod
  pub requested_by : Option PrincipalId
  pub approved_by : Option PrincipalId

pub record AuditFacts : Type 0 where
  pub kind : AuditEventKind
  pub outcome : String
  pub treatment : Option ExecutionTreatment
  pub verification : Option VerificationOutcome

-- The arguments of the sink's `record`.
pub record AuditEntry : Type 0 where
  pub tenant : TenantContext
  pub correlation_id : CorrelationId
  pub chain : ActorChain
  pub facts : AuditFacts

unfoldable pub gate_reason_value : GateReason → String
gate_reason_value tenant_not_admitted = "tenant_not_admitted"
gate_reason_value treatment_refuses = "treatment_refuses"
gate_reason_value auto_treatment = "auto_treatment"
gate_reason_value awaiting_consent = "awaiting_consent"
gate_reason_value awaiting_approval = "awaiting_approval"
gate_reason_value consent_granted = "consent_granted"
gate_reason_value approval_granted = "approval_granted"
gate_reason_value consent_refused = "consent_refused"
gate_reason_value approval_rejected = "approval_rejected"
gate_reason_value wrong_decision_kind = "wrong_decision_kind"
gate_reason_value not_the_requester = "not_the_requester"
gate_reason_value approver_holds_no_accepted_role = "approver_holds_no_accepted_role"
gate_reason_value decision_bound_to_another_version = "decision_bound_to_another_version"
gate_reason_value authorization_window_missing = "authorization_window_missing"
gate_reason_value knowledge_withheld = "knowledge_withheld"
gate_reason_value GateReason.authorization_expired = "authorization_expired"

unfoldable pub gate_outcome_entry :
    TenantContext
    → CorrelationId
    → GateOutcome
    → (requester : PrincipalId) → (approver : Option PrincipalId) → AuditEntry
unfolding is_authorized gate_reason_value
gate_outcome_entry tenant correlation o requester approver = record {
  tenant = tenant;
  correlation_id = correlation;
  chain = record {
    executed_by = "none";
    execution_method = no_execution;
    requested_by = some requester;
    approved_by = approver;
  };
  facts = record {
    kind = if is_authorized o then treatment_assigned else gate_refused;
    outcome = gate_reason_value o.reason;
    treatment = some o.treatment;
    verification = none;
  };
}

unfoldable pub execution_entry :
    TenantContext
    → CorrelationId
    → (requester : PrincipalId) → (approver : Option PrincipalId) → (executed_by : String)
    → ExecutionMethod
    → ExecutionTreatment
    → VerificationOutcome
    → (outcome : String) → AuditEntry
execution_entry tenant correlation requester approver executed_by method treatment verification
      outcome =
    record {
      tenant = tenant;
      correlation_id = correlation;
      chain = record {
        executed_by = executed_by;
        execution_method = method;
        requested_by = some requester;
        approved_by = approver;
      };
      facts = record {
        kind = execution_recorded;
        outcome = outcome;
        treatment = some treatment;
        verification = some verification;
      };
    }

unfoldable pub escalation_entry :
    TenantContext → CorrelationId → (requester : PrincipalId) → (reason : String) → AuditEntry
escalation_entry tenant correlation requester reason = record {
  tenant = tenant;
  correlation_id = correlation;
  chain = record {
    executed_by = "none";
    execution_method = no_execution;
    requested_by = some requester;
    approved_by = none;
  };
  facts = record { kind = work_escalated; outcome = reason; treatment = none; verification = none };
}
