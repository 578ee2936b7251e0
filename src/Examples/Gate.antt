-- ===== src/Examples/Gate.antt =====
-- Tests of the gate, and its theorems applied.
use itsm_poc.Common.{ℕ, Result, [], true, ◌⊎◌, err, ◌≡◌, refl, none, some, ok, arith}
use itsm_poc.Domain.Treatment.{workload, server_confirmed, auto, end_user_approval, staff_approval}
use itsm_poc.Domain.Roles.{role_set_of, contains, is_empty, technician, evaluate_roles, intersects}
use itsm_poc.Domain.Work.{consent}
use itsm_poc.Domain.Records.{
  CatalogueEntry, no_members, end_user, staff, is_admitted, same_identity, same_principal,
}
use itsm_poc.Governance.Conditions.{withholds}
use itsm_poc.Governance.Policy.{assign_treatment, catalogue_default}
use itsm_poc.Governance.Policy.Rules.{Stands}
use itsm_poc.Governance.Gate.{
  knowledge_withheld, GateRequest, GateOutcome, evaluate, is_authorized, suspends_on, proceed,
  refuse, wrong_decision_kind, consent_granted, approval_granted,
}
use itsm_poc.Governance.Gate.Agreement.{MayProceed}
use itsm_poc.Governance.Gate.Authorization.{evaluate-MayProceed}
use itsm_poc.Governance.Gate.Outcomes.{with_knowledge, evaluate_suspends, AsksFor}
use itsm_poc.Execution.Idempotency.{KeyText}
use itsm_poc.Execution.Legs.{
  LegRequest, ToolCall, ToolResult, ExecutionError, Called, run_execution, unauthorized,
  calls-MayProceed,
}
use itsm_poc.Examples.Inputs.{
  reset, technicians, entry, alice_agrees, bob_approves, request, ungrounded,
}

entitled-Stands : Stands (entry staff_approval) true
unfolding technicians role_set_of is_empty
entitled-Stands = record { entitled = refl; no_elevation = refl; approvable = λ e. refl }

approved_request :
    MayProceed (request staff_approval (some (staff bob_approves))) (entry staff_approval)
unfolding withholds contains technicians role_set_of
approved_request = record {
  admitted = refl;
  registered = refl;
  stands = entitled-Stands;
  grounded = refl;
  human = (
    bob_approves,
    record {
      recorded = refl;
      bound = refl;
      role = technician;
      accepted = (refl, refl);
      given = refl;
      window = record { expires = 1900; opened = refl; inside = omega arith };
    },
  );
}

evaluate-MayProceed_example :
    let r = request staff_approval (some (staff bob_approves)) in
    (o : GateOutcome) × (evaluate r ≡ ok o) × (is_authorized o ≡ true)
evaluate-MayProceed_example =
    (evaluate-MayProceed (request staff_approval (some (staff bob_approves)))).1
      (entry staff_approval) approved_request

-- The whole gate, open for tests.
gate_opens : Unit {0}
unfolding evaluate assign_treatment evaluate_roles is_admitted withholds technicians role_set_of
    same_identity same_principal
gate_opens = tt

consent_cannot_approve :
    evaluate (request staff_approval (some (end_user alice_agrees)))
    ≡ ok (record {
      disposition = refuse;
      treatment = staff_approval;
      treatment_reason = catalogue_default;
      reason = wrong_decision_kind;
      authorization = none;
    })
unfolding gate_opens
consent_cannot_approve = refl

consented :
    evaluate (request end_user_approval (some (end_user alice_agrees)))
    ≡ ok (record {
      disposition = proceed;
      treatment = end_user_approval;
      treatment_reason = catalogue_default;
      reason = consent_granted;
      authorization = none;
    })
unfolding gate_opens
consented = refl

evaluate_suspends_example :
    let r = request end_user_approval none in
    (o : GateOutcome) × (evaluate r ≡ ok o)
    × ((k : itsm_poc.Domain.Work.InterruptKind)
        → suspends_on o ≡ some k
        → (r.decision ≡ none) × AsksFor k o.treatment)
evaluate_suspends_example = evaluate_suspends (request end_user_approval none)

abbrev withheld_request : GateRequest ℕ
withheld_request = with_knowledge (request auto none) ungrounded

abbrev withheld_answer : GateOutcome
withheld_answer = record {
  disposition = refuse;
  treatment = auto;
  treatment_reason = catalogue_default;
  reason = knowledge_withheld;
  authorization = none;
}

withheld : evaluate withheld_request ≡ ok withheld_answer
unfolding gate_opens
withheld = refl

abbrev approved_answer : GateOutcome
approved_answer = record {
  disposition = proceed;
  treatment = staff_approval;
  treatment_reason = catalogue_default;
  reason = approval_granted;
  authorization =
      some (evaluate_roles bob_approves.roles_held (entry staff_approval).accepted_roles);
}

approved_answers :
    evaluate (request staff_approval (some (staff bob_approves))) ≡ ok approved_answer
unfolding gate_opens intersects
approved_answers = refl

abbrev keys : KeyText
keys = record { uuid_text = λ id. "0007"; format = λ parts. "key"; sha256_hex = λ text. text }

abbrev leg_request : LegRequest
leg_request = record {
  work_item_id = record { value = 7 };
  operation_id = record { value = 60 };
  identity = reset;
  parameters = no_members;
  verification_tool = none;
  correlation_id = record { value = "c1" };
  method = workload;
}

abbrev confirms : ToolCall → Result ExecutionError ToolResult
confirms call = ok (record { succeeded = true; verification = server_confirmed })

calls-MayProceed_example :
    (((found : CatalogueEntry) × MayProceed
          (request staff_approval (some (staff bob_approves)))
          found)
      × Called keys confirms (request staff_approval (some (staff bob_approves))) leg_request (
          run_execution keys confirms
            (request staff_approval (some (staff bob_approves))).tenant
            approved_answer
            leg_request))
    ⊎ (((found : CatalogueEntry)
          → ¬ MayProceed (request staff_approval (some (staff bob_approves))) found)
        × ((run_execution keys confirms
              (request staff_approval (some (staff bob_approves))).tenant
              approved_answer
              leg_request).calls
            ≡ [])
        × ((run_execution keys confirms
              (request staff_approval (some (staff bob_approves))).tenant
              approved_answer
              leg_request).report
            ≡ err (unauthorized approved_answer.disposition)))
calls-MayProceed_example =
    calls-MayProceed keys confirms (request staff_approval (some (staff bob_approves)))
      approved_answer leg_request approved_answers refl refl
