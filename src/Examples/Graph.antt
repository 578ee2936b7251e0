-- ===== src/Examples/Graph.antt =====
-- A run of the graph from the start to the end, and the theorems on runs applied to it.
use itsm_poc.Common.{
  ℕ, Bool, true, none, some, List, [], ◌∷◌, length, Result, ok, err, All, ◌≡◌, ◌≢◌, refl, ◌⊎◌, ◌==◌,
}
use itsm_poc.Domain.Treatment.{auto, server_confirmed}
use itsm_poc.Domain.Records.{no_members}
use itsm_poc.Graph.State.{AgentState, from_end_user, ExecutionRecord, VerificationRecord}
use itsm_poc.Graph.Scope.{TextMethods}
use itsm_poc.Graph.Ports.{RunContext, Answers}
use itsm_poc.Graph.Builder.{Config, Place, at_verify, at_end, start, run, started, Reachable}
use itsm_poc.Graph.Builder.Runs.{
  Justified, invocations-Justified, invokes_once, run-Reachable, after,
}
use itsm_poc.Governance.Policy.{catalogue_default, not_entitled}
use itsm_poc.Governance.Gate.{
  proceed, refuse, auto_treatment, treatment_refuses, knowledge_withheld,
}
use itsm_poc.Graph.State.{GovernanceResult, HumanDecisionRecord, consent_decision, seal_governance}
use itsm_poc.Graph.State.Sealing.{fold_governance}
use itsm_poc.Graph.Ports.{Update, nothing}
use itsm_poc.Graph.Nodes.{govern}
use itsm_poc.Graph.Nodes.Knowledge.{govern_never_withholds}
use itsm_poc.Domain.Treatment.{is_narrowing, strictness, not_allowed}
use itsm_poc.Examples.Inputs.{technicians, cents, tenant, reset, alice, entry}

abbrev methods : TextMethods
methods = record {
  split = λ text. text ∷ [];
  strip = λ text. text;
  strip_marks = λ marks text. text;
  rstrip_marks = λ marks text. text;
  lower = λ text. text;
  len = λ text. 30;
}

abbrev context : RunContext
context = record {
  tenant = tenant;
  requester = alice;
  correlation_id = record { value = "c3" };
  session_id = record { value = 4 };
  work_item_id = some (record { value = 9 });
}

abbrev answer : Answers ℕ
answer = record {
  now = 1500;
  lookup = λ identity. some (entry auto);
  is_entitled = λ id. true;
  verdict_for = λ id. none;
  consent_for = λ id. none;
  search = λ query. [];
  reply = record { message_id = "m2"; sender = from_end_user; content = "yes"; occurred_at = 1500 };
  invoke = λ call. record { succeeded = true; verification = server_confirmed };
}

abbrev blank : AgentState ℕ
blank = record {
  session_state = none;
  pending_interrupt = none;
  conversation =
      record { message_id = "m1"; sender = from_end_user; content = "password"; occurred_at = 1400 }
      ∷ [];
  retrieved = [];
  grounding = none;
  classification = none;
  proposal = some (record { identity = reset; parameters = no_members; rationale = "" });
  governance = none;
  decision = none;
  execution = none;
  verification = none;
}

abbrev same_execution : ExecutionRecord → ExecutionRecord → Bool
same_execution a b = a.attempted_at == b.attempted_at

abbrev same_verification : VerificationRecord → VerificationRecord → Bool
same_verification a b = a.verified_at == b.verified_at

abbrev answers : List (Answers ℕ)
answers = answer ∷ answer ∷ answer ∷ answer ∷ answer ∷ answer ∷ answer ∷ answer ∷ answer ∷ []

abbrev config_or : Config ℕ → {E : Type 0} → Result E (Config ℕ) → Config ℕ
config_or c (ok d) = d
config_or c (err e) = c

unfoldable final : Config ℕ
final = config_or (start cents methods same_execution same_verification blank) (
    run cents methods same_execution same_verification context answers
      (start cents methods same_execution same_verification blank))

final_calls : length final.calls ≡ 1
unfolding final technicians itsm_poc.Domain.Roles.permit itsm_poc.Domain.Roles.role_set_of
    itsm_poc.Domain.Roles.same_role itsm_poc.Domain.Treatment.is_narrowing
    itsm_poc.Domain.Treatment.strictness itsm_poc.Domain.Records.is_admitted
    itsm_poc.Governance.Conditions.not_required itsm_poc.Governance.Conditions.withholds
    itsm_poc.Governance.Gate.evaluate itsm_poc.Governance.Gate.evaluate_approval
    itsm_poc.Governance.Gate.evaluate_consent itsm_poc.Governance.Gate.suspends_on
    itsm_poc.Governance.Gate.window_refusal itsm_poc.Governance.Gate.withhold
    itsm_poc.Governance.Policy.assign_treatment itsm_poc.Governance.Policy.narrowed
    itsm_poc.Graph.Builder.run itsm_poc.Graph.Builder.start itsm_poc.Graph.Builder.step
    itsm_poc.Graph.Builder.run_node itsm_poc.Graph.Builder.merge itsm_poc.Graph.Builder.edge
    itsm_poc.Graph.Builder.route_after_govern itsm_poc.Graph.Builder.route_after_guardrail
    itsm_poc.Graph.Builder.route_after_propose itsm_poc.Graph.Nodes.Interrupts.await_approval
    itsm_poc.Graph.Nodes.Interrupts.await_consent itsm_poc.Graph.Nodes.clarify
    itsm_poc.Graph.Nodes.classify itsm_poc.Graph.Nodes.close itsm_poc.Graph.Nodes.converse
    itsm_poc.Graph.Nodes.execute itsm_poc.Graph.Nodes.expiry itsm_poc.Graph.Nodes.gate_request
    itsm_poc.Graph.Nodes.govern itsm_poc.Graph.Nodes.governed itsm_poc.Graph.Nodes.ground
    itsm_poc.Graph.Nodes.guardrail itsm_poc.Graph.Nodes.intake
    itsm_poc.Graph.Nodes.latest_user_content itsm_poc.Graph.Nodes.propose
    itsm_poc.Graph.Nodes.recorded_decision itsm_poc.Graph.Nodes.retrieve itsm_poc.Graph.Nodes.verify
    itsm_poc.Graph.Scope.acknowledgements itsm_poc.Graph.Scope.assess_triage
    itsm_poc.Graph.Scope.commits_work itsm_poc.Graph.Scope.in_scope itsm_poc.Graph.Scope.mentions
    itsm_poc.Graph.Scope.out_of_scope_vocabulary itsm_poc.Graph.Scope.words_of
    itsm_poc.Graph.Scope.it_vocabulary itsm_poc.Graph.Scope.classify_scope
    itsm_poc.Graph.State.seal_human_decision itsm_poc.Graph.State.seal
    itsm_poc.Graph.State.seal_governance itsm_poc.Graph.State.append_channel
    itsm_poc.Retrieval.Confidence.assess itsm_poc.Retrieval.Confidence.assess_scores
    itsm_poc.Retrieval.Confidence.clears_thresholds itsm_poc.Retrieval.Confidence.insert_desc
    itsm_poc.Retrieval.Confidence.minimum_margin itsm_poc.Retrieval.Confidence.minimum_top_score
    itsm_poc.Retrieval.Confidence.sorted_desc
final_calls = refl

final_runs :
    run cents methods same_execution same_verification context answers
      (start cents methods same_execution same_verification blank)
    ≡ ok final
unfolding final technicians itsm_poc.Domain.Roles.permit itsm_poc.Domain.Roles.role_set_of
    itsm_poc.Domain.Roles.same_role itsm_poc.Domain.Treatment.is_narrowing
    itsm_poc.Domain.Treatment.strictness itsm_poc.Domain.Records.is_admitted
    itsm_poc.Governance.Conditions.not_required itsm_poc.Governance.Conditions.withholds
    itsm_poc.Governance.Gate.evaluate itsm_poc.Governance.Gate.evaluate_approval
    itsm_poc.Governance.Gate.evaluate_consent itsm_poc.Governance.Gate.suspends_on
    itsm_poc.Governance.Gate.window_refusal itsm_poc.Governance.Gate.withhold
    itsm_poc.Governance.Policy.assign_treatment itsm_poc.Governance.Policy.narrowed
    itsm_poc.Graph.Builder.run itsm_poc.Graph.Builder.start itsm_poc.Graph.Builder.step
    itsm_poc.Graph.Builder.run_node itsm_poc.Graph.Builder.merge itsm_poc.Graph.Builder.edge
    itsm_poc.Graph.Builder.route_after_govern itsm_poc.Graph.Builder.route_after_guardrail
    itsm_poc.Graph.Builder.route_after_propose itsm_poc.Graph.Nodes.Interrupts.await_approval
    itsm_poc.Graph.Nodes.Interrupts.await_consent itsm_poc.Graph.Nodes.clarify
    itsm_poc.Graph.Nodes.classify itsm_poc.Graph.Nodes.close itsm_poc.Graph.Nodes.converse
    itsm_poc.Graph.Nodes.execute itsm_poc.Graph.Nodes.expiry itsm_poc.Graph.Nodes.gate_request
    itsm_poc.Graph.Nodes.govern itsm_poc.Graph.Nodes.governed itsm_poc.Graph.Nodes.ground
    itsm_poc.Graph.Nodes.guardrail itsm_poc.Graph.Nodes.intake
    itsm_poc.Graph.Nodes.latest_user_content itsm_poc.Graph.Nodes.propose
    itsm_poc.Graph.Nodes.recorded_decision itsm_poc.Graph.Nodes.retrieve itsm_poc.Graph.Nodes.verify
    itsm_poc.Graph.Scope.acknowledgements itsm_poc.Graph.Scope.assess_triage
    itsm_poc.Graph.Scope.commits_work itsm_poc.Graph.Scope.in_scope itsm_poc.Graph.Scope.mentions
    itsm_poc.Graph.Scope.out_of_scope_vocabulary itsm_poc.Graph.Scope.words_of
    itsm_poc.Graph.Scope.it_vocabulary itsm_poc.Graph.Scope.classify_scope
    itsm_poc.Graph.State.seal_human_decision itsm_poc.Graph.State.seal
    itsm_poc.Graph.State.seal_governance itsm_poc.Graph.State.append_channel
    itsm_poc.Retrieval.Confidence.assess itsm_poc.Retrieval.Confidence.assess_scores
    itsm_poc.Retrieval.Confidence.clears_thresholds itsm_poc.Retrieval.Confidence.insert_desc
    itsm_poc.Retrieval.Confidence.minimum_margin itsm_poc.Retrieval.Confidence.minimum_top_score
    itsm_poc.Retrieval.Confidence.sorted_desc
final_runs = refl

finished :
    Reachable cents methods same_execution same_verification context
      (after cents methods same_execution same_verification context [] answers)
      final
finished =
    run-Reachable cents methods same_execution same_verification context [] answers (started blank)
      final_runs

invocations-Justified_example :
    All
      (Justified cents methods same_execution same_verification context
        (after cents methods same_execution same_verification context [] answers))
      final.calls
invocations-Justified_example =
    invocations-Justified cents methods same_execution same_verification context finished

invokes_once_example :
    (final.calls ≡ [])
    ⊎ (((final.place ≡ at_verify) ⊎ (final.place ≡ at_end)) × (length final.calls ≡ 1))
invokes_once_example = invokes_once cents methods same_execution same_verification context finished

abbrev gate_answer : GovernanceResult
gate_answer = record {
  treatment = auto;
  treatment_reason = catalogue_default;
  disposition = proceed;
  reason = auto_treatment;
  decided_at = 1500;
}

abbrev update_or : Update ℕ → {E : Type 0} → Result E (Update ℕ) → Update ℕ
update_or u (ok v) = v
update_or u (err e) = u

unfoldable written : Update ℕ
written = update_or nothing (govern cents context answer blank)

govern_returns : govern cents context answer blank ≡ ok written
unfolding technicians itsm_poc.Domain.Roles.permit itsm_poc.Domain.Roles.role_set_of
    itsm_poc.Domain.Roles.same_role itsm_poc.Domain.Treatment.is_narrowing
    itsm_poc.Domain.Treatment.strictness itsm_poc.Domain.Records.is_admitted
    itsm_poc.Governance.Conditions.not_required itsm_poc.Governance.Conditions.withholds
    itsm_poc.Governance.Gate.evaluate itsm_poc.Governance.Gate.evaluate_approval
    itsm_poc.Governance.Gate.evaluate_consent itsm_poc.Governance.Gate.suspends_on
    itsm_poc.Governance.Gate.window_refusal itsm_poc.Governance.Gate.withhold
    itsm_poc.Governance.Policy.assign_treatment itsm_poc.Governance.Policy.narrowed
    itsm_poc.Graph.Builder.run itsm_poc.Graph.Builder.start itsm_poc.Graph.Builder.step
    itsm_poc.Graph.Builder.run_node itsm_poc.Graph.Builder.merge itsm_poc.Graph.Builder.edge
    itsm_poc.Graph.Builder.route_after_govern itsm_poc.Graph.Builder.route_after_guardrail
    itsm_poc.Graph.Builder.route_after_propose itsm_poc.Graph.Nodes.Interrupts.await_approval
    itsm_poc.Graph.Nodes.Interrupts.await_consent itsm_poc.Graph.Nodes.clarify
    itsm_poc.Graph.Nodes.classify itsm_poc.Graph.Nodes.close itsm_poc.Graph.Nodes.converse
    itsm_poc.Graph.Nodes.execute itsm_poc.Graph.Nodes.expiry itsm_poc.Graph.Nodes.gate_request
    itsm_poc.Graph.Nodes.govern itsm_poc.Graph.Nodes.governed itsm_poc.Graph.Nodes.ground
    itsm_poc.Graph.Nodes.guardrail itsm_poc.Graph.Nodes.intake
    itsm_poc.Graph.Nodes.latest_user_content itsm_poc.Graph.Nodes.propose
    itsm_poc.Graph.Nodes.recorded_decision itsm_poc.Graph.Nodes.retrieve itsm_poc.Graph.Nodes.verify
    itsm_poc.Graph.Scope.acknowledgements itsm_poc.Graph.Scope.assess_triage
    itsm_poc.Graph.Scope.commits_work itsm_poc.Graph.Scope.in_scope itsm_poc.Graph.Scope.mentions
    itsm_poc.Graph.Scope.out_of_scope_vocabulary itsm_poc.Graph.Scope.words_of
    itsm_poc.Graph.Scope.it_vocabulary itsm_poc.Graph.Scope.classify_scope
    itsm_poc.Graph.State.seal_human_decision itsm_poc.Graph.State.seal
    itsm_poc.Graph.State.seal_governance itsm_poc.Graph.State.append_channel
    itsm_poc.Retrieval.Confidence.assess itsm_poc.Retrieval.Confidence.assess_scores
    itsm_poc.Retrieval.Confidence.clears_thresholds itsm_poc.Retrieval.Confidence.insert_desc
    itsm_poc.Retrieval.Confidence.minimum_margin itsm_poc.Retrieval.Confidence.minimum_top_score
    itsm_poc.Retrieval.Confidence.sorted_desc written
govern_returns = refl

govern_writes : written.governance ≡ some gate_answer
unfolding technicians itsm_poc.Domain.Roles.permit itsm_poc.Domain.Roles.role_set_of
    itsm_poc.Domain.Roles.same_role itsm_poc.Domain.Treatment.is_narrowing
    itsm_poc.Domain.Treatment.strictness itsm_poc.Domain.Records.is_admitted
    itsm_poc.Governance.Conditions.not_required itsm_poc.Governance.Conditions.withholds
    itsm_poc.Governance.Gate.evaluate itsm_poc.Governance.Gate.evaluate_approval
    itsm_poc.Governance.Gate.evaluate_consent itsm_poc.Governance.Gate.suspends_on
    itsm_poc.Governance.Gate.window_refusal itsm_poc.Governance.Gate.withhold
    itsm_poc.Governance.Policy.assign_treatment itsm_poc.Governance.Policy.narrowed
    itsm_poc.Graph.Builder.run itsm_poc.Graph.Builder.start itsm_poc.Graph.Builder.step
    itsm_poc.Graph.Builder.run_node itsm_poc.Graph.Builder.merge itsm_poc.Graph.Builder.edge
    itsm_poc.Graph.Builder.route_after_govern itsm_poc.Graph.Builder.route_after_guardrail
    itsm_poc.Graph.Builder.route_after_propose itsm_poc.Graph.Nodes.Interrupts.await_approval
    itsm_poc.Graph.Nodes.Interrupts.await_consent itsm_poc.Graph.Nodes.clarify
    itsm_poc.Graph.Nodes.classify itsm_poc.Graph.Nodes.close itsm_poc.Graph.Nodes.converse
    itsm_poc.Graph.Nodes.execute itsm_poc.Graph.Nodes.expiry itsm_poc.Graph.Nodes.gate_request
    itsm_poc.Graph.Nodes.govern itsm_poc.Graph.Nodes.governed itsm_poc.Graph.Nodes.ground
    itsm_poc.Graph.Nodes.guardrail itsm_poc.Graph.Nodes.intake
    itsm_poc.Graph.Nodes.latest_user_content itsm_poc.Graph.Nodes.propose
    itsm_poc.Graph.Nodes.recorded_decision itsm_poc.Graph.Nodes.retrieve itsm_poc.Graph.Nodes.verify
    itsm_poc.Graph.Scope.acknowledgements itsm_poc.Graph.Scope.assess_triage
    itsm_poc.Graph.Scope.commits_work itsm_poc.Graph.Scope.in_scope itsm_poc.Graph.Scope.mentions
    itsm_poc.Graph.Scope.out_of_scope_vocabulary itsm_poc.Graph.Scope.words_of
    itsm_poc.Graph.Scope.it_vocabulary itsm_poc.Graph.Scope.classify_scope
    itsm_poc.Graph.State.seal_human_decision itsm_poc.Graph.State.seal
    itsm_poc.Graph.State.seal_governance itsm_poc.Graph.State.append_channel
    itsm_poc.Retrieval.Confidence.assess itsm_poc.Retrieval.Confidence.assess_scores
    itsm_poc.Retrieval.Confidence.clears_thresholds itsm_poc.Retrieval.Confidence.insert_desc
    itsm_poc.Retrieval.Confidence.minimum_margin itsm_poc.Retrieval.Confidence.minimum_top_score
    itsm_poc.Retrieval.Confidence.sorted_desc written
govern_writes = refl

govern_never_withholds_example : auto_treatment ≢ knowledge_withheld
govern_never_withholds_example =
    govern_never_withholds cents context answer blank govern_returns govern_writes

abbrev stricter : GovernanceResult
stricter = record {
  treatment = not_allowed;
  treatment_reason = not_entitled;
  disposition = refuse;
  reason = treatment_refuses;
  decided_at = 1600;
}

twice_governed : fold_governance (some gate_answer) (none ∷ some stricter ∷ []) ≡ ok (some stricter)
unfolding fold_governance seal_governance is_narrowing strictness
twice_governed = refl

abbrev decision : HumanDecisionRecord
decision = record {
  kind = consent_decision;
  decision_id = 31;
  decided_by = alice;
  favourable = true;
  decided_at = 1000;
  expires_at = none;
}
