-- ===== src/Governance/Gate/Outcomes.antt =====
-- How the gate's outcome depends on the knowledge condition and the recorded decision.
use itsm_poc.Common.{
  ok-injective, true, false, ◌≡◌, ◌≢◌, refl, ap, sym, ◌∙◌, Option, none, some, ok, arith,
}
use itsm_poc.Domain.Treatment.{
  ExecutionTreatment, auto, end_user_approval, staff_approval, not_allowed,
}
use itsm_poc.Domain.Work.{InterruptKind, clarification, consent, approval}
use itsm_poc.Domain.Records.{
  EndUserConsent, StaffVerdict, RecordedDecision, staff, end_user, CatalogueEntry,
}
use itsm_poc.Governance.Conditions.{KnowledgeCondition, withholds}
use itsm_poc.Governance.Policy.{TreatmentDecision}
use itsm_poc.Governance.Policy.Rules.{treatment_of, assign_treatment_total}
use itsm_poc.Governance.Gate.{
  GateRequest, GateOutcome, evaluate, decide_under, suspends_on, human_decision, withhold,
  evaluate_consent, evaluate_approval, consent_branch, approval_branch, consent_given,
  verdict_given, refuse,
}

-- The request with another knowledge condition.
abbrev pub with_knowledge :
    {Score : Type 0} → GateRequest Score → KnowledgeCondition Score → GateRequest Score
with_knowledge r k = record r { knowledge = k }

module _ {Score : Type 0} (r : GateRequest Score) (k k' : KnowledgeCondition Score) where
  consent_same :
      (t : TreatmentDecision) (o : Option RecordedDecision)
      → consent_branch (with_knowledge r k) t o ≡ consent_branch (with_knowledge r k') t o
  unfolding consent_branch
  consent_same t none = refl
  consent_same t (some (staff d)) = refl
  consent_same t (some (end_user d)) = refl

  approval_same :
      (t : TreatmentDecision) (entry : CatalogueEntry) (o : Option RecordedDecision)
      → approval_branch (with_knowledge r k) t entry o
        ≡ approval_branch (with_knowledge r k') t entry o
  unfolding approval_branch
  approval_same t entry none = refl
  approval_same t entry (some (staff d)) = refl
  approval_same t entry (some (end_user d)) = refl

  human_same :
      (t : TreatmentDecision) (treatment : ExecutionTreatment) (o : Option CatalogueEntry)
      → human_decision (with_knowledge r k) t treatment o
        ≡ human_decision (with_knowledge r k') t treatment o
  unfolding human_decision evaluate_consent evaluate_approval
  human_same t auto none = refl
  human_same t _ none = refl
  human_same t end_user_approval (some entry) = consent_same t r.decision
  human_same t _ (some entry) = approval_same t entry r.decision

  decide_same :
      (t : TreatmentDecision)
      → withholds k ≡ false
      → withholds k' ≡ false
      → decide_under (with_knowledge r k) t ≡ decide_under (with_knowledge r k') t
  unfolding decide_under
  decide_same t h h' = rw (h, h', human_same t t.treatment r.entry)

  decide_withheld :
      (t : TreatmentDecision)
      → withholds k ≡ true
      → (decide_under (with_knowledge r k) t).disposition ≡ refuse
  unfolding decide_under withhold
  decide_withheld t h = ground arith

-- The outcome is the one that the policy's answer leads to.
evaluate_under :
    {Score : Type 0} (r : GateRequest Score)
    → evaluate r ≡ ok (decide_under r (treatment_of r.entry r.is_entitled))
unfolding evaluate
evaluate_under r = rw (assign_treatment_total r.entry r.is_entitled)

-- Knowledge may withhold and never authorizes: a condition that withholds makes the gate refuse, and
-- two conditions that do not withhold, whatever their scores, give the same outcome.
pub knowledge_only_withholds :
    {Score : Type 0} (r : GateRequest Score) (k k' : KnowledgeCondition Score)
    → (withholds k ≡ true
        → (o : GateOutcome) → evaluate (with_knowledge r k) ≡ ok o
        → o.disposition ≡ refuse)
      × (withholds k ≡ false
          → withholds k' ≡ false
          → evaluate (with_knowledge r k) ≡ evaluate (with_knowledge r k'))
knowledge_only_withholds r k k' = (
  λ h o e.
      rw (← ok-injective (sym (evaluate_under (with_knowledge r k)) ∙ e))
        (decide_withheld r k k' _ h),
  λ h h'.
      evaluate_under (with_knowledge r k)
      ∙ ap ok (decide_same r k k' _ h h')
      ∙ sym (evaluate_under (with_knowledge r k')),
)

-- What the gate waits for when it suspends.
abbrev pub AsksFor : InterruptKind → ExecutionTreatment → Type 0
AsksFor clarification t = ⊥
AsksFor consent t = t ≡ end_user_approval
AsksFor approval t = t ≡ staff_approval

module _ {Score : Type 0} (r : GateRequest Score) (t : TreatmentDecision) where
  consent_given_final : (d : EndUserConsent) → suspends_on (consent_given r t d) ≡ none
  unfolding consent_given suspends_on
  consent_given_final d = ground arith

  verdict_given_final :
      (entry : CatalogueEntry) (d : StaffVerdict) → suspends_on (verdict_given r t entry d) ≡ none
  unfolding verdict_given suspends_on
  verdict_given_final entry d = ground arith

  consent_asks :
      (o : Option RecordedDecision) (k : InterruptKind)
      → suspends_on (consent_branch r t o) ≡ some k
      → (o ≡ none) × (k ≡ consent)
  unfolding consent_branch suspends_on
  consent_asks none k h = (refl, cc)
  consent_asks (some (staff d)) k h = cc
  consent_asks (some (end_user d)) k h = cc (consent_given_final d)

  approval_asks :
      (entry : CatalogueEntry) (o : Option RecordedDecision) (k : InterruptKind)
      → suspends_on (approval_branch r t entry o) ≡ some k
      → (o ≡ none) × (k ≡ approval)
  unfolding approval_branch suspends_on
  approval_asks entry none k h = (refl, cc)
  approval_asks entry (some (end_user d)) k h = cc
  approval_asks entry (some (staff d)) k h = cc (verdict_given_final entry d)

  human_asks :
      (treatment : ExecutionTreatment) (o : Option CatalogueEntry) (k : InterruptKind)
      → treatment ≢ auto
      → treatment ≢ not_allowed
      → suspends_on (human_decision r t treatment o) ≡ some k
      → (r.decision ≡ none) × AsksFor k treatment
  unfolding human_decision evaluate_consent evaluate_approval suspends_on
  human_asks auto o k a n h = absurd (a refl)
  human_asks not_allowed o k a n h = absurd (n refl)
  human_asks end_user_approval none k a n h = cc
  human_asks staff_approval none k a n h = cc
  human_asks end_user_approval (some entry) k a n h =
      let (undecided, e) = consent_asks r.decision k h in (undecided, rw e refl)
  human_asks staff_approval (some entry) k a n h =
      let (undecided, e) = approval_asks entry r.decision k h in (undecided, rw e refl)

  human_keeps :
      (treatment : ExecutionTreatment) (o : Option CatalogueEntry)
      → (human_decision r t treatment o).treatment ≡ t.treatment
  unfolding human_decision evaluate_consent evaluate_approval consent_branch approval_branch
      consent_given verdict_given
  human_keeps treatment o = ground arith

  decide_keeps : (decide_under r t).treatment ≡ t.treatment
  unfolding decide_under withhold
  decide_keeps = ground (arith, human_keeps t.treatment r.entry)

  decide_asks :
      (k : InterruptKind)
      → suspends_on (decide_under r t) ≡ some k
      → (t.treatment ≢ auto)
        × (t.treatment ≢ not_allowed)
        × (suspends_on (human_decision r t t.treatment r.entry) ≡ some k)
  unfolding decide_under withhold suspends_on
  decide_asks k h = (λ e. ground arith, λ e. ground arith, ground arith)

  decide_suspends :
      (k : InterruptKind)
      → suspends_on (decide_under r t) ≡ some k
      → (r.decision ≡ none) × AsksFor k (decide_under r t).treatment
  decide_suspends k h =
      let (a, n, e) = decide_asks k h in rw decide_keeps (human_asks t.treatment r.entry k a n e)

-- The gate raises no exception, and it suspends only while nothing is decided, on the interrupt that
-- the assigned treatment asks for; it never asks for a clarification.
pub evaluate_suspends :
    {Score : Type 0} (r : GateRequest Score)
    → (o : GateOutcome) × (evaluate r ≡ ok o)
      × ((k : InterruptKind) → suspends_on o ≡ some k → (r.decision ≡ none) × AsksFor k o.treatment)
evaluate_suspends r =
    (decide_under r (treatment_of r.entry r.is_entitled), evaluate_under r, decide_suspends r _)
