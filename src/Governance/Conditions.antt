-- ===== src/Governance/Conditions.antt =====
-- The three conditions: ragcore/src/ragcore/governance/conditions.py.
use itsm_poc.Common.{Bool, true, false, not, ◌&&◌, List, [], ◌∷◌, ◌++◌, if◌then◌else◌}
use itsm_poc.Retrieval.Scores.{Scores}
use itsm_poc.Retrieval.Confidence

pub data ConditionOutcome : Type 0 where
  met not_met : ConditionOutcome

pub data ConditionKind : Type 0 where
  knowledge ability security : ConditionKind

abbrev pub is_met : ConditionOutcome → Bool
is_met met = true
is_met not_met = false

pub record KnowledgeCondition (Score : Type 0) : Type 0 where
  pub outcome : ConditionOutcome
  pub top_score : Score
  pub margin : Score
  pub required : Bool

pub record AbilityCondition : Type 0 where
  pub outcome : ConditionOutcome
  pub is_registered : Bool
  pub is_entitled : Bool

pub record SecurityCondition : Type 0 where
  pub outcome : ConditionOutcome
  pub is_authorized : Bool

abbrev pub met_if : Bool → ConditionOutcome
met_if b = if b then met else not_met

unfoldable pub withholds : {Score : Type 0} → KnowledgeCondition Score → Bool
withholds k = k.required && not (is_met k.outcome)

module _ (f : Scores) where
  open f use {Score, hundredths}

  unfoldable pub not_required : KnowledgeCondition Score
  not_required = record {
    outcome = met;
    top_score = hundredths 0;
    margin = hundredths 0;
    required = false;
  }

  unfoldable pub assess_knowledge :
      {Chunk : Type 0} → (Chunk → Score) → List Chunk → KnowledgeCondition Score
  assess_knowledge score chunks =
      let confidence = Confidence.assess f score chunks in
      record {
        outcome = met_if confidence.is_confident;
        top_score = confidence.top_score;
        margin = confidence.margin;
        required = true;
      }

unfoldable pub assess_ability : Bool → Bool → AbilityCondition
assess_ability is_registered is_entitled = record {
  outcome = met_if (is_registered && is_entitled);
  is_registered = is_registered;
  is_entitled = is_entitled;
}

unfoldable pub assess_security : Bool → SecurityCondition
assess_security is_authorized = record {
  outcome = met_if is_authorized;
  is_authorized = is_authorized;
}

pub record ConditionSet (Score : Type 0) : Type 0 where
  pub knowledge : KnowledgeCondition Score
  pub ability : AbilityCondition
  pub security : SecurityCondition

unfoldable pub proceeds : {Score : Type 0} → ConditionSet Score → Bool
unfolding withholds
proceeds c = c.security.is_authorized && (is_met c.ability.outcome && not (withholds c.knowledge))

abbrev note_if : Bool → ConditionKind → List ConditionKind → List ConditionKind
note_if b k blocked = if b then blocked ++ k ∷ [] else blocked

unfoldable pub withheld_by : {Score : Type 0} → ConditionSet Score → List ConditionKind
unfolding withholds
withheld_by c =
    let blocked = note_if (withholds c.knowledge) knowledge [] in
    let blocked' = note_if (not (is_met c.ability.outcome)) ability blocked in
    note_if (not c.security.is_authorized) security blocked'

unfoldable pub evaluate_conditions :
    {Score : Type 0}
    → KnowledgeCondition Score
    → AbilityCondition
    → SecurityCondition
    → ConditionSet Score
evaluate_conditions k a s = record { knowledge = k; ability = a; security = s }
