-- ===== src/Graph/State/Sealing.antt =====
-- What the reducers keep over a whole run of writes.
use itsm_poc.Common.{
  Bool, true, ◌≡◌, refl, sym, ap, subst, ◌∙◌, inl, inr, ok-injective, err-ne-ok, >>=-eq-ok, ◌↔◌,
  Option, none, some, List, [], ◌∷◌, Result, ok, ◌>>=◌, Bool-cases, if◌then◌else◌, All,
}
use itsm_poc.Domain.Treatment.{ExecutionTreatment, is_narrowing}
use itsm_poc.Domain.Treatment.Order.{is_narrowing_refl, is_narrowing_trans}
use itsm_poc.Graph.State.{
  GovernanceResult, GraphError, HumanDecisionRecord, seal, seal_governance, seal_human_decision,
}

-- The channel after a run of writes, each folded in by its reducer.
unfoldable pub fold_governance :
    Option GovernanceResult
    → List (Option GovernanceResult)
    → Result GraphError (Option GovernanceResult)
fold_governance existing [] = ok existing
fold_governance existing (u ∷ us) = seal_governance existing u >>= λ next. fold_governance next us

unfoldable pub fold_decision :
    Option HumanDecisionRecord → List (Option HumanDecisionRecord) → Option HumanDecisionRecord
fold_decision existing [] = existing
fold_decision existing (u ∷ us) = fold_decision (seal_human_decision existing u) us

-- A result that is there and demands at least the human decision of `before`.
abbrev pub AtLeast : ExecutionTreatment → Option GovernanceResult → Type 0
AtLeast before none = ⊥
AtLeast before (some g) = is_narrowing before g.treatment ≡ true

seal_governance-AtLeast :
    (before : ExecutionTreatment) (existing : GovernanceResult) (u : Option GovernanceResult)
    {next : Option GovernanceResult}
    → AtLeast before (some existing)
    → seal_governance (some existing) u ≡ ok next
    → AtLeast before next
unfolding seal_governance
seal_governance-AtLeast before existing none h e = subst (AtLeast before) (ok-injective e) h
seal_governance-AtLeast before existing (some u) h e =
    elim (Bool-cases (is_narrowing existing.treatment u.treatment)) [
      | inl narrows ↦
          subst (AtLeast before) (ok-injective (rw (narrows, if◌then◌else◌) at e))
            (is_narrowing_trans before existing.treatment u.treatment h narrows)
      | inr widens ↦ absurd (err-ne-ok (rw (widens, if◌then◌else◌) at e))
    ]

fold_governance-AtLeast :
    (before : ExecutionTreatment) (existing : Option GovernanceResult)
    (us : List (Option GovernanceResult)) {final : Option GovernanceResult}
    → AtLeast before existing
    → fold_governance existing us ≡ ok final
    → AtLeast before final
unfolding fold_governance
fold_governance-AtLeast before existing [] h e = subst (AtLeast before) (ok-injective e) h
fold_governance-AtLeast before none (u ∷ us) h e = absurd h
fold_governance-AtLeast before (some g) (u ∷ us) h e =
    let (next, here, later) = >>=-eq-ok (seal_governance (some g) u) _ e in
    fold_governance-AtLeast before next us (seal_governance-AtLeast before g u h here) later

-- However often governance is evaluated again, the treatment in force never asks for less human
-- decision than one recorded before, and a recorded result is never lost.
pub fold_governance_narrows :
    (g : GovernanceResult) (us : List (Option GovernanceResult)) {final : Option GovernanceResult}
    → fold_governance (some g) us ≡ ok final
    → AtLeast g.treatment final
fold_governance_narrows g us h =
    fold_governance-AtLeast g.treatment (some g) us (is_narrowing_refl g.treatment) h

fold_decision_keeps :
    (d : HumanDecisionRecord) (us : List (Option HumanDecisionRecord))
    → fold_decision (some d) us ≡ some d
unfolding fold_decision seal_human_decision
fold_decision_keeps d [] = refl
fold_decision_keeps d (u ∷ us) = fold_decision_keeps d us

-- The first human decision stands, whatever is written after it.
pub fold_decision_first :
    (d : HumanDecisionRecord) (us : List (Option HumanDecisionRecord))
    → fold_decision none (some d ∷ us) ≡ some d
unfolding fold_decision seal_human_decision
fold_decision_first d us = fold_decision_keeps d us

module _ {A : Type 0} (same : A → A → Bool)
    (same_iff : (a b : A) → (same a b ≡ true) ↔ (a ≡ b)) where
  unfoldable pub fold_sealed : Option A → List (Option A) → Result GraphError (Option A)
  fold_sealed existing [] = ok existing
  fold_sealed existing (u ∷ us) = seal same existing u >>= λ next. fold_sealed next us

  -- What a write of nothing, or of the same value, is.
  abbrev pub IsReplay : A → Option A → Type 0
  IsReplay a none = Unit
  IsReplay a (some b) = b ≡ a

  replayed :
      (a : A) (u : Option A) {next : Option A}
      → seal same (some a) u ≡ ok next
      → IsReplay a u × (next ≡ some a)
  unfolding seal
  replayed a none e = (tt, sym (ok-injective e))
  replayed a (some b) e = elim (Bool-cases (same a b)) [
    | inl equal ↦ (
      sym ((same_iff a b).0 equal),
      sym (ok-injective (rw (equal, if◌then◌else◌) at e)) ∙ ap some (sym ((same_iff a b).0 equal)),
    )
    | inr differs ↦ absurd (err-ne-ok (rw (differs, if◌then◌else◌) at e))
  ]

  replays : (a : A) (u : Option A) → IsReplay a u → seal same (some a) u ≡ ok (some a)
  unfolding seal
  replays a none h = refl
  replays a (some b) h = rw ((same_iff a b).1 (sym h), h)

  fold_replayed :
      (a : A) (us : List (Option A)) {final : Option A}
      → fold_sealed (some a) us ≡ ok final
      → All (IsReplay a) us × (final ≡ some a)
  unfolding fold_sealed
  fold_replayed a [] e = (tt, sym (ok-injective e))
  fold_replayed a (u ∷ us) {final} e =
      let (next, here, later) = >>=-eq-ok (seal same (some a) u) _ e in
      let (replay, kept) = replayed a u here in
      let (all, end) = fold_replayed a us (subst (λ s. fold_sealed s us ≡ ok final) kept later) in
      ((replay, all), end)

  fold_replays :
      (a : A) (us : List (Option A)) → All (IsReplay a) us → fold_sealed (some a) us ≡ ok (some a)
  unfolding fold_sealed
  fold_replays a [] h = refl
  fold_replays a (u ∷ us) (now, later) = rw (replays a u now) (fold_replays a us later)

  -- A sealed channel that holds a value accepts a run of writes exactly when every one of them
  -- replays that value, and then it still holds it.
  pub fold_sealed_replays :
      (a : A) (us : List (Option A))
      → ((final : Option A)
          → fold_sealed (some a) us ≡ ok final
          → All (IsReplay a) us × (final ≡ some a))
        × (All (IsReplay a) us → fold_sealed (some a) us ≡ ok (some a))
  fold_sealed_replays a us = (λ final e. fold_replayed a us e, fold_replays a us)
