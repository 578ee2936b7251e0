-- ===== src/Execution/SampleFlow/Redeliveries.antt =====
-- How often the sample flow acts on a work item, however often its trigger is delivered:
-- ragcore/src/ragcore/messaging/sample_flow.py.
use itsm_poc.Common.{
  ℕ, ◌+◌, ◌≤◌, Bool, true, ◌&&◌, List, [], ◌∷◌, map, ok, ◌>>=◌, ◌==◌, ◌≡◌, refl, if◌then◌else◌,
  arith, subst, ap, sym, ◌∙◌, ok-injective,
}
use itsm_poc.Domain.Records.{Uuid}
use itsm_poc.Persistence.Guard.{execute_update}
use itsm_poc.Persistence.WorkItems.{WorkItemRow, claim}
use itsm_poc.Persistence.WorkItems.Calls.{
  WorkItemCall, claim_call, Trace, trace, noted, perform, perform_lem, asks, writes,
}
use itsm_poc.Persistence.WorkItems.Claims.{granted_claims, grants, Keyed, claimed_once}
use itsm_poc.Execution.Idempotency.{KeyText}
use itsm_poc.Execution.SampleFlow.{
  FlowDelivery, FlowStore, SampleFlowResult, had_effect, after_claim, execute_sample_flow,
  deliver_all, claim_for_execution, should_stop, ClaimOutcome, perform_effect,
}

-- How many of the deliveries acted on the item.
unfoldable pub effects_on : Uuid → List (FlowDelivery × SampleFlowResult) → ℕ
unfolding had_effect
effects_on id [] = 0
effects_on id ((d, r) ∷ rest) =
    let later = effects_on id rest in
    if had_effect r && d.work_item_id.value == id then 1 + later else later

unfoldable pub claim_of : FlowDelivery → WorkItemCall
claim_of d = claim_call d.tenant d.work_item_id "workload" d.now d.clock

claim_performed :
    (d : FlowDelivery) (rows : List WorkItemRow)
    → claim d.tenant d.work_item_id "workload" d.now d.clock rows
      ≡ ok (execute_update (asks (claim_of d)) (writes (claim_of d)) rows)
unfolding perform claim_of
claim_performed d rows = perform_lem (claim_of d) rows

module _ (k : KeyText) (id : Uuid) where
  -- A delivery acts only with a claim that was granted.
  acts_claimed :
      (d : FlowDelivery) (s : FlowStore) (c : ClaimOutcome)
      → (had_effect (after_claim k d s c).0 && d.work_item_id.value == id) ≡ true
      → grants id (claim_of d) c.has_won ≡ true
  unfolding after_claim should_stop had_effect grants claim_of
  acts_claimed d s c acted = ground arith

  items_kept :
      (d : FlowDelivery) (s : FlowStore) (c : ClaimOutcome)
      → (after_claim k d s c).1.items ≡ c.items
  unfolding after_claim perform_effect
  items_kept d s c = ground arith

  counted_together :
      (d : FlowDelivery) (r : SampleFlowResult) (b : Bool) (n m : ℕ)
      → ((had_effect r && d.work_item_id.value == id) ≡ true → grants id (claim_of d) b ≡ true)
      → n ≤ m
      → (if had_effect r && d.work_item_id.value == id then 1 + n else n)
        ≤ (if grants id (claim_of d) b then 1 + m else m)
  counted_together d r b n m implied small = ground arith

  -- The deliveries and their claims, step by step.
  deliveries_traced :
      (ds : List FlowDelivery) (s : FlowStore)
      → (out : List (FlowDelivery × SampleFlowResult) × FlowStore) × (t : Trace) × (deliver_all k ds
            s
          ≡ ok out)
        × (trace (map claim_of ds) s.items ≡ ok t)
        × (effects_on id out.0 ≤ granted_claims id t.answered)
  unfolding deliver_all execute_sample_flow claim_for_execution trace noted effects_on
      granted_claims execute_update
  deliveries_traced [] s =
      (([], s), record { final = s.items; answered = [] }, refl, refl, omega arith)
  deliveries_traced (d ∷ ds) s =
      let w = execute_update (asks (claim_of d)) (writes (claim_of d)) s.items in
      let c : ClaimOutcome = record {
        has_won = w.answer;
        claimed_by = "workload";
        items = w.rows;
      } in
      let one = after_claim k d s c in
      let (out, t, ran, traced, bounded) = deliveries_traced ds one.1 in
      let claimed : claim d.tenant d.work_item_id "workload" d.now d.clock s.items ≡ ok w =
        claim_performed d s.items in
      (
        ((d, one.0) ∷ out.0, out.1),
        noted (claim_of d) w.answer t,
        (rw (claimed, ◌>>=◌, ran) refl),
        (rw
            (
              perform_lem (claim_of d) s.items,
              ◌>>=◌,
              subst (λ rows. trace (map claim_of ds) rows ≡ ok t) (items_kept d s c) traced,
            )
            refl),
        counted_together d one.0 w.answer _ _ (acts_claimed d s c) bounded,
      )

  -- In a table where an identifier is in one row at most, any sequence of deliveries of the sample flow's
  -- trigger, whatever work items and tenants they name, returns, and at most one of them acts on a
  -- given work item.
  pub delivered_once :
      (ds : List FlowDelivery) (s : FlowStore)
      → Keyed s.items
      → (out : List (FlowDelivery × SampleFlowResult) × FlowStore) × (deliver_all k ds s ≡ ok out)
        × (effects_on id out.0 ≤ 1)
  delivered_once ds s keyed =
      let (out, t, ran, traced, bounded) = deliveries_traced ds s in
      let (t', traced', once) = claimed_once id (map claim_of ds) s.items keyed in
      let same =
        ap (λ (x : Trace). granted_claims id x.answered) (ok-injective (sym traced ∙ traced')) in
      (out, ran, omega (arith, bounded, once, same))
