-- ===== src/Execution/SampleFlow.antt =====
-- The claim before an effect, and the sample flow from the trigger to the notification:
-- ragcore/src/ragcore/execution/claim.py and ragcore/src/ragcore/messaging/sample_flow.py.
pub mod Redeliveries
use itsm_poc.Common.{
  ℕ, Bool, true, false, ◌&&◌, not, List, [], ◌∷◌, ◌++◌, String, Option, none, some, Result, ok, err,
  ◌>>=◌, if◌then◌else◌,
}
use itsm_poc.Domain.Records.{
  Uuid, Instant, JsonObject, no_members, member, json_str, TenantContext, WorkItemId, OperationId,
}
use itsm_poc.Persistence.Guard.{Written, WriteError}
use itsm_poc.Persistence.WorkItems.{WorkItemRow, claim}
use itsm_poc.Execution.Idempotency.{
  IdempotencyRow, KeyText, effect_key, ReplayDecision, should_execute, begin_effect,
  complete_effect,
}

pub record ClaimOutcome : Type 0 where
  pub has_won : Bool
  pub claimed_by : String
  pub items : List WorkItemRow

unfoldable pub should_stop : ClaimOutcome → Bool
should_stop c = not c.has_won

-- The outcome, with the rows that the claim left.
unfoldable pub claim_for_execution :
    TenantContext
    → WorkItemId
    → (claimed_by : String) → (now clock : Instant) → List WorkItemRow
    → Result WriteError ClaimOutcome
claim_for_execution tenant id by now clock rows = claim tenant id by now clock rows >>= λ w.
    ok (record { has_won = w.answer; claimed_by = by; items = w.rows })

pub record SampleFlowResult : Type 0 where
  pub work_item : String
  pub is_executed : Bool
  pub is_replayed : Bool
  pub claim_won : Bool

unfoldable pub had_effect : SampleFlowResult → Bool
had_effect r = r.is_executed && not r.is_replayed

-- The two tables, and the work items whose requester was told of their completion.
pub record FlowStore : Type 0 where
  pub items : List WorkItemRow
  pub records : List IdempotencyRow
  pub notified : List WorkItemId

-- One delivery of the trigger: the arguments of `execute_sample_flow`, and the database's clock.
pub record FlowDelivery : Type 0 where
  pub tenant : TenantContext
  pub work_item_id : WorkItemId
  pub operation_id : OperationId
  pub correlation_id : String
  pub now : Instant
  pub clock : Instant
  pub has_notifications : Bool

unfoldable pub inert_operation : KeyText → WorkItemId → (correlation_id : String) → JsonObject
inert_operation k id correlation = member "operation" (json_str "sample.round-trip") (
    member "workItemId" (json_str (k.uuid_text id.value)) (
      member "correlationId" (json_str correlation) (member "effect" (json_str "none") no_members)))

module _ (k : KeyText) where
  flow_result : FlowDelivery → (executed replayed won : Bool) → SampleFlowResult
  flow_result d executed replayed won = record {
    work_item = k.uuid_text d.work_item_id.value;
    is_executed = executed;
    is_replayed = replayed;
    claim_won = won;
  }

  unfoldable pub perform_effect : FlowDelivery → (key : String) → FlowStore → FlowStore
  unfolding inert_operation
  perform_effect d key s = record s {
    records =
        complete_effect d.clock d.tenant key d.operation_id
          (inert_operation k d.work_item_id d.correlation_id) s.records;
    notified = if d.has_notifications then s.notified ++ (d.work_item_id ∷ []) else s.notified;
  }

  -- From the claim on.
  unfoldable pub after_claim :
      FlowDelivery → FlowStore → ClaimOutcome → SampleFlowResult × FlowStore
  unfolding flow_result perform_effect should_stop
  after_claim d s c =
      let held = record s { items = c.items } in
      let key = effect_key k d.tenant d.work_item_id d.operation_id in
      if should_stop c
      then (flow_result d false false false, held)
      else if should_execute (begin_effect d.tenant key s.records)
      then (flow_result d true false true, perform_effect d key held)
      else (flow_result d false true true, held)

  unfoldable pub execute_sample_flow :
      FlowDelivery → FlowStore → Result WriteError (SampleFlowResult × FlowStore)
  unfolding claim_for_execution after_claim
  execute_sample_flow d s =
      claim_for_execution d.tenant d.work_item_id "workload" d.now d.clock s.items >>= λ c.
      ok (after_claim d s c)

  -- Deliveries one after the other, each with its result.
  unfoldable pub deliver_all :
      List FlowDelivery
      → FlowStore
      → Result WriteError (List (FlowDelivery × SampleFlowResult) × FlowStore)
  unfolding execute_sample_flow
  deliver_all [] s = ok ([], s)
  deliver_all (d ∷ ds) s = execute_sample_flow d s >>= λ one.
      deliver_all ds one.1 >>= λ rest. ok ((d, one.0) ∷ rest.0, rest.1)
