-- ===== src/Execution/Legs.antt =====
-- The execution leg and the availability of a capability:
-- ragcore/src/ragcore/execution/{executor,availability}.py. The tool port is a function from what it is
-- invoked with; an exception of it escapes the leg.
use itsm_poc.Common.{
  Bool, true, false, List, [], ◌∷◌, String, Option, none, some, Result, ok, err, ◌>>=◌, ◌≡◌, refl,
  sym, subst, ◌∙◌, if◌then◌else◌, Bool-cases, inl, inr, ◌⊎◌, ok-injective, arith,
}
use itsm_poc.Domain.Treatment.{
  ExecutionMethod, VerificationOutcome, server_confirmed, client_attested, contradicted,
}
use itsm_poc.Domain.Records.{
  JsonObject, TenantContext, WorkItemId, OperationId, CorrelationId, OperationIdentity,
  CatalogueEntry,
}
use itsm_poc.Governance.Gate.{
  GateDisposition, GateOutcome, GateRequest, is_proceed, is_authorized, evaluate,
}
use itsm_poc.Governance.Gate.Agreement.{MayProceed}
use itsm_poc.Governance.Gate.Authorization.{evaluate-MayProceed}
use itsm_poc.Execution.Idempotency.{KeyText, effect_key}

pub record ToolCall : Type 0 where
  pub tenant : TenantContext
  pub identity : OperationIdentity
  pub parameters : JsonObject
  pub idempotency_key : String
  pub correlation_id : CorrelationId

pub record ToolResult : Type 0 where
  pub succeeded : Bool
  pub verification : VerificationOutcome

-- `UnauthorizedExecutionError`, and an exception of the tool port.
pub data ExecutionError : Type 0 where
  unauthorized : GateDisposition → ExecutionError
  port_raised : ExecutionError

pub record LegReport : Type 0 where
  pub succeeded : Bool
  pub verification : VerificationOutcome
  pub idempotency_key : String
  pub method : ExecutionMethod
  pub verified_by : Option String

unfoldable pub may_report_resolution : LegReport → Bool
may_report_resolution r = elim r.verification [
  | server_confirmed ↦ true
  | client_attested ↦ false
  | contradicted ↦ false
]

-- The keyword arguments of `run`.
pub record LegRequest : Type 0 where
  pub work_item_id : WorkItemId
  pub operation_id : OperationId
  pub identity : OperationIdentity
  pub parameters : JsonObject
  pub verification_tool : Option String
  pub correlation_id : CorrelationId
  pub method : ExecutionMethod

-- What a run returned or raised, and the calls of the port.
pub record LegRun : Type 0 where
  pub report : Result ExecutionError LegReport
  pub calls : List ToolCall

unfoldable pub report_of : LegRequest → (key : String) → ToolResult → LegReport
report_of q key r =
    if r.succeeded
    then record {
      succeeded = true;
      verification = r.verification;
      idempotency_key = key;
      method = q.method;
      verified_by = q.verification_tool;
    }
    else record {
      succeeded = false;
      verification = client_attested;
      idempotency_key = key;
      method = q.method;
      verified_by = none;
    }

invoked_with : KeyText → TenantContext → LegRequest → ToolCall
invoked_with k tenant q = record {
  tenant = tenant;
  identity = q.identity;
  parameters = q.parameters;
  idempotency_key = effect_key k tenant q.work_item_id q.operation_id;
  correlation_id = q.correlation_id;
}

unfoldable pub run_execution :
    KeyText
    → (invoke : ToolCall → Result ExecutionError ToolResult) → TenantContext
    → GateOutcome
    → LegRequest
    → LegRun
unfolding report_of invoked_with
run_execution k invoke tenant o q =
    let call = invoked_with k tenant q in
    if is_proceed o.disposition
    then record {
      report = invoke call >>= λ r. ok (report_of q call.idempotency_key r);
      calls = call ∷ [];
    }
    else record { report = err (unauthorized o.disposition); calls = [] }

pub data CapabilityAvailability : Type 0 where
  available not_entitled temporarily_unavailable : CapabilityAvailability

-- How a probe ends: it returns, or raises an error of a transient integration or another.
pub data Probe : Type 0 where
  answered transient_error other_error : Probe

availability_from : Option Probe → Option CapabilityAvailability
availability_from none = some available
availability_from (some answered) = some available
availability_from (some transient_error) = some temporarily_unavailable
availability_from (some other_error) = none

-- What `availability_of` answers, none where the probe's exception escapes, and whether it probed.
unfoldable pub availability_of :
    (entitled : Bool) → Option Probe → Option CapabilityAvailability × Bool
unfolding availability_from
availability_of entitled probe =
    if entitled
    then (availability_from probe, elim probe [ none ↦ false | some _ ↦ true ])
    else (some not_entitled, false)

-- What a run did that called the port: the one call, which is for what was proposed, in the request's
-- organisation, under the key of the operation on the work item; and the run tells what the port said of it.
pub record Called {Score : Type 0} (k : KeyText)
    (invoke : ToolCall → Result ExecutionError ToolResult) (r : GateRequest Score) (q : LegRequest)
    (run : LegRun) : Type 0 where
  pub call : ToolCall
  pub once : run.calls ≡ call ∷ []
  pub of_tenant : call.tenant ≡ r.tenant
  pub proposed : call.identity ≡ r.proposal.identity
  pub arguments : call.parameters ≡ r.proposal.parameters
  pub keyed : call.idempotency_key ≡ effect_key k r.tenant q.work_item_id q.operation_id
  pub correlated : call.correlation_id ≡ q.correlation_id
  pub raises : (e : ExecutionError) → invoke call ≡ err e → run.report ≡ err e
  pub returns :
      (a : ToolResult)
      → invoke call ≡ ok a
      → (told : LegReport) × (run.report ≡ ok told)
        × (told.succeeded ≡ a.succeeded)
        × (told.idempotency_key ≡ call.idempotency_key)
        × (told.verification ≡ (if a.succeeded then a.verification else client_attested))

opened_not_refused : (b : Bool) → b ≡ true → b ≡ false → ⊥
opened_not_refused b h k = cc

told_lem :
    (q : LegRequest) (key : String) (a : ToolResult)
    → ((report_of q key a).succeeded ≡ a.succeeded)
      × ((report_of q key a).idempotency_key ≡ key)
      × ((report_of q key a).verification
          ≡ (if a.succeeded then a.verification else client_attested))
unfolding report_of
told_lem q key a = elim (Bool-cases a.succeeded) [
  | inl e ↦ rw (e, if◌then◌else◌) (refl, refl, refl)
  | inr e ↦ rw (e, if◌then◌else◌) (refl, refl, refl)
]

run-Called :
    {Score : Type 0} (k : KeyText) (invoke : ToolCall → Result ExecutionError ToolResult)
    (r : GateRequest Score) (o : GateOutcome) (q : LegRequest)
    → q.identity ≡ r.proposal.identity
    → q.parameters ≡ r.proposal.parameters
    → is_proceed o.disposition ≡ true
    → Called k invoke r q (run_execution k invoke r.tenant o q)
unfolding run_execution invoked_with
run-Called k invoke r o q same_identity same_parameters e =
    let call = invoked_with k r.tenant q in
    rw (e, if◌then◌else◌)
      (record {
        call = call;
        once = refl;
        of_tenant = refl;
        proposed = same_identity;
        arguments = same_parameters;
        keyed = refl;
        correlated = refl;
        raises = λ x said. rw said refl;
        returns = λ a said.
            let (succeeds, key, verified) = told_lem q call.idempotency_key a in
            (report_of q call.idempotency_key a, rw said refl, succeeds, key, verified);
      })

-- Where the outcome is the gate's answer to a request, and the leg is asked to run what the request proposes:
-- either the request may proceed, and the port is called once, in the request's organisation, with the
-- proposed identity and parameters, under the key of the operation on the work item, and the run raises what
-- the port raised or reports what it answered; or no entry lets the request proceed, nothing is called, and
-- the run raises that it is unauthorized.
pub calls-MayProceed :
    {Score : Type 0} (k : KeyText) (invoke : ToolCall → Result ExecutionError ToolResult)
    (r : GateRequest Score) (o : GateOutcome) (q : LegRequest)
    → evaluate r ≡ ok o
    → q.identity ≡ r.proposal.identity
    → q.parameters ≡ r.proposal.parameters
    → (((entry : CatalogueEntry) × MayProceed r entry)
        × Called k invoke r q (run_execution k invoke r.tenant o q))
      ⊎ (((entry : CatalogueEntry) → ¬ MayProceed r entry)
          × ((run_execution k invoke r.tenant o q).calls ≡ [])
          × ((run_execution k invoke r.tenant o q).report ≡ err (unauthorized o.disposition)))
unfolding run_execution is_authorized
calls-MayProceed k invoke r o q judged same_identity same_parameters =
    elim (Bool-cases (is_proceed o.disposition)) [
      | inl e ↦ inl (
        (evaluate-MayProceed r).0 o judged e,
        run-Called k invoke r o q same_identity same_parameters e,
      )
      | inr e ↦ inr (
        λ entry may.
            let (answer, said, opened) = (evaluate-MayProceed r).1 entry may in
            let same = ok-injective (sym judged ∙ said) in
            absurd (
              opened_not_refused _
                (subst (λ (x : GateOutcome). is_proceed x.disposition ≡ true) (sym same) opened) e),
        rw (e, if◌then◌else◌) refl,
        rw (e, if◌then◌else◌) refl,
      )
    ]

-- A report that may be told as a resolution is of a call that succeeded and that the server confirmed.
pub resolution_confirmed :
    (q : LegRequest) (key : String) (r : ToolResult)
    → may_report_resolution (report_of q key r) ≡ true
    → (r.succeeded ≡ true) × (r.verification ≡ server_confirmed)
unfolding may_report_resolution report_of
resolution_confirmed q key r told = ground arith
