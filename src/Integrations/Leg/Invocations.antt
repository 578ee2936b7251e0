-- ===== src/Integrations/Leg/Invocations.antt =====
-- What a delivery invokes, and that a repeat invokes nothing:
-- integrations/src/integrations/execution/executor.py.
use itsm_poc.Common.{
  true, false, List, [], ◌∷◌, String, Option, none, some, Result, ok, err, ◌≡◌, refl, ◌⊎◌, inl, inr,
  Bool-cases, if◌then◌else◌,
}
use itsm_poc.Domain.Records.{Uuid}
use itsm_poc.Integrations.Catalogue.{ConnectorBinding, permitted}
use itsm_poc.Integrations.Access.{evaluate_access, evaluate_access_iff, AccessHolds}
use itsm_poc.Integrations.Jobs.{JobInstruction, is_executable_at}
use itsm_poc.Integrations.Attempts.{ExecutionAttempt, LegError, Store, record_attempt, kind_of}
use itsm_poc.Integrations.Leg.{
  World, Call, Answered, returned, transport_failed, raised, Attempted, written_delivery,
  recorded_delivery, key_for, record_outcome, invoked, is_duplicate, call_for, invoke_once,
  with_binding, decided, run_job, run_leg,
}

module _ (w : World) (found : Store) (correlation_id : String) where
  written-calls :
      (job : JobInstruction) (a : ExecutionAttempt) (calls : List Call) (o : Option Store)
      → (written_delivery w found correlation_id job a calls o).calls ≡ calls
  unfolding written_delivery
  written-calls job a calls none = refl
  written-calls job a calls (some s) = refl

  recorded-calls :
      (job : JobInstruction) (calls : List Call) (r : Result LegError ExecutionAttempt)
      → (recorded_delivery w found correlation_id job calls r).calls ≡ calls
  unfolding recorded_delivery
  recorded-calls job calls (err e) = refl
  recorded-calls job calls (ok a) =
      written-calls job a calls (record_attempt found a (kind_of a.outcome))

  invoked-calls :
      (job : JobInstruction) (call : Call) (answer : Answered)
      → (invoked w found correlation_id job call answer).calls ≡ call ∷ []
  unfolding invoked record_outcome
  invoked-calls job call raised = refl
  invoked-calls job call transport_failed = recorded-calls job (call ∷ []) _
  invoked-calls job call (returned r) = recorded-calls job (call ∷ []) _

  -- A call that the durable state warrants: the loaded instruction is executable now, access holds
  -- for its organisation and capability by the call's binding, the arguments and the key are the
  -- instruction's, and no attempt with that key had been recorded.
  pub record Warranted (seen : Store) (loaded : Option JobInstruction) (call : Call) : Type 0 where
    pub job : JobInstruction
    pub known : loaded ≡ some job
    pub executable : is_executable_at job w.now ≡ true
    pub access : AccessHolds w.facts job.tenant_id job.identity call.binding
    pub of_tenant : call.tenant_id ≡ job.tenant_id
    pub of_parameters : call.parameters ≡ job.parameters
    pub keyed : call.key ≡ key_for w found correlation_id job call.binding.idempotency_policy
    pub unspent : is_duplicate w found correlation_id seen call.key ≡ false

  abbrev pub CallsWarranted : Store → Option JobInstruction → List Call → Type 0
  CallsWarranted seen loaded calls =
      (calls ≡ []) ⊎ ((call : Call) × (calls ≡ call ∷ []) × Warranted seen loaded call)

  invoke_once-calls :
      (seen : Store) (job : JobInstruction) (call : Call)
      → ((invoke_once w found correlation_id seen job call).calls ≡ [])
        ⊎ (((invoke_once w found correlation_id seen job call).calls ≡ call ∷ [])
            × (is_duplicate w found correlation_id seen call.key ≡ false))
  unfolding invoke_once
  invoke_once-calls seen job call =
      elim (Bool-cases (is_duplicate w found correlation_id seen call.key)) [
        | inl duplicate ↦ inl (rw (duplicate, if◌then◌else◌))
        | inr new ↦ inr (rw (new, if◌then◌else◌) (invoked-calls job call (w.invoke call)), new)
      ]

  bound-calls :
      (seen : Store) (job : JobInstruction) (binding : ConnectorBinding)
      → is_executable_at job w.now ≡ true
      → AccessHolds w.facts job.tenant_id job.identity binding
      → CallsWarranted seen
          (some job)
          (with_binding w found correlation_id seen job (some binding)).calls
  unfolding with_binding call_for
  bound-calls seen job binding executable access =
      elim (invoke_once-calls seen job (call_for w found correlation_id job binding)) [
        | inl silent ↦ inl silent
        | inr (made, new) ↦ inr (
          call_for w found correlation_id job binding,
          made,
          record {
            job = job;
            known = refl;
            executable = executable;
            access = access;
            of_tenant = refl;
            of_parameters = refl;
            keyed = refl;
            unspent = new;
          },
        )
      ]

  refused-calls :
      (job : JobInstruction) (a : Attempted)
      → (record_outcome w found correlation_id job [] a).calls ≡ []
  unfolding record_outcome
  refused-calls job a = recorded-calls job [] _

  decided-calls :
      (seen : Store) (job : JobInstruction)
      → is_executable_at job w.now ≡ true
      → CallsWarranted seen
          (some job)
          (decided w found correlation_id seen job
            (evaluate_access w.facts job.tenant_id job.identity)).calls
  unfolding decided
  decided-calls seen job executable =
      elim (Bool-cases (permitted (evaluate_access w.facts job.tenant_id job.identity))) [
        | inl permits ↦
            let (binding, decision, access) =
              (evaluate_access_iff w.facts job.tenant_id job.identity).0 permits in
            rw (permits, if◌then◌else◌, decision) (bound-calls seen job binding executable access)
        | inr refuses ↦ inl (rw (refuses, if◌then◌else◌) (refused-calls job _))
      ]

  run_job-calls :
      (seen : Store) (loaded : Option JobInstruction)
      → CallsWarranted seen loaded (run_job w found correlation_id seen loaded).calls
  unfolding run_job
  run_job-calls seen none = inl refl
  run_job-calls seen (some job) = elim (Bool-cases (is_executable_at job w.now)) [
    | inl executable ↦ rw (executable, if◌then◌else◌) (decided-calls seen job executable)
    | inr over ↦ inl (rw (over, if◌then◌else◌) (refused-calls job _))
  ]

-- A delivery invokes nothing, or exactly once; and then the loaded instruction is executable now,
-- its organisation has access to its capability at its version by the binding that is invoked, the
-- organisation, the arguments and the key are the instruction's, and no attempt had that key.
pub run_leg-Warranted :
    (w : World) (seen found : Store) (job_id : Uuid) (correlation_id : String)
    → ((run_leg w seen found job_id correlation_id).calls ≡ [])
      ⊎ ((call : Call) × ((run_leg w seen found job_id correlation_id).calls ≡ call ∷ [])
          × Warranted w found correlation_id seen (w.load job_id) call)
unfolding run_leg
run_leg-Warranted w seen found job_id correlation_id =
    run_job-calls w found correlation_id seen (w.load job_id)
