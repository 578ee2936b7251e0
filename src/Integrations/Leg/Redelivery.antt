-- ===== src/Integrations/Leg/Redelivery.antt =====
-- That the key of an executed delivery is spent, and that a repeat of the delivery invokes nothing:
-- integrations/src/integrations/execution/executor.py.
use itsm_poc.Common.{
  Bool, true, false, List, [], ◌∷◌, ◌++◌, any-append, or_true, String, str_eq, str_eq_iff, Option,
  none, some, some_injective, ok, err-ne-ok, ◌≡◌, refl, sym, ap, subst, ◌∙◌, inl, inr, Bool-cases,
  if◌then◌else◌,
}
use itsm_poc.Domain.Records.{Uuid}
use itsm_poc.Integrations.Catalogue.{
  ConnectorBinding, IdempotencyPolicy, derived_key, no_key, CapabilityIdentity, permitted,
}
use itsm_poc.Integrations.Access.{evaluate_access}
use itsm_poc.Integrations.Jobs.{JobInstruction, is_executable_at}
use itsm_poc.Integrations.Attempts.{
  ExecutionAttempt, new_attempt, Store, has_key, is_constrained, record_attempt, audit,
  record_result, kind_of, derive_key, KeyMethods,
}
use itsm_poc.Integrations.Leg.{
  World, Delivery, ExecutionReport, Call, Answered, returned, transport_failed, raised, Attempted,
  attempt_of, written_delivery, recorded_delivery, key_or, key_for, record_outcome, invoked,
  is_duplicate, call_for, invoke_once, with_binding, decided, run_job, run_leg,
}
use itsm_poc.Integrations.Leg.Invocations.{run_leg-Warranted}
use itsm_poc.Domain.Treatment.{client_attested}
use itsm_poc.Integrations.Leg.Tables.{attested_ok, record_attempt-new, record_attempt-taken}

-- The key of one operation on one work item of an organisation.
abbrev pub own_key : World → JobInstruction → String
own_key w job = derive_key w.keys job.tenant_id job.work_item_id job.operation_id

module _ (w : World) (found : Store) (correlation_id : String) where
  -- A delivery that reports an execution has left an attempt with the key.
  abbrev Spends : String → Delivery → Type 0
  Spends key d =
      (r : ExecutionReport)
      → d.report ≡ ok r
      → r.executed ≡ true
      → has_key key d.store.attempts ≡ true

  has_key-snoc :
      (attempts : List ExecutionAttempt) (a : ExecutionAttempt)
      → has_key a.idempotency_key (attempts ++ (a ∷ [])) ≡ true
  unfolding has_key
  has_key-snoc attempts a =
      any-append (λ (x : ExecutionAttempt). str_eq x.idempotency_key a.idempotency_key) attempts
        (a ∷ [])
      ∙ rw ((str_eq_iff a.idempotency_key a.idempotency_key).1 refl) (or_true _)

  suppressed-Spends :
      (job : JobInstruction) (a : ExecutionAttempt) (calls : List Call)
      → Spends a.idempotency_key (written_delivery w found correlation_id job a calls none)
  unfolding written_delivery
  suppressed-Spends job a calls r h e = cc

  written-Spends :
      (job : JobInstruction) (a : ExecutionAttempt) (calls : List Call)
      → Spends a.idempotency_key (
          written_delivery w found correlation_id job a calls
            (record_attempt found a (kind_of a.outcome)))
  unfolding written_delivery audit record_result
  written-Spends job a calls = elim (Bool-cases (is_constrained found.attempts a)) [
    | inl taken ↦
        subst
          (λ o. Spends a.idempotency_key (written_delivery w found correlation_id job a calls o))
          (sym (record_attempt-taken found a taken)) (suppressed-Spends job a calls)
    | inr new ↦
        subst
          (λ o. Spends a.idempotency_key (written_delivery w found correlation_id job a calls o))
          (sym (record_attempt-new found a new)) (λ r h e. has_key-snoc found.attempts a)
  ]

  recorded-Spends :
      (job : JobInstruction) (a : ExecutionAttempt) (calls : List Call)
      → a.verification ≡ client_attested
      → Spends a.idempotency_key
          (recorded_delivery w found correlation_id job calls (new_attempt a))
  unfolding recorded_delivery
  recorded-Spends job a calls attests =
      subst (λ x. Spends a.idempotency_key (recorded_delivery w found correlation_id job calls x))
        (sym (attested_ok w found correlation_id a attests)) (written-Spends job a calls)

  record_outcome-Spends :
      (job : JobInstruction) (calls : List Call) (a : Attempted)
      → a.verification ≡ client_attested
      → key_or a.key (own_key w job) ≡ own_key w job
      → Spends (own_key w job) (record_outcome w found correlation_id job calls a)
  unfolding record_outcome attempt_of
  record_outcome-Spends job calls a attests e =
      subst (λ k. Spends k (record_outcome w found correlation_id job calls a)) e
        (recorded-Spends job (attempt_of w found correlation_id job a) calls attests)

  key_or-key_for :
      (job : JobInstruction) (policy : IdempotencyPolicy)
      → key_or (key_for w found correlation_id job policy) (own_key w job) ≡ own_key w job
  unfolding key_or key_for
  key_or-key_for job derived_key = elim (Bool-cases (str_eq (own_key w job) "")) [
    | inl blank ↦ rw (blank, if◌then◌else◌) refl
    | inr full ↦ rw (full, if◌then◌else◌) refl
  ]
  key_or-key_for job no_key = refl

  branch_either :
      (key : String) (b : Bool) (x y : Delivery)
      → Spends key x
      → Spends key y
      → Spends key (if b then x else y)
  branch_either key true x y hx hy = hx
  branch_either key false x y hx hy = hy

  invoked-Spends :
      (job : JobInstruction) (call : Call) (answer : Answered)
      → key_or call.key (own_key w job) ≡ own_key w job
      → Spends (own_key w job) (invoked w found correlation_id job call answer)
  unfolding invoked key_or
  invoked-Spends job call raised e = λ r h k. absurd (err-ne-ok h)
  invoked-Spends job call transport_failed e = record_outcome-Spends job (call ∷ []) _ refl refl
  invoked-Spends job call (returned r) e = record_outcome-Spends job (call ∷ []) _ refl e

  with_binding-Spends :
      (seen : Store) (job : JobInstruction) (binding : Option ConnectorBinding)
      → Spends (own_key w job) (with_binding w found correlation_id seen job binding)
  unfolding with_binding invoke_once call_for
  with_binding-Spends seen job none = λ r h k. absurd (err-ne-ok h)
  with_binding-Spends seen job (some binding) =
      let call = call_for w found correlation_id job binding in
      branch_either (own_key w job) (is_duplicate w found correlation_id seen call.key) _ _
        (λ r h k. cc)
        (invoked-Spends job call (w.invoke call) (key_or-key_for job binding.idempotency_policy))

  run_job-Spends :
      (seen : Store) (job : JobInstruction)
      → Spends (own_key w job) (run_job w found correlation_id seen (some job))
  unfolding run_job decided key_or
  run_job-Spends seen job =
      let d = evaluate_access w.facts job.tenant_id job.identity in
      branch_either (own_key w job) (is_executable_at job w.now) _ _
        (branch_either (own_key w job) (permitted d) _ _ (with_binding-Spends seen job d.binding)
          (record_outcome-Spends job [] _ refl refl))
        (record_outcome-Spends job [] _ refl refl)

run_leg-Spends :
    (w : World) (seen found : Store) (job_id : Uuid) (correlation_id : String)
    (job : JobInstruction)
    → w.load job_id ≡ some job
    → Spends w found correlation_id (own_key w job) (run_leg w seen found job_id correlation_id)
unfolding run_leg
run_leg-Spends w seen found job_id correlation_id job loaded =
    subst
      (λ o. Spends w found correlation_id (own_key w job) (run_job w found correlation_id seen o))
      (sym loaded) (run_job-Spends w found correlation_id seen job)

spent_not_unspent : (b : Bool) → b ≡ true → b ≡ false → ⊥
spent_not_unspent b h k = cc

spent_invokes_nothing :
    (w : World) (seen found : Store) (job_id : Uuid) (correlation_id : String)
    (job : JobInstruction)
    → w.load job_id ≡ some job
    → ((identity : CapabilityIdentity) (binding : ConnectorBinding)
        → w.facts.binding_for identity ≡ some binding
        → binding.idempotency_policy ≡ derived_key)
    → has_key (own_key w job) seen.attempts ≡ true
    → (run_leg w seen found job_id correlation_id).calls ≡ []
unfolding is_duplicate key_for
spent_invokes_nothing w seen found job_id correlation_id job loaded derives spent =
    elim (run_leg-Warranted w seen found job_id correlation_id) [
      | inl silent ↦ silent
      | inr (call, made, warrant) ↦
          let same = some_injective (sym warrant.known ∙ loaded) in
          let policy = derives warrant.job.identity call.binding warrant.access.bound_by in
          let key =
            warrant.keyed
            ∙ ap (λ p. key_for w found correlation_id warrant.job p) policy
            ∙ ap (λ (j : JobInstruction). some (own_key w j)) same in
          let unspent =
            subst (λ k. is_duplicate w found correlation_id seen k ≡ false) key warrant.unspent in
          absurd (spent_not_unspent _ spent unspent)
    ]

-- Once a delivery of a job has reported an execution, no later delivery of the same instruction, with
-- keys derived the same way, invokes anything, whatever it is answered and whoever wrote in between:
-- provided that keys of attempts are never removed and that every binding carries a derived key.
pub redelivery_invokes_nothing :
    (w v : World) (seen found later found' : Store) (job_id : Uuid) (correlation_id : String)
    (job : JobInstruction) (r : ExecutionReport)
    → w.load job_id ≡ some job
    → (run_leg w seen found job_id correlation_id).report ≡ ok r
    → r.executed ≡ true
    → v.load job_id ≡ some job
    → v.keys ≡ w.keys
    → ((identity : CapabilityIdentity) (binding : ConnectorBinding)
        → v.facts.binding_for identity ≡ some binding
        → binding.idempotency_policy ≡ derived_key)
    → ((key : String)
        → has_key key (run_leg w seen found job_id correlation_id).store.attempts ≡ true
        → has_key key later.attempts ≡ true)
    → (run_leg v later found' job_id correlation_id).calls ≡ []
redelivery_invokes_nothing w v seen found later found' job_id correlation_id job r loaded reported
      executed loaded' same_keys derives kept =
    spent_invokes_nothing v later found' job_id correlation_id job loaded' derives (
      subst
        (λ (k : KeyMethods).
          has_key (derive_key k job.tenant_id job.work_item_id job.operation_id) later.attempts
          ≡ true)
        (sym same_keys)
        (kept (own_key w job)
          (run_leg-Spends w seen found job_id correlation_id job loaded r reported executed)))
