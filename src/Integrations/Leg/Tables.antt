-- ===== src/Integrations/Leg/Tables.antt =====
-- What every delivery keeps of the tables: integrations/src/integrations/execution/executor.py.
use itsm_poc.Common.{
  Bool, true, false, or_false, any-append, map-snoc, All-snoc, List, [], ◌∷◌, ◌++◌, map, All,
  String, str_eq, str_eq_iff, Option, none, some, ok, err, err-injective, ◌≡◌, ◌≢◌, refl, sym, ap,
  subst, ◌∙◌, inl, inr, Bool-cases, if◌then◌else◌, arith,
}
use itsm_poc.Domain.Treatment.{client_attested}
use itsm_poc.Domain.Records.{Uuid}
use itsm_poc.Integrations.Catalogue.{ConnectorBinding, permitted}
use itsm_poc.Integrations.Access.{evaluate_access}
use itsm_poc.Integrations.Jobs.{JobInstruction, is_executable_at}
use itsm_poc.Integrations.Attempts.{
  ExecutionAttempt, LegError, escaped, new_attempt, Store, has_key, record_attempt, audit,
  record_result, kind_of, Announcement, AuditRow, ResultRow, is_constrained,
}
use itsm_poc.Integrations.Leg.Results.{result_of, latest, resulted_rows}
use itsm_poc.Integrations.Leg.{
  World, Delivery, Call, Answered, returned, transport_failed, raised, Attempted, attempt_of,
  written_delivery, recorded_delivery, record_outcome, invoked, is_duplicate, call_for, invoke_once,
  with_binding, decided, run_job, run_leg,
}

-- No two attempts carry the same key.
abbrev pub UniqueKeys : List ExecutionAttempt → Type 0
UniqueKeys [] = Unit
UniqueKeys (a ∷ attempts) = (has_key a.idempotency_key attempts ≡ false) × UniqueKeys attempts

true-ne-false : true ≢ false
true-ne-false h = cc

str_eq_sym : (a b : String) → str_eq a b ≡ false → str_eq b a ≡ false
str_eq_sym a b h = elim (Bool-cases (str_eq b a)) [
  | inl same ↦ absurd (true-ne-false (sym ((str_eq_iff a b).1 (sym ((str_eq_iff b a).0 same))) ∙ h))
  | inr other ↦ other
]

UniqueKeys-snoc :
    (attempts : List ExecutionAttempt) (a : ExecutionAttempt)
    → UniqueKeys attempts
    → has_key a.idempotency_key attempts ≡ false
    → UniqueKeys (attempts ++ (a ∷ []))
unfolding has_key
UniqueKeys-snoc [] a h new = (refl, tt)
UniqueKeys-snoc (b ∷ attempts) a (first, rest) new =
    let (apart, new_later) =
      or_false (str_eq b.idempotency_key a.idempotency_key) (has_key a.idempotency_key attempts)
        new in
    (
      any-append (λ (x : ExecutionAttempt). str_eq x.idempotency_key b.idempotency_key) attempts
            (a ∷ [])
          ∙ rw (first, str_eq_sym b.idempotency_key a.idempotency_key apart) refl,
      UniqueKeys-snoc attempts a rest new_later,
    )

-- The attempt that an audit row was written for, and the rows that an attempt asks for.
abbrev pub audited_attempt : AuditRow → ExecutionAttempt
audited_attempt row = row.attempt

unfoldable pub announcement_of : ExecutionAttempt → Announcement
announcement_of a = record {
  job_id = a.job_id;
  kind = kind_of a.outcome;
  correlation_id = a.correlation_id;
}

pub record Consistent (s : Store) : Type 0 where
  pub unique : UniqueKeys s.attempts
  pub audited : map audited_attempt s.audited ≡ s.attempts
  pub announced : s.outbox ≡ map announcement_of s.attempts
  pub resulted : All (λ (r : ResultRow). r.result ≡ latest r.job_id s.attempts) s.jobs
  pub attested : All (λ (a : ExecutionAttempt). a.verification ≡ client_attested) s.attempts

-- The tables after a transaction that the constraints let through.
abbrev grown : Store → ExecutionAttempt → Uuid → Store
grown found a work_item_id =
    record_result
      (audit
        (record found {
          attempts = found.attempts ++ (a ∷ []);
          outbox =
              found.outbox
              ++ (record {
                job_id = a.job_id;
                kind = kind_of a.outcome;
                correlation_id = a.correlation_id;
              }
                  ∷ []);
        })
        a work_item_id a.attempted_at)
      a

grown-Consistent :
    (found : Store) (a : ExecutionAttempt) (work_item_id : Uuid)
    → a.verification ≡ client_attested
    → is_constrained found.attempts a ≡ false
    → Consistent found
    → Consistent (grown found a work_item_id)
unfolding audit record_result announcement_of result_of is_constrained
grown-Consistent found a work_item_id attests new h =
    let (unspent, others) = or_false (has_key a.idempotency_key found.attempts) _ new in
    record {
      unique = UniqueKeys-snoc found.attempts a h.unique unspent;
      audited =
          map-snoc audited_attempt found.audited _
          ∙ ap (λ (x : List ExecutionAttempt). x ++ (a ∷ [])) h.audited;
      announced =
          ap (λ (x : List Announcement). x ++ (announcement_of a ∷ [])) h.announced
          ∙ sym (map-snoc announcement_of found.attempts a);
      resulted = resulted_rows found.attempts a found.jobs h.resulted;
      attested = All-snoc _ found.attempts a h.attested attests;
    }

pub record_attempt-new :
    (found : Store) (a : ExecutionAttempt)
    → is_constrained found.attempts a ≡ false
    → record_attempt found a (kind_of a.outcome)
      ≡ some (record found {
        attempts = found.attempts ++ (a ∷ []);
        outbox =
            found.outbox
            ++ (record {
              job_id = a.job_id;
              kind = kind_of a.outcome;
              correlation_id = a.correlation_id;
            }
                ∷ []);
      })
unfolding record_attempt
record_attempt-new found a new = rw (new, if◌then◌else◌)

pub record_attempt-taken :
    (found : Store) (a : ExecutionAttempt)
    → is_constrained found.attempts a ≡ true
    → record_attempt found a (kind_of a.outcome) ≡ none
unfolding record_attempt
record_attempt-taken found a taken = rw (taken, if◌then◌else◌)

module _ (w : World) (found : Store) (correlation_id : String) where
  written-Consistent :
      (job : JobInstruction) (a : ExecutionAttempt) (calls : List Call)
      → a.verification ≡ client_attested
      → Consistent found
      → Consistent
          (written_delivery w found correlation_id job a calls
            (record_attempt found a (kind_of a.outcome))).store
  unfolding written_delivery
  written-Consistent job a calls attests h = elim (Bool-cases (is_constrained found.attempts a)) [
    | inl taken ↦
        subst (λ o. Consistent (written_delivery w found correlation_id job a calls o).store)
          (sym (record_attempt-taken found a taken)) h
    | inr new ↦
        subst (λ o. Consistent (written_delivery w found correlation_id job a calls o).store)
          (sym (record_attempt-new found a new))
          (grown-Consistent found a job.work_item_id attests new h)
  ]

  -- What every delivery leaves: consistent tables, and nothing escaped from the check of a record.
  pub record Leaves (d : Delivery) : Type 0 where
    pub tables : Consistent d.store
    pub escapes : (e : LegError) → d.report ≡ err e → e ≡ escaped

  written-report :
      (job : JobInstruction) (a : ExecutionAttempt) (calls : List Call) (o : Option Store)
      (e : LegError)
      → (written_delivery w found correlation_id job a calls o).report ≢ err e
  unfolding written_delivery
  written-report job a calls none e h = cc
  written-report job a calls (some s) e h = cc

  pub attested_ok : (a : ExecutionAttempt) → a.verification ≡ client_attested → new_attempt a ≡ ok a
  unfolding new_attempt
  attested_ok a h = ground arith

  recorded-Leaves :
      (job : JobInstruction) (calls : List Call) (a : ExecutionAttempt)
      → a.verification ≡ client_attested
      → Consistent found
      → Leaves (recorded_delivery w found correlation_id job calls (new_attempt a))
  unfolding recorded_delivery
  recorded-Leaves job calls a attests h =
      subst (λ r. Leaves (recorded_delivery w found correlation_id job calls r))
        (sym (attested_ok a attests))
        (record {
          tables = written-Consistent job a calls attests h;
          escapes = λ e k.
              absurd (written-report job a calls (record_attempt found a (kind_of a.outcome)) e k);
        })

  record_outcome-Leaves :
      (job : JobInstruction) (calls : List Call) (a : Attempted)
      → a.verification ≡ client_attested
      → Consistent found
      → Leaves (record_outcome w found correlation_id job calls a)
  unfolding record_outcome attempt_of
  record_outcome-Leaves job calls a attests h =
      recorded-Leaves job calls (attempt_of w found correlation_id job a) attests h

  invoked-Leaves :
      (job : JobInstruction) (call : Call) (answer : Answered)
      → Consistent found
      → Leaves (invoked w found correlation_id job call answer)
  unfolding invoked
  invoked-Leaves job call raised h = record { tables = h; escapes = λ e k. sym (err-injective k) }
  invoked-Leaves job call transport_failed h = record_outcome-Leaves job (call ∷ []) _ refl h
  invoked-Leaves job call (returned r) h = record_outcome-Leaves job (call ∷ []) _ refl h

  either : (b : Bool) (x y : Delivery) → Leaves x → Leaves y → Leaves (if b then x else y)
  either true x y hx hy = hx
  either false x y hx hy = hy

  with_binding-Leaves :
      (seen : Store) (job : JobInstruction) (binding : Option ConnectorBinding)
      → Consistent found
      → Leaves (with_binding w found correlation_id seen job binding)
  unfolding with_binding invoke_once
  with_binding-Leaves seen job none h = record {
    tables = h;
    escapes = λ e k. sym (err-injective k);
  }
  with_binding-Leaves seen job (some binding) h =
      let call = call_for w found correlation_id job binding in
      either (is_duplicate w found correlation_id seen call.key) _ _
        (record { tables = h; escapes = λ e k. cc }) (invoked-Leaves job call (w.invoke call) h)

  run_job-Leaves :
      (seen : Store) (job : Option JobInstruction)
      → Consistent found
      → Leaves (run_job w found correlation_id seen job)
  unfolding run_job decided
  run_job-Leaves seen none h = record { tables = h; escapes = λ e k. cc }
  run_job-Leaves seen (some job) h =
      let d = evaluate_access w.facts job.tenant_id job.identity in
      either (is_executable_at job w.now) _ _
        (either (permitted d) _ _ (with_binding-Leaves seen job d.binding h)
          (record_outcome-Leaves job [] _ refl h))
        (record_outcome-Leaves job [] _ refl h)

-- A delivery whose transaction finds consistent tables, whoever wrote them, leaves them consistent:
-- no key twice, for each attempt one audit row and one announcement, in the result columns of each job's row
-- the result of the last attempt for that job, or nothing where there was none, and no attempt that claims
-- more than an attestation; and what escapes a delivery is never the check of its record.
pub run_leg-Leaves :
    (w : World) (seen found : Store) (job_id : Uuid) (correlation_id : String)
    → Consistent found
    → Leaves w found correlation_id (run_leg w seen found job_id correlation_id)
unfolding run_leg
run_leg-Leaves w seen found job_id correlation_id h =
    run_job-Leaves w found correlation_id seen (w.load job_id) h
