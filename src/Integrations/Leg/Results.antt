-- ===== src/Integrations/Leg/Results.antt =====
-- What the result columns of the jobs hold after a delivery: JobRepository.record_result of
-- integrations/src/integrations/persistence/jobs.py.
use itsm_poc.Common.{
  true, false, ◌==◌, List, [], ◌∷◌, ◌++◌, All, Option, none, some, ◌≡◌, refl, inl, inr, Bool-cases,
  if◌then◌else◌, arith,
}
use itsm_poc.Domain.Records.{Uuid}
use itsm_poc.Persistence.Rows.{rewrite}
use itsm_poc.Integrations.Attempts.{ExecutionAttempt, JobResult, ResultRow, is_job, is_success}

unfoldable pub result_of : ExecutionAttempt → JobResult
result_of a = record {
  is_executed = is_success a.outcome;
  verification = a.verification;
  execution_id = a.execution_id;
  recorded_at = a.completed_at;
}

-- What the result columns of a job hold after the attempts: the result of the last one that was for the job.
unfoldable pub latest : Uuid → List ExecutionAttempt → Option JobResult
unfolding result_of
latest id [] = none
latest id (a ∷ attempts) = elim (latest id attempts) [
  | none ↦ if a.job_id == id then some (result_of a) else none
  | some r ↦ some r
]

latest-snoc :
    (id : Uuid) (attempts : List ExecutionAttempt) (a : ExecutionAttempt)
    → latest id (attempts ++ (a ∷ []))
      ≡ (if a.job_id == id then some (result_of a) else latest id attempts)
unfolding latest
latest-snoc id [] a = refl
latest-snoc id (b ∷ attempts) a = elim (Bool-cases (a.job_id == id)) [
  | inl e ↦ rw (latest-snoc id attempts a, e, if◌then◌else◌) refl
  | inr e ↦ rw (latest-snoc id attempts a, e, if◌then◌else◌) refl
]

-- A row whose result columns a new attempt's statement has passed.
resulted_row :
    (attempts : List ExecutionAttempt) (a : ExecutionAttempt) (r : ResultRow)
    → r.result ≡ latest r.job_id attempts
    → (if r.job_id == a.job_id then record r { result = some (result_of a) } else r).result
      ≡ latest
          (if r.job_id == a.job_id then record r { result = some (result_of a) } else r).job_id
          (attempts ++ (a ∷ []))
resulted_row attempts a r h = elim (Bool-cases (r.job_id == a.job_id)) [
  | inl e ↦
      let back : a.job_id == r.job_id ≡ true = ground arith in
      rw (e, if◌then◌else◌, latest-snoc r.job_id attempts a, back, if◌then◌else◌) refl
  | inr e ↦
      let back : a.job_id == r.job_id ≡ false = ground arith in
      rw (e, if◌then◌else◌, latest-snoc r.job_id attempts a, back, if◌then◌else◌) h
]

pub resulted_rows :
    (attempts : List ExecutionAttempt) (a : ExecutionAttempt) (rows : List ResultRow)
    → All (λ (r : ResultRow). r.result ≡ latest r.job_id attempts) rows
    → All
        (λ (r : ResultRow). r.result ≡ latest r.job_id (attempts ++ (a ∷ [])))
        (rewrite
          (is_job a.job_id)
          (λ (r : ResultRow). record r { result = some (result_of a) })
          rows)
resulted_rows attempts a [] h = tt
resulted_rows attempts a (r ∷ rows) (here, later) =
    (resulted_row attempts a r here, resulted_rows attempts a rows later)
