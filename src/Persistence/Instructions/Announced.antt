-- ===== src/Persistence/Instructions/Announced.antt =====
-- An instruction is announced together with its row: `IntegrationDispatcher` of
-- ragcore/src/ragcore/persistence/integration_jobs.py.
use itsm_poc.Common.{
  Bool, true, List, [], ◌∷◌, ◌++◌, map, none, some, ok, ==_iff, if◌then◌else◌, ◌≡◌, refl, ap, ◌∙◌,
  arith, Result,
}
use itsm_poc.Domain.Records.{Uuid, Instant, TenantContext}
use itsm_poc.Domain.Envelopes.{Envelope, command, integration_execute}
use itsm_poc.Persistence.Rows.{row_at, matching}
use itsm_poc.Messaging.Bodies.{
  UuidText, BodyError, envelope_from_row, envelope_from_row-row_payload, subject_id,
}
use itsm_poc.Messaging.Outbox.{OutboxRow, Defaults, enqueue}
use itsm_poc.Workers.Conclusions.{concluded_from, concluded_pending}
use itsm_poc.Persistence.Instructions.{
  IntegrationJobRow, Instruction, job_created, job_row, execute_command, dispatch, job_key,
  mark_job_dispatched, read_result, result_from, result_of, is_status,
}

-- A row after rows of other keys is the row of its key.
row_at_last {ℓ} :
    {Row : Type ℓ} (key : Row → Bool) (rows : List Row) (r : Row)
    → matching key rows ≡ 0
    → key r ≡ true
    → row_at key (rows ++ (r ∷ [])) ≡ some r
row_at_last key [] r away here = rw (here, if◌then◌else◌) refl
row_at_last key (x ∷ rows) r away here = let rest = row_at_last key rows r in ground arith

-- Where no job has the fresh identifier, the job of a dispatch is read under it as the instruction that was
-- given, and its result as one that is not recorded yet.
pub dispatch-reads :
    (m : UuidText) (defaults : Defaults) (job_id outbox_id : Uuid) (tenant : TenantContext)
    (i : Instruction) (jobs : List IntegrationJobRow) (outbox : List OutboxRow)
    → matching (job_key job_id) jobs ≡ 0
    → (row_at (job_key job_id) (dispatch m defaults job_id outbox_id tenant i jobs outbox).jobs
        ≡ some (job_row defaults.clock job_id i))
      × (concluded_from
            (read_result job_id (dispatch m defaults job_id outbox_id tenant i jobs outbox).jobs)
          ≡ concluded_pending)
unfolding dispatch job_row read_result result_from result_of concluded_from
dispatch-reads m defaults job_id outbox_id tenant i jobs outbox fresh =
    let last =
      row_at_last (job_key job_id) jobs (job_row defaults.clock job_id i) fresh
        ((==_iff job_id job_id).1 refl) in
    (last, ap (λ row. concluded_from (result_from row)) last)

marked_row-keeps :
    (clock : Instant) (marked id : Uuid) (r : IntegrationJobRow) (jobs : List IntegrationJobRow)
    → read_result id (mark_job_dispatched clock marked jobs) ≡ read_result id jobs
    → read_result id (mark_job_dispatched clock marked (r ∷ jobs)) ≡ read_result id (r ∷ jobs)
unfolding mark_job_dispatched read_result result_from result_of is_status
marked_row-keeps clock marked id r jobs rest = ground arith

-- Marking a job as dispatched changes the result of no job.
pub mark_job_dispatched-keeps :
    (clock : Instant) (marked id : Uuid) (jobs : List IntegrationJobRow)
    → read_result id (mark_job_dispatched clock marked jobs) ≡ read_result id jobs
unfolding mark_job_dispatched read_result result_from
mark_job_dispatched-keeps clock marked id [] = refl
mark_job_dispatched-keeps clock marked id (r ∷ jobs) =
    marked_row-keeps clock marked id r jobs (mark_job_dispatched-keeps clock marked id jobs)

map_last {ℓ κ} :
    {A : Type ℓ} {B : Type κ} (f : A → B) (xs : List A) (y : A)
    → map f (xs ++ (y ∷ [])) ≡ map f xs ++ (f y ∷ [])
map_last f [] y = refl
map_last f (x ∷ xs) y = ap (λ ys. f x ∷ ys) (map_last f xs y)

-- What the rows of an outbox are read as.
abbrev pub announced : UuidText → List OutboxRow → List (Result BodyError Envelope)
announced m = map (λ (r : OutboxRow). envelope_from_row m r.kind r.payload)

-- A row that holds an instruction as it was given, and that nobody has sent or executed.
pub record Holds (job_id : Uuid) (i : Instruction) (r : IntegrationJobRow) : Type 0 where
  pub identified : r.job_id ≡ job_id
  pub of_item : r.work_item_id ≡ i.work_item_id
  pub of_operation : r.operation_id ≡ i.operation_id
  pub of_tenant : r.tenant_id ≡ i.tenant_id
  pub capability : r.catalogue_id ≡ i.catalogue_id
  pub version : r.catalogue_version ≡ i.catalogue_version
  pub arguments : r.parameters ≡ i.parameters
  pub window : r.expires_at ≡ i.expires_at
  pub unsent : (r.status ≡ job_created) × (r.dispatched_at ≡ none)

job_row-Holds :
    (clock : Instant) (job_id : Uuid) (i : Instruction) → Holds job_id i (job_row clock job_id i)
unfolding job_row
job_row-Holds clock job_id i = record {
  identified = refl;
  of_item = refl;
  of_operation = refl;
  of_tenant = refl;
  capability = refl;
  version = refl;
  arguments = refl;
  window = refl;
  unsent = (refl, refl);
}

-- Where no job has the fresh identifier and `UUID` reads what `str` wrote of it, the row that is read under it
-- after a dispatch holds the work item, operation, organisation, capability, version, arguments and window of
-- the instruction that was given, neither sent nor executed; its result is one that is not recorded yet; and
-- the outbox is read as it was before with one envelope more, the command to execute that job under the
-- instruction's correlation.
pub dispatch_announces :
    (m : UuidText) (defaults : Defaults) (job_id outbox_id : Uuid) (tenant : TenantContext)
    (i : Instruction) (jobs : List IntegrationJobRow) (outbox : List OutboxRow)
    → matching (job_key job_id) jobs ≡ 0
    → m.parse_uuid (m.uuid_text job_id) ≡ some job_id
    → ((r : IntegrationJobRow) × (row_at
            (job_key job_id)
            (dispatch m defaults job_id outbox_id tenant i jobs outbox).jobs
          ≡ some r)
        × Holds job_id i r)
      × (concluded_from
            (read_result job_id (dispatch m defaults job_id outbox_id tenant i jobs outbox).jobs)
          ≡ concluded_pending)
      × (announced m (dispatch m defaults job_id outbox_id tenant i jobs outbox).outbox
          ≡ announced m outbox
            ++ (ok (
                  command (record {
                    job_id = record { value = job_id };
                    correlation_id = i.correlation_id;
                    kind = integration_execute;
                  }))
                ∷ []))
unfolding dispatch enqueue execute_command subject_id
dispatch_announces m defaults job_id outbox_id tenant i jobs outbox fresh reads =
    let (row, pending) = dispatch-reads m defaults job_id outbox_id tenant i jobs outbox fresh in
    let envelope = execute_command job_id i.correlation_id in
    (
      (_, row, job_row-Holds defaults.clock job_id i),
      pending,
      map_last (λ (r : OutboxRow). envelope_from_row m r.kind r.payload) outbox _
          ∙ ap (λ e. announced m outbox ++ (e ∷ []))
              (envelope_from_row-row_payload m envelope reads),
    )
