-- ===== src/Integrations/Jobs.antt =====
-- The durable instruction: integrations/src/integrations/persistence/jobs.py. The joined row is a
-- record, and the columns that RagCore writes are the texts of its enumerations.
use itsm_poc.Common.{
  Bool, true, not, ◌&&◌, List, [], ◌∷◌, any, String, str_eq, str_eq_iff, ltb, ltb→lt, ◌<◌, ◌≡◌,
  refl, subst, arith, Option, none, some,
}
use itsm_poc.Domain.Records.{Uuid, Instant, JsonObject, no_members}
use itsm_poc.Domain.Work.{
  ApprovalState, no_approval, pending, approved_state, rejected_state, expired_state,
}
use itsm_poc.Integrations.Catalogue.{CapabilityIdentity}

pub record JobInstruction : Type 0 where
  pub job_id : Uuid
  pub work_item_id : Uuid
  pub operation_id : Uuid
  pub tenant_id : Uuid
  pub identity : CapabilityIdentity
  pub parameters : JsonObject
  pub expires_at : Instant
  pub work_state : String
  pub approval_state : String
  pub tenant_status : String

abbrev barred_states : List String
barred_states = "cancelled" ∷ "expired" ∷ "closed" ∷ "failed" ∷ []

abbrev authorizing_states : List String
authorizing_states = "approved" ∷ "auto_authorized" ∷ "consented" ∷ []

unfoldable pub is_executable_at : JobInstruction → Instant → Bool
is_executable_at job now =
    str_eq job.tenant_status "active"
    && (not (any (str_eq job.work_state) barred_states)
        && (any (str_eq job.approval_state) authorizing_states && ltb now job.expires_at))

-- The columns of the joined row that `load` selects.
pub record JobRow : Type 0 where
  pub job_id : Uuid
  pub work_item_id : Uuid
  pub operation_id : Uuid
  pub tenant_id : Uuid
  pub identity : CapabilityIdentity
  pub parameters : Option JsonObject
  pub expires_at : Instant
  pub work_expires_at : Option Instant
  pub work_state : String
  pub approval_state : String
  pub tenant_status : String

abbrev or_else {ℓ} : {A : Type ℓ} → Option A → A → A
or_else none a = a
or_else (some b) a = b

-- `JobRepository.load`, from the rows of the query: the work item's window, where it has one.
unfoldable pub load_job : List JobRow → Option JobInstruction
load_job [] = none
load_job (row ∷ rows) = some (record {
  job_id = row.job_id;
  work_item_id = row.work_item_id;
  operation_id = row.operation_id;
  tenant_id = row.tenant_id;
  identity = row.identity;
  parameters = or_else row.parameters no_members;
  expires_at = or_else row.work_expires_at row.expires_at;
  work_state = row.work_state;
  approval_state = row.approval_state;
  tenant_status = row.tenant_status;
})

-- The value of each member of RagCore's `ApprovalState`.
unfoldable pub approval_value : ApprovalState → String
approval_value no_approval = "none"
approval_value pending = "pending"
approval_value approved_state = "approved"
approval_value rejected_state = "rejected"
approval_value expired_state = "expired"

executable_approved :
    (s : ApprovalState)
    → any (str_eq (approval_value s)) authorizing_states ≡ true
    → s ≡ approved_state
unfolding approval_value
executable_approved no_approval h = cc
executable_approved pending h = cc
executable_approved approved_state h = refl
executable_approved rejected_state h = cc
executable_approved expired_state h = cc

-- An instruction whose approval column holds a value that RagCore writes is executable only before
-- the end of its window, for an active organisation, and only when that value is APPROVED.
pub is_executable_approved :
    (job : JobInstruction) (now : Instant) (s : ApprovalState)
    → job.approval_state ≡ approval_value s
    → is_executable_at job now ≡ true
    → (s ≡ approved_state) × (job.tenant_status ≡ "active") × (now < job.expires_at)
unfolding is_executable_at
is_executable_approved job now s e h = (
  executable_approved s (subst (λ x. any (str_eq x) authorizing_states ≡ true) e (ground arith)),
  (str_eq_iff job.tenant_status "active").0 (ground arith),
  ltb→lt now job.expires_at (ground arith),
)
