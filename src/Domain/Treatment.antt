-- ===== src/Domain/Treatment.antt =====
-- Execution treatments and their order of strictness, and the other enumerations of
-- ragcore/src/ragcore/domain/governance.py.
pub mod Order
use itsm_poc.Common.{ℕ, Bool, leb}

pub data ExecutionTreatment : Type 0 where
  auto end_user_approval staff_approval not_allowed : ExecutionTreatment

-- `_STRICTNESS`, the table behind the property.
unfoldable pub strictness : ExecutionTreatment → ℕ
strictness auto = 0
strictness end_user_approval = 1
strictness staff_approval = 2
strictness not_allowed = 3

unfoldable pub is_narrowing : ExecutionTreatment → ExecutionTreatment → Bool
unfolding strictness
is_narrowing before after = leb (strictness before) (strictness after)

pub data CapabilityKind : Type 0 where
  read action : CapabilityKind

pub data ExecutionMethod : Type 0 where
  workload desktop_script no_execution : ExecutionMethod

pub data VerificationOutcome : Type 0 where
  server_confirmed client_attested contradicted : VerificationOutcome

pub data RiskTier : Type 0 where
  informational low_impact : RiskTier
