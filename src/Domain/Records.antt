-- ===== src/Domain/Records.antt =====
-- Identifiers, tenant binding, recorded decisions and proposals:
-- ragcore/src/ragcore/domain/{identifiers,tenancy,decisions,proposal}.py, and the catalogue entry of
-- application/ports.py. A UUID is its integer, an instant is a count of microseconds.
pub mod Equality
use itsm_poc.Common.{ℕ, Bool, true, false, Option, List, String, str_eq, ◌==◌, ◌&&◌, none}
use itsm_poc.Domain.Treatment.{ExecutionTreatment, CapabilityKind}
use itsm_poc.Domain.Authority.{
  AuthoritySource, authenticated_staff_verdict, authenticated_end_user_consent,
}
use itsm_poc.Domain.Roles.{RoleSet}
use itsm_poc.Domain.Work.{ApprovalVerdict, ConsentVerdict}

abbrev pub Uuid : Type 0
Uuid = ℕ

abbrev pub Instant : Type 0
Instant = ℕ

-- `object` values: what a JSON document may hold. A mapping is its list of keys and values.
mutual
  pub data JsonObject : Type 0 where
    no_members : JsonObject
    member : (key : String) → Json → JsonObject → JsonObject

  pub data JsonList : Type 0 where
    no_items : JsonList
    item : Json → JsonList → JsonList

  pub data Json : Type 0 where
    json_none : Json
    json_bool : Bool → Json
    json_int : ℕ → Json
    json_str : String → Json
    json_list : JsonList → Json
    json_object : JsonObject → Json

pub record EntraTenantId : Type 0 where
  pub value : Uuid

pub record PrincipalId : Type 0 where
  pub value : Uuid

pub record TenantId : Type 0 where
  pub value : Uuid

pub record WorkItemId : Type 0 where
  pub value : Uuid

pub record SessionId : Type 0 where
  pub value : Uuid

pub record OperationId : Type 0 where
  pub value : Uuid

pub record ApprovalId : Type 0 where
  pub value : Uuid

pub record ConsentId : Type 0 where
  pub value : Uuid

pub record CorrelationId : Type 0 where
  pub value : String

pub record OperationIdentity : Type 0 where
  pub catalogue_id : String
  pub version : ℕ

-- Equality of two frozen dataclasses is equality of their fields.
unfoldable pub same_identity : OperationIdentity → OperationIdentity → Bool
same_identity a b = str_eq a.catalogue_id b.catalogue_id && a.version == b.version

unfoldable pub same_principal : PrincipalId → PrincipalId → Bool
same_principal a b = a.value == b.value

pub data TenantStatus : Type 0 where
  active suspended offboarded : TenantStatus

pub data TenantSource : Type 0 where
  end_user_identity work_item platform_object : TenantSource

pub record TenantContext : Type 0 where
  pub tenant_id : TenantId
  pub entra_tenant_id : EntraTenantId
  pub status : TenantStatus
  pub source : TenantSource

abbrev is_active : TenantStatus → Bool
is_active active = true
is_active _ = false

unfoldable pub is_admitted : TenantContext → Bool
is_admitted t = is_active t.status

unfoldable pub from_admitted_identity : TenantId → EntraTenantId → TenantStatus → TenantContext
from_admitted_identity t e s = record {
  tenant_id = t;
  entra_tenant_id = e;
  status = s;
  source = end_user_identity;
}

unfoldable pub from_work_item : TenantId → EntraTenantId → TenantStatus → TenantContext
from_work_item t e s = record { tenant_id = t; entra_tenant_id = e; status = s; source = work_item }

unfoldable pub from_platform_object : TenantId → EntraTenantId → TenantStatus → TenantContext
from_platform_object t e s = record {
  tenant_id = t;
  entra_tenant_id = e;
  status = s;
  source = platform_object;
}

pub record StaffVerdict : Type 0 where
  pub approval_id : ApprovalId
  pub decided_by : PrincipalId
  pub roles_held : RoleSet
  pub verdict : ApprovalVerdict
  pub bound_to : OperationIdentity
  pub decided_at : Instant
  pub expires_at : Option Instant
  pub source : AuthoritySource

pub record EndUserConsent : Type 0 where
  pub consent_id : ConsentId
  pub consented_by : PrincipalId
  pub verdict : ConsentVerdict
  pub bound_to : OperationIdentity
  pub decided_at : Instant
  pub expires_at : Option Instant
  pub source : AuthoritySource

-- `StaffVerdict | EndUserConsent`.
pub data RecordedDecision : Type 0 where
  staff : StaffVerdict → RecordedDecision
  end_user : EndUserConsent → RecordedDecision

pub data ProposalSource : Type 0 where
  model deterministic staff_request : ProposalSource

pub record ProposedOperation : Type 0 where
  pub identity : OperationIdentity
  pub parameters : JsonObject
  pub source : ProposalSource
  pub rationale : String

-- The fields that governance reads of a catalogue entry.
pub record CatalogueEntry : Type 0 where
  pub identity : OperationIdentity
  pub treatment : ExecutionTreatment
  pub accepted_roles : RoleSet
  pub kind : CapabilityKind
  pub is_reference_fixture : Bool
  pub requires_elevation : Bool
