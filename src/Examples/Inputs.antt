-- ===== src/Examples/Inputs.antt =====
-- Inputs that several tests share.
use itsm_poc.Common.{ℕ, true, false, some, Option, leb, ◌≡◌, ◌⊎◌, refl, arith, ◌-◌, [], ◌∷◌}
use itsm_poc.Domain.Treatment.{ExecutionTreatment, action}
use itsm_poc.Domain.Authority.{authenticated_end_user_consent, authenticated_staff_verdict}
use itsm_poc.Domain.Roles.{RoleSet, role_set_of, technician}
use itsm_poc.Domain.Work.{granted, approved}
use itsm_poc.Domain.Records.{
  TenantContext, active, end_user_identity, OperationIdentity, PrincipalId, EndUserConsent,
  StaffVerdict, RecordedDecision, CatalogueEntry, no_members, model,
}
use itsm_poc.Governance.Conditions.{KnowledgeCondition, met, not_met}
use itsm_poc.Governance.Gate.{GateRequest}
use itsm_poc.Retrieval.Scores.{Scores}

pub le_total : (a b : ℕ) → (leb a b ≡ true) ⊎ (leb b a ≡ true)
le_total a b = ground arith

pub le_trans : (a b c : ℕ) → leb a b ≡ true → leb b c ≡ true → leb a c ≡ true
le_trans a b c h k = ground arith

pub le_antisym : (a b : ℕ) → leb a b ≡ true → leb b a ≡ true → a ≡ b
le_antisym a b h k = ground arith

-- Scores as whole hundredths.
abbrev pub cents : Scores
cents = record {
  Score = ℕ;
  le = leb;
  sub = ◌-◌;
  hundredths = λ n. n;
  le_total = le_total;
  le_trans = le_trans;
  le_antisym = le_antisym;
  le-hundredths = λ m n. refl;
}

abbrev pub tenant : TenantContext
tenant = record {
  tenant_id = record { value = 11 };
  entra_tenant_id = record { value = 12 };
  status = active;
  source = end_user_identity;
}

abbrev pub reset : OperationIdentity
reset = record { catalogue_id = "password.reset"; version = 2 }

abbrev pub alice : PrincipalId
alice = record { value = 501 }

abbrev pub bob : PrincipalId
bob = record { value = 777 }

unfoldable pub technicians : RoleSet
technicians = role_set_of (technician ∷ [])

abbrev pub entry : ExecutionTreatment → CatalogueEntry
entry t = record {
  identity = reset;
  treatment = t;
  accepted_roles = technicians;
  kind = action;
  is_reference_fixture = false;
  requires_elevation = false;
}

abbrev pub alice_agrees : EndUserConsent
alice_agrees = record {
  consent_id = record { value = 31 };
  consented_by = alice;
  verdict = granted;
  bound_to = reset;
  decided_at = 1000;
  expires_at = some 1900;
  source = authenticated_end_user_consent;
}

abbrev pub bob_approves : StaffVerdict
bob_approves = record {
  approval_id = record { value = 41 };
  decided_by = bob;
  roles_held = technicians;
  verdict = approved;
  bound_to = reset;
  decided_at = 1000;
  expires_at = some 1900;
  source = authenticated_staff_verdict;
}

abbrev pub grounded : KnowledgeCondition ℕ
grounded = record { outcome = met; top_score = 71; margin = 40; required = true }

abbrev pub ungrounded : KnowledgeCondition ℕ
ungrounded = record { outcome = not_met; top_score = 71; margin = 1; required = true }

abbrev pub request : ExecutionTreatment → Option RecordedDecision → GateRequest ℕ
request t decision = record {
  tenant = tenant;
  proposal = record { identity = reset; parameters = no_members; source = model; rationale = "" };
  entry = some (entry t);
  is_entitled = true;
  requester = alice;
  now = 1500;
  decision = decision;
  authorization_expires_at = some 1900;
  knowledge = grounded;
}
