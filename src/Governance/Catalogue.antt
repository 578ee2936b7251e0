-- ===== src/Governance/Catalogue.antt =====
-- Catalogue records, the row that one is read from, and the catalogue of known entries:
-- ragcore/src/ragcore/governance/catalogue.py.
pub mod Entries
pub mod Fixtures
use itsm_poc.Common.{
  ℕ, Bool, true, false, List, [], ◌∷◌, ◌++◌, map, Option, none, some, String, str_eq, ltb, ◌==◌,
  ◌&&◌, Result, ok, err, ◌>>=◌, if◌then◌else◌, sort_by,
}
use itsm_poc.Domain.Treatment.{
  ExecutionTreatment, auto, end_user_approval, staff_approval, not_allowed, CapabilityKind, read,
  action, RiskTier, informational, low_impact,
}
use itsm_poc.Domain.Roles.{StaffRole, RoleSet, empty_role_set, role_set_of, parse}
use itsm_poc.Domain.Records.{OperationIdentity, same_identity, JsonObject}

pub record CatalogueRecord : Type 0 where
  pub identity : OperationIdentity
  pub treatment : ExecutionTreatment
  pub accepted_roles : RoleSet
  pub kind : CapabilityKind
  pub risk_tier : RiskTier
  pub is_reference_fixture : Bool
  pub requires_elevation : Bool
  pub commands : Option JsonObject
  pub content_hash : Option String
  pub verification_tool : Option String

pub data CatalogueError : Type 0 where
  elevation_not_permitted bad_version shared_identity : OperationIdentity → CatalogueError
  no_catalogue_id : CatalogueError
  undefined_role not_a_member : String → CatalogueError

-- `__post_init__`, which every construction runs.
unfoldable pub admitted_record : CatalogueRecord → Result CatalogueError CatalogueRecord
admitted_record r =
    if r.requires_elevation
    then err (elevation_not_permitted r.identity)
    else if str_eq r.identity.catalogue_id ""
    then err no_catalogue_id
    else if ltb r.identity.version 1
    then err (bad_version r.identity)
    else ok r

abbrev pub is_action : CapabilityKind → Bool
is_action read = false
is_action action = true

unfoldable pub is_consequential : CatalogueRecord → Bool
is_consequential r = is_action r.kind

unfoldable pub can_be_server_confirmed : CatalogueRecord → Bool
can_be_server_confirmed r = elim r.verification_tool [ none ↦ false | some _ ↦ true ]

-- A column of roles: null, a set that was built before, or the names.
pub data StoredRoles : Type 0 where
  null_roles : StoredRoles
  built_roles : RoleSet → StoredRoles
  role_names : List String → StoredRoles

known_roles : List String → Result CatalogueError (List StaffRole)
known_roles [] = ok []
known_roles (name ∷ names) = elim (parse name) [
  | none ↦ err (undefined_role name)
  | some role ↦ known_roles names >>= λ roles. ok (role ∷ roles)
]

unfoldable pub roles_from : StoredRoles → Result CatalogueError RoleSet
unfolding known_roles
roles_from null_roles = ok empty_role_set
roles_from (built_roles s) = ok s
roles_from (role_names names) = known_roles names >>= λ roles. ok (role_set_of roles)

-- A column of an enumeration: a member, or the value of one.
pub data Stored {ℓ} (E : Type ℓ) : Type ℓ where
  stored_member : E → Stored E
  stored_value : String → Stored E

unfoldable pub member_from {ℓ} :
    {E : Type ℓ} → (String → Option E) → Stored E → Result CatalogueError E
member_from by_value (stored_member e) = ok e
member_from by_value (stored_value v) = elim (by_value v) [
  | none ↦ err (not_a_member v)
  | some e ↦ ok e
]

abbrev pub treatment_of_value : String → Option ExecutionTreatment
treatment_of_value v =
    if str_eq v "AUTO"
    then some auto
    else if str_eq v "END_USER_APPROVAL"
    then some end_user_approval
    else if str_eq v "STAFF_APPROVAL"
    then some staff_approval
    else if str_eq v "NOT_ALLOWED"
    then some not_allowed
    else none

abbrev pub kind_of_value : String → Option CapabilityKind
kind_of_value v =
    if str_eq v "read" then some read else if str_eq v "action" then some action else none

abbrev pub risk_tier_of_value : String → Option RiskTier
risk_tier_of_value v =
    if str_eq v "informational"
    then some informational
    else if str_eq v "low_impact"
    then some low_impact
    else none

-- The columns of `governance_record` that a lookup selects.
pub record GovernanceRow : Type 0 where
  pub catalogue_id : String
  pub version : ℕ
  pub kind : Stored CapabilityKind
  pub default_treatment : Stored ExecutionTreatment
  pub accepted_roles : StoredRoles
  pub is_reference_fixture : Bool
  pub requires_elevation : Bool
  pub risk_tier : Stored RiskTier
  pub commands : Option JsonObject
  pub content_hash : Option String
  pub verification_tool : Option String

unfoldable pub identity_of_row : GovernanceRow → OperationIdentity
identity_of_row row = record { catalogue_id = row.catalogue_id; version = row.version }

-- A row has every column, so that the case of a missing one does not arise.
unfoldable pub record_from_row : GovernanceRow → Result CatalogueError CatalogueRecord
unfolding identity_of_row roles_from member_from admitted_record
record_from_row row = do
  treatment ← member_from treatment_of_value row.default_treatment
  accepted ← roles_from row.accepted_roles
  kind ← member_from kind_of_value row.kind
  tier ← member_from risk_tier_of_value row.risk_tier
  admitted_record (record {
    identity = identity_of_row row;
    treatment = treatment;
    accepted_roles = accepted;
    kind = kind;
    risk_tier = tier;
    is_reference_fixture = row.is_reference_fixture;
    requires_elevation = row.requires_elevation;
    commands = row.commands;
    content_hash = row.content_hash;
    verification_tool = row.verification_tool;
  })

-- The mapping of identities to records, in the order of insertion.
pub record Catalogue : Type 0 where
  pub entries : List CatalogueRecord

unfoldable pub entry_of : OperationIdentity → List CatalogueRecord → Option CatalogueRecord
unfolding same_identity
entry_of identity [] = none
entry_of identity (r ∷ entries) =
    if same_identity r.identity identity then some r else entry_of identity entries

unfoldable pub find : Catalogue → OperationIdentity → Option CatalogueRecord
unfolding entry_of
find c identity = entry_of identity c.entries

-- `if key in entries: raise` and `entries[key] = record`.
unfoldable pub enter :
    List CatalogueRecord → CatalogueRecord → Result CatalogueError (List CatalogueRecord)
unfolding entry_of
enter entries r = elim (entry_of r.identity entries) [
  | none ↦ ok (entries ++ (r ∷ []))
  | some _ ↦ err (shared_identity r.identity)
]

unfoldable pub enter_all :
    List CatalogueRecord → List CatalogueRecord → Result CatalogueError (List CatalogueRecord)
unfolding enter
enter_all entries [] = ok entries
enter_all entries (r ∷ records) = enter entries r >>= λ more. enter_all more records

-- `Catalogue.of`.
unfoldable pub catalogue_of : List CatalogueRecord → Result CatalogueError Catalogue
unfolding enter_all
catalogue_of records = enter_all [] records >>= λ entries. ok (record { entries = entries })

-- `str` of an identity, and the order of texts.
pub record IdentityText : Type 0 where
  pub text : OperationIdentity → String
  pub is_before : String → String → Bool

-- `__iter__`.
unfoldable pub iterate : IdentityText → Catalogue → List CatalogueRecord
iterate t c =
    sort_by (λ (a b : CatalogueRecord). t.is_before (t.text a.identity) (t.text b.identity))
      c.entries
