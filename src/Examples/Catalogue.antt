-- ===== src/Examples/Catalogue.antt =====
-- Catalogues and lookups on concrete entries, and the theorems about them applied to those.
use itsm_poc.Common.{
  true, false, [], ◌∷◌, none, some, ok, err, ◌>>=◌, ◌≡◌, ◌≤◌, refl, arith, if◌then◌else◌, matching,
}
use itsm_poc.Domain.Treatment.{staff_approval, action, low_impact}
use itsm_poc.Domain.Roles.{technician, role_set_of, parse}
use itsm_poc.Governance.Catalogue.{
  CatalogueRecord, GovernanceRow, catalogue_of, role_names, stored_value, record_from_row,
  shared_identity, elevation_not_permitted, not_a_member,
}
use itsm_poc.Persistence.Rows.{row_at}
use itsm_poc.Persistence.Catalogue.{EntitlementRow, lookup, is_entitled, is_entitlement, record_of}
use itsm_poc.Persistence.Catalogue.Entitled.{is_row_of, lookup_entitled}
use itsm_poc.Examples.Inputs.{tenant}

abbrev note_row : GovernanceRow
note_row = record {
  catalogue_id = "staff-note";
  version = 2;
  kind = stored_value "action";
  default_treatment = stored_value "STAFF_APPROVAL";
  accepted_roles = role_names ("technician" ∷ []);
  is_reference_fixture = false;
  requires_elevation = false;
  risk_tier = stored_value "low_impact";
  commands = none;
  content_hash = some "ab12";
  verification_tool = none;
}

abbrev note : CatalogueRecord
note = record {
  identity = record { catalogue_id = "staff-note"; version = 2 };
  treatment = staff_approval;
  accepted_roles = role_set_of (technician ∷ []);
  kind = action;
  risk_tier = low_impact;
  is_reference_fixture = false;
  requires_elevation = false;
  commands = none;
  content_hash = some "ab12";
  verification_tool = none;
}

abbrev older : CatalogueRecord
older = record note { identity = record { catalogue_id = "staff-note"; version = 1 } }

row_is_read : record_from_row note_row ≡ ok note
unfolding record_from_row parse
row_is_read = refl

elevation_is_refused :
    record_from_row (record note_row { requires_elevation = true })
    ≡ err (elevation_not_permitted note.identity)
unfolding record_from_row parse
elevation_is_refused = refl

misspelt_kind_is_refused :
    record_from_row (record note_row { kind = stored_value "ACTION" }) ≡ err (not_a_member "ACTION")
unfolding record_from_row parse
misspelt_kind_is_refused = refl

repeated_is_refused : catalogue_of (note ∷ older ∷ note ∷ []) ≡ err (shared_identity note.identity)
unfolding catalogue_of
repeated_is_refused = refl

abbrev entitlement : EntitlementRow
entitlement = record {
  tenant_id = 11;
  catalogue_id = "staff-note";
  enabled = true;
  credential_reference = none;
}

one_entitlement : matching (is_entitlement tenant "staff-note") (entitlement ∷ []) ≤ 1
unfolding is_entitlement
one_entitlement = omega arith

one_row : matching (is_row_of note.identity) (note_row ∷ []) ≤ 1
unfolding is_row_of
one_row = omega arith

is_found : lookup tenant note.identity (entitlement ∷ []) (note_row ∷ []) ≡ ok (some note)
unfolding lookup parse
is_found = refl

disabled_is_not_found :
    lookup tenant note.identity (record entitlement { enabled = false } ∷ []) (note_row ∷ [])
    ≡ ok none
unfolding lookup parse
disabled_is_not_found = refl

lookup_entitled_example : lookup tenant note.identity (entitlement ∷ []) (note_row ∷ []) ≡ (
    is_entitled tenant "staff-note" (entitlement ∷ []) >>= λ entitled.
    if entitled then record_of (row_at (is_row_of note.identity) (note_row ∷ [])) else ok none)
lookup_entitled_example =
    lookup_entitled tenant note.identity (entitlement ∷ []) (note_row ∷ []) one_entitlement one_row
