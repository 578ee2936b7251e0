-- ===== src/Governance/Catalogue/Fixtures.antt =====
-- The reference fixtures: ragcore/src/ragcore/governance/fixtures.py. Each identifier is written with its
-- prefix. The digest of a fixture's commands and the prefix test of texts are parameters.
use itsm_poc.Common.{
  Bool, true, false, List, [], ◌∷◌, none, some, String, str_eq, Result, ok, err, matching, ◌>>=◌,
  if◌then◌else◌, ◌≡◌, refl,
}
use itsm_poc.Domain.Treatment.{
  ExecutionTreatment, auto, end_user_approval, staff_approval, not_allowed, CapabilityKind, read,
  action, RiskTier, informational, low_impact,
}
use itsm_poc.Domain.Roles.{RoleSet, empty_role_set, role_set_of, technician}
use itsm_poc.Domain.Records.{
  OperationIdentity, JsonObject, no_members, member, json_str, json_none, json_bool,
}
use itsm_poc.Governance.Catalogue.{
  CatalogueRecord, Catalogue, CatalogueError, catalogue_of, admitted_record,
}

pub data FixtureError : Type 0 where
  fixture_in_production : FixtureError
  bad_catalogue : CatalogueError → FixtureError

abbrev reference_prefix : String
reference_prefix = "synthia.reference."

abbrev production_environment : String
production_environment = "production"

unfoldable no_op_commands : (effect : String) → JsonObject
no_op_commands effect = member "operation" (json_str "no-op") (
    member "effect" (json_str effect)
      (member "externalSystem" json_none (member "reversible" (json_bool true) no_members)))

module _ (content_hash : JsonObject → String) where
  unfoldable fixture_record :
      (catalogue_id : String)
      → ExecutionTreatment
      → CapabilityKind
      → RiskTier
      → RoleSet
      → (effect : String) → CatalogueRecord
  unfolding no_op_commands
  fixture_record catalogue_id treatment kind tier accepted effect = record {
    identity = record { catalogue_id = catalogue_id; version = 1 };
    treatment = treatment;
    accepted_roles = accepted;
    kind = kind;
    risk_tier = tier;
    is_reference_fixture = true;
    requires_elevation = false;
    commands = some (no_op_commands effect);
    content_hash = some (content_hash (no_op_commands effect));
    verification_tool = none;
  }

  abbrev echo_fixture : CatalogueRecord
  echo_fixture =
      fixture_record "synthia.reference.echo" auto read informational empty_role_set
        "Returns a fixed value. Reads nothing and changes nothing."

  abbrev self_service_note : CatalogueRecord
  self_service_note =
      fixture_record "synthia.reference.self-service-note" end_user_approval action low_impact
        empty_role_set "Would annotate the requester's own record. Annotates nothing."

  abbrev staff_note : CatalogueRecord
  staff_note =
      fixture_record "synthia.reference.staff-note" staff_approval action low_impact
        (role_set_of (technician ∷ []))
        "Would annotate a platform record on the organisation's behalf. Annotates nothing."

  abbrev withheld_fixture : CatalogueRecord
  withheld_fixture =
      fixture_record "synthia.reference.withheld" not_allowed action low_impact empty_role_set
        "Refused at the gate. Never surfaced as approvable, and never executed."

  abbrev four_fixtures : List CatalogueRecord
  four_fixtures = echo_fixture ∷ self_service_note ∷ staff_note ∷ withheld_fixture ∷ []

  -- Each of the four is constructed, then the catalogue of them is.
  unfoldable fixture_catalogue : Result CatalogueError Catalogue
  unfolding fixture_record admitted_record catalogue_of
  fixture_catalogue = do
    echo ← admitted_record echo_fixture
    own ← admitted_record self_service_note
    noted ← admitted_record staff_note
    kept ← admitted_record withheld_fixture
    catalogue_of (echo ∷ own ∷ noted ∷ kept ∷ [])

  as_fixtures : Result CatalogueError Catalogue → Result FixtureError Catalogue
  as_fixtures (err e) = err (bad_catalogue e)
  as_fixtures (ok c) = ok c

  unfoldable pub reference_fixtures : (environment : String) → Result FixtureError Catalogue
  unfolding fixture_catalogue as_fixtures
  reference_fixtures environment =
      if str_eq environment production_environment
      then err fixture_in_production
      else as_fixtures fixture_catalogue

  unfoldable pub is_reference_operation :
      (starts_with : (prefix text : String) → Bool) → OperationIdentity → Bool
  is_reference_operation starts_with identity = starts_with reference_prefix identity.catalogue_id

  abbrev pub is_treated : ExecutionTreatment → CatalogueRecord → Bool
  is_treated auto r = elim r.treatment [ auto ↦ true | _ ↦ false ]
  is_treated end_user_approval r = elim r.treatment [ end_user_approval ↦ true | _ ↦ false ]
  is_treated staff_approval r = elim r.treatment [ staff_approval ↦ true | _ ↦ false ]
  is_treated not_allowed r = elim r.treatment [ not_allowed ↦ true | _ ↦ false ]

  one_is_treated : (t : ExecutionTreatment) → matching (is_treated t) four_fixtures ≡ 1
  unfolding fixture_record
  one_is_treated auto = refl
  one_is_treated end_user_approval = refl
  one_is_treated staff_approval = refl
  one_is_treated not_allowed = refl

  -- Outside production the fixtures make a catalogue, with one entry for each treatment.
  pub one_of_each_treatment :
      (environment : String)
      → str_eq environment production_environment ≡ false
      → (c : Catalogue) × (reference_fixtures environment ≡ ok c)
        × ((t : ExecutionTreatment) → matching (is_treated t) c.entries ≡ 1)
  unfolding reference_fixtures fixture_catalogue fixture_record as_fixtures catalogue_of
      admitted_record
  one_of_each_treatment environment elsewhere =
      (record { entries = four_fixtures }, rw (elsewhere, if◌then◌else◌) refl, one_is_treated)
