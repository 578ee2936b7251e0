-- ===== src/Integrations/Catalogue.antt =====
-- The catalogue's types and the access decision: integrations/src/integrations/domain/catalogue.py.
use itsm_poc.Common.{
  ℕ, Bool, true, false, Option, none, some, String, str_eq, ltb, Result, ok, err, if◌then◌else◌,
}

pub data IdempotencyPolicy : Type 0 where
  derived_key no_key : IdempotencyPolicy

pub data AccessRefusal : Type 0 where
  not_entitled not_registered version_mismatch no_binding : AccessRefusal

pub record CapabilityIdentity : Type 0 where
  pub catalogue_id : String
  pub version : ℕ

pub data IdentityError : Type 0 where
  blank_identifier : IdentityError
  version_below_one : ℕ → IdentityError

-- The construction of an identity, over the method `str.strip`.
unfoldable pub new_identity :
    (String → String) → String → ℕ → Result IdentityError CapabilityIdentity
new_identity strip catalogue_id version =
    if str_eq (strip catalogue_id) ""
    then err blank_identifier
    else if ltb version 1
    then err (version_below_one version)
    else ok (record { catalogue_id = catalogue_id; version = version })

pub record ConnectorBinding : Type 0 where
  pub identity : CapabilityIdentity
  pub connector_id : String
  pub base_endpoint : String
  pub operation_path : String
  pub signing_profile : Option String
  pub idempotency_policy : IdempotencyPolicy
  pub is_reference_fixture : Bool

pub record AccessDecision : Type 0 where
  pub binding : Option ConnectorBinding
  pub refusal : Option AccessRefusal

is_none {ℓ} : {A : Type ℓ} → Option A → Bool
is_none none = true
is_none (some a) = false

is_there {ℓ} : {A : Type ℓ} → Option A → Bool
is_there none = false
is_there (some a) = true

unfoldable pub permitted : AccessDecision → Bool
unfolding is_none is_there
permitted d = if is_there d.binding then is_none d.refusal else false

abbrev pub allow : ConnectorBinding → AccessDecision
allow binding = record { binding = some binding; refusal = none }

abbrev pub refuse_access : AccessRefusal → AccessDecision
refuse_access why = record { binding = none; refusal = some why }
