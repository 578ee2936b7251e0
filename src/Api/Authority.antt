-- ===== src/Api/Authority.antt =====
-- The fields of a request by which a client could assert authority: `_authority_in_request` of
-- ragcore/src/ragcore/api/openapi.py. A finding is the field and the schema that its text names. The
-- frontier is a set: a list to which a name is added once.
pub mod Walks
pub mod Channels
use itsm_poc.Common.{
  ℕ, zero, suc, ◌+◌, Bool, true, false, List, [], ◌∷◌, ◌++◌, String, str_eq, Option, none, some,
  if◌then◌else◌, length,
}
use itsm_poc.Domain.Records.{Json, json_object, JsonObject, no_members, member}
use itsm_poc.Api.Components.{references, schema_named, is_wanted}

pub record Finding : Type 0 where
  pub field : String
  pub schema_name : String

-- `_normalise`, which is the standard library's `lower` and `isalnum`, and the names of authority.
pub record NamePolicy : Type 0 where
  pub normalise : String → String
  pub names : List String

unfoldable pub dict_or_none : Option Json → JsonObject
dict_or_none (some (json_object fields)) = fields
dict_or_none _ = no_members

-- `schema.get("properties", {})`, without those that are no dictionary.
unfoldable pub properties_of : Json → JsonObject
unfolding dict_or_none
properties_of (json_object fields) = dict_or_none (schema_named "properties" fields)
properties_of _ = no_members

unfoldable pub authority_fields : NamePolicy → JsonObject → List String
authority_fields policy no_members = []
authority_fields policy (member field value rest) =
    let later = authority_fields policy rest in
    if is_wanted (policy.normalise field) policy.names then field ∷ later else later

unfoldable pub findings_on : String → List String → List Finding
findings_on schema_name [] = []
findings_on schema_name (field ∷ fields) =
    record { field = field; schema_name = schema_name } ∷ findings_on schema_name fields

-- `frontier |= set(names) - reached`.
unfoldable pub join_frontier : (reached : List String) → List String → List String → List String
join_frontier reached [] frontier = frontier
join_frontier reached (name ∷ names) frontier =
    let rest = join_frontier reached names frontier in
    if is_wanted name reached then rest else if is_wanted name rest then rest else name ∷ rest

pub record Walk : Type 0 where
  pub frontier : List String
  pub reached : List String
  pub findings : List Finding

module _ (policy : NamePolicy) (schemas : JsonObject) where
  unfoldable pub enter_schema : String → Option Json → Walk → Walk
  unfolding join_frontier properties_of authority_fields findings_on
  enter_schema name none w = w
  enter_schema name (some schema) w =
      let reached = name ∷ w.reached in
      record {
        frontier = join_frontier reached (references schema) w.frontier;
        reached = reached;
        findings = w.findings ++ findings_on name (authority_fields policy (properties_of schema));
      }

  -- The turn of a name that was popped.
  unfoldable pub visit : String → Walk → Walk
  unfolding enter_schema
  visit name w =
      if is_wanted name w.reached then w else enter_schema name (schema_named name schemas) w

  -- The loop, if the fuel suffices.
  unfoldable pub walk :
      (fuel : ℕ) → (frontier reached : List String) → List Finding → Option (List Finding)
  unfolding visit
  walk zero [] reached findings = some findings
  walk zero (name ∷ rest) reached findings = none
  walk (suc fuel) [] reached findings = some findings
  walk (suc fuel) (name ∷ rest) reached findings =
      let next = visit name (record { frontier = rest; reached = reached; findings = findings }) in
      walk fuel next.frontier next.reached next.findings

-- A unit for each schema, and one for each reference of it.
unfoldable pub weight : JsonObject → (reached : List String) → ℕ
weight no_members reached = 0
weight (member name schema rest) reached =
    if is_wanted name reached
    then weight rest reached
    else 1 + length (references schema) + weight rest reached

-- `_authority_in_request`, from the component section and the request body.
unfoldable pub authority_in_request :
    NamePolicy → JsonObject → (body : Json) → Option (List Finding)
unfolding join_frontier walk weight
authority_in_request policy schemas body =
    let frontier = join_frontier [] (references body) [] in
    walk policy schemas (length frontier + weight schemas []) frontier [] []
