-- ===== src/Api/Positions.antt =====
-- Where a document lets a client assert authority: `authority_findings` of
-- ragcore/src/ragcore/api/openapi.py, over the walk of Api/Authority. The positions and their exceptions are
-- those of build/policy/openapi-disclosure.json, which the module reads. Where the code takes a section of the
-- document for a mapping or a list without a test, the model takes any other value for an empty one.
pub mod Parts
pub mod Reported
use itsm_poc.Common.{
  Bool, true, false, not, ◌&&◌, List, [], ◌∷◌, ◌++◌, any, map, String, str_eq, Option, none, some,
  if◌then◌else◌, sort_by,
}
use itsm_poc.Domain.Records.{
  Json, json_str, json_list, json_object, JsonObject, no_members, member, JsonList, no_items, item,
}
use itsm_poc.Api.Components.{schema_named, is_wanted}
use itsm_poc.Api.Authority.{Finding, NamePolicy, dict_or_none, authority_in_request}
use itsm_poc.Api.Disclosure.{distinct}

-- An exception to the rule: a name that the documents of some audiences may take at a place.
pub record NameException : Type 0 where
  pub name : String
  pub place : String
  pub audiences : List String

pub record Positions : Type 0 where
  pub forbidden_in : List String
  pub exceptions : List NameException

-- What a finding's text names: a parameter of an operation, or a field of a schema.
pub data Channelled : Type 0 where
  parameter_channel : (place name method path : String) → Channelled
  field_channel : Finding → Channelled

-- `lower`, `str` of a value, the text of a finding and the order of texts.
pub record PositionText : Type 0 where
  pub lower : String → String
  pub text_of : Json → String
  pub finding_text : Channelled → String
  pub is_before : String → String → Bool

abbrev pub http_methods : List String
http_methods = "get" ∷ "put" ∷ "post" ∷ "delete" ∷ "patch" ∷ "head" ∷ "options" ∷ "trace" ∷ []

unfoldable pub list_or_none : Option Json → JsonList
list_or_none (some (json_list items)) = items
list_or_none _ = no_items

-- `document.get("components", {}).get("schemas", {})`.
unfoldable pub schemas_of : (document : JsonObject) → JsonObject
unfolding dict_or_none schema_named
schemas_of document =
    dict_or_none (schema_named "schemas" (dict_or_none (schema_named "components" document)))

-- The findings of two parts, where the walks of both end.
unfoldable pub and_then :
    Option (List Channelled) → Option (List Channelled) → Option (List Channelled)
and_then (some found) (some more) = some (found ++ more)
and_then _ _ = none

unfoldable pub as_fields : Option (List Finding) → Option (List Channelled)
as_fields none = none
as_fields (some found) = some (map field_channel found)

module _ (t : PositionText) (policy : NamePolicy) (p : Positions) where
  open t use {lower, text_of, finding_text, is_before}

  -- `str(parameter.get(key, ""))`.
  unfoldable pub text_at : (key : String) → JsonObject → String
  text_at key parameter = elim (schema_named key parameter) [ none ↦ "" | some v ↦ text_of v ]

  module _ (audience : String) where
    unfoldable pub is_permitted : (name place : String) → Bool
    is_permitted name place =
        any
          (λ (e : NameException).
            str_eq (policy.normalise e.name) (policy.normalise name)
            && (str_eq e.place place && any (str_eq audience) e.audiences))
          p.exceptions

    unfoldable pub is_asserting : JsonObject → Bool
    unfolding text_at is_permitted
    is_asserting parameter =
        is_wanted (policy.normalise (text_at "name" parameter)) policy.names
        && not (is_permitted (text_at "name" parameter) (text_at "in" parameter))

    unfoldable pub on_parameters : (path method : String) → JsonList → List Channelled
    unfolding is_asserting text_at
    on_parameters path method no_items = []
    on_parameters path method (item (json_object parameter) rest) =
        let later = on_parameters path method rest in
        if is_asserting parameter
        then parameter_channel (text_at "in" parameter) (text_at "name" parameter) method path
          ∷ later
        else later
    on_parameters path method (item _ rest) = on_parameters path method rest

    module _ (schemas : JsonObject) where
      unfoldable pub on_body : Option Json → Option (List Channelled)
      unfolding authority_in_request as_fields
      on_body (some (json_object body)) =
          as_fields (authority_in_request policy schemas (json_object body))
      on_body _ = some []

      unfoldable pub on_operation : (path method : String) → JsonObject → Option (List Channelled)
      unfolding on_parameters on_body list_or_none and_then
      on_operation path method operation =
          and_then
            (if any (str_eq "parameter") p.forbidden_in
              then some
                  (on_parameters path method (list_or_none (schema_named "parameters" operation)))
              else some [])
            (if any (str_eq "requestBody") p.forbidden_in
              then on_body (schema_named "requestBody" operation)
              else some [])

      unfoldable pub on_methods : (path : String) → JsonObject → Option (List Channelled)
      unfolding on_operation and_then
      on_methods path no_members = some []
      on_methods path (member method (json_object operation) rest) =
          let later = on_methods path rest in
          if any (str_eq (lower method)) http_methods
          then and_then (on_operation path method operation) later
          else later
      on_methods path (member method _ rest) = on_methods path rest

      unfoldable pub on_paths : JsonObject → Option (List Channelled)
      unfolding on_methods and_then
      on_paths no_members = some []
      on_paths (member path (json_object operations) rest) =
          and_then (on_methods path operations) (on_paths rest)
      on_paths (member path _ rest) = on_paths rest

    unfoldable pub finding_texts : Option (List Channelled) → Option (List String)
    unfolding distinct
    finding_texts none = none
    finding_texts (some found) = some (sort_by is_before (distinct (map finding_text found)))

    unfoldable pub authority_findings : (document : JsonObject) → Option (List String)
    unfolding on_paths schemas_of dict_or_none finding_texts
    authority_findings document =
        finding_texts
          (on_paths (schemas_of document) (dict_or_none (schema_named "paths" document)))
