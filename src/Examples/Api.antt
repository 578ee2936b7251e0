-- ===== src/Examples/Api.antt =====
-- Component schemas on a small document, and the theorem about them applied to it.
use itsm_poc.Api.Correlation.{
  CorrelationText, RequestScope, no_state, response_start, other_message, AppRun, correlate,
  resolve,
}
use itsm_poc.Api.Correlation.Echoed.{Carries, correlate_echoes}
use itsm_poc.Common.{
  In, inl, inr, All, str_eq, List, [], ◌∷◌, true, false, String, some, ◌≡◌, ◌↔◌, refl,
}
use itsm_poc.Domain.Records.{
  Json, json_str, json_list, json_object, no_items, item, JsonObject, no_members, member,
}
use itsm_poc.Api.Components.{reachable_components, schema_named, references, keep, is_wanted}
use itsm_poc.Api.Components.Reach.{Reachable, direct, through, reachable_components_iff}
use itsm_poc.Api.Authority.{
  NamePolicy, dict_or_none, authority_in_request, authority_fields, properties_of,
}
use itsm_poc.Api.Disclosure.{
  DisclosureText, DisclosurePolicy, secret_name, internal_name, walk_names, disclosure_findings,
  distinct,
}
use itsm_poc.Api.Disclosure.Clean.{Occurs, IsPublishable, disclosure_findings_none_iff}
use itsm_poc.Api.Positions.{
  Positions, PositionText, Channelled, http_methods, parameter_channel, field_channel, schemas_of,
  on_paths, authority_findings,
}
use itsm_poc.Api.Problems.{relabel_problem_media_type, is_problem}
use itsm_poc.Api.Positions.Reported.{Channel, as_field, first_field, later_field, channels_reported}

abbrev pointing_at : String → Json
pointing_at reference = json_object (member "$ref" (json_str reference) no_members)

-- A path refers to A, which refers to itself and to B; nothing refers to C.
abbrev section_b : JsonObject
section_b =
    member "B" (json_object no_members)
      (member "C" (pointing_at "#/components/schemas/A") no_members)

abbrev schema_a : Json
schema_a = json_object (
    member "left" (pointing_at "#/components/schemas/B")
      (member "right" (pointing_at "#/components/schemas/A") no_members))

abbrev section : JsonObject
section = member "A" schema_a section_b

abbrev paths : Json
paths = json_object (member "/work" (pointing_at "#/components/schemas/A") no_members)

reachable_components_test :
    reachable_components section paths
    ≡ some (member "A" schema_a (member "B" (json_object no_members) no_members))
unfolding reachable_components references schema_named keep
reachable_components_test = refl

reachable_components_iff_example :
    (kept : JsonObject) × (reachable_components section paths ≡ some kept)
    × ((name : String) (schema : Json)
        → (schema_named name kept ≡ some schema)
          ↔ ((schema_named name section ≡ some schema) × Reachable section paths name))
reachable_components_iff_example = reachable_components_iff section paths

-- The body refers to A, which refers to B, and B has a property of authority.
abbrev policy : NamePolicy
policy = record { normalise = λ name. name; names = "tenantid" ∷ "roles" ∷ [] }

abbrev authority_b : Json
authority_b = json_object (
    member "properties"
      (json_object (
        member "note" (json_object no_members)
          (member "tenantid" (json_object no_members) no_members)))
      no_members)

abbrev request_section : JsonObject
request_section = member "A" schema_a (member "B" authority_b no_members)

channel_test :
    authority_in_request policy request_section (pointing_at "#/components/schemas/A")
    ≡ some (record { field = "tenantid"; schema_name = "B" } ∷ [])
unfolding authority_in_request references schema_named is_wanted
channel_test = refl

a-Reachable : Reachable request_section (pointing_at "#/components/schemas/A") "A"
unfolding references schema_named is_wanted
a-Reachable = direct refl refl

b-Reachable : Reachable request_section (pointing_at "#/components/schemas/A") "B"
unfolding references schema_named is_wanted
b-Reachable = through a-Reachable refl refl refl

b_offends : is_wanted "tenantid" (authority_fields policy (properties_of authority_b)) ≡ true
unfolding authority_fields properties_of schema_named is_wanted
b_offends = refl

b_named : schema_named "B" request_section ≡ some authority_b
unfolding schema_named
b_named = refl

-- An operation with a parameter and a body that assert authority.
abbrev asserting : JsonObject
asserting =
    member "parameters"
      (json_list (
        item
          (json_object
            (member "name" (json_str "roles") (member "in" (json_str "header") no_members)))
          no_items))
      (member "requestBody" (pointing_at "#/components/schemas/A") no_members)

abbrev document : JsonObject
document =
    member "paths"
      (json_object (
        member "/work" (json_object (member "post" (json_object asserting) no_members)) no_members))
      (member "components" (json_object (member "schemas" (json_object request_section) no_members))
        no_members)

abbrev position_text : PositionText
position_text = record {
  lower = λ s. s;
  text_of = λ v. elim v [ json_str s ↦ s | _ ↦ "" ];
  finding_text =
      λ c. elim c [ parameter_channel place name method path ↦ name | field_channel f ↦ f.field ];
  is_before = λ a b. false;
}

-- Authority is asserted in a query of the staff's documents alone.
abbrev positions : Positions
positions = record {
  forbidden_in = "parameter" ∷ "requestBody" ∷ [];
  exceptions = record { name = "tenantid"; place = "query"; audiences = "staff" ∷ [] } ∷ [];
}

authority_findings_test :
    authority_findings position_text policy positions "customer" document
    ≡ some ("roles" ∷ "tenantid" ∷ [])
unfolding authority_findings references schema_named is_wanted schemas_of dict_or_none on_paths
    authority_in_request distinct
authority_findings_test = refl

post_is_method : In "post" http_methods
post_is_method = inr (inr (inl refl))

b-Channel :
    Channel position_text policy positions "customer" document
      (field_channel (record { field = "tenantid"; schema_name = "B" }))
unfolding schemas_of dict_or_none schema_named is_wanted references authority_fields properties_of
b-Channel =
    as_field "/work" "post" refl refl post_is_method (inr (inl refl)) refl b-Reachable refl
      (later_field first_field) (inl refl)

channels_reported_example :
    (texts : List String) × (authority_findings position_text policy positions "customer" document
      ≡ some texts)
    × ((c : Channelled)
        → Channel position_text policy positions "customer" document c
        → In (position_text.finding_text c) texts)
channels_reported_example = channels_reported position_text policy positions "customer" document

-- The property of a schema that the body reaches is such a way, and so it is reported.
b_reported :
    (texts : List String) × (authority_findings position_text policy positions "customer" document
      ≡ some texts)
    × In "tenantid" texts
b_reported =
    let (texts, found, each) =
      channels_reported position_text policy positions "customer" document in
    (
      texts,
      found,
      each (field_channel (record { field = "tenantid"; schema_name = "B" })) b-Channel,
    )

-- The names of one letter case, and a part of a text is the whole text.
abbrev disclosure_text : DisclosureText
disclosure_text = record {
  normalise = λ name. name;
  contains = str_eq;
  finding_text = λ d. elim d [ secret_name n ↦ n.name | internal_name n ↦ n.name ];
  is_before = λ a b. false;
}

abbrev disclosure_policy : DisclosurePolicy
disclosure_policy = record {
  secrets = "apikey" ∷ "roles" ∷ [];
  internals = "outbox" ∷ [];
  structural = "security" ∷ "paths" ∷ [];
}

-- Values are not searched, and neither is a key of the format.
disclosure_test :
    disclosure_findings disclosure_text disclosure_policy (
      member "security" (json_str "apikey") (
        member "left"
          (json_list (item (json_object (member "outbox" (json_str "x") no_members)) no_items))
          no_members))
    ≡ "outbox" ∷ []
unfolding disclosure_findings walk_names
disclosure_test = refl

disclosure_findings_none_iff_example :
    (disclosure_findings disclosure_text disclosure_policy document ≡ []) ↔ (
      (name : String)
      → Occurs name (json_object document)
      → IsPublishable disclosure_text disclosure_policy name)
disclosure_findings_none_iff_example =
    disclosure_findings_none_iff disclosure_text disclosure_policy document

-- One identifier is well formed, and names are written in lower case.
abbrev correlation_text : CorrelationText
correlation_text = record { lower = λ name. name; is_well_formed = λ id. str_eq id "c-17" }

abbrev asking : RequestScope
asking = record {
  is_http = true;
  headers = record { name = "x-correlation-id"; value = "c-17" } ∷ [];
  state = no_state;
}

-- An application that sets the header itself, and is cancelled after its answer began.
abbrev cancelled_app : RequestScope → (variable : String) → AppRun
cancelled_app scope variable = record {
  sent =
      response_start (
        record { name = "x-correlation-id"; value = "inner" }
        ∷ record { name = "content-type"; value = "text" }
        ∷ [])
      ∷ other_message "body"
      ∷ [];
  is_raised = true;
}

correlate_echoes_example :
    (correlation_text.is_well_formed (resolve correlation_text "c-17" asking.headers) ≡ true)
    × All
        (Carries correlation_text (resolve correlation_text "c-17" asking.headers))
        (correlate correlation_text cancelled_app "c-17" "outer" asking).sent
    × ((correlate correlation_text cancelled_app "c-17" "outer" asking).variable ≡ "outer")
correlate_echoes_example =
    correlate_echoes correlation_text cancelled_app "c-17" "outer" asking refl refl refl

abbrev problem_entry : Json
problem_entry =
    json_object (member "schema" (pointing_at "#/components/schemas/ProblemDetails") no_members)

abbrev with_responses : (content : JsonObject) → JsonObject
with_responses content =
    member "paths"
      (json_object (
        member "/work"
          (json_object (
            member "get"
              (json_object (
                member "responses"
                  (json_object (
                    member "404" (json_object (member "content" (json_object content) no_members))
                      no_members))
                  no_members))
              no_members))
          no_members))
      no_members

relabel_test :
    relabel_problem_media_type (with_responses (member "application/json" problem_entry no_members))
    ≡ with_responses (member "application/problem+json" problem_entry no_members)
unfolding relabel_problem_media_type is_problem schema_named
relabel_test = refl
