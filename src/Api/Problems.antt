-- ===== src/Api/Problems.antt =====
-- The media type of problem responses: `relabel_problem_media_type` of ragcore/src/ragcore/api/openapi.py. The
-- document is changed in place, which is its replacement here. Where the code takes a section for a mapping
-- without a test, the model leaves any other value as it is.
pub mod Relabelled
use itsm_poc.Common.{
  Bool, true, false, not, ◌&&◌, ◌||◌, String, str_eq, Option, none, some, if◌then◌else◌,
}
use itsm_poc.Domain.Records.{Json, json_str, json_object, JsonObject, no_members, member}
use itsm_poc.Api.Components.{schema_named}

abbrev pub problem_schema_ref : String
problem_schema_ref = "#/components/schemas/ProblemDetails"

abbrev pub problem_media_type : String
problem_media_type = "application/problem+json"

abbrev pub default_media_type : String
default_media_type = "application/json"

is_reference : Option Json → Bool
is_reference (some (json_str text)) = str_eq text problem_schema_ref
is_reference _ = false

refers_to_problem : Option Json → Bool
unfolding is_reference schema_named
refers_to_problem (some (json_object schema)) = is_reference (schema_named "$ref" schema)
refers_to_problem _ = false

unfoldable pub is_problem : Option Json → Bool
unfolding refers_to_problem schema_named
is_problem (some (json_object entry)) = refers_to_problem (schema_named "schema" entry)
is_problem _ = false

unfoldable pub has_member : String → JsonObject → Bool
has_member name no_members = false
has_member name (member key value rest) = str_eq key name || has_member name rest

-- `content.pop(name)`.
unfoldable pub without_member : String → JsonObject → JsonObject
without_member name no_members = no_members
without_member name (member key value rest) =
    let kept = without_member name rest in if str_eq key name then kept else member key value kept

-- `content[name] = value`, of a name that is not there.
unfoldable pub with_member : String → Json → JsonObject → JsonObject
with_member name added no_members = member name added no_members
with_member name added (member key value rest) = member key value (with_member name added rest)

unfoldable pub relabel_entry : Option Json → JsonObject → JsonObject
unfolding is_problem has_member without_member with_member
relabel_entry none content = content
relabel_entry (some entry) content =
    if is_problem (some entry) && not (has_member problem_media_type content)
    then with_member problem_media_type entry (without_member default_media_type content)
    else content

unfoldable pub relabel_content : JsonObject → JsonObject
unfolding relabel_entry
relabel_content content = relabel_entry (schema_named default_media_type content) content

-- A change of a mapping, of one of its values, and of each of them.
unfoldable pub inside : (JsonObject → JsonObject) → Json → Json
inside f (json_object fields) = json_object (f fields)
inside f value = value

unfoldable pub at_member : String → (Json → Json) → JsonObject → JsonObject
at_member name f no_members = no_members
at_member name f (member key value rest) =
    member key (if str_eq key name then f value else value) (at_member name f rest)

unfoldable pub each_member : (Json → Json) → JsonObject → JsonObject
each_member f no_members = no_members
each_member f (member key value rest) = member key (f value) (each_member f rest)

unfoldable pub relabel_response : Json → Json
unfolding relabel_content inside at_member
relabel_response = inside (at_member "content" (inside relabel_content))

unfoldable pub relabel_operation : Json → Json
unfolding relabel_response each_member
relabel_operation = inside (at_member "responses" (inside (each_member relabel_response)))

unfoldable pub relabel_item : Json → Json
unfolding relabel_operation
relabel_item = inside (each_member relabel_operation)

unfoldable pub relabel_problem_media_type : (document : JsonObject) → JsonObject
unfolding relabel_item
relabel_problem_media_type = at_member "paths" (inside (each_member relabel_item))
