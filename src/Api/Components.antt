-- ===== src/Api/Components.antt =====
-- Which component schemas a document reaches: `_references` and `_reachable_components` of
-- ragcore/src/ragcore/api/openapi.py. The component section is its object; the loop runs on fuel, and
-- Components/Loops shows how much is enough.
pub mod Loops
pub mod Turns
pub mod Reach
use Prim.Native.String.{len, slice}
use text.Mathlib.Text.{starts_with}
use itsm_poc.Common.{
  ℕ, zero, suc, ◌+◌, Bool, true, false, ◌&&◌, ◌||◌, not, List, [], ◌∷◌, ◌++◌, any, String, str_eq,
  Option, none, some, if◌then◌else◌, length,
}
use itsm_poc.Domain.Records.{
  Json, json_str, json_list, json_object, JsonObject, no_members, member, JsonList, no_items, item,
}

-- The names of one `$ref` value, none for a text that does not point at a component.
unfoldable pub referred : String → List String
referred text =
    if starts_with text "#/components/schemas/"
    then slice text (len "#/components/schemas/") (len text) ∷ []
    else []

unfoldable mutual
  unfolding referred

  pub references : Json → List String
  references (json_object fields) = references_in fields
  references (json_list items) = references_of items
  references _ = []

  references_in : JsonObject → List String
  references_in no_members = []
  references_in (member key (json_str text) rest) =
      (if str_eq key "$ref" then referred text else []) ++ references_in rest
  references_in (member key value rest) = references value ++ references_in rest

  references_of : JsonList → List String
  references_of no_items = []
  references_of (item value rest) = references value ++ references_of rest

unfoldable pub schema_named : String → JsonObject → Option Json
schema_named name no_members = none
schema_named name (member key schema rest) =
    let later = schema_named name rest in if str_eq key name then some schema else later

-- `wanted`, and `frontier` with its last node first.
pub record Search : Type 0 where
  pub wanted : List String
  pub frontier : List Json

unfoldable pub is_wanted : String → List String → Bool
is_wanted name wanted = any (λ other. str_eq other name) wanted

note_schema : String → Option Json → Search → Search
note_schema name none s = s
note_schema name (some schema) s = record {
  wanted = name ∷ s.wanted;
  frontier = schema ∷ s.frontier;
}

unfoldable pub note : JsonObject → String → Search → Search
unfolding is_wanted note_schema
note schemas name s =
    if is_wanted name s.wanted then s else note_schema name (schema_named name schemas) s

unfoldable pub note_all : JsonObject → List String → Search → Search
unfolding note
note_all schemas [] s = s
note_all schemas (name ∷ names) s = note_all schemas names (note schemas name s)

-- The loop, if the fuel suffices.
unfoldable pub explore :
    JsonObject → (fuel : ℕ) → (wanted : List String) → (frontier : List Json) → Option (List String)
unfolding note_all
explore schemas zero wanted [] = some wanted
explore schemas zero wanted (node ∷ rest) = none
explore schemas (suc fuel) wanted [] = some wanted
explore schemas (suc fuel) wanted (node ∷ rest) =
    let next = note_all schemas (references node) (record { wanted = wanted; frontier = rest }) in
    explore schemas fuel next.wanted next.frontier

-- `{name: schema for name, schema in all_schemas.items() if name in wanted}`.
unfoldable pub keep : List String → JsonObject → JsonObject
keep wanted no_members = no_members
keep wanted (member name schema rest) =
    if is_wanted name wanted then member name schema (keep wanted rest) else keep wanted rest

abbrev pub size : JsonObject → ℕ
size no_members = 0
size (member name schema rest) = 1 + size rest

kept_from : JsonObject → Option (List String) → Option JsonObject
kept_from schemas none = none
kept_from schemas (some wanted) = some (keep wanted schemas)

-- `_reachable_components`, from the component section and the paths of an audience.
unfoldable pub reachable_components : JsonObject → (paths : Json) → Option JsonObject
unfolding explore kept_from
reachable_components no_members paths = some no_members
reachable_components (member name schema rest) paths =
    let schemas = member name schema rest in
    kept_from schemas (explore schemas (1 + size schemas) [] (paths ∷ []))
