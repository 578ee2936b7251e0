-- ===== src/Contracts/Documents.antt =====
-- What the comparison reads of a document: build/scripts/openapi_diff.py. A document is a decoded JSON
-- object. Where the code takes a value for a mapping without a test, the model takes any other value for an
-- empty one.
use itsm_poc.Common.{
  Bool, true, false, not, ◌&&◌, ◌==◌, List, [], ◌∷◌, any, Option, none, some, String, str_eq,
  if◌then◌else◌, sort_by,
}
use itsm_poc.Domain.Records.{
  Json, json_none, json_bool, json_int, json_str, json_list, json_object, JsonObject, no_members,
  member, JsonList, no_items, item,
}
use text.Mathlib.Text.{starts_with}

-- The methods of the language: texts in lower case and their order, `str` of a value, the rest of a text
-- after a prefix, the key of a parameter, and the text of a combined type.
pub record DocumentText : Type 0 where
  pub lower : String → String
  pub before : String → String → Bool
  pub text_of : Json → String
  pub after_prefix : (prefix text : String) → String
  pub parameter_key : (place name : Option Json) → String
  pub combined_text : (key : String) → List String → String

unfoldable pub at_key : String → JsonObject → Option Json
at_key name no_members = none
at_key name (member key value rest) = if str_eq key name then some value else at_key name rest

unfoldable pub object_or_none : Option Json → JsonObject
object_or_none (some (json_object o)) = o
object_or_none _ = no_members

unfoldable pub object_at : String → JsonObject → JsonObject
unfolding at_key object_or_none
object_at name o = object_or_none (at_key name o)

unfoldable pub items_or_none : Option Json → JsonList
items_or_none (some (json_list l)) = l
items_or_none _ = no_items

unfoldable pub keys : JsonObject → List String
keys no_members = []
keys (member key value rest) = key ∷ keys rest

-- Python's truth of a value that may be missing.
unfoldable pub is_true : Option Json → Bool
is_true none = false
is_true (some json_none) = false
is_true (some (json_bool b)) = b
is_true (some (json_int n)) = not (n == 0)
is_true (some (json_str s)) = not (str_eq s "")
is_true (some (json_list no_items)) = false
is_true (some (json_list (item _ _))) = true
is_true (some (json_object no_members)) = false
is_true (some (json_object (member _ _ _))) = true

pub record OperationKey : Type 0 where
  pub path : String
  pub method : String

unfoldable pub same_key : OperationKey → OperationKey → Bool
same_key a b = str_eq a.path b.path && str_eq a.method b.method

pub record Operation : Type 0 where
  pub key : OperationKey
  pub body : JsonObject

abbrev pub methods : List String
methods = "get" ∷ "put" ∷ "post" ∷ "delete" ∷ "patch" ∷ "head" ∷ "options" ∷ "trace" ∷ []

unfoldable pub put_operation : Operation → List Operation → List Operation
unfolding same_key
put_operation o [] = o ∷ []
put_operation o (x ∷ found) =
    let rest = put_operation o found in if same_key x.key o.key then o ∷ found else x ∷ rest

unfoldable pub operation_at : OperationKey → List Operation → JsonObject
unfolding same_key
operation_at key [] = no_members
operation_at key (x ∷ found) = if same_key x.key key then x.body else operation_at key found

module _ (t : DocumentText) where
  open t use {lower, before, text_of, after_prefix, parameter_key, combined_text}

  unfoldable pub operations_of_item : (path : String) → JsonObject → List Operation → List Operation
  unfolding put_operation
  operations_of_item path no_members found = found
  operations_of_item path (member method (json_object o) rest) found =
      if any (str_eq (lower method)) methods
      then operations_of_item path rest (
          put_operation (record { key = record { path = path; method = lower method }; body = o })
            found)
      else operations_of_item path rest found
  operations_of_item path (member method _ rest) found = operations_of_item path rest found

  unfoldable pub operations_of_paths : JsonObject → List Operation → List Operation
  unfolding operations_of_item
  operations_of_paths no_members found = found
  operations_of_paths (member path (json_object o) rest) found =
      operations_of_paths rest (operations_of_item path o found)
  operations_of_paths (member path _ rest) found = operations_of_paths rest found

  unfoldable pub operations : JsonObject → List Operation
  unfolding operations_of_paths object_at
  operations document = operations_of_paths (object_at "paths" document) []

  unfoldable pub schema_at : JsonObject → (reference : String) → Option Json
  unfolding object_at at_key
  schema_at document reference =
      if starts_with reference "#/components/schemas/"
      then at_key (after_prefix "#/components/schemas/" reference)
          (object_at "schemas" (object_at "components" document))
      else none

  -- `_resolve`, of a value that is an object.
  unfoldable pub resolve_reference : JsonObject → JsonObject → Option Json → JsonObject
  unfolding schema_at object_or_none
  resolve_reference document node (some (json_str reference)) =
      if starts_with reference "#/components/schemas/"
      then object_or_none (schema_at document reference)
      else node
  resolve_reference document node _ = node

  unfoldable pub resolved : JsonObject → JsonObject → JsonObject
  unfolding resolve_reference at_key
  resolved document node = resolve_reference document node (at_key "$ref" node)

  unfoldable pub json_schema : JsonObject → JsonObject → JsonObject
  unfolding resolved object_at
  json_schema document carrier =
      resolved document
        (object_at "schema" (object_at "application/json" (object_at "content" carrier)))

  unfoldable pub request_schema : JsonObject → JsonObject → JsonObject
  unfolding json_schema
  request_schema document operation = json_schema document (object_at "requestBody" operation)

  unfoldable pub response_schema : JsonObject → JsonObject → (code : String) → JsonObject
  unfolding json_schema
  response_schema document operation code =
      json_schema document (object_at code (object_at "responses" operation))

  text_items : JsonList → List String
  text_items no_items = []
  text_items (item value rest) = text_of value ∷ text_items rest

  -- The names that a schema requires.
  unfoldable pub required : JsonObject → List String
  unfolding text_items items_or_none at_key
  required schema = text_items (items_or_none (at_key "required" schema))

  unfoldable pub enum_of : JsonObject → List String
  unfolding text_items items_or_none at_key
  enum_of schema = text_items (items_or_none (at_key "enum" schema))

  described : JsonObject → (any_of one_of all_of : Option String) → String
  unfolding at_key
  described schema any_of one_of all_of = elim (at_key "type" schema) [
    | some value ↦ text_of value
    | none ↦ elim (at_key "$ref" schema) [
      | some value ↦ text_of value
      | none ↦ elim any_of [
        | some text ↦ text
        | none ↦ elim one_of [
          | some text ↦ text
          | none ↦ elim all_of [ some text ↦ text | none ↦ "unspecified" ]
        ]
      ]
    ]
  ]

  combined_from : (key : String) → Option (List String) → Option String
  combined_from key none = none
  combined_from key (some parts) = some (combined_text key (sort_by before parts))

  unfoldable mutual
    unfolding described combined_from

    combined_in : (key : String) → JsonObject → Option String
    combined_in key no_members = none
    combined_in key (member name value rest) =
        let later = combined_in key rest in
        let parts = parts_of value in if str_eq name key then combined_from key parts else later

    parts_of : Json → Option (List String)
    parts_of (json_list parts) = some (types_of parts)
    parts_of _ = none

    types_of : JsonList → List String
    types_of no_items = []
    types_of (item value rest) = type_of_value value ∷ types_of rest

    type_of_value : Json → String
    type_of_value (json_object schema) =
        described schema (combined_in "anyOf" schema) (combined_in "oneOf" schema)
          (combined_in "allOf" schema)
    type_of_value _ = "unspecified"

  -- `_type_of`.
  unfoldable pub type_of : JsonObject → String
  unfolding type_of_value
  type_of schema = type_of_value (json_object schema)
