-- ===== src/Egress/Validation.antt =====
-- What a body that comes back must be: ragcore/src/ragcore/egress/validation.py. The methods of texts are
-- the language's.
use itsm_poc.Common.{ℕ, ltb, String, str_eq, Option, none, some, Result, ok, err, if◌then◌else◌}
use itsm_poc.Domain.Records.{Json, json_none, json_str, json_object, JsonObject, no_members, member}

pub data BoundaryError : Type 0 where
  above_limit : (size limit : ℕ) → BoundaryError
  not_an_object : BoundaryError
  absent not_a_string empty : (field : String) → BoundaryError
  too_long : (field : String) → (size limit : ℕ) → BoundaryError

abbrev pub max_response_bytes : ℕ
max_response_bytes = 1048576

abbrev pub max_text_characters : ℕ
max_text_characters = 32000

pub record BodyText : Type 0 where
  pub strip : String → String
  pub len : String → ℕ

-- A body by the number of its bytes.
unfoldable pub within_size_limit : (size limit : ℕ) → Result BoundaryError ℕ
within_size_limit size limit = if ltb limit size then err (above_limit size limit) else ok size

unfoldable pub require_object : Json → Result BoundaryError JsonObject
require_object (json_object o) = ok o
require_object _ = err not_an_object

-- `payload.get`; a key that stands twice has its last value.
unfoldable pub get_field : String → JsonObject → Option Json
get_field field no_members = none
get_field field (member key value rest) = elim (get_field field rest) [
  | some later ↦ some later
  | none ↦ if str_eq key field then some value else none
]

unfoldable pub checked_text :
    BodyText → (field : String) → (limit : ℕ) → String → Result BoundaryError String
checked_text t field limit value =
    if str_eq (t.strip value) ""
    then err (empty field)
    else if ltb limit (t.len value)
    then err (too_long field (t.len value) limit)
    else ok value

unfoldable pub text_from :
    BodyText → (field : String) → (limit : ℕ) → Option Json → Result BoundaryError String
unfolding checked_text
text_from t field limit none = err (absent field)
text_from t field limit (some json_none) = err (absent field)
text_from t field limit (some (json_str value)) = checked_text t field limit value
text_from t field limit (some _) = err (not_a_string field)

unfoldable pub require_text :
    BodyText → JsonObject → (field : String) → (limit : ℕ) → Result BoundaryError String
unfolding get_field text_from
require_text t payload field limit = text_from t field limit (get_field field payload)

optional_from :
    BodyText → (field : String) → (limit : ℕ) → Option Json → Result BoundaryError (Option String)
unfolding text_from
optional_from t field limit none = ok none
optional_from t field limit (some json_none) = ok none
optional_from t field limit (some value) = elim (text_from t field limit (some value)) [
  | err e ↦ err e
  | ok text ↦ ok (some text)
]

unfoldable pub optional_text :
    BodyText → JsonObject → (field : String) → (limit : ℕ) → Result BoundaryError (Option String)
unfolding get_field optional_from
optional_text t payload field limit = optional_from t field limit (get_field field payload)
