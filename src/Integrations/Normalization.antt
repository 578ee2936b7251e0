-- ===== src/Integrations/Normalization.antt =====
-- What of a provider's answer comes inward: integrations/src/integrations/execution/normalization.py.
pub mod Kept
use itsm_poc.Common.{
  ℕ, Bool, true, false, not, ◌&&◌, List, [], ◌∷◌, any, String, str_eq, ltb, Option, none, some,
  Result, ok, err, ◌>>=◌, if◌then◌else◌,
}
use itsm_poc.Domain.Records.{Json, json_str, JsonObject, no_members, member}

pub data NormalizationError : Type 0 where
  above_boundary no_case_identifier no_display_name field_above_bound : NormalizationError

-- The bytes of a body that is serialised again, the search of the pattern of forbidden keys, and the
-- methods of texts.
pub record Provider : Type 0 where
  pub size : JsonObject → ℕ
  pub is_forbidden_key : String → Bool
  pub strip : String → String
  pub len : String → ℕ

pub record NormalizedResult : Type 0 where
  pub external_reference : Option String
  pub payload : JsonObject

pub record NormalizedProfile : Type 0 where
  pub display_name : String
  pub mail : Option String

abbrev pub case_fields : List String
case_fields = "number" ∷ "sys_id" ∷ "state" ∷ "short_description" ∷ "opened_at" ∷ []

abbrev pub max_payload_bytes : ℕ
max_payload_bytes = 65536

-- A dictionary comprehension that keeps the items whose key passes.
unfoldable pub keep_fields : (String → Bool) → JsonObject → JsonObject
keep_fields keeps no_members = no_members
keep_fields keeps (member key value rest) =
    let kept = keep_fields keeps rest in if keeps key then member key value kept else kept

-- The value of a key. The keys of a dictionary are distinct, so that the first is the only one.
unfoldable pub value_of : String → JsonObject → Option Json
value_of name no_members = none
value_of name (member key value rest) = if str_eq key name then some value else value_of name rest

unfoldable pub case_result : Option String → JsonObject → Result NormalizationError NormalizedResult
case_result none payload = err no_case_identifier
case_result (some reference) payload =
    ok (record { external_reference = some reference; payload = payload })

module _ (p : Provider) where
  open p use {size, is_forbidden_key, strip, len}

  unfoldable pub text_or_none : Option Json → Option String
  text_or_none (some (json_str text)) =
      let candidate = strip text in if str_eq candidate "" then none else some candidate
  text_or_none _ = none

  unfoldable pub first_reference : List String → JsonObject → Option String
  unfolding value_of text_or_none
  first_reference [] payload = none
  first_reference (key ∷ keys) payload = elim (text_or_none (value_of key payload)) [
    | some candidate ↦ some candidate
    | none ↦ first_reference keys payload
  ]

  abbrev pub reference_keys : List String
  reference_keys = "number" ∷ "sys_id" ∷ []

  unfoldable pub is_case_field : String → Bool
  is_case_field key = any (str_eq key) case_fields && not (is_forbidden_key key)

  unfoldable pub within_boundary : JsonObject → Result NormalizationError JsonObject
  within_boundary raw = if ltb max_payload_bytes (size raw) then err above_boundary else ok raw

  unfoldable pub normalize_case_result : JsonObject → Result NormalizationError NormalizedResult
  unfolding within_boundary keep_fields is_case_field first_reference case_result
  normalize_case_result raw = do
    body ← within_boundary raw
    case_result (first_reference reference_keys (keep_fields is_case_field body))
        (keep_fields is_case_field body)

  unfoldable pub normalize_tool_result : JsonObject → Result NormalizationError NormalizedResult
  unfolding within_boundary keep_fields first_reference
  normalize_tool_result raw = do
    body ← within_boundary raw
    ok (record {
      external_reference =
          first_reference reference_keys (keep_fields (λ key. not (is_forbidden_key key)) body);
      payload = keep_fields (λ key. not (is_forbidden_key key)) body;
    })

  bounded : ℕ → Option String → Result NormalizationError (Option String)
  bounded limit none = ok none
  bounded limit (some candidate) =
      if ltb limit (len candidate) then err field_above_bound else ok (some candidate)

  -- `_bounded_text`.
  unfoldable pub bounded_text :
      (limit : ℕ) → Option Json → Result NormalizationError (Option String)
  unfolding text_or_none bounded
  bounded_text limit value = bounded limit (text_or_none value)

  named_profile : JsonObject → Option String → Result NormalizationError NormalizedProfile
  unfolding bounded_text value_of
  named_profile raw none = err no_display_name
  named_profile raw (some display_name) = do
    mail ← bounded_text 320 (value_of "mail" raw)
    ok (record { display_name = display_name; mail = mail })

  unfoldable pub normalize_directory_profile :
      JsonObject → Result NormalizationError NormalizedProfile
  unfolding within_boundary bounded_text value_of named_profile
  normalize_directory_profile raw = do
    body ← within_boundary raw
    display_name ← bounded_text 256 (value_of "displayName" body)
    named_profile body display_name
