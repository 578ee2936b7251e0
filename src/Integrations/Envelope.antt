-- ===== src/Integrations/Envelope.antt =====
-- The message of the integration seam: integrations/src/integrations/messaging/envelope.py. The text
-- of a message is decoded by the library's `json`; what it decodes to is a value of `Json`.
use itsm_poc.Common.{
  Bool, true, false, not, ◌||◌, List, [], ◌∷◌, any, String, str_eq, str_eq_iff, Option, none, some,
  Result, ok, err, ◌>>=◌, if◌then◌else◌, ◌≡◌, refl, sym, ap, subst, ◌∙◌, Bool-cases, inl, inr,
  or_true,
}
use itsm_poc.Domain.Records.{Uuid, Json, json_str, json_object, JsonObject, no_members, member}

pub data MessageKind : Type 0 where
  execute completed failed_kind : MessageKind

pub record MessageEnvelope : Type 0 where
  pub job_id : Uuid
  pub correlation_id : String
  pub kind : MessageKind

pub data EnvelopeError : Type 0 where
  not_json not_an_object forbidden_fields missing_fields bad_job_id bad_correlation_id
        kind_outside_the_set :
      EnvelopeError

unfoldable pub kind_value : MessageKind → String
kind_value execute = "integration.execute"
kind_value completed = "integration.completed"
kind_value failed_kind = "integration.failed"

-- The methods of the library that the envelope calls: `str` of a decoded value, `UUID` and `str` of
-- one, and the regular expression of correlation identifiers.
pub record EnvelopeMethods : Type 0 where
  pub text_of : Json → String
  pub parse_uuid : String → Option Uuid
  pub uuid_text : Uuid → String
  pub is_well_formed : String → Bool

abbrev pub permitted_fields : List String
permitted_fields = "jobId" ∷ "correlationId" ∷ "kind" ∷ []

unfoldable pub has_field : String → JsonObject → Bool
has_field name no_members = false
has_field name (member key value rest) = str_eq key name || has_field name rest

unfoldable pub has_forbidden : JsonObject → Bool
has_forbidden no_members = false
has_forbidden (member key value rest) =
    not (any (str_eq key) permitted_fields) || has_forbidden rest

unfoldable pub field_of : String → JsonObject → Option Json
field_of name no_members = none
field_of name (member key value rest) =
    let later = field_of name rest in if str_eq key name then some value else later

unfoldable pub parse_kind : String → Option MessageKind
parse_kind text =
    if str_eq text "integration.execute"
    then some execute
    else if str_eq text "integration.completed"
    then some completed
    else if str_eq text "integration.failed"
    then some failed_kind
    else none

required_field : EnvelopeError → {A : Type 0} → Option A → Result EnvelopeError A
required_field e none = err e
required_field e (some a) = ok a

module _ (m : EnvelopeMethods) where
  open m use {text_of, parse_uuid, uuid_text, is_well_formed}

  correlation_in : Json → Result EnvelopeError String
  correlation_in value =
      if is_well_formed (text_of value) then ok (text_of value) else err bad_correlation_id

  from_fields : JsonObject → Result EnvelopeError MessageEnvelope
  unfolding has_field has_forbidden field_of required_field parse_kind correlation_in
  from_fields fields = if has_forbidden fields then err forbidden_fields else do
    job_value ← required_field missing_fields (field_of "jobId" fields)
    correlation_value ← required_field missing_fields (field_of "correlationId" fields)
    kind_text ← required_field missing_fields (field_of "kind" fields)
    job_id ← required_field bad_job_id (parse_uuid (text_of job_value))
    correlation_id ← correlation_in correlation_value
    kind ← required_field kind_outside_the_set (parse_kind (text_of kind_text))
    ok (record { job_id = job_id; correlation_id = correlation_id; kind = kind })

  -- `from_json`, from what the body decoded to.
  unfoldable pub from_json : Option Json → Result EnvelopeError MessageEnvelope
  unfolding from_fields
  from_json none = err not_json
  from_json (some (json_object fields)) = from_fields fields
  from_json (some _) = err not_an_object

  -- `to_json`, before it is printed: the keys in order.
  unfoldable pub to_json : MessageEnvelope → Json
  to_json e = json_object (
      member "correlationId" (json_str e.correlation_id) (
        member "jobId" (json_str (uuid_text e.job_id))
          (member "kind" (json_str (kind_value e.kind)) no_members)))

  parse_kind-kind_value : (k : MessageKind) → parse_kind (kind_value k) ≡ some k
  unfolding parse_kind kind_value
  parse_kind-kind_value execute = refl
  parse_kind-kind_value completed = refl
  parse_kind-kind_value failed_kind = refl

  -- An object with the three fields of an envelope, as texts and in any order, is read as that envelope: given
  -- that `str` of a text is the text, that `UUID` reads the text of the job identifier, and that the correlation
  -- identifier is well formed.
  pub from_json_read :
      ((s : String) → text_of (json_str s) ≡ s)
      → (e : MessageEnvelope) (fields : JsonObject) (job : String) → has_forbidden fields ≡ false
      → field_of "jobId" fields ≡ some (json_str job)
      → field_of "correlationId" fields ≡ some (json_str e.correlation_id)
      → field_of "kind" fields ≡ some (json_str (kind_value e.kind))
      → parse_uuid job ≡ some e.job_id
      → is_well_formed e.correlation_id ≡ true
      → from_json (some (json_object fields)) ≡ ok e
  unfolding from_json from_fields required_field correlation_in
  from_json_read texts e fields job permitted job_at correlation_at kind_at uuid well = rw (
    permitted,
    job_at,
    correlation_at,
    kind_at,
    texts job,
    texts e.correlation_id,
    texts (kind_value e.kind),
    uuid,
    well,
    parse_kind-kind_value e.kind,
    if◌then◌else◌,
  )

  -- An envelope that is sent is read back as it was.
  pub from_json-to_json :
      ((s : String) → text_of (json_str s) ≡ s)
      → (e : MessageEnvelope) → parse_uuid (uuid_text e.job_id) ≡ some e.job_id
      → is_well_formed e.correlation_id ≡ true
      → from_json (some (to_json e)) ≡ ok e
  unfolding to_json has_forbidden field_of
  from_json-to_json texts e uuid well =
      from_json_read texts e _ (uuid_text e.job_id) refl refl refl refl uuid well

  forbidden-any :
      (name : String) (fields : JsonObject)
      → has_field name fields ≡ true
      → any (str_eq name) permitted_fields ≡ false
      → has_forbidden fields ≡ true
  unfolding has_field has_forbidden
  forbidden-any name no_members h n = cc
  forbidden-any name (member key value rest) h n = elim (Bool-cases (str_eq key name)) [
    | inl same ↦
        ap (λ b. not b || has_forbidden rest)
          (subst (λ k. any (str_eq k) permitted_fields ≡ false) (sym ((str_eq_iff key name).0 same))
            n)
    | inr other ↦
        ap (λ b. not (any (str_eq key) permitted_fields) || b)
          (forbidden-any name rest (sym (ap (λ b. b || has_field name rest) other) ∙ h) n)
        ∙ or_true (not (any (str_eq key) permitted_fields))
  ]

  -- A body with a field outside the three of the contract is refused for that, whatever else it holds.
  pub from_json_forbidden :
      (name : String) (fields : JsonObject)
      → has_field name fields ≡ true
      → any (str_eq name) permitted_fields ≡ false
      → from_json (some (json_object fields)) ≡ err forbidden_fields
  unfolding from_json from_fields
  from_json_forbidden name fields there outside =
      rw (forbidden-any name fields there outside, if◌then◌else◌)
