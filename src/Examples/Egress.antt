-- ===== src/Examples/Egress.antt =====
-- Outbound calls and what comes back on concrete answers, and the theorems about them applied to those.
use itsm_poc.Common.{
  ℕ, ◌*◌, ◌/◌, ◌≤◌, true, ◌==◌, [], ◌∷◌, In, String, Option, none, some, str_eq, ok, ◌≡◌, ◌↔◌, refl,
  if◌then◌else◌,
}
use itsm_poc.Domain.Records.{json_str, json_object, JsonObject, no_members, member}
use itsm_poc.Egress.Resilient.{
  Network, RetryPolicy, Answer, response, timed_out, send, checked_policy,
}
use itsm_poc.Egress.Resilient.Bounded.{Ended, send-Ended}
use itsm_poc.Integrations.Egress.{HttpAnswer, send_call}
use itsm_poc.Integrations.Egress.Reported.{Reports, send_call-Reports}
use itsm_poc.Integrations.Normalization.{
  Provider, NormalizedResult, normalize_tool_result, value_of, first_reference, reference_keys,
  max_payload_bytes,
}
use itsm_poc.Integrations.Normalization.Kept.{tool_result_keeps}
use itsm_poc.Api.Identity.{HeaderText, Scope, handle_scope, handed_on, rejected_for}
use itsm_poc.Api.Identity.Asserted.{HeaderClaims, ParameterClaims, handed_on_iff}
use itsm_poc.Examples.Inputs.{cents}

-- A response as its status.
abbrev statuses : Network cents
statuses = record {
  Response = ℕ;
  status_code = λ (s : ℕ). s;
  status_text = λ s. "HTTP";
  times = λ (a b : ℕ). a * b / 100;
}

abbrev three_tries : RetryPolicy cents
three_tries = record { max_attempts = 3; backoff_seconds = 50 }

abbrev twice_busy : ℕ → Answer ℕ
twice_busy attempt =
    if attempt == 1 then timed_out else if attempt == 2 then response 503 else response 200

third_try_returns :
    send statuses "graph" twice_busy three_tries
    ≡ record { calls = 3; waits = 50 ∷ 100 ∷ []; result = ok 200 }
unfolding send
third_try_returns = refl

three_tries_are_allowed : checked_policy cents three_tries ≡ ok three_tries
unfolding checked_policy
three_tries_are_allowed = refl

send-Ended_example :
    Ended statuses "graph" twice_busy 1 3 (send statuses "graph" twice_busy three_tries) × (3 ≤ 5)
send-Ended_example = send-Ended statuses "graph" twice_busy three_tries three_tries_are_allowed

abbrev always_busy : ℕ → Option HttpAnswer
always_busy attempt = some (record { status_code = 503; body = none })

-- The third answer is returned, busy as it is.
busy_is_returned :
    send_call always_busy true
    ≡ record { calls = 3; result = ok (record { status_code = 503; payload = no_members }) }
unfolding send_call
busy_is_returned = refl

send_call-Reports_example :
    Reports always_busy 1 (if true then 3 else 1) (send_call always_busy true)
send_call-Reports_example = send_call-Reports always_busy true

abbrev provider : Provider
provider = record {
  size = λ body. 120;
  is_forbidden_key = λ key. str_eq key "access_token";
  strip = λ text. text;
  len = λ text. 7;
}

abbrev answer_body : JsonObject
answer_body = member "number" (json_str "INC0010") (
    member "access_token" (json_str "t0k3n") (
      member "detail" (json_object (member "access_token" (json_str "t0k3n") no_members))
        no_members))

-- A forbidden key inside a value is not looked at.
abbrev kept_body : JsonObject
kept_body =
    member "number" (json_str "INC0010") (
      member "detail" (json_object (member "access_token" (json_str "t0k3n") no_members))
        no_members)

abbrev kept_result : NormalizedResult
kept_result = record { external_reference = some "INC0010"; payload = kept_body }

token_is_dropped : normalize_tool_result provider answer_body ≡ ok kept_result
unfolding normalize_tool_result
token_is_dropped = refl

tool_result_keeps_example :
    (provider.size answer_body ≤ max_payload_bytes)
    × (value_of "detail" kept_body
        ≡ (if provider.is_forbidden_key "detail" then none else value_of "detail" answer_body))
    × (kept_result.external_reference
        ≡ first_reference provider (reference_keys provider) kept_body)
tool_result_keeps_example =
    tool_result_keeps provider answer_body {out = kept_result} "detail" token_is_dropped

-- A name in a spelling that the methods fold, and a query of two pairs.
abbrev header_text : HeaderText
header_text = record {
  lower = λ name. if str_eq name "X-Tenant-Id" then "x-tenant-id" else name;
  without = λ mark name. if str_eq name "x-tenant-id" then "xtenantid" else name;
  without_prefix = λ prefix name. if str_eq name "xtenantid" then "tenantid" else name;
  split =
      λ mark query. if str_eq query "page=2&role=x" then "page=2" ∷ "role=x" ∷ [] else query ∷ [];
  before_mark = λ mark pair.
      if str_eq pair "role=x" then "role" else if str_eq pair "page=2" then "page" else pair;
}

abbrev plain_scope : Scope
plain_scope = record {
  is_http = true;
  path = "/tenant/10/work";
  headers = "accept" ∷ "x-gateway-oid" ∷ [];
  query_string = "page=2";
}

tenant_header_is_rejected :
    handle_scope header_text
      ("x-gateway-oid" ∷ [])
      (record plain_scope { headers = "accept" ∷ "X-Tenant-Id" ∷ [] })
    ≡ rejected_for "X-Tenant-Id"
unfolding handle_scope
tenant_header_is_rejected = refl

role_parameter_is_rejected :
    handle_scope header_text
      ("x-gateway-oid" ∷ [])
      (record plain_scope { query_string = "page=2&role=x" })
    ≡ rejected_for "role"
unfolding handle_scope
role_parameter_is_rejected = refl

handed_on_iff_example :
    ((handle_scope header_text ("x-gateway-oid" ∷ []) plain_scope ≡ handed_on) ↔ (
      ((name : String)
        → In name plain_scope.headers
        → ¬ HeaderClaims header_text ("x-gateway-oid" ∷ []) name)
      × ((pair : String)
          → In pair (header_text.split "&" plain_scope.query_string)
          → ¬ ParameterClaims header_text ("x-gateway-oid" ∷ []) pair)))
    × (handle_scope header_text ("x-gateway-oid" ∷ []) (record plain_scope { path = "/work" })
        ≡ handle_scope header_text ("x-gateway-oid" ∷ []) plain_scope)
handed_on_iff_example = handed_on_iff header_text ("x-gateway-oid" ∷ []) plain_scope "/work" refl

-- A request whose path asserts an organisation is handed on.
path_is_handed_on : handle_scope header_text ("x-gateway-oid" ∷ []) plain_scope ≡ handed_on
unfolding handle_scope
path_is_handed_on = refl
