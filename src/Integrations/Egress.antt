-- ===== src/Integrations/Egress.antt =====
-- Outbound calls of the integration service: integrations/src/integrations/egress/http.py. The answers of
-- the network are a parameter: one for each attempt, none where the client library raised.
pub mod Reported
use itsm_poc.Common.{
  ℕ, zero, suc, Bool, true, false, not, ◌||◌, ◌&&◌, List, [], ◌∷◌, any, Option, none, some, ltb,
  leb, ◌==◌, Result, ok, err, if◌then◌else◌,
}
use itsm_poc.Domain.Records.{Json, json_object, JsonObject, no_members}

pub data EgressError : Type 0 where
  could_not_complete did_not_succeed : EgressError

pub record OutboundResponse : Type 0 where
  pub status_code : ℕ
  pub payload : JsonObject

unfoldable pub succeeded : OutboundResponse → Bool
succeeded r = leb 200 r.status_code && ltb r.status_code 300

-- What the client library returned: a status, and the decoded body where it is JSON.
pub record HttpAnswer : Type 0 where
  pub status_code : ℕ
  pub body : Option Json

unfoldable pub decode : Option Json → JsonObject
decode (some (json_object o)) = o
decode _ = no_members

abbrev pub transient_statuses : List ℕ
transient_statuses = 429 ∷ 500 ∷ 502 ∷ 503 ∷ 504 ∷ []

-- The requests made, and what the call returned or raised; the waits have a random part and are left out.
pub record Sending : Type 0 where
  pub calls : ℕ
  pub result : Result EgressError OutboundResponse

unfoldable pub attempts_of : (retriable : Bool) → ℕ
attempts_of retriable = if retriable then 3 else 1

unfoldable pub answered : HttpAnswer → Sending
unfolding decode
answered r = record {
  calls = 1;
  result = ok (record { status_code = r.status_code; payload = decode r.body });
}

unfoldable pub one_attempt :
    (retriable : Bool) → (attempt : ℕ) → Option HttpAnswer → (rest : Sending) → Sending
unfolding answered attempts_of
one_attempt retriable attempt none rest =
    if not retriable || attempt == attempts_of retriable
    then record { calls = 1; result = err could_not_complete }
    else record rest { calls = suc rest.calls }
one_attempt retriable attempt (some r) rest =
    if retriable
      && (any (λ s. r.status_code == s) transient_statuses && ltb attempt (attempts_of retriable))
    then record rest { calls = suc rest.calls }
    else answered r

unfoldable pub sending : (ℕ → Option HttpAnswer) → (retriable : Bool) → (left attempt : ℕ) → Sending
unfolding one_attempt
sending network retriable zero attempt = record { calls = 0; result = err did_not_succeed }
sending network retriable (suc left) attempt =
    let rest = sending network retriable left (suc attempt) in
    one_attempt retriable attempt (network attempt) rest

-- `ResilientCaller.send`.
unfoldable pub send_call : (ℕ → Option HttpAnswer) → (retriable : Bool) → Sending
unfolding sending attempts_of
send_call network retriable = sending network retriable (attempts_of retriable) 1
