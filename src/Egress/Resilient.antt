-- ===== src/Egress/Resilient.antt =====
-- Outbound HTTP under one policy of retries: ragcore/src/ragcore/egress/http.py. The answers of the network
-- are a parameter: one for each attempt.
pub mod Bounded
use itsm_poc.Common.{
  ℕ, zero, suc, ◌+◌, ◌-◌, ◌*◌, ◌^◌, Bool, not, ◌||◌, ◌&&◌, List, [], ◌∷◌, Option, none, some,
  String, ltb, leb, ◌==◌, Result, ok, err, if◌then◌else◌,
}
use itsm_poc.Retrieval.Scores.{Scores}
use text.Mathlib.Text.{starts_with}

pub data IntegrationError : Type 0 where
  transient permanent : (system : String) → (reason : String) → IntegrationError

pub data RequestError : Type 0 where
  unbounded_timeout not_https too_many_attempts : RequestError

-- The fields of a request that its construction checks; seconds are floating-point numbers.
pub record OutboundRequest (f : Scores) : Type 0 where
  pub url : String
  pub timeout_seconds : f.Score

-- `OutboundRequest.__post_init__`.
unfoldable pub checked_request :
    (f : Scores) → OutboundRequest f → Result RequestError (OutboundRequest f)
checked_request f r =
    if f.le r.timeout_seconds (f.hundredths 0) || not (f.le r.timeout_seconds (f.hundredths 12000))
    then err unbounded_timeout
    else if not (starts_with r.url "https://")
    then err not_https
    else ok r

pub record RetryPolicy (f : Scores) : Type 0 where
  pub max_attempts : ℕ
  pub backoff_seconds : f.Score

-- `RetryPolicy.__post_init__`.
unfoldable pub checked_policy : (f : Scores) → RetryPolicy f → Result RequestError (RetryPolicy f)
checked_policy f p =
    if leb 1 p.max_attempts && leb p.max_attempts 5 then ok p else err too_many_attempts

-- What one request gave: a response, or one of the client library's exceptions.
pub data Answer (Response : Type 0) : Type 0 where
  response : Response → Answer Response
  timed_out transport_failed : Answer Response

-- A response's status, the message of one, and the product of floating-point numbers.
pub record Network (f : Scores) : Type 1 where
  pub Response : Type 0
  pub status_code : Response → ℕ
  pub status_text : ℕ → String
  pub times : f.Score → f.Score → f.Score

-- How one attempt ends: the loop is left, or `last` is set and it goes on.
pub data Attempt (Response : Type 0) : Type 0 where
  returns : Response → Attempt Response
  raises goes_on : IntegrationError → Attempt Response

-- What `send` did: the requests made, the waits between them, and what it returned or raised.
pub record Sent (f : Scores) (Response : Type 0) : Type 0 where
  pub calls : ℕ
  pub waits : List f.Score
  pub result : Result IntegrationError Response

module _ {f : Scores} (n : Network f) (system : String) where
  open n use {Response, status_code, status_text, times}

  unfoldable pub delay_before : RetryPolicy f → (attempt : ℕ) → f.Score
  delay_before p attempt = times p.backoff_seconds (f.hundredths (100 * 2 ^ (attempt - 1)))

  unfoldable pub classify : Response → Option IntegrationError
  classify r =
      if ltb (status_code r) 400
      then none
      else if (status_code r == 408 || status_code r == 429) || leb 500 (status_code r)
      then some (transient system (status_text (status_code r)))
      else some (permanent system (status_text (status_code r)))

  unfoldable pub by_failure : Response → Option IntegrationError → Attempt Response
  by_failure r none = returns r
  by_failure r (some (permanent s why)) = raises (permanent s why)
  by_failure r (some (transient s why)) = goes_on (transient s why)

  unfoldable pub attempted : Answer Response → Attempt Response
  unfolding by_failure classify
  attempted (response r) = by_failure r (classify r)
  attempted timed_out = goes_on (transient system "the call timed out")
  attempted transport_failed = goes_on (transient system "the transport failed")

  unfoldable pub last_error : Option IntegrationError → IntegrationError
  last_error none = transient system "no attempt was made"
  last_error (some e) = e

  -- `if attempt < max_attempts: sleep`.
  unfoldable pub wait_after : RetryPolicy f → ℕ → List f.Score → List f.Score
  unfolding delay_before
  wait_after p attempt waits =
      if ltb attempt p.max_attempts then delay_before p attempt ∷ waits else waits

  -- The end of an attempt; `rest` is the rest of the loop after an error that may pass.
  unfoldable pub end_attempt :
      RetryPolicy f
      → (attempt : ℕ) → Attempt Response
      → (rest : IntegrationError → Sent f Response) → Sent f Response
  unfolding wait_after
  end_attempt p attempt (returns r) rest = record { calls = 1; waits = []; result = ok r }
  end_attempt p attempt (raises e) rest = record { calls = 1; waits = []; result = err e }
  end_attempt p attempt (goes_on e) rest = record {
    calls = suc (rest e).calls;
    waits = wait_after p attempt (rest e).waits;
    result = (rest e).result;
  }

  -- The loop, with the attempts that are left.
  unfoldable pub attempts :
      (ℕ → Answer Response)
      → RetryPolicy f
      → (left attempt : ℕ) → Option IntegrationError
      → Sent f Response
  unfolding end_attempt attempted last_error
  attempts network p zero attempt last = record {
    calls = 0;
    waits = [];
    result = err (last_error last);
  }
  attempts network p (suc left) attempt last =
      end_attempt p attempt (attempted (network attempt))
        (λ e. attempts network p left (suc attempt) (some e))

  -- `send`, over the network's answer to each attempt.
  unfoldable pub send : (ℕ → Answer Response) → RetryPolicy f → Sent f Response
  unfolding attempts
  send network p = attempts network p p.max_attempts 1 none
