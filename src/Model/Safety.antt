-- ===== src/Model/Safety.antt =====
-- The screening of every text to and from the model: ragcore/src/ragcore/model/safety.py. The screen and the
-- model behind it are ports: what they answer are parameters, none where the screen raised.
pub mod Screened
use itsm_poc.Common.{
  Bool, true, false, List, [], ◌∷◌, ◌++◌, Option, none, some, String, Result, ok, err,
  if◌then◌else◌,
}

pub data SafetyDirection : Type 0 where
  inbound outbound : SafetyDirection

pub data SafetyCategory : Type 0 where
  harmful prompt_injection sensitive_disclosure unavailable_category : SafetyCategory

pub record SafetyVerdict : Type 0 where
  pub allowed : Bool
  pub direction : SafetyDirection
  pub category : Option SafetyCategory

unfoldable pub permit_verdict : SafetyDirection → SafetyVerdict
permit_verdict d = record { allowed = true; direction = d; category = none }

unfoldable pub block_verdict : SafetyDirection → SafetyCategory → SafetyVerdict
block_verdict d c = record { allowed = false; direction = d; category = some c }

unfoldable pub unavailable : SafetyDirection → SafetyVerdict
unavailable d = record { allowed = false; direction = d; category = some unavailable_category }

-- What a call of the screened model raises: a block, or what the model raised.
pub data ModelError (E : Type 0) : Type 0 where
  content_blocked : SafetyVerdict → ModelError E
  model_raised : E → ModelError E

-- What was awaited, in its order: a screening of a text, and a call of the model with one.
pub data ModelCall : Type 0 where
  screened : SafetyDirection → String → ModelCall
  called : String → ModelCall

pub record SafeRun (E A : Type 0) : Type 0 where
  pub calls : List ModelCall
  pub result : Result (ModelError E) A

pub record Ports (E A : Type 0) : Type 0 where
  pub screen : String → SafetyDirection → Option SafetyVerdict
  pub inner : String → Result E A
  -- The text of a completion.
  pub text_of : A → String

module _ {E A : Type 0} (p : Ports E A) where
  open p use {screen, inner, text_of}

  -- The verdict that `_enforce` acts on.
  unfoldable pub verdict_on : String → SafetyDirection → SafetyVerdict
  unfolding unavailable
  verdict_on text d = elim (screen text d) [ none ↦ unavailable d | some v ↦ v ]

  unfoldable pub after_outbound : A → SafetyVerdict → SafeRun E A
  after_outbound completion v = record {
    calls = screened outbound (text_of completion) ∷ [];
    result = if v.allowed then ok completion else err (content_blocked v);
  }

  unfoldable pub screened_answer : Result E A → SafeRun E A
  unfolding verdict_on after_outbound
  screened_answer (err e) = record { calls = []; result = err (model_raised e) }
  screened_answer (ok completion) =
      after_outbound completion (verdict_on (text_of completion) outbound)

  unfoldable pub complete : String → SafeRun E A
  unfolding verdict_on screened_answer
  complete prompt =
      let v = verdict_on prompt inbound in
      let rest = screened_answer (inner prompt) in
      if v.allowed
      then record {
        calls = screened inbound prompt ∷ called prompt ∷ rest.calls;
        result = rest.result;
      }
      else record { calls = screened inbound prompt ∷ []; result = err (content_blocked v) }

  plain_answer : Result E A → Result (ModelError E) A
  plain_answer (err e) = err (model_raised e)
  plain_answer (ok a) = ok a

  -- `embed`: the vector that comes back is no text and is not screened.
  unfoldable pub embed : String → SafeRun E A
  unfolding verdict_on plain_answer
  embed text =
      let v = verdict_on text inbound in
      if v.allowed
      then record {
        calls = screened inbound text ∷ called text ∷ [];
        result = plain_answer (inner text);
      }
      else record { calls = screened inbound text ∷ []; result = err (content_blocked v) }
