-- ===== src/Model/Safety/Screened.antt =====
-- What passes the screen: ragcore/src/ragcore/model/safety.py.
use itsm_poc.Common.{
  Bool, true, false, List, [], ◌∷◌, any, some, String, Result, ok, err, if◌then◌else◌, ◌≡◌, ◌↔◌,
  refl, ap, sym, arith, Bool-cases, Option-cases, inl, inr, ok-injective, subst,
}
use itsm_poc.Model.Safety.{
  SafetyDirection, inbound, outbound, SafetyVerdict, Ports, SafeRun, ModelCall, screened, called,
  content_blocked, complete, verdict_on, unavailable, screened_answer, after_outbound,
}

-- Some screening answered, and let the text pass.
pub record Passes {E A : Type 0} (p : Ports E A) (text : String) (d : SafetyDirection)
    : Type 0 where
  pub verdict : SafetyVerdict
  pub answered : p.screen text d ≡ some verdict
  pub passed : verdict.allowed ≡ true

is_call : ModelCall → Bool
is_call (screened d text) = false
is_call (called text) = true

-- Whether the model was called.
unfoldable pub model_called : List ModelCall → Bool
unfolding is_call
model_called calls = any is_call calls

module _ {E A : Type 0} (p : Ports E A) where
  allowed-Passes :
      (text : String) (d : SafetyDirection) → (verdict_on p text d).allowed ≡ true → Passes p text d
  unfolding verdict_on unavailable
  allowed-Passes text d h = elim (Option-cases (p.screen text d)) [
    | inl e ↦ ground arith
    | inr (v, e) ↦ record { verdict = v; answered = e; passed = ground arith }
  ]

  Passes-allowed :
      (text : String) (d : SafetyDirection) → Passes p text d → (verdict_on p text d).allowed ≡ true
  unfolding verdict_on
  Passes-allowed text d h = rw (verdict_on, h.answered) h.passed

  returned :
      (prompt : String) (completion : A)
      → (complete p prompt).result ≡ ok completion
      → ((verdict_on p prompt inbound).allowed ≡ true)
        × ((screened_answer p (p.inner prompt)).result ≡ ok completion)
  unfolding complete
  returned prompt completion h = elim (Bool-cases (verdict_on p prompt inbound).allowed) [
    | inl e ↦ (e, ground arith)
    | inr e ↦ ground arith
  ]

  answer_passed :
      (answer : Result E A) (completion : A)
      → (screened_answer p answer).result ≡ ok completion
      → (answer ≡ ok completion) × ((verdict_on p (p.text_of completion) outbound).allowed ≡ true)
  unfolding screened_answer after_outbound
  answer_passed (err e) completion h = cc
  answer_passed (ok c) completion h =
      elim (Bool-cases (verdict_on p (p.text_of c) outbound).allowed) [
        | inl e ↦
            let same : c ≡ completion = ground arith in
            (ap ok same, subst (λ x. (verdict_on p (p.text_of x) outbound).allowed ≡ true) same e)
        | inr e ↦ ground arith
      ]

  answer_returned :
      (answer : Result E A) (completion : A)
      → answer ≡ ok completion
      → (verdict_on p (p.text_of completion) outbound).allowed ≡ true
      → (screened_answer p answer).result ≡ ok completion
  unfolding screened_answer after_outbound
  answer_returned (err e) completion h v = cc
  answer_returned (ok c) completion h v =
      let same = sym (ok-injective h) in
      subst (λ x. (screened_answer p (ok x)).result ≡ ok completion) same
        (rw (v, if◌then◌else◌) refl)

  -- A completion is returned exactly where the screen answered for the prompt and let it pass, the model
  -- returned the completion, and the screen answered for the completion and let it pass.
  pub complete_iff :
      (prompt : String) (completion : A)
      → ((complete p prompt).result ≡ ok completion) ↔ (
          Passes p prompt inbound
          × (p.inner prompt ≡ ok completion)
          × Passes p (p.text_of completion) outbound)
  unfolding complete
  complete_iff prompt completion = (
    (λ h.
        let (let_in, rest) = returned prompt completion h in
        let (answer, let_out) = answer_passed (p.inner prompt) completion rest in
        (
          allowed-Passes prompt inbound let_in,
          answer,
          allowed-Passes (p.text_of completion) outbound let_out,
        )),
    (λ (let_in, answer, let_out).
        rw (Passes-allowed prompt inbound let_in, if◌then◌else◌)
          (answer_returned (p.inner prompt) completion answer
            (Passes-allowed (p.text_of completion) outbound let_out))),
  )

  blocked :
      (prompt : String)
      → (verdict_on p prompt inbound).allowed ≡ false
      → complete p prompt ≡ record {
        calls = screened inbound prompt ∷ [];
        result = err (content_blocked (verdict_on p prompt inbound));
      }
  unfolding complete
  blocked prompt e = rw (e, if◌then◌else◌) refl

  -- The model is called exactly where the screen answered for the prompt and let it pass.
  pub called_iff :
      (prompt : String) → (model_called (complete p prompt).calls ≡ true) ↔ Passes p prompt inbound
  unfolding complete model_called
  called_iff prompt = (
    (λ h. elim (Bool-cases (verdict_on p prompt inbound).allowed) [
      | inl e ↦ allowed-Passes prompt inbound e
      | inr e ↦ let off = ap (λ (r : SafeRun E A). model_called r.calls) (blocked prompt e) in cc
    ]),
    (λ let_in. rw (Passes-allowed prompt inbound let_in, if◌then◌else◌) refl),
  )
