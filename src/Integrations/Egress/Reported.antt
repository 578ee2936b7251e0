-- ===== src/Integrations/Egress/Reported.antt =====
-- How often a call is made and what it reports: integrations/src/integrations/egress/http.py.
use itsm_poc.Common.{
  ℕ, zero, suc, ◌+◌, ◌≤◌, Bool, true, false, not, ◌||◌, ◌&&◌, any, Option, none, some, ltb, ◌==◌,
  Result, err, if◌then◌else◌, ◌≡◌, refl, sym, ap, ◌∙◌, arith, Bool-cases, inl, inr, or_true, ==_iff,
}
use itsm_poc.Integrations.Egress.{
  HttpAnswer, OutboundResponse, EgressError, could_not_complete, Sending, attempts_of, answered,
  one_attempt, sending, send_call, transient_statuses,
}

-- What a caller is told of the network's answer.
unfoldable pub reported : Option HttpAnswer → Result EgressError OutboundResponse
unfolding answered
reported none = err could_not_complete
reported (some r) = (answered r).result

pub record Reports (network : ℕ → Option HttpAnswer) (first most : ℕ) (s : Sending) : Type 0 where
  pub before : ℕ
  pub counted : s.calls ≡ suc before
  pub few : suc before ≤ most
  pub result_is : s.result ≡ reported (network (first + before))

and_false : (b : Bool) → b && false ≡ false
and_false true = refl
and_false false = refl

module _ (network : ℕ → Option HttpAnswer) (retriable : Bool) where
  ended_here :
      (first left : ℕ) (s : Sending)
      → s.calls ≡ 1
      → s.result ≡ reported (network first)
      → Reports network first (suc left) s
  ended_here first left s once h = record {
    before = 0;
    counted = once;
    few = omega arith;
    result_is = h ∙ ap (λ m. reported (network m)) (omega arith);
  }

  one_later :
      (first left : ℕ) (s : Sending)
      → Reports network (suc first) (suc left) s
      → Reports network first (suc (suc left)) (record s { calls = suc s.calls })
  one_later first left s rest = record {
    before = suc rest.before;
    counted = ap suc rest.counted;
    few = omega (arith, rest.few);
    result_is = rest.result_is ∙ ap (λ m. reported (network m)) (omega arith);
  }

  by_answer :
      (first left : ℕ) (a : Option HttpAnswer) (rest : Sending)
      → network first ≡ a
      → first + suc left ≡ attempts_of retriable
      → Reports network (suc first) (suc left) rest
      → Reports network first (suc (suc left)) (one_attempt retriable first a rest)
  unfolding one_attempt reported
  by_answer first left none rest e h more =
      elim (Bool-cases (not retriable || first == attempts_of retriable)) [
        | inl stop ↦
            rw (stop, if◌then◌else◌) (ended_here first (suc left) _ refl (sym (ap reported e)))
        | inr on ↦ rw (on, if◌then◌else◌) (one_later first left rest more)
      ]
  by_answer first left (some r) rest e h more =
      elim (Bool-cases (
        retriable
        && (any (λ s. r.status_code == s) transient_statuses
            && ltb first (attempts_of retriable)))) [
              | inl on ↦ rw (on, if◌then◌else◌) (one_later first left rest more)
              | inr stop ↦
                  rw (stop, if◌then◌else◌)
                    (ended_here first (suc left) _ refl (sym (ap reported e)))
            ]

  by_last_answer :
      (first : ℕ) (a : Option HttpAnswer) (rest : Sending)
      → network first ≡ a
      → first ≡ attempts_of retriable
      → Reports network first 1 (one_attempt retriable first a rest)
  unfolding one_attempt reported
  by_last_answer first none rest e h =
      rw ((==_iff first (attempts_of retriable)).1 h, or_true (not retriable), if◌then◌else◌)
        (ended_here first 0 _ refl (sym (ap reported e)))
  by_last_answer first (some r) rest e h =
      let spent : ltb first (attempts_of retriable) ≡ false = ground arith in
      rw
        (
          spent,
          and_false (any (λ s. r.status_code == s) transient_statuses),
          and_false retriable,
          if◌then◌else◌,
        )
        (ended_here first 0 _ refl (sym (ap reported e)))

  loop-Reports :
      (left first : ℕ)
      → first + left ≡ attempts_of retriable
      → Reports network first (suc left) (sending network retriable (suc left) first)
  unfolding sending
  loop-Reports zero first h =
      by_last_answer first (network first) (sending network retriable zero (suc first)) refl
        (omega (arith, h))
  loop-Reports (suc left) first h =
      by_answer first left (network first) (sending network retriable (suc left) (suc first)) refl h
        (loop-Reports left (suc first) (omega (arith, h)))

-- A call is made once if it may not be repeated, and otherwise at least once and at most three times, and
-- what it returns or raises is what the last answer of the network says: the error of a call that did not
-- succeed after its attempts is never raised.
pub send_call-Reports :
    (network : ℕ → Option HttpAnswer) (retriable : Bool)
    → Reports network 1 (if retriable then 3 else 1) (send_call network retriable)
unfolding send_call attempts_of
send_call-Reports network true = loop-Reports network true 2 1 refl
send_call-Reports network false = loop-Reports network false 0 1 refl
