-- ===== src/Egress/Resilient/Bounded.antt =====
-- How often a call is tried and what decides its result: ragcore/src/ragcore/egress/http.py.
use itsm_poc.Common.{
  ℕ, zero, suc, ◌+◌, ◌≤◌, ◌<◌, Bool, true, false, ◌||◌, List, [], ◌∷◌, Option, none, some, String,
  ◌==◌, Result, ok, err, if◌then◌else◌, ◌≡◌, refl, sym, ap, ◌∙◌, subst, arith, All, length, lt→ltb,
}
use itsm_poc.Retrieval.Scores.{Scores}
use itsm_poc.Egress.Resilient.{
  Network, RetryPolicy, Answer, Attempt, returns, raises, goes_on, IntegrationError, Sent,
  attempted, attempts, end_attempt, wait_after, last_error, send, checked_policy,
}

abbrev pub is_settled : {Response : Type 0} → Attempt Response → Bool
is_settled (returns r) = true
is_settled (raises e) = true
is_settled (goes_on e) = false

abbrev pub said : {Response : Type 0} → Attempt Response → Result IntegrationError Response
said (returns r) = ok r
said (raises e) = err e
said (goes_on e) = err e

-- So many numbers from the first on.
abbrev pub numbers : (first count : ℕ) → List ℕ
numbers first zero = []
numbers first (suc count) = first ∷ numbers (suc first) count

suc_eq : (a b : ℕ) → (suc a == suc b) ≡ (a == b)
suc_eq a b = ground arith

module _ {f : Scores} (n : Network f) (system : String) (network : ℕ → Answer n.Response) where
  abbrev pub tried : ℕ → Attempt n.Response
  tried attempt = attempted n system (network attempt)

  -- A loop of so many attempts from the first on: `before` of them passed, and then one ended it.
  pub record Ended (first most : ℕ) (s : Sent f n.Response) : Type 0 where
    pub before : ℕ
    pub counted : s.calls ≡ suc before
    pub few : suc before ≤ most
    pub waited : length s.waits ≡ before
    pub result_is : s.result ≡ said (tried (first + before))
    pub earlier : All (λ attempt. is_settled (tried attempt) ≡ false) (numbers first before)
    pub last : is_settled (tried (first + before)) || suc before == most ≡ true

  module _ (p : RetryPolicy f) where
    settled_now :
        (first left : ℕ) (t : Attempt n.Response) (k : IntegrationError → Sent f n.Response)
        → tried first ≡ t
        → is_settled t ≡ true
        → Ended first (suc left) (end_attempt n system p first t k)
    unfolding end_attempt
    settled_now first left (returns r) k e h = record {
      before = 0;
      counted = refl;
      few = omega arith;
      waited = refl;
      result_is = sym (ap said (ap tried (omega arith) ∙ e));
      earlier = tt;
      last = ap (λ t. is_settled t || 1 == suc left) (ap tried (omega arith) ∙ e);
    }
    settled_now first left (raises x) k e h = record {
      before = 0;
      counted = refl;
      few = omega arith;
      waited = refl;
      result_is = sym (ap said (ap tried (omega arith) ∙ e));
      earlier = tt;
      last = ap (λ t. is_settled t || 1 == suc left) (ap tried (omega arith) ∙ e);
    }
    settled_now first left (goes_on x) k e h = cc

    last_attempt :
        (first : ℕ) (x : IntegrationError) (k : IntegrationError → Sent f n.Response)
        → tried first ≡ goes_on x
        → first ≡ p.max_attempts
        → ((k x).calls ≡ 0) × ((k x).waits ≡ []) × ((k x).result ≡ err x)
        → Ended first 1 (end_attempt n system p first (goes_on x) k)
    unfolding end_attempt wait_after
    last_attempt first x k e h (calls, waits, result) = record {
      before = 0;
      counted = ap suc calls;
      few = omega arith;
      waited = ground arith;
      result_is = result ∙ sym (ap said (ap tried (omega arith) ∙ e));
      earlier = tt;
      last = ap (λ t. is_settled t || true) (ap tried (omega arith) ∙ e);
    }

    one_more :
        (first left : ℕ) (x : IntegrationError) (k : IntegrationError → Sent f n.Response)
        → tried first ≡ goes_on x
        → first < p.max_attempts
        → Ended (suc first) (suc left) (k x)
        → Ended first (suc (suc left)) (end_attempt n system p first (goes_on x) k)
    unfolding end_attempt wait_after
    one_more first left x k e h rest =
        let place : suc first + rest.before ≡ first + suc rest.before = omega arith in
        record {
          before = suc rest.before;
          counted = ap suc rest.counted;
          few = omega (arith, rest.few);
          waited = rw (lt→ltb first p.max_attempts h, if◌then◌else◌) (ap suc rest.waited);
          result_is = rest.result_is ∙ ap (λ m. said (tried m)) place;
          earlier = (ap is_settled e, rest.earlier);
          last =
              ap (λ b. is_settled (tried (first + suc rest.before)) || b)
                (suc_eq (suc rest.before) (suc left))
              ∙ subst (λ m. is_settled (tried m) || suc rest.before == suc left ≡ true) place
                  rest.last;
        }

    loop : (left first : ℕ) → IntegrationError → Sent f n.Response
    loop left first x = attempts n system network p left (suc first) (some x)

    by_last :
        (first : ℕ) (t : Attempt n.Response)
        → tried first ≡ t
        → first ≡ p.max_attempts
        → Ended first 1 (end_attempt n system p first t (loop 0 first))
    unfolding loop attempts last_error
    by_last first (returns r) e h = settled_now first 0 (returns r) (loop 0 first) e refl
    by_last first (raises x) e h = settled_now first 0 (raises x) (loop 0 first) e refl
    by_last first (goes_on x) e h = last_attempt first x (loop 0 first) e h (refl, refl, refl)

    by_more :
        (first left : ℕ) (t : Attempt n.Response)
        → tried first ≡ t
        → first < p.max_attempts
        → ((x : IntegrationError) → Ended (suc first) (suc left) (loop (suc left) first x))
        → Ended first (suc (suc left)) (end_attempt n system p first t (loop (suc left) first))
    by_more first left (returns r) e h rest =
        settled_now first (suc left) (returns r) (loop (suc left) first) e refl
    by_more first left (raises x) e h rest =
        settled_now first (suc left) (raises x) (loop (suc left) first) e refl
    by_more first left (goes_on x) e h rest =
        one_more first left x (loop (suc left) first) e h (rest x)

    loop-Ended :
        (left first : ℕ) (last : Option IntegrationError)
        → first + left ≡ p.max_attempts
        → Ended first (suc left) (attempts n system network p (suc left) first last)
    unfolding attempts loop
    loop-Ended zero first last h = by_last first (tried first) refl (omega (arith, h))
    loop-Ended (suc left) first last h =
        by_more first left (tried first) refl (omega (arith, h))
          (λ x. loop-Ended left (suc first) (some x) (omega (arith, h)))

    whole :
        (most : ℕ)
        → 1 ≤ most
        → most ≡ p.max_attempts
        → Ended 1 most (attempts n system network p most 1 none)
    whole zero some_tries h = absurd (omega (arith, some_tries))
    whole (suc left) some_tries h = loop-Ended left 1 none (omega (arith, h))

    -- Under a policy that can be constructed, a call is tried at least once and at most as often as the
    -- policy says, which is at most five times, with a wait between every two tries. Every try but the last
    -- met an error that may pass; the last one settled the call or was the last that the policy allows,
    -- and what it said is the result.
    pub send-Ended :
        checked_policy f p ≡ ok p
        → Ended 1 p.max_attempts (send n system network p) × (p.max_attempts ≤ 5)
    unfolding checked_policy send
    send-Ended valid =
        let bounds : (1 ≤ p.max_attempts) × (p.max_attempts ≤ 5) = ground arith in
        (whole p.max_attempts bounds.0 refl, bounds.1)
