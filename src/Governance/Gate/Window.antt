-- ===== src/Governance/Gate/Window.antt =====
-- How the gate's outcome depends on the clock.
use itsm_poc.Common.{true, ◌≡◌, ◌≤◌, refl, some, ok, arith}
use itsm_poc.Domain.Treatment.{
  ExecutionTreatment, auto, end_user_approval, staff_approval, not_allowed,
}
use itsm_poc.Domain.Records.{Instant, CatalogueEntry}
use itsm_poc.Governance.Gate.{GateRequest, GateOutcome, evaluate, is_authorized}
use itsm_poc.Governance.Gate.Agreement.{HumanAgrees, MayProceed, InWindow}
use itsm_poc.Governance.Gate.Authorization.{evaluate-MayProceed}

-- The request at another instant.
abbrev pub at : {Score : Type 0} → GateRequest Score → Instant → GateRequest Score
at r n = record r { now = n }

module _ {Score : Type 0} (r : GateRequest Score) (entry : CatalogueEntry) where
  window_earlier : (n : Instant) → n ≤ r.now → InWindow r → InWindow (at r n)
  window_earlier n le w = record {
    expires = w.expires;
    opened = w.opened;
    inside = omega (arith, w.inside);
  }

  human_earlier :
      (treatment : ExecutionTreatment) (n : Instant)
      → n ≤ r.now
      → HumanAgrees r entry treatment
      → HumanAgrees (at r n) entry treatment
  human_earlier auto n le h = tt
  human_earlier end_user_approval n le (d, h) = (
    d,
    record {
      recorded = h.recorded;
      by_requester = h.by_requester;
      bound = h.bound;
      given = h.given;
      window = window_earlier n le h.window;
    },
  )
  human_earlier staff_approval n le (d, h) = (
    d,
    record {
      recorded = h.recorded;
      bound = h.bound;
      role = h.role;
      accepted = h.accepted;
      given = h.given;
      window = window_earlier n le h.window;
    },
  )
  human_earlier not_allowed n le h = h

  MayProceed-earlier : (n : Instant) → n ≤ r.now → MayProceed r entry → MayProceed (at r n) entry
  MayProceed-earlier n le m = record {
    admitted = m.admitted;
    registered = m.registered;
    stands = m.stands;
    grounded = m.grounded;
    human = human_earlier entry.treatment n le m.human;
  }

  not_in_closed_window :
      (expires : Instant)
      → r.authorization_expires_at ≡ some expires
      → expires ≤ r.now
      → ¬ InWindow r
  not_in_closed_window expires e le w = ground (arith, w.opened, w.inside)

  human_closed :
      (treatment : ExecutionTreatment)
      → ¬ InWindow r
      → HumanAgrees r entry treatment
      → treatment ≡ auto
  human_closed auto no_window h = refl
  human_closed end_user_approval no_window (d, h) = absurd (no_window h.window)
  human_closed staff_approval no_window (d, h) = absurd (no_window h.window)
  human_closed not_allowed no_window h = absurd h

-- A request that the gate authorizes was authorized at every earlier instant too; and once the
-- window has closed, only an operation that asks for nobody is authorized.
pub evaluate_window :
    {Score : Type 0} (r : GateRequest Score) (o : GateOutcome)
    → evaluate r ≡ ok o
    → is_authorized o ≡ true
    → ((n : Instant)
        → n ≤ r.now
        → (o' : GateOutcome) × (evaluate (at r n) ≡ ok o') × (is_authorized o' ≡ true))
      × ((expires : Instant)
          → r.authorization_expires_at ≡ some expires
          → expires ≤ r.now
          → (entry : CatalogueEntry) × (r.entry ≡ some entry) × (entry.treatment ≡ auto))
evaluate_window r o e h =
    let (entry, m) = (evaluate-MayProceed r).0 o e h in
    (
      λ n le. (evaluate-MayProceed (at r n)).1 entry (MayProceed-earlier r entry n le m),
      λ expires opened le. (
        entry,
        m.registered,
        human_closed r entry entry.treatment (not_in_closed_window r entry expires opened le)
            m.human,
      ),
    )
