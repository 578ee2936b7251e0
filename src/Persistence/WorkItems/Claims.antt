-- ===== src/Persistence/WorkItems/Claims.antt =====
-- A claim on a work item as a register that is written once, and the repository as its implementation:
-- `WorkItemRepository.claim` and `transition` of ragcore/src/ragcore/persistence/repositories.py.
use itsm_poc.Common.{
  ℕ, Bool, true, false, ◌&&◌, List, [], ◌∷◌, String, Option, none, some, ok, ◌==◌, ◌≡◌, refl, ◌+◌,
  ◌≤◌, arith, if◌then◌else◌, subst, Bool-cases, inl, inr, ap, ◌∙◌, ==_iff, ◌>>=◌,
}
use itsm_poc.Domain.Records.{Uuid, Instant, TenantContext, WorkItemId}
use itsm_poc.Domain.Work.{WorkItemState}
use itsm_poc.Persistence.Rows.{
  matching, rewrite, row_at, counted, updated, matching-narrow, row_at-rewrite, row_at-away,
  matching-rewrite,
}
use itsm_poc.Persistence.Guard.{execute_update}
use itsm_poc.Persistence.WorkItems.{WorkItemRow, is_item, may_be_claimed}
use itsm_poc.Persistence.WorkItems.Calls.{
  WorkItemCall, claim_call, transition_call, noted, perform_lem, Trace, trace, asks, writes,
}

-- Who holds an item: nobody, or the one that the row names.
pub data Holding : Type 0 where
  unclaimed : Holding
  held_by : Option String → Holding

-- A claim of the item that was granted.
unfoldable pub grants : Uuid → WorkItemCall → Bool → Bool
grants id (claim_call t i by now clock) b = b && i.value == id
grants id (transition_call t i to v clock) b = false

unfoldable pub granted_claims : Uuid → List (WorkItemCall × Bool) → ℕ
unfolding grants
granted_claims id [] = 0
granted_claims id ((call, b) ∷ rest) =
    if grants id call b then 1 + granted_claims id rest else granted_claims id rest

-- The contract: a sequence of answered calls takes the register from one state to another. A claim
-- is granted from `unclaimed` alone, and nothing else moves the register.
pub data Serves (id : Uuid) : Holding → List (WorkItemCall × Bool) → Holding → Type 0 where
  served : {h : Holding} → Serves id h [] h
  granted :
      {t : TenantContext} {i : WorkItemId} {by : String} {now clock : Instant}
      {rest : List (WorkItemCall × Bool)} {h : Holding}
      → i.value ≡ id
      → Serves id (held_by (some by)) rest h
      → Serves id unclaimed ((claim_call t i by now clock, true) ∷ rest) h
  unmoved :
      {call : WorkItemCall} {b : Bool} {rest : List (WorkItemCall × Bool)} {h h' : Holding}
      → grants id call b ≡ false
      → Serves id h rest h'
      → Serves id h ((call, b) ∷ rest) h'

unfoldable pub claimant : Option WorkItemRow → Holding
claimant none = unclaimed
claimant (some r) = elim r.claimed_at [ none ↦ unclaimed | some _ ↦ held_by r.claimed_by ]

abbrev pub item_key : Uuid → WorkItemRow → Bool
item_key id r = r.work_item_id == id

-- Who holds the item in the table.
unfoldable pub holder : Uuid → List WorkItemRow → Holding
unfolding claimant
holder id rows = claimant (row_at (item_key id) rows)

-- The primary key: at most one row for each identifier.
unfoldable pub Keyed : List WorkItemRow → Type 0
Keyed rows = (id : Uuid) → matching (item_key id) rows ≤ 1

once_held :
    {id : Uuid} {by : Option String} {t : List (WorkItemCall × Bool)} {start h : Holding}
    → start ≡ held_by by
    → Serves id start t h
    → granted_claims id t ≡ 0
unfolding granted_claims
once_held e served = refl
once_held e (granted i s) = cc
once_held e (unmoved m s) = rw (m, if◌then◌else◌) (once_held e s)

-- The contract grants one claim at most.
granted_once :
    {id : Uuid} {t : List (WorkItemCall × Bool)} {start h : Holding}
    → Serves id start t h
    → granted_claims id t ≤ 1
unfolding granted_claims
granted_once served = omega arith
granted_once (granted {t = t} {i = i} {by = by} {now = now} {clock = clock} same s) =
    let none_left = once_held refl s in ground arith
granted_once (unmoved m s) = rw (m, if◌then◌else◌) (granted_once s)

-- The call and the row that the item's key finds.
module _ (id : Uuid) (t : TenantContext) (i : WorkItemId) (by : String) (now clock : Instant) where
  abbrev this : WorkItemCall
  this = claim_call t i by now clock

  asked_unclaimed : (r : WorkItemRow) → asks this r ≡ true → claimant (some r) ≡ unclaimed
  unfolding asks may_be_claimed claimant
  asked_unclaimed r asked = ground arith

  claimed_row :
      {rest : List (WorkItemCall × Bool)} {h : Holding} (same : i.value ≡ id)
      (o : Option WorkItemRow)
      → Serves id (claimant (updated (asks this) (writes this) o)) rest h
      → Serves id (claimant o) ((this, counted (asks this) o == 1) ∷ rest) h
  unfolding grants claimant writes
  claimed_row same none s = unmoved refl s
  claimed_row {rest = rest} {h = h} same (some r) s = elim (Bool-cases (asks this r)) [
    | inl e ↦
        rw (e, if◌then◌else◌, asked_unclaimed r e)
          (granted same
            (subst (λ b. Serves id (claimant (some (if b then writes this r else r))) rest h) e s))
    | inr e ↦
        rw (e, if◌then◌else◌)
          (unmoved refl
            (subst (λ b. Serves id (claimant (some (if b then writes this r else r))) rest h) e s))
  ]

  asked_key : i.value ≡ id → (r : WorkItemRow) → asks this r ≡ true → item_key id r ≡ true
  unfolding asks is_item
  asked_key same r asked = ground arith

  asked_other :
      (i.value == id) ≡ false → (r : WorkItemRow) → asks this r ≡ true → item_key id r ≡ false
  unfolding asks is_item
  asked_other other r asked = ground arith

  grants_other : (i.value == id) ≡ false → (b : Bool) → grants id this b ≡ false
  unfolding grants
  grants_other other true = other
  grants_other other false = refl

  claim_serves :
      {rest : List (WorkItemCall × Bool)} {h : Holding} (rows : List WorkItemRow)
      → Keyed rows
      → Serves id (holder id (rewrite (asks this) (writes this) rows)) rest h
      → Serves id (holder id rows) ((this, matching (asks this) rows == 1) ∷ rest) h
  unfolding Keyed holder grants writes
  claim_serves {rest = rest} {h = h} rows keyed s = elim (Bool-cases (i.value == id)) [
    | inl e ↦
        let same = (==_iff i.value id).0 e in
        rw (matching-narrow (item_key id) (asks this) (asked_key same) rows (keyed id)) (
          claimed_row same (row_at (item_key id) rows) (
            subst (λ o. Serves id (claimant o) rest h)
              (row_at-rewrite (asks this) (writes this) (item_key id) (λ r. refl) rows) s))
    | inr e ↦ unmoved (grants_other e _) (
        subst (λ o. Serves id (claimant o) rest h)
          (row_at-away (asks this) (writes this) (item_key id) (λ r. refl) (asked_other e) rows) s)
  ]

-- A transition leaves the claim as it is.
same_claimant :
    (t : TenantContext) (i : WorkItemId) (to : WorkItemState) (v : ℕ) (clock : Instant)
    (o : Option WorkItemRow)
    → claimant (
        updated (asks (transition_call t i to v clock)) (writes (transition_call t i to v clock)) o)
      ≡ claimant o
unfolding claimant writes
same_claimant t i to v clock none = refl
same_claimant t i to v clock (some r) =
    elim (Bool-cases (asks (transition_call t i to v clock) r)) [
      | inl e ↦ rw (e, if◌then◌else◌) refl
      | inr e ↦ rw (e, if◌then◌else◌) refl
    ]

call_serves :
    {rest : List (WorkItemCall × Bool)} {h : Holding} (id : Uuid) (call : WorkItemCall)
    (rows : List WorkItemRow)
    → Keyed rows
    → Serves id (holder id (rewrite (asks call) (writes call) rows)) rest h
    → Serves id (holder id rows) ((call, matching (asks call) rows == 1) ∷ rest) h
unfolding holder grants writes
call_serves id (claim_call t i by now clock) rows keyed s =
    claim_serves id t i by now clock rows keyed s
call_serves {rest = rest} {h = h} id (transition_call t i to v clock) rows keyed s = unmoved refl (
    subst (λ x. Serves id x rest h)
      (ap claimant (
          row_at-rewrite (asks (transition_call t i to v clock))
            (writes (transition_call t i to v clock)) (item_key id) (λ r. refl) rows)
        ∙ same_claimant t i to v clock (row_at (item_key id) rows))
      s)

pub call_keeps :
    (call : WorkItemCall) (rows : List WorkItemRow)
    → Keyed rows
    → Keyed (rewrite (asks call) (writes call) rows)
unfolding Keyed writes
call_keeps (claim_call t i by now clock) rows keyed id =
    let this = claim_call t i by now clock in
    rw (matching-rewrite (asks this) (writes this) (item_key id) (λ r. refl) rows) (keyed id)
call_keeps (transition_call t i to v clock) rows keyed id =
    let this = transition_call t i to v clock in
    rw (matching-rewrite (asks this) (writes this) (item_key id) (λ r. refl) rows) (keyed id)

-- In a table where an identifier is in one row at most, any sequence of claims and transitions, of any
-- tenants and by any callers, runs without an exception, and for each work item its answers are those
-- of a register that is written once: it takes the item from who held it before the sequence to who
-- holds it after it.
pub trace-Serves :
    (id : Uuid) (calls : List WorkItemCall) (rows : List WorkItemRow)
    → Keyed rows
    → (t : Trace) × (trace calls rows ≡ ok t)
      × Serves id (holder id rows) t.answered (holder id t.final)
unfolding trace noted execute_update
trace-Serves id [] rows keyed = (record { final = rows; answered = [] }, refl, served)
trace-Serves id (call ∷ calls) rows keyed =
    let after = rewrite (asks call) (writes call) rows in
    let (t, ran, serves) = trace-Serves id calls after (call_keeps call rows keyed) in
    (
      noted call (matching (asks call) rows == 1) t,
      (rw (perform_lem call rows, ◌>>=◌, ran) refl),
      call_serves id call rows keyed serves,
    )

-- In such a table, any sequence of claims and transitions grants at most one claim of a work item.
pub claimed_once :
    (id : Uuid) (calls : List WorkItemCall) (rows : List WorkItemRow)
    → Keyed rows
    → (t : Trace) × (trace calls rows ≡ ok t) × (granted_claims id t.answered ≤ 1)
claimed_once id calls rows keyed =
    let (t, ran, serves) = trace-Serves id calls rows keyed in (t, ran, granted_once serves)
