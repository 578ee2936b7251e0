-- ===== src/Workers/Expiry.antt =====
-- The sweep of expired work items: ragcore/workers/expiry_sweep.py, over the repository's operations. It
-- lists the items at one moment and moves them later, so the rows it lists from and the rows it writes
-- to are two arguments.
use itsm_poc.Common.{
  ℕ, suc, Bool, true, false, List, [], ◌∷◌, String, Result, ok, ◌>>=◌, if◌then◌else◌, ◌≡◌, refl,
  ◌+◌, ◌≤◌, ltb, length, arith, All, All-weaken, All-take, All-sort_by, length-take, ap, ◌∙◌, sym,
  ◌≢◌, some, ==_iff,
}
use itsm_poc.Domain.Records.{Uuid, Instant, TenantContext, WorkItemId}
use itsm_poc.Domain.Work.{expired}
use itsm_poc.Persistence.Rows.{row_at, updated, row_at-rewrite, row_at_key, only_row, All-select}
use itsm_poc.Persistence.Guard.{Written, WriteError, execute_update}
use itsm_poc.Persistence.WorkItems.{
  WorkItemRow, list_expired, transition_row, claim, is_item, has_expired,
}
use itsm_poc.Persistence.WorkItems.Calls.{transition_call, perform, perform_lem, asks, writes}
use itsm_poc.Persistence.WorkItems.Claims.{item_key, Keyed}
use itsm_poc.Persistence.WorkItems.Versions.{same_key, claim_granted}

pub record ExpirySweepResult : Type 0 where
  pub tenant_id : Uuid
  pub expired_count : ℕ
  pub contended : ℕ

unfoldable pub changed_anything : ExpirySweepResult → Bool
changed_anything r = ltb 0 r.expired_count

-- What a sweep left and counted.
pub record Swept : Type 0 where
  pub left : List WorkItemRow
  pub counts : ExpirySweepResult

unfoldable pub tally : Bool → ExpirySweepResult → ExpirySweepResult
tally true r = record r { expired_count = r.expired_count + 1 }
tally false r = record r { contended = r.contended + 1 }

-- The loop over the candidates.
unfoldable pub expire_each :
    TenantContext → (clock : Instant) → List WorkItemRow → Swept → Result WriteError Swept
unfolding tally
expire_each tenant clock [] s = ok s
expire_each tenant clock (c ∷ cs) s =
    transition_row tenant (record { value = c.work_item_id }) expired c.version clock s.left
    >>= λ w.
        expire_each tenant clock cs (record { left = w.rows; counts = tally w.answer s.counts })

unfoldable pub sweep_expired :
    TenantContext
    → (now clock : Instant) → (limit : ℕ) → (seen found : List WorkItemRow)
    → Result WriteError Swept
unfolding expire_each
sweep_expired tenant now clock limit seen found =
    expire_each tenant clock (list_expired tenant now limit seen) (record {
      left = found;
      counts = record { tenant_id = tenant.tenant_id.value; expired_count = 0; contended = 0 };
    })

-- A listed item is not the one of the given version.
unfoldable pub Apart : Uuid → ℕ → WorkItemRow → Type 0
Apart id version c = c.work_item_id ≡ id → c.version ≢ version

tallied :
    (b : Bool) (r : ExpirySweepResult) (n : ℕ)
    → (tally b r).expired_count + (tally b r).contended + n ≡ r.expired_count + r.contended + suc n
unfolding tally
tallied true r n = omega arith
tallied false r n = omega arith

performed :
    (t : TenantContext) (c : WorkItemRow) (clock : Instant) (rows : List WorkItemRow)
    → let call = transition_call t (record { value = c.work_item_id }) expired c.version clock in
      transition_row t (record { value = c.work_item_id }) expired c.version clock rows
      ≡ ok (execute_update (asks call) (writes call) rows)
unfolding perform
performed t c clock rows =
    perform_lem (transition_call t (record { value = c.work_item_id }) expired c.version clock) rows

module _ (t : TenantContext) (clock : Instant) (id : Uuid) (x : WorkItemRow) where
  passed_over :
      (c : WorkItemRow)
      → item_key id x ≡ true
      → Apart id x.version c
      → asks (transition_call t (record { value = c.work_item_id }) expired c.version clock) x
        ≡ false
  unfolding asks Apart is_item
  passed_over c keyed apart = ground arith

  -- The candidates that are apart from a row leave it, and each is counted once.
  expire_each_keeps :
      (cs : List WorkItemRow) (s : Swept)
      → row_at (item_key id) s.left ≡ some x
      → All (Apart id x.version) cs
      → (s' : Swept) × (expire_each t clock cs s ≡ ok s')
        × (row_at (item_key id) s'.left ≡ some x)
        × (s'.counts.expired_count + s'.counts.contended
            ≡ s.counts.expired_count + s.counts.contended + length cs)
  unfolding expire_each execute_update
  expire_each_keeps [] s found h = (s, refl, found, omega arith)
  expire_each_keeps (c ∷ cs) s found (here, rest) =
      let call = transition_call t (record { value = c.work_item_id }) expired c.version clock in
      let w = execute_update (asks call) (writes call) s.left in
      let next : Swept = record { left = w.rows; counts = tally w.answer s.counts } in
      let over = passed_over c (row_at_key (item_key id) s.left found) here in
      let still : row_at (item_key id) w.rows ≡ some x =
        row_at-rewrite (asks call) (writes call) (item_key id) (same_key call id) s.left
        ∙ ap (updated (asks call) (writes call)) found
        ∙ ap (λ b. some (if b then writes call x else x)) over in
      let (s', ran, kept, total) = expire_each_keeps cs next still rest in
      (
        s',
        rw (performed t c clock s.left, ◌>>=◌, ran) refl,
        kept,
        total ∙ tallied w.answer s.counts (length cs),
      )

listed-All {κ} :
    (P : WorkItemRow → Type κ) (t : TenantContext) (now : Instant) (limit : ℕ)
    (seen : List WorkItemRow)
    → All P seen
    → All P (list_expired t now limit seen)
unfolding list_expired
listed-All P t now limit seen h =
    All-take P limit _ (All-sort_by _ P _ (All-select P (has_expired t now) seen h))

listed-limit :
    (t : TenantContext) (now : Instant) (limit : ℕ) (seen : List WorkItemRow)
    → length (list_expired t now limit seen) ≤ limit
unfolding list_expired
listed-limit t now limit seen = length-take limit _

older :
    (c r : WorkItemRow) (id : Uuid)
    → (item_key id c ≡ true → c ≡ r)
    → c.work_item_id ≡ id
    → c.version ≢ r.version + 1
older c r id one same e =
    let version = ap (λ (x : WorkItemRow). x.version) (one ((==_iff c.work_item_id id).1 same)) in
    omega (arith, version, e)

-- Where an identifier is in one row at most, a claim that is granted between the sweep's listing and
-- its writes prevails, whatever the times, the limit and the tenants: the sweep returns, leaves the
-- claimed item's row as the claim left it, and counts each item that it listed once, as expired or
-- as contended, at most `limit` in all.
pub sweep_yields :
    (t owner : TenantContext) (i : WorkItemId) (by : String)
    (claim_now claim_clock now clock : Instant) (limit : ℕ) (seen : List WorkItemRow)
    (w : Written WorkItemRow)
    → Keyed seen
    → claim owner i by claim_now claim_clock seen ≡ ok w
    → w.answer ≡ true
    → (s : Swept) × (sweep_expired t now clock limit seen w.rows ≡ ok s)
      × (row_at (item_key i.value) s.left ≡ row_at (item_key i.value) w.rows)
      × (s.counts.expired_count + s.counts.contended ≡ length (list_expired t now limit seen))
      × (s.counts.expired_count + s.counts.contended ≤ limit)
unfolding sweep_expired Keyed Apart
sweep_yields t owner i by claim_now claim_clock now clock limit seen w keyed ran granted =
    let (r, found, _, left) =
      claim_granted owner i by claim_now claim_clock seen w keyed ran granted in
    let listed = list_expired t now limit seen in
    let old : All (Apart i.value (r.version + 1)) listed =
      listed-All (Apart i.value (r.version + 1)) t now limit seen (
        All-weaken (λ c. item_key i.value c ≡ true → c ≡ r) (Apart i.value (r.version + 1))
          (λ c one same. older c r i.value one same) seen
          (only_row (item_key i.value) seen (keyed i.value) found)) in
    let (s, swept, kept, total) = expire_each_keeps t clock i.value _ listed _ left old in
    let few = listed-limit t now limit seen in
    (s, swept, kept ∙ sym left, omega (arith, total), omega (arith, total, few))
