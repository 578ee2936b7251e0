-- ===== src/Persistence/WorkItems/Versions.antt =====
-- What a granted claim and an accepted transition did to the item's row, and what a version that is
-- no longer current is refused: ragcore/src/ragcore/persistence/{concurrency,repositories}.py.
use itsm_poc.Common.{
  ℕ, true, false, List, String, Option, none, some, ok, ◌==◌, ◌≡◌, refl, ◌+◌, ◌<◌, arith,
  if◌then◌else◌, ltb→lt, subst, ap, sym, ◌∙◌, ok-injective,
}
use itsm_poc.Domain.Records.{Uuid, Instant, TenantContext, WorkItemId}
use itsm_poc.Domain.Work.{WorkItemState, authorized, claimed}
use itsm_poc.Persistence.Rows.{
  matching, rewrite, row_at, counted, matching-narrow, row_at-rewrite, rewrite_none, one_of,
}
use itsm_poc.Persistence.Guard.{Written, execute_update}
use itsm_poc.Persistence.WorkItems.{
  WorkItemRow, is_item, may_be_claimed, is_authorized_row, tenant_scope, expires_after, is_null,
  claim, transition_row,
}
use itsm_poc.Persistence.WorkItems.Calls.{
  WorkItemCall, claim_call, transition_call, perform, perform_lem, asks, writes, named_item,
}
use itsm_poc.Persistence.WorkItems.Claims.{item_key, Keyed, call_keeps}

-- What held of a row that a claim took: the tenant's own, authorized, unclaimed and not expired.
unfoldable pub WasClaimable : TenantContext → Instant → WorkItemRow → Type 0
WasClaimable tenant now r =
    (r.tenant_id ≡ tenant.tenant_id.value)
    × (r.state ≡ authorized)
    × (r.claimed_at ≡ none)
    × ((limit : Instant) × (r.expires_at ≡ some limit) × (now < limit))

was_null : {A : Type 0} (o : Option A) → is_null o ≡ true → o ≡ none
was_null none h = refl
was_null (some a) h = cc

is_later :
    (o : Option Instant) (now : Instant)
    → expires_after o now ≡ true
    → (limit : Instant) × (o ≡ some limit) × (now < limit)
is_later none now h = cc
is_later (some limit) now h = (limit, refl, ltb→lt now limit h)

was_authorized : (s : WorkItemState) → is_authorized_row s ≡ true → s ≡ authorized
unfolding is_authorized_row
was_authorized s h = ground arith

asked-WasClaimable :
    (t : TenantContext) (i : WorkItemId) (by : String) (now clock : Instant) (r : WorkItemRow)
    → asks (claim_call t i by now clock) r ≡ true
    → WasClaimable t now r
unfolding asks may_be_claimed is_item tenant_scope WasClaimable
asked-WasClaimable t i by now clock r asked =
    let own : r.tenant_id ≡ t.tenant_id.value = ground arith in
    let state : is_authorized_row r.state ≡ true = ground arith in
    let free : is_null r.claimed_at ≡ true = ground arith in
    let live : expires_after r.expires_at now ≡ true = ground arith in
    (own, was_authorized r.state state, was_null r.claimed_at free, is_later r.expires_at now live)

asked_item :
    (call : WorkItemCall) (r : WorkItemRow) (i : WorkItemId)
    → named_item call ≡ i
    → asks call r ≡ true
    → item_key i.value r ≡ true
unfolding asks is_item named_item
asked_item (claim_call t j by now clock) r i e asked = ground arith
asked_item (transition_call t j to v clock) r i e asked = ground arith

pub same_key :
    (call : WorkItemCall) (id : Uuid) (r : WorkItemRow)
    → item_key id (writes call r) ≡ item_key id r
unfolding writes
same_key (claim_call t j by now clock) id r = refl
same_key (transition_call t j to v clock) id r = refl

-- An answer of `True`: the one row of the item, before and after.
module _ (call : WorkItemCall) (i : WorkItemId) (named : named_item call ≡ i)
    (rows : List WorkItemRow) (keyed : Keyed rows) where
  counts_item : matching (asks call) rows ≡ counted (asks call) (row_at (item_key i.value) rows)
  unfolding Keyed
  counts_item =
      matching-narrow (item_key i.value) (asks call) (λ r. asked_item call r i named) rows
        (keyed i.value)

  answered_true :
      {w : Written WorkItemRow}
      → perform call rows ≡ ok w
      → w.answer ≡ true
      → (r : WorkItemRow) × (row_at (item_key i.value) rows ≡ some r)
        × (asks call r ≡ true)
        × (w.rows ≡ rewrite (asks call) (writes call) rows)
        × (row_at (item_key i.value) w.rows ≡ some (writes call r))
  unfolding execute_update
  answered_true {w = w} ran yes_answer =
      let same = ok-injective (sym (perform_lem call rows) ∙ ran) in
      let counted_one =
        subst (λ n. (n == 1) ≡ true) counts_item
          (ap (λ (x : Written WorkItemRow). x.answer) same ∙ yes_answer) in
      let (r, found, asked, after_row) =
        one_of (asks call) (writes call) (row_at (item_key i.value) rows) counted_one in
      let rows_after = sym (ap (λ (x : Written WorkItemRow). x.rows) same) in
      (
        r,
        found,
        asked,
        rows_after,
        ap (row_at (item_key i.value)) rows_after
            ∙ row_at-rewrite (asks call) (writes call) (item_key i.value) (same_key call i.value)
                rows
            ∙ after_row,
      )

-- Where an identifier is in one row at most, a claim that answers `True` found the item's row in its
-- own tenant, authorized, unclaimed and with an expiry after the given time; and the row it leaves is
-- claimed, by the given claimant at the given time, at the next version.
pub claim_granted :
    (t : TenantContext) (i : WorkItemId) (by : String) (now clock : Instant)
    (rows : List WorkItemRow) (w : Written WorkItemRow)
    → Keyed rows
    → claim t i by now clock rows ≡ ok w
    → w.answer ≡ true
    → (r : WorkItemRow) × (row_at (item_key i.value) rows ≡ some r)
      × WasClaimable t now r
      × (row_at (item_key i.value) w.rows
          ≡ some (record r {
            claimed_at = some now;
            claimed_by = some by;
            state = claimed;
            version = r.version + 1;
            updated_at = clock;
          }))
unfolding perform writes named_item
claim_granted t i by now clock rows w keyed ran yes_answer =
    let (r, found, asked, _, left) =
      answered_true (claim_call t i by now clock) i refl rows keyed ran yes_answer in
    (r, found, asked-WasClaimable t i by now clock r asked, left)

stale :
    (t : TenantContext) (i : WorkItemId) (to to' : WorkItemState) (v : ℕ) (clock clock' : Instant)
    (t' : TenantContext) (r : WorkItemRow)
    → asks (transition_call t i to v clock) r ≡ true
    → asks (transition_call t' i to' v clock') (writes (transition_call t i to v clock) r) ≡ false
unfolding asks writes is_item
stale t i to to' v clock clock' t' r asked = ground arith

-- Where an identifier is in one row at most, once a transition has answered `True`, a second one
-- with the same expected version answers `False` and changes no row, whoever makes it and whatever
-- state it names.
pub no_lost_update :
    (t t' : TenantContext) (i : WorkItemId) (to to' : WorkItemState) (v : ℕ)
    (clock clock' : Instant) (rows : List WorkItemRow) (w : Written WorkItemRow)
    → Keyed rows
    → transition_row t i to v clock rows ≡ ok w
    → w.answer ≡ true
    → transition_row t' i to' v clock' w.rows ≡ ok (record { rows = w.rows; answer = false })
unfolding perform named_item execute_update
no_lost_update t t' i to to' v clock clock' rows w keyed ran yes_answer =
    let first = transition_call t i to v clock in
    let second = transition_call t' i to' v clock' in
    let (r, found, asked, rows_after, left) =
      answered_true first i refl rows keyed ran yes_answer in
    let keyed_after : Keyed w.rows = subst Keyed (sym rows_after) (call_keeps first rows keyed) in
    let none_match : matching (asks second) w.rows ≡ 0 =
      counts_item second i refl w.rows keyed_after
      ∙ ap (counted (asks second)) left
      ∙ ap (λ b. if b then 1 else 0) (stale t i to to' v clock clock' t' r asked) in
    perform_lem second w.rows
    ∙ rw (none_match, rewrite_none (asks second) (writes second) w.rows none_match) refl
