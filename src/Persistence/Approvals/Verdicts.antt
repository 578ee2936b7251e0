-- ===== src/Persistence/Approvals/Verdicts.antt =====
-- Which verdict stands, and what it is read back as bound to: `ApprovalRepository` of
-- ragcore/src/ragcore/persistence/repositories.py.
use itsm_poc.Common.{
  Bool, true, false, List, [], ◌∷◌, Option, none, some, ok, ◌>>=◌, ◌==◌, ◌≡◌, ◌≤◌, ◌<◌, ◌+◌, refl,
  ap, sym, subst, ◌∙◌, if◌then◌else◌, sort_by, insert_by, All, All-sort_by, All-weaken, arith,
  ok-injective, some_injective, >>=-eq-ok,
}
use itsm_poc.Domain.Roles.{RoleSet}
use itsm_poc.Domain.Work.{ApprovalVerdict}
use itsm_poc.Domain.Records.{
  Uuid, Instant, TenantContext, WorkItemId, ApprovalId, PrincipalId, StaffVerdict,
}
use itsm_poc.Persistence.Rows.{matching, rewrite-spent, rewrite_none, select, All-select}
use itsm_poc.Persistence.Guard.{Written, execute_update, claim_once_lem, bump, is_managed}
use itsm_poc.Persistence.Approvals.{
  ApprovalRow, OperationRow, approval_table, is_undecided, deciding, record_verdict, newer,
  is_operation_of, bound_operation, newest_of, identity_of, decision_for, joined_verdict,
  one_verdict, verdict_from, is_decided_for, named_roles, or_empty,
}

abbrev pub approval_key : Uuid → ApprovalRow → Bool
approval_key id r = r.approval_id == id

-- The primary key.
unfoldable pub OneEach : List ApprovalRow → Type 0
OneEach rows = (id : Uuid) → matching (approval_key id) rows ≤ 1

with_verdict :
    (clock : Instant)
    → PrincipalId
    → RoleSet
    → ApprovalVerdict
    → (expires_at : Instant) → ApprovalRow
    → ApprovalRow
with_verdict clock by roles verdict expires r =
    record ((deciding clock by roles verdict expires).assign r) {
      version = r.version + 1;
      updated_at = clock;
    }

record_verdict_lem :
    (t : TenantContext) (id : ApprovalId) (by : PrincipalId) (roles : RoleSet) (v : ApprovalVerdict)
    (expires clock : Instant) (rows : List ApprovalRow)
    → record_verdict t id by roles v expires clock rows
      ≡ ok (execute_update (is_undecided t id) (with_verdict clock by roles v expires) rows)
unfolding record_verdict with_verdict bump is_managed
record_verdict_lem t id by roles v expires clock rows =
    claim_once_lem approval_table clock (deciding clock by roles v expires) rows _ refl refl
      (is_undecided t id)

undecided_key :
    (t : TenantContext) (id : ApprovalId) (r : ApprovalRow)
    → is_undecided t id r ≡ true
    → approval_key id.value r ≡ true
unfolding is_undecided
undecided_key t id r h = ground arith

same_id :
    (clock : Instant) (by : PrincipalId) (roles : RoleSet) (v : ApprovalVerdict) (expires : Instant)
    (id : Uuid) (r : ApprovalRow)
    → approval_key id (with_verdict clock by roles v expires r) ≡ approval_key id r
unfolding with_verdict
same_id clock by roles v expires id r = refl

spent :
    (t t' : TenantContext) (id : ApprovalId) (by : PrincipalId) (roles : RoleSet)
    (v : ApprovalVerdict) (expires clock : Instant) (r : ApprovalRow)
    → is_undecided t id r ≡ true
    → is_undecided t' id (with_verdict clock by roles v expires r) ≡ false
unfolding is_undecided with_verdict
spent t t' id by roles v expires clock r h = ground arith

-- Where an identifier is in one row at most, once a verdict on an approval has answered `True`, any later
-- verdict on it answers `False` and changes no row, whoever gives it and whatever it says.
pub verdict_stands :
    (t t' : TenantContext) (id : ApprovalId) (by by' : PrincipalId) (roles roles' : RoleSet)
    (v v' : ApprovalVerdict) (expires clock expires' clock' : Instant) (rows : List ApprovalRow)
    (w : Written ApprovalRow)
    → OneEach rows
    → record_verdict t id by roles v expires clock rows ≡ ok w
    → w.answer ≡ true
    → record_verdict t' id by' roles' v' expires' clock' w.rows
      ≡ ok (record { rows = w.rows; answer = false })
unfolding OneEach execute_update
verdict_stands t t' id by by' roles roles' v v' expires clock expires' clock' rows w few ran
      yes_answer =
    let set = with_verdict clock by roles v expires in
    let same = ok-injective (sym (record_verdict_lem t id by roles v expires clock rows) ∙ ran) in
    let won = ap (λ (x : Written ApprovalRow). x.answer) same ∙ yes_answer in
    let none_left : matching (is_undecided t' id) w.rows ≡ 0 =
      subst (λ rest. matching (is_undecided t' id) rest ≡ 0)
        (ap (λ (x : Written ApprovalRow). x.rows) same)
        (rewrite-spent (approval_key id.value) (is_undecided t id) (is_undecided t' id) set rows
          (undecided_key t id) (undecided_key t' id) (same_id clock by roles v expires id.value)
          (spent t t' id by roles v expires clock) (few id.value) won) in
    record_verdict_lem t' id by' roles' v' expires' clock' w.rows
    ∙ rw
        (
          none_left,
          rewrite_none (is_undecided t' id) (with_verdict clock' by' roles' v' expires') w.rows
              none_left,
        )
        refl

not_newer : (latest r : OperationRow) → r.created_at < latest.created_at → newer r latest ≡ false
unfolding newer
not_newer latest r older = ground arith

newest_first :
    (latest : OperationRow) (rows : List OperationRow)
    → All (λ r. newer r latest ≡ false) rows
    → newest_of (insert_by newer latest rows) ≡ some latest
unfolding newest_of
newest_first latest [] h = refl
newest_first latest (r ∷ rows) (here, rest) = rw (here, if◌then◌else◌) refl

-- The operation that was created last is the one that decisions are bound to.
bound_newest :
    (t : TenantContext) (id : WorkItemId) (latest : OperationRow) (rows : List OperationRow)
    → is_operation_of t id latest ≡ true
    → All (λ (r : OperationRow). r.created_at < latest.created_at) rows
    → bound_operation t id (latest ∷ rows) ≡ some latest
unfolding bound_operation
bound_newest t id latest rows own older =
    let listed = select (is_operation_of t id) rows in
    let sorted : All (λ r. newer r latest ≡ false) (sort_by newer listed) =
      All-sort_by newer _ listed (
        All-select _ (is_operation_of t id) rows
          (All-weaken _ (λ r. newer r latest ≡ false) (λ r h. not_newer latest r h) rows older)) in
    rw (own, if◌then◌else◌) (newest_first latest (sort_by newer listed) sorted)

rebound_from :
    (r : ApprovalRow) (by : Option Uuid) (v : Option ApprovalVerdict) (at : Option Instant)
    (o o' : OperationRow) (verdict : StaffVerdict)
    → verdict_from r by v at o ≡ ok (some verdict)
    → verdict_from r by v at o' ≡ ok (some (record verdict { bound_to = identity_of o' }))
unfolding verdict_from
rebound_from r none v at o o' verdict h = cc
rebound_from r (some b) none at o o' verdict h = cc
rebound_from r (some b) (some v) none o o' verdict h = cc
rebound_from r (some b) (some v) (some at) o o' verdict h =
    let (granted, named, built) = >>=-eq-ok (named_roles (or_empty r.decided_by_roles)) _ h in
    rw (named, ◌>>=◌)
      (ap (λ (x : StaffVerdict). ok (some (record x { bound_to = identity_of o' })))
        (some_injective (ok-injective built)))

rebound_one :
    (rows : List ApprovalRow) (o o' : OperationRow) (verdict : StaffVerdict)
    → one_verdict rows o ≡ ok (some verdict)
    → one_verdict rows o' ≡ ok (some (record verdict { bound_to = identity_of o' }))
unfolding one_verdict
rebound_one [] o o' verdict h = cc
rebound_one (r ∷ []) o o' verdict h =
    rebound_from r r.decided_by_oid r.verdict r.decided_at o o' verdict h
rebound_one (r ∷ s ∷ rows) o o' verdict h = cc

rebound :
    (rows : List ApprovalRow) (bound : Option OperationRow) (o' : OperationRow)
    (verdict : StaffVerdict)
    → joined_verdict rows bound ≡ ok (some verdict)
    → joined_verdict rows (some o') ≡ ok (some (record verdict { bound_to = identity_of o' }))
unfolding joined_verdict
rebound rows none o' verdict h = cc
rebound rows (some o) o' verdict h = rebound_one rows o o' verdict h

-- A decision is read back as bound to the newest operation of the work item, whatever it was when the
-- verdict was given: where a decision stands, and an operation of the work item is created after every
-- other, the same verdict is read with that operation's identity and version in place of the first.
pub decision_rebinds :
    (t : TenantContext) (id : WorkItemId) (approvals : List ApprovalRow)
    (operations : List OperationRow) (latest : OperationRow) (verdict : StaffVerdict)
    → decision_for t id approvals operations ≡ ok (some verdict)
    → is_operation_of t id latest ≡ true
    → All (λ (r : OperationRow). r.created_at < latest.created_at) operations
    → decision_for t id approvals (latest ∷ operations)
      ≡ ok (some (record verdict { bound_to = identity_of latest }))
unfolding decision_for
decision_rebinds t id approvals operations latest verdict stands own older =
    rw (bound_newest t id latest operations own older) (
      rebound (select (is_decided_for t id) approvals) (bound_operation t id operations) latest
        verdict stands)
