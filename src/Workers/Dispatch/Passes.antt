-- ===== src/Workers/Dispatch/Passes.antt =====
-- What one pass over the outbox does with the rows that it lists: ragcore/workers/outbox_dispatch.py.
use itsm_poc.Common.{
  ℕ, suc, ◌+◌, Bool, true, List, [], ◌∷◌, ◌++◌, map, none, some, Result, ok, err, if◌then◌else◌,
  ◌≡◌, refl, All, All-weaken, All-take, All-sort_by, length, arith, Bool-cases, inl, inr, ap, ◌∙◌,
  sym, sort_by, take, ◌≤◌, length-take, ==_iff, map-snoc, append_nil, append_assoc,
}
use itsm_poc.Domain.Records.{Uuid}
use itsm_poc.Domain.Envelopes.{Envelope}
use itsm_poc.Messaging.Retry.{exhausted}
use itsm_poc.Messaging.Bodies.{BodyError, envelope_from_row}
use itsm_poc.Messaging.Outbox.{
  OutboxRow, outbox_key, undispatched, is_undispatched, precedes, mark_dispatched, record_failure,
  failed_again,
}
use itsm_poc.Persistence.Rows.{row_at, rewrite, row_at-rewrite, updated, select, All-select}
use itsm_poc.Workers.Dispatch.{
  Pass, Passing, PassError, malformed_row, tries, publish_row, fail_row, dispatch_row,
  dispatch_each, dispatch_once, unless_raised,
}

-- The identifier is some row's.
unfoldable pub Present : Uuid → List OutboxRow → Type 0
Present id rows = (x : OutboxRow) × (row_at (outbox_key id) rows ≡ some x)

Present-rewrite :
    (id : Uuid) (where_ : OutboxRow → Bool) (set : OutboxRow → OutboxRow)
    → ((r : OutboxRow) → outbox_key id (set r) ≡ outbox_key id r)
    → (rows : List OutboxRow) → Present id rows
    → Present id (rewrite where_ set rows)
unfolding Present
Present-rewrite id where_ set kept rows (x, found) = (
  (if where_ x then set x else x),
  row_at-rewrite where_ set (outbox_key id) kept rows ∙ ap (updated where_ set) found,
)

Present-cons :
    (id : Uuid) (r : OutboxRow) (rows : List OutboxRow) → Present id rows → Present id (r ∷ rows)
unfolding Present
Present-cons id r rows (x, found) = elim (Bool-cases (outbox_key id r)) [
  | inl e ↦ (r, rw (e, if◌then◌else◌) refl)
  | inr e ↦ (x, rw (e, if◌then◌else◌) found)
]

-- Every row of a table is present in it.
rows-Present : (rows : List OutboxRow) → All (λ (r : OutboxRow). Present r.outbox_id rows) rows
unfolding Present
rows-Present [] = tt
rows-Present (r ∷ rows) = (
  (r, rw ((==_iff r.outbox_id r.outbox_id).1 refl, if◌then◌else◌) refl),
  All-weaken (λ (x : OutboxRow). Present x.outbox_id rows)
      (λ (x : OutboxRow). Present x.outbox_id (r ∷ rows))
      (λ x here. Present-cons x.outbox_id r rows here) rows (rows-Present rows),
)

head_of :
    (xs : List OutboxRow) (r : OutboxRow)
    → take 1 xs ≡ r ∷ []
    → (rest : List OutboxRow) × (xs ≡ r ∷ rest)
head_of [] r first = cc
head_of (x ∷ xs) r first = (xs, cc)

module _ (w : Passing) where
  unfoldable pub IsReadable : OutboxRow → Type 0
  IsReadable r = (e : Envelope) × (envelope_from_row w.texts r.kind r.payload ≡ ok e)

  -- What one row's turn does to a pass.
  unfoldable pub Turned : Pass → Pass → Type 0
  Turned p next =
      (next.raised ≡ none)
      × (tries next.counted ≡ suc (tries p.counted))
      × ((id : Uuid) → Present id p.outbox → Present id next.outbox)

  publish_turn :
      (r : OutboxRow) (e : Envelope) (p : Pass) → p.raised ≡ none → Turned p (publish_row w r e p)
  unfolding Turned publish_row tries mark_dispatched
  publish_turn r e p quiet =
      (quiet, omega arith, (λ id here. Present-rewrite id _ _ (λ x. refl) p.outbox here))

  fail_turn :
      (r : OutboxRow) (e : Envelope) (p : Pass) (after : List OutboxRow) (n : ℕ)
      → p.raised ≡ none
      → ((id : Uuid) → Present id p.outbox → Present id after)
      → Turned p (fail_row w r e p (after, some n))
  unfolding Turned fail_row tries
  fail_turn r e p after n quiet kept = elim (Bool-cases (exhausted w.policy n)) [
    | inl x ↦ rw (x, if◌then◌else◌) (quiet, omega arith, kept)
    | inr x ↦ rw (x, if◌then◌else◌) (quiet, omega arith, kept)
  ]

  failure_counted :
      (id : Uuid) (rows : List OutboxRow)
      → Present id rows
      → (n : ℕ) × (record_failure w.clock id rows
          ≡ (rewrite (outbox_key id) (failed_again w.clock) rows, some n))
  unfolding record_failure Present failed_again
  failure_counted id rows here =
      let (x, found) =
        Present-rewrite id (outbox_key id) (failed_again w.clock) (λ r. refl) rows here in
      (x.attempts, rw found refl)

  turn :
      (r : OutboxRow) (e : Envelope) (p : Pass)
      → Present r.outbox_id p.outbox
      → p.raised ≡ none
      → Turned p (dispatch_row w r (ok e) p)
  unfolding dispatch_row failed_again
  turn r e p here quiet = elim (Bool-cases (w.accepts (tries p.counted) e)) [
    | inl a ↦ rw (a, if◌then◌else◌) (publish_turn r e p quiet)
    | inr a ↦
        let (n, counts) = failure_counted r.outbox_id p.outbox here in
        rw (a, if◌then◌else◌, counts)
          (fail_turn r e p _ n quiet (λ id present.
            Present-rewrite id (outbox_key r.outbox_id) (failed_again w.clock) (λ x. refl) p.outbox
              present))
  ]

  -- The loop goes on after a turn that raises nothing, and ends with one that raises.
  goes_on :
      (r : OutboxRow) (rs : List OutboxRow) (p next : Pass)
      → dispatch_row w r (envelope_from_row w.texts r.kind r.payload) p ≡ next
      → next.raised ≡ none
      → dispatch_each w (r ∷ rs) p ≡ dispatch_each w rs next
  unfolding dispatch_each
  goes_on r rs p next turned quiet =
      ap (λ (n : Pass). unless_raised w n.raised n (dispatch_each w rs n)) turned
      ∙ ap (λ o. unless_raised w o next (dispatch_each w rs next)) quiet

  ends :
      (r : OutboxRow) (rs : List OutboxRow) (p next : Pass) (e : PassError)
      → dispatch_row w r (envelope_from_row w.texts r.kind r.payload) p ≡ next
      → next.raised ≡ some e
      → dispatch_each w (r ∷ rs) p ≡ next
  unfolding dispatch_each
  ends r rs p next e turned loud =
      ap (λ (n : Pass). unless_raised w n.raised n (dispatch_each w rs n)) turned
      ∙ ap (λ o. unless_raised w o next (dispatch_each w rs next)) loud

  tried_none :
      (p : Pass)
      → p.raised ≡ none
      → ((dispatch_each w [] p).raised ≡ none)
        × (tries (dispatch_each w [] p).counted ≡ tries p.counted + length {A = OutboxRow} [])
  unfolding dispatch_each
  tried_none p quiet = (quiet, omega arith)

  each_tried :
      (rs : List OutboxRow) (p : Pass)
      → All IsReadable rs
      → All (λ (r : OutboxRow). Present r.outbox_id p.outbox) rs
      → p.raised ≡ none
      → ((dispatch_each w rs p).raised ≡ none)
        × (tries (dispatch_each w rs p).counted ≡ tries p.counted + length rs)
  unfolding IsReadable Turned tries
  each_tried [] p readable present quiet = tried_none p quiet
  each_tried (r ∷ rs) p ((e, reads), readable) (here, present) quiet =
      let next = dispatch_row w r (ok e) p in
      let (still, counted, kept) = turn r e p here quiet in
      let (done, total) =
        each_tried rs next readable
          (All-weaken _ _ (λ (x : OutboxRow) h. kept x.outbox_id h) rs present) still in
      rw (goes_on r rs p next (ap (λ x. dispatch_row w r x p) reads) still)
        (done, omega (arith, total, counted))

  -- Where an envelope is read from every row that a pass lists, the pass raises nothing and tries each of
  -- them once, whatever the publisher does and however often they were tried before: the rows published,
  -- failed and undispatchable are together those listed, at most `batch_size`.
  pub tried_in_full :
      (batch_size : ℕ) (rows : List OutboxRow)
      → All IsReadable (undispatched batch_size rows)
      → ((dispatch_once w batch_size rows).raised ≡ none)
        × (tries (dispatch_once w batch_size rows).counted ≡ length (undispatched batch_size rows))
        × (tries (dispatch_once w batch_size rows).counted ≤ batch_size)
  unfolding dispatch_once undispatched tries
  tried_in_full batch_size rows readable =
      let listed = sort_by precedes (select is_undispatched rows) in
      let present =
        All-take (λ (r : OutboxRow). Present r.outbox_id rows) batch_size listed
          (All-sort_by precedes _ _ (All-select _ is_undispatched rows (rows-Present rows))) in
      let (quiet, total) = each_tried (take batch_size listed) _ readable present refl in
      let few = length-take batch_size listed in
      (quiet, omega (arith, total), omega (arith, total, few))

  -- An earliest undispatched row that no envelope is read from stops every pass, whatever its batch size:
  -- the pass raises, sends nothing and leaves every row as it is, so the next pass meets the same row.
  pub malformed_row_stops :
      (r : OutboxRow) (e : BodyError) (rows : List OutboxRow) (batch_size : ℕ)
      → undispatched 1 rows ≡ r ∷ []
      → envelope_from_row w.texts r.kind r.payload ≡ err e
      → ((dispatch_once w (suc batch_size) rows).raised ≡ some (malformed_row e))
        × ((dispatch_once w (suc batch_size) rows).outbox ≡ rows)
        × ((dispatch_once w (suc batch_size) rows).sent ≡ [])
  unfolding dispatch_once undispatched dispatch_row
  malformed_row_stops r e rows batch_size first unread =
      let (rest, listed) = head_of (sort_by precedes (select is_undispatched rows)) r first in
      let start : Pass = record {
        outbox = rows;
        sent = [];
        reports = [];
        counted = record { published = 0; failed_rows = 0; undispatchable = 0 };
        raised = none;
      } in
      let stopped = record start { raised = some (malformed_row e) } in
      rw
        (
          listed,
          ends r (take batch_size rest) start stopped (malformed_row e)
              (ap (λ x. dispatch_row w r x start) unread) refl,
        )
        (refl, refl, refl)

  module _ (open_ : (n : ℕ) (e : Envelope) → w.accepts n e ≡ true) where
    accepted_turn :
        (r : OutboxRow) (e : Envelope) (p : Pass) → dispatch_row w r (ok e) p ≡ publish_row w r e p
    unfolding dispatch_row
    accepted_turn r e p = rw (open_ (tries p.counted) e) refl

    none_sent : (p : Pass) → (dispatch_each w [] p).sent ≡ p.sent
    unfolding dispatch_each
    none_sent p = refl

    each_sent :
        (rs : List OutboxRow) (p : Pass)
        → All IsReadable rs
        → p.raised ≡ none
        → map {B = Result BodyError Envelope} ok (dispatch_each w rs p).sent
          ≡ map ok p.sent ++ map (λ (r : OutboxRow). envelope_from_row w.texts r.kind r.payload) rs
    unfolding IsReadable publish_row
    each_sent [] p readable quiet = rw (none_sent p) (sym (append_nil (map ok p.sent)))
    each_sent (r ∷ rs) p ((e, reads), readable) quiet =
        let next = publish_row w r e p in
        let turned = ap (λ x. dispatch_row w r x p) reads ∙ accepted_turn r e p in
        rw (goes_on r rs p next turned quiet, reads)
          (each_sent rs next readable quiet
            ∙ ap
                (λ sent.
                  sent ++ map (λ (x : OutboxRow). envelope_from_row w.texts x.kind x.payload) rs)
                (map-snoc ok p.sent e)
            ∙ append_assoc (map ok p.sent) (ok e ∷ []) _)

    -- Where an envelope is read from every row that a pass lists and the publisher accepts each, what
    -- the pass sends is the envelopes of those rows, each once, in their order.
    pub dispatch_once_sends :
        (batch_size : ℕ) (rows : List OutboxRow)
        → All IsReadable (undispatched batch_size rows)
        → map {B = Result BodyError Envelope} ok (dispatch_once w batch_size rows).sent
          ≡ map
              (λ (r : OutboxRow). envelope_from_row w.texts r.kind r.payload)
              (undispatched batch_size rows)
    unfolding dispatch_once
    dispatch_once_sends batch_size rows readable =
        each_sent (undispatched batch_size rows) _ readable refl
