-- ===== src/Workers/Dispatch.antt =====
-- One pass over the outbox: ragcore/workers/outbox_dispatch.py. A pass may raise on its way, and what it
-- has done by then is done, so it leaves a state either way.
pub mod Passes
use itsm_poc.Common.{
  ℕ, ◌+◌, Bool, true, false, List, [], ◌∷◌, ◌++◌, String, Option, none, some, Result, ok, err,
  if◌then◌else◌, ltb,
}
use itsm_poc.Domain.Records.{Instant}
use itsm_poc.Domain.Envelopes.{Envelope, trigger, command}
use itsm_poc.Messaging.Retry.{BackoffPolicy, exhausted}
use itsm_poc.Messaging.DeadLetters.{DeadLetterReport, report_dead_letter}
use itsm_poc.Messaging.Bodies.{UuidText, BodyError, envelope_from_row, row_kind}
use itsm_poc.Messaging.Outbox.{OutboxRow, undispatched, mark_dispatched, record_failure}

pub record DispatchResult : Type 0 where
  pub published : ℕ
  pub failed_rows : ℕ
  pub undispatchable : ℕ

unfoldable pub had_work : DispatchResult → Bool
had_work r = ltb 0 (r.published + r.failed_rows + r.undispatchable)

-- A row that no envelope is read from, and `scalar_one` without a row.
pub data PassError : Type 0 where
  malformed_row : BodyError → PassError
  no_result_found : PassError

-- The rows after, what the queues took and the reports made, in order, and how the pass ended.
pub record Pass : Type 0 where
  pub outbox : List OutboxRow
  pub sent : List Envelope
  pub reports : List DeadLetterReport
  pub counted : DispatchResult
  pub raised : Option PassError

unfoldable pub subject_of : UuidText → Envelope → String
subject_of m (command e) = m.uuid_text e.job_id.value
subject_of m (trigger e) = m.uuid_text e.work_item_id.value

abbrev correlation_of : Envelope → String
correlation_of (command e) = e.correlation_id.value
correlation_of (trigger e) = e.correlation_id.value

-- The publisher, by the number of the try and the envelope, the wording of a report, and the clock.
pub record Passing : Type 0 where
  pub texts : UuidText
  pub policy : BackoffPolicy
  pub accepts : (try : ℕ) → Envelope → Bool
  pub wording : (attempts : ℕ) → String
  pub clock : Instant

unfoldable pub tries : DispatchResult → ℕ
tries r = r.published + r.failed_rows + r.undispatchable

module _ (w : Passing) where
  unfoldable pub publish_row : OutboxRow → Envelope → Pass → Pass
  publish_row r e p = record p {
    outbox = mark_dispatched w.clock r.outbox_id p.outbox;
    sent = p.sent ++ (e ∷ []);
    counted = record p.counted { published = p.counted.published + 1 };
  }

  fail_row : OutboxRow → Envelope → Pass → List OutboxRow × Option ℕ → Pass
  fail_row r e p (after, none) = record p { outbox = after; raised = some no_result_found }
  fail_row r e p (after, some attempts) =
      if exhausted w.policy attempts
      then record p {
        outbox = after;
        reports =
            p.reports
            ++ (report_dead_letter (subject_of w.texts e) (correlation_of e) (row_kind w.texts e)
                  (w.wording attempts)
                ∷ []);
        counted = record p.counted { undispatchable = p.counted.undispatchable + 1 };
      }
      else record p {
        outbox = after;
        counted = record p.counted { failed_rows = p.counted.failed_rows + 1 };
      }

  -- The body of the loop, from the envelope of the row.
  unfoldable pub dispatch_row : OutboxRow → Result BodyError Envelope → Pass → Pass
  unfolding publish_row fail_row tries
  dispatch_row r (err e) p = record p { raised = some (malformed_row e) }
  dispatch_row r (ok e) p =
      if w.accepts (tries p.counted) e
      then publish_row r e p
      else fail_row r e p (record_failure w.clock r.outbox_id p.outbox)

  -- An exception ends the loop.
  abbrev pub unless_raised : Option PassError → (ended continued : Pass) → Pass
  unless_raised none ended continued = continued
  unless_raised (some _) ended continued = ended

  unfoldable pub dispatch_each : List OutboxRow → Pass → Pass
  unfolding dispatch_row
  dispatch_each [] p = p
  dispatch_each (r ∷ rs) p =
      let next = dispatch_row r (envelope_from_row w.texts r.kind r.payload) p in
      let rest = dispatch_each rs next in unless_raised next.raised next rest

  unfoldable pub dispatch_once : (batch_size : ℕ) → List OutboxRow → Pass
  unfolding dispatch_each
  dispatch_once batch_size rows = dispatch_each (undispatched batch_size rows) (record {
    outbox = rows;
    sent = [];
    reports = [];
    counted = record { published = 0; failed_rows = 0; undispatchable = 0 };
    raised = none;
  })
