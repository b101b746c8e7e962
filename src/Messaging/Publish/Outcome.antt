-- ===== src/Messaging/Publish/Outcome.antt =====
-- src/messaging/outbox/publish-outbox-batch.use-case.ts: what becomes of one message.
use distributed_wagering_pro.Messaging.Publish.{publish_one, send_and_mark, retry_later, mark_sent}
use distributed_wagering_pro.Messaging.Repository.{has_id, save_outbox}
use distributed_wagering_pro.Messaging.Outbox.{
  OutboxMessage, is_pending, compute_backoff_ms, mark_published, schedule_retry,
}
use distributed_wagering_pro.Persistence.World.{Platform, World, Count, Em}
use distributed_wagering_pro.Kernel.Event.{Timestamp}
use distributed_wagering_pro.Messaging.Sqs.{SqsPort, wager_events_queue}
use distributed_wagering_pro.Kernel.Errors.{Result, ok, err}
use distributed_wagering_pro.Prelude.{some, ◌≡◌, true, ◌+◌, List, refl, codes, [], ◌∷◌, ap, ◌∙◌}
use distributed_wagering_pro.Persistence.Effect.{catches, handle, continue}

-- The message after an attempt that `sent` says the result of.
abbrev pub after_attempt : OutboxMessage → Timestamp → Result (Unit {0}) → OutboxMessage
after_attempt m now (ok _) = record m { published_at = some now }
after_attempt m now (err _) = record m {
  attempts = m.attempts + 1;
  next_attempt_at = some (now + compute_backoff_ms (m.attempts + 1));
}

save_outbox_lem :
    {P : Platform} (m : OutboxMessage) (w : World P) (row : OutboxMessage)
    → P.tables.outbox.find_one (has_id m.id) w.em.outbox ≡ some row
    → save_outbox m w
      ≡ (ok tt, record w { em = record w.em { outbox = P.tables.outbox.assign m w.em.outbox } })
unfolding save_outbox
save_outbox_lem m w row stored = rw stored refl

module _ {P : Platform} (sqs : SqsPort P) (m : OutboxMessage) (now : Timestamp) (w : World P) where
  abbrev pub sent : Result (Unit {0}) × World P
  sent = sqs.send wager_events_queue (P.stringify_payload m.payload) m.aggregate_id m.id w

  attempted :
      is_pending m ≡ true
      → (c : List Count) × (catches (send_and_mark sqs m now) (λ _. retry_later m now) w
          ≡ (ok (after_attempt m now sent.0), record sent.1 { counts = c }))
  unfolding send_and_mark mark_sent retry_later mark_published schedule_retry
  attempted pending = by_sent sent
    where
      by_sent :
          (r : Result (Unit {0}) × World P)
          → (c : List Count) × (handle (λ _. retry_later m now) (continue (λ _. mark_sent m now) r)
              ≡ (ok (after_attempt m now r.0), record r.1 { counts = c }))
      by_sent (ok _, v) = (
        record { name = codes "outbox_published_total"; labels = [] } ∷ v.counts,
        rw pending refl,
      )
      by_sent (err _, v) = (
        record { name = codes "outbox_publish_failures_total"; labels = [] } ∷ v.counts,
        rw pending refl,
      )

  after_attempt-id : (r : Result (Unit {0})) → (after_attempt m now r).id ≡ m.id
  after_attempt-id (ok _) = refl
  after_attempt-id (err _) = refl

  -- For a pending message whose row is stored, an attempt to publish it returns, whatever the
  -- queue answers, and changes nothing stored but the message: it is published now where the queue
  -- took it, and otherwise counts one more attempt and is due again after the delay for that
  -- attempt.
  pub publish_one-outcome :
      (row : OutboxMessage)
      → is_pending m ≡ true
      → P.tables.outbox.find_one (has_id m.id) w.em.outbox ≡ some row
      → ((publish_one sqs m now w).0 ≡ ok tt)
        × ((publish_one sqs m now w).1.em ≡ record w.em {
          outbox = P.tables.outbox.assign (after_attempt m now sent.0) w.em.outbox;
        })
  unfolding publish_one
  publish_one-outcome row pending stored =
      let (c, done) = attempted pending in
      let same : sent.1.em ≡ w.em =
        sqs.send-em wager_events_queue (P.stringify_payload m.payload) m.aggregate_id m.id w in
      let saved =
        save_outbox_lem (after_attempt m now sent.0) (record sent.1 { counts = c }) row
          (rw (after_attempt-id sent.0, same) stored) in
      let run = ap (continue save_outbox) done ∙ saved in
      (
        ap (λ r. r.0) run,
        ap (λ r. r.1.em) run
            ∙ ap {A = Em P.tables}
                (λ em. record em {
                  outbox = P.tables.outbox.assign (after_attempt m now sent.0) em.outbox;
                })
                same,
      )
