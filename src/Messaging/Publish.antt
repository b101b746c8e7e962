-- ===== src/Messaging/Publish.antt =====
-- src/messaging/outbox/publish-outbox-batch.use-case.ts. The clock is an argument; the publication
-- lag that goes to a histogram is left out.
pub mod Rows
pub mod Outcome
pub mod Keeps
pub mod Balance
pub mod Sound
use distributed_wagering_pro.Messaging.Outbox
use distributed_wagering_pro.Messaging.Repository
use distributed_wagering_pro.Persistence.World.{Platform, App}
use distributed_wagering_pro.Messaging.Sqs.{SqsPort, wager_events_queue}
use distributed_wagering_pro.Messaging.Outbox.{OutboxMessage}
use distributed_wagering_pro.Prelude.{List, ℕ, ◌∷◌, length, [], codes}
use distributed_wagering_pro.Kernel.Event.{Timestamp}
use distributed_wagering_pro.Persistence.Effect.{
  pure, transactional, ◌>>◌, ◌>>=◌, lift, catches, increment_counter,
}

module _ {P : Platform} where
  unfoldable pub mark_sent : OutboxMessage → Timestamp → App P OutboxMessage
  unfolding Outbox.mark_published
  mark_sent message now = do
    published ← lift (Outbox.mark_published now message)
    increment_counter (codes "outbox_published_total") []
    pure published

  unfoldable pub retry_later : OutboxMessage → Timestamp → App P OutboxMessage
  unfolding Outbox.schedule_retry
  retry_later message now = do
    retried ← lift (Outbox.schedule_retry now message)
    increment_counter (codes "outbox_publish_failures_total") []
    pure retried

module _ {P : Platform} (sqs : SqsPort P) where
  -- What stands in the `try`.
  unfoldable pub send_and_mark : OutboxMessage → Timestamp → App P OutboxMessage
  unfolding mark_sent
  send_and_mark message now = do
    sqs.send wager_events_queue (P.stringify_payload message.payload) message.aggregate_id
        message.id
    mark_sent message now

  unfoldable pub publish_one : OutboxMessage → Timestamp → App P (Unit {0})
  unfolding send_and_mark retry_later Repository.save_outbox
  publish_one message now = do
    message' ← catches (send_and_mark message now) (λ _. retry_later message now)
    Repository.save_outbox message'

  unfoldable pub publish_batch : List OutboxMessage → Timestamp → App P (Unit {0})
  unfolding publish_one
  publish_batch [] now = pure tt
  publish_batch (message ∷ batch) now = publish_one message now >> publish_batch batch now

  unfoldable pub run_body : ℕ → Timestamp → App P ℕ
  unfolding Repository.find_due_batch publish_batch
  run_body batch_size now = do
    batch ← Repository.find_due_batch now batch_size
    publish_batch batch now
    pure (length batch)

  unfoldable pub run : ℕ → Timestamp → App P ℕ
  unfolding run_body
  run batch_size now = transactional (run_body batch_size now)
