-- ===== src/Messaging/Sqs.antt =====
-- src/messaging/sqs/sqs.port.ts and queue-names.ts: what the publisher and the consumer know of the
-- queue.
pub mod Client
use distributed_wagering_pro.Prelude.{Text, codes, ℕ, List, ◌≡◌}
use distributed_wagering_pro.Persistence.World.{Platform, App, ReceivedMessage, World}

abbrev pub wager_transactions_queue : Text
wager_transactions_queue = codes "wager-transactions.fifo"

abbrev pub wager_events_queue : Text
wager_events_queue = codes "wager-events.fifo"

-- `SqsPort`. A call of it leaves the unit of work as it is.
pub record SqsPort (P : Platform) : Type 0 where
  pub send : Text → Text → Text → Text → App P (Unit {0})
  pub receive : Text → ℕ → ℕ → App P (List ReceivedMessage)
  pub delete : Text → Text → App P (Unit {0})
  pub check_connection : Text → App P (Unit {0})
  pub send-em :
      (queue body group id : Text) (w : World P) → (send queue body group id w).1.em ≡ w.em
  pub receive-em :
      (queue : Text) (n seconds : ℕ) (w : World P) → (receive queue n seconds w).1.em ≡ w.em
  pub delete-em : (queue handle : Text) (w : World P) → (delete queue handle w).1.em ≡ w.em
