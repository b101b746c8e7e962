-- ===== src/Wagering/Consume.antt =====
-- src/wagering/application/use-cases/consume-wager-transaction-batch.use-case.ts. `submit` is the
-- use case that the constructor is given; the transaction that it opens is nested in this one, so
-- it rolls back to where it began. The clock is an argument; the log and its context are left out.
pub mod Redelivery
pub mod Marked
pub mod Outcome
pub mod Keeps
pub mod Balance
pub mod Sound
use distributed_wagering_pro.Messaging.Inbox
use distributed_wagering_pro.Messaging.Repository
use distributed_wagering_pro.Prelude.{
  Text, Bool, codes, true, if◌then◌else◌, false, Option, List, ℕ, some, ◌∷◌, length, none, [],
}
use distributed_wagering_pro.Kernel.Errors.{Error, invalid_message, Result, ok, err}
use distributed_wagering_pro.Persistence.World.{Platform, App, ReceivedMessage, World}
use distributed_wagering_pro.Wagering.Submit.{Command, Submitted}
use distributed_wagering_pro.Wagering.Parse.{parse_wager_transaction_message}
use distributed_wagering_pro.Messaging.Sqs.{SqsPort, wager_transactions_queue}
use distributed_wagering_pro.Kernel.Event.{Timestamp}
use distributed_wagering_pro.Messaging.Inbox.{InboxMessage}
use distributed_wagering_pro.Persistence.Effect.{
  pure, transactional, ◌>>◌, ◌>>=◌, lift, increment_counter,
}

abbrev pub consumer_name : Text
consumer_name = codes "wager-transactions-consumer"

-- `ConsumeOutcome`
pub data ConsumeOutcome : Type 0 where
  processed duplicate : ConsumeOutcome
  malformed failed : Error → ConsumeOutcome

unfoldable pub ack : ConsumeOutcome → Bool
ack processed = true
ack duplicate = true
ack (malformed _) = false
ack (failed _) = false

unfoldable pub status : ConsumeOutcome → Text
status processed = codes "processed"
status duplicate = codes "duplicate"
status (malformed _) = codes "malformed"
status (failed _) = codes "error"

-- What is returned after the transaction.
unfoldable pub settled_outcome : Bool → ConsumeOutcome
settled_outcome was_duplicate = if was_duplicate then duplicate else processed

-- What the `catch` returns.
unfoldable pub caught : Error → ConsumeOutcome
caught invalid_message = malformed invalid_message
caught e = failed e

module _ {P : Platform} (submit : Command → App P Submitted) where
  abbrev pub inbox_of : ReceivedMessage → Timestamp → InboxMessage
  inbox_of message now = Inbox.receive (record {
    consumer_name = consumer_name;
    message_id = message.message_id;
    payload_hash = P.sha256 message.body;
    received_at = now;
  })

  -- The message is claimed unless a run before this one did.
  unfoldable pub claim_new : ReceivedMessage → Timestamp → Option InboxMessage → App P (Unit {0})
  unfolding Repository.claim_inbox Inbox.receive
  claim_new message now none = Repository.claim_inbox (inbox_of message now)
  claim_new message now (some _) = pure tt

  unfoldable pub process : ReceivedMessage → Timestamp → App P (Unit {0})
  unfolding parse_wager_transaction_message Repository.mark_inbox_processed
  process message now = do
    command ← lift (parse_wager_transaction_message P message.body)
    submitted ← submit command
    Repository.mark_inbox_processed consumer_name message.message_id now

  unfoldable pub already_processed : Option InboxMessage → Bool
  unfolding Inbox.is_processed
  already_processed none = false
  already_processed (some row) = Inbox.is_processed row

  unfoldable pub consume_found : ReceivedMessage → Timestamp → Option InboxMessage → App P Bool
  unfolding already_processed claim_new process
  consume_found message now existing =
      if already_processed existing
      then pure true
      else (do claim_new message now existing; process message now; pure false)

  -- The body of the transaction; whether the message was a duplicate.
  unfoldable pub consume_body : ReceivedMessage → Timestamp → App P Bool
  unfolding Repository.find_by_consumer_and_message_id consume_found
  consume_body message now = do
    existing ← Repository.find_by_consumer_and_message_id consumer_name message.message_id
    consume_found message now existing

  abbrev pub outcome_of : Result Bool × World P → Result ConsumeOutcome × World P
  outcome_of (ok was_duplicate, w) = (ok (settled_outcome was_duplicate), w)
  outcome_of (err e, w) = (ok (caught e), w)

  -- `handle` and `handleWithLogContext`
  unfoldable pub handle : ReceivedMessage → Timestamp → App P ConsumeOutcome
  unfolding consume_body settled_outcome caught
  handle message now w = outcome_of (transactional (consume_body message now) w)

  module _ (sqs : SqsPort P) where
    unfoldable pub acknowledge : ReceivedMessage → Bool → App P (Unit {0})
    acknowledge message is_acknowledged =
        if is_acknowledged
        then sqs.delete wager_transactions_queue message.receipt_handle
        else pure tt

    unfoldable pub consume_one : ReceivedMessage → Timestamp → App P (Unit {0})
    unfolding handle status ack acknowledge
    consume_one message now = do
      outcome ← handle message now
      increment_counter (codes "wager_transaction_messages_total") (status outcome ∷ [])
      acknowledge message (ack outcome)

    unfoldable pub consume_all :
        (ReceivedMessage → Timestamp) → List ReceivedMessage → App P (Unit {0})
    unfolding consume_one
    consume_all clock [] = pure tt
    consume_all clock (message ∷ messages) =
        consume_one message (clock message) >> consume_all clock messages

    -- `clock` is the time at which each message is handled.
    unfoldable pub run : (ReceivedMessage → Timestamp) → ℕ → ℕ → App P ℕ
    unfolding consume_all
    run clock max_messages wait_time_seconds = do
      messages ← sqs.receive wager_transactions_queue max_messages wait_time_seconds
      consume_all clock messages
      pure (length messages)
