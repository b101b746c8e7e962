-- ===== src/Wagering/Consume/Keeps.antt =====
-- src/wagering/application/use-cases/consume-wager-transaction-batch.use-case.ts: whatever the use case
-- keeps of wallets, ledger, transactions and outbox, a run of the consumer keeps.
use distributed_wagering_pro.Wagering.Consume.{
  run, handle, claim_new, process, consume_found, consume_body, acknowledge, consume_one,
  consume_all, consumer_name, ack, outcome_of, status, already_processed,
}
use distributed_wagering_pro.Wagering.Submit.{Command, Submitted}
use distributed_wagering_pro.Messaging.Repository.{
  mark_inbox_processed, is_message_of, assign_processed, claim_inbox,
}
use distributed_wagering_pro.Persistence.World.{Platform, App, ReceivedMessage, World, Em}
use distributed_wagering_pro.Prelude.{
  Text, Option, ℕ, some, Bool, List, subst, codes, ◌∷◌, none, true, false, sym, length, [], refl,
  if◌then◌else◌, ◌≡◌, pos, ◌≤ℤ◌,
}
use distributed_wagering_pro.Messaging.Sqs.{SqsPort, wager_transactions_queue}
use distributed_wagering_pro.Kernel.Event.{Timestamp}
use distributed_wagering_pro.Messaging.Inbox.{InboxMessage, mark_processed}
use distributed_wagering_pro.Kernel.Errors.{Result, ok, err}
use distributed_wagering_pro.Persistence.Effect.{
  continue-keeps, continue, pure, ◌>>◌, modify, transactional, transactional-keeps, ◌>>=◌,
}
use distributed_wagering_pro.Wagering.Parse.{parse_wager_transaction_message}
use distributed_wagering_pro.Wagering.Consume.Outcome.{find_lem}
use distributed_wagering_pro.Wagering.Parse.Amounts.{parse-NonNegative}

-- What a consumer's own writes leave alone: all but the inbox.
abbrev pub SameStored : (P : Platform) → Em P.tables → Em P.tables → Type 0
SameStored P em em' =
    (em'.wallets ≡ em.wallets)
    × (em'.ledger ≡ em.ledger)
    × (em'.transactions ≡ em.transactions)
    × (em'.outbox ≡ em.outbox)

module _ {P : Platform} where
  assign_processed-SameStored :
      (at : Timestamp) (found : Option InboxMessage) (w : World P)
      → SameStored P w.em (assign_processed at found w).1.em
  unfolding assign_processed
  assign_processed-SameStored at none w = (refl, refl, refl, refl)
  assign_processed-SameStored at (some row) w =
      elim (mark_processed at row)
        as (λ r.
          SameStored P w.em
            (continue
              (λ message.
                modify (λ em. record em { inbox = P.tables.inbox.assign message em.inbox }))
              (r, w)).1.em) [ ok m ↦ (refl, refl, refl, refl) | err e ↦ (refl, refl, refl, refl) ]

  mark_inbox_processed-SameStored :
      (consumer id : Text) (at : Timestamp) (w : World P)
      → SameStored P w.em (mark_inbox_processed consumer id at w).1.em
  unfolding mark_inbox_processed
  mark_inbox_processed-SameStored consumer id at w =
      assign_processed-SameStored at
        (P.tables.inbox.find_one (is_message_of consumer id) w.em.inbox) w

  module _ (submit : Command → App P Submitted) (Q : Em P.tables → Type 0)
      (stored : (em em' : Em P.tables) → SameStored P em em' → Q em → Q em')
      (submitted : (cmd : Command) (w : World P)
        → pos 0 ≤ℤ cmd.money.minor_units
        → Q w.em
        → Q (submit cmd w).1.em) where
    claim_new-SameStored :
        (message : ReceivedMessage) (now : Timestamp) (found : Option InboxMessage) (w : World P)
        → SameStored P w.em (claim_new submit message now found w).1.em
    unfolding claim_new claim_inbox
    claim_new-SameStored message now none w = (refl, refl, refl, refl)
    claim_new-SameStored message now (some _) w = (refl, refl, refl, refl)

    process-keeps :
        (message : ReceivedMessage) (now : Timestamp) (w : World P)
        → Q w.em
        → Q (process submit message now w).1.em
    unfolding process
    process-keeps message now w b = by_command (parse_wager_transaction_message P message.body) refl
      where
        answer : Command → App P (Unit {0})
        answer cmd = do
          submission ← submit cmd
          mark_inbox_processed consumer_name message.message_id now

        by_command :
            (r : Result Command)
            → parse_wager_transaction_message P message.body ≡ r
            → Q (continue answer (r, w)).1.em
        by_command (err e) h = b
        by_command (ok cmd) h =
            continue-keeps (λ v. Q v.em)
              (λ _. mark_inbox_processed consumer_name message.message_id now) (submit cmd w)
              (submitted cmd w (parse-NonNegative P message.body h) b)
              λ _ u bu.
                stored u.em (mark_inbox_processed consumer_name message.message_id now u).1.em
                  (mark_inbox_processed-SameStored consumer_name message.message_id now u) bu

    consume_found-keeps :
        (message : ReceivedMessage) (now : Timestamp) (found : Option InboxMessage) (w : World P)
        → Q w.em
        → Q (consume_found submit message now found w).1.em
    unfolding consume_found
    consume_found-keeps message now found w b = by_test (already_processed submit found)
      where
        fresh : App P Bool
        fresh = do claim_new submit message now found; process submit message now; pure false

        by_test : (t : Bool) → Q ((if t then pure true else fresh) w).1.em
        by_test true = b
        by_test false =
            continue-keeps (λ v. Q v.em) (λ _. process submit message now >> pure false)
              (claim_new submit message now found w)
              (stored w.em (claim_new submit message now found w).1.em
                (claim_new-SameStored message now found w) b)
              λ _ v bv.
                continue-keeps (λ v. Q v.em) (λ _. pure false) (process submit message now v)
                  (process-keeps message now v bv) λ _ u bu. bu

    consume_body-keeps :
        (message : ReceivedMessage) (now : Timestamp) (w : World P)
        → Q w.em
        → Q (consume_body submit message now w).1.em
    unfolding consume_body
    consume_body-keeps message now w b =
        let found =
          P.tables.inbox.find_one (is_message_of consumer_name message.message_id) w.em.inbox in
        subst (λ r. Q (continue (consume_found submit message now) r).1.em)
          (sym (find_lem consumer_name message.message_id w))
          (consume_found-keeps message now found w b)

    handle-keeps :
        (message : ReceivedMessage) (now : Timestamp) (w : World P)
        → Q w.em
        → Q (handle submit message now w).1.em
    unfolding handle
    handle-keeps message now w b =
        outcome_of-keeps (transactional (consume_body submit message now) w) (
          transactional-keeps Q (consume_body submit message now) w b
            λ a w' h. subst (λ r. Q r.1.em) h (consume_body-keeps message now w b))
      where
        outcome_of-keeps : (r : Result Bool × World P) → Q r.1.em → Q (outcome_of submit r).1.em
        outcome_of-keeps (ok _, v) bv = bv
        outcome_of-keeps (err _, v) bv = bv

    module _ (sqs : SqsPort P) (clock : ReceivedMessage → Timestamp) where
      acknowledge-keeps :
          (message : ReceivedMessage) (t : Bool) (w : World P)
          → Q w.em
          → Q (acknowledge submit sqs message t w).1.em
      unfolding acknowledge
      acknowledge-keeps message true w b =
          rw (sqs.delete-em wager_transactions_queue message.receipt_handle w) b
      acknowledge-keeps message false w b = b

      consume_one-keeps :
          (message : ReceivedMessage) (w : World P)
          → Q w.em
          → Q (consume_one submit sqs message (clock message) w).1.em
      unfolding consume_one
      consume_one-keeps message w b =
          continue-keeps (λ v. Q v.em) _ (handle submit message (clock message) w)
            (handle-keeps message (clock message) w b)
            λ outcome v bv.
              acknowledge-keeps message (ack outcome)
                (record v {
                  counts =
                      record {
                        name = codes "wager_transaction_messages_total";
                        labels = status outcome ∷ [];
                      }
                      ∷ v.counts;
                })
                bv

      consume_all-keeps :
          (messages : List ReceivedMessage) (w : World P)
          → Q w.em
          → Q (consume_all submit sqs clock messages w).1.em
      unfolding consume_all
      consume_all-keeps [] w b = b
      consume_all-keeps (message ∷ messages) w b =
          continue-keeps (λ v. Q v.em) (λ _. consume_all submit sqs clock messages)
            (consume_one submit sqs message (clock message) w) (consume_one-keeps message w b)
            λ _ v bv. consume_all-keeps messages v bv

      pub run-kept :
          (max_messages wait_time_seconds : ℕ) (w : World P)
          → Q w.em
          → Q (run submit sqs clock max_messages wait_time_seconds w).1.em
      unfolding run
      run-kept max_messages wait_time_seconds w b =
          continue-keeps (λ v. Q v.em) _
            (sqs.receive wager_transactions_queue max_messages wait_time_seconds w)
            (rw (sqs.receive-em wager_transactions_queue max_messages wait_time_seconds w) b)
            λ messages v bv.
              continue-keeps (λ v. Q v.em) (λ _. pure (length messages))
                (consume_all submit sqs clock messages v) (consume_all-keeps messages v bv)
                λ _ u bu. bu
