-- ===== src/Wagering/Consume/Balance.antt =====
-- src/wagering/application/use-cases/consume-wager-transaction-batch.use-case.ts: the wallets and the
-- ledger under a run of the consumer.
use distributed_wagering_pro.Wagering.Consume.{run}
use distributed_wagering_pro.Wagering.Consume.Keeps.{run-kept, SameStored}
use distributed_wagering_pro.Persistence.World.{Platform, ReceivedMessage, World, Em}
use distributed_wagering_pro.Messaging.Sqs.{SqsPort}
use distributed_wagering_pro.Kernel.Event.{Timestamp}
use distributed_wagering_pro.Wagering.Submit.{Command, Clock, execute}
use distributed_wagering_pro.Prelude.{ℕ, All}
use distributed_wagering_pro.Persistence.Balanced.{IsBalanced, RowBalanced}
use distributed_wagering_pro.Wagering.Submit.Balance.{execute-IsBalanced}

pub consumer-IsBalanced :
    {P : Platform} (sqs : SqsPort P) (clock : ReceivedMessage → Timestamp)
    (submit_clock : Command → Clock) (max_messages wait_time_seconds : ℕ) (w : World P)
    → IsBalanced P w
    → IsBalanced P
        (run (λ cmd. execute cmd (submit_clock cmd)) sqs clock max_messages wait_time_seconds w).1
consumer-IsBalanced {P = P} sqs clock submit_clock max_messages wait_time_seconds w b =
    run-kept (λ cmd. execute cmd (submit_clock cmd)) Balanced stored
      (λ cmd v _ bv. execute-IsBalanced cmd (submit_clock cmd) v bv) sqs clock max_messages
      wait_time_seconds w b
  where
    Balanced : Em P.tables → Type 0
    Balanced em =
        All (RowBalanced (P.tables.ledger.rows em.ledger)) (P.tables.wallets.rows em.wallets)

    stored : (em em' : Em P.tables) → SameStored P em em' → Balanced em → Balanced em'
    stored em em' (wallets, ledger, _, _) b' = rw (wallets, ledger) b'
