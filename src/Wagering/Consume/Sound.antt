-- ===== src/Wagering/Consume/Sound.antt =====
-- src/wagering/application/use-cases/consume-wager-transaction-batch.use-case.ts: what a run writes,
-- under the constraints and triggers of migrations.
use distributed_wagering_pro.Wagering.Consume.{run}
use distributed_wagering_pro.Wagering.Consume.Keeps.{run-kept, SameStored}
use distributed_wagering_pro.Persistence.World.{Platform, World, Em, ReceivedMessage}
use distributed_wagering_pro.Persistence.Schema.{EnforcesUnique}
use distributed_wagering_pro.Wagering.Submit.{Command, Clock, execute}
use distributed_wagering_pro.Messaging.Sqs.{SqsPort}
use distributed_wagering_pro.Persistence.Schema.Commits.{Sound}
use distributed_wagering_pro.Persistence.Schema.Writes.{
  Writes-trans, Owned, Owned-IsRule, Writes-same, Writes-refl,
}
use distributed_wagering_pro.Prelude.{pos, [], ◌≤ℤ◌, ℕ, All}
use distributed_wagering_pro.Kernel.Event.{Timestamp}
use distributed_wagering_pro.Persistence.Balanced.{IsBalanced, RowBalanced}
use distributed_wagering_pro.Wagering.Submit.Writes.{execute-Sound}
use distributed_wagering_pro.Persistence.Schema.Keys.{IsKeyed}
use distributed_wagering_pro.Wagering.Submit.Balance.{execute-IsBalanced}

module _ {P : Platform} (enforces : EnforcesUnique P) (start : World P) where
  -- What holds of the database all along the run.
  abbrev Running : Em P.tables → Type 0
  Running em =
      Sound P (Owned []) start.em em
      × All (RowBalanced (P.tables.ledger.rows em.ledger)) (P.tables.wallets.rows em.wallets)

  stored-Running : (em em' : Em P.tables) → SameStored P em em' → Running em → Running em'
  stored-Running em em' (wallets, ledger, transactions, outbox) ((writes, keyed), b) = (
    (
      Writes-trans P (Owned-IsRule []) start.em em em' writes
          (Writes-same P (Owned-IsRule []) em em' (ledger, transactions, outbox)),
      record { transactions = rw transactions keyed.transactions; outbox = rw outbox keyed.outbox },
    ),
    rw (wallets, ledger) b,
  )

  submitted-Running :
      (cmd : Command) (clock : Clock) (w : World P)
      → pos 0 ≤ℤ cmd.money.minor_units
      → Running w.em
      → Running (execute cmd clock w).1.em
  submitted-Running cmd clock w nonneg ((writes, keyed), b) =
      let (more, keyed') = execute-Sound P cmd clock enforces nonneg w b keyed in
      (
        (
          Writes-trans P (Owned-IsRule []) start.em w.em (execute cmd clock w).1.em writes more,
          keyed',
        ),
        execute-IsBalanced cmd clock w b,
      )

  -- What a run of the consumer leaves, whatever it returns or throws.
  pub consumer-Sound :
      (sqs : SqsPort P) (clock : ReceivedMessage → Timestamp) (submit_clock : Command → Clock)
      (max_messages wait_time_seconds : ℕ)
      → IsBalanced P start
      → IsKeyed P start.em
      → Sound P
          (Owned [])
          start.em
          (run
            (λ cmd. execute cmd (submit_clock cmd))
            sqs
            clock
            max_messages
            wait_time_seconds
            start).1.em
  consumer-Sound sqs clock submit_clock max_messages wait_time_seconds b keyed =
      (run-kept (λ cmd. execute cmd (submit_clock cmd)) Running stored-Running
        (λ cmd v nonneg running. submitted-Running cmd (submit_clock cmd) v nonneg running) sqs
        clock max_messages wait_time_seconds start
        ((Writes-refl P (Owned-IsRule []) start.em, keyed), b)).0
