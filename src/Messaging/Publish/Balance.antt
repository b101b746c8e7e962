-- ===== src/Messaging/Publish/Balance.antt =====
-- src/messaging/outbox/publish-outbox-batch.use-case.ts: a run touches neither wallets nor ledger.
use distributed_wagering_pro.Messaging.Publish.{run}
use distributed_wagering_pro.Messaging.Publish.Keeps.{run-kept}
use distributed_wagering_pro.Persistence.World.{Platform, World}
use distributed_wagering_pro.Kernel.Event.{Timestamp}
use distributed_wagering_pro.Messaging.Sqs.{SqsPort}
use distributed_wagering_pro.Prelude.{ℕ, All}
use distributed_wagering_pro.Persistence.Balanced.{IsBalanced, RowBalanced}

pub publisher-IsBalanced :
    {P : Platform} (now : Timestamp) (sqs : SqsPort P) (batch_size : ℕ) (w : World P)
    → IsBalanced P w
    → IsBalanced P (run sqs batch_size now w).1
publisher-IsBalanced {P = P} now sqs batch_size w b =
    run-kept now
      (λ em. All (RowBalanced (P.tables.ledger.rows em.ledger)) (P.tables.wallets.rows em.wallets))
      (λ m em kept. kept) sqs batch_size w b
