-- ===== src/System.antt =====
-- The two processes together, src/main.ts and src/worker.ts: requests and runs of the worker's tasks,
-- one after the other, on one database.
use distributed_wagering_pro.Wallets.Http.{CreateWalletDto, open_wallet}
use distributed_wagering_pro.Wagering.Http.{submit_transaction, SubmitDto}
use distributed_wagering_pro.Wagering.Submit
use distributed_wagering_pro.Wagering.Consume
use distributed_wagering_pro.Wagering.Reprocess
use distributed_wagering_pro.Messaging.Publish
pub mod Consistent
pub mod Stored
pub mod Frozen
use distributed_wagering_pro.Persistence.World.{Platform, World, App, ReceivedMessage}
use distributed_wagering_pro.Messaging.Sqs.{SqsPort}
use distributed_wagering_pro.Wagering.Submit.{Command, Clock, Submitted}
use distributed_wagering_pro.Kernel.Event.{Timestamp}
use distributed_wagering_pro.Wallets.Open.Balance.{IsFresh}

module _ {P : Platform} (sqs : SqsPort P) where
  -- The use case that the consumer is given.
  abbrev pub submit_at : (Command → Clock) → Command → App P Submitted
  submit_at clock cmd = Submit.execute cmd (clock cmd)

  -- One request, or one run of a task, whatever it returns or throws. The id of a new wallet is not
  -- in use yet.
  pub data Event : World P → World P → Type 0 where
    opens :
        {w : World P} (dto : CreateWalletDto) (now : Timestamp)
        → IsFresh P (P.new_id w.ids) w
        → Event w (open_wallet dto now w).1
    submits :
        {w : World P} (dto : SubmitDto) (clock : Clock) → Event w (submit_transaction dto clock w).1
    consumes :
        {w : World P} (submitted : Command → Clock) (clock : ReceivedMessage → Timestamp)
        → Event w (Consume.run (submit_at submitted) sqs clock 10 5 w).1
    publishes : {w : World P} (now : Timestamp) → Event w (Publish.run sqs 20 now w).1
    reprocesses : {w : World P} (now : Timestamp) → Event w (Reprocess.run 20 now w).1

  pub data History : World P → World P → Type 0 where
    start : {w : World P} → History w w
    event : {u v w : World P} → History u v → Event v w → History u w
