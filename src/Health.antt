-- ===== src/Health.antt =====
-- src/health: whether the process can serve. `execute` runs a statement on the database's connection, and
-- is a parameter.
pub mod Ready
use distributed_wagering_pro.Prelude.{Text, codes}
use distributed_wagering_pro.Kernel.Errors.{Result, ok, err}
use distributed_wagering_pro.Persistence.World.{Platform, App, World}
use distributed_wagering_pro.Messaging.Sqs.{SqsPort, wager_transactions_queue}

-- The body of the answer 200, with what was asked, or a `ServiceUnavailableException` (503).
pub data Health : Type 0 where
  postgres_ok : Health
  postgres_and_sqs_ok : Health
  service_unavailable : Text → Health

module _ {P : Platform} (execute : Text → App P (Unit {0})) where
  abbrev answer_postgres : Result (Unit {0}) × World P → Health × World P
  answer_postgres (ok _, v) = (postgres_ok, v)
  answer_postgres (err _, v) = (service_unavailable (codes "Postgres indisponível"), v)

  -- `HealthController.check`
  unfoldable pub check : World P → Health × World P
  check w = answer_postgres (execute (codes "select 1") w)

  module _ (sqs : SqsPort P) where
    abbrev pub answer_sqs : Result (Unit {0}) × World P → Health × World P
    answer_sqs (ok _, v) = (postgres_and_sqs_ok, v)
    answer_sqs (err _, v) = (service_unavailable (codes "SQS indisponível"), v)

    abbrev pub ask_sqs : Result (Unit {0}) × World P → Health × World P
    ask_sqs (ok _, v) = answer_sqs (sqs.check_connection wager_transactions_queue v)
    ask_sqs (err _, v) = (service_unavailable (codes "Postgres indisponível"), v)

    -- `WorkerReadinessController.check`
    unfoldable pub check_ready : World P → Health × World P
    check_ready w = ask_sqs (execute (codes "select 1") w)
