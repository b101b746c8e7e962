-- ===== src/Health/Ready.antt =====
-- src/health/worker-readiness.controller.ts: when the worker is ready.
use distributed_wagering_pro.Health.{check_ready, ask_sqs, answer_sqs, postgres_and_sqs_ok, err}
use distributed_wagering_pro.Messaging.Sqs.Client.{sqs_client, check_connection_iff, NamesQueue}
use distributed_wagering_pro.Messaging.Sqs.{wager_transactions_queue}
use distributed_wagering_pro.Persistence.World.{Platform, App, World}
use distributed_wagering_pro.Prelude.{Text, codes, ◌≡◌, ◌↔◌, refl}
use distributed_wagering_pro.Kernel.Errors.{ok, Result}

module _ {P : Platform} (execute : Text → App P (Unit {0})) where
  -- The database answers, and after that the service names a url for the queue.
  abbrev pub MayServe : World P → Type 0
  MayServe w =
      ((execute (codes "select 1") w).0 ≡ ok tt)
      × NamesQueue P wager_transactions_queue
          (P.get_queue_url wager_transactions_queue (execute (codes "select 1") w).1.queues)

  -- The worker answers that it is ready exactly where the database answers and, after that, the
  -- queue service names a url that is not empty for the queue of transactions.
  pub check_ready_iff :
      (w : World P) → ((check_ready execute (sqs_client P) w).0 ≡ postgres_and_sqs_ok) ↔ MayServe w
  unfolding check_ready
  check_ready_iff w = by_database (execute (codes "select 1") w)
    where
      Named : World P → Type 0
      Named v =
          NamesQueue P wager_transactions_queue (P.get_queue_url wager_transactions_queue v.queues)

      by_queue :
          (v : World P) (r : Result (Unit {0}) × World P)
          → ((r.0 ≡ ok tt) ↔ Named v)
          → ((answer_sqs execute (sqs_client P) r).0 ≡ postgres_and_sqs_ok) ↔ Named v
      by_queue v (ok _, u) asked = (λ _. asked.0 refl, λ _. refl)
      by_queue v (err e, u) asked = (λ h. absurd (cc), λ n. absurd (failed (asked.1 n)))
        where
          failed : ◌≡◌ {A = Result (Unit {0})} (err e) (ok tt) → ⊥
          failed h = cc

      by_database :
          (r : Result (Unit {0}) × World P)
          → ((ask_sqs execute (sqs_client P) r).0 ≡ postgres_and_sqs_ok)
            ↔ ((r.0 ≡ ok tt) × Named r.1)
      by_database (err e, v) = (λ h. absurd (cc), λ h. absurd (cc))
      by_database (ok _, v) =
          let asked =
            by_queue v ((sqs_client P).check_connection wager_transactions_queue v)
              (check_connection_iff wager_transactions_queue v) in
          (λ h. (refl, asked.0 h), λ h. asked.1 h.1)
