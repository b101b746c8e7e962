-- ===== src/Messaging/Publish/Sound.antt =====
-- src/messaging/outbox/publish-outbox-batch.use-case.ts: what a run writes, under the constraints and
-- triggers of migrations.
use distributed_wagering_pro.Messaging.Publish.{run, run_body}
use distributed_wagering_pro.Messaging.Outbox.Laws.{Reach}
use distributed_wagering_pro.Messaging.Publish.Keeps.{run_body-keeps}
use distributed_wagering_pro.Persistence.World.{Platform, World, Em}
use distributed_wagering_pro.Kernel.Event.{Timestamp}
use distributed_wagering_pro.Messaging.Sqs.{SqsPort}
use distributed_wagering_pro.Prelude.{ℕ, ◌≡◌, [], subst, refl}
use distributed_wagering_pro.Persistence.Schema.Keys.{IsKeyed}
use distributed_wagering_pro.Persistence.Schema.{EnforcesUnique}
use distributed_wagering_pro.Kernel.Errors.{ok, Result}
use distributed_wagering_pro.Persistence.Schema.Commits.{Sound, transactional-Sound}
use distributed_wagering_pro.Persistence.Schema.Writes.{
  Writes, Owned, Owned-IsRule, Writes-refl, AnyMessage,
}
use distributed_wagering_pro.Persistence.Schema.Evolves.{Pointwise-Evolves}
use distributed_wagering_pro.Messaging.Publish.Rows.{run_body-rows}

module _ {P : Platform} (now : Timestamp) (sqs : SqsPort P) (w : World P) where
  -- Ledger and transactions are as they were.
  abbrev Alike : Em P.tables → Type 0
  Alike em = (em.ledger ≡ w.em.ledger) × (em.transactions ≡ w.em.transactions)

  run_body-Writes :
      (batch_size : ℕ) (w' : World P) (n : ℕ)
      → IsKeyed P w.em
      → run_body sqs batch_size now w ≡ (ok n, w')
      → Writes P (Owned []) w.em w'.em
  run_body-Writes batch_size w' n keyed h =
      let alike : Alike w'.em =
        subst (λ (r : Result ℕ × World P). Alike r.1.em) h
          (run_body-keeps now Alike (λ m em kept. kept) sqs batch_size w (refl, refl)) in
      let same = Writes-refl P (Owned-IsRule []) w.em in
      record {
        ledger = rw alike.0 same.ledger;
        transactions = rw alike.1 same.transactions;
        outbox =
            Pointwise-Evolves Reach AnyMessage (P.tables.outbox.rows w.em.outbox)
              (P.tables.outbox.rows w'.em.outbox)
              (run_body-rows sqs now batch_size w w' n keyed.outbox h);
      }

  -- What a run leaves, whatever it returns or throws.
  pub publisher-Sound :
      (batch_size : ℕ)
      → EnforcesUnique P
      → IsKeyed P w.em
      → Sound P (Owned []) w.em (run sqs batch_size now w).1.em
  unfolding run
  publisher-Sound batch_size enforces keyed =
      transactional-Sound P enforces (Owned-IsRule []) (run_body sqs batch_size now) w keyed
        λ n w' h _. run_body-Writes batch_size w' n keyed h
