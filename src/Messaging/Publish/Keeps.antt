-- ===== src/Messaging/Publish/Keeps.antt =====
-- src/messaging/outbox/publish-outbox-batch.use-case.ts: whatever saving a message keeps, a run keeps.
use distributed_wagering_pro.Messaging.Publish.{
  run, send_and_mark, publish_one, publish_batch, retry_later, mark_sent, run_body,
}
use distributed_wagering_pro.Messaging.Outbox.{OutboxMessage, mark_published, schedule_retry}
use distributed_wagering_pro.Messaging.Repository.{has_id, save_outbox, find_due_batch, due_query}
use distributed_wagering_pro.Persistence.World.{Platform, World, Em}
use distributed_wagering_pro.Kernel.Event.{Timestamp}
use distributed_wagering_pro.Messaging.Sqs.{SqsPort, wager_events_queue}
use distributed_wagering_pro.Prelude.{List, ℕ, Option, ◌∷◌, map, subst, [], length, some, none}
use distributed_wagering_pro.Persistence.Effect.{
  continue-keeps, catches, pure, or_fail, handle-keeps, modify, transactional-keeps,
}
use distributed_wagering_pro.Messaging.Rows.{to_outbox_message}

module _ {P : Platform} (now : Timestamp) (Q : Em P.tables → Type 0)
    (saved : (m : OutboxMessage) (em : Em P.tables)
      → Q em
      → Q (record em { outbox = P.tables.outbox.assign m em.outbox })) where
  save_outbox-keeps : (m : OutboxMessage) (w : World P) → Q w.em → Q (save_outbox m w).1.em
  unfolding save_outbox
  save_outbox-keeps m w b =
      continue-keeps (λ v. Q v.em)
        (λ _. modify (λ em. record em { outbox = P.tables.outbox.assign m em.outbox }))
        (or_fail (P.tables.outbox.find_one (has_id m.id) w.em.outbox) w)
        (or_fail-keeps (P.tables.outbox.find_one (has_id m.id) w.em.outbox))
        (λ _ v bv. saved m v.em bv)
    where
      or_fail-keeps : (row : Option OutboxMessage) → Q (or_fail row w).1.em
      or_fail-keeps none = b
      or_fail-keeps (some _) = b

  mark_sent-keeps : (m : OutboxMessage) (w : World P) → Q w.em → Q (mark_sent m now w).1.em
  unfolding mark_sent
  mark_sent-keeps m w b = continue-keeps (λ v. Q v.em) _ (mark_published now m, w) b (λ _ v bv. bv)

  retry_later-keeps : (m : OutboxMessage) (w : World P) → Q w.em → Q (retry_later m now w).1.em
  unfolding retry_later
  retry_later-keeps m w b =
      continue-keeps (λ v. Q v.em) _ (schedule_retry now m, w) b (λ _ v bv. bv)

  module _ (sqs : SqsPort P) where
    send_and_mark-keeps :
        (m : OutboxMessage) (w : World P) → Q w.em → Q (send_and_mark sqs m now w).1.em
    unfolding send_and_mark
    send_and_mark-keeps m w b =
        let body = P.stringify_payload m.payload in
        continue-keeps (λ v. Q v.em) (λ _. mark_sent m now)
          (sqs.send wager_events_queue body m.aggregate_id m.id w)
          (rw (sqs.send-em wager_events_queue body m.aggregate_id m.id w) b)
          (λ _ v bv. mark_sent-keeps m v bv)

    publish_one-keeps :
        (m : OutboxMessage) (w : World P) → Q w.em → Q (publish_one sqs m now w).1.em
    unfolding publish_one
    publish_one-keeps m w b =
        continue-keeps (λ v. Q v.em) save_outbox
          (catches (send_and_mark sqs m now) (λ _. retry_later m now) w)
          (handle-keeps (λ v. Q v.em) (λ _. retry_later m now) (send_and_mark sqs m now w)
            (λ _ v bv. retry_later-keeps m v bv) (send_and_mark-keeps m w b))
          save_outbox-keeps

    publish_batch-keeps :
        (batch : List OutboxMessage) (w : World P) → Q w.em → Q (publish_batch sqs batch now w).1.em
    unfolding publish_batch
    publish_batch-keeps [] w b = b
    publish_batch-keeps (m ∷ batch) w b =
        continue-keeps (λ v. Q v.em) (λ _. publish_batch sqs batch now) (publish_one sqs m now w)
          (publish_one-keeps m w b) (λ _ v bv. publish_batch-keeps batch v bv)

    pub run_body-keeps :
        (batch_size : ℕ) (w : World P) → Q w.em → Q (run_body sqs batch_size now w).1.em
    unfolding run_body find_due_batch
    run_body-keeps batch_size w b =
        let found =
          map to_outbox_message
            (P.tables.outbox.get_result_list (due_query now batch_size) w.em.outbox) in
        continue-keeps (λ v. Q v.em) (λ _. pure (length found)) (publish_batch sqs found now w)
          (publish_batch-keeps found w b) (λ _ v bv. bv)

    pub run-kept : (batch_size : ℕ) (w : World P) → Q w.em → Q (run sqs batch_size now w).1.em
    unfolding run
    run-kept batch_size w b =
        transactional-keeps Q (run_body sqs batch_size now) w b
          λ n w' h. subst (λ r. Q r.1.em) h (run_body-keeps batch_size w b)
