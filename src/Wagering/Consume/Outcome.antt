-- ===== src/Wagering/Consume/Outcome.antt =====
-- src/wagering/application/use-cases/consume-wager-transaction-batch.use-case.ts: what `handle`
-- returns, and what it leaves.
use distributed_wagering_pro.Wagering.Consume.{
  handle, consume_found, consume_body, settled_outcome, ConsumeOutcome, consumer_name, claim_new,
  outcome_of, process, caught, already_processed, duplicate, ack,
}
use distributed_wagering_pro.Messaging.Repository.{find_by_consumer_and_message_id, is_message_of}
use distributed_wagering_pro.Persistence.World.{Platform, App, ReceivedMessage, World}
use distributed_wagering_pro.Wagering.Submit.{Command, Submitted}
use distributed_wagering_pro.Kernel.Event.{Timestamp}
use distributed_wagering_pro.Wagering.Consume.{processed}
use distributed_wagering_pro.Messaging.Inbox.{rehydrate}
use distributed_wagering_pro.Prelude.{
  Option, ◌≡◌, Text, true, Bool, ◌⊎◌, sym, some, ap, ◌∙◌, false, if◌then◌else◌, inr, arith, inl,
  none, refl,
}
use distributed_wagering_pro.Messaging.Inbox.{InboxMessage, rehydrate}
use distributed_wagering_pro.Kernel.Errors.{
  ok, Result, err, Error, domain, unique_constraint_violation, entity_not_found, infrastructure,
  invalid_message, javascript_error,
}
use distributed_wagering_pro.Persistence.Effect.{
  map_found, ◌>>◌, continue, commit, pure, continue-ok, commit_flushed,
}

pub find_lem :
    {P : Platform} (consumer id : Text) (w : World P)
    → find_by_consumer_and_message_id consumer id w
      ≡ (ok (P.tables.inbox.find_one (is_message_of consumer id) w.em.inbox), w)
unfolding find_by_consumer_and_message_id rehydrate
find_lem {P = P} consumer id w =
    by_found (P.tables.inbox.find_one (is_message_of consumer id) w.em.inbox)
  where
    by_found :
        (found : Option InboxMessage)
        → ◌≡◌ {A = Result (Option InboxMessage) × World P}
            (map_found (λ m. ok (rehydrate m)) found, w)
            (ok found, w)
    by_found none = refl
    by_found (some row) = refl

pub ack-caught : (e : Error) → ack (caught e) ≡ false
unfolding ack caught
ack-caught (domain _) = refl
ack-caught unique_constraint_violation = refl
ack-caught entity_not_found = refl
ack-caught infrastructure = refl
ack-caught invalid_message = refl
ack-caught javascript_error = refl

module _ {P : Platform} (submit : Command → App P Submitted) (message : ReceivedMessage)
    (now : Timestamp) where
  consume_found-duplicate :
      (existing : Option InboxMessage) {w v : World P}
      → consume_found submit message now existing w ≡ (ok true, v)
      → v ≡ w
  unfolding consume_found
  consume_found-duplicate existing {w = w} {v = v} h = by_test (already_processed submit existing) h
    where
      fresh : App P Bool
      fresh = do claim_new submit message now existing; process submit message now; pure false

      by_test : (b : Bool) → (if b then pure true else fresh) w ≡ (ok true, v) → v ≡ w
      by_test true k = ap (λ r. r.1) (sym k)
      by_test false k =
          let claimed = claim_new submit message now existing w in
          let (_, _, k₁) = continue-ok (λ _. process submit message now >> pure false) claimed k in
          let (_, _, k₂) =
            continue-ok (λ _. pure false) (process submit message now claimed.1) k₁ in
          absurd (ground arith)

  pub consume_body-duplicate :
      {w v : World P} → consume_body submit message now w ≡ (ok true, v) → v ≡ w
  unfolding consume_body
  consume_body-duplicate {w = w} h =
      consume_found-duplicate
        (P.tables.inbox.find_one (is_message_of consumer_name message.message_id) w.em.inbox)
        (sym (
            ap (continue (consume_found submit message now))
              (find_lem consumer_name message.message_id w))
          ∙ h)

  -- Handling a message never throws, whatever the use case and the database do: it returns an
  -- outcome, and the database is as it was unless that outcome is that the message was processed.
  pub handle-outcome :
      (w : World P)
      → (outcome : ConsumeOutcome) × ((handle submit message now w).0 ≡ ok outcome)
        × ((outcome ≡ processed) ⊎ ((handle submit message now w).1.em ≡ w.em))
  unfolding handle settled_outcome
  handle-outcome w = by_result (consume_body submit message now w) refl
    where
      by_result :
          (r : Result Bool × World P)
          → consume_body submit message now w ≡ r
          → (outcome : ConsumeOutcome) × ((outcome_of submit (commit w.em r)).0 ≡ ok outcome)
            × ((outcome ≡ processed) ⊎ ((outcome_of submit (commit w.em r)).1.em ≡ w.em))
      by_result (err e, v) h = (caught e, refl, inr refl)
      by_result (ok false, v) h = by_flush (P.flush v.em)
        where
          by_flush :
              (f : Result (Unit {0}))
              → (outcome : ConsumeOutcome) × ((outcome_of submit (commit_flushed w.em false v f)).0
                  ≡ ok outcome)
                × ((outcome ≡ processed)
                    ⊎ ((outcome_of submit (commit_flushed w.em false v f)).1.em ≡ w.em))
          by_flush (ok _) = (processed, refl, inl refl)
          by_flush (err e) = (caught e, refl, inr refl)
      by_result (ok true, v) h = by_flush (P.flush v.em)
        where
          by_flush :
              (f : Result (Unit {0}))
              → (outcome : ConsumeOutcome) × ((outcome_of submit (commit_flushed w.em true v f)).0
                  ≡ ok outcome)
                × ((outcome ≡ processed)
                    ⊎ ((outcome_of submit (commit_flushed w.em true v f)).1.em ≡ w.em))
          by_flush (ok _) =
              (duplicate, refl, inr (ap {A = World P} (λ x. x.em) (consume_body-duplicate h)))
          by_flush (err e) = (caught e, refl, inr refl)
