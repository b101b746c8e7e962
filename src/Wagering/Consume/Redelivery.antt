-- ===== src/Wagering/Consume/Redelivery.antt =====
-- src/wagering/application/use-cases/consume-wager-transaction-batch.use-case.ts: a message that the
-- queue delivers again after it was processed.
use distributed_wagering_pro.Messaging.Inbox.{is_processed}
use distributed_wagering_pro.Wagering.Consume.{
  handle, processed, duplicate, consume_found, consume_body, settled_outcome, process,
  already_processed, outcome_of, consumer_name, claim_new, ack,
}
use distributed_wagering_pro.Messaging.Repository.{mark_inbox_processed, is_message_of}
use distributed_wagering_pro.Prelude.{
  Bool, ◌≡◌, some, true, Option, arith, refl, ap, sym, false, if◌then◌else◌, ◌∙◌,
}
use distributed_wagering_pro.Persistence.World.{Platform, World, App, ReceivedMessage, Em}
use distributed_wagering_pro.Messaging.Inbox.{InboxMessage, is_processed}
use distributed_wagering_pro.Kernel.Event.{Timestamp}
use distributed_wagering_pro.Kernel.Errors.{ok, Result, err}
use distributed_wagering_pro.Wagering.Submit.{Command, Submitted}
use distributed_wagering_pro.Persistence.Effect.{
  transactional_lem, continue, transactional, pure, transactional-ok, ◌>>◌, continue-ok, pair_path,
  ◌>>=◌,
}
use distributed_wagering_pro.Wagering.Parse.{parse_wager_transaction_message}
use distributed_wagering_pro.Wagering.Consume.Outcome.{find_lem, ack-caught}
use distributed_wagering_pro.Wagering.Consume.Marked.{mark_inbox_processed-found}

module _ {P : Platform} (submit : Command → App P Submitted) (message : ReceivedMessage) where
  consume_found-marks :
      (now : Timestamp) (existing : Option InboxMessage) (w : World P) {v : World P}
      → consume_found submit message now existing w ≡ (ok false, v)
      → (u : World P) × (mark_inbox_processed consumer_name message.message_id now u ≡ (ok tt, v))
  unfolding consume_found process
  consume_found-marks now existing w {v = v} h = by_test (already_processed submit existing) h
    where
      by_test :
          (b : Bool)
          → (if b
                then pure true
                else (claim_new submit message now existing
                    >> (process submit message now >> pure false)))
              w
            ≡ (ok false, v)
          → (u : World P) × (mark_inbox_processed consumer_name message.message_id now u
              ≡ (ok tt, v))
      by_test true k = absurd (ground arith)
      by_test false k =
          let claimed = claim_new submit message now existing w in
          let (_, _, k₁) = continue-ok (λ _. process submit message now >> pure false) claimed k in
          let (_, done, k₂) =
            continue-ok (λ _. pure false) (process submit message now claimed.1) k₁ in
          let processed_run : process submit message now claimed.1 ≡ (ok tt, v) =
            pair_path done ∙ ap (λ p. (ok tt, p.1)) k₂ in
          let parsed = parse_wager_transaction_message P message.body in
          let (cmd, _, k₃) =
            continue-ok
              (λ cmd. submit cmd >>= λ _. mark_inbox_processed consumer_name message.message_id now)
              (parsed, claimed.1) processed_run in
          let (_, _, k₄) =
            continue-ok (λ _. mark_inbox_processed consumer_name message.message_id now)
              (submit cmd claimed.1) k₃ in
          ((submit cmd claimed.1).1, k₄)

  consume_body-stored :
      (now : Timestamp) (w : World P) {v : World P}
      → consume_body submit message now w ≡ (ok false, v)
      → (r : InboxMessage) × (P.tables.inbox.find_one
            (is_message_of consumer_name message.message_id)
            v.em.inbox
          ≡ some r)
        × (is_processed r ≡ true)
  unfolding consume_body
  consume_body-stored now w h =
      let (u, marks) =
        consume_found-marks now
          (P.tables.inbox.find_one (is_message_of consumer_name message.message_id) w.em.inbox) w
          (sym (
              ap (continue (consume_found submit message now))
                (find_lem consumer_name message.message_id w))
            ∙ h) in
      mark_inbox_processed-found now consumer_name message.message_id u marks

  consume_body-again :
      (now : Timestamp) (w : World P) (r : InboxMessage)
      → P.tables.inbox.find_one (is_message_of consumer_name message.message_id) w.em.inbox ≡ some r
      → is_processed r ≡ true
      → consume_body submit message now w ≡ (ok true, w)
  unfolding consume_body consume_found already_processed
  consume_body-again now w r found is_done =
      ap (continue (consume_found submit message now)) (find_lem consumer_name message.message_id w)
      ∙ rw (found, is_done) refl

  processed_commits :
      (now : Timestamp) (w : World P) {w' : World P}
      → handle submit message now w ≡ (ok processed, w')
      → (consume_body submit message now w ≡ (ok false, w')) × (P.flush w'.em ≡ ok tt)
  unfolding handle settled_outcome ack
  processed_commits now w {w' = w'} h =
      by_result (transactional (consume_body submit message now) w) refl h
    where
      by_result :
          (r : Result Bool × World P)
          → transactional (consume_body submit message now) w ≡ r
          → outcome_of submit r ≡ (ok processed, w')
          → (consume_body submit message now w ≡ (ok false, w')) × (P.flush w'.em ≡ ok tt)
      by_result (ok false, v) e k =
          transactional-ok (consume_body submit message now) w (e ∙ ap (λ p. (ok false, p.1)) k)
      by_result (ok true, v) e k = absurd (ground arith)
      by_result (err x, v) e k = absurd (ground (arith, ack-caught x))

  -- A message that was processed and is delivered again, at any later time, to a state with the
  -- same database, is answered as a duplicate, and changes nothing; this holds for every use case
  -- that the consumer may be given.
  pub redelivery-duplicate :
      (now later : Timestamp) (w : World P) {w' : World P}
      → handle submit message now w ≡ (ok processed, w')
      → (v : World P) → v.em ≡ w'.em
      → handle submit message later v ≡ (ok duplicate, v)
  unfolding handle settled_outcome
  redelivery-duplicate now later w {w' = w'} h v same =
      let (body, flushed) = processed_commits now w h in
      let (r, found, is_done) = consume_body-stored now w body in
      ap (outcome_of submit) (
        transactional_lem (consume_body submit message later) v
          (consume_body-again later v r
            (ap {A = Em P.tables}
                (λ em.
                  P.tables.inbox.find_one (is_message_of consumer_name message.message_id) em.inbox)
                same
              ∙ found)
            is_done)
          (ap {A = Em P.tables} (λ em. P.flush em) same ∙ flushed))
