-- ===== src/Messaging/Publish/Rows.antt =====
-- src/messaging/outbox/publish-outbox-batch.use-case.ts: what a run does to the stored messages.
use distributed_wagering_pro.Messaging.Publish.{
  run, send_and_mark, publish_one, publish_batch, retry_later, mark_sent, run_body,
}
use distributed_wagering_pro.Messaging.Outbox.Laws.{Step, Reach, here, next, publishes, retries}
use distributed_wagering_pro.Messaging.Outbox.{
  OutboxMessage, mark_published, schedule_retry, is_pending,
}
use distributed_wagering_pro.Prelude.{
  List, All, ◌≡◌, Pointwise, ◌∷◌, true, Occurs, false, [], Bool-cases, inl, ap, text_eq_iff, subst,
  text_eq, sym, inr, ◌∙◌, map, ℕ, arith, refl, length,
}
use distributed_wagering_pro.Persistence.World.{Platform, same_outbox, World, Em}
use distributed_wagering_pro.Persistence.Table.{assign_row, Query}
use distributed_wagering_pro.Persistence.Ordering.{Distinct}
use distributed_wagering_pro.Messaging.Sqs.{SqsPort, wager_events_queue}
use distributed_wagering_pro.Kernel.Event.{Timestamp}
use distributed_wagering_pro.Kernel.Errors.{ok, Result, err, ok_injective}
use distributed_wagering_pro.Persistence.Effect.{
  catches, continue-ok, pair_path, handle, continue, transactional-keeps, ◌>>◌, pure,
}
use distributed_wagering_pro.Messaging.Repository.{save_outbox, find_due_batch, due_query}
use distributed_wagering_pro.Persistence.Ordering.Keys.{Distinct-Only}
use distributed_wagering_pro.Messaging.Rows.{to_outbox_message}

-- The only row with the message's key is the message itself.
abbrev Untouched : OutboxMessage → List OutboxMessage → Type 0
Untouched m rows = All (λ r. same_outbox r m ≡ true → r ≡ m) rows

module _ (m m' : OutboxMessage) (own : m'.id ≡ m.id) where
  assign-Pointwise :
      (start cur : List OutboxMessage)
      → Step m m'
      → Pointwise Reach start cur
      → Untouched m cur
      → Pointwise Reach start (assign_row same_outbox m' cur)
  assign-Pointwise [] [] s h u = tt
  assign-Pointwise [] (r ∷ cur) s h u = absurd h
  assign-Pointwise (x ∷ start) [] s h u = absurd h
  assign-Pointwise (x ∷ start) (r ∷ cur) s h u = elim (Bool-cases (same_outbox r m')) [
    | inl e ↦
        let is_m : r ≡ m = u.0 (ap (λ i. text_eq r.id i) (sym own) ∙ e) in
        rw e (next (subst (Reach x) is_m h.0) s, assign-Pointwise start cur s h.1 u.1)
    | inr e ↦ rw e (h.0, assign-Pointwise start cur s h.1 u.1)
  ]

  assign-Untouched :
      (n : OutboxMessage) (cur : List OutboxMessage)
      → same_outbox n m ≡ false
      → Untouched n cur
      → Untouched n (assign_row same_outbox m' cur)
  assign-Untouched n [] other u = tt
  assign-Untouched n (r ∷ cur) other u =
      let rest = assign-Untouched n cur other u.1 in
      elim (Bool-cases (same_outbox r m')) [
        | inl e ↦ rw e (
          λ k.
              absurd
                (cc (other, (text_eq_iff n.id m.id).1 (sym ((text_eq_iff m'.id n.id).0 k) ∙ own))),
          rest,
        )
        | inr e ↦ rw e (u.0, rest)
      ]

  All-assign-Untouched :
      (batch cur : List OutboxMessage)
      → All (λ n. same_outbox n m ≡ false) batch
      → All (λ n. Untouched n cur) batch
      → All (λ n. Untouched n (assign_row same_outbox m' cur)) batch
  All-assign-Untouched [] cur d u = tt
  All-assign-Untouched (n ∷ batch) cur d u =
      (assign-Untouched n cur d.0 u.0, All-assign-Untouched batch cur d.1 u.1)

Pointwise-here : (rows : List OutboxMessage) → Pointwise Reach rows rows
Pointwise-here [] = tt
Pointwise-here (r ∷ rows) = (here, Pointwise-here rows)

abbrev pub stored_messages : {P : Platform} → World P → List OutboxMessage
stored_messages {P = P} w = P.tables.outbox.rows w.em.outbox

module _ {P : Platform} (sqs : SqsPort P) (now : Timestamp) where
  after_send-Step :
      (m m' : OutboxMessage) (r : Result (Unit {0}) × World P) (v : World P)
      → handle (λ _. retry_later m now) (continue (λ _. mark_sent m now) r) ≡ (ok m', v)
      → Step m m' × (m'.id ≡ m.id) × (v.em ≡ r.1.em)
  unfolding mark_sent retry_later mark_published schedule_retry
  after_send-Step m m' (ok _, u) v h = elim (Bool-cases (is_pending m)) [
    | inl e ↦ (publishes now (ground arith), ground arith, ground arith)
    | inr e ↦ absurd (ground arith)
  ]
  after_send-Step m m' (err _, u) v h = (retries now (ground arith), ground arith, ground arith)

  -- An attempt is one step of the message, and leaves what is stored as it is.
  attempt-Step :
      (m m' : OutboxMessage) (w v : World P)
      → catches (send_and_mark sqs m now) (λ _. retry_later m now) w ≡ (ok m', v)
      → Step m m' × (m'.id ≡ m.id) × (v.em ≡ w.em)
  unfolding send_and_mark
  attempt-Step m m' w v h =
      let body = P.stringify_payload m.payload in
      let (s, own, same) =
        after_send-Step m m' (sqs.send wager_events_queue body m.aggregate_id m.id w) v h in
      (s, own, same ∙ sqs.send-em wager_events_queue body m.aggregate_id m.id w)

  save_outbox-rows :
      (m : OutboxMessage) (w w' : World P)
      → save_outbox m w ≡ (ok tt, w')
      → stored_messages w' ≡ assign_row same_outbox m (stored_messages w)
  unfolding save_outbox
  save_outbox-rows m w w' h =
      let assigned : w'.em.outbox ≡ P.tables.outbox.assign m w.em.outbox = ground arith in
      ap P.tables.outbox.rows assigned ∙ P.tables.outbox.rows-assign m w.em.outbox

  publish_one-rows :
      (m : OutboxMessage) (w w' : World P)
      → publish_one sqs m now w ≡ (ok tt, w')
      → (m' : OutboxMessage) × Step m m'
        × (m'.id ≡ m.id)
        × (stored_messages w' ≡ assign_row same_outbox m' (stored_messages w))
  unfolding publish_one
  publish_one-rows m w w' h =
      let attempt = catches (send_and_mark sqs m now) (λ _. retry_later m now) w in
      let (m', done, h') = continue-ok save_outbox attempt h in
      let (s, own, same) = attempt-Step m m' w attempt.1 (pair_path done) in
      (
        m',
        s,
        own,
        save_outbox-rows m' attempt.1 w' h'
            ∙ ap {A = Em P.tables}
                (λ em. assign_row same_outbox m' (P.tables.outbox.rows em.outbox)) same,
      )

  publish_batch-rows :
      (batch start : List OutboxMessage) (w w' : World P)
      → Distinct same_outbox batch
      → All (λ m. Untouched m (stored_messages w)) batch
      → Pointwise Reach start (stored_messages w)
      → publish_batch sqs batch now w ≡ (ok tt, w')
      → Pointwise Reach start (stored_messages w')
  unfolding publish_batch
  publish_batch-rows [] start w w' d u p h =
      subst (λ v. Pointwise Reach start (stored_messages v)) (ap (λ r. r.1) h) p
  publish_batch-rows (m ∷ batch) start w w' d u p h =
      let w₁ = (publish_one sqs m now w).1 in
      let (_, done, h') =
        continue-ok (λ _. publish_batch sqs batch now) (publish_one sqs m now w) h in
      let (m', s, own, rows) = publish_one-rows m w w₁ (pair_path done) in
      publish_batch-rows batch start w₁ w' d.1
        (rw rows (All-assign-Untouched m m' own batch (stored_messages w) d.0 u.1))
        (rw rows (assign-Pointwise m m' own start (stored_messages w) s p u.0)) h'

  map-to_outbox_message : (ms : List OutboxMessage) → map to_outbox_message ms ≡ ms
  unfolding to_outbox_message
  map-to_outbox_message [] = refl
  map-to_outbox_message (m ∷ ms) = ap (λ rest. m ∷ rest) (map-to_outbox_message ms)

  All-Untouched :
      (q : Query OutboxMessage) (batch rows : List OutboxMessage)
      → Distinct same_outbox rows
      → All (λ r. (q.passes r ≡ true) × Occurs r rows) batch
      → All (λ m. Untouched m rows) batch
  All-Untouched q [] rows d h = tt
  All-Untouched q (m ∷ batch) rows d h =
      (Distinct-Only (λ (x : OutboxMessage). x.id) m rows d h.0.1, All-Untouched q batch rows d h.1)

  pub run_body-rows :
      (batch_size : ℕ) (w w' : World P) (n : ℕ)
      → Distinct same_outbox (stored_messages w)
      → run_body sqs batch_size now w ≡ (ok n, w')
      → Pointwise Reach (stored_messages w) (stored_messages w')
  unfolding run_body find_due_batch
  run_body-rows batch_size w w' n d h =
      let found = P.tables.outbox.get_result_list (due_query now batch_size) w.em.outbox in
      let (batch, read, h₁) =
        continue-ok (λ b. publish_batch sqs b now >> pure (length b))
          (find_due_batch now batch_size w) h in
      let (_, done, h₂) =
        continue-ok (λ _. pure (length batch)) (publish_batch sqs batch now w) h₁ in
      let same : batch ≡ found = ok_injective (sym read) ∙ map-to_outbox_message found in
      publish_batch-rows batch (stored_messages w) w w'
        (rw same
          (P.tables.outbox.get_result_list-Distinct (due_query now batch_size) w.em.outbox d))
        (rw same (
          All-Untouched (due_query now batch_size) found (stored_messages w) d
            (P.tables.outbox.get_result_list-occurs (due_query now batch_size) w.em.outbox)))
        (Pointwise-here (stored_messages w)) (pair_path done ∙ ap (λ p. (ok tt, p.1)) h₂)

  -- Where no two stored outbox messages have the same id, a run of the publisher, whatever the
  -- queue answers and whether it commits or throws, refines the steps of single messages: the
  -- stored messages stay in their places, and each of them is reached from what it was by
  -- publications and scheduled retries alone.
  pub run-Reach :
      (batch_size : ℕ) (w : World P)
      → Distinct same_outbox (stored_messages w)
      → Pointwise Reach (stored_messages w) (stored_messages (run sqs batch_size now w).1)
  unfolding run
  run-Reach batch_size w d =
      transactional-keeps
        (λ em. Pointwise Reach (stored_messages w) (P.tables.outbox.rows em.outbox))
        (run_body sqs batch_size now) w (Pointwise-here (stored_messages w))
        (λ n w' h. run_body-rows batch_size w w' n d h)
