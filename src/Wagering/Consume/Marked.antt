-- ===== src/Wagering/Consume/Marked.antt =====
-- src/messaging/inbox/inbox-message.repository.ts: a message that is marked is found as processed.
use distributed_wagering_pro.Messaging.Inbox.{mark_processed, is_processed}
use distributed_wagering_pro.Messaging.Repository.{
  mark_inbox_processed, is_message_of, assign_processed,
}
use distributed_wagering_pro.Prelude.{
  Bool, Text, List, ◌≡◌, some, true, Option, Occurs, arith, text_eq_iff, ◌∷◌, Bool-cases, inl, inr,
  [], none, refl, All, ap, sym,
}
use distributed_wagering_pro.Persistence.World.{Platform, World, same_inbox}
use distributed_wagering_pro.Messaging.Inbox.{InboxMessage, mark_processed, is_processed}
use distributed_wagering_pro.Kernel.Event.{Timestamp}
use distributed_wagering_pro.Persistence.Table.{assign_row}
use distributed_wagering_pro.Kernel.Errors.{ok}
use distributed_wagering_pro.Persistence.Balanced.{All-assign_row, All-occurs}

-- The new data stands in the table where a row with its key stood.
Occurs-assign_row :
    {Row : Type 0} (same : Row → Row → Bool) (new : Row) (rows : List Row) {r : Row}
    → same r new ≡ true
    → Occurs r rows
    → Occurs new (assign_row same new rows)
Occurs-assign_row same new [] e o = absurd o
Occurs-assign_row same new (x ∷ rows) e (inl h) = inl (rw (h, e) refl)
Occurs-assign_row same new (x ∷ rows) e (inr o) = inr (Occurs-assign_row same new rows e o)

All-Unit : {A : Type 0} (xs : List A) → All (λ _. Unit {0}) xs
All-Unit [] = tt
All-Unit (x ∷ xs) = (tt, All-Unit xs)

-- Two rows of one message have the same key.
is_message_of-same :
    (consumer id : Text) (r s : InboxMessage)
    → is_message_of consumer id r ≡ true
    → is_message_of consumer id s ≡ true
    → same_inbox r s ≡ true
is_message_of-same consumer id r s h k = ground (
  text_eq_iff r.consumer_name consumer,
  text_eq_iff s.consumer_name consumer,
  text_eq_iff r.message_id id,
  text_eq_iff s.message_id id,
  text_eq_iff r.consumer_name s.consumer_name,
  text_eq_iff r.message_id s.message_id,
  arith,
)

-- What a message is marked as.
abbrev marked : Timestamp → InboxMessage → InboxMessage
marked at row = record row { processed_at = some at }

module _ {P : Platform} (at : Timestamp) where
  assign_processed-row :
      (found : Option InboxMessage) (u : World P) {w : World P}
      → assign_processed at found u ≡ (ok tt, w)
      → (row : InboxMessage) × (found ≡ some row)
        × (w.em.inbox ≡ P.tables.inbox.assign (marked at row) u.em.inbox)
  unfolding assign_processed mark_processed
  assign_processed-row none u h = absurd (ground arith)
  assign_processed-row (some row) u h = elim (Bool-cases (is_processed row)) [
    | inl e ↦ absurd (ground arith)
    | inr e ↦ (row, refl, ground arith)
  ]

module _ (P : Platform) (at : Timestamp) (consumer id : Text) (row : InboxMessage)
    (t : P.tables.inbox.Rows) (own : is_message_of consumer id row ≡ true) where
  assigned_rows :
      All
        (λ r. is_message_of consumer id r ≡ true → is_processed r ≡ true)
        (P.tables.inbox.rows (P.tables.inbox.assign (marked at row) t))
  unfolding is_processed
  assigned_rows = rw (P.tables.inbox.rows-assign (marked at row) t) (
      All-assign_row same_inbox (marked at row) (λ _. Unit {0}) _
        (λ r other _ h. absurd (cc (other, is_message_of-same consumer id r (marked at row) h own)))
        (λ _. refl) (P.tables.inbox.rows t) (All-Unit (P.tables.inbox.rows t)))

  marked_found :
      Occurs row (P.tables.inbox.rows t)
      → (found : Option InboxMessage)
      → P.tables.inbox.find_one
          (is_message_of consumer id)
          (P.tables.inbox.assign (marked at row) t)
        ≡ found
      → (r : InboxMessage) × (found ≡ some r) × (is_processed r ≡ true)
  marked_found stored none again =
      let absent =
        P.tables.inbox.find_one-none (is_message_of consumer id)
          (P.tables.inbox.assign (marked at row) t) again in
      let here : Occurs (marked at row)
          (P.tables.inbox.rows (P.tables.inbox.assign (marked at row) t)) =
        rw (P.tables.inbox.rows-assign (marked at row) t) (
          Occurs-assign_row same_inbox (marked at row) (P.tables.inbox.rows t)
            (is_message_of-same consumer id row (marked at row) own own) stored) in
      absurd (
        cc (
          own,
          All-occurs _ (P.tables.inbox.rows (P.tables.inbox.assign (marked at row) t)) absent here,
        ))
  marked_found stored (some r) again =
      let (passes, occurs) =
        P.tables.inbox.find_one-some (is_message_of consumer id)
          (P.tables.inbox.assign (marked at row) t) r again in
      (
        r,
        refl,
        All-occurs _ (P.tables.inbox.rows (P.tables.inbox.assign (marked at row) t)) assigned_rows
            occurs passes,
      )

module _ {P : Platform} (at : Timestamp) where
  -- What was marked is found as processed.
  pub mark_inbox_processed-found :
      (consumer id : Text) (u : World P) {w : World P}
      → mark_inbox_processed consumer id at u ≡ (ok tt, w)
      → (r : InboxMessage) × (P.tables.inbox.find_one (is_message_of consumer id) w.em.inbox
          ≡ some r)
        × (is_processed r ≡ true)
  unfolding mark_inbox_processed
  mark_inbox_processed-found consumer id u {w = w} h =
      let (row, found, assigned) =
        assign_processed-row at (P.tables.inbox.find_one (is_message_of consumer id) u.em.inbox) u
          h in
      let (own, stored) =
        P.tables.inbox.find_one-some (is_message_of consumer id) u.em.inbox row found in
      marked_found P at consumer id row u.em.inbox own stored
        (P.tables.inbox.find_one (is_message_of consumer id) w.em.inbox)
        (ap (P.tables.inbox.find_one (is_message_of consumer id)) (sym assigned))
