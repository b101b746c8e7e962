-- ===== src/Messaging/Repository.antt =====
-- src/messaging: outbox-message.repository.ts and inbox-message.repository.ts.
use distributed_wagering_pro.Messaging.Inbox
use distributed_wagering_pro.Prelude.{
  Text, ℕ, Option, Bool, List, text_eq, is_none, ◌&&◌, leb, map, some, none, true,
}
use distributed_wagering_pro.Kernel.Event.{Timestamp}
use distributed_wagering_pro.Persistence.World.{Platform, App}
use distributed_wagering_pro.Messaging.Outbox.{OutboxMessage}
use distributed_wagering_pro.Messaging.Inbox.{InboxMessage}
use distributed_wagering_pro.Persistence.Effect.{
  modify, throws, ◌>>◌, ◌>>=◌, gets, flush, or_fail, lift, pure, map_found,
}
use distributed_wagering_pro.Kernel.Errors.{entity_not_found, ok}
use distributed_wagering_pro.Persistence.Table.{Query}
use distributed_wagering_pro.Messaging.Rows.{
  to_outbox_row, to_outbox_message, to_inbox_row, to_inbox_message,
}

abbrev pub has_id : Text → OutboxMessage → Bool
has_id id row = text_eq row.id id

-- `published_at is null and (next_attempt_at is null or next_attempt_at <= now)`
abbrev pub is_due_row : Timestamp → OutboxMessage → Bool
is_due_row now row =
    is_none row.published_at && elim row.next_attempt_at [ none ↦ true | some t ↦ leb t now ]

-- The query of `findDueBatch`.
abbrev pub due_query : Timestamp → ℕ → Query OutboxMessage
due_query now limit = record {
  passes = is_due_row now;
  before = λ r s. leb r.occurred_at s.occurred_at;
  limit = limit;
}

abbrev pub is_message_of : Text → Text → InboxMessage → Bool
is_message_of consumer_name message_id row =
    text_eq row.consumer_name consumer_name && text_eq row.message_id message_id

module _ {P : Platform} where
  unfoldable pub insert_outbox : OutboxMessage → App P (Unit {0})
  insert_outbox message =
      modify (λ em. record em { outbox = P.tables.outbox.create (to_outbox_row message) em.outbox })

  unfoldable pub find_due_batch : Timestamp → ℕ → App P (List OutboxMessage)
  unfolding to_outbox_message
  find_due_batch now limit = do
    rows ← gets (λ em. P.tables.outbox.get_result_list (due_query now limit) em.outbox)
    pure (map to_outbox_message rows)

  unfoldable pub save_outbox : OutboxMessage → App P (Unit {0})
  save_outbox message = do
    row ← gets (λ em. P.tables.outbox.find_one (has_id message.id) em.outbox)
    or_fail row
    modify (λ em. record em { outbox = P.tables.outbox.assign (to_outbox_row message) em.outbox })

  -- `MikroOrmInboxRepository.claim`
  unfoldable pub claim_inbox : InboxMessage → App P (Unit {0})
  claim_inbox message = do
    modify (λ em. record em { inbox = P.tables.inbox.create (to_inbox_row message) em.inbox })
    flush

  unfoldable pub find_by_consumer_and_message_id : Text → Text → App P (Option InboxMessage)
  unfolding to_inbox_message
  find_by_consumer_and_message_id consumer_name message_id = do
    row ← gets (λ em. P.tables.inbox.find_one (is_message_of consumer_name message_id) em.inbox)
    lift (map_found (λ m. ok (to_inbox_message m)) row)

  unfoldable pub assign_processed : Timestamp → Option InboxMessage → App P (Unit {0})
  unfolding to_inbox_message Inbox.mark_processed
  assign_processed at none = throws entity_not_found
  assign_processed at (some row) = do
    message ← lift (Inbox.mark_processed at (to_inbox_message row))
    modify (λ em. record em { inbox = P.tables.inbox.assign (to_inbox_row message) em.inbox })

  unfoldable pub mark_inbox_processed : Text → Text → Timestamp → App P (Unit {0})
  unfolding assign_processed
  mark_inbox_processed consumer_name message_id at = do
    row ← gets (λ em. P.tables.inbox.find_one (is_message_of consumer_name message_id) em.inbox)
    assign_processed at row
