-- ===== src/Messaging/Rows.antt =====
-- src/messaging: outbox-message.mapper.ts and inbox-message.mapper.ts. The entities have the fields of the
-- messages, so the rows are messages too.
use distributed_wagering_pro.Messaging.Inbox
use distributed_wagering_pro.Messaging.Outbox
use distributed_wagering_pro.Messaging.Inbox.{InboxMessage}
use distributed_wagering_pro.Messaging.Outbox.{OutboxMessage}

-- `toOutboxMessageDomain`
unfoldable pub to_outbox_message : OutboxMessage → OutboxMessage
unfolding Outbox.rehydrate
to_outbox_message row = Outbox.rehydrate (record {
  id = row.id;
  aggregate_id = row.aggregate_id;
  event_type = row.event_type;
  payload = row.payload;
  occurred_at = row.occurred_at;
  attempts = row.attempts;
  next_attempt_at = row.next_attempt_at;
  published_at = row.published_at;
})

-- `toOutboxMessageEntity`
abbrev pub to_outbox_row : OutboxMessage → OutboxMessage
to_outbox_row message = record {
  id = message.id;
  aggregate_id = message.aggregate_id;
  event_type = message.event_type;
  payload = message.payload;
  occurred_at = message.occurred_at;
  attempts = message.attempts;
  next_attempt_at = message.next_attempt_at;
  published_at = message.published_at;
}

-- `toInboxMessageDomain`
unfoldable pub to_inbox_message : InboxMessage → InboxMessage
unfolding Inbox.rehydrate
to_inbox_message row = Inbox.rehydrate (record {
  message_id = row.message_id;
  consumer_name = row.consumer_name;
  payload_hash = row.payload_hash;
  received_at = row.received_at;
  processed_at = row.processed_at;
})

-- `toInboxMessageEntity`
abbrev pub to_inbox_row : InboxMessage → InboxMessage
to_inbox_row message = record {
  message_id = message.message_id;
  consumer_name = message.consumer_name;
  payload_hash = message.payload_hash;
  received_at = message.received_at;
  processed_at = message.processed_at;
}
