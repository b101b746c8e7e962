-- ===== src/Messaging/Inbox.antt =====
-- src/messaging/inbox/inbox-message.ts: the record of a consumed message, for deduplication.
use distributed_wagering_pro.Prelude.{Text, none, Bool, Option, not, is_none, some}
use distributed_wagering_pro.Kernel.Event.{Timestamp}
use distributed_wagering_pro.Kernel.Errors.{Result, ◌>>◌, ensure, invariant_violation, ok}

-- `InboxMessage`, and `InboxMessageState`, which has the same fields.
pub record InboxMessage : Type 0 where
  pub message_id : Text
  pub consumer_name : Text
  pub payload_hash : Text
  pub received_at : Timestamp
  pub processed_at : Option Timestamp

pub record ReceiveInboxMessageProps : Type 0 where
  pub consumer_name : Text
  pub message_id : Text
  pub payload_hash : Text
  pub received_at : Timestamp

unfoldable pub receive : ReceiveInboxMessageProps → InboxMessage
receive props = record {
  message_id = props.message_id;
  consumer_name = props.consumer_name;
  payload_hash = props.payload_hash;
  received_at = props.received_at;
  processed_at = none;
}

unfoldable pub rehydrate : InboxMessage → InboxMessage
rehydrate state = state

unfoldable pub is_processed : InboxMessage → Bool
is_processed m = not (is_none m.processed_at)

unfoldable pub mark_processed : Timestamp → InboxMessage → Result InboxMessage
unfolding is_processed
mark_processed at m = do
  ensure (not (is_processed m)) invariant_violation
  ok (record m { processed_at = some at })
