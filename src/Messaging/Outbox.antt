-- ===== src/Messaging/Outbox.antt =====
-- src/messaging/outbox/outbox-message.ts: an event that waits to be published.
pub mod Laws
use distributed_wagering_pro.Kernel.Event
use distributed_wagering_pro.Prelude.{
  Text, ℕ, Bool, min, is_none, ◌&&◌, Option, ◌*◌, none, ◌^◌, true, ◌-◌, some, ◌+◌, leb,
}
use distributed_wagering_pro.Kernel.Event.{IntegrationEvent, Timestamp, Envelope, event_type}
use distributed_wagering_pro.Kernel.Errors.{Result, ◌>>◌, ensure, invariant_violation, ok}

-- `OutboxMessage`, and `OutboxMessageState`, which has the same fields.
pub record OutboxMessage : Type 0 where
  pub id : Text
  pub aggregate_id : Text
  pub event_type : Text
  pub payload : Envelope
  pub occurred_at : Timestamp
  pub attempts : ℕ
  pub next_attempt_at : Option Timestamp
  pub published_at : Option Timestamp

abbrev base_backoff_ms : ℕ
base_backoff_ms = 1000

abbrev max_backoff_ms : ℕ
max_backoff_ms = 60000

-- The callers pass `attempts` of at least 1, so the subtraction does not stop at 0.
unfoldable pub compute_backoff_ms : ℕ → ℕ
compute_backoff_ms attempts = min (base_backoff_ms * 2 ^ (attempts - 1)) max_backoff_ms

unfoldable pub enqueue : IntegrationEvent → OutboxMessage
unfolding Event.to_json
enqueue event = record {
  id = event.event_id;
  aggregate_id = event.aggregate_id;
  event_type = event_type event.content;
  payload = Event.to_json event;
  occurred_at = event.occurred_at;
  attempts = 0;
  next_attempt_at = none;
  published_at = none;
}

unfoldable pub rehydrate : OutboxMessage → OutboxMessage
rehydrate state = state

unfoldable pub is_pending : OutboxMessage → Bool
is_pending m = is_none m.published_at

unfoldable pub is_due : OutboxMessage → Timestamp → Bool
unfolding is_pending
is_due m now = is_pending m && elim m.next_attempt_at [ none ↦ true | some t ↦ leb t now ]

unfoldable pub mark_published : Timestamp → OutboxMessage → Result OutboxMessage
unfolding is_pending
mark_published at m = do
  ensure (is_pending m) invariant_violation
  ok (record m { published_at = some at })

unfoldable pub schedule_retry : Timestamp → OutboxMessage → Result OutboxMessage
unfolding is_pending compute_backoff_ms
schedule_retry now m = do
  ensure (is_pending m) invariant_violation
  ok (record m {
    attempts = m.attempts + 1;
    next_attempt_at = some (now + compute_backoff_ms (m.attempts + 1));
  })
