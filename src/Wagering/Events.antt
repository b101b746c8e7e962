-- ===== src/Wagering/Events.antt =====
-- src/wagering/domain/events: the events of a transaction. The first argument of each is what
-- `newId()` returns.
use distributed_wagering_pro.Kernel.Money
use distributed_wagering_pro.Kernel.Money.{Money}
use distributed_wagering_pro.Kernel.Event
use distributed_wagering_pro.Wagering.Transaction.{kind_text, WagerTransaction}
use distributed_wagering_pro.Prelude.{Text}
use distributed_wagering_pro.Kernel.Event.{
  TransactionData, EventContext, EventData, IntegrationEvent,
}

-- The part of `data` that the three events share.
unfoldable pub transaction_data : WagerTransaction → TransactionData
unfolding Money.to_json kind_text
transaction_data tx = record {
  transaction_id = tx.id;
  provider_id = tx.provider_id;
  external_transaction_id = tx.external_transaction_id;
  player_id = tx.player_id;
  wallet_id = tx.wallet_id;
  round_id = tx.round_id;
  game_id = tx.game_id;
  kind = kind_text tx.kind;
  money = Money.to_json tx.money;
}

-- The envelope that the three events share: the aggregate is the wallet.
unfoldable pub transaction_event :
    Text → WagerTransaction → EventContext → EventData → IntegrationEvent
transaction_event event_id tx ctx content = record {
  event_id = event_id;
  aggregate_id = tx.wallet_id;
  correlation_id = ctx.correlation_id;
  causation_id = ctx.causation_id;
  occurred_at = ctx.now;
  content = content;
}

-- `WagerTransactionProcessed.from`
unfoldable pub transaction_processed :
    Text → WagerTransaction → Money → EventContext → IntegrationEvent
unfolding transaction_data transaction_event Money.to_json
transaction_processed event_id tx balance_after ctx =
    transaction_event event_id tx ctx
      (Event.processed (transaction_data tx) (Money.to_json balance_after))

-- `WagerTransactionRejected.from`
unfoldable pub transaction_rejected : Text → WagerTransaction → EventContext → IntegrationEvent
unfolding transaction_data transaction_event
transaction_rejected event_id tx ctx =
    transaction_event event_id tx ctx (Event.rejected (transaction_data tx) tx.failure_code)

-- `WagerTransactionPendingReference.from`
unfoldable pub transaction_pending_reference :
    Text → WagerTransaction → EventContext → IntegrationEvent
unfolding transaction_data transaction_event
transaction_pending_reference event_id tx ctx =
    transaction_event event_id tx ctx
      (Event.pending_reference (transaction_data tx) tx.reference_external_transaction_id)
