-- ===== src/Wallets/Events.antt =====
-- src/wallets/domain/events/wallet-balance-changed.event.ts
use distributed_wagering_pro.Kernel.Money
use distributed_wagering_pro.Kernel.Money.{Money}
use distributed_wagering_pro.Prelude.{Text}
use distributed_wagering_pro.Wallets.Wallet.{Wallet}
use distributed_wagering_pro.Wallets.LedgerEntry.{WalletLedgerEntry}
use distributed_wagering_pro.Kernel.Event.{EventContext, IntegrationEvent, balance_changed}

-- `WalletBalanceChanged.from`; the first argument is what `newId()` returns.
unfoldable pub wallet_balance_changed :
    Text → Wallet → WalletLedgerEntry → EventContext → IntegrationEvent
unfolding Money.to_json
wallet_balance_changed event_id wallet entry ctx = record {
  event_id = event_id;
  aggregate_id = wallet.id;
  correlation_id = ctx.correlation_id;
  causation_id = ctx.causation_id;
  occurred_at = ctx.now;
  content = balance_changed (record {
    wallet_id = wallet.id;
    transaction_id = entry.transaction_id;
    direction = entry.direction;
    money = Money.to_json entry.money;
    balance_before = Money.to_json entry.balance_before;
    balance_after = Money.to_json entry.balance_after;
    wallet_version = wallet.version;
  });
}
