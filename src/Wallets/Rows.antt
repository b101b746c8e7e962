-- ===== src/Wallets/Rows.antt =====
-- src/wallets/infrastructure/persistence: the rows of the two tables, and the mappers.
pub mod RoundTrip
use distributed_wagering_pro.Kernel.Money
use distributed_wagering_pro.Wallets.LedgerEntry
use distributed_wagering_pro.Wallets.Wallet
use distributed_wagering_pro.Prelude.{Text, ℤ, ℕ}
use distributed_wagering_pro.Kernel.Errors.{Result, ◌>>=◌, ok}
use distributed_wagering_pro.Wallets.Wallet.{Wallet}
use distributed_wagering_pro.Wallets.LedgerEntry.{WalletLedgerEntry}
use distributed_wagering_pro.Kernel.Event.{LedgerDirection, Timestamp}

-- wallet.entity.ts
pub record WalletRow : Type 0 where
  pub id : Text
  pub player_id : Text
  pub currency : Text
  pub balance_amount : ℤ
  pub version : ℕ
  pub created_at : Timestamp
  pub updated_at : Timestamp

-- wallet-ledger-entry.entity.ts
pub record LedgerRow : Type 0 where
  pub id : Text
  pub wallet_id : Text
  pub transaction_id : Text
  pub direction : LedgerDirection
  pub money_amount : ℤ
  pub money_currency : Text
  pub balance_before_amount : ℤ
  pub balance_before_currency : Text
  pub balance_after_amount : ℤ
  pub balance_after_currency : Text
  pub created_at : Timestamp

-- `toWalletDomain`
unfoldable pub to_wallet : WalletRow → Result Wallet
unfolding Money.from_minor_units Wallet.rehydrate
to_wallet row = do
  balance ← Money.from_minor_units row.balance_amount row.currency
  ok (
      Wallet.rehydrate (record {
        id = row.id;
        player_id = row.player_id;
        currency = row.currency;
        balance = balance;
        version = row.version;
        created_at = row.created_at;
        updated_at = row.updated_at;
      }))

-- `toWalletEntity`
unfoldable pub to_wallet_row : Wallet → WalletRow
unfolding Money.to_minor_units
to_wallet_row w = record {
  id = w.id;
  player_id = w.player_id;
  currency = w.currency;
  balance_amount = Money.to_minor_units w.balance;
  version = w.version;
  created_at = w.created_at;
  updated_at = w.updated_at;
}

-- `toWalletLedgerEntryDomain`
unfoldable pub to_ledger_entry : LedgerRow → Result WalletLedgerEntry
unfolding Money.from_minor_units LedgerEntry.rehydrate
to_ledger_entry row = do
  money ← Money.from_minor_units row.money_amount row.money_currency
  balance_before ← Money.from_minor_units row.balance_before_amount row.balance_before_currency
  balance_after ← Money.from_minor_units row.balance_after_amount row.balance_after_currency
  ok (
      LedgerEntry.rehydrate (record {
        id = row.id;
        wallet_id = row.wallet_id;
        transaction_id = row.transaction_id;
        direction = row.direction;
        money = money;
        balance_before = balance_before;
        balance_after = balance_after;
        created_at = row.created_at;
      }))

-- `toWalletLedgerEntryEntity`
unfoldable pub to_ledger_row : WalletLedgerEntry → LedgerRow
unfolding Money.to_minor_units
to_ledger_row e = record {
  id = e.id;
  wallet_id = e.wallet_id;
  transaction_id = e.transaction_id;
  direction = e.direction;
  money_amount = Money.to_minor_units e.money;
  money_currency = e.money.currency;
  balance_before_amount = Money.to_minor_units e.balance_before;
  balance_before_currency = e.balance_before.currency;
  balance_after_amount = Money.to_minor_units e.balance_after;
  balance_after_currency = e.balance_after.currency;
  created_at = e.created_at;
}
