-- ===== src/Wallets/Wallet.antt =====
-- src/wallets/domain/wallet.ts: a player's balance in one currency. A method that mutates the
-- wallet returns the new one beside its result; each `throw` comes before the first assignment.
pub mod Laws
pub mod History
use distributed_wagering_pro.Kernel.Money
use distributed_wagering_pro.Kernel.Money.{Money}
use distributed_wagering_pro.Wallets.LedgerEntry
use distributed_wagering_pro.Prelude.{Text, ℕ, ◌+◌, text_eq, not}
use distributed_wagering_pro.Kernel.Errors.{
  Result, ensure, currency_mismatch, ◌>>◌, ◌>>=◌, ok, insufficient_balance,
}
use distributed_wagering_pro.Kernel.Event.{Timestamp, LedgerDirection}
use distributed_wagering_pro.Wallets.LedgerEntry.{WalletLedgerEntry}

pub record OpenWalletProps : Type 0 where
  pub id : Text
  pub player_id : Text
  pub initial_balance : Money
  pub now : Timestamp

-- `Wallet`, and `WalletState`, which has the same fields.
pub record Wallet : Type 0 where
  pub id : Text
  pub player_id : Text
  pub currency : Text
  pub balance : Money
  pub version : ℕ
  pub created_at : Timestamp
  pub updated_at : Timestamp

pub record WalletMovementContext : Type 0 where
  pub transaction_id : Text
  pub ledger_entry_id : Text
  pub now : Timestamp

-- `Wallet.open`
unfoldable pub open_wallet : OpenWalletProps → Wallet
open_wallet props = record {
  id = props.id;
  player_id = props.player_id;
  currency = props.initial_balance.currency;
  balance = props.initial_balance;
  version = 1;
  created_at = props.now;
  updated_at = props.now;
}

unfoldable pub rehydrate : Wallet → Wallet
rehydrate state = state

unfoldable pub assert_same_currency : Wallet → Money → Result (Unit {0})
assert_same_currency w money =
    ensure (text_eq money.currency w.currency) (currency_mismatch w.currency money.currency)

unfoldable pub apply_movement : Wallet → Money → Timestamp → Wallet
apply_movement w balance_after now = record w {
  balance = balance_after;
  version = w.version + 1;
  updated_at = now;
}

-- The props of the entry for a movement, as `debit` and `credit` write them out.
unfoldable pub movement_entry :
    LedgerDirection → Wallet → Money → Money → WalletMovementContext → WalletLedgerEntry
movement_entry direction w money balance_after ctx = record {
  id = ctx.ledger_entry_id;
  wallet_id = w.id;
  transaction_id = ctx.transaction_id;
  direction = direction;
  money = money;
  balance_before = w.balance;
  balance_after = balance_after;
  created_at = ctx.now;
}

unfoldable pub debit : Wallet → Money → WalletMovementContext → Result (WalletLedgerEntry × Wallet)
unfolding assert_same_currency Money.subtract Money.is_negative Money.to_json LedgerEntry.create
    movement_entry apply_movement
debit w money ctx = do
  assert_same_currency w money
  balance_after ← Money.subtract w.balance money
  ensure (not (Money.is_negative balance_after))
      (insufficient_balance w.id (Money.to_json w.balance).amount (Money.to_json money).amount)
  entry ← LedgerEntry.create (movement_entry LedgerDirection.debit w money balance_after ctx)
  ok (entry, apply_movement w balance_after ctx.now)

unfoldable pub credit : Wallet → Money → WalletMovementContext → Result (WalletLedgerEntry × Wallet)
unfolding assert_same_currency Money.add LedgerEntry.create movement_entry apply_movement
credit w money ctx = do
  assert_same_currency w money
  balance_after ← Money.add w.balance money
  entry ← LedgerEntry.create (movement_entry LedgerDirection.credit w money balance_after ctx)
  ok (entry, apply_movement w balance_after ctx.now)
