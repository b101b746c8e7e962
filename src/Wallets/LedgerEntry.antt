-- ===== src/Wallets/LedgerEntry.antt =====
-- src/wallets/domain/wallet-ledger-entry.ts: one movement of a wallet's balance.
use distributed_wagering_pro.Kernel.Money
use distributed_wagering_pro.Kernel.Money.{Money}
use distributed_wagering_pro.Prelude.{Text, Bool}
use distributed_wagering_pro.Kernel.Event.{LedgerDirection, Timestamp, debit, credit}
use distributed_wagering_pro.Kernel.Errors.{
  Result, ◌>>◌, ◌>>=◌, ensure, ok, unbalanced_ledger_entry,
}

-- `CreateWalletLedgerEntryProps` and `WalletLedgerEntryState` have the same fields.
pub record WalletLedgerEntry : Type 0 where
  pub id : Text
  pub wallet_id : Text
  pub transaction_id : Text
  pub direction : LedgerDirection
  pub money : Money
  pub balance_before : Money
  pub balance_after : Money
  pub created_at : Timestamp

unfoldable pub compute_expected_balance_after : LedgerDirection → Money → Money → Result Money
unfolding Money.subtract Money.add
compute_expected_balance_after debit balance_before money = Money.subtract balance_before money
compute_expected_balance_after credit balance_before money = Money.add balance_before money

-- `WalletLedgerEntry.create`
unfoldable pub create : WalletLedgerEntry → Result WalletLedgerEntry
unfolding compute_expected_balance_after Money.is_positive Money.equals
create props = do
  ensure (Money.is_positive props.money) unbalanced_ledger_entry
  expected ← compute_expected_balance_after props.direction props.balance_before props.money
  ensure (Money.equals expected props.balance_after) unbalanced_ledger_entry
  ok props

unfoldable pub rehydrate : WalletLedgerEntry → WalletLedgerEntry
rehydrate state = state

unfoldable pub is_balanced : WalletLedgerEntry → Result Bool
unfolding compute_expected_balance_after Money.equals
is_balanced e = do
  expected ← compute_expected_balance_after e.direction e.balance_before e.money
  ok (Money.equals expected e.balance_after)
