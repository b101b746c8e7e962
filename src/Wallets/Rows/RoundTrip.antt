-- ===== src/Wallets/Rows/RoundTrip.antt =====
-- src/wallets/infrastructure/persistence: storing and reading.
use distributed_wagering_pro.Kernel.Money
use distributed_wagering_pro.Kernel.Money.{Money}
use distributed_wagering_pro.Wallets.Rows.{
  to_wallet, to_wallet_row, to_ledger_entry, to_ledger_row, WalletRow,
}
use distributed_wagering_pro.Wallets.Wallet.{Wallet}
use distributed_wagering_pro.Wallets.LedgerEntry.{WalletLedgerEntry}
use distributed_wagering_pro.Prelude.{◌≡◌, true, arith}
use distributed_wagering_pro.Kernel.Errors.{ok}

-- A wallet whose balance is in its own, well-formed currency is read from its row as it was
-- stored.
wallet_round_trip :
    (w : Wallet)
    → w.balance.currency ≡ w.currency
    → Money.valid_currency w.currency ≡ true
    → to_wallet (to_wallet_row w) ≡ ok w
unfolding to_wallet to_wallet_row
wallet_round_trip w c v = ground arith

-- A row that is read as a wallet is stored as it was.
pub wallet_row_round_trip : (r : WalletRow) {w : Wallet} → to_wallet r ≡ ok w → to_wallet_row w ≡ r
unfolding to_wallet to_wallet_row
wallet_row_round_trip r h = ground arith

-- What a wallet takes from its row.
pub to_wallet-fields :
    (r : WalletRow) (w : Wallet)
    → to_wallet r ≡ ok w
    → (w.id ≡ r.id)
      × (w.balance.minor_units ≡ r.balance_amount)
      × (w.balance.currency ≡ w.currency)
      × (Money.valid_currency w.currency ≡ true)
unfolding to_wallet
to_wallet-fields r w h = ground arith

-- A ledger entry whose three amounts are in well-formed currencies is read from its row as it was
-- stored.
ledger_round_trip :
    (e : WalletLedgerEntry)
    → Money.valid_currency e.money.currency ≡ true
    → Money.valid_currency e.balance_before.currency ≡ true
    → Money.valid_currency e.balance_after.currency ≡ true
    → to_ledger_entry (to_ledger_row e) ≡ ok e
unfolding to_ledger_entry to_ledger_row
ledger_round_trip e a b c = ground arith
