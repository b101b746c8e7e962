-- ===== src/Wallets/Repository.antt =====
-- src/wallets/infrastructure/persistence: wallet.repository.ts, wallet-ledger-entry.repository.ts.
-- A lock mode changes nothing of what a query gives, and is left out.
pub mod Reads
use distributed_wagering_pro.Kernel.Money
use distributed_wagering_pro.Kernel.Money.{Money}
use distributed_wagering_pro.Prelude.{
  Text, Bool, text_eq, Option, ◌&&◌, ℤ, ℕ, pos, ◌+ℤ◌, List, if◌then◌else◌, ◌∷◌, length, [], ◌-ℤ◌,
}
use distributed_wagering_pro.Persistence.World.{Platform, App}
use distributed_wagering_pro.Wallets.Rows.{
  WalletRow, to_wallet, to_wallet_row, to_ledger_row, LedgerRow,
}
use distributed_wagering_pro.Wallets.Wallet.{Wallet}
use distributed_wagering_pro.Wallets.LedgerEntry.{WalletLedgerEntry}
use distributed_wagering_pro.Persistence.Effect.{
  modify, ◌>>◌, ◌>>=◌, gets, lift, or_fail, map_found, pure,
}
use distributed_wagering_pro.Kernel.Event.{is_debit}

abbrev pub has_id : Text → WalletRow → Bool
has_id id row = text_eq row.id id

abbrev pub has_player_and_currency : Text → Text → WalletRow → Bool
has_player_and_currency player_id currency row =
    text_eq row.player_id player_id && text_eq row.currency currency

module _ {P : Platform} where
  unfoldable pub find_by_id : Text → App P (Option Wallet)
  unfolding to_wallet
  find_by_id id = do
    row ← gets (λ em. P.tables.wallets.find_one (has_id id) em.wallets)
    lift (map_found to_wallet row)

  unfoldable pub find_by_player_and_currency : Text → Text → App P (Option Wallet)
  unfolding to_wallet
  find_by_player_and_currency player_id currency = do
    row ←
        gets
          (λ em. P.tables.wallets.find_one (has_player_and_currency player_id currency) em.wallets)
    lift (map_found to_wallet row)

  unfoldable pub insert : Wallet → App P (Unit {0})
  unfolding to_wallet_row
  insert wallet =
      modify
        (λ em. record em { wallets = P.tables.wallets.create (to_wallet_row wallet) em.wallets })

  unfoldable pub save : Wallet → App P (Unit {0})
  unfolding to_wallet_row
  save wallet = do
    row ← gets (λ em. P.tables.wallets.find_one (has_id wallet.id) em.wallets)
    or_fail row
    modify (λ em. record em { wallets = P.tables.wallets.assign (to_wallet_row wallet) em.wallets })

  -- `MikroOrmWalletLedgerRepository.insert`
  unfoldable pub insert_entry : WalletLedgerEntry → App P (Unit {0})
  unfolding to_ledger_row
  insert_entry entry =
      modify (λ em. record em { ledger = P.tables.ledger.create (to_ledger_row entry) em.ledger })

-- One round of the loop over the rows: `total += row.direction === "DEBIT" ? -amount : amount`.
unfoldable pub add_signed : ℤ → LedgerRow → ℤ
add_signed total row =
    total +ℤ (if is_debit row.direction then pos 0 -ℤ row.money_amount else row.money_amount)

unfoldable pub total_from : ℤ → List LedgerRow → ℤ
unfolding add_signed
total_from total [] = total
total_from total (row ∷ rows) = total_from (add_signed total row) rows

abbrev pub is_entry_of : Text → LedgerRow → Bool
is_entry_of wallet_id row = text_eq row.wallet_id wallet_id

pub record RecalculatedBalance : Type 0 where
  pub balance : Money
  pub checked_entries : ℕ

module _ {P : Platform} where
  unfoldable pub recalculate_balance : Text → Text → App P RecalculatedBalance
  unfolding total_from Money.from_minor_units
  recalculate_balance wallet_id currency = do
    rows ← gets (λ em. P.tables.ledger.select (is_entry_of wallet_id) em.ledger)
    balance ← lift (Money.from_minor_units (total_from (pos 0) rows) currency)
    pure (record { balance = balance; checked_entries = length rows })
