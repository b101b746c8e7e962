-- ===== src/Wallets/Http.antt =====
-- src/wallets/interface/http: the controller of wallets, and the views that it answers with; and
-- get-wallet.use-case.ts. The limit of a page is taken as the number that its text was
-- read as.
use distributed_wagering_pro.Kernel.Money
use distributed_wagering_pro.Kernel.Money.{Money, MoneyProps}
use distributed_wagering_pro.Wallets.Wallet.{Wallet}
use distributed_wagering_pro.Wallets.Repository.{find_by_id}
use distributed_wagering_pro.Wallets.Open
use distributed_wagering_pro.Wallets.Ledger
use distributed_wagering_pro.Wallets.Ledger.{LedgerPage}
use distributed_wagering_pro.Wallets.Open.{OpenWalletCommand}
use distributed_wagering_pro.Wallets.Reconcile
use distributed_wagering_pro.Wallets.Reconcile.{Reconciliation}
use distributed_wagering_pro.Prelude.{Text, ℕ, Bool, Option, some, none, List, map}
use distributed_wagering_pro.Persistence.World.{Platform, App}
use distributed_wagering_pro.Kernel.Event.{Timestamp, LedgerDirection}
use distributed_wagering_pro.Persistence.Effect.{throws, ◌>>=◌, lift, pure}
use distributed_wagering_pro.Kernel.Errors.{domain, wallet_not_found}
use distributed_wagering_pro.Wallets.LedgerEntry.{WalletLedgerEntry}

-- `CreateWalletDto`
pub record CreateWalletDto : Type 0 where
  pub player_id : Text
  pub initial_balance : MoneyProps

pub record WalletView : Type 0 where
  pub id : Text
  pub player_id : Text
  pub currency : Text
  pub balance : MoneyProps
  pub version : ℕ
  pub created_at : Text
  pub updated_at : Text

pub record ReconciliationView : Type 0 where
  pub wallet_id : Text
  pub stored_balance : MoneyProps
  pub calculated_balance : MoneyProps
  pub difference : MoneyProps
  pub consistent : Bool
  pub checked_entries : ℕ

unfoldable pub to_reconciliation_view : Reconciliation → ReconciliationView
unfolding Money.to_json
to_reconciliation_view result = record {
  wallet_id = result.wallet_id;
  stored_balance = Money.to_json result.stored_balance;
  calculated_balance = Money.to_json result.calculated_balance;
  difference = Money.to_json result.difference;
  consistent = result.consistent;
  checked_entries = result.checked_entries;
}

unfoldable pub to_wallet_view : Platform → Wallet → WalletView
unfolding Money.to_json
to_wallet_view P wallet = record {
  id = wallet.id;
  player_id = wallet.player_id;
  currency = wallet.currency;
  balance = Money.to_json wallet.balance;
  version = wallet.version;
  created_at = P.iso_string wallet.created_at;
  updated_at = P.iso_string wallet.updated_at;
}

pub record WalletLedgerEntryView : Type 0 where
  pub id : Text
  pub transaction_id : Text
  pub direction : LedgerDirection
  pub money : MoneyProps
  pub balance_before : MoneyProps
  pub balance_after : MoneyProps
  pub created_at : Text

pub record WalletLedgerPageView : Type 0 where
  pub entries : List WalletLedgerEntryView
  pub next_cursor : Option Text

unfoldable pub to_entry_view : Platform → WalletLedgerEntry → WalletLedgerEntryView
unfolding Money.to_json
to_entry_view P entry = record {
  id = entry.id;
  transaction_id = entry.transaction_id;
  direction = entry.direction;
  money = Money.to_json entry.money;
  balance_before = Money.to_json entry.balance_before;
  balance_after = Money.to_json entry.balance_after;
  created_at = P.iso_string entry.created_at;
}

unfoldable pub to_wallet_ledger_page_view : Platform → LedgerPage → WalletLedgerPageView
unfolding to_entry_view
to_wallet_ledger_page_view P page = record {
  entries = map (to_entry_view P) page.entries;
  next_cursor = page.next_cursor;
}

module _ {P : Platform} where
  -- `GetWalletUseCase.execute`
  unfoldable pub get_wallet : Text → App P (Option Wallet)
  unfolding find_by_id
  get_wallet wallet_id = find_by_id wallet_id

  unfoldable pub open_wallet : CreateWalletDto → Timestamp → App P WalletView
  unfolding Money.from Open.execute to_wallet_view
  open_wallet dto now = do
    initial_balance ← lift (Money.from dto.initial_balance)
    wallet ←
        Open.execute (record { player_id = dto.player_id; initial_balance = initial_balance }) now
    pure (to_wallet_view P wallet)

  view_or_not_found : Text → Option Wallet → App P WalletView
  unfolding to_wallet_view
  view_or_not_found id none = throws (domain (wallet_not_found id))
  view_or_not_found id (some wallet) = pure (to_wallet_view P wallet)

  unfoldable pub get_by_id : Text → App P WalletView
  unfolding get_wallet view_or_not_found
  get_by_id id = do wallet ← get_wallet id; view_or_not_found id wallet

  unfoldable pub get_reconciliation : Text → App P ReconciliationView
  unfolding Reconcile.execute to_reconciliation_view
  get_reconciliation id = do result ← Reconcile.execute id; pure (to_reconciliation_view result)

  unfoldable pub get_ledger_page : Text → Option Text → Option ℕ → App P WalletLedgerPageView
  unfolding Ledger.execute to_wallet_ledger_page_view
  get_ledger_page id cursor limit = do
    page ← Ledger.execute id cursor limit
    pure (to_wallet_ledger_page_view P page)
