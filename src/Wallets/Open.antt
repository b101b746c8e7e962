-- ===== src/Wallets/Open.antt =====
-- src/wallets/application/use-cases/open-wallet.use-case.ts. The clock is an argument.
pub mod Balance
pub mod Writes
use distributed_wagering_pro.Kernel.Money
use distributed_wagering_pro.Kernel.Money.{Money}
use distributed_wagering_pro.Wagering.Finalizer
use distributed_wagering_pro.Wagering.Repository as Transactions
use distributed_wagering_pro.Wagering.Transaction
use distributed_wagering_pro.Wallets.LedgerEntry
use distributed_wagering_pro.Wallets.Repository
use distributed_wagering_pro.Wallets.Wallet
use distributed_wagering_pro.Prelude.{Text, if◌then◌else◌, none, codes, []}
use distributed_wagering_pro.Persistence.World.{Platform, App}
use distributed_wagering_pro.Wallets.Wallet.{Wallet, OpenWalletProps}
use distributed_wagering_pro.Wagering.Events.{transaction_processed}
use distributed_wagering_pro.Kernel.Errors.{
  Error, domain, duplicate_wallet, unique_constraint_violation,
}
use distributed_wagering_pro.Kernel.Event.{Timestamp, LedgerDirection, EventContext}
use distributed_wagering_pro.Wagering.Transaction.{WagerTransaction, CreateOpeningProps}
use distributed_wagering_pro.Wallets.Events.{wallet_balance_changed}
use distributed_wagering_pro.Wallets.LedgerEntry.{WalletLedgerEntry}
use distributed_wagering_pro.Persistence.Effect.{
  throws, ◌>>◌, ◌>>=◌, new_id, flush, lift, pure, catches, transactional, increment_counter,
}

-- `OpenWalletCommand`
pub record OpenWalletCommand : Type 0 where
  pub player_id : Text
  pub initial_balance : Money

-- The props of the entry that credits the initial balance.
unfoldable pub opening_entry :
    Text → Wallet → WagerTransaction → Money → Money → Timestamp → WalletLedgerEntry
opening_entry id wallet tx nothing initial_balance now = record {
  id = id;
  wallet_id = wallet.id;
  transaction_id = tx.id;
  direction = LedgerDirection.credit;
  money = initial_balance;
  balance_before = nothing;
  balance_after = initial_balance;
  created_at = now;
}

module _ {P : Platform} where
  -- What an initial balance above zero adds: an opening transaction and its ledger entry.
  unfoldable pub record_opening : OpenWalletCommand → Wallet → Timestamp → App P (Unit {0})
  unfolding Transaction.create_opening Transactions.insert Money.subtract LedgerEntry.create
      opening_entry Repository.insert_entry Finalizer.publish transaction_processed
      wallet_balance_changed
  record_opening cmd wallet now = do
    transaction_id ← new_id
    let opened : CreateOpeningProps = record {
      id = transaction_id;
      wallet_id = wallet.id;
      player_id = cmd.player_id;
      money = cmd.initial_balance;
      now = now;
    }
    let tx = Transaction.create_opening opened
    Transactions.insert tx
    flush
    entry_id ← new_id
    nothing ← lift (Money.subtract cmd.initial_balance cmd.initial_balance)
    entry ←
        lift (LedgerEntry.create (opening_entry entry_id wallet tx nothing cmd.initial_balance now))
    Repository.insert_entry entry
    correlation_id ← new_id
    let ctx : EventContext = record {
      correlation_id = correlation_id;
      causation_id = none;
      now = now;
    }
    Finalizer.publish (λ id. transaction_processed id tx cmd.initial_balance ctx)
    Finalizer.publish (λ id. wallet_balance_changed id wallet entry ctx)

  unfoldable pub open_body : OpenWalletCommand → Wallet → Timestamp → App P (Unit {0})
  unfolding Repository.insert Money.is_positive record_opening
  open_body cmd wallet now = do
    Repository.insert wallet
    flush
    if Money.is_positive cmd.initial_balance then record_opening cmd wallet now else pure tt

  unfoldable pub duplicate_or_rethrow : OpenWalletCommand → Error → App P (Unit {0})
  duplicate_or_rethrow cmd unique_constraint_violation =
      throws (domain (duplicate_wallet cmd.player_id cmd.initial_balance.currency))
  duplicate_or_rethrow cmd e = throws e

  unfoldable pub execute : OpenWalletCommand → Timestamp → App P Wallet
  unfolding Wallet.open_wallet open_body duplicate_or_rethrow
  execute cmd now = do
    id ← new_id
    let opened : OpenWalletProps = record {
      id = id;
      player_id = cmd.player_id;
      initial_balance = cmd.initial_balance;
      now = now;
    }
    let wallet = Wallet.open_wallet opened
    catches (transactional (open_body cmd wallet now)) (duplicate_or_rethrow cmd)
    increment_counter (codes "wallets_opened_total") []
    pure wallet
