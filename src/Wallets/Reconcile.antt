-- ===== src/Wallets/Reconcile.antt =====
-- src/wallets/application/use-cases/reconcile-wallet.use-case.ts, get-wallet.use-case.ts
pub mod Consistent
use distributed_wagering_pro.Kernel.Money
use distributed_wagering_pro.Kernel.Money.{Money}
use distributed_wagering_pro.Wallets.Repository
use distributed_wagering_pro.Prelude.{Text, Bool, Option, ℕ, if◌then◌else◌, codes, some, [], none}
use distributed_wagering_pro.Persistence.World.{Platform, App}
use distributed_wagering_pro.Wallets.Wallet.{Wallet}
use distributed_wagering_pro.Wallets.Repository.{RecalculatedBalance}
use distributed_wagering_pro.Persistence.Effect.{throws, ◌>>◌, ◌>>=◌, pure, lift, increment_counter}
use distributed_wagering_pro.Kernel.Errors.{domain, wallet_not_found}

-- `ReconciliationResult`
pub record Reconciliation : Type 0 where
  pub wallet_id : Text
  pub stored_balance : Money
  pub calculated_balance : Money
  pub difference : Money
  pub consistent : Bool
  pub checked_entries : ℕ

module _ {P : Platform} where
  unfoldable pub count_mismatch : Bool → App P (Unit {0})
  count_mismatch consistent =
      if consistent then pure tt else increment_counter (codes "reconciliation_mismatches_total") []

  unfoldable pub compare_with : Text → Wallet → RecalculatedBalance → App P Reconciliation
  unfolding Money.equals Money.subtract count_mismatch
  compare_with wallet_id wallet recalculated = do
    let consistent = Money.equals wallet.balance recalculated.balance
    difference ← lift (Money.subtract wallet.balance recalculated.balance)
    count_mismatch consistent
    pure (record {
      wallet_id = wallet_id;
      stored_balance = wallet.balance;
      calculated_balance = recalculated.balance;
      difference = difference;
      consistent = consistent;
      checked_entries = recalculated.checked_entries;
    })

  unfoldable pub reconcile_found : Text → Option Wallet → App P Reconciliation
  unfolding Repository.recalculate_balance compare_with
  reconcile_found wallet_id none = throws (domain (wallet_not_found wallet_id))
  reconcile_found wallet_id (some wallet) = do
    recalculated ← Repository.recalculate_balance wallet_id wallet.currency
    compare_with wallet_id wallet recalculated

  unfoldable pub execute : Text → App P Reconciliation
  unfolding Repository.find_by_id reconcile_found
  execute wallet_id = do found ← Repository.find_by_id wallet_id; reconcile_found wallet_id found
