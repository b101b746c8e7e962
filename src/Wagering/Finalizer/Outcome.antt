-- ===== src/Wagering/Finalizer/Outcome.antt =====
-- src/wagering/application/wager-transaction-finalizer.ts: what a movement that goes through returns.
use distributed_wagering_pro.Wallets.Repository as Wallets
use distributed_wagering_pro.Wagering.Repository as Transactions
use distributed_wagering_pro.Wagering.Transaction.{
  processed, rejected, WagerTransaction, is_terminal,
}
use distributed_wagering_pro.Kernel.Event.{Timestamp, EventContext, LedgerDirection, FailureCode}
use distributed_wagering_pro.Persistence.World.{Platform, World, App}
use distributed_wagering_pro.Prelude.{Option, some, ◌≡◌, false, arith, ap, ◌∙◌, ◌+◌}
use distributed_wagering_pro.Wagering.Row.{TransactionRow}
use distributed_wagering_pro.Wagering.Finalizer.{
  settle, reject, attempt, move, move_or_reject, new_movement, reference_id, refuse_or_rethrow,
  classify_apply_failure,
}
use distributed_wagering_pro.Wallets.LedgerEntry.{WalletLedgerEntry}
use distributed_wagering_pro.Wallets.Wallet.{Wallet, WalletMovementContext}
use distributed_wagering_pro.Wallets.Rows.{WalletRow}
use distributed_wagering_pro.Kernel.Errors.{ok, Error, Result, err}
use distributed_wagering_pro.Persistence.Effect.{handle, continue}

abbrev pub processed_at : Option WagerTransaction → Timestamp → WagerTransaction → WagerTransaction
processed_at reference at tx = record tx {
  status = processed;
  reference_transaction_id = reference_id reference;
  processed_at = some at;
}

abbrev pub rejected_at : Timestamp → FailureCode → WagerTransaction → WagerTransaction
rejected_at at c tx = record tx { status = rejected; failure_code = some c; processed_at = some at }

module _ {P : Platform} (tx : WagerTransaction) (reference : Option WagerTransaction)
    (ctx : EventContext) (row : TransactionRow) where
  settle-done :
      (entry : WalletLedgerEntry) (wallet : Wallet) (w : World P) (wallet_row : WalletRow)
      → P.tables.wallets.find_one (Wallets.has_id wallet.id) w.em.wallets ≡ some wallet_row
      → P.tables.transactions.find_one (Transactions.has_id tx.id) w.em.transactions ≡ some row
      → is_terminal tx ≡ false
      → (settle tx reference ctx (entry, wallet) w).0
        ≡ ok (processed_at reference ctx.now tx, wallet)
  unfolding settle
  settle-done entry wallet w wallet_row found stored open_state = ground arith

  pub reject-done :
      (c : FailureCode) (w : World P)
      → P.tables.transactions.find_one (Transactions.has_id tx.id) w.em.transactions ≡ some row
      → is_terminal tx ≡ false
      → (reject tx c ctx w).0 ≡ ok (rejected_at ctx.now c tx)
  unfolding reject
  reject-done c w stored open_state = ground arith

  attempt-done :
      (direction : LedgerDirection) (m : WalletMovementContext) (wallet : Wallet)
      (entry : WalletLedgerEntry) (wallet' : Wallet) (w : World P) (wallet_row : WalletRow)
      → move direction wallet tx.money m ≡ ok (entry, wallet')
      → P.tables.wallets.find_one (Wallets.has_id wallet'.id) w.em.wallets ≡ some wallet_row
      → P.tables.transactions.find_one (Transactions.has_id tx.id) w.em.transactions ≡ some row
      → is_terminal tx ≡ false
      → (attempt direction m tx wallet reference ctx w).0
        ≡ ok (processed_at reference ctx.now tx, wallet')
  unfolding attempt
  attempt-done direction m wallet entry wallet' w wallet_row moved found stored open_state =
      ap (λ r. (continue (settle tx reference ctx) (r, w)).0) moved
      ∙ settle-done entry wallet' w wallet_row found stored open_state

  handle-done :
      (handler : Error → App P (WagerTransaction × Wallet))
      (r : Result (WagerTransaction × Wallet) × World P) {a : WagerTransaction × Wallet}
      → r.0 ≡ ok a
      → (handle handler r).0 ≡ ok a
  handle-done handler (ok a, v) h = h
  handle-done handler (err e, v) h = absurd (ground arith)

  -- A movement that the wallet allows is settled.
  pub move-done :
      (direction : LedgerDirection) (wallet : Wallet) (entry : WalletLedgerEntry) (wallet' : Wallet)
      (w : World P) (wallet_row : WalletRow)
      → move direction wallet tx.money (new_movement tx ctx (P.new_id w.ids)) ≡ ok (entry, wallet')
      → P.tables.wallets.find_one (Wallets.has_id wallet'.id) w.em.wallets ≡ some wallet_row
      → P.tables.transactions.find_one (Transactions.has_id tx.id) w.em.transactions ≡ some row
      → is_terminal tx ≡ false
      → (move_or_reject direction tx wallet reference ctx w).0
        ≡ ok (processed_at reference ctx.now tx, wallet')
  unfolding move_or_reject
  move-done direction wallet entry wallet' w wallet_row moved found stored open_state =
      let m = new_movement tx ctx (P.new_id w.ids) in
      let w₁ : World P = record w { ids = w.ids + 1 } in
      handle-done (λ e. refuse_or_rethrow tx wallet ctx e (classify_apply_failure e tx.kind))
        (attempt direction m tx wallet reference ctx w₁)
        (attempt-done direction m wallet entry wallet' w₁ wallet_row moved found stored open_state)
