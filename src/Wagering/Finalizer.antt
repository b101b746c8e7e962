-- ===== src/Wagering/Finalizer.antt =====
-- src/wagering/application/wager-transaction-finalizer.ts: what happens to a transaction once it has been
-- claimed and its reference is known. A method that mutates the transaction or the wallet
-- returns the new ones.
pub mod Untouched
pub mod Balance
pub mod Outcome
pub mod Bet
pub mod Undone
pub mod Terminal
pub mod Writes
pub mod Settles
use distributed_wagering_pro.Messaging.Outbox
use distributed_wagering_pro.Wagering.Repository
use distributed_wagering_pro.Wagering.Transaction
use distributed_wagering_pro.Wallets.Repository as Wallets
use distributed_wagering_pro.Wallets.Wallet
use distributed_wagering_pro.Wagering.Transaction.{
  WagerTransaction, Kind, status_text, ledger_direction_for, affects_balance, kind_text, kind_eq,
  rollback,
}
use distributed_wagering_pro.Prelude.{Option, Text, if◌then◌else◌, [], some, ◌+◌, none, codes, ◌∷◌}
use distributed_wagering_pro.Persistence.World.{Platform, App}
use distributed_wagering_pro.Kernel.Event.{
  FailureCode, LedgerDirection, IntegrationEvent, EventContext, rollback_insufficient_balance,
  wallet_currency_mismatch,
}
use distributed_wagering_pro.Messaging.Repository.{insert_outbox}
use distributed_wagering_pro.Wagering.Backoff.{compute_reference_backoff_ms}
use distributed_wagering_pro.Wagering.Events.{
  transaction_rejected, transaction_processed, transaction_pending_reference,
}
use distributed_wagering_pro.Kernel.Errors.{Error, domain, Result, DomainError, currency_mismatch}
use distributed_wagering_pro.Wallets.Wallet.{Wallet, WalletMovementContext}
use distributed_wagering_pro.Persistence.Effect.{
  pure, increment_counter, throws, new_id, lift, catches, ◌>>◌, ◌>>=◌,
}
use distributed_wagering_pro.Kernel.Money.{Money}
use distributed_wagering_pro.Wallets.Events.{wallet_balance_changed}
use distributed_wagering_pro.Wallets.LedgerEntry.{WalletLedgerEntry}

abbrev pub reference_id : Option WagerTransaction → Option Text
reference_id none = none
reference_id (some reference) = some reference.id

abbrev pub move :
    LedgerDirection → Wallet → Money → WalletMovementContext → Result (WalletLedgerEntry × Wallet)
move LedgerDirection.debit wallet money ctx = Wallet.debit wallet money ctx
move LedgerDirection.credit wallet money ctx = Wallet.credit wallet money ctx

unfoldable pub classify_apply_failure : Error → Kind → Option FailureCode
classify_apply_failure (domain (DomainError.insufficient_balance _ _ _)) kind = some (
    if kind_eq kind rollback
    then rollback_insufficient_balance
    else FailureCode.insufficient_balance)
classify_apply_failure (domain (currency_mismatch _ _)) kind = some wallet_currency_mismatch
classify_apply_failure _ kind = none

-- The movement that gets a new id for its entry.
abbrev pub new_movement : WagerTransaction → EventContext → Text → WalletMovementContext
new_movement tx ctx id = record { transaction_id = tx.id; ledger_entry_id = id; now = ctx.now }

module _ {P : Platform} where
  unfoldable pub record_outcome : WagerTransaction → App P (Unit {0})
  unfolding status_text kind_text
  record_outcome tx =
      increment_counter (codes "wager_transactions_total")
        (status_text tx.status ∷ kind_text tx.kind ∷ [])

  -- `outboxRepository.insert(em, OutboxMessage.enqueue(event))`, the event's id being new.
  unfoldable pub publish : (Text → IntegrationEvent) → App P (Unit {0})
  unfolding insert_outbox Outbox.enqueue
  publish event = do id ← new_id; insert_outbox (Outbox.enqueue (event id))

  unfoldable pub mark_pending_reference : WagerTransaction → EventContext → App P WagerTransaction
  unfolding compute_reference_backoff_ms Transaction.mark_pending_reference Repository.save publish
      transaction_pending_reference
  mark_pending_reference tx ctx = do
    let next_retry_at = ctx.now + compute_reference_backoff_ms tx.reference_retry_attempts
    marked ← lift (Transaction.mark_pending_reference next_retry_at tx)
    Repository.save marked
    publish (λ id. transaction_pending_reference id marked ctx)
    pure marked

  unfoldable pub reject : WagerTransaction → FailureCode → EventContext → App P WagerTransaction
  unfolding Transaction.reject Repository.save publish transaction_rejected record_outcome
  reject tx failure ctx = do
    marked ← lift (Transaction.reject failure ctx.now tx)
    Repository.save marked
    publish (λ id. transaction_rejected id marked ctx)
    record_outcome marked
    pure marked

  unfoldable pub apply_loss :
      WagerTransaction
      → Wallet
      → Option WagerTransaction
      → EventContext
      → App P (WagerTransaction × Wallet)
  unfolding Transaction.mark_processed Repository.save publish transaction_processed record_outcome
  apply_loss tx wallet reference ctx = do
    marked ← lift (Transaction.mark_processed (reference_id reference) ctx.now tx)
    Repository.save marked
    publish (λ id. transaction_processed id marked wallet.balance ctx)
    record_outcome marked
    pure (marked, wallet)

  -- What stands in the `try`, after the movement.
  unfoldable pub settle :
      WagerTransaction
      → Option WagerTransaction
      → EventContext
      → WalletLedgerEntry × Wallet
      → App P (WagerTransaction × Wallet)
  unfolding Wallets.insert_entry Wallets.save Transaction.mark_processed Repository.save publish
      transaction_processed wallet_balance_changed record_outcome
  settle tx reference ctx (entry, wallet) = do
    Wallets.insert_entry entry
    Wallets.save wallet
    marked ← lift (Transaction.mark_processed (reference_id reference) ctx.now tx)
    Repository.save marked
    publish (λ id. transaction_processed id marked wallet.balance ctx)
    publish (λ id. wallet_balance_changed id wallet entry ctx)
    record_outcome marked
    pure (marked, wallet)

  -- The `catch`. The two errors that it classifies come from the movement, before the wallet changes.
  refuse_or_rethrow :
      WagerTransaction
      → Wallet
      → EventContext
      → Error
      → Option FailureCode
      → App P (WagerTransaction × Wallet)
  unfolding reject
  refuse_or_rethrow tx wallet ctx e none = throws e
  refuse_or_rethrow tx wallet ctx e (some failure) = do
    marked ← reject tx failure ctx
    pure (marked, wallet)

  -- What stands in the `try`.
  unfoldable pub attempt :
      LedgerDirection
      → WalletMovementContext
      → WagerTransaction
      → Wallet
      → Option WagerTransaction
      → EventContext
      → App P (WagerTransaction × Wallet)
  unfolding Wallet.debit Wallet.credit settle
  attempt direction movement tx wallet reference ctx = do
    moved ← lift (move direction wallet tx.money movement)
    settle tx reference ctx moved

  unfoldable pub move_or_reject :
      LedgerDirection
      → WagerTransaction
      → Wallet
      → Option WagerTransaction
      → EventContext
      → App P (WagerTransaction × Wallet)
  unfolding attempt classify_apply_failure refuse_or_rethrow
  move_or_reject direction tx wallet reference ctx = do
    entry_id ← new_id
    catches (attempt direction (new_movement tx ctx entry_id) tx wallet reference ctx)
        (λ e. refuse_or_rethrow tx wallet ctx e (classify_apply_failure e tx.kind))

  unfoldable pub apply_movement :
      WagerTransaction
      → Wallet
      → Option WagerTransaction
      → EventContext
      → App P (WagerTransaction × Wallet)
  unfolding ledger_direction_for move_or_reject
  apply_movement tx wallet reference ctx = do
    direction ← lift (ledger_direction_for tx reference)
    move_or_reject direction tx wallet reference ctx

  unfoldable pub apply_effect :
      WagerTransaction
      → Wallet
      → Option WagerTransaction
      → EventContext
      → App P (WagerTransaction × Wallet)
  unfolding affects_balance apply_loss apply_movement
  apply_effect tx wallet reference ctx =
      if affects_balance tx
      then apply_movement tx wallet reference ctx
      else apply_loss tx wallet reference ctx
