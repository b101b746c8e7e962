-- ===== src/Wagering/Repository.antt =====
-- src/wagering/infrastructure/persistence/wager-transaction.repository.ts. A lock mode changes
-- nothing of what a query gives, and is left out.
pub mod Reads
use distributed_wagering_pro.Prelude.{
  Text, Bool, Option, text_eq, false, ◌&&◌, ℕ, List, true, some, none, leb,
}
use distributed_wagering_pro.Wagering.Transaction.{
  Kind, Status, WagerTransaction, failed, kind_eq, pending, pending_reference, processed, rejected,
}
use distributed_wagering_pro.Kernel.Event.{Timestamp}
use distributed_wagering_pro.Persistence.World.{Platform, App}
use distributed_wagering_pro.Wagering.Row.{TransactionRow, to_transaction_row, to_wager_transaction}
use distributed_wagering_pro.Persistence.Effect.{
  modify, ◌>>◌, ◌>>=◌, flush, gets, lift, or_fail, map_found, map_rows,
}

abbrev pub has_id : Text → TransactionRow → Bool
has_id id row = text_eq row.id id

abbrev pub has_idempotency_key : Text → TransactionRow → Bool
has_idempotency_key key row = text_eq row.idempotency_key key

abbrev pub has_external_id : Text → Text → TransactionRow → Bool
has_external_id provider_id external_id row =
    text_eq row.provider_id provider_id && text_eq row.external_transaction_id external_id

abbrev pub status_eq : Status → Status → Bool
status_eq pending pending = true
status_eq pending_reference pending_reference = true
status_eq processed processed = true
status_eq rejected rejected = true
status_eq failed failed = true
status_eq _ _ = false

-- `column = value` where the column may be null
abbrev pub refers_to : Text → Option Text → Bool
refers_to id none = false
refers_to id (some t) = text_eq t id

abbrev pub is_processed_reversal : Text → Kind → TransactionRow → Bool
is_processed_reversal reference_id kind row =
    refers_to reference_id row.reference_transaction_id
    && (kind_eq row.kind kind && status_eq row.status processed)

-- `status = PENDING_REFERENCE and (next_reference_retry_at is null or … <= now)`
abbrev pub is_due_pending_reference : Timestamp → TransactionRow → Bool
is_due_pending_reference now row =
    status_eq row.status pending_reference
    && elim row.next_reference_retry_at [ none ↦ true | some t ↦ leb t now ]

module _ {P : Platform} where
  unfoldable pub insert : WagerTransaction → App P (Unit {0})
  unfolding to_transaction_row
  insert tx = modify λ em. record em {
    transactions = P.tables.transactions.create (to_transaction_row tx) em.transactions;
  }

  unfoldable pub claim : WagerTransaction → App P (Unit {0})
  unfolding insert
  claim tx = do insert tx; flush

  unfoldable pub find_one : (TransactionRow → Bool) → App P (Option WagerTransaction)
  unfolding to_wager_transaction
  find_one test = do
    row ← gets (λ em. P.tables.transactions.find_one test em.transactions)
    lift (map_found to_wager_transaction row)

  unfoldable pub find_by_id : Text → App P (Option WagerTransaction)
  unfolding find_one
  find_by_id id = find_one (has_id id)

  unfoldable pub find_by_idempotency_key : Text → App P (Option WagerTransaction)
  unfolding find_one
  find_by_idempotency_key key = find_one (has_idempotency_key key)

  unfoldable pub find_by_provider_and_external_id : Text → Text → App P (Option WagerTransaction)
  unfolding find_one
  find_by_provider_and_external_id provider_id external_id =
      find_one (has_external_id provider_id external_id)

  unfoldable pub save : WagerTransaction → App P (Unit {0})
  unfolding to_transaction_row
  save tx = do
    row ← gets (λ em. P.tables.transactions.find_one (has_id tx.id) em.transactions)
    or_fail row
    modify λ em. record em {
      transactions = P.tables.transactions.assign (to_transaction_row tx) em.transactions;
    }

  unfoldable pub find_processed_reversal : Text → Kind → App P (Option WagerTransaction)
  unfolding find_one
  find_processed_reversal reference_id kind = find_one (is_processed_reversal reference_id kind)

  unfoldable pub find_due_pending_reference_batch : Timestamp → ℕ → App P (List WagerTransaction)
  unfolding to_wager_transaction
  find_due_pending_reference_batch now limit = do
    rows ← gets λ em.
        P.tables.transactions.get_result_list
          (record { passes = is_due_pending_reference now; before = λ r s. false; limit = limit })
          em.transactions
    lift (map_rows to_wager_transaction rows)
