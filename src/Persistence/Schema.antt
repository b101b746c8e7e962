-- ===== src/Persistence/Schema.antt =====
-- migrations: the unique constraints and the checks of the five tables, as tests that run.
pub mod Keys
pub mod Checks
pub mod Triggers
pub mod Evolves
pub mod Passes
pub mod Writes
pub mod Commits
use distributed_wagering_pro.Prelude.{
  Text, Bool, List, ◌≡◌, true, false, not, ◌&&◌, ◌||◌, text_eq, [], ◌∷◌, codes, ltb_ℤ, pos, Option,
  some, none,
}
use distributed_wagering_pro.Wallets.Rows.{WalletRow, LedgerRow}
use distributed_wagering_pro.Wagering.Row.{TransactionRow}
use distributed_wagering_pro.Wagering.Transaction.{
  Kind, Status, kind_eq, kind_text, status_text, processed, refund, rollback,
}
use distributed_wagering_pro.Wagering.Repository.{status_eq}
use distributed_wagering_pro.Kernel.Event.{LedgerDirection, debit, credit}
use distributed_wagering_pro.Kernel.Errors.{ok}
use distributed_wagering_pro.Persistence.World.{
  Platform, Em, Tables, same_wallet, same_entry, same_transaction, same_outbox, same_inbox,
}

module _ {Row : Type 0} (same : Row → Row → Bool) where
  abbrev pub taken : Row → List Row → Bool
  taken r [] = false
  taken r (s ∷ rows) = same s r || taken r rows

  -- A unique constraint on the columns that `same` compares.
  abbrev pub is_unique : List Row → Bool
  is_unique [] = true
  is_unique (r ∷ rows) = not (taken r rows) && is_unique rows

-- `wallets_player_currency_unique`
abbrev pub same_player_and_currency : WalletRow → WalletRow → Bool
same_player_and_currency r s = text_eq r.player_id s.player_id && text_eq r.currency s.currency

-- `wager_transactions_idempotency_key_unique`
abbrev pub same_idempotency_key : TransactionRow → TransactionRow → Bool
same_idempotency_key r s = text_eq r.idempotency_key s.idempotency_key

-- `wager_transactions_provider_external_unique`
abbrev pub same_external_id : TransactionRow → TransactionRow → Bool
same_external_id r s =
    text_eq r.provider_id s.provider_id
    && text_eq r.external_transaction_id s.external_transaction_id

-- Equality of a column that may be null: two nulls are not equal.
abbrev pub column_eq : Option Text → Option Text → Bool
column_eq (some s) (some t) = text_eq s t
column_eq _ _ = false

-- The condition of the partial index.
abbrev pub is_settled_reversal : TransactionRow → Bool
is_settled_reversal r =
    status_eq r.status processed && (kind_eq r.kind refund || kind_eq r.kind rollback)

-- `wager_transactions_reference_once_idx`
abbrev pub same_reversal : TransactionRow → TransactionRow → Bool
same_reversal r s =
    is_settled_reversal r
    && (is_settled_reversal s
        && (column_eq r.reference_transaction_id s.reference_transaction_id
            && kind_eq r.kind s.kind))

-- `wallet_ledger_entries_transaction_unique`
abbrev pub same_ledger_transaction : LedgerRow → LedgerRow → Bool
same_ledger_transaction r s = text_eq r.transaction_id s.transaction_id

module _ {tables : Tables} where
  -- The primary keys, the unique constraints and the unique index.
  unfoldable pub unique_constraints : Em tables → Bool
  unique_constraints em =
      let wallets = tables.wallets.rows em.wallets in
      let transactions = tables.transactions.rows em.transactions in
      let ledger = tables.ledger.rows em.ledger in
      is_unique same_transaction transactions
      && (is_unique same_idempotency_key transactions
          && (is_unique same_external_id transactions
              && (is_unique same_reversal transactions
                  && (is_unique same_outbox (tables.outbox.rows em.outbox)
                      && (is_unique same_inbox (tables.inbox.rows em.inbox)
                          && (is_unique same_wallet wallets
                              && (is_unique same_player_and_currency wallets
                                  && (is_unique same_entry ledger
                                      && is_unique same_ledger_transaction ledger))))))))

-- PostgreSQL lets no flush through that leaves two rows with equal keys.
abbrev pub EnforcesUnique : Platform → Type 0
EnforcesUnique P = (em : Em P.tables) → P.flush em ≡ ok tt → unique_constraints em ≡ true

abbrev is_in : Text → List Text → Bool
is_in t [] = false
is_in t (s ∷ texts) = text_eq t s || is_in t texts

-- The values of `LedgerDirection`.
unfoldable pub direction_text : LedgerDirection → Text
direction_text debit = codes "DEBIT"
direction_text credit = codes "CREDIT"

unfoldable pub direction_check : LedgerDirection → Bool
unfolding direction_text
direction_check d = is_in (direction_text d) (codes "DEBIT" ∷ codes "CREDIT" ∷ [])

-- `wager_transactions_kind_check`
unfoldable pub kind_check : Kind → Bool
unfolding kind_text
kind_check k = is_in (kind_text k) (
    codes "OPENING"
    ∷ codes "BET"
    ∷ codes "WIN"
    ∷ codes "LOSS"
    ∷ codes "REFUND"
    ∷ codes "ROLLBACK"
    ∷ [])

-- `wager_transactions_status_check`
unfoldable pub status_check : Status → Bool
unfolding status_text
status_check s = is_in (status_text s) (
    codes "PENDING"
    ∷ codes "PENDING_REFERENCE"
    ∷ codes "PROCESSED"
    ∷ codes "REJECTED"
    ∷ codes "FAILED"
    ∷ [])

-- `wallets_balance_non_negative`
unfoldable pub wallet_checks : WalletRow → Bool
wallet_checks r = not (ltb_ℤ r.balance_amount (pos 0))

-- The two checks above, and `wager_transactions_money_positive`.
unfoldable pub transaction_checks : TransactionRow → Bool
unfolding kind_check status_check
transaction_checks r =
    kind_check r.kind && (status_check r.status && not (ltb_ℤ r.money_amount (pos 0)))

-- `wallet_ledger_entries_direction_check`, `…_money_positive` and `…_balance_non_negative`
unfoldable pub ledger_checks : LedgerRow → Bool
unfolding direction_check
ledger_checks r =
    direction_check r.direction
    && (ltb_ℤ (pos 0) r.money_amount
        && (not (ltb_ℤ r.balance_before_amount (pos 0))
            && not (ltb_ℤ r.balance_after_amount (pos 0))))
