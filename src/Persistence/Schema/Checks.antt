-- ===== src/Persistence/Schema/Checks.antt =====
-- migrations: which rows pass the checks.
use distributed_wagering_pro.Persistence.Schema.{
  kind_check, status_check, direction_check, transaction_checks, ledger_checks, wallet_checks,
}
use distributed_wagering_pro.Prelude.{◌≡◌, true, refl, pos, ◌≤ℤ◌, ltb_ℤ, arith, text_eq}
use distributed_wagering_pro.Wagering.Transaction.{
  Kind, Status, bet, win, loss, refund, rollback, opening, pending, pending_reference, processed,
  rejected, failed,
}
use distributed_wagering_pro.Kernel.Event.{LedgerDirection, debit, credit}
use distributed_wagering_pro.Wagering.Row.{TransactionRow}
use distributed_wagering_pro.Wallets.Rows.{LedgerRow, WalletRow}

-- The lists in the checks name every value of the enumerations.
kind_check_all : (k : Kind) → kind_check k ≡ true
unfolding kind_check text_eq
kind_check_all opening = refl
kind_check_all bet = refl
kind_check_all win = refl
kind_check_all loss = refl
kind_check_all refund = refl
kind_check_all rollback = refl

status_check_all : (s : Status) → status_check s ≡ true
unfolding status_check text_eq
status_check_all pending = refl
status_check_all pending_reference = refl
status_check_all processed = refl
status_check_all rejected = refl
status_check_all failed = refl

direction_check_all : (d : LedgerDirection) → direction_check d ≡ true
unfolding direction_check text_eq
direction_check_all debit = refl
direction_check_all credit = refl

pub nonneg-transaction_checks :
    (r : TransactionRow) → pos 0 ≤ℤ r.money_amount → transaction_checks r ≡ true
unfolding transaction_checks
nonneg-transaction_checks r h = ground (arith, kind_check_all r.kind, status_check_all r.status)

pub transaction_checks-nonneg :
    (r : TransactionRow) → transaction_checks r ≡ true → pos 0 ≤ℤ r.money_amount
unfolding transaction_checks
transaction_checks-nonneg r h = ground arith

pub positive-ledger_checks :
    (r : LedgerRow)
    → ltb_ℤ (pos 0) r.money_amount ≡ true
    → pos 0 ≤ℤ r.balance_before_amount
    → pos 0 ≤ℤ r.balance_after_amount
    → ledger_checks r ≡ true
unfolding ledger_checks
positive-ledger_checks r p b a = ground (arith, direction_check_all r.direction)

pub nonneg-wallet_checks : (r : WalletRow) → pos 0 ≤ℤ r.balance_amount → wallet_checks r ≡ true
unfolding wallet_checks
nonneg-wallet_checks r h = ground arith
