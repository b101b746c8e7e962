-- ===== src/Wagering/Row/RoundTrip.antt =====
-- src/wagering/infrastructure/persistence/wager-transaction.mapper.ts: storing and reading.
use distributed_wagering_pro.Kernel.Money
use distributed_wagering_pro.Kernel.Money.{Money}
use distributed_wagering_pro.Wagering.Row.{to_wager_transaction, to_transaction_row, TransactionRow}
use distributed_wagering_pro.Wagering.Transaction.{WagerTransaction}
use distributed_wagering_pro.Prelude.{◌≡◌, true, arith}
use distributed_wagering_pro.Kernel.Errors.{ok}

-- A transaction of an amount in a well-formed currency is read from its row as it was stored,
-- whatever its state.
pub transaction_round_trip :
    (tx : WagerTransaction)
    → Money.valid_currency tx.money.currency ≡ true
    → to_wager_transaction (to_transaction_row tx) ≡ ok tx
unfolding to_wager_transaction to_transaction_row
transaction_round_trip tx v = ground arith

-- A row that is read as a transaction is stored as it was.
transaction_row_round_trip :
    (r : TransactionRow) {tx : WagerTransaction}
    → to_wager_transaction r ≡ ok tx
    → to_transaction_row tx ≡ r
unfolding to_wager_transaction to_transaction_row
transaction_row_round_trip r h = ground arith
