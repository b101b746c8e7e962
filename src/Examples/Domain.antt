-- ===== src/Examples/Domain.antt =====
-- Examples on the domain: money, wallets, transactions, the outbox, and the mappers.
use distributed_wagering_pro.Kernel.Money.{from, to_json, valid_currency}
use distributed_wagering_pro.Kernel.Money.Decimal.{
  decimal_string_to_minor_units, unsigned_decimal, valid_amount,
}
use distributed_wagering_pro.Kernel.Money.Decimal.Canonical.{print-read}
use distributed_wagering_pro.Kernel.Money.RoundTrip.{from-to_json}
use distributed_wagering_pro.Wallets.Wallet.Laws.{debit_lem, IsValid, moved_by}
use distributed_wagering_pro.Wallets.Wallet.History.{HistoryFacts, History-facts, debited, begin}
use distributed_wagering_pro.Wallets.Wallet.History.History.{next}
use distributed_wagering_pro.Wallets.Wallet.{debit, WalletMovementContext, Wallet}
use distributed_wagering_pro.Kernel.Event.{LedgerDirection}
use distributed_wagering_pro.Wagering.Transaction.{
  create, mark_processed, rollback, pending, ledger_direction_for, is_terminal, Status,
  WagerTransaction, requires_reference_for, direction_alone,
}
use distributed_wagering_pro.Wagering.Transaction.Lifecycle.{
  Reach, Reach-IsWellFormed, terminal_is_final, IsWellFormed, processes,
}
use distributed_wagering_pro.Wagering.Finalizer.Undone.{reversal_undoes, Restores}
use distributed_wagering_pro.Prelude.{
  ℕ, text_eq, codes, arith, ◌∷◌, ◌≡◌, pos, [], refl, ◌-ℤ◌, none, ◌≤◌, some, min, ◌*◌, inl, ◌↔◌,
}
use distributed_wagering_pro.Wallets.LedgerEntry.{WalletLedgerEntry}
use distributed_wagering_pro.Examples.Stored.{eur, wallet, bet_transaction}
use distributed_wagering_pro.Kernel.Errors.{ok, throw, insufficient_balance}
use distributed_wagering_pro.Messaging.Outbox.{
  OutboxMessage, schedule_retry, mark_published, is_pending, enqueue,
}
use distributed_wagering_pro.Wagering.Row.{to_wager_transaction, to_transaction_row}
use distributed_wagering_pro.Wagering.Backoff.{compute_reference_backoff_ms}
use distributed_wagering_pro.Wagering.Row.RoundTrip.{transaction_round_trip}
use distributed_wagering_pro.Wagering.Events.{transaction_rejected}
use distributed_wagering_pro.Wagering.Backoff.Laws.{reference_backoff_bounds}

-- Money
from-to_json_example : from (to_json (eur 1050)) ≡ ok (eur 1050)
unfolding valid_currency
from-to_json_example = from-to_json (eur 1050) (omega arith) refl

print-read_example :
    (n : ℕ) × (decimal_string_to_minor_units (codes "10.50") ≡ ok n)
    × (unsigned_decimal n ≡ codes "10.50")
unfolding valid_amount
print-read_example = print-read (codes "10.50") refl

-- Wallets
wallet-IsValid : IsValid wallet
wallet-IsValid = record { one_currency = refl; nonneg = omega arith }

abbrev movement : WalletMovementContext
movement = record { transaction_id = codes "t2"; ledger_entry_id = codes "e3"; now = 9 }

debit_example :
    debit wallet (eur 900) movement
    ≡ throw (insufficient_balance (codes "w") (to_json (eur 700)).amount (to_json (eur 900)).amount)
unfolding text_eq
debit_example = debit_lem wallet (eur 900) movement wallet-IsValid

abbrev after_bet : WalletLedgerEntry × Wallet
after_bet = moved_by LedgerDirection.debit wallet (pos 500) (eur 200) movement

one_debit : debit wallet (eur 200) movement ≡ ok after_bet
unfolding debit text_eq ◌-ℤ◌
one_debit = refl

History-facts_example : HistoryFacts wallet after_bet.1 (after_bet.0 ∷ [])
History-facts_example =
    History-facts wallet-IsValid (next begin (debited (eur 200) movement one_debit))

-- Transactions
abbrev waiting : WagerTransaction
waiting = record bet_transaction { status = pending; processed_at = none }

abbrev settled : WagerTransaction
settled = record waiting { status = Status.processed; processed_at = some 9 }

waiting_created : create bet_transaction.props ≡ ok waiting
unfolding create requires_reference_for
waiting_created = refl

waiting_processed : mark_processed none 9 waiting ≡ ok settled
unfolding mark_processed
waiting_processed = refl

settled_reached : Reach waiting settled
settled_reached = Reach.next Reach.here (processes none 9 waiting_processed)

Reach-IsWellFormed_example : IsWellFormed settled × (settled.props ≡ bet_transaction.props)
Reach-IsWellFormed_example =
    Reach-IsWellFormed bet_transaction.props waiting_created settled_reached

terminal_is_final_example : settled ≡ settled
unfolding is_terminal
terminal_is_final_example = terminal_is_final {tx = settled} {tx' = settled} refl Reach.here

abbrev rolling_back : WagerTransaction
rolling_back = record waiting { props = record waiting.props { kind = rollback } }

own_direction : ledger_direction_for settled none ≡ ok LedgerDirection.debit
unfolding ledger_direction_for direction_alone
own_direction = refl

abbrev after_settled : WalletLedgerEntry × Wallet
after_settled = moved_by LedgerDirection.debit wallet (pos 400) (eur 300) movement

settled_moved : debit wallet (eur 300) movement ≡ ok after_settled
unfolding debit text_eq ◌-ℤ◌
settled_moved = refl

reversal_undoes_example :
    (d : LedgerDirection) × (ledger_direction_for rolling_back (some settled) ≡ ok d)
    × Restores wallet after_settled.1 d (eur 300) movement
reversal_undoes_example =
    reversal_undoes rolling_back settled wallet after_settled.1 LedgerDirection.debit
      after_settled.0 movement movement wallet-IsValid (inl refl) refl own_direction settled_moved

reference_backoff_bounds_example :
    (5000 ≤ compute_reference_backoff_ms 2)
    × (compute_reference_backoff_ms 2 ≤ 300000)
    × (compute_reference_backoff_ms 3 ≡ min (2 * compute_reference_backoff_ms 2) 300000)
    × ((compute_reference_backoff_ms 2 ≡ 300000) ↔ (6 ≤ 2))
reference_backoff_bounds_example = reference_backoff_bounds 2

-- The outbox
abbrev pub message : OutboxMessage
message = enqueue (
    transaction_rejected (codes "m") settled
      (record { correlation_id = codes "c"; causation_id = none; now = 9 }))

abbrev retried : OutboxMessage
retried = record message { attempts = 1; next_attempt_at = some 1020 }

retry_scheduled : schedule_retry 20 message ≡ ok retried
unfolding schedule_retry enqueue is_pending
retry_scheduled = refl

abbrev published : OutboxMessage
published = record retried { published_at = some 2000 }

message_published : mark_published 2000 retried ≡ ok published
unfolding mark_published is_pending enqueue
message_published = refl

-- The mapper
transaction_round_trip_example : to_wager_transaction (to_transaction_row settled) ≡ ok settled
unfolding valid_currency
transaction_round_trip_example = transaction_round_trip settled refl
