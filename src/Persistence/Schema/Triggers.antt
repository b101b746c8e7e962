-- ===== src/Persistence/Schema/Triggers.antt =====
-- migrations/Migration20260916134109.ts and Migration20260916134723.ts: the triggers on updates. A
-- trigger answers the row that is written, or none where it raises an exception.
use native.Mathlib.Decide.{ℕ_discrete}
use distributed_wagering_pro.Prelude.{
  Bool, Option, some, none, if◌then◌else◌, ◌&&◌, ◌||◌, true, false, is_none, not, Text, ◌≡◌, ◌⊎◌,
}
use distributed_wagering_pro.Wallets.Rows.{LedgerRow}
use distributed_wagering_pro.Wagering.Row.{TransactionRow}
use distributed_wagering_pro.Wagering.Transaction.{is_terminal_status}
use distributed_wagering_pro.Messaging.Outbox.{OutboxMessage}
use distributed_wagering_pro.Kernel.Event.{Envelope}

pub Text-discrete : Discrete Text
Text-discrete = hlevel (ℕ_discrete)

pub Envelope-discrete : Discrete Envelope
Envelope-discrete = hlevel (ℕ_discrete)

pub TransactionRow-discrete : Discrete TransactionRow
TransactionRow-discrete = hlevel (ℕ_discrete)

-- `is distinct from`
abbrev pub is_distinct_from : {A : Type 0} → Discrete A → A → A → Bool
is_distinct_from discrete a b = elim (discrete a b) [ yes _ ↦ false | no _ ↦ true ]

-- Neither an update nor a deletion is allowed.
unfoldable pub reject_ledger_mutation : LedgerRow → LedgerRow → Option LedgerRow
reject_ledger_mutation old new = none

unfoldable pub reject_terminal_wager_transaction_mutation :
    TransactionRow → TransactionRow → Option TransactionRow
unfolding TransactionRow-discrete
reject_terminal_wager_transaction_mutation old new =
    if is_terminal_status old.status && is_distinct_from TransactionRow-discrete new old
    then none
    else some new

unfoldable pub reject_outbox_message_mutation : OutboxMessage → OutboxMessage → Option OutboxMessage
unfolding Text-discrete Envelope-discrete
reject_outbox_message_mutation old new =
    if not (is_none old.published_at)
    then none
    else if is_distinct_from Text-discrete new.id old.id
        || (is_distinct_from Text-discrete new.aggregate_id old.aggregate_id
            || (is_distinct_from Text-discrete new.event_type old.event_type
                || (is_distinct_from Envelope-discrete new.payload old.payload
                    || is_distinct_from ℕ_discrete new.occurred_at old.occurred_at)))
    then none
    else some new

-- The row is as it was, or is one that the trigger lets through.
abbrev pub Passes : {Row : Type 0} → (Row → Row → Option Row) → Row → Row → Type 0
Passes trigger r r' = (r' ≡ r) ⊎ (trigger r r' ≡ some r')
