-- ===== src/Kernel/Event.antt =====
-- src/shared/kernel/integration-event.ts, failure-code.ts and ledger-direction.ts. A `Date` is its
-- number of milliseconds since the epoch.
use distributed_wagering_pro.Prelude.{ℕ, Bool, Text, true, Option, codes, false}
use distributed_wagering_pro.Kernel.Money.{MoneyProps}

abbrev pub Timestamp : Type 0
Timestamp = ℕ

pub data LedgerDirection : Type 0 where
  debit credit : LedgerDirection

abbrev pub is_debit : LedgerDirection → Bool
is_debit debit = true
is_debit credit = false

pub data FailureCode : Type 0 where
  insufficient_balance rollback_insufficient_balance : FailureCode
  wallet_currency_mismatch : FailureCode
  reference_mismatch reference_invalid_kind reference_invalid_state : FailureCode
  reference_amount_mismatch reference_already_reversed reference_resolution_timeout : FailureCode
  persistence_failure : FailureCode

-- `EventContext`
pub record EventContext : Type 0 where
  pub correlation_id : Text
  pub causation_id : Option Text
  pub now : Timestamp

-- The fields of a transaction that its three events share in their `data`.
pub record TransactionData : Type 0 where
  pub transaction_id : Text
  pub provider_id : Text
  pub external_transaction_id : Text
  pub player_id : Text
  pub wallet_id : Text
  pub round_id : Text
  pub game_id : Text
  pub kind : Text
  pub money : MoneyProps

-- `WalletBalanceChangedData`
pub record BalanceChange : Type 0 where
  pub wallet_id : Text
  pub transaction_id : Text
  pub direction : LedgerDirection
  pub money : MoneyProps
  pub balance_before : MoneyProps
  pub balance_after : MoneyProps
  pub wallet_version : ℕ

-- The `data` of the four events. A failure code or a reference that the source reads by `!` is
-- `none` where it is `undefined`.
pub data EventData : Type 0 where
  processed : TransactionData → MoneyProps → EventData
  rejected : TransactionData → Option FailureCode → EventData
  pending_reference : TransactionData → Option Text → EventData
  balance_changed : BalanceChange → EventData

-- `eventType`, as each subclass sets it.
unfoldable pub event_type : EventData → Text
event_type (processed _ _) = codes "WagerTransactionProcessed"
event_type (rejected _ _) = codes "WagerTransactionRejected"
event_type (pending_reference _ _) = codes "WagerTransactionPendingReference"
event_type (balance_changed _) = codes "WalletBalanceChanged"

pub record IntegrationEvent : Type 0 where
  pub event_id : Text
  pub aggregate_id : Text
  pub correlation_id : Text
  pub causation_id : Option Text
  pub occurred_at : Timestamp
  pub content : EventData

-- `IntegrationEventEnvelope`
pub record Envelope : Type 0 where
  pub event_id : Text
  pub event_type : Text
  pub aggregate_id : Text
  pub correlation_id : Text
  pub causation_id : Option Text
  pub occurred_at : Timestamp
  pub version : ℕ
  pub content : EventData

-- `IntegrationEvent.toJSON`; every subclass has `version = 1`.
unfoldable pub to_json : IntegrationEvent → Envelope
unfolding event_type
to_json e = record {
  event_id = e.event_id;
  event_type = event_type e.content;
  aggregate_id = e.aggregate_id;
  correlation_id = e.correlation_id;
  causation_id = e.causation_id;
  occurred_at = e.occurred_at;
  version = 1;
  content = e.content;
}
