-- ===== src/Wagering/Row.antt =====
-- src/wagering/infrastructure/persistence: the row of a transaction, and the mapper.
pub mod RoundTrip
use distributed_wagering_pro.Kernel.Money
use distributed_wagering_pro.Wagering.Transaction
use distributed_wagering_pro.Prelude.{Text, ℤ, Option, ℕ}
use distributed_wagering_pro.Kernel.Errors.{Result, ◌>>=◌, ok}
use distributed_wagering_pro.Wagering.Transaction.{WagerTransaction, Kind, Status}
use distributed_wagering_pro.Kernel.Event.{FailureCode, Timestamp}

-- wager-transaction.entity.ts
pub record TransactionRow : Type 0 where
  pub id : Text
  pub provider_id : Text
  pub external_transaction_id : Text
  pub idempotency_key : Text
  pub payload_hash : Text
  pub wallet_id : Text
  pub player_id : Text
  pub round_id : Text
  pub game_id : Text
  pub kind : Kind
  pub money_amount : ℤ
  pub money_currency : Text
  pub reference_external_transaction_id : Option Text
  pub reference_transaction_id : Option Text
  pub status : Status
  pub failure_code : Option FailureCode
  pub created_at : Timestamp
  pub processed_at : Option Timestamp
  pub reference_retry_attempts : ℕ
  pub next_reference_retry_at : Option Timestamp

-- `toWagerTransactionDomain`
unfoldable pub to_wager_transaction : TransactionRow → Result WagerTransaction
unfolding Money.from_minor_units Transaction.rehydrate
to_wager_transaction row = do
  money ← Money.from_minor_units row.money_amount row.money_currency
  ok (
      Transaction.rehydrate (record {
        props = record {
          id = row.id;
          provider_id = row.provider_id;
          external_transaction_id = row.external_transaction_id;
          idempotency_key = row.idempotency_key;
          payload_hash = row.payload_hash;
          wallet_id = row.wallet_id;
          player_id = row.player_id;
          round_id = row.round_id;
          game_id = row.game_id;
          kind = row.kind;
          money = money;
          reference_external_transaction_id = row.reference_external_transaction_id;
          created_at = row.created_at;
        };
        status = row.status;
        reference_transaction_id = row.reference_transaction_id;
        failure_code = row.failure_code;
        processed_at = row.processed_at;
        reference_retry_attempts = row.reference_retry_attempts;
        next_reference_retry_at = row.next_reference_retry_at;
      }))

-- `toWagerTransactionEntity`
unfoldable pub to_transaction_row : WagerTransaction → TransactionRow
unfolding Money.to_minor_units
to_transaction_row tx = record {
  id = tx.id;
  provider_id = tx.provider_id;
  external_transaction_id = tx.external_transaction_id;
  idempotency_key = tx.idempotency_key;
  payload_hash = tx.payload_hash;
  wallet_id = tx.wallet_id;
  player_id = tx.player_id;
  round_id = tx.round_id;
  game_id = tx.game_id;
  kind = tx.kind;
  money_amount = Money.to_minor_units tx.money;
  money_currency = tx.money.currency;
  reference_external_transaction_id = tx.reference_external_transaction_id;
  reference_transaction_id = tx.reference_transaction_id;
  status = tx.status;
  failure_code = tx.failure_code;
  created_at = tx.created_at;
  processed_at = tx.processed_at;
  reference_retry_attempts = tx.reference_retry_attempts;
  next_reference_retry_at = tx.next_reference_retry_at;
}
