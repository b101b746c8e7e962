-- ===== src/Wagering/Transaction.antt =====
-- src/wagering/domain/wager-transaction.ts, with the enumerations of its kind and status.
pub mod Lifecycle
use distributed_wagering_pro.Kernel.Money.{Money}
use distributed_wagering_pro.Prelude.{
  Text, Bool, Option, codes, true, ℕ, ◌||◌, ◌++◌, not, text_eq, false, none, some, ◌+◌, is_empty,
  ◌&&◌,
}
use distributed_wagering_pro.Kernel.Errors.{
  Result, ensure, ok, ◌>>=◌, ◌>>◌, invariant_violation, invalid_transaction_state, throw,
  missing_reference,
}
use distributed_wagering_pro.Kernel.Event.{Timestamp, FailureCode, LedgerDirection, credit, debit}

-- `WagerTransactionKind`
pub data Kind : Type 0 where
  opening bet win loss refund rollback : Kind

-- The values of the enumeration.
unfoldable pub kind_text : Kind → Text
kind_text opening = codes "OPENING"
kind_text bet = codes "BET"
kind_text win = codes "WIN"
kind_text loss = codes "LOSS"
kind_text refund = codes "REFUND"
kind_text rollback = codes "ROLLBACK"

-- `===` on kinds
abbrev pub kind_eq : Kind → Kind → Bool
kind_eq opening opening = true
kind_eq bet bet = true
kind_eq win win = true
kind_eq loss loss = true
kind_eq refund refund = true
kind_eq rollback rollback = true
kind_eq _ _ = false

-- `WagerTransactionStatus`
pub data Status : Type 0 where
  pending pending_reference processed rejected failed : Status

unfoldable pub status_text : Status → Text
status_text pending = codes "PENDING"
status_text pending_reference = codes "PENDING_REFERENCE"
status_text processed = codes "PROCESSED"
status_text rejected = codes "REJECTED"
status_text failed = codes "FAILED"

-- `CreateWagerTransactionProps`
pub record CreateProps : Type 0 where
  pub id : Text
  pub provider_id : Text
  pub external_transaction_id : Text
  pub idempotency_key : Text
  pub payload_hash : Text
  pub wallet_id : Text
  pub player_id : Text
  pub round_id : Text
  pub game_id : Text
  pub kind : Kind
  pub money : Money
  pub reference_external_transaction_id : Option Text
  pub created_at : Timestamp

-- `CreateOpeningWagerTransactionProps`
pub record CreateOpeningProps : Type 0 where
  pub id : Text
  pub wallet_id : Text
  pub player_id : Text
  pub money : Money
  pub now : Timestamp

-- `WagerTransaction`, and `WagerTransactionState`, which has the same fields: those of the props,
-- and those that change.
pub record WagerTransaction : Type 0 where
  pub props : CreateProps
  pub open props use *
  pub status : Status
  pub reference_transaction_id : Option Text
  pub failure_code : Option FailureCode
  pub processed_at : Option Timestamp
  pub reference_retry_attempts : ℕ
  pub next_reference_retry_at : Option Timestamp

unfoldable pub requires_reference_for : Kind → Bool
requires_reference_for kind = kind_eq kind refund || kind_eq kind rollback

-- A missing string and the empty one are falsy.
abbrev pub is_falsy : Option Text → Bool
is_falsy none = true
is_falsy (some s) = is_empty s

-- `WagerTransaction.create`
unfoldable pub create : CreateProps → Result WagerTransaction
unfolding requires_reference_for kind_text
create props = do
  ensure (not (kind_eq props.kind opening)) invariant_violation
  ensure
      (not (requires_reference_for props.kind && is_falsy props.reference_external_transaction_id))
      (missing_reference (kind_text props.kind))
  ok (record {
    props = props;
    status = pending;
    reference_transaction_id = none;
    failure_code = none;
    processed_at = none;
    reference_retry_attempts = 0;
    next_reference_retry_at = none;
  })

unfoldable pub create_opening : CreateOpeningProps → WagerTransaction
create_opening o = record {
  props = record {
    id = o.id;
    provider_id = codes "internal";
    external_transaction_id = o.id;
    idempotency_key = codes "opening:" ++ o.wallet_id;
    payload_hash = codes "internal";
    wallet_id = o.wallet_id;
    player_id = o.player_id;
    round_id = codes "internal";
    game_id = codes "internal";
    kind = opening;
    money = o.money;
    reference_external_transaction_id = none;
    created_at = o.now;
  };
  status = processed;
  reference_transaction_id = none;
  failure_code = none;
  processed_at = some o.now;
  reference_retry_attempts = 0;
  next_reference_retry_at = none;
}

unfoldable pub rehydrate : WagerTransaction → WagerTransaction
rehydrate state = state

abbrev pub is_terminal_status : Status → Bool
is_terminal_status processed = true
is_terminal_status rejected = true
is_terminal_status failed = true
is_terminal_status _ = false

unfoldable pub is_terminal : WagerTransaction → Bool
is_terminal tx = is_terminal_status tx.status

unfoldable pub assert_not_terminal : Text → WagerTransaction → Result (Unit {0})
unfolding is_terminal status_text
assert_not_terminal attempted tx =
    ensure (not (is_terminal tx)) (invalid_transaction_state (status_text tx.status) attempted)

unfoldable pub mark_processed : Option Text → Timestamp → WagerTransaction → Result WagerTransaction
unfolding assert_not_terminal
mark_processed reference at tx = do
  assert_not_terminal (codes "markProcessed") tx
  ok (record tx {
    status = processed;
    reference_transaction_id = reference;
    processed_at = some at;
  })

unfoldable pub mark_pending_reference : Timestamp → WagerTransaction → Result WagerTransaction
unfolding assert_not_terminal
mark_pending_reference next_retry_at tx = do
  assert_not_terminal (codes "markPendingReference") tx
  ok (record tx {
    status = pending_reference;
    reference_retry_attempts = tx.reference_retry_attempts + 1;
    next_reference_retry_at = some next_retry_at;
  })

unfoldable pub reject : FailureCode → Timestamp → WagerTransaction → Result WagerTransaction
unfolding assert_not_terminal
reject failure at tx = do
  assert_not_terminal (codes "reject") tx
  ok (record tx { status = rejected; failure_code = some failure; processed_at = some at })

unfoldable pub fail : FailureCode → Timestamp → WagerTransaction → Result WagerTransaction
unfolding assert_not_terminal
fail failure at tx = do
  assert_not_terminal (codes "fail") tx
  ok (record tx { status = failed; failure_code = some failure; processed_at = some at })

unfoldable pub affects_balance : WagerTransaction → Bool
affects_balance tx = not (kind_eq tx.kind loss)

unfoldable pub requires_reference : WagerTransaction → Bool
unfolding requires_reference_for
requires_reference tx = requires_reference_for tx.kind

unfoldable pub matches_payload : Text → WagerTransaction → Bool
matches_payload payload_hash tx = text_eq tx.payload_hash payload_hash

-- `ledgerDirectionFor()` with no reference, by the transaction's kind.
unfoldable pub direction_alone : Kind → Result LedgerDirection
direction_alone opening = ok credit
direction_alone win = ok credit
direction_alone refund = ok credit
direction_alone bet = ok debit
direction_alone rollback = throw invariant_violation
direction_alone loss = throw invariant_violation

abbrev pub opposite : LedgerDirection → LedgerDirection
opposite debit = credit
opposite credit = debit

abbrev direction_with : Kind → Kind → Result LedgerDirection
direction_with rollback reference = direction_alone reference >>= λ d. ok (opposite d)
direction_with kind reference = direction_alone kind

-- The call on the reference passes no reference on, so two levels are all.
unfoldable pub ledger_direction_for :
    WagerTransaction → Option WagerTransaction → Result LedgerDirection
unfolding direction_alone
ledger_direction_for tx none = direction_alone tx.kind
ledger_direction_for tx (some reference) = direction_with tx.kind reference.kind
