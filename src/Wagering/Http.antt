-- ===== src/Wagering/Http.antt =====
-- src/wagering/interface/http: the controller of wager transactions, and the views that it answers
-- with; and get-wager-transaction.use-case.ts. The clock is an argument.
use distributed_wagering_pro.Kernel.Money
use distributed_wagering_pro.Kernel.Money.{Money, MoneyProps}
use distributed_wagering_pro.Wagering.Repository
use distributed_wagering_pro.Wagering.Submit
use distributed_wagering_pro.Wagering.Submit.{Command, Clock, Submitted}
use distributed_wagering_pro.Wagering.Transaction.{WagerTransaction, Kind, Status}
use distributed_wagering_pro.Prelude.{Text, Bool, none, Option, some}
use distributed_wagering_pro.Persistence.World.{Platform, App}
use distributed_wagering_pro.Kernel.Event.{FailureCode}
use distributed_wagering_pro.Persistence.Effect.{◌>>=◌, lift, pure}

-- `SubmitWagerTransactionDto`
pub record SubmitDto : Type 0 where
  pub provider_id : Text
  pub external_transaction_id : Text
  pub idempotency_key : Text
  pub player_id : Text
  pub wallet_id : Text
  pub round_id : Text
  pub game_id : Text
  pub kind : Kind
  pub money : MoneyProps
  pub reference_external_transaction_id : Option Text

pub record WagerTransactionView : Type 0 where
  pub id : Text
  pub provider_id : Text
  pub external_transaction_id : Text
  pub wallet_id : Text
  pub player_id : Text
  pub round_id : Text
  pub game_id : Text
  pub kind : Kind
  pub money : MoneyProps
  pub status : Status
  pub reference_transaction_id : Option Text
  pub failure_code : Option FailureCode
  pub processed_at : Option Text
  pub created_at : Text

pub record SubmitView : Type 0 where
  pub transaction : WagerTransactionView
  pub idempotent_replay : Bool
  pub balance : MoneyProps

unfoldable pub command_of : SubmitDto → Money → Command
command_of dto money = record {
  provider_id = dto.provider_id;
  external_transaction_id = dto.external_transaction_id;
  idempotency_key = dto.idempotency_key;
  player_id = dto.player_id;
  wallet_id = dto.wallet_id;
  round_id = dto.round_id;
  game_id = dto.game_id;
  kind = dto.kind;
  money = money;
  reference_external_transaction_id = dto.reference_external_transaction_id;
  correlation_id = none;
  causation_id = none;
}

-- `tx.processedAt?.toISOString()`, and the view of what was found.
abbrev map_some : {A B : Type 0} → (A → B) → Option A → Option B
map_some f none = none
map_some f (some a) = some (f a)

unfoldable pub to_wager_transaction_view : Platform → WagerTransaction → WagerTransactionView
unfolding Money.to_json
to_wager_transaction_view P tx = record {
  id = tx.id;
  provider_id = tx.provider_id;
  external_transaction_id = tx.external_transaction_id;
  wallet_id = tx.wallet_id;
  player_id = tx.player_id;
  round_id = tx.round_id;
  game_id = tx.game_id;
  kind = tx.kind;
  money = Money.to_json tx.money;
  status = tx.status;
  reference_transaction_id = tx.reference_transaction_id;
  failure_code = tx.failure_code;
  processed_at = map_some P.iso_string tx.processed_at;
  created_at = P.iso_string tx.created_at;
}

abbrev pub submit_view : Platform → Submitted → SubmitView
submit_view P result = record {
  transaction = to_wager_transaction_view P result.transaction;
  idempotent_replay = result.idempotent_replay;
  balance = Money.to_json result.balance;
}

module _ {P : Platform} where
  unfoldable pub submit_transaction : SubmitDto → Clock → App P SubmitView
  unfolding Money.from command_of Submit.execute to_wager_transaction_view Money.to_json
  submit_transaction dto clock = do
    money ← lift (Money.from dto.money)
    result ← Submit.execute (command_of dto money) clock
    pure (submit_view P result)

  -- `GetWagerTransactionUseCase.byId`
  unfoldable pub by_id : Text → App P (Option WagerTransaction)
  unfolding Repository.find_by_id
  by_id transaction_id = Repository.find_by_id transaction_id

  unfoldable pub by_provider_and_external_id : Text → Text → App P (Option WagerTransaction)
  unfolding Repository.find_by_provider_and_external_id
  by_provider_and_external_id provider_id external_transaction_id =
      Repository.find_by_provider_and_external_id provider_id external_transaction_id

  -- `none` is the `NotFoundException`.
  unfoldable pub get_by_id : Text → App P (Option WagerTransactionView)
  unfolding by_id to_wager_transaction_view
  get_by_id id = do tx ← by_id id; pure (map_some (to_wager_transaction_view P) tx)
