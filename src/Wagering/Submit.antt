-- ===== src/Wagering/Submit.antt =====
-- src/wagering/application/use-cases/submit-wager-transaction.use-case.ts. The clock is an argument:
-- the time of the request, and how long the wait for the wallet's lock took. That is a difference
-- of `performance.now()`, a fraction of milliseconds, and is counted in nanoseconds here. The
-- durations that go to histograms are left out.
pub mod Lock
pub mod Writes
pub mod Balance
pub mod Replay
pub mod Refund
pub mod Twice
use distributed_wagering_pro.Kernel.Money
use distributed_wagering_pro.Kernel.Money.{Money}
use distributed_wagering_pro.Wagering.Finalizer
use distributed_wagering_pro.Wagering.Resolution
use distributed_wagering_pro.Wagering.Resolution.{
  ReferenceResolution, resolved, unresolved, refused,
}
use distributed_wagering_pro.Wagering.Repository
use distributed_wagering_pro.Wagering.Transaction
use distributed_wagering_pro.Wallets.Repository as Wallets
use distributed_wagering_pro.Prelude.{
  Text, Option, Bool, ℕ, false, if◌then◌else◌, some, ltb, none, codes, text_eq, [], true,
}
use distributed_wagering_pro.Wagering.Transaction.{
  WagerTransaction, kind_text, Kind, CreateProps, requires_reference, matches_payload, kind_eq,
  opening,
}
use distributed_wagering_pro.Kernel.Event.{Timestamp, EventContext}
use distributed_wagering_pro.Persistence.World.{Platform, App}
use distributed_wagering_pro.Wagering.PayloadHash.{PayloadHashInput, compute_payload_hash}
use distributed_wagering_pro.Wallets.Wallet.{Wallet}
use distributed_wagering_pro.Kernel.Errors.{
  Error, domain, unique_constraint_violation, wallet_not_found, ensure, transient_processing,
  idempotency_conflict, invariant_violation, wallet_player_mismatch,
}
use distributed_wagering_pro.Persistence.Effect.{
  throws, ◌>>◌, ◌>>=◌, pure, lift, new_id, increment_counter, catches, transactional,
}

-- `SubmitWagerTransactionCommand`
pub record Command : Type 0 where
  pub provider_id : Text
  pub external_transaction_id : Text
  pub idempotency_key : Text
  pub player_id : Text
  pub wallet_id : Text
  pub round_id : Text
  pub game_id : Text
  pub kind : Kind
  pub money : Money
  pub reference_external_transaction_id : Option Text
  pub correlation_id : Option Text
  pub causation_id : Option Text

-- `SubmitWagerTransactionResult`
pub record Submitted : Type 0 where
  pub transaction : WagerTransaction
  pub idempotent_replay : Bool
  pub balance : Money

pub record Clock : Type 0 where
  pub now : Timestamp
  pub lock_wait_ns : ℕ

unfoldable pub hash_input : Command → PayloadHashInput
unfolding kind_text Money.to_json
hash_input cmd = record {
  provider_id = cmd.provider_id;
  external_transaction_id = cmd.external_transaction_id;
  player_id = cmd.player_id;
  wallet_id = cmd.wallet_id;
  round_id = cmd.round_id;
  game_id = cmd.game_id;
  kind = kind_text cmd.kind;
  money = Money.to_json cmd.money;
  reference_external_transaction_id = cmd.reference_external_transaction_id;
}

unfoldable pub create_props : Command → Text → Text → Timestamp → CreateProps
create_props cmd payload_hash id now = record {
  id = id;
  provider_id = cmd.provider_id;
  external_transaction_id = cmd.external_transaction_id;
  idempotency_key = cmd.idempotency_key;
  payload_hash = payload_hash;
  wallet_id = cmd.wallet_id;
  player_id = cmd.player_id;
  round_id = cmd.round_id;
  game_id = cmd.game_id;
  kind = cmd.kind;
  money = cmd.money;
  reference_external_transaction_id = cmd.reference_external_transaction_id;
  created_at = now;
}

abbrev submitted : WagerTransaction × Wallet → Submitted
submitted (tx, wallet) = record {
  transaction = tx;
  idempotent_replay = false;
  balance = wallet.balance;
}

-- `wallet?.balance ?? cmd.money`
abbrev balance_or : Money → Option Wallet → Money
balance_or money none = money
balance_or money (some wallet) = wallet.balance

module _ {P : Platform} where
  -- `cmd.correlationId ?? newId()`
  unfoldable pub correlation : Option Text → App P Text
  correlation none = new_id
  correlation (some id) = pure id

  unfoldable pub count_conflict : ℕ → App P (Unit {0})
  count_conflict lock_wait_ns =
      if ltb 5_000_000 lock_wait_ns
      then increment_counter (codes "wallet_lock_conflicts_total") []
      else pure tt

  unfoldable pub lock_wallet : Text → Option Wallet → App P Wallet
  lock_wallet id none = throws (domain (wallet_not_found id))
  lock_wallet id (some wallet) = pure wallet

  unfoldable pub resolve :
      ReferenceResolution
      → WagerTransaction
      → Wallet
      → EventContext
      → App P (WagerTransaction × Wallet)
  unfolding Finalizer.mark_pending_reference Finalizer.reject Finalizer.apply_effect
  resolve unresolved tx wallet ctx = do
    marked ← Finalizer.mark_pending_reference tx ctx
    pure (marked, wallet)
  resolve (refused failure) tx wallet ctx = do
    marked ← Finalizer.reject tx failure ctx
    pure (marked, wallet)
  resolve (resolved reference) tx wallet ctx = Finalizer.apply_effect tx wallet (some reference) ctx

  unfoldable pub settle_claimed :
      WagerTransaction → Wallet → EventContext → App P (WagerTransaction × Wallet)
  unfolding requires_reference Resolution.resolve_reference resolve Finalizer.apply_effect
  settle_claimed tx wallet ctx =
      if requires_reference tx
      then (do resolution ← Resolution.resolve_reference tx; resolve resolution tx wallet ctx)
      else Finalizer.apply_effect tx wallet none ctx

  unfoldable pub locked_from : Command → Clock → Option Wallet → App P Wallet
  unfolding count_conflict lock_wallet
  locked_from cmd clock found = do
    count_conflict clock.lock_wait_ns
    wallet ← lock_wallet cmd.wallet_id found
    lift (
        ensure (text_eq wallet.player_id cmd.player_id)
          (wallet_player_mismatch cmd.wallet_id cmd.player_id))
    pure wallet

  -- `processNew` up to the check of the player: the wallet, locked.
  unfoldable pub locked_wallet : Command → Clock → App P Wallet
  unfolding Wallets.find_by_id locked_from
  locked_wallet cmd clock = Wallets.find_by_id cmd.wallet_id >>= locked_from cmd clock

  unfoldable pub claimed : Command → Text → Clock → App P WagerTransaction
  unfolding create_props Transaction.create Repository.claim
  claimed cmd payload_hash clock = do
    id ← new_id
    tx ← lift (Transaction.create (create_props cmd payload_hash id clock.now))
    Repository.claim tx
    pure tx

  unfoldable pub event_context : Command → Clock → App P EventContext
  unfolding correlation
  event_context cmd clock = do
    correlation_id ← correlation cmd.correlation_id
    pure (record {
      correlation_id = correlation_id;
      causation_id = cmd.causation_id;
      now = clock.now;
    })

  unfoldable pub process_new : Command → Text → Clock → App P Submitted
  unfolding locked_wallet claimed event_context settle_claimed
  process_new cmd payload_hash clock = do
    wallet ← locked_wallet cmd clock
    tx ← claimed cmd payload_hash clock
    ctx ← event_context cmd clock
    settled ← settle_claimed tx wallet ctx
    pure (submitted settled)

  unfoldable pub replay : Command → Text → WagerTransaction → App P Submitted
  unfolding matches_payload Wallets.find_by_id
  replay cmd payload_hash by_key = do
    lift (ensure (matches_payload payload_hash by_key) (idempotency_conflict cmd.idempotency_key))
    increment_counter (codes "wager_transactions_idempotent_replays_total") []
    wallet ← Wallets.find_by_id by_key.wallet_id
    pure (record {
      transaction = by_key;
      idempotent_replay = true;
      balance = balance_or cmd.money wallet;
    })

  unfoldable pub lost_race : Command → Option WagerTransaction → App P Submitted
  lost_race cmd none = throws (domain transient_processing)
  lost_race cmd (some _) = throws (domain (idempotency_conflict cmd.idempotency_key))

  unfoldable pub replay_or_conflict : Command → Text → Option WagerTransaction → App P Submitted
  unfolding replay lost_race Repository.find_by_provider_and_external_id
  replay_or_conflict cmd payload_hash (some by_key) = replay cmd payload_hash by_key
  replay_or_conflict cmd payload_hash none = do
    by_external ←
        Repository.find_by_provider_and_external_id cmd.provider_id cmd.external_transaction_id
    lost_race cmd by_external

  unfoldable pub handle_claim_conflict : Command → Text → App P Submitted
  unfolding Repository.find_by_idempotency_key replay_or_conflict
  handle_claim_conflict cmd payload_hash = do
    by_key ← Repository.find_by_idempotency_key cmd.idempotency_key
    replay_or_conflict cmd payload_hash by_key

  unfoldable pub on_unique_violation : Command → Text → Error → App P Submitted
  unfolding handle_claim_conflict
  on_unique_violation cmd payload_hash unique_constraint_violation =
      handle_claim_conflict cmd payload_hash
  on_unique_violation cmd payload_hash e = throws e

  unfoldable pub execute : Command → Clock → App P Submitted
  unfolding hash_input compute_payload_hash process_new on_unique_violation
  execute cmd clock =
      if kind_eq cmd.kind opening
      then throws (domain invariant_violation)
      else let payload_hash = compute_payload_hash P (hash_input cmd) in
        catches (transactional (process_new cmd payload_hash clock))
          (on_unique_violation cmd payload_hash)
