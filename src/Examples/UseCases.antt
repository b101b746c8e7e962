-- ===== src/Examples/UseCases.antt =====
-- Examples on the use cases that change what is stored.
use distributed_wagering_pro.Wagering.Submit.Balance.{execute-IsBalanced}
use distributed_wagering_pro.Wagering.Submit
use distributed_wagering_pro.Wagering.Submit.Replay.{execute-replays, replayed}
use distributed_wagering_pro.Wagering.Reprocess.Balance.{run-IsBalanced}
use distributed_wagering_pro.Wagering.Reprocess.{run, process_one}
use distributed_wagering_pro.Wagering.Reprocess.Ends.{retries_end, none_yet, one_more}
use distributed_wagering_pro.Wagering.Transaction.{pending_reference}
use distributed_wagering_pro.Wallets.Open.Balance.{opening-IsBalanced}
use distributed_wagering_pro.Wallets.Open
use distributed_wagering_pro.Wagering.Finalizer.{new_movement, apply_effect, mark_pending_reference}
use distributed_wagering_pro.Wagering.Transaction.{
  bet, refund, pending, create, WagerTransaction, requires_reference_for, rehydrate, is_terminal,
}
use distributed_wagering_pro.Wagering.Repository.{find_by_idempotency_key, find_one, find_by_id}
use distributed_wagering_pro.Prelude.{
  Text, codes, text_eq, ◌≡◌, arith, some, none, refl, ◌∷◌, [], ◌≤◌,
}
use distributed_wagering_pro.Wagering.Submit.{
  Clock, Command, locked_wallet, create_props, locked_from, hash_input, lock_wallet, count_conflict,
}
use distributed_wagering_pro.Persistence.Balanced.{IsBalanced}
use distributed_wagering_pro.Examples.Stored.{
  world, bet_transaction, eur, world-IsBalanced, wallet, bet_row, wallet_row,
}
use distributed_wagering_pro.Wallets.Open.{OpenWalletCommand}
use distributed_wagering_pro.Examples.Database.{platform, platform-RefusesTakenKeys}
use distributed_wagering_pro.Wagering.PayloadHash.{compute_payload_hash}
use distributed_wagering_pro.Wagering.Row.{to_wager_transaction, TransactionRow, to_transaction_row}
use distributed_wagering_pro.Kernel.Errors.{ok}
use distributed_wagering_pro.Kernel.Money.{from_minor_units}
use distributed_wagering_pro.Wallets.Rows.{to_wallet}
use distributed_wagering_pro.Persistence.World.{World}
use distributed_wagering_pro.Kernel.Event.{EventContext}
use distributed_wagering_pro.Wagering.Finalizer.Bet.{bet_result, apply_effect-bet}
use distributed_wagering_pro.Persistence.Effect.{pair_path}

abbrev command : Text → Text → Command
command external key = record {
  provider_id = codes "prov";
  external_transaction_id = external;
  idempotency_key = key;
  player_id = codes "p";
  wallet_id = codes "w";
  round_id = codes "r";
  game_id = codes "g";
  kind = bet;
  money = eur 200;
  reference_external_transaction_id = none;
  correlation_id = none;
  causation_id = none;
}

abbrev clock : Clock
clock = record { now = 10; lock_wait_ns = 0 }

-- A bet of 2.00 with a new key.
execute-IsBalanced_example :
    IsBalanced platform (Submit.execute (command (codes "y") (codes "k2")) clock world).1
execute-IsBalanced_example =
    execute-IsBalanced (command (codes "y") (codes "k2")) clock world world-IsBalanced

-- A bet with the key of the stored one, and another payload.
abbrev repeated : Command
repeated = command (codes "x") (codes "k")

abbrev made : WagerTransaction
made = record {
  props =
      create_props repeated (compute_payload_hash platform (hash_input repeated))
        (platform.new_id 0) 10;
  status = pending;
  reference_transaction_id = none;
  failure_code = none;
  processed_at = none;
  reference_retry_attempts = 0;
  next_reference_retry_at = none;
}

wallet_locked : locked_wallet repeated clock world ≡ (ok wallet, world)
unfolding locked_wallet locked_from find_by_id lock_wallet count_conflict text_eq to_wallet
    from_minor_units rehydrate
wallet_locked = refl

bet_found : (find_by_idempotency_key (codes "k") world).0 ≡ ok (some bet_transaction)
unfolding find_by_idempotency_key find_one text_eq to_wager_transaction from_minor_units
bet_found = refl

can_be_made :
    create (
      create_props repeated
        (compute_payload_hash platform (hash_input repeated))
        (platform.new_id world.ids)
        10)
    ≡ ok made
unfolding create requires_reference_for create_props
can_be_made = refl

execute-replays_example :
    ((Submit.execute repeated clock world).0
      ≡ replayed repeated
          (compute_payload_hash platform (hash_input repeated))
          bet_transaction
          wallet)
    × ((Submit.execute repeated clock world).1.em ≡ world.em)
execute-replays_example =
    execute-replays platform-RefusesTakenKeys repeated clock world world bet_transaction made wallet
      refl wallet_locked bet_found refl can_be_made

run-IsBalanced_example : IsBalanced platform (run 100 20 world).1
run-IsBalanced_example = run-IsBalanced 100 20 world world-IsBalanced

abbrev opening : OpenWalletCommand
opening = record { player_id = codes "q"; initial_balance = eur 500 }

opening-IsBalanced_example : IsBalanced platform (Open.execute opening 20 world).1
opening-IsBalanced_example =
    opening-IsBalanced opening 20 world (omega arith) ((λ e. cc, tt), (λ e. cc, (λ e. cc, tt)))
      world-IsBalanced

-- A bet of 3.00 that has been claimed.
abbrev claimed_bet : WagerTransaction
claimed_bet = record bet_transaction { status = pending; processed_at = none }

abbrev claimed_row : TransactionRow
claimed_row = record bet_row { status = pending; processed_at = none }

abbrev claimed_world : World platform
claimed_world = record world { em = record world.em { transactions = claimed_row ∷ [] } }

abbrev bet_context : EventContext
bet_context = record { correlation_id = codes "c"; causation_id = none; now = 10 }

apply_effect-bet_example :
    (apply_effect claimed_bet wallet none bet_context claimed_world).0
    ≡ ok (
        bet_result claimed_bet bet_context wallet
          (new_movement claimed_bet bet_context (platform.new_id 0)))
unfolding is_terminal text_eq
apply_effect-bet_example =
    apply_effect-bet claimed_bet bet_context wallet claimed_world wallet_row claimed_row
      (record { one_currency = refl; nonneg = omega arith }) refl refl refl refl refl refl

-- A refund whose reference is not there: created, parked, and taken up once.
abbrev lost_refund : WagerTransaction
lost_refund = record bet_transaction {
  status = pending;
  processed_at = none;
  props = record bet_transaction.props {
    id = codes "t2";
    idempotency_key = codes "k3";
    kind = refund;
    reference_external_transaction_id = some (codes "missing");
  };
}

abbrev lost_world : World platform
lost_world = record world {
  em = record world.em { transactions = bet_row ∷ to_transaction_row lost_refund ∷ [] };
}

lost_created : create lost_refund.props ≡ ok lost_refund
unfolding create requires_reference_for
lost_created = refl

abbrev parked : WagerTransaction
parked = record lost_refund {
  status = pending_reference;
  reference_retry_attempts = 1;
  next_reference_retry_at = some 5010;
}

abbrev parked_world : World platform
parked_world = (mark_pending_reference lost_refund bet_context lost_world).1

lost_parked : (mark_pending_reference lost_refund bet_context lost_world).0 ≡ ok parked
unfolding mark_pending_reference text_eq
lost_parked = refl

abbrev put_off : WagerTransaction
put_off = record parked { reference_retry_attempts = 2; next_reference_retry_at = some 16000 }

put_off_once : (process_one parked 6000 parked_world).0 ≡ ok put_off
unfolding process_one mark_pending_reference text_eq create_props
put_off_once = refl

retries_end_example : ◌≤◌ 1 10
unfolding is_terminal
retries_end_example =
    retries_end lost_refund.props {u = put_off} bet_context lost_world parked_world lost_created
      (pair_path lost_parked)
      (one_more parked_world (process_one parked 6000 parked_world).1 none_yet refl 6000
        (pair_path put_off_once))
