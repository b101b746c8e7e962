-- ===== src/Examples/Refund.antt =====
-- Examples on the refund of a stored bet, and on a second one.
use distributed_wagering_pro.Wagering.Submit.Refund.{settle_claimed-refund}
use distributed_wagering_pro.Wagering.Submit.{settle_claimed}
use distributed_wagering_pro.Wagering.Finalizer.{new_movement}
use distributed_wagering_pro.Wagering.Resolution.{resolve_reference, resolved}
use distributed_wagering_pro.Wagering.Finalizer.Outcome.{processed_at, rejected_at}
use distributed_wagering_pro.Wagering.Resolution.Reference.{IsReference, IsCandidate}
use distributed_wagering_pro.Wagering.Resolution.Reversed.{IsReversal}
use distributed_wagering_pro.Wagering.Submit.Twice.{settle_claimed-twice}
use distributed_wagering_pro.Persistence.Balanced.{SameMoney}
use distributed_wagering_pro.Kernel.Money.{from_minor_units}
use distributed_wagering_pro.Wagering.Resolution.Resolves.{resolved_iff}
use distributed_wagering_pro.Wagering.Repository.{find_one}
use distributed_wagering_pro.Wagering.Row.{TransactionRow, to_wager_transaction}
use distributed_wagering_pro.Wagering.Transaction.{
  WagerTransaction, refund, pending, processed, is_terminal,
}
use distributed_wagering_pro.Wallets.Wallet.Laws.{with_balance}
use distributed_wagering_pro.Kernel.Errors.{ok}
use distributed_wagering_pro.Kernel.Event.{EventContext, reference_already_reversed}
use distributed_wagering_pro.Persistence.World.{World}
use distributed_wagering_pro.Persistence.Ordering.{Distinct}
use distributed_wagering_pro.Persistence.Schema.{same_external_id, same_reversal}
use distributed_wagering_pro.Examples.Database.{platform}
use distributed_wagering_pro.Examples.Stored.{world, bet_transaction, bet_row, wallet, wallet_row}
use distributed_wagering_pro.Prelude.{
  codes, text_eq, ◌≡◌, ◌↔◌, arith, some, none, refl, ◌∷◌, [], ◌+ℤ◌, pos, inl, inr,
}

-- A refund of the bet of 3.00, which has been claimed.
abbrev refund_transaction : WagerTransaction
refund_transaction = record bet_transaction {
  status = pending;
  processed_at = none;
  props = record bet_transaction.props {
    id = codes "u";
    external_transaction_id = codes "y";
    idempotency_key = codes "k2";
    kind = refund;
    reference_external_transaction_id = some (codes "x");
  };
}

abbrev refund_row : TransactionRow
refund_row = record bet_row {
  id = codes "u";
  external_transaction_id = codes "y";
  idempotency_key = codes "k2";
  kind = refund;
  status = pending;
  processed_at = none;
  reference_external_transaction_id = some (codes "x");
}

abbrev claimed_world : World platform
claimed_world = record world { em = record world.em { transactions = bet_row ∷ refund_row ∷ [] } }

-- The two external ids differ.
ids-Distinct : Distinct same_external_id (bet_row ∷ refund_row ∷ [])
unfolding text_eq
ids-Distinct = ((refl, tt), (tt, tt))

resolved_iff_example :
    (resolve_reference refund_transaction claimed_world
      ≡ (ok (resolved bet_transaction), claimed_world))
    ↔ IsReference claimed_world refund_transaction bet_transaction
resolved_iff_example =
    resolved_iff refund_transaction bet_transaction claimed_world ids-Distinct refl

bet_is_resolved :
    resolve_reference refund_transaction claimed_world
    ≡ (ok (resolved bet_transaction), claimed_world)
unfolding resolve_reference find_one text_eq
bet_is_resolved = refl

bet-IsReference : IsReference claimed_world refund_transaction bet_transaction
bet-IsReference =
    (resolved_iff refund_transaction bet_transaction claimed_world ids-Distinct refl).0
      bet_is_resolved

abbrev refund_context : EventContext
refund_context = record { correlation_id = codes "c"; causation_id = none; now = 10 }

settle_claimed-refund_example :
    (settle_claimed refund_transaction wallet refund_context claimed_world).0
    ≡ ok (
      processed_at (some bet_transaction) 10 refund_transaction,
      with_balance wallet
          (pos 700 +ℤ pos 300)
          (new_movement refund_transaction refund_context (platform.new_id 0)),
    )
unfolding is_terminal text_eq
settle_claimed-refund_example =
    settle_claimed-refund refund_transaction bet_transaction wallet refund_context claimed_world
      wallet_row refund_row ids-Distinct refl bet-IsReference (inl refl) refl
      (record { one_currency = refl; nonneg = omega arith }) refl refl refl refl refl

-- A second refund of the bet, after the first has been processed.
abbrev second_refund : WagerTransaction
second_refund = record refund_transaction {
  props = record refund_transaction.props {
    id = codes "v";
    external_transaction_id = codes "z";
    idempotency_key = codes "k3";
  };
}

abbrev refunded : WagerTransaction
refunded = processed_at (some bet_transaction) 8 refund_transaction

abbrev refunded_row : TransactionRow
refunded_row = record refund_row {
  status = processed;
  reference_transaction_id = some (codes "t");
  processed_at = some 8;
}

abbrev second_row : TransactionRow
second_row = record refund_row {
  id = codes "v";
  external_transaction_id = codes "z";
  idempotency_key = codes "k3";
}

abbrev refunded_world : World platform
refunded_world = record world {
  em = record world.em { transactions = bet_row ∷ refunded_row ∷ second_row ∷ [] };
}

bet-IsCandidate : IsCandidate refunded_world second_refund bet_transaction
unfolding to_wager_transaction from_minor_units
bet-IsCandidate = record {
  row = bet_row;
  is_stored = inl refl;
  is_read = refl;
  provider = refl;
  external_id = refl;
  player = refl;
  wallet = refl;
  round = refl;
  money = refl;
  refund_of_bet = inr refl;
  kind = inl refl;
  status = refl;
}

refunded-IsReversal : IsReversal refunded_world second_refund bet_transaction refunded
unfolding to_wager_transaction from_minor_units text_eq
refunded-IsReversal = record {
  row = refunded_row;
  is_stored = inr (inl refl);
  is_read = refl;
  reverses = refl;
}

three_ids-Distinct : Distinct same_external_id (bet_row ∷ refunded_row ∷ second_row ∷ [])
unfolding text_eq
three_ids-Distinct = ((refl, (refl, tt)), ((refl, tt), (tt, tt)))

reversed_once-Distinct : Distinct same_reversal (bet_row ∷ refunded_row ∷ second_row ∷ [])
unfolding text_eq
reversed_once-Distinct = ((refl, (refl, tt)), ((refl, tt), (tt, tt)))

settle_claimed-twice_example :
    ((settle_claimed second_refund wallet refund_context refunded_world).0
      ≡ ok (rejected_at 10 reference_already_reversed second_refund, wallet))
    × SameMoney refunded_world (settle_claimed second_refund wallet refund_context refunded_world).1
unfolding is_terminal text_eq
settle_claimed-twice_example =
    settle_claimed-twice second_refund bet_transaction refunded wallet refund_context refunded_world
      second_row three_ids-Distinct reversed_once-Distinct refl bet-IsCandidate refunded-IsReversal
      (inl refl) refl refl
