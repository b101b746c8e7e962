-- ===== src/Wagering/Resolution/Reference.antt =====
-- src/wagering/application/wager-transaction-finalizer.ts: which references are resolved.
use distributed_wagering_pro.Wagering.Resolution.{
  resolved, resolve_reference, check_found, check_status, check_reversal, reversal_verdict,
  same_owner, valid_kind, text_of, processed,
}
use distributed_wagering_pro.Wagering.Repository
use distributed_wagering_pro.Wagering.Repository.Reads.{find_one-found, find_one-missing}
use distributed_wagering_pro.Persistence.World.{Platform, World}
use distributed_wagering_pro.Wagering.Transaction.{
  WagerTransaction, refund, bet, win, Status, pending, is_falsy,
}
use distributed_wagering_pro.Wagering.Row.{TransactionRow, to_wager_transaction}
use distributed_wagering_pro.Prelude.{
  ◌≡◌, Occurs, none, some, ◌⊎◌, All, false, true, arith, Option, text_eq_iff, refl, Bool-cases, inl,
  inr, ◌∙◌, ap, subst, ◌≢◌,
}
use distributed_wagering_pro.Kernel.Errors.{ok}
use distributed_wagering_pro.Kernel.Money.Laws.{equals_iff}
use distributed_wagering_pro.Persistence.Effect.{continue-ok}

-- What makes a transaction one that a refund or a rollback may refer to.
pub record IsCandidate {P : Platform} (w : World P) (tx reference : WagerTransaction) : Type 0 where
  pub row : TransactionRow
  pub is_stored : Occurs row (P.tables.transactions.rows w.em.transactions)
  pub is_read : to_wager_transaction row ≡ ok reference
  pub provider : row.provider_id ≡ tx.provider_id
  pub external_id : some row.external_transaction_id ≡ tx.reference_external_transaction_id
  pub player : reference.player_id ≡ tx.player_id
  pub wallet : reference.wallet_id ≡ tx.wallet_id
  pub round : reference.round_id ≡ tx.round_id
  pub money : tx.money ≡ reference.money
  pub refund_of_bet : (tx.kind ≢ refund) ⊎ (reference.kind ≡ bet)
  pub kind : (reference.kind ≡ bet) ⊎ ((reference.kind ≡ win) ⊎ (reference.kind ≡ refund))
  pub status : reference.status ≡ processed

-- It is the reference if it has not been reversed by a transaction of that kind.
pub record IsReference {P : Platform} (w : World P) (tx reference : WagerTransaction) : Type 0 where
  pub candidate : IsCandidate w tx reference
  pub not_reversed :
      All
        (λ r. Repository.is_processed_reversal reference.id tx.kind r ≡ false)
        (P.tables.transactions.rows w.em.transactions)

-- The parts of it that the checks of the two transactions decide.
record PassesChecks (tx reference : WagerTransaction) : Type 0 where
  player : reference.player_id ≡ tx.player_id
  wallet : reference.wallet_id ≡ tx.wallet_id
  round : reference.round_id ≡ tx.round_id
  refund_of_bet : (tx.kind ≢ refund) ⊎ (reference.kind ≡ bet)
  kind : (reference.kind ≡ bet) ⊎ ((reference.kind ≡ win) ⊎ (reference.kind ≡ refund))

checks_pass :
    (tx reference : WagerTransaction)
    → same_owner reference tx ≡ true
    → valid_kind tx.kind reference.kind ≡ true
    → PassesChecks tx reference
unfolding same_owner valid_kind
checks_pass tx reference h k =
    let p = text_eq_iff reference.player_id tx.player_id in
    let q = text_eq_iff reference.wallet_id tx.wallet_id in
    let r = text_eq_iff reference.round_id tx.round_id in
    record {
      player = ground (arith, p, q, r);
      wallet = ground (arith, p, q, r);
      round = ground (arith, p, q, r);
      refund_of_bet = ground arith;
      kind = ground arith;
    }

found_by_external_id :
    (tx : WagerTransaction) (row : TransactionRow)
    → Repository.has_external_id tx.provider_id (text_of tx.reference_external_transaction_id) row
      ≡ true
    → is_falsy tx.reference_external_transaction_id ≡ false
    → (row.provider_id ≡ tx.provider_id)
      × (some row.external_transaction_id ≡ tx.reference_external_transaction_id)
found_by_external_id tx row h f = ground (
  arith,
  text_eq_iff row.provider_id tx.provider_id,
  text_eq_iff row.external_transaction_id (text_of tx.reference_external_transaction_id),
)

module _ {P : Platform} where
  check_reversal-resolved :
      (tx found reference : WagerTransaction) (w w' : World P)
      → check_reversal tx found w ≡ (ok (resolved reference), w')
      → (found ≡ reference)
        × (tx.money ≡ found.money)
        × (w' ≡ w)
        × ((Repository.find_processed_reversal found.id tx.kind w).0 ≡ ok none)
  unfolding check_reversal reversal_verdict
  check_reversal-resolved tx found reference w w' h =
      ground (arith, equals_iff tx.money found.money)

  check_status-resolved :
      (status : Status) (tx found reference : WagerTransaction) (w w' : World P)
      → check_status status tx found w ≡ (ok (resolved reference), w')
      → (status ≡ processed) × (check_reversal tx found w ≡ (ok (resolved reference), w'))
  unfolding check_status
  check_status-resolved processed tx found reference w w' h = (refl, h)
  check_status-resolved pending tx found reference w w' h = absurd (ground arith)
  check_status-resolved _ tx found reference w w' h = absurd (ground arith)

  check_found-resolved :
      (tx : WagerTransaction) (o : Option WagerTransaction) (reference : WagerTransaction)
      (w w' : World P)
      → check_found tx o w ≡ (ok (resolved reference), w')
      → (found : WagerTransaction) × (o ≡ some found)
        × (same_owner found tx ≡ true)
        × (valid_kind tx.kind found.kind ≡ true)
        × (check_status found.status tx found w ≡ (ok (resolved reference), w'))
  unfolding check_found
  check_found-resolved tx none reference w w' h = absurd (ground arith)
  check_found-resolved tx (some found) reference w w' h =
      (found, refl, ground arith, ground arith, ground arith)

  -- A reference that is resolved is a stored transaction of the same provider, player, wallet and
  -- round, with the external id that the transaction names and the same amount and currency; it is
  -- processed, a bet for a refund and a bet, a win or a refund for a rollback, and no stored
  -- processed transaction of the same kind refers to it; the call changes nothing.
  pub resolved_lem :
      (tx reference : WagerTransaction) (w w' : World P)
      → resolve_reference tx w ≡ (ok (resolved reference), w')
      → IsReference w tx reference × (w' ≡ w)
  unfolding resolve_reference
  resolved_lem tx reference w w' h =
      elim (Bool-cases (is_falsy tx.reference_external_transaction_id)) [
        | inl f ↦ absurd (ground arith)
        | inr f ↦
            let test =
              Repository.has_external_id tx.provider_id
                (text_of tx.reference_external_transaction_id) in
            let (o, e, k) = continue-ok (check_found tx) (Repository.find_one test w) (rw f at h) in
            let (found, eo, same, valid, k') = check_found-resolved tx o reference w w' k in
            let (processed_status, k'') =
              check_status-resolved found.status tx found reference w w' k' in
            let (eq, amount, unchanged, none_reversed) =
              check_reversal-resolved tx found reference w w' k'' in
            let (row, passes, is_stored, is_read) = find_one-found test w found (e ∙ ap ok eo) in
            let (provider, external_id) = found_by_external_id tx row passes f in
            let c = checks_pass tx found same valid in
            subst (λ r. IsReference w tx r × (w' ≡ w)) eq
              (
                record {
                  candidate = record {
                    row = row;
                    is_stored = is_stored;
                    is_read = is_read;
                    provider = provider;
                    external_id = external_id;
                    player = c.player;
                    wallet = c.wallet;
                    round = c.round;
                    money = amount;
                    refund_of_bet = c.refund_of_bet;
                    kind = c.kind;
                    status = processed_status;
                  };
                  not_reversed =
                      find_one-missing (Repository.is_processed_reversal found.id tx.kind) w
                        none_reversed;
                },
                unchanged,
              )
      ]
