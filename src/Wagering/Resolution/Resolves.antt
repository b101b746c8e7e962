-- ===== src/Wagering/Resolution/Resolves.antt =====
-- src/wagering/application/wager-transaction-finalizer.ts: exactly which references are resolved.
use distributed_wagering_pro.Wagering.Resolution.Reference.{IsCandidate, IsReference, resolved_lem}
use distributed_wagering_pro.Wagering.Resolution.{
  resolved, resolve_reference, check_found, check_status, check_reversal, reversal_verdict,
  same_owner, valid_kind, text_of,
}
use distributed_wagering_pro.Wagering.Repository.{
  has_external_id, is_processed_reversal, find_one, find_by_provider_and_external_id,
  find_processed_reversal,
}
use distributed_wagering_pro.Persistence.World.{Platform, World}
use distributed_wagering_pro.Persistence.Schema.{same_external_id}
use distributed_wagering_pro.Persistence.Ordering.{Distinct}
use distributed_wagering_pro.Persistence.Ordering.Keys.{Distinct-one_row}
use distributed_wagering_pro.Persistence.Balanced.{All-occurs}
use distributed_wagering_pro.Persistence.Effect.{map_found, lift, continue}
use distributed_wagering_pro.Wagering.Transaction.{WagerTransaction, is_falsy}
use distributed_wagering_pro.Wagering.Row.{TransactionRow, to_wager_transaction}
use distributed_wagering_pro.Kernel.Errors.{ok}
use distributed_wagering_pro.Kernel.Money.Laws.{equals_iff}
use distributed_wagering_pro.Prelude.{
  ◌≡◌, ◌↔◌, false, true, arith, Option, some, none, refl, text_eq_iff, text_eq_refl, ap, sym, ◌∙◌,
  Bool,
}

module _ {P : Platform} (tx reference : WagerTransaction) (w : World P)
    (r : IsCandidate w tx reference) where
  named : text_of tx.reference_external_transaction_id ≡ r.row.external_transaction_id
  named = ap text_of (sym r.external_id)

  row_passes :
      has_external_id tx.provider_id (text_of tx.reference_external_transaction_id) r.row ≡ true
  row_passes =
      rw (r.provider, named)
        (ground (arith, text_eq_refl tx.provider_id, text_eq_refl r.row.external_transaction_id))

  -- The query finds the row of the reference, since no other row has its external id.
  query_finds :
      Distinct same_external_id (P.tables.transactions.rows w.em.transactions)
      → P.tables.transactions.find_one
          (has_external_id tx.provider_id (text_of tx.reference_external_transaction_id))
          w.em.transactions
        ≡ some r.row
  query_finds distinct = by_found (P.tables.transactions.find_one test w.em.transactions) refl
    where
      test : TransactionRow → Bool
      test = has_external_id tx.provider_id (text_of tx.reference_external_transaction_id)

      same_key :
          (s : TransactionRow)
          → test s ≡ true
          → (same_external_id s r.row ≡ true) × (same_external_id r.row s ≡ true)
      same_key s h =
          let p = (text_eq_iff s.provider_id tx.provider_id).0 (ground arith) in
          let q =
            (text_eq_iff s.external_transaction_id (text_of tx.reference_external_transaction_id)).0
              (ground arith) in
          let a = text_eq_refl tx.provider_id in
          let b = text_eq_refl r.row.external_transaction_id in
          rw (p, q ∙ named, r.provider) (ground arith, ground arith)

      by_found :
          (o : Option TransactionRow)
          → P.tables.transactions.find_one test w.em.transactions ≡ o
          → o ≡ some r.row
      by_found none e = absurd (
          cc (
            row_passes,
            All-occurs (λ s. test s ≡ false) (P.tables.transactions.rows w.em.transactions)
                (P.tables.transactions.find_one-none test w.em.transactions e) r.is_stored,
          ))
      by_found (some s) e =
          let (passes, o) = P.tables.transactions.find_one-some test w.em.transactions s e in
          let h = same_key s passes in
          ap some (
            Distinct-one_row same_external_id (P.tables.transactions.rows w.em.transactions)
              distinct o r.is_stored h.0 h.1)

  owner : same_owner reference tx ≡ true
  unfolding same_owner
  owner =
      rw (r.player, r.wallet, r.round, r.money)
        (ground (
          arith,
          text_eq_refl tx.player_id,
          text_eq_refl tx.wallet_id,
          text_eq_refl tx.round_id,
          text_eq_refl reference.money.currency,
        ))

  kind : valid_kind tx.kind reference.kind ≡ true
  unfolding valid_kind
  kind = let a = r.refund_of_bet in let b = r.kind in ground arith

  -- What is left is whether it has been reversed.
  checks : check_found tx (some reference) w ≡ check_reversal tx reference w
  unfolding check_found check_status
  checks = rw (owner, kind, r.status) refl

  row_read : map_found to_wager_transaction (some r.row) ≡ ok (some reference)
  row_read = rw (map_found, r.is_read) refl

  pub candidate-check_reversal :
      Distinct same_external_id (P.tables.transactions.rows w.em.transactions)
      → is_falsy tx.reference_external_transaction_id ≡ false
      → resolve_reference tx w ≡ check_reversal tx reference w
  unfolding resolve_reference find_by_provider_and_external_id find_one
  candidate-check_reversal distinct given =
      rw (given, query_finds distinct)
        (ap (λ o. continue (check_found tx) (o, w)) row_read ∙ checks)

module _ {P : Platform} (tx reference : WagerTransaction) (w : World P)
    (r : IsReference w tx reference) where
  not_yet : find_processed_reversal reference.id tx.kind w ≡ (ok none, w)
  unfolding find_processed_reversal find_one
  not_yet = by_found (P.tables.transactions.find_one test w.em.transactions) refl
    where
      test : TransactionRow → Bool
      test = is_processed_reversal reference.id tx.kind

      by_found :
          (o : Option TransactionRow)
          → P.tables.transactions.find_one test w.em.transactions ≡ o
          → lift (map_found to_wager_transaction o) w ≡ (ok none, w)
      by_found none e = refl
      by_found (some s) e =
          let (passes, o) = P.tables.transactions.find_one-some test w.em.transactions s e in
          absurd (
            cc (
              passes,
              All-occurs (λ s. test s ≡ false) (P.tables.transactions.rows w.em.transactions)
                  r.not_reversed o,
            ))

  resolves :
      Distinct same_external_id (P.tables.transactions.rows w.em.transactions)
      → is_falsy tx.reference_external_transaction_id ≡ false
      → resolve_reference tx w ≡ (ok (resolved reference), w)
  unfolding check_reversal reversal_verdict
  resolves distinct given =
      candidate-check_reversal tx reference w r.candidate distinct given
      ∙ rw ((equals_iff tx.money reference.money).1 r.candidate.money, not_yet) refl

-- Where no two transactions of a provider have the same external id, a transaction that names a
-- reference resolves exactly to its references: the call returns, with nothing changed, a stored
-- transaction of the same provider, player, wallet and round, with the external id that is named
-- and the same amount and currency, if that is processed, is a bet for a refund and a bet, a win
-- or a refund for a rollback, and no stored processed transaction of the same kind refers to it;
-- and it returns no other transaction.
pub resolved_iff :
    {P : Platform} (tx reference : WagerTransaction) (w : World P)
    → Distinct same_external_id (P.tables.transactions.rows w.em.transactions)
    → is_falsy tx.reference_external_transaction_id ≡ false
    → (resolve_reference tx w ≡ (ok (resolved reference), w)) ↔ IsReference w tx reference
resolved_iff tx reference w distinct given =
    (λ h. (resolved_lem tx reference w w h).0, λ r. resolves tx reference w r distinct given)
