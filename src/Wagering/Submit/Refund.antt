-- ===== src/Wagering/Submit/Refund.antt =====
-- src/wagering/application: the outcome of a refund, and of a rollback of a bet, from the reference
-- that it names to the wallet.
use distributed_wagering_pro.Wallets.Repository as Wallets
use distributed_wagering_pro.Wagering.Repository as Transactions
use distributed_wagering_pro.Wagering.Submit.{settle_claimed, resolve}
use distributed_wagering_pro.Wagering.Finalizer.{
  apply_effect, apply_movement, move_or_reject, new_movement,
}
use distributed_wagering_pro.Wagering.Resolution.{resolve_reference, resolved}
use distributed_wagering_pro.Wagering.Finalizer.Outcome.{processed_at, move-done}
use distributed_wagering_pro.Wagering.Resolution.Reference.{IsReference}
use distributed_wagering_pro.Wagering.Resolution.Resolves.{resolved_iff}
use distributed_wagering_pro.Wagering.Transaction.{
  WagerTransaction, is_terminal, is_falsy, affects_balance, ledger_direction_for, direction_alone,
  requires_reference, requires_reference_for, refund, rollback, bet,
}
use distributed_wagering_pro.Wagering.Row.{TransactionRow}
use distributed_wagering_pro.Wallets.Rows.{WalletRow}
use distributed_wagering_pro.Wallets.Wallet.{Wallet}
use distributed_wagering_pro.Wallets.Wallet.Laws.{IsValid, with_balance, credit_lem, moved_by}
use distributed_wagering_pro.Persistence.World.{Platform, World}
use distributed_wagering_pro.Persistence.Schema.{same_external_id}
use distributed_wagering_pro.Persistence.Ordering.{Distinct}
use distributed_wagering_pro.Persistence.Effect.{continue}
use distributed_wagering_pro.Kernel.Event.{EventContext, LedgerDirection}
use distributed_wagering_pro.Kernel.Errors.{ok}
use distributed_wagering_pro.Prelude.{
  ◌≡◌, ◌⊎◌, inl, inr, true, false, some, text_eq, ltb_ℤ, pos, ◌+ℤ◌, refl, ap, ◌∙◌,
}

module _ {P : Platform} (tx reference : WagerTransaction) (wallet : Wallet) (ctx : EventContext)
    (w : World P) where
  -- Both take the money of the bet back into the wallet.
  as_credit :
      (tx.kind ≡ refund) ⊎ (tx.kind ≡ rollback)
      → reference.kind ≡ bet
      → apply_effect tx wallet (some reference) ctx w
        ≡ move_or_reject LedgerDirection.credit tx wallet (some reference) ctx w
  unfolding apply_effect affects_balance apply_movement ledger_direction_for direction_alone
  as_credit (inl kind) of_bet = rw kind refl
  as_credit (inr kind) of_bet = rw (kind, of_bet) refl

  pub reverses : (tx.kind ≡ refund) ⊎ (tx.kind ≡ rollback) → requires_reference tx ≡ true
  unfolding requires_reference requires_reference_for
  reverses (inl kind) = rw kind refl
  reverses (inr kind) = rw kind refl

  as_resolved :
      requires_reference tx ≡ true
      → resolve_reference tx w ≡ (ok (resolved reference), w)
      → settle_claimed tx wallet ctx w ≡ apply_effect tx wallet (some reference) ctx w
  unfolding settle_claimed resolve
  as_resolved needs h = rw needs (ap (continue (λ o. resolve o tx wallet ctx)) h)

  -- A refund, and a rollback of a bet, that names a reference which is a stored and processed bet
  -- of the same owner, round and money that has not been reversed so, settles: where no two
  -- transactions of a provider have the same external id, the transaction is not in a terminal
  -- state, the amount is positive and in the currency of a valid wallet, and the rows of both are
  -- stored, the call returns the transaction processed with the bet as its reference, and the
  -- wallet with exactly the amount of the bet put back and its version one higher.
  pub settle_claimed-refund :
      (wallet_row : WalletRow) (row : TransactionRow)
      → Distinct same_external_id (P.tables.transactions.rows w.em.transactions)
      → is_falsy tx.reference_external_transaction_id ≡ false
      → IsReference w tx reference
      → (tx.kind ≡ refund) ⊎ (tx.kind ≡ rollback)
      → reference.kind ≡ bet
      → IsValid wallet
      → is_terminal tx ≡ false
      → text_eq reference.money.currency wallet.currency ≡ true
      → ltb_ℤ (pos 0) reference.money.minor_units ≡ true
      → P.tables.wallets.find_one (Wallets.has_id wallet.id) w.em.wallets ≡ some wallet_row
      → P.tables.transactions.find_one (Transactions.has_id tx.id) w.em.transactions ≡ some row
      → (settle_claimed tx wallet ctx w).0
        ≡ ok (
          processed_at (some reference) ctx.now tx,
          with_balance wallet
              (wallet.balance.minor_units +ℤ reference.money.minor_units)
              (new_movement tx ctx (P.new_id w.ids)),
        )
  settle_claimed-refund wallet_row row distinct given r kind of_bet v open_state currency amount
        found stored =
      let m = new_movement tx ctx (P.new_id w.ids) in
      let total = wallet.balance.minor_units +ℤ reference.money.minor_units in
      ap (λ x. x.0)
        (as_resolved (reverses kind) ((resolved_iff tx reference w distinct given).1 r)
          ∙ as_credit kind of_bet)
      ∙ move-done tx (some reference) ctx row LedgerDirection.credit wallet
          (moved_by LedgerDirection.credit wallet total tx.money m).0 (with_balance wallet total m)
          w wallet_row
          (credit_lem wallet tx.money m v ∙ rw (r.candidate.money, currency, amount) refl) found
          stored open_state
